-- ===== src/Client.antt =====
-- client.go: the client's streams, and its calls on them. Streams are shared by pointer between the map
-- of the client and the callers, so they live in a store of their own.
pub mod Calls
pub mod Call
pub mod Streaming
pub mod Identifiers
pub mod Cleanup
pub mod System
use ttrpc.Prelude.{
  ℕ, ◌+◌, ◌-◌, ◌%◌, String, Bool, true, false, not, ◌&&◌, ◌||◌, Option, none, some, [], ◌∷◌,
  if◌then◌else◌, ◌==◌, nat_eq, string_eq,
}
use ttrpc.Prelude.Assoc.{Assoc, lookup, insert, delete}
use ttrpc.Errors.{
  Error, Slice, err_closed, ctx_canceled, eof, closed_pipe, op, broken_pipe, conn_reset,
  closed_conn, wrap, oversized,
}
use ttrpc.Frame.{message_type_request}
use ttrpc.Channel.{Writer, Received, send}
use ttrpc.Request.{Libraries}
use ttrpc.Services.{Wait, done, blocked, panics}
use ttrpc.Stream.{Stream, StreamMessage, new_stream, close_with_error, receive}

-- `store` are all streams that were made, by pointer; `streams` the client's map from identifiers;
-- `cancelled` says that `ctx` is done; `conn_closed`, that `conn.Close` was called; `user_closed` counts
-- the calls of `userCloseFunc`.
pub record Client : Type 0 where
  pub writer : Writer
  pub store : Assoc ℕ Stream
  pub next_pointer : ℕ
  pub streams : Assoc ℕ ℕ
  pub next_stream_id : ℕ
  pub cancelled : Bool
  pub conn_closed : Bool
  pub user_closed : ℕ

-- `NewClient`
unfoldable pub new_client : Writer → Client
new_client w = record {
  writer = w;
  store = [];
  next_pointer = 0;
  streams = [];
  next_stream_id = 1;
  cancelled = false;
  conn_closed = false;
  user_closed = 0;
}

-- What the tests of `filterCloseErr` look for along the chain of wrapped errors: EOF or ErrClosedPipe,
-- or the text of net's error for a closed connection.
is_closing_error : Error → Bool
is_closing_error eof = true
is_closing_error closed_pipe = true
is_closing_error closed_conn = true
is_closing_error (wrap s e) = is_closing_error e
is_closing_error (op s e) = is_closing_error e
is_closing_error (oversized n e) = is_closing_error e
is_closing_error _ = false

-- `errors.Is` of EPIPE, and of ECONNRESET
is_broken_pipe : Error → Bool
is_broken_pipe broken_pipe = true
is_broken_pipe (wrap s e) = is_broken_pipe e
is_broken_pipe (op s e) = is_broken_pipe e
is_broken_pipe (oversized n e) = is_broken_pipe e
is_broken_pipe _ = false

is_conn_reset : Error → Bool
is_conn_reset conn_reset = true
is_conn_reset (wrap s e) = is_conn_reset e
is_conn_reset (op s e) = is_conn_reset e
is_conn_reset (oversized n e) = is_conn_reset e
is_conn_reset _ = false

-- The name of the operation of the first `net.OpError` in the chain, as `errors.As` finds it
op_of : Error → Option String
op_of (op s e) = some s
op_of (wrap s e) = op_of e
op_of (oversized n e) = op_of e
op_of _ = none

is_dead_peer : Error → Option String → Bool
is_dead_peer e none = false
is_dead_peer e (some o) = (o == "write" && is_broken_pipe e) || (o == "read" && is_conn_reset e)

-- `filterCloseErr`, of an error that is not nil
pub filter_close_err : Error → Error
unfolding is_closing_error is_dead_peer op_of
filter_close_err e = if is_closing_error e || is_dead_peer e (op_of e) then err_closed else e

abbrev pub filter_close_err? : Option Error → Option Error
filter_close_err? none = none
filter_close_err? (some e) = some (filter_close_err e)

-- The part of `createStream` under `streamLock`.
unfoldable pub add_stream : Client → Client
add_stream c = record c {
  store = insert c.next_pointer (new_stream c.next_stream_id) c.store;
  next_pointer = c.next_pointer + 1;
  streams = insert c.next_stream_id c.next_pointer c.streams;
  next_stream_id = (c.next_stream_id + 2) % 4294967296;
}

-- What `createStream` returns: the stream's pointer (it comes with the error of a failed send too) and
-- the error.
pub record Created : Type 0 where
  pub pointer : Option ℕ
  pub error : Option Error
  pub client : Client

unfoldable pub send_request : ℕ → ℕ → Slice → Client → Created
send_request id flags b c =
    let (failed, w) = send id message_type_request flags b c.writer in
    record {
      pointer = some (c.next_pointer - 1);
      error = filter_close_err? failed;
      client = record c { writer = w };
    }

-- `createStream`
unfoldable pub create_stream : ℕ → Slice → Client → Created
create_stream flags b c =
    if c.cancelled
    then record { pointer = none; error = some err_closed; client = c }
    else send_request c.next_stream_id flags b (add_stream c)

abbrev pub set_stream : ℕ → Stream → Client → Client
set_stream ptr s c = record c { store = insert ptr s c.store }

unfoldable pub close_pointer : Option Error → ℕ → Client → Client
close_pointer e ptr c = elim (lookup ptr c.store) [
  | none ↦ c
  | some s ↦ set_stream ptr (close_with_error e s) c
]

-- `deleteStream`
unfoldable pub delete_stream : ℕ → Client → Client
delete_stream ptr c = elim (lookup ptr c.store) [
  | none ↦ c
  | some s ↦ close_pointer none ptr (record c { streams = delete s.id c.streams })
]

-- `getStream`
unfoldable pub get_stream : ℕ → Client → Option ℕ
get_stream sid c = lookup sid c.streams

-- The loop of `cleanupStreams`, over the entries of the map.
pub cleanup_entries : Option Error → Assoc ℕ ℕ → Client → Client
cleanup_entries e [] c = c
cleanup_entries e ((sid, ptr) ∷ rest) c = cleanup_entries e rest (close_pointer e ptr c)

pub cleanup_streams : Option Error → Client → Client
cleanup_streams e c = record (cleanup_entries e c.streams c) { streams = [] }

-- `conn.Close` on the writing side: the connection takes no more bytes.
abbrev shut_writer : Writer → Writer
shut_writer w = record w { conn = record { wire = w.conn.wire; room = some (0, closed_conn) } }

-- `Close`, through `closeOnce`
pub close : Client → Client
close c = record c { writer = shut_writer c.writer; cancelled = true; conn_closed = true }

-- The end of `run`, with what `receiveLoop` returned.
pub finish_run : Error → Client → Client
finish_run e c =
    let d = cleanup_streams (some e) (close c) in record d { user_closed = d.user_closed + 1 }

-- What one round of `receiveLoop` does.
pub data Round : Type 0 where
  again : Client → Round
  ends : Error → Round
  waits : ℕ → Round

abbrev pub message_of : Received → StreamMessage
message_of got = record { header = got.header; payload = got.payload }

unfoldable pub hand_over : ℕ → Client → Wait (Option Error × Stream) → Round
hand_over ptr c (done (e, s)) = again (set_stream ptr s c)
hand_over ptr c blocked = waits ptr
hand_over ptr c panics = again c

-- A message for the stream behind a pointer. (Every pointer in the map is in the store.)
unfoldable pub to_stream : Bool → Received → ℕ → Client → Option Stream → Round
to_stream pick got ptr c none = again c
to_stream pick got ptr c (some s) = elim got.error [
  | some e ↦ again (set_stream ptr (close_with_error (some e) s) c)
  | none ↦
      hand_over ptr c
        (receive pick (if c.cancelled then some ctx_canceled else none) (message_of got) s)
]

unfoldable pub to_inactive : Bool → Received → Client → Option ℕ → Round
to_inactive pick got c none = again c
to_inactive pick got c (some ptr) = to_stream pick got ptr c (lookup ptr c.store)

-- Whether an error of `recv` is no rpc status.
abbrev pub is_terminal : Libraries → Option Error → Bool
is_terminal lib none = false
is_terminal lib (some e) = not (lib.from_error e).1

abbrev pub loop_error : Option Error → Error
loop_error none = err_closed
loop_error (some e) = filter_close_err e

-- The rest of a round of `receiveLoop`, from the result of `recv` on
abbrev pub received_round : Libraries → Bool → Received → Client → Round
received_round lib pick got c =
    if is_terminal lib got.error
    then ends (loop_error got.error)
    else to_inactive pick got c (get_stream got.header.stream_id c)

-- One round of `receiveLoop`, from its test of the context and the result of `recv`.
pub receive_round : Libraries → Bool → Received → Client → Round
receive_round lib pick got c =
    if c.cancelled then ends err_closed else received_round lib pick got c
