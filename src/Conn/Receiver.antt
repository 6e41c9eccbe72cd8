-- ===== src/Conn/Receiver.antt =====
-- server.go, the receiving goroutine of `serverConn.run`: what it does with one message up to the next
-- action that can wait or that others can come between.
pub mod Fresh
pub mod Turns
use ttrpc.Prelude.{
  ℕ, ◌%◌, Bool, true, false, not, ◌&&◌, Option, none, some, ltb, leb, if◌then◌else◌, ◌==◌, nat_eq,
  string_eq,
}
use ttrpc.Prelude.Assoc.{lookup, insert}
use ttrpc.Errors.{Error, Result, ok, err, Slice, Status, Code, Message, plain, with_err}
use ttrpc.Frame.{
  MessageHeader, message_type_request, message_type_data, flag_remote_closed, flag_no_data,
}
use ttrpc.Channel.{Received, slice_length}
use ttrpc.Request.{Request, Libraries}
use ttrpc.Services.{
  StreamHandler, ServiceSet, StreamSpec, Wait, done, blocked, panics, push_data, close_send, handle,
  Handled, refused, unary, streaming, failing, waiting, panicking,
}
use ttrpc.Conn.{Conn, Reply, has_flag}

-- What the goroutine does when its status has been taken.
pub data After : Type 0 where
  proceed : After
  assert_handler : After
  close_side : MessageHeader → Slice → After

-- Where the goroutine stands: at the head of its loop; in `recv`; in `sendStatus`; in `sh.data`, with the channel
-- full; between `handle` and `streams.Store`, and between that and the count; returned, with what it
-- left in `recvErr`; or ended by a Go panic.
pub data Place : Type 0 where
  reading : Place
  receiving : Place
  reporting : Reply → After → Place
  delivering : MessageHeader → Slice → Place
  storing : ℕ → Bool → Place
  counting : Place
  stopped : Option Error → Place
  panicked : Place

-- A goroutine that `handle` started: whether it runs a stream's handler, and the stream's
-- `StreamingServer`.
pub record Job : Type 0 where
  pub is_stream : Bool
  pub streaming_server : Bool

pub record Turn : Type 0 where
  pub conn : Conn
  pub place : Place
  pub spawned : Option Job

abbrev pub turn : Conn → Place → Turn
turn c p = record { conn = c; place = p; spawned = none }

abbrev pub status_reply : ℕ → Status → Reply
status_reply id st = record {
  id = id;
  status = some st;
  payload = none;
  close_stream = true;
  streaming = false;
}

abbrev pub invalid_argument : Message → Status
invalid_argument m = record { code = Code.invalid_argument; message = m }

abbrev pub must_be_odd : Status
must_be_odd = invalid_argument (plain "StreamID must be odd for client initiated streams")

abbrev pub no_longer_active : Status
no_longer_active = invalid_argument (plain "StreamID is no longer active")

abbrev pub must_increment : Status
must_increment = invalid_argument (plain "StreamID cannot be re-used and must increment")

abbrev close_with_data : Status
close_with_data = invalid_argument (plain "data close message cannot include data")

abbrev data_handling_error : Error → Status
data_handling_error e = invalid_argument (with_err "data handling error: %v" e)

abbrev unmarshal_error : Error → Status
unmarshal_error e = invalid_argument (with_err "unmarshal request error: %v" e)

-- The handler of a stream's pointer is always there; `none` is a nil pointer, whose use panics.
unfoldable pub closed_side : MessageHeader → Slice → Conn → Wait StreamHandler → Turn
closed_side mh p c (done sh) =
    let c' = record c { handlers = insert mh.stream_id sh c.handlers } in
    if ltb 0 (slice_length p)
    then turn c' (reporting (status_reply mh.stream_id close_with_data) proceed)
    else turn c' reading
closed_side mh p c _ = turn c panicked

-- The second half of the data branch: the peer's side is closed.
unfoldable pub on_close : MessageHeader → Slice → Conn → Turn
unfolding closed_side
on_close mh p c =
    if has_flag mh.flags flag_remote_closed
    then (elim (lookup mh.stream_id c.handlers) [
      | some sh ↦ closed_side mh p c (close_send sh)
      | none ↦ turn c panicked
    ])
    else turn c reading

unfoldable pub delivered : MessageHeader → Slice → Conn → Wait (Option Error × StreamHandler) → Turn
unfolding on_close
delivered mh p c (done (none, sh)) =
    on_close mh p (record c { handlers = insert mh.stream_id sh c.handlers })
delivered mh p c (done (some e, sh)) =
    turn c (reporting (status_reply mh.stream_id (data_handling_error e)) (close_side mh p))
delivered mh p c blocked = turn c (delivering mh p)
delivered mh p c panics = turn c panicked

-- `sh.data`, where it does not wait
unfoldable pub deliver_data : Bool → MessageHeader → Slice → Conn → Turn
unfolding delivered
deliver_data pick mh p c = elim (lookup mh.stream_id c.handlers) [
  | some sh ↦ delivered mh p c (push_data pick p sh)
  | none ↦ turn c panicked
]

-- A stream with a handler, and the nil handler of a unary call.
unfoldable pub on_stream_data : Bool → MessageHeader → Slice → Conn → Bool → Turn
unfolding deliver_data on_close
on_stream_data pick mh p c true =
    if has_flag mh.flags flag_no_data then on_close mh p c else deliver_data pick mh p c
on_stream_data pick mh p c false =
    if has_flag mh.flags flag_no_data && not (has_flag mh.flags flag_remote_closed)
    then turn c reading
    else turn c panicked

-- A data message.
unfoldable pub on_data : Bool → MessageHeader → Slice → Conn → Turn
unfolding on_stream_data
on_data pick mh p c = elim (lookup mh.stream_id c.streams) [
  | some has_handler ↦ on_stream_data pick mh p c has_handler
  | none ↦ turn c (reporting (status_reply mh.stream_id no_longer_active) assert_handler)
]

abbrev pub unary_job : Job
unary_job = record { is_stream = false; streaming_server = false }

abbrev stream_job : {H : Type 0} → StreamSpec H → Job
stream_job spec = record { is_stream = true; streaming_server = spec.streaming_server }

-- An error of `ch.recv`, with what `status.FromError` says of it.
unfoldable pub on_recv_error : ℕ → Error → Conn → Status × Bool → Turn
on_recv_error id e c (st, true) = turn c (reporting (status_reply id st) proceed)
on_recv_error id e c (st, false) = turn c (stopped (some e))

module _ {M H : Type 0} (lib : Libraries) where
  -- What follows `handle`: its goroutine, if it started one, runs from here on. A `data` that waited or
  -- panicked inside `handle` would stop the receiver for good; both are put as the panic.
  unfoldable pub on_handled : ℕ → Conn → Handled M H → Turn
  on_handled id c (refused e) = turn c (reporting (status_reply id (lib.from_error e).0) proceed)
  on_handled id c (unary m) = record {
    conn = c;
    place = storing id false;
    spawned = some unary_job;
  }
  on_handled id c (streaming spec sh) = record {
    conn = record c { handlers = insert id sh c.handlers };
    place = storing id true;
    spawned = some (stream_job spec);
  }
  on_handled id c (failing spec sh e) = record {
    conn = record c { handlers = insert id sh c.handlers };
    place = reporting (status_reply id (lib.from_error e).0) proceed;
    spawned = some (stream_job spec);
  }
  on_handled id c (waiting spec) = turn c panicked
  on_handled id c panicking = turn c panicked

  unfoldable pub on_unmarshalled :
      Bool → Option Error → ServiceSet M H → ℕ → Conn → Result Request → Turn
  on_unmarshalled pick ctx svc id c (err e) =
      turn c (reporting (status_reply id (unmarshal_error e)) proceed)
  on_unmarshalled pick ctx svc id c (ok req) = on_handled id c (handle pick ctx req svc)

  -- A request message.
  unfoldable pub on_request :
      Bool → Option Error → ServiceSet M H → MessageHeader → Slice → Conn → Turn
  on_request pick ctx svc mh p c =
      if leb mh.stream_id c.last_stream_id
      then turn c (reporting (status_reply mh.stream_id must_increment) proceed)
      else on_unmarshalled pick ctx svc mh.stream_id (record c { last_stream_id = mh.stream_id })
          (lib.unmarshal_request p)

  unfoldable pub on_odd_message :
      Bool → Option Error → ServiceSet M H → MessageHeader → Slice → Conn → Turn
  on_odd_message pick ctx svc mh p c =
      if mh.type == message_type_data
      then on_data pick mh p c
      else if mh.type == message_type_request
      then on_request pick ctx svc mh p c
      else turn c reading

  unfoldable pub on_message :
      Bool → Option Error → ServiceSet M H → MessageHeader → Slice → Conn → Turn
  on_message pick ctx svc mh p c =
      if mh.stream_id % 2 == 1
      then on_odd_message pick ctx svc mh p c
      else turn c (reporting (status_reply mh.stream_id must_be_odd) proceed)

  -- One round of the goroutine's loop, from the result of `ch.recv`.
  unfoldable pub on_received : Bool → Option Error → ServiceSet M H → Received → Conn → Turn
  on_received pick ctx svc got c = elim got.error [
    | some e ↦ on_recv_error got.header.stream_id e c (lib.from_error e)
    | none ↦ on_message pick ctx svc got.header got.payload c
  ]
