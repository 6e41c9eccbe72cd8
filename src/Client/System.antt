-- ===== src/Client/System.antt =====
-- client.go as a whole: the receive loop of `run`, the goroutines that call `dispatch`, and the users of
-- streams, one atomic action of one of them at a time. `createStream` holds `sendLock`, and what it sends
-- touches nothing that others read, so it is one action; so is the end of `dispatch` with its deferred
-- `deleteStream`, and a method of a stream from its `select` on.
pub mod Evolution
pub mod Removal
pub mod Growth
pub mod Effects
pub mod Users
pub mod Invariant
pub mod Steps
pub mod Runs
pub mod Ended
pub mod Track
pub mod Rounds
pub mod Follows
pub mod Answer
use ttrpc.Prelude.{
  ℕ, ◌+◌, Bool, Option, none, some, List, [], ◌∷◌, if◌then◌else◌, nat_eq, string_eq,
}
use ttrpc.Prelude.Assoc.{Assoc, lookup, insert}
use ttrpc.Prelude.Sets.{contains, remove}
use ttrpc.Errors.{Slice, Error, Result, err_closed, ctx_canceled}
use ttrpc.Services.{Wait, done}
use ttrpc.Channel.{Writer, Received}
use ttrpc.Request.{Libraries, Request, Response}
use ttrpc.Stream.{Stream, receive_waited}
use ttrpc.Client.{
  ctx_canceled, err_closed, Wait, Error, Client, new_client, Round, again, ends, waits,
  received_round, message_of, set_stream, close, cleanup_streams,
}
use ttrpc.Client.Streaming.{
  ClientStream, Opening, refused, opened, Outcome, close_send, send_msg, recv_msg, new_stream_call,
}
use ttrpc.Client.Calls.{Dispatched, failed, waiting, dispatch_start, dispatch_end}

-- Where `run` is: at the loop's test of the context; in `recv`; in `receive` of the stream behind a
-- pointer, with what was received; behind the loop, with its error; behind `Close`; behind
-- `cleanupStreams`; at its end.
pub data Place : Type 0 where
  testing receiving : Place
  handing : Received → ℕ → Place
  returned closing : Error → Place
  cleaned over : Place

-- `waiting` are the pointers of the streams on which a `dispatch` waits; `opened` are the streams that
-- `NewStream` gave out, by pointer.
pub record System : Type 0 where
  pub client : Client
  pub place : Place
  pub waiting : List ℕ
  pub opened : Assoc ℕ ClientStream

-- `call`: `dispatch` up to its `select`. `call_end`: a case of that `select`, and its return. `test`: the
-- loop's test. `receive`: `recv` returns. `hand`: a waiting `receive` goes on. `go_on`: the next
-- statement of `run`. `user_close`: `Close`. `new_stream`, `stream_close`, `stream_send`, `stream_recv`:
-- `NewStream`, `CloseSend`, `SendMsg` and `RecvMsg`.
pub data Event : Type 0 where
  call : Request → Event
  call_end : ℕ → Bool → Bool → Option Error → Event
  test go_on user_close : Event
  receive : Bool → Received → Event
  hand : Bool → Bool → Event
  new_stream : Bool → Bool → Request → Event
  stream_close : ℕ → Event
  stream_send : ℕ → Result Slice → Event
  stream_recv : ℕ → (Slice → Option Error) → Bool → Option Error → Event

abbrev pub after_start : System → Dispatched → System
after_start s (failed e c) = record s { client = c }
after_start s (waiting ptr c) = record s { client = c; waiting = ptr ∷ s.waiting }

abbrev pub after_end : ℕ → System → Option (Result Response × Client) → Option System
after_end ptr s none = none
after_end ptr s (some (r, c)) = some (record s { client = c; waiting = remove ptr s.waiting })

abbrev pub after_opening : System → Opening → System
after_opening s (refused e c) = record s { client = c }
after_opening s (opened cs c) = record s { client = c; opened = insert cs.pointer cs s.opened }

abbrev pub after_method : ℕ → System → Outcome → System
after_method ptr s o = record s { client = o.client; opened = insert ptr o.stream s.opened }

abbrev pub after_method? : ℕ → System → Option Outcome → Option System
after_method? ptr s none = none
after_method? ptr s (some o) = some (after_method ptr s o)

abbrev pub after_round : Received → System → Round → System
after_round got s (again c) = record s { client = c; place = testing }
after_round got s (ends e) = record s { place = returned e }
after_round got s (waits ptr) = record s { place = handing got ptr }

abbrev pub after_hand : ℕ → System → Wait (Option Error × Stream) → Option System
after_hand ptr s (Wait.done (e, st)) =
    some (record s { client = set_stream ptr st s.client; place = testing })
after_hand ptr s _ = none

-- `ctx.Err()` of the client's context
abbrev pub context_error : Client → Option Error
context_error c = if c.cancelled then some ctx_canceled else none

pub hand_step : Bool → Bool → Received → ℕ → System → Option Stream → Option System
hand_step first pick got ptr s none = none
hand_step first pick got ptr s (some st) =
    after_hand ptr s (receive_waited first pick (context_error s.client) (message_of got) st)

module _ (lib : Libraries) where
  unfoldable pub run_step : Place → Event → System → Option System
  run_step testing test s =
      some (record s { place = if s.client.cancelled then returned err_closed else receiving })
  run_step receiving (receive pick got) s =
      some (after_round got s (received_round lib pick got s.client))
  run_step (handing got ptr) (hand first pick) s =
      hand_step first pick got ptr s (lookup ptr s.client.store)
  run_step (returned e) go_on s = some (record s { client = close s.client; place = closing e })
  run_step (closing e) go_on s =
      some (record s { client = cleanup_streams (some e) s.client; place = cleaned })
  run_step cleaned go_on s = some (record s {
    client = record s.client { user_closed = s.client.user_closed + 1 };
    place = over;
  })
  run_step _ _ s = none

  -- A method of the stream behind a pointer
  pub stream_step : ℕ → Event → System → Option ClientStream → Option System
  stream_step ptr e s none = none
  stream_step ptr (stream_close _) s (some cs) = some (after_method ptr s (close_send cs s.client))
  stream_step ptr (stream_send _ p) s (some cs) = some (after_method ptr s (send_msg p cs s.client))
  stream_step ptr (stream_recv _ unmarshal pick ctx) s (some cs) =
      after_method? ptr s (recv_msg lib unmarshal pick ctx cs s.client)
  stream_step ptr _ s (some cs) = none

  -- `none`: the action is not enabled.
  unfoldable pub step : Event → System → Option System
  step (call req) s = some (after_start s (dispatch_start lib req s.client))
  step (call_end ptr pick first ctx) s =
      if contains ptr s.waiting
      then after_end ptr s (dispatch_end lib pick first ctx ptr s.client)
      else none
  step (new_stream sends gets req) s =
      some (after_opening s (new_stream_call lib sends gets req s.client))
  step (stream_close ptr) s = stream_step ptr (stream_close ptr) s (lookup ptr s.opened)
  step (stream_send ptr p) s = stream_step ptr (stream_send ptr p) s (lookup ptr s.opened)
  step (stream_recv ptr unmarshal pick ctx) s =
      stream_step ptr (stream_recv ptr unmarshal pick ctx) s (lookup ptr s.opened)
  step user_close s = some (record s { client = close s.client })
  step e s = run_step s.place e s

  unfoldable pub run : List Event → System → Option System
  run [] s = some s
  run (e ∷ es) s = elim (step e s) [ some s' ↦ run es s' | none ↦ none ]

-- `NewClient`
unfoldable pub start : Writer → System
start w = record { client = new_client w; place = testing; waiting = []; opened = [] }
