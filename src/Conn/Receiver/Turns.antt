-- ===== src/Conn/Receiver/Turns.antt =====
-- The receiver's turn on each kind of message.
use ttrpc.Prelude.{
  ℕ, ◌%◌, ◌≤◌, ◌<◌, ◌≡◌, Bool, true, false, Option, none, some, [], ◌∷◌, ◌++◌, arith, nat_eq,
  string_eq, length,
}
use ttrpc.Prelude.Assoc.{lookup}
use ttrpc.Errors.{Error, ok}
use ttrpc.Frame.{message_type_data, message_type_request, flag_no_data}
use ttrpc.Channel.{Received}
use ttrpc.Request.{Libraries, Request}
use ttrpc.Services.{ServiceSet, handle, unary}
use ttrpc.Services.Handler.{push_data-queue}
use ttrpc.Services.{StreamHandler, recv_capacity, close_send, done}
use ttrpc.Frame.{flag_remote_closed}
use ttrpc.Channel.{slice_length}
use ttrpc.Prelude.Assoc.{insert}
use ttrpc.Conn.{Slice, Conn, has_flag}
use ttrpc.Conn.Receiver.{
  reading, MessageHeader, on_close, closed_side, delivered, deliver_data, proceed, assert_handler,
  storing, reporting, panicked, Turn, turn, status_reply, no_longer_active, must_be_odd,
  must_increment, on_data, on_stream_data, on_handled, on_unmarshalled, on_request, on_odd_message,
  on_message, on_received, unary_job,
}

-- A message that `recv` returned without an error, of this type and on an odd stream.
pub record IsOdd (t : ℕ) (got : Received) : Type 0 where
  pub whole : got.error ≡ none
  pub odd : got.header.stream_id % 2 ≡ 1
  pub typed : got.header.type ≡ t

module _ {M H : Type 0} (lib : Libraries) (svc : ServiceSet M H) (pick : Bool) (ctx : Option Error)
    (got : Received) (c : Conn) where
  abbrev answer : Turn
  answer = on_received lib pick ctx svc got c

  data_turn : IsOdd message_type_data got → answer ≡ on_data pick got.header got.payload c
  unfolding on_received on_message on_odd_message
  data_turn d = ground arith

  request_turn :
      IsOdd message_type_request got → answer ≡ on_request lib pick ctx svc got.header got.payload c
  unfolding on_received on_message on_odd_message
  request_turn d = ground arith

  pub unknown_data :
      IsOdd message_type_data got
      → lookup got.header.stream_id c.streams ≡ none
      → answer
        ≡ turn c (reporting (status_reply got.header.stream_id no_longer_active) assert_handler)
  unfolding on_data
  unknown_data d e = ground (arith, data_turn d)

  pub unary_data :
      IsOdd message_type_data got
      → lookup got.header.stream_id c.streams ≡ some false
      → has_flag got.header.flags flag_no_data ≡ false
      → answer ≡ turn c panicked
  unfolding on_data on_stream_data
  unary_data d e f = ground (arith, data_turn d)

  -- The handler of the message's stream is this from now on.
  abbrev with_handler : StreamHandler → Turn
  with_handler sh = turn (record c { handlers = insert got.header.stream_id sh c.handlers }) reading

  pub stream_data :
      (sh : StreamHandler)
      → IsOdd message_type_data got
      → lookup got.header.stream_id c.streams ≡ some true
      → lookup got.header.stream_id c.handlers ≡ some sh
      → has_flag got.header.flags flag_no_data ≡ false
      → has_flag got.header.flags flag_remote_closed ≡ false
      → sh.remote_closed ≡ false
      → sh.recv_closed ≡ false
      → sh.ctx_error ≡ none
      → length sh.recv < recv_capacity
      → answer ≡ with_handler (record sh { recv = sh.recv ++ got.payload ∷ [] })
  unfolding on_data on_stream_data deliver_data delivered on_close
  stream_data sh d e h n f o k x l =
      ground (arith, data_turn d, push_data-queue sh pick got.payload)

  pub stream_close :
      (sh t : StreamHandler)
      → IsOdd message_type_data got
      → lookup got.header.stream_id c.streams ≡ some true
      → lookup got.header.stream_id c.handlers ≡ some sh
      → has_flag got.header.flags flag_no_data ≡ true
      → has_flag got.header.flags flag_remote_closed ≡ true
      → slice_length got.payload ≡ 0
      → close_send sh ≡ done t
      → answer ≡ with_handler t
  unfolding on_data on_stream_data on_close closed_side
  stream_close sh t d e h n f l o = ground (arith, data_turn d)

  pub even_message :
      got.error ≡ none
      → got.header.stream_id % 2 ≡ 0
      → answer ≡ turn c (reporting (status_reply got.header.stream_id must_be_odd) proceed)
  unfolding on_received on_message
  even_message w e = ground arith

  pub reused_request :
      IsOdd message_type_request got
      → got.header.stream_id ≤ c.last_stream_id
      → answer ≡ turn c (reporting (status_reply got.header.stream_id must_increment) proceed)
  unfolding on_request
  reused_request d l = ground (arith, request_turn d)

  pub unary_request :
      (req : Request) (m : M)
      → IsOdd message_type_request got
      → c.last_stream_id < got.header.stream_id
      → lib.unmarshal_request got.payload ≡ ok req
      → handle pick ctx req svc ≡ unary m
      → answer ≡ record {
        conn = record c { last_stream_id = got.header.stream_id };
        place = storing got.header.stream_id false;
        spawned = some unary_job;
      }
  unfolding on_request on_unmarshalled on_handled
  unary_request req m d l u h = ground (arith, request_turn d)

-- Closing a side and delivering neither start a call nor use an identifier.
pub on_close-same :
    (mh : MessageHeader) (p : Slice) (c : Conn)
    → ((on_close mh p c).conn.last_stream_id ≡ c.last_stream_id)
      × ((on_close mh p c).spawned ≡ none)
unfolding on_close closed_side
on_close-same mh p c = ground arith

pub deliver_data-same :
    (pick : Bool) (mh : MessageHeader) (p : Slice) (c : Conn)
    → ((deliver_data pick mh p c).conn.last_stream_id ≡ c.last_stream_id)
      × ((deliver_data pick mh p c).spawned ≡ none)
unfolding deliver_data delivered
deliver_data-same pick mh p c = ground (arith, on_close-same mh p)
