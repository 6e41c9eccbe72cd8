-- ===== src/Conn/Sender/Replies.antt =====
-- The main loop's branch for a reply.
use ttrpc.Prelude.{
  Bool-cases, ◌⊎◌, inl, inr, ◌&&◌, ℕ, ◌≤◌, ◌≡◌, refl, Bool, true, false, not, ◌||◌, Option, none,
  some, List, ◌++◌, append-nil, arith, if◌then◌else◌, nat_eq, string_eq, length,
}
use ttrpc.Prelude.Assoc.{delete}
use ttrpc.Errors.{Result-cases, Error, ok, Slice, Status, message_length_max}
use ttrpc.Frame.{message_type_response, message_type_data, flag_remote_closed, flag_no_data}
use ttrpc.Channel.{Writer, send, slice_length}
use ttrpc.Channel.Send.{IsOpen, sent, frame, send-IsOpen}
use ttrpc.Request.{Libraries}
use ttrpc.Services.{is_nil}
use ttrpc.Conn.{[], Conn, Reply, active, idle, is_positive, sub_active, has_flag, status_is_ok}
use ttrpc.Conn.Sender.{
  Outgoing, outgoing, marshalled, data_flags, take_reply, transmit, after_send, retire, publish,
}

flags_closed : (b : Bool) (p : Slice) → has_flag (data_flags b p) flag_remote_closed ≡ b
flags_closed true none = refl
flags_closed true (some p) = refl
flags_closed false none = refl
flags_closed false (some p) = refl

flags_no_data : (b : Bool) (p : Slice) → has_flag (data_flags b p) flag_no_data ≡ is_nil p
flags_no_data true none = refl
flags_no_data true (some p) = refl
flags_no_data false none = refl
flags_no_data false (some p) = refl

-- Every reply that becomes a message keeps its stream. It is the response that protobuf encodes, without
-- flags, for a call that does not stream or that failed; otherwise it is a data message with the payload
-- as it is, whose flag `remote closed` says whether the reply is the last, and whose flag `no data` says
-- whether the payload is nil.
pub outgoing_flags :
    (lib : Libraries) (r : Reply) (m : Outgoing)
    → outgoing lib r ≡ ok m
    → (m.stream_id ≡ r.id)
      × (((m.type ≡ message_type_response)
            × (m.flags ≡ 0)
            × (r.streaming && status_is_ok r.status ≡ false)
            × ((p : List ℕ) × (lib.marshal_response
                    (record { status = r.status; payload = r.payload })
                  ≡ ok p)
                × (m.payload ≡ some p)))
          ⊎ ((m.type ≡ message_type_data)
              × (r.streaming && status_is_ok r.status ≡ true)
              × (m.payload ≡ r.payload)
              × (has_flag m.flags flag_remote_closed ≡ r.close_stream)
              × (has_flag m.flags flag_no_data ≡ is_nil r.payload)))
unfolding outgoing marshalled
outgoing_flags lib r m e = elim (Bool-cases (r.streaming && status_is_ok r.status)) [
  | inl y ↦
      ground (arith, flags_closed r.close_stream r.payload, flags_no_data r.close_stream r.payload)
  | inr n ↦
      elim (Result-cases
        (lib.marshal_response (record { status = r.status; payload = r.payload }))) [
          | inl (p, q) ↦ (
            ground (arith, q),
            inl (ground (arith, q), ground (arith, q), n, (p, q, ground (arith, q))),
          )
          | inr (x, q) ↦ ground (arith, q)
        ]
]

-- What a reply does to the connection while its writer works: the message goes out whole; a last reply
-- takes the stream out of `streams` and lowers the count, another leaves both; the state that is then
-- published is that of the new count.
pub record Replied (r : Reply) (m : Outgoing) (c c' : Conn) : Type 0 where
  pub writable : IsOpen c'.writer
  pub wire : sent c'.writer ≡ sent c.writer ++ frame m.stream_id m.type m.flags m.payload
  pub streams : c'.streams ≡ (if r.close_stream then delete r.id c.streams else c.streams)
  pub count : c'.active ≡ (if r.close_stream then sub_active c.active else c.active)
  pub state : c'.published ≡ (if is_positive c'.active then active else idle)
  pub still : c'.finished ≡ c.finished
  pub flushed : c'.writer.buffer ≡ []

after_send-Replied :
    (r : Reply) (m : Outgoing) (c : Conn) (x : Option Error × Writer)
    → x.0 ≡ none
    → IsOpen x.1
    → sent x.1 ≡ sent c.writer ++ frame m.stream_id m.type m.flags m.payload
    → x.1.buffer ≡ []
    → Replied r m c (after_send r c x)
unfolding after_send retire publish
after_send-Replied r m c (none, w) e o q b = record {
  flushed = ground arith;
  writable = ground arith;
  wire = ground arith;
  streams = ground arith;
  count = ground arith;
  state = ground arith;
  still = ground arith;
}
after_send-Replied r m c (some x, w) e o q b = cc

-- While the writer works, a reply whose message is within the maximum length is written whole, a last
-- reply takes its stream out of `streams` and lowers the count, another leaves both, the state that is
-- then published is that of the new count, and the loop goes on.
pub take_reply-Replied :
    (lib : Libraries) (r : Reply) (m : Outgoing) (c : Conn)
    → IsOpen c.writer
    → outgoing lib r ≡ ok m
    → slice_length m.payload ≤ message_length_max
    → Replied r m c (take_reply lib r c)
unfolding take_reply transmit
take_reply-Replied lib r m c o e l =
    let (none_failed, o', empty, on_wire) =
      send-IsOpen m.stream_id m.type m.flags m.payload c.writer o l in
    rw (e, take_reply)
      (after_send-Replied r m c _ none_failed o'
        (rw (empty, append-nil (send m.stream_id m.type m.flags m.payload c.writer).1.conn.wire)
          on_wire)
        empty)

-- What protobuf makes of the response to a call, where it is within the maximum length.
pub record Encodes (lib : Libraries) (st : Option Status) (q : Slice) (p : List ℕ) : Type 0 where
  pub encoded : lib.marshal_response (record { status = st; payload = q }) ≡ ok p
  pub within : length p ≤ message_length_max

-- The response message of a stream.
abbrev pub response : ℕ → List ℕ → Outgoing
response id p = record { stream_id = id; type = message_type_response; flags = 0; payload = some p }

-- A reply that does not stream, or that carries an error, goes out as a response.
pub outgoing-response :
    (lib : Libraries) (r : Reply) (p : List ℕ)
    → (not r.streaming || not (status_is_ok r.status)) ≡ true
    → Encodes lib r.status r.payload p
    → outgoing lib r ≡ ok (response r.id p)
unfolding outgoing marshalled
outgoing-response lib r p e m = ground (arith, m.encoded)
