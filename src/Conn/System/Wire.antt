-- ===== src/Conn/System/Wire.antt =====
-- server.go, the main loop of `serverConn.run`: the replies that it takes, and the messages on the wire.
pub mod Runs
use ttrpc.Prelude.{
  ℕ, ◌≤◌, ◌<◌, ◌≡◌, refl, sym, ap, ◌∙◌, subst, inl, inr, Bool, Option, none, some, List, [], ◌∷◌,
  ◌++◌, append_assoc, append-nil, arith, ltb, if◌then◌else◌, nat_eq, string_eq, Bool-cases,
}
use ttrpc.Prelude.Assoc.{lookup}
use ttrpc.Errors.{Result-cases, ok, err, Slice, Status, message_length_max}
use ttrpc.Channel.{Writer, slice_length}
use ttrpc.Channel.Send.{IsOpen, sent, send_refused}
use ttrpc.Channel.Sequence.{Packet, packet_frame, frames}
use ttrpc.Request.{Libraries}
use ttrpc.Conn.{Conn, Reply}
use ttrpc.Conn.Sender.{Outgoing, outgoing, take_reply, transmit, after_send}
use ttrpc.Conn.Sender.Replies.{take_reply-Replied}
use ttrpc.Conn.Receiver.{Place, reporting, Job}
use ttrpc.Conn.System.{System, Event, report, job_send, job_end, message_reply, last_reply}

-- The reply that the main loop takes in an action
pub taken : Place → Option Reply
taken (reporting r k) = some r
taken _ = none

unfoldable pub job_reply : ℕ → Option Status → Slice → Option Job → Option Reply
job_reply id st p none = none
job_reply id st p (some j) = some (last_reply id j st p)

unfoldable pub reply_of : Event → System → Option Reply
reply_of report s = taken s.place
reply_of (job_send id p) s = some (message_reply id p)
reply_of (job_end id st p) s = job_reply id st p (lookup id s.jobs)
reply_of _ s = none

abbrev pub as_packet : Outgoing → Packet
as_packet m = record {
  stream_id = m.stream_id;
  type = m.type;
  flags = m.flags;
  payload = m.payload;
}

-- The message of a reply, if it can be encoded and is not too long
unfoldable pub packets : Libraries → Reply → List Packet
packets lib r = elim (outgoing lib r) [
  | err e ↦ []
  | ok m ↦ if ltb message_length_max (slice_length m.payload) then [] else as_packet m ∷ []
]

pub packets_of : Libraries → Option Reply → List Packet
packets_of lib none = []
packets_of lib (some r) = packets lib r

-- The messages of several replies
unfoldable pub all_packets : Libraries → List Reply → List Packet
all_packets lib [] = []
all_packets lib (r ∷ rs) = packets lib r ++ all_packets lib rs

abbrev pub with_reply : Option Reply → List Reply → List Reply
with_reply none rs = rs
with_reply (some r) rs = r ∷ rs

frames-append : (ps qs : List Packet) → frames (ps ++ qs) ≡ frames ps ++ frames qs
frames-append [] qs = refl
frames-append (p ∷ ps) qs =
    ap (λ f. packet_frame p ++ f) (frames-append ps qs)
    ∙ sym (append_assoc (packet_frame p) (frames ps) (frames qs))

pub all_packets-with_reply :
    (lib : Libraries) (o : Option Reply) (rs : List Reply)
    → frames (all_packets lib (with_reply o rs))
      ≡ frames (packets_of lib o) ++ frames (all_packets lib rs)
unfolding all_packets packets_of
all_packets-with_reply lib none rs = refl
all_packets-with_reply lib (some r) rs = frames-append (packets lib r) (all_packets lib rs)

-- The writer has taken these messages whole, works, and holds nothing back.
abbrev pub Writes : List Packet → Writer → Writer → Type 0
Writes ps w w' = IsOpen w' × (sent w' ≡ sent w ++ frames ps) × (w.buffer ≡ [] → w'.buffer ≡ [])

pub packets-fits :
    (lib : Libraries) (r : Reply) (m : Outgoing)
    → outgoing lib r ≡ ok m
    → slice_length m.payload ≤ message_length_max
    → packets lib r ≡ as_packet m ∷ []
unfolding packets
packets-fits lib r m q l = ground (arith, q)

pub packets-long :
    (lib : Libraries) (r : Reply) (m : Outgoing)
    → outgoing lib r ≡ ok m
    → message_length_max < slice_length m.payload
    → packets lib r ≡ []
unfolding packets
packets-long lib r m q l = ground (arith, q)

-- A reply that is not sent ends the loop and leaves the writer.
take_reply-long :
    (lib : Libraries) (r : Reply) (m : Outgoing) (c : Conn)
    → outgoing lib r ≡ ok m
    → message_length_max < slice_length m.payload
    → (take_reply lib r c).writer ≡ c.writer
unfolding take_reply transmit after_send
take_reply-long lib r m c q l =
    rw (q, send_refused m.stream_id m.type m.flags m.payload c.writer l, take_reply) refl

pub unwritten : (w w' : Writer) → IsOpen w → w' ≡ w → Writes [] w w'
unwritten w w' o e = subst (Writes [] w) (sym e) (o, sym (append-nil (sent w)), λ b. b)

pub take_reply-Writes :
    (lib : Libraries) (r : Reply) (c : Conn)
    → IsOpen c.writer
    → Writes (packets lib r) c.writer (take_reply lib r c).writer
unfolding packets take_reply transmit
take_reply-Writes lib r c o = elim (Result-cases (outgoing lib r)) [
  | inr (e, q) ↦ rw (q, take_reply, packets) (o, sym (append-nil (sent c.writer)), λ b. b)
  | inl (m, q) ↦ elim (Bool-cases (ltb message_length_max (slice_length m.payload))) [
    | inl long ↦
        subst (λ ps. Writes ps c.writer (take_reply lib r c).writer)
          (sym (packets-long lib r m q (ground arith)))
          (unwritten c.writer (take_reply lib r c).writer o
            (take_reply-long lib r m c q (ground arith)))
    | inr fits ↦
        let x = take_reply-Replied lib r m c o q (ground arith) in
        subst (λ ps. Writes ps c.writer (take_reply lib r c).writer)
          (sym (packets-fits lib r m q (ground arith)))
          (
            x.writable,
            x.wire ∙ ap (λ p. sent c.writer ++ p) (sym (append-nil (packet_frame (as_packet m)))),
            λ b. x.flushed,
          )
  ]
]
