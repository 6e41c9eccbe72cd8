-- ===== src/Channel/Sequence.antt =====
-- A whole connection: many messages sent one after the other, and received one after the other.
use ttrpc.Prelude.{
  ℕ, zero, suc, ◌≤◌, ◌≡◌, refl, sym, ap, ◌∙◌, none, some, List, [], ◌∷◌, ◌++◌, map, append_assoc,
  append-nil, arith, nat_eq, string_eq, length, All,
}
use ttrpc.Errors.{Error, Slice, message_length_max}
use ttrpc.Frame.{IsByte, IsUint32}
use ttrpc.Channel.{
  read_full, read_message_header, Writer, Reader, Received, received, recv, send, slice_length,
  as_received,
}
use ttrpc.Channel.Send.{IsOpen, frame, send-IsOpen}
use ttrpc.Channel.Recv.{recv-frame}

-- The arguments of one `send`
pub record Packet : Type 0 where
  pub stream_id : ℕ
  pub type : ℕ
  pub flags : ℕ
  pub payload : Slice

-- The fields lie in the ranges of their Go types, and the payload is not too long to be sent.
abbrev pub Sendable : Packet → Type 0
Sendable p =
    IsUint32 p.stream_id
    × IsByte p.type
    × IsByte p.flags
    × (slice_length p.payload ≤ message_length_max)

-- Sending all, whatever the results; and the first `n` results of `recv`.
unfoldable pub send_all : List Packet → Writer → Writer
send_all [] w = w
send_all (p ∷ ps) w = send_all ps (send p.stream_id p.type p.flags p.payload w).1

unfoldable pub recv_all : ℕ → Reader → List Received
recv_all zero r = []
recv_all (suc n) r = let (got, r') = recv r in got ∷ recv_all n r'

abbrev pub packet_frame : Packet → List ℕ
packet_frame p = frame p.stream_id p.type p.flags p.payload

abbrev pub frames : List Packet → List ℕ
frames [] = []
frames (p ∷ ps) = packet_frame p ++ frames ps

-- What arrives of a packet
abbrev pub arrival : Packet → Received
arrival p =
    received
      (record {
        size = slice_length p.payload;
        stream_id = p.stream_id;
        type = p.type;
        flags = p.flags;
      })
      (as_received p.payload) none

-- The call of `recv` behind the last message
abbrev pub after_last : Error → Received
after_last fault =
    received (record { size = 0; stream_id = 0; type = 0; flags = 0 }) none (some fault)

send_all-open :
    (ps : List Packet) (w : Writer)
    → IsOpen w
    → w.buffer ≡ []
    → All Sendable ps
    → ((send_all ps w).conn.wire ≡ w.conn.wire ++ frames ps)
unfolding send_all
send_all-open [] w o e h = sym (append-nil w.conn.wire)
send_all-open (p ∷ ps) w o e ((hs, ht, hf, hl), h) =
    let (fine, o', empty, wire) = send-IsOpen p.stream_id p.type p.flags p.payload w o hl in
    send_all-open ps _ o' empty h
    ∙ ground (
      arith,
      wire,
      e,
      append-nil w.conn.wire,
      append_assoc w.conn.wire (packet_frame p) (frames ps),
    )

pub recv_at_end :
    (fault : Error) → (recv (record { pending = []; fault = fault })).0 ≡ after_last fault
unfolding recv read_message_header read_full
recv_at_end fault = refl

recv_all-frames :
    (ps : List Packet) (fault : Error)
    → All Sendable ps
    → recv_all (suc (length ps)) (record { pending = frames ps; fault = fault })
      ≡ map arrival ps ++ after_last fault ∷ []
unfolding recv_all
recv_all-frames [] fault h = ap (λ got. got ∷ []) (recv_at_end fault)
recv_all-frames (p ∷ ps) fault ((hs, ht, hf, hl), h) = ground (
  arith,
  recv-frame p.stream_id p.type p.flags p.payload (frames ps) fault hs ht hf hl,
  recv_all-frames ps fault h,
)

-- Every sequence of messages that is sent on a new connection that takes everything, with fields in
-- the ranges of their Go types and payloads of at most the maximum length, is received at the other
-- end: the same messages, whole and in the same order, each on its stream with its type, flags and
-- payload (an empty payload as nil); and then the error with which the connection ends.
pub recv_all-send_all :
    (ps : List Packet) (w : Writer) (fault : Error)
    → IsOpen w
    → w.buffer ≡ []
    → w.conn.wire ≡ []
    → All Sendable ps
    → recv_all (suc (length ps)) (record { pending = (send_all ps w).conn.wire; fault = fault })
      ≡ map arrival ps ++ after_last fault ∷ []
recv_all-send_all ps w fault o e q h = rw (send_all-open ps w o e h, q) (recv_all-frames ps fault h)
