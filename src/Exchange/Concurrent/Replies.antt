-- ===== src/Exchange/Concurrent/Replies.antt =====
-- server.go, `serverConn.run`: the messages of its replies, from the side that reads them.
use ttrpc.Prelude.{
  ◌≤◌, ◌≡◌, refl, sym, subst, ◌⊎◌, inl, inr, Bool, true, false, ◌&&◌, none, some, List, [], ◌∷◌,
  arith, ltb, Bool-cases, All, Any, Any-split, All-append,
}
use ttrpc.Errors.{Slice, message_length_max, Result-cases, ok}
use ttrpc.Frame.{IsByte, IsUint32}
use ttrpc.Channel.{slice_length}
use ttrpc.Channel.Sequence.{Packet, Sendable}
use ttrpc.Request.{Libraries}
use ttrpc.Conn.{Reply, status_is_ok}
use ttrpc.Conn.Sender.{Outgoing, outgoing, marshalled, data_flags}
use ttrpc.Conn.System.Wire.{packets, all_packets, as_packet, packets-fits, packets-long}

data_flags-IsByte : (b : Bool) (p : Slice) → IsByte (data_flags b p)
data_flags-IsByte true none = omega arith
data_flags-IsByte true (some p) = omega arith
data_flags-IsByte false none = omega arith
data_flags-IsByte false (some p) = omega arith

-- The message of a reply has the fields of its Go types.
outgoing-Sendable :
    (lib : Libraries) (r : Reply) (m : Outgoing)
    → IsUint32 r.id
    → slice_length m.payload ≤ message_length_max
    → outgoing lib r ≡ ok m
    → Sendable (as_packet m)
unfolding outgoing marshalled
outgoing-Sendable lib r m i l e = elim (Bool-cases (r.streaming && status_is_ok r.status)) [
  | inl y ↦ ground (arith, data_flags-IsByte r.close_stream r.payload)
  | inr n ↦
      elim (Result-cases
        (lib.marshal_response (record { status = r.status; payload = r.payload }))) [
          | inl (p, q) ↦ ground (arith, q)
          | inr (x, q) ↦ ground (arith, q)
        ]
]

-- A reply that was sent, with its message
pub record Carries (lib : Libraries) (P : Packet → Type 0) (r : Reply) : Type 0 where
  pub message : Outgoing
  pub encoded : outgoing lib r ≡ ok message
  pub fits : slice_length message.payload ≤ message_length_max
  pub holds : P (as_packet message)

packets-cases :
    (lib : Libraries) (r : Reply)
    → (packets lib r ≡ [])
      ⊎ ((m : Outgoing) × (outgoing lib r ≡ ok m)
          × (slice_length m.payload ≤ message_length_max)
          × (packets lib r ≡ as_packet m ∷ []))
unfolding packets
packets-cases lib r = elim (Result-cases (outgoing lib r)) [
  | inr (e, q) ↦ inl (rw (q, packets) refl)
  | inl (m, q) ↦ elim (Bool-cases (ltb message_length_max (slice_length m.payload))) [
    | inl long ↦ inl (packets-long lib r m q (ground arith))
    | inr fits ↦ inr (m, q, ground arith, packets-fits lib r m q (ground arith))
  ]
]

packets-Sendable : (lib : Libraries) (r : Reply) → IsUint32 r.id → All Sendable (packets lib r)
packets-Sendable lib r i = elim (packets-cases lib r) [
  | inl q ↦ subst (All Sendable) (sym q) tt
  | inr (m, e, l, q) ↦ subst (All Sendable) (sym q) (outgoing-Sendable lib r m i l e, tt)
]

pub all_packets-Sendable :
    (lib : Libraries) (rs : List Reply)
    → All (λ (r : Reply). IsUint32 r.id) rs
    → All Sendable (all_packets lib rs)
unfolding all_packets
all_packets-Sendable lib [] i = tt
all_packets-Sendable lib (r ∷ rs) (i, is) =
    All-append Sendable (packets lib r) (all_packets lib rs) (packets-Sendable lib r i)
      (all_packets-Sendable lib rs is)

packets-Carries :
    (lib : Libraries) (P : Packet → Type 0) (r : Reply) → Any P (packets lib r) → Carries lib P r
packets-Carries lib P r a = elim (packets-cases lib r) [
  | inl q ↦ absurd (subst (Any P) q a)
  | inr (m, e, l, q) ↦ elim (subst (Any P) q a) [
    | inl p ↦ record { message = m; encoded = e; fits = l; holds = p }
    | inr b ↦ absurd b
  ]
]

pub all_packets-Carries :
    (lib : Libraries) (P : Packet → Type 0) (rs : List Reply)
    → Any P (all_packets lib rs)
    → Any (Carries lib P) rs
unfolding all_packets
all_packets-Carries lib P [] a = a
all_packets-Carries lib P (r ∷ rs) a = elim (Any-split P (packets lib r) (all_packets lib rs) a) [
  | inl b ↦ inl (packets-Carries lib P r b)
  | inr b ↦ inr (all_packets-Carries lib P rs b)
]
