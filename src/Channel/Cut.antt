-- ===== src/Channel/Cut.antt =====
-- What is received of a connection that was cut.
use ttrpc.Prelude.{
  ℕ, zero, suc, ◌≤◌, ◌≡◌, refl, sym, ap, ◌∙◌, ◌≢◌, inl, inr, Option, none, some, List, [], ◌∷◌,
  ◌++◌, map, arith, nat_eq, string_eq, Option-cases, length, take, drop, All, length-append,
}
use ttrpc.Errors.{Error, ok, Result-cases}
use ttrpc.Frame.{MessageHeader, message_header_length}
use ttrpc.Channel.{
  Reader, Received, read_full, read_message_header, recv, recv_body, recv_payload, recv_oversized,
  discard,
}
use ttrpc.Channel.Recv.{recv-frame}
use ttrpc.Channel.Sequence.{
  Packet, Sendable, send_all, frames, packet_frame, arrival, recv_at_end, after_last,
}
use ttrpc.Channel.Broken.{limited, send_all-prefix}

-- The messages that `n` calls of `recv` return before the first error
pub arrived : ℕ → Reader → List Received
arrived zero r = []
arrived (suc n) r = elim (recv r).0.error [ some e ↦ [] | none ↦ (recv r).0 ∷ arrived n (recv r).1 ]

-- More bytes behind the input
abbrev followed : Reader → List ℕ → Reader
followed r more = record r { pending = r.pending ++ more }

cut-append :
    (n : ℕ) (xs ys : List ℕ)
    → n ≤ length xs
    → (take n (xs ++ ys) ≡ take n xs) × (drop n (xs ++ ys) ≡ drop n xs ++ ys)
cut-append zero xs ys h = (refl, refl)
cut-append (suc n) [] ys h = absurd (omega arith)
cut-append (suc n) (x ∷ xs) ys h =
    let (a, b) = cut-append n xs ys (omega arith) in (ap (◌∷◌ x) a, b)

read_full-followed :
    (n : ℕ) (r : Reader) (more p : List ℕ)
    → (read_full n r).0 ≡ ok p
    → read_full n (followed r more) ≡ (ok p, followed (read_full n r).1 more)
unfolding read_full
read_full-followed n r more p e =
    ground (arith, cut-append n r.pending more, length-append r.pending more)

header-followed :
    (r : Reader) (more : List ℕ) (mh : MessageHeader)
    → (read_message_header r).0 ≡ ok mh
    → read_message_header (followed r more) ≡ (ok mh, followed (read_message_header r).1 more)
unfolding read_message_header
header-followed r more mh e = elim (Result-cases (read_full message_header_length r).0) [
  | inl (p, q) ↦ ground (arith, q, read_full-followed message_header_length r more p)
  | inr (x, q) ↦ ground (arith, q)
]

body-followed :
    (mh : MessageHeader) (r : Reader) (more : List ℕ)
    → (recv_body mh r).0.error ≡ none
    → recv_body mh (followed r more) ≡ ((recv_body mh r).0, followed (recv_body mh r).1 more)
unfolding recv_body recv_payload recv_oversized discard
body-followed mh r more e = elim (Result-cases (read_full mh.size r).0) [
  | inl (p, q) ↦ ground (arith, q, read_full-followed mh.size r more p)
  | inr (x, q) ↦ ground (arith, q)
]

recv-followed :
    (r : Reader) (more : List ℕ)
    → (recv r).0.error ≡ none
    → recv (followed r more) ≡ ((recv r).0, followed (recv r).1 more)
unfolding recv
recv-followed r more e = elim (Result-cases (read_message_header r).0) [
  | inl (mh, q) ↦
      ground (arith, q, header-followed r more mh, body-followed mh (read_message_header r).1 more)
  | inr (x, q) ↦ ground (arith, q)
]

-- What is received without an error of a first part of some frames is the first of them.
received_first :
    (p : Packet) (ps : List Packet) (r : Reader) (lost : List ℕ)
    → Sendable p
    → r.pending ++ lost ≡ packet_frame p ++ frames ps
    → (recv r).0.error ≡ none
    → ((recv r).0 ≡ arrival p) × ((recv r).1.pending ++ lost ≡ frames ps)
received_first p ps r lost (hs, ht, hf, hl) e q =
    let whole =
      sym (recv-followed r lost q)
      ∙ ap (λ (l : List ℕ). recv (record { pending = l; fault = r.fault })) e
      ∙ recv-frame p.stream_id p.type p.flags p.payload (frames ps) r.fault hs ht hf hl in
    (ap (λ x. x.0) whole, ap (λ x. x.1.pending) whole)

nothing_received : (r : Reader) (lost : List ℕ) → r.pending ++ lost ≡ [] → (recv r).0.error ≢ none
nothing_received r lost e q =
    let ends : (recv r).0 ≡ after_last r.fault =
      sym (ap (λ x. x.0) (recv-followed r lost q))
      ∙ ap (λ (l : List ℕ). (recv (record { pending = l; fault = r.fault })).0) e
      ∙ recv_at_end r.fault in
    cc (sym q ∙ ap (λ (x : Received). x.error) ends)

-- The messages of a first part of some frames are the first of these messages.
arrived-frames :
    (n : ℕ) (ps : List Packet) (r : Reader) (lost : List ℕ)
    → All Sendable ps
    → r.pending ++ lost ≡ frames ps
    → (k : ℕ) × (k ≤ length ps) × (arrived n r ≡ map arrival (take k ps))
unfolding arrived
arrived-frames zero ps r lost h e = (0, omega arith, refl)
arrived-frames (suc n) [] r lost h e = elim (Option-cases (recv r).0.error) [
  | inr (x, q) ↦ (0, omega arith, ground (arith, q))
  | inl q ↦ absurd (nothing_received r lost e q)
]
arrived-frames (suc n) (p ∷ ps) r lost (s, h) e = elim (Option-cases (recv r).0.error) [
  | inr (x, q) ↦ (0, omega arith, ground (arith, q))
  | inl q ↦
      let (first, rest) = received_first p ps r lost s e q in
      let (k, within, same) = arrived-frames n ps (recv r).1 lost h rest in
      (suc k, omega arith, ground (arith, q, first, same))
]

-- Messages are sent on a new connection, with fields in the ranges of their Go types and payloads of at most
-- the maximum length, whatever number of bytes the connection takes before it breaks, if it does. Then
-- those that are received before the first error, however often `recv` is called, are the first of those
-- that were sent, whole and in order: none is cut, changed, invented, doubled or passed over.
pub cut_connection :
    (ps : List Packet) (room : Option (ℕ × Error)) (n : ℕ) (fault : Error)
    → All Sendable ps
    → (k : ℕ) × (k ≤ length ps)
      × (arrived n (record { pending = (send_all ps (limited room)).conn.wire; fault = fault })
          ≡ map arrival (take k ps))
cut_connection ps room n fault h =
    let (lost, e) = send_all-prefix ps room h in
    arrived-frames n ps (record { pending = (send_all ps (limited room)).conn.wire; fault = fault })
      lost h e
