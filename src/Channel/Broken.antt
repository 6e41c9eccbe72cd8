-- ===== src/Channel/Broken.antt =====
-- A connection that breaks, at any byte: what is on the wire, and what is received.
use ttrpc.Prelude.{
  ℕ, ◌-◌, ◌≤◌, ◌≡◌, refl, sym, ap, ◌∙◌, subst, ◌≢◌, ◌⊎◌, inl, inr, true, false, Option, none, some,
  List, [], ◌∷◌, ◌++◌, append_assoc, append-nil, arith, leb, nat_eq, string_eq, Bool-cases,
  Option-cases, length, take, drop, All, take-append-drop,
}
use ttrpc.Errors.{Error, Slice, message_length_max}
use ttrpc.Frame.{encode_header}
use ttrpc.Channel.{
  Writer, take_bytes, conn_write, deliver, flush, write_rest, spill, write, send_payload, send,
  slice_length, slice_bytes, frame_header, writer_size,
}
use ttrpc.Channel.Send.{frame, sent}
use ttrpc.Channel.Sequence.{Packet, Sendable, send_all, frames, packet_frame}

-- All of `whole` was written, and is on the wire or in the buffer, or the connection has failed and taken a
-- first part of it.
data Tracks (whole : List ℕ) (w : Writer) : Type 0 where
  unbroken : w.failed ≡ none → sent w ≡ whole → Tracks whole w
  broken :
      (e : Error) (lost : List ℕ) → w.failed ≡ some e → w.conn.wire ++ lost ≡ whole → Tracks whole w

deliver-Tracks :
    (p rest whole : List ℕ) (w : Writer) (room : Option (ℕ × Error))
    → w.conn.room ≡ room
    → w.conn.wire ++ (p ++ rest) ≡ whole
    → Tracks whole (deliver p rest w)
unfolding deliver conn_write take_bytes
deliver-Tracks p rest whole w none r h =
    unbroken (ground (arith, r)) (ground (arith, r, append_assoc w.conn.wire p rest, h))
deliver-Tracks p rest whole w (some (k, e)) r h = elim (Bool-cases (leb (length p) k)) [
  | inl fits ↦
      unbroken (ground (arith, r, fits))
        (ground (arith, r, fits, append_assoc w.conn.wire p rest, h))
  | inr cut ↦ broken e (drop k p ++ rest) (ground (arith, r, cut)) (
      ground (
        arith,
        r,
        cut,
        h,
        append_assoc w.conn.wire (take k p) (drop k p ++ rest),
        append_assoc (take k p) (drop k p) rest,
        take-append-drop k p,
      ))
]

-- What is given to a connection that has failed is lost.
lose :
    (whole p : List ℕ) (w : Writer) (e : Error) (lost : List ℕ)
    → w.failed ≡ some e
    → w.conn.wire ++ lost ≡ whole
    → Tracks (whole ++ p) w
lose whole p w e lost f h =
    broken e (lost ++ p) f (sym (append_assoc w.conn.wire lost p) ∙ ap (λ l. l ++ p) h)

stays_failed :
    (e : Error) (p b : List ℕ) (w : Writer)
    → w.failed ≡ some e
    → (flush w ≡ w) × (write p w ≡ w) × (write_rest p w ≡ w)
unfolding flush write write_rest
stays_failed e p b w f = (ground (arith, f), ground (arith, f), ground (arith, f))

flush-deliver :
    (b : List ℕ) (w : Writer)
    → w.failed ≡ none
    → w.buffer ≡ b
    → (flush w ≡ w) ⊎ (flush w ≡ deliver w.buffer [] w)
unfolding flush
flush-deliver [] w f q = inl (ground (arith, f, q))
flush-deliver (x ∷ b) w f q = inr (ground (arith, f, q))

flush-Tracks : (whole : List ℕ) (w : Writer) → Tracks whole w → Tracks whole (flush w)
flush-Tracks whole w (broken e lost f h) =
    subst (Tracks whole) (sym (stays_failed e [] [] w f).0) (broken e lost f h)
flush-Tracks whole w (unbroken f h) = elim (flush-deliver w.buffer w f refl) [
  | inl q ↦ subst (Tracks whole) (sym q) (unbroken f h)
  | inr q ↦ subst (Tracks whole) (sym q) (
      deliver-Tracks w.buffer [] whole w w.conn.room refl
        (ap (λ l. w.conn.wire ++ l) (append-nil w.buffer) ∙ h))
]

-- The rest of a write, behind a buffer that was flushed
write_rest-Tracks :
    (p whole : List ℕ) (w : Writer)
    → w.buffer ≡ [] ⊎ w.failed ≢ none
    → Tracks whole w
    → Tracks (whole ++ p) (write_rest p w)
unfolding write_rest
write_rest-Tracks p whole w b (broken e lost f h) =
    subst (Tracks (whole ++ p)) (sym (stays_failed e p [] w f).2) (lose whole p w e lost f h)
write_rest-Tracks p whole w (inr b) (unbroken f h) = absurd (b f)
write_rest-Tracks p whole w (inl b) (unbroken f h) =
    let on_wire : w.conn.wire ≡ whole = ground (arith, b, h, append-nil w.conn.wire) in
    elim (Bool-cases (leb (length p) writer_size)) [
      | inl small ↦
          let kept : write_rest p w ≡ record w { buffer = p } = ground (arith, f, small) in
          subst (Tracks (whole ++ p)) (sym kept) (unbroken f (ap (λ l. l ++ p) on_wire))
      | inr large ↦
          let through : write_rest p w ≡ deliver p [] w = ground (arith, f, large) in
          subst (Tracks (whole ++ p)) (sym through) (
            deliver-Tracks p [] (whole ++ p) w w.conn.room refl
              (ground (arith, on_wire, append-nil p)))
    ]

-- A delivery without a rest leaves an empty buffer, or has failed.
deliver-empty :
    (p : List ℕ) (w : Writer) → (deliver p [] w).buffer ≡ [] ⊎ (deliver p [] w).failed ≢ none
unfolding deliver
deliver-empty p w = elim (Option-cases (conn_write p w.conn).0) [
  | inl q ↦ inl (ground (arith, q))
  | inr (e, q) ↦ inr (λ f. ground (arith, q))
]

spill-Tracks :
    (p b whole : List ℕ) (w : Writer)
    → w.buffer ≡ b
    → sent w ≡ whole
    → Tracks (whole ++ p) (spill p b w)
unfolding spill
spill-Tracks p [] whole w q h =
    deliver-Tracks p [] (whole ++ p) w w.conn.room refl
      (ground (arith, q, h, append-nil p, append-nil w.conn.wire))
spill-Tracks p (x ∷ b) whole w q h =
    let free = writer_size - length (x ∷ b) in
    let first = (x ∷ b) ++ take free p in
    let w' = deliver first [] w in
    let v : Tracks (whole ++ take free p) w' =
      deliver-Tracks first [] (whole ++ take free p) w w.conn.room refl
        (ground (arith, q, h, append-nil first, append_assoc w.conn.wire (x ∷ b) (take free p))) in
    subst (λ l. Tracks l (write_rest (drop free p) w'))
      (append_assoc whole (take free p) (drop free p)
        ∙ ap (λ l. whole ++ l) (take-append-drop free p))
      (write_rest-Tracks (drop free p) (whole ++ take free p) w' (deliver-empty first w) v)

kept_write :
    (p : List ℕ) (w : Writer)
    → w.failed ≡ none
    → leb (length p) (writer_size - length w.buffer) ≡ true
    → write p w ≡ record w { buffer = w.buffer ++ p }
unfolding write
kept_write p w f fits = ground (arith, f, fits)

spilt_write :
    (p : List ℕ) (w : Writer)
    → w.failed ≡ none
    → leb (length p) (writer_size - length w.buffer) ≡ false
    → write p w ≡ spill p w.buffer w
unfolding write
spilt_write p w f over = ground (arith, f, over)

write-Tracks : (p whole : List ℕ) (w : Writer) → Tracks whole w → Tracks (whole ++ p) (write p w)
write-Tracks p whole w (broken e lost f h) =
    subst (Tracks (whole ++ p)) (sym (stays_failed e p [] w f).1) (lose whole p w e lost f h)
write-Tracks p whole w (unbroken f h) =
    elim (Bool-cases (leb (length p) (writer_size - length w.buffer))) [
      | inl fits ↦
          subst (Tracks (whole ++ p)) (sym (kept_write p w f fits))
            (unbroken f (sym (append_assoc w.conn.wire w.buffer p) ∙ ap (λ l. l ++ p) h))
      | inr over ↦
          subst (Tracks (whole ++ p)) (sym (spilt_write p w f over))
            (spill-Tracks p w.buffer whole w refl h)
    ]

send_payload-Tracks :
    (p : Slice) (whole : List ℕ) (w : Writer)
    → Tracks whole w
    → Tracks (whole ++ slice_bytes p) (send_payload p w)
unfolding send_payload
send_payload-Tracks none whole w t = subst (λ l. Tracks l w) (sym (append-nil whole)) t
send_payload-Tracks (some []) whole w t = subst (λ l. Tracks l w) (sym (append-nil whole)) t
send_payload-Tracks (some (b ∷ bs)) whole w t =
    let given : send_payload (some (b ∷ bs)) w ≡ write (b ∷ bs) w = ground arith in
    subst (Tracks (whole ++ (b ∷ bs))) (sym given) (write-Tracks (b ∷ bs) whole w t)

send-Tracks :
    (id t flags : ℕ) (p : Slice) (whole : List ℕ) (w : Writer)
    → slice_length p ≤ message_length_max
    → Tracks whole w
    → Tracks (whole ++ frame id t flags p) (send id t flags p w).1
unfolding send
send-Tracks id t flags p whole w l v =
    let header = encode_header (frame_header id t flags p) in
    let w1 = write header w in
    let w2 = flush (send_payload p w1) in
    let v2 =
      flush-Tracks ((whole ++ header) ++ slice_bytes p) (send_payload p w1)
        (send_payload-Tracks p (whole ++ header) w1 (write-Tracks header whole w v)) in
    let now : (send id t flags p w).1 ≡ w2 = ground arith in
    subst (λ x. Tracks (whole ++ frame id t flags p) x) (sym now)
      (subst (λ l. Tracks l w2) (append_assoc whole header (slice_bytes p)) v2)

send_all-Tracks :
    (ps : List Packet) (whole : List ℕ) (w : Writer)
    → All Sendable ps
    → Tracks whole w
    → Tracks (whole ++ frames ps) (send_all ps w)
unfolding send_all
send_all-Tracks [] whole w h t = subst (λ l. Tracks l w) (sym (append-nil whole)) t
send_all-Tracks (p ∷ ps) whole w (s, h) t =
    let w' = (send p.stream_id p.type p.flags p.payload w).1 in
    subst (λ l. Tracks l (send_all ps w')) (append_assoc whole (packet_frame p) (frames ps))
      (send_all-Tracks ps (whole ++ packet_frame p) w' h
        (send-Tracks p.stream_id p.type p.flags p.payload whole w s.3 t))

-- What is on the wire of a writer is a first part of what was written.
wire_prefix :
    (whole : List ℕ) (w : Writer) → Tracks whole w → (lost : List ℕ) × (w.conn.wire ++ lost ≡ whole)
wire_prefix whole w (unbroken f h) = (w.buffer, h)
wire_prefix whole w (broken e lost f h) = (lost, h)

-- A new writer, over a connection that takes so many bytes
abbrev pub limited : Option (ℕ × Error) → Writer
limited room = record { conn = record { wire = []; room = room }; buffer = []; failed = none }

pub send_all-prefix :
    (ps : List Packet) (room : Option (ℕ × Error))
    → All Sendable ps
    → (lost : List ℕ) × ((send_all ps (limited room)).conn.wire ++ lost ≡ frames ps)
send_all-prefix ps room h =
    wire_prefix (frames ps) (send_all ps (limited room))
      (send_all-Tracks ps [] (limited room) h (unbroken refl refl))
