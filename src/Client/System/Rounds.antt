-- ===== src/Client/System/Rounds.antt =====
-- The stream of a call behind a round of the receive loop.
use ttrpc.Prelude.{
  ℕ, ◌≡◌, refl, sym, ap, ◌∙◌, subst, inl, inr, Bool, true, false, not, Option, none, some, arith,
  if◌then◌else◌, ◌==◌, nat_eq, string_eq, Bool-cases, Option-cases, nat_beq_iff,
}
use ttrpc.Prelude.Assoc.{lookup, lookup-insert_self}
use mathlib.Core.Option.{some-injective}
use ttrpc.Errors.{Error, ctx_canceled}
use ttrpc.Channel.{Received}
use ttrpc.Services.{Wait, done, blocked, panics}
use ttrpc.Request.{Libraries}
use ttrpc.Stream.{Stream, StreamMessage, receive}
use ttrpc.Client.{
  Client, Round, again, ends, waits, received_round, to_inactive, to_stream, hand_over, get_stream,
  message_of,
}
use ttrpc.Client.System.{testing, receiving, handing, returned, Event}
use ttrpc.Client.System.Evolution.{Sound, nothing}
use ttrpc.Client.System.Effects.{
  aimed, unchanged, RoundEvolves, received_round-Evolves, error_round-Evolves,
}
use ttrpc.Client.System.Track.{
  Tracks, message_on, heard, or_else, Evolves-Tracks, Handed, receive-Handed,
}

-- The map leads from an identifier to the one stream that has it.
same_pointer :
    (ptr p id : ℕ) (c : Client) (st : Stream)
    → Sound c
    → lookup id c.streams ≡ some p
    → lookup ptr c.store ≡ some st
    → st.id ≡ id
    → p ≡ ptr
same_pointer ptr p id c st v e h i =
    let (u, there, j) = v.known id p e in omega (arith, v.made p u there, v.made ptr st h, i, j)

pub or_else-none : (o : Option StreamMessage) → or_else o none ≡ o
or_else-none none = refl
or_else-none (some m) = refl

-- The stream behind a round of the receive loop
abbrev pub RoundTracks : ℕ → ℕ → Option StreamMessage → Received → Client → Round → Type 0
RoundTracks ptr id seen got c (again d) = Tracks ptr id seen d testing
RoundTracks ptr id seen got c (ends e) = Tracks ptr id seen c (returned e)
RoundTracks ptr id seen got c (waits p) = Tracks ptr id seen c (handing got p)

-- A round that leaves the stream's message alone
quiet_round :
    (t : ℕ → Bool) (ptr id : ℕ) (seen : Option StreamMessage) (got : Received) (c : Client)
    (r : Round)
    → Tracks ptr id seen c receiving
    → t ptr ≡ false
    → RoundEvolves t c r
    → RoundTracks ptr id seen got c r
quiet_round t ptr id seen got c (again d) k q v =
    Evolves-Tracks t ptr id seen c d receiving testing k v q (λ x. refl) (λ g x. cc)
quiet_round t ptr id seen got c (ends e) k q v =
    Evolves-Tracks nothing ptr id seen c c receiving (returned e) k (unchanged nothing c) refl
      (λ x. refl) (λ g x. cc)
quiet_round t ptr id seen got c (waits p) k q v =
    Evolves-Tracks nothing ptr id seen c c receiving (handing got p) k (unchanged nothing c) refl
      (λ x. refl) (λ g x. let w : t p ≡ true = v in cc)

module _ (lib : Libraries) (pick : Bool) (got : Received) (ptr id : ℕ) (seen : Option StreamMessage)
    (c : Client) (v : Sound c) (k : Tracks ptr id seen c receiving) where
  -- A message on another identifier
  other_round :
      (got.header.stream_id == id) ≡ false
      → RoundTracks ptr id seen got c (received_round lib pick got c)
  other_round n =
      quiet_round (aimed (lookup got.header.stream_id c.streams)) ptr id seen got c _ k
        (elsewhere (lookup got.header.stream_id c.streams) refl)
        (received_round-Evolves lib pick got c)
    where
      elsewhere : (o : Option ℕ) → lookup got.header.stream_id c.streams ≡ o → aimed o ptr ≡ false
      elsewhere none e = refl
      elsewhere (some p) e = elim (Bool-cases (p == ptr)) [
        | inr q ↦ q
        | inl q ↦
            let (u, there, i) = v.known got.header.stream_id p e in
            let s = some-injective u k.stream (
              sym (subst (λ j. lookup j c.store ≡ some u) ((nat_beq_iff p ptr).0 q) there)
              ∙ k.here) in
            let h : got.header.stream_id ≡ id = sym i ∙ ap (λ (x : Stream). x.id) s ∙ k.number in
            ground arith
      ]

  put_round :
      (w : Wait (Option Error × Stream))
      → Handed (not c.cancelled) seen (message_of got) k.stream w
      → RoundTracks ptr id (or_else seen (some (message_of got))) got c (hand_over ptr c w)
  unfolding hand_over
  put_round (done (e, u)) (i, content, put) = record {
    stream = u;
    here = lookup-insert_self ptr u c.store;
    number = i ∙ k.number;
    holds = record { content = content; unheard = λ x y n. absurd (put x y n); full = λ g x. cc };
  }
  put_round blocked (x, e) = record {
    stream = k.stream;
    here = k.here;
    number = k.number;
    holds = record {
      content = λ m q. rw (k.holds.content m q) refl;
      unheard = λ y z n. cc;
      full = λ g q. (x, e);
    };
  }
  put_round panics h = absurd h

  -- A message on the stream's own identifier
  module _ (mine : got.header.stream_id ≡ id) (whole : got.error ≡ none) where
    to_own :
        to_inactive pick got c (some ptr)
        ≡ hand_over ptr c (
            receive pick
              (if c.cancelled then some ctx_canceled else none)
              (message_of got)
              k.stream)
    unfolding to_inactive to_stream
    to_own = ground (arith, k.here, whole)

    found_round :
        (p : ℕ)
        → lookup got.header.stream_id c.streams ≡ some p
        → RoundTracks ptr id
            (or_else seen (some (message_of got)))
            got
            c
            (to_inactive pick got c (some p))
    found_round p e =
        let q =
          same_pointer ptr p got.header.stream_id c k.stream v e k.here (k.number ∙ sym mine) in
        subst (RoundTracks ptr id (or_else seen (some (message_of got))) got c)
          (sym (ap (λ j. to_inactive pick got c (some j)) q ∙ to_own))
          (put_round _ (
            receive-Handed pick c.cancelled seen (message_of got) k.stream k.holds.content
              (k.holds.unheard refl)))

    lost_round :
        k.stream.closed ≡ true → Tracks ptr id (or_else seen (some (message_of got))) c testing
    lost_round shut = record {
      stream = k.stream;
      here = k.here;
      number = k.number;
      holds = record {
        content = λ m q. rw (k.holds.content m q) refl;
        unheard = λ x y n. cc;
        full = λ g x. cc;
      };
    }

    inactive_round :
        (o : Option ℕ)
        → lookup got.header.stream_id c.streams ≡ o
        → (k.stream.closed ≡ false → lookup k.stream.id c.streams ≡ some ptr)
        → RoundTracks ptr id (or_else seen (some (message_of got))) got c (to_inactive pick got c o)
    unfolding to_inactive
    inactive_round (some p) e listed = found_round p e
    inactive_round none e listed = elim (Bool-cases k.stream.closed) [
      | inl shut ↦ lost_round shut
      | inr open_still ↦
          cc (
            e,
            subst (λ j. lookup j c.streams ≡ some ptr) (k.number ∙ sym mine) (listed open_still),
          )
    ]

    own_round :
        (k.stream.closed ≡ false → lookup k.stream.id c.streams ≡ some ptr)
        → RoundTracks ptr id
            (or_else seen (some (message_of got)))
            got
            c
            (received_round lib pick got c)
    unfolding get_stream
    own_round listed =
        subst (RoundTracks ptr id (or_else seen (some (message_of got))) got c) whole_round
          (inactive_round (lookup got.header.stream_id c.streams) refl listed)
      where
        whole_round :
            to_inactive pick got c (lookup got.header.stream_id c.streams)
            ≡ received_round lib pick got c
        whole_round = ground (arith, whole)

  heard_other :
      (got.header.stream_id == id) ≡ false → or_else seen (heard id (Event.receive pick got)) ≡ seen
  unfolding heard message_on
  heard_other n = ground (arith, or_else-none seen)

  heard_error :
      (e : Error) → got.error ≡ some e → or_else seen (heard id (Event.receive pick got)) ≡ seen
  unfolding heard message_on
  heard_error e w = ground (arith, or_else-none seen)

  heard_own :
      (got.header.stream_id == id) ≡ true
      → got.error ≡ none
      → heard id (Event.receive pick got) ≡ some (message_of got)
  unfolding heard message_on
  heard_own y w = ground arith

  -- The stream behind a round of the receive loop holds the first message that was received for it.
  pub round-RoundTracks :
      (k.stream.closed ≡ false → lookup k.stream.id c.streams ≡ some ptr)
      → RoundTracks ptr id
          (or_else seen (heard id (Event.receive pick got)))
          got
          c
          (received_round lib pick got c)
  round-RoundTracks listed = elim (Bool-cases (got.header.stream_id == id)) [
    | inr n ↦
        subst (λ o. RoundTracks ptr id o got c (received_round lib pick got c))
          (sym (heard_other n)) (other_round n)
    | inl y ↦ elim (Option-cases got.error) [
      | inl w ↦
          subst (λ o. RoundTracks ptr id o got c (received_round lib pick got c))
            (ap (or_else seen) (sym (heard_own y w)))
            (own_round ((nat_beq_iff got.header.stream_id id).0 y) w listed)
      | inr (e, w) ↦
          subst (λ o. RoundTracks ptr id o got c (received_round lib pick got c))
            (sym (heard_error e w))
            (quiet_round nothing ptr id seen got c _ k refl
              (error_round-Evolves lib pick got c e w))
    ]
  ]
