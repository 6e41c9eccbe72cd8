-- ===== src/Client/System/Evolution.antt =====
-- What the client's operations do to its streams, beside making new ones.
use ttrpc.Prelude.{
  ℕ, ◌+◌, ◌*◌, ◌<◌, ◌≡◌, refl, sym, ap, ◌∙◌, subst, inl, inr, Bool, true, false, Option, none, some,
  arith, ◌==◌, nat_eq, string_eq, Bool-cases, Option-cases,
}
use ttrpc.Prelude.Assoc.{lookup, lookup-insert}
use ttrpc.Errors.{Error}
use mathlib.Core.Option.{some-injective}
use ttrpc.Stream.{Stream, close_with_error}
use ttrpc.Client.{Client, set_stream, close, close_pointer}

-- The streams of a client: the map leads to streams that have its identifiers, and while no identifier
-- has come round again, a stream's identifier and its pointer give one another.
pub record Sound (c : Client) : Type 0 where
  pub known :
      (id ptr : ℕ)
      → lookup id c.streams ≡ some ptr
      → (st : Stream) × (lookup ptr c.store ≡ some st) × (st.id ≡ id)
  pub made :
      (ptr : ℕ) (st : Stream)
      → lookup ptr c.store ≡ some st
      → (ptr < c.next_pointer) × (st.id ≡ 2 * ptr + 1)
  pub next : c.next_stream_id ≡ 2 * c.next_pointer + 1

-- A stream at a pointer after an operation that may touch the messages of some pointers
abbrev pub Stays : (ℕ → Bool) → ℕ → Stream → Client → Client → Type 0
Stays touched ptr st c d =
    (st' : Stream) × (lookup ptr d.store ≡ some st')
    × (st'.id ≡ st.id)
    × (st.closed ≡ true → st'.closed ≡ true)
    × (touched ptr ≡ false → st'.recv ≡ st.recv)
    × (st'.closed ≡ false → lookup st.id c.streams ≡ some ptr → lookup st.id d.streams ≡ some ptr)

-- No stream is made, none is opened again, an open one keeps its place in the map, and the client stays
-- cancelled.
pub record Evolves (touched : ℕ → Bool) (c d : Client) : Type 0 where
  pub same_next : d.next_stream_id ≡ c.next_stream_id
  pub same_pointer : d.next_pointer ≡ c.next_pointer
  pub cancelled : c.cancelled ≡ true → d.cancelled ≡ true
  pub fewer : (id ptr : ℕ) → lookup id d.streams ≡ some ptr → lookup id c.streams ≡ some ptr
  pub stays : (ptr : ℕ) (st : Stream) → lookup ptr c.store ≡ some st → Stays touched ptr st c d
  pub no_new : (ptr : ℕ) → lookup ptr c.store ≡ none → lookup ptr d.store ≡ none

abbrev pub nothing : ℕ → Bool
nothing j = false

abbrev pub only : ℕ → ℕ → Bool
only ptr j = ptr == j

-- An operation that changes neither the map nor the store
pub Evolves-same :
    (c d : Client)
    → d.store ≡ c.store
    → d.streams ≡ c.streams
    → d.next_stream_id ≡ c.next_stream_id
    → d.next_pointer ≡ c.next_pointer
    → (c.cancelled ≡ true → d.cancelled ≡ true)
    → Evolves nothing c d
Evolves-same c d s m n p k = record {
  same_next = n;
  same_pointer = p;
  cancelled = k;
  fewer = λ id ptr e. rw (← m) e;
  stays = λ ptr st e. (st, rw s e, refl, λ x. x, λ x. refl, λ x y. rw m y);
  no_new = λ ptr e. rw s e;
}

-- One stream is changed.
pub Evolves-set_stream :
    (ptr : ℕ) (st st' : Stream) (c : Client)
    → lookup ptr c.store ≡ some st
    → st'.id ≡ st.id
    → (st.closed ≡ true → st'.closed ≡ true)
    → Evolves (only ptr) c (set_stream ptr st' c)
Evolves-set_stream ptr st st' c h i k = record {
  same_next = refl;
  same_pointer = refl;
  cancelled = λ x. x;
  fewer = λ id j e. e;
  stays = λ j u e. elim (Bool-cases (ptr == j)) [
    | inl q ↦ (
      st',
      ground (arith, lookup-insert ptr j st' c.store),
      ground arith,
      λ x. k (ground arith),
      λ x. ground arith,
      λ x y. y,
    )
    | inr q ↦
        (u, ground (arith, lookup-insert ptr j st' c.store), refl, λ x. x, λ x. refl, λ x y. y)
  ];
  no_new = λ j e. ground (arith, lookup-insert ptr j st' c.store);
}

-- The same with the message left alone
pub Evolves-quiet :
    (ptr : ℕ) (st st' : Stream) (c : Client)
    → lookup ptr c.store ≡ some st
    → st'.id ≡ st.id
    → st'.recv ≡ st.recv
    → (st.closed ≡ true → st'.closed ≡ true)
    → Evolves nothing c (set_stream ptr st' c)
Evolves-quiet ptr st st' c h i r k =
    let v = Evolves-set_stream ptr st st' c h i k in
    record {
      same_next = refl;
      same_pointer = refl;
      cancelled = λ x. x;
      fewer = λ id j e. e;
      stays = λ j u e.
          let (u', at_j, same_id, still, same_recv, listed) = v.stays j u e in
          (u', at_j, same_id, still, λ x. ground (arith, lookup-insert ptr j st' c.store), listed);
      no_new = v.no_new;
    }

pub close_with_error-same :
    (e : Option Error) (st : Stream)
    → let u = close_with_error e st in (u.id ≡ st.id) × (u.recv ≡ st.recv) × (u.closed ≡ true)
unfolding close_with_error
close_with_error-same e st = ground arith

pub Evolves-close_with_error :
    (e : Option Error) (ptr : ℕ) (st : Stream) (c : Client)
    → lookup ptr c.store ≡ some st
    → Evolves nothing c (set_stream ptr (close_with_error e st) c)
Evolves-close_with_error e ptr st c h =
    let (i, r, k) = close_with_error-same e st in
    Evolves-quiet ptr st (close_with_error e st) c h i r (λ x. k)

pub open_before :
    (st st' : Stream)
    → (st.closed ≡ true → st'.closed ≡ true)
    → st'.closed ≡ false
    → st.closed ≡ false
open_before st st' k o = elim (Bool-cases st.closed) [ inl q ↦ cc (k q) | inr q ↦ q ]

pub Evolves-trans : (t : ℕ → Bool) (b c d : Client) → Evolves t b c → Evolves t c d → Evolves t b d
Evolves-trans t b c d v w = record {
  same_next = w.same_next ∙ v.same_next;
  same_pointer = w.same_pointer ∙ v.same_pointer;
  cancelled = λ x. w.cancelled (v.cancelled x);
  fewer = λ id ptr e. v.fewer id ptr (w.fewer id ptr e);
  stays = λ ptr st e.
      let (u, at_c, i, k, r, l) = v.stays ptr st e in
      let (u', at_d, i', k', r', l') = w.stays ptr u at_c in
      (
        u',
        at_d,
        i' ∙ i,
        λ x. k' (k x),
        λ x. r' x ∙ r x,
        λ x y.
            let o = open_before u u' k' x in
            subst (λ n. lookup n d.streams ≡ some ptr) i
              (l' x (subst (λ n. lookup n c.streams ≡ some ptr) (sym i) (l o y))),
      );
  no_new = λ ptr e. w.no_new ptr (v.no_new ptr e);
}

pub Evolves-any : (t : ℕ → Bool) (c d : Client) → Evolves nothing c d → Evolves t c d
Evolves-any t c d v = record {
  same_next = v.same_next;
  same_pointer = v.same_pointer;
  cancelled = v.cancelled;
  fewer = v.fewer;
  stays = λ ptr st e.
      let (u, at_ptr, i, k, r, l) = v.stays ptr st e in (u, at_ptr, i, k, λ x. r refl, l);
  no_new = v.no_new;
}

-- What the operations keep: the streams stay sound.
pub Evolves-Sound : (t : ℕ → Bool) (c d : Client) → Evolves t c d → Sound c → Sound d
Evolves-Sound t c d v s = record {
  known = λ id ptr e.
      let (st, here, i) = s.known id ptr (v.fewer id ptr e) in
      let (u, here', i', k, r, l) = v.stays ptr st here in (u, here', i' ∙ i);
  made = λ ptr u e. elim (Option-cases (lookup ptr c.store)) [
    | inl q ↦ cc (v.no_new ptr q)
    | inr (st, q) ↦
        let (below, number) = s.made ptr st q in
        let (u', here, i, k, r, l) = v.stays ptr st q in
        (
          rw v.same_pointer below,
          ap (λ (x : Stream). x.id) (some-injective u u' (sym e ∙ here)) ∙ i ∙ number,
        )
  ];
  next = v.same_next ∙ s.next ∙ ap (λ n. 2 * n + 1) (sym v.same_pointer);
}

pub Evolves-close_pointer :
    (e : Option Error) (ptr : ℕ) (c : Client) → Evolves nothing c (close_pointer e ptr c)
unfolding close_pointer
Evolves-close_pointer e ptr c = elim (Option-cases (lookup ptr c.store)) [
  | inl q ↦ rw (q, close_pointer) (Evolves-same c c refl refl refl refl (λ x. x))
  | inr (st, q) ↦ rw (q, close_pointer) (Evolves-close_with_error e ptr st c q)
]

pub Evolves-close : (c : Client) → Evolves nothing c (close c)
unfolding close
Evolves-close c = Evolves-same c (close c) refl refl refl refl (λ x. refl)
