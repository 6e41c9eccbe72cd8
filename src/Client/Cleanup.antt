-- ===== src/Client/Cleanup.antt =====
-- The end of the client: `run` closes every stream that is left.
use ttrpc.Prelude.{
  ℕ, ◌+◌, ◌≡◌, refl, inl, inr, true, Option, some, [], ◌∷◌, arith, ◌==◌, nat_eq, string_eq,
  Bool-cases, Option-cases,
}
use ttrpc.Prelude.Assoc.{Assoc, lookup, lookup-insert}
use mathlib.Core.Option.{some-injective}
use ttrpc.Errors.{Error}
use ttrpc.Stream.{Stream, close_with_error}
use ttrpc.Client.{
  Client, close_pointer, cleanup_entries, cleanup_streams, close, finish_run, set_stream,
}

-- A stream behind a pointer, closed.
abbrev pub ClosedAt : ℕ → Client → Type 0
ClosedAt ptr c = (s : Stream) × (lookup ptr c.store ≡ some s) × (s.closed ≡ true)

close_with_error-closed : (e : Option Error) (s : Stream) → (close_with_error e s).closed ≡ true
unfolding close_with_error
close_with_error-closed e s = ground arith

close_pointer-same :
    (e : Option Error) (ptr : ℕ) (s : Stream) (c : Client)
    → lookup ptr c.store ≡ some s
    → lookup ptr (close_pointer e ptr c).store ≡ some (close_with_error e s)
unfolding close_pointer
close_pointer-same e ptr s c h =
    ground (arith, lookup-insert ptr ptr (close_with_error e s) c.store)

abbrev Stays : ℕ → Stream → Client → Type 0
Stays j s c = (t : Stream) × (lookup j c.store ≡ some t) × (s.closed ≡ true → t.closed ≡ true)

set_stream-Stays :
    (ptr j : ℕ) (s s' t : Stream) (c : Client)
    → lookup ptr c.store ≡ some s'
    → lookup j c.store ≡ some s
    → (s'.closed ≡ true → t.closed ≡ true)
    → Stays j s (set_stream ptr t c)
set_stream-Stays ptr j s s' t c e h k = elim (Bool-cases (ptr == j)) [
  | inl q ↦ (t, ground (arith, lookup-insert ptr j t c.store), λ x. k (ground (arith, x)))
  | inr q ↦ (s, ground (arith, lookup-insert ptr j t c.store), λ x. x)
]

-- `closeWithError` at one pointer leaves each stream in the store, and closed ones closed.
close_pointer-Stays :
    (e : Option Error) (ptr j : ℕ) (s : Stream) (c : Client)
    → lookup j c.store ≡ some s
    → Stays j s (close_pointer e ptr c)
unfolding close_pointer
close_pointer-Stays e ptr j s c h = elim (Option-cases (lookup ptr c.store)) [
  | inl q ↦ rw (q, close_pointer) (s, h, λ x. x)
  | inr (s', q) ↦
      rw (q, close_pointer)
        (set_stream-Stays ptr j s s' (close_with_error e s') c q h
          (λ x. close_with_error-closed e s'))
]

cleanup-Stays :
    (e : Option Error) (m : Assoc ℕ ℕ) (j : ℕ) (s : Stream) (c : Client)
    → lookup j c.store ≡ some s
    → Stays j s (cleanup_entries e m c)
unfolding cleanup_entries
cleanup-Stays e [] j s c h = (s, h, λ x. x)
cleanup-Stays e ((sid, ptr) ∷ rest) j s c h =
    let (t, at_j, still) = close_pointer-Stays e ptr j s c h in
    let (u, at_end, still') = cleanup-Stays e rest j t (close_pointer e ptr c) at_j in
    (u, at_end, λ x. still' (still x))

-- Every stream that the map names is closed at the end of the loop.
pub cleanup-ClosedAt :
    (e : Option Error) (m : Assoc ℕ ℕ) (id ptr : ℕ) (s : Stream) (c : Client)
    → lookup id m ≡ some ptr
    → lookup ptr c.store ≡ some s
    → ClosedAt ptr (cleanup_entries e m c)
unfolding cleanup_entries lookup
cleanup-ClosedAt e [] id ptr s c l h = cc
cleanup-ClosedAt e ((sid, q) ∷ rest) id ptr s c l h = elim (Bool-cases (sid == id)) [
  | inl x ↦
      let first : lookup ptr (close_pointer e q c).store ≡ some (close_with_error e s) =
        rw (some-injective q ptr (rw x at l)) (close_pointer-same e ptr s c h) in
      let (t, at_end, still) =
        cleanup-Stays e rest ptr (close_with_error e s) (close_pointer e q c) first in
      (t, at_end, still (close_with_error-closed e s))
  | inr x ↦
      let (t, at_j, still) = close_pointer-Stays e q ptr s c h in
      cleanup-ClosedAt e rest id ptr t (close_pointer e q c) (rw x at l) at_j
]

-- The loop touches the store only.
cleanup-same :
    (e : Option Error) (m : Assoc ℕ ℕ) (c : Client)
    → let d = cleanup_entries e m c in
      (d.cancelled ≡ c.cancelled)
      × (d.conn_closed ≡ c.conn_closed)
      × (d.user_closed ≡ c.user_closed)
unfolding cleanup_entries close_pointer
cleanup-same e [] c = ground arith
cleanup-same e ((sid, ptr) ∷ rest) c = ground (arith, cleanup-same e rest (close_pointer e ptr c))

-- When the receive loop has ended, the client and its connection are closed and its map is empty, the
-- user's callback was called once more, and every stream that the map named is closed, so that nobody
-- waits on it for ever.
finish_run-closes :
    (e : Error) (c : Client) (id ptr : ℕ) (s : Stream)
    → lookup id c.streams ≡ some ptr
    → lookup ptr c.store ≡ some s
    → let d = finish_run e c in
      (d.cancelled ≡ true)
      × (d.conn_closed ≡ true)
      × (d.streams ≡ [])
      × (d.user_closed ≡ c.user_closed + 1)
      × ClosedAt ptr d
unfolding finish_run cleanup_streams close
finish_run-closes e c id ptr s l h =
    let (cancelled, conn_closed, user_closed) = cleanup-same (some e) c.streams (close c) in
    (
      cancelled,
      conn_closed,
      refl,
      rw user_closed,
      cleanup-ClosedAt (some e) c.streams id ptr s (close c) l h,
    )
