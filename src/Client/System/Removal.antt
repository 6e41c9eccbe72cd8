-- ===== src/Client/System/Removal.antt =====
-- What deleting a stream and the cleanup do to the client's streams.
use ttrpc.Prelude.{
  ℕ, ◌≡◌, refl, sym, ◌∙◌, subst, inl, inr, Option, none, some, [], ◌∷◌, arith, nat_eq, string_eq,
  Option-cases,
}
use ttrpc.Prelude.Assoc.{Assoc, lookup, delete, lookup-insert, lookup-delete}
use ttrpc.Errors.{Error}
use mathlib.Core.Option.{some-injective}
use ttrpc.Stream.{Stream, close_with_error}
use ttrpc.Client.Cleanup.{cleanup-ClosedAt}
use ttrpc.Client.{
  Client, set_stream, close_pointer, delete_stream, cleanup_streams, cleanup_entries,
}
use ttrpc.Client.System.Evolution.{
  Evolves, Sound, nothing, Evolves-same, close_with_error-same, Evolves-close_with_error,
  Evolves-trans, Evolves-close_pointer,
}

-- `deleteStream` closes the one stream that it takes out of the map.
delete_stream-found :
    (ptr : ℕ) (st : Stream) (c : Client)
    → lookup ptr c.store ≡ some st
    → delete_stream ptr c
      ≡ set_stream ptr (close_with_error none st) (record c { streams = delete st.id c.streams })
unfolding delete_stream close_pointer
delete_stream-found ptr st c q = ground arith

Evolves-found :
    (ptr : ℕ) (st : Stream) (c : Client)
    → Sound c
    → lookup ptr c.store ≡ some st
    → Evolves nothing c
        (set_stream ptr (close_with_error none st) (record c { streams = delete st.id c.streams }))
Evolves-found ptr st c s q =
    let v = Evolves-close_with_error none ptr st c q in
    record {
      same_next = refl;
      same_pointer = refl;
      cancelled = λ x. x;
      fewer = λ id j e. ground (arith, lookup-delete st.id id c.streams);
      stays = λ j u e.
          let (u', here, i, k, r, l) = v.stays j u e in
          (
            u',
            here,
            i,
            k,
            r,
            λ x y. ground (
              arith,
              lookup-delete st.id u.id c.streams,
              s.made ptr st q,
              s.made j u e,
              lookup-insert ptr j (close_with_error none st) c.store,
              close_with_error-same none st,
            ),
          );
      no_new = v.no_new;
    }

pub Evolves-delete_stream :
    (ptr : ℕ) (c : Client) → Sound c → Evolves nothing c (delete_stream ptr c)
unfolding delete_stream
Evolves-delete_stream ptr c s = elim (Option-cases (lookup ptr c.store)) [
  | inl q ↦ rw (q, delete_stream) (Evolves-same c c refl refl refl refl (λ x. x))
  | inr (st, q) ↦
      subst (Evolves nothing c) (sym (delete_stream-found ptr st c q)) (Evolves-found ptr st c s q)
]

Evolves-entries :
    (e : Option Error) (m : Assoc ℕ ℕ) (c : Client) → Evolves nothing c (cleanup_entries e m c)
unfolding cleanup_entries
Evolves-entries e [] c = Evolves-same c c refl refl refl refl (λ x. x)
Evolves-entries e ((sid, ptr) ∷ rest) c =
    Evolves-trans nothing c (close_pointer e ptr c) _ (Evolves-close_pointer e ptr c)
      (Evolves-entries e rest (close_pointer e ptr c))

-- `cleanupStreams` closes every stream of the map, and empties it.
pub Evolves-cleanup_streams :
    (e : Option Error) (c : Client) → Evolves nothing c (cleanup_streams e c)
unfolding cleanup_streams lookup
Evolves-cleanup_streams e c =
    let v = Evolves-entries e c.streams c in
    record {
      same_next = v.same_next;
      same_pointer = v.same_pointer;
      cancelled = v.cancelled;
      fewer = λ id ptr x. cc;
      stays = λ ptr st h.
          let (u, here, i, k, r, l) = v.stays ptr st h in
          (
            u,
            here,
            i,
            k,
            r,
            λ x y.
                let (t, at_end, shut) = cleanup-ClosedAt e c.streams st.id ptr st c y h in
                ground (arith, some-injective t u (sym at_end ∙ here)),
          );
      no_new = v.no_new;
    }
