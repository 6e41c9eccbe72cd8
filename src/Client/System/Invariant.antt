-- ===== src/Client/System/Invariant.antt =====
-- The invariant of the client's interleaving; every action keeps it.
use ttrpc.Prelude.{
  ℕ, ◌+◌, ◌<◌, ◌≡◌, sym, subst, ◌⊎◌, inl, inr, Bool, true, false, none, some, List, ◌∷◌, arith,
  ◌==◌, nat_eq, string_eq, Bool-cases, Option-cases,
}
use ttrpc.Prelude.Assoc.{Assoc, lookup, insert, lookup-insert}
use ttrpc.Prelude.Sets.{contains}
use ttrpc.Channel.{Received}
use ttrpc.Stream.{Stream, new_stream}
use ttrpc.Client.{Client}
use ttrpc.Client.Streaming.{ClientStream}
use ttrpc.Client.System.{Place, handing, closing, cleaned, over, System}
use ttrpc.Client.System.Evolution.{open_before, Sound, Evolves, Evolves-Sound}
use ttrpc.Client.System.Growth.{Adds}

-- Behind `Close`, and behind `cleanupStreams`, in `run`
abbrev pub is_shut : Place → Bool
is_shut (closing e) = true
is_shut cleaned = true
is_shut over = true
is_shut _ = false

abbrev pub is_cleaned : Place → Bool
is_cleaned cleaned = true
is_cleaned over = true
is_cleaned _ = false

cleaned-shut : (p : Place) → is_cleaned p ≡ true → is_shut p ≡ true
cleaned-shut p e = ground arith

-- A stream at a pointer that is registered as long as it is open
abbrev pub Waited : ℕ → Client → Type 0
Waited ptr c =
    (st : Stream) × (lookup ptr c.store ≡ some st)
    × (st.closed ≡ false → lookup st.id c.streams ≡ some ptr)

-- The streams on which calls wait are registered while they are open; those of users are others; and
-- behind `cleanupStreams` there are none.
pub record Inv (s : System) : Type 0 where
  pub sound : Sound s.client
  pub waited : (ptr : ℕ) → contains ptr s.waiting ≡ true → Waited ptr s.client
  pub below : (ptr : ℕ) → contains ptr s.waiting ≡ true → ptr < s.client.next_pointer
  pub users :
      (ptr : ℕ) (cs : ClientStream)
      → lookup ptr s.opened ≡ some cs
      → (cs.pointer ≡ ptr) × (ptr < s.client.next_pointer) × (contains ptr s.waiting ≡ false)
  pub handed : (got : Received) (ptr : ℕ) → s.place ≡ handing got ptr → ptr < s.client.next_pointer
  pub shut : is_shut s.place ≡ true → s.client.cancelled ≡ true
  pub emptied : is_cleaned s.place ≡ true → (id : ℕ) → lookup id s.client.streams ≡ none

-- An open stream on which a call waits stays registered.
Evolves-Waited :
    (t : ℕ → Bool) (ptr : ℕ) (c d : Client) → Evolves t c d → Waited ptr c → Waited ptr d
Evolves-Waited t ptr c d v (st, here, listed) =
    let (u, there, i, k, r, l) = v.stays ptr st here in
    (
      u,
      there,
      λ x. subst (λ n. lookup n d.streams ≡ some ptr) (sym i) (l x (listed (open_before st u k x))),
    )

pub Evolves-none :
    (t : ℕ → Bool) (id : ℕ) (c d : Client)
    → Evolves t c d
    → lookup id c.streams ≡ none
    → lookup id d.streams ≡ none
Evolves-none t id c d v n = elim (Option-cases (lookup id d.streams)) [
  | inl q ↦ q
  | inr (ptr, q) ↦ cc (v.fewer id ptr q)
]

-- The users' streams after one of them was changed, and kept its pointer
abbrev pub Users : Assoc ℕ ClientStream → List ℕ → ℕ → Type 0
Users os ws n =
    (ptr : ℕ) (cs : ClientStream)
    → lookup ptr os ≡ some cs
    → (cs.pointer ≡ ptr) × (ptr < n) × (contains ptr ws ≡ false)

-- An action that makes no stream
pub Evolves-Inv :
    (t : ℕ → Bool) (s : System) (c : Client) (p : Place) (ws : List ℕ) (os : Assoc ℕ ClientStream)
    → Inv s
    → Evolves t s.client c
    → ((ptr : ℕ) → contains ptr ws ≡ true → contains ptr s.waiting ≡ true)
    → Users os ws s.client.next_pointer
    → ((got : Received) (ptr : ℕ) → p ≡ handing got ptr → ptr < s.client.next_pointer)
    → (is_shut p ≡ true → c.cancelled ≡ true)
    → (is_cleaned p ≡ true → (id : ℕ) → lookup id c.streams ≡ none)
    → Inv (record { client = c; place = p; waiting = ws; opened = os })
Evolves-Inv t s c p ws os v e w u g h k = record {
  sound = Evolves-Sound t s.client c e v.sound;
  waited = λ ptr x. Evolves-Waited t ptr s.client c e (v.waited ptr (w ptr x));
  below = λ ptr x. rw e.same_pointer (v.below ptr (w ptr x));
  users = λ ptr cs x. let (a, b, d) = u ptr cs x in (a, rw e.same_pointer b, d);
  handed = λ got ptr x. rw e.same_pointer (g got ptr x);
  shut = h;
  emptied = k;
}

-- The next identifier is not the last one of 32 bits.
abbrev pub HasRoom : Client → Type 0
HasRoom c = c.next_stream_id + 2 < 4294967296

module _ (c d : Client) (a : Adds c d) (v : Sound c) where
  Adds-Sound : HasRoom c → Sound d
  unfolding new_stream
  Adds-Sound room = record {
    known = λ id ptr e. elim (Bool-cases (c.next_stream_id == id)) [
      | inl q ↦
          (new_stream c.next_stream_id, ground (arith, a.streams id, a.store ptr), ground arith)
      | inr q ↦
          let (st, here, i) = v.known id ptr (ground (arith, a.streams id)) in
          (st, ground (arith, a.store ptr, v.made ptr st here), i)
    ];
    made = λ ptr st e. elim (Bool-cases (c.next_pointer == ptr)) [
      | inl q ↦ ground (arith, a.store ptr, a.pointer, v.next)
      | inr q ↦
          let (b, n) = v.made ptr st (ground (arith, a.store ptr)) in (omega (arith, a.pointer), n)
    ];
    next = omega (arith, a.identifier, a.pointer, v.next);
  }

  Adds-Waited : (ptr : ℕ) → ptr < c.next_pointer → Waited ptr c → Waited ptr d
  Adds-Waited ptr b (st, here, listed) = (
    st,
    ground (arith, a.store ptr),
    λ x. ground (arith, a.streams st.id, v.made ptr st here, v.next, listed x),
  )

  Adds-Waited_new : (ptr : ℕ) → ptr ≡ c.next_pointer → Waited ptr d
  unfolding new_stream
  Adds-Waited_new ptr e = (
    new_stream c.next_stream_id,
    ground (arith, a.store ptr),
    λ x. ground (arith, a.streams c.next_stream_id),
  )

-- An action that makes a stream, for a call that waits or for a user
module _ (s : System) (d : Client) (a : Adds s.client d) (v : Inv s) (room : HasRoom s.client) where
  pub Adds-Inv :
      (ws : List ℕ) (os : Assoc ℕ ClientStream)
      → ((ptr : ℕ)
          → contains ptr ws ≡ true
          → (contains ptr s.waiting ≡ true) ⊎ (ptr ≡ s.client.next_pointer))
      → Users os ws (s.client.next_pointer + 1)
      → Inv (record { client = d; place = s.place; waiting = ws; opened = os })
  Adds-Inv ws os w u = record {
    sound = Adds-Sound s.client d a v.sound room;
    waited = λ ptr x. elim (w ptr x) [
      | inl y ↦ Adds-Waited s.client d a v.sound ptr (v.below ptr y) (v.waited ptr y)
      | inr y ↦ Adds-Waited_new s.client d a v.sound ptr y
    ];
    below = λ ptr x. elim (w ptr x) [
      | inl y ↦ omega (arith, a.pointer, v.below ptr y)
      | inr y ↦ omega (arith, a.pointer)
    ];
    users = λ ptr cs x. let (p, b, n) = u ptr cs x in (p, rw a.pointer b, n);
    handed = λ got ptr x. omega (arith, a.pointer, v.handed got ptr x);
    shut = λ x. cc (v.shut x, a.live);
    emptied = λ x id. cc (v.shut (cleaned-shut s.place x), a.live);
  }

  pub call-Inv : Inv (record {
    client = d;
    place = s.place;
    waiting = s.client.next_pointer ∷ s.waiting;
    opened = s.opened;
  })
  unfolding contains
  call-Inv =
      Adds-Inv (s.client.next_pointer ∷ s.waiting) s.opened
        (λ ptr x. elim (Bool-cases (s.client.next_pointer == ptr)) [
          | inl q ↦ inr (ground arith)
          | inr q ↦ inl (ground arith)
        ])
        (λ ptr cs x. let (p, b, n) = v.users ptr cs x in (p, omega arith, ground arith))

  new_unwaited : (ptr : ℕ) → ptr ≡ s.client.next_pointer → contains ptr s.waiting ≡ false
  new_unwaited ptr e = elim (Bool-cases (contains ptr s.waiting)) [
    | inl q ↦ absurd (omega (arith, v.below ptr q))
    | inr q ↦ q
  ]

  pub open-Inv :
      (cs : ClientStream)
      → cs.pointer ≡ s.client.next_pointer
      → Inv (record {
        client = d;
        place = s.place;
        waiting = s.waiting;
        opened = insert cs.pointer cs s.opened;
      })
  open-Inv cs e =
      Adds-Inv s.waiting (insert cs.pointer cs s.opened) (λ ptr x. inl x)
        λ ptr us x. elim (Bool-cases (cs.pointer == ptr)) [
          | inl q ↦ (
            ground (arith, lookup-insert cs.pointer ptr cs s.opened),
            ground arith,
            new_unwaited ptr (ground arith),
          )
          | inr q ↦
              let (p, b, n) =
                v.users ptr us (ground (arith, lookup-insert cs.pointer ptr cs s.opened)) in
              (p, omega arith, n)
        ]
