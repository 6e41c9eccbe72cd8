-- ===== src/Server/Shutdown.antt =====
-- The shutdown of a server.
use ttrpc.Prelude.{
  ◌⊎◌, ℕ, ◌≡◌, refl, ◌∙◌, subst, inl, inr, true, false, Option, none, some, List, [], ◌∷◌, arith,
  ◌==◌, nat_eq, string_eq, Bool-cases, Option-cases, nat_beq_iff,
}
use ttrpc.Prelude.Sets.{contains, remove, contains-remove, contains-none}
use ttrpc.Prelude.Assoc.{lookup, insert, lookup-insert, lookup-insert_self}
use ttrpc.Errors.{Error, err_server_closed}
use ttrpc.Server.{
  Server, ServerConn, close_conn, add_connection, registered, new_conn, count_connection, is_active,
  close_if_idle, close_idle_each, close_idle_conns, shutdown_round, close_each_listener,
  close_listeners, begin_shutdown, begin_serve, idle_conn, close_listener,
}

-- The connection told to close.
abbrev pub told : ServerConn → ServerConn
told c = record c { shutdown = true }

close_conn_lem :
    (k : ℕ) (c : ServerConn) (s : Server)
    → lookup k s.conns ≡ some c
    → close_conn k s ≡ record s { conns = insert k (told c) s.conns }
unfolding close_conn
close_conn_lem k c s e = ground arith

-- Out of the map and told to close.
abbrev pub Settled : ℕ → ServerConn → Server → Type 0
Settled j c s = (contains j s.connections ≡ false) × (lookup j s.conns ≡ some (told c))

module _ (k j : ℕ) (s : Server) where
  round-active :
      is_active (lookup j s.conns) ≡ true
      → (contains j (close_if_idle k s).connections ≡ contains j s.connections)
        × (lookup j (close_if_idle k s).conns ≡ lookup j s.conns)
  unfolding close_if_idle close_conn
  round-active e = elim (Option-cases (lookup k s.conns)) [
    | inl q ↦ ground (arith, q)
    | inr (d, q) ↦
        ground (arith, q, contains-remove k j s.connections, lookup-insert k j (told d) s.conns)
  ]

  round-other :
      (k == j) ≡ false
      → (contains j (close_if_idle k s).connections ≡ contains j s.connections)
        × (lookup j (close_if_idle k s).conns ≡ lookup j s.conns)
  unfolding close_if_idle close_conn
  round-other e = elim (Option-cases (lookup k s.conns)) [
    | inl q ↦ ground (arith, q)
    | inr (d, q) ↦
        ground (arith, q, contains-remove k j s.connections, lookup-insert k j (told d) s.conns)
  ]

  round-absent :
      contains j s.connections ≡ false → contains j (close_if_idle k s).connections ≡ false
  unfolding close_if_idle close_conn
  round-absent e = ground (arith, contains-remove k j s.connections)

  round-Settled : (c : ServerConn) → Settled j c s → Settled j c (close_if_idle k s)
  unfolding close_if_idle close_conn
  round-Settled c e = elim (Option-cases (lookup k s.conns)) [
    | inl q ↦ ground (arith, q)
    | inr (d, q) ↦
        ground (arith, q, contains-remove k j s.connections, lookup-insert k j (told d) s.conns)
  ]

round-idle :
    (k : ℕ) (c : ServerConn) (s : Server)
    → lookup k s.conns ≡ some c
    → is_active (some c) ≡ false
    → Settled k c (close_if_idle k s)
unfolding close_if_idle
round-idle k c s e i = ground (
  arith,
  close_conn_lem k c (record s { connections = remove k s.connections }),
  contains-remove k k s.connections,
  lookup-insert k k (told c) s.conns,
)

each-active :
    (ks : List ℕ) (j : ℕ) (s : Server)
    → is_active (lookup j s.conns) ≡ true
    → (contains j (close_idle_each ks s).connections ≡ contains j s.connections)
      × (lookup j (close_idle_each ks s).conns ≡ lookup j s.conns)
unfolding close_idle_each
each-active [] j s e = (refl, refl)
each-active (k ∷ ks) j s e =
    let (same, kept) = round-active k j s e in
    let (same', kept') = each-active ks j (close_if_idle k s) (rw kept e) in
    (same' ∙ same, kept' ∙ kept)

each-absent :
    (ks : List ℕ) (j : ℕ) (s : Server)
    → contains j s.connections ≡ false
    → contains j (close_idle_each ks s).connections ≡ false
unfolding close_idle_each
each-absent [] j s e = e
each-absent (k ∷ ks) j s e = each-absent ks j (close_if_idle k s) (round-absent k j s e)

each-Settled :
    (ks : List ℕ) (j : ℕ) (c : ServerConn) (s : Server)
    → Settled j c s
    → Settled j c (close_idle_each ks s)
unfolding close_idle_each
each-Settled [] j c s e = e
each-Settled (k ∷ ks) j c s e = each-Settled ks j c (close_if_idle k s) (round-Settled k j s c e)

each-idle :
    (ks : List ℕ) (j : ℕ) (c : ServerConn) (s : Server)
    → lookup j s.conns ≡ some c
    → is_active (some c) ≡ false
    → contains j ks ≡ true
    → Settled j c (close_idle_each ks s)
unfolding close_idle_each contains
each-idle [] j c s e i h = cc
each-idle (k ∷ ks) j c s e i h = elim (Bool-cases (k == j)) [
  | inl q ↦
      let same : k ≡ j = (nat_beq_iff k j).0 q in
      each-Settled ks j c (close_if_idle k s)
        (subst (λ x. Settled x c (close_if_idle k s)) same (round-idle k c s (rw same e) i))
  | inr q ↦
      each-idle ks j c (close_if_idle k s) (rw (round-other k j s q).1 e) i (ground (arith, h))
]

-- `closeIdleConns` takes each connection of the server's map that is idle out of it and tells it to
-- close, and leaves each that is active in the map as it was.
close_idle_conns_lem :
    (j : ℕ) (c : ServerConn) (s : Server)
    → contains j s.connections ≡ true
    → lookup j s.conns ≡ some c
    → let t = close_idle_conns s in
      ((is_active (some c) ≡ false) × Settled j c t)
      ⊎ ((is_active (some c) ≡ true)
          × (contains j t.connections ≡ true)
          × (lookup j t.conns ≡ some c))
unfolding close_idle_conns
close_idle_conns_lem j c s h e = elim (Bool-cases (is_active (some c))) [
  | inl a ↦ let (same, kept) = each-active s.connections j s (rw e a) in inr (a, same ∙ h, kept ∙ e)
  | inr i ↦ inl (i, each-idle s.connections j c s e i h)
]

-- Every connection of the server is made and idle.
abbrev pub AllIdle : Server → Type 0
AllIdle s =
    (j : ℕ)
    → contains j s.connections ≡ true
    → (c : ServerConn) × (lookup j s.conns ≡ some c) × (is_active (some c) ≡ false)

-- A round of the loop of `Shutdown` in which every connection that the server holds is idle ends the
-- loop, and then the server holds no connection.
pub shutdown_round_ends :
    (s : Server)
    → AllIdle s
    → ((shutdown_round s).0 ≡ true) × ((shutdown_round s).1.connections ≡ [])
unfolding shutdown_round count_connection close_idle_conns
shutdown_round_ends s h = (rw none_left refl, none_left)
  where
    dealt_with : (j : ℕ) → contains j (close_idle_conns s).connections ≡ false
    dealt_with j = elim (Bool-cases (contains j s.connections)) [
      | inl held ↦ let (c, e, i) = h j held in (each-idle s.connections j c s e i held).0
      | inr out ↦ each-absent s.connections j s out
    ]

    none_left : (close_idle_conns s).connections ≡ []
    none_left = contains-none (close_idle_conns s).connections dealt_with

close_each_listener-done :
    (fails : ℕ → Option Error) (ls : List ℕ) (e : Option Error) (s : Server)
    → (close_each_listener fails ls e s).1.done ≡ s.done
unfolding close_each_listener
close_each_listener-done fails [] e s = refl
close_each_listener-done fails (l ∷ ls) e s = close_each_listener-done fails ls _ _

module _ (s : Server) (stopped : s.done ≡ true) where
  new_conn-refused :
      (k : ℕ)
      → ((new_conn k s).0 ≡ some err_server_closed)
        × ((new_conn k s).1.connections ≡ s.connections)
        × (lookup k (new_conn k s).1.conns ≡ some (told idle_conn))
  unfolding new_conn registered add_connection close_conn
  new_conn-refused k = ground (
    arith,
    lookup-insert_self k idle_conn s.conns,
    lookup-insert_self k (told idle_conn) (insert k idle_conn s.conns),
  )

  begin_serve-refused :
      (l : ℕ)
      → ((begin_serve l s).0 ≡ some err_server_closed)
        × (contains l (begin_serve l s).1.closed_listeners ≡ true)
  unfolding begin_serve close_listener contains
  begin_serve-refused l = ground arith

-- After `Shutdown` has begun no connection gets in: `newConn` returns ErrServerClosed, the server's map
-- stays as it is, and the new connection is told to close; and `Serve` returns ErrServerClosed and closes
-- its listener.
shutdown_refuses :
    (fails : ℕ → Option Error) (s : Server) (k l : ℕ)
    → let t = (begin_shutdown fails s).1 in
      (t.done ≡ true)
      × ((new_conn k t).0 ≡ some err_server_closed)
      × ((new_conn k t).1.connections ≡ t.connections)
      × (lookup k (new_conn k t).1.conns ≡ some (told idle_conn))
      × ((begin_serve l t).0 ≡ some err_server_closed)
      × (contains l (begin_serve l t).1.closed_listeners ≡ true)
unfolding begin_shutdown close_listeners
shutdown_refuses fails s k l =
    let t = (begin_shutdown fails s).1 in
    let stopped : t.done ≡ true =
      close_each_listener-done fails s.listeners none (record s { done = true }) in
    let (refused, same, told_k) = new_conn-refused t stopped k in
    let (no_serve, closed_l) = begin_serve-refused t stopped l in
    (stopped, refused, same, told_k, no_serve, closed_l)
