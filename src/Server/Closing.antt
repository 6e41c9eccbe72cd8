-- ===== src/Server/Closing.antt =====
-- `Server.Close`.
use ttrpc.Prelude.{ℕ, ◌≡◌, refl, true, false, Option, List, [], ◌∷◌, arith, nat_eq, if◌then◌else◌}
use ttrpc.Errors.{Error}
use ttrpc.Server.{Server, close_conn, close_all, close, close_listeners}
use ttrpc.Prelude.Sets.{contains, remove, contains-remove, contains-none}

close_conn-connections : (k : ℕ) (s : Server) → (close_conn k s).connections ≡ s.connections
unfolding close_conn
close_conn-connections k s = ground arith

contains-close_all :
    (ks : List ℕ) (j : ℕ) (s : Server)
    → contains j (close_all ks s).connections
      ≡ (if contains j ks then false else contains j s.connections)
unfolding close_all contains
contains-close_all [] j s = refl
contains-close_all (k ∷ ks) j s =
    let t = record s { connections = remove k s.connections } in
    ground (
      arith,
      contains-close_all ks j (close_conn k t),
      close_conn-connections k t,
      contains-remove k j s.connections,
    )

-- `Close` leaves the server no connection, active or not.
close-connections : (fails : ℕ → Option Error) (s : Server) → (close fails s).1.connections ≡ []
unfolding close
close-connections fails s =
    let t = (close_listeners fails (record s { done = true })).1 in
    contains-none (close_all t.connections t).connections
      (λ j. ground (arith, contains-close_all t.connections j t))
