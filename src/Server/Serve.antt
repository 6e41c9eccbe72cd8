-- ===== src/Server/Serve.antt =====
-- server.go, `Serve`, and handshake.go: the accept loop, interleaved with what else becomes of the
-- server. A connection's raw `net.Conn` and its `serverConn` go by one number.
pub mod Accepted
pub mod Pauses
use ttrpc.Prelude.{ℕ, Bool, Option, none, some, List, [], ◌∷◌, ◌++◌, if◌then◌else◌}
use ttrpc.Errors.{Error, err_server_closed}
use ttrpc.Server.{Server, new_conn, next_backoff, begin_serve, begin_shutdown, close_listener}

-- `Handshaker.Handshake` by its error; the connection that it approves stands for the one it was given.
abbrev pub Handshaker : Type 0
Handshaker = ℕ → Option Error

-- `noopHandshake`
pub noop_handshake : Handshaker
noop_handshake k = none

-- The choice of the handshaker in `Serve`
unfoldable pub choose_handshaker : Option Handshaker → Handshaker
choose_handshaker none = noop_handshake
choose_handshaker (some h) = h

-- What `Accept` returns: a connection, or an error with what its `Temporary` says (`false` where it has
-- no such method). With a connection comes what happens between `Accept` and `newConn`, while the
-- handshake runs: `some` is a shutdown that begins, with the errors of closing the listeners.
pub data Accept : Type 0 where
  connection : ℕ → Option (ℕ → Option Error) → Accept
  failure : Error → Bool → Accept

-- The loop between two calls of `Accept`: the connections whose `run` was started and those that it
-- closed, in order, the bounds of its pauses, and what `Serve` has returned, if it has.
pub record Loop : Type 0 where
  pub server : Server
  pub backoff : ℕ
  pub started : List ℕ
  pub refused : List ℕ
  pub pauses : List ℕ
  pub result : Option Error

-- `Serve` up to its loop
pub enter : ℕ → Server → Loop
enter l s =
    let (e, t) = begin_serve l s in
    record { server = t; backoff = 0; started = []; refused = []; pauses = []; result = e }

-- `return` in the loop, with the deferred `closeListener`
leave : ℕ → Error → Loop → Loop
leave l e x = record x { server = close_listener l x.server; result = some e }

pause : ℕ → Loop → Loop
pause b x = record x { backoff = b; pauses = x.pauses ++ b ∷ [] }

on_failure : ℕ → Error → Bool → Loop → Loop
on_failure l e temporary x =
    if x.server.done
    then leave l err_server_closed x
    else if temporary
    then pause (next_backoff x.backoff) x
    else leave l e x

refuse : ℕ → Loop → Loop
refuse k x = record x { refused = x.refused ++ k ∷ [] }

start : ℕ → Option Error × Server → Loop → Loop
start k (some e, t) x = refuse k (record x { server = t })
start k (none, t) x = record x { server = t; started = x.started ++ k ∷ [] }

greet : ℕ → Option Error → Loop → Loop
greet k (some e) x = refuse k x
greet k none x = start k (new_conn k x.server) x

meanwhile : Option (ℕ → Option Error) → Loop → Loop
meanwhile none x = x
meanwhile (some fails) x = record x { server = (begin_shutdown fails x.server).1 }

-- One round of the loop
round : Handshaker → ℕ → Accept → Loop → Loop
round h l (connection k mid) x = greet k (h k) (meanwhile mid (record x { backoff = 0 }))
round h l (failure e temporary) x = on_failure l e temporary x

-- A round, the start of `Shutdown`, or another change of the server that does not bear on `done`, such as
-- the end of a connection
pub data Event : Type 0 where
  accepts : Accept → Event
  shuts_down : (ℕ → Option Error) → Event
  changes : (List ℕ → List ℕ) → Event

happens : Handshaker → ℕ → Event → Loop → Loop
happens h l (accepts a) x = elim x.result [ none ↦ round h l a x | some e ↦ x ]
happens h l (shuts_down fails) x = record x { server = (begin_shutdown fails x.server).1 }
happens h l (changes f) x = record x {
  server = record x.server { connections = f x.server.connections };
}

pub serve : Handshaker → ℕ → List Event → Loop → Loop
serve h l [] x = x
serve h l (e ∷ es) x = serve h l es (happens h l e x)
