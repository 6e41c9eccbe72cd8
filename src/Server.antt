-- ===== src/Server.antt =====
-- server.go, `Server`: its listeners and connections, its shutdown, and the accept loop's backoff. A
-- connection or listener is a number; a connection's own goroutines are in `Conn`.
pub mod Shutdown
pub mod Closing
pub mod Backoff
pub mod Serve
use ttrpc.Prelude.{
  ℕ, ◌*◌, min, Bool, true, false, Option, none, some, List, [], ◌∷◌, if◌then◌else◌, ◌==◌, nat_eq,
  string_eq, length,
}
use ttrpc.Prelude.Sets.{remove}
use ttrpc.Prelude.Assoc.{Assoc, lookup, insert}
use ttrpc.Errors.{Error, err_server_closed}
use ttrpc.Conn.{ConnState, active, idle, closed}

-- What the server sees of a `serverConn`: its published state and whether `shutdown` is closed.
pub record ServerConn : Type 0 where
  pub state : ConnState
  pub shutdown : Bool

-- `conns` are all connections that were made; `connections` is the server's map of those it still holds.
-- `closed_listeners` are the listeners whose `Close` was called; `done` says that `s.done` is closed.
pub record Server : Type 0 where
  pub listeners : List ℕ
  pub closed_listeners : List ℕ
  pub conns : Assoc ℕ ServerConn
  pub connections : List ℕ
  pub done : Bool

new_server : Server
new_server = record {
  listeners = [];
  closed_listeners = [];
  conns = [];
  connections = [];
  done = false;
}

-- `s.m[x] = struct{}{}`
pub add : ℕ → List ℕ → List ℕ
add x ys = x ∷ remove x ys

-- `serverConn.close`, through `shutdownOnce`
pub close_conn : ℕ → Server → Server
close_conn k s = elim (lookup k s.conns) [
  | none ↦ s
  | some c ↦ record s { conns = insert k (record c { shutdown = true }) s.conns }
]

-- `addConnection`
pub add_connection : ℕ → Server → Option Error × Server
add_connection k s =
    if s.done
    then (some err_server_closed, s)
    else (none, record s { connections = add k s.connections })

abbrev pub idle_conn : ServerConn
idle_conn = record { state = idle; shutdown = false }

pub registered : ℕ → Option Error × Server → Option Error × Server
registered k (none, s) = (none, s)
registered k (some e, s) = (some e, close_conn k s)

-- `newConn`
pub new_conn : ℕ → Server → Option Error × Server
new_conn k s = registered k (add_connection k (record s { conns = insert k idle_conn s.conns }))

-- `delConnection` and `countConnection`
del_connection : ℕ → Server → Server
del_connection k s = record s { connections = remove k s.connections }

pub count_connection : Server → ℕ
count_connection s = length s.connections

abbrev pub is_active : Option ServerConn → Bool
is_active none = true
is_active (some c) = elim c.state [ active ↦ true | idle ↦ false | closed ↦ false ]

-- One round of the loop of `closeIdleConns`. (A connection whose state was never set is passed over.)
pub close_if_idle : ℕ → Server → Server
close_if_idle k s =
    if is_active (lookup k s.conns)
    then s
    else close_conn k (record s { connections = remove k s.connections })

pub close_idle_each : List ℕ → Server → Server
close_idle_each [] s = s
close_idle_each (k ∷ ks) s = close_idle_each ks (close_if_idle k s)

-- `closeIdleConns`
pub close_idle_conns : Server → Server
close_idle_conns s = close_idle_each s.connections s

abbrev first_error : Option Error → Option Error → Option Error
first_error none e = e
first_error (some d) e = some d

-- `closeListeners`: every listener is closed; `fails` are the errors of their `Close`, and the first is
-- returned.
pub close_each_listener :
    (ℕ → Option Error) → List ℕ → Option Error → Server → Option Error × Server
close_each_listener fails [] e s = (e, s)
close_each_listener fails (l ∷ ls) e s =
    close_each_listener fails ls (first_error e (fails l))
      (record s { listeners = remove l s.listeners; closed_listeners = l ∷ s.closed_listeners })

pub close_listeners : (ℕ → Option Error) → Server → Option Error × Server
close_listeners fails s = close_each_listener fails s.listeners none s

-- `Shutdown` up to its loop
pub begin_shutdown : (ℕ → Option Error) → Server → Option Error × Server
begin_shutdown fails s = close_listeners fails (record s { done = true })

-- One round of the loop of `Shutdown`: whether it ends here.
pub shutdown_round : Server → Bool × Server
shutdown_round s = let t = close_idle_conns s in (count_connection t == 0, t)

close_all : List ℕ → Server → Server
close_all [] s = s
close_all (k ∷ ks) s =
    close_all ks (close_conn k (record s { connections = remove k s.connections }))

-- `Server.Close`
pub close : (ℕ → Option Error) → Server → Option Error × Server
close fails s =
    let (e, t) = close_listeners fails (record s { done = true }) in (e, close_all t.connections t)

-- The head of `Serve`: the listener is added before `done` is looked at, and the deferred
-- `closeListener` takes it out again where `Serve` returns.
pub close_listener : ℕ → Server → Server
close_listener l s = record s {
  listeners = remove l s.listeners;
  closed_listeners = l ∷ s.closed_listeners;
}

pub begin_serve : ℕ → Server → Option Error × Server
begin_serve l s =
    let t = record s { listeners = add l s.listeners } in
    if t.done then (some err_server_closed, close_listener l t) else (none, t)

abbrev pub millisecond : ℕ
millisecond = 1000000

abbrev pub second : ℕ
second = 1000000000

-- The backoff after one more temporary failure of `Accept`, in nanoseconds
pub next_backoff : ℕ → ℕ
next_backoff b = min second (if b == 0 then millisecond else b * 2)
