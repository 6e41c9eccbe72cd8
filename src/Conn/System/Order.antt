-- ===== src/Conn/System/Order.antt =====
-- The stream identifiers of a connection, over every interleaving.
use ttrpc.Conn.System.Invariant.{Inv, Keeps, step-Keeps}
use ttrpc.Prelude.{
  ℕ, ◌%◌, ◌≤◌, ◌<◌, ◌≡◌, refl, ap, subst, ◌≢◌, inl, inr, Bool, false, Option, none, some, List, [],
  ◌∷◌, arith, nat_eq, string_eq, Option-cases,
}
use ttrpc.Prelude.Assoc.{lookup}
use mathlib.Core.Option.{some-injective}
use ttrpc.Errors.{Error}
use ttrpc.Channel.{Writer, Received}
use ttrpc.Request.{Libraries}
use ttrpc.Services.{ServiceSet}
use ttrpc.Conn.{new_conn}
use ttrpc.Conn.Receiver.{Turn, on_received}
use ttrpc.Conn.Receiver.Fresh.{admitted, TurnOk}
use ttrpc.Conn.Receiver.Fresh.Turns.{on_received-TurnOk}
use ttrpc.Conn.System.{System, Event, step, run, start}

-- What the invariant says of the identifier of a call that a turn starts.
fresh_call :
    (s : System) (v : Inv s) (id : ℕ) (t : Turn)
    → TurnOk id s.conn.last_stream_id t
    → t.spawned ≢ none
    → (s.conn.last_stream_id < id)
      × (id % 2 ≡ 1)
      × (lookup id s.jobs ≡ none)
      × (lookup id s.conn.streams ≡ none)
      × (lookup id s.conn.handlers ≡ none)
fresh_call s v id t k call = elim k.job [
  | inl e ↦ absurd (call e)
  | inr (l, own, odd) ↦
      let out : admitted s.conn.last_stream_id id ≡ false = ground arith in
      (l, odd, v.no_job id out, (v.fresh id out).0, (v.fresh id out).1)
]

pub start-Inv : (w : Writer) → Inv (start w)
unfolding start new_conn lookup
start-Inv w = record { fresh = λ id e. (refl, refl); no_job = λ id e. refl; place = tt }

module _ {M H : Type 0} (lib : Libraries) (svc : ServiceSet M H) where
  run-Inv :
      (es : List Event) (s t : System)
      → Inv s
      → run lib svc es s ≡ some t
      → Inv t × (s.conn.last_stream_id ≤ t.conn.last_stream_id)
  unfolding run
  run-Inv [] s t v e = (
    subst Inv (some-injective s t e) v,
    omega (arith, ap (λ (u : System). u.conn.last_stream_id) (some-injective s t e)),
  )
  run-Inv (x ∷ es) s t v e = elim (Option-cases (step lib svc x s)) [
    | inl q ↦ cc (rw (q, run) at e)
    | inr (s', q) ↦
        let k : Keeps s.conn.last_stream_id (some s') = rw q at (step-Keeps lib svc s v x) in
        let ih = run-Inv es s' t k.0 (rw (q, run) at e) in (ih.0, omega (arith, ih.1, k.1))
  ]

  -- In every interleaving, no action makes the last stream identifier smaller, and what the connection
  -- holds (entries of `streams`, handlers, running calls, the receiver's own stream) belongs to odd
  -- identifiers that are at most the last one.
  run-start-Inv :
      (w : Writer) (es fs : List Event) (s t : System)
      → run lib svc es (start w) ≡ some s
      → run lib svc fs s ≡ some t
      → Inv t × (s.conn.last_stream_id ≤ t.conn.last_stream_id)
  run-start-Inv w es fs s t e f = run-Inv fs s t (run-Inv es (start w) s (start-Inv w) e).0 f

  -- In every interleaving, a message that starts a call has an odd identifier above all earlier ones,
  -- for which no call runs, no stream is stored and no handler exists.
  pub new_call_is_fresh :
      (w : Writer) (es : List Event) (s : System)
      → run lib svc es (start w) ≡ some s
      → (pick : Bool) (ctx : Option Error) (got : Received)
      → (on_received lib pick ctx svc got s.conn).spawned ≢ none
      → let id = got.header.stream_id in
        (s.conn.last_stream_id < id)
        × (id % 2 ≡ 1)
        × (lookup id s.jobs ≡ none)
        × (lookup id s.conn.streams ≡ none)
        × (lookup id s.conn.handlers ≡ none)
  new_call_is_fresh w es s e pick ctx got call =
      let v = (run-Inv es (start w) s (start-Inv w) e).0 in
      let k = on_received-TurnOk lib pick ctx svc s.conn v.fresh got in
      fresh_call s v got.header.stream_id (on_received lib pick ctx svc got s.conn) k call
