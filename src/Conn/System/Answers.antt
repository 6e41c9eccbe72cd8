-- ===== src/Conn/System/Answers.antt =====
-- Whole runs of the connection against `Conn.Calls`, and what follows for its answers.
use ttrpc.Prelude.{
  ℕ, ◌+◌, ◌≤◌, ◌≡◌, refl, ap, ◌∙◌, subst, inl, inr, Bool, false, some, List, [], ◌∷◌, ◌++◌, arith,
  if◌then◌else◌, ◌==◌, nat_eq, string_eq, Option-cases,
}
use ttrpc.Prelude.Sets.{contains}
use ttrpc.Prelude.Assoc.{lookup}
use mathlib.Core.Option.{some-injective}
use ttrpc.Channel.{Writer}
use ttrpc.Request.{Libraries}
use ttrpc.Services.{ServiceSet}
use ttrpc.Conn.{new_conn}
use ttrpc.Conn.Calls.{
  Calls, Move, move, moves, no_calls, count_moves, is_end, begins_once, is_begin,
}
use ttrpc.Conn.System.{System, Event, receive, job_send, job_end, job_drop, step, run, start}
use ttrpc.Conn.System.Invariant.{Inv, step-Keeps}
use ttrpc.Conn.System.Order.{start-Inv}
use ttrpc.Conn.System.Refinement.{is_some, Implements, observe, trace, step-Refines}

moves-append :
    (xs ys : List Move) (a b : Calls) → moves xs a ≡ some b → moves (xs ++ ys) a ≡ moves ys b
unfolding moves
moves-append [] ys a b e = ap (moves ys) (some-injective a b e)
moves-append (x ∷ xs) ys a b e = elim (Option-cases (move x a)) [
  | inl q ↦ cc (rw (q, moves) at e)
  | inr (c, q) ↦ rw (q, moves) (moves-append xs ys c b (rw (q, moves) at e))
]

count_moves-append :
    (f : Move → Bool) (xs ys : List Move)
    → count_moves f (xs ++ ys) ≡ count_moves f xs + count_moves f ys
unfolding count_moves
count_moves-append f [] ys = omega arith
count_moves-append f (x ∷ xs) ys = omega (arith, count_moves-append f xs ys)

-- Whether an event is the result of a call, which its goroutine hands over or throws away
abbrev pub is_result : ℕ → Event → Bool
is_result id (job_end j st p) = j == id
is_result id (job_drop j) = j == id
is_result id _ = false

pub results : ℕ → List Event → ℕ
results id [] = 0
results id (e ∷ es) = (if is_result id e then 1 else 0) + results id es

module _ {M H : Type 0} (lib : Libraries) (svc : ServiceSet M H) where
  -- How many calls of an identifier the messages of a run have begun
  pub begun : ℕ → List Event → System → ℕ
  unfolding trace count_moves
  begun id es s = count_moves (is_begin id) (trace lib svc es s)

  run-Implements :
      (es : List Event) (a : Calls) (s t : System)
      → Implements a s
      → Inv s
      → run lib svc es s ≡ some t
      → (b : Calls) × (moves (trace lib svc es s) a ≡ some b) × Implements b t
  unfolding run trace moves
  run-Implements [] a s t i v e = (a, refl, subst (Implements a) (some-injective s t e) i)
  run-Implements (x ∷ es) a s t i v e = elim (Option-cases (step lib svc x s)) [
    | inl q ↦ cc (rw (q, run) at e)
    | inr (u, q) ↦
        let (b, first, i') = rw q at (step-Refines lib svc a s i v x) in
        let v' = (rw q at (step-Keeps lib svc s v x)).0 in
        let (c, rest, j) = run-Implements es b u t i' v' (rw (q, run) at e) in
        (
          c,
          rw (q, trace) (moves-append (observe lib svc x s) (trace lib svc es u) a b first ∙ rest),
          j,
        )
  ]

  start-Implements : (w : Writer) → Implements no_calls (start w)
  unfolding start new_conn lookup contains
  start-Implements w = record { last = refl; running = λ id. refl }

  -- The connection implements its contract: for every sequence of actions of its goroutines that can
  -- happen on a new connection, the moves that it makes are moves of the abstract machine (each call
  -- begins on a new odd identifier above all used ones, and ends only while it runs, and messages of
  -- streams are sent on used odd identifiers only), which ends in a state with the same last identifier and the same running calls.
  pub run-start-Implements :
      (w : Writer) (es : List Event) (t : System)
      → run lib svc es (start w) ≡ some t
      → (b : Calls) × (moves (trace lib svc es (start w)) no_calls ≡ some b) × Implements b t
  run-start-Implements w es t e =
      run-Implements es no_calls (start w) t (start-Implements w) (start-Inv w) e

  observe-results :
      (id : ℕ) (e : Event) (s : System)
      → count_moves (is_end id) (observe lib svc e s) ≡ (if is_result id e then 1 else 0)
  unfolding observe count_moves
  observe-results id (receive pick ctx got) s = ground arith
  observe-results id (job_send j p) s = refl
  observe-results id (job_end j st p) s = ground arith
  observe-results id (job_drop j) s = ground arith
  observe-results id _ s = refl

  trace-results :
      (id : ℕ) (es : List Event) (s t : System)
      → run lib svc es s ≡ some t
      → count_moves (is_end id) (trace lib svc es s) ≡ results id es
  unfolding run trace count_moves results
  trace-results id [] s t e = refl
  trace-results id (x ∷ es) s t e = elim (Option-cases (step lib svc x s)) [
    | inl q ↦ cc (rw (q, run) at e)
    | inr (u, q) ↦
        rw (q, trace)
          (omega (
            arith,
            count_moves-append (is_end id) (observe lib svc x s) (trace lib svc es u),
            observe-results id x s,
            trace-results id es u t (rw (q, run) at e),
          ))
  ]

  -- In every interleaving of the actions of a new connection, at most one call is begun for an
  -- identifier; and of the calls that were begun for it, each either still runs or has had just one result,
  -- which the main loop took or which was thrown away because the loop had returned.
  pub answered_once :
      (w : Writer) (es : List Event) (t : System) (id : ℕ)
      → run lib svc es (start w) ≡ some t
      → (begun id es (start w) ≤ 1)
        × (begun id es (start w) ≡ results id es + (if is_some (lookup id t.jobs) then 1 else 0))
  unfolding begun
  answered_once w es t id e =
      let (b, m, i) = run-start-Implements w es t e in
      let (once, all) = begins_once (trace lib svc es (start w)) b id m in
      (once, all ∙ ground (arith, trace-results id es (start w) t e, i.running id))
