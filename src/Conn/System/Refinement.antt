-- ===== src/Conn/System/Refinement.antt =====
-- The connection against `Conn.Calls`: every action is a move of the abstract machine, or none.
use ttrpc.Prelude.{
  ◌||◌, ℕ, ◌≡◌, refl, sym, ◌∙◌, inl, inr, Bool, true, false, not, ◌&&◌, Option, none, some, List,
  [], ◌∷◌, ◌++◌, arith, if◌then◌else◌, nat_eq, string_eq,
}
use ttrpc.Prelude.Sets.{contains, remove, contains-remove}
use ttrpc.Prelude.Assoc.{lookup, delete, lookup-insert, lookup-delete}
use ttrpc.Errors.{Error, Result, Slice, Status}
use ttrpc.Channel.{Received}
use ttrpc.Request.{Libraries}
use ttrpc.Services.{ServiceSet, StreamHandler, Wait, recv_msg}
use ttrpc.Conn.{Conn, Reply}
use ttrpc.Conn.Calls.{Calls, Move, began, used, spoke, ended, move, moves}
use ttrpc.Conn.Sender.{take_reply}
use ttrpc.Conn.Sender.Retire.{take_reply-Retires, take_recv_error-Retires}
use ttrpc.Conn.Receiver.{
  receiving, on_close, deliver_data, Place, After, proceed, assert_handler, close_side, reading,
  reporting, delivering, storing, counting, stopped, Job, Turn, on_received,
}
use ttrpc.Conn.Receiver.Fresh.{TurnOk}
use ttrpc.Conn.Receiver.Fresh.Turns.{on_received-TurnOk}
use ttrpc.Conn.Receiver.Turns.{on_close-same, deliver_data-same}
use ttrpc.Conn.System.{
  test, ctx_done, ctx_ends, last_reply, message_reply, System, Event, receive, report, give_up,
  store, count, shut, leave, recv_error, deliver, job_send, job_end, job_recv, job_drop, after_turn,
  resume, is_closing, is_crashed, may_leave, main_takes, job_sends, job_ends, job_drops, job_takes,
  job_receives, recv_error_step, on_receive, receiver_step, act, step,
}
use ttrpc.Conn.System.Invariant.{Inv, handler_admitted}

abbrev pub is_some : Option Job → Bool
is_some none = false
is_some (some j) = true

-- The abstract state has the same last identifier, and runs the calls that have a goroutine.
pub record Implements (a : Calls) (s : System) : Type 0 where
  pub last : a.last ≡ s.conn.last_stream_id
  pub running : (id : ℕ) → contains id a.running ≡ is_some (lookup id s.jobs)

abbrev turn_move : ℕ → Turn → Move
turn_move id t = elim t.spawned [ some j ↦ began id | none ↦ used t.conn.last_stream_id ]

-- The moves that an action is for the abstract machine.
module _ {M H : Type 0} (lib : Libraries) (svc : ServiceSet M H) where
  unfoldable pub observe : Event → System → List Move
  observe (receive pick ctx got) s =
      turn_move got.header.stream_id (on_received lib pick ctx svc got s.conn) ∷ []
  observe (job_send id p) s = spoke id ∷ []
  observe (job_end id st p) s = ended id ∷ []
  observe (job_drop id) s = ended id ∷ []
  observe _ s = []

  unfoldable pub trace : List Event → System → List Move
  trace [] s = []
  trace (e ∷ es) s = elim (step lib svc e s) [ none ↦ [] | some t ↦ observe e s ++ trace es t ]

-- An action that is no move: calls and the last identifier stay.
abbrev Silent : System → Option System → Type 0
Silent s none = Unit {0}
Silent s (some t) = (t.conn.last_stream_id ≡ s.conn.last_stream_id) × (t.jobs ≡ s.jobs)

-- What one action is, with its moves.
abbrev pub Refines : Calls → List Move → Option System → Type 0
Refines a ms none = Unit {0}
Refines a ms (some t) = (b : Calls) × (moves ms a ≡ some b) × Implements b t

Silent-Refines :
    (a : Calls) (s : System) (o : Option System) → Implements a s → Silent s o → Refines a [] o
unfolding moves
Silent-Refines a s none i h = tt
Silent-Refines a s (some t) i (l, j) =
    (a, refl, record { last = i.last ∙ sym l; running = λ id. rw j (i.running id) })

module _ {M H : Type 0} (lib : Libraries) (svc : ServiceSet M H) (a : Calls) (s : System)
    (i : Implements a s) where
  unless-Silent : (b : Bool) (o : Option System) → Silent s o → Silent s (if b then none else o)
  unless-Silent true o h = tt
  unless-Silent false o h = h

  when-Silent : (b : Bool) (o : Option System) → Silent s o → Silent s (if b then o else none)
  when-Silent true o h = h
  when-Silent false o h = tt

  turn-Silent :
      (id : ℕ) (t : Turn) (u : System)
      → (u.conn.last_stream_id ≡ s.conn.last_stream_id) × (u.jobs ≡ s.jobs)
      → (t.conn.last_stream_id ≡ u.conn.last_stream_id) × (t.spawned ≡ none)
      → Silent s (some (after_turn id t u))
  turn-Silent id t u (l, j) (m, n) = ground arith

  resume-Silent : (r : Reply) (k : After) → Silent s (some (resume k (main_takes lib r s)))
  unfolding resume
  resume-Silent r proceed = ((take_reply-Retires lib r s.conn).last, refl)
  resume-Silent r assert_handler = ((take_reply-Retires lib r s.conn).last, refl)
  resume-Silent r (close_side mh p) =
      let t = main_takes lib r s in
      turn-Silent mh.stream_id (on_close mh p t.conn) t
        ((take_reply-Retires lib r s.conn).last, refl) (on_close-same mh p t.conn)

  -- The receiver's actions but for `receive`.
  abbrev is_receive : Event → Bool
  is_receive (receive pick ctx got) = true
  is_receive _ = false

  receiver_step-Silent :
      (p : Place) (e : Event) → is_receive e ≡ false → Silent s (receiver_step lib svc p e s)
  unfolding receiver_step
  receiver_step-Silent reading (receive pick ctx got) n = cc
  receiver_step-Silent receiving (receive pick ctx got) n = cc
  receiver_step-Silent reading test n = unless-Silent (is_closing s.conn) _ (refl, refl)
  receiver_step-Silent reading give_up n = when-Silent (is_closing s.conn) _ (refl, refl)
  receiver_step-Silent (reporting r k) report n =
      unless-Silent s.conn.finished _ (resume-Silent r k)
  receiver_step-Silent (reporting r k) give_up n = when-Silent (is_closing s.conn) _ (refl, refl)
  receiver_step-Silent (delivering mh p) (deliver pick) n =
      turn-Silent mh.stream_id (deliver_data pick mh p s.conn) s (refl, refl)
        (deliver_data-same pick mh p s.conn)
  receiver_step-Silent (storing id b) store n = (refl, refl)
  receiver_step-Silent counting count n = (refl, refl)
  receiver_step-Silent _ _ n = tt

  recv_error_step-Silent : (p : Place) → Silent s (recv_error_step p s)
  unfolding recv_error_step
  recv_error_step-Silent (stopped e) =
      when-Silent (s.recv_err_open && not s.conn.finished) _
        ((take_recv_error-Retires e s.conn).last, refl)
  recv_error_step-Silent _ = tt

  job_takes-Silent :
      (id : ℕ) (w : Wait (Result Slice × StreamHandler)) → Silent s (job_takes id s w)
  unfolding job_takes
  job_takes-Silent id (Wait.done (r, sh)) = (refl, refl)
  job_takes-Silent id _ = tt

  job_receives-Silent :
      (id : ℕ) (pick : Bool) (o : Option StreamHandler) → Silent s (job_receives id pick s o)
  unfolding job_receives
  job_receives-Silent id pick none = tt
  job_receives-Silent id pick (some sh) = job_takes-Silent id (recv_msg pick sh)

  ctx_ends-Silent : (id : ℕ) (x : Error) (o : Option StreamHandler) → Silent s (ctx_ends id x s o)
  unfolding ctx_ends
  ctx_ends-Silent id x none = tt
  ctx_ends-Silent id x (some sh) = (refl, refl)

  when-Refines :
      (ms : List Move) (b : Bool) (o : Option System)
      → Refines a ms o
      → Refines a ms (if b then o else none)
  when-Refines ms true o h = h
  when-Refines ms false o h = tt

  unless-Refines :
      (ms : List Move) (b : Bool) (o : Option System)
      → Refines a ms o
      → Refines a ms (if b then none else o)
  unless-Refines ms true o h = tt
  unless-Refines ms false o h = h

  -- A running call ends, and a stream that was begun speaks.
  ends-Refines :
      (id : ℕ) (j : Job) (c : Conn)
      → lookup id s.jobs ≡ some j
      → c.last_stream_id ≡ s.conn.last_stream_id
      → Refines a (ended id ∷ []) (some (record s { conn = c; jobs = delete id s.jobs }))
  unfolding moves move
  ends-Refines id j c e l = (
    record { last = a.last; running = remove id a.running },
    ground (arith, i.running id, e),
    record {
      last = i.last ∙ sym l;
      running = λ k.
          ground (arith, i.running k, contains-remove id k a.running, lookup-delete id k s.jobs);
    },
  )

  job_sends-Refines :
      (v : Inv s) (id : ℕ) (p : Slice) (o : Option StreamHandler)
      → lookup id s.conn.handlers ≡ o
      → Refines a (spoke id ∷ []) (job_sends lib id p s o)
  unfolding job_sends moves move
  job_sends-Refines v id p none e = tt
  job_sends-Refines v id p (some sh) e =
      unless-Refines (spoke id ∷ []) (sh.local_closed || s.conn.finished) _ (
        a,
        ground (arith, i.last, handler_admitted lib svc s v id sh e),
        record {
          last = i.last ∙ sym (take_reply-Retires lib (message_reply id p) s.conn).last;
          running = i.running;
        },
      )

  job_ends-Refines :
      (id : ℕ) (st : Option Status) (p : Slice) (o : Option Job)
      → lookup id s.jobs ≡ o
      → Refines a (ended id ∷ []) (job_ends lib id st p s o)
  unfolding job_ends
  job_ends-Refines id st p none e = tt
  job_ends-Refines id st p (some j) e = unless-Refines (ended id ∷ []) s.conn.finished _ (
      ends-Refines id j (take_reply lib (last_reply id j st p) s.conn) e
        (take_reply-Retires lib (last_reply id j st p) s.conn).last)

  job_drops-Refines :
      (id : ℕ) (o : Option Job)
      → lookup id s.jobs ≡ o
      → Refines a (ended id ∷ []) (job_drops id s o)
  unfolding job_drops
  job_drops-Refines id none e = tt
  job_drops-Refines id (some j) e =
      when-Refines (ended id ∷ []) s.conn.finished _ (ends-Refines id j s.conn e refl)

  -- One turn on a message begins a call, or uses an identifier up.
  turn-Refines :
      (id : ℕ) (t : Turn) (o : Option Job)
      → t.spawned ≡ o
      → TurnOk id s.conn.last_stream_id t
      → Refines a (turn_move id t ∷ []) (some (after_turn id t s))
  unfolding moves move contains
  turn-Refines id t none e k = (
    record { last = t.conn.last_stream_id; running = a.running },
    ground (arith, i.last, k.grows),
    record { last = refl; running = λ j. ground (arith, i.running j) },
  )
  turn-Refines id t (some j) e k = elim k.job [
    | inl n ↦ cc
    | inr (new, own, odd) ↦ (
      record { last = id; running = id ∷ a.running },
      ground (arith, i.last),
      record {
        last = sym own;
        running = λ x. ground (arith, i.running x, lookup-insert id x j s.jobs);
      },
    )
  ]

  receive-Refines :
      (v : Inv s) (p : Place) (pick : Bool) (ctx : Option Error) (got : Received)
      → Refines a
          (turn_move got.header.stream_id (on_received lib pick ctx svc got s.conn) ∷ [])
          (receiver_step lib svc p (receive pick ctx got) s)
  unfolding receiver_step on_receive
  receive-Refines v reading pick ctx got =
      let t = on_received lib pick ctx svc got s.conn in
      unless-Refines _ (is_closing s.conn) _ (
        turn-Refines got.header.stream_id t t.spawned refl
          (on_received-TurnOk lib pick ctx svc s.conn v.fresh got))
  receive-Refines v receiving pick ctx got =
      let t = on_received lib pick ctx svc got s.conn in
      turn-Refines got.header.stream_id t t.spawned refl
        (on_received-TurnOk lib pick ctx svc s.conn v.fresh got)
  receive-Refines v _ pick ctx got = tt

  act-Refines : (v : Inv s) (e : Event) → Refines a (observe lib svc e s) (act lib svc e s)
  unfolding act observe
  act-Refines v (receive pick ctx got) = receive-Refines v s.place pick ctx got
  act-Refines v (job_send id p) = job_sends-Refines v id p (lookup id s.conn.handlers) refl
  act-Refines v (job_end id st p) = job_ends-Refines id st p (lookup id s.jobs) refl
  act-Refines v (job_drop id) = job_drops-Refines id (lookup id s.jobs) refl
  act-Refines v shut = Silent-Refines a s (act lib svc shut s) i (refl, refl)
  act-Refines v leave = Silent-Refines a s _ i (when-Silent (may_leave s.conn) _ (refl, refl))
  act-Refines v recv_error = Silent-Refines a s _ i (recv_error_step-Silent s.place)
  act-Refines v (job_recv id pick) =
      Silent-Refines a s _ i (job_receives-Silent id pick (lookup id s.conn.handlers))
  act-Refines v (ctx_done id x) =
      Silent-Refines a s _ i (ctx_ends-Silent id x (lookup id s.conn.handlers))
  act-Refines v e = Silent-Refines a s _ i (receiver_step-Silent s.place e refl)

  pub step-Refines : (v : Inv s) (e : Event) → Refines a (observe lib svc e s) (step lib svc e s)
  unfolding step
  step-Refines v e = unless-Refines _ (is_crashed s.place) _ (act-Refines v e)
