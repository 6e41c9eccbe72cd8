-- ===== src/Conn/System/Invariant.antt =====
-- The invariant of the interleaving: nothing belongs to an identifier that no client has used. Every
-- action keeps it.
use ttrpc.Prelude.{
  ◌||◌, ◌%◌, ℕ, ◌≤◌, ◌<◌, ◌≡◌, refl, ◌⊎◌, inl, inr, Bool, true, false, not, ◌&&◌, Option, none,
  some, arith, if◌then◌else◌, nat_eq, string_eq, Bool-cases,
}
use ttrpc.Prelude.Assoc.{Assoc, lookup, delete, lookup-insert, lookup-delete}
use ttrpc.Errors.{Error, Result, Slice, Status}
use ttrpc.Channel.{Received}
use ttrpc.Request.{Libraries}
use ttrpc.Services.{ServiceSet, StreamHandler, Wait, recv_msg}
use ttrpc.Conn.{Conn, Reply}
use ttrpc.Conn.Sender.{take_reply}
use ttrpc.Conn.Sender.Retire.{Retires, take_reply-Retires, take_recv_error-Retires}
use ttrpc.Conn.Receiver.{
  receiving, Place, After, proceed, assert_handler, close_side, reading, reporting, delivering,
  storing, counting, stopped, panicked, Job, Turn,
}
use ttrpc.Conn.Receiver.Fresh.{
  admitted, IsFresh, insert-IsFresh, PlaceIn, AfterIn, TurnOk, on_close-Keeps, deliver_data-Keeps,
}
use ttrpc.Conn.Receiver.Fresh.Turns.{on_received-TurnOk}
use ttrpc.Conn.System.{
  test, ctx_done, ctx_ends, with_handler, System, Event, receive, report, give_up, store, count,
  shut, leave, recv_error, deliver, job_send, job_end, job_recv, job_drop, spawn, after_turn,
  resume, is_closing, is_crashed, may_leave, main_takes, job_sends, job_ends, job_drops, job_takes,
  job_receives, recv_error_step, on_receive, receiver_step, act, step,
}

-- Nothing in the system belongs to an identifier that is even or above the last one.
pub record Inv (s : System) : Type 0 where
  pub fresh : IsFresh s.conn
  pub no_job : (id : ℕ) → admitted s.conn.last_stream_id id ≡ false → lookup id s.jobs ≡ none
  pub place : PlaceIn s.conn.last_stream_id s.place

-- The outcome of an action: not enabled, or the invariant holds and the last identifier has not fallen.
abbrev pub Keeps : ℕ → Option System → Type 0
Keeps last none = Unit {0}
Keeps last (some s) = Inv s × (last ≤ s.conn.last_stream_id)

Retires-Inv :
    (c : Conn) (s : System) (p : Place) (jobs : Assoc ℕ Job)
    → Inv s
    → Retires s.conn c
    → ((id : ℕ) → lookup id s.jobs ≡ none → lookup id jobs ≡ none)
    → PlaceIn s.conn.last_stream_id p
    → Inv (record s { conn = c; place = p; jobs = jobs })
Retires-Inv c s p jobs v r g h = record {
  fresh = λ id e. (
    r.streams id (v.fresh id (rw (← r.last) e)).0,
    rw r.handlers (v.fresh id (rw (← r.last) e)).1,
  );
  no_job = λ id e. g id (v.no_job id (rw (← r.last) e));
  place = rw r.last h;
}

admitted_mono : (a b id : ℕ) → a ≤ b → admitted b id ≡ false → admitted a id ≡ false
admitted_mono a b id h e = ground arith

spawn-none :
    (id j : ℕ) (o : Option Job) (last last' : ℕ) (jobs : Assoc ℕ Job)
    → last ≤ last'
    → (o ≡ none) ⊎ ((last < id) × (last' ≡ id) × (id % 2 ≡ 1))
    → (admitted last j ≡ false → lookup j jobs ≡ none)
    → admitted last' j ≡ false
    → lookup j (spawn id o jobs) ≡ none
spawn-none id j none last last' jobs l o h e = h (admitted_mono last last' j l e)
spawn-none id j (some job) last last' jobs l o h e =
    ground (arith, lookup-insert id j job jobs, h (admitted_mono last last' j l e))

after_turn-Inv :
    (id : ℕ) (t : Turn) (s : System)
    → Inv s
    → TurnOk id s.conn.last_stream_id t
    → Keeps s.conn.last_stream_id (some (after_turn id t s))
after_turn-Inv id t s v k = (
  record {
    fresh = k.fresh;
    no_job = λ j e.
        spawn-none id j t.spawned s.conn.last_stream_id t.conn.last_stream_id s.jobs k.grows k.job
          (v.no_job j) e;
    place = k.place;
  },
  k.grows,
)

resume-Keeps :
    (lib : Libraries) (r : Reply) (k : After) (s : System)
    → Inv s
    → AfterIn s.conn.last_stream_id k
    → Keeps s.conn.last_stream_id (some (resume k (main_takes lib r s)))
unfolding resume
resume-Keeps lib r proceed s v h =
    let t = take_reply-Retires lib r s.conn in
    (Retires-Inv _ s reading s.jobs v t (λ id e. e) tt, rw t.last (omega arith))
resume-Keeps lib r assert_handler s v h =
    let t = take_reply-Retires lib r s.conn in
    (Retires-Inv _ s panicked s.jobs v t (λ id e. e) tt, rw t.last (omega arith))
resume-Keeps lib r (close_side mh p) s v h =
    let t = take_reply-Retires lib r s.conn in
    let c' = take_reply lib r s.conn in
    let v' = Retires-Inv c' s reading s.jobs v t (λ id e. e) tt in
    let k = on_close-Keeps mh p c' (rw t.last h) v'.fresh in
    let w = after_turn-Inv mh.stream_id _ (record s { conn = c'; place = reading }) v' k in
    (w.0, omega (arith, w.1, t.last))

unless-Keeps :
    (s : System) (b : Bool) (o : Option System)
    → Keeps s.conn.last_stream_id o
    → Keeps s.conn.last_stream_id (if b then none else o)
unless-Keeps s true o h = tt
unless-Keeps s false o h = h

when-Keeps :
    (s : System) (b : Bool) (o : Option System)
    → Keeps s.conn.last_stream_id o
    → Keeps s.conn.last_stream_id (if b then o else none)
when-Keeps s true o h = h
when-Keeps s false o h = tt

module _ {M H : Type 0} (lib : Libraries) (svc : ServiceSet M H) (s : System) (v : Inv s) where
  unchanged :
      (p : Place)
      → PlaceIn s.conn.last_stream_id p
      → Keeps s.conn.last_stream_id (some (record s { place = p }))
  unchanged p h = (record { fresh = v.fresh; no_job = v.no_job; place = h }, omega arith)

  on_receive-Keeps :
      (pick : Bool) (ctx : Option Error) (got : Received)
      → Keeps s.conn.last_stream_id (on_receive lib svc pick ctx got s)
  unfolding on_receive
  on_receive-Keeps pick ctx got =
      after_turn-Inv got.header.stream_id _ s v
        (on_received-TurnOk lib pick ctx svc s.conn v.fresh got)

  give_up-Keeps :
      Keeps s.conn.last_stream_id
        (if is_closing s.conn then some (record s { place = stopped none }) else none)
  give_up-Keeps = when-Keeps s (is_closing s.conn) _ (unchanged (stopped none) tt)

  receiver_step-Keeps :
      (p : Place) (e : Event)
      → PlaceIn s.conn.last_stream_id p
      → Keeps s.conn.last_stream_id (receiver_step lib svc p e s)
  unfolding receiver_step
  receiver_step-Keeps reading test h = unless-Keeps s (is_closing s.conn) _ (unchanged receiving tt)
  receiver_step-Keeps reading (receive pick ctx got) h =
      unless-Keeps s (is_closing s.conn) _ (on_receive-Keeps pick ctx got)
  receiver_step-Keeps receiving (receive pick ctx got) h = on_receive-Keeps pick ctx got
  receiver_step-Keeps reading give_up h = give_up-Keeps
  receiver_step-Keeps (reporting r k) report h =
      unless-Keeps s s.conn.finished _ (resume-Keeps lib r k s v h)
  receiver_step-Keeps (reporting r k) give_up h = give_up-Keeps
  receiver_step-Keeps (delivering mh p) (deliver pick) h =
      after_turn-Inv mh.stream_id _ s v (deliver_data-Keeps mh p pick s.conn h v.fresh)
  receiver_step-Keeps (storing id b) store h = (
    record {
      fresh = λ j e. ground (arith, v.fresh j e, lookup-insert id j b s.conn.streams);
      no_job = v.no_job;
      place = tt;
    },
    omega arith,
  )
  receiver_step-Keeps counting count h =
      (record { fresh = v.fresh; no_job = v.no_job; place = tt }, omega arith)
  receiver_step-Keeps _ _ h = tt

  -- The main loop takes a reply of a call; the calls that run become fewer at most.
  reply-Keeps :
      (r : Reply) (jobs : Assoc ℕ Job)
      → ((id : ℕ) → lookup id s.jobs ≡ none → lookup id jobs ≡ none)
      → Keeps s.conn.last_stream_id
          (some (record s { conn = take_reply lib r s.conn; jobs = jobs }))
  reply-Keeps r jobs g =
      let t = take_reply-Retires lib r s.conn in
      (Retires-Inv _ s s.place jobs v t g v.place, rw t.last (omega arith))

  without : (id j : ℕ) → lookup j s.jobs ≡ none → lookup j (delete id s.jobs) ≡ none
  without id j e = ground (arith, lookup-delete id j s.jobs)

  job_sends-Keeps :
      (id : ℕ) (p : Slice) (o : Option StreamHandler)
      → Keeps s.conn.last_stream_id (job_sends lib id p s o)
  unfolding job_sends
  job_sends-Keeps id p none = tt
  job_sends-Keeps id p (some sh) =
      unless-Keeps s (sh.local_closed || s.conn.finished) _ (reply-Keeps _ s.jobs (λ i e. e))

  job_ends-Keeps :
      (id : ℕ) (st : Option Status) (p : Slice) (o : Option Job)
      → Keeps s.conn.last_stream_id (job_ends lib id st p s o)
  unfolding job_ends
  job_ends-Keeps id st p none = tt
  job_ends-Keeps id st p (some j) =
      unless-Keeps s s.conn.finished _ (reply-Keeps _ (delete id s.jobs) (without id))

  job_drops-Keeps : (id : ℕ) (o : Option Job) → Keeps s.conn.last_stream_id (job_drops id s o)
  unfolding job_drops
  job_drops-Keeps id none = tt
  job_drops-Keeps id (some j) = when-Keeps s s.conn.finished _ (
    record { fresh = v.fresh; no_job = λ i e. without id i (v.no_job i e); place = v.place },
    omega arith,
  )

  recv_error_step-Keeps : (p : Place) → Keeps s.conn.last_stream_id (recv_error_step p s)
  unfolding recv_error_step
  recv_error_step-Keeps (stopped e) =
      let t = take_recv_error-Retires e s.conn in
      when-Keeps s (s.recv_err_open && not s.conn.finished) _ (
        record {
          fresh = (Retires-Inv _ s s.place s.jobs v t (λ i q. q) v.place).fresh;
          no_job = (Retires-Inv _ s s.place s.jobs v t (λ i q. q) v.place).no_job;
          place = (Retires-Inv _ s s.place s.jobs v t (λ i q. q) v.place).place;
        },
        rw t.last (omega arith),
      )
  recv_error_step-Keeps _ = tt

  with_handler-Keeps :
      (id : ℕ) (sh : StreamHandler)
      → admitted s.conn.last_stream_id id ≡ true
      → Keeps s.conn.last_stream_id (some (with_handler id sh s))
  with_handler-Keeps id sh h = (
    record { fresh = insert-IsFresh id sh s.conn h v.fresh; no_job = v.no_job; place = v.place },
    omega arith,
  )

  -- Handlers belong to identifiers that were used.
  pub handler_admitted :
      (id : ℕ) (sh : StreamHandler)
      → lookup id s.conn.handlers ≡ some sh
      → admitted s.conn.last_stream_id id ≡ true
  handler_admitted id sh e = elim (Bool-cases (admitted s.conn.last_stream_id id)) [
    | inl y ↦ y
    | inr n ↦ ground (arith, v.fresh id n)
  ]

  ctx_ends-Keeps :
      (id : ℕ) (x : Error) (o : Option StreamHandler)
      → lookup id s.conn.handlers ≡ o
      → Keeps s.conn.last_stream_id (ctx_ends id x s o)
  unfolding ctx_ends
  ctx_ends-Keeps id x none e = tt
  ctx_ends-Keeps id x (some sh) e = with_handler-Keeps id _ (handler_admitted id sh e)

  job_takes-Keeps :
      (id : ℕ) (w : Wait (Result Slice × StreamHandler))
      → admitted s.conn.last_stream_id id ≡ true
      → Keeps s.conn.last_stream_id (job_takes id s w)
  unfolding job_takes
  job_takes-Keeps id (Wait.done (r, sh)) h = with_handler-Keeps id sh h
  job_takes-Keeps id _ h = tt

  job_receives-Keeps :
      (id : ℕ) (pick : Bool) (o : Option StreamHandler)
      → lookup id s.conn.handlers ≡ o
      → Keeps s.conn.last_stream_id (job_receives id pick s o)
  unfolding job_receives
  job_receives-Keeps id pick none e = tt
  job_receives-Keeps id pick (some sh) e =
      job_takes-Keeps id (recv_msg pick sh) (handler_admitted id sh e)

  act-Keeps : (e : Event) → Keeps s.conn.last_stream_id (act lib svc e s)
  unfolding act
  act-Keeps shut = (record { fresh = v.fresh; no_job = v.no_job; place = v.place }, omega arith)
  act-Keeps leave =
      when-Keeps s (may_leave s.conn) _
        (record { fresh = v.fresh; no_job = v.no_job; place = v.place }, omega arith)
  act-Keeps recv_error = recv_error_step-Keeps s.place
  act-Keeps (job_send id p) = job_sends-Keeps id p (lookup id s.conn.handlers)
  act-Keeps (job_end id st p) = job_ends-Keeps id st p (lookup id s.jobs)
  act-Keeps (job_drop id) = job_drops-Keeps id (lookup id s.jobs)
  act-Keeps (job_recv id pick) = job_receives-Keeps id pick (lookup id s.conn.handlers) refl
  act-Keeps (ctx_done id x) = ctx_ends-Keeps id x (lookup id s.conn.handlers) refl
  act-Keeps e = receiver_step-Keeps s.place e v.place

  pub step-Keeps : (e : Event) → Keeps s.conn.last_stream_id (step lib svc e s)
  unfolding step
  step-Keeps e = unless-Keeps s (is_crashed s.place) _ (act-Keeps e)
