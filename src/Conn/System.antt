-- ===== src/Conn/System.antt =====
-- server.go, `serverConn.run` as a whole: the main loop, the receiving goroutine and the goroutines of
-- the calls, one atomic action of one of them at a time. A run is a list of such events in any order.
pub mod Invariant
pub mod Order
pub mod Refinement
pub mod Answers
pub mod Wire
pub mod Calls
pub mod Unary
use ttrpc.Prelude.{
  ℕ, Bool, true, false, not, ◌&&◌, ◌||◌, Option, none, some, List, [], ◌∷◌, if◌then◌else◌, nat_eq,
  string_eq,
}
use ttrpc.Prelude.Assoc.{Assoc, lookup, insert, delete}
use ttrpc.Errors.{Error, Result, Slice, Status}
use ttrpc.Channel.{Writer, Received}
use ttrpc.Request.{Libraries}
use ttrpc.Services.{ServiceSet, StreamHandler, Wait, recv_msg}
use ttrpc.Conn.{ConnState, active, idle, closed, Conn, Reply, new_conn, add_active}
use ttrpc.Conn.Sender.{take_reply, take_recv_error, finish}
use ttrpc.Conn.Receiver.{
  Place, After, proceed, assert_handler, close_side, reading, receiving, reporting, delivering,
  storing, counting, stopped, panicked, Job, Turn, on_received, on_close, deliver_data,
}

-- `jobs` are the running goroutines of calls, by stream; `recv_err_open` says that the main loop has not
-- yet taken from `recvErr`.
pub record System : Type 0 where
  pub conn : Conn
  pub place : Place
  pub jobs : Assoc ℕ Job
  pub recv_err_open : Bool

-- The environment and the scheduler: which action comes next, and what it gets from outside.
-- `test`: the receiver finds `shutdown` and `done` open and calls `ch.recv`. `receive`: `ch.recv` returns,
-- whatever was closed since; at the head of the loop it stands for `test` and the return at once. `report`: the main loop takes the receiver's status. `give_up`: the
-- receiver sees a closed `shutdown` or `done`. `deliver`: a waiting `sh.data` goes on. `store`, `count`:
-- the two actions behind `handle`. `job_send`: `SendMsg` of a stream's
-- handler, which may outlive its call. `job_end`: a call's result. `ctx_done`: a stream's context ends. `job_recv`: a
-- stream's handler receives. `job_drop`: a result when `done` is closed. `shut`: `c.close`. `leave`: the
-- loop's shutdown branch. `recv_error`: the loop's `recvErr` branch.
pub data Event : Type 0 where
  receive : Bool → Option Error → Received → Event
  test report give_up store count shut leave recv_error : Event
  deliver : Bool → Event
  job_send : ℕ → Slice → Event
  job_end : ℕ → Option Status → Slice → Event
  job_recv : ℕ → Bool → Event
  job_drop : ℕ → Event
  ctx_done : ℕ → Error → Event

abbrev pub spawn : ℕ → Option Job → Assoc ℕ Job → Assoc ℕ Job
spawn id none jobs = jobs
spawn id (some j) jobs = insert id j jobs

abbrev pub after_turn : ℕ → Turn → System → System
after_turn id t s = record s { conn = t.conn; place = t.place; jobs = spawn id t.spawned s.jobs }

-- The receiver behind `sendStatus`: the type assertion on a nil interface panics.
pub resume : After → System → System
resume proceed s = record s { place = reading }
resume assert_handler s = record s { place = panicked }
resume (close_side mh p) s = after_turn mh.stream_id (on_close mh p s.conn) s

-- Whether `shutdown` or `done` is closed, which `sendStatus` and the loop's head look at.
abbrev pub is_closing : Conn → Bool
is_closing c = c.shutdown || c.finished

-- The replies of a call: SendMsg's, and the last one, with which its goroutine ends.
abbrev pub message_reply : ℕ → Slice → Reply
message_reply id p = record {
  id = id;
  status = none;
  payload = p;
  close_stream = false;
  streaming = true;
}

abbrev pub last_reply : ℕ → Job → Option Status → Slice → Reply
last_reply id j st p = record {
  id = id;
  status = st;
  payload = p;
  close_stream = true;
  streaming = j.streaming_server;
}

abbrev pub main_takes : Libraries → Reply → System → System
main_takes lib r s = record s { conn = take_reply lib r s.conn }

-- `none`: the action is not enabled.
unfoldable pub job_sends : Libraries → ℕ → Slice → System → Option StreamHandler → Option System
job_sends lib id p s none = none
job_sends lib id p s (some sh) =
    if sh.local_closed || s.conn.finished
    then none
    else some (main_takes lib (message_reply id p) s)

unfoldable pub job_ends :
    Libraries → ℕ → Option Status → Slice → System → Option Job → Option System
job_ends lib id st p s none = none
job_ends lib id st p s (some j) =
    if s.conn.finished
    then none
    else some (main_takes lib (last_reply id j st p) (record s { jobs = delete id s.jobs }))

pub job_drops : ℕ → System → Option Job → Option System
job_drops id s none = none
job_drops id s (some j) =
    if s.conn.finished then some (record s { jobs = delete id s.jobs }) else none

abbrev pub with_handler : ℕ → StreamHandler → System → System
with_handler id sh s = record s { conn = record s.conn { handlers = insert id sh s.conn.handlers } }

unfoldable pub job_takes : ℕ → System → Wait (Result Slice × StreamHandler) → Option System
job_takes id s (Wait.done (_, sh)) = some (with_handler id sh s)
job_takes id s _ = none

unfoldable pub job_receives : ℕ → Bool → System → Option StreamHandler → Option System
job_receives id pick s none = none
job_receives id pick s (some sh) = job_takes id s (recv_msg pick sh)

-- The context of a stream's handler is done: by its timeout, or by a `cancel`. The first error stays.
pub ctx_ended : Error → Option Error → Option Error
ctx_ended e none = some e
ctx_ended e (some x) = some x

unfoldable pub ctx_ends : ℕ → Error → System → Option StreamHandler → Option System
ctx_ends id e s none = none
ctx_ends id e s (some sh) =
    some (with_handler id (record sh { ctx_error = ctx_ended e sh.ctx_error }) s)

-- What the receiver left in `recvErr`, once it has returned.
pub recv_error_step : Place → System → Option System
recv_error_step (stopped e) s =
    if s.recv_err_open && not s.conn.finished
    then some (record s { conn = take_recv_error e s.conn; recv_err_open = false })
    else none
recv_error_step _ s = none

abbrev is_idle : ConnState → Bool
is_idle idle = true
is_idle active = false
is_idle closed = false

-- The shutdown branch is enabled when the head of the loop, which published its state, saw no call; a
-- call that is counted later does not disable it before the next round.
abbrev pub may_leave : Conn → Bool
may_leave c = c.shutdown && is_idle c.published && not c.finished

-- A Go panic in one goroutine ends the process.
abbrev pub is_crashed : Place → Bool
is_crashed panicked = true
is_crashed _ = false

module _ {M H : Type 0} (lib : Libraries) (svc : ServiceSet M H) where
  unfoldable pub on_receive : Bool → Option Error → Received → System → Option System
  on_receive pick ctx got s =
      some (after_turn got.header.stream_id (on_received lib pick ctx svc got s.conn) s)

  unfoldable pub receiver_step : Place → Event → System → Option System
  receiver_step reading test s =
      if is_closing s.conn then none else some (record s { place = receiving })
  receiver_step reading (receive pick ctx got) s =
      if is_closing s.conn then none else on_receive pick ctx got s
  receiver_step receiving (receive pick ctx got) s = on_receive pick ctx got s
  receiver_step reading give_up s =
      if is_closing s.conn then some (record s { place = stopped none }) else none
  receiver_step (reporting r k) report s =
      if s.conn.finished then none else some (resume k (main_takes lib r s))
  receiver_step (reporting r k) give_up s =
      if is_closing s.conn then some (record s { place = stopped none }) else none
  receiver_step (delivering mh p) (deliver pick) s =
      some (after_turn mh.stream_id (deliver_data pick mh p s.conn) s)
  receiver_step (storing id has_handler) store s = some (record s {
    conn = record s.conn { streams = insert id has_handler s.conn.streams };
    place = counting;
  })
  receiver_step counting count s =
      some
        (record s { conn = record s.conn { active = add_active s.conn.active }; place = reading })
  receiver_step _ _ s = none

  unfoldable pub act : Event → System → Option System
  act shut s = some (record s { conn = record s.conn { shutdown = true } })
  act leave s = if may_leave s.conn then some (record s { conn = finish s.conn }) else none
  act recv_error s = recv_error_step s.place s
  act (job_send id p) s = job_sends lib id p s (lookup id s.conn.handlers)
  act (job_end id st p) s = job_ends lib id st p s (lookup id s.jobs)
  act (job_drop id) s = job_drops id s (lookup id s.jobs)
  act (job_recv id pick) s = job_receives id pick s (lookup id s.conn.handlers)
  act (ctx_done id e) s = ctx_ends id e s (lookup id s.conn.handlers)
  act e s = receiver_step s.place e s

  unfoldable pub step : Event → System → Option System
  step e s = if is_crashed s.place then none else act e s

  unfoldable pub run : List Event → System → Option System
  run [] s = some s
  run (e ∷ es) s = elim (step e s) [ some s' ↦ run es s' | none ↦ none ]

-- `run` at its start.
unfoldable pub start : Writer → System
start w = record { conn = new_conn w; place = reading; jobs = []; recv_err_open = true }
