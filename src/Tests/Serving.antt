-- ===== src/Tests/Serving.antt =====
-- Examples for the server's connections.
use ttrpc.Prelude.{
  List, ◌+◌, ◌≤◌, ℕ, ◌%◌, ◌<◌, ◌≡◌, refl, ◌≢◌, inl, true, false, Option, none, some, [], ◌∷◌, ◌++◌,
  arith, if◌then◌else◌, ◌==◌, nat_eq, string_eq,
}
use ttrpc.Prelude.Assoc.{lookup, insert}
use ttrpc.Errors.{Status}
use ttrpc.Frame.{message_type_response}
use ttrpc.Channel.{Received, received}
use ttrpc.Channel.Send.{frame, sent}
use ttrpc.Services.{handle, handle_method, unary}
use ttrpc.Conn.{active, idle, new_conn}
use ttrpc.Conn.Sender.Replies.{Encodes}
use ttrpc.Conn.Receiver.{reading, panicked, on_received, unary_job, must_be_odd}
use ttrpc.Conn.Receiver.Turns.{IsOdd, unary_request}
use ttrpc.Conn.System.{
  Event, shut, leave, job_drop, System, receive, report, store, count, job_end, run, start,
}
use ttrpc.Conn.System.Order.{new_call_is_fresh}
use ttrpc.Conn.System.Calls.{
  IsReading, unknown_data_panics, refused-Answered, refused_uncounts, Answered,
}
use ttrpc.Conn.System.Unary.{
  unary_data_panics, shutdown_drops_call, starts, stored_call, early_end_leaks,
}
use ttrpc.Conn.Calls.{Calls, moves, no_calls}
use ttrpc.Conn.System.Refinement.{is_some, Implements, trace}
use ttrpc.Conn.System.Answers.{begun, run-start-Implements, answered_once, results}
use ttrpc.Tests.{open_writer, open_writer-IsOpen, lib, services, hello}

-- A connection that waits for its next message, and one on which a unary call runs on stream 1.
abbrev waiting_system : System
waiting_system = record {
  conn = record {
    writer = open_writer;
    published = idle;
    shutdown = false;
    finished = false;
    streams = [];
    handlers = [];
    active = 0;
    last_stream_id = 0;
  };
  place = reading;
  jobs = [];
  recv_err_open = true;
}

abbrev busy_system : System
busy_system = record {
  conn = record {
    writer = open_writer;
    published = active;
    shutdown = false;
    finished = false;
    streams = (1, false) ∷ [];
    handlers = [];
    active = 1;
    last_stream_id = 1;
  };
  place = reading;
  jobs = (1, unary_job) ∷ [];
  recv_err_open = true;
}

abbrev on_stream : ℕ → ℕ → ℕ → Received
on_stream t id flags =
    received (record { size = 2; stream_id = id; type = t; flags = flags }) (some (1 ∷ 2 ∷ [])) none

waiting-IsReading : IsReading waiting_system
waiting-IsReading = record { at_recv = refl; not_closing = refl }

busy-IsReading : IsReading busy_system
busy-IsReading = record { at_recv = refl; not_closing = refl }

hello-unary : handle false none hello services ≡ unary 1
unfolding handle handle_method lookup
hello-unary = refl

odd : (t id flags : ℕ) → id % 2 ≡ 1 → IsOdd t (on_stream t id flags)
odd t id flags h = record { whole = refl; odd = h; typed = refl }

encodes : (st : Option Status) → Encodes lib st none (8 ∷ 9 ∷ [])
encodes st = record { encoded = refl; within = omega arith }

stored_call_example :
    (t : System) × (run lib services
        (receive false none (on_stream 1 3 0) ∷ store ∷ job_end 3 none (some (4 ∷ [])) ∷ count ∷ [])
        busy_system
      ≡ some t)
    × (sent t.conn.writer ≡ sent open_writer ++ frame 3 message_type_response 0 (some (8 ∷ 9 ∷ [])))
    × (lookup 3 t.jobs ≡ none)
    × ((id : ℕ)
        → lookup id t.conn.streams ≡ (if 3 == id then none else lookup id ((1, false) ∷ [])))
    × (t.conn.active ≡ 1)
    × (t.place ≡ reading)
stored_call_example =
    stored_call lib services busy_system busy-IsReading refl false none (on_stream 1 3 0) hello 1
      (odd 1 3 0 refl) (omega arith) refl hello-unary true none (some (4 ∷ [])) (8 ∷ 9 ∷ [])
      open_writer-IsOpen (omega arith) (record { encoded = refl; within = omega arith })

early_end_leaks_example :
    (t : System) × (run lib services
        (receive false none (on_stream 1 3 0) ∷ job_end 3 none none ∷ store ∷ count ∷ [])
        busy_system
      ≡ some t)
    × (lookup 3 t.jobs ≡ none)
    × (lookup 3 t.conn.streams ≡ some false)
early_end_leaks_example =
    early_end_leaks lib services busy_system busy-IsReading refl false none (on_stream 1 3 0) hello
      1 (odd 1 3 0 refl) (omega arith) refl hello-unary none none

shutdown_drops_call_example :
    (t : System) × (run lib services
        (receive false none (on_stream 1 1 0) ∷ store ∷ count ∷ shut ∷ leave ∷ job_drop 1 ∷ [])
        waiting_system
      ≡ some t)
    × (t.conn.finished ≡ true)
    × (lookup 1 t.jobs ≡ none)
    × (t.conn.writer ≡ open_writer)
shutdown_drops_call_example =
    shutdown_drops_call lib services waiting_system waiting-IsReading refl false none
      (on_stream 1 1 0) hello 1 (odd 1 1 0 refl) (omega arith) refl hello-unary refl

unknown_data_panics_example :
    (t : System) × (run lib services
        (receive false none (on_stream 3 3 0) ∷ report ∷ [])
        busy_system
      ≡ some t)
    × (t.place ≡ panicked)
unfolding lookup
unknown_data_panics_example =
    unknown_data_panics lib services busy_system busy-IsReading false none (on_stream 3 3 0)
      (odd 3 3 0 refl) refl

unary_data_panics_example :
    (t : System) × (run lib services
        (receive false none (on_stream 1 3 0)
          ∷ store
          ∷ count
          ∷ receive false none (on_stream 3 3 0)
          ∷ [])
        busy_system
      ≡ some t)
    × (t.place ≡ panicked)
    × (lookup 3 t.jobs ≡ some unary_job)
unary_data_panics_example =
    unary_data_panics lib services busy_system busy-IsReading refl false none (on_stream 1 3 0)
      hello 1 (odd 1 3 0 refl) (omega arith) refl hello-unary refl (on_stream 3 3 0)
      (odd 3 3 0 refl) refl refl

refused-Answered_example :
    (t : System) × (run lib services
        (receive false none (on_stream 1 4 0) ∷ report ∷ [])
        busy_system
      ≡ some t)
    × Answered 4 must_be_odd (8 ∷ 9 ∷ []) busy_system t
refused-Answered_example =
    refused-Answered lib services busy_system busy-IsReading open_writer-IsOpen false none
      (on_stream 1 4 0) must_be_odd (8 ∷ 9 ∷ []) (inl (refl, refl, refl))
      (encodes (some must_be_odd))

refused_uncounts_example :
    (t : System) × (run lib services
        (receive false none (on_stream 1 4 0) ∷ report ∷ [])
        busy_system
      ≡ some t)
    × (t.conn.published ≡ idle)
    × (lookup 1 t.jobs ≡ some unary_job)
unfolding lookup
refused_uncounts_example =
    refused_uncounts lib services busy_system busy-IsReading open_writer-IsOpen false none
      (on_stream 1 4 0) must_be_odd (8 ∷ 9 ∷ []) 1 unary_job (inl (refl, refl, refl))
      (encodes (some must_be_odd)) refl refl

-- A run that has started one call, on stream 1; the next call is on stream 3.
abbrev calling_system : System
calling_system = record waiting_system {
  conn = record waiting_system.conn { last_stream_id = 1; streams = insert 1 false []; active = 1 };
  jobs = insert 1 unary_job [];
}

first_call :
    run lib services (receive false none (on_stream 1 1 0) ∷ store ∷ count ∷ []) (start open_writer)
    ≡ some calling_system
unfolding start new_conn
first_call =
    starts lib services waiting_system waiting-IsReading refl false none (on_stream 1 1 0) hello 1
      (odd 1 1 0 refl) (omega arith) refl hello-unary

second_call :
    (on_received lib false none services (on_stream 1 3 0) calling_system.conn).spawned ≢ none
second_call e = ground (
  arith,
  unary_request lib services false none (on_stream 1 3 0) calling_system.conn hello 1
      (odd 1 3 0 refl) (omega arith) refl hello-unary,
)

new_call_is_fresh_example :
    (1 < 3)
    × (3 % 2 ≡ 1)
    × (lookup 3 calling_system.jobs ≡ none)
    × (lookup 3 calling_system.conn.streams ≡ none)
    × (lookup 3 calling_system.conn.handlers ≡ none)
new_call_is_fresh_example =
    new_call_is_fresh lib services open_writer
      (receive false none (on_stream 1 1 0) ∷ store ∷ count ∷ []) calling_system first_call false
      none (on_stream 1 3 0) second_call

run-start-Implements_example :
    (b : Calls) × (moves
        (trace lib services
          (receive false none (on_stream 1 1 0) ∷ store ∷ count ∷ [])
          (start open_writer))
        no_calls
      ≡ some b)
    × Implements b calling_system
run-start-Implements_example =
    run-start-Implements lib services open_writer
      (receive false none (on_stream 1 1 0) ∷ store ∷ count ∷ []) calling_system first_call

-- A call on a new connection, with its result
abbrev whole_call : List Event
whole_call =
    receive false none (on_stream 1 1 0) ∷ store ∷ count ∷ job_end 1 none (some (4 ∷ [])) ∷ []

one_call : (t : System) × (run lib services whole_call (start open_writer) ≡ some t)
unfolding start new_conn
one_call =
    let x =
      stored_call lib services waiting_system waiting-IsReading refl false none (on_stream 1 1 0)
        hello 1 (odd 1 1 0 refl) (omega arith) refl hello-unary false none (some (4 ∷ []))
        (8 ∷ 9 ∷ []) open_writer-IsOpen (omega arith)
        (record { encoded = refl; within = omega arith }) in
    (x.0, x.1)

answered_once_example :
    (begun lib services 1 whole_call (start open_writer) ≤ 1)
    × (begun lib services 1 whole_call (start open_writer)
        ≡ results 1 whole_call + (if is_some (lookup 1 one_call.0.jobs) then 1 else 0))
answered_once_example = answered_once lib services open_writer whole_call one_call.0 1 one_call.1
