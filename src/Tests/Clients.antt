-- ===== src/Tests/Clients.antt =====
-- Examples for the client's interleaving.
use ttrpc.Prelude.{
  ℕ, ◌≡◌, refl, Bool, true, false, Option, none, some, List, [], ◌∷◌, arith, nat_eq, string_eq,
}
use ttrpc.Prelude.Sets.{contains}
use ttrpc.Errors.{Error, Result, ok, err_closed, eof}
use ttrpc.Channel.{Received}
use ttrpc.Request.{Response, Request}
use ttrpc.Stream.{new_stream, take_message, close_with_error}
use ttrpc.Prelude.Assoc.{delete, insert, lookup}
use ttrpc.Frame.{encode_header}
use ttrpc.Channel.{send, send_payload, write, flush, deliver, conn_write, take_bytes}
use ttrpc.Client.{
  delete_stream, close_pointer, Client, new_client, create_stream, send_request, add_stream,
  to_inactive, to_stream, get_stream, hand_over,
}
use ttrpc.Client.Calls.{
  dispatch_taken, early_case, read_response, dispatch_encoded, dispatched, Dispatched, waiting,
  failed, dispatch_start, dispatch_end,
}
use ttrpc.Client.System.{
  over, System, Event, call, call_end, test, receive, step, run, start, run_step,
}
use ttrpc.Client.System.Ended.{rest_of_run, ended_calls_return}
use ttrpc.Client.System.Runs.{made_by, run-start-Inv}
use ttrpc.Client.System.Invariant.{Inv}
use ttrpc.Client.System.Track.{first_message}
use ttrpc.Client.System.Answer.{call_answered, AnswerOf}
use ttrpc.Tests.{open_writer, lib, hello}

abbrev system_of : Option System → System
system_of none = start open_writer
system_of (some s) = s

abbrev client_of : Dispatched → Client
client_of (waiting ptr c) = c
client_of (failed e c) = c

-- A response on an identifier
abbrev response_on : ℕ → ℕ → Received
response_on id x = record {
  header = record { size = 1; stream_id = id; type = 2; flags = 0 };
  payload = some (x ∷ []);
  error = none;
}

-- While one call waits, a message comes for another stream, then two for its own.
abbrev arrivals : List Event
arrivals =
    test
    ∷ receive false (response_on 3 7)
    ∷ test
    ∷ receive false (response_on 1 8)
    ∷ test
    ∷ receive false (response_on 1 9)
    ∷ []

abbrev sent_client : Client
sent_client = client_of (dispatch_start lib hello (new_client open_writer))

abbrev answered : System
answered = system_of (run lib (call hello ∷ arrivals) (start open_writer))

sent : dispatch_start lib hello (start open_writer).client ≡ waiting 0 sent_client
unfolding dispatch_start dispatch_encoded dispatched start new_client create_stream send_request
    add_stream send send_payload write flush deliver conn_write encode_header take_bytes insert
    new_stream
sent = refl

ran : run lib (call hello ∷ arrivals) (start open_writer) ≡ some answered
unfolding dispatch_start dispatch_encoded dispatched start new_client create_stream send_request
    add_stream send send_payload write flush deliver conn_write encode_header take_bytes insert
    new_stream run step run_step to_inactive to_stream get_stream hand_over ttrpc.Stream.receive
    lookup contains
ran = refl

-- The client behind the end of that call
abbrev returned_of : Option (Result Response × Client) → Client
returned_of none = new_client open_writer
returned_of (some (r, d)) = d

abbrev afterwards : Client
afterwards = returned_of (dispatch_end lib false false none 0 answered.client)

first_taken :
    dispatch_end lib false false none 0 answered.client
    ≡ some (ok (record { status = none; payload = some (8 ∷ []) }), afterwards)
unfolding dispatch_start dispatch_encoded dispatched start new_client create_stream send_request
    add_stream send send_payload write flush deliver conn_write encode_header take_bytes insert
    new_stream run step run_step to_inactive to_stream get_stream hand_over ttrpc.Stream.receive
    lookup contains dispatch_end dispatch_taken take_message early_case read_response delete_stream
    close_pointer close_with_error delete
first_taken = refl

call_answered_example :
    AnswerOf lib
      (early_case false none answered.client.cancelled)
      (first_message (start open_writer).client.next_stream_id arrivals)
      0
      answered.client
      (ok (record { status = none; payload = some (8 ∷ []) }))
unfolding dispatch_start dispatch_encoded dispatched start new_client create_stream send_request
    add_stream send send_payload write flush deliver conn_write encode_header take_bytes insert
    new_stream run step run_step to_inactive to_stream get_stream hand_over ttrpc.Stream.receive
    lookup contains made_by first_message
call_answered_example =
    call_answered lib open_writer [] arrivals (start open_writer) answered hello 0 sent_client
      (omega arith) refl sent ran refl false false none
      (ok (record { status = none; payload = some (8 ∷ []) })) afterwards first_taken

-- A call waits when the connection ends.
abbrev the_end : List Event
the_end = call hello ∷ test ∷ receive false (record (response_on 0 0) { error = some eof }) ∷ []

abbrev ended : System
ended = system_of (run lib the_end (start open_writer))

ran_out : run lib the_end (start open_writer) ≡ some ended
unfolding dispatch_start dispatch_encoded dispatched start new_client create_stream send_request
    add_stream send send_payload write flush deliver conn_write encode_header take_bytes insert
    new_stream run step run_step to_inactive to_stream get_stream hand_over ttrpc.Stream.receive
    lookup contains
ran_out = refl

ended_calls_return_example :
    (u : System) × (run lib (rest_of_run ended.place) ended ≡ some u)
    × (u.place ≡ over)
    × (u.waiting ≡ ended.waiting)
    × ((ptr : ℕ) (pick first : Bool) (ctx : Option Error)
        → contains ptr u.waiting ≡ true
        → (x : System) × (step lib (call_end ptr pick first ctx) u ≡ some x)
          × (contains ptr x.waiting ≡ false))
    × ((req : Request) (p : List ℕ)
        → lib.marshal_request req ≡ ok p
        → dispatch_start lib req u.client ≡ failed err_closed u.client)
unfolding dispatch_start dispatch_encoded dispatched start new_client create_stream send_request
    add_stream send send_payload write flush deliver conn_write encode_header take_bytes insert
    new_stream run step run_step to_inactive to_stream get_stream hand_over ttrpc.Stream.receive
    lookup contains made_by
ended_calls_return_example =
    ended_calls_return lib open_writer the_end ended (omega arith) ran_out refl

run-start-Inv_example : Inv answered
unfolding made_by
run-start-Inv_example =
    run-start-Inv lib open_writer (call hello ∷ arrivals) answered (omega arith) ran
