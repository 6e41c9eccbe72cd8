-- ===== src/Tests/Together.antt =====
-- An example of two calls at once: the server answers the second one first.
use ttrpc.Prelude.{
  length, ℕ, ◌≡◌, refl, ◌⊎◌, true, false, Option, none, some, List, [], ◌∷◌, ◌++◌, arith, nat_eq,
  string_eq, All, Any,
}
use ttrpc.Prelude.Sets.{contains}
use ttrpc.Prelude.Assoc.{delete, insert, lookup}
use ttrpc.Errors.{Code, plain, Error, Result, ok, err, eof}
use ttrpc.Frame.{IsUint32, encode_header}
use ttrpc.Channel.{Received, send, send_payload, write, flush, deliver, conn_write, take_bytes}
use ttrpc.Channel.{recv, recv_body, recv_payload, read_full, read_message_header}
use ttrpc.Frame.{decode_header}
use ttrpc.Exchange.Concurrent.{received_in}
use ttrpc.Client.System.Runs.{made_by}
use ttrpc.Channel.Sequence.{recv_all}
use ttrpc.Request.{Response}
use ttrpc.Client.{
  Client, new_client, create_stream, send_request, add_stream, to_inactive, to_stream, get_stream,
  hand_over, delete_stream, close_pointer,
}
use ttrpc.Client.Cleanup.{ClosedAt}
use ttrpc.Client.Calls.{
  dispatch_taken, read_response, dispatch_encoded, dispatched, Dispatched, waiting, failed,
  dispatch_start, dispatch_end, early_case,
}
use ttrpc.Client.System.{System, Event, call, test, receive, run, start, step, run_step}
use ttrpc.Conn.{Reply, new_conn}
use ttrpc.Conn.System.{store, count, job_end, receiver_step, act, on_receive, job_ends}
use ttrpc.Conn.Receiver.{
  on_received, on_message, on_odd_message, on_request, on_unmarshalled, on_handled,
}
use ttrpc.Conn.Sender.{take_reply, transmit, outgoing, after_send}
use ttrpc.Services.{handle, handle_method}
use ttrpc.Stream.{new_stream, take_message}
use ttrpc.Conn.System.Wire.{reply_of, job_reply}
use ttrpc.Conn.System.Wire.Runs.{replies}
use ttrpc.Exchange.Concurrent.Answers.{Answers, served_call_answered}
use ttrpc.Tests.{open_writer, open_writer-IsOpen, services}
use ttrpc.Tests.Composed.{greeting, small_lib, small_lib-ReadsBack}

-- What `recv` returns of a message on an identifier
abbrev message_on : ℕ → ℕ → List ℕ → Received
message_on id t p = record {
  header = record { size = length p; stream_id = id; type = t; flags = 0 };
  payload = some p;
  error = none;
}

abbrev serving : List ttrpc.Conn.System.Event
serving =
    ttrpc.Conn.System.receive false none (message_on 1 1 (1 ∷ []))
    ∷ store
    ∷ count
    ∷ ttrpc.Conn.System.receive false none (message_on 3 1 (1 ∷ []))
    ∷ store
    ∷ count
    ∷ job_end 3 (some (record { code = Code.not_found; message = plain "failed" })) none
    ∷ job_end 1 none (some (4 ∷ []))
    ∷ []

abbrev server : ttrpc.Conn.System.System
server = ttrpc.Conn.System.start open_writer

abbrev server_of : Option ttrpc.Conn.System.System → ttrpc.Conn.System.System
server_of none = server
server_of (some t) = t

abbrev served : ttrpc.Conn.System.System
served = server_of (ttrpc.Conn.System.run small_lib services serving server)

server_ran : ttrpc.Conn.System.run small_lib services serving server ≡ some served
unfolding receiver_step ttrpc.Conn.System.run ttrpc.Conn.System.step ttrpc.Conn.System.start act
    on_receive new_conn on_received on_message on_odd_message on_request on_unmarshalled on_handled
    handle lookup handle_method job_ends insert delete take_reply transmit outgoing after_send send
    flush send_payload write encode_header deliver conn_write take_bytes
server_ran = refl

-- The first call is sent, then a second one, and the answers come in the other order.
abbrev calling : List Event
calling =
    call greeting
    ∷ test
    ∷ receive false (message_on 3 2 (6 ∷ []))
    ∷ test
    ∷ receive false (message_on 1 2 (0 ∷ 4 ∷ []))
    ∷ test
    ∷ []

abbrev client_of : Dispatched → Client
client_of (waiting ptr c) = c
client_of (failed e c) = c

abbrev sent_client : Client
sent_client = client_of (dispatch_start small_lib greeting (new_client open_writer))

abbrev system_of : Option System → System
system_of none = start open_writer
system_of (some s) = s

abbrev done : System
done = system_of (run small_lib (call greeting ∷ calling) (start open_writer))

abbrev returned_of : Option (Result Response × Client) → Client
returned_of none = new_client open_writer
returned_of (some (r, d)) = d

abbrev afterwards : Client
afterwards = returned_of (dispatch_end small_lib false false none 0 done.client)

abbrev four : Result Response
four = ok (record { status = none; payload = some (4 ∷ []) })

server_ids : All (λ (r : Reply). IsUint32 r.id) (replies small_lib services serving server)
unfolding replies reply_of job_reply ttrpc.Conn.System.run ttrpc.Conn.System.step
    ttrpc.Conn.System.start receiver_step act on_receive new_conn on_received on_message
    on_odd_message on_request on_unmarshalled on_handled handle lookup handle_method job_ends insert
    delete take_reply transmit outgoing after_send send flush send_payload write encode_header
    deliver conn_write take_bytes
server_ids = (omega arith, (omega arith, tt))

sent : dispatch_start small_lib greeting (start open_writer).client ≡ waiting 0 sent_client
unfolding dispatch_start dispatch_encoded dispatched start new_client create_stream send_request
    add_stream send send_payload write flush deliver conn_write encode_header take_bytes insert
    new_stream
sent = refl

ran : run small_lib (call greeting ∷ calling) (start open_writer) ≡ some done
unfolding dispatch_start dispatch_encoded dispatched start new_client create_stream send_request
    add_stream send send_payload write flush deliver conn_write encode_header take_bytes insert
    new_stream run step run_step to_inactive to_stream get_stream hand_over ttrpc.Stream.receive
    lookup contains
ran = refl

waits : contains 0 done.waiting ≡ true
unfolding dispatch_start dispatch_encoded dispatched start new_client create_stream send_request
    add_stream send send_payload write flush deliver conn_write encode_header take_bytes insert
    new_stream run step run_step to_inactive to_stream get_stream hand_over ttrpc.Stream.receive
    lookup contains
waits = refl

read_back :
    received_in [] ++ received_in calling
    ≡ recv_all 2 (record { pending = served.conn.writer.conn.wire; fault = eof })
unfolding ttrpc.Conn.System.run ttrpc.Conn.System.step ttrpc.Conn.System.start receiver_step act
    on_receive new_conn on_received on_message on_odd_message on_request on_unmarshalled on_handled
    handle lookup handle_method job_ends insert delete take_reply transmit outgoing after_send send
    flush send_payload write encode_header deliver conn_write take_bytes recv_all recv recv_body
    recv_payload read_full read_message_header decode_header received_in
read_back = refl

taken : dispatch_end small_lib false false none 0 done.client ≡ some (four, afterwards)
unfolding dispatch_start dispatch_encoded dispatched start new_client create_stream send_request
    add_stream send send_payload write flush deliver conn_write encode_header take_bytes insert
    new_stream run step run_step to_inactive to_stream get_stream hand_over ttrpc.Stream.receive
    lookup contains dispatch_end dispatch_taken take_message early_case read_response delete_stream
    close_pointer ttrpc.Stream.close_with_error
taken = refl

served_call_answered_example :
    Any
      (Answers (start open_writer).client.next_stream_id four)
      (replies small_lib services serving server)
    ⊎ ((e : Error) × (four ≡ err e)
        × ((early_case false none done.client.cancelled ≡ some e) ⊎ ClosedAt 0 done.client))
unfolding start new_client made_by run
served_call_answered_example =
    served_call_answered small_lib services small_lib-ReadsBack open_writer serving served
      open_writer-IsOpen refl refl server_ran server_ids open_writer [] calling (start open_writer)
      done greeting 0 sent_client (omega arith) refl sent ran waits 2 eof read_back false false none
      four afterwards taken
