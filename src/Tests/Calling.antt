-- ===== src/Tests/Calling.antt =====
-- Examples for the client.
use ttrpc.Prelude.{
  List, ℕ, ◌<◌, ◌≡◌, refl, true, false, Option, none, some, [], ◌∷◌, ◌++◌, arith, nat_eq, string_eq,
  length,
}
use ttrpc.Prelude.Assoc.{lookup}
use ttrpc.Request.{Libraries}
use ttrpc.Errors.{
  Code, plain, Error, ok, Status, Slice, message_length_max, oversized, exceeded, err_stream_closed,
}
use ttrpc.Frame.{message_type_data}
use ttrpc.Channel.Send.{frame, sent}
use ttrpc.Stream.{Stream, StreamMessage, new_stream}
use ttrpc.Client.{Client, create_stream}
use ttrpc.Client.Calls.{status_error}
use ttrpc.Client.Calls.Creation.{oversized_request_leaks}
use ttrpc.Client.Streaming.{Outcome, ClientStream, outcome, send_msg, close_send, recv_msg}
use ttrpc.Client.Streaming.Protocol.{close_send_final, error_response_leaks}
use ttrpc.Tests.{open_writer, open_writer-IsOpen, lib, zeros, length-zeros}

abbrev fresh_client : Client
fresh_client = record {
  writer = open_writer;
  store = [];
  next_pointer = 0;
  streams = [];
  next_stream_id = 1;
  cancelled = false;
  conn_closed = false;
  user_closed = 0;
}

abbrev a_message : ℕ → ℕ → StreamMessage
a_message t flags = record {
  header = record { size = 2; stream_id = 1; type = t; flags = flags };
  payload = some (1 ∷ 2 ∷ []);
}

-- A stream with a message in its channel, and a client that has it.
abbrev filled : ℕ → ℕ → Stream
filled t flags = record { id = 1; recv = some (a_message t flags); recv_err = none; closed = false }

abbrev client_with : ℕ → ℕ → Client
client_with t flags = record {
  writer = open_writer;
  store = (0, filled t flags) ∷ [];
  next_pointer = 1;
  streams = (1, 0) ∷ [];
  next_stream_id = 3;
  cancelled = false;
  conn_closed = false;
  user_closed = 0;
}

stored : (t flags : ℕ) → lookup 0 (client_with t flags).store ≡ some (filled t flags)
unfolding lookup
stored t flags = refl

abbrev three : List (ℕ × Slice)
three = (0, some (1 ∷ [])) ∷ (1, none) ∷ (2, some (1 ∷ 2 ∷ [])) ∷ []

registered : lookup 1 (client_with 2 0).streams ≡ some 0
unfolding lookup
registered = refl

abbrev too_long : Slice
too_long = some (zeros 4194305)

too_long-length : message_length_max < length (zeros 4194305)
too_long-length = omega (arith, length-zeros 4194305)

oversized_request_leaks_example :
    ((create_stream 0 too_long fresh_client).error
      ≡ some (oversized (length (zeros 4194305)) (exceeded (length (zeros 4194305)))))
    × ((create_stream 0 too_long fresh_client).client.writer ≡ open_writer)
    × (lookup 1 (create_stream 0 too_long fresh_client).client.streams ≡ some 0)
    × (lookup 0 (create_stream 0 too_long fresh_client).client.store ≡ some (new_stream 1))
oversized_request_leaks_example =
    oversized_request_leaks 0 too_long fresh_client refl too_long-length

abbrev two_way : ClientStream
two_way = record {
  pointer = 0;
  id = 1;
  streaming_client = true;
  streaming_server = true;
  local_closed = false;
  remote_closed = false;
}

close_send_final_example :
    let x = close_send two_way (client_with 2 0) in
    (x.error ≡ none)
    × (sent x.client.writer ≡ [] ++ frame 1 message_type_data 5 none)
    × (send_msg (ok (some (1 ∷ []))) x.stream x.client
        ≡ outcome (some err_stream_closed) x.stream x.client)
    × (close_send x.stream x.client ≡ outcome (some err_stream_closed) x.stream x.client)
close_send_final_example =
    close_send_final two_way (client_with 2 0) (ok (some (1 ∷ []))) refl refl open_writer-IsOpen

-- Every payload can be unmarshalled.
abbrev accepts : Slice → Option Error
accepts p = none

-- Libraries by which every response carries an error status.
abbrev refusal : Status
refusal = record { code = Code.not_found; message = plain "no such thing" }

abbrev refusing : Libraries
refusing = record lib {
  unmarshal_response = λ p. ok (record { status = some refusal; payload = none });
}

error_response_leaks_example :
    (x : Outcome) × (recv_msg refusing accepts false none two_way (client_with 2 0) ≡ some x)
    × (x.error ≡ some (Error.status Code.not_found (plain "no such thing")))
    × (lookup 1 x.client.streams ≡ some 0)
    × (recv_msg refusing accepts false none x.stream x.client ≡ none)
unfolding status_error
error_response_leaks_example =
    error_response_leaks refusing accepts two_way (client_with 2 0) (filled 2 0) (a_message 2 0)
      refl (stored 2 0) refl (record { status = some refusal; payload = none })
      (Error.status Code.not_found (plain "no such thing")) refl refl refl refl refl registered
