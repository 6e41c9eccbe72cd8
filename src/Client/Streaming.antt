-- ===== src/Client/Streaming.antt =====
-- client.go: `NewStream` and the methods of `clientStream`.
pub mod Protocol
use ttrpc.Prelude.{
  ℕ, bit_or, Bool, true, false, not, Option, none, some, if◌then◌else◌, ◌==◌, nat_eq, string_eq,
}
use ttrpc.Prelude.Assoc.{lookup}
use ttrpc.Errors.{
  Error, Result, ok, err, Slice, wrap, err_closed, err_protocol, err_stream_closed, eof,
}
use ttrpc.Frame.{
  message_type_response, message_type_data, flag_remote_closed, flag_remote_open, flag_no_data,
}
use ttrpc.Channel.{Writer, send}
use ttrpc.Request.{Libraries, Request, Response}
use ttrpc.Stream.{StreamMessage, Taken, message, fails, waits, take_message}
use ttrpc.Conn.{has_flag}
use ttrpc.Client.{
  Client, Created, create_stream, delete_stream, set_stream, filter_close_err, filter_close_err?,
}
use ttrpc.Client.Calls.{slice_prefix, status_error, unexpected_message}

-- `clientStream`, with the stream's pointer and identifier and the flags of its `StreamDesc`.
pub record ClientStream : Type 0 where
  pub pointer : ℕ
  pub id : ℕ
  pub streaming_client : Bool
  pub streaming_server : Bool
  pub local_closed : Bool
  pub remote_closed : Bool

-- The flags of the request that opens a stream
abbrev request_flags : Bool → ℕ
request_flags true = flag_remote_open
request_flags false = flag_remote_closed

-- A method's error (`none` is nil), the stream and the client after it.
pub record Outcome : Type 0 where
  pub error : Option Error
  pub stream : ClientStream
  pub client : Client

abbrev pub outcome : Option Error → ClientStream → Client → Outcome
outcome e cs c = record { error = e; stream = cs; client = c }

abbrev cannot_close : Error
cannot_close = wrap "%w: cannot close non-streaming client" err_protocol

abbrev cannot_send : Error
cannot_send = wrap "%w: cannot send data from non-streaming client" err_protocol

abbrev data_from_server : Error
data_from_server = wrap "received data from non-streaming server: %w" err_protocol

unfoldable pub close_sent : ClientStream → Client → Option Error × Writer → Outcome
close_sent cs c (some e, w) = outcome (some (filter_close_err e)) cs (record c { writer = w })
close_sent cs c (none, w) =
    outcome none (record cs { local_closed = true }) (record c { writer = w })

abbrev pub close_flags : ℕ
close_flags = bit_or flag_remote_closed flag_no_data

-- `CloseSend`
unfoldable pub close_send : ClientStream → Client → Outcome
close_send cs c =
    if not cs.streaming_client
    then outcome (some cannot_close) cs c
    else if cs.local_closed
    then outcome (some err_stream_closed) cs c
    else close_sent cs c (send cs.id message_type_data close_flags none c.writer)

unfoldable pub data_sent : ClientStream → Client → Option Error × Writer → Outcome
data_sent cs c (e, w) = outcome (filter_close_err? e) cs (record c { writer = w })

unfoldable pub send_encoded : ClientStream → Client → Result Slice → Outcome
send_encoded cs c (err e) = outcome (some e) cs c
send_encoded cs c (ok p) = data_sent cs c (send cs.id message_type_data 0 p c.writer)

-- `SendMsg`; `p` is the payload that marshalling gives (a nil message has the nil payload).
unfoldable pub send_msg : Result Slice → ClientStream → Client → Outcome
send_msg p cs c =
    if not cs.streaming_client
    then outcome (some cannot_send) cs c
    else if cs.local_closed
    then outcome (some err_stream_closed) cs c
    else send_encoded cs c p

-- The stream ends for the client: `deleteStream` and the flag.
abbrev remote_ends : Option Error → ClientStream → Client → Outcome
remote_ends e cs c = outcome e (record cs { remote_closed = true }) (delete_stream cs.pointer c)

unfoldable pub response_status : ClientStream → Client → Option Error → Outcome
response_status cs c (some e) = outcome (some e) cs c
response_status cs c none = remote_ends none cs c

-- `RecvMsg` on a response message; `unmarshal` is the message's, `none` for success.
unfoldable pub recv_response :
    (Slice → Option Error) → ClientStream → Client → Result Response → Outcome
recv_response unmarshal cs c (err e) = outcome (some e) cs c
recv_response unmarshal cs c (ok r) = elim (unmarshal r.payload) [
  | some e ↦ outcome (some e) cs c
  | none ↦ response_status cs c (status_error r.status)
]

-- `RecvMsg` on a data message
unfoldable pub recv_data : (Slice → Option Error) → StreamMessage → ClientStream → Client → Outcome
recv_data unmarshal m cs c =
    if not cs.streaming_server
    then remote_ends (some data_from_server) cs c
    else if has_flag m.header.flags flag_remote_closed
    then if has_flag m.header.flags flag_no_data
      then remote_ends (some eof) cs c
      else remote_ends (unmarshal (slice_prefix m.header.size m.payload)) cs c
    else outcome (unmarshal (slice_prefix m.header.size m.payload)) cs c

unfoldable pub recv_taken :
    Libraries → (Slice → Option Error) → ClientStream → Client → StreamMessage → Outcome
recv_taken lib unmarshal cs c m =
    if m.header.type == message_type_response
    then recv_response unmarshal cs c
        (lib.unmarshal_response (slice_prefix m.header.size m.payload))
    else if m.header.type == message_type_data
    then recv_data unmarshal m cs c
    else outcome (some (unexpected_message m.header.type)) cs c

unfoldable pub recv_select :
    Libraries → (Slice → Option Error) → ClientStream → Client → Taken → Option Outcome
recv_select lib unmarshal cs c (message m s) =
    some (recv_taken lib unmarshal cs (set_stream cs.pointer s c) m)
recv_select lib unmarshal cs c (fails e) = some (outcome e cs c)
recv_select lib unmarshal cs c waits = none

-- `RecvMsg`; `none`: no case of its `select` is ready.
unfoldable pub recv_msg :
    Libraries
    → (Slice → Option Error)
    → Bool
    → Option Error
    → ClientStream
    → Client
    → Option Outcome
recv_msg lib unmarshal pick ctx cs c =
    if cs.remote_closed then some (outcome (some eof) cs c) else elim (lookup cs.pointer c.store) [
      | none ↦ none
      | some s ↦ recv_select lib unmarshal cs c (take_message pick ctx s)
    ]

-- The result of `NewStream`
pub data Opening : Type 0 where
  refused : Error → Client → Opening
  opened : ClientStream → Client → Opening

unfoldable pub opening : Bool → Bool → ℕ → Created → Opening
opening streams_client streams_server id d = elim d.error [
  | some e ↦ refused e d.client
  | none ↦ elim d.pointer [
    | none ↦ refused err_closed d.client
    | some ptr ↦
        opened
          (record {
            pointer = ptr;
            id = id;
            streaming_client = streams_client;
            streaming_server = streams_server;
            local_closed = false;
            remote_closed = false;
          })
          d.client
  ]
]

-- `NewStream`, with the request as `req`
unfoldable pub new_stream_call : Libraries → Bool → Bool → Request → Client → Opening
new_stream_call lib streams_client streams_server req c = elim (lib.marshal_request req) [
  | err e ↦ refused e c
  | ok p ↦
      opening streams_client streams_server c.next_stream_id
        (create_stream (request_flags streams_client) (some p) c)
]
