-- ===== src/Client/Streaming/Protocol.antt =====
-- The client's side of the protocol on one stream.
use ttrpc.Prelude.{
  ◌≡◌, refl, true, false, Option, none, some, ◌++◌, append-nil, arith, if◌then◌else◌, nat_eq,
  string_eq,
}
use ttrpc.Prelude.Assoc.{lookup-insert_self, lookup}
use ttrpc.Errors.{Error, Result, ok, Slice, err_stream_closed, eof}
use ttrpc.Frame.{message_type_response, message_type_data, flag_remote_closed, flag_no_data}
use ttrpc.Channel.{send}
use ttrpc.Channel.Send.{IsOpen, sent, frame, send-IsOpen}
use ttrpc.Request.{Libraries, Response}
use ttrpc.Stream.{Taken, Stream, StreamMessage, message, take_message}
use ttrpc.Client.{Client, set_stream, delete_stream}
use ttrpc.Conn.{has_flag}
use ttrpc.Client.Calls.{slice_prefix, status_error}
use ttrpc.Client.Streaming.{
  data_sent, send_encoded, ClientStream, Outcome, outcome, close_send, close_sent, close_flags,
  send_msg, recv_msg, recv_select, recv_taken, recv_response, response_status, recv_data,
}

-- The outcome of a `close_send` that works.
pub close_send-shape :
    (cs : ClientStream) (c : Client)
    → cs.streaming_client ≡ true
    → cs.local_closed ≡ false
    → (send cs.id message_type_data close_flags none c.writer).0 ≡ none
    → close_send cs c
      ≡ outcome none
          (record cs { local_closed = true })
          (record c { writer = (send cs.id message_type_data close_flags none c.writer).1 })
unfolding close_send close_sent
close_send-shape cs c k l e = ground arith

-- A `send_msg` that works.
pub send_msg-shape :
    (cs : ClientStream) (c : Client) (p : Slice)
    → cs.streaming_client ≡ true
    → cs.local_closed ≡ false
    → (send cs.id message_type_data 0 p c.writer).0 ≡ none
    → send_msg (ok p) cs c
      ≡ outcome none cs (record c { writer = (send cs.id message_type_data 0 p c.writer).1 })
unfolding send_msg send_encoded data_sent
send_msg-shape cs c p k l e = ground arith

-- A stream that the client has closed.
closed_sends :
    (cs : ClientStream) (c : Client) (p : Result Slice)
    → cs.streaming_client ≡ true
    → cs.local_closed ≡ true
    → (send_msg p cs c ≡ outcome (some err_stream_closed) cs c)
      × (close_send cs c ≡ outcome (some err_stream_closed) cs c)
unfolding close_send send_msg
closed_sends cs c p k l = ground arith

-- After a `CloseSend` of a streaming client on a working writer the server has been told on the wire, by
-- one data message with the flags `remote closed` and `no data` and no payload, and the client can
-- neither send nor close again: both return ErrStreamClosed and leave the stream and the client as they
-- are.
pub close_send_final :
    (cs : ClientStream) (c : Client) (p : Result Slice)
    → cs.streaming_client ≡ true
    → cs.local_closed ≡ false
    → IsOpen c.writer
    → let x = close_send cs c in
      (x.error ≡ none)
      × (sent x.client.writer ≡ sent c.writer ++ frame cs.id message_type_data 5 none)
      × (send_msg p x.stream x.client ≡ outcome (some err_stream_closed) x.stream x.client)
      × (close_send x.stream x.client ≡ outcome (some err_stream_closed) x.stream x.client)
close_send_final cs c p k l o =
    let w = (send cs.id message_type_data close_flags none c.writer).1 in
    let (fine, o', empty, wire) =
      send-IsOpen cs.id message_type_data close_flags none c.writer o (omega arith) in
    let cs' = record cs { local_closed = true } in
    let (no_send, no_close) = closed_sends cs' (record c { writer = w }) p k refl in
    rw (close_send-shape cs c k l fine)
      (refl, rw (empty, append-nil w.conn.wire) wire, no_send, no_close)

-- `RecvMsg` where a message is ready and no context is done
take_here :
    (s : Stream) (m : StreamMessage)
    → s.recv ≡ some m
    → take_message false none s ≡ message m (record s { recv = none })
unfolding take_message
take_here s m e = ground arith

ended_recv :
    (lib : Libraries) (unmarshal : Slice → Option Error) (cs : ClientStream) (c : Client)
    → cs.remote_closed ≡ true
    → recv_msg lib unmarshal false none cs c ≡ some (outcome (some eof) cs c)
unfolding recv_msg
ended_recv lib unmarshal cs c e = ground arith

-- On an open stream that holds no message, `RecvMsg` waits while no context is done.
take_none :
    (s : Stream) → s.closed ≡ false → s.recv ≡ none → take_message false none s ≡ Taken.waits
unfolding take_message
take_none s k e = ground arith

empty_recv :
    (lib : Libraries) (unmarshal : Slice → Option Error) (cs : ClientStream) (c : Client)
    (s : Stream)
    → cs.remote_closed ≡ false
    → s.closed ≡ false
    → s.recv ≡ none
    → lookup cs.pointer c.store ≡ some s
    → recv_msg lib unmarshal false none cs c ≡ none
unfolding recv_msg recv_select
empty_recv lib unmarshal cs c s o k e h = ground (arith, take_none s k e)

module _ (lib : Libraries) (unmarshal : Slice → Option Error) (cs : ClientStream) (c : Client)
    (s : Stream) (m : StreamMessage) (open_side : cs.remote_closed ≡ false)
    (here : lookup cs.pointer c.store ≡ some s) (ready : s.recv ≡ some m) where
  -- The client when the message is out of the channel.
  abbrev pub emptied : Client
  emptied = set_stream cs.pointer (record s { recv = none }) c

  recv_here : recv_msg lib unmarshal false none cs c ≡ some (recv_taken lib unmarshal cs emptied m)
  unfolding recv_msg recv_select
  recv_here = ground (arith, take_here s m ready)

  -- A data message of a streaming server that is not the last
  pub data_here :
      m.header.type ≡ message_type_data
      → cs.streaming_server ≡ true
      → has_flag m.header.flags flag_remote_closed ≡ false
      → recv_msg lib unmarshal false none cs c
        ≡ some (outcome (unmarshal (slice_prefix m.header.size m.payload)) cs emptied)
  unfolding recv_taken recv_data
  data_here t k f = ground (arith, recv_here)

  -- With no context done and the stream not ended, the last data message of a streaming server, ready
  -- in its stream, ends the stream for the client, whether or not it has data: with the flag `no
  -- data` `RecvMsg` returns EOF, else what unmarshalling its payload gives; the stream is deleted,
  -- and the next `RecvMsg` returns EOF.
  pub last_data :
      m.header.type ≡ message_type_data
      → cs.streaming_server ≡ true
      → has_flag m.header.flags flag_remote_closed ≡ true
      → (x : Outcome) × (recv_msg lib unmarshal false none cs c ≡ some x)
        × (x.error ≡ (
            if has_flag m.header.flags flag_no_data
            then some eof
            else unmarshal (slice_prefix m.header.size m.payload)))
        × (x.client ≡ delete_stream cs.pointer emptied)
        × (recv_msg lib unmarshal false none x.stream x.client
            ≡ some (outcome (some eof) x.stream x.client))
  unfolding recv_taken recv_data
  last_data t k f = (
    recv_taken lib unmarshal cs emptied m,
    recv_here,
    ground arith,
    ground arith,
    ended_recv lib unmarshal _ _ (ground arith),
  )

  -- With no context done and an open, registered stream that the server has not ended, a response that
  -- carries an error status, whose payload can be unmarshalled, is returned as that error, but it does
  -- not end the stream for the client, though it is the server's last word: the stream stays in the
  -- map, and the next `RecvMsg` does not return but waits.
  pub error_response_leaks :
      (r : Response) (e : Error)
      → m.header.type ≡ message_type_response
      → lib.unmarshal_response (slice_prefix m.header.size m.payload) ≡ ok r
      → unmarshal r.payload ≡ none
      → status_error r.status ≡ some e
      → s.closed ≡ false
      → lookup s.id c.streams ≡ some cs.pointer
      → (x : Outcome) × (recv_msg lib unmarshal false none cs c ≡ some x)
        × (x.error ≡ some e)
        × (lookup s.id x.client.streams ≡ some cs.pointer)
        × (recv_msg lib unmarshal false none x.stream x.client ≡ none)
  unfolding recv_taken recv_response response_status
  error_response_leaks r e t u d q k listed = (
    outcome (some e) cs emptied,
    ground (arith, recv_here),
    refl,
    listed,
    empty_recv lib unmarshal cs emptied (record s { recv = none }) open_side k refl
        (lookup-insert_self cs.pointer (record s { recv = none }) c.store),
  )
