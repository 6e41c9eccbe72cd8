-- ===== src/Client/Calls/Creation.antt =====
-- What `createStream` does to the client and to the wire.
use ttrpc.Prelude.{
  ℕ, ◌+◌, ◌%◌, ◌≤◌, ◌<◌, ◌≡◌, refl, false, none, some, ◌++◌, append-nil, arith, if◌then◌else◌, ◌==◌,
  nat_eq, string_eq,
}
use ttrpc.Prelude.Assoc.{lookup, lookup-insert, lookup-insert_self}
use ttrpc.Errors.{Slice, message_length_max, oversized, exceeded}
use ttrpc.Frame.{message_type_request}
use ttrpc.Channel.{send, slice_length}
use ttrpc.Channel.Send.{IsOpen, sent, frame, send-IsOpen, send_refused}
use ttrpc.Stream.{new_stream}
use ttrpc.Client.{Client, Created, add_stream, send_request, create_stream, filter_close_err}

-- A new stream on a client whose context is not done and whose writer works: it takes the next
-- identifier, is open, registered and the only change in the map, and its request is on the wire.
pub record Opened (flags : ℕ) (b : Slice) (c : Client) (d : Created) : Type 0 where
  pub no_error : d.error ≡ none
  pub at : d.pointer ≡ some c.next_pointer
  pub stored : lookup c.next_pointer d.client.store ≡ some (new_stream c.next_stream_id)
  pub registered :
      (id : ℕ)
      → lookup id d.client.streams
        ≡ (if c.next_stream_id == id then some c.next_pointer else lookup id c.streams)
  pub advanced : d.client.next_stream_id ≡ (c.next_stream_id + 2) % 4294967296
  pub writable : IsOpen d.client.writer
  pub wire :
      sent d.client.writer ≡ sent c.writer ++ frame c.next_stream_id message_type_request flags b
  pub live : d.client.cancelled ≡ c.cancelled

-- On a client whose context is not done and whose writer works, `createStream` of a request within
-- the maximum length gives no error, takes the next identifier, makes an open stream, registers it as
-- the only change in the map, and puts its request on the wire.
pub create_stream-Opened :
    (flags : ℕ) (b : Slice) (c : Client)
    → c.cancelled ≡ false
    → IsOpen c.writer
    → slice_length b ≤ message_length_max
    → Opened flags b c (create_stream flags b c)
unfolding create_stream send_request add_stream
create_stream-Opened flags b c live o l =
    let (fine, o', empty, wire) =
      send-IsOpen c.next_stream_id message_type_request flags b c.writer o l in
    record {
      no_error = ground arith;
      at = ground arith;
      stored =
          ground (arith, lookup-insert_self c.next_pointer (new_stream c.next_stream_id) c.store);
      registered = λ id. ground (arith, lookup-insert c.next_stream_id id c.next_pointer c.streams);
      advanced = ground arith;
      writable = ground arith;
      wire = ground (
        arith,
        append-nil (send c.next_stream_id message_type_request flags b c.writer).1.conn.wire,
      );
      live = ground arith;
    }

still_oversized : (n : ℕ) → filter_close_err (oversized n (exceeded n)) ≡ oversized n (exceeded n)
unfolding filter_close_err
still_oversized n = refl

-- On a client whose context is not done, a request longer than the maximum is refused only after its
-- stream was registered: nothing is sent and the caller gets the error, but the open stream is in the
-- client's map.
pub oversized_request_leaks :
    (flags : ℕ) (b : Slice) (c : Client)
    → c.cancelled ≡ false
    → message_length_max < slice_length b
    → let d = create_stream flags b c in
      (d.error ≡ some (oversized (slice_length b) (exceeded (slice_length b))))
      × (d.client.writer ≡ c.writer)
      × (lookup c.next_stream_id d.client.streams ≡ some c.next_pointer)
      × (lookup c.next_pointer d.client.store ≡ some (new_stream c.next_stream_id))
unfolding create_stream send_request add_stream
oversized_request_leaks flags b c live l =
    let refused = send_refused c.next_stream_id message_type_request flags b c.writer l in
    (
      ground (arith, refused, still_oversized (slice_length b)),
      ground (arith, refused),
      ground (arith, lookup-insert_self c.next_stream_id c.next_pointer c.streams),
      ground (arith, lookup-insert_self c.next_pointer (new_stream c.next_stream_id) c.store),
    )
