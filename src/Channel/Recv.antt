-- ===== src/Channel/Recv.antt =====
-- `recv`: it reads back what `send` wrote, and how much it takes of any input.
use ttrpc.Prelude.{
  ℕ, ◌+◌, ◌≤◌, ◌<◌, ◌≡◌, ◌≢◌, inl, inr, none, some, List, [], ◌∷◌, ◌++◌, append_assoc, arith,
  nat_eq, string_eq, length, length-append, take-length_append, drop-length_append, length-take,
  length-drop,
}
use ttrpc.Errors.{Result-cases, Error}
use ttrpc.Frame.{IsByte, IsUint32, IsHeader, MessageHeader}
use ttrpc.Frame.RoundTrip.{length-encode_header, decode_header-encode_header}
use ttrpc.Channel.{
  message_header_length, frame_header, exceeded, as_received, received, Received, slice_bytes,
  Reader, message_length_max, ok, encode_header, slice_length, length, Slice, List, recv, recv_body,
  recv_payload, recv_oversized, discard, read_full, read_message_header,
}
use ttrpc.Channel.Send.{frame}

read_full_append :
    (p rest : List ℕ) (fault : Error)
    → read_full (length p) (record { pending = p ++ rest; fault = fault })
      ≡ (ok p, record { pending = rest; fault = fault })
unfolding read_full
read_full_append p rest fault =
    ground (arith, length-append p rest, take-length_append p rest, drop-length_append p rest)

-- Reading the ten bytes of a header.
read_message_header_frame :
    (mh : MessageHeader) (rest : List ℕ) (fault : Error)
    → IsHeader mh
    → read_message_header (record { pending = encode_header mh ++ rest; fault = fault })
      ≡ (ok mh, record { pending = rest; fault = fault })
unfolding read_message_header
read_message_header_frame mh rest fault h = ground (
  arith,
  length-encode_header mh,
  read_full_append (encode_header mh) rest fault,
  decode_header-encode_header mh h,
)

recv_body_frame :
    (mh : MessageHeader) (p : Slice) (rest : List ℕ) (fault : Error)
    → mh.size ≡ slice_length p
    → slice_length p ≤ message_length_max
    → recv_body mh (record { pending = slice_bytes p ++ rest; fault = fault })
      ≡ (received mh (as_received p) none, record { pending = rest; fault = fault })
unfolding recv_body recv_payload
recv_body_frame mh none rest fault e l = ground arith
recv_body_frame mh (some []) rest fault e l = ground arith
recv_body_frame mh (some (b ∷ bs)) rest fault e l =
    ground (arith, read_full_append (b ∷ bs) rest fault)

-- What `send` put on the wire for a message of at most the maximum length, `recv` reads back, on the
-- same stream, with its type, flags and payload, and it leaves what follows.
pub recv-frame :
    (stream_id t flags : ℕ) (p : Slice) (rest : List ℕ) (fault : Error)
    → IsUint32 stream_id
    → IsByte t
    → IsByte flags
    → slice_length p ≤ message_length_max
    → recv (record { pending = frame stream_id t flags p ++ rest; fault = fault }) ≡ (
      received
          (record { size = slice_length p; stream_id = stream_id; type = t; flags = flags })
          (as_received p)
          none,
      record { pending = rest; fault = fault },
    )
unfolding recv
recv-frame stream_id t flags p rest fault hs ht hf l =
    let mh = frame_header stream_id t flags p in
    ground (
      arith,
      append_assoc (encode_header mh) (slice_bytes p) rest,
      read_message_header_frame mh (slice_bytes p ++ rest) fault,
      recv_body_frame mh p rest fault,
    )

read_full_takes :
    (n : ℕ) (r : Reader) {p : List ℕ}
    → (read_full n r).0 ≡ ok p
    → (length p ≡ n) × (length r.pending ≡ n + length (read_full n r).1.pending)
unfolding read_full
read_full_takes n r e = ground (arith, length-take n r.pending, length-drop n r.pending)

read_message_header_takes :
    (r : Reader) {mh : MessageHeader}
    → (read_message_header r).0 ≡ ok mh
    → length r.pending ≡ 10 + length (read_message_header r).1.pending
unfolding read_message_header
read_message_header_takes r e = elim (Result-cases (read_full message_header_length r).0) [
  | inl (p, q) ↦ ground (arith, read_full_takes message_header_length r q)
  | inr (x, q) ↦ ground arith
]

-- What a message without an error is: its payload has the stated length, which is within the maximum.
pub record IsMessage (got : Received) : Type 0 where
  pub within : got.header.size ≤ message_length_max
  pub exact : slice_length got.payload ≡ got.header.size

recv_payload_takes :
    (mh : MessageHeader) (r : Reader)
    → mh.size ≤ message_length_max
    → (recv_payload mh r).0.error ≡ none
    → IsMessage (recv_payload mh r).0
      × ((recv_payload mh r).0.header ≡ mh)
      × (length r.pending ≡ mh.size + length (recv_payload mh r).1.pending)
unfolding recv_payload
recv_payload_takes mh r l e = elim (Result-cases (read_full mh.size r).0) [
  | inl (p, q) ↦ ground (arith, read_full_takes mh.size r q)
  | inr (x, q) ↦ ground arith
]

recv_oversized-fails : (mh : MessageHeader) (r : Reader) → (recv_oversized mh r).0.error ≢ none
unfolding recv_oversized
recv_oversized-fails mh r e = ground arith

recv_body_takes :
    (mh : MessageHeader) (r : Reader)
    → (recv_body mh r).0.error ≡ none
    → IsMessage (recv_body mh r).0
      × ((recv_body mh r).0.header ≡ mh)
      × (length r.pending ≡ mh.size + length (recv_body mh r).1.pending)
unfolding recv_body
recv_body_takes mh r e = ground (arith, recv_payload_takes mh r, recv_oversized-fails mh r)

-- Whatever the input: a message that `recv` returns without an error has a payload of the length that
-- its header states, at most the maximum, and `recv` took the ten bytes of the header and that payload
-- and no more.
pub recv_takes :
    (r : Reader)
    → (recv r).0.error ≡ none
    → IsMessage (recv r).0
      × (length r.pending ≡ 10 + (recv r).0.header.size + length (recv r).1.pending)
unfolding recv
recv_takes r e = elim (Result-cases (read_message_header r).0) [
  | inl (mh, q) ↦
      ground (arith, read_message_header_takes r q, recv_body_takes mh (read_message_header r).1)
  | inr (x, q) ↦ ground arith
]

-- A header that states more than the maximum: `recv` returns it with the status ResourceExhausted and
-- skips the payload, so that the next call starts at the frame behind it.
pub recv_oversized_lem :
    (mh : MessageHeader) (p rest : List ℕ) (fault : Error)
    → IsHeader mh
    → message_length_max < mh.size
    → length p ≡ mh.size
    → recv (record { pending = encode_header mh ++ (p ++ rest); fault = fault })
      ≡ (received mh none (some (exceeded mh.size)), record { pending = rest; fault = fault })
unfolding recv recv_body recv_oversized discard
recv_oversized_lem mh p rest fault h big len = ground (
  arith,
  read_message_header_frame mh (p ++ rest) fault h,
  length-append p rest,
  drop-length_append p rest,
)
