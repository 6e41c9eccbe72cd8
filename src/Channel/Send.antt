-- ===== src/Channel/Send.antt =====
-- What `send` leaves on an unbroken connection.
use ttrpc.Prelude.{
  ℕ, ◌≤◌, ◌<◌, ◌≡◌, refl, List, [], ◌∷◌, ◌++◌, none, some, length, arith, length-append,
  take-append-drop, ◌-◌, take, drop, append_assoc, append-nil,
}
use ttrpc.Errors.{Slice, message_length_max, oversized, exceeded, oversized_message_error}
use ttrpc.Frame.{encode_header}
use ttrpc.Channel.{
  spill, Writer, frame_header, slice_bytes, slice_length, send, write, flush, send_payload,
  write_rest, deliver, conn_write, take_bytes, writer_size,
}

-- The bytes of one frame.
abbrev pub frame : ℕ → ℕ → ℕ → Slice → List ℕ
frame stream_id t flags p = encode_header (frame_header stream_id t flags p) ++ slice_bytes p

-- All that the writer was given and has not lost.
abbrev pub sent : Writer → List ℕ
sent w = w.conn.wire ++ w.buffer

-- A writer whose connection takes everything.
pub record IsOpen (w : Writer) : Type 0 where
  pub no_failure : w.failed ≡ none
  pub no_limit : w.conn.room ≡ none
  pub within : length w.buffer ≤ writer_size

-- The writer after a write that reached the connection.
abbrev delivered : List ℕ → List ℕ → Writer
delivered wire rest = record {
  conn = record { wire = wire; room = none };
  buffer = rest;
  failed = none;
}

deliver_open :
    (p rest : List ℕ) (w : Writer)
    → w.conn.room ≡ none
    → deliver p rest w ≡ delivered (w.conn.wire ++ p) rest
unfolding deliver conn_write take_bytes
deliver_open p rest w h = ground arith

flush-IsOpen :
    (w : Writer)
    → IsOpen w
    → IsOpen (flush w) × ((flush w).conn.wire ≡ sent w) × ((flush w).buffer ≡ [])
unfolding flush
flush-IsOpen w h = ground (arith, deliver_open w.buffer [] w, append-nil w.conn.wire)

-- What a write does to an open writer.
abbrev Takes : List ℕ → Writer → Writer → Type 0
Takes p w w' = IsOpen w' × (sent w' ≡ sent w ++ p)

write_rest_open : (p wire : List ℕ) → Takes p (delivered wire []) (write_rest p (delivered wire []))
unfolding write_rest
write_rest_open p wire =
    ground (arith, deliver_open p [] (delivered wire []), append-nil wire, append-nil (wire ++ p))

spill_open :
    (p buffer : List ℕ) (w : Writer) → IsOpen w → w.buffer ≡ buffer → Takes p w (spill p buffer w)
unfolding spill
spill_open p [] w h e =
    ground (arith, deliver_open p [] w, append-nil w.conn.wire, append-nil (w.conn.wire ++ p))
spill_open p (b ∷ bs) w h e =
    let free = writer_size - length (b ∷ bs) in
    let first = (b ∷ bs) ++ take free p in
    ground (
      arith,
      deliver_open first [] w,
      write_rest_open (drop free p) (w.conn.wire ++ first),
      take-append-drop free p,
      append-nil (w.conn.wire ++ first),
      append_assoc w.conn.wire (b ∷ bs) (take free p),
      append_assoc (w.conn.wire ++ (b ∷ bs)) (take free p) (drop free p),
    )

write_open : (p : List ℕ) (w : Writer) → IsOpen w → Takes p w (write p w)
unfolding write
write_open p w h = ground (
  arith,
  spill_open p w.buffer w h refl,
  length-append w.buffer p,
  append_assoc w.conn.wire w.buffer p,
)

send_payload-IsOpen :
    (p : Slice) (w : Writer)
    → IsOpen w
    → IsOpen (send_payload p w) × (sent (send_payload p w) ≡ sent w ++ slice_bytes p)
unfolding send_payload
send_payload-IsOpen none w h = ground (arith, append-nil (sent w))
send_payload-IsOpen (some []) w h = ground (arith, append-nil (sent w))
send_payload-IsOpen (some (b ∷ bs)) w h = ground (arith, write_open (b ∷ bs) w h)

-- On an unbroken connection a message of at most the maximum length is sent without an error, and the
-- connection gets what was buffered and then the frame, whole; nothing stays behind in the buffer.
pub send-IsOpen :
    (stream_id t flags : ℕ) (p : Slice) (w : Writer)
    → IsOpen w
    → slice_length p ≤ message_length_max
    → let (failed, w') = send stream_id t flags p w in
      (failed ≡ none)
      × IsOpen w'
      × (w'.buffer ≡ [])
      × (w'.conn.wire ≡ sent w ++ frame stream_id t flags p)
unfolding send
send-IsOpen stream_id t flags p w h l =
    let header = encode_header (frame_header stream_id t flags p) in
    let w1 = write header w in
    ground (
      arith,
      write_open header w h,
      send_payload-IsOpen p w1,
      flush-IsOpen (send_payload p w1),
      append_assoc (sent w) header (slice_bytes p),
    )

-- A payload longer than the maximum is refused before anything is written.
pub send_refused :
    (stream_id t flags : ℕ) (p : Slice) (w : Writer)
    → message_length_max < slice_length p
    → send stream_id t flags p w
      ≡ (some (oversized (slice_length p) (exceeded (slice_length p))), w)
unfolding send oversized_message_error
send_refused stream_id t flags p w l = ground arith
