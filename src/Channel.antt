-- ===== src/Channel.antt =====
-- channel.go: `channel.recv` and `channel.send` over a buffered reader and writer, and the pool of
-- payload buffers. bufio and io are modelled as the standard library documents them.
pub mod Send
pub mod Recv
pub mod Sequence
pub mod Broken
pub mod Cut
pub mod Buffers
use ttrpc.Prelude.{
  ℕ, ◌-◌, ◌%◌, List, [], ◌∷◌, ◌++◌, Option, none, some, if◌then◌else◌, leb, ltb, length, take, drop,
}
use ttrpc.Errors.{
  Error, eof, unexpected_eof, wrap, Result, ok, err, Slice, exceeded, message_length_max,
  oversized_message_error,
}
use ttrpc.Frame.{MessageHeader, zero_header, message_header_length, decode_header, encode_header}

-- The bytes that the peer has sent and will send, and the error that a read meets behind them.
pub record Reader : Type 0 where
  pub pending : List ℕ
  pub fault : Error

-- io.ReadFull turns an EOF behind the first byte into ErrUnexpectedEOF.
abbrev cut_short : List ℕ → Error → Error
cut_short [] e = e
cut_short (b ∷ bs) eof = unexpected_eof
cut_short (b ∷ bs) e = e

-- `io.ReadFull` into a buffer of `n` bytes
unfoldable pub read_full : ℕ → Reader → Result (List ℕ) × Reader
read_full n r =
    if leb n (length r.pending)
    then (ok (take n r.pending), record r { pending = drop n r.pending })
    else (err (cut_short r.pending r.fault), record r { pending = [] })

-- `bufio.Reader.Discard`
pub discard : ℕ → Reader → Option Error × Reader
discard n r =
    if leb n (length r.pending)
    then (none, record r { pending = drop n r.pending })
    else (some r.fault, record r { pending = [] })

-- `readMessageHeader`; its buffer has the ten bytes that `decode_header` takes.
unfoldable pub read_message_header : Reader → Result MessageHeader × Reader
read_message_header r =
    let (got, r') = read_full message_header_length r in
    elim got [
      | err e ↦ (err e, r')
      | ok p ↦ elim (decode_header p) [ none ↦ (err r.fault, r') | some mh ↦ (ok mh, r') ]
    ]

-- The three results of `recv`: it may return a valid header with an error.
pub record Received : Type 0 where
  pub header : MessageHeader
  pub payload : Slice
  pub error : Option Error

abbrev failed_reading : Error → Error
failed_reading = wrap "failed reading message: %w"

abbrev failed_discard : Error → Error
failed_discard = wrap "failed to discard after receiving oversized message: %w"

abbrev pub received : MessageHeader → Slice → Option Error → Received
received mh p e = record { header = mh; payload = p; error = e }

pub recv_oversized : MessageHeader → Reader → Received × Reader
recv_oversized mh r =
    let (failed, r') = discard mh.size r in
    elim failed [
      | some e ↦ (received mh none (some (failed_discard e)), r')
      | none ↦ (received mh none (some (exceeded mh.size)), r')
    ]

unfoldable pub recv_payload : MessageHeader → Reader → Received × Reader
recv_payload mh r =
    let (got, r') = read_full mh.size r in
    elim got [
      | err e ↦ (received zero_header none (some (failed_reading e)), r')
      | ok p ↦ (received mh (some p) none, r')
    ]

-- What follows the header: the tests of `recv` on its length.
unfoldable pub recv_body : MessageHeader → Reader → Received × Reader
recv_body mh r =
    if ltb message_length_max mh.size
    then recv_oversized mh r
    else if ltb 0 mh.size
    then recv_payload mh r
    else (received mh none none, r)

unfoldable pub recv : Reader → Received × Reader
recv r =
    let (got, r') = read_message_header r in
    elim got [ err e ↦ (received zero_header none (some e), r') | ok mh ↦ recv_body mh r' ]

-- The connection: what it has taken, and how many bytes it still takes before a write fails (`none`:
-- all).
pub record Conn : Type 0 where
  pub wire : List ℕ
  pub room : Option (ℕ × Error)

unfoldable pub take_bytes : List ℕ → List ℕ → Option (ℕ × Error) → Option Error × Conn
take_bytes p wire none = (none, record { wire = wire ++ p; room = none })
take_bytes p wire (some (k, e)) =
    if leb (length p) k
    then (none, record { wire = wire ++ p; room = some (k - length p, e) })
    else (some e, record { wire = wire ++ take k p; room = some (0, e) })

unfoldable pub conn_write : List ℕ → Conn → Option Error × Conn
conn_write p c = take_bytes p c.wire c.room

-- `bufio.Writer`: its error is sticky.
pub record Writer : Type 0 where
  pub conn : Conn
  pub buffer : List ℕ
  pub failed : Option Error

abbrev pub writer_size : ℕ
writer_size = 4096

-- One write to the connection, after which the buffer holds `rest` if it succeeds.
unfoldable pub deliver : List ℕ → List ℕ → Writer → Writer
deliver p rest w =
    let (failed, c) = conn_write p w.conn in
    elim failed [
      | none ↦ record { conn = c; buffer = rest; failed = none }
      | some e ↦ record { conn = c; buffer = w.buffer; failed = some e }
    ]

unfoldable pub flush : Writer → Writer
flush w = elim w.failed [
  | some e ↦ w
  | none ↦ elim w.buffer [ [] ↦ w | b ∷ bs ↦ deliver w.buffer [] w ]
]

-- The end of `bufio.Writer.Write`, when the buffer has been flushed: what is longer than the buffer
-- goes straight to the connection, the rest is kept.
pub write_rest : List ℕ → Writer → Writer
write_rest p w = elim w.failed [
  | some e ↦ w
  | none ↦ if leb (length p) writer_size then record w { buffer = p } else deliver p [] w
]

-- The loop of `bufio.Writer.Write` for what does not fit: the buffer, if it holds something, is
-- filled and flushed first.
pub spill : List ℕ → List ℕ → Writer → Writer
spill p [] w = deliver p [] w
spill p (b ∷ bs) w =
    let free = writer_size - length (b ∷ bs) in
    write_rest (drop free p) (deliver ((b ∷ bs) ++ take free p) [] w)

-- `bufio.Writer.Write`
unfoldable pub write : List ℕ → Writer → Writer
write p w = elim w.failed [
  | some e ↦ w
  | none ↦
      if leb (length p) (writer_size - length w.buffer)
      then record w { buffer = w.buffer ++ p }
      else spill p w.buffer w
]

-- `len` of a slice
abbrev pub slice_length : Slice → ℕ
slice_length none = 0
slice_length (some p) = length p

abbrev pub slice_bytes : Slice → List ℕ
slice_bytes none = []
slice_bytes (some p) = p

abbrev pub frame_header : ℕ → ℕ → ℕ → Slice → MessageHeader
frame_header stream_id t flags p = record {
  size = slice_length p % 4294967296;
  stream_id = stream_id;
  type = t;
  flags = flags;
}

unfoldable pub send_payload : Slice → Writer → Writer
send_payload p w = if ltb 0 (slice_length p) then write (slice_bytes p) w else w

-- Each write that fails leaves its error in the writer, and the later steps do nothing then.
unfoldable pub send : ℕ → ℕ → ℕ → Slice → Writer → Option Error × Writer
send stream_id t flags p w =
    if ltb message_length_max (slice_length p)
    then (oversized_message_error (slice_length p), w)
    else let w' =
        flush (send_payload p (write (encode_header (frame_header stream_id t flags p)) w)) in
      (w'.failed, w')

-- A payload buffer: its capacity and its length.
pub record Buffer : Type 0 where
  pub capacity : ℕ
  pub size : ℕ

-- `getmbuf`; `b` is what `sync.Pool.Get` returned, `none` if the pool had nothing.
pub getmbuf : Option Buffer → ℕ → Buffer
getmbuf none size = record { capacity = size; size = size }
getmbuf (some b) size =
    if ltb b.capacity size
    then record { capacity = size; size = size }
    else record b { size = size }

-- A slice as it arrives: `recv` returns nil for a payload of length 0.
abbrev pub as_received : Slice → Slice
as_received none = none
as_received (some []) = none
as_received (some (b ∷ bs)) = some (b ∷ bs)
