-- ===== src/Frame.antt =====
-- channel.go, the ten-byte message header: its fields, message types and flags, and how it is read
-- from and laid out as bytes (big endian, as encoding/binary does).
pub mod RoundTrip
use ttrpc.Prelude.{
  ℕ, ◌+◌, ◌*◌, ◌/◌, ◌%◌, ◌<◌, String, List, [], ◌∷◌, Option, none, some, if◌then◌else◌, ◌==◌,
  nat_eq,
}

abbrev pub message_header_length : ℕ
message_header_length = 10

abbrev pub message_type_request : ℕ
message_type_request = 1

abbrev pub message_type_response : ℕ
message_type_response = 2

abbrev pub message_type_data : ℕ
message_type_data = 3

-- `messageType.String`
pub message_type_string : ℕ → String
message_type_string mt =
    if mt == message_type_request
    then "request"
    else if mt == message_type_response
    then "response"
    else if mt == message_type_data
    then "data"
    else "unknown"

abbrev pub flag_remote_closed : ℕ
flag_remote_closed = 1

abbrev pub flag_remote_open : ℕ
flag_remote_open = 2

abbrev pub flag_no_data : ℕ
flag_no_data = 4

pub record MessageHeader : Type 0 where
  pub size : ℕ
  pub stream_id : ℕ
  pub type : ℕ
  pub flags : ℕ

-- Go's zero value, `messageHeader{}`.
abbrev pub zero_header : MessageHeader
zero_header = record { size = 0; stream_id = 0; type = 0; flags = 0 }

abbrev pub IsByte : ℕ → Type 0
IsByte b = b < 256

abbrev pub IsUint32 : ℕ → Type 0
IsUint32 n = n < 4294967296

-- The fields lie in the ranges of their Go types.
pub record IsHeader (mh : MessageHeader) : Type 0 where
  pub size_range : IsUint32 mh.size
  pub stream_id_range : IsUint32 mh.stream_id
  pub type_range : IsByte mh.type
  pub flags_range : IsByte mh.flags

-- `binary.BigEndian.PutUint32`, before the bytes `rest`.
pub put_uint32 : ℕ → List ℕ → List ℕ
put_uint32 v rest = (v / 16777216 % 256) ∷ (v / 65536 % 256) ∷ (v / 256 % 256) ∷ (v % 256) ∷ rest

-- `binary.BigEndian.Uint32` of four bytes.
pub uint32 : ℕ → ℕ → ℕ → ℕ → ℕ
uint32 a b c d = a * 16777216 + b * 65536 + c * 256 + d

-- What `writeMessageHeader` puts into its buffer of ten bytes.
unfoldable pub encode_header : MessageHeader → List ℕ
unfolding put_uint32
encode_header mh =
    put_uint32 mh.size (put_uint32 mh.stream_id ((mh.type % 256) ∷ (mh.flags % 256) ∷ []))

-- What `readMessageHeader` takes from its buffer of ten bytes; `none` for a buffer of another length,
-- where Go would panic.
unfoldable pub decode_header : List ℕ → Option MessageHeader
unfolding uint32
decode_header (a ∷ b ∷ c ∷ d ∷ e ∷ f ∷ g ∷ h ∷ t ∷ l ∷ []) =
    some (record { size = uint32 a b c d; stream_id = uint32 e f g h; type = t; flags = l })
decode_header _ = none
