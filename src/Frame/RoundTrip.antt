-- ===== src/Frame/RoundTrip.antt =====
-- The header's two directions against each other.
use ttrpc.Prelude.{ℕ, ◌/◌, ◌%◌, ◌<◌, ◌≡◌, refl, List, [], ◌∷◌, some, All, arith, length}
use ttrpc.Frame.{
  MessageHeader, IsHeader, IsByte, IsUint32, put_uint32, uint32, encode_header, decode_header,
}

uint32-put_uint32 :
    (v : ℕ)
    → v < 4294967296
    → uint32 (v / 16777216 % 256) (v / 65536 % 256) (v / 256 % 256) (v % 256) ≡ v
unfolding uint32
uint32-put_uint32 v h = omega arith

-- A header whose fields are in range is read back from the bytes that are written for it.
pub decode_header-encode_header :
    (mh : MessageHeader) → IsHeader mh → decode_header (encode_header mh) ≡ some mh
unfolding decode_header encode_header
decode_header-encode_header mh h =
    rw (uint32-put_uint32 mh.size h.size_range, uint32-put_uint32 mh.stream_id h.stream_id_range)
      (ground arith)

put_uint32-uint32 :
    (a b c d : ℕ) (rest : List ℕ)
    → IsByte a
    → IsByte b
    → IsByte c
    → IsByte d
    → put_uint32 (uint32 a b c d) rest ≡ a ∷ b ∷ c ∷ d ∷ rest
unfolding put_uint32 uint32
put_uint32-uint32 a b c d rest ha hb hc hd = ground arith

uint32_range : (a b c d : ℕ) → IsByte a → IsByte b → IsByte c → IsByte d → IsUint32 (uint32 a b c d)
unfolding uint32
uint32_range a b c d ha hb hc hd = omega arith

-- Of any ten bytes the header that is read has fields in range, and is laid out as those bytes again.
encode_header-decode_header :
    (p : List ℕ) {mh : MessageHeader}
    → All IsByte p
    → decode_header p ≡ some mh
    → (encode_header mh ≡ p) × IsHeader mh
unfolding encode_header decode_header
encode_header-decode_header (a ∷ b ∷ c ∷ d ∷ e ∷ f ∷ g ∷ h ∷ t ∷ l ∷ []) bytes q = ground (
  arith,
  put_uint32-uint32 a b c d (put_uint32 (uint32 e f g h) (t ∷ l ∷ [])),
  put_uint32-uint32 e f g h (t ∷ l ∷ []),
  uint32_range a b c d,
  uint32_range e f g h,
)
encode_header-decode_header _ bytes q = cc

pub length-encode_header : (mh : MessageHeader) → length (encode_header mh) ≡ 10
unfolding encode_header put_uint32
length-encode_header mh = refl
