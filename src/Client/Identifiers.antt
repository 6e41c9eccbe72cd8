-- ===== src/Client/Identifiers.antt =====
-- The identifiers that a client puts on the wire, against the server's rule for them; and the end of
-- the client.
use ttrpc.Prelude.Assoc.{lookup}
use ttrpc.Frame.{message_type_request}
use ttrpc.Channel.Sequence.{Packet, send_all}
use ttrpc.Stream.{Stream}
use ttrpc.Prelude.{
  Option, none, some, if◌then◌else◌, ◌==◌, ℕ, ◌+◌, ◌%◌, ◌<◌, ◌≡◌, false, List, [], ◌∷◌, arith,
  nat_eq, string_eq, length,
}
use ttrpc.Errors.{Slice}
use ttrpc.Client.{get_stream, Created, Client, create_stream, add_stream, send_request}

-- The client after the calls of `createStream` with these flags and requests, and the identifiers that
-- were given out.
pub create_all : List (ℕ × Slice) → Client → Client
create_all [] c = c
create_all ((flags, b) ∷ rest) c = create_all rest (create_stream flags b c).client

-- The identifier of the stream that `createStream` made, under which the map leads to it.
made_at : ℕ → Client → Option Stream → Option ℕ
made_at ptr c none = none
made_at ptr c (some st) = elim (get_stream st.id c) [
  | none ↦ none
  | some q ↦ if q == ptr then some st.id else none
]

pub made : Created → Option ℕ
made d = elim d.pointer [
  | none ↦ none
  | some ptr ↦ made_at ptr d.client (lookup ptr d.client.store)
]

abbrev pub with_id : Option ℕ → List ℕ → List ℕ
with_id none ids = ids
with_id (some id) ids = id ∷ ids

-- The identifiers of the streams that were made and registered, in order
pub identifiers : List (ℕ × Slice) → Client → List ℕ
identifiers [] c = []
identifiers ((flags, b) ∷ rest) c =
    let d = create_stream flags b c in with_id (made d) (identifiers rest d.client)

-- The request messages with these identifiers
pub requests : List ℕ → List (ℕ × Slice) → List Packet
requests (id ∷ ids) ((flags, b) ∷ rest) =
    record { stream_id = id; type = message_type_request; flags = flags; payload = b }
    ∷ requests ids rest
requests _ _ = []

-- What the server asks of the identifiers of requests, in the order in which they arrive: each is odd
-- and above the last one.
abbrev pub Admissible : ℕ → List ℕ → Type 0
Admissible last [] = Unit {0}
Admissible last (id ∷ ids) = (last < id) × (id % 2 ≡ 1) × Admissible id ids

create_stream-next :
    (flags : ℕ) (b : Slice) (c : Client)
    → c.cancelled ≡ false
    → ((create_stream flags b c).client.next_stream_id ≡ (c.next_stream_id + 2) % 4294967296)
      × ((create_stream flags b c).client.cancelled ≡ false)
unfolding create_stream send_request add_stream
create_stream-next flags b c live = ground arith

-- What a client has made of these requests: the identifiers of the streams are admissible, and the
-- writer was given the requests under them.
abbrev GivesOut : ℕ → List (ℕ × Slice) → Client → Type 0
GivesOut last rs c =
    Admissible last (identifiers rs c)
    × (length (identifiers rs c) ≡ length rs)
    × ((create_all rs c).writer ≡ send_all (requests (identifiers rs c) rs) c.writer)

-- The bound is exact: the identifiers are of 32 bits, and behind the largest odd one comes 1 again, which
-- the server refuses as used.
identifier_wraps :
    (flags : ℕ) (b : Slice) (c : Client)
    → c.cancelled ≡ false
    → c.next_stream_id ≡ 4294967295
    → (create_stream flags b c).client.next_stream_id ≡ 1
identifier_wraps flags b c live e = omega (arith, create_stream-next flags b c live)
