-- ===== src/Exchange.antt =====
-- A client and a server at the two ends of one connection: what one end puts on the wire the other
-- reads.
pub mod Unary
pub mod Streaming
pub mod Download
pub mod Concurrent
use ttrpc.Prelude.{
  ℕ, ◌≤◌, ◌≡◌, refl, ap, none, some, List, [], ◌∷◌, ◌++◌, append-nil, length, take, drop,
  drop-length_append,
}
use ttrpc.Errors.{Result, Slice, message_length_max, eof}
use ttrpc.Frame.{IsByte, IsUint32}
use ttrpc.Channel.{Writer, Received, received, recv, slice_length, as_received}
use ttrpc.Channel.Send.{sent, frame}
use ttrpc.Channel.Recv.{recv-frame}
use ttrpc.Client.Calls.{slice_prefix}
use ttrpc.Request.{Libraries, Request, Response}

-- What a writer has taken since it was another one
abbrev pub since : Writer → Writer → List ℕ
since w w' = drop (length (sent w)) (sent w')

-- What the other end's next call of `recv` returns when exactly these bytes arrive.
abbrev pub arrives : List ℕ → Received
arrives p = (recv (record { pending = p; fault = eof })).0

abbrev pub received_frame : ℕ → ℕ → ℕ → Slice → Received
received_frame id t flags p =
    received (record { size = slice_length p; stream_id = id; type = t; flags = flags })
      (as_received p) none

-- One frame that one end has added, the other reads.
pub arrives-frame :
    (w w' : Writer) (id t flags : ℕ) (p : Slice)
    → sent w' ≡ sent w ++ frame id t flags p
    → IsUint32 id
    → IsByte t
    → IsByte flags
    → slice_length p ≤ message_length_max
    → arrives (since w w') ≡ received_frame id t flags p
arrives-frame w w' id t flags p e hi ht hf l =
    rw (e, drop-length_append (sent w) (frame id t flags p))
      (ap (λ r. r.0)
        (rw (append-nil (frame id t flags p)) at (recv-frame id t flags p [] eof hi ht hf l)))

-- What protobuf documents of a request and of a response that were encoded: they are read back, also
-- where the encoding has no bytes, for which a nil slice arrives. In proto3 a nil and an empty payload
-- are encoded alike, and both are read as nil.
abbrev pub request_read : Request → Request
request_read r = record r { payload = as_received r.payload }

abbrev pub response_read : Response → Response
response_read r = record r { payload = as_received r.payload }

pub record ReadsBack (lib : Libraries) : Type 0 where
  pub request :
      (r : Request) (p : List ℕ)
      → lib.marshal_request r ≡ Result.ok p
      → lib.unmarshal_request (as_received (some p)) ≡ Result.ok (request_read r)
  pub response :
      (r : Response) (p : List ℕ)
      → lib.marshal_response r ≡ Result.ok p
      → lib.unmarshal_response (as_received (some p)) ≡ Result.ok (response_read r)

take_all : {A : Type 0} (xs : List A) → take (length xs) xs ≡ xs
take_all [] = refl
take_all (x ∷ xs) = ap (◌∷◌ x) (take_all xs)

-- `p[:mh.Length]` of a payload as it arrives
pub whole_prefix :
    (p : List ℕ) → slice_prefix (length p) (as_received (some p)) ≡ as_received (some p)
whole_prefix [] = refl
whole_prefix (b ∷ bs) = ap (λ x. some (b ∷ x)) (take_all bs)
