-- ===== src/Client/System/Growth.antt =====
-- What `createStream` does to the client's streams, whatever becomes of the request.
use ttrpc.Prelude.{
  ℕ, ◌+◌, ◌%◌, ◌≡◌, refl, subst, ◌⊎◌, inl, inr, Bool, false, Option, none, some, List, arith,
  if◌then◌else◌, ◌==◌, nat_eq, string_eq, Bool-cases, Option-cases,
}
use ttrpc.Prelude.Assoc.{lookup, lookup-insert}
use ttrpc.Errors.{ok, err, Result-cases, Error, Slice, Result}
use ttrpc.Stream.{new_stream}
use ttrpc.Request.{Libraries, Request}
use ttrpc.Client.{Client, Created, add_stream, send_request, create_stream}
use ttrpc.Client.Calls.{Dispatched, failed, waiting, dispatched, dispatch_encoded, dispatch_start}
use ttrpc.Client.Streaming.{Opening, refused, opened, opening, new_stream_call}

-- One more stream, behind the next pointer and under the next identifier, on a client that is not
-- cancelled
pub record Adds (c d : Client) : Type 0 where
  pub live : c.cancelled ≡ false
  pub still_live : d.cancelled ≡ false
  pub pointer : d.next_pointer ≡ c.next_pointer + 1
  pub identifier : d.next_stream_id ≡ (c.next_stream_id + 2) % 4294967296
  pub streams :
      (id : ℕ)
      → lookup id d.streams
        ≡ (if c.next_stream_id == id then some c.next_pointer else lookup id c.streams)
  pub store :
      (ptr : ℕ)
      → lookup ptr d.store
        ≡ (if c.next_pointer == ptr then some (new_stream c.next_stream_id) else lookup ptr c.store)

-- The client is as before, or has one stream more.
abbrev pub Grows : Client → Client → Type 0
Grows c d = (d ≡ c) ⊎ Adds c d

-- What `createStream` returns with no error is the stream that it added.
abbrev pub Made : Client → Created → Type 0
Made c d =
    Grows c d.client × ((ptr : ℕ) → d.pointer ≡ some ptr → (ptr ≡ c.next_pointer) × Adds c d.client)

send_request-Adds :
    (flags : ℕ) (b : Slice) (c : Client)
    → c.cancelled ≡ false
    → Adds c (send_request c.next_stream_id flags b (add_stream c)).client
unfolding send_request add_stream
send_request-Adds flags b c q = record {
  live = q;
  still_live = q;
  pointer = refl;
  identifier = refl;
  streams = λ id. lookup-insert c.next_stream_id id c.next_pointer c.streams;
  store = λ ptr. lookup-insert c.next_pointer ptr (new_stream c.next_stream_id) c.store;
}

create_stream-live :
    (flags : ℕ) (b : Slice) (c : Client)
    → c.cancelled ≡ false
    → send_request c.next_stream_id flags b (add_stream c) ≡ create_stream flags b c
unfolding create_stream
create_stream-live flags b c q = ground arith

create_stream-Adds :
    (flags : ℕ) (b : Slice) (c : Client)
    → c.cancelled ≡ false
    → Adds c (create_stream flags b c).client
create_stream-Adds flags b c q =
    subst (λ (d : Created). Adds c d.client) (create_stream-live flags b c q)
      (send_request-Adds flags b c q)

create_stream-Made : (flags : ℕ) (b : Slice) (c : Client) → Made c (create_stream flags b c)
unfolding create_stream send_request add_stream
create_stream-Made flags b c = elim (Bool-cases c.cancelled) [
  | inl q ↦ (inl (ground arith), λ ptr e. ground arith)
  | inr q ↦ let a = create_stream-Adds flags b c q in (inr a, λ ptr e. (ground arith, a))
]

-- `dispatch` up to its `select`
abbrev pub DispatchMade : Client → Dispatched → Type 0
DispatchMade c (failed e d) = Grows c d
DispatchMade c (waiting ptr d) = (ptr ≡ c.next_pointer) × Adds c d

dispatched-Made :
    (c : Client) (d : Created) (p : Option ℕ) (e : Option Error)
    → Grows c d.client
    → ((ptr : ℕ) → p ≡ some ptr → (ptr ≡ c.next_pointer) × Adds c d.client)
    → DispatchMade c (dispatched d p e)
unfolding dispatched
dispatched-Made c d none none g h = g
dispatched-Made c d (some ptr) none g h = h ptr refl
dispatched-Made c d none (some e) g h = g
dispatched-Made c d (some ptr) (some e) g h = g

dispatch_encoded-Made : (c : Client) (r : Result (List ℕ)) → DispatchMade c (dispatch_encoded c r)
unfolding dispatch_encoded
dispatch_encoded-Made c (err e) = inl refl
dispatch_encoded-Made c (ok p) =
    let d = create_stream 0 (some p) c in
    let (g, h) = create_stream-Made 0 (some p) c in dispatched-Made c d d.pointer d.error g h

pub dispatch_start-Made :
    (lib : Libraries) (req : Request) (c : Client) → DispatchMade c (dispatch_start lib req c)
unfolding dispatch_start
dispatch_start-Made lib req c = dispatch_encoded-Made c (lib.marshal_request req)

-- `NewStream`
abbrev pub OpeningMade : Client → Opening → Type 0
OpeningMade c (refused e d) = Grows c d
OpeningMade c (opened cs d) = (cs.pointer ≡ c.next_pointer) × Adds c d

opening-Made :
    (c : Client) (sends gets : Bool) (id : ℕ) (d : Created)
    → Made c d
    → OpeningMade c (opening sends gets id d)
unfolding opening
opening-Made c sends gets id d (g, h) = elim (Option-cases d.error) [
  | inr (e, q) ↦ rw (q, opening) g
  | inl q ↦ elim (Option-cases d.pointer) [
    | inl n ↦ rw (q, n, opening) g
    | inr (ptr, n) ↦ rw (q, n, opening) (h ptr n)
  ]
]

pub new_stream_call-Made :
    (lib : Libraries) (sends gets : Bool) (req : Request) (c : Client)
    → OpeningMade c (new_stream_call lib sends gets req c)
unfolding new_stream_call
new_stream_call-Made lib sends gets req c = elim (Result-cases (lib.marshal_request req)) [
  | inr (e, q) ↦ rw (q, new_stream_call) (inl refl)
  | inl (p, q) ↦
      rw (q, new_stream_call)
        (opening-Made c sends gets c.next_stream_id _ (create_stream-Made _ (some p) c))
]
