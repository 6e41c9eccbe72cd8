-- ===== src/Client/Call/Results.antt =====
-- What `Call` sends along and what it returns.
use ttrpc.Prelude.{
  ℕ, String, ◌≡◌, refl, ap, ◌∙◌, subst, ◌↔◌, inl, inr, Option, none, some, List, [], ◌∷◌, arith,
  if◌then◌else◌, ◌==◌, nat_eq, string_eq, Option-cases,
}
use ttrpc.Errors.{Code, Message, Status, Error, Result, ok, err, Slice}
use ttrpc.Prelude.Assoc.{lookup}
use ttrpc.Request.{Request, Response, KeyValue}
use ttrpc.Metadata.{from_pairs, Md, set_request, from_request, get_request_context, metadata_of}
use ttrpc.Metadata.Laws.{DistinctKeys, values, from_request-set_request}
use ttrpc.Client.Calls.{call_result, call_status, status_error}
use ttrpc.Client.Call.{
  ◌+++◌, Value, codec_marshal, codec_unmarshal, full_path, CallContext, call_request, with_metadata,
  with_timeout, no_response, Dispatch, CallInterceptor, call_invoked, call_marshalled, call,
}

-- The values that the metadata of a context has for a key
abbrev pub context_values : String → Option Md → List String
context_values j none = []
context_values j (some m) = values j m

-- A timeout of 0 is none on the wire.
abbrev pub kept_timeout : Option ℕ → Option ℕ
kept_timeout none = none
kept_timeout (some n) = if n == 0 then none else some n

metadata_of-values :
    (j : String) (r : Request) (kvs : List KeyValue)
    → r.metadata ≡ kvs
    → context_values j (metadata_of r kvs) ≡ values j (from_request r [])
unfolding metadata_of from_request from_pairs lookup
metadata_of-values j r [] e = ground (arith, e)
metadata_of-values j r (kv ∷ kvs) e = refl

request_values :
    (j : String) (r : Request)
    → context_values j (get_request_context r).metadata ≡ values j (from_request r [])
unfolding get_request_context
request_values j r = metadata_of-values j r r.metadata refl

timed_values :
    (j : String) (t : Option ℕ) (r : Request)
    → values j (from_request (with_timeout t r) []) ≡ values j (from_request r [])
unfolding with_timeout from_request
timed_values j none r = refl
timed_values j (some n) r = refl

timed_timeout :
    (t : Option ℕ) (r : Request)
    → r.timeout_nano ≡ 0
    → (get_request_context (with_timeout t r)).timeout ≡ kept_timeout t
unfolding with_timeout get_request_context
timed_timeout none r e = ground (arith, e)
timed_timeout (some n) r e = refl

-- The metadata and the deadline of the caller's context are those of the context in which the server runs
-- the method: for each key the same values in the same order, none where the caller has no metadata; and
-- the same timeout, but none where the caller's is 0. (The keys of a Go map are distinct.)
pub context_carries :
    (service method j : String) (p : Slice) (ctx : CallContext) (m : Md)
    → ctx.metadata ≡ some m
    → DistinctKeys m
    → let server = get_request_context (call_request service method p ctx) in
      (context_values j server.metadata ≡ values j m)
      × (server.timeout ≡ kept_timeout ctx.until_deadline)
unfolding call_request with_metadata set_request
context_carries service method j p ctx m e d =
    let r : Request = record {
      service = service;
      method = method;
      payload = p;
      timeout_nano = 0;
      metadata = [];
    } in
    let t = ctx.until_deadline in
    let filled : call_request service method p ctx ≡ with_timeout t (set_request m r) =
      ap (λ o. with_timeout t (with_metadata o r)) e in
    rw filled (
      request_values j (with_timeout t (set_request m r))
          ∙ timed_values j t (set_request m r)
          ∙ from_request-set_request m r j d refl,
      timed_timeout t (set_request m r) refl,
    )

-- The end of `Call`, from the response
result_succeeds :
    (f : Slice → Option Error) (r : Response) (q : Slice)
    → call_result f r ≡ ok q
    → (r.payload ≡ q) × (f q ≡ none) × (status_error r.status ≡ none)
unfolding call_result call_status
result_succeeds f r q h = elim (Option-cases (f r.payload)) [
  | inr (e, u) ↦ ground (arith, u)
  | inl u ↦ elim (Option-cases (status_error r.status)) [
    | inr (e, k) ↦ ground (arith, u, k)
    | inl k ↦
        let same : r.payload ≡ q = ground (arith, u, k) in (same, subst (λ p. f p ≡ none) same u, k)
  ]
]

succeeds_result :
    (f : Slice → Option Error) (st : Option Status) (q : Slice)
    → f q ≡ none
    → status_error st ≡ none
    → call_result f (record { status = st; payload = q }) ≡ ok q
unfolding call_result call_status
succeeds_result f st q u k = ground (arith, u, k)

-- The status of a response is none, or has the code OK.
abbrev pub IsFine : Option Status → Type 0
IsFine none = Unit {0}
IsFine (some st) = st.code ≡ Code.ok

code_error_none :
    (k : Code) (m : Message)
    → (status_error (some (record { code = k; message = m })) ≡ none) ↔ (k ≡ Code.ok)
unfolding status_error
code_error_none Code.ok m = ((λ e. refl), (λ e. refl))
code_error_none k m = ((λ e. cc), (λ e. cc))

status_error-IsFine : (st : Option Status) → (status_error st ≡ none) ↔ IsFine st
unfolding status_error
status_error-IsFine none = ((λ e. tt), (λ e. refl))
status_error-IsFine (some st) = code_error_none st.code st.message

-- A request for this method of this service, with this payload
abbrev pub Asks : String → String → Slice → Request → Type 0
Asks service method p r = (r.service ≡ service) × (r.method ≡ method) × (r.payload ≡ p)

call_request-Asks :
    (service method : String) (p : Slice) (m : Option Md) (t : Option ℕ)
    → Asks service method p
        (call_request service method p (record { metadata = m; until_deadline = t }))
unfolding call_request with_metadata with_timeout set_request
call_request-Asks service method p none none = (refl, refl, refl)
call_request-Asks service method p none (some n) = (refl, refl, refl)
call_request-Asks service method p (some m) none = (refl, refl, refl)
call_request-Asks service method p (some m) (some n) = (refl, refl, refl)

invoked_succeeds :
    {W : Type 0} (resp : Value (Slice → Option Error)) (x : Option Error × Response × W) (q : Slice)
    (w : W)
    → (call_invoked resp x ≡ (ok q, w)) ↔ (
        (st : Option Status) × (x ≡ (none, record { status = st; payload = q }, w))
        × (codec_unmarshal resp q ≡ none)
        × IsFine st)
unfolding call_invoked
invoked_succeeds resp (some e, r, v) q w = ((λ h. cc), (λ h. cc))
invoked_succeeds resp (none, r, v) q w = (
  (λ h.
      let (same, u, k) = result_succeeds (codec_unmarshal resp) r q (ap (λ y. y.0) h) in
      (
        r.status,
        (λ a. (none, record { status = r.status; payload = same a }, (h a).1)),
        u,
        (status_error-IsFine r.status).0 k,
      )),
  (λ h.
      ap (call_invoked resp) h.1
      ∙ ap (λ z. (z, w))
          (succeeds_result (codec_unmarshal resp) h.0 q h.2 ((status_error-IsFine h.0).1 h.3))),
)

module _ {P W : Type 0} (join : String → String → String) (marshal : P → Result Slice) where
  marshalled_succeeds :
      (i : CallInterceptor W) (dispatch : Dispatch W) (ctx : CallContext) (service method : String)
      (resp : Value (Slice → Option Error)) (w w' : W) (q : Slice) (x : Result Slice)
      → (call_marshalled join marshal i dispatch ctx service method resp w x ≡ (ok q, w')) ↔ (
          (p : Slice) × (st : Option Status) × (x ≡ ok p)
          × (i ctx
                (call_request service method p ctx)
                no_response
                (full_path join service method)
                dispatch
                w
              ≡ (none, record { status = st; payload = q }, w'))
          × (codec_unmarshal resp q ≡ none)
          × IsFine st)
  unfolding call_marshalled
  marshalled_succeeds i dispatch ctx service method resp w w' q (err e) = ((λ h. cc), (λ h. cc))
  marshalled_succeeds i dispatch ctx service method resp w w' q (ok p) =
      let made = λ (y : Slice).
        i ctx (call_request service method y ctx) no_response (full_path join service method)
          dispatch w in
      let both = invoked_succeeds resp (made p) q w' in
      (
        (λ h. let (st, e, u, k) = both.0 h in (p, st, refl, e, u, k)),
        (λ h. let same : p ≡ h.0 = cc (h.2) in both.1 (h.1, ap made same ∙ h.3, h.4, h.5)),
      )

  -- Whatever the interceptor and the dispatch, a `Call` returns no error exactly where the request could be
  -- marshalled, the interceptor, given the request of the call and the path "/" followed by the two names
  -- joined, returned no error, the payload of the response could be unmarshalled, and its status is
  -- missing or has the code OK; the result is that payload, and the state is the one that the
  -- interceptor left. The request is for the method of the service, with the marshalled payload.
  pub call_succeeds :
      (i : CallInterceptor W) (dispatch : Dispatch W) (ctx : CallContext) (service method : String)
      (req : Value P) (resp : Value (Slice → Option Error)) (w w' : W) (q : Slice)
      → ((call join marshal i dispatch ctx service method req resp w ≡ (ok q, w')) ↔ (
          (p : Slice) × (st : Option Status) × (codec_marshal marshal req ≡ ok p)
          × (i ctx
                (call_request service method p ctx)
                no_response
                ("/" +++ join service method)
                dispatch
                w
              ≡ (none, record { status = st; payload = q }, w'))
          × (codec_unmarshal resp q ≡ none)
          × IsFine st))
        × ((p : Slice) → Asks service method p (call_request service method p ctx))
  unfolding call full_path
  call_succeeds i dispatch ctx service method req resp w w' q = (
    marshalled_succeeds i dispatch ctx service method resp w w' q (codec_marshal marshal req),
    λ p. call_request-Asks service method p ctx.metadata ctx.until_deadline,
  )
