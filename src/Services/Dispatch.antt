-- ===== src/Services/Dispatch.antt =====
-- Registration and dispatch.
use ttrpc.Prelude.{
  subst, arith, String, ◌≡◌, refl, ◌⊎◌, inl, inr, Bool, true, false, Option, none, some, [], ◌∷◌,
  if◌then◌else◌, ◌==◌, nat_eq, string_eq, Option-cases,
}
use ttrpc.Prelude.Assoc.{lookup, insert, lookup-insert}
use ttrpc.Errors.{Slice, Error, Code, status}
use ttrpc.Request.{Request}
use ttrpc.Services.{
  StreamSpec, ServiceDesc, ServiceSet, new_stream_handler, Handled, refused, unary, streaming,
  failing, carries_first, started, register, first_data, handle_method, handle, push_data,
  data_select, put_recv,
}

abbrev is_unimplemented : Error → Bool
is_unimplemented (status Code.unimplemented m) = true
is_unimplemented _ = false

-- Whether a request carries the first message of its stream: only a nil payload of a client that
-- streams is none (an empty message is encoded as a nil payload).
abbrev carries : Slice → Bool → Bool
carries none true = false
carries none false = true
carries (some p) streaming_client = true

carries_lem :
    {H : Type 0} (req : Request) (spec : StreamSpec H)
    → carries_first req spec ≡ carries req.payload spec.streaming_client
carries_lem req spec = by_cases req.payload spec.streaming_client refl refl
  where
    by_cases :
        (p : Slice) (c : Bool)
        → req.payload ≡ p
        → spec.streaming_client ≡ c
        → carries_first req spec ≡ carries p c
    by_cases none true e q = ground (arith, e, q)
    by_cases none false e q = ground (arith, e, q)
    by_cases (some x) c e q = ground (arith, e, q)

module _ {M H : Type 0} where
  -- What `handle` finds: it depends on the service's name, then on the methods, then on the streams.
  pub method_of : Request → ServiceSet M H → Option M
  method_of req s = elim (lookup req.service s) [
    | none ↦ none
    | some srv ↦ lookup req.method srv.methods
  ]

  pub stream_of : Request → ServiceSet M H → Option (StreamSpec H)
  stream_of req s = elim (lookup req.service s) [
    | none ↦ none
    | some srv ↦ elim (lookup req.method srv.methods) [
      | some m ↦ none
      | none ↦ lookup req.method srv.streams
    ]
  ]

  -- A stream is started with the request's payload in its channel, if the request carries the first
  -- message, and else with an empty channel; with its context already done the first message may instead
  -- be refused by the context's error.
  abbrev Starts : Option Error → Request → StreamSpec H → Bool → Handled M H → Type 0
  Starts ctx req spec false d = d ≡ streaming spec (new_stream_handler ctx)
  Starts ctx req spec true d =
      (d ≡ streaming spec (record (new_stream_handler ctx) { recv = req.payload ∷ [] }))
      ⊎ ((e : Error) × (ctx ≡ some e) × (d ≡ failing spec (new_stream_handler ctx) e))

  -- The right answers, from what the request's names stand for.
  abbrev pub Answers :
      Option Error → Request → Option M → Option (StreamSpec H) → Handled M H → Type 0
  Answers ctx req (some m) _ d = d ≡ unary m
  Answers ctx req none none d = (e : Error) × (d ≡ refused e) × (is_unimplemented e ≡ true)
  Answers ctx req none (some spec) d =
      Starts ctx req spec (carries req.payload spec.streaming_client) d

  started-Starts :
      (pick : Bool) (ctx : Option Error) (req : Request) (spec : StreamSpec H) {d : Handled M H}
      → d ≡ started spec (push_data pick req.payload (new_stream_handler ctx))
      → Starts ctx req spec true d
  unfolding started push_data data_select put_recv
  started-Starts pick none req spec q = inl q
  started-Starts true (some x) req spec q = inr (x, refl, q)
  started-Starts false (some x) req spec q = inl q

  first_data-Starts :
      (pick : Bool) (ctx : Option Error) (req : Request) (spec : StreamSpec H) (b : Bool)
      {d : Handled M H}
      → d ≡ (
          if b
          then started spec (push_data pick req.payload (new_stream_handler ctx))
          else streaming spec (new_stream_handler ctx))
      → Starts ctx req spec b d
  first_data-Starts pick ctx req spec true q = started-Starts pick ctx req spec q
  first_data-Starts pick ctx req spec false q = q

  handle_method-Answers :
      (pick : Bool) (ctx : Option Error) (req : Request) (srv : ServiceDesc M H)
      → Answers ctx req
          (lookup req.method srv.methods)
          (elim (lookup req.method srv.methods) [
            | some m ↦ none
            | none ↦ lookup req.method srv.streams
          ])
          (handle_method pick ctx req srv)
  unfolding handle_method first_data
  handle_method-Answers pick ctx req srv = elim (Option-cases (lookup req.method srv.methods)) [
    | inl e ↦ elim (Option-cases (lookup req.method srv.streams)) [
      | inl q ↦ rw (e, q, handle_method) (_, refl, refl)
      | inr (spec, q) ↦
          rw (e, q, handle_method)
            (subst (λ b. Starts ctx req spec b (first_data pick ctx req spec))
              (carries_lem req spec)
              (first_data-Starts pick ctx req spec (carries_first req spec) refl))
    ]
    | inr (m, e) ↦ rw (e, handle_method) refl
  ]

  -- `handle` calls the method that is registered under the request's names; where there is none, it starts
  -- the stream under these names, whose first message is the request's payload unless that is nil and the
  -- client streams; where there is neither, and where the service is unknown, it refuses the request with
  -- the status Unimplemented. No request makes it wait or panic.
  pub handle-Answers :
      (pick : Bool) (ctx : Option Error) (req : Request) (s : ServiceSet M H)
      → Answers ctx req (method_of req s) (stream_of req s) (handle pick ctx req s)
  unfolding handle method_of stream_of
  handle-Answers pick ctx req s = elim (Option-cases (lookup req.service s)) [
    | inl e ↦ rw (e, handle, method_of, stream_of) (_, refl, refl)
    | inr (srv, e) ↦ rw (e, handle, method_of, stream_of) (handle_method-Answers pick ctx req srv)
  ]

  -- `register` adds the service under a new name and keeps every other; under a name that is taken it
  -- panics.
  lookup-register :
      (name : String) (desc : ServiceDesc M H) (s : ServiceSet M H)
      → ((d : ServiceDesc M H) × (lookup name s ≡ some d) × (register name desc s ≡ none))
        ⊎ ((t : ServiceSet M H) × (register name desc s ≡ some t)
            × (lookup name s ≡ none)
            × ((j : String) → lookup j t ≡ (if name == j then some desc else lookup j s)))
  unfolding register
  lookup-register name desc s = elim (Option-cases (lookup name s)) [
    | inl e ↦ inr (insert name desc s, rw (e, register), e, λ j. lookup-insert name j desc s)
    | inr (d, e) ↦ inl (d, e, rw (e, register))
  ]
