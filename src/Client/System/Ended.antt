-- ===== src/Client/System/Ended.antt =====
-- The end of `run`, whatever the calls and streams do meanwhile: nobody waits for ever.
use ttrpc.Prelude.{
  ℕ, ◌<◌, ◌≡◌, refl, ap, ◌≢◌, inl, inr, Bool, true, false, Option, none, some, List, [], ◌∷◌, arith,
  nat_eq, string_eq, Bool-cases,
}
use ttrpc.Prelude.Assoc.{Assoc, lookup}
use ttrpc.Prelude.Sets.{contains, remove, contains-remove}
use ttrpc.Errors.{Error, Result, ok, err_closed}
use ttrpc.Channel.{Writer}
use ttrpc.Request.{Libraries, Request, Response}
use ttrpc.Stream.{Stream, Taken, message, fails, take_message}
use ttrpc.Client.{new_client, Client, create_stream}
use ttrpc.Client.Calls.{
  failed, dispatched, dispatch_encoded, dispatch_start, dispatch_end, dispatch_taken, early_case,
}
use ttrpc.Client.Streaming.{ClientStream}
use ttrpc.Client.System.{
  Place, returned, closing, cleaned, over, System, Event, call_end, go_on, step, run, start,
  run_step,
}
use ttrpc.Client.System.Invariant.{Inv, is_cleaned, is_shut}
use ttrpc.Client.System.Runs.{made_by, run-Keeps_all, start-Inv}

-- The rest of `run` once the receive loop has returned
abbrev pub rest_of_run : Place → List Event
rest_of_run (returned e) = go_on ∷ go_on ∷ go_on ∷ []
rest_of_run (closing e) = go_on ∷ go_on ∷ []
rest_of_run cleaned = go_on ∷ []
rest_of_run _ = []

abbrev pub has_returned : Place → Bool
has_returned (returned e) = true
has_returned (closing e) = true
has_returned cleaned = true
has_returned over = true
has_returned _ = false

-- A closed stream has a case that is ready.
taken_closed :
    (pick : Bool) (e : Option Error) (st : Stream)
    → st.closed ≡ true
    → take_message pick e st ≢ Taken.waits
unfolding take_message
taken_closed pick e st h q = ground arith

taken_returns :
    (lib : Libraries) (ptr : ℕ) (c : Client) (t : Taken)
    → t ≢ Taken.waits
    → (r : Result Response) × (d : Client) × (dispatch_taken lib ptr c t ≡ some (r, d))
unfolding dispatch_taken
taken_returns lib ptr c (message m u) h = (_, _, refl)
taken_returns lib ptr c (fails none) h = (_, _, refl)
taken_returns lib ptr c (fails (some e)) h = (_, _, refl)
taken_returns lib ptr c Taken.waits h = absurd (h refl)

module _ (lib : Libraries) where
  rest-runs :
      (p : Place) (c : Client) (ws : List ℕ) (os : Assoc ℕ ClientStream)
      → has_returned p ≡ true
      → (u : System) × (run lib
            (rest_of_run p)
            (record { client = c; place = p; waiting = ws; opened = os })
          ≡ some u)
        × (u.place ≡ over)
        × (u.waiting ≡ ws)
  unfolding run step run_step
  rest-runs (returned e) c ws os h = (_, refl, refl, refl)
  rest-runs (closing e) c ws os h = (_, refl, refl, refl)
  rest-runs cleaned c ws os h = (_, refl, refl, refl)
  rest-runs over c ws os h = (_, refl, refl, refl)
  rest-runs _ c ws os h = cc

  rest-made : (p : Place) → made_by (rest_of_run p) ≡ 0
  unfolding made_by
  rest-made p = ground arith

  -- Behind `cleanupStreams` every stream on which a call waits is closed.
  waiting_closed :
      (s : System)
      → Inv s
      → is_cleaned s.place ≡ true
      → (ptr : ℕ) → contains ptr s.waiting ≡ true
      → (st : Stream) × (lookup ptr s.client.store ≡ some st) × (st.closed ≡ true)
  waiting_closed s v h ptr w =
      let (st, here, listed) = v.waited ptr w in
      (
        st,
        here,
        elim (Bool-cases st.closed) [ inl q ↦ q | inr q ↦ cc (listed q, v.emptied h st.id) ],
      )

  end_enabled :
      (pick first : Bool) (ctx : Option Error) (ptr : ℕ) (st : Stream) (c : Client)
      → lookup ptr c.store ≡ some st
      → st.closed ≡ true
      → (r : Result Response) × (d : Client) × (dispatch_end lib pick first ctx ptr c ≡ some (r, d))
  unfolding dispatch_end
  end_enabled pick first ctx ptr st c here shut =
      let e = early_case first ctx c.cancelled in
      let (r, d, q) =
        taken_returns lib ptr c (take_message pick e st) (taken_closed pick e st shut) in
      (r, d, rw (here, dispatch_end) q)

  call_returns :
      (s : System)
      → Inv s
      → is_cleaned s.place ≡ true
      → (ptr : ℕ) (pick first : Bool) (ctx : Option Error) → contains ptr s.waiting ≡ true
      → (t : System) × (step lib (call_end ptr pick first ctx) s ≡ some t)
        × (contains ptr t.waiting ≡ false)
  unfolding step
  call_returns s v h ptr pick first ctx w =
      let (st, here, shut) = waiting_closed s v h ptr w in
      let (r, d, e) = end_enabled pick first ctx ptr st s.client here shut in
      (
        record s { client = d; waiting = remove ptr s.waiting },
        ground (arith, w, e),
        ground (arith, contains-remove ptr ptr s.waiting),
      )

  call_refused :
      (s : System)
      → s.client.cancelled ≡ true
      → (req : Request) (p : List ℕ) → lib.marshal_request req ≡ ok p
      → dispatch_start lib req s.client ≡ failed err_closed s.client
  unfolding dispatch_start dispatch_encoded dispatched create_stream
  call_refused s h req p m = ground arith

  -- However calls, users and the receive loop act on a new client, before its identifiers come round: once
  -- the receive loop has returned, the rest of `run` can be done at once and leaves no call waiting for
  -- ever. Every call that waits then returns whichever ready case of its `select` Go takes, and a new
  -- call whose request can be encoded is refused with ErrClosed.
  pub ended_calls_return :
      (w : Writer) (es : List Event) (t : System)
      → made_by es < 2147483647
      → run lib es (start w) ≡ some t
      → has_returned t.place ≡ true
      → (u : System) × (run lib (rest_of_run t.place) t ≡ some u)
        × (u.place ≡ over)
        × (u.waiting ≡ t.waiting)
        × ((ptr : ℕ) (pick first : Bool) (ctx : Option Error)
            → contains ptr u.waiting ≡ true
            → (x : System) × (step lib (call_end ptr pick first ctx) u ≡ some x)
              × (contains ptr x.waiting ≡ false))
        × ((req : Request) (p : List ℕ)
            → lib.marshal_request req ≡ ok p
            → dispatch_start lib req u.client ≡ failed err_closed u.client)
  unfolding start new_client
  ended_calls_return w es t few e h =
      let (v, b) = run-Keeps_all lib es (start w) t (start-Inv lib w) (omega arith) e in
      let (u, q, at_end, same) = rest-runs t.place t.client t.waiting t.opened h in
      let (v', b') =
        run-Keeps_all lib (rest_of_run t.place) t u v (omega (arith, b, rest-made t.place)) q in
      (
        u,
        q,
        at_end,
        same,
        call_returns u v' (ap is_cleaned at_end),
        call_refused u (v'.shut (ap is_shut at_end)),
      )
