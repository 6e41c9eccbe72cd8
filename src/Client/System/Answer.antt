-- ===== src/Client/System/Answer.antt =====
-- What a call returns, whatever the order in which the client's goroutines act.
use ttrpc.Prelude.{
  ℕ, ◌+◌, ◌<◌, ◌≡◌, refl, sym, subst, ◌⊎◌, inl, inr, Bool, true, false, Option, none, some, List,
  [], ◌∷◌, arith, nat_eq, string_eq, Bool-cases, Option-cases,
}
use ttrpc.Prelude.Assoc.{lookup}
use ttrpc.Prelude.Sets.{contains}
use mathlib.Core.Option.{some-injective}
use ttrpc.Errors.{Error, Result, err, err_closed}
use ttrpc.Channel.{Writer}
use ttrpc.Request.{Libraries, Request, Response}
use ttrpc.Stream.{Stream, StreamMessage, new_stream, Taken, message, fails, take_message}
use ttrpc.Client.{new_client, Client}
use ttrpc.Client.Cleanup.{ClosedAt}
use ttrpc.Client.Calls.{
  waiting, dispatch_start, dispatch_end, dispatch_taken, early_case, read_response,
}
use ttrpc.Client.System.{System, Event, call, step, run, start}
use ttrpc.Client.System.Growth.{dispatch_start-Made}
use ttrpc.Client.System.Invariant.{Inv}
use ttrpc.Client.System.Runs.{made_by, step-Keeps, run-Keeps_all, run-over, start-Inv}
use ttrpc.Client.System.Track.{Tracks, heard, or_else, first_message}
use ttrpc.Client.System.Rounds.{or_else-none}
use ttrpc.Client.System.Follows.{Follows, step-Follows}

or_else_assoc : (a b c : Option StreamMessage) → or_else (or_else a b) c ≡ or_else a (or_else b c)
or_else_assoc none b c = refl
or_else_assoc (some m) b c = refl

-- What the `select` of `dispatch` took
abbrev TakenFrom : Option Error → Stream → Taken → Type 0
TakenFrom early st (message m u) = st.recv ≡ some m
TakenFrom early st (fails none) = st.closed ≡ true
TakenFrom early st (fails (some e)) = (early ≡ some e) ⊎ (st.closed ≡ true)
TakenFrom early st Taken.waits = Unit {0}

take_fields :
    (pick : Bool) (early : Option Error) (id : ℕ) (r : Option StreamMessage) (e : Option Error)
    (closed : Bool)
    → TakenFrom early
        (record { id = id; recv = r; recv_err = e; closed = closed })
        (take_message pick early (record { id = id; recv = r; recv_err = e; closed = closed }))
unfolding take_message
take_fields pick none id (some m) e closed = refl
take_fields pick none id none none true = refl
take_fields pick none id none (some x) true = inr refl
take_fields pick none id none e false = tt
take_fields false (some y) id (some m) e closed = refl
take_fields true (some y) id (some m) e closed = inl refl
take_fields true (some y) id none e true = inl refl
take_fields false (some y) id none none true = refl
take_fields false (some y) id none (some x) true = inr refl
take_fields pick (some y) id none e false = inl refl

-- The result of a call: the response in the message that its stream held, or why there is none
abbrev pub AnswerOf :
    Libraries → Option Error → Option StreamMessage → ℕ → Client → Result Response → Type 0
AnswerOf lib early first ptr c r =
    ((m : StreamMessage) × (first ≡ some m) × (r ≡ read_response lib m))
    ⊎ ((e : Error) × (r ≡ err e) × ((early ≡ some e) ⊎ ClosedAt ptr c))

taken_result :
    (lib : Libraries) (early : Option Error) (seen : Option StreamMessage) (ptr : ℕ) (c d : Client)
    (st : Stream) (t : Taken) (r : Result Response)
    → lookup ptr c.store ≡ some st
    → ((m : StreamMessage) → st.recv ≡ some m → seen ≡ some m)
    → TakenFrom early st t
    → dispatch_taken lib ptr c t ≡ some (r, d)
    → AnswerOf lib early seen ptr c r
unfolding dispatch_taken
taken_result lib early seen ptr c d st (message m u) r h k f e = inl (m, k m f, ground arith)
taken_result lib early seen ptr c d st (fails none) r h k f e =
    inr (err_closed, ground arith, inr (st, h, f))
taken_result lib early seen ptr c d st (fails (some x)) r h k (inl f) e =
    inr (x, ground arith, inl f)
taken_result lib early seen ptr c d st (fails (some x)) r h k (inr f) e =
    inr (x, ground arith, inr (st, h, f))
taken_result lib early seen ptr c d st Taken.waits r h k f e = cc

module _ (lib : Libraries) where
  run-Tracks :
      (es : List Event) (s t : System) (ptr id : ℕ) (seen : Option StreamMessage)
      → Inv s
      → s.client.next_pointer + made_by es < 2147483647
      → run lib es s ≡ some t
      → contains ptr s.waiting ≡ true
      → contains ptr t.waiting ≡ true
      → Tracks ptr id seen s.client s.place
      → Tracks ptr id (or_else seen (first_message id es)) t.client t.place
  unfolding run made_by first_message
  run-Tracks [] s t ptr id seen v room e w at_end k =
      subst (λ o. Tracks ptr id o t.client t.place) (sym (or_else-none seen))
        (subst (λ (x : System). Tracks ptr id seen x.client x.place) (some-injective s t e) k)
  run-Tracks (x ∷ es) s t ptr id seen v room e w at_end k = elim (Option-cases (step lib x s)) [
    | inl q ↦ cc (rw (q, run) at e)
    | inr (u, q) ↦
        let (v', b, l) = rw q at (step-Keeps lib s v (omega (arith, v.sound.next)) x) in
        let k' : Tracks ptr id (or_else seen (heard id x)) u.client u.place =
          subst (Follows ptr id (or_else seen (heard id x))) q
            (step-Follows ptr id seen s v w k lib x) in
        let e' = rw (q, run) at e in
        elim (Bool-cases (contains ptr u.waiting)) [
          | inl y ↦
              subst (λ o. Tracks ptr id o t.client t.place)
                (or_else_assoc seen (heard id x) (first_message id es))
                (run-Tracks es u t ptr id (or_else seen (heard id x)) v' (omega (arith, b)) e' y
                  at_end k')
          | inr n ↦ cc (
            at_end,
            run-over lib es u t ptr v' (omega (arith, b)) e' (omega (arith, b, v.below ptr w)) n,
          )
        ]
  ]

  -- The stream of a call that has just been sent
  sent-Tracks :
      (s : System) (req : Request) (ptr : ℕ) (c : Client)
      → Inv s
      → dispatch_start lib req s.client ≡ waiting ptr c
      → (ptr ≡ s.client.next_pointer) × Tracks ptr s.client.next_stream_id none c s.place
  unfolding new_stream
  sent-Tracks s req ptr c v e =
      let (q, a) = rw e at (dispatch_start-Made lib req s.client) in
      (
        q,
        record {
          stream = new_stream s.client.next_stream_id;
          here = ground (arith, a.store ptr);
          number = refl;
          holds = record {
            content = λ m x. cc;
            unheard = λ x y z. refl;
            full = λ got x. absurd (omega (arith, v.handed got ptr x, q));
          };
        },
      )

  run-call :
      (s u : System) (req : Request) (ptr : ℕ) (c : Client) (fs : List Event)
      → dispatch_start lib req s.client ≡ waiting ptr c
      → run lib (call req ∷ fs) s ≡ some u
      → run lib fs (record s { client = c; waiting = ptr ∷ s.waiting }) ≡ some u
  unfolding run step
  run-call s u req ptr c fs e h = rw e at h

  end_result :
      (seen : Option StreamMessage) (id ptr : ℕ) (u : System) (pick first : Bool)
      (ctx : Option Error) (r : Result Response) (d : Client)
      → Tracks ptr id seen u.client u.place
      → dispatch_end lib pick first ctx ptr u.client ≡ some (r, d)
      → AnswerOf lib (early_case first ctx u.client.cancelled) seen ptr u.client r
  unfolding dispatch_end
  end_result seen id ptr u pick first ctx r d k e =
      let early = early_case first ctx u.client.cancelled in
      let st = k.stream in
      taken_result lib early seen ptr u.client d st (take_message pick early st) r k.here
        k.holds.content (take_fields pick early st.id st.recv st.recv_err st.closed)
        (rw (k.here, dispatch_end) at e)

  -- On a new client, in every interleaving of its calls, its streams, the receive loop and Close, before
  -- its identifiers come round: what a call returns that waits is read from the first whole message that
  -- was received on its own identifier since it was sent; or it is an error, and then a context is done
  -- and the error is its, or the call's stream was closed.
  pub call_answered :
      (w : Writer) (es fs : List Event) (s u : System) (req : Request) (ptr : ℕ) (c : Client)
      → made_by es + made_by fs < 2147483646
      → run lib es (start w) ≡ some s
      → dispatch_start lib req s.client ≡ waiting ptr c
      → run lib (call req ∷ fs) s ≡ some u
      → contains ptr u.waiting ≡ true
      → (pick first : Bool) (ctx : Option Error) (r : Result Response) (d : Client)
      → dispatch_end lib pick first ctx ptr u.client ≡ some (r, d)
      → AnswerOf lib
          (early_case first ctx u.client.cancelled)
          (first_message s.client.next_stream_id fs)
          ptr
          u.client
          r
  unfolding start new_client contains made_by step
  call_answered w es fs s u req ptr c few before sent after at_end pick first ctx r d e =
      let (v, b) = run-Keeps_all lib es (start w) s (start-Inv lib w) (omega (arith, few)) before in
      let t = record s { client = c; waiting = ptr ∷ s.waiting } in
      let (q, k) = sent-Tracks s req ptr c v sent in
      let (v', a, l) =
        rw sent at (step-Keeps lib s v (omega (arith, v.sound.next, few, b)) (call req)) in
      let all =
        run-Tracks fs t u ptr s.client.next_stream_id none v' (omega (arith, a, b, few))
          (run-call s u req ptr c fs sent after) (ground arith) at_end k in
      end_result (first_message s.client.next_stream_id fs) s.client.next_stream_id ptr u pick first
        ctx r d all e
