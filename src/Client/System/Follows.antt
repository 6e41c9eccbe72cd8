-- ===== src/Client/System/Follows.antt =====
-- The stream of a waiting call behind each action of the client's interleaving.
use ttrpc.Prelude.{
  ℕ, ◌+◌, ◌≡◌, refl, sym, ap, ◌∙◌, subst, ◌≢◌, inl, inr, Bool, true, false, Option, none, some,
  arith, if◌then◌else◌, ◌==◌, nat_eq, string_eq, Bool-cases, nat_beq_iff,
}
use ttrpc.Prelude.Assoc.{lookup}
use ttrpc.Prelude.Sets.{contains}
use mathlib.Core.Option.{some-injective}
use ttrpc.Errors.{Error, Result, err_closed}
use ttrpc.Channel.{Received}
use ttrpc.Services.{Wait, done, blocked, panics}
use ttrpc.Request.{Libraries, Response}
use ttrpc.Stream.{Stream, StreamMessage, receive_waited}
use ttrpc.Client.{
  Client, Round, again, ends, waits, received_round, set_stream, close, cleanup_streams, message_of,
}
use ttrpc.Client.Calls.{Dispatched, failed, waiting, dispatch_start, dispatch_end}
use ttrpc.Client.Streaming.{
  ClientStream, Opening, refused, opened, Outcome, close_send, send_msg, recv_msg, new_stream_call,
}
use ttrpc.Client.System.{
  Place, testing, receiving, handing, returned, closing, cleaned, over, System, Event, call,
  call_end, test, go_on, user_close, receive, hand, stream_close, stream_send, stream_recv,
  after_start, after_end, after_opening, after_method?, after_round, after_hand, hand_step,
  run_step, stream_step, step, context_error,
}
use ttrpc.Client.System.Evolution.{
  Evolves, nothing, only, Evolves-same, Evolves-set_stream, Evolves-quiet, Evolves-close,
}
use ttrpc.Client.System.Removal.{Evolves-delete_stream, Evolves-cleanup_streams}
use ttrpc.Client.System.Growth.{
  Grows, DispatchMade, OpeningMade, dispatch_start-Made, new_stream_call-Made,
}
use ttrpc.Client.System.Effects.{unchanged, WaitSame, dispatch_end-deletes, receive_waited-same}
use ttrpc.Client.System.Users.{
  OutcomeEvolves?, close_send-Evolves, send_msg-Evolves, recv_msg-Evolves,
}
use ttrpc.Client.System.Invariant.{Inv}
use ttrpc.Client.System.Steps.Rounds.{not_handing}
use ttrpc.Client.System.Track.{
  hears-live, hears-down, hears-same, is_receiving, Tracks, heard, or_else, Evolves-Tracks,
  Adds-Tracks,
}
use ttrpc.Client.System.Rounds.{or_else-none, RoundTracks, round-RoundTracks}

-- The stream of a call after an action, if that was enabled
abbrev pub Follows : ℕ → ℕ → Option StreamMessage → Option System → Type 0
Follows ptr id seen none = Unit {0}
Follows ptr id seen (some t) = Tracks ptr id seen t.client t.place

-- A receiver that waits for room finds none in a stream that is not emptied.
waited_full :
    (first pick : Bool) (ctx : Option Error) (m x : StreamMessage) (st : Stream)
    → st.recv ≡ some x
    → (e : Option Error) (u : Stream) → receive_waited first pick ctx m st ≡ done (e, u)
    → u ≡ st
unfolding receive_waited
waited_full first pick ctx m x st h e u q = ground arith

module _ (ptr id : ℕ) (seen : Option StreamMessage) (s : System) (v : Inv s)
    (w : contains ptr s.waiting ≡ true) (k : Tracks ptr id seen s.client s.place) where
  grown : (d : Client) → Grows s.client d → Tracks ptr id seen d s.place
  grown d (inl q) = subst (λ c. Tracks ptr id seen c s.place) (sym q) k
  grown d (inr a) = Adds-Tracks ptr id seen s.client d s.place k v.sound a

  -- The client changes, the place stays, and the stream is not touched.
  in_place :
      (t : ℕ → Bool) (d : Client)
      → Evolves t s.client d
      → t ptr ≡ false
      → Tracks ptr id seen d s.place
  in_place t d x a =
      Evolves-Tracks t ptr id seen s.client d s.place s.place k x a
        (hears-same s.client d s.place x.cancelled) (λ g q. q)

  started :
      (r : Dispatched) → DispatchMade s.client r → Follows ptr id seen (some (after_start s r))
  started (failed e d) g = grown d g
  started (waiting p d) (q, a) = grown d (inr a)

  opens : (r : Opening) → OpeningMade s.client r → Follows ptr id seen (some (after_opening s r))
  opens (refused e d) g = grown d g
  opens (opened cs d) (q, a) = grown d (inr a)

  -- A stream of a user is another one.
  not_mine : (j : ℕ) (cs : ClientStream) → lookup j s.opened ≡ some cs → only cs.pointer ptr ≡ false
  not_mine j cs e = elim (Bool-cases (cs.pointer == ptr)) [
    | inr q ↦ q
    | inl q ↦ ground (arith, v.users j cs e)
  ]

  module _ (lib : Libraries) where
    ended :
        (p : ℕ) (pick first : Bool) (ctx : Option Error) (o : Option (Result Response × Client))
        → dispatch_end lib pick first ctx p s.client ≡ o
        → Follows ptr id seen (after_end p s o)
    ended p pick first ctx none e = tt
    ended p pick first ctx (some (r, d)) e =
        in_place nothing d
          (subst (Evolves nothing s.client)
            (dispatch_end-deletes lib pick first ctx p s.client d r e)
            (Evolves-delete_stream p s.client v.sound))
          refl

    received? :
        (j : ℕ) (cs : ClientStream) (o : Option Outcome)
        → lookup j s.opened ≡ some cs
        → OutcomeEvolves? (only cs.pointer) cs s.client o
        → Follows ptr id seen (after_method? j s o)
    received? j cs none h x = tt
    received? j cs (some o) h (p, x) = in_place (only cs.pointer) o.client x (not_mine j cs h)

    used :
        (j : ℕ) (e : Event) (o : Option ClientStream)
        → lookup j s.opened ≡ o
        → Follows ptr id seen (stream_step lib j e s o)
    unfolding stream_step
    used j e none h = tt
    used j (stream_close i) (some cs) h =
        in_place nothing (close_send cs s.client).client (close_send-Evolves cs s.client).1 refl
    used j (stream_send i p) (some cs) h =
        in_place nothing (send_msg p cs s.client).client (send_msg-Evolves p cs s.client).1 refl
    used j (stream_recv i unmarshal pick ctx) (some cs) h =
        received? j cs (recv_msg lib unmarshal pick ctx cs s.client) h
          (recv_msg-Evolves lib unmarshal pick ctx cs s.client v.sound)
    used j _ (some cs) h = tt

    -- `run` goes to another place, behind `recv`.
    goes_on :
        (t : ℕ → Bool) (d : Client) (q : Place)
        → Evolves t s.client d
        → t ptr ≡ false
        → is_receiving q ≡ false
        → ((got : Received) → q ≢ handing got ptr)
        → Follows ptr id seen (some (record s { client = d; place = q }))
    goes_on t d q x a r n =
        Evolves-Tracks t ptr id seen s.client d s.place q k x a
          (hears-down s.client d s.place q x.cancelled r) (λ g e. absurd (n g e))

    tested :
        s.place ≡ testing
        → Follows ptr id seen (
            some
              (record s { place = if s.client.cancelled then returned err_closed else receiving }))
    tested e =
        Evolves-Tracks nothing ptr id seen s.client s.client s.place _ k
          (unchanged nothing s.client) refl
          (λ x. elim (Bool-cases s.client.cancelled) [
            | inl y ↦ cc
            | inr n ↦ hears-live s.client s.place n
          ])
          (λ g x. absurd (not_handing s.client.cancelled g ptr x))

    -- A receiver that waits on another stream, or on this one, which is full
    handed :
        (p : ℕ) (st : Stream) (first pick : Bool) (got : Received)
        → s.place ≡ handing got p
        → lookup p s.client.store ≡ some st
        → (o : Wait (Option Error × Stream))
        → receive_waited first pick (context_error s.client) (message_of got) st ≡ o
        → Follows ptr id seen (after_hand p s o)
    handed p st first pick got e h blocked q = tt
    handed p st first pick got e h panics q = tt
    handed p st first pick got e h (done (x, u)) q = elim (Bool-cases (p == ptr)) [
      | inr other ↦
          let (i, c) =
            subst (WaitSame st) q
              (receive_waited-same first pick (context_error s.client) (message_of got) st) in
          goes_on (only p) (set_stream p u s.client) testing
            (Evolves-set_stream p st u s.client h i (λ y. c ∙ y)) other refl (λ g z. cc)
      | inl mine ↦
          let here : lookup ptr s.client.store ≡ some st =
            subst (λ j. lookup j s.client.store ≡ some st) ((nat_beq_iff p ptr).0 mine) h in
          let same = some-injective st k.stream (sym here ∙ k.here) in
          let (m, held) =
            k.holds.full got
              (subst (λ j. s.place ≡ handing got j) ((nat_beq_iff p ptr).0 mine) e) in
          let left =
            waited_full first pick (context_error s.client) (message_of got) m st
              (ap (λ (y : Stream). y.recv) same ∙ held) x u q in
          goes_on nothing (set_stream p u s.client) testing
            (Evolves-quiet p st u s.client h (ap (λ (y : Stream). y.id) left)
              (ap (λ (y : Stream). y.recv) left) (λ y. ap (λ (z : Stream). z.closed) left ∙ y))
            refl refl (λ g z. cc)
    ]

    hands :
        (p : ℕ) (first pick : Bool) (got : Received)
        → s.place ≡ handing got p
        → (o : Option Stream) → lookup p s.client.store ≡ o
        → Follows ptr id seen (hand_step first pick got p s o)
    unfolding hand_step
    hands p first pick got e none h = tt
    hands p first pick got e (some st) h = handed p st first pick got e h _ refl

    -- The actions of `run` but `recv`
    ran :
        (p : Place) (e : Event)
        → s.place ≡ p
        → ((pick : Bool) (got : Received) → e ≢ receive pick got)
        → Follows ptr id seen (run_step lib p e s)
    unfolding run_step
    ran testing test h n = tested h
    ran (handing got p) (hand first pick) h n =
        hands p first pick got h (lookup p s.client.store) refl
    ran (returned e) go_on h n =
        goes_on nothing (close s.client) (closing e) (Evolves-close s.client) refl refl (λ g z. cc)
    ran (closing e) go_on h n =
        goes_on nothing (cleanup_streams (some e) s.client) cleaned
          (Evolves-cleanup_streams (some e) s.client) refl refl (λ g z. cc)
    ran cleaned go_on h n =
        goes_on nothing (record s.client { user_closed = s.client.user_closed + 1 }) over
          (Evolves-same s.client _ refl refl refl refl (λ q. q)) refl refl (λ g z. cc)
    ran receiving (receive pick got) h n = absurd (n pick got refl)
    ran _ _ h n = tt

    listed : k.stream.closed ≡ false → lookup k.stream.id s.client.streams ≡ some ptr
    listed =
        let (st, here, l) = v.waited ptr w in
        subst (λ (x : Stream). x.closed ≡ false → lookup x.id s.client.streams ≡ some ptr)
          (some-injective st k.stream (sym here ∙ k.here)) l

    came :
        (p : Place) (pick : Bool) (got : Received)
        → s.place ≡ p
        → Follows ptr id
            (or_else seen (heard id (receive pick got)))
            (run_step lib p (receive pick got) s)
    unfolding run_step
    came receiving pick got h = follow (received_round lib pick got s.client) (
        round-RoundTracks lib pick got ptr id seen s.client v.sound
          (subst (Tracks ptr id seen s.client) h k) listed)
      where
        follow :
            (r : Round)
            → RoundTracks ptr id (or_else seen (heard id (receive pick got))) got s.client r
            → Follows ptr id
                (or_else seen (heard id (receive pick got)))
                (some (after_round got s r))
        follow (again d) x = x
        follow (ends e) x = x
        follow (waits p) x = x
    came _ pick got h = tt

    seen_after : (o : Option System) → Follows ptr id seen o → Follows ptr id (or_else seen none) o
    seen_after o f = subst (λ x. Follows ptr id x o) (sym (or_else-none seen)) f

    -- Behind every action the stream of a waiting call holds the first message that was received for it.
    pub step-Follows : (e : Event) → Follows ptr id (or_else seen (heard id e)) (step lib e s)
    unfolding step heard
    step-Follows (receive pick got) = came s.place pick got refl
    step-Follows (call req) =
        seen_after (step lib (call req) s)
          (started (dispatch_start lib req s.client) (dispatch_start-Made lib req s.client))
    step-Follows (Event.new_stream sends gets req) =
        seen_after (step lib (Event.new_stream sends gets req) s) (
          opens (new_stream_call lib sends gets req s.client)
            (new_stream_call-Made lib sends gets req s.client))
    step-Follows (call_end p pick first ctx) = elim (Bool-cases (contains p s.waiting)) [
      | inl y ↦ rw (y, step) (seen_after _ (ended p pick first ctx _ refl))
      | inr n ↦ rw (n, step) tt
    ]
    step-Follows user_close =
        seen_after (step lib user_close s)
          (in_place nothing (close s.client) (Evolves-close s.client) refl)
    step-Follows (stream_close j) = seen_after _ (used j (stream_close j) (lookup j s.opened) refl)
    step-Follows (stream_send j p) =
        seen_after _ (used j (stream_send j p) (lookup j s.opened) refl)
    step-Follows (stream_recv j unmarshal pick ctx) =
        seen_after _ (used j (stream_recv j unmarshal pick ctx) (lookup j s.opened) refl)
    step-Follows test = seen_after _ (ran s.place test refl (λ p g q. cc))
    step-Follows go_on = seen_after _ (ran s.place go_on refl (λ p g q. cc))
    step-Follows (hand first pick) = seen_after _ (ran s.place (hand first pick) refl (λ p g q. cc))
