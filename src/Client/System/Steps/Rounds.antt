-- ===== src/Client/System/Steps/Rounds.antt =====
-- client.go: the client's invariant and the actions of `run` and `receiveLoop`.
use ttrpc.Prelude.{
  ℕ, ◌+◌, ◌<◌, ◌≡◌, refl, ap, ◌∙◌, subst, ◌≢◌, Bool, true, false, Option, none, some, arith,
  if◌then◌else◌, nat_eq, string_eq,
}
use ttrpc.Prelude.Assoc.{lookup}
use ttrpc.Errors.{Error}
use ttrpc.Channel.{Received}
use ttrpc.Services.{Wait, done, blocked, panics}
use ttrpc.Request.{Libraries}
use ttrpc.Stream.{Stream}
use ttrpc.Client.{
  err_closed, Round, again, ends, waits, set_stream, close, cleanup_streams, message_of,
}
use ttrpc.Client.System.{
  Place, testing, receiving, handing, returned, closing, cleaned, over, System, Event, test, go_on,
  receive, hand, after_round, after_hand, hand_step, run_step, context_error,
}
use ttrpc.Client.System.Evolution.{nothing, only, Evolves-same, Evolves-set_stream, Evolves-close}
use ttrpc.Client.System.Removal.{Evolves-cleanup_streams}
use ttrpc.Client.System.Effects.{
  unchanged, aimed, WaitSame, RoundEvolves, receive_waited-same, received_round-Evolves,
}
use ttrpc.Client.System.Invariant.{is_shut, is_cleaned, Inv}
use ttrpc.Client.System.Steps.{Keeps, run-Keeps}

handing-injective : (got got' : Received) (p q : ℕ) → handing got p ≡ handing got' q → p ≡ q
handing-injective got got' p q e = cc

pub not_handing :
    (b : Bool) (got : Received) (ptr : ℕ)
    → (if b then returned err_closed else receiving) ≢ handing got ptr
not_handing true got ptr e = cc
not_handing false got ptr e = cc

-- A message is for a stream that was made.
aimed_below :
    (s : System) (id : ℕ)
    → Inv s
    → (o : Option ℕ) → lookup id s.client.streams ≡ o
    → (ptr : ℕ) → aimed o ptr ≡ true
    → ptr < s.client.next_pointer
aimed_below s id v none e ptr a = cc
aimed_below s id v (some p) e ptr a =
    let (st, here, i) = v.sound.known id p e in ground (arith, v.sound.made p st here)

round-Keeps :
    (t : ℕ → Bool) (got : Received) (s : System) (r : Round)
    → Inv s
    → RoundEvolves t s.client r
    → ((ptr : ℕ) → t ptr ≡ true → ptr < s.client.next_pointer)
    → Keeps s 0 (some (after_round got s r))
round-Keeps t got s (again c) v x b = run-Keeps t s c testing v x (λ g j q. cc) (λ q. cc) (λ q. cc)
round-Keeps t got s (ends e) v x b =
    run-Keeps nothing s s.client (returned e) v (unchanged nothing s.client) (λ g j q. cc) (λ q. cc)
      (λ q. cc)
round-Keeps t got s (waits ptr) v x b =
    run-Keeps nothing s s.client (handing got ptr) v (unchanged nothing s.client)
      (λ g j q. b j (subst (λ i. t i ≡ true) (handing-injective got g ptr j q) x)) (λ q. cc)
      (λ q. cc)

hand-Keeps :
    (ptr : ℕ) (st : Stream) (s : System) (w : Wait (Option Error × Stream))
    → Inv s
    → lookup ptr s.client.store ≡ some st
    → WaitSame st w
    → Keeps s 0 (after_hand ptr s w)
hand-Keeps ptr st s (done (e, u)) v h (i, k) =
    run-Keeps (only ptr) s (set_stream ptr u s.client) testing v
      (Evolves-set_stream ptr st u s.client h i (λ x. k ∙ x)) (λ g j q. cc) (λ q. cc) (λ q. cc)
hand-Keeps ptr st s blocked v h k = tt
hand-Keeps ptr st s panics v h k = tt

hand_step-Keeps :
    (first pick : Bool) (got : Received) (ptr : ℕ) (s : System) (o : Option Stream)
    → Inv s
    → lookup ptr s.client.store ≡ o
    → Keeps s 0 (hand_step first pick got ptr s o)
unfolding hand_step
hand_step-Keeps first pick got ptr s none v h = tt
hand_step-Keeps first pick got ptr s (some st) v h =
    hand-Keeps ptr st s _ v h
      (receive_waited-same first pick (context_error s.client) (message_of got) st)

pub run_step-Keeps :
    (lib : Libraries) (p : Place) (e : Event) (s : System)
    → Inv s
    → s.place ≡ p
    → Keeps s 0 (run_step lib p e s)
unfolding run_step close cleanup_streams lookup
run_step-Keeps lib testing test s v h =
    run-Keeps nothing s s.client (if s.client.cancelled then returned err_closed else receiving) v
      (unchanged nothing s.client) (λ g j q. absurd (not_handing s.client.cancelled g j q))
      (λ q. ground arith) (λ q id. ground arith)
run_step-Keeps lib receiving (receive pick got) s v h =
    round-Keeps (aimed (lookup got.header.stream_id s.client.streams)) got s _ v
      (received_round-Evolves lib pick got s.client)
      (aimed_below s got.header.stream_id v (lookup got.header.stream_id s.client.streams) refl)
run_step-Keeps lib (handing got ptr) (hand first pick) s v h =
    hand_step-Keeps first pick got ptr s (lookup ptr s.client.store) v refl
run_step-Keeps lib (returned e) go_on s v h =
    run-Keeps nothing s (close s.client) (closing e) v (Evolves-close s.client) (λ g j q. cc)
      (λ q. refl) (λ q. cc)
run_step-Keeps lib (closing e) go_on s v h =
    run-Keeps nothing s (cleanup_streams (some e) s.client) cleaned v
      (Evolves-cleanup_streams (some e) s.client) (λ g j q. cc)
      (λ q. (Evolves-cleanup_streams (some e) s.client).cancelled (v.shut (ap is_shut h)))
      (λ q id. refl)
run_step-Keeps lib cleaned go_on s v h =
    run-Keeps nothing s (record s.client { user_closed = s.client.user_closed + 1 }) over v
      (Evolves-same s.client _ refl refl refl refl (λ q. q)) (λ g j q. cc)
      (λ q. v.shut (ap is_shut h)) (λ q. v.emptied (ap is_cleaned h))
run_step-Keeps lib _ _ s v h = tt
