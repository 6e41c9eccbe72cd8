-- ===== src/Client/System/Effects.antt =====
-- What each action but a new stream does to the client's streams.
use ttrpc.Prelude.{
  ℕ, ◌≡◌, refl, ◌∙◌, inl, inr, Bool, true, false, Option, none, some, arith, ◌==◌, nat_eq,
  string_eq, Bool-cases, Option-cases,
}
use ttrpc.Prelude.Assoc.{lookup}
use ttrpc.Errors.{Error, Result}
use ttrpc.Channel.{Received}
use ttrpc.Services.{Wait, done, blocked, panics}
use ttrpc.Request.{Libraries, Response}
use ttrpc.Stream.{
  Stream, StreamMessage, receive, receive_waited, Taken, message, fails, waits, take_message,
}
use ttrpc.Client.{
  Client, Round, again, ends, waits, received_round, to_inactive, to_stream, hand_over, message_of,
  delete_stream, get_stream, is_terminal,
}
use ttrpc.Client.Calls.{dispatch_taken, dispatch_end, early_case}
use ttrpc.Client.System.Evolution.{
  Evolves, nothing, only, Evolves-same, Evolves-set_stream, Evolves-close_with_error, Evolves-any,
}

-- `dispatch_end`: the stream is deleted, whatever the result.
dispatch_taken-deletes :
    (lib : Libraries) (ptr : ℕ) (c d : Client) (t : Taken) (r : Result Response)
    → dispatch_taken lib ptr c t ≡ some (r, d)
    → delete_stream ptr c ≡ d
unfolding dispatch_taken
dispatch_taken-deletes lib ptr c d (message m s) r e = cc
dispatch_taken-deletes lib ptr c d (fails none) r e = cc
dispatch_taken-deletes lib ptr c d (fails (some x)) r e = cc
dispatch_taken-deletes lib ptr c d Taken.waits r e = cc

pub dispatch_end-deletes :
    (lib : Libraries) (pick first : Bool) (ctx : Option Error) (ptr : ℕ) (c d : Client)
    (r : Result Response)
    → dispatch_end lib pick first ctx ptr c ≡ some (r, d)
    → delete_stream ptr c ≡ d
unfolding dispatch_end
dispatch_end-deletes lib pick first ctx ptr c d r e = elim (Option-cases (lookup ptr c.store)) [
  | inl q ↦ cc (rw (q, dispatch_end) at e)
  | inr (s, q) ↦
      dispatch_taken-deletes lib ptr c d (take_message pick (early_case first ctx c.cancelled) s) r
        (rw (q, dispatch_end) at e)
]

-- The two `select`s of `receive` put at most a message into the stream.
abbrev pub WaitSame : Stream → Wait (Option Error × Stream) → Type 0
WaitSame s (done (e, u)) = (u.id ≡ s.id) × (u.closed ≡ s.closed)
WaitSame s _ = Unit {0}

receive-same :
    (pick : Bool) (ctx : Option Error) (m : StreamMessage) (s : Stream)
    → WaitSame s (receive pick ctx m s)
unfolding receive
receive-same pick ctx m s = ground arith

pub receive_waited-same :
    (first pick : Bool) (ctx : Option Error) (m : StreamMessage) (s : Stream)
    → WaitSame s (receive_waited first pick ctx m s)
unfolding receive_waited
receive_waited-same first pick ctx m s = ground arith

-- Whether a pointer is the one that a message is for
abbrev pub aimed : Option ℕ → ℕ → Bool
aimed none j = false
aimed (some ptr) j = ptr == j

abbrev pub RoundEvolves : (ℕ → Bool) → Client → Round → Type 0
RoundEvolves t c (again d) = Evolves t c d
RoundEvolves t c (ends e) = Unit {0}
RoundEvolves t c (waits ptr) = t ptr ≡ true

pub unchanged : (t : ℕ → Bool) (c : Client) → Evolves t c c
unchanged t c = Evolves-any t c c (Evolves-same c c refl refl refl refl (λ x. x))

hand_over-Evolves :
    (ptr : ℕ) (st : Stream) (c : Client) (w : Wait (Option Error × Stream))
    → lookup ptr c.store ≡ some st
    → WaitSame st w
    → RoundEvolves (only ptr) c (hand_over ptr c w)
unfolding hand_over
hand_over-Evolves ptr st c (done (e, u)) h (i, k) = Evolves-set_stream ptr st u c h i (λ x. k ∙ x)
hand_over-Evolves ptr st c blocked h k = ground arith
hand_over-Evolves ptr st c panics h k = unchanged (only ptr) c

to_stream-Evolves :
    (pick : Bool) (got : Received) (ptr : ℕ) (c : Client) (o : Option Stream)
    → lookup ptr c.store ≡ o
    → RoundEvolves (only ptr) c (to_stream pick got ptr c o)
unfolding to_stream
to_stream-Evolves pick got ptr c none h = unchanged (only ptr) c
to_stream-Evolves pick got ptr c (some s) h = elim (Option-cases got.error) [
  | inl q ↦
      rw (q, to_stream) (hand_over-Evolves ptr s c _ h (receive-same pick _ (message_of got) s))
  | inr (e, q) ↦
      rw (q, to_stream) (Evolves-any (only ptr) c _ (Evolves-close_with_error (some e) ptr s c h))
]

to_inactive-Evolves :
    (pick : Bool) (got : Received) (c : Client) (o : Option ℕ)
    → RoundEvolves (aimed o) c (to_inactive pick got c o)
unfolding to_inactive
to_inactive-Evolves pick got c none = unchanged (aimed none) c
to_inactive-Evolves pick got c (some ptr) =
    to_stream-Evolves pick got ptr c (lookup ptr c.store) refl

-- A round of the receive loop touches the stream of the message's identifier.
pub received_round-Evolves :
    (lib : Libraries) (pick : Bool) (got : Received) (c : Client)
    → RoundEvolves (aimed (lookup got.header.stream_id c.streams)) c (received_round lib pick got c)
unfolding get_stream
received_round-Evolves lib pick got c = elim (Bool-cases (is_terminal lib got.error)) [
  | inl q ↦ rw q tt
  | inr q ↦ rw q (to_inactive-Evolves pick got c (lookup got.header.stream_id c.streams))
]

-- A frame that was too long closes its stream and touches no message.
pub error_round-Evolves :
    (lib : Libraries) (pick : Bool) (got : Received) (c : Client) (e : Error)
    → got.error ≡ some e
    → RoundEvolves nothing c (received_round lib pick got c)
unfolding get_stream to_inactive to_stream
error_round-Evolves lib pick got c e h = elim (Bool-cases (is_terminal lib got.error)) [
  | inl q ↦ rw q tt
  | inr q ↦ rw q (error_found (lookup got.header.stream_id c.streams))
]
  where
    to_found :
        (ptr : ℕ) (o : Option Stream)
        → lookup ptr c.store ≡ o
        → RoundEvolves nothing c (to_stream pick got ptr c o)
    to_found ptr none x = unchanged nothing c
    to_found ptr (some st) x = rw (h, to_stream) (Evolves-close_with_error (some e) ptr st c x)

    error_found : (o : Option ℕ) → RoundEvolves nothing c (to_inactive pick got c o)
    error_found none = unchanged nothing c
    error_found (some ptr) = to_found ptr (lookup ptr c.store) refl
