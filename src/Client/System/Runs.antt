-- ===== src/Client/System/Runs.antt =====
-- Runs of the client keep the invariant.
use ttrpc.Prelude.{
  ℕ, ◌+◌, ◌≤◌, ◌<◌, ◌≡◌, refl, subst, inl, inr, false, some, List, [], ◌∷◌, arith, nat_eq,
  string_eq, Bool-cases, Option-cases,
}
use ttrpc.Prelude.Assoc.{lookup}
use ttrpc.Prelude.Sets.{contains}
use mathlib.Core.Option.{some-injective}
use ttrpc.Channel.{Writer}
use ttrpc.Request.{Libraries}
use ttrpc.Client.{new_client, close}
use ttrpc.Client.Calls.{dispatch_start}
use ttrpc.Client.Streaming.{new_stream_call}
use ttrpc.Client.System.{
  System, Event, call, call_end, test, go_on, user_close, receive, hand, stream_close, stream_send,
  stream_recv, run, start, step,
}
use ttrpc.Client.System.Evolution.{nothing, Evolves-close}
use ttrpc.Client.System.Growth.{dispatch_start-Made, new_stream_call-Made}
use ttrpc.Client.System.Invariant.{Inv, HasRoom, Evolves-none}
use ttrpc.Client.System.Steps.{
  makes, Keeps, start-Keeps, opening-Keeps, end-Keeps, stream_step-Keeps, run-Keeps,
}
use ttrpc.Client.System.Steps.Rounds.{run_step-Keeps}

-- How many streams a run may make
unfoldable pub made_by : List Event → ℕ
made_by [] = 0
made_by (e ∷ es) = makes e + made_by es

module _ (lib : Libraries) where
  -- Every action keeps the invariant, if the next identifier is not the last.
  pub step-Keeps :
      (s : System) → Inv s → HasRoom s.client → (e : Event) → Keeps s (makes e) (step lib e s)
  unfolding step
  step-Keeps s v room (call req) =
      start-Keeps s (dispatch_start lib req s.client) v room (dispatch_start-Made lib req s.client)
  step-Keeps s v room (Event.new_stream sends gets req) =
      opening-Keeps s (new_stream_call lib sends gets req s.client) v room
        (new_stream_call-Made lib sends gets req s.client)
  step-Keeps s v room (call_end ptr pick first ctx) = elim (Bool-cases (contains ptr s.waiting)) [
    | inl q ↦ rw (q, step) ((end-Keeps lib pick first ctx ptr s _ v refl))
    | inr q ↦ rw (q, step) tt
  ]
  step-Keeps s v room user_close =
      (run-Keeps nothing s (close s.client) s.place v (Evolves-close s.client) v.handed
        (λ q. (Evolves-close s.client).cancelled (v.shut q))
        (λ q id. Evolves-none nothing id s.client _ (Evolves-close s.client) (v.emptied q id)))
  step-Keeps s v room (stream_close ptr) = (stream_step-Keeps lib ptr (stream_close ptr) s _ v refl)
  step-Keeps s v room (stream_send ptr p) =
      (stream_step-Keeps lib ptr (stream_send ptr p) s _ v refl)
  step-Keeps s v room (stream_recv ptr unmarshal pick ctx) =
      (stream_step-Keeps lib ptr (stream_recv ptr unmarshal pick ctx) s _ v refl)
  step-Keeps s v room test = (run_step-Keeps lib s.place test s v refl)
  step-Keeps s v room go_on = (run_step-Keeps lib s.place go_on s v refl)
  step-Keeps s v room (receive pick got) = (run_step-Keeps lib s.place (receive pick got) s v refl)
  step-Keeps s v room (hand first pick) = (run_step-Keeps lib s.place (hand first pick) s v refl)

  -- A run keeps the invariant.
  pub run-Keeps_all :
      (es : List Event) (s t : System)
      → Inv s
      → s.client.next_pointer + made_by es < 2147483647
      → run lib es s ≡ some t
      → Inv t × (t.client.next_pointer ≤ s.client.next_pointer + made_by es)
  unfolding run made_by
  run-Keeps_all [] s t v room e = subst Q (some-injective s t e) (v, omega arith)
    where
      Q : System → Type 0
      Q x = Inv x × (x.client.next_pointer ≤ s.client.next_pointer + 0)
  run-Keeps_all (x ∷ es) s t v room e = elim (Option-cases (step lib x s)) [
    | inl q ↦ cc (rw (q, run) at e)
    | inr (u, q) ↦
        let (w, b, l) = rw q at (step-Keeps s v (omega (arith, v.sound.next)) x) in
        let (w', b') = run-Keeps_all es u t w (omega (arith, b)) (rw (q, run) at e) in
        (w', omega (arith, b, b'))
  ]

  -- A call that is over does not wait again.
  pub run-over :
      (es : List Event) (s t : System) (ptr : ℕ)
      → Inv s
      → s.client.next_pointer + made_by es < 2147483647
      → run lib es s ≡ some t
      → ptr < s.client.next_pointer
      → contains ptr s.waiting ≡ false
      → contains ptr t.waiting ≡ false
  unfolding run made_by
  run-over [] s t ptr v room e below n =
      subst (λ (x : System). contains ptr x.waiting ≡ false) (some-injective s t e) n
  run-over (x ∷ es) s t ptr v room e below n = elim (Option-cases (step lib x s)) [
    | inl q ↦ cc (rw (q, run) at e)
    | inr (u, q) ↦
        let (w, b, l) = rw q at (step-Keeps s v (omega (arith, v.sound.next)) x) in
        run-over es u t ptr w (omega (arith, b)) (rw (q, run) at e) (omega (arith, b))
          (elim (Bool-cases (contains ptr u.waiting)) [ inl y ↦ cc (l ptr below y) | inr y ↦ y ])
  ]

  pub start-Inv : (w : Writer) → Inv (start w)
  unfolding start new_client contains lookup
  start-Inv w = record {
    sound = record { known = λ id ptr e. cc; made = λ ptr st e. cc; next = refl };
    waited = λ ptr e. cc;
    below = λ ptr e. cc;
    users = λ ptr cs e. cc;
    handed = λ got ptr e. cc;
    shut = λ e. cc;
    emptied = λ e id. refl;
  }

  -- In every state that a new client reaches by calls, streams, the receive loop and Close in any order,
  -- before its identifiers come round: the map leads from an identifier to the one stream that has it, a
  -- stream on which a call waits is registered as long as it is open and is no user's, the receive loop
  -- waits on no stream but one that was made, and behind the cleanup the map is empty for good.
  pub run-start-Inv :
      (w : Writer) (es : List Event) (t : System)
      → made_by es < 2147483647
      → run lib es (start w) ≡ some t
      → Inv t
  unfolding start new_client
  run-start-Inv w es t few e = (run-Keeps_all es (start w) t (start-Inv w) (omega (arith, few)) e).0
