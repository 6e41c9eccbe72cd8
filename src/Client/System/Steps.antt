-- ===== src/Client/System/Steps.antt =====
-- client.go: the client's invariant and the single actions of its calls and streams.
pub mod Rounds
use ttrpc.Prelude.{
  ℕ, ◌+◌, ◌≤◌, ◌<◌, ◌≡◌, subst, inl, inr, Bool, true, Option, none, some, List, ◌∷◌, arith, nat_eq,
  string_eq,
}
use ttrpc.Prelude.Assoc.{Assoc, lookup, insert, lookup-insert}
use ttrpc.Prelude.Sets.{contains, remove, contains-remove}
use ttrpc.Errors.{Error, Result}
use ttrpc.Channel.{Received}
use ttrpc.Request.{Libraries, Response}
use ttrpc.Client.{Client}
use ttrpc.Client.Calls.{Dispatched, failed, waiting, dispatch_end}
use ttrpc.Client.Streaming.{ClientStream, Opening, refused, opened, Outcome, close_send, send_msg}
use ttrpc.Client.System.{
  Place, handing, System, Event, call, stream_close, stream_send, stream_recv, after_start,
  after_end, after_opening, after_method, after_method?, stream_step,
}
use ttrpc.Client.System.Evolution.{Evolves, nothing, only}
use ttrpc.Client.System.Removal.{Evolves-delete_stream}
use ttrpc.Client.System.Growth.{DispatchMade, OpeningMade}
use ttrpc.Client.System.Effects.{dispatch_end-deletes}
use ttrpc.Client.System.Users.{
  OutcomeEvolves, OutcomeEvolves?, close_send-Evolves, send_msg-Evolves, recv_msg-Evolves,
}
use ttrpc.Client.System.Invariant.{
  is_shut, is_cleaned, Inv, HasRoom, Evolves-none, Evolves-Inv, Adds-Inv, call-Inv, open-Inv,
}

-- How many streams an action may make
abbrev pub makes : Event → ℕ
makes (call req) = 1
makes (Event.new_stream sends gets req) = 1
makes _ = 0

-- Calls wait only on streams on which they waited, or on new ones.
abbrev pub WaitsLess : System → System → Type 0
WaitsLess s t =
    (ptr : ℕ)
    → ptr < s.client.next_pointer
    → contains ptr t.waiting ≡ true
    → contains ptr s.waiting ≡ true

abbrev pub Advances : ℕ → System → System → Type 0
Advances n s t =
    (s.client.next_pointer ≤ t.client.next_pointer)
    × (t.client.next_pointer ≤ s.client.next_pointer + n)

-- The outcome of an action: not enabled, or the invariant holds, at most so many streams were made, and
-- no call waits again.
abbrev pub Keeps : System → ℕ → Option System → Type 0
Keeps s n none = Unit {0}
Keeps s n (some t) = Inv t × Advances n s t × WaitsLess s t

Evolves-Keeps :
    (t : ℕ → Bool) (s : System) (c : Client) (p : Place) (ws : List ℕ) (os : Assoc ℕ ClientStream)
    (e : Evolves t s.client c)
    → ((ptr : ℕ) → contains ptr ws ≡ true → contains ptr s.waiting ≡ true)
    → Inv (record { client = c; place = p; waiting = ws; opened = os })
    → Keeps s 0 (some (record { client = c; place = p; waiting = ws; opened = os }))
Evolves-Keeps t s c p ws os e w v = (v, omega (arith, e.same_pointer), λ ptr l. w ptr)

waited_before :
    (s : System) (ptr : ℕ)
    → ptr < s.client.next_pointer
    → contains ptr (s.client.next_pointer ∷ s.waiting) ≡ true
    → contains ptr s.waiting ≡ true
unfolding contains
waited_before s ptr l x = ground arith

pub start-Keeps :
    (s : System) (r : Dispatched)
    → Inv s
    → HasRoom s.client
    → DispatchMade s.client r
    → Keeps s 1 (some (after_start s r))
start-Keeps s (failed e d) v room (inl q) = rw q (v, omega arith, λ ptr l x. x)
start-Keeps s (failed e d) v room (inr a) = (
  Adds-Inv s d a v room s.waiting s.opened (λ ptr x. inl x)
      (λ ptr cs x. let (p, b, n) = v.users ptr cs x in (p, omega arith, n)),
  omega (arith, a.pointer),
  λ ptr l x. x,
)
start-Keeps s (waiting ptr d) v room (q, a) =
    rw q (call-Inv s d a v room, omega (arith, a.pointer), λ j l x. waited_before s j l x)

pub opening-Keeps :
    (s : System) (r : Opening)
    → Inv s
    → HasRoom s.client
    → OpeningMade s.client r
    → Keeps s 1 (some (after_opening s r))
opening-Keeps s (refused e d) v room (inl q) = rw q (v, omega arith, λ ptr l x. x)
opening-Keeps s (refused e d) v room (inr a) = (
  Adds-Inv s d a v room s.waiting s.opened (λ ptr x. inl x)
      (λ ptr cs x. let (p, b, n) = v.users ptr cs x in (p, omega arith, n)),
  omega (arith, a.pointer),
  λ ptr l x. x,
)
opening-Keeps s (opened cs d) v room (q, a) =
    (open-Inv s d a v room cs q, omega (arith, a.pointer), λ ptr l x. x)

-- The shut places stay so where the place and the map are kept.
pub end-Keeps :
    (lib : Libraries) (pick first : Bool) (ctx : Option Error) (ptr : ℕ) (s : System)
    (o : Option (Result Response × Client))
    → Inv s
    → dispatch_end lib pick first ctx ptr s.client ≡ o
    → Keeps s 0 (after_end ptr s o)
end-Keeps lib pick first ctx ptr s none v e = tt
end-Keeps lib pick first ctx ptr s (some (r, d)) v e =
    let x =
      subst (Evolves nothing s.client) (dispatch_end-deletes lib pick first ctx ptr s.client d r e)
        (Evolves-delete_stream ptr s.client v.sound) in
    Evolves-Keeps nothing s d s.place (remove ptr s.waiting) s.opened x
      (λ j q. ground (arith, contains-remove ptr j s.waiting))
      (Evolves-Inv nothing s d s.place (remove ptr s.waiting) s.opened v x
        (λ j q. ground (arith, contains-remove ptr j s.waiting))
        (λ j cs q.
          let (p, b, n) = v.users j cs q in (p, b, ground (arith, contains-remove ptr j s.waiting)))
        v.handed (λ q. x.cancelled (v.shut q))
        (λ q id. Evolves-none nothing id s.client d x (v.emptied q id)))

method-Keeps :
    (t : ℕ → Bool) (ptr : ℕ) (cs : ClientStream) (s : System) (o : Outcome)
    → Inv s
    → lookup ptr s.opened ≡ some cs
    → OutcomeEvolves t cs s.client o
    → Keeps s 0 (some (after_method ptr s o))
method-Keeps t ptr cs s o v h (p, x) =
    Evolves-Keeps t s o.client s.place s.waiting (insert ptr o.stream s.opened) x (λ j q. q)
      (Evolves-Inv t s o.client s.place s.waiting (insert ptr o.stream s.opened) v x (λ j q. q)
        (λ j us q.
          ground (arith, lookup-insert ptr j o.stream s.opened, v.users ptr cs h, v.users j us))
        v.handed (λ q. x.cancelled (v.shut q))
        (λ q id. Evolves-none t id s.client o.client x (v.emptied q id)))

method?-Keeps :
    (t : ℕ → Bool) (ptr : ℕ) (cs : ClientStream) (s : System) (o : Option Outcome)
    → Inv s
    → lookup ptr s.opened ≡ some cs
    → OutcomeEvolves? t cs s.client o
    → Keeps s 0 (after_method? ptr s o)
method?-Keeps t ptr cs s none v h x = tt
method?-Keeps t ptr cs s (some o) v h x = method-Keeps t ptr cs s o v h x

pub stream_step-Keeps :
    (lib : Libraries) (ptr : ℕ) (e : Event) (s : System) (o : Option ClientStream)
    → Inv s
    → lookup ptr s.opened ≡ o
    → Keeps s 0 (stream_step lib ptr e s o)
unfolding stream_step
stream_step-Keeps lib ptr e s none v h = tt
stream_step-Keeps lib ptr (stream_close j) s (some cs) v h =
    method-Keeps nothing ptr cs s (close_send cs s.client) v h (close_send-Evolves cs s.client)
stream_step-Keeps lib ptr (stream_send j p) s (some cs) v h =
    method-Keeps nothing ptr cs s (send_msg p cs s.client) v h (send_msg-Evolves p cs s.client)
stream_step-Keeps lib ptr (stream_recv j unmarshal pick ctx) s (some cs) v h =
    method?-Keeps (only cs.pointer) ptr cs s _ v h
      (recv_msg-Evolves lib unmarshal pick ctx cs s.client v.sound)
stream_step-Keeps lib ptr _ s (some cs) v h = tt

-- An action of `run`
pub run-Keeps :
    (t : ℕ → Bool) (s : System) (c : Client) (p : Place)
    → Inv s
    → Evolves t s.client c
    → ((got : Received) (ptr : ℕ) → p ≡ handing got ptr → ptr < s.client.next_pointer)
    → (is_shut p ≡ true → c.cancelled ≡ true)
    → (is_cleaned p ≡ true → (id : ℕ) → lookup id c.streams ≡ none)
    → Keeps s 0 (some (record s { client = c; place = p }))
run-Keeps t s c p v x g h k =
    Evolves-Keeps t s c p s.waiting s.opened x (λ j q. q)
      (Evolves-Inv t s c p s.waiting s.opened v x (λ j q. q) v.users g h k)
