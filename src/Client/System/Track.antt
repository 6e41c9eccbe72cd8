-- ===== src/Client/System/Track.antt =====
-- The stream of one call, followed through the client's interleaving: it holds the first message that
-- was received on its identifier.
use ttrpc.Prelude.{
  ℕ, ◌≡◌, refl, sym, ◌∙◌, ◌≢◌, inl, inr, Bool, true, false, not, Option, none, some, List, [], ◌∷◌,
  arith, if◌then◌else◌, ◌==◌, nat_eq, string_eq, Bool-cases,
}
use ttrpc.Prelude.Assoc.{lookup}
use ttrpc.Errors.{Error, ctx_canceled}
use ttrpc.Channel.{Received}
use ttrpc.Services.{Wait, done, blocked, panics}
use ttrpc.Stream.{Stream, StreamMessage, receive}
use ttrpc.Client.{Client, message_of}
use ttrpc.Client.System.{Place, receiving, handing, Event}
use ttrpc.Client.System.Evolution.{open_before, Sound, Evolves}
use ttrpc.Client.System.Growth.{Adds}

-- The message that an event brings on an identifier, and the first that a run brings on it
unfoldable pub message_on : ℕ → Received → Option Error → Option StreamMessage
message_on id got none = if got.header.stream_id == id then some (message_of got) else none
message_on id got (some e) = none

unfoldable pub heard : ℕ → Event → Option StreamMessage
heard id (Event.receive pick got) = message_on id got got.error
heard id _ = none

abbrev pub or_else : Option StreamMessage → Option StreamMessage → Option StreamMessage
or_else none o = o
or_else (some m) o = some m

unfoldable pub first_message : ℕ → List Event → Option StreamMessage
first_message id [] = none
first_message id (e ∷ es) = or_else (heard id e) (first_message id es)

-- Whether a message that comes on the identifier can still reach the stream
abbrev pub hears : Client → Place → Bool
hears c receiving = true
hears c _ = not c.cancelled

pub hears-live : (c : Client) (p : Place) → c.cancelled ≡ false → hears c p ≡ true
hears-live c receiving e = refl
hears-live c _ e = rw e

abbrev pub is_receiving : Place → Bool
is_receiving receiving = true
is_receiving _ = false

hears-cancelled :
    (c : Client) (p : Place) → c.cancelled ≡ true → is_receiving p ≡ false → hears c p ≡ false
hears-cancelled c receiving e r = cc
hears-cancelled c _ e r = rw e

-- Nobody who was deaf hears again, but in `recv`.
pub hears-down :
    (c d : Client) (p q : Place)
    → (c.cancelled ≡ true → d.cancelled ≡ true)
    → is_receiving q ≡ false
    → hears d q ≡ true
    → hears c p ≡ true
hears-down c d p q h r e = elim (Bool-cases c.cancelled) [
  | inl y ↦ cc (hears-cancelled d q (h y) r)
  | inr n ↦ hears-live c p n
]

pub hears-same :
    (c d : Client) (p : Place)
    → (c.cancelled ≡ true → d.cancelled ≡ true)
    → hears d p ≡ true
    → hears c p ≡ true
hears-same c d p h e = elim (Bool-cases (is_receiving p)) [
  | inr n ↦ hears-down c d p p h n e
  | inl y ↦ in_recv p y
]
  where
    in_recv : (p : Place) → is_receiving p ≡ true → hears c p ≡ true
    in_recv receiving y = refl
    in_recv _ y = cc

-- What the stream holds, of what was `seen`
pub record Holds (c : Client) (p : Place) (ptr : ℕ) (seen : Option StreamMessage) (st : Stream)
    : Type 0 where
  pub content : (m : StreamMessage) → st.recv ≡ some m → seen ≡ some m
  pub unheard : hears c p ≡ true → st.closed ≡ false → st.recv ≡ none → seen ≡ none
  pub full : (got : Received) → p ≡ handing got ptr → (m : StreamMessage) × (st.recv ≡ some m)

pub record Tracks (ptr id : ℕ) (seen : Option StreamMessage) (c : Client) (p : Place) : Type 0 where
  pub stream : Stream
  pub here : lookup ptr c.store ≡ some stream
  pub number : stream.id ≡ id
  pub holds : Holds c p ptr seen stream

-- An action that leaves the stream's message alone
pub Evolves-Tracks :
    (t : ℕ → Bool) (ptr id : ℕ) (seen : Option StreamMessage) (c d : Client) (p q : Place)
    → Tracks ptr id seen c p
    → Evolves t c d
    → t ptr ≡ false
    → (hears d q ≡ true → hears c p ≡ true)
    → ((got : Received) → q ≡ handing got ptr → p ≡ handing got ptr)
    → Tracks ptr id seen d q
Evolves-Tracks t ptr id seen c d p q k v away h f =
    let (u, there, i, shut, same, listed) = v.stays ptr k.stream k.here in
    let r = same away in
    record {
      stream = u;
      here = there;
      number = i ∙ k.number;
      holds = record {
        content = λ m e. k.holds.content m (sym r ∙ e);
        unheard = λ x y e. k.holds.unheard (h x) (open_before k.stream u shut y) (sym r ∙ e);
        full = λ got e. let (m, g) = k.holds.full got (f got e) in (m, r ∙ g);
      };
    }

-- A new stream leaves the others alone.
pub Adds-Tracks :
    (ptr id : ℕ) (seen : Option StreamMessage) (c d : Client) (p : Place)
    → Tracks ptr id seen c p
    → Sound c
    → Adds c d
    → Tracks ptr id seen d p
Adds-Tracks ptr id seen c d p k v a = record {
  stream = k.stream;
  here = ground (arith, a.store ptr, v.made ptr k.stream k.here, k.here);
  number = k.number;
  holds = record {
    content = k.holds.content;
    unheard = λ x y e. k.holds.unheard (hears-live c p a.live) y e;
    full = k.holds.full;
  };
}

-- `receive` on the stream, open or closed, with the client cancelled or not
abbrev pub Handed :
    Bool → Option StreamMessage → StreamMessage → Stream → Wait (Option Error × Stream) → Type 0
Handed live seen m st (done (e, u)) =
    (u.id ≡ st.id)
    × ((x : StreamMessage) → u.recv ≡ some x → or_else seen (some m) ≡ some x)
    × (live ≡ true → u.closed ≡ false → u.recv ≢ none)
Handed live seen m st blocked = (x : StreamMessage) × (st.recv ≡ some x)
Handed live seen m st panics = ⊥

receive-Handed_fields :
    (pick cancelled : Bool) (seen : Option StreamMessage) (m : StreamMessage) (id : ℕ)
    (recv : Option StreamMessage) (e : Option Error) (closed : Bool)
    → ((x : StreamMessage) → recv ≡ some x → seen ≡ some x)
    → (closed ≡ false → recv ≡ none → seen ≡ none)
    → Handed
        (not cancelled)
        seen
        m
        (record { id = id; recv = recv; recv_err = e; closed = closed })
        (receive pick
          (if cancelled then some ctx_canceled else none)
          m
          (record { id = id; recv = recv; recv_err = e; closed = closed }))
unfolding receive
receive-Handed_fields pick cancelled seen m id recv e true h k =
    (refl, λ x q. rw (h x q) refl, λ l q. cc)
receive-Handed_fields pick false seen m id none e false h k =
    (refl, λ x q. rw (k refl refl) q, λ l q n. cc)
receive-Handed_fields true true seen m id none e false h k = (refl, λ x q. cc, λ l. cc)
receive-Handed_fields false true seen m id none e false h k =
    (refl, λ x q. rw (k refl refl) q, λ l q n. cc)
receive-Handed_fields pick false seen m id (some y) e false h k = (y, refl)
receive-Handed_fields pick true seen m id (some y) e false h k =
    (refl, λ x q. rw (h x q) refl, λ l q. cc)

pub receive-Handed :
    (pick cancelled : Bool) (seen : Option StreamMessage) (m : StreamMessage) (st : Stream)
    → ((x : StreamMessage) → st.recv ≡ some x → seen ≡ some x)
    → (st.closed ≡ false → st.recv ≡ none → seen ≡ none)
    → Handed
        (not cancelled)
        seen
        m
        st
        (receive pick (if cancelled then some ctx_canceled else none) m st)
receive-Handed pick cancelled seen m st h k =
    receive-Handed_fields pick cancelled seen m st.id st.recv st.recv_err st.closed h k
