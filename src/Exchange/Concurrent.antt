-- ===== src/Exchange/Concurrent.antt =====
-- server.go and client.go: the client's interleaving reads what the server's has written.
pub mod Replies
pub mod Answers
use ttrpc.Prelude.{
  ℕ, zero, suc, ◌≡◌, refl, ◌∙◌, subst, inl, inr, Bool, Option, none, some, List, [], ◌∷◌, arith,
  Option-cases, All, Any, nat_beq_iff,
}
use ttrpc.Errors.{Error}
use ttrpc.Channel.{Received, recv, read_full, read_message_header}
use ttrpc.Channel.Recv.{recv-frame}
use ttrpc.Channel.Sequence.{Packet, Sendable, frames, recv_all, arrival, after_last}
use ttrpc.Stream.{StreamMessage}
use ttrpc.Client.{message_of}
use ttrpc.Client.System.{Event, receive}
use ttrpc.Client.System.Track.{heard, message_on, first_message}

-- What `recv` returned in the client's run, in order
unfoldable pub received_in : List Event → List Received
received_in [] = []
received_in (receive pick got ∷ es) = got ∷ received_in es
received_in (_ ∷ es) = received_in es

-- A whole message on an identifier
pub record IsMessage (id : ℕ) (m : StreamMessage) (got : Received) : Type 0 where
  pub whole : got.error ≡ none
  pub on_stream : got.header.stream_id ≡ id
  pub content : message_of got ≡ m

heard-IsMessage :
    (id : ℕ) (pick : Bool) (got : Received) (m : StreamMessage)
    → heard id (receive pick got) ≡ some m
    → IsMessage id m got
unfolding heard message_on
heard-IsMessage id pick got m e = ground (arith, nat_beq_iff got.header.stream_id id)

quiet :
    (id : ℕ) (e : Event) (m : StreamMessage) (es : List Event)
    → heard id e ≡ none
    → first_message id (e ∷ es) ≡ some m
    → first_message id es ≡ some m
unfolding first_message
quiet id e m es q h = rw q at h

first_message-Any :
    (id : ℕ) (m : StreamMessage) (es : List Event)
    → first_message id es ≡ some m
    → Any (IsMessage id m) (received_in es)
unfolding first_message received_in heard
first_message-Any id m [] e = cc
first_message-Any id m (receive pick got ∷ es) e =
    elim (Option-cases (message_on id got got.error)) [
      | inl q ↦ inr (first_message-Any id m es (quiet id (receive pick got) m es q e))
      | inr (x, q) ↦ inl (heard-IsMessage id pick got m (q ∙ (rw q at e)))
    ]
first_message-Any id m (x ∷ es) e = first_message-Any id m es (quiet id x m es refl e)

-- Behind the last frame, `recv` returns the error of the connection.
recv_at_end-reader :
    (fault : Error)
    → recv (record { pending = []; fault = fault })
      ≡ (after_last fault, record { pending = []; fault = fault })
unfolding recv read_message_header read_full
recv_at_end-reader fault = refl

recv_all-end :
    (Q : Received → Type 0) (fault : Error)
    → ((got : Received) → Q got → got.error ≡ none)
    → (n : ℕ) → ¬ Any Q (recv_all n (record { pending = []; fault = fault }))
unfolding recv_all
recv_all-end Q fault h zero a = a
recv_all-end Q fault h (suc n) a =
    elim (subst (λ x. Any Q (x.0 ∷ recv_all n x.1)) (recv_at_end-reader fault) a) [
      | inl q ↦ cc (h (after_last fault) q)
      | inr b ↦ recv_all-end Q fault h n b
    ]

-- What `recv` reads without an error from frames is one of their messages.
pub recv_all-Any :
    (Q : Received → Type 0) (fault : Error)
    → ((got : Received) → Q got → got.error ≡ none)
    → (n : ℕ) (ps : List Packet) → All Sendable ps
    → Any Q (recv_all n (record { pending = frames ps; fault = fault }))
    → Any (λ p. Q (arrival p)) ps
unfolding recv_all
recv_all-Any Q fault h zero ps s a = absurd a
recv_all-Any Q fault h (suc n) [] s a = absurd (recv_all-end Q fault h (suc n) a)
recv_all-Any Q fault h (suc n) (p ∷ ps) ((hs, ht, hf, hl), s) a =
    elim (subst (λ x. Any Q (x.0 ∷ recv_all n x.1))
      (recv-frame p.stream_id p.type p.flags p.payload (frames ps) fault hs ht hf hl) a) [
        | inl q ↦ inl q
        | inr b ↦ inr (recv_all-Any Q fault h n ps s b)
      ]
