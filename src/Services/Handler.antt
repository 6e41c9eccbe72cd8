-- ===== src/Services/Handler.antt =====
-- The server side of a stream: `data`, `closeSend` and `RecvMsg` on its channel.
use ttrpc.Prelude.{
  ℕ, zero, suc, ◌≤◌, ◌<◌, ◌≡◌, refl, ap, Bool, true, false, Option, none, some, List, [], ◌∷◌, ◌++◌,
  map, arith, nat_eq, string_eq, length, length-append,
}
use ttrpc.Errors.{Error, Result, ok, err, Slice, eof}
use ttrpc.Services.{
  StreamHandler, recv_capacity, Wait, done, blocked, panics, close_recv, close_send, put_recv,
  data_select, push_data, recv_empty, recv_select, recv_msg,
}

-- The channel is closed exactly when the peer's side is, and holds what it can at most.
pub record IsValid (s : StreamHandler) : Type 0 where
  pub in_step : s.recv_closed ≡ s.remote_closed
  pub within : length s.recv ≤ recv_capacity

-- The call does not panic, and where it does not wait its outcome is `P`.
abbrev pub Safe {ℓ} : {A : Type ℓ} → (A → Type 0) → Wait A → Type 0
Safe P (done a) = P a
Safe P blocked = Unit {0}
Safe P panics = ⊥

close_send-Safe :
    (s : StreamHandler) → IsValid s → Safe (λ (t : StreamHandler). IsValid t) (close_send s)
unfolding close_send close_recv
close_send-Safe s v = ground arith

put_recv-Safe :
    (s : StreamHandler) (p : Slice)
    → IsValid s
    → s.remote_closed ≡ false
    → Safe (λ (t : StreamHandler). IsValid t × (t.recv ≡ s.recv ++ p ∷ [])) (put_recv p s)
unfolding put_recv
put_recv-Safe s p v e = ground (arith, length-append s.recv (p ∷ []))

data_select-Safe :
    (s : StreamHandler) (pick : Bool) (p : Slice) (e : Option Error)
    → IsValid s
    → s.remote_closed ≡ false
    → Safe (λ (r : Option Error × StreamHandler). IsValid r.1) (data_select p s pick e)
unfolding data_select
data_select-Safe s pick p none v e = ground (arith, put_recv-Safe s p v e)
data_select-Safe s pick p (some x) v e = ground (arith, put_recv-Safe s p v e)

push_data-Safe :
    (s : StreamHandler) (pick : Bool) (p : Slice)
    → IsValid s
    → Safe (λ (r : Option Error × StreamHandler). IsValid r.1) (push_data pick p s)
unfolding push_data
push_data-Safe s pick p v = ground (arith, data_select-Safe s pick p s.ctx_error v)

recv_select-Safe :
    (pick : Bool) (q : List Slice) (e : Option Error) (s : StreamHandler)
    → IsValid s
    → s.recv ≡ q
    → Safe (λ (r : Result Slice × StreamHandler). IsValid r.1) (recv_select pick q e s)
unfolding recv_select recv_empty
recv_select-Safe pick [] none s v h = ground arith
recv_select-Safe pick [] (some e) s v h = ground arith
recv_select-Safe pick (p ∷ rest) none s v h = ground (arith, ap (λ (l : List Slice). length l) h)
recv_select-Safe pick (p ∷ rest) (some e) s v h =
    ground (arith, ap (λ (l : List Slice). length l) h)

recv_msg-Safe :
    (s : StreamHandler) (pick : Bool)
    → IsValid s
    → Safe (λ (r : Result Slice × StreamHandler). IsValid r.1) (recv_msg pick s)
unfolding recv_msg
recv_msg-Safe s pick v = recv_select-Safe pick s.recv s.ctx_error s v refl

-- On a handler whose channel is closed exactly when the peer's side is and holds at most five
-- payloads, `data` does not send on a closed channel and `closeSend` does not close it twice; both,
-- and `RecvMsg`, keep the handler so where they do not wait.
pub handler-Safe :
    (s : StreamHandler) (pick : Bool) (p : Slice)
    → IsValid s
    → Safe (λ (t : StreamHandler). IsValid t) (close_send s)
      × Safe (λ (r : Option Error × StreamHandler). IsValid r.1) (push_data pick p s)
      × Safe (λ (r : Result Slice × StreamHandler). IsValid r.1) (recv_msg pick s)
handler-Safe s pick p v = (close_send-Safe s v, push_data-Safe s pick p v, recv_msg-Safe s pick v)

-- `data` adds its payload behind those that wait, while the stream is open, its context is not done and
-- there is room.
pub push_data-queue :
    (s : StreamHandler) (pick : Bool) (p : Slice)
    → s.remote_closed ≡ false
    → s.recv_closed ≡ false
    → s.ctx_error ≡ none
    → length s.recv < recv_capacity
    → push_data pick p s ≡ done (none, record s { recv = s.recv ++ p ∷ [] })
unfolding push_data data_select put_recv
push_data-queue s pick p e c x l = ground arith

-- What a handler that calls `RecvMsg` `n` times gets.
pub drain : ℕ → StreamHandler → List (Result Slice)
drain zero s = []
drain (suc n) s = elim (recv_msg false s) [
  | done (r, t) ↦ r ∷ drain n t
  | blocked ↦ []
  | panics ↦ []
]

drain_queue :
    (q : List Slice) (s : StreamHandler)
    → s.recv ≡ q
    → s.recv_closed ≡ true
    → s.ctx_error ≡ none
    → drain (suc (length q)) s ≡ map ok q ++ err eof ∷ []
unfolding drain recv_msg recv_select recv_empty
drain_queue [] s h c e = ground arith
drain_queue (p ∷ rest) s h c e =
    ground (arith, drain_queue rest (record s { recv = rest }) refl c e)

-- After a `closeSend` on an open stream whose context is not done, the payloads that were sent are
-- still received, in the order in which they wait, and then the end of the stream: nothing is lost by
-- closing.
pub drain-close_send :
    (s t : StreamHandler)
    → s.remote_closed ≡ false
    → s.ctx_error ≡ none
    → close_send s ≡ done t
    → drain (suc (length s.recv)) t ≡ map ok s.recv ++ err eof ∷ []
unfolding close_send close_recv
drain-close_send s t o c e = ground (arith, drain_queue s.recv t)
