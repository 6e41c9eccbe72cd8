-- ===== src/Server/Serve/Pauses.antt =====
-- The pauses of the accept loop.
use ttrpc.Prelude.{
  ℕ, suc, ◌*◌, ◌^◌, min, ◌≡◌, sym, ap, ◌∙◌, inl, inr, true, false, none, List, [], ◌∷◌, ◌++◌,
  append_assoc, append-nil, arith, nat_eq, string_eq, Option-cases,
}
use ttrpc.Errors.{Error}
use ttrpc.Server.{millisecond, second, new_conn, add_connection, registered}
use ttrpc.Server.Backoff.{backoff_after, backoff_after_lem}
use ttrpc.Server.Serve.{
  meanwhile, Handshaker, connection, failure, Loop, Event, accepts, pause, on_failure, refuse,
  start, greet, round, happens, serve,
}

-- Temporary failures one behind the other
abbrev pub failing : List Error → List Event
failing [] = []
failing (e ∷ es) = accepts (failure e true) ∷ failing es

-- One millisecond, doubled `n` times, but at most a second, and so on for each failure
abbrev pub doublings : ℕ → List Error → List ℕ
doublings n [] = []
doublings n (e ∷ es) = min second (millisecond * 2 ^ n) ∷ doublings (suc n) es

failure_round :
    (h : Handshaker) (l n : ℕ) (e : Error) (x : Loop)
    → x.server.done ≡ false
    → x.result ≡ none
    → x.backoff ≡ backoff_after n
    → happens h l (accepts (failure e true)) x ≡ pause (min second (millisecond * 2 ^ n)) x
unfolding happens round on_failure backoff_after
failure_round h l n e x d r b = ground (arith, backoff_after_lem n)

failing-pauses :
    (h : Handshaker) (l n : ℕ) (errs : List Error) (x : Loop)
    → x.server.done ≡ false
    → x.result ≡ none
    → x.backoff ≡ backoff_after n
    → ((serve h l (failing errs) x).pauses ≡ x.pauses ++ doublings n errs)
      × ((serve h l (failing errs) x).result ≡ none)
unfolding serve pause
failing-pauses h l n [] x d r b = (sym (append-nil _), r)
failing-pauses h l n (e ∷ es) x d r b =
    let m = min second (millisecond * 2 ^ n) in
    let (p, q) = failing-pauses h l (suc n) es (pause m x) d r (sym (backoff_after_lem n).0) in
    rw (failure_round h l n e x d r b, serve)
      (p ∙ append_assoc x.pauses (m ∷ []) (doublings (suc n) es), q)

connection_round :
    (h : Handshaker) (l k : ℕ) (x : Loop)
    → x.server.done ≡ false
    → x.result ≡ none
    → let y = happens h l (accepts (connection k none)) x in
      (y.pauses ≡ x.pauses) × (y.server.done ≡ false) × (y.result ≡ none) × (y.backoff ≡ 0)
unfolding happens round meanwhile greet refuse start new_conn registered add_connection
connection_round h l k x d r = elim (Option-cases (h k)) [
  | inl q ↦ ground (arith, q)
  | inr (g, q) ↦ ground (arith, q)
]

-- While the server is not shutting down, temporary failures of `Accept` behind a connection, however many
-- and whatever they are, make the loop pause once each and do not end it; the first pause is bounded by one
-- millisecond and each further one by twice the bound before, but by no more than a second, whatever the
-- backoff was before the connection.
pub failures_back_off :
    (h : Handshaker) (l k : ℕ) (errs : List Error) (x : Loop)
    → x.server.done ≡ false
    → x.result ≡ none
    → let y = serve h l (accepts (connection k none) ∷ failing errs) x in
      (y.pauses ≡ x.pauses ++ doublings 0 errs) × (y.result ≡ none)
unfolding serve backoff_after
failures_back_off h l k errs x d r =
    let y = happens h l (accepts (connection k none)) x in
    let (p, d', r', b) = connection_round h l k x d r in
    let (q, t) = failing-pauses h l 0 errs y d' r' b in (q ∙ ap (λ w. w ++ doublings 0 errs) p, t)
