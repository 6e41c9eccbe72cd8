-- ===== src/Server/Serve/Accepted.antt =====
-- What becomes of the connections that the accept loop takes.
use ttrpc.Prelude.{
  Bool-cases, ◌||◌, ℕ, ◌≡◌, refl, sym, ap, ◌∙◌, subst, inl, inr, Bool, true, false, Option, none,
  some, List, [], ◌∷◌, ◌++◌, append_assoc, append-nil, arith, if◌then◌else◌, nat_eq, string_eq,
  Option-cases,
}
use ttrpc.Errors.{Error, err_server_closed}
use ttrpc.Server.{
  close_conn, Server, new_conn, add_connection, registered, next_backoff, begin_serve,
  begin_shutdown, close_listeners, close_each_listener,
}
use ttrpc.Server.Serve.{
  meanwhile, choose_handshaker, Handshaker, Accept, connection, failure, Loop, Event, accepts,
  shuts_down, changes, enter, leave, pause, on_failure, refuse, start, greet, round, happens, serve,
}

-- The fate of what `Accept` returns, told without the server's state: which connections are served and
-- which are closed, and how the loop ends.
pub record Fate : Type 0 where
  pub served : List ℕ
  pub turned_away : List ℕ
  pub ending : Option Error

abbrev also_served : ℕ → Fate → Fate
also_served k f = record f { served = k ∷ f.served }

abbrev also_turned_away : ℕ → Fate → Fate
also_turned_away k f = record f { turned_away = k ∷ f.turned_away }

abbrev ends_with : Error → Fate
ends_with e = record { served = []; turned_away = []; ending = some e }

abbrev is_some : Option (ℕ → Option Error) → Bool
is_some none = false
is_some (some fails) = true

-- The Boolean says whether the server is shutting down, which may begin while a handshake runs.
unfoldable pub fate : Handshaker → Bool → List Event → Fate
fate h down [] = record { served = []; turned_away = []; ending = none }
fate h down (accepts (connection k mid) ∷ es) =
    let d = down || is_some mid in
    let f = fate h d es in
    elim (h k) [
      | some e ↦ also_turned_away k f
      | none ↦ if d then also_turned_away k f else also_served k f
    ]
fate h down (accepts (failure e temporary) ∷ es) =
    let f = fate h down es in
    if down then ends_with err_server_closed else if temporary then f else ends_with e
fate h down (shuts_down fails ∷ es) = fate h true es
fate h down (changes f ∷ es) = fate h down es

close_each_listener-done :
    (fails : ℕ → Option Error) (ls : List ℕ) (e : Option Error) (s : Server)
    → (close_each_listener fails ls e s).1.done ≡ s.done
unfolding close_each_listener
close_each_listener-done fails [] e s = refl
close_each_listener-done fails (l ∷ ls) e s = close_each_listener-done fails ls _ _

begin_shutdown-done :
    (fails : ℕ → Option Error) (s : Server) → (begin_shutdown fails s).1.done ≡ true
unfolding begin_shutdown close_listeners
begin_shutdown-done fails s = close_each_listener-done fails _ _ _

-- The loop has gone this way on from `x`.
abbrev Follows : Loop → Fate → Loop → Type 0
Follows x f y =
    (y.started ≡ x.started ++ f.served)
    × (y.refused ≡ x.refused ++ f.turned_away)
    × (y.result ≡ f.ending)

ended_serve :
    (h : Handshaker) (l : ℕ) (es : List Event) (e : Error) (x : Loop)
    → x.result ≡ some e
    → ((serve h l es x).started ≡ x.started)
      × ((serve h l es x).refused ≡ x.refused)
      × ((serve h l es x).result ≡ some e)
unfolding serve happens
ended_serve h l [] e x r = (refl, refl, r)
ended_serve h l (accepts a ∷ es) e x r =
    let same : happens h l (accepts a) x ≡ x = ground arith in
    rw (same, serve) (ended_serve h l es e x r)
ended_serve h l (shuts_down fails ∷ es) e x r = ended_serve h l es e _ r
ended_serve h l (changes f ∷ es) e x r = ended_serve h l es e _ r

ended-Follows :
    (h : Handshaker) (l : ℕ) (es : List Event) (e : Error) (x y : Loop)
    → y.started ≡ x.started
    → y.refused ≡ x.refused
    → y.result ≡ some e
    → Follows x (ends_with e) (serve h l es y)
ended-Follows h l es e x y s t r =
    let (a, b, c) = ended_serve h l es e y r in
    (a ∙ s ∙ sym (append-nil _), b ∙ t ∙ sym (append-nil _), c)

serve_one :
    (k : ℕ) (f : Fate) (x y z : Loop)
    → y.started ≡ x.started ++ k ∷ []
    → y.refused ≡ x.refused
    → Follows y f z
    → Follows x (also_served k f) z
serve_one k f x y z s t (a, b, c) = (
  a ∙ ap (λ w. w ++ f.served) s ∙ append_assoc x.started (k ∷ []) f.served,
  b ∙ ap (λ w. w ++ f.turned_away) t,
  c,
)

turn_one_away :
    (k : ℕ) (f : Fate) (x y z : Loop)
    → y.started ≡ x.started
    → y.refused ≡ x.refused ++ k ∷ []
    → Follows y f z
    → Follows x (also_turned_away k f) z
turn_one_away k f x y z s t (a, b, c) = (
  a ∙ ap (λ w. w ++ f.served) s,
  b ∙ ap (λ w. w ++ f.turned_away) t ∙ append_assoc x.refused (k ∷ []) f.turned_away,
  c,
)

-- What a shutdown during the handshake does to the loop: the server is shutting down.
meanwhile-same :
    (mid : Option (ℕ → Option Error)) (d : Bool) (x : Loop)
    → x.server.done ≡ d
    → let y = meanwhile mid x in
      (y.server.done ≡ (d || is_some mid))
      × (y.result ≡ x.result)
      × (y.started ≡ x.started)
      × (y.refused ≡ x.refused)
unfolding meanwhile
meanwhile-same none true x e = (e, refl, refl, refl)
meanwhile-same none false x e = (e, refl, refl, refl)
meanwhile-same (some fails) true x e = (begin_shutdown-done fails x.server, refl, refl, refl)
meanwhile-same (some fails) false x e = (begin_shutdown-done fails x.server, refl, refl, refl)

-- A connection in a round of the running loop is started, or is closed, where the handshake fails or
-- the server is shutting down.
module _ (k : ℕ) (x : Loop) where
  greet-start :
      x.server.done ≡ false
      → let y = greet k none x in
        (y.result ≡ x.result)
        × (y.server.done ≡ false)
        × (y.started ≡ x.started ++ k ∷ [])
        × (y.refused ≡ x.refused)
  unfolding greet start new_conn registered add_connection
  greet-start e = ground arith

  greet-late :
      x.server.done ≡ true
      → let y = greet k none x in
        (y.result ≡ x.result)
        × (y.server.done ≡ true)
        × (y.started ≡ x.started)
        × (y.refused ≡ x.refused ++ k ∷ [])
  unfolding greet refuse start new_conn registered add_connection close_conn
  greet-late e = ground arith

module _ (h : Handshaker) (l : ℕ) where
  abbrev Goes : List Event → Type 0
  Goes es =
      (d : Bool) (x : Loop)
      → x.server.done ≡ d
      → x.result ≡ none
      → Follows x (fate h d es) (serve h l es x)

  -- A call of `Accept` while the loop runs
  round-Follows :
      (a : Accept) (es : List Event) (d : Bool) (f : Fate) (x y : Loop)
      → x.result ≡ none
      → round h l a x ≡ y
      → fate h d (accepts a ∷ es) ≡ f
      → Follows x f (serve h l es y)
      → Follows x (fate h d (accepts a ∷ es)) (serve h l (accepts a ∷ es) x)
  unfolding serve happens
  round-Follows a es d f x y r e q t =
      let now : happens h l (accepts a) x ≡ y = ground (arith, e) in
      subst (λ g. Follows x g (serve h l (accepts a ∷ es) x)) (sym q)
        (subst (λ z. Follows x f (serve h l es z)) (sym now) t)

  serve-approved :
      (k : ℕ) (mid : Option (ℕ → Option Error)) (es : List Event)
      → Goes es
      → h k ≡ none
      → Goes (accepts (connection k mid) ∷ es)
  unfolding round fate
  serve-approved k mid es ih q d x e r =
      let z = meanwhile mid (record x { backoff = 0 }) in
      let y = greet k none z in
      let (now, same, s0, t0) = meanwhile-same mid d (record x { backoff = 0 }) e in
      elim (Bool-cases (d || is_some mid)) [
        | inr up ↦
            let (still, up', s, t) = greet-start k z (now ∙ up) in
            round-Follows (connection k mid) es d (also_served k (fate h false es)) x y r
              (rw q refl) (rw (q, up, fate) refl)
              (serve_one k (fate h false es) x y (serve h l es y) (s ∙ ap (λ v. v ++ k ∷ []) s0)
                (t ∙ t0) (ih false y up' (still ∙ same ∙ r)))
        | inl down ↦
            let (still, down', s, t) = greet-late k z (now ∙ down) in
            round-Follows (connection k mid) es d (also_turned_away k (fate h true es)) x y r
              (rw q refl) (rw (q, down, fate) refl)
              (turn_one_away k (fate h true es) x y (serve h l es y) (s ∙ s0)
                (t ∙ ap (λ v. v ++ k ∷ []) t0) (ih true y down' (still ∙ same ∙ r)))
      ]

  serve-connection :
      (k : ℕ) (mid : Option (ℕ → Option Error)) (es : List Event)
      → Goes es
      → Goes (accepts (connection k mid) ∷ es)
  unfolding round fate greet refuse
  serve-connection k mid es ih d x e r = elim (Option-cases (h k)) [
    | inr (g, q) ↦
        let z = meanwhile mid (record x { backoff = 0 }) in
        let y = refuse k z in
        let (now, same, s0, t0) = meanwhile-same mid d (record x { backoff = 0 }) e in
        let f = fate h (d || is_some mid) es in
        round-Follows (connection k mid) es d (also_turned_away k f) x y r (rw q refl)
          (rw (q, fate) refl)
          (turn_one_away k f x y (serve h l es y) s0 (ap (λ v. v ++ k ∷ []) t0)
            (ih (d || is_some mid) y now (same ∙ r)))
    | inl q ↦ serve-approved k mid es ih q d x e r
  ]

  serve-failure :
      (g : Error) (t : Bool) (es : List Event) → Goes es → Goes (accepts (failure g t) ∷ es)
  unfolding round fate on_failure leave pause
  serve-failure g t es ih true x e r =
      let y = leave l err_server_closed x in
      round-Follows (failure g t) es true (ends_with err_server_closed) x y r
        (rw (e, on_failure) refl) refl (ended-Follows h l es err_server_closed x y refl refl refl)
  serve-failure g false es ih false x e r =
      let y = leave l g x in
      round-Follows (failure g false) es false (ends_with g) x y r (rw (e, on_failure) refl) refl
        (ended-Follows h l es g x y refl refl refl)
  serve-failure g true es ih false x e r =
      let y = pause (next_backoff x.backoff) x in
      round-Follows (failure g true) es false (fate h false es) x y r (rw (e, on_failure) refl) refl
        (ih false y e r)

  serve-fate : (es : List Event) → Goes es
  unfolding serve happens fate
  serve-fate [] d x e r = (sym (append-nil _), sym (append-nil _), r)
  serve-fate (accepts (connection k mid) ∷ es) d x e r =
      serve-connection k mid es (serve-fate es) d x e r
  serve-fate (accepts (failure g t) ∷ es) d x e r = serve-failure g t es (serve-fate es) d x e r
  serve-fate (shuts_down fails ∷ es) d x e r =
      serve-fate es true _ (begin_shutdown-done fails x.server) r
  serve-fate (changes f ∷ es) d x e r = serve-fate es d _ e r

-- However the calls of `Accept`, a shutdown and the ends of connections follow one another, a `Serve` that
-- was called before the shutdown starts `run` for just those connections whose handshake the handshaker
-- approves and ends before the shutdown begins, in order; it closes every other connection that it accepts,
-- in order; and it returns at the first failure of `Accept` that is not temporary or comes behind the
-- shutdown, with that failure or with ErrServerClosed.
pub accepted_fate :
    (h : Option Handshaker) (l : ℕ) (es : List Event) (s : Server)
    → s.done ≡ false
    → let y = serve (choose_handshaker h) l es (enter l s) in
      let f = fate (choose_handshaker h) false es in
      (y.started ≡ f.served) × (y.refused ≡ f.turned_away) × (y.result ≡ f.ending)
unfolding enter begin_serve
accepted_fate h l es s e =
    let begun : (enter l s).result ≡ none = rw (e, begin_serve) refl in
    let up : (enter l s).server.done ≡ false = rw (e, begin_serve) refl in
    let (a, b, c) = serve-fate (choose_handshaker h) l es false (enter l s) up begun in (a, b, c)
