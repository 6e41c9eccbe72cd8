-- ===== src/Exchange/Streaming/Interleaved.antt =====
-- A stream of any length: the handler receives while the client sends.
use ttrpc.Prelude.{
  ℕ, ◌+◌, ◌-◌, ◌≤◌, ◌<◌, ◌≡◌, refl, sym, ap, ◌∙◌, subst, Bool, false, Option, none, some, List, [],
  ◌∷◌, ◌++◌, append_assoc, append-nil, arith, nat_eq, string_eq, length, length-append,
}
use ttrpc.Prelude.Assoc.{lookup, insert, lookup-insert_self}
use ttrpc.Errors.{Error, Result, ok, err, Slice, message_length_max}
use ttrpc.Channel.{slice_length, as_received}
use ttrpc.Request.{Libraries}
use ttrpc.Services.{
  ServiceSet, StreamHandler, recv_capacity, Wait, done, blocked, panics, recv_msg, recv_select,
}
use ttrpc.Client.Streaming.{send_msg}
use ttrpc.Conn.System.{job_recv, job_receives, job_takes, run, step, act}
use ttrpc.Exchange.Streaming.{Ends, ends, Uploading, relay, queued, message_up}

-- The client sends a message, which the server's receiver reads, or the handler receives one.
pub data Act : Type 0 where
  sends : Slice → Act
  takes : Act

-- The messages that these acts send
abbrev pub sent_by : List Act → List Slice
sent_by [] = []
sent_by (sends p ∷ acts) = as_received p ∷ sent_by acts
sent_by (takes ∷ acts) = sent_by acts

-- With `n` payloads in the channel, each act finds room, or a payload, and no message is too long.
abbrev pub Fits : ℕ → List Act → Type 0
Fits n [] = Unit {0}
Fits n (sends p ∷ acts) =
    (n < recv_capacity) × (slice_length p ≤ message_length_max) × Fits (n + 1) acts
Fits n (takes ∷ acts) = (0 < n) × Fits (n - 1) acts

taken : Wait (Result Slice × StreamHandler) → Option Slice
taken (done (ok p, sh)) = some p
taken (done (err e, sh)) = none
taken blocked = none
taken panics = none

waiting_one : (l : List Slice) → 0 < length l → (p : Slice) × (rest : List Slice) × (l ≡ p ∷ rest)
waiting_one [] h = absurd (omega arith)
waiting_one (p ∷ rest) h = (p, rest, refl)

module _ {M H : Type 0} (lib : Libraries) (svc : ServiceSet M H) (pick : Bool)
    (ctx : Option Error) where
  -- The handler's `RecvMsg`: its payload, and the ends behind it
  take_up : Ends → Option (Slice × Ends)
  take_up e = elim (lookup e.stream.id e.system.conn.handlers) [
    | none ↦ none
    | some sh ↦ elim (taken (recv_msg false sh)) [
      | none ↦ none
      | some p ↦ elim (run lib svc (job_recv e.stream.id false ∷ []) e.system) [
        | none ↦ none
        | some t ↦ some (p, ends e.stream e.client t)
      ]
    ]
  ]

  -- What the handler receives in these acts, and the ends behind them; `none` where one of them fails.
  pub converse : List Act → Ends → Option (List Slice × Ends)
  converse [] e = some ([], e)
  converse (sends p ∷ acts) e =
      elim (relay lib svc pick ctx e (send_msg (ok p) e.stream e.client)) [
        | none ↦ none
        | some f ↦ converse acts f
      ]
  converse (takes ∷ acts) e = elim (take_up e) [
    | none ↦ none
    | some (p, f) ↦ elim (converse acts f) [ none ↦ none | some (ps, g) ↦ some (p ∷ ps, g) ]
  ]

  taken_up :
      (e : Ends) (sh : StreamHandler) (p : Slice) (rest : List Slice)
      → Uploading e sh
      → sh.recv ≡ p ∷ rest
      → (f : Ends) × (take_up e ≡ some (p, f))
        × Uploading f (record sh { recv = rest })
        × (f.stream.id ≡ e.stream.id)
  unfolding take_up taken run step act job_receives job_takes recv_msg recv_select
  taken_up e sh p rest u q =
      let sh' = record sh { recv = rest } in
      let got : recv_msg false sh ≡ done (ok p, sh') = ground (arith, q, u.live) in
      let t = record e.system {
        conn = record e.system.conn { handlers = insert e.stream.id sh' e.system.conn.handlers };
      } in
      (
        ends e.stream e.client t,
        ground (arith, got, u.handled, u.serving.at_recv),
        record {
          streams = u.streams;
          sending = u.sending;
          writable = u.writable;
          odd = u.odd;
          range = u.range;
          serving = record { at_recv = u.serving.at_recv; not_closing = u.serving.not_closing };
          stored = u.stored;
          handled = lookup-insert_self e.stream.id sh' e.system.conn.handlers;
          remote_open = u.remote_open;
          recv_open = u.recv_open;
          live = u.live;
        },
        refl,
      )

  -- What a conversation leaves: the stream is open, and the handler's channel holds what was sent and not
  -- yet received.
  pub record Conversed (e : Ends) (acts : List Act) (sh : StreamHandler) : Type 0 where
    pub after : Ends
    pub handler : StreamHandler
    pub received : List Slice
    pub ran : converse acts e ≡ some (received, after)
    pub still_open : Uploading after handler
    pub same_stream : after.stream.id ≡ e.stream.id
    pub in_order : received ++ handler.recv ≡ sh.recv ++ sent_by acts

  pub conversed :
      (acts : List Act) (e : Ends) (sh : StreamHandler)
      → Uploading e sh
      → Fits (length sh.recv) acts
      → Conversed e acts sh
  unfolding converse
  conversed [] e sh u fits = record {
    after = e;
    handler = sh;
    received = [];
    ran = refl;
    still_open = u;
    same_stream = refl;
    in_order = sym (append-nil sh.recv);
  }
  conversed (sends p ∷ acts) e sh u (room, l, fits) =
      let (f, q, v, id) = message_up lib svc pick ctx e sh u p room l in
      let sh' = queued lib svc pick ctx e sh u p in
      let one_more : length sh'.recv ≡ length sh.recv + 1 =
        omega (arith, length-append sh.recv (as_received p ∷ [])) in
      let c = conversed acts f sh' v (subst (λ n. Fits n acts) (sym one_more) fits) in
      record {
        after = c.after;
        handler = c.handler;
        received = c.received;
        ran = rw (q, converse) c.ran;
        still_open = c.still_open;
        same_stream = c.same_stream ∙ id;
        in_order = c.in_order ∙ append_assoc sh.recv (as_received p ∷ []) (sent_by acts);
      }
  conversed (takes ∷ acts) e sh u (some_wait, fits) =
      let (p, rest, q) = waiting_one sh.recv some_wait in
      let (f, t, v, id) = taken_up e sh p rest u q in
      let one_less : length sh.recv - 1 ≡ length rest =
        omega (arith, ap (λ (l : List Slice). length l) q) in
      let c =
        conversed acts f (record sh { recv = rest }) v (subst (λ n. Fits n acts) one_less fits) in
      record {
        after = c.after;
        handler = c.handler;
        received = p ∷ c.received;
        ran = rw (t, converse) (rw c.ran refl);
        still_open = c.still_open;
        same_stream = c.same_stream ∙ id;
        in_order = ap (◌∷◌ p) c.in_order ∙ ap (λ l. l ++ sent_by acts) (sym q);
      }
