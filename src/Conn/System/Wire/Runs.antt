-- ===== src/Conn/System/Wire/Runs.antt =====
-- server.go, `serverConn.run`: what its actions, one by one and in a run, put on the wire.
use ttrpc.Prelude.{
  ◌||◌, ℕ, ◌≡◌, refl, sym, ap, ◌∙◌, subst, ◌≢◌, inl, inr, Bool, true, false, Option, none, some,
  List, [], ◌∷◌, ◌++◌, append_assoc, arith, if◌then◌else◌, nat_eq, string_eq, Option-cases,
}
use ttrpc.Prelude.Assoc.{lookup}
use mathlib.Core.Option.{some-injective}
use ttrpc.Errors.{Error, Slice, Status}
use ttrpc.Frame.{MessageHeader}
use ttrpc.Channel.{Received}
use ttrpc.Channel.Send.{IsOpen, sent}
use ttrpc.Channel.Sequence.{Packet}
use ttrpc.Request.{Libraries}
use ttrpc.Services.{ServiceSet, StreamHandler}
use ttrpc.Conn.{Conn, Reply}
use ttrpc.Conn.Sender.{take_reply, take_recv_error}
use ttrpc.Conn.Receiver.{
  receiving, Place, After, proceed, assert_handler, close_side, reading, reporting, delivering, Job,
  on_recv_error, closed_side, delivered, on_stream_data, on_handled, on_unmarshalled,
  on_odd_message, on_message, on_request, on_data, on_received, on_close, deliver_data,
}
use ttrpc.Conn.System.{
  ctx_done, ctx_ends, is_crashed, System, Event, receive, report, shut, leave, recv_error, deliver,
  job_send, job_end, job_recv, job_drop, resume, main_takes, message_reply, last_reply, job_sends,
  job_ends, job_drops, job_takes, job_receives, recv_error_step, on_receive, receiver_step, act,
  step, run,
}
use ttrpc.Conn.System.Wire.{
  taken, job_reply, reply_of, packets, packets_of, all_packets, with_reply, all_packets-with_reply,
  Writes, unwritten, take_reply-Writes,
}

-- The receiver writes nothing.
on_close-writer :
    (mh : MessageHeader) (p : Slice) (c : Conn) → (on_close mh p c).conn.writer ≡ c.writer
unfolding on_close closed_side
on_close-writer mh p c = ground arith

deliver_data-writer :
    (pick : Bool) (mh : MessageHeader) (p : Slice) (c : Conn)
    → (deliver_data pick mh p c).conn.writer ≡ c.writer
unfolding deliver_data delivered
deliver_data-writer pick mh p c = ground arith

module _ {M H : Type 0} (lib : Libraries) (svc : ServiceSet M H) where
  on_received-writer :
      (pick : Bool) (ctx : Option Error) (got : Received) (c : Conn)
      → (on_received lib pick ctx svc got c).conn.writer ≡ c.writer
  unfolding on_received on_message on_odd_message on_request on_unmarshalled on_handled
      on_recv_error on_data on_stream_data
  on_received-writer pick ctx got c = ground (arith)

  -- What an action writes, if it is enabled
  abbrev StepWrites : List Packet → System → Option System → Type 0
  StepWrites ps s none = Unit {0}
  StepWrites ps s (some t) = Writes ps s.conn.writer t.conn.writer

  quiet :
      (s : System) (o : Option System)
      → IsOpen s.conn.writer
      → ((t : System) → o ≡ some t → t.conn.writer ≡ s.conn.writer)
      → StepWrites [] s o
  quiet s none o h = tt
  quiet s (some t) o h = unwritten s.conn.writer t.conn.writer o (h t refl)

  reported :
      (k : After) (r : Reply) (s : System)
      → IsOpen s.conn.writer
      → Writes (packets lib r) s.conn.writer (resume k (main_takes lib r s)).conn.writer
  unfolding resume
  reported proceed r s o = take_reply-Writes lib r s.conn o
  reported assert_handler r s o = take_reply-Writes lib r s.conn o
  reported (close_side mh p) r s o =
      subst (Writes (packets lib r) s.conn.writer)
        (sym (on_close-writer mh p (take_reply lib r s.conn))) (take_reply-Writes lib r s.conn o)

  received_writes :
      (p : Place) (pick : Bool) (ctx : Option Error) (got : Received) (s t : System)
      → receiver_step lib svc p (receive pick ctx got) s ≡ some t
      → t.conn.writer ≡ s.conn.writer
  unfolding receiver_step on_receive
  received_writes reading pick ctx got s t e =
      ground (arith, on_received-writer pick ctx got s.conn)
  received_writes receiving pick ctx got s t e =
      ground (arith, on_received-writer pick ctx got s.conn)
  received_writes _ pick ctx got s t e = cc

  unless :
      (ps : List Packet) (s : System) (b : Bool) (t : System)
      → Writes ps s.conn.writer t.conn.writer
      → StepWrites ps s (if b then none else some t)
  unless ps s true t w = tt
  unless ps s false t w = w

  report_writes :
      (p : Place) (s : System)
      → IsOpen s.conn.writer
      → StepWrites (packets_of lib (taken p)) s (receiver_step lib svc p report s)
  unfolding receiver_step packets_of taken
  report_writes (reporting r k) s o = unless (packets lib r) s s.conn.finished _ (reported k r s o)
  report_writes _ s o = tt

  other_writes :
      (p : Place) (e : Event) (s t : System)
      → ((pick : Bool) (ctx : Option Error) (got : Received) → e ≢ receive pick ctx got)
      → e ≢ report
      → receiver_step lib svc p e s ≡ some t
      → t.conn.writer ≡ s.conn.writer
  unfolding receiver_step
  other_writes reading (receive pick ctx got) s t n m e = absurd (n pick ctx got refl)
  other_writes receiving (receive pick ctx got) s t n m e = absurd (n pick ctx got refl)
  other_writes (reporting r k) report s t n m e = absurd (m refl)
  other_writes (delivering mh p) (deliver pick) s t n m e =
      ground (arith, deliver_data-writer pick mh p s.conn)
  other_writes p e s t n m h = ground arith

  ends_writes :
      (id : ℕ) (st : Option Status) (p : Slice) (s : System) (o : Option Job)
      → IsOpen s.conn.writer
      → StepWrites (packets_of lib (job_reply id st p o)) s (job_ends lib id st p s o)
  unfolding job_ends packets_of job_reply
  ends_writes id st p s none w = tt
  ends_writes id st p s (some j) w =
      unless (packets lib (last_reply id j st p)) s s.conn.finished _
        (take_reply-Writes lib (last_reply id j st p) s.conn w)

  sends_writes :
      (id : ℕ) (p : Slice) (s : System) (o : Option StreamHandler)
      → IsOpen s.conn.writer
      → StepWrites (packets lib (message_reply id p)) s (job_sends lib id p s o)
  unfolding job_sends
  sends_writes id p s none w = tt
  sends_writes id p s (some sh) w =
      unless (packets lib (message_reply id p)) s (sh.local_closed || s.conn.finished) _
        (take_reply-Writes lib (message_reply id p) s.conn w)

  drops_writer :
      (id : ℕ) (s t : System) (o : Option Job)
      → job_drops id s o ≡ some t
      → t.conn.writer ≡ s.conn.writer
  unfolding job_drops
  drops_writer id s t none e = cc
  drops_writer id s t (some j) e = ground arith

  receives_writer :
      (id : ℕ) (pick : Bool) (s t : System) (o : Option StreamHandler)
      → job_receives id pick s o ≡ some t
      → t.conn.writer ≡ s.conn.writer
  unfolding job_receives job_takes
  receives_writer id pick s t none e = cc
  receives_writer id pick s t (some sh) e = ground arith

  ctx_writer :
      (id : ℕ) (x : Error) (s t : System) (o : Option StreamHandler)
      → ctx_ends id x s o ≡ some t
      → t.conn.writer ≡ s.conn.writer
  unfolding ctx_ends
  ctx_writer id x s t none e = cc
  ctx_writer id x s t (some sh) e = ground arith

  recv_error_writer :
      (p : Place) (s t : System) → recv_error_step p s ≡ some t → t.conn.writer ≡ s.conn.writer
  unfolding recv_error_step take_recv_error
  recv_error_writer p s t e = ground arith

  leave_writer : (s t : System) → act lib svc leave s ≡ some t → t.conn.writer ≡ s.conn.writer
  unfolding act
  leave_writer s t e = ground arith

  -- Every action writes the message of the reply that it takes, and no other.
  act-Writes :
      (e : Event) (s : System)
      → IsOpen s.conn.writer
      → StepWrites (packets_of lib (reply_of e s)) s (act lib svc e s)
  unfolding act reply_of packets_of
  act-Writes shut s o = unwritten s.conn.writer s.conn.writer o refl
  act-Writes leave s o = quiet s (act lib svc leave s) o (leave_writer s)
  act-Writes recv_error s o = quiet s (recv_error_step s.place s) o (recv_error_writer s.place s)
  act-Writes (job_send id p) s o = sends_writes id p s (lookup id s.conn.handlers) o
  act-Writes (job_end id st p) s o = ends_writes id st p s (lookup id s.jobs) o
  act-Writes (job_drop id) s o = quiet s _ o (λ t. drops_writer id s t (lookup id s.jobs))
  act-Writes (job_recv id pick) s o =
      quiet s _ o (λ t. receives_writer id pick s t (lookup id s.conn.handlers))
  act-Writes (ctx_done id x) s o =
      quiet s _ o (λ t. ctx_writer id x s t (lookup id s.conn.handlers))
  act-Writes report s o = report_writes s.place s o
  act-Writes (receive pick ctx got) s o =
      quiet s _ o (λ t. received_writes s.place pick ctx got s t)
  act-Writes e s o = quiet s _ o (λ t. other_writes s.place e s t (λ p c g x. cc) (λ x. cc))

  uncrashed :
      (ps : List Packet) (s : System) (b : Bool) (o : Option System)
      → StepWrites ps s o
      → StepWrites ps s (if b then none else o)
  uncrashed ps s true o w = tt
  uncrashed ps s false o w = w

  step-Writes :
      (e : Event) (s : System)
      → IsOpen s.conn.writer
      → StepWrites (packets_of lib (reply_of e s)) s (step lib svc e s)
  unfolding step
  step-Writes e s o =
      uncrashed (packets_of lib (reply_of e s)) s (is_crashed s.place) (act lib svc e s)
        (act-Writes e s o)

  -- The replies that the main loop takes in a run, in order
  unfoldable pub replies : List Event → System → List Reply
  replies [] s = []
  replies (e ∷ es) s =
      with_reply (reply_of e s) (elim (step lib svc e s) [ some t ↦ replies es t | none ↦ [] ])

  -- A run on a working writer writes the messages of its replies, whole and in order, and nothing else.
  pub run-Writes :
      (es : List Event) (s t : System)
      → IsOpen s.conn.writer
      → run lib svc es s ≡ some t
      → Writes (all_packets lib (replies es s)) s.conn.writer t.conn.writer
  unfolding run replies all_packets
  run-Writes [] s t o e =
      subst (λ (x : System). Writes [] s.conn.writer x.conn.writer) (some-injective s t e)
        (unwritten s.conn.writer s.conn.writer o refl)
  run-Writes (x ∷ es) s t o e = elim (Option-cases (step lib svc x s)) [
    | inl q ↦ cc (rw (q, run) at e)
    | inr (u, q) ↦
        let (o', first, b') =
          subst (StepWrites (packets_of lib (reply_of x s)) s) q (step-Writes x s o) in
        let (o'', rest, b'') = run-Writes es u t o' (rw (q, run) at e) in
        rw (q, replies)
          (
            o'',
            rest
                ∙ rw first (append_assoc (sent s.conn.writer) _ _)
                ∙ ap (λ p. sent s.conn.writer ++ p)
                    (sym (all_packets-with_reply lib (reply_of x s) (replies es u))),
            λ b. b'' (b' b),
          )
  ]
