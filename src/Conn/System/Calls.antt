-- ===== src/Conn/System/Calls.antt =====
-- What the receiver does with the messages that it refuses, and what becomes of the count of calls.
use ttrpc.Prelude.{
  ℕ, ◌%◌, ◌≤◌, ◌≡◌, refl, ◌⊎◌, inl, inr, Bool, false, Option, none, some, List, [], ◌∷◌, arith,
  nat_eq, string_eq,
}
use ttrpc.Prelude.Assoc.{lookup}
use ttrpc.Errors.{Error, Status}
use ttrpc.Frame.{message_type_data, message_type_request, flag_no_data}
use ttrpc.Channel.{Received}
use ttrpc.Channel.Send.{IsOpen}
use ttrpc.Request.{Libraries}
use ttrpc.Services.{ServiceSet}
use ttrpc.Conn.{Reply, idle, has_flag}
use ttrpc.Conn.Receiver.{
  Job, After, proceed, assert_handler, reading, reporting, panicked, turn, status_reply,
  must_be_odd, must_increment, on_received,
}
use ttrpc.Conn.Sender.Replies.{Encodes, response, outgoing-response, Replied, take_reply-Replied}
use ttrpc.Conn.Sender.Retire.{take_reply-Retires}
use ttrpc.Conn.Receiver.Turns.{IsOdd, unknown_data, unary_data, even_message, reused_request}
use ttrpc.Conn.System.{
  System, receive, report, resume, is_closing, main_takes, on_receive, receiver_step, act, step,
  run, after_turn,
}

-- The receiver is about to read, on a connection that is not closing.
pub record IsReading (s : System) : Type 0 where
  pub at_recv : s.place ≡ reading
  pub not_closing : is_closing s.conn ≡ false

module _ {M H : Type 0} (lib : Libraries) (svc : ServiceSet M H) (s : System) (r : IsReading s)
    (pick : Bool) (ctx : Option Error) (got : Received) where
  pub receive_turn :
      step lib svc (receive pick ctx got) s
      ≡ some (after_turn got.header.stream_id (on_received lib pick ctx svc got s.conn) s)
  unfolding step act receiver_step on_receive
  receive_turn = ground arith

  -- A message that is answered by a status: what `receive` and `report` together make of it.
  report_turn :
      (x : Reply) (k : After)
      → on_received lib pick ctx svc got s.conn ≡ turn s.conn (reporting x k)
      → run lib svc (receive pick ctx got ∷ report ∷ []) s
        ≡ some (resume k (main_takes lib x (record s { place = reporting x k })))
  unfolding run step act receiver_step
  report_turn x k e = ground (arith, receive_turn)

  -- From a receiver that is about to read on a connection that is not closing, a data message on an
  -- odd stream that is not in `streams` panics the server: once its status has been taken, the
  -- receiver goes on to the type assertion on the nil that it loaded.
  pub unknown_data_panics :
      IsOdd message_type_data got
      → lookup got.header.stream_id s.conn.streams ≡ none
      → (t : System) × (run lib svc (receive pick ctx got ∷ report ∷ []) s ≡ some t)
        × (t.place ≡ panicked)
  unfolding resume
  unknown_data_panics d e =
      (_, report_turn _ assert_handler (unknown_data lib svc pick ctx got s.conn d e), refl)

  -- From a receiver that is about to read on a connection that is not closing, a data message without
  -- the flag `no data` on a stream that is stored with a nil handler, as a unary call stores it,
  -- panics the server.
  pub nil_handler_panics :
      IsOdd message_type_data got
      → lookup got.header.stream_id s.conn.streams ≡ some false
      → has_flag got.header.flags flag_no_data ≡ false
      → (t : System) × (run lib svc (receive pick ctx got ∷ []) s ≡ some t)
        × (t.place ≡ panicked)
        × (t.jobs ≡ s.jobs)
  unfolding run
  nil_handler_panics d e f = (
    record s { place = panicked },
    ground (arith, receive_turn, unary_data lib svc pick ctx got s.conn d e f),
    refl,
    refl,
  )

-- The identifier of a message is even, or is that of an earlier request; with the status for it.
abbrev IsRefused : Received → ℕ → Status → Type 0
IsRefused got last st =
    ((got.error ≡ none) × (got.header.stream_id % 2 ≡ 0) × (st ≡ must_be_odd))
    ⊎ (IsOdd message_type_request got × (got.header.stream_id ≤ last) × (st ≡ must_increment))

-- The system after a message was answered by a status and the receiver went on to the next.
pub record Answered (id : ℕ) (st : Status) (p : List ℕ) (s t : System) : Type 0 where
  pub goes_on : t.place ≡ reading
  pub same_jobs : t.jobs ≡ s.jobs
  pub same_last : t.conn.last_stream_id ≡ s.conn.last_stream_id
  pub same_handlers : t.conn.handlers ≡ s.conn.handlers
  pub replied : Replied (status_reply id st) (response id p) s.conn t.conn

module _ {M H : Type 0} (lib : Libraries) (svc : ServiceSet M H) (s : System) (r : IsReading s)
    (o : IsOpen s.conn.writer) (pick : Bool) (ctx : Option Error) (got : Received) where
  status-Answered :
      (st : Status) (p : List ℕ)
      → on_received lib pick ctx svc got s.conn
        ≡ turn s.conn (reporting (status_reply got.header.stream_id st) proceed)
      → Encodes lib (some st) none p
      → (t : System) × (run lib svc (receive pick ctx got ∷ report ∷ []) s ≡ some t)
        × Answered got.header.stream_id st p s t
  unfolding resume
  status-Answered st p e m =
      let id = got.header.stream_id in
      let x = status_reply id st in
      let kept = take_reply-Retires lib x s.conn in
      (
        _,
        report_turn lib svc s r pick ctx got x proceed e,
        record {
          goes_on = refl;
          same_jobs = refl;
          same_last = kept.last;
          same_handlers = kept.handlers;
          replied =
              take_reply-Replied lib x (response id p) s.conn o (outgoing-response lib x p refl m)
                m.within;
        },
      )

  -- From a receiver that is about to read on a connection that is not closing, with a writer that
  -- works and a response within the maximum length: a message with an even identifier, and a request
  -- on an odd one that is not above the last one, starts no call; it is answered on the same stream
  -- by a response with the status InvalidArgument for it, and the receiver goes on.
  pub refused-Answered :
      (st : Status) (p : List ℕ)
      → IsRefused got s.conn.last_stream_id st
      → Encodes lib (some st) none p
      → (t : System) × (run lib svc (receive pick ctx got ∷ report ∷ []) s ≡ some t)
        × Answered got.header.stream_id st p s t
  refused-Answered st p (inl (w, e, q)) m =
      status-Answered st p (rw q (even_message lib svc pick ctx got s.conn w e)) m
  refused-Answered st p (inr (d, l, q)) m =
      status-Answered st p (rw q (reused_request lib svc pick ctx got s.conn d l)) m

  -- Under the same conditions, the count is lowered for a refused message too, though it was never
  -- raised for it: with one call counted, the connection is then published as idle while that call's
  -- goroutine still runs.
  pub refused_uncounts :
      (st : Status) (p : List ℕ) (id : ℕ) (j : Job)
      → IsRefused got s.conn.last_stream_id st
      → Encodes lib (some st) none p
      → lookup id s.jobs ≡ some j
      → s.conn.active ≡ 1
      → (t : System) × (run lib svc (receive pick ctx got ∷ report ∷ []) s ≡ some t)
        × (t.conn.published ≡ idle)
        × (lookup id t.jobs ≡ some j)
  refused_uncounts st p id j d m h one =
      let (t, e, a) = refused-Answered st p d m in
      (t, e, ground (arith, a.replied.state, a.replied.count), rw a.same_jobs h)
