-- ===== src/Conn/System/Unary.antt =====
-- A unary call from its request to its response, in the usual order and in the order in which the call
-- ends before the receiver has stored its stream.
use ttrpc.Prelude.{
  ℕ, ◌<◌, ◌≡◌, refl, ap, ◌∙◌, inl, inr, Bool, false, Option, none, some, List, [], ◌∷◌, ◌++◌, arith,
  if◌then◌else◌, ◌==◌, nat_eq, string_eq, Option-cases,
}
use ttrpc.Prelude.Assoc.{
  lookup, insert, delete, lookup-insert, lookup-delete, lookup-insert_self, lookup-delete_self,
}
use mathlib.Core.Option.{some-injective}
use ttrpc.Errors.{Error, ok, Slice, Status}
use ttrpc.Frame.{message_type_data, flag_no_data, message_type_request, message_type_response}
use ttrpc.Channel.{Received}
use ttrpc.Channel.Send.{IsOpen, sent, frame}
use ttrpc.Request.{Libraries, Request}
use ttrpc.Services.{ServiceSet, handle, unary}
use ttrpc.Conn.{has_flag, true, idle, add_active, sub_active}
use ttrpc.Conn.Receiver.{counting, panicked, reading, unary_job, storing}
use ttrpc.Conn.Sender.Replies.{Encodes, response, outgoing-response, take_reply-Replied}
use ttrpc.Conn.Receiver.Turns.{IsOdd, unary_request}
use ttrpc.Conn.System.{
  is_closing, shut, leave, job_drop, job_drops, System, Event, receive, store, count, job_end,
  job_ends, main_takes, receiver_step, act, step, run, last_reply,
}
use ttrpc.Conn.System.Calls.{nil_handler_panics, IsReading, receive_turn}

run-append :
    {M H : Type 0} (lib : Libraries) (svc : ServiceSet M H) (es fs : List Event) (s t : System)
    → run lib svc es s ≡ some t
    → run lib svc (es ++ fs) s ≡ run lib svc fs t
unfolding run
run-append lib svc [] fs s t e = ap (run lib svc fs) (some-injective s t e)
run-append lib svc (x ∷ es) fs s t e = elim (Option-cases (step lib svc x s)) [
  | inl q ↦ cc (rw (q, run) at e)
  | inr (s', q) ↦ rw (q, run) (run-append lib svc es fs s' t (rw (q, run) at e))
]

-- The count of a call and its end, in either order
abbrev pub count_and : Bool → Event → List Event
count_and false e = count ∷ e ∷ []
count_and true e = e ∷ count ∷ []

module _ {M H : Type 0} (lib : Libraries) (svc : ServiceSet M H) (s : System) (r : IsReading s)
    (running : s.conn.finished ≡ false) (pick : Bool) (ctx : Option Error) (got : Received)
    (req : Request) (m : M) (new : IsOdd message_type_request got)
    (above : s.conn.last_stream_id < got.header.stream_id)
    (decoded : lib.unmarshal_request got.payload ≡ ok req)
    (found : handle pick ctx req svc ≡ unary m) where
  abbrev call_id : ℕ
  call_id = got.header.stream_id

  -- The system when the receiver has dealt with the request.
  abbrev calling : System
  calling = record s {
    conn = record s.conn {
      last_stream_id = call_id;
      streams = insert call_id false s.conn.streams;
      active = add_active s.conn.active;
    };
    place = reading;
    jobs = insert call_id unary_job s.jobs;
  }

  pub starts : run lib svc (receive pick ctx got ∷ store ∷ count ∷ []) s ≡ some calling
  unfolding run step act receiver_step
  starts = ground (
    arith,
    receive_turn lib svc s r pick ctx got,
    unary_request lib svc pick ctx got s.conn req m new above decoded found,
  )

  -- The same request, and then, while the call runs, a data message without the flag `no data` on its
  -- stream: the server panics, since a unary call stores a nil handler.
  pub unary_data_panics :
      is_closing s.conn ≡ false
      → (next : Received) → IsOdd message_type_data next
      → next.header.stream_id ≡ call_id
      → has_flag next.header.flags flag_no_data ≡ false
      → (t : System) × (run lib svc
            (receive pick ctx got ∷ store ∷ count ∷ receive pick ctx next ∷ [])
            s
          ≡ some t)
        × (t.place ≡ panicked)
        × (lookup call_id t.jobs ≡ some unary_job)
  unary_data_panics up next d same f =
      let stored : lookup next.header.stream_id calling.conn.streams ≡ some false =
        rw same (lookup-insert_self call_id false s.conn.streams) in
      let (t, ran, at_end, kept) =
        nil_handler_panics lib svc calling (record { at_recv = refl; not_closing = up }) pick ctx
          next d stored f in
      (
        t,
        run-append lib svc (receive pick ctx got ∷ store ∷ count ∷ []) (receive pick ctx next ∷ [])
              s calling starts
            ∙ ran,
        at_end,
        rw kept (lookup-insert_self call_id unary_job s.jobs),
      )

  counted : s.conn.active < 4294967296 → sub_active (add_active s.conn.active) ≡ s.conn.active
  counted h = omega arith

  -- The system when the call has ended.
  abbrev ended : Option Status → Slice → System
  ended st q =
      main_takes lib (last_reply call_id unary_job st q)
        (record calling { jobs = delete call_id (insert call_id unary_job s.jobs) })

  ends :
      (st : Option Status) (q : Slice)
      → run lib svc (job_end call_id st q ∷ []) calling ≡ some (ended st q)
  unfolding run step act job_ends
  ends st q = ground (arith, lookup-insert_self call_id unary_job s.jobs)

  -- The call ends behind the count.
  unary_call :
      (st : Option Status) (q : Slice) (p : List ℕ)
      → IsOpen s.conn.writer
      → s.conn.active < 4294967296
      → Encodes lib st q p
      → (t : System) × (run lib svc
            (receive pick ctx got ∷ store ∷ count ∷ job_end call_id st q ∷ [])
            s
          ≡ some t)
        × (sent t.conn.writer
            ≡ sent s.conn.writer ++ frame call_id message_type_response 0 (some p))
        × (lookup call_id t.jobs ≡ none)
        × ((id : ℕ)
            → lookup id t.conn.streams ≡ (if call_id == id then none else lookup id s.conn.streams))
        × (t.conn.active ≡ s.conn.active)
        × (t.place ≡ reading)
  unary_call st q p o b e =
      let x = last_reply call_id unary_job st q in
      let jobs' = insert call_id unary_job s.jobs in
      let y =
        take_reply-Replied lib x (response call_id p) calling.conn o
          (outgoing-response lib x p refl e) e.within in
      (
        ended st q,
        run-append lib svc (receive pick ctx got ∷ store ∷ count ∷ []) (job_end call_id st q ∷ []) s
              calling starts
            ∙ ends st q,
        y.wire,
        lookup-delete_self call_id jobs',
        (λ id. ground (
          arith,
          y.streams,
          lookup-delete call_id id (insert call_id false s.conn.streams),
          lookup-insert call_id id false s.conn.streams,
        )),
        ground (arith, y.count, counted b),
        refl,
      )

  -- The system when the receiver has stored the stream, and when the call has ended before the count.
  abbrev stored : System
  stored = record s {
    conn = record s.conn {
      last_stream_id = call_id;
      streams = insert call_id false s.conn.streams;
    };
    place = counting;
    jobs = insert call_id unary_job s.jobs;
  }

  abbrev ended_uncounted : Option Status → Slice → System
  ended_uncounted st q =
      main_takes lib (last_reply call_id unary_job st q)
        (record stored { jobs = delete call_id (insert call_id unary_job s.jobs) })

  uncounted : s.conn.active < 4294967296 → add_active (sub_active s.conn.active) ≡ s.conn.active
  uncounted h = omega arith

  ends_before_count :
      (st : Option Status) (q : Slice)
      → let u = ended_uncounted st q in
        run lib svc (receive pick ctx got ∷ store ∷ job_end call_id st q ∷ count ∷ []) s
        ≡ some (record u {
          conn = record u.conn { active = add_active u.conn.active };
          place = reading;
        })
  unfolding run step act receiver_step job_ends
  ends_before_count st q = ground (
    arith,
    receive_turn lib svc s r pick ctx got,
    unary_request lib svc pick ctx got s.conn req m new above decoded found,
    lookup-insert_self call_id unary_job s.jobs,
  )

  -- A unary call whose stream the receiver stores before the call ends, whether the call is counted
  -- before it ends or after, from a receiver that is about to read on a connection that is neither
  -- closing nor finished, by a request on an odd identifier above the last one that names a method;
  -- with a writer that works and a response within the maximum length. The request is taken, the call
  -- runs, and its end is answered by one response with its status and payload on the same stream.
  -- Then no call runs on the stream and it is not stored, other streams are as before, the count is
  -- what it was, and the receiver goes on.
  pub stored_call :
      (late : Bool) (st : Option Status) (q : Slice) (p : List ℕ)
      → IsOpen s.conn.writer
      → s.conn.active < 4294967296
      → Encodes lib st q p
      → (t : System) × (run lib svc
            (receive pick ctx got ∷ store ∷ count_and late (job_end call_id st q))
            s
          ≡ some t)
        × (sent t.conn.writer
            ≡ sent s.conn.writer ++ frame call_id message_type_response 0 (some p))
        × (lookup call_id t.jobs ≡ none)
        × ((id : ℕ)
            → lookup id t.conn.streams ≡ (if call_id == id then none else lookup id s.conn.streams))
        × (t.conn.active ≡ s.conn.active)
        × (t.place ≡ reading)
  stored_call false st q p o b e = unary_call st q p o b e
  stored_call true st q p o b e =
      let x = last_reply call_id unary_job st q in
      let y =
        take_reply-Replied lib x (response call_id p) stored.conn o
          (outgoing-response lib x p refl e) e.within in
      (
        _,
        ends_before_count st q,
        y.wire,
        lookup-delete_self call_id (insert call_id unary_job s.jobs),
        (λ id. ground (
          arith,
          y.streams,
          lookup-delete call_id id (insert call_id false s.conn.streams),
          lookup-insert call_id id false s.conn.streams,
        )),
        ground (arith, y.count, uncounted b),
        refl,
      )

  -- The call ended while the receiver stands before `streams.Store`.
  abbrev ended_early : Option Status → Slice → System
  ended_early st q = main_takes lib (last_reply call_id unary_job st q) (record s {
    conn = record s.conn { last_stream_id = call_id };
    place = storing call_id false;
    jobs = delete call_id (insert call_id unary_job s.jobs);
  })

  -- The same request, where the goroutine of the call ends before the receiver has stored the stream:
  -- the entry of the finished stream is in `streams` afterwards, though no call runs on it.
  pub early_end_leaks :
      (st : Option Status) (q : Slice)
      → (t : System) × (run lib svc
            (receive pick ctx got ∷ job_end call_id st q ∷ store ∷ count ∷ [])
            s
          ≡ some t)
        × (lookup call_id t.jobs ≡ none)
        × (lookup call_id t.conn.streams ≡ some false)
  unfolding run step act receiver_step job_ends
  early_end_leaks st q =
      let u = ended_early st q in
      (
        record u {
          conn = record u.conn {
            streams = insert call_id false u.conn.streams;
            active = add_active u.conn.active;
          };
          place = reading;
        },
        ground (
          arith,
          receive_turn lib svc s r pick ctx got,
          unary_request lib svc pick ctx got s.conn req m new above decoded found,
          lookup-insert_self call_id unary_job s.jobs,
        ),
        lookup-delete_self call_id (insert call_id unary_job s.jobs),
        lookup-insert_self call_id false u.conn.streams,
      )

  -- The same request, on a connection whose published state is idle, for which `Shutdown` closes
  -- connections: where it is closed before the main loop has been through another round, the loop
  -- leaves while the call runs, the call's result is thrown away, and nothing was sent.
  pub shutdown_drops_call :
      s.conn.published ≡ idle
      → (t : System) × (run lib svc
            (receive pick ctx got ∷ store ∷ count ∷ shut ∷ leave ∷ job_drop call_id ∷ [])
            s
          ≡ some t)
        × (t.conn.finished ≡ true)
        × (lookup call_id t.jobs ≡ none)
        × (t.conn.writer ≡ s.conn.writer)
  unfolding run step act job_drops
  shutdown_drops_call e =
      let jobs' = insert call_id unary_job s.jobs in
      (
        record calling {
          conn = record calling.conn { shutdown = true; finished = true };
          jobs = delete call_id jobs';
        },
        run-append lib svc (receive pick ctx got ∷ store ∷ count ∷ [])
              (shut ∷ leave ∷ job_drop call_id ∷ []) s calling starts
            ∙ ground (arith, e, running, lookup-insert_self call_id unary_job s.jobs),
        refl,
        lookup-delete_self call_id jobs',
        refl,
      )
