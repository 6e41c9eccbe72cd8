-- ===== src/Tests/Composed.antt =====
-- Examples for a client and a server over one connection.
use ttrpc.Prelude.{
  Bool-cases, String, zero, suc, inl, inr, ℕ, ◌≡◌, refl, Bool, true, false, ◌&&◌, Option, none,
  some, List, [], ◌∷◌, arith, if◌then◌else◌, ◌==◌, nat_eq, string_eq,
}
use text.Mathlib.TextEquality.{eq_iff}
use ttrpc.Prelude.Assoc.{lookup}
use ttrpc.Errors.{Code, Message, plain, Result-cases, Error, Result, ok, err, Slice, Status, eof}
use ttrpc.Channel.{slice_bytes, as_received}
use ttrpc.Request.{Libraries, Request, Response, KeyValue}
use ttrpc.Services.{StreamHandler, handle, handle_method, unary}
use ttrpc.Stream.{new_stream}
use ttrpc.Client.{Client, receive_round, again}
use ttrpc.Client.Calls.{dispatch_start, dispatch_end, waiting}
use ttrpc.Client.Streaming.{ClientStream}
use ttrpc.Conn.{idle, active}
use ttrpc.Conn.Receiver.{reading, Job}
use ttrpc.Conn.System.{System, receive, store, count, job_end, run}
use ttrpc.Exchange.{since, arrives, ReadsBack}
use ttrpc.Exchange.Unary.{call_goes_through}
use ttrpc.Exchange.Streaming.{Ends}
use ttrpc.Exchange.Streaming.Interleaved.{Act, sends, takes}
use ttrpc.Tests.{open_writer, open_writer-IsOpen, from_error, services}

-- A codec that knows one request, with any payload, and responses with any payload whose status is none
-- or has a known message. A nil and an empty payload are encoded alike.
abbrev pub greeting : Request
greeting = record {
  service = "echo";
  method = "say";
  payload = none;
  timeout_nano = 0;
  metadata = [];
}

abbrev no_pairs : List KeyValue → Bool
no_pairs [] = true
no_pairs kvs = false

abbrev is_greeting : Request → Bool
is_greeting r =
    r.service == "echo" && r.method == "say" && r.timeout_nano == 0 && no_pairs r.metadata

abbrev marshal_one : Request → Result (List ℕ)
marshal_one r = if is_greeting r then ok (1 ∷ slice_bytes r.payload) else err eof

abbrev unmarshal_one : Slice → Result Request
unmarshal_one (some (b ∷ bs)) = ok (record greeting { payload = as_received (some bs) })
unmarshal_one p = err eof

abbrev number_of : Code → ℕ
number_of Code.ok = 1
number_of Code.canceled = 2
number_of Code.unknown = 3
number_of Code.invalid_argument = 4
number_of Code.deadline_exceeded = 5
number_of Code.not_found = 6
number_of Code.already_exists = 7
number_of Code.permission_denied = 8
number_of Code.resource_exhausted = 9
number_of Code.failed_precondition = 10
number_of Code.aborted = 11
number_of Code.out_of_range = 12
number_of Code.unimplemented = 13
number_of Code.internal = 14
number_of Code.unavailable = 15
number_of Code.data_loss = 16
number_of Code.unauthenticated = 17

abbrev all_codes : List Code
all_codes =
    Code.ok ∷ Code.canceled ∷ Code.unknown ∷ Code.invalid_argument ∷ Code.deadline_exceeded
    ∷ Code.not_found ∷ Code.already_exists ∷ Code.permission_denied ∷ Code.resource_exhausted
    ∷ Code.failed_precondition ∷ Code.aborted ∷ Code.out_of_range ∷ Code.unimplemented
    ∷ Code.internal ∷ Code.unavailable ∷ Code.data_loss ∷ Code.unauthenticated ∷ []

abbrev nth_status : ℕ → List Code → Option Status
nth_status zero cs = none
nth_status (suc n) [] = none
nth_status (suc zero) (c ∷ cs) = some (record { code = c; message = plain "failed" })
nth_status (suc (suc n)) (c ∷ cs) = nth_status (suc n) cs

abbrev status_bytes : Option Status → Message → Result ℕ
status_bytes none m = ok 0
status_bytes (some st) (plain s) = if s == "failed" then ok (number_of st.code) else err eof
status_bytes (some st) m = err eof

abbrev message_in : Option Status → Message
message_in none = plain "failed"
message_in (some st) = st.message

abbrev with_payload : Slice → Result ℕ → Result (List ℕ)
with_payload q (ok n) = ok (n ∷ slice_bytes q)
with_payload q (err e) = err e

abbrev marshal_any : Response → Result (List ℕ)
marshal_any r = with_payload r.payload (status_bytes r.status (message_in r.status))

abbrev unmarshal_any : Slice → Result Response
unmarshal_any (some (n ∷ bs)) =
    ok (record { status = nth_status n all_codes; payload = as_received (some bs) })
unmarshal_any p = err eof

abbrev pub small_lib : Libraries
small_lib = record {
  unmarshal_request = unmarshal_one;
  marshal_request = marshal_one;
  unmarshal_response = unmarshal_any;
  marshal_response = marshal_any;
  from_error = from_error;
}

bytes_received : (q : Slice) → as_received (some (slice_bytes q)) ≡ as_received q
bytes_received none = refl
bytes_received (some []) = refl
bytes_received (some (b ∷ bs)) = refl

no_pairs-nil : (kvs : List KeyValue) → no_pairs kvs ≡ true → kvs ≡ []
no_pairs-nil [] e = refl
no_pairs-nil (kv ∷ kvs) e = cc

reads_request :
    (r : Request) (p : List ℕ)
    → marshal_one r ≡ ok p
    → unmarshal_one (as_received (some p)) ≡ ok (record r { payload = as_received r.payload })
reads_request r p e =
    let same : p ≡ 1 ∷ slice_bytes r.payload = ground (arith, e) in
    rw same (
      ground (
        arith,
        e,
        eq_iff r.service "echo",
        eq_iff r.method "say",
        no_pairs-nil r.metadata,
        bytes_received r.payload,
      ))

-- A code comes back.
code_back :
    (c : Code)
    → nth_status (number_of c) all_codes ≡ some (record { code = c; message = plain "failed" })
code_back Code.ok = refl
code_back Code.canceled = refl
code_back Code.unknown = refl
code_back Code.invalid_argument = refl
code_back Code.deadline_exceeded = refl
code_back Code.not_found = refl
code_back Code.already_exists = refl
code_back Code.permission_denied = refl
code_back Code.resource_exhausted = refl
code_back Code.failed_precondition = refl
code_back Code.aborted = refl
code_back Code.out_of_range = refl
code_back Code.unimplemented = refl
code_back Code.internal = refl
code_back Code.unavailable = refl
code_back Code.data_loss = refl
code_back Code.unauthenticated = refl

failed_back :
    (c : Code) (s : String) (n : ℕ)
    → s ≡ "failed"
    → number_of c ≡ n
    → nth_status n all_codes ≡ some (record { code = c; message = plain s })
failed_back c s n e q = rw (← q, e) (code_back c)

named_back :
    (c : Code) (m : Message) (n : ℕ)
    → status_bytes (some (record { code = c; message = m })) m ≡ ok n
    → nth_status n all_codes ≡ some (record { code = c; message = m })
named_back c (plain s) n e = elim (Bool-cases (s == "failed")) [
  | inr o ↦ cc (rw o at e)
  | inl y ↦ failed_back c s n (ground (arith, y, eq_iff s "failed")) (ground (arith, y, e))
]
named_back c m n e = cc

status_back :
    (st : Option Status) (n : ℕ)
    → status_bytes st (message_in st) ≡ ok n
    → nth_status n all_codes ≡ st
status_back none n e = let zero_byte : n ≡ 0 = ground (arith, e) in rw zero_byte refl
status_back (some st) n e = named_back st.code st.message n e

reads_response :
    (r : Response) (p : List ℕ)
    → marshal_any r ≡ ok p
    → unmarshal_any (as_received (some p)) ≡ ok (record r { payload = as_received r.payload })
reads_response r p e = elim (Result-cases (status_bytes r.status (message_in r.status))) [
  | inr (x, q) ↦ cc (rw q at e)
  | inl (n, q) ↦
      let same : p ≡ n ∷ slice_bytes r.payload = ground (arith, q, e) in
      rw same (ground (arith, status_back r.status n q, bytes_received r.payload))
]

pub small_lib-ReadsBack : ReadsBack small_lib
small_lib-ReadsBack = record { request = reads_request; response = reads_response }

abbrev new_one : Client
new_one = record {
  writer = open_writer;
  store = [];
  next_pointer = 0;
  streams = [];
  next_stream_id = 1;
  cancelled = false;
  conn_closed = false;
  user_closed = 0;
}

abbrev quiet : System
quiet = record {
  conn = record {
    writer = open_writer;
    published = idle;
    shutdown = false;
    finished = false;
    streams = [];
    handlers = [];
    active = 0;
    last_stream_id = 0;
  };
  place = reading;
  jobs = [];
  recv_err_open = true;
}

greeting-unary : handle false none greeting services ≡ unary 1
unfolding handle handle_method lookup
greeting-unary = refl

call_goes_through_example :
    (d e f : Client) × (t : System) × (dispatch_start small_lib greeting new_one ≡ waiting 0 d)
    × (run small_lib services
          (receive false none (arrives (since open_writer d.writer))
            ∷ store
            ∷ count
            ∷ job_end 1 none (some (4 ∷ []))
            ∷ [])
          quiet
        ≡ some t)
    × (receive_round small_lib false (arrives (since open_writer t.conn.writer)) d ≡ again e)
    × (dispatch_end small_lib false false none 0 e
        ≡ some (ok (record { status = none; payload = some (4 ∷ []) }), f))
    × (lookup 1 f.streams ≡ none)
    × (lookup 1 t.jobs ≡ none)
    × (lookup 1 t.conn.streams ≡ none)
    × (t.conn.active ≡ 0)
call_goes_through_example =
    call_goes_through small_lib services small_lib-ReadsBack new_one refl open_writer-IsOpen quiet
      (record { at_recv = refl; not_closing = refl }) refl open_writer-IsOpen greeting (1 ∷ []) 1
      false false none none (some (4 ∷ [])) (0 ∷ 4 ∷ []) refl (omega arith) (omega arith)
      (omega arith) refl (omega arith) greeting-unary
      (record { encoded = refl; within = omega arith })

-- A stream that is open at both ends, on which the server's call runs
abbrev both_ways : ClientStream
both_ways = record {
  pointer = 0;
  id = 1;
  streaming_client = true;
  streaming_server = true;
  local_closed = false;
  remote_closed = false;
}

abbrev handler : StreamHandler
handler = record {
  recv = some (6 ∷ []) ∷ [];
  recv_closed = false;
  remote_closed = false;
  local_closed = false;
  ctx_error = none;
}

abbrev stream_job : Job
stream_job = record { is_stream = true; streaming_server = true }

abbrev linked : Ends
linked = record {
  stream = both_ways;
  client = record new_one { store = (0, new_stream 1) ∷ []; streams = (1, 0) ∷ [] };
  system = record quiet {
    conn = record quiet.conn {
      published = active;
      streams = (1, true) ∷ [];
      handlers = (1, handler) ∷ [];
      active = 1;
      last_stream_id = 1;
    };
    jobs = (1, stream_job) ∷ [];
  };
}

abbrev acts : List Act
acts =
    sends (some (7 ∷ 8 ∷ []))
    ∷ takes
    ∷ takes
    ∷ sends none
    ∷ sends (some [])
    ∷ takes
    ∷ sends (some (9 ∷ []))
    ∷ []

-- Only payloads that are there can be unmarshalled.
abbrev wants_payload : Slice → Option Error
wants_payload none = some eof
wants_payload (some p) = none
