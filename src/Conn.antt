-- ===== src/Conn.antt =====
-- server.go, `serverConn`: the state of one connection and the replies of its handlers.
-- The goroutines of `run` are modelled at the grain of their atomic actions: `Conn.Sender` is the main
-- loop, `Conn.Receiver` the receiving goroutine, and `Conn.System` interleaves both with the goroutines
-- of the calls.
pub mod Sender
pub mod Receiver
pub mod Calls
pub mod System
use ttrpc.Prelude.{
  ℕ, ◌+◌, ◌%◌, bit_and, String, Bool, true, false, ◌&&◌, Option, none, some, [], ltb, ◌==◌, nat_eq,
  string_eq,
}
use ttrpc.Prelude.Assoc.{Assoc}
use ttrpc.Errors.{Slice, Status, Code}
use ttrpc.Channel.{Writer}
use ttrpc.Services.{StreamHandler}

-- `connState`, which a connection sets from its creation on
pub data ConnState : Type 0 where
  active idle closed : ConnState

-- `connState.String`
conn_state_string : ConnState → String
conn_state_string active = "active"
conn_state_string idle = "idle"
conn_state_string closed = "closed"

-- The `response` struct of `run`; a nil status counts as OK.
pub record Reply : Type 0 where
  pub id : ℕ
  pub status : Option Status
  pub payload : Slice
  pub close_stream : Bool
  pub streaming : Bool

abbrev pub code_is_ok : Code → Bool
code_is_ok Code.ok = true
code_is_ok _ = false

-- `response.status.Code() == codes.OK`
abbrev pub status_is_ok : Option Status → Bool
status_is_ok none = true
status_is_ok (some st) = code_is_ok st.code

-- `flags & f == f`
abbrev pub has_flag : ℕ → ℕ → Bool
has_flag flags f = bit_and flags f == f

-- The variables of `run`. `streams` holds for each stream whether it has a handler (`false` is the nil
-- that a unary call stores); `handlers` are the handlers by the stream that they were made for, which
-- goroutines keep when the stream is gone from the map. `active` is the bit pattern of the int32.
-- `published` is `c.state`, which equals the loop's `state`; `finished` says that `done` is closed.
pub record Conn : Type 0 where
  pub writer : Writer
  pub published : ConnState
  pub shutdown : Bool
  pub finished : Bool
  pub streams : Assoc ℕ Bool
  pub handlers : Assoc ℕ StreamHandler
  pub active : ℕ
  pub last_stream_id : ℕ

-- `atomic.AddInt32(&active, 1)` and `atomic.AddInt32(&active, -1)`
abbrev pub add_active : ℕ → ℕ
add_active n = (n + 1) % 4294967296

abbrev pub sub_active : ℕ → ℕ
sub_active n = (n + 4294967295) % 4294967296

-- `activeN > 0`, of an int32
abbrev pub is_positive : ℕ → Bool
is_positive n = ltb 0 n && ltb n 2147483648

-- A connection as `newConn` and the start of `run` leave it.
unfoldable pub new_conn : Writer → Conn
new_conn w = record {
  writer = w;
  published = idle;
  shutdown = false;
  finished = false;
  streams = [];
  handlers = [];
  active = 0;
  last_stream_id = 0;
}
