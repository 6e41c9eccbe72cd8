-- ===== src/Services.antt =====
-- services.go: the set of registered services, the dispatch of a request by `handle`, and the state of
-- a stream's server side.
pub mod Handler
pub mod Dispatch
pub mod Results
use ttrpc.Prelude.{
  ℕ, String, Bool, true, false, not, ◌||◌, Option, none, some, List, [], ◌∷◌, ◌++◌, ltb,
  if◌then◌else◌, nat_eq, string_eq, length,
}
use ttrpc.Prelude.Assoc.{Assoc, lookup, insert}
use ttrpc.Errors.{Error, Result, ok, err, Slice, Code, status, with_str, err_stream_closed, eof}
use ttrpc.Request.{Request}

-- What `handle` reads of a `Stream`: its handler `H` runs in a goroutine of its own.
pub record StreamSpec (H : Type 0) : Type 0 where
  pub handler : H
  pub streaming_client : Bool
  pub streaming_server : Bool

pub record ServiceDesc (M H : Type 0) : Type 0 where
  pub methods : Assoc String M
  pub streams : Assoc String (StreamSpec H)

abbrev pub ServiceSet : Type 0 → Type 0 → Type 0
ServiceSet M H = Assoc String (ServiceDesc M H)

-- `streamHandler`. The channel `recv` holds the payloads that `data` has put in and `RecvMsg` has not
-- taken; `ctx_error` is what `ctx.Err()` returns once the context is done.
pub record StreamHandler : Type 0 where
  pub recv : List Slice
  pub recv_closed : Bool
  pub remote_closed : Bool
  pub local_closed : Bool
  pub ctx_error : Option Error

-- The capacity of the channel, from `make(chan Unmarshaler, 5)`.
abbrev pub recv_capacity : ℕ
recv_capacity = 5

-- `&streamHandler{...}`, with the state of the request's context
abbrev pub new_stream_handler : Option Error → StreamHandler
new_stream_handler ctx_error = record {
  recv = [];
  recv_closed = false;
  remote_closed = false;
  local_closed = false;
  ctx_error = ctx_error;
}

-- What a call does that may have to wait, or that Go ends by a panic.
pub data Wait {ℓ} (A : Type ℓ) : Type ℓ where
  done : A → Wait A
  blocked : Wait A
  panics : Wait A

-- A second `close` of a channel panics.
unfoldable pub close_recv : StreamHandler → Wait StreamHandler
close_recv s = if s.recv_closed then panics else done (record s { recv_closed = true })

-- `closeSend`
unfoldable pub close_send : StreamHandler → Wait StreamHandler
close_send s = if s.remote_closed then done s else close_recv (record s { remote_closed = true })

-- The send on `recv`, which panics on a closed channel.
pub put_recv : Slice → StreamHandler → Wait StreamHandler
put_recv p s =
    if s.recv_closed
    then panics
    else if ltb (length s.recv) recv_capacity
    then done (record s { recv = s.recv ++ p ∷ [] })
    else blocked

-- `data`. Where both cases of its `select` are ready, `pick` says whether Go takes the context's.
pub data_select : Slice → StreamHandler → Bool → Option Error → Wait (Option Error × StreamHandler)
data_select p s pick none = elim (put_recv p s) [
  | done s' ↦ done (none, s')
  | blocked ↦ blocked
  | panics ↦ panics
]
data_select p s pick (some e) = elim (put_recv p s) [
  | done s' ↦ if pick then done (some e, s) else done (none, s')
  | blocked ↦ done (some e, s)
  | panics ↦ panics
]

pub push_data : Bool → Slice → StreamHandler → Wait (Option Error × StreamHandler)
push_data pick p s =
    if s.remote_closed then done (some err_stream_closed, s) else data_select p s pick s.ctx_error

pub recv_empty : StreamHandler → Option Error → Wait (Result Slice × StreamHandler)
recv_empty s none = if s.recv_closed then done (err eof, s) else blocked
recv_empty s (some e) = if s.recv_closed then done (err eof, s) else done (err e, s)

unfoldable pub recv_select :
    Bool → List Slice → Option Error → StreamHandler → Wait (Result Slice × StreamHandler)
recv_select pick [] e s = recv_empty s e
recv_select pick (p ∷ rest) none s = done (ok p, record s { recv = rest })
recv_select pick (p ∷ rest) (some e) s =
    if pick then done (err e, s) else done (ok p, record s { recv = rest })

-- `RecvMsg` up to the unmarshalling of what it took.
unfoldable pub recv_msg : Bool → StreamHandler → Wait (Result Slice × StreamHandler)
recv_msg pick s = recv_select pick s.recv s.ctx_error s

-- What `handle` answers: a status error, or a goroutine that was started with the handler that it
-- stores (`none` is the nil of a unary call).
pub data Handled (M H : Type 0) : Type 0 where
  refused : Error → Handled M H
  unary : M → Handled M H
  streaming : StreamSpec H → StreamHandler → Handled M H
  failing : StreamSpec H → StreamHandler → Error → Handled M H
  waiting : StreamSpec H → Handled M H
  panicking : Handled M H

abbrev pub unimplemented : String → String → Error
unimplemented s x = status Code.unimplemented (with_str s x)

abbrev pub is_nil : Slice → Bool
is_nil none = true
is_nil (some p) = false

-- `req.Payload != nil || !info.StreamingClient`
abbrev pub carries_first : {H : Type 0} → Request → StreamSpec H → Bool
carries_first req spec = not (is_nil req.payload) || not spec.streaming_client

module _ {M H : Type 0} where
  -- `register`; `none` is the panic on a name that is taken.
  pub register : String → ServiceDesc M H → ServiceSet M H → Option (ServiceSet M H)
  register name desc s = elim (lookup name s) [ some d ↦ none | none ↦ some (insert name desc s) ]

  -- The stream behind `sh.data` of its first message
  pub started : StreamSpec H → Wait (Option Error × StreamHandler) → Handled M H
  started spec (done (none, sh)) = streaming spec sh
  started spec (done (some e, sh)) = failing spec sh e
  started spec blocked = waiting spec
  started spec panics = panicking

  -- The first message of a stream, which travels in the request.
  pub first_data : Bool → Option Error → Request → StreamSpec H → Handled M H
  first_data pick ctx req spec =
      if carries_first req spec
      then started spec (push_data pick req.payload (new_stream_handler ctx))
      else streaming spec (new_stream_handler ctx)

  unfoldable pub handle_method : Bool → Option Error → Request → ServiceDesc M H → Handled M H
  handle_method pick ctx req srv = elim (lookup req.method srv.methods) [
    | some m ↦ unary m
    | none ↦ elim (lookup req.method srv.streams) [
      | some spec ↦ first_data pick ctx req spec
      | none ↦ refused (unimplemented "method %v" req.method)
    ]
  ]

  -- `handle`
  unfoldable pub handle : Bool → Option Error → Request → ServiceSet M H → Handled M H
  handle pick ctx req s = elim (lookup req.service s) [
    | some srv ↦ handle_method pick ctx req srv
    | none ↦ refused (unimplemented "service %v" req.service)
  ]
