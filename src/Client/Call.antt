-- ===== src/Client/Call.antt =====
-- client.go, `Call` around its dispatch, and the options of a client; codec.go. protobuf's functions and
-- `path.Join` are parameters.
pub mod Results
use ttrpc.Prelude.{ℕ, String, Bool, Option, none, some, List, [], ◌∷◌, if◌then◌else◌}
use ttrpc.Prelude.Text.{◌+++◌}
use ttrpc.Errors.{Error, Result, ok, err, Slice, text, with_str}
use ttrpc.Request.{Request, Response}
use ttrpc.Metadata.{Md, set_request}
use ttrpc.Interceptor.{ClientInterceptor, Invoker}
use ttrpc.Client.Calls.{call_result}

-- A value of any type: a `proto.Message`, or one of another type, by the type's name.
pub data Value (P : Type 0) : Type 0 where
  proto : P → Value P
  other : String → Value P

-- `codec.Marshal`
pub codec_marshal : {P : Type 0} → (P → Result Slice) → Value P → Result Slice
codec_marshal marshal (proto v) = marshal v
codec_marshal marshal (other t) = err (text (with_str "ttrpc: cannot marshal unknown type: %T" t))

-- `codec.Unmarshal` into a value that is given by its own `proto.Unmarshal`
pub codec_unmarshal : Value (Slice → Option Error) → Slice → Option Error
codec_unmarshal (proto unmarshal) p = unmarshal p
codec_unmarshal (other t) p =
    some (text (with_str "ttrpc: cannot unmarshal into unknown type: %T" t))

-- `fullPath`
pub full_path : (String → String → String) → String → String → String
full_path join service method = "/" +++ join service method

-- What `Call` reads of its context: the metadata, and the nanoseconds until the deadline as the bit
-- pattern of an int64.
pub record CallContext : Type 0 where
  pub metadata : Option Md
  pub until_deadline : Option ℕ

with_metadata : Option Md → Request → Request
with_metadata none r = r
with_metadata (some m) r = set_request m r

with_timeout : Option ℕ → Request → Request
with_timeout none r = r
with_timeout (some n) r = record r { timeout_nano = n }

-- The request of `Call`
pub call_request : String → String → Slice → CallContext → Request
unfolding with_metadata with_timeout
call_request service method p ctx = with_timeout ctx.until_deadline (
    with_metadata ctx.metadata
      (record { service = service; method = method; payload = p; timeout_nano = 0; metadata = [] }))

abbrev pub no_response : Response
no_response = record { status = none; payload = none }

-- What an invoker makes of a state of the program: its error, the response that it has filled in, and the
-- state behind it.
abbrev pub Invoked : Type 0 → Type 0
Invoked W = W → Option Error × Response × W

abbrev pub Dispatch : Type 0 → Type 0
Dispatch W = Invoker CallContext Request Response (Invoked W)

abbrev pub CallInterceptor : Type 0 → Type 0
CallInterceptor W = ClientInterceptor CallContext Request Response String (Invoked W)

pub call_invoked :
    {W : Type 0} → Value (Slice → Option Error) → Option Error × Response × W → Result Slice × W
call_invoked resp (some e, r, w) = (err e, w)
call_invoked resp (none, r, w) = (call_result (codec_unmarshal resp) r, w)

module _ {P W : Type 0} (join : String → String → String) (marshal : P → Result Slice) where
  -- `Call` behind its marshalling
  call_marshalled :
      CallInterceptor W
      → Dispatch W
      → CallContext
      → String
      → String
      → Value (Slice → Option Error)
      → W
      → Result Slice
      → Result Slice × W
  call_marshalled i dispatch ctx service method resp w (err e) = (err e, w)
  call_marshalled i dispatch ctx service method resp w (ok p) = call_invoked resp (
      i ctx (call_request service method p ctx) no_response (full_path join service method) dispatch
        w)

  -- `Call`: the payload that was unmarshalled into `resp`, or the error
  pub call :
      CallInterceptor W
      → Dispatch W
      → CallContext
      → String
      → String
      → Value P
      → Value (Slice → Option Error)
      → W
      → Result Slice × W
  unfolding call_marshalled
  call i dispatch ctx service method req resp w =
      call_marshalled i dispatch ctx service method resp w (codec_marshal marshal req)

-- What the options of a client set: the user's callback, by a number, and the interceptor
pub record ClientConfig (I : Type 0) : Type 0 where
  pub on_close : Option ℕ
  pub interceptor : Option I

-- `WithOnClose`
with_on_close : {I : Type 0} → ℕ → ClientConfig I → ClientConfig I
with_on_close f c = record c { on_close = some f }

-- `WithUnaryClientInterceptor`
with_unary_client_interceptor : {I : Type 0} → I → ClientConfig I → ClientConfig I
with_unary_client_interceptor i c = record c { interceptor = some i }

-- The loop of `NewClient` over its options
apply_client_options :
    {I : Type 0} → List (ClientConfig I → ClientConfig I) → ClientConfig I → ClientConfig I
apply_client_options [] c = c
apply_client_options (o ∷ os) c = apply_client_options os (o c)

-- `UserOnCloseWait`: whether the callback has returned, and what `ctx.Err()` is once the context is done;
-- where both are, `pick` says whether Go takes the context's case. `none`: it waits.
user_on_close_wait : Bool → Option Error → Bool → Option (Option Error)
user_on_close_wait called none pick = if called then some none else none
user_on_close_wait called (some e) pick =
    if called then (if pick then some (some e) else some none) else some (some e)
