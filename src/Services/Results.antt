-- ===== src/Services/Results.antt =====
-- services.go: what `unaryCall` and `streamCall` make of a handler's result, and `convertCode`. A
-- handler's object is a type parameter; `none` is a nil object, and marshalling one is a parameter.
use ttrpc.Prelude.{
  ℕ, ◌≡◌, refl, ◌≢◌, ◌⊎◌, inl, inr, Bool, true, false, Option, none, some, List, nat_eq, string_eq,
}
use ttrpc.Errors.{
  Result-cases, Error, Result, ok, err, Slice, Code, Status, plain, with_err, text, eof,
  closed_pipe, no_progress, short_buffer, short_write, unexpected_eof, invalid, ctx_canceled,
  ctx_deadline_exceeded, exist, not_exist, permission,
}
use ttrpc.Request.{Libraries}

-- `convertCode`, of an error that is not nil
convert_code : Error → Code
convert_code eof = Code.out_of_range
convert_code closed_pipe = Code.failed_precondition
convert_code no_progress = Code.failed_precondition
convert_code short_buffer = Code.failed_precondition
convert_code short_write = Code.failed_precondition
convert_code unexpected_eof = Code.failed_precondition
convert_code invalid = Code.invalid_argument
convert_code ctx_canceled = Code.canceled
convert_code ctx_deadline_exceeded = Code.deadline_exceeded
convert_code exist = Code.already_exists
convert_code not_exist = Code.not_found
convert_code permission = Code.permission_denied
convert_code _ = Code.unknown

status_from : Error → Status × Bool → Status
status_from e (st, true) = st
status_from e (st, false) = record { code = convert_code e; message = with_err "%v" e }

-- The end of `unaryCall` and `streamCall`: the payload (nil with an error) and the status (nil without).
with_status : Libraries → Result Slice → Slice × Option Status
with_status lib (ok p) = (p, none)
with_status lib (err e) = (none, some (status_from e (lib.from_error e)))

abbrev marshal_called_with_nil : Error
marshal_called_with_nil = text (plain "ttrpc: marshal called with nil")

module _ {Obj : Type 0} (marshal : Obj → Result (List ℕ)) where
  -- `protoMarshal`; of a nil object it gives the nil slice.
  proto_marshal : Option Obj → Result Slice
  proto_marshal none = ok none
  proto_marshal (some o) = elim (marshal o) [ ok p ↦ ok (some p) | err e ↦ err e ]

  unary_payload : Result (Option Obj) → Result Slice
  unary_payload (err e) = err e
  unary_payload (ok none) = err marshal_called_with_nil
  unary_payload (ok (some o)) = proto_marshal (some o)

  -- `unaryCall`, from what the interceptor and the method returned
  pub unary_call_result : Libraries → Result (Option Obj) → Slice × Option Status
  unary_call_result lib r = with_status lib (unary_payload r)

  stream_payload : Result (Option Obj) → Result Slice
  stream_payload (err e) = err e
  stream_payload (ok o) = proto_marshal o

  -- `streamCall`, likewise
  stream_call_result : Libraries → Result (Option Obj) → Slice × Option Status
  stream_call_result lib r = with_status lib (stream_payload r)

-- What `status.FromError` documents, of an error that is no status: the code Unknown; the code of an
-- error that is a status is its own. So none of them is OK, unless the handler made such an error.
abbrev pub KeepsCodes : Libraries → Type 0
KeepsCodes lib = (e : Error) → (lib.from_error e).1 ≡ true → (lib.from_error e).0.code ≢ Code.ok

convert_code-ne-ok : (e : Error) → convert_code e ≢ Code.ok
unfolding convert_code
convert_code-ne-ok eof = λ q. cc
convert_code-ne-ok _ = λ q. cc

status_from-ne-ok :
    (e : Error) (x : Status × Bool)
    → (x.1 ≡ true → x.0.code ≢ Code.ok)
    → (status_from e x).code ≢ Code.ok
unfolding status_from
status_from-ne-ok e (st, true) h = h refl
status_from-ne-ok e (st, false) h = convert_code-ne-ok e

-- If no error of a handler carries a status with the code OK: a unary call is answered without a
-- status only with the bytes of an object that its handler returned; a handler's error, a nil object
-- and an object that cannot be marshalled are answered by a status whose code is not OK, and by no
-- payload. So no failure looks like success to the client.
pub unary_call_result_cases :
    {Obj : Type 0} (marshal : Obj → Result (List ℕ)) (lib : Libraries) (r : Result (Option Obj))
    → KeepsCodes lib
    → ((o : Obj) × (p : List ℕ) × (r ≡ ok (some o))
        × (marshal o ≡ ok p)
        × (unary_call_result marshal lib r ≡ (some p, none)))
      ⊎ ((st : Status) × (st.code ≢ Code.ok) × (unary_call_result marshal lib r ≡ (none, some st)))
unfolding unary_call_result unary_payload proto_marshal with_status
unary_call_result_cases marshal lib (err e) h =
    inr (_, status_from-ne-ok e (lib.from_error e) (h e), refl)
unary_call_result_cases marshal lib (ok none) h =
    let e = marshal_called_with_nil in inr (_, status_from-ne-ok e (lib.from_error e) (h e), refl)
unary_call_result_cases marshal lib (ok (some o)) h = elim (Result-cases (marshal o)) [
  | inl (p, q) ↦ inl (o, p, refl, q, rw (q, unary_call_result, proto_marshal) refl)
  | inr (e, q) ↦ inr (
    status_from e (lib.from_error e),
    status_from-ne-ok e (lib.from_error e) (h e),
    rw (q, unary_call_result, proto_marshal) refl,
  )
]

-- The same of a stream's result, but that its handler may return a nil object, which is answered by the
-- nil payload.
stream_call_result_cases :
    {Obj : Type 0} (marshal : Obj → Result (List ℕ)) (lib : Libraries) (r : Result (Option Obj))
    → KeepsCodes lib
    → ((o : Option Obj) × (p : Slice) × (r ≡ ok o)
        × (proto_marshal marshal o ≡ ok p)
        × (stream_call_result marshal lib r ≡ (p, none)))
      ⊎ ((st : Status) × (st.code ≢ Code.ok) × (stream_call_result marshal lib r ≡ (none, some st)))
unfolding stream_call_result stream_payload with_status
stream_call_result_cases marshal lib (err e) h =
    inr (status_from e (lib.from_error e), status_from-ne-ok e (lib.from_error e) (h e), refl)
stream_call_result_cases marshal lib (ok o) h = elim (Result-cases (proto_marshal marshal o)) [
  | inl (p, q) ↦ inl (o, p, refl, q, rw (q, stream_call_result) refl)
  | inr (e, q) ↦ inr (
    status_from e (lib.from_error e),
    status_from-ne-ok e (lib.from_error e) (h e),
    rw (q, stream_call_result) refl,
  )
]
