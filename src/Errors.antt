-- ===== src/Errors.antt =====
-- errors.go: the error values of the package, those of the standard library that the code tells apart,
-- and gRPC's status codes. A formatted text is kept as its format and its arguments.
use ttrpc.Prelude.{
  ℕ, ◌≤◌, ◌<◌, String, ◌≡◌, refl, ◌⊎◌, inl, inr, Option, none, some, List, arith, leb,
  if◌then◌else◌, nat_eq, string_eq,
}

-- The codes of google.golang.org/grpc/codes.
pub data Code : Type 0 where
  ok canceled unknown invalid_argument deadline_exceeded not_found already_exists : Code
  permission_denied resource_exhausted failed_precondition aborted out_of_range : Code
  unimplemented internal unavailable data_loss unauthenticated : Code

-- What a Go value of type `error` can be. `status` is a gRPC status error, `oversized` an
-- `OversizedMessageErr`, `wrap` an error built by `%w`; `foreign` stands for the values of other
-- packages, which the code only passes on.
mutual
  pub data Error : Type 0 where
    err_protocol err_closed err_server_closed err_stream_closed : Error
    eof unexpected_eof closed_pipe no_progress short_buffer short_write invalid : Error
    ctx_canceled ctx_deadline_exceeded : Error
    exist not_exist permission : Error
    conn_reset broken_pipe closed_conn : Error
    op : String → Error → Error
    status : Code → Message → Error
    oversized : ℕ → Error → Error
    wrap : String → Error → Error
    text : Message → Error
    foreign : ℕ → Error

  pub data Message : Type 0 where
    plain : String → Message
    with_num : String → ℕ → Message
    with_nums : String → ℕ → ℕ → Message
    with_str : String → String → Message
    with_err : String → Error → Message

pub record Status : Type 0 where
  pub code : Code
  pub message : Message

-- A byte slice; `none` is Go's nil, which some of the code tells from the empty slice.
abbrev pub Slice : Type 0
Slice = Option (List ℕ)

-- What a Go call that returns a value and an error gives.
pub data Result {ℓ} (A : Type ℓ) : Type ℓ where
  ok : A → Result A
  err : Error → Result A

-- `messageLengthMax` of channel.go, `4 << 20`.
abbrev pub message_length_max : ℕ
message_length_max = 4194304

abbrev oversized_text : String
oversized_text = "message length %v exceed maximum message size of %v"

-- The status that `recv` and `OversizedMessageError` report for a length.
abbrev pub exceeded : ℕ → Error
exceeded n = status resource_exhausted (with_nums oversized_text n message_length_max)

-- `none` is Go's nil error.
unfoldable pub oversized_message_error : ℕ → Option Error
oversized_message_error n =
    if leb n message_length_max then none else some (oversized n (exceeded n))

-- `Unwrap` of an `OversizedMessageErr`, of an `*OpError` and of an error built by `%w`.
abbrev unwrap : Error → Option Error
unwrap (oversized n e) = some e
unwrap (wrap s e) = some e
unwrap (op s e) = some e
unwrap _ = none

-- `RejectedLength`, where the error is an `OversizedMessageErr`.
abbrev rejected_length : Error → Option ℕ
rejected_length (oversized n e) = some n
rejected_length _ = none

-- What `OversizedMessageError` returns for a length, on both branches.
oversized_message_error_cases :
    (n : ℕ)
    → ((n ≤ message_length_max) × (oversized_message_error n ≡ none))
      ⊎ ((message_length_max < n) × (oversized_message_error n ≡ some (oversized n (exceeded n))))
unfolding oversized_message_error
oversized_message_error_cases n = ground arith

pub Result-cases {ℓ} :
    {A : Type ℓ} (r : Result A) → ((a : A) × (r ≡ ok a)) ⊎ ((e : Error) × (r ≡ err e))
Result-cases (ok a) = inl (a, refl)
Result-cases (err e) = inr (e, refl)
