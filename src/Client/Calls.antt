-- ===== src/Client/Calls.antt =====
-- client.go: `dispatch` and `Call`, split where they wait for the response.
pub mod Creation
pub mod Dispatch
use ttrpc.Prelude.{
  ℕ, Bool, ◌&&◌, Option, none, some, List, if◌then◌else◌, ◌==◌, nat_eq, string_eq, take,
}
use ttrpc.Prelude.Assoc.{lookup}
use ttrpc.Errors.{Error, Result, ok, err, Slice, Status, wrap, err_closed, err_protocol, status}
use ttrpc.Frame.{message_type_response, message_type_string}
use ttrpc.Request.{Libraries, Request, Response}
use ttrpc.Stream.{StreamMessage, Taken, message, fails, waits, take_message}
use ttrpc.Conn.{code_is_ok}
use ttrpc.Client.{Client, Created, create_stream, delete_stream}

-- `dispatch` up to its `select`: it has failed, or waits on the stream behind a pointer.
pub data Dispatched : Type 0 where
  failed : Error → Client → Dispatched
  waiting : ℕ → Client → Dispatched

unfoldable pub dispatched : Created → Option ℕ → Option Error → Dispatched
dispatched d (some ptr) none = waiting ptr d.client
dispatched d none none = failed err_closed d.client
dispatched d _ (some e) = failed e d.client

unfoldable pub dispatch_encoded : Client → Result (List ℕ) → Dispatched
dispatch_encoded c (err e) = failed e c
dispatch_encoded c (ok p) = let d = create_stream 0 (some p) c in dispatched d d.pointer d.error

unfoldable pub dispatch_start : Libraries → Request → Client → Dispatched
dispatch_start lib req c = dispatch_encoded c (lib.marshal_request req)

-- `p[:n]`
abbrev pub slice_prefix : ℕ → Slice → Slice
slice_prefix n none = none
slice_prefix n (some p) = some (take n p)

abbrev pub unexpected_message : ℕ → Error
unexpected_message t = wrap (message_type_string t) err_protocol

-- What becomes of the message that `dispatch` took.
unfoldable pub read_response : Libraries → StreamMessage → Result Response
read_response lib m =
    if m.header.type == message_type_response
    then lib.unmarshal_response (slice_prefix m.header.size m.payload)
    else err (unexpected_message m.header.type)

-- The cases of the caller's and of the client's context, of which Go takes either if both are done.
unfoldable pub early_case : Bool → Option Error → Bool → Option Error
early_case first none cancelled = if cancelled then some err_closed else none
early_case first (some e) cancelled = if cancelled && first then some err_closed else some e

unfoldable pub dispatch_taken : Libraries → ℕ → Client → Taken → Option (Result Response × Client)
dispatch_taken lib ptr c (message m s) = some (read_response lib m, delete_stream ptr c)
dispatch_taken lib ptr c (fails none) = some (err err_closed, delete_stream ptr c)
dispatch_taken lib ptr c (fails (some e)) = some (err e, delete_stream ptr c)
dispatch_taken lib ptr c waits = none

-- `dispatch` from its `select` on, with the deferred `deleteStream`; `none`: no case is ready yet. (A
-- message that is taken leaves the channel of a stream that is deleted at once.)
unfoldable pub dispatch_end :
    Libraries → Bool → Bool → Option Error → ℕ → Client → Option (Result Response × Client)
dispatch_end lib pick first ctx ptr c = elim (lookup ptr c.store) [
  | none ↦ none
  | some s ↦ dispatch_taken lib ptr c (take_message pick (early_case first ctx c.cancelled) s)
]

unfoldable pub status_error : Option Status → Option Error
status_error none = none
status_error (some st) = if code_is_ok st.code then none else some (status st.code st.message)

unfoldable pub call_status : Slice → Option Error → Result Slice
call_status p none = ok p
call_status p (some e) = err e

-- The end of `Call`: the payload is unmarshalled first (`none` is success), then the status decides.
unfoldable pub call_result : (Slice → Option Error) → Response → Result Slice
call_result unmarshal r = elim (unmarshal r.payload) [
  | some e ↦ err e
  | none ↦ call_status r.payload (status_error r.status)
]
