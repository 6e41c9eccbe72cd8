-- ===== src/Stream.antt =====
-- stream.go: the client's side of one stream.
pub mod Closing
use ttrpc.Prelude.{◌&&◌, ℕ, Bool, true, false, Option, none, some, if◌then◌else◌}
use ttrpc.Errors.{Error, Slice, err_closed}
use ttrpc.Frame.{MessageHeader}
use ttrpc.Services.{Wait, done, blocked}

-- `streamMessage`
pub record StreamMessage : Type 0 where
  pub header : MessageHeader
  pub payload : Slice

-- `recv` is the channel of capacity 1; `closed` says that `recvClose` is closed and `closeOnce` done.
pub record Stream : Type 0 where
  pub id : ℕ
  pub recv : Option StreamMessage
  pub recv_err : Option Error
  pub closed : Bool

-- `newStream`
unfoldable pub new_stream : ℕ → Stream
new_stream id = record { id = id; recv = none; recv_err = none; closed = false }

abbrev pub or_closed : Option Error → Error
or_closed none = err_closed
or_closed (some e) = e

-- `closeWithError`; `none` is a nil error.
unfoldable pub close_with_error : Option Error → Stream → Stream
close_with_error e s =
    if s.closed then s else record s { recv_err = some (or_closed e); closed = true }

-- The second `select` of `receive`. `pick` says whether Go takes the context's case where both are ready.
receive_select :
    Bool
    → Option Error
    → StreamMessage
    → Stream
    → Option StreamMessage
    → Wait (Option Error × Stream)
receive_select pick none msg s none = done (none, record s { recv = some msg })
receive_select pick none msg s (some m) = blocked
receive_select pick (some e) msg s none =
    if pick then done (some e, s) else done (none, record s { recv = some msg })
receive_select pick (some e) msg s (some m) = done (some e, s)

-- `receive`; `ctx` is what `ctx.Err()` returns once the context is done.
unfoldable pub receive : Bool → Option Error → StreamMessage → Stream → Wait (Option Error × Stream)
unfolding receive_select
receive pick ctx msg s =
    if s.closed then done (s.recv_err, s) else receive_select pick ctx msg s s.recv

-- The second `select` of `receive` alone, once the receive loop waits in it: the stream may have been
-- closed meanwhile. `first` says whether Go takes that case where others are ready too.
unfoldable pub receive_waited :
    Bool → Bool → Option Error → StreamMessage → Stream → Wait (Option Error × Stream)
unfolding receive_select
receive_waited first pick ctx msg s =
    if s.closed && first then done (s.recv_err, s) else receive_select pick ctx msg s s.recv

-- The `select` of `dispatch` and of `RecvMsg`: which case is taken. `early` are the cases of contexts that
-- are done, in the order of the code; `pick` says whether one of them is taken where a message is ready
-- or the stream is closed too.
pub data Taken : Type 0 where
  message : StreamMessage → Stream → Taken
  fails : Option Error → Taken
  waits : Taken

take_ready : Stream → Option StreamMessage → Taken
take_ready s (some m) = message m (record s { recv = none })
take_ready s none = if s.closed then fails s.recv_err else waits

take_or : Taken → Option Error → Bool → Taken
take_or waits (some e) pick = fails (some e)
take_or waits none pick = waits
take_or t (some e) pick = if pick then fails (some e) else t
take_or t none pick = t

unfoldable pub take_message : Bool → Option Error → Stream → Taken
unfolding take_ready take_or
take_message pick early s = take_or (take_ready s s.recv) early pick
