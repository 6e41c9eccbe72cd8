-- ===== src/Conn/Sender.antt =====
-- server.go, the main loop of `serverConn.run`: it publishes the state of the connection, writes the
-- replies and retires their streams.
pub mod Retire
pub mod Replies
use ttrpc.Prelude.{
  ℕ, bit_or, Bool, true, false, not, ◌||◌, Option, none, some, List, if◌then◌else◌, nat_eq,
  string_eq,
}
use ttrpc.Prelude.Assoc.{delete}
use ttrpc.Errors.{
  Error, Result, ok, err, Slice, eof, unexpected_eof, conn_reset, wrap, op, oversized,
}
use ttrpc.Frame.{message_type_response, message_type_data, flag_remote_closed, flag_no_data}
use ttrpc.Channel.{Writer, send}
use ttrpc.Request.{Libraries}
use ttrpc.Services.{is_nil}
use ttrpc.Conn.{Conn, active, idle, Reply, status_is_ok, is_positive, sub_active}

-- One message that the loop hands to `ch.send`.
pub record Outgoing : Type 0 where
  pub stream_id : ℕ
  pub type : ℕ
  pub flags : ℕ
  pub payload : Slice

abbrev pub data_flags : Bool → Slice → ℕ
data_flags close_stream p =
    let flags = if close_stream then flag_remote_closed else 0 in
    if is_nil p then bit_or flags flag_no_data else flags

unfoldable pub marshalled : ℕ → Result (List ℕ) → Result Outgoing
marshalled id (ok p) =
    ok (record { stream_id = id; type = message_type_response; flags = 0; payload = some p })
marshalled id (err e) = err e

-- Which message a reply becomes.
unfoldable pub outgoing : Libraries → Reply → Result Outgoing
unfolding marshalled
outgoing lib r =
    if not r.streaming || not (status_is_ok r.status)
    then marshalled r.id (lib.marshal_response (record { status = r.status; payload = r.payload }))
    else ok (record {
      stream_id = r.id;
      type = message_type_data;
      flags = data_flags r.close_stream r.payload;
      payload = r.payload;
    })

-- The head of the loop.
pub publish : Conn → Conn
publish c = record c { published = if is_positive c.active then active else idle }

-- The deferred calls when `run` returns.
abbrev pub finish : Conn → Conn
finish c = record c { finished = true }

pub retire : Reply → Conn → Conn
retire r c =
    if r.close_stream
    then record c { streams = delete r.id c.streams; active = sub_active c.active }
    else c

unfoldable pub after_send : Reply → Conn → Option Error × Writer → Conn
unfolding retire publish
after_send r c (none, w) = publish (retire r (record c { writer = w }))
after_send r c (some e, w) = finish (record c { writer = w })

unfoldable pub transmit : Reply → Conn → Result Outgoing → Conn
transmit r c (err e) = finish c
transmit r c (ok m) = after_send r c (send m.stream_id m.type m.flags m.payload c.writer)

-- The branch of the loop that takes a reply, and the head of the next round.
unfoldable pub take_reply : Libraries → Reply → Conn → Conn
take_reply lib r c = transmit r c (outgoing lib r)

-- `errors.Is` of EOF, ErrUnexpectedEOF or ECONNRESET
is_disconnect : Error → Bool
is_disconnect eof = true
is_disconnect unexpected_eof = true
is_disconnect conn_reset = true
is_disconnect (wrap s e) = is_disconnect e
is_disconnect (op s e) = is_disconnect e
is_disconnect (oversized n e) = is_disconnect e
is_disconnect _ = false

-- The branch of the loop that takes what the receiver left in `recvErr`; `none` is the closed channel.
unfoldable pub take_recv_error : Option Error → Conn → Conn
unfolding is_disconnect publish
take_recv_error none c = publish c
take_recv_error (some e) c = if is_disconnect e then finish c else publish c
