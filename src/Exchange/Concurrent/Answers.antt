-- ===== src/Exchange/Concurrent/Answers.antt =====
-- server.go and client.go: many calls at once, over one connection.
use ttrpc.Prelude.{
  ℕ, ◌+◌, ◌<◌, ◌≡◌, sym, ◌∙◌, subst, ◌⊎◌, inl, inr, Bool, true, false, ◌&&◌, Option, some, List, [],
  ◌∷◌, ◌++◌, append-nil, arith, if◌then◌else◌, All, Any, Any-map, Any-append_right,
}
use ttrpc.Prelude.Sets.{contains}
use ttrpc.Errors.{Error, Result, ok, err}
use ttrpc.Frame.{IsUint32, message_type_response, message_type_data}
use ttrpc.Channel.{Writer, Received, slice_length, as_received}
use ttrpc.Channel.Send.{IsOpen}
use ttrpc.Channel.Sequence.{Packet, frames, recv_all, arrival}
use ttrpc.Request.{Libraries, Request, Response}
use ttrpc.Stream.{StreamMessage}
use ttrpc.Client.{Client, message_of}
use ttrpc.Client.Cleanup.{ClosedAt}
use ttrpc.Client.Calls.{
  unexpected_message, waiting, dispatch_start, dispatch_end, early_case, read_response,
  slice_prefix,
}
use ttrpc.Client.System.{System, Event, call, run, start}
use ttrpc.Client.System.Runs.{made_by}
use ttrpc.Client.System.Track.{first_message}
use ttrpc.Client.System.Answer.{call_answered}
use ttrpc.Services.{ServiceSet}
use ttrpc.Conn.{new_conn, Reply, status_is_ok}
use ttrpc.Conn.Sender.Replies.{outgoing_flags}
use ttrpc.Conn.System.Wire.{all_packets, as_packet}
use ttrpc.Conn.System.Wire.Runs.{replies, run-Writes}
use ttrpc.Exchange.{ReadsBack, whole_prefix}
use ttrpc.Exchange.Concurrent.{received_in, IsMessage, first_message-Any, recv_all-Any}
use ttrpc.Exchange.Concurrent.Replies.{Carries, all_packets-Sendable, all_packets-Carries}

-- What a unary call returns that a reply reaches: its status and payload, unless the server streams.
unfoldable pub result_of : Reply → Result Response
result_of r =
    if r.streaming && status_is_ok r.status
    then err (unexpected_message message_type_data)
    else ok (record { status = r.status; payload = as_received r.payload })

-- A reply on the identifier, with this result
abbrev pub Answers : ℕ → Result Response → Reply → Type 0
Answers id x r = (r.id ≡ id) × (x ≡ result_of r)

response_read :
    (lib : Libraries) (codec : ReadsBack lib) (r : Reply) (m : Packet) (p : List ℕ)
    → m.type ≡ message_type_response
    → r.streaming && status_is_ok r.status ≡ false
    → lib.marshal_response (record { status = r.status; payload = r.payload }) ≡ ok p
    → m.payload ≡ some p
    → read_response lib (message_of (arrival m)) ≡ result_of r
unfolding read_response result_of
response_read lib codec r m p t u q e =
    let whole : slice_prefix (slice_length m.payload) (as_received m.payload)
        ≡ as_received (some p) =
      rw e (whole_prefix p) in
    ground (arith, whole, codec.response (record { status = r.status; payload = r.payload }) p q)

data_read :
    (lib : Libraries) (r : Reply) (m : Packet)
    → m.type ≡ message_type_data
    → r.streaming && status_is_ok r.status ≡ true
    → read_response lib (message_of (arrival m)) ≡ result_of r
unfolding read_response result_of
data_read lib r m t u = ground arith

message-Answers :
    (lib : Libraries) (codec : ReadsBack lib) (id : ℕ) (m : StreamMessage) (r : Reply)
    → Carries lib (λ p. IsMessage id m (arrival p)) r
    → Answers id (read_response lib m) r
message-Answers lib codec id m r c =
    let (same, kinds) = outgoing_flags lib r c.message c.encoded in
    let read : read_response lib (message_of (arrival (as_packet c.message))) ≡ result_of r =
      elim kinds [
        | inl (t, f, u, (p, q, e)) ↦ response_read lib codec r (as_packet c.message) p t u q e
        | inr (t, u, q, f, g) ↦ data_read lib r (as_packet c.message) t u
      ] in
    (
      sym same ∙ c.holds.on_stream,
      subst (λ x. read_response lib x ≡ result_of r) c.holds.content read,
    )

-- Everything that the server's end puts on the wire of a new connection
served :
    {M H : Type 0} (lib : Libraries) (svc : ServiceSet M H) (w : Writer)
    (es : List ttrpc.Conn.System.Event) (t : ttrpc.Conn.System.System)
    → IsOpen w
    → w.conn.wire ≡ []
    → w.buffer ≡ []
    → ttrpc.Conn.System.run lib svc es (ttrpc.Conn.System.start w) ≡ some t
    → t.conn.writer.conn.wire
      ≡ frames (all_packets lib (replies lib svc es (ttrpc.Conn.System.start w)))
unfolding ttrpc.Conn.System.start new_conn
served lib svc w es t o e f h =
    let (o', all, b) = run-Writes lib svc es (ttrpc.Conn.System.start w) t o h in
    ground (arith, all, b f, append-nil t.conn.writer.conn.wire)

module _ {M H : Type 0} (lib : Libraries) (svc : ServiceSet M H) (codec : ReadsBack lib) where
  reply_read :
      (rs : List Reply) (es : List Event) (n id : ℕ) (fault : Error) (m : StreamMessage)
      (before : List Received)
      → All (λ (r : Reply). IsUint32 r.id) rs
      → before ++ received_in es
        ≡ recv_all n (record { pending = frames (all_packets lib rs); fault = fault })
      → first_message id es ≡ some m
      → Any (Answers id (read_response lib m)) rs
  reply_read rs es n id fault m before ids there heard =
      let read : Any (IsMessage id m) (before ++ received_in es) =
        Any-append_right (IsMessage id m) before (received_in es)
          (first_message-Any id m es heard) in
      let packet =
        recv_all-Any (IsMessage id m) fault (λ got g. g.whole) n (all_packets lib rs)
          (all_packets-Sendable lib rs ids) (subst (Any (IsMessage id m)) there read) in
      Any-map (Carries lib (λ p. IsMessage id m (arrival p))) (Answers id (read_response lib m))
        (message-Answers lib codec id m) rs
        (all_packets-Carries lib (λ p. IsMessage id m (arrival p)) rs packet)

  -- A client and a server on the two ends of a new connection, each in any interleaving of its goroutines:
  -- the client of its calls, streams, receive loop and Close, with fewer than 2^31 - 2 streams made; the
  -- server, whose writer works, of its receiver, main loop and handlers, with identifiers of 32 bits. If
  -- what the client's receive loop has read are the first results of `recv` on the bytes that the server
  -- has put on the wire, and responses are read back as they were encoded, then what a waiting call
  -- returns is the status and the payload of a reply of the server on the call's own identifier (or
  -- ErrProtocol, if that reply is a message of a stream); or it is an error, and then a context is done
  -- and the error is its, or the stream of the call was closed.
  pub served_call_answered :
      (sw : Writer) (ses : List ttrpc.Conn.System.Event) (t : ttrpc.Conn.System.System)
      → IsOpen sw
      → sw.conn.wire ≡ []
      → sw.buffer ≡ []
      → ttrpc.Conn.System.run lib svc ses (ttrpc.Conn.System.start sw) ≡ some t
      → All (λ (r : Reply). IsUint32 r.id) (replies lib svc ses (ttrpc.Conn.System.start sw))
      → (w : Writer) (es fs : List Event) (s u : System) (req : Request) (ptr : ℕ) (c : Client)
      → made_by es + made_by fs < 2147483646
      → run lib es (start w) ≡ some s
      → dispatch_start lib req s.client ≡ waiting ptr c
      → run lib (call req ∷ fs) s ≡ some u
      → contains ptr u.waiting ≡ true
      → (n : ℕ) (fault : Error)
      → received_in es ++ received_in fs
        ≡ recv_all n (record { pending = t.conn.writer.conn.wire; fault = fault })
      → (pick first : Bool) (ctx : Option Error) (x : Result Response) (d : Client)
      → dispatch_end lib pick first ctx ptr u.client ≡ some (x, d)
      → Any (Answers s.client.next_stream_id x) (replies lib svc ses (ttrpc.Conn.System.start sw))
        ⊎ ((e : Error) × (x ≡ err e)
            × ((early_case first ctx u.client.cancelled ≡ some e) ⊎ ClosedAt ptr u.client))
  served_call_answered sw ses t o empty flushed ran ids w es fs s u req ptr c few before out after
        at_end n fault there pick first ctx x d ends =
      let id = s.client.next_stream_id in
      let rs = replies lib svc ses (ttrpc.Conn.System.start sw) in
      let wire = served lib svc sw ses t o empty flushed ran in
      elim (call_answered lib w es fs s u req ptr c few before out after at_end pick first ctx x d
        ends) [
          | inr failed ↦ inr failed
          | inl (m, heard, e) ↦ inl (
              subst (λ y. Any (Answers id y) rs) (sym e)
                (reply_read rs fs n id fault m (received_in es) ids (rw wire at there) heard))
        ]
