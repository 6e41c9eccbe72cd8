-- ===== src/Exchange/Streaming.antt =====
-- The messages of a streaming client on their way into the handler of the server's stream.
pub mod Interleaved
use ttrpc.Prelude.{
  ℕ, suc, ◌%◌, ◌≤◌, ◌<◌, ◌≡◌, refl, ap, ◌∙◌, Bool, true, false, Option, none, some, List, [], ◌∷◌,
  ◌++◌, map, append-nil, arith, nat_eq, string_eq, length,
}
use ttrpc.Prelude.Assoc.{lookup, insert, lookup-insert_self}
use ttrpc.Errors.{Error, ok, err, Slice, eof, message_length_max}
use ttrpc.Frame.{message_type_data, IsUint32}
use ttrpc.Channel.{Writer, Received, send, slice_length, as_received}
use ttrpc.Channel.Send.{IsOpen, sent, frame, send-IsOpen}
use ttrpc.Request.{Libraries}
use ttrpc.Services.{ServiceSet, StreamHandler, recv_capacity, close_send}
use ttrpc.Services.Handler.{drain}
use ttrpc.Client.{Client}
use ttrpc.Client.Streaming
use ttrpc.Client.Streaming.{outcome, ClientStream, Outcome, send_msg}
use ttrpc.Client.Streaming.Protocol.{send_msg-shape}
use ttrpc.Conn.Receiver.{turn, on_received, reading}
use ttrpc.Conn.Receiver.Turns.{stream_data}
use ttrpc.Conn.System.{System, receive, run, after_turn, step}
use ttrpc.Conn.System.Calls.{IsReading, receive_turn}
use ttrpc.Exchange.{since, arrives, received_frame, arrives-frame}

-- Both ends of one stream: the client's, and the server's connection.
pub record Ends : Type 0 where
  pub stream : ClientStream
  pub client : Client
  pub system : System

-- The stream is open for the client's messages at both ends; the handler's channel is that of `sh`.
pub record Uploading (e : Ends) (sh : StreamHandler) : Type 0 where
  pub streams : e.stream.streaming_client ≡ true
  pub sending : e.stream.local_closed ≡ false
  pub writable : IsOpen e.client.writer
  pub odd : e.stream.id % 2 ≡ 1
  pub range : IsUint32 e.stream.id
  pub serving : IsReading e.system
  pub stored : lookup e.stream.id e.system.conn.streams ≡ some true
  pub handled : lookup e.stream.id e.system.conn.handlers ≡ some sh
  pub remote_open : sh.remote_closed ≡ false
  pub recv_open : sh.recv_closed ≡ false
  pub live : sh.ctx_error ≡ none

abbrev pub ends : ClientStream → Client → System → Ends
ends cs c s = record { stream = cs; client = c; system = s }

-- A message on a working writer adds its frame.
frame_added :
    (id t flags : ℕ) (p : Slice) (w : Writer)
    → IsOpen w
    → slice_length p ≤ message_length_max
    → let x = send id t flags p w in
      (x.0 ≡ none) × IsOpen x.1 × (sent x.1 ≡ sent w ++ frame id t flags p)
frame_added id t flags p w o l =
    let x = send id t flags p w in
    let (fine, o', empty, wire) = send-IsOpen id t flags p w o l in
    (fine, o', rw (empty, append-nil x.1.conn.wire) wire)

-- The stream has taken what was sent, and the client's side is closed at both ends.
pub record Uploaded (id n : ℕ) (all : List Slice) (f : Ends) : Type 0 where
  pub closed_here : f.stream.local_closed ≡ true
  pub goes_on : f.system.place ≡ reading
  pub handler : StreamHandler
  pub there : lookup id f.system.conn.handlers ≡ some handler
  pub drained : drain (suc n) handler ≡ map ok all ++ err eof ∷ []

module _ {M H : Type 0} (lib : Libraries) (svc : ServiceSet M H) (pick : Bool)
    (ctx : Option Error) where
  -- What the client's method wrote, the server's receiver reads; `none` where the method failed.
  relay : Ends → Outcome → Option Ends
  relay e x = elim x.error [
    | some f ↦ none
    | none ↦
        elim (run lib svc (receive pick ctx (arrives (since e.client.writer x.client.writer)) ∷ [])
          e.system) [ none ↦ none | some t ↦ some (ends x.stream x.client t) ]
  ]

  relayed :
      (e : Ends) (x : Outcome) (got : Received) (t : System)
      → x.error ≡ none
      → arrives (since e.client.writer x.client.writer) ≡ got
      → step lib svc (receive pick ctx got) e.system ≡ some t
      → relay e x ≡ some (ends x.stream x.client t)
  unfolding relay run
  relayed e x got t q a r = ground (arith, q, a, r)

  -- The client closes its side.
  pub hang_up : Ends → Option Ends
  hang_up e = relay e (Streaming.close_send e.stream e.client)

  module _ (e : Ends) (sh : StreamHandler) (u : Uploading e sh) where
    abbrev queued : Slice → StreamHandler
    queued p = record sh { recv = sh.recv ++ as_received p ∷ [] }

    -- The server's receiver has dealt with a data message of the stream.
    after_data : StreamHandler → System
    after_data sh' = record e.system {
      conn = record e.system.conn { handlers = insert e.stream.id sh' e.system.conn.handlers };
      place = reading;
    }

    data_step :
        (flags : ℕ) (p : Slice) (sh' : StreamHandler)
        → on_received lib pick ctx svc
            (received_frame e.stream.id message_type_data flags p)
            e.system.conn
          ≡ turn
              (record e.system.conn { handlers = insert e.stream.id sh' e.system.conn.handlers })
              reading
        → step lib svc
            (receive pick ctx (received_frame e.stream.id message_type_data flags p))
            e.system
          ≡ some (after_data sh')
    unfolding after_data
    data_step flags p sh' turned =
        receive_turn lib svc e.system u.serving pick ctx
          (received_frame e.stream.id message_type_data flags p)
        ∙ ap (λ x. some (after_turn e.stream.id x e.system)) turned

    message_up :
        (p : Slice)
        → length sh.recv < recv_capacity
        → slice_length p ≤ message_length_max
        → (f : Ends) × (relay e (send_msg (ok p) e.stream e.client) ≡ some f)
          × Uploading f (queued p)
          × (f.stream.id ≡ e.stream.id)
    unfolding after_data
    message_up p room l =
        let id = e.stream.id in
        let w = (send id message_type_data 0 p e.client.writer).1 in
        let (fine, o, wire) = frame_added id message_type_data 0 p e.client.writer u.writable l in
        let arrived =
          arrives-frame e.client.writer w id message_type_data 0 p wire u.range (omega arith)
            (omega arith) l in
        let turned =
          stream_data lib svc pick ctx (received_frame id message_type_data 0 p) e.system.conn sh
            (record { whole = refl; odd = u.odd; typed = refl }) u.stored u.handled refl refl
            u.remote_open u.recv_open u.live room in
        let x = outcome none e.stream (record e.client { writer = w }) in
        let t = after_data (queued p) in
        (
          ends e.stream (record e.client { writer = w }) t,
          rw (send_msg-shape e.stream e.client p u.streams u.sending fine)
              (relayed e x _ t refl arrived (data_step 0 p (queued p) turned)),
          record {
            streams = u.streams;
            sending = u.sending;
            writable = o;
            odd = u.odd;
            range = u.range;
            serving = record { at_recv = refl; not_closing = u.serving.not_closing };
            stored = u.stored;
            handled = lookup-insert_self id (queued p) e.system.conn.handlers;
            remote_open = u.remote_open;
            recv_open = u.recv_open;
            live = u.live;
          },
          refl,
        )
