-- ===== src/Exchange/Download.antt =====
-- The messages of a streaming server on their way to the client's `RecvMsg`.
pub mod Steps
pub mod Arrives
use ttrpc.Prelude.{◌≡◌, true, false, Option, none, some, List, [], ◌∷◌, nat_eq, string_eq}
use ttrpc.Prelude.Assoc.{lookup}
use ttrpc.Errors.{Error, Slice, eof}
use ttrpc.Frame.{IsUint32}
use ttrpc.Channel.Send.{IsOpen}
use ttrpc.Request.{Libraries}
use ttrpc.Services.{StreamHandler, ServiceSet}
use ttrpc.Stream.{Stream}
use ttrpc.Conn.{sub_active}
use ttrpc.Conn.Receiver.{Job, reading}
use ttrpc.Conn.System.{System, Event, job_send, job_end, run}
use ttrpc.Client.{Client, Round, again, receive_round}
use ttrpc.Client.Streaming.{Outcome, outcome, recv_msg}
use ttrpc.Exchange.{since, arrives}
use ttrpc.Exchange.Streaming.{Ends, ends}

-- The call runs at the server, and the client waits for its messages.
pub record Downloading (e : Ends) (st : Stream) (j : Job) : Type 0 where
  pub live : e.client.cancelled ≡ false
  pub open_side : e.stream.remote_closed ≡ false
  pub streams : e.stream.streaming_server ≡ true
  pub registered : lookup e.stream.id e.client.streams ≡ some e.stream.pointer
  pub kept : lookup e.stream.pointer e.client.store ≡ some st
  pub same_id : st.id ≡ e.stream.id
  pub open_stream : st.closed ≡ false
  pub empty : st.recv ≡ none
  pub range : IsUint32 e.stream.id
  pub at_recv : e.system.place ≡ reading
  pub running : e.system.conn.finished ≡ false
  pub writable : IsOpen e.system.conn.writer
  pub job : lookup e.stream.id e.system.jobs ≡ some j
  pub is_stream : j.is_stream ≡ true
  pub handler : StreamHandler
  pub handled : lookup e.stream.id e.system.conn.handlers ≡ some handler
  pub may_send : handler.local_closed ≡ false
  pub streaming : j.streaming_server ≡ true

module _ {M H : Type 0} (lib : Libraries) (svc : ServiceSet M H)
    (unmarshal : Slice → Option Error) where
  after_round : Ends → System → Round → Option Outcome
  after_round e t (again c) = recv_msg lib unmarshal false none e.stream c
  after_round e t other = none

  -- A reply of the server's call: what the main loop wrote, the client's receive loop reads, and the
  -- client's `RecvMsg` returns.
  bring : Event → Ends → Option (Option Error × Ends)
  bring v e = elim (run lib svc (v ∷ []) e.system) [
    | none ↦ none
    | some t ↦
        elim (after_round e t
          (receive_round lib false (arrives (since e.system.conn.writer t.conn.writer)) e.client)) [
            | none ↦ none
            | some x ↦ some (x.error, ends x.stream x.client t)
          ]
  ]

  -- The call sends these messages, each marshalled, and ends without an error and a result; what `RecvMsg`
  -- returned each time (`none`: a message was unmarshalled).
  pub download : List Slice → Ends → Option (List (Option Error) × Ends)
  download [] e = elim (bring (job_end e.stream.id none none) e) [
    | none ↦ none
    | some (r, f) ↦ some (r ∷ [], f)
  ]
  download (q ∷ qs) e = elim (bring (job_send e.stream.id q) e) [
    | none ↦ none
    | some (r, f) ↦ elim (download qs f) [ none ↦ none | some (rs, g) ↦ some (r ∷ rs, g) ]
  ]

  -- The call is over at both ends.
  pub record Downloaded (e f : Ends) : Type 0 where
    pub ended :
        recv_msg lib unmarshal false none f.stream f.client
        ≡ some (outcome (some eof) f.stream f.client)
    pub forgotten : lookup e.stream.id f.client.streams ≡ none
    pub no_job : lookup e.stream.id f.system.jobs ≡ none
    pub not_stored : lookup e.stream.id f.system.conn.streams ≡ none
    pub count : f.system.conn.active ≡ sub_active e.system.conn.active
