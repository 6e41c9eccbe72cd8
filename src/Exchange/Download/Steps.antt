-- ===== src/Exchange/Download/Steps.antt =====
-- One reply of the server and its way into the client's stream.
use ttrpc.Prelude.{ℕ, ◌≤◌, ◌<◌, ◌≡◌, refl, true, false, none, some, arith, nat_eq, string_eq}
use ttrpc.Prelude.Assoc.{delete}
use ttrpc.Errors.{ok, Slice, message_length_max}
use ttrpc.Frame.{message_type_data, flag_remote_closed}
use ttrpc.Channel.{slice_length, as_received}
use ttrpc.Request.{Libraries}
use ttrpc.Services.{ServiceSet}
use ttrpc.Stream.{Stream, StreamMessage}
use ttrpc.Conn.{Reply, has_flag}
use ttrpc.Conn.Sender.{outgoing, data_flags, take_reply}
use ttrpc.Conn.Sender.Replies.{Replied, take_reply-Replied}
use ttrpc.Conn.Receiver.{Job}
use ttrpc.Conn.System.{
  job_send, job_end, job_sends, job_ends, message_reply, last_reply, main_takes, step, act,
}
use ttrpc.Client.{Client, again, receive_round, message_of, set_stream}
use ttrpc.Client.Calls.{slice_prefix}
use ttrpc.Client.Calls.Dispatch.{hand_over_message}
use ttrpc.Exchange.{since, arrives, received_frame, arrives-frame, whole_prefix}
use ttrpc.Exchange.Streaming.{Ends}
use ttrpc.Exchange.Download.{Downloading}

-- The messages that the two kinds of reply become
pub outgoing-message :
    (lib : Libraries) (id : ℕ) (q : Slice)
    → outgoing lib (message_reply id q)
      ≡ ok (record {
        stream_id = id;
        type = message_type_data;
        flags = data_flags false q;
        payload = q;
      })
unfolding outgoing
outgoing-message lib id q = refl

pub outgoing-end :
    (lib : Libraries) (id : ℕ) (j : Job)
    → j.streaming_server ≡ true
    → outgoing lib (last_reply id j none none)
      ≡ ok (record { stream_id = id; type = message_type_data; flags = 5; payload = none })
unfolding outgoing
outgoing-end lib id j e = ground (arith, e)

pub plain_flags :
    (q : Slice)
    → (data_flags false q < 256) × (has_flag (data_flags false q) flag_remote_closed ≡ false)
plain_flags none = (omega arith, refl)
plain_flags (some p) = (omega arith, refl)

pub whole_slice : (q : Slice) → slice_prefix (slice_length q) (as_received q) ≡ as_received q
whole_slice none = refl
whole_slice (some p) = whole_prefix p

module _ {M H : Type 0} (lib : Libraries) (svc : ServiceSet M H) (e : Ends) (st : Stream) (j : Job)
    (d : Downloading e st j) where
  -- A data message that has arrived, in the client's stream
  abbrev pub arrived_message : ℕ → Slice → StreamMessage
  arrived_message flags q = message_of (received_frame e.stream.id message_type_data flags q)

  abbrev pub holding : ℕ → Slice → Client
  holding flags q =
      set_stream e.stream.pointer (record st { recv = some (arrived_message flags q) }) e.client

  pub takes_in :
      (flags : ℕ) (q : Slice)
      → receive_round lib false (received_frame e.stream.id message_type_data flags q) e.client
        ≡ again (holding flags q)
  takes_in flags q =
      hand_over_message lib (received_frame e.stream.id message_type_data flags q) e.stream.pointer
        st e.client d.live refl d.registered d.kept d.open_stream d.empty

  pub sends_step :
      (q : Slice)
      → step lib svc (job_send e.stream.id q) e.system
        ≡ some (main_takes lib (message_reply e.stream.id q) e.system)
  unfolding step act job_sends
  sends_step q = ground (arith, d.handled, d.may_send, d.running, d.at_recv)

  pub ends_step :
      step lib svc (job_end e.stream.id none none) e.system
      ≡ some (
          main_takes lib
            (last_reply e.stream.id j none none)
            (record e.system { jobs = delete e.stream.id e.system.jobs }))
  unfolding step act job_ends
  ends_step = ground (arith, d.job, d.running, d.at_recv)

  pub reply_arrives :
      (r : Reply) (flags : ℕ) (q : Slice)
      → outgoing lib r
        ≡ ok (record {
          stream_id = e.stream.id;
          type = message_type_data;
          flags = flags;
          payload = q;
        })
      → slice_length q ≤ message_length_max
      → flags < 256
      → Replied r
          (record { stream_id = e.stream.id; type = message_type_data; flags = flags; payload = q })
          e.system.conn
          (take_reply lib r e.system.conn)
        × (arrives (since e.system.conn.writer (take_reply lib r e.system.conn).writer)
            ≡ received_frame e.stream.id message_type_data flags q)
  reply_arrives r flags q o l f =
      let x = take_reply-Replied lib r _ e.system.conn d.writable o l in
      (
        x,
        arrives-frame e.system.conn.writer (take_reply lib r e.system.conn).writer e.stream.id
            message_type_data flags q x.wire d.range (omega arith) f l,
      )
