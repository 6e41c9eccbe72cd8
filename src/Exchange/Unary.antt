-- ===== src/Exchange/Unary.antt =====
-- A unary call from the client's `dispatch` through the server and back.
use ttrpc.Prelude.{
  ℕ, ◌%◌, ◌≤◌, ◌<◌, ◌≡◌, refl, ap, ◌∙◌, Bool, false, Option, none, some, List, ◌∷◌, arith, nat_eq,
  string_eq, length,
}
use ttrpc.Prelude.Assoc.{lookup}
use ttrpc.Errors.{Error, ok, Slice, Status, message_length_max}
use ttrpc.Frame.{message_type_request, message_type_response, IsUint32}
use ttrpc.Channel.{as_received}
use ttrpc.Channel.Send.{IsOpen}
use ttrpc.Request.{Libraries, Request}
use ttrpc.Services.{ServiceSet, handle, unary}
use ttrpc.Client.{Client, receive_round, again}
use ttrpc.Client.Calls.{dispatch_start, dispatch_end, waiting, slice_prefix}
use ttrpc.Client.Calls.Dispatch.{dispatch_returns_response}
use ttrpc.Conn.Sender.Replies.{Encodes}
use ttrpc.Conn.System.{System, receive, store, job_end, run}
use ttrpc.Conn.System.Calls.{IsReading}
use ttrpc.Conn.System.Unary.{stored_call, count_and}
use ttrpc.Exchange.{
  request_read, since, arrives, received_frame, arrives-frame, ReadsBack, whole_prefix,
}

module _ {M H : Type 0} (lib : Libraries) (svc : ServiceSet M H) (codec : ReadsBack lib)
    (c : Client) (live : c.cancelled ≡ false) (working : IsOpen c.writer) (s : System)
    (r : IsReading s) (running : s.conn.finished ≡ false) (serving : IsOpen s.conn.writer) where
  -- A unary call goes all the way, where both writers work, neither end is closing, requests and responses
  -- are read back as they were encoded and stay within the maximum length, and the client's next identifier
  -- is odd and above all that the server has seen: `dispatch` sends the request; the server, reading just
  -- that, calls the method that it stands for, and stores its stream; when the method ends after
  -- that, before the call is counted or behind it, the client, reading just what the
  -- server then sent, gives the waiting `dispatch` the method's status and payload (an empty payload as nil); and neither end keeps
  -- anything of the call.
  pub call_goes_through :
      (req : Request) (p : List ℕ) (m : M) (late pick : Bool) (ctx : Option Error)
      (st : Option Status) (q : Slice) (p' : List ℕ)
      → c.next_stream_id % 2 ≡ 1
      → s.conn.last_stream_id < c.next_stream_id
      → IsUint32 c.next_stream_id
      → s.conn.active < 4294967296
      → lib.marshal_request req ≡ ok p
      → length p ≤ message_length_max
      → handle pick ctx (request_read req) svc ≡ unary m
      → Encodes lib st q p'
      → (d e f : Client) × (t : System) × (dispatch_start lib req c ≡ waiting c.next_pointer d)
        × (run lib svc
              (receive pick ctx (arrives (since c.writer d.writer))
                ∷ store
                ∷ count_and late (job_end c.next_stream_id st q))
              s
            ≡ some t)
        × (receive_round lib false (arrives (since s.conn.writer t.conn.writer)) d ≡ again e)
        × (dispatch_end lib false false none c.next_pointer e
            ≡ some (ok (record { status = st; payload = as_received q }), f))
        × (lookup c.next_stream_id f.streams ≡ none)
        × (lookup c.next_stream_id t.jobs ≡ none)
        × (lookup c.next_stream_id t.conn.streams ≡ none)
        × (t.conn.active ≡ s.conn.active)
  call_goes_through req p m late pick ctx st q p' odd above range counted e l found x =
      let id = c.next_stream_id in
      let back = received_frame id message_type_response 0 (some p') in
      let (d, e1, f, starts, there, handed, ends, gone) =
        dispatch_returns_response lib req p c back live working e l refl refl refl in
      let got = received_frame id message_type_request 0 (some p) in
      let arrived : arrives (since c.writer d.writer) ≡ got =
        arrives-frame c.writer d.writer id message_type_request 0 (some p) there range (omega arith)
          (omega arith) l in
      let (t, ran, wire, no_job, streams, same, at_recv) =
        stored_call lib svc s r running pick ctx got (request_read req) m
          (record { whole = refl; odd = odd; typed = refl }) above (codec.request req p e) found
          late st q p' serving counted x in
      let returned : arrives (since s.conn.writer t.conn.writer) ≡ back =
        arrives-frame s.conn.writer t.conn.writer id message_type_response 0 (some p') wire range
          (omega arith) (omega arith) x.within in
      let decoded : lib.unmarshal_response (slice_prefix (length p') (as_received (some p')))
          ≡ ok (record { status = st; payload = as_received q }) =
        ap lib.unmarshal_response (whole_prefix p')
        ∙ codec.response (record { status = st; payload = q }) p' x.encoded in
      (
        d,
        e1,
        f,
        t,
        starts,
        rw arrived ran,
        rw returned handed,
        ends ∙ ap (λ y. some (y, f)) decoded,
        gone,
        no_job,
        ground (arith, streams id),
        same,
      )
