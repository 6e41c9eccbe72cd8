-- ===== src/Client/Calls/Dispatch.antt =====
-- `dispatch`: it takes its stream out of the client on every path behind its `select`, and returns the
-- response that the receive loop has put into the stream.
use ttrpc.Prelude.{
  ℕ, ◌≤◌, ◌≡◌, refl, ◌∙◌, subst, Bool, false, Option, none, some, List, ◌++◌, arith, nat_eq,
  string_eq, length,
}
use ttrpc.Prelude.Assoc.{lookup, lookup-insert_self, lookup-delete_self}
use ttrpc.Errors.{Error, Result, ok, message_length_max}
use ttrpc.Frame.{message_type_response, message_type_request}
use ttrpc.Channel.{Received}
use ttrpc.Channel.Send.{IsOpen, sent, frame}
use ttrpc.Request.{Libraries, Request, Response}
use ttrpc.Stream.{
  Stream, StreamMessage, new_stream, close_with_error, receive, Taken, message, fails, waits,
  take_message,
}
use ttrpc.Client.{
  Client, create_stream, delete_stream, close_pointer, set_stream, get_stream, again, receive_round,
  to_inactive, to_stream, hand_over, message_of,
}
use ttrpc.Client.Calls.{
  waiting, dispatched, dispatch_encoded, dispatch_start, dispatch_taken, dispatch_end, early_case,
  read_response, slice_prefix,
}
use ttrpc.Client.Calls.Creation.{create_stream-Opened}

-- The client without the stream behind a pointer: its identifier is free, and the stream is closed.
pub record IsGone (ptr : ℕ) (s : Stream) (c : Client) : Type 0 where
  pub unregistered : lookup s.id c.streams ≡ none
  pub closed_for_good : lookup ptr c.store ≡ some (close_with_error none s)

pub delete_stream-IsGone :
    (ptr : ℕ) (s : Stream) (c : Client)
    → lookup ptr c.store ≡ some s
    → IsGone ptr s (delete_stream ptr c)
unfolding delete_stream close_pointer
delete_stream-IsGone ptr s c e = record {
  unregistered = ground (arith, lookup-delete_self s.id c.streams);
  closed_for_good = ground (arith, lookup-insert_self ptr (close_with_error none s) c.store);
}

taken-IsGone :
    (lib : Libraries) (ptr : ℕ) (s : Stream) (c d : Client) (t : Taken) (r : Result Response)
    → lookup ptr c.store ≡ some s
    → dispatch_taken lib ptr c t ≡ some (r, d)
    → IsGone ptr s d
unfolding dispatch_taken
taken-IsGone lib ptr s c d t r h e =
    subst (IsGone ptr s) (gone t e) (delete_stream-IsGone ptr s c h)
  where
    gone : (t : Taken) → dispatch_taken lib ptr c t ≡ some (r, d) → delete_stream ptr c ≡ d
    gone (message m s) q = cc
    gone (fails none) q = cc
    gone (fails (some x)) q = cc
    gone waits q = cc

-- However `dispatch` ends once it waits for its stream (a message, a closed stream, a context that is
-- done), the stream's identifier is no longer in the client's map and the stream is closed.
dispatch_end-IsGone :
    (lib : Libraries) (pick first : Bool) (ctx : Option Error) (ptr : ℕ) (s : Stream) (c d : Client)
    (r : Result Response)
    → lookup ptr c.store ≡ some s
    → dispatch_end lib pick first ctx ptr c ≡ some (r, d)
    → IsGone ptr s d
unfolding dispatch_end
dispatch_end-IsGone lib pick first ctx ptr s c d r h e =
    taken-IsGone lib ptr s c d (take_message pick (early_case first ctx c.cancelled) s) r h
      (rw (h, dispatch_end) at e)

-- The receive loop puts a whole message into the open stream of its identifier.
pub hand_over_message :
    (lib : Libraries) (got : Received) (ptr : ℕ) (s : Stream) (c : Client)
    → c.cancelled ≡ false
    → got.error ≡ none
    → lookup got.header.stream_id c.streams ≡ some ptr
    → lookup ptr c.store ≡ some s
    → s.closed ≡ false
    → s.recv ≡ none
    → receive_round lib false got c
      ≡ again (set_stream ptr (record s { recv = some (message_of got) }) c)
unfolding receive_round to_inactive to_stream hand_over get_stream receive
hand_over_message lib got ptr s c live w e h o r = ground arith

-- `dispatch` takes a response that is there.
take_response :
    (lib : Libraries) (ptr : ℕ) (s : Stream) (m : StreamMessage) (c : Client)
    → c.cancelled ≡ false
    → lookup ptr c.store ≡ some s
    → s.recv ≡ some m
    → m.header.type ≡ message_type_response
    → dispatch_end lib false false none ptr c
      ≡ some (lib.unmarshal_response (slice_prefix m.header.size m.payload), delete_stream ptr c)
unfolding dispatch_end dispatch_taken take_message early_case read_response
take_response lib ptr s m c live e h t = ground arith

-- A call from its request to its response: with a working writer and no context done, `dispatch` sends
-- the encoded request on a new stream; a whole response message on that stream, handed over by the
-- receive loop, makes it return the decoded response, and the stream is gone from the client.
pub dispatch_returns_response :
    (lib : Libraries) (req : Request) (p : List ℕ) (c : Client) (got : Received)
    → c.cancelled ≡ false
    → IsOpen c.writer
    → lib.marshal_request req ≡ ok p
    → length p ≤ message_length_max
    → got.error ≡ none
    → got.header.stream_id ≡ c.next_stream_id
    → got.header.type ≡ message_type_response
    → (d e f : Client) × (dispatch_start lib req c ≡ waiting c.next_pointer d)
      × (sent d.writer ≡ sent c.writer ++ frame c.next_stream_id message_type_request 0 (some p))
      × (receive_round lib false got d ≡ again e)
      × (dispatch_end lib false false none c.next_pointer e
          ≡ some (lib.unmarshal_response (slice_prefix got.header.size got.payload), f))
      × (lookup c.next_stream_id f.streams ≡ none)
unfolding dispatch_start dispatch_encoded dispatched new_stream
dispatch_returns_response lib req p c got live o m l w i t =
    let x = create_stream-Opened 0 (some p) c live o l in
    let ptr = c.next_pointer in
    let d = (create_stream 0 (some p) c).client in
    let s = record (new_stream c.next_stream_id) { recv = some (message_of got) } in
    let e = set_stream ptr s d in
    let live' : d.cancelled ≡ false = x.live ∙ live in
    let here : lookup ptr e.store ≡ some s = lookup-insert_self ptr s d.store in
    let known = x.registered got.header.stream_id in
    (
      d,
      e,
      delete_stream ptr e,
      ground (arith, x.no_error, x.at),
      x.wire,
      hand_over_message lib got ptr (new_stream c.next_stream_id) d live' w (ground arith) x.stored
          refl refl,
      take_response lib ptr s (message_of got) e live' here refl t,
      (delete_stream-IsGone ptr s e here).unregistered,
    )
