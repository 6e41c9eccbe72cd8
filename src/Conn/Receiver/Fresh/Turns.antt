-- ===== src/Conn/Receiver/Fresh/Turns.antt =====
-- server.go, one turn of the receiving goroutine: the identifiers that it makes known.
use ttrpc.Prelude.{
  ℕ, ◌%◌, ◌<◌, ◌≡◌, refl, inl, inr, Bool, true, false, Option, none, arith, leb, ◌==◌, nat_eq,
  string_eq, Bool-cases, Option-cases,
}
use ttrpc.Prelude.Assoc.{insert}
use ttrpc.Errors.{Error, Result, ok, err, Slice, Status}
use ttrpc.Frame.{MessageHeader, message_type_request, message_type_data}
use ttrpc.Channel.{Received}
use ttrpc.Request.{Libraries, Request}
use ttrpc.Services.{
  StreamHandler, ServiceSet, handle, Handled, refused, unary, streaming, failing, waiting,
  panicking,
}
use ttrpc.Conn.{Conn}
use ttrpc.Conn.Receiver.{
  Place, reading, Job, on_handled, on_unmarshalled, on_request, on_odd_message, on_message,
  on_recv_error, on_received,
}
use ttrpc.Conn.Receiver.Fresh.{
  on_data-TurnOk, TurnOk, admitted, IsFresh, PlaceIn, same_conn, insert-IsFresh,
}

-- The connection after a request with a new identifier.
abbrev advance : ℕ → Conn → Conn
advance id c = record c { last_stream_id = id }

advance-IsFresh : (id : ℕ) (c : Conn) → c.last_stream_id < id → IsFresh c → IsFresh (advance id c)
advance-IsFresh id c h f j e = f j (ground arith)

module _ (lib : Libraries) (id : ℕ) (c : Conn) (new : c.last_stream_id < id) (odd : id % 2 ≡ 1)
    (f : IsFresh c) where
  own : admitted id id ≡ true
  own = ground arith

  start_call :
      (c' : Conn) (p : Place) (j : Option Job)
      → IsFresh c'
      → c'.last_stream_id ≡ id
      → PlaceIn id p
      → TurnOk id c.last_stream_id (record { conn = c'; place = p; spawned = j })
  start_call c' p j f' e h = record {
    fresh = f';
    place = rw e h;
    grows = omega arith;
    job = inr (new, e, odd);
  }

  same_call :
      (p : Place) (j : Option Job)
      → PlaceIn id p
      → TurnOk id c.last_stream_id (record { conn = advance id c; place = p; spawned = j })
  same_call p j h = start_call (advance id c) p j (advance-IsFresh id c new f) refl h

  stream_call :
      (sh : StreamHandler) (p : Place) (j : Option Job)
      → PlaceIn id p
      → TurnOk id c.last_stream_id (record {
        conn = record (advance id c) { handlers = insert id sh c.handlers };
        place = p;
        spawned = j;
      })
  stream_call sh p j h =
      start_call _ p j (insert-IsFresh id sh (advance id c) own (advance-IsFresh id c new f)) refl h

  on_handled-TurnOk :
      {M H : Type 0} (d : Handled M H)
      → TurnOk id c.last_stream_id (on_handled lib id (advance id c) d)
  unfolding on_handled
  on_handled-TurnOk (refused e) = same_call _ none tt
  on_handled-TurnOk (unary m) = same_call _ _ own
  on_handled-TurnOk (streaming spec sh) = stream_call sh _ _ own
  on_handled-TurnOk (failing spec sh e) = stream_call sh _ _ tt
  on_handled-TurnOk (waiting spec) = same_call _ none tt
  on_handled-TurnOk panicking = same_call _ none tt

  on_unmarshalled-TurnOk :
      {M H : Type 0} (pick : Bool) (ctx : Option Error) (svc : ServiceSet M H) (r : Result Request)
      → TurnOk id c.last_stream_id (on_unmarshalled lib pick ctx svc id (advance id c) r)
  unfolding on_unmarshalled
  on_unmarshalled-TurnOk pick ctx svc (err e) = same_call _ none tt
  on_unmarshalled-TurnOk pick ctx svc (ok req) = on_handled-TurnOk (handle pick ctx req svc)

on_recv_error-TurnOk :
    (id : ℕ) (e : Error) (c : Conn) (st : Status × Bool)
    → IsFresh c
    → TurnOk id c.last_stream_id (on_recv_error id e c st)
unfolding on_recv_error
on_recv_error-TurnOk id e c (st, true) f = same_conn id c _ f tt
on_recv_error-TurnOk id e c (st, false) f = same_conn id c _ f tt

module _ {M H : Type 0} (lib : Libraries) (pick : Bool) (ctx : Option Error) (svc : ServiceSet M H)
    (c : Conn) (f : IsFresh c) where
  on_request-TurnOk :
      (mh : MessageHeader) (p : Slice)
      → mh.stream_id % 2 ≡ 1
      → TurnOk mh.stream_id c.last_stream_id (on_request lib pick ctx svc mh p c)
  unfolding on_request
  on_request-TurnOk mh p odd = elim (Bool-cases (leb mh.stream_id c.last_stream_id)) [
    | inl e ↦ rw (e, on_request) (same_conn mh.stream_id c _ f tt)
    | inr e ↦
        rw (e, on_request)
          (on_unmarshalled-TurnOk lib mh.stream_id c (ground arith) odd f pick ctx svc
            (lib.unmarshal_request p))
  ]

  odd_message-TurnOk :
      (mh : MessageHeader) (p : Slice)
      → mh.stream_id % 2 ≡ 1
      → TurnOk mh.stream_id c.last_stream_id (on_odd_message lib pick ctx svc mh p c)
  unfolding on_odd_message
  odd_message-TurnOk mh p odd = elim (Bool-cases (mh.type == message_type_data)) [
    | inl e ↦ rw (e, on_odd_message) (on_data-TurnOk mh p pick c f)
    | inr e ↦ elim (Bool-cases (mh.type == message_type_request)) [
      | inl q ↦ rw (e, on_odd_message, q) (on_request-TurnOk mh p odd)
      | inr q ↦ rw (e, on_odd_message, q) (same_conn mh.stream_id c reading f tt)
    ]
  ]

  on_message-TurnOk :
      (mh : MessageHeader) (p : Slice)
      → TurnOk mh.stream_id c.last_stream_id (on_message lib pick ctx svc mh p c)
  unfolding on_message
  on_message-TurnOk mh p = elim (Bool-cases (mh.stream_id % 2 == 1)) [
    | inl e ↦ rw (e, on_message) (odd_message-TurnOk mh p (ground arith))
    | inr e ↦ rw (e, on_message) (same_conn mh.stream_id c _ f tt)
  ]

  -- From a connection that knows nothing of identifiers that are even or above the last one, every
  -- turn of the receiver, on whatever `recv` returned, leads to such a connection, does not lower the
  -- last identifier, leaves the receiver waiting for an identifier of that kind only, and starts a
  -- call only for an odd identifier above the last one.
  pub on_received-TurnOk :
      (got : Received)
      → TurnOk got.header.stream_id c.last_stream_id (on_received lib pick ctx svc got c)
  unfolding on_received
  on_received-TurnOk got = elim (Option-cases got.error) [
    | inl e ↦ rw (e, on_received) (on_message-TurnOk got.header got.payload)
    | inr (x, e) ↦
        rw (e, on_received) (on_recv_error-TurnOk got.header.stream_id x c (lib.from_error x) f)
  ]
