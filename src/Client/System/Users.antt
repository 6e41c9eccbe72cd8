-- ===== src/Client/System/Users.antt =====
-- What the methods of a stream do to the client's streams.
use ttrpc.Prelude.{
  ℕ, ◌≡◌, refl, sym, ◌∙◌, subst, ◌⊎◌, inl, inr, Bool, false, Option, none, some, arith, ◌==◌,
  nat_eq, string_eq, Bool-cases, Option-cases,
}
use ttrpc.Prelude.Assoc.{lookup}
use ttrpc.Errors.{Error, Slice, Result, ok, err}
use ttrpc.Request.{Libraries, Response}
use ttrpc.Stream.{Stream, StreamMessage, Taken, message, fails, take_message}
use ttrpc.Client.{Client, set_stream, delete_stream}
use ttrpc.Client.Calls.{status_error}
use ttrpc.Conn.{has_flag}
use ttrpc.Frame.{message_type_response, message_type_data, flag_remote_closed}
use ttrpc.Client.Streaming.{
  send_encoded, data_sent, ClientStream, Outcome, close_send, close_sent, send_msg, recv_msg,
  recv_select, recv_taken, recv_data, recv_response, response_status,
}
use ttrpc.Client.System.Evolution.{
  Sound, Evolves, nothing, only, Evolves-same, Evolves-set_stream, Evolves-trans, Evolves-any,
  Evolves-Sound,
}
use ttrpc.Client.System.Removal.{Evolves-delete_stream}
use ttrpc.Client.System.Effects.{unchanged}

-- `CloseSend` and `SendMsg` only write.
abbrev pub OutcomeEvolves : (ℕ → Bool) → ClientStream → Client → Outcome → Type 0
OutcomeEvolves t cs c o = (o.stream.pointer ≡ cs.pointer) × Evolves t c o.client

writes :
    (cs : ClientStream) (c : Client) (o : Outcome)
    → o.stream.pointer ≡ cs.pointer
    → o.client ≡ record c { writer = o.client.writer }
    → OutcomeEvolves nothing cs c o
writes cs c o p e = (
  p,
  subst (Evolves nothing c) (sym e)
      (Evolves-same c (record c { writer = o.client.writer }) refl refl refl refl (λ x. x)),
)

pub close_send-Evolves :
    (cs : ClientStream) (c : Client) → OutcomeEvolves nothing cs c (close_send cs c)
unfolding close_send close_sent
close_send-Evolves cs c = writes cs c (close_send cs c) (ground arith) (ground arith)

pub send_msg-Evolves :
    (p : Result Slice) (cs : ClientStream) (c : Client)
    → OutcomeEvolves nothing cs c (send_msg p cs c)
unfolding send_msg send_encoded data_sent
send_msg-Evolves p cs c = writes cs c (send_msg p cs c) (ground arith) (ground arith)

-- What `RecvMsg` does behind its `select`: nothing, or the stream is deleted.
abbrev MayDelete : ClientStream → Client → Outcome → Type 0
MayDelete cs c o =
    (o.stream.pointer ≡ cs.pointer) × ((o.client ≡ c) ⊎ (o.client ≡ delete_stream cs.pointer c))

recv_data-MayDelete :
    (unmarshal : Slice → Option Error) (m : StreamMessage) (cs : ClientStream) (c : Client)
    → MayDelete cs c (recv_data unmarshal m cs c)
unfolding recv_data
recv_data-MayDelete unmarshal m cs c = elim (Bool-cases cs.streaming_server) [
  | inr q ↦ (ground arith, inr (ground arith))
  | inl q ↦ elim (Bool-cases (has_flag m.header.flags flag_remote_closed)) [
    | inl closes ↦ (ground arith, inr (ground arith))
    | inr stays ↦ (ground arith, inl (ground arith))
  ]
]

response_status-MayDelete :
    (cs : ClientStream) (c : Client) (e : Option Error) → MayDelete cs c (response_status cs c e)
unfolding response_status
response_status-MayDelete cs c none = (refl, inr refl)
response_status-MayDelete cs c (some e) = (refl, inl refl)

recv_response-MayDelete :
    (unmarshal : Slice → Option Error) (cs : ClientStream) (c : Client) (r : Result Response)
    → MayDelete cs c (recv_response unmarshal cs c r)
unfolding recv_response
recv_response-MayDelete unmarshal cs c (err e) = (refl, inl refl)
recv_response-MayDelete unmarshal cs c (ok r) = elim (Option-cases (unmarshal r.payload)) [
  | inl q ↦ rw (q, recv_response) (response_status-MayDelete cs c (status_error r.status))
  | inr (e, q) ↦ rw (q, recv_response) (refl, inl refl)
]

recv_taken-MayDelete :
    (lib : Libraries) (unmarshal : Slice → Option Error) (cs : ClientStream) (c : Client)
    (m : StreamMessage)
    → MayDelete cs c (recv_taken lib unmarshal cs c m)
unfolding recv_taken
recv_taken-MayDelete lib unmarshal cs c m =
    elim (Bool-cases (m.header.type == message_type_response)) [
      | inl q ↦ rw (q, recv_taken) (recv_response-MayDelete unmarshal cs c _)
      | inr q ↦ elim (Bool-cases (m.header.type == message_type_data)) [
        | inl d ↦ rw (q, d, recv_taken) (recv_data-MayDelete unmarshal m cs c)
        | inr d ↦ rw (q, d, recv_taken) (refl, inl refl)
      ]
    ]

MayDelete-Evolves :
    (cs : ClientStream) (c : Client) (o : Outcome)
    → Sound c
    → MayDelete cs c o
    → OutcomeEvolves nothing cs c o
MayDelete-Evolves cs c o s (p, inl e) = (p, subst (Evolves nothing c) (sym e) (unchanged nothing c))
MayDelete-Evolves cs c o s (p, inr e) =
    (p, subst (Evolves nothing c) (sym e) (Evolves-delete_stream cs.pointer c s))

-- The case of the `select` that takes a message leaves the stream open or closed as it was.
take_message-same :
    (pick : Bool) (ctx : Option Error) (st : Stream) (m : StreamMessage) (u : Stream)
    → take_message pick ctx st ≡ message m u
    → (u.id ≡ st.id) × (u.closed ≡ st.closed)
unfolding take_message
take_message-same pick ctx st m u e = ground arith

abbrev pub OutcomeEvolves? : (ℕ → Bool) → ClientStream → Client → Option Outcome → Type 0
OutcomeEvolves? t cs c none = Unit {0}
OutcomeEvolves? t cs c (some o) = OutcomeEvolves t cs c o

recv_select-Evolves :
    (lib : Libraries) (unmarshal : Slice → Option Error) (cs : ClientStream) (c : Client)
    (st : Stream) (t : Taken)
    → Sound c
    → lookup cs.pointer c.store ≡ some st
    → ((m : StreamMessage) (u : Stream) → t ≡ message m u → (u.id ≡ st.id) × (u.closed ≡ st.closed))
    → OutcomeEvolves? (only cs.pointer) cs c (recv_select lib unmarshal cs c t)
unfolding recv_select
recv_select-Evolves lib unmarshal cs c st (message m u) s h k =
    let (i, shut) = k m u refl in
    let first = Evolves-set_stream cs.pointer st u c h i (λ x. shut ∙ x) in
    let d = set_stream cs.pointer u c in
    let (p, v) =
      MayDelete-Evolves cs d (recv_taken lib unmarshal cs d m)
        (Evolves-Sound (only cs.pointer) c d first s) (recv_taken-MayDelete lib unmarshal cs d m) in
    (p, Evolves-trans (only cs.pointer) c d _ first (Evolves-any (only cs.pointer) d _ v))
recv_select-Evolves lib unmarshal cs c st (fails e) s h k = (refl, unchanged (only cs.pointer) c)
recv_select-Evolves lib unmarshal cs c st Taken.waits s h k = tt

recv_msg-open :
    (lib : Libraries) (unmarshal : Slice → Option Error) (pick : Bool) (ctx : Option Error)
    (cs : ClientStream) (c : Client) (st : Stream)
    → cs.remote_closed ≡ false
    → lookup cs.pointer c.store ≡ some st
    → recv_select lib unmarshal cs c (take_message pick ctx st)
      ≡ recv_msg lib unmarshal pick ctx cs c
unfolding recv_msg
recv_msg-open lib unmarshal pick ctx cs c st q n = ground arith

-- `RecvMsg` touches its own stream.
pub recv_msg-Evolves :
    (lib : Libraries) (unmarshal : Slice → Option Error) (pick : Bool) (ctx : Option Error)
    (cs : ClientStream) (c : Client)
    → Sound c
    → OutcomeEvolves? (only cs.pointer) cs c (recv_msg lib unmarshal pick ctx cs c)
unfolding recv_msg
recv_msg-Evolves lib unmarshal pick ctx cs c s = elim (Bool-cases cs.remote_closed) [
  | inl q ↦ rw (q, recv_msg) (refl, unchanged (only cs.pointer) c)
  | inr q ↦ elim (Option-cases (lookup cs.pointer c.store)) [
    | inl n ↦ rw (q, n, recv_msg) tt
    | inr (st, n) ↦
        subst (OutcomeEvolves? (only cs.pointer) cs c)
          (recv_msg-open lib unmarshal pick ctx cs c st q n)
          (recv_select-Evolves lib unmarshal cs c st (take_message pick ctx st) s n
            (take_message-same pick ctx st))
  ]
]
