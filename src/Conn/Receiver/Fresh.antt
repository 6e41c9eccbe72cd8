-- ===== src/Conn/Receiver/Fresh.antt =====
-- The receiver and the stream identifiers: which of them it may make known to the connection.
pub mod Turns
use ttrpc.Prelude.{
  ℕ, ◌%◌, ◌≤◌, ◌<◌, ◌≡◌, refl, ◌⊎◌, inl, inr, Bool, true, false, not, ◌&&◌, Option, none, some,
  arith, ltb, leb, ◌==◌, nat_eq, string_eq, Bool-cases, Option-cases,
}
use ttrpc.Prelude.Assoc.{lookup, insert, lookup-insert}
use ttrpc.Errors.{Error, Slice}
use ttrpc.Frame.{MessageHeader}
use ttrpc.Channel.{slice_length}
use ttrpc.Services.{StreamHandler, Wait, done, blocked, panics, push_data, close_send}
use ttrpc.Conn.{Conn, has_flag}
use ttrpc.Conn.Receiver.{
  flag_no_data, flag_remote_closed, Place, After, close_side, reading, reporting, delivering,
  storing, panicked, Turn, turn, closed_side, on_close, delivered, deliver_data, on_stream_data,
  on_data,
}

-- A client may have used this identifier: it is odd and at most the last one.
abbrev pub admitted : ℕ → ℕ → Bool
admitted last id = leb id last && (id % 2 == 1)

-- The connection knows nothing of any other identifier.
abbrev pub IsFresh : Conn → Type 0
IsFresh c =
    (id : ℕ)
    → admitted c.last_stream_id id ≡ false
    → (lookup id c.streams ≡ none) × (lookup id c.handlers ≡ none)

abbrev pub AfterIn : ℕ → After → Type 0
AfterIn last (close_side mh p) = admitted last mh.stream_id ≡ true
AfterIn last _ = Unit {0}

-- The receiver waits for an admitted identifier only.
abbrev pub PlaceIn : ℕ → Place → Type 0
PlaceIn last (reporting r k) = AfterIn last k
PlaceIn last (delivering mh p) = admitted last mh.stream_id ≡ true
PlaceIn last (storing id b) = admitted last id ≡ true
PlaceIn last _ = Unit {0}

-- What one turn on a message of stream `id` keeps. It starts a call only for an identifier above all
-- earlier ones.
pub record TurnOk (id last : ℕ) (t : Turn) : Type 0 where
  pub fresh : IsFresh t.conn
  pub place : PlaceIn t.conn.last_stream_id t.place
  pub grows : last ≤ t.conn.last_stream_id
  pub job : (t.spawned ≡ none) ⊎ ((last < id) × (t.conn.last_stream_id ≡ id) × (id % 2 ≡ 1))

pub same_conn :
    (id : ℕ) (c : Conn) (p : Place)
    → IsFresh c
    → PlaceIn c.last_stream_id p
    → TurnOk id c.last_stream_id (turn c p)
same_conn id c p f h = record { fresh = f; place = h; grows = omega arith; job = inl refl }

pub insert-IsFresh :
    (id : ℕ) (sh : StreamHandler) (c : Conn)
    → admitted c.last_stream_id id ≡ true
    → IsFresh c
    → IsFresh (record c { handlers = insert id sh c.handlers })
insert-IsFresh id sh c h f j e = ground (arith, f j e, lookup-insert id j sh c.handlers)

module _ (mh : MessageHeader) (p : Slice) where
  -- The branches of a data message keep to the identifier of the message.
  abbrev Keeps : Conn → Turn → Type 0
  Keeps c t =
      admitted c.last_stream_id mh.stream_id ≡ true
      → IsFresh c
      → TurnOk mh.stream_id c.last_stream_id t

  closed_side-Keeps : (c : Conn) (w : Wait StreamHandler) → Keeps c (closed_side mh p c w)
  unfolding closed_side
  closed_side-Keeps c (done sh) h f =
      let c' = record c { handlers = insert mh.stream_id sh c.handlers } in
      let f' = insert-IsFresh mh.stream_id sh c h f in
      elim (Bool-cases (ltb 0 (slice_length p))) [
        | inl e ↦ rw (e, closed_side) (same_conn mh.stream_id c' _ f' tt)
        | inr e ↦ rw (e, closed_side) (same_conn mh.stream_id c' reading f' tt)
      ]
  closed_side-Keeps c blocked h f = same_conn mh.stream_id c panicked f tt
  closed_side-Keeps c panics h f = same_conn mh.stream_id c panicked f tt

  handler_close-Keeps :
      (c : Conn) (o : Option StreamHandler)
      → Keeps c (elim o [ some sh ↦ closed_side mh p c (close_send sh) | none ↦ turn c panicked ])
  handler_close-Keeps c none h f = same_conn mh.stream_id c panicked f tt
  handler_close-Keeps c (some sh) h f = closed_side-Keeps c (close_send sh) h f

  pub on_close-Keeps : (c : Conn) → Keeps c (on_close mh p c)
  unfolding on_close
  on_close-Keeps c h f = elim (Bool-cases (has_flag mh.flags flag_remote_closed)) [
    | inl e ↦ rw (e, on_close) (handler_close-Keeps c (lookup mh.stream_id c.handlers) h f)
    | inr e ↦ rw (e, on_close) (same_conn mh.stream_id c reading f tt)
  ]

  delivered-Keeps :
      (c : Conn) (w : Wait (Option Error × StreamHandler)) → Keeps c (delivered mh p c w)
  unfolding delivered
  delivered-Keeps c (done (none, sh)) h f =
      on_close-Keeps (record c { handlers = insert mh.stream_id sh c.handlers }) h
        (insert-IsFresh mh.stream_id sh c h f)
  delivered-Keeps c (done (some e, sh)) h f = same_conn mh.stream_id c _ f h
  delivered-Keeps c blocked h f = same_conn mh.stream_id c _ f h
  delivered-Keeps c panics h f = same_conn mh.stream_id c _ f tt

  handler_data-Keeps :
      (pick : Bool) (c : Conn) (o : Option StreamHandler)
      → Keeps c
          (elim o [ some sh ↦ delivered mh p c (push_data pick p sh) | none ↦ turn c panicked ])
  handler_data-Keeps pick c none h f = same_conn mh.stream_id c panicked f tt
  handler_data-Keeps pick c (some sh) h f = delivered-Keeps c (push_data pick p sh) h f

  pub deliver_data-Keeps : (pick : Bool) (c : Conn) → Keeps c (deliver_data pick mh p c)
  unfolding deliver_data
  deliver_data-Keeps pick c = handler_data-Keeps pick c (lookup mh.stream_id c.handlers)

  on_stream_data-Keeps :
      (pick : Bool) (c : Conn) (b : Bool) → Keeps c (on_stream_data pick mh p c b)
  unfolding on_stream_data
  on_stream_data-Keeps pick c true h f = elim (Bool-cases (has_flag mh.flags flag_no_data)) [
    | inl e ↦ rw (e, on_stream_data) (on_close-Keeps c h f)
    | inr e ↦ rw (e, on_stream_data) (deliver_data-Keeps pick c h f)
  ]
  on_stream_data-Keeps pick c false h f =
      elim (Bool-cases
        (has_flag mh.flags flag_no_data && not (has_flag mh.flags flag_remote_closed))) [
          | inl e ↦ rw (e, on_stream_data) (same_conn mh.stream_id c reading f tt)
          | inr e ↦ rw (e, on_stream_data) (same_conn mh.stream_id c panicked f tt)
        ]

  -- An identifier that `streams` holds is admitted, since the connection knows of no other.
  lookup-admitted :
      (c : Conn) {b : Bool}
      → IsFresh c
      → lookup mh.stream_id c.streams ≡ some b
      → admitted c.last_stream_id mh.stream_id ≡ true
  lookup-admitted c f e = elim (Bool-cases (admitted c.last_stream_id mh.stream_id)) [
    | inl y ↦ y
    | inr n ↦ ground (arith, f mh.stream_id n)
  ]

  on_data-TurnOk :
      (pick : Bool) (c : Conn)
      → IsFresh c
      → TurnOk mh.stream_id c.last_stream_id (on_data pick mh p c)
  unfolding on_data
  on_data-TurnOk pick c f = elim (Option-cases (lookup mh.stream_id c.streams)) [
    | inl e ↦ rw (e, on_data) (same_conn mh.stream_id c _ f tt)
    | inr (b, e) ↦ rw (e, on_data) (on_stream_data-Keeps pick c b (lookup-admitted c f e) f)
  ]
