-- ===== src/Conn/Sender/Retire.antt =====
-- What the main loop leaves alone when it takes a reply or an error.
use ttrpc.Prelude.{ℕ, ◌≡◌, refl, Option, none, some, arith, nat_eq, string_eq}
use ttrpc.Prelude.Assoc.{lookup, lookup-delete}
use ttrpc.Errors.{Error}
use ttrpc.Request.{Libraries}
use ttrpc.Conn.{Conn, Reply}
use ttrpc.Conn.Sender.{take_reply, take_recv_error, transmit, after_send}

-- The last identifier and the handlers stay, and `streams` only loses entries.
pub record Retires (c c' : Conn) : Type 0 where
  pub last : c'.last_stream_id ≡ c.last_stream_id
  pub handlers : c'.handlers ≡ c.handlers
  pub streams : (id : ℕ) → lookup id c.streams ≡ none → lookup id c'.streams ≡ none

pub take_reply-Retires : (lib : Libraries) (r : Reply) (c : Conn) → Retires c (take_reply lib r c)
unfolding take_reply transmit after_send
take_reply-Retires lib r c = record {
  last = ground arith;
  handlers = ground arith;
  streams = λ id h. ground (arith, lookup-delete r.id id c.streams);
}

pub take_recv_error-Retires : (e : Option Error) (c : Conn) → Retires c (take_recv_error e c)
unfolding take_recv_error
take_recv_error-Retires none c = record { last = refl; handlers = refl; streams = λ id h. h }
take_recv_error-Retires (some e) c = record {
  last = ground arith;
  handlers = ground arith;
  streams = λ id h. ground arith;
}
