-- ===== src/Stream/Closing.antt =====
-- A stream that is closed stays closed, with the first error.
use ttrpc.Prelude.{if◌then◌else◌, ◌≡◌, true, false, Option, none, some, arith, nat_eq, string_eq}
use ttrpc.Errors.{Error}
use ttrpc.Stream.{Stream, StreamMessage, or_closed, close_with_error, message, fails, take_message}

-- Only the first `closeWithError` counts: a second one, whatever its error, changes nothing; the
-- stream is closed, with the error that it had if it was closed before, and else the given one, or
-- ErrClosed where that is nil.
close_twice :
    (d e : Option Error) (s : Stream)
    → (close_with_error e (close_with_error d s) ≡ close_with_error d s)
      × ((close_with_error d s).closed ≡ true)
      × ((close_with_error d s).recv_err ≡ (if s.closed then s.recv_err else some (or_closed d)))
unfolding close_with_error
close_twice d e s = ground arith

-- With no context done, a message that arrived in an open stream is still taken from it after the
-- stream was closed; only then does the stream report why it was closed, or ErrClosed where no error
-- was given.
take-close :
    (d : Option Error) (m : StreamMessage) (s : Stream)
    → s.closed ≡ false
    → s.recv ≡ some m
    → let c = close_with_error d s in
      (take_message false none c ≡ message m (record c { recv = none }))
      × (take_message false none (record c { recv = none }) ≡ fails (some (or_closed d)))
unfolding take_message close_with_error
take-close d m s o h = ground arith
