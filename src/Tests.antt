-- ===== src/Tests.antt =====
-- The data that the examples share: a writer, the libraries as concrete functions, a set of services
-- with one method and one stream, and a request for the method.
mod Transport
mod Serving
mod Calling
mod Values
mod Composed
mod Generated
mod Clients
mod Together
use ttrpc.Prelude.{
  ℕ, zero, suc, ◌≡◌, refl, Bool, true, false, none, some, List, [], ◌∷◌, arith, length,
}
use ttrpc.Errors.{Error, ok, Code, Message, Status, status, with_err}
use ttrpc.Channel.{Writer}
use ttrpc.Channel.Send.{IsOpen}
use ttrpc.Request.{Libraries, Request}
use ttrpc.Services.{ServiceSet, ServiceDesc, StreamSpec}

abbrev pub open_writer : Writer
open_writer = record { conn = record { wire = []; room = none }; buffer = []; failed = none }

pub open_writer-IsOpen : IsOpen open_writer
open_writer-IsOpen = record { no_failure = refl; no_limit = refl; within = omega arith }

-- `status.FromError` on the errors that the examples use; no error carries the code OK.
abbrev pub from_code : Code → Message → Status × Bool
from_code Code.ok m = (record { code = Code.unknown; message = m }, false)
from_code c m = (record { code = c; message = m }, true)

abbrev pub from_error : Error → Status × Bool
from_error (status c m) = from_code c m
from_error e = (record { code = Code.unknown; message = with_err "%v" e }, false)

abbrev pub hello : Request
hello = record {
  service = "echo";
  method = "say";
  payload = some (1 ∷ []);
  timeout_nano = 0;
  metadata = [];
}

abbrev pub lib : Libraries
lib = record {
  unmarshal_request = λ p. ok hello;
  marshal_request = λ r. ok (1 ∷ 2 ∷ []);
  unmarshal_response = λ p. ok (record { status = none; payload = p });
  marshal_response = λ r. ok (8 ∷ 9 ∷ []);
  from_error = from_error;
}

-- Methods and handlers are named by numbers.
abbrev pub chat : StreamSpec ℕ
chat = record { handler = 2; streaming_client = true; streaming_server = true }

abbrev echo : ServiceDesc ℕ ℕ
echo = record { methods = ("say", 1) ∷ []; streams = ("chat", chat) ∷ [] }

abbrev pub services : ServiceSet ℕ ℕ
services = ("echo", echo) ∷ []

pub zeros : ℕ → List ℕ
zeros zero = []
zeros (suc n) = 0 ∷ zeros n

pub length-zeros : (n : ℕ) → length (zeros n) ≡ n
unfolding zeros
length-zeros zero = omega arith
length-zeros (suc n) = omega (arith, length-zeros n)
