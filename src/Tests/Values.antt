-- ===== src/Tests/Values.antt =====
-- Examples for the services, the metadata, the credentials, the options and the server.
use ttrpc.Prelude.{
  ℕ, String, ◌≡◌, refl, ◌≢◌, ◌⊎◌, Bool, true, false, Option, none, some, List, [], ◌∷◌, arith,
  if◌then◌else◌, ◌==◌, nat_eq, string_eq,
}
use ttrpc.Prelude.Sets.{contains}
use ttrpc.Prelude.Assoc.{lookup}
use text.Mathlib.TextEquality.{eq_iff}
use ttrpc.Errors.{Message, Error, Result, ok, err, Code, Status, Slice, eof}
use ttrpc.Request.{Request, KeyValue}
use ttrpc.Services.{StreamHandler, handle, close_send, push_data, recv_msg}
use ttrpc.Services.Handler.{IsValid, Safe, handler-Safe}
use ttrpc.Services.Dispatch.{Answers, method_of, stream_of, handle-Answers}
use ttrpc.Services.Results.{unary_call_result, KeepsCodes, unary_call_result_cases}
use ttrpc.Metadata.{or_nil, Md, get, from_request}
use ttrpc.Metadata.Laws.{values, collect, without_key, unlowered_key_unreachable}
use ttrpc.Credentials.{
  pos, negsuc, Ucred, Socket, handshake, unix_socket_require_uid_gid, require_uid_gid, mismatch,
  is_given, to_uint32, check_raw, check_control, check_peer,
}
use ttrpc.Credentials.Check.{Meets, handshake_sound}
use ttrpc.Interceptor.{ServerInterceptor, Method, chain_unary_server_interceptors}
use ttrpc.Config.{
  ServerConfig, empty_config, apply_options, with_chain_unary_server_interceptor,
  server_interceptor, chain_behind,
}
use ttrpc.Config.Options.{chains_run_in_order}
use ttrpc.Conn.{active}
use ttrpc.Server.{Server, shutdown_round, idle_conn}
use ttrpc.Server.Shutdown.{AllIdle, shutdown_round_ends}
use ttrpc.Tests.{from_code, lib, services, hello}

-- A stream's handler that two payloads wait for.
abbrev two_waiting : StreamHandler
two_waiting = record {
  recv = some (1 ∷ []) ∷ none ∷ [];
  recv_closed = false;
  remote_closed = false;
  local_closed = false;
  ctx_error = none;
}

handler-Safe_example :
    Safe (λ (t : StreamHandler). IsValid t) (close_send two_waiting)
    × Safe (λ (r : Option Error × StreamHandler). IsValid r.1) (push_data true none two_waiting)
    × Safe (λ (r : Result Slice × StreamHandler). IsValid r.1) (recv_msg true two_waiting)
handler-Safe_example =
    handler-Safe two_waiting true none (record { in_step = refl; within = omega arith })

abbrev chatting : Request
chatting = record hello { method = "chat" }

handle-Answers_example :
    Answers none chatting
      (method_of chatting services)
      (stream_of chatting services)
      (handle false none chatting services)
handle-Answers_example = handle-Answers false none chatting services

from_code-ne-ok : (c : Code) (m : Message) → (from_code c m).0.code ≢ Code.ok
from_code-ne-ok Code.ok m = λ q. cc
from_code-ne-ok _ m = λ q. cc

lib-KeepsCodes : KeepsCodes lib
lib-KeepsCodes (Error.status c m) h = from_code-ne-ok c m
lib-KeepsCodes _ h = λ q. cc

-- Objects are lists of bytes, and only the empty one cannot be marshalled.
abbrev marshal_bytes : List ℕ → Result (List ℕ)
marshal_bytes [] = err eof
marshal_bytes (b ∷ bs) = ok (b ∷ bs)

abbrev empty_object : Result (Option (List ℕ))
empty_object = ok (some [])

unary_call_result_cases_example :
    ((o : List ℕ) × (p : List ℕ) × (empty_object ≡ ok (some o))
      × (marshal_bytes o ≡ ok p)
      × (unary_call_result marshal_bytes lib empty_object ≡ (some p, none)))
    ⊎ ((st : Status) × (st.code ≢ Code.ok)
        × (unary_call_result marshal_bytes lib empty_object ≡ (none, some st)))
unary_call_result_cases_example =
    unary_call_result_cases marshal_bytes lib empty_object lib-KeepsCodes

-- A lowering that knows one letter.
abbrev lower : String → String
lower k = if k == "A" then "a" else k

abbrev md : Md
md = ("a", "x" ∷ "y" ∷ []) ∷ ("b", "z" ∷ []) ∷ []

abbrev upper_pair : KeyValue
upper_pair = record { key = "A"; value = "x" }

abbrev with_upper : Request
with_upper = record hello {
  metadata =
      upper_pair ∷ record { key = "a"; value = "z" } ∷ record { key = "A"; value = "y" } ∷ [];
}

never_upper_if : (k : String) (b : Bool) → (k == "A") ≡ b → (if b then "a" else k) ≢ "A"
never_upper_if k true h e = ground (arith, eq_iff "a" "A")
never_upper_if k false h e = ground (arith, eq_iff k "A")

never_upper : (k : String) → lower k ≢ "A"
never_upper k = never_upper_if k (k == "A") refl

unlowered_key_unreachable_example :
    (values "A" (from_request with_upper []) ≡ "x" ∷ "y" ∷ [])
    × (or_nil (get lower "A" (from_request with_upper []))
        ≡ or_nil (
            get lower "A" (
              from_request
                (record with_upper { metadata = record { key = "a"; value = "z" } ∷ [] })
                [])))
unfolding collect without_key
unlowered_key_unreachable_example = unlowered_key_unreachable lower "A" with_upper "A" never_upper

abbrev root_peer : Ucred
root_peer = record { uid = 0; gid = 7 }

abbrev root_socket : Socket
root_socket = record { is_unix = true; raw_error = none; control_error = none; peer = ok root_peer }

root_passes : handshake (unix_socket_require_uid_gid (pos 0) (negsuc 0)) root_socket ≡ ok root_peer
unfolding handshake unix_socket_require_uid_gid require_uid_gid mismatch is_given to_uint32
    check_raw check_control check_peer
root_passes = refl

handshake_sound_example :
    (root_socket.is_unix ≡ true)
    × (root_socket.peer ≡ ok root_peer)
    × Meets (pos 0) 0
    × Meets (negsuc 0) 7
handshake_sound_example =
    handshake_sound (pos 0) (negsuc 0) root_socket root_peer (omega arith) tt root_passes

-- Interceptors that put their number before the result.
abbrev note : ℕ → ServerInterceptor ℕ ℕ ℕ (List ℕ)
note n ctx u info method = n ∷ method ctx u

abbrev say : Method ℕ ℕ (List ℕ)
say ctx u = u ∷ []

abbrev noted : ServerConfig ℕ (ServerInterceptor ℕ ℕ ℕ (List ℕ))
noted = record {
  handshaker = none;
  interceptor = chain_behind (chain_behind none (note 1 ∷ note 2 ∷ [])) (note 3 ∷ []);
}

options_noted :
    apply_options
      (with_chain_unary_server_interceptor (note 1 ∷ note 2 ∷ [])
        ∷ with_chain_unary_server_interceptor (note 3 ∷ [])
        ∷ [])
      empty_config
    ≡ ok noted
unfolding apply_options with_chain_unary_server_interceptor
options_noted = refl

chains_run_in_order_example :
    server_interceptor noted.interceptor 0 9 5 say
    ≡ chain_unary_server_interceptors 5 say (note 1 ∷ note 2 ∷ note 3 ∷ []) 0 9
chains_run_in_order_example =
    chains_run_in_order (note 1 ∷ note 2 ∷ []) (note 3 ∷ []) noted 5 say 0 9 options_noted

-- Two connections, of which the second is active; and the first alone.
abbrev two_conns : Server
two_conns = record {
  listeners = 4 ∷ [];
  closed_listeners = [];
  conns = (1, idle_conn) ∷ (2, record { state = active; shutdown = false }) ∷ [];
  connections = 1 ∷ 2 ∷ [];
  done = false;
}

abbrev one_idle : Server
one_idle = record two_conns { conns = (1, idle_conn) ∷ []; connections = 1 ∷ [] }

one-AllIdle : AllIdle one_idle
unfolding contains lookup
one-AllIdle j h = (idle_conn, ground arith, refl)

shutdown_round_ends_example :
    ((shutdown_round one_idle).0 ≡ true) × ((shutdown_round one_idle).1.connections ≡ [])
shutdown_round_ends_example = shutdown_round_ends one_idle one-AllIdle
