-- ===== src/Tests/Generated.antt =====
-- Examples for the accept loop, the client's `Call` and the generator.
use ttrpc.Generator.Brackets.{names_plain, after_printed}
use ttrpc.Prelude.{
  ℕ, ◌+◌, String, ◌≡◌, refl, ◌≢◌, ◌↔◌, Bool, true, false, Option, none, some, List, [], ◌∷◌, arith,
  if◌then◌else◌, ◌==◌, nat_eq, string_eq, All,
}
use mathlib.Core.List.{Perm, Mem, mem-cons_self}
use text.Mathlib.TextEquality.{eq_iff}
use ttrpc.Prelude.Text.{◌+++◌}
use ttrpc.Prelude.Assoc.{lookup}
use ttrpc.Errors.{
  Error, Result, ok, Slice, Status, eof, closed_conn, no_progress, err_server_closed,
}
use ttrpc.Metadata.{get_request_context}
use ttrpc.Metadata.Laws.{values}
use ttrpc.Server.{Server}
use ttrpc.Server.Serve.{
  Handshaker, connection, failure, Loop, Event, accepts, shuts_down, enter, serve,
  choose_handshaker,
}
use ttrpc.Server.Serve.Accepted.{fate, accepted_fate}
use ttrpc.Server.Serve.Pauses.{failing, failures_back_off}
use ttrpc.Client.Call.{
  proto, codec_marshal, codec_unmarshal, CallContext, call_request, no_response, Dispatch,
  CallInterceptor, call,
}
use ttrpc.Client.Call.Results.{IsFine, Asks, context_values, context_carries, call_succeeds}
use ttrpc.Generator.{streams_of, each, unless_empty, GoIdent, Method, Service, unary_of}
use ttrpc.Generator.Client.{
  client_interface_method, client_interface_name, client_interface, client_struct_lines,
  request_param, result_type, method_head, open_stream, client_stream_interface,
  client_stream_struct, client_send, receive_output, client_recv, stream_method, unary_method,
  client_method, gen_service, gen_services, File, generate, client_part,
}
use ttrpc.Generator.Client.Matched.{printed, generated_brackets}
use ttrpc.Generator.Client.Entries.{client_uses_registered, unregistered_call}
use ttrpc.Generator.Server.{
  send_args, ret_args, interface_method, service_interface, stream_interface, stream_struct,
  server_send, server_recv, stream_types, register_method, first_message, message_arg, call_stream,
  register_stream, register_methods, register_streams, registration, server_part,
}
use ttrpc.Plugin
use ttrpc.Plugin.Registered.{called, registered, pairs, file_pairs, plugin_calls_registered}
use ttrpc.Generator.Streams.{Entry, unary, service, server_entries, nothing, client_entries}

abbrev empty_server : Server
empty_server = record {
  listeners = [];
  closed_listeners = [];
  conns = [];
  connections = [];
  done = false;
}

-- A handshake that approves all connections but one
abbrev picky : Handshaker
picky k = if k == 7 then some eof else none

abbrev arrivals : List Event
arrivals =
    accepts (connection 5 none)
    ∷ accepts (failure no_progress true)
    ∷ accepts (connection 7 none)
    ∷ accepts (connection 8 (some (λ l. none)))
    ∷ accepts (failure closed_conn false)
    ∷ shuts_down (λ l. none)
    ∷ accepts (connection 9 none)
    ∷ []

accepted_fate_example :
    let y = serve (choose_handshaker (some picky)) 4 arrivals (enter 4 empty_server) in
    (y.started ≡ 5 ∷ []) × (y.refused ≡ 7 ∷ 8 ∷ []) × (y.result ≡ some err_server_closed)
unfolding fate choose_handshaker
accepted_fate_example = accepted_fate (some picky) 4 arrivals empty_server refl

abbrev looping : Loop
looping = record {
  server = empty_server;
  backoff = 500;
  started = [];
  refused = [];
  pauses = [];
  result = none;
}

failures_back_off_example :
    let y =
      serve picky 4
        (accepts (connection 5 none) ∷ failing (no_progress ∷ eof ∷ no_progress ∷ []))
        looping in
    (y.pauses ≡ 1000000 ∷ 2000000 ∷ 4000000 ∷ []) × (y.result ≡ none)
failures_back_off_example =
    failures_back_off picky 4 5 (no_progress ∷ eof ∷ no_progress ∷ []) looping refl refl

abbrev caller : CallContext
caller = record {
  metadata = some (("a", "x" ∷ "y" ∷ []) ∷ ("b", "z" ∷ []) ∷ []);
  until_deadline = some 1500;
}

context_carries_example :
    let server = get_request_context (call_request "echo" "say" none caller) in
    (context_values "a" server.metadata ≡ values "a" (("a", "x" ∷ "y" ∷ []) ∷ ("b", "z" ∷ []) ∷ []))
    × (server.timeout ≡ some 1500)
unfolding lookup
context_carries_example =
    context_carries "echo" "say" "a" none caller (("a", "x" ∷ "y" ∷ []) ∷ ("b", "z" ∷ []) ∷ []) refl
      (refl, (refl, tt))

-- A state that counts the calls
abbrev counting : Dispatch ℕ
counting ctx req resp n = (none, record { status = none; payload = some (n ∷ []) }, n + 1)

abbrev passing : CallInterceptor ℕ
passing ctx req resp info invoker = invoker ctx req resp

abbrev join : String → String → String
join a b = a +++ "/" +++ b

abbrev marshal_number : ℕ → Result Slice
marshal_number n = ok (some (n ∷ []))

abbrev wants_payload : Slice → Option Error
wants_payload none = some eof
wants_payload (some p) = none

call_succeeds_example :
    ((call join marshal_number passing counting caller "echo" "say"
          (proto 3)
          (proto wants_payload)
          6
        ≡ (ok (some (6 ∷ [])), 7))
      ↔ ((p : Slice) × (st : Option Status) × (codec_marshal marshal_number (proto 3) ≡ ok p)
          × (passing caller
                (call_request "echo" "say" p caller)
                no_response
                ("/" +++ join "echo" "say")
                counting
                6
              ≡ (none, record { status = st; payload = some (6 ∷ []) }, 7))
          × (codec_unmarshal (proto wants_payload) (some (6 ∷ [])) ≡ none)
          × IsFine st))
    × ((p : Slice) → Asks "echo" "say" p (call_request "echo" "say" p caller))
call_succeeds_example =
    call_succeeds join marshal_number passing counting caller "echo" "say" (proto 3)
      (proto wants_payload) 6 7 (some (6 ∷ []))

abbrev message_ident : GoIdent
message_ident = record { import_path = "example.com/demo"; go_name = "Message" }

abbrev a_method : String → String → Bool → Bool → Method
a_method go_name desc_name c s = record {
  go_name = go_name;
  desc_name = desc_name;
  input = message_ident;
  output = message_ident;
  streaming_client = c;
  streaming_server = s;
}

abbrev demo : Service
demo = record {
  go_name = "Demo";
  full_name = "example.Demo";
  methods = a_method "Watch" "Watch" false true ∷ a_method "Say" "Say" false false ∷ [];
}

abbrev demo_file : File
demo_file = record { path = "demo.proto"; package_name = "demo"; services = demo ∷ [] }

abbrev qualify : GoIdent → String
qualify i = i.go_name

demo_plain : names_plain (λ n. n) qualify (printed (generate "TTRPC" demo_file)) ≡ true
unfolding streams_of unary_of each unless_empty send_args ret_args interface_method
    service_interface stream_interface stream_struct server_send server_recv stream_types
    register_method first_message message_arg call_stream register_stream register_methods
    register_streams registration server_part client_interface_method client_interface_name
    client_interface client_struct_lines request_param result_type method_head open_stream
    client_stream_interface client_stream_struct client_send receive_output client_recv
    stream_method unary_method client_method client_part gen_service gen_services generate
demo_plain = refl

generated_brackets_example :
    after_printed (λ n. n) qualify [] (printed (generate "TTRPC" demo_file)) ≡ some []
generated_brackets_example = generated_brackets (λ n. n) qualify "TTRPC" demo_file demo_plain

client_uses_registered_example :
    Perm
      (client_entries nothing (client_part demo))
      (server_entries (service "") (server_part demo))
unfolding unary_of
client_uses_registered_example = client_uses_registered demo "" (refl, tt)

-- A method whose name in the source is not its name in Go
abbrev lower_case : Service
lower_case = record demo { methods = a_method "GetState" "get_state" false false ∷ [] }

differ : (a_method "GetState" "get_state" false false).go_name ≢ "get_state"
differ e = ground (arith, eq_iff "GetState" "get_state")

unregistered_call_example :
    Mem (unary "example.Demo" "get_state") (client_entries nothing (client_part lower_case))
    × All
        (λ (e : Entry). e ≢ unary "example.Demo" "get_state")
        (server_entries (service "") (server_part lower_case))
unfolding unary_of
unregistered_call_example =
    unregistered_call lower_case "" (a_method "GetState" "get_state" false false) mem-cons_self refl
      (differ, tt)

abbrev plugin_names : Plugin.Names
plugin_names = record {
  context_pkg = "context";
  ttrpc_pkg = "github_com_containerd_ttrpc";
  type_name = λ n. n;
  lower_first = λ n. if n == "DemoClient" then "demoClient" else n;
}

abbrev plugin_demo : Plugin.Service
plugin_demo = record {
  name = "Demo";
  methods = record { name = "Say"; input = "Message"; output = "Message" } ∷ [];
}

plugin_calls_registered_example :
    (called (Plugin.generate plugin_names "example" (plugin_demo ∷ []))
      ≡ ("example" +++ ("." +++ "Demo"), "Say") ∷ [])
    × (registered "" (Plugin.generate plugin_names "example" (plugin_demo ∷ []))
        ≡ called (Plugin.generate plugin_names "example" (plugin_demo ∷ [])))
unfolding file_pairs pairs Plugin.full_name
plugin_calls_registered_example = plugin_calls_registered plugin_names "example" (plugin_demo ∷ [])
