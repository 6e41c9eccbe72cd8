-- ===== src/Generator/Server.antt =====
-- generator.go, `genService`: the service's interface, the types of its streams on the server, and its
-- registration.
pub mod Matched
pub mod Entries
use ttrpc.Prelude.{Bool, true, false, not, List, [], ◌∷◌, ◌++◌}
use ttrpc.Generator.{
  text, name, lowered, ident, Line, Method, Service, context_ident, server_ident, method_ident,
  stream_ident, service_desc_ident, stream_server_ident, is_streaming, streams_of, unary_of, each,
  unless_empty, when, line, blank,
}

-- `serviceName`
abbrev pub service_name : Service → Line
service_name s = name s.go_name ∷ text "Service" ∷ []

-- `structName` of a stream on the server
abbrev pub server_struct : Service → Method → Line
server_struct s m = lowered s.go_name ∷ name m.go_name ∷ text "Server" ∷ []

-- `sendArgs` and `retArgs` of the service's interface
unfoldable pub send_args : Service → Method → Line
send_args s m = elim (is_streaming m) [
  | false ↦ text "*" ∷ ident m.input ∷ []
  | true ↦ elim m.streaming_client [
    | false ↦
        text "*"
        ∷ ident m.input
        ∷ text ", "
        ∷ name s.go_name
        ∷ text "_"
        ∷ name m.go_name
        ∷ text "Server"
        ∷ []
    | true ↦ name s.go_name ∷ text "_" ∷ name m.go_name ∷ text "Server" ∷ []
  ]
]

unfoldable pub ret_args : Method → Line
ret_args m = elim m.streaming_server [
  | true ↦ text "error" ∷ []
  | false ↦ text "(*" ∷ ident m.output ∷ text ", error)" ∷ []
]

unfoldable pub interface_method : Service → Method → List Line
interface_method s m =
    (name m.go_name
      ∷ text "("
      ∷ context_ident
      ∷ text ", "
      ∷ (send_args s m ++ text ") " ∷ ret_args m))
    ∷ []

-- `type …Service interface{`
unfoldable pub service_interface : Service → List Line
service_interface s =
    (text "type " ∷ (service_name s ++ text " interface{" ∷ []))
    ∷ (each (interface_method s) s.methods ++ line "}" ∷ blank ∷ [])

-- The types of a stream on the server, and their methods
unfoldable pub stream_interface : Service → Method → List Line
stream_interface s m =
    (text "type " ∷ name s.go_name ∷ text "_" ∷ name m.go_name ∷ text "Server interface {" ∷ [])
    ∷ (when m.streaming_server ((text "Send(*" ∷ ident m.output ∷ text ") error" ∷ []) ∷ [])
        ++ when m.streaming_client ((text "Recv() (*" ∷ ident m.input ∷ text ", error)" ∷ []) ∷ [])
        ++ (stream_server_ident ∷ []) ∷ line "}" ∷ blank ∷ [])

unfoldable pub stream_struct : Service → Method → List Line
stream_struct s m =
    (text "type " ∷ (server_struct s m ++ text " struct {" ∷ []))
    ∷ (stream_server_ident ∷ [])
    ∷ line "}"
    ∷ blank
    ∷ []

unfoldable pub server_send : Service → Method → List Line
server_send s m =
    (text "func (x *"
      ∷ (server_struct s m ++ text ") Send(m *" ∷ ident m.output ∷ text ") error {" ∷ []))
    ∷ line "return x.StreamServer.SendMsg(m)"
    ∷ line "}"
    ∷ blank
    ∷ []

unfoldable pub server_recv : Service → Method → List Line
server_recv s m =
    (text "func (x *"
      ∷ (server_struct s m ++ text ") Recv() (*" ∷ ident m.input ∷ text ", error) {" ∷ []))
    ∷ (text "m := new(" ∷ ident m.input ∷ text ")" ∷ [])
    ∷ line "if err := x.StreamServer.RecvMsg(m); err != nil {"
    ∷ line "return nil, err"
    ∷ line "}"
    ∷ line "return m, nil"
    ∷ line "}"
    ∷ blank
    ∷ []

unfoldable pub stream_types : Service → Method → List Line
stream_types s m =
    stream_interface s m
    ++ stream_struct s m
    ++ when m.streaming_server (server_send s m)
    ++ when m.streaming_client (server_recv s m)

-- The entry of a unary method in the registration
unfoldable pub register_method : Method → List Line
register_method m =
    (text "\""
      ∷ name m.go_name
      ∷ text "\": func(ctx "
      ∷ context_ident
      ∷ text ", unmarshal func(interface{}) error)(interface{}, error){"
      ∷ [])
    ∷ (text "var req " ∷ ident m.input ∷ [])
    ∷ line "if err := unmarshal(&req); err != nil {"
    ∷ line "return nil, err"
    ∷ line "}"
    ∷ (text "return svc." ∷ name m.go_name ∷ text "(ctx, &req)" ∷ [])
    ∷ line "},"
    ∷ []

unfoldable pub first_message : Method → List Line
first_message m = when (not m.streaming_client) (
    (text "m := new(" ∷ ident m.input ∷ text ")" ∷ [])
    ∷ line "if err := stream.RecvMsg(m); err != nil {"
    ∷ line "return nil, err"
    ∷ line "}"
    ∷ [])

-- `sendArg` of the call of a stream's method
unfoldable pub message_arg : Method → Line
message_arg m = elim m.streaming_client [ true ↦ [] | false ↦ text "m, " ∷ [] ]

unfoldable pub call_stream : Service → Method → Line
call_stream s m =
    text (elim m.streaming_server [ true ↦ "return nil, svc." | false ↦ "return svc." ])
    ∷ name m.go_name
    ∷ text "(ctx, "
    ∷ (message_arg m ++ text "&" ∷ (server_struct s m ++ text "{stream})" ∷ []))

abbrev pub client_flag : Bool → Line
client_flag true = line "StreamingClient: true,"
client_flag false = line "StreamingClient: false,"

abbrev pub server_flag : Bool → Line
server_flag true = line "StreamingServer: true,"
server_flag false = line "StreamingServer: false,"

-- The entry of a stream in the registration
unfoldable pub register_stream : Service → Method → List Line
register_stream s m =
    (text "\"" ∷ name m.go_name ∷ text "\": {" ∷ [])
    ∷ (text "Handler: func(ctx "
        ∷ context_ident
        ∷ text ", stream "
        ∷ stream_server_ident
        ∷ text ") (interface{}, error) {"
        ∷ [])
    ∷ (first_message m
        ++ call_stream s m
          ∷ line "},"
          ∷ client_flag m.streaming_client
          ∷ server_flag m.streaming_server
          ∷ line "},"
          ∷ [])

unfoldable pub register_methods : Service → List Line
register_methods s = unless_empty (unary_of s.methods) (
    (text "Methods: map[string]" ∷ method_ident ∷ text "{" ∷ [])
    ∷ (each register_method (unary_of s.methods) ++ line "}," ∷ []))

unfoldable pub register_streams : Service → List Line
register_streams s = unless_empty (streams_of s.methods) (
    (text "Streams: map[string]" ∷ stream_ident ∷ text "{" ∷ [])
    ∷ (each (register_stream s) (streams_of s.methods) ++ line "}," ∷ []))

-- `func Register…Service`
unfoldable pub registration : Service → List Line
registration s =
    (text "func Register"
      ∷ (service_name s
          ++ text "(srv *" ∷ server_ident ∷ text ", svc " ∷ (service_name s ++ text "){" ∷ [])))
    ∷ (text "srv.RegisterService(\""
        ∷ name s.full_name
        ∷ text "\", &"
        ∷ service_desc_ident
        ∷ text "{"
        ∷ [])
    ∷ ((register_methods s ++ register_streams s) ++ line "})" ∷ line "}" ∷ blank ∷ [])

unfoldable pub server_part : Service → List Line
server_part s =
    service_interface s ++ each (stream_types s) (streams_of s.methods) ++ registration s
