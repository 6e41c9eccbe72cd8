-- ===== src/Generator/Client.antt =====
-- generator.go, `genService`: the client's interface, its type and its methods, and the file's frame.
pub mod Matched
pub mod Entries
use ttrpc.Prelude.{String, Bool, true, false, Option, none, some, List, [], ◌∷◌, ◌++◌}
use ttrpc.Generator.{
  text, name, lowered, ident, Line, Method, Service, context_ident, client_ident, stream_desc_ident,
  client_stream_name, stream_client_ident, is_streaming, streams_of, each, unless_empty, when, line,
  blank,
}
use ttrpc.Prelude.Text.{◌+++◌}
use ttrpc.Generator.Server.{service_name, server_part}

-- `clientType`, `clientStructType` and `intName`
abbrev client_type : Service → Line
client_type s = name s.go_name ∷ text "Client" ∷ []

abbrev client_struct_type : Service → Line
client_struct_type s = lowered s.go_name ∷ text "Client" ∷ []

abbrev int_name : Service → Method → Line
int_name s m = name s.go_name ∷ text "_" ∷ name m.go_name ∷ text "Client" ∷ []

-- `structName` of a stream on the client
abbrev client_struct : Service → Method → Line
client_struct s m = lowered s.go_name ∷ name m.go_name ∷ text "Client" ∷ []

-- A method of the client's interface. (The lists that the source appends to here are not read again.)
unfoldable pub client_interface_method : Service → Method → List Line
client_interface_method s m = elim (is_streaming m) [
  | true ↦
      (name m.go_name
        ∷ text "("
        ∷ context_ident
        ∷ text ", "
        ∷ (elim m.streaming_client [ true ↦ [] | false ↦ text "*" ∷ ident m.input ∷ text ", " ∷ [] ]
            ++ text ") (" ∷ (int_name s m ++ text ", error)" ∷ [])))
      ∷ []
  | false ↦
      (name m.go_name
        ∷ text "("
        ∷ context_ident
        ∷ text ", "
        ∷ text "*"
        ∷ ident m.input
        ∷ text ")"
        ∷ text "(*"
        ∷ ident m.output
        ∷ text ", error)"
        ∷ [])
      ∷ []
]

-- `clientInterface`: the service's interface, where it has no stream
unfoldable pub client_interface_name : Service → Line
client_interface_name s = elim (streams_of s.methods) [
  | [] ↦ service_name s
  | m ∷ ms ↦ client_type s
]

unfoldable pub client_interface : Service → List Line
client_interface s = unless_empty (streams_of s.methods) (
    (text "type " ∷ (client_type s ++ text " interface{" ∷ []))
    ∷ (each (client_interface_method s) s.methods ++ line "}" ∷ blank ∷ []))

-- The client's type and `New…Client`
unfoldable pub client_struct_lines : Service → List Line
client_struct_lines s =
    (text "type " ∷ (client_struct_type s ++ text " struct{" ∷ []))
    ∷ (text "client *" ∷ client_ident ∷ [])
    ∷ line "}"
    ∷ (text "func New"
        ∷ (client_type s
            ++ text "(client *"
              ∷ client_ident
              ∷ text ")"
              ∷ (client_interface_name s ++ text "{" ∷ [])))
    ∷ (text "return &" ∷ (client_struct_type s ++ text "{" ∷ []))
    ∷ line "client:client,"
    ∷ line "}"
    ∷ line "}"
    ∷ blank
    ∷ []

unfoldable pub request_param : Method → Line
request_param m = elim m.streaming_client [
  | true ↦ []
  | false ↦ text ", req *" ∷ ident m.input ∷ []
]

unfoldable pub result_type : Service → Method → Line
result_type s m = elim (is_streaming m) [
  | true ↦ int_name s m
  | false ↦ text "*" ∷ ident m.output ∷ []
]

unfoldable pub method_head : Service → Method → Line
method_head s m =
    text "func (c *"
    ∷ (client_struct_type s
        ++ text ") "
          ∷ name m.go_name
          ∷ text "(ctx "
          ∷ context_ident
          ∷ text ""
          ∷ (request_param m ++ text ") " ∷ text "(" ∷ (result_type s m ++ text ", error) {" ∷ [])))

abbrev pub true_or_false : Bool → String
true_or_false true = "true"
true_or_false false = "false"

-- `req`, the last argument of `NewStream`
abbrev pub first_request : Bool → String
first_request true = "nil"
first_request false = "req"

unfoldable pub open_stream : Service → Method → List Line
open_stream s m =
    (text "stream, err := c.client.NewStream(ctx, &" ∷ stream_desc_ident ∷ text "{" ∷ [])
    ∷ (text "StreamingClient: " ∷ text (true_or_false m.streaming_client) ∷ text "," ∷ [])
    ∷ (text "StreamingServer: " ∷ text (true_or_false m.streaming_server) ∷ text "," ∷ [])
    ∷ (text "}, "
        ∷ text "\""
        ∷ name s.full_name
        ∷ text "\""
        ∷ text ", "
        ∷ text "\""
        ∷ name m.go_name
        ∷ text "\""
        ∷ text ", "
        ∷ text (first_request m.streaming_client)
        ∷ text ")"
        ∷ [])
    ∷ line "if err != nil {"
    ∷ line "return nil, err"
    ∷ line "}"
    ∷ (text "x := &" ∷ (client_struct s m ++ text "{stream}" ∷ []))
    ∷ line "return x, nil"
    ∷ line "}"
    ∷ blank
    ∷ []

unfoldable pub client_stream_interface : Service → Method → List Line
client_stream_interface s m =
    (text "type " ∷ (int_name s m ++ text " interface {" ∷ []))
    ∷ (when m.streaming_client ((text "Send(*" ∷ ident m.input ∷ text ") error" ∷ []) ∷ [])
        ++ (text (elim m.streaming_server [ true ↦ "Recv() (*" | false ↦ "CloseAndRecv() (*" ])
            ∷ ident m.output
            ∷ text ", error)"
            ∷ [])
          ∷ (stream_client_ident ∷ [])
          ∷ line "}"
          ∷ blank
          ∷ [])

unfoldable pub client_stream_struct : Service → Method → List Line
client_stream_struct s m =
    (text "type " ∷ (client_struct s m ++ text " struct {" ∷ []))
    ∷ (stream_client_ident ∷ [])
    ∷ line "}"
    ∷ blank
    ∷ []

unfoldable pub client_send : Service → Method → List Line
client_send s m =
    (text "func (x *"
      ∷ (client_struct s m ++ text ") Send(m *" ∷ ident m.input ∷ text ") error {" ∷ []))
    ∷ (text "return x." ∷ name client_stream_name ∷ text ".SendMsg(m)" ∷ [])
    ∷ line "}"
    ∷ blank
    ∷ []

-- The end of `Recv` and of `CloseAndRecv`
unfoldable pub receive_output : Method → List Line
receive_output m =
    (text "m := new(" ∷ ident m.output ∷ text ")" ∷ [])
    ∷ line "if err := x.ClientStream.RecvMsg(m); err != nil {"
    ∷ line "return nil, err"
    ∷ line "}"
    ∷ line "return m, nil"
    ∷ line "}"
    ∷ blank
    ∷ []

unfoldable pub client_recv : Service → Method → List Line
client_recv s m = elim m.streaming_server [
  | true ↦
      (text "func (x *"
        ∷ (client_struct s m ++ text ") Recv() (*" ∷ ident m.output ∷ text ", error) {" ∷ []))
      ∷ receive_output m
  | false ↦
      (text "func (x *"
        ∷ (client_struct s m
            ++ text ") CloseAndRecv() (*" ∷ ident m.output ∷ text ", error) {" ∷ []))
      ∷ line "if err := x.ClientStream.CloseSend(); err != nil {"
      ∷ line "return nil, err"
      ∷ line "}"
      ∷ receive_output m
]

unfoldable pub stream_method : Service → Method → List Line
stream_method s m =
    open_stream s m
    ++ client_stream_interface s m
    ++ client_stream_struct s m
    ++ when m.streaming_client (client_send s m)
    ++ client_recv s m

unfoldable pub unary_method : Service → Method → List Line
unary_method s m =
    (text "var resp " ∷ ident m.output ∷ [])
    ∷ (text "if err := c.client.Call(ctx, \""
        ∷ name s.full_name
        ∷ text "\", \""
        ∷ name m.desc_name
        ∷ text "\", req, &resp); err != nil {"
        ∷ [])
    ∷ line "return nil, err"
    ∷ line "}"
    ∷ line "return &resp, nil"
    ∷ line "}"
    ∷ blank
    ∷ []

unfoldable pub client_method : Service → Method → List Line
client_method s m =
    method_head s m ∷ elim (is_streaming m) [ true ↦ stream_method s m | false ↦ unary_method s m ]

unfoldable pub client_part : Service → List Line
client_part s = client_interface s ++ client_struct_lines s ++ each (client_method s) s.methods

-- `genService`
unfoldable pub gen_service : Service → List Line
gen_service s = server_part s ++ client_part s

-- What `generate` reads of a file
pub record File : Type 0 where
  pub path : String
  pub package_name : String
  pub services : List Service

-- `service.GoName = servicePrefix + service.GoName`
abbrev prefixed : String → Service → Service
prefixed p s = record s { go_name = p +++ s.go_name }

unfoldable pub gen_services : String → List Service → List Line
gen_services p [] = []
gen_services p (s ∷ ss) = gen_service (prefixed p s) ++ gen_services p ss

-- `generate`; `none`: no file is made.
unfoldable pub generate : String → File → Option (List Line)
generate p f = elim f.services [
  | [] ↦ none
  | s ∷ ss ↦ some (
      line "// Code generated by protoc-gen-go-ttrpc. DO NOT EDIT."
      ∷ (text "// source: " ∷ name f.path ∷ [])
      ∷ (text "package " ∷ name f.package_name ∷ [])
      ∷ gen_services p (s ∷ ss))
]
