-- ===== src/Generator.antt =====
-- cmd/protoc-gen-go-ttrpc/generator.go: the Go source that the generator prints for the services of a
-- file. `strings.ToLower` and `QualifiedGoIdent` stay symbolic: a line is a list of pieces.
pub mod Server
pub mod Client
pub mod Brackets
pub mod Streams
use ttrpc.Prelude.{String, Bool, true, false, ◌||◌, List, [], ◌∷◌, ◌++◌, if◌then◌else◌}

-- `protogen.GoIdent`
pub record GoIdent : Type 0 where
  pub import_path : String
  pub go_name : String

-- What `P` prints one after the other: text of the generator's own, a name, a name in lower case, and an
-- identifier as `QualifiedGoIdent` writes it.
pub data Piece : Type 0 where
  text : String → Piece
  name : String → Piece
  lowered : String → Piece
  ident : GoIdent → Piece

abbrev pub Line : Type 0
Line = List Piece

-- What the generator reads of a method (`desc_name` is `Desc.Name()`) and of a service
pub record Method : Type 0 where
  pub go_name : String
  pub desc_name : String
  pub input : GoIdent
  pub output : GoIdent
  pub streaming_client : Bool
  pub streaming_server : Bool

pub record Service : Type 0 where
  pub go_name : String
  pub full_name : String
  pub methods : List Method

abbrev ttrpc_ident : String → Piece
ttrpc_ident n = ident (record { import_path = "github.com/containerd/ttrpc"; go_name = n })

-- `newGenerator`: `gen.ident`
abbrev pub context_ident : Piece
context_ident = ident (record { import_path = "context"; go_name = "Context" })

abbrev pub server_ident : Piece
server_ident = ttrpc_ident "Server"

abbrev pub client_ident : Piece
client_ident = ttrpc_ident "Client"

abbrev pub method_ident : Piece
method_ident = ttrpc_ident "Method"

abbrev pub stream_ident : Piece
stream_ident = ttrpc_ident "Stream"

abbrev pub service_desc_ident : Piece
service_desc_ident = ttrpc_ident "ServiceDesc"

abbrev pub stream_desc_ident : Piece
stream_desc_ident = ttrpc_ident "StreamDesc"

abbrev pub stream_server_ident : Piece
stream_server_ident = ttrpc_ident "StreamServer"

abbrev pub client_stream_name : String
client_stream_name = "ClientStream"

abbrev pub stream_client_ident : Piece
stream_client_ident = ttrpc_ident client_stream_name

abbrev pub is_streaming : Method → Bool
is_streaming m = m.streaming_client || m.streaming_server

-- The methods that `genService` collects in `streams` and in `methods`
unfoldable pub streams_of : List Method → List Method
streams_of [] = []
streams_of (m ∷ ms) = let rest = streams_of ms in if is_streaming m then m ∷ rest else rest

unfoldable pub unary_of : List Method → List Method
unary_of [] = []
unary_of (m ∷ ms) = let rest = unary_of ms in if is_streaming m then rest else m ∷ rest

-- A loop that prints lines for each method
unfoldable pub each : (Method → List Line) → List Method → List Line
each f [] = []
each f (m ∷ ms) = f m ++ each f ms

-- `if len(methods) > 0 { … }`
unfoldable pub unless_empty : List Method → List Line → List Line
unless_empty [] ls = []
unless_empty (m ∷ ms) ls = ls

abbrev pub when : Bool → List Line → List Line
when true ls = ls
when false ls = []

abbrev pub line : String → Line
line t = text t ∷ []

abbrev pub blank : Line
blank = []
