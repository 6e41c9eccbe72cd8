-- ===== src/Plugin.antt =====
-- plugin/generator.go: the Go source that the plugin of the gogo compiler prints. The names under which
-- the compiler's libraries import packages and write types, and the lowering of a first letter, are
-- parameters.
pub mod Registered
use ttrpc.Prelude.{
  String, Option, none, some, List, [], ◌∷◌, ◌++◌, if◌then◌else◌, ◌==◌, nat_eq, string_eq,
}
use ttrpc.Prelude.Text.{◌+++◌}
use ttrpc.Generator.{text, name, Line}

-- What the plugin calls of its printer: `P`, `In` and `Out`
pub data Print : Type 0 where
  prints : Line → Print
  inward : Print
  outward : Print

abbrev pub p : Line → Print
p l = prints l

-- What the plugin reads of a method and of a service
pub record Method : Type 0 where
  pub name : String
  pub input : String
  pub output : String

pub record Service : Type 0 where
  pub name : String
  pub methods : List Method

-- What the compiler's libraries give
pub record Names : Type 0 where
  pub context_pkg : String
  pub ttrpc_pkg : String
  pub type_name : String → String
  pub lower_first : String → String

pub each : (Method → List Print) → List Method → List Print
each f [] = []
each f (m ∷ ms) = f m ++ each f ms

-- The full name of a service of package `pkg`
unfoldable pub full_name : String → Service → String
full_name pkg s = if pkg == "" then s.name else pkg +++ ("." +++ s.name)

module _ (names : Names) where
  -- A method of the service's interface
  interface_method : Method → List Print
  interface_method m =
      p (
        name m.name
        ∷ text "(ctx "
        ∷ name names.context_pkg
        ∷ text ".Context, "
        ∷ text "req *"
        ∷ name (names.type_name m.input)
        ∷ text ") "
        ∷ text "(*"
        ∷ name (names.type_name m.output)
        ∷ text ", error)"
        ∷ [])
      ∷ []

  service_interface : Service → List Print
  service_interface s =
      p []
      ∷ p (text "type " ∷ name s.name ∷ text "Service" ∷ text " interface{" ∷ [])
      ∷ inward
      ∷ (each interface_method s.methods ++ outward ∷ p (text "}" ∷ []) ∷ p [] ∷ [])

  -- The entry of a method in the registration
  register_method : Method → List Print
  register_method m =
      p (
        text "\""
        ∷ name m.name
        ∷ text "\": "
        ∷ text "func(ctx context.Context, unmarshal func(interface{}) error) (interface{}, error) {"
        ∷ [])
      ∷ inward
      ∷ p (text "var req " ∷ name (names.type_name m.input) ∷ [])
      ∷ p (text "if err := unmarshal(&req); err != nil {" ∷ [])
      ∷ inward
      ∷ p (text "return nil, err" ∷ [])
      ∷ outward
      ∷ p (text "}" ∷ [])
      ∷ p (text "return svc." ∷ name m.name ∷ text "(ctx, &req)" ∷ [])
      ∷ outward
      ∷ p (text "}," ∷ [])
      ∷ []

  registration : String → Service → List Print
  registration full s =
      p (
        text "func Register"
        ∷ name s.name
        ∷ text "Service"
        ∷ text "(srv *"
        ∷ name names.ttrpc_pkg
        ∷ text ".Server, svc "
        ∷ name s.name
        ∷ text "Service"
        ∷ text ") {"
        ∷ [])
      ∷ inward
      ∷ p (
          text "srv.Register(\""
          ∷ name full
          ∷ text "\", map[string]"
          ∷ name names.ttrpc_pkg
          ∷ text ".Method{"
          ∷ [])
      ∷ inward
      ∷ (each register_method s.methods
          ++ outward ∷ p (text "})" ∷ []) ∷ outward ∷ p (text "}" ∷ []) ∷ [])

  -- `clientStructType`
  abbrev client_struct_type : Service → String
  client_struct_type s = names.lower_first (s.name +++ "Client")

  client_struct : Service → List Print
  client_struct s =
      p []
      ∷ p (text "type " ∷ name (client_struct_type s) ∷ text " struct{" ∷ [])
      ∷ inward
      ∷ p (text "client *" ∷ name names.ttrpc_pkg ∷ text ".Client" ∷ [])
      ∷ outward
      ∷ p (text "}" ∷ [])
      ∷ p []
      ∷ p (
          text "func New"
          ∷ name s.name
          ∷ text "Client"
          ∷ text "(client *"
          ∷ name names.ttrpc_pkg
          ∷ text ".Client)"
          ∷ name s.name
          ∷ text "Service"
          ∷ text "{"
          ∷ [])
      ∷ inward
      ∷ p (text "return &" ∷ name (client_struct_type s) ∷ text "{" ∷ [])
      ∷ inward
      ∷ p (text "client: client," ∷ [])
      ∷ outward
      ∷ p (text "}" ∷ [])
      ∷ outward
      ∷ p (text "}" ∷ [])
      ∷ p []
      ∷ []

  client_method : String → Service → Method → List Print
  client_method full s m =
      p []
      ∷ p (
          text "func (c *"
          ∷ name (client_struct_type s)
          ∷ text ") "
          ∷ name m.name
          ∷ text "(ctx "
          ∷ name names.context_pkg
          ∷ text ".Context, "
          ∷ text "req *"
          ∷ name (names.type_name m.input)
          ∷ text ") "
          ∷ text "(*"
          ∷ name (names.type_name m.output)
          ∷ text ", error) {"
          ∷ [])
      ∷ inward
      ∷ p (text "var resp " ∷ name (names.type_name m.output) ∷ [])
      ∷ p (
          text "if err := c.client.Call(ctx, "
          ∷ text "\""
          ∷ name full
          ∷ text "\""
          ∷ text ", "
          ∷ text "\""
          ∷ name m.name
          ∷ text "\""
          ∷ text ", req, &resp); err != nil {"
          ∷ [])
      ∷ inward
      ∷ p (text "return nil, err" ∷ [])
      ∷ outward
      ∷ p (text "}" ∷ [])
      ∷ p (text "return &resp, nil" ∷ [])
      ∷ outward
      ∷ p (text "}" ∷ [])
      ∷ []

  -- `genService`
  pub gen_service : String → Service → List Print
  gen_service full s =
      service_interface s
      ++ (registration full s ++ (client_struct s ++ each (client_method full s) s.methods))

  -- `Generate`, on the services of a file
  pub generate : String → List Service → List Print
  generate pkg [] = []
  generate pkg (s ∷ ss) = gen_service (full_name pkg s) s ++ generate pkg ss
