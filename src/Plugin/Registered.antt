-- ===== src/Plugin/Registered.antt =====
-- plugin/generator.go: the names under which the printed code registers methods, and those it calls.
use ttrpc.Prelude.{
  String, ◌≡◌, refl, sym, ap, ◌∙◌, Option, none, some, List, [], ◌∷◌, ◌++◌, append_assoc,
  if◌then◌else◌, ◌==◌, nat_eq, string_eq,
}
use ttrpc.Generator.{text, name, Line}
use ttrpc.Plugin.{
  Print, prints, inward, outward, Method, Service, Names, each, interface_method, service_interface,
  register_method, registration, client_struct, client_method, gen_service, full_name, generate,
}

-- A line that opens a service's registration: its name
opens : Line → Option String
opens (text a ∷ name n ∷ text b ∷ r) = if a == "srv.Register(\"" then some n else none
opens _ = none

-- A line that opens a method's entry in the registration: its name
entry : Line → Option String
entry (text a ∷ name n ∷ text b ∷ r) = if a == "\"" then some n else none
entry _ = none

-- A line that calls: the names of the service and of the method
call : Line → Option (String × String)
call (text a ∷ text b ∷ name s ∷ text c ∷ text d ∷ text e ∷ name m ∷ r) =
    if a == "if err := c.client.Call(ctx, " then some (s, m) else none
call _ = none

consed : {A : Type 0} → Option A → List A → List A
consed none xs = xs
consed (some x) xs = x ∷ xs

-- The service and the name of each method that is called
pub called : List Print → List (String × String)
called [] = []
called (prints l ∷ ps) = consed (call l) (called ps)
called (inward ∷ ps) = called ps
called (outward ∷ ps) = called ps

from_option : String → Option String → String
from_option f none = f
from_option f (some n) = n

paired : String → Option String → Option (String × String)
paired f none = none
paired f (some n) = some (f, n)

-- The service and the name of each method that is registered, behind the opening of `f`
pub registered : String → List Print → List (String × String)
registered f [] = []
registered f (prints l ∷ ps) = consed (paired f (entry l)) (registered (from_option f (opens l)) ps)
registered f (inward ∷ ps) = registered f ps
registered f (outward ∷ ps) = registered f ps

unfoldable pub pairs : String → List Method → List (String × String)
pairs f [] = []
pairs f (m ∷ ms) = (f, m.name) ∷ pairs f ms

-- The pairs of the methods of a file's services, in order
unfoldable pub file_pairs : String → List Service → List (String × String)
file_pairs pkg [] = []
file_pairs pkg (s ∷ ss) = pairs (full_name pkg s) s.methods ++ file_pairs pkg ss

-- The parts of a service, ahead of what follows it
service_append :
    (a b c d r : List Print) → (a ++ (b ++ (c ++ d))) ++ r ≡ a ++ (b ++ (c ++ (d ++ r)))
service_append a b c d r =
    append_assoc a _ r
    ∙ ap (λ z. a ++ z) (append_assoc b _ r ∙ ap (λ z. b ++ z) (append_assoc c d r))

module _ (names : Names) where
  called-interface :
      (ms : List Method) (r : List Print)
      → called (each (interface_method names) ms ++ r) ≡ called r
  unfolding called each interface_method call consed
  called-interface [] r = refl
  called-interface (m ∷ ms) r = called-interface ms r

  called-entries :
      (ms : List Method) (r : List Print) → called (each (register_method names) ms ++ r) ≡ called r
  unfolding called each register_method call consed
  called-entries [] r = refl
  called-entries (m ∷ ms) r = called-entries ms r

  called-clients :
      (full : String) (s : Service) (ms : List Method) (r : List Print)
      → called (each (client_method names full s) ms ++ r) ≡ pairs full ms ++ called r
  unfolding called each client_method call consed pairs
  called-clients full s [] r = refl
  called-clients full s (m ∷ ms) r = ap (λ z. (full, m.name) ∷ z) (called-clients full s ms r)

  registered-interface :
      (f : String) (ms : List Method) (r : List Print)
      → registered f (each (interface_method names) ms ++ r) ≡ registered f r
  unfolding registered each interface_method entry opens from_option paired consed
  registered-interface f [] r = refl
  registered-interface f (m ∷ ms) r = registered-interface f ms r

  registered-entries :
      (f : String) (ms : List Method) (r : List Print)
      → registered f (each (register_method names) ms ++ r) ≡ pairs f ms ++ registered f r
  unfolding registered each register_method entry opens from_option paired consed pairs
  registered-entries f [] r = refl
  registered-entries f (m ∷ ms) r = ap (λ z. (f, m.name) ∷ z) (registered-entries f ms r)

  registered-clients :
      (f full : String) (s : Service) (ms : List Method) (r : List Print)
      → registered f (each (client_method names full s) ms ++ r) ≡ registered f r
  unfolding registered each client_method entry opens from_option paired consed
  registered-clients f full s [] r = refl
  registered-clients f full s (m ∷ ms) r = registered-clients f full s ms r

  called-service_interface :
      (s : Service) (r : List Print) → called (service_interface names s ++ r) ≡ called r
  unfolding service_interface called call consed
  called-service_interface s r =
      ap called (append_assoc (each (interface_method names) s.methods) _ r)
      ∙ called-interface s.methods _

  called-registration :
      (full : String) (s : Service) (r : List Print)
      → called (registration names full s ++ r) ≡ called r
  unfolding registration called call consed
  called-registration full s r =
      ap called (append_assoc (each (register_method names) s.methods) _ r)
      ∙ called-entries s.methods _

  called-client_struct :
      (s : Service) (r : List Print) → called (client_struct names s ++ r) ≡ called r
  unfolding client_struct called call consed
  called-client_struct s r = refl

  called-gen_service :
      (full : String) (s : Service) (r : List Print)
      → called (gen_service names full s ++ r) ≡ pairs full s.methods ++ called r
  unfolding gen_service
  called-gen_service full s r =
      ap called (
        service_append (service_interface names s) (registration names full s)
          (client_struct names s) (each (client_method names full s) s.methods) r)
      ∙ called-service_interface s _
      ∙ called-registration full s _
      ∙ called-client_struct s _
      ∙ called-clients full s s.methods r

  registered-service_interface :
      (f : String) (s : Service) (r : List Print)
      → registered f (service_interface names s ++ r) ≡ registered f r
  unfolding service_interface registered entry opens from_option paired consed
  registered-service_interface f s r =
      ap (registered f) (append_assoc (each (interface_method names) s.methods) _ r)
      ∙ registered-interface f s.methods _

  registered-registration :
      (f full : String) (s : Service) (r : List Print)
      → registered f (registration names full s ++ r) ≡ pairs full s.methods ++ registered full r
  unfolding registration registered entry opens from_option paired consed
  registered-registration f full s r =
      ap (registered full) (append_assoc (each (register_method names) s.methods) _ r)
      ∙ registered-entries full s.methods _

  registered-client_struct :
      (f : String) (s : Service) (r : List Print)
      → registered f (client_struct names s ++ r) ≡ registered f r
  unfolding client_struct registered entry opens from_option paired consed
  registered-client_struct f s r = refl

  registered-gen_service :
      (f full : String) (s : Service) (r : List Print)
      → registered f (gen_service names full s ++ r) ≡ pairs full s.methods ++ registered full r
  unfolding gen_service
  registered-gen_service f full s r =
      ap (registered f) (
        service_append (service_interface names s) (registration names full s)
          (client_struct names s) (each (client_method names full s) s.methods) r)
      ∙ registered-service_interface f s _
      ∙ registered-registration f full s _
      ∙ ap (λ z. pairs full s.methods ++ z)
          (registered-client_struct full s _ ∙ registered-clients full full s s.methods r)

  called-generate :
      (pkg : String) (ss : List Service) → called (generate names pkg ss) ≡ file_pairs pkg ss
  unfolding generate file_pairs called
  called-generate pkg [] = refl
  called-generate pkg (s ∷ ss) =
      called-gen_service (full_name pkg s) s (generate names pkg ss)
      ∙ ap (λ z. pairs (full_name pkg s) s.methods ++ z) (called-generate pkg ss)

  registered-generate :
      (f pkg : String) (ss : List Service)
      → registered f (generate names pkg ss) ≡ file_pairs pkg ss
  unfolding generate file_pairs registered
  registered-generate f pkg [] = refl
  registered-generate f pkg (s ∷ ss) =
      registered-gen_service f (full_name pkg s) s (generate names pkg ss)
      ∙ ap (λ z. pairs (full_name pkg s) s.methods ++ z)
          (registered-generate (full_name pkg s) pkg ss)

  -- The calls that the plugin's printed clients make name, in order, the service and the name of
  -- every method of the file's services, which are the pairs that the printed code registers.
  pub plugin_calls_registered :
      (pkg : String) (ss : List Service)
      → (called (generate names pkg ss) ≡ file_pairs pkg ss)
        × (registered "" (generate names pkg ss) ≡ called (generate names pkg ss))
  plugin_calls_registered pkg ss =
      (called-generate pkg ss, registered-generate "" pkg ss ∙ sym (called-generate pkg ss))
