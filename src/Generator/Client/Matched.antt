-- ===== src/Generator/Client/Matched.antt =====
-- The brackets of what the generator prints for the client, and of a whole file.
use ttrpc.Prelude.{
  ◌∙◌, String, ◌≡◌, refl, ◌⊎◌, inl, inr, Bool, true, false, Option, none, some, List, [], ◌∷◌, ◌++◌,
  nat_eq, string_eq,
}
use ttrpc.Generator.{GoIdent, Line, Method, Service, each, streams_of, line, blank}
use ttrpc.Generator.Brackets.{
  names_plain, after_printed, after_printed-lines, Matched, after_lines, Matched-append,
  Matched-each, Matched-unless_empty, closed_behind, with_flags, by_flags,
}
use ttrpc.Generator.Server.{server_part}
use ttrpc.Generator.Server.Matched.{server_part-Matched}
use ttrpc.Generator.Client.{
  File, client_interface_method, client_interface, client_interface_name, client_struct_lines,
  request_param, result_type, method_head, open_stream, client_stream_interface,
  client_stream_struct, client_send, receive_output, client_recv, stream_method, unary_method,
  client_method, client_part, gen_service, gen_services, prefixed, generate,
}

List-cases : {A : Type 0} (xs : List A) → (xs ≡ []) ⊎ ((y : A) × (ys : List A) × (xs ≡ y ∷ ys))
List-cases [] = inl refl
List-cases (y ∷ ys) = inr (y, ys, refl)

module _ (s : Service) where
  client_interface_method-Matched :
      (m : Method) (c d : Bool) → Matched (client_interface_method s (with_flags m c d))
  unfolding client_interface_method after_lines
  client_interface_method-Matched m true true due = refl
  client_interface_method-Matched m true false due = refl
  client_interface_method-Matched m false true due = refl
  client_interface_method-Matched m false false due = refl

  client_method-Matched : (m : Method) (c d : Bool) → Matched (client_method s (with_flags m c d))
  unfolding client_method method_head request_param result_type stream_method unary_method
      open_stream client_stream_interface client_stream_struct client_send client_recv
      receive_output after_lines
  client_method-Matched m true true due = refl
  client_method-Matched m true false due = refl
  client_method-Matched m false true due = refl
  client_method-Matched m false false due = refl

  client_interface-Matched : Matched (client_interface s)
  unfolding client_interface after_lines
  client_interface-Matched = Matched-unless_empty (streams_of s.methods) _ (
      closed_behind (each (client_interface_method s) s.methods) (line "}" ∷ blank ∷ []) (b'}' ∷ [])
        (Matched-each _ _ (by_flags (client_interface_method s) client_interface_method-Matched))
        (λ d. refl))

  client_struct_lines-Matched : Matched (client_struct_lines s)
  unfolding client_struct_lines client_interface_name after_lines
  client_struct_lines-Matched due = elim (List-cases (streams_of s.methods)) [
    | inl e ↦ rw (e, client_interface_name) refl
    | inr (m, ms, e) ↦ rw (e, client_interface_name) refl
  ]

  client_part-Matched : Matched (client_part s)
  unfolding client_part
  client_part-Matched =
      Matched-append (client_interface s ++ client_struct_lines s)
        (each (client_method s) s.methods)
        (Matched-append (client_interface s) (client_struct_lines s) client_interface-Matched
          client_struct_lines-Matched)
        (Matched-each _ _ (by_flags (client_method s) client_method-Matched))

  gen_service-Matched : Matched (gen_service s)
  unfolding gen_service
  gen_service-Matched =
      Matched-append (server_part s) (client_part s) (server_part-Matched s) client_part-Matched

gen_services-Matched : (p : String) (ss : List Service) → Matched (gen_services p ss)
unfolding gen_services after_lines
gen_services-Matched p [] due = refl
gen_services-Matched p (s ∷ ss) due =
    Matched-append (gen_service (prefixed p s)) (gen_services p ss)
      (gen_service-Matched (prefixed p s)) (gen_services-Matched p ss) due

-- The lines of a generated file; where there is no file, none
abbrev pub printed : Option (List Line) → List Line
printed none = []
printed (some ls) = ls

generate-closed : (p : String) (f : File) → after_lines [] (printed (generate p f)) ≡ some []
unfolding generate after_lines
generate-closed p f = elim (List-cases f.services) [
  | inl e ↦ rw (e, generate) refl
  | inr (s, ss, e) ↦ rw (e, generate) (gen_services-Matched p (s ∷ ss) [])
]

-- For every way in which names are lowered and identifiers are qualified, and whatever the services, the
-- methods and the prefix: if no name that the generator prints, the prefix among them, has a bracket as
-- it is printed, then in the text of the generated file every round, square and curly bracket is closed
-- by its own kind and in the right order, and none is closed that was not opened.
pub generated_brackets :
    (lower : String → String) (qualified : GoIdent → String) (p : String) (f : File)
    → names_plain lower qualified (printed (generate p f)) ≡ true
    → after_printed lower qualified [] (printed (generate p f)) ≡ some []
generated_brackets lower qualified p f h =
    after_printed-lines lower qualified [] (printed (generate p f)) h ∙ generate-closed p f
