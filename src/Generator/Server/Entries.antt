-- ===== src/Generator/Server/Entries.antt =====
-- What the generated registration registers.
use ttrpc.Prelude.{
  String, ◌≡◌, refl, ◌∙◌, Bool, true, false, List, [], ◌∷◌, ◌++◌, map, append-nil, nat_eq,
  string_eq,
}
use ttrpc.Generator.{Line, Method, Service, each, streams_of, unary_of, line, blank}
use ttrpc.Generator.Brackets.{with_flags}
use ttrpc.Generator.Streams.{
  Finds-quiet, Entry, unary, stream, service, server_entries, Finds, Finds-append,
  Finds-unless_empty, Finds-none, Finds-each,
}
use ttrpc.Generator.Server.{
  service_interface, interface_method, stream_types, stream_interface, stream_struct, server_send,
  server_recv, register_method, register_stream, first_message, call_stream, register_methods,
  register_streams, registration, server_part, message_arg,
}

abbrev pub unary_entry : String → Method → Entry
unary_entry f m = unary f m.go_name

abbrev pub stream_entry : String → Method → Entry
stream_entry f m = stream f m.go_name m.streaming_client m.streaming_server

module _ (s : Service) (f : String) where
  abbrev Reads : List Line → List Entry → Type 0
  Reads = Finds (server_entries (service f))

  interface_method-Reads : (m : Method) → Reads (interface_method s m) []
  unfolding interface_method server_entries
  interface_method-Reads m rest = refl

  stream_types-Reads : (m : Method) (c d : Bool) → Reads (stream_types s (with_flags m c d)) []
  unfolding stream_types stream_interface stream_struct server_send server_recv server_entries
  stream_types-Reads m true true rest = refl
  stream_types-Reads m true false rest = refl
  stream_types-Reads m false true rest = refl
  stream_types-Reads m false false rest = refl

  register_method-Reads : (m : Method) → Reads (register_method m) (unary_entry f m ∷ [])
  unfolding register_method server_entries
  register_method-Reads m rest = refl

  register_stream-Reads :
      (m : Method) (c d : Bool)
      → Reads (register_stream s (with_flags m c d)) (stream_entry f (with_flags m c d) ∷ [])
  unfolding register_stream first_message call_stream message_arg server_entries
  register_stream-Reads m true true rest = refl
  register_stream-Reads m true false rest = refl
  register_stream-Reads m false true rest = refl
  register_stream-Reads m false false rest = refl

  service_interface-Reads : Reads (service_interface s) []
  unfolding service_interface server_entries
  service_interface-Reads =
      Finds-quiet (server_entries (service f)) (each (interface_method s) s.methods)
        (line "}" ∷ blank ∷ []) []
        (Finds-none (server_entries (service f)) (interface_method s) s.methods
          interface_method-Reads)
        (λ rest. refl)

  register_methods-Reads : Reads (register_methods s) (map (unary_entry f) (unary_of s.methods))
  unfolding register_methods server_entries
  register_methods-Reads =
      let read = server_entries (service f) in
      let ms = unary_of s.methods in
      Finds-unless_empty read (unary_entry f) ms _ (
        Finds-quiet read (each register_method ms) (line "}," ∷ []) (map (unary_entry f) ms)
          (Finds-each read register_method (unary_entry f) ms register_method-Reads) (λ rest. refl))

  register_streams-Reads : Reads (register_streams s) (map (stream_entry f) (streams_of s.methods))
  unfolding register_streams server_entries
  register_streams-Reads =
      let read = server_entries (service f) in
      let ms = streams_of s.methods in
      Finds-unless_empty read (stream_entry f) ms _ (
        Finds-quiet read (each (register_stream s) ms) (line "}," ∷ []) (map (stream_entry f) ms)
          (Finds-each read (register_stream s) (stream_entry f) ms
            (λ m. register_stream-Reads m m.streaming_client m.streaming_server))
          (λ rest. refl))

  types-Reads : Reads (each (stream_types s) (streams_of s.methods)) []
  types-Reads =
      Finds-none (server_entries (service f)) (stream_types s) (streams_of s.methods)
        (λ m. stream_types-Reads m m.streaming_client m.streaming_server)

-- What a service registers
abbrev pub registered_entries : Service → List Entry
registered_entries s =
    map (unary_entry s.full_name) (unary_of s.methods)
    ++ map (stream_entry s.full_name) (streams_of s.methods)

registration_entries :
    (s : Service) (f : String) → server_entries (service f) (registration s) ≡ registered_entries s
unfolding registration server_entries
registration_entries s f =
    let read = server_entries (service s.full_name) in
    let es = map (unary_entry s.full_name) (unary_of s.methods) in
    let fs = map (stream_entry s.full_name) (streams_of s.methods) in
    let found =
      Finds-append read (register_methods s) (register_streams s) es fs
        (register_methods-Reads s s.full_name) (register_streams-Reads s s.full_name) in
    found (line "})" ∷ line "}" ∷ blank ∷ []) ∙ append-nil (es ++ fs)

pub server_part_entries :
    (s : Service) (f : String) → server_entries (service f) (server_part s) ≡ registered_entries s
unfolding server_part
server_part_entries s f =
    let read = server_entries (service f) in
    let types = each (stream_types s) (streams_of s.methods) in
    Finds-append read (service_interface s) types [] [] (service_interface-Reads s f)
      (types-Reads s f) (registration s)
    ∙ registration_entries s f
