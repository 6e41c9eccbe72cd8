-- ===== src/Generator/Client/Entries.antt =====
-- What the generated client uses of what the generated server registers.
use ttrpc.Prelude.{
  String, ◌≡◌, refl, sym, ap, ◌∙◌, subst, ◌≢◌, inl, inr, Bool, true, false, List, [], ◌∷◌, ◌++◌,
  map, append-nil, arith, if◌then◌else◌, nat_eq, string_eq, Bool-cases, All,
}
use mathlib.Core.List.Perm
use mathlib.Core.List.{Perm, perm_middle, Mem, mem-map_of_mem}
use ttrpc.Generator.{Line, Method, Service, each, streams_of, unary_of, line, blank, is_streaming}
use ttrpc.Generator.Brackets.{with_flags}
use ttrpc.Generator.Streams.{
  Entry, unary, nothing, client_entries, service, server_entries, Finds, Finds-append, Finds-quiet,
  Finds-unless_empty_quiet, Finds-none, Finds-each,
}
use ttrpc.Generator.Server.{server_part}
use ttrpc.Generator.Server.Entries.{unary_entry, stream_entry, server_part_entries}
use ttrpc.Generator.Client.{
  client_interface_method, client_interface, client_struct_lines, request_param, result_type,
  method_head, open_stream, client_stream_interface, client_stream_struct, client_send,
  receive_output, client_recv, stream_method, unary_method, client_method, client_part,
}

-- What the client's method uses
abbrev pub used_entry : String → Method → Entry
used_entry f m = if is_streaming m then stream_entry f m else unary f m.desc_name

module _ (s : Service) where
  abbrev Reads : List Line → List Entry → Type 0
  Reads = Finds (client_entries nothing)

  client_interface_method-Reads :
      (m : Method) (c d : Bool) → Reads (client_interface_method s (with_flags m c d)) []
  unfolding client_interface_method client_entries
  client_interface_method-Reads m true true rest = refl
  client_interface_method-Reads m true false rest = refl
  client_interface_method-Reads m false true rest = refl
  client_interface_method-Reads m false false rest = refl

  client_method-Reads :
      (m : Method) (c d : Bool)
      → Reads (client_method s (with_flags m c d)) (used_entry s.full_name (with_flags m c d) ∷ [])
  unfolding client_method method_head request_param result_type stream_method unary_method
      open_stream client_stream_interface client_stream_struct client_send client_recv
      receive_output client_entries
  client_method-Reads m true true rest = refl
  client_method-Reads m true false rest = refl
  client_method-Reads m false true rest = refl
  client_method-Reads m false false rest = refl

  client_interface-Reads : Reads (client_interface s) []
  unfolding client_interface client_entries
  client_interface-Reads =
      let read = client_entries nothing in
      Finds-unless_empty_quiet read (streams_of s.methods) _ (
        Finds-quiet read (each (client_interface_method s) s.methods) (line "}" ∷ blank ∷ []) []
          (Finds-none read (client_interface_method s) s.methods
            (λ m. client_interface_method-Reads m m.streaming_client m.streaming_server))
          (λ rest. refl))

  client_struct_lines-Reads : Reads (client_struct_lines s) []
  unfolding client_struct_lines client_entries
  client_struct_lines-Reads rest = refl

  client_part_entries :
      client_entries nothing (client_part s) ≡ map (used_entry s.full_name) s.methods
  unfolding client_part client_entries
  client_part_entries =
      let read = client_entries nothing in
      let es = map (used_entry s.full_name) s.methods in
      let found =
        Finds-append read (client_interface s ++ client_struct_lines s)
          (each (client_method s) s.methods) [] es
          (Finds-append read (client_interface s) (client_struct_lines s) [] []
            client_interface-Reads client_struct_lines-Reads)
          (Finds-each read (client_method s) (used_entry s.full_name) s.methods
            (λ m. client_method-Reads m m.streaming_client m.streaming_server)) in
      ap read (sym (append-nil (client_part s))) ∙ found [] ∙ append-nil es

-- Methods whose name in Go is their name in the source
abbrev pub SameNames : List Method → Type 0
SameNames ms = All (λ m. m.desc_name ≡ m.go_name) ms

used-perm :
    (f : String) (ms : List Method)
    → SameNames (unary_of ms)
    → Perm
        (map (used_entry f) ms)
        (map (unary_entry f) (unary_of ms) ++ map (stream_entry f) (streams_of ms))
unfolding unary_of streams_of
used-perm f [] n = Perm.refl []
used-perm f (m ∷ ms) n = elim (Bool-cases (is_streaming m)) [
  | inl e ↦
      rw (e, unary_of, streams_of)
        (Perm.trans (Perm.cons (stream_entry f m) (used-perm f ms (ground (arith, n, e)))) (
          Perm.symm (
            perm_middle (map (unary_entry f) (unary_of ms))
              (map (stream_entry f) (streams_of ms)))))
  | inr e ↦
      let names = subst (λ b. SameNames (if b then unary_of ms else m ∷ unary_of ms)) e n in
      let used : unary f m.desc_name ≡ unary_entry f m = ap (unary f) names.0 in
      rw (e, unary_of, streams_of, used) (Perm.cons (unary_entry f m) (used-perm f ms names.1))
]

-- For every service whose unary methods are named in Go as they are in the source, what the methods of
-- the generated client use is, up to the order, what the generated server registers: each unary method under the
-- service's name and its own, and each stream under these names and with the same two flags.
pub client_uses_registered :
    (s : Service) (f : String)
    → SameNames (unary_of s.methods)
    → Perm (client_entries nothing (client_part s)) (server_entries (service f) (server_part s))
client_uses_registered s f n =
    rw (client_part_entries s, server_part_entries s f) (used-perm s.full_name s.methods n)

not_registered :
    (f n : String) (ms ns : List Method)
    → All (λ m. m.go_name ≢ n) ms
    → All (λ e. e ≢ unary f n) (map (unary_entry f) ms ++ map (stream_entry f) ns)
not_registered f n [] [] p = tt
not_registered f n [] (m ∷ ns) p = ((λ e. cc), not_registered f n [] ns tt)
not_registered f n (m ∷ ms) ns p = ((λ e. p.0 (cc)), not_registered f n ms ns p.1)

-- A unary method whose name in the source is the Go name of no unary method of the service, its own
-- included, is called by the generated client under a name that the generated server does not register.
pub unregistered_call :
    (s : Service) (f : String) (m : Method)
    → Mem m s.methods
    → is_streaming m ≡ false
    → All (λ n. n.go_name ≢ m.desc_name) (unary_of s.methods)
    → Mem (unary s.full_name m.desc_name) (client_entries nothing (client_part s))
      × All (λ e. e ≢ unary s.full_name m.desc_name) (server_entries (service f) (server_part s))
unregistered_call s f m here k n =
    let used : used_entry s.full_name m ≡ unary s.full_name m.desc_name = rw k refl in
    (
      rw (client_part_entries s, ← used) (mem-map_of_mem (used_entry s.full_name) here),
      rw (server_part_entries s f)
          (not_registered s.full_name m.desc_name (unary_of s.methods) (streams_of s.methods) n),
    )
