-- ===== src/Generator/Server/Matched.antt =====
-- The brackets of what the generator prints for the server.
use ttrpc.Prelude.{refl, Bool, true, false, [], ◌∷◌, ◌++◌, nat_eq, string_eq}
use ttrpc.Generator.{blank, Method, Service, each, streams_of, unary_of, line}
use ttrpc.Generator.Brackets.{
  Matched, after_lines, Matched-append, Matched-each, Matched-unless_empty, closed_behind,
  with_flags, by_flags,
}
use ttrpc.Generator.Server.{
  service_interface, interface_method, stream_types, stream_interface, stream_struct, server_send,
  server_recv, register_method, register_stream, first_message, call_stream, register_methods,
  register_streams, registration, server_part, send_args, ret_args, message_arg,
}

module _ (s : Service) where
  interface_method-Matched :
      (m : Method) (c d : Bool) → Matched (interface_method s (with_flags m c d))
  unfolding interface_method after_lines send_args ret_args
  interface_method-Matched m true true due = refl
  interface_method-Matched m true false due = refl
  interface_method-Matched m false true due = refl
  interface_method-Matched m false false due = refl

  stream_types-Matched : (m : Method) (c d : Bool) → Matched (stream_types s (with_flags m c d))
  unfolding stream_types stream_interface stream_struct server_send server_recv after_lines
  stream_types-Matched m true true due = refl
  stream_types-Matched m true false due = refl
  stream_types-Matched m false true due = refl
  stream_types-Matched m false false due = refl

  register_stream-Matched :
      (m : Method) (c d : Bool) → Matched (register_stream s (with_flags m c d))
  unfolding register_stream first_message call_stream message_arg after_lines
  register_stream-Matched m true true due = refl
  register_stream-Matched m true false due = refl
  register_stream-Matched m false true due = refl
  register_stream-Matched m false false due = refl

  register_method-Matched : (m : Method) → Matched (register_method m)
  unfolding register_method after_lines
  register_method-Matched m due = refl

  service_interface-Matched : Matched (service_interface s)
  unfolding service_interface after_lines
  service_interface-Matched due =
      closed_behind (each (interface_method s) s.methods) (line "}" ∷ blank ∷ []) (b'}' ∷ [])
        (Matched-each _ _ (by_flags (interface_method s) interface_method-Matched)) (λ d. refl) due

  register_methods-Matched : Matched (register_methods s)
  unfolding register_methods after_lines
  register_methods-Matched = Matched-unless_empty (unary_of s.methods) _ (
      closed_behind (each register_method (unary_of s.methods)) (line "}," ∷ []) (b'}' ∷ [])
        (Matched-each _ _ register_method-Matched) (λ d. refl))

  register_streams-Matched : Matched (register_streams s)
  unfolding register_streams after_lines
  register_streams-Matched = Matched-unless_empty (streams_of s.methods) _ (
      closed_behind (each (register_stream s) (streams_of s.methods)) (line "}," ∷ []) (b'}' ∷ [])
        (Matched-each _ _ (by_flags (register_stream s) register_stream-Matched)) (λ d. refl))

  registration-Matched : Matched (registration s)
  unfolding registration after_lines
  registration-Matched due =
      closed_behind (register_methods s ++ register_streams s) (line "})" ∷ line "}" ∷ blank ∷ [])
        (b'}' ∷ b')' ∷ b'}' ∷ [])
        (Matched-append (register_methods s) (register_streams s) register_methods-Matched
          register_streams-Matched)
        (λ d. refl) due

  pub server_part-Matched : Matched (server_part s)
  unfolding server_part
  server_part-Matched =
      let types = each (stream_types s) (streams_of s.methods) in
      Matched-append (service_interface s ++ types) (registration s)
        (Matched-append (service_interface s) types service_interface-Matched
          (Matched-each _ _ (by_flags (stream_types s) stream_types-Matched)))
        registration-Matched
