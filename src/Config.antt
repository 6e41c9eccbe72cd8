-- ===== src/Config.antt =====
-- config.go and `NewServer`: the options of a server. A handshaker is a type parameter.
pub mod Options
use ttrpc.Prelude.{Bool, true, false, Option, none, some, List, [], ◌∷◌, if◌then◌else◌}
use ttrpc.Errors.{Error, Result, ok, err, text, plain}
use ttrpc.Interceptor.{ServerInterceptor, default_server_interceptor, chained_server}

-- `serverConfig`
pub record ServerConfig (Hs I : Type 0) : Type 0 where
  pub handshaker : Option Hs
  pub interceptor : Option I

abbrev one_handshaker : Error
one_handshaker = text (plain "only one handshaker allowed per server")

abbrev one_interceptor : Error
one_interceptor = text (plain "only one unchained interceptor allowed per server")

abbrev pub empty_config : {Hs I : Type 0} → ServerConfig Hs I
empty_config = record { handshaker = none; interceptor = none }

abbrev is_set : {A : Type 0} → Option A → Bool
is_set none = false
is_set (some a) = true

-- `WithServerHandshaker`
with_server_handshaker : {Hs I : Type 0} → Hs → ServerConfig Hs I → Result (ServerConfig Hs I)
with_server_handshaker h c =
    if is_set c.handshaker then err one_handshaker else ok (record c { handshaker = some h })

-- `WithUnaryServerInterceptor`
with_unary_server_interceptor : {Hs I : Type 0} → I → ServerConfig Hs I → Result (ServerConfig Hs I)
with_unary_server_interceptor i c =
    if is_set c.interceptor then err one_interceptor else ok (record c { interceptor = some i })

module _ {Ctx U Info R : Type 0} where
  -- The closure of `WithChainUnaryServerInterceptor`, behind an interceptor that was there.
  pub chain_behind :
      Option (ServerInterceptor Ctx U Info R)
      → List (ServerInterceptor Ctx U Info R)
      → Option (ServerInterceptor Ctx U Info R)
  chain_behind old [] = old
  chain_behind none (i ∷ is) = some (chained_server i is)
  chain_behind (some old) (i ∷ is) = some (chained_server old (i ∷ is))

  -- `WithChainUnaryServerInterceptor`
  unfoldable pub with_chain_unary_server_interceptor :
      {Hs : Type 0}
      → List (ServerInterceptor Ctx U Info R)
      → ServerConfig Hs (ServerInterceptor Ctx U Info R)
      → Result (ServerConfig Hs (ServerInterceptor Ctx U Info R))
  with_chain_unary_server_interceptor is c =
      ok (record c { interceptor = chain_behind c.interceptor is })

  -- The loop of `NewServer` over its options
  unfoldable pub apply_options :
      {Hs : Type 0}
      → List (
          ServerConfig Hs (ServerInterceptor Ctx U Info R)
          → Result (ServerConfig Hs (ServerInterceptor Ctx U Info R)))
      → ServerConfig Hs (ServerInterceptor Ctx U Info R)
      → Result (ServerConfig Hs (ServerInterceptor Ctx U Info R))
  apply_options [] c = ok c
  apply_options (o ∷ os) c = elim (o c) [ err e ↦ err e | ok c' ↦ apply_options os c' ]

  -- The interceptor that `NewServer` gives to its services
  pub server_interceptor : Option (ServerInterceptor Ctx U Info R) → ServerInterceptor Ctx U Info R
  server_interceptor none = default_server_interceptor
  server_interceptor (some i) = i
