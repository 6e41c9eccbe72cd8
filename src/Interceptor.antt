-- ===== src/Interceptor.antt =====
-- interceptor.go, and the chains of config.go and client.go. A context, an unmarshaler, a request, a
-- response and the information on a call are passed on only; they are type parameters, as is the result.
pub mod Chain
use ttrpc.Prelude.{Option, none, some, List, [], ◌∷◌}

-- `Method`
abbrev pub Method : Type 0 → Type 0 → Type 0 → Type 0
Method Ctx U R = Ctx → U → R

-- `UnaryServerInterceptor`
abbrev pub ServerInterceptor : Type 0 → Type 0 → Type 0 → Type 0 → Type 0
ServerInterceptor Ctx U Info R = Ctx → U → Info → Method Ctx U R → R

-- `Invoker`
abbrev pub Invoker : Type 0 → Type 0 → Type 0 → Type 0 → Type 0
Invoker Ctx Req Resp R = Ctx → Req → Resp → R

-- `UnaryClientInterceptor`
abbrev pub ClientInterceptor : Type 0 → Type 0 → Type 0 → Type 0 → Type 0 → Type 0
ClientInterceptor Ctx Req Resp Info R = Ctx → Req → Resp → Info → Invoker Ctx Req Resp R → R

module _ {Ctx U Info R : Type 0} where
  unfoldable pub default_server_interceptor : ServerInterceptor Ctx U Info R
  default_server_interceptor ctx u info method = method ctx u

  -- `chainUnaryServerInterceptors`
  unfoldable pub chain_unary_server_interceptors :
      Info → Method Ctx U R → List (ServerInterceptor Ctx U Info R) → Method Ctx U R
  chain_unary_server_interceptors info method [] = method
  chain_unary_server_interceptors info method (i ∷ is) =
      λ ctx u. i ctx u info (chain_unary_server_interceptors info method is)

  -- The interceptor that `WithChainUnaryServerInterceptor` makes of its list, which is not empty.
  unfoldable pub chained_server :
      ServerInterceptor Ctx U Info R
      → List (ServerInterceptor Ctx U Info R)
      → ServerInterceptor Ctx U Info R
  chained_server first rest ctx u info method =
      first ctx u info (chain_unary_server_interceptors info method rest)

module _ {Ctx Req Resp Info R : Type 0} where
  pub default_client_interceptor : ClientInterceptor Ctx Req Resp Info R
  default_client_interceptor ctx req resp info invoker = invoker ctx req resp

  -- `chainUnaryInterceptors`
  pub chain_unary_interceptors :
      List (ClientInterceptor Ctx Req Resp Info R)
      → Invoker Ctx Req Resp R
      → Info
      → Invoker Ctx Req Resp R
  chain_unary_interceptors [] final info = final
  chain_unary_interceptors (i ∷ is) final info =
      λ ctx req resp. i ctx req resp info (chain_unary_interceptors is final info)

  -- The interceptor that `WithChainUnaryClientInterceptor` makes of its list, which is not empty.
  pub chained_client :
      ClientInterceptor Ctx Req Resp Info R
      → List (ClientInterceptor Ctx Req Resp Info R)
      → ClientInterceptor Ctx Req Resp Info R
  chained_client first rest ctx req resp info final =
      first ctx req resp info (chain_unary_interceptors rest final info)

  -- `WithChainUnaryClientInterceptor` on the client's interceptor
  pub with_chain_unary_client_interceptor :
      List (ClientInterceptor Ctx Req Resp Info R)
      → Option (ClientInterceptor Ctx Req Resp Info R)
      → Option (ClientInterceptor Ctx Req Resp Info R)
  with_chain_unary_client_interceptor [] c = c
  with_chain_unary_client_interceptor (i ∷ is) none = some (chained_client i is)
  with_chain_unary_client_interceptor (i ∷ is) (some old) = some (chained_client old (i ∷ is))
