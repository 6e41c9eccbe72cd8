-- ===== src/Interceptor/Chain.antt =====
-- Chains compose: a list of interceptors is called from left to right, each with the rest as its method.
use ttrpc.Prelude.{
  ◌≡◌, refl, sym, ap, ◌∙◌, Option, none, some, List, [], ◌∷◌, ◌++◌, nat_eq, string_eq,
}
use ttrpc.Interceptor.{
  ClientInterceptor, Invoker, Method, ServerInterceptor, chain_unary_server_interceptors,
  chain_unary_interceptors, chained_client, default_client_interceptor,
  with_chain_unary_client_interceptor,
}

module _ {Ctx U Info R : Type 0} where
  pub chain-append :
      (info : Info) (method : Method Ctx U R) (xs ys : List (ServerInterceptor Ctx U Info R))
      → chain_unary_server_interceptors info method (xs ++ ys)
        ≡ chain_unary_server_interceptors info (chain_unary_server_interceptors info method ys) xs
  unfolding chain_unary_server_interceptors
  chain-append info method [] ys = refl
  chain-append info method (x ∷ xs) ys = λ i ctx u. x ctx u info (chain-append info method xs ys i)

module _ {Ctx Req Resp Info R : Type 0} where
  -- The client's interceptor, or the default that `NewClient` sets
  client_interceptor :
      Option (ClientInterceptor Ctx Req Resp Info R) → ClientInterceptor Ctx Req Resp Info R
  client_interceptor none = default_client_interceptor
  client_interceptor (some i) = i

  chain-append_client :
      (xs ys : List (ClientInterceptor Ctx Req Resp Info R)) (final : Invoker Ctx Req Resp R)
      (info : Info)
      → chain_unary_interceptors (xs ++ ys) final info
        ≡ chain_unary_interceptors xs (chain_unary_interceptors ys final info) info
  unfolding chain_unary_interceptors
  chain-append_client [] ys final info = refl
  chain-append_client (x ∷ xs) ys final info =
      λ i ctx req resp. x ctx req resp info (chain-append_client xs ys final info i)

  abbrev runs :
      Option (ClientInterceptor Ctx Req Resp Info R)
      → Info
      → Invoker Ctx Req Resp R
      → Invoker Ctx Req Resp R
  runs o info final = λ ctx req resp. client_interceptor o ctx req resp info final

  with_chain-runs :
      (xs : List (ClientInterceptor Ctx Req Resp Info R))
      (o : Option (ClientInterceptor Ctx Req Resp Info R)) (info : Info)
      (final : Invoker Ctx Req Resp R)
      → runs (with_chain_unary_client_interceptor xs o) info final
        ≡ runs o info (chain_unary_interceptors xs final info)
  unfolding with_chain_unary_client_interceptor chained_client chain_unary_interceptors
      client_interceptor default_client_interceptor
  with_chain-runs [] o info final = refl
  with_chain-runs (x ∷ xs) none info final = refl
  with_chain-runs (x ∷ xs) (some i) info final = refl

  -- Options of the client add up: giving the interceptors `xs` and then `ys`, on top of whatever the
  -- client had, runs every call as giving them as one list; the earlier ones are called first, outside
  -- the later ones, and the dispatch of the call is innermost.
  chained_twice_client :
      (xs ys : List (ClientInterceptor Ctx Req Resp Info R))
      (o : Option (ClientInterceptor Ctx Req Resp Info R)) (ctx : Ctx) (req : Req) (resp : Resp)
      (info : Info) (final : Invoker Ctx Req Resp R)
      → client_interceptor
          (with_chain_unary_client_interceptor ys (with_chain_unary_client_interceptor xs o))
          ctx
          req
          resp
          info
          final
        ≡ client_interceptor
            (with_chain_unary_client_interceptor (xs ++ ys) o)
            ctx
            req
            resp
            info
            final
  chained_twice_client xs ys o ctx req resp info final = λ i.
      (with_chain-runs ys (with_chain_unary_client_interceptor xs o) info final
          ∙ with_chain-runs xs o info (chain_unary_interceptors ys final info)
          ∙ ap (runs o info) (sym (chain-append_client xs ys final info))
          ∙ sym (with_chain-runs (xs ++ ys) o info final))
        i ctx req resp
