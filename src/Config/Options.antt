-- ===== src/Config/Options.antt =====
-- What a list of options makes of a server's interceptor.
use ttrpc.Prelude.{
  ◌≡◌, refl, sym, ap, ◌∙◌, Option, none, some, List, [], ◌∷◌, ◌++◌, nat_eq, string_eq,
}
use ttrpc.Errors.{Result, ok, err}
use ttrpc.Interceptor.{
  ServerInterceptor, Method, default_server_interceptor, chained_server,
  chain_unary_server_interceptors,
}
use ttrpc.Interceptor.Chain.{chain-append}
use ttrpc.Config.{
  ServerConfig, empty_config, chain_behind, with_chain_unary_server_interceptor, apply_options,
  server_interceptor,
}

module _ {Ctx U Info R : Type 0} where
  chain_behind-runs :
      (is : List (ServerInterceptor Ctx U Info R)) (o : Option (ServerInterceptor Ctx U Info R))
      (info : Info) (method : Method Ctx U R) (ctx : Ctx) (u : U)
      → server_interceptor (chain_behind o is) ctx u info method
        ≡ server_interceptor o ctx u info (chain_unary_server_interceptors info method is)
  unfolding chain_behind chained_server server_interceptor chain_unary_server_interceptors
      default_server_interceptor
  chain_behind-runs [] o info method ctx u = refl
  chain_behind-runs (i ∷ is) none info method ctx u = refl
  chain_behind-runs (i ∷ is) (some old) info method ctx u = refl

  -- A server made with the options of the chains `xs` and then `ys`, and no other, runs a call
  -- through the interceptors of `xs` and then those of `ys`, from left to right, and the method
  -- innermost.
  pub chains_run_in_order :
      {Hs : Type 0} (xs ys : List (ServerInterceptor Ctx U Info R))
      (c : ServerConfig Hs (ServerInterceptor Ctx U Info R)) (info : Info) (method : Method Ctx U R)
      (ctx : Ctx) (u : U)
      → apply_options
          (with_chain_unary_server_interceptor xs ∷ with_chain_unary_server_interceptor ys ∷ [])
          empty_config
        ≡ ok c
      → server_interceptor c.interceptor ctx u info method
        ≡ chain_unary_server_interceptors info method (xs ++ ys) ctx u
  unfolding apply_options with_chain_unary_server_interceptor server_interceptor
      default_server_interceptor
  chains_run_in_order {Hs} xs ys c info method ctx u e =
      ap (λ o. server_interceptor o ctx u info method) (ap interceptor_of (sym e))
      ∙ chain_behind-runs ys (chain_behind none xs) info method ctx u
      ∙ chain_behind-runs xs none info (chain_unary_server_interceptors info method ys) ctx u
      ∙ runs_all
    where
      interceptor_of :
          Result (ServerConfig Hs (ServerInterceptor Ctx U Info R))
          → Option (ServerInterceptor Ctx U Info R)
      interceptor_of (ok c) = c.interceptor
      interceptor_of (err e) = none

      runs_all :
          server_interceptor none ctx u info (
            chain_unary_server_interceptors info
              (chain_unary_server_interceptors info method ys)
              xs)
          ≡ chain_unary_server_interceptors info method (xs ++ ys) ctx u
      runs_all = sym (λ i. chain-append info method xs ys i ctx u)
