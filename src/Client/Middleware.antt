-- ===== src/Client/Middleware.antt =====
-- The order of the middleware: `executeMiddleware` of client.go.
use mathlib.Core.List.{reverse, reverse-cons}
use klayengo.Prelude.{◌≡◌, refl, ◌∙◌, ap, List, [], ◌∷◌, ◌++◌}
use klayengo.Http.{Request}
use klayengo.Backoff.{Float}
use klayengo.Client.{Env, RoundTripper, Middleware, wrap, execute_middleware}

module _ (f : Float) (env : Env f) where
  open env use {World, transport}

  -- The first middleware is the outermost, and the transport stands inside all of them.
  abbrev pub chain : List (Middleware f env) → RoundTripper f env
  chain [] = transport
  chain (m ∷ ms) = λ r w. m r (chain ms) w

  wrap_append :
      (ms ns : List (Middleware f env)) (t : RoundTripper f env)
      → wrap f env (ms ++ ns) t ≡ wrap f env ns (wrap f env ms t)
  unfolding wrap
  wrap_append [] ns t = refl
  wrap_append (m ∷ ms) ns t = wrap_append ms ns (λ r w. m r t w)

  wrap-reverse : (ms : List (Middleware f env)) → wrap f env (reverse ms) transport ≡ chain ms
  unfolding wrap
  wrap-reverse [] = refl
  wrap-reverse (m ∷ ms) =
      ap (λ l. wrap f env l transport) (reverse-cons m ms)
      ∙ wrap_append (reverse ms) (m ∷ []) transport
      ∙ ap (λ t r w. m r t w) (wrap-reverse ms)

  -- Executing the middleware is the chain in which each middleware is called with the rest of the
  -- chain as its next round trip, the first one outermost and the transport innermost.
  pub execute_middleware-chain :
      (ms : List (Middleware f env)) (req : Request) (w : World)
      → execute_middleware f env ms req w ≡ chain ms req w
  unfolding execute_middleware
  execute_middleware-chain [] req w = refl
  execute_middleware-chain (m ∷ ms) req w = ap (λ t. t req w) (wrap-reverse (m ∷ ms))
