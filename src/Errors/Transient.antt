-- ===== src/Errors/Transient.antt =====
-- Which errors count as transient.
use klayengo.Prelude.{◌≡◌, refl, ◌≢◌, true, String, some, List, [], ◌∷◌, arith}
use klayengo.Errors.{
  ErrorInfo, Sentinel, circuit_open, rate_limited, cache_miss, retry_budget_exceeded, Error,
  sentinel, client_error, wrapped, is_sentinel, is_transient,
}

-- What the client puts round an error: a message, or a `ClientError`.
pub data Layer : Type 0 where
  message : String → Layer
  info : ErrorInfo → Layer

abbrev pub layered : List Layer → Error → Error
layered [] e = e
layered (message m ∷ ls) e = wrapped m (layered ls e)
layered (info i ∷ ls) e = client_error i (layered ls e)

-- Layers hide no sentinel and add none.
is_sentinel-layered :
    (s : Sentinel) (ls : List Layer) (e : Error) → is_sentinel s (layered ls e) ≡ is_sentinel s e
unfolding is_sentinel
is_sentinel-layered s [] e = refl
is_sentinel-layered s (message m ∷ ls) e = is_sentinel-layered s ls e
is_sentinel-layered s (info i ∷ ls) e = is_sentinel-layered s ls e

-- However many messages and `ClientError`s, of whatever type and status (a client error, a
-- configuration or a validation error too), are put round a sentinel, the result is transient if the
-- sentinel is not the cache miss: that is, the open circuit, the rate limit or the exceeded retry
-- budget.
pub is_transient-layered :
    (ls : List Layer) (s : Sentinel)
    → s ≢ cache_miss
    → is_transient (some (layered ls (sentinel s))) ≡ true
unfolding is_transient is_sentinel
is_transient-layered ls circuit_open h =
    ground (arith, is_sentinel-layered circuit_open ls (sentinel circuit_open))
is_transient-layered ls rate_limited h =
    ground (arith, is_sentinel-layered rate_limited ls (sentinel rate_limited))
is_transient-layered ls cache_miss h = absurd (h refl)
is_transient-layered ls retry_budget_exceeded h =
    ground (arith, is_sentinel-layered retry_budget_exceeded ls (sentinel retry_budget_exceeded))
