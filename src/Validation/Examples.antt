-- ===== src/Validation/Examples.antt =====
-- The theorem on validated settings, at concrete settings.
use klayengo.Prelude.{◌≡◌, refl, true, false, String, none, some, [], ◌∷◌}
use klayengo.Prelude.Int.{ℤ, pos, leb_ℤ}
use klayengo.Backoff.{exponential_jitter}
use klayengo.Backoff.Examples.{whole}
use klayengo.Validation.{ClientSettings, validate_configuration}
use klayengo.Validation.Sound.{Within, validate_configuration-Within}

abbrev pub print_none : ℤ → String
print_none n = "?"

-- Two retries from 100 ns on, with a bucket of five tokens.
abbrev pub modest : ClientSettings whole
modest = record {
  max_retries = pos 2;
  settings = record {
    initial_backoff = pos 100;
    max_backoff = pos 1000;
    multiplier = pos 2;
    jitter = pos 0;
    strategy = exponential_jitter;
    calculator = none;
  };
  timeout = pos 30_000_000_000;
  retry_budget = none;
  rate_limiter = some (record {
    tokens = pos 5;
    max_tokens = pos 5;
    refill_rate = pos 1_000_000_000;
    last_refill = pos 0;
  });
  has_limiter_registry = false;
  has_limiter_key_func = false;
  has_cache = true;
  cache_ttl = pos 60_000_000_000;
  circuit_breaker = none;
  debug = none;
  has_logger = false;
  has_deduplication = false;
  has_dedup_key_func = true;
  has_dedup_condition = true;
  middleware = true ∷ [];
  has_http_client = true;
}

pub modest-valid : validate_configuration whole leb_ℤ print_none modest ≡ []
unfolding validate_configuration
modest-valid = refl

-- Too many retries, and no way to send them.
too_many :
    validate_configuration whole leb_ℤ print_none
      (record modest { max_retries = pos 101; has_http_client = false })
    ≡ "HTTP client cannot be nil" ∷ "maxRetries > 100 may cause excessive resource usage" ∷ []
unfolding validate_configuration
too_many = refl

validate_configuration-Within_example : Within whole modest
validate_configuration-Within_example =
    validate_configuration-Within whole leb_ℤ print_none modest modest-valid
