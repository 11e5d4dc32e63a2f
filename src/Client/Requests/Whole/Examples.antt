-- ===== src/Client/Requests/Whole/Examples.antt =====
-- The theorems on `Do`, with worlds that count the exchanges.
use klayengo.Prelude.{ℕ, suc, ◌≡◌, refl, Bool, true, false, String, none, some, [], ◌∷◌, arith}
use klayengo.Prelude.Assoc.{lookup}
use klayengo.Prelude.Int.{pos, ◌+ℤ◌}
use klayengo.Http.{Request, Response}
use klayengo.Breaker.{new_circuit_breaker}
use klayengo.Retry.{default_retry_condition}
use klayengo.Backoff.Examples.{whole, settings}
use klayengo.Dedup.{new_deduplication_tracker}
use klayengo.Dedup.Laws.{created_tracker}
use klayengo.Flight.{new_group}
use klayengo.HttpCache.{CacheEntry}
use klayengo.Cache.{InMemoryCache, new_in_memory_cache, get}
use klayengo.Provider.{ttl_only, Cache, create_response_from_cache}
use klayengo.Provider.Stale.{in_memory}
use klayengo.Client.CacheRules.{get_cache_ttl_for_request}
use klayengo.Client.{Exchange, Env, Config, State}
use klayengo.Client.Requests.{CacheProvider, replied, waiting, Rules, ClientState, Reached}
use klayengo.Client.Requests.Whole.{do_request}
use klayengo.Client.Requests.Bounded.{Bounded}
use klayengo.Client.Requests.Whole.Bounded.{do_request-finishes}
use klayengo.Client.Requests.Whole.Sharing.{do_request-left_waiting}
use klayengo.Client.Requests.Whole.Completion.{do_request-shares}
use klayengo.Client.Requests.Whole.RoundTrip.{do_request-cached}
use klayengo.Client.Requests.Whole.Memory.{in_memory_caching}

abbrev text : Response
text = record {
  status_code = pos 200;
  header = [];
  body = some (record { content = 104 ∷ 105 ∷ []; broken = false });
  request_method = some "GET";
}

-- A world that counts the exchanges, with a clock that stands still.
abbrev up : Env whole
up = record {
  World = ℕ;
  now = λ w. (pos 7, w);
  random = λ w. (pos 0, w);
  sleep = λ d w. w;
  transport = λ req w. ((some text, none), suc w);
}

abbrev one_shard : String → ℕ
one_shard key = 0

abbrev memory : Cache
memory = in_memory one_shard

-- A provider that never has anything.
abbrev nothing : CacheProvider whole up
nothing = record {
  Entries = Bool;
  get = λ entries key w. ((entries, none), w);
  set = λ entries key resp ttl w. ((entries, resp), w);
  invalidate = λ entries key. entries;
}

abbrev rules : Rules whole up memory nothing
rules = record {
  config = record {
    max_retries = pos 2;
    settings = settings;
    retry_condition = default_retry_condition;
    retry_policy = none;
    middleware = [];
    has_metrics = true;
  };
  request_id = λ w. ("r1", w);
  dedup_condition = λ req. true;
  dedup_key_func = λ req. "key";
  cache_condition = λ req. true;
  cache_key_func = λ req. "GET:";
  cache_mode = ttl_only;
  cache_ttl = pos 60;
  cache_size = λ c. none;
  format = λ t. "";
}

abbrev empty : InMemoryCache
empty = record { shards = [] ∷ []; num_shards = 1; entries = new_in_memory_cache.entries; next = 0 }

abbrev caching : ClientState whole up memory nothing
caching = record {
  base = record {
    circuit_breaker =
        new_circuit_breaker (record {
          failure_threshold = pos 0;
          recovery_timeout = pos 0;
          success_threshold = pos 0;
        });
    limiters = λ p. record {
      max_tokens = pos 0;
      tokens = pos 0;
      refill_rate = pos 0;
      last_refill = pos 0;
    };
    rate_limiter = none;
    limiter_registry = none;
    retry_budget = none;
    metrics = [];
    world = 0;
  };
  deduplication = none;
  entries = some empty;
  provided = none;
  flights = new_group;
  revalidations = [];
}

abbrev ask : Request
ask = record { method = "GET"; url = none; host = ""; header = []; cache_control = none }

abbrev first : Reached whole up memory nothing
first = do_request whole up memory nothing rules 3 ask caching

first-reply : first.0 ≡ replied (some text) none
unfolding do_request default_retry_condition new_circuit_breaker get klayengo.Breaker.allow
    klayengo.Client.decide klayengo.Client.execute_middleware
first-reply = refl

empty-missing : (w : ℕ) → (get one_shard empty "GET:" (pos 7)).1 ≡ none
unfolding get lookup
empty-missing w = refl

do_request-cached_example :
    let (reply, s) = do_request whole up memory nothing rules 3 ask first.1 in
    (reply ≡ replied (some (record text { request_method = none })) none)
    × (s.base.world ≡ first.1.base.world)
unfolding ◌+ℤ◌ get_cache_ttl_for_request
do_request-cached_example =
    do_request-cached whole up memory nothing rules refl (in_memory_caching one_shard) ask ask
      caching empty refl refl refl (record { some_shard = omega arith; counted = refl }) refl refl
      refl 3 3 text empty-missing first-reply (omega arith) (pos 7) (λ w. omega arith)
      (λ w. ground arith) (λ w. w) (λ w. refl) (λ w. refl)

-- The client without a cache, with deduplication.
abbrev deduplicating : ClientState whole up memory nothing
deduplicating = record caching { deduplication = some new_deduplication_tracker; entries = none }

owner-reply :
    (do_request whole up memory nothing rules 3 ask deduplicating).0 ≡ replied (some text) none
unfolding do_request default_retry_condition new_circuit_breaker get klayengo.Breaker.allow
    klayengo.Client.decide klayengo.Client.execute_middleware new_deduplication_tracker
owner-reply = refl

do_request-shares_example :
    (do_request whole up memory nothing rules 3 ask
      (do_request whole up memory nothing rules 3 ask deduplicating).1).0
    ≡ replied (some text) none
unfolding new_deduplication_tracker lookup
do_request-shares_example =
    do_request-shares whole up memory nothing rules ask ask deduplicating new_deduplication_tracker
      refl refl refl refl refl 3 3 (some text) none refl refl owner-reply

abbrev kept : CacheEntry
kept = record {
  response = none;
  body = 104 ∷ [];
  status_code = pos 200;
  header = [];
  expires_at = pos 60;
  etag = "";
  last_modified = none;
  max_age = none;
  stale_at = none;
  is_stale = false;
}

abbrev full : InMemoryCache
full = record { shards = (("GET:", 0) ∷ []) ∷ []; num_shards = 1; entries = λ i. kept; next = 1 }

abbrev leaving : ClientState whole up memory nothing
leaving = record caching { deduplication = some new_deduplication_tracker; entries = some full }

full-hit : (w : ℕ) → (get one_shard full "GET:" (pos 7)).1 ≡ some kept
unfolding get lookup
full-hit w = refl

do_request-left_waiting_example :
    let (reply, s) = do_request whole up memory nothing rules 3 ask leaving in
    (reply ≡ replied (some (create_response_from_cache kept)) none)
    × (s.deduplication ≡ some (created_tracker new_deduplication_tracker "key"))
    × ((created_tracker new_deduplication_tracker "key").timers ≡ new_deduplication_tracker.timers)
    × ((do_request whole up memory nothing rules 3 ask s).0 ≡ waiting)
unfolding new_deduplication_tracker lookup
do_request-left_waiting_example =
    do_request-left_waiting whole up memory nothing rules ask ask leaving new_deduplication_tracker
      refl refl refl refl refl 3 3 full kept refl refl refl refl full-hit

do_request-finishes_example :
    Bounded whole up memory nothing rules
      (λ w. w)
      3
      (do_request whole up memory nothing rules 3 ask caching)
unfolding klayengo.Client.execute_middleware
do_request-finishes_example =
    do_request-finishes whole up memory nothing rules (λ w. w) (λ w. refl) (λ es key w. refl)
      (λ es key resp ttl w. refl) (λ w. refl) (λ d w. refl) (λ w. refl) (λ req w. omega arith) refl
      2 refl (omega arith) 3 ask caching (omega arith)
