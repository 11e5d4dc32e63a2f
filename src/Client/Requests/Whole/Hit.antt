-- ===== src/Client/Requests/Whole/Hit.antt =====
-- What `Do` of client.go does on a hit in the mode with a fixed time to live.
use klayengo.Prelude.{ℕ, ◌≡◌, refl, ap, ◌∙◌, Bool, true, none, some, arith}
use klayengo.Prelude.Int.{ℤ}
use klayengo.Http.{Response}
use klayengo.Backoff.{Float}
use klayengo.HttpCache.{CacheEntry}
use klayengo.Provider.{ttl_only, Cache, create_response_from_cache}
use klayengo.Prelude.Int64.{saturating_sub64}
use klayengo.Client.{
  Env, Call, Metric, request_end, request_done, cache_hit, cache_miss, get_endpoint, record_metric,
}
use klayengo.Client.Requests.{CacheProvider, Rules, ClientState, replied, note, note_end}
use klayengo.Client.Requests.Hits.{answer, by_entry, from_cache, from_either, look_up}
use klayengo.Client.Requests.Whole.{proceed, or_miss, by_cache}

module _ (f : Float) (env : Env f) (cache : Cache) (provider : CacheProvider f env)
    (r : Rules f env cache provider) (ttl : r.cache_mode ≡ ttl_only) where
  abbrev S : Type 0
  S = ClientState f env cache provider

  -- The state after the question to the cache.
  abbrev pub asked : Call f env → cache.State → S → S
  asked call es s =
      let (t, w) = env.now s.base.world in
      record s {
        entries = some (cache.get es (r.cache_key_func call.req) t).0;
        base = record s.base { world = w };
      }

  -- A client with a legacy cache and no provider asks the cache.
  look_up-ttl :
      (fuel : ℕ) (call : Call f env) (s : S) (es : cache.State)
      → s.provided ≡ none
      → s.entries ≡ some es
      → look_up f env cache provider r fuel call (r.cache_key_func call.req) s
        ≡ from_cache f env cache provider r fuel call (r.cache_key_func call.req) (some es) s
  unfolding look_up from_either
  look_up-ttl fuel call s es no_provider has = cc (ttl, no_provider, has)

  pub by_cache-hit :
      (owned : Bool) (fuel : ℕ) (call : Call f env) (s : S) (es : cache.State) (entry : CacheEntry)
      → s.provided ≡ none
      → s.entries ≡ some es
      → (cache.get es (r.cache_key_func call.req) (env.now s.base.world).0).1 ≡ some entry
      → by_cache f env cache provider r true owned fuel call s
        ≡ answer f env cache provider r call entry.status_code
            (create_response_from_cache entry)
            (asked call es s)
  unfolding by_cache or_miss from_cache by_entry
  by_cache-hit owned fuel call s es entry no_provider has found =
      let (t, w) = env.now s.base.world in
      let key = r.cache_key_func call.req in
      ap (or_miss f env cache provider r owned fuel call)
        (look_up-ttl fuel call s es no_provider has)
      ∙ ground (arith, found, ttl)

  pub by_cache-miss :
      (owned : Bool) (fuel : ℕ) (call : Call f env) (s : S) (es : cache.State)
      → s.provided ≡ none
      → s.entries ≡ some es
      → (cache.get es (r.cache_key_func call.req) (env.now s.base.world).0).1 ≡ none
      → by_cache f env cache provider r true owned fuel call s
        ≡ proceed f env cache provider r owned true fuel call (
            note f env cache provider r
              (cache_miss call.req.method (get_endpoint call.req))
              (asked call es s))
  unfolding by_cache or_miss from_cache
  by_cache-miss owned fuel call s es no_provider has missed =
      let (t, w) = env.now s.base.world in
      let key = r.cache_key_func call.req in
      ap (or_miss f env cache provider r owned fuel call)
        (look_up-ttl fuel call s es no_provider has)
      ∙ ground (arith, missed)

  pub answer-reply :
      (call : Call f env) (status : ℤ) (resp : Response) (s : S)
      → (answer f env cache provider r call status resp s).0 ≡ replied (some resp) none
  unfolding answer
  answer-reply call status resp s = refl

  pub answer-deduplication :
      (call : Call f env) (status : ℤ) (resp : Response) (s : S)
      → (answer f env cache provider r call status resp s).1.deduplication ≡ s.deduplication
  unfolding answer note note_end
  answer-deduplication call status resp s = refl

  pub note-world :
      (m : Metric) (s : S) → (note f env cache provider r m s).base.world ≡ s.base.world
  unfolding note record_metric
  note-world m s = ground arith

  pub note_end-world :
      (call : Call f env) (status : ℤ) (s : S)
      → (note_end f env cache provider r call status s).base.world ≡ (env.now s.base.world).1
  unfolding note_end
  note_end-world call status s =
      let ended =
        note f env cache provider r (request_end call.req.method (get_endpoint call.req)) s in
      let (t, w) = env.now ended.base.world in
      note-world
        (request_done call.req.method (get_endpoint call.req) status
          (saturating_sub64 t call.start_time))
        (record ended { base = record ended.base { world = w } })
      ∙ ap (λ v. (env.now v).1) (note-world (request_end call.req.method (get_endpoint call.req)) s)

  pub answer-world :
      (call : Call f env) (status : ℤ) (resp : Response) (s : S)
      → (answer f env cache provider r call status resp s).1.base.world ≡ (env.now s.base.world).1
  unfolding answer
  answer-world call status resp s =
      let noted =
        note f env cache provider r (cache_hit call.req.method (get_endpoint call.req)) s in
      note_end-world call status noted
      ∙ ap (λ v. (env.now v).1) (note-world (cache_hit call.req.method (get_endpoint call.req)) s)
