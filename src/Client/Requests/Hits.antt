-- ===== src/Client/Requests/Hits.antt =====
-- What `Do` of client.go does with a cached entry: `handleHTTPSemanticsCacheHit` and
-- `performConditionalRequest`, and the two caches that `Do` asks.
pub mod Bounded
use klayengo.Prelude.{ℕ, Bool, true, false, ◌&&◌, if◌then◌else◌, String, Option, none, some, ◌∷◌}
use mathlib.Core.Option
use klayengo.Prelude.Int.{ℤ, pos}
use klayengo.Text.{codes}
use klayengo.Http.{Request, Response, header_get}
use klayengo.Errors.{Error}
use klayengo.Backoff.{Float}
use klayengo.HttpCache.{
  CacheEntry, parse_cache_control, should_revalidate, is_not_modified, add_conditional_headers,
}
use klayengo.Provider.{CacheMode, ttl_only, http_semantics, swr, Cache, create_response_from_cache}
use klayengo.Client.{Env, cache_hit, get_endpoint, Call}
use klayengo.Client.Requests.{
  CacheProvider, replied, crashed, Rules, ClientState, Reached, note, note_end, attempts, and_then,
}

module _ (f : Float) (env : Env f) (cache : Cache) (provider : CacheProvider f env)
    (r : Rules f env cache provider) where
  abbrev S : Type 0
  S = ClientState f env cache provider

  -- `cacheProvider.Set`, with the response as it leaves it; nothing without a provider.
  unfoldable pub set_provided : String → Response → ℤ → S → S × Response
  set_provided key resp ttl s = elim s.provided [
    | none ↦ (s, resp)
    | some entries ↦
        let ((entries', resp'), w) = provider.set entries key resp ttl s.base.world in
        (record s { provided = some entries'; base = record s.base { world = w } }, resp')
  ]

  pub perform_conditional_request : ℕ → Request → CacheEntry → S → Reached f env cache provider
  unfolding attempts add_conditional_headers
  perform_conditional_request fuel req entry s =
      let conditional = add_conditional_headers r.format req entry in
      let (t, w) = env.now s.base.world in
      attempts f env cache provider r.config fuel
        (record { req = conditional; request_id = ""; start_time = t })
        (record s { base = record s.base { world = w } })

  -- The end of a conditional request: an error, the cached response, or the new one.
  revalidated :
      CacheEntry → String → Option Response → Option Error → S → Reached f env cache provider
  unfolding set_provided create_response_from_cache is_not_modified
  revalidated entry key resp (some err) s = (replied none (some err), s)
  revalidated entry key none none s = (crashed, s)
  revalidated entry key (some resp) none s =
      if is_not_modified resp
      then (replied (some (create_response_from_cache entry)) none, s)
      else (let (s', resp') = set_provided key resp (pos 0) s in (replied (some resp') none, s'))

  abbrev is_swr : CacheMode → Bool
  is_swr swr = true
  is_swr http_semantics = false
  is_swr ttl_only = false

  pub handle_http_semantics_cache_hit :
      ℕ → Request → CacheEntry → String → S → Reached f env cache provider
  unfolding perform_conditional_request revalidated should_revalidate create_response_from_cache
  handle_http_semantics_cache_hit fuel req entry key s =
      let control = parse_cache_control (codes (header_get "Cache-Control" entry.header)) in
      let (t, w) = env.now s.base.world in
      let s' = record s { base = record s.base { world = w } } in
      if should_revalidate entry (some control) t
      then (if is_swr r.cache_mode && entry.is_stale
          then (
            replied (some (create_response_from_cache entry)) none,
            record s' { revalidations = (key, req) ∷ s'.revalidations },
          )
          else and_then f env cache provider (perform_conditional_request fuel req entry s')
              (revalidated entry key))
      else (replied (some (create_response_from_cache entry)) none, s')

  -- A hit that is answered as it is, with the status for the metrics.
  unfoldable pub answer : Call f env → ℤ → Response → S → Reached f env cache provider
  unfolding note note_end
  answer call status resp s =
      let noted =
        note f env cache provider r (cache_hit call.req.method (get_endpoint call.req)) s in
      (replied (some resp) none, note_end f env cache provider r call status noted)

  unfoldable pub by_entry :
      CacheMode → ℕ → Call f env → CacheEntry → String → S → Reached f env cache provider
  unfolding handle_http_semantics_cache_hit answer
  by_entry http_semantics fuel call entry key s =
      handle_http_semantics_cache_hit fuel call.req entry key s
  by_entry ttl_only fuel call entry key s =
      answer call entry.status_code (create_response_from_cache entry) s
  by_entry swr fuel call entry key s =
      answer call entry.status_code (create_response_from_cache entry) s

  -- The state after the question, and the end of `Do` if it is a hit.
  abbrev pub Found : Type 0
  Found = S × Option (Reached f env cache provider)

  from_provider : Call f env → String → provider.Entries → S → Found
  unfolding answer
  from_provider call key entries s =
      let ((entries', found), w) = provider.get entries key s.base.world in
      let s' = record s { provided = some entries'; base = record s.base { world = w } } in
      (s', Option.map (λ resp. answer call resp.status_code resp s') found)

  unfoldable pub from_cache : ℕ → Call f env → String → Option cache.State → S → Found
  unfolding by_entry
  from_cache fuel call key none s = (s, none)
  from_cache fuel call key (some entries) s =
      let (t, w) = env.now s.base.world in
      let (entries', found) = cache.get entries key t in
      let s' = record s { entries = some entries'; base = record s.base { world = w } } in
      (s', Option.map (λ entry. by_entry r.cache_mode fuel call entry key s') found)

  unfoldable pub from_either :
      CacheMode → Option provider.Entries → ℕ → Call f env → String → S → Found
  unfolding from_provider from_cache
  from_either http_semantics (some entries) fuel call key s = from_provider call key entries s
  from_either swr (some entries) fuel call key s = from_provider call key entries s
  from_either ttl_only (some entries) fuel call key s = from_cache fuel call key s.entries s
  from_either mode none fuel call key s = from_cache fuel call key s.entries s

  -- The question to the provider or to the cache, by the mode.
  unfoldable pub look_up : ℕ → Call f env → String → S → Found
  unfolding from_either
  look_up fuel call key s = from_either r.cache_mode s.provided fuel call key s
