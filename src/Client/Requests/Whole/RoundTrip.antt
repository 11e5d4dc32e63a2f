-- ===== src/Client/Requests/Whole/RoundTrip.antt =====
-- The legacy cache between two calls of `Do` of client.go.
use klayengo.Prelude.{ℕ, ◌≡◌, ap, ◌∙◌, true, String, none, some}
use klayengo.Prelude.Int.{ℤ, pos, ◌+ℤ◌, ◌≤ℤ◌, ◌<ℤ◌, int_laws, +ℤ_parts}
use klayengo.Http.{Request, Response}
use klayengo.Backoff.{Float}
use klayengo.HttpCache.{CacheEntry}
use klayengo.Provider.{ttl_only, Cache, create_response_from_cache}
use klayengo.Client.{Env}
use klayengo.Client.CacheRules.{get_cache_ttl_for_request}
use klayengo.Client.Requests.{CacheProvider, replied, Rules, ClientState}
use klayengo.Client.Requests.Whole.{do_request}
use klayengo.Client.Requests.Whole.Storing.{Caching, do_request-Stored, do_request-hit}

within :
    (lifetime low from later : ℤ)
    → low ≤ℤ from
    → later ≤ℤ low +ℤ lifetime
    → later ≤ℤ from +ℤ lifetime
within lifetime low from later h k = omega (int_laws, +ℤ_parts low lifetime, +ℤ_parts from lifetime)

module _ (f : Float) (env : Env f) (cache : Cache) (provider : CacheProvider f env)
    (r : Rules f env cache provider) (ttl : r.cache_mode ≡ ttl_only) where
  abbrev S : Type 0
  S = ClientState f env cache provider

  module _ (keeps : Caching cache) (req later : Request) (s : S) (es : cache.State)
      (no_tracker : s.deduplication ≡ none) (no_provider : s.provided ≡ none)
      (has : s.entries ≡ some es) (valid : keeps.IsValid es) (cached : r.cache_condition req ≡ true)
      (later_cached : r.cache_condition later ≡ true)
      (same_key : r.cache_key_func later ≡ r.cache_key_func req) where
    abbrev key : String
    key = r.cache_key_func req

    abbrev lifetime : ℤ
    lifetime = get_cache_ttl_for_request r.cache_ttl req

    -- The response that a client fetches for a request whose cache entry is missing, with a status below
    -- 400, is the response to the next request with the same cache key: as long as all readings of the
    -- clock lie within one lifetime of the entry, the second `Do` gives the same status, headers and
    -- body, and sends nothing. It holds in the mode TTLOnly, without deduplication and without a cache
    -- provider, for every cache in which a set entry is found until it expires, and for a clock and a
    -- generator of request ids that do not send.
    pub do_request-cached :
        (fuel later_fuel : ℕ) (resp : Response)
        → ((w : env.World) → (cache.get es key (env.now w).0).1 ≡ none)
        → (do_request f env cache provider r fuel req s).0 ≡ replied (some resp) none
        → resp.status_code <ℤ pos 400
        → (low : ℤ) → ((w : env.World) → low ≤ℤ (env.now w).0)
        → ((w : env.World) → (env.now w).0 ≤ℤ low +ℤ lifetime)
        → (sent : env.World → ℕ) → ((w : env.World) → sent (env.now w).1 ≡ sent w)
        → ((w : env.World) → sent (r.request_id w).1 ≡ sent w)
        → let s' = (do_request f env cache provider r fuel req s).1 in
          let (reply, s'') = do_request f env cache provider r later_fuel later s' in
          (reply ≡ replied (some (record resp { request_method = none })) none)
          × (sent s''.base.world ≡ sent s'.base.world)
    unfolding create_response_from_cache
    do_request-cached fuel later_fuel resp cold ends small low after before sent sent-now
          sent-request_id =
        let (noted, time, no_tracker', no_provider', st) =
          do_request-Stored f env cache provider r ttl fuel req s es no_tracker no_provider has
            cached resp cold ends small in
        let s' = (do_request f env cache provider r fuel req s).1 in
        let stored_at = (env.now noted.base.world).0 in
        let es' = cache.set (cache.get es key time).0 key st.entry lifetime stored_at in
        let entry : CacheEntry = record st.entry { expires_at = stored_at +ℤ lifetime } in
        let found : (w : env.World)
            → (cache.get es' (r.cache_key_func later) (env.now w).0).1 ≡ some entry =
          λ w.
            ap (λ k. (cache.get es' k (env.now w).0).1) same_key
            ∙ keeps.get-set (cache.get es key time).0 key st.entry lifetime stored_at (env.now w).0
                (keeps.get-IsValid es key time valid)
                (within lifetime low stored_at (env.now w).0 (after noted.base.world) (before w)) in
        let (reply, world) =
          do_request-hit f env cache provider r ttl later_fuel later s' es'
            (st.same_deduplication ∙ no_tracker') (st.same_provided ∙ no_provider') st.stored
            later_cached entry found in
        (
          reply ∙ ap (λ x. replied (some x) none) st.gives,
          ap sent world ∙ simp (sent-now, sent-request_id),
        )
