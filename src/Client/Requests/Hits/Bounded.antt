-- ===== src/Client/Requests/Hits/Bounded.antt =====
-- What `Do` of client.go sends for a cached entry.
use klayengo.Prelude.{
  ℕ, suc, ◌+◌, ◌≤◌, ◌≡◌, refl, ◌&&◌, String, Option, none, some, arith, Option-cases, inl, inr,
}
use klayengo.Prelude.Int.{ℤ, pos}
use mathlib.Core.Option
use klayengo.Text.{codes}
use klayengo.Http.{Request, Response, header_get}
use klayengo.Errors.{Error}
use klayengo.Backoff.{Float}
use klayengo.HttpCache.{
  CacheEntry, parse_cache_control, should_revalidate, add_conditional_headers, is_not_modified,
}
use klayengo.Provider.{CacheMode, ttl_only, http_semantics, swr, Cache, create_response_from_cache}
use klayengo.Client.{Env, Call, cache_hit, get_endpoint}
use klayengo.Client.Requests.{CacheProvider, replied, Rules, ClientState, Reached, note, attempts}
use klayengo.Client.Requests.Bounded.{
  Bounded, if-Bounded, later-Bounded, and_then-Bounded, note-sent, note_end-sent,
}
use klayengo.Client.Requests.Hits.{
  set_provided, perform_conditional_request, revalidated, handle_http_semantics_cache_hit, answer,
  by_entry, is_swr, Found, from_provider, from_cache, from_either, look_up,
}

module _ (f : Float) (env : Env f) (cache : Cache) (provider : CacheProvider f env)
    (r : Rules f env cache provider) (sent : env.World → ℕ)
    (sent-now : (w : env.World) → sent (env.now w).1 ≡ sent w)
    (sent-get : (entries : provider.Entries) (key : String) (w : env.World)
      → sent (provider.get entries key w).1 ≡ sent w)
    (sent-set : (entries : provider.Entries) (key : String) (resp : Response) (ttl : ℤ)
        (w : env.World)
      → sent (provider.set entries key resp ttl w).1 ≡ sent w) where
  abbrev S : Type 0
  S = ClientState f env cache provider

  pub set_provided-sent :
      (key : String) (resp : Response) (ttl : ℤ) (s : S)
      → sent (set_provided f env cache provider r key resp ttl s).0.base.world ≡ sent s.base.world
  unfolding set_provided
  set_provided-sent key resp ttl s = elim (Option-cases s.provided) [
    | inl h ↦ ground (arith, h)
    | inr (es, h) ↦ ground (arith, h, sent-set es key resp ttl s.base.world)
  ]

  revalidated-Bounded :
      (entry : CacheEntry) (key : String) (k : ℕ) (resp : Option Response) (err : Option Error)
      (s : S)
      → sent s.base.world ≤ k
      → Bounded f env cache provider r sent k
          (revalidated f env cache provider r entry key resp err s)
  unfolding revalidated
  revalidated-Bounded entry key k resp (some err) s below = (refl, below)
  revalidated-Bounded entry key k none none s below = (refl, below)
  revalidated-Bounded entry key k (some resp) none s below =
      let (s', resp') = set_provided f env cache provider r key resp (pos 0) s in
      if-Bounded f env cache provider r sent (is_not_modified resp) k
        (replied (some (create_response_from_cache entry)) none, s) (replied (some resp') none, s')
        (refl, below) (refl, omega (arith, below, set_provided-sent key resp (pos 0) s))

  answer-Bounded :
      (call : Call f env) (status : ℤ) (resp : Response) (k : ℕ) (s : S)
      → sent s.base.world ≤ k
      → Bounded f env cache provider r sent k (answer f env cache provider r call status resp s)
  unfolding answer
  answer-Bounded call status resp k s below =
      let noted =
        note f env cache provider r (cache_hit call.req.method (get_endpoint call.req)) s in
      (
        refl,
        omega (
          arith,
          below,
          note_end-sent f env cache provider r sent sent-now call status noted,
          note-sent f env cache provider r sent (cache_hit call.req.method (get_endpoint call.req))
              s,
        ),
      )

  module _ (fuel m : ℕ)
      (attempts-Bounded : (call : Call f env) (k : ℕ) (s : S)
        → sent s.base.world ≤ k
        → Bounded f env cache provider r sent
            (suc (k + m))
            (attempts f env cache provider r.config fuel call s)) where
    answer_later :
        (call : Call f env) (status : ℤ) (resp : Response) (k : ℕ) (s : S)
        → sent s.base.world ≤ k
        → Bounded f env cache provider r sent
            (suc (k + m))
            (answer f env cache provider r call status resp s)
    answer_later call status resp k s below =
        later-Bounded f env cache provider r sent k (suc (k + m))
          (answer f env cache provider r call status resp s)
          (answer-Bounded call status resp k s below) (omega arith)

    perform_conditional_request-Bounded :
        (req : Request) (entry : CacheEntry) (k : ℕ) (s : S)
        → sent s.base.world ≤ k
        → Bounded f env cache provider r sent
            (suc (k + m))
            (perform_conditional_request f env cache provider r fuel req entry s)
    unfolding perform_conditional_request
    perform_conditional_request-Bounded req entry k s below =
        let (t, w) = env.now s.base.world in
        attempts-Bounded
          (record {
            req = add_conditional_headers r.format req entry;
            request_id = "";
            start_time = t;
          })
          k (record s { base = record s.base { world = w } })
          (omega (arith, below, sent-now s.base.world))

    handle_http_semantics_cache_hit-Bounded :
        (req : Request) (entry : CacheEntry) (key : String) (k : ℕ) (s : S)
        → sent s.base.world ≤ k
        → Bounded f env cache provider r sent
            (suc (k + m))
            (handle_http_semantics_cache_hit f env cache provider r fuel req entry key s)
    unfolding handle_http_semantics_cache_hit
    handle_http_semantics_cache_hit-Bounded req entry key k s below =
        let control = parse_cache_control (codes (header_get "Cache-Control" entry.header)) in
        let (t, w) = env.now s.base.world in
        let s' = record s { base = record s.base { world = w } } in
        let cached : Reached f env cache provider =
          (replied (some (create_response_from_cache entry)) none, s') in
        let still : sent w ≤ k = omega (arith, below, sent-now s.base.world) in
        let whole : Bounded f env cache provider r sent (suc (k + m)) cached =
          (refl, omega (arith, still)) in
        if-Bounded f env cache provider r sent (should_revalidate entry (some control) t)
          (suc (k + m)) _ _
          (if-Bounded f env cache provider r sent
            (is_swr f env cache provider r r.cache_mode && entry.is_stale) (suc (k + m)) _ _
            (refl, whole.1)
            (and_then-Bounded f env cache provider r sent (suc (k + m)) _
              (revalidated f env cache provider r entry key)
              (perform_conditional_request-Bounded req entry k s' still)
              (revalidated-Bounded entry key (suc (k + m)))))
          whole

    by_entry-Bounded :
        (mode : CacheMode) (call : Call f env) (entry : CacheEntry) (key : String) (k : ℕ) (s : S)
        → sent s.base.world ≤ k
        → Bounded f env cache provider r sent
            (suc (k + m))
            (by_entry f env cache provider r mode fuel call entry key s)
    unfolding by_entry
    by_entry-Bounded http_semantics call entry key k s below =
        handle_http_semantics_cache_hit-Bounded call.req entry key k s below
    by_entry-Bounded ttl_only call entry key k s below =
        answer_later call entry.status_code (create_response_from_cache entry) k s below
    by_entry-Bounded swr call entry key k s below =
        answer_later call entry.status_code (create_response_from_cache entry) k s below

    -- A question sends nothing, and a hit that it finds sends what is allowed.
    abbrev pub FoundBy : ℕ → Found f env cache provider r → Type 0
    FoundBy k (s, none) = sent s.base.world ≤ k
    FoundBy k (s, some x) = Bounded f env cache provider r sent (suc (k + m)) x

    map-FoundBy :
        {A : Type 0} (k : ℕ) (s : S) (found : Option A) (end : A → Reached f env cache provider)
        → sent s.base.world ≤ k
        → ((a : A) → Bounded f env cache provider r sent (suc (k + m)) (end a))
        → FoundBy k (s, Option.map end found)
    map-FoundBy k s none end below h = below
    map-FoundBy k s (some a) end below h = h a

    from_provider-FoundBy :
        (call : Call f env) (key : String) (entries : provider.Entries) (k : ℕ) (s : S)
        → sent s.base.world ≤ k
        → FoundBy k (from_provider f env cache provider r call key entries s)
    unfolding from_provider
    from_provider-FoundBy call key entries k s below =
        let ((entries', found), w) = provider.get entries key s.base.world in
        let s' = record s { provided = some entries'; base = record s.base { world = w } } in
        let still : sent w ≤ k = omega (arith, below, sent-get entries key s.base.world) in
        map-FoundBy k s' found (λ resp. answer f env cache provider r call resp.status_code resp s')
          still (λ resp. answer_later call resp.status_code resp k s' still)

    from_cache-FoundBy :
        (call : Call f env) (key : String) (o : Option cache.State) (k : ℕ) (s : S)
        → sent s.base.world ≤ k
        → FoundBy k (from_cache f env cache provider r fuel call key o s)
    unfolding from_cache
    from_cache-FoundBy call key none k s below = below
    from_cache-FoundBy call key (some entries) k s below =
        let (t, w) = env.now s.base.world in
        let (entries', found) = cache.get entries key t in
        let s' = record s { entries = some entries'; base = record s.base { world = w } } in
        let still : sent w ≤ k = omega (arith, below, sent-now s.base.world) in
        map-FoundBy k s' found
          (λ entry. by_entry f env cache provider r r.cache_mode fuel call entry key s') still
          (λ entry. by_entry-Bounded r.cache_mode call entry key k s' still)

    from_either-FoundBy :
        (mode : CacheMode) (o : Option provider.Entries) (call : Call f env) (key : String) (k : ℕ)
        (s : S)
        → sent s.base.world ≤ k
        → FoundBy k (from_either f env cache provider r mode o fuel call key s)
    unfolding from_either
    from_either-FoundBy http_semantics (some entries) call key k s below =
        from_provider-FoundBy call key entries k s below
    from_either-FoundBy swr (some entries) call key k s below =
        from_provider-FoundBy call key entries k s below
    from_either-FoundBy ttl_only (some entries) call key k s below =
        from_cache-FoundBy call key s.entries k s below
    from_either-FoundBy mode none call key k s below =
        from_cache-FoundBy call key s.entries k s below

    pub look_up-FoundBy :
        (call : Call f env) (key : String) (k : ℕ) (s : S)
        → sent s.base.world ≤ k
        → FoundBy k (look_up f env cache provider r fuel call key s)
    unfolding look_up
    look_up-FoundBy call key k s below =
        from_either-FoundBy r.cache_mode s.provided call key k s below
