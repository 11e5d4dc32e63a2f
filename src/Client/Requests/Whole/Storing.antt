-- ===== src/Client/Requests/Whole/Storing.antt =====
-- `Do` of client.go stores what it fetched in the legacy cache, and answers the next request from it.
use klayengo.Prelude.{
  ℕ, ◌≡◌, refl, sym, ap, subst, ◌∙◌, true, false, not, String, Option, none, some, arith,
}
use klayengo.Prelude.Int.{ℤ, pos, ◌+ℤ◌, ◌≤ℤ◌, ◌<ℤ◌}
use klayengo.Http.{Request, Response}
use klayengo.Errors.{Error}
use klayengo.Backoff.{Float}
use klayengo.HttpCache.{CacheEntry}
use klayengo.Provider.{ttl_only, Cache, create_response_from_cache}
use klayengo.Client.{Env, Call, get_endpoint, request_start, cache_miss}
use klayengo.Client.Requests.Hits.{answer}
use klayengo.Client.Requests.{
  CacheProvider, replied, crashed, no_fuel, waiting, Rules, ClientState, Reached, note, note_end,
  attempts, and_then,
}
use klayengo.Client.Requests.Fetch.{in_flight, store, fetch}
use klayengo.Client.Requests.Fetch.Stored.{Stored, store-Stored}
use klayengo.Client.Requests.Whole.{
  complete_owned, wind_up, proceed, status_of, by_cache, is_cache_enabled, by_dedup, enter,
  do_request,
}
use klayengo.Client.Requests.Whole.Hit.{
  asked, by_cache-hit, by_cache-miss, answer-reply, answer-world, note-world,
}

-- What the client relies on in a cache: a set entry is found until it expires.
pub record Caching (cache : Cache) : Type 1 where
  pub IsValid : cache.State → Type 0
  pub get-IsValid :
      (es : cache.State) (key : String) (now : ℤ) → IsValid es → IsValid (cache.get es key now).0
  pub get-set :
      (es : cache.State) (key : String) (entry : CacheEntry) (ttl now later : ℤ)
      → IsValid es
      → later ≤ℤ now +ℤ ttl
      → (cache.get (cache.set es key entry ttl now) key later).1
        ≡ some (record entry { expires_at = now +ℤ ttl })

module _ (f : Float) (env : Env f) (cache : Cache) (provider : CacheProvider f env)
    (r : Rules f env cache provider) (ttl : r.cache_mode ≡ ttl_only) where
  abbrev S : Type 0
  S = ClientState f env cache provider

  complete_owned-other :
      (req : Request) (a : Reached f env cache provider)
      → and_then f env cache provider a (complete_owned f env cache provider r false req) ≡ a
  unfolding complete_owned
  complete_owned-other req (replied resp err, s) = refl
  complete_owned-other req (crashed, s) = refl
  complete_owned-other req (no_fuel, s) = refl
  complete_owned-other req (waiting, s) = refl

  -- In this mode a client with a cache fetches alone and stores.
  wind_up-ttl :
      (call : Call f env) (resp : Option Response) (err : Option Error) (s : S)
      → wind_up f env cache provider r false true call resp err s
        ≡ store f env cache provider r true call.req resp err
            (note_end f env cache provider r call (status_of f env cache provider r resp) s)
  unfolding wind_up
  wind_up-ttl call resp err s =
      let noted = note_end f env cache provider r call (status_of f env cache provider r resp) s in
      ap
        (λ mode.
          and_then f env cache provider
            (store f env cache provider r (not (in_flight f env cache provider r true mode))
              call.req resp err noted)
            (complete_owned f env cache provider r false call.req))
        ttl
      ∙ complete_owned-other call.req (store f env cache provider r true call.req resp err noted)

  proceed-ttl :
      (fuel : ℕ) (call : Call f env) (s : S)
      → proceed f env cache provider r false true fuel call s
        ≡ and_then f env cache provider
            (attempts f env cache provider r.config fuel call s)
            (wind_up f env cache provider r false true call)
  unfolding proceed fetch
  proceed-ttl fuel call s =
      ap
        (λ mode.
          and_then f env cache provider
            (fetch f env cache provider r (in_flight f env cache provider r true mode) fuel call s)
            (wind_up f env cache provider r false true call))
        ttl

  -- What is left once the attempts `a` have ended with a response that is stored.
  wind_up-Stored :
      (call : Call f env) (a : Reached f env cache provider) (resp : Response) (es : cache.State)
      → a.1.provided ≡ none
      → a.1.entries ≡ some es
      → resp.status_code <ℤ pos 400
      → (and_then f env cache provider a (wind_up f env cache provider r false true call)).0
        ≡ replied (some resp) none
      → (noted : S) × (noted.deduplication ≡ a.1.deduplication)
        × (noted.provided ≡ none)
        × Stored f env cache provider r call.req resp es noted
            (and_then f env cache provider a (wind_up f env cache provider r false true call)).1
  unfolding note_end note
  wind_up-Stored call (replied resp' err, s) resp es no_provider has small h =
      let noted = note_end f env cache provider r call (status_of f env cache provider r resp') s in
      let same = wind_up-ttl call resp' err s in
      (
        noted,
        refl,
        no_provider,
        subst (λ x. Stored f env cache provider r call.req resp es noted x.1) (sym same)
            (store-Stored f env cache provider r call.req resp es noted resp' err no_provider has
              small (sym (ap (λ x. x.0) same) ∙ h)),
      )
  wind_up-Stored call (crashed, s) resp es no_provider has small h = absurd (cc (h))
  wind_up-Stored call (no_fuel, s) resp es no_provider has small h = absurd (cc (h))
  wind_up-Stored call (waiting, s) resp es no_provider has small h = absurd (cc (h))

  -- `Do` without deduplication.
  do_request-alone :
      (fuel : ℕ) (req : Request) (s : S)
      → s.deduplication ≡ none
      → let (call, begun) = enter f env cache provider r req s in
        do_request f env cache provider r fuel req s
        ≡ by_cache f env cache provider r
            (is_cache_enabled f env cache provider r req begun)
            false
            fuel
            call
            begun
  unfolding do_request by_dedup enter note
  do_request-alone fuel req s no_tracker =
      let (call, begun) = enter f env cache provider r req s in
      ap (λ d. by_dedup f env cache provider r d (r.dedup_condition req) fuel call begun) no_tracker

  module _ (fuel : ℕ) (req : Request) (s : S) (es : cache.State)
      (no_tracker : s.deduplication ≡ none) (no_provider : s.provided ≡ none)
      (has : s.entries ≡ some es) (cached : r.cache_condition req ≡ true) where
    enabled :
        is_cache_enabled f env cache provider r req (enter f env cache provider r req s).1 ≡ true
    unfolding enter note
    enabled = ground (arith, has, cached)

    begun-world :
        (enter f env cache provider r req s).1.base.world
        ≡ (r.request_id (env.now s.base.world).1).1
    unfolding enter
    begun-world =
        note-world f env cache provider r ttl (request_start req.method (get_endpoint req))
          (record s { base = record s.base { world = (r.request_id (env.now s.base.world).1).1 } })

    -- A hit at such a client, with the world after it.
    pub do_request-hit :
        (entry : CacheEntry)
        → ((w : env.World) → (cache.get es (r.cache_key_func req) (env.now w).0).1 ≡ some entry)
        → let (reply, s') = do_request f env cache provider r fuel req s in
          (reply ≡ replied (some (create_response_from_cache entry)) none)
          × (s'.base.world ≡ (env.now (env.now (r.request_id (env.now s.base.world).1).1).1).1)
    unfolding enter note
    do_request-hit entry found =
        let (call, begun) = enter f env cache provider r req s in
        let next = asked f env cache provider r ttl call es begun in
        let given = create_response_from_cache entry in
        let ending : do_request f env cache provider r fuel req s
            ≡ answer f env cache provider r call entry.status_code given next =
          do_request-alone fuel req s no_tracker
          ∙ ap (λ b. by_cache f env cache provider r b false fuel call begun) enabled
          ∙ by_cache-hit f env cache provider r ttl false fuel call begun es entry no_provider has
              (found begun.base.world) in
        (
          ap (λ x. x.0) ending
              ∙ answer-reply f env cache provider r ttl call entry.status_code given next,
          ap (λ x. x.1.base.world) ending
              ∙ answer-world f env cache provider r ttl call entry.status_code given next
              ∙ ap (λ w. (env.now (env.now w).1).1) begun-world,
        )

    -- A miss at such a client: the attempts, and the storing of what they have brought.
    pub do_request-Stored :
        (resp : Response)
        → ((w : env.World) → (cache.get es (r.cache_key_func req) (env.now w).0).1 ≡ none)
        → (do_request f env cache provider r fuel req s).0 ≡ replied (some resp) none
        → resp.status_code <ℤ pos 400
        → (noted : S) × (time : ℤ) × (noted.deduplication ≡ none)
          × (noted.provided ≡ none)
          × Stored f env cache provider r req resp
              (cache.get es (r.cache_key_func req) time).0
              noted
              (do_request f env cache provider r fuel req s).1
    unfolding enter note attempts
    do_request-Stored resp cold ends small =
        let (call, begun) = enter f env cache provider r req s in
        let time = (env.now begun.base.world).0 in
        let next =
          note f env cache provider r (cache_miss req.method (get_endpoint req))
            (asked f env cache provider r ttl call es begun) in
        let a = attempts f env cache provider r.config fuel call next in
        let ending : do_request f env cache provider r fuel req s
            ≡ and_then f env cache provider a (wind_up f env cache provider r false true call) =
          do_request-alone fuel req s no_tracker
          ∙ ap (λ b. by_cache f env cache provider r b false fuel call begun) enabled
          ∙ by_cache-miss f env cache provider r ttl false fuel call begun es no_provider has
              (cold begun.base.world)
          ∙ proceed-ttl fuel call next in
        let (noted, same, bare, stored) =
          wind_up-Stored call a resp (cache.get es (r.cache_key_func req) time).0 no_provider refl
            small (sym (ap (λ x. x.0) ending) ∙ ends) in
        (
          noted,
          time,
          same ∙ no_tracker,
          bare,
          subst
              (λ x.
                Stored f env cache provider r req resp (cache.get es (r.cache_key_func req) time).0
                  noted x.1)
              (sym ending) stored,
        )
