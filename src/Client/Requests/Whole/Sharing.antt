-- ===== src/Client/Requests/Whole/Sharing.antt =====
-- What `Do` of client.go leaves in the deduplication tracker, for the next requests with the key.
use klayengo.Prelude.{ℕ, ◌≡◌, refl, ap, ◌∙◌, true, Option, none, some, arith}
use klayengo.Prelude.Assoc.{lookup}
use klayengo.Http.{Request}
use klayengo.Backoff.{Float}
use klayengo.Dedup.{DeduplicationTracker, wait}
use klayengo.Dedup.Laws.{
  joined_tracker, created_tracker, get_or_create_entry-registered, wait-joined_tracker,
  get_or_create_entry-absent, created_tracker-lookup, created_tracker-timers, wait-created_tracker,
}
use klayengo.HttpCache.{CacheEntry}
use klayengo.Provider.{ttl_only, Cache, create_response_from_cache}
use klayengo.Client.{Exchange, Env, Metric, Call}
use klayengo.Client.Requests.{CacheProvider, Reply, replied, waiting, Rules, ClientState, note}
use klayengo.Client.Requests.Hits.{answer}
use klayengo.Client.Requests.Whole.Hit.{asked, by_cache-hit, answer-reply, answer-deduplication}
use klayengo.Client.Requests.Whole.{
  by_dedup, by_owner, by_cache, is_cache_enabled, shared, enter, do_request,
}

module _ (f : Float) (env : Env f) (cache : Cache) (provider : CacheProvider f env)
    (r : Rules f env cache provider) where
  abbrev S : Type 0
  S = ClientState f env cache provider

  note-deduplication :
      (m : Metric) (s : S) → (note f env cache provider r m s).deduplication ≡ s.deduplication
  unfolding note
  note-deduplication m s = refl

  -- What a waiter replies once it has looked.
  abbrev pub told : Option Exchange → Reply
  told none = waiting
  told (some (resp, err)) = replied resp err

  shared-told :
      (call : Call f env) (o : Option Exchange) (s : S)
      → (shared f env cache provider r call o s).0 ≡ told o
  unfolding shared note
  shared-told call none s = refl
  shared-told call (some (resp, err)) s = refl

  -- A request that joins the entry `p`.
  joins :
      (fuel : ℕ) (call : Call f env) (s : S) (t : DeduplicationTracker) (p : ℕ)
      → lookup (r.dedup_key_func call.req) t.entries ≡ some p
      → (by_dedup f env cache provider r (some t) true fuel call s).0 ≡ told (wait t p)
  unfolding by_dedup by_owner
  joins fuel call s t p registered =
      let key = r.dedup_key_func call.req in
      rw (get_or_create_entry-registered t key p registered) (
        shared-told call (wait (joined_tracker t key p) p)
          (record s { deduplication = some (joined_tracker t key p) })
        ∙ ap told (wait-joined_tracker t key p))

  pub do_request-wait :
      (fuel : ℕ) (req : Request) (s : S) (t : DeduplicationTracker) (p : ℕ)
      → s.deduplication ≡ some t
      → r.dedup_condition req ≡ true
      → lookup (r.dedup_key_func req) t.entries ≡ some p
      → (do_request f env cache provider r fuel req s).0 ≡ told (wait t p)
  unfolding do_request enter note
  do_request-wait fuel req s t p has wanted registered =
      let (call, begun) = enter f env cache provider r req s in
      let same : do_request f env cache provider r fuel req s
          ≡ by_dedup f env cache provider r (some t) true fuel call begun =
        cc (has, wanted) in
      ap (λ x. x.0) same ∙ joins fuel call begun t p registered

  -- The owner of a new entry goes on with the tracker that has it.
  pub owns :
      (fuel : ℕ) (req : Request) (s : S) (t : DeduplicationTracker)
      → s.deduplication ≡ some t
      → r.dedup_condition req ≡ true
      → lookup (r.dedup_key_func req) t.entries ≡ none
      → let (call, begun) = enter f env cache provider r req s in
        let owned = record begun {
          deduplication = some (created_tracker t (r.dedup_key_func req));
        } in
        do_request f env cache provider r fuel req s
        ≡ by_cache f env cache provider r
            (is_cache_enabled f env cache provider r req owned)
            true
            fuel
            call
            owned
  unfolding do_request enter note by_dedup by_owner
  owns fuel req s t has wanted absent =
      let (call, begun) = enter f env cache provider r req s in
      let key = r.dedup_key_func req in
      let same : do_request f env cache provider r fuel req s
          ≡ by_dedup f env cache provider r (some t) true fuel call begun =
        cc (has, wanted) in
      same ∙ rw (get_or_create_entry-absent t key absent) refl

  module _ (req later : Request) (s : S) (t : DeduplicationTracker) (has : s.deduplication ≡ some t)
      (wanted : r.dedup_condition req ≡ true)
      (absent : lookup (r.dedup_key_func req) t.entries ≡ none)
      (same_key : r.dedup_key_func later ≡ r.dedup_key_func req)
      (later_wanted : r.dedup_condition later ≡ true) where
    -- A request that owns a new deduplication entry and is answered from the legacy cache in the mode
    -- TTLOnly leaves the entry behind, registered and never done: `Do` returns the cached response,
    -- the tracker has no timer more than before, and a later request with the same key waits for an
    -- exchange that no one makes.
    pub do_request-left_waiting :
        (fuel later_fuel : ℕ) (es : cache.State) (entry : CacheEntry)
        → r.cache_mode ≡ ttl_only
        → r.cache_condition req ≡ true
        → s.provided ≡ none
        → s.entries ≡ some es
        → ((w : env.World) → (cache.get es (r.cache_key_func req) (env.now w).0).1 ≡ some entry)
        → let (reply, s') = do_request f env cache provider r fuel req s in
          (reply ≡ replied (some (create_response_from_cache entry)) none)
          × (s'.deduplication ≡ some (created_tracker t (r.dedup_key_func req)))
          × ((created_tracker t (r.dedup_key_func req)).timers ≡ t.timers)
          × ((do_request f env cache provider r later_fuel later s').0 ≡ waiting)
    unfolding enter note
    do_request-left_waiting fuel later_fuel es entry ttl cached no_provider entries hit =
        let (call, begun) = enter f env cache provider r req s in
        let key = r.dedup_key_func req in
        let owned : S = record begun { deduplication = some (created_tracker t key) } in
        let enabled : is_cache_enabled f env cache provider r req owned ≡ true =
          ground (arith, entries, cached) in
        let next = asked f env cache provider r ttl call es owned in
        let ending : do_request f env cache provider r fuel req s
            ≡ answer f env cache provider r call entry.status_code
                (create_response_from_cache entry) next =
          owns fuel req s t has wanted absent
          ∙ ap (λ b. by_cache f env cache provider r b true fuel call owned) enabled
          ∙ by_cache-hit f env cache provider r ttl true fuel call owned es entry no_provider
              entries (hit owned.base.world) in
        let left : (do_request f env cache provider r fuel req s).1.deduplication
            ≡ some (created_tracker t key) =
          ap (λ x. x.1.deduplication) ending
          ∙ answer-deduplication f env cache provider r ttl call entry.status_code
              (create_response_from_cache entry) next in
        (
          ap (λ x. x.0) ending
              ∙ answer-reply f env cache provider r ttl call entry.status_code
                  (create_response_from_cache entry) next,
          left,
          created_tracker-timers t key,
          do_request-wait later_fuel later (do_request f env cache provider r fuel req s).1
                (created_tracker t key) t.next left later_wanted
                (ap (λ k. lookup k (created_tracker t key).entries) same_key
                  ∙ created_tracker-lookup t key)
              ∙ ap told (wait-created_tracker t key),
        )
