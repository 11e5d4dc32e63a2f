-- ===== src/Client/Requests/Fetch/Stored.antt =====
-- What the storing of client.go leaves in the legacy cache.
use klayengo.Prelude.{
  ◌≡◌, refl, sym, ap, subst, ◌∙◌, Bool, true, false, if◌then◌else◌, String, Option, none, some,
  arith,
}
use klayengo.Prelude.Int.{ℤ, pos, ◌<ℤ◌, ltb_ℤ}
use klayengo.Http.{Request, Response, Body}
use klayengo.Errors.{Error}
use klayengo.Backoff.{Float}
use klayengo.HttpCache.{CacheEntry}
use klayengo.Provider.{Cache, create_cache_entry, create_response_from_cache}
use klayengo.Provider.Entries.{create_cache_entry-response}
use klayengo.Client.{Env}
use klayengo.Client.CacheRules.{get_cache_ttl_for_request}
use klayengo.Client.Requests.{CacheProvider, replied, Rules, ClientState, Reached, note}
use klayengo.Client.Requests.Fetch.{
  set_cached, keep_entry, store_entry, store_either, store, note_size,
}

module _ (f : Float) (env : Env f) (cache : Cache) (provider : CacheProvider f env)
    (r : Rules f env cache provider) where
  abbrev S : Type 0
  S = ClientState f env cache provider

  -- What has become of the state `s` with a response stored.
  pub record Stored (req : Request) (resp : Response) (es : cache.State) (s s' : S) : Type 0 where
    pub entry : CacheEntry
    pub gives : create_response_from_cache entry ≡ record resp { request_method = none }
    pub stored :
        s'.entries
        ≡ some (
            cache.set es
              (r.cache_key_func req)
              entry
              (get_cache_ttl_for_request r.cache_ttl req)
              (env.now s.base.world).0)
    pub same_provided : s'.provided ≡ s.provided
    pub same_deduplication : s'.deduplication ≡ s.deduplication

  module _ (req : Request) (resp : Response) (es : cache.State) (s : S) where
    abbrev key : String
    key = r.cache_key_func req

    note_size-Stored :
        (n : Option ℤ) (s' : S)
        → Stored req resp es s s'
        → Stored req resp es s (note_size f env cache provider r n s')
    unfolding note_size note
    note_size-Stored none s' h = h
    note_size-Stored (some n) s' h = record {
      entry = h.entry;
      gives = h.gives;
      stored = h.stored;
      same_provided = h.same_provided;
      same_deduplication = h.same_deduplication;
    }

    keep_entry-Stored :
        (made : Option (CacheEntry × Response))
        → ((entry : CacheEntry) (kept : Response)
            → made ≡ some (entry, kept)
            → create_response_from_cache entry ≡ record kept { request_method = none })
        → (keep_entry f env cache provider r es key req made s).0 ≡ replied (some resp) none
        → Stored req resp es s (keep_entry f env cache provider r es key req made s).1
    unfolding keep_entry set_cached
    keep_entry-Stored none gives h = absurd (cc (h))
    keep_entry-Stored (some (entry, kept)) gives h =
        note_size-Stored
          (r.cache_size (
            cache.set es key entry (get_cache_ttl_for_request r.cache_ttl req)
              (env.now s.base.world).0))
          (record s {
            entries = some (
                cache.set es key entry (get_cache_ttl_for_request r.cache_ttl req)
                  (env.now s.base.world).0);
            base = record s.base { world = (env.now s.base.world).1 };
          })
          (record {
            entry = entry;
            gives = gives entry kept refl ∙ cc (h);
            stored = refl;
            same_provided = refl;
            same_deduplication = refl;
          })

    store_entry-Stored :
        (resp' : Response) (body : Option Body)
        → (store_entry f env cache provider r es key req resp' body s).0 ≡ replied (some resp) none
        → Stored req resp es s (store_entry f env cache provider r es key req resp' body s).1
    unfolding store_entry
    store_entry-Stored resp' none h = absurd (cc (h))
    store_entry-Stored resp' (some b) h =
        keep_entry-Stored (create_cache_entry b resp')
          (λ entry kept. create_cache_entry-response b resp' kept entry) h

    by_status :
        Bool
        → Option provider.Entries
        → Option cache.State
        → Response
        → Reached f env cache provider
    unfolding store_either
    by_status small provided entries resp' =
        if small
        then store_either f env cache provider r provided entries key req resp' s
        else (replied (some resp') none, s)

    store-by_status :
        (resp' : Response)
        → store f env cache provider r true req (some resp') none s
          ≡ by_status (ltb_ℤ resp'.status_code (pos 400)) s.provided s.entries resp'
    unfolding by_status store
    store-by_status resp' = refl

    by_status-Stored :
        (small : Bool) (resp' : Response)
        → small ≡ ltb_ℤ resp'.status_code (pos 400)
        → resp.status_code <ℤ pos 400
        → (by_status small none (some es) resp').0 ≡ replied (some resp) none
        → Stored req resp es s (by_status small none (some es) resp').1
    unfolding by_status store_either
    by_status-Stored true resp' is small h = store_entry-Stored resp' resp'.body h
    by_status-Stored false resp' is small h =
        let same : resp' ≡ resp = cc (h) in
        absurd (ground (arith, ap (λ x. x.status_code) same, is, small))

    -- The storing at a client with a legacy cache and no provider.
    pub store-Stored :
        (resp' : Option Response) (err : Option Error)
        → s.provided ≡ none
        → s.entries ≡ some es
        → resp.status_code <ℤ pos 400
        → (store f env cache provider r true req resp' err s).0 ≡ replied (some resp) none
        → Stored req resp es s (store f env cache provider r true req resp' err s).1
    unfolding store store_either
    store-Stored resp' (some e) no_provider has small h = absurd (cc (h))
    store-Stored none none no_provider has small h = absurd (cc (h))
    store-Stored (some resp') none no_provider has small h =
        let same : store f env cache provider r true req (some resp') none s
            ≡ by_status (ltb_ℤ resp'.status_code (pos 400)) none (some es) resp' =
          store-by_status resp'
          ∙ ap (λ p. by_status (ltb_ℤ resp'.status_code (pos 400)) p s.entries resp') no_provider
          ∙ ap (λ e. by_status (ltb_ℤ resp'.status_code (pos 400)) none e resp') has in
        subst (λ x. x.0 ≡ replied (some resp) none → Stored req resp es s x.1) (sym same)
          (by_status-Stored (ltb_ℤ resp'.status_code (pos 400)) resp' refl small) h
