-- ===== src/Provider/Stale.antt =====
-- The provider with HTTP semantics over the in-memory cache: what it serves.
use klayengo.Prelude.{ℕ, ◌≡◌, refl, String, none, some, arith}
use klayengo.Prelude.Int.{ℤ, ◌≤ℤ◌, ◌<ℤ◌}
use klayengo.HttpCache.{CacheEntry}
use klayengo.Cache.{InMemoryCache, write, get, set_new, delete_entry}
use klayengo.Cache.Laws.{pointer, entry_at, find}
use klayengo.Provider.{CacheMode, Cache, semantic_found, semantic_get, create_response_from_entry}

-- The cache keeps the pointer that it returned: a caller's change of the entry shows in the store.
pub write_back : (String → ℕ) → InMemoryCache → String → CacheEntry → InMemoryCache
write_back hash c key e = elim (pointer hash c key) [ none ↦ c | some p ↦ write c p e ]

abbrev pub in_memory : (String → ℕ) → Cache
in_memory hash = record {
  State = InMemoryCache;
  get = get hash;
  set = set_new hash;
  delete = delete_entry hash;
  write_back = write_back hash;
}

module _ (hash : String → ℕ) (mode : CacheMode) (c : InMemoryCache) (key : String) where
  get_expired :
      (e : CacheEntry) (now : ℤ)
      → find hash c key ≡ some e
      → e.expires_at <ℤ now
      → (get hash c key now).1 ≡ none
  unfolding get entry_at
  get_expired e now f h = ground arith

  semantic_found-none :
      (s : InMemoryCache) (now : ℤ) → (semantic_found (in_memory hash) mode none s key now).1 ≡ none
  unfolding semantic_found
  semantic_found-none s now = refl

  -- Over the in-memory cache the provider serves no expired entry in any mode, the mode SWR
  -- included, whatever stale window the entry has: an entry that has expired at the reading of the
  -- cache's own `Get` is not returned.
  pub semantic_get_expired :
      (e : CacheEntry) (get_at now : ℤ)
      → find hash c key ≡ some e
      → e.expires_at <ℤ get_at
      → (semantic_get (in_memory hash) mode c key get_at now).1 ≡ none
  unfolding semantic_get
  semantic_get_expired e get_at now f h =
      let gone = get_expired e get_at f h in
      rw gone (semantic_found-none (get hash c key get_at).0 now)

  get_fresh :
      (e : CacheEntry) (now : ℤ)
      → find hash c key ≡ some e
      → now ≤ℤ e.expires_at
      → get hash c key now ≡ (c, some e)
  unfolding get entry_at
  get_fresh e now f h = ground arith

  -- An entry that has not expired at either reading is served as it was stored, and the cache stays
  -- as it was.
  pub semantic_get_fresh :
      (e : CacheEntry) (get_at now : ℤ)
      → find hash c key ≡ some e
      → get_at ≤ℤ e.expires_at
      → now ≤ℤ e.expires_at
      → semantic_get (in_memory hash) mode c key get_at now
        ≡ (c, some (create_response_from_entry e))
  unfolding semantic_get semantic_found
  semantic_get_fresh e get_at now f h k = rw (get_fresh e get_at f h) (ground arith)
