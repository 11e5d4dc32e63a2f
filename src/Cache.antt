-- ===== src/Cache.antt =====
-- The sharded in-memory cache of cache.go (types in types.go), one call at a time. `hash` is
-- `fnv.New32a` of the key's bytes; the theorems hold for every hash.
pub mod Laws
pub mod Calls
pub mod Optimized
mod Examples
use klayengo.Prelude.{
  ℕ, suc, ◌%◌, Bool, true, false, if◌then◌else◌, String, Option, none, some, List, [], ◌∷◌,
  get_elem?, set, replicate, ◌==◌ as nat_eq,
}
use klayengo.Prelude.Int.{ℤ, pos, ◌+ℤ◌, ltb_ℤ}
use klayengo.Prelude.Assoc.{lookup, insert, delete}
use klayengo.HttpCache.{CacheEntry, zero_time}

-- A shard's `store`, which holds pointers to entries.
abbrev pub Store : Type 0
Store = List (String × ℕ)

-- The cache with the memory that its callers' entries stand in: `entries` is what each pointer
-- points to, and the pointers from `next` on are not in use.
pub record InMemoryCache : Type 0 where
  pub shards : List Store
  pub num_shards : ℕ
  pub entries : ℕ → CacheEntry
  pub next : ℕ

-- The zero value of a `CacheEntry`.
abbrev blank : CacheEntry
blank = record {
  response = none;
  body = [];
  status_code = pos 0;
  header = [];
  expires_at = zero_time;
  etag = "";
  last_modified = none;
  max_age = none;
  stale_at = none;
  is_stale = false;
}

unfoldable pub new_in_memory_cache : InMemoryCache
new_in_memory_cache = record {
  shards = replicate 16 [];
  num_shards = 16;
  entries = λ i. blank;
  next = 0;
}

-- A write through a pointer, which every holder of the pointer sees.
unfoldable pub write : InMemoryCache → ℕ → CacheEntry → InMemoryCache
write c p e = record c { entries = λ i. if nat_eq i p then e else c.entries i }

-- An index out of range would be a fault of the program; IsWell (Cache/Laws.antt) excludes it.
store_at : List Store → ℕ → Store
store_at shards i = elim (get_elem? shards i) [ none ↦ [] | some s ↦ s ]

module _ (hash : String → ℕ) where
  pub shard_index : InMemoryCache → String → ℕ
  shard_index c key = hash key % c.num_shards

  -- `getShard`.
  unfoldable pub get_shard : InMemoryCache → String → Store
  unfolding store_at shard_index
  get_shard c key = store_at c.shards (shard_index c key)

  pub put_shard : InMemoryCache → String → Store → InMemoryCache
  unfolding shard_index
  put_shard c key s = record c { shards = set c.shards (shard_index c key) s }

  -- An expired entry is removed.
  unfoldable pub get : InMemoryCache → String → ℤ → InMemoryCache × Option CacheEntry
  unfolding get_shard put_shard
  get c key now = elim (lookup key (get_shard c key)) [
    | none ↦ (c, none)
    | some p ↦
        if ltb_ℤ (c.entries p).expires_at now
        then (put_shard c key (delete key (get_shard c key)), none)
        else (c, some (c.entries p))
  ]

  -- `Set` of a pointer that is not nil. The caller's own entry gets the expiry.
  unfoldable pub set_entry : InMemoryCache → String → ℕ → ℤ → ℤ → InMemoryCache
  unfolding get_shard put_shard write
  set_entry c key p ttl now =
      let renewed = write c p (record (c.entries p) { expires_at = now +ℤ ttl }) in
      put_shard renewed key (insert key p (get_shard renewed key))

  -- `Set` of an entry that the caller has just made.
  unfoldable pub set_new : InMemoryCache → String → CacheEntry → ℤ → ℤ → InMemoryCache
  unfolding set_entry write
  set_new c key entry ttl now =
      set_entry (write (record c { next = suc c.next }) c.next entry) key c.next ttl now

  unfoldable pub delete_entry : InMemoryCache → String → InMemoryCache
  unfolding get_shard put_shard
  delete_entry c key = put_shard c key (delete key (get_shard c key))

cleared : List Store → List Store
cleared [] = []
cleared (s ∷ ss) = [] ∷ cleared ss

unfoldable pub clear : InMemoryCache → InMemoryCache
unfolding cleared
clear c = record c { shards = cleared c.shards }
