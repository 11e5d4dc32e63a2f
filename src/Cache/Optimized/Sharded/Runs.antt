-- ===== src/Cache/Optimized/Sharded/Runs.antt =====
-- The calls of the optimized cache are those of its lists, in every history.
use Prim.Native.Nat.{bit_and}
use klayengo.Prelude.{
  ℕ, ◌*◌, ◌<◌, ◌≡◌, refl, ap, ◌∙◌, String, if◌then◌else◌, Option, none, some, List, [], ◌∷◌,
  set as list_set, arith, Bool-cases, inl, inr,
}
use klayengo.Prelude.Int.{ℤ, pos, leb_ℤ}
use klayengo.Backoff.{Float}
use klayengo.HttpCache.{CacheEntry}
use klayengo.Cache.Optimized.{
  OptimizedCacheShard, OptimizedCache, empty_shard, next_power_of2, new_optimized_cache_with_size,
}
use klayengo.Cache.Optimized.Calls.{
  shard_at, shard_index, get_shard, put_shard, counted, threshold_of, set_entry, delete_entry,
  get_in, set_in, delete_in, entry_of,
}
use klayengo.Cache.Optimized.Lru.Represents.{Represents}
use klayengo.Cache.Optimized.Lru.Runs.{
  ShardCall, get, set, delete, clear, empty_lru, empty-Represents,
}
use klayengo.Cache.Optimized.Sharded.{cache_call, cache_run, Lrus, lrus_call, lrus_run}
use klayengo.Cache.Optimized.Sharded.Places.{
  bit_and-le, length-map_clear, length-new, shard_at-cleared, shard_at-new, max_size-cleared,
  max_size-new, get_in-max_size, set_in-max_size, delete_in-max_size,
}
use klayengo.Cache.Optimized.Sharded.Shelved.{Shelved, keyed-Shelved, own_shard}

module _ (f : Float) (eviction_threshold : f.float64) (hash : String → ℕ) (mask : ℕ) (m : ℤ) where
  abbrev place : String → ℕ
  place key = bit_and (hash key) mask

  abbrev threshold : ℤ
  threshold = threshold_of f eviction_threshold hash m

  counted-shards :
      (c : OptimizedCache) (o : Option CacheEntry)
      → ((counted f eviction_threshold hash c o).shards ≡ c.shards)
        × ((counted f eviction_threshold hash c o).shard_mask ≡ c.shard_mask)
  counted-shards c none = (refl, refl)
  counted-shards c (some entry) = (refl, refl)

  get-Shelved :
      (c : OptimizedCache) (ls : Lrus) (key : String) (now : ℤ)
      → Shelved mask m c ls
      → let r = cache_call f eviction_threshold hash c (get key now) in
        let r' = lrus_call place threshold ls (get key now) in
        Shelved mask m r.0 r'.0 × (r.1 ≡ r'.1)
  unfolding klayengo.Cache.Optimized.Calls.get put_shard
  get-Shelved c ls key now h =
      let own = get_shard f eviction_threshold hash c key in
      let (s, found) = get_in own key now in
      let (shards, same) = counted-shards (put_shard f eviction_threshold hash c key s) found in
      keyed-Shelved f eviction_threshold hash mask m c
        (counted f eviction_threshold hash (put_shard f eviction_threshold hash c key s) found) ls
        key (get key now) h (get_in-max_size own key now) shards same

  delete-Shelved :
      (c : OptimizedCache) (ls : Lrus) (key : String)
      → Shelved mask m c ls
      → let r = cache_call f eviction_threshold hash c (delete key) in
        let r' = lrus_call place threshold ls (delete key) in Shelved mask m r.0 r'.0 × (r.1 ≡ r'.1)
  unfolding delete_entry put_shard
  delete-Shelved c ls key h =
      keyed-Shelved f eviction_threshold hash mask m c
        (delete_entry f eviction_threshold hash c key) ls key (delete key) h
        (delete_in-max_size (get_shard f eviction_threshold hash c key) key) refl refl

  set-Shelved :
      (c : OptimizedCache) (ls : Lrus) (key : String) (entry : CacheEntry) (ttl now : ℤ)
      → Shelved mask m c ls
      → let r = cache_call f eviction_threshold hash c (set key entry ttl now) in
        let r' = lrus_call place threshold ls (set key entry ttl now) in
        Shelved mask m r.0 r'.0 × (r.1 ≡ r'.1)
  unfolding set_entry put_shard
  set-Shelved c ls key entry ttl now h =
      let own = get_shard f eviction_threshold hash c key in
      let e = entry_of key entry ttl now in
      let le = bit_and-le (hash key) mask in
      let inside = h.inside in
      let size : own.max_size ≡ m =
        ap (λ s. s.max_size) (own_shard f eviction_threshold hash mask m c ls key h)
        ∙ h.sizes (place key) (omega arith) in
      keyed-Shelved f eviction_threshold hash mask m c
        (set_entry f eviction_threshold hash c key entry ttl now) ls key (set key entry ttl now) h
        (set_in-max_size threshold own key e)
        (ap
          (λ n.
            list_set c.shards (shard_index f eviction_threshold hash c key)
              (set_in (threshold_of f eviction_threshold hash n) own key e).0)
          size)
        refl

  clear-Shelved :
      (c : OptimizedCache) (ls : Lrus)
      → Shelved mask m c ls
      → Shelved mask m (klayengo.Cache.Optimized.Calls.clear c) (λ i. empty_lru)
  unfolding klayengo.Cache.Optimized.Calls.clear
  clear-Shelved c ls h =
      let long = length-map_clear c.shards in
      let inside = h.inside in
      record {
        same_mask = h.same_mask;
        inside = omega arith;
        each = shard_at-cleared (λ s. Represents s empty_lru) c.shards empty-Represents;
        sizes = λ i r. max_size-cleared m c.shards h.sizes i (omega arith);
      }

  call-Shelved :
      (c : OptimizedCache) (ls : Lrus) (call : ShardCall)
      → Shelved mask m c ls
      → let r = cache_call f eviction_threshold hash c call in
        let r' = lrus_call place threshold ls call in Shelved mask m r.0 r'.0 × (r.1 ≡ r'.1)
  call-Shelved c ls (get key now) h = get-Shelved c ls key now h
  call-Shelved c ls (set key entry ttl now) h = set-Shelved c ls key entry ttl now h
  call-Shelved c ls (delete key) h = delete-Shelved c ls key h
  call-Shelved c ls clear h = (clear-Shelved c ls h, refl)

  run-Shelved :
      (c : OptimizedCache) (ls : Lrus) (calls : List ShardCall)
      → Shelved mask m c ls
      → (cache_run f eviction_threshold hash c calls).1 ≡ (lrus_run place threshold ls calls).1
  unfolding cache_run lrus_run
  run-Shelved c ls [] h = refl
  run-Shelved c ls (call ∷ calls) h =
      let r = cache_call f eviction_threshold hash c call in
      let r' = lrus_call place threshold ls call in
      let (next, answer) = call-Shelved c ls call h in
      ap (λ a. a ∷ (cache_run f eviction_threshold hash r.0 calls).1) answer
      ∙ ap (λ rest. r'.1 ∷ rest) (run-Shelved r.0 r'.0 calls next)

next_power_of2-positive : (n : ℤ) → 0 < next_power_of2 n
unfolding next_power_of2
next_power_of2-positive n = elim (Bool-cases (leb_ℤ n (pos 1))) [
  | inl e ↦ ground (arith, e)
  | inr e ↦ ground (arith, e)
]

empty_shard-Represents : (m : ℤ) → Represents (empty_shard m) empty_lru
empty_shard-Represents m = empty-Represents (empty_shard m)

module _ (f : Float) (eviction_threshold : f.float64) (hash : String → ℕ) where
  new-Shelved :
      (num_cpu : ℕ) (shard_count max_size : ℤ)
      → let c = new_optimized_cache_with_size num_cpu shard_count max_size in
        Shelved c.shard_mask
          (if leb_ℤ max_size (pos 0) then pos 1000 else max_size)
          c
          (λ i. empty_lru)
  unfolding new_optimized_cache_with_size
  new-Shelved num_cpu shard_count max_size =
      let n =
        next_power_of2 (if leb_ℤ shard_count (pos 0) then pos (num_cpu * 2) else shard_count) in
      let m = if leb_ℤ max_size (pos 0) then pos 1000 else max_size in
      let positive =
        next_power_of2-positive
          (if leb_ℤ shard_count (pos 0) then pos (num_cpu * 2) else shard_count) in
      let long = length-new n (empty_shard m) in
      record {
        same_mask = refl;
        inside = omega arith;
        each = shard_at-new (λ s. Represents s empty_lru) n m empty_shard-Represents;
        sizes = λ i r. max_size-new m n i (omega arith);
      }

  -- Every history of `Get`, `Set`, `Delete` and `Clear` on a new cache, of any number of shards and any size
  -- given, gives the answers of one list for each shard, each call going to the list that its key's hash
  -- selects by the mask: in a list a `Set` and every tenth use bring an item to the front, and at its eviction
  -- threshold a `Set` drops the last item; the hash and the multiplication of the threshold are any.
  pub cache_run-lrus :
      (num_cpu : ℕ) (shard_count max_size : ℤ) (calls : List ShardCall)
      → let c = new_optimized_cache_with_size num_cpu shard_count max_size in
        let m = if leb_ℤ max_size (pos 0) then pos 1000 else max_size in
        (cache_run f eviction_threshold hash c calls).1
        ≡ (lrus_run
            (λ key. bit_and (hash key) c.shard_mask)
            (threshold_of f eviction_threshold hash m)
            (λ i. empty_lru)
            calls).1
  cache_run-lrus num_cpu shard_count max_size calls =
      let c = new_optimized_cache_with_size num_cpu shard_count max_size in
      run-Shelved f eviction_threshold hash c.shard_mask
        (if leb_ℤ max_size (pos 0) then pos 1000 else max_size) c (λ i. empty_lru) calls
        (new-Shelved num_cpu shard_count max_size)
