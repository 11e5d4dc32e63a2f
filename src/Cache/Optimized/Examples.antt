-- ===== src/Cache/Optimized/Examples.antt =====
-- The optimized cache at two shards, and one shard by itself.
use Prim.Native.Nat.{bit_and, max}
use klayengo.Prelude.{
  ℕ, ◌≡◌, refl, Bool, true, false, if◌then◌else◌, String, Option, none, some, List, [], ◌∷◌, length,
  arith, ◌≤◌,
}
use klayengo.Prelude.Int.{pos}
use klayengo.Prelude.Assoc.{lookup, insert, delete as assoc_delete}
use klayengo.Backoff.Examples.{whole}
use klayengo.HttpCache.{CacheEntry}
use klayengo.Cache.Optimized.{
  OptimizedCacheShard, OptimizedCache, next_power_of2, new_optimized_cache_with_size, empty_shard,
  add_to_lru, remove_lru, evict_lru,
}
use klayengo.Cache.Optimized.Calls.{
  copy_of, entry_of, get_in, set_in, delete_in, get as cache_get, set_entry, shard_index,
  threshold_of,
}
use klayengo.Cache.Optimized.Lru.Represents.{Represents}
use klayengo.Cache.Optimized.Lru.Runs.{
  ShardCall, get, set, delete, shard_run, lru_run, empty_lru, shard_run-lru,
}
use klayengo.Cache.Optimized.Lru.Capacity.{shard_run-capacity}
use klayengo.Cache.Optimized.Sharded.{cache_run, lrus_run}
use klayengo.Cache.Optimized.Sharded.Runs.{cache_run-lrus}
use klayengo.Cache.Optimized.Stats.{get_stats, tally, zero_tally, get_stats-tally}
use klayengo.Cache.Optimized.Calls.Stored.{get-set_entry_copy}

abbrev entry : CacheEntry
entry = record {
  response = none;
  body = 1 ∷ [];
  status_code = pos 204;
  header = [];
  expires_at = pos 0;
  etag = "";
  last_modified = none;
  max_age = none;
  stale_at = none;
  is_stale = false;
}

abbrev hash : String → ℕ
hash key = 6

abbrev two_shards : OptimizedCache
two_shards = new_optimized_cache_with_size 4 (pos 2) (pos 3)

abbrev one : OptimizedCacheShard
one = (set_in (pos 2) (empty_shard (pos 3)) "a" (entry_of "a" entry (pos 10) (pos 1))).0

-- A `Get` that finds an expired entry drops it, and the size still counts it.
size_drifts : ((get_in one "a" (pos 20)).0.store ≡ []) × ((get_in one "a" (pos 20)).0.size ≡ pos 1)
unfolding get_in set_in entry_of evict_lru add_to_lru remove_lru lookup insert assoc_delete
    klayengo.Prelude.Int64.add64
size_drifts = (refl, refl)

-- At the threshold the entry at the tail makes room for the new one.
makes_room : (set_in (pos 1) one "b" (entry_of "b" entry (pos 10) (pos 2))).0.store ≡ ("b", 1) ∷ []
unfolding set_in entry_of evict_lru add_to_lru remove_lru lookup insert assoc_delete
    klayengo.Prelude.Int64.add64
makes_room = refl

powers :
    (next_power_of2 (pos 5) ≡ 8) × (next_power_of2 (pos 64) ≡ 64) × (next_power_of2 (pos 0) ≡ 1)
unfolding next_power_of2
powers = (refl, refl, refl)

get-set_entry_copy_example :
    (cache_get whole
      (pos 1)
      hash
      (set_entry whole (pos 1) hash two_shards "a" entry (pos 10) (pos 5))
      "a"
      (pos 15)).1
    ≡ some (record entry { expires_at = pos 15 })
unfolding new_optimized_cache_with_size next_power_of2 shard_index klayengo.Prelude.Int64.add64
get-set_entry_copy_example =
    get-set_entry_copy whole (pos 1) hash two_shards "a" entry (pos 10) (pos 5) (pos 15)
      (omega arith)

-- At the threshold of two the third `Set` drops the first one's entry, and its `Get` misses.
abbrev calls : List ShardCall
calls =
    set "a" entry (pos 10) (pos 1)
    ∷ set "b" entry (pos 10) (pos 2)
    ∷ set "c" entry (pos 10) (pos 3)
    ∷ get "a" (pos 4)
    ∷ get "b" (pos 4)
    ∷ delete "b"
    ∷ []

answered :
    (shard_run (pos 2) (empty_shard (pos 3)) calls).1
    ≡ none ∷ none ∷ none ∷ none ∷ some (copy_of (entry_of "b" entry (pos 10) (pos 2))) ∷ none ∷ []
unfolding shard_run get_in set_in delete_in entry_of evict_lru add_to_lru remove_lru lookup insert
    assoc_delete klayengo.Prelude.Int64.add64 klayengo.Prelude.Int64.sub64
answered = refl

shard_run-lru_example :
    Represents (shard_run (pos 2) (empty_shard (pos 3)) calls).0 (lru_run (pos 2) empty_lru calls).0
    × ((shard_run (pos 2) (empty_shard (pos 3)) calls).1 ≡ (lru_run (pos 2) empty_lru calls).1)
shard_run-lru_example = shard_run-lru (pos 2) (pos 3) calls

shard_run-capacity_example : length {A = String} ("c" ∷ []) ≤ max 1 2
unfolding shard_run get_in set_in delete_in entry_of evict_lru add_to_lru remove_lru lookup insert
    assoc_delete klayengo.Prelude.Int64.add64 klayengo.Prelude.Int64.sub64
shard_run-capacity_example =
    shard_run-capacity (pos 2) (pos 3) calls ("c" ∷ []) (omega arith) (refl, tt) (refl, tt)

cache_run-lrus_example :
    (cache_run whole (pos 1) hash two_shards calls).1
    ≡ (lrus_run
        (λ key. bit_and (hash key) two_shards.shard_mask)
        (threshold_of whole (pos 1) hash (pos 3))
        (λ i. empty_lru)
        calls).1
cache_run-lrus_example = cache_run-lrus whole (pos 1) hash 4 (pos 2) (pos 3) calls

get_stats-tally_example :
    let run = cache_run whole (pos 1) hash two_shards calls in
    let stats = get_stats whole (λ a b. a) run.0 in
    let t = tally zero_tally calls run.1 in
    (stats.total_hits ≡ pos t.hits)
    × (stats.total_misses ≡ pos t.misses)
    × (stats.total_sets ≡ pos t.sets)
get_stats-tally_example =
    get_stats-tally whole (pos 1) hash (λ a b. a) 4 (pos 2) (pos 3) calls (omega arith)
