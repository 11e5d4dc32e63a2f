-- ===== src/Cache/Optimized/Stats.antt =====
-- `GetStats` of cache_optimized.go; the division of floating-point numbers is a parameter.
use klayengo.Prelude.{
  ℕ, ◌+◌, ◌<◌, ◌≡◌, refl, ap, ◌∙◌, subst, String, if◌then◌else◌, Option, none, some, List, [], ◌∷◌,
  map, length, arith,
}
use klayengo.Prelude.Int.{ℤ, pos, ltb_ℤ}
use klayengo.Prelude.Int64.{add64, add64_pos}
use klayengo.Backoff.{Float}
use klayengo.HttpCache.{CacheEntry}
use klayengo.Cache.Optimized.{OptimizedCacheShard, OptimizedCache, new_optimized_cache_with_size}
use klayengo.Cache.Optimized.Calls.{counted, put_shard, set_entry, delete_entry, get_in, get_shard}
use klayengo.Cache.Optimized.Lru.Runs.{ShardCall, get, set, delete, clear}
use klayengo.Cache.Optimized.Sharded.{cache_call, cache_run}

pub record ShardStats : Type 0 where
  pub size : ℤ
  pub capacity : ℤ
  pub hits : ℤ
  pub misses : ℤ
  pub evictions : ℤ

pub record CacheStats (float64 : Type 0) : Type 0 where
  pub total_size : ℤ
  pub total_capacity : ℤ
  pub total_hits : ℤ
  pub total_misses : ℤ
  pub total_sets : ℤ
  pub total_evictions : ℤ
  pub hit_ratio : float64
  pub shard_count : ℤ
  pub shard_stats : List ShardStats

abbrev stats_of : OptimizedCacheShard → ShardStats
stats_of s = record {
  size = s.size;
  capacity = s.max_size;
  hits = s.hits;
  misses = s.misses;
  evictions = s.evictions;
}

-- The two sums of the loop, from what they are so far.
sums : ℤ × ℤ → List OptimizedCacheShard → ℤ × ℤ
sums (size, capacity) [] = (size, capacity)
sums (size, capacity) (s ∷ shards) = sums (add64 size s.size, add64 capacity s.max_size) shards

module _ (f : Float) (div : f.float64 → f.float64 → f.float64) where
  unfoldable pub get_stats : OptimizedCache → CacheStats f.float64
  unfolding sums
  get_stats c =
      let (size, capacity) = sums (pos 0, pos 0) c.shards in
      let asked = add64 c.total_hits c.total_misses in
      record {
        total_size = size;
        total_capacity = capacity;
        total_hits = c.total_hits;
        total_misses = c.total_misses;
        total_sets = c.total_sets;
        total_evictions = c.total_evictions;
        hit_ratio =
            if ltb_ℤ (pos 0) asked
            then div (f.of_int c.total_hits) (f.of_int asked)
            else f.of_int (pos 0);
        shard_count = pos (length c.shards);
        shard_stats = map stats_of c.shards;
      }

-- The hits, the misses and the sets of a history since the last `Clear`.
pub record Tally : Type 0 where
  pub hits : ℕ
  pub misses : ℕ
  pub sets : ℕ

abbrev pub zero_tally : Tally
zero_tally = record { hits = 0; misses = 0; sets = 0 }

abbrev pub count_call : Tally → ShardCall → Option CacheEntry → Tally
count_call t (get key now) none = record t { misses = t.misses + 1 }
count_call t (get key now) (some entry) = record t { hits = t.hits + 1 }
count_call t (set key entry ttl now) answer = record t { sets = t.sets + 1 }
count_call t (delete key) answer = t
count_call t clear answer = zero_tally

pub tally : Tally → List ShardCall → List (Option CacheEntry) → Tally
tally t [] answers = t
tally t (call ∷ calls) [] = t
tally t (call ∷ calls) (answer ∷ answers) = tally (count_call t call answer) calls answers

record Counts (n : ℕ) (c : OptimizedCache) (t : Tally) : Type 0 where
  hits : c.total_hits ≡ pos t.hits
  misses : c.total_misses ≡ pos t.misses
  sets : c.total_sets ≡ pos t.sets
  few : t.hits + t.misses + t.sets < n

module _ (f : Float) (eviction_threshold : f.float64) (hash : String → ℕ) where
  counted-Counts :
      (n : ℕ) (c : OptimizedCache) (t : Tally) (key : String) (now : ℤ) (o : Option CacheEntry)
      → n < 9223372036854775808
      → Counts n c t
      → Counts (n + 1) (counted f eviction_threshold hash c o) (count_call t (get key now) o)
  counted-Counts n c t key now none r k =
      let few = k.few in
      record {
        hits = k.hits;
        misses = ap (λ m. add64 m (pos 1)) k.misses ∙ add64_pos t.misses 1 (omega arith);
        sets = k.sets;
        few = omega arith;
      }
  counted-Counts n c t key now (some entry) r k =
      let few = k.few in
      record {
        hits = ap (λ m. add64 m (pos 1)) k.hits ∙ add64_pos t.hits 1 (omega arith);
        misses = k.misses;
        sets = k.sets;
        few = omega arith;
      }

  call-Counts :
      (n : ℕ) (c : OptimizedCache) (t : Tally) (call : ShardCall)
      → n < 9223372036854775808
      → Counts n c t
      → Counts
          (n + 1)
          (cache_call f eviction_threshold hash c call).0
          (count_call t call (cache_call f eviction_threshold hash c call).1)
  unfolding klayengo.Cache.Optimized.Calls.get put_shard set_entry delete_entry
      klayengo.Cache.Optimized.Calls.clear
  call-Counts n c t (get key now) r k =
      let (s, found) = get_in (get_shard f eviction_threshold hash c key) key now in
      counted-Counts n (put_shard f eviction_threshold hash c key s) t key now found r
        (record { hits = k.hits; misses = k.misses; sets = k.sets; few = k.few })
  call-Counts n c t (set key entry ttl now) r k =
      let few = k.few in
      record {
        hits = k.hits;
        misses = k.misses;
        sets = ap (λ m. add64 m (pos 1)) k.sets ∙ add64_pos t.sets 1 (omega arith);
        few = omega arith;
      }
  call-Counts n c t (delete key) r k =
      let few = k.few in
      record { hits = k.hits; misses = k.misses; sets = k.sets; few = omega arith }
  call-Counts n c t clear r k = record {
    hits = refl;
    misses = refl;
    sets = refl;
    few = omega arith;
  }

  run-Counts :
      (n : ℕ) (c : OptimizedCache) (t : Tally) (calls : List ShardCall)
      → n + length calls < 9223372036854775809
      → Counts n c t
      → Counts
          (n + length calls)
          (cache_run f eviction_threshold hash c calls).0
          (tally t calls (cache_run f eviction_threshold hash c calls).1)
  unfolding cache_run tally
  run-Counts n c t [] r k = subst (λ n. Counts n c t) (omega arith) k
  run-Counts n c t (call ∷ calls) r k =
      let next = (cache_call f eviction_threshold hash c call).0 in
      let answer = (cache_call f eviction_threshold hash c call).1 in
      let rest = cache_run f eviction_threshold hash next calls in
      subst (λ n. Counts n rest.0 (tally (count_call t call answer) calls rest.1)) (omega arith)
        (run-Counts (n + 1) next (count_call t call answer) calls (omega arith)
          (call-Counts n c t call (omega arith) k))

  -- After any history of fewer than 2^63 calls on a new cache, `GetStats` gives as its totals the number of
  -- `Get` calls of the history, since its last `Clear`, that were answered with an entry, the number of those
  -- that were not, and the number of `Set` calls.
  pub get_stats-tally :
      (div : f.float64 → f.float64 → f.float64) (num_cpu : ℕ) (shard_count max_size : ℤ)
      (calls : List ShardCall)
      → length calls < 9223372036854775808
      → let run =
          cache_run f eviction_threshold hash
            (new_optimized_cache_with_size num_cpu shard_count max_size)
            calls in
        let stats = get_stats f div run.0 in
        let t = tally zero_tally calls run.1 in
        (stats.total_hits ≡ pos t.hits)
        × (stats.total_misses ≡ pos t.misses)
        × (stats.total_sets ≡ pos t.sets)
  unfolding get_stats new_optimized_cache_with_size
  get_stats-tally div num_cpu shard_count max_size calls r =
      let k =
        run-Counts 1 (new_optimized_cache_with_size num_cpu shard_count max_size) zero_tally calls
          (omega arith) (record { hits = refl; misses = refl; sets = refl; few = omega arith }) in
      (k.hits, k.misses, k.sets)
