-- ===== src/Cache/Optimized/Sharded.antt =====
-- Histories of calls on the whole optimized cache, against one list for each shard.
pub mod Places
pub mod Shelved
pub mod Runs
use Prim.Native.Nat.{bit_and}
use klayengo.Prelude.{ℕ, String, Option, none, some, List, [], ◌∷◌, if◌then◌else◌, ◌==◌ as nat_eq}
use klayengo.Prelude.Int.{ℤ, pos}
use klayengo.Backoff.{Float}
use klayengo.HttpCache.{CacheEntry}
use klayengo.Cache.Optimized.{OptimizedCache}
use klayengo.Cache.Optimized.Lru.{Lru}
use klayengo.Cache.Optimized.Lru.Runs.{ShardCall, get, set, delete, clear, lru_call, empty_lru}

module _ (f : Float) (eviction_threshold : f.float64) (hash : String → ℕ) where
  abbrev pub cache_call : OptimizedCache → ShardCall → OptimizedCache × Option CacheEntry
  cache_call c (get key now) =
      klayengo.Cache.Optimized.Calls.get f eviction_threshold hash c key now
  cache_call c (set key entry ttl now) =
      (klayengo.Cache.Optimized.Calls.set_entry f eviction_threshold hash c key entry ttl now, none)
  cache_call c (delete key) =
      (klayengo.Cache.Optimized.Calls.delete_entry f eviction_threshold hash c key, none)
  cache_call c clear = (klayengo.Cache.Optimized.Calls.clear c, none)

  -- The cache after the calls, and the answer to each of them, that of a call other than `Get` being none.
  unfoldable pub cache_run :
      OptimizedCache → List ShardCall → OptimizedCache × List (Option CacheEntry)
  cache_run c [] = (c, [])
  cache_run c (call ∷ calls) =
      let (next, answer) = cache_call c call in
      let (end, answers) = cache_run next calls in (end, answer ∷ answers)

-- A list for each place.
abbrev pub Lrus : Type 0
Lrus = ℕ → Lru

abbrev pub put_lru : Lrus → ℕ → Lru → Lrus
put_lru ls i l j = if nat_eq j i then l else ls j

module _ (place : String → ℕ) (threshold : ℤ) where
  abbrev pub keyed_call : Lrus → String → ShardCall → Lrus × Option CacheEntry
  keyed_call ls key call =
      let (l, answer) = lru_call threshold (ls (place key)) call in
      (put_lru ls (place key) l, answer)

  -- A call goes to the list of its key's place, and `Clear` to all of them.
  abbrev pub lrus_call : Lrus → ShardCall → Lrus × Option CacheEntry
  lrus_call ls (get key now) = keyed_call ls key (get key now)
  lrus_call ls (set key entry ttl now) = keyed_call ls key (set key entry ttl now)
  lrus_call ls (delete key) = keyed_call ls key (delete key)
  lrus_call ls clear = ((λ i. empty_lru), none)

  unfoldable pub lrus_run : Lrus → List ShardCall → Lrus × List (Option CacheEntry)
  lrus_run ls [] = (ls, [])
  lrus_run ls (call ∷ calls) =
      let (next, answer) = lrus_call ls call in
      let (end, answers) = lrus_run next calls in (end, answer ∷ answers)
