-- ===== src/Cache/Optimized.antt =====
-- The optimized cache of cache_optimized.go: shards with a store, and a doubly linked list of their
-- entries, the newest first. Entries are shared by pointer and stand in the shard's heap. The hash, the
-- number of processors and the multiplication of the eviction threshold are parameters; each call runs
-- alone, so a compare-and-swap succeeds at once.
pub mod Calls
pub mod Lru
pub mod Sharded
pub mod Stats
mod Examples
use Prim.Native.Nat.{bit_and, bit_or}
use klayengo.Prelude.{
  ℕ, suc, ◌+◌, ◌-◌, ◌*◌, ◌/◌, ◌%◌, Bool, true, false, if◌then◌else◌, String, Option, none, some,
  List, [], ◌∷◌, set, length, replicate, map, leb, ◌==◌ as nat_eq,
}
use klayengo.Prelude.Int.{ℤ, pos, pos_part, ◌+ℤ◌, ltb_ℤ, leb_ℤ}
use klayengo.Prelude.Int64.{add64, sub64}
use klayengo.Prelude.Assoc.{lookup, insert, delete}
use klayengo.Http.{Header, Response}
use klayengo.HttpCache.{CacheEntry}

-- `is_stale` and `hot_promoted` are the atomic Booleans.
pub record OptimizedCacheEntry : Type 0 where
  pub key : String
  pub response : Option Response
  pub body : List ℕ
  pub header : Header
  pub expires_at : ℤ
  pub etag : String
  pub last_modified : Option ℤ
  pub max_age : Option ℤ
  pub stale_at : ℤ
  pub is_stale : Bool
  pub prev : Option ℕ
  pub next : Option ℕ
  pub access_count : ℤ
  pub last_access : ℤ
  pub hot_promoted : Bool

pub record OptimizedCacheShard : Type 0 where
  pub store : List (String × ℕ)
  pub head : Option ℕ
  pub tail : Option ℕ
  pub hits : ℤ
  pub misses : ℤ
  pub evictions : ℤ
  pub size : ℤ
  pub max_size : ℤ
  pub heap : ℕ → OptimizedCacheEntry
  pub free : ℕ

pub record OptimizedCache : Type 0 where
  pub shards : List OptimizedCacheShard
  pub num_shards : ℕ
  pub shard_mask : ℕ
  pub total_hits : ℤ
  pub total_misses : ℤ
  pub total_sets : ℤ
  pub total_evictions : ℤ

abbrev pub blank : OptimizedCacheEntry
blank = record {
  key = "";
  response = none;
  body = [];
  header = [];
  expires_at = pos 0;
  etag = "";
  last_modified = none;
  max_age = none;
  stale_at = pos 0;
  is_stale = false;
  prev = none;
  next = none;
  access_count = pos 0;
  last_access = pos 0;
  hot_promoted = false;
}

abbrev pub empty_shard : ℤ → OptimizedCacheShard
empty_shard max_size = record {
  store = [];
  head = none;
  tail = none;
  hits = pos 0;
  misses = pos 0;
  evictions = pos 0;
  size = pos 0;
  max_size = max_size;
  heap = λ p. blank;
  free = 0;
}

-- `n |= n >> k`, for `2 ^ k` as `d`.
abbrev smear : ℕ → ℕ → ℕ
smear n d = bit_or n (n / d)

unfoldable pub next_power_of2 : ℤ → ℕ
next_power_of2 n =
    if leb_ℤ n (pos 1)
    then 1
    else smear (smear (smear (smear (smear (pos_part n - 1) 2) 4) 16) 256) 65536 + 1

-- `num_cpu` is runtime.NumCPU().
unfoldable pub new_optimized_cache_with_size : ℕ → ℤ → ℤ → OptimizedCache
unfolding next_power_of2
new_optimized_cache_with_size num_cpu shard_count max_size_per_shard =
    let wanted = if leb_ℤ shard_count (pos 0) then pos (num_cpu * 2) else shard_count in
    let max_size = if leb_ℤ max_size_per_shard (pos 0) then pos 1000 else max_size_per_shard in
    let n = next_power_of2 wanted in
    record {
      shards = replicate n (empty_shard max_size);
      num_shards = n;
      shard_mask = n - 1;
      total_hits = pos 0;
      total_misses = pos 0;
      total_sets = pos 0;
      total_evictions = pos 0;
    }

unfoldable pub new_optimized_cache : ℕ → OptimizedCache
unfolding new_optimized_cache_with_size
new_optimized_cache num_cpu = new_optimized_cache_with_size num_cpu (pos 64) (pos 1000)

pub write : (ℕ → OptimizedCacheEntry) → ℕ → OptimizedCacheEntry → ℕ → OptimizedCacheEntry
write heap p e q = if nat_eq q p then e else heap q

-- The entry behind a pointer that is not nil gets a new neighbour.
pub set_prev : Option ℕ → Option ℕ → (ℕ → OptimizedCacheEntry) → ℕ → OptimizedCacheEntry
unfolding write
set_prev none q heap = heap
set_prev (some p) q heap = write heap p (record (heap p) { prev = q })

pub set_next : Option ℕ → Option ℕ → (ℕ → OptimizedCacheEntry) → ℕ → OptimizedCacheEntry
unfolding write
set_next none q heap = heap
set_next (some p) q heap = write heap p (record (heap p) { next = q })

abbrev or_else : Option ℕ → Option ℕ → Option ℕ → Option ℕ
or_else none head new = new
or_else (some p) head new = head

pub add_to_lru_at : Option ℕ → OptimizedCacheShard → ℕ → OptimizedCacheShard
unfolding set_prev set_next
add_to_lru_at none s p = record s { head = some p; tail = some p }
add_to_lru_at (some h) s p = record s {
  heap = set_prev (some h) (some p) (set_next (some p) (some h) s.heap);
  head = some p;
}

unfoldable pub add_to_lru : OptimizedCacheShard → ℕ → OptimizedCacheShard
unfolding add_to_lru_at
add_to_lru s p = add_to_lru_at s.head s p

-- The neighbours of the entry are read again after the first of them has changed.
unfoldable pub remove_lru : OptimizedCacheShard → ℕ → OptimizedCacheShard
unfolding write set_prev set_next
remove_lru s p =
    let before = (s.heap p).prev in
    let heap1 = set_next before (s.heap p).next s.heap in
    let after = (heap1 p).next in
    let heap2 = set_prev after (heap1 p).prev heap1 in
    record s {
      head = or_else before s.head (s.heap p).next;
      tail = or_else after s.tail (heap1 p).prev;
      heap = write heap2 p (record (heap2 p) { prev = none; next = none });
    }

unfoldable pub promote_hot_entry : OptimizedCacheShard → ℕ → OptimizedCacheShard
unfolding write add_to_lru remove_lru
promote_hot_entry s p =
    if (s.heap p).hot_promoted
    then s
    else (let claimed = record s {
      heap = write s.heap p (record (s.heap p) { hot_promoted = true });
    } in
        let moved = add_to_lru (remove_lru claimed p) p in
        record moved { heap = write moved.heap p (record (moved.heap p) { hot_promoted = false }) })

pub evict_at : Option ℕ → OptimizedCacheShard → OptimizedCacheShard × Bool
unfolding delete remove_lru
evict_at none s = (s, false)
evict_at (some p) s =
    let deleted = record s { store = delete (s.heap p).key s.store } in
    let removed = remove_lru deleted p in
    (
      record removed {
        size = sub64 removed.size (pos 1);
        evictions = add64 removed.evictions (pos 1);
      },
      true,
    )

-- The shard, and whether an entry was evicted, which the cache counts.
unfoldable pub evict_lru : OptimizedCacheShard → OptimizedCacheShard × Bool
unfolding evict_at
evict_lru s = evict_at s.tail s
