-- ===== src/Cache/Optimized/Calls.antt =====
-- `Get`, `Set`, `Delete` and `Clear` of cache_optimized.go, and its provider.
pub mod Stored
use Prim.Native.Nat.{bit_and}
use klayengo.Prelude.{
  ℕ, suc, ◌+◌, ◌%◌, Bool, true, false, if◌then◌else◌, String, Option, none, some, List, [], ◌∷◌,
  set, get_elem?, map, ◌==◌ as nat_eq,
}
use klayengo.Prelude.Int.{ℤ, pos, negsuc, ◌+ℤ◌, ltb_ℤ, leb_ℤ}
use klayengo.Prelude.Int64.{add64, sub64, wrap64}
use klayengo.Prelude.Assoc.{lookup, insert, delete}
use klayengo.Http.{Response}
use klayengo.Backoff.{Float}
use klayengo.HttpCache.{CacheEntry, zero_time}
use klayengo.Cache.Optimized.{
  OptimizedCacheEntry, OptimizedCacheShard, OptimizedCache, empty_shard, write, add_to_lru,
  remove_lru, promote_hot_entry, evict_lru,
}

-- An index out of range would be a fault of the program; a mask below the number of shards excludes it.
unfoldable pub shard_at : List OptimizedCacheShard → ℕ → OptimizedCacheShard
shard_at shards i = elim (get_elem? shards i) [ none ↦ empty_shard (pos 0) | some s ↦ s ]

abbrev pub status_of : Option Response → ℤ
status_of none = pos 200
status_of (some resp) = resp.status_code

-- What `Get` copies.
abbrev pub copy_of : OptimizedCacheEntry → CacheEntry
copy_of e = record {
  response = none;
  body = e.body;
  status_code = status_of e.response;
  header = e.header;
  expires_at = e.expires_at;
  etag = e.etag;
  last_modified = e.last_modified;
  max_age = e.max_age;
  stale_at = none;
  is_stale = e.is_stale;
}

-- `n % 10 == 0`.
abbrev pub is_tenth : ℤ → Bool
is_tenth (pos n) = nat_eq (n % 10) 0
is_tenth (negsuc n) = nat_eq (suc n % 10) 0

-- A hit of the entry behind `p`.
unfoldable pub hit : OptimizedCacheShard → ℕ → ℤ → OptimizedCacheShard × Option CacheEntry
unfolding write promote_hot_entry
hit s p now =
    let e = s.heap p in
    let e' = record e { access_count = add64 e.access_count (pos 1); last_access = now } in
    let seen = record s { heap = write s.heap p e' } in
    let moved = if is_tenth e'.access_count then promote_hot_entry seen p else seen in
    (record moved { hits = add64 moved.hits (pos 1) }, some (copy_of e'))

abbrev pub missed : OptimizedCacheShard → OptimizedCacheShard × Option CacheEntry
missed s = (record s { misses = add64 s.misses (pos 1) }, none)

-- An expired entry leaves the store and the list; the size stays as it is.
unfoldable pub get_at :
    Option ℕ → OptimizedCacheShard → String → ℤ → OptimizedCacheShard × Option CacheEntry
unfolding hit remove_lru delete
get_at none s key now = missed s
get_at (some p) s key now =
    if ltb_ℤ (s.heap p).expires_at now
    then missed (remove_lru (record s { store = delete key s.store }) p)
    else hit s p now

unfoldable pub get_in : OptimizedCacheShard → String → ℤ → OptimizedCacheShard × Option CacheEntry
unfolding get_at lookup
get_in s key now = get_at (lookup key s.store) s key now

abbrev pub response_of : CacheEntry → Option Response → Option Response
response_of entry none = some (record {
  status_code = entry.status_code;
  header = entry.header;
  body = none;
  request_method = none;
})
response_of entry (some resp) = some resp

-- `UnixNano` of a time.
abbrev time_of : Option ℤ → ℤ
time_of none = pos 0
time_of (some t) = wrap64 t

-- The entry that `Set` makes; its expiry is an int64 of nanoseconds, which wraps around.
unfoldable pub entry_of : String → CacheEntry → ℤ → ℤ → OptimizedCacheEntry
entry_of key entry ttl now = record {
  key = key;
  response = response_of entry entry.response;
  body = entry.body;
  header = entry.header;
  expires_at = add64 now ttl;
  etag = entry.etag;
  last_modified = entry.last_modified;
  max_age = entry.max_age;
  stale_at = time_of entry.stale_at;
  is_stale = false;
  prev = none;
  next = none;
  access_count = pos 1;
  last_access = now;
  hot_promoted = false;
}

-- The entry behind the pointer, if there is one, leaves the list and is no longer counted.
unfoldable pub drop_existing : Option ℕ → OptimizedCacheShard → OptimizedCacheShard
unfolding remove_lru
drop_existing none s = s
drop_existing (some p) s =
    let removed = remove_lru s p in record removed { size = sub64 removed.size (pos 1) }

unfoldable pub add_entry : OptimizedCacheShard → String → OptimizedCacheEntry → OptimizedCacheShard
unfolding write add_to_lru insert
add_entry s key e =
    let stored = record s {
      store = insert key s.free s.store;
      heap = write s.heap s.free e;
      free = s.free + 1;
    } in
    let added = add_to_lru stored s.free in record added { size = add64 added.size (pos 1) }

-- `threshold` is `int64(float64(shard.maxSize) * EvictionThreshold)`.
unfoldable pub set_in :
    ℤ → OptimizedCacheShard → String → OptimizedCacheEntry → OptimizedCacheShard × Bool
unfolding evict_lru drop_existing lookup add_entry
set_in threshold s key e =
    let (room, evicted) = if leb_ℤ threshold s.size then evict_lru s else (s, false) in
    (add_entry (drop_existing (lookup key room.store) room) key e, evicted)

unfoldable pub delete_at : Option ℕ → OptimizedCacheShard → String → OptimizedCacheShard
unfolding drop_existing delete
delete_at none s key = s
delete_at (some p) s key = drop_existing (some p) (record s { store = delete key s.store })

unfoldable pub delete_in : OptimizedCacheShard → String → OptimizedCacheShard
unfolding delete_at lookup
delete_in s key = delete_at (lookup key s.store) s key

abbrev pub clear_in : OptimizedCacheShard → OptimizedCacheShard
clear_in s = record s { store = []; head = none; tail = none; size = pos 0 }

unfoldable pub clear : OptimizedCache → OptimizedCache
clear c = record c {
  shards = map clear_in c.shards;
  total_hits = pos 0;
  total_misses = pos 0;
  total_sets = pos 0;
  total_evictions = pos 0;
}

module _ (f : Float) (eviction_threshold : f.float64) (hash : String → ℕ) where
  unfoldable pub shard_index : OptimizedCache → String → ℕ
  shard_index c key = bit_and (hash key) c.shard_mask

  unfoldable pub get_shard : OptimizedCache → String → OptimizedCacheShard
  unfolding shard_at shard_index
  get_shard c key = shard_at c.shards (shard_index c key)

  unfoldable pub put_shard : OptimizedCache → String → OptimizedCacheShard → OptimizedCache
  unfolding shard_index
  put_shard c key s = record c { shards = set c.shards (shard_index c key) s }

  abbrev pub counted : OptimizedCache → Option CacheEntry → OptimizedCache
  counted c none = record c { total_misses = add64 c.total_misses (pos 1) }
  counted c (some entry) = record c { total_hits = add64 c.total_hits (pos 1) }

  unfoldable pub get : OptimizedCache → String → ℤ → OptimizedCache × Option CacheEntry
  unfolding get_shard put_shard get_in
  get c key now =
      let (s, found) = get_in (get_shard c key) key now in
      (counted (put_shard c key s) found, found)

  abbrev pub threshold_of : ℤ → ℤ
  threshold_of max_size = f.to_duration (f.mul (f.of_int max_size) eviction_threshold)

  unfoldable pub set_entry : OptimizedCache → String → CacheEntry → ℤ → ℤ → OptimizedCache
  unfolding get_shard put_shard set_in entry_of
  set_entry c key entry ttl now =
      let old = get_shard c key in
      let (s, evicted) = set_in (threshold_of old.max_size) old key (entry_of key entry ttl now) in
      let c' = put_shard c key s in
      record c' {
        total_sets = add64 c'.total_sets (pos 1);
        total_evictions = if evicted then add64 c'.total_evictions (pos 1) else c'.total_evictions;
      }

  unfoldable pub delete_entry : OptimizedCache → String → OptimizedCache
  unfolding get_shard put_shard delete_in
  delete_entry c key = put_shard c key (delete_in (get_shard c key) key)

  -- The methods of `OptimizedCacheProvider`; `Get` leaves the body nil.
  unfoldable pub provider_get : OptimizedCache → String → ℤ → OptimizedCache × Option Response
  unfolding get
  provider_get c key now =
      let (c', found) = get c key now in
      (
        c',
        elim found [
          | none ↦ none
          | some entry ↦ some (record {
            status_code = entry.status_code;
            header = entry.header;
            body = none;
            request_method = none;
          })
        ],
      )

  unfoldable pub provider_set : OptimizedCache → String → Response → ℤ → ℤ → ℤ → OptimizedCache
  unfolding set_entry
  provider_set c key resp default_ttl ttl now =
      set_entry c key
        (record {
          response = none;
          body = [];
          status_code = resp.status_code;
          header = resp.header;
          expires_at = zero_time;
          etag = "";
          last_modified = none;
          max_age = none;
          stale_at = none;
          is_stale = false;
        })
        (if leb_ℤ ttl (pos 0) then default_ttl else ttl) now
