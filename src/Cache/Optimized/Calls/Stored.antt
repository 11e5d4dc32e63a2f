-- ===== src/Cache/Optimized/Calls/Stored.antt =====
-- What the optimized cache returns for a key that was set.
use text.Mathlib.TextPositions.{eq_refl}
use klayengo.Prelude.{
  ℕ, zero, suc, ◌+◌, ◌<◌, ◌≡◌, refl, ap, ◌∙◌, Bool, true, false, if◌then◌else◌, String, Option,
  none, some, List, [], ◌∷◌, set, length, arith,
}
use klayengo.Prelude.Int.{ℤ, ltb_ℤ}
use klayengo.Prelude.Assoc.{lookup, insert, lookup-insert}
use klayengo.Backoff.{Float}
use klayengo.Prelude.Int64.{add64}
use klayengo.Http.{Response}
use klayengo.HttpCache.{CacheEntry}
use klayengo.Cache.Optimized.{
  OptimizedCacheEntry, OptimizedCacheShard, OptimizedCache, write, set_prev, set_next, add_to_lru,
  add_to_lru_at,
}
use klayengo.Cache.Optimized.Calls.{
  shard_at, status_of, response_of, copy_of, get_at, get_in, hit, entry_of, add_entry, set_in,
  shard_index, get_shard, put_shard, get, set_entry, threshold_of,
}

set_prev-copy :
    (p q : Option ℕ) (heap : ℕ → OptimizedCacheEntry) (x : ℕ)
    → copy_of (set_prev p q heap x) ≡ copy_of (heap x)
unfolding set_prev write
set_prev-copy none q heap x = refl
set_prev-copy (some p) q heap x = ground arith

set_next-copy :
    (p q : Option ℕ) (heap : ℕ → OptimizedCacheEntry) (x : ℕ)
    → copy_of (set_next p q heap x) ≡ copy_of (heap x)
unfolding set_next write
set_next-copy none q heap x = refl
set_next-copy (some p) q heap x = ground arith

written :
    (heap : ℕ → OptimizedCacheEntry) (p : ℕ) (e : OptimizedCacheEntry)
    → copy_of (write heap p e p) ≡ copy_of e
unfolding write
written heap p e = ground arith

-- Linking an entry changes no copy.
add_to_lru_at-copy :
    (o : Option ℕ) (s : OptimizedCacheShard) (p x : ℕ)
    → copy_of ((add_to_lru_at o s p).heap x) ≡ copy_of (s.heap x)
unfolding add_to_lru_at
add_to_lru_at-copy none s p x = refl
add_to_lru_at-copy (some h) s p x =
    set_prev-copy (some h) (some p) (set_next (some p) (some h) s.heap) x
    ∙ set_next-copy (some p) (some h) s.heap x

add_to_lru_at-store :
    (o : Option ℕ) (s : OptimizedCacheShard) (p : ℕ) → (add_to_lru_at o s p).store ≡ s.store
unfolding add_to_lru_at
add_to_lru_at-store none s p = refl
add_to_lru_at-store (some h) s p = refl

hit-copy : (s : OptimizedCacheShard) (p : ℕ) (now : ℤ) → (hit s p now).1 ≡ some (copy_of (s.heap p))
unfolding hit
hit-copy s p now = refl

either :
    (b : Bool) (x y : OptimizedCacheShard × Option CacheEntry) (m : Option CacheEntry)
    → x.1 ≡ none
    → y.1 ≡ m
    → (if b then x else y).1 ≡ (if b then none else m)
either true x y m h i = h
either false x y m h i = i

get_at-copy :
    (s : OptimizedCacheShard) (p : ℕ) (key : String) (now : ℤ) (e : OptimizedCacheEntry)
    → copy_of (s.heap p) ≡ copy_of e
    → (get_at (some p) s key now).1 ≡ (if ltb_ℤ e.expires_at now then none else some (copy_of e))
unfolding get_at
get_at-copy s p key now e same =
    either (ltb_ℤ (s.heap p).expires_at now) _ (hit s p now) (some (copy_of (s.heap p))) refl
      (hit-copy s p now)
    ∙ ap {B = Option CacheEntry} (λ copy. if ltb_ℤ copy.expires_at now then none else some copy)
        same

get_in-add_entry :
    (s : OptimizedCacheShard) (key : String) (e : OptimizedCacheEntry) (now : ℤ)
    → (get_in (add_entry s key e) key now).1
      ≡ (if ltb_ℤ e.expires_at now then none else some (copy_of e))
unfolding get_in add_entry add_to_lru
get_in-add_entry s key e now =
    let stored = record s {
      store = insert key s.free s.store;
      heap = write s.heap s.free e;
      free = s.free + 1;
    } in
    let added = add_entry s key e in
    let found : lookup key added.store ≡ some s.free =
      ap (lookup key) (add_to_lru_at-store stored.head stored s.free)
      ∙ simp (lookup-insert, eq_refl) in
    let same : copy_of (added.heap s.free) ≡ copy_of e =
      add_to_lru_at-copy stored.head stored s.free s.free ∙ written s.heap s.free e in
    ap (λ o. (get_at o added key now).1) found ∙ get_at-copy added s.free key now e same

-- `Set` makes room, drops the old entry of the key, and adds the new one.
get_in-set_in :
    (threshold : ℤ) (s : OptimizedCacheShard) (key : String) (e : OptimizedCacheEntry) (now : ℤ)
    → (get_in (set_in threshold s key e).0 key now).1
      ≡ (if ltb_ℤ e.expires_at now then none else some (copy_of e))
unfolding set_in
get_in-set_in threshold s key e now = get_in-add_entry _ key e now

pub shard_at-set :
    (ss : List OptimizedCacheShard) (i : ℕ) (s : OptimizedCacheShard)
    → i < length ss
    → shard_at (set ss i s) i ≡ s
unfolding shard_at
shard_at-set [] i s h = elim h [ ]
shard_at-set (x ∷ ss) zero s h = refl
shard_at-set (x ∷ ss) (suc i) s h = shard_at-set ss i s (omega arith)

-- The status that `Get` copies from the response that `Set` stores.
copied_status :
    (entry : CacheEntry) (resp : Option Response)
    → status_of (response_of entry resp)
      ≡ elim resp [ none ↦ entry.status_code | some r ↦ r.status_code ]
copied_status entry none = refl
copied_status entry (some r) = refl

module _ (f : Float) (eviction_threshold : f.float64) (hash : String → ℕ) where
  -- After `Set` of an entry with a time to live, `Get` of the same key returns, up to the new expiry, the
  -- entry's body, headers, etag, modification time and maximal age, with the status of its response, or its
  -- own status where it has none, and nothing after that expiry, which is the sum of the clock's reading and
  -- the time to live, taken to 64 bits; whatever the shard held, whatever its size says and whatever `Set`
  -- evicted; for every hash and threshold, where the key's shard exists.
  pub get-set_entry_copy :
      (c : OptimizedCache) (key : String) (entry : CacheEntry) (ttl now later : ℤ)
      → shard_index f eviction_threshold hash c key < length c.shards
      → (get f eviction_threshold hash
          (set_entry f eviction_threshold hash c key entry ttl now)
          key
          later).1
        ≡ (if ltb_ℤ (add64 now ttl) later
            then none
            else some (record {
              response = none;
              body = entry.body;
              status_code = elim entry.response [
                | none ↦ entry.status_code
                | some resp ↦ resp.status_code
              ];
              header = entry.header;
              expires_at = add64 now ttl;
              etag = entry.etag;
              last_modified = entry.last_modified;
              max_age = entry.max_age;
              stale_at = none;
              is_stale = false;
            }))
  unfolding get set_entry put_shard get_shard shard_index entry_of
  get-set_entry_copy c key entry ttl now later inside =
      let old = get_shard f eviction_threshold hash c key in
      let threshold = threshold_of f eviction_threshold hash old.max_size in
      let e = entry_of key entry ttl now in
      ap (λ s. (get_in s key later).1)
        (shard_at-set c.shards (shard_index f eviction_threshold hash c key)
          (set_in threshold old key e).0 inside)
      ∙ get_in-set_in threshold old key e later
      ∙ ap
          (λ code.
            if ltb_ℤ (add64 now ttl) later
            then none
            else some (record (copy_of e) { status_code = code }))
          (copied_status entry entry.response)
