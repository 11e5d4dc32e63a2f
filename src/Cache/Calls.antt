-- ===== src/Cache/Calls.antt =====
-- Histories of calls on the sharded cache.
use klayengo.Prelude.{ℕ, zero, suc, ◌<◌, ◌≡◌, refl, ap, String, none, List, [], ◌∷◌, length, arith}
use klayengo.Prelude.Int.{ℤ, ◌+ℤ◌}
use klayengo.Prelude.Assoc.{lookup, delete}
use klayengo.HttpCache.{CacheEntry}
use klayengo.Cache.{
  Store, InMemoryCache, new_in_memory_cache, store_at, shard_index, get_shard, get, set_entry,
  set_new, write, delete_entry, cleared, clear,
}
use klayengo.Cache.Laws.{IsWell, pointer, put_shard-IsWell, index_in_range}

module _ (hash : String → ℕ) where
  pub get-IsWell :
      (c : InMemoryCache) (k : String) (now : ℤ) → IsWell c → IsWell (get hash c k now).0
  unfolding get
  get-IsWell c k now w = ground (arith, put_shard-IsWell hash c k (delete k (get_shard hash c k)) w)

  write-IsWell : (c : InMemoryCache) (p : ℕ) (e : CacheEntry) → IsWell c → IsWell (write c p e)
  unfolding write
  write-IsWell c p e w = record { some_shard = w.some_shard; counted = w.counted }

  set_entry-IsWell :
      (c : InMemoryCache) (k : String) (p : ℕ) (ttl now : ℤ)
      → IsWell c
      → IsWell (set_entry hash c k p ttl now)
  unfolding set_entry
  set_entry-IsWell c k p ttl now w =
      put_shard-IsWell hash (write c p (record (c.entries p) { expires_at = now +ℤ ttl })) k _
        (write-IsWell c p _ w)

  set_new-IsWell :
      (c : InMemoryCache) (k : String) (e : CacheEntry) (ttl now : ℤ)
      → IsWell c
      → IsWell (set_new hash c k e ttl now)
  unfolding set_new
  set_new-IsWell c k e ttl now w =
      let room : InMemoryCache = record c { next = suc c.next } in
      set_entry-IsWell (write room c.next e) k c.next ttl now
        (write-IsWell room c.next e (record { some_shard = w.some_shard; counted = w.counted }))

  delete_entry-IsWell : (c : InMemoryCache) (k : String) → IsWell c → IsWell (delete_entry hash c k)
  unfolding delete_entry
  delete_entry-IsWell c k w = put_shard-IsWell hash c k _ w

length-cleared : (ss : List Store) → length (cleared ss) ≡ length ss
unfolding cleared
length-cleared [] = refl
length-cleared (s ∷ ss) = ap suc (length-cleared ss)

clear-IsWell : (c : InMemoryCache) → IsWell c → IsWell (clear c)
unfolding clear
clear-IsWell c w = omega (arith, length-cleared c.shards)

store_at-cleared : (ss : List Store) (i : ℕ) → store_at (cleared ss) i ≡ []
unfolding cleared store_at
store_at-cleared [] i = refl
store_at-cleared (s ∷ ss) zero = refl
store_at-cleared (s ∷ ss) (suc i) = store_at-cleared ss i

-- The calls of the cache, each with what it is given: `sets` a pointer, `sets_new` an entry that the
-- caller has just made.
pub data Call : Type 0 where
  gets : String → ℤ → Call
  sets : String → ℕ → ℤ → ℤ → Call
  sets_new : String → CacheEntry → ℤ → ℤ → Call
  deletes : String → Call
  clears : Call

pub step : (String → ℕ) → InMemoryCache → Call → InMemoryCache
step hash c (gets k now) = (get hash c k now).0
step hash c (sets k p ttl now) = set_entry hash c k p ttl now
step hash c (sets_new k e ttl now) = set_new hash c k e ttl now
step hash c (deletes k) = delete_entry hash c k
step hash c clears = clear c

pub run : (String → ℕ) → InMemoryCache → List Call → InMemoryCache
run hash c [] = c
run hash c (x ∷ xs) = run hash (step hash c x) xs

step-IsWell : (hash : String → ℕ) (c : InMemoryCache) (x : Call) → IsWell c → IsWell (step hash c x)
unfolding step
step-IsWell hash c (gets k now) w = get-IsWell hash c k now w
step-IsWell hash c (sets k p ttl now) w = set_entry-IsWell hash c k p ttl now w
step-IsWell hash c (sets_new k e ttl now) w = set_new-IsWell hash c k e ttl now w
step-IsWell hash c (deletes k) w = delete_entry-IsWell hash c k w
step-IsWell hash c clears w = clear-IsWell c w

run-IsWell :
    (hash : String → ℕ) (c : InMemoryCache) (xs : List Call) → IsWell c → IsWell (run hash c xs)
unfolding run
run-IsWell hash c [] w = w
run-IsWell hash c (x ∷ xs) w = run-IsWell hash (step hash c x) xs (step-IsWell hash c x w)

new-IsWell : IsWell new_in_memory_cache
unfolding new_in_memory_cache
new-IsWell = omega arith

pointer-clear :
    (hash : String → ℕ) (c : InMemoryCache) (k : String) → pointer hash (clear c) k ≡ none
unfolding get_shard clear lookup
pointer-clear hash c k = ap (lookup k) (store_at-cleared c.shards (shard_index hash c k))

get-clear :
    (hash : String → ℕ) (c : InMemoryCache) (k : String) (now : ℤ)
    → (get hash (clear c) k now).1 ≡ none
unfolding get
get-clear hash c k now = ground (arith, pointer-clear hash c k)

-- After any history of calls on a new cache the shard of every key exists, so that `getShard` never
-- indexes out of range; and a `Clear` leaves nothing to be found.
pub run-new-IsWell :
    (hash : String → ℕ) (xs : List Call) (key : String) (now : ℤ)
    → let c = run hash new_in_memory_cache xs in
      (shard_index hash c key < length c.shards) × ((get hash (clear c) key now).1 ≡ none)
run-new-IsWell hash xs key now =
    let c = run hash new_in_memory_cache xs in
    (
      index_in_range hash c key (run-IsWell hash new_in_memory_cache xs new-IsWell),
      get-clear hash c key now,
    )
