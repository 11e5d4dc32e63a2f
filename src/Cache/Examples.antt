-- ===== src/Cache/Examples.antt =====
-- The theorems on the sharded cache, at a new cache of sixteen shards and a hash that is constant.
use klayengo.Prelude.{ℕ, ◌<◌, ◌≡◌, refl, none, some, List, [], ◌∷◌, String, arith, length, false}
use klayengo.Prelude.Int.{pos, ◌+ℤ◌}
use klayengo.Prelude.Assoc.{lookup, insert}
use klayengo.HttpCache.{CacheEntry}
use klayengo.Cache.{
  InMemoryCache, new_in_memory_cache, shard_index, get_shard, put_shard, get, set_entry, set_new,
  write, clear,
}
use klayengo.Cache.Laws.{IsWell, is_at, get-set_entry}
use klayengo.Cache.Calls.{Call, gets, sets, sets_new, deletes, run, run-new-IsWell}

abbrev hash : String → ℕ
hash key = 35

new_in_memory_cache-IsWell : IsWell new_in_memory_cache
unfolding new_in_memory_cache
new_in_memory_cache-IsWell = record { some_shard = omega arith; counted = refl }

abbrev entry : CacheEntry
entry = record {
  response = none;
  body = 7 ∷ [];
  status_code = pos 200;
  header = [];
  expires_at = pos 0;
  etag = "";
  last_modified = none;
  max_age = none;
  stale_at = none;
  is_stale = false;
}

-- A cache that has the one entry under "a", and the entry's pointer is 0.
abbrev filled : InMemoryCache
filled = set_new hash new_in_memory_cache "a" entry (pos 3) (pos 1)

filled-IsWell : IsWell filled
unfolding new_in_memory_cache set_new write set_entry put_shard
filled-IsWell = record { some_shard = omega arith; counted = refl }

-- The pointer is stored at 5 under "b" with a time to live of 10, and the entry that "a" has is found
-- at 12.
get-set_entry_example :
    (get hash (set_entry hash filled "b" 0 (pos 10) (pos 5)) "a" (pos 12)).1
    ≡ some (record entry { expires_at = pos 15 })
unfolding ◌+ℤ◌ new_in_memory_cache set_new write set_entry put_shard get_shard lookup insert is_at
get-set_entry_example = get-set_entry hash filled filled-IsWell "b" "a" (pos 12) 0 (pos 10) (pos 5)

abbrev history : List Call
history =
    sets_new "a" entry (pos 10) (pos 5)
    ∷ sets "b" 0 (pos 10) (pos 6)
    ∷ gets "a" (pos 30)
    ∷ deletes "b"
    ∷ []

run-new-IsWell_example :
    (shard_index hash (run hash new_in_memory_cache history) "a"
      < length (run hash new_in_memory_cache history).shards)
    × ((get hash (clear (run hash new_in_memory_cache history)) "a" (pos 6)).1 ≡ none)
run-new-IsWell_example = run-new-IsWell hash history "a" (pos 6)
