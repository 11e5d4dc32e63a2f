-- ===== src/Client/Requests/Whole/Memory.antt =====
-- The in-memory cache of cache.go is a cache that a set entry is found in until it expires.
use klayengo.Prelude.{ℕ, String}
use klayengo.Cache.Laws.{IsWell, get-set_new}
use klayengo.Cache.Calls.{get-IsWell}
use klayengo.Provider.Stale.{in_memory}
use klayengo.Client.Requests.Whole.Storing.{Caching}

abbrev pub in_memory_caching : (hash : String → ℕ) → Caching (in_memory hash)
in_memory_caching hash = record {
  IsValid = IsWell;
  get-IsValid = get-IsWell hash;
  get-set = get-set_new hash;
}
