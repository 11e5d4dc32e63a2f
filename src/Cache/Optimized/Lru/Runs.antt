-- ===== src/Cache/Optimized/Lru/Runs.antt =====
-- Histories of calls on one shard, against the list that it stands for.
use klayengo.Prelude.{◌≡◌, refl, ap, ◌∙◌, String, Option, none, List, [], ◌∷◌}
use klayengo.Prelude.Int.{ℤ, pos}
use klayengo.Prelude.Assoc.{lookup}
use klayengo.HttpCache.{CacheEntry}
use klayengo.Cache.Optimized.{OptimizedCacheShard, empty_shard}
use klayengo.Cache.Optimized.Calls.{get_in, set_in, delete_in, clear_in, entry_of}
use klayengo.Cache.Optimized.Lru.{Lru, item_of, lru_get, lru_set, lru_delete}
use klayengo.Cache.Optimized.Lru.Represents.{Represents}
use klayengo.Cache.Optimized.Lru.Steps.{set_in-Represents, delete_in-Represents}
use klayengo.Cache.Optimized.Lru.Gets.{Answers, get_in-Answers}

pub data ShardCall : Type 0 where
  get : String → ℤ → ShardCall
  set : String → CacheEntry → ℤ → ℤ → ShardCall
  delete : String → ShardCall
  clear : ShardCall

abbrev pub shard_call :
    ℤ → OptimizedCacheShard → ShardCall → OptimizedCacheShard × Option CacheEntry
shard_call threshold s (get key now) = get_in s key now
shard_call threshold s (set key entry ttl now) =
    ((set_in threshold s key (entry_of key entry ttl now)).0, none)
shard_call threshold s (delete key) = (delete_in s key, none)
shard_call threshold s clear = (clear_in s, none)

abbrev pub empty_lru : Lru
empty_lru = record { items = []; size = pos 0 }

abbrev pub lru_call : ℤ → Lru → ShardCall → Lru × Option CacheEntry
lru_call threshold l (get key now) = lru_get l key now
lru_call threshold l (set key entry ttl now) =
    (lru_set threshold l (item_of (entry_of key entry ttl now)), none)
lru_call threshold l (delete key) = (lru_delete l key, none)
lru_call threshold l clear = (empty_lru, none)

-- The state after the calls, and the answer to each of them, that of a call other than `Get` being none.
unfoldable pub shard_run :
    ℤ → OptimizedCacheShard → List ShardCall → OptimizedCacheShard × List (Option CacheEntry)
shard_run threshold s [] = (s, [])
shard_run threshold s (call ∷ calls) =
    let (next, answer) = shard_call threshold s call in
    let (end, answers) = shard_run threshold next calls in (end, answer ∷ answers)

unfoldable pub lru_run : ℤ → Lru → List ShardCall → Lru × List (Option CacheEntry)
lru_run threshold l [] = (l, [])
lru_run threshold l (call ∷ calls) =
    let (next, answer) = lru_call threshold l call in
    let (end, answers) = lru_run threshold next calls in (end, answer ∷ answers)

pub empty-Represents : (s : OptimizedCacheShard) → Represents (clear_in s) empty_lru
unfolding lookup
empty-Represents s = record {
  cells = [];
  chain = record {
    back = tt;
    head = refl;
    tail = refl;
    nodup = tt;
    below = λ q i. absurd (cc (i));
  };
  agree = record { all = λ k. refl; kept = tt };
  items = refl;
  size = refl;
}

set-Represents :
    (threshold : ℤ) (s : OptimizedCacheShard) (l : Lru) (key : String) (entry : CacheEntry)
    (ttl now : ℤ)
    → Represents s l
    → Represents
        (set_in threshold s key (entry_of key entry ttl now)).0
        (lru_set threshold l (item_of (entry_of key entry ttl now)))
unfolding entry_of
set-Represents threshold s l key entry ttl now r =
    set_in-Represents threshold s l (item_of (entry_of key entry ttl now)) r

pub shard_call-Answers :
    (threshold : ℤ) (s : OptimizedCacheShard) (l : Lru) (call : ShardCall)
    → Represents s l
    → Answers (shard_call threshold s call) (lru_call threshold l call)
shard_call-Answers threshold s l (get key now) r = get_in-Answers s l key now r
shard_call-Answers threshold s l (set key entry ttl now) r =
    (set-Represents threshold s l key entry ttl now r, refl)
shard_call-Answers threshold s l (delete key) r = (delete_in-Represents s l key r, refl)
shard_call-Answers threshold s l clear r = (empty-Represents s, refl)

pub run-Represents :
    (threshold : ℤ) (s : OptimizedCacheShard) (l : Lru) (calls : List ShardCall)
    → Represents s l
    → Represents (shard_run threshold s calls).0 (lru_run threshold l calls).0
      × ((shard_run threshold s calls).1 ≡ (lru_run threshold l calls).1)
unfolding shard_run lru_run
run-Represents threshold s l [] r = (r, refl)
run-Represents threshold s l (call ∷ calls) r =
    let (next, answer) = shard_call-Answers threshold s l call r in
    let (end, answers) =
      run-Represents threshold (shard_call threshold s call).0 (lru_call threshold l call).0 calls
        next in
    (
      end,
      ap (λ a. a ∷ (shard_run threshold (shard_call threshold s call).0 calls).1) answer
          ∙ ap (λ rest. (lru_call threshold l call).1 ∷ rest) answers,
    )

-- Every history of calls on a new shard gives the answers of the list of its items, where a `Set` and every
-- tenth use bring an item to the front and a `Set` at the threshold drops the last item, and leaves the shard standing for that list: its entries are linked
-- in both directions in the list's order between the head and the tail, no entry twice, the store has the
-- key of each item and no other key, and the size is the list's counter.
pub shard_run-lru :
    (threshold max_size : ℤ) (calls : List ShardCall)
    → Represents
        (shard_run threshold (empty_shard max_size) calls).0
        (lru_run threshold empty_lru calls).0
      × ((shard_run threshold (empty_shard max_size) calls).1
          ≡ (lru_run threshold empty_lru calls).1)
shard_run-lru threshold max_size calls =
    run-Represents threshold (empty_shard max_size) empty_lru calls
      (empty-Represents (empty_shard max_size))
