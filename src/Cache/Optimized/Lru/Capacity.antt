-- ===== src/Cache/Optimized/Lru/Capacity.antt =====
-- The most keys that a shard holds after any history of calls.
use Prim.Native.Nat.{max}
use text.Mathlib.Text.{◌==◌}
use text.Mathlib.TextEquality.{eq_iff}
use klayengo.Prelude.{
  ℕ, suc, ◌+◌, ◌<◌, ◌≤◌, ◌≡◌, refl, ap, subst, ◌∙◌, String, Bool, true, false, ◌||◌, Option, none,
  some, List, [], ◌∷◌, length, is_some, arith,
}
use klayengo.Prelude.Int.{ℤ, pos_part}
use klayengo.Prelude.Assoc.{lookup}
use klayengo.Cache.Optimized.{OptimizedCacheShard, empty_shard}
use klayengo.Cache.Optimized.Lru.{Item, Lru, find_item, remove_item, lru_get, lru_delete}
use klayengo.Cache.Optimized.Lru.Represents.{Represents, Found-find_item, lookup-Found}
use klayengo.Cache.Optimized.Lru.Runs.{
  ShardCall, get, set, delete, clear, lru_call, lru_run, empty_lru, shard_run, shard_run-lru,
}
use klayengo.Cache.Optimized.Lru.Bounds.{
  Counted, get_found-Counted, drop_found-Counted, lru_set-Counted, length-remove_item,
}

later : (bound n : ℕ) (l : Lru) → Counted bound n l → Counted bound (n + 1) l
later bound n l c = record {
  count = c.count;
  size = c.size;
  few = c.few;
  made = let made = c.made in omega arith;
  bounded = c.bounded;
}

module _ (threshold : ℤ) (bound : ℕ) (some_room : 0 < bound)
    (enough : pos_part threshold ≤ bound) where
  lru_call-Counted :
      (n : ℕ) (l : Lru) (call : ShardCall)
      → n + 1 < 9223372036854775808
      → Counted bound n l
      → Counted bound (n + 1) (lru_call threshold l call).0
  unfolding lru_get lru_delete
  lru_call-Counted n l (get key now) r c =
      later bound n (lru_get l key now).0
        (get_found-Counted bound n l key now (find_item key l.items) c refl)
  lru_call-Counted n l (set key entry ttl now) r c =
      lru_set-Counted threshold bound n l _ r some_room enough c
  lru_call-Counted n l (delete key) r c =
      later bound n (lru_delete l key)
        (drop_found-Counted bound n l key (find_item key l.items) (omega arith) c refl).0
  lru_call-Counted n l clear r c = record {
    count = 0;
    size = refl;
    few = omega arith;
    made = omega arith;
    bounded = omega arith;
  }

  lru_run-Counted :
      (n : ℕ) (l : Lru) (calls : List ShardCall)
      → n + length calls < 9223372036854775808
      → Counted bound n l
      → Counted bound (n + length calls) (lru_run threshold l calls).0
  unfolding lru_run
  lru_run-Counted n l [] r c = subst (λ n. Counted bound n l) (omega arith) c
  lru_run-Counted n l (call ∷ calls) r c =
      subst (λ n. Counted bound n (lru_run threshold l (call ∷ calls)).0) (omega arith)
        (lru_run-Counted (n + 1) (lru_call threshold l call).0 calls (omega arith)
          (lru_call-Counted n l call (omega arith) c))

-- Different keys.
abbrev pub among : String → List String → Bool
among k [] = false
among k (k' ∷ keys) = k == k' || among k keys

abbrev pub Distinct : List String → Type 0
Distinct [] = Unit
Distinct (k ∷ keys) = (among k keys ≡ false) × Distinct keys

-- Every one of the keys is in the store.
abbrev pub Holds : List (String × ℕ) → List String → Type 0
Holds store [] = Unit
Holds store (k ∷ keys) = (is_some (lookup k store) ≡ true) × Holds store keys

abbrev Listed : List Item → List String → Type 0
Listed items [] = Unit
Listed items (k ∷ keys) = (is_some (find_item k items) ≡ true) × Listed items keys

find-remove_item :
    (gone k : String) (items : List Item)
    → (gone == k) ≡ false
    → find_item k (remove_item gone items) ≡ find_item k items
unfolding find_item remove_item
find-remove_item gone k [] h = refl
find-remove_item gone k (d ∷ items) h =
    ground
      (arith, h, find-remove_item gone k items h, eq_iff d.key k, eq_iff d.key gone, eq_iff gone k)

remove-Listed :
    (gone : String) (items : List Item) (keys : List String)
    → among gone keys ≡ false
    → Listed items keys
    → Listed (remove_item gone items) keys
remove-Listed gone items [] out h = tt
remove-Listed gone items (k ∷ keys) out (at, h) = (
  ap is_some (find-remove_item gone k items (ground (arith, out))) ∙ at,
  remove-Listed gone items keys (ground (arith, out)) h,
)

length-remove_found :
    (k : String) (items : List Item) (o : Option Item)
    → find_item k items ≡ o
    → is_some o ≡ true
    → suc (length (remove_item k items)) ≡ length items
length-remove_found k items none h i = absurd (cc (i))
length-remove_found k items (some d) h i = length-remove_item k d items h

Listed-length :
    (items : List Item) (keys : List String)
    → Distinct keys
    → Listed items keys
    → length keys ≤ length items
Listed-length items [] distinct h = omega arith
Listed-length items (k ∷ keys) (out, distinct) (at, h) =
    let rest =
      Listed-length (remove_item k items) keys distinct (remove-Listed k items keys out h) in
    let shorter = length-remove_found k items (find_item k items) refl at in omega arith

module _ (s : OptimizedCacheShard) (l : Lru) (r : Represents s l) where
  find-lookup :
      (k : String) (o : Option ℕ)
      → lookup k s.store ≡ o
      → is_some o ≡ true
      → is_some (find_item k l.items) ≡ true
  find-lookup k none h i = absurd (cc (i))
  find-lookup k (some p) h i = ap is_some (Found-find_item s l k p (lookup-Found s l k r p h))

  Holds-Listed : (keys : List String) → Holds s.store keys → Listed l.items keys
  Holds-Listed [] h = tt
  Holds-Listed (k ∷ keys) (at, h) = (find-lookup k (lookup k s.store) refl at, Holds-Listed keys h)

-- After any history of fewer than 2^63 calls on a new shard, the store holds no more different keys than
-- the eviction threshold, or one key where the threshold is below one; whether or not the size counter has
-- gone ahead of the number of entries, as it does when `Get` drops an expired one.
pub shard_run-capacity :
    (threshold max_size : ℤ) (calls : List ShardCall) (keys : List String)
    → length calls < 9223372036854775808
    → Distinct keys
    → Holds (shard_run threshold (empty_shard max_size) calls).0.store keys
    → length keys ≤ max 1 (pos_part threshold)
shard_run-capacity threshold max_size calls keys r distinct holds =
    let (represents, answers) = shard_run-lru threshold max_size calls in
    let s = (shard_run threshold (empty_shard max_size) calls).0 in
    let l = (lru_run threshold empty_lru calls).0 in
    let few = Listed-length l.items keys distinct (Holds-Listed s l represents keys holds) in
    let counted =
      lru_run-Counted threshold (max 1 (pos_part threshold)) (omega arith) (omega arith) 0 empty_lru
        calls (omega arith)
        (record {
          count = 0;
          size = refl;
          few = omega arith;
          made = omega arith;
          bounded = omega arith;
        }) in
    let bounded = counted.bounded in omega arith
