-- ===== src/Cache/Optimized/Sharded/Places.antt =====
-- The shards of the optimized cache by their places: the mask keeps each key's shard in range, and a shard
-- keeps its largest size.
use Prim.Native.Nat.{bit_and, bit_and-bitwise, digits, min, ◌/◌}
use klayengo.Prelude.{
  ℕ, zero, suc, ◌<◌, ◌≤◌, ◌≡◌, refl, sym, ap, ◌∙◌, subst, String, Bool, true, false, if◌then◌else◌,
  Option, none, some, List, [], ◌∷◌, map, set, length, replicate, arith, ◌==◌ as nat_eq,
}
use klayengo.Prelude.Int.{ℤ, pos, ltb_ℤ, leb_ℤ}
use klayengo.Cache.Optimized.{
  OptimizedCacheEntry, OptimizedCacheShard, empty_shard, add_to_lru_at, add_to_lru, remove_lru,
  promote_hot_entry, evict_at, evict_lru,
}
use klayengo.Cache.Optimized.Calls.{
  shard_at, clear_in, hit, is_tenth, missed, get_at, get_in, drop_existing, add_entry, set_in,
  delete_at, delete_in,
}
use klayengo.Cache.Optimized.Lru.Uses.{seen_at}
use klayengo.HttpCache.{CacheEntry}
use klayengo.Prelude.Int64.{add64}
use klayengo.Prelude.Assoc.{lookup, delete}

digits-le : (n a b : ℕ) → digits (λ b. zero) min n a b ≤ b
digits-le zero a b = omega arith
digits-le (suc n) zero b = omega arith
digits-le (suc n) (suc a) b = let h = digits-le n (suc a / 2) (b / 2) in omega arith

pub bit_and-le : (a b : ℕ) → bit_and a b ≤ b
bit_and-le a b = subst (λ x. x ≤ b) (sym (bit_and-bitwise a b)) (digits-le a a b)

pub shard_at-put :
    (ss : List OptimizedCacheShard) (i j : ℕ) (s : OptimizedCacheShard)
    → i < length ss
    → shard_at (set ss i s) j ≡ (if nat_eq j i then s else shard_at ss j)
unfolding shard_at
shard_at-put [] i j s h = absurd (omega arith)
shard_at-put (x ∷ ss) zero zero s h = refl
shard_at-put (x ∷ ss) zero (suc j) s h = ground arith
shard_at-put (x ∷ ss) (suc i) zero s h = ground arith
shard_at-put (x ∷ ss) (suc i) (suc j) s h =
    shard_at-put ss i j s (omega arith) ∙ ap (λ b. if b then s else shard_at ss j) (ground arith)

pub length-put :
    (ss : List OptimizedCacheShard) (i : ℕ) (s : OptimizedCacheShard)
    → length (set ss i s) ≡ length ss
length-put [] i s = refl
length-put (x ∷ ss) zero s = refl
length-put (x ∷ ss) (suc i) s = ap suc (length-put ss i s)

pub length-map_clear : (ss : List OptimizedCacheShard) → length (map clear_in ss) ≡ length ss
length-map_clear [] = refl
length-map_clear (s ∷ ss) = ap suc (length-map_clear ss)

pub length-new : (n : ℕ) (s : OptimizedCacheShard) → length (replicate n s) ≡ n
length-new zero s = refl
length-new (suc n) s = ap suc (length-new n s)

-- What holds of every shard that is cleared or new, and of the shard out of range, holds at every place.
pub shard_at-cleared :
    (P : OptimizedCacheShard → Type 0) (ss : List OptimizedCacheShard)
    → ((s : OptimizedCacheShard) → P (clear_in s))
    → (i : ℕ) → P (shard_at (map clear_in ss) i)
unfolding shard_at
shard_at-cleared P [] h i = h (empty_shard (pos 0))
shard_at-cleared P (s ∷ ss) h zero = h s
shard_at-cleared P (s ∷ ss) h (suc i) = shard_at-cleared P ss h i

pub shard_at-new :
    (P : OptimizedCacheShard → Type 0) (n : ℕ) (max_size : ℤ)
    → ((m : ℤ) → P (empty_shard m))
    → (i : ℕ) → P (shard_at (replicate n (empty_shard max_size)) i)
unfolding shard_at
shard_at-new P zero max_size h i = h (pos 0)
shard_at-new P (suc n) max_size h zero = h max_size
shard_at-new P (suc n) max_size h (suc i) = shard_at-new P n max_size h i

-- The largest size of the shards in range.
pub max_size-cleared :
    (m : ℤ) (ss : List OptimizedCacheShard)
    → ((i : ℕ) → i < length ss → (shard_at ss i).max_size ≡ m)
    → (i : ℕ) → i < length ss
    → (shard_at (map clear_in ss) i).max_size ≡ m
unfolding shard_at
max_size-cleared m [] h i r = absurd (omega arith)
max_size-cleared m (s ∷ ss) h zero r = h 0 (omega arith)
max_size-cleared m (s ∷ ss) h (suc i) r =
    max_size-cleared m ss (λ j k. h (suc j) (omega arith)) i (omega arith)

pub max_size-new :
    (m : ℤ) (n i : ℕ) → i < n → (shard_at (replicate n (empty_shard m)) i).max_size ≡ m
unfolding shard_at
max_size-new m zero i r = absurd (omega arith)
max_size-new m (suc n) zero r = refl
max_size-new m (suc n) (suc i) r = max_size-new m n i (omega arith)

either :
    (b : Bool) (x y : OptimizedCacheShard) (m : ℤ)
    → x.max_size ≡ m
    → y.max_size ≡ m
    → (if b then x else y).max_size ≡ m
either true x y m h i = h
either false x y m h i = i

-- No call changes the largest size.
add_to_lru_at-max_size :
    (o : Option ℕ) (s : OptimizedCacheShard) (p : ℕ) → (add_to_lru_at o s p).max_size ≡ s.max_size
unfolding add_to_lru_at
add_to_lru_at-max_size none s p = refl
add_to_lru_at-max_size (some h) s p = refl

add_to_lru-max_size : (s : OptimizedCacheShard) (p : ℕ) → (add_to_lru s p).max_size ≡ s.max_size
unfolding add_to_lru
add_to_lru-max_size s p = add_to_lru_at-max_size s.head s p

promote_hot_entry-max_size :
    (s : OptimizedCacheShard) (p : ℕ) → (promote_hot_entry s p).max_size ≡ s.max_size
unfolding promote_hot_entry remove_lru
promote_hot_entry-max_size s p =
    either (s.heap p).hot_promoted s _ s.max_size refl (add_to_lru-max_size _ p)

hit-max_size : (s : OptimizedCacheShard) (p : ℕ) (now : ℤ) → (hit s p now).0.max_size ≡ s.max_size
unfolding hit
hit-max_size s p now =
    let seen = seen_at s p now in
    either (is_tenth (add64 (s.heap p).access_count (pos 1))) (promote_hot_entry seen p) seen
      s.max_size (promote_hot_entry-max_size seen p) refl

either_answer :
    (b : Bool) (x y : OptimizedCacheShard × Option CacheEntry) (m : ℤ)
    → x.0.max_size ≡ m
    → y.0.max_size ≡ m
    → (if b then x else y).0.max_size ≡ m
either_answer true x y m h i = h
either_answer false x y m h i = i

get_at-max_size :
    (o : Option ℕ) (s : OptimizedCacheShard) (key : String) (now : ℤ)
    → (get_at o s key now).0.max_size ≡ s.max_size
unfolding get_at remove_lru
get_at-max_size none s key now = refl
get_at-max_size (some p) s key now =
    either_answer (ltb_ℤ (s.heap p).expires_at now)
      (missed (remove_lru (record s { store = delete key s.store }) p)) (hit s p now) s.max_size
      refl (hit-max_size s p now)

evict_at-max_size :
    (o : Option ℕ) (s : OptimizedCacheShard) → (evict_at o s).0.max_size ≡ s.max_size
unfolding evict_at remove_lru
evict_at-max_size none s = refl
evict_at-max_size (some p) s = refl

drop_existing-max_size :
    (o : Option ℕ) (s : OptimizedCacheShard) → (drop_existing o s).max_size ≡ s.max_size
unfolding drop_existing remove_lru
drop_existing-max_size none s = refl
drop_existing-max_size (some p) s = refl

delete_at-max_size :
    (o : Option ℕ) (s : OptimizedCacheShard) (key : String)
    → (delete_at o s key).max_size ≡ s.max_size
unfolding delete_at
delete_at-max_size none s key = refl
delete_at-max_size (some p) s key =
    drop_existing-max_size (some p) (record s { store = delete key s.store })

room-max_size :
    (full : Bool) (s : OptimizedCacheShard)
    → (if full then evict_lru s else (s, false)).0.max_size ≡ s.max_size
unfolding evict_lru
room-max_size true s = evict_at-max_size s.tail s
room-max_size false s = refl

pub get_in-max_size :
    (s : OptimizedCacheShard) (key : String) (now : ℤ) → (get_in s key now).0.max_size ≡ s.max_size
unfolding get_in
get_in-max_size s key now = get_at-max_size (lookup key s.store) s key now

pub delete_in-max_size :
    (s : OptimizedCacheShard) (key : String) → (delete_in s key).max_size ≡ s.max_size
unfolding delete_in
delete_in-max_size s key = delete_at-max_size (lookup key s.store) s key

pub set_in-max_size :
    (threshold : ℤ) (s : OptimizedCacheShard) (key : String) (e : OptimizedCacheEntry)
    → (set_in threshold s key e).0.max_size ≡ s.max_size
unfolding set_in add_entry
set_in-max_size threshold s key e =
    add_to_lru-max_size _ _
    ∙ drop_existing-max_size _ (if leb_ℤ threshold s.size then evict_lru s else (s, false)).0
    ∙ room-max_size (leb_ℤ threshold s.size) s
