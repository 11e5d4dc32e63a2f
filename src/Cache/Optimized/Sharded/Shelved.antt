-- ===== src/Cache/Optimized/Sharded/Shelved.antt =====
-- The shards of the optimized cache and their lists, call by call.
use Prim.Native.Nat.{bit_and}
use klayengo.Prelude.{
  ℕ, ◌<◌, ◌≤◌, ◌≡◌, sym, ap, ◌∙◌, subst, String, Bool, true, false, if◌then◌else◌, set as list_set,
  length, arith, ◌==◌ as nat_eq,
}
use klayengo.Prelude.Int.{ℤ}
use klayengo.Backoff.{Float}
use klayengo.Cache.Optimized.{OptimizedCacheShard, OptimizedCache}
use klayengo.Cache.Optimized.Calls.{shard_at, shard_index, get_shard, threshold_of}
use klayengo.Cache.Optimized.Lru.{Lru}
use klayengo.Cache.Optimized.Lru.Represents.{Represents}
use klayengo.Cache.Optimized.Lru.Runs.{ShardCall, shard_call, lru_call, shard_call-Answers}
use klayengo.Cache.Optimized.Sharded.{Lrus, put_lru}
use klayengo.Cache.Optimized.Sharded.Places.{bit_and-le, shard_at-put, length-put}

-- Each shard stands for the list of its place.
pub record Shelved (mask : ℕ) (max_size : ℤ) (c : OptimizedCache) (ls : Lrus) : Type 0 where
  pub same_mask : c.shard_mask ≡ mask
  pub inside : mask < length c.shards
  pub each : (i : ℕ) → Represents (shard_at c.shards i) (ls i)
  pub sizes : (i : ℕ) → i < length c.shards → (shard_at c.shards i).max_size ≡ max_size

chosen :
    (P : OptimizedCacheShard → Lru → Type 0) (b : Bool) (s s' : OptimizedCacheShard) (l l' : Lru)
    → P s l
    → P s' l'
    → P (if b then s else s') (if b then l else l')
chosen P true s s' l l' h i = h
chosen P false s s' l l' h i = i

-- A shard in its place is replaced.
put-Shelved :
    (mask : ℕ) (m : ℤ) (c c' : OptimizedCache) (ls : Lrus) (i : ℕ) (s : OptimizedCacheShard)
    (l : Lru)
    → Shelved mask m c ls
    → i ≤ mask
    → Represents s l
    → s.max_size ≡ m
    → c'.shards ≡ list_set c.shards i s
    → c'.shard_mask ≡ c.shard_mask
    → Shelved mask m c' (put_lru ls i l)
put-Shelved mask m c c' ls i s l h le r size shards same =
    let long : length c'.shards ≡ length c.shards = ap length shards ∙ length-put c.shards i s in
    let inside = h.inside in
    let at : (j : ℕ) → shard_at c'.shards j ≡ (if nat_eq j i then s else shard_at c.shards j) =
      λ j. ap (λ ss. shard_at ss j) shards ∙ shard_at-put c.shards i j s (omega arith) in
    record {
      same_mask = same ∙ h.same_mask;
      inside = omega arith;
      each = λ j.
          subst (λ s. Represents s (put_lru ls i l j)) (sym (at j))
            (chosen Represents (nat_eq j i) s (shard_at c.shards j) l (ls j) r (h.each j));
      sizes = λ j k.
          ap (λ s. s.max_size) (at j)
          ∙ chosen (λ s l. s.max_size ≡ m) (nat_eq j i) s (shard_at c.shards j) l l size
              (h.sizes j (omega arith));
    }

module _ (f : Float) (eviction_threshold : f.float64) (hash : String → ℕ) (mask : ℕ) (m : ℤ) where
  abbrev pub place : String → ℕ
  place key = bit_and (hash key) mask

  abbrev pub threshold : ℤ
  threshold = threshold_of f eviction_threshold hash m

  -- The shard of a key, by the mask.
  pub own_shard :
      (c : OptimizedCache) (ls : Lrus) (key : String)
      → Shelved mask m c ls
      → get_shard f eviction_threshold hash c key ≡ shard_at c.shards (place key)
  unfolding get_shard shard_index
  own_shard c ls key h = ap (λ k. shard_at c.shards (bit_and (hash key) k)) h.same_mask

  -- A call that answers from the key's shard and puts the shard back.
  pub keyed-Shelved :
      (c c' : OptimizedCache) (ls : Lrus) (key : String) (call : ShardCall)
      → Shelved mask m c ls
      → let s' = (shard_call threshold (get_shard f eviction_threshold hash c key) call).0 in
        s'.max_size ≡ (get_shard f eviction_threshold hash c key).max_size
        → c'.shards ≡ list_set c.shards (shard_index f eviction_threshold hash c key) s'
        → c'.shard_mask ≡ c.shard_mask
        → Shelved mask m c' (put_lru ls (place key) (lru_call threshold (ls (place key)) call).0)
          × ((shard_call threshold (get_shard f eviction_threshold hash c key) call).1
              ≡ (lru_call threshold (ls (place key)) call).1)
  unfolding shard_index
  keyed-Shelved c c' ls key call h size shards same =
      let i = place key in
      let own = own_shard c ls key h in
      let (represents, answer) =
        shard_call-Answers threshold (get_shard f eviction_threshold hash c key) (ls i) call
          (subst (λ s. Represents s (ls i)) (sym own) (h.each i)) in
      let le = bit_and-le (hash key) mask in
      let inside = h.inside in
      let s' = (shard_call threshold (get_shard f eviction_threshold hash c key) call).0 in
      (
        put-Shelved mask m c c' ls i s' (lru_call threshold (ls i) call).0 h le represents
            (size ∙ ap (λ s. s.max_size) own ∙ h.sizes i (omega arith))
            (shards ∙ ap (λ k. list_set c.shards (bit_and (hash key) k) s') h.same_mask) same,
        answer,
      )
