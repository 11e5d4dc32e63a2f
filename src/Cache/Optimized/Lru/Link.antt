-- ===== src/Cache/Optimized/Lru/Link.antt =====
-- `addToLRU` of cache_optimized.go on linked cells.
use klayengo.Prelude.{ℕ, ◌≡◌, refl, sym, subst, false, none, some, [], ◌∷◌, arith}
use klayengo.Cache.Optimized.{
  OptimizedCacheShard, write, set_prev, set_next, add_to_lru, add_to_lru_at,
}
use klayengo.Cache.Optimized.Lru.Links.{Cells, first, Back, has, NoDup, Back-same, has-other, last}

-- `p` stands in front of the cells in `s'`.
pub record Linked (s s' : OptimizedCacheShard) (p : ℕ) (cs : Cells) : Type 0 where
  pub back : Back s'.heap (some p) cs
  pub front : s'.heap p ≡ record (s.heap p) { next = first cs }
  pub head : s'.head ≡ some p
  pub tail : s'.tail ≡ last (some p) cs
  pub same_store : s'.store ≡ s.store
  pub same_size : s'.size ≡ s.size
  pub same_free : s'.free ≡ s.free

add_to_lru_at-Linked :
    (s : OptimizedCacheShard) (p : ℕ) (cs : Cells)
    → Back s.heap none cs
    → s.tail ≡ last none cs
    → (s.heap p).next ≡ none
    → has p cs ≡ false
    → NoDup cs
    → Linked s (add_to_lru_at (first cs) s p) p cs
unfolding add_to_lru_at set_prev set_next write
add_to_lru_at-Linked s p [] back tail alone out nodup = record {
  back = tt;
  front = cc (alone);
  head = refl;
  tail = refl;
  same_store = refl;
  same_size = refl;
  same_free = refl;
}
add_to_lru_at-Linked s p ((c, d) ∷ cs) (at, back) tail alone out (fresh, nodup) = record {
  back = (
    ground (arith, at, out),
    Back-same s.heap (add_to_lru_at (some c) s p).heap (some c) cs back
        (λ q i. ground (arith, has-other q p cs i (ground (arith, out)), has-other q c cs i fresh)),
  );
  front = ground (arith, out);
  head = refl;
  tail = tail;
  same_store = refl;
  same_size = refl;
  same_free = refl;
}

pub add_to_lru-Linked :
    (s : OptimizedCacheShard) (p : ℕ) (cs : Cells)
    → Back s.heap none cs
    → s.head ≡ first cs
    → s.tail ≡ last none cs
    → (s.heap p).next ≡ none
    → has p cs ≡ false
    → NoDup cs
    → Linked s (add_to_lru s p) p cs
unfolding add_to_lru
add_to_lru-Linked s p cs back head tail alone out nodup =
    subst (λ h. Linked s (add_to_lru_at h s p) p cs) (sym head)
      (add_to_lru_at-Linked s p cs back tail alone out nodup)
