-- ===== src/Cache/Optimized/Lru/Chain.antt =====
-- A shard's list as a whole: the cells that stand in its heap between its head and its tail.
use klayengo.Prelude.{
  ℕ, ◌<◌, ◌≡◌, refl, sym, ap, subst, ◌∙◌, String, true, false, ◌||◌, none, some, List, [], ◌∷◌,
  arith, ◌==◌ as nat_eq, Bool-cases, inl, inr,
}
use klayengo.Prelude.Int.{ℤ}
use klayengo.Cache.Optimized.{
  OptimizedCacheEntry, OptimizedCacheShard, write, remove_lru, add_to_lru,
}
use klayengo.Cache.Optimized.Lru.{Item, linked}
use klayengo.Cache.Optimized.Lru.Links.{
  Cells, Heap, first, last, onto, Back, Front, has, NoDup, Apart, Back-onto, onto-Back, NoDup-onto,
  onto-NoDup, last-onto, first_of, first-onto, has-other, Back-same, Front-same,
}
use klayengo.Cache.Optimized.Lru.Unlink.{remove_lru-Unlinked}
use klayengo.Cache.Optimized.Lru.Link.{Linked, add_to_lru-Linked}

pub record Chain (s : OptimizedCacheShard) (cs : Cells) : Type 0 where
  pub back : Back s.heap none cs
  pub head : s.head ≡ first cs
  pub tail : s.tail ≡ last none cs
  pub nodup : NoDup cs
  pub below : (q : ℕ) → has q cs ≡ true → q < s.free

-- The list around an entry `p`, whose own item is left open.
pub record Around (s : OptimizedCacheShard) (p : ℕ) (rs ys : Cells) : Type 0 where
  pub front : Front s.heap rs (some p)
  pub back : Back s.heap (some p) ys
  pub prev : (s.heap p).prev ≡ first rs
  pub next : (s.heap p).next ≡ first ys
  pub out_rs : has p rs ≡ false
  pub out_ys : has p ys ≡ false
  pub nodup_rs : NoDup rs
  pub nodup_ys : NoDup ys
  pub apart : Apart rs ys
  pub head : s.head ≡ first_of rs (some p)
  pub tail : s.tail ≡ last (some p) ys
  pub below : (q : ℕ) → has q (onto rs ys) ≡ true → q < s.free
  pub below_p : p < s.free

pub has-onto : (q : ℕ) (rs cs : Cells) → has q (onto rs cs) ≡ (has q rs || has q cs)
has-onto q [] cs = refl
has-onto q ((r, d) ∷ rs) cs = has-onto q rs ((r, d) ∷ cs) ∙ ground arith

module _ (s : OptimizedCacheShard) (p : ℕ) (rs ys : Cells) where
  pub Chain-Around :
      (d : Item)
      → Chain s (onto rs ((p, d) ∷ ys))
      → Around s p rs ys × (s.heap p ≡ linked d (first rs) (first ys))
  Chain-Around d c =
      let (front, (at, back)) = Back-onto s.heap rs ((p, d) ∷ ys) c.back in
      let (nodup, (out, rest), apart) = NoDup-onto rs ((p, d) ∷ ys) c.nodup in
      let all = has-onto p rs ((p, d) ∷ ys) in
      (
        record {
          front = front;
          back = back;
          prev = ap (λ e. e.prev) at;
          next = ap (λ e. e.next) at;
          out_rs = ground (arith, apart p);
          out_ys = out;
          nodup_rs = nodup;
          nodup_ys = rest;
          apart = λ q i. ground (arith, apart q i);
          head = c.head ∙ first-onto rs ((p, d) ∷ ys);
          tail = c.tail ∙ last-onto rs ((p, d) ∷ ys);
          below =
              λ q i. c.below q (ground (arith, i, has-onto q rs ys, has-onto q rs ((p, d) ∷ ys)));
          below_p = c.below p (ground (arith, all));
        },
        at,
      )

  -- The cells around the entry are the list that `removeLRU` leaves.
  pub remove_lru-Chain :
      Around s p rs ys
      → Chain (remove_lru s p) (onto rs ys)
        × ((remove_lru s p).heap p ≡ record (s.heap p) { prev = none; next = none })
        × ((remove_lru s p).store ≡ s.store)
        × ((remove_lru s p).size ≡ s.size)
        × ((remove_lru s p).free ≡ s.free)
  remove_lru-Chain a =
      let u =
        remove_lru-Unlinked s p rs ys a.front a.back a.prev a.next a.out_rs a.out_ys a.nodup_rs
          a.nodup_ys a.apart a.head a.tail in
      (
        record {
          back = onto-Back (remove_lru s p).heap rs ys u.front u.back;
          head = u.head ∙ sym (first-onto rs ys);
          tail = u.tail ∙ sym (last-onto rs ys);
          nodup = onto-NoDup rs ys a.nodup_rs a.nodup_ys a.apart;
          below = λ q i. subst (λ n. q < n) (sym u.same_free) (a.below q i);
        },
        u.alone,
        u.same_store,
        u.same_size,
        u.same_free,
      )

-- A list with its entry `p` put back, or changed.
pub Around-Chain :
    (s : OptimizedCacheShard) (p : ℕ) (d : Item) (rs ys : Cells)
    → Around s p rs ys
    → s.heap p ≡ linked d (first rs) (first ys)
    → Chain s (onto rs ((p, d) ∷ ys))
Around-Chain s p d rs ys a at = record {
  back = onto-Back s.heap rs ((p, d) ∷ ys) a.front (at, a.back);
  head = a.head ∙ sym (first-onto rs ((p, d) ∷ ys));
  tail = a.tail ∙ sym (last-onto rs ((p, d) ∷ ys));
  nodup =
      onto-NoDup rs ((p, d) ∷ ys) a.nodup_rs (a.out_ys, a.nodup_ys)
        (λ q i. ground (arith, has-other q p rs i a.out_rs, a.apart q i));
  below = λ q i. elim (Bool-cases (has q (onto rs ys))) [
    | inl e ↦ a.below q e
    | inr e ↦
        let there = has-onto q rs ((p, d) ∷ ys) in
        let here = has-onto q rs ys in ground (arith, i, e, there, here, a.below_p)
  ];
}

-- The counters and the store are not part of the list.
pub Chain-recount :
    (s : OptimizedCacheShard) (cs : Cells) (store : List (String × ℕ))
    (hits misses evictions size : ℤ)
    → Chain s cs
    → Chain
        (record s {
          store = store;
          hits = hits;
          misses = misses;
          evictions = evictions;
          size = size;
        })
        cs
Chain-recount s cs store hits misses evictions size c = record {
  back = c.back;
  head = c.head;
  tail = c.tail;
  nodup = c.nodup;
  below = c.below;
}

-- A write to the entry that leaves its links.
pub Around-write :
    (s : OptimizedCacheShard) (p : ℕ) (e : OptimizedCacheEntry) (rs ys : Cells)
    → Around s p rs ys
    → e.prev ≡ (s.heap p).prev
    → e.next ≡ (s.heap p).next
    → Around (record s { heap = write s.heap p e }) p rs ys
unfolding write
Around-write s p e rs ys a prev next = record {
  front =
      Front-same s.heap (write s.heap p e) rs (some p) a.front
        (λ q i. ground (arith, has-other q p rs i a.out_rs));
  back =
      Back-same s.heap (write s.heap p e) (some p) ys a.back
        (λ q i. ground (arith, has-other q p ys i a.out_ys));
  prev = ground (arith, prev, a.prev);
  next = ground (arith, next, a.next);
  out_rs = a.out_rs;
  out_ys = a.out_ys;
  nodup_rs = a.nodup_rs;
  nodup_ys = a.nodup_ys;
  apart = a.apart;
  head = a.head;
  tail = a.tail;
  below = a.below;
  below_p = a.below_p;
}

-- `addToLRU` puts the entry in front.
pub add_to_lru-Chain :
    (s : OptimizedCacheShard) (p : ℕ) (e : OptimizedCacheEntry) (cs : Cells)
    → Chain s cs
    → has p cs ≡ false
    → p < s.free
    → s.heap p ≡ e
    → e.next ≡ none
    → Linked s (add_to_lru s p) p cs
add_to_lru-Chain s p e cs c out below at alone =
    add_to_lru-Linked s p cs c.back c.head c.tail (ap (λ e. e.next) at ∙ alone) out c.nodup

-- The list with the entry in front, whose item is `d` in the end.
pub Linked-Chain :
    (s s' : OptimizedCacheShard) (p : ℕ) (d : Item) (cs : Cells)
    → Chain s cs
    → has p cs ≡ false
    → p < s.free
    → Linked s s' p cs
    → (heap : Heap) → ((q : ℕ) → nat_eq q p ≡ false → heap q ≡ s'.heap q)
    → heap p ≡ linked d none (first cs)
    → Chain (record s' { heap = heap }) ((p, d) ∷ cs)
Linked-Chain s s' p d cs c out below_p l heap same at = record {
  back = (at, Back-same s'.heap heap (some p) cs l.back (λ q i. same q (has-other q p cs i out)));
  head = l.head;
  tail = l.tail;
  nodup = (out, c.nodup);
  below = λ q i.
      subst (λ n. q < n) (sym l.same_free)
        (elim (Bool-cases (has q cs)) [
          | inl e ↦ c.below q e
          | inr e ↦ ground (arith, i, e, below_p)
        ]);
}
