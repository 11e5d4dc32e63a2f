-- ===== src/Cache/Optimized/Lru/Promote.antt =====
-- `promoteHotEntry` brings an entry to the front of the list.
use text.Mathlib.Text.{◌==◌}
use text.Mathlib.TextEquality.{eq_iff}
use klayengo.Prelude.{
  ℕ, ◌<◌, ◌≡◌, refl, sym, ap, subst, ◌∙◌, String, Bool, true, false, if◌then◌else◌, none, some,
  List, [], ◌∷◌, arith, Bool-cases, inl, inr, ==_iff,
}
use klayengo.Prelude.Int.{ℤ}
use klayengo.Prelude.Assoc.{lookup}
use klayengo.Cache.Optimized.{
  OptimizedCacheEntry, OptimizedCacheShard, remove_lru, add_to_lru, promote_hot_entry, write,
}
use klayengo.Cache.Optimized.Lru.{Item, linked, used}
use klayengo.Cache.Optimized.Lru.Links.{Cells, first, onto, has}
use klayengo.Cache.Optimized.Lru.Pointers.{pointer}
use klayengo.Cache.Optimized.Lru.Keeps.{Agree, AgreeBut, Kept-onto, onto-Kept}
use klayengo.Cache.Optimized.Lru.Chain.{
  Chain, Around, Around-write, remove_lru-Chain, add_to_lru-Chain, Linked-Chain, has-onto,
}

pointer-same :
    (k : String) (rs cs cs' : Cells)
    → pointer k cs ≡ pointer k cs'
    → pointer k (onto rs cs) ≡ pointer k (onto rs cs')
pointer-same k [] cs cs' h = h
pointer-same k ((r, d) ∷ rs) cs cs' h =
    pointer-same k rs ((r, d) ∷ cs) ((r, d) ∷ cs') (ap (λ o. if d.key == k then some r else o) h)

-- The store's pointers do not change with the rest of an item, nor with its place.
pub used-Agree :
    (d : Item) (now : ℤ) (p : ℕ) (store : List (String × ℕ)) (rs ys : Cells)
    → Agree store (onto rs ((p, d) ∷ ys))
    → Agree store (onto rs ((p, used d now) ∷ ys))
used-Agree d now p store rs ys a =
    let (front, back) = Kept-onto store rs ((p, d) ∷ ys) a.kept in
    record {
      all = λ k. a.all k ∙ pointer-same k rs ((p, d) ∷ ys) ((p, used d now) ∷ ys) refl;
      kept = onto-Kept store rs ((p, used d now) ∷ ys) front back;
    }

pub front-Agree :
    (d : Item) (p : ℕ) (store : List (String × ℕ)) (cs : Cells)
    → AgreeBut d.key store cs
    → lookup d.key store ≡ some p
    → Agree store ((p, d) ∷ cs)
front-Agree d p store cs a at = record {
  all = λ k. elim (Bool-cases (d.key == k)) [
    | inl e ↦ ap (λ k. lookup k store) (sym ((eq_iff d.key k).0 e)) ∙ at ∙ ground (arith, e)
    | inr e ↦ a.others k e ∙ ground (arith, e)
  ];
  kept = (at, a.kept);
}

-- What `promoteHotEntry` leaves of an entry with the item `d`.
pub record Promoted (s s' : OptimizedCacheShard) (p : ℕ) (d : Item) (cs : Cells) : Type 0 where
  pub chain : Chain s' ((p, d) ∷ cs)
  pub same_store : s'.store ≡ s.store
  pub same_size : s'.size ≡ s.size

abbrev flagged : OptimizedCacheShard → ℕ → Bool → OptimizedCacheShard
flagged s p b = record s { heap = write s.heap p (record (s.heap p) { hot_promoted = b }) }

flagged-Promoted :
    (s : OptimizedCacheShard) (p : ℕ) (d : Item) (rs ys : Cells)
    → Around s p rs ys
    → s.heap p ≡ linked d (first rs) (first ys)
    → Promoted s (flagged (add_to_lru (remove_lru (flagged s p true) p) p) p false) p d (onto rs ys)
unfolding write
flagged-Promoted s p d rs ys a at =
    let claimed = flagged s p true in
    let cs = onto rs ys in
    let around = Around-write s p (record (s.heap p) { hot_promoted = true }) rs ys a refl refl in
    let (chain, alone, same_store, same_size, same_free) =
      remove_lru-Chain claimed p rs ys around in
    let removed = remove_lru claimed p in
    let out : has p cs ≡ false = has-onto p rs ys ∙ ground (arith, a.out_rs, a.out_ys) in
    let below_p : p < removed.free = subst (λ n. p < n) (sym same_free) a.below_p in
    let hot : OptimizedCacheEntry → OptimizedCacheEntry =
      λ e. record e { prev = none; next = none; hot_promoted = true } in
    let placed : removed.heap p ≡ hot (linked d none none) =
      alone ∙ ground (arith, at, ==_iff p p) in
    let moved = add_to_lru removed p in
    let k =
      add_to_lru-Chain removed p (hot (linked d none none)) cs chain out below_p placed refl in
    let front : (moved.heap p) ≡ record (removed.heap p) { next = first cs } = k.front in
    let reset : (flagged moved p false).heap p ≡ linked d none (first cs) =
      ground (arith, ==_iff p p, front, placed) in
    record {
      chain =
          Linked-Chain removed moved p d cs chain out below_p k (flagged moved p false).heap
            (λ q e. ground (arith, e)) reset;
      same_store = k.same_store ∙ same_store;
      same_size = k.same_size ∙ same_size;
    }

pub promote_hot_entry-Promoted :
    (s : OptimizedCacheShard) (p : ℕ) (d : Item) (rs ys : Cells)
    → Around s p rs ys
    → s.heap p ≡ linked d (first rs) (first ys)
    → Promoted s (promote_hot_entry s p) p d (onto rs ys)
unfolding promote_hot_entry
promote_hot_entry-Promoted s p d rs ys a at =
    let cold : (s.heap p).hot_promoted ≡ false = ap (λ e. e.hot_promoted) at in
    subst
      (λ b.
        Promoted s
          (if b then s else flagged (add_to_lru (remove_lru (flagged s p true) p) p) p false) p d
          (onto rs ys))
      (sym cold) (flagged-Promoted s p d rs ys a at)
