-- ===== src/Cache/Optimized/Lru/Unlink.antt =====
-- `removeLRU` and `addToLRU` of cache_optimized.go on linked cells.
use klayengo.Prelude.{
  ℕ, ◌≡◌, refl, sym, ap, subst, Bool-cases, inl, inr, ◌∙◌, Bool, true, false, if◌then◌else◌, Option,
  none, some, [], ◌∷◌, arith, ◌==◌ as nat_eq,
}
use klayengo.Cache.Optimized.{OptimizedCacheShard, write, set_prev, set_next, or_else, remove_lru}
use klayengo.Cache.Optimized.Lru.Links.{
  Cells, Heap, first, Back, Front, has, NoDup, Apart, Back-same, Front-same, has-other, last,
  first_of,
}

abbrev is_at : ℕ → Option ℕ → Bool
is_at q none = false
is_at q (some p) = nat_eq q p

-- The heap once `p` is taken out between two neighbours.
abbrev relinked : Heap → ℕ → Option ℕ → Option ℕ → Heap
relinked heap p before after q =
    if nat_eq q p then record (heap p) { prev = none; next = none } else record (heap q) {
      next = if is_at q before then after else (heap q).next;
      prev = if is_at q after then before else (heap q).prev;
    }

-- `removeLRU` with the links of the entry read off.
abbrev unlink : Heap → ℕ → Option ℕ → Option ℕ → Heap
unlink heap p before after =
    let heap2 = set_prev after before (set_next before after heap) in
    write heap2 p (record (heap2 p) { prev = none; next = none })

set_next-other :
    (before after : Option ℕ) (heap : Heap) (p : ℕ)
    → is_at p before ≡ false
    → set_next before after heap p ≡ heap p
unfolding set_next write
set_next-other none after heap p h = refl
set_next-other (some b) after heap p h = ground (arith, h)

unlink-relinked :
    (before after : Option ℕ) (heap : Heap) (p q : ℕ)
    → is_at p before ≡ false
    → is_at p after ≡ false
    → unlink heap p before after q ≡ relinked heap p before after q
unfolding set_next set_prev write
unlink-relinked none none heap p q h k = ground arith
unlink-relinked none (some a) heap p q h k = ground (arith, k)
unlink-relinked (some b) none heap p q h k = ground (arith, h)
unlink-relinked (some b) (some a) heap p q h k = ground (arith, h, k)

-- `removeLRU` with the four links that it reads.
abbrev taken :
    OptimizedCacheShard → ℕ → Option ℕ → Option ℕ → Option ℕ → Option ℕ → OptimizedCacheShard
taken s p prev next next' prev' =
    let heap2 = set_prev next' prev' (set_next prev next s.heap) in
    record s {
      head = or_else prev s.head next;
      tail = or_else next' s.tail prev';
      heap = write heap2 p (record (heap2 p) { prev = none; next = none });
    }

remove_lru-taken :
    (s : OptimizedCacheShard) (p : ℕ) (before after : Option ℕ)
    → (s.heap p).prev ≡ before
    → (s.heap p).next ≡ after
    → is_at p before ≡ false
    → remove_lru s p ≡ taken s p before after after before
unfolding remove_lru
remove_lru-taken s p before after h k out =
    let there = set_next-other before after s.heap p out in
    ap
      (λ b.
        taken s p b (s.heap p).next (set_next b (s.heap p).next s.heap p).next
          (set_next b (s.heap p).next s.heap p).prev)
      h
    ∙ ap
        (λ n.
          taken s p before n (set_next before n s.heap p).next (set_next before n s.heap p).prev)
        k
    ∙ ap (λ e. taken s p before after e.next e.prev) there
    ∙ ap (λ n. taken s p before after n (s.heap p).prev) k
    ∙ ap (λ b. taken s p before after after b) h

is_at-first : (q : ℕ) (cs : Cells) → has q cs ≡ false → is_at q (first cs) ≡ false
is_at-first q [] h = refl
is_at-first q ((p, d) ∷ cs) h = ground (arith, h)

-- An entry that is neither taken out nor next to it.
relinked-other :
    (heap : Heap) (p q : ℕ) (before after : Option ℕ)
    → nat_eq q p ≡ false
    → is_at q before ≡ false
    → is_at q after ≡ false
    → relinked heap p before after q ≡ heap q
relinked-other heap p q before after h i j = ground (arith, h, i, j)

module _ (heap heap' : Heap) (p : ℕ) where
  relinked-Front :
      (rs : Cells) (after : Option ℕ)
      → ((q : ℕ) → heap' q ≡ relinked heap p (first rs) after q)
      → Front heap rs (some p)
      → has p rs ≡ false
      → NoDup rs
      → ((q : ℕ) → has q rs ≡ true → is_at q after ≡ false)
      → Front heap' rs after
  relinked-Front [] after is front out nodup apart = tt
  relinked-Front ((r, d) ∷ rs) after is (at, front) out (fresh, nodup) apart = (
    is r ∙ ground (arith, at, out, apart r),
    Front-same heap heap' rs (some r) front (λ q i.
        is q
        ∙ relinked-other heap p q (some r) after (has-other q p rs i (ground (arith, out)))
            (has-other q r rs i fresh) (apart q (ground (arith, i)))),
  )

  relinked-Back :
      (before : Option ℕ) (ys : Cells)
      → ((q : ℕ) → heap' q ≡ relinked heap p before (first ys) q)
      → Back heap (some p) ys
      → has p ys ≡ false
      → NoDup ys
      → ((q : ℕ) → has q ys ≡ true → is_at q before ≡ false)
      → Back heap' before ys
  relinked-Back before [] is back out nodup apart = tt
  relinked-Back before ((y, d) ∷ ys) is (at, back) out (fresh, nodup) apart = (
    is y ∙ ground (arith, at, out, apart y),
    Back-same heap heap' (some y) ys back (λ q i.
        is q
        ∙ relinked-other heap p q before (some y) (has-other q p ys i (ground (arith, out)))
            (apart q (ground (arith, i))) (has-other q y ys i fresh)),
  )

turned : (rs ys : Cells) → Apart rs ys → (q : ℕ) → has q ys ≡ true → has q rs ≡ false
turned rs ys apart q i = elim (Bool-cases (has q rs)) [
  | inl e ↦ absurd (cc (apart q e, i))
  | inr e ↦ e
]

-- `p` is alone in `s'`, and the cells around it have come together.
pub record Unlinked (s s' : OptimizedCacheShard) (p : ℕ) (rs ys : Cells) : Type 0 where
  pub front : Front s'.heap rs (first ys)
  pub back : Back s'.heap (first rs) ys
  pub alone : s'.heap p ≡ record (s.heap p) { prev = none; next = none }
  pub head : s'.head ≡ first_of rs (first ys)
  pub tail : s'.tail ≡ last (first rs) ys
  pub same_store : s'.store ≡ s.store
  pub same_size : s'.size ≡ s.size
  pub same_free : s'.free ≡ s.free

head_taken :
    (rs : Cells) (p : ℕ) (after : Option ℕ)
    → or_else (first rs) (first_of rs (some p)) after ≡ first_of rs after
head_taken [] p after = refl
head_taken ((r, d) ∷ rs) p after = refl

tail_taken :
    (ys : Cells) (p : ℕ) (before : Option ℕ)
    → or_else (first ys) (last (some p) ys) before ≡ last before ys
tail_taken [] p before = refl
tail_taken ((y, d) ∷ ys) p before = refl

-- `removeLRU` of an entry between its cells.
pub remove_lru-Unlinked :
    (s : OptimizedCacheShard) (p : ℕ) (rs ys : Cells)
    → Front s.heap rs (some p)
    → Back s.heap (some p) ys
    → (s.heap p).prev ≡ first rs
    → (s.heap p).next ≡ first ys
    → has p rs ≡ false
    → has p ys ≡ false
    → NoDup rs
    → NoDup ys
    → Apart rs ys
    → s.head ≡ first_of rs (some p)
    → s.tail ≡ last (some p) ys
    → Unlinked s (remove_lru s p) p rs ys
remove_lru-Unlinked s p rs ys front back prev next out_rs out_ys nodup_rs nodup_ys apart head tail =
    let before = first rs in
    let after = first ys in
    let s' = taken s p before after after before in
    let is : (q : ℕ) → s'.heap q ≡ relinked s.heap p before after q = λ q.
      unlink-relinked before after s.heap p q (is_at-first p rs out_rs) (is_at-first p ys out_ys) in
    subst (λ s'. Unlinked s s' p rs ys)
      (sym (remove_lru-taken s p before after prev next (is_at-first p rs out_rs)))
      (record {
        front =
            relinked-Front s.heap s'.heap p rs after is front out_rs nodup_rs
              (λ q i. is_at-first q ys (apart q i));
        back =
            relinked-Back s.heap s'.heap p before ys is back out_ys nodup_ys
              (λ q i. is_at-first q rs (turned rs ys apart q i));
        alone = is p ∙ ground arith;
        head = ap (λ h. or_else before h after) head ∙ head_taken rs p after;
        tail = ap (λ t. or_else after t before) tail ∙ tail_taken ys p before;
        same_store = refl;
        same_size = refl;
        same_free = refl;
      })
