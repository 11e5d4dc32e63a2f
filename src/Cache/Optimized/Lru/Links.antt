-- ===== src/Cache/Optimized/Lru/Links.antt =====
-- Doubly linked entries in a shard's heap, seen from one of them: the cells in front of it, the nearest
-- first, and the cells behind it.
use klayengo.Prelude.{
  ℕ, ◌≡◌, refl, ◌∙◌, Bool, true, false, ◌||◌, Option, none, some, List, [], ◌∷◌, arith,
  ◌==◌ as nat_eq, ==_iff, Bool-cases, inl, inr,
}
use klayengo.Cache.Optimized.{OptimizedCacheEntry}
use klayengo.Cache.Optimized.Lru.{Item, linked}

abbrev pub Cells : Type 0
Cells = List (ℕ × Item)

abbrev pub Heap : Type 0
Heap = ℕ → OptimizedCacheEntry

-- The first pointer.
abbrev pub first : Cells → Option ℕ
first [] = none
first ((p, d) ∷ cs) = some p

-- The last pointer, or the one in front of the cells.
abbrev pub last : Option ℕ → Cells → Option ℕ
last before [] = before
last before ((p, d) ∷ cs) = last (some p) cs

-- `onto rs cs` is the list whose part in front of `cs` is `rs`, read backwards.
abbrev pub onto : Cells → Cells → Cells
onto [] cs = cs
onto (r ∷ rs) cs = onto rs (r ∷ cs)

-- The cells stand in the heap, one after the other, behind the entry `before`.
abbrev pub Back : Heap → Option ℕ → Cells → Type 0
Back heap before [] = Unit
Back heap before ((p, d) ∷ cs) = (heap p ≡ linked d before (first cs)) × Back heap (some p) cs

-- The same, read backwards, in front of the entry `after`.
abbrev pub Front : Heap → Cells → Option ℕ → Type 0
Front heap [] after = Unit
Front heap ((p, d) ∷ rs) after = (heap p ≡ linked d (first rs) after) × Front heap rs (some p)

abbrev pub has : ℕ → Cells → Bool
has q [] = false
has q ((p, d) ∷ cs) = nat_eq p q || has q cs

abbrev pub NoDup : Cells → Type 0
NoDup [] = Unit
NoDup ((p, d) ∷ cs) = (has p cs ≡ false) × NoDup cs

abbrev pub Apart : Cells → Cells → Type 0
Apart rs cs = (q : ℕ) → has q rs ≡ true → has q cs ≡ false

-- What is said of the whole list, said of its two parts.
pub Back-onto :
    (heap : Heap) (rs cs : Cells)
    → Back heap none (onto rs cs)
    → Front heap rs (first cs) × Back heap (first rs) cs
Back-onto heap [] cs h = (tt, h)
Back-onto heap ((r, d) ∷ rs) cs h =
    let (front, (at, back)) = Back-onto heap rs ((r, d) ∷ cs) h in ((at, front), back)

pub onto-Back :
    (heap : Heap) (rs cs : Cells)
    → Front heap rs (first cs)
    → Back heap (first rs) cs
    → Back heap none (onto rs cs)
onto-Back heap [] cs front back = back
onto-Back heap ((r, d) ∷ rs) cs (at, front) back = onto-Back heap rs ((r, d) ∷ cs) front (at, back)

pub NoDup-onto : (rs cs : Cells) → NoDup (onto rs cs) → NoDup rs × NoDup cs × Apart rs cs
NoDup-onto [] cs h = (tt, h, λ q i. cc (i))
NoDup-onto ((r, d) ∷ rs) cs h =
    let (nodup, (out, rest), apart) = NoDup-onto rs ((r, d) ∷ cs) h in
    ((ground (arith, apart r), nodup), rest, λ q i. ground (arith, apart q, out, i))

pub onto-NoDup : (rs cs : Cells) → NoDup rs → NoDup cs → Apart rs cs → NoDup (onto rs cs)
onto-NoDup [] cs nodup rest apart = rest
onto-NoDup ((r, d) ∷ rs) cs (out, nodup) rest apart =
    onto-NoDup rs ((r, d) ∷ cs) nodup (ground (arith, apart r), rest)
      (λ q i. ground (arith, out, apart q, i))

-- Cells whose entries are the same in another heap.
pub Back-same :
    (heap heap' : Heap) (before : Option ℕ) (cs : Cells)
    → Back heap before cs
    → ((q : ℕ) → has q cs ≡ true → heap' q ≡ heap q)
    → Back heap' before cs
Back-same heap heap' before [] h same = tt
Back-same heap heap' before ((p, d) ∷ cs) (at, h) same = (
  same p (ground arith) ∙ at,
  Back-same heap heap' (some p) cs h (λ q i. same q (ground (arith, i))),
)

pub Front-same :
    (heap heap' : Heap) (rs : Cells) (after : Option ℕ)
    → Front heap rs after
    → ((q : ℕ) → has q rs ≡ true → heap' q ≡ heap q)
    → Front heap' rs after
Front-same heap heap' [] after h same = tt
Front-same heap heap' ((p, d) ∷ rs) after (at, h) same = (
  same p (ground arith) ∙ at,
  Front-same heap heap' rs (some p) h (λ q i. same q (ground (arith, i))),
)

pub last-onto : (rs cs : Cells) → last none (onto rs cs) ≡ last (first rs) cs
last-onto [] cs = refl
last-onto ((r, d) ∷ rs) cs = last-onto rs ((r, d) ∷ cs)

-- The first pointer of a list, from one of its cells on.
abbrev pub first_of : Cells → Option ℕ → Option ℕ
first_of [] head = head
first_of ((r, d) ∷ rs) head = first_of rs (some r)

pub first-onto : (rs cs : Cells) → first (onto rs cs) ≡ first_of rs (first cs)
first-onto [] cs = refl
first-onto ((r, d) ∷ rs) cs = first-onto rs ((r, d) ∷ cs)

-- A cell is not behind a pointer that no cell has.
pub has-other : (q p : ℕ) (cs : Cells) → has q cs ≡ true → has p cs ≡ false → nat_eq q p ≡ false
has-other q p cs i out = elim (Bool-cases (nat_eq q p)) [
  | inl e ↦ absurd (cc ((==_iff q p).0 e, i, out))
  | inr e ↦ e
]
