-- ===== src/Cache/Optimized/Lru/Keeps.antt =====
-- A store that agrees with the cells, and what a change of either leaves of that.
use text.Mathlib.Text.{◌==◌}
use text.Mathlib.TextEquality.{eq_iff}
use text.Mathlib.TextPositions.{eq_refl}
use klayengo.Prelude.{
  ℕ, ◌≡◌, refl, sym, ◌∙◌, false, if◌then◌else◌, String, none, some, List, [], ◌∷◌, arith,
  Bool-cases, inl, inr,
}
use klayengo.Prelude.Assoc.{lookup, insert, delete, lookup-insert, lookup-delete}
use klayengo.Cache.Optimized.Lru.{Item}
use klayengo.Cache.Optimized.Lru.Pointers.{pointer}
use klayengo.Cache.Optimized.Lru.Links.{Cells, onto, has}

-- Every cell is the store's for its key.
abbrev pub Kept : List (String × ℕ) → Cells → Type 0
Kept store [] = Unit
Kept store ((p, d) ∷ cs) = (lookup d.key store ≡ some p) × Kept store cs

-- The store and the cells agree on all keys but one, which no cell has.
pub record AgreeBut (key : String) (store : List (String × ℕ)) (cs : Cells) : Type 0 where
  pub others : (k : String) → (key == k) ≡ false → lookup k store ≡ pointer k cs
  pub gone : pointer key cs ≡ none
  pub kept : Kept store cs

pub record Agree (store : List (String × ℕ)) (cs : Cells) : Type 0 where
  pub all : (k : String) → lookup k store ≡ pointer k cs
  pub kept : Kept store cs

pub Agree-AgreeBut :
    (key : String) (store : List (String × ℕ)) (cs : Cells)
    → Agree store cs
    → lookup key store ≡ none
    → AgreeBut key store cs
Agree-AgreeBut key store cs a h = record {
  others = λ k e. a.all k;
  gone = sym (a.all key) ∙ h;
  kept = a.kept;
}

Kept-delete :
    (key : String) (store : List (String × ℕ)) (cs : Cells)
    → Kept store cs
    → pointer key cs ≡ none
    → Kept (delete key store) cs
Kept-delete key store [] kept gone = tt
Kept-delete key store ((p, d) ∷ cs) (at, kept) gone = (
  lookup-delete key d.key store ∙ ground (arith, at, gone, eq_iff key d.key, eq_iff d.key key),
  Kept-delete key store cs kept (ground (arith, gone)),
)

pub delete-Agree :
    (key : String) (store : List (String × ℕ)) (cs : Cells)
    → AgreeBut key store cs
    → Agree (delete key store) cs
delete-Agree key store cs a = record {
  all = λ k. lookup-delete key k store ∙ ground (arith, a.others k, a.gone, eq_iff key k);
  kept = Kept-delete key store cs a.kept a.gone;
}

Kept-insert :
    (key : String) (q : ℕ) (store : List (String × ℕ)) (cs : Cells)
    → Kept store cs
    → pointer key cs ≡ none
    → Kept (insert key q store) cs
Kept-insert key q store [] kept gone = tt
Kept-insert key q store ((p, d) ∷ cs) (at, kept) gone = (
  lookup-insert key d.key q store ∙ ground (arith, at, gone, eq_iff key d.key, eq_iff d.key key),
  Kept-insert key q store cs kept (ground (arith, gone)),
)

pub insert-Agree :
    (d : Item) (q : ℕ) (store : List (String × ℕ)) (cs : Cells)
    → AgreeBut d.key store cs
    → Agree (insert d.key q store) ((q, d) ∷ cs)
insert-Agree d q store cs a = record {
  all = λ k. lookup-insert d.key k q store ∙ ground (arith, a.others k);
  kept = (
    lookup-insert d.key d.key q store ∙ ground (arith, eq_refl d.key),
    Kept-insert d.key q store cs a.kept a.gone,
  );
}

pub Kept-onto :
    (store : List (String × ℕ)) (rs cs : Cells)
    → Kept store (onto rs cs)
    → Kept store rs × Kept store cs
Kept-onto store [] cs kept = (tt, kept)
Kept-onto store ((r, d) ∷ rs) cs kept =
    let (front, (at, back)) = Kept-onto store rs ((r, d) ∷ cs) kept in ((at, front), back)

pub onto-Kept :
    (store : List (String × ℕ)) (rs cs : Cells)
    → Kept store rs
    → Kept store cs
    → Kept store (onto rs cs)
onto-Kept store [] cs front back = back
onto-Kept store ((r, d) ∷ rs) cs (at, front) back =
    onto-Kept store rs ((r, d) ∷ cs) front (at, back)

-- No other cell has the key of a cell.
pub Kept-lacks :
    (key : String) (p : ℕ) (store : List (String × ℕ)) (cs : Cells)
    → Kept store cs
    → lookup key store ≡ some p
    → has p cs ≡ false
    → pointer key cs ≡ none
Kept-lacks key p store [] kept h out = refl
Kept-lacks key p store ((q, d) ∷ cs) (at, kept) h out = elim (Bool-cases (d.key == key)) [
  | inl e ↦
      let same : q ≡ p = cc (at, h, (eq_iff d.key key).0 e) in absurd (ground (arith, same, out))
  | inr e ↦ ground (arith, e, Kept-lacks key p store cs kept h (ground (arith, out)))
]

pointer-onto :
    (key k : String) (rs cs cs' : Cells)
    → pointer key rs ≡ none
    → pointer k cs' ≡ (if key == k then none else pointer k cs)
    → pointer k (onto rs cs') ≡ (if key == k then none else pointer k (onto rs cs))
pointer-onto key k [] cs cs' lacks h = h
pointer-onto key k ((r, d) ∷ rs) cs cs' lacks h =
    pointer-onto key k rs ((r, d) ∷ cs) ((r, d) ∷ cs') (ground (arith, lacks))
      (ground (arith, lacks, h, eq_iff key k, eq_iff d.key k, eq_iff d.key key))

-- Once a cell is taken out, the store agrees with the rest but for its key.
pub taken-AgreeBut :
    (d : Item) (p : ℕ) (store : List (String × ℕ)) (rs ys : Cells)
    → Agree store (onto rs ((p, d) ∷ ys))
    → has p rs ≡ false
    → has p ys ≡ false
    → AgreeBut d.key store (onto rs ys)
taken-AgreeBut d p store rs ys a out_rs out_ys =
    let (front, (at, back)) = Kept-onto store rs ((p, d) ∷ ys) a.kept in
    let lacks_rs = Kept-lacks d.key p store rs front at out_rs in
    let lacks_ys = Kept-lacks d.key p store ys back at out_ys in
    let known : (k : String)
        → pointer k (onto rs ys)
          ≡ (if d.key == k then none else pointer k (onto rs ((p, d) ∷ ys))) =
      λ k.
        pointer-onto d.key k rs ((p, d) ∷ ys) ys lacks_rs
          (ground (arith, lacks_ys, eq_iff d.key k)) in
    record {
      others = λ k e. a.all k ∙ sym (known k ∙ ground (arith, e));
      gone = known d.key ∙ ground (arith, eq_refl d.key);
      kept = onto-Kept store rs ys front back;
    }
