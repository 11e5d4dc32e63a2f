-- ===== src/Cache/Optimized/Lru/Pointers.antt =====
-- Cells and the store's pointers to them, and the items of the cells.
use text.Mathlib.Text.{◌==◌}
use text.Mathlib.TextEquality.{eq_iff}
use klayengo.Prelude.{
  ℕ, ◌≡◌, refl, ap, ◌∙◌, if◌then◌else◌, String, Option, none, some, List, [], ◌∷◌, arith,
  Bool-cases, inl, inr,
}
use klayengo.Cache.Optimized.Lru.{Item, find_item, remove_item, replace_item, drop_last}
use klayengo.Cache.Optimized.Lru.Links.{Cells, onto}

-- The pointer of the first cell with a key.
abbrev pub pointer : String → Cells → Option ℕ
pointer key [] = none
pointer key ((p, d) ∷ cs) = if d.key == key then some p else pointer key cs

abbrev pub items_of : Cells → List Item
items_of [] = []
items_of ((p, d) ∷ cs) = d ∷ items_of cs

-- The place of a key's cell.
pub record Located (key : String) (cs : Cells) (p : ℕ) : Type 0 where
  pub front : Cells
  pub item : Item
  pub behind : Cells
  pub split : cs ≡ onto front ((p, item) ∷ behind)
  pub same_key : item.key ≡ key
  pub lacks : pointer key front ≡ none

locate_from :
    (key : String) (p : ℕ) (rs cs : Cells)
    → pointer key rs ≡ none
    → pointer key cs ≡ some p
    → Located key (onto rs cs) p
locate_from key p rs [] lacks h = absurd (cc (h))
locate_from key p rs ((q, d) ∷ cs) lacks h = elim (Bool-cases (d.key == key)) [
  | inl e ↦
      let same : q ≡ p = ground (arith, h, e) in
      record {
        front = rs;
        item = d;
        behind = cs;
        split = ap (λ p. onto rs ((p, d) ∷ cs)) same;
        same_key = (eq_iff d.key key).0 e;
        lacks = lacks;
      }
  | inr e ↦ locate_from key p ((q, d) ∷ rs) cs (ground (arith, e, lacks)) (ground (arith, h, e))
]

pub locate : (key : String) (p : ℕ) (cs : Cells) → pointer key cs ≡ some p → Located key cs p
locate key p cs h = locate_from key p [] cs refl h

module _ (key : String) where
  pub find_item-onto :
      (rs cs : Cells)
      → pointer key rs ≡ none
      → find_item key (items_of (onto rs cs)) ≡ find_item key (items_of cs)
  unfolding find_item
  find_item-onto [] cs lacks = refl
  find_item-onto ((r, d) ∷ rs) cs lacks =
      find_item-onto rs ((r, d) ∷ cs) (ground (arith, lacks)) ∙ ground (arith, lacks)

  -- What is done from a cell on is done behind the cells in front of it.
  pub remove_item-onto :
      (rs cs cs' : Cells)
      → pointer key rs ≡ none
      → remove_item key (items_of cs) ≡ items_of cs'
      → remove_item key (items_of (onto rs cs)) ≡ items_of (onto rs cs')
  unfolding remove_item
  remove_item-onto [] cs cs' lacks h = h
  remove_item-onto ((r, d) ∷ rs) cs cs' lacks h =
      remove_item-onto rs ((r, d) ∷ cs) ((r, d) ∷ cs') (ground (arith, lacks))
        (ground (arith, lacks, h))

  pub replace_item-onto :
      (e : Item) (rs cs cs' : Cells)
      → pointer key rs ≡ none
      → replace_item key e (items_of cs) ≡ items_of cs'
      → replace_item key e (items_of (onto rs cs)) ≡ items_of (onto rs cs')
  unfolding replace_item
  replace_item-onto e [] cs cs' lacks h = h
  replace_item-onto e ((r, d) ∷ rs) cs cs' lacks h =
      replace_item-onto e rs ((r, d) ∷ cs) ((r, d) ∷ cs') (ground (arith, lacks))
        (ground (arith, lacks, h))

  -- Without a pointer there is no item.
  pub find_item-none : (cs : Cells) → pointer key cs ≡ none → find_item key (items_of cs) ≡ none
  unfolding find_item
  find_item-none [] h = refl
  find_item-none ((p, d) ∷ cs) h = ground (arith, h, find_item-none cs)

-- A non-empty list of cells ends behind its first one.
pub drop_last-onto :
    (rs : Cells) (cs cs' : Cells) (c d : Item) (items : List Item)
    → items_of cs ≡ c ∷ items
    → drop_last (c ∷ items) ≡ items_of cs'
    → drop_last (items_of (onto rs cs)) ≡ items_of (onto rs cs')
unfolding drop_last
drop_last-onto [] cs cs' c d items is h = ap drop_last is ∙ h
drop_last-onto ((r, e) ∷ rs) cs cs' c d items is h =
    drop_last-onto rs ((r, e) ∷ cs) ((r, e) ∷ cs') e d (c ∷ items) (ap (λ x. e ∷ x) is)
      (ap (λ x. e ∷ x) h)
