-- ===== src/Cache/Optimized/Lru/Represents.antt =====
-- What it is for a shard to stand for a list of items, and the two ways an entry is looked up: by its key
-- and at the tail.
use text.Mathlib.TextEquality.{eq_iff}
use klayengo.Prelude.{ℕ, ◌≡◌, refl, sym, ap, subst, ◌∙◌, String, none, some, List, [], ◌∷◌, arith}
use klayengo.Prelude.Assoc.{lookup}
use klayengo.Cache.Optimized.{OptimizedCacheShard, remove_lru}
use klayengo.Cache.Optimized.Lru.{Item, Lru, linked, find_item, remove_item}
use klayengo.Cache.Optimized.Lru.Links.{Cells, first, onto}
use klayengo.Cache.Optimized.Lru.Pointers.{
  pointer, items_of, locate, find_item-onto, remove_item-onto, find_item-none,
}
use klayengo.Cache.Optimized.Lru.Keeps.{Agree, AgreeBut, taken-AgreeBut}
use klayengo.Cache.Optimized.Lru.Chain.{Chain, Chain-Around, remove_lru-Chain, Chain-recount}

pub record Represents (s : OptimizedCacheShard) (l : Lru) : Type 0 where
  pub cells : Cells
  pub chain : Chain s cells
  pub agree : Agree s.store cells
  pub items : items_of cells ≡ l.items
  pub size : s.size ≡ l.size

-- The shard stands for the list, but for what its store says of one key, which no item has.
pub record RepresentsBut (key : String) (s : OptimizedCacheShard) (l : Lru) : Type 0 where
  pub cells : Cells
  pub chain : Chain s cells
  pub agree : AgreeBut key s.store cells
  pub items : items_of cells ≡ l.items
  pub size : s.size ≡ l.size

-- An entry of the shard in its place.
pub record Placed (s : OptimizedCacheShard) (l : Lru) (p : ℕ) : Type 0 where
  pub front : Cells
  pub item : Item
  pub behind : Cells
  pub chain : Chain s (onto front ((p, item) ∷ behind))
  pub agree : Agree s.store (onto front ((p, item) ∷ behind))
  pub items : items_of (onto front ((p, item) ∷ behind)) ≡ l.items
  pub size : s.size ≡ l.size

pub record Found (s : OptimizedCacheShard) (l : Lru) (key : String) (p : ℕ) : Type 0 where
  pub place : Placed s l p
  pub same_key : place.item.key ≡ key
  pub lacks : pointer key place.front ≡ none

unfoldable pub placed :
    (s : OptimizedCacheShard) (l : Lru) (p : ℕ) (r : Represents s l) (rs ys : Cells) (d : Item)
    → r.cells ≡ onto rs ((p, d) ∷ ys)
    → Placed s l p
placed s l p r rs ys d split = record {
  front = rs;
  item = d;
  behind = ys;
  chain = subst (Chain s) split r.chain;
  agree = subst (Agree s.store) split r.agree;
  items = sym (ap items_of split) ∙ r.items;
  size = r.size;
}

module _ (s : OptimizedCacheShard) (l : Lru) (key : String) (r : Represents s l) where
  pub lookup-Found : (p : ℕ) → lookup key s.store ≡ some p → Found s l key p
  unfolding placed
  lookup-Found p h =
      let at = locate key p r.cells (sym (r.agree.all key) ∙ h) in
      record {
        place = placed s l p r at.front at.behind at.item at.split;
        same_key = at.same_key;
        lacks = at.lacks;
      }

  pub lookup-none : lookup key s.store ≡ none → find_item key l.items ≡ none
  lookup-none h =
      ap (find_item key) (sym r.items) ∙ find_item-none key r.cells (sym (r.agree.all key) ∙ h)

-- The list and the store once the entry is taken out of the list, whatever the store is by then.
pub record Taken (s : OptimizedCacheShard) (store : List (String × ℕ)) (l : Lru) (p : ℕ)
    (key : String) (cs : Cells) : Type 0 where
  pub chain : Chain (remove_lru (record s { store = store }) p) cs
  pub agree : AgreeBut key s.store cs
  pub same_store : (remove_lru (record s { store = store }) p).store ≡ store
  pub same_size : (remove_lru (record s { store = store }) p).size ≡ l.size

pub Placed-Taken :
    (s : OptimizedCacheShard) (store : List (String × ℕ)) (l : Lru) (p : ℕ) (w : Placed s l p)
    → Taken s store l p w.item.key (onto w.front w.behind)
Placed-Taken s store l p w =
    let cs = onto w.front ((p, w.item) ∷ w.behind) in
    let s' = record s { store = store } in
    let (around, at) =
      Chain-Around s' p w.front w.behind w.item
        (Chain-recount s cs store s.hits s.misses s.evictions s.size w.chain) in
    let (chain, alone, same_store, same_size, same_free) =
      remove_lru-Chain s' p w.front w.behind around in
    record {
      chain = chain;
      agree = taken-AgreeBut w.item p s.store w.front w.behind w.agree around.out_rs around.out_ys;
      same_store = same_store;
      same_size = same_size ∙ w.size;
    }

-- The item that an entry stands for, found and taken out by its key.
module _ (s : OptimizedCacheShard) (l : Lru) (key : String) (p : ℕ) (f : Found s l key p) where
  pub Found-heap : s.heap p ≡ linked f.place.item (first f.place.front) (first f.place.behind)
  Found-heap = (Chain-Around s p f.place.front f.place.behind f.place.item f.place.chain).1

  pub Found-find_item : find_item key l.items ≡ some f.place.item
  unfolding find_item
  Found-find_item =
      ap (find_item key) (sym f.place.items)
      ∙ find_item-onto key f.place.front ((p, f.place.item) ∷ f.place.behind) f.lacks
      ∙ ground (arith, eq_iff f.place.item.key key, f.same_key)

  pub Found-remove_item : remove_item key l.items ≡ items_of (onto f.place.front f.place.behind)
  unfolding remove_item
  Found-remove_item =
      ap (remove_item key) (sym f.place.items)
      ∙ remove_item-onto key f.place.front ((p, f.place.item) ∷ f.place.behind) f.place.behind
          f.lacks (ground (arith, eq_iff f.place.item.key key, f.same_key))

-- The last entry of a list that is not empty.
pub record End (cs : Cells) : Type 0 where
  pub front : Cells
  pub at : ℕ
  pub item : Item
  pub split : cs ≡ onto front ((at, item) ∷ [])

pub onto-End : (rs cs : Cells) (p : ℕ) (d : Item) → End (onto rs ((p, d) ∷ cs))
onto-End rs [] p d = record { front = rs; at = p; item = d; split = refl }
onto-End rs ((q, e) ∷ cs) p d = onto-End ((p, d) ∷ rs) cs q e
