-- ===== src/Cache/Optimized/Lru/Evict.antt =====
-- The eviction of a shard is that of the list that it stands for.
use klayengo.Prelude.{ℕ, ◌≡◌, refl, sym, ap, subst, ◌∙◌, none, some, [], ◌∷◌}
use klayengo.Prelude.Int.{pos}
use klayengo.Prelude.Int64.{sub64}
use klayengo.Prelude.Assoc.{delete}
use klayengo.Cache.Optimized.{OptimizedCacheShard, remove_lru, evict_at, evict_lru}
use klayengo.Cache.Optimized.Lru.{Lru, drop_last, evicted}
use klayengo.Cache.Optimized.Lru.Links.{Cells, last, onto, last-onto}
use klayengo.Cache.Optimized.Lru.Pointers.{items_of, drop_last-onto}
use klayengo.Cache.Optimized.Lru.Keeps.{Agree, AgreeBut, delete-Agree}
use klayengo.Cache.Optimized.Lru.Chain.{Chain-Around, Chain-recount}
use klayengo.Cache.Optimized.Lru.Represents.{Represents, Placed, placed, Placed-Taken, onto-End}

evict_last :
    (s : OptimizedCacheShard) (l : Lru) (p : ℕ) (w : Placed s l p)
    → w.behind ≡ []
    → Represents
        (evict_at (some p) s).0
        (record { items = drop_last l.items; size = sub64 l.size (pos 1) })
unfolding evict_at drop_last
evict_last s l p w alone =
    let key = (s.heap p).key in
    let t = Placed-Taken s (delete key s.store) l p w in
    let same_key : w.item.key ≡ key =
      sym (ap (λ e. e.key) (Chain-Around s p w.front w.behind w.item w.chain).1) in
    let s' = remove_lru (record s { store = delete key s.store }) p in
    let rest = onto w.front w.behind in
    record {
      cells = rest;
      chain = Chain-recount s' rest s'.store s'.hits s'.misses _ _ t.chain;
      agree =
          subst (λ store. Agree store rest) (sym t.same_store)
            (delete-Agree key s.store rest (subst (λ k. AgreeBut k s.store rest) same_key t.agree));
      items = sym (
          ap drop_last (sym w.items)
          ∙ drop_last-onto w.front ((p, w.item) ∷ w.behind) w.behind w.item w.item []
              (ap (λ ys. w.item ∷ items_of ys) alone) (sym (ap items_of alone)));
      size = ap (λ n. sub64 n (pos 1)) t.same_size;
    }

evict_cells :
    (s : OptimizedCacheShard) (l : Lru) (cs : Cells)
    → (r : Represents s l) → r.cells ≡ cs
    → Represents (evict_lru s).0 (evicted l.items l)
unfolding evict_lru evict_at evicted placed
evict_cells s l [] r split =
    let empty : l.items ≡ [] = sym r.items ∙ ap items_of split in
    let no_tail : s.tail ≡ none = r.chain.tail ∙ ap (last none) split in
    subst (λ t. Represents (evict_at t s).0 (evicted l.items l)) (sym no_tail)
      (subst (λ items. Represents s (evicted items l)) (sym empty) r)
evict_cells s l ((q, d) ∷ cs) r split =
    let end = onto-End [] cs q d in
    let at = placed s l end.at r end.front [] end.item (split ∙ end.split) in
    let tail : s.tail ≡ some end.at =
      r.chain.tail
      ∙ ap (last none) (split ∙ end.split)
      ∙ last-onto end.front ((end.at, end.item) ∷ []) in
    let full : l.items ≡ d ∷ items_of cs = sym r.items ∙ ap items_of split in
    let here : evicted l.items l
        ≡ record { items = drop_last l.items; size = sub64 l.size (pos 1) } =
      ap (λ items. evicted items l) full
      ∙ ap (λ items. record { items = drop_last items; size = sub64 l.size (pos 1) }) (sym full) in
    subst (λ t. Represents (evict_at t s).0 (evicted l.items l)) (sym tail)
      (subst (Represents (evict_at (some end.at) s).0) (sym here) (evict_last s l end.at at refl))

pub evict_lru-Represents :
    (s : OptimizedCacheShard) (l : Lru)
    → Represents s l
    → Represents (evict_lru s).0 (evicted l.items l)
evict_lru-Represents s l r = evict_cells s l r.cells r refl
