-- ===== src/Cache/Optimized/Lru/Uses.antt =====
-- `Get` of a shard is that of the list that it stands for: the entry it finds has been used once more, and
-- the tenth use brings it to the front.
use text.Mathlib.TextEquality.{eq_iff}
use klayengo.Prelude.{
  ℕ, ◌≡◌, refl, sym, ap, subst, ◌∙◌, String, Bool, true, false, if◌then◌else◌, ◌∷◌, arith, ==_iff,
}
use klayengo.Prelude.Int.{ℤ, pos}
use klayengo.Prelude.Int64.{add64}
use klayengo.Cache.Optimized.{OptimizedCacheEntry, OptimizedCacheShard, promote_hot_entry, write}
use klayengo.Cache.Optimized.Calls.{hit, is_tenth}
use klayengo.Cache.Optimized.Lru.{Item, Lru, linked, used, use_item, remove_item, replace_item}
use klayengo.Cache.Optimized.Lru.Links.{first, onto}
use klayengo.Cache.Optimized.Lru.Pointers.{replace_item-onto}
use klayengo.Cache.Optimized.Lru.Keeps.{Agree, Kept-onto, taken-AgreeBut}
use klayengo.Cache.Optimized.Lru.Chain.{
  Around, Chain-Around, Around-Chain, Around-write, Chain-recount,
}
use klayengo.Cache.Optimized.Lru.Represents.{Represents, Found, Found-heap, Found-remove_item}
use klayengo.Cache.Optimized.Lru.Promote.{promote_hot_entry-Promoted, used-Agree, front-Agree}

abbrev pub seen_at : OptimizedCacheShard → ℕ → ℤ → OptimizedCacheShard
seen_at s p now = record s {
  heap = write s.heap p (record (s.heap p) {
    access_count = add64 (s.heap p).access_count (pos 1);
    last_access = now;
  });
}

-- The counters of the answers are not part of the list.
pub recount :
    (s : OptimizedCacheShard) (l : Lru) (hits misses : ℤ)
    → Represents s l
    → Represents (record s { hits = hits; misses = misses }) l
recount s l hits misses r = record {
  cells = r.cells;
  chain = Chain-recount s r.cells s.store hits misses s.evictions s.size r.chain;
  agree = r.agree;
  items = r.items;
  size = r.size;
}

module _ (s : OptimizedCacheShard) (l : Lru) (key : String) (p : ℕ) (f : Found s l key p)
    (now : ℤ) where
  abbrev item : Item
  item = used f.place.item now

  -- The entry behind `p` has been used once more, where it stands.
  seen-Around :
      Around (seen_at s p now) p f.place.front f.place.behind
      × ((seen_at s p now).heap p ≡ linked item (first f.place.front) (first f.place.behind))
  unfolding write
  seen-Around =
      let (around, at) = Chain-Around s p f.place.front f.place.behind f.place.item f.place.chain in
      let again : OptimizedCacheEntry → OptimizedCacheEntry =
        λ e. record e { access_count = add64 e.access_count (pos 1); last_access = now } in
      (
        Around-write s p (again (s.heap p)) f.place.front f.place.behind around refl refl,
        ground (arith, ==_iff p p) ∙ ap again at,
      )

  seen-Represents :
      Represents (seen_at s p now) (record l { items = replace_item item.key item l.items })
  unfolding replace_item
  seen-Represents =
      let w = f.place in
      let (around, at) = seen-Around in
      record {
        cells = onto w.front ((p, item) ∷ w.behind);
        chain = Around-Chain (seen_at s p now) p item w.front w.behind around at;
        agree = used-Agree w.item now p s.store w.front w.behind w.agree;
        items = sym (
            ap (λ k. replace_item k item l.items) f.same_key
            ∙ ap (replace_item key item) (sym w.items)
            ∙ replace_item-onto key item w.front ((p, w.item) ∷ w.behind) ((p, item) ∷ w.behind)
                f.lacks (ground (arith, eq_iff w.item.key key, f.same_key)));
        size = w.size;
      }

  promoted-Represents :
      Represents
        (promote_hot_entry (seen_at s p now) p)
        (record l { items = item ∷ remove_item item.key l.items })
  promoted-Represents =
      let w = f.place in
      let (around, at) = seen-Around in
      let t = promote_hot_entry-Promoted (seen_at s p now) p item w.front w.behind around at in
      let (front, (there, back)) =
        Kept-onto s.store w.front ((p, w.item) ∷ w.behind) w.agree.kept in
      let rest =
        taken-AgreeBut w.item p s.store w.front w.behind w.agree around.out_rs around.out_ys in
      record {
        cells = (p, item) ∷ onto w.front w.behind;
        chain = t.chain;
        agree =
            subst (λ store. Agree store ((p, item) ∷ onto w.front w.behind)) (sym t.same_store)
              (front-Agree item p s.store (onto w.front w.behind) rest there);
        items =
            ap (λ items. item ∷ items)
              (sym (ap (λ k. remove_item k l.items) f.same_key ∙ Found-remove_item s l key p f));
        size = t.same_size ∙ w.size;
      }

  moved-Represents :
      (tenth : Bool)
      → Represents
          (if tenth then promote_hot_entry (seen_at s p now) p else seen_at s p now)
          (record l {
            items =
                if tenth
                then item ∷ remove_item item.key l.items
                else replace_item item.key item l.items;
          })
  moved-Represents true = promoted-Represents
  moved-Represents false = seen-Represents

  pub hit-Represents : Represents (hit s p now).0 (record l { items = use_item item l.items })
  unfolding hit use_item
  hit-Represents =
      let tenth = is_tenth (add64 (s.heap p).access_count (pos 1)) in
      let moved = if tenth then promote_hot_entry (seen_at s p now) p else seen_at s p now in
      let same : (s.heap p).access_count ≡ f.place.item.access_count =
        ap (λ e. e.access_count) (Found-heap s l key p f) in
      recount moved (record l { items = use_item item l.items }) (add64 moved.hits (pos 1))
        moved.misses
        (subst
          (λ n. Represents moved (record l {
            items =
                if is_tenth (add64 n (pos 1))
                then item ∷ remove_item item.key l.items
                else replace_item item.key item l.items;
          }))
          same (moved-Represents tenth))
