-- ===== src/Cache/Optimized/Lru/Steps.antt =====
-- `Set` and `Delete` of a shard, and the eviction, are those of the list that it stands for.
use klayengo.Prelude.{
  ℕ, ◌+◌, ◌≡◌, refl, sym, ap, subst, ◌∙◌, String, Bool, true, false, if◌then◌else◌, Option, none,
  some, ◌∷◌, arith, Bool-cases, inl, inr, ==_iff,
}
use klayengo.Prelude.Int.{ℤ, pos, leb_ℤ}
use klayengo.Prelude.Int64.{sub64, add64}
use klayengo.Prelude.Assoc.{lookup, delete, insert}
use klayengo.Cache.Optimized.{
  OptimizedCacheEntry, OptimizedCacheShard, remove_lru, add_to_lru, evict_lru, write,
}
use klayengo.Cache.Optimized.Calls.{drop_existing, delete_at, delete_in, add_entry, set_in}
use klayengo.Cache.Optimized.Lru.{Item, Lru, linked, evicted, drop_found, lru_delete, lru_set}
use klayengo.Cache.Optimized.Lru.Links.{first, onto, has, has-other, Back-same}
use klayengo.Cache.Optimized.Lru.Keeps.{Agree, AgreeBut, Agree-AgreeBut, delete-Agree, insert-Agree}
use klayengo.Cache.Optimized.Lru.Chain.{Chain, Chain-recount, add_to_lru-Chain, Linked-Chain}
use klayengo.Cache.Optimized.Lru.Represents.{
  Represents, RepresentsBut, lookup-Found, lookup-none, Placed-Taken, Found-find_item,
  Found-remove_item,
}
use klayengo.Cache.Optimized.Lru.Evict.{evict_lru-Represents}

-- The old entry of a key goes, if there is one.
drop_existing_at :
    (s : OptimizedCacheShard) (l : Lru) (key : String) (o : Option ℕ)
    → Represents s l
    → lookup key s.store ≡ o
    → RepresentsBut key (drop_existing o s) (lru_delete l key)
unfolding drop_existing lru_delete drop_found
drop_existing_at s l key none r h =
    subst (λ d. RepresentsBut key s (drop_found d l key)) (sym (lookup-none s l key r h))
      (record {
        cells = r.cells;
        chain = r.chain;
        agree = Agree-AgreeBut key s.store r.cells r.agree h;
        items = r.items;
        size = r.size;
      })
drop_existing_at s l key (some p) r h =
    let f = lookup-Found s l key r p h in
    let t = Placed-Taken s s.store l p f.place in
    let rest = onto f.place.front f.place.behind in
    let s' = remove_lru s p in
    subst (λ d. RepresentsBut key (drop_existing (some p) s) (drop_found d l key))
      (sym (Found-find_item s l key p f))
      (record {
        cells = rest;
        chain = Chain-recount s' rest s'.store s'.hits s'.misses _ _ t.chain;
        agree =
            subst (λ store. AgreeBut key store rest) (sym t.same_store)
              (subst (λ k. AgreeBut k s.store rest) f.same_key t.agree);
        items = sym (Found-remove_item s l key p f);
        size = ap (λ n. sub64 n (pos 1)) t.same_size;
      })

delete_at-Represents :
    (s : OptimizedCacheShard) (l : Lru) (key : String) (o : Option ℕ)
    → Represents s l
    → lookup key s.store ≡ o
    → Represents (delete_at o s key) (lru_delete l key)
unfolding delete_at drop_existing lru_delete drop_found
delete_at-Represents s l key none r h =
    subst (λ d. Represents s (drop_found d l key)) (sym (lookup-none s l key r h)) r
delete_at-Represents s l key (some p) r h =
    let f = lookup-Found s l key r p h in
    let t = Placed-Taken s (delete key s.store) l p f.place in
    let rest = onto f.place.front f.place.behind in
    let s' = remove_lru (record s { store = delete key s.store }) p in
    subst (λ d. Represents (delete_at (some p) s key) (drop_found d l key))
      (sym (Found-find_item s l key p f))
      (record {
        cells = rest;
        chain = Chain-recount s' rest s'.store s'.hits s'.misses _ _ t.chain;
        agree =
            subst (λ store. Agree store rest) (sym t.same_store)
              (delete-Agree key s.store rest
                (subst (λ k. AgreeBut k s.store rest) f.same_key t.agree));
        items = sym (Found-remove_item s l key p f);
        size = ap (λ n. sub64 n (pos 1)) t.same_size;
      })

pub delete_in-Represents :
    (s : OptimizedCacheShard) (l : Lru) (key : String)
    → Represents s l
    → Represents (delete_in s key) (lru_delete l key)
unfolding delete_in
delete_in-Represents s l key r = delete_at-Represents s l key (lookup key s.store) r refl

-- A new entry stands in front.
add_entry-Represents :
    (s : OptimizedCacheShard) (l : Lru) (d : Item)
    → RepresentsBut d.key s l
    → Represents
        (add_entry s d.key (linked d none none))
        (record { items = d ∷ l.items; size = add64 l.size (pos 1) })
unfolding add_entry write
add_entry-Represents s l d r =
    let p = s.free in
    let stored = record s {
      store = insert d.key p s.store;
      heap = write s.heap p (linked d none none);
      free = p + 1;
    } in
    let out : has p r.cells ≡ false = elim (Bool-cases (has p r.cells)) [
      | inl e ↦ absurd (let less = r.chain.below p e in omega arith)
      | inr e ↦ e
    ] in
    let chain : Chain stored r.cells = record {
      back =
          Back-same s.heap stored.heap none r.cells r.chain.back
            (λ q i. ground (arith, has-other q p r.cells i out));
      head = r.chain.head;
      tail = r.chain.tail;
      nodup = r.chain.nodup;
      below = λ q i. let less = r.chain.below q i in omega arith;
    } in
    let at : stored.heap p ≡ linked d none none = ground (arith, ==_iff p p) in
    let k =
      add_to_lru-Chain stored p (linked d none none) r.cells chain out (omega arith) at refl in
    let added = add_to_lru stored p in
    let linked_in : OptimizedCacheEntry → OptimizedCacheEntry =
      λ e. record e { next = first r.cells } in
    let whole =
      Linked-Chain stored added p d r.cells chain out (omega arith) k added.heap (λ q e. refl)
        (k.front ∙ ap linked_in at) in
    record {
      cells = (p, d) ∷ r.cells;
      chain =
          Chain-recount added ((p, d) ∷ r.cells) added.store added.hits added.misses added.evictions
            _ whole;
      agree =
          subst (λ store. Agree store ((p, d) ∷ r.cells)) (sym k.same_store)
            (insert-Agree d p s.store r.cells r.agree);
      items = ap (λ items. d ∷ items) r.items;
      size = ap (λ n. add64 n (pos 1)) (k.same_size ∙ r.size);
    }

room-Represents :
    (full : Bool) (s : OptimizedCacheShard) (l : Lru)
    → Represents s l
    → Represents
        (if full then evict_lru s else (s, false)).0
        (if full then evicted l.items l else l)
room-Represents true s l r = evict_lru-Represents s l r
room-Represents false s l r = r

pub set_in-Represents :
    (threshold : ℤ) (s : OptimizedCacheShard) (l : Lru) (d : Item)
    → Represents s l
    → Represents (set_in threshold s d.key (linked d none none)).0 (lru_set threshold l d)
unfolding set_in lru_set
set_in-Represents threshold s l d r =
    let room = (if leb_ℤ threshold s.size then evict_lru s else (s, false)).0 in
    let room' = if leb_ℤ threshold l.size then evicted l.items l else l in
    let made : Represents room room' =
      subst (λ n. Represents room (if leb_ℤ threshold n then evicted l.items l else l)) r.size
        (room-Represents (leb_ℤ threshold s.size) s l r) in
    add_entry-Represents (drop_existing (lookup d.key room.store) room) (lru_delete room' d.key) d
      (drop_existing_at room room' d.key (lookup d.key room.store) made refl)
