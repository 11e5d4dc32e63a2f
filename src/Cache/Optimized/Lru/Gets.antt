-- ===== src/Cache/Optimized/Lru/Gets.antt =====
-- `Get` of a shard is that of the list that it stands for, its answer included.
use klayengo.Prelude.{
  ℕ, ◌≡◌, refl, sym, ap, subst, String, Bool, true, false, if◌then◌else◌, Option, none, some,
}
use klayengo.Prelude.Int.{ℤ, pos, ltb_ℤ}
use klayengo.Prelude.Int64.{add64}
use klayengo.Prelude.Assoc.{lookup, delete}
use klayengo.HttpCache.{CacheEntry}
use klayengo.Cache.Optimized.{OptimizedCacheShard, remove_lru}
use klayengo.Cache.Optimized.Calls.{hit, get_at, get_in, missed, copy_of}
use klayengo.Cache.Optimized.Lru.{Lru, linked, used, use_item, remove_item, get_found, lru_get}
use klayengo.Cache.Optimized.Lru.Links.{onto}
use klayengo.Cache.Optimized.Lru.Keeps.{Agree, AgreeBut, delete-Agree}
use klayengo.Cache.Optimized.Lru.Represents.{
  Represents, Found, lookup-Found, lookup-none, Placed-Taken, Found-heap, Found-find_item,
  Found-remove_item,
}
use klayengo.Cache.Optimized.Lru.Uses.{recount, hit-Represents}

-- A shard's answer, and the shard it leaves, are those of the list.
abbrev pub Answers : OptimizedCacheShard × Option CacheEntry → Lru × Option CacheEntry → Type 0
Answers (s, a) (l, b) = Represents s l × (a ≡ b)

expired-Represents :
    (s : OptimizedCacheShard) (l : Lru) (key : String) (p : ℕ) (f : Found s l key p)
    → Represents
        (remove_lru (record s { store = delete key s.store }) p)
        (record l { items = remove_item key l.items })
expired-Represents s l key p f =
    let t = Placed-Taken s (delete key s.store) l p f.place in
    let rest = onto f.place.front f.place.behind in
    record {
      cells = rest;
      chain = t.chain;
      agree =
          subst (λ store. Agree store rest) (sym t.same_store)
            (delete-Agree key s.store rest
              (subst (λ k. AgreeBut k s.store rest) f.same_key t.agree));
      items = sym (Found-remove_item s l key p f);
      size = t.same_size;
    }

-- Either way, for an entry that has expired and one that has not.
found-Answers :
    (s : OptimizedCacheShard) (l : Lru) (key : String) (p : ℕ) (f : Found s l key p) (now : ℤ)
    (expired : Bool)
    → Answers
        (if expired
          then missed (remove_lru (record s { store = delete key s.store }) p)
          else hit s p now)
        (if expired then (record l { items = remove_item key l.items }, none) else (
          record l { items = use_item (used f.place.item now) l.items },
          some (copy_of (linked f.place.item none none)),
        ))
unfolding hit
found-Answers s l key p f now true =
    let rest = remove_lru (record s { store = delete key s.store }) p in
    (
      recount rest (record l { items = remove_item key l.items }) rest.hits
          (add64 rest.misses (pos 1)) (expired-Represents s l key p f),
      refl,
    )
found-Answers s l key p f now false =
    (hit-Represents s l key p f now, ap (λ e. some (copy_of e)) (Found-heap s l key p f))

get_at-Answers :
    (s : OptimizedCacheShard) (l : Lru) (key : String) (now : ℤ) (o : Option ℕ)
    → Represents s l
    → lookup key s.store ≡ o
    → Answers (get_at o s key now) (lru_get l key now)
unfolding get_at lru_get get_found
get_at-Answers s l key now none r h =
    subst (λ d. Answers (missed s) (get_found d l key now)) (sym (lookup-none s l key r h))
      (recount s l s.hits (add64 s.misses (pos 1)) r, refl)
get_at-Answers s l key now (some p) r h =
    let f = lookup-Found s l key r p h in
    subst (λ d. Answers (get_at (some p) s key now) (get_found d l key now))
      (sym (Found-find_item s l key p f))
      (subst
        (λ at. Answers (get_at (some p) s key now) (
          if ltb_ℤ at now then (record l { items = remove_item key l.items }, none) else (
            record l { items = use_item (used f.place.item now) l.items },
            some (copy_of (linked f.place.item none none)),
          )))
        (ap (λ e. e.expires_at) (Found-heap s l key p f))
        (found-Answers s l key p f now (ltb_ℤ (s.heap p).expires_at now)))

pub get_in-Answers :
    (s : OptimizedCacheShard) (l : Lru) (key : String) (now : ℤ)
    → Represents s l
    → Answers (get_in s key now) (lru_get l key now)
unfolding get_in
get_in-Answers s l key now r = get_at-Answers s l key now (lookup key s.store) r refl
