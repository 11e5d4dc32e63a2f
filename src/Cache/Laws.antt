-- ===== src/Cache/Laws.antt =====
-- The sharded cache is a map from keys to pointers to entries that expire.
use text.Mathlib.Text.{◌==◌}
use text.Mathlib.TextPositions.{eq_refl}
use text.Mathlib.TextEquality.{eq_iff}
use native.Mathlib.Nat.{mod-lt}
use klayengo.Prelude.{
  ℕ, zero, suc, ◌<◌, Bool, true, false, ◌||◌, ◌≡◌, refl, ap, ◌∙◌, if◌then◌else◌, String, Option,
  none, some, List, [], ◌∷◌, length, set, arith, ◌==◌ as nat_eq,
}
use klayengo.Prelude.Int.{ℤ, ◌+ℤ◌, ◌≤ℤ◌, ltb_ℤ}
use klayengo.Prelude.Assoc.{lookup, delete, lookup-insert, lookup-delete}
use klayengo.HttpCache.{CacheEntry}
use klayengo.Cache.{
  Store, InMemoryCache, store_at, shard_index, get_shard, put_shard, get, set_entry, set_new, write,
  delete_entry,
}

-- As many shards as counted, and at least one.
pub record IsWell (c : InMemoryCache) : Type 0 where
  pub some_shard : 0 < c.num_shards
  pub counted : length c.shards ≡ c.num_shards

store_at-set :
    (ss : List Store) (i j : ℕ) (s : Store)
    → i < length ss
    → store_at (set ss i s) j ≡ (if nat_eq i j then s else store_at ss j)
unfolding store_at
store_at-set [] i j s h = elim h [ ]
store_at-set (x ∷ ss) zero zero s h = ground arith
store_at-set (x ∷ ss) zero (suc j) s h = ground arith
store_at-set (x ∷ ss) (suc i) zero s h = ground arith
store_at-set (x ∷ ss) (suc i) (suc j) s h =
    let rest = store_at-set ss i j s (omega arith) in ground (arith, rest)

length-set : (ss : List Store) (i : ℕ) (s : Store) → length (set ss i s) ≡ length ss
length-set [] i s = refl
length-set (x ∷ ss) zero s = refl
length-set (x ∷ ss) (suc i) s = ap suc (length-set ss i s)

unfoldable pub is_at : ℕ → Option ℕ → Bool
is_at p none = false
is_at p (some q) = nat_eq q p

-- What a pointer, if there is one, points to.
unfoldable pub entry_at : (ℕ → CacheEntry) → Option ℕ → Option CacheEntry
entry_at entries none = none
entry_at entries (some p) = some (entries p)

entry_at-write :
    (entries : ℕ → CacheEntry) (p : ℕ) (e : CacheEntry) (b : Bool) (o : Option ℕ)
    → entry_at (λ i. if nat_eq i p then e else entries i) (if b then some p else o)
      ≡ (if b || is_at p o then some e else entry_at entries o)
unfolding is_at entry_at
entry_at-write entries p e true o = ground arith
entry_at-write entries p e false none = ground arith
entry_at-write entries p e false (some q) = ground arith

entry_at-gone :
    (entries : ℕ → CacheEntry) (b : Bool) (o : Option ℕ)
    → entry_at entries (if b then none else o) ≡ (if b then none else entry_at entries o)
unfolding entry_at
entry_at-gone entries true o = refl
entry_at-gone entries false o = refl

module _ (hash : String → ℕ) where
  -- The pointer that the store holds for a key.
  abbrev pub pointer : InMemoryCache → String → Option ℕ
  pointer c key = lookup key (get_shard hash c key)

  -- Whether the store holds the pointer `p` for a key.
  abbrev pub points_to : InMemoryCache → String → ℕ → Bool
  points_to c key p = is_at p (pointer c key)

  -- The entry that the store holds for a key, expired or not.
  abbrev pub find : InMemoryCache → String → Option CacheEntry
  find c key = entry_at c.entries (pointer c key)

  pub put_shard-IsWell :
      (c : InMemoryCache) (k : String) (s : Store) → IsWell c → IsWell (put_shard hash c k s)
  unfolding put_shard
  put_shard-IsWell c k s w = omega (arith, length-set c.shards (shard_index hash c k) s)

  pub index_in_range :
      (c : InMemoryCache) (k : String) → IsWell c → shard_index hash c k < length c.shards
  unfolding shard_index
  index_in_range c k w = omega (arith, mod-lt (hash k) w.some_shard)

  get_shard-put_shard :
      (c : InMemoryCache) (k j : String) (s : Store)
      → IsWell c
      → get_shard hash (put_shard hash c k s) j
        ≡ (if nat_eq (shard_index hash c k) (shard_index hash c j) then s else get_shard hash c j)
  unfolding put_shard get_shard
  get_shard-put_shard c k j s w =
      store_at-set c.shards (shard_index hash c k) (shard_index hash c j) s (index_in_range c k w)

  same_shard :
      (c : InMemoryCache) (k j : String)
      → shard_index hash c k ≡ shard_index hash c j
      → get_shard hash c k ≡ get_shard hash c j
  unfolding get_shard
  same_shard c k j e = ap (store_at c.shards) e

  -- A write to the store of `k` is seen at `j` as a write to one map.
  pointer-put_shard :
      (c : InMemoryCache) (k j : String) (s : Store) (v : Option ℕ)
      → IsWell c
      → lookup j s ≡ (if k == j then v else lookup j (get_shard hash c k))
      → pointer (put_shard hash c k s) j ≡ (if k == j then v else pointer c j)
  pointer-put_shard c k j s v w h =
      rw (get_shard-put_shard c k j s w)
        (ground (arith, same_shard c k j, eq_iff k j, ap (shard_index hash c) {x = k} {y = j}))

  module _ (c : InMemoryCache) (w : IsWell c) (k j : String) where
    pointer-set_entry :
        (p : ℕ) (ttl now : ℤ)
        → pointer (set_entry hash c k p ttl now) j ≡ (if k == j then some p else pointer c j)
    unfolding set_entry write get_shard put_shard
    pointer-set_entry p ttl now =
        let renewed = write c p (record (c.entries p) { expires_at = now +ℤ ttl }) in
        pointer-put_shard renewed k j _ _
          (record { some_shard = w.some_shard; counted = w.counted })
          (lookup-insert k j p (get_shard hash renewed k))

    find-set_entry :
        (p : ℕ) (ttl now : ℤ)
        → find (set_entry hash c k p ttl now) j ≡ (
            if (k == j) || points_to c j p
            then some (record (c.entries p) { expires_at = now +ℤ ttl })
            else find c j)
    unfolding set_entry write put_shard
    find-set_entry p ttl now =
        let renewed = record (c.entries p) { expires_at = now +ℤ ttl } in
        ap (entry_at (write c p renewed).entries) (pointer-set_entry p ttl now)
        ∙ entry_at-write c.entries p renewed (k == j) (pointer c j)

  find-put_shard :
      (c : InMemoryCache) (k j : String) (s : Store)
      → IsWell c
      → lookup j s ≡ (if k == j then none else lookup j (get_shard hash c k))
      → find (put_shard hash c k s) j ≡ (if k == j then none else find c j)
  unfolding put_shard
  find-put_shard c k j s w h =
      ap (entry_at c.entries) (pointer-put_shard c k j s none w h)
      ∙ entry_at-gone c.entries (k == j) (pointer c j)

  find-delete_entry :
      (c : InMemoryCache) (w : IsWell c) (k j : String)
      → find (delete_entry hash c k) j ≡ (if k == j then none else find c j)
  unfolding delete_entry
  find-delete_entry c w k j = find-put_shard c k j _ w (lookup-delete k j (get_shard hash c k))

  -- What a read at `now` sees of an entry.
  visible : Option CacheEntry → ℤ → Option CacheEntry
  visible none now = none
  visible (some e) now = if ltb_ℤ e.expires_at now then none else some e

  get-visible :
      (c : InMemoryCache) (k : String) (now : ℤ) → (get hash c k now).1 ≡ visible (find c k) now
  unfolding get visible entry_at
  get-visible c k now = ground arith

  find-get :
      (c : InMemoryCache) (w : IsWell c) (k j : String) (now : ℤ)
      → find (get hash c k now).0 j ≡ (if k == j then visible (find c k) now else find c j)
  unfolding get visible entry_at
  find-get c w k j now = ground (
    arith,
    find-put_shard c k j (delete k (get_shard hash c k)) w (lookup-delete k j (get_shard hash c k)),
    eq_iff k j,
    ap (find c) {x = k} {y = j},
  )

  -- The same key after `Set` of an entry that the caller has just made.
  pub find-set_new :
      (c : InMemoryCache) (w : IsWell c) (k : String) (e : CacheEntry) (ttl now : ℤ)
      → find (set_new hash c k e ttl now) k ≡ some (record e { expires_at = now +ℤ ttl })
  unfolding set_new write
  find-set_new c w k e ttl now =
      let made = write (record c { next = suc c.next }) c.next e in
      let well : IsWell made = record { some_shard = w.some_shard; counted = w.counted } in
      let eq_at : nat_eq c.next c.next ≡ true = ground arith in
      find-set_entry made well k k c.next ttl now ∙ ground (arith, eq_refl k, eq_at)

  -- The cache returns an entry that the caller has just made and set until it expires.
  pub get-set_new :
      (c : InMemoryCache) (k : String) (e : CacheEntry) (ttl now later : ℤ)
      → IsWell c
      → later ≤ℤ now +ℤ ttl
      → (get hash (set_new hash c k e ttl now) k later).1
        ≡ some (record e { expires_at = now +ℤ ttl })
  unfolding visible
  get-set_new c k e ttl now later w h =
      rw (get-visible (set_new hash c k e ttl now) k later, find-set_new c w k e ttl now)
        (ground (arith, h))

  module _ (c : InMemoryCache) (w : IsWell c) (k j : String) (later : ℤ) where
    -- After `Set` of a pointer with a time to live, `Get` of the same key, and of any other key that
    -- holds the same pointer, returns the entry at the pointer with its new expiry up to the expiry
    -- and nothing after it, and `Get` of any further key returns what it would have returned
    -- without the `Set`; in a cache with at least one shard and as many shards as it counts, for
    -- every hash.
    pub get-set_entry :
        (p : ℕ) (ttl now : ℤ)
        → (get hash (set_entry hash c k p ttl now) j later).1 ≡ (
            if (k == j) || points_to c j p
            then (if ltb_ℤ (now +ℤ ttl) later
                then none
                else some (record (c.entries p) { expires_at = now +ℤ ttl }))
            else (get hash c j later).1)
    unfolding visible
    get-set_entry p ttl now =
        rw
          (
            get-visible (set_entry hash c k p ttl now) j later,
            get-visible c j later,
            find-set_entry c w k j p ttl now,
          )
          (ground arith)

    -- After `Delete`, `Get` of the same key finds nothing, and of any other key what it would have
    -- found, under the same conditions.
    pub get-delete_entry :
        (get hash (delete_entry hash c k) j later).1
        ≡ (if k == j then none else (get hash c j later).1)
    unfolding visible
    get-delete_entry =
        rw
          (
            get-visible (delete_entry hash c k) j later,
            get-visible c j later,
            find-delete_entry c w k j,
          )
          (ground arith)

    -- A `Get` of any key changes no result of a later `Get`, under the same conditions.
    get-get :
        (now : ℤ)
        → now ≤ℤ later
        → (get hash (get hash c k now).0 j later).1 ≡ (get hash c j later).1
    unfolding visible
    get-get now h =
        rw (get-visible (get hash c k now).0 j later, get-visible c j later, find-get c w k j now)
          (ground (arith, eq_iff k j))
