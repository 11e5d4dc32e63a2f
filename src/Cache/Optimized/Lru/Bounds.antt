-- ===== src/Cache/Optimized/Lru/Bounds.antt =====
-- How many entries a shard holds.
use text.Mathlib.TextEquality.{eq_iff}
use klayengo.Prelude.{
  ℕ, suc, ◌+◌, ◌-◌, ◌<◌, ◌≤◌, ◌≡◌, refl, sym, ap, subst, ◌∙◌, String, if◌then◌else◌, Option, none,
  some, List, [], ◌∷◌, length, arith, Bool-cases, inl, inr,
}
use klayengo.Prelude.Int.{ℤ, pos, pos_part, ltb_ℤ, leb_ℤ}
use klayengo.Prelude.Int64.{add64, sub64, add64_pos, sub64_pos}
use klayengo.HttpCache.{CacheEntry}
use klayengo.Cache.Optimized.Calls.{copy_of}
use klayengo.Cache.Optimized.Lru.{
  Item, linked, Lru, find_item, remove_item, replace_item, drop_last, used, use_item, get_found,
  drop_found, lru_delete, evicted, lru_set,
}

pub length-remove_item :
    (key : String) (d : Item) (items : List Item)
    → find_item key items ≡ some d
    → suc (length (remove_item key items)) ≡ length items
unfolding find_item remove_item
length-remove_item key d [] h = absurd (cc (h))
length-remove_item key d (e ∷ items) h = ground (arith, h, length-remove_item key d items)

length-remove_item_le :
    (key : String) (items : List Item) → length (remove_item key items) ≤ length items
unfolding remove_item
length-remove_item_le key [] = omega arith
length-remove_item_le key (e ∷ items) = ground (arith, length-remove_item_le key items)

length-replace_item :
    (key : String) (d : Item) (items : List Item) → length (replace_item key d items) ≡ length items
unfolding replace_item
length-replace_item key d [] = refl
length-replace_item key d (e ∷ items) = ground (arith, length-replace_item key d items)

length-drop_last : (d : Item) (items : List Item) → length (drop_last (d ∷ items)) ≡ length items
unfolding drop_last
length-drop_last d [] = refl
length-drop_last d (e ∷ items) = ap suc (length-drop_last e items)

find_item-key :
    (key : String) (d : Item) (items : List Item) → find_item key items ≡ some d → d.key ≡ key
unfolding find_item
find_item-key key d [] h = absurd (cc (h))
find_item-key key d (e ∷ items) h = ground (arith, h, find_item-key key d items, eq_iff e.key key)

-- The items are at most those counted, and the count at most the number of calls so far.
pub record Counted (bound calls : ℕ) (l : Lru) : Type 0 where
  pub count : ℕ
  pub size : l.size ≡ pos count
  pub few : length l.items ≤ count
  pub made : count ≤ calls
  pub bounded : length l.items ≤ bound

-- A change that adds no item and leaves the count.
fewer :
    (bound calls : ℕ) (l : Lru) (items : List Item)
    → Counted bound calls l
    → length items ≤ length l.items
    → Counted bound calls (record l { items = items })
fewer bound calls l items c le = record {
  count = c.count;
  size = c.size;
  few = let f = c.few in omega arith;
  made = c.made;
  bounded = let b = c.bounded in omega arith;
}

length-use_item :
    (key : String) (d : Item) (now : ℤ) (items : List Item)
    → find_item key items ≡ some d
    → length (use_item (used d now) items) ≤ length items
unfolding use_item
length-use_item key d now items h =
    let same = find_item-key key d items h in
    let here : find_item d.key items ≡ some d = ap (λ k. find_item k items) same ∙ h in
    ground
      (arith, length-remove_item d.key d items here, length-replace_item d.key (used d now) items)

pub get_found-Counted :
    (bound calls : ℕ) (l : Lru) (key : String) (now : ℤ) (o : Option Item)
    → Counted bound calls l
    → find_item key l.items ≡ o
    → Counted bound calls (get_found o l key now).0
unfolding get_found
get_found-Counted bound calls l key now none c h = c
get_found-Counted bound calls l key now (some d) c h =
    let gone : Lru × Option CacheEntry = (record l { items = remove_item key l.items }, none) in
    let seen : Lru × Option CacheEntry =
      (record l { items = use_item (used d now) l.items }, some (copy_of (linked d none none))) in
    elim (Bool-cases (ltb_ℤ d.expires_at now)) [
      | inl e ↦
          subst (λ b. Counted bound calls (if b then gone else seen).0) (sym e)
            (fewer bound calls l (remove_item key l.items) c (length-remove_item_le key l.items))
      | inr e ↦
          subst (λ b. Counted bound calls (if b then gone else seen).0) (sym e)
            (fewer bound calls l (use_item (used d now) l.items) c
              (length-use_item key d now l.items h))
    ]

pub drop_found-Counted :
    (bound calls : ℕ) (l : Lru) (key : String) (o : Option Item)
    → calls < 9223372036854775808
    → Counted bound calls l
    → find_item key l.items ≡ o
    → Counted bound calls (drop_found o l key)
      × (length (drop_found o l key).items ≤ length l.items)
unfolding drop_found
drop_found-Counted bound calls l key none r c h = (c, omega arith)
drop_found-Counted bound calls l key (some d) r c h =
    let shorter = length-remove_item key d l.items h in
    let few = c.few in
    let made = c.made in
    let bounded = c.bounded in
    (
      record {
        count = c.count - 1;
        size = ap (λ n. sub64 n (pos 1)) c.size ∙ sub64_pos c.count 1 (omega arith) (omega arith);
        few = omega arith;
        made = omega arith;
        bounded = omega arith;
      },
      omega arith,
    )

-- An eviction leaves room for one more item, however the count stands.
evicted-Counted :
    (bound calls : ℕ) (l : Lru) (items : List Item)
    → calls < 9223372036854775808
    → 0 < bound
    → Counted bound calls l
    → l.items ≡ items
    → Counted bound calls (evicted items l) × (length (evicted items l).items < bound)
unfolding evicted
evicted-Counted bound calls l [] r b c h = (c, let none_left = ap length h in omega arith)
evicted-Counted bound calls l (d ∷ items) r b c h =
    let shorter = length-drop_last d items in
    let all = ap length h in
    let few = c.few in
    let made = c.made in
    let bounded = c.bounded in
    (
      record {
        count = c.count - 1;
        size = ap (λ n. sub64 n (pos 1)) c.size ∙ sub64_pos c.count 1 (omega arith) (omega arith);
        few = omega arith;
        made = omega arith;
        bounded = omega arith;
      },
      omega arith,
    )

-- Before the new item: the room is there whether the count has reached the threshold or not.
room-Counted :
    (threshold : ℤ) (bound calls : ℕ) (l : Lru)
    → calls < 9223372036854775808
    → 0 < bound
    → pos_part threshold ≤ bound
    → Counted bound calls l
    → let room = if leb_ℤ threshold l.size then evicted l.items l else l in
      Counted bound calls room × (length room.items < bound)
room-Counted threshold bound calls l r b t c = elim (Bool-cases (leb_ℤ threshold l.size)) [
  | inl e ↦
      subst
        (λ full.
          Counted bound calls (if full then evicted l.items l else l)
          × (length (if full then evicted l.items l else l).items < bound))
        (sym e) (evicted-Counted bound calls l l.items r b c refl)
  | inr e ↦
      subst
        (λ full.
          Counted bound calls (if full then evicted l.items l else l)
          × (length (if full then evicted l.items l else l).items < bound))
        (sym e)
        (
          c,
          (let few = c.few in
              let below = sym (ap (leb_ℤ threshold) c.size) ∙ e in ground (arith, few, below, t)),
        )
]

pub lru_set-Counted :
    (threshold : ℤ) (bound calls : ℕ) (l : Lru) (d : Item)
    → calls + 1 < 9223372036854775808
    → 0 < bound
    → pos_part threshold ≤ bound
    → Counted bound calls l
    → Counted bound (calls + 1) (lru_set threshold l d)
unfolding lru_set lru_delete
lru_set-Counted threshold bound calls l d r b t c =
    let (counted, free) = room-Counted threshold bound calls l (omega arith) b t c in
    let room = if leb_ℤ threshold l.size then evicted l.items l else l in
    let (rest, shorter) =
      drop_found-Counted bound calls room d.key (find_item d.key room.items) (omega arith) counted
        refl in
    let few = rest.few in
    let made = rest.made in
    record {
      count = rest.count + 1;
      size = ap (λ n. add64 n (pos 1)) rest.size ∙ add64_pos rest.count 1 (omega arith);
      few = omega arith;
      made = omega arith;
      bounded = omega arith;
    }
