-- ===== src/Cache/Optimized/Lru.antt =====
-- What a shard of cache_optimized.go is meant to be: its items, the one of the last use or the last
-- `Set` first, and the counter of its size.
pub mod Links
pub mod Unlink
pub mod Link
pub mod Pointers
pub mod Keeps
pub mod Chain
pub mod Represents
pub mod Promote
pub mod Uses
pub mod Evict
pub mod Steps
pub mod Gets
pub mod Runs
pub mod Bounds
pub mod Capacity
use klayengo.Prelude.{
  ℕ, Bool, true, false, if◌then◌else◌, String, Option, none, some, List, [], ◌∷◌,
}
use klayengo.Prelude.Int.{ℤ, pos, ltb_ℤ, leb_ℤ}
use klayengo.Prelude.Int64.{add64, sub64}
use text.Mathlib.Text.{◌==◌}
use klayengo.Http.{Header, Response}
use klayengo.HttpCache.{CacheEntry}
use klayengo.Cache.Optimized.{OptimizedCacheEntry}
use klayengo.Cache.Optimized.Calls.{copy_of, entry_of, is_tenth}

-- An entry without its links and its flag.
pub record Item : Type 0 where
  pub key : String
  pub response : Option Response
  pub body : List ℕ
  pub header : Header
  pub expires_at : ℤ
  pub etag : String
  pub last_modified : Option ℤ
  pub max_age : Option ℤ
  pub stale_at : ℤ
  pub is_stale : Bool
  pub access_count : ℤ
  pub last_access : ℤ

abbrev pub item_of : OptimizedCacheEntry → Item
item_of e = record {
  key = e.key;
  response = e.response;
  body = e.body;
  header = e.header;
  expires_at = e.expires_at;
  etag = e.etag;
  last_modified = e.last_modified;
  max_age = e.max_age;
  stale_at = e.stale_at;
  is_stale = e.is_stale;
  access_count = e.access_count;
  last_access = e.last_access;
}

-- The item between two neighbours.
abbrev pub linked : Item → Option ℕ → Option ℕ → OptimizedCacheEntry
linked d before after = record {
  key = d.key;
  response = d.response;
  body = d.body;
  header = d.header;
  expires_at = d.expires_at;
  etag = d.etag;
  last_modified = d.last_modified;
  max_age = d.max_age;
  stale_at = d.stale_at;
  is_stale = d.is_stale;
  prev = before;
  next = after;
  access_count = d.access_count;
  last_access = d.last_access;
  hot_promoted = false;
}

pub record Lru : Type 0 where
  pub items : List Item
  pub size : ℤ

unfoldable pub find_item : String → List Item → Option Item
find_item key [] = none
find_item key (d ∷ items) = if d.key == key then some d else find_item key items

unfoldable pub remove_item : String → List Item → List Item
remove_item key [] = []
remove_item key (d ∷ items) = if d.key == key then items else d ∷ remove_item key items

unfoldable pub replace_item : String → Item → List Item → List Item
replace_item key e [] = []
replace_item key e (d ∷ items) = if d.key == key then e ∷ items else d ∷ replace_item key e items

unfoldable pub drop_last : List Item → List Item
drop_last [] = []
drop_last (d ∷ []) = []
drop_last (d ∷ e ∷ items) = d ∷ drop_last (e ∷ items)

abbrev pub used : Item → ℤ → Item
used d now = record d { access_count = add64 d.access_count (pos 1); last_access = now }

-- Every tenth use brings the item to the front.
unfoldable pub use_item : Item → List Item → List Item
unfolding remove_item replace_item
use_item d items =
    if is_tenth d.access_count then d ∷ remove_item d.key items else replace_item d.key d items

-- An expired item goes, and the counter keeps counting it.
unfoldable pub get_found : Option Item → Lru → String → ℤ → Lru × Option CacheEntry
unfolding use_item remove_item
get_found none l key now = (l, none)
get_found (some d) l key now =
    if ltb_ℤ d.expires_at now
    then (record l { items = remove_item key l.items }, none)
    else (record l { items = use_item (used d now) l.items }, some (copy_of (linked d none none)))

unfoldable pub lru_get : Lru → String → ℤ → Lru × Option CacheEntry
unfolding get_found find_item
lru_get l key now = get_found (find_item key l.items) l key now

unfoldable pub drop_found : Option Item → Lru → String → Lru
unfolding remove_item
drop_found none l key = l
drop_found (some d) l key = record { items = remove_item key l.items; size = sub64 l.size (pos 1) }

unfoldable pub lru_delete : Lru → String → Lru
unfolding drop_found find_item
lru_delete l key = drop_found (find_item key l.items) l key

unfoldable pub evicted : List Item → Lru → Lru
unfolding drop_last
evicted [] l = l
evicted (d ∷ items) l = record { items = drop_last (d ∷ items); size = sub64 l.size (pos 1) }

-- `Set`: at the threshold the last item makes room, then the key's old item goes.
unfoldable pub lru_set : ℤ → Lru → Item → Lru
unfolding evicted lru_delete
lru_set threshold l d =
    let room = if leb_ℤ threshold l.size then evicted l.items l else l in
    let rest = lru_delete room d.key in
    record { items = d ∷ rest.items; size = add64 rest.size (pos 1) }
