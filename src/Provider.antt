-- ===== src/Provider.antt =====
-- The cache providers of cache_provider.go over any `Cache` (types.go), and the conversions between
-- responses and entries of cache.go. A method takes each reading of the clock that the source
-- takes; a method that replaces the body of the response returns that response too.
pub mod Stale
pub mod Stored
pub mod Entries
mod Examples
use klayengo.Prelude.{
  ℕ, suc, Bool, true, false, ◌&&◌, if◌then◌else◌, String, Option, none, some, List, [], ◌∷◌, take,
  length, leb,
}
use klayengo.Prelude.Int.{ℤ, pos, negsuc, ◌+ℤ◌, ◌-ℤ◌, ltb_ℤ, eqb_ℤ}
use klayengo.Prelude.Int64.{saturating_sub64}
use klayengo.Http.{Header, Body, Response, header_set}
use klayengo.HttpCache.{CacheEntry, Layout, zero_time, create_enhanced_cache_entry}

pub data CacheMode : Type 0 where
  ttl_only http_semantics swr : CacheMode

-- The interface `Cache`. Every method is given the clock's reading; `write_back` is what becomes of
-- the cache when the caller changes the entry that `get` returned for the key, which is shared.
pub record Cache : Type 1 where
  pub State : Type 0
  pub get : State → String → ℤ → State × Option CacheEntry
  pub set : State → String → CacheEntry → ℤ → ℤ → State
  pub delete : State → String → State
  pub write_back : State → String → CacheEntry → State

abbrev pub reader : List ℕ → Option Body
reader content = some (record { content = content; broken = false })

-- `time.Until`: the difference, kept inside an int64.
unfoldable pub until : ℤ → ℤ → ℤ
until t now = saturating_sub64 t now

-- `createResponseFromCache`, and the same lines of `DefaultCacheProvider.Get`.
unfoldable pub create_response_from_cache : CacheEntry → Response
create_response_from_cache entry = record {
  status_code = entry.status_code;
  header = entry.header;
  body = reader entry.body;
  request_method = none;
}

-- `maxCacheSize`, 10 MiB.
abbrev pub max_cache_size : ℕ
max_cache_size = 10485760

-- `io.ReadAll(io.LimitReader(body, limit))`: the error of the body is met only before the limit.
read_limited : ℕ → Body → Option (List ℕ)
read_limited limit b =
    if b.broken && leb (suc (length b.content)) limit then none else some (take limit b.content)

-- The entry and the response that the caller keeps; `none` is a nil entry. The client calls it with
-- a body that is not nil.
create_entry : Option (List ℕ) → Response → Option (CacheEntry × Response)
create_entry none resp = none
create_entry (some content) resp = some (
  record {
    response = some resp;
    body = content;
    status_code = resp.status_code;
    header = resp.header;
    expires_at = zero_time;
    etag = "";
    last_modified = none;
    max_age = none;
    stale_at = none;
    is_stale = false;
  },
  record resp { body = reader content },
)

unfoldable pub create_cache_entry : Body → Response → Option (CacheEntry × Response)
unfolding read_limited create_entry
create_cache_entry b resp = create_entry (read_limited max_cache_size b) resp

-- `io.ReadAll` of the response's body: its bytes and the response with a fresh body, or the
-- response with what is left of a body whose read failed.
pub data ReadResult : Type 0 where
  read_all : List ℕ → Response → ReadResult
  read_failed : Response → ReadResult

read_body : Option Body → Response → ReadResult
read_body none resp = read_all [] resp
read_body (some b) resp =
    if b.broken
    then read_failed (record resp { body = some (record { content = []; broken = true }) })
    else read_all b.content (record resp { body = reader b.content })

module _ (c : Cache) where
  open c use {State}

  -- `DefaultCacheProvider.Get`.
  unfoldable pub default_get : State → String → ℤ → State × Option Response
  unfolding create_response_from_cache
  default_get s key now =
      let (s', found) = c.get s key now in
      (s', elim found [ none ↦ none | some entry ↦ some (create_response_from_cache entry) ])

  default_set_read : ReadResult → State → String → ℤ → ℤ → ℤ → State × Response
  default_set_read (read_failed resp) s key own_ttl ttl now = (s, resp)
  default_set_read (read_all content resp) s key own_ttl ttl now =
      let entry : CacheEntry = record {
        response = some resp;
        body = content;
        status_code = resp.status_code;
        header = resp.header;
        expires_at = zero_time;
        etag = "";
        last_modified = none;
        max_age = none;
        stale_at = none;
        is_stale = false;
      } in
      (c.set s key entry (if eqb_ℤ ttl (pos 0) then own_ttl else ttl) now, resp)

  -- `DefaultCacheProvider.Set`; `own_ttl` is the provider's `ttl`.
  unfoldable pub default_set : ℤ → State → String → Response → ℤ → ℤ → State × Response
  unfolding read_body default_set_read
  default_set own_ttl s key resp ttl now =
      default_set_read (read_body resp.body resp) s key own_ttl ttl now

  -- `Invalidate` of either provider.
  unfoldable pub invalidate : State → String → State
  invalidate s key = c.delete s key

-- `createResponseFromEntry`.
unfoldable pub create_response_from_entry : CacheEntry → Response
unfolding create_response_from_cache
create_response_from_entry entry = record (create_response_from_cache entry) {
  header = header_set "X-Cache-Status" (if entry.is_stale then "stale" else "hit") entry.header;
}

abbrev is_swr : CacheMode → Bool
is_swr swr = true
is_swr _ = false

abbrev before : ℤ → Option ℤ → Bool
before now none = false
before now (some t) = ltb_ℤ now t

module _ (c : Cache) where
  open c use {State}

  semantic_found : CacheMode → Option CacheEntry → State → String → ℤ → State × Option Response
  unfolding create_response_from_entry
  semantic_found mode none s key now = (s, none)
  semantic_found mode (some entry) s key now =
      if ltb_ℤ entry.expires_at now
      then (if is_swr mode && before now entry.stale_at
          then (let stale = record entry { is_stale = true } in
              (c.write_back s key stale, some (create_response_from_entry stale)))
          else (c.delete s key, none))
      else (s, some (create_response_from_entry entry))

  -- `HTTPSemanticsCacheProvider.Get`; `get_at` is the reading of the cache's `Get`.
  unfoldable pub semantic_get : CacheMode → State → String → ℤ → ℤ → State × Option Response
  unfolding semantic_found
  semantic_get mode s key get_at now =
      let (s', found) = c.get s key get_at in semantic_found mode found s' key now

-- The four readings of `HTTPSemanticsCacheProvider.Set`, in order: when the response counts as
-- received, when a default expiry is set, when `time.Until` is taken, and that of the cache's `Set`.
pub record SetTimes : Type 0 where
  pub received_at : ℤ
  pub default_at : ℤ
  pub until_at : ℤ
  pub set_at : ℤ

module _ (c : Cache) (time_parse : Layout → String → Option ℤ) where
  open c use {State}

  -- An entry without an expiry of its own gets one from the time to live.
  default_expiry : ℤ → ℤ → ℤ → CacheEntry → CacheEntry
  default_expiry default_ttl ttl now entry =
      if eqb_ℤ entry.expires_at zero_time
      then record entry { expires_at = now +ℤ (if eqb_ℤ ttl (pos 0) then default_ttl else ttl) }
      else entry

  semantic_set_read : ReadResult → ℤ → State → String → ℤ → SetTimes → State × Response
  unfolding default_expiry until create_enhanced_cache_entry
  semantic_set_read (read_failed resp) default_ttl s key ttl t = (s, resp)
  semantic_set_read (read_all content resp) default_ttl s key ttl t =
      let entry =
        default_expiry default_ttl ttl t.default_at
          (create_enhanced_cache_entry time_parse resp content t.received_at) in
      (c.set s key entry (until entry.expires_at t.until_at) t.set_at, resp)

  -- `HTTPSemanticsCacheProvider.Set`.
  unfoldable pub semantic_set : ℤ → State → String → Response → ℤ → SetTimes → State × Response
  unfolding read_body semantic_set_read
  semantic_set default_ttl s key resp ttl t =
      semantic_set_read (read_body resp.body resp) default_ttl s key ttl t
