-- ===== src/HttpCache.antt =====
-- HTTP cache semantics: http_cache.go. `time.Parse` is a parameter; a `time.Time` is its
-- nanoseconds since 1970, and the durations of a header are int64.
pub mod Directives
pub mod Expiry
pub mod Examples
use klayengo.Prelude.{
  ℕ, Bool, true, false, ◌||◌, if◌then◌else◌, String, Option, none, some, List, [], ◌∷◌,
}
use klayengo.Prelude.Int.{ℤ, pos, negsuc, ◌+ℤ◌, ltb_ℤ, eqb_ℤ}
use klayengo.Prelude.Int64.{mul64}
use klayengo.Text.{codes, text_eq, trim_space, trim_quotes, split, split_once, atoi}
use klayengo.Http.{Header, Body, Request, Response, header_get, header_set}
use text.Mathlib.Text.{◌==◌}

pub record CacheDirectives : Type 0 where
  pub no_store : Bool
  pub no_cache : Bool
  pub max_age : Option ℤ
  pub s_max_age : Option ℤ
  pub stale_while_revalidate : Option ℤ
  pub must_revalidate : Bool
  pub public : Bool
  pub private : Bool

unfoldable pub no_directives : CacheDirectives
no_directives = record {
  no_store = false;
  no_cache = false;
  max_age = none;
  s_max_age = none;
  stale_while_revalidate = none;
  must_revalidate = false;
  public = false;
  private = false;
}

-- `time.Duration(seconds) * time.Second`.
abbrev pub seconds_duration : ℤ → ℤ
seconds_duration s = mul64 s (pos 1_000_000_000)

-- A directive with a value that is no number is skipped.
set_value : List ℕ → Option ℤ → CacheDirectives → CacheDirectives
set_value key none d = d
set_value key (some seconds) d =
    if text_eq key (codes "max-age")
    then record d { max_age = some (seconds_duration seconds) }
    else if text_eq key (codes "s-maxage")
    then record d { s_max_age = some (seconds_duration seconds) }
    else if text_eq key (codes "stale-while-revalidate")
    then record d { stale_while_revalidate = some (seconds_duration seconds) }
    else d

set_flag : List ℕ → CacheDirectives → CacheDirectives
set_flag part d =
    if text_eq part (codes "no-store")
    then record d { no_store = true }
    else if text_eq part (codes "no-cache")
    then record d { no_cache = true }
    else if text_eq part (codes "must-revalidate")
    then record d { must_revalidate = true }
    else if text_eq part (codes "public")
    then record d { public = true }
    else if text_eq part (codes "private")
    then record d { private = true }
    else d

-- A trimmed part, and what an "=" splits it into.
apply_part : List ℕ → Option (List ℕ × List ℕ) → CacheDirectives → CacheDirectives
unfolding set_value set_flag
apply_part part (some (key, value)) d =
    set_value (trim_space key) (atoi (trim_quotes (trim_space value))) d
apply_part part none d = if text_eq part [] then d else set_flag part d

-- The loop over the parts.
apply_parts : List (List ℕ) → CacheDirectives → CacheDirectives
unfolding apply_part
apply_parts [] d = d
apply_parts (part ∷ parts) d =
    apply_parts parts (apply_part (trim_space part) (split_once b'=' (trim_space part)) d)

-- The header's code points; an empty header has no directives.
unfoldable pub parse_cache_control : List ℕ → CacheDirectives
unfolding apply_parts no_directives
parse_cache_control [] = no_directives
parse_cache_control (c ∷ cs) = apply_parts (split b',' (c ∷ cs)) no_directives

-- The layouts that are tried.
pub data Layout : Type 0 where
  rfc1123 rfc850 ansic : Layout

first_of_times : Option ℤ → Option ℤ → Option ℤ
first_of_times (some t) other = some t
first_of_times none other = other

module _ (time_parse : Layout → String → Option ℤ) where
  unfoldable pub parse_expires : String → Option ℤ
  unfolding first_of_times
  parse_expires header =
      if header == ""
      then none
      else first_of_times (time_parse rfc1123 header)
          (first_of_times (time_parse rfc850 header) (time_parse ansic header))

  unfoldable pub parse_last_modified : String → Option ℤ
  unfolding first_of_times
  parse_last_modified header =
      if header == ""
      then none
      else first_of_times (time_parse rfc1123 header)
          (first_of_times (time_parse rfc850 header) (time_parse ansic header))

  directives_of : Response → CacheDirectives
  unfolding parse_cache_control
  directives_of resp = parse_cache_control (codes (header_get "Cache-Control" resp.header))

  expiry_by : Option ℤ → Option ℤ → ℤ → Option ℤ
  expiry_by (some age) expires received_at = some (received_at +ℤ age)
  expiry_by none expires received_at = expires

  -- `none` where the source answers false.
  unfoldable pub calculate_cache_expiry : Response → ℤ → Option ℤ
  unfolding directives_of expiry_by parse_expires
  calculate_cache_expiry resp received_at =
      let d = directives_of resp in
      if d.no_store || d.no_cache
      then none
      else expiry_by d.max_age (parse_expires (header_get "Expires" resp.header)) received_at

-- The zero `time.Time`, year 1.
abbrev pub zero_time : ℤ
zero_time = negsuc 62_135_596_799_999_999_999

pub record CacheEntry : Type 0 where
  pub response : Option Response
  pub body : List ℕ
  pub status_code : ℤ
  pub header : Header
  pub expires_at : ℤ
  pub etag : String
  pub last_modified : Option ℤ
  pub max_age : Option ℤ
  pub stale_at : Option ℤ
  pub is_stale : Bool

-- `none` for a nil pointer; `now` is read only if the directives ask for no revalidation.
unfoldable pub should_revalidate : CacheEntry → Option CacheDirectives → ℤ → Bool
should_revalidate entry none now = false
should_revalidate entry (some d) now =
    if d.no_cache || d.must_revalidate then true else ltb_ℤ entry.expires_at now

unfoldable pub is_not_modified : Response → Bool
is_not_modified resp = eqb_ℤ resp.status_code (pos 304)

-- `format` is `time.Time.Format(time.RFC1123)`.
unfoldable pub add_conditional_headers : (ℤ → String) → Request → CacheEntry → Request
add_conditional_headers format req entry =
    let tagged =
      if entry.etag == "" then req.header else header_set "If-None-Match" entry.etag req.header in
    let dated : Header = elim entry.last_modified [
      | none ↦ tagged
      | some t ↦ header_set "If-Modified-Since" (format t) tagged
    ] in
    record req { header = dated }

module _ (time_parse : Layout → String → Option ℤ) where
  plain_entry : Response → List ℕ → CacheEntry
  unfolding parse_last_modified
  plain_entry resp body = record {
    response = some resp;
    body = body;
    status_code = resp.status_code;
    header = resp.header;
    expires_at = zero_time;
    etag = header_get "Etag" resp.header;
    last_modified = parse_last_modified time_parse (header_get "Last-Modified" resp.header);
    max_age = none;
    stale_at = none;
    is_stale = false;
  }

  stale_limit : ℤ → Option ℤ → Option ℤ
  stale_limit expiry none = none
  stale_limit expiry (some window) = some (expiry +ℤ window)

  with_expiry : Option ℤ → CacheDirectives → CacheEntry → CacheEntry
  unfolding stale_limit
  with_expiry none d entry = entry
  with_expiry (some expiry) d entry = record entry {
    expires_at = expiry;
    stale_at = stale_limit expiry d.stale_while_revalidate;
    max_age = d.max_age;
  }

  unfoldable pub create_enhanced_cache_entry : Response → List ℕ → ℤ → CacheEntry
  unfolding plain_entry with_expiry calculate_cache_expiry directives_of
  create_enhanced_cache_entry resp body received_at =
      with_expiry (calculate_cache_expiry time_parse resp received_at)
        (directives_of time_parse resp) (plain_entry resp body)
