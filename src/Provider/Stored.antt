-- ===== src/Provider/Stored.antt =====
-- What the provider with HTTP semantics stores in the in-memory cache.
use klayengo.Prelude.{
  ℕ, ◌≡◌, refl, ◌∙◌, ap, ◌||◌, true, if◌then◌else◌, String, Option, some, List, arith,
}
use klayengo.Prelude.Int.{ℤ, pos, ◌+ℤ◌, ◌-ℤ◌, ◌≤ℤ◌, eqb_ℤ}
use klayengo.Prelude.Int64.{InRange64, saturating_sub64}
use klayengo.Text.{codes}
use klayengo.Http.{Response}
use klayengo.HttpCache.{CacheEntry, Layout, zero_time, create_enhanced_cache_entry}
use klayengo.HttpCache.Directives.{has_part}
use klayengo.HttpCache.Expiry.{control_parts, create_enhanced_cache_entry-forbidden}
use klayengo.Cache.{InMemoryCache, set_new}
use klayengo.Cache.Laws.{IsWell, find, find-set_new}
use klayengo.Provider.{
  CacheMode, read_all, read_body, reader, SetTimes, default_expiry, until, semantic_set_read,
  semantic_set, semantic_get, create_response_from_entry,
}
use klayengo.Provider.Stale.{in_memory, semantic_get_fresh}

until_exact : (t now : ℤ) → InRange64 (t -ℤ now) → until t now ≡ t -ℤ now
unfolding until saturating_sub64
until_exact t now h = ground arith

-- A body that can be read, as bytes.
abbrev pub Reads : Response → List ℕ → Type 0
Reads resp content = resp.body ≡ reader content

read_body-Reads :
    (resp : Response) (content : List ℕ)
    → Reads resp content
    → read_body resp.body resp ≡ read_all content (record resp { body = reader content })
unfolding read_body
read_body-Reads resp content h = ap (λ b. read_body b resp) h

module _ (hash : String → ℕ) (time_parse : Layout → String → Option ℤ) (c : InMemoryCache)
    (w : IsWell c) (key : String) (resp : Response) (content : List ℕ) (reads : Reads resp content)
    (default_ttl ttl : ℤ) (t : SetTimes) where
  -- The time to live that is used where the response names no expiry.
  abbrev used_ttl : ℤ
  used_ttl = if eqb_ℤ ttl (pos 0) then default_ttl else ttl

  -- The response whose body has been read and replaced, and the entry made of it.
  abbrev reread : Response
  reread = record resp { body = reader content }

  abbrev made : CacheEntry
  made = create_enhanced_cache_entry time_parse reread content t.received_at

  semantic_set_lem : semantic_set (in_memory hash) time_parse default_ttl c key resp ttl t ≡ (
      let e = default_expiry (in_memory hash) time_parse default_ttl ttl t.default_at made in
      (set_new hash c key e (until e.expires_at t.until_at) t.set_at, reread))
  unfolding semantic_set semantic_set_read
  semantic_set_lem =
      ap (λ r. semantic_set_read (in_memory hash) time_parse r default_ttl c key ttl t)
        (read_body-Reads resp content reads)

  default_expiry_lem :
      made.expires_at ≡ zero_time
      → default_expiry (in_memory hash) time_parse default_ttl ttl t.default_at made
        ≡ record made { expires_at = t.default_at +ℤ used_ttl }
  unfolding default_expiry
  default_expiry_lem h = ground arith

  module _
      (forbidden : (has_part (codes "no-store") (control_parts resp)
          || has_part (codes "no-cache") (control_parts resp))
        ≡ true)
      (range : InRange64 (t.default_at +ℤ used_ttl -ℤ t.until_at)) where
    -- The time up to which the entry is served.
    abbrev kept_until : ℤ
    kept_until = t.set_at +ℤ (t.default_at +ℤ used_ttl -ℤ t.until_at)

    abbrev stored : CacheEntry
    stored = record made { expires_at = kept_until }

    find-stored :
        find hash (semantic_set (in_memory hash) time_parse default_ttl c key resp ttl t).0 key
        ≡ some stored
    find-stored =
        let facts =
          create_enhanced_cache_entry-forbidden time_parse reread content t.received_at forbidden in
        let expiry = t.default_at +ℤ used_ttl in
        let e : CacheEntry = record made { expires_at = expiry } in
        ap (λ p. find hash p.0 key) semantic_set_lem
        ∙ ap (λ x. find hash (set_new hash c key x (until x.expires_at t.until_at) t.set_at) key)
            (default_expiry_lem facts.0)
        ∙ find-set_new hash c w key e (until expiry t.until_at) t.set_at
        ∙ rw (until_exact expiry t.until_at range) refl

    -- A response that says no-store or no-cache is stored all the same: over the in-memory cache
    -- (with its shards counted) the provider's `Set` of such a response with a readable body makes its
    -- `Get` at any later readings up to the time to live, in any mode, return a response with that
    -- status and body. The time to live is the one given or, if that is zero, the default, counted
    -- over the readings of the clock that `Set` takes, of which the differences are int64 values.
    pub semantic_get-semantic_set_forbidden :
        (mode : CacheMode) (get_at now : ℤ)
        → get_at ≤ℤ kept_until
        → now ≤ℤ kept_until
        → let s = (semantic_set (in_memory hash) time_parse default_ttl c key resp ttl t).0 in
          (r : Response) × ((semantic_get (in_memory hash) mode s key get_at now).1 ≡ some r)
          × (r.status_code ≡ resp.status_code)
          × (r.body ≡ reader content)
    unfolding create_response_from_entry
    semantic_get-semantic_set_forbidden mode get_at now h k =
        let s = (semantic_set (in_memory hash) time_parse default_ttl c key resp ttl t).0 in
        let facts =
          create_enhanced_cache_entry-forbidden time_parse reread content t.received_at forbidden in
        (
          create_response_from_entry stored,
          ap (λ p. p.1) (semantic_get_fresh hash mode s key stored get_at now find-stored h k),
          facts.3,
          ap reader facts.4,
        )
