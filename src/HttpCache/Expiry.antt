-- ===== src/HttpCache/Expiry.antt =====
-- When a response expires, and which entry is made of it.
use klayengo.Prelude.{ℕ, ◌≡◌, true, ◌||◌, String, Option, none, List, arith}
use klayengo.Prelude.Int.{ℤ}
use klayengo.Text.{codes, split}
use klayengo.Http.{Response, header_get}
use klayengo.HttpCache.{
  Layout, zero_time, directives_of, calculate_cache_expiry, create_enhanced_cache_entry,
}
use klayengo.HttpCache.Directives.{has_part, parse_cache_control-flags}

-- The parts of a response's Cache-Control.
abbrev pub control_parts : Response → List (List ℕ)
control_parts resp = split b',' (codes (header_get "Cache-Control" resp.header))

module _ (time_parse : Layout → String → Option ℤ) (resp : Response) where
  flags-forbid :
      (received_at : ℤ)
      → (has_part (codes "no-store") (control_parts resp)
          || has_part (codes "no-cache") (control_parts resp))
        ≡ true
      → calculate_cache_expiry time_parse resp received_at ≡ none
  unfolding calculate_cache_expiry directives_of
  flags-forbid received_at h =
      ground (arith, parse_cache_control-flags (codes (header_get "Cache-Control" resp.header)))

  -- A response with a part no-store or no-cache in its Cache-Control gives an entry with no expiry
  -- time (the zero time), no maximal age and no stale window, which still carries its status and
  -- the body.
  pub create_enhanced_cache_entry-forbidden :
      (body : List ℕ) (received_at : ℤ)
      → (has_part (codes "no-store") (control_parts resp)
          || has_part (codes "no-cache") (control_parts resp))
        ≡ true
      → let e = create_enhanced_cache_entry time_parse resp body received_at in
        (e.expires_at ≡ zero_time)
        × (e.max_age ≡ none)
        × (e.stale_at ≡ none)
        × (e.status_code ≡ resp.status_code)
        × (e.body ≡ body)
  unfolding create_enhanced_cache_entry
  create_enhanced_cache_entry-forbidden body received_at h =
      ground (arith, flags-forbid received_at h)
