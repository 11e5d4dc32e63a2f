-- ===== src/HttpCache/Directives.antt =====
-- What the parser of Cache-Control reads from a header.
use klayengo.Prelude.{
  ℕ, ◌≡◌, refl, sym, ap, subst, inl, inr, Bool, true, false, ◌||◌, Option, none, some, List, [],
  ◌∷◌, arith, Bool-cases,
}
use klayengo.Prelude.Int.{ℤ}
use klayengo.Text.{codes, text_eq, trim_space, trim_quotes, split, split_once, atoi}
use klayengo.HttpCache.{
  CacheDirectives, no_directives, set_value, set_flag, apply_part, apply_parts, parse_cache_control,
}

-- One of the parts, trimmed, is the word.
unfoldable pub has_part : List ℕ → List (List ℕ) → Bool
has_part w [] = false
has_part w (p ∷ ps) = text_eq (trim_space p) w || has_part w ps

text_eq_sound : (a b : List ℕ) → text_eq a b ≡ true → a ≡ b
unfolding text_eq
text_eq_sound [] [] h = refl
text_eq_sound [] (y ∷ ys) h = cc
text_eq_sound (x ∷ xs) [] h = cc
text_eq_sound (x ∷ xs) (y ∷ ys) h = ground (arith, text_eq_sound xs ys)

-- A word without "=" is no part that has one.
no_value :
    (t w : List ℕ) (kv : List ℕ × List ℕ)
    → split_once b'=' w ≡ none
    → split_once b'=' t ≡ some kv
    → text_eq t w ≡ false
no_value t w kv h e = elim (Bool-cases (text_eq t w)) [
  | inr no_match ↦ no_match
  | inl same ↦ let q = ap (split_once b'=') (text_eq_sound t w same) in cc (q, h, e)
]

module _ (d : CacheDirectives) (k : List ℕ) (v : Option ℤ) where
  set_value-flags :
      ((set_value k v d).no_store ≡ d.no_store)
      × ((set_value k v d).no_cache ≡ d.no_cache)
      × ((set_value k v d).must_revalidate ≡ d.must_revalidate)
  unfolding set_value
  set_value-flags = ground arith

apart : (t a b : List ℕ) → text_eq a b ≡ false → text_eq t a ≡ true → text_eq t b ≡ false
apart t a b h e = subst (λ x. text_eq x b ≡ false) (sym (text_eq_sound t a e)) h

words_differ :
    (text_eq (codes "no-store") (codes "no-cache") ≡ false)
    × (text_eq (codes "no-store") (codes "must-revalidate") ≡ false)
    × (text_eq (codes "no-cache") (codes "must-revalidate") ≡ false)
unfolding text_eq
words_differ = (refl, refl, refl)

set_flag-flags :
    (t : List ℕ) (d : CacheDirectives)
    → ((set_flag t d).no_store ≡ (text_eq t (codes "no-store") || d.no_store))
      × ((set_flag t d).no_cache ≡ (text_eq t (codes "no-cache") || d.no_cache))
      × ((set_flag t d).must_revalidate
          ≡ (text_eq t (codes "must-revalidate") || d.must_revalidate))
unfolding set_flag
set_flag-flags t d = ground (
  arith,
  apart t (codes "no-store") (codes "no-cache") words_differ.0,
  apart t (codes "no-store") (codes "must-revalidate") words_differ.1,
  apart t (codes "no-cache") (codes "must-revalidate") words_differ.2,
)

no_equals :
    (split_once b'=' (codes "no-store") ≡ none)
    × (split_once b'=' (codes "no-cache") ≡ none)
    × (split_once b'=' (codes "must-revalidate") ≡ none)
unfolding split_once
no_equals = (refl, refl, refl)

not_empty :
    (text_eq [] (codes "no-store") ≡ false)
    × (text_eq [] (codes "no-cache") ≡ false)
    × (text_eq [] (codes "must-revalidate") ≡ false)
unfolding text_eq
not_empty = (refl, refl, refl)

apply_part-flags :
    (t : List ℕ) (d : CacheDirectives) (o : Option (List ℕ × List ℕ))
    → split_once b'=' t ≡ o
    → ((apply_part t o d).no_store ≡ (text_eq t (codes "no-store") || d.no_store))
      × ((apply_part t o d).no_cache ≡ (text_eq t (codes "no-cache") || d.no_cache))
      × ((apply_part t o d).must_revalidate
          ≡ (text_eq t (codes "must-revalidate") || d.must_revalidate))
unfolding apply_part
apply_part-flags t d (some (k, v)) e =
    let (a, b, c) = set_value-flags d (trim_space k) (atoi (trim_quotes (trim_space v))) in
    ground (
      arith,
      a,
      b,
      c,
      no_value t (codes "no-store") (k, v) no_equals.0 e,
      no_value t (codes "no-cache") (k, v) no_equals.1 e,
      no_value t (codes "must-revalidate") (k, v) no_equals.2 e,
    )
apply_part-flags t d none e =
    let (a, b, c) = set_flag-flags t d in
    ground (
      arith,
      a,
      b,
      c,
      apart t [] (codes "no-store") not_empty.0,
      apart t [] (codes "no-cache") not_empty.1,
      apart t [] (codes "must-revalidate") not_empty.2,
    )

apply_parts-flags :
    (ps : List (List ℕ)) (d : CacheDirectives)
    → ((apply_parts ps d).no_store ≡ (has_part (codes "no-store") ps || d.no_store))
      × ((apply_parts ps d).no_cache ≡ (has_part (codes "no-cache") ps || d.no_cache))
      × ((apply_parts ps d).must_revalidate
          ≡ (has_part (codes "must-revalidate") ps || d.must_revalidate))
unfolding apply_parts has_part
apply_parts-flags [] d = (refl, refl, refl)
apply_parts-flags (p ∷ ps) d =
    let t = trim_space p in
    let d' = apply_part t (split_once b'=' t) d in
    ground (arith, apply_part-flags t d (split_once b'=' t) refl, apply_parts-flags ps d')

-- A header sets no-store, no-cache or must-revalidate exactly when one of its comma-separated
-- parts, trimmed of spaces, is that word, whatever the other parts are and in whatever order.
pub parse_cache_control-flags :
    (h : List ℕ)
    → let d = parse_cache_control h in
      (d.no_store ≡ has_part (codes "no-store") (split b',' h))
      × (d.no_cache ≡ has_part (codes "no-cache") (split b',' h))
      × (d.must_revalidate ≡ has_part (codes "must-revalidate") (split b',' h))
unfolding parse_cache_control no_directives has_part split text_eq trim_space
parse_cache_control-flags [] = (refl, refl, refl)
parse_cache_control-flags (c ∷ cs) =
    ground (arith, apply_parts-flags (split b',' (c ∷ cs)) no_directives)
