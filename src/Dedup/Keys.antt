-- ===== src/Dedup/Keys.antt =====
-- `DefaultDeduplicationKeyFunc` of deduplication.go. The hashes, the bytes of a text and the printing in
-- hexadecimal are parameters.
use text.Mathlib.Text.{◌==◌}
use klayengo.Prelude.{
  ℕ, ◌≡◌, refl, ap, Bool, false, ◌||◌, if◌then◌else◌, String, Option, none, some, List, [], ◌++◌,
}
use klayengo.Http.{Request}

pub record Hashes : Type 0 where
  pub bytes : String → List ℕ
  pub fnv64a : List ℕ → ℕ
  pub sha256 : List ℕ → List ℕ
  pub hexadecimal : ℕ → String

abbrev mutates : Request → Bool
mutates req = req.method == "POST" || (req.method == "PUT" || req.method == "PATCH")

-- The bytes of the body's hash, where there is a body, of which `GetBody` gives `content` to copy: nothing
-- without a `GetBody`, and what comes before an error otherwise.
abbrev body_part : Hashes → Bool → Option (List ℕ) → List ℕ
body_part h counts none = []
body_part h counts (some content) = if counts then h.sha256 content else []

-- `none` is the fault of a request without a URL.
unfoldable pub default_deduplication_key_func : Hashes → Option (List ℕ) → Request → Option String
default_deduplication_key_func h body req = elim req.url [
  | none ↦ none
  | some u ↦ some (
      h.hexadecimal
        (h.fnv64a (h.bytes req.method ++ (h.bytes u.text ++ body_part h (mutates req) body))))
]

no_body_part :
    (h : Hashes) (req : Request) (body : Option (List ℕ))
    → mutates req ≡ false
    → body_part h (mutates req) body ≡ []
no_body_part h req none r = refl
no_body_part h req (some content) r = ap (λ b. if b then h.sha256 content else []) r

-- The key of a request of any other method than POST, PUT and PATCH does not depend on its body.
key_of_read :
    (h : Hashes) (body : Option (List ℕ)) (req : Request)
    → mutates req ≡ false
    → default_deduplication_key_func h body req ≡ default_deduplication_key_func h none req
unfolding default_deduplication_key_func
key_of_read h body req r =
    ap
      (λ part. elim req.url [
        | none ↦ none
        | some u ↦ some (h.hexadecimal (h.fnv64a (h.bytes req.method ++ (h.bytes u.text ++ part))))
      ])
      (no_body_part h req body r)
