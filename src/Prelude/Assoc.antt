-- ===== src/Prelude/Assoc.antt =====
-- Go's `map[string]V` as an association list.
use Prim.Native.String.{String}
use mathlib.Core.Path.{◌≡◌, refl}
use mathlib.Core.Option.{Option, none, some}
use mathlib.Core.List.{List, [], ◌∷◌}
use text.Mathlib.TextEquality.{eq_iff}
use native.Mathlib.Omega.{arith}
use text.Mathlib.Text.{◌==◌}
use klayengo.Prelude.Tests.{if◌then◌else◌}

-- The entries of a map whose values are in `V`.
abbrev pub Entries {ℓ} : Type ℓ → Type ℓ
Entries V = List (String × V)

module _ {ℓ} {V : Type ℓ} where
  -- `m[key]`, with its second result.
  unfoldable pub lookup : String → Entries V → Option V
  lookup wanted [] = none
  lookup wanted ((key, value) ∷ rest) = if key == wanted then some value else lookup wanted rest

  -- `delete(m, key)`.
  unfoldable pub delete : String → Entries V → Entries V
  delete gone [] = []
  delete gone ((key, value) ∷ rest) =
      if key == gone then delete gone rest else (key, value) ∷ delete gone rest

  -- `m[key] = value`, in the place that the key has.
  unfoldable pub insert : String → V → Entries V → Entries V
  insert new value [] = (new, value) ∷ []
  insert new value ((key, old) ∷ rest) =
      if key == new then (new, value) ∷ rest else (key, old) ∷ insert new value rest

  pub lookup-delete :
      (gone wanted : String) (entries : Entries V)
      → lookup wanted (delete gone entries)
        ≡ (if gone == wanted then none else lookup wanted entries)
  unfolding lookup delete
  lookup-delete gone wanted [] = ground arith
  lookup-delete gone wanted ((key, value) ∷ rest) = ground (
    arith,
    lookup-delete gone wanted rest,
    eq_iff gone wanted,
    eq_iff key wanted,
    eq_iff key gone,
  )

  pub lookup-insert :
      (new wanted : String) (value : V) (entries : Entries V)
      → lookup wanted (insert new value entries)
        ≡ (if new == wanted then some value else lookup wanted entries)
  unfolding lookup insert
  lookup-insert new wanted value [] = refl
  lookup-insert new wanted value ((key, old) ∷ rest) = ground (
    arith,
    lookup-insert new wanted value rest,
    eq_iff new wanted,
    eq_iff key wanted,
    eq_iff key new,
  )
