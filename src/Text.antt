-- ===== src/Text.antt =====
-- What the code uses of the packages strings and strconv, over texts as lists of code points.
use Prim.Native.Char.{code}
use klayengo.Prelude.{
  ℕ, ◌+◌, ◌-◌, ◌*◌, ◌≡◌, refl, Bool, true, false, ◌&&◌, ◌||◌, if◌then◌else◌, leb, ltb, ◌==◌, String,
  Option, none, some, List, [], ◌∷◌,
}
use klayengo.Prelude.Int.{ℤ, pos, negsuc}
use mathlib.Core.List.{reverse}

-- The code points of a text.
abbrev pub codes : String → List ℕ
codes (String.◌∷◌ first rest) = code first ∷ codes rest
codes String.[] = []

unfoldable pub text_eq : List ℕ → List ℕ → Bool
text_eq [] [] = true
text_eq [] (y ∷ ys) = false
text_eq (x ∷ xs) [] = false
text_eq (x ∷ xs) (y ∷ ys) = x == y && text_eq xs ys

-- `unicode.IsSpace`.
unfoldable pub is_space : ℕ → Bool
is_space c =
    (leb 9 c && leb c 13)
    || (c == 32
        || (c == 0x85
            || (c == 0xA0
                || (c == 0x1680
                    || ((leb 0x2000 c && leb c 0x200a)
                        || (c == 0x2028
                            || (c == 0x2029 || (c == 0x202f || (c == 0x205f || c == 0x3000)))))))))

drop_while : (ℕ → Bool) → List ℕ → List ℕ
drop_while p [] = []
drop_while p (c ∷ cs) = if p c then drop_while p cs else c ∷ cs

trim : (ℕ → Bool) → List ℕ → List ℕ
unfolding drop_while
trim p s = reverse (drop_while p (reverse (drop_while p s)))

-- `strings.TrimSpace(s)`.
unfoldable pub trim_space : List ℕ → List ℕ
unfolding trim is_space
trim_space s = trim is_space s

-- `strings.Trim(s, "\"")`.
unfoldable pub trim_quotes : List ℕ → List ℕ
unfolding trim
trim_quotes s = trim (λ c. c == b'"') s

prepend : ℕ → List (List ℕ) → List (List ℕ)
prepend c [] = (c ∷ []) ∷ []
prepend c (p ∷ ps) = (c ∷ p) ∷ ps

-- `strings.Split(s, sep)` for a separator of one character.
unfoldable pub split : ℕ → List ℕ → List (List ℕ)
unfolding prepend
split sep [] = [] ∷ []
split sep (c ∷ cs) = let rest = split sep cs in if c == sep then [] ∷ rest else prepend c rest

-- `strings.SplitN(s, sep, 2)`; `none` if the separator does not occur, that is, if
-- `strings.Contains(s, sep)` is false.
unfoldable pub split_once : ℕ → List ℕ → Option (List ℕ × List ℕ)
split_once sep [] = none
split_once sep (c ∷ cs) =
    let rest = split_once sep cs in
    if c == sep then some ([], cs) else (elim rest [ none ↦ none | some (a, b) ↦ some (c ∷ a, b) ])

is_digit : ℕ → Bool
is_digit c = leb b'0' c && leb c b'9'

-- The value of a text of digits, after `acc`.
digits_from : ℕ → List ℕ → Option ℕ
unfolding is_digit
digits_from acc [] = some acc
digits_from acc (c ∷ cs) =
    let rest = digits_from (acc * 10 + (c - b'0')) cs in if is_digit c then rest else none

-- At least one digit.
digits_value : List ℕ → Option ℕ
unfolding digits_from
digits_value [] = none
digits_value (c ∷ cs) = digits_from 0 (c ∷ cs)

positive : Option ℕ → Option ℤ
positive none = none
positive (some n) = if ltb n 9223372036854775808 then some (pos n) else none

negative : Option ℕ → Option ℤ
negative none = none
negative (some n) =
    if n == 0
    then some (pos 0)
    else if leb n 9223372036854775808
    then some (negsuc (n - 1))
    else none

-- `strconv.Atoi`: `none` is its error.
unfoldable pub atoi : List ℕ → Option ℤ
unfolding digits_value positive negative
atoi [] = none
atoi (c ∷ cs) =
    if c == b'-'
    then negative (digits_value cs)
    else if c == b'+'
    then positive (digits_value cs)
    else positive (digits_value (c ∷ cs))

atoi_runs : atoi (codes "-120") ≡ some (negsuc 119)
unfolding atoi
atoi_runs = refl

split_runs : split b',' (codes "a,bc") ≡ codes "a" ∷ codes "bc" ∷ []
unfolding split
split_runs = refl

trim_runs : trim_space (codes " a b ") ≡ codes "a b"
unfolding trim_space
trim_runs = refl
