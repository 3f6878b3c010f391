-- ===== src/Base/Text/Paths.antt =====
-- Python's `split`, `rsplit` and `strip` at single characters, for paths and dotted names.
use native.Mathlib.Omega.{arith}
use Prim.Native.Nat.{ℕ, ◌+◌}
use mathlib.Core.Path.{◌≡◌, refl, sym, ap, ◌∙◌}
use mathlib.Core.Logic.{inl, inr}
use mathlib.Core.Option.{Option, none, some}
use mathlib.Core.List.{List, [], ◌∷◌, reverse}
use code_discovery_pyramid.Base.Tests.{◌==◌, nat_eq, if◌then◌else◌, Bool-cases, some_inj}
use code_discovery_pyramid.Base.Lists.{length, contains}
use code_discovery_pyramid.Base.Text.{Text}

-- "/" and "."
abbrev pub slash : ℕ
slash = 47

abbrev pub dot : ℕ
dot = 46

-- `s.split(c, 1)` of a text that contains `c`
unfoldable pub cut_first : ℕ → Text → Option (Text × Text)
cut_first c [] = none
cut_first c (x ∷ xs) =
    if x == c
    then some ([], xs)
    else elim (cut_first c xs) [ none ↦ none | some (a, b) ↦ some (x ∷ a, b) ]

-- `s.rsplit(c, 1)` of a text that contains `c`
unfoldable pub cut_last : ℕ → Text → Option (Text × Text)
cut_last c [] = none
cut_last c (x ∷ xs) = elim (cut_last c xs) [
  | some (a, b) ↦ some (x ∷ a, b)
  | none ↦ if x == c then some ([], xs) else none
]

-- `s.rsplit(c, 1)[0]` and `s.rsplit(c, 1)[-1]`
unfoldable pub before_last : ℕ → Text → Text
before_last c s = elim (cut_last c s) [ none ↦ s | some (a, b) ↦ a ]

unfoldable pub after_last : ℕ → Text → Text
after_last c s = elim (cut_last c s) [ none ↦ s | some (a, b) ↦ b ]

-- `s.count(c)`
abbrev pub count_char : ℕ → Text → ℕ
count_char c [] = 0
count_char c (x ∷ xs) = (if x == c then 1 else 0) + count_char c xs

abbrev pub add_to_head : ℕ → List Text → List Text
add_to_head x [] = (x ∷ []) ∷ []
add_to_head x (w ∷ ws) = (x ∷ w) ∷ ws

-- `s.split(c)`
unfoldable pub split_on : ℕ → Text → List Text
split_on c [] = [] ∷ []
split_on c (x ∷ xs) = let rest = split_on c xs in if x == c then [] ∷ rest else add_to_head x rest

unfoldable pub lstrip_of : Text → Text → Text
lstrip_of cs [] = []
lstrip_of cs (x ∷ xs) = let rest = lstrip_of cs xs in if contains x cs then rest else x ∷ xs

-- `s.strip(cs)`
unfoldable pub strip_of : Text → Text → Text
strip_of cs s = reverse (lstrip_of cs (reverse (lstrip_of cs s)))

-- A text is cut around the separator.
pub length-cut_first :
    (c : ℕ) (s : Text) {p : Text × Text}
    → cut_first c s ≡ some p
    → length p.0 + 1 + length p.1 ≡ length s
unfolding cut_first
length-cut_first c [] h = absurd (ground arith)
length-cut_first c (x ∷ xs) {p} h = elim (Bool-cases (x == c)) [
  | inl hit ↦ ap (λ q. length q.0 + 1 + length q.1) (sym (some_inj (rw hit at h))) ∙ omega arith
  | inr miss ↦ later (cut_first c xs) refl (λ q e. length-cut_first c xs e) (rw miss at h)
]
  where
    later :
        (o : Option (Text × Text))
        → cut_first c xs ≡ o
        → ((q : Text × Text) → cut_first c xs ≡ some q → length q.0 + 1 + length q.1 ≡ length xs)
        → Path
            (Option (Text × Text))
            (elim o [ none ↦ none | some (a, b) ↦ some (x ∷ a, b) ])
            (some p)
        → length p.0 + 1 + length p.1 ≡ length (x ∷ xs)
    later none e ih k = absurd (ground arith)
    later (some (a, b)) e ih k =
        let rest = ih (a, b) e in
        ap (λ (q : Text × Text). length q.0 + 1 + length q.1) (sym (some_inj k)) ∙ omega arith
