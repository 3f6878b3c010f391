-- ===== src/Base/Text.antt =====
-- Python's `str` as the list of its code points, with the tests and methods that the program uses.
pub mod Words
pub mod Paths
use Prim.Native.Nat.{ℕ, zero, suc, ◌+◌, ◌/◌, ◌%◌}
use Prim.Native.Char.{code}
use Prim.Native.String.{String}
use mathlib.Core.Path.{◌≡◌, refl}
use mathlib.Core.Logic.{◌↔◌}
use mathlib.Core.Bool.{Bool, true, false, not, ◌&&◌, ◌||◌}
use mathlib.Core.List.{List, [], ◌∷◌, ◌++◌, reverse}
use native.Mathlib.Omega.{arith}
use code_discovery_pyramid.Base.Tests.{Eq, ltb, leb, nat_beq, nat_eq, if◌then◌else◌}
use code_discovery_pyramid.Base.Lists.{contains}
use code_discovery_pyramid.Base.Order.{Ord}

abbrev pub Text : Type 0
Text = List ℕ

-- A literal of the program.
abbrev pub text : String → Text
text String.[] = []
text (String.◌∷◌ c s) = code c ∷ text s

abbrev pub text_beq : Text → Text → Bool
text_beq [] [] = true
text_beq [] (b ∷ t) = false
text_beq (a ∷ s) [] = false
text_beq (a ∷ s) (b ∷ t) = nat_beq a b && text_beq s t

pub text_beq_iff : (s t : Text) → (text_beq s t ≡ true) ↔ (s ≡ t)
text_beq_iff [] [] = (λ _. refl, λ _. refl)
text_beq_iff [] (b ∷ t) = (λ h. cc, λ h. cc)
text_beq_iff (a ∷ s) [] = (λ h. cc, λ h. cc)
text_beq_iff (a ∷ s) (b ∷ t) =
    (λ h. ground (arith, text_beq_iff s t), λ h. ground (arith, text_beq_iff s t))

instance abbrev pub text_eq : Eq Text
text_eq = record { beq = text_beq; beq_iff = text_beq_iff }

-- `s <= t`: by code points, a prefix first.
abbrev pub text_le : Text → Text → Bool
text_le [] t = true
text_le (a ∷ s) [] = false
text_le (a ∷ s) (b ∷ t) = ltb a b || (nat_beq a b && text_le s t)

pub text_total : (s t : Text) → text_le s t ≡ false → text_le t s ≡ true
text_total [] t h = ground arith
text_total (a ∷ s) [] h = refl
text_total (a ∷ s) (b ∷ t) h = ground (arith, text_total s t)

pub text_antisymm : (s t : Text) → text_le s t ≡ true → text_le t s ≡ true → s ≡ t
text_antisymm [] [] h k = refl
text_antisymm [] (b ∷ t) h k = cc
text_antisymm (a ∷ s) [] h k = cc
text_antisymm (a ∷ s) (b ∷ t) h k = ground (arith, text_antisymm s t)

pub text_trans : (s t u : Text) → text_le s t ≡ true → text_le t u ≡ true → text_le s u ≡ true
text_trans [] t u h k = refl
text_trans (a ∷ s) [] u h k = cc
text_trans (a ∷ s) (b ∷ t) [] h k = cc
text_trans (a ∷ s) (b ∷ t) (c ∷ u) h k = ground (arith, text_trans s t u)

instance abbrev pub text_ord : Ord Text
text_ord = record { le = text_le; total = text_total; antisymm = text_antisymm; trans = text_trans }

-- `s.startswith(p)`
abbrev pub starts_with : Text → Text → Bool
starts_with s [] = true
starts_with [] (b ∷ p) = false
starts_with (a ∷ s) (b ∷ p) = nat_beq a b && starts_with s p

-- The characters for which `str.isspace` holds, at which `split()` and `strip()` cut.
unfoldable pub is_space : ℕ → Bool
is_space c =
    (leb 9 c && leb c 13)
    || ((leb 28 c && leb c 32)
        || ((leb 8192 c && leb c 8202)
            || contains c (133 ∷ 160 ∷ 5760 ∷ 8232 ∷ 8233 ∷ 8239 ∷ 8287 ∷ 12288 ∷ [])))

abbrev pub strip_left : Text → Text
strip_left [] = []
strip_left (c ∷ s) = if is_space c then strip_left s else c ∷ s

-- `s.strip()`
unfoldable pub strip : Text → Text
unfolding is_space
strip s = reverse (strip_left (reverse (strip_left s)))

-- `sep.join(parts)`
abbrev pub join : Text → List Text → Text
join sep [] = []
join sep (t ∷ []) = t
join sep (t ∷ u ∷ ts) = t ++ (sep ++ join sep (u ∷ ts))

-- Puts a character that is no space in front of the first of the words of what follows it: a new
-- word, unless the text goes on with that word.
abbrev pub add_char : ℕ → Bool → List Text → List Text
add_char c inside [] = (c ∷ []) ∷ []
add_char c true (w ∷ ws) = (c ∷ w) ∷ ws
add_char c false (w ∷ ws) = (c ∷ []) ∷ w ∷ ws

-- Whether a text begins with a character that is no space.
abbrev pub in_word : Text → Bool
in_word [] = false
in_word (c ∷ s) = not (is_space c)

-- `s.split()`: the maximal runs of characters that are no spaces.
unfoldable pub words : Text → List Text
words [] = []
words (c ∷ s) = if is_space c then words s else add_char c (in_word s) (words s)

-- `normalise_ws` of cdp/util.py
unfoldable pub normalise_ws : Text → Text
normalise_ws s = join (text " ") (words s)

-- The decimal digits of a number, on fuel: a number has fewer digits than its successor counts.
unfoldable pub decimal_fuel : ℕ → ℕ → Text
decimal_fuel zero n = []
decimal_fuel (suc fuel) n =
    let higher = decimal_fuel fuel (n / 10) in
    if ltb n 10 then (48 + n) ∷ [] else higher ++ (48 + n % 10) ∷ []

-- `str(n)`
unfoldable pub decimal : ℕ → Text
unfolding decimal_fuel
decimal n = decimal_fuel (suc n) n
