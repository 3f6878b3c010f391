-- ===== src/Base/Text/Words.antt =====
-- cdp/util.py: `normalise_ws` changes nothing in a text that it has made.
use Prim.Native.Nat.{ℕ}
use mathlib.Core.Path.{◌≡◌, refl, ap, ◌∙◌}
use mathlib.Core.Logic.{inl, inr}
use mathlib.Core.Bool.{Bool, true, false}
use mathlib.Core.List.{List, [], ◌∷◌, ◌++◌}
use native.Mathlib.Omega.{arith}
use code_discovery_pyramid.Base.Tests.{Bool-cases}
use code_discovery_pyramid.Base.Lists.{All}
use code_discovery_pyramid.Base.Text.{
  Text, text, join, is_space, in_word, add_char, words, normalise_ws,
}

-- A word has a character, and no space.
abbrev IsWord : Text → Type 0
IsWord [] = ⊥
IsWord (c ∷ w) = All (λ d. is_space d ≡ false) (c ∷ w)

words_space : (c : ℕ) (s : Text) → is_space c ≡ true → words (c ∷ s) ≡ words s
unfolding words
words_space c s h = rw h

words_char :
    (c : ℕ) (s : Text) → is_space c ≡ false → words (c ∷ s) ≡ add_char c (in_word s) (words s)
unfolding words
words_char c s h = rw h

add_char-IsWord :
    (c : ℕ) (inside : Bool) (ws : List Text)
    → is_space c ≡ false
    → All IsWord ws
    → All IsWord (add_char c inside ws)
add_char-IsWord c inside [] h k = ((h, tt), tt)
add_char-IsWord c true ([] ∷ ws) h k = absurd k.0
add_char-IsWord c true ((d ∷ w) ∷ ws) h k = ((h, k.0), k.1)
add_char-IsWord c false (w ∷ ws) h k = ((h, tt), k)

words-IsWord : (s : Text) → All IsWord (words s)
unfolding words
words-IsWord [] = tt
words-IsWord (c ∷ s) = elim (Bool-cases (is_space c)) [
  | inl h ↦ rw (words_space c s h) (words-IsWord s)
  | inr h ↦ rw (words_char c s h) (add_char-IsWord c (in_word s) (words s) h (words-IsWord s))
]

words_word : (c : ℕ) (w : Text) → IsWord (c ∷ w) → words (c ∷ w) ≡ (c ∷ w) ∷ []
words_word c [] h = words_char c [] h.0 ∙ (unfold words in refl)
words_word c (d ∷ w) h =
    words_char c (d ∷ w) h.0
    ∙ ap (λ ws. add_char c (in_word (d ∷ w)) ws) (words_word d w h.1)
    ∙ ground (arith, h.1.0)

add_char_new : (c : ℕ) (ws : List Text) → add_char c false ws ≡ (c ∷ []) ∷ ws
add_char_new c [] = refl
add_char_new c (w ∷ ws) = refl

space_is_space : is_space 32 ≡ true
unfolding is_space
space_is_space = refl

words_before_space :
    (c : ℕ) (w rest : Text) → IsWord (c ∷ w) → words ((c ∷ w) ++ 32 ∷ rest) ≡ (c ∷ w) ∷ words rest
words_before_space c [] rest h =
    words_char c (32 ∷ rest) h.0
    ∙ ap (λ ws. add_char c (in_word (32 ∷ rest)) ws) (words_space 32 rest space_is_space)
    ∙ (rw space_is_space (add_char_new c (words rest)))
words_before_space c (d ∷ w) rest h =
    words_char c (d ∷ w ++ 32 ∷ rest) h.0
    ∙ ap (λ ws. add_char c (in_word (d ∷ w ++ 32 ∷ rest)) ws) (words_before_space d w rest h.1)
    ∙ ground (arith, h.1.0)

words-join : (ws : List Text) → All IsWord ws → words (join (text " ") ws) ≡ ws
unfolding words
words-join [] h = refl
words-join ([] ∷ ws) h = absurd h.0
words-join ((c ∷ w) ∷ []) h = words_word c w h.0
words-join ((c ∷ w) ∷ v ∷ ws) h =
    words_before_space c w (join (text " ") (v ∷ ws)) h.0
    ∙ ap (◌∷◌ (c ∷ w)) (words-join (v ∷ ws) h.1)

-- Normalising twice is normalising once.
pub normalise_ws_idem : (s : Text) → normalise_ws (normalise_ws s) ≡ normalise_ws s
unfolding normalise_ws
normalise_ws_idem s = ap (join (text " ")) (words-join (words s) (words-IsWord s))
