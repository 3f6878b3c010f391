-- ===== src/Anchor/RoundTrip.antt =====
-- cdp/anchor.py: what `build_anchor` builds, `verify_anchor` accepts, and what it accepts is there.
use mathlib.Core.List.{Memᴰ}
use code_discovery_pyramid.Base.{
  ℕ, zero, suc, ◌+◌, ◌-◌, ◌≤◌, ◌≡◌, refl, sym, subst, ◌⊎◌, inl, inr, true, some, List, [], ◌∷◌,
  length, leb, ltb, leb→le, arith, Bool-cases, Memᴰ-of_filterb, some_inj, Option-cases, ◌==◌,
  nat_eq,
}
use code_discovery_pyramid.Base.Text.{Text, normalise_ws}
use code_discovery_pyramid.Base.Text.Words.{normalise_ws_idem}
use code_discovery_pyramid.Claims.{Anchor}
use code_discovery_pyramid.Anchor.{
  max_span, line_window, find_matches, near_hits, qualifies, span_text, grow_down, grow_up,
  build_anchor, located, nearest, verify_anchor,
}

-- An anchor whose text is normalised and qualifies at its line.
record IsCitable (lines : List Text) (a : Anchor) : Type 0 where
  pub normal : normalise_ws a.anchor ≡ a.anchor
  pub qualified : qualifies lines a.anchor a.line ≡ true

span_text_normal :
    (lines : List Text) (start width : ℕ)
    → normalise_ws (span_text lines start width) ≡ span_text lines start width
unfolding span_text
span_text_normal lines start width = normalise_ws_idem _

module _ (rel_path : Text) (lines : List Text) (index : ℕ) where
  grow_down-IsCitable :
      (left width : ℕ) {a : Anchor}
      → grow_down rel_path lines index left width ≡ some a
      → IsCitable lines a
  unfolding grow_down
  grow_down-IsCitable zero width h = absurd (ground arith)
  grow_down-IsCitable (suc left) width {a} h =
      elim (Bool-cases (ltb (length lines) (index + width))) [
        | inl past ↦ absurd (ground arith)
        | inr inside ↦
            elim (Bool-cases (qualifies lines (span_text lines index width) (index + 1))) [
              | inl good ↦
                  let same : _ ≡ a = some_inj (rw (inside, good) at h) in
                  subst (IsCitable lines) same
                    (record { normal = span_text_normal lines index width; qualified = good })
              | inr bad ↦ grow_down-IsCitable left (suc width) (rw (inside, bad) at h)
            ]
      ]

  grow_up-IsCitable :
      (left width : ℕ) {a : Anchor}
      → grow_up rel_path lines index left width ≡ some a
      → IsCitable lines a
  unfolding grow_up
  grow_up-IsCitable zero width h = absurd (ground arith)
  grow_up-IsCitable (suc left) width {a} h =
      let start = index + 1 - width in
      elim (Bool-cases (ltb (index + 1) width)) [
        | inl past ↦ absurd (ground arith)
        | inr inside ↦
            elim (Bool-cases (qualifies lines (span_text lines start width) (start + 1))) [
              | inl good ↦
                  let same : _ ≡ a = some_inj (rw (inside, good) at h) in
                  subst (IsCitable lines) same
                    (record { normal = span_text_normal lines start width; qualified = good })
              | inr bad ↦ grow_up-IsCitable left (suc width) (rw (inside, bad) at h)
            ]
      ]

  build_anchor_cases :
      {a : Anchor}
      → build_anchor rel_path lines index ≡ some a
      → (grow_down rel_path lines index max_span 1 ≡ some a)
        ⊎ (grow_up rel_path lines index (max_span - 1) 2 ≡ some a)
  unfolding build_anchor
  build_anchor_cases h = elim (Bool-cases (ltb index (length lines))) [
    | inr outside ↦ absurd (ground arith)
    | inl inside ↦ elim (Option-cases (grow_down rel_path lines index max_span 1)) [
      | inl e ↦ inr (ground arith)
      | inr (b, e) ↦ inl (ground arith)
    ]
  ]

  build_anchor-IsCitable :
      {a : Anchor} → build_anchor rel_path lines index ≡ some a → IsCitable lines a
  build_anchor-IsCitable h = elim (build_anchor_cases h) [
    | inl d ↦ grow_down-IsCitable max_span 1 d
    | inr u ↦ grow_up-IsCitable (max_span - 1) 2 u
  ]

sole_hit : (hits : List ℕ) → (length hits == 1) ≡ true → (h : ℕ) × (hits ≡ h ∷ [])
sole_hit [] h = absurd (ground arith)
sole_hit (x ∷ []) h = (x, refl)
sole_hit (x ∷ y ∷ hits) h = absurd (ground arith)

-- The line that a check accepts: a match of the anchor's text starts there, within the tolerance
-- window of the cited line, no other match is within that window, and the text occurs at most
-- three times in the file.
pub record IsLocated (lines : List Text) (a : Anchor) (line : ℕ) : Type 0 where
  pub matched : Memᴰ line (find_matches lines a.anchor)
  pub near : (line - a.line) + (a.line - line) ≤ line_window
  pub only : (l : ℕ) → Memᴰ l (near_hits (find_matches lines a.anchor) a.line) → l ≡ line
  pub few : length (find_matches lines a.anchor) ≤ 3

nearest-sole :
    (cited : ℕ) (hits : List ℕ) {line : ℕ} → nearest cited hits ≡ located line → hits ≡ line ∷ []
nearest-sole cited [] h = absurd (ground arith)
nearest-sole cited (x ∷ []) h = ground arith
nearest-sole cited (x ∷ y ∷ hits) h = absurd (ground arith)

verify_anchor_inv :
    (lines : List Text) (a : Anchor) {line : ℕ}
    → verify_anchor lines a ≡ located line
    → (near_hits (find_matches lines a.anchor) a.line ≡ line ∷ [])
      × (length (find_matches lines a.anchor) ≤ 3)
unfolding verify_anchor
verify_anchor_inv lines a h = (nearest-sole a.line _ (ground arith), ground arith)

-- A check that succeeds returns the only match near the citation, one of three matches at most.
pub verify_anchor-IsLocated :
    (lines : List Text) (a : Anchor) (line : ℕ)
    → verify_anchor lines a ≡ located line
    → IsLocated lines a line
verify_anchor-IsLocated lines a line h =
    let (sole, few) = verify_anchor_inv lines a h in
    let hits = find_matches lines a.anchor in
    let (m, near) =
      Memᴰ-of_filterb (λ l. leb ((l - a.line) + (a.line - l)) line_window) hits
        (subst (Memᴰ line) (sym sole) (Memᴰ.head refl)) in
    record {
      matched = m;
      near = leb→le _ _ near;
      only = λ l k. alone (subst (Memᴰ l) sole k);
      few = few;
    }
  where
    alone : {l : ℕ} → Memᴰ l (line ∷ []) → l ≡ line
    alone (Memᴰ.head e) = e
    alone (Memᴰ.tail k) = elim k [ ]

-- What is built is accepted: an anchor that `build_anchor` returns for a file passes
-- `verify_anchor` on that file, at a line within the tolerance window of the one it cites.
pub verify_anchor-build_anchor :
    (rel_path : Text) (lines : List Text) (index : ℕ) (a : Anchor)
    → build_anchor rel_path lines index ≡ some a
    → (line : ℕ) × (verify_anchor lines a ≡ located line) × IsLocated lines a line
verify_anchor-build_anchor rel_path lines index a h =
    let c = build_anchor-IsCitable rel_path lines index h in
    let (line, sole) = sole_hit (near_hits (find_matches lines a.anchor) a.line) (one c) in
    let accepted = accepts c sole in (line, accepted, verify_anchor-IsLocated lines a line accepted)
  where
    one : IsCitable lines a → (length (near_hits (find_matches lines a.anchor) a.line) == 1) ≡ true
    one c = unfold qualifies in ground arith

    accepts :
        {line : ℕ}
        → IsCitable lines a
        → near_hits (find_matches lines a.anchor) a.line ≡ line ∷ []
        → verify_anchor lines a ≡ located line
    accepts c sole = unfold qualifies verify_anchor in ground arith
