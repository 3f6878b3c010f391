-- ===== src/Anchor.antt =====
-- cdp/anchor.py: span anchors. `find_matches` looks for the normalised text of an anchor in the
-- normalised text of a file; `build_anchor` and `verify_anchor` are built on it.
pub mod RoundTrip
use code_discovery_pyramid.Base.{
  ℕ, zero, suc, ◌+◌, ◌-◌, Bool, true, false, Option, none, some, List, [], ◌∷◌, ◌++◌, map, ◌&&◌,
  ◌||◌, not, if◌then◌else◌, ◌==◌, nat_eq, length, take, drop, filterb, leb, ltb, is_empty,
}
use code_discovery_pyramid.Base.Text.{Text, text, text_eq, starts_with, join, normalise_ws}
use code_discovery_pyramid.Claims.{Anchor}

abbrev pub min_anchor_len : ℕ
min_anchor_len = 12

abbrev pub max_anchor_len : ℕ
max_anchor_len = 400

abbrev pub max_matches_in_file : ℕ
max_matches_in_file = 3

abbrev pub line_window : ℕ
line_window = 5

abbrev pub max_span : ℕ
max_span = 4

pub data DemotedReason : Type 0 where
  anchor_not_found ambiguous_anchor anchor_too_common : DemotedReason

-- A line that is not blank: its normalised text, where that starts in the text of the file, and
-- its number, from 1.
pub record Part : Type 0 where
  pub content : Text
  pub offset : ℕ
  pub number : ℕ

-- `_normalised_index`, without its memo.
unfoldable pub parts_from : ℕ → ℕ → List Text → List Part
parts_from index cursor [] = []
parts_from index cursor (line ∷ lines) =
    let content = normalise_ws line in
    let blank = parts_from (suc index) cursor lines in
    let rest = parts_from (suc index) (cursor + (length content + 1)) lines in
    if is_empty content
    then blank
    else record { content = content; offset = cursor; number = index + 1 } ∷ rest

-- `blob.find(needle, position)`, `rest` being the blob from `position` on.
unfoldable pub find_in : Text → Text → ℕ → Option ℕ
find_in needle [] position = if is_empty needle then some position else none
find_in needle (c ∷ rest) position =
    let later = find_in needle rest (suc position) in
    if starts_with (c ∷ rest) needle then some position else later

-- `bisect.bisect_right` on offsets, which rise.
unfoldable pub bisect_right : List ℕ → ℕ → ℕ
bisect_right [] x = 0
bisect_right (o ∷ os) x = if leb o x then suc (bisect_right os x) else 0

abbrev pub number_at : List ℕ → ℕ → ℕ
number_at [] i = 0
number_at (n ∷ ns) zero = n
number_at (n ∷ ns) (suc i) = number_at ns i

-- `hits[-1] != n`, or no hit yet
abbrev pub last_differs : List ℕ → ℕ → Bool
last_differs [] n = true
last_differs (h ∷ []) n = not (h == n)
last_differs (h ∷ k ∷ hits) n = last_differs (k ∷ hits) n

module _ (blob : Text) (offsets numbers : List ℕ) (needle : Text) (span : ℕ) where
  -- The line on which a character of the blob stands.
  unfoldable pub line_of : ℕ → ℕ
  unfolding bisect_right
  line_of position = number_at numbers (bisect_right offsets position - 1)

  unfoldable pub record_hit : List ℕ → ℕ → List ℕ
  unfolding line_of
  record_hit hits found =
      let start = line_of found in
      let end = line_of (found + length needle - 1) in
      if ltb (end - start) span && last_differs hits start then hits ++ start ∷ [] else hits

  -- The search loop, on fuel: each round starts beyond the last match, so one more than the length
  -- of the blob is enough.
  unfoldable pub search_from : ℕ → List ℕ → ℕ → List ℕ
  unfolding record_hit find_in
  search_from zero hits position = hits
  search_from (suc fuel) hits position = elim (find_in needle (drop position blob) position) [
    | none ↦ hits
    | some found ↦ search_from fuel (record_hit hits found) (found + 1)
  ]

-- `find_matches` of a needle that is normalised.
unfoldable pub find_needle : List Text → Text → ℕ → List ℕ
unfolding parts_from search_from
find_needle lines needle span =
    let parts = parts_from 0 0 lines in
    let blob = join (text " ") (map (λ p. p.content) parts) in
    if is_empty needle || is_empty blob
    then []
    else search_from blob (map (λ p. p.offset) parts) (map (λ p. p.number) parts) needle span
        (suc (length blob)) [] 0

unfoldable pub find_matches : List Text → Text → List ℕ
find_matches lines anchor = find_needle lines (normalise_ws anchor) max_span

-- `[h for h in hits if abs(h - line) <= LINE_WINDOW]`
abbrev pub near_hits : List ℕ → ℕ → List ℕ
near_hits hits line = filterb (λ h. leb ((h - line) + (line - h)) line_window) hits

-- `_qualifies`
unfoldable pub qualifies : List Text → Text → ℕ → Bool
qualifies lines content line_no =
    let hits = find_matches lines content in
    leb min_anchor_len (length content)
    && (leb (length content) max_anchor_len
        && (leb 1 (length hits)
            && (leb (length hits) max_matches_in_file && length (near_hits hits line_no) == 1)))

-- `normalise_ws(" ".join(lines[start : start + width]))`
unfoldable pub span_text : List Text → ℕ → ℕ → Text
span_text lines start width = normalise_ws (join (text " ") (take width (drop start lines)))

module _ (rel_path : Text) (lines : List Text) (index : ℕ) where
  -- `for width in range(1, max_span + 1)`, by the rounds that are left
  unfoldable pub grow_down : ℕ → ℕ → Option Anchor
  grow_down zero width = none
  grow_down (suc left) width =
      let content = span_text lines index width in
      let wider = grow_down left (suc width) in
      let found : Option Anchor =
        some (record { file = rel_path; line = index + 1; anchor = content }) in
      if ltb (length lines) (index + width)
      then none
      else (if qualifies lines content (index + 1) then found else wider)

  -- `for width in range(2, max_span + 1)`; the span starts at `index - width + 1`
  unfoldable pub grow_up : ℕ → ℕ → Option Anchor
  grow_up zero width = none
  grow_up (suc left) width =
      let start = index + 1 - width in
      let content = span_text lines start width in
      let wider = grow_up left (suc width) in
      let found : Option Anchor =
        some (record { file = rel_path; line = start + 1; anchor = content }) in
      if ltb (index + 1) width
      then none
      else (if qualifies lines content (start + 1) then found else wider)

  unfoldable pub build_anchor : Option Anchor
  unfolding grow_down grow_up
  build_anchor =
      if ltb index (length lines)
      then elim (grow_down max_span 1) [ some a ↦ some a | none ↦ grow_up (max_span - 1) 2 ]
      else none

-- What `verify_anchor` returns: the true line, or the cited line and the reason of the failure.
pub data Checked : Type 0 where
  located : ℕ → Checked
  failed : ℕ → DemotedReason → Checked

abbrev pub nearest : ℕ → List ℕ → Checked
nearest cited [] = failed cited anchor_not_found
nearest cited (h ∷ []) = located h
nearest cited (h ∷ k ∷ hits) = failed cited ambiguous_anchor

unfoldable pub verify_anchor : List Text → Anchor → Checked
verify_anchor lines a =
    let hits = find_matches lines a.anchor in
    if ltb (length (normalise_ws a.anchor)) min_anchor_len
    then failed a.line anchor_not_found
    else (if is_empty hits
        then failed a.line anchor_not_found
        else (if ltb max_matches_in_file (length hits)
            then failed a.line anchor_too_common
            else nearest a.line (near_hits hits a.line)))
