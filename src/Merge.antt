-- ===== src/Merge.antt =====
-- cdp/merge.py: the merge operator. Claims are grouped by subject and kind, a group that disagrees
-- on a closed-vocabulary field is a conflict, and a conflict goes to the owner, then to the side
-- with most evidence, and is else contested.
pub mod Operator
pub mod Independence
pub mod Accounting
pub mod Winners
pub mod Evidence
pub mod Unordered
use code_discovery_pyramid.Base.{
  ℕ, Bool, true, false, not, ◌&&◌, Option, none, some, List, [], ◌∷◌, ◌++◌, map, max, Eq, ◌==◌,
  nat_eq, pair_eq, option_eq, pair_ord, if◌then◌else◌, nat_ord, ltb, nat_beq, contains, anyb,
  filterb, allb, length, is_empty, drop,
}
use code_discovery_pyramid.Base.Dict.{Dict, keys, lookup_list, group_into}
use code_discovery_pyramid.Base.Sorting.{sort_by, dedup, sorted_set}
use code_discovery_pyramid.Base.Text.{Text, text, text_eq, text_ord, starts_with, strip}
use code_discovery_pyramid.Claims.{Anchor, Claim, Confidence, low, medium, high, contested, node_of}

-- The values of ENUM_FIELDS: channel, visibility and side_effect_type.
abbrev pub Signature : Type 0
Signature = Option Text × (Option Text × Option Text)

pub data Reason : Type 0 where
  ownership evidence : Reason

-- What `_resolve` returns, or the TypeError that `sorted` raises in it.
pub data Resolution : Type 0 where
  won : Signature → Reason → Resolution
  tied : Resolution
  type_error : Resolution

unfoldable pub signature : Claim → Signature
signature c = (c.channel, (c.visibility, c.side_effect_type))

unfoldable pub group_key : Claim → Text × Text
group_key c = (c.subject, c.kind)

-- `stable_hash(claim.get("evidence") or [])`: a digest of the evidence, which hashlib computes.
module _ (evidence_hash : List Anchor → Text) where
  unfoldable pub claim_sort_key : Claim → Text × (Text × Text)
  claim_sort_key c = (node_of c, (c.id, evidence_hash c.evidence))

unfoldable pub anchor_key : Anchor → Text × Text
anchor_key a = (a.file, a.anchor)

-- Keeps the first element of each key: the loops over `seen`.
module _ {ℓ κ} {A : Type ℓ} {K : Type κ} ⦃e : Eq K⦄ (key : A → K) where
  unfoldable pub distinct_from : List K → List A → List A
  distinct_from seen [] = []
  distinct_from seen (x ∷ xs) =
      let rest = distinct_from (key x ∷ seen) xs in
      let skip = distinct_from seen xs in if contains (key x) seen then skip else x ∷ rest

unfoldable pub anchors_of : List Claim → List Anchor
anchors_of [] = []
anchors_of (c ∷ cs) = c.evidence ++ anchors_of cs

-- A set, as a list with each element once.
unfoldable pub distinct_anchors : List Claim → List (Text × Text)
distinct_anchors claims = dedup (map anchor_key (anchors_of claims))

unfoldable pub owning_modules : Text → Dict Text (List Text) → List Text
owning_modules subject symbols = lookup_list subject symbols

-- The part of a text before the first `/`.
abbrev pub before_slash : Text → Text
before_slash [] = []
before_slash (c ∷ s) = if nat_beq c b'/' then [] else c ∷ before_slash s

-- `node.split("/")[1]` of a node Below the root, any other node itself, nothing for "".
unfoldable pub claim_modules : List Claim → List Text
claim_modules [] = []
claim_modules (c ∷ cs) =
    if starts_with (node_of c) (text "root/")
    then before_slash (drop 5 (node_of c)) ∷ claim_modules cs
    else if is_empty (node_of c)
    then claim_modules cs
    else node_of c ∷ claim_modules cs

-- `by_signature`: the claims of one group by their signatures.
unfoldable pub by_signature : List Claim → Dict Signature (List Claim)
by_signature members = group_into signature [] members

abbrev pub sole {ℓ} : {A : Type ℓ} → List A → Option A
sole [] = none
sole (x ∷ []) = some x
sole (x ∷ y ∷ xs) = none

abbrev pub maximum : List ℕ → ℕ
maximum [] = 0
maximum (n ∷ ns) = max n (maximum ns)

-- Whether `<` is defined on two values of a field, where they differ: None is not ordered.
abbrev pub ordered_field : Option Text → Option Text → Bool
ordered_field none none = true
ordered_field none (some b) = false
ordered_field (some a) none = false
ordered_field (some a) (some b) = true

-- Whether `<` is defined on two signatures: it looks at the first field that differs.
unfoldable pub comparable : Signature → Signature → Bool
comparable (a, (b, c)) (a', (b', c')) =
    if a == a'
    then (if b == b' then ordered_field c c' else ordered_field b b')
    else ordered_field a a'

-- A sort compares all neighbours of its result, and two signatures that `<` does not order are
-- never linked by a chain of ordered ones: `sorted` raises exactly if some pair is not comparable.
unfoldable pub all_comparable : List Signature → Bool
unfolding comparable
all_comparable [] = true
all_comparable (s ∷ ss) = allb (comparable s) ss && all_comparable ss

unfoldable pub owning_signatures : List Text → Dict Signature (List Claim) → List Signature
owning_signatures owners groups =
    keys (filterb (λ g. anyb (λ m. contains m owners) (claim_modules (g.1))) groups)

unfoldable pub evidence_count : List Claim → ℕ
evidence_count claims = length (distinct_anchors claims)

unfoldable pub leading_signatures : Dict Signature (List Claim) → List Signature
leading_signatures groups =
    let best = maximum (map (λ g. evidence_count g.1) groups) in
    keys (filterb (λ g. nat_beq (evidence_count g.1) best) groups)

-- The second half of `_resolve`.
unfoldable pub resolve_by_evidence : Dict Signature (List Claim) → Resolution
resolve_by_evidence groups = elim (sole (leading_signatures groups)) [
  | some s ↦ won s evidence
  | none ↦ if all_comparable (leading_signatures groups) then tied else type_error
]

unfoldable pub resolve : Text → Dict Signature (List Claim) → Dict Text (List Text) → Resolution
resolve subject groups symbols =
    let owners = owning_modules subject symbols in
    if is_empty owners
    then resolve_by_evidence groups
    else elim (sole (owning_signatures owners groups)) [
      | some s ↦ won s ownership
      | none ↦ resolve_by_evidence groups
    ]

-- CONFIDENCE_ORDER
abbrev pub confidence_order : Confidence → ℕ
confidence_order low = 0
confidence_order medium = 1
confidence_order high = 2
confidence_order contested = 3

-- `max(..., key=...)`: the first of the greatest.
unfoldable pub top_confidence : Confidence → List Claim → Confidence
top_confidence best [] = best
top_confidence best (c ∷ cs) =
    top_confidence
      (if ltb (confidence_order best) (confidence_order c.confidence) then c.confidence else best)
      cs

unfoldable pub union_statements : List Claim → List Text
union_statements claims =
    distinct_from (λ s. s) []
      (filterb (λ s. not (is_empty s)) (map (λ c. strip c.statement) claims))

unfoldable pub union_evidence : List Claim → List Anchor
union_evidence claims =
    sort_by {K = Text × ℕ} (λ a. (a.file, a.line)) (distinct_from anchor_key [] (anchors_of claims))

-- `sorted({c["source_node"] for c in claims if c.get("source_node")})`
unfoldable pub union_nodes : List Claim → List Text
union_nodes claims = sorted_set (filterb (λ s. not (is_empty s)) (map node_of claims))

abbrev pub head_or {ℓ} : {A : Type ℓ} → A → List A → A
head_or d [] = d
head_or d (x ∷ xs) = x

-- `_union` of claims that are sorted, the first of them taken apart.
unfoldable pub union_sorted : Text → Text → Claim → List Claim → Claim
union_sorted subject kind first rest =
    let claims = first ∷ rest in
    let texts = union_statements claims in
    record first {
      id = (if is_empty first.id then kind ++ b'.' ∷ subject else first.id);
      kind = kind;
      subject = subject;
      statement = head_or [] texts;
      evidence = union_evidence claims;
      confidence = top_confidence first.confidence rest;
      statements = (if ltb 1 (length texts) then some texts else first.statements);
      source_nodes = some (union_nodes claims);
      source_node = none;
    }
