-- ===== src/Examples/Merging.antt =====
-- The merge of a public and a private claim about one subject, and a schedule.
use mathlib.Core.List.{Permᴰ}
use code_discovery_pyramid.Base.{
  ℕ, ◌<◌, ◌≤◌, Bool, true, false, Option, none, some, List, [], ◌∷◌, ◌++◌, ◌≡◌, ◌≢◌, refl, ◌⊎◌, inl,
  inr, ==_false→ne, pair_eq, pair_ord, arith, nat_ord, All,
}
use code_discovery_pyramid.Base.Dict.{Dict, keys, or_else}
use code_discovery_pyramid.Base.Text.{Text, text, text_eq, text_ord}
use code_discovery_pyramid.Claims.{Claim}
use code_discovery_pyramid.Merge.{
  Signature, won, ownership, evidence, signature, claim_sort_key, resolve, owning_modules, sole,
  owning_signatures, union_evidence, by_signature,
}
use code_discovery_pyramid.Merge.Operator.{Merged, nothing_merged, merge_claims}
use code_discovery_pyramid.Merge.Independence.{merge_claims-perm}
use code_discovery_pyramid.Merge.Accounting.{Accounts, merge_claims-Accounts}
use code_discovery_pyramid.Merge.Winners.{
  WinsByEvidence, resolve-WinsByEvidence, owns, resolve-owner,
}
use code_discovery_pyramid.Merge.Evidence.{UnitesEvidence, union_evidence-UnitesEvidence}
use code_discovery_pyramid.Merge.Unordered.{merge_claims-type_error}
use code_discovery_pyramid.Examples.Samples.{
  claim_by, public_claim, private_claim, other_anchor, digest, two_distinct,
}

abbrev two_claims : List Claim
two_claims = public_claim ∷ private_claim ∷ []

keys_differ : claim_sort_key digest public_claim ≢ claim_sort_key digest private_claim
unfolding claim_sort_key
keys_differ = ==_false→ne _ _ refl

merge_claims-perm_example :
    merge_claims digest [] two_claims ≡ merge_claims digest [] (private_claim ∷ public_claim ∷ [])
merge_claims-perm_example =
    merge_claims-perm digest [] (Permᴰ.swap refl refl)
      (two_distinct (claim_sort_key digest) public_claim private_claim keys_differ)

abbrev merged_claims : Merged
merged_claims = or_else nothing_merged (merge_claims digest [] two_claims)

merged : merge_claims digest [] two_claims ≡ some merged_claims
unfolding code_discovery_pyramid.Base.Dict.lookup code_discovery_pyramid.Base.Dict.insert
    code_discovery_pyramid.Base.Dict.push code_discovery_pyramid.Base.Dict.group_into
    code_discovery_pyramid.Base.Sorting.sort_by code_discovery_pyramid.Base.Sorting.dedup
    code_discovery_pyramid.Base.Sorting.sorted_set code_discovery_pyramid.Base.Text.is_space
    code_discovery_pyramid.Base.Text.strip code_discovery_pyramid.Base.Text.words
    code_discovery_pyramid.Base.Text.normalise_ws code_discovery_pyramid.Base.Text.decimal_fuel
    code_discovery_pyramid.Base.Text.decimal code_discovery_pyramid.Base.Index.first_by
    code_discovery_pyramid.Merge.signature code_discovery_pyramid.Merge.group_key
    code_discovery_pyramid.Merge.claim_sort_key code_discovery_pyramid.Merge.anchor_key
    code_discovery_pyramid.Merge.distinct_from code_discovery_pyramid.Merge.anchors_of
    code_discovery_pyramid.Merge.distinct_anchors code_discovery_pyramid.Merge.owning_modules
    code_discovery_pyramid.Merge.claim_modules code_discovery_pyramid.Merge.by_signature
    code_discovery_pyramid.Merge.comparable code_discovery_pyramid.Merge.all_comparable
    code_discovery_pyramid.Merge.owning_signatures code_discovery_pyramid.Merge.evidence_count
    code_discovery_pyramid.Merge.leading_signatures code_discovery_pyramid.Merge.resolve_by_evidence
    code_discovery_pyramid.Merge.resolve code_discovery_pyramid.Merge.top_confidence
    code_discovery_pyramid.Merge.union_statements code_discovery_pyramid.Merge.union_evidence
    code_discovery_pyramid.Merge.union_nodes code_discovery_pyramid.Merge.union_sorted
    code_discovery_pyramid.Merge.Operator.position_key
    code_discovery_pyramid.Merge.Operator.position
    code_discovery_pyramid.Merge.Operator.conflict_record
    code_discovery_pyramid.Merge.Operator.reads_differently
    code_discovery_pyramid.Merge.Operator.near_miss
    code_discovery_pyramid.Merge.Operator.sort_merged code_discovery_pyramid.Merge.Operator.union
    code_discovery_pyramid.Merge.Operator.merge_unanimous
    code_discovery_pyramid.Merge.Operator.merge_won
    code_discovery_pyramid.Merge.Operator.merge_contested
    code_discovery_pyramid.Merge.Operator.merge_conflict
    code_discovery_pyramid.Merge.Operator.merge_group
    code_discovery_pyramid.Merge.Operator.merge_keys
    code_discovery_pyramid.Merge.Operator.merge_claims
merged = refl

merge_claims-Accounts_example : Accounts digest [] two_claims merged_claims
merge_claims-Accounts_example = merge_claims-Accounts digest [] two_claims merged

abbrev two_groups : List (Signature × List Claim)
two_groups =
    (signature public_claim, public_claim ∷ []) ∷ (signature private_claim, private_claim ∷ []) ∷ []

evidence_wins : resolve (text "shop.Order") two_groups [] ≡ won (signature public_claim) evidence
unfolding code_discovery_pyramid.Base.Dict.lookup code_discovery_pyramid.Base.Dict.insert
    code_discovery_pyramid.Base.Dict.push code_discovery_pyramid.Base.Dict.group_into
    code_discovery_pyramid.Base.Sorting.sort_by code_discovery_pyramid.Base.Sorting.dedup
    code_discovery_pyramid.Base.Sorting.sorted_set code_discovery_pyramid.Merge.signature
    code_discovery_pyramid.Merge.group_key code_discovery_pyramid.Merge.claim_sort_key
    code_discovery_pyramid.Merge.anchor_key code_discovery_pyramid.Merge.distinct_from
    code_discovery_pyramid.Merge.anchors_of code_discovery_pyramid.Merge.distinct_anchors
    code_discovery_pyramid.Merge.owning_modules code_discovery_pyramid.Merge.claim_modules
    code_discovery_pyramid.Merge.by_signature code_discovery_pyramid.Merge.comparable
    code_discovery_pyramid.Merge.all_comparable code_discovery_pyramid.Merge.owning_signatures
    code_discovery_pyramid.Merge.evidence_count code_discovery_pyramid.Merge.leading_signatures
    code_discovery_pyramid.Merge.resolve_by_evidence code_discovery_pyramid.Merge.resolve
    code_discovery_pyramid.Merge.top_confidence code_discovery_pyramid.Merge.union_statements
    code_discovery_pyramid.Merge.union_evidence code_discovery_pyramid.Merge.union_nodes
    code_discovery_pyramid.Merge.union_sorted
evidence_wins = refl

resolve-WinsByEvidence_example :
    WinsByEvidence two_groups (signature public_claim)
    × ((owning_modules (text "shop.Order") [] ≡ [])
        ⊎ (sole (owning_signatures (owning_modules (text "shop.Order") []) two_groups) ≡ none))
resolve-WinsByEvidence_example =
    resolve-WinsByEvidence (text "shop.Order") two_groups [] (signature public_claim) evidence_wins

abbrev owners : Dict Text (List Text)
owners = (text "shop.Order", text "carts" ∷ []) ∷ []

has_owner : owning_modules (text "shop.Order") owners ≢ []
unfolding code_discovery_pyramid.Base.Dict.lookup code_discovery_pyramid.Base.Dict.insert
    code_discovery_pyramid.Base.Dict.push code_discovery_pyramid.Base.Dict.group_into
    code_discovery_pyramid.Merge.signature code_discovery_pyramid.Merge.group_key
    code_discovery_pyramid.Merge.claim_sort_key code_discovery_pyramid.Merge.anchor_key
    code_discovery_pyramid.Merge.distinct_from code_discovery_pyramid.Merge.anchors_of
    code_discovery_pyramid.Merge.distinct_anchors code_discovery_pyramid.Merge.owning_modules
    code_discovery_pyramid.Merge.claim_modules code_discovery_pyramid.Merge.by_signature
    code_discovery_pyramid.Merge.comparable code_discovery_pyramid.Merge.all_comparable
    code_discovery_pyramid.Merge.owning_signatures code_discovery_pyramid.Merge.evidence_count
    code_discovery_pyramid.Merge.leading_signatures code_discovery_pyramid.Merge.resolve_by_evidence
    code_discovery_pyramid.Merge.resolve code_discovery_pyramid.Merge.top_confidence
    code_discovery_pyramid.Merge.union_statements code_discovery_pyramid.Merge.union_evidence
    code_discovery_pyramid.Merge.union_nodes code_discovery_pyramid.Merge.union_sorted
has_owner h = ground arith

owned :
    owns (owning_modules (text "shop.Order") owners) (signature private_claim, private_claim ∷ [])
    ≡ true
unfolding code_discovery_pyramid.Base.Dict.lookup code_discovery_pyramid.Base.Dict.insert
    code_discovery_pyramid.Base.Dict.push code_discovery_pyramid.Base.Dict.group_into
    code_discovery_pyramid.Base.Text.is_space code_discovery_pyramid.Base.Text.strip
    code_discovery_pyramid.Base.Text.words code_discovery_pyramid.Base.Text.normalise_ws
    code_discovery_pyramid.Base.Text.decimal_fuel code_discovery_pyramid.Base.Text.decimal
    code_discovery_pyramid.Base.Sorting.sort_by code_discovery_pyramid.Base.Sorting.dedup
    code_discovery_pyramid.Base.Sorting.sorted_set code_discovery_pyramid.Merge.signature
    code_discovery_pyramid.Merge.group_key code_discovery_pyramid.Merge.claim_sort_key
    code_discovery_pyramid.Merge.anchor_key code_discovery_pyramid.Merge.distinct_from
    code_discovery_pyramid.Merge.anchors_of code_discovery_pyramid.Merge.distinct_anchors
    code_discovery_pyramid.Merge.owning_modules code_discovery_pyramid.Merge.claim_modules
    code_discovery_pyramid.Merge.by_signature code_discovery_pyramid.Merge.comparable
    code_discovery_pyramid.Merge.all_comparable code_discovery_pyramid.Merge.owning_signatures
    code_discovery_pyramid.Merge.evidence_count code_discovery_pyramid.Merge.leading_signatures
    code_discovery_pyramid.Merge.resolve_by_evidence code_discovery_pyramid.Merge.resolve
    code_discovery_pyramid.Merge.top_confidence code_discovery_pyramid.Merge.union_statements
    code_discovery_pyramid.Merge.union_evidence code_discovery_pyramid.Merge.union_nodes
    code_discovery_pyramid.Merge.union_sorted
owned = refl

foreign :
    owns (owning_modules (text "shop.Order") owners) (signature public_claim, public_claim ∷ [])
    ≡ false
unfolding code_discovery_pyramid.Base.Dict.lookup code_discovery_pyramid.Base.Dict.insert
    code_discovery_pyramid.Base.Dict.push code_discovery_pyramid.Base.Dict.group_into
    code_discovery_pyramid.Base.Text.is_space code_discovery_pyramid.Base.Text.strip
    code_discovery_pyramid.Base.Text.words code_discovery_pyramid.Base.Text.normalise_ws
    code_discovery_pyramid.Base.Text.decimal_fuel code_discovery_pyramid.Base.Text.decimal
    code_discovery_pyramid.Base.Sorting.sort_by code_discovery_pyramid.Base.Sorting.dedup
    code_discovery_pyramid.Base.Sorting.sorted_set code_discovery_pyramid.Merge.signature
    code_discovery_pyramid.Merge.group_key code_discovery_pyramid.Merge.claim_sort_key
    code_discovery_pyramid.Merge.anchor_key code_discovery_pyramid.Merge.distinct_from
    code_discovery_pyramid.Merge.anchors_of code_discovery_pyramid.Merge.distinct_anchors
    code_discovery_pyramid.Merge.owning_modules code_discovery_pyramid.Merge.claim_modules
    code_discovery_pyramid.Merge.by_signature code_discovery_pyramid.Merge.comparable
    code_discovery_pyramid.Merge.all_comparable code_discovery_pyramid.Merge.owning_signatures
    code_discovery_pyramid.Merge.evidence_count code_discovery_pyramid.Merge.leading_signatures
    code_discovery_pyramid.Merge.resolve_by_evidence code_discovery_pyramid.Merge.resolve
    code_discovery_pyramid.Merge.top_confidence code_discovery_pyramid.Merge.union_statements
    code_discovery_pyramid.Merge.union_evidence code_discovery_pyramid.Merge.union_nodes
    code_discovery_pyramid.Merge.union_sorted
foreign = refl

resolve-owner_example :
    resolve (text "shop.Order") two_groups owners ≡ won (signature private_claim) ownership
resolve-owner_example =
    resolve-owner (text "shop.Order") owners ((signature public_claim, public_claim ∷ []) ∷ []) []
      (signature private_claim, private_claim ∷ []) has_owner owned (foreign, tt) tt

union_evidence-UnitesEvidence_example : UnitesEvidence two_claims (union_evidence two_claims)
union_evidence-UnitesEvidence_example = union_evidence-UnitesEvidence two_claims

abbrev silent_claim : Claim
silent_claim = claim_by (text "lists") (text "l1") none (other_anchor ∷ [])

merge_claims-type_error_example : merge_claims digest [] (silent_claim ∷ private_claim ∷ []) ≡ none
unfolding code_discovery_pyramid.Base.Dict.lookup code_discovery_pyramid.Base.Dict.insert
    code_discovery_pyramid.Base.Dict.push code_discovery_pyramid.Base.Dict.group_into
    code_discovery_pyramid.Base.Sorting.sort_by code_discovery_pyramid.Base.Sorting.dedup
    code_discovery_pyramid.Base.Sorting.sorted_set code_discovery_pyramid.Merge.signature
    code_discovery_pyramid.Merge.group_key code_discovery_pyramid.Merge.claim_sort_key
    code_discovery_pyramid.Merge.anchor_key code_discovery_pyramid.Merge.distinct_from
    code_discovery_pyramid.Merge.anchors_of code_discovery_pyramid.Merge.distinct_anchors
    code_discovery_pyramid.Merge.owning_modules code_discovery_pyramid.Merge.claim_modules
    code_discovery_pyramid.Merge.by_signature code_discovery_pyramid.Merge.comparable
    code_discovery_pyramid.Merge.all_comparable code_discovery_pyramid.Merge.owning_signatures
    code_discovery_pyramid.Merge.evidence_count code_discovery_pyramid.Merge.leading_signatures
    code_discovery_pyramid.Merge.resolve_by_evidence code_discovery_pyramid.Merge.resolve
    code_discovery_pyramid.Merge.top_confidence code_discovery_pyramid.Merge.union_statements
    code_discovery_pyramid.Merge.union_evidence code_discovery_pyramid.Merge.union_nodes
    code_discovery_pyramid.Merge.union_sorted
merge_claims-type_error_example =
    merge_claims-type_error digest [] silent_claim private_claim (text "private") refl refl refl
      refl refl refl
