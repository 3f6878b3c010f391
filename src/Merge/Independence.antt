-- ===== src/Merge/Independence.antt =====
-- cdp/merge.py: the order in which claims arrive does not reach the result.
use mathlib.Core.List.{Permᴰ}
use code_discovery_pyramid.Base.{
  ◌≡◌, refl, sym, ap, ◌∙◌, List, [], ◌∷◌, ◌==◌, pair_eq, pair_ord, Memᴰ-of_filterb, filterb-perm,
  >>=-cong,
}
use code_discovery_pyramid.Base.Dict.{
  Dict, keys, lookup_list, group_into, lookup_list-group, sort_by-keys-group_into,
}
use code_discovery_pyramid.Base.Sorting.{sort_by, sort_by-perm_eq, KeyDistinct}
use code_discovery_pyramid.Base.Text.{Text, text_eq, text_ord}
use code_discovery_pyramid.Claims.{Anchor, Claim}
use code_discovery_pyramid.Merge.{group_key, claim_sort_key}
use code_discovery_pyramid.Merge.Operator.{
  Merged, nothing_merged, merge_group, merge_keys, merge_claims,
}

module _ (evidence_hash : List Anchor → Text) (symbols : Dict Text (List Text)) where
  abbrev sorted_members : List Claim → Text × Text → List Claim
  sorted_members claims k =
      sort_by (claim_sort_key evidence_hash) (lookup_list k (group_into group_key [] claims))

  sorted_members-perm :
      {xs ys : List Claim}
      → Permᴰ xs ys
      → KeyDistinct (claim_sort_key evidence_hash) xs
      → (k : Text × Text) → sorted_members xs k ≡ sorted_members ys k
  sorted_members-perm {xs} {ys} p distinct k =
      ap (sort_by (claim_sort_key evidence_hash)) (lookup_list-group group_key k xs)
      ∙ sort_by-perm_eq (claim_sort_key evidence_hash) (filterb-perm (λ c. k == group_key c) p)
          (λ a b m n.
            distinct a b (Memᴰ-of_filterb (λ c. k == group_key c) xs m).0
              (Memᴰ-of_filterb (λ c. k == group_key c) xs n).0)
      ∙ sym (ap (sort_by (claim_sort_key evidence_hash)) (lookup_list-group group_key k ys))

  merge_keys-cong :
      (g h : Dict (Text × Text) (List Claim))
      → ((k : Text × Text)
          → sort_by (claim_sort_key evidence_hash) (lookup_list k g)
            ≡ sort_by (claim_sort_key evidence_hash) (lookup_list k h))
      → (ks : List (Text × Text)) (m : Merged)
      → merge_keys evidence_hash symbols g ks m ≡ merge_keys evidence_hash symbols h ks m
  unfolding merge_keys
  merge_keys-cong g h same [] m = refl
  merge_keys-cong g h same (k ∷ ks) m =
      >>=-cong (ap (λ members. merge_group evidence_hash symbols k.0 k.1 members m) (same k))
        (merge_keys-cong g h same ks)

  -- Two logs with the same claims merge to the same state, whatever the order in which the claims
  -- arrived, if the sort key of a claim (node, id and digest of the evidence) tells the claims of
  -- the log apart.
  pub merge_claims-perm :
      {xs ys : List Claim}
      → Permᴰ xs ys
      → KeyDistinct (claim_sort_key evidence_hash) xs
      → merge_claims evidence_hash symbols xs ≡ merge_claims evidence_hash symbols ys
  unfolding merge_claims
  merge_claims-perm {xs} {ys} p distinct =
      >>=-cong
        (merge_keys-cong (group_into group_key [] xs) (group_into group_key [] ys)
            (sorted_members-perm p distinct) (sort_by (λ k. k) (keys (group_into group_key [] xs)))
            nothing_merged
          ∙ ap
              (λ ks.
                merge_keys evidence_hash symbols (group_into group_key [] ys) ks nothing_merged)
              (sort_by-keys-group_into group_key p))
        (λ m. refl)
