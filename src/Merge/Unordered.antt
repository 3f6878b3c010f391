-- ===== src/Merge/Unordered.antt =====
-- cdp/merge.py: the TypeError of `sorted` in `_resolve`.
use code_discovery_pyramid.Base.{
  ◌≡◌, ◌≢◌, refl, sym, ap, ◌∙◌, inl, inr, false, none, some, List, [], ◌∷◌, pair_eq, option_eq,
  pair_ord, Eq, nat_eq, ne→==_false, >>=-cong, ◌⊎◌, ==_refl, Bool-cases, arith, ◌≼◌,
}
use code_discovery_pyramid.Base.Dict.{Dict, keys, lookup, insert, push, group_into, lookup_list}
use code_discovery_pyramid.Base.Sorting.{sort_by}
use code_discovery_pyramid.Base.Text.{Text, text_eq, text_ord}
use code_discovery_pyramid.Claims.{Anchor, Claim}
use code_discovery_pyramid.Merge.{
  Signature, type_error, signature, group_key, claim_sort_key, by_signature, evidence_count,
  leading_signatures, resolve_by_evidence, resolve, owning_modules, all_comparable, comparable,
}
use code_discovery_pyramid.Merge.Operator.{
  merge_conflict, merge_group, merge_keys, merge_claims, nothing_merged, Merged,
}

module _ {ℓ κ} {K : Type ℓ} {A : Type κ} ⦃e : Eq K⦄ (key : A → K) where
  group_two_distinct :
      (a b : A)
      → key a ≢ key b
      → group_into key [] (a ∷ b ∷ []) ≡ (key a, a ∷ []) ∷ (key b, b ∷ []) ∷ []
  unfolding group_into push insert lookup
  group_two_distinct a b h = rw (ne→==_false (key b) (key a) (λ p. h (sym p)))

  group_two_equal :
      (a b : A) → key b ≡ key a → group_into key [] (a ∷ b ∷ []) ≡ (key a, a ∷ b ∷ []) ∷ []
  unfolding group_into push insert lookup
  group_two_equal a b h = rw ((e.beq_iff (key b) (key a)).1 h)

resolve_two_type_error :
    (subject : Text) (symbols : Dict Text (List Text)) (s t : Signature) (c d : List Claim)
    → owning_modules subject symbols ≡ []
    → evidence_count c ≡ evidence_count d
    → comparable s t ≡ false
    → resolve subject ((s, c) ∷ (t, d) ∷ []) symbols ≡ type_error
unfolding resolve resolve_by_evidence leading_signatures all_comparable
resolve_two_type_error subject symbols s t c d no_owner same apart =
    ground (arith, no_owner, same, apart)

module _ (evidence_hash : List Anchor → Text) (symbols : Dict Text (List Text)) where
  merge_group_two :
      (subject kind : Text) (x y : Claim) (m : Merged)
      → owning_modules subject symbols ≡ []
      → evidence_count (x ∷ []) ≡ evidence_count (y ∷ [])
      → signature x ≢ signature y
      → comparable (signature x) (signature y) ≡ false
      → merge_group evidence_hash symbols subject kind (x ∷ y ∷ []) m ≡ none
  unfolding merge_group merge_conflict by_signature
  merge_group_two subject kind x y m no_owner same differ apart = rw (
    group_two_distinct signature x y differ,
    resolve_two_type_error subject symbols (signature x) (signature y) (x ∷ []) (y ∷ []) no_owner
        same apart,
  )

  sort_two :
      (a b : Claim)
      → (sort_by (claim_sort_key evidence_hash) (a ∷ b ∷ []) ≡ a ∷ b ∷ [])
        ⊎ (sort_by (claim_sort_key evidence_hash) (a ∷ b ∷ []) ≡ b ∷ a ∷ [])
  unfolding sort_by
  sort_two a b =
      elim (Bool-cases (claim_sort_key evidence_hash a ≼ claim_sort_key evidence_hash b)) [
        | inl h ↦ inl (rw h)
        | inr h ↦ inr (rw h)
      ]

  lookup_only :
      (k : Text × Text) (l : List Claim)
      → sort_by (claim_sort_key evidence_hash) (lookup_list k ((k, l) ∷ []))
        ≡ sort_by (claim_sort_key evidence_hash) l
  unfolding lookup
  lookup_only k l = rw (==_refl k)

  sort_one : (k : Text × Text) → sort_by (λ j. j) (k ∷ []) ≡ k ∷ []
  unfolding sort_by
  sort_one k = refl

  merge_keys_one :
      (k : Text × Text) (l : List Claim)
      → merge_group evidence_hash symbols k.0 k.1
          (sort_by (claim_sort_key evidence_hash) l)
          nothing_merged
        ≡ none
      → merge_keys evidence_hash symbols ((k, l) ∷ []) (k ∷ []) nothing_merged ≡ none
  unfolding merge_keys
  merge_keys_one k l h =
      >>=-cong
        (ap (λ ms. merge_group evidence_hash symbols k.0 k.1 ms nothing_merged) (lookup_only k l)
          ∙ h)
        (λ m. refl)

  merge_claims_two :
      (a b : Claim)
      → group_key b ≡ group_key a
      → merge_group evidence_hash symbols
          (group_key a).0
          (group_key a).1
          (sort_by (claim_sort_key evidence_hash) (a ∷ b ∷ []))
          nothing_merged
        ≡ none
      → merge_claims evidence_hash symbols (a ∷ b ∷ []) ≡ none
  unfolding merge_claims
  merge_claims_two a b same_key h =
      >>=-cong
        (ap (λ g. merge_keys evidence_hash symbols g (sort_by (λ j. j) (keys g)) nothing_merged)
            (group_two_equal group_key a b same_key)
          ∙ ap
              (λ ks.
                merge_keys evidence_hash symbols ((group_key a, a ∷ b ∷ []) ∷ []) ks nothing_merged)
              (sort_one (group_key a))
          ∙ merge_keys_one (group_key a) (a ∷ b ∷ []) h)
        (λ m. refl)

  -- Two claims of one subject and kind, alike in their channel, one of which states a visibility
  -- and the other none, with equally many distinct anchors and no module that defines the subject:
  -- the merge raises, where its policy says that such a pair is contested.
  pub merge_claims-type_error :
      (a b : Claim) (v : Text)
      → group_key b ≡ group_key a
      → a.channel ≡ b.channel
      → a.visibility ≡ none
      → b.visibility ≡ some v
      → owning_modules a.subject symbols ≡ []
      → evidence_count (a ∷ []) ≡ evidence_count (b ∷ [])
      → merge_claims evidence_hash symbols (a ∷ b ∷ []) ≡ none
  merge_claims-type_error a b v same_key same_channel no_visibility visible no_owner same_count =
      merge_claims_two a b same_key (elim (sort_two a b) [
        | inl h ↦ rw h (merge_group_two _ _ a b nothing_merged owner same_count differ apart)
        | inr h ↦ rw h (
            merge_group_two _ _ b a nothing_merged owner (sym same_count) (λ p. differ (sym p))
              apart')
      ])
    where
      owner : owning_modules (group_key a).0 symbols ≡ []
      owner = unfold group_key in no_owner

      differ : signature a ≢ signature b
      differ p = unfold signature in ground arith

      apart : comparable (signature a) (signature b) ≡ false
      apart =
          unfold comparable signature in
          rw (same_channel, no_visibility, visible, ==_refl b.channel)

      apart' : comparable (signature b) (signature a) ≡ false
      apart' =
          unfold comparable signature in
          rw (same_channel, no_visibility, visible, ==_refl b.channel)
