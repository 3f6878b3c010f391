-- ===== src/Merge/Accounting.antt =====
-- cdp/merge.py: what the counters of `merge_claims` count, and that each group yields one claim.
use mathlib.Core.List.{Memᴰ, Permᴰ, map-append, append_assoc, append-nil}
use mathlib.Core.List.Permᴰ
use code_discovery_pyramid.Base.{
  ◌+◌, ◌≤◌, ◌≡◌, refl, sym, ap, ◌∙◌, subst, inl, inr, Option, none, some, List, [], ◌∷◌, ◌++◌, map,
  ◌==◌, nat_eq, pair_eq, option_eq, pair_ord, length, length-append, Bool-cases, Memᴰ-perm,
  map-perm, length-perm, >>=-eq-some, some_inj, arith,
}
use code_discovery_pyramid.Base.Dict.{
  Dict, keys, lookup_list, group_into, lookup_list-group-ne_nil, keys-group_into-IsNodup,
  Memᴰ-keys_group_into, Memᴰ-of_keys-group_into,
}
use code_discovery_pyramid.Base.Sorting.{sort_by, sort_by-perm, IsNodup, IsNodup-perm}
use code_discovery_pyramid.Base.Text.{Text, text_eq, text_ord}
use code_discovery_pyramid.Claims.{Anchor, Claim}
use code_discovery_pyramid.Merge.{
  Signature, Reason, ownership, evidence, Resolution, won, tied, type_error, signature, group_key,
  claim_sort_key, by_signature, union_sorted, resolve,
}
use code_discovery_pyramid.Merge.Winners.{resolve-present}
use code_discovery_pyramid.Merge.Operator.{
  Merged, nothing_merged, near_miss, conflict_record, union, append_claim, mark_contested,
  merge_unanimous, merge_won, merge_contested, merge_conflict, merge_group, merge_keys,
  merge_claims, claim_order, sort_merged,
}

-- The counters agree with each other and with the lists that they count.
pub record IsBalanced (m : Merged) : Type 0 where
  pub groups_split : m.stats.groups ≡ m.stats.unanimous + m.stats.conflicts
  pub conflicts_split :
      m.stats.conflicts
      ≡ m.stats.resolved_by_ownership + m.stats.resolved_by_evidence + m.stats.contested
  pub conflicts_listed : length m.conflicts ≡ m.stats.conflicts
  pub near_misses_listed : length m.near_misses ≡ m.stats.near_misses
  pub near_misses_unanimous : m.stats.near_misses ≤ m.stats.unanimous
  pub claims_listed : length m.claims ≡ m.stats.groups

module _ (evidence_hash : List Anchor → Text) (symbols : Dict Text (List Text)) where
  -- A union of claims that are there is a claim of the group's subject and kind.
  pub union-group_key :
      (subject kind : Text) (claims : List Claim) {x : Claim}
      → Memᴰ x claims
      → (c : Claim) × (union evidence_hash symbols subject kind claims ≡ some c)
        × (group_key c ≡ (subject, kind))
  unfolding union group_key union_sorted
  union-group_key subject kind claims m =
      go (sort_by (claim_sort_key evidence_hash) claims) refl
        (Memᴰ-perm (Permᴰ.symm (sort_by-perm (claim_sort_key evidence_hash) claims)) m)
    where
      go :
          {x : Claim} (l : List Claim)
          → sort_by (claim_sort_key evidence_hash) claims ≡ l
          → Memᴰ x l
          → (c : Claim) × (union evidence_hash symbols subject kind claims ≡ some c)
            × (group_key c ≡ (subject, kind))
      go [] p m' = elim m' [ ]
      go (c ∷ cs) p m' = (union_sorted subject kind c cs, rw (p, union) refl, refl)

  abbrev merged_keys : Merged → List (Text × Text)
  merged_keys m = map group_key m.claims

  abbrev Extends : Merged → Merged → Text × Text → Type 0
  Extends m m' k = (IsBalanced m → IsBalanced m') × (merged_keys m' ≡ merged_keys m ++ k ∷ [])

  merged_keys-append :
      (l : List Claim) (o : Option Claim) (c : Claim) (k : Text × Text)
      → o ≡ some c
      → group_key c ≡ k
      → map group_key (append_claim o l) ≡ map group_key l ++ k ∷ []
  merged_keys-append l o c k p q =
      ap (λ z. map group_key (append_claim z l)) p
      ∙ map-append group_key l (c ∷ [])
      ∙ ap (λ z. map group_key l ++ z ∷ []) q

  length-append_claim :
      (l : List Claim) (o : Option Claim) (c : Claim)
      → o ≡ some c
      → length (append_claim o l) ≡ length l + 1
  length-append_claim l o c p = ap (λ z. length (append_claim z l)) p ∙ length-append l (c ∷ [])

  module _ (subject kind : Text) (members : List Claim) {x : Claim} (some_member : Memᴰ x members)
      (m : Merged) where
    merge_unanimous-Extends :
        Extends m (merge_unanimous evidence_hash symbols subject kind members m) (subject, kind)
    unfolding merge_unanimous
    merge_unanimous-Extends =
        let (c, p, q) = union-group_key subject kind members some_member in
        (
          λ b. ground (
            arith,
            length-append_claim m.claims (union evidence_hash symbols subject kind members) c p,
            length-append m.near_misses (near_miss subject kind members ∷ []),
          ),
          merged_keys-append m.claims _ c (subject, kind) p q,
        )

    merge_won-Extends :
        (s : Signature) (r : Reason)
        → Memᴰ s (keys (by_signature members))
        → Extends m (merge_won evidence_hash symbols subject kind members s r m) (subject, kind)
    unfolding merge_won by_signature
    merge_won-Extends s r won_by =
        let (y, present) = lookup_list-group-ne_nil signature members won_by in
        let (c, p, q) =
          union-group_key subject kind (lookup_list s (by_signature members)) present in
        (λ b. balanced r b c p, merged_keys-append m.claims _ c (subject, kind) p q)
      where
        balanced :
            (r : Reason)
            → IsBalanced m
            → (c : Claim)
            → union evidence_hash symbols subject kind (lookup_list s (by_signature members))
              ≡ some c
            → IsBalanced (merge_won evidence_hash symbols subject kind members s r m)
        balanced ownership b c p = ground (
          arith,
          length-append_claim m.claims _ c p,
          length-append m.conflicts
              (conflict_record subject kind (by_signature members) (some ownership) (some s) ∷ []),
        )
        balanced evidence b c p = ground (
          arith,
          length-append_claim m.claims _ c p,
          length-append m.conflicts
              (conflict_record subject kind (by_signature members) (some evidence) (some s) ∷ []),
        )

    merge_contested-Extends :
        Extends m (merge_contested evidence_hash symbols subject kind members m) (subject, kind)
    unfolding merge_contested
    merge_contested-Extends =
        let (c, p, q) = union-group_key subject kind members some_member in
        let marked = ap (mark_contested members) p in
        (
          λ b. ground (
            arith,
            length-append_claim m.claims _ _ marked,
            length-append m.conflicts
                (conflict_record subject kind (by_signature members) none none ∷ []),
          ),
          merged_keys-append m.claims _ _ (subject, kind) marked (unfold group_key in q),
        )

    Extends-of_eq :
        {m' m'' : Merged} → m' ≡ m'' → Extends m m' (subject, kind) → Extends m m'' (subject, kind)
    Extends-of_eq e h = subst (λ z. Extends m z (subject, kind)) e h

    merge_conflict-Extends :
        (r : Resolution)
        → resolve subject (by_signature members) symbols ≡ r
        → {m' : Merged} → merge_conflict evidence_hash symbols subject kind members r m ≡ some m'
        → Extends m m' (subject, kind)
    unfolding merge_conflict
    merge_conflict-Extends (won s r) p h =
        Extends-of_eq (some_inj h)
          (merge_won-Extends s r (resolve-present subject (by_signature members) symbols s r p))
    merge_conflict-Extends tied p h = Extends-of_eq (some_inj h) merge_contested-Extends
    merge_conflict-Extends type_error p h = absurd (ground arith)

    merge_group-Extends :
        {m' : Merged}
        → merge_group evidence_hash symbols subject kind members m ≡ some m'
        → Extends m m' (subject, kind)
    unfolding merge_group
    merge_group-Extends {m'} h = elim (Bool-cases (length (by_signature members) == 1)) [
      | inl one ↦ Extends-of_eq (ground arith) merge_unanimous-Extends
      | inr more ↦ merge_conflict-Extends _ refl (ground arith)
    ]

  -- Every round of the loop adds the claim of its key, and keeps the balance.
  merge_keys-Extends :
      (claims : List Claim) (ks : List (Text × Text))
      → ((k : Text × Text) → Memᴰ k ks → Memᴰ k (keys (group_into group_key [] claims)))
      → (m : Merged) {m' : Merged}
      → merge_keys evidence_hash symbols (group_into group_key [] claims) ks m ≡ some m'
      → (IsBalanced m → IsBalanced m') × (merged_keys m' ≡ merged_keys m ++ ks)
  unfolding merge_keys
  merge_keys-Extends claims [] known m h = (
    λ b. subst IsBalanced (some_inj h) b,
    ap merged_keys (sym (some_inj h)) ∙ sym (append-nil (merged_keys m)),
  )
  merge_keys-Extends claims (k ∷ ks) known m h =
      let (x, present) = lookup_list-group-ne_nil group_key claims (known k (Memᴰ.head refl)) in
      let (m₁, first, later) = >>=-eq-some _ _ h in
      let (keeps, adds) =
        merge_group-Extends k.0 k.1 _
          (Memᴰ-perm (Permᴰ.symm (sort_by-perm (claim_sort_key evidence_hash) _)) present) m
          first in
      let (keeps', adds') = merge_keys-Extends claims ks (λ j n. known j (Memᴰ.tail n)) m₁ later in
      (
        λ b. keeps' (keeps b),
        adds' ∙ ap (λ l. l ++ ks) adds ∙ append_assoc (merged_keys m) (k ∷ []) ks,
      )

  -- What a merge that returns has done with the claims of the log.
  pub record Accounts (claims : List Claim) (m : Merged) : Type 0 where
    pub balanced : IsBalanced m
    pub covered : (c : Claim) → Memᴰ c claims → Memᴰ (group_key c) (map group_key m.claims)
    pub once : IsNodup (map group_key m.claims)
    pub from_log :
        (k : Text × Text)
        → Memᴰ k (map group_key m.claims)
        → (c : Claim) × Memᴰ c claims × (k ≡ group_key c)

  Accounts-of_keys :
      (claims : List Claim) (m : Merged)
      → IsBalanced m
      → Permᴰ (map group_key m.claims) (keys (group_into group_key [] claims))
      → Accounts claims m
  Accounts-of_keys claims m b p = record {
    balanced = b;
    covered = λ c h. Memᴰ-perm (Permᴰ.symm p) (Memᴰ-keys_group_into group_key [] h);
    once = IsNodup-perm (Permᴰ.symm p) (keys-group_into-IsNodup group_key [] claims tt);
    from_log = λ k h. elim (Memᴰ-of_keys-group_into group_key [] claims (Memᴰ-perm p h)) [
      | inl n ↦ elim n [ ]
      | inr found ↦ found
    ];
  }

  sort_merged-IsBalanced : (m : Merged) → IsBalanced m → IsBalanced (sort_merged m)
  unfolding sort_merged
  sort_merged-IsBalanced m b = ground (arith, length-perm (sort_by-perm claim_order m.claims))

  -- A merge that returns yields exactly one claim for each subject and kind of the log, invents
  -- none, and its counters add up: groups are unanimous or in conflict, conflicts are won by
  -- ownership, by evidence or contested, and the lists are as long as they are counted.
  pub merge_claims-Accounts :
      (claims : List Claim) {m : Merged}
      → merge_claims evidence_hash symbols claims ≡ some m
      → Accounts claims m
  unfolding merge_claims sort_merged
  merge_claims-Accounts claims h =
      let groups = group_into group_key [] claims in
      let ks = sort_by (λ k. k) (keys groups) in
      let (m', ran, sorted) = >>=-eq-some _ _ h in
      let (keeps, adds) =
        merge_keys-Extends claims ks (λ k n. Memᴰ-perm (sort_by-perm (λ j. j) (keys groups)) n)
          nothing_merged ran in
      subst (Accounts claims) (some_inj sorted) (
        Accounts-of_keys claims (sort_merged m') (sort_merged-IsBalanced m' (keeps (omega arith))) (
          Permᴰ.trans (map-perm group_key (sort_by-perm claim_order m'.claims))
            (subst (λ l. Permᴰ l (keys groups)) (sym adds) (sort_by-perm (λ j. j) (keys groups)))))
