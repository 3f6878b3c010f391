-- ===== src/Merge/Evidence.antt =====
-- cdp/merge.py: the evidence of a merged claim.
use mathlib.Core.List.{Memᴰ, Permᴰ}
use mathlib.Core.List.Permᴰ
use code_discovery_pyramid.Base.{
  ℕ, ◌≡◌, ◌↔◌, sym, ap, ◌∙◌, subst, ◌⊎◌, inl, inr, true, false, List, [], ◌∷◌, map, Eq, ◌==◌,
  pair_eq, pair_ord, nat_ord, length, length-perm, map-perm, length-map, Bool-cases, Memᴰ-perm,
  contains, arith, ==→eq,
}
use code_discovery_pyramid.Base.Sorting.{
  sort_by, sort_by-perm, sort_by-ext, dedup, dedup-IsNodup, Memᴰ-dedup, Memᴰ-of_dedup, IsNodup,
  IsNodup-perm,
}
use code_discovery_pyramid.Base.Text.{Text, text_eq, text_ord}
use code_discovery_pyramid.Claims.{Anchor, Claim}
use code_discovery_pyramid.Merge.{
  anchor_key, anchors_of, distinct_anchors, distinct_from, union_evidence, evidence_count,
}

module _ {ℓ κ} {A : Type ℓ} {K : Type κ} ⦃e : Eq K⦄ (key : A → K) where
  distinct_from_skip :
      (seen : List K) (x : A) (xs : List A)
      → contains (key x) seen ≡ true
      → distinct_from key seen (x ∷ xs) ≡ distinct_from key seen xs
  unfolding distinct_from
  distinct_from_skip seen x xs h = rw h

  distinct_from_keep :
      (seen : List K) (x : A) (xs : List A)
      → contains (key x) seen ≡ false
      → distinct_from key seen (x ∷ xs) ≡ x ∷ distinct_from key (key x ∷ seen) xs
  unfolding distinct_from
  distinct_from_keep seen x xs h = rw h

  abbrev distinct_keys : List K → List A → List K
  distinct_keys seen xs = map key (distinct_from key seen xs)

  -- Every key of the list is among the keys seen before or those kept.
  distinct_from-covers :
      (seen : List K) {k : K} (xs : List A)
      → Memᴰ k (map key xs)
      → (contains k seen ≡ true) ⊎ Memᴰ k (distinct_keys seen xs)
  distinct_from-covers seen [] m = elim m [ ]
  distinct_from-covers seen {k} (x ∷ xs) m = elim (Bool-cases (contains (key x) seen)) [
    | inl old ↦
        subst (λ l. (contains k seen ≡ true) ⊎ Memᴰ k (map key l))
          (sym (distinct_from_skip seen x xs old)) (skipped old (distinct_from-covers seen xs) m)
    | inr new ↦
        subst (λ l. (contains k seen ≡ true) ⊎ Memᴰ k (map key l))
          (sym (distinct_from_keep seen x xs new)) (kept (distinct_from-covers (key x ∷ seen) xs) m)
  ]
    where
      skipped :
          contains (key x) seen ≡ true
          → (Memᴰ k (map key xs) → (contains k seen ≡ true) ⊎ Memᴰ k (distinct_keys seen xs))
          → Memᴰ k (key x ∷ map key xs)
          → (contains k seen ≡ true) ⊎ Memᴰ k (distinct_keys seen xs)
      skipped old rest (Memᴰ.head p) = inl (subst (λ j. contains j seen ≡ true) (sym p) old)
      skipped old rest (Memᴰ.tail n) = rest n

      kept :
          (Memᴰ k (map key xs)
            → (contains k (key x ∷ seen) ≡ true) ⊎ Memᴰ k (distinct_keys (key x ∷ seen) xs))
          → Memᴰ k (key x ∷ map key xs)
          → (contains k seen ≡ true) ⊎ Memᴰ k (key x ∷ distinct_keys (key x ∷ seen) xs)
      kept rest (Memᴰ.head p) = inr (Memᴰ.head p)
      kept rest (Memᴰ.tail n) = elim (rest n) [
        | inl h ↦ elim (Bool-cases (k == key x)) [
          | inl same ↦ inr (Memᴰ.head (==→eq k (key x) same))
          | inr other ↦ inl (ground arith)
        ]
        | inr n' ↦ inr (Memᴰ.tail n')
      ]

  -- A kept key is one of the list's, and was not seen before.
  distinct_from_sound :
      (seen : List K) {k : K} (xs : List A)
      → Memᴰ k (distinct_keys seen xs)
      → Memᴰ k (map key xs) × (contains k seen ≡ false)
  unfolding distinct_from
  distinct_from_sound seen [] m = elim m [ ]
  distinct_from_sound seen {k} (x ∷ xs) m = elim (Bool-cases (contains (key x) seen)) [
    | inl old ↦
        let (n, h) =
          distinct_from_sound seen xs
            (subst (λ l. Memᴰ k (map key l)) (distinct_from_skip seen x xs old) m) in
        (Memᴰ.tail n, h)
    | inr new ↦
        kept new (distinct_from_sound (key x ∷ seen) xs)
          (subst (λ l. Memᴰ k (map key l)) (distinct_from_keep seen x xs new) m)
  ]
    where
      kept :
          contains (key x) seen ≡ false
          → (Memᴰ k (distinct_keys (key x ∷ seen) xs)
              → Memᴰ k (map key xs) × (contains k (key x ∷ seen) ≡ false))
          → Memᴰ k (key x ∷ distinct_keys (key x ∷ seen) xs)
          → Memᴰ k (key x ∷ map key xs) × (contains k seen ≡ false)
      kept new rest (Memᴰ.head p) = (Memᴰ.head p, subst (λ j. contains j seen ≡ false) (sym p) new)
      kept new rest (Memᴰ.tail n) = let (n', h) = rest n in (Memᴰ.tail n', ground arith)

  distinct_from-IsNodup : (seen : List K) (xs : List A) → IsNodup (distinct_keys seen xs)
  unfolding distinct_from
  distinct_from-IsNodup seen [] = tt
  distinct_from-IsNodup seen (x ∷ xs) = elim (Bool-cases (contains (key x) seen)) [
    | inl old ↦ rw (distinct_from_skip seen x xs old) (distinct_from-IsNodup seen xs)
    | inr new ↦ rw (distinct_from_keep seen x xs new) (
      (λ y m p.
          let h = (distinct_from_sound (key x ∷ seen) xs m).1 in
          ground (arith, (e.beq_iff y (key x)).1 (sym p))),
      distinct_from-IsNodup (key x ∷ seen) xs,
    )
  ]

evidence_keys-perm :
    (claims : List Claim)
    → Permᴰ
        (map anchor_key (union_evidence claims))
        (distinct_keys anchor_key [] (anchors_of claims))
unfolding union_evidence
evidence_keys-perm claims = map-perm anchor_key (
    sort_by-perm {K = Text × ℕ} (λ a. (a.file, a.line))
      (distinct_from anchor_key [] (anchors_of claims)))

-- What `union_evidence` makes of the evidence of the merged claims.
pub record UnitesEvidence (claims : List Claim) (united : List Anchor) : Type 0 where
  pub cites :
      (k : Text × Text)
      → Memᴰ k (map anchor_key united) ↔ Memᴰ k (map anchor_key (anchors_of claims))
  pub once : IsNodup (map anchor_key united)
  pub counted : length united ≡ evidence_count claims

-- The evidence of a merged claim: it cites a file and text exactly if one of the merged claims
-- does, each once, and it is as long as the evidence count by which conflicts are decided.
pub union_evidence-UnitesEvidence :
    (claims : List Claim) → UnitesEvidence claims (union_evidence claims)
unfolding evidence_count distinct_anchors
union_evidence-UnitesEvidence claims = record {
  cites = λ k. (
    λ m. (distinct_from_sound anchor_key [] anchors (Memᴰ-perm perm m)).0,
    λ m. Memᴰ-perm (Permᴰ.symm perm) (kept k m),
  );
  once = IsNodup-perm (Permᴰ.symm perm) (distinct_from-IsNodup anchor_key [] anchors);
  counted =
      sym (length-map anchor_key (union_evidence claims))
      ∙ length-perm perm
      ∙ sym (length-perm (sort_by-perm (λ k. k) firsts))
      ∙ ap length same_sorted
      ∙ length-perm (sort_by-perm (λ k. k) (dedup all));
}
  where
    anchors : List Anchor
    anchors = anchors_of claims

    all : List (Text × Text)
    all = map anchor_key anchors

    firsts : List (Text × Text)
    firsts = distinct_keys anchor_key [] anchors

    perm : Permᴰ (map anchor_key (union_evidence claims)) firsts
    perm = evidence_keys-perm claims

    kept : (k : Text × Text) → Memᴰ k all → Memᴰ k firsts
    kept k m = elim (distinct_from-covers anchor_key [] anchors m) [
      | inl h ↦ absurd (ground arith)
      | inr n ↦ n
    ]

    same_sorted : sort_by (λ k. k) firsts ≡ sort_by (λ k. k) (dedup all)
    same_sorted =
        sort_by-ext firsts (dedup all) (distinct_from-IsNodup anchor_key [] anchors)
          (dedup-IsNodup all)
          (λ k m. Memᴰ-dedup all (distinct_from_sound anchor_key [] anchors m).0)
          (λ k m. kept k (Memᴰ-of_dedup all m))
