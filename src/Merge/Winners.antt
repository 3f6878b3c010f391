-- ===== src/Merge/Winners.antt =====
-- cdp/merge.py: which signature `_resolve` lets win, and when it lets none.
use mathlib.Core.List.{Memᴰ}
use code_discovery_pyramid.Base.{
  ℕ, ◌≤◌, ◌<◌, ◌≡◌, ◌≢◌, refl, sym, ap, subst, ◌⊎◌, inl, inr, Bool, true, false, none, some, List,
  [], ◌∷◌, ◌++◌, map, nat_beq, nat_beq_iff, Bool-cases, filterb, anyb, contains, Memᴰ-filterb,
  Memᴰ-of_filterb, All, arith,
}
use code_discovery_pyramid.Base.Dict.{Dict, keys}
use code_discovery_pyramid.Base.Text.{Text, text_eq}
use code_discovery_pyramid.Claims.{Claim}
use code_discovery_pyramid.Merge.{
  Signature, Reason, ownership, evidence, won, sole, maximum, evidence_count, leading_signatures,
  resolve_by_evidence, owning_signatures, owning_modules, resolve, claim_modules,
}

abbrev Group : Type 0
Group = Signature × List Claim

maximum_bound :
    (f : Group → ℕ) {g : Group} {groups : List Group} → Memᴰ g groups → f g ≤ maximum (map f groups)
maximum_bound f {g} {groups = h ∷ hs} (Memᴰ.head e) =
    subst (λ k. f k ≤ maximum (map f (h ∷ hs))) (sym e) (omega arith)
maximum_bound f {groups = h ∷ hs} (Memᴰ.tail m) = omega (arith, maximum_bound f m)
maximum_bound f {groups = []} m = elim m [ ]

-- A list of pairs whose keys are one key.
sole-keys :
    (l : List Group) (s : Signature) → sole (keys l) ≡ some s → (c : List Claim) × (l ≡ (s, c) ∷ [])
sole-keys [] s h = cc
sole-keys ((t, c) ∷ []) s h = (c, ground arith)
sole-keys (g ∷ h ∷ l) s p = cc

-- A group that wins by evidence is one of the groups and cites strictly more distinct anchors than
-- every group of another signature.
pub record WinsByEvidence (groups : List Group) (s : Signature) : Type 0 where
  pub claims : List Claim
  pub present : Memᴰ (s, claims) groups
  pub most :
      (t : Signature) (others : List Claim)
      → Memᴰ (t, others) groups
      → (t ≡ s) ⊎ (evidence_count others < evidence_count claims)

leading_signatures-WinsByEvidence :
    (groups : List Group) (s : Signature)
    → sole (leading_signatures groups) ≡ some s
    → WinsByEvidence groups s
unfolding leading_signatures
leading_signatures-WinsByEvidence groups s h = record {
  claims = c;
  present = (Memᴰ-of_filterb is_best groups here).0;
  most = λ t others m. elim (Bool-cases (is_best (t, others))) [
    | inl best ↦ inl (alone (subst (Memᴰ (t, others)) leaders (Memᴰ-filterb is_best m best)))
    | inr less ↦ inr (Below (t, others) m less)
  ];
}
  where
    is_best : Group → Bool
    is_best g = nat_beq (evidence_count g.1) (maximum (map (λ k. evidence_count k.1) groups))

    c : List Claim
    c = (sole-keys (filterb is_best groups) s h).0

    leaders : filterb is_best groups ≡ (s, c) ∷ []
    leaders = (sole-keys (filterb is_best groups) s h).1

    here : Memᴰ (s, c) (filterb is_best groups)
    here = subst (Memᴰ (s, c)) (sym leaders) (Memᴰ.head refl)

    alone : {g : Group} → Memᴰ g ((s, c) ∷ []) → g.0 ≡ s
    alone (Memᴰ.head e) = ap (λ k. k.0) e
    alone (Memᴰ.tail m) = elim m [ ]

    Below : (g : Group) → Memᴰ g groups → is_best g ≡ false → evidence_count g.1 < evidence_count c
    Below g m less =
        let top = (nat_beq_iff _ _).0 (Memᴰ-of_filterb is_best groups here).1 in
        ground (arith, maximum_bound (λ k. evidence_count k.1) m)

resolve_by_evidence-won :
    (groups : List Group) (s : Signature) (r : Reason)
    → resolve_by_evidence groups ≡ won s r
    → (r ≡ evidence) × (sole (leading_signatures groups) ≡ some s)
unfolding resolve_by_evidence
resolve_by_evidence-won groups s r h = ground arith

-- Whether a claim of the group comes from a module that defines the subject.
abbrev pub owns : List Text → Group → Bool
owns owners g = anyb (λ m. contains m owners) (claim_modules g.1)

-- A conflict that evidence decides has a winner with strictly more distinct anchors than any other
-- side, and it was not decided by ownership: either the subject has no owner, or not exactly one
-- side comes from an owner.
pub resolve-WinsByEvidence :
    (subject : Text) (groups : List Group) (symbols : Dict Text (List Text)) (s : Signature)
    → resolve subject groups symbols ≡ won s evidence
    → WinsByEvidence groups s
      × ((owning_modules subject symbols ≡ [])
          ⊎ (sole (owning_signatures (owning_modules subject symbols) groups) ≡ none))
unfolding resolve
resolve-WinsByEvidence subject groups symbols s h = (
  leading_signatures-WinsByEvidence groups s
      (ground (arith, resolve_by_evidence-won groups s evidence)),
  ground (arith, resolve_by_evidence-won groups s evidence),
)

filterb_none : (p : Group → Bool) (l : List Group) → All (λ g. p g ≡ false) l → filterb p l ≡ []
filterb_none p [] h = refl
filterb_none p (g ∷ l) h = rw h.0 (filterb_none p l h.1)

filterb_one :
    (p : Group → Bool) (before after : List Group) (g : Group)
    → All (λ h. p h ≡ false) before
    → All (λ h. p h ≡ false) after
    → p g ≡ true
    → filterb p (before ++ g ∷ after) ≡ g ∷ []
filterb_one p [] after g h k q = rw q (ap (◌∷◌ g) (filterb_none p after k))
filterb_one p (b ∷ before) after g h k q = rw h.0 (filterb_one p before after g h.1 k q)

-- Ownership comes before evidence: where exactly one side of a conflict has a claim from a module
-- that defines the subject, that side wins, however many anchors the other sides cite.
pub resolve-owner :
    (subject : Text) (symbols : Dict Text (List Text)) (before after : List Group) (g : Group)
    → owning_modules subject symbols ≢ []
    → owns (owning_modules subject symbols) g ≡ true
    → All (λ h. owns (owning_modules subject symbols) h ≡ false) before
    → All (λ h. owns (owning_modules subject symbols) h ≡ false) after
    → resolve subject (before ++ g ∷ after) symbols ≡ won g.0 ownership
unfolding resolve owning_signatures
resolve-owner subject symbols before after g some_owner h none_before none_after = ground (
  arith,
  filterb_one (owns (owning_modules subject symbols)) before after g none_before none_after h,
)

sole-Memᴰ : {s : Signature} (l : List Signature) → sole l ≡ some s → Memᴰ s l
sole-Memᴰ [] h = absurd (ground arith)
sole-Memᴰ (x ∷ []) h = Memᴰ.head (ground arith)
sole-Memᴰ (x ∷ y ∷ l) h = absurd (ground arith)

Memᴰ-keys_filterb :
    (p : Group → Bool) {s : Signature} (l : List Group)
    → Memᴰ s (keys (filterb p l))
    → Memᴰ s (keys l)
Memᴰ-keys_filterb p [] m = m
Memᴰ-keys_filterb p {s} (g ∷ l) m = elim (Bool-cases (p g)) [
  | inl t ↦ kept (Memᴰ-keys_filterb p l) (subst (λ k. Memᴰ s (keys k)) (yes_case t) m)
  | inr f ↦ Memᴰ.tail (Memᴰ-keys_filterb p l (subst (λ k. Memᴰ s (keys k)) (no_case f) m))
]
  where
    yes_case : p g ≡ true → filterb p (g ∷ l) ≡ g ∷ filterb p l
    yes_case t = rw t

    no_case : p g ≡ false → filterb p (g ∷ l) ≡ filterb p l
    no_case t = rw t

    kept :
        (Memᴰ s (keys (filterb p l)) → Memᴰ s (keys l))
        → Memᴰ s (g.0 ∷ keys (filterb p l))
        → Memᴰ s (g.0 ∷ keys l)
    kept rest (Memᴰ.head e) = Memᴰ.head e
    kept rest (Memᴰ.tail k) = Memᴰ.tail (rest k)

resolve_cases :
    (subject : Text) (groups : List Group) (symbols : Dict Text (List Text)) (s : Signature)
    (r : Reason)
    → resolve subject groups symbols ≡ won s r
    → (sole (owning_signatures (owning_modules subject symbols) groups) ≡ some s)
      ⊎ (sole (leading_signatures groups) ≡ some s)
unfolding resolve resolve_by_evidence
resolve_cases subject groups symbols s r h = ground arith

-- A winner is one of the signatures in conflict: none is invented.
pub resolve-present :
    (subject : Text) (groups : List Group) (symbols : Dict Text (List Text)) (s : Signature)
    (r : Reason)
    → resolve subject groups symbols ≡ won s r
    → Memᴰ s (keys groups)
unfolding owning_signatures leading_signatures
resolve-present subject groups symbols s r h = elim (resolve_cases subject groups symbols s r h) [
  | inl p ↦ Memᴰ-keys_filterb _ groups (sole-Memᴰ _ p)
  | inr p ↦ Memᴰ-keys_filterb _ groups (sole-Memᴰ _ p)
]
