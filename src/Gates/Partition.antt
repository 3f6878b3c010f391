-- ===== src/Gates/Partition.antt =====
-- cdp/gates.py: `gate_patch_unknowns` parts the unknowns of a patch.
use code_discovery_pyramid.Base.{
  ◌≡◌, refl, sym, ap, ◌∙◌, inl, inr, true, false, Option, none, some, List, [], ◌∷◌, Bool-cases,
  Option-cases, pair_eq, if◌then◌else◌, some_inj, ◌⊎◌,
}
use code_discovery_pyramid.Base.Dict.{Dict}
use code_discovery_pyramid.Base.Index.{none≢some}
use code_discovery_pyramid.Base.Text.{Text, text_eq}
use code_discovery_pyramid.Claims.{Unknown}
use code_discovery_pyramid.Extract.{IoEdge, Index}
use code_discovery_pyramid.Gates.{
  Rejection, names_nothing, already_answered, needs_invalid, exists_in_index, gate_subject_exists,
  answering_edge, answered_by, gate_negative_entailment, needs_known, gate_needs_valid,
  provenance_state, Rejected, gate_unknown, gate_patch_unknowns,
}

module _ (node : Text) (index : Index) (scope_nodes : List Text) (task_rows : Dict Text Text) where
  -- What an unknown that is kept has: its subject exists, no edge answers it, and it says what
  -- would resolve it.
  pub record Passes (u k : Unknown) : Type 0 where
    pub subject_exists :
        (s : Text) → u.subject ≡ some s → exists_in_index index scope_nodes s ≡ true
    pub unanswered : answering_edge index u.subject u.channel ≡ none
    pub needs_stated : needs_known u.needs ≡ true
    pub marked : k ≡ record u { provenance_state = some (provenance_state node task_rows) }

  -- Why an unknown is rejected.
  pub data Fails (u : Unknown) : Rejection → Type 0 where
    about_nothing :
        (s : Text)
        → u.subject ≡ some s
        → exists_in_index index scope_nodes s ≡ false
        → Fails u (names_nothing s)
    has_answer :
        (e : IoEdge)
        → answering_edge index u.subject u.channel ≡ some e
        → Fails u (already_answered e)
    no_needs : needs_known u.needs ≡ false → Fails u (needs_invalid u.needs)

  -- The unknowns, in their order, split into those kept and those rejected.
  pub data Parted : List Unknown → List Unknown → List Rejected → Type 0 where
    done : Parted [] [] []
    keep :
        {u k : Unknown} {us ks : List Unknown} {rs : List Rejected}
        → Passes u k
        → Parted us ks rs
        → Parted (u ∷ us) (k ∷ ks) rs
    reject :
        {u : Unknown} {r : Rejection} {us ks : List Unknown} {rs : List Rejected}
        → Fails u r
        → Parted us ks rs
        → Parted (u ∷ us) ks (record { node = node; unknown = u; reason = r } ∷ rs)

  subject_gate :
      (u : Unknown)
      → ((gate_subject_exists index scope_nodes u ≡ none)
          × ((s : Text) → u.subject ≡ some s → exists_in_index index scope_nodes s ≡ true))
        ⊎ ((r : Rejection) × (gate_subject_exists index scope_nodes u ≡ some r) × Fails u r)
  unfolding gate_subject_exists
  subject_gate u = by_subject u.subject refl
    where
      gate_at : Option Text → Option Rejection
      gate_at named = elim named [
        | none ↦ none
        | some s ↦ if exists_in_index index scope_nodes s then none else some (names_nothing s)
      ]

      by_subject :
          (named : Option Text)
          → u.subject ≡ named
          → ((gate_at u.subject ≡ none)
              × ((s : Text) → u.subject ≡ some s → exists_in_index index scope_nodes s ≡ true))
            ⊎ ((r : Rejection) × (gate_at u.subject ≡ some r) × Fails u r)
      by_subject none h = inl (ap gate_at h, λ s k. absurd (none≢some (sym h ∙ k)))
      by_subject (some s) h = elim (Bool-cases (exists_in_index index scope_nodes s)) [
        | inl yes_there ↦ inl (
          ap gate_at h ∙ rw yes_there,
          λ t k. ap (exists_in_index index scope_nodes) (some_inj (sym k ∙ h)) ∙ yes_there,
        )
        | inr missing ↦
            inr (names_nothing s, ap gate_at h ∙ rw missing, Fails.about_nothing s h missing)
      ]

  edge_gate :
      (u : Unknown)
      → ((gate_negative_entailment index u ≡ none)
          × (answering_edge index u.subject u.channel ≡ none))
        ⊎ ((r : Rejection) × (gate_negative_entailment index u ≡ some r) × Fails u r)
  unfolding gate_negative_entailment
  edge_gate u = elim (Option-cases (answering_edge index u.subject u.channel)) [
    | inl h ↦ inl (ap answered_by h, h)
    | inr (e, h) ↦ inr (already_answered e, ap answered_by h, Fails.has_answer e h)
  ]

  needs_gate :
      (u : Unknown)
      → ((gate_needs_valid u ≡ none) × (needs_known u.needs ≡ true))
        ⊎ ((r : Rejection) × (gate_needs_valid u ≡ some r) × Fails u r)
  unfolding gate_needs_valid
  needs_gate u = elim (Bool-cases (needs_known u.needs)) [
    | inl h ↦ inl (rw h, h)
    | inr h ↦ inr (needs_invalid u.needs, rw h, Fails.no_needs h)
  ]

  gate_unknown-cases :
      (u : Unknown)
      → ((gate_unknown node index scope_nodes task_rows u ≡ none)
          × Passes u (record u { provenance_state = some (provenance_state node task_rows) }))
        ⊎ ((r : Rejection) × (gate_unknown node index scope_nodes task_rows u ≡ some r) × Fails u r)
  unfolding gate_unknown
  gate_unknown-cases u = elim (subject_gate u) [
    | inr (r, h, f) ↦ inr (r, rw h, f)
    | inl (h, exists) ↦ elim (edge_gate u) [
      | inr (r, k, f) ↦ inr (r, rw (h, k), f)
      | inl (k, unanswered) ↦ elim (needs_gate u) [
        | inr (r, l, f) ↦ inr (r, rw (h, k, l), f)
        | inl (l, stated) ↦ inl (
          rw (h, k, l),
          record {
            subject_exists = exists;
            unanswered = unanswered;
            needs_stated = stated;
            marked = refl;
          },
        )
      ]
    ]
  ]

  -- The gates part the unknowns of a patch, in their order, into kept and rejected, none lost: a
  -- kept one names a subject that exists (or none), is answered by no I/O edge, says what would
  -- resolve it in the closed vocabulary, and is marked with the state of its scope; a rejected one
  -- carries the reason of a gate that it fails.
  pub gate_patch_unknowns-Parted :
      (us : List Unknown)
      → Parted us
          (gate_patch_unknowns node index scope_nodes task_rows us).0
          (gate_patch_unknowns node index scope_nodes task_rows us).1
  unfolding gate_patch_unknowns
  gate_patch_unknowns-Parted [] = Parted.done
  gate_patch_unknowns-Parted (u ∷ us) = elim (gate_unknown-cases u) [
    | inl (h, passes) ↦ rw h (Parted.keep passes (gate_patch_unknowns-Parted us))
    | inr (r, h, fails) ↦ rw h (Parted.reject fails (gate_patch_unknowns-Parted us))
  ]
