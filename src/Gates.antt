-- ===== src/Gates.antt =====
-- cdp/gates.py: the gates that an unknown of a new patch passes, and what later folds make of it.
pub mod Ratchet
pub mod Partition
use code_discovery_pyramid.Base.{
  ℕ, Bool, true, false, not, Option, none, some, List, [], ◌∷◌, ◌++◌, map, ◌||◌, ◌&&◌, ◌==◌,
  if◌then◌else◌, is_empty, contains, length, ltb, option_eq, pair_eq,
}
use code_discovery_pyramid.Base.Dict.{Dict, lookup, or_else, group_into, lookup_list}
use code_discovery_pyramid.Base.Index.{first_by}
use code_discovery_pyramid.Base.Text.{Text, text, text_eq, normalise_ws}
use code_discovery_pyramid.Claims.{
  Claim, Verdict, contradicted, AuthorKind, llm, Unknown, UnknownStatus, still_open, resolved, moot,
  ResolvedBy,
}
use code_discovery_pyramid.Extract.{IoEdge, Index}

abbrev pub needs_values : List Text
needs_values =
    text "needs_runtime"
    ∷ text "needs_external_doc"
    ∷ text "needs_human"
    ∷ text "needs_wider_scope"
    ∷ text "needs_other_repo"
    ∷ []

-- Why a gate rejects an unknown; the values that the message prints.
pub data Rejection : Type 0 where
  names_nothing : Text → Rejection
  already_answered : IoEdge → Rejection
  needs_invalid : Option Text → Rejection

module _ (index : Index) (scope_nodes : List Text) where
  unfoldable pub exists_in_index : Text → Bool
  exists_in_index subject =
      contains subject index.def_fqns
      || contains subject index.edge_subjects
      || contains subject scope_nodes

  unfoldable pub gate_subject_exists : Unknown → Option Rejection
  gate_subject_exists u = elim u.subject [
    | none ↦ none
    | some subject ↦ if exists_in_index subject then none else some (names_nothing subject)
  ]

-- The edge that answers a question about a subject and a channel, both named.
unfoldable pub answering_edge : Index → Option Text → Option Text → Option IoEdge
answering_edge index none channel = none
answering_edge index (some subject) none = none
answering_edge index (some subject) (some channel) =
    if is_empty subject || is_empty channel
    then none
    else lookup (subject, channel) index.edges_by_key

abbrev pub answered_by : Option IoEdge → Option Rejection
answered_by none = none
answered_by (some edge) = some (already_answered edge)

unfoldable pub gate_negative_entailment : Index → Unknown → Option Rejection
gate_negative_entailment index u = answered_by (answering_edge index u.subject u.channel)

abbrev pub needs_known : Option Text → Bool
needs_known none = false
needs_known (some needs) = contains needs needs_values

unfoldable pub gate_needs_valid : Unknown → Option Rejection
gate_needs_valid u = if needs_known u.needs then none else some (needs_invalid u.needs)

-- The state of a task row: what the store says of the dispatch of a scope.
unfoldable pub provenance_state : Text → Dict Text Text → Text
provenance_state node task_rows = elim (lookup node task_rows) [
  | none ↦ text "unexamined"
  | some state ↦
      if state == text "folded"
      then text "unknown"
      else (if state == text "abandoned" then text "abandoned" else text "unexamined")
]

pub record Rejected : Type 0 where
  pub node : Text
  pub unknown : Unknown
  pub reason : Rejection

abbrev pub first_of : Option Rejection → Option Rejection → Option Rejection
first_of none second = second
first_of (some r) second = some r

module _ (node : Text) (index : Index) (scope_nodes : List Text) (task_rows : Dict Text Text) where
  -- The reason of the first gate that rejects.
  unfoldable pub gate_unknown : Unknown → Option Rejection
  gate_unknown u =
      first_of (gate_subject_exists index scope_nodes u)
        (first_of (gate_negative_entailment index u) (gate_needs_valid u))

  abbrev pub sort_out :
      Option Rejection → Unknown → List Unknown × List Rejected → List Unknown × List Rejected
  sort_out none u (kept, rejected) =
      (record u { provenance_state = some (provenance_state node task_rows) } ∷ kept, rejected)
  sort_out (some r) u (kept, rejected) =
      (kept, record { node = node; unknown = u; reason = r } ∷ rejected)

  unfoldable pub gate_patch_unknowns : List Unknown → List Unknown × List Rejected
  gate_patch_unknowns [] = ([], [])
  gate_patch_unknowns (u ∷ us) = sort_out (gate_unknown u) u (gate_patch_unknowns us)

abbrev pub grandfather : Unknown → Unknown
grandfather u =
    if needs_known u.needs
    then u
    else record u { needs = some (text "needs_human"); needs_migrated = true }

unfoldable pub grandfather_needs : List Unknown → List Unknown
grandfather_needs us = map grandfather us

abbrev pub answer_key : Claim → Text × Option Text
answer_key c = (c.subject, c.channel)

abbrev pub is_contradicted : Option Verdict → Bool
is_contradicted (some contradicted) = true
is_contradicted _ = false

-- `row.setdefault("status", OPEN)`
abbrev pub set_open : Unknown → Unknown
set_open u = record u { status = some (or_else still_open u.status) }

-- `a or b or "?"`
abbrev pub truthy : Option Text → Text → Text
truthy none other = other
truthy (some t) other = if is_empty t then other else t

abbrev pub resolved_by_claim : Claim → ResolvedBy
resolved_by_claim c = record {
  claim_id = c.id;
  author_kind = or_else llm c.author_kind;
  at_snapshot = truthy c.anchor_verified_at (truthy c.claim_reviewed_at (text "?"));
}

abbrev pub discharge_by : Option Claim → Unknown → Unknown
discharge_by none u = set_open u
discharge_by (some c) u =
    if is_contradicted c.verdict
    then set_open u
    else record u { status = some resolved; resolved_by = some (resolved_by_claim c) }

module _ (claims : List Claim) (index : Index) (scope_nodes : List Text) where
  -- An unknown that has a subject.
  unfoldable pub discharge_subject : Text → Unknown → Unknown
  discharge_subject subject u =
      if exists_in_index index scope_nodes subject
      then discharge_by (lookup (subject, u.channel) (first_by answer_key [] claims)) u
      else record u { status = some moot }

  abbrev pub discharge_at : Option Text → Unknown → Unknown
  discharge_at none u = set_open u
  discharge_at (some subject) u =
      if is_empty subject then set_open u else discharge_subject subject u

  unfoldable pub discharge_unknown : Unknown → Unknown
  discharge_unknown u = discharge_at u.subject u

  unfoldable pub discharge_unknowns : List Unknown → List Unknown
  discharge_unknowns us = map discharge_unknown us

module _ (stable_hash : Text × Text → Text) where
  abbrev pub cluster_key : Unknown → Text × Text
  cluster_key u = (normalise_ws u.question, normalise_ws u.why_unresolved)

  abbrev pub annotate : Dict (Text × Text) (List Unknown) → Unknown → Unknown
  annotate groups u =
      let size = length (lookup_list (cluster_key u) groups) in
      if ltb size 2
      then u
      else record u { cluster_id = some (stable_hash (cluster_key u)); cluster_size = some size }

  -- The rows are marked in place, so they keep their order.
  unfoldable pub cluster_unknowns : List Unknown → List Unknown
  cluster_unknowns us = map (annotate (group_into cluster_key [] us)) us
