-- ===== src/State.antt =====
-- cdp/state.py: `fold`, which derives the whole state from the log of patches.
pub mod Status
pub mod Order
pub mod Sticky
pub mod Tally
pub mod Digest
use code_discovery_pyramid.Base.{
  ℕ, ◌+◌, Bool, true, false, not, Option, none, some, List, [], ◌∷◌, ◌++◌, map, ◌||◌, ◌&&◌, ◌==◌,
  ltb, nat_eq, if◌then◌else◌, is_empty, contains, filterb, length, ◌>>=◌, pair_eq, ◌≼◌, pair_ord,
}
use code_discovery_pyramid.Base.Sorting.{sort_by}
use code_discovery_pyramid.Base.Dict.{Dict, keys, lookup, lookup_or, or_else, insert, set_default}
use code_discovery_pyramid.Base.Text.{Text, text, text_eq, text_ord}
use code_discovery_pyramid.Claims.{
  Anchor, Claim, Unknown, plain_unknown, Patch, PatchStatus, pending, failed, invalid, complete,
}
use code_discovery_pyramid.Merge.Operator.{
  Position, Conflict, NearMiss, Stats, Merged, merge_claims,
}
use code_discovery_pyramid.Verify.{Mode, Sources, verify_patch}
use code_discovery_pyramid.Extract.{Extraction, Index, build_extraction_index}
use code_discovery_pyramid.Entail.{entail_claims, is_contradicted_claim, Summary, summarize}
use code_discovery_pyramid.Gates.{grandfather_needs, discharge_unknowns, cluster_unknowns}

-- STATUS_RANK
abbrev pub rank : PatchStatus → ℕ
rank pending = 1
rank failed = 2
rank invalid = 3
rank complete = 4

abbrev pub is_complete : PatchStatus → Bool
is_complete complete = true
is_complete _ = false

abbrev pub status_text : PatchStatus → Text
status_text pending = text "pending"
status_text failed = text "failed"
status_text invalid = text "invalid"
status_text complete = text "complete"

-- One round of the loop over the log: a node's status is the best of its attempts.
unfoldable pub note_status : Dict Text PatchStatus → Patch → Dict Text PatchStatus
note_status d p =
    if ltb (rank (lookup_or pending p.node d)) (rank p.status)
    then insert p.node p.status d
    else set_default p.node p.status d

unfoldable pub note_statuses : Dict Text PatchStatus → List Patch → Dict Text PatchStatus
note_statuses d [] = d
note_statuses d (p ∷ ps) = note_statuses (note_status d p) ps

abbrev pub node_status : List Patch → Dict Text PatchStatus
node_status ps = note_statuses [] ps

-- The last error of a node wins.
abbrev pub note_error : Option Text → Text → Dict Text Text → Dict Text Text
note_error none node d = d
note_error (some error) node d = if is_empty error then d else insert node error d

unfoldable pub note_errors : Dict Text Text → List Patch → Dict Text Text
note_errors d [] = d
note_errors d (p ∷ ps) = note_errors (note_error p.error p.node d) ps

-- `int(patch.get("generation") or 1)`
abbrev pub generation_of : Patch → ℕ
generation_of p = elim p.generation [ none ↦ 1 | some g ↦ if g == 0 then 1 else g ]

abbrev pub complete_patches : List Patch → List Patch
complete_patches ps = filterb (λ p. is_complete p.status) ps

module _ (stable_hash : Patch → Text) where
  abbrev pub supersedes : Patch → Patch → Bool
  supersedes p current =
      ltb (generation_of current) (generation_of p)
      || (generation_of p == generation_of current) && not (stable_hash p ≼ stable_hash current)

  abbrev pub put_complete : Option Patch → Patch → Dict Text Patch → Dict Text Patch
  put_complete none p d = insert p.node p d
  put_complete (some current) p d = if supersedes p current then insert p.node p d else d

  -- The loop over the complete patches: of a node, the highest generation.
  unfoldable pub note_complete : Dict Text Patch → List Patch → Dict Text Patch
  note_complete d [] = d
  note_complete d (p ∷ ps) = note_complete (put_complete (lookup p.node d) p d) ps

  abbrev pub best_complete : List Patch → Dict Text Patch
  best_complete ps = note_complete [] (complete_patches ps)

-- `row.setdefault("source_node", node)`
abbrev pub from_node : Text → Claim → Claim
from_node node c = record c { source_node = some (or_else node c.source_node) }

abbrev pub asked_by : Text → Unknown → Unknown
asked_by node u = record u { source_node = some (or_else node u.source_node) }

abbrev pub entry_claims : Text × Patch → List Claim
entry_claims (node, p) = map (from_node node) p.claims

unfoldable pub claims_of : Dict Text Patch → List Claim
claims_of [] = []
claims_of (e ∷ d) = entry_claims e ++ claims_of d

-- The unknowns of every complete patch, whatever its generation.
unfoldable pub unknowns_of : List Patch → List Unknown
unknowns_of [] = []
unknowns_of (p ∷ ps) = map (asked_by p.node) p.unknowns ++ unknowns_of ps

unfoldable pub superseded : Dict Text PatchStatus → List Text
superseded d = keys (filterb (λ p. not (is_complete p.1)) d)

abbrev pub has_source_in : List Text → Claim → Bool
has_source_in nodes c = elim c.source_node [ none ↦ false | some n ↦ contains n nodes ]

-- The claims that the log supports: those of the best complete patch of each node.
unfoldable pub live_claims : (Patch → Text) → List Patch → List Claim
live_claims stable_hash ps =
    filterb (λ c. not (has_source_in (superseded (node_status ps)) c))
      (claims_of (best_complete stable_hash ps))

abbrev pub reason_of_gap : PatchStatus → Option Text → Text
reason_of_gap status none = text "Node status is '" ++ (status_text status ++ text "'.")
reason_of_gap status (some error) =
    text "Node status is '" ++ (status_text status ++ (text "': " ++ (error ++ text ".")))

-- The unknown that states that a scope was not examined.
unfoldable pub gap : Dict Text PatchStatus → Dict Text Text → Text → Unknown
gap statuses errors node =
    let unknown =
      plain_unknown
        (text "What does " ++ (node ++ text " contain? Its scope was not successfully examined."))
        (reason_of_gap (lookup_or pending node statuses) (lookup node errors)) in
    record unknown { source_node = some node; needs = some (text "needs_human") }

unfoldable pub gaps : Dict Text PatchStatus → Dict Text Text → List Unknown
gaps statuses errors = map (gap statuses errors) (sort_by (λ n. n) (superseded statuses))

abbrev pub unknown_sort_key : Unknown → Text × Text
unknown_sort_key u = (or_else [] u.source_node, u.question)

abbrev pub unknown_key : Unknown → Text × Text
unknown_key u = (u.question, or_else (text "None") u.source_node)

-- The loop of `_dedupe_unknowns` over the sorted rows, with the keys seen.
unfoldable pub dedupe_from : List (Text × Text) → List Unknown → List Unknown
dedupe_from seen [] = []
dedupe_from seen (u ∷ us) =
    if contains (unknown_key u) seen
    then dedupe_from seen us
    else u ∷ dedupe_from (unknown_key u ∷ seen) us

unfoldable pub dedupe_unknowns : List Unknown → List Unknown
dedupe_unknowns us = dedupe_from [] (sort_by unknown_sort_key us)

pub record Scope : Type 0 where
  pub node : Text
  pub file_count : ℕ

-- The fraction, which is a float, is not computed.
pub record Coverage : Type 0 where
  pub files_complete : ℕ
  pub files_total : ℕ
  pub incomplete_nodes : List Text

abbrev pub no_coverage : Coverage
no_coverage = record { files_complete = 0; files_total = 0; incomplete_nodes = [] }

abbrev pub has_status_complete : Dict Text PatchStatus → Text → Bool
has_status_complete statuses node = elim (lookup node statuses) [
  | none ↦ false
  | some s ↦ is_complete s
]

abbrev pub cover : Bool → Scope → Coverage → Coverage
cover true s c = record c {
  files_complete = c.files_complete + s.file_count;
  files_total = c.files_total + s.file_count;
}
cover false s c = record c {
  files_total = c.files_total + s.file_count;
  incomplete_nodes = c.incomplete_nodes ++ s.node ∷ [];
}

unfoldable pub cover_all : Dict Text PatchStatus → Coverage → List Scope → Coverage
cover_all statuses c [] = c
cover_all statuses c (s ∷ ss) =
    cover_all statuses (cover (has_status_complete statuses s.node) s c) ss

-- `_coverage`; no partition counts as one without scopes.
unfoldable pub coverage : Dict Text PatchStatus → List Scope → Coverage
coverage statuses scopes =
    let c = cover_all statuses no_coverage scopes in
    record c { incomplete_nodes = sort_by (λ n. n) c.incomplete_nodes }

-- A patch of a run that was rolled back contributes nothing.
unfoldable pub without_runs : List Text → List Patch → List Patch
without_runs excluded ps = filterb (λ p. not (contains p.run_id excluded)) ps

pub record State : Type 0 where
  pub claims : List Claim
  pub unknowns : List Unknown
  pub conflicts : List Conflict
  pub near_misses : List NearMiss
  pub merge_stats : Stats
  pub nodes : Dict Text PatchStatus
  pub node_errors : Dict Text Text
  pub coverage : Coverage
  pub entailment : Summary
  pub contradictions : List Claim
  pub excluded_run_ids : List Text
  pub patch_count : ℕ

-- The repository that `fold` verifies against, when one is given.
pub record Repo : Type 0 where
  pub sources : Sources
  pub mode : Mode
  pub head_sha : Option Text

unfoldable pub verify_log : Option Repo → List Patch → List Patch
verify_log none ps = ps
verify_log (some r) ps = map (λ p. (verify_patch r.sources r.mode r.head_sha p).0) ps

module _ (evidence_hash : List Anchor → Text) (stable_hash : Patch → Text)
    (cluster_hash : Text × Text → Text) (symbols : Dict Text (List Text)) (scopes : List Scope)
    (extraction : Extraction) where
  unfoldable pub open_questions : List Patch → List Claim → List Unknown
  open_questions ps claims =
      let statuses = node_status ps in
      cluster_unknowns cluster_hash (
        discharge_unknowns claims (build_extraction_index extraction) (map (λ s. s.node) scopes) (
          grandfather_needs (
            dedupe_unknowns
              (unknowns_of (complete_patches ps) ++ gaps statuses (note_errors [] ps)))))

  unfoldable pub assemble : List Text → List Patch → Merged → State
  assemble excluded ps merged =
      let claims = entail_claims extraction merged.claims in
      record {
        claims = claims;
        unknowns = open_questions ps claims;
        conflicts = merged.conflicts;
        near_misses = merged.near_misses;
        merge_stats = merged.stats;
        nodes = sort_by (λ p. p.0) (node_status ps);
        node_errors = sort_by (λ p. p.0) (note_errors [] ps);
        coverage = coverage (node_status ps) scopes;
        entailment = summarize claims;
        contradictions = filterb is_contradicted_claim claims;
        excluded_run_ids = sort_by (λ r. r) excluded;
        patch_count = length ps;
      }

  -- `none` is the TypeError of `merge_claims`.
  unfoldable pub fold : Option Repo → List Text → List Patch → Option State
  fold repo excluded log = do
    let ps = verify_log repo (without_runs excluded log)
    merged ← merge_claims evidence_hash symbols (live_claims stable_hash ps)
    some (assemble excluded ps merged)
