-- ===== src/Examples/Folding.antt =====
-- The fold of a log with a patch of one node and a failed attempt at another.
use mathlib.Core.List.{Memᴰ, Permᴰ}
use code_discovery_pyramid.Base.{
  ℕ, Bool, true, false, Option, none, some, List, [], ◌∷◌, ◌++◌, ◌≡◌, ◌≢◌, refl, sym, ap, ◌∙◌,
  pair_ord, ==_false→ne, ◌>>=◌, arith, subst,
}
use code_discovery_pyramid.Base.Dict.{Dict, or_else}
use code_discovery_pyramid.Base.Sorting.{KeyDistinct}
use code_discovery_pyramid.Base.Index.{Pointwise}
use code_discovery_pyramid.Base.Text.{Text, text, text_eq, text_ord}
use code_discovery_pyramid.Claims.{Claim, Patch, PatchStatus, complete, resolved}
use code_discovery_pyramid.Merge.{claim_sort_key}
use code_discovery_pyramid.Merge.Operator.{no_stats}
use code_discovery_pyramid.Extract.{Extraction, Index, build_extraction_index}
use code_discovery_pyramid.Entail.{entail_claims, Summary, no_counts}
use code_discovery_pyramid.Entail.Verdicts.{Judged, entail_claims-Judged}
use code_discovery_pyramid.Gates.{
  gate_patch_unknowns, discharge_unknown, discharge_unknowns, exists_in_index, is_contradicted,
}
use code_discovery_pyramid.Gates.Partition.{Parted, gate_patch_unknowns-Parted}
use code_discovery_pyramid.Gates.Ratchet.{
  Answers, Outcome, discharge_unknowns-Outcome, discharge_unknown-resolved,
}
use code_discovery_pyramid.State.{
  is_complete, live_claims, Scope, State, fold, verify_log, without_runs, coverage, no_coverage,
  node_status, unknown_key, asked_by,
}
use code_discovery_pyramid.State.Order.{HashDistinct, view, fold-perm}
use code_discovery_pyramid.State.Status.{IsBest, node_status-IsBest}
use code_discovery_pyramid.State.Sticky.{Asks, fold-Asks, fold-states_gap, live_claims-silent}
use code_discovery_pyramid.State.Tally.{Covers, coverage-Covers}
use code_discovery_pyramid.State.Digest.{fold_hash, permutations, permutations-fold_hash}
use code_discovery_pyramid.Examples.Samples.{
  public_claim, private_claim, open_question, orders_patch, failed_patch, patch_of, digest,
  two_distinct,
}

abbrev log : List Patch
log = orders_patch ∷ failed_patch ∷ []

abbrev scopes : List Scope
scopes =
    (record { node = text "orders"; file_count = 3 })
    ∷ (record { node = text "carts"; file_count = 2 })
    ∷ []

abbrev extraction : Extraction
extraction = record {
  io_edges = [];
  defines = record { fqn = text "shop.Order"; visibility = some (text "private") } ∷ [];
}

abbrev patch_digest : Patch → Text
patch_digest p = p.node

abbrev cluster_digest : Text × Text → Text
cluster_digest k = k.0

digests_differ : patch_digest orders_patch ≢ patch_digest failed_patch
digests_differ = ==_false→ne _ _ refl

log-HashDistinct : HashDistinct patch_digest (verify_log none (without_runs [] log))
unfolding code_discovery_pyramid.Base.Dict.lookup code_discovery_pyramid.Base.Dict.insert
    code_discovery_pyramid.Base.Dict.push code_discovery_pyramid.Base.Dict.group_into
    code_discovery_pyramid.State.note_status code_discovery_pyramid.State.note_statuses
    code_discovery_pyramid.State.note_errors code_discovery_pyramid.State.note_complete
    code_discovery_pyramid.State.claims_of code_discovery_pyramid.State.unknowns_of
    code_discovery_pyramid.State.superseded code_discovery_pyramid.State.live_claims
    code_discovery_pyramid.State.gap code_discovery_pyramid.State.gaps
    code_discovery_pyramid.State.dedupe_from code_discovery_pyramid.State.dedupe_unknowns
    code_discovery_pyramid.State.cover_all code_discovery_pyramid.State.coverage
    code_discovery_pyramid.State.without_runs code_discovery_pyramid.State.verify_log
    code_discovery_pyramid.State.open_questions code_discovery_pyramid.State.assemble
    code_discovery_pyramid.State.fold
log-HashDistinct p q = two_distinct patch_digest orders_patch failed_patch digests_differ p q

log-KeyDistinct :
    KeyDistinct
      (claim_sort_key digest)
      (live_claims patch_digest (verify_log none (without_runs [] log)))
unfolding code_discovery_pyramid.Base.Dict.lookup code_discovery_pyramid.Base.Dict.insert
    code_discovery_pyramid.Base.Dict.push code_discovery_pyramid.Base.Dict.group_into
    code_discovery_pyramid.State.note_status code_discovery_pyramid.State.note_statuses
    code_discovery_pyramid.State.note_errors code_discovery_pyramid.State.note_complete
    code_discovery_pyramid.State.claims_of code_discovery_pyramid.State.unknowns_of
    code_discovery_pyramid.State.superseded code_discovery_pyramid.State.live_claims
    code_discovery_pyramid.State.gap code_discovery_pyramid.State.gaps
    code_discovery_pyramid.State.dedupe_from code_discovery_pyramid.State.dedupe_unknowns
    code_discovery_pyramid.State.cover_all code_discovery_pyramid.State.coverage
    code_discovery_pyramid.State.without_runs code_discovery_pyramid.State.verify_log
    code_discovery_pyramid.State.open_questions code_discovery_pyramid.State.assemble
    code_discovery_pyramid.State.fold
log-KeyDistinct x y (Memᴰ.head p) (Memᴰ.head q) h = p ∙ sym q
log-KeyDistinct x y (Memᴰ.head p) (Memᴰ.tail m) h = elim m [ ]
log-KeyDistinct x y (Memᴰ.tail n) m h = elim n [ ]

fold-perm_example :
    (fold digest patch_digest cluster_digest [] scopes extraction none [] log >>= λ s.
    some (view s))
    ≡ (fold digest patch_digest cluster_digest [] scopes extraction none []
          (failed_patch ∷ orders_patch ∷ [])
        >>= λ s. some (view s))
fold-perm_example =
    fold-perm digest patch_digest cluster_digest [] scopes extraction none [] (Permᴰ.swap refl refl)
      log-HashDistinct log-KeyDistinct

abbrev gap_log : List Patch
gap_log = failed_patch ∷ []

in_gap_log : Memᴰ failed_patch (verify_log none (without_runs [] gap_log))
unfolding code_discovery_pyramid.Base.Dict.lookup code_discovery_pyramid.Base.Dict.insert
    code_discovery_pyramid.Base.Dict.push code_discovery_pyramid.Base.Dict.group_into
    code_discovery_pyramid.State.note_status code_discovery_pyramid.State.note_statuses
    code_discovery_pyramid.State.note_errors code_discovery_pyramid.State.note_complete
    code_discovery_pyramid.State.claims_of code_discovery_pyramid.State.unknowns_of
    code_discovery_pyramid.State.superseded code_discovery_pyramid.State.live_claims
    code_discovery_pyramid.State.gap code_discovery_pyramid.State.gaps
    code_discovery_pyramid.State.dedupe_from code_discovery_pyramid.State.dedupe_unknowns
    code_discovery_pyramid.State.cover_all code_discovery_pyramid.State.coverage
    code_discovery_pyramid.State.without_runs code_discovery_pyramid.State.verify_log
    code_discovery_pyramid.State.open_questions code_discovery_pyramid.State.assemble
    code_discovery_pyramid.State.fold
in_gap_log = Memᴰ.head refl

gap_incomplete :
    (q : Patch)
    → Memᴰ q (verify_log none (without_runs [] gap_log))
    → q.node ≡ failed_patch.node
    → is_complete q.status ≡ false
unfolding code_discovery_pyramid.Base.Dict.lookup code_discovery_pyramid.Base.Dict.insert
    code_discovery_pyramid.Base.Dict.push code_discovery_pyramid.Base.Dict.group_into
    code_discovery_pyramid.State.note_status code_discovery_pyramid.State.note_statuses
    code_discovery_pyramid.State.note_errors code_discovery_pyramid.State.note_complete
    code_discovery_pyramid.State.claims_of code_discovery_pyramid.State.unknowns_of
    code_discovery_pyramid.State.superseded code_discovery_pyramid.State.live_claims
    code_discovery_pyramid.State.gap code_discovery_pyramid.State.gaps
    code_discovery_pyramid.State.dedupe_from code_discovery_pyramid.State.dedupe_unknowns
    code_discovery_pyramid.State.cover_all code_discovery_pyramid.State.coverage
    code_discovery_pyramid.State.without_runs code_discovery_pyramid.State.verify_log
    code_discovery_pyramid.State.open_questions code_discovery_pyramid.State.assemble
    code_discovery_pyramid.State.fold
gap_incomplete q (Memᴰ.head p) h = ap (λ (z : Patch). is_complete z.status) p
gap_incomplete q (Memᴰ.tail m) h = elim m [ ]

carts_failed : (q : Patch) → Memᴰ q log → q.node ≡ failed_patch.node → is_complete q.status ≡ false
carts_failed q (Memᴰ.head p) h = absurd (digests_differ (ap (λ (z : Patch). z.node) (sym p) ∙ h))
carts_failed q (Memᴰ.tail (Memᴰ.head p)) h = ap (λ (z : Patch). is_complete z.status) p
carts_failed q (Memᴰ.tail (Memᴰ.tail m)) h = elim m [ ]

claim_lives : Memᴰ public_claim (live_claims patch_digest log)
unfolding code_discovery_pyramid.Base.Dict.lookup code_discovery_pyramid.Base.Dict.insert
    code_discovery_pyramid.Base.Dict.push code_discovery_pyramid.Base.Dict.group_into
    code_discovery_pyramid.State.note_status code_discovery_pyramid.State.note_statuses
    code_discovery_pyramid.State.note_errors code_discovery_pyramid.State.note_complete
    code_discovery_pyramid.State.claims_of code_discovery_pyramid.State.unknowns_of
    code_discovery_pyramid.State.superseded code_discovery_pyramid.State.live_claims
    code_discovery_pyramid.State.gap code_discovery_pyramid.State.gaps
    code_discovery_pyramid.State.dedupe_from code_discovery_pyramid.State.dedupe_unknowns
    code_discovery_pyramid.State.cover_all code_discovery_pyramid.State.coverage
    code_discovery_pyramid.State.without_runs code_discovery_pyramid.State.verify_log
    code_discovery_pyramid.State.open_questions code_discovery_pyramid.State.assemble
    code_discovery_pyramid.State.fold
claim_lives = Memᴰ.head refl

live_claims-silent_example : public_claim.source_node ≢ some (text "carts")
live_claims-silent_example =
    live_claims-silent digest patch_digest cluster_digest [] scopes extraction log failed_patch
      (Memᴰ.tail (Memᴰ.head refl)) carts_failed public_claim claim_lives

node_status-IsBest_example : (s : PatchStatus) × IsBest log (text "orders") s
node_status-IsBest_example = node_status-IsBest log orders_patch (Memᴰ.head refl)

coverage-Covers_example : Covers (node_status log) scopes (coverage (node_status log) scopes)
coverage-Covers_example = coverage-Covers (node_status log) scopes

entail_claims-Judged_example :
    Pointwise
      (Judged extraction)
      (public_claim ∷ private_claim ∷ [])
      (entail_claims extraction (public_claim ∷ private_claim ∷ []))
entail_claims-Judged_example = entail_claims-Judged extraction (public_claim ∷ private_claim ∷ [])

abbrev index : Index
index = record { def_fqns = text "shop.Order" ∷ []; edge_subjects = []; edges_by_key = [] }

gate_patch_unknowns-Parted_example :
    Parted
      (text "orders")
      index
      []
      []
      (open_question ∷ [])
      (gate_patch_unknowns (text "orders") index [] [] (open_question ∷ [])).0
      (gate_patch_unknowns (text "orders") index [] [] (open_question ∷ [])).1
gate_patch_unknowns-Parted_example =
    gate_patch_unknowns-Parted (text "orders") index [] [] (open_question ∷ [])

discharge_unknowns-Outcome_example :
    Pointwise
      (Outcome (public_claim ∷ []) index [])
      (open_question ∷ [])
      (discharge_unknowns (public_claim ∷ []) index [] (open_question ∷ []))
discharge_unknowns-Outcome_example =
    discharge_unknowns-Outcome (public_claim ∷ []) index [] (open_question ∷ [])

answer : Answers (public_claim ∷ []) index [] (text "shop.Order") open_question public_claim
answer = record { folded = Memᴰ.head refl; same_subject = refl; same_channel = refl; upheld = refl }

all_upheld :
    (d : Claim)
    → Memᴰ d (public_claim ∷ [])
    → d.subject ≡ text "shop.Order"
    → d.channel ≡ open_question.channel
    → is_contradicted d.verdict ≡ false
all_upheld d (Memᴰ.head p) h k = ap (λ (z : Claim). is_contradicted z.verdict) p
all_upheld d (Memᴰ.tail m) h k = elim m [ ]

subject_there : exists_in_index index [] (text "shop.Order") ≡ true
unfolding exists_in_index
subject_there = refl

discharge_unknown-resolved_example :
    (discharge_unknown (public_claim ∷ []) index [] open_question).status ≡ some resolved
discharge_unknown-resolved_example =
    discharge_unknown-resolved (public_claim ∷ []) index [] open_question (text "shop.Order")
      public_claim refl refl subject_there answer all_upheld

abbrev no_state : State
no_state = record {
  claims = [];
  unknowns = [];
  conflicts = [];
  near_misses = [];
  merge_stats = no_stats;
  nodes = [];
  node_errors = [];
  coverage = no_coverage;
  entailment = record { counts = no_counts; by_node = [] };
  contradictions = [];
  excluded_run_ids = [];
  patch_count = 0;
}

abbrev gap_state : State
gap_state =
    or_else no_state (fold digest patch_digest cluster_digest [] scopes extraction none [] gap_log)

gap_folds :
    fold digest patch_digest cluster_digest [] scopes extraction none [] gap_log ≡ some gap_state
unfolding code_discovery_pyramid.Base.Dict.lookup code_discovery_pyramid.Base.Dict.insert
    code_discovery_pyramid.Base.Dict.push code_discovery_pyramid.Base.Dict.group_into
    code_discovery_pyramid.Base.Sorting.sort_by code_discovery_pyramid.Base.Sorting.dedup
    code_discovery_pyramid.Base.Sorting.sorted_set code_discovery_pyramid.Base.Text.is_space
    code_discovery_pyramid.Base.Text.strip code_discovery_pyramid.Base.Text.words
    code_discovery_pyramid.Base.Text.normalise_ws code_discovery_pyramid.Base.Text.decimal_fuel
    code_discovery_pyramid.Base.Text.decimal code_discovery_pyramid.Base.Index.first_by
    code_discovery_pyramid.State.note_status code_discovery_pyramid.State.note_statuses
    code_discovery_pyramid.State.note_errors code_discovery_pyramid.State.note_complete
    code_discovery_pyramid.State.claims_of code_discovery_pyramid.State.unknowns_of
    code_discovery_pyramid.State.superseded code_discovery_pyramid.State.live_claims
    code_discovery_pyramid.State.gap code_discovery_pyramid.State.gaps
    code_discovery_pyramid.State.dedupe_from code_discovery_pyramid.State.dedupe_unknowns
    code_discovery_pyramid.State.cover_all code_discovery_pyramid.State.coverage
    code_discovery_pyramid.State.without_runs code_discovery_pyramid.State.verify_log
    code_discovery_pyramid.State.open_questions code_discovery_pyramid.State.assemble
    code_discovery_pyramid.State.fold code_discovery_pyramid.Merge.signature
    code_discovery_pyramid.Merge.group_key code_discovery_pyramid.Merge.claim_sort_key
    code_discovery_pyramid.Merge.anchor_key code_discovery_pyramid.Merge.distinct_from
    code_discovery_pyramid.Merge.anchors_of code_discovery_pyramid.Merge.distinct_anchors
    code_discovery_pyramid.Merge.owning_modules code_discovery_pyramid.Merge.claim_modules
    code_discovery_pyramid.Merge.by_signature code_discovery_pyramid.Merge.comparable
    code_discovery_pyramid.Merge.all_comparable code_discovery_pyramid.Merge.owning_signatures
    code_discovery_pyramid.Merge.evidence_count code_discovery_pyramid.Merge.leading_signatures
    code_discovery_pyramid.Merge.resolve_by_evidence code_discovery_pyramid.Merge.resolve
    code_discovery_pyramid.Merge.top_confidence code_discovery_pyramid.Merge.union_statements
    code_discovery_pyramid.Merge.union_evidence code_discovery_pyramid.Merge.union_nodes
    code_discovery_pyramid.Merge.union_sorted code_discovery_pyramid.Merge.Operator.position_key
    code_discovery_pyramid.Merge.Operator.position
    code_discovery_pyramid.Merge.Operator.conflict_record
    code_discovery_pyramid.Merge.Operator.reads_differently
    code_discovery_pyramid.Merge.Operator.near_miss
    code_discovery_pyramid.Merge.Operator.sort_merged code_discovery_pyramid.Merge.Operator.union
    code_discovery_pyramid.Merge.Operator.merge_unanimous
    code_discovery_pyramid.Merge.Operator.merge_won
    code_discovery_pyramid.Merge.Operator.merge_contested
    code_discovery_pyramid.Merge.Operator.merge_conflict
    code_discovery_pyramid.Merge.Operator.merge_group
    code_discovery_pyramid.Merge.Operator.merge_keys
    code_discovery_pyramid.Merge.Operator.merge_claims code_discovery_pyramid.Gates.exists_in_index
    code_discovery_pyramid.Gates.gate_subject_exists code_discovery_pyramid.Gates.answering_edge
    code_discovery_pyramid.Gates.gate_negative_entailment
    code_discovery_pyramid.Gates.gate_needs_valid code_discovery_pyramid.Gates.provenance_state
    code_discovery_pyramid.Gates.gate_unknown code_discovery_pyramid.Gates.gate_patch_unknowns
    code_discovery_pyramid.Gates.grandfather_needs code_discovery_pyramid.Gates.discharge_subject
    code_discovery_pyramid.Gates.discharge_unknown code_discovery_pyramid.Gates.discharge_unknowns
    code_discovery_pyramid.Gates.cluster_unknowns code_discovery_pyramid.Entail.restates_edge
    code_discovery_pyramid.Entail.disagrees code_discovery_pyramid.Entail.verdict_of
    code_discovery_pyramid.Entail.entail_claim code_discovery_pyramid.Entail.entail_claims
    code_discovery_pyramid.Entail.count_verdict code_discovery_pyramid.Entail.named_nodes
    code_discovery_pyramid.Entail.count_nodes code_discovery_pyramid.Entail.summarize_into
    code_discovery_pyramid.Entail.summarize code_discovery_pyramid.Extract.build_extraction_index
gap_folds = refl

fold-states_gap_example :
    Asks
      (
        text "What does "
            ++ (text "carts" ++ text " contain? Its scope was not successfully examined."),
        text "carts",
      )
      gap_state.unknowns
fold-states_gap_example =
    fold-states_gap digest patch_digest cluster_digest [] scopes extraction none [] gap_log
      gap_folds failed_patch in_gap_log gap_incomplete

abbrev asking_patch : Patch
asking_patch = patch_of (text "orders") complete [] (open_question ∷ [])

abbrev asking_log : List Patch
asking_log = asking_patch ∷ []

abbrev asking_state : State
asking_state =
    or_else no_state
      (fold digest patch_digest cluster_digest [] scopes extraction none [] asking_log)

asking_folds :
    fold digest patch_digest cluster_digest [] scopes extraction none [] asking_log
    ≡ some asking_state
unfolding code_discovery_pyramid.Base.Dict.lookup code_discovery_pyramid.Base.Dict.insert
    code_discovery_pyramid.Base.Dict.push code_discovery_pyramid.Base.Dict.group_into
    code_discovery_pyramid.Base.Sorting.sort_by code_discovery_pyramid.Base.Sorting.dedup
    code_discovery_pyramid.Base.Sorting.sorted_set code_discovery_pyramid.Base.Text.is_space
    code_discovery_pyramid.Base.Text.strip code_discovery_pyramid.Base.Text.words
    code_discovery_pyramid.Base.Text.normalise_ws code_discovery_pyramid.Base.Text.decimal_fuel
    code_discovery_pyramid.Base.Text.decimal code_discovery_pyramid.Base.Index.first_by
    code_discovery_pyramid.State.note_status code_discovery_pyramid.State.note_statuses
    code_discovery_pyramid.State.note_errors code_discovery_pyramid.State.note_complete
    code_discovery_pyramid.State.claims_of code_discovery_pyramid.State.unknowns_of
    code_discovery_pyramid.State.superseded code_discovery_pyramid.State.live_claims
    code_discovery_pyramid.State.gap code_discovery_pyramid.State.gaps
    code_discovery_pyramid.State.dedupe_from code_discovery_pyramid.State.dedupe_unknowns
    code_discovery_pyramid.State.cover_all code_discovery_pyramid.State.coverage
    code_discovery_pyramid.State.without_runs code_discovery_pyramid.State.verify_log
    code_discovery_pyramid.State.open_questions code_discovery_pyramid.State.assemble
    code_discovery_pyramid.State.fold code_discovery_pyramid.Merge.signature
    code_discovery_pyramid.Merge.group_key code_discovery_pyramid.Merge.claim_sort_key
    code_discovery_pyramid.Merge.anchor_key code_discovery_pyramid.Merge.distinct_from
    code_discovery_pyramid.Merge.anchors_of code_discovery_pyramid.Merge.distinct_anchors
    code_discovery_pyramid.Merge.owning_modules code_discovery_pyramid.Merge.claim_modules
    code_discovery_pyramid.Merge.by_signature code_discovery_pyramid.Merge.comparable
    code_discovery_pyramid.Merge.all_comparable code_discovery_pyramid.Merge.owning_signatures
    code_discovery_pyramid.Merge.evidence_count code_discovery_pyramid.Merge.leading_signatures
    code_discovery_pyramid.Merge.resolve_by_evidence code_discovery_pyramid.Merge.resolve
    code_discovery_pyramid.Merge.top_confidence code_discovery_pyramid.Merge.union_statements
    code_discovery_pyramid.Merge.union_evidence code_discovery_pyramid.Merge.union_nodes
    code_discovery_pyramid.Merge.union_sorted code_discovery_pyramid.Merge.Operator.position_key
    code_discovery_pyramid.Merge.Operator.position
    code_discovery_pyramid.Merge.Operator.conflict_record
    code_discovery_pyramid.Merge.Operator.reads_differently
    code_discovery_pyramid.Merge.Operator.near_miss
    code_discovery_pyramid.Merge.Operator.sort_merged code_discovery_pyramid.Merge.Operator.union
    code_discovery_pyramid.Merge.Operator.merge_unanimous
    code_discovery_pyramid.Merge.Operator.merge_won
    code_discovery_pyramid.Merge.Operator.merge_contested
    code_discovery_pyramid.Merge.Operator.merge_conflict
    code_discovery_pyramid.Merge.Operator.merge_group
    code_discovery_pyramid.Merge.Operator.merge_keys
    code_discovery_pyramid.Merge.Operator.merge_claims code_discovery_pyramid.Gates.exists_in_index
    code_discovery_pyramid.Gates.gate_subject_exists code_discovery_pyramid.Gates.answering_edge
    code_discovery_pyramid.Gates.gate_negative_entailment
    code_discovery_pyramid.Gates.gate_needs_valid code_discovery_pyramid.Gates.provenance_state
    code_discovery_pyramid.Gates.gate_unknown code_discovery_pyramid.Gates.gate_patch_unknowns
    code_discovery_pyramid.Gates.grandfather_needs code_discovery_pyramid.Gates.discharge_subject
    code_discovery_pyramid.Gates.discharge_unknown code_discovery_pyramid.Gates.discharge_unknowns
    code_discovery_pyramid.Gates.cluster_unknowns code_discovery_pyramid.Entail.restates_edge
    code_discovery_pyramid.Entail.disagrees code_discovery_pyramid.Entail.verdict_of
    code_discovery_pyramid.Entail.entail_claim code_discovery_pyramid.Entail.entail_claims
    code_discovery_pyramid.Entail.count_verdict code_discovery_pyramid.Entail.named_nodes
    code_discovery_pyramid.Entail.count_nodes code_discovery_pyramid.Entail.summarize_into
    code_discovery_pyramid.Entail.summarize code_discovery_pyramid.Extract.build_extraction_index
asking_folds = refl

in_asking_log : Memᴰ asking_patch (verify_log none (without_runs [] asking_log))
unfolding code_discovery_pyramid.Base.Dict.lookup code_discovery_pyramid.Base.Dict.insert
    code_discovery_pyramid.Base.Dict.push code_discovery_pyramid.Base.Dict.group_into
    code_discovery_pyramid.State.note_status code_discovery_pyramid.State.note_statuses
    code_discovery_pyramid.State.note_errors code_discovery_pyramid.State.note_complete
    code_discovery_pyramid.State.claims_of code_discovery_pyramid.State.unknowns_of
    code_discovery_pyramid.State.superseded code_discovery_pyramid.State.live_claims
    code_discovery_pyramid.State.gap code_discovery_pyramid.State.gaps
    code_discovery_pyramid.State.dedupe_from code_discovery_pyramid.State.dedupe_unknowns
    code_discovery_pyramid.State.cover_all code_discovery_pyramid.State.coverage
    code_discovery_pyramid.State.without_runs code_discovery_pyramid.State.verify_log
    code_discovery_pyramid.State.open_questions code_discovery_pyramid.State.assemble
    code_discovery_pyramid.State.fold
in_asking_log = Memᴰ.head refl

fold-Asks_example :
    Asks (unknown_key (asked_by (text "orders") open_question)) asking_state.unknowns
fold-Asks_example =
    fold-Asks digest patch_digest cluster_digest [] scopes extraction none [] asking_log
      asking_folds asking_patch open_question in_asking_log refl (Memᴰ.head refl)

abbrev first_part : List Text → Text
first_part [] = text ""
first_part (h ∷ hs) = h

reversed_first :
    Memᴰ
      (failed_patch ∷ orders_patch ∷ [])
      (permutations patch_digest (orders_patch ∷ failed_patch ∷ []))
unfolding code_discovery_pyramid.State.Digest.permutations
reversed_first = Memᴰ.head refl

permutations-fold_hash_example :
    Permᴰ (failed_patch ∷ orders_patch ∷ []) (orders_patch ∷ failed_patch ∷ [])
    × (fold_hash patch_digest first_part
          (text "s")
          (text "n")
          none
          (failed_patch ∷ orders_patch ∷ [])
        ≡ fold_hash patch_digest first_part
            (text "s")
            (text "n")
            none
            (orders_patch ∷ failed_patch ∷ []))
permutations-fold_hash_example =
    permutations-fold_hash patch_digest first_part (text "s") (text "n") none
      (orders_patch ∷ failed_patch ∷ []) (failed_patch ∷ orders_patch ∷ []) reversed_first
