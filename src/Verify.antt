-- ===== src/Verify.antt =====
-- cdp/verify.py: evidence or drop. Every anchor of a claim is checked against its file; a claim
-- that fails becomes an unknown.
pub mod Demotion
pub mod Totals
use code_discovery_pyramid.Base.{
  ℕ, ◌+◌, Bool, true, false, not, Option, none, some, List, [], ◌∷◌, ◌++◌, map, ◌&&◌, ◌||◌, ◌==◌,
  nat_eq, if◌then◌else◌, is_empty, contains, take,
}
use code_discovery_pyramid.Base.Dict.{Dict, lookup_or, insert}
use code_discovery_pyramid.Base.Text.{Text, text, text_eq, join, decimal}
use code_discovery_pyramid.Claims.{Anchor, Claim, Unknown, plain_unknown, Patch}
use code_discovery_pyramid.Anchor.{
  DemotedReason, anchor_not_found, ambiguous_anchor, anchor_too_common, Checked, located, failed,
  verify_anchor,
}

pub data Mode : Type 0 where
  strict lenient : Mode

pub record Stats : Type 0 where
  pub claims_in : ℕ
  pub claims_kept : ℕ
  pub claims_demoted : ℕ
  pub anchors_checked : ℕ
  pub anchors_ok : ℕ
  pub anchors_relocated : ℕ
  pub would_survive_lenient : ℕ
  pub reasons : Dict Text ℕ

abbrev pub no_stats : Stats
no_stats = record {
  claims_in = 0;
  claims_kept = 0;
  claims_demoted = 0;
  anchors_checked = 0;
  anchors_ok = 0;
  anchors_relocated = 0;
  would_survive_lenient = 0;
  reasons = [];
}

abbrev pub reason_text : DemotedReason → Text
reason_text anchor_not_found = text "anchor_not_found"
reason_text ambiguous_anchor = text "ambiguous_anchor"
reason_text anchor_too_common = text "anchor_too_common"

-- What the loop over the anchors of one claim has gathered.
pub record Evidence : Type 0 where
  pub good : List Anchor
  pub failures : List (Anchor × DemotedReason)
  pub touches_edited : Bool
  pub stats : Stats

-- The files of the repository as `read_lines` gives them, the renames and the edited files.
pub record Sources : Type 0 where
  pub lines : Text → List Text
  pub rename_map : Dict Text Text
  pub edited_files : List Text

abbrev pub count_checked : Stats → Stats
count_checked s = record s { anchors_checked = s.anchors_checked + 1 }

abbrev pub count_located : Bool → Stats → Stats
count_located moved s = record s {
  anchors_ok = s.anchors_ok + 1;
  anchors_relocated = s.anchors_relocated + (if moved then 1 else 0);
}

module _ (src : Sources) where
  abbrev pub read_file : Anchor → Text
  read_file a = lookup_or a.file a.file src.rename_map

  abbrev pub note_checked : Anchor → Checked → Evidence → Evidence
  note_checked a (located line) e = record e {
    good = e.good ++ record a { file = read_file a; line = line } ∷ [];
    stats = count_located (not (line == a.line) || not (read_file a == a.file)) e.stats;
  }
  note_checked a (failed line reason) e = record e { failures = e.failures ++ (a, reason) ∷ [] }

  -- One round of the loop over the anchors.
  unfoldable pub check_anchor : Evidence → Anchor → Evidence
  check_anchor e a =
      let lines = src.lines (read_file a) in
      let noted = record e {
        touches_edited = e.touches_edited || contains (read_file a) src.edited_files;
        stats = count_checked e.stats;
      } in
      if is_empty lines
      then record noted { failures = noted.failures ++ (a, anchor_not_found) ∷ [] }
      else note_checked a (verify_anchor lines a) noted

  unfoldable pub check_anchors : Evidence → List Anchor → Evidence
  unfolding check_anchor
  check_anchors e [] = e
  check_anchors e (a ∷ rest) = check_anchors (check_anchor e a) rest

unfoldable pub survives : Mode → Evidence → Bool
survives lenient e = not (is_empty e.good)
survives strict e = not (is_empty e.good) && is_empty e.failures

abbrev pub first_reason : List (Anchor × DemotedReason) → DemotedReason
first_reason [] = anchor_not_found
first_reason ((a, r) ∷ fs) = r

unfoldable pub describe_failure : Anchor × DemotedReason → Text
describe_failure (a, r) =
    a.file ++ (text ":" ++ (decimal a.line ++ (text " (" ++ (reason_text r ++ text ")"))))

-- `_describe`
unfoldable pub describe : List (Anchor × DemotedReason) → Text
describe [] = text "no evidence supplied"
describe (f ∷ fs) = join (text "; ") (map describe_failure (take 3 (f ∷ fs)))

abbrev pub cited_anchor : Evidence → Option Anchor
cited_anchor e = elim e.failures [
  | (a, r) ∷ fs ↦ some a
  | [] ↦ elim e.good [ [] ↦ none | a ∷ rest ↦ some a ]
]

-- The unknown that a demoted claim becomes.
unfoldable pub demoted : Claim → Evidence → Unknown
demoted c e =
    let unknown = plain_unknown (text "Unverified: " ++ c.statement) (
      text "Citation failed verification ("
      ++ (reason_text (first_reason e.failures) ++ (text "): " ++ describe e.failures))) in
    record unknown { demoted_from = some c.id; anchor = cited_anchor e }

-- The head commit, if it is known and not empty, is the commit of the verification.
abbrev pub verified_at : Option Text → Option Text → Option Text
verified_at none old = old
verified_at (some head) old = if is_empty head then old else some head

unfoldable pub kept_claim : Option Text → Claim → Evidence → Claim
kept_claim head_sha c e = record c {
  evidence = e.good;
  anchor_verified_at = verified_at head_sha c.anchor_verified_at;
  claim_reviewed_at = (if e.touches_edited then none else c.claim_reviewed_at);
}

abbrev pub count_kept : Stats → Stats
count_kept s = record s { claims_in = s.claims_in + 1; claims_kept = s.claims_kept + 1 }

abbrev pub count_demoted : DemotedReason → Bool → Stats → Stats
count_demoted r some_good s = record s {
  claims_in = s.claims_in + 1;
  claims_demoted = s.claims_demoted + 1;
  reasons = insert (reason_text r) (lookup_or 0 (reason_text r) s.reasons + 1) s.reasons;
  would_survive_lenient = s.would_survive_lenient + (if some_good then 1 else 0);
}

-- The state of the loop over the claims of a patch.
pub record Progress : Type 0 where
  pub kept : List Claim
  pub unknowns : List Unknown
  pub stats : Stats

unfoldable pub gather : Sources → Claim → Stats → Evidence
unfolding check_anchors
gather src c stats =
    check_anchors src (record { good = []; failures = []; touches_edited = false; stats = stats })
      c.evidence

module _ (src : Sources) (mode : Mode) (head_sha : Option Text) where
  -- One round of the loop over the claims.
  unfoldable pub verify_claim : Progress → Claim → Progress
  verify_claim p c =
      let e = gather src c p.stats in
      let survived : Progress = record {
        kept = p.kept ++ kept_claim head_sha c e ∷ [];
        unknowns = p.unknowns;
        stats = count_kept e.stats;
      } in
      let dropped : Progress = record {
        kept = p.kept;
        unknowns = p.unknowns ++ demoted c e ∷ [];
        stats = count_demoted (first_reason e.failures) (not (is_empty e.good)) e.stats;
      } in
      if survives mode e then survived else dropped

  unfoldable pub verify_claims : Progress → List Claim → Progress
  verify_claims p [] = p
  verify_claims p (c ∷ cs) = verify_claims (verify_claim p c) cs

  unfoldable pub verify_patch : Patch → Patch × Stats
  verify_patch patch =
      let p =
        verify_claims (record { kept = []; unknowns = patch.unknowns; stats = no_stats })
          patch.claims in
      (record patch { claims = p.kept; unknowns = p.unknowns }, p.stats)
