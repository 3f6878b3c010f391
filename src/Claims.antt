-- ===== src/Claims.antt =====
-- The records of a patch, after schema/patch-1.0.0.json: claims, their anchors and the unknowns.
-- A key that the schema does not require is an `Option`; a missing list is the empty list.
use code_discovery_pyramid.Base.{ℕ, Option, List, Bool, none, some, false}
use code_discovery_pyramid.Base.Text.{Text}

pub record Anchor : Type 0 where
  pub file : Text
  pub line : ℕ
  pub anchor : Text

pub data Confidence : Type 0 where
  low medium high contested : Confidence

pub data Verdict : Type 0 where
  entailed consistent contradicted : Verdict

pub data AuthorKind : Type 0 where
  python llm human : AuthorKind

pub record Claim : Type 0 where
  pub id : Text
  pub kind : Text
  pub subject : Text
  pub channel : Option Text
  pub visibility : Option Text
  pub side_effect_type : Option Text
  pub statement : Text
  pub evidence : List Anchor
  pub confidence : Confidence
  pub escalated : Bool
  pub source_node : Option Text
  pub contested_with : Option (List Text)
  pub statements : Option (List Text)
  pub source_nodes : Option (List Text)
  pub claim_reviewed_at : Option Text
  pub anchor_verified_at : Option Text
  pub verdict : Option Verdict
  pub author_kind : Option AuthorKind

-- `str(claim.get("source_node", ""))`
abbrev pub node_of : Claim → Text
node_of c = elim c.source_node [ none ↦ List.[] | some n ↦ n ]

pub data UnknownStatus : Type 0 where
  still_open resolved moot : UnknownStatus

pub record ResolvedBy : Type 0 where
  pub claim_id : Text
  pub author_kind : AuthorKind
  pub at_snapshot : Text

pub record Unknown : Type 0 where
  pub question : Text
  pub why_unresolved : Text
  pub anchor : Option Anchor
  pub demoted_from : Option Text
  pub source_node : Option Text
  pub subject : Option Text
  pub channel : Option Text
  pub needs : Option Text
  pub needs_migrated : Bool
  pub status : Option UnknownStatus
  pub resolved_by : Option ResolvedBy
  pub provenance_state : Option Text
  pub cluster_id : Option Text
  pub cluster_size : Option ℕ

-- An unknown with a question and a reason, and no other key.
abbrev pub plain_unknown : Text → Text → Unknown
plain_unknown question why = record {
  question = question;
  why_unresolved = why;
  anchor = none;
  demoted_from = none;
  source_node = none;
  subject = none;
  channel = none;
  needs = none;
  needs_migrated = false;
  status = none;
  resolved_by = none;
  provenance_state = none;
  cluster_id = none;
  cluster_size = none;
}

pub data PatchStatus : Type 0 where
  pending failed invalid complete : PatchStatus

pub record Patch : Type 0 where
  pub node : Text
  pub run_id : Text
  pub status : PatchStatus
  pub generation : Option ℕ
  pub error : Option Text
  pub claims : List Claim
  pub unknowns : List Unknown
