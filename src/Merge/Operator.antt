-- ===== src/Merge/Operator.antt =====
-- cdp/merge.py: `_conflict_record` and `merge_claims`, the loop over the groups.
use code_discovery_pyramid.Base.{
  ℕ, ◌+◌, Bool, Option, none, some, List, [], ◌∷◌, ◌++◌, map, ◌==◌, nat_eq, pair_eq, option_eq,
  pair_ord, if◌then◌else◌, ltb, length, ◌>>=◌,
}
use code_discovery_pyramid.Base.Dict.{Dict, keys, lookup_list, group_into}
use code_discovery_pyramid.Base.Sorting.{sort_by, dedup, sorted_set}
use code_discovery_pyramid.Base.Text.{Text, text, text_eq, text_ord, strip}
use code_discovery_pyramid.Claims.{Anchor, Claim, Confidence, node_of}
use code_discovery_pyramid.Merge.{
  Signature, Reason, ownership, evidence, Resolution, won, tied, type_error, group_key,
  claim_sort_key, by_signature, evidence_count, resolve, union_sorted, union_nodes,
}

pub record Position : Type 0 where
  pub values : Signature
  pub nodes : List Text
  pub statements : List Text
  pub evidence_count : ℕ
  pub won : Bool

pub record Conflict : Type 0 where
  pub subject : Text
  pub kind : Text
  pub resolved_by : Option Reason
  pub question : Text
  pub positions : List Position

pub record NearMiss : Type 0 where
  pub subject : Text
  pub kind : Text
  pub statements : List Text
  pub nodes : List Text

pub record Stats : Type 0 where
  pub groups : ℕ
  pub unanimous : ℕ
  pub conflicts : ℕ
  pub near_misses : ℕ
  pub resolved_by_ownership : ℕ
  pub resolved_by_evidence : ℕ
  pub contested : ℕ

pub record Merged : Type 0 where
  pub claims : List Claim
  pub conflicts : List Conflict
  pub near_misses : List NearMiss
  pub stats : Stats

abbrev pub no_stats : Stats
no_stats = record {
  groups = 0;
  unanimous = 0;
  conflicts = 0;
  near_misses = 0;
  resolved_by_ownership = 0;
  resolved_by_evidence = 0;
  contested = 0;
}

abbrev pub nothing_merged : Merged
nothing_merged = record { claims = []; conflicts = []; near_misses = []; stats = no_stats }

-- The key by which `_conflict_record` sorts: an absent value counts as "".
abbrev pub field_text : Option Text → Text
field_text none = []
field_text (some v) = v

unfoldable pub position_key : Signature → Text × (Text × Text)
position_key (a, (b, c)) = (field_text a, (field_text b, field_text c))

unfoldable pub position : Dict Signature (List Claim) → Option Signature → Signature → Position
position groups winner s =
    let group = lookup_list s groups in
    record {
      values = s;
      nodes = sorted_set (map node_of group);
      statements = sorted_set (map (λ c. c.statement) group);
      evidence_count = evidence_count group;
      won = winner == some s;
    }

abbrev pub reason_text : Reason → Text
reason_text ownership = text "ownership"
reason_text evidence = text "evidence"

abbrev pub question : Text → Option Reason → Text
question subject none = text "Which is correct for " ++ subject ++ text "?"
question subject (some r) = text "Resolved by " ++ reason_text r ++ text "; recorded for audit."

unfoldable pub conflict_record :
    Text → Text → Dict Signature (List Claim) → Option Reason → Option Signature → Conflict
conflict_record subject kind groups resolved_by winner = record {
  subject = subject;
  kind = kind;
  resolved_by = resolved_by;
  question = question subject resolved_by;
  positions = map (position groups winner) (sort_by position_key (keys groups));
}

abbrev pub append_claim : Option Claim → List Claim → List Claim
append_claim none claims = claims
append_claim (some c) claims = claims ++ c ∷ []

-- `len({str(c.get("statement", "")).strip() for c in members}) > 1`
unfoldable pub reads_differently : List Claim → Bool
reads_differently members = ltb 1 (length (dedup (map (λ c. strip c.statement) members)))

unfoldable pub near_miss : Text → Text → List Claim → NearMiss
near_miss subject kind members = record {
  subject = subject;
  kind = kind;
  statements = sorted_set (map (λ c. c.statement) members);
  nodes = sorted_set (map node_of members);
}

abbrev pub count_won : Reason → Stats → Stats
count_won ownership s = record s { resolved_by_ownership = s.resolved_by_ownership + 1 }
count_won evidence s = record s { resolved_by_evidence = s.resolved_by_evidence + 1 }

abbrev pub count_conflict : Stats → Stats
count_conflict s = record s { groups = s.groups + 1; conflicts = s.conflicts + 1 }

abbrev pub mark_contested : List Claim → Option Claim → Option Claim
mark_contested members none = none
mark_contested members (some c) =
    some
      (record c { confidence = Confidence.contested; contested_with = some (union_nodes members) })

abbrev pub claim_order : Claim → Text × (Text × Text)
claim_order c = (c.kind, (c.subject, c.id))

unfoldable pub sort_merged : Merged → Merged
sort_merged m = record m { claims = sort_by claim_order m.claims }

module _ (evidence_hash : List Anchor → Text) (symbols : Dict Text (List Text)) where
  -- `_union`, of a group that may only be empty in the model: `none` never comes back.
  unfoldable pub union : Text → Text → List Claim → Option Claim
  union subject kind claims = elim (sort_by (claim_sort_key evidence_hash) claims) [
    | [] ↦ none
    | c ∷ cs ↦ some (union_sorted subject kind c cs)
  ]

  -- A group of one signature.
  unfoldable pub merge_unanimous : Text → Text → List Claim → Merged → Merged
  merge_unanimous subject kind members m =
      let stats = m.stats in
      let differ = reads_differently members in
      record m {
        claims = append_claim (union subject kind members) m.claims;
        near_misses =
            (if differ
              then m.near_misses ++ near_miss subject kind members ∷ []
              else m.near_misses);
        stats = record stats {
          groups = stats.groups + 1;
          unanimous = stats.unanimous + 1;
          near_misses = stats.near_misses + (if differ then 1 else 0);
        };
      }

  -- A conflict that one signature wins.
  unfoldable pub merge_won : Text → Text → List Claim → Signature → Reason → Merged → Merged
  merge_won subject kind members winner reason m =
      let groups = by_signature members in
      record m {
        claims = append_claim (union subject kind (lookup_list winner groups)) m.claims;
        conflicts =
            m.conflicts ++ conflict_record subject kind groups (some reason) (some winner) ∷ [];
        stats = count_won reason (count_conflict m.stats);
      }

  -- A conflict that nobody wins: all claims are kept in one that is marked.
  unfoldable pub merge_contested : Text → Text → List Claim → Merged → Merged
  merge_contested subject kind members m =
      let stats = count_conflict m.stats in
      record m {
        claims = append_claim (mark_contested members (union subject kind members)) m.claims;
        conflicts =
            m.conflicts ++ conflict_record subject kind (by_signature members) none none ∷ [];
        stats = record stats { contested = stats.contested + 1 };
      }

  -- A group of more than one signature; `none` is the TypeError.
  unfoldable pub merge_conflict : Text → Text → List Claim → Resolution → Merged → Option Merged
  merge_conflict subject kind members (won s r) m = some (merge_won subject kind members s r m)
  merge_conflict subject kind members tied m = some (merge_contested subject kind members m)
  merge_conflict subject kind members type_error m = none

  -- One round of the loop, on the sorted members of a group.
  unfoldable pub merge_group : Text → Text → List Claim → Merged → Option Merged
  merge_group subject kind members m =
      if length (by_signature members) == 1
      then some (merge_unanimous subject kind members m)
      else merge_conflict subject kind members (resolve subject (by_signature members) symbols) m

  unfoldable pub merge_keys :
      Dict (Text × Text) (List Claim) → List (Text × Text) → Merged → Option Merged
  merge_keys groups [] m = some m
  merge_keys groups (k ∷ ks) m = do
    m' ← merge_group k.0 k.1 (sort_by (claim_sort_key evidence_hash) (lookup_list k groups)) m
    merge_keys groups ks m'

  unfoldable pub merge_claims : List Claim → Option Merged
  merge_claims claims = do
    let groups = group_into group_key [] claims
    m ← merge_keys groups (sort_by (λ k. k) (keys groups)) nothing_merged
    some (sort_merged m)
