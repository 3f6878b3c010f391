-- ===== src/Rollback.antt =====
-- cdp/rollback.py: which patches a rollback leaves, and the ledger of its events.
use code_discovery_pyramid.Base.{
  ℕ, suc, Bool, true, false, not, Option, none, some, List, [], ◌∷◌, ◌++◌, map, ◌==◌, anyb, filterb,
  contains, drop, take, if◌then◌else◌,
}
use code_discovery_pyramid.Base.Sorting.{sort_by}
use code_discovery_pyramid.Base.Text.{Text, text_eq, text_ord}
use code_discovery_pyramid.Claims.{Patch}

-- `--to-run`: the patches that are left and the runs that are excluded.
unfoldable pub patches_excluding_run : List Patch → Text → List Patch × List Text
patches_excluding_run patches run_id =
    let excluded = if anyb (λ p. p.run_id == run_id) patches then run_id ∷ [] else [] in
    (filterb (λ p. not (contains p.run_id excluded)) patches, excluded)

-- The last index at which the run appears, from index `i` on.
unfoldable pub last_index : Text → ℕ → List Patch → Option ℕ
last_index run_id i [] = none
last_index run_id i (p ∷ ps) = elim (last_index run_id (suc i) ps) [
  | some j ↦ some j
  | none ↦ if p.run_id == run_id then some i else none
]

pub record Cut : Type 0 where
  pub kept : List Patch
  pub excluded : List Text
  pub found : Bool

unfoldable pub cut_at : List Patch → Option ℕ → Cut
cut_at patches none = record { kept = patches; excluded = []; found = false }
cut_at patches (some last) = record {
  kept = take (suc last) patches;
  excluded = map (λ p. p.run_id) (drop (suc last) patches);
  found = true;
}

-- `--to-snapshot`: the log through the last patch of a run.
unfoldable pub patches_up_to_run : List Patch → Text → Cut
patches_up_to_run patches run_id = cut_at patches (last_index run_id 0 patches)

pub record Event : Type 0 where
  pub kind : Text
  pub target_run_id : Text
  pub excluded_run_ids : List Text
  pub reason : Text

unfoldable pub load_excluded_run_ids : List Event → List Text
load_excluded_run_ids [] = []
load_excluded_run_ids (e ∷ es) = e.excluded_run_ids ++ load_excluded_run_ids es

unfoldable pub record_rollback : List Event → Text → Text → List Text → Text → List Event
record_rollback ledger kind target excluded reason =
    ledger
    ++ record {
      kind = kind;
      target_run_id = target;
      excluded_run_ids = sort_by (λ r. r) excluded;
      reason = reason;
    }
      ∷ []
