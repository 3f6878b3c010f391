-- ===== src/TaskTable.antt =====
-- cdp/store/sqlite_backend.py: the tables of tasks and of runs, and the leases on their rows. The
-- functions take either table, `snapshot_task` or `link_task`, and the clock in milliseconds.
pub mod Rows
pub mod Races
pub mod Exclusion
pub mod Fields
pub mod Statements
pub mod Lock
pub mod Resume
use code_discovery_pyramid.Base.{
  ℕ, zero, suc, ◌+◌, Bool, true, false, not, Option, none, some, List, [], ◌∷◌, ◌++◌, map, ◌&&◌,
  ◌==◌, if◌then◌else◌, ltb, filterb, nat_eq, pair_eq, ◌>>=◌,
}
use code_discovery_pyramid.Base.Sorting.{sort_by}
use code_discovery_pyramid.Base.Dict.{Dict, lookup, insert, put_new}
use code_discovery_pyramid.Base.Update.{update}
use code_discovery_pyramid.Base.Text.{Text, text, text_eq, text_ord}
use code_discovery_pyramid.Supervisor.{TaskState, pending, dispatched, folded, expired}

-- A row of `snapshot_task`. `state` is NULL in a row that an upsert of other columns has made.
pub record Task : Type 0 where
  pub state : Option TaskState
  pub attempts : ℕ
  pub dispatched_at : Option Text
  pub lease_until : Option ℕ
  pub last_error : Option Text
  pub patch_hash : Option Text
  pub wall_ms : Option ℕ

-- The primary key: `run_id` and `scope_hash`.
abbrev pub Key : Type 0
Key = Text × Text

abbrev pub Table : Type 0
Table = Dict Key Task

-- The columns that the callers of `upsert_task` set.
pub data Field : Type 0 where
  set_state : TaskState → Field
  set_attempts : ℕ → Field
  set_dispatched_at : Text → Field
  set_last_error : Option Text → Field
  set_patch_hash : Text → Field
  set_wall_ms : Option ℕ → Field

abbrev pub set_field : Task → Field → Task
set_field t (set_state s) = record t { state = some s }
set_field t (set_attempts n) = record t { attempts = n }
set_field t (set_dispatched_at s) = record t { dispatched_at = some s }
set_field t (set_last_error s) = record t { last_error = s }
set_field t (set_patch_hash s) = record t { patch_hash = some s }
set_field t (set_wall_ms n) = record t { wall_ms = n }

abbrev pub blank_task : Task
blank_task = record {
  state = none;
  attempts = 0;
  dispatched_at = none;
  lease_until = none;
  last_error = none;
  patch_hash = none;
  wall_ms = none;
}

unfoldable pub set_fields : List Field → Task → Task
set_fields [] t = t
set_fields (f ∷ fs) t = set_fields fs (set_field t f)

abbrev pub upsert_found : Option Task → Key → List Field → Table → Table
upsert_found none k fields d = insert k (set_fields fields blank_task) d
upsert_found (some t) k fields d = update (set_fields fields) k d

-- `_upsert_task`
unfoldable pub upsert_task : Key → List Field → Table → Table
upsert_task k fields d = upsert_found (lookup k d) k fields d

-- `lease_until IS NULL OR lease_until < ?`
abbrev pub is_lapsed : ℕ → Option ℕ → Bool
is_lapsed now none = true
is_lapsed now (some until) = ltb until now

abbrev pub with_lease : Option ℕ → Task → Task
with_lease until t = record t { lease_until = until }

abbrev pub claim_found : ℕ → ℕ → Key → Table → Option Task → Option Table
claim_found now until k d none = none
claim_found now until k d (some t) =
    if is_lapsed now t.lease_until then some (update (with_lease (some until)) k d) else none

-- The UPDATE of `_acquire_lease`, which names a row only if its lease is free or lapsed; `none` is a
-- row count of 0.
unfoldable pub claim_lapsed : ℕ → ℕ → Key → Table → Option Table
claim_lapsed now until k d = claim_found now until k d (lookup k d)

abbrev pub new_task : ℕ → Task
new_task until = record blank_task { state = some pending; lease_until = some until }

abbrev pub insert_found : ℕ → Key → Table → Option Task → Bool × Table
insert_found until k d (some t) = (false, d)
insert_found until k d none = (true, insert k (new_task until) d)

-- The INSERT of `_acquire_lease`: where the row is there, the IntegrityError is caught.
unfoldable pub insert_claim : ℕ → Key → Table → Bool × Table
insert_claim until k d = insert_found until k d (lookup k d)

-- The SELECT of `_acquire_lease`, and the INSERT where it finds no row.
abbrev pub claim_new : ℕ → Key → Table → Option Task → Bool × Table
claim_new until k d (some t) = (false, d)
claim_new until k d none = insert_claim until k d

abbrev pub claim_next : ℕ → Key → Table → Option Table → Bool × Table
claim_next until k d (some changed) = (true, changed)
claim_next until k d none = claim_new until k d (lookup k d)

-- `_acquire_lease`, undisturbed
unfoldable pub acquire_lease : ℕ → ℕ → Key → Table → Bool × Table
acquire_lease now seconds k d =
    claim_next (now + seconds) k d (claim_lapsed now (now + seconds) k d)

-- `_heartbeat_lease`
unfoldable pub heartbeat_lease : ℕ → ℕ → Key → Table → Table
heartbeat_lease now seconds k d = update (with_lease (some (now + seconds))) k d

-- `_release_lease`
unfoldable pub release_lease : Key → Table → Table
release_lease k d = update (with_lease none) k d

abbrev pub is_dispatched : Option TaskState → Bool
is_dispatched (some dispatched) = true
is_dispatched _ = false

-- The WHERE of the SELECT of `reclaim_expired`.
abbrev pub is_stale : ℕ → Text → Key × Task → Bool
is_stale now run (k, t) = (k.0 == run) && (is_dispatched t.state && is_lapsed now t.lease_until)

abbrev pub expire : Task → Task
expire t = record t { state = some expired; lease_until = none }

unfoldable pub update_each : (Task → Task) → Text → List Text → Table → Table
update_each f run [] d = d
update_each f run (h ∷ hs) d = update_each f run hs (update f (run, h) d)

abbrev pub stale_hashes : ℕ → Text → Table → List Text
stale_hashes now run d = map (λ e. e.0.1) (filterb (is_stale now run) d)

-- `reclaim_expired`
unfoldable pub reclaim_expired : ℕ → Text → Table → List Text × Table
reclaim_expired now run d =
    (stale_hashes now run d, update_each expire run (stale_hashes now run d) d)

abbrev pub is_folded : Option TaskState → Bool
is_folded (some folded) = true
is_folded _ = false

-- The row that `copy_folded_tasks` selects.
abbrev pub folded_row : Option Task → Option Task
folded_row none = none
folded_row (some t) = if is_folded t.state then some t else none

abbrev pub inherited : Task → Task
inherited t = record blank_task {
  state = some folded;
  attempts = t.attempts;
  dispatched_at = t.dispatched_at;
  last_error = t.last_error;
  patch_hash = t.patch_hash;
  wall_ms = t.wall_ms;
}

-- The INSERT fails where the new run has the row.
abbrev pub insert_row : Option Task → Key → Task → Table → Option Table
insert_row none k t d = some (insert k t d)
insert_row (some old) k t d = none

abbrev pub inherit : Option Task → Key → Table → Option Table
inherit none k d = some d
inherit (some t) k d = insert_row (lookup k d) k (inherited t) d

-- `copy_folded_tasks`; `none` is the IntegrityError that it does not catch.
unfoldable pub copy_folded_tasks : Text → Text → List Text → Table → Option Table
copy_folded_tasks old_run new_run [] d = some d
copy_folded_tasks old_run new_run (h ∷ hs) d = do
  copied ← inherit (folded_row (lookup (old_run, h) d)) (new_run, h) d
  copy_folded_tasks old_run new_run hs copied

-- `task_states`
abbrev pub task_states : Text → Table → Dict Text (Option TaskState × ℕ)
task_states run d = map (λ e. (e.0.1, (e.1.state, e.1.attempts))) (filterb (λ e. e.0.0 == run) d)

-- `task_rows`
abbrev pub task_rows : Text → Table → List (Text × Task)
task_rows run d = sort_by (λ r. r.0) (map (λ e. (e.0.1, e.1)) (filterb (λ e. e.0.0 == run) d))

-- A row of `snapshot_run`.
pub record Run : Type 0 where
  pub snapshot_id : Option Text
  pub partition_hash : Option Text
  pub status : Text
  pub started_at : Text
  pub finished_at : Option Text
  pub lessons_version : Option Text

abbrev pub Runs : Type 0
Runs = Dict Text Run

abbrev pub started : Option Text → Option Text → Text → Run
started snapshot_id partition_hash now = record {
  snapshot_id = snapshot_id;
  partition_hash = partition_hash;
  status = text "running";
  started_at = now;
  finished_at = none;
  lessons_version = none;
}

-- `begin_run`
abbrev pub begin_run : Text → Option Text → Option Text → Text → Runs → Runs
begin_run run snapshot_id partition_hash now runs =
    put_new (lookup run runs) run (started snapshot_id partition_hash now) runs

-- `finish_run`
abbrev pub finish_run : Text → Text → Text → Runs → Runs
finish_run run status now runs =
    update (λ row. record row { status = status; finished_at = some now }) run runs

-- `set_run_lessons_version`
abbrev pub set_run_lessons_version : Text → Option Text → Runs → Runs
set_run_lessons_version run version runs =
    update (λ row. record row { lessons_version = version }) run runs

-- `get_run`
abbrev pub get_run : Text → Runs → Option Run
get_run run runs = lookup run runs
