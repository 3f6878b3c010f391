-- ===== src/TaskTable/Races.antt =====
-- cdp/store/sqlite_backend.py: several supervisors on one table, statement by statement. An agent is
-- one call of `dispatch_scope`, which works on one row, or of `reclaim_expired`, in whichever process.
use mathlib.Core.List.{Memᴰ}
use code_discovery_pyramid.Base.{
  ℕ, ◌+◌, ◌≤◌, ◌≡◌, ◌≢◌, Bool, true, false, none, some, List, ◌==◌, if◌then◌else◌, nat_eq, pair_eq,
}
use code_discovery_pyramid.Base.Dict.{lookup}
use code_discovery_pyramid.Base.Text.{Text, text_eq}
use code_discovery_pyramid.TaskTable.{
  Task, Key, Table, Field, upsert_task, claim_lapsed, insert_claim, heartbeat_lease, release_lease,
  is_lapsed, expire, update_each, stale_hashes,
}

-- Where an agent stands in `_acquire_lease`, with the deadline that it writes, or in
-- `reclaim_expired`.
pub data Phase : Type 0 where
  idle : Phase
  -- the UPDATE has changed no row
  missed : (until : ℕ) → Phase
  -- the SELECT has found no row
  unseen : (until : ℕ) → Phase
  holding : (until : ℕ) → Phase
  -- the SELECT of `reclaim_expired` has found these hashes
  reclaiming : (run : Text) (hashes : List Text) → Phase

pub record World : Type 0 where
  pub now : ℕ
  pub table : Table
  pub phase : ℕ → Phase

abbrev pub set_phase : ℕ → Phase → (ℕ → Phase) → ℕ → Phase
set_phase a p phase b = if b == a then p else phase b

abbrev pub after : World → Table → ℕ → Phase → World
after w table a p = record { now = w.now; table = table; phase = set_phase a p w.phase }

-- The step of an agent after its INSERT.
abbrev pub inserted : ℕ → Bool → Phase
inserted until true = holding until
inserted until false = idle

module _ (task_of : ℕ → Key) where
  -- A step of the system. A statement may use a reading `t` of the clock that is older than the
  -- time at which it runs. A heartbeat or a release does not look at who holds the row.
  pub data Step : World → World → Type 0 where
    wait : {w : World} (later : ℕ) → w.now ≤ later → Step w (record w { now = later })
    claim :
        {w : World} {changed : Table} (a t seconds : ℕ)
        → t ≤ w.now
        → w.phase a ≡ idle
        → claim_lapsed t (t + seconds) (task_of a) w.table ≡ some changed
        → Step w (after w changed a (holding (t + seconds)))
    miss :
        {w : World} (a t seconds : ℕ)
        → t ≤ w.now
        → w.phase a ≡ idle
        → claim_lapsed t (t + seconds) (task_of a) w.table ≡ none
        → Step w (after w w.table a (missed (t + seconds)))
    see :
        {w : World} {until : ℕ} (a : ℕ)
        → w.phase a ≡ missed until
        → lookup (task_of a) w.table ≢ none
        → Step w (after w w.table a idle)
    see_none :
        {w : World} {until : ℕ} (a : ℕ)
        → w.phase a ≡ missed until
        → lookup (task_of a) w.table ≡ none
        → Step w (after w w.table a (unseen until))
    create :
        {w : World} {until : ℕ} (a : ℕ)
        → w.phase a ≡ unseen until
        → Step w (
            after w
              (insert_claim until (task_of a) w.table).1
              a
              (inserted until (insert_claim until (task_of a) w.table).0))
    heartbeat :
        {w : World} {until : ℕ} (a t seconds : ℕ)
        → t ≤ w.now
        → w.phase a ≡ holding until
        → Step w (after w (heartbeat_lease t seconds (task_of a) w.table) a (holding (t + seconds)))
    release :
        {w : World} {until : ℕ} (a : ℕ)
        → w.phase a ≡ holding until
        → Step w (after w (release_lease (task_of a) w.table) a idle)
    die : {w : World} (a : ℕ) → Step w (after w w.table a idle)
    upsert :
        {w : World} (k : Key) (fields : List Field)
        → Step w (record w { table = upsert_task k fields w.table })
    select_stale :
        {w : World} (a t : ℕ) (run : Text)
        → t ≤ w.now
        → w.phase a ≡ idle
        → Step w (after w w.table a (reclaiming run (stale_hashes t run w.table)))
    expire_selected :
        {w : World} {run : Text} {hashes : List Text} (a : ℕ)
        → w.phase a ≡ reclaiming run hashes
        → Step w (after w (update_each expire run hashes w.table) a idle)

  pub data Steps : World → World → Type 0 where
    done : {w : World} → Steps w w
    next : {u v w : World} → Step u v → Steps v w → Steps u w

  -- A heartbeat or a release comes while the agent's own lease is live, and the rows that
  -- `reclaim_expired` has selected have no live lease when it expires them.
  abbrev pub IsTimely : {u w : World} → Step u w → Type 0
  IsTimely (Step.heartbeat {w} {until} a t seconds early h) = w.now ≤ until
  IsTimely (Step.release {w} {until} a h) = w.now ≤ until
  IsTimely (Step.expire_selected {w} {run} {hashes} a h) =
      (j : Text) (t : Task)
      → Memᴰ j hashes
      → lookup (run, j) w.table ≡ some t
      → is_lapsed w.now t.lease_until ≡ true
  IsTimely _ = Unit

  abbrev pub AllTimely : {u w : World} → Steps u w → Type 0
  AllTimely Steps.done = Unit
  AllTimely (Steps.next s r) = IsTimely s × AllTimely r

-- Nobody has begun.
abbrev pub start : Table → World
start table = record { now = 0; table = table; phase = λ a. idle }
