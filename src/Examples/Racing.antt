-- ===== src/Examples/Racing.antt =====
-- Three agents at one row: the first takes and renews a lease and stalls, the second reclaims what
-- has lapsed, the third takes the lease up.
use mathlib.Core.List.{Memᴰ}
use code_discovery_pyramid.Base.{
  ℕ, ◌≤◌, ◌≡◌, refl, sym, ap, ◌∙◌, subst, Bool, true, false, Option, none, some, List, [], ◌∷◌,
  ◌==◌, if◌then◌else◌, nat_eq, pair_eq, leb→le, some_inj,
}
use code_discovery_pyramid.Base.Dict.{lookup}
use code_discovery_pyramid.Base.Text.{Text, text, text_eq}
use code_discovery_pyramid.Supervisor.{dispatched}
use code_discovery_pyramid.TaskTable.{Task, Key, Table, set_state, new_task, expire, is_lapsed}
use code_discovery_pyramid.TaskTable.Races.{
  idle, missed, unseen, holding, reclaiming, World, after, Step, Steps, AllTimely, start,
}
use code_discovery_pyramid.TaskTable.Exclusion.{Live}
use code_discovery_pyramid.TaskTable.Statements.{Steps-Excludes}
use code_discovery_pyramid.TaskTable.Lock.{Lock, free, Simulates, Steps-Simulates}

abbrev the_key : Key
the_key = (text "r1", text "s1")

abbrev the_task : ℕ → Key
the_task a = the_key

abbrev leased_until : ℕ → Table
leased_until u = (the_key, new_task u) ∷ []

abbrev dispatched_row : Task
dispatched_row = record (new_task 90) { state = some dispatched }

abbrev dispatched_until : ℕ → Table
dispatched_until u = (the_key, record dispatched_row { lease_until = some u }) ∷ []

abbrev reclaimed_rows : Table
reclaimed_rows = (the_key, expire dispatched_row) ∷ []

abbrev taken_up_rows : Table
taken_up_rows = (the_key, record (expire dispatched_row) { lease_until = some 240 }) ∷ []

abbrev missed_world : World
missed_world = after (start []) [] 1 (missed 90)

abbrev unseen_world : World
unseen_world = after missed_world [] 1 (unseen 90)

abbrev leased_world : World
leased_world = after unseen_world (leased_until 90) 1 (holding 90)

abbrev dispatched_world : World
dispatched_world = record leased_world { table = dispatched_until 90 }

abbrev renewed_world : World
renewed_world = after dispatched_world (dispatched_until 120) 1 (holding 120)

abbrev late_world : World
late_world = record renewed_world { now = 150 }

abbrev selected_world : World
selected_world = after late_world (dispatched_until 120) 2 (reclaiming (text "r1") (text "s1" ∷ []))

abbrev reclaimed_world : World
reclaimed_world = after selected_world reclaimed_rows 2 idle

abbrev taken_up_world : World
taken_up_world = after reclaimed_world taken_up_rows 3 (holding 240)

miss_step : Step the_task (start []) missed_world
unfolding code_discovery_pyramid.Base.Dict.lookup code_discovery_pyramid.Base.Dict.insert
    code_discovery_pyramid.Base.Update.update code_discovery_pyramid.TaskTable.claim_lapsed
    code_discovery_pyramid.TaskTable.insert_claim code_discovery_pyramid.TaskTable.heartbeat_lease
    code_discovery_pyramid.TaskTable.update_each
miss_step = Step.miss 1 0 90 (leb→le 0 0 refl) refl refl

see_step : Step the_task missed_world unseen_world
unfolding code_discovery_pyramid.Base.Dict.lookup code_discovery_pyramid.Base.Dict.insert
    code_discovery_pyramid.Base.Update.update code_discovery_pyramid.TaskTable.claim_lapsed
    code_discovery_pyramid.TaskTable.insert_claim code_discovery_pyramid.TaskTable.heartbeat_lease
    code_discovery_pyramid.TaskTable.update_each
see_step = Step.see_none 1 refl refl

create_step : Step the_task unseen_world leased_world
unfolding code_discovery_pyramid.Base.Dict.lookup code_discovery_pyramid.Base.Dict.insert
    code_discovery_pyramid.Base.Update.update code_discovery_pyramid.TaskTable.claim_lapsed
    code_discovery_pyramid.TaskTable.insert_claim code_discovery_pyramid.TaskTable.heartbeat_lease
    code_discovery_pyramid.TaskTable.update_each
create_step = Step.create 1 refl

dispatch_step : Step the_task leased_world dispatched_world
unfolding code_discovery_pyramid.Base.Dict.lookup code_discovery_pyramid.Base.Dict.insert
    code_discovery_pyramid.Base.Update.update code_discovery_pyramid.TaskTable.claim_lapsed
    code_discovery_pyramid.TaskTable.insert_claim code_discovery_pyramid.TaskTable.heartbeat_lease
    code_discovery_pyramid.TaskTable.update_each code_discovery_pyramid.TaskTable.upsert_task
    code_discovery_pyramid.TaskTable.set_fields
dispatch_step = Step.upsert the_key (set_state dispatched ∷ [])

renew_step : Step the_task dispatched_world renewed_world
unfolding code_discovery_pyramid.Base.Dict.lookup code_discovery_pyramid.Base.Dict.insert
    code_discovery_pyramid.Base.Update.update code_discovery_pyramid.TaskTable.claim_lapsed
    code_discovery_pyramid.TaskTable.insert_claim code_discovery_pyramid.TaskTable.heartbeat_lease
    code_discovery_pyramid.TaskTable.update_each
renew_step = Step.heartbeat 1 0 120 (leb→le 0 0 refl) refl

wait_step : Step the_task renewed_world late_world
wait_step = Step.wait 150 (leb→le 0 150 refl)

select_step : Step the_task late_world selected_world
select_step = Step.select_stale 2 150 (text "r1") (leb→le 150 150 refl) refl

expire_step : Step the_task selected_world reclaimed_world
unfolding code_discovery_pyramid.Base.Dict.lookup code_discovery_pyramid.Base.Dict.insert
    code_discovery_pyramid.Base.Update.update code_discovery_pyramid.TaskTable.claim_lapsed
    code_discovery_pyramid.TaskTable.insert_claim code_discovery_pyramid.TaskTable.heartbeat_lease
    code_discovery_pyramid.TaskTable.update_each
expire_step = Step.expire_selected 2 refl

take_step : Step the_task reclaimed_world taken_up_world
unfolding code_discovery_pyramid.Base.Dict.lookup code_discovery_pyramid.Base.Dict.insert
    code_discovery_pyramid.Base.Update.update code_discovery_pyramid.TaskTable.claim_lapsed
    code_discovery_pyramid.TaskTable.insert_claim code_discovery_pyramid.TaskTable.heartbeat_lease
    code_discovery_pyramid.TaskTable.update_each
take_step = Step.claim 3 150 90 (leb→le 150 150 refl) refl refl

handed_over : Steps the_task (start []) taken_up_world
handed_over = Steps.next miss_step (
    Steps.next see_step (
      Steps.next create_step (
        Steps.next dispatch_step (
          Steps.next renew_step (
            Steps.next wait_step (
              Steps.next select_step
                (Steps.next expire_step (Steps.next take_step Steps.done))))))))

selected_lapsed :
    (j : Text) (t : Task)
    → Memᴰ j (text "s1" ∷ [])
    → lookup (text "r1", j) (dispatched_until 120) ≡ some t
    → is_lapsed 150 t.lease_until ≡ true
unfolding code_discovery_pyramid.Base.Dict.lookup
selected_lapsed j t (Memᴰ.head e) h =
    ap (λ (z : Task). is_lapsed 150 z.lease_until)
      (some_inj
        (sym (subst (λ z. lookup (text "r1", z) (dispatched_until 120) ≡ some t) e h) ∙ there))
  where
    there :
        lookup the_key (dispatched_until 120)
        ≡ some (record dispatched_row { lease_until = some 120 })
    there = refl
selected_lapsed j t (Memᴰ.tail m) h = elim m [ ]

handed_over_timely : AllTimely the_task handed_over
unfolding handed_over miss_step see_step create_step dispatch_step renew_step wait_step select_step
    expire_step take_step
handed_over_timely =
    (tt, (tt, (tt, (tt, (leb→le 0 90 refl, (tt, (tt, (selected_lapsed, (tt, tt)))))))))

lives : Live taken_up_world 3 240
lives = (refl, leb→le 150 240 refl)

Steps-Excludes_example : Path ℕ 3 3
Steps-Excludes_example =
    Steps-Excludes the_task {table = []} {w = taken_up_world} tt handed_over handed_over_timely 3 3
      240 240 lives lives refl

Steps-Simulates_example :
    (l : Lock) × Simulates the_task the_key (start []) taken_up_world handed_over free l
Steps-Simulates_example =
    Steps-Simulates the_task the_key {table = []} {w = taken_up_world} tt handed_over
      handed_over_timely
