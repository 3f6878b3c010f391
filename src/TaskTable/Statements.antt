-- ===== src/TaskTable/Statements.antt =====
-- cdp/store/sqlite_backend.py: what each statement does to the leases.
use mathlib.Core.Option
use mathlib.Core.List.{Memᴰ}
use code_discovery_pyramid.Base.{
  ℕ, ◌+◌, ◌≤◌, ◌≡◌, ◌≢◌, refl, sym, ap, ◌∙◌, subst, inl, inr, true, Option, none, some, List, ◌==◌,
  arith, Bool-cases, nat_eq, pair_eq, some_inj, ==→eq, ne→==_false,
}
use code_discovery_pyramid.Base.Dict.{
  keys, lookup, insert, lookup-insert_self, lookup-insert_ne, keys-insert-IsNodup,
}
use code_discovery_pyramid.Base.Index.{none≢some}
use code_discovery_pyramid.Base.Sorting.{IsNodup}
use code_discovery_pyramid.Base.Update.{update, lookup-update_self, lookup-update_ne, keys-update}
use code_discovery_pyramid.Base.Text.{Text, text_eq}
use code_discovery_pyramid.TaskTable.{
  Task, Key, Table, Field, set_fields, blank_task, upsert_found, upsert_task, is_lapsed, with_lease,
  claim_lapsed, new_task, insert_found, insert_claim, heartbeat_lease, release_lease, expire,
  update_each, stale_hashes,
}
use code_discovery_pyramid.TaskTable.Rows.{claim_lapsed-some}
use code_discovery_pyramid.TaskTable.Races.{
  Phase, idle, missed, unseen, holding, World, after, inserted, reclaiming, Step, Steps, IsTimely,
  AllTimely, start,
}
use code_discovery_pyramid.TaskTable.Exclusion.{
  Leased, Live, IsExclusive, Moves, rests, Change, Change-IsExclusive,
}
use code_discovery_pyramid.TaskTable.Fields.{
  deadline, set_fields-lease_until, keys-update_each, lookup-update_each,
}

module _ (task_of : ℕ → Key) where
  module _ {w : World} (i : IsExclusive task_of w) where
    -- A row whose lease is free, or lapsed at a time that has come, is held by nobody.
    nobody :
        (k : Key) (t : ℕ) (row : Task)
        → t ≤ w.now
        → lookup k w.table ≡ some row
        → is_lapsed t row.lease_until ≡ true
        → (b v : ℕ) → Live w b v
        → task_of b ≡ k
        → ⊥
    nobody k t row early found lapsed b v l e =
        let (r, q, s) = subst (λ z. Leased z v w.table) e (i.leased b v l) in
        late v l.1
          (ap (is_lapsed t) (ap (λ (z : Task). z.lease_until) (some_inj (sym found ∙ q)) ∙ s))
      where
        late : (v : ℕ) → w.now ≤ v → is_lapsed t row.lease_until ≡ is_lapsed t (some v) → ⊥
        late v h k = ended (sym lapsed ∙ k) h
          where
            ended : true ≡ is_lapsed t (some v) → w.now ≤ v → ⊥
            ended h k = ground arith

    -- A row that is not there is held by nobody.
    nobody_new : (k : Key) → lookup k w.table ≡ none → (b v : ℕ) → Live w b v → task_of b ≡ k → ⊥
    nobody_new k missing b v l e =
        let (r, q, s) = subst (λ z. Leased z v w.table) e (i.leased b v l) in
        none≢some (sym missing ∙ q)

    -- The lease of an agent's own row is written where nobody else holds it.
    writes :
        (a : ℕ) (lease : Option ℕ) (p : Phase) (row : Task)
        → lookup (task_of a) w.table ≡ some row
        → ((b v : ℕ) → b ≢ a → Live w b v → task_of b ≡ task_of a → ⊥)
        → ((u : ℕ) → p ≡ holding u → lease ≡ some u)
        → Moves task_of w (update (with_lease lease) (task_of a) w.table) a p
    writes a lease p row found empty written = record {
      distinct =
          subst IsNodup (sym (keys-update (with_lease lease) (task_of a) w.table)) i.distinct;
      others = λ j h. lookup-update_ne (with_lease lease) (task_of a) j w.table h;
      rest = λ b v n l e. absurd (empty b v n l e);
      mine = λ u h l. (
        with_lease lease row,
        lookup-update_self (with_lease lease) (task_of a) w.table
            ∙ ap (Option.map (with_lease lease)) found,
        written u h,
      );
      only = λ u h. empty;
    }

    idle_free : (u : ℕ) → idle ≡ holding u → ⊥
    idle_free u h = ground arith

    fresh :
        (until a : ℕ)
        → lookup (task_of a) w.table ≡ none
        → Moves task_of w (insert (task_of a) (new_task until) w.table) a (holding until)
    fresh until a e = record {
      distinct = keys-insert-IsNodup (task_of a) (new_task until) w.table i.distinct;
      others = λ j h. lookup-insert_ne (task_of a) j (new_task until) w.table h;
      rest = λ b v n l q. absurd (nobody_new (task_of a) e b v l q);
      mine = λ u h l. (
        new_task until,
        lookup-insert_self (task_of a) (new_task until) w.table,
        ap some (deadline h),
      );
      only = λ u h b v n l q. nobody_new (task_of a) e b v l q;
    }

    claims :
        (a t seconds : ℕ) {changed : Table}
        → t ≤ w.now
        → claim_lapsed t (t + seconds) (task_of a) w.table ≡ some changed
        → Change task_of w (after w changed a (holding (t + seconds)))
    claims a t seconds early h =
        let (row, found, lapsed, same) = claim_lapsed-some t (t + seconds) (task_of a) w.table h in
        subst (λ z. Change task_of w (after w z a (holding (t + seconds)))) (sym same)
          (Change.acts _ a _ (
            writes a (some (t + seconds)) (holding (t + seconds)) row found
              (λ b v n l e. nobody (task_of a) t row early found lapsed b v l e)
              (λ u h. ap some (deadline h))))

    creates :
        (a until : ℕ)
        → Change task_of w (
            after w
              (insert_claim until (task_of a) w.table).1
              a
              (inserted until (insert_claim until (task_of a) w.table).0))
    unfolding insert_claim
    creates a until = by_row (lookup (task_of a) w.table) refl
      where
        by_row :
            (o : Option Task)
            → lookup (task_of a) w.table ≡ o
            → Change task_of w (
                after w (insert_found until (task_of a) w.table (lookup (task_of a) w.table)).1 a (
                  inserted until
                    (insert_found until (task_of a) w.table (lookup (task_of a) w.table)).0))
        by_row none e =
            subst
              (λ o. Change task_of w (
                after w (insert_found until (task_of a) w.table o).1 a
                  (inserted until (insert_found until (task_of a) w.table o).0)))
              (sym e) (Change.acts _ a _ (fresh until a e))
        by_row (some t) e =
            subst
              (λ o. Change task_of w (
                after w (insert_found until (task_of a) w.table o).1 a
                  (inserted until (insert_found until (task_of a) w.table o).0)))
              (sym e) (Change.acts _ a _ (rests task_of i a idle idle_free))

    heartbeats :
        (a t seconds until : ℕ)
        → w.phase a ≡ holding until
        → w.now ≤ until
        → Change task_of w
            (after w (heartbeat_lease t seconds (task_of a) w.table) a (holding (t + seconds)))
    unfolding heartbeat_lease
    heartbeats a t seconds until h l =
        let (row, found, r) = i.leased a until (h, l) in
        Change.acts _ a _ (
          writes a (some (t + seconds)) (holding (t + seconds)) row found
            (λ b v n k e. n (i.alone b a v until k (h, l) e)) (λ u q. ap some (deadline q)))

    releases :
        (a until : ℕ)
        → w.phase a ≡ holding until
        → w.now ≤ until
        → Change task_of w (after w (release_lease (task_of a) w.table) a idle)
    unfolding release_lease
    releases a until h l =
        let (row, found, r) = i.leased a until (h, l) in
        Change.acts _ a _ (
          writes a none idle row found (λ b v n k e. n (i.alone b a v until k (h, l) e))
            (λ u q. absurd (idle_free u q)))

    upserts :
        (k : Key) (fields : List Field)
        → Change task_of w (record w { table = upsert_task k fields w.table })
    unfolding upsert_task
    upserts k fields = by_row (lookup k w.table) refl
      where
        by_row :
            (o : Option Task)
            → lookup k w.table ≡ o
            → Change task_of w
                (record w { table = upsert_found (lookup k w.table) k fields w.table })
        by_row none e =
            subst (λ o. Change task_of w (record w { table = upsert_found o k fields w.table }))
              (sym e)
              (Change.settles (insert k (set_fields fields blank_task) w.table)
                (keys-insert-IsNodup k _ w.table i.distinct)
                (λ j u l (t, q, r). (
                  t,
                  lookup-insert_ne k j (set_fields fields blank_task) w.table (
                        ne→==_false j k
                          (λ g. none≢some (sym e ∙ sym (ap (λ z. lookup z w.table) g) ∙ q)))
                      ∙ q,
                  r,
                )))
        by_row (some old) e =
            subst (λ o. Change task_of w (record w { table = upsert_found o k fields w.table }))
              (sym e)
              (Change.settles (update (set_fields fields) k w.table)
                (subst IsNodup (sym (keys-update (set_fields fields) k w.table)) i.distinct)
                (λ j u l g. kept j u g))
          where
            kept :
                (j : Key) (u : ℕ)
                → Leased j u w.table
                → Leased j u (update (set_fields fields) k w.table)
            kept j u (t, q, r) = elim (Bool-cases (j == k)) [
              | inl g ↦
                  subst (λ z. Leased z u (update (set_fields fields) k w.table)) (sym (==→eq j k g))
                    (
                      set_fields fields t,
                      lookup-update_self (set_fields fields) k w.table
                          ∙ ap (Option.map (set_fields fields))
                              (sym (ap (λ z. lookup z w.table) (==→eq j k g)) ∙ q),
                      set_fields-lease_until fields t ∙ r,
                    )
              | inr g ↦ (t, lookup-update_ne (set_fields fields) k j w.table g ∙ q, r)
            ]

    -- The rows that are expired have no live lease.
    expires :
        (a : ℕ) (run : Text) (hashes : List Text)
        → ((j : Text) (t : Task)
            → Memᴰ j hashes
            → lookup (run, j) w.table ≡ some t
            → is_lapsed w.now t.lease_until ≡ true)
        → Change task_of w (after w (update_each expire run hashes w.table) a idle)
    expires a run hashes lapsed =
        Change.clears (update_each expire run hashes w.table) a idle
          (subst IsNodup (sym (keys-update_each expire run hashes w.table)) i.distinct)
          (λ k u l (row, q, r). (
            row,
            lookup-update_each expire run k hashes w.table (λ j m e.
                  live u row.lease_until l r
                    (lapsed j row m (sym (ap (λ z. lookup z w.table) e) ∙ q)))
                ∙ q,
            r,
          ))
          idle_free
      where
        live :
            (u : ℕ) (lease : Option ℕ)
            → w.now ≤ u
            → lease ≡ some u
            → is_lapsed w.now lease ≡ true
            → ⊥
        live u lease l e h = ended (sym (ap (is_lapsed w.now) e) ∙ h)
          where
            ended : is_lapsed w.now (some u) ≡ true → ⊥
            ended q = ground arith

  -- What each statement does.
  pub Step-Change :
      {u w : World}
      → IsExclusive task_of u
      → (s : Step task_of u w) → IsTimely task_of s
      → Change task_of u w
  Step-Change i (Step.wait later h) t = Change.waits later h
  Step-Change i (Step.claim a t seconds early h changed) l = claims i a t seconds early changed
  Step-Change i (Step.miss a t seconds early h same) l =
      Change.acts _ a _ (rests task_of i a (missed (t + seconds)) (λ u q. ground arith))
  Step-Change i (Step.see a h found) l = Change.acts _ a _ (rests task_of i a idle (idle_free i))
  Step-Change i (Step.see_none {until} a h missing) l =
      Change.acts _ a _ (rests task_of i a (unseen until) (λ u q. ground arith))
  Step-Change i (Step.create {until} a h) l = creates i a until
  Step-Change i (Step.heartbeat {until} a t seconds early h) l = heartbeats i a t seconds until h l
  Step-Change i (Step.release {until} a h) l = releases i a until h l
  Step-Change i (Step.die a) l = Change.acts _ a _ (rests task_of i a idle (idle_free i))
  Step-Change i (Step.upsert k fields) l = upserts i k fields
  Step-Change i (Step.select_stale a t run early h) l =
      Change.acts _ a _
        (rests task_of i a (reclaiming run (stale_hashes t run _)) (λ u q. ground arith))
  Step-Change i (Step.expire_selected {run} {hashes} a h) l = expires i a run hashes l

  pub start-IsExclusive : (table : Table) → IsNodup (keys table) → IsExclusive task_of (start table)
  start-IsExclusive table n = record {
    distinct = n;
    leased = λ a u l. absurd (free u l.0);
    alone = λ a b u v l k e. absurd (free u l.0);
  }
    where
      free : (u : ℕ) → idle ≡ holding u → ⊥
      free u h = ground arith

  pub Steps-IsExclusive :
      {u w : World} (s : Steps task_of u w)
      → AllTimely task_of s
      → IsExclusive task_of u
      → IsExclusive task_of w
  Steps-IsExclusive Steps.done t i = i
  Steps-IsExclusive (Steps.next s r) t i =
      Steps-IsExclusive r t.1 (Change-IsExclusive task_of i (Step-Change i s t.0))

  -- However the statements of the supervisors interleave, from any table with one row for each task
  -- and nobody at work, two agents that hold live leases on one task are one agent, provided that
  -- each heartbeat and each release comes while the agent's own lease is live and that no row that
  -- a `reclaim_expired` has selected has a live lease when it is expired.
  pub Steps-Excludes :
      {table : Table} {w : World}
      → IsNodup (keys table)
      → (s : Steps task_of (start table) w) → AllTimely task_of s
      → (a b u v : ℕ) → Live w a u
      → Live w b v
      → task_of a ≡ task_of b
      → a ≡ b
  Steps-Excludes {table} n s t = (Steps-IsExclusive s t (start-IsExclusive table n)).alone
