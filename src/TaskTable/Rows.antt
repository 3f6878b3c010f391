-- ===== src/TaskTable/Rows.antt =====
-- cdp/store/sqlite_backend.py: what `_acquire_lease` grants.
use mathlib.Core.Option
use code_discovery_pyramid.Base.{
  ℕ, ◌+◌, ◌≡◌, refl, sym, ap, ◌∙◌, inl, inr, Bool, true, false, Option, none, some, ◌==◌,
  if◌then◌else◌, Bool-cases, pair_eq, some_inj,
}
use code_discovery_pyramid.Base.Dict.{lookup, insert, lookup-insert_self, lookup-insert_ne}
use code_discovery_pyramid.Base.Index.{none≢some}
use code_discovery_pyramid.Base.Update.{update, lookup-update_self, lookup-update_ne}
use code_discovery_pyramid.Base.Text.{text_eq}
use code_discovery_pyramid.TaskTable.{
  Task, Key, Table, is_lapsed, with_lease, claim_found, claim_lapsed, new_task, insert_claim,
  claim_next, acquire_lease,
}

-- The row of a task that has no live lease, once it is claimed; `none` where its lease is live.
abbrev pub claimed_row : ℕ → ℕ → Option Task → Option Task
claimed_row now until none = some (new_task until)
claimed_row now until (some t) =
    if is_lapsed now t.lease_until then some (with_lease (some until) t) else none

-- What a claim returns and does.
pub data Claims (now until : ℕ) (k : Key) (d : Table) : Bool × Table → Type 0 where
  denied : claimed_row now until (lookup k d) ≡ none → Claims now until k d (false, d)
  granted :
      (t : Task) (changed : Table)
      → claimed_row now until (lookup k d) ≡ some t
      → lookup k changed ≡ some t
      → ((j : Key) → (j == k) ≡ false → lookup j changed ≡ lookup j d)
      → Claims now until k d (true, changed)

-- The lease is granted exactly where there is no row, or its lease is free or lapsed. Then the row
-- is leased until the deadline and no other row changes; where it is denied nothing changes.
pub acquire_lease-Claims :
    (now seconds : ℕ) (k : Key) (d : Table)
    → Claims now (now + seconds) k d (acquire_lease now seconds k d)
unfolding acquire_lease claim_lapsed insert_claim
acquire_lease-Claims now seconds k d = by_row (lookup k d) refl
  where
    until : ℕ
    until = now + seconds

    by_row :
        (o : Option Task)
        → lookup k d ≡ o
        → Claims now until k d (claim_next until k d (claim_found now until k d (lookup k d)))
    by_row none e =
        rw (e, e, e)
          (Claims.granted (new_task until) (insert k (new_task until) d)
            (ap (claimed_row now until) e) (lookup-insert_self k (new_task until) d)
            (λ j h. lookup-insert_ne k j (new_task until) d h))
    by_row (some t) e = elim (Bool-cases (is_lapsed now t.lease_until)) [
      | inl lapsed ↦
          rw (e, lapsed)
            (Claims.granted (with_lease (some until) t) (update (with_lease (some until)) k d)
              (rw (e, lapsed) refl)
              (lookup-update_self (with_lease (some until)) k d
                ∙ ap (Option.map (with_lease (some until))) e)
              (λ j h. lookup-update_ne (with_lease (some until)) k j d h))
      | inr live ↦ rw (e, live, e) (Claims.denied (rw (e, live) refl))
    ]

-- Where the UPDATE changes a row, the row was there and its lease was free or lapsed.
pub claim_lapsed-some :
    (now until : ℕ) (k : Key) (d : Table) {changed : Table}
    → claim_lapsed now until k d ≡ some changed
    → (t : Task) × (lookup k d ≡ some t)
      × (is_lapsed now t.lease_until ≡ true)
      × (changed ≡ update (with_lease (some until)) k d)
unfolding claim_lapsed
claim_lapsed-some now until k d {changed} h = by_row (lookup k d) refl
  where
    by_row :
        (o : Option Task)
        → lookup k d ≡ o
        → (t : Task) × (lookup k d ≡ some t)
          × (is_lapsed now t.lease_until ≡ true)
          × (changed ≡ update (with_lease (some until)) k d)
    by_row none e = absurd (none≢some (sym (ap (claim_found now until k d) e) ∙ h))
    by_row (some t) e = elim (Bool-cases (is_lapsed now t.lease_until)) [
      | inl lapsed ↦ (t, e, lapsed, some_inj (sym (rw (e, lapsed) at h)))
      | inr live ↦ absurd (none≢some (rw (e, live) at h))
    ]
