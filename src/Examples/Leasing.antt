-- ===== src/Examples/Leasing.antt =====
-- The rows of a run that another takes up.
use mathlib.Core.Option
use mathlib.Core.List.{Memᴰ}
use code_discovery_pyramid.Base.{
  ℕ, ◌≡◌, ◌≢◌, inl, inr, ==_false→ne, subst, ◌∙◌, refl, sym, ap, Bool, true, false, Option, none,
  some, List, [], ◌∷◌, arith, leb→le, Bool-cases, ◌==◌, nat_eq, pair_eq, if◌then◌else◌,
}
use code_discovery_pyramid.Base.Dict.{lookup, keys}
use code_discovery_pyramid.Base.Sorting.{IsNodup}
use code_discovery_pyramid.Base.Text.{Text, text, text_eq}
use code_discovery_pyramid.Supervisor.{dispatched, folded}
use code_discovery_pyramid.TaskTable.{
  Task, Key, Table, blank_task, acquire_lease, reclaim_expired, copy_folded_tasks,
}
use code_discovery_pyramid.TaskTable.Rows.{Claims, acquire_lease-Claims}
use code_discovery_pyramid.TaskTable.Resume.{
  reclaimed, reclaim_expired-reclaimed, Copies, copy_folded_tasks-Copies,
}

abbrev lapsed_row : Task
lapsed_row = record blank_task { state = some dispatched; attempts = 1; lease_until = some 90 }

abbrev folded_row : Task
folded_row = record blank_task { state = some folded; attempts = 2 }

abbrev the_rows : Table
the_rows = ((text "r1", text "s1"), lapsed_row) ∷ ((text "r1", text "s2"), folded_row) ∷ []

rows_distinct : IsNodup (keys the_rows)
rows_distinct = ((λ y m. apart y m), ((λ y m. elim m [ ]), tt))
  where
    apart : (y : Key) → Memᴰ y ((text "r1", text "s2") ∷ []) → (text "r1", text "s1") ≢ y
    apart y (Memᴰ.head e) h =
        ==_false→ne (text "s1") (text "s2") refl (ap (λ (z : Key). z.1) (h ∙ e))
    apart y (Memᴰ.tail m) h = elim m [ ]

acquire_lease-Claims_example :
    Claims 100 190
      (text "r1", text "s1")
      the_rows
      (acquire_lease 100 90 (text "r1", text "s1") the_rows)
acquire_lease-Claims_example = acquire_lease-Claims 100 90 (text "r1", text "s1") the_rows

reclaim_expired-reclaimed_example :
    lookup (text "r1", text "s1") (reclaim_expired 100 (text "r1") the_rows).1
    ≡ Option.map
        (reclaimed 100 (text "r1") (text "r1", text "s1"))
        (lookup (text "r1", text "s1") the_rows)
reclaim_expired-reclaimed_example =
    reclaim_expired-reclaimed 100 (text "r1") the_rows rows_distinct (text "r1", text "s1")

second_missing : lookup (text "r2", text "s2") the_rows ≡ none
unfolding code_discovery_pyramid.Base.Dict.lookup code_discovery_pyramid.Base.Dict.insert
    code_discovery_pyramid.Base.Dict.push code_discovery_pyramid.Base.Dict.group_into
second_missing = refl

not_begun : (h : Text) → Memᴰ h (text "s2" ∷ []) → lookup (text "r2", h) the_rows ≡ none
not_begun h (Memᴰ.head e) =
    subst (λ z. lookup (text "r2", z) the_rows ≡ none) (sym e) second_missing
not_begun h (Memᴰ.tail m) = elim m [ ]

copy_folded_tasks-Copies_example :
    (copied : Table) × (copy_folded_tasks (text "r1") (text "r2") (text "s2" ∷ []) the_rows
      ≡ some copied)
    × Copies (text "r1") (text "r2") (text "s2" ∷ []) the_rows copied
copy_folded_tasks-Copies_example =
    copy_folded_tasks-Copies (text "r1") (text "r2") (==_false→ne (text "r1") (text "r2") refl)
      (text "s2" ∷ []) ((λ y m. elim m [ ]), tt) the_rows not_begun
