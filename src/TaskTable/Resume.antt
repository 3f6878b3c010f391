-- ===== src/TaskTable/Resume.antt =====
-- cdp/store/sqlite_backend.py: what `reclaim_expired` and `copy_folded_tasks` leave.
use mathlib.Core.Option
use mathlib.Core.List.Memᴰ
use mathlib.Core.List.{Memᴰ}
use code_discovery_pyramid.Base.{
  ℕ, ◌≡◌, ◌≢◌, refl, sym, ap, ap₂, ◌∙◌, subst, inl, inr, Bool, true, false, ◌&&◌, Option, none,
  some, List, [], ◌∷◌, ◌==◌, if◌then◌else◌, arith, Bool-cases, filterb, contains, contains→Memᴰ,
  Memᴰ→contains, some_inj, nat_eq, pair_eq, ==→eq, ==_false→ne, ne→==_false, Memᴰ-of_filterb,
  Memᴰ-filterb,
}
use code_discovery_pyramid.Base.Dict.{keys, lookup, insert, lookup-insert_self, lookup-insert_ne}
use code_discovery_pyramid.Base.Best.{Memᴰ-lookup, lookup-Memᴰ}
use code_discovery_pyramid.Base.Sorting.{IsNodup}
use code_discovery_pyramid.Base.Index.{none≢some}
use code_discovery_pyramid.Base.Update.{update, lookup-update_self, lookup-update_ne}
use code_discovery_pyramid.Base.Text.{Text, text_eq}
use code_discovery_pyramid.TaskTable.{
  Task, Key, Table, is_stale, expire, update_each, stale_hashes, reclaim_expired, folded_row,
  inherited, insert_row, inherit, copy_folded_tasks,
}
use code_discovery_pyramid.TaskTable.Fields.{lookup-update_each}

-- A row named once or more is expired once.
lookup-update_each_in :
    (run h : Text) (hs : List Text) (d : Table)
    → Memᴰ h hs
    → lookup (run, h) (update_each expire run hs d) ≡ Option.map expire (lookup (run, h) d)
unfolding update_each
lookup-update_each_in run h [] d m = elim m [ ]
lookup-update_each_in run h (j ∷ hs) d m = elim (Bool-cases (h == j)) [
  | inl e ↦ elim (Bool-cases (contains h hs)) [
    | inl again ↦
        lookup-update_each_in run h hs (update expire (run, j) d) (contains→Memᴰ h hs again)
        ∙ ap (Option.map expire) (here (==→eq h j e))
        ∙ twice (lookup (run, h) d)
    | inr last ↦
        lookup-update_each expire run (run, h) hs (update expire (run, j) d)
          (λ i k q. unlisted last (subst (λ z. Memᴰ z hs) (sym (ap (λ (z : Key). z.1) q)) k))
        ∙ here (==→eq h j e)
  ]
  | inr n ↦
      lookup-update_each_in run h hs (update expire (run, j) d) (later (==_false→ne h j n) m)
      ∙ ap (Option.map expire) (
          lookup-update_ne expire (run, j) (run, h) d
            (ne→==_false (the_key h) (the_key j)
              (λ q. ==_false→ne h j n (ap (λ (z : Key). z.1) q))))
]
  where
    the_key : Text → Key
    the_key i = (run, i)

    twice : (o : Option Task) → Option.map expire (Option.map expire o) ≡ Option.map expire o
    twice none = refl
    twice (some t) = refl

    here :
        h ≡ j → lookup (run, h) (update expire (run, j) d) ≡ Option.map expire (lookup (run, h) d)
    here e =
        subst
          (λ i. lookup (run, h) (update expire (run, i) d) ≡ Option.map expire (lookup (run, h) d))
          e (lookup-update_self expire (run, h) d)

    later : h ≢ j → Memᴰ h (j ∷ hs) → Memᴰ h hs
    later n (Memᴰ.head e) = absurd (n e)
    later n (Memᴰ.tail k) = k

    unlisted : contains h hs ≡ false → Memᴰ h hs → ⊥
    unlisted f k = clash _ (Memᴰ→contains k) f
      where
        clash : (b : Bool) → b ≡ true → b ≡ false → ⊥
        clash b p q = ground arith

-- A stale row of the run stands behind each hash that is listed.
stale_row :
    (now : ℕ) (run : Text) (d : Table)
    → IsNodup (keys d)
    → (h : Text) → Memᴰ h (stale_hashes now run d)
    → (t : Task) × (lookup (run, h) d ≡ some t) × (is_stale now run ((run, h), t) ≡ true)
stale_row now run d n h m =
    let (((r, j), t), a, q) =
      Memᴰ.of_map (λ (z : Key × Task). z.0.1) (filterb (is_stale now run) d) m in
    let (b, stale) = Memᴰ-of_filterb (is_stale now run) d a in
    let same = ap₂ (λ (x y : Text). (x, y)) (==→eq r run (first (r == run) _ stale)) q in
    (
      t,
      ap (λ z. lookup z d) (sym same) ∙ Memᴰ-lookup (r, j) d n b,
      ap (λ z. is_stale now run (z, t)) (sym same) ∙ stale,
    )
  where
    first : (a b : Bool) → (a && b) ≡ true → a ≡ true
    first a b q = ground arith

-- A row of the table, after `reclaim_expired`.
abbrev pub reclaimed : ℕ → Text → Key → Task → Task
reclaimed now run k t = if is_stale now run (k, t) then expire t else t

-- In a table with one row for each task, exactly the dispatched rows of the run whose lease is free
-- or lapsed become expired and lose their lease; every other row stays as it is.
pub reclaim_expired-reclaimed :
    (now : ℕ) (run : Text) (d : Table)
    → IsNodup (keys d)
    → (k : Key)
    → lookup k (reclaim_expired now run d).1 ≡ Option.map (reclaimed now run k) (lookup k d)
unfolding reclaim_expired
reclaim_expired-reclaimed now run d n (r, h) = by_row (lookup (r, h) d) refl
  where
    listed :
        (t : Task)
        → lookup (r, h) d ≡ some t
        → is_stale now run ((r, h), t) ≡ true
        → Memᴰ h (stale_hashes now run d)
    listed t found stale =
        Memᴰ.map (λ (z : Key × Task). z.0.1)
          (Memᴰ-filterb (is_stale now run) (lookup-Memᴰ (r, h) d found) stale)

    same_run : (t : Task) → is_stale now run ((r, h), t) ≡ true → r ≡ run
    same_run t stale = ==→eq r run (first (r == run) _ stale)
      where
        first : (a b : Bool) → (a && b) ≡ true → a ≡ true
        first a b q = ground arith

    by_row :
        (o : Option Task)
        → lookup (r, h) d ≡ o
        → lookup (r, h) (update_each expire run (stale_hashes now run d) d)
          ≡ Option.map (reclaimed now run (r, h)) (lookup (r, h) d)
    by_row none e =
        lookup-update_each expire run (r, h) (stale_hashes now run d) d
          (λ i m q.
            let (t, found, stale) = stale_row now run d n i m in
            none≢some (sym e ∙ ap (λ z. lookup z d) q ∙ found))
        ∙ e
        ∙ sym (ap (Option.map (reclaimed now run (r, h))) e)
    by_row (some t) e = elim (Bool-cases (is_stale now run ((r, h), t))) [
      | inl stale ↦
          subst
            (λ z.
              lookup (z, h) (update_each expire run (stale_hashes now run d) d)
              ≡ Option.map expire (lookup (z, h) d))
            (sym (same_run t stale))
            (lookup-update_each_in run h (stale_hashes now run d) d (listed t e stale))
          ∙ ap (Option.map expire) e
          ∙ sym (
              ap (Option.map (reclaimed now run (r, h))) e
              ∙ ap some (ap (λ b. if b then expire t else t) stale))
      | inr fresh ↦
          lookup-update_each expire run (r, h) (stale_hashes now run d) d
            (λ i m q.
              let (u, found, stale) = stale_row now run d n i m in
              clash _ stale (
                sym (
                  ap₂ (λ (k : Key) (v : Task). is_stale now run (k, v)) q
                    (some_inj (sym e ∙ ap (λ z. lookup z d) q ∙ found)))
                ∙ fresh))
          ∙ e
          ∙ sym (
              ap (Option.map (reclaimed now run (r, h))) e
              ∙ ap some (ap (λ b. if b then expire t else t) fresh))
    ]
      where
        clash : (b : Bool) → b ≡ true → b ≡ false → ⊥
        clash b p q = ground arith

-- What copying leaves: the rows of the scopes under the new run, and the others.
pub record Copies (old_run new_run : Text) (hs : List Text) (d copied : Table) : Type 0 where
  pub carried :
      (h : Text)
      → Memᴰ h hs
      → lookup (new_run, h) copied ≡ Option.map inherited (folded_row (lookup (old_run, h) d))
  pub others :
      (k : Key) → ((h : Text) → Memᴰ h hs → k ≢ (new_run, h)) → lookup k copied ≡ lookup k d

inherit-returns :
    (o : Option Task) (k : Key) (d : Table)
    → lookup k d ≡ none
    → (c : Table) × (inherit o k d ≡ some c)
      × (lookup k c ≡ Option.map inherited o)
      × ((j : Key) → j ≢ k → lookup j c ≡ lookup j d)
inherit-returns none k d missing = (d, refl, missing, λ j n. refl)
inherit-returns (some t) k d missing = (
  insert k (inherited t) d,
  ap (λ o. insert_row o k (inherited t) d) missing,
  lookup-insert_self k (inherited t) d,
  λ j n. lookup-insert_ne k j (inherited t) d (ne→==_false j k n),
)

-- Where the new run is another and has no row for the scopes, which are distinct, copying succeeds:
-- each scope that is folded under the old run is folded under the new one, with the columns that
-- are carried over and no lease; no other row changes.
pub copy_folded_tasks-Copies :
    (old_run new_run : Text)
    → old_run ≢ new_run
    → (hs : List Text) → IsNodup hs
    → (d : Table) → ((h : Text) → Memᴰ h hs → lookup (new_run, h) d ≡ none)
    → (copied : Table) × (copy_folded_tasks old_run new_run hs d ≡ some copied)
      × Copies old_run new_run hs d copied
unfolding copy_folded_tasks
copy_folded_tasks-Copies old_run new_run other [] n d absent =
    (d, refl, record { carried = λ h m. elim m [ ]; others = λ k f. refl })
copy_folded_tasks-Copies old_run new_run other (h ∷ hs) n d absent =
    let (c, ran, here, same) =
      inherit-returns (folded_row (lookup (old_run, h) d)) (new_run, h) d
        (absent h (Memᴰ.head refl)) in
    let later = λ (j : Text) (m : Memᴰ j hs). absent_after c same j m in
    let (e, rest, r) = copy_folded_tasks-Copies old_run new_run other hs n.1 c later in
    (
      e,
      rw (ran, rest) refl,
      record {
        carried = λ j m. carried c here same r j m;
        others = λ k f. r.others k (λ j m. f j (Memᴰ.tail m)) ∙ same k (f h (Memᴰ.head refl));
      },
    )
  where
    absent_after :
        (c : Table)
        → ((j : Key) → j ≢ (new_run, h) → lookup j c ≡ lookup j d)
        → (j : Text) → Memᴰ j hs
        → lookup (new_run, j) c ≡ none
    absent_after c same j m =
        same (new_run, j) (λ e. n.0 j m (sym (ap (λ (z : Key). z.1) e))) ∙ absent j (Memᴰ.tail m)

    carried :
        (c : Table) {e : Table}
        → lookup (new_run, h) c ≡ Option.map inherited (folded_row (lookup (old_run, h) d))
        → ((j : Key) → j ≢ (new_run, h) → lookup j c ≡ lookup j d)
        → Copies old_run new_run hs c e
        → (j : Text) → Memᴰ j (h ∷ hs)
        → lookup (new_run, j) e ≡ Option.map inherited (folded_row (lookup (old_run, j) d))
    carried c {e} here same r j (Memᴰ.head q) =
        subst
          (λ z. lookup (new_run, z) e ≡ Option.map inherited (folded_row (lookup (old_run, z) d)))
          (sym q) (r.others (new_run, h) (λ i m g. n.0 i m (ap (λ (z : Key). z.1) g)) ∙ here)
    carried c here same r j (Memᴰ.tail m) =
        r.carried j m
        ∙ ap (λ o. Option.map inherited (folded_row o))
            (same (old_run, j) (λ g. other (ap (λ (z : Key). z.0) g)))
