-- ===== src/TaskTable/Exclusion.antt =====
-- cdp/store/sqlite_backend.py: two agents never hold a live lease on one task.
use code_discovery_pyramid.Base.{
  ℕ, ◌≤◌, ◌≡◌, ◌≢◌, refl, sym, ap, ◌∙◌, subst, ◌⊎◌, inl, inr, false, some, ◌==◌, arith, Bool-cases,
  nat_eq, pair_eq, ==→eq, ==_false→ne,
}
use code_discovery_pyramid.Base.Dict.{keys, lookup}
use code_discovery_pyramid.Base.Sorting.{IsNodup}
use code_discovery_pyramid.Base.Text.{text_eq}
use code_discovery_pyramid.TaskTable.{Task, Key, Table}
use code_discovery_pyramid.TaskTable.Races.{Phase, holding, World, after}

-- The row of a task is leased until a time.
abbrev pub Leased : Key → ℕ → Table → Type 0
Leased k until d = (t : Task) × (lookup k d ≡ some t) × (t.lease_until ≡ some until)

-- An agent holds a lease that has not lapsed.
abbrev pub Live : World → ℕ → ℕ → Type 0
Live w a until = (w.phase a ≡ holding until) × (w.now ≤ until)

-- Who lives after a move is the agent, in its new phase, or lived before.
pub Live-after :
    (w : World) (table : Table) (a : ℕ) (p : Phase) (b v : ℕ)
    → Live (after w table a p) b v
    → ((b ≡ a) × (p ≡ holding v)) ⊎ ((b ≢ a) × Live w b v)
Live-after w table a p b v (h, l) = elim (Bool-cases (b == a)) [
  | inl e ↦ inl (==→eq b a e, rw e at h)
  | inr e ↦ inr (==_false→ne b a e, (rw e at h, l))
]

module _ (task_of : ℕ → Key) where
  pub record IsExclusive (w : World) : Type 0 where
    pub distinct : IsNodup (keys w.table)
    pub leased : (a until : ℕ) → Live w a until → Leased (task_of a) until w.table
    pub alone : (a b u v : ℕ) → Live w a u → Live w b v → task_of a ≡ task_of b → a ≡ b

  -- An agent changes its row and its phase: what must be shown of the row.
  pub record Moves (w : World) (table : Table) (a : ℕ) (p : Phase) : Type 0 where
    pub distinct : IsNodup (keys table)
    pub others : (j : Key) → (j == task_of a) ≡ false → lookup j table ≡ lookup j w.table
    pub rest : (b v : ℕ) → b ≢ a → Live w b v → task_of b ≡ task_of a → Leased (task_of a) v table
    pub mine : (u : ℕ) → p ≡ holding u → w.now ≤ u → Leased (task_of a) u table
    pub only : (u : ℕ) → p ≡ holding u → (b v : ℕ) → b ≢ a → Live w b v → task_of b ≡ task_of a → ⊥

  -- What a step is, as far as leases go.
  pub data Change (w : World) : World → Type 0 where
    acts : (table : Table) (a : ℕ) (p : Phase) → Moves w table a p → Change w (after w table a p)
    settles :
        (table : Table)
        → IsNodup (keys table)
        → ((k : Key) (u : ℕ) → w.now ≤ u → Leased k u w.table → Leased k u table)
        → Change w (record w { table = table })
    clears :
        (table : Table) (a : ℕ) (p : Phase)
        → IsNodup (keys table)
        → ((k : Key) (u : ℕ) → w.now ≤ u → Leased k u w.table → Leased k u table)
        → ((u : ℕ) → p ≡ holding u → ⊥)
        → Change w (after w table a p)
    waits : (later : ℕ) → w.now ≤ later → Change w (record w { now = later })

  module _ {w : World} (i : IsExclusive w) where
    -- A phase that holds nothing, over the same table.
    pub rests : (a : ℕ) (p : Phase) → ((u : ℕ) → p ≡ holding u → ⊥) → Moves w w.table a p
    rests a p free = record {
      distinct = i.distinct;
      others = λ j h. refl;
      rest = λ b v n l e. subst (λ z. Leased z v w.table) e (i.leased b v l);
      mine = λ u h. absurd (free u h);
      only = λ u h. absurd (free u h);
    }

    move : (table : Table) (a : ℕ) (p : Phase) → Moves w table a p → IsExclusive (after w table a p)
    move table a p m = record { distinct = m.distinct; leased = leased; alone = alone }
      where
        leased : (b v : ℕ) → Live (after w table a p) b v → Leased (task_of b) v table
        leased b v h = by_agent (Live-after w table a p b v h)
          where
            by_agent :
                ((b ≡ a) × (p ≡ holding v)) ⊎ ((b ≢ a) × Live w b v) → Leased (task_of b) v table
            by_agent (inl (e, q)) = subst (λ z. Leased (task_of z) v table) (sym e) (m.mine v q h.1)
            by_agent (inr (n, l)) = elim (Bool-cases (task_of b == task_of a)) [
              | inl e ↦
                  subst (λ z. Leased z v table) (sym (==→eq (task_of b) (task_of a) e))
                    (m.rest b v n l (==→eq (task_of b) (task_of a) e))
              | inr e ↦ let (t, q, r) = i.leased b v l in (t, m.others (task_of b) e ∙ q, r)
            ]

        alone :
            (b c u v : ℕ)
            → Live (after w table a p) b u
            → Live (after w table a p) c v
            → task_of b ≡ task_of c
            → b ≡ c
        alone b c u v h k same =
            by_agents (Live-after w table a p b u h) (Live-after w table a p c v k)
          where
            by_agents :
                ((b ≡ a) × (p ≡ holding u)) ⊎ ((b ≢ a) × Live w b u)
                → ((c ≡ a) × (p ≡ holding v)) ⊎ ((c ≢ a) × Live w c v)
                → b ≡ c
            by_agents (inl (e, q)) (inl (f, r)) = e ∙ sym f
            by_agents (inl (e, q)) (inr (n, l)) =
                absurd (m.only u q c v n l (sym same ∙ ap task_of e))
            by_agents (inr (n, l)) (inl (f, r)) = absurd (m.only v r b u n l (same ∙ ap task_of f))
            by_agents (inr (n, l)) (inr (o, r)) = i.alone b c u v l r same

    -- A statement of nobody in particular, which leaves every live lease.
    settle :
        (table : Table)
        → IsNodup (keys table)
        → ((k : Key) (u : ℕ) → w.now ≤ u → Leased k u w.table → Leased k u table)
        → IsExclusive (record w { table = table })
    settle table n h = record {
      distinct = n;
      leased = λ a u l. h (task_of a) u l.1 (i.leased a u l);
      alone = i.alone;
    }

  -- A later time leaves fewer live.
  wait :
      {w : World} (later : ℕ)
      → w.now ≤ later
      → IsExclusive w
      → IsExclusive (record w { now = later })
  wait later h i = record {
    distinct = i.distinct;
    leased = λ a u l. i.leased a u (l.0, sooner l.1 h);
    alone = λ a b u v l k e. i.alone a b u v (l.0, sooner l.1 h) (k.0, sooner k.1 h) e;
  }
    where
      sooner : {m n u : ℕ} → n ≤ u → m ≤ n → m ≤ u
      sooner h k = omega arith

  -- A change keeps the exclusion.
  pub Change-IsExclusive : {u w : World} → IsExclusive u → Change u w → IsExclusive w
  Change-IsExclusive i (Change.acts table a p m) = move i table a p m
  Change-IsExclusive i (Change.settles table n h) = settle i table n h
  Change-IsExclusive i (Change.clears table a p n h free) =
      move (settle i table n h) table a p (rests (settle i table n h) a p free)
  Change-IsExclusive i (Change.waits later h) = wait later h i
