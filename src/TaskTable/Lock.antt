-- ===== src/TaskTable/Lock.antt =====
-- cdp/store/sqlite_backend.py: the leases on one task are a lock.
use code_discovery_pyramid.Base.{
  ℕ, ◌≤◌, ◌≡◌, ◌≢◌, refl, sym, ap, ◌∙◌, subst, ◌⊎◌, inl, inr, false, arith, Bool-cases, leb, leb→le,
  ◌==◌, nat_eq, pair_eq, ==→eq, ==_refl, ==_false→ne, ne→==_false,
}
use code_discovery_pyramid.Base.Dict.{keys}
use code_discovery_pyramid.Base.Sorting.{IsNodup}
use code_discovery_pyramid.Base.Text.{text_eq}
use code_discovery_pyramid.TaskTable.{Key, Table}
use code_discovery_pyramid.TaskTable.Races.{
  Phase, idle, missed, unseen, holding, reclaiming, World, after, Step, Steps, AllTimely, start,
}
use code_discovery_pyramid.TaskTable.Exclusion.{
  Live, Live-after, IsExclusive, Moves, Change, Change-IsExclusive,
}
use code_discovery_pyramid.TaskTable.Statements.{Step-Change, start-IsExclusive}
use code_discovery_pyramid.TaskTable.Fields.{deadline}

-- A lock has one holder at most.
pub data Lock : Type 0 where
  free : Lock
  held : (a : ℕ) → Lock

-- It is taken when it is free, and dropped by its holder, or for it.
pub data LockStep : Lock → Lock → Type 0 where
  stay : {l : Lock} → LockStep l l
  take : (a : ℕ) → LockStep free (held a)
  drop : (a : ℕ) → LockStep (held a) free

abbrev holder_of : Lock → ℕ
holder_of free = 0
holder_of (held a) = a

free≢held : {a : ℕ} → (free ≡ held a) → ⊥
free≢held h = ground arith

held_inj : {a b : ℕ} → held a ≡ held b → a ≡ b
held_inj h = ap holder_of h

-- The agent that moves lives if its new phase holds.
Live-self :
    (w : World) (table : Table) (a u : ℕ) (p : Phase)
    → p ≡ holding u
    → w.now ≤ u
    → Live (after w table a p) a u
Live-self w table a u p q h = (rw (==_refl a) q, h)

-- The others live on.
Live-other :
    (w : World) (table : Table) (a : ℕ) (p : Phase) (b v : ℕ)
    → b ≢ a
    → Live w b v
    → Live (after w table a p) b v
Live-other w table a p b v n (h, l) = (rw (ne→==_false b a n) h, l)

module _ (task_of : ℕ → Key) (k : Key) where
  -- The holder of the lock is the agent with a live lease on the task.
  pub record Shows (w : World) (l : Lock) : Type 0 where
    pub holder : (a u : ℕ) → Live w a u → task_of a ≡ k → l ≡ held a
    pub live : (a : ℕ) → l ≡ held a → (u : ℕ) × Live w a u × (task_of a ≡ k)

  -- The lock after a step, and the move that leads to it.
  abbrev Locks : World → Lock → Type 0
  Locks w l = (m : Lock) × LockStep l m × Shows w m

  -- An agent lives after its step.
  acquires :
      {w : World} (table : Table) (a u : ℕ) (p : Phase) (l : Lock)
      → Moves task_of w table a p
      → p ≡ holding u
      → w.now ≤ u
      → task_of a ≡ k
      → Shows w l
      → Locks (after w table a p) l
  acquires {w} table a u p l m q h e s = (
    held a,
    by_lock l refl,
    record {
      holder = λ b v alive eb. by_agent b v eb (Live-after w table a p b v alive);
      live = λ b hb. (
        u,
        subst (λ z. Live (after w table a p) z u) (held_inj hb) (Live-self w table a u p q h),
        sym (ap task_of (held_inj hb)) ∙ e,
      );
    },
  )
    where
      by_agent :
          (b v : ℕ)
          → task_of b ≡ k
          → ((b ≡ a) × (p ≡ holding v)) ⊎ ((b ≢ a) × Live w b v)
          → held a ≡ held b
      by_agent b v eb (inl (same, r)) = ap held (sym same)
      by_agent b v eb (inr (n, alive)) = absurd (m.only u q b v n alive (eb ∙ sym e))

      by_lock : (o : Lock) → l ≡ o → LockStep l (held a)
      by_lock free r = subst (λ z. LockStep z (held a)) (sym r) (LockStep.take a)
      by_lock (held b) r = elim (Bool-cases (b == a)) [
        | inl same ↦
            subst (λ z. LockStep z (held a)) (sym (r ∙ ap held (==→eq b a same))) LockStep.stay
        | inr n ↦
            let (v, alive, eb) = s.live b r in
            absurd (m.only u q b v (==_false→ne b a n) alive (eb ∙ sym e))
      ]

  -- An agent does not live after its step, or is at another task.
  abstains :
      {w : World} (table : Table) (a : ℕ) (p : Phase) (l : Lock)
      → ((u : ℕ) → p ≡ holding u → w.now ≤ u → task_of a ≡ k → ⊥)
      → Shows w l
      → Locks (after w table a p) l
  abstains {w} table a p l n s = by_lock l refl
    where
      kept : (b v : ℕ) → Live (after w table a p) b v → task_of b ≡ k → (b ≢ a) × Live w b v
      kept b v alive eb = by_agent (Live-after w table a p b v alive)
        where
          by_agent : ((b ≡ a) × (p ≡ holding v)) ⊎ ((b ≢ a) × Live w b v) → (b ≢ a) × Live w b v
          by_agent (inl (same, r)) = absurd (n v r alive.1 (sym (ap task_of same) ∙ eb))
          by_agent (inr other) = other

      by_lock : (o : Lock) → l ≡ o → Locks (after w table a p) l
      by_lock free r = (
        l,
        LockStep.stay,
        record {
          holder = λ b v alive eb. s.holder b v (kept b v alive eb).1 eb;
          live = λ b hb. absurd (free≢held (sym r ∙ hb));
        },
      )
      by_lock (held b) r = elim (Bool-cases (b == a)) [
        | inl same ↦ (
          free,
          subst (λ z. LockStep z free) (sym r) (LockStep.drop b),
          record {
            holder = λ c v alive ec. absurd (
                (kept c v alive ec).0
                  (held_inj (sym (s.holder c v (kept c v alive ec).1 ec) ∙ r) ∙ ==→eq b a same));
            live = λ c hc. absurd (free≢held hc);
          },
        )
        | inr other ↦ (
          l,
          LockStep.stay,
          record {
            holder = λ c v alive ec. s.holder c v (kept c v alive ec).1 ec;
            live = λ c hc.
                let (v, alive, ec) = s.live c hc in
                (
                  v,
                  Live-other w table a p c v
                      (λ z. ==_false→ne b a other (held_inj (sym r ∙ hc) ∙ z)) alive,
                  ec,
                );
          },
        )
      ]

  lapses :
      {w : World} (later : ℕ) (l : Lock)
      → w.now ≤ later
      → Shows w l
      → Locks (record w { now = later }) l
  lapses {w} later l h s = by_lock l refl
    where
      sooner : (u : ℕ) → later ≤ u → w.now ≤ u
      sooner u z = omega arith

      by_lock : (o : Lock) → l ≡ o → Locks (record w { now = later }) l
      by_lock free r = (
        l,
        LockStep.stay,
        record {
          holder = λ b v alive eb. s.holder b v (alive.0, sooner v alive.1) eb;
          live = λ b hb. absurd (free≢held (sym r ∙ hb));
        },
      )
      by_lock (held b) r = by_deadline (s.live b r)
        where
          by_deadline : (u : ℕ) × Live w b u × (task_of b ≡ k) → Locks (record w { now = later }) l
          by_deadline (u, alive, eb) = elim (Bool-cases (leb later u)) [
            | inl early ↦ (
              l,
              LockStep.stay,
              record {
                holder = λ c v z ec. s.holder c v (z.0, sooner v z.1) ec;
                live = λ c hc.
                    let same = held_inj (sym r ∙ hc) in
                    (
                      u,
                      (sym (ap w.phase same) ∙ alive.0, leb→le later u early),
                      sym (ap task_of same) ∙ eb,
                    );
              },
            )
            | inr late ↦ (
              free,
              subst (λ z. LockStep z free) (sym r) (LockStep.drop b),
              record {
                holder = λ c v z ec.
                    let same = held_inj (sym r ∙ s.holder c v (z.0, sooner v z.1) ec) in
                    absurd (over u v late z.1 (deadline (sym alive.0 ∙ ap w.phase same ∙ z.0)));
                live = λ c hc. absurd (free≢held hc);
              },
            )
          ]
            where
              over : (u v : ℕ) → leb later u ≡ false → later ≤ v → u ≡ v → ⊥
              over u v h g e = ground arith

  unheld :
      (w : World) (a : ℕ) (p : Phase)
      → ((u : ℕ) × (p ≡ holding u) × (w.now ≤ u) × (task_of a ≡ k))
        ⊎ ((u : ℕ) → p ≡ holding u → w.now ≤ u → task_of a ≡ k → ⊥)
  unheld w a idle = inr (λ u h. absurd (ground arith))
  unheld w a (missed t) = inr (λ u h. absurd (ground arith))
  unheld w a (unseen t) = inr (λ u h. absurd (ground arith))
  unheld w a (reclaiming run hashes) = inr (λ u h. absurd (ground arith))
  unheld w a (holding t) = elim (Bool-cases (leb w.now t)) [
    | inl early ↦ elim (Bool-cases (task_of a == k)) [
      | inl same ↦ inl (t, refl, leb→le w.now t early, ==→eq (task_of a) k same)
      | inr other ↦ inr (λ u h l e. ==_false→ne (task_of a) k other e)
    ]
    | inr late ↦ inr (λ u h l e. over u late l (deadline h))
  ]
    where
      over : (u : ℕ) → leb w.now t ≡ false → w.now ≤ u → t ≡ u → ⊥
      over u h g e = ground arith

  changes : {u w : World} (l : Lock) → Change task_of u w → Shows u l → Locks w l
  changes {u} l (Change.acts table a p m) s = by_phase (unheld u a p)
    where
      by_phase :
          ((t : ℕ) × (p ≡ holding t) × (u.now ≤ t) × (task_of a ≡ k))
            ⊎ ((t : ℕ) → p ≡ holding t → u.now ≤ t → task_of a ≡ k → ⊥)
          → Locks (after u table a p) l
      by_phase (inl (t, q, h, e)) = acquires table a t p l m q h e s
      by_phase (inr n) = abstains table a p l n s
  changes l (Change.settles table n h) s =
      (l, LockStep.stay, record { holder = s.holder; live = s.live })
  changes {u} l (Change.clears table a p n h ended) s =
      abstains {w = record u { table = table }} table a p l (λ v q late e. ended v q)
        record { holder = s.holder; live = s.live }
  changes l (Change.waits later h) s = lapses later l h s

  -- A run of the system is a run of the lock: before each step the lock is shown, and the
  -- step is one move of it at most.
  pub data Simulates : (u w : World) → Steps task_of u w → Lock → Lock → Type 0 where
    done : {w : World} {l : Lock} → Shows w l → Simulates w w Steps.done l l
    next :
        {u v w : World} {s : Step task_of u v} {r : Steps task_of v w} {l m n : Lock}
        → Shows u l
        → LockStep l m
        → Simulates v w r m n
        → Simulates u w (Steps.next s r) l n

  simulation :
      {u w : World} (s : Steps task_of u w) (l : Lock)
      → AllTimely task_of s
      → IsExclusive task_of u
      → Shows u l
      → (m : Lock) × Simulates u w s l m
  simulation Steps.done l t i shown = (l, Simulates.done shown)
  simulation (Steps.next s r) l t i shown =
      let c = Step-Change task_of i s t.0 in
      let (m, move, later) = changes l c shown in
      let (n, rest) = simulation r m t.1 (Change-IsExclusive task_of i c) later in
      (n, Simulates.next shown move rest)

  start-Shows : (table : Table) → Shows (start table) free
  start-Shows table = record {
    holder = λ a u l e. absurd (idle_free u l.0);
    live = λ a h. absurd (free≢held h);
  }
    where
      idle_free : (u : ℕ) → idle ≡ holding u → ⊥
      idle_free u h = ground arith

  -- For each task, every run of the system from a table with one row for each task and nobody at
  -- work is a run of a lock that is free at first: throughout, the lock is held by exactly the agent
  -- whose lease on the task is live, and each step, a statement or the passing of time, is at most
  -- one taking of the free lock or one dropping of it. It is provided that each heartbeat and each
  -- release comes while the agent's own lease is live and that no row that a `reclaim_expired` has
  -- selected has a live lease when it is expired.
  pub Steps-Simulates :
      {table : Table} {w : World}
      → IsNodup (keys table)
      → (s : Steps task_of (start table) w) → AllTimely task_of s
      → (l : Lock) × Simulates (start table) w s free l
  Steps-Simulates {table} n s t =
      simulation s free t (start-IsExclusive task_of table n) (start-Shows table)
