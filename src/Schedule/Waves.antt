-- ===== src/Schedule/Waves.antt =====
-- cdp/schedule.py: what the waves of a schedule hold, and in which order they come.
use mathlib.Core.List.{Memᴰ, Permᴰ, map-append}
use native.Mathlib.Decide.{dec_lt}
use code_discovery_pyramid.Base.{
  ℕ, zero, suc, ◌≤◌, ◌<◌, ◌≡◌, refl, sym, ap, ◌∙◌, subst, true, Option, none, some, List, [], ◌∷◌,
  ◌++◌, map, nat_eq, nat_ord, pair_ord, option_eq, All-Memᴰ, All-of_Memᴰ, arith, some_inj, ◌≼◌,
  sum_by, sum_by-append, map-perm, leb,
}
use code_discovery_pyramid.Base.Sorting.{sort_by, sort_by-perm, sort_by-IsSorted, IsSorted}
use code_discovery_pyramid.Base.Text.{Text, text_ord}
use code_discovery_pyramid.Schedule.{
  Scope, Wave, Edge, Plan, wave_of, schedule_waves, plan_of, build_schedule, scope_level,
  levels_from,
}
use code_discovery_pyramid.Schedule.Slots.{Slot, number, slot_scopes, IsSlot, Rising, Numbers}
use code_discovery_pyramid.Schedule.Placing.{schedule_waves-Numbers}

IsSorted-first :
    (level : Scope → ℕ) (l : List Scope)
    → IsSorted {K = ℕ × Text} (λ s. (level s, s.node)) l
    → IsSorted level l
IsSorted-first level [] h = tt
IsSorted-first level (s ∷ ss) h =
    (All-of_Memᴰ _ ss (λ z m. first z (All-Memᴰ _ h.0 m)), IsSorted-first level ss h.1)
  where
    first :
        (z : Scope)
        → (◌≼◌ {A = ℕ × Text} (level s, s.node) (level z, z.node)) ≡ true
        → leb (level s) (level z) ≡ true
    first z k = ground arith

-- The names of the scopes in the order in which a schedule dispatches them.
abbrev pub dispatched : List Wave → List Text
dispatched [] = []
dispatched (w ∷ ws) = w.nodes ++ dispatched ws

dispatched-number :
    (i : ℕ) (ps : List Slot) → dispatched (number i ps) ≡ map (λ s. s.node) (slot_scopes ps)
unfolding wave_of
dispatched-number i [] = refl
dispatched-number i ((l, c) ∷ ps) =
    ap (λ r. map (λ s. s.node) c ++ r) (dispatched-number (suc i) ps)
    ∙ sym (map-append (λ s. s.node) c (slot_scopes ps))

loc-number :
    (i : ℕ) (ps : List Slot)
    → sum_by (λ w. w.loc) (number i ps) ≡ sum_by (λ s. s.loc) (slot_scopes ps)
unfolding wave_of
loc-number i [] = refl
loc-number i ((l, c) ∷ ps) =
    omega (arith, loc-number (suc i) ps, sum_by-append (λ s. s.loc) c (slot_scopes ps))

sum_by-perm : (f : Scope → ℕ) {xs ys : List Scope} → Permᴰ xs ys → sum_by f xs ≡ sum_by f ys
sum_by-perm f Permᴰ.nil = refl
sum_by-perm f (Permᴰ.cons e p) = omega (arith, ap f e, sum_by-perm f p)
sum_by-perm f (Permᴰ.swap e g) = omega (arith, ap f e, ap f g)
sum_by-perm f (Permᴰ.trans p q) = sum_by-perm f p ∙ sum_by-perm f q

-- What a schedule promises about the scopes of a partition.
pub record Schedules (scopes : List Scope) (levels : List (List Text)) (plan : Plan) : Type 0 where
  pub dispatches_all : Permᴰ (dispatched plan.waves) (map (λ s. s.node) scopes)
  pub order : List Scope
  pub arranged : Permᴰ order scopes
  pub in_waves :
      Numbers plan.max_concurrent (scope_level (levels_from 0 levels [])) order plan.waves
  pub loc_scheduled : plan.totals.source_loc_scheduled ≡ sum_by (λ s. s.loc) scopes

-- With a positive limit a schedule is always built. It dispatches every scope of the partition once
-- and no other; its waves, numbered from zero, cut an arrangement of these scopes into slots of one
-- to `max_concurrent` scopes, each slot of scopes of the one level that its wave states; the levels
-- of the waves never fall; and the lines of source that it counts are those of the scopes.
pub build_schedule-Schedules :
    (scopes : List Scope) (levels : List (List Text)) (observed : List Edge) (max_concurrent : ℕ)
    → 1 ≤ max_concurrent
    → (plan : Plan) × (build_schedule scopes levels observed max_concurrent ≡ some plan)
      × (plan.max_concurrent ≡ max_concurrent)
      × Schedules scopes levels plan
build_schedule-Schedules scopes levels observed max_concurrent positive = (
  plan_of scopes levels observed max_concurrent,
  unfold build_schedule in ground arith,
  unfold plan_of in refl,
  plan_of-Schedules,
)
  where
    level : Scope → ℕ
    level = scope_level (levels_from 0 levels [])

    ordered : List Scope
    ordered = sort_by {K = ℕ × Text} (λ s. (level s, s.node)) scopes

    perm : Permᴰ ordered scopes
    perm = sort_by-perm {K = ℕ × Text} (λ s. (level s, s.node)) scopes

    numbers : Numbers max_concurrent level ordered (schedule_waves max_concurrent level ordered)
    numbers = schedule_waves-Numbers max_concurrent level positive ordered (
        IsSorted-first level ordered
          (sort_by-IsSorted {K = ℕ × Text} (λ s. (level s, s.node)) scopes))

    plan_of-Schedules : Schedules scopes levels (plan_of scopes levels observed max_concurrent)
    plan_of-Schedules =
        unfold plan_of in
        record {
          dispatches_all =
              subst (λ l. Permᴰ l (map (λ s. s.node) scopes))
                (sym (
                  ap dispatched numbers.numbered
                  ∙ dispatched-number 0 numbers.slots
                  ∙ ap (map (λ s. s.node)) numbers.whole))
                (map-perm (λ s. s.node) perm);
          order = ordered;
          arranged = perm;
          in_waves = numbers;
          loc_scheduled =
              ap (sum_by (λ w. w.loc)) numbers.numbered
              ∙ loc-number 0 numbers.slots
              ∙ ap (sum_by (λ s. s.loc)) numbers.whole
              ∙ sum_by-perm (λ s. s.loc) perm;
        }

-- The slot of a number.
abbrev pub slot_at : List Slot → ℕ → Option Slot
slot_at [] i = none
slot_at (p ∷ ps) zero = some p
slot_at (p ∷ ps) (suc i) = slot_at ps i

slot_at-Memᴰ : {p : Slot} (ps : List Slot) (i : ℕ) → slot_at ps i ≡ some p → Memᴰ p ps
slot_at-Memᴰ [] i h = absurd (ground arith)
slot_at-Memᴰ (q ∷ ps) zero h = Memᴰ.head (sym (some_inj h))
slot_at-Memᴰ (q ∷ ps) (suc i) h = Memᴰ.tail (slot_at-Memᴰ ps i h)

Rising-at :
    (ps : List Slot) (i j : ℕ) {p q : Slot}
    → Rising ps
    → slot_at ps i ≡ some p
    → slot_at ps j ≡ some q
    → i ≤ j
    → p.0 ≤ q.0
Rising-at [] i j r h k le = absurd (ground arith)
Rising-at (s ∷ ps) zero zero r h k le = omega (arith, ap (λ z. z.0) (some_inj (sym h ∙ k)))
Rising-at (s ∷ ps) zero (suc j) {p} {q} r h k le =
    omega (arith, ap (λ z. z.0) (some_inj h), All-Memᴰ (λ z. s.0 ≤ z.0) r.0 (slot_at-Memᴰ ps j k))
Rising-at (s ∷ ps) (suc i) zero r h k le = absurd (omega arith)
Rising-at (s ∷ ps) (suc i) (suc j) r h k le = Rising-at ps i j r.1 h k (omega arith)

-- A scope of a lower level is in an earlier wave: where the modules that a module depends on have
-- lower levels, their scopes are examined before its own.
pub schedule_waves-earlier :
    (step : ℕ) (level : Scope → ℕ) (scopes : List Scope) (waves : List Wave)
    (n : Numbers step level scopes waves) (s t : Scope) (i j : ℕ) (p q : Slot)
    → slot_at n.slots i ≡ some p
    → slot_at n.slots j ≡ some q
    → Memᴰ s p.1
    → Memᴰ t q.1
    → level s < level t
    → i < j
schedule_waves-earlier step level scopes waves n s t i j p q h k m m' lower = elim (dec_lt i j) [
  | yes less ↦ less
  | no more ↦
      let down = Rising-at n.slots j i n.rising k h (omega arith) in
      let u = (All-Memᴰ (IsSlot step level) n.valid (slot_at-Memᴰ n.slots i h)).uniform s m in
      let v = (All-Memᴰ (IsSlot step level) n.valid (slot_at-Memᴰ n.slots j k)).uniform t m' in
      absurd (omega arith)
]
