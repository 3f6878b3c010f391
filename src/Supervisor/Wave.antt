-- ===== src/Supervisor/Wave.antt =====
-- cdp/supervisor.py: `run_wave` and `mark_folded` over the scopes of a wave.
use mathlib.Core.List.{Memᴰ}
use code_discovery_pyramid.Base.{
  ℕ, zero, suc, ◌≤◌, ◌≡◌, refl, sym, ap, subst, inl, inr, Bool, true, false, not, ◌&&◌, Option,
  none, some, List, [], ◌∷◌, if◌then◌else◌, is_empty, contains, Bool-cases, arith, some_inj,
}
use code_discovery_pyramid.Base.Text.{Text, text_eq}
use code_discovery_pyramid.Schedule.{Scope}
use code_discovery_pyramid.Supervisor.{
  TaskState, validated, folded, Checkout, Round, Progress, dispatch_scope,
}
use code_discovery_pyramid.Supervisor.Terminal.{Ends, dispatch_scope-Ends}
use code_discovery_pyramid.TaskTable.{Table, set_state, upsert_task}

-- A row that `dispatch_scope` reports.
pub record Row : Type 0 where
  pub node : Text
  pub scope_hash : Text
  pub progress : Progress

-- `scope.get("scope_hash") or node`
abbrev pub hash_or_node : Option Text → Text → Text
hash_or_node none node = node
hash_or_node (some h) node = if is_empty h then node else h

-- `scope.get("scope_hash") in skip_hashes`
abbrev pub is_skipped : List Text → Option Text → Bool
is_skipped skip none = false
is_skipped skip (some h) = contains h skip

-- Whether the wave dispatches a scope.
abbrev pub is_due : List Text → List Text → Scope → Bool
is_due nodes skip s = contains s.node nodes && not (is_skipped skip s.scope_hash)

-- `if row is not None: results.append(row)`
abbrev pub add_row : Scope → Option Progress → List Row → List Row
add_row s none rows = rows
add_row s (some p) rows =
    record { node = s.node; scope_hash = hash_or_node s.scope_hash s.node; progress = p } ∷ rows

abbrev pub mark_row : Text → Row → TaskState → Table → Table
mark_row run row validated table = upsert_task (run, row.scope_hash) (set_state folded ∷ []) table
mark_row run row _ table = table

-- `mark_folded`
unfoldable pub mark_rows : Text → List Row → Table → Table
mark_rows run [] table = table
mark_rows run (row ∷ rows) table = mark_rows run rows (mark_row run row row.progress.state table)

-- The scope at a position of the partition.
abbrev pub scope_at : List Scope → ℕ → Option Scope
scope_at [] p = none
scope_at (s ∷ ss) zero = some s
scope_at (s ∷ ss) (suc p) = scope_at ss p

module _ (r : Checkout) where
  -- `run_wave`, where the scope at a position of the partition meets the rounds of that position.
  unfoldable pub run_wave : (ℕ → ℕ → Round) → ℕ → List Text → List Text → List Scope → List Row
  run_wave rounds max_attempts nodes skip [] = []
  run_wave rounds max_attempts nodes skip (s ∷ ss) =
      let rest = run_wave (λ p. rounds (suc p)) max_attempts nodes skip ss in
      if is_due nodes skip s
      then add_row s (dispatch_scope r s.node (rounds 0) max_attempts) rest
      else rest

  -- A row is of a scope that was due, and tells how its dispatch ended.
  pub record IsReported (rounds : ℕ → ℕ → Round) (max_attempts : ℕ) (nodes skip : List Text)
      (scopes : List Scope) (row : Row) : Type 0 where
    pub scope : Scope
    pub position : ℕ
    pub listed : scope_at scopes position ≡ some scope
    pub due : is_due nodes skip scope ≡ true
    pub same_node : row.node ≡ scope.node
    pub ended : Ends r scope.node (rounds position) max_attempts (some row.progress)

  IsReported-later :
      {rounds : ℕ → ℕ → Round} {n : ℕ} {nodes skip : List Text} {s : Scope} {ss : List Scope}
      {row : Row}
      → IsReported (λ p. rounds (suc p)) n nodes skip ss row
      → IsReported rounds n nodes skip (s ∷ ss) row
  IsReported-later i = record {
    scope = i.scope;
    position = suc i.position;
    listed = i.listed;
    due = i.due;
    same_node = i.same_node;
    ended = i.ended;
  }

  -- Every row of a wave with at least one attempt is of a scope of the wave that was not to be
  -- skipped, and it says that the scope was validated, with the patch that its last attempt left, or
  -- that it was abandoned after the last attempt, without a patch.
  pub run_wave-IsReported :
      (rounds : ℕ → ℕ → Round) (left : ℕ) (nodes skip : List Text) (scopes : List Scope) (row : Row)
      → Memᴰ row (run_wave rounds (suc left) nodes skip scopes)
      → IsReported rounds (suc left) nodes skip scopes row
  unfolding run_wave
  run_wave-IsReported rounds left nodes skip [] row m = elim m [ ]
  run_wave-IsReported rounds left nodes skip (s ∷ ss) row m =
      let later = run_wave-IsReported (λ p. rounds (suc p)) left nodes skip ss row in
      elim (Bool-cases (is_due nodes skip s)) [
        | inl due ↦
            by_outcome due (dispatch_scope r s.node (rounds 0) (suc left))
              (dispatch_scope-Ends r s.node (rounds 0) left) (rw due at m)
              (λ k. IsReported-later {rounds = rounds} (later k))
        | inr idle ↦ IsReported-later {rounds = rounds} (later (rw idle at m))
      ]
    where
      by_outcome :
          is_due nodes skip s ≡ true
          → (o : Option Progress) → Ends r s.node (rounds 0) (suc left) o
          → Memᴰ row (add_row s o (run_wave (λ p. rounds (suc p)) (suc left) nodes skip ss))
          → (Memᴰ row (run_wave (λ p. rounds (suc p)) (suc left) nodes skip ss)
              → IsReported rounds (suc left) nodes skip (s ∷ ss) row)
          → IsReported rounds (suc left) nodes skip (s ∷ ss) row
      by_outcome due none ends k later = later k
      by_outcome due (some p) ends (Memᴰ.head e) later = record {
        scope = s;
        position = 0;
        listed = refl;
        due = due;
        same_node = ap (λ (z : Row). z.node) e;
        ended =
            subst (λ (z : Row). Ends r s.node (rounds 0) (suc left) (some z.progress)) (sym e) ends;
      }
      by_outcome due (some p) ends (Memᴰ.tail k) later = later k

  -- A scope of the wave that is due has its row, unless one of its attempts was refused the lease.
  pub run_wave-answers :
      (rounds : ℕ → ℕ → Round) (left : ℕ) (nodes skip : List Text) (scopes : List Scope) (p : ℕ)
      (s : Scope)
      → scope_at scopes p ≡ some s
      → is_due nodes skip s ≡ true
      → ((k : ℕ) → 1 ≤ k → k ≤ suc left → (rounds p k).acquired ≡ true)
      → (row : Row) × Memᴰ row (run_wave rounds (suc left) nodes skip scopes) × (row.node ≡ s.node)
  unfolding run_wave
  run_wave-answers rounds left nodes skip [] p s at due granted = absurd (ground arith)
  run_wave-answers rounds left nodes skip (x ∷ ss) zero s at due granted =
      rw (subst (λ (z : Scope). is_due nodes skip z ≡ true) (sym (some_inj at)) due) (
        by_outcome (dispatch_scope r x.node (rounds 0) (suc left))
          (dispatch_scope-Ends r x.node (rounds 0) left))
    where
      by_outcome :
          (o : Option Progress)
          → Ends r x.node (rounds 0) (suc left) o
          → (row : Row) × Memᴰ row
              (add_row x o (run_wave (λ p. rounds (suc p)) (suc left) nodes skip ss))
            × (row.node ≡ s.node)
      by_outcome none (Ends.held_elsewhere k low high refused) =
          absurd (clash _ (granted k low high) refused)
        where
          clash : (b : Bool) → b ≡ true → b ≡ false → ⊥
          clash b p q = ground arith
      by_outcome (some p) ends = (_, Memᴰ.head refl, ap (λ (z : Scope). z.node) (some_inj at))
  run_wave-answers rounds left nodes skip (x ∷ ss) (suc p) s at due granted =
      let (row, k, e) =
        run_wave-answers (λ q. rounds (suc q)) left nodes skip ss p s at due granted in
      elim (Bool-cases (is_due nodes skip x)) [
        | inl here ↦ rw here (row, passed (dispatch_scope r x.node (rounds 0) (suc left)) k, e)
        | inr idle ↦ rw idle (row, k, e)
      ]
    where
      passed :
          (o : Option Progress) {row : Row} {rows : List Row}
          → Memᴰ row rows
          → Memᴰ row (add_row x o rows)
      passed none k = k
      passed (some p) k = Memᴰ.tail k
