-- ===== src/Supervisor.antt =====
-- cdp/supervisor.py: the retry loop that takes one scope to a terminal state.
pub mod Terminal
pub mod Wave
use code_discovery_pyramid.Base.{
  ℕ, zero, suc, ◌+◌, Bool, true, false, not, Option, none, some, List, [], ◌∷◌, ◌++◌, ◌&&◌, ◌==◌,
  if◌then◌else◌, is_empty, nat_eq,
}
use code_discovery_pyramid.Base.Text.{Text, text_eq}
use code_discovery_pyramid.Claims.{Patch}
use code_discovery_pyramid.Verify.{Mode, Sources, verify_patch}

pub data TaskState : Type 0 where
  pending dispatched returned validated folded expired invalid anchors_failed empty abandoned :
      TaskState

-- RETRY_STATES
abbrev pub is_retry : TaskState → Bool
is_retry expired = true
is_retry invalid = true
is_retry anchors_failed = true
is_retry empty = true
is_retry _ = false

-- What the runner left behind at the path of the patch.
pub data Inbox : Type 0 where
  no_file : Inbox
  not_json : Inbox
  parsed : (patch : Patch) (schema_errors : List Text) → Inbox

-- The repository that the anchors of a returned patch are checked against.
pub record Checkout : Type 0 where
  pub sources : Sources
  pub mode : Mode
  pub head_sha : Option Text

-- `stats["claims_kept"] == 0` of the patch's verification
unfoldable pub none_kept : Checkout → Patch → Bool
none_kept r p = (verify_patch r.sources r.mode r.head_sha p).1.claims_kept == 0

unfoldable pub classify_patch : Checkout → Text → Patch → List Text → TaskState × Option Patch
classify_patch r node p errors =
    if not (is_empty errors && p.node == node)
    then (invalid, none)
    else (if is_empty p.claims
        then (if is_empty p.unknowns then (empty, none) else (validated, some p))
        else (if none_kept r p then (anchors_failed, none) else (validated, some p)))

-- `_classify_returned`, without the message.
unfoldable pub classify_returned : Checkout → Text → Inbox → TaskState × Option Patch
classify_returned r node no_file = (empty, none)
classify_returned r node not_json = (invalid, none)
classify_returned r node (parsed p errors) = classify_patch r node p errors

-- What one attempt meets: whether the lease is granted, whether the runner reports success, and
-- what it leaves.
pub record Round : Type 0 where
  pub acquired : Bool
  pub ok : Bool
  pub inbox : Inbox

pub record Progress : Type 0 where
  pub state : TaskState
  pub patch : Option Patch
  pub attempts : ℕ
  -- the states that the task row went through
  pub trace : List TaskState

abbrev pub not_dispatched : Progress
not_dispatched = record { state = pending; patch = none; attempts = 0; trace = [] }

abbrev pub run_outcome : Checkout → Text → Round → TaskState × Option Patch
run_outcome r node round =
    if round.ok then classify_returned r node round.inbox else (expired, none)

abbrev pub states_of_run : Bool → TaskState → List TaskState
states_of_run true s = dispatched ∷ returned ∷ s ∷ []
states_of_run false s = dispatched ∷ s ∷ []

unfoldable pub run_attempt : Checkout → Text → Round → ℕ → Progress → Progress
run_attempt r node round attempt p = record {
  state = (run_outcome r node round).0;
  patch = (run_outcome r node round).1;
  attempts = attempt;
  trace = p.trace ++ states_of_run round.ok (run_outcome r node round).0;
}

module _ (r : Checkout) (node : Text) (rounds : ℕ → Round) where
  -- `for attempt in range(1, max_attempts + 1)`, by the rounds that are left; `none` where another
  -- supervisor holds the lease.
  unfoldable pub attempt_loop : ℕ → ℕ → Progress → Option Progress
  attempt_loop zero attempt p = some p
  attempt_loop (suc left) attempt p =
      let next = run_attempt r node (rounds attempt) attempt p in
      let rest = attempt_loop left (suc attempt) next in
      if (rounds attempt).acquired then (if is_retry next.state then rest else some next) else none

  -- The last retry has failed.
  abbrev pub abandon : Progress → Progress
  abandon p =
      if is_retry p.state
      then record {
        state = abandoned;
        patch = none;
        attempts = p.attempts;
        trace = p.trace ++ abandoned ∷ [];
      }
      else p

  unfoldable pub dispatch_scope : ℕ → Option Progress
  dispatch_scope max_attempts = elim (attempt_loop max_attempts 1 not_dispatched) [
    | none ↦ none
    | some p ↦ some (abandon p)
  ]

-- `mark_folded`, for one scope of the wave.
unfoldable pub mark_folded : Progress → TaskState
mark_folded p = elim p.state [ validated ↦ folded | _ ↦ p.state ]
