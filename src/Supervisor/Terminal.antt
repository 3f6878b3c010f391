-- ===== src/Supervisor/Terminal.antt =====
-- cdp/supervisor.py: `dispatch_scope` ends in a terminal state, within its attempts.
use native.Mathlib.Decide.{dec_lt}
use code_discovery_pyramid.Base.{
  ℕ, zero, suc, ◌+◌, ◌≤◌, ◌<◌, ◌≡◌, refl, sym, ap, ◌∙◌, subst, ◌⊎◌, inl, inr, Bool, true, false,
  Option, none, some, List, [], ◌∷◌, ◌++◌, Bool-cases, is_empty, arith, if◌then◌else◌, ◌&&◌, ◌==◌,
  ==→eq,
}
use code_discovery_pyramid.Base.Text.{Text, text_eq}
use code_discovery_pyramid.Claims.{Patch}
use code_discovery_pyramid.Supervisor.{
  TaskState, validated, expired, invalid, anchors_failed, empty, abandoned, is_retry, Inbox,
  no_file, not_json, parsed, Checkout, none_kept, classify_patch, classify_returned, Round,
  Progress, not_dispatched, run_outcome, run_attempt, attempt_loop, abandon, dispatch_scope,
}

-- A patch that a round may return: well formed, of this scope, saying something, and, if it has
-- claims, with one that survives verification.
pub record IsAccepted (r : Checkout) (node : Text) (round : Round) (p : Patch) : Type 0 where
  pub ran : round.ok ≡ true
  pub errors : List Text
  pub left_behind : round.inbox ≡ parsed p errors
  pub well_formed : is_empty errors ≡ true
  pub same_node : p.node ≡ node
  pub says_something : (is_empty p.claims && is_empty p.unknowns) ≡ false
  pub some_kept : (is_empty p.claims ≡ true) ⊎ (none_kept r p ≡ false)

module _ (r : Checkout) (node : Text) where
  -- An attempt either has a patch that is accepted, or none and a state to retry from.
  pub data Settled (round : Round) : TaskState × Option Patch → Type 0 where
    success : (p : Patch) → IsAccepted r node round p → Settled round (validated, some p)
    failure : (s : TaskState) → is_retry s ≡ true → Settled round (s, none)

  classify_patch-Settled :
      (round : Round) (p : Patch) (errors : List Text)
      → round.ok ≡ true
      → round.inbox ≡ parsed p errors
      → Settled round (classify_patch r node p errors)
  unfolding classify_patch
  classify_patch-Settled round p errors ok at =
      elim (Bool-cases (is_empty errors && p.node == node)) [
        | inr bad ↦ rw bad (Settled.failure invalid refl)
        | inl good ↦ elim (Bool-cases (is_empty p.claims)) [
          | inl silent ↦ elim (Bool-cases (is_empty p.unknowns)) [
            | inl mute ↦ rw (good, silent, mute) (Settled.failure empty refl)
            | inr asks ↦
                rw (good, silent, asks)
                  (Settled.success p (accepted good (ground arith) (inl silent)))
          ]
          | inr claims ↦ elim (Bool-cases (none_kept r p)) [
            | inl lost ↦ rw (good, claims, lost) (Settled.failure anchors_failed refl)
            | inr kept ↦
                rw (good, claims, kept)
                  (Settled.success p (accepted good (ground arith) (inr kept)))
          ]
        ]
      ]
    where
      accepted :
          (is_empty errors && p.node == node) ≡ true
          → (is_empty p.claims && is_empty p.unknowns) ≡ false
          → (is_empty p.claims ≡ true) ⊎ (none_kept r p ≡ false)
          → IsAccepted r node round p
      accepted good says kept = record {
        ran = ok;
        errors = errors;
        left_behind = at;
        well_formed = ground arith;
        same_node = ==→eq p.node node (ground arith);
        says_something = says;
        some_kept = kept;
      }

  classify_returned-Settled :
      (round : Round) (inbox : Inbox)
      → round.ok ≡ true
      → round.inbox ≡ inbox
      → Settled round (classify_returned r node inbox)
  unfolding classify_returned
  classify_returned-Settled round no_file ok at = Settled.failure empty refl
  classify_returned-Settled round not_json ok at = Settled.failure invalid refl
  classify_returned-Settled round (parsed p errors) ok at =
      classify_patch-Settled round p errors ok at

  run_outcome-Settled : (round : Round) → Settled round (run_outcome r node round)
  run_outcome-Settled round = elim (Bool-cases round.ok) [
    | inr failed ↦ subst (Settled round) (sym (pick failed)) (Settled.failure expired refl)
    | inl ok ↦
        subst (Settled round) (sym (pick ok)) (classify_returned-Settled round round.inbox ok refl)
  ]
    where
      pick :
          {b : Bool}
          → round.ok ≡ b
          → run_outcome r node round
            ≡ (if b then classify_returned r node round.inbox else (expired, none))
      pick e = ap (λ b. if b then classify_returned r node round.inbox else (expired, none)) e

module _ (r : Checkout) (node : Text) (rounds : ℕ → Round) where
  abbrev outcome : ℕ → TaskState × Option Patch
  outcome k = run_outcome r node (rounds k)

  -- The loop over `left` attempts from `attempt` on ends with a success, or with none of them.
  data LoopEnd (left attempt : ℕ) (q : Progress) : Type 0 where
    won :
        (p : Patch)
        → attempt ≤ q.attempts
        → q.attempts < attempt + left
        → q.state ≡ validated
        → q.patch ≡ some p
        → IsAccepted r node (rounds q.attempts) p
        → LoopEnd left attempt q
    lost :
        q.attempts + 1 ≡ attempt + left
        → is_retry q.state ≡ true
        → ((k : ℕ) → attempt ≤ k → k < attempt + left → is_retry (outcome k).0 ≡ true)
        → LoopEnd left attempt q

  -- Where the loop stands: it was refused a lease, or it has ended.
  data LoopResult (left attempt : ℕ) : Option Progress → Type 0 where
    refused :
        (k : ℕ)
        → attempt ≤ k
        → k < attempt + left
        → (rounds k).acquired ≡ false
        → LoopResult left attempt none
    ended : (q : Progress) → LoopEnd left attempt q → LoopResult left attempt (some q)

  LoopResult-later :
      {left attempt : ℕ} {o : Option Progress}
      → is_retry (outcome attempt).0 ≡ true
      → LoopResult (suc left) (suc attempt) o
      → LoopResult (suc (suc left)) attempt o
  LoopResult-later h (refused k a b c) = LoopResult.refused k (omega arith) (omega arith) c
  LoopResult-later h (ended q (won p a b c d e)) =
      LoopResult.ended q (LoopEnd.won p (omega arith) (omega arith) c d e)
  LoopResult-later {left} {attempt} h (ended q (lost a b c)) = LoopResult.ended q (
      LoopEnd.lost (omega arith) b (λ k m n. elim (dec_lt attempt k) [
        | yes later ↦ c k (omega arith) (omega arith)
        | no first ↦ subst (λ j. is_retry (outcome j).0 ≡ true) (same k m first) h
      ]))
    where
      same : (k : ℕ) → attempt ≤ k → ¬ (attempt < k) → attempt ≡ k
      same k m n = omega arith

  abbrev next : ℕ → Progress → Progress
  next attempt p = run_attempt r node (rounds attempt) attempt p

  -- One attempt, given what the later ones come to.
  attempt-LoopResult :
      (left attempt : ℕ) (p : Progress) (o : TaskState × Option Patch)
      → Settled r node (rounds attempt) o
      → outcome attempt ≡ o
      → (is_retry (outcome attempt).0 ≡ true
          → LoopResult
              (suc left)
              attempt
              (attempt_loop r node rounds left (suc attempt) (next attempt p)))
      → LoopResult (suc left) attempt (
          if is_retry (next attempt p).state
          then attempt_loop r node rounds left (suc attempt) (next attempt p)
          else some (next attempt p))
  unfolding run_attempt
  attempt-LoopResult left attempt p o (success q a) e later =
      subst (LoopResult (suc left) attempt) (sym (ap stop e)) (
        LoopResult.ended (next attempt p)
          (LoopEnd.won q (omega arith) (omega arith) (ap (λ z. z.0) e) (ap (λ z. z.1) e) a))
    where
      stop : TaskState × Option Patch → Option Progress
      stop z =
          if is_retry z.0
          then attempt_loop r node rounds left (suc attempt) (next attempt p)
          else some (next attempt p)
  attempt-LoopResult left attempt p o (failure s again) e later =
      let retry = ap (λ z. is_retry z.0) e ∙ again in
      subst (LoopResult (suc left) attempt)
        (sym (
          ap
            (λ b.
              if b
              then attempt_loop r node rounds left (suc attempt) (next attempt p)
              else some (next attempt p))
            retry))
        (later retry)

  lost_at :
      (attempt : ℕ)
      → is_retry (outcome attempt).0 ≡ true
      → (k : ℕ) → attempt ≤ k
      → k < attempt + 1
      → is_retry (outcome k).0 ≡ true
  lost_at attempt h k m n = subst (λ j. is_retry (outcome j).0 ≡ true) same h
    where
      same : attempt ≡ k
      same = omega arith

  granted-LoopResult :
      (left attempt : ℕ) (o : Option Progress) (b : Bool)
      → (rounds attempt).acquired ≡ b
      → LoopResult (suc left) attempt o
      → LoopResult (suc left) attempt (if b then o else none)
  granted-LoopResult left attempt o true h l = l
  granted-LoopResult left attempt o false h l =
      LoopResult.refused attempt (omega arith) (omega arith) h

  attempt_loop-LoopResult :
      (left attempt : ℕ) (p : Progress)
      → LoopResult (suc left) attempt (attempt_loop r node rounds (suc left) attempt p)
  unfolding attempt_loop
  attempt_loop-LoopResult zero attempt p =
      granted-LoopResult zero attempt _ (rounds attempt).acquired refl (
        attempt-LoopResult zero attempt p _ (run_outcome-Settled r node (rounds attempt)) refl (λ h.
          LoopResult.ended (next attempt p) (
            LoopEnd.lost (unfold run_attempt in omega arith) (unfold run_attempt in h)
              (lost_at attempt h))))
  attempt_loop-LoopResult (suc left) attempt p =
      granted-LoopResult (suc left) attempt _ (rounds attempt).acquired refl (
        attempt-LoopResult (suc left) attempt p _ (run_outcome-Settled r node (rounds attempt)) refl
          (λ h. LoopResult-later h (attempt_loop-LoopResult left (suc attempt) (next attempt p))))

  -- How the dispatch of a scope with `max` attempts ends.
  pub data Ends (max : ℕ) : Option Progress → Type 0 where
    held_elsewhere : (k : ℕ) → 1 ≤ k → k ≤ max → (rounds k).acquired ≡ false → Ends max none
    accepted :
        (q : Progress) (p : Patch)
        → 1 ≤ q.attempts
        → q.attempts ≤ max
        → q.state ≡ validated
        → q.patch ≡ some p
        → IsAccepted r node (rounds q.attempts) p
        → Ends max (some q)
    gave_up :
        (q : Progress)
        → q.attempts ≡ max
        → q.state ≡ abandoned
        → q.patch ≡ none
        → ((k : ℕ) → 1 ≤ k → k ≤ max → is_retry (run_outcome r node (rounds k)).0 ≡ true)
        → Ends max (some q)

  abandon-Ends :
      (left : ℕ) (q : Progress)
      → LoopEnd (suc left) 1 q
      → Ends (suc left) (some (abandon r node rounds q))
  abandon-Ends left q (won p a b c d e) =
      subst (λ z. Ends (suc left) (some z)) (sym (ap (λ s. if is_retry s then gone else q) c))
        (Ends.accepted q p a (omega arith) c d e)
    where
      gone : Progress
      gone = record {
        state = abandoned;
        patch = none;
        attempts = q.attempts;
        trace = q.trace ++ abandoned ∷ [];
      }
  abandon-Ends left q (lost a b c) =
      subst (λ z. Ends (suc left) (some z)) (sym (ap (λ s. if s then gone else q) b))
        (Ends.gave_up gone (omega arith) refl refl (λ k m n. c k m (omega arith)))
    where
      gone : Progress
      gone = record {
        state = abandoned;
        patch = none;
        attempts = q.attempts;
        trace = q.trace ++ abandoned ∷ [];
      }

  -- Every scope that is dispatched with at least one attempt reaches a terminal state within its
  -- attempts: either the lease of some attempt is refused and nothing is reported, or the scope is
  -- validated with the patch of its last attempt, which is well formed, of this scope, not silent
  -- and, if it has claims, has one that survives verification; or all attempts failed, and it is
  -- abandoned without a patch.
  pub dispatch_scope-Ends : (left : ℕ) → Ends (suc left) (dispatch_scope r node rounds (suc left))
  unfolding dispatch_scope
  dispatch_scope-Ends left = finish (attempt_loop-LoopResult left 1 not_dispatched)
    where
      finish :
          {o : Option Progress}
          → LoopResult (suc left) 1 o
          → Ends (suc left) (elim o [ none ↦ none | some p ↦ some (abandon r node rounds p) ])
      finish (refused k a b c) = Ends.held_elsewhere k a (omega arith) c
      finish (ended q e) = abandon-Ends left q e
