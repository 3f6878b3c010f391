-- ===== src/Examples/Checking.antt =====
-- Anchors in a file of two lines, a patch that cites it, a schedule and a dispatch.
use code_discovery_pyramid.Base.{
  ℕ, zero, suc, ◌<◌, ◌≤◌, Bool, true, false, Option, none, some, List, [], ◌∷◌, ◌++◌, ◌≡◌, ◌≢◌,
  refl, arith, ltb, leb→le, ==→eq, is_empty,
}
use code_discovery_pyramid.Base.Text.{Text, text, normalise_ws}
use code_discovery_pyramid.Claims.{Anchor, Patch, complete}
use code_discovery_pyramid.Anchor.{build_anchor, verify_anchor, located}
use code_discovery_pyramid.Anchor.RoundTrip.{IsLocated, verify_anchor-build_anchor}
use code_discovery_pyramid.Verify.{Sources, strict, verify_patch}
use code_discovery_pyramid.Verify.Demotion.{Demotes, verify_patch-Demotes}
use code_discovery_pyramid.Schedule.{Scope, Plan, build_schedule}
use code_discovery_pyramid.Schedule.Waves.{Schedules, build_schedule-Schedules}
use code_discovery_pyramid.Supervisor.{Round, no_file, Checkout, dispatch_scope, parsed}
use code_discovery_pyramid.Supervisor.Terminal.{Ends, dispatch_scope-Ends}
use mathlib.Core.List.{Memᴰ}
use code_discovery_pyramid.Verify.Totals.{verify_all, Balances, verify_all-Balances}
use code_discovery_pyramid.Supervisor.Wave.{
  Row, run_wave, IsReported, run_wave-IsReported, run_wave-answers,
}
use code_discovery_pyramid.Examples.Samples.{public_claim, the_anchor, patch_of}

abbrev file_lines : List Text
file_lines = text "def save(order):" ∷ text "    return store.put(order)" ∷ []

located_there : verify_anchor file_lines the_anchor ≡ located 1
unfolding code_discovery_pyramid.Base.Text.is_space code_discovery_pyramid.Base.Text.strip
    code_discovery_pyramid.Base.Text.words code_discovery_pyramid.Base.Text.normalise_ws
    code_discovery_pyramid.Base.Text.decimal_fuel code_discovery_pyramid.Base.Text.decimal
    code_discovery_pyramid.Anchor.parts_from code_discovery_pyramid.Anchor.find_in
    code_discovery_pyramid.Anchor.bisect_right code_discovery_pyramid.Anchor.line_of
    code_discovery_pyramid.Anchor.record_hit code_discovery_pyramid.Anchor.search_from
    code_discovery_pyramid.Anchor.find_needle code_discovery_pyramid.Anchor.find_matches
    code_discovery_pyramid.Anchor.qualifies code_discovery_pyramid.Anchor.span_text
    code_discovery_pyramid.Anchor.grow_down code_discovery_pyramid.Anchor.grow_up
    code_discovery_pyramid.Anchor.build_anchor code_discovery_pyramid.Anchor.verify_anchor
located_there = refl

abbrev second_anchor : Anchor
second_anchor = record { file = text "a.py"; line = 2; anchor = text "return store.put(order)" }

built : build_anchor (text "a.py") file_lines 1 ≡ some second_anchor
unfolding code_discovery_pyramid.Base.Text.is_space code_discovery_pyramid.Base.Text.strip
    code_discovery_pyramid.Base.Text.words code_discovery_pyramid.Base.Text.normalise_ws
    code_discovery_pyramid.Base.Text.decimal_fuel code_discovery_pyramid.Base.Text.decimal
    code_discovery_pyramid.Anchor.parts_from code_discovery_pyramid.Anchor.find_in
    code_discovery_pyramid.Anchor.bisect_right code_discovery_pyramid.Anchor.line_of
    code_discovery_pyramid.Anchor.record_hit code_discovery_pyramid.Anchor.search_from
    code_discovery_pyramid.Anchor.find_needle code_discovery_pyramid.Anchor.find_matches
    code_discovery_pyramid.Anchor.qualifies code_discovery_pyramid.Anchor.span_text
    code_discovery_pyramid.Anchor.grow_down code_discovery_pyramid.Anchor.grow_up
    code_discovery_pyramid.Anchor.build_anchor code_discovery_pyramid.Anchor.verify_anchor
built = refl

verify_anchor-build_anchor_example :
    (line : ℕ) × (verify_anchor file_lines second_anchor ≡ located line)
    × IsLocated file_lines second_anchor line
verify_anchor-build_anchor_example =
    verify_anchor-build_anchor (text "a.py") file_lines 1 second_anchor built

abbrev sources : Sources
sources = record { lines = λ f. file_lines; rename_map = []; edited_files = [] }

abbrev cited_patch : Patch
cited_patch = patch_of (text "orders") complete (public_claim ∷ []) []

verify_patch-Demotes_example :
    Demotes sources strict cited_patch
      (verify_patch sources strict none cited_patch).0
      (verify_patch sources strict none cited_patch).1
verify_patch-Demotes_example = verify_patch-Demotes sources strict none cited_patch

abbrev scope_of : Text → Scope
scope_of node = record {
  node = node;
  module_name = node;
  files = [];
  file_count = 1;
  loc = 10;
  scope_hash = none;
}

build_schedule-Schedules_example :
    (plan : Plan) × (build_schedule
        (scope_of (text "a") ∷ scope_of (text "b") ∷ [])
        ((text "a" ∷ []) ∷ (text "b" ∷ []) ∷ [])
        []
        2
      ≡ some plan)
    × (plan.max_concurrent ≡ 2)
    × Schedules
        (scope_of (text "a") ∷ scope_of (text "b") ∷ [])
        ((text "a" ∷ []) ∷ (text "b" ∷ []) ∷ [])
        plan
build_schedule-Schedules_example =
    build_schedule-Schedules (scope_of (text "a") ∷ scope_of (text "b") ∷ [])
      ((text "a" ∷ []) ∷ (text "b" ∷ []) ∷ []) [] 2 (leb→le 1 2 refl)

abbrev checkout : Checkout
checkout = record { sources = sources; mode = strict; head_sha = none }

-- The first attempt leaves nothing, the later ones a patch.
abbrev rounds : ℕ → Round
rounds zero = record { acquired = true; ok = true; inbox = no_file }
rounds (suc zero) = record { acquired = true; ok = true; inbox = no_file }
rounds (suc (suc k)) = record { acquired = true; ok = true; inbox = parsed cited_patch [] }

dispatch_scope-Ends_example :
    Ends checkout (text "orders") rounds 3 (dispatch_scope checkout (text "orders") rounds 3)
dispatch_scope-Ends_example = dispatch_scope-Ends checkout (text "orders") rounds 2

verify_all-Balances_example :
    Balances sources strict none
      (cited_patch ∷ cited_patch ∷ [])
      (verify_all sources strict none (cited_patch ∷ cited_patch ∷ [])).0
      (verify_all sources strict none (cited_patch ∷ cited_patch ∷ [])).1
verify_all-Balances_example =
    verify_all-Balances sources strict none (cited_patch ∷ cited_patch ∷ [])

abbrev wave_scopes : List Scope
wave_scopes = scope_of (text "carts") ∷ scope_of (text "orders") ∷ []

abbrev every_round : ℕ → ℕ → Round
every_round position = rounds

granted : (k : ℕ) → 1 ≤ k → k ≤ 3 → (every_round 1 k).acquired ≡ true
granted zero low high = refl
granted (suc zero) low high = refl
granted (suc (suc k)) low high = refl

run_wave-answers_example :
    (row : Row) × Memᴰ row (run_wave checkout every_round 3 (text "orders" ∷ []) [] wave_scopes)
    × (row.node ≡ text "orders")
run_wave-answers_example =
    run_wave-answers checkout every_round 2 (text "orders" ∷ []) [] wave_scopes 1
      (scope_of (text "orders")) refl refl granted

the_answer :
    (row : Row) × Memᴰ row (run_wave checkout every_round 3 (text "orders" ∷ []) [] wave_scopes)
    × (row.node ≡ text "orders")
the_answer =
    run_wave-answers checkout every_round 2 (text "orders" ∷ []) [] wave_scopes 1
      (scope_of (text "orders")) refl refl granted

run_wave-IsReported_example :
    IsReported checkout every_round 3 (text "orders" ∷ []) [] wave_scopes the_answer.0
run_wave-IsReported_example =
    run_wave-IsReported checkout every_round 2 (text "orders" ∷ []) [] wave_scopes the_answer.0
      the_answer.1
