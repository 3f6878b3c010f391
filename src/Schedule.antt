-- ===== src/Schedule.antt =====
-- cdp/schedule.py: `build_schedule`. The scopes, sorted by the level of their module, are cut into
-- waves of one level and of at most `max_concurrent` scopes.
mod Slots
mod Placing
pub mod Waves
use code_discovery_pyramid.Base.{
  ℕ, zero, suc, ◌+◌, ◌≤◌, ◌≡◌, refl, Bool, true, false, Option, none, some, List, [], ◌∷◌, ◌++◌,
  map, if◌then◌else◌, ◌==◌, nat_eq, nat_ord, pair_ord, length, take, drop, sum_by, is_empty, ◌&&◌,
  not, option_eq,
}
use code_discovery_pyramid.Base.Dict.{Dict, insert, lookup_or, push, group_into, keys}
use code_discovery_pyramid.Base.Sorting.{sort_by, sorted_set}
use code_discovery_pyramid.Base.Text.{Text, text_eq, text_ord}

pub record Scope : Type 0 where
  pub node : Text
  pub module_name : Text
  pub files : List Text
  pub file_count : ℕ
  pub loc : ℕ
  pub scope_hash : Option Text

pub record Wave : Type 0 where
  pub wave : ℕ
  pub level : Option ℕ
  pub nodes : List Text
  pub file_count : ℕ
  pub loc : ℕ

-- An edge of `graph["observed"]`: its ends.
pub record Edge : Type 0 where
  pub from : Text
  pub to : Text

unfoldable pub add_layer : ℕ → List Text → Dict Text ℕ → Dict Text ℕ
add_layer i [] level_of = level_of
add_layer i (m ∷ ms) level_of = add_layer i ms (insert m i level_of)

-- `for i, layer in enumerate(levels): for module in layer: level_of[module] = i`
unfoldable pub levels_from : ℕ → List (List Text) → Dict Text ℕ → Dict Text ℕ
unfolding add_layer
levels_from i [] level_of = level_of
levels_from i (layer ∷ layers) level_of = levels_from (suc i) layers (add_layer i layer level_of)

unfoldable pub scope_level : Dict Text ℕ → Scope → ℕ
scope_level level_of s = lookup_or 0 s.module_name level_of

-- `[bucket[start : start + step] for start in range(0, len(bucket), step)]`, on fuel: each slice
-- takes a scope at least, so `length bucket` is enough.
unfoldable pub chunks_fuel : ℕ → ℕ → List Scope → List (List Scope)
chunks_fuel zero step bucket = []
chunks_fuel (suc fuel) step [] = []
chunks_fuel (suc fuel) step (s ∷ bucket) =
    take step (s ∷ bucket) ∷ chunks_fuel fuel step (drop step (s ∷ bucket))

unfoldable pub chunks : ℕ → List Scope → List (List Scope)
unfolding chunks_fuel
chunks step bucket = chunks_fuel (length bucket) step bucket

unfoldable pub wave_of : ℕ → Option ℕ → List Scope → Wave
wave_of index level chunk = record {
  wave = index;
  level = level;
  nodes = map (λ s. s.node) chunk;
  file_count = sum_by (λ s. s.file_count) chunk;
  loc = sum_by (λ s. s.loc) chunk;
}

-- `waves.append({"wave": len(waves), ...})` for each chunk
unfoldable pub append_waves : List Wave → Option ℕ → List (List Scope) → List Wave
unfolding wave_of
append_waves waves level [] = waves
append_waves waves level (c ∷ cs) =
    append_waves (waves ++ wave_of (length waves) level c ∷ []) level cs

pub record Loop : Type 0 where
  pub waves : List Wave
  pub current_level : Option ℕ
  pub bucket : List Scope

abbrev pub enter : Option ℕ → ℕ → Option ℕ
enter none level = some level
enter (some l) level = some l

module _ (max_concurrent : ℕ) where
  unfoldable pub flush : Loop → Loop
  unfolding append_waves chunks
  flush l = record l {
    waves = append_waves l.waves l.current_level (chunks max_concurrent l.bucket);
    bucket = [];
  }

  -- One round of the loop over the scopes.
  unfoldable pub place : (Scope → ℕ) → Loop → Scope → Loop
  unfolding flush
  place level_of l s =
      let level = level_of s in
      let entered = record l { current_level = enter l.current_level level } in
      let flushed = record (flush entered) { current_level = some level; bucket = s ∷ [] } in
      if entered.current_level == some level
      then record entered { bucket = l.bucket ++ s ∷ [] }
      else flushed

  unfoldable pub place_all : (Scope → ℕ) → Loop → List Scope → Loop
  unfolding place
  place_all level_of l [] = l
  place_all level_of l (s ∷ ss) = place_all level_of (place level_of l s) ss

abbrev pub empty_loop : Loop
empty_loop = record { waves = []; current_level = none; bucket = [] }

unfoldable pub assign_nodes : ℕ → List Text → Dict Text ℕ → Dict Text ℕ
assign_nodes w [] d = d
assign_nodes w (n ∷ ns) d = assign_nodes w ns (insert n w d)

unfoldable pub assign : List Wave → Dict Text ℕ → Dict Text ℕ
unfolding assign_nodes
assign [] d = d
assign (w ∷ ws) d = assign ws (assign_nodes w.wave w.nodes d)

pub record Totals : Type 0 where
  pub waves : ℕ
  pub nodes : ℕ
  pub source_loc_scheduled : ℕ

pub record Plan : Type 0 where
  pub max_concurrent : ℕ
  pub waves : List Wave
  pub node_wave : Dict Text ℕ
  pub module_level : Dict Text ℕ
  pub module_deps : Dict Text (List Text)
  pub totals : Totals

unfoldable pub schedule_waves : ℕ → (Scope → ℕ) → List Scope → List Wave
unfolding place_all flush
schedule_waves max_concurrent level_of scopes =
    (flush max_concurrent (place_all max_concurrent level_of empty_loop scopes)).waves

-- `deps.setdefault(edge["from"], []).append(edge["to"])`
unfoldable pub module_deps : List Edge → Dict Text (List Text) → Dict Text (List Text)
module_deps [] deps = deps
module_deps (e ∷ es) deps = module_deps es (push e.from e.to deps)

unfoldable pub plan_of : List Scope → List (List Text) → List Edge → ℕ → Plan
unfolding schedule_waves scope_level levels_from assign module_deps
plan_of scopes levels observed max_concurrent =
    let level_of = levels_from 0 levels [] in
    let ordered = sort_by {K = ℕ × Text} (λ s. (scope_level level_of s, s.node)) scopes in
    let waves = schedule_waves max_concurrent (scope_level level_of) ordered in
    let node_wave = assign waves [] in
    record {
      max_concurrent = max_concurrent;
      waves = waves;
      node_wave = sort_by (λ p. p.0) node_wave;
      module_level = sort_by (λ p. p.0) level_of;
      module_deps = map (λ p. (p.0, sorted_set p.1)) (sort_by (λ p. p.0) (module_deps observed []));
      totals = record {
        waves = length waves;
        nodes = length node_wave;
        source_loc_scheduled = sum_by (λ w. w.loc) waves;
      };
    }

-- `none` is the ValueError of `range` with a step of zero.
unfoldable pub build_schedule : List Scope → List (List Text) → List Edge → ℕ → Option Plan
unfolding plan_of
build_schedule scopes levels observed max_concurrent =
    if max_concurrent == 0 && not (is_empty scopes)
    then none
    else some (plan_of scopes levels observed max_concurrent)
