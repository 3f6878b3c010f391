-- ===== src/Partition/Division.antt =====
-- cdp/partition.py: `assert_partition` and `partition`.
use code_discovery_pyramid.Base.{
  ℕ, suc, max, not, Option, none, some, List, [], ◌∷◌, ◌++◌, ◌==◌, if◌then◌else◌, length, is_empty,
  filterb, sum_by, contains, ◌>>=◌, pair_ord, nat_ord, nat_eq, down_ord,
}
use code_discovery_pyramid.Base.Sorting.{sort_by}
use code_discovery_pyramid.Base.Dict.{Dict, keys, lookup_or, lookup_list, group_into}
use code_discovery_pyramid.Base.Text.{Text, text, text_eq, text_ord}
use code_discovery_pyramid.Partition.{SourceFile, Scope, paths, cut}
use code_discovery_pyramid.Partition.Packing.{all_files, coalesce, pack_siblings}

pub data PartitionError : Type 0 where
  claimed_twice : Text → PartitionError
  dropped : List Text → PartitionError
  invented : List Text → PartitionError
  out_of_fuel : PartitionError

-- The loop over `seen`: the first path that two scopes claim.
unfoldable pub first_repeated : List Text → List Text → Option Text
first_repeated seen [] = none
first_repeated seen (p ∷ ps) = if contains p seen then some p else first_repeated (p ∷ seen) ps

-- The error raised, given a path claimed twice, the missing paths and the extra ones.
abbrev pub complaint : Option Text → List Text → List Text → Option PartitionError
complaint (some p) missing extra = some (claimed_twice p)
complaint none (p ∷ missing) extra = some (dropped (p ∷ missing))
complaint none [] (p ∷ extra) = some (invented (p ∷ extra))
complaint none [] [] = none

-- The members of a list that another has not: `set(xs) - set(ys)`.
abbrev pub beyond : List Text → List Text → List Text
beyond xs ys = filterb (λ p. not (contains p ys)) xs

-- `assert_partition`
unfoldable pub assert_partition : List SourceFile → List Scope → Option PartitionError
assert_partition inventory scopes =
    complaint (first_repeated [] (all_files scopes)) (beyond (paths inventory) (all_files scopes))
      (beyond (all_files scopes) (paths inventory))

-- What `partition` returns.
pub record Division : Type 0 where
  pub max_files : ℕ
  pub max_loc : ℕ
  pub scopes : List Scope
  pub total_scopes : ℕ
  pub total_oversized : ℕ
  pub total_files : ℕ

abbrev pub division : ℕ → ℕ → List Scope → Division
division max_files max_loc scopes = record {
  max_files = max_files;
  max_loc = max_loc;
  scopes = scopes;
  total_scopes = length scopes;
  total_oversized = length (filterb (λ s. s.oversized) scopes);
  total_files = sum_by (λ s. s.file_count) scopes;
}

-- The division, or the CdpError that is raised.
pub data Outcome : Type 0 where
  divided : Division → Outcome
  raised : PartitionError → Outcome

-- ROOT_MODULE
abbrev pub root_module : Text
root_module = text "(root)"

abbrev pub longest_path : List SourceFile → ℕ
longest_path [] = 0
longest_path (f ∷ fs) = max (length f.path) (longest_path fs)

module _ (path_of : Dict Text Text) (set_order : List Text → List Text)
    (max_files max_loc : ℕ) where
  abbrev pub module_node : Text → Text
  module_node m = if m == root_module then text "root" else text "root/" ++ m

  abbrev pub module_path : Text → Text
  module_path m = lookup_or (if m == root_module then [] else m) m path_of

  abbrev pub module_prefix : Text → Text
  module_prefix m = if is_empty (module_path m) then [] else module_path m ++ text "/"

  abbrev pub cut_module : Dict Text (List SourceFile) → Text → Option (List Scope)
  cut_module groups m =
      let files = sort_by (λ f. f.path) (lookup_list m groups) in
      cut max_files max_loc (suc (longest_path files)) m (module_node m) (module_prefix m) files

  unfoldable pub cut_modules : Dict Text (List SourceFile) → List Text → Option (List Scope)
  cut_modules groups [] = some []
  cut_modules groups (m ∷ ms) = do
    scopes ← cut_module groups m
    others ← cut_modules groups ms
    some (scopes ++ others)

  unfoldable pub cut_inventory : List SourceFile → Option (List Scope)
  cut_inventory inventory =
      let groups = group_into (λ f. f.module_name) [] inventory in
      cut_modules groups (sort_by (λ m. m) (keys groups))

  unfoldable pub arrange : List SourceFile → Option (List Scope)
  arrange inventory = do
    cuts ← cut_inventory inventory
    merged ← coalesce max_files max_loc set_order cuts
    some (sort_by (λ s. s.node) (pack_siblings max_files max_loc merged))

  abbrev pub verdict : List Scope → Option PartitionError → Outcome
  verdict scopes none = divided (division max_files max_loc scopes)
  verdict scopes (some error) = raised error

  abbrev pub checked : List SourceFile → Option (List Scope) → Outcome
  checked inventory none = raised out_of_fuel
  checked inventory (some scopes) = verdict scopes (assert_partition inventory scopes)

  unfoldable pub partition : List SourceFile → Outcome
  partition inventory = checked inventory (arrange inventory)
