-- ===== src/Examples/Cutting.antt =====
-- A small inventory, cut into scopes.
use code_discovery_pyramid.Base.{ℕ, false, Option, none, some, List, [], ◌∷◌, ◌≡◌, refl, map}
use mathlib.Core.List.{Memᴰ, Permᴰ}
use code_discovery_pyramid.Base.Sorting.{IsNodup}
use code_discovery_pyramid.Base.Text.{Text, text}
use code_discovery_pyramid.Base.Dict.{Dict}
use code_discovery_pyramid.Partition.{SourceFile, Scope, paths, scope_of}
use code_discovery_pyramid.Partition.Packing.{all_files, coalesce}
use code_discovery_pyramid.Partition.Division.{
  assert_partition, cut_inventory, partition, divided, Division, division,
}
use code_discovery_pyramid.Partition.Merging.{Coalesces, coalesce-Coalesces}
use code_discovery_pyramid.Partition.Assertion.{
  IsPartition, first_repeated-none, assert_partition-IsPartition,
}
use code_discovery_pyramid.Partition.Exact.{cut_inventory-returns, partition-IsPartition}
use code_discovery_pyramid.Partition.Budget.{IsWeighed}
use code_discovery_pyramid.Partition.Loads.{partition-IsWeighed}

abbrev source_file : Text → Text → ℕ → SourceFile
source_file path module_name loc = record {
  path = path;
  module_name = module_name;
  loc = loc;
  language = text "python";
  role = text "source";
}

abbrev app_file : SourceFile
app_file = source_file (text "app/x.py") (text "app") 10

abbrev core_files : List SourceFile
core_files =
    source_file (text "app/core/y.py") (text "app") 20
    ∷ source_file (text "app/core/z.py") (text "app") 30
    ∷ []

abbrev util_file : SourceFile
util_file = source_file (text "util/u.py") (text "util") 5

abbrev inventory : List SourceFile
inventory = app_file ∷ util_file ∷ core_files

abbrev as_given : List Text → List Text
as_given names = names

abbrev the_cuts : List Scope
the_cuts =
    scope_of (text "root/app/(files)") (text "app") (app_file ∷ []) false
    ∷ scope_of (text "root/app/core") (text "app") core_files false
    ∷ scope_of (text "root/util") (text "util") (util_file ∷ []) false
    ∷ []

cuts_there : cut_inventory [] as_given 2 6000 inventory ≡ some the_cuts
unfolding code_discovery_pyramid.Base.Dict.lookup code_discovery_pyramid.Base.Dict.insert
    code_discovery_pyramid.Base.Dict.push code_discovery_pyramid.Base.Dict.group_into
    code_discovery_pyramid.Base.Sorting.sort_by code_discovery_pyramid.Base.Sorting.dedup
    code_discovery_pyramid.Base.Sorting.sorted_set code_discovery_pyramid.Base.Text.is_space
    code_discovery_pyramid.Base.Text.strip code_discovery_pyramid.Base.Text.words
    code_discovery_pyramid.Base.Text.normalise_ws code_discovery_pyramid.Base.Text.decimal_fuel
    code_discovery_pyramid.Base.Text.decimal code_discovery_pyramid.Base.Text.Paths.cut_first
    code_discovery_pyramid.Base.Text.Paths.cut_last
    code_discovery_pyramid.Base.Text.Paths.before_last
    code_discovery_pyramid.Base.Text.Paths.after_last
    code_discovery_pyramid.Base.Text.Paths.split_on code_discovery_pyramid.Base.Text.Paths.lstrip_of
    code_discovery_pyramid.Base.Text.Paths.strip_of code_discovery_pyramid.Partition.count_by
    code_discovery_pyramid.Partition.scope_of code_discovery_pyramid.Partition.segment_of
    code_discovery_pyramid.Partition.cut_names code_discovery_pyramid.Partition.cut
    code_discovery_pyramid.Partition.Packing.add_counts
    code_discovery_pyramid.Partition.Packing.sum_counts
    code_discovery_pyramid.Partition.Packing.merge_into
    code_discovery_pyramid.Partition.Packing.mergeable
    code_discovery_pyramid.Partition.Packing.merge_first
    code_discovery_pyramid.Partition.Packing.merge_all
    code_discovery_pyramid.Partition.Packing.by_node
    code_discovery_pyramid.Partition.Packing.coalesce
    code_discovery_pyramid.Partition.Packing.common_prefix
    code_discovery_pyramid.Partition.Packing.packed_node
    code_discovery_pyramid.Partition.Packing.merge_scopes
    code_discovery_pyramid.Partition.Packing.place
    code_discovery_pyramid.Partition.Packing.place_all
    code_discovery_pyramid.Partition.Packing.pack_module
    code_discovery_pyramid.Partition.Packing.pack_siblings
    code_discovery_pyramid.Partition.Division.first_repeated
    code_discovery_pyramid.Partition.Division.assert_partition
    code_discovery_pyramid.Partition.Division.cut_modules
    code_discovery_pyramid.Partition.Division.cut_inventory
    code_discovery_pyramid.Partition.Division.arrange
    code_discovery_pyramid.Partition.Division.partition
cuts_there = refl

paths_distinct : IsNodup (paths inventory)
unfolding code_discovery_pyramid.Base.Dict.lookup code_discovery_pyramid.Base.Dict.insert
    code_discovery_pyramid.Base.Dict.push code_discovery_pyramid.Base.Dict.group_into
    code_discovery_pyramid.Base.Sorting.sort_by code_discovery_pyramid.Base.Sorting.dedup
    code_discovery_pyramid.Base.Sorting.sorted_set code_discovery_pyramid.Base.Text.is_space
    code_discovery_pyramid.Base.Text.strip code_discovery_pyramid.Base.Text.words
    code_discovery_pyramid.Base.Text.normalise_ws code_discovery_pyramid.Base.Text.decimal_fuel
    code_discovery_pyramid.Base.Text.decimal code_discovery_pyramid.Base.Text.Paths.cut_first
    code_discovery_pyramid.Base.Text.Paths.cut_last
    code_discovery_pyramid.Base.Text.Paths.before_last
    code_discovery_pyramid.Base.Text.Paths.after_last
    code_discovery_pyramid.Base.Text.Paths.split_on code_discovery_pyramid.Base.Text.Paths.lstrip_of
    code_discovery_pyramid.Base.Text.Paths.strip_of code_discovery_pyramid.Partition.count_by
    code_discovery_pyramid.Partition.scope_of code_discovery_pyramid.Partition.segment_of
    code_discovery_pyramid.Partition.cut_names code_discovery_pyramid.Partition.cut
    code_discovery_pyramid.Partition.Packing.add_counts
    code_discovery_pyramid.Partition.Packing.sum_counts
    code_discovery_pyramid.Partition.Packing.merge_into
    code_discovery_pyramid.Partition.Packing.mergeable
    code_discovery_pyramid.Partition.Packing.merge_first
    code_discovery_pyramid.Partition.Packing.merge_all
    code_discovery_pyramid.Partition.Packing.by_node
    code_discovery_pyramid.Partition.Packing.coalesce
    code_discovery_pyramid.Partition.Packing.common_prefix
    code_discovery_pyramid.Partition.Packing.packed_node
    code_discovery_pyramid.Partition.Packing.merge_scopes
    code_discovery_pyramid.Partition.Packing.place
    code_discovery_pyramid.Partition.Packing.place_all
    code_discovery_pyramid.Partition.Packing.pack_module
    code_discovery_pyramid.Partition.Packing.pack_siblings
    code_discovery_pyramid.Partition.Division.first_repeated
    code_discovery_pyramid.Partition.Division.assert_partition
    code_discovery_pyramid.Partition.Division.cut_modules
    code_discovery_pyramid.Partition.Division.cut_inventory
    code_discovery_pyramid.Partition.Division.arrange
    code_discovery_pyramid.Partition.Division.partition
paths_distinct = (first_repeated-none [] (paths inventory) refl).0

nodes_distinct : IsNodup (map (λ s. s.node) the_cuts)
unfolding code_discovery_pyramid.Base.Dict.lookup code_discovery_pyramid.Base.Dict.insert
    code_discovery_pyramid.Base.Dict.push code_discovery_pyramid.Base.Dict.group_into
    code_discovery_pyramid.Base.Sorting.sort_by code_discovery_pyramid.Base.Sorting.dedup
    code_discovery_pyramid.Base.Sorting.sorted_set code_discovery_pyramid.Base.Text.is_space
    code_discovery_pyramid.Base.Text.strip code_discovery_pyramid.Base.Text.words
    code_discovery_pyramid.Base.Text.normalise_ws code_discovery_pyramid.Base.Text.decimal_fuel
    code_discovery_pyramid.Base.Text.decimal code_discovery_pyramid.Base.Text.Paths.cut_first
    code_discovery_pyramid.Base.Text.Paths.cut_last
    code_discovery_pyramid.Base.Text.Paths.before_last
    code_discovery_pyramid.Base.Text.Paths.after_last
    code_discovery_pyramid.Base.Text.Paths.split_on code_discovery_pyramid.Base.Text.Paths.lstrip_of
    code_discovery_pyramid.Base.Text.Paths.strip_of code_discovery_pyramid.Partition.count_by
    code_discovery_pyramid.Partition.scope_of code_discovery_pyramid.Partition.segment_of
    code_discovery_pyramid.Partition.cut_names code_discovery_pyramid.Partition.cut
    code_discovery_pyramid.Partition.Packing.add_counts
    code_discovery_pyramid.Partition.Packing.sum_counts
    code_discovery_pyramid.Partition.Packing.merge_into
    code_discovery_pyramid.Partition.Packing.mergeable
    code_discovery_pyramid.Partition.Packing.merge_first
    code_discovery_pyramid.Partition.Packing.merge_all
    code_discovery_pyramid.Partition.Packing.by_node
    code_discovery_pyramid.Partition.Packing.coalesce
    code_discovery_pyramid.Partition.Packing.common_prefix
    code_discovery_pyramid.Partition.Packing.packed_node
    code_discovery_pyramid.Partition.Packing.merge_scopes
    code_discovery_pyramid.Partition.Packing.place
    code_discovery_pyramid.Partition.Packing.place_all
    code_discovery_pyramid.Partition.Packing.pack_module
    code_discovery_pyramid.Partition.Packing.pack_siblings
    code_discovery_pyramid.Partition.Division.first_repeated
    code_discovery_pyramid.Partition.Division.assert_partition
    code_discovery_pyramid.Partition.Division.cut_modules
    code_discovery_pyramid.Partition.Division.cut_inventory
    code_discovery_pyramid.Partition.Division.arrange
    code_discovery_pyramid.Partition.Division.partition
nodes_distinct = (first_repeated-none [] (map (λ s. s.node) the_cuts) refl).0

divided_there : partition [] as_given 2 6000 inventory ≡ divided (division 2 6000 the_cuts)
unfolding code_discovery_pyramid.Base.Dict.lookup code_discovery_pyramid.Base.Dict.insert
    code_discovery_pyramid.Base.Dict.push code_discovery_pyramid.Base.Dict.group_into
    code_discovery_pyramid.Base.Sorting.sort_by code_discovery_pyramid.Base.Sorting.dedup
    code_discovery_pyramid.Base.Sorting.sorted_set code_discovery_pyramid.Base.Text.is_space
    code_discovery_pyramid.Base.Text.strip code_discovery_pyramid.Base.Text.words
    code_discovery_pyramid.Base.Text.normalise_ws code_discovery_pyramid.Base.Text.decimal_fuel
    code_discovery_pyramid.Base.Text.decimal code_discovery_pyramid.Base.Text.Paths.cut_first
    code_discovery_pyramid.Base.Text.Paths.cut_last
    code_discovery_pyramid.Base.Text.Paths.before_last
    code_discovery_pyramid.Base.Text.Paths.after_last
    code_discovery_pyramid.Base.Text.Paths.split_on code_discovery_pyramid.Base.Text.Paths.lstrip_of
    code_discovery_pyramid.Base.Text.Paths.strip_of code_discovery_pyramid.Partition.count_by
    code_discovery_pyramid.Partition.scope_of code_discovery_pyramid.Partition.segment_of
    code_discovery_pyramid.Partition.cut_names code_discovery_pyramid.Partition.cut
    code_discovery_pyramid.Partition.Packing.add_counts
    code_discovery_pyramid.Partition.Packing.sum_counts
    code_discovery_pyramid.Partition.Packing.merge_into
    code_discovery_pyramid.Partition.Packing.mergeable
    code_discovery_pyramid.Partition.Packing.merge_first
    code_discovery_pyramid.Partition.Packing.merge_all
    code_discovery_pyramid.Partition.Packing.by_node
    code_discovery_pyramid.Partition.Packing.coalesce
    code_discovery_pyramid.Partition.Packing.common_prefix
    code_discovery_pyramid.Partition.Packing.packed_node
    code_discovery_pyramid.Partition.Packing.merge_scopes
    code_discovery_pyramid.Partition.Packing.place
    code_discovery_pyramid.Partition.Packing.place_all
    code_discovery_pyramid.Partition.Packing.pack_module
    code_discovery_pyramid.Partition.Packing.pack_siblings
    code_discovery_pyramid.Partition.Division.first_repeated
    code_discovery_pyramid.Partition.Division.assert_partition
    code_discovery_pyramid.Partition.Division.cut_modules
    code_discovery_pyramid.Partition.Division.cut_inventory
    code_discovery_pyramid.Partition.Division.arrange
    code_discovery_pyramid.Partition.Division.partition
divided_there = refl

partition-IsPartition_example :
    (scopes : List Scope) × (partition [] as_given 2 6000 inventory
      ≡ divided (division 2 6000 scopes))
    × IsPartition inventory scopes
partition-IsPartition_example =
    partition-IsPartition [] as_given 2 6000 inventory the_cuts paths_distinct cuts_there
      nodes_distinct

partition-IsWeighed_example :
    IsWeighed 2 6000 (scope_of (text "root/app/(files)") (text "app") (app_file ∷ []) false)
partition-IsWeighed_example =
    partition-IsWeighed [] as_given 2 6000 inventory (division 2 6000 the_cuts) divided_there
      (scope_of (text "root/app/(files)") (text "app") (app_file ∷ []) false) (Memᴰ.head refl)

assert_partition-IsPartition_example :
    (assert_partition inventory the_cuts ≡ none → IsPartition inventory the_cuts)
    × (IsPartition inventory the_cuts → assert_partition inventory the_cuts ≡ none)
assert_partition-IsPartition_example = assert_partition-IsPartition inventory the_cuts

cut_inventory-returns_example :
    (cuts : List Scope) × (cut_inventory [] as_given 2 6000 inventory ≡ some cuts)
    × Permᴰ (all_files cuts) (paths inventory)
cut_inventory-returns_example = cut_inventory-returns [] as_given 2 6000 inventory

coalesce-Coalesces_example :
    (merged : List Scope) × (coalesce 2 6000 as_given the_cuts ≡ some merged)
    × Coalesces 2 6000 as_given the_cuts merged
coalesce-Coalesces_example = coalesce-Coalesces 2 6000 as_given the_cuts nodes_distinct
