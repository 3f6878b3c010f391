-- ===== src/Partition.antt =====
-- cdp/partition.py: the tracked files are cut into scopes that fit a budget. Partition/Packing has
-- the merging of small scopes and Partition/Division the whole pass.
pub mod Packing
pub mod Division
pub mod Cutting
pub mod Depth
pub mod Families
pub mod Merging
pub mod Filling
pub mod Assertion
pub mod Exact
pub mod Budget
pub mod Weighing
pub mod Bins
pub mod Loads
use code_discovery_pyramid.Base.{
  ℕ, zero, suc, ◌+◌, Bool, true, false, not, Option, none, some, List, [], ◌∷◌, ◌++◌, map, ◌&&◌,
  ◌==◌, if◌then◌else◌, leb, length, is_empty, drop, filterb, sum_by, ◌>>=◌, pair_ord, nat_ord, Down,
  down, down_ord,
}
use code_discovery_pyramid.Base.Sorting.{sort_by}
use code_discovery_pyramid.Base.Dict.{
  Dict, keys, or_else, lookup_or, insert, lookup_list, group_into,
}
use code_discovery_pyramid.Base.Text.{Text, text, text_eq, text_ord}
use code_discovery_pyramid.Base.Text.Paths.{slash, cut_first}

-- A row of `inventory["files"]`.
pub record SourceFile : Type 0 where
  pub path : Text
  pub module_name : Text
  pub loc : ℕ
  pub language : Text
  pub role : Text

pub record Scope : Type 0 where
  pub node : Text
  pub module_name : Text
  pub files : List Text
  pub file_count : ℕ
  pub loc : ℕ
  pub by_language : Dict Text ℕ
  pub by_role : Dict Text ℕ
  pub oversized : Bool
  pub merged_from : List Text

-- `d[k] = d.get(k, 0) + n`
abbrev pub add_count : Text → ℕ → Dict Text ℕ → Dict Text ℕ
add_count k n d = insert k (lookup_or 0 k d + n) d

unfoldable pub count_by : (SourceFile → Text) → Dict Text ℕ → List SourceFile → Dict Text ℕ
count_by field d [] = d
count_by field d (f ∷ fs) = count_by field (add_count (field f) 1 d) fs

-- `sorted(counts.items(), key=lambda kv: (-kv[1], kv[0]))`
abbrev pub sort_counts : Dict Text ℕ → Dict Text ℕ
sort_counts d = sort_by {K = Down ℕ × Text} (λ p. (down p.1, p.0)) d

abbrev pub paths : List SourceFile → List Text
paths files = map (λ f. f.path) files

-- `_scope`
unfoldable pub scope_of : Text → Text → List SourceFile → Bool → Scope
scope_of node module_name files oversized = record {
  node = node;
  module_name = module_name;
  files = sort_by (λ p. p) (paths files);
  file_count = length (sort_by (λ p. p) (paths files));
  loc = sum_by (λ f. f.loc) files;
  by_language = sort_counts (count_by (λ f. f.language) [] files);
  by_role = sort_counts (count_by (λ f. f.role) [] files);
  oversized = oversized;
  merged_from = [];
}

-- The path below a prefix: `f["path"][len(prefix):]`.
abbrev pub rest_of : Text → SourceFile → Text
rest_of prefix f = drop (length prefix) f.path

abbrev pub first_part : Option (Text × Text) → Option Text
first_part none = none
first_part (some (a, b)) = some a

-- The next path segment, if the file lies in a directory below the prefix.
unfoldable pub segment_of : Text → SourceFile → Option Text
segment_of prefix f = first_part (cut_first slash (rest_of prefix f))

abbrev pub is_none {ℓ} : {A : Type ℓ} → Option A → Bool
is_none none = true
is_none (some a) = false

abbrev pub is_here : Text → SourceFile → Bool
is_here prefix f = is_none (segment_of prefix f)

abbrev pub directory_of : Text → SourceFile → Text
directory_of prefix f = or_else [] (segment_of prefix f)

abbrev pub files_here : Text → List SourceFile → List SourceFile
files_here prefix files = filterb (is_here prefix) files

abbrev pub directories : Text → List SourceFile → Dict Text (List SourceFile)
directories prefix files =
    group_into (directory_of prefix) [] (filterb (λ f. not (is_here prefix f)) files)

module _ (max_files max_loc : ℕ) where
  abbrev pub fits : List SourceFile → Bool
  fits files = leb (length files) max_files && leb (sum_by (λ f. f.loc) files) max_loc

  -- The scope of the files of a directory that are in none below it.
  abbrev pub here_scopes : Text → Text → List SourceFile → List Scope
  here_scopes node module_name here =
      if is_empty here then [] else scope_of (node ++ text "/(files)") module_name here false ∷ []

  -- `for name in sorted(groups): _cut(...)`, with the recursive call as an argument
  unfoldable pub cut_names :
      (Text → Text → List SourceFile → Option (List Scope))
      → Text
      → Text
      → Dict Text (List SourceFile)
      → List Text
      → Option (List Scope)
  cut_names recurse node prefix groups [] = some []
  cut_names recurse node prefix groups (name ∷ names) = do
    scopes ←
        recurse (node ++ (text "/" ++ name)) (prefix ++ (name ++ text "/"))
          (lookup_list name groups)
    others ← cut_names recurse node prefix groups names
    some (scopes ++ others)

  -- The split of a directory over budget.
  abbrev pub cut_directory :
      (Text → Text → List SourceFile → Option (List Scope))
      → Text
      → Text
      → Text
      → List SourceFile
      → Option (List Scope)
  cut_directory recurse node module_name prefix files = do
    scopes ←
        cut_names recurse node prefix (directories prefix files)
          (sort_by (λ k. k) (keys (directories prefix files)))
    some (here_scopes node module_name (files_here prefix files) ++ scopes)

  -- `_cut`, on fuel for the depth of the directories; `none` is out of fuel.
  unfoldable pub cut : ℕ → Text → Text → Text → List SourceFile → Option (List Scope)
  cut zero module_name node prefix files = none
  cut (suc fuel) module_name node prefix files =
      if is_empty files
      then some []
      else (if fits files
          then some (scope_of node module_name files false ∷ [])
          else (if is_empty (directories prefix files)
              then some (scope_of node module_name files true ∷ [])
              else cut_directory (cut fuel module_name) node module_name prefix files))
