-- ===== src/Partition/Packing.antt =====
-- cdp/partition.py: `_coalesce` and `_pack_siblings`.
use code_discovery_pyramid.Base.{
  ℕ, zero, suc, ◌+◌, ◌*◌, Bool, true, false, not, Option, none, some, List, [], ◌∷◌, ◌++◌, map,
  ◌&&◌, ◌||◌, ◌==◌, if◌then◌else◌, leb, ltb, length, is_empty, filterb, anyb, allb, sum_by,
  contains, ◌>>=◌, pair_ord, nat_ord, nat_eq, Down, down, down_ord,
}
use code_discovery_pyramid.Base.Sorting.{sort_by, dedup}
use code_discovery_pyramid.Base.Groups.{concat_map}
use code_discovery_pyramid.Base.Dict.{Dict, keys, values, insert, lookup_list, group_into}
use code_discovery_pyramid.Base.Text.{Text, text, text_eq, text_ord, starts_with, join, decimal}
use code_discovery_pyramid.Base.Text.Paths.{
  slash, before_last, after_last, count_char, split_on, strip_of,
}
use code_discovery_pyramid.Partition.{Scope, add_count, sort_counts}

-- `for k, v in counts.items(): d[k] = d.get(k, 0) + v`
unfoldable pub add_counts : Dict Text ℕ → Dict Text ℕ → Dict Text ℕ
add_counts d [] = d
add_counts d ((k, v) ∷ rest) = add_counts (add_count k v d) rest

unfoldable pub sum_counts : (Scope → Dict Text ℕ) → Dict Text ℕ → List Scope → Dict Text ℕ
sum_counts field d [] = d
sum_counts field d (s ∷ ss) = sum_counts field (add_counts d (field s)) ss

abbrev pub all_files : List Scope → List Text
all_files scopes = concat_map (λ s. s.files) scopes

-- `_coalesce`, the merge of a group of siblings into their parent.
unfoldable pub merge_into : Text → List Scope → Scope
merge_into parent group = record {
  node = parent;
  module_name = elim group [ [] ↦ [] | s ∷ ss ↦ s.module_name ];
  files = sort_by (λ p. p) (all_files group);
  file_count = sum_by (λ s. s.file_count) group;
  loc = sum_by (λ s. s.loc) group;
  by_language = sort_counts (sum_counts (λ s. s.by_language) [] group);
  by_role = sort_counts (sum_counts (λ s. s.by_role) [] group);
  oversized = false;
  merged_from = [];
}

abbrev pub is_below : Text → Text × Scope → Bool
is_below parent e = starts_with e.0 (parent ++ text "/")

abbrev pub is_parent : Text → Text × Scope → Bool
is_parent parent e = e.0 == parent

-- `children + ([parent] if parent in by_node else [])`
abbrev pub family : Text → Dict Text Scope → Dict Text Scope
family parent d = filterb (is_below parent) d ++ filterb (is_parent parent) d

abbrev pub strangers : Text → Dict Text Scope → Dict Text Scope
strangers parent d = filterb (λ e. not (is_below parent e || is_parent parent e)) d

abbrev pub one_module : List Scope → Bool
one_module [] = true
one_module (s ∷ ss) = allb (λ t. t.module_name == s.module_name) ss

module _ (max_files max_loc : ℕ) where
  abbrev pub within : ℕ → ℕ → Bool
  within files loc = leb files max_files && leb loc max_loc

  unfoldable pub mergeable : List Scope → Bool
  mergeable group =
      leb 2 (length group)
      && one_module group
      && within (sum_by (λ s. s.file_count) group) (sum_by (λ s. s.loc) group)
      && not (anyb (λ s. s.oversized) group)

  -- One round of `for parent in parents`, up to the first merge.
  unfoldable pub merge_first : Dict Text Scope → List Text → Option (Dict Text Scope)
  merge_first d [] = none
  merge_first d (parent ∷ parents) =
      if mergeable (values (family parent d))
      then some (insert parent (merge_into parent (values (family parent d))) (strangers parent d))
      else merge_first d parents

  -- The iteration order of a Python set of texts, which the hash seed decides.
  module _ (set_order : List Text → List Text) where
    abbrev pub parents_of : Dict Text Scope → List Text
    parents_of d =
        sort_by (λ p. down (count_char slash p))
          (set_order (dedup (map (before_last slash) (filterb (λ n. contains slash n) (keys d)))))

    -- The next turn of the loop, if this one has changed the dict.
    abbrev pub next_round :
        (Dict Text Scope → Option (Dict Text Scope))
        → Dict Text Scope
        → Option (Dict Text Scope)
        → Option (Dict Text Scope)
    next_round again d none = some d
    next_round again d (some changed) = again changed

    -- `while changed`, on fuel; `none` is out of fuel.
    unfoldable pub merge_all : ℕ → Dict Text Scope → Option (Dict Text Scope)
    merge_all zero d = none
    merge_all (suc fuel) d = next_round (merge_all fuel) d (merge_first d (parents_of d))

    unfoldable pub by_node : Dict Text Scope → List Scope → Dict Text Scope
    by_node d [] = d
    by_node d (s ∷ ss) = by_node (insert s.node s d) ss

    -- `_coalesce`
    unfoldable pub coalesce : List Scope → Option (List Scope)
    coalesce scopes = do d ← merge_all (suc (length scopes)) (by_node [] scopes); some (values d)

abbrev pub shared : List Text → List Text → List Text
shared [] ys = []
shared (x ∷ xs) [] = []
shared (x ∷ xs) (y ∷ ys) = if x == y then x ∷ shared xs ys else []

abbrev pub shared_all : List Text → List (List Text) → List Text
shared_all p [] = p
shared_all p (q ∷ qs) = shared_all (shared p q) qs

-- `_common_prefix`
unfoldable pub common_prefix : List Text → Text
common_prefix nodes = elim (map (split_on slash) nodes) [
  | [] ↦ []
  | p ∷ ps ↦ join (text "/") (shared_all p ps)
]

abbrev pub or_dot : Text → Text
or_dot s = if is_empty s then text "." else s

abbrev pub label_of : List Text → Text
label_of [] = []
label_of (n ∷ ns) = if is_empty ns then n else n ++ (text "+" ++ decimal (length ns))

-- The node of a packed scope.
unfoldable pub packed_node : List Text → Text
packed_node nodes =
    let parent = common_prefix nodes in
    let label = label_of (map (λ n. or_dot (strip_of (text "()") (after_last slash n))) nodes) in
    (if is_empty parent then [] else parent ++ text "/") ++ (text "(" ++ (label ++ text ")"))

-- `_merge_scopes`
unfoldable pub merge_scopes : List Scope → Scope
merge_scopes slot =
    let members = sort_by (λ s. s.node) slot in
    record {
      node = packed_node (map (λ s. s.node) members);
      module_name = elim members [ [] ↦ [] | s ∷ ss ↦ s.module_name ];
      files = sort_by (λ p. p) (all_files members);
      file_count = length (all_files members);
      loc = sum_by (λ s. s.loc) members;
      by_language = sort_counts (sum_counts (λ s. s.by_language) [] members);
      by_role = sort_counts (sum_counts (λ s. s.by_role) [] members);
      oversized = false;
      merged_from = map (λ s. s.node) members;
    }

module _ (max_files max_loc : ℕ) where
  abbrev pub is_small : Scope → Bool
  is_small s = not s.oversized && leb (s.file_count * 2) max_files && leb (s.loc * 2) max_loc

  abbrev pub has_room : Scope → List Scope → Bool
  has_room s slot =
      within max_files max_loc (sum_by (λ x. x.file_count) slot + s.file_count)
        (sum_by (λ x. x.loc) slot + s.loc)

  -- First fit: the scope joins the first bin with room, or opens one.
  unfoldable pub place : Scope → List (List Scope) → List (List Scope)
  place s [] = (s ∷ []) ∷ []
  place s (slot ∷ bins) = if has_room s slot then (slot ++ s ∷ []) ∷ bins else slot ∷ place s bins

  unfoldable pub place_all : List (List Scope) → List Scope → List (List Scope)
  place_all bins [] = bins
  place_all bins (s ∷ ss) = place_all (place s bins) ss

  abbrev pub close_bin : List Scope → Scope
  close_bin [] = merge_scopes []
  close_bin (s ∷ ss) = if is_empty ss then s else merge_scopes (s ∷ ss)

  abbrev pub by_size : List Scope → List Scope
  by_size small =
      sort_by {K = Down ℕ × (Down ℕ × Text)} (λ s. (down s.loc, (down s.file_count, s.node))) small

  -- The members of one module, the small ones packed.
  unfoldable pub pack_module : List Scope → List Scope
  pack_module members =
      let small = filterb is_small members in
      let nodes = map (λ s. s.node) small in
      if ltb (length small) 2
      then members
      else filterb (λ s. not (contains s.node nodes)) members
        ++ map close_bin (place_all [] (by_size small))

  -- `_pack_siblings`
  unfoldable pub pack_siblings : List Scope → List Scope
  pack_siblings scopes =
      let groups = group_into (λ s. s.module_name) [] scopes in
      concat_map (λ m. pack_module (lookup_list m groups)) (sort_by (λ m. m) (keys groups))
