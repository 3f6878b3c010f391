-- ===== src/Graph/Edges.antt =====
-- cdp/graph.py: `_observed_edges` and `_declared_edges`.
use code_discovery_pyramid.Base.{
  ℕ, ◌+◌, not, Option, none, some, List, [], ◌∷◌, ◌++◌, map, ◌&&◌, ◌==◌, if◌then◌else◌, contains,
  take, length, leb, ltb, is_empty, filterb, nat_eq, nat_ord, pair_ord, pair_eq, Down, down,
  down_ord,
}
use code_discovery_pyramid.Base.Sorting.{sort_by, sorted_set}
use code_discovery_pyramid.Base.Groups.{concat_map}
use code_discovery_pyramid.Base.Dict.{Dict, lookup, lookup_or, insert, lookup_list, group_into}
use code_discovery_pyramid.Base.Text.{Text, text, text_eq, text_ord, join}
use code_discovery_pyramid.Base.Text.Paths.{slash, dot, split_on, after_last}
use code_discovery_pyramid.Claims.{Anchor}
use code_discovery_pyramid.Graph.{Import, owners_of, looks_third_party}

pub record Unresolved : Type 0 where
  pub fqn : Text
  pub count : ℕ
  pub anchor : Anchor

-- What `_observed_edges` gathers.
pub record Gathered : Type 0 where
  pub weights : Dict (Text × Text) ℕ
  pub examples : Dict (Text × Text) (List Anchor)
  pub unresolved : Dict Text Unresolved
  pub third_party : Dict Text ℕ

abbrev pub nothing_gathered : Gathered
nothing_gathered = record { weights = []; examples = []; unresolved = []; third_party = [] }

-- `_package_root`
abbrev pub package_root : Text → Text
package_root fqn =
    let parts = split_on dot (map (λ c. if c == slash then dot else c) fqn) in
    if leb 3 (length parts) then join (text ".") (take 3 parts) else fqn

abbrev pub add_example : Anchor → List Anchor → List Anchor
add_example anchor anchors = if ltb (length anchors) 3 then anchors ++ anchor ∷ [] else anchors

abbrev pub count_edge : Text → Anchor → Gathered → Text → Gathered
count_edge src anchor g dst = record g {
  weights = insert (src, dst) (lookup_or 0 (src, dst) g.weights + 1) g.weights;
  examples = insert (src, dst) (add_example anchor (lookup_list (src, dst) g.examples)) g.examples;
}

unfoldable pub count_edges : Text → Anchor → Gathered → List Text → Gathered
count_edges src anchor g [] = g
count_edges src anchor g (dst ∷ dsts) = count_edges src anchor (count_edge src anchor g dst) dsts

abbrev pub slot_of : Import → Option Unresolved → Unresolved
slot_of row none = record { fqn = row.fqn; count = 1; anchor = row.anchor }
slot_of row (some slot) = record slot { count = slot.count + 1 }

-- An import that names no module.
abbrev pub note_external : Import → Gathered → Gathered
note_external row g =
    let root = package_root row.fqn in
    if looks_third_party row.fqn
    then record g { third_party = insert root (lookup_or 0 root g.third_party + 1) g.third_party }
    else record g {
      unresolved = insert row.fqn (slot_of row (lookup row.fqn g.unresolved)) g.unresolved;
    }

pub record ObservedEdge : Type 0 where
  pub from : Text
  pub to : Text
  pub weight : ℕ
  pub examples : List Anchor

pub record Observed : Type 0 where
  pub edges : List ObservedEdge
  pub unresolved : List Unresolved
  pub third_party : Dict Text ℕ

module _ (modules : List Text) (symbol_owner namespace_owner : Dict Text (List Text)) where
  -- The modules that an import reaches.
  abbrev pub internal : Import → List Text
  internal row =
      filterb (λ o. contains o modules && not (o == row.module_name))
        (owners_of symbol_owner namespace_owner row.fqn)

  unfoldable pub gather_row : Gathered → Import → Gathered
  gather_row g row =
      if is_empty (internal row)
      then (if is_empty (owners_of symbol_owner namespace_owner row.fqn)
          then note_external row g
          else g)
      else count_edges row.module_name row.anchor g (internal row)

  unfoldable pub gather : Gathered → List Import → Gathered
  gather g [] = g
  gather g (row ∷ rows) = gather (gather_row g row) rows

  abbrev pub edge_of : Gathered → (Text × Text) × ℕ → ObservedEdge
  edge_of g e = record {
    from = e.0.0;
    to = e.0.1;
    weight = e.1;
    examples = lookup_list e.0 g.examples;
  }

  abbrev pub observed_of : Gathered → Observed
  observed_of g = record {
    edges = map (edge_of g) (sort_by (λ e. e.0) g.weights);
    unresolved =
        take 200
          (sort_by {K = Down ℕ × Text} (λ u. (down u.count, u.fqn)) (map (λ e. e.1) g.unresolved));
    third_party = take 60 (sort_by {K = Down ℕ × Text} (λ e. (down e.1, e.0)) g.third_party);
  }

  -- `_observed_edges`
  unfoldable pub observed_edges : List Import → Observed
  observed_edges imports = observed_of (gather nothing_gathered imports)

pub record DeclaredEdge : Type 0 where
  pub from : Text
  pub to : Text

pub record Ambiguous : Type 0 where
  pub from : Text
  pub dep : Text
  pub candidates : List Text

module _ (modules : List Text) where
  -- The modules that a dependency of a module names: itself, or those with its last part.
  abbrev pub named_by : Text → List Text
  named_by dep =
      if contains dep modules
      then dep ∷ []
      else lookup_list dep (group_into (after_last slash) [] (sorted_set modules))

  abbrev pub candidates_of : Text → Text → List Text
  candidates_of src dep = filterb (λ c. not (c == src)) (named_by dep)

  abbrev pub sole : Text → List Text → List DeclaredEdge
  sole src [] = []
  sole src (c ∷ cs) = if is_empty cs then record { from = src; to = c } ∷ [] else []

  abbrev pub several : Text → Text → List Text → List Ambiguous
  several src dep cs =
      if ltb 1 (length cs) then record { from = src; dep = dep; candidates = cs } ∷ [] else []

  abbrev pub edges_from : Text × List Text → List DeclaredEdge
  edges_from (src, deps) = concat_map (λ dep. sole src (candidates_of src dep)) (sorted_set deps)

  abbrev pub ambiguous_from : Text × List Text → List Ambiguous
  ambiguous_from (src, deps) =
      concat_map (λ dep. several src dep (candidates_of src dep)) (sorted_set deps)

  -- `_declared_edges`
  unfoldable pub declared_edges : Dict Text (List Text) → List DeclaredEdge × List Ambiguous
  declared_edges declared_deps =
      let sorted_deps = sort_by (λ e. e.0) declared_deps in
      (
        sort_by {K = Text × Text} (λ e. (e.from, e.to)) (concat_map edges_from sorted_deps),
        sort_by {K = Text × Text} (λ a. (a.from, a.dep)) (concat_map ambiguous_from sorted_deps),
      )
