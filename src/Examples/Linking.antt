-- ===== src/Examples/Linking.antt =====
-- Three modules, the imports between them and what their manifests declare.
use mathlib.Core.List.Permᴰ
use mathlib.Core.List.{Memᴰ, Permᴰ}
use code_discovery_pyramid.Base.{ℕ, Option, none, some, List, [], ◌∷◌, ◌≡◌, refl}
use code_discovery_pyramid.Base.Dict.{Dict, keys}
use code_discovery_pyramid.Base.Sorting.{IsNodup}
use code_discovery_pyramid.Base.Text.{Text, text}
use code_discovery_pyramid.Graph.{Defined, Import, build_symbol_index}
use code_discovery_pyramid.Graph.Edges.{DeclaredEdge, declared_edges, observed_edges}
use code_discovery_pyramid.Graph.Declared.{NamesOnly, declared_edges-perm, declared_edges-NamesOnly}
use code_discovery_pyramid.Graph.Observed.{Counts, observed_edges-Counts}
use code_discovery_pyramid.Examples.Samples.{the_anchor}

abbrev modules : List Text
modules = text "core" ∷ text "web" ∷ text "jobs/core" ∷ []

abbrev manifests : Dict Text (List Text)
manifests = (text "web", text "core" ∷ []) ∷ []

abbrev web_edge : DeclaredEdge
web_edge = record { from = text "web"; to = text "core" }

swapped : Permᴰ modules (text "web" ∷ text "core" ∷ text "jobs/core" ∷ [])
swapped = Permᴰ.swap refl refl

manifests_distinct : IsNodup (keys manifests)
manifests_distinct = ((λ y m. elim m [ ]), tt)

declared_edges-perm_example :
    declared_edges modules manifests
    ≡ declared_edges (text "web" ∷ text "core" ∷ text "jobs/core" ∷ []) manifests
declared_edges-perm_example =
    declared_edges-perm swapped manifests manifests_distinct (Permᴰ.refl manifests)

drawn : Memᴰ web_edge (declared_edges modules manifests).0
unfolding code_discovery_pyramid.Base.Dict.lookup code_discovery_pyramid.Base.Dict.insert
    code_discovery_pyramid.Base.Dict.push code_discovery_pyramid.Base.Dict.group_into
    code_discovery_pyramid.Base.Sorting.sort_by code_discovery_pyramid.Base.Sorting.dedup
    code_discovery_pyramid.Base.Sorting.sorted_set code_discovery_pyramid.Base.Text.is_space
    code_discovery_pyramid.Base.Text.strip code_discovery_pyramid.Base.Text.words
    code_discovery_pyramid.Base.Text.normalise_ws code_discovery_pyramid.Base.Text.decimal_fuel
    code_discovery_pyramid.Base.Text.decimal code_discovery_pyramid.Base.Text.Paths.cut_first
    code_discovery_pyramid.Base.Text.Paths.cut_last
    code_discovery_pyramid.Base.Text.Paths.before_last
    code_discovery_pyramid.Base.Text.Paths.after_last
    code_discovery_pyramid.Base.Text.Paths.split_on code_discovery_pyramid.Base.Text.Paths.lstrip_of
    code_discovery_pyramid.Base.Text.Paths.strip_of code_discovery_pyramid.Graph.add_owner
    code_discovery_pyramid.Graph.index_symbols code_discovery_pyramid.Graph.index_namespaces
    code_discovery_pyramid.Graph.strip_star code_discovery_pyramid.Graph.last_cut
    code_discovery_pyramid.Graph.owners_from code_discovery_pyramid.Graph.owners_of
    code_discovery_pyramid.Graph.Edges.count_edges code_discovery_pyramid.Graph.Edges.gather_row
    code_discovery_pyramid.Graph.Edges.gather code_discovery_pyramid.Graph.Edges.observed_edges
    code_discovery_pyramid.Graph.Edges.declared_edges
drawn = Memᴰ.head refl

declared_edges-NamesOnly_example : NamesOnly modules manifests web_edge
declared_edges-NamesOnly_example = declared_edges-NamesOnly modules manifests web_edge drawn

abbrev defines : List Defined
defines =
    record { fqn = text "acme.Order"; module_name = text "core"; kind = text "class" }
    ∷ record { fqn = text "acme.web.Page"; module_name = text "web"; kind = text "class" }
    ∷ []

abbrev imports : List Import
imports =
    record { fqn = text "acme.Order"; module_name = text "web"; anchor = the_anchor }
    ∷ record { fqn = text "acme.*"; module_name = text "jobs/core"; anchor = the_anchor }
    ∷ []

observed_edges-Counts_example :
    Counts modules
      (build_symbol_index defines).0
      (build_symbol_index defines).1
      imports
      (observed_edges modules
        (build_symbol_index defines).0
        (build_symbol_index defines).1
        imports).edges
observed_edges-Counts_example =
    observed_edges-Counts modules (build_symbol_index defines).0 (build_symbol_index defines).1
      imports
