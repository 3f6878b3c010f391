-- ===== src/Extract.antt =====
-- The part of `extract.json` that claims and unknowns are judged by: I/O edges and definitions.
use code_discovery_pyramid.Base.{Option, List, [], ◌++◌, map, is_empty, filterb, not, pair_eq}
use code_discovery_pyramid.Base.Dict.{Dict}
use code_discovery_pyramid.Base.Index.{first_by}
use code_discovery_pyramid.Base.Text.{Text, text_eq}
use code_discovery_pyramid.Claims.{Anchor}

pub record IoEdge : Type 0 where
  pub source : Text
  pub target : Text
  pub channel : Text
  pub anchor : Anchor

pub record Definition : Type 0 where
  pub fqn : Text
  pub visibility : Option Text

pub record Extraction : Type 0 where
  pub io_edges : List IoEdge
  pub defines : List Definition

-- The structural index of `build_extraction_index`.
pub record Index : Type 0 where
  pub def_fqns : List Text
  pub edge_subjects : List Text
  pub edges_by_key : Dict (Text × Text) IoEdge

abbrev pub named : List Text → List Text
named xs = filterb (λ x. not (is_empty x)) xs

unfoldable pub build_extraction_index : Extraction → Index
build_extraction_index x = record {
  def_fqns = named (map (λ d. d.fqn) x.defines);
  edge_subjects = named (map (λ e. e.source) x.io_edges) ++ named (map (λ e. e.target) x.io_edges);
  edges_by_key = first_by (λ e. (e.source, e.channel)) [] x.io_edges;
}
