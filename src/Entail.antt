-- ===== src/Entail.antt =====
-- cdp/entail.py: each claim is judged against the structure that the extractor found.
pub mod Verdicts
use code_discovery_pyramid.Base.{
  ℕ, ◌+◌, Bool, true, false, not, Option, none, some, List, [], ◌∷◌, map, ◌||◌, ◌&&◌, ◌==◌,
  if◌then◌else◌, is_empty, contains, option_eq, pair_eq,
}
use code_discovery_pyramid.Base.Dict.{Dict, lookup, lookup_or, insert, or_else}
use code_discovery_pyramid.Base.Index.{first_by}
use code_discovery_pyramid.Base.Text.{Text, text, text_eq}
use code_discovery_pyramid.Claims.{
  Claim, Verdict, entailed, consistent, contradicted, AuthorKind, human, Confidence, contested,
}
use code_discovery_pyramid.Extract.{IoEdge, Definition, Extraction}

-- `channel and (subject, channel) in edge_keys`
unfoldable pub restates_edge : Extraction → Text → Option Text → Bool
restates_edge x subject none = false
restates_edge x subject (some channel) =
    not (is_empty channel)
    && contains {A = Text × Text} (subject, channel) (map (λ e. (e.source, e.channel)) x.io_edges)

-- A definition that disagrees with the visibility that a claim states.
unfoldable pub disagrees : Option Definition → Option Text → Bool
disagrees none visibility = false
disagrees (some d) none = false
disagrees (some d) (some v) = not (is_empty v) && not (d.visibility == some v)

unfoldable pub verdict_of : Extraction → Claim → Verdict
verdict_of x c =
    if restates_edge x c.subject c.channel
    then entailed
    else (if disagrees (lookup c.subject (first_by (λ d. d.fqn) [] x.defines)) c.visibility
        then contradicted
        else consistent)

abbrev pub is_human : Option AuthorKind → Bool
is_human (some human) = true
is_human _ = false

abbrev pub judged_confidence : Verdict → Claim → Confidence
judged_confidence contradicted c = if is_human c.author_kind then contested else c.confidence
judged_confidence _ c = c.confidence

unfoldable pub entail_claim : Extraction → Claim → Claim
entail_claim x c = record c {
  verdict = some (verdict_of x c);
  confidence = judged_confidence (verdict_of x c) c;
}

abbrev pub is_contradicted_claim : Claim → Bool
is_contradicted_claim c = elim c.verdict [
  | some contradicted ↦ true
  | some _ ↦ false
  | none ↦ false
]

unfoldable pub entail_claims : Extraction → List Claim → List Claim
entail_claims x cs = map (entail_claim x) cs

pub record Counts : Type 0 where
  pub entailed_count : ℕ
  pub consistent_count : ℕ
  pub contradicted_count : ℕ

abbrev pub no_counts : Counts
no_counts = record { entailed_count = 0; consistent_count = 0; contradicted_count = 0 }

unfoldable pub count_verdict : Verdict → Counts → Counts
count_verdict entailed n = record n { entailed_count = n.entailed_count + 1 }
count_verdict consistent n = record n { consistent_count = n.consistent_count + 1 }
count_verdict contradicted n = record n { contradicted_count = n.contradicted_count + 1 }

-- The nodes that a claim names; a claim that names none counts for "?".
unfoldable pub named_nodes : Claim → List Text
named_nodes c = elim c.source_nodes [
  | some (n ∷ ns) ↦ n ∷ ns
  | some [] ↦ text "?" ∷ []
  | none ↦ or_else (text "?") c.source_node ∷ []
]

unfoldable pub count_nodes : Verdict → List Text → Dict Text Counts → Dict Text Counts
count_nodes v [] d = d
count_nodes v (n ∷ ns) d = count_nodes v ns (insert n (count_verdict v (lookup_or no_counts n d)) d)

-- The counts of `summarize`; the ratios, which are floats, are not computed.
pub record Summary : Type 0 where
  pub counts : Counts
  pub by_node : Dict Text Counts

unfoldable pub summarize_into : Summary → List Claim → Summary
summarize_into s [] = s
summarize_into s (c ∷ cs) =
    let v = or_else consistent c.verdict in
    summarize_into
      (record {
        counts = count_verdict v s.counts;
        by_node = count_nodes v (named_nodes c) s.by_node;
      })
      cs

unfoldable pub summarize : List Claim → Summary
summarize cs = summarize_into (record { counts = no_counts; by_node = [] }) cs
