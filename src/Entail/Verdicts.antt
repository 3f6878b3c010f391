-- ===== src/Entail/Verdicts.antt =====
-- cdp/entail.py: the verdict of a claim says what the structure shows.
use mathlib.Core.List.{Memᴰ}
use code_discovery_pyramid.Base.{
  ◌≡◌, ◌≢◌, refl, sym, ap, ◌∙◌, ◌⊎◌, inl, inr, true, false, Option, none, some, List, [], ◌∷◌, map,
  Bool-cases, ==_false→ne, contains, contains→Memᴰ, pair_eq, option_eq, ◌==◌, arith,
}
use code_discovery_pyramid.Base.Dict.{lookup}
use code_discovery_pyramid.Base.Index.{
  first_by, first_by-source, none≢some, Pointwise, map-Pointwise,
}
use code_discovery_pyramid.Base.Text.{Text, text_eq}
use code_discovery_pyramid.Claims.{Claim, Verdict, entailed, consistent, contradicted, contested}
use code_discovery_pyramid.Extract.{IoEdge, Definition, Extraction}
use code_discovery_pyramid.Entail.{
  restates_edge, disagrees, verdict_of, is_human, judged_confidence, entail_claim, entail_claims,
}

module _ (x : Extraction) where
  -- An I/O edge out of the claim's subject on the claim's channel.
  pub record Restates (c : Claim) (e : IoEdge) : Type 0 where
    pub extracted : Memᴰ e x.io_edges
    pub same_subject : e.source ≡ c.subject
    pub same_channel : c.channel ≡ some e.channel

  -- A definition of the claim's subject whose visibility is not the one that the claim states.
  pub record Refutes (c : Claim) (d : Definition) : Type 0 where
    pub extracted : Memᴰ d x.defines
    pub same_subject : d.fqn ≡ c.subject
    pub stated : Text
    pub claimed : c.visibility ≡ some stated
    pub differs : d.visibility ≢ some stated

  pub data Justified (c : Claim) : Verdict → Type 0 where
    by_edge : (e : IoEdge) → Restates c e → Justified c entailed
    by_definition :
        (d : Definition)
        → restates_edge x c.subject c.channel ≡ false
        → Refutes c d
        → Justified c contradicted
    by_silence : restates_edge x c.subject c.channel ≡ false → Justified c consistent

  edge_of :
      (s ch : Text) (es : List IoEdge)
      → Memᴰ {A = Text × Text} (s, ch) (map (λ e. (e.source, e.channel)) es)
      → (e : IoEdge) × Memᴰ e es × (e.source ≡ s) × (e.channel ≡ ch)
  edge_of s ch [] m = elim m [ ]
  edge_of s ch (e ∷ es) (Memᴰ.head p) =
      (e, Memᴰ.head refl, sym (ap (λ z. z.0) p), sym (ap (λ z. z.1) p))
  edge_of s ch (e ∷ es) (Memᴰ.tail m) =
      let (f, k, p, q) = edge_of s ch es m in (f, Memᴰ.tail k, p, q)

  restates_edge-Restates :
      (c : Claim) (channel : Option Text)
      → c.channel ≡ channel
      → restates_edge x c.subject channel ≡ true
      → (e : IoEdge) × Restates c e
  unfolding restates_edge
  restates_edge-Restates c none h k = absurd (ground arith)
  restates_edge-Restates c (some ch) h k =
      let found : contains {A = Text × Text} (c.subject, ch)
            (map (λ e. (e.source, e.channel)) x.io_edges)
          ≡ true =
        ground arith in
      let (e, m, p, q) = edge_of c.subject ch x.io_edges (contains→Memᴰ (c.subject, ch) _ found) in
      (e, record { extracted = m; same_subject = p; same_channel = h ∙ ap some (sym q) })

  disagrees-Refutes :
      (c : Claim) (found : Option Definition) (visibility : Option Text)
      → lookup c.subject (first_by (λ d. d.fqn) [] x.defines) ≡ found
      → c.visibility ≡ visibility
      → disagrees found visibility ≡ true
      → (d : Definition) × Refutes c d
  unfolding disagrees lookup
  disagrees-Refutes c none visibility h k l = absurd (ground arith)
  disagrees-Refutes c (some d) none h k l = absurd (ground arith)
  disagrees-Refutes c (some d) (some v) h k l =
      elim (first_by-source (λ z. z.fqn) c.subject [] x.defines h) [
        | inl nowhere ↦ absurd (none≢some nowhere)
        | inr (m, p) ↦ (
          d,
          record {
            extracted = m;
            same_subject = sym p;
            stated = v;
            claimed = k;
            differs = ==_false→ne d.visibility (some v) unlike;
          },
        )
      ]
    where
      unlike : (d.visibility == some v) ≡ false
      unlike = ground arith

  verdict_of-Justified : (c : Claim) → Justified c (verdict_of x c)
  unfolding verdict_of
  verdict_of-Justified c = elim (Bool-cases (restates_edge x c.subject c.channel)) [
    | inl h ↦ rw h (let (e, r) = restates_edge-Restates c c.channel refl h in Justified.by_edge e r)
    | inr h ↦
        elim (Bool-cases
          (disagrees (lookup c.subject (first_by (λ d. d.fqn) [] x.defines)) c.visibility)) [
            | inl k ↦
                rw (h, k)
                  (let (d, r) = disagrees-Refutes c _ c.visibility refl refl k in
                    Justified.by_definition d h r)
            | inr k ↦ rw (h, k) (Justified.by_silence h)
          ]
  ]

  -- What `entail_claims` may do to a claim.
  pub record Judged (c out : Claim) : Type 0 where
    pub verdict : Verdict
    pub justified : Justified c verdict
    pub annotated : out ≡ record c { verdict = some verdict; confidence = out.confidence }
    pub confidence :
        (out.confidence ≡ c.confidence)
        ⊎ ((verdict ≡ contradicted)
            × (is_human c.author_kind ≡ true)
            × (out.confidence ≡ contested))

  judged_confidence-cases :
      (v : Verdict) (c : Claim)
      → (judged_confidence v c ≡ c.confidence)
        ⊎ ((v ≡ contradicted)
            × (is_human c.author_kind ≡ true)
            × (judged_confidence v c ≡ contested))
  judged_confidence-cases entailed c = inl refl
  judged_confidence-cases consistent c = inl refl
  judged_confidence-cases contradicted c = elim (Bool-cases (is_human c.author_kind)) [
    | inl h ↦ inr (refl, h, rw h)
    | inr h ↦ inl (rw h)
  ]

  -- Entailment annotates: `entail_claims` keeps every claim in its place and changes nothing of it
  -- but the verdict and, where a human's claim is contradicted, the confidence, to contested. The
  -- verdict is entailed only by an extracted edge of the same subject and channel, and contradicted
  -- only by an extracted definition of the subject with another visibility than the one stated.
  pub entail_claims-Judged : (cs : List Claim) → Pointwise Judged cs (entail_claims x cs)
  unfolding entail_claims entail_claim
  entail_claims-Judged cs = map-Pointwise Judged (entail_claim x) judge cs
    where
      judge : (c : Claim) → Judged c (entail_claim x c)
      judge c = record {
        verdict = verdict_of x c;
        justified = verdict_of-Justified c;
        annotated = refl;
        confidence = judged_confidence-cases (verdict_of x c) c;
      }
