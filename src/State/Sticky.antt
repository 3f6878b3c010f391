-- ===== src/State/Sticky.antt =====
-- cdp/state.py: no question is lost, and a scope that failed is stated as a gap.
use mathlib.Core.List.Permᴰ
use mathlib.Core.List.Memᴰ
use mathlib.Core.List.{Memᴰ}
use code_discovery_pyramid.Base.{
  ◌≡◌, ◌≢◌, refl, sym, ap, ◌∙◌, subst, ◌⊎◌, inl, inr, Bool, true, false, not, Option, none, some,
  List, [], ◌∷◌, ◌++◌, map, arith, Bool-cases, Memᴰ-perm, Memᴰ-of_filterb, Memᴰ-filterb,
  Memᴰ-append_left, Memᴰ-append_right, contains, contains→Memᴰ, Memᴰ→contains, >>=-eq-some,
  some_inj, pair_eq, pair_ord, ltb, length,
}
use code_discovery_pyramid.Base.Dict.{Dict, lookup_list}
use code_discovery_pyramid.Base.Best.{lookup-Memᴰ}
use code_discovery_pyramid.Base.Sorting.{sort_by, sort_by-perm}
use code_discovery_pyramid.Base.Text.{Text, text, text_eq, text_ord}
use code_discovery_pyramid.Claims.{Anchor, Claim, Unknown, Patch, PatchStatus}
use code_discovery_pyramid.Merge.Operator.{merge_claims}
use code_discovery_pyramid.Extract.{Extraction, Index, build_extraction_index}
use code_discovery_pyramid.Entail.{entail_claims}
use code_discovery_pyramid.Gates.{
  needs_known, grandfather, grandfather_needs, discharge_unknown, discharge_unknowns, cluster_key,
  annotate, cluster_unknowns,
}
use code_discovery_pyramid.Gates.Ratchet.{Outcome, stays, gone, answered, discharge_unknown-Outcome}
use code_discovery_pyramid.State.{
  is_complete, node_status, complete_patches, unknowns_of, asked_by, superseded, has_source_in,
  live_claims, gap, gaps, unknown_sort_key, unknown_key, dedupe_from, dedupe_unknowns, note_errors,
  Scope, State, Repo, verify_log, without_runs, open_questions, assemble, fold,
}
use code_discovery_pyramid.State.Status.{node_status-IsBest}

-- A row of `us` asks the question with the key `k`, its text and its source node.
pub record Asks (k : Text × Text) (us : List Unknown) : Type 0 where
  pub row : Unknown
  pub listed : Memᴰ row us
  pub same : unknown_key row ≡ k

map-Asks :
    (f : Unknown → Unknown)
    → ((u : Unknown) → unknown_key (f u) ≡ unknown_key u)
    → {k : Text × Text} {us : List Unknown} → Asks k us
    → Asks k (map f us)
map-Asks f keeps a = record {
  row = f a.row;
  listed = Memᴰ.map f a.listed;
  same = keeps a.row ∙ a.same;
}

grandfather-key : (u : Unknown) → unknown_key (grandfather u) ≡ unknown_key u
grandfather-key u = elim (Bool-cases (needs_known u.needs)) [
  | inl h ↦ rw h refl
  | inr h ↦ rw h refl
]

Outcome-key :
    {claims : List Claim} {index : Index} {nodes : List Text} {u v : Unknown}
    → Outcome claims index nodes u v
    → unknown_key v ≡ unknown_key u
Outcome-key stays = refl
Outcome-key (gone subject h k) = refl
Outcome-key (answered subject c h k) = refl

annotate-key :
    (h : Text × Text → Text) (groups : Dict (Text × Text) (List Unknown)) (u : Unknown)
    → unknown_key (annotate h groups u) ≡ unknown_key u
annotate-key h groups u =
    elim (Bool-cases (ltb (length (lookup_list (cluster_key h u) groups)) 2)) [
      | inl k ↦ rw k refl
      | inr k ↦ rw k refl
    ]

-- What the loop drops, it has seen.
dedupe_from-Asks :
    (seen : List (Text × Text)) (us : List Unknown) {u : Unknown}
    → Memᴰ u us
    → (contains (unknown_key u) seen ≡ true) ⊎ Asks (unknown_key u) (dedupe_from seen us)
unfolding dedupe_from
dedupe_from-Asks seen [] m = elim m [ ]
dedupe_from-Asks seen (v ∷ us) {u} (Memᴰ.head e) =
    elim (Bool-cases (contains (unknown_key v) seen)) [
      | inl h ↦ inl (ap (λ z. contains (unknown_key z) seen) e ∙ h)
      | inr h ↦
          rw h (inr (record { row = v; listed = Memᴰ.head refl; same = ap unknown_key (sym e) }))
    ]
dedupe_from-Asks seen (v ∷ us) {u} (Memᴰ.tail m) =
    elim (Bool-cases (contains (unknown_key v) seen)) [
      | inl h ↦ rw h (dedupe_from-Asks seen us m)
      | inr h ↦ rw h (later (dedupe_from-Asks (unknown_key v ∷ seen) us m))
    ]
  where
    later :
        (contains (unknown_key u) (unknown_key v ∷ seen) ≡ true)
          ⊎ Asks (unknown_key u) (dedupe_from (unknown_key v ∷ seen) us)
        → (contains (unknown_key u) seen ≡ true)
          ⊎ Asks (unknown_key u) (v ∷ dedupe_from (unknown_key v ∷ seen) us)
    later (inr a) = inr (record { row = a.row; listed = Memᴰ.tail a.listed; same = a.same })
    later (inl h) = elim (contains→Memᴰ (unknown_key u) (unknown_key v ∷ seen) h) [
      | Memᴰ.head e ↦ inr (record { row = v; listed = Memᴰ.head refl; same = sym e })
      | Memᴰ.tail k ↦ inl (Memᴰ→contains k)
    ]

dedupe_unknowns-Asks :
    (us : List Unknown) {u : Unknown} → Memᴰ u us → Asks (unknown_key u) (dedupe_unknowns us)
unfolding dedupe_unknowns
dedupe_unknowns-Asks us m =
    elim (dedupe_from-Asks [] (sort_by unknown_sort_key us)
      (Memᴰ-perm (Permᴰ.symm (sort_by-perm unknown_sort_key us)) m)) [
        | inl h ↦ absurd (ground arith)
        | inr a ↦ a
      ]

Memᴰ-unknowns_of :
    (ps : List Patch) {p : Patch} {u : Unknown}
    → Memᴰ p ps
    → Memᴰ u p.unknowns
    → Memᴰ (asked_by p.node u) (unknowns_of ps)
unfolding unknowns_of
Memᴰ-unknowns_of [] m n = elim m [ ]
Memᴰ-unknowns_of (q ∷ ps) {p} {u} (Memᴰ.head e) n =
    subst (λ z. Memᴰ (asked_by p.node u) (map (asked_by z.node) z.unknowns ++ unknowns_of ps)) e
      (Memᴰ-append_left (unknowns_of ps) (Memᴰ.map (asked_by p.node) n))
Memᴰ-unknowns_of (q ∷ ps) (Memᴰ.tail m) n =
    Memᴰ-append_right (map (asked_by q.node) q.unknowns) (Memᴰ-unknowns_of ps m n)

module _ (evidence_hash : List Anchor → Text) (stable_hash : Patch → Text)
    (cluster_hash : Text × Text → Text) (symbols : Dict Text (List Text)) (scopes : List Scope)
    (extraction : Extraction) where
  open_questions-Asks :
      (ps : List Patch) (claims : List Claim) {u : Unknown}
      → Memᴰ u (unknowns_of (complete_patches ps) ++ gaps (node_status ps) (note_errors [] ps))
      → Asks (unknown_key u) (
          open_questions evidence_hash stable_hash cluster_hash symbols scopes extraction ps claims)
  unfolding open_questions grandfather_needs discharge_unknowns cluster_unknowns
  open_questions-Asks ps claims m =
      map-Asks (annotate cluster_hash _) (annotate-key cluster_hash _) (
        map-Asks
          (discharge_unknown claims (build_extraction_index extraction) (map (λ s. s.node) scopes))
          (λ u. Outcome-key (
            discharge_unknown-Outcome claims (build_extraction_index extraction)
              (map (λ s. s.node) scopes) u))
          (map-Asks grandfather grandfather-key (dedupe_unknowns-Asks _ m)))

  -- Questions are sticky: in every fold that returns a state, each unknown of each complete patch
  -- that was not rolled back, of whatever generation, is still asked, in the same words and of the
  -- same node.
  pub fold-Asks :
      (repo : Option Repo) (excluded : List Text) (log : List Patch) {s : State}
      → fold evidence_hash stable_hash cluster_hash symbols scopes extraction repo excluded log
        ≡ some s
      → (p : Patch) (u : Unknown) → Memᴰ p (verify_log repo (without_runs excluded log))
      → is_complete p.status ≡ true
      → Memᴰ u p.unknowns
      → Asks (unknown_key (asked_by p.node u)) s.unknowns
  unfolding fold assemble
  fold-Asks repo excluded log {s} h p u m done n =
      let ps = verify_log repo (without_runs excluded log) in
      let (merged, e, f) =
        >>=-eq-some (merge_claims evidence_hash symbols (live_claims stable_hash ps)) _ h in
      subst (λ z. Asks (unknown_key (asked_by p.node u)) z.unknowns) (some_inj f)
        (open_questions-Asks ps (entail_claims extraction merged.claims) (
          Memᴰ-append_left _ (
            Memᴰ-unknowns_of (complete_patches ps) (Memᴰ-filterb (λ q. is_complete q.status) m done)
              n)))

  failed_node-superseded :
      (ps : List Patch) (p : Patch)
      → Memᴰ p ps
      → ((q : Patch) → Memᴰ q ps → q.node ≡ p.node → is_complete q.status ≡ false)
      → Memᴰ p.node (superseded (node_status ps))
  unfolding superseded
  failed_node-superseded ps p m none_complete =
      let (t, b) = node_status-IsBest ps p m in
      Memᴰ.map (λ (e : Text × PatchStatus). e.0)
        (Memᴰ-filterb (λ (e : Text × PatchStatus). not (is_complete e.1))
          (lookup-Memᴰ p.node (node_status ps) b.listed)
          (ap not (
            subst (λ z. is_complete z ≡ false) b.same_status
              (none_complete b.best b.logged b.same_node))))

  -- A failure is a stated gap: where all attempts at a node were unsuccessful, every fold that
  -- returns a state asks what the node contains, with the node as the source of the question.
  pub fold-states_gap :
      (repo : Option Repo) (excluded : List Text) (log : List Patch) {s : State}
      → fold evidence_hash stable_hash cluster_hash symbols scopes extraction repo excluded log
        ≡ some s
      → (p : Patch) → Memᴰ p (verify_log repo (without_runs excluded log))
      → ((q : Patch)
          → Memᴰ q (verify_log repo (without_runs excluded log))
          → q.node ≡ p.node
          → is_complete q.status ≡ false)
      → Asks
          (
            text "What does "
                ++ (p.node ++ text " contain? Its scope was not successfully examined."),
            p.node,
          )
          s.unknowns
  unfolding fold assemble gaps gap
  fold-states_gap repo excluded log {s} h p m none_complete =
      let ps = verify_log repo (without_runs excluded log) in
      let (merged, e, f) =
        >>=-eq-some (merge_claims evidence_hash symbols (live_claims stable_hash ps)) _ h in
      subst
        (λ z.
          Asks
            (
              text "What does "
                  ++ (p.node ++ text " contain? Its scope was not successfully examined."),
              p.node,
            )
            z.unknowns)
        (some_inj f)
        (open_questions-Asks ps (entail_claims extraction merged.claims) (
          Memᴰ-append_right (unknowns_of (complete_patches ps)) (
            Memᴰ.map (gap (node_status ps) (note_errors [] ps)) (
              Memᴰ-perm (Permᴰ.symm (sort_by-perm (λ n. n) (superseded (node_status ps))))
                (failed_node-superseded ps p m none_complete)))))

  -- A failure makes no claims: where all attempts at a node were unsuccessful, no claim that goes
  -- into the merge names the node as its source.
  pub live_claims-silent :
      (ps : List Patch) (p : Patch)
      → Memᴰ p ps
      → ((q : Patch) → Memᴰ q ps → q.node ≡ p.node → is_complete q.status ≡ false)
      → (c : Claim) → Memᴰ c (live_claims stable_hash ps)
      → c.source_node ≢ some p.node
  unfolding live_claims
  live_claims-silent ps p m none_complete c k e =
      let (a, b) = Memᴰ-of_filterb (λ d. not (has_source_in (superseded (node_status ps)) d)) _ k in
      let there = Memᴰ→contains (failed_node-superseded ps p m none_complete) in
      refuted _
        (sym (
            ap
              (λ o.
                not (elim o [ none ↦ false | some n ↦ contains n (superseded (node_status ps)) ]))
              e)
          ∙ b)
        there
    where
      refuted : (b : Bool) → not b ≡ true → b ≡ true → ⊥
      refuted b h k = ground arith
