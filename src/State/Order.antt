-- ===== src/State/Order.antt =====
-- cdp/state.py: the order of the log does not reach the folded claims.
use mathlib.Core.List.Permᴰ
use mathlib.Core.List.{Memᴰ, Permᴰ, append_assoc}
use mathlib.Core.Path.{fun_ext}
use code_discovery_pyramid.Base.{
  ℕ, ◌≡◌, refl, sym, ap, ap₂, ◌∙◌, subst, inl, inr, Bool, false, not, Option, none, some, List, [],
  ◌∷◌, ◌++◌, map, Bool-cases, Option-cases, Memᴰ-perm, Memᴰ-of_filterb, filterb, filterb-perm,
  map-perm, length-perm, contains, contains→Memᴰ, Memᴰ→contains, some_inj, ◌>>=◌, nat_ord, pair_ord,
}
use code_discovery_pyramid.Base.Dict.{Dict, lookup}
use code_discovery_pyramid.Base.Sorting.{sort_by, sort_by-perm_eq, KeyDistinct}
use code_discovery_pyramid.Base.Best.{
  keep_all, RankDistinct, keep_all-perm, keep_all-lookup_perm, keep_all-IsNodup, Memᴰ-lookup,
}
use code_discovery_pyramid.Base.Index.{none≢some}
use code_discovery_pyramid.Base.Text.{Text, text_eq, text_ord}
use code_discovery_pyramid.Claims.{Anchor, Claim, Patch, PatchStatus}
use code_discovery_pyramid.Merge.{claim_sort_key}
use code_discovery_pyramid.Merge.Operator.{Merged, Conflict, NearMiss, Stats}
use code_discovery_pyramid.Merge.Independence.{merge_claims-perm}
use code_discovery_pyramid.Extract.{Extraction}
use code_discovery_pyramid.Entail.{Summary}
use code_discovery_pyramid.State.{
  rank, is_complete, node_status, complete_patches, best_complete, claims_of, entry_claims,
  superseded, has_source_in, live_claims, Scope, Coverage, cover, cover_all, coverage, no_coverage,
  without_runs, State, Repo, verify_log, assemble, fold,
}
use code_discovery_pyramid.State.Status.{
  attempt, rank_inj, note_statuses-keep_all, strength, at_node, note_complete-keep_all,
}

statuses-RankDistinct : (xs : List (Text × PatchStatus)) → RankDistinct rank xs
statuses-RankDistinct xs k v w m n h = rank_inj v w h

node_status-lookup_perm :
    {xs ys : List Patch}
    → Permᴰ xs ys
    → (n : Text) → lookup n (node_status xs) ≡ lookup n (node_status ys)
node_status-lookup_perm {xs} {ys} p n =
    ap (lookup n) (note_statuses-keep_all [] xs)
    ∙ (keep_all-lookup_perm rank (map-perm attempt p) (statuses-RankDistinct _)
          (statuses-RankDistinct _) n
        ∙ sym (ap (lookup n) (note_statuses-keep_all [] ys)))

node_status-perm : {xs ys : List Patch} → Permᴰ xs ys → Permᴰ (node_status xs) (node_status ys)
node_status-perm {xs} {ys} p =
    subst (λ d. Permᴰ d (node_status ys)) (sym (note_statuses-keep_all [] xs))
      (subst (Permᴰ (keep_all rank [] (map attempt xs))) (sym (note_statuses-keep_all [] ys)) (
        keep_all-perm rank (map-perm attempt p) (statuses-RankDistinct _)
          (statuses-RankDistinct _)))

node_status-KeyDistinct :
    (xs : List Patch) → KeyDistinct (λ (e : Text × PatchStatus). e.0) (node_status xs)
node_status-KeyDistinct xs =
    subst (KeyDistinct (λ (e : Text × PatchStatus). e.0)) (sym (note_statuses-keep_all [] xs))
      distinct
  where
    distinct : KeyDistinct (λ (e : Text × PatchStatus). e.0) (keep_all rank [] (map attempt xs))
    distinct (j, v) (k, w) m n h =
        let d = keep_all rank [] (map attempt xs) in
        let nodup = keep_all-IsNodup rank [] (map attempt xs) tt in
        ap₂ (λ a b. (a, b)) h
          (some_inj
            (sym (Memᴰ-lookup j d nodup m) ∙ (ap (λ i. lookup i d) h ∙ Memᴰ-lookup k d nodup n)))

-- Patches that the digest tells apart.
abbrev pub HashDistinct : (Patch → Text) → List Patch → Type 0
HashDistinct stable_hash ps =
    (p q : Patch) → Memᴰ p ps → Memᴰ q ps → stable_hash p ≡ stable_hash q → p ≡ q

contains-perm : (n : Text) {xs ys : List Text} → Permᴰ xs ys → contains n xs ≡ contains n ys
contains-perm n {xs} {ys} p = elim (Bool-cases (contains n xs)) [
  | inl h ↦ h ∙ sym (Memᴰ→contains (Memᴰ-perm p (contains→Memᴰ n xs h)))
  | inr h ↦ elim (Bool-cases (contains n ys)) [
    | inr k ↦ h ∙ sym k
    | inl k ↦ Memᴰ→contains (Memᴰ-perm (Permᴰ.symm p) (contains→Memᴰ n ys k)) ∙ sym k
  ]
]

claims_of-perm : {c d : Dict Text Patch} → Permᴰ c d → Permᴰ (claims_of c) (claims_of d)
unfolding claims_of
claims_of-perm Permᴰ.nil = Permᴰ.nil
claims_of-perm (Permᴰ.cons {a} {b} {l₁} {l₂} e p) =
    subst (λ z. Permᴰ (entry_claims a ++ claims_of l₁) (entry_claims z ++ claims_of l₂)) e
      (Permᴰ.append_left (entry_claims a) (claims_of-perm p))
claims_of-perm (Permᴰ.swap {a} {b} {a'} {b'} {l} e f) =
    subst (λ z. Permᴰ (claims_of (a ∷ b ∷ l)) (claims_of z)) (ap₂ (λ u v. u ∷ v ∷ l) f e)
      (subst (λ z. Permᴰ z (claims_of (b ∷ a ∷ l)))
        (append_assoc (entry_claims a) (entry_claims b) (claims_of l))
        (subst (Permᴰ ((entry_claims a ++ entry_claims b) ++ claims_of l))
          (append_assoc (entry_claims b) (entry_claims a) (claims_of l))
          (Permᴰ.append_right (claims_of l) (Permᴰ.append_comm (entry_claims a) (entry_claims b)))))
claims_of-perm (Permᴰ.trans p q) = Permᴰ.trans (claims_of-perm p) (claims_of-perm q)

filterb-cong {ℓ} :
    {A : Type ℓ} {f g : A → Bool}
    → ((a : A) → f a ≡ g a)
    → (xs : List A) → filterb f xs ≡ filterb g xs
filterb-cong h xs = ap (λ k. filterb k xs) (fun_ext h)

Memᴰ-at_node :
    (stable_hash : Patch → Text) {k : Text} {p : Patch} (ps : List Patch)
    → Memᴰ {A = Text × Patch} (k, p) (map (at_node stable_hash) ps)
    → Memᴰ p ps
Memᴰ-at_node stable_hash [] m = elim m [ ]
Memᴰ-at_node stable_hash (q ∷ ps) (Memᴰ.head e) = Memᴰ.head (ap (λ z. z.1) e)
Memᴰ-at_node stable_hash (q ∷ ps) (Memᴰ.tail m) = Memᴰ.tail (Memᴰ-at_node stable_hash ps m)

module _ (stable_hash : Patch → Text) where
  complete-RankDistinct :
      (ps : List Patch)
      → HashDistinct stable_hash ps
      → RankDistinct (strength stable_hash) (map (at_node stable_hash) (complete_patches ps))
  complete-RankDistinct ps distinct k v w m n h =
      distinct v w (in_log m) (in_log n) (ap (λ z. z.1) h)
    where
      in_log :
          {p : Patch}
          → Memᴰ {A = Text × Patch} (k, p) (map (at_node stable_hash) (complete_patches ps))
          → Memᴰ p ps
      in_log a =
          (Memᴰ-of_filterb (λ q. is_complete q.status) ps
            (Memᴰ-at_node stable_hash (complete_patches ps) a)).0

  HashDistinct-perm :
      {xs ys : List Patch} → Permᴰ xs ys → HashDistinct stable_hash xs → HashDistinct stable_hash ys
  HashDistinct-perm p d a b m n = d a b (Memᴰ-perm (Permᴰ.symm p) m) (Memᴰ-perm (Permᴰ.symm p) n)

  best_complete-perm :
      {xs ys : List Patch}
      → Permᴰ xs ys
      → HashDistinct stable_hash xs
      → Permᴰ (best_complete stable_hash xs) (best_complete stable_hash ys)
  best_complete-perm {xs} {ys} p d =
      subst (λ c. Permᴰ c (best_complete stable_hash ys))
        (sym (note_complete-keep_all stable_hash [] (complete_patches xs)))
        (subst
          (Permᴰ
            (keep_all (strength stable_hash) [] (map (at_node stable_hash) (complete_patches xs))))
          (sym (note_complete-keep_all stable_hash [] (complete_patches ys)))
          (keep_all-perm (strength stable_hash)
            (map-perm (at_node stable_hash) (filterb-perm (λ q. is_complete q.status) p))
            (complete-RankDistinct xs d) (complete-RankDistinct ys (HashDistinct-perm p d))))

  superseded-perm :
      {xs ys : List Patch}
      → Permᴰ xs ys
      → Permᴰ (superseded (node_status xs)) (superseded (node_status ys))
  unfolding superseded
  superseded-perm p =
      map-perm (λ e. e.0) (filterb-perm (λ e. not (is_complete e.1)) (node_status-perm p))

  has_source-perm :
      (xs ys : List Text)
      → Permᴰ xs ys
      → (c : Claim) → not (has_source_in xs c) ≡ not (has_source_in ys c)
  has_source-perm xs ys p c = elim (Option-cases c.source_node) [
    | inl h ↦ rw h refl
    | inr (n, h) ↦ rw h (ap not (contains-perm n p))
  ]

  live_claims-perm :
      {xs ys : List Patch}
      → Permᴰ xs ys
      → HashDistinct stable_hash xs
      → Permᴰ (live_claims stable_hash xs) (live_claims stable_hash ys)
  unfolding live_claims
  live_claims-perm {xs} {ys} p d =
      subst (Permᴰ (live_claims stable_hash xs))
        (filterb-cong (has_source-perm _ _ (superseded-perm p))
          (claims_of (best_complete stable_hash ys)))
        (filterb-perm (λ c. not (has_source_in (superseded (node_status xs)) c))
          (claims_of-perm (best_complete-perm p d)))

cover_all-cong :
    (c d : Dict Text PatchStatus)
    → ((n : Text) → lookup n c ≡ lookup n d)
    → (scopes : List Scope) (acc : Coverage) → cover_all c acc scopes ≡ cover_all d acc scopes
unfolding cover_all
cover_all-cong c d same [] acc = refl
cover_all-cong c d same (s ∷ ss) acc =
    cover_all-cong c d same ss _
    ∙ ap
        (λ found.
          cover_all d (cover (elim found [ none ↦ false | some t ↦ is_complete t ]) s acc) ss)
        (same s.node)

coverage-perm :
    {xs ys : List Patch}
    → Permᴰ xs ys
    → (scopes : List Scope) → coverage (node_status xs) scopes ≡ coverage (node_status ys) scopes
unfolding coverage
coverage-perm {xs} {ys} p scopes = ap arranged (
    cover_all-cong (node_status xs) (node_status ys) (node_status-lookup_perm p) scopes no_coverage)
  where
    arranged : Coverage → Coverage
    arranged c = record c { incomplete_nodes = sort_by (λ n. n) c.incomplete_nodes }

verify_log-perm :
    (repo : Option Repo) {xs ys : List Patch}
    → Permᴰ xs ys
    → Permᴰ (verify_log repo xs) (verify_log repo ys)
unfolding verify_log
verify_log-perm none p = p
verify_log-perm (some r) p = map-perm _ p

without_runs-perm :
    (excluded : List Text) {xs ys : List Patch}
    → Permᴰ xs ys
    → Permᴰ (without_runs excluded xs) (without_runs excluded ys)
unfolding without_runs
without_runs-perm excluded p = filterb-perm _ p

-- The parts of the state that the order of the log does not reach: all but the unknowns and the
-- errors, where a text that is shown may come from the first or the last of several patches.
abbrev pub View : Type 0
View =
    List Claim
    × (List Conflict
        × (List NearMiss
            × (Stats × (Dict Text PatchStatus × (Coverage × (Summary × (List Claim × ℕ)))))))

abbrev pub view : State → View
view s = (
  s.claims,
  (
    s.conflicts,
    (
      s.near_misses,
      (s.merge_stats, (s.nodes, (s.coverage, (s.entailment, (s.contradictions, s.patch_count))))),
    ),
  ),
)

module _ (evidence_hash : List Anchor → Text) (stable_hash : Patch → Text)
    (cluster_hash : Text × Text → Text) (symbols : Dict Text (List Text)) (scopes : List Scope)
    (extraction : Extraction) where
  assemble-perm :
      (excluded : List Text) {xs ys : List Patch}
      → Permᴰ xs ys
      → (m : Merged)
      → view
          (assemble evidence_hash stable_hash cluster_hash symbols scopes extraction excluded xs m)
        ≡ view (
            assemble evidence_hash stable_hash cluster_hash symbols scopes extraction excluded ys m)
  unfolding assemble
  assemble-perm excluded {xs} {ys} p m =
      let n =
        sort_by-perm_eq (λ (e : Text × PatchStatus). e.0) (node_status-perm p)
          (node_status-KeyDistinct xs) in
      let c = coverage-perm p scopes in let l = length-perm p in cc

  -- The state is a function of the set of patches: two logs that hold the same patches fold to the
  -- same claims, conflicts, near misses, counts, node statuses, coverage, entailment summary and
  -- contradictions, or both raise, if the digests tell the verified patches of the log apart and
  -- the sort key of merge tells its live claims apart.
  pub fold-perm :
      (repo : Option Repo) (excluded : List Text) {xs ys : List Patch}
      → Permᴰ xs ys
      → HashDistinct stable_hash (verify_log repo (without_runs excluded xs))
      → KeyDistinct
          (claim_sort_key evidence_hash)
          (live_claims stable_hash (verify_log repo (without_runs excluded xs)))
      → (fold evidence_hash stable_hash cluster_hash symbols scopes extraction repo excluded xs
          >>= λ s. some (view s))
        ≡ (fold evidence_hash stable_hash cluster_hash symbols scopes extraction repo excluded ys
            >>= λ s. some (view s))
  unfolding fold
  fold-perm repo excluded {xs} {ys} p distinct keyed =
      let q = verify_log-perm repo (without_runs-perm excluded p) in
      views _ _ _ _
        (merge_claims-perm evidence_hash symbols (live_claims-perm stable_hash q distinct) keyed)
        (assemble-perm excluded q)
    where
      views :
          (o o' : Option Merged) (f g : Merged → State)
          → o ≡ o'
          → ((m : Merged) → view (f m) ≡ view (g m))
          → ((o >>= λ m. some (f m)) >>= λ s. some (view s))
            ≡ ((o' >>= λ m. some (g m)) >>= λ s. some (view s))
      views none none f g e h = refl
      views (some m) (some m') f g e h = ap some (h m ∙ ap (λ z. view (g z)) (some_inj e))
      views none (some m') f g e h = absurd (none≢some e)
      views (some m) none f g e h = absurd (none≢some (sym e))
