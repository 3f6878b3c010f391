-- ===== src/State/Status.antt =====
-- cdp/state.py: the two loops of `fold` over the log keep the best of each node.
use mathlib.Core.List.Memᴰ
use mathlib.Core.List.{Memᴰ}
use code_discovery_pyramid.Base.{
  ℕ, zero, suc, ◌≡◌, refl, sym, ap, ◌∙◌, inl, inr, Bool, true, not, Option, none, some, List, [],
  ◌∷◌, map, arith, Bool-cases, subst, ◌≤◌, leb→le, some_inj, if◌then◌else◌, ltb, leb, ◌≼◌, nat_ord,
  pair_ord, ◌==◌, nat_eq, ◌||◌, ◌&&◌,
}
use code_discovery_pyramid.Base.Dict.{Dict, lookup, insert, or_else, put_new}
use code_discovery_pyramid.Base.Best.{keep_best, put_best, keep_all, keep_all-source, keep_all-top}
use code_discovery_pyramid.Base.Index.{none≢some}
use code_discovery_pyramid.Base.Text.{Text, text_eq, text_ord}
use code_discovery_pyramid.Claims.{Patch, PatchStatus, pending, failed, invalid, complete}
use code_discovery_pyramid.State.{
  rank, note_status, note_statuses, node_status, generation_of, supersedes, put_complete,
  note_complete,
}

abbrev pub attempt : Patch → Text × PatchStatus
attempt p = (p.node, p.status)

pub rank_pos : (s : PatchStatus) → leb (rank s) 1 ≡ true → s ≡ pending
rank_pos pending h = refl
rank_pos failed h = absurd (ground arith)
rank_pos invalid h = absurd (ground arith)
rank_pos complete h = absurd (ground arith)

unrank : ℕ → PatchStatus
unrank zero = pending
unrank (suc zero) = pending
unrank (suc (suc zero)) = failed
unrank (suc (suc (suc zero))) = invalid
unrank (suc (suc (suc (suc n)))) = complete

unrank-rank : (s : PatchStatus) → unrank (rank s) ≡ s
unfolding unrank
unrank-rank pending = refl
unrank-rank failed = refl
unrank-rank invalid = refl
unrank-rank complete = refl

pub rank_inj : (s t : PatchStatus) → rank s ≡ rank t → s ≡ t
rank_inj s t h = sym (unrank-rank s) ∙ (ap unrank h ∙ unrank-rank t)

ltb-not-leb : (a b : ℕ) → ltb a b ≡ not (leb b a)
ltb-not-leb a b = ground arith

-- The source compares with `pending` where a node is new; the result is the same.
note_status-put_best :
    (found : Option PatchStatus) (n : Text) (s : PatchStatus) (d : Dict Text PatchStatus)
    → (if ltb (rank (or_else pending found)) (rank s) then insert n s d else put_new found n s d)
      ≡ put_best rank found n s d
note_status-put_best none n s d = elim (Bool-cases (ltb 1 (rank s))) [ inl h ↦ rw h | inr h ↦ rw h ]
note_status-put_best (some old) n s d =
    ap (λ b. if b then insert n s d else d) (ltb-not-leb (rank old) (rank s))

note_status-keep_best :
    (d : Dict Text PatchStatus) (p : Patch) → note_status d p ≡ keep_best rank p.node p.status d
unfolding note_status keep_best
note_status-keep_best d p = note_status-put_best (lookup p.node d) p.node p.status d

pub note_statuses-keep_all :
    (d : Dict Text PatchStatus) (ps : List Patch)
    → note_statuses d ps ≡ keep_all rank d (map attempt ps)
unfolding note_statuses keep_all
note_statuses-keep_all d [] = refl
note_statuses-keep_all d (p ∷ ps) =
    note_statuses-keep_all (note_status d p) ps
    ∙ ap (λ e. keep_all rank e (map attempt ps)) (note_status-keep_best d p)

module _ (stable_hash : Patch → Text) where
  abbrev pub strength : Patch → ℕ × Text
  strength p = (generation_of p, stable_hash p)

  supersedes-strength : (p q : Patch) → supersedes stable_hash p q ≡ not (strength p ≼ strength q)
  supersedes-strength p q =
      outranks (generation_of p) (generation_of q) (stable_hash p ≼ stable_hash q)
    where
      outranks :
          (a b : ℕ) (c : Bool)
          → (ltb b a || (a == b) && not c) ≡ not (leb a b && (not (leb b a) || c))
      outranks a b c = ground arith

  put_complete-put_best :
      (found : Option Patch) (p : Patch) (d : Dict Text Patch)
      → put_complete stable_hash found p d ≡ put_best strength found p.node p d
  put_complete-put_best none p d = refl
  put_complete-put_best (some q) p d =
      ap (λ b. if b then insert p.node p d else d) (supersedes-strength p q)

  abbrev pub at_node : Patch → Text × Patch
  at_node p = (p.node, p)

  pub note_complete-keep_all :
      (d : Dict Text Patch) (ps : List Patch)
      → note_complete stable_hash d ps ≡ keep_all strength d (map at_node ps)
  unfolding note_complete keep_all keep_best
  note_complete-keep_all d [] = refl
  note_complete-keep_all d (p ∷ ps) =
      ap (λ e. note_complete stable_hash e ps) (put_complete-put_best (lookup p.node d) p d)
      ∙ note_complete-keep_all (put_best strength (lookup p.node d) p.node p d) ps

Memᴰ-map-attempt :
    {n : Text} {s : PatchStatus} (ps : List Patch)
    → Memᴰ {A = Text × PatchStatus} (n, s) (map attempt ps)
    → (p : Patch) × Memᴰ p ps × (p.node ≡ n) × (p.status ≡ s)
Memᴰ-map-attempt [] m = elim m [ ]
Memᴰ-map-attempt (p ∷ ps) (Memᴰ.head e) =
    (p, Memᴰ.head refl, sym (ap (λ z. z.0) e), sym (ap (λ z. z.1) e))
Memᴰ-map-attempt (p ∷ ps) (Memᴰ.tail m) =
    let (q, k, e, f) = Memᴰ-map-attempt ps m in (q, Memᴰ.tail k, e, f)

-- The status `s` is that of the best attempt at node `n` in the log `ps`.
pub record IsBest (ps : List Patch) (n : Text) (s : PatchStatus) : Type 0 where
  pub listed : lookup n (node_status ps) ≡ some s
  pub best : Patch
  pub logged : Memᴰ best ps
  pub same_node : best.node ≡ n
  pub same_status : best.status ≡ s
  pub highest : (q : Patch) → Memᴰ q ps → q.node ≡ n → rank q.status ≤ rank s

-- Retry supersession: every node that the log names has a status, that of one of its attempts, and
-- no attempt at the node ranks above it, so a successful attempt outranks a failed one whichever
-- was written first.
pub node_status-IsBest :
    (ps : List Patch) (p : Patch) → Memᴰ p ps → (s : PatchStatus) × IsBest ps p.node s
unfolding lookup
node_status-IsBest ps p m =
    let (s, found, top) = keep_all-top rank p.node [] (map attempt ps) (Memᴰ.map attempt m) in
    elim (keep_all-source rank p.node [] (map attempt ps) found) [
      | inl nowhere ↦ absurd (none≢some nowhere)
      | inr n ↦
          let (b, k, e, f) = Memᴰ-map-attempt ps n in
          let listed = ap (lookup p.node) (note_statuses-keep_all [] ps) ∙ found in
          (
            s,
            record {
              listed = listed;
              best = b;
              logged = k;
              same_node = e;
              same_status = f;
              highest = (λ q a at.
                  let (t, g, h) = keep_all-top rank p.node [] (map attempt ps) (
                    subst (λ z. Memᴰ {A = Text × PatchStatus} (z, q.status) (map attempt ps)) at
                      (Memᴰ.map attempt a)) in
                  leb→le _ _ (
                    subst (λ z. leb (rank q.status) (rank z) ≡ true) (some_inj (sym g ∙ found)) h));
            },
          )
    ]
