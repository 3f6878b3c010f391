-- ===== src/State/Tally.antt =====
-- cdp/state.py: what `_coverage` counts.
use mathlib.Core.List.{Permᴰ, append_assoc, append-nil}
use code_discovery_pyramid.Base.{
  ◌+◌, ◌≤◌, ◌≡◌, refl, sym, ◌∙◌, subst, inl, inr, Bool, true, false, not, List, [], ◌∷◌, ◌++◌, map,
  arith, Bool-cases, filterb, sum_by,
}
use code_discovery_pyramid.Base.Dict.{Dict}
use code_discovery_pyramid.Base.Sorting.{sort_by, sort_by-perm}
use code_discovery_pyramid.Base.Text.{Text, text_ord}
use code_discovery_pyramid.Claims.{PatchStatus}
use code_discovery_pyramid.State.{
  Scope, Coverage, no_coverage, has_status_complete, cover, cover_all, coverage,
}

module _ (statuses : Dict Text PatchStatus) where
  abbrev pub is_done : Scope → Bool
  is_done s = has_status_complete statuses s.node

  -- What the loop adds to the counters.
  record Adds (c : Coverage) (ss : List Scope) (d : Coverage) : Type 0 where
    pub total : d.files_total ≡ c.files_total + sum_by (λ s. s.file_count) ss
    pub done : d.files_complete ≡ c.files_complete + sum_by (λ s. s.file_count) (filterb is_done ss)
    pub missing :
        d.incomplete_nodes
        ≡ c.incomplete_nodes ++ map (λ s. s.node) (filterb (λ s. not (is_done s)) ss)

  cover-Adds :
      (s : Scope) (ss : List Scope) (c d : Coverage) (b : Bool)
      → is_done s ≡ b
      → Adds (cover b s c) ss d
      → Adds c (s ∷ ss) d
  cover-Adds s ss c d true h a = record {
    total = a.total ∙ omega arith;
    done = a.done ∙ (rw h (omega arith));
    missing = a.missing ∙ rw h refl;
  }
  cover-Adds s ss c d false h a = record {
    total = a.total ∙ omega arith;
    done = a.done ∙ rw h refl;
    missing = a.missing ∙ (rw h (append_assoc c.incomplete_nodes (s.node ∷ []) _));
  }

  cover_all-Adds : (ss : List Scope) (c : Coverage) → Adds c ss (cover_all statuses c ss)
  unfolding cover_all
  cover_all-Adds [] c = record {
    total = omega arith;
    done = omega arith;
    missing = sym (append-nil _);
  }
  cover_all-Adds (s ∷ ss) c =
      cover-Adds s ss c (cover_all statuses (cover (is_done s) s c) ss) (is_done s) refl
        (cover_all-Adds ss (cover (is_done s) s c))

  some_of_all :
      (ss : List Scope)
      → sum_by (λ s. s.file_count) (filterb is_done ss) ≤ sum_by (λ s. s.file_count) ss
  some_of_all [] = omega arith
  some_of_all (s ∷ ss) =
      let rest = some_of_all ss in
      elim (Bool-cases (is_done s)) [ inl h ↦ rw h (omega arith) | inr h ↦ rw h (omega arith) ]

  -- What `_coverage` says of the scopes of a partition.
  pub record Covers (ss : List Scope) (c : Coverage) : Type 0 where
    pub total : c.files_total ≡ sum_by (λ s. s.file_count) ss
    pub complete : c.files_complete ≡ sum_by (λ s. s.file_count) (filterb is_done ss)
    pub bounded : c.files_complete ≤ c.files_total
    pub holes : Permᴰ c.incomplete_nodes (map (λ s. s.node) (filterb (λ s. not (is_done s)) ss))

  -- Coverage marks its own holes: the total is the files of all scopes, the complete files are
  -- those of the scopes whose node has the status complete and are at most the total, and every
  -- other scope is listed as incomplete, once for each time it is in the partition.
  pub coverage-Covers : (ss : List Scope) → Covers ss (coverage statuses ss)
  unfolding coverage
  coverage-Covers ss =
      let a = cover_all-Adds ss no_coverage in
      let total = a.total in
      let done = a.done in
      let least = some_of_all ss in
      record {
        total = total ∙ omega arith;
        complete = done ∙ omega arith;
        bounded = omega arith;
        holes =
            subst (Permᴰ (sort_by (λ n. n) (cover_all statuses no_coverage ss).incomplete_nodes))
              a.missing
              (sort_by-perm (λ n. n) (cover_all statuses no_coverage ss).incomplete_nodes);
      }
