-- ===== src/Partition/Merging.antt =====
-- cdp/partition.py: `_coalesce` returns, and moves no file.
use mathlib.Core.List.Permᴰ
use mathlib.Core.List.Memᴰ
use mathlib.Core.List.{Memᴰ, Permᴰ, map-append, append-nil, append_assoc}
use code_discovery_pyramid.Base.{
  ℕ, zero, suc, ◌≤◌, ◌<◌, ◌≡◌, refl, sym, ap, ap₂, ◌∙◌, subst, ◌⊎◌, inl, inr, Bool, true, ◌&&◌,
  none, some, List, [], ◌∷◌, ◌++◌, map, arith, Bool-cases, Option-cases, length, length-append,
  length-perm, length-map, ◌>>=◌, some_inj, Memᴰ-of_filterb, Memᴰ-append, Memᴰ-append_right, leb→le,
}
use code_discovery_pyramid.Base.Sorting.{IsNodup}
use code_discovery_pyramid.Base.Index.{none≢some}
use code_discovery_pyramid.Base.Dict.{Dict, keys, values, keys-insert-IsNodup}
use code_discovery_pyramid.Base.Text.{Text, text_eq, text_ord}
use code_discovery_pyramid.Partition.{Scope}
use code_discovery_pyramid.Partition.Packing.{
  all_files, merge_into, family, strangers, mergeable, merge_first, parents_of, next_round,
  merge_all, by_node, coalesce,
}
use code_discovery_pyramid.Partition.Families.{
  keys-filterb-IsNodup, insert-absent, family-strangers, merged, merged-append, merged-files,
}

-- A dict of scopes by their own nodes.
pub record IsByNode (d : Dict Text Scope) : Type 0 where
  pub distinct : IsNodup (keys d)
  pub named : (k : Text) (s : Scope) → Memᴰ {A = Text × Scope} (k, s) d → s.node ≡ k

merged-IsByNode : (parent : Text) (d : Dict Text Scope) → IsByNode d → IsByNode (merged parent d)
unfolding merge_into
merged-IsByNode parent d b = record {
  distinct =
      keys-insert-IsNodup parent _ (strangers parent d) (keys-filterb-IsNodup _ d b.distinct);
  named = λ k s m. from k s (
      Memᴰ-append (strangers parent d) ((parent, merge_into parent (values (family parent d))) ∷ [])
        (subst (Memᴰ {A = Text × Scope} (k, s)) (merged-append parent d) m));
}
  where
    from :
        (k : Text) (s : Scope)
        → Memᴰ {A = Text × Scope} (k, s) (strangers parent d)
          ⊎ Memᴰ {A = Text × Scope}
              (k, s)
              ((parent, merge_into parent (values (family parent d))) ∷ [])
        → s.node ≡ k
    from k s (inl m) = b.named k s (Memᴰ-of_filterb _ d m).0
    from k s (inr (Memᴰ.head e)) =
        ap (λ (z : Text × Scope). z.1.node) e ∙ sym (ap (λ (z : Text × Scope). z.0) e)
    from k s (inr (Memᴰ.tail m)) = elim m [ ]

length-merged :
    (parent : Text) (d : Dict Text Scope)
    → 2 ≤ length (family parent d)
    → length (merged parent d) < length d
length-merged parent d h =
    let whole = length-perm (family-strangers parent d) in
    let parts = length-append (family parent d) (strangers parent d) in
    let new = ap length (merged-append parent d) ∙ length-append (strangers parent d) (_ ∷ []) in
    omega arith

keys-by_node : (ss : List Scope) → keys (map (λ s. (s.node, s)) ss) ≡ map (λ s. s.node) ss
keys-by_node [] = refl
keys-by_node (s ∷ ss) = ap (◌∷◌ s.node) (keys-by_node ss)

values-by_node : (ss : List Scope) → values (map (λ s. (s.node, s)) ss) ≡ ss
values-by_node [] = refl
values-by_node (s ∷ ss) = ap (◌∷◌ s) (values-by_node ss)

absent :
    (done ss : List Scope) (s : Scope)
    → IsNodup (map (λ s. s.node) (done ++ s ∷ ss))
    → Memᴰ s.node (map (λ s. s.node) done)
    → ⊥
absent [] ss s n m = elim m [ ]
absent (t ∷ done) ss s n (Memᴰ.head e) =
    n.0 s.node (Memᴰ.map (λ (z : Scope). z.node) (Memᴰ-append_right done (Memᴰ.head refl))) (sym e)
absent (t ∷ done) ss s n (Memᴰ.tail m) = absent done ss s n.1 m

by_node-IsByNode :
    (ss : List Scope) → IsNodup (map (λ s. s.node) ss) → IsByNode (map (λ s. (s.node, s)) ss)
by_node-IsByNode ss n = record {
  distinct = subst IsNodup (sym (keys-by_node ss)) n;
  named = λ k s m.
      let (t, a, e) = Memᴰ.of_map (λ (z : Scope). (z.node, z)) ss m in
      ap (λ (z : Text × Scope). z.1.node) (sym e) ∙ ap (λ (z : Text × Scope). z.0) e;
}

values-nodes :
    (d : Dict Text Scope)
    → ((k : Text) (s : Scope) → Memᴰ {A = Text × Scope} (k, s) d → s.node ≡ k)
    → map (λ s. s.node) (values d) ≡ keys d
values-nodes [] h = refl
values-nodes ((k, s) ∷ d) h =
    ap₂ (◌∷◌) (h k s (Memᴰ.head refl)) (values-nodes d (λ j t m. h j t (Memᴰ.tail m)))

module _ (max_files max_loc : ℕ) where
  mergeable-two : (group : List Scope) → mergeable max_files max_loc group ≡ true → 2 ≤ length group
  unfolding mergeable
  mergeable-two group h = leb→le 2 (length group) (first _ _ _ _ h)
    where
      first : (a b c e : Bool) → (a && b && c && e) ≡ true → a ≡ true
      first a b c e k = ground arith

  family-two :
      (parent : Text) (d : Dict Text Scope)
      → mergeable max_files max_loc (values (family parent d)) ≡ true
      → 2 ≤ length (family parent d)
  family-two parent d good =
      subst (λ z. 2 ≤ z) (length-map (λ (e : Text × Scope). e.1) (family parent d))
        (mergeable-two _ good)

  -- A round that merges is a merge of a parent whose family is mergeable.
  pub merge_first-merged :
      (d d' : Dict Text Scope) (parents : List Text)
      → merge_first max_files max_loc d parents ≡ some d'
      → (parent : Text) × (mergeable max_files max_loc (values (family parent d)) ≡ true)
        × (merged parent d ≡ d')
  unfolding merge_first
  merge_first-merged d d' [] h = absurd (none≢some h)
  merge_first-merged d d' (p ∷ ps) h =
      elim (Bool-cases (mergeable max_files max_loc (values (family p d)))) [
        | inl good ↦ (p, good, some_inj (rw good at h))
        | inr bad ↦ merge_first-merged d d' ps (rw bad at h)
      ]

  module _ (set_order : List Text → List Text) where
    -- What the loop makes of a dict.
    pub record Merges (d d' : Dict Text Scope) : Type 0 where
      pub by_node : IsByNode d'
      pub moved_none : Permᴰ (all_files (values d')) (all_files (values d))

    merge_all-Merges :
        (fuel : ℕ) (d : Dict Text Scope)
        → length d < fuel
        → IsByNode d
        → (d' : Dict Text Scope) × (merge_all max_files max_loc set_order fuel d ≡ some d')
          × Merges d d'
    unfolding merge_all
    merge_all-Merges zero d less b = absurd (omega arith)
    merge_all-Merges (suc fuel) d less b =
        round
          (Option-cases
            (merge_first max_files max_loc d (parents_of max_files max_loc set_order d)))
          (λ e smaller named. merge_all-Merges fuel e smaller named)
      where
        round :
            (merge_first max_files max_loc d (parents_of max_files max_loc set_order d) ≡ none)
              ⊎ ((e : Dict Text Scope) × (merge_first max_files max_loc d
                      (parents_of max_files max_loc set_order d)
                    ≡ some e))
            → ((e : Dict Text Scope)
                → length e < fuel
                → IsByNode e
                → (d' : Dict Text Scope) × (merge_all max_files max_loc set_order fuel e ≡ some d')
                  × Merges e d')
            → (d' : Dict Text Scope) × (merge_all max_files max_loc set_order (suc fuel) d
                ≡ some d')
              × Merges d d'
        round (inl still) again = (
          d,
          ap (next_round max_files max_loc set_order (merge_all max_files max_loc set_order fuel) d)
              still,
          record { by_node = b; moved_none = Permᴰ.refl _ },
        )
        round (inr (e, moved)) again =
            let (parent, good, same) = merge_first-merged d e _ moved in
            let smaller =
              subst (λ z. length z < length d) same
                (length-merged parent d (family-two parent d good)) in
            let (d', ran, m) =
              again e (omega arith) (subst IsByNode same (merged-IsByNode parent d b)) in
            (
              d',
              ap
                    (next_round max_files max_loc set_order
                      (merge_all max_files max_loc set_order fuel) d)
                    moved
                  ∙ ran,
              record {
                by_node = m.by_node;
                moved_none = Permᴰ.trans m.moved_none (
                    subst (λ z. Permᴰ (all_files (values z)) (all_files (values d))) same
                      (merged-files parent d));
              },
            )

    by_node-append :
        (done ss : List Scope)
        → IsNodup (map (λ s. s.node) (done ++ ss))
        → by_node max_files max_loc set_order (map (λ s. (s.node, s)) done) ss
          ≡ map (λ s. (s.node, s)) (done ++ ss)
    unfolding by_node
    by_node-append done [] n = ap (map (λ s. (s.node, s))) (sym (append-nil done))
    by_node-append done (s ∷ ss) n =
        ap (λ d. by_node max_files max_loc set_order d ss)
          (insert-absent s.node s (map (λ s. (s.node, s)) done)
              (λ m. absent done ss s n (subst (Memᴰ s.node) (keys-by_node done) m))
            ∙ sym (map-append (λ (s : Scope). (s.node, s)) done (s ∷ [])))
        ∙ by_node-append (done ++ s ∷ []) ss
            (subst (λ z. IsNodup (map (λ s. s.node) z)) (sym (append_assoc done (s ∷ []) ss)) n)
        ∙ ap (map (λ s. (s.node, s))) (append_assoc done (s ∷ []) ss)

    -- What coalescing makes of scopes with distinct nodes.
    pub record Coalesces (scopes merged : List Scope) : Type 0 where
      pub distinct : IsNodup (map (λ s. s.node) merged)
      pub moved_none : Permᴰ (all_files merged) (all_files scopes)

    -- Scopes with distinct nodes are coalesced, in as many rounds as there are scopes and one more,
    -- whatever the order of a set: the nodes stay distinct and no file is lost, added or doubled.
    pub coalesce-Coalesces :
        (scopes : List Scope)
        → IsNodup (map (λ s. s.node) scopes)
        → (merged : List Scope) × (coalesce max_files max_loc set_order scopes ≡ some merged)
          × Coalesces scopes merged
    unfolding coalesce
    coalesce-Coalesces scopes n =
        let start = by_node-append [] scopes n in
        let (d, ran, m) =
          merge_all-Merges (suc (length scopes)) (map (λ s. (s.node, s)) scopes)
            (less _ (length-map (λ (s : Scope). (s.node, s)) scopes)) (by_node-IsByNode scopes n) in
        (
          values d,
          ap
                (λ z.
                  merge_all max_files max_loc set_order (suc (length scopes)) z
                  >>= (λ e. some (values e)))
                start
              ∙ ap (λ z. z >>= (λ e. some (values e))) ran,
          record {
            distinct = subst IsNodup (sym (values-nodes d m.by_node.named)) m.by_node.distinct;
            moved_none =
                subst (λ z. Permᴰ (all_files (values d)) (all_files z)) (values-by_node scopes)
                  m.moved_none;
          },
        )
      where
        less : (k : ℕ) → k ≡ length scopes → k < suc (length scopes)
        less k h = omega arith
