-- ===== src/Partition/Weighing.antt =====
-- cdp/partition.py: `_coalesce`, `_pack_siblings` and `partition` keep to the budget.
use mathlib.Core.List.Memᴰ
use mathlib.Core.List.{Memᴰ, Permᴰ}
use code_discovery_pyramid.Base.{
  ℕ, zero, suc, ◌+◌, ◌≡◌, refl, sym, ap, ap₂, ◌∙◌, subst, ◌⊎◌, inl, inr, Bool, true, not, ◌&&◌,
  ◌==◌, Option, none, some, List, [], ◌∷◌, arith, Bool-cases, leb, anyb, filterb, length,
  length-append, length-perm, sum_by, >>=-eq-some, some_inj, Memᴰ-of_filterb, Memᴰ-append,
}
use code_discovery_pyramid.Base.Sorting.{sort_by-perm}
use code_discovery_pyramid.Base.Text.{Text, text_eq, text_ord}
use code_discovery_pyramid.Base.Dict.{Dict, values, insert}
use code_discovery_pyramid.Base.Index.{none≢some}
use code_discovery_pyramid.Partition.{Scope}
use code_discovery_pyramid.Partition.Packing.{
  all_files, merge_into, is_below, is_parent, family, strangers, one_module, mergeable, merge_first,
  parents_of, next_round, merge_all, by_node, coalesce,
}
use code_discovery_pyramid.Partition.Families.{merged}
use code_discovery_pyramid.Partition.Merging.{merge_first-merged}
use code_discovery_pyramid.Partition.Budget.{IsWeighed, AllWeighed}

pub sum_by-perm {ℓ} :
    {A : Type ℓ} (f : A → ℕ) {xs ys : List A} → Permᴰ xs ys → sum_by f xs ≡ sum_by f ys
sum_by-perm f Permᴰ.nil = refl
sum_by-perm f (Permᴰ.cons e p) = ap₂ ◌+◌ (ap f e) (sum_by-perm f p)
sum_by-perm f (Permᴰ.swap e g) = let h = ap f e in let k = ap f g in omega arith
sum_by-perm f (Permᴰ.trans p q) = sum_by-perm f p ∙ sum_by-perm f q

Memᴰ-values_insert :
    (k : Text) (v : Scope) (d : Dict Text Scope) (s : Scope)
    → Memᴰ s (values (insert k v d))
    → (s ≡ v) ⊎ Memᴰ s (values d)
unfolding insert
Memᴰ-values_insert k v [] s (Memᴰ.head e) = inl e
Memᴰ-values_insert k v [] s (Memᴰ.tail m) = elim m [ ]
Memᴰ-values_insert k v ((j, w) ∷ d) s m = elim (Bool-cases (k == j)) [
  | inl h ↦ old (rw h at m)
  | inr h ↦ later (rw h at m) (λ q. Memᴰ-values_insert k v d s q)
]
  where
    old : Memᴰ s (v ∷ values d) → (s ≡ v) ⊎ Memᴰ s (w ∷ values d)
    old (Memᴰ.head e) = inl e
    old (Memᴰ.tail q) = inr (Memᴰ.tail q)

    later :
        Memᴰ s (w ∷ values (insert k v d))
        → (Memᴰ s (values (insert k v d)) → (s ≡ v) ⊎ Memᴰ s (values d))
        → (s ≡ v) ⊎ Memᴰ s (w ∷ values d)
    later (Memᴰ.head e) again = inr (Memᴰ.head e)
    later (Memᴰ.tail q) again = shift (again q)
      where
        shift : (s ≡ v) ⊎ Memᴰ s (values d) → (s ≡ v) ⊎ Memᴰ s (w ∷ values d)
        shift (inl e) = inl e
        shift (inr r) = inr (Memᴰ.tail r)

module _ (max_files max_loc : ℕ) where
  -- Where each scope counts its files, the counts add up.
  pub counts :
      (group : List Scope)
      → AllWeighed max_files max_loc group
      → sum_by (λ s. s.file_count) group ≡ length (all_files group)
  counts [] w = refl
  counts (s ∷ ss) w =
      ap₂ ◌+◌ (w s (Memᴰ.head refl)).counted (counts ss (λ t m. w t (Memᴰ.tail m)))
      ∙ sym (length-append s.files (all_files ss))

  merge_into-IsWeighed :
      (parent : Text) (group : List Scope)
      → AllWeighed max_files max_loc group
      → mergeable max_files max_loc group ≡ true
      → IsWeighed max_files max_loc (merge_into parent group)
  unfolding merge_into mergeable
  merge_into-IsWeighed parent group w h = record {
    counted = counts group w ∙ sym (length-perm (sort_by-perm (λ p. p) (all_files group)));
    weighed = inr (
        inl (
          third (leb 2 (length group)) (one_module group) _ (not (anyb (λ s. s.oversized) group))
            h));
  }
    where
      third : (a b c e : Bool) → (a && b && c && e) ≡ true → c ≡ true
      third a b c e k = ground arith

  family-AllWeighed :
      (parent : Text) (d : Dict Text Scope)
      → AllWeighed max_files max_loc (values d)
      → AllWeighed max_files max_loc (values (family parent d))
  family-AllWeighed parent d w s m =
      let (e, a, q) = Memᴰ.of_map (λ (z : Text × Scope). z.1) (family parent d) m in
      subst (IsWeighed max_files max_loc) q
        (from e (Memᴰ-append (filterb (is_below parent) d) (filterb (is_parent parent) d) a))
    where
      from :
          (e : Text × Scope)
          → Memᴰ e (filterb (is_below parent) d) ⊎ Memᴰ e (filterb (is_parent parent) d)
          → IsWeighed max_files max_loc e.1
      from e (inl a) = w e.1 (Memᴰ.map (λ (z : Text × Scope). z.1) (Memᴰ-of_filterb _ d a).0)
      from e (inr a) = w e.1 (Memᴰ.map (λ (z : Text × Scope). z.1) (Memᴰ-of_filterb _ d a).0)

  merged-AllWeighed :
      (parent : Text) (d : Dict Text Scope)
      → AllWeighed max_files max_loc (values d)
      → mergeable max_files max_loc (values (family parent d)) ≡ true
      → AllWeighed max_files max_loc (values (merged parent d))
  merged-AllWeighed parent d w good s m = from (
      Memᴰ-values_insert parent (merge_into parent (values (family parent d))) (strangers parent d)
        s m)
    where
      from :
          (s ≡ merge_into parent (values (family parent d))) ⊎ Memᴰ s (values (strangers parent d))
          → IsWeighed max_files max_loc s
      from (inl e) = subst (IsWeighed max_files max_loc) (sym e) (
          merge_into-IsWeighed parent (values (family parent d)) (family-AllWeighed parent d w)
            good)
      from (inr k) =
          let (e, a, q) = Memᴰ.of_map (λ (z : Text × Scope). z.1) (strangers parent d) k in
          subst (IsWeighed max_files max_loc) q
            (w e.1 (Memᴰ.map (λ (z : Text × Scope). z.1) (Memᴰ-of_filterb _ d a).0))

  module _ (set_order : List Text → List Text) where
    merge_all-AllWeighed :
        (fuel : ℕ) (d d' : Dict Text Scope)
        → merge_all max_files max_loc set_order fuel d ≡ some d'
        → AllWeighed max_files max_loc (values d)
        → AllWeighed max_files max_loc (values d')
    unfolding merge_all
    merge_all-AllWeighed zero d d' h w = absurd (none≢some h)
    merge_all-AllWeighed (suc fuel) d d' h w =
        by_round (merge_first max_files max_loc d (parents_of max_files max_loc set_order d)) refl
          (λ e k g. merge_all-AllWeighed fuel e d' k g)
      where
        by_round :
            (o : Option (Dict Text Scope))
            → merge_first max_files max_loc d (parents_of max_files max_loc set_order d) ≡ o
            → ((e : Dict Text Scope)
                → merge_all max_files max_loc set_order fuel e ≡ some d'
                → AllWeighed max_files max_loc (values e)
                → AllWeighed max_files max_loc (values d'))
            → AllWeighed max_files max_loc (values d')
        by_round none e again =
            subst (λ z. AllWeighed max_files max_loc (values z))
              (some_inj (
                sym (
                  ap
                    (next_round max_files max_loc set_order
                      (merge_all max_files max_loc set_order fuel) d)
                    e)
                ∙ h))
              w
        by_round (some changed) e again =
            let (parent, good, same) = merge_first-merged max_files max_loc d changed _ e in
            again changed
              (sym (
                  ap
                    (next_round max_files max_loc set_order
                      (merge_all max_files max_loc set_order fuel) d)
                    e)
                ∙ h)
              (subst (λ z. AllWeighed max_files max_loc (values z)) same
                (merged-AllWeighed parent d w good))

    by_node-AllWeighed :
        (d : Dict Text Scope) (ss : List Scope)
        → AllWeighed max_files max_loc (values d)
        → AllWeighed max_files max_loc ss
        → AllWeighed max_files max_loc (values (by_node max_files max_loc set_order d ss))
    unfolding by_node
    by_node-AllWeighed d [] w k = w
    by_node-AllWeighed d (s ∷ ss) w k =
        by_node-AllWeighed (insert s.node s d) ss
          (λ t m. from t (Memᴰ-values_insert s.node s d t m)) (λ t m. k t (Memᴰ.tail m))
      where
        from : (t : Scope) → (t ≡ s) ⊎ Memᴰ t (values d) → IsWeighed max_files max_loc t
        from t (inl e) = k t (Memᴰ.head e)
        from t (inr m) = w t m

    -- Coalescing keeps the budget.
    pub coalesce-AllWeighed :
        (scopes merged : List Scope)
        → coalesce max_files max_loc set_order scopes ≡ some merged
        → AllWeighed max_files max_loc scopes
        → AllWeighed max_files max_loc merged
    unfolding coalesce
    coalesce-AllWeighed scopes merged h w =
        let (d, ran, r) = >>=-eq-some _ _ h in
        subst (AllWeighed max_files max_loc) (some_inj r) (
          merge_all-AllWeighed (suc (length scopes)) _ d ran
            (by_node-AllWeighed [] scopes (λ s m. elim m [ ]) w))
