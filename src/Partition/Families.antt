-- ===== src/Partition/Families.antt =====
-- cdp/partition.py: the scopes below a parent, and what merging them leaves.
use mathlib.Core.List.Permᴰ
use mathlib.Core.List.Memᴰ
use mathlib.Core.List.{Memᴰ, Permᴰ, map-append}
use code_discovery_pyramid.Base.{
  ℕ, ◌+◌, ◌≤◌, ◌≡◌, refl, sym, ap, subst, inl, inr, Bool, true, false, not, ◌||◌, ◌==◌, List, [],
  ◌∷◌, ◌++◌, arith, Bool-cases, filterb, length, length-append, map-perm, Memᴰ-of_filterb, ==→eq,
  ==_refl, ne→==_false,
}
use code_discovery_pyramid.Base.Sorting.{sort_by-perm, IsNodup}
use code_discovery_pyramid.Base.Groups.{concat_map-append, concat_map-perm, filterb-parts}
use code_discovery_pyramid.Base.Dict.{Dict, keys, values, insert}
use code_discovery_pyramid.Base.Text.{Text, text, text_eq, text_ord, starts_with}
use code_discovery_pyramid.Partition.{Scope}
use code_discovery_pyramid.Partition.Packing.{
  all_files, merge_into, is_below, is_parent, family, strangers,
}

starts_with-length : (s p : Text) → starts_with s p ≡ true → length p ≤ length s
starts_with-length s [] h = omega arith
starts_with-length [] (b ∷ p) h = absurd (ground arith)
starts_with-length (a ∷ s) (b ∷ p) h =
    let rest = starts_with-length s p (ground arith) in omega arith

-- The parent is not below itself.
below_not_parent :
    (parent : Text) (e : Text × Scope) → is_parent parent e ≡ true → is_below parent e ≡ false
below_not_parent parent e h = elim (Bool-cases (is_below parent e)) [
  | inr k ↦ k
  | inl k ↦ absurd (
      too_long (ap length (==→eq e.0 parent h)) (starts_with-length e.0 (parent ++ text "/") k)
        (length-append parent (text "/")))
]
  where
    too_long : {a b c : ℕ} → a ≡ b → c ≤ a → c ≡ b + 1 → ⊥
    too_long h k l = omega arith

filterb-or {ℓ} :
    {A : Type ℓ} (p q : A → Bool) (xs : List A)
    → ((x : A) → q x ≡ true → p x ≡ false)
    → Permᴰ (filterb p xs ++ filterb q xs) (filterb (λ x. p x || q x) xs)
filterb-or p q [] h = Permᴰ.nil
filterb-or p q (x ∷ xs) h = elim (Bool-cases (q x)) [
  | inl yes_q ↦
      rw (yes_q, h x yes_q)
        (Permᴰ.trans (Permᴰ.middle x (filterb p xs) (filterb q xs))
          (Permᴰ.cons refl (filterb-or p q xs h)))
  | inr no_q ↦ elim (Bool-cases (p x)) [
    | inl yes_p ↦ rw (no_q, yes_p) (Permᴰ.cons refl (filterb-or p q xs h))
    | inr no_p ↦ rw (no_q, no_p) (filterb-or p q xs h)
  ]
]

-- The family and the strangers of a parent are the whole dict.
pub family-strangers :
    (parent : Text) (d : Dict Text Scope) → Permᴰ (family parent d ++ strangers parent d) d
family-strangers parent d =
    Permᴰ.trans
      (Permᴰ.append_right (strangers parent d)
        (filterb-or (is_below parent) (is_parent parent) d (below_not_parent parent)))
      (filterb-parts (λ e. is_below parent e || is_parent parent e) d)

module _ {ℓ κ} {K : Type ℓ} {V : Type κ} where
  Memᴰ-keys_filterb :
      (p : K × V → Bool) {k : K} (d : Dict K V) → Memᴰ k (keys (filterb p d)) → Memᴰ k (keys d)
  Memᴰ-keys_filterb p d m =
      let (e, a, q) = Memᴰ.of_map (λ (z : K × V). z.0) (filterb p d) m in
      subst (λ z. Memᴰ z (keys d)) q (Memᴰ.map (λ (z : K × V). z.0) (Memᴰ-of_filterb p d a).0)

  pub keys-filterb-IsNodup :
      (p : K × V → Bool) (d : Dict K V) → IsNodup (keys d) → IsNodup (keys (filterb p d))
  keys-filterb-IsNodup p [] n = tt
  keys-filterb-IsNodup p (e ∷ d) n = elim (Bool-cases (p e)) [
    | inl h ↦ rw h ((λ y m. n.0 y (Memᴰ-keys_filterb p d m)), keys-filterb-IsNodup p d n.1)
    | inr h ↦ rw h (keys-filterb-IsNodup p d n.1)
  ]

pub insert-absent :
    (k : Text) (v : Scope) (d : Dict Text Scope)
    → (Memᴰ k (keys d) → ⊥)
    → insert k v d ≡ d ++ (k, v) ∷ []
unfolding insert
insert-absent k v [] h = refl
insert-absent k v ((j, w) ∷ d) h =
    rw (ne→==_false k j (λ p. h (Memᴰ.head p)))
      (ap (◌∷◌ (j, w)) (insert-absent k v d (λ m. h (Memᴰ.tail m))))

parent_not_stranger :
    (parent : Text) (d : Dict Text Scope) → Memᴰ parent (keys (strangers parent d)) → ⊥
parent_not_stranger parent d m =
    let (e, a, q) = Memᴰ.of_map (λ (z : Text × Scope). z.0) (strangers parent d) m in
    let (b, c) = Memᴰ-of_filterb (λ z. not (is_below parent z || is_parent parent z)) d a in
    clash (is_below parent e) _ refl c (subst (λ z. (z == parent) ≡ true) (sym q) (==_refl parent))
  where
    clash : (b c : Bool) → b ≡ b → not (b || c) ≡ true → c ≡ true → ⊥
    clash b c r h k = ground arith

abbrev pub merged : Text → Dict Text Scope → Dict Text Scope
merged parent d = insert parent (merge_into parent (values (family parent d))) (strangers parent d)

pub merged-append :
    (parent : Text) (d : Dict Text Scope)
    → merged parent d
      ≡ strangers parent d ++ (parent, merge_into parent (values (family parent d))) ∷ []
merged-append parent d = insert-absent parent _ (strangers parent d) (parent_not_stranger parent d)

merge_into-files :
    (parent : Text) (group : List Scope) → Permᴰ (merge_into parent group).files (all_files group)
unfolding merge_into
merge_into-files parent group = sort_by-perm (λ p. p) (all_files group)

pub merged-files :
    (parent : Text) (d : Dict Text Scope)
    → Permᴰ (all_files (values (merged parent d))) (all_files (values d))
merged-files parent d =
    subst (λ z. Permᴰ (all_files (values z)) (all_files (values d))) (sym (merged-append parent d))
      (subst (λ z. Permᴰ (all_files z) (all_files (values d)))
        (sym (map-append (λ (e : Text × Scope). e.1) (strangers parent d) (last ∷ [])))
        (subst (λ z. Permᴰ z (all_files (values d)))
          (sym (concat_map-append (λ s. s.files) (values (strangers parent d)) (last.1 ∷ [])))
          (Permᴰ.trans
            (Permᴰ.append_left (all_files (values (strangers parent d))) (
              Permᴰ.trans (Permᴰ.append-nil last.1.files)
                (merge_into-files parent (values (family parent d)))))
            (Permᴰ.trans
              (Permᴰ.append_comm (all_files (values (strangers parent d)))
                (all_files (values (family parent d))))
              together))))
  where
    last : Text × Scope
    last = (parent, merge_into parent (values (family parent d)))

    together :
        Permᴰ
          (all_files (values (family parent d)) ++ all_files (values (strangers parent d)))
          (all_files (values d))
    together =
        subst (λ z. Permᴰ z (all_files (values d)))
          (concat_map-append (λ s. s.files) (values (family parent d))
            (values (strangers parent d)))
          (subst (λ z. Permᴰ (all_files z) (all_files (values d)))
            (map-append (λ (e : Text × Scope). e.1) (family parent d) (strangers parent d))
            (concat_map-perm (λ s. s.files)
              (map-perm (λ (e : Text × Scope). e.1) (family-strangers parent d))))
