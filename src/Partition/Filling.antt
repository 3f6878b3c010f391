-- ===== src/Partition/Filling.antt =====
-- cdp/partition.py: `_pack_siblings` moves no file.
use mathlib.Core.List.Permᴰ
use mathlib.Core.List.Memᴰ
use mathlib.Core.List.{Memᴰ, Permᴰ, append_assoc}
use code_discovery_pyramid.Base.{
  ℕ, ◌≡◌, refl, sym, ap, ◌∙◌, subst, inl, inr, Bool, true, false, not, Down, down_ord, nat_ord,
  pair_ord, List, [], ◌∷◌, ◌++◌, map, arith, Bool-cases, ltb, filterb, filterb-true, filterb-false,
  length, Memᴰ-of_filterb, Memᴰ-filterb, contains, contains→Memᴰ, Memᴰ→contains,
}
use code_discovery_pyramid.Base.Sorting.{sort_by, sort_by-perm, IsNodup}
use code_discovery_pyramid.Base.Groups.{
  concat_map, concat_map-append, concat_map-perm, concat_map-cong, append-perm, filterb-parts,
  group_into-parts, map-injective,
}
use code_discovery_pyramid.Base.Dict.{keys, lookup_list, group_into, lookup_list-group}
use code_discovery_pyramid.Base.Text.{Text, text_eq, text_ord}
use code_discovery_pyramid.Partition.{Scope}
use code_discovery_pyramid.Partition.Packing.{
  all_files, merge_scopes, is_small, has_room, place, place_all, close_bin, by_size, pack_module,
  pack_siblings,
}

abbrev pub all_scopes : List (List Scope) → List Scope
all_scopes bins = concat_map (λ b. b) bins

module _ (max_files max_loc : ℕ) where
  place-perm :
      (s : Scope) (bins : List (List Scope))
      → Permᴰ (all_scopes (place max_files max_loc s bins)) (s ∷ all_scopes bins)
  unfolding place
  place-perm s [] = Permᴰ.refl _
  place-perm s (slot ∷ bins) = elim (Bool-cases (has_room max_files max_loc s slot)) [
    | inl room ↦ rw room (
        subst (λ z. Permᴰ z (s ∷ (slot ++ all_scopes bins)))
          (sym (append_assoc slot (s ∷ []) (all_scopes bins)))
          (Permᴰ.middle s slot (all_scopes bins)))
    | inr full ↦ rw full (
        Permᴰ.trans (Permᴰ.append_left slot (place-perm s bins))
          (Permᴰ.middle s slot (all_scopes bins)))
  ]

  place_all-perm :
      (bins : List (List Scope)) (ss : List Scope)
      → Permᴰ (all_scopes (place_all max_files max_loc bins ss)) (ss ++ all_scopes bins)
  unfolding place_all
  place_all-perm bins [] = Permᴰ.refl _
  place_all-perm bins (s ∷ ss) =
      Permᴰ.trans (place_all-perm (place max_files max_loc s bins) ss) (
        Permᴰ.trans (Permᴰ.append_left ss (place-perm s bins))
          (Permᴰ.middle s ss (all_scopes bins)))

  merge_scopes-files : (slot : List Scope) → Permᴰ (merge_scopes slot).files (all_files slot)
  unfolding merge_scopes
  merge_scopes-files slot =
      Permᴰ.trans (sort_by-perm (λ p. p) (all_files (sort_by (λ x. x.node) slot)))
        (concat_map-perm (λ x. x.files) (sort_by-perm (λ x. x.node) slot))

  close_bin-files :
      (slot : List Scope) → Permᴰ (close_bin max_files max_loc slot).files (all_files slot)
  close_bin-files [] = merge_scopes-files []
  close_bin-files (s ∷ []) = Permᴰ.symm (Permᴰ.append-nil s.files)
  close_bin-files (s ∷ t ∷ ss) = merge_scopes-files (s ∷ t ∷ ss)

  close_bins-files :
      (bins : List (List Scope))
      → Permᴰ (all_files (map (close_bin max_files max_loc) bins)) (all_files (all_scopes bins))
  close_bins-files [] = Permᴰ.nil
  close_bins-files (slot ∷ bins) =
      subst (Permᴰ (all_files (map (close_bin max_files max_loc) (slot ∷ bins))))
        (sym (concat_map-append (λ x. x.files) slot (all_scopes bins)))
        (append-perm (close_bin-files slot) (close_bins-files bins))

filterb-ext {ℓ} :
    {A : Type ℓ} (p q : A → Bool) (xs : List A)
    → ((x : A) → Memᴰ x xs → p x ≡ q x)
    → filterb p xs ≡ filterb q xs
filterb-ext p q [] h = refl
filterb-ext p q (x ∷ xs) h =
    let rest = filterb-ext p q xs (λ y m. h y (Memᴰ.tail m)) in
    elim (Bool-cases (q x)) [
      | inl e ↦
          filterb-true p x xs (h x (Memᴰ.head refl) ∙ e)
          ∙ ap (◌∷◌ x) rest
          ∙ sym (filterb-true q x xs e)
      | inr e ↦
          filterb-false p x xs (h x (Memᴰ.head refl) ∙ e) ∙ rest ∙ sym (filterb-false q x xs e)
    ]

map-filterb-IsNodup {ℓ κ} :
    {A : Type ℓ} {B : Type κ} (f : A → B) (p : A → Bool) (xs : List A)
    → IsNodup (map f xs)
    → IsNodup (map f (filterb p xs))
map-filterb-IsNodup f p [] n = tt
map-filterb-IsNodup f p (x ∷ xs) n = elim (Bool-cases (p x)) [
  | inl h ↦
      subst (λ z. IsNodup (map f z)) (sym (filterb-true p x xs h))
        (
          (λ y m e.
              let (z, a, g) = Memᴰ.of_map f (filterb p xs) m in
              n.0 (f z) (Memᴰ.map f (Memᴰ-of_filterb p xs a).0) (e ∙ sym g)),
          map-filterb-IsNodup f p xs n.1,
        )
  | inr h ↦
      subst (λ z. IsNodup (map f z)) (sym (filterb-false p x xs h)) (map-filterb-IsNodup f p xs n.1)
]

concat_map-concat_map {ℓ κ μ} :
    {A : Type ℓ} {B : Type κ} {C : Type μ} (f : B → List C) (g : A → List B) (xs : List A)
    → concat_map f (concat_map g xs) ≡ concat_map (λ x. concat_map f (g x)) xs
concat_map-concat_map f g [] = refl
concat_map-concat_map f g (x ∷ xs) =
    concat_map-append f (g x) (concat_map g xs)
    ∙ ap (λ z. concat_map f (g x) ++ z) (concat_map-concat_map f g xs)

-- Sought by node, the small ones are found again.
by_node_small :
    (p : Scope → Bool) (members : List Scope)
    → IsNodup (map (λ s. s.node) members)
    → (s : Scope) → Memᴰ s members
    → contains s.node (map (λ s. s.node) (filterb p members)) ≡ p s
by_node_small p members n s m = elim (Bool-cases (p s)) [
  | inl h ↦ Memᴰ→contains (Memᴰ.map (λ (t : Scope). t.node) (Memᴰ-filterb p m h)) ∙ sym h
  | inr h ↦ elim (Bool-cases (contains s.node (map (λ s. s.node) (filterb p members)))) [
    | inr k ↦ k ∙ sym h
    | inl k ↦
        let (t, a, e) =
          Memᴰ.of_map (λ (t : Scope). t.node) (filterb p members) (contains→Memᴰ s.node _ k) in
        let (b, c) = Memᴰ-of_filterb p members a in
        absurd
          (clash (p t) c (ap p (map-injective (λ (t : Scope). t.node) members n t s b m e) ∙ h))
  ]
]
  where
    clash : (b : Bool) → b ≡ true → b ≡ false → ⊥
    clash b h k = ground arith

module _ (max_files max_loc : ℕ) where
  bins-files :
      (small : List Scope)
      → Permᴰ
          (all_files (
            map
              (close_bin max_files max_loc)
              (place_all max_files max_loc [] (by_size max_files max_loc small))))
          (all_files small)
  bins-files small =
      let sorted = by_size max_files max_loc small in
      Permᴰ.trans (close_bins-files max_files max_loc (place_all max_files max_loc [] sorted)) (
        concat_map-perm (λ x. x.files)
          (Permᴰ.trans (place_all-perm max_files max_loc [] sorted) (
            Permᴰ.trans (Permᴰ.append-nil sorted)
              (sort_by-perm {K = Down ℕ × (Down ℕ × Text)} _ small))))

  packed-files :
      (members : List Scope)
      → IsNodup (map (λ s. s.node) members)
      → Permᴰ
          (all_files (
            filterb
              (λ s. not (
                contains s.node (map (λ s. s.node) (filterb (is_small max_files max_loc) members))))
              members
            ++ map (close_bin max_files max_loc) (
                place_all max_files max_loc []
                  (by_size max_files max_loc (filterb (is_small max_files max_loc) members)))))
          (all_files members)
  packed-files members n =
      let small = is_small max_files max_loc in
      let bins =
        map (close_bin max_files max_loc)
          (place_all max_files max_loc [] (by_size max_files max_loc (filterb small members))) in
      subst (λ z. Permᴰ (all_files (z ++ bins)) (all_files members))
        (sym (
          filterb-ext _ (λ s. not (small s)) members
            (λ s m. ap not (by_node_small small members n s m))))
        (subst (λ z. Permᴰ z (all_files members))
          (sym (concat_map-append (λ x. x.files) (filterb (λ s. not (small s)) members) bins))
          (Permᴰ.trans
            (Permᴰ.append_left (all_files (filterb (λ s. not (small s)) members))
              (bins-files (filterb small members)))
            (subst (λ z. Permᴰ z (all_files members))
              (concat_map-append (λ x. x.files) (filterb (λ s. not (small s)) members)
                (filterb small members))
              (concat_map-perm (λ x. x.files)
                (Permᴰ.trans
                  (Permᴰ.append_comm (filterb (λ s. not (small s)) members) (filterb small members))
                  (filterb-parts small members))))))

  pack_module-files :
      (members : List Scope)
      → IsNodup (map (λ s. s.node) members)
      → Permᴰ (all_files (pack_module max_files max_loc members)) (all_files members)
  unfolding pack_module
  pack_module-files members n =
      elim (Bool-cases (ltb (length (filterb (is_small max_files max_loc) members)) 2)) [
        | inl few ↦ rw few (Permᴰ.refl _)
        | inr many ↦ rw many (packed-files members n)
      ]

  -- Packing moves no file.
  pub pack_siblings-files :
      (scopes : List Scope)
      → IsNodup (map (λ s. s.node) scopes)
      → Permᴰ (all_files (pack_siblings max_files max_loc scopes)) (all_files scopes)
  unfolding pack_siblings
  pack_siblings-files scopes n =
      let groups = group_into (λ s. s.module_name) [] scopes in
      let ks = sort_by (λ m. m) (keys groups) in
      subst (λ z. Permᴰ z (all_files scopes))
        (sym (
          concat_map-concat_map (λ x. x.files)
            (λ m. pack_module max_files max_loc (lookup_list m groups)) ks))
        (Permᴰ.trans
          (concat_map-cong (λ m. all_files (pack_module max_files max_loc (lookup_list m groups)))
            (λ m. all_files (lookup_list m groups)) ks
            (λ m q. pack_module-files (lookup_list m groups) (
              subst (λ z. IsNodup (map (λ s. s.node) z))
                (sym (lookup_list-group (λ s. s.module_name) m scopes))
                (map-filterb-IsNodup (λ s. s.node) _ scopes n))))
          (subst (λ z. Permᴰ z (all_files scopes))
            (concat_map-concat_map (λ x. x.files) (λ m. lookup_list m groups) ks)
            (concat_map-perm (λ x. x.files) (group_into-parts (λ s. s.module_name) scopes))))
