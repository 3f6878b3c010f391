-- ===== src/Base/Groups.antt =====
-- Grouping moves nothing: the groups of a list, over all its keys, hold its elements.
use mathlib.Core.List.Permᴰ
use mathlib.Core.List.Memᴰ
use mathlib.Core.List.{List, [], ◌∷◌, ◌++◌, map, Memᴰ, Permᴰ, append_assoc}
use mathlib.Core.Path.{◌≡◌, refl, sym, ap, ap₂, ◌∙◌, subst}
use mathlib.Core.Logic.{◌≢◌, inl, inr}
use mathlib.Core.Bool.{Bool, false, not}
use code_discovery_pyramid.Base.Tests.{Eq, ◌==◌, Bool-cases, ==→eq, ==_false→ne, ne→==_false}
use code_discovery_pyramid.Base.Lists.{filterb, filterb-true, filterb-false, Memᴰ-perm}
use code_discovery_pyramid.Base.Order.{Ord}
use code_discovery_pyramid.Base.Sorting.{IsNodup, IsNodup-perm, sort_by, sort_by-perm}
use code_discovery_pyramid.Base.Dict.{
  keys, lookup_list, group_into, lookup_list-group, Memᴰ-keys_group_into, keys-group_into-IsNodup,
}

-- `[y for x in xs for y in f(x)]`
abbrev pub concat_map {ℓ κ} : {A : Type ℓ} {B : Type κ} → (A → List B) → List A → List B
concat_map f [] = []
concat_map f (x ∷ xs) = f x ++ concat_map f xs

module _ {ℓ} {A : Type ℓ} where
  pub append-perm : {ws xs ys zs : List A} → Permᴰ ws xs → Permᴰ ys zs → Permᴰ (ws ++ ys) (xs ++ zs)
  append-perm {ws} {xs} {ys} {zs} p q =
      Permᴰ.trans (Permᴰ.append_right ys p) (Permᴰ.append_left xs q)

  -- A test parts a list.
  pub filterb-parts :
      (p : A → Bool) (xs : List A) → Permᴰ (filterb p xs ++ filterb (λ x. not (p x)) xs) xs
  filterb-parts p [] = Permᴰ.nil
  filterb-parts p (x ∷ xs) = elim (Bool-cases (p x)) [
    | inl h ↦ rw h (Permᴰ.cons refl (filterb-parts p xs))
    | inr h ↦ rw h (
        Permᴰ.trans (Permᴰ.middle x (filterb p xs) (filterb (λ y. not (p y)) xs))
          (Permᴰ.cons refl (filterb-parts p xs)))
  ]

module _ {ℓ κ} {A : Type ℓ} {B : Type κ} where
  pub concat_map-append :
      (f : A → List B) (xs ys : List A)
      → concat_map f (xs ++ ys) ≡ concat_map f xs ++ concat_map f ys
  concat_map-append f [] ys = refl
  concat_map-append f (x ∷ xs) ys =
      ap (λ l. f x ++ l) (concat_map-append f xs ys)
      ∙ sym (append_assoc (f x) (concat_map f xs) (concat_map f ys))

  pub concat_map-perm :
      (f : A → List B) {xs ys : List A} → Permᴰ xs ys → Permᴰ (concat_map f xs) (concat_map f ys)
  concat_map-perm f Permᴰ.nil = Permᴰ.nil
  concat_map-perm f (Permᴰ.cons {a} {b} {l₁} {l₂} e p) =
      subst (λ z. Permᴰ (f a ++ concat_map f l₁) (f z ++ concat_map f l₂)) e
        (Permᴰ.append_left (f a) (concat_map-perm f p))
  concat_map-perm f (Permᴰ.swap {a} {b} {a'} {b'} {l} e g) =
      subst (λ z. Permᴰ (concat_map f (a ∷ b ∷ l)) (concat_map f z)) (ap₂ (λ u v. u ∷ v ∷ l) g e)
        (subst (λ z. Permᴰ z (concat_map f (b ∷ a ∷ l))) (append_assoc (f a) (f b) (concat_map f l))
          (subst (Permᴰ ((f a ++ f b) ++ concat_map f l))
            (append_assoc (f b) (f a) (concat_map f l))
            (Permᴰ.append_right (concat_map f l) (Permᴰ.append_comm (f a) (f b)))))
  concat_map-perm f (Permᴰ.trans p q) = Permᴰ.trans (concat_map-perm f p) (concat_map-perm f q)

  pub concat_map-cong :
      (f g : A → List B) (xs : List A)
      → ((x : A) → Memᴰ x xs → Permᴰ (f x) (g x))
      → Permᴰ (concat_map f xs) (concat_map g xs)
  concat_map-cong f g [] h = Permᴰ.nil
  concat_map-cong f g (x ∷ xs) h =
      append-perm (h x (Memᴰ.head refl)) (concat_map-cong f g xs (λ y m. h y (Memᴰ.tail m)))

module _ {ℓ κ} {K : Type ℓ} {A : Type κ} ⦃e : Eq K⦄ (key : A → K) where
  abbrev pub of_key : List A → K → List A
  of_key xs k = filterb (λ x. k == key x) xs

  of_keys_new :
      (ks : List K) (x : A) (xs : List A)
      → ((k : K) → Memᴰ k ks → key x ≢ k)
      → concat_map (of_key (x ∷ xs)) ks ≡ concat_map (of_key xs) ks
  of_keys_new [] x xs h = refl
  of_keys_new (k ∷ ks) x xs h =
      ap₂ ◌++◌
        (filterb-false (λ z. k == key z) x xs
          (ne→==_false k (key x) (λ p. h k (Memᴰ.head refl) (sym p))))
        (of_keys_new ks x xs (λ j m. h j (Memᴰ.tail m)))

  of_keys-cons :
      (ks : List K) (x : A) (xs : List A)
      → IsNodup ks
      → Memᴰ (key x) ks
      → Permᴰ (concat_map (of_key (x ∷ xs)) ks) (x ∷ concat_map (of_key xs) ks)
  of_keys-cons [] x xs n m = elim m [ ]
  of_keys-cons (k ∷ ks) x xs n m = elim (Bool-cases (k == key x)) [
    | inl h ↦
        subst (λ l. Permᴰ l (x ∷ (of_key xs k ++ concat_map (of_key xs) ks)))
          (sym (
            ap₂ ◌++◌ (filterb-true (λ z. k == key z) x xs h)
              (of_keys_new ks x xs (λ j q p. n.0 j q (==→eq k (key x) h ∙ p)))))
          (Permᴰ.refl _)
    | inr h ↦
        subst
          (λ l.
            Permᴰ (l ++ concat_map (of_key (x ∷ xs)) ks)
              (x ∷ (of_key xs k ++ concat_map (of_key xs) ks)))
          (sym (filterb-false (λ z. k == key z) x xs h))
          (Permᴰ.trans (Permᴰ.append_left (of_key xs k) (of_keys-cons ks x xs n.1 (later h m)))
            (Permᴰ.middle x (of_key xs k) (concat_map (of_key xs) ks)))
  ]
    where
      later : (k == key x) ≡ false → Memᴰ (key x) (k ∷ ks) → Memᴰ (key x) ks
      later h (Memᴰ.head p) = absurd (==_false→ne k (key x) h (sym p))
      later h (Memᴰ.tail q) = q

  -- Keys without repetition that cover a list part it.
  pub of_keys-perm :
      (ks : List K) (xs : List A)
      → IsNodup ks
      → ((x : A) → Memᴰ x xs → Memᴰ (key x) ks)
      → Permᴰ (concat_map (of_key xs) ks) xs
  of_keys-perm ks [] n h = none_of ks
    where
      none_of : (l : List K) → Permᴰ (concat_map (of_key []) l) []
      none_of [] = Permᴰ.nil
      none_of (k ∷ l) = none_of l
  of_keys-perm ks (x ∷ xs) n h =
      Permᴰ.trans (of_keys-cons ks x xs n (h x (Memᴰ.head refl)))
        (Permᴰ.cons refl (of_keys-perm ks xs n (λ y m. h y (Memᴰ.tail m))))

  -- The groups of a list, by sorted keys, hold its elements.
  pub group_into-parts :
      ⦃o : Ord K⦄ (xs : List A)
      → Permᴰ
          (concat_map
            (λ k. lookup_list k (group_into key [] xs))
            (sort_by (λ k. k) (keys (group_into key [] xs))))
          xs
  group_into-parts xs =
      let ks = keys (group_into key [] xs) in
      let p = sort_by-perm (λ k. k) ks in
      Permᴰ.trans
        (concat_map-cong (λ k. lookup_list k (group_into key [] xs)) (of_key xs)
          (sort_by (λ k. k) ks)
          (λ k m.
            subst (Permᴰ (lookup_list k (group_into key [] xs))) (lookup_list-group key k xs)
              (Permᴰ.refl _)))
        (of_keys-perm (sort_by (λ k. k) ks) xs
          (IsNodup-perm (Permᴰ.symm p) (keys-group_into-IsNodup key [] xs tt))
          (λ x m. Memᴰ-perm (Permᴰ.symm p) (Memᴰ-keys_group_into key [] m)))

-- Where the images are distinct, they tell the elements apart.
pub map-injective {ℓ κ} :
    {A : Type ℓ} {B : Type κ} (f : A → B) (xs : List A)
    → IsNodup (map f xs)
    → (x y : A) → Memᴰ x xs
    → Memᴰ y xs
    → f x ≡ f y
    → x ≡ y
map-injective f [] n x y m k h = elim m [ ]
map-injective f (z ∷ xs) n x y (Memᴰ.head e) (Memᴰ.head g) h = e ∙ sym g
map-injective f (z ∷ xs) n x y (Memᴰ.head e) (Memᴰ.tail k) h =
    absurd (n.0 (f y) (Memᴰ.map f k) (sym (ap f e) ∙ h))
map-injective f (z ∷ xs) n x y (Memᴰ.tail m) (Memᴰ.head g) h =
    absurd (n.0 (f x) (Memᴰ.map f m) (sym (ap f g) ∙ sym h))
map-injective f (z ∷ xs) n x y (Memᴰ.tail m) (Memᴰ.tail k) h = map-injective f xs n.1 x y m k h
