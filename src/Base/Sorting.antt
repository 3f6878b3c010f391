-- ===== src/Base/Sorting.antt =====
-- Python's `sorted`: a stable sort by a key, and `sorted(set(xs))`.
use mathlib.Core.Path.{◌≡◌, refl, sym, ap₂, ◌∙◌, subst}
use mathlib.Core.Logic.{◌≢◌, inl, inr}
use mathlib.Core.Bool.{true, false, false≢true}
use mathlib.Core.List.Permᴰ
use mathlib.Core.List.{List, [], ◌∷◌, Memᴰ, Permᴰ}
use native.Mathlib.Omega.{arith}
use code_discovery_pyramid.Base.Tests.{Eq, if◌then◌else◌, Bool-cases}
use code_discovery_pyramid.Base.Lists.{
  All, All-Memᴰ, All-of_Memᴰ, Memᴰ-perm, contains, contains→Memᴰ, Memᴰ→contains,
}
use code_discovery_pyramid.Base.Order.{Ord, ◌≼◌, ≼_refl}

module _ {ℓ κ} {A : Type ℓ} {K : Type κ} ⦃o : Ord K⦄ (key : A → K) where
  insert_by : A → List A → List A
  insert_by x [] = x ∷ []
  insert_by x (y ∷ ys) = if key x ≼ key y then x ∷ y ∷ ys else y ∷ insert_by x ys

  -- `sorted(xs, key=key)`
  unfoldable pub sort_by : List A → List A
  unfolding insert_by
  sort_by [] = []
  sort_by (x ∷ xs) = insert_by x (sort_by xs)

  abbrev pub IsSorted : List A → Type κ
  IsSorted [] = Unit
  IsSorted (x ∷ xs) = All (λ y. (key x ≼ key y) ≡ true) xs × IsSorted xs

  insert_by_first :
      (x y : A) (ys : List A) → (key x ≼ key y) ≡ true → insert_by x (y ∷ ys) ≡ x ∷ y ∷ ys
  unfolding insert_by
  insert_by_first x y ys h = rw h

  insert_by_later :
      (x y : A) (ys : List A) → (key x ≼ key y) ≡ false → insert_by x (y ∷ ys) ≡ y ∷ insert_by x ys
  unfolding insert_by
  insert_by_later x y ys h = rw h

  insert_by_comm :
      (x y : A) (l : List A)
      → (key x ≡ key y → x ≡ y)
      → insert_by x (insert_by y l) ≡ insert_by y (insert_by x l)
  unfolding insert_by
  insert_by_comm x y [] h = ground (arith, o.total (key x) (key y), o.antisymm (key x) (key y), h)
  insert_by_comm x y (z ∷ l) h = ground (
    arith,
    o.total (key x) (key y),
    o.antisymm (key x) (key y),
    h,
    o.trans (key x) (key y) (key z),
    o.trans (key y) (key x) (key z),
    insert_by_comm x y l h,
  )

  -- Keys that tell the members of a list apart.
  abbrev pub KeyDistinct : List A → Type (ℓ ⊔ κ)
  KeyDistinct l = (x y : A) → Memᴰ x l → Memᴰ y l → key x ≡ key y → x ≡ y

  -- The order of the input is forgotten where the keys tell the members apart.
  pub sort_by-perm_eq : {xs ys : List A} → Permᴰ xs ys → KeyDistinct xs → sort_by xs ≡ sort_by ys
  unfolding sort_by
  sort_by-perm_eq Permᴰ.nil h = refl
  sort_by-perm_eq (Permᴰ.cons e p) h =
      ap₂ insert_by e (sort_by-perm_eq p (λ x y m n. h x y (Memᴰ.tail m) (Memᴰ.tail n)))
  sort_by-perm_eq (Permᴰ.swap {a} {b} {l = l} e f) h =
      insert_by_comm a b (sort_by l) (h a b (Memᴰ.head refl) (Memᴰ.tail (Memᴰ.head refl)))
      ∙ ap₂ (λ u v. insert_by u (insert_by v (sort_by l))) f e
  sort_by-perm_eq (Permᴰ.trans p q) h =
      sort_by-perm_eq p h
      ∙ sort_by-perm_eq q
          (λ x y m n. h x y (Memᴰ-perm (Permᴰ.symm p) m) (Memᴰ-perm (Permᴰ.symm p) n))

  insert_by-perm : (x : A) (l : List A) → Permᴰ (insert_by x l) (x ∷ l)
  unfolding insert_by
  insert_by-perm x [] = Permᴰ.refl (x ∷ [])
  insert_by-perm x (y ∷ l) = elim (Bool-cases (key x ≼ key y)) [
    | inl h ↦ rw h (Permᴰ.refl (x ∷ y ∷ l))
    | inr h ↦ rw h (Permᴰ.trans (Permᴰ.cons refl (insert_by-perm x l)) (Permᴰ.swap refl refl))
  ]

  -- Sorting loses and invents nothing.
  pub sort_by-perm : (l : List A) → Permᴰ (sort_by l) l
  unfolding sort_by
  sort_by-perm [] = Permᴰ.nil
  sort_by-perm (x ∷ l) =
      Permᴰ.trans (insert_by-perm x (sort_by l)) (Permᴰ.cons refl (sort_by-perm l))

  insert_by-IsSorted : (x : A) (l : List A) → IsSorted l → IsSorted (insert_by x l)
  unfolding insert_by
  insert_by-IsSorted x [] s = (tt, tt)
  insert_by-IsSorted x (y ∷ l) s = elim (Bool-cases (key x ≼ key y)) [
    | inl h ↦
        rw (insert_by_first x y l h)
          ((h, All-of_Memᴰ _ l (λ z m. o.trans (key x) (key y) (key z) h (All-Memᴰ _ s.0 m))), s)
    | inr h ↦ rw (insert_by_later x y l h) (
      All-of_Memᴰ _ (insert_by x l) (λ z m. Below z h (Memᴰ-perm (insert_by-perm x l) m)),
      insert_by-IsSorted x l s.1,
    )
  ]
    where
      Below : (z : A) → (key x ≼ key y) ≡ false → Memᴰ z (x ∷ l) → (key y ≼ key z) ≡ true
      Below z h (Memᴰ.head e) =
          subst (λ w. (key y ≼ key w) ≡ true) (sym e) (o.total (key x) (key y) h)
      Below z h (Memᴰ.tail m) = All-Memᴰ (λ w. (key y ≼ key w) ≡ true) s.0 m

  pub sort_by-IsSorted : (l : List A) → IsSorted (sort_by l)
  unfolding sort_by
  sort_by-IsSorted [] = tt
  sort_by-IsSorted (x ∷ l) = insert_by-IsSorted x (sort_by l) (sort_by-IsSorted l)

module _ {ℓ} {A : Type ℓ} where
  abbrev pub IsNodup : List A → Type ℓ
  IsNodup [] = Unit
  IsNodup (x ∷ xs) = ((y : A) → Memᴰ y xs → x ≢ y) × IsNodup xs

  pub IsNodup-perm : {xs ys : List A} → Permᴰ xs ys → IsNodup xs → IsNodup ys
  IsNodup-perm Permᴰ.nil n = n
  IsNodup-perm (Permᴰ.cons p q) n =
      (λ z m r. n.0 z (Memᴰ-perm (Permᴰ.symm q) m) (p ∙ r), IsNodup-perm q n.1)
  IsNodup-perm (Permᴰ.swap {a} {b} {a'} {b'} {l} p q) n =
      (first, (λ z m r. n.0 z (Memᴰ.tail m) (p ∙ r), n.1.1))
    where
      first : (z : A) → Memᴰ z (b' ∷ l) → a' ≢ z
      first z (Memᴰ.head r) k = n.0 b (Memᴰ.head refl) (p ∙ sym r ∙ sym k ∙ sym q)
      first z (Memᴰ.tail m) k = n.1.0 z m (q ∙ k)
  IsNodup-perm (Permᴰ.trans p q) n = IsNodup-perm q (IsNodup-perm p n)

module _ {ℓ} {A : Type ℓ} ⦃e : Eq A⦄ where
  -- `set(xs)`: each member once.
  unfoldable pub dedup : List A → List A
  dedup [] = []
  dedup (x ∷ xs) = if contains x xs then dedup xs else x ∷ dedup xs

  pub Memᴰ-dedup : {x : A} (xs : List A) → Memᴰ x xs → Memᴰ x (dedup xs)
  unfolding dedup
  Memᴰ-dedup [] m = m
  Memᴰ-dedup {x} (y ∷ ys) (Memᴰ.head p) = elim (Bool-cases (contains y ys)) [
    | inl h ↦ rw h (Memᴰ-dedup ys (subst (λ z. Memᴰ z ys) (sym p) (contains→Memᴰ y ys h)))
    | inr h ↦ rw h (Memᴰ.head p)
  ]
  Memᴰ-dedup (y ∷ ys) (Memᴰ.tail m) = elim (Bool-cases (contains y ys)) [
    | inl h ↦ rw h (Memᴰ-dedup ys m)
    | inr h ↦ rw h (Memᴰ.tail (Memᴰ-dedup ys m))
  ]

  dedup_keep : (y : A) (ys : List A) → contains y ys ≡ false → dedup (y ∷ ys) ≡ y ∷ dedup ys
  unfolding dedup
  dedup_keep y ys h = rw h

  dedup_skip : (y : A) (ys : List A) → contains y ys ≡ true → dedup (y ∷ ys) ≡ dedup ys
  unfolding dedup
  dedup_skip y ys h = rw h

  pub Memᴰ-of_dedup : {x : A} (xs : List A) → Memᴰ x (dedup xs) → Memᴰ x xs
  unfolding dedup
  Memᴰ-of_dedup [] m = m
  Memᴰ-of_dedup {x} (y ∷ ys) m = elim (Bool-cases (contains y ys)) [
    | inl h ↦ Memᴰ.tail (Memᴰ-of_dedup ys (subst (Memᴰ x) (dedup_skip y ys h) m))
    | inr h ↦ kept (Memᴰ-of_dedup ys) (subst (Memᴰ x) (dedup_keep y ys h) m)
  ]
    where
      kept : (Memᴰ x (dedup ys) → Memᴰ x ys) → Memᴰ x (y ∷ dedup ys) → Memᴰ x (y ∷ ys)
      kept rest (Memᴰ.head p) = Memᴰ.head p
      kept rest (Memᴰ.tail k) = Memᴰ.tail (rest k)

  pub dedup-IsNodup : (xs : List A) → IsNodup (dedup xs)
  unfolding dedup
  dedup-IsNodup [] = tt
  dedup-IsNodup (y ∷ ys) = elim (Bool-cases (contains y ys)) [
    | inl h ↦ rw h (dedup-IsNodup ys)
    | inr h ↦ rw h (
      (λ z m p.
          false≢true
            (sym h ∙ Memᴰ→contains (Memᴰ-of_dedup ys (subst (λ w. Memᴰ w (dedup ys)) (sym p) m)))),
      dedup-IsNodup ys,
    )
  ]

module _ {ℓ} {A : Type ℓ} ⦃e : Eq A⦄ ⦃o : Ord A⦄ where
  -- `sorted(set(xs))`
  unfoldable pub sorted_set : List A → List A
  sorted_set xs = sort_by (λ x. x) (dedup xs)

  sorted_unique :
      (xs ys : List A)
      → IsSorted (λ x. x) xs
      → IsNodup xs
      → IsSorted (λ x. x) ys
      → IsNodup ys
      → ((x : A) → Memᴰ x xs → Memᴰ x ys)
      → ((x : A) → Memᴰ x ys → Memᴰ x xs)
      → xs ≡ ys
  sorted_unique [] [] s n t m f g = refl
  sorted_unique [] (y ∷ ys) s n t m f g = elim (g y (Memᴰ.head refl)) [ ]
  sorted_unique (x ∷ xs) [] s n t m f g = elim (f x (Memᴰ.head refl)) [ ]
  sorted_unique (x ∷ xs) (y ∷ ys) s n t m f g = ap₂ ◌∷◌ same (
      sorted_unique xs ys s.1 n.1 t.1 m.1 (λ z k. rest (n.0 z k) same (f z (Memᴰ.tail k)))
        (λ z k. rest (m.0 z k) (sym same) (g z (Memᴰ.tail k))))
    where
      above : (a b : A) (l : List A) → All (λ z. (a ≼ z) ≡ true) l → Memᴰ b (a ∷ l) → (a ≼ b) ≡ true
      above a b l h (Memᴰ.head p) = subst (λ z. (a ≼ z) ≡ true) (sym p) (≼_refl a)
      above a b l h (Memᴰ.tail k) = All-Memᴰ (λ z. (a ≼ z) ≡ true) h k

      same : x ≡ y
      same =
          o.antisymm x y (above x y xs s.0 (g y (Memᴰ.head refl)))
            (above y x ys t.0 (f x (Memᴰ.head refl)))

      rest : {a b z : A} {l : List A} → a ≢ z → a ≡ b → Memᴰ z (b ∷ l) → Memᴰ z l
      rest ne p (Memᴰ.head q) = absurd (ne (p ∙ sym q))
      rest ne p (Memᴰ.tail k) = k

  -- Sorted lists of distinct elements with the same members are equal.
  pub sort_by-ext :
      (xs ys : List A)
      → IsNodup xs
      → IsNodup ys
      → ((x : A) → Memᴰ x xs → Memᴰ x ys)
      → ((x : A) → Memᴰ x ys → Memᴰ x xs)
      → sort_by (λ x. x) xs ≡ sort_by (λ x. x) ys
  sort_by-ext xs ys n m f g =
      sorted_unique _ _ (sort_by-IsSorted (λ x. x) xs) (sorted_nodup xs n)
        (sort_by-IsSorted (λ x. x) ys) (sorted_nodup ys m) (carry xs ys f) (carry ys xs g)
    where
      sorted_nodup : (l : List A) → IsNodup l → IsNodup (sort_by (λ x. x) l)
      sorted_nodup l = IsNodup-perm (Permᴰ.symm (sort_by-perm (λ x. x) l))

      carry :
          (l r : List A)
          → ((x : A) → Memᴰ x l → Memᴰ x r)
          → (x : A) → Memᴰ x (sort_by (λ x. x) l)
          → Memᴰ x (sort_by (λ x. x) r)
      carry l r h x m =
          Memᴰ-perm (Permᴰ.symm (sort_by-perm (λ x. x) r))
            (h x (Memᴰ-perm (sort_by-perm (λ x. x) l) m))

  -- Only the members count.
  pub sorted_set-ext :
      (xs ys : List A)
      → ((x : A) → Memᴰ x xs → Memᴰ x ys)
      → ((x : A) → Memᴰ x ys → Memᴰ x xs)
      → sorted_set xs ≡ sorted_set ys
  unfolding sorted_set
  sorted_set-ext xs ys f g =
      sort_by-ext (dedup xs) (dedup ys) (dedup-IsNodup xs) (dedup-IsNodup ys)
        (λ x m. Memᴰ-dedup ys (f x (Memᴰ-of_dedup xs m)))
        (λ x m. Memᴰ-dedup xs (g x (Memᴰ-of_dedup ys m)))

  pub Memᴰ-sorted_set : {x : A} (xs : List A) → Memᴰ x xs → Memᴰ x (sorted_set xs)
  unfolding sorted_set
  Memᴰ-sorted_set xs m = Memᴰ-perm (Permᴰ.symm (sort_by-perm (λ x. x) (dedup xs))) (Memᴰ-dedup xs m)

  pub Memᴰ-of_sorted_set : {x : A} (xs : List A) → Memᴰ x (sorted_set xs) → Memᴰ x xs
  unfolding sorted_set
  Memᴰ-of_sorted_set xs m = Memᴰ-of_dedup xs (Memᴰ-perm (sort_by-perm (λ x. x) (dedup xs)) m)
