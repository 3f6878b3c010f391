-- ===== src/Base/Lists.antt =====
-- Lists measured by native numbers, Boolean searches, and membership by recursion.
use Prim.Native.Nat.{ℕ, zero, suc, ◌+◌, ◌-◌, min}
use mathlib.Core.Path.{◌≡◌, refl, ap, ap₂, sym, subst, ◌∙◌}
use mathlib.Core.Logic.{◌⊎◌, inl, inr}
use mathlib.Core.Bool.{Bool, true, false, ◌||◌, ◌&&◌, false≢true}
use mathlib.Core.List.Permᴰ
use mathlib.Core.List.{List, [], ◌∷◌, ◌++◌, map, Memᴰ, Permᴰ}
use native.Mathlib.Omega.{arith}
use code_discovery_pyramid.Base.Tests.{Eq, ◌==◌, if◌then◌else◌, Bool-cases, ==→eq}

module _ {ℓ} {A : Type ℓ} where
  abbrev pub length : List A → ℕ
  length [] = 0
  length (x ∷ xs) = suc (length xs)

  abbrev pub is_empty : List A → Bool
  is_empty [] = true
  is_empty (x ∷ xs) = false

  abbrev pub take : ℕ → List A → List A
  take zero xs = []
  take (suc n) [] = []
  take (suc n) (x ∷ xs) = x ∷ take n xs

  abbrev pub drop : ℕ → List A → List A
  drop zero xs = xs
  drop (suc n) [] = []
  drop (suc n) (x ∷ xs) = drop n xs

  pub take-append-drop : (n : ℕ) (xs : List A) → take n xs ++ drop n xs ≡ xs
  take-append-drop zero xs = refl
  take-append-drop (suc n) [] = refl
  take-append-drop (suc n) (x ∷ xs) = ap (◌∷◌ x) (take-append-drop n xs)

  pub length-take : (n : ℕ) (xs : List A) → length (take n xs) ≡ min n (length xs)
  length-take zero xs = omega arith
  length-take (suc n) [] = omega arith
  length-take (suc n) (x ∷ xs) = omega (arith, length-take n xs)

  pub length-drop : (n : ℕ) (xs : List A) → length (drop n xs) ≡ length xs - n
  length-drop zero xs = omega arith
  length-drop (suc n) [] = omega arith
  length-drop (suc n) (x ∷ xs) = omega (arith, length-drop n xs)

  pub length-append : (xs ys : List A) → length (xs ++ ys) ≡ length xs + length ys
  length-append [] ys = omega arith
  length-append (x ∷ xs) ys = omega (arith, length-append xs ys)

  -- `[x for x in xs if p(x)]`
  abbrev pub filterb : (A → Bool) → List A → List A
  filterb p [] = []
  filterb p (x ∷ xs) = if p x then x ∷ filterb p xs else filterb p xs

  -- `any(p(x) for x in xs)`
  abbrev pub anyb : (A → Bool) → List A → Bool
  anyb p [] = false
  anyb p (x ∷ xs) = p x || anyb p xs

  abbrev pub allb : (A → Bool) → List A → Bool
  allb p [] = true
  allb p (x ∷ xs) = p x && allb p xs

  abbrev pub All {κ} : (A → Type κ) → List A → Type κ
  All P [] = Unit
  All P (x ∷ xs) = P x × All P xs

  pub Memᴰ-append_left : {x : A} {xs : List A} (ys : List A) → Memᴰ x xs → Memᴰ x (xs ++ ys)
  Memᴰ-append_left ys (Memᴰ.head e) = Memᴰ.head e
  Memᴰ-append_left ys (Memᴰ.tail m) = Memᴰ.tail (Memᴰ-append_left ys m)

  pub Memᴰ-append_right : {x : A} (xs : List A) {ys : List A} → Memᴰ x ys → Memᴰ x (xs ++ ys)
  Memᴰ-append_right [] m = m
  Memᴰ-append_right (z ∷ xs) m = Memᴰ.tail (Memᴰ-append_right xs m)

  pub Memᴰ-append : {x : A} (xs ys : List A) → Memᴰ x (xs ++ ys) → Memᴰ x xs ⊎ Memᴰ x ys
  Memᴰ-append [] ys m = inr m
  Memᴰ-append (z ∷ xs) ys (Memᴰ.head e) = inl (Memᴰ.head e)
  Memᴰ-append (z ∷ xs) ys (Memᴰ.tail m) = elim (Memᴰ-append xs ys m) [
    | inl a ↦ inl (Memᴰ.tail a)
    | inr b ↦ inr b
  ]

  pub Memᴰ-perm : {x : A} {xs ys : List A} → Permᴰ xs ys → Memᴰ x xs → Memᴰ x ys
  Memᴰ-perm Permᴰ.nil m = m
  Memᴰ-perm (Permᴰ.cons e p) (Memᴰ.head h) = Memᴰ.head (h ∙ e)
  Memᴰ-perm (Permᴰ.cons e p) (Memᴰ.tail m) = Memᴰ.tail (Memᴰ-perm p m)
  Memᴰ-perm (Permᴰ.swap e f) (Memᴰ.head h) = Memᴰ.tail (Memᴰ.head (h ∙ e))
  Memᴰ-perm (Permᴰ.swap e f) (Memᴰ.tail (Memᴰ.head h)) = Memᴰ.head (h ∙ f)
  Memᴰ-perm (Permᴰ.swap e f) (Memᴰ.tail (Memᴰ.tail m)) = Memᴰ.tail (Memᴰ.tail m)
  Memᴰ-perm (Permᴰ.trans p q) m = Memᴰ-perm q (Memᴰ-perm p m)

  pub All-Memᴰ {κ} : (P : A → Type κ) {x : A} {xs : List A} → All P xs → Memᴰ x xs → P x
  All-Memᴰ P h (Memᴰ.head e) = subst P (sym e) h.0
  All-Memᴰ P h (Memᴰ.tail m) = All-Memᴰ P h.1 m

  pub All-of_Memᴰ {κ} : (P : A → Type κ) (xs : List A) → ((x : A) → Memᴰ x xs → P x) → All P xs
  All-of_Memᴰ P [] h = tt
  All-of_Memᴰ P (y ∷ ys) h = (h y (Memᴰ.head refl), All-of_Memᴰ P ys (λ x m. h x (Memᴰ.tail m)))

  pub length-perm : {xs ys : List A} → Permᴰ xs ys → length xs ≡ length ys
  length-perm Permᴰ.nil = refl
  length-perm (Permᴰ.cons e p) = ap suc (length-perm p)
  length-perm (Permᴰ.swap e f) = refl
  length-perm (Permᴰ.trans p q) = length-perm p ∙ length-perm q

  pub map-perm {κ} :
      {B : Type κ} (f : A → B) {xs ys : List A} → Permᴰ xs ys → Permᴰ (map f xs) (map f ys)
  map-perm f Permᴰ.nil = Permᴰ.nil
  map-perm f (Permᴰ.cons e p) = Permᴰ.cons (ap f e) (map-perm f p)
  map-perm f (Permᴰ.swap e g) = Permᴰ.swap (ap f e) (ap f g)
  map-perm f (Permᴰ.trans p q) = Permᴰ.trans (map-perm f p) (map-perm f q)

  pub filterb-true :
      (p : A → Bool) (y : A) (ys : List A) → p y ≡ true → filterb p (y ∷ ys) ≡ y ∷ filterb p ys
  filterb-true p y ys h = rw h

  pub filterb-false :
      (p : A → Bool) (y : A) (ys : List A) → p y ≡ false → filterb p (y ∷ ys) ≡ filterb p ys
  filterb-false p y ys h = rw h

  pub Memᴰ-of_filterb :
      (p : A → Bool) {x : A} (xs : List A) → Memᴰ x (filterb p xs) → Memᴰ x xs × (p x ≡ true)
  Memᴰ-of_filterb p [] m = elim m [ ]
  Memᴰ-of_filterb p {x} (y ∷ ys) m = elim (Bool-cases (p y)) [
    | inl t ↦ kept (Memᴰ-of_filterb p ys) t (subst (Memᴰ x) (filterb-true p y ys t) m)
    | inr f ↦
        let (a, b) = Memᴰ-of_filterb p ys (subst (Memᴰ x) (filterb-false p y ys f) m) in
        (Memᴰ.tail a, b)
  ]
    where
      kept :
          (Memᴰ x (filterb p ys) → Memᴰ x ys × (p x ≡ true))
          → p y ≡ true
          → Memᴰ x (y ∷ filterb p ys)
          → Memᴰ x (y ∷ ys) × (p x ≡ true)
      kept rest t (Memᴰ.head e) = (Memᴰ.head e, subst (λ z. p z ≡ true) (sym e) t)
      kept rest t (Memᴰ.tail k) = let (a, b) = rest k in (Memᴰ.tail a, b)

  pub Memᴰ-filterb :
      (p : A → Bool) {x : A} {xs : List A} → Memᴰ x xs → p x ≡ true → Memᴰ x (filterb p xs)
  Memᴰ-filterb p {xs = []} m t = elim m [ ]
  Memᴰ-filterb p {xs = y ∷ ys} (Memᴰ.head e) t =
      subst (Memᴰ _) (sym (filterb-true p y ys (subst (λ z. p z ≡ true) e t))) (Memᴰ.head e)
  Memᴰ-filterb p {x} {xs = y ∷ ys} (Memᴰ.tail m) t = elim (Bool-cases (p y)) [
    | inl h ↦ subst (Memᴰ x) (sym (filterb-true p y ys h)) (Memᴰ.tail (Memᴰ-filterb p m t))
    | inr h ↦ subst (Memᴰ x) (sym (filterb-false p y ys h)) (Memᴰ-filterb p m t)
  ]

  pub filterb-perm :
      (p : A → Bool) {xs ys : List A} → Permᴰ xs ys → Permᴰ (filterb p xs) (filterb p ys)
  filterb-perm p Permᴰ.nil = Permᴰ.nil
  filterb-perm p (Permᴰ.cons {a} {b} {l₁ = xs} {l₂ = ys} e d) =
      cons_if (p a) (p b) (ap p e) (filterb-perm p d)
    where
      cons_if :
          (s t : Bool)
          → s ≡ t
          → Permᴰ (filterb p xs) (filterb p ys)
          → Permᴰ
              (if s then a ∷ filterb p xs else filterb p xs)
              (if t then b ∷ filterb p ys else filterb p ys)
      cons_if true true h rest = Permᴰ.cons e rest
      cons_if true false h rest = absurd (false≢true (sym h))
      cons_if false true h rest = absurd (false≢true h)
      cons_if false false h rest = rest
  filterb-perm p (Permᴰ.swap {a} {b} {a'} {b'} {l} e f) =
      subst (λ z. Permᴰ (filterb p (a ∷ b ∷ l)) (filterb p z)) (ap₂ (λ u v. u ∷ v ∷ l) f e)
        (swap_if (p a) (p b))
    where
      swap_if :
          (s t : Bool)
          → Permᴰ
              (if s
                then a ∷ (if t then b ∷ filterb p l else filterb p l)
                else (if t then b ∷ filterb p l else filterb p l))
              (if t
                then b ∷ (if s then a ∷ filterb p l else filterb p l)
                else (if s then a ∷ filterb p l else filterb p l))
      swap_if true true = Permᴰ.swap refl refl
      swap_if true false = Permᴰ.refl (a ∷ filterb p l)
      swap_if false true = Permᴰ.refl (b ∷ filterb p l)
      swap_if false false = Permᴰ.refl (filterb p l)
  filterb-perm p (Permᴰ.trans c d) = Permᴰ.trans (filterb-perm p c) (filterb-perm p d)

module _ {ℓ} {A : Type ℓ} ⦃e : Eq A⦄ where
  -- `x in xs`
  abbrev pub contains : A → List A → Bool
  contains x [] = false
  contains x (y ∷ ys) = (x == y) || contains x ys

  pub contains→Memᴰ : (x : A) (xs : List A) → contains x xs ≡ true → Memᴰ x xs
  contains→Memᴰ x [] h = absurd (false≢true h)
  contains→Memᴰ x (y ∷ ys) h = elim (Bool-cases (x == y)) [
    | inl p ↦ Memᴰ.head (==→eq x y p)
    | inr q ↦ Memᴰ.tail (contains→Memᴰ x ys (ground arith))
  ]

  pub Memᴰ→contains : {x : A} {xs : List A} → Memᴰ x xs → contains x xs ≡ true
  Memᴰ→contains {xs = []} m = elim m [ ]
  Memᴰ→contains {x} {xs = y ∷ ys} (Memᴰ.head p) = ground (arith, (e.beq_iff x y).1 p)
  Memᴰ→contains {x} {xs = y ∷ ys} (Memᴰ.tail m) =
      let h = Memᴰ→contains m in elim (Bool-cases (x == y)) [ inl p ↦ rw p | inr q ↦ rw q h ]

-- `sum(f(x) for x in xs)`
abbrev pub sum_by {ℓ} : {A : Type ℓ} → (A → ℕ) → List A → ℕ
sum_by f [] = 0
sum_by f (x ∷ xs) = f x + sum_by f xs

pub sum_by-append {ℓ} :
    {A : Type ℓ} (f : A → ℕ) (xs ys : List A) → sum_by f (xs ++ ys) ≡ sum_by f xs + sum_by f ys
sum_by-append f [] ys = omega arith
sum_by-append f (x ∷ xs) ys = omega (arith, sum_by-append f xs ys)

pub length-map {ℓ κ} :
    {A : Type ℓ} {B : Type κ} (f : A → B) (xs : List A) → length (map f xs) ≡ length xs
length-map f [] = refl
length-map f (x ∷ xs) = ap suc (length-map f xs)
