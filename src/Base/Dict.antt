-- ===== src/Base/Dict.antt =====
-- Python's `dict` as an association list in insertion order.
use mathlib.Core.Path.{◌≡◌, refl, sym, ap, ◌∙◌, subst}
use mathlib.Core.Logic.{◌⊎◌, inl, inr}
use mathlib.Core.Bool.{Bool, true, false}
use mathlib.Core.Option.{Option, none, some}
use mathlib.Core.List.Permᴰ
use mathlib.Core.List.{List, [], ◌∷◌, ◌++◌, map, append_assoc, append-nil, Memᴰ, Permᴰ}
use native.Mathlib.Omega.{arith}
use code_discovery_pyramid.Base.Tests.{
  Eq, ◌==◌, if◌then◌else◌, Bool-cases, ==→eq, ==_refl, ==_false→ne,
}
use code_discovery_pyramid.Base.Lists.{filterb, Memᴰ-perm, Memᴰ-filterb}
use code_discovery_pyramid.Base.Order.{Ord}
use code_discovery_pyramid.Base.Sorting.{IsNodup, sort_by, sort_by-ext}

abbrev pub Dict {ℓ κ} : Type ℓ → Type κ → Type (ℓ ⊔ κ)
Dict K V = List (K × V)

abbrev pub keys {ℓ κ} : {K : Type ℓ} {V : Type κ} → Dict K V → List K
keys d = map (λ p. p.0) d

abbrev pub values {ℓ κ} : {K : Type ℓ} {V : Type κ} → Dict K V → List V
values d = map (λ p. p.1) d

abbrev pub or_else {ℓ} : {A : Type ℓ} → A → Option A → A
or_else default none = default
or_else default (some a) = a

module _ {ℓ κ} {K : Type ℓ} {V : Type κ} ⦃e : Eq K⦄ where
  -- `d.get(k)`
  unfoldable pub lookup : K → Dict K V → Option V
  lookup k [] = none
  lookup k ((j, v) ∷ d) = if k == j then some v else lookup k d

  -- `d.get(k, default)`
  abbrev pub lookup_or : V → K → Dict K V → V
  lookup_or default k d = or_else default (lookup k d)

  -- `d[k] = v`: a key that is there keeps its place.
  unfoldable pub insert : K → V → Dict K V → Dict K V
  insert k v [] = (k, v) ∷ []
  insert k v ((j, w) ∷ d) = if k == j then (j, v) ∷ d else (j, w) ∷ insert k v d

  abbrev pub put_new : Option V → K → V → Dict K V → Dict K V
  put_new none k v d = insert k v d
  put_new (some w) k v d = d

  -- `d.setdefault(k, v)`, its effect on `d`
  abbrev pub set_default : K → V → Dict K V → Dict K V
  set_default k v d = put_new (lookup k d) k v d

  pub set_default-new :
      (k : K) (v : V) (d : Dict K V) → lookup k d ≡ none → set_default k v d ≡ insert k v d
  set_default-new k v d h = ap (λ found. put_new found k v d) h

  pub set_default-old :
      (k : K) (v : V) (d : Dict K V) {w : V} → lookup k d ≡ some w → set_default k v d ≡ d
  set_default-old k v d h = ap (λ found. put_new found k v d) h

  pub lookup-insert :
      (k j : K) (v : V) (d : Dict K V)
      → lookup j (insert k v d) ≡ (if j == k then some v else lookup j d)
  unfolding lookup insert
  lookup-insert k j v [] = refl
  lookup-insert k j v ((i, w) ∷ d) =
      ground (arith, e.beq_iff j k, e.beq_iff k i, e.beq_iff j i, lookup-insert k j v d)

  pub lookup-insert_self : (k : K) (v : V) (d : Dict K V) → lookup k (insert k v d) ≡ some v
  lookup-insert_self k v d = rw (lookup-insert k k v d, ==_refl k)

  pub lookup-insert_ne :
      (k j : K) (v : V) (d : Dict K V) → (j == k) ≡ false → lookup j (insert k v d) ≡ lookup j d
  lookup-insert_ne k j v d h = rw (lookup-insert k j v d, h)

  pub Memᴰ-keys_insert :
      (k : K) (v : V) {j : K} (d : Dict K V) → Memᴰ j (keys d) → Memᴰ j (keys (insert k v d))
  unfolding insert
  Memᴰ-keys_insert k v [] m = elim m [ ]
  Memᴰ-keys_insert k v ((i, w) ∷ d) (Memᴰ.head p) = elim (Bool-cases (k == i)) [
    | inl h ↦ rw h (Memᴰ.head p)
    | inr h ↦ rw h (Memᴰ.head p)
  ]
  Memᴰ-keys_insert k v ((i, w) ∷ d) (Memᴰ.tail m) = elim (Bool-cases (k == i)) [
    | inl h ↦ rw h (Memᴰ.tail m)
    | inr h ↦ rw h (Memᴰ.tail (Memᴰ-keys_insert k v d m))
  ]

  pub Memᴰ-keys_insert_self : (k : K) (v : V) (d : Dict K V) → Memᴰ k (keys (insert k v d))
  unfolding insert
  Memᴰ-keys_insert_self k v [] = Memᴰ.head refl
  Memᴰ-keys_insert_self k v ((i, w) ∷ d) = elim (Bool-cases (k == i)) [
    | inl h ↦ rw h (Memᴰ.head (==→eq k i h))
    | inr h ↦ rw h (Memᴰ.tail (Memᴰ-keys_insert_self k v d))
  ]

  pub Memᴰ-of_keys-insert :
      (k : K) (v : V) {j : K} (d : Dict K V)
      → Memᴰ j (keys (insert k v d))
      → (j ≡ k) ⊎ Memᴰ j (keys d)
  unfolding insert
  Memᴰ-of_keys-insert k v [] (Memᴰ.head p) = inl p
  Memᴰ-of_keys-insert k v [] (Memᴰ.tail m) = inr m
  Memᴰ-of_keys-insert k v {j} ((i, w) ∷ d) m = elim (Bool-cases (k == i)) [
    | inl h ↦ inr (subst (λ l. Memᴰ j (keys l)) (found h) m)
    | inr h ↦ later (Memᴰ-of_keys-insert k v d) (subst (λ l. Memᴰ j (keys l)) (passed h) m)
  ]
    where
      found : (k == i) ≡ true → insert k v ((i, w) ∷ d) ≡ (i, v) ∷ d
      found h = rw h

      passed : (k == i) ≡ false → insert k v ((i, w) ∷ d) ≡ (i, w) ∷ insert k v d
      passed h = rw h

      later :
          (Memᴰ j (keys (insert k v d)) → (j ≡ k) ⊎ Memᴰ j (keys d))
          → Memᴰ j (i ∷ keys (insert k v d))
          → (j ≡ k) ⊎ Memᴰ j (i ∷ keys d)
      later rest (Memᴰ.head p) = inr (Memᴰ.head p)
      later rest (Memᴰ.tail m') = elim (rest m') [ inl p ↦ inl p | inr q ↦ inr (Memᴰ.tail q) ]

  pub keys-insert-IsNodup :
      (k : K) (v : V) (d : Dict K V) → IsNodup (keys d) → IsNodup (keys (insert k v d))
  unfolding insert
  keys-insert-IsNodup k v [] n = ((λ y m. elim m [ ]), tt)
  keys-insert-IsNodup k v ((i, w) ∷ d) n = elim (Bool-cases (k == i)) [
    | inl h ↦ rw h n
    | inr h ↦ rw h (
      (λ y m p. elim (Memᴰ-of_keys-insert k v d m) [
        | inl q ↦ ==_false→ne k i h (sym (p ∙ q))
        | inr m' ↦ n.0 y m' p
      ]),
      keys-insert-IsNodup k v d n.1,
    )
  ]

module _ {ℓ κ} {K : Type ℓ} {A : Type κ} ⦃e : Eq K⦄ where
  -- `d.get(k, [])`
  abbrev pub lookup_list : K → Dict K (List A) → List A
  lookup_list k d = lookup_or [] k d

  -- `d.setdefault(k, []).append(x)`
  unfoldable pub push : K → A → Dict K (List A) → Dict K (List A)
  push k x d = insert k (lookup_list k d ++ x ∷ []) d

  -- `for x in xs: d.setdefault(key(x), []).append(x)`
  unfoldable pub group_into : (A → K) → Dict K (List A) → List A → Dict K (List A)
  group_into key d [] = d
  group_into key d (x ∷ xs) = group_into key (push (key x) x d) xs

  lookup_list-push :
      (k j : K) (x : A) (d : Dict K (List A))
      → lookup_list j (push k x d) ≡ lookup_list j d ++ (if j == k then x ∷ [] else [])
  unfolding push
  lookup_list-push k j x d = ground (
    arith,
    e.beq_iff j k,
    lookup-insert k j (lookup_list k d ++ x ∷ []) d,
    append-nil (lookup_list j d),
  )

  -- Each group holds the elements of its key, in the order of the input.
  pub lookup_list-group_into :
      (key : A → K) (k : K) (d : Dict K (List A)) (xs : List A)
      → lookup_list k (group_into key d xs) ≡ lookup_list k d ++ filterb (λ x. k == key x) xs
  unfolding group_into
  lookup_list-group_into key k d [] = sym (append-nil (lookup_list k d))
  lookup_list-group_into key k d (x ∷ xs) =
      lookup_list-group_into key k (push (key x) x d) xs
      ∙ ap (λ l. l ++ filterb (λ z. k == key z) xs) (lookup_list-push (key x) k x d)
      ∙ regroup (k == key x)
    where
      regroup :
          (b : Bool)
          → (lookup_list k d ++ (if b then x ∷ [] else [])) ++ filterb (λ z. k == key z) xs
            ≡ lookup_list k d
              ++ (if b then x ∷ filterb (λ z. k == key z) xs else filterb (λ z. k == key z) xs)
      regroup true = append_assoc (lookup_list k d) (x ∷ []) (filterb (λ z. k == key z) xs)
      regroup false = append_assoc (lookup_list k d) [] (filterb (λ z. k == key z) xs)

  pub lookup_list-group :
      (key : A → K) (k : K) (xs : List A)
      → lookup_list k (group_into key [] xs) ≡ filterb (λ x. k == key x) xs
  unfolding lookup
  lookup_list-group key k xs = lookup_list-group_into key k [] xs

  -- The keys of the groups are the keys of the elements.
  pub Memᴰ-keys_group_into :
      (key : A → K) {x : A} (d : Dict K (List A)) {xs : List A}
      → Memᴰ x xs
      → Memᴰ (key x) (keys (group_into key d xs))
  unfolding group_into
  Memᴰ-keys_group_into key {x} d {xs = []} m = elim m [ ]
  Memᴰ-keys_group_into key {x} d {xs = y ∷ ys} (Memᴰ.head p) =
      kept ys (push (key y) y d)
        (subst (λ k. Memᴰ k (keys (push (key y) y d))) (ap key (sym p)) here)
    where
      here : Memᴰ (key y) (keys (push (key y) y d))
      here = unfold push in Memᴰ-keys_insert_self (key y) (lookup_list (key y) d ++ y ∷ []) d

      kept :
          (zs : List A) (d' : Dict K (List A))
          → Memᴰ (key x) (keys d')
          → Memᴰ (key x) (keys (group_into key d' zs))
      kept [] d' m = m
      kept (z ∷ zs) d' m =
          kept zs (push (key z) z d')
            (unfold push in Memᴰ-keys_insert (key z) (lookup_list (key z) d' ++ z ∷ []) d' m)
  Memᴰ-keys_group_into key d {xs = y ∷ ys} (Memᴰ.tail m) =
      Memᴰ-keys_group_into key (push (key y) y d) m

  pub Memᴰ-of_keys-group_into :
      (key : A → K) {k : K} (d : Dict K (List A)) (xs : List A)
      → Memᴰ k (keys (group_into key d xs))
      → Memᴰ k (keys d) ⊎ ((x : A) × Memᴰ x xs × (k ≡ key x))
  unfolding group_into push
  Memᴰ-of_keys-group_into key d [] m = inl m
  Memᴰ-of_keys-group_into key {k} d (y ∷ ys) m =
      elim (Memᴰ-of_keys-group_into key (push (key y) y d) ys m) [
        | inl h ↦ elim (Memᴰ-of_keys-insert (key y) (lookup_list (key y) d ++ y ∷ []) d h) [
          | inl p ↦ inr (y, Memᴰ.head refl, p)
          | inr q ↦ inl q
        ]
        | inr (x, h, p) ↦ inr (x, Memᴰ.tail h, p)
      ]

  pub keys-group_into-IsNodup :
      (key : A → K) (d : Dict K (List A)) (xs : List A)
      → IsNodup (keys d)
      → IsNodup (keys (group_into key d xs))
  unfolding group_into push
  keys-group_into-IsNodup key d [] n = n
  keys-group_into-IsNodup key d (x ∷ xs) n =
      keys-group_into-IsNodup key (push (key x) x d) xs
        (keys-insert-IsNodup (key x) (lookup_list (key x) d ++ x ∷ []) d n)

  -- The groups of permuted inputs have the same keys, once sorted.
  pub sort_by-keys-group_into :
      ⦃o : Ord K⦄ (key : A → K) {xs ys : List A}
      → Permᴰ xs ys
      → sort_by (λ k. k) (keys (group_into key [] xs))
        ≡ sort_by (λ k. k) (keys (group_into key [] ys))
  sort_by-keys-group_into key {xs} {ys} p =
      sort_by-ext _ _ (keys-group_into-IsNodup key [] xs tt) (keys-group_into-IsNodup key [] ys tt)
        (carry p) (carry (Permᴰ.symm p))
    where
      carry :
          {l r : List A}
          → Permᴰ l r
          → (k : K) → Memᴰ k (keys (group_into key [] l))
          → Memᴰ k (keys (group_into key [] r))
      carry {l} {r} q k m = elim (Memᴰ-of_keys-group_into key [] l m) [
        | inl h ↦ elim h [ ]
        | inr (x, h, e') ↦
            subst (λ j. Memᴰ j (keys (group_into key [] r))) (sym e')
              (Memᴰ-keys_group_into key [] (Memᴰ-perm q h))
      ]

  -- A group that has a key has an element.
  pub lookup_list-group-ne_nil :
      (key : A → K) {k : K} (xs : List A)
      → Memᴰ k (keys (group_into key [] xs))
      → (x : A) × Memᴰ x (lookup_list k (group_into key [] xs))
  lookup_list-group-ne_nil key {k} xs m = elim (Memᴰ-of_keys-group_into key [] xs m) [
    | inl h ↦ elim h [ ]
    | inr (x, h, p) ↦ (
      x,
      subst (Memᴰ x) (sym (lookup_list-group key k xs))
          (Memᴰ-filterb (λ z. k == key z) h ((e.beq_iff k (key x)).1 p)),
    )
  ]
