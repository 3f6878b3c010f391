-- ===== src/Base/Best.antt =====
-- A dict that keeps, for each key, the best of the values seen: the loops of a fold that must not
-- depend on the order of its input.
use mathlib.Core.List.Permᴰ
use mathlib.Core.List.{List, [], ◌∷◌, Memᴰ, Permᴰ}
use mathlib.Core.Path.{◌≡◌, refl, sym, ap, ap₂, ◌∙◌, subst}
use mathlib.Core.Logic.{◌≢◌, ◌⊎◌, inl, inr}
use mathlib.Core.Bool.{true, false, not}
use mathlib.Core.Option.{Option, none, some}
use native.Mathlib.Omega.{arith}
use code_discovery_pyramid.Base.Tests.{
  Eq, ◌==◌, if◌then◌else◌, Bool-cases, Option-cases, ==→eq, ==_refl, ne→==_false, some_inj,
}
use code_discovery_pyramid.Base.Lists.{Memᴰ-perm}
use code_discovery_pyramid.Base.Order.{Ord, ◌≼◌, ≼_refl}
use code_discovery_pyramid.Base.Sorting.{IsNodup, IsNodup-perm}
use code_discovery_pyramid.Base.Dict.{
  Dict, keys, lookup, insert, lookup-insert_self, lookup-insert_ne, keys-insert-IsNodup,
}

module _ {ℓ} {A : Type ℓ} where
  extract : {x : A} (ys : List A) → Memᴰ x ys → (zs : List A) × Permᴰ ys (x ∷ zs)
  extract [] m = elim m [ ]
  extract (y ∷ ys) (Memᴰ.head p) = (ys, Permᴰ.cons (sym p) (Permᴰ.refl ys))
  extract {x} (y ∷ ys) (Memᴰ.tail m) =
      let (zs, p) = extract ys m in (y ∷ zs, Permᴰ.trans (Permᴰ.cons refl p) (Permᴰ.swap refl refl))

  -- Lists without repetition that have the same members are permutations of each other.
  pub IsNodup-same_members :
      (xs ys : List A)
      → IsNodup xs
      → IsNodup ys
      → ((x : A) → Memᴰ x xs → Memᴰ x ys)
      → ((x : A) → Memᴰ x ys → Memᴰ x xs)
      → Permᴰ xs ys
  IsNodup-same_members [] [] n m f g = Permᴰ.nil
  IsNodup-same_members [] (y ∷ ys) n m f g = elim (g y (Memᴰ.head refl)) [ ]
  IsNodup-same_members (x ∷ xs) ys n m f g =
      let (zs, p) = extract ys (f x (Memᴰ.head refl)) in
      let k = IsNodup-perm p m in
      Permᴰ.trans
        (Permᴰ.cons refl (
          IsNodup-same_members xs zs n.1 k.1
            (λ z a. other (n.0 z a) (Memᴰ-perm p (f z (Memᴰ.tail a))))
            (λ z a. other (k.0 z a) (g z (Memᴰ-perm (Permᴰ.symm p) (Memᴰ.tail a))))))
        (Permᴰ.symm p)
    where
      other : {z : A} {l : List A} → x ≢ z → Memᴰ z (x ∷ l) → Memᴰ z l
      other ne (Memᴰ.head q) = absurd (ne (sym q))
      other ne (Memᴰ.tail a) = a

module _ {ℓ κ} {K : Type ℓ} {V : Type κ} ⦃e : Eq K⦄ where
  lookup-first : (k : K) (v : V) (d : Dict K V) → lookup k ((k, v) ∷ d) ≡ some v
  unfolding lookup
  lookup-first k v d = rw (==_refl k)

  lookup-later :
      (k j : K) (v : V) (d : Dict K V) → (k == j) ≡ false → lookup k ((j, v) ∷ d) ≡ lookup k d
  unfolding lookup
  lookup-later k j v d h = rw h

  pub lookup-Memᴰ : (k : K) {v : V} (d : Dict K V) → lookup k d ≡ some v → Memᴰ (k, v) d
  unfolding lookup
  lookup-Memᴰ k [] h = absurd (ground arith)
  lookup-Memᴰ k {v} ((j, w) ∷ d) h = elim (Bool-cases (k == j)) [
    | inl p ↦ Memᴰ.head (ap₂ (λ a b. (a, b)) (==→eq k j p) (sym (some_inj (rw p at h))))
    | inr p ↦ Memᴰ.tail (lookup-Memᴰ k d (rw p at h))
  ]

  Memᴰ-keys : {k : K} {v : V} (d : Dict K V) → Memᴰ (k, v) d → Memᴰ k (keys d)
  Memᴰ-keys [] m = elim m [ ]
  Memᴰ-keys ((j, w) ∷ d) (Memᴰ.head p) = Memᴰ.head (ap (λ q. q.0) p)
  Memᴰ-keys ((j, w) ∷ d) (Memᴰ.tail m) = Memᴰ.tail (Memᴰ-keys d m)

  pub Memᴰ-lookup :
      (k : K) {v : V} (d : Dict K V) → IsNodup (keys d) → Memᴰ (k, v) d → lookup k d ≡ some v
  Memᴰ-lookup k [] n m = elim m [ ]
  Memᴰ-lookup k {v} ((j, w) ∷ d) n (Memᴰ.head p) =
      subst (λ q. lookup k (q ∷ d) ≡ some v) p (lookup-first k v d)
  Memᴰ-lookup k {v} ((j, w) ∷ d) n (Memᴰ.tail m) =
      lookup-later k j w d (ne→==_false k j (λ p. n.0 k (Memᴰ-keys d m) (sym p)))
      ∙ Memᴰ-lookup k d n.1 m

  keys-IsNodup : (d : Dict K V) → IsNodup (keys d) → IsNodup d
  keys-IsNodup [] n = tt
  keys-IsNodup ((k, v) ∷ d) n =
      ((λ (j, w) m p. n.0 j (Memᴰ-keys d m) (ap (λ q. q.0) p)), keys-IsNodup d n.1)

  -- Dicts that answer alike hold the same items.
  pub lookup-Permᴰ :
      (c d : Dict K V)
      → IsNodup (keys c)
      → IsNodup (keys d)
      → ((k : K) → lookup k c ≡ lookup k d)
      → Permᴰ c d
  lookup-Permᴰ c d n m same =
      IsNodup-same_members c d (keys-IsNodup c n) (keys-IsNodup d m)
        (λ (k, v) a. lookup-Memᴰ k d (sym (same k) ∙ Memᴰ-lookup k c n a))
        (λ (k, v) a. lookup-Memᴰ k c (same k ∙ Memᴰ-lookup k d m a))

module _ {κ ι} {V : Type κ} {R : Type ι} ⦃o : Ord R⦄ (rank : V → R) where
  -- A value of rank at least that of `w`.
  abbrev AtLeast : V → Option V → Type κ
  AtLeast w found = (v : V) × (found ≡ some v) × ((rank w ≼ rank v) ≡ true)

module _ {ℓ κ ι} {K : Type ℓ} {V : Type κ} {R : Type ι} ⦃e : Eq K⦄ ⦃o : Ord R⦄ (rank : V → R) where
  -- A new value takes the place of an old one that it outranks.
  abbrev pub put_best : Option V → K → V → Dict K V → Dict K V
  put_best none k v d = insert k v d
  put_best (some w) k v d = if not (rank v ≼ rank w) then insert k v d else d

  unfoldable pub keep_best : K → V → Dict K V → Dict K V
  keep_best k v d = put_best (lookup k d) k v d

  unfoldable pub keep_all : Dict K V → List (K × V) → Dict K V
  keep_all d [] = d
  keep_all d ((k, v) ∷ xs) = keep_all (keep_best k v d) xs

  keep_best-new :
      (k : K) (v : V) (d : Dict K V) → lookup k d ≡ none → keep_best k v d ≡ insert k v d
  unfolding keep_best
  keep_best-new k v d h = ap (λ found. put_best found k v d) h

  keep_best-won :
      (k : K) (v : V) (d : Dict K V) {w : V}
      → lookup k d ≡ some w
      → (rank v ≼ rank w) ≡ false
      → keep_best k v d ≡ insert k v d
  unfolding keep_best
  keep_best-won k v d h g = ap (λ found. put_best found k v d) h ∙ rw g

  keep_best-lost :
      (k : K) (v : V) (d : Dict K V) {w : V}
      → lookup k d ≡ some w
      → (rank v ≼ rank w) ≡ true
      → keep_best k v d ≡ d
  unfolding keep_best
  keep_best-lost k v d h g = ap (λ found. put_best found k v d) h ∙ rw g

  -- The two things that a round can do.
  keep_best-cases :
      (k : K) (v : V) (d : Dict K V)
      → ((keep_best k v d ≡ insert k v d)
          × ((w : V) → lookup k d ≡ some w → (rank w ≼ rank v) ≡ true))
        ⊎ ((w : V) × (keep_best k v d ≡ d) × (lookup k d ≡ some w) × ((rank v ≼ rank w) ≡ true))
  keep_best-cases k v d = elim (Option-cases (lookup k d)) [
    | inl h ↦ inl (keep_best-new k v d h, λ w g. absurd (none≢ (sym h ∙ g)))
    | inr (w, h) ↦ elim (Bool-cases (rank v ≼ rank w)) [
      | inl g ↦ inr (w, keep_best-lost k v d h g, h, g)
      | inr g ↦ inl (
        keep_best-won k v d h g,
        λ u p. subst (λ z. (rank z ≼ rank v) ≡ true) (some_inj (sym h ∙ p)) (o.total _ _ g),
      )
    ]
  ]
    where
      none≢ : {u : V} → none ≢ some u
      none≢ h = ground arith

  keep_best-other :
      (k j : K) (v : V) (d : Dict K V) → (j == k) ≡ false → lookup j (keep_best k v d) ≡ lookup j d
  keep_best-other k j v d h = elim (keep_best-cases k v d) [
    | inl (p, q) ↦ ap (lookup j) p ∙ lookup-insert_ne k j v d h
    | inr (w, p, q, g) ↦ ap (lookup j) p
  ]

  keep_best_self : (k : K) (v : V) (d : Dict K V) → AtLeast rank v (lookup k (keep_best k v d))
  keep_best_self k v d = elim (keep_best-cases k v d) [
    | inl (p, q) ↦ (v, ap (lookup k) p ∙ lookup-insert_self k v d, ≼_refl (rank v))
    | inr (w, p, q, g) ↦ (w, ap (lookup k) p ∙ q, g)
  ]

  keep_best-grows :
      (k j : K) (v : V) {w : V} (d : Dict K V)
      → lookup j d ≡ some w
      → AtLeast rank w (lookup j (keep_best k v d))
  keep_best-grows k j v {w} d h = elim (Bool-cases (j == k)) [
    | inr no_match ↦ (w, keep_best-other k j v d no_match ∙ h, ≼_refl (rank w))
    | inl same ↦ elim (keep_best-cases k v d) [
      | inl (p, q) ↦ (
        v,
        ap (lookup j) p
            ∙ (ap (λ i. lookup i (insert k v d)) (==→eq j k same) ∙ lookup-insert_self k v d),
        q w (sym (ap (λ i. lookup i d) (==→eq j k same)) ∙ h),
      )
      | inr (u, p, q, g) ↦ (w, ap (lookup j) p ∙ h, ≼_refl (rank w))
    ]
  ]

  keep_best-source :
      (k j : K) (v : V) {w : V} (d : Dict K V)
      → lookup j (keep_best k v d) ≡ some w
      → (lookup j d ≡ some w) ⊎ (Path (K × V) (j, w) (k, v))
  keep_best-source k j v {w} d h = elim (Bool-cases (j == k)) [
    | inr no_match ↦ inl (sym (keep_best-other k j v d no_match) ∙ h)
    | inl same ↦ elim (keep_best-cases k v d) [
      | inl (p, q) ↦ inr (
          ap₂ (λ a b. (a, b)) (==→eq j k same)
            (some_inj (
              sym h
              ∙ (ap (lookup j) p
                  ∙ (ap (λ i. lookup i (insert k v d)) (==→eq j k same)
                      ∙ lookup-insert_self k v d)))))
      | inr (u, p, q, g) ↦ inl (sym (ap (lookup j) p) ∙ h)
    ]
  ]

  -- What is kept was seen.
  pub keep_all-source :
      (j : K) {w : V} (d : Dict K V) (xs : List (K × V))
      → lookup j (keep_all d xs) ≡ some w
      → (lookup j d ≡ some w) ⊎ Memᴰ (j, w) xs
  unfolding keep_all
  keep_all-source j d [] h = inl h
  keep_all-source j d ((k, v) ∷ xs) h = elim (keep_all-source j (keep_best k v d) xs h) [
    | inr m ↦ inr (Memᴰ.tail m)
    | inl g ↦ elim (keep_best-source k j v d g) [ inl p ↦ inl p | inr p ↦ inr (Memᴰ.head p) ]
  ]

  keep_all-grows :
      (j : K) (d : Dict K V) (xs : List (K × V)) {w : V}
      → lookup j d ≡ some w
      → AtLeast rank w (lookup j (keep_all d xs))
  unfolding keep_all
  keep_all-grows j d [] {w} h = (w, h, ≼_refl (rank w))
  keep_all-grows j d ((k, v) ∷ xs) {w} h =
      let (u, p, q) = keep_best-grows k j v d h in
      let (t, r, s) = keep_all-grows j (keep_best k v d) xs p in (t, r, o.trans _ _ _ q s)

  -- What is kept is of the highest rank.
  pub keep_all-top :
      (j : K) {w : V} (d : Dict K V) (xs : List (K × V))
      → Memᴰ (j, w) xs
      → (v : V) × (lookup j (keep_all d xs) ≡ some v) × ((rank w ≼ rank v) ≡ true)
  unfolding keep_all
  keep_all-top j d [] m = elim m [ ]
  keep_all-top j {w} d ((k, v) ∷ xs) (Memᴰ.head p) =
      let (u, h, q) = keep_best_self k v d in
      let (t, r, s) = keep_all-grows k (keep_best k v d) xs h in
      (
        t,
        ap (λ i. lookup i (keep_all (keep_best k v d) xs)) (ap (λ z. z.0) p) ∙ r,
        subst (λ z. (rank z ≼ rank t) ≡ true) (sym (ap (λ z. z.1) p)) (o.trans _ _ _ q s),
      )
  keep_all-top j d ((k, v) ∷ xs) (Memᴰ.tail m) = keep_all-top j (keep_best k v d) xs m

  keep_best-IsNodup :
      (k : K) (v : V) (d : Dict K V) → IsNodup (keys d) → IsNodup (keys (keep_best k v d))
  keep_best-IsNodup k v d n = elim (keep_best-cases k v d) [
    | inl (p, q) ↦ subst (λ c. IsNodup (keys c)) (sym p) (keys-insert-IsNodup k v d n)
    | inr (w, p, q, g) ↦ subst (λ c. IsNodup (keys c)) (sym p) n
  ]

  pub keep_all-IsNodup :
      (d : Dict K V) (xs : List (K × V)) → IsNodup (keys d) → IsNodup (keys (keep_all d xs))
  unfolding keep_all
  keep_all-IsNodup d [] n = n
  keep_all-IsNodup d ((k, v) ∷ xs) n =
      keep_all-IsNodup (keep_best k v d) xs (keep_best-IsNodup k v d n)

  -- Values of one key that are of one rank are one value.
  abbrev pub RankDistinct : List (K × V) → Type (ℓ ⊔ κ ⊔ ι)
  RankDistinct xs = (k : K) (v w : V) → Memᴰ (k, v) xs → Memᴰ (k, w) xs → rank v ≡ rank w → v ≡ w

  keep_all-below :
      {xs ys : List (K × V)}
      → Permᴰ xs ys
      → RankDistinct xs
      → (k : K) {v : V} → lookup k (keep_all [] xs) ≡ some v
      → lookup k (keep_all [] ys) ≡ some v
  unfolding lookup
  keep_all-below {xs} {ys} p distinct k {v} h =
      let m = seen xs h in
      let (w, g, q) = keep_all-top k [] ys (Memᴰ-perm p m) in
      let n = Memᴰ-perm (Permᴰ.symm p) (seen ys g) in
      let (u, f, r) = keep_all-top k [] xs n in
      let back = subst (λ z. (rank w ≼ rank z) ≡ true) (some_inj (sym f ∙ h)) r in
      g ∙ ap some (sym (distinct k v w m n (o.antisymm _ _ q back)))
    where
      seen : (zs : List (K × V)) {t : V} → lookup k (keep_all [] zs) ≡ some t → Memᴰ (k, t) zs
      seen zs {t} f = elim (keep_all-source k [] zs f) [ inl a ↦ absurd (ground arith) | inr b ↦ b ]

  -- The order in which the values come does not count.
  pub keep_all-lookup_perm :
      {xs ys : List (K × V)}
      → Permᴰ xs ys
      → RankDistinct xs
      → RankDistinct ys
      → (k : K) → lookup k (keep_all [] xs) ≡ lookup k (keep_all [] ys)
  keep_all-lookup_perm {xs} {ys} p d d' k = elim (Option-cases (lookup k (keep_all [] xs))) [
    | inr (v, h) ↦ h ∙ sym (keep_all-below p d k h)
    | inl h ↦ elim (Option-cases (lookup k (keep_all [] ys))) [
      | inl g ↦ h ∙ sym g
      | inr (w, g) ↦ keep_all-below (Permᴰ.symm p) d' k g ∙ sym g
    ]
  ]

  pub keep_all-perm :
      {xs ys : List (K × V)}
      → Permᴰ xs ys
      → RankDistinct xs
      → RankDistinct ys
      → Permᴰ (keep_all [] xs) (keep_all [] ys)
  keep_all-perm {xs} {ys} p d d' =
      lookup-Permᴰ (keep_all [] xs) (keep_all [] ys) (keep_all-IsNodup [] xs tt)
        (keep_all-IsNodup [] ys tt) (keep_all-lookup_perm p d d')
