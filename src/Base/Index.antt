-- ===== src/Base/Index.antt =====
-- A dict built by `setdefault`: the first element of each key; and relations between lists
-- element by element.
use mathlib.Core.List.{List, [], ◌∷◌, map, Memᴰ}
use mathlib.Core.Path.{◌≡◌, sym, ap, ◌∙◌}
use mathlib.Core.Logic.{◌⊎◌, inl, inr}
use mathlib.Core.Bool.{false}
use mathlib.Core.Option.{Option, none, some}
use native.Mathlib.Omega.{arith}
use code_discovery_pyramid.Base.Tests.{Eq, ◌==◌, Bool-cases, Option-cases, ==→eq, some_inj}
use code_discovery_pyramid.Base.Dict.{
  Dict, lookup, insert, set_default, set_default-new, set_default-old, lookup-insert_self,
  lookup-insert_ne,
}

-- Lists of one length, related element by element.
pub data Pointwise {ℓ κ ι} {A : Type ℓ} {B : Type κ} (R : A → B → Type ι)
    : List A → List B → Type (ℓ ⊔ κ ⊔ ι) where
  nothing : Pointwise R [] []
  pair :
      {a : A} {b : B} {as₁ : List A} {bs : List B}
      → R a b
      → Pointwise R as₁ bs
      → Pointwise R (a ∷ as₁) (b ∷ bs)

pub none≢some {ℓ} : {A : Type ℓ} {a : A} → (Path (Option A) none (some a)) → ⊥
none≢some p = ground arith

pub map-Pointwise {ℓ κ ι} :
    {A : Type ℓ} {B : Type κ} (R : A → B → Type ι) (f : A → B)
    → ((a : A) → R a (f a))
    → (xs : List A) → Pointwise R xs (map f xs)
map-Pointwise R f h [] = Pointwise.nothing
map-Pointwise R f h (x ∷ xs) = Pointwise.pair (h x) (map-Pointwise R f h xs)

module _ {ℓ κ} {K : Type ℓ} {A : Type κ} ⦃e : Eq K⦄ (key : A → K) where
  -- `for x in xs: d.setdefault(key(x), x)`
  unfoldable pub first_by : Dict K A → List A → Dict K A
  first_by d [] = d
  first_by d (x ∷ xs) = first_by (set_default (key x) x d) xs

  set_default-source :
      (k j : K) (v : A) (d : Dict K A) {w : A}
      → lookup j (set_default k v d) ≡ some w
      → (lookup j d ≡ some w) ⊎ ((w ≡ v) × (j ≡ k))
  set_default-source k j v d {w} h = elim (Option-cases (lookup k d)) [
    | inr (u, found) ↦ inl (sym (ap (lookup j) (set_default-old k v d found)) ∙ h)
    | inl missing ↦ elim (Bool-cases (j == k)) [
      | inl same ↦ inr (
        some_inj (
            sym (inserted missing)
            ∙ (ap (λ i. lookup i (insert k v d)) (==→eq j k same) ∙ lookup-insert_self k v d)),
        ==→eq j k same,
      )
      | inr other ↦ inl (sym (lookup-insert_ne k j v d other) ∙ inserted missing)
    ]
  ]
    where
      inserted : lookup k d ≡ none → lookup j (insert k v d) ≡ some w
      inserted missing = sym (ap (lookup j) (set_default-new k v d missing)) ∙ h

  pub first_by-source :
      (k : K) (d : Dict K A) (xs : List A) {w : A}
      → lookup k (first_by d xs) ≡ some w
      → (lookup k d ≡ some w) ⊎ (Memᴰ w xs × (k ≡ key w))
  unfolding first_by
  first_by-source k d [] h = inl h
  first_by-source k d (x ∷ xs) {w} h = elim (first_by-source k (set_default (key x) x d) xs h) [
    | inr (m, p) ↦ inr (Memᴰ.tail m, p)
    | inl g ↦ elim (set_default-source (key x) k x d g) [
      | inl q ↦ inl q
      | inr (q, p) ↦ inr (Memᴰ.head q, p ∙ ap key (sym q))
    ]
  ]

  set_default-keeps :
      (k j : K) (v : A) (d : Dict K A) {w : A}
      → lookup j d ≡ some w
      → lookup j (set_default k v d) ≡ some w
  set_default-keeps k j v d {w} h = elim (Option-cases (lookup k d)) [
    | inr (u, found) ↦ ap (lookup j) (set_default-old k v d found) ∙ h
    | inl missing ↦
        ap (lookup j) (set_default-new k v d missing)
        ∙ (lookup-insert_ne k j v d (differ missing) ∙ h)
  ]
    where
      differ : lookup k d ≡ none → (j == k) ≡ false
      differ missing = elim (Bool-cases (j == k)) [
        | inr no_match ↦ no_match
        | inl same ↦
            absurd (none≢some (sym missing ∙ (ap (λ i. lookup i d) (sym (==→eq j k same)) ∙ h)))
      ]

  set_default-found :
      (k : K) (v : A) (d : Dict K A) → (w : A) × (lookup k (set_default k v d) ≡ some w)
  set_default-found k v d = elim (Option-cases (lookup k d)) [
    | inr (u, found) ↦ (u, ap (lookup k) (set_default-old k v d found) ∙ found)
    | inl missing ↦ (v, ap (lookup k) (set_default-new k v d missing) ∙ lookup-insert_self k v d)
  ]

  first_by-keeps :
      (k : K) (d : Dict K A) (xs : List A) {w : A}
      → lookup k d ≡ some w
      → lookup k (first_by d xs) ≡ some w
  unfolding first_by
  first_by-keeps k d [] h = h
  first_by-keeps k d (x ∷ xs) h =
      first_by-keeps k (set_default (key x) x d) xs (set_default-keeps (key x) k x d h)

  pub first_by-found :
      (d : Dict K A) (xs : List A) {x : A}
      → Memᴰ x xs
      → (w : A) × (lookup (key x) (first_by d xs) ≡ some w)
  unfolding first_by
  first_by-found d [] m = elim m [ ]
  first_by-found d (y ∷ ys) {x} (Memᴰ.head p) =
      let (w, h) = set_default-found (key y) y d in
      (
        w,
        ap (λ z. lookup (key z) (first_by (set_default (key y) y d) ys)) p
            ∙ first_by-keeps (key y) (set_default (key y) y d) ys h,
      )
  first_by-found d (y ∷ ys) (Memᴰ.tail m) = first_by-found (set_default (key y) y d) ys m
