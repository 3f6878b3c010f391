-- ===== src/Base/Update.antt =====
-- A change of the value of one key: SQL's `UPDATE … WHERE key=?`, where the key is the primary one.
use mathlib.Core.Option
use mathlib.Core.Option.{Option, none, some}
use mathlib.Core.List.{[], ◌∷◌}
use mathlib.Core.Path.{◌≡◌, refl, ap}
use mathlib.Core.Logic.{inl, inr}
use mathlib.Core.Bool.{Bool, false}
use native.Mathlib.Omega.{arith}
use code_discovery_pyramid.Base.Tests.{Eq, ◌==◌, if◌then◌else◌, Bool-cases, ==_refl}
use code_discovery_pyramid.Base.Dict.{Dict, keys, lookup}

abbrev pub change {ℓ} : {A : Type ℓ} → (A → A) → Bool → Option A → Option A
change f b o = if b then Option.map f o else o

module _ {ℓ κ} {K : Type ℓ} {V : Type κ} ⦃e : Eq K⦄ where
  unfoldable pub update : (V → V) → K → Dict K V → Dict K V
  update f k [] = []
  update f k ((j, v) ∷ d) = if k == j then (j, f v) ∷ d else (j, v) ∷ update f k d

  pub lookup-update :
      (f : V → V) (k j : K) (d : Dict K V)
      → lookup j (update f k d) ≡ change f (j == k) (lookup j d)
  unfolding update lookup
  lookup-update f k j [] = elim (Bool-cases (j == k)) [ inl h ↦ rw h refl | inr h ↦ rw h refl ]
  lookup-update f k j ((i, v) ∷ d) =
      ground (arith, e.beq_iff j k, e.beq_iff k i, e.beq_iff j i, lookup-update f k j d)

  pub lookup-update_self :
      (f : V → V) (k : K) (d : Dict K V) → lookup k (update f k d) ≡ Option.map f (lookup k d)
  lookup-update_self f k d = rw (lookup-update f k k d, ==_refl k) refl

  pub lookup-update_ne :
      (f : V → V) (k j : K) (d : Dict K V) → (j == k) ≡ false → lookup j (update f k d) ≡ lookup j d
  lookup-update_ne f k j d h = rw (lookup-update f k j d, h) refl

  pub keys-update : (f : V → V) (k : K) (d : Dict K V) → keys (update f k d) ≡ keys d
  unfolding update
  keys-update f k [] = refl
  keys-update f k ((j, v) ∷ d) = elim (Bool-cases (k == j)) [
    | inl h ↦ rw h refl
    | inr h ↦ rw h (ap (◌∷◌ j) (keys-update f k d))
  ]
