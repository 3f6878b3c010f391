-- ===== src/Base/Order.antt =====
-- A decidable total order, as the program's `<=` on the keys that it sorts by.
use Prim.Native.Nat.{ℕ}
use mathlib.Core.Path.{◌≡◌, ap}
use mathlib.Core.Logic.{inl, inr}
use mathlib.Core.Bool.{Bool, true, false, ◌&&◌, ◌||◌, not}
use native.Mathlib.Omega.{arith}
use code_discovery_pyramid.Base.Tests.{leb, Bool-cases}

pub record Ord {ℓ} (A : Type ℓ) : Type ℓ where
  pub le : A → A → Bool
  pub total : (a b : A) → le a b ≡ false → le b a ≡ true
  pub antisymm : (a b : A) → le a b ≡ true → le b a ≡ true → a ≡ b
  pub trans : (a b c : A) → le a b ≡ true → le b c ≡ true → le a c ≡ true

infix 50 ◌≼◌
abbrev pub ◌≼◌ {ℓ} : {A : Type ℓ} ⦃o : Ord A⦄ → A → A → Bool
◌≼◌ ⦃o⦄ = o.le

pub ≼_refl {ℓ} : {A : Type ℓ} ⦃o : Ord A⦄ (a : A) → (a ≼ a) ≡ true
≼_refl ⦃o⦄ a = elim (Bool-cases (a ≼ a)) [ inl p ↦ p | inr q ↦ o.total a a q ]

pub nat_total : (a b : ℕ) → leb a b ≡ false → leb b a ≡ true
nat_total a b h = ground arith

pub nat_antisymm : (a b : ℕ) → leb a b ≡ true → leb b a ≡ true → a ≡ b
nat_antisymm a b h k = ground arith

pub nat_trans : (a b c : ℕ) → leb a b ≡ true → leb b c ≡ true → leb a c ≡ true
nat_trans a b c h k = ground arith

instance abbrev pub nat_ord : Ord ℕ
nat_ord = record { le = leb; total = nat_total; antisymm = nat_antisymm; trans = nat_trans }

module _ {ℓ κ} {A : Type ℓ} {B : Type κ} ⦃o : Ord A⦄ ⦃p : Ord B⦄ where
  -- Python compares tuples component by component, from the left.
  abbrev pub pair_le : A × B → A × B → Bool
  pair_le (a, b) (c, d) = (a ≼ c) && (not (c ≼ a) || (b ≼ d))

  pub pair_total : (x y : A × B) → pair_le x y ≡ false → pair_le y x ≡ true
  pair_total (a, b) (c, d) h = ground (arith, o.total a c, o.total c a, p.total b d)

  pub pair_antisymm : (x y : A × B) → pair_le x y ≡ true → pair_le y x ≡ true → x ≡ y
  pair_antisymm (a, b) (c, d) h k = ground (arith, o.antisymm a c, p.antisymm b d)

  pub pair_trans : (x y z : A × B) → pair_le x y ≡ true → pair_le y z ≡ true → pair_le x z ≡ true
  pair_trans (a, b) (c, d) (e, f) h k =
      ground (arith, o.trans a c e, o.trans e a c, o.trans c e a, p.trans b d f)

instance abbrev pub pair_ord {ℓ κ} : {A : Type ℓ} {B : Type κ} ⦃o : Ord A⦄ ⦃p : Ord B⦄ → Ord (A × B)
pair_ord = record { le = pair_le; total = pair_total; antisymm = pair_antisymm; trans = pair_trans }

-- Descending order: `key=lambda x: -x`.
pub record Down {ℓ} (A : Type ℓ) : Type ℓ where
  pub get : A

abbrev pub down {ℓ} : {A : Type ℓ} → A → Down A
down a = record { get = a }

module _ {ℓ} {A : Type ℓ} ⦃o : Ord A⦄ where
  abbrev pub down_le : Down A → Down A → Bool
  down_le x y = y.get ≼ x.get

  pub down_total : (x y : Down A) → down_le x y ≡ false → down_le y x ≡ true
  down_total x y h = o.total y.get x.get h

  pub down_antisymm : (x y : Down A) → down_le x y ≡ true → down_le y x ≡ true → x ≡ y
  down_antisymm x y h k = ap (λ (a : A). down a) (o.antisymm x.get y.get k h)

  pub down_trans : (x y z : Down A) → down_le x y ≡ true → down_le y z ≡ true → down_le x z ≡ true
  down_trans x y z h k = o.trans z.get y.get x.get k h

instance abbrev pub down_ord {ℓ} : {A : Type ℓ} ⦃o : Ord A⦄ → Ord (Down A)
down_ord = record { le = down_le; total = down_total; antisymm = down_antisymm; trans = down_trans }
