-- ===== src/Partition/Assertion.antt =====
-- cdp/partition.py: `assert_partition` accepts exactly the partitions.
use mathlib.Core.List.{Memᴰ}
use code_discovery_pyramid.Base.{
  ◌≡◌, refl, sym, ap, ◌∙◌, subst, inl, inr, Bool, true, false, not, Option, none, some, List, [],
  ◌∷◌, arith, Bool-cases, filterb-false, Memᴰ-filterb, contains, contains→Memᴰ, Memᴰ→contains,
}
use code_discovery_pyramid.Base.Sorting.{IsNodup}
use code_discovery_pyramid.Base.Index.{none≢some}
use code_discovery_pyramid.Base.Text.{Text, text_eq}
use code_discovery_pyramid.Partition.{SourceFile, Scope, paths}
use code_discovery_pyramid.Partition.Packing.{all_files}
use code_discovery_pyramid.Partition.Division.{complaint, beyond, first_repeated, assert_partition}

-- A partition: every tracked file in one scope once, and no other file.
pub record IsPartition (inventory : List SourceFile) (scopes : List Scope) : Type 0 where
  pub once : IsNodup (all_files scopes)
  pub all : (p : Text) → Memᴰ p (paths inventory) → Memᴰ p (all_files scopes)
  pub only : (p : Text) → Memᴰ p (all_files scopes) → Memᴰ p (paths inventory)

pub first_repeated-none :
    (seen ps : List Text)
    → first_repeated seen ps ≡ none
    → IsNodup ps × ((p : Text) → Memᴰ p ps → Memᴰ p seen → ⊥)
unfolding first_repeated
first_repeated-none seen [] h = (tt, λ p m k. elim m [ ])
first_repeated-none seen (p ∷ ps) h = elim (Bool-cases (contains p seen)) [
  | inl old ↦ absurd (none≢some (sym (rw old at h)))
  | inr new ↦ fresh new (first_repeated-none (p ∷ seen) ps (rw new at h))
]
  where
    fresh :
        contains p seen ≡ false
        → IsNodup ps × ((q : Text) → Memᴰ q ps → Memᴰ q (p ∷ seen) → ⊥)
        → IsNodup (p ∷ ps) × ((q : Text) → Memᴰ q (p ∷ ps) → Memᴰ q seen → ⊥)
    fresh new (n, apart) = (((λ y m e. apart y m (Memᴰ.head (sym e))), n), λ q m k. before q m k)
      where
        before : (q : Text) → Memᴰ q (p ∷ ps) → Memᴰ q seen → ⊥
        before q (Memᴰ.head e) k = clash _ (Memᴰ→contains (subst (λ z. Memᴰ z seen) e k)) new
          where
            clash : (b : Bool) → b ≡ true → b ≡ false → ⊥
            clash b g h = ground arith
        before q (Memᴰ.tail m) k = apart q m (Memᴰ.tail k)

first_repeated-nodup :
    (seen ps : List Text)
    → IsNodup ps
    → ((p : Text) → Memᴰ p ps → Memᴰ p seen → ⊥)
    → first_repeated seen ps ≡ none
unfolding first_repeated
first_repeated-nodup seen [] n apart = refl
first_repeated-nodup seen (p ∷ ps) n apart = elim (Bool-cases (contains p seen)) [
  | inl old ↦ absurd (apart p (Memᴰ.head refl) (contains→Memᴰ p seen old))
  | inr new ↦ rw new (first_repeated-nodup (p ∷ seen) ps n.1 (λ q m k. before q m k))
]
  where
    before : (q : Text) → Memᴰ q ps → Memᴰ q (p ∷ seen) → ⊥
    before q m (Memᴰ.head e) = n.0 q m (sym e)
    before q m (Memᴰ.tail k) = apart q (Memᴰ.tail m) k

-- Nothing is beyond a list exactly if its members are in it.
beyond-nil : (xs ys : List Text) → beyond xs ys ≡ [] → (p : Text) → Memᴰ p xs → Memᴰ p ys
beyond-nil xs ys h p m = elim (Bool-cases (contains p ys)) [
  | inl k ↦ contains→Memᴰ p ys k
  | inr k ↦ elim (subst (Memᴰ p) h (Memᴰ-filterb (λ q. not (contains q ys)) m (ap not k))) [ ]
]

beyond-none : (xs ys : List Text) → ((p : Text) → Memᴰ p xs → Memᴰ p ys) → beyond xs ys ≡ []
beyond-none [] ys h = refl
beyond-none (x ∷ xs) ys h =
    filterb-false (λ p. not (contains p ys)) x xs (ap not (Memᴰ→contains (h x (Memᴰ.head refl))))
    ∙ beyond-none xs ys (λ p m. h p (Memᴰ.tail m))

complaint-none :
    (twice : Option Text) (missing extra : List Text)
    → complaint twice missing extra ≡ none
    → (twice ≡ none) × (missing ≡ []) × (extra ≡ [])
complaint-none (some p) missing extra h = absurd (none≢some (sym h))
complaint-none none (p ∷ missing) extra h = absurd (none≢some (sym h))
complaint-none none [] (p ∷ extra) h = absurd (none≢some (sym h))
complaint-none none [] [] h = (refl, refl, refl)

-- The partition is accepted exactly if no file stands in the scopes twice and the files of the
-- scopes are the tracked files.
pub assert_partition-IsPartition :
    (inventory : List SourceFile) (scopes : List Scope)
    → (assert_partition inventory scopes ≡ none → IsPartition inventory scopes)
      × (IsPartition inventory scopes → assert_partition inventory scopes ≡ none)
unfolding assert_partition
assert_partition-IsPartition inventory scopes = (accepted, accepts)
  where
    accepted : assert_partition inventory scopes ≡ none → IsPartition inventory scopes
    accepted h =
        let (twice, missing, extra) = complaint-none _ _ _ h in
        record {
          once = (first_repeated-none [] (all_files scopes) twice).0;
          all = beyond-nil (paths inventory) (all_files scopes) missing;
          only = beyond-nil (all_files scopes) (paths inventory) extra;
        }

    accepts : IsPartition inventory scopes → assert_partition inventory scopes ≡ none
    accepts h =
        rw
          (
            first_repeated-nodup [] (all_files scopes) h.once (λ p m k. elim k [ ]),
            beyond-none (paths inventory) (all_files scopes) h.all,
            beyond-none (all_files scopes) (paths inventory) h.only,
          )
          refl
