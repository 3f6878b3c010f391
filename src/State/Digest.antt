-- ===== src/State/Digest.antt =====
-- cdp/state.py: `fold_hash`, and the reorderings that `check_order_independence` tries.
use mathlib.Core.List.Permᴰ
use mathlib.Core.List.{Memᴰ, Permᴰ, reverse}
use code_discovery_pyramid.Base.{
  ℕ, ◌-◌, ◌/◌, ◌≡◌, sym, ap, subst, ◌⊎◌, inl, inr, Bool-cases, Memᴰ-append, ◌&&◌, Option, none,
  some, List, [], ◌∷◌, ◌++◌, map, map-perm, ltb, if◌then◌else◌, length, take, drop,
  take-append-drop,
}
use code_discovery_pyramid.Base.Sorting.{sort_by, sort_by-perm, sort_by-perm_eq}
use code_discovery_pyramid.Base.Groups.{concat_map}
use code_discovery_pyramid.Base.Text.{Text, text_ord}
use code_discovery_pyramid.Claims.{Patch}

abbrev pub optional_part : Option Text → List Text
optional_part none = []
optional_part (some part) = part ∷ []

-- The digests of a patch and of a list of digests are parameters, and so are those of the symbols,
-- of the nodes of the scopes and of the extraction, if there is one.
unfoldable pub fold_hash :
    (Patch → Text) → (List Text → Text) → Text → Text → Option Text → List Patch → Text
fold_hash stable_hash hash_parts symbols nodes extraction patches =
    hash_parts
      (sort_by (λ h. h) (map stable_hash patches) ++ symbols ∷ nodes ∷ optional_part extraction)

abbrev pub rotation : List Patch → ℕ → List (List Patch)
rotation patches shift =
    if ltb 0 shift && ltb shift (length patches)
    then (drop shift patches ++ take shift patches) ∷ []
    else []

-- `_permutations`
unfoldable pub permutations : (Patch → Text) → List Patch → List (List Patch)
permutations stable_hash patches =
    let n = length patches in
    reverse patches
    ∷ (concat_map (rotation patches) (1 ∷ (n / 2) ∷ (n - 1) ∷ [])
        ++ sort_by stable_hash patches ∷ [])

fold_hash-perm :
    (stable_hash : Patch → Text) (hash_parts : List Text → Text) (symbols nodes : Text)
    (extraction : Option Text) {xs ys : List Patch}
    → Permᴰ xs ys
    → fold_hash stable_hash hash_parts symbols nodes extraction xs
      ≡ fold_hash stable_hash hash_parts symbols nodes extraction ys
unfolding fold_hash
fold_hash-perm stable_hash hash_parts symbols nodes extraction p =
    ap (λ l. hash_parts (l ++ symbols ∷ nodes ∷ optional_part extraction))
      (sort_by-perm_eq (λ (h : Text). h) (map-perm stable_hash p) (λ x y a b e. e))

rotation-perm :
    (xs : List Patch) (shift : ℕ) (ys : List Patch) → Memᴰ ys (rotation xs shift) → Permᴰ ys xs
rotation-perm xs shift ys m = elim (Bool-cases (ltb 0 shift && ltb shift (length xs))) [
  | inl h ↦ turned (rw h at m)
  | inr h ↦
      elim (subst (λ b. Memᴰ ys (if b then (drop shift xs ++ take shift xs) ∷ [] else [])) h m) [ ]
]
  where
    turned : Memᴰ ys ((drop shift xs ++ take shift xs) ∷ []) → Permᴰ ys xs
    turned (Memᴰ.head e) =
        subst (λ z. Permᴰ z xs) (sym e)
          (subst (Permᴰ (drop shift xs ++ take shift xs)) (take-append-drop shift xs)
            (Permᴰ.append_comm (drop shift xs) (take shift xs)))
    turned (Memᴰ.tail k) = elim k [ ]

rotations-perm :
    (xs : List Patch) (shifts : List ℕ) (ys : List Patch)
    → Memᴰ ys (concat_map (rotation xs) shifts)
    → Permᴰ ys xs
rotations-perm xs [] ys m = elim m [ ]
rotations-perm xs (shift ∷ shifts) ys m =
    by_side (Memᴰ-append (rotation xs shift) (concat_map (rotation xs) shifts) m)
      (λ k. rotations-perm xs shifts ys k)
  where
    by_side :
        Memᴰ ys (rotation xs shift) ⊎ Memᴰ ys (concat_map (rotation xs) shifts)
        → (Memᴰ ys (concat_map (rotation xs) shifts) → Permᴰ ys xs)
        → Permᴰ ys xs
    by_side (inl k) later = rotation-perm xs shift ys k
    by_side (inr k) later = later k

permutations-perm :
    (stable_hash : Patch → Text) (xs ys : List Patch)
    → Memᴰ ys (permutations stable_hash xs)
    → Permᴰ ys xs
unfolding permutations
permutations-perm stable_hash xs ys (Memᴰ.head e) =
    subst (λ z. Permᴰ z xs) (sym e) (Permᴰ.reverse xs)
permutations-perm stable_hash xs ys (Memᴰ.tail m) = by_side (
    Memᴰ-append (concat_map (rotation xs) (1 ∷ (length xs / 2) ∷ (length xs - 1) ∷ []))
      (sort_by stable_hash xs ∷ []) m)
  where
    by_side :
        Memᴰ ys (concat_map (rotation xs) (1 ∷ (length xs / 2) ∷ (length xs - 1) ∷ []))
          ⊎ Memᴰ ys (sort_by stable_hash xs ∷ [])
        → Permᴰ ys xs
    by_side (inl k) = rotations-perm xs (1 ∷ (length xs / 2) ∷ (length xs - 1) ∷ []) ys k
    by_side (inr (Memᴰ.head e)) = subst (λ z. Permᴰ z xs) (sym e) (sort_by-perm stable_hash xs)
    by_side (inr (Memᴰ.tail k)) = elim k [ ]

-- Each reordering that is tried on a log holds the patches of the log, and the digest of the fold's
-- inputs is the same for it.
pub permutations-fold_hash :
    (stable_hash : Patch → Text) (hash_parts : List Text → Text) (symbols nodes : Text)
    (extraction : Option Text) (xs ys : List Patch)
    → Memᴰ ys (permutations stable_hash xs)
    → Permᴰ ys xs
      × (fold_hash stable_hash hash_parts symbols nodes extraction ys
          ≡ fold_hash stable_hash hash_parts symbols nodes extraction xs)
permutations-fold_hash stable_hash hash_parts symbols nodes extraction xs ys m =
    let p = permutations-perm stable_hash xs ys m in
    (p, fold_hash-perm stable_hash hash_parts symbols nodes extraction p)
