-- ===== src/Partition/Budget.antt =====
-- cdp/partition.py: what a scope of the partition weighs.
use mathlib.Core.List.{Memᴰ}
use code_discovery_pyramid.Base.{
  ℕ, zero, suc, ◌≡◌, refl, sym, ap, ◌∙◌, subst, ◌⊎◌, inl, inr, true, false, Option, some, List, [],
  ◌∷◌, ◌++◌, Bool-cases, is_empty, length, length-perm, length-map, sum_by, >>=-eq-some, some_inj,
  Memᴰ-append,
}
use code_discovery_pyramid.Base.Sorting.{sort_by, sort_by-perm}
use code_discovery_pyramid.Base.Text.{Text, text, text_eq, text_ord}
use code_discovery_pyramid.Base.Dict.{Dict, lookup_list}
use code_discovery_pyramid.Base.Index.{none≢some}
use code_discovery_pyramid.Partition.{
  SourceFile, Scope, paths, scope_of, files_here, directories, fits, here_scopes, cut_names,
  cut_directory, cut,
}
use code_discovery_pyramid.Partition.Packing.{within}

module _ (max_files max_loc : ℕ) where
  -- A scope counts its files, and is flagged, or within the budget, or has the files of one directory.
  pub record IsWeighed (s : Scope) : Type 0 where
    pub counted : s.file_count ≡ length s.files
    pub weighed :
        (s.oversized ≡ true)
        ⊎ (within max_files max_loc s.file_count s.loc ≡ true)
        ⊎ ((node : Text) × (s.node ≡ node ++ text "/(files)"))

  abbrev pub AllWeighed : List Scope → Type 0
  AllWeighed ss = (s : Scope) → Memᴰ s ss → IsWeighed s

  pub AllWeighed-append :
      (xs ys : List Scope) → AllWeighed xs → AllWeighed ys → AllWeighed (xs ++ ys)
  AllWeighed-append xs ys f g s m = by_side (Memᴰ-append xs ys m)
    where
      by_side : Memᴰ s xs ⊎ Memᴰ s ys → IsWeighed s
      by_side (inl k) = f s k
      by_side (inr k) = g s k

  pub AllWeighed-one : (s : Scope) → IsWeighed s → AllWeighed (s ∷ [])
  AllWeighed-one s w t (Memᴰ.head e) = subst IsWeighed (sym e) w
  AllWeighed-one s w t (Memᴰ.tail m) = elim m [ ]

  sum_paths : (files : List SourceFile) → length (sort_by (λ p. p) (paths files)) ≡ length files
  sum_paths files =
      length-perm (sort_by-perm (λ p. p) (paths files)) ∙ length-map (λ f. f.path) files

  fitting_scope :
      (node m : Text) (files : List SourceFile)
      → fits max_files max_loc files ≡ true
      → IsWeighed (scope_of node m files false)
  unfolding scope_of
  fitting_scope node m files h = record {
    counted = refl;
    weighed = inr (
        inl
          (ap (λ n. within max_files max_loc n (sum_by (λ f. f.loc) files)) (sum_paths files) ∙ h));
  }

  oversized_scope :
      (node m : Text) (files : List SourceFile) → IsWeighed (scope_of node m files true)
  unfolding scope_of
  oversized_scope node m files = record { counted = refl; weighed = inl refl }

  here_scopes-AllWeighed :
      (node m : Text) (here : List SourceFile)
      → AllWeighed (here_scopes max_files max_loc node m here)
  unfolding scope_of
  here_scopes-AllWeighed node m [] = λ s k. elim k [ ]
  here_scopes-AllWeighed node m (f ∷ fs) =
      AllWeighed-one _ (record { counted = refl; weighed = inr (inr (node, refl)) })

  cut_names-AllWeighed :
      (recurse : Text → Text → List SourceFile → Option (List Scope))
      → ((n p : Text) (fs : List SourceFile) (ss : List Scope)
          → recurse n p fs ≡ some ss
          → AllWeighed ss)
      → (node prefix : Text) (groups : Dict Text (List SourceFile)) (names : List Text)
        (scopes : List Scope)
      → cut_names max_files max_loc recurse node prefix groups names ≡ some scopes
      → AllWeighed scopes
  unfolding cut_names
  cut_names-AllWeighed recurse ih node prefix groups [] scopes h =
      subst AllWeighed (some_inj h) (λ s m. elim m [ ])
  cut_names-AllWeighed recurse ih node prefix groups (name ∷ names) scopes h =
      let (a, ha, ra) = >>=-eq-some _ _ h in
      let (b, hb, rb) = >>=-eq-some _ _ ra in
      subst AllWeighed (some_inj rb) (
        AllWeighed-append a b (ih _ _ (lookup_list name groups) a ha)
          (cut_names-AllWeighed recurse ih node prefix groups names b hb))

  -- What is cut is weighed.
  pub cut-AllWeighed :
      (fuel : ℕ) (m node prefix : Text) (files : List SourceFile) (scopes : List Scope)
      → cut max_files max_loc fuel m node prefix files ≡ some scopes
      → AllWeighed scopes
  unfolding cut
  cut-AllWeighed zero m node prefix files scopes h = absurd (none≢some h)
  cut-AllWeighed (suc fuel) m node prefix files scopes h = elim (Bool-cases (is_empty files)) [
    | inl empty ↦ subst AllWeighed (some_inj (rw empty at h)) (λ s m. elim m [ ])
    | inr full ↦ elim (Bool-cases (fits max_files max_loc files)) [
      | inl small ↦
          subst AllWeighed (some_inj (rw (full, small) at h))
            (AllWeighed-one _ (fitting_scope node m files small))
      | inr large ↦ elim (Bool-cases (is_empty (directories prefix files))) [
        | inl flat ↦
            subst AllWeighed (some_inj (rw (full, large, flat) at h))
              (AllWeighed-one _ (oversized_scope node m files))
        | inr deep ↦
            split (rw (full, large, deep) at h) (λ n p fs ss k. cut-AllWeighed fuel m n p fs ss k)
      ]
    ]
  ]
    where
      split :
          cut_directory max_files max_loc (cut max_files max_loc fuel m) node m prefix files
            ≡ some scopes
          → ((n p : Text) (fs : List SourceFile) (ss : List Scope)
              → cut max_files max_loc fuel m n p fs ≡ some ss
              → AllWeighed ss)
          → AllWeighed scopes
      split k ih =
          let (below, hb, r) = >>=-eq-some _ _ k in
          subst AllWeighed (some_inj r) (
            AllWeighed-append (here_scopes max_files max_loc node m (files_here prefix files)) below
              (here_scopes-AllWeighed node m (files_here prefix files))
              (cut_names-AllWeighed (cut max_files max_loc fuel m) ih node prefix _ _ below hb))
