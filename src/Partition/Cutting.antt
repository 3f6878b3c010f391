-- ===== src/Partition/Cutting.antt =====
-- cdp/partition.py: `_cut` moves no file.
use mathlib.Core.List.Permᴰ
use mathlib.Core.List.{Permᴰ, map-append}
use code_discovery_pyramid.Base.{
  ℕ, zero, suc, ◌≡◌, refl, sym, subst, inl, inr, Bool, true, false, not, Option, some, List, [],
  ◌∷◌, ◌++◌, arith, Bool-cases, is_empty, filterb, map-perm, >>=-eq-some, some_inj,
}
use code_discovery_pyramid.Base.Sorting.{sort_by, sort_by-perm}
use code_discovery_pyramid.Base.Groups.{
  concat_map, concat_map-append, append-perm, filterb-parts, group_into-parts,
}
use code_discovery_pyramid.Base.Index.{none≢some}
use code_discovery_pyramid.Base.Dict.{Dict, keys, lookup_list}
use code_discovery_pyramid.Base.Text.{Text, text, text_eq, text_ord}
use code_discovery_pyramid.Partition.{
  SourceFile, Scope, paths, scope_of, is_here, directory_of, files_here, directories, fits,
  here_scopes, cut_names, cut_directory, cut,
}
use code_discovery_pyramid.Partition.Packing.{all_files}

scope_of-files :
    (node m : Text) (files : List SourceFile) (o : Bool)
    → Permᴰ (all_files (scope_of node m files o ∷ [])) (paths files)
unfolding scope_of
scope_of-files node m files o =
    Permᴰ.trans (Permᴰ.append-nil _) (sort_by-perm (λ p. p) (paths files))

is_empty-nil {ℓ} : {A : Type ℓ} (xs : List A) → is_empty xs ≡ true → xs ≡ []
is_empty-nil [] h = refl
is_empty-nil (x ∷ xs) h = absurd (ground arith)

here_scopes-files :
    (max_files max_loc : ℕ) (node m : Text) (here : List SourceFile)
    → Permᴰ (all_files (here_scopes max_files max_loc node m here)) (paths here)
here_scopes-files max_files max_loc node m [] = Permᴰ.nil
here_scopes-files max_files max_loc node m (f ∷ fs) =
    scope_of-files (node ++ text "/(files)") m (f ∷ fs) false

abbrev in_directories : Text → List SourceFile → List SourceFile
in_directories prefix files =
    concat_map (λ k. lookup_list k (directories prefix files))
      (sort_by (λ k. k) (keys (directories prefix files)))

-- The files here and those of the directories below are all the files.
here_and_below :
    (prefix : Text) (files : List SourceFile)
    → Permᴰ (files_here prefix files ++ in_directories prefix files) files
here_and_below prefix files =
    Permᴰ.trans
      (Permᴰ.append_left (files_here prefix files)
        (group_into-parts (directory_of prefix) (filterb (λ f. not (is_here prefix f)) files)))
      (filterb-parts (is_here prefix) files)

cut_names-files :
    (max_files max_loc : ℕ) (recurse : Text → Text → List SourceFile → Option (List Scope))
    → ((n p : Text) (fs : List SourceFile) (ss : List Scope)
        → recurse n p fs ≡ some ss
        → Permᴰ (all_files ss) (paths fs))
    → (node prefix : Text) (groups : Dict Text (List SourceFile)) (names : List Text)
      (scopes : List Scope)
    → cut_names max_files max_loc recurse node prefix groups names ≡ some scopes
    → Permᴰ (all_files scopes) (paths (concat_map (λ k. lookup_list k groups) names))
unfolding cut_names
cut_names-files max_files max_loc recurse ih node prefix groups [] scopes h =
    subst (λ z. Permᴰ (all_files z) []) (some_inj h) Permᴰ.nil
cut_names-files max_files max_loc recurse ih node prefix groups (name ∷ names) scopes h =
    let (a, ha, ra) = >>=-eq-some _ _ h in
    let (b, hb, rb) = >>=-eq-some _ _ ra in
    subst
      (λ z.
        Permᴰ (all_files z)
          (paths (lookup_list name groups ++ concat_map (λ k. lookup_list k groups) names)))
      (some_inj rb)
      (subst
        (λ z.
          Permᴰ z (paths (lookup_list name groups ++ concat_map (λ k. lookup_list k groups) names)))
        (sym (concat_map-append (λ s. s.files) a b))
        (subst (Permᴰ (all_files a ++ all_files b))
          (sym (
            map-append (λ f. f.path) (lookup_list name groups)
              (concat_map (λ k. lookup_list k groups) names)))
          (append-perm (ih _ _ (lookup_list name groups) a ha)
            (cut_names-files max_files max_loc recurse ih node prefix groups names b hb))))

module _ (max_files max_loc : ℕ) where
  -- Where a scope is cut, its files are those that went in.
  pub cut-files :
      (fuel : ℕ) (m node prefix : Text) (files : List SourceFile) (scopes : List Scope)
      → cut max_files max_loc fuel m node prefix files ≡ some scopes
      → Permᴰ (all_files scopes) (paths files)
  unfolding cut
  cut-files zero m node prefix files scopes h = absurd (none≢some h)
  cut-files (suc fuel) m node prefix files scopes h = elim (Bool-cases (is_empty files)) [
    | inl empty ↦
        subst (λ z. Permᴰ (all_files z) (paths files)) (some_inj (rw empty at h))
          (subst (λ z. Permᴰ [] (paths z)) (sym (is_empty-nil files empty)) Permᴰ.nil)
    | inr full ↦ elim (Bool-cases (fits max_files max_loc files)) [
      | inl small ↦
          subst (λ z. Permᴰ (all_files z) (paths files)) (some_inj (rw (full, small) at h))
            (scope_of-files node m files false)
      | inr large ↦ elim (Bool-cases (is_empty (directories prefix files))) [
        | inl flat ↦
            subst (λ z. Permᴰ (all_files z) (paths files)) (some_inj (rw (full, large, flat) at h))
              (scope_of-files node m files true)
        | inr deep ↦
            split (rw (full, large, deep) at h) (λ n p fs ss k. cut-files fuel m n p fs ss k)
      ]
    ]
  ]
    where
      split :
          cut_directory max_files max_loc (cut max_files max_loc fuel m) node m prefix files
            ≡ some scopes
          → ((n p : Text) (fs : List SourceFile) (ss : List Scope)
              → cut max_files max_loc fuel m n p fs ≡ some ss
              → Permᴰ (all_files ss) (paths fs))
          → Permᴰ (all_files scopes) (paths files)
      split k ih =
          let (below, hb, r) = >>=-eq-some _ _ k in
          subst (λ z. Permᴰ (all_files z) (paths files)) (some_inj r)
            (subst (λ z. Permᴰ z (paths files))
              (sym (
                concat_map-append (λ s. s.files)
                  (here_scopes max_files max_loc node m (files_here prefix files)) below))
              (Permᴰ.trans
                (append-perm (here_scopes-files max_files max_loc node m (files_here prefix files))
                  (cut_names-files max_files max_loc (cut max_files max_loc fuel m) ih node prefix _
                    _ below hb))
                (subst (λ z. Permᴰ z (paths files))
                  (map-append (λ f. f.path) (files_here prefix files) (in_directories prefix files))
                  (map-perm (λ f. f.path) (here_and_below prefix files)))))
