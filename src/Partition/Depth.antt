-- ===== src/Partition/Depth.antt =====
-- cdp/partition.py: `_cut` returns.
use mathlib.Core.List.{Memᴰ}
use code_discovery_pyramid.Base.{
  ℕ, zero, suc, ◌+◌, ◌-◌, ◌≤◌, ◌<◌, ◌≡◌, refl, sym, ap, ◌∙◌, subst, inl, inr, Bool, true, false,
  not, Option, none, some, List, [], ◌∷◌, ◌++◌, arith, Bool-cases, is_empty, filterb, length,
  length-drop, length-append, Memᴰ-of_filterb, Memᴰ-perm, ==→eq, ◌==◌,
}
use code_discovery_pyramid.Base.Sorting.{sort_by, sort_by-perm}
use code_discovery_pyramid.Base.Dict.{
  Dict, keys, or_else, lookup_list, lookup_list-group, lookup_list-group-ne_nil,
}
use code_discovery_pyramid.Base.Text.{Text, text, text_eq, text_ord}
use code_discovery_pyramid.Base.Text.Paths.{slash, cut_first, length-cut_first}
use code_discovery_pyramid.Partition.{
  SourceFile, Scope, scope_of, rest_of, first_part, is_none, segment_of, is_here, directory_of,
  files_here, directories, fits, here_scopes, cut_names, cut,
}

-- The length of a path below a prefix.
abbrev pub depth_below : Text → SourceFile → ℕ
depth_below prefix f = length f.path - length prefix

shrink : (p q k b n : ℕ) → k + 1 + b ≡ p - q → p - q < suc n → p - (q + (k + 1)) < n
shrink p q k b n h less = omega arith

-- A file in a directory is deeper below the prefix than below the directory.
in_directory :
    (prefix : Text) (n : ℕ) (f : SourceFile) (s : Option Text)
    → segment_of prefix f ≡ s
    → not (is_here prefix f) ≡ true
    → depth_below prefix f < suc n
    → depth_below (prefix ++ (directory_of prefix f ++ text "/")) f < n
unfolding segment_of
in_directory prefix n f s h inside less = by_cut (cut_first slash (rest_of prefix f)) refl
  where
    by_cut :
        (o : Option (Text × Text))
        → cut_first slash (rest_of prefix f) ≡ o
        → depth_below (prefix ++ (directory_of prefix f ++ text "/")) f < n
    by_cut none e = absurd (clash _ (sym (ap (λ o. not (is_none (first_part o))) e) ∙ inside) refl)
      where
        clash : (b : Bool) → b ≡ true → b ≡ false → ⊥
        clash b p q = ground arith
    by_cut (some (a, b)) e =
        subst (λ d. length f.path - length (prefix ++ (d ++ text "/")) < n)
          (sym (ap (λ o. or_else [] (first_part o)) e))
          (subst (λ z. length f.path - z < n) (sym (lengths a))
            (shrink (length f.path) (length prefix) (length a) (length b) n
              (length-cut_first slash (rest_of prefix f) e ∙ length-drop (length prefix) f.path)
              less))
      where
        lengths : (a : Text) → length (prefix ++ (a ++ text "/")) ≡ length prefix + (length a + 1)
        lengths a =
            length-append prefix (a ++ text "/")
            ∙ ap (λ z. length prefix + z) (length-append a (text "/"))

module _ (max_files max_loc : ℕ) where
  cut_names-returns :
      (recurse : Text → Text → List SourceFile → Option (List Scope)) (node prefix : Text)
      (groups : Dict Text (List SourceFile)) (names : List Text)
      → ((k : Text)
          → Memᴰ k names
          → (ss : List Scope) × (recurse
                (node ++ (text "/" ++ k))
                (prefix ++ (k ++ text "/"))
                (lookup_list k groups)
              ≡ some ss))
      → (ss : List Scope) × (cut_names max_files max_loc recurse node prefix groups names ≡ some ss)
  unfolding cut_names
  cut_names-returns recurse node prefix groups [] h = ([], refl)
  cut_names-returns recurse node prefix groups (k ∷ names) h =
      let (a, p) = h k (Memᴰ.head refl) in
      let (b, q) = cut_names-returns recurse node prefix groups names (λ j m. h j (Memᴰ.tail m)) in
      (a ++ b, rw (p, q) refl)

  -- With fuel for the longest path below the prefix, the cut returns.
  pub cut-returns :
      (fuel : ℕ) (m node prefix : Text) (files : List SourceFile)
      → 1 ≤ fuel
      → ((f : SourceFile) → Memᴰ f files → depth_below prefix f < fuel)
      → (ss : List Scope) × (cut max_files max_loc fuel m node prefix files ≡ some ss)
  unfolding cut
  cut-returns zero m node prefix files positive deep = absurd (omega arith)
  cut-returns (suc fuel) m node prefix files positive deep = elim (Bool-cases (is_empty files)) [
    | inl empty ↦ ([], rw empty refl)
    | inr full ↦ elim (Bool-cases (fits max_files max_loc files)) [
      | inl small ↦ (scope_of node m files false ∷ [], rw (full, small) refl)
      | inr large ↦ elim (Bool-cases (is_empty (directories prefix files))) [
        | inl flat ↦ (scope_of node m files true ∷ [], rw (full, large, flat) refl)
        | inr split ↦
            let (ss, h) =
              cut_names-returns (cut max_files max_loc fuel m) node prefix
                (directories prefix files) (sort_by (λ k. k) (keys (directories prefix files)))
                (λ k q. below k q (λ n p fs a b. cut-returns fuel m n p fs a b)) in
            (
              here_scopes max_files max_loc node m (files_here prefix files) ++ ss,
              rw (full, large, split, h) refl,
            )
      ]
    ]
  ]
    where
      member :
          (k : Text) (f : SourceFile)
          → Memᴰ f (lookup_list k (directories prefix files))
          → depth_below (prefix ++ (k ++ text "/")) f < fuel
      member k f q =
          let (a, e) =
            Memᴰ-of_filterb (λ z. k == directory_of prefix z)
              (filterb (λ z. not (is_here prefix z)) files)
              (subst (Memᴰ f)
                (lookup_list-group (directory_of prefix) k
                  (filterb (λ z. not (is_here prefix z)) files))
                q) in
          let (b, inside) = Memᴰ-of_filterb (λ z. not (is_here prefix z)) files a in
          subst (λ d. depth_below (prefix ++ (d ++ text "/")) f < fuel)
            (sym (==→eq k (directory_of prefix f) e))
            (in_directory prefix fuel f (segment_of prefix f) refl inside (deep f b))

      below :
          (k : Text)
          → Memᴰ k (sort_by (λ j. j) (keys (directories prefix files)))
          → ((n p : Text) (fs : List SourceFile)
              → 1 ≤ fuel
              → ((f : SourceFile) → Memᴰ f fs → depth_below p f < fuel)
              → (ss : List Scope) × (cut max_files max_loc fuel m n p fs ≡ some ss))
          → (ss : List Scope) × (cut max_files max_loc fuel m
                (node ++ (text "/" ++ k))
                (prefix ++ (k ++ text "/"))
                (lookup_list k (directories prefix files))
              ≡ some ss)
      below k q again =
          let (f, found) =
            lookup_list-group-ne_nil (directory_of prefix)
              (filterb (λ z. not (is_here prefix z)) files)
              (Memᴰ-perm (sort_by-perm (λ j. j) (keys (directories prefix files))) q) in
          let less = member k f found in
          again (node ++ (text "/" ++ k)) (prefix ++ (k ++ text "/"))
            (lookup_list k (directories prefix files)) (omega arith) (member k)
