-- ===== src/Partition/Bins.antt =====
-- cdp/partition.py: the bins that `_pack_siblings` fills keep to the budget.
use mathlib.Core.List.Memᴰ
use mathlib.Core.List.{Memᴰ}
use code_discovery_pyramid.Base.{
  ℕ, ◌+◌, ◌*◌, ◌≡◌, refl, sym, ap₂, ◌∙◌, subst, inl, inr, Bool, true, not, ◌&&◌, ◌==◌, List, [],
  ◌∷◌, ◌++◌, map, arith, Bool-cases, leb, ltb, filterb, length, length-perm, sum_by, sum_by-append,
  Memᴰ-of_filterb, Memᴰ-perm, Down, down_ord, nat_ord, pair_ord,
}
use code_discovery_pyramid.Base.Sorting.{sort_by, sort_by-perm}
use code_discovery_pyramid.Base.Groups.{concat_map, concat_map-perm}
use code_discovery_pyramid.Base.Text.{Text, text_eq, text_ord}
use code_discovery_pyramid.Base.Dict.{lookup_list-group}
use code_discovery_pyramid.Partition.{Scope}
use code_discovery_pyramid.Partition.Packing.{
  all_files, within, merge_scopes, is_small, has_room, place, place_all, close_bin, by_size,
  pack_module, pack_siblings,
}
use code_discovery_pyramid.Partition.Budget.{
  IsWeighed, AllWeighed, AllWeighed-append, AllWeighed-one,
}
use code_discovery_pyramid.Partition.Weighing.{sum_by-perm, counts}

module _ (max_files max_loc : ℕ) where
  -- A bin of weighed scopes that fits the budget.
  record IsBin (slot : List Scope) : Type 0 where
    pub members : AllWeighed max_files max_loc slot
    pub fits :
        within max_files max_loc (sum_by (λ s. s.file_count) slot) (sum_by (λ s. s.loc) slot) ≡ true

  abbrev AllBins : List (List Scope) → Type 0
  AllBins bins = (slot : List Scope) → Memᴰ slot bins → IsBin slot

  fits_alone :
      (f l : ℕ) (o : Bool)
      → (not o && leb (f * 2) max_files && leb (l * 2) max_loc) ≡ true
      → within max_files max_loc (f + 0) (l + 0) ≡ true
  fits_alone f l o h = ground arith

  alone-IsBin :
      (s : Scope)
      → IsWeighed max_files max_loc s
      → is_small max_files max_loc s ≡ true
      → IsBin (s ∷ [])
  alone-IsBin s w h = record {
    members = AllWeighed-one max_files max_loc s w;
    fits = fits_alone s.file_count s.loc s.oversized h;
  }

  joined :
      (s : Scope) (slot : List Scope)
      → IsWeighed max_files max_loc s
      → IsBin slot
      → has_room max_files max_loc s slot ≡ true
      → IsBin (slot ++ s ∷ [])
  joined s slot w b room = record {
    members =
        AllWeighed-append max_files max_loc slot (s ∷ []) b.members
          (AllWeighed-one max_files max_loc s w);
    fits = ap₂ (within max_files max_loc) (total (λ s. s.file_count)) (total (λ s. s.loc)) ∙ room;
  }
    where
      total : (f : Scope → ℕ) → sum_by f (slot ++ s ∷ []) ≡ sum_by f slot + f s
      total f = let h = sum_by-append f slot (s ∷ []) in omega arith

  place-AllBins :
      (s : Scope) (bins : List (List Scope))
      → IsWeighed max_files max_loc s
      → is_small max_files max_loc s ≡ true
      → AllBins bins
      → AllBins (place max_files max_loc s bins)
  unfolding place
  place-AllBins s [] w small b slot m = only m
    where
      only : Memᴰ slot ((s ∷ []) ∷ []) → IsBin slot
      only (Memᴰ.head e) = subst IsBin (sym e) (alone-IsBin s w small)
      only (Memᴰ.tail k) = elim k [ ]
  place-AllBins s (first ∷ bins) w small b slot m =
      elim (Bool-cases (has_room max_files max_loc s first)) [
        | inl room ↦ changed room (rw room at m)
        | inr full ↦
            kept (rw full at m)
              (λ k. place-AllBins s bins w small (λ t q. b t (Memᴰ.tail q)) slot k)
      ]
    where
      changed :
          has_room max_files max_loc s first ≡ true
          → Memᴰ slot ((first ++ s ∷ []) ∷ bins)
          → IsBin slot
      changed room (Memᴰ.head e) =
          subst IsBin (sym e) (joined s first w (b first (Memᴰ.head refl)) room)
      changed room (Memᴰ.tail k) = b slot (Memᴰ.tail k)

      kept :
          Memᴰ slot (first ∷ place max_files max_loc s bins)
          → (Memᴰ slot (place max_files max_loc s bins) → IsBin slot)
          → IsBin slot
      kept (Memᴰ.head e) again = b slot (Memᴰ.head e)
      kept (Memᴰ.tail k) again = again k

  place_all-AllBins :
      (bins : List (List Scope)) (ss : List Scope)
      → ((s : Scope)
          → Memᴰ s ss
          → IsWeighed max_files max_loc s × (is_small max_files max_loc s ≡ true))
      → AllBins bins
      → AllBins (place_all max_files max_loc bins ss)
  unfolding place_all
  place_all-AllBins bins [] w b = b
  place_all-AllBins bins (s ∷ ss) w b =
      let (ws, small) = w s (Memᴰ.head refl) in
      place_all-AllBins (place max_files max_loc s bins) ss (λ t m. w t (Memᴰ.tail m))
        (place-AllBins s bins ws small b)

  merge_scopes-IsWeighed :
      (slot : List Scope) → IsBin slot → IsWeighed max_files max_loc (merge_scopes slot)
  unfolding merge_scopes
  merge_scopes-IsWeighed slot b = record {
    counted = sym (length-perm (sort_by-perm (λ p. p) (all_files (sort_by (λ x. x.node) slot))));
    weighed = inr (
        inl (
          ap₂ (within max_files max_loc)
            (length-perm (concat_map-perm (λ x. x.files) (sort_by-perm (λ x. x.node) slot))
              ∙ sym (counts max_files max_loc slot b.members))
            (sum_by-perm (λ s. s.loc) (sort_by-perm (λ x. x.node) slot))
          ∙ b.fits));
  }

  close_bin-IsWeighed :
      (slot : List Scope)
      → IsBin slot
      → IsWeighed max_files max_loc (close_bin max_files max_loc slot)
  close_bin-IsWeighed [] b = merge_scopes-IsWeighed [] b
  close_bin-IsWeighed (s ∷ []) b = b.members s (Memᴰ.head refl)
  close_bin-IsWeighed (s ∷ t ∷ ss) b = merge_scopes-IsWeighed (s ∷ t ∷ ss) b

  pack_module-AllWeighed :
      (members : List Scope)
      → AllWeighed max_files max_loc members
      → AllWeighed max_files max_loc (pack_module max_files max_loc members)
  unfolding pack_module
  pack_module-AllWeighed members w =
      elim (Bool-cases (ltb (length (filterb (is_small max_files max_loc) members)) 2)) [
        | inl few ↦ rw few w
        | inr many ↦ rw many (
            AllWeighed-append max_files max_loc _ _ (λ s m. w s (Memᴰ-of_filterb _ members m).0)
              bins)
      ]
    where
      small_members :
          (s : Scope)
          → Memᴰ s (by_size max_files max_loc (filterb (is_small max_files max_loc) members))
          → IsWeighed max_files max_loc s × (is_small max_files max_loc s ≡ true)
      small_members s m =
          let (a, h) =
            Memᴰ-of_filterb (is_small max_files max_loc) members
              (Memᴰ-perm (sort_by-perm {K = Down ℕ × (Down ℕ × Text)} _ _) m) in
          (w s a, h)

      bins : AllWeighed max_files max_loc (
          map (close_bin max_files max_loc) (
            place_all max_files max_loc []
              (by_size max_files max_loc (filterb (is_small max_files max_loc) members))))
      bins s m =
          let (slot, a, e) = Memᴰ.of_map (close_bin max_files max_loc) _ m in
          subst (IsWeighed max_files max_loc) e (
            close_bin-IsWeighed slot
              (place_all-AllBins [] _ small_members (λ b k. elim k [ ]) slot a))

  concat_map-AllWeighed :
      (f : Text → List Scope) (ks : List Text)
      → ((k : Text) → AllWeighed max_files max_loc (f k))
      → AllWeighed max_files max_loc (concat_map f ks)
  concat_map-AllWeighed f [] h = λ s m. elim m [ ]
  concat_map-AllWeighed f (k ∷ ks) h =
      AllWeighed-append max_files max_loc (f k) (concat_map f ks) (h k)
        (concat_map-AllWeighed f ks h)

  -- Packing keeps the budget.
  pub pack_siblings-AllWeighed :
      (scopes : List Scope)
      → AllWeighed max_files max_loc scopes
      → AllWeighed max_files max_loc (pack_siblings max_files max_loc scopes)
  unfolding pack_siblings
  pack_siblings-AllWeighed scopes w = concat_map-AllWeighed _ _ (λ m.
      pack_module-AllWeighed _ (λ s q.
        w s
          (Memᴰ-of_filterb (λ t. m == t.module_name) scopes
            (subst (Memᴰ s) (lookup_list-group (λ s. s.module_name) m scopes) q)).0))
