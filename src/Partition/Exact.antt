-- ===== src/Partition/Exact.antt =====
-- cdp/partition.py: `partition` returns every file of the inventory once.
use mathlib.Core.List.Permᴰ
use mathlib.Core.List.{Memᴰ, Permᴰ, map-append}
use code_discovery_pyramid.Base.{
  ℕ, suc, ◌≤◌, max, ◌≡◌, refl, sym, ap, ◌∙◌, subst, some, List, [], ◌∷◌, ◌++◌, map, map-perm, arith,
  length, some_inj, Memᴰ-perm,
}
use code_discovery_pyramid.Base.Sorting.{sort_by, sort_by-perm, IsNodup, IsNodup-perm}
use code_discovery_pyramid.Base.Groups.{
  concat_map, concat_map-append, concat_map-perm, concat_map-cong, append-perm, group_into-parts,
}
use code_discovery_pyramid.Base.Dict.{Dict, keys, lookup_list, group_into}
use code_discovery_pyramid.Base.Text.{Text, text_eq, text_ord}
use code_discovery_pyramid.Partition.{SourceFile, Scope, paths}
use code_discovery_pyramid.Partition.Packing.{all_files, pack_siblings}
use code_discovery_pyramid.Partition.Division.{
  divided, division, longest_path, module_node, module_prefix, cut_modules, cut_inventory, arrange,
  verdict, partition,
}
use code_discovery_pyramid.Partition.Cutting.{cut-files}
use code_discovery_pyramid.Partition.Depth.{cut-returns}
use code_discovery_pyramid.Partition.Merging.{coalesce-Coalesces}
use code_discovery_pyramid.Partition.Filling.{pack_siblings-files}
use code_discovery_pyramid.Partition.Assertion.{IsPartition, assert_partition-IsPartition}

longest_path-bound :
    (files : List SourceFile) (f : SourceFile) → Memᴰ f files → length f.path ≤ longest_path files
longest_path-bound [] f m = elim m [ ]
longest_path-bound (g ∷ files) f (Memᴰ.head e) =
    subst (λ z. length z.path ≤ max (length g.path) (longest_path files)) (sym e) (omega arith)
longest_path-bound (g ∷ files) f (Memᴰ.tail m) = let h = longest_path-bound files f m in omega arith

module _ (path_of : Dict Text Text) (set_order : List Text → List Text)
    (max_files max_loc : ℕ) where
  cut_modules-returns :
      (groups : Dict Text (List SourceFile)) (ms : List Text)
      → (cuts : List Scope) × (cut_modules path_of set_order max_files max_loc groups ms
          ≡ some cuts)
        × Permᴰ
            (all_files cuts)
            (paths (concat_map (λ m. sort_by (λ f. f.path) (lookup_list m groups)) ms))
  unfolding cut_modules
  cut_modules-returns groups [] = ([], refl, Permᴰ.nil)
  cut_modules-returns groups (m ∷ ms) =
      let files = sort_by (λ f. f.path) (lookup_list m groups) in
      let prefix = module_prefix path_of set_order max_files max_loc m in
      let node = module_node path_of set_order max_files max_loc m in
      let (a, ha) =
        cut-returns max_files max_loc (suc (longest_path files)) m node prefix files (omega arith)
          (λ f q. let h = longest_path-bound files f q in omega arith) in
      let (b, hb, pb) = cut_modules-returns groups ms in
      (
        a ++ b,
        rw (ha, hb) refl,
        subst
            (λ z.
              Permᴰ z (
                paths (files ++ concat_map (λ m. sort_by (λ f. f.path) (lookup_list m groups)) ms)))
            (sym (concat_map-append (λ s. s.files) a b))
            (subst (Permᴰ (all_files a ++ all_files b))
              (sym (
                map-append (λ f. f.path) files
                  (concat_map (λ m. sort_by (λ f. f.path) (lookup_list m groups)) ms)))
              (append-perm
                (cut-files max_files max_loc (suc (longest_path files)) m node prefix files a ha)
                pb)),
      )

  -- The cut of an inventory returns whatever the inventory, and its files are the inventory's.
  pub cut_inventory-returns :
      (inventory : List SourceFile)
      → (cuts : List Scope) × (cut_inventory path_of set_order max_files max_loc inventory
          ≡ some cuts)
        × Permᴰ (all_files cuts) (paths inventory)
  unfolding cut_inventory
  cut_inventory-returns inventory =
      let groups = group_into (λ f. f.module_name) [] inventory in
      let (cuts, h, p) = cut_modules-returns groups (sort_by (λ m. m) (keys groups)) in
      (
        cuts,
        h,
        Permᴰ.trans p (
            map-perm (λ f. f.path)
              (Permᴰ.trans
                (concat_map-cong (λ m. sort_by (λ f. f.path) (lookup_list m groups))
                  (λ m. lookup_list m groups) _
                  (λ m q. sort_by-perm (λ f. f.path) (lookup_list m groups)))
                (group_into-parts (λ f. f.module_name) inventory))),
      )

  -- Where the paths of the inventory are distinct and the cut gives no two scopes one node, the
  -- partition is returned, and its scopes hold every tracked file once and no other.
  pub partition-IsPartition :
      (inventory : List SourceFile) (cuts : List Scope)
      → IsNodup (paths inventory)
      → cut_inventory path_of set_order max_files max_loc inventory ≡ some cuts
      → IsNodup (map (λ s. s.node) cuts)
      → (scopes : List Scope) × (partition path_of set_order max_files max_loc inventory
          ≡ divided (division max_files max_loc scopes))
        × IsPartition inventory scopes
  unfolding partition arrange
  partition-IsPartition inventory cuts distinct h nodes =
      let (merged, hm, m) = coalesce-Coalesces max_files max_loc set_order cuts nodes in
      let (cuts', h', files) = cut_inventory-returns inventory in
      let scopes = sort_by (λ s. s.node) (pack_siblings max_files max_loc merged) in
      let moved =
        Permᴰ.trans
          (concat_map-perm (λ s. s.files)
            (sort_by-perm (λ s. s.node) (pack_siblings max_files max_loc merged)))
          (Permᴰ.trans (pack_siblings-files max_files max_loc merged m.distinct) (
            Permᴰ.trans m.moved_none (
              subst (λ z. Permᴰ (all_files z) (paths inventory)) (some_inj (sym h' ∙ h)) files))) in
      let good : IsPartition inventory scopes = record {
        once = IsNodup-perm (Permᴰ.symm moved) distinct;
        all = λ p q. Memᴰ-perm (Permᴰ.symm moved) q;
        only = λ p q. Memᴰ-perm moved q;
      } in
      (
        scopes,
        rw (h, hm)
            (ap (verdict path_of set_order max_files max_loc scopes)
              ((assert_partition-IsPartition inventory scopes).1 good)),
        good,
      )
