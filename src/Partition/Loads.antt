-- ===== src/Partition/Loads.antt =====
-- cdp/partition.py: the scopes that `partition` returns keep to the budget.
use mathlib.Core.List.{Memᴰ}
use code_discovery_pyramid.Base.{
  ℕ, suc, ◌≡◌, refl, ap, subst, Option, none, some, List, [], ◌∷◌, arith, >>=-eq-some, ◌>>=◌,
  some_inj, Memᴰ-perm, down_ord, nat_ord, pair_ord,
}
use code_discovery_pyramid.Base.Sorting.{sort_by, sort_by-perm}
use code_discovery_pyramid.Base.Text.{Text, text_eq, text_ord}
use code_discovery_pyramid.Base.Dict.{Dict, keys, lookup_list, group_into}
use code_discovery_pyramid.Partition.{SourceFile, Scope}
use code_discovery_pyramid.Partition.Packing.{pack_siblings, coalesce}
use code_discovery_pyramid.Partition.Division.{
  cut_modules, cut_inventory, arrange, assert_partition, verdict, checked, partition, Outcome,
  divided, raised, Division, PartitionError, longest_path,
}
use code_discovery_pyramid.Partition.Budget.{
  IsWeighed, AllWeighed, AllWeighed-append, cut-AllWeighed,
}
use code_discovery_pyramid.Partition.Weighing.{coalesce-AllWeighed}
use code_discovery_pyramid.Partition.Bins.{pack_siblings-AllWeighed}

module _ (path_of : Dict Text Text) (set_order : List Text → List Text)
    (max_files max_loc : ℕ) where
  cut_modules-AllWeighed :
      (groups : Dict Text (List SourceFile)) (ms : List Text) (cuts : List Scope)
      → cut_modules path_of set_order max_files max_loc groups ms ≡ some cuts
      → AllWeighed max_files max_loc cuts
  unfolding cut_modules
  cut_modules-AllWeighed groups [] cuts h =
      subst (AllWeighed max_files max_loc) (some_inj h) (λ s m. elim m [ ])
  cut_modules-AllWeighed groups (m ∷ ms) cuts h =
      let files = sort_by (λ f. f.path) (lookup_list m groups) in
      let (a, ha, ra) = >>=-eq-some _ _ h in
      let (b, hb, rb) = >>=-eq-some _ _ ra in
      subst (AllWeighed max_files max_loc) (some_inj rb) (
        AllWeighed-append max_files max_loc a b
          (cut-AllWeighed max_files max_loc (suc (longest_path files)) m _ _ files a ha)
          (cut_modules-AllWeighed groups ms b hb))

  cut_inventory-AllWeighed :
      (inventory : List SourceFile) (cuts : List Scope)
      → cut_inventory path_of set_order max_files max_loc inventory ≡ some cuts
      → AllWeighed max_files max_loc cuts
  unfolding cut_inventory
  cut_inventory-AllWeighed inventory cuts h =
      let groups = group_into (λ f. f.module_name) [] inventory in
      cut_modules-AllWeighed groups (sort_by (λ m. m) (keys groups)) cuts h

  arrange-AllWeighed :
      (inventory : List SourceFile) (scopes : List Scope)
      → arrange path_of set_order max_files max_loc inventory ≡ some scopes
      → AllWeighed max_files max_loc scopes
  unfolding arrange
  arrange-AllWeighed inventory scopes h =
      let rest = λ (cuts : List Scope). coalesce max_files max_loc set_order cuts >>= packed in
      let (cuts, hc, rc) =
        >>=-eq-some (cut_inventory path_of set_order max_files max_loc inventory) rest h in
      let (merged, hm, rm) = >>=-eq-some (coalesce max_files max_loc set_order cuts) packed rc in
      subst (AllWeighed max_files max_loc) (some_inj rm) (λ s m.
        pack_siblings-AllWeighed max_files max_loc merged
          (coalesce-AllWeighed max_files max_loc set_order cuts merged hm
            (cut_inventory-AllWeighed inventory cuts hc))
          s (Memᴰ-perm (sort_by-perm (λ s. s.node) (pack_siblings max_files max_loc merged)) m))
    where
      packed : List Scope → Option (List Scope)
      packed merged = some (sort_by (λ s. s.node) (pack_siblings max_files max_loc merged))

  -- Whatever the inventory and the order of sets, each scope of a partition that is returned counts
  -- its files, and it is flagged as oversized, or within both budgets, or named as the files of one
  -- directory that was split.
  pub partition-IsWeighed :
      (inventory : List SourceFile) (division : Division)
      → partition path_of set_order max_files max_loc inventory ≡ divided division
      → (s : Scope) → Memᴰ s division.scopes
      → IsWeighed max_files max_loc s
  unfolding partition
  partition-IsWeighed inventory division h =
      by_scopes (arrange path_of set_order max_files max_loc inventory) refl h
    where
      by_scopes :
          (o : Option (List Scope))
          → arrange path_of set_order max_files max_loc inventory ≡ o
          → checked path_of set_order max_files max_loc inventory o ≡ divided division
          → AllWeighed max_files max_loc division.scopes
      by_scopes none e k = absurd (ground arith)
      by_scopes (some scopes) e k = by_verdict (assert_partition inventory scopes) k
        where
          by_verdict :
              (v : Option PartitionError)
              → verdict path_of set_order max_files max_loc scopes v ≡ divided division
              → AllWeighed max_files max_loc division.scopes
          by_verdict none k =
              subst (AllWeighed max_files max_loc) (divided_scopes k)
                (arrange-AllWeighed inventory scopes e)
            where
              scopes_of : Outcome → List Scope
              scopes_of (divided d) = d.scopes
              scopes_of (raised error) = []

              divided_scopes : {a b : Division} → divided a ≡ divided b → a.scopes ≡ b.scopes
              divided_scopes q = ap scopes_of q
          by_verdict (some error) k = absurd (ground arith)
