-- ===== src/Graph/Declared.antt =====
-- cdp/graph.py: a declared edge is drawn only where a dependency names one module.
use mathlib.Core.List.Permᴰ
use mathlib.Core.List.{Memᴰ, Permᴰ}
use code_discovery_pyramid.Base.{
  ◌≡◌, ◌≢◌, refl, sym, ap, ap₂, ◌∙◌, subst, ◌⊎◌, inl, inr, Bool, true, false, not, ◌==◌, List, [],
  ◌∷◌, ◌++◌, arith, Bool-cases, if◌then◌else◌, filterb, contains, contains→Memᴰ, Memᴰ→contains,
  Memᴰ-of_filterb, Memᴰ-filterb, Memᴰ-append, Memᴰ-perm, ==→eq, ==_refl, ==_false→ne, ne→==_false,
  pair_ord,
}
use code_discovery_pyramid.Base.Sorting.{
  sort_by, sort_by-perm, sort_by-perm_eq, sorted_set, sorted_set-ext, Memᴰ-sorted_set,
  Memᴰ-of_sorted_set, IsNodup,
}
use code_discovery_pyramid.Base.Groups.{concat_map, map-injective}
use code_discovery_pyramid.Base.Dict.{Dict, keys, lookup_list, group_into, lookup_list-group}
use code_discovery_pyramid.Base.Text.{Text, text_eq, text_ord}
use code_discovery_pyramid.Base.Text.Paths.{slash, after_last}
use code_discovery_pyramid.Graph.Edges.{
  DeclaredEdge, Ambiguous, named_by, candidates_of, sole, several, edges_from, ambiguous_from,
  declared_edges,
}

concat_map-ext {ℓ κ} :
    {A : Type ℓ} {B : Type κ} (f g : A → List B) (xs : List A)
    → ((x : A) → f x ≡ g x)
    → concat_map f xs ≡ concat_map g xs
concat_map-ext f g [] h = refl
concat_map-ext f g (x ∷ xs) h = ap₂ ◌++◌ (h x) (concat_map-ext f g xs h)

Memᴰ-of_concat_map {ℓ κ} :
    {A : Type ℓ} {B : Type κ} (f : A → List B) (xs : List A) {y : B}
    → Memᴰ y (concat_map f xs)
    → (x : A) × Memᴰ x xs × Memᴰ y (f x)
Memᴰ-of_concat_map f [] m = elim m [ ]
Memᴰ-of_concat_map f (x ∷ xs) {y} m =
    by_side (Memᴰ-append (f x) (concat_map f xs) m) (λ k. Memᴰ-of_concat_map f xs k)
  where
    by_side :
        Memᴰ y (f x) ⊎ Memᴰ y (concat_map f xs)
        → (Memᴰ y (concat_map f xs) → (z : _) × Memᴰ z xs × Memᴰ y (f z))
        → (z : _) × Memᴰ z (x ∷ xs) × Memᴰ y (f z)
    by_side (inl k) later = (x, Memᴰ.head refl, k)
    by_side (inr k) later = let (z, a, b) = later k in (z, Memᴰ.tail a, b)

contains-perm : (x : Text) {xs ys : List Text} → Permᴰ xs ys → contains x xs ≡ contains x ys
contains-perm x {xs} {ys} p = elim (Bool-cases (contains x ys)) [
  | inl h ↦ Memᴰ→contains (Memᴰ-perm (Permᴰ.symm p) (contains→Memᴰ x ys h)) ∙ sym h
  | inr h ↦ elim (Bool-cases (contains x xs)) [
    | inl k ↦ absurd (clash _ (Memᴰ→contains (Memᴰ-perm p (contains→Memᴰ x xs k))) h)
    | inr k ↦ k ∙ sym h
  ]
]
  where
    clash : (b : Bool) → b ≡ true → b ≡ false → ⊥
    clash b p q = ground arith

module _ {ms ns : List Text} (p : Permᴰ ms ns) where
  named_by-perm : (dep : Text) → named_by ms dep ≡ named_by ns dep
  named_by-perm dep =
      ap₂
        (λ (b : Bool) (cs : List Text).
          if b then dep ∷ [] else lookup_list dep (group_into (after_last slash) [] cs))
        (contains-perm dep p)
        (sorted_set-ext ms ns (λ x m. Memᴰ-perm p m) (λ x m. Memᴰ-perm (Permᴰ.symm p) m))

  candidates_of-perm : (src dep : Text) → candidates_of ms src dep ≡ candidates_of ns src dep
  candidates_of-perm src dep = ap (filterb (λ c. not (c == src))) (named_by-perm dep)

  -- The edges and the ambiguous references depend neither on the order of the set of modules, which
  -- the hash seed decides, nor on that of the manifests.
  pub declared_edges-perm :
      (declared : Dict Text (List Text)) {other : Dict Text (List Text)}
      → IsNodup (keys declared)
      → Permᴰ declared other
      → declared_edges ms declared ≡ declared_edges ns other
  unfolding declared_edges
  declared_edges-perm declared {other} n q =
      let same =
        sort_by-perm_eq (λ (e : Text × List Text). e.0) q
          (λ x y a b e. map-injective (λ (e : Text × List Text). e.0) declared n x y a b e) in
      let sorted_deps = sort_by (λ (e : Text × List Text). e.0) declared in
      ap₂
        (λ (es : List DeclaredEdge) (ambiguous : List Ambiguous). (
          sort_by {K = Text × Text} (λ (e : DeclaredEdge). (e.from, e.to)) es,
          sort_by {K = Text × Text} (λ (a : Ambiguous). (a.from, a.dep)) ambiguous,
        ))
        (concat_map-ext (edges_from ms) (edges_from ns) sorted_deps (λ (src, deps).
            concat_map-ext _ _ (sorted_set deps)
              (λ dep. ap (sole ms src) (candidates_of-perm src dep)))
          ∙ ap (concat_map (edges_from ns)) same)
        (concat_map-ext (ambiguous_from ms) (ambiguous_from ns) sorted_deps (λ (src, deps).
            concat_map-ext _ _ (sorted_set deps)
              (λ dep. ap (several ms src dep) (candidates_of-perm src dep)))
          ∙ ap (concat_map (ambiguous_from ns)) same)

-- A dependency names a module that is spelled so; if there is none, one whose last part is.
pub data Names (modules : List Text) (dep m : Text) : Type 0 where
  itself : Memᴰ dep modules → m ≡ dep → Names modules dep m
  by_last_part : (Memᴰ dep modules → ⊥) → dep ≡ after_last slash m → Names modules dep m

-- A dependency of a manifest names one module only, apart from the manifest's own.
pub record NamesOnly (modules : List Text) (declared : Dict Text (List Text)) (e : DeclaredEdge)
    : Type 0 where
  pub deps : List Text
  pub dep : Text
  pub of_manifest : Memᴰ {A = Text × List Text} (e.from, deps) declared
  pub declares : Memᴰ dep deps
  pub present : Memᴰ e.to modules
  pub other : e.to ≢ e.from
  pub named : Names modules dep e.to
  pub only : (m : Text) → Memᴰ m modules → m ≢ e.from → Names modules dep m → m ≡ e.to

module _ (modules : List Text) where
  Memᴰ-named_by :
      (dep m : Text) → Memᴰ m modules → Names modules dep m → Memᴰ m (named_by modules dep)
  Memᴰ-named_by dep m q (Names.itself k e) = rw (Memᴰ→contains k) (Memᴰ.head e)
  Memᴰ-named_by dep m q (Names.by_last_part n e) = elim (Bool-cases (contains dep modules)) [
    | inl k ↦ absurd (n (contains→Memᴰ dep modules k))
    | inr k ↦ rw k (
        subst (Memᴰ m) (sym (lookup_list-group (after_last slash) dep (sorted_set modules))) (
          Memᴰ-filterb (λ x. dep == after_last slash x) (Memᴰ-sorted_set modules q)
            (subst (λ z. (dep == z) ≡ true) e (==_refl dep))))
  ]

  Memᴰ-of_named_by :
      (dep m : Text) → Memᴰ m (named_by modules dep) → Memᴰ m modules × Names modules dep m
  Memᴰ-of_named_by dep m q = elim (Bool-cases (contains dep modules)) [
    | inl k ↦ alone (contains→Memᴰ dep modules k) (rw k at q)
    | inr k ↦ grouped (missing k) (rw k at q)
  ]
    where
      missing : contains dep modules ≡ false → Memᴰ dep modules → ⊥
      missing f k = clash _ (Memᴰ→contains k) f
        where
          clash : (b : Bool) → b ≡ true → b ≡ false → ⊥
          clash b x y = ground arith

      alone : Memᴰ dep modules → Memᴰ m (dep ∷ []) → Memᴰ m modules × Names modules dep m
      alone k (Memᴰ.head e) = (subst (λ z. Memᴰ z modules) (sym e) k, Names.itself k e)
      alone k (Memᴰ.tail t) = elim t [ ]

      grouped :
          (Memᴰ dep modules → ⊥)
          → Memᴰ m (lookup_list dep (group_into (after_last slash) [] (sorted_set modules)))
          → Memᴰ m modules × Names modules dep m
      grouped n t =
          let (a, b) =
            Memᴰ-of_filterb (λ x. dep == after_last slash x) (sorted_set modules)
              (subst (Memᴰ m) (lookup_list-group (after_last slash) dep (sorted_set modules)) t) in
          (Memᴰ-of_sorted_set modules a, Names.by_last_part n (==→eq dep (after_last slash m) b))

  Memᴰ-of_sole :
      (src : Text) (cs : List Text) (e : DeclaredEdge)
      → Memᴰ e (sole modules src cs)
      → (e.from ≡ src) × (cs ≡ e.to ∷ [])
  Memᴰ-of_sole src [] e m = elim m [ ]
  Memᴰ-of_sole src (c ∷ []) e (Memᴰ.head q) =
      (ap (λ (z : DeclaredEdge). z.from) q, sym (ap (λ (z : DeclaredEdge). z.to ∷ []) q))
  Memᴰ-of_sole src (c ∷ []) e (Memᴰ.tail m) = elim m [ ]
  Memᴰ-of_sole src (c ∷ d ∷ cs) e m = elim m [ ]

  -- A declared edge is drawn only from a dependency of its manifest that names the target and no
  -- other module but the manifest's own; the resolver never picks one of several.
  pub declared_edges-NamesOnly :
      (declared : Dict Text (List Text)) (e : DeclaredEdge)
      → Memᴰ e (declared_edges modules declared).0
      → NamesOnly modules declared e
  unfolding declared_edges
  declared_edges-NamesOnly declared e m =
      let ((src, deps), a, b) =
        Memᴰ-of_concat_map (edges_from modules) (sort_by (λ e. e.0) declared)
          (Memᴰ-perm (sort_by-perm {K = Text × Text} (λ (e : DeclaredEdge). (e.from, e.to)) _) m) in
      let (dep, c, d) =
        Memᴰ-of_concat_map (λ dep. sole modules src (candidates_of modules src dep))
          (sorted_set deps) b in
      let (from, cs) = Memᴰ-of_sole src (candidates_of modules src dep) e d in
      from_parts src deps dep from
        (Memᴰ-perm (sort_by-perm (λ (e : Text × List Text). e.0) declared) a)
        (Memᴰ-of_sorted_set deps c) cs
    where
      from_parts :
          (src : Text) (deps : List Text) (dep : Text)
          → e.from ≡ src
          → Memᴰ {A = Text × List Text} (src, deps) declared
          → Memᴰ dep deps
          → candidates_of modules src dep ≡ e.to ∷ []
          → NamesOnly modules declared e
      from_parts src deps dep same a c cs =
          let (k, differs) =
            Memᴰ-of_filterb (λ z. not (z == src)) (named_by modules dep)
              (subst (Memᴰ e.to) (sym cs) (Memᴰ.head refl)) in
          let (present, named) = Memᴰ-of_named_by dep e.to k in
          record {
            deps = deps;
            dep = dep;
            of_manifest = subst (λ z. Memᴰ {A = Text × List Text} (z, deps) declared) (sym same) a;
            declares = c;
            present = present;
            other = λ q. ==_false→ne e.to src (flip _ differs) (q ∙ same);
            named = named;
            only = λ n q h names. sole_member n (
                subst (Memᴰ n) cs (
                  Memᴰ-filterb (λ z. not (z == src)) (Memᴰ-named_by dep n q names)
                    (ap not (ne→==_false n src (λ r. h (r ∙ sym same))))));
          }
        where
          flip : (b : Bool) → not b ≡ true → b ≡ false
          flip b q = ground arith

          sole_member : (n : Text) → Memᴰ n (e.to ∷ []) → n ≡ e.to
          sole_member n (Memᴰ.head q) = q
          sole_member n (Memᴰ.tail k) = elim k [ ]
