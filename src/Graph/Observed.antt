-- ===== src/Graph/Observed.antt =====
-- cdp/graph.py: the weight of an observed edge counts imports.
use mathlib.Core.List.Permᴰ
use mathlib.Core.List.Memᴰ
use mathlib.Core.List.{Memᴰ}
use code_discovery_pyramid.Base.{
  ℕ, ◌+◌, ◌≡◌, ◌≢◌, refl, sym, ap, ap₂, ◌∙◌, subst, ◌⊎◌, inl, inr, Bool, true, false, not, ◌&&◌,
  ◌==◌, Option, none, some, List, [], ◌∷◌, map, arith, Bool-cases, if◌then◌else◌, is_empty,
  contains, contains→Memᴰ, Memᴰ-of_filterb, Memᴰ-perm, sum_by, ==→eq, ==_false→ne, pair_eq, nat_ord,
  pair_ord,
}
use code_discovery_pyramid.Base.Sorting.{sort_by, sort_by-perm, IsNodup}
use code_discovery_pyramid.Base.Best.{Memᴰ-lookup, lookup-Memᴰ}
use code_discovery_pyramid.Base.Dict.{
  Dict, keys, lookup, lookup_or, or_else, insert, lookup-insert_self, lookup-insert_ne,
  keys-insert-IsNodup,
}
use code_discovery_pyramid.Base.Text.{Text, text_eq, text_ord}
use code_discovery_pyramid.Claims.{Anchor}
use code_discovery_pyramid.Graph.{Import, owners_of, looks_third_party}
use code_discovery_pyramid.Graph.Edges.{
  Gathered, nothing_gathered, count_edge, count_edges, note_external, internal, gather_row, gather,
  edge_of, ObservedEdge, observed_edges,
}

-- How often a module stands in a list.
abbrev pub times : Text → List Text → ℕ
times m [] = 0
times m (x ∷ xs) = (if m == x then 1 else 0) + times m xs

count_edge-weight :
    (src : Text) (anchor : Anchor) (g : Gathered) (dst : Text) (k : Text × Text)
    → lookup_or 0 k (count_edge src anchor g dst).weights
      ≡ lookup_or 0 k g.weights + (if k == (src, dst) then 1 else 0)
count_edge-weight src anchor g dst k = elim (Bool-cases (k == (src, dst))) [
  | inl h ↦
      ap (λ z. lookup_or 0 z (count_edge src anchor g dst).weights) (==→eq k (src, dst) h)
      ∙ ap (or_else 0)
          (lookup-insert_self (src, dst) (lookup_or 0 (src, dst) g.weights + 1) g.weights)
      ∙ ap₂ (λ (z : Text × Text) (b : Bool). lookup_or 0 z g.weights + (if b then 1 else 0))
          (sym (==→eq k (src, dst) h)) (sym h)
  | inr h ↦
      ap (or_else 0)
        (lookup-insert_ne (src, dst) k (lookup_or 0 (src, dst) g.weights + 1) g.weights h)
      ∙ none_more (lookup_or 0 k g.weights)
      ∙ ap (λ b. lookup_or 0 k g.weights + (if b then 1 else 0)) (sym h)
]
  where
    none_more : (n : ℕ) → n ≡ n + 0
    none_more n = omega arith

abbrev pub share : Text → Text × Text → List Text → ℕ
share src k dsts = if k.0 == src then times k.1 dsts else 0

count_edges-weight :
    (src : Text) (anchor : Anchor) (g : Gathered) (dsts : List Text) (a b : Text)
    → lookup_or 0 (a, b) (count_edges src anchor g dsts).weights
      ≡ lookup_or 0 (a, b) g.weights + share src (a, b) dsts
unfolding count_edges
count_edges-weight src anchor g [] a b = elim (Bool-cases (a == src)) [
  | inl h ↦ rw h (none_more _)
  | inr h ↦ rw h (none_more _)
]
  where
    none_more : (n : ℕ) → n ≡ n + 0
    none_more n = omega arith
count_edges-weight src anchor g (d ∷ dsts) a b =
    count_edges-weight src anchor (count_edge src anchor g d) dsts a b
    ∙ ap (λ n. n + share src (a, b) dsts) (count_edge-weight src anchor g d (a, b))
    ∙ total (a == src) (b == d) _ (times b dsts)
  where
    total :
        (p q : Bool) (n t : ℕ)
        → n + (if p && q then 1 else 0) + (if p then t else 0)
          ≡ n + (if p then (if q then 1 else 0) + t else 0)
    total true true n t = omega arith
    total true false n t = omega arith
    total false true n t = omega arith
    total false false n t = omega arith

Memᴰ-of_keys-insert :
    (k : Text × Text) (v : ℕ) (d : Dict (Text × Text) ℕ) (j : Text × Text)
    → Memᴰ j (keys (insert k v d))
    → (j ≡ k) ⊎ Memᴰ j (keys d)
unfolding insert
Memᴰ-of_keys-insert k v [] j (Memᴰ.head e) = inl e
Memᴰ-of_keys-insert k v [] j (Memᴰ.tail m) = elim m [ ]
Memᴰ-of_keys-insert k v ((i, w) ∷ d) j m = elim (Bool-cases (k == i)) [
  | inl h ↦ inr (rw h at m)
  | inr h ↦ later (rw h at m) (λ q. Memᴰ-of_keys-insert k v d j q)
]
  where
    later :
        Memᴰ j (i ∷ keys (insert k v d))
        → (Memᴰ j (keys (insert k v d)) → (j ≡ k) ⊎ Memᴰ j (keys d))
        → (j ≡ k) ⊎ Memᴰ j (i ∷ keys d)
    later (Memᴰ.head e) again = inr (Memᴰ.head e)
    later (Memᴰ.tail q) again = shift (again q)
      where
        shift : (j ≡ k) ⊎ Memᴰ j (keys d) → (j ≡ k) ⊎ Memᴰ j (i ∷ keys d)
        shift (inl e) = inl e
        shift (inr r) = inr (Memᴰ.tail r)

module _ (modules : List Text) (symbol_owner namespace_owner : Dict Text (List Text)) where
  -- The imports of one module that reach another.
  abbrev pub imports_between : Text → Text → List Import → ℕ
  imports_between a b rows =
      sum_by
        (λ row. share row.module_name (a, b) (internal modules symbol_owner namespace_owner row))
        rows

  -- An edge joins a module to another.
  abbrev Joins : Text × Text → Type 0
  Joins k = Memᴰ k.1 modules × (k.1 ≢ k.0)

  record IsGathered (g : Gathered) : Type 0 where
    pub distinct : IsNodup (keys g.weights)
    pub joined : (k : Text × Text) → Memᴰ k (keys g.weights) → Joins k

  count_edges-IsGathered :
      (src : Text) (anchor : Anchor) (g : Gathered) (dsts : List Text)
      → IsGathered g
      → ((d : Text) → Memᴰ d dsts → Joins (src, d))
      → IsGathered (count_edges src anchor g dsts)
  unfolding count_edges
  count_edges-IsGathered src anchor g [] i h = i
  count_edges-IsGathered src anchor g (d ∷ dsts) i h =
      count_edges-IsGathered src anchor (count_edge src anchor g d) dsts
        (record {
          distinct = keys-insert-IsNodup (src, d) _ g.weights i.distinct;
          joined = λ k m. by_key k (Memᴰ-of_keys-insert (src, d) _ g.weights k m);
        })
        (λ j m. h j (Memᴰ.tail m))
    where
      by_key : (k : Text × Text) → (k ≡ (src, d)) ⊎ Memᴰ k (keys g.weights) → Joins k
      by_key k (inl e) = subst Joins (sym e) (h d (Memᴰ.head refl))
      by_key k (inr m) = i.joined k m

  internal-Joins :
      (row : Import) (d : Text)
      → Memᴰ d (internal modules symbol_owner namespace_owner row)
      → Joins (row.module_name, d)
  internal-Joins row d m =
      let (a, b) =
        Memᴰ-of_filterb (λ o. contains o modules && not (o == row.module_name))
          (owners_of symbol_owner namespace_owner row.fqn) m in
      let (present, other) = parts (contains d modules) (d == row.module_name) b in
      (contains→Memᴰ d modules present, ==_false→ne d row.module_name other)
    where
      parts : (p q : Bool) → (p && not q) ≡ true → (p ≡ true) × (q ≡ false)
      parts p q h = (ground arith, ground arith)

  note_external-weights : (row : Import) (g : Gathered) → (note_external row g).weights ≡ g.weights
  note_external-weights row g = elim (Bool-cases (looks_third_party row.fqn)) [
    | inl h ↦ rw h refl
    | inr h ↦ rw h refl
  ]

  -- A row that reaches no module changes no weight.
  skip :
      (row : Import) (g : Gathered)
      → (if is_empty (owners_of symbol_owner namespace_owner row.fqn)
          then note_external row g
          else g).weights
        ≡ g.weights
  skip row g = elim (Bool-cases (is_empty (owners_of symbol_owner namespace_owner row.fqn))) [
    | inl h ↦ rw h (note_external-weights row g)
    | inr h ↦ rw h refl
  ]

  gather_row-IsGathered :
      (g : Gathered) (row : Import)
      → IsGathered g
      → IsGathered (gather_row modules symbol_owner namespace_owner g row)
  unfolding gather_row
  gather_row-IsGathered g row i =
      elim (Bool-cases (is_empty (internal modules symbol_owner namespace_owner row))) [
        | inl none_there ↦ rw none_there (record {
          distinct = subst (λ z. IsNodup (keys z)) (sym (skip row g)) i.distinct;
          joined = λ k m. i.joined k (subst (λ z. Memᴰ k (keys z)) (skip row g) m);
        })
        | inr some_there ↦ rw some_there (
            count_edges-IsGathered row.module_name row.anchor g
              (internal modules symbol_owner namespace_owner row) i (internal-Joins row))
      ]

  gather_row-weight :
      (g : Gathered) (row : Import) (a b : Text)
      → lookup_or 0 (a, b) (gather_row modules symbol_owner namespace_owner g row).weights
        ≡ lookup_or 0 (a, b) g.weights
          + share row.module_name (a, b) (internal modules symbol_owner namespace_owner row)
  unfolding gather_row
  gather_row-weight g row a b =
      elim (Bool-cases (is_empty (internal modules symbol_owner namespace_owner row))) [
        | inl none_there ↦ rw none_there (
            ap (lookup_or 0 (a, b)) (skip row g)
            ∙ no_share (internal modules symbol_owner namespace_owner row) (a == row.module_name)
                none_there _)
        | inr some_there ↦ rw some_there (
            count_edges-weight row.module_name row.anchor g
              (internal modules symbol_owner namespace_owner row) a b)
      ]
    where
      no_share :
          (l : List Text) (p : Bool)
          → is_empty l ≡ true
          → (n : ℕ) → n ≡ n + (if p then times b l else 0)
      no_share [] true h n = omega arith
      no_share [] false h n = omega arith
      no_share (x ∷ l) p h n = absurd (ground arith)

  gather-weight :
      (g : Gathered) (rows : List Import) (a b : Text)
      → lookup_or 0 (a, b) (gather modules symbol_owner namespace_owner g rows).weights
        ≡ lookup_or 0 (a, b) g.weights + imports_between a b rows
  unfolding gather
  gather-weight g [] a b = none_more _
    where
      none_more : (n : ℕ) → n ≡ n + 0
      none_more n = omega arith
  gather-weight g (row ∷ rows) a b =
      gather-weight (gather_row modules symbol_owner namespace_owner g row) rows a b
      ∙ ap (λ n. n + imports_between a b rows) (gather_row-weight g row a b)
      ∙ regroup _ _ _
    where
      regroup : (m n o : ℕ) → m + n + o ≡ m + (n + o)
      regroup m n o = omega arith

  gather-IsGathered :
      (g : Gathered) (rows : List Import)
      → IsGathered g
      → IsGathered (gather modules symbol_owner namespace_owner g rows)
  unfolding gather
  gather-IsGathered g [] i = i
  gather-IsGathered g (row ∷ rows) i =
      gather-IsGathered (gather_row modules symbol_owner namespace_owner g row) rows
        (gather_row-IsGathered g row i)

  -- What the observed edges are.
  pub record Counts (imports : List Import) (edges : List ObservedEdge) : Type 0 where
    pub weighed : (e : ObservedEdge) → Memᴰ e edges → e.weight ≡ imports_between e.from e.to imports
    pub joined : (e : ObservedEdge) → Memᴰ e edges → Memᴰ e.to modules × (e.to ≢ e.from)
    pub complete :
        (a b : Text)
        → imports_between a b imports ≢ 0
        → (e : ObservedEdge) × Memᴰ e edges × (e.from ≡ a) × (e.to ≡ b)

  -- An observed edge joins a module to another one of the inventory, its weight is the number of
  -- times that an import of the first reaches the second, and wherever an import does there is an edge.
  pub observed_edges-Counts :
      (imports : List Import)
      → Counts imports (observed_edges modules symbol_owner namespace_owner imports).edges
  unfolding observed_edges lookup
  observed_edges-Counts imports = record { weighed = weighed; joined = joined; complete = complete }
    where
      g : Gathered
      g = gather modules symbol_owner namespace_owner nothing_gathered imports

      made : (Text × Text) × ℕ → ObservedEdge
      made =
          edge_of modules symbol_owner namespace_owner
            (gather modules symbol_owner namespace_owner nothing_gathered imports)

      sorted_weights : List ((Text × Text) × ℕ)
      sorted_weights =
          sort_by (λ e. e.0)
            (gather modules symbol_owner namespace_owner nothing_gathered imports).weights

      gathered : IsGathered g
      gathered =
          gather-IsGathered nothing_gathered imports
            record { distinct = tt; joined = λ k m. elim m [ ] }

      counted :
          (a b : Text) (w : ℕ)
          → Memᴰ {A = (Text × Text) × ℕ} ((a, b), w) sorted_weights
          → w ≡ imports_between a b imports
      counted a b w q =
          sym (
            ap (or_else 0) (
              Memᴰ-lookup (a, b) g.weights gathered.distinct
                (Memᴰ-perm (sort_by-perm (λ (e : (Text × Text) × ℕ). e.0) g.weights) q)))
          ∙ gather-weight nothing_gathered imports a b
          ∙ from_zero _
        where
          from_zero : (n : ℕ) → 0 + n ≡ n
          from_zero n = omega arith

      weighed :
          (e : ObservedEdge)
          → Memᴰ e (map made sorted_weights)
          → e.weight ≡ imports_between e.from e.to imports
      weighed e m =
          let (((a, b), w), q, h) = Memᴰ.of_map made sorted_weights m in
          subst (λ (z : ObservedEdge). z.weight ≡ imports_between z.from z.to imports) h
            (counted a b w q)

      joined :
          (e : ObservedEdge)
          → Memᴰ e (map made sorted_weights)
          → Memᴰ e.to modules × (e.to ≢ e.from)
      joined e m =
          let (((a, b), w), q, h) = Memᴰ.of_map made sorted_weights m in
          subst (λ (z : ObservedEdge). Memᴰ z.to modules × (z.to ≢ z.from)) h
            (gathered.joined (a, b)
              (Memᴰ.map (λ (z : (Text × Text) × ℕ). z.0)
                (Memᴰ-perm (sort_by-perm (λ (e : (Text × Text) × ℕ). e.0) g.weights) q)))

      complete :
          (a b : Text)
          → imports_between a b imports ≢ 0
          → (e : ObservedEdge) × Memᴰ e (map made sorted_weights) × (e.from ≡ a) × (e.to ≡ b)
      complete a b positive = by_weight (lookup (a, b) g.weights) refl
        where
          by_weight :
              (o : Option ℕ)
              → lookup (a, b) g.weights ≡ o
              → (e : ObservedEdge) × Memᴰ e (map made sorted_weights) × (e.from ≡ a) × (e.to ≡ b)
          by_weight none h = absurd (
              positive
                (to_zero _ (sym (gather-weight nothing_gathered imports a b) ∙ ap (or_else 0) h)))
            where
              to_zero : (n : ℕ) → 0 + n ≡ 0 → n ≡ 0
              to_zero n h = omega arith
          by_weight (some w) h = (
            made ((a, b), w),
            Memᴰ.map made (
                Memᴰ-perm (Permᴰ.symm (sort_by-perm (λ (e : (Text × Text) × ℕ). e.0) g.weights))
                  (lookup-Memᴰ (a, b) g.weights h)),
            refl,
            refl,
          )
