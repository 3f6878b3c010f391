-- ===== src/Graph.antt =====
-- cdp/graph.py: the symbol index, and the modules that a reference can mean. Graph/Edges has the
-- observed and the declared edges.
pub mod Edges
pub mod Declared
pub mod Observed
use code_discovery_pyramid.Base.{
  ℕ, zero, suc, ◌+◌, Bool, true, false, Option, none, some, List, [], ◌∷◌, ◌++◌, map, ◌&&◌, ◌||◌,
  ◌==◌, if◌then◌else◌, contains, take, anyb, nat_eq, is_empty,
}
use code_discovery_pyramid.Base.Sorting.{sort_by}
use code_discovery_pyramid.Base.Dict.{Dict, lookup, insert, lookup_list}
use code_discovery_pyramid.Base.Text.{Text, text, text_eq, text_ord, starts_with}
use code_discovery_pyramid.Base.Text.Paths.{slash, dot, before_last}
use code_discovery_pyramid.Claims.{Anchor}

-- Rows of `extraction["defines"]` and `extraction["imports"]`.
pub record Defined : Type 0 where
  pub fqn : Text
  pub module_name : Text
  pub kind : Text

pub record Import : Type 0 where
  pub fqn : Text
  pub module_name : Text
  pub anchor : Anchor

-- SYMBOL_KINDS
abbrev pub symbol_kinds : List Text
symbol_kinds =
    text "class" ∷ text "interface" ∷ text "enum" ∷ text "record" ∷ text "annotation" ∷ []

-- `set.add`
abbrev pub add_member : Text → List Text → List Text
add_member m ms = if contains m ms then ms else ms ++ m ∷ []

-- `d.setdefault(k, set()).add(m)`
unfoldable pub add_owner : Text → Text → Dict Text (List Text) → Dict Text (List Text)
add_owner k m d = insert k (add_member m (lookup_list k d)) d

unfoldable pub index_symbols : Dict Text (List Text) → List Defined → Dict Text (List Text)
index_symbols d [] = d
index_symbols d (row ∷ rows) = index_symbols (add_owner row.fqn row.module_name d) rows

-- A class of a package names the package, and a file of a directory the directory.
abbrev pub index_namespace : Defined → Dict Text (List Text) → Dict Text (List Text)
index_namespace row d =
    let dotted =
      if contains row.kind symbol_kinds && contains dot row.fqn
      then add_owner (before_last dot row.fqn) row.module_name d
      else d in
    if contains slash row.fqn
    then add_owner (before_last slash row.fqn) row.module_name dotted
    else dotted

unfoldable pub index_namespaces : Dict Text (List Text) → List Defined → Dict Text (List Text)
index_namespaces d [] = d
index_namespaces d (row ∷ rows) = index_namespaces (index_namespace row d) rows

-- `{k: sorted(v) for k, v in sorted(d.items())}`
abbrev pub sort_index : Dict Text (List Text) → Dict Text (List Text)
sort_index d = sort_by (λ e. e.0) (map (λ e. (e.0, sort_by (λ m. m) e.1)) d)

-- `build_symbol_index`
abbrev pub build_symbol_index : List Defined → Dict Text (List Text) × Dict Text (List Text)
build_symbol_index defines =
    (sort_index (index_symbols [] defines), sort_index (index_namespaces [] defines))

-- `s[:-2] if s.endswith(".*") else s`
unfoldable pub strip_star : Text → Text
strip_star [] = []
strip_star (c ∷ s) = if (c ∷ s) == text ".*" then [] else c ∷ strip_star s

abbrev pub later_cut : ℕ → Option ℕ → Option ℕ
later_cut c (some i) = some (suc i)
later_cut c none = if (c == dot) || (c == slash) then some 0 else none

-- `max(s.rfind("."), s.rfind("/"))`; `none` is -1.
unfoldable pub last_cut : Text → Option ℕ
last_cut [] = none
last_cut (c ∷ s) = later_cut c (last_cut s)

module _ (symbol_owner namespace_owner : Dict Text (List Text)) where
  -- The next shorter prefix, if there is one: `if cut <= 0: break`.
  abbrev pub shorten : (Text → List Text) → Text → Option ℕ → List Text
  shorten again candidate none = []
  shorten again candidate (some cut) = if cut == 0 then [] else again (take cut candidate)

  abbrev pub first_found : Option (List Text) → List Text → List Text
  first_found none rest = rest
  first_found (some owners) rest = owners

  -- `for _ in range(12)`, by the turns that are left
  unfoldable pub owners_from : ℕ → Text → List Text
  owners_from zero candidate = []
  owners_from (suc turns) candidate = first_found (lookup candidate namespace_owner) (
      first_found (lookup candidate symbol_owner)
        (shorten (owners_from turns) candidate (last_cut candidate)))

  -- `owners_of`
  unfoldable pub owners_of : Text → List Text
  owners_of fqn = first_found (lookup fqn symbol_owner) (owners_from 12 (strip_star fqn))

-- THIRD_PARTY_PREFIXES of cdp/lang/base.py
abbrev pub third_party_prefixes : List Text
third_party_prefixes =
    text "java."
    ∷ text "javax."
    ∷ text "jakarta."
    ∷ text "jdk."
    ∷ text "sun."
    ∷ text "kotlin."
    ∷ text "scala."
    ∷ text "groovy."
    ∷ text "org.springframework."
    ∷ text "org.hibernate."
    ∷ text "org.apache."
    ∷ text "org.slf4j."
    ∷ text "org.junit."
    ∷ text "org.mockito."
    ∷ text "org.assertj."
    ∷ text "org.testng."
    ∷ text "org.quartz."
    ∷ text "org.json."
    ∷ text "org.yaml."
    ∷ text "org.w3c."
    ∷ text "org.xml."
    ∷ text "org.reactivestreams."
    ∷ text "com.google."
    ∷ text "com.fasterxml."
    ∷ text "com.codahale."
    ∷ text "com.jcraft."
    ∷ text "com.microsoft."
    ∷ text "com.amazonaws."
    ∷ text "com.azure."
    ∷ text "com.zaxxer"
    ∷ text "com.sun."
    ∷ text "io.dropwizard."
    ∷ text "io.swagger."
    ∷ text "io.prometheus."
    ∷ text "io.netty."
    ∷ text "io.micrometer."
    ∷ text "io.reactivex."
    ∷ text "lombok."
    ∷ text "ch.qos."
    ∷ text "net.sf."
    ∷ text "reactor."
    ∷ text "graphql."
    ∷ text "software.amazon."
    ∷ text "feign."
    ∷ text "retrofit2."
    ∷ text "okhttp3."
    ∷ text "System."
    ∷ text "Microsoft."
    ∷ text "Newtonsoft."
    ∷ text "AutoMapper."
    ∷ text "Serilog."
    ∷ text "FluentValidation."
    ∷ text "Xunit."
    ∷ text "Moq."
    ∷ text "NUnit."
    ∷ text "FluentAssertions."
    ∷ []

-- `is_third_party` of cdp/lang/base.py
abbrev pub is_third_party : Text → Bool
is_third_party fqn = anyb (λ p. starts_with fqn p) third_party_prefixes

-- `_looks_third_party`, with no patterns of lessons
abbrev pub looks_third_party : Text → Bool
looks_third_party fqn = is_third_party fqn || (not_in dot fqn && not_in slash fqn)
  where
    not_in : ℕ → Text → Bool
    not_in c s = if contains c s then false else true
