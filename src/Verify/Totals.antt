-- ===== src/Verify/Totals.antt =====
-- cdp/verify.py: `verify_all`, without the demotion rate, a float.
use code_discovery_pyramid.Base.{
  ℕ, ◌+◌, ◌≡◌, refl, sym, ap, ◌∙◌, Option, List, [], ◌∷◌, map, length, sum_by, arith,
}
use code_discovery_pyramid.Base.Sorting.{sort_by}
use code_discovery_pyramid.Base.Dict.{Dict, insert}
use code_discovery_pyramid.Base.Text.{Text, text_eq, text_ord}
use code_discovery_pyramid.Claims.{Claim, Unknown, Patch}
use code_discovery_pyramid.Partition.Packing.{add_counts}
use code_discovery_pyramid.Verify.{Mode, Stats, no_stats, Sources, verify_patch}
use code_discovery_pyramid.Verify.Demotion.{Splits, verify_patch-Demotes}

pub record NodeTotals : Type 0 where
  pub claims_in : ℕ
  pub kept : ℕ
  pub demoted : ℕ

pub record Totals : Type 0 where
  pub stats : Stats
  pub by_node : Dict Text NodeTotals

abbrev pub no_totals : Totals
no_totals = record { stats = no_stats; by_node = [] }

-- `totals[key] += stats[key]`
abbrev pub add_stats : Stats → Stats → Stats
add_stats t s = record {
  claims_in = t.claims_in + s.claims_in;
  claims_kept = t.claims_kept + s.claims_kept;
  claims_demoted = t.claims_demoted + s.claims_demoted;
  anchors_checked = t.anchors_checked + s.anchors_checked;
  anchors_ok = t.anchors_ok + s.anchors_ok;
  anchors_relocated = t.anchors_relocated + s.anchors_relocated;
  would_survive_lenient = t.would_survive_lenient + s.would_survive_lenient;
  reasons = add_counts t.reasons s.reasons;
}

abbrev pub add_patch : Text → Stats → Totals → Totals
add_patch node s t = record {
  stats = add_stats t.stats s;
  by_node =
      insert node
        (record { claims_in = s.claims_in; kept = s.claims_kept; demoted = s.claims_demoted })
        t.by_node;
}

-- The two dicts of the totals are sorted at the end.
abbrev pub sort_totals : Totals → Totals
sort_totals t = record {
  stats = record t.stats { reasons = sort_by (λ e. e.0) t.stats.reasons };
  by_node = sort_by (λ e. e.0) t.by_node;
}

module _ (src : Sources) (mode : Mode) (head_sha : Option Text) where
  unfoldable pub total : Totals → List Patch → Totals
  total t [] = t
  total t (p ∷ ps) = total (add_patch p.node (verify_patch src mode head_sha p).1 t) ps

  -- `verify_all`
  unfoldable pub verify_all : List Patch → List Patch × Totals
  verify_all patches = (
    map (λ p. (verify_patch src mode head_sha p).0) patches,
    sort_totals (total no_totals patches),
  )

  Splits-length :
      {cs ks : List Claim} {us : List Unknown}
      → Splits src mode cs ks us
      → length cs ≡ length ks + length us
  Splits-length Splits.done = refl
  Splits-length (Splits.keep c s) = let h = Splits-length s in omega arith
  Splits-length (Splits.demote c s) = let h = Splits-length s in omega arith

  -- The counts of a loop that has met some patches more.
  record Adds (t u : Totals) (patches : List Patch) : Type 0 where
    pub entered : u.stats.claims_in ≡ t.stats.claims_in + sum_by (λ p. length p.claims) patches
    pub kept :
        u.stats.claims_kept
        ≡ t.stats.claims_kept
          + sum_by (λ p. length (verify_patch src mode head_sha p).0.claims) patches
    pub balanced :
        t.stats.claims_in ≡ t.stats.claims_kept + t.stats.claims_demoted
        → u.stats.claims_in ≡ u.stats.claims_kept + u.stats.claims_demoted

  total-Adds : (t : Totals) (patches : List Patch) → Adds t (total t patches) patches
  unfolding total
  total-Adds t [] = record { entered = omega arith; kept = omega arith; balanced = λ h. h }
  total-Adds t (p ∷ ps) =
      let d = verify_patch-Demotes src mode head_sha p in
      let r = total-Adds (add_patch p.node (verify_patch src mode head_sha p).1 t) ps in
      let split = Splits-length d.split in
      record {
        entered = r.entered ∙ step _ _ d.counted_in;
        kept = r.kept ∙ step _ _ d.counted_kept;
        balanced =
            λ h. r.balanced (balance _ _ h d.counted_in d.counted_kept d.counted_demoted split);
      }
    where
      step : (a s : ℕ) {b c : ℕ} → b ≡ c → a + b + s ≡ a + (c + s)
      step a s h = omega arith

      balance :
          (tk td : ℕ) {ti si sk sd n k u : ℕ}
          → ti ≡ tk + td
          → si ≡ n
          → sk ≡ k
          → sd ≡ u
          → n ≡ k + u
          → ti + si ≡ (tk + sk) + (td + sd)
      balance tk td a b c e f = omega arith

  -- What the totals of a log say.
  pub record Balances (patches verified : List Patch) (totals : Totals) : Type 0 where
    pub each : verified ≡ map (λ p. (verify_patch src mode head_sha p).0) patches
    pub entered : totals.stats.claims_in ≡ sum_by (λ p. length p.claims) patches
    pub kept : totals.stats.claims_kept ≡ sum_by (λ p. length p.claims) verified
    pub balanced : totals.stats.claims_in ≡ totals.stats.claims_kept + totals.stats.claims_demoted

  sum_by-map :
      (ps : List Patch) (f : Patch → Patch)
      → sum_by (λ p. length p.claims) (map f ps) ≡ sum_by (λ p. length (f p).claims) ps
  sum_by-map [] f = refl
  sum_by-map (p ∷ ps) f = ap (λ n. length (f p).claims + n) (sum_by-map ps f)

  -- Every patch of a log is verified, the totals count the claims that come in and those that are
  -- kept, over all patches, and each claim that comes in is counted as kept or as demoted.
  pub verify_all-Balances :
      (patches : List Patch) → Balances patches (verify_all patches).0 (verify_all patches).1
  unfolding verify_all
  verify_all-Balances patches =
      let a = total-Adds no_totals patches in
      record {
        each = refl;
        entered = from_zero a.entered;
        kept =
            from_zero a.kept ∙ sym (sum_by-map patches (λ p. (verify_patch src mode head_sha p).0));
        balanced = a.balanced refl;
      }
    where
      from_zero : {m n : ℕ} → m ≡ 0 + n → m ≡ n
      from_zero h = omega arith
