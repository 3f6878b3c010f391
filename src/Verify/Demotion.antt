-- ===== src/Verify/Demotion.antt =====
-- cdp/verify.py: no claim is lost, and what is kept is cited.
use mathlib.Core.List.{Memᴰ, append_assoc, append-nil}
use code_discovery_pyramid.Base.{
  ℕ, suc, ◌+◌, ◌≤◌, ◌≡◌, ◌≢◌, refl, sym, ap, ◌∙◌, subst, inl, inr, true, false, Option, some, List,
  [], ◌∷◌, ◌++◌, length, length-append, is_empty, Bool-cases, arith, All,
}
use code_discovery_pyramid.Base.Text.{Text}
use code_discovery_pyramid.Claims.{Anchor, Claim, Unknown, Patch}
use code_discovery_pyramid.Anchor.{
  find_matches, anchor_not_found, Checked, located, failed, verify_anchor,
}
use code_discovery_pyramid.Anchor.RoundTrip.{verify_anchor-IsLocated}
use code_discovery_pyramid.Anchor.{DemotedReason}
use code_discovery_pyramid.Verify.{
  Mode, strict, lenient, Stats, no_stats, Evidence, Sources, read_file, note_checked, check_anchor,
  check_anchors, survives, demoted, kept_claim, Progress, gather, verify_claim, verify_claims,
  verify_patch,
}

-- An anchor whose text is found in its own file, at its own line, and at few others.
pub record Holds (src : Sources) (a : Anchor) : Type 0 where
  pub matched : Memᴰ a.line (find_matches (src.lines a.file) a.anchor)
  pub few : length (find_matches (src.lines a.file) a.anchor) ≤ 3

-- A claim as it is kept: it says the same, and each of its anchors holds. In strict mode no
-- anchor was left out.
pub record IsCited (src : Sources) (mode : Mode) (c k : Claim) : Type 0 where
  pub same_id : k.id ≡ c.id
  pub same_statement : k.statement ≡ c.statement
  pub cited : k.evidence ≢ []
  pub holds : All (Holds src) k.evidence
  pub none_dropped : mode ≡ strict → length k.evidence ≡ length c.evidence

-- The claims of a patch, in their order, split into those kept and those demoted to unknowns.
pub data Splits (src : Sources) (mode : Mode)
    : List Claim → List Claim → List Unknown → Type 0 where
  done : Splits src mode [] [] []
  keep :
      {c k : Claim} {cs ks : List Claim} {us : List Unknown}
      → IsCited src mode c k
      → Splits src mode cs ks us
      → Splits src mode (c ∷ cs) (k ∷ ks) us
  demote :
      {c : Claim} {u : Unknown} {cs ks : List Claim} {us : List Unknown}
      → u.demoted_from ≡ some c.id
      → Splits src mode cs ks us
      → Splits src mode (c ∷ cs) ks (u ∷ us)

module _ (src : Sources) where
  -- The evidence after some anchors: what is good holds, and no anchor is left out.
  record IsGathered (n : ℕ) (e : Evidence) : Type 0 where
    pub holds : All (Holds src) e.good
    pub counted : length e.good + length e.failures ≡ n

  All-snoc :
      (xs : List Anchor) {x : Anchor}
      → All (Holds src) xs
      → Holds src x
      → All (Holds src) (xs ++ x ∷ [])
  All-snoc [] h k = (k, tt)
  All-snoc (y ∷ xs) h k = (h.0, All-snoc xs h.1 k)

  length-snoc {ℓ} : {A : Type ℓ} (xs : List A) (x : A) → length (xs ++ x ∷ []) ≡ suc (length xs)
  length-snoc xs x = length-append xs (x ∷ []) ∙ ground arith

  note_checked-IsGathered :
      (a : Anchor) (checked : Checked) {n : ℕ} {e : Evidence}
      → verify_anchor (src.lines (read_file src a)) a ≡ checked
      → IsGathered n e
      → IsGathered (suc n) (note_checked src a checked e)
  note_checked-IsGathered a (located line) {n} {e} h g =
      let there = verify_anchor-IsLocated (src.lines (read_file src a)) a line h in
      record {
        holds = All-snoc e.good g.holds (record { matched = there.matched; few = there.few });
        counted =
            (let l = length-snoc e.good (record a { file = read_file src a; line = line }) in
              ground arith);
      }
  note_checked-IsGathered a (failed line reason) {n} {e} h g = record {
    holds = g.holds;
    counted = (let l = length-snoc e.failures (a, reason) in ground arith);
  }

  check_anchor-IsGathered :
      (a : Anchor) {n : ℕ} (e : Evidence)
      → IsGathered n e
      → IsGathered (suc n) (check_anchor src e a)
  unfolding check_anchor
  check_anchor-IsGathered a e g =
      let lines = src.lines (read_file src a) in
      elim (Bool-cases (is_empty lines)) [
        | inl missing ↦ rw missing (record {
          holds = g.holds;
          counted = (let l = length-snoc e.failures (a, anchor_not_found) in ground arith);
        })
        | inr present ↦ rw present (
            note_checked-IsGathered a (verify_anchor lines a) refl
              (record { holds = g.holds; counted = g.counted }))
      ]

  check_anchors-IsGathered :
      (cited : List Anchor) {n : ℕ} (e : Evidence)
      → IsGathered n e
      → IsGathered (n + length cited) (check_anchors src e cited)
  unfolding check_anchors
  check_anchors-IsGathered [] e g = subst (λ m. IsGathered m e) (omega arith) g
  check_anchors-IsGathered (a ∷ rest) e g =
      subst (λ m. IsGathered m (check_anchors src (check_anchor src e a) rest)) (omega arith)
        (check_anchors-IsGathered rest (check_anchor src e a) (check_anchor-IsGathered a e g))

-- The counters of claims, which the loop over the anchors leaves as they are.
pub record SameClaims (s t : Stats) : Type 0 where
  pub same_in : t.claims_in ≡ s.claims_in
  pub same_kept : t.claims_kept ≡ s.claims_kept
  pub same_demoted : t.claims_demoted ≡ s.claims_demoted

module _ (src : Sources) where
  note_checked-SameClaims :
      {s : Stats} (a : Anchor) (checked : Checked) (e : Evidence)
      → SameClaims s e.stats
      → SameClaims s (note_checked src a checked e).stats
  note_checked-SameClaims a (located line) e h = record {
    same_in = h.same_in;
    same_kept = h.same_kept;
    same_demoted = h.same_demoted;
  }
  note_checked-SameClaims a (failed line reason) e h = h

  check_anchor-SameClaims :
      (a : Anchor) (e : Evidence) → SameClaims e.stats (check_anchor src e a).stats
  unfolding check_anchor
  check_anchor-SameClaims a e =
      let lines = src.lines (read_file src a) in
      elim (Bool-cases (is_empty lines)) [
        | inl missing ↦
            rw missing (record { same_in = refl; same_kept = refl; same_demoted = refl })
        | inr present ↦ rw present (
            note_checked-SameClaims a (verify_anchor lines a) _
              (record { same_in = refl; same_kept = refl; same_demoted = refl }))
      ]

  check_anchors-SameClaims :
      (cited : List Anchor) (e : Evidence) → SameClaims e.stats (check_anchors src e cited).stats
  unfolding check_anchors
  check_anchors-SameClaims [] e = record { same_in = refl; same_kept = refl; same_demoted = refl }
  check_anchors-SameClaims (a ∷ rest) e =
      let now = check_anchor-SameClaims a e in
      let later = check_anchors-SameClaims rest (check_anchor src e a) in
      record {
        same_in = later.same_in ∙ now.same_in;
        same_kept = later.same_kept ∙ now.same_kept;
        same_demoted = later.same_demoted ∙ now.same_demoted;
      }

survives-good : (mode : Mode) (e : Evidence) → survives mode e ≡ true → is_empty e.good ≡ false
unfolding survives
survives-good lenient e h = ground arith
survives-good strict e h = ground arith

survives-strict : (e : Evidence) → survives strict e ≡ true → length e.failures ≡ 0
unfolding survives
survives-strict e h = empty e.failures (ground arith)
  where
    empty : (xs : List (Anchor × DemotedReason)) → is_empty xs ≡ true → length xs ≡ 0
    empty [] h = refl
    empty (x ∷ xs) h = absurd (ground arith)

Splits-append :
    {src : Sources} {mode : Mode} {cs ds ks ls : List Claim} {us vs : List Unknown}
    → Splits src mode cs ks us
    → Splits src mode ds ls vs
    → Splits src mode (cs ++ ds) (ks ++ ls) (us ++ vs)
Splits-append done r = r
Splits-append (keep c s) r = keep c (Splits-append s r)
Splits-append (demote d s) r = demote d (Splits-append s r)

demoted-names : (c : Claim) (e : Evidence) → (demoted c e).demoted_from ≡ some c.id
unfolding demoted
demoted-names c e = refl

gather-SameClaims : (src : Sources) (c : Claim) (s : Stats) → SameClaims s (gather src c s).stats
unfolding gather
gather-SameClaims src c s = check_anchors-SameClaims src c.evidence _

gather-IsGathered :
    (src : Sources) (c : Claim) (s : Stats) → IsGathered src (length c.evidence) (gather src c s)
unfolding gather
gather-IsGathered src c s =
    let start : Evidence = record { good = []; failures = []; touches_edited = false; stats = s } in
    subst (λ n. IsGathered src n (check_anchors src start c.evidence)) (omega arith)
      (check_anchors-IsGathered src c.evidence start (record { holds = tt; counted = refl }))

module _ (src : Sources) (mode : Mode) (head_sha : Option Text) where
  kept_claim-IsCited :
      (c : Claim) (e : Evidence)
      → survives mode e ≡ true
      → IsGathered src (length c.evidence) e
      → IsCited src mode c (kept_claim head_sha c e)
  unfolding kept_claim
  kept_claim-IsCited c e h g = record {
    same_id = refl;
    same_statement = refl;
    cited = (λ none_good.
        let good = survives-good mode e h in
        let clash = ap is_empty none_good in absurd (ground arith));
    holds = g.holds;
    none_dropped = (λ is_strict.
        let none_failed = survives-strict e (subst (λ m. survives m e ≡ true) is_strict h) in
        let counted = g.counted in omega arith);
  }

  -- What the loop over the claims `cs` adds to `p`.
  record IsVerified (p : Progress) (cs : List Claim) (q : Progress) : Type 0 where
    pub kept : List Claim
    pub new : List Unknown
    pub kept_added : q.kept ≡ p.kept ++ kept
    pub new_added : q.unknowns ≡ p.unknowns ++ new
    pub split : Splits src mode cs kept new
    pub counted_in : q.stats.claims_in ≡ p.stats.claims_in + length cs
    pub counted_kept : q.stats.claims_kept ≡ p.stats.claims_kept + length kept
    pub counted_demoted : q.stats.claims_demoted ≡ p.stats.claims_demoted + length new

  verify_claim-IsVerified :
      (p : Progress) (c : Claim) → IsVerified p (c ∷ []) (verify_claim src mode head_sha p c)
  unfolding verify_claim
  verify_claim-IsVerified p c =
      let same = gather-SameClaims src c p.stats in
      let same_in = same.same_in in
      let same_kept = same.same_kept in
      let same_demoted = same.same_demoted in
      elim (Bool-cases (survives mode (gather src c p.stats))) [
        | inl good ↦ rw good (record {
          kept = kept_claim head_sha c (gather src c p.stats) ∷ [];
          new = [];
          kept_added = refl;
          new_added = sym (append-nil p.unknowns);
          split =
              Splits.keep (kept_claim-IsCited c _ good (gather-IsGathered src c p.stats))
                Splits.done;
          counted_in = ap (λ n. n + 1) same_in;
          counted_kept = ap (λ n. n + 1) same_kept;
          counted_demoted = (ground arith);
        })
        | inr gone ↦ rw gone (record {
          kept = [];
          new = demoted c (gather src c p.stats) ∷ [];
          kept_added = sym (append-nil p.kept);
          new_added = refl;
          split = Splits.demote (demoted-names c _) Splits.done;
          counted_in = ap (λ n. n + 1) same_in;
          counted_kept = (ground arith);
          counted_demoted = ap (λ n. n + 1) same_demoted;
        })
      ]

  IsVerified-trans :
      {p q r : Progress} {cs ds : List Claim}
      → IsVerified p cs q
      → IsVerified q ds r
      → IsVerified p (cs ++ ds) r
  IsVerified-trans {p} {q} {r} {cs} {ds} f g = record {
    kept = f.kept ++ g.kept;
    new = f.new ++ g.new;
    kept_added =
        g.kept_added ∙ (ap (λ xs. xs ++ g.kept) f.kept_added ∙ append_assoc p.kept f.kept g.kept);
    new_added =
        g.new_added ∙ (ap (λ xs. xs ++ g.new) f.new_added ∙ append_assoc p.unknowns f.new g.new);
    split = Splits-append f.split g.split;
    counted_in = total _ _ _ _ _ _ f.counted_in g.counted_in (length-append cs ds);
    counted_kept = total _ _ _ _ _ _ f.counted_kept g.counted_kept (length-append f.kept g.kept);
    counted_demoted =
        total _ _ _ _ _ _ f.counted_demoted g.counted_demoted (length-append f.new g.new);
  }
    where
      total : (a b c m n l : ℕ) → b ≡ a + m → c ≡ b + n → l ≡ m + n → c ≡ a + l
      total a b c m n l h k e = omega arith

  verify_claims-IsVerified :
      (p : Progress) (cs : List Claim) → IsVerified p cs (verify_claims src mode head_sha p cs)
  unfolding verify_claims
  verify_claims-IsVerified p [] = record {
    kept = [];
    new = [];
    kept_added = sym (append-nil p.kept);
    new_added = sym (append-nil p.unknowns);
    split = Splits.done;
    counted_in = omega arith;
    counted_kept = omega arith;
    counted_demoted = omega arith;
  }
  verify_claims-IsVerified p (c ∷ cs) =
      IsVerified-trans (verify_claim-IsVerified p c)
        (verify_claims-IsVerified (verify_claim src mode head_sha p c) cs)

-- What `verify_patch` makes of a patch.
pub record Demotes (src : Sources) (mode : Mode) (patch out : Patch) (stats : Stats) : Type 0 where
  pub new : List Unknown
  pub appended : out.unknowns ≡ patch.unknowns ++ new
  pub split : Splits src mode patch.claims out.claims new
  pub counted_in : stats.claims_in ≡ length patch.claims
  pub counted_kept : stats.claims_kept ≡ length out.claims
  pub counted_demoted : stats.claims_demoted ≡ length new
  pub same_node : out.node ≡ patch.node
  pub same_status : out.status ≡ patch.status

-- Evidence or drop: `verify_patch` splits the claims of a patch, in their order, into those it
-- keeps and those it turns into unknowns that name the claim and follow the old unknowns; so no
-- claim is lost. A kept claim says the same and has evidence, each of its anchors is found in the
-- (renamed) file at its (corrected) line and on at most three lines, and in strict mode no anchor
-- was left out. The counters are the lengths of the lists.
pub verify_patch-Demotes :
    (src : Sources) (mode : Mode) (head_sha : Option Text) (patch : Patch)
    → Demotes src mode patch
        (verify_patch src mode head_sha patch).0
        (verify_patch src mode head_sha patch).1
unfolding verify_patch
verify_patch-Demotes src mode head_sha patch =
    let v =
      verify_claims-IsVerified src mode head_sha
        (record { kept = []; unknowns = patch.unknowns; stats = no_stats }) patch.claims in
    record {
      new = v.new;
      appended = v.new_added;
      split = subst (λ ks. Splits src mode patch.claims ks v.new) (sym v.kept_added) v.split;
      counted_in = v.counted_in ∙ omega arith;
      counted_kept =
          v.counted_kept ∙ (ap (λ n. 0 + n) (ap length (sym v.kept_added)) ∙ omega arith);
      counted_demoted = v.counted_demoted ∙ omega arith;
      same_node = refl;
      same_status = refl;
    }
