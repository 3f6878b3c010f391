-- ===== src/Gates/Ratchet.antt =====
-- cdp/gates.py: what `discharge_unknowns` makes of an unknown, the ratchet.
use mathlib.Core.List.{Memᴰ}
use code_discovery_pyramid.Base.{
  ◌≡◌, refl, sym, ap, ap₂, ◌∙◌, inl, inr, true, false, Option, none, some, List, [], Bool-cases,
  is_empty, if◌then◌else◌, option_eq, pair_eq,
}
use code_discovery_pyramid.Base.Dict.{lookup}
use code_discovery_pyramid.Base.Index.{
  none≢some, first_by, first_by-source, first_by-found, Pointwise, map-Pointwise,
}
use code_discovery_pyramid.Base.Text.{Text, text_eq}
use code_discovery_pyramid.Claims.{Claim, Unknown, resolved, moot}
use code_discovery_pyramid.Extract.{Index}
use code_discovery_pyramid.Gates.{
  exists_in_index, answer_key, is_contradicted, set_open, resolved_by_claim, discharge_by,
  discharge_at, discharge_subject, discharge_unknown, discharge_unknowns,
}

module _ (claims : List Claim) (index : Index) (scope_nodes : List Text) where
  -- A claim that answers an unknown about `subject`: same subject and channel, not contradicted.
  pub record Answers (subject : Text) (u : Unknown) (c : Claim) : Type 0 where
    pub folded : Memᴰ c claims
    pub same_subject : c.subject ≡ subject
    pub same_channel : c.channel ≡ u.channel
    pub upheld : is_contradicted c.verdict ≡ false

  -- The three ways in which an unknown leaves a fold. It is closed only where a claim answers it,
  -- or where its subject is gone.
  pub data Outcome (u : Unknown) : Unknown → Type 0 where
    stays : Outcome u (set_open u)
    gone :
        (subject : Text)
        → u.subject ≡ some subject
        → exists_in_index index scope_nodes subject ≡ false
        → Outcome u (record u { status = some moot })
    answered :
        (subject : Text) (c : Claim)
        → u.subject ≡ some subject
        → Answers subject u c
        → Outcome u (record u { status = some resolved; resolved_by = some (resolved_by_claim c) })

  discharge_by-Outcome :
      (subject : Text) (u : Unknown)
      → u.subject ≡ some subject
      → (found : Option Claim)
      → ((c : Claim)
          → found ≡ some c
          → Memᴰ c claims × (Path (Text × Option Text) (subject, u.channel) (answer_key c)))
      → Outcome u (discharge_by found u)
  discharge_by-Outcome subject u h none source = Outcome.stays
  discharge_by-Outcome subject u h (some c) source = elim (Bool-cases (is_contradicted c.verdict)) [
    | inl against ↦ rw against Outcome.stays
    | inr upheld ↦ rw upheld (
        Outcome.answered subject c h (record {
          folded = (source c refl).0;
          same_subject = sym (ap (λ k. k.0) (source c refl).1);
          same_channel = sym (ap (λ k. k.1) (source c refl).1);
          upheld = upheld;
        }))
  ]

  discharge_subject-Outcome :
      (subject : Text) (u : Unknown)
      → u.subject ≡ some subject
      → Outcome u (discharge_subject claims index scope_nodes subject u)
  unfolding discharge_subject lookup
  discharge_subject-Outcome subject u h =
      elim (Bool-cases (exists_in_index index scope_nodes subject)) [
        | inr missing ↦ rw missing (Outcome.gone subject h missing)
        | inl present ↦ rw present (
            discharge_by-Outcome subject u h
              (lookup (subject, u.channel) (first_by answer_key [] claims))
              (λ c found. elim (first_by-source answer_key (subject, u.channel) [] claims found) [
                | inl nowhere ↦ absurd (none≢some nowhere)
                | inr source ↦ source
              ]))
      ]

  discharge_at-Outcome :
      (u : Unknown) (named : Option Text)
      → u.subject ≡ named
      → Outcome u (discharge_at claims index scope_nodes named u)
  discharge_at-Outcome u none h = Outcome.stays
  discharge_at-Outcome u (some subject) h = elim (Bool-cases (is_empty subject)) [
    | inl blank ↦ rw blank Outcome.stays
    | inr filled ↦ rw filled (discharge_subject-Outcome subject u h)
  ]

  pub discharge_unknown-Outcome :
      (u : Unknown) → Outcome u (discharge_unknown claims index scope_nodes u)
  unfolding discharge_unknown
  discharge_unknown-Outcome u = discharge_at-Outcome u u.subject refl

  -- The ratchet: `discharge_unknowns` drops no unknown, and each one, in its place, either stays
  -- (as open as it came), or is moot because its subject exists neither in the extraction nor as a
  -- scope, or is resolved by a folded claim of the same subject and channel that the extraction
  -- does not contradict. So silence never discharges an unknown.
  pub discharge_unknowns-Outcome :
      (us : List Unknown) → Pointwise Outcome us (discharge_unknowns claims index scope_nodes us)
  unfolding discharge_unknowns
  discharge_unknowns-Outcome us =
      map-Pointwise Outcome (discharge_unknown claims index scope_nodes) discharge_unknown-Outcome
        us

  -- An answer discharges: an unknown whose subject exists, and for whose subject and channel there
  -- is a folded claim and none that is contradicted, is resolved.
  pub discharge_unknown-resolved :
      (u : Unknown) (subject : Text) (c : Claim)
      → u.subject ≡ some subject
      → is_empty subject ≡ false
      → exists_in_index index scope_nodes subject ≡ true
      → Answers subject u c
      → ((d : Claim)
          → Memᴰ d claims
          → d.subject ≡ subject
          → d.channel ≡ u.channel
          → is_contradicted d.verdict ≡ false)
      → (discharge_unknown claims index scope_nodes u).status ≡ some resolved
  unfolding discharge_unknown discharge_subject lookup
  discharge_unknown-resolved u subject c h named present answer upheld =
      ap (λ n. (discharge_at claims index scope_nodes n u).status) h
      ∙ (ap
            (λ b.
              (if b
                then set_open u
                else discharge_subject claims index scope_nodes subject u).status)
            named
          ∙ (ap (λ b. (if b then discharge_by search u else record u { status = some moot }).status)
                present
              ∙ resolves search refl))
    where
      search : Option Claim
      search = lookup (subject, u.channel) (first_by answer_key [] claims)

      key : Path (Text × Option Text) (subject, u.channel) (answer_key c)
      key = ap₂ (λ a b. (a, b)) (sym answer.same_subject) (sym answer.same_channel)

      is_upheld :
          {d : Claim}
          → Memᴰ d claims
          → Path (Text × Option Text) (subject, u.channel) (answer_key d)
          → is_contradicted d.verdict ≡ false
      is_upheld {d} m k = upheld d m (sym (ap (λ z. z.0) k)) (sym (ap (λ z. z.1) k))

      resolves :
          (found : Option Claim)
          → lookup (subject, u.channel) (first_by answer_key [] claims) ≡ found
          → (discharge_by found u).status ≡ some resolved
      resolves none missing =
          let (w, there) = first_by-found answer_key [] claims answer.folded in
          absurd (
            none≢some
              (sym missing ∙ (ap (λ k. lookup k (first_by answer_key [] claims)) key ∙ there)))
      resolves (some d) found =
          elim (first_by-source answer_key (subject, u.channel) [] claims found) [
            | inl nowhere ↦ absurd (none≢some nowhere)
            | inr (m, k) ↦
                ap
                  (λ b.
                    (if b then set_open u else record u {
                      status = some resolved;
                      resolved_by = some (resolved_by_claim d);
                    }).status)
                  (is_upheld m k)
          ]
