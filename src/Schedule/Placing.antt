-- ===== src/Schedule/Placing.antt =====
-- cdp/schedule.py: the loop of `build_schedule` over the sorted scopes, round by round.
use mathlib.Core.List.{Memᴰ, append_assoc, append-nil}
use native.Mathlib.Decide.{ℕ_discrete}
use code_discovery_pyramid.Base.{
  ℕ, ◌≤◌, ◌≡◌, ◌≢◌, refl, sym, ap, ◌∙◌, subst, ◌⊎◌, inl, inr, none, some, List, [], ◌∷◌, ◌++◌,
  nat_eq, nat_ord, pair_ord, option_eq, length, All, All-Memᴰ, All-of_Memᴰ, arith, leb→le, some_inj,
  ==_refl, Memᴰ-append,
}
use code_discovery_pyramid.Base.Sorting.{IsSorted}
use code_discovery_pyramid.Base.Text.{text_ord}
use code_discovery_pyramid.Schedule.{
  Scope, Wave, Loop, chunks_fuel, chunks, append_waves, flush, place, place_all, empty_loop,
  schedule_waves,
}
use code_discovery_pyramid.Schedule.Slots.{
  Slot, slot_scopes, chunks_fuel-concat, chunks_fuel-FitsIn, append_waves-number,
  slot_scopes-append, All-append, Below, Rising-append, level_slots, level_slots-Rising,
  level_slots-IsSlot, Numbers,
}

abbrev AtLevel : (Scope → ℕ) → Loop → ℕ → List Slot → Type 0
AtLevel level st l slots =
    (st.current_level ≡ some l) × Below l slots × ((s : Scope) → Memᴰ s st.bucket → level s ≡ l)

abbrev Fresh : Loop → List Slot → Type 0
Fresh st slots = (st.current_level ≡ none) × (st.bucket ≡ []) × (slots ≡ [])

record Invariant (step : ℕ) (level : Scope → ℕ) (done : List Scope) (st : Loop) : Type 0 where
  before : List Scope
  waves : Numbers step level before st.waves
  whole : before ++ st.bucket ≡ done
  status : Fresh st waves.slots ⊎ ((l : ℕ) × AtLevel level st l waves.slots)

module _ (step : ℕ) (level : Scope → ℕ) (positive : 1 ≤ step) where
  append_waves-Numbers :
      (before bucket : List Scope) (waves : List Wave) (l : ℕ) (n : Numbers step level before waves)
      → Below l n.slots
      → ((s : Scope) → Memᴰ s bucket → level s ≡ l)
      → (m : Numbers step level
          (before ++ bucket)
          (append_waves waves (some l) (chunks step bucket)))
        × Below l m.slots
  unfolding chunks level_slots
  append_waves-Numbers before bucket waves l n b u =
      let cs = chunks_fuel (length bucket) step bucket in
      let concat = chunks_fuel-concat (length bucket) step l bucket positive (omega arith) in
      let (r, a, b') = level_slots-Rising l cs in
      (
        record {
          slots = n.slots ++ level_slots l cs;
          numbered =
              ap (λ w. append_waves w (some l) cs) n.numbered ∙ append_waves-number n.slots l cs;
          whole =
              slot_scopes-append n.slots (level_slots l cs)
              ∙ ap (λ k. k ++ slot_scopes (level_slots l cs)) n.whole
              ∙ ap (λ k. before ++ k) concat;
          valid = All-append _ n.slots (level_slots l cs) n.valid (
              level_slots-IsSlot step level l cs
                (chunks_fuel-FitsIn (length bucket) step bucket positive)
                (λ s m. u s (subst (Memᴰ s) concat m)));
          rising = Rising-append n.slots (level_slots l cs) l n.rising b r a;
        },
        All-append _ n.slots (level_slots l cs) b b',
      )

  abbrev NextAbove : Loop → ℕ → Type 0
  NextAbove st v = (l : ℕ) → st.current_level ≡ some l → l ≤ v

  place_first :
      (st : Loop) (s : Scope)
      → st.current_level ≡ none
      → place step level st s
        ≡ record st { current_level = some (level s); bucket = st.bucket ++ s ∷ [] }
  unfolding place
  place_first st s h = ground (arith, ==_refl (level s))

  place_same :
      (st : Loop) (s : Scope) (l : ℕ)
      → st.current_level ≡ some l
      → level s ≡ l
      → place step level st s
        ≡ record st { current_level = some (level s); bucket = st.bucket ++ s ∷ [] }
  unfolding place
  place_same st s l h k = ground arith

  place_next :
      (st : Loop) (s : Scope) (l : ℕ)
      → st.current_level ≡ some l
      → level s ≢ l
      → place step level st s ≡ record st {
        waves = append_waves st.waves (some l) (chunks step st.bucket);
        current_level = some (level s);
        bucket = s ∷ [];
      }
  unfolding place flush
  place_next st s l h k = ground arith

  Memᴰ-snoc :
      {x s : Scope} {l : ℕ} (bucket : List Scope)
      → ((z : Scope) → Memᴰ z bucket → level z ≡ l)
      → level s ≡ l
      → Memᴰ x (bucket ++ s ∷ [])
      → level x ≡ l
  Memᴰ-snoc {x} {s} {l} bucket u h m = elim (Memᴰ-append bucket (s ∷ []) m) [
    | inl n ↦ u x n
    | inr n ↦ last n
  ]
    where
      last : Memᴰ x (s ∷ []) → level x ≡ l
      last (Memᴰ.head e) = ap level e ∙ h
      last (Memᴰ.tail k) = elim k [ ]

  Below-mono : (l v : ℕ) (slots : List Slot) → l ≤ v → Below l slots → Below v slots
  Below-mono l v [] h b = tt
  Below-mono l v (p ∷ slots) h b = (omega arith, Below-mono l v slots h b.1)

  place-Invariant :
      (done : List Scope) (st : Loop) (s : Scope)
      → Invariant step level done st
      → ((l : ℕ) → st.current_level ≡ some l → l ≤ level s)
      → Invariant step level (done ++ s ∷ []) (place step level st s)
        × ((place step level st s).current_level ≡ some (level s))
  place-Invariant done st s i above = elim i.status [
    | inl (fresh, empty, no_slots) ↦
        subst Next (sym (place_first st s fresh))
          (stay (rw no_slots tt) (λ z m. none_yet empty m), refl)
    | inr (l, (now, b, u)) ↦ elim (ℕ_discrete (level s) l) [
      | yes same ↦
          subst Next (sym (place_same st s l now same))
            (stay (Below-mono l (level s) _ (above l now) b) (λ z m. u z m ∙ sym same), refl)
      | no other ↦ subst Next (sym (place_next st s l now other)) (
        (let (n, b') = append_waves-Numbers i.before st.bucket st.waves l i.waves b u in
            record {
              before = i.before ++ st.bucket;
              waves = n;
              whole = ap (λ k. k ++ s ∷ []) i.whole;
              status =
                  inr (level s, (refl, Below-mono l (level s) _ (above l now) b', λ z m. alone m));
            }),
        refl,
      )
    ]
  ]
    where
      Next : Loop → Type 0
      Next st' = Invariant step level (done ++ s ∷ []) st' × (st'.current_level ≡ some (level s))

      none_yet : {z : Scope} → st.bucket ≡ [] → Memᴰ z st.bucket → level z ≡ level s
      none_yet {z} e m = elim (subst (Memᴰ z) e m) [ ]

      alone : {z : Scope} → Memᴰ z (s ∷ []) → level z ≡ level s
      alone (Memᴰ.head e) = ap level e
      alone (Memᴰ.tail m) = elim m [ ]

      stay :
          Below (level s) i.waves.slots
          → ((z : Scope) → Memᴰ z st.bucket → level z ≡ level s)
          → Invariant step level
              (done ++ s ∷ [])
              (record st { current_level = some (level s); bucket = st.bucket ++ s ∷ [] })
      stay b u = record {
        before = i.before;
        waves = i.waves;
        whole = sym (append_assoc i.before st.bucket (s ∷ [])) ∙ ap (λ k. k ++ s ∷ []) i.whole;
        status = inr (level s, (refl, b, λ z m. Memᴰ-snoc st.bucket u refl m));
      }

  place_all-Invariant :
      (ss done : List Scope) (st : Loop)
      → Invariant step level done st
      → ((l : ℕ) → st.current_level ≡ some l → All (λ s. l ≤ level s) ss)
      → IsSorted level ss
      → Invariant step level (done ++ ss) (place_all step level st ss)
  unfolding place_all
  place_all-Invariant [] done st i above sorted =
      subst (λ k. Invariant step level k st) (sym (append-nil done)) i
  place_all-Invariant (s ∷ ss) done st i above sorted =
      let (i', now) = place-Invariant done st s i (λ l h. (above l h).0) in
      subst (λ k. Invariant step level k (place_all step level (place step level st s) ss))
        (append_assoc done (s ∷ []) ss)
        (place_all-Invariant ss (done ++ s ∷ []) (place step level st s) i'
          (λ l h.
            subst (λ k. All (λ z. k ≤ level z) ss) (some_inj (sym now ∙ h))
              (All-of_Memᴰ _ ss (λ z m. leb→le (level s) (level z) (All-Memᴰ _ sorted.0 m))))
          sorted.1)

  -- The waves of scopes that come sorted by level are the numbering of slots of one level and of
  -- one to `step` scopes, whose levels never fall and which hold the scopes in their order.
  pub schedule_waves-Numbers :
      (scopes : List Scope)
      → IsSorted level scopes
      → Numbers step level scopes (schedule_waves step level scopes)
  unfolding schedule_waves flush
  schedule_waves-Numbers scopes sorted =
      let last = place_all step level empty_loop scopes in
      let i =
        place_all-Invariant scopes [] empty_loop start (λ l h. absurd (ground arith)) sorted in
      subst
        (λ k.
          Numbers step level k
            (append_waves last.waves last.current_level (chunks step last.bucket)))
        i.whole (finish last i)
    where
      start : Invariant step level [] empty_loop
      start = record {
        before = [];
        waves = record { slots = []; numbered = refl; whole = refl; valid = tt; rising = tt };
        whole = refl;
        status = inl (refl, refl, refl);
      }

      unchanged :
          {before : List Scope} (st : Loop)
          → Numbers step level before st.waves
          → st.current_level ≡ none
          → st.bucket ≡ []
          → Numbers step level
              (before ++ st.bucket)
              (append_waves st.waves st.current_level (chunks step st.bucket))
      unchanged {before} st n fresh empty =
          subst
            (λ b.
              Numbers step level (before ++ b)
                (append_waves st.waves st.current_level (chunks step b)))
            (sym empty)
            (unfold chunks append_waves in
              subst (λ k. Numbers step level k st.waves) (sym (append-nil before)) n)

      finish :
          {done : List Scope} (st : Loop) (i : Invariant step level done st)
          → Numbers step level
              (i.before ++ st.bucket)
              (append_waves st.waves st.current_level (chunks step st.bucket))
      finish st i = elim i.status [
        | inl (fresh, empty, no_slots) ↦ unchanged st i.waves fresh empty
        | inr (l, (now, b, u)) ↦
            subst
              (λ c.
                Numbers step level (i.before ++ st.bucket)
                  (append_waves st.waves c (chunks step st.bucket)))
              (sym now) (append_waves-Numbers i.before st.bucket st.waves l i.waves b u).0
      ]
