-- ===== src/Schedule/Slots.antt =====
-- cdp/schedule.py: the slots, each a level and its scopes, that waves number.
use mathlib.Core.List.{Memᴰ, append_assoc, append-nil}
use code_discovery_pyramid.Base.{
  ℕ, zero, suc, ◌+◌, ◌≤◌, ◌≡◌, refl, sym, ap, ◌∙◌, subst, some, List, [], ◌∷◌, ◌++◌, map, nat_eq,
  nat_ord, pair_ord, option_eq, length, take, drop, take-append-drop, length-take, length-drop, All,
  All-Memᴰ, All-of_Memᴰ, arith, Memᴰ-append_left, Memᴰ-append_right,
}
use code_discovery_pyramid.Base.Text.{text_ord}
use code_discovery_pyramid.Schedule.{Scope, Wave, chunks_fuel, wave_of, append_waves}

abbrev pub Slot : Type 0
Slot = ℕ × List Scope

-- The waves that a list of slots, each a level and its scopes, is numbered into.
abbrev pub number : ℕ → List Slot → List Wave
number i [] = []
number i ((l, c) ∷ ps) = wave_of i (some l) c ∷ number (suc i) ps

abbrev pub slot_scopes : List Slot → List Scope
slot_scopes [] = []
slot_scopes ((l, c) ∷ ps) = c ++ slot_scopes ps

abbrev pub FitsIn : ℕ → List Scope → Type 0
FitsIn step c = (1 ≤ length c) × (length c ≤ step)

pub chunks_fuel-concat :
    (fuel step l : ℕ) (bucket : List Scope)
    → 1 ≤ step
    → length bucket ≤ fuel
    → slot_scopes (map (λ c. (l, c)) (chunks_fuel fuel step bucket)) ≡ bucket
unfolding chunks_fuel
chunks_fuel-concat zero step l [] h k = refl
chunks_fuel-concat zero step l (s ∷ bucket) h k = absurd (omega arith)
chunks_fuel-concat (suc fuel) step l [] h k = refl
chunks_fuel-concat (suc fuel) step l (s ∷ bucket) h k =
    ap (λ r. take step (s ∷ bucket) ++ r)
      (chunks_fuel-concat fuel step l (drop step (s ∷ bucket)) h
        (omega (arith, length-drop step (s ∷ bucket))))
    ∙ take-append-drop step (s ∷ bucket)

pub chunks_fuel-FitsIn :
    (fuel step : ℕ) (bucket : List Scope)
    → 1 ≤ step
    → All (FitsIn step) (chunks_fuel fuel step bucket)
unfolding chunks_fuel
chunks_fuel-FitsIn zero step bucket h = tt
chunks_fuel-FitsIn (suc fuel) step [] h = tt
chunks_fuel-FitsIn (suc fuel) step (s ∷ bucket) h = (
  (omega (arith, length-take step (s ∷ bucket)), omega (arith, length-take step (s ∷ bucket))),
  chunks_fuel-FitsIn fuel step (drop step (s ∷ bucket)) h,
)

number-append :
    (i : ℕ) (ps qs : List Slot) → number i (ps ++ qs) ≡ number i ps ++ number (i + length ps) qs
number-append i [] qs = ap (λ k. number k qs) (omega arith)
number-append i ((l, c) ∷ ps) qs =
    ap (◌∷◌ (wave_of i (some l) c))
      (number-append (suc i) ps qs ∙ ap (λ k. number (suc i) ps ++ number k qs) (omega arith))

length-number : (i : ℕ) (ps : List Slot) → length (number i ps) ≡ length ps
length-number i [] = refl
length-number i ((l, c) ∷ ps) = ap suc (length-number (suc i) ps)

pub append_waves-number :
    (ps : List Slot) (l : ℕ) (cs : List (List Scope))
    → append_waves (number 0 ps) (some l) cs ≡ number 0 (ps ++ map (λ c. (l, c)) cs)
unfolding append_waves
append_waves-number ps l [] = ap (number 0) (sym (append-nil ps))
append_waves-number ps l (c ∷ cs) =
    ap (λ w. append_waves w (some l) cs)
      (ap (λ k. number 0 ps ++ wave_of k (some l) c ∷ []) (length-number 0 ps)
        ∙ ap (λ k. number 0 ps ++ wave_of k (some l) c ∷ []) (omega arith)
        ∙ sym (number-append 0 ps ((l, c) ∷ [])))
    ∙ append_waves-number (ps ++ (l, c) ∷ []) l cs
    ∙ ap (number 0) (append_assoc ps ((l, c) ∷ []) (map (λ k. (l, k)) cs))

pub slot_scopes-append :
    (ps qs : List Slot) → slot_scopes (ps ++ qs) ≡ slot_scopes ps ++ slot_scopes qs
slot_scopes-append [] qs = refl
slot_scopes-append ((l, c) ∷ ps) qs =
    ap (λ r. c ++ r) (slot_scopes-append ps qs)
    ∙ sym (append_assoc c (slot_scopes ps) (slot_scopes qs))

pub All-append {ℓ κ} :
    {A : Type ℓ} (P : A → Type κ) (xs ys : List A) → All P xs → All P ys → All P (xs ++ ys)
All-append P [] ys h k = k
All-append P (x ∷ xs) ys h k = (h.0, All-append P xs ys h.1 k)

-- What is true of one slot of a schedule.
pub record IsSlot (step : ℕ) (level : Scope → ℕ) (p : Slot) : Type 0 where
  pub fits : FitsIn step p.1
  pub uniform : (s : Scope) → Memᴰ s p.1 → level s ≡ p.0

abbrev pub Below : ℕ → List Slot → Type 0
Below l ps = All (λ p. p.0 ≤ l) ps

abbrev pub Rising : List Slot → Type 0
Rising [] = Unit
Rising (p ∷ ps) = All (λ q. p.0 ≤ q.0) ps × Rising ps

pub Rising-append :
    (ps qs : List Slot) (l : ℕ)
    → Rising ps
    → Below l ps
    → Rising qs
    → All (λ q. l ≤ q.0) qs
    → Rising (ps ++ qs)
Rising-append [] qs l r b s a = s
Rising-append (p ∷ ps) qs l r b s a = (
  All-append _ ps qs r.0
      (All-of_Memᴰ _ qs (λ q m. omega (arith, All-Memᴰ (λ z. l ≤ z.0) a m, b.0))),
  Rising-append ps qs l r.1 b.1 s a,
)

unfoldable pub level_slots : ℕ → List (List Scope) → List Slot
level_slots l cs = map (λ c. (l, c)) cs

pub level_slots-Rising :
    (l : ℕ) (cs : List (List Scope))
    → Rising (level_slots l cs) × All (λ q. l ≤ q.0) (level_slots l cs) × Below l (level_slots l cs)
unfolding level_slots
level_slots-Rising l [] = (tt, tt, tt)
level_slots-Rising l (c ∷ cs) =
    let (r, a, b) = level_slots-Rising l cs in ((a, r), (omega arith, a), (omega arith, b))

Memᴰ-slot_scopes :
    (l : ℕ) {c : List Scope} {s : Scope} (cs : List (List Scope))
    → Memᴰ c cs
    → Memᴰ s c
    → Memᴰ s (slot_scopes (level_slots l cs))
unfolding level_slots
Memᴰ-slot_scopes l cs (Memᴰ.head e) n = Memᴰ-append_left _ (subst (Memᴰ _) e n)
Memᴰ-slot_scopes l (d ∷ cs) (Memᴰ.tail m) n = Memᴰ-append_right d (Memᴰ-slot_scopes l cs m n)

pub level_slots-IsSlot :
    (step : ℕ) (level : Scope → ℕ) (l : ℕ) (cs : List (List Scope))
    → All (FitsIn step) cs
    → ((s : Scope) → Memᴰ s (slot_scopes (level_slots l cs)) → level s ≡ l)
    → All (IsSlot step level) (level_slots l cs)
unfolding level_slots
level_slots-IsSlot step level l [] f u = tt
level_slots-IsSlot step level l (c ∷ cs) f u = (
  record { fits = f.0; uniform = λ s m. u s (Memᴰ-append_left _ m) },
  level_slots-IsSlot step level l cs f.1 (λ s m. u s (Memᴰ-append_right c m)),
)

-- The waves so far are the numbering of slots that hold the scopes of `done`.
pub record Numbers (step : ℕ) (level : Scope → ℕ) (done : List Scope) (waves : List Wave)
    : Type 0 where
  pub slots : List Slot
  pub numbered : waves ≡ number 0 slots
  pub whole : slot_scopes slots ≡ done
  pub valid : All (IsSlot step level) slots
  pub rising : Rising slots
