-- ===== src/EventDays/Capacity.antt =====
-- The seats of each day (assertCapacityPerDay).
use ticketing_platform.EventDays.{Tariff, assert_capacity_per_day, seats_on, valid_on}
use ticketing_platform.Prelude.{
  All, Bool-cases, List, [], arith, includes, inl, inr, keep, ok, refl, sum_by, true, ℕ, ◌+◌, ◌↔◌,
  ◌∷◌, ◌≡◌, ◌≤◌, ◌⊎◌,
}

-- A tariff without days lets in on every day, another one on its days.
abbrev pub LetsInOn : ℕ → Tariff → Type 0
LetsInOn day t = (t.valid_days ≡ []) ⊎ (includes day t.valid_days ≡ true)

-- The tariffs that let in on a day have so many seats together.
pub data SeatsOn (day : ℕ) : List Tariff → ℕ → Type 0 where
  nobody : SeatsOn day [] 0
  counted :
      {ts : List Tariff} {n : ℕ} (t : Tariff)
      → LetsInOn day t
      → SeatsOn day ts n
      → SeatsOn day (t ∷ ts) (t.quantity + n)
  passed_over :
      {ts : List Tariff} {n : ℕ} (t : Tariff)
      → ¬ LetsInOn day t
      → SeatsOn day ts n
      → SeatsOn day (t ∷ ts) n

valid_on-LetsInOn : (day : ℕ) (t : Tariff) → LetsInOn day t → valid_on day t ≡ true
unfolding valid_on
valid_on-LetsInOn day t = go t.valid_days t.valid_days
  where
    go :
        (days given : List ℕ)
        → (days ≡ []) ⊎ (includes day given ≡ true)
        → elim days [ [] ↦ true | _ ∷ _ ↦ includes day given ] ≡ true
    go [] given h = refl
    go (d ∷ ds) given (inl none_given) = cc
    go (d ∷ ds) given (inr listed) = listed

LetsInOn-valid_on : (day : ℕ) (t : Tariff) → valid_on day t ≡ true → LetsInOn day t
unfolding valid_on
LetsInOn-valid_on day t = go t.valid_days t.valid_days
  where
    go :
        (days given : List ℕ)
        → elim days [ [] ↦ true | _ ∷ _ ↦ includes day given ] ≡ true
        → (days ≡ []) ⊎ (includes day given ≡ true)
    go [] given h = inl refl
    go (d ∷ ds) given h = inr h

seats_on-SeatsOn : (day : ℕ) (ts : List Tariff) → SeatsOn day ts (seats_on day ts)
unfolding seats_on sum_by keep
seats_on-SeatsOn day [] = nobody
seats_on-SeatsOn day (t ∷ ts) = elim (Bool-cases (valid_on day t)) [
  | inl valid ↦ rw valid (counted t (LetsInOn-valid_on day t valid) (seats_on-SeatsOn day ts))
  | inr not_valid ↦ rw not_valid (
      passed_over t (λ lets. ground (arith, not_valid, valid_on-LetsInOn day t lets))
        (seats_on-SeatsOn day ts))
]

SeatsOn-seats_on : (day : ℕ) {ts : List Tariff} {n : ℕ} → SeatsOn day ts n → seats_on day ts ≡ n
unfolding seats_on sum_by keep
SeatsOn-seats_on day nobody = refl
SeatsOn-seats_on day (counted t lets s) =
    rw (valid_on-LetsInOn day t lets) (omega (arith, SeatsOn-seats_on day s))
SeatsOn-seats_on day (passed_over t bars s) = elim (Bool-cases (valid_on day t)) [
  | inl valid ↦ absurd (bars (LetsInOn-valid_on day t valid))
  | inr not_valid ↦ rw not_valid (SeatsOn-seats_on day s)
]

pub assert_capacity_per_day-fits :
    (tariffs : List Tariff) (days : List ℕ) (capacity : ℕ)
    → (assert_capacity_per_day tariffs days capacity ≡ ok tt)
      ↔ All (λ day. seats_on day tariffs ≤ capacity) days
unfolding assert_capacity_per_day
assert_capacity_per_day-fits tariffs [] capacity = (λ _. tt, λ _. refl)
assert_capacity_per_day-fits tariffs (day ∷ days) capacity =
    ground (arith, assert_capacity_per_day-fits tariffs days capacity)

-- The seats of a day fit where, however they are counted, they are no more than the capacity.
abbrev pub FitsOn : ℕ → List Tariff → ℕ → Type 0
FitsOn capacity ts day = (n : ℕ) → SeatsOn day ts n → n ≤ capacity

fits-FitsOn :
    (capacity : ℕ) (ts : List Tariff) (day : ℕ)
    → seats_on day ts ≤ capacity
    → FitsOn capacity ts day
fits-FitsOn capacity ts day h n s = omega (arith, SeatsOn-seats_on day s, h)

FitsOn-fits :
    (capacity : ℕ) (ts : List Tariff) (day : ℕ)
    → FitsOn capacity ts day
    → seats_on day ts ≤ capacity
FitsOn-fits capacity ts day h = h (seats_on day ts) (seats_on-SeatsOn day ts)

All-map :
    {P Q : ℕ → Type 0} → ((day : ℕ) → P day → Q day) → (days : List ℕ) → All P days → All Q days
All-map f [] h = tt
All-map f (day ∷ days) h = (f day h.0, All-map f days h.1)

-- The tariffs pass exactly when, on each day, those that let in on it, the tariffs without days and
-- those that have the day, offer no more seats together than the capacity.
pub assert_capacity_per_day-FitsOn :
    (tariffs : List Tariff) (days : List ℕ) (capacity : ℕ)
    → (assert_capacity_per_day tariffs days capacity ≡ ok tt) ↔ All (FitsOn capacity tariffs) days
assert_capacity_per_day-FitsOn tariffs days capacity =
    let (forth, back) = assert_capacity_per_day-fits tariffs days capacity in
    (
      λ h. All-map (fits-FitsOn capacity tariffs) days (forth h),
      λ fits. back (All-map (FitsOn-fits capacity tariffs) days fits),
    )
