-- ===== src/Billing/Periods.antt =====
-- The month of a subscription that an instant is in.
use ticketing_platform.Billing.Months.{IsDate, add_months_lem}
use ticketing_platform.Billing.Plans.{
  Subscription, count_months, max_months, months_since, period_start,
}
use ticketing_platform.Billing.Calendar.{Instant, add_months, is_until}
use ticketing_platform.Prelude.{
  Bool-cases, ap, arith, false, inl, inr, subst, suc, true, zero, ℕ, ◌+◌, ◌∙◌, ◌≡◌, ◌⊎◌,
}

-- The month in which the count of `k` stops: it has begun, and the next has not, or all rounds are used.
abbrev StopsIn : Instant → Instant → ℕ → ℕ → Type 0
StopsIn start now most k =
    (is_until (add_months start k) now ≡ true)
    × ((is_until (add_months start (k + 1)) now ≡ false) ⊎ (k ≡ most))

count_months-StopsIn :
    (start now : Instant) (rounds k : ℕ)
    → is_until (add_months start k) now ≡ true
    → StopsIn start now (k + rounds) (count_months start now rounds k)
unfolding count_months
count_months-StopsIn start now zero k h = (h, inr (omega arith))
count_months-StopsIn start now (suc rounds) k h =
    elim (Bool-cases (is_until (add_months start (k + 1)) now)) [
      | inl begun ↦ rw begun (
          subst (λ n. StopsIn start now n (count_months start now rounds (k + 1))) (omega arith)
            (count_months-StopsIn start now rounds (k + 1) begun))
      | inr later ↦ rw later (h, inl later)
    ]

start-add_months : (t : Instant) → IsDate t → add_months t 0 ≡ t
start-add_months t h = add_months_lem t 0 h ∙ ground arith

-- For a subscription that started on a date of the calendar, up to now, the month that its usage is
-- counted from has begun, and the month after it has not, or 1200 months have passed.
pub period_start-bounds :
    (s : Subscription) (now : Instant)
    → IsDate s.starts_at
    → is_until s.starts_at now ≡ true
    → (is_until (period_start s now) now ≡ true)
      × ((is_until (add_months s.starts_at (months_since s.starts_at now + 1)) now ≡ false)
          ⊎ (months_since s.starts_at now ≡ max_months))
unfolding period_start months_since
period_start-bounds s now date begun =
    count_months-StopsIn s.starts_at now max_months 0
      (ap (λ t. is_until t now) (start-add_months s.starts_at date) ∙ begun)
