-- ===== src/Billing/Months.antt =====
-- The addition of months to a date, and the order of dates.
use ticketing_platform.Billing.Calendar.{
  Instant, add_months, days_in, days_of_year, is_leap, set_date_zero, set_month,
}
use ticketing_platform.Prelude.{Bool, arith, min, ℕ, ◌%◌, ◌+◌, ◌/◌, ◌≡◌, ◌≤◌}

days_of_year-bounds :
    (leap : Bool) (m : ℕ) → (28 ≤ days_of_year leap m) × (days_of_year leap m ≤ 31)
unfolding days_of_year
days_of_year-bounds leap m = ground arith

pub days_in-bounds : (m : ℕ) → (28 ≤ days_in m) × (days_in m ≤ 31)
unfolding days_in
days_in-bounds m = days_of_year-bounds (is_leap (m / 12)) (m % 12)

-- A date of the calendar.
abbrev pub IsDate : Instant → Type 0
IsDate t = (1 ≤ t.day) × (t.day ≤ days_in t.month)

-- The addition of months to a date keeps the time of day and the day of the month, or takes the last
-- day of the month where the month is too short; it gives a date of the calendar.
pub add_months-clamps :
    (t : Instant) (months : ℕ)
    → IsDate t
    → (add_months t months ≡ record {
      month = t.month + months;
      day = min t.day (days_in (t.month + months));
      ms = t.ms;
    })
      × IsDate (add_months t months)
unfolding add_months set_month set_date_zero
add_months-clamps t months (first, last) =
    ground (arith, days_in-bounds (t.month + months), days_in-bounds t.month)

pub add_months_lem :
    (t : Instant) (months : ℕ)
    → IsDate t
    → add_months t months
      ≡ record { month = t.month + months; day = min t.day (days_in (t.month + months)); ms = t.ms }
add_months_lem t months h = (add_months-clamps t months h).0
