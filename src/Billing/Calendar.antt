-- ===== src/Billing/Calendar.antt =====
-- backend/src/billing/pricing.ts, addMonths: instants in UTC by their month (counted from January of
-- the year 0), their day of the month from 1, and their milliseconds in the day.
use ticketing_platform.Prelude.{
  Bool, if◌then◌else◌, leb, ltb, not, ℕ, ◌%◌, ◌&&◌, ◌+◌, ◌-◌, ◌/◌, ◌==◌, ◌||◌,
}

pub record Instant : Type 0 where
  pub month : ℕ
  pub day : ℕ
  pub ms : ℕ

unfoldable pub is_leap : ℕ → Bool
is_leap year = year % 4 == 0 && not (year % 100 == 0) || year % 400 == 0

-- By the month of the year, from 0.
unfoldable pub days_of_year : Bool → ℕ → ℕ
days_of_year leap m =
    if m == 1
    then (if leap then 29 else 28)
    else if m == 3 || m == 5 || m == 8 || m == 10
    then 30
    else 31

unfoldable pub days_in : ℕ → ℕ
days_in month = days_of_year (is_leap (month / 12)) (month % 12)

-- Date.prototype.setUTCMonth: a day that the month does not have runs over into the next one.
unfoldable pub set_month : ℕ → Instant → Instant
set_month month t =
    if leb t.day (days_in month)
    then record t { month = month }
    else record t { month = month + 1; day = t.day - days_in month }

-- Date.prototype.setUTCDate(0): the last day of the month before.
unfoldable pub set_date_zero : Instant → Instant
set_date_zero t = record t { month = t.month - 1; day = days_in (t.month - 1) }

-- addMonths
unfoldable pub add_months : Instant → ℕ → Instant
add_months t months =
    let r = set_month (t.month + months) t in if r.day == t.day then r else set_date_zero r

-- a <= b, of dates
unfoldable pub is_until : Instant → Instant → Bool
is_until a b =
    ltb a.month b.month
    || a.month == b.month && (ltb a.day b.day || a.day == b.day && leb a.ms b.ms)
