-- ===== src/EventDays/Range.antt =====
-- The days of an event (eventDays) and the instants of a day (kinshasaDayBounds).
use ticketing_platform.Prelude.{
  arith, includes, max, some, suc, true, zero, ℕ, ◌+◌, ◌<◌, ◌↔◌, ◌≡◌, ◌≤◌,
}
use ticketing_platform.EventDays.{
  days_loop, event_days, kinshasa_day, kinshasa_day_bounds, max_days,
}

-- An instant lies on a day exactly when it lies within the bounds of that day, for a day after
-- the first of 1970.
pub kinshasa_day-bounds :
    (t day : ℕ)
    → 0 < day
    → (kinshasa_day t ≡ day)
      ↔ (((kinshasa_day_bounds day).start ≤ t) × (t < (kinshasa_day_bounds day).end))
unfolding kinshasa_day kinshasa_day_bounds
kinshasa_day-bounds t day h = (λ e. (omega arith, omega arith), λ b. omega arith)

-- `day` stands in the list exactly when it lies between the first and the last day; a range of
-- which the last day comes before the first has the first day only.
days_loop-includes :
    (rounds day last d : ℕ)
    → last < day + rounds
    → 0 < rounds
    → (includes d (days_loop rounds day last) ≡ true) ↔ ((day ≤ d) × (d ≤ max day last))
unfolding days_loop includes
days_loop-includes zero day last d h p = elim p [ ]
days_loop-includes (suc zero) day last d h p = ground arith
days_loop-includes (suc (suc rounds)) day last d h p =
    ground (arith, days_loop-includes (suc rounds) (day + 1) last d)

-- An event of at most 366 days after its first has exactly the days from the first to the last; one
-- whose end comes before its start has its first day only.
pub event_days-includes :
    (start_date end_date d : ℕ)
    → kinshasa_day end_date < kinshasa_day start_date + max_days
    → (includes d (event_days start_date (some end_date)) ≡ true) ↔ (
        (kinshasa_day start_date ≤ d) × (d ≤ max (kinshasa_day start_date) (kinshasa_day end_date)))
unfolding event_days
event_days-includes start_date end_date d h =
    days_loop-includes max_days (kinshasa_day start_date) (kinshasa_day end_date) d h (omega arith)
