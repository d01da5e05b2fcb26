-- ===== src/Examples/Days.antt =====
-- The days of a festival from Friday 2026-10-09 to Sunday 2026-10-11 (the days 20735 to 20737).
use ticketing_platform.Prelude.{
  All, List, [], arith, err, false, includes, keep, max, ok, refl, some, true, ℕ, ◌*◌, ◌+◌, ◌<◌,
  ◌↔◌, ◌∷◌, ◌≡◌, ◌≤◌,
}
use ticketing_platform.EventDays.{
  Tariff, assert_capacity_per_day, day_ms, days_loop, event_days, insert_day, kinshasa_day,
  kinshasa_day_bounds, max_days, normalize_valid_days, outside, outside_event, refuse_outside,
  sorted_set,
}
use ticketing_platform.EventDays.Range.{event_days-includes, kinshasa_day-bounds}
use ticketing_platform.EventDays.Normal.{
  IsRising, normalize_valid_days-err, normalize_valid_days-ok,
}
use ticketing_platform.EventDays.Capacity.{FitsOn, assert_capacity_per_day-FitsOn}

abbrev opens : ℕ
opens = 20735 * day_ms + 50000000

abbrev closes : ℕ
closes = 20737 * day_ms + 70000000

festival : event_days opens (some closes) ≡ 20735 ∷ 20736 ∷ 20737 ∷ []
unfolding event_days days_loop kinshasa_day
festival = refl

abbrev festival_days : List ℕ
festival_days = 20735 ∷ 20736 ∷ 20737 ∷ []

kinshasa_day-bounds_example :
    (kinshasa_day opens ≡ 20735)
    ↔ (((kinshasa_day_bounds 20735).start ≤ opens) × (opens < (kinshasa_day_bounds 20735).end))
kinshasa_day-bounds_example = kinshasa_day-bounds opens 20735 (omega arith)

short_festival : kinshasa_day closes < kinshasa_day opens + max_days
unfolding kinshasa_day
short_festival = omega arith

event_days-includes_example :
    (includes 20736 (event_days opens (some closes)) ≡ true)
    ↔ ((kinshasa_day opens ≤ 20736) × (20736 ≤ max (kinshasa_day opens) (kinshasa_day closes)))
event_days-includes_example = event_days-includes opens closes 20736 short_festival

weekend :
    normalize_valid_days (some (20737 ∷ 20736 ∷ 20737 ∷ [])) festival_days ≡ ok (20736 ∷ 20737 ∷ [])
unfolding normalize_valid_days refuse_outside outside sorted_set insert_day keep includes
weekend = refl

normalize_valid_days-ok_example :
    IsRising 0 (20736 ∷ 20737 ∷ [])
    × All (λ d. includes d festival_days ≡ true) (20736 ∷ 20737 ∷ [])
    × ((d : ℕ) → includes d (20736 ∷ 20737 ∷ []) ≡ includes d (20737 ∷ 20736 ∷ 20737 ∷ []))
normalize_valid_days-ok_example =
    normalize_valid_days-ok (20737 ∷ 20736 ∷ 20737 ∷ []) festival_days weekend

too_late :
    normalize_valid_days (some (20738 ∷ 20736 ∷ [])) festival_days
    ≡ err (outside_event (20738 ∷ []))
unfolding normalize_valid_days refuse_outside outside sorted_set insert_day keep includes
too_late = refl

normalize_valid_days-err_example :
    (o : ℕ) × (os : List ℕ) × (outside_event (20738 ∷ []) ≡ outside_event (o ∷ os))
    × (includes o (20738 ∷ 20736 ∷ []) ≡ true)
    × (includes o festival_days ≡ false)
normalize_valid_days-err_example =
    normalize_valid_days-err (20738 ∷ 20736 ∷ []) festival_days too_late

abbrev tariffs : List Tariff
tariffs =
    record { quantity = 100; valid_days = [] }
    ∷ record { quantity = 50; valid_days = 20736 ∷ [] }
    ∷ []

assert_capacity_per_day-FitsOn_example :
    (assert_capacity_per_day tariffs festival_days 150 ≡ ok tt)
    ↔ All (FitsOn 150 tariffs) festival_days
assert_capacity_per_day-FitsOn_example = assert_capacity_per_day-FitsOn tariffs festival_days 150
