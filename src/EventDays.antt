-- ===== src/EventDays.antt =====
-- backend/src/tickets/event-days.ts: the days of an event, the validity days of its tariffs and
-- the capacity of each day.
-- An instant is a number of milliseconds since 1970. A calendar day 'YYYY-MM-DD' is the number of
-- days since 1970: the source only compares, collects and counts these strings, and their order is
-- that of the numbers. The French labels are not modelled.
pub mod Range
pub mod Normal
pub mod Capacity
use ticketing_platform.Prelude.{
  Bool, List, Option, Result, [], err, if◌then◌else◌, includes, keep, leb, ltb, none, not, ok, some,
  suc, sum_by, true, zero, ℕ, ◌*◌, ◌+◌, ◌-◌, ◌/◌, ◌==◌, ◌||◌, ◌∷◌,
}

abbrev pub kinshasa_offset_ms : ℕ
kinshasa_offset_ms = 3600000

abbrev pub day_ms : ℕ
day_ms = 86400000

unfoldable pub kinshasa_day : ℕ → ℕ
kinshasa_day d = (d + kinshasa_offset_ms) / day_ms

pub record Bounds : Type 0 where
  pub start : ℕ
  pub end : ℕ

-- The first day of 1970 would start before the instant 0: it is not among the program's dates.
unfoldable pub kinshasa_day_bounds : ℕ → Bounds
kinshasa_day_bounds day = record {
  start = day * day_ms - kinshasa_offset_ms;
  end = day * day_ms - kinshasa_offset_ms + day_ms;
}

-- The loop of eventDays with the rounds that are left: `days.length > 366` holds after the push
-- of the last one.
unfoldable pub days_loop : ℕ → ℕ → ℕ → List ℕ
days_loop zero day last = []
days_loop (suc rounds) day last =
    let rest = days_loop rounds (day + 1) last in
    day ∷ (if leb last day || rounds == 0 then [] else rest)

abbrev pub max_days : ℕ
max_days = 367

unfoldable pub event_days : ℕ → Option ℕ → List ℕ
event_days start_date end_date =
    days_loop max_days (kinshasa_day start_date)
      (kinshasa_day (elim end_date [ none ↦ start_date | some e ↦ e ]))

-- `[...new Set(days)].sort()`: the days in rising order, each once.
unfoldable pub insert_day : ℕ → List ℕ → List ℕ
insert_day d [] = d ∷ []
insert_day d (x ∷ xs) =
    if ltb d x then d ∷ x ∷ xs else if d == x then x ∷ xs else x ∷ insert_day d xs

unfoldable pub sorted_set : List ℕ → List ℕ
sorted_set [] = []
sorted_set (d ∷ ds) = insert_day d (sorted_set ds)

pub data EventDaysError : Type 0 where
  -- The days that lie outside the event.
  outside_event : List ℕ → EventDaysError
  -- The day that is too full, and how many seats the tariffs put on it.
  over_capacity : ℕ → ℕ → EventDaysError

unfoldable pub outside : List ℕ → List ℕ → List ℕ
unfolding keep
outside allowed = keep (λ d. not (includes d allowed))

unfoldable pub refuse_outside : List ℕ → List ℕ → Result EventDaysError (List ℕ)
refuse_outside clean [] = ok clean
refuse_outside clean (d ∷ ds) = err (outside_event (d ∷ ds))

-- `none` is null or undefined.
unfoldable pub normalize_valid_days : Option (List ℕ) → List ℕ → Result EventDaysError (List ℕ)
unfolding refuse_outside outside
normalize_valid_days none allowed = ok []
normalize_valid_days (some []) allowed = ok []
normalize_valid_days (some (d ∷ ds)) allowed =
    refuse_outside (sorted_set (d ∷ ds)) (outside allowed (sorted_set (d ∷ ds)))

pub record Tariff : Type 0 where
  pub quantity : ℕ
  pub valid_days : List ℕ

-- A tariff without days is valid every day.
unfoldable pub valid_on : ℕ → Tariff → Bool
valid_on day t = elim t.valid_days [ [] ↦ true | _ ∷ _ ↦ includes day t.valid_days ]

unfoldable pub seats_on : ℕ → List Tariff → ℕ
unfolding keep sum_by
seats_on day tariffs = sum_by (λ t. t.quantity) (keep (valid_on day) tariffs)

unfoldable pub assert_capacity_per_day : List Tariff → List ℕ → ℕ → Result EventDaysError (Unit {0})
assert_capacity_per_day tariffs [] capacity = ok tt
assert_capacity_per_day tariffs (day ∷ days) capacity =
    let rest = assert_capacity_per_day tariffs days capacity in
    if ltb capacity (seats_on day tariffs)
    then err (over_capacity day (seats_on day tariffs))
    else rest
