-- ===== src/Examples/Tariffs.antt =====
-- An event of one day and of ten seats, and its tariffs.
use ticketing_platform.Prelude.{
  Bool-cases, Distinct, List, [], arith, find, if◌then◌else◌, inl, inr, keep, none, ok, refl, some,
  subst, sum_by, update, ℕ, ◌==◌, ◌∷◌, ◌≡◌,
}
use ticketing_platform.Access.{Event, assert_owner, event_keyed, is_admin, organizer, published}
use ticketing_platform.Pricing.{FeePayer}
use ticketing_platform.EventDays.{
  assert_capacity_per_day, days_loop, event_days, kinshasa_day, normalize_valid_days, seats_on,
  valid_on,
}
use ticketing_platform.Tickets.{Template, Ticketing, template_keyed, ticket_keyed}
use ticketing_platform.Tickets.Tariffs.{
  CreateTariff, TariffChange, changed_days, changed_quantity, check_change, create_tariff, days_of,
  lift_access, lift_days, may_change, same_days, tariffs_of, update_tariff, usd,
}
use ticketing_platform.Tickets.Capacity.{AllFit, FitsCapacity, create_tariff-AllFit}
use ticketing_platform.Tickets.Changes.{update_tariff-AllFit}

abbrev concert : Event
concert = record {
  id = 7;
  organizer_id = 1;
  status = published;
  start_date = 1000;
  end_date = 2000;
  total_capacity = 10;
  fee_payer = FeePayer.buyer;
  merch_delivery_fee = none;
}

abbrev standard : ℕ → ℕ → Template
standard quantity available_count = record {
  id = 20;
  event_id = 7;
  price = 1500;
  currency = usd;
  quantity = quantity;
  available_count = available_count;
  valid_days = [];
}

abbrev planning : List Template → Ticketing
planning templates = record {
  events = concert ∷ [];
  templates = templates;
  tickets = [];
  accounts = [];
}

only_concert : (e : Event) → find e.id (concert ∷ []) ≡ some e → concert ≡ e
unfolding find
only_concert e h = elim (Bool-cases (7 == e.id)) [
  | inl b ↦ let found = subst (λ c. (if c then some concert else none) ≡ some e) b h in cc
  | inr b ↦ let missing = subst (λ c. (if c then some concert else none) ≡ some e) b h in cc
]

all_fit : (templates : List Template) → FitsCapacity concert templates → AllFit (planning templates)
all_fit templates fit e h = subst (λ x. FitsCapacity x templates) (only_concert e h) fit

abbrev eight_seats : CreateTariff
eight_seats = record { price = 1500; currency = none; quantity = 8; valid_days = none }

created :
    create_tariff 20 7 1 organizer eight_seats (planning []) ≡ ok (planning (standard 8 8 ∷ []))
unfolding create_tariff lift_access assert_owner is_admin lift_days normalize_valid_days
    assert_capacity_per_day tariffs_of keep days_of event_days days_loop kinshasa_day seats_on
    valid_on sum_by find
created = refl

nothing_fits : FitsCapacity concert []
unfolding tariffs_of keep days_of event_days days_loop kinshasa_day seats_on sum_by
nothing_fits = (omega arith, tt)

create_tariff-AllFit_example : AllFit (planning (standard 8 8 ∷ []))
create_tariff-AllFit_example =
    create_tariff-AllFit 20 7 1 organizer eight_seats (planning []) created
      (all_fit [] nothing_fits)

-- Two seats are sold, and the tariff is cut to five seats.
abbrev to_five : TariffChange
to_five = record { price = none; currency = none; quantity = some 5; valid_days = none }

changed :
    update_tariff 20 1 organizer to_five (planning (standard 8 6 ∷ []))
    ≡ ok (planning (standard 5 3 ∷ []))
unfolding update_tariff may_change is_admin changed_days changed_quantity check_change same_days
    lift_days assert_capacity_per_day tariffs_of keep days_of event_days days_loop kinshasa_day
    seats_on valid_on sum_by find update
changed = refl

eight_fit : FitsCapacity concert (standard 8 6 ∷ [])
unfolding tariffs_of keep days_of event_days days_loop kinshasa_day seats_on valid_on sum_by
eight_fit = (omega arith, tt)

one_tariff : Distinct (standard 8 6 ∷ [])
unfolding find
one_tariff = (refl, tt)

update_tariff-AllFit_example : AllFit (planning (standard 5 3 ∷ []))
update_tariff-AllFit_example =
    update_tariff-AllFit 20 1 organizer to_five (planning (standard 8 6 ∷ [])) one_tariff changed
      (all_fit (standard 8 6 ∷ []) eight_fit)
