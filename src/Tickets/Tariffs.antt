-- ===== src/Tickets/Tariffs.antt =====
-- backend/src/tickets/ticket-template.service.ts: the tariffs of an event. Names, colours and
-- images are not modelled, nor the touch of the tickets' update time and the cache.
use ticketing_platform.Prelude.{
  Bool, List, Option, Result, [], count_where, err, false, find, guard, if◌then◌else◌, keep, map,
  none, not, ok, or_throw, some, true, update, ℕ, ◌&&◌, ◌++◌, ◌+◌, ◌-◌, ◌==◌, ◌>>=◌, ◌>>◌, ◌||◌,
  ◌∷◌,
}
use ticketing_platform.Access.{
  AccessError, Event, Role, access_denied, assert_owner, event_keyed, event_not_found, is_admin,
}
use ticketing_platform.Pricing.{Currency, other}
use ticketing_platform.EventDays.{
  EventDaysError, Tariff, assert_capacity_per_day, event_days, normalize_valid_days,
}
use ticketing_platform.Tickets.{Template, Ticketing, template_keyed, ticket_keyed}

-- What create is given. `none` is an absent field.
pub record CreateTariff : Type 0 where
  pub price : ℕ
  pub currency : Option Currency
  pub quantity : ℕ
  pub valid_days : Option (List ℕ)

-- What update is given: any of the fields.
pub record TariffChange : Type 0 where
  pub price : Option ℕ
  pub currency : Option Currency
  pub quantity : Option ℕ
  pub valid_days : Option (List ℕ)

pub data TariffError : Type 0 where
  access : AccessError → TariffError
  days : EventDaysError → TariffError
  tariff_not_found has_tickets being_paid : TariffError

unfoldable pub lift_access {ℓ} : {A : Type ℓ} → Result AccessError A → Result TariffError A
lift_access (err e) = err (access e)
lift_access (ok a) = ok a

unfoldable pub lift_days {ℓ} : {A : Type ℓ} → Result EventDaysError A → Result TariffError A
lift_days (err e) = err (days e)
lift_days (ok a) = ok a

unfoldable pub days_of : Event → List ℕ
days_of e = event_days e.start_date (some e.end_date)

abbrev pub tariff_of : Template → Tariff
tariff_of t = record { quantity = t.quantity; valid_days = t.valid_days }

-- findMany({ where: { eventId }, select: { quantity, validDays } })
unfoldable pub tariffs_of : ℕ → List Template → List Tariff
tariffs_of event_id templates = map tariff_of (keep (λ t. t.event_id == event_id) templates)

-- The code number of the US dollar.
abbrev pub usd : Currency
usd = other 840

abbrev pub new_tariff : ℕ → ℕ → CreateTariff → List ℕ → Template
new_tariff id event_id dto valid_days = record {
  id = id;
  event_id = event_id;
  price = dto.price;
  currency = elim dto.currency [ none ↦ usd | some c ↦ c ];
  quantity = dto.quantity;
  available_count = dto.quantity;
  valid_days = valid_days;
}

-- create; `id` is the identifier that the database gives to the new row.
unfoldable pub create_tariff :
    ℕ → ℕ → ℕ → Role → CreateTariff → Ticketing → Result TariffError Ticketing
create_tariff id event_id organizer_id role dto s = do
  event ← lift_access (assert_owner s.events event_id organizer_id role)
  valid_days ← lift_days (normalize_valid_days dto.valid_days (days_of event))
  let tariff : Tariff = record { quantity = dto.quantity; valid_days = valid_days }
  lift_days (
      assert_capacity_per_day (tariffs_of event_id s.templates ++ tariff ∷ []) (days_of event)
        event.total_capacity)
  ok (record s { templates = s.templates ++ new_tariff id event_id dto valid_days ∷ [] })

-- The owner check on the event of a tariff.
unfoldable pub may_change : List Event → ℕ → Role → Template → Result TariffError Event
may_change events organizer_id role t = do
  event ← or_throw (find t.event_id events) (access event_not_found)
  guard (is_admin role || event.organizer_id == organizer_id) (access access_denied)
  ok event

-- validDays.join() === template.validDays.join()
unfoldable pub same_days : List ℕ → List ℕ → Bool
same_days [] [] = true
same_days (a ∷ xs) (b ∷ ys) = a == b && same_days xs ys
same_days _ _ = false

unfoldable pub changed_days : TariffChange → Template → Event → Result TariffError (List ℕ)
changed_days dto t event = elim dto.valid_days [
  | none ↦ ok t.valid_days
  | some ds ↦ lift_days (normalize_valid_days (some ds) (days_of event))
]

-- dto.quantity || template.quantity: a quantity of 0 is as an absent one.
unfoldable pub changed_quantity : TariffChange → Template → ℕ
changed_quantity dto t = elim dto.quantity [
  | none ↦ t.quantity
  | some q ↦ if q == 0 then t.quantity else q
]

-- The capacity is checked only if the quantity or the days change.
unfoldable pub check_change :
    ℕ → Template → ℕ → List ℕ → Event → List Template → Result TariffError (Unit {0})
check_change template_id t quantity valid_days event templates =
    if quantity == t.quantity && same_days valid_days t.valid_days
    then ok tt
    else lift_days (
        assert_capacity_per_day
          (tariffs_of t.event_id (keep (λ x. not (x.id == template_id)) templates)
            ++ record { quantity = quantity; valid_days = valid_days } ∷ [])
          (days_of event) event.total_capacity)

-- Both updates of the row. Math.max(0, quantity - (old quantity - available)), where the seats that
-- are left are those of the new quantity less the ones that are gone.
abbrev pub change_tariff : TariffChange → ℕ → List ℕ → Template → Template
change_tariff dto quantity valid_days t = record t {
  price = elim dto.price [ none ↦ t.price | some p ↦ p ];
  currency = elim dto.currency [ none ↦ t.currency | some c ↦ c ];
  quantity = quantity;
  available_count =
      if quantity == t.quantity
      then t.available_count
      else (quantity + t.available_count) - t.quantity;
  valid_days = valid_days;
}

-- `update` when no other request comes between its reads and its writes.
unfoldable pub update_tariff :
    ℕ → ℕ → Role → TariffChange → Ticketing → Result TariffError Ticketing
update_tariff template_id organizer_id role dto s = do
  t ← or_throw (find template_id s.templates) tariff_not_found
  event ← may_change s.events organizer_id role t
  valid_days ← changed_days dto t event
  check_change template_id t (changed_quantity dto t) valid_days event s.templates
  ok (record s {
    templates =
        update template_id (change_tariff dto (changed_quantity dto t) valid_days) s.templates;
  })

-- `paying` is the number of payments under way for the tariff.
unfoldable pub delete_tariff : ℕ → ℕ → Role → ℕ → Ticketing → Result TariffError Ticketing
delete_tariff template_id organizer_id role paying s = do
  t ← or_throw (find template_id s.templates) tariff_not_found
  may_change s.events organizer_id role t
  guard (count_where (λ x. x.template_id == template_id) s.tickets == 0) has_tickets
  guard (paying == 0) being_paid
  ok (record s { templates = keep (λ x. not (x.id == template_id)) s.templates })
