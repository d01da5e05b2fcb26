-- ===== src/Tickets/Capacity.antt =====
-- The capacity of an event on each of its days, and the creation of a tariff.
use ticketing_platform.Prelude.{
  ==→eq, >>=-eq-ok, All, Bool-cases, List, Option-cases, Result, [], ap, arith, err, find,
  find_same, if◌then◌else◌, inl, inr, keep, ok, ok-injective, some, subst, sym, true, ℕ, ◌++◌, ◌==◌,
  ◌∙◌, ◌∷◌, ◌≡◌, ◌≤◌,
}
use ticketing_platform.Access.{AccessError, Event, Role, assert_owner, event_keyed}
use ticketing_platform.EventDays.{
  EventDaysError, assert_capacity_per_day, normalize_valid_days, seats_on,
}
use ticketing_platform.EventDays.Capacity.{assert_capacity_per_day-fits}
use ticketing_platform.Tickets.{Template, Ticketing, template_keyed, ticket_keyed}
use ticketing_platform.Tickets.Tariffs.{
  CreateTariff, create_tariff, days_of, lift_access, lift_days, new_tariff, tariff_of, tariffs_of,
}

-- On each day of the event, its tariffs that are valid that day fit in its capacity.
abbrev pub FitsCapacity : Event → List Template → Type 0
FitsCapacity e templates =
    All (λ day. seats_on day (tariffs_of e.id templates) ≤ e.total_capacity) (days_of e)

-- So do those of every event.
abbrev pub AllFit : Ticketing → Type 0
AllFit s = (e : Event) → find e.id s.events ≡ some e → FitsCapacity e s.templates

lift_access-ok {ℓ} :
    {A : Type ℓ} (r : Result AccessError A) {a : A} → lift_access r ≡ ok a → r ≡ ok a
unfolding lift_access
lift_access-ok (err e) h = cc
lift_access-ok (ok a) h = cc

pub lift_days-ok {ℓ} :
    {A : Type ℓ} (r : Result EventDaysError A) {a : A} → lift_days r ≡ ok a → r ≡ ok a
unfolding lift_days
lift_days-ok (err e) h = cc
lift_days-ok (ok a) h = cc

tariffs_of-append :
    (event_id : ℕ) (templates : List Template) (t : Template)
    → tariffs_of event_id (templates ++ t ∷ []) ≡ (
        if t.event_id == event_id
        then tariffs_of event_id templates ++ tariff_of t ∷ []
        else tariffs_of event_id templates)
unfolding tariffs_of keep
tariffs_of-append event_id [] t = ground arith
tariffs_of-append event_id (x ∷ xs) t = ground (arith, tariffs_of-append event_id xs t)

pub assert_owner-ok :
    (events : List Event) (event_id user_id : ℕ) (role : Role) {e : Event}
    → assert_owner events event_id user_id role ≡ ok e
    → find event_id events ≡ some e
unfolding assert_owner
assert_owner-ok events event_id user_id role h = ground (arith, Option-cases (find event_id events))

-- A new tariff leaves the other events alone.
added-FitsCapacity :
    (e : Event) (templates : List Template) (t : Template)
    → ((t.event_id == e.id) ≡ true
        → All
            (λ day.
              seats_on day (tariffs_of t.event_id templates ++ tariff_of t ∷ []) ≤ e.total_capacity)
            (days_of e))
    → FitsCapacity e templates
    → FitsCapacity e (templates ++ t ∷ [])
added-FitsCapacity e templates t own fit = elim (Bool-cases (t.event_id == e.id)) [
  | inl b ↦
      subst (λ ts. All (λ day. seats_on day ts ≤ e.total_capacity) (days_of e))
        (ap (λ k. tariffs_of k templates ++ tariff_of t ∷ []) (==→eq t.event_id e.id b)
          ∙ sym (
              tariffs_of-append e.id templates t
              ∙ ap
                  (λ c.
                    if c
                    then tariffs_of e.id templates ++ tariff_of t ∷ []
                    else tariffs_of e.id templates)
                  b))
        (own b)
  | inr b ↦
      subst (λ ts. All (λ day. seats_on day ts ≤ e.total_capacity) (days_of e))
        (sym (
          tariffs_of-append e.id templates t
          ∙ ap
              (λ c.
                if c
                then tariffs_of e.id templates ++ tariff_of t ∷ []
                else tariffs_of e.id templates)
              b))
        fit
]

-- If the tariffs of every event fit in its capacity on each of its days, they still do after the
-- creation of a tariff that goes through.
pub create_tariff-AllFit :
    (id event_id organizer_id : ℕ) (role : Role) (dto : CreateTariff) (s : Ticketing)
    {after : Ticketing}
    → create_tariff id event_id organizer_id role dto s ≡ ok after
    → AllFit s
    → AllFit after
unfolding create_tariff
create_tariff-AllFit id event_id organizer_id role dto s h fit =
    let (event, owned, h1) =
      >>=-eq-ok (lift_access (assert_owner s.events event_id organizer_id role)) _ h in
    let (valid_days, normal, h2) =
      >>=-eq-ok (lift_days (normalize_valid_days dto.valid_days (days_of event))) _ h1 in
    let (_, fits, h3) =
      >>=-eq-ok
        (lift_days (
          assert_capacity_per_day
            (tariffs_of event_id s.templates
              ++ record { quantity = dto.quantity; valid_days = valid_days } ∷ [])
            (days_of event) event.total_capacity))
        _ h2 in
    let found = assert_owner-ok s.events event_id organizer_id role (lift_access-ok _ owned) in
    let all_days =
      (assert_capacity_per_day-fits _ (days_of event) event.total_capacity).0
        (lift_days-ok _ fits) in
    let event_found : (e : Event) → find e.id s.events ≡ some e → event_id ≡ e.id → event ≡ e =
      λ e here same.
        find_same event_id s.events found (subst (λ k. find k s.events ≡ some e) (sym same) here) in
    rw (← ok-injective h3) (λ e here.
      added-FitsCapacity e s.templates (new_tariff id event_id dto valid_days)
        (λ own.
          subst
            (λ x.
              All
                (λ day.
                  seats_on day (
                    tariffs_of event_id s.templates
                    ++ record { quantity = dto.quantity; valid_days = valid_days } ∷ [])
                  ≤ x.total_capacity)
                (days_of x))
            (event_found e here (==→eq event_id e.id own)) all_days)
        (fit e here))
