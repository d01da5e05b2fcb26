-- ===== src/Tickets/Changes.antt =====
-- The change and the deletion of a tariff, and the capacity of its event.
use ticketing_platform.Tickets.Capacity.{AllFit, FitsCapacity, lift_days-ok}
use ticketing_platform.EventDays.Capacity.{assert_capacity_per_day-fits}
use ticketing_platform.Prelude.{
  ==→eq, >>=-eq-ok, All, Bool-cases, Distinct, List, Option-cases, [], ap, arith, count_where,
  false, find, find_same, guard, if◌then◌else◌, inl, inr, keep, not, ok, ok-injective, or_throw,
  or_throw-eq-ok, refl, some, subst, sym, update, ℕ, ◌&&◌, ◌++◌, ◌==◌, ◌∙◌, ◌∷◌, ◌≡◌, ◌≤◌, ◌⊎◌,
}
use ticketing_platform.Access.{Event, Role, event_keyed}
use ticketing_platform.EventDays.{assert_capacity_per_day, seats_on, valid_on}
use ticketing_platform.Tickets.{Template, Ticketing, template_keyed, ticket_keyed}
use ticketing_platform.Tickets.Tariffs.{
  TariffChange, being_paid, change_tariff, changed_days, changed_quantity, check_change, days_of,
  delete_tariff, has_tickets, lift_days, may_change, same_days, tariff_not_found, tariff_of,
  tariffs_of, update_tariff,
}
use ticketing_platform.Tickets.Weights.{
  All-below, same_days-eq, seats_on-sum, sum_by-keep, update-added, update-same, weight,
}

-- The check of a change that passes, of a row of the event: what it has checked.
check_change-ok :
    (i : ℕ) (t : Template) (quantity : ℕ) (valid_days : List ℕ) (event : Event)
    (rows : List Template)
    → check_change i t quantity valid_days event rows ≡ ok tt
    → ((quantity ≡ t.quantity) × (valid_days ≡ t.valid_days))
      ⊎ All
          (λ day.
            seats_on day (
              tariffs_of t.event_id (keep (λ x. not (x.id == i)) rows)
              ++ record { quantity = quantity; valid_days = valid_days } ∷ [])
            ≤ event.total_capacity)
          (days_of event)
unfolding check_change
check_change-ok i t quantity valid_days event rows h =
    elim (Bool-cases (quantity == t.quantity && same_days valid_days t.valid_days)) [
      | inl same ↦ inl (ground arith, same_days-eq valid_days t.valid_days (ground arith))
      | inr changed ↦ inr (
          (assert_capacity_per_day-fits _ (days_of event) event.total_capacity).0 (
            lift_days-ok _ (
              subst
                (λ b.
                  (if b
                    then ok tt
                    else lift_days (
                        assert_capacity_per_day
                          (tariffs_of t.event_id (keep (λ x. not (x.id == i)) rows)
                            ++ record { quantity = quantity; valid_days = valid_days } ∷ [])
                          (days_of event) event.total_capacity))
                  ≡ ok tt)
                changed h)))
    ]

-- The row of another event, and a row whose seats stay the same.
other-weight :
    (day event_id : ℕ) (t u : Template)
    → u.event_id ≡ t.event_id
    → (t.event_id == event_id) ≡ false
    → weight day event_id u ≡ weight day event_id t
unfolding weight
other-weight day event_id t u same elsewhere = ground arith

same-weight :
    (day event_id : ℕ) (t u : Template)
    → u.event_id ≡ t.event_id
    → u.quantity ≡ t.quantity
    → u.valid_days ≡ t.valid_days
    → weight day event_id u ≡ weight day event_id t
unfolding weight
same-weight day event_id t u e q v =
    let same_tariff : tariff_of u ≡ tariff_of t = cc in
    ground (arith, ap (valid_on day) same_tariff)

changed-FitsCapacity :
    (e event : Event) (i : ℕ) (f : Template → Template) (rows : List Template) (t : Template)
    → Distinct rows
    → find i rows ≡ some t
    → (f t).event_id ≡ t.event_id
    → (t.event_id ≡ e.id → event ≡ e)
    → check_change i t (f t).quantity (f t).valid_days event rows ≡ ok tt
    → FitsCapacity e rows
    → FitsCapacity e (update i f rows)
changed-FitsCapacity e event i f rows t d found same_event own checked fit =
    elim (Bool-cases (t.event_id == e.id)) [
      | inr elsewhere ↦
          All-below (λ day. seats_on day (tariffs_of e.id rows)) _ e.total_capacity (days_of e)
            (λ day.
              update-same day e.id i f rows found
                (other-weight day e.id t (f t) same_event elsewhere))
            fit
      | inl mine ↦ elim (check_change-ok i t (f t).quantity (f t).valid_days event rows checked) [
        | inl (q, v) ↦
            All-below (λ day. seats_on day (tariffs_of e.id rows)) _ e.total_capacity (days_of e)
              (λ day.
                update-same day e.id i f rows found (same-weight day e.id t (f t) same_event q v))
              fit
        | inr fits ↦
            let at_event = ==→eq t.event_id e.id mine in
            let fits_event =
              subst (λ k. All (λ day. checked_seats day k ≤ event.total_capacity) (days_of event))
                at_event fits in
            let fits_e =
              subst (λ x. All (λ day. checked_seats day e.id ≤ x.total_capacity) (days_of x))
                (own at_event) fits_event in
            All-below (λ day. checked_seats day e.id) _ e.total_capacity (days_of e)
              (λ day.
                subst (λ k. seats_on day (tariffs_of k (update i f rows)) ≤ checked_seats day k)
                  (same_event ∙ at_event) (update-added day i f rows d found))
              fits_e
      ]
    ]
  where
    checked_seats : ℕ → ℕ → ℕ
    checked_seats day k = seats_on day (
        tariffs_of k (keep (λ x. not (x.id == i)) rows)
        ++ record { quantity = (f t).quantity; valid_days = (f t).valid_days } ∷ [])

may_change-ok :
    (events : List Event) (organizer_id : ℕ) (role : Role) (t : Template) {e : Event}
    → may_change events organizer_id role t ≡ ok e
    → find t.event_id events ≡ some e
unfolding may_change
may_change-ok events organizer_id role t h = ground (arith, Option-cases (find t.event_id events))

-- If the tariffs have distinct identifiers, and those of every event fit in its capacity on each of
-- its days, they still do after the change of a tariff that goes through.
pub update_tariff-AllFit :
    (template_id organizer_id : ℕ) (role : Role) (dto : TariffChange) (s : Ticketing)
    {after : Ticketing}
    → Distinct s.templates
    → update_tariff template_id organizer_id role dto s ≡ ok after
    → AllFit s
    → AllFit after
unfolding update_tariff
update_tariff-AllFit template_id organizer_id role dto s d h fit =
    let (t, found, h1) = >>=-eq-ok (or_throw (find template_id s.templates) tariff_not_found) _ h in
    let (event, owned, h2) = >>=-eq-ok (may_change s.events organizer_id role t) _ h1 in
    let (valid_days, normal, h3) = >>=-eq-ok (changed_days dto t event) _ h2 in
    let (_, checked, h4) =
      >>=-eq-ok (check_change template_id t (changed_quantity dto t) valid_days event s.templates) _
        h3 in
    rw (← ok-injective h4) (λ e here.
      changed-FitsCapacity e event template_id
        (change_tariff dto (changed_quantity dto t) valid_days) s.templates t d
        (or_throw-eq-ok (find template_id s.templates) tariff_not_found found) refl
        (λ same.
          find_same t.event_id s.events (may_change-ok s.events organizer_id role t owned)
            (subst (λ k. find k s.events ≡ some e) (sym same) here))
        checked (fit e here))

without-le :
    (day event_id i : ℕ) (rows : List Template)
    → seats_on day (tariffs_of event_id (keep (λ x. not (x.id == i)) rows))
      ≤ seats_on day (tariffs_of event_id rows)
without-le day event_id i rows = omega (
  arith,
  seats_on-sum day event_id rows,
  seats_on-sum day event_id (keep (λ x. not (x.id == i)) rows),
  sum_by-keep (weight day event_id) (λ x. not (x.id == i)) rows,
)

-- If the tariffs of every event fit in its capacity on each of its days, they still do after the
-- deletion of a tariff that goes through.
pub delete_tariff-AllFit :
    (template_id organizer_id : ℕ) (role : Role) (paying : ℕ) (s : Ticketing) {after : Ticketing}
    → delete_tariff template_id organizer_id role paying s ≡ ok after
    → AllFit s
    → AllFit after
unfolding delete_tariff
delete_tariff-AllFit template_id organizer_id role paying s h fit =
    let (t, _, h1) = >>=-eq-ok (or_throw (find template_id s.templates) tariff_not_found) _ h in
    let (event, _, h2) = >>=-eq-ok (may_change s.events organizer_id role t) _ h1 in
    let (_, _, h3) =
      >>=-eq-ok (guard (count_where (λ x. x.template_id == template_id) s.tickets == 0) has_tickets)
        _ h2 in
    let (_, _, h4) = >>=-eq-ok (guard (paying == 0) being_paid) _ h3 in
    rw (← ok-injective h4) (λ e here.
      All-below (λ day. seats_on day (tariffs_of e.id s.templates)) _ e.total_capacity (days_of e)
        (λ day. without-le day e.id template_id s.templates) (fit e here))
