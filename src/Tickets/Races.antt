-- ===== src/Tickets/Races.antt =====
-- Two requests that cancel one ticket at the same time: `cancelTicket` reads the status, and its
-- writes do not look at it again.
use ticketing_platform.Prelude.{
  ==_refl, >>=-eq-ok, arith, find, find-update, if◌then◌else◌, key_of_find, ok, ok-injective,
  or_throw, refl, some, subst, sum_by-update, sym, true, ℕ, ◌+◌, ◌==◌, ◌≡◌,
}
use ticketing_platform.Access.{Role, event_keyed}
use ticketing_platform.Tickets.{
  Ticket, Ticketing, cancelled, is_open, record_not_found, takes_seat, template_keyed, ticket_keyed,
}
use ticketing_platform.Tickets.Cancel.{check_cancel, commit_cancel, free_ticket_seat, set_cancelled}
use ticketing_platform.Tickets.Seats.{
  check_cancel-ok, commit_cancel-seats, free_ticket_seat-left, seat_of, seats, taken,
}

after_cancel :
    (ticket : Ticket) (now : ℕ) (s : Ticketing) {after : Ticketing}
    → find ticket.id s.tickets ≡ some ticket
    → commit_cancel ticket now s ≡ ok after
    → find ticket.id after.tickets ≡ some (set_cancelled now ticket)
unfolding commit_cancel
after_cancel ticket now s found h =
    let (_, _, after_find) = >>=-eq-ok (or_throw (find ticket.id s.tickets) record_not_found) _ h in
    let (templates, freed, e) = >>=-eq-ok (free_ticket_seat ticket s.templates) _ after_find in
    rw (← ok-injective e) (
      ground (
        arith,
        find-update ticket.id ticket.id (set_cancelled now) s.tickets (λ x. refl),
        ==_refl ticket.id,
      ))

-- A second cancellation by the status that was read gives back a seat that no ticket takes.
second_cancel :
    (i now : ℕ) (ticket r : Ticket) (s : Ticketing) {after : Ticketing}
    → find ticket.id s.tickets ≡ some r
    → r.status ≡ cancelled
    → is_open ticket.status ≡ true
    → commit_cancel ticket now s ≡ ok after
    → seats i after ≡ seats i s + (if ticket.template_id == i then 1 else 0)
unfolding commit_cancel seats taken
second_cancel i now ticket r s found closed opened h =
    let (_, _, after_find) = >>=-eq-ok (or_throw (find ticket.id s.tickets) record_not_found) _ h in
    let (templates, freed, e) = >>=-eq-ok (free_ticket_seat ticket s.templates) _ after_find in
    let no_seat : seat_of i r ≡ 0 = unfold seat_of takes_seat in ground arith in
    let no_seat_after : seat_of i (set_cancelled now r) ≡ 0 =
      unfold seat_of takes_seat in ground arith in
    let given_back = free_ticket_seat-left i ticket s.templates templates freed in
    rw (← ok-injective e) (
      ground (
        arith,
        given_back,
        sum_by-update (seat_of i) ticket.id (set_cancelled now) s.tickets found,
        no_seat,
        no_seat_after,
      ))

-- Two cancellations of one open ticket that both read it before either writes give its seat back
-- twice: its tariff has one seat more than before.
pub cancel_twice-seats :
    (ticket_id organizer_id now later : ℕ) (role : Role) (ticket : Ticket) (s : Ticketing)
    {t u : Ticketing}
    → check_cancel ticket_id organizer_id role s ≡ ok ticket
    → is_open ticket.status ≡ true
    → commit_cancel ticket now s ≡ ok t
    → commit_cancel ticket later t ≡ ok u
    → seats ticket.template_id u ≡ seats ticket.template_id s + 1
cancel_twice-seats ticket_id organizer_id now later role ticket s {t} checks opened first second =
    let (found, _, unused) = check_cancel-ok ticket_id organizer_id role s checks in
    let found' : find ticket.id s.tickets ≡ some ticket =
      subst (λ k. find k s.tickets ≡ some ticket) (sym (key_of_find ticket_id s.tickets found))
        found in
    let i = ticket.template_id in
    ground (
      arith,
      commit_cancel-seats i now ticket s found' unused first,
      second_cancel i later ticket (set_cancelled now ticket) t
          (after_cancel ticket now s found' first) refl opened second,
    )
