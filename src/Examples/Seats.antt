-- ===== src/Examples/Seats.antt =====
-- A tariff of three seats and its tickets.
use ticketing_platform.Prelude.{
  List, Option, [], claim, count_where, err, false, find, none, ok, refl, some, true, update, ℕ,
  ◌+◌, ◌∷◌, ◌≡◌, ◌≤◌, ◌⊎◌,
}
use ticketing_platform.Access.{Event, assert_owner, event_keyed, is_admin, organizer, published}
use ticketing_platform.Pricing.{FeePayer, other}
use ticketing_platform.PrintQuota.{
  Account, Plan, account_keyed, add_credits, consume_print, consume_quote, credits, credits_of,
  limit_of, quote_from, quote_print, refund_credits, set_credits, take_credits,
}
use ticketing_platform.Tickets.{
  Template, Ticket, TicketError, TicketSource, TicketStatus, Ticketing, cancelled, is_cancelled,
  is_online, is_open, is_used, no_signature, online, sold_out, takes_seat, template_keyed,
  ticket_keyed, valid,
}
use ticketing_platform.Tickets.Generation.{
  Codes, GenerateDto, batch_count, batch_rows, check_batch, check_seats, existing_count, find_event,
  finish_batch, generate_tickets, insert_batch, is_event_cancelled, pay_prints, sign_batch,
}
use ticketing_platform.Tickets.Cancel.{
  cancel_ticket, check_cancel, commit_cancel, free_ticket_seat, may_act,
}
use ticketing_platform.Tickets.Seats.{AreSeatsOf, seats, taken}
use ticketing_platform.Tickets.History.{Reach, Reach-seats, cancels, here, inserts, next}
use ticketing_platform.Tickets.Batches.{IsIssued, IsUnsigned, generate_tickets-outcome}
use ticketing_platform.Tickets.Races.{cancel_twice-seats}

abbrev concert : Event
concert = record {
  id = 7;
  organizer_id = 1;
  status = published;
  start_date = 1000;
  end_date = 2000;
  total_capacity = 10;
  fee_payer = FeePayer.buyer;
  merch_delivery_fee = none;
}

abbrev tariff_with : ℕ → Template
tariff_with seats_left = record {
  id = 20;
  event_id = 7;
  price = 1500;
  currency = other 840;
  quantity = 3;
  available_count = seats_left;
  valid_days = [];
}

abbrev ticket_in : TicketStatus → Option ℕ → ℕ → Ticket
ticket_in status cancelled_at n = record {
  id = 100 + n;
  serial_number = record { event_code = 3; template_code = 20; sequence = n };
  event_id = 7;
  template_id = 20;
  status = status;
  price = 1500;
  source = online;
  created_at = 50;
  checked_in_at = none;
  cancelled_at = cancelled_at;
}

abbrev with_seats : ℕ → List Ticket → Ticketing
with_seats seats_left rows = record {
  events = concert ∷ [];
  templates = tariff_with seats_left ∷ [];
  tickets = rows;
  accounts = [];
}

abbrev one_ticket : List Ticket
one_ticket = ticket_in valid none 1 ∷ []

inserted : insert_batch 20 1 one_ticket (with_seats 3 []) ≡ ok (with_seats 2 one_ticket)
unfolding insert_batch claim find update
inserted = refl

of_the_tariff : AreSeatsOf 20 one_ticket
unfolding takes_seat
of_the_tariff = ((refl, refl), tt)

abbrev cancelled_one : List Ticket
cancelled_one = ticket_in cancelled (some 60) 1 ∷ []

cancelled_by :
    cancel_ticket 101 1 organizer 60 (with_seats 2 one_ticket) ≡ ok (with_seats 3 cancelled_one)
unfolding cancel_ticket check_cancel may_act is_admin is_cancelled is_used is_open commit_cancel
    free_ticket_seat find update
cancelled_by = refl

sold_and_cancelled : Reach (with_seats 3 []) (with_seats 3 cancelled_one)
sold_and_cancelled =
    next (next here (inserts 20 1 one_ticket of_the_tariff refl inserted))
      (cancels 101 1 organizer 60 cancelled_by)

Reach-seats_example :
    (seats 20 (with_seats 3 cancelled_one) ≤ seats 20 (with_seats 3 []))
    × (taken 20 cancelled_one ≤ seats 20 (with_seats 3 []))
Reach-seats_example = Reach-seats 20 sold_and_cancelled

read_open : check_cancel 101 1 organizer (with_seats 2 one_ticket) ≡ ok (ticket_in valid none 1)
unfolding check_cancel may_act is_admin is_cancelled is_used find
read_open = refl

first_write :
    commit_cancel (ticket_in valid none 1) 60 (with_seats 2 one_ticket)
    ≡ ok (with_seats 3 cancelled_one)
unfolding commit_cancel free_ticket_seat is_open find update
first_write = refl

abbrev cancelled_again : List Ticket
cancelled_again = ticket_in cancelled (some 61) 1 ∷ []

second_write :
    commit_cancel (ticket_in valid none 1) 61 (with_seats 3 cancelled_one)
    ≡ ok (with_seats 4 cancelled_again)
unfolding commit_cancel free_ticket_seat is_open find update
second_write = refl

opened : is_open (ticket_in valid none 1).status ≡ true
unfolding is_open
opened = refl

cancel_twice-seats_example :
    seats 20 (with_seats 4 cancelled_again) ≡ seats 20 (with_seats 2 one_ticket) + 1
cancel_twice-seats_example =
    cancel_twice-seats 101 1 60 61 organizer (ticket_in valid none 1) (with_seats 2 one_ticket)
      read_open opened first_write second_write

abbrev codes : Codes
codes = record {
  new_id = λ n. 100 + n;
  event_code = 3;
  template_code = λ i. i;
  can_sign = λ i. true;
}

abbrev unlimited : Plan
unlimited = record { max_tickets = none; max_badges = none; max_controllers = none }

abbrev one_please : GenerateDto
one_please = record { template_id = 20; count = 1; holders = [] }

sold_one :
    generate_tickets codes unlimited 0 7 1 organizer one_please online none 50 (with_seats 3 [])
    ≡ (with_seats 2 one_ticket, ok one_ticket)
unfolding generate_tickets check_batch find_event assert_owner is_admin is_event_cancelled
    check_seats batch_count pay_prints is_online sign_batch finish_batch insert_batch batch_rows
    existing_count count_where claim find update
sold_one = refl

generate_tickets-outcome_example :
    let (after, r) =
      generate_tickets codes unlimited 0 7 1 organizer one_please online none 50
        (with_seats 3 []) in
    ((e : TicketError) × (r ≡ err e) × (after ≡ with_seats 3 []))
    ⊎ (((r ≡ err no_signature)
          × IsUnsigned codes unlimited 0 7 1 organizer one_please online (with_seats 3 []) after)
        ⊎ ((rows : List Ticket) × (r ≡ ok rows) × IsIssued one_please (with_seats 3 []) after rows))
generate_tickets-outcome_example =
    generate_tickets-outcome codes unlimited 0 7 1 organizer one_please online none 50
      (with_seats 3 [])

abbrev credited : ℕ → Ticketing
credited n = record {
  events = concert ∷ [];
  templates = tariff_with 0 ∷ [];
  tickets = [];
  accounts = record { organizer_id = 1; ticket_credits = n; badge_credits = 0 } ∷ [];
}

seats_gone : finish_batch 20 1 1 5 one_ticket (credited 2) ≡ (credited 7, err sold_out)
unfolding finish_batch insert_batch claim find update refund_credits add_credits set_credits
    credits_of
seats_gone = refl

abbrev account_with : ℕ → Account
account_with n = record { organizer_id = 1; ticket_credits = n; badge_credits = 0 }

-- One ticket by the organizer, whose plan has no ticket left and whose key does not sign: the credit
-- is gone, and nothing is issued.
unsigned_one :
    generate_tickets
      (record codes { can_sign = λ i. false })
      (record unlimited { max_tickets = some 0 })
      0
      7
      1
      organizer
      one_please
      TicketSource.generation
      none
      50
      (record (with_seats 3 []) { accounts = account_with 4 ∷ [] })
    ≡ (record (with_seats 3 []) { accounts = account_with 3 ∷ [] }, err no_signature)
unfolding generate_tickets check_batch find_event assert_owner is_admin is_event_cancelled
    check_seats batch_count pay_prints is_online sign_batch consume_print consume_quote quote_print
    quote_from limit_of credits credits_of set_credits take_credits claim find update
unsigned_one = refl
