-- ===== src/Payments/Purchase.antt =====
-- purchaseTicket of the public service: tickets of categories that cost nothing.
use ticketing_platform.Payments.Checkout.{Basket, check_event, read_items}
use ticketing_platform.Payments.FreeTickets.{
  Contact, Counter, FreeError, reserve_free_tickets, too_many,
}
use ticketing_platform.Payments.Issue.{Sale, generate_items}
use ticketing_platform.Payments.Phone.{normalize_drc_phone}
use ticketing_platform.Payments.{
  PaymentError, Sales, TicketItem, bad_mail_domain, bad_phone, empty_order, no_free_tickets_left,
  of_tickets, paid_tickets,
}
use ticketing_platform.Tickets.Generation.{Codes}
use ticketing_platform.Tickets.{Template, TicketError, Ticketing}
use ticketing_platform.Pricing.{Currency}
use ticketing_platform.Access.{Event}
use ticketing_platform.Prelude.{
  Bool, List, Option, Result, any, err, guard, length, ltb, none, not, ok, or_throw, sum_by, ℕ,
  ◌==◌, ◌>>=◌, ◌>>◌,
}

-- What the code around an order gives: the identifiers and the reference of its new rows, those of
-- new tickets, the clock, the buyers of the tickets, the DNS, and FlexPay's answer to a request.
pub data StartReply : Type 0 where
  no_answer refused : StartReply
  accepted : ℕ → StartReply

pub record Around : Type 0 where
  pub payment_id : ℕ
  pub order_id : ℕ
  pub reference : ℕ
  pub codes : ℕ → Codes
  pub now : ℕ
  pub contact_of : ℕ → Contact
  pub accepts_mail : ℕ → Bool
  -- By the reference, the amount and the currency.
  pub ask : ℕ → ℕ → Currency → StartReply

-- The sales and the counters of the free tickets.
pub record Desk : Type 0 where
  pub sales : Sales
  pub counters : List Counter

unfoldable pub lift_free : Result FreeError (List Counter) → Result PaymentError (List Counter)
lift_free (ok counters) = ok counters
lift_free (err (too_many n)) = err no_free_tickets_left

unfoldable pub reserve_free :
    Around → Contact → Option ℕ → ℕ → Desk → Result PaymentError (List Counter)
reserve_free a who ip quantity d =
    lift_free
      (reserve_free_tickets a.contact_of who ip quantity a.now d.sales.ticketing.tickets d.counters)

unfoldable pub quantity_of : List TicketItem → ℕ
quantity_of = sum_by (λ i. i.quantity)

unfoldable pub is_priced : Template × ℕ → Bool
is_priced (t, quantity) = ltb 0 t.price

-- The checks of purchaseTicket.
unfoldable pub check_purchase :
    Around → ℕ → Basket → Option ℕ → Desk → Result PaymentError (Event × List Counter)
check_purchase a event_id b ip d = do
  guard (not (length b.items == 0)) empty_order
  event ← check_event d.sales.ticketing.events event_id
  phone ← or_throw (normalize_drc_phone b.phone) bad_phone
  guard (a.accepts_mail b.email) bad_mail_domain
  lines ← read_items d.sales.ticketing.templates event_id b.items
  guard (not (any is_priced lines)) paid_tickets
  counters ← reserve_free a (record { email = b.email; phone = phone }) ip (quantity_of b.items) d
  ok (event, counters)

abbrev pub free_sale : Around → Event → Basket → Sale
free_sale a event b = record {
  codes = a.codes;
  event_id = event.id;
  organizer_id = event.organizer_id;
  holder = b.holder;
  price = λ _. none;
  now = a.now;
}

-- An order that goes through: free tickets by their identifiers, or a payment that was started.
pub data Ordered : Type 0 where
  tickets : List ℕ → Ordered
  started : ℕ → Ordered

unfoldable pub issued_free :
    Sales
    → List Counter
    → Ticketing × Result TicketError (List ℕ)
    → Desk × Result PaymentError Ordered
issued_free sales counters (ticketing, r) = (
  record { sales = record sales { ticketing = ticketing }; counters = counters },
  elim r [ ok ids ↦ ok (tickets ids) | err e ↦ err (of_tickets e) ],
)

unfoldable pub purchase_checked :
    Around
    → Basket
    → Desk
    → Result PaymentError (Event × List Counter)
    → Desk × Result PaymentError Ordered
purchase_checked a b d (err e) = (d, err e)
purchase_checked a b d (ok (event, counters)) =
    issued_free d.sales counters (generate_items (free_sale a event b) b.items d.sales.ticketing)

-- purchaseTicket
unfoldable pub purchase_ticket :
    Around → ℕ → Basket → Option ℕ → Desk → Desk × Result PaymentError Ordered
purchase_ticket a event_id b ip d = purchase_checked a b d (check_purchase a event_id b ip d)
