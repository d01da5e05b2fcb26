-- ===== src/Payments/Issue.antt =====
-- generateTicketsForPayment and claimAndGenerate: the tickets of an order that is paid.
use ticketing_platform.Prelude.{
  List, Option, Result, [], err, find, map, none, ok, some, suc, update, zero, ℕ, ◌++◌, ◌∷◌,
}
use ticketing_platform.Access.{Event, event_keyed, organizer}
use ticketing_platform.Pricing.{FeePayer, buyer_unit_price}
use ticketing_platform.PrintQuota.{Plan, account_keyed}
use ticketing_platform.Shop.{Shop, order_keyed, variant_keyed}
use ticketing_platform.Shop.Orders.{mark_paid_for_payment}
use ticketing_platform.Tickets.{
  Template, Ticket, TicketError, Ticketing, online, template_keyed, ticket_keyed,
}
use ticketing_platform.Tickets.Generation.{Codes, GenerateDto, generate_tickets}
use ticketing_platform.Payments.{
  Payment, PaymentError, Sales, TicketItem, completed, of_tickets, payment_keyed, processing,
  record_not_found, refund_keyed,
}
use ticketing_platform.Payments.Settlement.{leave_pending}

-- What the buyer paid for one ticket of a template.
unfoldable pub paid_price : FeePayer → List Template → ℕ → Option ℕ
paid_price payer templates template_id = elim (find template_id templates) [
  | none ↦ none
  | some t ↦ some (buyer_unit_price t.price payer t.currency)
]

-- Array.from({ length: quantity }, () => holder)
unfoldable pub holders_of : ℕ → ℕ → List ℕ
holders_of zero holder = []
holders_of (suc n) holder = holder ∷ holders_of n holder

-- An online sale does not read the plan.
abbrev pub no_plan : Plan
no_plan = record { max_tickets = none; max_badges = none; max_controllers = none }

-- What a sale is given: the identifiers of each template's new tickets, the event, the buyer, the
-- price of a ticket of each template (`none`: the template's) and the clock.
pub record Sale : Type 0 where
  pub codes : ℕ → Codes
  pub event_id : ℕ
  pub organizer_id : ℕ
  pub holder : ℕ
  pub price : ℕ → Option ℕ
  pub now : ℕ

abbrev pub dto_of : Sale → TicketItem → GenerateDto
dto_of sale item = record {
  template_id = item.template_id;
  count = 0;
  holders = holders_of item.quantity sale.holder;
}

-- generateTickets for one item of the order.
unfoldable pub generate_item :
    Sale → TicketItem → Ticketing → Ticketing × Result TicketError (List Ticket)
generate_item sale item s =
    generate_tickets (sale.codes item.template_id) no_plan 0 sale.event_id sale.organizer_id
      organizer (dto_of sale item) online (sale.price item.template_id) sale.now s

unfoldable pub ids_of : List Ticket → List ℕ
ids_of = map (λ (t : Ticket). t.id)

-- for (const item of items) …: an exception ends the loop and keeps what was issued.
unfoldable pub generate_items :
    Sale → List TicketItem → Ticketing → Ticketing × Result TicketError (List ℕ)
generate_items sale [] s = (s, ok [])
generate_items sale (item ∷ items) s =
    let (mid, r) = generate_item sale item s in
    let (after, rs) = generate_items sale items mid in
    elim r [
      | err e ↦ (mid, err e)
      | ok rows ↦ elim rs [ err e ↦ (after, err e) | ok ids ↦ (after, ok (ids_of rows ++ ids)) ]
    ]

abbrev pub set_completed : Option ℕ → List ℕ → Payment → Payment
set_completed provider_ref ids p = record p {
  status = completed;
  provider_ref = provider_ref;
  tickets_data = ids;
}

-- markPaidForPayment(…).catch(log): a transaction that throws leaves the shop as it was.
unfoldable pub pay_items : ℕ → ℕ → Shop → Shop
pay_items payment_id now shop = elim (mark_paid_for_payment payment_id now shop) [
  | ok after ↦ after
  | err e ↦ shop
]

unfoldable pub complete_row :
    ℕ → Option ℕ → List ℕ → ℕ → Sales → Option Payment → Sales × Result PaymentError (Unit {0})
complete_row i provider_ref ids now s none = (s, err record_not_found)
complete_row i provider_ref ids now s (some _) = (
  record s {
    payments = update i (set_completed provider_ref ids) s.payments;
    shop = pay_items i now s.shop;
  },
  ok tt,
)

-- The end of generateTicketsForPayment, with the tickets that were issued.
unfoldable pub complete_payment :
    ℕ → Option ℕ → List ℕ → ℕ → Sales → Sales × Result PaymentError (Unit {0})
complete_payment i provider_ref ids now s =
    complete_row i provider_ref ids now s (find i s.payments)

abbrev pub payer_of : Payment → Event → FeePayer
payer_of p e = elim p.fee_payer [ none ↦ e.fee_payer | some payer ↦ payer ]

abbrev pub sale_of : (ℕ → Codes) → Payment → Event → List Template → ℕ → Sale
sale_of codes p e templates now = record {
  codes = codes;
  event_id = p.event_id;
  organizer_id = e.organizer_id;
  holder = p.holder;
  price = paid_price (payer_of p e) templates;
  now = now;
}

unfoldable pub complete_issued :
    ℕ
    → Option ℕ
    → ℕ
    → Sales
    → Ticketing × Result TicketError (List ℕ)
    → Sales × Result PaymentError (Unit {0})
complete_issued i provider_ref now s (ticketing, err e) =
    (record s { ticketing = ticketing }, err (of_tickets e))
complete_issued i provider_ref now s (ticketing, ok ids) =
    complete_payment i provider_ref ids now (record s { ticketing = ticketing })

unfoldable pub issue_in :
    (ℕ → Codes)
    → Payment
    → Option ℕ
    → ℕ
    → Sales
    → Option Event
    → Sales × Result PaymentError (Unit {0})
issue_in codes p provider_ref now s none = (s, ok tt)
issue_in codes p provider_ref now s (some e) =
    complete_issued p.id provider_ref now s
      (generate_items (sale_of codes p e s.ticketing.templates now) p.items s.ticketing)

-- generateTicketsForPayment, of the payment as it was read.
unfoldable pub issue_for_payment :
    (ℕ → Codes) → Payment → Option ℕ → ℕ → Sales → Sales × Result PaymentError (Unit {0})
issue_for_payment codes p provider_ref now s =
    issue_in codes p provider_ref now s (find p.event_id s.ticketing.events)

unfoldable pub claimed_generate :
    (ℕ → Codes) → Payment → Option ℕ → ℕ → Sales → Option (List Payment) → Sales
claimed_generate codes p provider_ref now s none = s
claimed_generate codes p provider_ref now s (some payments) =
    (issue_for_payment codes p provider_ref now (record s { payments = payments })).0

-- claimAndGenerate when no other request comes between its claim and the rest: an exception is
-- logged, and leaves the payment in the status PROCESSING.
unfoldable pub claim_and_generate : (ℕ → Codes) → Payment → Option ℕ → ℕ → Sales → Sales
claim_and_generate codes p provider_ref now s =
    claimed_generate codes p provider_ref now s (leave_pending p.id processing s.payments)
