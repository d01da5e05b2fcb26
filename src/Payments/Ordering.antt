-- ===== src/Payments/Ordering.antt =====
-- initiatePayment from the price of the order on.
use ticketing_platform.Payments.Purchase.{
  Around, Desk, Ordered, StartReply, accepted, no_answer, purchase_ticket, refused, reserve_free,
  started,
}
use ticketing_platform.Payments.Checkout.{Basket, Priced, check_order}
use ticketing_platform.Payments.FreeTickets.{Counter, counter_keyed}
use ticketing_platform.Payments.Settlement.{leave_pending}
use ticketing_platform.Payments.Phone.{normalize_drc_phone}
use ticketing_platform.Payments.{
  Payment, PaymentError, PaymentMethod, Sales, bad_phone, card, failed, flexpay_refused,
  flexpay_unreachable, mobile_money, of_shop, payment_keyed, pending, refund_keyed,
}
use ticketing_platform.Tickets.{Template, pending, template_keyed, ticket_keyed}
use ticketing_platform.Shop.Orders.{cancel_for_payment, create_pending_order}
use ticketing_platform.Shop.{MerchQuote, Shop, order_keyed, variant_keyed}
use ticketing_platform.Access.{event_keyed}
use ticketing_platform.Prelude.{
  Bool, List, Option, Result, [], err, false, if◌then◌else◌, none, ok, or_else, or_throw, some,
  sum_by, true, update, ℕ, ◌&&◌, ◌++◌, ◌==◌, ◌>>◌, ◌∷◌,
}

-- The free categories of a paid order.
unfoldable pub free_count : List (Template × ℕ) → ℕ
free_count = sum_by (λ l. if l.0.price == 0 then l.1 else 0)

abbrev pub new_payment : Around → ℕ → Basket → Priced → Payment
new_payment a event_id b o = record {
  id = a.payment_id;
  reference = a.reference;
  order_number = none;
  event_id = event_id;
  holder = b.holder;
  amount = o.total;
  currency = o.currency;
  method = b.method;
  ticket_amount = o.split.listed;
  fee_amount = o.fee;
  fee_payer = some o.event.fee_payer;
  net_amount = some o.net;
  status = pending;
  items = b.items;
  provider_ref = none;
  tickets_data = [];
  created_at = a.now;
}

unfoldable pub reserve_merch : Around → ℕ → Option MerchQuote → Shop → Result PaymentError Shop
reserve_merch a event_id none shop = ok shop
reserve_merch a event_id (some q) shop =
    elim (create_pending_order a.order_id event_id a.payment_id q a.now shop) [
      | ok after ↦ ok after
      | err e ↦ err (of_shop e)
    ]

-- The request to FlexPay: the transaction's number, or the exception.
unfoldable pub ask_flexpay : StartReply → Result PaymentError ℕ
ask_flexpay no_answer = err flexpay_unreachable
ask_flexpay refused = err flexpay_refused
ask_flexpay (accepted n) = ok n

-- initiateMobileMoney reads the phone again, initiateCard does not.
unfoldable pub paying_phone : PaymentMethod → List ℕ → Result PaymentError (List ℕ)
paying_phone mobile_money phone = or_throw (normalize_drc_phone phone) bad_phone
paying_phone card phone = ok phone

unfoldable pub start_payment : Around → PaymentMethod → Priced → Result PaymentError ℕ
start_payment a method o =
    paying_phone method o.phone >> ask_flexpay (a.ask a.reference o.total o.currency)

abbrev pub set_number : ℕ → Payment → Payment
set_number n p = record p { order_number = some n }

-- The body of the try: the shop's items, then FlexPay. A transaction that was made stays made.
unfoldable pub start_order :
    Around → ℕ → PaymentMethod → Priced → Sales → Sales × Result PaymentError ℕ
start_order a event_id method o s = elim (reserve_merch a event_id o.merch s.shop) [
  | err e ↦ (s, err e)
  | ok shop ↦ (record s { shop = shop }, start_payment a method o)
]

-- updateMany({ where: { id, status: 'PENDING' }, data: { status: 'FAILED' } })
unfoldable pub close_payment : ℕ → List Payment → List Payment
close_payment i payments = or_else (leave_pending i failed payments) payments

-- The handler of the try: a second exception takes the place of the first.
unfoldable pub abandon : ℕ → PaymentError → Sales → Sales × PaymentError
abandon i e s = elim (cancel_for_payment i s.shop) [
  | ok shop ↦ (record s { shop = shop; payments = close_payment i s.payments }, e)
  | err thrown ↦ (s, of_shop thrown)
]

unfoldable pub finish_order :
    Around → List Counter → Sales × Result PaymentError ℕ → Desk × Result PaymentError Ordered
finish_order a counters (s, err e) =
    let (after, thrown) = abandon a.payment_id e s in
    (record { sales = after; counters = counters }, err thrown)
finish_order a counters (s, ok n) = (
  record {
    sales = record s { payments = update a.payment_id (set_number n) s.payments };
    counters = counters;
  },
  ok (started n),
)

-- The part of a paid order after the limit of free tickets.
unfoldable pub open_order :
    Around
    → ℕ
    → Basket
    → Priced
    → Desk
    → Result PaymentError (List Counter)
    → Desk × Result PaymentError Ordered
open_order a event_id b o d (err e) = (d, err e)
open_order a event_id b o d (ok counters) = finish_order a counters (
    start_order a event_id b.method o
      (record d.sales { payments = d.sales.payments ++ new_payment a event_id b o ∷ [] }))

-- total === 0 && !merchQuote
unfoldable pub is_free_order : Priced → Bool
is_free_order o = o.total == 0 && elim o.merch [ none ↦ true | some _ ↦ false ]

unfoldable pub place_order :
    Around
    → ℕ
    → Basket
    → Option ℕ
    → Desk
    → Result PaymentError Priced
    → Desk × Result PaymentError Ordered
place_order a event_id b ip d (err e) = (d, err e)
place_order a event_id b ip d (ok o) =
    if is_free_order o
    then purchase_ticket a event_id (record b { phone = o.phone }) ip d
    else open_order a event_id b o d
        (reserve_free a (record { email = b.email; phone = o.phone }) ip (free_count o.lines) d)

-- initiatePayment when no other request comes in between.
unfoldable pub initiate_payment :
    Around → ℕ → Basket → Option ℕ → Desk → Desk × Result PaymentError Ordered
initiate_payment a event_id b ip d =
    place_order a event_id b ip d (check_order a.accepts_mail event_id b d.sales)
