-- ===== src/Payments/Checkout.antt =====
-- initiatePayment: the checks of an order, its price, and the request to FlexPay.
-- `accepts_mail` is the answer of the DNS about the domain of an e-mail address.
use ticketing_platform.Payments.FreeTickets.{counter_keyed}
use ticketing_platform.Payments.Phone.{normalize_drc_phone}
use ticketing_platform.Payments.{
  PaymentError, PaymentMethod, Sales, TicketItem, bad_mail_domain, bad_phone, category_not_found,
  duplicate_category, empty_order, mixed_currencies, not_enough_seats, not_published, of_access,
  of_shop, payment_keyed, refund_keyed,
}
use ticketing_platform.Tickets.{Template, template_keyed, ticket_keyed}
use ticketing_platform.Shop.Quote.{MerchItem, quote}
use ticketing_platform.Shop.{
  Fulfillment, MerchQuote, ShopError, Variant, order_keyed, variant_keyed,
}
use ticketing_platform.Pricing.{
  Currency, FeeSplit, Item, round_money, round_money_ℤ, same_currency, ticket_fee_split,
}
use ticketing_platform.Access.{Event, EventStatus, event_keyed, event_not_found}
use ticketing_platform.Prelude.Int.{pos, ℤ, ◌+ℤ◌}
use ticketing_platform.Prelude.{
  Bool, List, Option, Result, [], all_distinct, any, err, false, find, guard, if◌then◌else◌,
  includes, keep, leb, length, map, none, not, ok, or_throw, some, true, ℕ, ◌&&◌, ◌*◌, ◌++◌, ◌+◌,
  ◌==◌, ◌>>=◌, ◌>>◌, ◌∷◌,
}

-- InitiatePaymentDto; `has_address` as in a quote.
pub record Basket : Type 0 where
  pub holder : ℕ
  pub email : ℕ
  pub phone : List ℕ
  pub items : List TicketItem
  pub merch : List MerchItem
  pub fulfillment : Option Fulfillment
  pub has_address : Bool
  pub method : PaymentMethod

unfoldable pub is_published : EventStatus → Bool
is_published EventStatus.published = true
is_published _ = false

unfoldable pub is_empty : Basket → Bool
is_empty b = length b.items == 0 && length b.merch == 0

unfoldable pub check_event : List Event → ℕ → Result PaymentError Event
check_event events event_id = do
  event ← or_throw (find event_id events) (of_access event_not_found)
  guard (is_published event.status) not_published
  ok event

abbrev pub template_ids : List TicketItem → List ℕ
template_ids = map (λ i. i.template_id)

-- where: { id: { in: templateIds }, eventId }
unfoldable pub is_sold_by : ℕ → List ℕ → Template → Bool
is_sold_by event_id ids t = includes t.id ids && t.event_id == event_id

-- The template of an item, if enough of its seats are left.
unfoldable pub check_item : List Template → TicketItem → Result PaymentError Template
check_item templates item = do
  t ← or_throw (find item.template_id templates) category_not_found
  guard (leb item.quantity t.available_count) (not_enough_seats t.available_count)
  ok t

unfoldable pub check_items :
    List Template → List TicketItem → Result PaymentError (List (Template × ℕ))
check_items templates [] = ok []
check_items templates (item ∷ items) = do
  t ← check_item templates item
  rest ← check_items templates items
  ok ((t, item.quantity) ∷ rest)

-- Each item with its template.
unfoldable pub read_items :
    List Template → ℕ → List TicketItem → Result PaymentError (List (Template × ℕ))
read_items all event_id items = do
  guard (all_distinct (template_ids items)) duplicate_category
  let templates = keep (is_sold_by event_id (template_ids items)) all
  guard (length templates == length (template_ids items)) category_not_found
  check_items templates items

unfoldable pub lift_quote : Result ShopError MerchQuote → Result PaymentError (Option MerchQuote)
lift_quote (ok q) = ok (some q)
lift_quote (err e) = err (of_shop e)

unfoldable pub quote_merch : Event → Basket → List Variant → Result PaymentError (Option MerchQuote)
quote_merch event b variants =
    if length b.merch == 0
    then ok none
    else lift_quote (quote event variants b.merch b.fulfillment b.has_address)

abbrev pub quote_currency : Option MerchQuote → List Currency
quote_currency none = []
quote_currency (some q) = q.currency ∷ []

-- The first of the currencies, if all are the same. An order is never empty here.
unfoldable pub shared_currency : List Currency → Result PaymentError Currency
shared_currency [] = err empty_order
shared_currency (c ∷ cs) = do
  guard (not (any (λ x. not (same_currency x c)) cs)) mixed_currencies
  ok c

abbrev pub sold_item : Template × ℕ → Item
sold_item (t, quantity) = record { price = t.price; quantity = quantity }

-- An order as it was checked and priced.
pub record Priced : Type 0 where
  pub event : Event
  pub phone : List ℕ
  pub lines : List (Template × ℕ)
  pub merch : Option MerchQuote
  pub currency : Currency
  pub split : FeeSplit
  pub total : ℕ
  pub fee : ℤ
  pub net : ℕ

abbrev pub merch_total : Option MerchQuote → ℕ
merch_total none = 0
merch_total (some q) = q.total

abbrev pub merch_net : Option MerchQuote → ℕ
merch_net none = 0
merch_net (some q) = q.organizer_gets

abbrev pub merch_fee : Option MerchQuote → ℤ
merch_fee none = pos 0
merch_fee (some q) = q.fee

unfoldable pub price_order :
    Event → List ℕ → List (Template × ℕ) → Option MerchQuote → Currency → Priced
price_order event phone lines merch currency =
    let split = ticket_fee_split (map sold_item lines) event.fee_payer currency in
    record {
      event = event;
      phone = phone;
      lines = lines;
      merch = merch;
      currency = currency;
      split = split;
      total = round_money (100 * (split.buyer_pays + merch_total merch)) currency;
      fee = round_money_ℤ (split.fee +ℤ merch_fee merch) currency;
      net = round_money (100 * (split.organizer_gets + merch_net merch)) currency;
    }

-- initiatePayment up to the price of the order.
unfoldable pub check_order : (ℕ → Bool) → ℕ → Basket → Sales → Result PaymentError Priced
check_order accepts_mail event_id b s = do
  event ← check_event s.ticketing.events event_id
  guard (not (is_empty b)) empty_order
  phone ← or_throw (normalize_drc_phone b.phone) bad_phone
  guard (accepts_mail b.email) bad_mail_domain
  lines ← read_items s.ticketing.templates event_id b.items
  merch ← quote_merch event b s.shop.variants
  currency ← shared_currency (map (λ l. l.0.currency) lines ++ quote_currency merch)
  ok (price_order event phone lines merch currency)
