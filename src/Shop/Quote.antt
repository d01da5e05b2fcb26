-- ===== src/Shop/Quote.antt =====
-- The pricing of a cart (quote). The event was found by the caller; `has_address` says whether the
-- address and the city that the buyer gave are not blank.
use ticketing_platform.Prelude.Int.{leb_ℤ, pos}
use ticketing_platform.Prelude.{
  Bool, List, Option, Result, [], all_distinct, any, err, find, guard, if◌then◌else◌, includes,
  keep, length, ltb, map, none, not, ok, or_throw, some, sum_by, ℕ, ◌&&◌, ◌*◌, ◌++◌, ◌+◌, ◌==◌,
  ◌>>=◌, ◌>>◌, ◌∷◌,
}
use ticketing_platform.Access.{Event, event_keyed}
use ticketing_platform.Pricing.{
  Currency, FeePayer, Item, buyer_unit_price, round_money, same_currency, ticket_fee_split,
}
use ticketing_platform.Shop.{
  Fulfillment, MerchQuote, OrderItem, ShopError, Variant, delivery, duplicate_variant,
  mixed_currencies, no_address, no_delivery, no_fulfillment, order_keyed, pickup, record_not_found,
  sold_out, unavailable, variant_keyed,
}

pub record MerchItem : Type 0 where
  pub variant_id : ℕ
  pub quantity : ℕ

pub record Line : Type 0 where
  pub variant_id : ℕ
  pub unit_price : ℕ
  pub quantity : ℕ
  pub currency : Currency

-- where: { id: { in: ids }, product: { eventId, isActive: true } }
unfoldable pub is_sellable : ℕ → List ℕ → Variant → Bool
is_sellable event_id ids v =
    includes v.id ids && (v.product.event_id == event_id && v.product.is_active)

-- One item of the cart, priced from its variant's row.
unfoldable pub quote_line : List Variant → MerchItem → Result ShopError Line
quote_line variants item = do
  v ← or_throw (find item.variant_id variants) record_not_found
  guard (leb_ℤ (pos item.quantity) v.stock) (sold_out item.variant_id)
  ok (record {
    variant_id = v.id;
    unit_price = v.product.price;
    quantity = item.quantity;
    currency = v.product.currency;
  })

unfoldable pub quote_lines : List Variant → List MerchItem → Result ShopError (List Line)
quote_lines variants [] = ok []
quote_lines variants (i ∷ is) = do
  l ← quote_line variants i
  ls ← quote_lines variants is
  ok (l ∷ ls)

-- The delivery fee at its listed price: 0 for a pickup.
unfoldable pub quote_delivery : Fulfillment → Option ℕ → Bool → Result ShopError ℕ
quote_delivery pickup fee has_address = ok 0
quote_delivery delivery none has_address = err no_delivery
quote_delivery delivery (some fee) has_address = do guard has_address no_address; ok fee

abbrev pub line_item : Line → Item
line_item l = record { price = l.unit_price; quantity = l.quantity }

-- The items and, where there is a fee, the delivery.
unfoldable pub priced : List Line → ℕ → List Item
priced lines fee =
    map line_item lines ++ (if ltb 0 fee then record { price = fee; quantity = 1 } ∷ [] else [])

abbrev pub buyer_line : FeePayer → Currency → Line → OrderItem
buyer_line payer currency l = record {
  variant_id = l.variant_id;
  unit_price = buyer_unit_price l.unit_price payer currency;
  quantity = l.quantity;
}

unfoldable pub lines_total : List OrderItem → ℕ
lines_total = sum_by (λ l. l.unit_price * l.quantity)

unfoldable pub quote_total : Fulfillment → FeePayer → Currency → List Line → ℕ → MerchQuote
quote_total fulfillment payer currency lines fee =
    let split = ticket_fee_split (priced lines fee) payer currency in
    let buyer_lines = map (buyer_line payer currency) lines in
    let subtotal = round_money (100 * lines_total buyer_lines) currency in
    let delivery_fee = buyer_unit_price fee payer currency in
    record {
      lines = buyer_lines;
      fulfillment = fulfillment;
      subtotal = subtotal;
      delivery_fee = delivery_fee;
      total = round_money (100 * (subtotal + delivery_fee)) currency;
      currency = currency;
      fee = split.fee;
      organizer_gets = split.organizer_gets;
    }

-- The currency of the first line, if every line has it. A cart without items is never quoted.
unfoldable pub one_currency : List Line → Result ShopError Currency
one_currency [] = err unavailable
one_currency (l ∷ ls) = do
  guard (not (any (λ x. not (same_currency x.currency l.currency)) (l ∷ ls))) mixed_currencies
  ok l.currency

unfoldable pub quote :
    Event → List Variant → List MerchItem → Option Fulfillment → Bool → Result ShopError MerchQuote
quote event variants items fulfillment has_address = do
  let ids = map (λ i. i.variant_id) items
  guard (all_distinct ids) duplicate_variant
  f ← or_throw fulfillment no_fulfillment
  let sellable = keep (is_sellable event.id ids) variants
  guard (length sellable == length ids) unavailable
  lines ← quote_lines sellable items
  currency ← one_currency lines
  fee ← quote_delivery f event.merch_delivery_fee has_address
  ok (quote_total f event.fee_payer currency lines fee)
