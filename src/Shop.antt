-- ===== src/Shop.antt =====
-- backend/src/shop/shop.service.ts: the stock and the orders of an event's shop.
-- A variant's row carries its product's row, as the source reads them (`include: { product }`).
-- Amounts are in cents, instants in milliseconds, identifiers are numbers. The stock is an
-- integer: a late payment may take it below zero. A transaction is a function from the state to a
-- new state or an exception, which leaves the state as it was. E-mails and notifications are not
-- modelled.
pub mod Orders
pub mod Units
pub mod Conservation
pub mod Payments
pub mod Transitions
pub mod History
pub mod Quote
pub mod Quotes
pub mod Quoted
pub mod Races
use ticketing_platform.Pricing.{Currency}
use ticketing_platform.Prelude.Int.{leb_ℤ, pos, ℤ, ◌+ℤ◌, ◌-ℤ◌}
use ticketing_platform.Access.{AccessError, event_keyed}
use ticketing_platform.Prelude.{
  Bool, Keyed, List, Option, Result, [], claim, false, find, ok, or_throw, true, update, ℕ, ◌>>=◌,
  ◌>>◌, ◌∷◌,
}

pub record Product : Type 0 where
  pub event_id : ℕ
  pub price : ℕ
  pub currency : Currency
  pub is_active : Bool

pub record Variant : Type 0 where
  pub id : ℕ
  pub product : Product
  pub stock : ℤ

instance abbrev pub variant_keyed : Keyed Variant
variant_keyed = record { key = λ v. v.id }

pub record OrderItem : Type 0 where
  pub variant_id : ℕ
  pub unit_price : ℕ
  pub quantity : ℕ

pub data OrderStatus : Type 0 where
  pending_payment paid ready shipped delivered picked_up cancelled refunded : OrderStatus

pub data Fulfillment : Type 0 where
  pickup delivery : Fulfillment

pub record MerchOrder : Type 0 where
  pub id : ℕ
  pub event_id : ℕ
  pub payment_id : Option ℕ
  pub fulfillment : Fulfillment
  pub total : ℕ
  pub status : OrderStatus
  pub created_at : ℕ
  pub paid_at : Option ℕ
  pub fulfilled_at : Option ℕ
  pub items : List OrderItem

instance abbrev pub order_keyed : Keyed MerchOrder
order_keyed = record { key = λ o. o.id }

-- The address, its city and the notes are not modelled.
pub record MerchQuote : Type 0 where
  pub lines : List OrderItem
  pub fulfillment : Fulfillment
  pub subtotal : ℕ
  pub delivery_fee : ℕ
  pub total : ℕ
  pub currency : Currency
  pub fee : ℤ
  pub organizer_gets : ℕ

pub record Shop : Type 0 where
  pub variants : List Variant
  pub orders : List MerchOrder

pub data ShopError : Type 0 where
  access : AccessError → ShopError
  order_not_found refused_transition to_collect to_deliver : ShopError
  -- Prisma's P2025: an update of a row that is not there.
  record_not_found : ShopError
  sold_out : ℕ → ShopError
  duplicate_variant no_fulfillment unavailable mixed_currencies no_delivery no_address : ShopError

-- stock: { increment: quantity }
abbrev pub increment : ℕ → Variant → Variant
increment quantity v = record v { stock = v.stock +ℤ pos quantity }

-- stock: { decrement: quantity }
abbrev pub decrement : ℕ → Variant → Variant
decrement quantity v = record v { stock = v.stock -ℤ pos quantity }

-- productVariant.update({ where: { id }, data })
unfoldable pub update_variant :
    ℕ → (Variant → Variant) → List Variant → Result ShopError (List Variant)
update_variant i f variants = do
  or_throw (find i variants) record_not_found
  ok (update i f variants)

-- for (const item of order.items) update(… increment …)
unfoldable pub put_back : List OrderItem → List Variant → Result ShopError (List Variant)
put_back [] variants = ok variants
put_back (i ∷ is) variants =
    update_variant i.variant_id (increment i.quantity) variants >>= put_back is

-- for (const item of order.items) update(… decrement …)
unfoldable pub take_again : List OrderItem → List Variant → Result ShopError (List Variant)
take_again [] variants = ok variants
take_again (i ∷ is) variants =
    update_variant i.variant_id (decrement i.quantity) variants >>= take_again is

-- for (const line of q.lines) updateMany({ where: { id, stock: { gte } }, data: decrement })
unfoldable pub reserve : List OrderItem → List Variant → Result ShopError (List Variant)
reserve [] variants = ok variants
reserve (i ∷ is) variants =
    or_throw
      (claim i.variant_id (λ v. leb_ℤ (pos i.quantity) v.stock) (decrement i.quantity) variants)
      (sold_out i.variant_id)
    >>= reserve is

unfoldable pub is_pending_payment : OrderStatus → Bool
is_pending_payment pending_payment = true
is_pending_payment _ = false
