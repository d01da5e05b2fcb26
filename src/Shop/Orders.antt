-- ===== src/Shop/Orders.antt =====
-- The life of an order: reservation, payment, release, expiry and the organizer's transitions.
use ticketing_platform.Prelude.{
  Bool, List, Option, Result, [], claim, err, false, find, find_first, guard, if◌then◌else◌, keep,
  ltb, none, ok, or_throw, some, take, true, update, ℕ, ◌&&◌, ◌++◌, ◌+◌, ◌==◌, ◌>>=◌, ◌>>◌, ◌∷◌,
}
use ticketing_platform.Access.{Event, Role, assert_owner, cancelled, event_keyed}
use ticketing_platform.Shop.{
  Fulfillment, MerchOrder, MerchQuote, OrderStatus, Shop, ShopError, Variant, access, cancelled,
  delivered, delivery, is_pending_payment, order_keyed, order_not_found, paid, pending_payment,
  picked_up, pickup, put_back, ready, record_not_found, refused_transition, reserve, shipped,
  take_again, to_collect, to_deliver, variant_keyed,
}

-- NEXT_STATUSES[from]?.includes(to). A refunded order has no entry there.
unfoldable pub allows : OrderStatus → OrderStatus → Bool
allows paid ready = true
allows paid shipped = true
allows paid picked_up = true
allows paid cancelled = true
allows ready picked_up = true
allows ready shipped = true
allows ready cancelled = true
allows shipped delivered = true
allows shipped cancelled = true
allows _ _ = false

-- Whether a transition fits the way the order is handed over.
unfoldable pub fits_fulfillment : Fulfillment → OrderStatus → Result ShopError (Unit {0})
fits_fulfillment pickup shipped = err to_collect
fits_fulfillment pickup delivered = err to_collect
fits_fulfillment delivery picked_up = err to_deliver
fits_fulfillment _ _ = ok tt

-- The part of updateOrderStatus before its transaction: the order as it was read.
unfoldable pub check_update : ℕ → ℕ → OrderStatus → Shop → Result ShopError MerchOrder
check_update event_id order_id status shop = do
  order ← or_throw (find order_id shop.orders) order_not_found
  guard (order.event_id == event_id) order_not_found
  guard (allows order.status status) refused_transition
  fits_fulfillment order.fulfillment status
  ok order

unfoldable pub is_cancelled : OrderStatus → Bool
is_cancelled cancelled = true
is_cancelled _ = false

unfoldable pub is_fulfilled : OrderStatus → Bool
is_fulfilled picked_up = true
is_fulfilled delivered = true
is_fulfilled _ = false

unfoldable pub set_status : OrderStatus → ℕ → MerchOrder → MerchOrder
set_status status now o = record o {
  status = status;
  fulfilled_at = if is_fulfilled status then some now else o.fulfilled_at;
}

-- The transaction of updateOrderStatus: the items are those of the order that was read before it.
unfoldable pub commit_update : MerchOrder → OrderStatus → ℕ → Shop → Result ShopError Shop
commit_update order status now shop = do
  variants ← if is_cancelled status then put_back order.items shop.variants else ok shop.variants
  or_throw (find order.id shop.orders) record_not_found
  ok (record { variants = variants; orders = update order.id (set_status status now) shop.orders })

-- `updateOrderStatus` when no other request comes between its read and its transaction.
unfoldable pub update_order_status :
    List Event → ℕ → ℕ → ℕ → Role → OrderStatus → ℕ → Shop → Result ShopError Shop
update_order_status events event_id order_id user_id role status now shop =
    elim (assert_owner events event_id user_id role) [
      | err e ↦ err (access e)
      | ok _ ↦ check_update event_id order_id status shop >>= λ order.
          commit_update order status now shop
    ]

-- `id` is the identifier that the database gives to the new row; the short code is not modelled.
unfoldable pub create_pending_order : ℕ → ℕ → ℕ → MerchQuote → ℕ → Shop → Result ShopError Shop
create_pending_order id event_id payment_id q now shop = do
  variants ← reserve q.lines shop.variants
  ok (record { variants = variants; orders = shop.orders ++ order ∷ [] })
  where
    order : MerchOrder
    order = record {
      id = id;
      event_id = event_id;
      payment_id = some payment_id;
      fulfillment = q.fulfillment;
      total = q.total;
      status = pending_payment;
      created_at = now;
      paid_at = none;
      fulfilled_at = none;
      items = q.lines;
    }

-- merchOrder.findUnique({ where: { paymentId } })
unfoldable pub is_for_payment : ℕ → MerchOrder → Bool
is_for_payment payment_id o = elim o.payment_id [ none ↦ false | some p ↦ p == payment_id ]

unfoldable pub order_of : ℕ → Shop → Option MerchOrder
order_of payment_id shop = find_first (is_for_payment payment_id) shop.orders

abbrev pub set_paid : ℕ → MerchOrder → MerchOrder
set_paid now o = record o { status = paid; paid_at = some now }

-- The last update of markPaidForPayment.
unfoldable pub pay : MerchOrder → ℕ → List Variant → Shop → Result ShopError Shop
pay order now variants shop = do
  or_throw (find order.id shop.orders) record_not_found
  ok (record { variants = variants; orders = update order.id (set_paid now) shop.orders })

unfoldable pub mark_paid : MerchOrder → OrderStatus → ℕ → Shop → Result ShopError Shop
mark_paid order pending_payment now shop = pay order now shop.variants shop
mark_paid order cancelled now shop = do
  variants ← take_again order.items shop.variants
  pay order now variants shop
mark_paid order _ now shop = ok shop

unfoldable pub mark_paid_for_payment : ℕ → ℕ → Shop → Result ShopError Shop
unfolding mark_paid
mark_paid_for_payment payment_id now shop = elim (order_of payment_id shop) [
  | none ↦ ok shop
  | some order ↦ mark_paid order order.status now shop
]

abbrev pub set_cancelled : MerchOrder → MerchOrder
set_cancelled o = record o { status = cancelled }

-- The transaction gives the stock back only if this call is the one that cancels the order.
unfoldable pub release_order : MerchOrder → Shop → Result ShopError Shop
release_order order shop =
    elim (claim order.id (λ o. is_pending_payment o.status) set_cancelled shop.orders) [
      | none ↦ ok shop
      | some orders ↦ put_back order.items shop.variants >>= λ variants.
          ok (record { variants = variants; orders = orders })
    ]

unfoldable pub cancel_for_payment : ℕ → Shop → Result ShopError Shop
cancel_for_payment payment_id shop = elim (order_of payment_id shop) [
  | none ↦ ok shop
  | some order ↦ if is_pending_payment order.status then release_order order shop else ok shop
]

abbrev pub reservation_ms : ℕ
reservation_ms = 7200000

-- createdAt < now - RESERVATION_MS, of the event if one is named.
unfoldable pub is_stale : ℕ → Option ℕ → MerchOrder → Bool
is_stale now event_id o =
    is_pending_payment o.status
    && ltb (o.created_at + reservation_ms) now
    && elim event_id [ none ↦ true | some e ↦ o.event_id == e ]

-- Each release is a transaction of its own: an exception ends the loop and keeps what was done.
unfoldable pub release_all : List MerchOrder → Shop → Shop × Result ShopError (Unit {0})
release_all [] shop = (shop, ok tt)
release_all (o ∷ os) shop = elim (release_order o shop) [
  | err e ↦ (shop, err e)
  | ok shop' ↦ release_all os shop'
]

unfoldable pub expire_stale_orders : Option ℕ → ℕ → Shop → Shop × Result ShopError (Unit {0})
expire_stale_orders event_id now shop =
    release_all (take 100 (keep (is_stale now event_id) shop.orders)) shop
