-- ===== src/Payments/Refunding.antt =====
-- backend/src/billing/refunds.service.ts: the refund of an order in full. The reads of `refund` come
-- before its transaction, which claims the payment.
use ticketing_platform.Prelude.{
  Bool, List, Option, Result, [], claim, err, false, find, guard, if◌then◌else◌, includes, keep,
  none, not, ok, or_throw, some, true, update, ℕ, ◌&&◌, ◌++◌, ◌+◌, ◌==◌, ◌>>=◌, ◌>>◌, ◌∷◌,
}
use ticketing_platform.Access.{Event, Role, assert_owner, event_keyed}
use ticketing_platform.Shop.{
  MerchOrder, OrderItem, OrderStatus, Shop, ShopError, Variant, order_keyed, put_back,
  variant_keyed,
}
use ticketing_platform.Shop.Orders.{order_of}
use ticketing_platform.Tickets.{Ticket, Ticketing, is_open, template_keyed, ticket_keyed}
use ticketing_platform.Tickets.Cancel.{free_seat, set_cancelled}
use ticketing_platform.Payments.{
  Payment, PaymentError, Refund, RefundStatus, Sales, already_refunded, is_completed, is_refunded,
  not_paid, of_access, of_shop, paid_back, payment_keyed, payment_not_found, record_not_found,
  refund_keyed, refund_not_found, refund_recorded, refunded, requested, set_status,
}

unfoldable pub owned_event : List Event → ℕ → ℕ → Role → Result PaymentError Event
owned_event events event_id user_id role = elim (assert_owner events event_id user_id role) [
  | err e ↦ err (of_access e)
  | ok event ↦ ok event
]

-- What `refund` reads: the event's organizer, the payment and the shop's order.
pub record RefundRead : Type 0 where
  pub organizer_id : ℕ
  pub payment : Payment
  pub order : Option MerchOrder

unfoldable pub check_refund : ℕ → ℕ → ℕ → Role → Sales → Result PaymentError RefundRead
check_refund event_id payment_id user_id role s = do
  event ← owned_event s.ticketing.events event_id user_id role
  p ← or_throw (find payment_id s.payments) payment_not_found
  guard (p.event_id == event_id) payment_not_found
  guard (not (is_refunded p.status)) already_refunded
  guard (is_completed p.status) not_paid
  ok (record { organizer_id = event.organizer_id; payment = p; order = order_of p.id s.shop })

-- ticket.findMany({ where: { id: { in }, status: { in: ['VALID', 'PENDING'] } } })
unfoldable pub refundable : List ℕ → Ticket → Bool
refundable ids t = includes t.id ids && is_open t.status

-- One round of the loop: the ticket is cancelled, and its seat freed.
unfoldable pub cancel_issued : ℕ → Ticket → Ticketing → Result PaymentError Ticketing
cancel_issued now t s = do
  or_throw (find t.id s.tickets) record_not_found
  or_throw (find t.template_id s.templates) record_not_found
  ok (record s {
    tickets = update t.id (set_cancelled now) s.tickets;
    templates = update t.template_id free_seat s.templates;
  })

unfoldable pub cancel_all : ℕ → List Ticket → Ticketing → Result PaymentError Ticketing
cancel_all now [] s = ok s
cancel_all now (t ∷ ts) s = cancel_issued now t s >>= cancel_all now ts

unfoldable pub is_closed : OrderStatus → Bool
is_closed OrderStatus.refunded = true
is_closed OrderStatus.cancelled = true
is_closed _ = false

abbrev pub set_refunded : MerchOrder → MerchOrder
set_refunded o = record o { status = OrderStatus.refunded }

-- Items that were not handed over go back in stock.
unfoldable pub restock : Option ℕ → List OrderItem → List Variant → Result ShopError (List Variant)
restock (some _) items variants = ok variants
restock none items variants = put_back items variants

unfoldable pub refund_open : MerchOrder → Shop → Result ShopError Shop
refund_open o shop = do
  or_throw (find o.id shop.orders) ShopError.record_not_found
  variants ← restock o.fulfilled_at o.items shop.variants
  ok (record { variants = variants; orders = update o.id set_refunded shop.orders })

unfoldable pub refund_order : MerchOrder → Shop → Result ShopError Shop
refund_order o shop = if is_closed o.status then ok shop else refund_open o shop

unfoldable pub refund_items : Option MerchOrder → Shop → Result ShopError Shop
refund_items none shop = ok shop
refund_items (some o) shop = refund_order o shop

abbrev pub new_refund : ℕ → RefundRead → Refund
new_refund id r = record {
  id = id;
  payment_id = r.payment.id;
  event_id = r.payment.event_id;
  organizer_id = r.organizer_id;
  amount = r.payment.amount;
  currency = r.payment.currency;
  status = requested;
  paid_at = none;
}

unfoldable pub lift_shop : Result ShopError Shop → Result PaymentError Shop
lift_shop (ok shop) = ok shop
lift_shop (err e) = err (of_shop e)

-- The transaction; `id` is the identifier of the new row.
unfoldable pub commit_refund : ℕ → ℕ → RefundRead → Sales → Result PaymentError Sales
commit_refund id now r s = do
  payments ←
      or_throw
        (claim r.payment.id (λ (p : Payment). is_completed p.status) (set_status refunded)
          s.payments)
        already_refunded
  ticketing ←
      cancel_all now (keep (refundable r.payment.tickets_data) s.ticketing.tickets) s.ticketing
  shop ← lift_shop (refund_items r.order s.shop)
  ok (record {
    payments = payments;
    refunds = s.refunds ++ new_refund id r ∷ [];
    shop = shop;
    ticketing = ticketing;
  })

-- `refund` when no other request comes between its reads and its transaction.
unfoldable pub refund : ℕ → ℕ → ℕ → ℕ → ℕ → Role → Sales → Result PaymentError Sales
refund id now event_id payment_id user_id role s =
    check_refund event_id payment_id user_id role s >>= λ r. commit_refund id now r s

-- The loop of refundAll, with the number that were refunded. A refund that throws is skipped.
unfoldable pub refund_each : (ℕ → ℕ) → ℕ → ℕ → ℕ → Role → List Payment → ℕ → Sales → Sales × ℕ
refund_each new_id now event_id user_id role [] done s = (s, done)
refund_each new_id now event_id user_id role (p ∷ ps) done s =
    elim (refund (new_id p.id) now event_id p.id user_id role s) [
      | ok after ↦ refund_each new_id now event_id user_id role ps (done + 1) after
      | err e ↦ refund_each new_id now event_id user_id role ps done s
    ]

unfoldable pub refund_all : (ℕ → ℕ) → ℕ → ℕ → ℕ → Role → Sales → Result PaymentError (Sales × ℕ)
refund_all new_id now event_id user_id role s =
    owned_event s.ticketing.events event_id user_id role
    >> ok (
        refund_each new_id now event_id user_id role
          (keep (λ (p : Payment). p.event_id == event_id && is_completed p.status) s.payments) 0 s)

unfoldable pub is_paid_back : RefundStatus → Bool
is_paid_back paid_back = true
is_paid_back _ = false

-- markPaid: the transfer is recorded once.
unfoldable pub mark_refund_paid : ℕ → ℕ → List Refund → Result PaymentError (List Refund)
mark_refund_paid refund_id now refunds = do
  r ← or_throw (find refund_id refunds) refund_not_found
  guard (not (is_paid_back r.status)) refund_recorded
  ok (
      update refund_id (λ (x : Refund). record x { status = paid_back; paid_at = some now })
        refunds)
