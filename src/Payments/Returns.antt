-- ===== src/Payments/Returns.antt =====
-- What a refund gives back: the units of the shop, and the seats of the tickets.
use ticketing_platform.Payments.Freed.{returned-seats}
use ticketing_platform.Payments.Refunding.{
  RefundRead, cancel_all, check_refund, commit_refund, is_closed, lift_shop, new_refund,
  owned_event, refund, refund_items, refund_open, refund_order, refundable, restock, set_refunded,
}
use ticketing_platform.Payments.{
  Payment, Sales, already_refunded, is_completed, is_refunded, not_paid, payment_keyed,
  payment_not_found, refund_keyed, refunded, set_status,
}
use ticketing_platform.Tickets.Seats.{seats}
use ticketing_platform.Tickets.{template_keyed, ticket_keyed}
use ticketing_platform.Shop.Conservation.{back}
use ticketing_platform.Shop.Units.{
  +ℤ_zero, held, held_by, holds, ordered, put_back-stock, stock_of, units,
}
use ticketing_platform.Shop.Orders.{is_for_payment, order_of}
use ticketing_platform.Shop.{
  MerchOrder, OrderItem, Shop, ShopError, Variant, order_keyed, refunded, variant_keyed,
}
use ticketing_platform.Access.{Role, event_keyed}
use ticketing_platform.Prelude.Int.{pos, ◌+ℤ◌}
use ticketing_platform.Prelude.{
  >>=-eq-ok, Bool, Distinct, List, Option, Result, [], ap, arith, claim, err, false, find,
  find_first-find, guard, if◌then◌else◌, keep, length, length-append, none, not, ok, ok-injective,
  or_throw, refl, some, sum_by-update, sym, true, ℕ, ◌+◌, ◌==◌, ◌∙◌, ◌∷◌, ◌≡◌,
}

-- What of an order goes back in stock.
abbrev returned : ℕ → Option ℕ → List OrderItem → ℕ
returned v none items = ordered v items
returned v (some _) items = 0

restock-stock :
    (v : ℕ) (at : Option ℕ) (items : List OrderItem) (variants : List Variant)
    {after : List Variant}
    → restock at items variants ≡ ok after
    → stock_of v after ≡ stock_of v variants +ℤ pos (returned v at items)
unfolding restock
restock-stock v none items variants h = put_back-stock v items variants h
restock-stock v (some _) items variants h =
    ap (stock_of v) (sym (ok-injective h)) ∙ sym (+ℤ_zero (stock_of v variants))

open-held :
    (v : ℕ) (o : MerchOrder) (at : Option ℕ)
    → o.fulfilled_at ≡ at
    → is_closed o.status ≡ false
    → held_by v (set_refunded o) + returned v at o.items ≡ held_by v o
unfolding held_by holds is_closed
open-held v o none e h = ground (arith, e)
open-held v o (some _) e h = ground (arith, e)

refund_open-units :
    (v : ℕ) (o : MerchOrder) (shop : Shop) {after : Shop}
    → find o.id shop.orders ≡ some o
    → is_closed o.status ≡ false
    → refund_open o shop ≡ ok after
    → units v after ≡ units v shop
unfolding refund_open units held
refund_open-units v o shop found live h =
    let (_, _, h1) = >>=-eq-ok (or_throw (find o.id shop.orders) ShopError.record_not_found) _ h in
    let (variants, stocked, e) = >>=-eq-ok (restock o.fulfilled_at o.items shop.variants) _ h1 in
    rw (← ok-injective e) (
      back _ _ (held v shop.orders) _ (returned v o.fulfilled_at o.items)
        (restock-stock v o.fulfilled_at o.items shop.variants stocked)
        (omega (
          arith,
          sum_by-update (held_by v) o.id set_refunded shop.orders found,
          open-held v o o.fulfilled_at refl live,
        )))

refund_items-units :
    (v payment_id : ℕ) (shop : Shop) (o : Option MerchOrder) {after : Shop}
    → Distinct shop.orders
    → order_of payment_id shop ≡ o
    → refund_items o shop ≡ ok after
    → units v after ≡ units v shop
unfolding refund_items refund_order order_of
refund_items-units v payment_id shop none d e h = ap (units v) (sym (ok-injective h))
refund_items-units v payment_id shop (some o) {after} d e h = go (is_closed o.status) refl h
  where
    go :
        (b : Bool)
        → is_closed o.status ≡ b
        → (if b then ok shop else refund_open o shop) ≡ ok after
        → units v after ≡ units v shop
    go true live k = ap (units v) (sym (ok-injective k))
    go false live k =
        refund_open-units v o shop (find_first-find (is_for_payment payment_id) shop.orders d e)
          live k

lift_shop-ok : (r : Result ShopError Shop) {shop : Shop} → lift_shop r ≡ ok shop → r ≡ ok shop
unfolding lift_shop
lift_shop-ok (ok x) h = cc
lift_shop-ok (err e) h = cc

check_refund-order :
    (event_id payment_id user_id : ℕ) (role : Role) (s : Sales) {r : RefundRead}
    → check_refund event_id payment_id user_id role s ≡ ok r
    → r.order ≡ order_of r.payment.id s.shop
unfolding check_refund
check_refund-order event_id payment_id user_id role s h =
    let (_, _, h1) = >>=-eq-ok (owned_event s.ticketing.events event_id user_id role) _ h in
    let (p, _, h2) = >>=-eq-ok (or_throw (find payment_id s.payments) payment_not_found) _ h1 in
    let (_, _, h3) = >>=-eq-ok (guard (p.event_id == event_id) payment_not_found) _ h2 in
    let (_, _, h4) = >>=-eq-ok (guard (not (is_refunded p.status)) already_refunded) _ h3 in
    let (_, _, e) = >>=-eq-ok (guard (is_completed p.status) not_paid) _ h4 in
    rw (← ok-injective e) refl

-- A refund that goes through with no other request in between, where the tickets and the orders have
-- distinct identifiers, keeps for each tariff the sum of the seats that are left and of those that
-- its tickets take, keeps the units of each variant, and adds one row to the refunds.
pub refund-keeps :
    (id now event_id payment_id user_id : ℕ) (role : Role) (s : Sales) {after : Sales}
    → Distinct s.ticketing.tickets
    → Distinct s.shop.orders
    → refund id now event_id payment_id user_id role s ≡ ok after
    → ((i : ℕ) → seats i after.ticketing ≡ seats i s.ticketing)
      × ((v : ℕ) → units v after.shop ≡ units v s.shop)
      × (length after.refunds ≡ length s.refunds + 1)
unfolding refund commit_refund
refund-keeps id now event_id payment_id user_id role s tickets orders h =
    let (r, read, done) = >>=-eq-ok (check_refund event_id payment_id user_id role s) _ h in
    let (payments, _, h1) =
      >>=-eq-ok
        (or_throw
          (claim r.payment.id (λ (p : Payment). is_completed p.status) (set_status refunded)
            s.payments)
          already_refunded)
        _ done in
    let (ticketing, cancelled_all, h2) =
      >>=-eq-ok
        (cancel_all now (keep (refundable r.payment.tickets_data) s.ticketing.tickets) s.ticketing)
        _ h1 in
    let (shop, given, e) = >>=-eq-ok (lift_shop (refund_items r.order s.shop)) _ h2 in
    let order = check_refund-order event_id payment_id user_id role s read in
    rw (← ok-injective e) (
      (λ i. returned-seats i now r.payment.tickets_data s.ticketing tickets cancelled_all),
      (λ v.
          refund_items-units v r.payment.id s.shop r.order orders (sym order)
            (lift_shop-ok (refund_items r.order s.shop) given)),
      length-append s.refunds (new_refund id r ∷ []),
    )
