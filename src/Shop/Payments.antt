-- ===== src/Shop/Payments.antt =====
-- What a payment leaves of the units of a variant: its confirmation and its failure.
use ticketing_platform.Prelude.{
  >>=-eq-ok, Bool, Distinct, List, Option, Option-cases, Result, ap, arith, false, find,
  find_first-find, find_same, if◌then◌else◌, inl, inr, none, ok, ok-injective, or_throw, refl, some,
  subst, sum_by-update, true, update-Distinct, ℕ, ◌+◌, ◌≡◌,
}
use ticketing_platform.Prelude.Int.{int_laws, pos, ◌+ℤ◌}
use ticketing_platform.Access.{cancelled, event_keyed}
use ticketing_platform.Shop.{
  MerchOrder, OrderStatus, Shop, ShopError, Variant, cancelled, is_pending_payment, order_keyed,
  pending_payment, record_not_found, take_again, variant_keyed,
}
use ticketing_platform.Shop.Orders.{
  cancel_for_payment, is_for_payment, mark_paid, mark_paid_for_payment, order_of, pay,
  release_order, set_paid,
}
use ticketing_platform.Shop.Units.{held, held_by, holds, ordered, stock_of, take_again-stock, units}
use ticketing_platform.Shop.Conservation.{Keeps, out, release_order-Keeps, unchanged}

pay-Keeps :
    (v now : ℕ) (order : MerchOrder) (variants : List Variant) (shop : Shop) (q : ℕ) {after : Shop}
    → find order.id shop.orders ≡ some order
    → stock_of v variants +ℤ pos q ≡ stock_of v shop.variants
    → held_by v (set_paid now order) ≡ held_by v order + q
    → pay order now variants shop ≡ ok after
    → Keeps v shop after
unfolding pay units held
pay-Keeps v now order variants shop q found taken kept h =
    let (r, _, e) = >>=-eq-ok (or_throw (find order.id shop.orders) record_not_found) _ h in
    rw (← ok-injective e) (
      out _ _ (held v shop.orders) _ q taken (
          omega (arith, sum_by-update (held_by v) order.id (set_paid now) shop.orders found, kept)),
      update-Distinct order.id (set_paid now) shop.orders (λ x. refl),
    )

mark_paid-Keeps :
    (v now : ℕ) (order : MerchOrder) (status : OrderStatus) (shop : Shop) {after : Shop}
    → find order.id shop.orders ≡ some order
    → order.status ≡ status
    → mark_paid order status now shop ≡ ok after
    → Keeps v shop after
unfolding mark_paid
mark_paid-Keeps v now order pending_payment shop found e h =
    pay-Keeps v now order shop.variants shop 0 found (omega int_laws)
      (unfold held_by holds in ground arith) h
mark_paid-Keeps v now order cancelled shop found e h =
    let (variants, taken, h') = >>=-eq-ok (take_again order.items shop.variants) _ h in
    pay-Keeps v now order variants shop (ordered v order.items) found
      (take_again-stock v order.items shop.variants taken) (unfold held_by holds in ground arith) h'
mark_paid-Keeps v now order _ shop found e h = unchanged v shop h

-- A confirmed payment, where the orders have distinct identifiers, keeps the units of every variant,
-- also where the reservation has expired and its units are taken from the stock again. The
-- identifiers stay distinct.
pub mark_paid_for_payment-Keeps :
    (v payment_id now : ℕ) (shop : Shop) {after : Shop}
    → Distinct shop.orders
    → mark_paid_for_payment payment_id now shop ≡ ok after
    → Keeps v shop after
unfolding mark_paid_for_payment order_of
mark_paid_for_payment-Keeps v payment_id now shop {after} d h =
    elim (Option-cases (order_of payment_id shop)) [
      | inl missing ↦ unchanged v shop (subst (λ c. marked c ≡ ok after) missing h)
      | inr (order, e) ↦
          mark_paid-Keeps v now order order.status shop
            (find_first-find (is_for_payment payment_id) shop.orders d e) refl
            (subst (λ c. marked c ≡ ok after) e h)
    ]
  where
    marked : Option MerchOrder → Result ShopError Shop
    marked c = elim c [ none ↦ ok shop | some order ↦ mark_paid order order.status now shop ]

pub cancel_for_payment-Keeps :
    (v payment_id : ℕ) (shop : Shop) {after : Shop}
    → Distinct shop.orders
    → cancel_for_payment payment_id shop ≡ ok after
    → Keeps v shop after
unfolding cancel_for_payment order_of
cancel_for_payment-Keeps v payment_id shop {after} d h =
    elim (Option-cases (order_of payment_id shop)) [
      | inl missing ↦ unchanged v shop (subst (λ c. closed c ≡ ok after) missing h)
      | inr (order, e) ↦
          let found = find_first-find (is_for_payment payment_id) shop.orders d e in
          go order found (is_pending_payment order.status) (subst (λ c. closed c ≡ ok after) e h)
    ]
  where
    closed : Option MerchOrder → Result ShopError Shop
    closed c = elim c [
      | none ↦ ok shop
      | some order ↦ if is_pending_payment order.status then release_order order shop else ok shop
    ]

    go :
        (order : MerchOrder)
        → find order.id shop.orders ≡ some order
        → (b : Bool) → (if b then release_order order shop else ok shop) ≡ ok after
        → Keeps v shop after
    go order found true h =
        release_order-Keeps v order shop
          (λ r e. ap (λ (o : MerchOrder). o.items) (find_same order.id shop.orders e found)) h
    go order found false h = unchanged v shop h
