-- ===== src/Shop/Transitions.antt =====
-- What a change of status by the organizer leaves of the units of a variant.
use ticketing_platform.Prelude.{
  >>=-eq-ok, Bool, List, Option-cases, Result, ap, arith, err, false, find, if◌then◌else◌,
  key_of_find, ok, ok-injective, or_throw, refl, some, sum_by-update, sym, true, update-Distinct, ℕ,
  ◌+◌, ◌>>=◌, ◌∙◌, ◌≡◌,
}
use ticketing_platform.Prelude.Int.{pos, ◌+ℤ◌}
use ticketing_platform.Access.{AccessError, Event, Role, assert_owner, event_keyed}
use ticketing_platform.Shop.{
  MerchOrder, OrderStatus, Shop, ShopError, Variant, access, order_keyed, put_back,
  record_not_found, variant_keyed,
}
use ticketing_platform.Shop.Orders.{
  allows, check_update, commit_update, fits_fulfillment, is_cancelled, is_fulfilled, set_status,
  update_order_status,
}
use ticketing_platform.Shop.Units.{
  +ℤ_zero, held, held_by, holds, ordered, put_back-stock, stock_of, units,
}
use ticketing_platform.Shop.Conservation.{Keeps, back}

pub check_update-ok :
    (event_id order_id : ℕ) (status : OrderStatus) (shop : Shop) {order : MerchOrder}
    → check_update event_id order_id status shop ≡ ok order
    → (find order_id shop.orders ≡ some order)
      × (order.event_id ≡ event_id)
      × (allows order.status status ≡ true)
      × (fits_fulfillment order.fulfillment status ≡ ok tt)
unfolding check_update
check_update-ok event_id order_id status shop h =
    ground (arith, Option-cases (find order_id shop.orders))

cancelled_held :
    (v now : ℕ) (order : MerchOrder) (status : OrderStatus)
    → allows order.status status ≡ true
    → held_by v (set_status status now order)
        + (if is_cancelled status then ordered v order.items else 0)
      ≡ held_by v order
unfolding allows held_by holds set_status is_cancelled is_fulfilled
cancelled_held v now order status h = ground arith

-- A transition of the organizer gives the items back if it cancels the order, and else keeps them.
pub commit_update-Keeps :
    (v now : ℕ) (order : MerchOrder) (status : OrderStatus) (shop : Shop) {after : Shop}
    → find order.id shop.orders ≡ some order
    → allows order.status status ≡ true
    → commit_update order status now shop ≡ ok after
    → Keeps v shop after
unfolding commit_update units held set_status
commit_update-Keeps v now order status shop {after} found allowed h =
    let (variants, moved, h') =
      >>=-eq-ok
        (if is_cancelled status then put_back order.items shop.variants else ok shop.variants) _
        h in
    let (r, _, e) = >>=-eq-ok (or_throw (find order.id shop.orders) record_not_found) _ h' in
    rw (← ok-injective e) (
      back _ _ (held v shop.orders) _ (if is_cancelled status then ordered v order.items else 0)
          (returned (is_cancelled status) variants moved)
          (omega (
            arith,
            sum_by-update (held_by v) order.id (set_status status now) shop.orders found,
            cancelled_held v now order status allowed,
          )),
      update-Distinct order.id (set_status status now) shop.orders (λ x. refl),
    )
  where
    returned :
        (b : Bool) (variants : List Variant)
        → (if b then put_back order.items shop.variants else ok shop.variants) ≡ ok variants
        → stock_of v variants
          ≡ stock_of v shop.variants +ℤ pos (if b then ordered v order.items else 0)
    returned true variants m = put_back-stock v order.items shop.variants m
    returned false variants m =
        ap (stock_of v) (sym (ok-injective m)) ∙ sym (+ℤ_zero (stock_of v shop.variants))

-- A change of status by the organizer that goes through keeps the units of every variant: a
-- cancellation puts the items of the order back. Distinct identifiers of orders stay distinct.
pub update_order_status-Keeps :
    (v : ℕ) (events : List Event) (event_id order_id user_id : ℕ) (role : Role)
    (status : OrderStatus) (now : ℕ) (shop : Shop) {after : Shop}
    → update_order_status events event_id order_id user_id role status now shop ≡ ok after
    → Keeps v shop after
unfolding update_order_status
update_order_status-Keeps v events event_id order_id user_id role status now shop {after} h =
    go (assert_owner events event_id user_id role) h
  where
    checked : Result AccessError Event → Result ShopError Shop
    checked c = elim c [
      | err e ↦ err (access e)
      | ok _ ↦ check_update event_id order_id status shop >>= λ order.
          commit_update order status now shop
    ]

    go : (c : Result AccessError Event) → checked c ≡ ok after → Keeps v shop after
    go (err e) h = cc
    go (ok event) h =
        let (order, checks, done) = >>=-eq-ok (check_update event_id order_id status shop) _ h in
        let (found, _, allowed, _) = check_update-ok event_id order_id status shop checks in
        let same_id : order.id ≡ order_id = key_of_find order_id shop.orders found in
        commit_update-Keeps v now order status shop (rw same_id found) allowed done
