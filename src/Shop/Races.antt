-- ===== src/Shop/Races.antt =====
-- Two organizers who cancel one order at the same time: `updateOrderStatus` reads the order before
-- its transaction, and the transaction does not look at the status again.
use ticketing_platform.Shop.Transitions.{check_update-ok, commit_update-Keeps}
use ticketing_platform.Prelude.Int.{int_laws, pos, ◌+ℤ◌}
use ticketing_platform.Prelude.{
  ==_refl, >>=-eq-ok, ap, arith, find, find-update, key_of_find, ok, ok-injective, or_throw, refl,
  some, subst, sum_by, sum_by-update, sym, update, ℕ, ◌∙◌, ◌≡◌,
}
use ticketing_platform.Access.{cancelled, event_keyed}
use ticketing_platform.Shop.{
  MerchOrder, Shop, cancelled, order_keyed, put_back, record_not_found, variant_keyed,
}
use ticketing_platform.Shop.Orders.{check_update, commit_update, is_cancelled, set_status}
use ticketing_platform.Shop.Units.{held, held_by, holds, ordered, put_back-stock, units}

-- What a cancellation leaves in the row of the order.
after_cancel :
    (order : MerchOrder) (now : ℕ) (shop : Shop) {after : Shop}
    → find order.id shop.orders ≡ some order
    → commit_update order cancelled now shop ≡ ok after
    → find order.id after.orders ≡ some (set_status cancelled now order)
unfolding commit_update is_cancelled set_status
after_cancel order now shop found h =
    let (variants, moved, h') = >>=-eq-ok (put_back order.items shop.variants) _ h in
    let (r, _, e) = >>=-eq-ok (or_throw (find order.id shop.orders) record_not_found) _ h' in
    rw (← ok-injective e) (
      ground (
        arith,
        find-update order.id order.id (set_status cancelled now) shop.orders (λ x. refl),
        ==_refl order.id,
      ))

-- A cancellation of a row that holds nothing any more puts the items back once again.
second_cancel :
    (v : ℕ) (order r : MerchOrder) (now : ℕ) (shop : Shop) {after : Shop}
    → find order.id shop.orders ≡ some r
    → r.status ≡ cancelled
    → commit_update order cancelled now shop ≡ ok after
    → units v after ≡ units v shop +ℤ pos (ordered v order.items)
unfolding commit_update is_cancelled units held
second_cancel v order r now shop {after} found e h =
    let (variants, moved, h') = >>=-eq-ok (put_back order.items shop.variants) _ h in
    let (_, _, e') = >>=-eq-ok (or_throw (find order.id shop.orders) record_not_found) _ h' in
    let same_held : sum_by (held_by v) (update order.id (set_status cancelled now) shop.orders)
        ≡ sum_by (held_by v) shop.orders =
      unfold held_by holds set_status in
      ground
        (arith, sum_by-update (held_by v) order.id (set_status cancelled now) shop.orders found) in
    rw (← ok-injective e', put_back-stock v order.items shop.variants moved, same_held)
      (omega int_laws)

-- Two cancellations of one order that both read it before either commits put its items back twice:
-- the units of each of its variants grow by what the order held.
pub cancel_twice-units :
    (v event_id order_id now later : ℕ) (order : MerchOrder) (s : Shop) {t u : Shop}
    → check_update event_id order_id cancelled s ≡ ok order
    → commit_update order cancelled now s ≡ ok t
    → commit_update order cancelled later t ≡ ok u
    → units v u ≡ units v s +ℤ pos (ordered v order.items)
cancel_twice-units v event_id order_id now later order s {t} checks first second =
    let (found, _, allowed, _) = check_update-ok event_id order_id cancelled s checks in
    let found' : find order.id s.orders ≡ some order =
      subst (λ i. find i s.orders ≡ some order) (sym (key_of_find order_id s.orders found)) found in
    let (same, _) = commit_update-Keeps v now order cancelled s found' allowed first in
    second_cancel v order (set_status cancelled now order) later t
      (after_cancel order now s found' first) (unfold set_status in refl) second
    ∙ ap (λ x. x +ℤ pos (ordered v order.items)) same
