-- ===== src/Shop/History.antt =====
-- Any history of the shop: the requests of buyers and organizers and the payments' outcomes, one
-- after the other.
use ticketing_platform.Shop.Payments.{cancel_for_payment-Keeps, mark_paid_for_payment-Keeps}
use ticketing_platform.Shop.Transitions.{update_order_status-Keeps}
use ticketing_platform.Shop.Conservation.{
  Agrees, Keeps, create_pending_order-units, release_order-Keeps, release_order-cases,
}
use ticketing_platform.Shop.Units.{units}
use ticketing_platform.Prelude.{
  >>=-eq-ok, All, All-take, Distinct, List, Option, Option-cases, Result, [], ap, append-Distinct,
  arith, err, find, find-update, find_same, inl, inr, keep, keep-found, none, ok, ok-injective,
  refl, some, take, update, ℕ, ◌∙◌, ◌∷◌, ◌≡◌,
}
use ticketing_platform.Access.{Event, Role, event_keyed}
use ticketing_platform.Shop.{
  MerchOrder, MerchQuote, OrderStatus, Shop, ShopError, order_keyed, reserve, variant_keyed,
}
use ticketing_platform.Shop.Orders.{
  cancel_for_payment, create_pending_order, expire_stale_orders, is_stale, mark_paid_for_payment,
  release_all, release_order, set_cancelled, update_order_status,
}

-- What every operation keeps of the order table while it changes one row: the keys, and the items.
set_cancelled-Agrees :
    (i : ℕ) (o : MerchOrder) (orders : List MerchOrder)
    → Agrees o orders
    → Agrees o (update i set_cancelled orders)
set_cancelled-Agrees i o orders a r h = elim (Option-cases (find o.id orders)) [
  | inl missing ↦ ground (arith, find-update i o.id set_cancelled orders (λ x. refl))
  | inr (x, found) ↦ ground (arith, find-update i o.id set_cancelled orders (λ x. refl), a x found)
]

release_order-Agrees :
    (order : MerchOrder) (shop : Shop) {after : Shop}
    → release_order order shop ≡ ok after
    → (o : MerchOrder) → Agrees o shop.orders
    → Agrees o after.orders
release_order-Agrees order shop h o a = elim (release_order-cases order shop h) [
  | inl same_shop ↦ rw same_shop a
  | inr (r, variants, found, pending, returned, e) ↦
      rw e (set_cancelled-Agrees order.id o shop.orders a)
]

All-Agrees :
    (os before after : List MerchOrder)
    → ((o : MerchOrder) → Agrees o before → Agrees o after)
    → All (λ o. Agrees o before) os
    → All (λ o. Agrees o after) os
All-Agrees [] before after k a = tt
All-Agrees (o ∷ os) before after k a = (k o a.0, All-Agrees os before after k a.1)

-- A loop of releases keeps the units, also where an exception ends it early.
release_all-keeps :
    (v : ℕ) (os : List MerchOrder) (shop : Shop)
    → All (λ o. Agrees o shop.orders) os
    → Distinct shop.orders
    → (units v (release_all os shop).0 ≡ units v shop) × Distinct (release_all os shop).0.orders
unfolding release_all
release_all-keeps v [] shop a d = (refl, d)
release_all-keeps v (o ∷ os) shop a d = go (release_all-keeps v os) (release_order o shop) refl
  where
    go :
        ((s : Shop)
          → All (λ x. Agrees x s.orders) os
          → Distinct s.orders
          → (units v (release_all os s).0 ≡ units v s) × Distinct (release_all os s).0.orders)
        → (c : Result ShopError Shop) → release_order o shop ≡ c
        → (units v (release_all (o ∷ os) shop).0 ≡ units v shop)
          × Distinct (release_all (o ∷ os) shop).0.orders
    go rest (err e) h = rw (h, release_all) (refl, d)
    go rest (ok next) h =
        let (same, distinct) = release_order-Keeps v o shop a.0 h in
        let agree = release_order-Agrees o shop h in
        let (same', d') =
          rest next (All-Agrees os shop.orders next.orders agree a.1) (distinct d) in
        rw (h, release_all) (same' ∙ same, d')

found-Agrees :
    (orders os : List MerchOrder)
    → All (λ o. find o.id orders ≡ some o) os
    → All (λ o. Agrees o orders) os
found-Agrees orders [] a = tt
found-Agrees orders (o ∷ os) a = (
  (λ r h. ap (λ (x : MerchOrder). x.items) (find_same o.id orders h a.0)),
  found-Agrees orders os a.1,
)

-- The release of abandoned checkouts, where the orders have distinct identifiers, keeps the units of
-- every variant and the identifiers distinct, also where an exception ends it early.
pub expire_stale_orders-units :
    (v : ℕ) (event_id : Option ℕ) (now : ℕ) (shop : Shop)
    → Distinct shop.orders
    → (units v (expire_stale_orders event_id now shop).0 ≡ units v shop)
      × Distinct (expire_stale_orders event_id now shop).0.orders
unfolding expire_stale_orders
expire_stale_orders-units v event_id now shop d =
    let stale = keep (is_stale now event_id) shop.orders in
    release_all-keeps v (take 100 stale) shop
      (All-take (λ o. Agrees o shop.orders) 100 stale
        (found-Agrees shop.orders stale (keep-found (is_stale now event_id) shop.orders d)))
      d

-- One request that goes through, or the clean-up with whatever exception ended it. The database
-- gives a new order an identifier that no other has.
pub data Step : Shop → Shop → Type 0 where
  creates :
      {s t : Shop} (id event_id payment_id now : ℕ) (q : MerchQuote)
      → find id s.orders ≡ none
      → create_pending_order id event_id payment_id q now s ≡ ok t
      → Step s t
  marks_paid :
      {s t : Shop} (payment_id now : ℕ) → mark_paid_for_payment payment_id now s ≡ ok t → Step s t
  cancels : {s t : Shop} (payment_id : ℕ) → cancel_for_payment payment_id s ≡ ok t → Step s t
  expires :
      {s t : Shop} (event_id : Option ℕ) (now : ℕ)
      → t ≡ (expire_stale_orders event_id now s).0
      → Step s t
  updates :
      {s t : Shop} (events : List Event) (event_id order_id user_id : ℕ) (role : Role)
      (status : OrderStatus) (now : ℕ)
      → update_order_status events event_id order_id user_id role status now s ≡ ok t
      → Step s t

pub data Reach (s : Shop) : Shop → Type 0 where
  here : Reach s s
  next : {t u : Shop} → Reach s t → Step t u → Reach s u

create_pending_order-Distinct :
    (id event_id payment_id now : ℕ) (q : MerchQuote) (shop : Shop) {after : Shop}
    → find id shop.orders ≡ none
    → create_pending_order id event_id payment_id q now shop ≡ ok after
    → Distinct shop.orders
    → Distinct after.orders
unfolding create_pending_order
create_pending_order-Distinct id event_id payment_id now q shop fresh h d =
    let (variants, reserved, e) = >>=-eq-ok (reserve q.lines shop.variants) _ h in
    rw (← ok-injective e) (append-Distinct shop.orders _ d fresh)

Step-Keeps : (v : ℕ) {s t : Shop} → Step s t → Distinct s.orders → Keeps v s t
Step-Keeps v {s = s} (creates id event_id payment_id now q fresh h) d = (
  create_pending_order-units v id event_id payment_id now q s h,
  create_pending_order-Distinct id event_id payment_id now q s fresh h,
)
Step-Keeps v {s = s} (marks_paid payment_id now h) d =
    mark_paid_for_payment-Keeps v payment_id now s d h
Step-Keeps v {s = s} (cancels payment_id h) d = cancel_for_payment-Keeps v payment_id s d h
Step-Keeps v {s = s} (expires event_id now e) d =
    let (same, d') = expire_stale_orders-units v event_id now s d in rw e (same, λ _. d')
Step-Keeps v {s = s} (updates events event_id order_id user_id role status now h) d =
    update_order_status-Keeps v events event_id order_id user_id role status now s h

-- In a history of reservations, payments, releases, expiries and transitions, from any state whose
-- orders have distinct identifiers, the stock of each variant and what the live orders hold of it
-- add up to the same number of units throughout.
pub Reach-units :
    (v : ℕ) {s t : Shop}
    → Distinct s.orders
    → Reach s t
    → (units v t ≡ units v s) × Distinct t.orders
Reach-units v d here = (refl, d)
Reach-units v d (next r st) =
    let (same, d') = Reach-units v d r in
    let (same', keep_distinct) = Step-Keeps v st d' in (same' ∙ same, keep_distinct d')
