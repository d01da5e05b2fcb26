-- ===== src/Shop/Conservation.antt =====
-- The units of a variant through the reservation and the release of an order.

use ticketing_platform.Prelude.Int.{int_laws, pos, ℤ, ◌+ℤ◌}
use ticketing_platform.Prelude.{
  >>=-eq-ok, Bool, Distinct, List, Option, Option-cases, Result, [], ap, arith, claim,
  claim-eq-some, find, inl, inr, none, ok, ok-injective, refl, some, subst, sum_by, sum_by-append,
  sum_by-update, sym, true, update, update-Distinct, ℕ, ◌+◌, ◌>>=◌, ◌∙◌, ◌∷◌, ◌≡◌, ◌⊎◌,
}
use ticketing_platform.Access.{event_keyed}
use ticketing_platform.Shop.{
  MerchOrder, MerchQuote, Shop, ShopError, Variant, is_pending_payment, order_keyed, put_back,
  reserve, variant_keyed,
}
use ticketing_platform.Shop.Orders.{create_pending_order, release_order, set_cancelled}
use ticketing_platform.Shop.Units.{
  held, held_by, holds, ordered, put_back-stock, reserve-stock, units,
}

-- What goes back to the stock leaves the orders.
pub back : (x y : ℤ) (h h' q : ℕ) → y ≡ x +ℤ pos q → h' + q ≡ h → y +ℤ pos h' ≡ x +ℤ pos h
back x y h h' q e k = rw e (omega int_laws)

-- What leaves the stock goes to the orders.
pub out : (x y : ℤ) (h h' q : ℕ) → y +ℤ pos q ≡ x → h' ≡ h + q → y +ℤ pos h' ≡ x +ℤ pos h
out x y h h' q e k = rw (← e) (omega int_laws)

-- A new order holds what was reserved for it, so the units of every variant stay the same.
pub create_pending_order-units :
    (v id event_id payment_id now : ℕ) (q : MerchQuote) (shop : Shop) {after : Shop}
    → create_pending_order id event_id payment_id q now shop ≡ ok after
    → units v after ≡ units v shop
unfolding create_pending_order units held held_by sum_by
create_pending_order-units v id event_id payment_id now q shop h =
    let (variants, reserved, e) = >>=-eq-ok (reserve q.lines shop.variants) _ h in
    rw (← ok-injective e) (
      out _ _ (held v shop.orders) _ (ordered v q.lines)
        (reserve-stock v q.lines shop.variants reserved)
        (omega (arith, sum_by-append (held_by v) shop.orders (_ ∷ []))))

-- The snapshot of an order has the items of the order's row.
abbrev pub Agrees : MerchOrder → List MerchOrder → Type 0
Agrees order orders = (r : MerchOrder) → find order.id orders ≡ some r → r.items ≡ order.items

pub held_by_pending :
    (v : ℕ) (o : MerchOrder) → is_pending_payment o.status ≡ true → held_by v o ≡ ordered v o.items
unfolding held_by is_pending_payment
held_by_pending v o h = ground arith

release_hit-units :
    (v : ℕ) (order : MerchOrder) (shop : Shop) (r : MerchOrder) (variants : List Variant)
    {after : Shop}
    → find order.id shop.orders ≡ some r
    → is_pending_payment r.status ≡ true
    → r.items ≡ order.items
    → put_back order.items shop.variants ≡ ok variants
    → after ≡ record { variants = variants; orders = update order.id set_cancelled shop.orders }
    → units v after ≡ units v shop
unfolding units held
release_hit-units v order shop r variants found pending same returned e = rw e (
    back _ _ (held v shop.orders) _ (ordered v order.items)
      (put_back-stock v order.items shop.variants returned)
      (unfold held_by holds in
        omega (
          arith,
          sum_by-update (held_by v) order.id set_cancelled shop.orders found,
          held_by_pending v r pending,
          ap (ordered v) same,
        )))

-- A release does nothing, or cancels the pending row and puts the items of the snapshot back.
pub release_order-cases :
    (order : MerchOrder) (shop : Shop) {after : Shop}
    → release_order order shop ≡ ok after
    → (after ≡ shop)
      ⊎ ((r : MerchOrder) × (variants : List Variant) × (find order.id shop.orders ≡ some r)
          × (is_pending_payment r.status ≡ true)
          × (put_back order.items shop.variants ≡ ok variants)
          × (after
              ≡ record { variants = variants; orders = update order.id set_cancelled shop.orders }))
unfolding release_order
release_order-cases order shop {after} h =
    elim (Option-cases (claim order.id is_pending set_cancelled shop.orders)) [
      | inl missed ↦ inl (sym (ok-injective (subst (λ c. released c ≡ ok after) missed h)))
      | inr (orders, hit) ↦
          let (r, found, pending, e) =
            claim-eq-some order.id is_pending set_cancelled shop.orders hit in
          let (variants, returned, e') =
            >>=-eq-ok (put_back order.items shop.variants) _
              (subst (λ c. released c ≡ ok after) hit h) in
          inr (
            r,
            variants,
            found,
            pending,
            returned,
            sym (ok-injective e') ∙ ap (λ os. record { variants = variants; orders = os }) e,
          )
    ]
  where
    is_pending : MerchOrder → Bool
    is_pending o = is_pending_payment o.status

    released : Option (List MerchOrder) → Result ShopError Shop
    released c = elim c [
      | none ↦ ok shop
      | some orders ↦ put_back order.items shop.variants >>= λ variants.
          ok (record { variants = variants; orders = orders })
    ]

-- The units of a variant stay the same, and the identifiers of the orders distinct.
abbrev pub Keeps : ℕ → Shop → Shop → Type 0
Keeps v s t = (units v t ≡ units v s) × (Distinct s.orders → Distinct t.orders)

pub unchanged :
    (v : ℕ) (s : Shop) {t : Shop} → ◌≡◌ {A = Result ShopError Shop} (ok s) (ok t) → Keeps v s t
unchanged v s e = rw (← ok-injective e) (refl, λ d. d)

-- A release gives back what the order held, and does nothing if the order is not pending any more.
pub release_order-Keeps :
    (v : ℕ) (order : MerchOrder) (shop : Shop) {after : Shop}
    → Agrees order shop.orders
    → release_order order shop ≡ ok after
    → Keeps v shop after
release_order-Keeps v order shop same h = elim (release_order-cases order shop h) [
  | inl same_shop ↦ rw same_shop (refl, λ d. d)
  | inr (r, variants, found, pending, returned, e) ↦ (
    release_hit-units v order shop r variants found pending (same r found) returned e,
    λ d. rw e (update-Distinct order.id set_cancelled shop.orders (λ x. refl) d),
  )
]
