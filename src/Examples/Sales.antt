-- ===== src/Examples/Sales.antt =====
-- A shop with two variants and its orders.
use ticketing_platform.Prelude.{
  Distinct, List, [], ap, claim, find, find_first, keep, none, ok, refl, some, sym, true, update,
  ◌∷◌, ◌≡◌,
}
use ticketing_platform.Prelude.Int.{pos, ℤ, ◌+ℤ◌, ◌-ℤ◌}
use ticketing_platform.Access.{Event, assert_owner, event_keyed, is_admin, organizer, published}
use ticketing_platform.Pricing.{Currency, FeePayer, other}
use ticketing_platform.Shop.{
  MerchOrder, MerchQuote, OrderItem, OrderStatus, Product, Shop, Variant, cancelled, delivery,
  is_pending_payment, order_keyed, paid, pending_payment, pickup, put_back, reserve, take_again,
  update_variant, variant_keyed,
}
use ticketing_platform.Shop.Orders.{
  allows, check_update, commit_update, create_pending_order, expire_stale_orders, fits_fulfillment,
  is_cancelled, is_for_payment, is_fulfilled, is_stale, mark_paid, mark_paid_for_payment, order_of,
  pay, release_all, release_order, set_paid, set_status, update_order_status,
}
use ticketing_platform.Shop.Units.{ordered, units}
use ticketing_platform.Shop.History.{Reach, Reach-units, creates, expires, here, next}
use ticketing_platform.Shop.Quote.{Line, quote_total}
use ticketing_platform.Shop.Quotes.{quote_total-conserves}
use ticketing_platform.Shop.Races.{cancel_twice-units}

abbrev dollars : Currency
dollars = other 840

abbrev shirts : Product
shirts = record { event_id = 7; price = 1500; currency = dollars; is_active = true }

abbrev concert : Event
concert = record {
  id = 7;
  organizer_id = 1;
  status = published;
  start_date = 1000;
  end_date = 2000;
  total_capacity = 10;
  fee_payer = FeePayer.buyer;
  merch_delivery_fee = some 300;
}

abbrev variants_left : ℤ → List Variant
variants_left n =
    record { id = 10; product = shirts; stock = n }
    ∷ record { id = 11; product = shirts; stock = pos 4 }
    ∷ []

abbrev two_shirts : List OrderItem
two_shirts = record { variant_id = 10; unit_price = 1500; quantity = 2 } ∷ []

abbrev order_in : OrderStatus → MerchOrder
order_in status = record {
  id = 1;
  event_id = 7;
  payment_id = some 5;
  fulfillment = pickup;
  total = 3000;
  status = status;
  created_at = 100;
  paid_at = none;
  fulfilled_at = none;
  items = two_shirts;
}

abbrev shop_with : ℤ → OrderStatus → Shop
shop_with n status = record { variants = variants_left n; orders = order_in status ∷ [] }

abbrev empty_shop : Shop
empty_shop = record { variants = variants_left (pos 5); orders = [] }

abbrev shirts_quote : MerchQuote
shirts_quote = record {
  lines = two_shirts;
  fulfillment = pickup;
  subtotal = 3000;
  delivery_fee = 0;
  total = 3000;
  currency = dollars;
  fee = pos 0;
  organizer_gets = 3000;
}

ordered_two :
    create_pending_order 1 7 5 shirts_quote 100 empty_shop ≡ ok (shop_with (pos 3) pending_payment)
unfolding create_pending_order reserve find update claim ◌-ℤ◌ ◌+ℤ◌
ordered_two = refl

one_order : Distinct (shop_with (pos 3) pending_payment).orders
unfolding find
one_order = (refl, tt)

abbrev paid_late : Shop
paid_late = record {
  variants = variants_left (pos 3);
  orders = set_paid 900 (order_in cancelled) ∷ [];
}

late : mark_paid_for_payment 5 900 (shop_with (pos 5) cancelled) ≡ ok paid_late
unfolding mark_paid_for_payment mark_paid pay order_of is_for_payment find_first find update
    take_again update_variant ◌-ℤ◌
late = refl

one_cancelled : Distinct (shop_with (pos 5) cancelled).orders
unfolding find
one_cancelled = (refl, tt)

abandoned :
    expire_stale_orders none 9999999 (shop_with (pos 3) pending_payment)
    ≡ (shop_with (pos 5) cancelled, ok tt)
unfolding expire_stale_orders release_all release_order is_stale is_pending_payment keep claim find
    update put_back update_variant ◌+ℤ◌
abandoned = refl

by_organizer :
    update_order_status (concert ∷ []) 7 1 1 organizer cancelled 500 (shop_with (pos 3) paid)
    ≡ ok (shop_with (pos 5) cancelled)
unfolding update_order_status assert_owner is_admin check_update commit_update allows
    fits_fulfillment is_cancelled is_fulfilled set_status put_back update_variant find update ◌+ℤ◌
by_organizer = refl

read_paid : check_update 7 1 cancelled (shop_with (pos 3) paid) ≡ ok (order_in paid)
unfolding check_update allows fits_fulfillment find
read_paid = refl

first_cancel :
    commit_update (order_in paid) cancelled 500 (shop_with (pos 3) paid)
    ≡ ok (shop_with (pos 5) cancelled)
unfolding commit_update is_cancelled is_fulfilled set_status put_back update_variant find update
    ◌+ℤ◌
first_cancel = refl

next_cancel :
    commit_update (order_in paid) cancelled 600 (shop_with (pos 5) cancelled)
    ≡ ok (shop_with (pos 7) cancelled)
unfolding commit_update is_cancelled is_fulfilled set_status put_back update_variant find update
    ◌+ℤ◌
next_cancel = refl

cancel_twice-units_example :
    units 10 (shop_with (pos 7) cancelled)
    ≡ units 10 (shop_with (pos 3) paid) +ℤ pos (ordered 10 two_shirts)
cancel_twice-units_example =
    cancel_twice-units 10 7 1 500 600 (order_in paid) (shop_with (pos 3) paid) read_paid
      first_cancel next_cancel

abbrev line : Line
line = record { variant_id = 10; unit_price = 1500; quantity = 2; currency = dollars }

quote_total-conserves_example :
    let q = quote_total delivery FeePayer.buyer dollars (line ∷ []) 300 in
    pos q.total ≡ q.fee +ℤ pos q.organizer_gets
quote_total-conserves_example =
    quote_total-conserves delivery FeePayer.buyer dollars (line ∷ []) 300 ((tt, tt), tt)

no_orders : find 1 empty_shop.orders ≡ none
unfolding find
no_orders = refl

-- The shirts are ordered, and the order expires unpaid.
sale : Reach empty_shop (shop_with (pos 5) cancelled)
sale =
    next (next here (creates 1 7 5 100 shirts_quote no_orders ordered_two))
      (expires none 9999999 (sym (ap (λ r. r.0) abandoned)))

Reach-units_example :
    (units 10 (shop_with (pos 5) cancelled) ≡ units 10 empty_shop)
    × Distinct (shop_with (pos 5) cancelled).orders
Reach-units_example = Reach-units 10 tt sale
