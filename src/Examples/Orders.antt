-- ===== src/Examples/Orders.antt =====
-- An order and its price, a phone number, and free tickets.
use ticketing_platform.Examples.Sample.{concert, sales_in, tariff_with}
use ticketing_platform.Payments.Balance.{HasWholeRows, check_order-conserves}
use ticketing_platform.Shop.Quote.{
  Line, is_sellable, one_currency, quote, quote_delivery, quote_line, quote_lines, quote_total,
}
use ticketing_platform.Payments.FreeWindow.{
  FreeCall, IsFresh, free_window-bound, grant_free, grant_free_each,
}
use ticketing_platform.Payments.FreeTickets.{
  Contact, Counter, add_taken, by_ip, count_ip, count_of, counter_keyed, free_tickets_per_day,
  is_live, reserve_free_tickets,
}
use ticketing_platform.Payments.Checkout.{
  Basket, Priced, check_event, check_item, check_items, check_order, is_empty, is_published,
  is_sold_by, lift_quote, price_order, quote_merch, read_items, shared_currency,
}
use ticketing_platform.Payments.Numbers.{normalize_drc_phone-format}
use ticketing_platform.Payments.Phone.{
  after_prefix, all_digits, digits_of, format_drc_phone, is_digit, is_subscriber,
  is_subscriber_start, national, normalize_drc_phone, starts_with_zero, without_first, without_zero,
}
use ticketing_platform.Payments.{PaymentStatus, Sales, mobile_money, payment_keyed, refund_keyed}
use ticketing_platform.Tickets.{template_keyed, ticket_keyed}
use ticketing_platform.Shop.{order_keyed, pickup, variant_keyed}
use ticketing_platform.PrintQuota.{account_keyed}
use ticketing_platform.Pricing.{Currency, FeePayer, same_currency}
use ticketing_platform.Access.{event_keyed}
use ticketing_platform.Prelude.Int.{pos, ◌+ℤ◌}
use ticketing_platform.Prelude.{
  List, [], all_distinct, any, arith, count_where, false, find, includes, keep, ok, refl, some,
  true, update, ℕ, ◌∷◌, ◌≡◌, ◌≤◌,
}

abbrev dollars : Currency
dollars = Currency.other 840

-- 089 123 4567
abbrev typed_phone : List ℕ
typed_phone = 48 ∷ 56 ∷ 57 ∷ 32 ∷ 49 ∷ 50 ∷ 51 ∷ 32 ∷ 52 ∷ 53 ∷ 54 ∷ 55 ∷ []

-- 243891234567
abbrev stored_phone : List ℕ
stored_phone = 50 ∷ 52 ∷ 51 ∷ 56 ∷ 57 ∷ 49 ∷ 50 ∷ 51 ∷ 52 ∷ 53 ∷ 54 ∷ 55 ∷ []

stored_one : normalize_drc_phone typed_phone ≡ some stored_phone
unfolding normalize_drc_phone digits_of keep is_digit national after_prefix without_zero
    starts_with_zero without_first is_subscriber is_subscriber_start all_digits
stored_one = refl

normalize_drc_phone-format_example :
    (normalize_drc_phone stored_phone ≡ some stored_phone)
    × (normalize_drc_phone (format_drc_phone stored_phone) ≡ some stored_phone)
normalize_drc_phone-format_example = normalize_drc_phone-format typed_phone stored_one

abbrev basket : Basket
basket = record {
  holder = 9;
  email = 1;
  phone = typed_phone;
  items = record { template_id = 20; quantity = 1 } ∷ [];
  merch = record { variant_id = 10; quantity = 2 } ∷ [];
  fulfillment = some pickup;
  has_address = false;
  method = mobile_money;
}

abbrev desk_sales : Sales
desk_sales = sales_in PaymentStatus.pending

abbrev shirts : Line
shirts = record { variant_id = 10; unit_price = 1500; quantity = 2; currency = dollars }

abbrev priced_order : Priced
priced_order =
    price_order concert stored_phone ((tariff_with 2, 1) ∷ [])
      (some (quote_total pickup FeePayer.buyer dollars (shirts ∷ []) 0)) dollars

checked : check_order (λ _. true) 7 basket desk_sales ≡ ok priced_order
unfolding check_order check_event is_published is_empty find read_items all_distinct includes keep
    is_sold_by check_items check_item quote_merch lift_quote quote is_sellable quote_lines
    quote_line one_currency any same_currency quote_delivery shared_currency normalize_drc_phone
    digits_of is_digit national after_prefix without_zero starts_with_zero without_first
    is_subscriber is_subscriber_start all_digits quote_total
checked = refl

whole_rows : HasWholeRows desk_sales priced_order.event priced_order.currency
unfolding price_order
whole_rows = record { tariffs = (tt, tt); products = (tt, tt); delivery = λ n is. tt }

check_order-conserves_example : pos priced_order.total ≡ priced_order.fee +ℤ pos priced_order.net
check_order-conserves_example =
    check_order-conserves (λ _. true) 7 basket desk_sales checked whole_rows

abbrev nobody : Contact
nobody = record { email = 1; phone = stored_phone }

abbrev counters_with : ℕ → List Counter
counters_with n = record { ip = 77; taken = n; expires_at = some 86400500 } ∷ []

counted :
    reserve_free_tickets (λ _. nobody) nobody (some 77) 2 1000 [] (counters_with 1)
    ≡ ok (counters_with 3)
unfolding reserve_free_tickets count_where by_ip count_of is_live count_ip add_taken find update
counted = refl

abbrev free_call : ℕ → ℕ → FreeCall
free_call quantity now = record { who = nobody; quantity = quantity; now = now; tickets = [] }

-- Of three and four, the four are refused, and the two after them are granted.
three_calls :
    (grant_free_each
      (λ _. nobody)
      77
      (free_call 3 1000 ∷ free_call 4 2000 ∷ free_call 2 3000 ∷ [])
      []).1
    ≡ 5
unfolding grant_free_each grant_free reserve_free_tickets count_where by_ip count_of is_live
    count_ip add_taken find update
three_calls = refl

none_counted : IsFresh 77 1000 []
unfolding find count_of
none_counted t h = refl

free_window-bound_example :
    (grant_free_each
      (λ _. nobody)
      77
      (free_call 3 1000 ∷ free_call 4 2000 ∷ free_call 2 3000 ∷ [])
      []).1
    ≤ free_tickets_per_day
free_window-bound_example =
    free_window-bound (λ _. nobody) 77 1000
      (free_call 3 1000 ∷ free_call 4 2000 ∷ free_call 2 3000 ∷ []) [] none_counted
      (
        (omega arith, (omega arith, (omega arith, tt))),
        (omega arith, (omega arith, (omega arith, tt))),
      )
