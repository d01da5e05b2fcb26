-- ===== src/Examples/Bills.antt =====
-- The bills of an organizer and its transfers, and a mistyped mail domain.
use ticketing_platform.Mail.Scripts.{Script, distance-shortest}
use ticketing_platform.Mail.{
  cheapest, cost, distance, first_entries, last_entry, last_of, next_entries, next_row, rows,
}
use ticketing_platform.Billing.Shares.{IsWholePayout, summary_of-sum}
use ticketing_platform.Billing.Payouts.{
  Payout, is_part_of, main, paid_part, reserve, same_part, summary_of,
}
use ticketing_platform.Billing.Settled.{grant_each, grant_each-once}
use ticketing_platform.Billing.Receipts.{
  HasDistinctReceipts, grant-distinct, has_number, with_number,
}
use ticketing_platform.Billing.Grants.{claim_bill, give, grant, grant_claimed}
use ticketing_platform.Billing.Credits.{BillingPayment, Books, Clock, billing_keyed, print_credits}
use ticketing_platform.Billing.Periods.{period_start-bounds}
use ticketing_platform.Billing.Plans.{
  Subscription, active, max_months, months_since, period_start, plan_keyed, subscription_keyed,
}
use ticketing_platform.Billing.Months.{IsDate, add_months-clamps}
use ticketing_platform.Billing.Calendar.{
  Instant, add_months, days_in, days_of_year, is_leap, is_until, set_date_zero, set_month,
}
use ticketing_platform.Payments.{
  Payment, completed, is_pending, mobile_money, payment_keyed, pending, refund_keyed,
}
use ticketing_platform.Tickets.{template_keyed, ticket_keyed}
use ticketing_platform.Shop.{order_keyed, variant_keyed}
use ticketing_platform.PrintQuota.{
  account_keyed, add_credits, credits, credits_of, set_credits, tickets,
}
use ticketing_platform.Pricing.{Currency, FeePayer}
use ticketing_platform.Access.{Event, completed, event_keyed, published}
use ticketing_platform.Prelude.Int.{pos, ◌+ℤ◌}
use ticketing_platform.Prelude.{
  List, [], arith, claim, false, find, find_first, min, none, refl, some, sum_by, true, update, ℕ,
  ◌+◌, ◌∷◌, ◌≡◌, ◌≤◌, ◌⊎◌,
}

abbrev dollars : Currency
dollars = Currency.other 840

abbrev concert : Event
concert = record {
  id = 7;
  organizer_id = 1;
  status = published;
  start_date = 1000;
  end_date = 2000;
  total_capacity = 10;
  fee_payer = FeePayer.buyer;
  merch_delivery_fee = none;
}

-- The 31st of January 2024, at noon, and the 29th of February.
abbrev january : Instant
january = record { month = 24288; day = 31; ms = 43200000 }

abbrev february : Instant
february = record { month = 24289; day = 29; ms = 43200000 }

january-IsDate : IsDate january
unfolding days_in days_of_year is_leap
january-IsDate = (omega arith, omega arith)

add_months-clamps_example :
    (add_months january 1
      ≡ record { month = 24288 + 1; day = min 31 (days_in (24288 + 1)); ms = 43200000 })
    × IsDate (add_months january 1)
add_months-clamps_example = add_months-clamps january 1 january-IsDate

last_of_february : add_months january 1 ≡ february
unfolding add_months set_month set_date_zero days_in days_of_year is_leap
last_of_february = refl

abbrev monthly : Subscription
monthly = record {
  organizer_id = 1;
  plan_id = 4;
  status = active;
  starts_at = january;
  expires_at = none;
}

begun : is_until january february ≡ true
unfolding is_until
begun = refl

period_start-bounds_example :
    (is_until (period_start monthly february) february ≡ true)
    × ((is_until (add_months january (months_since january february + 1)) february ≡ false)
        ⊎ (months_since january february ≡ max_months))
period_start-bounds_example = period_start-bounds monthly february january-IsDate begun

abbrev bill : BillingPayment
bill = record {
  id = 8;
  reference = 88;
  order_number = some 3;
  organizer_id = 1;
  bought = print_credits tickets 50;
  amount = 100;
  method = mobile_money;
  status = pending;
  paid_at = none;
  receipt_number = none;
  created_at = 10;
}

abbrev books : Books
books = record {
  bills = bill ∷ [];
  accounts = [];
  plans = record { plans = []; subscriptions = [] };
}

abbrev clock : Clock
clock = record { ms = 500; date = january }

grant_each-once_example : grant_each bill (clock ∷ clock ∷ []) books ≡ (grant bill clock books).0
grant_each-once_example = grant_each-once bill clock (clock ∷ []) books

-- The first grant of the example gives the credits.
granted_credits : credits tickets 1 (grant bill clock books).0.accounts ≡ 50
unfolding grant grant_claimed claim_bill claim find update is_pending give add_credits credits
    credits_of set_credits
granted_credits = refl

no_receipts : HasDistinctReceipts books.bills
unfolding with_number sum_by has_number
no_receipts n = omega arith

grant-distinct_example : HasDistinctReceipts (grant bill clock books).0.bills
grant-distinct_example = grant-distinct bill clock books no_receipts

abbrev sale : Payment
sale = record {
  id = 5;
  reference = 55;
  order_number = some 900;
  event_id = 7;
  holder = 9;
  amount = 1635;
  currency = dollars;
  method = mobile_money;
  ticket_amount = 1500;
  fee_amount = pos 135;
  fee_payer = some FeePayer.buyer;
  net_amount = some 1500;
  status = completed;
  items = [];
  provider_ref = none;
  tickets_data = [];
  created_at = 100;
}

abbrev first_transfer : List Payout
first_transfer =
    record {
      id = 1;
      event_id = 7;
      organizer_id = 1;
      part = main;
      amount = pos 1350;
      currency = dollars;
      paid_at = 9;
    }
    ∷ []

no_reserve : paid_part 7 reserve first_transfer ≡ none
unfolding paid_part find_first is_part_of same_part
no_reserve = refl

whole_transfer : IsWholePayout (paid_part 7 main first_transfer) dollars
unfolding paid_part find_first is_part_of same_part
whole_transfer = (tt, tt)

summary_of-sum_example :
    let r = summary_of concert (sale ∷ []) first_transfer 9999 dollars in
    r.main.amount +ℤ r.reserve.amount ≡ r.net
summary_of-sum_example =
    summary_of-sum concert (sale ∷ []) first_transfer 9999 dollars no_reserve whole_transfer

-- gmall, gmail
abbrev typed : List ℕ
typed = 103 ∷ 109 ∷ 97 ∷ 108 ∷ 108 ∷ []

abbrev meant : List ℕ
meant = 103 ∷ 109 ∷ 97 ∷ 105 ∷ 108 ∷ []

distance-shortest_example :
    Script (distance typed meant) typed meant
    × ((n : ℕ) → Script n typed meant → distance typed meant ≤ n)
distance-shortest_example = distance-shortest typed meant

one_letter : distance typed meant ≡ 1
unfolding distance last_of last_entry rows next_row next_entries first_entries cheapest cost
one_letter = refl
