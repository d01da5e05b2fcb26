-- ===== src/Billing/Credits.antt =====
-- What an organizer pays the platform: a month of a plan, or print credits.
-- FlexPay's answers, the clock (in milliseconds and as a date) and the identifiers are arguments.
use ticketing_platform.Prelude.Double.{ceil_cents}
use ticketing_platform.Billing.Subscriptions.{choose_free_plan}
use ticketing_platform.Billing.Plans.{
  PlanError, PlanRow, Plans, get_plan, not_offered, plan_keyed, subscription_keyed,
}
use ticketing_platform.Billing.Calendar.{Instant}
use ticketing_platform.Payments.Phone.{normalize_drc_phone}
use ticketing_platform.Payments.{
  PaymentMethod, PaymentStatus, card, failed, mobile_money, payment_keyed, pending, refund_keyed,
}
use ticketing_platform.PrintQuota.{Account, PrintKind, account_keyed, unit_price}
use ticketing_platform.Prelude.{
  Keyed, List, Option, Result, [], err, if◌then◌else◌, ltb, none, not, ok, or_throw, some, update,
  ℕ, ◌++◌, ◌==◌, ◌>>◌, ◌||◌, ◌∷◌,
}

pub data Bought : Type 0 where
  plan_month : ℕ → Bought
  print_credits : PrintKind → ℕ → Bought

pub record BillingPayment : Type 0 where
  pub id : ℕ
  pub reference : ℕ
  pub order_number : Option ℕ
  pub organizer_id : ℕ
  pub bought : Bought
  pub amount : ℕ
  pub method : PaymentMethod
  pub status : PaymentStatus
  pub paid_at : Option ℕ
  pub receipt_number : Option ℕ
  pub created_at : ℕ

instance abbrev pub billing_keyed : Keyed BillingPayment
billing_keyed = record { key = λ p. p.id }

-- The tables of the billing.
pub record Books : Type 0 where
  pub bills : List BillingPayment
  pub accounts : List Account
  pub plans : Plans

pub record Clock : Type 0 where
  pub ms : ℕ
  pub date : Instant

pub data BillingError : Type 0 where
  bad_quantity bad_phone bill_not_found flexpay_failed : BillingError
  of_plans : PlanError → BillingError

-- What a purchase is given: the new row's identifier and reference, and FlexPay's answer.
pub record Purchase : Type 0 where
  pub id : ℕ
  pub reference : ℕ
  pub organizer_id : ℕ
  pub method : PaymentMethod
  pub phone : List ℕ
  -- The number of the transaction, for an amount; `none` where FlexPay refuses or does not answer.
  pub ask : ℕ → Option ℕ

unfoldable pub check_phone : PaymentMethod → List ℕ → Result BillingError (Unit {0})
check_phone card phone = ok tt
check_phone mobile_money phone = or_throw (normalize_drc_phone phone) bad_phone >> ok tt

abbrev pub new_bill : Purchase → Bought → ℕ → Clock → BillingPayment
new_bill p bought amount now = record {
  id = p.id;
  reference = p.reference;
  order_number = none;
  organizer_id = p.organizer_id;
  bought = bought;
  amount = amount;
  method = p.method;
  status = pending;
  paid_at = none;
  receipt_number = none;
  created_at = now.ms;
}

abbrev pub bill_number : ℕ → BillingPayment → BillingPayment
bill_number n b = record b { order_number = some n }

abbrev pub bill_status : PaymentStatus → BillingPayment → BillingPayment
bill_status status b = record b { status = status }

-- The answer of FlexPay: the row takes the number of its transaction, or is failed.
unfoldable pub note_answer :
    ℕ → Option ℕ → List BillingPayment → List BillingPayment × Result BillingError (Unit {0})
note_answer id (some n) bills = (update id (bill_number n) bills, ok tt)
note_answer id none bills = (update id (bill_status failed) bills, err flexpay_failed)

unfoldable pub start_checked :
    Purchase
    → Bought
    → ℕ
    → Clock
    → Books
    → Result BillingError (Unit {0})
    → Books × Result BillingError (Unit {0})
start_checked p bought amount now s (err e) = (s, err e)
start_checked p bought amount now s (ok _) =
    let (bills, r) =
      note_answer p.id (p.ask amount) (s.bills ++ new_bill p bought amount now ∷ []) in
    (record s { bills = bills }, r)

-- start
unfoldable pub start :
    Purchase → Bought → ℕ → Clock → Books → Books × Result BillingError (Unit {0})
start p bought amount now s = start_checked p bought amount now s (check_phone p.method p.phone)

abbrev pub max_quantity : ℕ
max_quantity = 1000000

-- buyCredits
unfoldable pub buy_credits :
    Purchase → PrintKind → ℕ → Clock → Books → Books × Result BillingError (Unit {0})
buy_credits p kind quantity now s =
    if quantity == 0 || ltb max_quantity quantity
    then (s, err bad_quantity)
    else start p (print_credits kind quantity) (ceil_cents quantity (unit_price kind)) now s

unfoldable pub buy_found :
    Purchase → Clock → Books → Result PlanError PlanRow → Books × Result BillingError (Unit {0})
buy_found p now s (err e) = (s, err (of_plans e))
buy_found p now s (ok plan) =
    if not plan.is_active
    then (s, err (of_plans not_offered))
    else if plan.price == 0
    then (record s { plans = choose_free_plan p.organizer_id now.date s.plans }, ok tt)
    else start p (plan_month plan.id) plan.price now s

-- buyPlan; a plan without a price applies at once.
unfoldable pub buy_plan : Purchase → ℕ → Clock → Books → Books × Result BillingError (Unit {0})
buy_plan p plan_id now s = buy_found p now s (get_plan plan_id s.plans.plans)
