-- ===== src/Billing/Grants.antt =====
-- The outcome of a billing payment: it fails, or what was paid for is granted with a receipt number.
use ticketing_platform.Billing.Credits.{
  BillingError, BillingPayment, Books, Bought, Clock, bill_not_found, bill_status, billing_keyed,
  of_plans, plan_month, print_credits,
}
use ticketing_platform.Billing.Subscriptions.{activate_paid_plan}
use ticketing_platform.Billing.Plans.{plan_keyed, subscription_keyed}
use ticketing_platform.Payments.Callback.{Callback, Check, first_number}
use ticketing_platform.Payments.Settlement.{
  Verification, rejected, unreachable, verified, verify_with_flexpay,
}
use ticketing_platform.Payments.{completed, failed, is_pending, payment_keyed, refund_keyed}
use ticketing_platform.PrintQuota.{account_keyed, add_credits}
use ticketing_platform.Prelude.{
  Bool, List, Option, Result, [], claim, err, false, find_first, if◌then◌else◌, ltb, max, none, not,
  ok, or_else, some, true, ℕ, ◌&&◌, ◌+◌, ◌==◌, ◌∷◌,
}

-- fail
unfoldable pub fail_bill : ℕ → Books → Books
fail_bill id s = record s {
  bills =
      or_else (claim id (λ (b : BillingPayment). is_pending b.status) (bill_status failed) s.bills)
        s.bills;
}

unfoldable pub number_of : BillingPayment → ℕ
number_of b = elim b.receipt_number [ none ↦ 0 | some n ↦ n ]

-- aggregate({ _max: { receiptNumber } }), 0 where there is none
unfoldable pub max_receipt : List BillingPayment → ℕ
max_receipt [] = 0
max_receipt (b ∷ bs) = max (number_of b) (max_receipt bs)

abbrev pub set_receipt : ℕ → BillingPayment → BillingPayment
set_receipt n b = record b { receipt_number = some n }

unfoldable pub has_no_receipt : BillingPayment → Bool
has_no_receipt b = elim b.receipt_number [ none ↦ true | some n ↦ false ]

-- assignReceiptNumber when no other request comes in between: its first attempt goes through.
unfoldable pub assign_receipt_number : ℕ → List BillingPayment → List BillingPayment
assign_receipt_number id bills =
    or_else (claim id has_no_receipt (set_receipt (max_receipt bills + 1)) bills) bills

-- What was paid for. A plan that is gone is an exception.
unfoldable pub give :
    BillingPayment → Bought → Clock → Books → Books × Result BillingError (Unit {0})
give b (plan_month plan_id) now s =
    elim (activate_paid_plan b.organizer_id plan_id now.date s.plans) [
      | ok plans ↦ (record s { plans = plans }, ok tt)
      | err e ↦ (s, err (of_plans e))
    ]
give b (print_credits kind quantity) now s =
    (record s { accounts = add_credits kind b.organizer_id quantity s.accounts }, ok tt)

abbrev pub bill_paid : ℕ → BillingPayment → BillingPayment
bill_paid ms b = record b { status = completed; paid_at = some ms }

-- The claim of verifyAndGrant
unfoldable pub claim_bill : ℕ → ℕ → List BillingPayment → Option (List BillingPayment)
claim_bill id ms = claim id (λ (b : BillingPayment). is_pending b.status) (bill_paid ms)

unfoldable pub grant_claimed :
    BillingPayment
    → Clock
    → Books
    → Option (List BillingPayment)
    → Books × Result BillingError (Unit {0})
grant_claimed b now s none = (s, ok tt)
grant_claimed b now s (some bills) =
    give b b.bought now (record s { bills = assign_receipt_number b.id bills })

-- verifyAndGrant once FlexPay has confirmed the payment that was read
unfoldable pub grant : BillingPayment → Clock → Books → Books × Result BillingError (Unit {0})
grant b now s = grant_claimed b now s (claim_bill b.id now.ms s.bills)

abbrev pub pin_ms : ℕ
pin_ms = 900000

unfoldable pub judge_bill :
    BillingPayment → Verification → Clock → Books → Books × Result BillingError (Unit {0})
judge_bill b unreachable now s = (s, ok tt)
judge_bill b rejected now s =
    (if ltb (b.created_at + pin_ms) now.ms then fail_bill b.id s else s, ok tt)
judge_bill b verified now s = grant b now s

-- verifyAndGrant; `check` is FlexPay's answer about a transaction at that time.
unfoldable pub verify_and_grant :
    Check → BillingPayment → Option ℕ → Clock → Books → Books × Result BillingError (Unit {0})
verify_and_grant check b from_callback now s = elim (first_number b.order_number from_callback) [
  | none ↦ (s, ok tt)
  | some n ↦ judge_bill b (verify_with_flexpay (check n) b.amount) now s
]

unfoldable pub read_bill :
    Callback
    → Check
    → Clock
    → Books
    → Option BillingPayment
    → Books × Result BillingError (Unit {0})
read_bill body check now s none = (s, ok tt)
read_bill body check now s (some b) =
    if not (is_pending b.status)
    then (s, ok tt)
    else if not body.is_success
    then (fail_bill b.id s, ok tt)
    else verify_and_grant check b body.order_number now s

-- handleCallback
unfoldable pub handle_billing_callback :
    Callback → Check → Clock → Books → Books × Result BillingError (Unit {0})
handle_billing_callback body check now s = elim body.reference [
  | none ↦ (s, ok tt)
  | some reference ↦
      read_bill body check now s
        (find_first (λ (b : BillingPayment). b.reference == reference) s.bills)
]

unfoldable pub is_own_bill : ℕ → ℕ → BillingPayment → Bool
is_own_bill organizer_id reference b = b.reference == reference && b.organizer_id == organizer_id

unfoldable pub check_bill :
    Check → Clock → Books → BillingPayment → Books × Result BillingError (Unit {0})
check_bill check now s b = elim b.order_number [
  | none ↦ (s, ok tt)
  | some n ↦ if is_pending b.status then verify_and_grant check b none now s else (s, ok tt)
]

-- status, without what it shows of the row.
unfoldable pub bill_status_check :
    ℕ → ℕ → Check → Clock → Books → Books × Result BillingError (Unit {0})
bill_status_check organizer_id reference check now s =
    elim (find_first (is_own_bill organizer_id reference) s.bills) [
      | none ↦ (s, err bill_not_found)
      | some b ↦ check_bill check now s b
    ]
