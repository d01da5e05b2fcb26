-- ===== src/Examples/Paying.antt =====
-- The requests on a payment of one ticket and two shirts.
use ticketing_platform.Examples.Sample.{
  codes, dollars, payment_in, sales_in, shop_with, ticketing_with,
}
use ticketing_platform.Payments.Returns.{refund-keeps}
use ticketing_platform.Payments.Confirmed.{IsConfirmed, handle_callback-IsConfirmed}
use ticketing_platform.Payments.Stale.{awaits, is_decided, settle_stale_payments-settles}
use ticketing_platform.Payments.Interleavings.{Reach-Along, Reach-once}
use ticketing_platform.Payments.Once.{begun_of, claims_of}
use ticketing_platform.Payments.Diagram.{Reach, World, claims, here, issues, next, status_of, ◌⟶*◌}
use ticketing_platform.Payments.Refunding.{
  cancel_all, cancel_issued, check_refund, commit_refund, is_closed, lift_shop, owned_event, refund,
  refund_items, refund_open, refund_order, refundable, restock,
}
use ticketing_platform.Payments.Callback.{
  Callback, Check, claims, first_number, handle_callback, is_stale_payment, judge_callback,
  judge_found, judge_number, judge_stale, judge_success, payment_of, read_callback,
  settle_stale_payments, settle_verified, verify_payment,
}
use ticketing_platform.Payments.Issue.{issue_for_payment}
use ticketing_platform.Payments.Settlement.{differs, leave_pending, verified, verify_with_flexpay}
use ticketing_platform.Payments.{
  Payment, PaymentStatus, Sales, cancelled, completed, is_completed, is_pending, is_refunded,
  payment_keyed, pending, processing, refund_keyed, refunded, requested,
}
use ticketing_platform.Tickets.Seats.{seats}
use ticketing_platform.Tickets.{cancelled, is_open, pending, template_keyed, ticket_keyed}
use ticketing_platform.PrintQuota.{account_keyed}
use ticketing_platform.Shop.Units.{units}
use ticketing_platform.Shop.Orders.{is_for_payment, order_of}
use ticketing_platform.Shop.{
  cancelled, order_keyed, put_back, refunded, update_variant, variant_keyed,
}
use ticketing_platform.Pricing.{organizer}
use ticketing_platform.Access.{assert_owner, cancelled, completed, event_keyed, is_admin, organizer}
use ticketing_platform.Prelude.Int.{◌+ℤ◌}
use ticketing_platform.Prelude.{
  All, Distinct, [], claim, false, find, find_first, includes, keep, length, none, ok, refl, some,
  take, true, update, ℕ, ◌+◌, ◌∷◌, ◌≡◌, ◌≤◌, ◌⊎◌,
}

abbrev before_claim : World
before_claim = record { sales = sales_in pending; claims = []; begun = [] }

abbrev after_issue : World
after_issue = record {
  sales = (issue_for_payment codes (payment_in pending) none 60 (sales_in processing)).0;
  claims = [];
  begun = 5 ∷ [];
}

claimed_row :
    leave_pending 5 processing (payment_in pending ∷ []) ≡ some (payment_in processing ∷ [])
unfolding leave_pending claim find update is_pending
claimed_row = refl

claimed_and_issued : Reach codes before_claim after_issue
claimed_and_issued =
    next (next here (claims (payment_in pending) claimed_row))
      (issues [] [] (payment_in pending) none 60 refl)

Reach-once_example : claims_of 5 after_issue + begun_of 5 after_issue ≤ 1
Reach-once_example = Reach-once 5 codes (refl, refl) claimed_and_issued

was_pending : status_of 5 before_claim.sales.payments ≡ some pending
unfolding status_of find
was_pending = refl

Reach-Along_example :
    (b : PaymentStatus) × (status_of 5 after_issue.sales.payments ≡ some b) × (pending ⟶* b)
Reach-Along_example = Reach-Along 5 codes (refl, refl) claimed_and_issued pending was_pending

abbrev paid_reply : Check
paid_reply n = some (record { code_ok = true; transaction_ok = true; amount = some 4635 })

settle_stale_payments-settles_example :
    All
      (λ (p : Payment).
        is_decided paid_reply p ≡ true
        → awaits p.id (settle_stale_payments codes 9999999 paid_reply (sales_in pending)).payments
          ≡ false)
      (take 50 (keep (is_stale_payment 9999999) (sales_in pending).payments))
settle_stale_payments-settles_example =
    settle_stale_payments-settles codes 9999999 paid_reply (sales_in pending)

-- The payment of the example is stale, and FlexPay's answer decides it.
stale_one :
    take 50 (keep (is_stale_payment 9999999) (sales_in pending).payments) ≡ payment_in pending ∷ []
unfolding keep is_stale_payment is_pending
stale_one = refl

decided_one : is_decided paid_reply (payment_in pending) ≡ true
unfolding is_decided judge_stale judge_number verify_payment settle_verified verify_with_flexpay
    differs
decided_one = refl

abbrev success : Callback
success = record {
  reference = some 55;
  is_success = true;
  order_number = none;
  provider_ref = none;
}

handle_callback-IsConfirmed_example :
    ((handle_callback codes 60 success paid_reply (sales_in pending)).0.ticketing
      ≡ (sales_in pending).ticketing)
    ⊎ IsConfirmed success paid_reply (sales_in pending).payments
handle_callback-IsConfirmed_example =
    handle_callback-IsConfirmed codes 60 success paid_reply (sales_in pending)

-- The callback of the example claims the payment.
claimed_one :
    read_callback success paid_reply (sales_in pending).payments ≡ claims (payment_in pending) none
unfolding read_callback judge_found payment_of find_first judge_callback judge_success first_number
    is_pending verify_payment settle_verified verify_with_flexpay differs
claimed_one = refl

abbrev refunded_sales : Sales
refunded_sales = record {
  payments = payment_in refunded ∷ [];
  refunds =
      record {
        id = 3;
        payment_id = 5;
        event_id = 7;
        organizer_id = 1;
        amount = 4635;
        currency = dollars;
        status = requested;
        paid_at = none;
      }
      ∷ [];
  shop = shop_with 5 refunded;
  ticketing = ticketing_with 3 cancelled (some 60);
}

refunded_one : refund 3 60 7 5 1 organizer (sales_in completed) ≡ ok refunded_sales
unfolding refund check_refund owned_event assert_owner is_admin is_refunded is_completed order_of
    is_for_payment find_first commit_refund claim find update keep refundable includes is_open
    cancel_all cancel_issued lift_shop refund_items refund_order is_closed refund_open restock
    put_back update_variant ◌+ℤ◌
refunded_one = refl

no_other :
    Distinct (sales_in completed).ticketing.tickets × Distinct (sales_in completed).shop.orders
unfolding find
no_other = ((refl, tt), (refl, tt))

refund-keeps_example :
    ((i : ℕ) → seats i refunded_sales.ticketing ≡ seats i (sales_in completed).ticketing)
    × ((v : ℕ) → units v refunded_sales.shop ≡ units v (sales_in completed).shop)
    × (length refunded_sales.refunds ≡ length (sales_in completed).refunds + 1)
refund-keeps_example =
    refund-keeps 3 60 7 5 1 organizer (sales_in completed) no_other.0 no_other.1 refunded_one

-- An amount that is no number passes for any.
no_number :
    verify_with_flexpay
      (some (record { code_ok = true; transaction_ok = true; amount = none }))
      4635
    ≡ verified
unfolding verify_with_flexpay differs
no_number = refl
