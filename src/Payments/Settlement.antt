-- ===== src/Payments/Settlement.antt =====
-- What FlexPay answers about a transaction, and the two writes that a pending payment waits for: it
-- fails, or it is claimed by the request that will issue its tickets.
use ticketing_platform.Prelude.{
  Bool, List, Option, Result, claim, err, false, if◌then◌else◌, ltb, none, not, ok, some, ℕ, ◌+◌,
  ◌||◌,
}
use ticketing_platform.Shop.{order_keyed, variant_keyed}
use ticketing_platform.Shop.Orders.{cancel_for_payment}
use ticketing_platform.Payments.{
  Payment, PaymentError, PaymentStatus, Sales, failed, is_pending, of_shop, payment_keyed,
  refund_keyed, set_status,
}

-- FlexPay's answer to a check: whether its code and the transaction's status are '0', and the
-- amount, of whole cents and not below zero, `none` where parseFloat reads no number. There is no
-- answer where the request throws.
pub record CheckReply : Type 0 where
  pub code_ok : Bool
  pub transaction_ok : Bool
  pub amount : Option ℕ

pub data Verification : Type 0 where
  verified rejected unreachable : Verification

-- Math.abs(verifiedAmount - expectedAmount) > 0.01, which is false of NaN
unfoldable pub differs : Option ℕ → ℕ → Bool
differs none b = false
differs (some a) b = ltb (b + 1) a || ltb (a + 1) b

-- verifyWithFlexPay
unfoldable pub verify_with_flexpay : Option CheckReply → ℕ → Verification
verify_with_flexpay none expected = unreachable
verify_with_flexpay (some r) expected =
    if not r.code_ok || not r.transaction_ok
    then rejected
    else if differs r.amount expected
    then rejected
    else verified

-- updateMany({ where: { id, status: 'PENDING' }, data: { status } })
unfoldable pub leave_pending : ℕ → PaymentStatus → List Payment → Option (List Payment)
leave_pending i status = claim i (λ (p : Payment). is_pending p.status) (set_status status)

-- cancelForPayment after the status is written: a transaction of its own.
unfoldable pub release_items : ℕ → Sales → Sales × Result PaymentError (Unit {0})
release_items i s = elim (cancel_for_payment i s.shop) [
  | ok shop ↦ (record s { shop = shop }, ok tt)
  | err e ↦ (s, err (of_shop e))
]

-- failPayment after its updateMany: `none` where that wrote nothing.
unfoldable pub fail_claimed :
    ℕ → Sales → Option (List Payment) → Sales × Result PaymentError (Unit {0})
fail_claimed i s none = (s, ok tt)
fail_claimed i s (some payments) = release_items i (record s { payments = payments })

-- failPayment
unfoldable pub fail_payment : ℕ → Sales → Sales × Result PaymentError (Unit {0})
fail_payment i s = fail_claimed i s (leave_pending i failed s.payments)
