-- ===== src/Payments/Callback.antt =====
-- The three ways by which a pending payment is settled: FlexPay's callback, the page that waits for
-- it, and the check of stale payments every 15 minutes. `check` is FlexPay's answer about a
-- transaction at that time, and `codes` the identifiers of new tickets.
use ticketing_platform.Prelude.{
  Bool, List, Option, Result, [], err, find_first, if◌then◌else◌, keep, ltb, none, not, ok, some,
  take, ℕ, ◌&&◌, ◌+◌, ◌==◌, ◌∷◌,
}
use ticketing_platform.Tickets.Generation.{Codes}
use ticketing_platform.Payments.{
  Payment, PaymentError, PaymentStatus, Sales, is_pending, payment_not_found,
}
use ticketing_platform.Payments.Settlement.{
  CheckReply, Verification, fail_payment, rejected, unreachable, verified, verify_with_flexpay,
}
use ticketing_platform.Payments.Issue.{claim_and_generate}

-- The body of a callback; `is_success` says that its code is '0'.
pub record Callback : Type 0 where
  pub reference : Option ℕ
  pub is_success : Bool
  pub order_number : Option ℕ
  pub provider_ref : Option ℕ

abbrev pub Check : Type 0
Check = ℕ → Option CheckReply

unfoldable pub payment_of : ℕ → List Payment → Option Payment
payment_of reference = find_first (λ (p : Payment). p.reference == reference)

-- What a reading of a payment and of FlexPay's answer decide.
pub data Settlement : Type 0 where
  ignored : Settlement
  fails : Payment → Settlement
  claims : Payment → Option ℕ → Settlement

-- payment.orderNumber || body.orderNumber
unfoldable pub first_number : Option ℕ → Option ℕ → Option ℕ
first_number (some n) other_number = some n
first_number none other_number = other_number

unfoldable pub settle_verified : Payment → Option ℕ → Verification → Settlement
settle_verified p provider_ref verified = claims p provider_ref
settle_verified p provider_ref rejected = fails p
settle_verified p provider_ref unreachable = ignored

unfoldable pub verify_payment : Check → Payment → Option ℕ → ℕ → Settlement
verify_payment check p provider_ref n =
    settle_verified p provider_ref (verify_with_flexpay (check n) p.amount)

unfoldable pub judge_success : Callback → Check → Payment → Option ℕ → Settlement
judge_success body check p none = fails p
judge_success body check p (some n) = verify_payment check p body.provider_ref n

-- handleCallback up to its writes, for the payment that was read.
unfoldable pub judge_callback : Callback → Check → Payment → Settlement
judge_callback body check p =
    if not (is_pending p.status)
    then ignored
    else if not body.is_success
    then fails p
    else judge_success body check p (first_number p.order_number body.order_number)

unfoldable pub judge_found : Callback → Check → Option Payment → Settlement
judge_found body check none = ignored
judge_found body check (some p) = judge_callback body check p

unfoldable pub read_callback : Callback → Check → List Payment → Settlement
read_callback body check payments = elim body.reference [
  | none ↦ ignored
  | some reference ↦ judge_found body check (payment_of reference payments)
]

-- The writes of a decision. A failure to release the shop's items is an exception.
unfoldable pub settle :
    (ℕ → Codes) → ℕ → Settlement → Sales → Sales × Result PaymentError (Unit {0})
settle codes now ignored s = (s, ok tt)
settle codes now (fails p) s = fail_payment p.id s
settle codes now (claims p provider_ref) s = (claim_and_generate codes p provider_ref now s, ok tt)

-- `handleCallback` when no other request comes between its reads and its writes.
unfoldable pub handle_callback :
    (ℕ → Codes) → ℕ → Callback → Check → Sales → Sales × Result PaymentError (Unit {0})
handle_callback codes now body check s = settle codes now (read_callback body check s.payments) s

-- paymentStatusCore: only a confirmed transaction makes it write.
unfoldable pub judge_status : Check → Payment → Settlement
judge_status check p = if not (is_pending p.status) then ignored else elim p.order_number [
  | none ↦ ignored
  | some n ↦ elim (verify_payment check p none n) [ claims q r ↦ claims q r | _ ↦ ignored ]
]

unfoldable pub payment_status :
    (ℕ → Codes) → ℕ → Check → ℕ → Sales → Sales × Result PaymentError PaymentStatus
payment_status codes now check reference s = elim (payment_of reference s.payments) [
  | none ↦ (s, err payment_not_found)
  | some p ↦
      let after = (settle codes now (judge_status check p) s).0 in
      elim (payment_of reference after.payments) [
        | none ↦ (after, err payment_not_found)
        | some q ↦ (after, ok q.status)
      ]
]

abbrev pub stale_ms : ℕ
stale_ms = 3600000

unfoldable pub is_stale_payment : ℕ → Payment → Bool
is_stale_payment now p = is_pending p.status && ltb (p.created_at + stale_ms) now

unfoldable pub judge_number : Check → Payment → Option ℕ → Settlement
judge_number check p none = fails p
judge_number check p (some n) = verify_payment check p none n

-- One round of settleStalePayments.
unfoldable pub judge_stale : Check → Payment → Settlement
judge_stale check p = judge_number check p p.order_number

-- for (const payment of stale) try { … } catch: an exception is logged, and the loop goes on.
unfoldable pub settle_all : (ℕ → Codes) → ℕ → Check → List Payment → Sales → Sales
settle_all codes now check [] s = s
settle_all codes now check (p ∷ ps) s =
    settle_all codes now check ps (settle codes now (judge_stale check p) s).0

unfoldable pub settle_stale_payments : (ℕ → Codes) → ℕ → Check → Sales → Sales
settle_stale_payments codes now check s =
    settle_all codes now check (take 50 (keep (is_stale_payment now) s.payments)) s
