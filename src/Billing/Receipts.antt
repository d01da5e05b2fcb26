-- ===== src/Billing/Receipts.antt =====
-- The receipt numbers of the billing.
use ticketing_platform.Billing.Subscriptions.{activate_paid_plan}
use ticketing_platform.Billing.Grants.{
  assign_receipt_number, bill_paid, claim_bill, give, grant, grant_claimed, has_no_receipt,
  max_receipt, number_of, set_receipt,
}
use ticketing_platform.Billing.Credits.{
  BillingPayment, Books, Bought, Clock, billing_keyed, plan_month, print_credits,
}
use ticketing_platform.Billing.Plans.{plan_keyed, subscription_keyed}
use ticketing_platform.Payments.{is_pending, payment_keyed, refund_keyed}
use ticketing_platform.PrintQuota.{account_keyed}
use ticketing_platform.Prelude.{
  ==→eq, Bool-cases, List, Option, Result-cases, [], ap, arith, claim, claim-eq-some, find,
  if◌then◌else◌, inl, inr, none, or_else, refl, some, subst, sum_by, sum_by-update,
  sum_by-update_same, sym, true, update, ℕ, ◌+◌, ◌<◌, ◌==◌, ◌∙◌, ◌∷◌, ◌≡◌, ◌≤◌,
}

unfoldable pub has_number : ℕ → BillingPayment → ℕ
has_number n b = elim b.receipt_number [ none ↦ 0 | some m ↦ if m == n then 1 else 0 ]

-- How many payments have a receipt number.
unfoldable pub with_number : ℕ → List BillingPayment → ℕ
with_number n = sum_by (has_number n)

-- No two payments have one receipt number.
abbrev pub HasDistinctReceipts : List BillingPayment → Type 0
HasDistinctReceipts bills = (n : ℕ) → with_number n bills ≤ 1

above_max : (n : ℕ) (bills : List BillingPayment) → max_receipt bills < n → with_number n bills ≡ 0
unfolding max_receipt with_number sum_by has_number number_of
above_max n [] h = refl
above_max n (b ∷ bs) h = ground (arith, above_max n bs)

numbered :
    (n m id : ℕ) (bills : List BillingPayment) {r : BillingPayment}
    → find id bills ≡ some r
    → has_no_receipt r ≡ true
    → with_number n (update id (set_receipt m) bills)
      ≡ with_number n bills + (if m == n then 1 else 0)
unfolding with_number has_no_receipt has_number
numbered n m id bills found unnumbered =
    ground (arith, sum_by-update (has_number n) id (set_receipt m) bills found)

claimed-distinct :
    (m id : ℕ) (bills : List BillingPayment) (c : Option (List BillingPayment))
    → with_number m bills ≡ 0
    → claim id has_no_receipt (set_receipt m) bills ≡ c
    → HasDistinctReceipts bills
    → HasDistinctReceipts (or_else c bills)
claimed-distinct m id bills none unused e d = d
claimed-distinct m id bills (some after) unused e d =
    let (r, found, unnumbered, same) = claim-eq-some id has_no_receipt (set_receipt m) bills e in
    λ n. rw same (elim (Bool-cases (m == n)) [
      | inl hit ↦ ground (
        arith,
        numbered n m id bills found unnumbered,
        subst (λ k. with_number k bills ≡ 0) (==→eq m n hit) unused,
      )
      | inr miss ↦ ground (arith, numbered n m id bills found unnumbered, d n)
    ])

-- A new receipt number is one above the greatest, so no payment has it yet.
assign_receipt_number-distinct :
    (id : ℕ) (bills : List BillingPayment)
    → HasDistinctReceipts bills
    → HasDistinctReceipts (assign_receipt_number id bills)
unfolding assign_receipt_number
assign_receipt_number-distinct id bills =
    claimed-distinct (max_receipt bills + 1) id bills
      (claim id has_no_receipt (set_receipt (max_receipt bills + 1)) bills)
      (above_max (max_receipt bills + 1) bills (omega arith)) refl

paid-receipts :
    (id ms n : ℕ) (bills : List BillingPayment) {after : List BillingPayment}
    → claim_bill id ms bills ≡ some after
    → with_number n after ≡ with_number n bills
unfolding claim_bill with_number has_number
paid-receipts id ms n bills e =
    let (r, found, pends, same) =
      claim-eq-some id (λ (b : BillingPayment). is_pending b.status) (bill_paid ms) bills e in
    ap (sum_by (has_number n)) same
    ∙ sum_by-update_same (has_number n) id (bill_paid ms) bills (λ x. refl)

pub give-bills :
    (b : BillingPayment) (bought : Bought) (now : Clock) (s : Books)
    → (give b bought now s).0.bills ≡ s.bills
unfolding give
give-bills b (plan_month plan_id) now s =
    ground (arith, Result-cases (activate_paid_plan b.organizer_id plan_id now.date s.plans))
give-bills b (print_credits kind quantity) now s = refl

grant_claimed-distinct :
    (b : BillingPayment) (now : Clock) (s : Books) (c : Option (List BillingPayment))
    → claim_bill b.id now.ms s.bills ≡ c
    → HasDistinctReceipts s.bills
    → HasDistinctReceipts (grant_claimed b now s c).0.bills
unfolding grant_claimed
grant_claimed-distinct b now s none e d = d
grant_claimed-distinct b now s (some bills) e d =
    subst HasDistinctReceipts
      (sym (give-bills b b.bought now (record s { bills = assign_receipt_number b.id bills })))
      (assign_receipt_number-distinct b.id bills
        (λ n. subst (λ k. k ≤ 1) (sym (paid-receipts b.id now.ms n s.bills e)) (d n)))

-- The grant of a billing payment keeps the receipt numbers distinct.
pub grant-distinct :
    (b : BillingPayment) (now : Clock) (s : Books)
    → HasDistinctReceipts s.bills
    → HasDistinctReceipts (grant b now s).0.bills
unfolding grant
grant-distinct b now s = grant_claimed-distinct b now s (claim_bill b.id now.ms s.bills) refl
