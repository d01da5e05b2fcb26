-- ===== src/Billing/Settled.antt =====
-- How often a billing payment is granted.
use ticketing_platform.Billing.Receipts.{give-bills}
use ticketing_platform.Billing.Grants.{
  assign_receipt_number, bill_paid, claim_bill, grant, grant_claimed, max_receipt, set_receipt,
}
use ticketing_platform.Billing.Credits.{BillingPayment, Books, Clock, billing_keyed}
use ticketing_platform.Billing.Plans.{plan_keyed, subscription_keyed}
use ticketing_platform.Payments.{is_pending, payment_keyed, refund_keyed}
use ticketing_platform.PrintQuota.{account_keyed}
use ticketing_platform.Prelude.{
  ==_refl, Bool, List, Option, Option-cases, [], ap, arith, claim, claim-eq-some, false, find,
  find-update, none, refl, some, ℕ, ◌+◌, ◌∙◌, ◌∷◌, ◌≡◌,
}

-- The payment is in the table, and pending.
unfoldable pub is_waiting : ℕ → List BillingPayment → Bool
is_waiting id bills = elim (find id bills) [ none ↦ false | some b ↦ is_pending b.status ]

settled-claim :
    (id ms : ℕ) (bills : List BillingPayment)
    → is_waiting id bills ≡ false
    → claim_bill id ms bills ≡ none
unfolding is_waiting claim_bill claim
settled-claim id ms bills h = ground (arith, Option-cases (find id bills))

assigned-waiting :
    (id : ℕ) (bills : List BillingPayment)
    → is_waiting id bills ≡ false
    → is_waiting id (assign_receipt_number id bills) ≡ false
unfolding is_waiting assign_receipt_number claim
assigned-waiting id bills h = ground (
  arith,
  Option-cases (find id bills),
  find-update id id (set_receipt (max_receipt bills + 1)) bills (λ x. refl),
  ==_refl id,
)

grant_claimed-settles :
    (b : BillingPayment) (now : Clock) (s : Books) (c : Option (List BillingPayment))
    → claim_bill b.id now.ms s.bills ≡ c
    → is_waiting b.id (grant_claimed b now s c).0.bills ≡ false
unfolding grant_claimed claim_bill is_waiting claim is_pending
grant_claimed-settles b now s none e = ground (arith, Option-cases (find b.id s.bills))
grant_claimed-settles b now s (some bills) e =
    let (r, found, pends, same) =
      claim-eq-some b.id (λ (x : BillingPayment). is_pending x.status) (bill_paid now.ms) s.bills
        e in
    ap (is_waiting b.id)
      (give-bills b b.bought now (record s { bills = assign_receipt_number b.id bills }))
    ∙ assigned-waiting b.id bills
        (ground (arith, find-update b.id b.id (bill_paid now.ms) s.bills (λ x. refl), ==_refl b.id))

-- A payment that is settled is not granted again.
settled-grant :
    (b : BillingPayment) (now : Clock) (s : Books)
    → is_waiting b.id s.bills ≡ false
    → (grant b now s).0 ≡ s
unfolding grant grant_claimed
settled-grant b now s h = rw (settled-claim b.id now.ms s.bills h) refl

unfoldable pub grant_each : BillingPayment → List Clock → Books → Books
grant_each b [] s = s
grant_each b (now ∷ later) s = grant_each b later (grant b now s).0

settled-grants :
    (b : BillingPayment) (nows : List Clock) (s : Books)
    → is_waiting b.id s.bills ≡ false
    → grant_each b nows s ≡ s
unfolding grant_each
settled-grants b [] s h = refl
settled-grants b (now ∷ later) s h =
    ap (grant_each b later) (settled-grant b now s h) ∙ settled-grants b later s h

-- The callback and the status checks that find one payment confirmed grant it once: any number of
-- grants, at any instants, do what the first of them does.
pub grant_each-once :
    (b : BillingPayment) (now : Clock) (later : List Clock) (s : Books)
    → grant_each b (now ∷ later) s ≡ (grant b now s).0
unfolding grant_each
grant_each-once b now later s =
    settled-grants b later (grant b now s).0
      (unfold grant in grant_claimed-settles b now s (claim_bill b.id now.ms s.bills) refl)
