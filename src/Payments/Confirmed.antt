-- ===== src/Payments/Confirmed.antt =====
-- What a callback of FlexPay must show before tickets are issued.
use ticketing_platform.Payments.Callback.{
  Callback, Check, fails, first_number, handle_callback, ignored, judge_callback, judge_found,
  judge_success, payment_of, read_callback, settle, settle_verified, verify_payment,
}
use ticketing_platform.Payments.Settlement.{
  CheckReply, Verification, differs, fail_claimed, fail_payment, leave_pending, rejected,
  release_items, unreachable, verified, verify_with_flexpay,
}
use ticketing_platform.Payments.{Payment, Sales, failed, is_pending}
use ticketing_platform.Tickets.Generation.{Codes}
use ticketing_platform.Shop.Orders.{cancel_for_payment}
use ticketing_platform.Prelude.{
  Bool, List, Option, Result-cases, arith, false, if◌then◌else◌, inl, inr, none, not, refl, some,
  true, ℕ, ◌+◌, ◌≡◌, ◌≤◌, ◌⊎◌,
}

-- The amount of an answer is that of a payment to a cent, or no number.
abbrev pub IsAmount : Option ℕ → ℕ → Type 0
IsAmount none amount = Unit {0}
IsAmount (some read) amount = (read ≤ amount + 1) × (amount ≤ read + 1)

-- FlexPay confirms the transaction, and no other amount.
abbrev pub Confirms : Option CheckReply → ℕ → Type 0
Confirms reply amount =
    (r : CheckReply) × (reply ≡ some r)
    × (r.code_ok ≡ true)
    × (r.transaction_ok ≡ true)
    × IsAmount r.amount amount

differs-IsAmount :
    (read : Option ℕ) (amount : ℕ) → differs read amount ≡ false → IsAmount read amount
unfolding differs
differs-IsAmount none amount h = tt
differs-IsAmount (some read) amount h = (ground arith, ground arith)

pub verify_with_flexpay-Confirms :
    (reply : Option CheckReply) (amount : ℕ)
    → verify_with_flexpay reply amount ≡ verified
    → Confirms reply amount
unfolding verify_with_flexpay
verify_with_flexpay-Confirms none amount h = cc
verify_with_flexpay-Confirms (some r) amount h =
    (r, refl, ground arith, ground arith, differs-IsAmount r.amount amount (ground arith))

-- The payment that a callback names is pending, and confirmed by its number or the callback's.
abbrev pub IsConfirmed : Callback → Check → List Payment → Type 0
IsConfirmed body check payments =
    (reference : ℕ) × (p : Payment) × (body.reference ≡ some reference)
    × (payment_of reference payments ≡ some p)
    × (is_pending p.status ≡ true)
    × ((n : ℕ) × (first_number p.order_number body.order_number ≡ some n)
        × Confirms (check n) p.amount)

release_items-ticketing : (j : ℕ) (s : Sales) → (release_items j s).0.ticketing ≡ s.ticketing
unfolding release_items
release_items-ticketing j s = ground (arith, Result-cases (cancel_for_payment j s.shop))

fail_claimed-ticketing :
    (j : ℕ) (s : Sales) (c : Option (List Payment)) → (fail_claimed j s c).0.ticketing ≡ s.ticketing
unfolding fail_claimed
fail_claimed-ticketing j s none = refl
fail_claimed-ticketing j s (some payments) =
    release_items-ticketing j (record s { payments = payments })

settle_verified-ticketing :
    (codes : ℕ → Codes) (now : ℕ) (p : Payment) (provider_ref : Option ℕ)
    (reply : Option CheckReply) (v : Verification) (s : Sales)
    → verify_with_flexpay reply p.amount ≡ v
    → ((settle codes now (settle_verified p provider_ref v) s).0.ticketing ≡ s.ticketing)
      ⊎ Confirms reply p.amount
unfolding settle_verified settle fail_payment
settle_verified-ticketing codes now p provider_ref reply verified s h =
    inr (verify_with_flexpay-Confirms reply p.amount h)
settle_verified-ticketing codes now p provider_ref reply rejected s h =
    inl (fail_claimed-ticketing p.id s (leave_pending p.id failed s.payments))
settle_verified-ticketing codes now p provider_ref reply unreachable s h = inl refl

judge_success-ticketing :
    (codes : ℕ → Codes) (now : ℕ) (body : Callback) (check : Check) (p : Payment)
    (number : Option ℕ) (s : Sales)
    → ((settle codes now (judge_success body check p number) s).0.ticketing ≡ s.ticketing)
      ⊎ ((n : ℕ) × (number ≡ some n) × Confirms (check n) p.amount)
unfolding judge_success settle fail_payment verify_payment
judge_success-ticketing codes now body check p none s =
    inl (fail_claimed-ticketing p.id s (leave_pending p.id failed s.payments))
judge_success-ticketing codes now body check p (some n) s =
    elim (settle_verified-ticketing codes now p body.provider_ref (check n)
      (verify_with_flexpay (check n) p.amount) s refl) [
        | inl same ↦ inl same
        | inr confirmed ↦ inr (n, refl, confirmed)
      ]

judge_callback-ticketing :
    (codes : ℕ → Codes) (now : ℕ) (body : Callback) (check : Check) (p : Payment) (s : Sales)
    → ((settle codes now (judge_callback body check p) s).0.ticketing ≡ s.ticketing)
      ⊎ ((is_pending p.status ≡ true)
          × ((n : ℕ) × (first_number p.order_number body.order_number ≡ some n)
              × Confirms (check n) p.amount))
unfolding judge_callback
judge_callback-ticketing codes now body check p s = go (is_pending p.status) body.is_success refl
  where
    go :
        (b k : Bool)
        → is_pending p.status ≡ b
        → ((settle codes now
              (if not b
                then ignored
                else if not k
                then fails p
                else judge_success body check p (first_number p.order_number body.order_number))
              s).0.ticketing
            ≡ s.ticketing)
          ⊎ ((is_pending p.status ≡ true)
              × ((n : ℕ) × (first_number p.order_number body.order_number ≡ some n)
                  × Confirms (check n) p.amount))
    go false k e = unfold settle in inl refl
    go true false e =
        unfold settle in
        inl (
          unfold fail_payment in
          fail_claimed-ticketing p.id s (leave_pending p.id failed s.payments))
    go true true e =
        elim (judge_success-ticketing codes now body check p
          (first_number p.order_number body.order_number) s) [
            | inl same ↦ inl same
            | inr confirmed ↦ inr (e, confirmed)
          ]

judge_found-ticketing :
    (codes : ℕ → Codes) (now : ℕ) (body : Callback) (check : Check) (found : Option Payment)
    (s : Sales)
    → ((settle codes now (judge_found body check found) s).0.ticketing ≡ s.ticketing)
      ⊎ ((p : Payment) × (found ≡ some p)
          × (is_pending p.status ≡ true)
          × ((n : ℕ) × (first_number p.order_number body.order_number ≡ some n)
              × Confirms (check n) p.amount))
unfolding judge_found
judge_found-ticketing codes now body check none s = unfold settle in inl refl
judge_found-ticketing codes now body check (some p) s =
    elim (judge_callback-ticketing codes now body check p s) [
      | inl same ↦ inl same
      | inr (pends, rest) ↦ inr (p, refl, pends, rest)
    ]

-- A callback of FlexPay leaves the tickets and the seats as they were, or it names a payment that is
-- pending, and FlexPay answers, for the number of its transaction or else the callback's, that the
-- transaction went through, with the amount of the payment to a cent or with one that is no number.
pub handle_callback-IsConfirmed :
    (codes : ℕ → Codes) (now : ℕ) (body : Callback) (check : Check) (s : Sales)
    → ((handle_callback codes now body check s).0.ticketing ≡ s.ticketing)
      ⊎ IsConfirmed body check s.payments
unfolding handle_callback read_callback
handle_callback-IsConfirmed codes now body check s = go body.reference refl
  where
    go :
        (r : Option ℕ)
        → body.reference ≡ r
        → ((settle codes now
              (elim r [
                | none ↦ ignored
                | some reference ↦ judge_found body check (payment_of reference s.payments)
              ])
              s).0.ticketing
            ≡ s.ticketing)
          ⊎ IsConfirmed body check s.payments
    go none e = unfold settle in inl refl
    go (some reference) e =
        elim (judge_found-ticketing codes now body check (payment_of reference s.payments) s) [
          | inl same ↦ inl same
          | inr (p, found, pends, rest) ↦ inr (reference, p, e, found, pends, rest)
        ]
