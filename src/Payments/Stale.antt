-- ===== src/Payments/Stale.antt =====
-- The check of the stale payments: what it leaves pending.
use ticketing_platform.Payments.Moves.{
  CompletesOrKeeps, claim-status, fail_payment-status, issue_for_payment-status,
  release_items-payments,
}
use ticketing_platform.Payments.Diagram.{claims, fails, status_of}
use ticketing_platform.Payments.Callback.{
  Check, Settlement, claims, fails, ignored, is_stale_payment, judge_number, judge_stale, settle,
  settle_all, settle_stale_payments, settle_verified, verify_payment,
}
use ticketing_platform.Payments.Issue.{claim_and_generate, claimed_generate, issue_for_payment}
use ticketing_platform.Payments.Settlement.{
  Verification, fail_claimed, fail_payment, leave_pending, rejected, unreachable, verified,
  verify_with_flexpay,
}
use ticketing_platform.Payments.{
  Payment, PaymentStatus, Sales, completed, failed, is_pending, payment_keyed, processing,
  refund_keyed,
}
use ticketing_platform.Tickets.Generation.{Codes}
use ticketing_platform.Tickets.{template_keyed, ticket_keyed}
use ticketing_platform.Shop.{order_keyed, variant_keyed}
use ticketing_platform.Prelude.{
  ==_refl, All, Bool, Bool-cases, List, Option, Option-cases, [], ap, arith, claim, false, find,
  if◌then◌else◌, inl, inr, keep, none, refl, some, subst, sym, take, true, ℕ, ◌==◌, ◌∙◌, ◌∷◌, ◌≡◌,
  ◌⊎◌,
}

-- The payment is in the table, and pending.
unfoldable pub awaits : ℕ → List Payment → Bool
awaits i payments = elim (status_of i payments) [ none ↦ false | some a ↦ is_pending a ]

-- FlexPay answers for the payment, or was never asked to collect it.
unfoldable pub is_decided : Check → Payment → Bool
is_decided check p = elim (judge_stale check p) [ ignored ↦ false | _ ↦ true ]

awaits-by :
    (i j : ℕ) (ps qs : List Payment) (a : PaymentStatus)
    → status_of i qs ≡ (if j == i then some a else status_of i ps)
    → is_pending a ≡ false
    → awaits i ps ≡ false
    → awaits i qs ≡ false
unfolding awaits
awaits-by i j ps qs a e settled h = ground (arith, Bool-cases (j == i))

left-pending :
    (j : ℕ) (status : PaymentStatus) (ps : List Payment)
    → leave_pending j status ps ≡ none
    → awaits j ps ≡ false
unfolding leave_pending awaits status_of claim
left-pending j status ps h = ground (arith, Option-cases (find j ps))

fail_claimed-settled :
    (j : ℕ) (s : Sales) (c : Option (List Payment))
    → leave_pending j failed s.payments ≡ c
    → awaits j (fail_claimed j s c).0.payments ≡ false
unfolding fail_claimed leave_pending awaits is_pending
fail_claimed-settled j s none h = left-pending j failed s.payments h
fail_claimed-settled j s (some payments) h =
    let (a, was, test, now) = claim-status j j is_pending failed s.payments h in
    ground (
      arith,
      ==_refl j,
      now,
      ap (status_of j) (release_items-payments j (record s { payments = payments })),
    )

issued-awaits :
    (i j : ℕ) (s t : Sales)
    → CompletesOrKeeps i j s t
    → awaits i s.payments ≡ false
    → awaits i t.payments ≡ false
issued-awaits i j s t (inl same) h = ap (awaits i) same ∙ h
issued-awaits i j s t (inr now) h =
    awaits-by i j s.payments t.payments completed now (unfold is_pending in refl) h

claimed-awaits :
    (i j : ℕ) (ps after : List Payment)
    → leave_pending j processing ps ≡ some after
    → (j ≡ i) ⊎ (awaits i ps ≡ false)
    → awaits i after ≡ false
unfolding leave_pending awaits is_pending
claimed-awaits i j ps after h (inl e) =
    let (a, was, test, now) = claim-status i j is_pending processing ps h in
    ground (arith, ==_refl i, subst (λ k. (k == i) ≡ (i == i)) (sym e) refl)
claimed-awaits i j ps after h (inr done) =
    let (a, was, test, now) = claim-status i j is_pending processing ps h in
    awaits-by i j ps after processing now refl done

claimed_generate-awaits :
    (i : ℕ) (codes : ℕ → Codes) (p : Payment) (provider_ref : Option ℕ) (now : ℕ) (s : Sales)
    (c : Option (List Payment))
    → leave_pending p.id processing s.payments ≡ c
    → (p.id ≡ i) ⊎ (awaits i s.payments ≡ false)
    → awaits i (claimed_generate codes p provider_ref now s c).payments ≡ false
unfolding claimed_generate
claimed_generate-awaits i codes p provider_ref now s none h (inl e) =
    subst (λ k. awaits k s.payments ≡ false) e (left-pending p.id processing s.payments h)
claimed_generate-awaits i codes p provider_ref now s none h (inr done) = done
claimed_generate-awaits i codes p provider_ref now s (some payments) h done =
    let mid = record s { payments = payments } in
    issued-awaits i p.id mid (issue_for_payment codes p provider_ref now mid).0
      (issue_for_payment-status i codes p provider_ref now mid)
      (claimed-awaits i p.id s.payments payments h done)

claim_and_generate-awaits :
    (i : ℕ) (codes : ℕ → Codes) (p : Payment) (provider_ref : Option ℕ) (now : ℕ) (s : Sales)
    → (p.id ≡ i) ⊎ (awaits i s.payments ≡ false)
    → awaits i (claim_and_generate codes p provider_ref now s).payments ≡ false
unfolding claim_and_generate
claim_and_generate-awaits i codes p provider_ref now s =
    claimed_generate-awaits i codes p provider_ref now s (leave_pending p.id processing s.payments)
      refl

fail_payment-awaits :
    (i j : ℕ) (s : Sales)
    → awaits i s.payments ≡ false
    → awaits i (fail_payment j s).0.payments ≡ false
fail_payment-awaits i j s done = elim (fail_payment-status i j s) [
  | inl same ↦ ap (awaits i) same ∙ done
  | inr (was, now) ↦
      awaits-by i j s.payments (fail_payment j s).0.payments failed now (unfold is_pending in refl)
        done
]

-- A payment that is settled does not become pending again.
pub settle-awaits :
    (i : ℕ) (codes : ℕ → Codes) (now : ℕ) (d : Settlement) (s : Sales)
    → awaits i s.payments ≡ false
    → awaits i (settle codes now d s).0.payments ≡ false
unfolding settle
settle-awaits i codes now ignored s done = done
settle-awaits i codes now (fails p) s done = fail_payment-awaits i p.id s done
settle-awaits i codes now (claims p provider_ref) s done =
    claim_and_generate-awaits i codes p provider_ref now s (inr done)

pub settle_all-awaits :
    (i : ℕ) (codes : ℕ → Codes) (now : ℕ) (check : Check) (ps : List Payment) (s : Sales)
    → awaits i s.payments ≡ false
    → awaits i (settle_all codes now check ps s).payments ≡ false
unfolding settle_all
settle_all-awaits i codes now check [] s done = done
settle_all-awaits i codes now check (p ∷ ps) s done =
    settle_all-awaits i codes now check ps (settle codes now (judge_stale check p) s).0
      (settle-awaits i codes now (judge_stale check p) s done)

settle_verified-settled :
    (codes : ℕ → Codes) (now : ℕ) (p : Payment) (provider_ref : Option ℕ) (v : Verification)
    (s : Sales)
    → (elim (settle_verified p provider_ref v) [ ignored ↦ false | _ ↦ true ]) ≡ true
    → awaits p.id (settle codes now (settle_verified p provider_ref v) s).0.payments ≡ false
unfolding settle_verified settle fail_payment
settle_verified-settled codes now p provider_ref verified s h =
    claim_and_generate-awaits p.id codes p provider_ref now s (inl refl)
settle_verified-settled codes now p provider_ref rejected s h =
    fail_claimed-settled p.id s (leave_pending p.id failed s.payments) refl
settle_verified-settled codes now p provider_ref unreachable s h = cc

judged-settled :
    (codes : ℕ → Codes) (now : ℕ) (check : Check) (p : Payment) (n : Option ℕ) (s : Sales)
    → (elim (judge_number check p n) [ ignored ↦ false | _ ↦ true ]) ≡ true
    → awaits p.id (settle codes now (judge_number check p n) s).0.payments ≡ false
unfolding judge_number verify_payment settle fail_payment
judged-settled codes now check p none s h =
    fail_claimed-settled p.id s (leave_pending p.id failed s.payments) refl
judged-settled codes now check p (some n) s h =
    settle_verified-settled codes now p none (verify_with_flexpay (check n) p.amount) s h

settle_all-settled :
    (codes : ℕ → Codes) (now : ℕ) (check : Check) (ps : List Payment) (s : Sales)
    → All
        (λ (p : Payment).
          is_decided check p ≡ true
          → awaits p.id (settle_all codes now check ps s).payments ≡ false)
        ps
unfolding settle_all judge_stale is_decided
settle_all-settled codes now check [] s = tt
settle_all-settled codes now check (p ∷ ps) s =
    let mid = (settle codes now (judge_stale check p) s).0 in
    (
      (λ decided.
          settle_all-awaits p.id codes now check ps mid
            (judged-settled codes now check p p.order_number s decided)),
      settle_all-settled codes now check ps mid,
    )

-- The check of the stale payments leaves none pending, of the first fifty that are pending for more
-- than an hour, for which FlexPay answers or that have done number of a transaction.
pub settle_stale_payments-settles :
    (codes : ℕ → Codes) (now : ℕ) (check : Check) (s : Sales)
    → All
        (λ (p : Payment).
          is_decided check p ≡ true
          → awaits p.id (settle_stale_payments codes now check s).payments ≡ false)
        (take 50 (keep (is_stale_payment now) s.payments))
unfolding settle_stale_payments
settle_stale_payments-settles codes now check s =
    settle_all-settled codes now check (take 50 (keep (is_stale_payment now) s.payments)) s
