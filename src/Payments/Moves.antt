-- ===== src/Payments/Moves.antt =====
-- What each write does to the status of one payment.
use ticketing_platform.Access.{Event, event_keyed}
use ticketing_platform.Payments.Refunding.{
  RefundRead, cancel_all, commit_refund, lift_shop, refund_items, refundable,
}
use ticketing_platform.Payments.Issue.{
  complete_issued, complete_payment, complete_row, issue_for_payment, issue_in, set_completed,
}
use ticketing_platform.Tickets.Generation.{Codes}
use ticketing_platform.Prelude.{
  ==→eq, >>=-eq-ok, Bool, Bool-cases, List, Option, Result, Result-cases, [], ap, arith, claim,
  claim-eq-some, err, find, find-update, if◌then◌else◌, inl, inr, keep, none, ok, ok-injective,
  or_throw, or_throw-eq-ok, refl, some, true, update, ℕ, ◌++◌, ◌==◌, ◌∙◌, ◌∷◌, ◌≡◌, ◌⊎◌,
}
use ticketing_platform.Shop.{order_keyed, variant_keyed}
use ticketing_platform.Shop.Orders.{cancel_for_payment}
use ticketing_platform.Tickets.{TicketError, Ticketing, template_keyed, ticket_keyed}
use ticketing_platform.Payments.{
  Payment, PaymentStatus, Sales, already_refunded, completed, failed, is_completed, is_pending,
  payment_keyed, pending, refund_keyed, refunded, set_status,
}
use ticketing_platform.Payments.Settlement.{
  fail_claimed, fail_payment, leave_pending, release_items,
}
use ticketing_platform.Payments.Diagram.{status_of}

pub status_of-update :
    (i j : ℕ) (f : Payment → Payment) (ps : List Payment) {r : Payment}
    → ((x : Payment) → (f x).id ≡ x.id)
    → find j ps ≡ some r
    → status_of i (update j f ps) ≡ (if j == i then some (f r).status else status_of i ps)
unfolding status_of
status_of-update i j f ps {r} keys found = elim (Bool-cases (j == i)) [
  | inl same ↦ ground (arith, find-update j i f ps keys, ==→eq j i same)
  | inr another ↦ ground (arith, find-update j i f ps keys)
]

-- A row that leaves a status by a claim.
pub claim-status :
    (i j : ℕ) (test : PaymentStatus → Bool) (to : PaymentStatus) (ps : List Payment)
    {after : List Payment}
    → claim j (λ (p : Payment). test p.status) (set_status to) ps ≡ some after
    → (a : PaymentStatus) × (status_of j ps ≡ some a)
      × (test a ≡ true)
      × (status_of i after ≡ (if j == i then some to else status_of i ps))
claim-status i j test to ps h =
    let (r, found, holds, e) =
      claim-eq-some j (λ (p : Payment). test p.status) (set_status to) ps h in
    (
      r.status,
      unfold status_of in ground arith,
      holds,
      ap (status_of i) e ∙ status_of-update i j (set_status to) ps (λ x. refl) found,
    )

pub pending_only : (a : PaymentStatus) → is_pending a ≡ true → a ≡ pending
unfolding is_pending
pending_only a h = ground arith

completed_only : (a : PaymentStatus) → is_completed a ≡ true → a ≡ completed
unfolding is_completed
completed_only a h = ground arith

pub release_items-payments : (j : ℕ) (s : Sales) → (release_items j s).0.payments ≡ s.payments
unfolding release_items
release_items-payments j s = ground (arith, Result-cases (cancel_for_payment j s.shop))

fail_claimed-status :
    (i j : ℕ) (s : Sales) (c : Option (List Payment))
    → leave_pending j failed s.payments ≡ c
    → ((fail_claimed j s c).0.payments ≡ s.payments)
      ⊎ ((status_of j s.payments ≡ some pending)
          × (status_of i (fail_claimed j s c).0.payments
              ≡ (if j == i then some failed else status_of i s.payments)))
unfolding fail_claimed leave_pending is_pending
fail_claimed-status i j s none e = inl refl
fail_claimed-status i j s (some payments) e =
    let (a, was, test, now) = claim-status i j is_pending failed s.payments e in
    inr (
      was ∙ ap some (pending_only a test),
      ap (status_of i) (release_items-payments j (record s { payments = payments })) ∙ now,
    )

-- A failure keeps the payments, or moves one from PENDING to FAILED.
pub fail_payment-status :
    (i j : ℕ) (s : Sales)
    → ((fail_payment j s).0.payments ≡ s.payments)
      ⊎ ((status_of j s.payments ≡ some pending)
          × (status_of i (fail_payment j s).0.payments
              ≡ (if j == i then some failed else status_of i s.payments)))
unfolding fail_payment
fail_payment-status i j s = fail_claimed-status i j s (leave_pending j failed s.payments) refl

-- The tickets of a payment move it to COMPLETED, or keep the payments as they are.
abbrev pub CompletesOrKeeps : ℕ → ℕ → Sales → Sales → Type 0
CompletesOrKeeps i j s t =
    (t.payments ≡ s.payments)
    ⊎ (status_of i t.payments ≡ (if j == i then some completed else status_of i s.payments))

complete_row-status :
    (i j : ℕ) (provider_ref : Option ℕ) (ids : List ℕ) (now : ℕ) (s : Sales) (row : Option Payment)
    → find j s.payments ≡ row
    → CompletesOrKeeps i j s (complete_row j provider_ref ids now s row).0
unfolding complete_row
complete_row-status i j provider_ref ids now s none missing = inl refl
complete_row-status i j provider_ref ids now s (some r) found =
    inr (status_of-update i j (set_completed provider_ref ids) s.payments (λ x. refl) found)

complete_payment-status :
    (i j : ℕ) (provider_ref : Option ℕ) (ids : List ℕ) (now : ℕ) (s : Sales)
    → CompletesOrKeeps i j s (complete_payment j provider_ref ids now s).0
unfolding complete_payment
complete_payment-status i j provider_ref ids now s =
    complete_row-status i j provider_ref ids now s (find j s.payments) refl

complete_issued-status :
    (i j : ℕ) (provider_ref : Option ℕ) (now : ℕ) (s : Sales)
    (r : Ticketing × Result TicketError (List ℕ))
    → CompletesOrKeeps i j s (complete_issued j provider_ref now s r).0
unfolding complete_issued
complete_issued-status i j provider_ref now s (ticketing, err e) = inl refl
complete_issued-status i j provider_ref now s (ticketing, ok ids) =
    complete_payment-status i j provider_ref ids now (record s { ticketing = ticketing })

issue_in-status :
    (i : ℕ) (codes : ℕ → Codes) (p : Payment) (provider_ref : Option ℕ) (now : ℕ) (s : Sales)
    (event : Option Event)
    → CompletesOrKeeps i p.id s (issue_in codes p provider_ref now s event).0
unfolding issue_in
issue_in-status i codes p provider_ref now s none = inl refl
issue_in-status i codes p provider_ref now s (some e) =
    complete_issued-status i p.id provider_ref now s _

pub issue_for_payment-status :
    (i : ℕ) (codes : ℕ → Codes) (p : Payment) (provider_ref : Option ℕ) (now : ℕ) (s : Sales)
    → CompletesOrKeeps i p.id s (issue_for_payment codes p provider_ref now s).0
unfolding issue_for_payment
issue_for_payment-status i codes p provider_ref now s =
    issue_in-status i codes p provider_ref now s _

-- A refund moves its payment from COMPLETED to REFUNDED.
pub commit_refund-status :
    (i id now : ℕ) (r : RefundRead) (s : Sales) {after : Sales}
    → commit_refund id now r s ≡ ok after
    → (status_of r.payment.id s.payments ≡ some completed)
      × (status_of i after.payments
          ≡ (if r.payment.id == i then some refunded else status_of i s.payments))
unfolding commit_refund
commit_refund-status i id now r s h =
    let claimed =
      claim r.payment.id (λ (p : Payment). is_completed p.status) (set_status refunded)
        s.payments in
    let (payments, hit, h1) = >>=-eq-ok (or_throw claimed already_refunded) _ h in
    let (ticketing, _, h2) =
      >>=-eq-ok
        (cancel_all now (keep (refundable r.payment.tickets_data) s.ticketing.tickets) s.ticketing)
        _ h1 in
    let (shop, _, e) = >>=-eq-ok (lift_shop (refund_items r.order s.shop)) _ h2 in
    let (a, was, test, done) =
      claim-status i r.payment.id is_completed refunded s.payments
        (or_throw-eq-ok claimed already_refunded hit) in
    (was ∙ ap some (completed_only a test), rw (← ok-injective e) done)

pub status_of-append :
    (i : ℕ) (ps : List Payment) (p : Payment)
    → find p.id ps ≡ none
    → status_of i (ps ++ p ∷ []) ≡ (if p.id == i then some p.status else status_of i ps)
unfolding status_of find
status_of-append i [] p h = ground arith
status_of-append i (x ∷ ps) p h = ground (arith, status_of-append i ps p)
