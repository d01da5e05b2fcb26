-- ===== src/Payments/Interleavings.antt =====
-- The interleavings of the requests on the payments.
use ticketing_platform.Payments.Once.{
  Change-Along, Change-Room, Changes, Room, Safe, appears, begins, begun_of, claims_of, closes,
  keeps, repays, takes,
}
use ticketing_platform.Payments.Moves.{
  CompletesOrKeeps, claim-status, commit_refund-status, fail_payment-status,
  issue_for_payment-status, pending_only, status_of-append,
}
use ticketing_platform.Payments.Diagram.{
  Reach, Step, World, claims, creates, fails, here, issues, next, onwards, others, refunds,
  status_of, stay, ◌⟶*◌,
}
use ticketing_platform.Payments.Refunding.{RefundRead, commit_refund}
use ticketing_platform.Payments.Issue.{issue_for_payment}
use ticketing_platform.Payments.Settlement.{fail_payment, leave_pending}
use ticketing_platform.Payments.{
  Payment, PaymentStatus, Sales, cancelled, completed, failed, is_pending, payment_keyed, pending,
  processing, refund_keyed, refunded,
}
use ticketing_platform.Tickets.Generation.{Codes}
use ticketing_platform.Tickets.{cancelled, pending, template_keyed, ticket_keyed}
use ticketing_platform.Shop.{cancelled, order_keyed, refunded, variant_keyed}
use ticketing_platform.Prelude.{
  ==→eq, Bool-cases, List, Option, [], ap, arith, false, find, if◌then◌else◌, inl, inr, none, ok,
  refl, some, subst, sum_by, true, ℕ, ◌++◌, ◌+◌, ◌==◌, ◌∙◌, ◌∷◌, ◌≡◌, ◌≤◌, ◌⊎◌,
}

fails-Changes :
    (i j : ℕ) (w : World) → Changes i w (record w { sales = (fail_payment j w.sales).0 })
unfolding claims_of begun_of
fails-Changes i j w = elim (fail_payment-status i j w.sales) [
  | inl same ↦ keeps (ap (status_of i) same) refl refl
  | inr (was, now) ↦ elim (Bool-cases (j == i)) [
    | inl hit ↦
        closes (subst (λ k. status_of k w.sales.payments ≡ some pending) (==→eq j i hit) was)
          (ground arith) refl refl
    | inr miss ↦ keeps (ground arith) refl refl
  ]
]

claims-Changes :
    (i : ℕ) (w : World) (p : Payment) (payments : List Payment)
    → leave_pending p.id processing w.sales.payments ≡ some payments
    → Changes i w
        (record w { sales = record w.sales { payments = payments }; claims = p ∷ w.claims })
unfolding leave_pending claims_of begun_of
claims-Changes i w p payments h =
    let (a, was, test, now) = claim-status i p.id is_pending processing w.sales.payments h in
    elim (Bool-cases (p.id == i)) [
      | inl hit ↦
          takes
            (subst (λ k. status_of k w.sales.payments ≡ some pending) (==→eq p.id i hit)
              (was ∙ ap some (pending_only a test)))
            (ground arith) (unfold sum_by in ground arith) refl
      | inr miss ↦ keeps (ground arith) (unfold sum_by in ground arith) refl
    ]

sum_by-without :
    (f : Payment → ℕ) (before after : List Payment) (p : Payment)
    → sum_by f (before ++ p ∷ after) ≡ f p + sum_by f (before ++ after)
unfolding sum_by
sum_by-without f [] after p = refl
sum_by-without f (x ∷ before) after p = omega (arith, sum_by-without f before after p)

issues-Changes :
    (i : ℕ) (codes : ℕ → Codes) (w : World) (before after : List Payment) (p : Payment)
    (provider_ref : Option ℕ) (now : ℕ)
    → w.claims ≡ before ++ p ∷ after
    → Changes i w (record {
      sales = (issue_for_payment codes p provider_ref now w.sales).0;
      claims = before ++ after;
      begun = p.id ∷ w.begun;
    })
unfolding claims_of begun_of
issues-Changes i codes w before after p provider_ref now e =
    let fewer : sum_by (λ (x : Payment). if x.id == i then 1 else 0) w.claims
        ≡ (if p.id == i then 1 else 0)
          + sum_by (λ (x : Payment). if x.id == i then 1 else 0) (before ++ after) =
      ap (sum_by (λ (x : Payment). if x.id == i then 1 else 0)) e
      ∙ sum_by-without (λ (x : Payment). if x.id == i then 1 else 0) before after p in
    let wrote = issue_for_payment-status i codes p provider_ref now w.sales in
    elim (Bool-cases (p.id == i)) [
      | inl hit ↦
          begins (hit_status (issue_for_payment codes p provider_ref now w.sales).0 hit wrote)
            (ground arith) (unfold sum_by in ground arith)
      | inr miss ↦
          keeps (kept_status (issue_for_payment codes p provider_ref now w.sales).0 miss wrote)
            (ground arith) (unfold sum_by in ground arith)
    ]
  where
    hit_status :
        (t : Sales)
        → (p.id == i) ≡ true
        → CompletesOrKeeps i p.id w.sales t
        → (status_of i t.payments ≡ status_of i w.sales.payments)
          ⊎ (status_of i t.payments ≡ some completed)
    hit_status t hit (inl same) = inl (ap (status_of i) same)
    hit_status t hit (inr now) = inr (ground arith)

    kept_status :
        (t : Sales)
        → (p.id == i) ≡ false
        → CompletesOrKeeps i p.id w.sales t
        → status_of i t.payments ≡ status_of i w.sales.payments
    kept_status t miss (inl same) = ap (status_of i) same
    kept_status t miss (inr now) = ground arith

refunds-Changes :
    (i id now : ℕ) (r : RefundRead) (w : World) (s : Sales)
    → commit_refund id now r w.sales ≡ ok s
    → Changes i w (record w { sales = s })
unfolding claims_of begun_of
refunds-Changes i id now r w s h =
    let (was, done) = commit_refund-status i id now r w.sales h in
    elim (Bool-cases (r.payment.id == i)) [
      | inl hit ↦
          repays
            (subst (λ k. status_of k w.sales.payments ≡ some completed) (==→eq r.payment.id i hit)
              was)
            (ground arith) refl refl
      | inr miss ↦ keeps (ground arith) refl refl
    ]

creates-Changes :
    (i : ℕ) (w : World) (p : Payment)
    → find p.id w.sales.payments ≡ none
    → Changes i w (record w { sales = record w.sales { payments = w.sales.payments ++ p ∷ [] } })
unfolding claims_of begun_of
creates-Changes i w p fresh =
    let now = status_of-append i w.sales.payments p fresh in
    elim (Bool-cases (p.id == i)) [
      | inl hit ↦
          appears p.status
            (subst (λ k. status_of k w.sales.payments ≡ none) (==→eq p.id i hit)
              (unfold status_of in ground arith))
            (ground arith) refl refl
      | inr miss ↦ keeps (ground arith) refl refl
    ]

Step-Changes : (i : ℕ) (codes : ℕ → Codes) {v w : World} → Step codes v w → Changes i v w
unfolding claims_of begun_of
Step-Changes i codes {v} (fails j) = fails-Changes i j v
Step-Changes i codes {v} (claims {payments = payments} p h) = claims-Changes i v p payments h
Step-Changes i codes {v} (issues before after p provider_ref now e) =
    issues-Changes i codes v before after p provider_ref now e
Step-Changes i codes {v} (refunds {s = s} id now r h) = refunds-Changes i id now r v s h
Step-Changes i codes {v} (creates p fresh) = creates-Changes i v p fresh
Step-Changes i codes {v} (others s e) = keeps (e i) refl refl

-- No request has claimed a payment yet.
abbrev pub Fresh : World → Type 0
Fresh w = (w.claims ≡ []) × (w.begun ≡ [])

Room-fresh : (a : Option PaymentStatus) → Room a 0 0
Room-fresh none = refl
Room-fresh (some pending) = refl
Room-fresh (some processing) = omega arith
Room-fresh (some completed) = (refl, omega arith)
Room-fresh (some failed) = refl
Room-fresh (some cancelled) = refl
Room-fresh (some refunded) = (refl, omega arith)

Fresh-Safe : (i : ℕ) (w : World) → Fresh w → Safe i w
unfolding claims_of begun_of
Fresh-Safe i w (no_claims, none_begun) =
    rw (no_claims, none_begun) (unfold sum_by in Room-fresh (status_of i w.sales.payments))

⟶*_trans : {a b c : PaymentStatus} → a ⟶* b → b ⟶* c → a ⟶* c
⟶*_trans p stay = p
⟶*_trans p (onwards q s) = onwards (⟶*_trans p q) s

Reach-Safe : (i : ℕ) (codes : ℕ → Codes) {v w : World} → Fresh v → Reach codes v w → Safe i w
Reach-Safe i codes {v} f here = Fresh-Safe i v f
Reach-Safe i codes f (next r s) = Change-Room (Step-Changes i codes s) (Reach-Safe i codes f r)

Room-once : (a : Option PaymentStatus) (c b : ℕ) → Room a c b → c + b ≤ 1
Room-once none c b r = omega arith
Room-once (some pending) c b r = omega arith
Room-once (some processing) c b r = r
Room-once (some completed) c b r = omega (arith, r.0)
Room-once (some failed) c b r = omega arith
Room-once (some cancelled) c b r = omega arith
Room-once (some refunded) c b r = omega (arith, r.0)

-- In any interleaving of the claims, the failures, the issues and the refunds of payments, from a
-- start where no request has claimed a payment, the requests that have claimed a payment and not
-- begun to issue its tickets and the times that its tickets have begun to be issued add up to 1 at
-- most.
pub Reach-once :
    (i : ℕ) (codes : ℕ → Codes) {v w : World}
    → Fresh v
    → Reach codes v w
    → claims_of i w + begun_of i w ≤ 1
Reach-once i codes {w = w} f r =
    Room-once (status_of i w.sales.payments) (claims_of i w) (begun_of i w) (Reach-Safe i codes f r)

-- In any interleaving of the claims, the failures, the issues and the refunds of payments, from a
-- start where no request has claimed a payment, a payment of the table stays in it, and its status
-- goes along the arrows from PENDING to PROCESSING or to FAILED, from PROCESSING to COMPLETED
-- and from COMPLETED to REFUNDED.
pub Reach-Along :
    (i : ℕ) (codes : ℕ → Codes) {v w : World}
    → Fresh v
    → Reach codes v w
    → (a : PaymentStatus) → status_of i v.sales.payments ≡ some a
    → (b : PaymentStatus) × (status_of i w.sales.payments ≡ some b) × (a ⟶* b)
Reach-Along i codes f here a was = (a, was, stay)
Reach-Along i codes f (next r s) a was =
    let (b, then_b, path) = Reach-Along i codes f r a was in
    let (c, then_c, step) =
      Change-Along (Step-Changes i codes s) (Reach-Safe i codes f r) b then_b in
    (c, then_c, ⟶*_trans path step)
