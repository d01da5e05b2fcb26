-- ===== src/Payments/Diagram.antt =====
-- The statuses of a payment as a diagram, and the requests on the payments as steps of a world.
use ticketing_platform.Prelude.{List, Option, [], find, none, ok, some, ℕ, ◌++◌, ◌∷◌, ◌≡◌}
use ticketing_platform.Tickets.{template_keyed, ticket_keyed}
use ticketing_platform.Tickets.Generation.{Codes}
use ticketing_platform.Payments.{
  Payment, PaymentStatus, Sales, completed, failed, payment_keyed, pending, processing,
  refund_keyed, refunded,
}
use ticketing_platform.Payments.Settlement.{fail_payment, leave_pending}
use ticketing_platform.Payments.Issue.{issue_for_payment}
use ticketing_platform.Payments.Refunding.{RefundRead, commit_refund}

infix 40 ◌⟶◌ ◌⟶*◌
pub data ◌⟶◌ : PaymentStatus → PaymentStatus → Type 0 where
  claimed : pending ⟶ processing
  closed : pending ⟶ failed
  issued : processing ⟶ completed
  given_back : completed ⟶ refunded

pub data ◌⟶*◌ : PaymentStatus → PaymentStatus → Type 0 where
  stay : {a : PaymentStatus} → a ⟶* a
  onwards : {a b c : PaymentStatus} → a ⟶* b → b ⟶ c → a ⟶* c

unfoldable pub status_of : ℕ → List Payment → Option PaymentStatus
status_of i payments = elim (find i payments) [ none ↦ none | some p ↦ some p.status ]

-- The sales, the payments that a request has claimed and not yet issued, and those whose tickets a
-- request has begun to issue.
pub record World : Type 0 where
  pub sales : Sales
  pub claims : List Payment
  pub begun : List ℕ

-- The requests settle, issue and refund by what they read at any earlier time: a step is one of
-- their writes, on any payment. The tickets of a payment and its completion are one step. What else
-- happens to the sales adds a payment or keeps the status of each, as the write of orderNumber does.
pub data Step (codes : ℕ → Codes) : World → World → Type 0 where
  fails : {w : World} (i : ℕ) → Step codes w (record w { sales = (fail_payment i w.sales).0 })
  claims :
      {w : World} {payments : List Payment} (p : Payment)
      → leave_pending p.id processing w.sales.payments ≡ some payments
      → Step codes w
          (record w { sales = record w.sales { payments = payments }; claims = p ∷ w.claims })
  issues :
      {w : World} (before after : List Payment) (p : Payment) (provider_ref : Option ℕ) (now : ℕ)
      → w.claims ≡ before ++ p ∷ after
      → Step codes w (record {
        sales = (issue_for_payment codes p provider_ref now w.sales).0;
        claims = before ++ after;
        begun = p.id ∷ w.begun;
      })
  refunds :
      {w : World} {s : Sales} (id now : ℕ) (r : RefundRead)
      → commit_refund id now r w.sales ≡ ok s
      → Step codes w (record w { sales = s })
  creates :
      {w : World} (p : Payment)
      → find p.id w.sales.payments ≡ none
      → Step codes w (record w { sales = record w.sales { payments = w.sales.payments ++ p ∷ [] } })
  others :
      {w : World} (s : Sales)
      → ((i : ℕ) → status_of i s.payments ≡ status_of i w.sales.payments)
      → Step codes w (record w { sales = s })

pub data Reach (codes : ℕ → Codes) (w : World) : World → Type 0 where
  here : Reach codes w w
  next : {u v : World} → Reach codes w u → Step codes u v → Reach codes w v
