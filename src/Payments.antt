-- ===== src/Payments.antt =====
-- backend/src/payment/payment.service.ts and backend/src/billing/refunds.service.ts: the online
-- orders of tickets and shop items, their payments by FlexPay and their refunds.
-- FlexPay's answers are arguments of the operations that ask it. Amounts are in cents. A name, an
-- e-mail address or an IP address is a number; the e-mails, the PDFs and the alerts are not modelled.
pub mod Phone
pub mod Numbers
pub mod Settlement
pub mod Issue
pub mod Callback
pub mod Refunding
pub mod Diagram
pub mod Moves
pub mod Once
pub mod Interleavings
pub mod Stale
pub mod Confirmed
pub mod Freed
pub mod Returns
pub mod FreeTickets
pub mod FreeWindow
pub mod Checkout
pub mod Purchase
pub mod Ordering
pub mod Amounts
pub mod Rows
pub mod Balance
use ticketing_platform.Prelude.Int.{ℤ}
use ticketing_platform.Prelude.{Bool, Keyed, List, Option, false, true, ℕ}
use ticketing_platform.Access.{AccessError}
use ticketing_platform.Pricing.{Currency, FeePayer}
use ticketing_platform.Shop.{Shop, ShopError}
use ticketing_platform.Tickets.{TicketError, Ticketing}

pub data PaymentStatus : Type 0 where
  pending processing completed failed cancelled refunded : PaymentStatus

pub data PaymentMethod : Type 0 where
  mobile_money card : PaymentMethod

pub record TicketItem : Type 0 where
  pub template_id : ℕ
  pub quantity : ℕ

pub record Payment : Type 0 where
  pub id : ℕ
  pub reference : ℕ
  -- FlexPay's number of the transaction, once it has one.
  pub order_number : Option ℕ
  pub event_id : ℕ
  pub holder : ℕ
  pub amount : ℕ
  pub currency : Currency
  pub method : PaymentMethod
  pub ticket_amount : ℕ
  pub fee_amount : ℤ
  pub fee_payer : Option FeePayer
  -- `none` for the orders from before the fee.
  pub net_amount : Option ℕ
  pub status : PaymentStatus
  pub items : List TicketItem
  pub provider_ref : Option ℕ
  -- The identifiers of the tickets that were issued.
  pub tickets_data : List ℕ
  pub created_at : ℕ

instance abbrev pub payment_keyed : Keyed Payment
payment_keyed = record { key = λ p. p.id }

pub data RefundStatus : Type 0 where
  requested paid_back : RefundStatus

pub record Refund : Type 0 where
  pub id : ℕ
  pub payment_id : ℕ
  pub event_id : ℕ
  pub organizer_id : ℕ
  pub amount : ℕ
  pub currency : Currency
  pub status : RefundStatus
  pub paid_at : Option ℕ

instance abbrev pub refund_keyed : Keyed Refund
refund_keyed = record { key = λ r. r.id }

-- The tables that the payments read and write.
pub record Sales : Type 0 where
  pub payments : List Payment
  pub refunds : List Refund
  pub shop : Shop
  pub ticketing : Ticketing

pub data PaymentError : Type 0 where
  of_shop : ShopError → PaymentError
  of_tickets : TicketError → PaymentError
  of_access : AccessError → PaymentError
  payment_not_found already_refunded not_paid not_published empty_order bad_phone : PaymentError
  bad_mail_domain duplicate_category category_not_found mixed_currencies : PaymentError
  not_enough_seats : ℕ → PaymentError
  paid_tickets no_free_tickets_left : PaymentError
  flexpay_refused flexpay_unreachable : PaymentError
  refund_not_found refund_recorded : PaymentError
  -- Prisma's P2025: an update of a row that is not there.
  record_not_found : PaymentError

unfoldable pub is_pending : PaymentStatus → Bool
is_pending pending = true
is_pending _ = false

unfoldable pub is_completed : PaymentStatus → Bool
is_completed completed = true
is_completed _ = false

unfoldable pub is_refunded : PaymentStatus → Bool
is_refunded refunded = true
is_refunded _ = false

abbrev pub set_status : PaymentStatus → Payment → Payment
set_status status p = record p { status = status }
