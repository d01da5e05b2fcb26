-- ===== src/Billing.antt =====
-- backend/src/billing/billing.service.ts, backend/src/subscription/subscription.service.ts and
-- backend/src/billing/payouts.service.ts: what organizers pay the platform, the plan in force, and
-- what the platform owes them. Amounts are in cents; the history of plan changes is not modelled.
pub mod Calendar
pub mod Months
pub mod Plans
pub mod Periods
pub mod Subscriptions
pub mod Credits
pub mod Grants
pub mod Receipts
pub mod Settled
pub mod Payouts
pub mod Shares
