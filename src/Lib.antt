-- ===== src/Lib.antt =====
-- Verification of the ticketing platform's backend (backend/src): online ticketing for events, with
-- a shop, print quotas, and scanners at the gates.
--
-- The parts and their files:
--   Pricing    backend/src/billing/pricing.ts: roundMoney, buyerUnitPrice, ticketFeeSplit
--              (round_money, buyer_unit_price, ticket_fee_split).
--   EventDays  backend/src/tickets/event-days.ts: the days of an event, the validity days of a
--              tariff (normalize_valid_days), the capacity of each day.
--   Access     the roles and the event row that the services share, and the owner check.
--   Shop       backend/src/shop/shop.service.ts. Shop/Orders has the life of an order
--              (createPendingOrder, markPaidForPayment, cancelForPayment, expireStaleOrders,
--              updateOrderStatus), Shop/Quote the pricing of a cart (quote). Shop/Units says what
--              the units of a variant are, Shop/Conservation, Shop/Payments and Shop/Transitions
--              treat each operation, Shop/History any sequence of them, Shop/Quotes and Shop/Quoted
--              the total of a cart, and Shop/Races two requests at the same time.
--   PrintQuota backend/src/subscription/subscription.service.ts: quotePrint, consumePrint,
--              addCredits, refundCredits, assertCanAddController.
--   Tickets    backend/src/tickets/ticket-generation.service.ts and tickets.service.ts:
--              Tickets/Generation has generateTickets, Tickets/Cancel cancelTicket and the bulk
--              operations. Tickets/Seats counts the seats of a tariff, Tickets/History treats any
--              sequence of batches, cancellations and scans, Tickets/Batches a whole call of
--              generateTickets, and Tickets/Races two cancellations at the same time.
--              Tickets/Tariffs has backend/src/tickets/ticket-template.service.ts (create, update
--              and delete of a tariff), Tickets/Capacity, Tickets/Weights and Tickets/Changes the
--              capacity that it checks.
--   Validation backend/src/validation/validation.service.ts: Validation/Scanning has the parts of
--              scanTicket and its rules, Validation/ScanTicket the whole, as the reads up to a
--              decision and the writes. Validation/Chances and Validation/Decided say what a scan
--              leaves of a ticket's chances to enter, Validation/SingleEntry treats any
--              interleaving of scans. Validation/Sync has syncOfflineScans, and Validation/Batch
--              treats it; Validation/Admission says whom the rules let in.
--   Payments   backend/src/payment/payment.service.ts, backend/src/billing/refunds.service.ts,
--              backend/src/common/phone.ts and the sales of backend/src/public/public.service.ts.
--              Payments/Checkout has the checks and the price of an order, Payments/Ordering the
--              rest of initiatePayment and purchaseTicket, Payments/FreeTickets the daily limit,
--              Payments/Settlement and Payments/Callback what FlexPay's answers decide (handleCallback,
--              getPaymentStatus, settleStalePayments), Payments/Issue the tickets of a paid order,
--              Payments/Refunding the refunds, Payments/Phone the phone numbers. Payments/Diagram has
--              the statuses of a payment and the interleavings of the requests, which Payments/Moves,
--              Payments/Once and Payments/Interleavings treat; Payments/Stale, Payments/Confirmed,
--              Payments/Returns, Payments/Amounts and Payments/Numbers treat one operation each,
--              Payments/Rows and Payments/Balance an order from the rows that it reads, and
--              Payments/FreeWindow the free tickets of a day.
--   Billing    backend/src/billing/billing.service.ts, backend/src/subscription/subscription.service.ts
--              and backend/src/billing/payouts.service.ts: Billing/Calendar adds months to a date,
--              Billing/Plans has the plan in force, Billing/Subscriptions its changes, Billing/Credits
--              and Billing/Grants what an organizer buys and is granted, Billing/Payouts what an
--              organizer is owed. Billing/Months, Billing/Periods, Billing/Receipts, Billing/Settled and
--              Billing/Shares treat them.
--   Controllers backend/src/controllers-mgmt/controllers.service.ts and the controllersCount of
--              subscription.service.ts: create, invite, acceptInvitation, update, delete, assignEvent,
--              unassignEvent. Controllers/Places and Controllers/Switching count the places of a plan,
--              Controllers/Steps treats any sequence of the operations, Controllers/Owners what an
--              organizer can change.
--   Accounts   backend/src/auth/auth.service.ts (validateUser, login) with the get, set and del of
--              backend/src/redis/redis.service.ts. Accounts/Codes says how long a used code is kept,
--              Accounts/Replay and Accounts/Lock treat a sequence of logins.
--   Mail       backend/src/common/email/mail-domain.ts: the distance of two domains and the
--              suggestion; Mail/Distance has the distance by recursion, Mail/Scripts the edits that it
--              counts.
--   Prelude    results, tables of keyed rows, lists, integers and products of doubles; Examples has concrete inputs.
--
-- How they interact: the shop prices its carts by Pricing; generateTickets pays for its prints by
-- PrintQuota, and takes its seats in a transaction; scanTicket reads the tickets, their tariffs
-- with their validity days, and EventDays. A payment is priced by Pricing and the shop's quote; when
-- FlexPay confirms it, Payments/Issue calls generateTickets and markPaidForPayment, and when it fails,
-- cancelForPayment. A refund gives back what Tickets and Shop count. A grant of the billing adds the
-- credits that PrintQuota takes, and the plan that PrintQuota reads limits the controllers.
--
-- How the code is modelled: a table is the list of its rows, and a query by key is `find`, `update`
-- or `claim` (an updateMany with a condition on one row). A transaction is a function to a result,
-- whose error leaves the state as it was. An operation that reads before it writes is two
-- functions, so that other requests can come between them. Amounts are in cents, instants in
-- milliseconds since 1970, days in days since 1970, and identifiers are numbers. Integers are
-- unbounded: JavaScript's numbers are exact up to 2 ^ 53, far above these amounts.
--
-- Bounds: the loop of eventDays has 367 rounds at most, as in the code, so no fuel is added; the
-- expiry of orders takes 100 at a time and the check of stale payments 50, as in the code; the loop
-- that counts the months of a subscription has 1200 rounds at most, as in the code; the last place of
-- a double is looked for in 64 rounds, enough for numbers below 2 ^ 117 (Prelude/Double). All other
-- loops are over lists.
--
-- Not modelled: e-mails, notifications, broadcasts, listings, the history of a ticket or of a plan,
-- signatures and keys (the reading and the verification of a QR code are parameters), FlexPay and the
-- DNS (their answers are arguments), the binary rounding of JavaScript's numbers but in the amounts of
-- print credits (Prelude/Double), PDFs, the other operations on accounts, teams, projects,
-- communication and the user interfaces. Whether the key of an organizer signs the tickets is a
-- parameter, and the key pairs are not a table. A query of the database does not fail by itself. The
-- tickets of a paid order and its completion are one step in the interleavings of payments.
pub mod Access
pub mod Accounts
pub mod Billing
pub mod Controllers
pub mod EventDays
pub mod Examples
pub mod Mail
pub mod Payments
pub mod Prelude
pub mod Pricing
pub mod PrintQuota
pub mod Shop
pub mod Tickets
pub mod Validation
