-- ===== src/Billing/Payouts.antt =====
-- backend/src/billing/payouts.service.ts: what the platform owes an organizer for the sales of an
-- event, and the transfers that it records.
use ticketing_platform.EventDays.{day_ms}
use ticketing_platform.Payments.{Payment, is_completed, is_refunded, payment_keyed, refund_keyed}
use ticketing_platform.Pricing.{
  Currency, cdf, other, round_div_ℤ, round_money, round_money_ℤ, same_currency,
}
use ticketing_platform.Access.{Event, event_keyed}
use ticketing_platform.Prelude.Int.{ltb_ℤ, pos, ℤ, ◌*ℤ◌, ◌+ℤ◌, ◌-ℤ◌}
use ticketing_platform.Prelude.{
  Bool, List, Option, Result, [], any, err, false, find, find_first, guard, if◌then◌else◌, keep,
  leb, map, none, not, ok, or_else, some, sum_by, true, ℕ, ◌&&◌, ◌*◌, ◌++◌, ◌+◌, ◌==◌, ◌>>=◌, ◌>>◌,
  ◌||◌, ◌∷◌,
}

pub data PayoutPart : Type 0 where
  main reserve : PayoutPart

pub record Payout : Type 0 where
  pub id : ℕ
  pub event_id : ℕ
  pub organizer_id : ℕ
  pub part : PayoutPart
  pub amount : ℤ
  pub currency : Currency
  pub paid_at : ℕ

unfoldable pub same_part : PayoutPart → PayoutPart → Bool
same_part main main = true
same_part reserve reserve = true
same_part _ _ = false

unfoldable pub is_part_of : ℕ → PayoutPart → Payout → Bool
is_part_of event_id part p = p.event_id == event_id && same_part p.part part

-- e.payouts.find((p) => p.part === part)
unfoldable pub paid_part : ℕ → PayoutPart → List Payout → Option Payout
paid_part event_id part = find_first (is_part_of event_id part)

unfoldable pub is_of : ℕ → Currency → Payment → Bool
is_of event_id currency p = p.event_id == event_id && same_currency p.currency currency

-- The orders since the fee have their net amount.
unfoldable pub is_with_net : Payment → Bool
is_with_net p = is_completed p.status && elim p.net_amount [ none ↦ false | some n ↦ true ]

unfoldable pub is_legacy : Payment → Bool
is_legacy p = is_completed p.status && elim p.net_amount [ none ↦ true | some n ↦ false ]

unfoldable pub amounts : List Payment → ℕ
amounts = sum_by (λ (p : Payment). p.amount)

unfoldable pub net_amounts : List Payment → ℕ
net_amounts = sum_by (λ (p : Payment). or_else p.net_amount 0)

unfoldable pub fee_amounts : List Payment → ℤ
fee_amounts [] = pos 0
fee_amounts (p ∷ ps) = p.fee_amount +ℤ fee_amounts ps

-- The groups of an event's orders in a currency: with their net amount, without, and refunded.
pub record Groups : Type 0 where
  pub with_net : List Payment
  pub legacy : List Payment
  pub refunds : List Payment

unfoldable pub groups_of : ℕ → Currency → List Payment → Groups
groups_of event_id currency payments =
    let own = keep (is_of event_id currency) payments in
    record {
      with_net = keep is_with_net own;
      legacy = keep is_legacy own;
      refunds = keep (λ (p : Payment). is_refunded p.status) own;
    }

unfoldable pub gross_of : Groups → ℕ
gross_of g = amounts g.with_net + amounts g.legacy + amounts g.refunds

-- The platform's fee on a refunded order stays due.
unfoldable pub net_of : Groups → Currency → ℤ
net_of g currency =
    round_money_ℤ (pos (net_amounts g.with_net + amounts g.legacy) -ℤ fee_amounts g.refunds)
      currency

-- roundMoney(net * RESERVE_RATE, currency)
unfoldable pub reserve_rate : ℤ → Currency → ℤ
reserve_rate net cdf = pos 100 *ℤ round_div_ℤ net 1000
reserve_rate net (other code) = round_div_ℤ net 10

-- The first transfer: what was recorded, or nine tenths.
unfoldable pub main_amount : Option Payout → ℤ → Currency → ℤ
main_amount (some p) net currency = p.amount
main_amount none net currency = round_money_ℤ (net -ℤ reserve_rate net currency) currency

unfoldable pub reserve_amount : Option Payout → ℤ → Currency → ℤ
reserve_amount paid net currency = round_money_ℤ (net -ℤ main_amount paid net currency) currency

pub data PayoutStatus : Type 0 where
  paid owed due upcoming : PayoutStatus

-- addDays
unfoldable pub add_days : ℕ → ℕ → ℕ
add_days t days = t + days * day_ms

pub record Part : Type 0 where
  pub amount : ℤ
  pub due_at : ℕ
  pub status : PayoutStatus

unfoldable pub unpaid_status : ℤ → ℕ → ℕ → PayoutStatus
unpaid_status amount due_at now =
    if ltb_ℤ amount (pos 0) then owed else if leb due_at now then due else upcoming

unfoldable pub part_of : Option Payout → ℤ → ℕ → ℕ → Part
part_of (some p) amount due_at now = record { amount = p.amount; due_at = due_at; status = paid }
part_of none amount due_at now = record {
  amount = amount;
  due_at = due_at;
  status = unpaid_status amount due_at now;
}

pub record Summary : Type 0 where
  pub event_id : ℕ
  pub organizer_id : ℕ
  pub currency : Currency
  pub gross : ℕ
  pub net : ℤ
  pub main : Part
  pub reserve : Part

abbrev pub payout_delay_days : ℕ
payout_delay_days = 3

abbrev pub reserve_delay_days : ℕ
reserve_delay_days = 7

-- The row of an event and a currency.
unfoldable pub summary_of : Event → List Payment → List Payout → ℕ → Currency → Summary
summary_of e payments payouts now currency =
    let g = groups_of e.id currency payments in
    let net = net_of g currency in
    let main_paid = paid_part e.id main payouts in
    let main_due = add_days e.end_date payout_delay_days in
    record {
      event_id = e.id;
      organizer_id = e.organizer_id;
      currency = currency;
      gross = round_money (100 * gross_of g) currency;
      net = net;
      main = part_of main_paid (main_amount main_paid net currency) main_due now;
      reserve =
          part_of (paid_part e.id reserve payouts) (reserve_amount main_paid net currency)
            (add_days main_due reserve_delay_days) now;
    }

unfoldable pub has_currency : Currency → List Currency → Bool
has_currency c = any (same_currency c)

-- [...new Set(currencies)], where the last of equal ones stays
unfoldable pub distinct_currencies : List Currency → List Currency
distinct_currencies [] = []
distinct_currencies (c ∷ cs) =
    let rest = distinct_currencies cs in if has_currency c rest then rest else c ∷ rest

unfoldable pub is_sale : ℕ → Payment → Bool
is_sale event_id p = p.event_id == event_id && (is_completed p.status || is_refunded p.status)

-- The rows of an event. An event without sales has none.
unfoldable pub summaries : Event → List Payment → List Payout → ℕ → List Summary
summaries e payments payouts now =
    map (summary_of e payments payouts now)
      (distinct_currencies (map (λ (p : Payment). p.currency) (keep (is_sale e.id) payments)))

pub data PayoutError : Type 0 where
  no_sales several_currencies already_paid nothing_to_pay : PayoutError

unfoldable pub single : List Summary → Result PayoutError Summary
single [] = err no_sales
single (r ∷ []) = ok r
single (r ∷ s ∷ rs) = err several_currencies

abbrev pub part_in : PayoutPart → Summary → Part
part_in main r = r.main
part_in reserve r = r.reserve

unfoldable pub is_paid : PayoutStatus → Bool
is_paid paid = true
is_paid _ = false

unfoldable pub event_rows : Option Event → List Payment → List Payout → ℕ → List Summary
event_rows none payments payouts now = []
event_rows (some e) payments payouts now = summaries e payments payouts now

-- markPaid; `id` is the identifier of the new row.
unfoldable pub mark_payout_paid :
    ℕ
    → ℕ
    → PayoutPart
    → ℕ
    → List Event
    → List Payment
    → List Payout
    → Result PayoutError (List Payout)
mark_payout_paid id event_id part now events payments payouts = do
  r ← single (event_rows (find event_id events) payments payouts now)
  let item = part_in part r
  guard (not (is_paid item.status)) already_paid
  guard (ltb_ℤ (pos 0) item.amount) nothing_to_pay
  ok (
      payouts
      ++ record {
        id = id;
        event_id = event_id;
        organizer_id = r.organizer_id;
        part = part;
        amount = item.amount;
        currency = r.currency;
        paid_at = now;
      }
        ∷ [])
