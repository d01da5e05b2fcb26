-- ===== src/Examples/Money.antt =====
-- Prices, quotes and print credits on concrete amounts.
use ticketing_platform.Prelude.Double.{ceil_cents, last_place, round_double, round_to}
use ticketing_platform.Prelude.{
  List, [], arith, claim, false, find, ok, refl, some, sum_by, update, ℕ, ◌*◌, ◌+◌, ◌-◌, ◌<◌, ◌==◌,
  ◌∷◌, ◌≡◌, ◌≤◌,
}
use ticketing_platform.Prelude.Int.{pos, ◌+ℤ◌, ◌-ℤ◌}
use ticketing_platform.Pricing.{
  Currency, IsWhole, Item, buyer, buyer_total, buyer_unit_price, cdf, listed_total, organizer,
  other, round_div, round_money, round_money_ℤ, split_by, ticket_fee_split,
}
use ticketing_platform.Pricing.Split.{
  buyer_unit_price_rate, ticket_fee_split-conserves, ticket_fee_split_rate, unit,
}
use ticketing_platform.PrintQuota.{
  Account, Plan, PrintQuote, account_keyed, badges, consume_print, consume_quote, credits,
  credits_of, limit_of, quote_from, quote_print, set_credits, take_credits, tickets, unit_price,
}
use ticketing_platform.PrintQuota.Laws.{consume_print-ok, quote_from-covers, unit_cents}

-- Two tickets at 12.34 and one at 5 dollars.
abbrev cart : List Item
cart = record { price = 1234; quantity = 2 } ∷ record { price = 500; quantity = 1 } ∷ []

abbrev dollars : Currency
dollars = other 840

split_for_buyer :
    ticket_fee_split cart buyer dollars
    ≡ record { listed = 2968; buyer_pays = 3235; fee = pos 267; organizer_gets = 2968 }
unfolding ticket_fee_split listed_total buyer_total split_by sum_by buyer_unit_price round_money
    round_div round_money_ℤ ◌-ℤ◌
split_for_buyer = refl

ticket_fee_split-conserves_example :
    pos (ticket_fee_split cart buyer dollars).buyer_pays
    ≡ (ticket_fee_split cart buyer dollars).fee
      +ℤ pos (ticket_fee_split cart buyer dollars).organizer_gets
ticket_fee_split-conserves_example = ticket_fee_split-conserves cart buyer dollars tt

ticket_fee_split_rate_example :
    (f : ℕ) × ((ticket_fee_split cart organizer cdf).fee ≡ pos f)
    × (200 * f ≤ 18 * listed_total cart + unit cdf)
    × (18 * listed_total cart ≤ 200 * f + unit cdf)
ticket_fee_split_rate_example = ticket_fee_split_rate cart cdf

buyer_unit_price_rate_example :
    IsWhole (buyer_unit_price 1234 buyer dollars) dollars
    × (200 * buyer_unit_price 1234 buyer dollars ≤ 218 * 1234 + unit dollars)
    × (218 * 1234 ≤ 200 * buyer_unit_price 1234 buyer dollars + unit dollars)
buyer_unit_price_rate_example = buyer_unit_price_rate 1234 dollars

abbrev starter : Plan
starter = record { max_tickets = some 100; max_badges = some 10; max_controllers = some 2 }

abbrev accounts : List Account
accounts =
    record { organizer_id = 1; ticket_credits = 30; badge_credits = 0 }
    ∷ record { organizer_id = 2; ticket_credits = 50; badge_credits = 5 }
    ∷ []

abbrev after_print : List Account
after_print =
    record { organizer_id = 1; ticket_credits = 30; badge_credits = 0 }
    ∷ record { organizer_id = 2; ticket_credits = 40; badge_credits = 5 }
    ∷ []

printed : consume_print tickets starter 90 accounts 2 20 ≡ ok (after_print, 10)
unfolding consume_print consume_quote quote_print quote_from credits credits_of set_credits limit_of
    take_credits find update claim unit_price
printed = refl

consume_print-ok_example :
    (credits tickets 2 after_print + 10 ≡ credits tickets 2 accounts)
    × ((o : ℕ) → (2 == o) ≡ false → credits tickets o after_print ≡ credits tickets o accounts)
    × ((limit : ℕ) → limit_of tickets starter ≡ some limit → 20 ≤ (limit - 90) + 10)
consume_print-ok_example = consume_print-ok tickets starter 90 accounts 2 20 printed

abbrev short_quote : PrintQuote
short_quote = record {
  count = 30;
  remaining = some 10;
  credits = 5;
  from_quota = 10;
  from_credits = 5;
  missing = 15;
  amount = 30;
}

quote_short : quote_from tickets (some 100) 90 5 30 ≡ short_quote
unfolding quote_from unit_price ceil_cents round_double round_to last_place
quote_short = refl

quote_from-covers_example :
    let q = quote_from tickets (some 100) 90 5 30 in
    (q.from_quota + q.from_credits + q.missing ≡ 30)
    × (q.from_quota ≤ 100 - 90)
    × (q.from_credits ≤ 5)
    × (0 < q.from_credits + q.missing → q.from_quota ≡ 100 - 90)
    × (0 < q.missing → q.from_credits ≡ 5)
    × (q.missing * unit_cents tickets ≤ q.amount)
    × (q.amount ≤ q.missing * unit_cents tickets + 1)
quote_from-covers_example = quote_from-covers tickets 100 90 5 30 (omega arith)

-- Seven tickets cost a cent more than fourteen.
seven_tickets : ceil_cents 7 (unit_price tickets) ≡ 15
unfolding ceil_cents round_double round_to last_place unit_price
seven_tickets = refl

fifty_tickets : ceil_cents 50 (unit_price tickets) ≡ 100
unfolding ceil_cents round_double round_to last_place unit_price
fifty_tickets = refl

three_badges : ceil_cents 3 (unit_price badges) ≡ 61
unfolding ceil_cents round_double round_to last_place unit_price
three_badges = refl
