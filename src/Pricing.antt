-- ===== src/Pricing.antt =====
-- backend/src/billing/pricing.ts: ZAYA's fee on online sales.
-- Amounts are numbers of cents of the currency (the columns are Decimal(10, 2)). A product of an
-- amount and a rate is a number of hundredths of a cent, so no intermediate value is rounded
-- before the source rounds it: `Math.round` takes the nearest integer, and halves go up. The
-- binary rounding of JavaScript's floating-point numbers is not modelled.
pub mod Split
use ticketing_platform.Prelude.Int.{negsuc, pos, sub_ℕ, ℤ, ◌*ℤ◌, ◌-ℤ◌}
use ticketing_platform.Prelude.{
  Bool, List, false, if◌then◌else◌, leb, suc, sum_by, true, ℕ, ◌%◌, ◌*◌, ◌+◌, ◌-◌, ◌/◌, ◌==◌, ◌≡◌,
}

-- CDF has no decimals; every other code is kept to the cent.
pub data Currency : Type 0 where
  cdf : Currency
  other : ℕ → Currency

-- Whether two currency codes are the same.
unfoldable pub same_currency : Currency → Currency → Bool
same_currency cdf cdf = true
same_currency (other a) (other b) = a == b
same_currency _ _ = false

-- Any value that is not 'BUYER', null included, lets the organizer pay.
pub data FeePayer : Type 0 where
  organizer buyer : FeePayer

-- SALES_FEE_RATE is 0.09, in hundredths.
abbrev pub sales_fee_rate : ℕ
sales_fee_rate = 9

-- Math.round of a quotient n / d of natural numbers.
unfoldable pub round_div : ℕ → ℕ → ℕ
round_div n d = (2 * n + d) / (2 * d)

-- Math.round of a quotient whose numerator may be negative: halves go up there too.
unfoldable pub round_div_ℤ : ℤ → ℕ → ℤ
unfolding round_div
round_div_ℤ (pos n) d = pos (round_div n d)
round_div_ℤ (negsuc n) d = sub_ℕ 0 ((2 * suc n + d - 1) / (2 * d))

-- `amount` in hundredths of a cent, the result in cents.
unfoldable pub round_money : ℕ → Currency → ℕ
unfolding round_div
round_money amount cdf = 100 * round_div amount 10000
round_money amount (other code) = round_div amount 100

-- `roundMoney` of a difference of amounts, in cents.
unfoldable pub round_money_ℤ : ℤ → Currency → ℤ
unfolding round_div_ℤ
round_money_ℤ amount cdf = pos 100 *ℤ round_div_ℤ amount 100
round_money_ℤ amount (other code) = amount

-- An amount that `round_money` leaves alone: whole francs, any number of cents otherwise.
abbrev pub IsWhole : ℕ → Currency → Type 0
IsWhole amount cdf = amount % 100 ≡ 0
IsWhole amount (other code) = Unit {0}

unfoldable pub buyer_unit_price : ℕ → FeePayer → Currency → ℕ
buyer_unit_price price organizer currency = price
buyer_unit_price price buyer currency =
    if leb price 0 then price else round_money (price * (100 + sales_fee_rate)) currency

pub record Item : Type 0 where
  pub price : ℕ
  pub quantity : ℕ

pub record FeeSplit : Type 0 where
  pub listed : ℕ
  pub buyer_pays : ℕ
  pub fee : ℤ
  pub organizer_gets : ℕ

-- items.reduce((s, i) => s + i.price * i.quantity, 0)
unfoldable pub listed_total : List Item → ℕ
unfolding sum_by
listed_total = sum_by (λ i. i.price * i.quantity)

unfoldable pub buyer_total : List Item → Currency → ℕ
unfolding sum_by
buyer_total items currency =
    sum_by (λ i. buyer_unit_price i.price buyer currency * i.quantity) items

unfoldable pub split_by : FeePayer → List Item → ℕ → Currency → FeeSplit
split_by buyer items listed currency = record {
  listed = listed;
  buyer_pays = round_money (100 * buyer_total items currency) currency;
  fee = round_money_ℤ (pos (buyer_total items currency) -ℤ pos listed) currency;
  organizer_gets = listed;
}
split_by organizer items listed currency =
    let fee = round_money (listed * sales_fee_rate) currency in
    record {
      listed = listed;
      buyer_pays = listed;
      fee = pos fee;
      organizer_gets = round_money (100 * (listed - fee)) currency;
    }

unfoldable pub ticket_fee_split : List Item → FeePayer → Currency → FeeSplit
unfolding split_by
ticket_fee_split items payer currency =
    if leb (listed_total items) 0
    then record { listed = 0; buyer_pays = 0; fee = pos 0; organizer_gets = 0 }
    else split_by payer items (listed_total items) currency
