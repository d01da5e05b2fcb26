-- ===== src/Pricing/Split.antt =====
-- The amounts of a fee split and their rounding.
use native.Mathlib.Nat.{dvd-mul_right_of_dvd, dvd_of_mod-eq-zero, mod-eq-zero_of_dvd}
use ticketing_platform.Prelude.Int.{int_laws, pos, ◌*ℤ◌, ◌+ℤ◌, ◌-ℤ◌}
use ticketing_platform.Prelude.{
  Bool-cases, List, [], arith, inl, inr, leb, refl, ℕ, ◌%◌, ◌*◌, ◌+◌, ◌-◌, ◌∷◌, ◌≡◌, ◌≤◌,
}
use ticketing_platform.Pricing.{
  Currency, FeePayer, IsWhole, Item, buyer, buyer_total, buyer_unit_price, cdf, listed_total,
  organizer, other, round_money, round_money_ℤ, sales_fee_rate, split_by, ticket_fee_split,
}

pub round_money_whole : (a : ℕ) (c : Currency) → IsWhole a c → round_money (100 * a) c ≡ a
unfolding round_money
round_money_whole a cdf h = omega arith
round_money_whole a (other code) h = omega arith

pub round_money-IsWhole : (a : ℕ) (c : Currency) → IsWhole (round_money a c) c
unfolding round_money
round_money-IsWhole a cdf = omega arith
round_money-IsWhole a (other code) = tt

-- The fee taken from the organizer never exceeds the price, so the source's difference is exact.
pub fee-le-listed : (listed : ℕ) (c : Currency) → round_money (listed * sales_fee_rate) c ≤ listed
unfolding round_money
fee-le-listed a cdf = omega arith
fee-le-listed a (other code) = omega arith

pub buyer_unit_price-IsWhole :
    (price : ℕ) (c : Currency) → IsWhole (buyer_unit_price price buyer c) c
unfolding buyer_unit_price round_money
buyer_unit_price-IsWhole price cdf = ground arith
buyer_unit_price-IsWhole price (other code) = tt

pub mul-IsWhole : (a b : ℕ) → a % 100 ≡ 0 → (a * b) % 100 ≡ 0
mul-IsWhole a b h = mod-eq-zero_of_dvd 100 (dvd-mul_right_of_dvd 100 (dvd_of_mod-eq-zero 100 h) b)

buyer_total-IsWhole : (items : List Item) (c : Currency) → IsWhole (buyer_total items c) c
unfolding buyer_total
buyer_total-IsWhole items (other code) = tt
buyer_total-IsWhole [] cdf = refl
buyer_total-IsWhole (i ∷ is) cdf = omega (
  arith,
  mul-IsWhole (buyer_unit_price i.price buyer cdf) i.quantity
      (buyer_unit_price-IsWhole i.price cdf),
  buyer_total-IsWhole is cdf,
)

-- The price that a buyer pays for a ticket is a payable amount of the currency.
pub round_money_ℤ_whole :
    (a b : ℕ) (c : Currency)
    → IsWhole a c
    → IsWhole b c
    → round_money_ℤ (pos a -ℤ pos b) c ≡ pos a -ℤ pos b
unfolding round_money_ℤ ◌-ℤ◌ ◌*ℤ◌
round_money_ℤ_whole a b cdf h k = ground arith
round_money_ℤ_whole a b (other code) h k = refl

buyer_conserves :
    (t l : ℕ) (c : Currency)
    → IsWhole t c
    → IsWhole l c
    → pos (round_money (100 * t) c) ≡ round_money_ℤ (pos t -ℤ pos l) c +ℤ pos l
buyer_conserves t l c h k =
    rw (round_money_whole t c h, round_money_ℤ_whole t l c h k) (omega int_laws)

rest-IsWhole :
    (l : ℕ) (c : Currency) → IsWhole l c → IsWhole (l - round_money (l * sales_fee_rate) c) c
unfolding round_money
rest-IsWhole l cdf h = omega arith
rest-IsWhole l (other code) h = tt

organizer_conserves :
    (l : ℕ) (c : Currency)
    → IsWhole l c
    → let fee = round_money (l * sales_fee_rate) c in
      pos l ≡ pos fee +ℤ pos (round_money (100 * (l - fee)) c)
organizer_conserves l c h =
    rw (round_money_whole _ c (rest-IsWhole l c h)) (omega (int_laws, fee-le-listed l c))

split_by-conserves :
    (payer : FeePayer) (items : List Item) (c : Currency)
    → IsWhole (listed_total items) c
    → let s = split_by payer items (listed_total items) c in
      pos s.buyer_pays ≡ s.fee +ℤ pos s.organizer_gets
unfolding split_by
split_by-conserves buyer items c h =
    buyer_conserves (buyer_total items c) (listed_total items) c (buyer_total-IsWhole items c) h
split_by-conserves organizer items c h = organizer_conserves (listed_total items) c h

-- Whoever pays the fee, the buyer's total is the fee and the organizer's share: no money is lost
-- or made up by the rounding, if the listed total is a payable amount of the currency.
pub ticket_fee_split-conserves :
    (items : List Item) (payer : FeePayer) (c : Currency)
    → IsWhole (listed_total items) c
    → let s = ticket_fee_split items payer c in pos s.buyer_pays ≡ s.fee +ℤ pos s.organizer_gets
unfolding ticket_fee_split
ticket_fee_split-conserves items payer c h = elim (Bool-cases (leb (listed_total items) 0)) [
  | inl none_listed ↦ rw none_listed (omega int_laws)
  | inr some_listed ↦ rw some_listed (split_by-conserves payer items c h)
]

-- One payable unit of the currency (a franc, a cent), in hundredths of a cent.
abbrev pub unit : Currency → ℕ
unit cdf = 10000
unit (other code) = 100

-- When the organizer pays it, the fee is 9 % of the listed total, to half a payable unit.
pub ticket_fee_split_rate :
    (items : List Item) (c : Currency)
    → (f : ℕ) × ((ticket_fee_split items organizer c).fee ≡ pos f)
      × (200 * f ≤ 18 * listed_total items + unit c)
      × (18 * listed_total items ≤ 200 * f + unit c)
unfolding ticket_fee_split round_money
ticket_fee_split_rate items cdf = (
  round_money (listed_total items * sales_fee_rate) cdf,
  ground arith,
  ground arith,
  ground arith,
)
ticket_fee_split_rate items (other code) = (
  round_money (listed_total items * sales_fee_rate) (other code),
  ground arith,
  ground arith,
  ground arith,
)

-- A buyer who pays the fee pays a payable amount, 109 % of the price to half a payable unit.
pub buyer_unit_price_rate :
    (price : ℕ) (c : Currency)
    → IsWhole (buyer_unit_price price buyer c) c
      × (200 * buyer_unit_price price buyer c ≤ 218 * price + unit c)
      × (218 * price ≤ 200 * buyer_unit_price price buyer c + unit c)
unfolding buyer_unit_price round_money
buyer_unit_price_rate price cdf = ground arith
buyer_unit_price_rate price (other code) = ground arith
