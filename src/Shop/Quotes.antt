-- ===== src/Shop/Quotes.antt =====
-- The total of a quote beside its fee and the organizer's share.
use ticketing_platform.Shop.{Fulfillment}
use ticketing_platform.Pricing.Split.{
  buyer_unit_price-IsWhole, mul-IsWhole, round_money_whole, ticket_fee_split-conserves,
}
use ticketing_platform.Prelude.Int.{pos, ◌+ℤ◌}
use ticketing_platform.Prelude.{
  All, Bool-cases, List, [], arith, inl, inr, leb, map, refl, subst, suc, sum_by, sym, zero, ℕ, ◌*◌,
  ◌+◌, ◌∷◌, ◌≡◌,
}
use ticketing_platform.Access.{organizer}
use ticketing_platform.Pricing.{
  Currency, FeePayer, IsWhole, Item, buyer, buyer_total, buyer_unit_price, cdf, listed_total,
  organizer, other, round_money, split_by, ticket_fee_split,
}
use ticketing_platform.Shop.Quote.{Line, buyer_line, lines_total, priced, quote_total}

buyer_unit_price_zero : (payer : FeePayer) (c : Currency) → buyer_unit_price 0 payer c ≡ 0
unfolding buyer_unit_price
buyer_unit_price_zero organizer c = refl
buyer_unit_price_zero buyer c = refl

-- What the buyer pays for the lines and the delivery, before the last rounding.
priced-total :
    (payer : FeePayer) (c : Currency) (lines : List Line) (fee : ℕ)
    → lines_total (map (buyer_line payer c) lines) + buyer_unit_price fee payer c
      ≡ sum_by (λ i. buyer_unit_price i.price payer c * i.quantity) (priced lines fee)
unfolding priced lines_total sum_by
priced-total payer c [] fee = ground (arith, buyer_unit_price_zero payer c)
priced-total payer c (l ∷ ls) fee = omega (arith, priced-total payer c ls fee)

nothing_to_pay :
    (payer : FeePayer) (c : Currency) (p q : ℕ) → p * q ≡ 0 → buyer_unit_price p payer c * q ≡ 0
nothing_to_pay payer c zero q h = rw (buyer_unit_price_zero payer c) (omega arith)
nothing_to_pay payer c (suc p) zero h = omega arith
nothing_to_pay payer c (suc p) (suc q) h = absurd (omega arith)

buyer_sum : FeePayer → Currency → List Item → ℕ
buyer_sum payer c = sum_by (λ i. buyer_unit_price i.price payer c * i.quantity)

buyer_sum_zero :
    (payer : FeePayer) (c : Currency) (items : List Item)
    → listed_total items ≡ 0
    → buyer_sum payer c items ≡ 0
unfolding buyer_sum listed_total sum_by
buyer_sum_zero payer c [] h = refl
buyer_sum_zero payer c (i ∷ is) h = omega (
  arith,
  nothing_to_pay payer c i.price i.quantity (omega arith),
  buyer_sum_zero payer c is (omega arith),
)

split_by-buyer_pays :
    (payer : FeePayer) (c : Currency) (items : List Item)
    → IsWhole (listed_total items) c
    → (split_by payer items (listed_total items) c).buyer_pays
      ≡ round_money (100 * buyer_sum payer c items) c
unfolding split_by buyer_sum listed_total buyer_total buyer_unit_price
split_by-buyer_pays organizer c items h = sym (round_money_whole _ c h)
split_by-buyer_pays buyer c items h = refl

round_money_zero : (c : Currency) → round_money (100 * 0) c ≡ 0
unfolding round_money
round_money_zero cdf = refl
round_money_zero (other code) = refl

-- The split's total is the sum of what the buyer pays for each item.
split-buyer_pays :
    (payer : FeePayer) (c : Currency) (items : List Item)
    → IsWhole (listed_total items) c
    → (ticket_fee_split items payer c).buyer_pays ≡ round_money (100 * buyer_sum payer c items) c
unfolding ticket_fee_split
split-buyer_pays payer c items h = elim (Bool-cases (leb (listed_total items) 0)) [
  | inl none_listed ↦
      rw (none_listed, buyer_sum_zero payer c items (ground arith)) (sym (round_money_zero c))
  | inr some_listed ↦ rw some_listed (split_by-buyer_pays payer c items h)
]

line-IsWhole :
    (payer : FeePayer) (c : Currency) (price quantity : ℕ)
    → IsWhole price c
    → IsWhole (buyer_unit_price price payer c * quantity) c
line-IsWhole organizer cdf price quantity h =
    unfold buyer_unit_price in mul-IsWhole price quantity h
line-IsWhole buyer cdf price quantity h =
    mul-IsWhole (buyer_unit_price price buyer cdf) quantity (buyer_unit_price-IsWhole price cdf)
line-IsWhole payer (other code) price quantity h = tt

pub add-IsWhole : (a b : ℕ) (c : Currency) → IsWhole a c → IsWhole b c → IsWhole (a + b) c
add-IsWhole a b cdf h k = omega arith
add-IsWhole a b (other code) h k = tt

-- The listed prices of a cart are payable amounts of its currency.
abbrev pub HasWholePrices : List Line → ℕ → Currency → Type 0
HasWholePrices lines fee c = All (λ l. IsWhole l.unit_price c) lines × IsWhole fee c

pub zero-IsWhole : (c : Currency) → IsWhole 0 c
zero-IsWhole cdf = refl
zero-IsWhole (other code) = tt

lines_total-IsWhole :
    (payer : FeePayer) (c : Currency) (lines : List Line)
    → All (λ l. IsWhole l.unit_price c) lines
    → IsWhole (lines_total (map (buyer_line payer c) lines)) c
unfolding lines_total sum_by
lines_total-IsWhole payer c [] h = zero-IsWhole c
lines_total-IsWhole payer c (l ∷ ls) h =
    add-IsWhole _ _ c (line-IsWhole payer c l.unit_price l.quantity h.0)
      (lines_total-IsWhole payer c ls h.1)

delivery-IsWhole :
    (payer : FeePayer) (c : Currency) (fee : ℕ)
    → IsWhole fee c
    → IsWhole (buyer_unit_price fee payer c) c
delivery-IsWhole organizer c fee h = unfold buyer_unit_price in h
delivery-IsWhole buyer c fee h = buyer_unit_price-IsWhole fee c

pub listed-IsWhole :
    (c : Currency) (lines : List Line) (fee : ℕ)
    → HasWholePrices lines fee c
    → IsWhole (listed_total (priced lines fee)) c
unfolding listed_total buyer_unit_price
listed-IsWhole c lines fee h =
    subst (λ n. IsWhole n c) (priced-total organizer c lines fee)
      (add-IsWhole _ fee c (lines_total-IsWhole organizer c lines h.0) h.1)

-- Where the listed prices are payable amounts, the total of a quote is its fee and the organizer's
-- share, whoever pays the fee, delivery included.
pub quote_total-conserves :
    (f : Fulfillment) (payer : FeePayer) (c : Currency) (lines : List Line) (fee : ℕ)
    → HasWholePrices lines fee c
    → let q = quote_total f payer c lines fee in pos q.total ≡ q.fee +ℤ pos q.organizer_gets
unfolding quote_total buyer_sum
quote_total-conserves f payer c lines fee h =
    rw
      (
        round_money_whole _ c (lines_total-IsWhole payer c lines h.0),
        priced-total payer c lines fee,
        ← split-buyer_pays payer c (priced lines fee) (listed-IsWhole c lines fee h),
      )
      (ticket_fee_split-conserves (priced lines fee) payer c (listed-IsWhole c lines fee h))
