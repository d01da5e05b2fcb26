-- ===== src/Payments/Amounts.antt =====
-- The amount of an order beside its fee and what the organizer gets.
use ticketing_platform.Payments.Checkout.{merch_fee, merch_net, merch_total, price_order, sold_item}
use ticketing_platform.Tickets.{Template}
use ticketing_platform.Shop.Quotes.{add-IsWhole, zero-IsWhole}
use ticketing_platform.Shop.{MerchQuote}
use ticketing_platform.Pricing.Split.{
  round_money-IsWhole, round_money_whole, round_money_ℤ_whole, ticket_fee_split-conserves,
}
use ticketing_platform.Pricing.{
  Currency, FeePayer, IsWhole, Item, buyer, buyer_total, listed_total, organizer, round_money,
  round_money_ℤ, sales_fee_rate, split_by, ticket_fee_split,
}
use ticketing_platform.Access.{Event, organizer}
use ticketing_platform.Prelude.Int.{int_laws, neg_part, pos, pos_part, ℤ, ◌+ℤ◌, ◌-ℤ◌}
use ticketing_platform.Prelude.{
  Bool-cases, List, Option, ap, inl, inr, leb, map, none, some, subst, sym, ℕ, ◌*◌, ◌+◌, ◌-◌, ◌≡◌,
}

split_by-IsWhole :
    (payer : FeePayer) (items : List Item) (c : Currency)
    → IsWhole (listed_total items) c
    → let s = split_by payer items (listed_total items) c in
      IsWhole s.buyer_pays c × IsWhole s.organizer_gets c
unfolding split_by
split_by-IsWhole buyer items c h = (round_money-IsWhole (100 * buyer_total items c) c, h)
split_by-IsWhole organizer items c h = (
  h,
  round_money-IsWhole
      (100 * (listed_total items - round_money (listed_total items * sales_fee_rate) c)) c,
)

pub split-IsWhole :
    (items : List Item) (payer : FeePayer) (c : Currency)
    → IsWhole (listed_total items) c
    → let s = ticket_fee_split items payer c in IsWhole s.buyer_pays c × IsWhole s.organizer_gets c
unfolding ticket_fee_split
split-IsWhole items payer c h = elim (Bool-cases (leb (listed_total items) 0)) [
  | inl none_listed ↦ rw none_listed (zero-IsWhole c, zero-IsWhole c)
  | inr some_listed ↦ rw some_listed (split_by-IsWhole payer items c h)
]

-- The shop's part of an order is of payable amounts, its fee and the organizer's share.
abbrev pub IsBalanced : Option MerchQuote → Currency → Type 0
IsBalanced none c = Unit {0}
IsBalanced (some q) c =
    IsWhole q.total c × IsWhole q.organizer_gets c × (pos q.total ≡ q.fee +ℤ pos q.organizer_gets)

merch-IsBalanced :
    (merch : Option MerchQuote) (c : Currency)
    → IsBalanced merch c
    → IsWhole (merch_total merch) c
      × IsWhole (merch_net merch) c
      × (pos (merch_total merch) ≡ merch_fee merch +ℤ pos (merch_net merch))
merch-IsBalanced none c h = (zero-IsWhole c, zero-IsWhole c, omega int_laws)
merch-IsBalanced (some q) c h = h

difference : (x : ℤ) (a b : ℕ) → pos a ≡ x +ℤ pos b → x ≡ pos a -ℤ pos b
difference x a b h = omega (int_laws, ap pos_part h, ap neg_part h)

sum_balanced :
    (x y : ℤ) (a b m n : ℕ)
    → pos a ≡ x +ℤ pos b
    → pos m ≡ y +ℤ pos n
    → pos (a + m) ≡ x +ℤ y +ℤ pos (b + n)
sum_balanced x y a b m n h k =
    omega (int_laws, ap pos_part h, ap neg_part h, ap pos_part k, ap neg_part k)

round_fee :
    (x : ℤ) (a b : ℕ) (c : Currency)
    → IsWhole a c
    → IsWhole b c
    → pos a ≡ x +ℤ pos b
    → round_money_ℤ x c ≡ x
round_fee x a b c h k e =
    subst (λ (y : ℤ). round_money_ℤ y c ≡ y) (sym (difference x a b e))
      (round_money_ℤ_whole a b c h k)

-- The amount of an order is its fee and what the organizer gets, tickets and shop items together,
-- where the listed prices of the tickets add up to a payable amount and the shop's quote is of
-- payable amounts and balanced.
pub price_order-conserves :
    (event : Event) (phone : List ℕ) (lines : List (Template × ℕ)) (merch : Option MerchQuote)
    (c : Currency)
    → IsWhole (listed_total (map sold_item lines)) c
    → IsBalanced merch c
    → let o = price_order event phone lines merch c in pos o.total ≡ o.fee +ℤ pos o.net
unfolding price_order
price_order-conserves event phone lines merch c h balanced =
    let s = ticket_fee_split (map sold_item lines) event.fee_payer c in
    let (pays, gets) = split-IsWhole (map sold_item lines) event.fee_payer c h in
    let (total, net, even) = merch-IsBalanced merch c balanced in
    let all_pay = add-IsWhole s.buyer_pays (merch_total merch) c pays total in
    let all_get = add-IsWhole s.organizer_gets (merch_net merch) c gets net in
    let sum =
      sum_balanced s.fee (merch_fee merch) s.buyer_pays s.organizer_gets (merch_total merch)
        (merch_net merch) (ticket_fee_split-conserves (map sold_item lines) event.fee_payer c h)
        even in
    rw
      (
        round_money_whole (s.buyer_pays + merch_total merch) c all_pay,
        round_money_whole (s.organizer_gets + merch_net merch) c all_get,
        round_fee (s.fee +ℤ merch_fee merch) (s.buyer_pays + merch_total merch)
            (s.organizer_gets + merch_net merch) c all_pay all_get sum,
      )
      sum
