-- ===== src/Billing/Shares.antt =====
-- The two transfers of an event beside its net sales.
use ticketing_platform.Payments.{Payment}
use ticketing_platform.Access.{Event}
use ticketing_platform.Billing.Payouts.{
  Payout, amounts, fee_amounts, groups_of, main, main_amount, net_amounts, net_of, paid_part,
  part_of, reserve, reserve_amount, reserve_rate, summary_of,
}
use ticketing_platform.Pricing.{
  Currency, IsWhole, cdf, other, round_div, round_div_ℤ, round_money_ℤ,
}
use ticketing_platform.Prelude.Int.{int_laws, neg_part, negsuc, pos, pos_part, ℤ, ◌*ℤ◌, ◌+ℤ◌, ◌-ℤ◌}
use ticketing_platform.Prelude.{List, Option, ap, arith, none, refl, some, ℕ, ◌+◌, ◌∙◌, ◌≡◌}

-- A payable amount of the currency, or the opposite of one.
abbrev pub IsWholeℤ : ℤ → Currency → Type 0
IsWholeℤ x c = IsWhole (pos_part x) c × IsWhole (neg_part x) c

round-whole : (x : ℤ) (c : Currency) → IsWholeℤ x c → round_money_ℤ x c ≡ x
unfolding round_money_ℤ round_div_ℤ round_div ◌*ℤ◌
round-whole (pos n) cdf h = ground arith
round-whole (negsuc n) cdf h = ground arith
round-whole x (other code) h = refl

sub-whole : (x y : ℤ) (c : Currency) → IsWholeℤ x c → IsWholeℤ y c → IsWholeℤ (x -ℤ y) c
unfolding ◌-ℤ◌
sub-whole x y cdf h k = ground arith
sub-whole x y (other code) h k = (tt, tt)

reserve_rate-whole : (net : ℤ) (c : Currency) → IsWholeℤ (reserve_rate net c) c
unfolding reserve_rate round_div_ℤ round_div ◌*ℤ◌
reserve_rate-whole (pos n) cdf = ground arith
reserve_rate-whole (negsuc n) cdf = ground arith
reserve_rate-whole x (other code) = (tt, tt)

sub_back : (x y : ℤ) → y +ℤ (x -ℤ y) ≡ x
sub_back x y = omega int_laws

rounded-whole : (x : ℤ) (c : Currency) → IsWholeℤ (round_money_ℤ x c) c
unfolding round_money_ℤ round_div_ℤ round_div ◌*ℤ◌
rounded-whole (pos n) cdf = ground arith
rounded-whole (negsuc n) cdf = ground arith
rounded-whole x (other code) = (tt, tt)

-- What was recorded of a transfer is a payable amount.
abbrev pub IsWholePayout : Option Payout → Currency → Type 0
IsWholePayout none c = Unit {0}
IsWholePayout (some p) c = IsWholeℤ p.amount c

main-whole :
    (paid_main : Option Payout) (net : ℤ) (c : Currency)
    → IsWholePayout paid_main c
    → IsWholeℤ (main_amount paid_main net c) c
unfolding main_amount
main-whole none net c h = rounded-whole (net -ℤ reserve_rate net c) c
main-whole (some p) net c h = h

parts-sum :
    (paid_main : Option Payout) (net : ℤ) (c : Currency) (due_main due_reserve now : ℕ)
    → IsWholeℤ net c
    → IsWholePayout paid_main c
    → (part_of paid_main (main_amount paid_main net c) due_main now).amount
        +ℤ (part_of none (reserve_amount paid_main net c) due_reserve now).amount
      ≡ net
unfolding part_of reserve_amount main_amount
parts-sum none net c due_main due_reserve now whole h =
    ap (λ (x : ℤ). main_amount none net c +ℤ x)
      (round-whole (net -ℤ main_amount none net c) c
        (sub-whole net (main_amount none net c) c whole (main-whole none net c h)))
    ∙ sub_back net (main_amount none net c)
parts-sum (some p) net c due_main due_reserve now whole h =
    ap (λ (x : ℤ). p.amount +ℤ x)
      (round-whole (net -ℤ p.amount) c (sub-whole net p.amount c whole h))
    ∙ sub_back net p.amount

-- Until the reserve of an event is transferred, its two parts add up to the net sales, refunds after
-- the first transfer included, where a first transfer that was recorded is a payable amount.
pub summary_of-sum :
    (e : Event) (payments : List Payment) (payouts : List Payout) (now : ℕ) (c : Currency)
    → paid_part e.id reserve payouts ≡ none
    → IsWholePayout (paid_part e.id main payouts) c
    → let r = summary_of e payments payouts now c in r.main.amount +ℤ r.reserve.amount ≡ r.net
unfolding summary_of net_of
summary_of-sum e payments payouts now c open_reserve h =
    let g = groups_of e.id c payments in
    rw open_reserve (
      parts-sum (paid_part e.id main payouts) (net_of g c) c _ _ now
        (rounded-whole (pos (net_amounts g.with_net + amounts g.legacy) -ℤ fee_amounts g.refunds) c)
        h)
