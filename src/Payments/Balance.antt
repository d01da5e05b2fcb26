-- ===== src/Payments/Balance.antt =====
-- The amount of an order that initiatePayment has checked, from the rows that it reads.
use ticketing_platform.Payments.Rows.{
  HasWholeTariffs, listed_total-IsWhole, read_items-IsWhole, shared_currency-same,
}
use ticketing_platform.Payments.Phone.{normalize_drc_phone}
use ticketing_platform.Prelude.Int.{pos, ◌+ℤ◌}
use ticketing_platform.Payments.Amounts.{IsBalanced, price_order-conserves, split-IsWhole}
use ticketing_platform.Payments.Checkout.{
  Basket, Priced, check_event, check_order, is_empty, lift_quote, price_order, quote_currency,
  quote_merch, read_items, shared_currency,
}
use ticketing_platform.Payments.{Sales, bad_mail_domain, bad_phone, empty_order}
use ticketing_platform.Shop.Quoted.{HasWholeProducts, Quoted, quote-Quoted}
use ticketing_platform.Shop.Quotes.{listed-IsWhole, quote_total-conserves}
use ticketing_platform.Shop.Quote.{priced, quote, quote_total}
use ticketing_platform.Shop.{MerchQuote, ShopError, Variant}
use ticketing_platform.Tickets.{Template}
use ticketing_platform.Access.{Event}
use ticketing_platform.Pricing.Split.{round_money-IsWhole}
use ticketing_platform.Pricing.{Currency, IsWhole, cdf, other, same_currency}
use ticketing_platform.Prelude.{
  ==→eq, >>=-eq-ok, All, Bool, Bool-cases, List, Option, Result, [], ap, arith, err, guard,
  if◌then◌else◌, inl, inr, length, map, none, not, ok, ok-injective, or_throw, refl, some, subst,
  sym, true, ℕ, ◌++◌, ◌==◌, ◌∙◌, ◌∷◌, ◌≡◌,
}

Quoted-IsBalanced :
    (event : Event) (q : MerchQuote) → Quoted event q → IsBalanced (some q) q.currency
unfolding quote_total
Quoted-IsBalanced event q from =
    subst (λ (x : MerchQuote). IsBalanced (some x) x.currency) (sym from.is_total)
      (
        round_money-IsWhole _ from.currency,
        (split-IsWhole (priced from.lines from.fee) event.fee_payer from.currency
            (listed-IsWhole from.currency from.lines from.fee from.has_whole)).1,
        quote_total-conserves from.fulfillment event.fee_payer from.currency from.lines from.fee
            from.has_whole,
      )

same_currency_eq : (a c : Currency) → same_currency a c ≡ true → a ≡ c
unfolding same_currency
same_currency_eq cdf cdf h = refl
same_currency_eq (other a) (other b) h = ap other (==→eq a b h)
same_currency_eq cdf (other b) h = cc
same_currency_eq (other a) cdf h = cc

append-All : {A : Type 0} (P : A → Type 0) (xs ys : List A) → All P (xs ++ ys) → All P xs × All P ys
append-All P [] ys all = (tt, all)
append-All P (x ∷ xs) ys all =
    let (first, second) = append-All P xs ys all.1 in ((all.0, first), second)

lift_quote-some :
    (r : Result ShopError MerchQuote) {q : MerchQuote} → lift_quote r ≡ ok (some q) → r ≡ ok q
unfolding lift_quote
lift_quote-some (ok q) h = cc
lift_quote-some (err e) h = cc

merch_quoted :
    (event : Event) (b : Basket) (variants : List Variant) {q : MerchQuote}
    → quote_merch event b variants ≡ ok (some q)
    → quote event variants b.merch b.fulfillment b.has_address ≡ ok q
unfolding quote_merch
merch_quoted event b variants h = elim (Bool-cases (length b.merch == 0)) [
  | inl nothing ↦ ground (arith, nothing, h)
  | inr something ↦ lift_quote-some _ (
      sym (
        ap
          (λ t.
            if t
            then ok none
            else lift_quote (quote event variants b.merch b.fulfillment b.has_address))
          something)
      ∙ h)
]

quote_merch-IsBalanced :
    (event : Event) (b : Basket) (variants : List Variant) (merch : Option MerchQuote)
    (c : Currency)
    → HasWholeProducts variants
    → ((n : ℕ) → event.merch_delivery_fee ≡ some n → IsWhole n c)
    → All (λ (x : Currency). same_currency x c ≡ true) (quote_currency merch)
    → quote_merch event b variants ≡ ok merch
    → IsBalanced merch c
quote_merch-IsBalanced event b variants none c whole whole_fee same h = tt
quote_merch-IsBalanced event b variants (some q) c whole whole_fee same h =
    let is_c = same_currency_eq q.currency c same.0 in
    subst (IsBalanced (some q)) is_c (
      Quoted-IsBalanced event q (
        quote-Quoted event variants b.merch b.fulfillment b.has_address whole
          (λ n is. subst (IsWhole n) (sym is_c) (whole_fee n is))
          (merch_quoted event b variants h)))

-- The prices of the tariffs and the products are payable amounts of their currencies, and the delivery
-- fee of the event one of a currency.
pub record HasWholeRows (s : Sales) (event : Event) (c : Currency) : Type 0 where
  pub tariffs : HasWholeTariffs s.ticketing.templates
  pub products : HasWholeProducts s.shop.variants
  pub delivery : (n : ℕ) → event.merch_delivery_fee ≡ some n → IsWhole n c

rows_of :
    (s : Sales) (event : Event) (phone : List ℕ) (lines : List (Template × ℕ))
    (merch : Option MerchQuote) (c : Currency) {o : Priced}
    → price_order event phone lines merch c ≡ o
    → HasWholeRows s o.event o.currency
    → HasWholeRows s event c
unfolding price_order
rows_of s event phone lines merch c e whole =
    subst (λ (x : Priced). HasWholeRows s x.event x.currency) (sym e) whole

-- Where the prices of the tariffs and the products are payable amounts of their currencies, and the
-- event's delivery fee one of the order's, the amount of an order that passes the checks of
-- initiatePayment is its fee and what the organizer gets, tickets and shop items together.
pub check_order-conserves :
    (accepts_mail : ℕ → Bool) (event_id : ℕ) (b : Basket) (s : Sales) {o : Priced}
    → check_order accepts_mail event_id b s ≡ ok o
    → HasWholeRows s o.event o.currency
    → pos o.total ≡ o.fee +ℤ pos o.net
unfolding check_order
check_order-conserves accepts_mail event_id b s {o} h whole =
    let (event, _, h1) = >>=-eq-ok (check_event s.ticketing.events event_id) _ h in
    let (_, _, h2) = >>=-eq-ok (guard (not (is_empty b)) empty_order) _ h1 in
    let (phone, _, h3) = >>=-eq-ok (or_throw (normalize_drc_phone b.phone) bad_phone) _ h2 in
    let (_, _, h4) = >>=-eq-ok (guard (accepts_mail b.email) bad_mail_domain) _ h3 in
    let (lines, read, h5) = >>=-eq-ok (read_items s.ticketing.templates event_id b.items) _ h4 in
    let (merch, quoted, h6) = >>=-eq-ok (quote_merch event b s.shop.variants) _ h5 in
    let (c, shared, e) =
      >>=-eq-ok
        (shared_currency (map (λ (l : Template × ℕ). l.0.currency) lines ++ quote_currency merch)) _
        h6 in
    let rows = rows_of s event phone lines merch c (ok-injective e) whole in
    let (same_lines, same_merch) =
      append-All (λ (x : Currency). same_currency x c ≡ true)
        (map (λ (l : Template × ℕ). l.0.currency) lines) (quote_currency merch)
        (shared_currency-same _ shared) in
    subst (λ (x : Priced). pos x.total ≡ x.fee +ℤ pos x.net) (ok-injective e)
      (price_order-conserves event phone lines merch c
        (listed_total-IsWhole lines c
          (read_items-IsWhole s.ticketing.templates event_id b.items rows.tariffs read) same_lines)
        (quote_merch-IsBalanced event b s.shop.variants merch c rows.products rows.delivery
          same_merch quoted))
