-- ===== src/Shop/Quoted.antt =====
-- A quote of the shop, from the rows that it reads.
use ticketing_platform.Shop.Quotes.{HasWholePrices, zero-IsWhole}
use ticketing_platform.Shop.Quote.{
  Line, MerchItem, is_sellable, one_currency, quote, quote_delivery, quote_line, quote_lines,
  quote_total,
}
use ticketing_platform.Shop.{
  Fulfillment, MerchQuote, Variant, delivery, duplicate_variant, mixed_currencies, no_address,
  no_fulfillment, order_keyed, pickup, record_not_found, sold_out, unavailable, variant_keyed,
}
use ticketing_platform.Access.{Event, event_keyed}
use ticketing_platform.Pricing.{Currency, IsWhole, cdf, other, same_currency}
use ticketing_platform.Prelude.Int.{leb_ℤ, pos}
use ticketing_platform.Prelude.{
  >>=-eq-ok, All, Bool, Bool-cases, Keyed, List, Option, [], all_distinct, any, ap, arith, false,
  find, guard, if◌then◌else◌, inl, inr, keep, length, map, none, not, ok, ok-injective, or_throw,
  or_throw-eq-ok, refl, some, subst, sym, true, ℕ, ◌==◌, ◌∷◌, ◌≡◌,
}

pub same_currency-IsWhole :
    (a c : Currency) (price : ℕ) → same_currency a c ≡ true → IsWhole price a → IsWhole price c
unfolding same_currency
same_currency-IsWhole cdf cdf price same h = h
same_currency-IsWhole (other a) (other b) price same h = tt
same_currency-IsWhole cdf (other b) price same h = tt
same_currency-IsWhole (other a) cdf price same h = cc

pub none_other :
    {A : Type 0} (p : A → Bool) (xs : List A)
    → any (λ x. not (p x)) xs ≡ false
    → All (λ x. p x ≡ true) xs
unfolding any
none_other p [] h = tt
none_other p (x ∷ xs) h = (ground (arith, h), none_other p xs (ground (arith, h)))

same_some : {R : Type 0} (x r : R) → some x ≡ some r → x ≡ r
same_some x r h = cc

if_some :
    {R : Type 0} (P : R → Type 0) (b : Bool) (x : R) (rest : Option R) {r : R}
    → (if b then some x else rest) ≡ some r
    → P x
    → (rest ≡ some r → P r)
    → P r
if_some P true x rest h first others = subst P (same_some x _ h) first
if_some P false x rest h first others = others h

pub find-All :
    {R : Type 0} ⦃k : Keyed R⦄ (P : R → Type 0) (i : ℕ) (rs : List R) {r : R}
    → All P rs
    → find i rs ≡ some r
    → P r
unfolding find
find-All P i [] all h = cc
find-All ⦃k⦄ P i (x ∷ rs) all h =
    if_some P (k.key x == i) x (find i rs) h all.0 (find-All P i rs all.1)

pub keep-All :
    {A : Type 0} (P : A → Type 0) (p : A → Bool) (xs : List A) → All P xs → All P (keep p xs)
unfolding keep
keep-All P p [] all = tt
keep-All P p (x ∷ xs) all = elim (Bool-cases (p x)) [
  | inl kept ↦ rw kept (all.0, keep-All P p xs all.1)
  | inr dropped ↦ rw dropped (keep-All P p xs all.1)
]

-- The prices of the products are payable amounts of their currencies.
abbrev pub HasWholeProducts : List Variant → Type 0
HasWholeProducts = All (λ (v : Variant). IsWhole v.product.price v.product.currency)

quote_line-IsWhole :
    (variants : List Variant) (item : MerchItem) {l : Line}
    → HasWholeProducts variants
    → quote_line variants item ≡ ok l
    → IsWhole l.unit_price l.currency
unfolding quote_line
quote_line-IsWhole variants item whole h =
    let (v, hit, h1) = >>=-eq-ok (or_throw (find item.variant_id variants) record_not_found) _ h in
    let (_, _, e) =
      >>=-eq-ok (guard (leb_ℤ (pos item.quantity) v.stock) (sold_out item.variant_id)) _ h1 in
    subst (λ (x : Line). IsWhole x.unit_price x.currency) (ok-injective e)
      (find-All (λ (x : Variant). IsWhole x.product.price x.product.currency) item.variant_id
        variants whole (or_throw-eq-ok (find item.variant_id variants) record_not_found hit))

quote_lines-IsWhole :
    (variants : List Variant) (items : List MerchItem) {lines : List Line}
    → HasWholeProducts variants
    → quote_lines variants items ≡ ok lines
    → All (λ (l : Line). IsWhole l.unit_price l.currency) lines
unfolding quote_lines
quote_lines-IsWhole variants [] whole h = subst (All _) (ok-injective h) tt
quote_lines-IsWhole variants (i ∷ is) whole h =
    let (l, first, h1) = >>=-eq-ok (quote_line variants i) _ h in
    let (ls, rest, e) = >>=-eq-ok (quote_lines variants is) _ h1 in
    subst (All (λ (x : Line). IsWhole x.unit_price x.currency)) (ok-injective e)
      (quote_line-IsWhole variants i whole first, quote_lines-IsWhole variants is whole rest)

in_one_currency :
    (lines : List Line) (c : Currency)
    → All (λ (l : Line). IsWhole l.unit_price l.currency) lines
    → All (λ (l : Line). same_currency l.currency c ≡ true) lines
    → All (λ (l : Line). IsWhole l.unit_price c) lines
in_one_currency [] c whole same = tt
in_one_currency (l ∷ ls) c whole same = (
  same_currency-IsWhole l.currency c l.unit_price same.0 whole.0,
  in_one_currency ls c whole.1 same.1,
)

one_currency-same :
    (lines : List Line) {c : Currency}
    → one_currency lines ≡ ok c
    → All (λ (l : Line). same_currency l.currency c ≡ true) lines
unfolding one_currency
one_currency-same [] h = cc
one_currency-same (l ∷ ls) h =
    let (_, one, e) =
      >>=-eq-ok
        (guard (not (any (λ (x : Line). not (same_currency x.currency l.currency)) (l ∷ ls)))
          mixed_currencies)
        _ h in
    subst (λ c. All (λ (x : Line). same_currency x.currency c ≡ true) (l ∷ ls)) (ok-injective e)
      (none_other (λ (x : Line). same_currency x.currency l.currency) (l ∷ ls)
        (ground (arith, one)))

quote_delivery-IsWhole :
    (f : Fulfillment) (fee : Option ℕ) (has_address : Bool) (c : Currency) {asked : ℕ}
    → ((n : ℕ) → fee ≡ some n → IsWhole n c)
    → quote_delivery f fee has_address ≡ ok asked
    → IsWhole asked c
unfolding quote_delivery
quote_delivery-IsWhole pickup fee has_address c whole h =
    subst (λ n. IsWhole n c) (ok-injective h) (zero-IsWhole c)
quote_delivery-IsWhole delivery none has_address c whole h = cc
quote_delivery-IsWhole delivery (some n) has_address c whole h =
    let (_, _, e) = >>=-eq-ok (guard has_address no_address) _ h in
    subst (λ n. IsWhole n c) (ok-injective e) (whole n refl)

-- The lines of a quote, and its currency and delivery fee.
pub record Quoted (event : Event) (q : MerchQuote) : Type 0 where
  pub fulfillment : Fulfillment
  pub lines : List Line
  pub currency : Currency
  pub fee : ℕ
  pub is_total : q ≡ quote_total fulfillment event.fee_payer currency lines fee
  pub has_whole : HasWholePrices lines fee currency

pub quote-Quoted :
    (event : Event) (variants : List Variant) (items : List MerchItem)
    (fulfillment : Option Fulfillment) (has_address : Bool) {q : MerchQuote}
    → HasWholeProducts variants
    → ((n : ℕ) → event.merch_delivery_fee ≡ some n → IsWhole n q.currency)
    → quote event variants items fulfillment has_address ≡ ok q
    → Quoted event q
unfolding quote quote_total
quote-Quoted event variants items fulfillment has_address {q} whole whole_fee h =
    let ids = map (λ (i : MerchItem). i.variant_id) items in
    let sellable = keep (is_sellable event.id ids) variants in
    let (_, _, h1) = >>=-eq-ok (guard (all_distinct ids) duplicate_variant) _ h in
    let (f, _, h2) = >>=-eq-ok (or_throw fulfillment no_fulfillment) _ h1 in
    let (_, _, h3) = >>=-eq-ok (guard (length sellable == length ids) unavailable) _ h2 in
    let (lines, priced_lines, h4) = >>=-eq-ok (quote_lines sellable items) _ h3 in
    let (currency, one, h5) = >>=-eq-ok (one_currency lines) _ h4 in
    let (fee, asked, e) = >>=-eq-ok (quote_delivery f event.merch_delivery_fee has_address) _ h5 in
    let total = ok-injective e in
    let in_currency : currency ≡ q.currency = ap (λ (x : MerchQuote). x.currency) total in
    record {
      fulfillment = f;
      lines = lines;
      currency = currency;
      fee = fee;
      is_total = sym total;
      has_whole = (
        in_one_currency lines currency
            (quote_lines-IsWhole sellable items
              (keep-All (λ (v : Variant). IsWhole v.product.price v.product.currency)
                (is_sellable event.id ids) variants whole)
              priced_lines)
            (one_currency-same lines one),
        quote_delivery-IsWhole f event.merch_delivery_fee has_address currency
            (λ n is. subst (IsWhole n) (sym in_currency) (whole_fee n is)) asked,
      );
    }
