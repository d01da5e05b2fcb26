-- ===== src/Payments/Rows.antt =====
-- The prices of the lines of an order, from the tariffs that it reads.
use ticketing_platform.Payments.Checkout.{
  check_item, check_items, is_sold_by, read_items, shared_currency, sold_item, template_ids,
}
use ticketing_platform.Payments.{
  TicketItem, category_not_found, duplicate_category, mixed_currencies, not_enough_seats,
  payment_keyed, refund_keyed,
}
use ticketing_platform.Shop.Quoted.{find-All, keep-All, none_other, same_currency-IsWhole}
use ticketing_platform.Shop.Quotes.{add-IsWhole, zero-IsWhole}
use ticketing_platform.Shop.{order_keyed, variant_keyed}
use ticketing_platform.Tickets.{Template, template_keyed, ticket_keyed}
use ticketing_platform.Access.{event_keyed}
use ticketing_platform.Pricing.Split.{mul-IsWhole}
use ticketing_platform.Pricing.{Currency, IsWhole, cdf, listed_total, other, same_currency}
use ticketing_platform.Prelude.{
  ==_refl, >>=-eq-ok, All, List, [], all_distinct, any, arith, find, guard, keep, leb, length, map,
  not, ok, ok-injective, or_throw, or_throw-eq-ok, refl, subst, sum_by, true, ℕ, ◌*◌, ◌==◌, ◌∷◌,
  ◌≡◌,
}

-- The prices of the tariffs are payable amounts of their currencies.
abbrev pub HasWholeTariffs : List Template → Type 0
HasWholeTariffs = All (λ (t : Template). IsWhole t.price t.currency)

check_item-IsWhole :
    (templates : List Template) (item : TicketItem) {t : Template}
    → HasWholeTariffs templates
    → check_item templates item ≡ ok t
    → IsWhole t.price t.currency
unfolding check_item
check_item-IsWhole templates item whole h =
    let (t, hit, h1) =
      >>=-eq-ok (or_throw (find item.template_id templates) category_not_found) _ h in
    let (_, _, e) =
      >>=-eq-ok (guard (leb item.quantity t.available_count) (not_enough_seats t.available_count)) _
        h1 in
    subst (λ (x : Template). IsWhole x.price x.currency) (ok-injective e)
      (find-All (λ (x : Template). IsWhole x.price x.currency) item.template_id templates whole
        (or_throw-eq-ok (find item.template_id templates) category_not_found hit))

-- The prices of the lines of an order.
abbrev pub HasWholeLines : List (Template × ℕ) → Type 0
HasWholeLines = All (λ (l : Template × ℕ). IsWhole l.0.price l.0.currency)

check_items-IsWhole :
    (templates : List Template) (items : List TicketItem) {lines : List (Template × ℕ)}
    → HasWholeTariffs templates
    → check_items templates items ≡ ok lines
    → HasWholeLines lines
unfolding check_items
check_items-IsWhole templates [] whole h = subst HasWholeLines (ok-injective h) tt
check_items-IsWhole templates (item ∷ items) whole h =
    let (t, first, h1) = >>=-eq-ok (check_item templates item) _ h in
    let (rest, others, e) = >>=-eq-ok (check_items templates items) _ h1 in
    subst HasWholeLines (ok-injective e) (
      check_item-IsWhole templates item whole first,
      check_items-IsWhole templates items whole others,
    )

pub read_items-IsWhole :
    (all : List Template) (event_id : ℕ) (items : List TicketItem) {lines : List (Template × ℕ)}
    → HasWholeTariffs all
    → read_items all event_id items ≡ ok lines
    → HasWholeLines lines
unfolding read_items
read_items-IsWhole all event_id items whole h =
    let templates = keep (is_sold_by event_id (template_ids items)) all in
    let (_, _, h1) = >>=-eq-ok (guard (all_distinct (template_ids items)) duplicate_category) _ h in
    let (_, _, h2) =
      >>=-eq-ok (guard (length templates == length (template_ids items)) category_not_found) _ h1 in
    check_items-IsWhole templates items
      (keep-All (λ (x : Template). IsWhole x.price x.currency)
        (is_sold_by event_id (template_ids items)) all whole)
      h2

times-IsWhole : (price n : ℕ) (c : Currency) → IsWhole price c → IsWhole (price * n) c
times-IsWhole price n cdf h = mul-IsWhole price n h
times-IsWhole price n (other code) h = tt

same_currency_refl : (c : Currency) → same_currency c c ≡ true
unfolding same_currency
same_currency_refl cdf = refl
same_currency_refl (other code) = ==_refl code

pub listed_total-IsWhole :
    (lines : List (Template × ℕ)) (c : Currency)
    → HasWholeLines lines
    → All
        (λ (x : Currency). same_currency x c ≡ true)
        (map (λ (l : Template × ℕ). l.0.currency) lines)
    → IsWhole (listed_total (map sold_item lines)) c
unfolding listed_total sum_by
listed_total-IsWhole [] c whole same = zero-IsWhole c
listed_total-IsWhole ((t, quantity) ∷ ls) c whole same =
    add-IsWhole _ _ c
      (times-IsWhole t.price quantity c (same_currency-IsWhole t.currency c t.price same.0 whole.0))
      (listed_total-IsWhole ls c whole.1 same.1)

pub shared_currency-same :
    (cs : List Currency) {c : Currency}
    → shared_currency cs ≡ ok c
    → All (λ (x : Currency). same_currency x c ≡ true) cs
unfolding shared_currency
shared_currency-same [] h = cc
shared_currency-same (a ∷ cs) h =
    let (_, one, e) =
      >>=-eq-ok (guard (not (any (λ (x : Currency). not (same_currency x a)) cs)) mixed_currencies)
        _ h in
    subst (λ c. All (λ (x : Currency). same_currency x c ≡ true) (a ∷ cs)) (ok-injective e)
      (
        same_currency_refl a,
        none_other (λ (x : Currency). same_currency x a) cs (ground (arith, one)),
      )
