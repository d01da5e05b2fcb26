-- ===== src/Shop/Units.antt =====
-- The units of a variant: its stock and what the live orders hold.
use ticketing_platform.Prelude.Int.{int_laws, leb_ℤ, pos, ℤ, ◌+ℤ◌, ◌-ℤ◌}
use ticketing_platform.Prelude.{
  ==→eq, >>=-eq-ok, Bool, Bool-cases, List, [], ap, arith, claim, claim-eq-some, false, find,
  find-update, if◌then◌else◌, inl, inr, none, ok, ok-injective, or_throw, or_throw-eq-ok, refl,
  some, sum_by, sym, true, update, ℕ, ◌+◌, ◌==◌, ◌∙◌, ◌∷◌, ◌≡◌,
}
use ticketing_platform.Access.{cancelled, event_keyed}
use ticketing_platform.Shop.{
  MerchOrder, OrderItem, Shop, Variant, cancelled, decrement, increment, order_keyed, put_back,
  record_not_found, refunded, reserve, sold_out, take_again, update_variant, variant_keyed,
}

-- How much of a variant an order asks for.
unfoldable pub ordered : ℕ → List OrderItem → ℕ
unfolding sum_by
ordered v = sum_by (λ i. if i.variant_id == v then i.quantity else 0)

-- A cancelled order holds nothing; a refunded one holds what was handed over.
unfoldable pub holds : MerchOrder → Bool
holds o = elim o.status [
  | cancelled ↦ false
  | refunded ↦ elim o.fulfilled_at [ none ↦ false | some t ↦ true ]
  | _ ↦ true
]

unfoldable pub held_by : ℕ → MerchOrder → ℕ
unfolding holds
held_by v o = if holds o then ordered v o.items else 0

unfoldable pub held : ℕ → List MerchOrder → ℕ
held v = sum_by (held_by v)

unfoldable pub stock_of : ℕ → List Variant → ℤ
stock_of v variants = elim (find v variants) [ none ↦ pos 0 | some r ↦ r.stock ]

unfoldable pub units : ℕ → Shop → ℤ
units v shop = stock_of v shop.variants +ℤ pos (held v shop.orders)

pub +ℤ_zero : (a : ℤ) → a +ℤ pos 0 ≡ a
+ℤ_zero a = omega int_laws

-ℤ_cancel : (a b : ℤ) → a -ℤ b +ℤ b ≡ a
-ℤ_cancel a b = omega int_laws

stock_of-increment :
    (v i q : ℕ) (variants : List Variant) {r : Variant}
    → find i variants ≡ some r
    → stock_of v (update i (increment q) variants)
      ≡ stock_of v variants +ℤ pos (if i == v then q else 0)
unfolding stock_of
stock_of-increment v i q variants e = elim (Bool-cases (i == v)) [
  | inl same ↦ ground (arith, find-update i v (increment q) variants (λ x. refl), ==→eq i v same)
  | inr other_one ↦
      ground
        (arith, find-update i v (increment q) variants (λ x. refl), +ℤ_zero (stock_of v variants))
]

stock_of-decrement :
    (v i q : ℕ) (variants : List Variant) {r : Variant}
    → find i variants ≡ some r
    → stock_of v (update i (decrement q) variants) +ℤ pos (if i == v then q else 0)
      ≡ stock_of v variants
unfolding stock_of
stock_of-decrement v i q variants {r} e = elim (Bool-cases (i == v)) [
  | inl same ↦ ground (
    arith,
    find-update i v (decrement q) variants (λ x. refl),
    ==→eq i v same,
    -ℤ_cancel r.stock (pos q),
  )
  | inr other_one ↦
      ground
        (arith, find-update i v (decrement q) variants (λ x. refl), +ℤ_zero (stock_of v variants))
]

+ℤ_split : (x : ℤ) (a b : ℕ) → x +ℤ pos a +ℤ pos b ≡ x +ℤ pos (a + b)
+ℤ_split x a b = omega int_laws

+ℤ_split_left : (x : ℤ) (a b : ℕ) → x +ℤ pos (a + b) ≡ x +ℤ pos b +ℤ pos a
+ℤ_split_left x a b = omega int_laws

update_variant-ok :
    (i : ℕ) (f : Variant → Variant) (variants : List Variant) {after : List Variant}
    → update_variant i f variants ≡ ok after
    → (r : Variant) × (find i variants ≡ some r) × (after ≡ update i f variants)
unfolding update_variant
update_variant-ok i f variants h =
    let (r, found, e) =
      >>=-eq-ok (or_throw (find i variants) record_not_found) (λ _. ok (update i f variants)) h in
    (r, or_throw-eq-ok (find i variants) record_not_found found, sym (ok-injective e))

-- Putting items back raises the stock of a variant by what they hold of it.
pub put_back-stock :
    (v : ℕ) (items : List OrderItem) (variants : List Variant) {after : List Variant}
    → put_back items variants ≡ ok after
    → stock_of v after ≡ stock_of v variants +ℤ pos (ordered v items)
unfolding put_back ordered
put_back-stock v [] variants h = ground (arith, +ℤ_zero (stock_of v variants))
put_back-stock v (i ∷ is) variants {after} h =
    let (mid, first, rest) =
      >>=-eq-ok (update_variant i.variant_id (increment i.quantity) variants) (put_back is) h in
    let (r, found, e) = update_variant-ok i.variant_id (increment i.quantity) variants first in
    put_back-stock v is mid rest
    ∙ ap (λ x. x +ℤ pos (ordered v is))
        (ap (stock_of v) e ∙ stock_of-increment v i.variant_id i.quantity variants found)
    ∙ +ℤ_split (stock_of v variants) _ (ordered v is)

-- One line that is taken, and then the rest of them.
taken :
    (v : ℕ) (i : OrderItem) (is : List OrderItem) (variants mid after : List Variant) {r : Variant}
    → find i.variant_id variants ≡ some r
    → mid ≡ update i.variant_id (decrement i.quantity) variants
    → stock_of v after +ℤ pos (ordered v is) ≡ stock_of v mid
    → stock_of v after +ℤ pos (ordered v (i ∷ is)) ≡ stock_of v variants
unfolding ordered
taken v i is variants mid after found e ih =
    +ℤ_split_left (stock_of v after) _ (ordered v is)
    ∙ ap (λ x. x +ℤ pos (if i.variant_id == v then i.quantity else 0)) (ih ∙ ap (stock_of v) e)
    ∙ stock_of-decrement v i.variant_id i.quantity variants found

-- Taking items again lowers the stock of a variant by what they hold of it.
pub take_again-stock :
    (v : ℕ) (items : List OrderItem) (variants : List Variant) {after : List Variant}
    → take_again items variants ≡ ok after
    → stock_of v after +ℤ pos (ordered v items) ≡ stock_of v variants
unfolding take_again
take_again-stock v [] variants {after} h =
    unfold ordered in (+ℤ_zero (stock_of v after) ∙ ap (stock_of v) (sym (ok-injective h)))
take_again-stock v (i ∷ is) variants {after} h =
    let (mid, first, rest) =
      >>=-eq-ok (update_variant i.variant_id (decrement i.quantity) variants) (take_again is) h in
    let (r, found, e) = update_variant-ok i.variant_id (decrement i.quantity) variants first in
    taken v i is variants mid after found e (take_again-stock v is mid rest)

-- So does a reservation.
pub reserve-stock :
    (v : ℕ) (items : List OrderItem) (variants : List Variant) {after : List Variant}
    → reserve items variants ≡ ok after
    → stock_of v after +ℤ pos (ordered v items) ≡ stock_of v variants
unfolding reserve
reserve-stock v [] variants {after} h =
    unfold ordered in (+ℤ_zero (stock_of v after) ∙ ap (stock_of v) (sym (ok-injective h)))
reserve-stock v (i ∷ is) variants {after} h =
    let enough = λ (x : Variant). leb_ℤ (pos i.quantity) x.stock in
    let claimed = claim i.variant_id enough (decrement i.quantity) variants in
    let (mid, first, rest) = >>=-eq-ok (or_throw claimed (sold_out i.variant_id)) (reserve is) h in
    let (r, found, fits, e) =
      claim-eq-some i.variant_id enough (decrement i.quantity) variants
        (or_throw-eq-ok claimed (sold_out i.variant_id) first) in
    taken v i is variants mid after found e (reserve-stock v is mid rest)
