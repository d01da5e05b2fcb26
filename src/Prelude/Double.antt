-- ===== src/Prelude/Double.antt =====
-- Products of JavaScript's numbers (IEEE doubles) that are not whole. A number is kept as a count of
-- 2 ^ -58, in which the factors of this program are whole: a product is exact first and rounded after.
use ticketing_platform.Prelude.{
  ap, arith, if◌then◌else◌, inl, inr, ltb, refl, suc, zero, ℕ, ◌%◌, ◌&&◌, ◌*◌, ◌+◌, ◌/◌, ◌<◌, ◌==◌,
  ◌||◌, ◌∙◌, ◌≡◌, ◌≤◌, ◌⊎◌,
}

-- The last of 53 binary digits of a number: the rounds are as many as it has digits beyond 53, here 64
-- at most, for numbers below 2 ^ 117.
unfoldable pub last_place : ℕ → ℕ → ℕ
last_place zero m = 1
last_place (suc rounds) m =
    let half = last_place rounds (m / 2) in if ltb m 9007199254740992 then 1 else 2 * half

-- To the nearest multiple of u, and to the even one of two.
unfoldable pub round_to : ℕ → ℕ → ℕ
round_to u m =
    let below = m / u in
    let rest = m % u in
    if ltb (2 * rest) u || (2 * rest == u && below % 2 == 0) then u * below else u * below + u

unfoldable pub round_double : ℕ → ℕ
round_double m = round_to (last_place 64 m) m

-- Math.ceil(quantity * price * 100), of a price in 2 ^ -58.
unfoldable pub ceil_cents : ℕ → ℕ → ℕ
ceil_cents quantity price =
    (round_double (round_double (quantity * price) * 100) + 288230376151711743) / 288230376151711744

last_place-one_or_small :
    (rounds m : ℕ)
    → (0 < last_place rounds m)
      × ((last_place rounds m ≡ 1) ⊎ (last_place rounds m * 4503599627370496 ≤ m))
unfolding last_place
last_place-one_or_small zero m = (omega arith, inl refl)
last_place-one_or_small (suc rounds) m = ground (arith, last_place-one_or_small rounds (m / 2))

round_to_one : (m : ℕ) → round_to 1 m ≡ m
unfolding round_to
round_to_one m = ground arith

round_to-near : (u m : ℕ) → 0 < u → (round_to u m ≤ m + u) × (m ≤ round_to u m + u)
unfolding round_to
round_to-near u m h = ground (arith, h)

round_to-close :
    (u m : ℕ)
    → 0 < u
    → (u ≡ 1) ⊎ (u * 4503599627370496 ≤ m)
    → (round_to u m * 4503599627370496 ≤ m * 4503599627370497)
      × (m * 4503599627370495 ≤ round_to u m * 4503599627370496)
round_to-close u m h (inl e) =
    let exact = ap (λ k. round_to k m) e ∙ round_to_one m in
    (omega (arith, exact), omega (arith, exact))
round_to-close u m h (inr small) =
    let (above, below) = round_to-near u m h in
    (omega (arith, above, small), omega (arith, below, small))

-- A rounding is off by at most 2 ^ -52 of the number.
pub round_double-close :
    (m : ℕ)
    → (round_double m * 4503599627370496 ≤ m * 4503599627370497)
      × (m * 4503599627370495 ≤ round_double m * 4503599627370496)
unfolding round_double
round_double-close m =
    let (positive, size) = last_place-one_or_small 64 m in
    round_to-close (last_place 64 m) m positive size

-- The amount of a quantity is the exact product, or a cent more: `exact` is the product in cents,
-- and the price is at most 320 * 2 ^ -58 of a cent above its cents.
pub ceil_cents-close :
    (quantity exact price : ℕ)
    → quantity ≤ 1000000000000
    → exact ≤ 100 * quantity
    → exact * 288230376151711744 ≤ 100 * (quantity * price)
    → 100 * (quantity * price) ≤ exact * 288230376151711744 + 320 * quantity
    → (exact ≤ ceil_cents quantity price) × (ceil_cents quantity price ≤ exact + 1)
unfolding ceil_cents
ceil_cents-close quantity exact price few cheap low high =
    let first = round_double-close (quantity * price) in
    let second = round_double-close (round_double (quantity * price) * 100) in
    (
      omega (arith, first.0, first.1, second.0, second.1, few, cheap, low, high),
      omega (arith, first.0, first.1, second.0, second.1, few, cheap, low, high),
    )

-- 2 ^ (53 + rounds).
pub top : ℕ → ℕ
top zero = 9007199254740992
top (suc rounds) = 2 * top rounds

-- The rounds are enough: what is kept of the number has at most 53 binary digits.
pub last_place-enough : (rounds m : ℕ) → m < top rounds → m < last_place rounds m * 9007199254740992
unfolding last_place top
last_place-enough zero m h = omega (arith, h)
last_place-enough (suc rounds) m h =
    ground (arith, h, last_place-enough rounds (m / 2) (omega (arith, h)))
