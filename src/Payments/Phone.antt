-- ===== src/Payments/Phone.antt =====
-- backend/src/common/phone.ts: the numbers of the Democratic Republic of the Congo, as texts of
-- character codes. `null` and `undefined` are the empty text.
use ticketing_platform.Prelude.{
  Bool, List, Option, [], false, if◌then◌else◌, keep, leb, length, none, some, suc, take, true,
  zero, ℕ, ◌&&◌, ◌++◌, ◌==◌, ◌||◌, ◌∷◌,
}

-- \d
unfoldable pub is_digit : ℕ → Bool
is_digit c = leb 48 c && leb c 57

-- raw.replace(/\D/g, '')
unfoldable pub digits_of : List ℕ → List ℕ
digits_of = keep is_digit

-- '00243' and '243'
abbrev pub long_prefix : List ℕ
long_prefix = 48 ∷ 48 ∷ 50 ∷ 52 ∷ 51 ∷ []

abbrev pub short_prefix : List ℕ
short_prefix = 50 ∷ 52 ∷ 51 ∷ []

-- d.slice(p.length) if d.startsWith(p)
unfoldable pub after_prefix : List ℕ → List ℕ → Option (List ℕ)
after_prefix [] d = some d
after_prefix (c ∷ cs) [] = none
after_prefix (c ∷ cs) (x ∷ xs) = let rest = after_prefix cs xs in if x == c then rest else none

-- What follows the code of the country.
unfoldable pub national : List ℕ → List ℕ
national d = elim (after_prefix long_prefix d) [
  | some rest ↦ rest
  | none ↦ elim (after_prefix short_prefix d) [ some rest ↦ rest | none ↦ d ]
]

unfoldable pub starts_with_zero : List ℕ → Bool
starts_with_zero [] = false
starts_with_zero (c ∷ cs) = c == 48

-- d.slice(1)
unfoldable pub without_first : List ℕ → List ℕ
without_first [] = []
without_first (c ∷ cs) = cs

unfoldable pub without_zero : List ℕ → List ℕ
without_zero d = if length d == 10 && starts_with_zero d then without_first d else d

unfoldable pub is_subscriber_start : List ℕ → Bool
is_subscriber_start [] = false
is_subscriber_start (c ∷ cs) = c == 56 || c == 57

unfoldable pub all_digits : List ℕ → Bool
all_digits [] = true
all_digits (c ∷ cs) = is_digit c && all_digits cs

-- /^[89]\d{8}$/
unfoldable pub is_subscriber : List ℕ → Bool
is_subscriber d = is_subscriber_start d && length d == 9 && all_digits d

-- normalizeDrcPhone
unfoldable pub normalize_drc_phone : List ℕ → Option (List ℕ)
normalize_drc_phone raw =
    let d = without_zero (national (digits_of raw)) in
    if is_subscriber d then some (short_prefix ++ d) else none

abbrev pub space : ℕ
space = 32

abbrev pub plus : ℕ
plus = 43

unfoldable pub drop : ℕ → List ℕ → List ℕ
drop zero d = d
drop (suc n) [] = []
drop (suc n) (c ∷ cs) = drop n cs

-- `${a} ${b} ${c}`
unfoldable pub with_spaces : List ℕ → List ℕ → List ℕ → List ℕ
with_spaces a b c = a ++ space ∷ (b ++ space ∷ c)

-- `+243 ${m[1]} ${m[2]} ${m[3]}`
unfoldable pub spaced : List ℕ → List ℕ
spaced d = plus ∷ short_prefix ++ space ∷ with_spaces (take 2 d) (take 3 (drop 2 d)) (drop 5 d)

-- formatDrcPhone
unfoldable pub format_drc_phone : List ℕ → List ℕ
format_drc_phone stored = elim (after_prefix short_prefix stored) [
  | none ↦ stored
  | some d ↦ if length d == 9 && all_digits d then spaced d else stored
]
