-- ===== src/Payments/Numbers.antt =====
-- The two spellings of a phone number.
use ticketing_platform.Payments.Phone.{
  after_prefix, all_digits, digits_of, drop, format_drc_phone, is_digit, is_subscriber, national,
  normalize_drc_phone, short_prefix, space, spaced, with_spaces, without_zero,
}
use ticketing_platform.Prelude.{
  Bool-cases, List, [], ap, arith, inl, inr, keep, length, refl, some, suc, sym, take, true, zero,
  ℕ, ◌++◌, ◌∙◌, ◌∷◌, ◌≡◌,
}

digits_of_digits : (d : List ℕ) → all_digits d ≡ true → digits_of d ≡ d
unfolding all_digits digits_of keep
digits_of_digits [] h = refl
digits_of_digits (c ∷ cs) h = ground (arith, digits_of_digits cs)

digits_of-append : (a b : List ℕ) → digits_of (a ++ b) ≡ digits_of a ++ digits_of b
unfolding digits_of keep
digits_of-append [] b = refl
digits_of-append (c ∷ cs) b = ground (arith, digits_of-append cs b)

take_digits : (n : ℕ) (d : List ℕ) → all_digits d ≡ true → all_digits (take n d) ≡ true
unfolding all_digits
take_digits zero d h = refl
take_digits (suc n) [] h = refl
take_digits (suc n) (c ∷ cs) h = ground (arith, take_digits n cs)

drop_digits : (n : ℕ) (d : List ℕ) → all_digits d ≡ true → all_digits (drop n d) ≡ true
unfolding all_digits drop
drop_digits zero d h = h
drop_digits (suc n) [] h = refl
drop_digits (suc n) (c ∷ cs) h = ground (arith, drop_digits n cs)

take-drop : (n : ℕ) (d : List ℕ) → take n d ++ drop n d ≡ d
unfolding drop
take-drop zero d = refl
take-drop (suc n) [] = refl
take-drop (suc n) (c ∷ cs) = ap (λ x. c ∷ x) (take-drop n cs)

drop-drop : (d : List ℕ) → drop 3 (drop 2 d) ≡ drop 5 d
unfolding drop
drop-drop [] = refl
drop-drop (a ∷ []) = refl
drop-drop (a ∷ b ∷ cs) = refl

parts : (d : List ℕ) → take 2 d ++ (take 3 (drop 2 d) ++ drop 5 d) ≡ d
parts d =
    ap (λ x. take 2 d ++ (take 3 (drop 2 d) ++ x)) (sym (drop-drop d))
    ∙ ap (λ x. take 2 d ++ x) (take-drop 3 (drop 2 d))
    ∙ take-drop 2 d

-- The nine digits of a subscriber: 8 or 9, and eight more.
abbrev IsSubscriber : List ℕ → Type 0
IsSubscriber d = (is_subscriber d ≡ true) × (length d ≡ 9) × (all_digits d ≡ true)

IsSubscriber-parts : (d : List ℕ) → is_subscriber d ≡ true → IsSubscriber d
unfolding is_subscriber
IsSubscriber-parts d h = ground arith

normalize-prefixed :
    (text d : List ℕ)
    → IsSubscriber d
    → digits_of text ≡ short_prefix ++ d
    → normalize_drc_phone text ≡ some (short_prefix ++ d)
unfolding normalize_drc_phone national after_prefix without_zero
normalize-prefixed text d h e = rw e (ground (arith, h.0, h.1))

normalize-form :
    (text : List ℕ) {n : List ℕ}
    → normalize_drc_phone text ≡ some n
    → (d : List ℕ) × IsSubscriber d × (n ≡ short_prefix ++ d)
unfolding normalize_drc_phone
normalize-form text {n} h =
    let d = without_zero (national (digits_of text)) in
    elim (Bool-cases (is_subscriber d)) [
      | inl one ↦ (d, IsSubscriber-parts d one, ground arith)
      | inr refused ↦ ground arith
    ]

-- Three parts with a space between each two.
spaced_parts :
    (a b c : List ℕ)
    → all_digits a ≡ true
    → all_digits b ≡ true
    → all_digits c ≡ true
    → digits_of (with_spaces a b c) ≡ a ++ (b ++ c)
unfolding with_spaces digits_of keep is_digit
spaced_parts a b c ha hb hc =
    digits_of-append a (space ∷ (b ++ space ∷ c))
    ∙ ap (λ x. x ++ digits_of (b ++ (space ∷ c))) (digits_of_digits a ha)
    ∙ ap (λ x. a ++ x)
        (digits_of-append b (space ∷ c)
          ∙ ap (λ x. x ++ digits_of c) (digits_of_digits b hb)
          ∙ ap (λ x. b ++ x) (digits_of_digits c hc))

spaced-digits : (d : List ℕ) → all_digits d ≡ true → digits_of (spaced d) ≡ short_prefix ++ d
unfolding spaced digits_of keep is_digit
spaced-digits d h =
    ap (λ x. short_prefix ++ x)
      (spaced_parts (take 2 d) (take 3 (drop 2 d)) (drop 5 d) (take_digits 2 d h)
          (take_digits 3 (drop 2 d) (drop_digits 2 d h)) (drop_digits 5 d h)
        ∙ parts d)

format-spaced : (d : List ℕ) → IsSubscriber d → format_drc_phone (short_prefix ++ d) ≡ spaced d
unfolding format_drc_phone after_prefix
format-spaced d h = ground (arith, h.1)

-- A phone number that is accepted is stored in a form that is accepted again and is its own stored
-- form; so is the form in which it is shown.
pub normalize_drc_phone-format :
    (text : List ℕ) {n : List ℕ}
    → normalize_drc_phone text ≡ some n
    → (normalize_drc_phone n ≡ some n) × (normalize_drc_phone (format_drc_phone n) ≡ some n)
unfolding digits_of keep is_digit
normalize_drc_phone-format text h =
    let (d, is_one, e) = normalize-form text h in
    rw e (
      normalize-prefixed (short_prefix ++ d) d is_one
          (ap (λ x. short_prefix ++ x) (digits_of_digits d is_one.2)),
      rw (format-spaced d is_one)
          (normalize-prefixed (spaced d) d is_one (spaced-digits d is_one.2)),
    )
