-- ===== src/PrintQuota/Laws.antt =====
-- What a quote, a batch and a refund do to the credits of an organizer.
use ticketing_platform.Prelude.Double.{ceil_cents, ceil_cents-close}
use ticketing_platform.PrintQuota.{
  Account, Plan, PrintKind, PrintQuote, account_keyed, add_credits, badges, consume_print,
  consume_quote, credits, credits_of, limit_of, new_account, payment_required, quote_from,
  quote_print, refund_credits, set_credits, take_credits, tickets, unit_price,
}
use ticketing_platform.Prelude.{
  ==_refl, ==→eq, Bool-cases, List, Option-cases, Result-cases, [], arith, claim, claim-eq-some,
  false, find, find-append_new, find-update, if◌then◌else◌, inl, inr, leb, ltb, none, ok,
  or_throw-eq-ok, refl, some, update, ℕ, ◌*◌, ◌++◌, ◌+◌, ◌-◌, ◌<◌, ◌==◌, ◌∷◌, ◌≡◌, ◌≤◌,
}

-- The prices that are meant, in cents.
abbrev pub unit_cents : PrintKind → ℕ
unit_cents tickets = 2
unit_cents badges = 20

amount-close :
    (kind : PrintKind) (quantity : ℕ)
    → quantity ≤ 1000000000000
    → (quantity * unit_cents kind ≤ ceil_cents quantity (unit_price kind))
      × (ceil_cents quantity (unit_price kind) ≤ quantity * unit_cents kind + 1)
unfolding unit_price
amount-close tickets quantity few =
    ceil_cents-close quantity (quantity * 2) 5764607523034235 few (omega arith) (omega arith)
      (omega arith)
amount-close badges quantity few =
    ceil_cents-close quantity (quantity * 20) 57646075230342352 few (omega arith) (omega arith)
      (omega arith)

-- A quote of at most 10 ^ 12 prints covers them by the quota, the credits and what is to be paid;
-- credits are used only once the quota is used up, and a payment is asked only once the credits are.
-- The amount, as JavaScript's numbers give it, is that of the missing prints at two cents a ticket or
-- twenty a badge, or a cent more.
pub quote_from-covers :
    (kind : PrintKind) (limit used credits count : ℕ)
    → count ≤ 1000000000000
    → let q = quote_from kind (some limit) used credits count in
      (q.from_quota + q.from_credits + q.missing ≡ count)
      × (q.from_quota ≤ limit - used)
      × (q.from_credits ≤ credits)
      × (0 < q.from_credits + q.missing → q.from_quota ≡ limit - used)
      × (0 < q.missing → q.from_credits ≡ credits)
      × (q.missing * unit_cents kind ≤ q.amount)
      × (q.amount ≤ q.missing * unit_cents kind + 1)
unfolding quote_from
quote_from-covers kind limit used credits count few =
    let (at_least, at_most) =
      amount-close kind (quote_from kind (some limit) used credits count).missing
        (omega (arith, few)) in
    (omega arith, omega arith, omega arith, λ h. omega arith, λ h. omega arith, at_least, at_most)

credits-update :
    (kind : PrintKind) (organizer_id other_id : ℕ) (f : Account → Account) (accounts : List Account)
    {a : Account}
    → ((x : Account) → (f x).organizer_id ≡ x.organizer_id)
    → find organizer_id accounts ≡ some a
    → credits kind other_id (update organizer_id f accounts)
      ≡ (if organizer_id == other_id then credits_of kind (f a) else credits kind other_id accounts)
unfolding credits
credits-update kind organizer_id other_id f accounts {a} h found =
    elim (Bool-cases (organizer_id == other_id)) [
      | inl same ↦
          ground (
            arith,
            find-update organizer_id other_id f accounts h,
            ==→eq organizer_id other_id same,
          )
      | inr another ↦ ground (arith, find-update organizer_id other_id f accounts h)
    ]

credits_found :
    (k : PrintKind) (o : ℕ) (rs : List Account) {a : Account}
    → find o rs ≡ some a
    → credits k o rs ≡ credits_of k a
unfolding credits
credits_found k o rs found = ground arith

credits_of-set_credits :
    (kind : PrintKind) (n : ℕ) (a : Account) → credits_of kind (set_credits kind n a) ≡ n
unfolding credits_of set_credits
credits_of-set_credits tickets n a = refl
credits_of-set_credits badges n a = refl

set_credits-organizer :
    (kind : PrintKind) (n : ℕ) (a : Account) → (set_credits kind n a).organizer_id ≡ a.organizer_id
unfolding set_credits
set_credits-organizer tickets n a = refl
set_credits-organizer badges n a = refl

take_credits-ok :
    (kind : PrintKind) (q : PrintQuote) (organizer_id : ℕ) (accounts : List Account)
    {after : List Account}
    → take_credits kind q organizer_id accounts ≡ ok after
    → (credits kind organizer_id after + q.from_credits ≡ credits kind organizer_id accounts)
      × ((o : ℕ) → (organizer_id == o) ≡ false → credits kind o after ≡ credits kind o accounts)
unfolding take_credits
take_credits-ok kind q organizer_id accounts {after} h =
    let enough = λ (a : Account). leb q.from_credits (credits_of kind a) in
    let spend = λ (a : Account). set_credits kind (credits_of kind a - q.from_credits) a in
    let claimed = claim organizer_id enough spend accounts in
    let (a, found, fits, e) =
      claim-eq-some organizer_id enough spend accounts
        (or_throw-eq-ok claimed (payment_required q) h) in
    let at = λ (o : ℕ).
      credits-update kind organizer_id o spend accounts (λ x. set_credits-organizer kind _ x)
        found in
    rw e (
      ground (
        arith,
        at organizer_id,
        ==_refl organizer_id,
        credits_of-set_credits kind (credits_of kind a - q.from_credits) a,
        credits_found kind organizer_id accounts found,
      ),
      λ o other_one. ground (arith, at o),
    )

consume_quote-ok :
    (kind : PrintKind) (q : PrintQuote) (organizer_id : ℕ) (accounts after : List Account)
    (taken : ℕ)
    → consume_quote kind q organizer_id accounts ≡ ok (after, taken)
    → (taken ≡ q.from_credits)
      × (q.missing ≡ 0)
      × (credits kind organizer_id after + taken ≡ credits kind organizer_id accounts)
      × ((o : ℕ) → (organizer_id == o) ≡ false → credits kind o after ≡ credits kind o accounts)
unfolding consume_quote
consume_quote-ok kind q organizer_id accounts after taken h = elim (Bool-cases (ltb 0 q.missing)) [
  | inl asked ↦ ground arith
  | inr covered ↦ elim (Bool-cases (q.from_credits == 0)) [
    | inl none_taken ↦ (ground arith, ground arith, ground arith, λ o e. ground arith)
    | inr some_taken ↦ elim (Result-cases (take_credits kind q organizer_id accounts)) [
      | inl (mid, spent) ↦
          let (own, others) = take_credits-ok kind q organizer_id accounts {after = mid} spent in
          (
            ground arith,
            ground arith,
            ground (arith, own),
            λ o other_one. ground (arith, others o other_one),
          )
      | inr (e, refused) ↦ ground arith
    ]
  ]
]

quote_print-covers :
    (kind : PrintKind) (plan : Plan) (used : ℕ) (accounts : List Account)
    (organizer_id count limit : ℕ)
    → limit_of kind plan ≡ some limit
    → let q = quote_print kind plan used accounts organizer_id count in
      q.missing ≡ 0 → count ≤ (limit - used) + q.from_credits
unfolding quote_print quote_from
quote_print-covers kind plan used accounts organizer_id count limit e none_missing = ground arith

-- A batch that goes through takes its credits from that organizer's account and no other; where the
-- plan has a limit, it fits in what is left of it and the credits.
pub consume_print-ok :
    (kind : PrintKind) (plan : Plan) (used : ℕ) (accounts : List Account) (organizer_id count : ℕ)
    {after : List Account} {taken : ℕ}
    → consume_print kind plan used accounts organizer_id count ≡ ok (after, taken)
    → (credits kind organizer_id after + taken ≡ credits kind organizer_id accounts)
      × ((o : ℕ) → (organizer_id == o) ≡ false → credits kind o after ≡ credits kind o accounts)
      × ((limit : ℕ) → limit_of kind plan ≡ some limit → count ≤ (limit - used) + taken)
unfolding consume_print
consume_print-ok kind plan used accounts organizer_id count {after} {taken} h =
    let (e, none_missing, own, others) =
      consume_quote-ok kind (quote_print kind plan used accounts organizer_id count) organizer_id
        accounts after taken h in
    (
      own,
      others,
      λ limit l.
          rw e (quote_print-covers kind plan used accounts organizer_id count limit l none_missing),
    )

made_found :
    (kind : PrintKind) (organizer_id quantity : ℕ) (accounts : List Account)
    → find organizer_id accounts ≡ none
    → find organizer_id (accounts ++ set_credits kind quantity (new_account organizer_id) ∷ [])
      ≡ some (set_credits kind quantity (new_account organizer_id))
unfolding set_credits new_account
made_found tickets organizer_id quantity accounts h = find-append_new accounts _ h
made_found badges organizer_id quantity accounts h = find-append_new accounts _ h

no_credits :
    (kind : PrintKind) (organizer_id : ℕ) (accounts : List Account)
    → find organizer_id accounts ≡ none
    → credits kind organizer_id accounts ≡ 0
unfolding credits
no_credits kind organizer_id accounts h = ground arith

-- Giving credits back adds them to the account, which is made if the organizer had none.
pub refund_credits-credits :
    (kind : PrintKind) (organizer_id quantity : ℕ) (accounts : List Account)
    → credits kind organizer_id (refund_credits kind organizer_id quantity accounts)
      ≡ credits kind organizer_id accounts + quantity
unfolding refund_credits add_credits
refund_credits-credits kind organizer_id quantity accounts =
    elim (Option-cases (find organizer_id accounts)) [
      | inl missing ↦
          let made = set_credits kind quantity (new_account organizer_id) in
          ground (
            arith,
            credits_found kind organizer_id (accounts ++ made ∷ [])
                (made_found kind organizer_id quantity accounts missing),
            credits_of-set_credits kind quantity (new_account organizer_id),
            no_credits kind organizer_id accounts missing,
          )
      | inr (a, found) ↦ ground (
        arith,
        credits-update kind organizer_id organizer_id
            (λ x. set_credits kind (credits_of kind x + quantity) x) accounts {a = a}
            (λ x. set_credits-organizer kind _ x) found,
        ==_refl organizer_id,
        credits_of-set_credits kind (credits_of kind a + quantity) a,
        credits_found kind organizer_id accounts found,
      )
    ]
