-- ===== src/PrintQuota.antt =====
-- backend/src/subscription/subscription.service.ts, the print quota: what a batch of tickets or
-- badges takes from the plan of an organizer and from the paid credits.
-- The plan in force and the number already printed are arguments (getEffectivePlan and
-- printedCount read them from the database). Amounts are in cents of a dollar.
pub mod Laws
use ticketing_platform.Prelude.Double.{ceil_cents}
use ticketing_platform.Prelude.{
  Keyed, List, Option, Result, [], claim, err, find, guard, if◌then◌else◌, leb, ltb, min, none, ok,
  or_throw, some, update, ℕ, ◌++◌, ◌+◌, ◌-◌, ◌==◌, ◌>>=◌, ◌∷◌,
}

pub data PrintKind : Type 0 where
  tickets badges : PrintKind

-- PRINT_UNIT_PRICES: the doubles 0.02 and 0.2, in 2 ^ -58.
unfoldable pub unit_price : PrintKind → ℕ
unit_price tickets = 5764607523034235
unit_price badges = 57646075230342352

-- The limits of a plan; `none` is the -1 of the database, no limit.
pub record Plan : Type 0 where
  pub max_tickets : Option ℕ
  pub max_badges : Option ℕ
  pub max_controllers : Option ℕ

pub record Account : Type 0 where
  pub organizer_id : ℕ
  pub ticket_credits : ℕ
  pub badge_credits : ℕ

instance abbrev pub account_keyed : Keyed Account
account_keyed = record { key = λ a. a.organizer_id }

unfoldable pub credits_of : PrintKind → Account → ℕ
credits_of tickets a = a.ticket_credits
credits_of badges a = a.badge_credits

unfoldable pub set_credits : PrintKind → ℕ → Account → Account
set_credits tickets n a = record a { ticket_credits = n }
set_credits badges n a = record a { badge_credits = n }

unfoldable pub limit_of : PrintKind → Plan → Option ℕ
limit_of tickets p = p.max_tickets
limit_of badges p = p.max_badges

-- An organizer without an account has no credits.
unfoldable pub credits : PrintKind → ℕ → List Account → ℕ
credits kind organizer_id accounts = elim (find organizer_id accounts) [
  | none ↦ 0
  | some a ↦ credits_of kind a
]

pub record PrintQuote : Type 0 where
  pub count : ℕ
  pub remaining : Option ℕ
  pub credits : ℕ
  pub from_quota : ℕ
  pub from_credits : ℕ
  pub missing : ℕ
  pub amount : ℕ

-- The quote from a limit (`none`: unlimited), the number used and the credits.
unfoldable pub quote_from : PrintKind → Option ℕ → ℕ → ℕ → ℕ → PrintQuote
quote_from kind none used credits count = record {
  count = count;
  remaining = none;
  credits = credits;
  from_quota = count;
  from_credits = 0;
  missing = 0;
  amount = 0;
}
quote_from kind (some limit) used credits count =
    let remaining : ℕ = limit - used in
    let from_quota : ℕ = min count remaining in
    let beyond : ℕ = count - from_quota in
    let from_credits : ℕ = min beyond credits in
    let missing : ℕ = beyond - from_credits in
    record {
      count = count;
      remaining = some remaining;
      credits = credits;
      from_quota = from_quota;
      from_credits = from_credits;
      missing = missing;
      amount = ceil_cents missing (unit_price kind);
    }

unfoldable pub quote_print : PrintKind → Plan → ℕ → List Account → ℕ → ℕ → PrintQuote
quote_print kind plan used accounts organizer_id count =
    quote_from kind (limit_of kind plan) used (credits kind organizer_id accounts) count

pub data PrintError : Type 0 where
  payment_required : PrintQuote → PrintError

-- The update of consumePrint: it takes the credits only if there are still as many.
unfoldable pub take_credits :
    PrintKind → PrintQuote → ℕ → List Account → Result PrintError (List Account)
take_credits kind q organizer_id accounts =
    or_throw
      (claim organizer_id (λ a. leb q.from_credits (credits_of kind a))
        (λ a. set_credits kind (credits_of kind a - q.from_credits) a) accounts)
      (payment_required q)

-- consumePrint from its quote: the accounts after the batch, and the credits taken for it.
unfoldable pub consume_quote :
    PrintKind → PrintQuote → ℕ → List Account → Result PrintError (List Account × ℕ)
consume_quote kind q organizer_id accounts =
    if ltb 0 q.missing
    then err (payment_required q)
    else if q.from_credits == 0
    then ok (accounts, 0)
    else (take_credits kind q organizer_id accounts >>= λ after. ok (after, q.from_credits))

unfoldable pub consume_print :
    PrintKind → Plan → ℕ → List Account → ℕ → ℕ → Result PrintError (List Account × ℕ)
consume_print kind plan used accounts organizer_id count =
    consume_quote kind (quote_print kind plan used accounts organizer_id count) organizer_id
      accounts

new_account : ℕ → Account
new_account organizer_id = record {
  organizer_id = organizer_id;
  ticket_credits = 0;
  badge_credits = 0;
}

-- billingAccount.upsert with an increment.
unfoldable pub add_credits : PrintKind → ℕ → ℕ → List Account → List Account
unfolding new_account
add_credits kind organizer_id quantity accounts = elim (find organizer_id accounts) [
  | none ↦ accounts ++ set_credits kind quantity (new_account organizer_id) ∷ []
  | some _ ↦ update organizer_id (λ a. set_credits kind (credits_of kind a + quantity) a) accounts
]

unfoldable pub refund_credits : PrintKind → ℕ → ℕ → List Account → List Account
refund_credits kind organizer_id quantity accounts =
    if leb quantity 0 then accounts else add_credits kind organizer_id quantity accounts

pub data ControllerError : Type 0 where
  controllers_full : ℕ → ControllerError

-- `count` is the number of controllers that use a place (controllersCount).
unfoldable pub assert_can_add_controller : Plan → ℕ → Result ControllerError (Unit {0})
assert_can_add_controller plan count = elim plan.max_controllers [
  | none ↦ ok tt
  | some most ↦ guard (ltb count most) (controllers_full most)
]
