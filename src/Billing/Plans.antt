-- ===== src/Billing/Plans.antt =====
-- The plans, the subscriptions of the organizers, and the plan in force.
-- `built_in` is FREE_PLAN_FALLBACK, the free plan where the database has none.
use ticketing_platform.Billing.Calendar.{Instant, add_months, is_until}
use ticketing_platform.PrintQuota.{Plan, account_keyed}
use ticketing_platform.Prelude.{
  Bool, Keyed, List, Option, Result, [], count_where, false, find, find_first, guard, if◌then◌else◌,
  keep, ltb, none, not, ok, or_throw, some, suc, true, update, zero, ℕ, ◌&&◌, ◌++◌, ◌+◌, ◌==◌, ◌>>◌,
  ◌∷◌,
}

pub data SubscriptionStatus : Type 0 where
  active expired cancelled suspended : SubscriptionStatus

pub record PlanRow : Type 0 where
  pub id : ℕ
  pub price : ℕ
  pub is_active : Bool
  -- code === 'FREE'
  pub is_free : Bool
  -- period === 'EVENT': the quota counts by event.
  pub per_event : Bool
  pub limits : Plan
  -- `none`: no limit.
  pub max_events : Option ℕ

instance abbrev pub plan_keyed : Keyed PlanRow
plan_keyed = record { key = λ p. p.id }

-- One row for an organizer.
pub record Subscription : Type 0 where
  pub organizer_id : ℕ
  pub plan_id : ℕ
  pub status : SubscriptionStatus
  pub starts_at : Instant
  pub expires_at : Option Instant

instance abbrev pub subscription_keyed : Keyed Subscription
subscription_keyed = record { key = λ s. s.organizer_id }

pub record Plans : Type 0 where
  pub plans : List PlanRow
  pub subscriptions : List Subscription

pub data PlanError : Type 0 where
  plan_not_found organizer_not_found no_subscription plan_in_use not_offered plan_has_price :
      PlanError
  too_many_events : ℕ → PlanError

pub data FreePlan : Type 0 where
  built_in : FreePlan
  stored : PlanRow → FreePlan

unfoldable pub is_active : SubscriptionStatus → Bool
is_active active = true
is_active _ = false

-- getFreePlan
unfoldable pub get_free_plan : List PlanRow → FreePlan
get_free_plan plans = elim (find_first (λ (p : PlanRow). p.is_free) plans) [
  | none ↦ built_in
  | some p ↦ stored p
]

-- getPlanOrThrow
unfoldable pub get_plan : ℕ → List PlanRow → Result PlanError PlanRow
get_plan id plans = or_throw (find id plans) plan_not_found

-- sub.expiresAt && sub.expiresAt <= now
unfoldable pub has_expired : Option Instant → Instant → Bool
has_expired none now = false
has_expired (some t) now = is_until t now

unfoldable pub is_in_force : PlanRow → Subscription → Instant → Bool
is_in_force p s now = is_active s.status && not (has_expired s.expires_at now) && not p.is_free

-- while (addMonths(startsAt, k + 1) <= now && k < 1200) k++, for the rounds that are left
unfoldable pub count_months : Instant → Instant → ℕ → ℕ → ℕ
count_months start now zero k = k
count_months start now (suc rounds) k =
    let rest = count_months start now rounds (k + 1) in
    if is_until (add_months start (k + 1)) now then rest else k

abbrev pub max_months : ℕ
max_months = 1200

unfoldable pub months_since : Instant → Instant → ℕ
months_since start now = count_months start now max_months 0

unfoldable pub period_start : Subscription → Instant → Instant
period_start s now = add_months s.starts_at (months_since s.starts_at now)

-- The end of the month, or the subscription's where that is earlier.
unfoldable pub earlier_end : Instant → Option Instant → Instant
earlier_end end none = end
earlier_end end (some t) = if is_until end t then end else t

unfoldable pub period_end : Subscription → Instant → Instant
period_end s now =
    earlier_end (add_months s.starts_at (months_since s.starts_at now + 1)) s.expires_at

-- The plan in force: the free one, or a subscription's with its month (`none`: counted by event).
pub data EffectivePlan : Type 0 where
  free : FreePlan → EffectivePlan
  paid : PlanRow → Option (Instant × Instant) → EffectivePlan

unfoldable pub plan_of : List PlanRow → Subscription → Instant → PlanRow → EffectivePlan
plan_of plans s now p =
    if is_in_force p s now
    then paid p (if p.per_event then none else some (period_start s now, period_end s now))
    else free (get_free_plan plans)

-- The subscription with its plan's row, which a foreign key asks for.
unfoldable pub subscribed_plan : List PlanRow → Instant → Option Subscription → EffectivePlan
subscribed_plan plans now none = free (get_free_plan plans)
subscribed_plan plans now (some s) = elim (find s.plan_id plans) [
  | none ↦ free (get_free_plan plans)
  | some p ↦ plan_of plans s now p
]

-- getEffectivePlan
unfoldable pub get_effective_plan : ℕ → Instant → Plans → EffectivePlan
get_effective_plan organizer_id now t =
    subscribed_plan t.plans now (find organizer_id t.subscriptions)

abbrev pub built_in_limits : Plan
built_in_limits = record { max_tickets = some 100; max_badges = some 20; max_controllers = some 2 }

unfoldable pub limits_in_force : EffectivePlan → Plan
limits_in_force (free built_in) = built_in_limits
limits_in_force (free (stored p)) = p.limits
limits_in_force (paid p period) = p.limits

unfoldable pub max_events_in_force : EffectivePlan → Option ℕ
max_events_in_force (free built_in) = none
max_events_in_force (free (stored p)) = p.max_events
max_events_in_force (paid p period) = p.max_events

-- checkEventCreation; `count` is the number of the organizer's events.
unfoldable pub check_event_creation : ℕ → ℕ → Instant → Plans → Result PlanError (Unit {0})
check_event_creation organizer_id count now t =
    elim (max_events_in_force (get_effective_plan organizer_id now t)) [
      | none ↦ ok tt
      | some most ↦ guard (ltb count most) (too_many_events most)
    ]

unfoldable pub uses_plan : ℕ → Subscription → Bool
uses_plan id s = s.plan_id == id && is_active s.status

-- deletePlan. The foreign key of a subscription that is not active refuses as well.
unfoldable pub delete_plan : ℕ → Plans → Result PlanError Plans
delete_plan id t = do
  get_plan id t.plans
  guard (count_where (uses_plan id) t.subscriptions == 0) plan_in_use
  guard (count_where (λ (s : Subscription). s.plan_id == id) t.subscriptions == 0) plan_in_use
  ok (record t { plans = keep (λ (p : PlanRow). not (p.id == id)) t.plans })

-- upsert by the organizer
unfoldable pub save_subscription :
    ℕ → (Subscription → Subscription) → Subscription → List Subscription → List Subscription
save_subscription organizer_id f new subscriptions = elim (find organizer_id subscriptions) [
  | none ↦ subscriptions ++ new ∷ []
  | some _ ↦ update organizer_id f subscriptions
]

abbrev pub set_plan : ℕ → Instant → Option Instant → Subscription → Subscription
set_plan plan_id now expires_at s = record s {
  plan_id = plan_id;
  status = active;
  starts_at = now;
  expires_at = expires_at;
}

abbrev pub new_subscription : ℕ → ℕ → Instant → Option Instant → Subscription
new_subscription organizer_id plan_id now expires_at = record {
  organizer_id = organizer_id;
  plan_id = plan_id;
  status = active;
  starts_at = now;
  expires_at = expires_at;
}
