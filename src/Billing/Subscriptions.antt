-- ===== src/Billing/Subscriptions.antt =====
-- The operations on the subscription of an organizer.
use ticketing_platform.Billing.Plans.{
  FreePlan, PlanError, PlanRow, Plans, Subscription, SubscriptionStatus, built_in, get_free_plan,
  get_plan, is_active, new_subscription, no_subscription, organizer_not_found, plan_has_price,
  plan_keyed, save_subscription, set_plan, stored, subscription_keyed,
}
use ticketing_platform.Billing.Calendar.{Instant, add_months, is_until}
use ticketing_platform.Prelude.{
  Bool, List, Option, Result, find, guard, if◌then◌else◌, keep, none, not, ok, or_else, or_throw,
  some, update, ℕ, ◌&&◌, ◌==◌, ◌>>=◌, ◌>>◌,
}

-- assignPlan; `is_organizer` says that the account exists.
unfoldable pub assign_plan :
    ℕ → Bool → ℕ → Option Instant → Instant → Plans → Result PlanError Plans
assign_plan organizer_id is_organizer plan_id expires_at now t = do
  guard is_organizer organizer_not_found
  get_plan plan_id t.plans
  ok (record t {
    subscriptions =
        save_subscription organizer_id (set_plan plan_id now expires_at)
          (new_subscription organizer_id plan_id now expires_at) t.subscriptions;
  })

-- UpdateSubscriptionDto: `none` for a field that is not given.
pub record SubscriptionChange : Type 0 where
  pub plan_id : Option ℕ
  pub status : Option SubscriptionStatus
  pub expires_at : Option (Option Instant)

abbrev pub change_subscription : SubscriptionChange → Subscription → Subscription
change_subscription c s = record s {
  plan_id = or_else c.plan_id s.plan_id;
  status = or_else c.status s.status;
  expires_at = or_else c.expires_at s.expires_at;
}

unfoldable pub check_plan : Option ℕ → List PlanRow → Result PlanError (Unit {0})
check_plan none plans = ok tt
check_plan (some id) plans = get_plan id plans >> ok tt

-- updateSubscription
unfoldable pub update_subscription : ℕ → SubscriptionChange → Plans → Result PlanError Plans
update_subscription organizer_id c t = do
  or_throw (find organizer_id t.subscriptions) no_subscription
  check_plan c.plan_id t.plans
  ok (record t { subscriptions = update organizer_id (change_subscription c) t.subscriptions })

-- resetQuota: a new period starts.
unfoldable pub reset_quota : ℕ → Instant → Plans → Result PlanError Plans
reset_quota organizer_id now t = do
  or_throw (find organizer_id t.subscriptions) no_subscription
  ok (record t {
    subscriptions =
        update organizer_id (λ (s : Subscription). record s { starts_at = now }) t.subscriptions;
  })

-- The end of a subscription to the plan that is running: none where another month does not add to it.
unfoldable pub later_end : Option Instant → Instant → Option Instant
later_end none now = none
later_end (some t) now = if is_until t now then none else some t

unfoldable pub running_end : ℕ → Subscription → Instant → Option Instant
running_end plan_id s now =
    if s.plan_id == plan_id && is_active s.status then later_end s.expires_at now else none

-- The data of activatePaidPlan.
unfoldable pub add_month : ℕ → Instant → Subscription → Subscription
add_month plan_id now s = elim (running_end plan_id s now) [
  | some end ↦ record s { expires_at = some (add_months end 1) }
  | none ↦ set_plan plan_id now (some (add_months now 1)) s
]

-- activatePaidPlan
unfoldable pub activate_paid_plan : ℕ → ℕ → Instant → Plans → Result PlanError Plans
activate_paid_plan organizer_id plan_id now t = do
  get_plan plan_id t.plans
  ok (record t {
    subscriptions =
        save_subscription organizer_id (add_month plan_id now)
          (new_subscription organizer_id plan_id now (some (add_months now 1))) t.subscriptions;
  })

-- delete({ where: { organizerId } })
unfoldable pub drop_subscription : ℕ → List Subscription → List Subscription
drop_subscription organizer_id = keep (λ (s : Subscription). not (s.organizer_id == organizer_id))

unfoldable pub move_to_free : ℕ → Instant → FreePlan → List Subscription → List Subscription
move_to_free organizer_id now built_in subscriptions = drop_subscription organizer_id subscriptions
move_to_free organizer_id now (stored p) subscriptions =
    update organizer_id (set_plan p.id now none) subscriptions

-- chooseFreePlan: without a subscription there is nothing to change.
unfoldable pub choose_free_plan : ℕ → Instant → Plans → Plans
choose_free_plan organizer_id now t = record t {
  subscriptions = move_to_free organizer_id now (get_free_plan t.plans) t.subscriptions;
}

-- chooseFreePlanIfFree
unfoldable pub choose_free_plan_if_free : ℕ → ℕ → Instant → Plans → Result PlanError Plans
choose_free_plan_if_free organizer_id plan_id now t = do
  p ← get_plan plan_id t.plans
  guard (p.price == 0) plan_has_price
  ok (choose_free_plan organizer_id now t)
