-- ===== src/Access.antt =====
-- The roles of a caller, the event row as the services read it, and the check of ownership that
-- each service of backend/src makes before it acts on an event.
use ticketing_platform.Pricing.{FeePayer}
use ticketing_platform.Prelude.{
  Bool, Keyed, List, Option, Result, false, find, guard, ok, or_throw, true, ℕ, ◌==◌, ◌>>=◌, ◌>>◌,
  ◌||◌,
}

pub data Role : Type 0 where
  super_admin admin organizer controller : Role

-- role === ADMIN || role === SUPER_ADMIN
unfoldable pub is_admin : Role → Bool
is_admin super_admin = true
is_admin admin = true
is_admin _ = false

pub data EventStatus : Type 0 where
  draft published cancelled completed : EventStatus

pub record Event : Type 0 where
  pub id : ℕ
  pub organizer_id : ℕ
  pub status : EventStatus
  pub start_date : ℕ
  pub end_date : ℕ
  pub total_capacity : ℕ
  pub fee_payer : FeePayer
  -- `none` where the event offers no delivery.
  pub merch_delivery_fee : Option ℕ

instance abbrev pub event_keyed : Keyed Event
event_keyed = record { key = λ e. e.id }

pub data AccessError : Type 0 where
  event_not_found access_denied : AccessError

-- if (!event) throw NotFound; if (not an admin and not the organizer) throw Forbidden;
unfoldable pub assert_owner : List Event → ℕ → ℕ → Role → Result AccessError Event
assert_owner events event_id user_id role = do
  event ← or_throw (find event_id events) event_not_found
  guard (is_admin role || event.organizer_id == user_id) access_denied
  ok event
