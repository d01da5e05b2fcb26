-- ===== src/Controllers.antt =====
-- backend/src/controllers-mgmt/controllers.service.ts: the people who scan the tickets of an
-- organizer, by an invitation or an account, and the places of the plan that they take.
-- `plan_of` gives the limits of the plan in force of an organizer. A password is kept as whether
-- there is one; names, tokens of a session and e-mails are not modelled.
pub mod Places
pub mod Switching
pub mod Steps
pub mod Owners
use ticketing_platform.PrintQuota.{ControllerError, Plan, account_keyed, assert_can_add_controller}
use ticketing_platform.Access.{Event, Role, event_keyed, is_admin}
use ticketing_platform.Prelude.{
  Bool, Keyed, List, Option, Result, [], any, err, false, find, find_first, guard, if◌then◌else◌,
  keep, ltb, none, not, ok, or_throw, some, sum_by, true, update, ℕ, ◌&&◌, ◌++◌, ◌==◌, ◌>>=◌, ◌>>◌,
  ◌||◌, ◌∷◌,
}

pub record ControllerRow : Type 0 where
  pub id : ℕ
  pub email : ℕ
  pub organizer_id : ℕ
  pub is_active : Bool
  pub has_password : Bool
  pub invitation_token : Option ℕ

instance abbrev pub controller_keyed : Keyed ControllerRow
controller_keyed = record { key = λ c. c.id }

pub record Assignment : Type 0 where
  pub controller_id : ℕ
  pub event_id : ℕ

pub record UserAccount : Type 0 where
  pub id : ℕ
  pub email : ℕ

instance abbrev pub user_account_keyed : Keyed UserAccount
user_account_keyed = record { key = λ a. a.id }

-- The tables of the service.
pub record Crew : Type 0 where
  pub accounts : List UserAccount
  pub controllers : List ControllerRow
  pub assignments : List Assignment
  pub events : List Event

pub data CrewError : Type 0 where
  of_plan : ControllerError → CrewError
  email_taken controller_not_found access_denied invitation_not_found already_accepted : CrewError
  event_not_found event_of_other already_assigned : CrewError

unfoldable pub is_invited : ControllerRow → Bool
is_invited c = elim c.invitation_token [ none ↦ false | some t ↦ true ]

-- owner ? { NOT: { email: owner.email } } : {}
unfoldable pub is_other_than : Option UserAccount → ControllerRow → Bool
is_other_than none c = true
is_other_than (some owner) c = not (c.email == owner.email)

-- 1 for a controller of the organizer that uses a place.
unfoldable pub place_of : Option UserAccount → ℕ → ControllerRow → ℕ
place_of owner organizer_id c =
    if c.organizer_id == organizer_id && (c.is_active || is_invited c) && is_other_than owner c
    then 1
    else 0

-- controllersCount
unfoldable pub controllers_count : ℕ → List UserAccount → List ControllerRow → ℕ
controllers_count organizer_id accounts =
    sum_by (place_of (find organizer_id accounts) organizer_id)

unfoldable pub lift_plan : Result ControllerError (Unit {0}) → Result CrewError (Unit {0})
lift_plan (ok u) = ok u
lift_plan (err e) = err (of_plan e)

-- assertCanAddController
unfoldable pub can_add : (ℕ → Plan) → ℕ → Crew → Result CrewError (Unit {0})
can_add plan_of organizer_id s = lift_plan (
    assert_can_add_controller (plan_of organizer_id)
      (controllers_count organizer_id s.accounts s.controllers))

unfoldable pub has_email : ℕ → ControllerRow → Bool
has_email email c = c.email == email

unfoldable pub is_new_email : ℕ → List ControllerRow → Bool
is_new_email email controllers = not (any (has_email email) controllers)

unfoldable pub add_controller : (ℕ → Plan) → ControllerRow → Crew → Result CrewError Crew
add_controller plan_of row s = do
  can_add plan_of row.organizer_id s
  guard (is_new_email row.email s.controllers) email_taken
  ok (record s { controllers = s.controllers ++ row ∷ [] })

-- create; `id` is the identifier of the new row, and isActive is the default of the schema.
unfoldable pub create_controller : (ℕ → Plan) → ℕ → ℕ → ℕ → Crew → Result CrewError Crew
create_controller plan_of id organizer_id email s =
    add_controller plan_of
      (record {
        id = id;
        email = email;
        organizer_id = organizer_id;
        is_active = false;
        has_password = true;
        invitation_token = none;
      })
      s

unfoldable pub has_account : ℕ → List UserAccount → Bool
has_account email = any (λ (a : UserAccount). a.email == email)

-- Someone with an account is active at once, anyone else has an invitation.
unfoldable pub invited_row : ℕ → ℕ → ℕ → ℕ → Bool → ControllerRow
invited_row id organizer_id email token known = record {
  id = id;
  email = email;
  organizer_id = organizer_id;
  is_active = known;
  has_password = false;
  invitation_token = if known then none else some token;
}

unfoldable pub is_assigned : ℕ → ℕ → Assignment → Bool
is_assigned controller_id event_id a = a.controller_id == controller_id && a.event_id == event_id

-- createMany with skipDuplicates
unfoldable pub assign_each : ℕ → List ℕ → List Assignment → List Assignment
assign_each controller_id [] assignments = assignments
assign_each controller_id (e ∷ es) assignments = assign_each controller_id es (
    if any (is_assigned controller_id e) assignments
    then assignments
    else assignments ++ record { controller_id = controller_id; event_id = e } ∷ [])

-- invite
unfoldable pub invite : (ℕ → Plan) → ℕ → ℕ → ℕ → ℕ → List ℕ → Crew → Result CrewError Crew
invite plan_of id organizer_id email token event_ids s = do
  t ←
      add_controller plan_of
        (invited_row id organizer_id email token (has_account email s.accounts)) s
  ok (record t { assignments = assign_each id event_ids t.assignments })

unfoldable pub is_invited_by : ℕ → ControllerRow → Bool
is_invited_by token c = elim c.invitation_token [ none ↦ false | some t ↦ t == token ]

abbrev pub set_accepted : ControllerRow → ControllerRow
set_accepted c = record c { has_password = true; is_active = true; invitation_token = none }

-- acceptInvitation
unfoldable pub accept_invitation : ℕ → Crew → Result CrewError Crew
accept_invitation token s = do
  c ← or_throw (find_first (is_invited_by token) s.controllers) invitation_not_found
  guard (not c.is_active) already_accepted
  ok (record s { controllers = update c.id set_accepted s.controllers })

-- The row, if the caller is an admin or its organizer.
unfoldable pub own_controller : ℕ → ℕ → Role → List ControllerRow → Result CrewError ControllerRow
own_controller controller_id user_id role controllers = do
  c ← or_throw (find controller_id controllers) controller_not_found
  guard (is_admin role || c.organizer_id == user_id) access_denied
  ok c

abbrev pub set_active : Bool → ControllerRow → ControllerRow
set_active active c = record c { is_active = active }

-- What a change of isActive asks of the plan: a place, where the controller is switched on again.
unfoldable pub check_place : (ℕ → Plan) → Bool → ControllerRow → Crew → Result CrewError (Unit {0})
check_place plan_of active c s =
    if active && not c.is_active then can_add plan_of c.organizer_id s else ok tt

-- update, of isActive
unfoldable pub switch_controller : (ℕ → Plan) → ℕ → ℕ → Role → Bool → Crew → Result CrewError Crew
switch_controller plan_of controller_id user_id role active s = do
  c ← own_controller controller_id user_id role s.controllers
  check_place plan_of active c s
  ok (record s { controllers = update controller_id (set_active active) s.controllers })

abbrev pub set_retired : ControllerRow → ControllerRow
set_retired c = record c { is_active = false; invitation_token = none }

unfoldable pub is_not_of : ℕ → Assignment → Bool
is_not_of controller_id a = not (a.controller_id == controller_id)

-- delete: one who has scanned keeps the row. `scans` counts the scans of a controller, and the
-- assignments go with the row.
unfoldable pub delete_controller : (ℕ → ℕ) → ℕ → ℕ → Role → Crew → Result CrewError Crew
delete_controller scans controller_id user_id role s = do
  own_controller controller_id user_id role s.controllers
  ok (record s {
    assignments = keep (is_not_of controller_id) s.assignments;
    controllers =
        if ltb 0 (scans controller_id)
        then update controller_id set_retired s.controllers
        else keep (λ (c : ControllerRow). not (c.id == controller_id)) s.controllers;
  })

-- assignEvent
unfoldable pub assign_event : ℕ → ℕ → ℕ → Role → Crew → Result CrewError Crew
assign_event controller_id event_id user_id role s = do
  own_controller controller_id user_id role s.controllers
  e ← or_throw (find event_id s.events) event_not_found
  guard (is_admin role || e.organizer_id == user_id) event_of_other
  guard (not (any (is_assigned controller_id event_id) s.assignments)) already_assigned
  ok (record s {
    assignments =
        s.assignments ++ record { controller_id = controller_id; event_id = event_id } ∷ [];
  })

-- unassignEvent
unfoldable pub unassign_event : ℕ → ℕ → ℕ → Role → Crew → Result CrewError Crew
unassign_event controller_id event_id user_id role s = do
  own_controller controller_id user_id role s.controllers
  ok (record s {
    assignments = keep (λ a. not (is_assigned controller_id event_id a)) s.assignments;
  })
