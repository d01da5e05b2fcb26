-- ===== src/Examples/Crews.antt =====
-- The controllers of an organizer, on concrete rows.
use ticketing_platform.Controllers.Owners.{Change, Change-Untouched, Untouched}
use ticketing_platform.Controllers.Steps.{
  Reach, Reach-AllFitPlan, accepted, deleted, here, invited, next,
}
use ticketing_platform.Controllers.Places.{AllFitPlan}
use ticketing_platform.Controllers.{
  Assignment, ControllerRow, Crew, CrewError, UserAccount, accept_invitation, add_controller,
  assign_each, can_add, controller_keyed, controllers_count, delete_controller, has_account,
  has_email, invite, invited_row, is_assigned, is_invited, is_invited_by, is_new_email, is_not_of,
  is_other_than, lift_plan, of_plan, own_controller, place_of, set_accepted, set_retired,
  user_account_keyed,
}
use ticketing_platform.PrintQuota.{Plan, account_keyed, assert_can_add_controller, controllers_full}
use ticketing_platform.Pricing.{FeePayer, organizer}
use ticketing_platform.Access.{Event, event_keyed, is_admin, organizer, published}
use ticketing_platform.Prelude.{
  List, [], any, arith, err, false, find, find_first, keep, none, ok, refl, some, sum_by, true,
  update, ℕ, ◌==◌, ◌∷◌, ◌≡◌,
}

abbrev organizer_account : UserAccount
organizer_account = record { id = 10; email = 100 }

abbrev gate_event : Event
gate_event = record {
  id = 7;
  organizer_id = 10;
  status = published;
  start_date = 1000;
  end_date = 2000;
  total_capacity = 10;
  fee_payer = FeePayer.buyer;
  merch_delivery_fee = none;
}

-- Every plan has one place.
abbrev small_plans : ℕ → Plan
small_plans i = record { max_tickets = none; max_badges = none; max_controllers = some 1 }

abbrev crew_of : List ControllerRow → List Assignment → Crew
crew_of controllers assignments = record {
  accounts = organizer_account ∷ [];
  controllers = controllers;
  assignments = assignments;
  events = gate_event ∷ [];
}

abbrev assignment : Assignment
assignment = record { controller_id = 1; event_id = 7 }

abbrev invited_one : ControllerRow
invited_one = invited_row 1 10 200 5 false

abbrev no_crew : Crew
no_crew = crew_of [] []

abbrev invited_crew : Crew
invited_crew = crew_of (invited_one ∷ []) (assignment ∷ [])

abbrev accepted_crew : Crew
accepted_crew = crew_of (set_accepted invited_one ∷ []) (assignment ∷ [])

abbrev retired_crew : Crew
retired_crew = crew_of (set_retired (set_accepted invited_one) ∷ []) []

abbrev scans_of_one : ℕ → ℕ
scans_of_one id = 3

was_invited : invite small_plans 1 10 200 5 (7 ∷ 7 ∷ []) no_crew ≡ ok invited_crew
unfolding invite add_controller can_add lift_plan assert_can_add_controller controllers_count sum_by
    is_new_email has_email any assign_each is_assigned has_account invited_row place_of
    is_other_than is_invited find
was_invited = refl

-- The one place of the plan is taken.
no_place : invite small_plans 2 10 300 6 [] invited_crew ≡ err (of_plan (controllers_full 1))
unfolding invite add_controller can_add lift_plan assert_can_add_controller controllers_count sum_by
    is_new_email has_email any assign_each is_assigned has_account invited_row place_of
    is_other_than is_invited find
no_place = refl

was_accepted : accept_invitation 5 invited_crew ≡ ok accepted_crew
unfolding accept_invitation find_first is_invited_by update invited_row
was_accepted = refl

was_retired : delete_controller scans_of_one 1 10 organizer accepted_crew ≡ ok retired_crew
unfolding delete_controller own_controller find update keep is_not_of is_admin invited_row
was_retired = refl

none_taken : AllFitPlan small_plans no_crew
unfolding controllers_count sum_by
none_taken i most is_most = omega arith

history : Reach small_plans no_crew retired_crew
unfolding find
history =
    next
      (next (next here (invited 1 10 200 5 (7 ∷ 7 ∷ []) refl was_invited))
        (accepted 5 was_accepted))
      (deleted scans_of_one 1 10 organizer was_retired)

Reach-AllFitPlan_example : AllFitPlan small_plans retired_crew
Reach-AllFitPlan_example = Reach-AllFitPlan small_plans tt none_taken history

-- The controller of another organizer.
abbrev foreign_one : ControllerRow
foreign_one = invited_row 2 20 300 6 true

abbrev mixed_crew : Crew
mixed_crew =
    crew_of (set_accepted invited_one ∷ foreign_one ∷ [])
      (assignment ∷ record { controller_id = 2; event_id = 8 } ∷ [])

abbrev mixed_retired : Crew
mixed_retired =
    crew_of (set_retired (set_accepted invited_one) ∷ foreign_one ∷ [])
      (record { controller_id = 2; event_id = 8 } ∷ [])

mixed_deleted : delete_controller scans_of_one 1 10 organizer mixed_crew ≡ ok mixed_retired
unfolding delete_controller own_controller find update keep is_not_of is_admin invited_row
mixed_deleted = refl

-- The organizer of the first has no access to the second.
not_deleted : delete_controller scans_of_one 2 10 organizer mixed_crew ≡ err CrewError.access_denied
unfolding delete_controller own_controller find update keep is_not_of is_admin invited_row
not_deleted = refl

foreign_found : find 2 mixed_crew.controllers ≡ some foreign_one
unfolding find invited_row
foreign_found = refl

foreign_owner : (foreign_one.organizer_id == 10) ≡ false
unfolding invited_row
foreign_owner = refl

no_admin : is_admin organizer ≡ false
unfolding is_admin
no_admin = refl

Change-Untouched_example : Untouched 2 mixed_crew mixed_retired
Change-Untouched_example =
    Change-Untouched 10 organizer 2 no_admin foreign_found foreign_owner
      (Change.deleted scans_of_one 1 mixed_deleted)
