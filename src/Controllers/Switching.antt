-- ===== src/Controllers/Switching.antt =====
-- The places of a plan when a controller is switched on or off.
use ticketing_platform.Controllers.Places.{
  AllFitPlan, FitsPlan, can_add-ok, one_more, own_controller-ok, place-le-one, place-other,
  updated-le,
}
use ticketing_platform.Controllers.{
  ControllerRow, Crew, UserAccount, can_add, check_place, controller_keyed, controllers_count,
  is_invited, is_other_than, own_controller, place_of, set_active, switch_controller,
  user_account_keyed,
}
use ticketing_platform.PrintQuota.{Plan, account_keyed}
use ticketing_platform.Access.{Role, event_keyed}
use ticketing_platform.Prelude.{
  ==→eq, >>=-eq-ok, Bool, Bool-cases, List, Option, ap, arith, false, find, if◌then◌else◌, inl, inr,
  not, ok, ok-injective, some, subst, sum_by, sum_by-update, sym, update, ℕ, ◌&&◌, ◌+◌, ◌<◌, ◌==◌,
  ◌∙◌, ◌≡◌, ◌≤◌,
}

switched-le :
    (owner : Option UserAccount) (i : ℕ) (active : Bool) (c : ControllerRow)
    → (active && not c.is_active) ≡ false
    → place_of owner i (set_active active c) ≤ place_of owner i c
unfolding place_of is_invited is_other_than
switched-le owner i active c h = ground arith

switched-le-one :
    (owner : Option UserAccount) (i id : ℕ) (active : Bool) (rows : List ControllerRow)
    {r : ControllerRow}
    → find id rows ≡ some r
    → sum_by (place_of owner i) (update id (set_active active) rows)
      ≤ sum_by (place_of owner i) rows + 1
switched-le-one owner i id active rows {r} found = omega (
  arith,
  sum_by-update (place_of owner i) id (set_active active) rows found,
  place-le-one owner i (set_active active r),
)

switched-other :
    (owner : Option UserAccount) (i : ℕ) (active : Bool) (c : ControllerRow)
    → (c.organizer_id == i) ≡ false
    → place_of owner i (set_active active c) ≤ place_of owner i c
switched-other owner i active c h = omega (arith, place-other owner i (set_active active c) h)

-- Whoever the plan is checked for, the places that a switch adds are that organizer's.
switched-FitsPlan :
    (plan_of : ℕ → Plan) (id : ℕ) (active : Bool) (s : Crew) {c : ControllerRow} {u : Unit {0}}
    → find id s.controllers ≡ some c
    → can_add plan_of c.organizer_id s ≡ ok u
    → AllFitPlan plan_of s
    → (i : ℕ)
    → FitsPlan
        (plan_of i)
        (controllers_count i s.accounts (update id (set_active active) s.controllers))
unfolding controllers_count
switched-FitsPlan plan_of id active s {c} found added fit i =
    let owner = find i s.accounts in
    elim (Bool-cases (c.organizer_id == i)) [
      | inl own ↦
          one_more plan_of i _ _
            (subst
              (λ k.
                (most : ℕ)
                → (plan_of k).max_controllers ≡ some most
                → controllers_count k s.accounts s.controllers < most)
              (==→eq c.organizer_id i own) (can_add-ok plan_of c.organizer_id s added))
            (switched-le-one owner i id active s.controllers found)
      | inr foreign ↦ λ most is_most. omega (
        arith,
        updated-le owner i id (set_active active) s.controllers found
            (switched-other owner i active c foreign),
        fit i most is_most,
      )
    ]

pub switch_controller-AllFitPlan :
    (plan_of : ℕ → Plan) (id user_id : ℕ) (role : Role) (active : Bool) (s : Crew) {after : Crew}
    → switch_controller plan_of id user_id role active s ≡ ok after
    → AllFitPlan plan_of s
    → AllFitPlan plan_of after
unfolding switch_controller check_place controllers_count
switch_controller-AllFitPlan plan_of id user_id role active s h fit i =
    let (c, owned, h1) = >>=-eq-ok (own_controller id user_id role s.controllers) _ h in
    let (_, checked, e) = >>=-eq-ok (check_place plan_of active c s) _ h1 in
    let found = own_controller-ok id user_id role s.controllers owned in
    let owner = find i s.accounts in
    rw (← ok-injective e) (elim (Bool-cases (active && not c.is_active)) [
      | inl on ↦
          switched-FitsPlan plan_of id active s found
            (sym (ap (λ b. if b then can_add plan_of c.organizer_id s else ok tt) on) ∙ checked) fit
            i
      | inr off ↦ λ most is_most. omega (
        arith,
        updated-le owner i id (set_active active) s.controllers found
            (switched-le owner i active c off),
        fit i most is_most,
      )
    ])
