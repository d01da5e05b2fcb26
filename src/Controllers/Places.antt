-- ===== src/Controllers/Places.antt =====
-- The places of a plan that the controllers of each organizer take.
use ticketing_platform.Access.{Role, event_keyed, is_admin}
use ticketing_platform.Controllers.{
  ControllerRow, Crew, UserAccount, accept_invitation, access_denied, add_controller,
  already_accepted, can_add, controller_keyed, controller_not_found, controllers_count,
  create_controller, delete_controller, email_taken, has_account, invitation_not_found, invite,
  invited_row, is_invited, is_invited_by, is_new_email, is_other_than, lift_plan, own_controller,
  place_of, set_accepted, set_retired, user_account_keyed,
}
use ticketing_platform.PrintQuota.{Plan, account_keyed, assert_can_add_controller}
use ticketing_platform.Prelude.{
  ==→eq, >>=-eq-ok, Bool, Bool-cases, Distinct, List, Option, [], ap, arith, false, find,
  find_first, find_first-find, find_first-holds, guard, inl, inr, keep, not, ok, ok-injective,
  or_throw, or_throw-eq-ok, some, subst, sum_by, sum_by-append, sum_by-update, true, update, ℕ, ◌+◌,
  ◌<◌, ◌==◌, ◌||◌, ◌∙◌, ◌∷◌, ◌≡◌, ◌≤◌,
}

-- At most as many places are taken as the plan has.
abbrev pub FitsPlan : Plan → ℕ → Type 0
FitsPlan plan count = (most : ℕ) → plan.max_controllers ≡ some most → count ≤ most

-- The places of every organizer.
abbrev pub AllFitPlan : (ℕ → Plan) → Crew → Type 0
AllFitPlan plan_of s =
    (organizer_id : ℕ)
    → FitsPlan (plan_of organizer_id) (controllers_count organizer_id s.accounts s.controllers)

pub place-le-one : (owner : Option UserAccount) (i : ℕ) (c : ControllerRow) → place_of owner i c ≤ 1
unfolding place_of
place-le-one owner i c = ground arith

pub place-other :
    (owner : Option UserAccount) (i : ℕ) (c : ControllerRow)
    → (c.organizer_id == i) ≡ false
    → place_of owner i c ≡ 0
unfolding place_of
place-other owner i c h = ground arith

pub can_add-ok :
    (plan_of : ℕ → Plan) (i : ℕ) (s : Crew) {u : Unit {0}}
    → can_add plan_of i s ≡ ok u
    → (most : ℕ) → (plan_of i).max_controllers ≡ some most
    → controllers_count i s.accounts s.controllers < most
unfolding can_add lift_plan assert_can_add_controller
can_add-ok plan_of i s h most e = ground (arith, e)

-- A change of the rows that gives one organizer at most one place more, after a check of its plan.
pub one_more :
    (plan_of : ℕ → Plan) (i count after : ℕ)
    → ((most : ℕ) → (plan_of i).max_controllers ≡ some most → count < most)
    → after ≤ count + 1
    → FitsPlan (plan_of i) after
one_more plan_of i count after room h most e = omega (arith, room most e)

pub add_controller-AllFitPlan :
    (plan_of : ℕ → Plan) (row : ControllerRow) (s : Crew) {after : Crew}
    → add_controller plan_of row s ≡ ok after
    → AllFitPlan plan_of s
    → AllFitPlan plan_of after
unfolding add_controller controllers_count
add_controller-AllFitPlan plan_of row s h fit i =
    let (u, added, h1) = >>=-eq-ok (can_add plan_of row.organizer_id s) _ h in
    let (_, _, e) = >>=-eq-ok (guard (is_new_email row.email s.controllers) email_taken) _ h1 in
    let owner = find i s.accounts in
    rw (← ok-injective e) (
      rw (sum_by-append (place_of owner i) s.controllers (row ∷ []))
        (elim (Bool-cases (row.organizer_id == i)) [
          | inl own ↦
              one_more plan_of i _ _
                (subst
                  (λ k.
                    (most : ℕ)
                    → (plan_of k).max_controllers ≡ some most
                    → controllers_count k s.accounts s.controllers < most)
                  (==→eq row.organizer_id i own) (can_add-ok plan_of row.organizer_id s added))
                (unfold sum_by in omega (arith, place-le-one owner i row))
          | inr foreign ↦ λ most is_most.
              unfold sum_by in omega (arith, place-other owner i row foreign, fit i most is_most)
        ]))

-- A row that takes no new place.
pub updated-le :
    (owner : Option UserAccount) (i id : ℕ) (f : ControllerRow → ControllerRow)
    (rows : List ControllerRow) {r : ControllerRow}
    → find id rows ≡ some r
    → place_of owner i (f r) ≤ place_of owner i r
    → sum_by (place_of owner i) (update id f rows) ≤ sum_by (place_of owner i) rows
updated-le owner i id f rows found less =
    omega (arith, sum_by-update (place_of owner i) id f rows found)

kept-le :
    (owner : Option UserAccount) (i : ℕ) (p : ControllerRow → Bool) (rows : List ControllerRow)
    → sum_by (place_of owner i) (keep p rows) ≤ sum_by (place_of owner i) rows
unfolding sum_by keep
kept-le owner i p [] = omega arith
kept-le owner i p (r ∷ rs) = ground (arith, kept-le owner i p rs)

accepted-place :
    (owner : Option UserAccount) (i token : ℕ) (c : ControllerRow)
    → is_invited_by token c ≡ true
    → place_of owner i (set_accepted c) ≤ place_of owner i c
unfolding place_of is_invited_by is_invited is_other_than
accepted-place owner i token c h = ground arith

pub accept_invitation-AllFitPlan :
    (plan_of : ℕ → Plan) (token : ℕ) (s : Crew) {after : Crew}
    → Distinct s.controllers
    → accept_invitation token s ≡ ok after
    → AllFitPlan plan_of s
    → AllFitPlan plan_of after
unfolding accept_invitation controllers_count
accept_invitation-AllFitPlan plan_of token s d h fit i most is_most =
    let by_token = find_first (is_invited_by token) s.controllers in
    let (c, hit, h1) = >>=-eq-ok (or_throw by_token invitation_not_found) _ h in
    let (_, _, e) = >>=-eq-ok (guard (not c.is_active) already_accepted) _ h1 in
    let first = or_throw-eq-ok by_token invitation_not_found hit in
    let owner = find i s.accounts in
    rw (← ok-injective e) (
      omega (
        arith,
        updated-le owner i c.id set_accepted s.controllers
            (find_first-find (is_invited_by token) s.controllers d first)
            (accepted-place owner i token c
              (find_first-holds (is_invited_by token) s.controllers first)),
        fit i most is_most,
      ))

retired-place :
    (owner : Option UserAccount) (i : ℕ) (c : ControllerRow)
    → place_of owner i (set_retired c) ≤ place_of owner i c
unfolding place_of is_invited is_other_than
retired-place owner i c = ground arith

pub own_controller-ok :
    (id user_id : ℕ) (role : Role) (rows : List ControllerRow) {c : ControllerRow}
    → own_controller id user_id role rows ≡ ok c
    → find id rows ≡ some c
unfolding own_controller
own_controller-ok id user_id role rows h =
    let (x, hit, h1) = >>=-eq-ok (or_throw (find id rows) controller_not_found) _ h in
    let (_, _, e) =
      >>=-eq-ok (guard (is_admin role || x.organizer_id == user_id) access_denied) _ h1 in
    or_throw-eq-ok (find id rows) controller_not_found hit ∙ ap some (ok-injective e)

pub delete_controller-AllFitPlan :
    (plan_of : ℕ → Plan) (scans : ℕ → ℕ) (id user_id : ℕ) (role : Role) (s : Crew) {after : Crew}
    → delete_controller scans id user_id role s ≡ ok after
    → AllFitPlan plan_of s
    → AllFitPlan plan_of after
unfolding delete_controller controllers_count
delete_controller-AllFitPlan plan_of scans id user_id role s h fit i most is_most =
    let (c, owned, e) = >>=-eq-ok (own_controller id user_id role s.controllers) _ h in
    let owner = find i s.accounts in
    rw (← ok-injective e) (
      ground (
        arith,
        updated-le owner i id set_retired s.controllers
            (own_controller-ok id user_id role s.controllers owned) (retired-place owner i c),
        kept-le owner i (λ (x : ControllerRow). not (x.id == id)) s.controllers,
        fit i most is_most,
      ))

pub create_controller-AllFitPlan :
    (plan_of : ℕ → Plan) (id organizer_id email : ℕ) (s : Crew) {after : Crew}
    → create_controller plan_of id organizer_id email s ≡ ok after
    → AllFitPlan plan_of s
    → AllFitPlan plan_of after
unfolding create_controller
create_controller-AllFitPlan plan_of id organizer_id email s h fit =
    add_controller-AllFitPlan plan_of _ s h fit

pub invite-AllFitPlan :
    (plan_of : ℕ → Plan) (id organizer_id email token : ℕ) (event_ids : List ℕ) (s : Crew)
    {after : Crew}
    → invite plan_of id organizer_id email token event_ids s ≡ ok after
    → AllFitPlan plan_of s
    → AllFitPlan plan_of after
unfolding invite
invite-AllFitPlan plan_of id organizer_id email token event_ids s h fit i =
    let row = invited_row id organizer_id email token (has_account email s.accounts) in
    let (t, added, e) = >>=-eq-ok (add_controller plan_of row s) _ h in
    rw (← ok-injective e) (add_controller-AllFitPlan plan_of row s added fit i)
