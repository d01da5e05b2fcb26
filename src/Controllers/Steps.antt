-- ===== src/Controllers/Steps.antt =====
-- The operations on the controllers, one after the other.
use ticketing_platform.Controllers.Switching.{switch_controller-AllFitPlan}
use ticketing_platform.Controllers.Places.{
  AllFitPlan, accept_invitation-AllFitPlan, create_controller-AllFitPlan,
  delete_controller-AllFitPlan, invite-AllFitPlan,
}
use ticketing_platform.Controllers.{
  ControllerRow, Crew, accept_invitation, add_controller, already_accepted, already_assigned,
  assign_event, can_add, check_place, controller_keyed, create_controller, delete_controller,
  email_taken, event_not_found, event_of_other, has_account, invitation_not_found, invite,
  invited_row, is_assigned, is_invited_by, is_new_email, own_controller, set_accepted, set_active,
  set_retired, switch_controller, unassign_event, user_account_keyed,
}
use ticketing_platform.PrintQuota.{Plan, account_keyed}
use ticketing_platform.Access.{Role, event_keyed, event_not_found, is_admin}
use ticketing_platform.Prelude.{
  >>=-eq-ok, Bool, Distinct, List, any, append-Distinct, false, find, find_first, guard,
  if◌then◌else◌, keep, keep-Distinct, ltb, none, not, ok, ok-injective, or_throw, refl, true,
  update, update-Distinct, ℕ, ◌==◌, ◌||◌, ◌≡◌,
}

-- One operation that the service answers without an error. The identifier of a new row is fresh.
pub data Step (plan_of : ℕ → Plan) : Crew → Crew → Type 0 where
  created :
      {s t : Crew} (id organizer_id email : ℕ)
      → find id s.controllers ≡ none
      → create_controller plan_of id organizer_id email s ≡ ok t
      → Step plan_of s t
  invited :
      {s t : Crew} (id organizer_id email token : ℕ) (event_ids : List ℕ)
      → find id s.controllers ≡ none
      → invite plan_of id organizer_id email token event_ids s ≡ ok t
      → Step plan_of s t
  accepted : {s t : Crew} (token : ℕ) → accept_invitation token s ≡ ok t → Step plan_of s t
  switched :
      {s t : Crew} (id user_id : ℕ) (role : Role) (active : Bool)
      → switch_controller plan_of id user_id role active s ≡ ok t
      → Step plan_of s t
  deleted :
      {s t : Crew} (scans : ℕ → ℕ) (id user_id : ℕ) (role : Role)
      → delete_controller scans id user_id role s ≡ ok t
      → Step plan_of s t
  assigned :
      {s t : Crew} (id event_id user_id : ℕ) (role : Role)
      → assign_event id event_id user_id role s ≡ ok t
      → Step plan_of s t
  unassigned :
      {s t : Crew} (id event_id user_id : ℕ) (role : Role)
      → unassign_event id event_id user_id role s ≡ ok t
      → Step plan_of s t

pub data Reach (plan_of : ℕ → Plan) (s : Crew) : Crew → Type 0 where
  here : Reach plan_of s s
  next : {t u : Crew} → Reach plan_of s t → Step plan_of t u → Reach plan_of s u

add_controller-Distinct :
    (plan_of : ℕ → Plan) (row : ControllerRow) (s : Crew) {t : Crew}
    → find row.id s.controllers ≡ none
    → add_controller plan_of row s ≡ ok t
    → Distinct s.controllers
    → Distinct t.controllers
unfolding add_controller
add_controller-Distinct plan_of row s fresh h d =
    let (_, _, h1) = >>=-eq-ok (can_add plan_of row.organizer_id s) _ h in
    let (_, _, e) = >>=-eq-ok (guard (is_new_email row.email s.controllers) email_taken) _ h1 in
    rw (← ok-injective e) (append-Distinct s.controllers row d fresh)

create_controller-Distinct :
    (plan_of : ℕ → Plan) (id organizer_id email : ℕ) (s : Crew) {t : Crew}
    → find id s.controllers ≡ none
    → create_controller plan_of id organizer_id email s ≡ ok t
    → Distinct s.controllers
    → Distinct t.controllers
unfolding create_controller
create_controller-Distinct plan_of id organizer_id email s fresh h d =
    add_controller-Distinct plan_of _ s fresh h d

invite-Distinct :
    (plan_of : ℕ → Plan) (id organizer_id email token : ℕ) (event_ids : List ℕ) (s : Crew)
    {t : Crew}
    → find id s.controllers ≡ none
    → invite plan_of id organizer_id email token event_ids s ≡ ok t
    → Distinct s.controllers
    → Distinct t.controllers
unfolding invite invited_row
invite-Distinct plan_of id organizer_id email token event_ids s fresh h d =
    let row = invited_row id organizer_id email token (has_account email s.accounts) in
    let (_, added, e) = >>=-eq-ok (add_controller plan_of row s) _ h in
    rw (← ok-injective e) (add_controller-Distinct plan_of row s fresh added d)

accept_invitation-Distinct :
    (token : ℕ) (s : Crew) {t : Crew}
    → accept_invitation token s ≡ ok t
    → Distinct s.controllers
    → Distinct t.controllers
unfolding accept_invitation
accept_invitation-Distinct token s h d =
    let (c, _, h1) =
      >>=-eq-ok (or_throw (find_first (is_invited_by token) s.controllers) invitation_not_found) _
        h in
    let (_, _, e) = >>=-eq-ok (guard (not c.is_active) already_accepted) _ h1 in
    rw (← ok-injective e) (update-Distinct c.id set_accepted s.controllers (λ r. refl) d)

switch_controller-Distinct :
    (plan_of : ℕ → Plan) (id user_id : ℕ) (role : Role) (active : Bool) (s : Crew) {t : Crew}
    → switch_controller plan_of id user_id role active s ≡ ok t
    → Distinct s.controllers
    → Distinct t.controllers
unfolding switch_controller
switch_controller-Distinct plan_of id user_id role active s h d =
    let (c, _, h1) = >>=-eq-ok (own_controller id user_id role s.controllers) _ h in
    let (_, _, e) = >>=-eq-ok (check_place plan_of active c s) _ h1 in
    rw (← ok-injective e) (update-Distinct id (set_active active) s.controllers (λ r. refl) d)

delete_controller-Distinct :
    (scans : ℕ → ℕ) (id user_id : ℕ) (role : Role) (s : Crew) {t : Crew}
    → delete_controller scans id user_id role s ≡ ok t
    → Distinct s.controllers
    → Distinct t.controllers
unfolding delete_controller
delete_controller-Distinct scans id user_id role s h d =
    let (_, _, e) = >>=-eq-ok (own_controller id user_id role s.controllers) _ h in
    rw (← ok-injective e)
      (elim (ltb 0 (scans id))
        as (λ b. Distinct (
          if b
          then update id set_retired s.controllers
          else keep (λ (c : ControllerRow). not (c.id == id)) s.controllers)) [
            | true ↦ update-Distinct id set_retired s.controllers (λ r. refl) d
            | false ↦ keep-Distinct (λ (c : ControllerRow). not (c.id == id)) s.controllers d
          ])

-- The assignments are the only rows that change.
assign_event-rows :
    (id event_id user_id : ℕ) (role : Role) (s : Crew) {t : Crew}
    → assign_event id event_id user_id role s ≡ ok t
    → t ≡ record s { assignments = t.assignments }
unfolding assign_event
assign_event-rows id event_id user_id role s h =
    let (_, _, h1) = >>=-eq-ok (own_controller id user_id role s.controllers) _ h in
    let (e, _, h2) = >>=-eq-ok (or_throw (find event_id s.events) event_not_found) _ h1 in
    let (_, _, h3) =
      >>=-eq-ok (guard (is_admin role || e.organizer_id == user_id) event_of_other) _ h2 in
    let (_, _, done) =
      >>=-eq-ok (guard (not (any (is_assigned id event_id) s.assignments)) already_assigned) _ h3 in
    rw (← ok-injective done) refl

unassign_event-rows :
    (id event_id user_id : ℕ) (role : Role) (s : Crew) {t : Crew}
    → unassign_event id event_id user_id role s ≡ ok t
    → t ≡ record s { assignments = t.assignments }
unfolding unassign_event
unassign_event-rows id event_id user_id role s h =
    let (_, _, e) = >>=-eq-ok (own_controller id user_id role s.controllers) _ h in
    rw (← ok-injective e) refl

record Staffed (plan_of : ℕ → Plan) (s : Crew) : Type 0 where
  distinct : Distinct s.controllers
  fits : AllFitPlan plan_of s

reassigned :
    (plan_of : ℕ → Plan) (s : Crew) {t : Crew}
    → t ≡ record s { assignments = t.assignments }
    → Staffed plan_of s
    → Staffed plan_of t
reassigned plan_of s e staffed = rw e (record { distinct = staffed.distinct; fits = staffed.fits })

Step-Staffed :
    (plan_of : ℕ → Plan) {s t : Crew} → Step plan_of s t → Staffed plan_of s → Staffed plan_of t
Step-Staffed plan_of {s} (created id organizer_id email fresh h) staffed = record {
  distinct = create_controller-Distinct plan_of id organizer_id email s fresh h staffed.distinct;
  fits = create_controller-AllFitPlan plan_of id organizer_id email s h staffed.fits;
}
Step-Staffed plan_of {s} (invited id organizer_id email token event_ids fresh h) staffed = record {
  distinct =
      invite-Distinct plan_of id organizer_id email token event_ids s fresh h staffed.distinct;
  fits = invite-AllFitPlan plan_of id organizer_id email token event_ids s h staffed.fits;
}
Step-Staffed plan_of {s} (accepted token h) staffed = record {
  distinct = accept_invitation-Distinct token s h staffed.distinct;
  fits = accept_invitation-AllFitPlan plan_of token s staffed.distinct h staffed.fits;
}
Step-Staffed plan_of {s} (switched id user_id role active h) staffed = record {
  distinct = switch_controller-Distinct plan_of id user_id role active s h staffed.distinct;
  fits = switch_controller-AllFitPlan plan_of id user_id role active s h staffed.fits;
}
Step-Staffed plan_of {s} (deleted scans id user_id role h) staffed = record {
  distinct = delete_controller-Distinct scans id user_id role s h staffed.distinct;
  fits = delete_controller-AllFitPlan plan_of scans id user_id role s h staffed.fits;
}
Step-Staffed plan_of {s} (assigned id event_id user_id role h) staffed =
    reassigned plan_of s (assign_event-rows id event_id user_id role s h) staffed
Step-Staffed plan_of {s} (unassigned id event_id user_id role h) staffed =
    reassigned plan_of s (unassign_event-rows id event_id user_id role s h) staffed

Reach-Staffed :
    (plan_of : ℕ → Plan) {s t : Crew} → Reach plan_of s t → Staffed plan_of s → Staffed plan_of t
Reach-Staffed plan_of here staffed = staffed
Reach-Staffed plan_of (next before step) staffed =
    Step-Staffed plan_of step (Reach-Staffed plan_of before staffed)

-- If the identifiers of the controllers are distinct and every organizer takes at most as many
-- places as the plan has, then, with the same plans, each takes at most as many after any sequence
-- of operations, one after the other, whose new rows have fresh identifiers.
pub Reach-AllFitPlan :
    (plan_of : ℕ → Plan) {s t : Crew}
    → Distinct s.controllers
    → AllFitPlan plan_of s
    → Reach plan_of s t
    → AllFitPlan plan_of t
Reach-AllFitPlan plan_of d fit reach =
    (Reach-Staffed plan_of reach (record { distinct = d; fits = fit })).fits
