-- ===== src/Controllers/Owners.antt =====
-- What an organizer can change of the controllers of another.
use ticketing_platform.Controllers.Places.{own_controller-ok}
use ticketing_platform.Controllers.{
  Assignment, ControllerRow, Crew, already_assigned, assign_event, check_place, controller_keyed,
  delete_controller, event_not_found, event_of_other, is_assigned, is_not_of, own_controller,
  set_active, set_retired, switch_controller, unassign_event, user_account_keyed,
}
use ticketing_platform.PrintQuota.{Plan, account_keyed}
use ticketing_platform.Access.{Role, event_keyed, is_admin}
use ticketing_platform.Prelude.{
  ==→eq, >>=-eq-ok, Bool, Bool-cases, List, [], any, ap, arith, false, find, find-update, find_same,
  guard, if◌then◌else◌, inl, inr, keep, ltb, not, ok, ok-injective, or_throw, refl, some, subst,
  sym, true, update, ℕ, ◌++◌, ◌==◌, ◌||◌, ◌∙◌, ◌∷◌, ◌≡◌,
}

-- An operation of a signed-in user on a controller that is in the table.
pub data Change (user_id : ℕ) (role : Role) : Crew → Crew → Type 0 where
  switched :
      {s t : Crew} (plan_of : ℕ → Plan) (id : ℕ) (active : Bool)
      → switch_controller plan_of id user_id role active s ≡ ok t
      → Change user_id role s t
  deleted :
      {s t : Crew} (scans : ℕ → ℕ) (id : ℕ)
      → delete_controller scans id user_id role s ≡ ok t
      → Change user_id role s t
  assigned :
      {s t : Crew} (id event_id : ℕ)
      → assign_event id event_id user_id role s ≡ ok t
      → Change user_id role s t
  unassigned :
      {s t : Crew} (id event_id : ℕ)
      → unassign_event id event_id user_id role s ≡ ok t
      → Change user_id role s t

-- The assignments of a controller.
abbrev pub is_assignment_of : ℕ → Assignment → Bool
is_assignment_of controller_id a = a.controller_id == controller_id

-- The row of a controller and the events it is assigned to.
abbrev pub Untouched : ℕ → Crew → Crew → Type 0
Untouched j s t =
    (find j t.controllers ≡ find j s.controllers)
    × (keep (is_assignment_of j) t.assignments ≡ keep (is_assignment_of j) s.assignments)

owned_row :
    (id user_id : ℕ) (role : Role) (rows : List ControllerRow) {r : ControllerRow}
    → own_controller id user_id role rows ≡ ok r
    → is_admin role ≡ false
    → (r.organizer_id == user_id) ≡ true
unfolding own_controller
owned_row id user_id role rows {r} h no_admin = ground (arith, h, no_admin)

-- Not the row of another organizer.
other_row :
    (id user_id : ℕ) (role : Role) (rows : List ControllerRow) {r c : ControllerRow} (j : ℕ)
    → own_controller id user_id role rows ≡ ok r
    → is_admin role ≡ false
    → find j rows ≡ some c
    → (c.organizer_id == user_id) ≡ false
    → (id == j) ≡ false
other_row id user_id role rows {r} {c} j h no_admin found foreign = elim (Bool-cases (id == j)) [
  | inl same ↦
      let r_is_c =
        find_same j rows
          (subst (λ k. find k rows ≡ some r) (==→eq id j same)
            (own_controller-ok id user_id role rows h))
          found in
      let own = ap (λ (x : ControllerRow). x.organizer_id == user_id) r_is_c in
      ground (arith, sym own ∙ owned_row id user_id role rows h no_admin, foreign)
  | inr other ↦ other
]

find-keep_other :
    (id j : ℕ) (rows : List ControllerRow)
    → (id == j) ≡ false
    → find j (keep (λ (c : ControllerRow). not (c.id == id)) rows) ≡ find j rows
unfolding find keep
find-keep_other id j [] h = refl
find-keep_other id j (r ∷ rs) h = ground (arith, h, find-keep_other id j rs h)

keep-is_not_of :
    (id j : ℕ) (rows : List Assignment)
    → (id == j) ≡ false
    → keep (is_assignment_of j) (keep (is_not_of id) rows) ≡ keep (is_assignment_of j) rows
unfolding keep is_not_of
keep-is_not_of id j [] h = refl
keep-is_not_of id j (a ∷ rest) h = ground (arith, h, keep-is_not_of id j rest h)

keep-unassigned :
    (id event_id j : ℕ) (rows : List Assignment)
    → (id == j) ≡ false
    → keep (is_assignment_of j) (keep (λ a. not (is_assigned id event_id a)) rows)
      ≡ keep (is_assignment_of j) rows
unfolding keep is_assigned
keep-unassigned id event_id j [] h = refl
keep-unassigned id event_id j (a ∷ rest) h = ground (arith, h, keep-unassigned id event_id j rest h)

keep-assigned :
    (id event_id j : ℕ) (rows : List Assignment)
    → (id == j) ≡ false
    → keep (is_assignment_of j) (rows ++ record { controller_id = id; event_id = event_id } ∷ [])
      ≡ keep (is_assignment_of j) rows
unfolding keep
keep-assigned id event_id j [] h = ground (arith, h)
keep-assigned id event_id j (a ∷ rest) h = ground (arith, h, keep-assigned id event_id j rest h)

updated_other :
    (id j : ℕ) (f : ControllerRow → ControllerRow) (rows : List ControllerRow)
    → ((r : ControllerRow) → (f r).id ≡ r.id)
    → (id == j) ≡ false
    → find j (update id f rows) ≡ find j rows
updated_other id j f rows same_id other = rw (find-update id j f rows same_id) (rw other refl)

deleted_other :
    (scans : ℕ → ℕ) (id user_id : ℕ) (role : Role) (j : ℕ) (s : Crew) {t : Crew}
    → delete_controller scans id user_id role s ≡ ok t
    → (id == j) ≡ false
    → Untouched j s t
unfolding delete_controller
deleted_other scans id user_id role j s h other =
    let (_, _, e) = >>=-eq-ok (own_controller id user_id role s.controllers) _ h in
    rw (← ok-injective e) (
      (
        elim (ltb 0 (scans id))
            as (λ b.
              find j (
                if b
                then update id set_retired s.controllers
                else keep (λ (c : ControllerRow). not (c.id == id)) s.controllers)
              ≡ find j s.controllers) [
                | true ↦ updated_other id j set_retired s.controllers (λ r. refl) other
                | false ↦ find-keep_other id j s.controllers other
              ],
        keep-is_not_of id j s.assignments other,
      ))

own_of_delete :
    (scans : ℕ → ℕ) (id user_id : ℕ) (role : Role) (s : Crew) {t : Crew}
    → delete_controller scans id user_id role s ≡ ok t
    → (c : ControllerRow) × (own_controller id user_id role s.controllers ≡ ok c)
unfolding delete_controller
own_of_delete scans id user_id role s h =
    let (c, owned, _) = >>=-eq-ok (own_controller id user_id role s.controllers) _ h in (c, owned)

-- A signed-in user who is no admin leaves the controllers of other organizers, and the events
-- that these are assigned to, as they are, whatever operation on a controller goes through.
pub Change-Untouched :
    (user_id : ℕ) (role : Role) {s t : Crew} (j : ℕ) {c : ControllerRow}
    → is_admin role ≡ false
    → find j s.controllers ≡ some c
    → (c.organizer_id == user_id) ≡ false
    → Change user_id role s t
    → Untouched j s t
unfolding switch_controller assign_event unassign_event
Change-Untouched user_id role {s} j no_admin found foreign (switched plan_of id active h) =
    let (c, owned, h1) = >>=-eq-ok (own_controller id user_id role s.controllers) _ h in
    let (_, _, e) = >>=-eq-ok (check_place plan_of active c s) _ h1 in
    let other = other_row id user_id role s.controllers j owned no_admin found foreign in
    rw (← ok-injective e)
      (updated_other id j (set_active active) s.controllers (λ r. refl) other, refl)
Change-Untouched user_id role {s} j no_admin found foreign (deleted scans id h) =
    let (_, owned) = own_of_delete scans id user_id role s h in
    deleted_other scans id user_id role j s h
      (other_row id user_id role s.controllers j owned no_admin found foreign)
Change-Untouched user_id role {s} j no_admin found foreign (assigned id event_id h) =
    let (_, owned, h1) = >>=-eq-ok (own_controller id user_id role s.controllers) _ h in
    let (e, _, h2) = >>=-eq-ok (or_throw (find event_id s.events) event_not_found) _ h1 in
    let (_, _, h3) =
      >>=-eq-ok (guard (is_admin role || e.organizer_id == user_id) event_of_other) _ h2 in
    let (_, _, done) =
      >>=-eq-ok (guard (not (any (is_assigned id event_id) s.assignments)) already_assigned) _ h3 in
    let other = other_row id user_id role s.controllers j owned no_admin found foreign in
    rw (← ok-injective done) (refl, keep-assigned id event_id j s.assignments other)
Change-Untouched user_id role {s} j no_admin found foreign (unassigned id event_id h) =
    let (_, owned, e) = >>=-eq-ok (own_controller id user_id role s.controllers) _ h in
    let other = other_row id user_id role s.controllers j owned no_admin found foreign in
    rw (← ok-injective e) (refl, keep-unassigned id event_id j s.assignments other)
