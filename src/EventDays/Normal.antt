-- ===== src/EventDays/Normal.antt =====
-- The cleaned validity days of a tariff (normalizeValidDays).
use ticketing_platform.Prelude.{
  All, List, [], arith, err, false, includes, ok, refl, some, subst, suc, true, ℕ, ◌==◌, ◌||◌, ◌∷◌,
  ◌≡◌, ◌≤◌,
}
use ticketing_platform.EventDays.{
  EventDaysError, insert_day, normalize_valid_days, outside, outside_event, refuse_outside,
  sorted_set,
}

-- Every day is later than the bound, and than the days before it.
abbrev pub IsRising : ℕ → List ℕ → Type 0
IsRising n [] = Unit {0}
IsRising n (d ∷ ds) = (n ≤ d) × IsRising (suc d) ds

insert_day-IsRising : (n d : ℕ) (ds : List ℕ) → n ≤ d → IsRising n ds → IsRising n (insert_day d ds)
unfolding insert_day
insert_day-IsRising n d [] h r = (h, tt)
insert_day-IsRising n d (x ∷ xs) h r = ground (arith, insert_day-IsRising (suc x) d xs)

sorted_set-IsRising : (ds : List ℕ) → IsRising 0 (sorted_set ds)
unfolding sorted_set
sorted_set-IsRising [] = tt
sorted_set-IsRising (d ∷ ds) =
    insert_day-IsRising 0 d (sorted_set ds) (omega arith) (sorted_set-IsRising ds)

includes-insert_day :
    (d e : ℕ) (ds : List ℕ) → includes e (insert_day d ds) ≡ (d == e || includes e ds)
unfolding includes insert_day
includes-insert_day d e [] = refl
includes-insert_day d e (x ∷ xs) = ground (arith, includes-insert_day d e xs)

includes-sorted_set : (e : ℕ) (ds : List ℕ) → includes e (sorted_set ds) ≡ includes e ds
unfolding includes sorted_set
includes-sorted_set e [] = refl
includes-sorted_set e (d ∷ ds) =
    rw (includes-insert_day d e (sorted_set ds), includes-sorted_set e ds)

outside-nil :
    (allowed ds : List ℕ) → outside allowed ds ≡ [] → All (λ d. includes d allowed ≡ true) ds
unfolding outside
outside-nil allowed [] h = tt
outside-nil allowed (d ∷ ds) h = ground (arith, outside-nil allowed ds)

outside-cons :
    (allowed ds : List ℕ) {o : ℕ} {os : List ℕ}
    → outside allowed ds ≡ o ∷ os
    → (includes o ds ≡ true) × (includes o allowed ≡ false)
unfolding outside includes
outside-cons allowed [] h = cc
outside-cons allowed (d ∷ ds) {o} {os} h = ground (arith, outside-cons allowed ds {o = o} {os = os})

refuse_outside-ok :
    (clean out : List ℕ) {r : List ℕ} → refuse_outside clean out ≡ ok r → (out ≡ []) × (clean ≡ r)
unfolding refuse_outside
refuse_outside-ok clean [] h = ground arith
refuse_outside-ok clean (d ∷ ds) h = cc

-- Days that are accepted come back in rising order, each once, and all within the event, and they
-- are the days that were given.
pub normalize_valid_days-ok :
    (days allowed : List ℕ) {clean : List ℕ}
    → normalize_valid_days (some days) allowed ≡ ok clean
    → IsRising 0 clean
      × All (λ d. includes d allowed ≡ true) clean
      × ((d : ℕ) → includes d clean ≡ includes d days)
unfolding normalize_valid_days
normalize_valid_days-ok [] allowed {clean} h = ground (arith, λ (d : ℕ). h)
normalize_valid_days-ok (d ∷ ds) allowed {clean} h =
    let (none_out, e) =
      refuse_outside-ok (sorted_set (d ∷ ds)) (outside allowed (sorted_set (d ∷ ds))) h in
    subst
      (λ c.
        IsRising 0 c
        × All (λ d. includes d allowed ≡ true) c
        × ((x : ℕ) → includes x c ≡ includes x (d ∷ ds)))
      e
      (
        sorted_set-IsRising (d ∷ ds),
        outside-nil allowed (sorted_set (d ∷ ds)) none_out,
        λ x. includes-sorted_set x (d ∷ ds),
      )

refuse_outside-err :
    (clean out : List ℕ) {e : EventDaysError}
    → refuse_outside clean out ≡ err e
    → (o : ℕ) × (os : List ℕ) × (out ≡ o ∷ os) × (e ≡ outside_event (o ∷ os))
unfolding refuse_outside
refuse_outside-err clean [] h = cc
refuse_outside-err clean (d ∷ ds) h = (d, ds, refl, ground arith)

-- Days are refused only for one of them that lies outside the event, which the refusal names.
pub normalize_valid_days-err :
    (days allowed : List ℕ) {e : EventDaysError}
    → normalize_valid_days (some days) allowed ≡ err e
    → (o : ℕ) × (os : List ℕ) × (e ≡ outside_event (o ∷ os))
      × (includes o days ≡ true)
      × (includes o allowed ≡ false)
unfolding normalize_valid_days
normalize_valid_days-err [] allowed h = cc
normalize_valid_days-err (d ∷ ds) allowed h =
    let clean = sorted_set (d ∷ ds) in
    let (o, os, out, named) = refuse_outside-err clean (outside allowed clean) h in
    let (given, not_allowed) = outside-cons allowed clean out in
    (o, os, named, rw (← includes-sorted_set o (d ∷ ds)) given, not_allowed)
