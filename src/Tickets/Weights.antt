-- ===== src/Tickets/Weights.antt =====
-- The seats that the rows of a table put on a day of an event.
use ticketing_platform.Prelude.{
  ==_refl, All, Bool, Bool-cases, Distinct, List, [], arith, find, if◌then◌else◌, keep, none, not,
  refl, some, sum_by, sum_by-update, true, update, ℕ, ◌++◌, ◌+◌, ◌==◌, ◌∷◌, ◌≡◌, ◌≤◌,
}
use ticketing_platform.Access.{event_keyed}
use ticketing_platform.EventDays.{Tariff, seats_on, valid_on}
use ticketing_platform.Tickets.{Template, template_keyed, ticket_keyed}
use ticketing_platform.Tickets.Tariffs.{same_days, tariff_of, tariffs_of}

-- The seats that a tariff puts on a day of an event.
unfoldable pub weight : ℕ → ℕ → Template → ℕ
weight day event_id t =
    if t.event_id == event_id then (if valid_on day (tariff_of t) then t.quantity else 0) else 0

pub seats_on-sum :
    (day event_id : ℕ) (rows : List Template)
    → seats_on day (tariffs_of event_id rows) ≡ sum_by (weight day event_id) rows
unfolding seats_on tariffs_of keep sum_by weight
seats_on-sum day event_id [] = refl
seats_on-sum day event_id (t ∷ rows) =
    ground (arith, seats_on-sum day event_id rows, Bool-cases (valid_on day (tariff_of t)))

pub seats_on-append :
    (day : ℕ) (ts : List Tariff) (t : Tariff)
    → seats_on day (ts ++ t ∷ []) ≡ seats_on day ts + (if valid_on day t then t.quantity else 0)
unfolding seats_on keep sum_by
seats_on-append day [] t = ground (arith, Bool-cases (valid_on day t))
seats_on-append day (x ∷ ts) t =
    ground (arith, seats_on-append day ts t, Bool-cases (valid_on day x))

pub keep_others :
    (i : ℕ) (rows : List Template) → find i rows ≡ none → keep (λ x. not (x.id == i)) rows ≡ rows
unfolding keep find
keep_others i [] h = refl
keep_others i (x ∷ rows) h = ground (arith, keep_others i rows)

pub sum_by-others :
    (w : Template → ℕ) (i : ℕ) (rows : List Template) {r : Template}
    → Distinct rows
    → find i rows ≡ some r
    → sum_by w (keep (λ x. not (x.id == i)) rows) + w r ≡ sum_by w rows
unfolding keep find sum_by
sum_by-others w i [] d h = cc
sum_by-others w i (x ∷ rows) {r} d h =
    ground (arith, keep_others i rows, sum_by-others w i rows {r = r} d.1)

pub same_days-eq : (xs ys : List ℕ) → same_days xs ys ≡ true → xs ≡ ys
unfolding same_days
same_days-eq [] [] h = refl
same_days-eq [] (y ∷ ys) h = cc
same_days-eq (x ∷ xs) [] h = cc
same_days-eq (x ∷ xs) (y ∷ ys) h = ground (arith, same_days-eq xs ys)

pub All-below :
    (f g : ℕ → ℕ) (c : ℕ) (ds : List ℕ)
    → ((d : ℕ) → g d ≤ f d)
    → All (λ d. f d ≤ c) ds
    → All (λ d. g d ≤ c) ds
All-below f g c [] h a = tt
All-below f g c (d ∷ ds) h a = (omega (arith, h d, a.0), All-below f g c ds h a.1)

pub sum_by-keep {ℓ} :
    {A : Type ℓ} (w : A → ℕ) (p : A → Bool) (xs : List A) → sum_by w (keep p xs) ≤ sum_by w xs
unfolding keep sum_by
sum_by-keep w p [] = omega arith
sum_by-keep w p (x ∷ xs) = ground (arith, sum_by-keep w p xs)

-- A change that leaves the weight of the row leaves the seats.
pub update-same :
    (day event_id i : ℕ) (f : Template → Template) (rows : List Template) {t : Template}
    → find i rows ≡ some t
    → weight day event_id (f t) ≡ weight day event_id t
    → seats_on day (tariffs_of event_id (update i f rows)) ≤ seats_on day (tariffs_of event_id rows)
update-same day event_id i f rows found same = omega (
  arith,
  seats_on-sum day event_id rows,
  seats_on-sum day event_id (update i f rows),
  sum_by-update (weight day event_id) i f rows found,
  same,
)

-- A changed row counts as a new one beside the others.
pub update-added :
    (day i : ℕ) (f : Template → Template) (rows : List Template) {t : Template}
    → Distinct rows
    → find i rows ≡ some t
    → seats_on day (tariffs_of (f t).event_id (update i f rows))
      ≤ seats_on day
          (tariffs_of (f t).event_id (keep (λ x. not (x.id == i)) rows) ++ tariff_of (f t) ∷ [])
update-added day i f rows {t} d found =
    let event_id = (f t).event_id in
    let own : weight day event_id (f t)
        ≡ (if valid_on day (tariff_of (f t)) then (f t).quantity else 0) =
      unfold weight in ground (arith, ==_refl event_id) in
    omega (
      arith,
      own,
      seats_on-sum day event_id (update i f rows),
      seats_on-append day (tariffs_of event_id (keep (λ x. not (x.id == i)) rows))
          (tariff_of (f t)),
      seats_on-sum day event_id (keep (λ x. not (x.id == i)) rows),
      sum_by-others (weight day event_id) i rows d found,
      sum_by-update (weight day event_id) i f rows found,
    )
