-- ===== src/Payments/FreeWindow.antt =====
-- The free tickets that an IP address takes in the 24 hours after its first.
use ticketing_platform.Payments.FreeTickets.{
  Contact, Counter, add_taken, by_ip, count_ip, count_of, counter_keyed, free_tickets_per_day,
  is_live, reserve_free_tickets, set_new, set_taken,
}
use ticketing_platform.Tickets.{Ticket, template_keyed, ticket_keyed}
use ticketing_platform.EventDays.{day_ms}
use ticketing_platform.Prelude.{
  ==_refl, All, List, Option, Result-cases, [], ap, arith, err, find, find-append_new, find-update,
  inl, inr, none, ok, refl, some, subst, ℕ, ◌+◌, ◌<◌, ◌∙◌, ◌∷◌, ◌≡◌, ◌≤◌, ◌⊎◌,
}

-- A call of reserveFreeTickets from one IP address, and the tickets in the table at that time.
pub record FreeCall : Type 0 where
  pub who : Contact
  pub quantity : ℕ
  pub now : ℕ
  pub tickets : List Ticket

-- The counters after a call, and the free tickets that it was granted.
unfoldable pub grant_free : (ℕ → Contact) → ℕ → FreeCall → List Counter → List Counter × ℕ
grant_free contact_of ip c counters =
    elim (reserve_free_tickets contact_of c.who (some ip) c.quantity c.now c.tickets counters) [
      | ok after ↦ (after, c.quantity)
      | err e ↦ (counters, 0)
    ]

-- Calls one after the other, and what they are granted together.
unfoldable pub grant_free_each : (ℕ → Contact) → ℕ → List FreeCall → List Counter → List Counter × ℕ
grant_free_each contact_of ip [] counters = (counters, 0)
grant_free_each contact_of ip (c ∷ cs) counters =
    let first = grant_free contact_of ip c counters in
    let rest = grant_free_each contact_of ip cs first.0 in (rest.0, first.1 + rest.1)

-- The counter of the address has so many, until an instant at least.
abbrev HasUntil : ℕ → ℕ → ℕ → List Counter → Type 0
HasUntil ip until taken counters =
    (c : Counter) × (expiry : ℕ) × (find ip counters ≡ some c)
    × (c.expires_at ≡ some expiry)
    × (until ≤ expiry)
    × (c.taken ≡ taken)

reserve-ok :
    (contact_of : ℕ → Contact) (who : Contact) (ip quantity now : ℕ) (tickets : List Ticket)
    (counters : List Counter) {after : List Counter}
    → reserve_free_tickets contact_of who (some ip) quantity now tickets counters ≡ ok after
    → ((quantity ≡ 0) × (after ≡ counters))
      ⊎ ((0 < quantity)
          × (count_of now (find ip counters) + quantity ≤ free_tickets_per_day)
          × (after ≡ add_taken ip quantity now counters (find ip counters)))
unfolding reserve_free_tickets by_ip count_ip
reserve-ok contact_of who ip quantity now tickets counters h = ground arith

live-count :
    (c : Counter) (now expiry : ℕ)
    → c.expires_at ≡ some expiry
    → now < expiry
    → count_of now (some c) ≡ c.taken
unfolding count_of is_live
live-count c now expiry e h = ground (arith, h, e)

added :
    (ip quantity now : ℕ) (counters : List Counter) (c : Counter)
    → find ip counters ≡ some c
    → quantity < count_of now (some c) + quantity
    → find ip (add_taken ip quantity now counters (some c))
      ≡ some (set_taken (count_of now (some c) + quantity) c)
unfolding add_taken
added ip quantity now counters c found more = ground (
  arith,
  found,
  more,
  ==_refl ip,
  find-update ip ip (set_taken (count_of now (some c) + quantity)) counters (λ x. refl),
)

-- A count that is added to keeps its expiry.
add_taken-HasUntil :
    (ip quantity now until taken : ℕ) (counters : List Counter)
    → now < until
    → 0 < taken
    → HasUntil ip until taken counters
    → HasUntil ip until (taken + quantity) (add_taken ip quantity now counters (find ip counters))
add_taken-HasUntil ip quantity now until taken counters before some_taken
      (c, expiry, found, expires, late, has) =
    let live = live-count c now expiry expires (omega (arith, before, late)) in
    let n = count_of now (some c) + quantity in
    let more : n ≡ taken + quantity = omega (arith, live, has) in
    (
      set_taken n c,
      expiry,
      ap (λ o. find ip (add_taken ip quantity now counters o)) found
          ∙ added ip quantity now counters c found (omega (arith, more, some_taken)),
      expires,
      late,
      more,
    )

-- The first count of a window.
opened-HasUntil :
    (ip quantity now : ℕ) (counters : List Counter) (c : Option Counter)
    → find ip counters ≡ c
    → count_of now c ≡ 0
    → HasUntil ip (now + day_ms) quantity (add_taken ip quantity now counters c)
unfolding add_taken
opened-HasUntil ip quantity now counters none h fresh =
    let row : Counter = record { ip = ip; taken = quantity; expires_at = some (now + day_ms) } in
    (row, now + day_ms, find-append_new counters row h, refl, omega arith, refl)
opened-HasUntil ip quantity now counters (some c) h fresh =
    let n = count_of now (some c) + quantity in
    (
      set_new n now c,
      now + day_ms,
      ground (arith, h, fresh, ==_refl ip, find-update ip ip (set_new n now) counters (λ x. refl)),
      refl,
      omega arith,
      omega (arith, fresh),
    )

grant_free-HasUntil :
    (contact_of : ℕ → Contact) (ip until taken : ℕ) (c : FreeCall) (counters : List Counter)
    → c.now < until
    → 0 < taken
    → taken ≤ free_tickets_per_day
    → HasUntil ip until taken counters
    → let (after, granted) = grant_free contact_of ip c counters in
      HasUntil ip until (taken + granted) after × (taken + granted ≤ free_tickets_per_day)
unfolding grant_free
grant_free-HasUntil contact_of ip until taken c counters before some_taken most held =
    let reply =
      reserve_free_tickets contact_of c.who (some ip) c.quantity c.now c.tickets counters in
    elim (Result-cases reply) [
      | inl (after, h) ↦
          rw (h, grant_free)
            (elim (reserve-ok contact_of c.who ip c.quantity c.now c.tickets counters h) [
              | inl (nothing, same) ↦
                  rw (nothing, same)
                    (
                      subst (λ n. HasUntil ip until n counters) (omega arith) held,
                      omega (arith, most),
                    )
              | inr (some_asked, enough, e) ↦
                  let (row, expiry, found, expires, late, has) = held in
                  (
                    rw e (
                        add_taken-HasUntil ip c.quantity c.now until taken counters before
                          some_taken held),
                    omega (
                      arith,
                      enough,
                      ap (count_of c.now) found,
                      live-count row c.now expiry expires (omega (arith, before, late)),
                      has,
                    ),
                  )
            ])
      | inr (e, h) ↦
          rw (h, grant_free)
            (subst (λ n. HasUntil ip until n counters) (omega arith) held, omega (arith, most))
    ]

open_window-bound :
    (contact_of : ℕ → Contact) (ip until : ℕ) (calls : List FreeCall) (taken : ℕ)
    (counters : List Counter)
    → All (λ (c : FreeCall). c.now < until) calls
    → 0 < taken
    → taken ≤ free_tickets_per_day
    → HasUntil ip until taken counters
    → taken + (grant_free_each contact_of ip calls counters).1 ≤ free_tickets_per_day
unfolding grant_free_each
open_window-bound contact_of ip until [] taken counters within some_taken most held =
    omega (arith, most)
open_window-bound contact_of ip until (c ∷ cs) taken counters within some_taken most held =
    let (kept, less) =
      grant_free-HasUntil contact_of ip until taken c counters within.0 some_taken most held in
    omega (
      arith,
      open_window-bound contact_of ip until cs _ _ within.1 (omega (arith, some_taken)) less kept,
    )

-- No free ticket is counted for the address from an instant on.
abbrev pub IsFresh : ℕ → ℕ → List Counter → Type 0
IsFresh ip start counters = (t : ℕ) → start ≤ t → count_of t (find ip counters) ≡ 0

-- The instants of the calls are within 24 hours from one.
abbrev pub AreWithinDay : ℕ → List FreeCall → Type 0
AreWithinDay start calls =
    All (λ (c : FreeCall). start ≤ c.now) calls
    × All (λ (c : FreeCall). c.now < start + day_ms) calls

later_window :
    (start now : ℕ) (calls : List FreeCall)
    → start ≤ now
    → All (λ (c : FreeCall). c.now < start + day_ms) calls
    → All (λ (c : FreeCall). c.now < now + day_ms) calls
later_window start now [] h within = tt
later_window start now (c ∷ cs) h within =
    (omega (arith, h, within.0), later_window start now cs h within.1)

-- Where no free ticket is counted for an IP address from an instant on, the calls from the address
-- in the 24 hours that follow, one after the other, for any persons and quantities, are granted at
-- most five free tickets together.
pub free_window-bound :
    (contact_of : ℕ → Contact) (ip start : ℕ) (calls : List FreeCall) (counters : List Counter)
    → IsFresh ip start counters
    → AreWithinDay start calls
    → (grant_free_each contact_of ip calls counters).1 ≤ free_tickets_per_day
unfolding grant_free_each grant_free
free_window-bound contact_of ip start [] counters fresh within = omega arith
free_window-bound contact_of ip start (c ∷ cs) counters fresh within =
    let rest = free_window-bound contact_of ip start cs counters fresh (within.0.1, within.1.1) in
    let reply =
      reserve_free_tickets contact_of c.who (some ip) c.quantity c.now c.tickets counters in
    elim (Result-cases reply) [
      | inl (after, h) ↦
          rw (h, grant_free_each, grant_free)
            (elim (reserve-ok contact_of c.who ip c.quantity c.now c.tickets counters h) [
              | inl (nothing, same) ↦ rw (nothing, same) (omega (arith, rest))
              | inr (some_asked, enough, e) ↦ rw e (
                  open_window-bound contact_of ip (c.now + day_ms) cs c.quantity _
                    (later_window start c.now cs within.0.0 within.1.1) some_asked
                    (omega (arith, enough))
                    (opened-HasUntil ip c.quantity c.now counters (find ip counters) refl
                      (fresh c.now within.0.0)))
            ])
      | inr (e, h) ↦ rw (h, grant_free_each, grant_free) (omega (arith, rest))
    ]
