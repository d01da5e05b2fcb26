-- ===== src/Payments/Freed.antt =====
-- The seats that a refund frees.
use ticketing_platform.Payments.Refunding.{cancel_all, cancel_issued, refundable}
use ticketing_platform.Payments.{payment_keyed, record_not_found, refund_keyed}
use ticketing_platform.Tickets.Seats.{closed_seat, left-free, seat_of, seats, taken}
use ticketing_platform.Tickets.Cancel.{set_cancelled}
use ticketing_platform.Tickets.{
  Ticket, TicketStatus, Ticketing, is_open, is_used, record_not_found, template_keyed, ticket_keyed,
}
use ticketing_platform.Shop.{order_keyed, record_not_found, variant_keyed}
use ticketing_platform.Access.{event_keyed}
use ticketing_platform.Prelude.{
  >>=-eq-ok, All, Distinct, List, [], ap, arith, false, find, find-update, if◌then◌else◌, keep,
  keep-Distinct, keep-found, none, ok, ok-injective, or_throw, or_throw-eq-ok, refl, some, subst,
  sum_by-update, sym, true, update, ℕ, ◌==◌, ◌∙◌, ◌∷◌, ◌≡◌,
}

-- A ticket as the transaction reads it: its row, which is open.
abbrev IsRead : List Ticket → Ticket → Type 0
IsRead rows t = (find t.id rows ≡ some t) × (is_open t.status ≡ true)

open_only : (a : TicketStatus) → is_open a ≡ true → is_used a ≡ false
unfolding is_open is_used
open_only a h = ground arith

cancel_issued-seats :
    (i now : ℕ) (t : Ticket) (s : Ticketing) {after : Ticketing}
    → IsRead s.tickets t
    → cancel_issued now t s ≡ ok after
    → (seats i after ≡ seats i s) × (after.tickets ≡ update t.id (set_cancelled now) s.tickets)
unfolding cancel_issued seats taken
cancel_issued-seats i now t s (found, open_one) h =
    let (_, _, h1) = >>=-eq-ok (or_throw (find t.id s.tickets) record_not_found) _ h in
    let (template, hit, e) =
      >>=-eq-ok (or_throw (find t.template_id s.templates) record_not_found) _ h1 in
    rw (← ok-injective e) (
      omega (
        arith,
        left-free i t.template_id s.templates
            (or_throw-eq-ok (find t.template_id s.templates) record_not_found hit),
        sum_by-update (seat_of i) t.id (set_cancelled now) s.tickets found,
        closed_seat i now t (open_only t.status open_one),
        ap {B = ℕ} (λ b. if b then if t.template_id == i then 1 else 0 else 0) open_one,
      ),
      refl,
    )

still-IsRead :
    (now : ℕ) (t : Ticket) (ts rows : List Ticket)
    → find t.id ts ≡ none
    → All (IsRead rows) ts
    → All (IsRead (update t.id (set_cancelled now) rows)) ts
unfolding find
still-IsRead now t [] rows new all = tt
still-IsRead now t (x ∷ ts) rows new all =
    ground (
      arith,
      find-update t.id x.id (set_cancelled now) rows (λ r. refl),
      still-IsRead now t ts rows,
    )

cancel_all-seats :
    (i now : ℕ) (ts : List Ticket) (s : Ticketing) {after : Ticketing}
    → Distinct ts
    → All (IsRead s.tickets) ts
    → cancel_all now ts s ≡ ok after
    → seats i after ≡ seats i s
unfolding cancel_all
cancel_all-seats i now [] s d all h = ap (seats i) (sym (ok-injective h))
cancel_all-seats i now (t ∷ ts) s d all h =
    let (mid, first, rest) = >>=-eq-ok (cancel_issued now t s) (cancel_all now ts) h in
    let (same, rows) = cancel_issued-seats i now t s all.0 first in
    cancel_all-seats i now ts mid d.1
      (subst (λ r. All (IsRead r) ts) (sym rows) (still-IsRead now t ts s.tickets d.0 all.1)) rest
    ∙ same

keep-open :
    (ids : List ℕ) (rows : List Ticket)
    → All (λ t. is_open t.status ≡ true) (keep (refundable ids) rows)
unfolding keep refundable
keep-open ids [] = tt
keep-open ids (x ∷ rows) = ground (arith, keep-open ids rows)

zip_reads :
    (all ts : List Ticket)
    → All (λ t. find t.id all ≡ some t) ts
    → All (λ t. is_open t.status ≡ true) ts
    → All (IsRead all) ts
zip_reads all [] f o = tt
zip_reads all (t ∷ ts) f o = ((f.0, o.0), zip_reads all ts f.1 o.1)

pub returned-seats :
    (i now : ℕ) (ids : List ℕ) (s : Ticketing) {after : Ticketing}
    → Distinct s.tickets
    → cancel_all now (keep (refundable ids) s.tickets) s ≡ ok after
    → seats i after ≡ seats i s
returned-seats i now ids s d h =
    let picked = keep (refundable ids) s.tickets in
    cancel_all-seats i now picked s (keep-Distinct (refundable ids) s.tickets d)
      (zip_reads s.tickets picked (keep-found (refundable ids) s.tickets d)
        (keep-open ids s.tickets))
      h
