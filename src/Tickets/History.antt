-- ===== src/Tickets/History.antt =====
-- The sequences of the writes of the ticket services.
use ticketing_platform.Prelude.{List, [], arith, length, ok, sum_by, update, ℕ, ◌∷◌, ◌≡◌, ◌≤◌}
use ticketing_platform.Access.{Role, event_keyed}
use ticketing_platform.PrintQuota.{account_keyed}
use ticketing_platform.Tickets.{Ticket, Ticketing, template_keyed, ticket_keyed}
use ticketing_platform.Tickets.Generation.{insert_batch}
use ticketing_platform.Tickets.Cancel.{cancel_ticket}
use ticketing_platform.Tickets.Seats.{
  AreSeatsOf, cancel_ticket-seats, insert_batch-seats, seat_of, seats, taken,
}

-- One write. A batch is inserted on its own, after checks that may have been made in any earlier
-- state; a change of a ticket's row that takes no new seat stands for the scans.
pub data Step : Ticketing → Ticketing → Type 0 where
  inserts :
      {s t : Ticketing} (template_id count : ℕ) (rows : List Ticket)
      → AreSeatsOf template_id rows
      → length rows ≡ count
      → insert_batch template_id count rows s ≡ ok t
      → Step s t
  cancels :
      {s t : Ticketing} (ticket_id organizer_id : ℕ) (role : Role) (now : ℕ)
      → cancel_ticket ticket_id organizer_id role now s ≡ ok t
      → Step s t
  changes :
      {s t : Ticketing} (ticket_id : ℕ) (f : Ticket → Ticket)
      → ((i : ℕ) (x : Ticket) → seat_of i (f x) ≤ seat_of i x)
      → t ≡ record s { tickets = update ticket_id f s.tickets }
      → Step s t

pub data Reach (s : Ticketing) : Ticketing → Type 0 where
  here : Reach s s
  next : {t u : Ticketing} → Reach s t → Step t u → Reach s u

taken-update-le :
    (i ticket_id : ℕ) (f : Ticket → Ticket) (rows : List Ticket)
    → ((x : Ticket) → seat_of i (f x) ≤ seat_of i x)
    → taken i (update ticket_id f rows) ≤ taken i rows
unfolding taken update sum_by
taken-update-le i ticket_id f [] h = omega arith
taken-update-le i ticket_id f (r ∷ rs) h = ground (arith, h r, taken-update-le i ticket_id f rs h)

Step-seats : (i : ℕ) {s t : Ticketing} → Step s t → seats i t ≤ seats i s
Step-seats i {s = s} (inserts template_id count rows are long h) =
    omega (arith, insert_batch-seats i template_id count rows s are long h)
Step-seats i {s = s} (cancels ticket_id organizer_id role now h) =
    omega (arith, cancel_ticket-seats i ticket_id organizer_id role now s h)
Step-seats i {s = s} (changes ticket_id f h e) =
    rw e (unfold seats in omega (arith, taken-update-le i ticket_id f s.tickets (h i)))

taken-le-seats : (i : ℕ) (s : Ticketing) → taken i s.tickets ≤ seats i s
unfolding seats
taken-le-seats i s = omega arith

-- In any sequence of batch insertions, whole cancellations and changes of a ticket that take no new
-- seat, the sum of the seats of a tariff that are left and of those that its tickets take never
-- grows; so its tickets never take more seats than there were at the start.
pub Reach-seats :
    (i : ℕ) {s t : Ticketing}
    → Reach s t
    → (seats i t ≤ seats i s) × (taken i t.tickets ≤ seats i s)
Reach-seats i {s = s} here = (omega arith, taken-le-seats i s)
Reach-seats i {t = u} (next r st) =
    let (fewer, _) = Reach-seats i r in
    let step = Step-seats i st in (omega arith, omega (arith, taken-le-seats i u))
