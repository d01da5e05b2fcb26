-- ===== src/Tickets/Cancel.antt =====
-- Cancellation (cancelTicket, bulkCancelTickets), the organizer's bulk change of status
-- (bulkStatusUpdate) and the count of countValidTickets.
use ticketing_platform.Prelude.{
  List, Result, [], count_where, err, find, guard, if◌then◌else◌, not, ok, or_throw, some, update,
  ℕ, ◌&&◌, ◌++◌, ◌+◌, ◌==◌, ◌>>=◌, ◌>>◌, ◌||◌, ◌∷◌,
}
use ticketing_platform.Access.{Event, Role, access_denied, event_keyed, event_not_found, is_admin}
use ticketing_platform.PrintQuota.{account_keyed}
use ticketing_platform.Tickets.{
  Template, Ticket, TicketError, TicketStatus, Ticketing, access, already_cancelled, already_used,
  cancelled, is_cancelled, is_open, is_used, record_not_found, template_keyed, ticket_keyed,
  ticket_not_found,
}

-- The owner check that each ticket service makes on the ticket's event.
unfoldable pub may_act : List Event → ℕ → Role → Ticket → Result TicketError (Unit {0})
may_act events user_id role t = do
  event ← or_throw (find t.event_id events) (access event_not_found)
  guard (is_admin role || event.organizer_id == user_id) (access access_denied)

-- The part of cancelTicket before its writes: the ticket as it was read.
unfoldable pub check_cancel : ℕ → ℕ → Role → Ticketing → Result TicketError Ticket
check_cancel ticket_id organizer_id role s = do
  ticket ← or_throw (find ticket_id s.tickets) ticket_not_found
  may_act s.events organizer_id role ticket
  guard (not (is_cancelled ticket.status)) already_cancelled
  guard (not (is_used ticket.status)) already_used
  ok ticket

abbrev pub set_cancelled : ℕ → Ticket → Ticket
set_cancelled now t = record t { status = cancelled; cancelled_at = some now }

abbrev pub free_seat : Template → Template
free_seat t = record t { available_count = t.available_count + 1 }

-- The second write: the seat goes back if the ticket was open when it was read. (A template cannot
-- be deleted while it has tickets, so this write does not fail after the first.)
unfoldable pub free_ticket_seat : Ticket → List Template → Result TicketError (List Template)
free_ticket_seat ticket templates =
    if is_open ticket.status
    then (or_throw (find ticket.template_id templates) record_not_found >>= λ t.
        ok (update ticket.template_id free_seat templates))
    else ok templates

-- The writes of cancelTicket.
unfoldable pub commit_cancel : Ticket → ℕ → Ticketing → Result TicketError Ticketing
commit_cancel ticket now s = do
  or_throw (find ticket.id s.tickets) record_not_found
  templates ← free_ticket_seat ticket s.templates
  ok (record s { tickets = update ticket.id (set_cancelled now) s.tickets; templates = templates })

-- `cancelTicket` when no other request comes between its read and its writes.
unfoldable pub cancel_ticket : ℕ → ℕ → Role → ℕ → Ticketing → Result TicketError Ticketing
cancel_ticket ticket_id organizer_id role now s =
    check_cancel ticket_id organizer_id role s >>= λ ticket. commit_cancel ticket now s

pub record BulkResult : Type 0 where
  pub done : ℕ
  pub failed : ℕ
  pub errors : List (ℕ × TicketError)

abbrev pub count_done : BulkResult → BulkResult
count_done r = record r { done = r.done + 1 }

abbrev pub count_failed : ℕ → TicketError → BulkResult → BulkResult
count_failed ticket_id e r = record r {
  failed = r.failed + 1;
  errors = r.errors ++ (ticket_id, e) ∷ [];
}

-- for (const ticketId of ticketIds) try { … } catch (err) { … }
unfoldable pub bulk_loop :
    (ℕ → Ticketing → Result TicketError Ticketing)
    → List ℕ
    → BulkResult
    → Ticketing
    → Ticketing × BulkResult
bulk_loop act [] r s = (s, r)
bulk_loop act (i ∷ is) r s = elim (act i s) [
  | ok after ↦ bulk_loop act is (count_done r) after
  | err e ↦ bulk_loop act is (count_failed i e r) s
]

abbrev pub no_results : BulkResult
no_results = record { done = 0; failed = 0; errors = [] }

unfoldable pub bulk_cancel_tickets : List ℕ → ℕ → Role → ℕ → Ticketing → Ticketing × BulkResult
bulk_cancel_tickets ticket_ids organizer_id role now =
    bulk_loop (λ i. cancel_ticket i organizer_id role now) ticket_ids no_results

abbrev pub set_status : TicketStatus → ℕ → Ticket → Ticket
set_status status now t = record t {
  status = status;
  cancelled_at = if is_cancelled status then some now else t.cancelled_at;
  checked_in_at = if is_used status then some now else t.checked_in_at;
}

-- One round of bulkStatusUpdate.
unfoldable pub update_status :
    TicketStatus → ℕ → Role → ℕ → ℕ → Ticketing → Result TicketError Ticketing
update_status status requester_id role now ticket_id s = do
  ticket ← or_throw (find ticket_id s.tickets) ticket_not_found
  may_act s.events requester_id role ticket
  ok (record s { tickets = update ticket_id (set_status status now) s.tickets })

unfoldable pub bulk_status_update :
    List ℕ → TicketStatus → ℕ → Role → ℕ → Ticketing → Ticketing × BulkResult
bulk_status_update ticket_ids status requester_id role now =
    bulk_loop (update_status status requester_id role now) ticket_ids no_results

-- where: { eventId, status: { not: 'CANCELLED' } }
unfoldable pub count_valid_tickets : ℕ → Ticketing → ℕ
count_valid_tickets event_id s =
    count_where (λ t. t.event_id == event_id && not (is_cancelled t.status)) s.tickets
