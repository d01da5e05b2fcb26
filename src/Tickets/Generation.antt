-- ===== src/Tickets/Generation.antt =====
-- TicketGenerationService.generateTickets: the checks, the print quota, the rows of the batch, and
-- the transaction that takes the seats.
use ticketing_platform.Prelude.{
  Bool, List, Option, Result, [], claim, count_where, err, false, find, guard, if◌then◌else◌, leb,
  length, none, not, ok, or_throw, some, suc, true, zero, ℕ, ◌&&◌, ◌++◌, ◌+◌, ◌-◌, ◌==◌, ◌>>=◌,
  ◌>>◌, ◌∷◌,
}
use ticketing_platform.Access.{Event, EventStatus, Role, assert_owner, event_keyed}
use ticketing_platform.PrintQuota.{
  Account, Plan, account_keyed, consume_print, refund_credits, tickets,
}
use ticketing_platform.Tickets.{
  Template, Ticket, TicketError, TicketSource, Ticketing, access, event_cancelled, is_online,
  no_signature, no_tickets, not_available, print, sold_out, template_keyed, template_not_found,
  template_of_other_event, ticket_keyed, valid,
}

-- What the code around it gives: identifiers (randomUUID), the code of an event in a year, the six
-- characters of a template's identifier, and whether the organizer's key signs the tickets.
pub record Codes : Type 0 where
  pub new_id : ℕ → ℕ
  pub event_code : ℕ
  pub template_code : ℕ → ℕ
  -- The key pair is found or made, its private key decrypts (decryptAES) and signs (signTicket); where
  -- it does not, the code throws.
  pub can_sign : ℕ → Bool

pub record GenerateDto : Type 0 where
  pub template_id : ℕ
  pub count : ℕ
  -- The rows with a name that is not blank: the others are dropped first.
  pub holders : List ℕ

-- const count = holders.length ? holders.length : (dto.count ?? 0)
unfoldable pub batch_count : GenerateDto → ℕ
batch_count dto = if length dto.holders == 0 then dto.count else length dto.holders

unfoldable pub is_event_cancelled : EventStatus → Bool
is_event_cancelled EventStatus.cancelled = true
is_event_cancelled _ = false

unfoldable pub find_event : Ticketing → ℕ → ℕ → Role → Result TicketError Event
find_event s event_id organizer_id role = elim (assert_owner s.events event_id organizer_id role) [
  | ok event ↦ ok event
  | err e ↦ err (access e)
]

-- The template belongs to the event and has enough seats for the number of tickets asked for.
unfoldable pub check_seats : ℕ → GenerateDto → Template → Result TicketError ℕ
check_seats event_id dto template = do
  guard (template.event_id == event_id) template_of_other_event
  guard (not (batch_count dto == 0)) no_tickets
  guard (leb (batch_count dto) template.available_count) (not_available template.available_count)
  ok (batch_count dto)

-- Everything before the print quota: the event, the template and the number of tickets.
unfoldable pub check_batch :
    Ticketing → ℕ → ℕ → Role → GenerateDto → Result TicketError (Event × Template × ℕ)
check_batch s event_id organizer_id role dto = do
  event ← find_event s event_id organizer_id role
  guard (not (is_event_cancelled event.status)) event_cancelled
  template ← or_throw (find dto.template_id s.templates) template_not_found
  count ← check_seats event_id dto template
  ok (event, template, count)

-- Tickets that count against the quota, of one event (`perEvent`) or since an instant.
unfoldable pub counts_since : List Event → ℕ → Option ℕ → ℕ → Ticket → Bool
counts_since events organizer_id event_id since t =
    not (is_online t.source) && elim (find t.event_id events) [
      | none ↦ false
      | some e ↦
          e.organizer_id == organizer_id
          && elim event_id [ none ↦ leb since t.created_at | some i ↦ t.event_id == i ]
    ]

-- The rows of a batch, numbered on from the tickets that the template already has.
unfoldable pub batch_rows : Codes → Template → ℕ → TicketSource → Option ℕ → ℕ → ℕ → ℕ → List Ticket
batch_rows codes template event_id source price now sequence zero = []
batch_rows codes template event_id source price now sequence (suc count) =
    record {
      id = codes.new_id sequence;
      serial_number = record {
        event_code = codes.event_code;
        template_code = codes.template_code template.id;
        sequence = sequence;
      };
      event_id = event_id;
      template_id = template.id;
      status = valid;
      price = elim price [ none ↦ template.price | some p ↦ p ];
      source = source;
      created_at = now;
      checked_in_at = none;
      cancelled_at = none;
    }
    ∷ batch_rows codes template event_id source price now (sequence + 1) count

-- ticket.count({ where: { eventId, templateId } })
unfoldable pub existing_count : ℕ → ℕ → List Ticket → ℕ
existing_count event_id template_id =
    count_where (λ t. t.event_id == event_id && t.template_id == template_id)

abbrev pub take_seats : ℕ → Template → Template
take_seats count t = record t { available_count = t.available_count - count }

-- The transaction: the seats are taken only if enough are left, and the rows are inserted.
unfoldable pub insert_batch : ℕ → ℕ → List Ticket → Ticketing → Result TicketError Ticketing
insert_batch template_id count rows s = do
  templates ←
      or_throw (claim template_id (λ t. leb count t.available_count) (take_seats count) s.templates)
        sold_out
  ok (record s { templates = templates; tickets = s.tickets ++ rows })

-- What of the credits a source takes: online sales and registrations take none.
unfoldable pub pay_prints :
    TicketSource → Plan → ℕ → List Account → ℕ → ℕ → Result TicketError (List Account × ℕ)
pay_prints source plan printed accounts organizer_id count =
    if is_online source
    then ok (accounts, 0)
    else elim (consume_print tickets plan printed accounts organizer_id count) [
      | ok paid ↦ ok paid
      | err e ↦ err (print e)
    ]

-- The end of generateTickets: where the transaction fails the credits are given back. `s` is the
-- state at the time of the transaction.
unfoldable pub finish_batch :
    ℕ → ℕ → ℕ → ℕ → List Ticket → Ticketing → Ticketing × Result TicketError (List Ticket)
finish_batch template_id organizer_id count credits_taken rows s =
    elim (insert_batch template_id count rows s) [
      | ok after ↦ (after, ok rows)
      | err e ↦ (
        record s { accounts = refund_credits tickets organizer_id credits_taken s.accounts },
        err e,
      )
    ]

-- After consumePrint: the key pair, the signed rows of the batch, and the transaction. Where the key
-- does not sign, nothing gives the credits back. The key pairs are not a table here.
unfoldable pub sign_batch :
    Codes → ℕ → ℕ → ℕ → ℕ → List Ticket → Ticketing → Ticketing × Result TicketError (List Ticket)
sign_batch codes template_id organizer_id count credits_taken rows s =
    if codes.can_sign organizer_id
    then finish_batch template_id organizer_id count credits_taken rows s
    else (s, err no_signature)

-- `generateTickets` when no other request comes in between. `printed` is the number of tickets that
-- count against the plan (printedCount).
unfoldable pub generate_tickets :
    Codes
    → Plan
    → ℕ
    → ℕ
    → ℕ
    → Role
    → GenerateDto
    → TicketSource
    → Option ℕ
    → ℕ
    → Ticketing
    → Ticketing × Result TicketError (List Ticket)
generate_tickets codes plan printed event_id organizer_id role dto source price now s =
    elim (check_batch s event_id organizer_id role dto) [
      | err e ↦ (s, err e)
      | ok (event, template, count) ↦
          elim (pay_prints source plan printed s.accounts event.organizer_id count) [
            | err e ↦ (s, err e)
            | ok (accounts, credits_taken) ↦
                sign_batch codes dto.template_id event.organizer_id count credits_taken
                  (batch_rows codes template event_id source price now
                    (existing_count event_id dto.template_id s.tickets + 1) count)
                  (record s { accounts = accounts })
          ]
    ]
