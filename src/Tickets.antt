-- ===== src/Tickets.antt =====
-- backend/src/tickets/ticket-generation.service.ts and tickets.service.ts: the tickets of an event
-- and the seats of its tariffs.
-- Identifiers are numbers. A serial number is its three parts, the code of the event, the
-- discriminator of the template and the sequence; the signature, the keys and the texts of a
-- ticket are not modelled, nor is its history.
pub mod Generation
pub mod Tariffs
pub mod Capacity
pub mod Weights
pub mod Changes
pub mod Cancel
pub mod Seats
pub mod History
pub mod Batches
pub mod Races
use ticketing_platform.Pricing.{Currency}
use ticketing_platform.Access.{AccessError, Event}
use ticketing_platform.PrintQuota.{Account, PrintError}
use ticketing_platform.Prelude.{Bool, Keyed, List, Option, false, true, ℕ}

pub data TicketStatus : Type 0 where
  pending valid used cancelled fraudulent : TicketStatus

pub data TicketSource : Type 0 where
  generation invitation online : TicketSource

pub record Serial : Type 0 where
  pub event_code : ℕ
  pub template_code : ℕ
  pub sequence : ℕ

pub record Ticket : Type 0 where
  pub id : ℕ
  pub serial_number : Serial
  pub event_id : ℕ
  pub template_id : ℕ
  pub status : TicketStatus
  pub price : ℕ
  pub source : TicketSource
  pub created_at : ℕ
  pub checked_in_at : Option ℕ
  pub cancelled_at : Option ℕ

instance abbrev pub ticket_keyed : Keyed Ticket
ticket_keyed = record { key = λ t. t.id }

pub record Template : Type 0 where
  pub id : ℕ
  pub event_id : ℕ
  pub price : ℕ
  pub currency : Currency
  pub quantity : ℕ
  pub available_count : ℕ
  pub valid_days : List ℕ

instance abbrev pub template_keyed : Keyed Template
template_keyed = record { key = λ t. t.id }

-- The tables that the ticket services read and write.
pub record Ticketing : Type 0 where
  pub events : List Event
  pub templates : List Template
  pub tickets : List Ticket
  pub accounts : List Account

pub data TicketError : Type 0 where
  access : AccessError → TicketError
  event_cancelled template_not_found template_of_other_event no_tickets : TicketError
  not_available : ℕ → TicketError
  print : PrintError → TicketError
  sold_out ticket_not_found already_cancelled already_used : TicketError
  -- What decryptAES or signTicket throws.
  no_signature : TicketError
  -- Prisma's P2025: an update of a row that is not there.
  record_not_found : TicketError

unfoldable pub is_cancelled : TicketStatus → Bool
is_cancelled cancelled = true
is_cancelled _ = false

unfoldable pub is_used : TicketStatus → Bool
is_used used = true
is_used _ = false

-- status: { in: ['VALID', 'PENDING'] }
unfoldable pub is_open : TicketStatus → Bool
is_open valid = true
is_open pending = true
is_open _ = false

unfoldable pub is_online : TicketSource → Bool
is_online online = true
is_online _ = false

-- A ticket that admits its holder or has: it takes a seat of its tariff.
unfoldable pub takes_seat : TicketStatus → Bool
takes_seat valid = true
takes_seat pending = true
takes_seat used = true
takes_seat _ = false
