-- ===== src/Validation.antt =====
-- backend/src/validation/validation.service.ts: the scans at the gate of an event.
-- The reading of a QR code (JSON) and the check of its embedded signature are parameters. A serial
-- number in a QR code is read as its parts; a text that is none of them is one that no ticket has.
-- The broadcast, the history and the alerts of a scan are not modelled.
pub mod Scanning
pub mod ScanTicket
pub mod Chances
pub mod Decided
pub mod SingleEntry
pub mod Sync
pub mod Batch
pub mod Admission
use ticketing_platform.Prelude.{
  Bool, Keyed, List, Option, [], false, find, length, ltb, none, some, true, ℕ, ◌&&◌, ◌==◌,
}
use ticketing_platform.Access.{Event, event_keyed}
use ticketing_platform.Tickets.{
  Serial, Template, Ticket, TicketStatus, template_keyed, ticket_keyed,
}

pub data ScanResult : Type 0 where
  valid already_used invalid fraudulent expired : ScanResult

pub record Scan : Type 0 where
  pub id : ℕ
  pub ticket_id : Option ℕ
  pub controller_id : ℕ
  pub result : ScanResult
  pub scanned_at : ℕ
  pub offline_scanned_at : Option ℕ

instance abbrev pub scan_keyed : Keyed Scan
scan_keyed = record { key = λ s. s.id }

pub record User : Type 0 where
  pub id : ℕ
  pub email : ℕ

instance abbrev pub user_keyed : Keyed User
user_keyed = record { key = λ u. u.id }

pub record Controller : Type 0 where
  pub id : ℕ
  pub email : ℕ
  pub organizer_id : ℕ

-- The active key pair of an organizer: the newest first.
pub record KeyPair : Type 0 where
  pub organizer_id : ℕ
  pub public_key : ℕ
  pub is_active : Bool

-- The tables that a scan reads and writes.
pub record Gate : Type 0 where
  pub users : List User
  pub controllers : List Controller
  -- The events that each controller may scan: (controllerId, eventId).
  pub assignments : List (ℕ × ℕ)
  pub events : List Event
  pub templates : List Template
  pub key_pairs : List KeyPair
  pub tickets : List Ticket
  pub scans : List Scan

-- What JSON.parse gives of a QR code: v2 has the ticket and the serial, v1 a payload to parse in
-- turn. `none` is a missing or empty field.
pub record RawQr : Type 0 where
  pub is_v2 : Bool
  pub id : Option ℕ
  pub sn : Option Serial
  pub p : ℕ

pub record Payload : Type 0 where
  pub tid : Option ℕ
  pub sn : Option Serial

-- The code that the scans rely on: JSON.parse on a QR code and on its payload, and verifyQRCode.
pub record QrReader : Type 0 where
  pub parse : ℕ → Option RawQr
  pub parse_payload : ℕ → Option Payload
  pub verify : ℕ → ℕ → Bool

pub record Qr : Type 0 where
  pub ticket_id : ℕ
  pub serial_number : Serial
  pub is_legacy : Bool

pub data ScanError : Type 0 where
  user_not_found not_authorized not_the_organizer : ScanError
  record_not_found : ScanError

-- The message of an answer.
pub data Reason : Type 0 where
  bad_format not_for_this_event bad_signature used_before cancelled_ticket marked_fraudulent :
      Reason
  wrong_day event_ended entered_today granted : Reason

pub record Answer : Type 0 where
  pub result : ScanResult
  pub reason : Reason
  pub scan_id : ℕ

-- The two checks of a status that the rules of a scan make.
unfoldable pub is_fraudulent : TicketStatus → Bool
is_fraudulent TicketStatus.fraudulent = true
is_fraudulent _ = false

unfoldable pub is_valid_scan : ScanResult → Bool
is_valid_scan valid = true
is_valid_scan _ = false

unfoldable pub same_serial : Serial → Serial → Bool
same_serial a b =
    a.event_code == b.event_code && (a.template_code == b.template_code && a.sequence == b.sequence)

-- ticket.template.validDays
unfoldable pub valid_days_of : List Template → Ticket → List ℕ
valid_days_of templates t = elim (find t.template_id templates) [
  | none ↦ []
  | some m ↦ m.valid_days
]

-- Several days: a pass, which enters once a day.
unfoldable pub is_pass : List ℕ → Bool
is_pass days = ltb 1 (length days)
