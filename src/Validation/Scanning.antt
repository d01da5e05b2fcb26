-- ===== src/Validation/Scanning.antt =====
-- The parts of scanTicket: the caller, the code, the signature, the rules and the record of a scan.
use ticketing_platform.Prelude.{
  Bool, List, Option, Result, [], any, false, find, find_first, guard, if◌then◌else◌, includes, leb,
  length, ltb, none, not, ok, or_throw, some, true, ℕ, ◌&&◌, ◌++◌, ◌==◌, ◌>>=◌, ◌||◌, ◌∷◌,
}
use ticketing_platform.Access.{Event, Role, controller, event_keyed, is_admin}
use ticketing_platform.EventDays.{kinshasa_day, kinshasa_day_bounds}
use ticketing_platform.Tickets.{
  Serial, Ticket, TicketStatus, is_cancelled, is_used, template_keyed, ticket_keyed,
}
use ticketing_platform.Validation.{
  Controller, Gate, KeyPair, Qr, QrReader, Reason, Scan, ScanError, ScanResult, already_used,
  cancelled_ticket, entered_today, event_ended, expired, fraudulent, invalid, is_fraudulent,
  is_pass, is_valid_scan, marked_fraudulent, not_authorized, not_the_organizer, same_serial,
  scan_keyed, used_before, user_keyed, user_not_found, wrong_day,
}

-- What one call of scanTicket is given. `clock` is the server's time, `scanned_at` that of an
-- offline scan, `new_id` makes the identifiers of the rows that it inserts.
pub record ScanCall : Type 0 where
  pub user_id : ℕ
  pub event_id : ℕ
  pub qr_content : ℕ
  pub role : Role
  pub clock : ℕ
  pub scanned_at : Option ℕ
  pub new_id : ℕ

unfoldable pub is_privileged : Role → Bool
is_privileged controller = false
is_privileged _ = true

-- resolveControllerIdForScan: an organizer or admin gets a controller of their own.
unfoldable pub resolve_controller : ScanCall → Gate → Result ScanError (Gate × ℕ)
resolve_controller c g =
    if not (is_privileged c.role)
    then ok (g, c.user_id)
    else (or_throw (find c.user_id g.users) user_not_found >>= λ user.
        elim (find_first (λ (x : Controller). x.email == user.email) g.controllers) [
          | some existing ↦ ok (g, existing.id)
          | none ↦ ok (
            record g {
              controllers =
                  g.controllers
                  ++ record { id = c.new_id; email = user.email; organizer_id = c.user_id } ∷ [];
            },
            c.new_id,
          )
        ])

-- Whether the caller may scan for this event.
unfoldable pub authorize : ScanCall → ℕ → Gate → Result ScanError (Unit {0})
authorize c controller_id g =
    if not (is_privileged c.role)
    then guard (any (λ (a : ℕ × ℕ). a.0 == controller_id && a.1 == c.event_id) g.assignments)
        not_authorized
    else guard
        (any (λ (e : Event). e.id == c.event_id && e.organizer_id == c.user_id) g.events
          || is_admin c.role)
        not_the_organizer

-- The two formats of a QR code; both fields must be there.
unfoldable pub both_fields : Option ℕ → Option Serial → Bool → Option Qr
both_fields (some i) (some n) legacy =
    some (record { ticket_id = i; serial_number = n; is_legacy = legacy })
both_fields _ _ legacy = none

unfoldable pub read_qr : QrReader → ℕ → Option Qr
read_qr reader content = elim (reader.parse content) [
  | none ↦ none
  | some raw ↦
      if raw.is_v2
      then both_fields raw.id raw.sn false
      else elim (reader.parse_payload raw.p) [ none ↦ none | some d ↦ both_fields d.tid d.sn true ]
]

-- where: { AND: [{ OR: [{ id }, { serialNumber }] }, { eventId }] }
unfoldable pub is_scanned : Qr → ℕ → Ticket → Bool
is_scanned qr event_id t =
    (t.id == qr.ticket_id || same_serial t.serial_number qr.serial_number) && t.event_id == event_id

-- The signature of a legacy code; of a compact one, that the identifier and the serial belong to
-- one ticket. Without an active key pair nothing is checked.
unfoldable pub signature_valid : QrReader → ScanCall → Qr → Ticket → Gate → Bool
signature_valid reader c qr t g = elim (find t.event_id g.events) [
  | none ↦ true
  | some e ↦
      elim (find_first (λ (k : KeyPair). k.organizer_id == e.organizer_id && k.is_active)
        g.key_pairs) [
          | none ↦ true
          | some k ↦
              if qr.is_legacy
              then reader.verify c.qr_content k.public_key
              else t.id == qr.ticket_id && same_serial t.serial_number qr.serial_number
        ]
]

-- The scan's time: when it really happened.
unfoldable pub scan_time : ScanCall → ℕ
scan_time c = elim c.scanned_at [ none ↦ c.clock | some t ↦ t ]

-- What the rules say of a ticket whose code is genuine.
pub data Verdict : Type 0 where
  refuse : ScanResult → Reason → Verdict
  enter_pass admit : Verdict

-- The rules in the source's order. `end_date` is the event's, `entered` whether the pass has
-- already entered that day.
unfoldable pub judge_time : List ℕ → Option ℕ → ℕ → Bool → Verdict
judge_time valid_days end_date now entered =
    if ltb 0 (length valid_days) && not (includes (kinshasa_day now) valid_days)
    then refuse expired wrong_day
    else if elim end_date [ none ↦ false | some last ↦ ltb last now ]
    then refuse expired event_ended
    else if is_pass valid_days
    then if entered then refuse already_used entered_today else enter_pass
    else admit

unfoldable pub judge : TicketStatus → List ℕ → Option ℕ → ℕ → Bool → Verdict
judge status valid_days end_date now entered =
    if is_used status && not (is_pass valid_days)
    then refuse already_used used_before
    else if is_cancelled status
    then refuse invalid cancelled_ticket
    else if is_fraudulent status
    then refuse fraudulent marked_fraudulent
    else judge_time valid_days end_date now entered

-- The instant at which a recorded scan really happened.
unfoldable pub happened_at : Scan → ℕ
happened_at s = elim s.offline_scanned_at [ none ↦ s.scanned_at | some t ↦ t ]

-- A recorded entry of a ticket within a day.
unfoldable pub is_entry_on : ℕ → ℕ → Scan → Bool
is_entry_on ticket_id day s =
    (elim s.ticket_id [ none ↦ false | some i ↦ i == ticket_id ] && is_valid_scan s.result)
    && (leb (kinshasa_day_bounds day).start (happened_at s)
        && ltb (happened_at s) (kinshasa_day_bounds day).end)

-- recordScan: the new row, and the table with it.
abbrev pub recorded : ScanCall → ℕ → Option ℕ → ScanResult → Scan
recorded c controller_id ticket_id result = record {
  id = c.new_id;
  ticket_id = ticket_id;
  controller_id = controller_id;
  result = result;
  scanned_at = c.clock;
  offline_scanned_at = none;
}

unfoldable pub record_scan : ScanCall → ℕ → Option ℕ → ScanResult → Gate → Gate
record_scan c controller_id ticket_id result g = record g {
  scans = g.scans ++ recorded c controller_id ticket_id result ∷ [];
}

abbrev pub mark_fraudulent : Ticket → Ticket
mark_fraudulent t = record t { status = TicketStatus.fraudulent }

abbrev pub mark_used : ℕ → Ticket → Ticket
mark_used at t = record t { status = TicketStatus.used; checked_in_at = some at }
