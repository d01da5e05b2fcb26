-- ===== src/Examples/Gates.antt =====
-- Two scanners that read one ticket at the same time, a batch of offline scans, and a pass.
use ticketing_platform.Validation.Batch.{sync_offline_scans-entries}
use ticketing_platform.Validation.Sync.{OfflineScan, SyncCall, sync_offline_scans, unique_scans}
use ticketing_platform.Prelude.{
  List, Option, [], any, claim, false, find, find_first, if◌then◌else◌, includes, none, ok, refl,
  some, true, update, ℕ, ◌+◌, ◌==◌, ◌∷◌, ◌≡◌, ◌≤◌,
}
use ticketing_platform.Access.{Event, controller, event_keyed, published}
use ticketing_platform.Pricing.{FeePayer, other}
use ticketing_platform.EventDays.{kinshasa_day}
use ticketing_platform.Tickets.{
  Serial, Template, Ticket, TicketStatus, is_cancelled, is_open, is_used, online, template_keyed,
  ticket_keyed,
}
use ticketing_platform.Validation.{
  Gate, QrReader, Scan, already_used, is_fraudulent, is_pass, same_serial, scan_keyed, user_keyed,
  valid, valid_days_of,
}
use ticketing_platform.Validation.Scanning.{
  ScanCall, authorize, both_fields, is_privileged, is_scanned, judge, judge_time, read_qr,
  record_scan, recorded, resolve_controller, scan_time, signature_valid,
}
use ticketing_platform.Validation.ScanTicket.{
  answer_scan, claims, scan_authorized, scan_check, scan_claimed, scan_code, scan_commit,
  scan_found, scan_judged, scan_resolved, verdict_on,
}
use ticketing_platform.Validation.Chances.{NotPass, claimable, entries}
use ticketing_platform.Validation.SingleEntry.{Reach, Reach-entries, here, next, reads, writes}

abbrev concert : Event
concert = record {
  id = 7;
  organizer_id = 1;
  status = published;
  start_date = 1000;
  end_date = 2000;
  total_capacity = 10;
  fee_payer = FeePayer.buyer;
  merch_delivery_fee = none;
}

abbrev tariff : Template
tariff = record {
  id = 20;
  event_id = 7;
  price = 1500;
  currency = other 840;
  quantity = 3;
  available_count = 2;
  valid_days = [];
}

abbrev serial : Serial
serial = record { event_code = 3; template_code = 20; sequence = 1 }

abbrev ticket_in : TicketStatus → Option ℕ → Ticket
ticket_in status at = record {
  id = 101;
  serial_number = serial;
  event_id = 7;
  template_id = 20;
  status = status;
  price = 1500;
  source = online;
  created_at = 50;
  checked_in_at = at;
  cancelled_at = none;
}

-- The code 9 is that of the ticket; no other text is a code.
reader : QrReader
reader = record {
  parse = λ text.
      if text == 9
      then some (record { is_v2 = true; id = some 101; sn = some serial; p = 0 })
      else none;
  parse_payload = λ text. none;
  verify = λ text key. false;
}

abbrev gate_with : Ticket → List Scan → Gate
gate_with t scans = record {
  users = [];
  controllers = [];
  assignments = (4, 7) ∷ (5, 7) ∷ [];
  events = concert ∷ [];
  templates = tariff ∷ [];
  key_pairs = [];
  tickets = t ∷ [];
  scans = scans;
}

abbrev call : ℕ → ℕ → ScanCall
call controller_id new_id = record {
  user_id = controller_id;
  event_id = 7;
  qr_content = 9;
  role = controller;
  clock = 1500;
  scanned_at = none;
  new_id = new_id;
}

abbrev open_ticket : Ticket
open_ticket = ticket_in TicketStatus.valid none

abbrev at_door : Gate
at_door = gate_with open_ticket []

read_by_first : scan_check reader (call 4 900) at_door ≡ (at_door, ok (claims open_ticket 4))
unfolding reader scan_check scan_resolved scan_authorized resolve_controller is_privileged authorize
    any read_qr both_fields scan_code find_first is_scanned same_serial scan_found signature_valid
    scan_judged verdict_on judge judge_time is_used is_cancelled is_fraudulent is_pass valid_days_of
    find scan_time includes kinshasa_day
read_by_first = refl

read_by_second : scan_check reader (call 5 901) at_door ≡ (at_door, ok (claims open_ticket 5))
unfolding reader scan_check scan_resolved scan_authorized resolve_controller is_privileged authorize
    any read_qr both_fields scan_code find_first is_scanned same_serial scan_found signature_valid
    scan_judged verdict_on judge judge_time is_used is_cancelled is_fraudulent is_pass valid_days_of
    find scan_time includes kinshasa_day
read_by_second = refl

abbrev both_wrote : Gate
both_wrote = gate_with (ticket_in TicketStatus.used (some 1500)) (
    recorded (call 4 900) 4 (some 101) valid ∷ recorded (call 5 901) 5 (some 101) already_used ∷ [])

after_both :
    (scan_commit
      (call 5 901)
      (claims open_ticket 5)
      (scan_commit (call 4 900) (claims open_ticket 4) at_door).0).0
    ≡ both_wrote
unfolding scan_commit scan_claimed answer_scan record_scan claim find update is_open scan_time
after_both = refl

-- Both read, then both write.
two_scanners :
    Reach reader
      (record { gate = at_door; decided = [] })
      (record {
        gate =
            (scan_commit
              (call 5 901)
              (claims open_ticket 5)
              (scan_commit (call 4 900) (claims open_ticket 4) at_door).0).0;
        decided = [];
      })
two_scanners =
    next
      (next
        (next (next here (reads (call 4 900) read_by_first)) (reads (call 5 901) read_by_second))
        (writes ((call 5 901, claims open_ticket 5) ∷ []) [] (call 4 900) (claims open_ticket 4)
          refl))
      (writes [] [] (call 5 901) (claims open_ticket 5) refl)

no_pass : NotPass 101 at_door.templates at_door.tickets
unfolding is_pass valid_days_of find
no_pass = (λ e. refl, tt)

Reach-entries_example :
    entries 101
      (scan_commit
        (call 5 901)
        (claims open_ticket 5)
        (scan_commit (call 4 900) (claims open_ticket 4) at_door).0).0.scans
    ≤ entries 101 [] + claimable 101 (open_ticket ∷ [])
Reach-entries_example = Reach-entries reader 101 at_door no_pass two_scanners

-- The same code twice, and one that is no ticket's.
abbrev offline_scans : List OfflineScan
offline_scans =
    record { qr_content = 9; offline_scanned_at = some 1400 }
    ∷ record { qr_content = 9; offline_scanned_at = some 1450 }
    ∷ record { qr_content = 8; offline_scanned_at = none }
    ∷ []

abbrev sync_call : SyncCall
sync_call = record {
  user_id = 4;
  event_id = 7;
  role = controller;
  now = 1500;
  new_id = λ n. 900 + n;
}

scanned_once :
    unique_scans [] 0 offline_scans
    ≡ (0, record { qr_content = 9; offline_scanned_at = some 1400 })
      ∷ (2, record { qr_content = 8; offline_scanned_at = none })
      ∷ []
unfolding unique_scans includes
scanned_once = refl

sync_offline_scans-entries_example :
    entries 101 (sync_offline_scans reader sync_call offline_scans at_door).0.scans
    ≤ entries 101 at_door.scans + claimable 101 at_door.tickets
sync_offline_scans-entries_example =
    sync_offline_scans-entries reader 101 sync_call offline_scans at_door no_pass
