-- ===== src/Validation/ScanTicket.antt =====
-- scanTicket: its reads up to a decision, and the writes that let a ticket in.
use ticketing_platform.Prelude.{
  List, Option, Result, any, claim, err, find, find_first, if◌then◌else◌, none, ok, some, update, ℕ,
}
use ticketing_platform.Access.{event_keyed}
use ticketing_platform.EventDays.{kinshasa_day}
use ticketing_platform.Tickets.{Ticket, is_open, template_keyed, ticket_keyed}
use ticketing_platform.Validation.{
  Answer, Gate, Qr, QrReader, Reason, ScanError, ScanResult, already_used, bad_format,
  bad_signature, fraudulent, granted, invalid, not_for_this_event, record_not_found, scan_keyed,
  used_before, user_keyed, valid, valid_days_of,
}
use ticketing_platform.Validation.Scanning.{
  ScanCall, Verdict, admit, authorize, enter_pass, is_entry_on, is_scanned, judge, mark_fraudulent,
  mark_used, read_qr, record_scan, refuse, resolve_controller, scan_time, signature_valid,
}

-- What is left to do after the reads: nothing, or one of the two ways to let a ticket in.
pub data Decision : Type 0 where
  answered : Answer → Decision
  -- The ticket as it was read, and the controller.
  enters claims : Ticket → ℕ → Decision

-- recordScan and the answer that names the new row.
unfoldable pub answer_scan : ScanCall → ℕ → Option ℕ → ScanResult → Reason → Gate → Gate × Answer
answer_scan c controller_id ticket_id result reason g = (
  record_scan c controller_id ticket_id result g,
  record { result = result; reason = reason; scan_id = c.new_id },
)

unfoldable pub refuse_scan : ScanCall → ℕ → Option ℕ → ScanResult → Reason → Gate → Gate × Decision
refuse_scan c controller_id ticket_id result reason g =
    let (g', a) = answer_scan c controller_id ticket_id result reason g in (g', answered a)

unfoldable pub scan_judged : ScanCall → ℕ → Ticket → Verdict → Gate → Gate × Decision
scan_judged c controller_id t (refuse result reason) g =
    refuse_scan c controller_id (some t.id) result reason g
scan_judged c controller_id t enter_pass g = (g, enters t controller_id)
scan_judged c controller_id t admit g = (g, claims t controller_id)

unfoldable pub verdict_on : ScanCall → Ticket → Gate → Verdict
verdict_on c t g =
    judge t.status (valid_days_of g.templates t)
      (elim (find t.event_id g.events) [ none ↦ none | some e ↦ some e.end_date ]) (scan_time c)
      (any (is_entry_on t.id (kinshasa_day (scan_time c))) g.scans)

unfoldable pub scan_found : QrReader → ScanCall → ℕ → Qr → Option Ticket → Gate → Gate × Decision
scan_found reader c controller_id qr none g =
    refuse_scan c controller_id none invalid not_for_this_event g
scan_found reader c controller_id qr (some t) g =
    if signature_valid reader c qr t g
    then scan_judged c controller_id t (verdict_on c t g) g
    else refuse_scan c controller_id (some t.id) fraudulent bad_signature
        (record g { tickets = update t.id mark_fraudulent g.tickets })

unfoldable pub scan_code : QrReader → ScanCall → ℕ → Option Qr → Gate → Gate × Decision
scan_code reader c controller_id none g = refuse_scan c controller_id none invalid bad_format g
scan_code reader c controller_id (some qr) g =
    scan_found reader c controller_id qr (find_first (is_scanned qr c.event_id) g.tickets) g

unfoldable pub scan_authorized :
    QrReader → ScanCall → ℕ → Gate → Result ScanError (Unit {0}) → Gate × Result ScanError Decision
scan_authorized reader c controller_id g (err e) = (g, err e)
scan_authorized reader c controller_id g (ok _) =
    let (after, d) = scan_code reader c controller_id (read_qr reader c.qr_content) g in
    (after, ok d)

unfoldable pub scan_resolved :
    QrReader → ScanCall → Gate → Result ScanError (Gate × ℕ) → Gate × Result ScanError Decision
scan_resolved reader c g (err e) = (g, err e)
scan_resolved reader c g (ok (g', controller_id)) =
    scan_authorized reader c controller_id g' (authorize c controller_id g')

-- The scan up to its decision.
unfoldable pub scan_check : QrReader → ScanCall → Gate → Gate × Result ScanError Decision
scan_check reader c g = scan_resolved reader c g (resolve_controller c g)

abbrev pub granted_to : ScanCall → ℕ → Ticket → List Ticket → Gate → Gate × Result ScanError Answer
granted_to c controller_id t tickets g =
    let (after, a) =
      answer_scan c controller_id (some t.id) valid granted (record g { tickets = tickets }) in
    (after, ok a)

-- A pass: its row is marked, whatever it has become, and then the scan is recorded.
unfoldable pub scan_entered :
    ScanCall → ℕ → Ticket → Option Ticket → Gate → Gate × Result ScanError Answer
scan_entered c controller_id t none g = (g, err record_not_found)
scan_entered c controller_id t (some _) g =
    granted_to c controller_id t (update t.id (mark_used (scan_time c)) g.tickets) g

-- Any other ticket: `none` where the claim has counted no row.
unfoldable pub scan_claimed :
    ScanCall → ℕ → Ticket → Option (List Ticket) → Gate → Gate × Result ScanError Answer
scan_claimed c controller_id t none g =
    let (after, a) = answer_scan c controller_id (some t.id) already_used used_before g in
    (after, ok a)
scan_claimed c controller_id t (some tickets) g = granted_to c controller_id t tickets g

-- The claim: only from the statuses VALID and PENDING.
abbrev pub claim_ticket : ScanCall → Ticket → List Ticket → Option (List Ticket)
claim_ticket c t = claim t.id (λ (x : Ticket). is_open x.status) (mark_used (scan_time c))

-- The writes that let a ticket in.
unfoldable pub scan_commit : ScanCall → Decision → Gate → Gate × Result ScanError Answer
scan_commit c (answered a) g = (g, ok a)
scan_commit c (enters t controller_id) g = scan_entered c controller_id t (find t.id g.tickets) g
scan_commit c (claims t controller_id) g =
    scan_claimed c controller_id t (claim_ticket c t g.tickets) g

unfoldable pub commit_decided :
    ScanCall → Result ScanError Decision → Gate → Gate × Result ScanError Answer
commit_decided c (err e) g = (g, err e)
commit_decided c (ok d) g = scan_commit c d g

-- `scanTicket` when no other request comes between its reads and its writes.
unfoldable pub scan_ticket : QrReader → ScanCall → Gate → Gate × Result ScanError Answer
scan_ticket reader c g = let (g', d) = scan_check reader c g in commit_decided c d g'
