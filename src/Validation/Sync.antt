-- ===== src/Validation/Sync.antt =====
-- syncOfflineScans: the scans that a scanner made without a network. An instant that cannot be read
-- is as an absent one; one instant stands for the clock during the request.
use ticketing_platform.Tickets.{template_keyed, ticket_keyed}
use ticketing_platform.Prelude.{
  List, Option, Result, [], err, if◌then◌else◌, includes, leb, none, ok, some, update, ℕ, ◌&&◌, ◌+◌,
  ◌∷◌,
}
use ticketing_platform.Access.{Role, event_keyed}
use ticketing_platform.Validation.{Answer, Gate, QrReader, Scan, ScanError, scan_keyed, user_keyed}
use ticketing_platform.Validation.Scanning.{ScanCall}
use ticketing_platform.Validation.ScanTicket.{scan_ticket}

pub record OfflineScan : Type 0 where
  pub qr_content : ℕ
  pub offline_scanned_at : Option ℕ

-- The first scan of each code, with its position in the request.
unfoldable pub unique_scans : List ℕ → ℕ → List OfflineScan → List (ℕ × OfflineScan)
unique_scans seen index [] = []
unique_scans seen index (scan ∷ scans) =
    let rest = unique_scans seen (index + 1) scans in
    let others = unique_scans (scan.qr_content ∷ seen) (index + 1) scans in
    if includes scan.qr_content seen then rest else (index, scan) ∷ others

abbrev pub max_offline_age_ms : ℕ
max_offline_age_ms = 86400000

-- An instant in the future or more than a day ago is dropped.
unfoldable pub clamp : ℕ → Option ℕ → Option ℕ
clamp now none = none
clamp now (some at) = if leb at now && leb now (at + max_offline_age_ms) then some at else none

abbrev pub set_offline : Option ℕ → Scan → Scan
set_offline at s = record s { offline_scanned_at = at }

-- What a request gives: `new_id` makes the identifiers of the rows.
pub record SyncCall : Type 0 where
  pub user_id : ℕ
  pub event_id : ℕ
  pub role : Role
  pub now : ℕ
  pub new_id : ℕ → ℕ

abbrev pub scan_of : SyncCall → ℕ → OfflineScan → ScanCall
scan_of c index scan = record {
  user_id = c.user_id;
  event_id = c.event_id;
  qr_content = scan.qr_content;
  role = c.role;
  clock = c.now;
  scanned_at = clamp c.now scan.offline_scanned_at;
  new_id = c.new_id index;
}

-- The scan's row gets the instant at which it was made.
unfoldable pub note_offline :
    Option ℕ → Gate × Result ScanError Answer → Gate × Result ScanError Answer
note_offline at (g, err e) = (g, err e)
note_offline at (g, ok a) = (record g { scans = update a.scan_id (set_offline at) g.scans }, ok a)

unfoldable pub sync_scan :
    QrReader → SyncCall → ℕ → OfflineScan → Gate → Gate × Result ScanError Answer
sync_scan reader c index scan g =
    note_offline (clamp c.now scan.offline_scanned_at) (scan_ticket reader (scan_of c index scan) g)

-- for (const { scan, index } of uniqueScans) try { … } catch (err) { … }
unfoldable pub sync_loop :
    QrReader → SyncCall → List (ℕ × OfflineScan) → Gate → Gate × List (ℕ × Result ScanError Answer)
sync_loop reader c [] g = (g, [])
sync_loop reader c ((index, scan) ∷ scans) g =
    let (g', r) = sync_scan reader c index scan g in
    let (after, results) = sync_loop reader c scans g' in (after, (index, r) ∷ results)

unfoldable pub sync_offline_scans :
    QrReader → SyncCall → List OfflineScan → Gate → Gate × List (ℕ × Result ScanError Answer)
sync_offline_scans reader c scans = sync_loop reader c (unique_scans [] 0 scans)
