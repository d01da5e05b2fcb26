-- ===== src/Validation/Batch.antt =====
-- A whole scan, and a batch of scans that were made offline.
use ticketing_platform.Prelude.{
  ==_refl, Bool-cases, List, Option, Result, [], all_distinct, arith, err, if◌then◌else◌, includes,
  map, not, ok, refl, subst, sum_by-update_same, sym, true, update, ℕ, ◌&&◌, ◌+◌, ◌∷◌, ◌≡◌, ◌≤◌,
}
use ticketing_platform.Access.{event_keyed}
use ticketing_platform.Tickets.{template_keyed, ticket_keyed}
use ticketing_platform.Validation.{Answer, Gate, QrReader, Scan, ScanError, scan_keyed, user_keyed}
use ticketing_platform.Validation.Scanning.{ScanCall}
use ticketing_platform.Validation.ScanTicket.{Decision, commit_decided, scan_check, scan_ticket}
use ticketing_platform.Validation.Chances.{
  Calm, Calm-refl, Calm-trans, NotPass, chances, claimable, entries, is_entry,
}
use ticketing_platform.Validation.Decided.{QuietResult, scan_check-Fine}
use ticketing_platform.Validation.SingleEntry.{scan_commit-Calm}
use ticketing_platform.Validation.Sync.{
  OfflineScan, SyncCall, clamp, note_offline, scan_of, set_offline, sync_loop, sync_offline_scans,
  sync_scan, unique_scans,
}

decided-Calm :
    (i : ℕ) (c : ScanCall) (r : Result ScanError Decision) (g : Gate)
    → QuietResult i r
    → Calm i g (commit_decided c r g).0
unfolding commit_decided
decided-Calm i c (err e) g q = Calm-refl i g
decided-Calm i c (ok d) g q = scan_commit-Calm i c d g q

scan_ticket-Calm :
    (reader : QrReader) (i : ℕ) (c : ScanCall) (g : Gate)
    → NotPass i g.templates g.tickets
    → Calm i g (scan_ticket reader c g).0
unfolding scan_ticket
scan_ticket-Calm reader i c g n =
    let fine = scan_check-Fine reader i c g n in
    Calm-trans i g (scan_check reader c g).0 _ fine.0
      (decided-Calm i c (scan_check reader c g).1 (scan_check reader c g).0 fine.1)

-- The instant of a scan does not make it an entry.
entries-offline :
    (i j : ℕ) (at : Option ℕ) (scans : List Scan)
    → entries i (update j (set_offline at) scans) ≡ entries i scans
unfolding entries
entries-offline i j at scans =
    sum_by-update_same (λ s. if is_entry i s then 1 else 0) j (set_offline at) scans
      (λ s. unfold is_entry in refl)

note_offline-Calm :
    (i : ℕ) (at : Option ℕ) (r : Gate × Result ScanError Answer) → Calm i r.0 (note_offline at r).0
unfolding note_offline chances
note_offline-Calm i at (g, err e) = Calm-refl i g
note_offline-Calm i at (g, ok a) = record {
  same_templates = refl;
  same_kind = λ ts n. n;
  no_chance = omega (arith, entries-offline i a.scan_id at g.scans);
}

sync_loop-Calm :
    (reader : QrReader) (i : ℕ) (c : SyncCall) (scans : List (ℕ × OfflineScan)) (g : Gate)
    → NotPass i g.templates g.tickets
    → Calm i g (sync_loop reader c scans g).0
unfolding sync_loop sync_scan
sync_loop-Calm reader i c [] g n = Calm-refl i g
sync_loop-Calm reader i c ((index, scan) ∷ scans) g n =
    let one =
      Calm-trans i g (scan_ticket reader (scan_of c index scan) g).0
        (sync_scan reader c index scan g).0 (scan_ticket-Calm reader i (scan_of c index scan) g n)
        (note_offline-Calm i (clamp c.now scan.offline_scanned_at)
          (scan_ticket reader (scan_of c index scan) g)) in
    let g' = (sync_scan reader c index scan g).0 in
    Calm-trans i g g' _ one (
      sync_loop-Calm reader i c scans g' (
        subst (λ ts. NotPass i ts g'.tickets) (sym one.same_templates)
          (one.same_kind g.templates n)))

-- However many scans of a ticket that is no pass a batch holds, under whichever codes, the entries
-- recorded of the ticket are at most those before and one more if its row is open.
pub sync_offline_scans-entries :
    (reader : QrReader) (i : ℕ) (c : SyncCall) (scans : List OfflineScan) (g : Gate)
    → NotPass i g.templates g.tickets
    → entries i (sync_offline_scans reader c scans g).0.scans
      ≤ entries i g.scans + claimable i g.tickets
unfolding sync_offline_scans chances
sync_offline_scans-entries reader i c scans g n =
    omega (arith, (sync_loop-Calm reader i c (unique_scans [] 0 scans) g n).no_chance)

unfoldable pub codes_of : List (ℕ × OfflineScan) → List ℕ
codes_of = map (λ x. x.1.qr_content)

unique_scans-includes :
    (code index : ℕ) (seen : List ℕ) (scans : List OfflineScan)
    → includes code (codes_of (unique_scans seen index scans))
      ≡ (not (includes code seen) && includes code (map (λ (s : OfflineScan). s.qr_content) scans))
unfolding unique_scans includes codes_of
unique_scans-includes code index seen [] = ground (arith, Bool-cases (includes code seen))
unique_scans-includes code index seen (s ∷ scans) = ground (
  arith,
  Bool-cases (includes s.qr_content seen),
  Bool-cases (includes code seen),
  unique_scans-includes code (index + 1) seen scans,
  unique_scans-includes code (index + 1) (s.qr_content ∷ seen) scans,
)

unique_scans-distinct :
    (index : ℕ) (seen : List ℕ) (scans : List OfflineScan)
    → all_distinct (codes_of (unique_scans seen index scans)) ≡ true
unfolding unique_scans includes codes_of all_distinct
unique_scans-distinct index seen [] = refl
unique_scans-distinct index seen (s ∷ scans) = ground (
  arith,
  ==_refl s.qr_content,
  Bool-cases (includes s.qr_content seen),
  unique_scans-includes s.qr_content (index + 1) (s.qr_content ∷ seen) scans,
  unique_scans-distinct (index + 1) seen scans,
  unique_scans-distinct (index + 1) (s.qr_content ∷ seen) scans,
)

-- Of the scans of a request, each code that it has is scanned, and none twice.
pub unique_scans-once :
    (scans : List OfflineScan)
    → (all_distinct (codes_of (unique_scans [] 0 scans)) ≡ true)
      × ((code : ℕ)
          → includes code (codes_of (unique_scans [] 0 scans))
            ≡ includes code (map (λ (s : OfflineScan). s.qr_content) scans))
unfolding includes
unique_scans-once scans =
    (unique_scans-distinct 0 [] scans, λ code. unique_scans-includes code 0 [] scans)
