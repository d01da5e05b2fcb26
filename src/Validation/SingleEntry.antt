-- ===== src/Validation/SingleEntry.antt =====
-- The interleavings of scans. The reads of a scan, up to its decision, are one step of the gate, and
-- its writes another. (The claim of the row and the record of the scan are taken together: no read
-- of another scan of a ticket that is no pass makes a difference between them.)
use ticketing_platform.Validation.Decided.{Quiet, QuietResult, scan_check-Fine}
use ticketing_platform.Access.{event_keyed}
use ticketing_platform.Prelude.{
  ==→eq, All, Bool-cases, List, Option, [], arith, claim-eq-some, err, false, find, if◌then◌else◌,
  inl, inr, none, ok, refl, some, subst, sym, true, update, ℕ, ◌++◌, ◌+◌, ◌==◌, ◌∷◌, ◌≡◌, ◌≤◌,
}
use ticketing_platform.Tickets.{Ticket, is_open, template_keyed, ticket_keyed}
use ticketing_platform.Validation.{
  Gate, QrReader, Scan, ScanError, already_used, is_valid_scan, scan_keyed, user_keyed, valid,
}
use ticketing_platform.Validation.Scanning.{ScanCall, mark_used, record_scan, recorded, scan_time}
use ticketing_platform.Validation.ScanTicket.{
  Decision, answer_scan, answered, claim_ticket, claims, enters, granted_to, scan_check,
  scan_claimed, scan_commit, scan_entered,
}
use ticketing_platform.Validation.Chances.{
  Calm, Calm-refl, NotPass, NotPass-used, chances, claimable, claimable-claimed, claimable-used,
  entries, entries-append, is_entry, record_scan-Calm,
}

entries-granted :
    (i j : ℕ) (c : ScanCall) (controller_id : ℕ) (scans : List Scan)
    → entries i (scans ++ recorded c controller_id (some j) valid ∷ [])
      ≡ entries i scans + (if j == i then 1 else 0)
unfolding is_entry is_valid_scan
entries-granted i j c controller_id scans =
    ground (arith, entries-append i scans (recorded c controller_id (some j) valid))

-- The ticket of a scan of another ticket gets no chance, and the ticket that enters spends one.
granted-Calm :
    (i : ℕ) (c : ScanCall) (controller_id : ℕ) (t : Ticket) (g : Gate)
    → (if t.id == i then 1 else 0) + claimable i (update t.id (mark_used (scan_time c)) g.tickets)
      ≤ claimable i g.tickets
    → Calm i g (granted_to c controller_id t (update t.id (mark_used (scan_time c)) g.tickets) g).0
unfolding answer_scan record_scan chances
granted-Calm i c controller_id t g spent = record {
  same_templates = refl;
  same_kind = λ ts. NotPass-used i t.id (scan_time c) ts g.tickets;
  no_chance = omega (arith, spent, entries-granted i t.id c controller_id g.scans);
}

entered-Calm :
    (i : ℕ) (c : ScanCall) (controller_id : ℕ) (t : Ticket) (found : Option Ticket) (g : Gate)
    → (t.id == i) ≡ false
    → Calm i g (scan_entered c controller_id t found g).0
unfolding scan_entered
entered-Calm i c controller_id t none g other = Calm-refl i g
entered-Calm i c controller_id t (some _) g other =
    granted-Calm i c controller_id t g
      (ground (arith, claimable-used i t.id (scan_time c) g.tickets))

claimed-spent :
    (i : ℕ) (c : ScanCall) (t r : Ticket) (tickets : List Ticket)
    → find t.id tickets ≡ some r
    → is_open r.status ≡ true
    → (if t.id == i then 1 else 0) + claimable i (update t.id (mark_used (scan_time c)) tickets)
      ≤ claimable i tickets
claimed-spent i c t r tickets h o = elim (Bool-cases (t.id == i)) [
  | inl e ↦
      subst
        (λ k.
          (if t.id == k then 1 else 0) + claimable k (update t.id (mark_used (scan_time c)) tickets)
          ≤ claimable k tickets)
        (==→eq t.id i e) (ground (arith, claimable-claimed t.id (scan_time c) tickets h o))
  | inr e ↦ ground (arith, claimable-used i t.id (scan_time c) tickets)
]

claimed-Calm :
    (i : ℕ) (c : ScanCall) (controller_id : ℕ) (t : Ticket) (claimed : Option (List Ticket))
    (g : Gate)
    → claim_ticket c t g.tickets ≡ claimed
    → Calm i g (scan_claimed c controller_id t claimed g).0
unfolding scan_claimed is_valid_scan answer_scan
claimed-Calm i c controller_id t none g h =
    record_scan-Calm i c controller_id (some t.id) already_used g refl
claimed-Calm i c controller_id t (some tickets) g h =
    let (r, found, open_row, same) =
      claim-eq-some t.id (λ (x : Ticket). is_open x.status) (mark_used (scan_time c)) g.tickets h in
    subst (λ rows. Calm i g (granted_to c controller_id t rows g).0) (sym same)
      (granted-Calm i c controller_id t g (claimed-spent i c t r g.tickets found open_row))

pub scan_commit-Calm :
    (i : ℕ) (c : ScanCall) (d : Decision) (g : Gate) → Quiet i d → Calm i g (scan_commit c d g).0
unfolding scan_commit
scan_commit-Calm i c (answered a) g q = Calm-refl i g
scan_commit-Calm i c (enters t controller_id) g q =
    entered-Calm i c controller_id t (find t.id g.tickets) g q
scan_commit-Calm i c (claims t controller_id) g q =
    claimed-Calm i c controller_id t (claim_ticket c t g.tickets) g refl

-- The gate and the scans that have decided and not yet written.
pub record Scene : Type 0 where
  pub gate : Gate
  pub decided : List (ScanCall × Decision)

-- One scan reads, up to its decision or its refusal, or one that has decided writes.
pub data Step (reader : QrReader) : Scene → Scene → Type 0 where
  reads :
      {s : Scene} {g : Gate} {d : Decision} (c : ScanCall)
      → scan_check reader c s.gate ≡ (g, ok d)
      → Step reader s (record { gate = g; decided = (c, d) ∷ s.decided })
  stops :
      {s : Scene} {g : Gate} {e : ScanError} (c : ScanCall)
      → scan_check reader c s.gate ≡ (g, err e)
      → Step reader s (record s { gate = g })
  writes :
      {s : Scene} (before after : List (ScanCall × Decision)) (c : ScanCall) (d : Decision)
      → s.decided ≡ before ++ (c, d) ∷ after
      → Step reader s (record { gate = (scan_commit c d s.gate).0; decided = before ++ after })

pub data Reach (reader : QrReader) (s : Scene) : Scene → Type 0 where
  here : Reach reader s s
  next : {t u : Scene} → Reach reader s t → Step reader t u → Reach reader s u

-- Where only a pass is to enter without a claim, the ticket is no pass, and its chances are few.
record Safe (i bound : ℕ) (s : Scene) : Type 0 where
  no_pass : NotPass i s.gate.templates s.gate.tickets
  quiet : All (λ (x : ScanCall × Decision). Quiet i x.1) s.decided
  few : chances i s.gate ≤ bound

Calm-Safe :
    (i bound : ℕ) (s : Scene) (g : Gate) (decided : List (ScanCall × Decision))
    → Safe i bound s
    → Calm i s.gate g
    → All (λ (x : ScanCall × Decision). Quiet i x.1) decided
    → Safe i bound (record { gate = g; decided = decided })
Calm-Safe i bound s g decided safe calm quiet = record {
  no_pass =
      subst (λ ts. NotPass i ts g.tickets) (sym calm.same_templates)
        (calm.same_kind s.gate.templates safe.no_pass);
  quiet = quiet;
  few = omega (arith, calm.no_chance, safe.few);
}

All-remove {ℓ κ} :
    {A : Type ℓ} (P : A → Type κ) (before after : List A) {x : A}
    → All P (before ++ x ∷ after)
    → P x × All P (before ++ after)
All-remove P [] after a = a
All-remove P (b ∷ before) after a =
    let (p, rest) = All-remove P before after a.1 in (p, (a.0, rest))

Step-Safe :
    (reader : QrReader) (i bound : ℕ) {s t : Scene}
    → Step reader s t
    → Safe i bound s
    → Safe i bound t
Step-Safe reader i bound {s = s} (reads {d = d} c h) safe =
    let fine =
      subst (λ r. Calm i s.gate r.0 × QuietResult i r.1) h
        (scan_check-Fine reader i c s.gate safe.no_pass) in
    Calm-Safe i bound s _ _ safe fine.0 (fine.1, safe.quiet)
Step-Safe reader i bound {s = s} (stops c h) safe =
    let fine =
      subst (λ r. Calm i s.gate r.0 × QuietResult i r.1) h
        (scan_check-Fine reader i c s.gate safe.no_pass) in
    Calm-Safe i bound s _ _ safe fine.0 safe.quiet
Step-Safe reader i bound {s = s} (writes before after c d h) safe =
    let (q, rest) =
      All-remove (λ (x : ScanCall × Decision). Quiet i x.1) before after
        (subst (All (λ (x : ScanCall × Decision). Quiet i x.1)) h safe.quiet) in
    Calm-Safe i bound s _ _ safe (scan_commit-Calm i c d s.gate q) rest

Reach-Safe :
    (reader : QrReader) (i bound : ℕ) {s t : Scene}
    → Reach reader s t
    → Safe i bound s
    → Safe i bound t
Reach-Safe reader i bound here safe = safe
Reach-Safe reader i bound (next r st) safe =
    Step-Safe reader i bound st (Reach-Safe reader i bound r safe)

-- However scans of a ticket that is no pass interleave, from a gate where none has decided, the
-- entries recorded of the ticket are at most those at the start and one more if its row is open.
pub Reach-entries :
    (reader : QrReader) (i : ℕ) (g : Gate) {t : Scene}
    → NotPass i g.templates g.tickets
    → Reach reader (record { gate = g; decided = [] }) t
    → entries i t.gate.scans ≤ entries i g.scans + claimable i g.tickets
unfolding chances
Reach-entries reader i g {t} n r =
    let safe =
      Reach-Safe reader i (chances i g) r (record { no_pass = n; quiet = tt; few = omega arith }) in
    omega (arith, safe.few)
