-- ===== src/Validation/Decided.antt =====
-- The reads of a scan, up to its decision, and what they leave of a ticket's chances to be let in.
use ticketing_platform.EventDays.{kinshasa_day}
use ticketing_platform.Access.{event_keyed}
use ticketing_platform.Prelude.{
  All, Bool, Bool-cases, List, Option, Result, [], arith, err, false, find_first, if◌then◌else◌,
  includes, inl, inr, length, ltb, none, not, ok, refl, some, subst, sym, true, update, ℕ, ◌&&◌,
  ◌==◌, ◌∷◌, ◌≡◌,
}
use ticketing_platform.Tickets.{Ticket, TicketStatus, template_keyed, ticket_keyed}
use ticketing_platform.Validation.{
  Gate, Qr, QrReader, Reason, ScanError, ScanResult, bad_format, bad_signature, fraudulent, invalid,
  is_pass, is_valid_scan, not_for_this_event, scan_keyed, user_keyed, valid_days_of,
}
use ticketing_platform.Validation.Scanning.{
  ScanCall, Verdict, admit, authorize, enter_pass, is_scanned, judge, judge_time, mark_fraudulent,
  read_qr, refuse, resolve_controller, signature_valid,
}
use ticketing_platform.Validation.ScanTicket.{
  Decision, answer_scan, answered, claims, enters, refuse_scan, scan_authorized, scan_check,
  scan_code, scan_found, scan_judged, scan_resolved, verdict_on,
}
use ticketing_platform.Validation.Chances.{
  Calm, Calm-refl, Calm-same, Calm-trans, NotPass, mark_fraudulent-Calm, record_scan-Calm,
  resolve_controller-rest,
}

abbrev pub Quiet : ℕ → Decision → Type 0
Quiet i (answered a) = Unit
Quiet i (enters t controller_id) = (t.id == i) ≡ false
Quiet i (claims t controller_id) = Unit

refuse_scan-Calm :
    (i : ℕ) (c : ScanCall) (controller_id : ℕ) (ticket_id : Option ℕ) (result : ScanResult)
    (reason : Reason) (g : Gate)
    → is_valid_scan result ≡ false
    → Calm i g (refuse_scan c controller_id ticket_id result reason g).0
unfolding refuse_scan answer_scan
refuse_scan-Calm i c controller_id ticket_id result reason g h =
    record_scan-Calm i c controller_id ticket_id result g h

refuse_scan-Quiet :
    (i : ℕ) (c : ScanCall) (controller_id : ℕ) (ticket_id : Option ℕ) (result : ScanResult)
    (reason : Reason) (g : Gate)
    → Quiet i (refuse_scan c controller_id ticket_id result reason g).1
unfolding refuse_scan answer_scan
refuse_scan-Quiet i c controller_id ticket_id result reason g = tt

unfoldable sound : Verdict → Bool
sound (refuse result reason) = not (is_valid_scan result)
sound _ = true

judge_time-sound :
    (days : List ℕ) (end_date : Option ℕ) (now : ℕ) (entered : Bool)
    → sound (judge_time days end_date now entered) ≡ true
unfolding judge_time sound is_valid_scan
judge_time-sound days end_date now entered = ground (
  arith,
  Bool-cases (ltb 0 (length days) && not (includes (kinshasa_day now) days)),
  Bool-cases (elim end_date [ none ↦ false | some last ↦ ltb last now ]),
)

-- The rules never refuse with the result VALID.
judge-sound :
    (status : TicketStatus) (days : List ℕ) (end_date : Option ℕ) (now : ℕ) (entered : Bool)
    → sound (judge status days end_date now entered) ≡ true
unfolding judge sound is_valid_scan
judge-sound status days end_date now entered =
    ground (arith, judge_time-sound days end_date now entered)

-- They let only a pass in without a claim.
judge-enter_pass :
    (status : TicketStatus) (days : List ℕ) (end_date : Option ℕ) (now : ℕ) (entered : Bool)
    → judge status days end_date now entered ≡ enter_pass
    → is_pass days ≡ true
unfolding judge judge_time
judge-enter_pass status days end_date now entered h = ground arith

All-find_first {ℓ κ} :
    {A : Type ℓ} (P : A → Type κ) (p : A → Bool) (xs : List A)
    → All P xs
    → (x : A) → find_first p xs ≡ some x
    → P x
unfolding find_first
All-find_first P p [] a x h = cc
All-find_first P p (y ∷ ys) a x h = elim (Bool-cases (p y)) [
  | inl e ↦
      let here = subst (λ b. (if b then some y else find_first p ys) ≡ some x) e h in
      let same : y ≡ x = cc in subst P same a.0
  | inr e ↦
      All-find_first P p ys a.1 x
        (subst (λ b. (if b then some y else find_first p ys) ≡ some x) e h)
]

judged-Calm :
    (i : ℕ) (c : ScanCall) (controller_id : ℕ) (t : Ticket) (v : Verdict) (g : Gate)
    → sound v ≡ true
    → Calm i g (scan_judged c controller_id t v g).0
unfolding scan_judged sound
judged-Calm i c controller_id t (refuse result reason) g h =
    refuse_scan-Calm i c controller_id (some t.id) result reason g
      (ground (arith, Bool-cases (is_valid_scan result)))
judged-Calm i c controller_id t enter_pass g h = Calm-refl i g
judged-Calm i c controller_id t admit g h = Calm-refl i g

judged-Quiet :
    (i : ℕ) (c : ScanCall) (controller_id : ℕ) (t : Ticket) (v : Verdict) (g : Gate)
    → (v ≡ enter_pass → (t.id == i) ≡ false)
    → Quiet i (scan_judged c controller_id t v g).1
unfolding scan_judged
judged-Quiet i c controller_id t (refuse result reason) g h =
    refuse_scan-Quiet i c controller_id (some t.id) result reason g
judged-Quiet i c controller_id t enter_pass g h = h refl
judged-Quiet i c controller_id t admit g h = tt

found-Calm :
    (reader : QrReader) (i : ℕ) (c : ScanCall) (controller_id : ℕ) (qr : Qr) (found : Option Ticket)
    (g : Gate)
    → Calm i g (scan_found reader c controller_id qr found g).0
unfolding scan_found verdict_on is_valid_scan
found-Calm reader i c controller_id qr none g =
    refuse_scan-Calm i c controller_id none invalid not_for_this_event g refl
found-Calm reader i c controller_id qr (some t) g =
    elim (signature_valid reader c qr t g)
      as (λ b.
        Calm i g
          (if b
            then scan_judged c controller_id t (verdict_on c t g) g
            else refuse_scan c controller_id (some t.id) fraudulent bad_signature
                (record g { tickets = update t.id mark_fraudulent g.tickets })).0) [
                  | true ↦
                      judged-Calm i c controller_id t (verdict_on c t g) g
                        (judge-sound t.status _ _ _ _)
                  | false ↦ Calm-trans i g _ _ (mark_fraudulent-Calm i t.id g) (
                      refuse_scan-Calm i c controller_id (some t.id) fraudulent bad_signature _
                        refl)
                ]

found-Quiet :
    (reader : QrReader) (i : ℕ) (c : ScanCall) (controller_id : ℕ) (qr : Qr) (found : Option Ticket)
    (g : Gate)
    → ((t : Ticket)
        → found ≡ some t
        → (t.id == i) ≡ true
        → is_pass (valid_days_of g.templates t) ≡ false)
    → Quiet i (scan_found reader c controller_id qr found g).1
unfolding scan_found verdict_on
found-Quiet reader i c controller_id qr none g h =
    refuse_scan-Quiet i c controller_id none invalid not_for_this_event g
found-Quiet reader i c controller_id qr (some t) g h =
    elim (signature_valid reader c qr t g)
      as (λ b.
        Quiet i
          (if b
            then scan_judged c controller_id t (verdict_on c t g) g
            else refuse_scan c controller_id (some t.id) fraudulent bad_signature
                (record g { tickets = update t.id mark_fraudulent g.tickets })).1) [
                  | true ↦
                      judged-Quiet i c controller_id t (verdict_on c t g) g
                        (λ e. ground (arith, h t refl, judge-enter_pass t.status _ _ _ _ e))
                  | false ↦
                      refuse_scan-Quiet i c controller_id (some t.id) fraudulent bad_signature _
                ]

abbrev pub QuietResult : ℕ → Result ScanError Decision → Type 0
QuietResult i (err e) = Unit
QuietResult i (ok d) = Quiet i d

-- The scan's reads from the gate `g` leave `r`.
abbrev Fine : ℕ → Gate → Gate × Result ScanError Decision → Type 0
Fine i g r = Calm i g r.0 × QuietResult i r.1

code-Fine :
    (reader : QrReader) (i : ℕ) (c : ScanCall) (controller_id : ℕ) (qr : Option Qr) (g : Gate)
    → NotPass i g.templates g.tickets
    → Calm i g (scan_code reader c controller_id qr g).0
      × Quiet i (scan_code reader c controller_id qr g).1
unfolding scan_code is_valid_scan
code-Fine reader i c controller_id none g n = (
  refuse_scan-Calm i c controller_id none invalid bad_format g refl,
  refuse_scan-Quiet i c controller_id none invalid bad_format g,
)
code-Fine reader i c controller_id (some qr) g n =
    let found = find_first (is_scanned qr c.event_id) g.tickets in
    (
      found-Calm reader i c controller_id qr found g,
      found-Quiet reader i c controller_id qr found g (
          All-find_first (λ t. (t.id == i) ≡ true → is_pass (valid_days_of g.templates t) ≡ false)
            (is_scanned qr c.event_id) g.tickets n),
    )

authorized-Fine :
    (reader : QrReader) (i : ℕ) (c : ScanCall) (controller_id : ℕ) (g : Gate)
    (r : Result ScanError (Unit {0}))
    → NotPass i g.templates g.tickets
    → Fine i g (scan_authorized reader c controller_id g r)
unfolding scan_authorized
authorized-Fine reader i c controller_id g (err e) n = (Calm-refl i g, tt)
authorized-Fine reader i c controller_id g (ok _) n =
    code-Fine reader i c controller_id (read_qr reader c.qr_content) g n

resolved-Fine :
    (reader : QrReader) (i : ℕ) (c : ScanCall) (g : Gate) (r : Result ScanError (Gate × ℕ))
    → NotPass i g.templates g.tickets
    → resolve_controller c g ≡ r
    → Fine i g (scan_resolved reader c g r)
unfolding scan_resolved
resolved-Fine reader i c g (err e) n h = (Calm-refl i g, tt)
resolved-Fine reader i c g (ok (g', controller_id)) n h =
    let same = resolve_controller-rest c g h in
    let calm = Calm-same i g g' same in
    let fine =
      authorized-Fine reader i c controller_id g' (authorize c controller_id g')
        (subst (λ ts. NotPass i ts g'.tickets) (sym same.2) (calm.same_kind g.templates n)) in
    (Calm-trans i g g' _ calm fine.0, fine.1)

pub scan_check-Fine :
    (reader : QrReader) (i : ℕ) (c : ScanCall) (g : Gate)
    → NotPass i g.templates g.tickets
    → Calm i g (scan_check reader c g).0 × QuietResult i (scan_check reader c g).1
unfolding scan_check
scan_check-Fine reader i c g n = resolved-Fine reader i c g (resolve_controller c g) n refl
