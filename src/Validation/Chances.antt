-- ===== src/Validation/Chances.antt =====
-- What a scan leaves of the chances of a ticket to be let in.
use ticketing_platform.Prelude.{
  All, Bool, Bool-cases, List, Option, Option-cases, [], arith, false, find, find_first,
  if◌then◌else◌, inl, inr, none, ok, refl, some, subst, suc, sum_by, sum_by-append, sym, true,
  update, ℕ, ◌&&◌, ◌++◌, ◌+◌, ◌==◌, ◌∙◌, ◌∷◌, ◌≡◌, ◌≤◌,
}
use ticketing_platform.Access.{event_keyed}
use ticketing_platform.Tickets.{Template, Ticket, is_open, template_keyed, ticket_keyed}
use ticketing_platform.Validation.{
  Controller, Gate, Scan, ScanResult, is_pass, is_valid_scan, scan_keyed, user_keyed, valid_days_of,
}
use ticketing_platform.Validation.Scanning.{
  ScanCall, mark_fraudulent, mark_used, record_scan, recorded, resolve_controller,
}

-- A recorded entry of a ticket.
unfoldable pub is_entry : ℕ → Scan → Bool
is_entry i s = elim s.ticket_id [ none ↦ false | some j ↦ j == i ] && is_valid_scan s.result

unfoldable pub entries : ℕ → List Scan → ℕ
entries i = sum_by (λ s. if is_entry i s then 1 else 0)

-- 1 if the ticket's row can still be claimed.
unfoldable pub claimable : ℕ → List Ticket → ℕ
claimable i tickets = elim (find i tickets) [
  | none ↦ 0
  | some t ↦ if is_open t.status then 1 else 0
]

-- The entries that were recorded and the one that may still come.
unfoldable pub chances : ℕ → Gate → ℕ
chances i g = entries i g.scans + claimable i g.tickets

-- The rows of the ticket are of a tariff that is no pass.
abbrev pub NotPass : ℕ → List Template → List Ticket → Type 0
NotPass i templates = All (λ t. (t.id == i) ≡ true → is_pass (valid_days_of templates t) ≡ false)

-- The tables change without a new chance for the ticket.
pub record Calm (i : ℕ) (g h : Gate) : Type 0 where
  pub same_templates : h.templates ≡ g.templates
  pub same_kind : (ts : List Template) → NotPass i ts g.tickets → NotPass i ts h.tickets
  pub no_chance : chances i h ≤ chances i g

pub Calm-refl : (i : ℕ) (g : Gate) → Calm i g g
Calm-refl i g = record { same_templates = refl; same_kind = λ ts n. n; no_chance = omega arith }

pub Calm-trans : (i : ℕ) (f g h : Gate) → Calm i f g → Calm i g h → Calm i f h
Calm-trans i f g h a b = record {
  same_templates = b.same_templates ∙ a.same_templates;
  same_kind = λ ts n. b.same_kind ts (a.same_kind ts n);
  no_chance = omega (arith, a.no_chance, b.no_chance);
}

pub entries-append :
    (i : ℕ) (scans : List Scan) (s : Scan)
    → entries i (scans ++ s ∷ []) ≡ entries i scans + (if is_entry i s then 1 else 0)
unfolding entries sum_by
entries-append i scans s =
    omega (arith, sum_by-append (λ (x : Scan). if is_entry i x then 1 else 0) scans (s ∷ []))

pub no_entry : (i : ℕ) (s : Scan) → is_valid_scan s.result ≡ false → is_entry i s ≡ false
unfolding is_entry
no_entry i s h = ground arith

entries-no_entry :
    (i : ℕ) (scans : List Scan) (s : Scan)
    → is_valid_scan s.result ≡ false
    → entries i (scans ++ s ∷ []) ≡ entries i scans
entries-no_entry i scans s h = ground (arith, entries-append i scans s, no_entry i s h)

-- A refusal is no entry.
pub record_scan-Calm :
    (i : ℕ) (c : ScanCall) (controller_id : ℕ) (ticket_id : Option ℕ) (result : ScanResult)
    (g : Gate)
    → is_valid_scan result ≡ false
    → Calm i g (record_scan c controller_id ticket_id result g)
unfolding record_scan
record_scan-Calm i c controller_id ticket_id result g refused = record {
  same_templates = refl;
  same_kind = λ ts n. n;
  no_chance =
      unfold chances in
      omega (arith, entries-no_entry i g.scans (recorded c controller_id ticket_id result) refused);
}

-- A row that is marked fraudulent cannot be claimed.
claimable-fraudulent :
    (i j : ℕ) (tickets : List Ticket)
    → claimable i (update j mark_fraudulent tickets) ≤ claimable i tickets
unfolding claimable find update is_open
claimable-fraudulent i j [] = ground arith
claimable-fraudulent i j (t ∷ rest) = ground (arith, claimable-fraudulent i j rest)

NotPass-fraudulent :
    (i j : ℕ) (ts : List Template) (tickets : List Ticket)
    → NotPass i ts tickets
    → NotPass i ts (update j mark_fraudulent tickets)
unfolding update valid_days_of
NotPass-fraudulent i j ts [] n = tt
NotPass-fraudulent i j ts (t ∷ rest) n = elim (Bool-cases (t.id == j)) [
  | inl e ↦
      subst
        (λ b.
          NotPass i ts (if b then mark_fraudulent t ∷ rest else t ∷ update j mark_fraudulent rest))
        (sym e) n
  | inr e ↦
      subst
        (λ b.
          NotPass i ts (if b then mark_fraudulent t ∷ rest else t ∷ update j mark_fraudulent rest))
        (sym e) (n.0, NotPass-fraudulent i j ts rest n.1)
]

pub mark_fraudulent-Calm :
    (i j : ℕ) (g : Gate) → Calm i g (record g { tickets = update j mark_fraudulent g.tickets })
mark_fraudulent-Calm i j g = record {
  same_templates = refl;
  same_kind = λ ts. NotPass-fraudulent i j ts g.tickets;
  no_chance = unfold chances in omega (arith, claimable-fraudulent i j g.tickets);
}

-- A used row cannot be claimed.
pub claimable-used :
    (i j at : ℕ) (tickets : List Ticket)
    → claimable i (update j (mark_used at) tickets) ≤ claimable i tickets
unfolding claimable find update is_open
claimable-used i j at [] = ground arith
claimable-used i j at (t ∷ rest) = ground (arith, claimable-used i j at rest)

pub NotPass-used :
    (i j at : ℕ) (ts : List Template) (tickets : List Ticket)
    → NotPass i ts tickets
    → NotPass i ts (update j (mark_used at) tickets)
unfolding update valid_days_of
NotPass-used i j at ts [] n = tt
NotPass-used i j at ts (t ∷ rest) n = elim (Bool-cases (t.id == j)) [
  | inl e ↦
      subst
        (λ b. NotPass i ts (if b then mark_used at t ∷ rest else t ∷ update j (mark_used at) rest))
        (sym e) n
  | inr e ↦
      subst
        (λ b. NotPass i ts (if b then mark_used at t ∷ rest else t ∷ update j (mark_used at) rest))
        (sym e) (n.0, NotPass-used i j at ts rest n.1)
]

-- The claim of an open row spends its chance.
pub claimable-claimed :
    (i at : ℕ) (tickets : List Ticket) {t : Ticket}
    → find i tickets ≡ some t
    → is_open t.status ≡ true
    → suc (claimable i (update i (mark_used at) tickets)) ≡ claimable i tickets
unfolding claimable find update is_open
claimable-claimed i at [] h o = cc
claimable-claimed i at (x ∷ rest) {t} h o = ground (arith, claimable-claimed i at rest {t = t})

-- The new controller row of an organizer changes no other table.
pub resolve_controller-rest :
    (c : ScanCall) (g : Gate) {g' : Gate} {controller_id : ℕ}
    → resolve_controller c g ≡ ok (g', controller_id)
    → (g'.tickets ≡ g.tickets) × (g'.scans ≡ g.scans) × (g'.templates ≡ g.templates)
unfolding resolve_controller
resolve_controller-rest c g h = ground (
  arith,
  Option-cases (find c.user_id g.users),
  Option-cases (
      find_first
        (λ (x : Controller).
          x.email == (elim (find c.user_id g.users) [ none ↦ 0 | some u ↦ u.email ]))
        g.controllers),
)

pub Calm-same :
    (i : ℕ) (g h : Gate)
    → (h.tickets ≡ g.tickets) × (h.scans ≡ g.scans) × (h.templates ≡ g.templates)
    → Calm i g h
unfolding chances
Calm-same i g h e = record {
  same_templates = e.2;
  same_kind = λ ts n. subst (NotPass i ts) (sym e.0) n;
  no_chance = rw (e.0, e.1) omega arith;
}
