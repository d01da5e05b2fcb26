-- ===== src/Tickets/Seats.antt =====
-- The seats of a tariff: those that are left and those that its tickets take.
use ticketing_platform.Tickets.Cancel.{
  cancel_ticket, check_cancel, commit_cancel, free_seat, free_ticket_seat, may_act, set_cancelled,
}
use ticketing_platform.Prelude.{
  ==→eq, >>=-eq-ok, All, Bool-cases, List, Option, [], ap, arith, claim, claim-eq-some, false, find,
  find-update, if◌then◌else◌, inl, inr, key_of_find, leb, length, none, ok, ok-injective, or_throw,
  or_throw-eq-ok, refl, some, subst, suc, sum_by, sum_by-append, sum_by-update, sym, true, update,
  zero, ℕ, ◌&&◌, ◌+◌, ◌==◌, ◌>>=◌, ◌∙◌, ◌∷◌, ◌≡◌,
}
use ticketing_platform.Access.{Role, event_keyed}
use ticketing_platform.PrintQuota.{account_keyed}
use ticketing_platform.Tickets.{
  Template, Ticket, TicketSource, Ticketing, is_cancelled, is_open, is_used, record_not_found,
  sold_out, takes_seat, template_keyed, ticket_keyed, ticket_not_found,
}
use ticketing_platform.Tickets.Generation.{Codes, batch_rows, insert_batch, take_seats}

-- 1 for a ticket of the template that takes a seat.
unfoldable pub seat_of : ℕ → Ticket → ℕ
seat_of template_id t = if t.template_id == template_id && takes_seat t.status then 1 else 0

-- The seats that the tickets of a template take.
unfoldable pub taken : ℕ → List Ticket → ℕ
taken template_id = sum_by (seat_of template_id)

-- The seats of a template that are left.
unfoldable pub left : ℕ → List Template → ℕ
left template_id templates = elim (find template_id templates) [
  | none ↦ 0
  | some t ↦ t.available_count
]

unfoldable pub seats : ℕ → Ticketing → ℕ
seats template_id s = left template_id s.templates + taken template_id s.tickets

-- Rows that all take a seat of one template.
abbrev pub AreSeatsOf : ℕ → List Ticket → Type 0
AreSeatsOf template_id rows =
    All (λ r. (r.template_id ≡ template_id) × (takes_seat r.status ≡ true)) rows

taken-rows :
    (i template_id : ℕ) (rows : List Ticket)
    → AreSeatsOf template_id rows
    → taken i rows ≡ (if template_id == i then length rows else 0)
unfolding taken seat_of sum_by
taken-rows i template_id [] h = ground arith
taken-rows i template_id (r ∷ rs) h = ground (arith, taken-rows i template_id rs h.1)

pub batch_rows-AreSeatsOf :
    (codes : Codes) (template : Template) (event_id : ℕ) (source : TicketSource) (price : Option ℕ)
    (now sequence count : ℕ)
    → AreSeatsOf template.id (batch_rows codes template event_id source price now sequence count)
      × (length (batch_rows codes template event_id source price now sequence count) ≡ count)
unfolding batch_rows takes_seat
batch_rows-AreSeatsOf codes template event_id source price now sequence zero = (tt, refl)
batch_rows-AreSeatsOf codes template event_id source price now sequence (suc count) =
    let (are, long) =
      batch_rows-AreSeatsOf codes template event_id source price now (sequence + 1) count in
    (((refl, refl), are), ap suc long)

left-claim :
    (i template_id count : ℕ) (templates after : List Template)
    → claim template_id (λ t. leb count t.available_count) (take_seats count) templates ≡ some after
    → left i after + (if template_id == i then count else 0) ≡ left i templates
unfolding left
left-claim i template_id count templates after h =
    let (t, found, enough, e) =
      claim-eq-some template_id (λ t. leb count t.available_count) (take_seats count) templates h in
    elim (Bool-cases (template_id == i)) [
      | inl same ↦ ground (
        arith,
        find-update template_id i (take_seats count) templates (λ x. refl),
        ==→eq template_id i same,
      )
      | inr another ↦
          ground (arith, find-update template_id i (take_seats count) templates (λ x. refl))
    ]

-- An insertion of a batch that goes through, of as many rows of its template as it counts, each with
-- a seat, keeps for each tariff the sum of the seats that are left and of those that its tickets take.
pub insert_batch-seats :
    (i template_id count : ℕ) (rows : List Ticket) (s : Ticketing) {after : Ticketing}
    → AreSeatsOf template_id rows
    → length rows ≡ count
    → insert_batch template_id count rows s ≡ ok after
    → seats i after ≡ seats i s
unfolding insert_batch seats taken
insert_batch-seats i template_id count rows s are long h =
    let claimed =
      claim template_id (λ t. leb count t.available_count) (take_seats count) s.templates in
    let (templates, hit, e) = >>=-eq-ok (or_throw claimed sold_out) _ h in
    rw (← ok-injective e) (
      omega (
        arith,
        left-claim i template_id count s.templates templates (or_throw-eq-ok claimed sold_out hit),
        sum_by-append (seat_of i) s.tickets rows,
        taken-rows i template_id rows are,
        ap (λ n. if template_id == i then n else 0) long,
      ))

pub left-free :
    (i template_id : ℕ) (templates : List Template) {t : Template}
    → find template_id templates ≡ some t
    → left i (update template_id free_seat templates)
      ≡ left i templates + (if template_id == i then 1 else 0)
unfolding left
left-free i template_id templates found = elim (Bool-cases (template_id == i)) [
  | inl same ↦
      ground
        (arith, find-update template_id i free_seat templates (λ x. refl), ==→eq template_id i same)
  | inr another ↦ ground (arith, find-update template_id i free_seat templates (λ x. refl))
]

pub free_ticket_seat-left :
    (i : ℕ) (ticket : Ticket) (templates after : List Template)
    → free_ticket_seat ticket templates ≡ ok after
    → left i after
      ≡ left i templates
        + (if is_open ticket.status then if ticket.template_id == i then 1 else 0 else 0)
unfolding free_ticket_seat
free_ticket_seat-left i ticket templates after h = elim (Bool-cases (is_open ticket.status)) [
  | inl open_one ↦
      let (t, found, e) =
        >>=-eq-ok (or_throw (find ticket.template_id templates) record_not_found)
          (λ _. ok (update ticket.template_id free_seat templates))
          (subst
            (λ b.
              (if b
                then (or_throw (find ticket.template_id templates) record_not_found >>= λ t.
                    ok (update ticket.template_id free_seat templates))
                else ok templates)
              ≡ ok after)
            open_one h) in
      rw (open_one, ← ok-injective e)
        (left-free i ticket.template_id templates
          (or_throw-eq-ok (find ticket.template_id templates) record_not_found found))
  | inr closed ↦ ground arith
]

pub check_cancel-ok :
    (ticket_id organizer_id : ℕ) (role : Role) (s : Ticketing) {ticket : Ticket}
    → check_cancel ticket_id organizer_id role s ≡ ok ticket
    → (find ticket_id s.tickets ≡ some ticket)
      × (is_cancelled ticket.status ≡ false)
      × (is_used ticket.status ≡ false)
unfolding check_cancel
check_cancel-ok ticket_id organizer_id role s {ticket} h =
    let (t, found, h') = >>=-eq-ok (or_throw (find ticket_id s.tickets) ticket_not_found) _ h in
    let (_, _, rest) = >>=-eq-ok (may_act s.events organizer_id role t) _ h' in
    let open_one : (t ≡ ticket) × (is_cancelled t.status ≡ false) × (is_used t.status ≡ false) =
      ground arith in
    (
      or_throw-eq-ok (find ticket_id s.tickets) ticket_not_found found ∙ ap some open_one.0,
      ap (λ (x : Ticket). is_cancelled x.status) (sym open_one.0) ∙ open_one.1,
      ap (λ (x : Ticket). is_used x.status) (sym open_one.0) ∙ open_one.2,
    )

-- A ticket that may be cancelled takes a seat exactly if it is open.
pub closed_seat :
    (i now : ℕ) (t : Ticket)
    → is_used t.status ≡ false
    → seat_of i (set_cancelled now t)
        + (if is_open t.status then if t.template_id == i then 1 else 0 else 0)
      ≡ seat_of i t
unfolding seat_of takes_seat is_open is_used
closed_seat i now t h = ground arith

-- The writes of a cancellation give back the seat of the row, if it is the ticket that was read.
pub commit_cancel-seats :
    (i now : ℕ) (ticket : Ticket) (s : Ticketing) {after : Ticketing}
    → find ticket.id s.tickets ≡ some ticket
    → is_used ticket.status ≡ false
    → commit_cancel ticket now s ≡ ok after
    → seats i after ≡ seats i s
unfolding commit_cancel seats taken
commit_cancel-seats i now ticket s found unused h =
    let (_, _, h') = >>=-eq-ok (or_throw (find ticket.id s.tickets) record_not_found) _ h in
    let (templates, freed, e) = >>=-eq-ok (free_ticket_seat ticket s.templates) _ h' in
    rw (← ok-injective e) (
      omega (
        arith,
        free_ticket_seat-left i ticket s.templates templates freed,
        sum_by-update (seat_of i) ticket.id (set_cancelled now) s.tickets found,
        closed_seat i now ticket unused,
      ))

-- A cancellation that goes through with no other request in between keeps, for each tariff, the sum of
-- the seats that are left and of those that its tickets take.
pub cancel_ticket-seats :
    (i ticket_id organizer_id : ℕ) (role : Role) (now : ℕ) (s : Ticketing) {after : Ticketing}
    → cancel_ticket ticket_id organizer_id role now s ≡ ok after
    → seats i after ≡ seats i s
unfolding cancel_ticket
cancel_ticket-seats i ticket_id organizer_id role now s h =
    let (ticket, checks, done) = >>=-eq-ok (check_cancel ticket_id organizer_id role s) _ h in
    let (found, _, unused) = check_cancel-ok ticket_id organizer_id role s checks in
    commit_cancel-seats i now ticket s
      (subst (λ k. find k s.tickets ≡ some ticket) (sym (key_of_find ticket_id s.tickets found))
        found)
      unused done
