-- ===== src/Tickets/Batches.antt =====
-- generateTickets as a whole: every outcome, when no other request comes in between.
use ticketing_platform.Tickets.Seats.{batch_rows-AreSeatsOf}
use ticketing_platform.PrintQuota.Laws.{refund_credits-credits}
use ticketing_platform.Prelude.{
  >>=-eq-ok, Bool-cases, List, Option, Result-cases, ap, arith, claim, err, false, find, guard, inl,
  inr, length, not, ok, ok-injective, or_throw, or_throw-eq-ok, refl, some, sym, update, ℕ, ◌++◌,
  ◌+◌, ◌<◌, ◌∙◌, ◌≡◌, ◌≤◌, ◌⊎◌,
}
use ticketing_platform.Access.{Event, Role, event_keyed}
use ticketing_platform.PrintQuota.{Plan, account_keyed, credits, tickets}
use ticketing_platform.Tickets.{
  Template, Ticket, TicketError, TicketSource, Ticketing, event_cancelled, no_signature,
  template_keyed, template_not_found, ticket_keyed,
}
use ticketing_platform.Tickets.Generation.{
  Codes, GenerateDto, batch_count, batch_rows, check_batch, check_seats, existing_count, find_event,
  finish_batch, generate_tickets, insert_batch, is_event_cancelled, pay_prints, sign_batch,
  take_seats,
}

check_seats-ok :
    (event_id : ℕ) (dto : GenerateDto) (template : Template) {count : ℕ}
    → check_seats event_id dto template ≡ ok count
    → (template.event_id ≡ event_id)
      × (count ≡ batch_count dto)
      × (0 < count)
      × (count ≤ template.available_count)
unfolding check_seats
check_seats-ok event_id dto template h = ground arith

check_batch-ok :
    (s : Ticketing) (event_id organizer_id : ℕ) (role : Role) (dto : GenerateDto) {event : Event}
    {template : Template} {count : ℕ}
    → check_batch s event_id organizer_id role dto ≡ ok (event, template, count)
    → (find dto.template_id s.templates ≡ some template)
      × (check_seats event_id dto template ≡ ok count)
unfolding check_batch
check_batch-ok s event_id organizer_id role dto {event} {template} {count} h =
    let (e, _, after_event) = >>=-eq-ok (find_event s event_id organizer_id role) _ h in
    let (_, _, after_status) =
      >>=-eq-ok (guard (not (is_event_cancelled e.status)) event_cancelled) _ after_event in
    let (t, found, after_template) =
      >>=-eq-ok (or_throw (find dto.template_id s.templates) template_not_found) _ after_status in
    let (c, checked, all) = >>=-eq-ok (check_seats event_id dto t) _ after_template in
    let same = ok-injective all in
    let same_template : t ≡ template = ap (λ (p : Event × Template × ℕ). p.1) same in
    let same_count : c ≡ count = ap (λ (p : Event × Template × ℕ). p.2) same in
    (
      or_throw-eq-ok (find dto.template_id s.templates) template_not_found found
          ∙ ap some same_template,
      ap (check_seats event_id dto) (sym same_template) ∙ checked ∙ ap ok same_count,
    )

-- The transaction goes through where enough seats are left.
insert_batch-enough :
    (template_id count : ℕ) (rows : List Ticket) (s : Ticketing) {t : Template}
    → find template_id s.templates ≡ some t
    → count ≤ t.available_count
    → insert_batch template_id count rows s
      ≡ ok (record s {
        templates = update template_id (take_seats count) s.templates;
        tickets = s.tickets ++ rows;
      })
unfolding insert_batch claim
insert_batch-enough template_id count rows s found enough = ground arith

finish_batch-enough :
    (template_id organizer_id count credits_taken : ℕ) (rows : List Ticket) (s : Ticketing)
    {t : Template}
    → find template_id s.templates ≡ some t
    → count ≤ t.available_count
    → finish_batch template_id organizer_id count credits_taken rows s ≡ (
      record s {
        templates = update template_id (take_seats count) s.templates;
        tickets = s.tickets ++ rows;
      },
      ok rows,
    )
unfolding finish_batch
finish_batch-enough template_id organizer_id count credits_taken rows s found enough =
    rw (insert_batch-enough template_id count rows s found enough, finish_batch)

-- The call has paid for its prints, and then the key does not sign: the credits stay taken.
abbrev pub IsUnsigned :
    Codes → Plan → ℕ → ℕ → ℕ → Role → GenerateDto → TicketSource → Ticketing → Ticketing → Type 0
IsUnsigned codes plan printed event_id organizer_id role dto source s after =
    (event : Event) × (template : Template) × (count : ℕ) × (taken : ℕ) × (check_batch s event_id
        organizer_id role dto
      ≡ ok (event, template, count))
    × (pay_prints source plan printed s.accounts event.organizer_id count
        ≡ ok (after.accounts, taken))
    × (codes.can_sign event.organizer_id ≡ false)
    × (after ≡ record s { accounts = after.accounts })

-- The rows that were asked for are inserted, and the seats of their template are taken.
abbrev pub IsIssued : GenerateDto → Ticketing → Ticketing → List Ticket → Type 0
IsIssued dto s after rows =
    (length rows ≡ batch_count dto)
    × (after.tickets ≡ s.tickets ++ rows)
    × (after.templates ≡ update dto.template_id (take_seats (batch_count dto)) s.templates)

-- generateTickets, with no other request in between, throws and leaves every table as it was; or it
-- throws where the organizer's key does not sign, after the prints are paid, and then their credits
-- stay taken and nothing else has changed; or it inserts as many rows as were asked for, with the
-- seats of their template taken.
pub generate_tickets-outcome :
    (codes : Codes) (plan : Plan) (printed event_id organizer_id : ℕ) (role : Role)
    (dto : GenerateDto) (source : TicketSource) (price : Option ℕ) (now : ℕ) (s : Ticketing)
    → let (after, r) =
        generate_tickets codes plan printed event_id organizer_id role dto source price now s in
      ((e : TicketError) × (r ≡ err e) × (after ≡ s))
      ⊎ (((r ≡ err no_signature)
            × IsUnsigned codes plan printed event_id organizer_id role dto source s after)
          ⊎ ((rows : List Ticket) × (r ≡ ok rows) × IsIssued dto s after rows))
unfolding generate_tickets sign_batch
generate_tickets-outcome codes plan printed event_id organizer_id role dto source price now s =
    elim (Result-cases (check_batch s event_id organizer_id role dto)) [
      | inr (e, refused) ↦ rw (refused, generate_tickets) (inl (e, refl, refl))
      | inl ((event, template, count), checked) ↦
          rw (checked, generate_tickets)
            (elim (Result-cases
              (pay_prints source plan printed s.accounts event.organizer_id count)) [
                | inr (e, refused) ↦ rw (refused, generate_tickets) (inl (e, refl, refl))
                | inl ((accounts, spent), paid) ↦
                    let (found, seats_left) =
                      check_batch-ok s event_id organizer_id role dto checked in
                    let (_, asked, _, enough) = check_seats-ok event_id dto template seats_left in
                    let rows =
                      batch_rows codes template event_id source price now
                        (existing_count event_id dto.template_id s.tickets + 1) count in
                    let (_, long) =
                      batch_rows-AreSeatsOf codes template event_id source price now
                        (existing_count event_id dto.template_id s.tickets + 1) count in
                    rw (paid, generate_tickets, sign_batch)
                      (elim (Bool-cases (codes.can_sign event.organizer_id)) [
                        | inl signs ↦
                            rw
                              (
                                signs,
                                finish_batch-enough dto.template_id event.organizer_id count spent
                                    rows (record s { accounts = accounts }) found enough,
                              )
                              (inr (
                                inr (
                                  rows,
                                  refl,
                                  (
                                    long ∙ asked,
                                    refl,
                                    ap (λ n. update dto.template_id (take_seats n) s.templates)
                                        asked,
                                  ),
                                )))
                        | inr unsigned ↦ rw unsigned (
                            inr (
                              inl (
                                refl,
                                (event, template, count, spent, refl, paid, unsigned, refl),
                              )))
                      ])
              ])
    ]

-- Where the transaction fails, because the seats went meanwhile, no row is inserted and no seat is
-- taken, and the organizer gets the credits of the batch back.
pub finish_batch-err :
    (template_id organizer_id count credits_taken : ℕ) (rows : List Ticket) (s : Ticketing)
    {after : Ticketing} {e : TicketError}
    → finish_batch template_id organizer_id count credits_taken rows s ≡ (after, err e)
    → (after.tickets ≡ s.tickets)
      × (after.templates ≡ s.templates)
      × (credits tickets organizer_id after.accounts
          ≡ credits tickets organizer_id s.accounts + credits_taken)
unfolding finish_batch
finish_batch-err template_id organizer_id count credits_taken rows s {after} h = ground (
  arith,
  Result-cases (insert_batch template_id count rows s),
  refund_credits-credits tickets organizer_id credits_taken s.accounts,
)
