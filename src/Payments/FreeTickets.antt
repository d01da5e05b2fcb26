-- ===== src/Payments/FreeTickets.antt =====
-- backend/src/public/public.service.ts, reserveFreeTickets: the daily limit of free tickets.
-- A row of a ticket does not carry the buyer in this model: `contact_of` gives the columns holderEmail
-- and holderPhone of a ticket by its identifier. An e-mail address is a number, the same for every
-- spelling in capitals. The counters are the keys of Redis, with the instant at which they expire.
use ticketing_platform.EventDays.{day_ms}
use ticketing_platform.Tickets.{Ticket, is_online, template_keyed, ticket_keyed}
use ticketing_platform.Prelude.{
  Bool, Keyed, List, Option, Result, [], count_where, err, find, if◌then◌else◌, leb, ltb, max, none,
  ok, same_text, some, true, update, ℕ, ◌&&◌, ◌++◌, ◌+◌, ◌-◌, ◌==◌, ◌||◌, ◌∷◌,
}

abbrev pub free_tickets_per_day : ℕ
free_tickets_per_day = 5

pub record Contact : Type 0 where
  pub email : ℕ
  pub phone : List ℕ

pub record Counter : Type 0 where
  pub ip : ℕ
  pub taken : ℕ
  -- `none` where no limit of time was set.
  pub expires_at : Option ℕ

instance abbrev pub counter_keyed : Keyed Counter
counter_keyed = record { key = λ c. c.ip }

pub data FreeError : Type 0 where
  -- At most so many are left.
  too_many : ℕ → FreeError

unfoldable pub is_same_person : Contact → Contact → Bool
is_same_person a b = a.email == b.email || same_text a.phone b.phone

-- where: { source: 'ONLINE', price: 0, createdAt: { gte: since }, OR: [email, phone] }
unfoldable pub is_free_of : (ℕ → Contact) → Contact → ℕ → Ticket → Bool
is_free_of contact_of who now t =
    is_online t.source
    && t.price == 0
    && leb now (t.created_at + day_ms)
    && is_same_person (contact_of t.id) who

unfoldable pub is_live : ℕ → Counter → Bool
is_live now c = elim c.expires_at [ none ↦ true | some t ↦ ltb now t ]

-- Number(await redis.get(ipKey)) || 0, of what has not expired
unfoldable pub count_of : ℕ → Option Counter → ℕ
count_of now none = 0
count_of now (some c) = if is_live now c then c.taken else 0

abbrev pub set_taken : ℕ → Counter → Counter
set_taken n c = record c { taken = n }

abbrev pub set_new : ℕ → ℕ → Counter → Counter
set_new n now c = record c { taken = n; expires_at = some (now + day_ms) }

-- incrBy, and expire where the count is the quantity itself
unfoldable pub add_taken : ℕ → ℕ → ℕ → List Counter → Option Counter → List Counter
add_taken ip quantity now counters none =
    counters ++ record { ip = ip; taken = quantity; expires_at = some (now + day_ms) } ∷ []
add_taken ip quantity now counters (some c) =
    let n = count_of now (some c) + quantity in
    if n == quantity then update ip (set_new n now) counters else update ip (set_taken n) counters

unfoldable pub by_ip : Option ℕ → ℕ → List Counter → ℕ
by_ip none now counters = 0
by_ip (some ip) now counters = count_of now (find ip counters)

unfoldable pub count_ip : Option ℕ → ℕ → ℕ → List Counter → List Counter
count_ip none quantity now counters = counters
count_ip (some ip) quantity now counters = add_taken ip quantity now counters (find ip counters)

-- reserveFreeTickets
unfoldable pub reserve_free_tickets :
    (ℕ → Contact)
    → Contact
    → Option ℕ
    → ℕ
    → ℕ
    → List Ticket
    → List Counter
    → Result FreeError (List Counter)
reserve_free_tickets contact_of who ip quantity now tickets counters =
    let taken = max (count_where (is_free_of contact_of who now) tickets) (by_ip ip now counters) in
    if quantity == 0
    then ok counters
    else if ltb (free_tickets_per_day - taken) quantity
    then err (too_many (free_tickets_per_day - taken))
    else ok (count_ip ip quantity now counters)
