-- ===== src/Payments/Once.antt =====
-- What a step of the requests does to one payment: its status, the requests that have claimed it, and
-- the times that its tickets have begun to be issued.
use ticketing_platform.Payments.Diagram.{
  World, claimed, closed, given_back, issued, onwards, status_of, stay, ◌⟶*◌, ◌⟶◌,
}
use ticketing_platform.Payments.{
  Payment, PaymentStatus, cancelled, completed, failed, pending, processing, refunded,
}
use ticketing_platform.Prelude.{
  Option, arith, if◌then◌else◌, inl, inr, none, refl, some, subst, suc, sum_by, sym, ℕ, ◌+◌, ◌==◌,
  ◌∙◌, ◌≡◌, ◌≤◌, ◌⊎◌,
}

-- The requests that have claimed a payment and not begun to issue its tickets.
unfoldable pub claims_of : ℕ → World → ℕ
claims_of i w = sum_by (λ (p : Payment). if p.id == i then 1 else 0) w.claims

-- The times that the tickets of a payment have begun to be issued.
unfoldable pub begun_of : ℕ → World → ℕ
begun_of i w = sum_by (λ j. if j == i then 1 else 0) w.begun

-- What a status leaves for the claims of a payment and the times its tickets have begun.
abbrev pub Room : Option PaymentStatus → ℕ → ℕ → Type 0
Room (some processing) c b = c + b ≤ 1
Room (some completed) c b = (c ≡ 0) × (b ≤ 1)
Room (some refunded) c b = (c ≡ 0) × (b ≤ 1)
Room _ c b = c + b ≡ 0

abbrev pub Safe : ℕ → World → Type 0
Safe i w = Room (status_of i w.sales.payments) (claims_of i w) (begun_of i w)

-- What a step does to one payment: its status, its claims and the times its tickets have begun.
pub data Change (a a' : Option PaymentStatus) (c c' b b' : ℕ) : Type 0 where
  keeps : a' ≡ a → c' ≡ c → b' ≡ b → Change a a' c c' b b'
  closes : a ≡ some pending → a' ≡ some failed → c' ≡ c → b' ≡ b → Change a a' c c' b b'
  takes : a ≡ some pending → a' ≡ some processing → c' ≡ suc c → b' ≡ b → Change a a' c c' b b'
  begins : (a' ≡ a) ⊎ (a' ≡ some completed) → c ≡ suc c' → b' ≡ suc b → Change a a' c c' b b'
  repays : a ≡ some completed → a' ≡ some refunded → c' ≡ c → b' ≡ b → Change a a' c c' b b'
  appears : (x : PaymentStatus) → a ≡ none → a' ≡ some x → c' ≡ c → b' ≡ b → Change a a' c c' b b'

abbrev pub Changes : ℕ → World → World → Type 0
Changes i v w =
    Change (status_of i v.sales.payments) (status_of i w.sales.payments) (claims_of i v)
      (claims_of i w) (begun_of i v) (begun_of i w)

Room-keeps :
    {a a' : Option PaymentStatus} {c c' b b' : ℕ}
    → a' ≡ a
    → c' ≡ c
    → b' ≡ b
    → Room a c b
    → Room a' c' b'
Room-keeps e f g r = rw (e, f, g) r

Room-begins : (a : Option PaymentStatus) (c b : ℕ) → Room a (suc c) b → Room a c (suc b)
Room-begins none c b r = omega arith
Room-begins (some pending) c b r = omega arith
Room-begins (some processing) c b r = omega arith
Room-begins (some completed) c b r = omega (arith, r.0)
Room-begins (some failed) c b r = omega arith
Room-begins (some cancelled) c b r = omega arith
Room-begins (some refunded) c b r = omega (arith, r.0)

Room-completes :
    (a : Option PaymentStatus) (c b : ℕ) → Room a (suc c) b → Room (some completed) c (suc b)
Room-completes none c b r = omega arith
Room-completes (some pending) c b r = omega arith
Room-completes (some processing) c b r = (omega arith, omega arith)
Room-completes (some completed) c b r = omega (arith, r.0)
Room-completes (some failed) c b r = omega arith
Room-completes (some cancelled) c b r = omega arith
Room-completes (some refunded) c b r = omega (arith, r.0)

Room-free : (x : PaymentStatus) (c b : ℕ) → Room none c b → Room (some x) c b
Room-free pending c b r = r
Room-free processing c b r = omega arith
Room-free completed c b r = (omega arith, omega arith)
Room-free failed c b r = r
Room-free cancelled c b r = r
Room-free refunded c b r = (omega arith, omega arith)

pub Change-Room :
    {a a' : Option PaymentStatus} {c c' b b' : ℕ}
    → Change a a' c c' b b'
    → Room a c b
    → Room a' c' b'
Change-Room (keeps e f g) r = Room-keeps e f g r
Change-Room {c = c} {b = b} (closes e e' f g) r = Room-keeps e' f g (subst (λ x. Room x c b) e r)
Change-Room {c = c} {b = b} (takes e e' f g) r =
    rw (e', f, g) (omega (arith, subst (λ x. Room x c b) e r))
Change-Room {a = a} {c' = c'} {b = b} (begins (inl same) f g) r =
    rw (same, g) (Room-begins a c' b (subst (λ n. Room a n b) f r))
Change-Room {a = a} {c' = c'} {b = b} (begins (inr done) f g) r =
    rw (done, g) (Room-completes a c' b (subst (λ n. Room a n b) f r))
Change-Room {c = c} {b = b} (repays e e' f g) r = Room-keeps e' f g (subst (λ x. Room x c b) e r)
Change-Room {c = c} {b = b} (appears x e e' f g) r =
    Room-keeps e' f g (Room-free x c b (subst (λ y. Room y c b) e r))

some-injective : {x y : PaymentStatus} → ◌≡◌ {A = Option PaymentStatus} (some x) (some y) → x ≡ y
some-injective h = cc

-- The status of a payment goes along the diagram, once the payment is there.
abbrev pub Along : Option PaymentStatus → Option PaymentStatus → Type 0
Along a b = (x : PaymentStatus) → a ≡ some x → (y : PaymentStatus) × (b ≡ some y) × (x ⟶* y)

arrow :
    {a a' : Option PaymentStatus} {x y : PaymentStatus}
    → a ≡ some x
    → a' ≡ some y
    → x ⟶ y
    → Along a a'
arrow {a = a} {x = x} {y} e e' step z was =
    (y, e', subst (λ k. k ⟶* y) (some-injective (sym e ∙ was)) (onwards stay step))

processing_only : (a : Option PaymentStatus) (c b : ℕ) → Room a (suc c) b → a ≡ some processing
processing_only none c b r = ground arith
processing_only (some pending) c b r = ground arith
processing_only (some processing) c b r = refl
processing_only (some completed) c b r = ground (arith, r.0)
processing_only (some failed) c b r = ground arith
processing_only (some cancelled) c b r = ground arith
processing_only (some refunded) c b r = ground (arith, r.0)

pub Change-Along :
    {a a' : Option PaymentStatus} {c c' b b' : ℕ} → Change a a' c c' b b' → Room a c b → Along a a'
Change-Along (keeps e f g) r = λ x was. (x, e ∙ was, stay)
Change-Along (closes e e' f g) r = arrow e e' closed
Change-Along (takes e e' f g) r = arrow e e' claimed
Change-Along (begins (inl same) f g) r = λ x was. (x, same ∙ was, stay)
Change-Along {a = a} {c' = c'} {b = b} (begins (inr done) f g) r =
    arrow (processing_only a c' b (subst (λ n. Room a n b) f r)) done issued
Change-Along (repays e e' f g) r = arrow e e' given_back
Change-Along (appears y e e' f g) r = λ x was. cc
