-- ===== src/Prelude/Results.antt =====
-- A call that may throw: a value, or the exception that the source throws there.
use mathlib.Core.Path.{◌≡◌, refl}
use mathlib.Core.Logic.{◌⊎◌, inl, inr}
use mathlib.Core.Bool.{Bool, true, false}
use mathlib.Core.Option.{Option, none, some}

pub data Result {ℓ κ} (E : Type κ) (A : Type ℓ) : Type (ℓ ⊔ κ) where
  err : E → Result E A
  ok : A → Result E A

-- if (!found) throw e;
abbrev pub or_throw {ℓ κ} : {E : Type κ} {A : Type ℓ} → Option A → E → Result E A
or_throw (some found) e = ok found
or_throw none e = err e

-- found ?? fallback
abbrev pub or_else {ℓ} : {A : Type ℓ} → Option A → A → A
or_else none fallback = fallback
or_else (some found) fallback = found

-- if (!test) throw e;
abbrev pub guard {κ} : {E : Type κ} → Bool → E → Result E (Unit {0})
guard false thrown = err thrown
guard true thrown = ok tt

infixl 5 ◌>>=◌ ◌>>◌
abbrev pub ◌>>=◌ {ℓ κ μ} :
    {E : Type κ} {A : Type ℓ} {B : Type μ} → Result E A → (A → Result E B) → Result E B
err thrown >>= next = err thrown
ok value >>= next = next value

abbrev pub ◌>>◌ {ℓ κ μ} :
    {E : Type κ} {A : Type ℓ} {B : Type μ} → Result E A → Result E B → Result E B
first >> next = first >>= λ _. next

-- catch (err) with a handler on the exception.
abbrev pub catch {ℓ κ} : {E : Type κ} {A : Type ℓ} → Result E A → (E → A) → A
catch (ok a) h = a
catch (err e) h = h e

-- A chain that returns has returned at each of its steps.
pub >>=-eq-ok {ℓ κ μ} :
    {E : Type κ} {A : Type ℓ} {B : Type μ} (step : Result E A) (next : A → Result E B) {last : B}
    → (step >>= next) ≡ ok last
    → (value : A) × (step ≡ ok value) × (next value ≡ ok last)
>>=-eq-ok (err thrown) next returned = cc
>>=-eq-ok (ok value) next returned = (value, refl, returned)

pub or_throw-eq-ok {ℓ κ} :
    {E : Type κ} {A : Type ℓ} (o : Option A) (e : E) {a : A} → or_throw o e ≡ ok a → o ≡ some a
or_throw-eq-ok none e h = cc
or_throw-eq-ok (some x) e h = cc

pub ok-injective {ℓ κ} :
    {E : Type κ} {A : Type ℓ} {a b : A} → ◌≡◌ {A = Result E A} (ok a) (ok b) → a ≡ b
ok-injective h = cc

pub Result-cases {ℓ κ} :
    {E : Type κ} {A : Type ℓ} (r : Result E A) → ((a : A) × (r ≡ ok a)) ⊎ ((e : E) × (r ≡ err e))
Result-cases (ok a) = inl (a, refl)
Result-cases (err e) = inr (e, refl)
