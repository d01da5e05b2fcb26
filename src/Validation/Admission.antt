-- ===== src/Validation/Admission.antt =====
-- Whom the rules of a scan let in.
use ticketing_platform.Prelude.{
  Bool, List, Option, [], false, includes, ltb, none, some, true, ℕ, ◌∷◌,
}
use ticketing_platform.Validation.Scanning.{Verdict, admit, enter_pass, refuse}

-- Not a refusal.
unfoldable pub lets_in : Verdict → Bool
lets_in (refuse result reason) = false
lets_in enter_pass = true
lets_in admit = true

-- Valid that day: a tariff without days is valid every day.
unfoldable pub is_valid_on : List ℕ → ℕ → Bool
is_valid_on [] day = true
is_valid_on (d ∷ days) day = includes day (d ∷ days)

unfoldable pub has_ended : Option ℕ → ℕ → Bool
has_ended end_date now = elim end_date [ none ↦ false | some last ↦ ltb last now ]
