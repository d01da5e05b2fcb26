-- ===== src/Mail.antt =====
-- backend/src/common/email/mail-domain.ts: the suggestion of a common mail domain for one that is
-- mistyped. A text is the list of its character codes. An address is its name and its domain, which
-- is trimmed and in small letters. The lookups of the DNS and their cache are not modelled.
pub mod Distance
pub mod Scripts
use ticketing_platform.Prelude.{
  List, Option, [], any, if◌then◌else◌, length, ltb, min, none, same_text, some, ℕ, ◌+◌, ◌==◌, ◌||◌,
  ◌∷◌,
}

unfoldable pub cost : ℕ → ℕ → ℕ
cost x y = if x == y then 0 else 1

-- Math.min(row[j] + 1, row[j - 1] + 1, prev + cost)
unfoldable pub cheapest : ℕ → ℕ → ℕ → ℕ
cheapest above left diagonal = min (min (above + 1) (left + 1)) diagonal

-- The inner loop: `prev` is the old entry before the next one, and `left` the new one.
unfoldable pub next_entries : ℕ → List ℕ → ℕ → ℕ → List ℕ → List ℕ
next_entries x [] prev left entries = []
next_entries x (y ∷ ys) prev left [] = []
next_entries x (y ∷ ys) prev left (cur ∷ entries) =
    let new = cheapest cur left (prev + cost x y) in new ∷ next_entries x ys cur new entries

-- One round of the outer loop, on the first entry of the row and the rest.
unfoldable pub next_row : ℕ → ℕ → List ℕ → ℕ × List ℕ → ℕ × List ℕ
next_row i x b (prev, entries) = (i, next_entries x b prev i entries)

unfoldable pub rows : ℕ → List ℕ → List ℕ → ℕ × List ℕ → ℕ × List ℕ
rows i [] b row = row
rows i (x ∷ xs) b row = rows (i + 1) xs b (next_row i x b row)

-- The entries j + 1, j + 2, … of the first row.
unfoldable pub first_entries : ℕ → List ℕ → List ℕ
first_entries j [] = []
first_entries j (y ∷ ys) = (j + 1) ∷ first_entries (j + 1) ys

-- The last entry of a row.
unfoldable pub last_entry : ℕ → List ℕ → ℕ
last_entry first [] = first
last_entry first (e ∷ es) = last_entry e es

unfoldable pub last_of : ℕ × List ℕ → ℕ
last_of (first, entries) = last_entry first entries

-- distance
unfoldable pub distance : List ℕ → List ℕ → ℕ
distance a b = last_of (rows 1 a b (0, first_entries 0 b))

-- The loop over the common domains: the first one that is nearest, below the distance so far.
unfoldable pub nearest : List ℕ → List (List ℕ) → ℕ → Option (List ℕ) → Option (List ℕ)
nearest domain [] best_dist best = best
nearest domain (d ∷ ds) best_dist best =
    let far = nearest domain ds best_dist best in
    let near = nearest domain ds (distance domain d) (some d) in
    if ltb (distance domain d) best_dist then near else far

-- suggestMailDomain: the domain that is suggested; `common` is COMMON_MAIL_DOMAINS.
unfoldable pub suggest_mail_domain : List (List ℕ) → List ℕ → List ℕ → Option (List ℕ)
suggest_mail_domain common name domain =
    if length name == 0 || length domain == 0 || any (same_text domain) common
    then none
    else nearest domain common 3 none
