-- ===== src/Mail/Distance.antt =====
-- The distance of two texts beside its recursive definition.
use ticketing_platform.Mail.{
  cheapest, cost, distance, first_entries, last_entry, last_of, next_entries, next_row, rows,
}
use ticketing_platform.Prelude.{List, [], ap, arith, length, refl, suc, sym, ℕ, ◌+◌, ◌∙◌, ◌∷◌, ◌≡◌}

-- The number of insertions, deletions and replacements that make one text the other, on texts that
-- are read from their ends.
unfoldable pub edits : List ℕ → List ℕ → ℕ
edits [] ys = length ys
edits (x ∷ xs) [] = suc (length xs)
edits (x ∷ xs) (y ∷ ys) = cheapest (edits xs (y ∷ ys)) (edits (x ∷ xs) ys) (edits xs ys + cost x y)

-- xs from its end, before ys.
unfoldable pub reversed : List ℕ → List ℕ → List ℕ
reversed [] ys = ys
reversed (x ∷ xs) ys = reversed xs (x ∷ ys)

-- The entries of a row that are right: of the text read so far, beside each longer part of the other.
entries_of : List ℕ → List ℕ → List ℕ → List ℕ
entries_of done read [] = []
entries_of done read (y ∷ ys) = edits done (y ∷ read) ∷ entries_of done (y ∷ read) ys

next_entries-right :
    (x : ℕ) (done read rest : List ℕ)
    → next_entries x rest (edits done read) (edits (x ∷ done) read) (entries_of done read rest)
      ≡ entries_of (x ∷ done) read rest
unfolding next_entries entries_of edits
next_entries-right x done read [] = refl
next_entries-right x done read (y ∷ ys) =
    ap (λ es. edits (x ∷ done) (y ∷ read) ∷ es) (next_entries-right x done (y ∷ read) ys)

-- The row after the text read so far.
row_of : List ℕ → List ℕ → ℕ × List ℕ
row_of done b = (length done, entries_of done [] b)

edits_nil : (xs : List ℕ) → edits xs [] ≡ length xs
unfolding edits
edits_nil [] = refl
edits_nil (x ∷ xs) = refl

next_row-right :
    (x : ℕ) (done b : List ℕ)
    → next_row (suc (length done)) x b (row_of done b) ≡ row_of (x ∷ done) b
unfolding next_row row_of edits
next_row-right x done b =
    ap (λ es. (suc (length done), es))
      (ap (λ n. next_entries x b n (suc (length done)) (entries_of done [] b))
          (sym (edits_nil done))
        ∙ next_entries-right x done [] b)

rows-right :
    (a done b : List ℕ) → rows (suc (length done)) a b (row_of done b) ≡ row_of (reversed a done) b
unfolding rows reversed
rows-right [] done b = refl
rows-right (x ∷ xs) done b =
    ap (rows (suc (length done) + 1) xs b) (next_row-right x done b)
    ∙ ap (λ n. rows n xs b (row_of (x ∷ done) b)) (omega arith)
    ∙ rows-right xs (x ∷ done) b

first_entries-right : (read b : List ℕ) → first_entries (length read) b ≡ entries_of [] read b
unfolding first_entries entries_of edits
first_entries-right read [] = refl
first_entries-right read (y ∷ ys) =
    ap (λ n. n ∷ first_entries n ys) (omega arith)
    ∙ ap (λ es. suc (length read) ∷ es) (first_entries-right (y ∷ read) ys)

last_entry-right :
    (done read rest : List ℕ)
    → last_entry (edits done read) (entries_of done read rest) ≡ edits done (reversed rest read)
unfolding last_entry entries_of reversed
last_entry-right done read [] = refl
last_entry-right done read (y ∷ ys) = last_entry-right done (y ∷ read) ys

pub distance_lem : (a b : List ℕ) → distance a b ≡ edits (reversed a []) (reversed b [])
unfolding distance last_of row_of
distance_lem a b =
    ap (λ es. last_of (rows 1 a b (0, es))) (first_entries-right [] b)
    ∙ ap last_of (rows-right a [] b)
    ∙ ap (λ n. last_entry n (entries_of (reversed a []) [] b)) (sym (edits_nil (reversed a [])))
    ∙ last_entry-right (reversed a []) [] b
