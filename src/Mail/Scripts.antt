-- ===== src/Mail/Scripts.antt =====
-- The distance of two texts is the number of edits that turn one into the other, at the least.
use ticketing_platform.Mail.Distance.{distance_lem, edits, reversed}
use ticketing_platform.Mail.{cheapest, cost, distance}
use ticketing_platform.Prelude.{
  ==_refl, ==→eq, Bool-cases, List, [], ap, arith, inl, inr, length, refl, subst, suc, sym, ℕ, ◌++◌,
  ◌+◌, ◌==◌, ◌∙◌, ◌∷◌, ◌≡◌, ◌≤◌, ◌⊎◌,
}

-- One text is turned into the other, from its start to its end, in so many edits.
pub data Script : ℕ → List ℕ → List ℕ → Type 0 where
  done : Script 0 [] []
  keeps : {n : ℕ} {xs ys : List ℕ} (x : ℕ) → Script n xs ys → Script n (x ∷ xs) (x ∷ ys)
  replaces : {n : ℕ} {xs ys : List ℕ} (x y : ℕ) → Script n xs ys → Script (suc n) (x ∷ xs) (y ∷ ys)
  inserts : {n : ℕ} {xs ys : List ℕ} (y : ℕ) → Script n xs ys → Script (suc n) xs (y ∷ ys)
  deletes : {n : ℕ} {xs ys : List ℕ} (x : ℕ) → Script n xs ys → Script (suc n) (x ∷ xs) ys

insert_all : (ys : List ℕ) → Script (length ys) [] ys
insert_all [] = done
insert_all (y ∷ ys) = inserts y (insert_all ys)

delete_all : (xs : List ℕ) → Script (length xs) xs []
delete_all [] = done
delete_all (x ∷ xs) = deletes x (delete_all xs)

-- The last step of the recursion is one of three.
cheapest-cases :
    (a b c : ℕ) → (cheapest a b c ≡ suc a) ⊎ ((cheapest a b c ≡ suc b) ⊎ (cheapest a b c ≡ c))
unfolding cheapest
cheapest-cases a b c = ground arith

cheapest-le :
    (a b c : ℕ) → (cheapest a b c ≤ suc a) × (cheapest a b c ≤ suc b) × (cheapest a b c ≤ c)
unfolding cheapest
cheapest-le a b c = (omega arith, omega arith, omega arith)

diagonal :
    {n : ℕ} {xs ys : List ℕ} (x y : ℕ) → Script n xs ys → Script (n + cost x y) (x ∷ xs) (y ∷ ys)
unfolding cost
diagonal {n} {xs} {ys} x y s = elim (Bool-cases (x == y)) [
  | inl same ↦
      subst (λ m. Script m (x ∷ xs) (y ∷ ys)) (ground (arith, same))
        (subst (λ z. Script n (x ∷ xs) (z ∷ ys)) (==→eq x y same) (keeps x s))
  | inr other ↦ subst (λ m. Script m (x ∷ xs) (y ∷ ys)) (ground (arith, other)) (replaces x y s)
]

edits-Script : (xs ys : List ℕ) → Script (edits xs ys) xs ys
unfolding edits
edits-Script [] ys = insert_all ys
edits-Script (x ∷ xs) [] = delete_all (x ∷ xs)
edits-Script (x ∷ xs) (y ∷ ys) =
    let delete = edits-Script xs (y ∷ ys) in
    let insert = edits-Script (x ∷ xs) ys in
    let both = edits-Script xs ys in
    elim (cheapest-cases (edits xs (y ∷ ys)) (edits (x ∷ xs) ys) (edits xs ys + cost x y)) [
      | inl e ↦ subst (λ m. Script m (x ∷ xs) (y ∷ ys)) (sym e) (deletes x delete)
      | inr (inl e) ↦ subst (λ m. Script m (x ∷ xs) (y ∷ ys)) (sym e) (inserts y insert)
      | inr (inr e) ↦ subst (λ m. Script m (x ∷ xs) (y ∷ ys)) (sym e) (diagonal x y both)
    ]

cost-le : (x y : ℕ) → cost x y ≤ 1
unfolding cost
cost-le x y = ground arith

cost_same : (x : ℕ) → cost x x ≡ 0
unfolding cost
cost_same x = ground (arith, ==_refl x)

edits-insert : (xs ys : List ℕ) (y : ℕ) → edits xs (y ∷ ys) ≤ suc (edits xs ys)
unfolding edits
edits-insert [] ys y = omega arith
edits-insert (x ∷ xs) ys y =
    (cheapest-le (edits xs (y ∷ ys)) (edits (x ∷ xs) ys) (edits xs ys + cost x y)).1

edits-delete : (xs ys : List ℕ) (x : ℕ) → edits (x ∷ xs) ys ≤ suc (edits xs ys)
unfolding edits
edits-delete [] [] x = omega arith
edits-delete (z ∷ xs) [] x = omega arith
edits-delete xs (y ∷ ys) x =
    (cheapest-le (edits xs (y ∷ ys)) (edits (x ∷ xs) ys) (edits xs ys + cost x y)).0

edits-diagonal : (xs ys : List ℕ) (x y : ℕ) → edits (x ∷ xs) (y ∷ ys) ≤ edits xs ys + cost x y
unfolding edits
edits-diagonal xs ys x y =
    (cheapest-le (edits xs (y ∷ ys)) (edits (x ∷ xs) ys) (edits xs ys + cost x y)).2

-- No script is shorter.
edits-least : {n : ℕ} {xs ys : List ℕ} → Script n xs ys → edits xs ys ≤ n
unfolding edits
edits-least done = omega arith
edits-least (keeps {xs = xs} {ys = ys} x s) =
    omega (arith, edits-diagonal xs ys x x, cost_same x, edits-least s)
edits-least (replaces {xs = xs} {ys = ys} x y s) =
    omega (arith, edits-diagonal xs ys x y, cost-le x y, edits-least s)
edits-least (inserts {xs = xs} {ys = ys} y s) = omega (arith, edits-insert xs ys y, edits-least s)
edits-least (deletes {xs = xs} {ys = ys} x s) = omega (arith, edits-delete xs ys x, edits-least s)

resize : {k l : ℕ} {xs ys : List ℕ} → k ≡ l → Script k xs ys → Script l xs ys
resize {xs = xs} {ys = ys} e s = subst (λ n. Script n xs ys) e s

-- A script read backwards, before another.
reversed-Script :
    {n m : ℕ} {xs ys us vs : List ℕ}
    → Script n xs ys
    → Script m us vs
    → Script (n + m) (reversed xs us) (reversed ys vs)
unfolding reversed
reversed-Script {m = m} done t = resize (omega arith) t
reversed-Script {m = m} (keeps {n = n} x s) t = reversed-Script s (keeps x t)
reversed-Script {m = m} (replaces {n = n} x y s) t =
    resize (omega arith) (reversed-Script s (replaces x y t))
reversed-Script {m = m} (inserts {n = n} y s) t =
    resize (omega arith) (reversed-Script s (inserts y t))
reversed-Script {m = m} (deletes {n = n} x s) t =
    resize (omega arith) (reversed-Script s (deletes x t))

reversed-reversed : (xs ys zs : List ℕ) → reversed (reversed xs ys) zs ≡ reversed ys (xs ++ zs)
unfolding reversed
reversed-reversed [] ys zs = refl
reversed-reversed (x ∷ xs) ys zs = reversed-reversed xs (x ∷ ys) zs

append_nil : (xs : List ℕ) → xs ++ [] ≡ xs
append_nil [] = refl
append_nil (x ∷ xs) = ap (λ ys. x ∷ ys) (append_nil xs)

twice_reversed : (xs : List ℕ) → reversed (reversed xs []) [] ≡ xs
unfolding reversed
twice_reversed xs = reversed-reversed xs [] [] ∙ append_nil xs

backwards : (n : ℕ) (xs ys : List ℕ) → Script n xs ys → Script n (reversed xs []) (reversed ys [])
backwards n xs ys s = resize (omega arith) (reversed-Script s done)

forwards : (n : ℕ) (xs ys : List ℕ) → Script n (reversed xs []) (reversed ys []) → Script n xs ys
forwards n xs ys s =
    subst (λ zs. Script n zs ys) (twice_reversed xs)
      (subst (λ zs. Script n (reversed (reversed xs []) []) zs) (twice_reversed ys)
        (backwards n (reversed xs []) (reversed ys []) s))

-- Of the scripts of insertions, deletions and replacements that turn one text into the other, there
-- is one of the length that distance computes, and none is shorter.
pub distance-shortest :
    (a b : List ℕ) → Script (distance a b) a b × ((n : ℕ) → Script n a b → distance a b ≤ n)
distance-shortest a b = rw (distance_lem a b) (
  forwards _ a b (edits-Script (reversed a []) (reversed b [])),
  λ n s. edits-least (backwards n a b s),
)
