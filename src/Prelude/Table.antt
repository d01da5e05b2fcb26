-- ===== src/Prelude/Table.antt =====
-- A database table as the list of its rows, in the order of insertion, with the queries by key
-- that the services make. A row type says which field is its key by an instance of `Keyed`.
use Prim.Native.Nat.{ℕ, ◌+◌}
use mathlib.Core.Path.{◌≡◌, refl}
use mathlib.Core.Bool.{Bool, true, false}
use mathlib.Core.Option.{Option, none, some}
use mathlib.Core.Option
use mathlib.Core.List.{List, [], ◌∷◌, ◌++◌}
use native.Mathlib.Omega.{arith}
use ticketing_platform.Prelude.Tests.{if◌then◌else◌, ◌==◌}
use ticketing_platform.Prelude.Lists.{All, keep, sum_by}

pub record Keyed {ℓ} (R : Type ℓ) : Type ℓ where
  pub key : R → ℕ

module _ {ℓ} {R : Type ℓ} where
  -- findFirst({ where })
  unfoldable pub find_first : (R → Bool) → List R → Option R
  find_first p [] = none
  find_first p (r ∷ rs) = let rest = find_first p rs in if p r then some r else rest

  -- count({ where })
  unfoldable pub count_where : (R → Bool) → List R → ℕ
  count_where p [] = 0
  count_where p (r ∷ rs) = (if p r then 1 else 0) + count_where p rs

  -- updateMany({ where, data }); its count is `count_where` of the same condition
  unfoldable pub update_many : (R → Bool) → (R → R) → List R → List R
  update_many p f [] = []
  update_many p f (r ∷ rs) = (if p r then f r else r) ∷ update_many p f rs

  pub update_many_none :
      (p : R → Bool) (f : R → R) (rs : List R) → count_where p rs ≡ 0 → update_many p f rs ≡ rs
  unfolding count_where update_many
  update_many_none p f [] h = refl
  update_many_none p f (r ∷ rs) h = ground (arith, update_many_none p f rs)

module _ {ℓ} {R : Type ℓ} ⦃k : Keyed R⦄ where
  -- findUnique({ where: { id } })
  unfoldable pub find : ℕ → List R → Option R
  find i [] = none
  find i (r ∷ rs) = if k.key r == i then some r else find i rs

  -- update({ where: { id }, data })
  unfoldable pub update : ℕ → (R → R) → List R → List R
  update i f [] = []
  update i f (r ∷ rs) = if k.key r == i then f r ∷ rs else r ∷ update i f rs

  -- updateMany({ where: { id, ...p }, data }): `none` where its count is 0
  unfoldable pub claim : ℕ → (R → Bool) → (R → R) → List R → Option (List R)
  claim i p f rs = elim (find i rs) [
    | none ↦ none
    | some r ↦ if p r then some (update i f rs) else none
  ]

  pub find-update :
      (i j : ℕ) (f : R → R) (rs : List R)
      → ((r : R) → k.key (f r) ≡ k.key r)
      → find j (update i f rs) ≡ (if i == j then Option.map f (find j rs) else find j rs)
  unfolding find update
  find-update i j f [] h = ground arith
  find-update i j f (r ∷ rs) h = ground (arith, h r, find-update i j f rs h)

  pub key_of_find : (i : ℕ) (rs : List R) {r : R} → find i rs ≡ some r → k.key r ≡ i
  unfolding find
  key_of_find i [] h = cc
  key_of_find i (x ∷ rs) {r} h = ground (arith, key_of_find i rs {r = r})

  pub update_missing : (i : ℕ) (f : R → R) (rs : List R) → find i rs ≡ none → update i f rs ≡ rs
  unfolding find update
  update_missing i f [] h = refl
  update_missing i f (r ∷ rs) h = ground (arith, update_missing i f rs)

  -- One row leaves the sum with its old weight and enters it with its new one.
  pub sum_by-update :
      (w : R → ℕ) (i : ℕ) (f : R → R) (rs : List R) {r : R}
      → find i rs ≡ some r
      → sum_by w (update i f rs) + w r ≡ sum_by w rs + w (f r)
  unfolding find update sum_by
  sum_by-update w i f [] h = cc
  sum_by-update w i f (x ∷ rs) {r} h = ground (arith, sum_by-update w i f rs {r = r})

  -- An update that keeps every weight keeps the sum.
  pub sum_by-update_same :
      (w : R → ℕ) (i : ℕ) (f : R → R) (rs : List R)
      → ((r : R) → w (f r) ≡ w r)
      → sum_by w (update i f rs) ≡ sum_by w rs
  unfolding update sum_by
  sum_by-update_same w i f [] h = refl
  sum_by-update_same w i f (r ∷ rs) h = ground (arith, h r, sum_by-update_same w i f rs h)

  pub claim-eq-some :
      (i : ℕ) (p : R → Bool) (f : R → R) (rs : List R) {rs' : List R}
      → claim i p f rs ≡ some rs'
      → (r : R) × (find i rs ≡ some r) × (p r ≡ true) × (rs' ≡ update i f rs)
  unfolding claim
  claim-eq-some i p f rs h = ground arith

  -- No two rows have one key.
  abbrev pub Distinct : List R → Type ℓ
  Distinct [] = Unit
  Distinct (r ∷ rs) = (find (k.key r) rs ≡ none) × Distinct rs

  pub find_first-find :
      (p : R → Bool) (rs : List R) {r : R}
      → Distinct rs
      → find_first p rs ≡ some r
      → find (k.key r) rs ≡ some r
  unfolding find find_first
  find_first-find p [] d h = cc
  find_first-find p (x ∷ rs) {r} d h = ground (arith, find_first-find p rs {r = r})

  pub find_first-holds :
      (p : R → Bool) (rs : List R) {r : R} → find_first p rs ≡ some r → p r ≡ true
  unfolding find_first
  find_first-holds p [] h = cc
  find_first-holds p (x ∷ rs) {r} h = ground (arith, find_first-holds p rs {r = r})

  pub update-Distinct :
      (i : ℕ) (f : R → R) (rs : List R)
      → ((r : R) → k.key (f r) ≡ k.key r)
      → Distinct rs
      → Distinct (update i f rs)
  unfolding update
  update-Distinct i f [] h d = tt
  update-Distinct i f (r ∷ rs) h d =
      ground (arith, h r, find-update i (k.key r) f rs h, update-Distinct i f rs h d.1)

  find-append_none :
      (j : ℕ) (rs : List R) (r : R)
      → find j rs ≡ none
      → (k.key r == j) ≡ false
      → find j (rs ++ r ∷ []) ≡ none
  unfolding find
  find-append_none j [] r h e = ground arith
  find-append_none j (x ∷ rs) r h e = ground (arith, find-append_none j rs r)

  pub append-Distinct :
      (rs : List R) (r : R) → Distinct rs → find (k.key r) rs ≡ none → Distinct (rs ++ r ∷ [])
  unfolding find
  append-Distinct [] r d h = (refl, tt)
  append-Distinct (x ∷ rs) r d h =
      ground (arith, find-append_none (k.key x) rs r, append-Distinct rs r d.1)

  pub find_same : (i : ℕ) (rs : List R) {a b : R} → find i rs ≡ some a → find i rs ≡ some b → a ≡ b
  find_same i rs h e = cc

  found_below :
      (x : R) (rs ys : List R)
      → find (k.key x) rs ≡ none
      → All (λ y. find (k.key y) rs ≡ some y) ys
      → All (λ y. find (k.key y) (x ∷ rs) ≡ some y) ys
  unfolding find
  found_below x rs [] h a = tt
  found_below x rs (y ∷ ys) h a = ground (arith, found_below x rs ys h)

  found_keep :
      (p : R → Bool) (x : R) (rs ys : List R)
      → All (λ y. find (k.key y) (x ∷ rs) ≡ some y) ys
      → All (λ y. find (k.key y) (x ∷ rs) ≡ some y) (if p x then x ∷ ys else ys)
  unfolding find
  found_keep p x rs ys a = ground arith

  -- Rows that a condition picks from the table are found in it by their keys.
  pub keep-found :
      (p : R → Bool) (rs : List R) → Distinct rs → All (λ y. find (k.key y) rs ≡ some y) (keep p rs)
  unfolding keep
  keep-found p [] d = tt
  keep-found p (x ∷ rs) d =
      found_keep p x rs (keep p rs) (found_below x rs (keep p rs) d.0 (keep-found p rs d.1))

  pub find-append_new :
      (rs : List R) (r : R) → find (k.key r) rs ≡ none → find (k.key r) (rs ++ r ∷ []) ≡ some r
  unfolding find
  find-append_new [] r h = ground arith
  find-append_new (x ∷ rs) r h = ground (arith, find-append_new rs r)

  pub find-keep :
      (p : R → Bool) (i : ℕ) (rs : List R) → find i rs ≡ none → find i (keep p rs) ≡ none
  unfolding find keep
  find-keep p i [] h = refl
  find-keep p i (r ∷ rs) h = ground (arith, find-keep p i rs)

  pub keep-Distinct : (p : R → Bool) (rs : List R) → Distinct rs → Distinct (keep p rs)
  unfolding keep
  keep-Distinct p [] d = tt
  keep-Distinct p (r ∷ rs) d = ground (arith, find-keep p (k.key r) rs d.0, keep-Distinct p rs d.1)
