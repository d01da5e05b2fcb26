-- ===== src/Accounts/Codes.antt =====
-- A code of two-factor authentication signs in once while it is kept.
use ticketing_platform.Access.{is_admin}
use ticketing_platform.Accounts.{
  CacheEntry, CacheKey, LoginAnswer, LoginDto, LoginError, LoginTools, LoginUser, accept_code,
  after_password, block_ttl, cache_del, cache_get, cache_set, check_code, fail_count, login,
  login_fail, max_attempts, same_key, sign_in, totp_used, validate_user,
}
use ticketing_platform.Prelude.{
  ==→eq, Bool, Bool-cases, List, Option, Result, [], ap, arith, false, if◌then◌else◌, inl, inr,
  keep, leb, ltb, none, not, refl, some, sym, true, ℕ, ◌&&◌, ◌*◌, ◌+◌, ◌<◌, ◌==◌, ◌∙◌, ◌∷◌, ◌≡◌,
}

abbrev pub is_some : Option ℕ → Bool
is_some none = false
is_some (some n) = true

-- Redis has the key at every instant before `until`.
abbrev pub Held : CacheKey → ℕ → List CacheEntry → Type 0
Held key until cache = (now : ℕ) → now < until → is_some (cache_get now key cache) ≡ true

pub same_key_refl : (k : CacheKey) → same_key k k ≡ true
unfolding same_key
same_key_refl (login_fail email) = ground arith
same_key_refl (totp_used user_id code) = ground arith

&&-true : (p q : Bool) → (p && q) ≡ true → (p ≡ true) × (q ≡ true)
&&-true true q h = (refl, h)
&&-true false q h = cc

same_key_eq : (k l : CacheKey) → same_key k l ≡ true → k ≡ l
unfolding same_key
same_key_eq (login_fail email) (login_fail other) h = ap login_fail (==→eq email other h)
same_key_eq (totp_used user_id code) (totp_used other_id other) h =
    let (same_user, same_code) = &&-true (user_id == other_id) (code == other) h in
    ap (λ i. totp_used i code) (==→eq user_id other_id same_user)
    ∙ ap (totp_used other_id) (==→eq code other same_code)
same_key_eq (login_fail email) (totp_used other_id other) h = cc
same_key_eq (totp_used user_id code) (login_fail other) h = cc

pub get-del_other :
    (now : ℕ) (k l : CacheKey) (cache : List CacheEntry)
    → same_key k l ≡ false
    → cache_get now k (cache_del l cache) ≡ cache_get now k cache
unfolding cache_get cache_del keep
get-del_other now k l [] h = refl
get-del_other now k l (e ∷ es) h = elim (Bool-cases (same_key l e.key)) [
  | inl dropped ↦
      let l_is = same_key_eq l e.key dropped in
      ground (arith, dropped, get-del_other now k l es h, ap (same_key k) (sym l_is) ∙ h)
  | inr kept ↦ ground (arith, kept, get-del_other now k l es h)
]

pub get-set_other :
    (now t : ℕ) (k l : CacheKey) (value ttl : ℕ) (cache : List CacheEntry)
    → same_key k l ≡ false
    → cache_get now k (cache_set t l value ttl cache) ≡ cache_get now k cache
unfolding cache_get cache_set
get-set_other now t k l value ttl cache h = ground (arith, h, get-del_other now k l cache h)

pub set-Held :
    (t : ℕ) (k : CacheKey) (value ttl : ℕ) (cache : List CacheEntry)
    → Held k (t + 1000 * ttl) (cache_set t k value ttl cache)
unfolding cache_get cache_set
set-Held t k value ttl cache now before = ground (arith, same_key_refl k, before)

-- Entries of other keys, and entries that were not there, leave it there.
set_missing-Held :
    (t : ℕ) (k l : CacheKey) (value ttl until : ℕ) (cache : List CacheEntry)
    → cache_get t l cache ≡ none
    → Held k until cache
    → Held k until (cache_set t l value ttl cache)
set_missing-Held t k l value ttl until cache missing held now before =
    elim (Bool-cases (same_key k l)) [
      | inl same ↦
          let is = same_key_eq k l same in
          elim (Bool-cases (ltb t until)) [
            | inl early ↦ ground (
              arith,
              sym (held t (ground (arith, early)))
                  ∙ ap (λ key. is_some (cache_get t key cache)) is
                  ∙ ap is_some missing,
            )
            | inr late ↦ rw is (set-Held t l value ttl cache now (ground (arith, late, before)))
          ]
      | inr other ↦ rw (get-set_other now t k l value ttl cache other) (held now before)
    ]

pub del-Held :
    (k l : CacheKey) (until : ℕ) (cache : List CacheEntry)
    → same_key k l ≡ false
    → Held k until cache
    → Held k until (cache_del l cache)
del-Held k l until cache other held now before =
    rw (get-del_other now k l cache other) (held now before)

set_other-Held :
    (t : ℕ) (k l : CacheKey) (value ttl until : ℕ) (cache : List CacheEntry)
    → same_key k l ≡ false
    → Held k until cache
    → Held k until (cache_set t l value ttl cache)
set_other-Held t k l value ttl until cache other held now before =
    rw (get-set_other now t k l value ttl cache other) (held now before)

if-Held :
    (k : CacheKey) (until : ℕ) (b : Bool) (x y : List CacheEntry × Result LoginError LoginAnswer)
    → Held k until x.0
    → Held k until y.0
    → Held k until (if b then x else y).0
if-Held k until true x y first second = first
if-Held k until false x y first second = second

pub accept_code-Held :
    (tools : LoginTools) (now : ℕ) (u : LoginUser) (code : ℕ) (k : CacheKey) (until : ℕ)
    (cache : List CacheEntry) (found : Option ℕ)
    → cache_get now (totp_used u.id code) cache ≡ found
    → Held k until cache
    → Held k until (accept_code tools now u code cache found).0
unfolding accept_code
accept_code-Held tools now u code k until cache (some used) is held = held
accept_code-Held tools now u code k until cache none is held =
    if-Held k until (tools.verify_totp now code u.two_factor_secret) _ _
      (set_missing-Held now k (totp_used u.id code) 1 90 until cache is held) held

check_code-Held :
    (tools : LoginTools) (now : ℕ) (u : LoginUser) (code : Option ℕ) (k : CacheKey) (until : ℕ)
    (cache : List CacheEntry)
    → Held k until cache
    → Held k until (check_code tools now u code cache).0
unfolding check_code
check_code-Held tools now u none k until cache held = held
check_code-Held tools now u (some code) k until cache held =
    accept_code-Held tools now u code k until cache (cache_get now (totp_used u.id code) cache) refl
      held

sign_in-Held :
    (tools : LoginTools) (now : ℕ) (u : LoginUser) (code : Option ℕ) (k : CacheKey) (until : ℕ)
    (cache : List CacheEntry)
    → Held k until cache
    → Held k until (sign_in tools now u code cache).0
unfolding sign_in
sign_in-Held tools now u code k until cache held =
    if-Held k until (not u.is_email_verified) _ _ held (
      if-Held k until (is_admin u.role && not u.two_factor_enabled) _ _ held (
        if-Held k until u.two_factor_enabled _ _
          (check_code-Held tools now u code k until cache held) held))

after_password-Held :
    (tools : LoginTools) (now : ℕ) (dto : LoginDto) (user_id code until : ℕ)
    (cache : List CacheEntry) (user : Option LoginUser)
    → Held (totp_used user_id code) until cache
    → Held (totp_used user_id code) until (after_password tools now dto cache user).0
unfolding after_password same_key
after_password-Held tools now dto user_id code until cache none held =
    set_other-Held now (totp_used user_id code) (login_fail (tools.to_lower_case dto.email)) _
      block_ttl until cache refl held
after_password-Held tools now dto user_id code until cache (some u) held =
    let brute_key = login_fail (tools.to_lower_case dto.email) in
    sign_in-Held tools now u dto.totp_code (totp_used user_id code) until
      (cache_del brute_key cache)
      (del-Held (totp_used user_id code) brute_key until cache refl held)

pub login-Held :
    (tools : LoginTools) (users : List LoginUser) (now : ℕ) (dto : LoginDto)
    (user_id code until : ℕ) (cache : List CacheEntry)
    → Held (totp_used user_id code) until cache
    → Held (totp_used user_id code) until (login tools users now dto cache).0
unfolding login
login-Held tools users now dto user_id code until cache held =
    let user = validate_user tools dto.email dto.password users in
    if-Held (totp_used user_id code) until
      (leb max_attempts (fail_count now (tools.to_lower_case dto.email) cache)) _ _ held
      (after_password-Held tools now dto user_id code until cache user held)
