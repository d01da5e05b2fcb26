-- ===== src/Accounts/Replay.antt =====
-- A code that has signed a user in does not sign the user in again while Redis keeps it.
use ticketing_platform.Accounts.Codes.{Held, del-Held, is_some, login-Held, set-Held}
use ticketing_platform.Accounts.{
  CacheEntry, LoginAnswer, LoginDto, LoginError, LoginTools, LoginUser, accept_code, after_password,
  cache_del, cache_get, check_code, fail_count, login, login_fail, max_attempts, same_key, sign_in,
  signed_in, totp_used, validate_user,
}
use ticketing_platform.Access.{is_admin}
use ticketing_platform.Prelude.{
  Bool, Bool-cases, List, Option, Result, [], ap, arith, false, if◌then◌else◌, inl, inr, leb, none,
  not, ok, refl, some, sym, true, ℕ, ◌&&◌, ◌*◌, ◌+◌, ◌<◌, ◌∙◌, ◌∷◌, ◌≡◌, ◌⊎◌,
}

abbrev Attempt : Type 0
Attempt = List CacheEntry × Result LoginError LoginAnswer

if-answer :
    (b : Bool) (x y : Attempt) {a : Result LoginError LoginAnswer}
    → (if b then x else y).1 ≡ a
    → (((if b then x else y) ≡ x) × (x.1 ≡ a)) ⊎ (((if b then x else y) ≡ y) × (y.1 ≡ a))
if-answer true x y h = inl (refl, h)
if-answer false x y h = inr (refl, h)

accept_code-user :
    (tools : LoginTools) (now : ℕ) (u v : LoginUser) (code : ℕ) (cache : List CacheEntry)
    (found : Option ℕ)
    → (accept_code tools now u code cache found).1 ≡ ok (signed_in v)
    → u ≡ v
unfolding accept_code
accept_code-user tools now u v code cache (some used) h = cc
accept_code-user tools now u v code cache none h =
    elim (if-answer (tools.verify_totp now code u.two_factor_secret) _ _ h) [
      | inl (_, signed) ↦ cc
      | inr (_, refused) ↦ cc
    ]

check_code-user :
    (tools : LoginTools) (now : ℕ) (u v : LoginUser) (code : Option ℕ) (cache : List CacheEntry)
    → (check_code tools now u code cache).1 ≡ ok (signed_in v)
    → u ≡ v
unfolding check_code
check_code-user tools now u v none cache h = cc
check_code-user tools now u v (some code) cache h =
    accept_code-user tools now u v code cache (cache_get now (totp_used u.id code) cache) h

answer-user :
    (u v : LoginUser)
    → ◌≡◌ {A = Result LoginError LoginAnswer} (ok (signed_in u)) (ok (signed_in v))
    → u ≡ v
answer-user u v h = cc

-- A user with two-factor authentication is signed in by the check of a code only.
sign_in-checks :
    (tools : LoginTools) (now : ℕ) (u v : LoginUser) (code : Option ℕ) (cache : List CacheEntry)
    → v.two_factor_enabled ≡ true
    → (sign_in tools now u code cache).1 ≡ ok (signed_in v)
    → (u ≡ v) × (sign_in tools now u code cache ≡ check_code tools now v code cache)
unfolding sign_in
sign_in-checks tools now u v code cache two_factor h =
    elim (if-answer (not u.is_email_verified) _ _ h) [
      | inl (_, refused) ↦ cc
      | inr (e1, h1) ↦ elim (if-answer (is_admin u.role && not u.two_factor_enabled) _ _ h1) [
        | inl (_, refused) ↦ cc
        | inr (e2, h2) ↦ elim (Bool-cases u.two_factor_enabled) [
          | inl on ↦
              let e3 =
                ap (λ b. if b then check_code tools now u code cache else (cache, ok (signed_in u)))
                  on in
              let same =
                check_code-user tools now u v code cache
                  (sym (ap (λ (a : Attempt). a.1) e3) ∙ h2) in
              (same, e1 ∙ e2 ∙ e3 ∙ ap (λ w. check_code tools now w code cache) same)
          | inr off ↦
              let e3 =
                ap (λ b. if b then check_code tools now u code cache else (cache, ok (signed_in u)))
                  off in
              let signed = sym (ap (λ (a : Attempt). a.1) e3) ∙ h2 in
              let same = answer-user u v signed in
              let clash =
                sym off ∙ ap (λ (w : LoginUser). w.two_factor_enabled) same ∙ two_factor in
              ground (arith, clash)
        ]
      ]
    ]

-- The entries that a login after a right password starts from.
cleared : LoginTools → LoginDto → List CacheEntry → List CacheEntry
cleared tools dto cache = cache_del (login_fail (tools.to_lower_case dto.email)) cache

after_password-checks :
    (tools : LoginTools) (now : ℕ) (dto : LoginDto) (v : LoginUser) (cache : List CacheEntry)
    (user : Option LoginUser)
    → v.two_factor_enabled ≡ true
    → (after_password tools now dto cache user).1 ≡ ok (signed_in v)
    → after_password tools now dto cache user
      ≡ check_code tools now v dto.totp_code (cleared tools dto cache)
unfolding after_password cleared
after_password-checks tools now dto v cache none two_factor h = cc
after_password-checks tools now dto v cache (some u) two_factor h =
    (sign_in-checks tools now u v dto.totp_code (cleared tools dto cache) two_factor h).1

login-checks :
    (tools : LoginTools) (users : List LoginUser) (now : ℕ) (dto : LoginDto) (v : LoginUser)
    (cache : List CacheEntry)
    → v.two_factor_enabled ≡ true
    → (login tools users now dto cache).1 ≡ ok (signed_in v)
    → login tools users now dto cache
      ≡ check_code tools now v dto.totp_code (cleared tools dto cache)
unfolding login
login-checks tools users now dto v cache two_factor h =
    let user = validate_user tools dto.email dto.password users in
    elim (if-answer (leb max_attempts (fail_count now (tools.to_lower_case dto.email) cache)) _ _
      h) [
        | inl (_, refused) ↦ cc
        | inr (e, h1) ↦ e ∙ after_password-checks tools now dto v cache user two_factor h1
      ]

accept_code-signs :
    (tools : LoginTools) (now : ℕ) (v : LoginUser) (code : ℕ) (cache : List CacheEntry)
    (found : Option ℕ)
    → (accept_code tools now v code cache found).1 ≡ ok (signed_in v)
    → (found ≡ none)
      × Held (totp_used v.id code) (now + 1000 * 90) (accept_code tools now v code cache found).0
unfolding accept_code
accept_code-signs tools now v code cache (some used) h = cc
accept_code-signs tools now v code cache none h =
    elim (if-answer (tools.verify_totp now code v.two_factor_secret) _ _ h) [
      | inl (e, _) ↦ (
        refl,
        λ t before.
            ap (λ (a : Attempt). is_some (cache_get t (totp_used v.id code) a.0)) e
            ∙ set-Held now (totp_used v.id code) 1 90 cache t before,
      )
      | inr (_, refused) ↦ cc
    ]

-- A login with a code that signs a user with two-factor authentication in: the code was not kept,
-- and it is kept from then on.
login-signs :
    (tools : LoginTools) (users : List LoginUser) (now : ℕ) (dto : LoginDto) (v : LoginUser)
    (code : ℕ) (cache : List CacheEntry)
    → v.two_factor_enabled ≡ true
    → dto.totp_code ≡ some code
    → (login tools users now dto cache).1 ≡ ok (signed_in v)
    → (cache_get now (totp_used v.id code) (cleared tools dto cache) ≡ none)
      × Held (totp_used v.id code) (now + 1000 * 90) (login tools users now dto cache).0
unfolding check_code
login-signs tools users now dto v code cache two_factor with_code h =
    let e =
      login-checks tools users now dto v cache two_factor h
      ∙ ap (λ c. check_code tools now v c (cleared tools dto cache)) with_code in
    let (missing, held) =
      accept_code-signs tools now v code (cleared tools dto cache) _
        (sym (ap (λ (a : Attempt). a.1) e) ∙ h) in
    (missing, rw e held)

-- Logins one after the other, each with its instant.
unfoldable pub login_each :
    LoginTools → List LoginUser → List (ℕ × LoginDto) → List CacheEntry → List CacheEntry
login_each tools users [] cache = cache
login_each tools users ((now, dto) ∷ rest) cache =
    login_each tools users rest (login tools users now dto cache).0

login_each-Held :
    (tools : LoginTools) (users : List LoginUser) (calls : List (ℕ × LoginDto))
    (user_id code until : ℕ) (cache : List CacheEntry)
    → Held (totp_used user_id code) until cache
    → Held (totp_used user_id code) until (login_each tools users calls cache)
unfolding login_each
login_each-Held tools users [] user_id code until cache held = held
login_each-Held tools users ((now, dto) ∷ rest) user_id code until cache held =
    login_each-Held tools users rest user_id code until _
      (login-Held tools users now dto user_id code until cache held)

-- After a login with a code has signed a user with two-factor authentication in, and any further
-- logins have ended, a login that starts less than 90 seconds after the first does not sign that
-- user in with the same code.
pub login-code_once :
    (tools : LoginTools) (users : List LoginUser) (now : ℕ) (dto : LoginDto) (v : LoginUser)
    (code : ℕ) (cache : List CacheEntry) (calls : List (ℕ × LoginDto)) (later : ℕ)
    (again : LoginDto)
    → v.two_factor_enabled ≡ true
    → dto.totp_code ≡ some code
    → (login tools users now dto cache).1 ≡ ok (signed_in v)
    → later < now + 90000
    → again.totp_code ≡ some code
    → ¬ (
        (login tools users later again
          (login_each tools users calls (login tools users now dto cache).0)).1
        ≡ ok (signed_in v))
unfolding cleared
login-code_once tools users now dto v code cache calls later again two_factor with_code h soon
      same_code twice =
    let (_, held) = login-signs tools users now dto v code cache two_factor with_code h in
    let kept = login_each-Held tools users calls v.id code (now + 1000 * 90) _ held in
    let (missing, _) = login-signs tools users later again v code _ two_factor same_code twice in
    let brute_key = login_fail (tools.to_lower_case again.email) in
    let still =
      del-Held (totp_used v.id code) brute_key (now + 1000 * 90) _ (unfold same_key in refl) kept in
    ground (arith, sym (still later (omega (arith, soon))) ∙ ap is_some missing)
