-- ===== src/Accounts.antt =====
-- The login of backend/src/auth/auth.service.ts, with the entries of Redis that it keeps
-- (backend/src/redis/redis.service.ts): the failures of an e-mail and the codes that were used.
-- The check of a password, of a code, and the small letters of an e-mail are parameters; the tokens
-- of the session are not modelled, nor the answer's texts.
pub mod Codes
pub mod Replay
pub mod Lock
use ticketing_platform.Access.{Role, is_admin}
use ticketing_platform.Prelude.{
  Bool, List, Option, Result, [], err, false, if◌then◌else◌, keep, leb, ltb, none, not, ok, some, ℕ,
  ◌&&◌, ◌*◌, ◌+◌, ◌==◌, ◌∷◌,
}

pub data CacheKey : Type 0 where
  login_fail : ℕ → CacheKey
  totp_used : ℕ → ℕ → CacheKey

unfoldable pub same_key : CacheKey → CacheKey → Bool
same_key (login_fail email) (login_fail other) = email == other
same_key (totp_used user_id code) (totp_used other_id other) = user_id == other_id && code == other
same_key (login_fail email) (totp_used other_id other) = false
same_key (totp_used user_id code) (login_fail other) = false

-- A value that Redis forgets at `until`.
pub record CacheEntry : Type 0 where
  pub key : CacheKey
  pub value : ℕ
  pub until : ℕ

-- get
unfoldable pub cache_get : ℕ → CacheKey → List CacheEntry → Option ℕ
cache_get now key [] = none
cache_get now key (e ∷ es) =
    let rest = cache_get now key es in
    if same_key key e.key && ltb now e.until then some e.value else rest

-- del
unfoldable pub cache_del : CacheKey → List CacheEntry → List CacheEntry
cache_del key = keep (λ (e : CacheEntry). not (same_key key e.key))

-- set, with a time to live in seconds
unfoldable pub cache_set : ℕ → CacheKey → ℕ → ℕ → List CacheEntry → List CacheEntry
cache_set now key value ttl cache =
    record { key = key; value = value; until = now + 1000 * ttl } ∷ cache_del key cache

pub record LoginUser : Type 0 where
  pub id : ℕ
  pub email : ℕ
  pub password : ℕ
  pub role : Role
  pub is_active : Bool
  pub is_email_verified : Bool
  pub two_factor_enabled : Bool
  pub two_factor_secret : Option ℕ

-- LoginDto
pub record LoginDto : Type 0 where
  pub email : ℕ
  pub password : ℕ
  pub totp_code : Option ℕ

pub data LoginError : Type 0 where
  too_many_attempts invalid_credentials email_not_verified : LoginError
  two_factor_mandatory code_used invalid_code : LoginError

pub data LoginAnswer : Type 0 where
  signed_in : LoginUser → LoginAnswer
  requires_two_factor : LoginAnswer

-- What the login asks of its libraries.
pub record LoginTools : Type 0 where
  pub to_lower_case : ℕ → ℕ
  pub compare_password : ℕ → ℕ → Bool
  pub verify_totp : ℕ → ℕ → Option ℕ → Bool

unfoldable pub user_of : ℕ → List LoginUser → Option LoginUser
user_of email [] = none
user_of email (u ∷ us) = let rest = user_of email us in if u.email == email then some u else rest

-- validateUser
unfoldable pub validate_user : LoginTools → ℕ → ℕ → List LoginUser → Option LoginUser
validate_user tools email password users = elim (user_of email users) [
  | none ↦ none
  | some u ↦ if u.is_active && tools.compare_password password u.password then some u else none
]

-- What follows the look-up of a code in the used ones.
unfoldable pub accept_code :
    LoginTools
    → ℕ
    → LoginUser
    → ℕ
    → List CacheEntry
    → Option ℕ
    → List CacheEntry × Result LoginError LoginAnswer
accept_code tools now u code cache (some used) = (cache, err code_used)
accept_code tools now u code cache none =
    if tools.verify_totp now code u.two_factor_secret
    then (cache_set now (totp_used u.id code) 1 90 cache, ok (signed_in u))
    else (cache, err invalid_code)

-- The code of a user with two-factor authentication.
unfoldable pub check_code :
    LoginTools
    → ℕ
    → LoginUser
    → Option ℕ
    → List CacheEntry
    → List CacheEntry × Result LoginError LoginAnswer
check_code tools now u none cache = (cache, ok requires_two_factor)
check_code tools now u (some code) cache =
    accept_code tools now u code cache (cache_get now (totp_used u.id code) cache)

-- After the password.
unfoldable pub sign_in :
    LoginTools
    → ℕ
    → LoginUser
    → Option ℕ
    → List CacheEntry
    → List CacheEntry × Result LoginError LoginAnswer
sign_in tools now u code cache =
    if not u.is_email_verified
    then (cache, err email_not_verified)
    else if is_admin u.role && not u.two_factor_enabled
    then (cache, err two_factor_mandatory)
    else if u.two_factor_enabled
    then check_code tools now u code cache
    else (cache, ok (signed_in u))

abbrev pub max_attempts : ℕ
max_attempts = 10

-- In seconds.
abbrev pub block_ttl : ℕ
block_ttl = 15 * 60

unfoldable pub fail_count : ℕ → ℕ → List CacheEntry → ℕ
fail_count now key cache = elim (cache_get now (login_fail key) cache) [ none ↦ 0 | some n ↦ n ]

-- What follows the check of the password: a failure is counted, a success clears the counter.
unfoldable pub after_password :
    LoginTools
    → ℕ
    → LoginDto
    → List CacheEntry
    → Option LoginUser
    → List CacheEntry × Result LoginError LoginAnswer
after_password tools now dto cache none =
    let brute_key = tools.to_lower_case dto.email in
    (
      cache_set now (login_fail brute_key) (fail_count now brute_key cache + 1) block_ttl cache,
      err invalid_credentials,
    )
after_password tools now dto cache (some u) =
    sign_in tools now u dto.totp_code (cache_del (login_fail (tools.to_lower_case dto.email)) cache)

-- login
unfoldable pub login :
    LoginTools
    → List LoginUser
    → ℕ
    → LoginDto
    → List CacheEntry
    → List CacheEntry × Result LoginError LoginAnswer
login tools users now dto cache =
    if leb max_attempts (fail_count now (tools.to_lower_case dto.email) cache)
    then (cache, err too_many_attempts)
    else after_password tools now dto cache (validate_user tools dto.email dto.password users)
