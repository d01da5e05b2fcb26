-- ===== src/Accounts/Lock.antt =====
-- After ten failures in a row an e-mail is locked.
use ticketing_platform.Accounts.Replay.{login_each}
use ticketing_platform.Accounts.Codes.{get-del_other, get-set_other, same_key_refl}
use ticketing_platform.Accounts.{
  CacheEntry, CacheKey, LoginAnswer, LoginDto, LoginError, LoginTools, LoginUser, accept_code,
  after_password, block_ttl, cache_del, cache_get, cache_set, check_code, fail_count,
  invalid_credentials, login, login_fail, max_attempts, same_key, sign_in, too_many_attempts,
  totp_used, validate_user,
}
use ticketing_platform.Access.{is_admin}
use ticketing_platform.Prelude.{
  ==→eq, All, Bool, Bool-cases, List, Option, Result, [], arith, err, false, if◌then◌else◌, inl,
  inr, leb, none, not, refl, some, subst, sym, true, ℕ, ◌&&◌, ◌*◌, ◌+◌, ◌<◌, ◌==◌, ◌∙◌, ◌∷◌, ◌≡◌,
  ◌≤◌,
}

-- The counter of an e-mail, at any instant, is what it was.
abbrev SameCount : ℕ → List CacheEntry → List CacheEntry → Type 0
SameCount email before after =
    (now : ℕ) → cache_get now (login_fail email) after ≡ cache_get now (login_fail email) before

if-SameCount :
    (email : ℕ) (cache : List CacheEntry) (b : Bool)
    (x y : List CacheEntry × Result LoginError LoginAnswer)
    → SameCount email cache x.0
    → SameCount email cache y.0
    → SameCount email cache (if b then x else y).0
if-SameCount email cache true x y first second = first
if-SameCount email cache false x y first second = second

accept_code-SameCount :
    (tools : LoginTools) (now : ℕ) (u : LoginUser) (code email : ℕ) (cache : List CacheEntry)
    (found : Option ℕ)
    → SameCount email cache (accept_code tools now u code cache found).0
unfolding accept_code same_key
accept_code-SameCount tools now u code email cache (some used) = λ t. refl
accept_code-SameCount tools now u code email cache none =
    if-SameCount email cache (tools.verify_totp now code u.two_factor_secret) _ _
      (λ t. get-set_other t now (login_fail email) (totp_used u.id code) 1 90 cache refl)
      (λ t. refl)

check_code-SameCount :
    (tools : LoginTools) (now : ℕ) (u : LoginUser) (code : Option ℕ) (email : ℕ)
    (cache : List CacheEntry)
    → SameCount email cache (check_code tools now u code cache).0
unfolding check_code
check_code-SameCount tools now u none email cache = λ t. refl
check_code-SameCount tools now u (some code) email cache =
    accept_code-SameCount tools now u code email cache (cache_get now (totp_used u.id code) cache)

sign_in-SameCount :
    (tools : LoginTools) (now : ℕ) (u : LoginUser) (code : Option ℕ) (email : ℕ)
    (cache : List CacheEntry)
    → SameCount email cache (sign_in tools now u code cache).0
unfolding sign_in
sign_in-SameCount tools now u code email cache =
    if-SameCount email cache (not u.is_email_verified) _ _ (λ t. refl)
      (if-SameCount email cache (is_admin u.role && not u.two_factor_enabled) _ _ (λ t. refl)
        (if-SameCount email cache u.two_factor_enabled _ _
          (check_code-SameCount tools now u code email cache) (λ t. refl)))

after_password-SameCount :
    (tools : LoginTools) (now : ℕ) (dto : LoginDto) (email : ℕ) (cache : List CacheEntry)
    (user : Option LoginUser)
    → (email == tools.to_lower_case dto.email) ≡ false
    → SameCount email cache (after_password tools now dto cache user).0
unfolding after_password same_key
after_password-SameCount tools now dto email cache none other t =
    get-set_other t now (login_fail email) (login_fail (tools.to_lower_case dto.email)) _ block_ttl
      cache other
after_password-SameCount tools now dto email cache (some u) other t =
    let brute_key = login_fail (tools.to_lower_case dto.email) in
    sign_in-SameCount tools now u dto.totp_code email (cache_del brute_key cache) t
    ∙ get-del_other t (login_fail email) brute_key cache other

login-SameCount :
    (tools : LoginTools) (users : List LoginUser) (now : ℕ) (dto : LoginDto) (email : ℕ)
    (cache : List CacheEntry)
    → (email == tools.to_lower_case dto.email) ≡ false
    → SameCount email cache (login tools users now dto cache).0
unfolding login
login-SameCount tools users now dto email cache other =
    let user = validate_user tools dto.email dto.password users in
    if-SameCount email cache
      (leb max_attempts (fail_count now (tools.to_lower_case dto.email) cache)) _ _ (λ t. refl)
      (after_password-SameCount tools now dto email cache user other)

-- The logins of an e-mail are refused until then.
abbrev pub IsLocked : ℕ → ℕ → List CacheEntry → Type 0
IsLocked email until cache = (now : ℕ) → now < until → max_attempts ≤ fail_count now email cache

refused_while_locked :
    (tools : LoginTools) (users : List LoginUser) (now : ℕ) (dto : LoginDto)
    (cache : List CacheEntry)
    → max_attempts ≤ fail_count now (tools.to_lower_case dto.email) cache
    → login tools users now dto cache ≡ (cache, err too_many_attempts)
unfolding login
refused_while_locked tools users now dto cache h = ground (arith, h)

abbrev count_in : Option ℕ → ℕ
count_in none = 0
count_in (some n) = n

login-IsLocked :
    (tools : LoginTools) (users : List LoginUser) (now : ℕ) (dto : LoginDto) (email until : ℕ)
    (cache : List CacheEntry)
    → now < until
    → IsLocked email until cache
    → IsLocked email until (login tools users now dto cache).0
unfolding login fail_count
login-IsLocked tools users now dto email until cache before locked =
    elim (Bool-cases (email == tools.to_lower_case dto.email)) [
      | inl same ↦
          let e = refused_while_locked tools users now dto cache (
            subst (λ k. max_attempts ≤ fail_count now k cache)
              (==→eq email (tools.to_lower_case dto.email) same) (locked now before)) in
          rw e locked
      | inr other ↦ λ t early.
          subst (λ found. max_attempts ≤ count_in found)
            (sym (login-SameCount tools users now dto email cache other t)) (locked t early)
    ]

get-set :
    (now t : ℕ) (k : CacheKey) (value ttl : ℕ) (cache : List CacheEntry)
    → t < now + 1000 * ttl
    → cache_get t k (cache_set now k value ttl cache) ≡ some value
unfolding cache_get cache_set
get-set now t k value ttl cache before = ground (arith, same_key_refl k, before)

tenth_failure :
    (tools : LoginTools) (users : List LoginUser) (now : ℕ) (dto : LoginDto)
    (cache : List CacheEntry)
    → fail_count now (tools.to_lower_case dto.email) cache ≡ 9
    → validate_user tools dto.email dto.password users ≡ none
    → login tools users now dto cache ≡ (
      cache_set now (login_fail (tools.to_lower_case dto.email)) 10 block_ttl cache,
      err invalid_credentials,
    )
unfolding login after_password
tenth_failure tools users now dto cache nine wrong = rw (nine, wrong, nine) refl

locks :
    (tools : LoginTools) (users : List LoginUser) (now : ℕ) (dto : LoginDto)
    (cache : List CacheEntry)
    → fail_count now (tools.to_lower_case dto.email) cache ≡ 9
    → validate_user tools dto.email dto.password users ≡ none
    → IsLocked
        (tools.to_lower_case dto.email)
        (now + 1000 * block_ttl)
        (login tools users now dto cache).0
unfolding fail_count
locks tools users now dto cache nine wrong t before =
    let brute_key = login_fail (tools.to_lower_case dto.email) in
    rw (tenth_failure tools users now dto cache nine wrong) (
      subst (λ found. max_attempts ≤ count_in found)
        (sym (get-set now t brute_key 10 block_ttl cache before)) (omega arith))

login_each-IsLocked :
    (tools : LoginTools) (users : List LoginUser) (calls : List (ℕ × LoginDto)) (email until : ℕ)
    (cache : List CacheEntry)
    → All (λ (call : ℕ × LoginDto). call.0 < until) calls
    → IsLocked email until cache
    → IsLocked email until (login_each tools users calls cache)
unfolding login_each
login_each-IsLocked tools users [] email until cache before locked = locked
login_each-IsLocked tools users ((now, dto) ∷ rest) email until cache before locked =
    login_each-IsLocked tools users rest email until _ before.1
      (login-IsLocked tools users now dto email until cache before.0 locked)

-- If nine failures of an e-mail are counted and a login fails on its password, then for fifteen
-- minutes, whatever logins come in between, every login of the e-mail is refused for too many
-- attempts, the right password included, and leaves what Redis keeps as it was.
pub login-locked :
    (tools : LoginTools) (users : List LoginUser) (now : ℕ) (dto : LoginDto)
    (cache : List CacheEntry) (calls : List (ℕ × LoginDto)) (later : ℕ) (again : LoginDto)
    → fail_count now (tools.to_lower_case dto.email) cache ≡ 9
    → validate_user tools dto.email dto.password users ≡ none
    → All (λ (call : ℕ × LoginDto). call.0 < now + 900000) calls
    → later < now + 900000
    → tools.to_lower_case again.email ≡ tools.to_lower_case dto.email
    → login tools users later again
        (login_each tools users calls (login tools users now dto cache).0)
      ≡ (login_each tools users calls (login tools users now dto cache).0, err too_many_attempts)
login-locked tools users now dto cache calls later again nine wrong meanwhile soon same =
    let after = login_each tools users calls (login tools users now dto cache).0 in
    let locked =
      login_each-IsLocked tools users calls (tools.to_lower_case dto.email) (now + 900000) _
        meanwhile (locks tools users now dto cache nine wrong) in
    refused_while_locked tools users later again after
      (subst (λ key. max_attempts ≤ fail_count later key after) (sym same) (locked later soon))
