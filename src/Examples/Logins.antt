-- ===== src/Examples/Logins.antt =====
-- A login with two-factor authentication, on concrete inputs.
use ticketing_platform.Accounts.Lock.{login-locked}
use ticketing_platform.Accounts.Replay.{login-code_once, login_each}
use ticketing_platform.Accounts.{
  CacheEntry, LoginDto, LoginTools, LoginUser, accept_code, after_password, cache_del, cache_get,
  cache_set, check_code, fail_count, login, login_fail, same_key, sign_in, signed_in,
  too_many_attempts, user_of, validate_user,
}
use ticketing_platform.Access.{is_admin, organizer}
use ticketing_platform.Prelude.{
  List, [], arith, err, false, keep, none, ok, refl, some, true, ◌==◌, ◌∷◌, ◌≡◌,
}

-- The hash of a password is the password, and the secret is the one code that is right.
abbrev tools : LoginTools
tools = record {
  to_lower_case = λ email. email;
  compare_password = λ password hash. password == hash;
  verify_totp = λ now code secret. elim secret [ none ↦ false | some right ↦ code == right ];
}

abbrev member : LoginUser
member = record {
  id = 1;
  email = 100;
  password = 5;
  role = organizer;
  is_active = true;
  is_email_verified = true;
  two_factor_enabled = true;
  two_factor_secret = some 42;
}

abbrev members : List LoginUser
members = member ∷ []

abbrev with_code : LoginDto
with_code = record { email = 100; password = 5; totp_code = some 42 }

abbrev wrong_password : LoginDto
wrong_password = record { email = 100; password = 6; totp_code = some 42 }

first_login : (login tools members 1000 with_code []).1 ≡ ok (signed_in member)
unfolding login fail_count cache_get validate_user user_of after_password sign_in check_code
    accept_code cache_del keep is_admin
first_login = refl

login-code_once_example : ¬ (
    (login tools members 50000 with_code (
      login_each tools members
        ((2000, wrong_password) ∷ [])
        (login tools members 1000 with_code []).0)).1
    ≡ ok (signed_in member))
login-code_once_example =
    login-code_once tools members 1000 with_code member 42 [] ((2000, wrong_password) ∷ []) 50000
      with_code refl refl first_login (omega arith) refl

-- After the 90 seconds the code is up to the tool again.
late_login :
    (login tools members 91000 with_code (login tools members 1000 with_code []).0).1
    ≡ ok (signed_in member)
unfolding login fail_count cache_get validate_user user_of after_password sign_in check_code
    accept_code cache_del cache_set same_key keep is_admin
late_login = refl

abbrev nine_failures : List CacheEntry
nine_failures = record { key = login_fail 100; value = 9; until = 5000 } ∷ []

nine_counted : fail_count 1000 100 nine_failures ≡ 9
unfolding fail_count cache_get same_key
nine_counted = refl

not_valid : validate_user tools 100 6 members ≡ none
unfolding validate_user user_of
not_valid = refl

login-locked_example :
    login tools members 50000 with_code (
      login_each tools members
        ((2000, with_code) ∷ [])
        (login tools members 1000 wrong_password nine_failures).0)
    ≡ (
      login_each tools members
          ((2000, with_code) ∷ [])
          (login tools members 1000 wrong_password nine_failures).0,
      err too_many_attempts,
    )
login-locked_example =
    login-locked tools members 1000 wrong_password nine_failures ((2000, with_code) ∷ []) 50000
      with_code nine_counted not_valid (omega arith, tt) (omega arith) refl
