-- ===== src/Sessions/Tests.antt =====
-- The theorems on sessions at concrete inputs.
use system_chat.Base.{◌>>=◌, ℕ, ◌<◌, ◌≡◌, ◌↔◌, refl, true, false, none, some, [], ◌∷◌, ok, arith}
use system_chat.Caching.{get_as, set_as, get, set, delete}
use system_chat.Accounts.Rows.{Account, AuthState, Env}
use system_chat.Accounts.Rows as Rows
use system_chat.Accounts.Examples.{account_value, alice}
use system_chat.Accounts.Profile.{UserProfile, edit_account}
use system_chat.Accounts.Profile as Profile
use system_chat.Accounts.Profile.Passcodes.{IsAllowed}
use system_chat.Accounts.SignIn.{
  SignupRequest, verify_passcode_sign_in, validate_sign_up, get_account,
}
use system_chat.Accounts.SignIn as SignIn
use system_chat.Sessions.{
  payload_of, tokens, get_profile, invalid_credentials, process_login, authenticate, refresh_token,
  gateway_sign_in, gateway_sign_up, answered, sign_up_answer,
}
use system_chat.Sessions.Login.{admits_user, access_of, refresh_of, authenticate-process_login}
use system_chat.Sessions.Refresh.{IsInTime, refresh_token_once, refresh_token-edit_account}
use system_chat.Sessions.SignUp.{IsApart, gateway_sign_up_again}
use system_chat.Sessions.SignIn.{IsSignedIn, gateway_sign_in_sound}
use system_chat.Sessions.Examples.{Issued, auth_value, env, gateway, start, at}

abbrev old_token : Issued
old_token = access_of env gateway (at 0) alice

abbrev logged_in : AuthState env.redis.Store
logged_in = (process_login env gateway (at 5000) alice start).1

authenticate-process_login_example :
    (admits_user (authenticate env gateway (at 9000) old_token logged_in).0 ≡ true)
    ↔ (old_token ≡ access_of env gateway (at 5000) alice)
authenticate-process_login_example =
    authenticate-process_login env gateway (at 5000) (at 9000) alice old_token (payload_of alice)
      start refl (omega arith) refl refl

five_nine : IsInTime env gateway (at 5000) (at 9000)
five_nine = record { is_signed = omega arith; is_cached = omega arith }

abbrev profile_state : AuthState env.redis.Store
profile_state = (get_profile env (at 9000) 1 logged_in).1

profile_of_alice :
    get_profile env (at 9000) 1 logged_in ≡ (ok (record alice { passcode = none }), profile_state)
unfolding get_profile get_account SignIn.load_account get_as set_as get set process_login
profile_of_alice = refl

refresh_token_once_example :
    ((refresh_token env gateway (at 9000) (refresh_of env gateway (at 5000) alice) logged_in).0
      ≡ ok
          (tokens (access_of env gateway (at 9000) alice) (refresh_of env gateway (at 9000) alice)))
    × (let first =
          refresh_token env gateway (at 9000) (refresh_of env gateway (at 5000) alice) logged_in in
        refresh_token env gateway (at 12000) (refresh_of env gateway (at 5000) alice) first.1
        ≡ (ok invalid_credentials, first.1))
refresh_token_once_example =
    refresh_token_once env gateway (at 5000) (at 9000) (at 12000) alice
      (record alice { passcode = none }) (payload_of alice) start profile_state refl refl refl
      five_nine profile_of_alice refl refl (λ e. ground (arith, e))

abbrev new_passcode : UserProfile
new_passcode = record {
  full_name = none;
  avatar = none;
  email = none;
  coin_id = none;
  passcode = some 400;
  current_passcode = some 4;
}

alice_may : IsAllowed env 6000 0 400 4 5 1 new_passcode alice logged_in
unfolding process_login
alice_may = record {
  found_row = refl;
  has_passcode = refl;
  asks = refl;
  gives = refl;
  knows = refl;
  has_no_coin = refl;
  is_own = refl;
}

abbrev changed_state : AuthState env.redis.Store
changed_state = (edit_account env 6000 0 new_passcode 1 logged_in).1

abbrev changed_alice : Account
changed_alice = record alice {
  passcode = none;
  histories = some (Profile.record_of 6000 Rows.reset_passcode_reason ∷ []);
}

profile_after_change :
    get_profile env (at 9000) 1 changed_state
    ≡ (ok changed_alice, (get_profile env (at 9000) 1 changed_state).1)
unfolding get_profile get_account SignIn.load_account get_as set_as get set process_login
    edit_account Profile.edit_passcode delete
profile_after_change = refl

refresh_token-edit_account_example :
    (admits_user
        (authenticate env gateway (at 9000) (access_of env gateway (at 5000) alice) changed_state).0
      ≡ false)
    × ((refresh_token env gateway
          (at 9000)
          (refresh_of env gateway (at 5000) alice)
          changed_state).0
        ≡ ok (
            tokens
              (access_of env gateway (at 9000) alice)
              (refresh_of env gateway (at 9000) alice)))
refresh_token-edit_account_example =
    refresh_token-edit_account env gateway (at 5000) (at 9000) 6000 0 400 4 5 new_passcode alice
      alice changed_alice start (get_profile env (at 9000) 1 changed_state).1 refl refl five_nine
      (omega arith) alice_may profile_after_change

abbrev newcomer : Account
newcomer = record alice { id = 0; email = some 13; passcode = none; phone = none; histories = none }

abbrev with_sign_up_token : AuthState env.redis.Store
with_sign_up_token = record start {
  cache = set_as env.redis env.accounts 1000 (env.sign_up_key 88) newcomer 600 [];
}

abbrev sign_up_body : ℕ → SignupRequest
sign_up_body email = record {
  token = 88;
  referral_by = none;
  passcode = 6;
  full_name = none;
  avatar = none;
  email = some email;
}

abbrev new_account : ℕ → ℕ → ℕ → Account
new_account t id email = SignIn.signed_up env t id 0 (sign_up_body email) none newcomer

abbrev signed_up_once : AuthState env.redis.Store
signed_up_once = (gateway_sign_up env gateway (at 2000) 3 0 (sign_up_body 13) with_sign_up_token).1

first_sign_up : validate_sign_up env 2000 2000 3 0 (sign_up_body 13) with_sign_up_token ≡ (
  ok (new_account 2000 3 13, none),
  (validate_sign_up env 2000 2000 3 0 (sign_up_body 13) with_sign_up_token).1,
)
unfolding validate_sign_up SignIn.find_referral SignIn.normalize_phone SignIn.check_new_email get_as
    set_as get set
first_sign_up = refl

sign_up_key_88 : IsApart env gateway 88
sign_up_key_88 = record {
  is_no_token = λ e. omega (arith, e);
  is_no_session = λ id e. omega (arith, e);
  is_no_refresh = λ id e. omega (arith, e);
}

token_found :
    (t : ℕ)
    → t < 601000
    → get env.redis t 884 with_sign_up_token.cache ≡ some (auth_value (account_value newcomer))
unfolding get set_as set
token_found t h = ground (arith, h)

gateway_sign_up_again_example :
    (get env.redis 3000 884 signed_up_once.cache ≡ some (auth_value (account_value newcomer)))
    × (gateway_sign_up env gateway (at 3000) 4 0 (sign_up_body 14) signed_up_once
        ≡ (answered env (validate_sign_up env 3000 3000 4 0 (sign_up_body 14))
              >>= sign_up_answer env gateway (at 3000) 88)
            signed_up_once)
gateway_sign_up_again_example =
    gateway_sign_up_again env gateway (at 2000) (at 3000) 3 0 4 0 (sign_up_body 13)
      (sign_up_body 14) (auth_value (account_value newcomer)) (auth_value (account_value newcomer))
      (new_account 2000 3 13) none with_sign_up_token
      (validate_sign_up env 2000 2000 3 0 (sign_up_body 13) with_sign_up_token).1 sign_up_key_88
      refl (token_found 2000 (omega arith)) first_sign_up refl (token_found 3000 (omega arith))

abbrev with_sign_in_token : AuthState env.redis.Store
with_sign_in_token = record start {
  cache = set_as env.redis env.accounts 1000 (env.sign_in_key 55) alice 600 [];
}

signs_in :
    (gateway_sign_in env gateway (at 2000) 4 55 with_sign_in_token).0
    ≡ ok (tokens (access_of env gateway (at 2000) alice) (refresh_of env gateway (at 2000) alice))
unfolding gateway_sign_in verify_passcode_sign_in process_login get_as set_as get set
signs_in = refl

gateway_sign_in_sound_example :
    IsSignedIn env gateway
      (at 2000)
      4
      (access_of env gateway (at 2000) alice)
      (refresh_of env gateway (at 2000) alice)
      with_sign_in_token
gateway_sign_in_sound_example =
    gateway_sign_in_sound env gateway (at 2000) 4 55 (access_of env gateway (at 2000) alice)
      (refresh_of env gateway (at 2000) alice) with_sign_in_token signs_in
