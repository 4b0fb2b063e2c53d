-- ===== src/Accounts/Tests/Profiles.antt =====
-- The theorems on profiles, sign-in and sign-up at concrete inputs.
use system_chat.Base.{
  ◌∷◌, ℕ, ◌+◌, ◌*◌, ◌<◌, ◌≡◌, ◌≢◌, ◌↔◌, err, count_where, refl, true, false, Option, none, some, [],
  ok, is_ok, arith, find?,
}
use system_chat.Caching.{get, set, get_as, set_as}
use system_chat.Otp.{verify_email, get_expires, random_number_by_length, generate_otp}
use system_chat.Otp.Clock.{plain_calendar}
use system_chat.Accounts.Rows.{
  Account, AuthState, with_id, with_email, unique_violation, email_exist,
}
use system_chat.Accounts.Profile.Guarded.{HasUniqueColumns, change_email-ne-unique_violation}
use system_chat.Accounts.Profile.{confirm_email_row, change_email_row, change_email, confirm_email}
use system_chat.Accounts.Profile.Emails.{IsEditable, confirm_email-change_email}
use system_chat.Accounts.SignIn.{
  SignupRequest, sign_up_token, signed_up, verify_passcode_sign_in, validate_sign_up,
  process_sign_in_with_third_party,
}
use system_chat.Accounts.SignIn.SignUp.{sign_up_with_third_party}
use system_chat.Accounts.Examples.{env, alice, state, at_1000}

-- Alice changes her email to 55, and confirms it with the code that was mailed.
abbrev after_code_made : env.redis.Store
after_code_made = (generate_otp env.redis env.codes env.dayjs at_1000 0 5055 verify_email []).1

code_made :
    generate_otp env.redis env.codes env.dayjs at_1000 0 5055 verify_email []
    ≡ (some 100000, after_code_made)
unfolding generate_otp get_as set_as get set random_number_by_length get_expires
code_made = refl

code_lives : 2000 < 1001 + get_expires plain_calendar verify_email 1000 1000 * 1000
unfolding get_expires
code_lives = omega arith

abbrev right_code : Option ℕ
right_code = some 100000

alice-IsEditable : IsEditable env 1 alice (change_email_row 1000 55 alice) state
alice-IsEditable = record { found_row = refl; is_written = refl; is_own = refl }

abbrev email_changed : AuthState env.redis.Store
email_changed = (change_email env 1000 at_1000 0 55 4 1 state).1

confirm_email-change_email_example :
    (email_changed.outbox ≡ record { to = 55; otp = right_code } ∷ state.outbox)
    × ((is_ok (confirm_email env 2000 2000 55 right_code 1 email_changed).0 ≡ true)
        ↔ (right_code ≡ right_code))
    × (find? (with_id 1) (confirm_email env 2000 2000 55 right_code 1 email_changed).1.rows
        ≡ some (confirm_email_row 2000 (change_email_row 1000 55 alice)))
confirm_email-change_email_example =
    confirm_email-change_email env 1000 2000 0 55 4 1 5 100000 2000 right_code at_1000 alice
      after_code_made state refl alice-IsEditable refl refl code_made code_lives

-- The two accounts share nothing, and Alice asks for the email of Bob.
state-HasUniqueColumns : HasUniqueColumns state.rows
state-HasUniqueColumns id a found = ground (arith, found)

change_email-ne-unique_violation_example :
    ((change_email env 1000 at_1000 0 12 4 1 state).0 ≢ err unique_violation)
    × ((change_email env 1000 at_1000 0 12 4 1 state ≡ (err email_exist, state))
        ↔ (count_where (with_email (some 12)) state.rows ≢ 0))
change_email-ne-unique_violation_example =
    change_email-ne-unique_violation env 1000 0 12 4 1 at_1000 state state-HasUniqueColumns

abbrev newcomer : Account
newcomer = record alice {
  id = 0;
  email = some 13;
  passcode = none;
  email_verified = some false;
  phone = none;
  google_id = some 31;
  histories = none;
}

abbrev sign_up_input : SignupRequest
sign_up_input = record {
  token = 88;
  referral_by = none;
  passcode = 6;
  full_name = some 7;
  avatar = none;
  email = none;
}

sign_up_with_third_party_example :
    ((process_sign_in_with_third_party env 1000 88 newcomer state).0 ≡ ok (sign_up_token 88))
    × ((verify_passcode_sign_in env 3 6
          (validate_sign_up env 2000 2001 3 0 sign_up_input
            (process_sign_in_with_third_party env 1000 88 newcomer state).1).1).0
        ≡ ok (
            some (record (signed_up env 2001 3 0 sign_up_input none newcomer) { passcode = none })))
sign_up_with_third_party_example =
    sign_up_with_third_party env 1000 88 2000 2001 3 0 13 sign_up_input newcomer state refl refl
      (omega arith) refl refl refl refl refl refl
