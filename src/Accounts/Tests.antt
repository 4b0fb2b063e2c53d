-- ===== src/Accounts/Tests.antt =====
-- The theorems on accounts at concrete inputs.
mod Profiles
use system_chat.Base.{
  ℕ, zero, suc, ◌+◌, ◌*◌, ◌<◌, ◌≡◌, ◌≢◌, ◌↔◌, ◌==◌, refl, Bool, true, false, not, Option, none,
  some, List, [], ◌∷◌, ok, err, is_ok, arith, find?,
}
use system_chat.Caching.{Redis, Holds, get, set, get_as, set_as, delete}
use system_chat.Caching.Memory.{memory}
use system_chat.Otp.{
  OtpType, sign_up, reset_passcode, verify_email, number_of, CachingOtp, Readings, get_expires,
  random_number_by_length, generate_otp, verify_otp,
}
use system_chat.Otp.Clock.{plain_calendar}
use system_chat.Otp.Codes.{IsOrdered}
use system_chat.Accounts.Rows.{
  Account, AuthState, PreCheck, Env, History, email_exist, token_invalid, with_id, with_phone,
  current_passcode_invalid,
}
use system_chat.Accounts.Requests.{
  OtpRequest, VerifyOtpRequest, ResetPasscodeRequest, Moments, token_reply, too_many_requests,
  process_otp, check_otp, reset_row,
}
use system_chat.Accounts.Requests as Requests
use system_chat.Accounts.Requests.Takeover.{
  IsResettable, reset_passcode-process_otp, reset_passcode_once,
}
use system_chat.Accounts.Requests.Checks.{
  process_otp_sign_up_by_phone, check_otp_iff, check_otp_failed, check_otp-process_otp,
  process_otp_again, mailed,
}
use system_chat.Accounts.Examples.{
  flag_value, env, alice, bob, state, at_1000, at_1000-IsOrdered, moments,
}

-- Someone asks for a code for an address of his own, and resets the passcode of Alice.
abbrev own_request : OtpRequest
own_request = record { phone = none; email = some 99; type = reset_passcode }

abbrev attack : ResetPasscodeRequest
attack = record { passcode = 400; phone = some 21; token = 77 }

abbrev after_request : AuthState env.redis.Store
after_request = (process_otp env moments 0 own_request state).1

own_request_token :
    process_otp env moments 0 own_request state ≡ (ok (token_reply 77), after_request)
unfolding process_otp Requests.after_code Requests.new_token Requests.request_code generate_otp
    get_as set_as get set random_number_by_length get_expires
own_request_token = refl

-- The token lives for half an hour, and so does the code.
token_lives :
    (t : ℕ) → t < 1801000 → t < 1002 + get_expires plain_calendar reset_passcode 1002 1002 * 1000
unfolding get_expires
token_lives t h = omega (arith, h)

code_lives :
    (t : ℕ) → t < 1801000 → t < 1001 + get_expires plain_calendar reset_passcode 1000 1000 * 1000
unfolding get_expires
code_lives t h = omega (arith, h)

state-IsResettable : IsResettable env 21 alice state
state-IsResettable = record { found_row = refl; is_written = refl; is_own = refl }

reset_passcode-process_otp_example :
    ((Requests.reset_passcode env 2000 0 attack after_request).0
      ≡ ok (reset_row env 2000 0 400 alice))
    × (find? (with_phone 21) (Requests.reset_passcode env 2000 0 attack after_request).1.rows
        ≡ some (reset_row env 2000 0 400 alice))
reset_passcode-process_otp_example =
    reset_passcode-process_otp env moments 0 2000 0 21 21 77 own_request attack alice state
      after_request own_request_token refl (token_lives 2000 (omega arith)) refl refl
      state-IsResettable

abbrev with_code : Option ℕ → VerifyOtpRequest
with_code code = record { request = own_request; otp = code; token = 77 }

abbrev after_code_made : env.redis.Store
after_code_made = (generate_otp env.redis env.codes env.dayjs at_1000 0 4099 reset_passcode []).1

code_made :
    generate_otp env.redis env.codes env.dayjs at_1000 0 4099 reset_passcode []
    ≡ (some 100000, after_code_made)
unfolding generate_otp get_as set_as get set random_number_by_length get_expires
code_made = refl

abbrev right_code : Option ℕ
right_code = some 100000

check_otp-process_otp_example :
    let sent = (process_otp env moments 0 own_request state).1 in
    (sent.outbox ≡ record { to = 99; otp = right_code } ∷ state.outbox)
    × ((is_ok (check_otp env moments 2500 (with_code right_code) sent).0 ≡ true)
        ↔ (right_code ≡ right_code))
check_otp-process_otp_example =
    check_otp-process_otp env moments moments 0 2500 99 100000 own_request right_code
      after_code_made state refl refl code_made (λ e. ground (arith, e))
      (token_lives 2500 (omega arith)) (code_lives 3000 (omega arith))
