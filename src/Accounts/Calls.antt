-- ===== src/Accounts/Calls.antt =====
-- apps/authenticator/src/authenticator.controller.ts: the messages that lead to the calls of the
-- other modules, and the timers that these calls start.
use system_chat.Base.{ℕ, Bool, Option, List, [], ◌∷◌}
use system_chat.Otp.{OtpType, Readings}
use system_chat.Accounts.Rows.{Account, AuthState, Env}
use system_chat.Accounts.Requests.{
  OtpRequest, VerifyOtpRequest, ResetPasscodeRequest, Moments, process_otp, check_otp, clear_code,
  reset_passcode,
}
use system_chat.Accounts.Profile.{
  UserProfile, confirm_phone, change_phone, check_phone, pre_check_phone, verify_passcode,
  edit_account, change_email, confirm_email,
}
use system_chat.Accounts.SignIn.{
  FindAccountRequest, SignupRequest, get_account, sign_in, verify_passcode_sign_in,
  validate_sign_up, sign_in_with_google, update_third_party,
}

-- A message with its payload and what its call reads of clocks and random numbers; a call of
-- verifyPasscode, to which no message leads; and the timers.
pub data AuthMessage : Type 0 where
  sign_in_message : ℕ → ℕ → ℕ → ℕ → AuthMessage
  google_message : ℕ → ℕ → ℕ → AuthMessage
  sign_up_verify_passcode_message : ℕ → ℕ → ℕ → ℕ → SignupRequest → AuthMessage
  sign_in_verify_passcode_message : ℕ → ℕ → AuthMessage
  request_otp_message : Moments → ℕ → OtpRequest → AuthMessage
  verify_otp_message : Moments → ℕ → VerifyOtpRequest → AuthMessage
  check_phone_message : ℕ → ℕ → AuthMessage
  pre_check_phone_message : ℕ → ℕ → ℕ → ℕ → AuthMessage
  change_phone_message : ℕ → ℕ → ℕ → AuthMessage
  confirm_phone_message : ℕ → ℕ → AuthMessage
  reset_passcode_message : ℕ → ℕ → ResetPasscodeRequest → AuthMessage
  change_email_message : ℕ → Readings → ℕ → ℕ → ℕ → ℕ → AuthMessage
  confirm_email_message : ℕ → ℕ → ℕ → Option ℕ → ℕ → AuthMessage
  find_account_message : ℕ → ℕ → FindAccountRequest → Bool → AuthMessage
  edit_profile_message : ℕ → ℕ → UserProfile → ℕ → AuthMessage
  verify_passcode_message : ℕ → ℕ → AuthMessage
  clear_code_timer : ℕ → OtpType → AuthMessage
  third_party_timer : Account → Account → AuthMessage

module _ {V : Type 0} (env : Env V) where
  -- The state after a message was handled or a timer ran, however it ended.
  pub handle_auth : AuthMessage → AuthState env.redis.Store → AuthState env.redis.Store
  handle_auth (sign_in_message now stored phone passcode) s =
      (sign_in env now stored phone passcode s).1
  handle_auth (google_message stored token access_token) s =
      (sign_in_with_google env stored token access_token s).1
  handle_auth (sign_up_verify_passcode_message now at new_id salt input) s =
      (validate_sign_up env now at new_id salt input s).1
  handle_auth (sign_in_verify_passcode_message id passcode) s =
      (verify_passcode_sign_in env id passcode s).1
  handle_auth (request_otp_message m r input) s = (process_otp env m r input s).1
  handle_auth (verify_otp_message m now input) s = (check_otp env m now input s).1
  handle_auth (check_phone_message user_id phone) s = (check_phone env user_id phone s).1
  handle_auth (pre_check_phone_message now stored user_id phone) s =
      (pre_check_phone env now stored user_id phone s).1
  handle_auth (change_phone_message at phone id) s = (change_phone env at phone id s).1
  handle_auth (confirm_phone_message at id) s = (confirm_phone env at id s).1
  handle_auth (reset_passcode_message now salt input) s = (reset_passcode env now salt input s).1
  handle_auth (change_email_message at clock r email passcode id) s =
      (change_email env at clock r email passcode id s).1
  handle_auth (confirm_email_message at now email otp id) s =
      (confirm_email env at now email otp id s).1
  handle_auth (find_account_message now stored params profile) s =
      (get_account env now stored params profile s).1
  handle_auth (edit_profile_message at salt input id) s = (edit_account env at salt input id s).1
  handle_auth (verify_passcode_message user_id passcode) s =
      (verify_passcode env user_id passcode s).1
  handle_auth (clear_code_timer key type) s = (clear_code env key type s).1
  handle_auth (third_party_timer new account) s = (update_third_party env new account s).1

  pub handle_auth_all : List AuthMessage → AuthState env.redis.Store → AuthState env.redis.Store
  handle_auth_all [] s = s
  handle_auth_all (m ∷ ms) s = handle_auth_all ms (handle_auth m s)
