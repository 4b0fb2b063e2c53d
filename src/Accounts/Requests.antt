-- ===== src/Accounts/Requests.antt =====
-- processOTP, checkOTP and resetPasscode of apps/authenticator/src/authenticator.service.ts, and
-- the timer that clears a code which was found valid.
pub mod Takeover
pub mod Checks
use system_chat.Base.{
  ℕ, ◌==◌, Bool, true, false, not, ◌&&◌, Option, some, none, ok, pure, raise, ◌>>=◌, ◌>>◌, gets,
  raise_if, when, or_raise,
}
use system_chat.Caching.{get, set, delete}
use system_chat.Otp.{
  OtpType, sign_up, number_of, Readings, get_expires, generate_otp, verify_otp, clear_otp,
}
use system_chat.Accounts.Rows.{
  reset_passcode_reason, Account, email_exist, token_invalid, otp_invalid, Env, AuthState, History,
  is_some, with_email, with_phone, pushed, read_account, count_accounts, update_account, on_cache,
  send_otp, Call, check_null, to_intl,
}

pub record OtpRequest : Type 0 where
  pub phone : Option ℕ
  pub email : Option ℕ
  pub type : OtpType

pub record VerifyOtpRequest : Type 0 where
  pub request : OtpRequest
  pub otp : Option ℕ
  pub token : ℕ

pub record ResetPasscodeRequest : Type 0 where
  pub passcode : ℕ
  pub phone : Option ℕ
  pub token : ℕ

-- The readings of the clock after those of `generateOTP` or `verifyOTP`, and the random token.
pub record Moments : Type 0 where
  pub codes : Readings
  pub read_at : ℕ
  pub expires_from : ℕ
  pub expires_to : ℕ
  pub stored : ℕ
  pub random_token : ℕ

-- What processOTP returns: the error of too many requests is returned, not thrown.
pub data OtpReply : Type 0 where
  too_many_requests : OtpReply
  token_reply : ℕ → OtpReply

module _ {V : Type 0} (env : Env V) where
  -- `email ? email : toIntlPhone(phone)`
  abbrev pub otp_target : OtpRequest → Call env ℕ
  otp_target input = elim input.email [ none ↦ to_intl env input.phone | some email ↦ pure email ]

  unfoldable pub new_token : Moments → OtpType → Call env ℕ
  new_token m type =
      on_cache (
        set env.redis m.stored m.random_token (some env.flag)
          (get_expires env.dayjs type m.expires_from m.expires_to))
      >> pure m.random_token

  abbrev pub mail_code : Option ℕ → ℕ → Call env (Unit {0})
  mail_code none otp = pure tt
  mail_code (some email) otp = send_otp email (some otp)

  -- What follows `generateOTP`.
  unfoldable pub after_code : Moments → OtpRequest → Option ℕ → Call env OtpReply
  after_code m input none = pure too_many_requests
  after_code m input (some otp) =
      new_token m input.type >>= λ token. mail_code input.email otp >> pure (token_reply token)

  unfoldable pub request_code : Readings → ℕ → ℕ → OtpType → Call env (Option ℕ)
  request_code clock r key type s =
      let (code, cache) =
        generate_otp env.redis env.codes env.dayjs clock r (env.otp_key key type) type s.cache in
      (ok code, record s { cache = cache })

  -- `processOTP`; `r` is the random number of the code.
  unfoldable pub process_otp : Moments → ℕ → OtpRequest → Call env OtpReply
  process_otp m r input = count_accounts (with_email input.email) >>= λ count.
      raise_if (number_of input.type == number_of sign_up && not (count == 0)) email_exist
      >> otp_target input
      >>= λ key. request_code m.codes r key input.type >>= λ otp. after_code m input otp

  -- `checkOTP`
  unfoldable pub check_otp : Moments → ℕ → VerifyOtpRequest → Call env ℕ
  check_otp m now input = gets (λ s. is_some (get env.redis now input.token s.cache)) >>= λ cache.
      raise_if (not cache) token_invalid >> otp_target input.request >>= λ key.
      gets (λ s.
        verify_otp env.redis env.codes m.read_at (env.otp_key key input.request.type) input.otp
          input.request.type s.cache)
      >>= λ valid.
          raise_if (not valid) otp_invalid
          >> on_cache (delete env.redis input.token)
          >> new_token m input.request.type

  -- The callback of the timer in `verifyOTP`.
  pub clear_code : ℕ → OtpType → Call env (Unit {0})
  clear_code key type = on_cache (clear_otp env.redis (env.otp_key key type))

  abbrev pub reset_row : ℕ → ℕ → ℕ → Account → Account
  reset_row at salt passcode a = record a {
    passcode = some (env.hash_value salt passcode);
    histories = pushed (record { updated_at = at; reason = reset_passcode_reason }) a.histories;
  }

  -- What resetPasscode does with a token that is cached: the update runs when it is returned,
  -- after the token was deleted.
  pub reset_with_token : ℕ → ℕ → ℕ → ResetPasscodeRequest → Call env Account
  reset_with_token at salt key input = read_account (with_phone key) >>= λ a.
      on_cache (delete env.redis input.token)
      >> check_null env a.histories
      >> update_account (with_phone key) (reset_row at salt input.passcode)

  -- `resetPasscode`, where the token is read at `now`
  pub reset_passcode : ℕ → ℕ → ResetPasscodeRequest → Call env Account
  reset_passcode now salt input = to_intl env input.phone >>= λ key.
      gets (λ s. is_some (get env.redis now input.token s.cache)) >>= λ cached.
      raise_if (not cached) token_invalid >> reset_with_token now salt key input
