-- ===== src/Accounts/Profile.antt =====
-- confirmPhone, changePhone, checkPhone, preCheckPhone, verifyPasscode, editAccount, changeEmail
-- and confirmEmail of apps/authenticator/src/authenticator.service.ts.
pub mod Emails
pub mod Guarded
pub mod Passcodes
use system_chat.Base.{
  ℕ, ◌+◌, ◌==◌, Bool, true, false, not, ◌&&◌, ◌||◌, Option, some, none, List, [], ◌∷◌, ◌++◌, pure,
  ◌>>=◌, ◌>>◌, gets, raise, raise_if, when, or_raise,
}
use system_chat.Caching.{set_as, delete}
use system_chat.Otp.{minutes, verify_email, Readings, generate_otp, verify_otp}
use system_chat.Accounts.Rows.{
  Reason, reset_passcode_reason, change_email_reason, confirm_email_reason, change_phone_reason,
  confirm_phone_reason, Account, email_exist, phone_exist, phone_already_used, otp_invalid,
  passcode_invalid, current_passcode_invalid, account_invalid, email_invalid, illegal_arguments,
  unknown_argument, Env, AuthState, History, is, is_some, with_email, with_id, with_phone, put,
  pushed, find_account, read_account, count_accounts, update_account, on_cache, send_otp, Call,
  check_null, to_intl, compare_passcode,
}
use system_chat.Accounts.Requests.{request_code}

-- `UserProfileDto`; `coin_id` is no column of the table.
pub record UserProfile : Type 0 where
  pub full_name : Option ℕ
  pub avatar : Option ℕ
  pub email : Option ℕ
  pub coin_id : Option ℕ
  pub passcode : Option ℕ
  pub current_passcode : Option ℕ

abbrev pub record_of : ℕ → Reason → History
record_of at reason = record { updated_at = at; reason = reason }

abbrev pub confirm_phone_row : ℕ → Account → Account
confirm_phone_row at a = record a {
  phone_verified = some true;
  histories = pushed (record_of at confirm_phone_reason) a.histories;
}

abbrev pub change_phone_row : ℕ → ℕ → Account → Account
change_phone_row at phone a = record a {
  phone = some phone;
  phone_verified = some false;
  histories = pushed (record_of at change_phone_reason) a.histories;
}

abbrev pub change_email_row : ℕ → ℕ → Account → Account
change_email_row at email a = record a {
  email = some email;
  email_verified = some false;
  histories = pushed (record_of at change_email_reason) a.histories;
}

abbrev pub confirm_email_row : ℕ → Account → Account
confirm_email_row at a = record a {
  email_verified = some true;
  histories = pushed (record_of at confirm_email_reason) a.histories;
}

-- `{ id, email, emailVerified: false }`
abbrev pub unconfirmed : ℕ → ℕ → Account → Bool
unconfirmed id email a =
    a.id == id && is a.email email && elim a.email_verified [ some false ↦ true | _ ↦ false ]

abbrev pub listed : Option (List History) → List History
listed none = []
listed (some hs) = hs

-- The update of editAccount: the profile, and with a new passcode its hash and the histories.
abbrev pub edit_row : UserProfile → Account → Account
edit_row input a = record a {
  full_name = put input.full_name a.full_name;
  avatar = put input.avatar a.avatar;
  email = put input.email a.email;
}

abbrev pub edit_passcode_row : ℕ → ℕ → UserProfile → List History → Account → Account
edit_passcode_row at hash input hs a = record (edit_row input a) {
  passcode = some hash;
  histories = some (hs ++ record_of at reset_passcode_reason ∷ []);
}

module _ {V : Type 0} (env : Env V) where
  -- `confirmPhone`
  pub confirm_phone : ℕ → ℕ → Call env (Unit {0})
  confirm_phone at id = find_account (with_id id) >>= λ found.
      or_raise found account_invalid >>= λ account.
      check_null env account.histories
      >> update_account (with_id id) (confirm_phone_row at)
      >>= λ _. pure tt

  -- `changePhone`
  pub change_phone : ℕ → ℕ → ℕ → Call env (Unit {0})
  change_phone at phone_input id = to_intl env (some phone_input) >>= λ phone.
      count_accounts (with_phone phone) >>= λ exist.
      raise_if (not (exist == 0)) phone_exist >> read_account (with_id id) >>= λ account.
      check_null env account.histories
      >> update_account (with_id id) (change_phone_row at phone)
      >> on_cache (delete env.redis (env.pre_check_key phone_input))

  -- The count of checkPhone and preCheckPhone.
  unfoldable pub count_others : ℕ → ℕ → Call env ℕ
  count_others user_id phone_input = to_intl env (some phone_input) >>= λ phone.
      count_accounts (λ a. not (a.id == user_id) && with_phone phone a)

  -- `checkPhone`
  pub check_phone : ℕ → ℕ → Call env Bool
  check_phone user_id phone = count_others user_id phone >>= λ count. pure (not (count == 0))

  -- `preCheckPhone`, where the clock reads `now`, then `stored`
  unfoldable pub pre_check_phone : ℕ → ℕ → ℕ → ℕ → Call env ℕ
  pre_check_phone now stored user_id phone = count_others user_id phone >>= λ exist.
      raise_if (not (exist == 0)) phone_already_used
      >> (let expires_in = env.dayjs.add now (record { value = 5; unit = minutes }) in
          on_cache (
            set_as env.redis env.pre_checks stored (env.pre_check_key user_id)
              (record { expires_in = expires_in; phone = phone }) 300)
          >> pure expires_in)

  -- `verifyPasscode`
  pub verify_passcode : ℕ → ℕ → Call env Bool
  verify_passcode user_id passcode = read_account (with_id user_id) >>= λ account.
      compare_passcode env passcode account.passcode >>= λ valid.
      raise_if (not valid) passcode_invalid >> pure true

  -- `compareHash` where the first argument may be missing
  abbrev pub compare_current : Option ℕ → Option ℕ → Call env Bool
  compare_current none hash = raise illegal_arguments
  compare_current (some given) hash = compare_passcode env given hash

  -- editAccount with a new passcode
  unfoldable pub edit_passcode : ℕ → ℕ → UserProfile → ℕ → ℕ → Call env Account
  edit_passcode at salt input passcode id = read_account (with_id id) >>= λ account.
      compare_current input.current_passcode account.passcode >>= λ valid.
      raise_if (not valid) current_passcode_invalid
      >> raise_if (is_some input.coin_id) unknown_argument
      >> update_account (with_id id)
          (edit_passcode_row at (env.hash_value salt passcode) input (listed account.histories))
      >>= λ edited. on_cache (delete env.redis (env.session_key id)) >> pure edited

  -- `editAccount`
  unfoldable pub edit_account : ℕ → ℕ → UserProfile → ℕ → Call env Account
  edit_account at salt input id = elim input.passcode [
    | none ↦
        raise_if (is_some input.coin_id || is_some input.current_passcode) unknown_argument
        >> update_account (with_id id) (edit_row input)
    | some passcode ↦ edit_passcode at salt input passcode id
  ]

  -- `changeEmail`; the code is mailed even where none was made.
  pub change_email : ℕ → Readings → ℕ → ℕ → ℕ → ℕ → Call env (Unit {0})
  change_email at clock r email passcode id = count_accounts (with_email (some email)) >>= λ exist.
      raise_if (not (exist == 0)) email_exist >> read_account (with_id id) >>= λ account.
      compare_passcode env passcode account.passcode >>= λ valid.
      raise_if (not valid) passcode_invalid
      >> check_null env account.histories
      >> update_account (with_id id) (change_email_row at email)
      >> request_code env clock r email verify_email
      >>= λ otp. send_otp email otp

  -- `confirmEmail`, where the code is read at `now`
  pub confirm_email : ℕ → ℕ → ℕ → Option ℕ → ℕ → Call env (Unit {0})
  confirm_email at now email otp id =
      gets (λ s.
        verify_otp env.redis env.codes now (env.otp_key email verify_email) otp verify_email
          s.cache)
      >>= λ valid.
          raise_if (not valid) otp_invalid >> find_account (unconfirmed id email) >>= λ found.
          or_raise found email_invalid >>= λ account.
          check_null env account.histories
          >> update_account (with_id id) (confirm_email_row at)
          >>= λ _. pure tt
