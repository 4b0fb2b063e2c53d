-- ===== src/Accounts/Rows.antt =====
-- The state of apps/authenticator/src/authenticator.service.ts: the table `account` of
-- prisma/schema.prisma without the columns that the methods only store, the cache, and the mails
-- that are on their way. A text is a number; `env` makes the cache's keys of such texts.
pub mod Updates
use system_chat.Base.{
  ℕ, ◌≡◌, ◌==◌, Bool, true, false, not, ◌&&◌, ◌||◌, Option, some, none, List, [], ◌∷◌, ◌++◌, Effect,
  pure, raise, ◌>>=◌, ◌>>◌, modify, gets, or_raise, raise_if, find?, count_where, update_where,
}
use system_chat.Caching.{Redis, Holds}
use system_chat.Otp.{OtpType, CachingOtp, Dayjs}

-- `REASON`, `CREATE_ACCOUNT_SUCCESS` of a new account, and a reason that the user of the back office
-- with this id gave
pub data Reason : Type 0 where
  reset_passcode_reason change_email_reason confirm_email_reason change_phone_reason
        confirm_phone_reason create_account_reason :
      Reason
  office_reason : Option ℕ → ℕ → Reason

pub record History : Type 0 where
  pub updated_at : ℕ
  pub reason : Reason

pub record Account : Type 0 where
  pub id : ℕ
  pub full_name : Option ℕ
  pub avatar : Option ℕ
  pub email : Option ℕ
  pub passcode : Option ℕ
  pub email_verified : Option Bool
  pub phone : Option ℕ
  pub phone_verified : Option Bool
  pub status : ℕ
  pub referral_code : Option ℕ
  pub google_id : Option ℕ
  pub facebook_id : Option ℕ
  pub apple_id : Option ℕ
  pub histories : Option (List History)

-- What is cached by `preCheckPhone`.
pub record PreCheck : Type 0 where
  pub expires_in : ℕ
  pub phone : ℕ

-- The errors: the messages of a bad request, then what the libraries throw.
pub data AuthError : Type 0 where
  email_exist phone_exist phone_already_used token_invalid otp_invalid passcode_invalid
        current_passcode_invalid account_invalid email_invalid phone_invalid status_invalid :
      AuthError
  type_error illegal_arguments number_parse_error record_not_found unique_violation null_refused
        unknown_argument :
      AuthError

-- The libraries that the service calls, and the texts that it makes.
pub record Env (V : Type 0) : Type 1 where
  pub redis : Redis V
  pub dayjs : Dayjs
  -- the cached `true`, and the other kinds of values
  pub flag : V
  pub codes : Holds V CachingOtp
  pub accounts : Holds V Account
  pub pre_checks : Holds V PreCheck
  -- `parsePhoneNumber(phone, 'VN')`, which throws on what is no number
  pub to_intl_phone : ℕ → Option ℕ
  -- `isPhoneNumber(text, 'VN')` and `isEmail(text)` of class-validator
  pub is_phone_number : ℕ → Bool
  pub is_email : ℕ → Bool
  -- bcrypt, with its random salt
  pub hash_value : ℕ → ℕ → ℕ
  pub compare_hash : ℕ → ℕ → Bool
  pub compare_hash-hash_value : (salt text : ℕ) → compare_hash text (hash_value salt text) ≡ true
  -- `key + type`, and the texts with a prefix
  pub otp_key : ℕ → OtpType → ℕ
  pub find_account_key : Option ℕ → Bool → ℕ
  pub pre_check_key : ℕ → ℕ
  pub session_key : ℕ → ℕ
  pub sign_in_key : ℕ → ℕ
  pub sign_up_key : ℕ → ℕ
  -- whether Prisma writes a plain null to a column of type Json
  pub takes_null : Bool
  -- whether a condition on `undefined` alone, among those of an OR, holds of every row
  pub empty_condition : Bool

-- A mail that `MailService.sendOTP` sends.
pub record Mail : Type 0 where
  pub to : ℕ
  pub otp : Option ℕ

pub record AuthState (C : Type 0) : Type 0 where
  pub rows : List Account
  pub cache : C
  pub outbox : List Mail

abbrev pub is : Option ℕ → ℕ → Bool
is none n = false
is (some m) n = m == n

abbrev pub is_some {ℓ} : {A : Type ℓ} → Option A → Bool
is_some none = false
is_some (some a) = true

-- Both columns have a value, and the same.
abbrev pub same : Option ℕ → Option ℕ → Bool
same none o = false
same (some m) o = is o m

-- `where: { email }`, where `undefined` is no condition.
abbrev pub with_email : Option ℕ → Account → Bool
with_email none a = true
with_email (some email) a = is a.email email

abbrev pub with_referral_code : ℕ → Account → Bool
with_referral_code n a = is a.referral_code n

-- A column in the data of an update or of `Object.assign`, where `undefined` keeps the value.
abbrev pub put {ℓ} : {A : Type ℓ} → Option A → Option A → Option A
put none old = old
put (some new) old = some new

abbrev pub with_id : ℕ → Account → Bool
with_id n a = a.id == n

abbrev pub with_phone : ℕ → Account → Bool
with_phone n a = is a.phone n

-- The columns that are @unique.
abbrev pub clashes : Account → Account → Bool
clashes a b = same a.email b.email || same a.phone b.phone || same a.referral_code b.referral_code

abbrev pub taken : Account → List Account → Bool
taken a rows = not (count_where (λ b. not (b.id == a.id) && clashes a b) rows == 0)

-- `histories.push(…)` on the array of the row. Where the row has none, the array is a new one
-- that nothing refers to.
abbrev pub pushed {ℓ} : {A : Type ℓ} → A → Option (List A) → Option (List A)
pushed h none = none
pushed h (some hs) = some (hs ++ h ∷ [])

module _ {C : Type 0} where
  abbrev pub find_account : (Account → Bool) → Effect AuthError (AuthState C) (Option Account)
  find_account p = gets (λ s. find? p s.rows)

  -- `findUnique` and a field of its result
  abbrev pub read_account : (Account → Bool) → Effect AuthError (AuthState C) Account
  read_account p = find_account p >>= λ found. or_raise found type_error

  abbrev pub count_accounts : (Account → Bool) → Effect AuthError (AuthState C) ℕ
  count_accounts p = gets (λ s. count_where p s.rows)

  -- `update` by a unique key.
  abbrev pub update_account :
      (Account → Bool) → (Account → Account) → Effect AuthError (AuthState C) Account
  update_account p f = find_account p >>= λ found. or_raise found record_not_found >>= λ a.
      gets (λ s. s.rows) >>= λ rows.
      raise_if (taken (f a) rows) unique_violation
      >> modify (λ s. record s { rows = update_where p f s.rows })
      >> pure (f a)

  -- `create`; the newest row is the last.
  abbrev pub create_account : Account → Effect AuthError (AuthState C) Account
  create_account a = gets (λ s. s.rows) >>= λ rows.
      raise_if (is_some (find? (with_id a.id) rows) || taken a rows) unique_violation
      >> modify (λ s. record s { rows = s.rows ++ a ∷ [] })
      >> pure a

  abbrev pub on_cache : (C → C) → Effect AuthError (AuthState C) (Unit {0})
  on_cache f = modify (λ s. record s { cache = f s.cache })

  abbrev pub send_otp : ℕ → Option ℕ → Effect AuthError (AuthState C) (Unit {0})
  send_otp to otp = modify (λ s. record s { outbox = record { to = to; otp = otp } ∷ s.outbox })

module _ {V : Type 0} (env : Env V) where
  abbrev pub Call : Type 0 → Type 0
  Call A = Effect AuthError (AuthState env.redis.Store) A

  -- `histories: …` in the data of an update.
  abbrev pub check_null : Option (List History) → Call (Unit {0})
  check_null hs = raise_if (not (is_some hs) && not env.takes_null) null_refused

  abbrev pub to_intl : Option ℕ → Call ℕ
  to_intl none = raise number_parse_error
  to_intl (some phone) = or_raise (env.to_intl_phone phone) number_parse_error

  -- `compareHash(passcode, account.passcode)`
  abbrev pub compare_passcode : ℕ → Option ℕ → Call Bool
  compare_passcode given none = raise illegal_arguments
  compare_passcode given (some hash) = pure (env.compare_hash given hash)
