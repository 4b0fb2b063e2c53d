-- ===== src/Otp.antt =====
-- libs/otp/src/otp.service.ts: `OTPService` and `OTP_CONFIG`, and `randomNumberByLength` of
-- libs/utils/src/utils.service.ts. The keys are numbers. A code that a user sends is the number of
-- which it is the decimal text, or `none` if it is the text of no number.
pub mod Codes
pub mod Clock
mod Tests
use system_chat.Base.{
  ℕ, ◌+◌, ◌-◌, ◌*◌, ◌/◌, ◌^◌, ◌≡◌, ◌==◌, leb, Bool, true, false, ◌&&◌, Option, some, none,
  if◌then◌else◌,
}
use system_chat.Caching.{Redis, Holds, get_as, set_as, delete}

-- `enum OTP_TYPE`
pub data OtpType : Type 0 where
  sign_up cashback payment reset_passcode verify_email : OtpType

abbrev pub number_of : OtpType → ℕ
number_of sign_up = 1
number_of cashback = 2
number_of payment = 3
number_of reset_passcode = 4
number_of verify_email = 5

-- The units of time that the configuration uses.
pub data UnitType : Type 0 where
  seconds minutes day : UnitType

pub record Time : Type 0 where
  pub value : ℕ
  pub unit : UnitType

pub record OtpConfig : Type 0 where
  pub ttl : Time
  pub resend_after : Time
  pub passcode_length : ℕ

abbrev time : ℕ → UnitType → Time
time value unit = record { value = value; unit = unit }

-- `OTP_CONFIG`
abbrev pub otp_config : OtpType → OtpConfig
otp_config sign_up = record {
  ttl = time 5 minutes;
  resend_after = time 30 seconds;
  passcode_length = 4;
}
otp_config cashback = record {
  ttl = time 10 minutes;
  resend_after = time 2 minutes;
  passcode_length = 6;
}
otp_config payment = record {
  ttl = time 10 minutes;
  resend_after = time 2 minutes;
  passcode_length = 6;
}
otp_config reset_passcode = record {
  ttl = time 30 minutes;
  resend_after = time 2 minutes;
  passcode_length = 6;
}
otp_config verify_email = record {
  ttl = time 1 day;
  resend_after = time 2 minutes;
  passcode_length = 6;
}

-- `randomNumberByLength`, where `Math.random()` is r / 2^53, and computed without rounding.
unfoldable pub random_number_by_length : ℕ → ℕ → ℕ
random_number_by_length length r =
    let low = 10 ^ (length - 1) in let high = 9 * low - 1 in low + r * high / 2 ^ 53

abbrev unit_length : UnitType → ℕ
unit_length seconds = 1000
unit_length minutes = 60000
unit_length day = 86400000

-- What dayjs promises of `add` and of `diff(_, 'seconds')`, where no day is longer or shorter.
pub record Dayjs : Type 0 where
  pub add : ℕ → Time → ℕ
  pub diff_seconds : ℕ → ℕ → ℕ
  pub add_lem : (t : ℕ) (d : Time) → add t d ≡ t + d.value * unit_length d.unit
  pub diff_seconds_lem : (t u : ℕ) → diff_seconds t u ≡ (t - u) / 1000

-- `CachingOTP`
pub record CachingOtp : Type 0 where
  pub otp : ℕ
  pub type : OtpType
  pub resend_time : ℕ

-- The readings of the clock in one call of `generateOTP`, in their order.
pub record Readings : Type 0 where
  pub checked : ℕ
  pub resent : ℕ
  pub expires_from : ℕ
  pub expires_to : ℕ
  pub stored : ℕ

module _ (dayjs : Dayjs) where
  -- `getExpires`, with its two readings of the clock.
  unfoldable pub get_expires : OtpType → ℕ → ℕ → ℕ
  get_expires type from to = dayjs.diff_seconds (dayjs.add from (otp_config type).ttl) to

-- `${cache.otp}` === `${code}` && cache.type === type
abbrev pub matches : Option CachingOtp → Option ℕ → OtpType → Bool
matches (some cache) (some code) type = cache.otp == code && number_of cache.type == number_of type
matches _ _ type = false

-- `cacheOTP && cacheOTP.resendTime >= now`
abbrev pub too_early : Option CachingOtp → ℕ → Bool
too_early none now = false
too_early (some cache) now = leb now cache.resend_time

module _ {V : Type 0} (redis : Redis V) (codes : Holds V CachingOtp) (dayjs : Dayjs) where
  -- The new code, or nothing while the last one may not be sent again; and the store.
  unfoldable pub generate_otp : Readings → ℕ → ℕ → OtpType → redis.Store → Option ℕ × redis.Store
  generate_otp clock r key type s =
      if too_early (get_as redis codes clock.checked key s) clock.checked then (none, s) else (
        some (random_number_by_length (otp_config type).passcode_length r),
        set_as redis codes clock.stored key
            (record {
              otp = random_number_by_length (otp_config type).passcode_length r;
              type = type;
              resend_time = dayjs.add clock.resent (otp_config type).resend_after;
            })
            (get_expires dayjs type clock.expires_from clock.expires_to) s,
      )

module _ {V : Type 0} (redis : Redis V) (codes : Holds V CachingOtp) where
  -- Whether the code is valid. If it is, `clear_otp` runs 100 ms later.
  unfoldable pub verify_otp : ℕ → ℕ → Option ℕ → OtpType → redis.Store → Bool
  verify_otp now key code type s = matches (get_as redis codes now key s) code type

module _ {V : Type 0} (redis : Redis V) where
  pub clear_otp : ℕ → redis.Store → redis.Store
  clear_otp key s = delete redis key s
