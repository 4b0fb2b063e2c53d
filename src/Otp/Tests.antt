-- ===== src/Otp/Tests.antt =====
-- The theorems on one-time codes at concrete inputs.
use system_chat.Base.{ℕ, ◌+◌, ◌*◌, ◌<◌, ◌≡◌, ◌↔◌, refl, true, Option, some, []}
use system_chat.Caching.{Redis, Holds, get_as, set_as, only, get, set}
use system_chat.Caching.Memory.{memory}
use system_chat.Otp.{
  payment, random_number_by_length, CachingOtp, Readings, get_expires, generate_otp, verify_otp,
}
use system_chat.Otp.Clock.{plain_calendar}
use system_chat.Otp.Codes.{verify_otp-generate_otp}

abbrev redis : Redis CachingOtp
redis = memory CachingOtp

abbrev codes : Holds CachingOtp CachingOtp
codes = only CachingOtp

abbrev at_1000 : Readings
at_1000 = record {
  checked = 1000;
  resent = 1000;
  expires_from = 1000;
  expires_to = 1000;
  stored = 1001;
}

-- The store after a code for payments was sent to the key 7.
abbrev sent : redis.Store
sent = (generate_otp redis codes plain_calendar at_1000 0 7 payment []).1

sent_code : generate_otp redis codes plain_calendar at_1000 0 7 payment [] ≡ (some 100000, sent)
unfolding generate_otp get_as set_as get set random_number_by_length get_expires
sent_code = refl

abbrev right_code : Option ℕ
right_code = some 100000

verify_otp-generate_otp_example :
    (verify_otp redis codes 600000 7 right_code payment sent ≡ true) ↔ (
      (600000 < 1001 + get_expires plain_calendar payment 1000 1000 * 1000)
      × (right_code ≡ right_code)
      × (payment ≡ payment))
verify_otp-generate_otp_example =
    verify_otp-generate_otp redis codes plain_calendar at_1000 0 7 100000 600000 payment payment
      right_code [] sent sent_code
