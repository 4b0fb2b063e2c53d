-- ===== src/Accounts/Examples.antt =====
-- An environment, two accounts and readings of a clock, to run the authenticator on.
use system_chat.Base.{
  ℕ, suc, ◌+◌, ◌*◌, ◌≡◌, ◌==◌, refl, true, false, Option, none, some, [], ◌∷◌, arith,
}
use system_chat.Caching.Memory.{memory}
use system_chat.Otp.{number_of, CachingOtp, Readings}
use system_chat.Otp.Clock.{plain_calendar}
use system_chat.Otp.Codes.{IsOrdered}
use system_chat.Accounts.Rows.{Account, AuthState, PreCheck, Env}
use system_chat.Accounts.Requests.{Moments}

pub data Cached : Type 0 where
  flag_value : Cached
  code_value : CachingOtp → Cached
  account_value : Account → Cached
  pre_check_value : PreCheck → Cached

abbrev pub code_of : Cached → Option CachingOtp
code_of (code_value c) = some c
code_of _ = none

abbrev pub account_of : Cached → Option Account
account_of (account_value a) = some a
account_of _ = none

abbrev pub pre_check_of : Cached → Option PreCheck
pre_check_of (pre_check_value p) = some p
pre_check_of _ = none

pub same_hash : (text : ℕ) → (suc text == suc text) ≡ true
same_hash text = ground arith

-- Hashes are the passcodes and one; the keys are far from each other.
abbrev pub env : Env Cached
env = record {
  redis = memory Cached;
  dayjs = plain_calendar;
  flag = flag_value;
  codes = record { inject = code_value; project = code_of; project-inject = λ c. refl };
  accounts = record { inject = account_value; project = account_of; project-inject = λ a. refl };
  pre_checks = record {
    inject = pre_check_value;
    project = pre_check_of;
    project-inject = λ p. refl;
  };
  to_intl_phone = λ phone. some phone;
  is_phone_number = λ text. false;
  is_email = λ text. true;
  hash_value = λ salt text. suc text;
  compare_hash = λ text hash. suc text == hash;
  compare_hash-hash_value = λ salt text. same_hash text;
  otp_key = λ key type. 1000 * number_of type + key;
  find_account_key = λ key profile. 100000;
  pre_check_key = λ n. 20000 + n;
  session_key = λ n. 30000 + n;
  sign_in_key = λ n. 40000 + n;
  sign_up_key = λ n. 50000 + n;
  takes_null = true;
  empty_condition = false;
}

abbrev pub alice : Account
alice = record {
  id = 1;
  full_name = none;
  avatar = none;
  email = some 11;
  passcode = some 5;
  email_verified = some true;
  phone = some 21;
  phone_verified = some true;
  status = 1;
  referral_code = none;
  google_id = none;
  facebook_id = none;
  apple_id = none;
  histories = some [];
}

abbrev pub bob : Account
bob = record alice { id = 2; email = some 12; phone = some 22; histories = none }

abbrev pub state : AuthState env.redis.Store
state = record { rows = alice ∷ bob ∷ []; cache = []; outbox = [] }

abbrev pub at_1000 : Readings
at_1000 = record {
  checked = 1000;
  resent = 1000;
  expires_from = 1000;
  expires_to = 1000;
  stored = 1001;
}

pub at_1000-IsOrdered : IsOrdered at_1000
at_1000-IsOrdered = record {
  checked_first = omega arith;
  then_expires = omega arith;
  from_to = omega arith;
  stored_last = omega arith;
}

abbrev pub moments : Moments
moments = record {
  codes = at_1000;
  read_at = 3000;
  expires_from = 1002;
  expires_to = 1002;
  stored = 1002;
  random_token = 77;
}
