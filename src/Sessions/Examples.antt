-- ===== src/Sessions/Examples.antt =====
-- A gateway with tokens that show what they say, to run the sessions on.
use system_chat.Base.{
  ℕ, suc, ◌+◌, ◌*◌, ◌/◌, ◌<◌, ◌==◌, ◌≡◌, ◌↔◌, refl, Bool, true, false, not, ◌&&◌, ◌||◌, Option,
  none, some, [], ◌∷◌, arith, ltb, if◌then◌else◌,
}
use system_chat.Caching.Memory.{memory}
use system_chat.Accounts.Rows.{AuthState, Env}
use system_chat.Accounts.Examples.{
  Cached, flag_value, code_value, account_value, pre_check_value, code_of, account_of, pre_check_of,
  same_hash, alice, bob,
}
use system_chat.Accounts.Examples as Examples
use system_chat.Sessions.{Gateway, Clock, TokenPayload}

-- The moment of its signature, in seconds, and whether it is a refresh token.
pub record Issued : Type 0 where
  pub is_fresh : Bool
  pub at : ℕ
  pub payload : TokenPayload

abbrev same_bool : Bool → Bool → Bool
same_bool true b = b
same_bool false true = false
same_bool false false = true

abbrev same_option : Option ℕ → Option ℕ → Bool
same_option none none = true
same_option (some m) (some n) = m == n
same_option _ _ = false

abbrev pub same_issued : Issued → Issued → Bool
same_issued a b =
    same_bool a.is_fresh b.is_fresh
    && a.at == b.at
    && a.payload.id == b.payload.id
    && same_option a.payload.phone b.payload.phone
    && same_option a.payload.email b.payload.email

pub same_issued_iff : (a b : Issued) → (same_issued a b ≡ true) ↔ (a ≡ b)
same_issued_iff a b = ground arith

pub data Kept : Type 0 where
  auth_value : Cached → Kept
  session_value : Issued → Kept

abbrev session_of : Kept → Option Issued
session_of (session_value t) = some t
session_of _ = none

abbrev of_auth : {A : Type 0} → (Cached → Option A) → Kept → Option A
of_auth f (auth_value v) = f v
of_auth f (session_value t) = none

abbrev pub env : Env Kept
env = record {
  redis = memory Kept;
  dayjs = Examples.env.dayjs;
  flag = auth_value flag_value;
  codes = record {
    inject = λ c. auth_value (code_value c);
    project = of_auth code_of;
    project-inject = λ c. refl;
  };
  accounts = record {
    inject = λ a. auth_value (account_value a);
    project = of_auth account_of;
    project-inject = λ a. refl;
  };
  pre_checks = record {
    inject = λ p. auth_value (pre_check_value p);
    project = of_auth pre_check_of;
    project-inject = λ p. refl;
  };
  to_intl_phone = λ phone. some phone;
  is_phone_number = λ text. false;
  is_email = λ text. true;
  hash_value = λ salt text. suc text;
  compare_hash = λ text hash. suc text == hash;
  compare_hash-hash_value = λ salt text. same_hash text;
  otp_key = λ key type. 10 * key;
  find_account_key = λ key profile. 8;
  pre_check_key = λ n. 10 * n + 1;
  session_key = λ n. 10 * n + 2;
  sign_in_key = λ n. 10 * n + 3;
  sign_up_key = λ n. 10 * n + 4;
  takes_null = true;
  empty_condition = false;
}

abbrev pub verify_kind : Bool → ℕ → ℕ → Issued → Option TokenPayload
verify_kind kind expires_in now t =
    if (not kind || t.is_fresh) && ltb (now / 1000) (t.at + expires_in)
    then some t.payload
    else none

pub verify_kind_live :
    (kind fresh : Bool) (expires_in t now : ℕ) (p : TokenPayload)
    → (not kind || fresh) ≡ true
    → t / 1000 < now / 1000 + expires_in
    → verify_kind kind expires_in t (record { is_fresh = fresh; at = now / 1000; payload = p })
      ≡ some p
verify_kind_live kind fresh expires_in t now p is_kind h = ground (arith, is_kind, h)

abbrev pub gateway : Gateway env
gateway = record {
  Token = Issued;
  same_token = same_issued;
  same_token_iff = same_issued_iff;
  tokens = record { inject = session_value; project = session_of; project-inject = λ t. refl };
  refresh_key = λ n. 10 * n + 5;
  token_key = λ n. 10 * n + 6;
  access_expires_in = 86400;
  refresh_expires_in = 31104000;
  sign = λ now p. record { is_fresh = false; at = now / 1000; payload = p };
  sign_refresh = λ now p. record { is_fresh = true; at = now / 1000; payload = p };
  verify = verify_kind false 86400;
  verify_refresh = verify_kind true 31104000;
  decode = λ token. none;
  session-ne-refresh = λ i j h. omega (arith, h);
  verify-sign = λ t now p. verify_kind_live false false 86400 t now p refl;
  verify-sign_refresh = λ t now p. verify_kind_live true true 31104000 t now p refl;
}

abbrev pub start : AuthState env.redis.Store
start = record { rows = alice ∷ bob ∷ []; cache = []; outbox = [] }

abbrev pub at : ℕ → Clock
at t = record { checked = t; looked_up = t; saved = t; signed = t; stored = t }
