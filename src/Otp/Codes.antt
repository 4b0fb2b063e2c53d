-- ===== src/Otp/Codes.antt =====
-- The one-time codes of libs/otp/src/otp.service.ts: their digits, how long they are valid, and
-- when a new one is sent.
use native.Mathlib.Nat.{pow-suc}
use system_chat.Base.{
  ==_iff, ℕ, zero, suc, ◌+◌, ◌-◌, ◌*◌, ◌/◌, ◌^◌, ◌≤◌, ◌<◌, ◌≡◌, ◌==◌, ◌↔◌, refl, sym, subst, leb,
  ltb, ltb→lt, lt→ltb, Bool-cases, true, false, inl, inr, Option, some, none, arith, if◌then◌else◌,
}
use system_chat.Caching.{Redis, Holds, get_as, set_as, get_as-set_as, get_as-delete}
use system_chat.Otp.{
  OtpType, sign_up, cashback, number_of, otp_config, random_number_by_length, Dayjs, CachingOtp,
  Readings, get_expires, matches, generate_otp, verify_otp, clear_otp,
}

scaled_bounds : (low r : ℕ) → 0 < low → r < 2 ^ 53 → r * (9 * low - 1) / 2 ^ 53 ≤ 9 * low - 1
scaled_bounds low r pos h =
    let high = 9 * low - 1 in let product : r * high ≤ 2 ^ 53 * high = grind arith in omega arith

pow_pos : (n : ℕ) → 0 < 10 ^ n
pow_pos zero = omega arith
pow_pos (suc n) = rw (pow-suc 10 n) (omega (arith, pow_pos n))

-- A code of a given length has that many digits, the first of them not zero.
pub random_number_by_length_bounds :
    (n r : ℕ)
    → r < 2 ^ 53
    → (10 ^ n ≤ random_number_by_length (suc n) r)
      × (random_number_by_length (suc n) r < 10 ^ suc n)
unfolding random_number_by_length
random_number_by_length_bounds n r h =
    let before : suc n - 1 ≡ n = omega arith in
    let power : 10 ^ suc n ≡ 10 ^ n * 10 = pow-suc 10 n in
    rw before (omega (arith, power, pow_pos n, scaled_bounds (10 ^ n) r (pow_pos n) h))

-- The readings of one clock, in their order.
pub record IsOrdered (clock : Readings) : Type 0 where
  pub checked_first : clock.checked ≤ clock.resent
  pub then_expires : clock.resent ≤ clock.expires_from
  pub from_to : clock.expires_from ≤ clock.expires_to
  pub stored_last : clock.expires_to ≤ clock.stored

resend_before_expires :
    (dayjs : Dayjs) (clock : Readings) (type : OtpType)
    → IsOrdered clock
    → dayjs.add clock.resent (otp_config type).resend_after
      < clock.stored + get_expires dayjs type clock.expires_from clock.expires_to * 1000
unfolding get_expires
resend_before_expires dayjs clock sign_up o = omega (arith, dayjs.add_lem, dayjs.diff_seconds_lem)
resend_before_expires dayjs clock cashback o = omega (arith, dayjs.add_lem, dayjs.diff_seconds_lem)
resend_before_expires dayjs clock _ o = omega (arith, dayjs.add_lem, dayjs.diff_seconds_lem)

number_of-injective : (a b : OtpType) → number_of a ≡ number_of b → a ≡ b
number_of-injective a b h = ground arith

matches_iff :
    (cache : CachingOtp) (code : Option ℕ) (type : OtpType)
    → (matches (some cache) code type ≡ true) ↔ ((code ≡ some cache.otp) × (type ≡ cache.type))
matches_iff cache none type = ground arith
matches_iff cache (some n) type = grind (arith, number_of-injective cache.type type, ==_iff)

module _ {V : Type 0} (redis : Redis V) (codes : Holds V CachingOtp) (dayjs : Dayjs) where
  abbrev pub new_code : Readings → ℕ → OtpType → CachingOtp
  new_code clock r type = record {
    otp = random_number_by_length (otp_config type).passcode_length r;
    type = type;
    resend_time = dayjs.add clock.resent (otp_config type).resend_after;
  }

  -- The moment at which a code of this type, sent at these readings, is over.
  abbrev pub over : Readings → OtpType → ℕ
  over clock type = clock.stored + get_expires dayjs type clock.expires_from clock.expires_to * 1000

  generate_otp_sent :
      (clock : Readings) (r key code : ℕ) (type : OtpType) (s s' : redis.Store)
      → generate_otp redis codes dayjs clock r key type s ≡ (some code, s')
      → (code ≡ (new_code clock r type).otp)
        × (s'
            ≡ set_as redis codes clock.stored key
                (new_code clock r type)
                (get_expires dayjs type clock.expires_from clock.expires_to)
                s)
  unfolding generate_otp
  generate_otp_sent clock r key code type s s' h = ground (arith, h)

  -- What the store holds after a code was sent.
  pub get_as-generate_otp :
      (clock : Readings) (r key code t : ℕ) (type : OtpType) (s s' : redis.Store)
      → generate_otp redis codes dayjs clock r key type s ≡ (some code, s')
      → (code ≡ (new_code clock r type).otp)
        × (get_as redis codes t key s'
            ≡ (if ltb t (over clock type) then some (new_code clock r type) else none))
  get_as-generate_otp clock r key code t type s s' h =
      let (same, stored) = generate_otp_sent clock r key code type s s' h in
      (
        same,
        subst
            (λ x.
              get_as redis codes t key x
              ≡ (if ltb t (over clock type) then some (new_code clock r type) else none))
            (sym stored)
            (get_as-set_as redis codes s clock.stored key
              (get_expires dayjs type clock.expires_from clock.expires_to) t
              (new_code clock r type)),
      )

  -- The code that was sent is valid for its key and its type until its time is over. No other
  -- code is, nor the same code for another type, and nothing is valid afterwards.
  pub verify_otp-generate_otp :
      (clock : Readings) (r key code t : ℕ) (type given_type : OtpType) (given : Option ℕ)
      (s s' : redis.Store)
      → generate_otp redis codes dayjs clock r key type s ≡ (some code, s')
      → (verify_otp redis codes t key given given_type s' ≡ true)
        ↔ ((t < over clock type) × (given ≡ some code) × (given_type ≡ type))
  unfolding verify_otp
  verify_otp-generate_otp clock r key code t type given_type given s s' h =
      let (same, cached) = get_as-generate_otp clock r key code t type s s' h in
      let by_match = matches_iff (new_code clock r type) given given_type in
      rw cached (
        rw same (elim (Bool-cases (ltb t (over clock type))) [
          | inl e ↦ rw e (grind (arith, by_match, ltb→lt t (over clock type) e))
          | inr e ↦ rw e (ground (arith, e))
        ]))

  -- The cached code while no other one is sent.
  pub get_as-generate_otp_early :
      (clock : Readings) (r key code t : ℕ) (type : OtpType) (s s' : redis.Store)
      → IsOrdered clock
      → generate_otp redis codes dayjs clock r key type s ≡ (some code, s')
      → t ≤ dayjs.add clock.resent (otp_config type).resend_after
      → get_as redis codes t key s' ≡ some (new_code clock r type)
  get_as-generate_otp_early clock r key code t type s s' o h early =
      let (same, cached) = get_as-generate_otp clock r key code t type s s' h in
      let before : ltb t (over clock type) ≡ true =
        lt→ltb t (over clock type) (omega (arith, resend_before_expires dayjs clock type o)) in
      rw cached (rw before refl)

  pub generate_otp_early :
      (again : Readings) (r key : ℕ) (type : OtpType) (cache : CachingOtp) (s : redis.Store)
      → get_as redis codes again.checked key s ≡ some cache
      → again.checked ≤ cache.resend_time
      → generate_otp redis codes dayjs again r key type s ≡ (none, s)
  unfolding generate_otp
  generate_otp_early again r key type cache s cached early =
      let test : leb again.checked cache.resend_time ≡ true = ground arith in
      rw cached (rw test refl)

  -- Once a code is sent, no request for its key sends another one, of whatever type, or changes
  -- the store, until the time to send again.
  pub generate_otp_throttled :
      (clock again : Readings) (r r' key code : ℕ) (type type' : OtpType) (s s' : redis.Store)
      → IsOrdered clock
      → generate_otp redis codes dayjs clock r key type s ≡ (some code, s')
      → again.checked ≤ dayjs.add clock.resent (otp_config type).resend_after
      → generate_otp redis codes dayjs again r' key type' s' ≡ (none, s')
  generate_otp_throttled clock again r r' key code type type' s s' o h early =
      generate_otp_early again r' key type' (new_code clock r type) s'
        (get_as-generate_otp_early clock r key code again.checked type s s' o h early) early

module _ {V : Type 0} (redis : Redis V) (codes : Holds V CachingOtp) where
  -- After `clear_otp` nothing is valid for the key, and what is valid for other keys stays so.
  pub verify_otp-clear_otp :
      (t key other : ℕ) (code : Option ℕ) (type : OtpType) (s : redis.Store)
      → verify_otp redis codes t other code type (clear_otp redis key s)
        ≡ (if other == key then false else verify_otp redis codes t other code type s)
  unfolding verify_otp clear_otp
  verify_otp-clear_otp t key other code type s =
      rw (get_as-delete redis codes s key t other)
        (elim (Bool-cases (other == key)) [ inl e ↦ rw e refl | inr e ↦ rw e refl ])

  -- Only the value under the key counts.
  pub verify_otp_cong :
      (t key : ℕ) (code : Option ℕ) (type : OtpType) (s s' : redis.Store)
      → get_as redis codes t key s ≡ get_as redis codes t key s'
      → verify_otp redis codes t key code type s ≡ verify_otp redis codes t key code type s'
  unfolding verify_otp
  verify_otp_cong t key code type s s' h = rw h refl
