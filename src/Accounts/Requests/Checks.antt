-- ===== src/Accounts/Requests/Checks.antt =====
-- What processOTP and checkOTP answer.
use system_chat.Base.{
  ℕ, ◌+◌, ◌*◌, ◌<◌, ◌≤◌, ◌≡◌, ◌≢◌, ◌↔◌, ◌==◌, ◌&&◌, refl, ◌∙◌, Bool, true, false, not, Option, some,
  none, List, ◌∷◌, ok, err, is_ok, arith, count_where,
}
use system_chat.Caching.{get, set, get-set_live, get_as-set_other}
use system_chat.Otp.{OtpType, sign_up, number_of, otp_config, get_expires, generate_otp, verify_otp}
use system_chat.Otp.Codes.{
  IsOrdered, over, new_code, get_as-generate_otp_early, generate_otp_early, verify_otp-generate_otp,
  verify_otp_cong,
}
use system_chat.Accounts.Rows.{Account, AuthState, AuthError, email_exist, Env, is_some, with_email}
use system_chat.Accounts.Requests.{
  OtpRequest, VerifyOtpRequest, Moments, too_many_requests, token_reply, process_otp, after_code,
  new_token, request_code, otp_target, check_otp,
}

module _ {V : Type 0} (env : Env V) where
  -- A sign-up by phone number, without an email, is refused as soon as there is any account: the
  -- count of the accounts with an undefined email is the count of all.
  pub process_otp_sign_up_by_phone :
      (m : Moments) (r : ℕ) (input : OtpRequest) (a : Account) (rest : List Account)
      (s : AuthState env.redis.Store)
      → input.type ≡ sign_up
      → input.email ≡ none
      → s.rows ≡ a ∷ rest
      → process_otp env m r input s ≡ (err email_exist, s)
  unfolding process_otp
  process_otp_sign_up_by_phone m r input a rest s t e rows = ground arith

  -- checkOTP succeeds exactly for a cached token and a code that is valid for the address.
  pub check_otp_iff :
      (m : Moments) (now key : ℕ) (input : VerifyOtpRequest) (s : AuthState env.redis.Store)
      → otp_target env input.request s ≡ (ok key, s)
      → (is_ok (check_otp env m now input s).0 ≡ true) ↔ (
          (is_some (get env.redis now input.token s.cache) ≡ true)
          × (verify_otp env.redis env.codes m.read_at
                (env.otp_key key input.request.type)
                input.otp
                input.request.type
                s.cache
              ≡ true))
  unfolding check_otp new_token
  check_otp_iff m now key input s target = ground (arith, target)

  -- When it fails, it changes nothing, and a wrong code leaves its token cached.
  pub check_otp_failed :
      (m : Moments) (now : ℕ) (input : VerifyOtpRequest) (e : AuthError)
      (s : AuthState env.redis.Store)
      → (check_otp env m now input s).0 ≡ err e
      → (check_otp env m now input s).1 ≡ s
  unfolding check_otp new_token
  check_otp_failed m now input e s h = ground (arith, h)

  -- The state after a code was made for an email.
  abbrev pub mailed :
      Moments
      → ℕ
      → OtpType
      → ℕ
      → env.redis.Store
      → AuthState env.redis.Store
      → AuthState env.redis.Store
  mailed m email type code c s = record s {
    cache =
        set env.redis m.stored m.random_token (some env.flag)
          (get_expires env.dayjs type m.expires_from m.expires_to) c;
    outbox = record { to = email; otp = some code } ∷ s.outbox;
  }

  abbrev is_refused : OtpRequest → AuthState env.redis.Store → Bool
  is_refused input s =
      number_of input.type == number_of sign_up
      && not (count_where (with_email input.email) s.rows == 0)

  process_otp-mailed :
      (m : Moments) (r email code : ℕ) (input : OtpRequest) (c : env.redis.Store)
      (s : AuthState env.redis.Store)
      → input.email ≡ some email
      → is_refused input s ≡ false
      → generate_otp env.redis env.codes env.dayjs m.codes r
          (env.otp_key email input.type)
          input.type
          s.cache
        ≡ (some code, c)
      → process_otp env m r input s
        ≡ (ok (token_reply m.random_token), mailed m email input.type code c s)
  unfolding process_otp after_code new_token request_code
  process_otp-mailed m r email code input c s e pass made = ground (arith, made)

  -- A request for a code by email that makes one mails it, to this address. With the token of its
  -- answer, in time, checkOTP then accepts for the address the code that was mailed, and no other one.
  pub check_otp-process_otp :
      (m m' : Moments) (r now email code : ℕ) (input : OtpRequest) (given : Option ℕ)
      (c : env.redis.Store) (s : AuthState env.redis.Store)
      → input.email ≡ some email
      → is_refused input s ≡ false
      → generate_otp env.redis env.codes env.dayjs m.codes r
          (env.otp_key email input.type)
          input.type
          s.cache
        ≡ (some code, c)
      → env.otp_key email input.type ≢ m.random_token
      → now < m.stored + get_expires env.dayjs input.type m.expires_from m.expires_to * 1000
      → m'.read_at < over env.redis env.codes env.dayjs m.codes input.type
      → let sent = (process_otp env m r input s).1 in
        (sent.outbox ≡ record { to = email; otp = some code } ∷ s.outbox)
        × ((is_ok
                (check_otp env m' now
                  (record { request = input; otp = given; token = m.random_token })
                  sent).0
              ≡ true)
            ↔ (given ≡ some code))
  check_otp-process_otp m m' r now email code input given c s e pass made apart in_time code_time =
      let sent = process_otp-mailed m r email code input c s e pass made in
      let s' = mailed m email input.type code c s in
      let asked : VerifyOtpRequest = record {
        request = input;
        otp = given;
        token = m.random_token;
      } in
      let expires = get_expires env.dayjs input.type m.expires_from m.expires_to in
      let key = env.otp_key email input.type in
      let target : otp_target env input s' ≡ (ok email, s') = rw e refl in
      let cached : is_some (get env.redis now m.random_token s'.cache) ≡ true =
        rw (get-set_live env.redis c m.stored m.random_token expires now env.flag in_time) refl in
      let untouched =
        get_as-set_other env.redis env.codes c m.stored m.random_token expires m'.read_at key
          env.flag apart in
      let same_code =
        verify_otp_cong env.redis env.codes m'.read_at key given input.type s'.cache c untouched in
      let by_code =
        verify_otp-generate_otp env.redis env.codes env.dayjs m.codes r key code m'.read_at
          input.type input.type given s.cache c made in
      let by_check = check_otp_iff m' now email asked s' target in
      rw sent (refl, grind (arith, cached, same_code, by_code, by_check, code_time))

  process_otp_early :
      (m : Moments) (r email : ℕ) (input : OtpRequest) (s : AuthState env.redis.Store)
      → input.email ≡ some email
      → is_refused input s ≡ false
      → generate_otp env.redis env.codes env.dayjs m.codes r
          (env.otp_key email input.type)
          input.type
          s.cache
        ≡ (none, s.cache)
      → process_otp env m r input s ≡ (ok too_many_requests, s)
  unfolding process_otp after_code request_code
  process_otp_early m r email input s e pass made = ground (arith, made)

  -- Until the time to send again, another request for the address, of the same type, gets no token
  -- and no mail, and changes nothing.
  pub process_otp_again :
      (m m' : Moments) (r r' email code : ℕ) (input : OtpRequest) (c : env.redis.Store)
      (s : AuthState env.redis.Store)
      → input.email ≡ some email
      → is_refused input s ≡ false
      → IsOrdered m.codes
      → generate_otp env.redis env.codes env.dayjs m.codes r
          (env.otp_key email input.type)
          input.type
          s.cache
        ≡ (some code, c)
      → env.otp_key email input.type ≢ m.random_token
      → m'.codes.checked ≤ env.dayjs.add m.codes.resent (otp_config input.type).resend_after
      → process_otp env m' r' input (process_otp env m r input s).1
        ≡ (ok too_many_requests, mailed m email input.type code c s)
  process_otp_again m m' r r' email code input c s e pass o made apart early =
      let s' = mailed m email input.type code c s in
      let key = env.otp_key email input.type in
      let cached =
        get_as-generate_otp_early env.redis env.codes env.dayjs m.codes r key code m'.codes.checked
          input.type s.cache c o made early in
      let untouched =
        get_as-set_other env.redis env.codes c m.stored m.random_token
          (get_expires env.dayjs input.type m.expires_from m.expires_to) m'.codes.checked key
          env.flag apart in
      let none_made =
        generate_otp_early env.redis env.codes env.dayjs m'.codes r' key input.type
          (new_code env.redis env.codes env.dayjs m.codes r input.type) s'.cache
          (untouched ∙ cached) early in
      rw (process_otp-mailed m r email code input c s e pass made)
        (process_otp_early m' r' email input s' e pass none_made)
