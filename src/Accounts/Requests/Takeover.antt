-- ===== src/Accounts/Requests/Takeover.antt =====
-- Who can set the passcode of an account: resetPasscode and the tokens it takes.
use system_chat.Base.{
  ℕ, ◌+◌, ◌*◌, ◌<◌, ◌≡◌, refl, sym, ap, ◌==◌, true, false, not, Option, some, none, ok, err,
  raise_if, ◌||◌, ◌>>=◌, ◌>>◌, ◌&&◌, Yields, Yields-bind, arith, find?, update_where,
  find?-update_where,
}
use system_chat.Caching.{get, delete, get-set_live, get-delete}
use system_chat.Otp.{OtpType, sign_up, number_of, get_expires}
use system_chat.Accounts.Rows.{
  Account, AuthState, email_exist, count_accounts, with_email, token_invalid, Env, is_some,
  with_phone, taken,
}
use system_chat.Accounts.Requests.{
  OtpRequest, ResetPasscodeRequest, Moments, token_reply, process_otp, after_code, new_token,
  request_code, otp_target, reset_row, reset_with_token, OtpReply, reset_passcode,
}

module _ {V : Type 0} (env : Env V) where
  -- The moment until which the token of a request for a code is cached.
  abbrev pub token_over : Moments → OtpType → ℕ
  token_over m type = m.stored + get_expires env.dayjs type m.expires_from m.expires_to * 1000

  abbrev HasToken : Moments → OtpType → OtpReply → AuthState env.redis.Store → Type 0
  HasToken m type reply s =
      (token t : ℕ)
      → reply ≡ token_reply token
      → t < token_over m type
      → get env.redis t token s.cache ≡ some env.flag

  after_code-HasToken :
      (m : Moments) (input : OtpRequest) (code : Option ℕ)
      → Yields (HasToken m input.type) (after_code env m input code)
  unfolding after_code new_token
  after_code-HasToken m input code s s' reply h token t e before =
      let cached =
        get-set_live env.redis s.cache m.stored m.random_token
          (get_expires env.dayjs input.type m.expires_from m.expires_to) t env.flag before in
      ground (arith, h, e, cached)

  -- A token that processOTP returns is cached, whoever asked for it.
  process_otp-HasToken :
      (m : Moments) (r : ℕ) (input : OtpRequest)
      → Yields (HasToken m input.type) (process_otp env m r input)
  unfolding process_otp
  process_otp-HasToken m r input =
      let Q = HasToken m input.type in
      let count = count_accounts (with_email input.email) in
      let check = λ (n : ℕ).
        raise_if (number_of input.type == number_of sign_up && not (n == 0)) email_exist in
      let coded = λ (key : ℕ). request_code env m.codes r key input.type in
      let rest = λ (key : ℕ). coded key >>= after_code env m input in
      let by_code = λ (key : ℕ).
        Yields-bind Q (coded key) (after_code env m input) (after_code-HasToken m input) in
      Yields-bind Q count (λ n. check n >> otp_target env input >>= rest)
        (λ n. Yields-bind Q (check n >> otp_target env input) rest by_code)

  -- A request for a code changes no account.
  pub process_otp_rows :
      (m : Moments) (r : ℕ) (input : OtpRequest) (s : AuthState env.redis.Store)
      → (process_otp env m r input s).1.rows ≡ s.rows
  unfolding process_otp after_code new_token request_code
  process_otp_rows m r input s = ground arith

  -- Nothing stands in the way of the update of the passcode.
  pub record IsResettable (key : ℕ) (a : Account) (s : AuthState env.redis.Store) : Type 0 where
    pub found_row : find? (with_phone key) s.rows ≡ some a
    pub is_written : (is_some a.histories || env.takes_null) ≡ true
    pub is_own : taken a s.rows ≡ false

  pub reset_passcode_done :
      (now salt phone key : ℕ) (input : ResetPasscodeRequest) (v : V) (a : Account)
      (s : AuthState env.redis.Store)
      → input.phone ≡ some phone
      → env.to_intl_phone phone ≡ some key
      → get env.redis now input.token s.cache ≡ some v
      → IsResettable key a s
      → reset_passcode env now salt input s ≡ (
        ok (reset_row env now salt input.passcode a),
        record s {
          cache = delete env.redis input.token s.cache;
          rows = update_where (with_phone key) (reset_row env now salt input.passcode) s.rows;
        },
      )
  unfolding reset_passcode reset_with_token
  reset_passcode_done now salt phone key input v a s p e c ready =
      ground (arith, ready.found_row, ready.is_written, ready.is_own)

  -- A token that is not cached resets nothing.
  pub reset_passcode_refused :
      (now salt phone key : ℕ) (input : ResetPasscodeRequest) (s : AuthState env.redis.Store)
      → input.phone ≡ some phone
      → env.to_intl_phone phone ≡ some key
      → get env.redis now input.token s.cache ≡ none
      → reset_passcode env now salt input s ≡ (err token_invalid, s)
  unfolding reset_passcode
  reset_passcode_refused now salt phone key input s p e c = ground arith

  -- The token that processOTP returns, to whoever asks for a code for whatever address, resets
  -- the passcode of the account of any phone number: no code has to be verified. The row's
  -- passcode is then the hash of the one that was sent.
  pub reset_passcode-process_otp :
      (m : Moments) (r now salt phone key token : ℕ) (request : OtpRequest)
      (input : ResetPasscodeRequest) (a : Account) (s s' : AuthState env.redis.Store)
      → process_otp env m r request s ≡ (ok (token_reply token), s')
      → input.token ≡ token
      → now < token_over m request.type
      → input.phone ≡ some phone
      → env.to_intl_phone phone ≡ some key
      → IsResettable key a s
      → ((reset_passcode env now salt input s').0 ≡ ok (reset_row env now salt input.passcode a))
        × (find? (with_phone key) (reset_passcode env now salt input s').1.rows
            ≡ some (reset_row env now salt input.passcode a))
  reset_passcode-process_otp m r now salt phone key token request input a s s' h t before p e
        ready =
      let cached : get env.redis now input.token s'.cache ≡ some env.flag =
        rw t (process_otp-HasToken m r request s s' (token_reply token) h token now refl before) in
      let rows : s'.rows ≡ s.rows = rw (sym (ap (λ x. x.1) h)) (process_otp_rows m r request s) in
      let ready' : IsResettable key a s' = record {
        found_row = rw rows ready.found_row;
        is_written = ready.is_written;
        is_own = rw rows ready.is_own;
      } in
      let done = reset_passcode_done now salt phone key input env.flag a s' p e cached ready' in
      let update = reset_row env now salt input.passcode in
      (
        ap (λ x. x.0) done,
        rw done (
            find?-update_where (with_phone key) update a s'.rows (λ x x_has. x_has)
              ready'.found_row),
      )

  -- A token is good for one reset: the next one with it is refused, whatever it asks for.
  pub reset_passcode_once :
      (now now' salt salt' phone phone' key key' : ℕ) (input input' : ResetPasscodeRequest) (v : V)
      (a : Account) (s : AuthState env.redis.Store)
      → input.phone ≡ some phone
      → env.to_intl_phone phone ≡ some key
      → get env.redis now input.token s.cache ≡ some v
      → IsResettable key a s
      → input'.phone ≡ some phone'
      → env.to_intl_phone phone' ≡ some key'
      → input'.token ≡ input.token
      → (reset_passcode env now' salt' input' (reset_passcode env now salt input s).1).0
        ≡ err token_invalid
  reset_passcode_once now now' salt salt' phone phone' key key' input input' v a s p e c ready p' e'
        t =
      let done = reset_passcode_done now salt phone key input v a s p e c ready in
      rw done (
        ap (λ x. x.0)
          (reset_passcode_refused now' salt' phone' key' input' _ p' e'
            (rw t (get-delete env.redis s.cache input.token now'))))
