-- ===== src/Exchange/Submit.antt =====
-- What a transfer needs: `submit` against the tokens of `inquiry` and `verifyPasscode`.
use system_chat.Base.{
  ℕ, ◌+◌, ◌*◌, ◌<◌, ◌≡◌, ◌==◌, inl, inr, true, false, Option, Option-cases, some, none, List, ℤ,
  pos, ◌+ℤ◌, ◌-ℤ◌, ◌≤ℤ◌, eq_of_parts, ok, err, is_ok, Effect, arith, find?, find?_sound,
}
use system_chat.Caching.{Redis, get, delete, get-set_live, get-delete}
use system_chat.Exchange.Rows.{
  onus, CurrencyMaster, ExchangeCaching, ExchangeError, token_invalid, LimitSetting, ExchangeTx,
  BalanceRow, ExchangeDb, ExchangeInput, WalletPayload, Bcrypt, is_withdraw, is_active, balance_row,
  text_less,
}
use system_chat.Exchange.{
  fits, limit_setting, check_pending_transactions, check_wallet_editable, get_receiver_info,
  inquiry, exchange_verify_passcode, min_hold_of, validate_amount_available, call_vndc_off_chain,
  send_by, submit,
}

module _ (redis : Redis ExchangeCaching) (bcrypt : Bcrypt)
    (hold_balance : WalletPayload → Effect ExchangeError (ExchangeDb redis.Store) ExchangeTx) where
  -- The cached inquiry that a submission is about: its passcode was verified.
  pub record IsVerified (input : ExchangeInput) (cache : ExchangeCaching) : Type 0 where
    pub is_verified : cache.verify_passcode ≡ true
    pub same_amount : cache.amount ≡ input.amount
    pub same_currency : cache.currency.code ≡ input.currency
    pub same_receiver : cache.receiver_info ≡ input.receiver_info

  fits-IsVerified :
      (input : ExchangeInput) (cache : ExchangeCaching)
      → fits (some cache) input ≡ true
      → IsVerified input cache
  fits-IsVerified input cache h = record {
    is_verified = ground (arith, h);
    same_amount = eq_of_parts cache.amount input.amount (ground (arith, h));
    same_currency = ground (arith, h);
    same_receiver = ground (arith, h);
  }

  -- The balance that covers a transfer, where what is held is left. Its text is not before the text
  -- of the balance by the transactions.
  pub record IsCovered (text_of : ℤ → List ℕ) (amount : ℤ) (setting : Option LimitSetting)
      (row : BalanceRow) : Type 0 where
    pub agrees : text_less (text_of row.amount) (text_of row.balance) ≡ false
    pub covers : (amount +ℤ pos 0) ≤ℤ (row.amount -ℤ min_hold_of redis bcrypt hold_balance setting)

  -- A submission that succeeds is that of a cached inquiry with a verified passcode and the same
  -- amount, currency and receiver. The stored balance less what is held covers its amount, and the
  -- text of the stored balance is not before that of the balance by the transactions.
  pub submit_sound :
      (now tx_id account_id : ℕ) (input : ExchangeInput) (tx : ExchangeTx)
      (s s' : ExchangeDb redis.Store)
      → submit redis bcrypt hold_balance now tx_id account_id input s ≡ (ok tx, s')
      → (cache : ExchangeCaching) × (get redis now input.token s.cache ≡ some cache)
        × IsVerified input cache
        × ((row : BalanceRow) × (balance_row account_id cache.currency.id s ≡ some row)
            × IsCovered s.text_of input.amount
                (find? (is_withdraw cache.currency.code) s.limits)
                row)
  unfolding submit send_by call_vndc_off_chain validate_amount_available limit_setting
      get_receiver_info
  submit_sound now tx_id account_id input tx s s' h =
      elim (Option-cases (get redis now input.token s.cache)) [
        | inl missed ↦ absurd (ground (arith, h, missed))
        | inr (cache, cached) ↦ elim (Option-cases (balance_row account_id cache.currency.id s)) [
          | inl missing ↦ absurd (ground (arith, h, cached, missing))
          | inr (row, found) ↦ (
            cache,
            cached,
            fits-IsVerified input cache (ground (arith, h, cached)),
            (
              row,
              found,
              record {
                agrees = ground (arith, h, cached, found);
                covers = ground (arith, h, cached, found);
              },
            ),
          )
        ]
      ]

  -- Once a submission has succeeded and the deletion of its token has run, another submission that
  -- then reads the token, of whatever account and at whatever time, is refused. One that read the
  -- token before is not spoken of.
  pub submit_once :
      (now now' tx_id tx_id' account_id account_id' : ℕ) (input input' : ExchangeInput)
      (tx : ExchangeTx) (s s' : ExchangeDb redis.Store)
      → submit redis bcrypt hold_balance now tx_id account_id input s ≡ (ok tx, s')
      → input'.token ≡ input.token
      → input'.method ≡ onus
      → submit redis bcrypt hold_balance now' tx_id' account_id' input' s' ≡ (err token_invalid, s')
  unfolding submit send_by get_receiver_info
  submit_once now now' tx_id tx_id' account_id account_id' input input' tx s s' h same method =
      elim (Option-cases (get redis now input.token s.cache)) [
        | inl missed ↦ absurd (ground (arith, h, missed))
        | inr (cache, cached) ↦
            let held =
              (call_vndc_off_chain redis bcrypt hold_balance tx_id account_id cache.currency
                input.amount s).1 in
            let gone = get-delete redis held.cache input.token now' in
            let missed : get redis now' input'.token s'.cache ≡ none =
              rw same (ground (arith, h, cached, gone)) in
            ground (arith, missed, method)
      ]

  -- What an inquiry caches when it succeeds.
  inquiry_cached :
      (now token t account_id : ℕ) (input : ExchangeInput) (s : ExchangeDb redis.Store)
      (currency : CurrencyMaster)
      → find? (is_active input.currency) s.currencies ≡ some currency
      → is_ok (inquiry redis bcrypt hold_balance now token account_id input s).0 ≡ true
      → t < now + 3600 * 1000
      → get redis t token (inquiry redis bcrypt hold_balance now token account_id input s).1.cache
        ≡ some (record {
          method = input.method;
          verify_passcode = false;
          amount = input.amount;
          receiver_info = input.receiver_info;
          currency = record { id = currency.id; code = currency.code };
        })
  unfolding inquiry limit_setting check_pending_transactions check_wallet_editable get_receiver_info
  inquiry_cached now token t account_id input s currency found done in_time =
      let cache : ExchangeCaching = record {
        method = input.method;
        verify_passcode = false;
        amount = input.amount;
        receiver_info = input.receiver_info;
        currency = record { id = currency.id; code = currency.code };
      } in
      let cached = get-set_live redis s.cache now token 3600 t cache in_time in
      ground (arith, found, done, cached)

  verify_cached :
      (now stored token t account_id inquiry_token passcode hash : ℕ) (cache : ExchangeCaching)
      (row : ℕ × Option ℕ) (s : ExchangeDb redis.Store)
      → get redis now inquiry_token s.cache ≡ some cache
      → find? (λ (row : ℕ × Option ℕ). row.0 == account_id) s.passcodes ≡ some row
      → row.1 ≡ some hash
      → bcrypt.compare_hash passcode hash ≡ true
      → t < stored + 3600 * 1000
      → ((exchange_verify_passcode redis bcrypt hold_balance now stored token account_id
            inquiry_token passcode s).0
          ≡ ok token)
        × (get redis t token
              (exchange_verify_passcode redis bcrypt hold_balance now stored token account_id
                inquiry_token passcode s).1.cache
            ≡ some (record cache { verify_passcode = true }))
  unfolding exchange_verify_passcode
  verify_cached now stored token t account_id inquiry_token passcode hash cache row s cached found
        has fits in_time =
      let live =
        get-set_live redis (delete redis inquiry_token s.cache) stored token 3600 t
          (record cache { verify_passcode = true }) in_time in
      ground (arith, cached, found, has, fits, live)

  inquiry_passcodes :
      (now token account_id : ℕ) (input : ExchangeInput) (s : ExchangeDb redis.Store)
      → (inquiry redis bcrypt hold_balance now token account_id input s).1.passcodes ≡ s.passcodes
  unfolding inquiry limit_setting check_pending_transactions check_wallet_editable get_receiver_info
  inquiry_passcodes now token account_id input s = ground arith

  fits_itself :
      (input : ExchangeInput) (token id code : ℕ)
      → code ≡ input.currency
      → fits
          (some (record {
            method = input.method;
            verify_passcode = true;
            amount = input.amount;
            receiver_info = input.receiver_info;
            currency = record { id = id; code = code };
          }))
          (record input { token = token })
        ≡ true
  fits_itself input token id code same = ground arith

  submit_passes :
      (now tx_id account_id : ℕ) (input : ExchangeInput) (cache : ExchangeCaching)
      (s : ExchangeDb redis.Store)
      → get redis now input.token s.cache ≡ some cache
      → fits (some cache) input ≡ true
      → input.method ≡ onus
      → submit redis bcrypt hold_balance now tx_id account_id input s
        ≡ send_by redis bcrypt hold_balance tx_id account_id input cache.currency s
  unfolding submit get_receiver_info
  submit_passes now tx_id account_id input cache s cached fit method =
      ground (arith, cached, fit, method)

  -- From an inquiry to a transfer: a passcode that is verified within an hour of the inquiry makes
  -- a token with which the same data, within an hour, passes the tests of `submit` and goes on to
  -- be sent. The account of the inquiry, the one whose passcode was verified and the one that
  -- submits may be three different ones.
  pub submit-verify-inquiry :
      (now now' stored t token token' tx_id inquirer verifier submitter passcode hash : ℕ)
      (input : ExchangeInput) (currency : CurrencyMaster) (row : ℕ × Option ℕ)
      (s : ExchangeDb redis.Store)
      → find? (is_active input.currency) s.currencies ≡ some currency
      → is_ok (inquiry redis bcrypt hold_balance now token inquirer input s).0 ≡ true
      → now' < now + 3600 * 1000
      → find? (λ (row : ℕ × Option ℕ). row.0 == verifier) s.passcodes ≡ some row
      → row.1 ≡ some hash
      → bcrypt.compare_hash passcode hash ≡ true
      → t < stored + 3600 * 1000
      → input.method ≡ onus
      → submit redis bcrypt hold_balance t tx_id submitter
          (record input { token = token' })
          (exchange_verify_passcode redis bcrypt hold_balance now' stored token' verifier token
            passcode
            (inquiry redis bcrypt hold_balance now token inquirer input s).1).1
        ≡ send_by redis bcrypt hold_balance tx_id submitter
            (record input { token = token' })
            (record { id = currency.id; code = currency.code })
            (exchange_verify_passcode redis bcrypt hold_balance now' stored token' verifier token
              passcode
              (inquiry redis bcrypt hold_balance now token inquirer input s).1).1
  submit-verify-inquiry now now' stored t token token' tx_id inquirer verifier submitter passcode
        hash input currency row s found done in_time has_row has_hash knows in_time' method =
      let cache : ExchangeCaching = record {
        method = input.method;
        verify_passcode = false;
        amount = input.amount;
        receiver_info = input.receiver_info;
        currency = record { id = currency.id; code = currency.code };
      } in
      let s1 = (inquiry redis bcrypt hold_balance now token inquirer input s).1 in
      let cached = inquiry_cached now token now' inquirer input s currency found done in_time in
      let row_kept : find? (λ (row : ℕ × Option ℕ). row.0 == verifier) s1.passcodes ≡ some row =
        rw (inquiry_passcodes now token inquirer input s) has_row in
      let verified =
        verify_cached now' stored token' t verifier token passcode hash cache row s1 cached row_kept
          has_hash knows in_time' in
      let code : currency.code ≡ input.currency =
        ground (arith, find?_sound (is_active input.currency) currency s.currencies found) in
      submit_passes t tx_id submitter (record input { token = token' })
        (record cache { verify_passcode = true }) _ verified.1
        (fits_itself input token' currency.id currency.code code) method
