-- ===== src/Exchange.antt =====
-- apps/cashback/src/cashback-exchange-v3.service.ts: `CashbackExchangeV3Service`, the exchange of a
-- balance for a transfer by ONUS, and the query sql/find-account-balance.sql.
pub mod Rows
pub mod Submit
mod Tests
use system_chat.Base.{
  ℕ, ◌==◌, Bool, true, false, not, ◌&&◌, ◌||◌, Option, some, none, List, [], ◌∷◌, ℤ, pos, ◌+ℤ◌,
  ◌-ℤ◌, ltb_ℤ, eqb_ℤ, Effect, pure, raise, ◌>>=◌, ◌>>◌, gets, modify, raise_if, or_raise, find?,
  count_where, if◌then◌else◌,
}
use system_chat.Caching.{Redis, get, set, delete}
use system_chat.Exchange.Rows.{
  ExchangeMethod, onus, other_method, CurrencyRef, ExchangeCaching, ExchangeError,
  amount_invalid_min, amount_invalid_max, currency_not_supported, account_invalid,
  method_not_supported, has_transaction_pending, token_invalid, passcode_invalid, amount_invalid,
  type_error, illegal_arguments, CurrencyMaster, LimitSetting, AccountCurrency, ExchangeTx,
  BalanceRow, ExchangeDb, ExchangeInput, Receiver, WalletPayload, Bcrypt, is_withdraw, is_active,
  is_pending, balance_row, text_less, subtract, vndc, bbc,
}

-- `${account.name}`: the answer of getAccountVNDC is a constant, whatever it is asked.
abbrev pub vndc_account : Receiver
vndc_account = record { name = 1; kyc = true; keywords = 2 }

-- The tests of `submit` on what is cached.
abbrev pub fits : Option ExchangeCaching → ExchangeInput → Bool
fits none input = false
fits (some cache) input =
    cache.verify_passcode
    && eqb_ℤ cache.amount input.amount
    && cache.currency.code == input.currency
    && cache.receiver_info == input.receiver_info

module _ (redis : Redis ExchangeCaching) (bcrypt : Bcrypt)
    (hold_balance : WalletPayload → Effect ExchangeError (ExchangeDb redis.Store) ExchangeTx) where
  abbrev pub Request : Type 0 → Type 0
  Request A = Effect ExchangeError (ExchangeDb redis.Store) A

  -- `getWithdrawLimitSettingByCurrency`
  pub limit_setting : ℕ → Request (Option LimitSetting)
  limit_setting code = gets (λ s. find? (is_withdraw code) s.limits)

  pub check_pending_transactions : ℕ → ℕ → Request (Unit {0})
  check_pending_transactions account_id currency_id =
      gets (λ s. count_where (is_pending account_id currency_id) s.cb_trans) >>= λ pending.
      raise_if (not (pending == 0)) has_transaction_pending

  -- The wallet address that is kept must be the one that was given.
  abbrev pub is_refused_address : Option AccountCurrency → ℕ → Bool
  is_refused_address none receiver_info = false
  is_refused_address (some row) receiver_info =
      not row.exchange_wallet_editable && not (row.wallet_address == receiver_info)

  pub check_wallet_editable : ℕ → ℕ → ℕ → Request (Unit {0})
  check_wallet_editable account_id currency_id receiver_info =
      gets (λ s.
        find? (λ row. row.account_id == account_id && row.currency_id == currency_id)
          s.account_currencies)
      >>= λ row. raise_if (is_refused_address row receiver_info) account_invalid

  pub get_receiver_info : ExchangeMethod → ℕ → Request Receiver
  get_receiver_info onus receiver_info = pure vndc_account
  get_receiver_info other_method receiver_info = raise method_not_supported

  -- `inquiry`, with the token that bcrypt makes
  pub inquiry : ℕ → ℕ → ℕ → ExchangeInput → Request (Receiver × ℕ)
  inquiry now token account_id input = limit_setting input.currency >>= λ found.
      or_raise found type_error >>= λ config.
      raise_if (ltb_ℤ input.amount config.min) amount_invalid_min
      >> raise_if (ltb_ℤ config.max input.amount) amount_invalid_max
      >> gets (λ s. find? (is_active input.currency) s.currencies)
      >>= λ row. or_raise row currency_not_supported >>= λ currency.
          check_wallet_editable account_id currency.id input.receiver_info
          >> get_receiver_info input.method input.receiver_info
          >>= λ receiver.
              check_pending_transactions account_id currency.id
              >> (let cache : ExchangeCaching = record {
                method = input.method;
                verify_passcode = false;
                amount = input.amount;
                receiver_info = input.receiver_info;
                currency = record { id = currency.id; code = currency.code };
              } in
                  modify (λ s. record s { cache = set redis now token (some cache) 3600 s.cache }))
              >> pure (receiver, token)

  abbrev pub compare_passcode : ℕ → Option ℕ → Request Bool
  compare_passcode given none = raise illegal_arguments
  compare_passcode given (some hash) = pure (bcrypt.compare_hash given hash)

  -- `verifyPasscode`, where the cache is read at `now` and written at `stored`
  pub exchange_verify_passcode : ℕ → ℕ → ℕ → ℕ → ℕ → ℕ → Request ℕ
  exchange_verify_passcode now stored token account_id inquiry_token passcode =
      gets (λ s. get redis now inquiry_token s.cache) >>= λ found.
      or_raise found token_invalid >>= λ cache.
      gets (λ s. find? (λ row. row.0 == account_id) s.passcodes) >>= λ row.
      or_raise row type_error >>= λ account. compare_passcode passcode account.1 >>= λ valid.
      raise_if (not valid) passcode_invalid
      >> modify (λ s. record s {
        cache =
            set redis stored token (some (record cache { verify_passcode = true })) 3600
              (delete redis inquiry_token s.cache);
      })
      >> pure token

  abbrev pub min_hold_of : Option LimitSetting → ℤ
  min_hold_of none = pos 0
  min_hold_of (some setting) = elim setting.min_hold [ none ↦ pos 0 | some hold ↦ hold ]

  -- `validateAmountAvailable`: the first test compares two Decimals, the second two numbers.
  pub validate_amount_available : ℕ → ℕ → ℕ → ℤ → ℤ → Request BalanceRow
  validate_amount_available account_id currency_id code amount fee =
      gets (λ s. balance_row account_id currency_id s) >>= λ found.
      or_raise found account_invalid >>= λ row. limit_setting code >>= λ setting.
      gets (λ s. s.text_of) >>= λ text_of.
      raise_if
        (text_less (text_of row.amount) (text_of row.balance)
          || ltb_ℤ (row.amount -ℤ min_hold_of setting) (amount +ℤ fee))
        amount_invalid
      >> pure row

  -- The transaction that callVNDCOffChain makes.
  abbrev pub pending_tx : ℕ → ℕ → CurrencyRef → ℤ → BalanceRow → ExchangeTx
  pending_tx tx_id account_id currency amount row = record {
    id = tx_id;
    sender_id = some account_id;
    receiver_id = none;
    currency_id = currency.id;
    type = 5;
    action_type = subtract;
    amount = amount;
    fee = some (pos 0);
    status = 1;
    old_balance = some row.amount;
  }

  -- `callVNDCOffChain`, up to the timer that it starts
  pub call_vndc_off_chain : ℕ → ℕ → CurrencyRef → ℤ → Request ExchangeTx
  call_vndc_off_chain tx_id account_id currency amount =
      validate_amount_available account_id currency.id currency.code amount (pos 0) >>= λ row.
      hold_balance (record {
        account_id = account_id;
        amount = amount;
        currency_id = currency.id;
        version = row.version;
        cb_transaction = pending_tx tx_id account_id currency amount row;
      })
      >>= λ tx_pending. pure (pending_tx tx_id account_id currency amount row)

  -- `submit`, after its tests
  pub send_by : ℕ → ℕ → ExchangeInput → CurrencyRef → Request ExchangeTx
  send_by tx_id account_id input currency =
      if input.currency == vndc || input.currency == bbc
      then (call_vndc_off_chain tx_id account_id currency input.amount >>= λ output.
          modify (λ s. record s { cache = delete redis input.token s.cache }) >> pure output)
      else raise method_not_supported

  -- `submit`
  pub submit : ℕ → ℕ → ℕ → ExchangeInput → Request ExchangeTx
  submit now tx_id account_id input = gets (λ s. get redis now input.token s.cache) >>= λ cached.
      get_receiver_info input.method input.receiver_info
      >> raise_if (not (fits cached input)) token_invalid
      >> or_raise cached token_invalid
      >>= λ cache. send_by tx_id account_id input cache.currency
