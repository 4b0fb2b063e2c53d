-- ===== src/Exchange/Rows.antt =====
-- The tables, the payloads and the cached values of the exchange.
use system_chat.Base.{
  ℕ, ◌==◌, Bool, true, false, not, ◌&&◌, Option, some, none, List, [], ◌∷◌, ℤ, pos, ◌+ℤ◌, ◌-ℤ◌,
  find?, if◌then◌else◌, ltb,
}

-- `EXCHANGE_METHOD`, with what is no member of it.
pub data ExchangeMethod : Type 0 where
  onus other_method : ExchangeMethod

-- `CURRENCY_CODE`: the texts VNDC and BBC.
abbrev pub vndc : ℕ
vndc = 1

abbrev pub bbc : ℕ
bbc = 2

-- `CASHBACK_ACTION_TYPE`
pub data CashbackActionType : Type 0 where
  add subtract : CashbackActionType

pub record CurrencyRef : Type 0 where
  pub id : ℕ
  pub code : ℕ

-- `ExchangeCaching`
pub record ExchangeCaching : Type 0 where
  pub method : ExchangeMethod
  pub verify_passcode : Bool
  pub amount : ℤ
  pub receiver_info : ℕ
  pub currency : CurrencyRef

pub data ExchangeError : Type 0 where
  amount_invalid_min amount_invalid_max currency_not_supported account_invalid method_not_supported
        has_transaction_pending token_invalid passcode_invalid amount_invalid :
      ExchangeError
  type_error illegal_arguments wallet_error : ExchangeError

pub record CurrencyMaster : Type 0 where
  pub id : ℕ
  pub code : ℕ
  pub status : ℕ

-- `CurrencyLimitSetting`, with the code of its currency.
pub record LimitSetting : Type 0 where
  pub type : ℕ
  pub currency_code : ℕ
  pub min : ℤ
  pub max : ℤ
  pub min_hold : Option ℤ

-- `AccountExchangeCurrency`, with the flag of its currency.
pub record AccountCurrency : Type 0 where
  pub account_id : ℕ
  pub currency_id : ℕ
  pub wallet_address : ℕ
  pub exchange_wallet_editable : Bool

-- `CashbackTransaction`
pub record ExchangeTx : Type 0 where
  pub id : ℕ
  pub sender_id : Option ℕ
  pub receiver_id : Option ℕ
  pub currency_id : ℕ
  pub type : ℕ
  pub action_type : CashbackActionType
  pub amount : ℤ
  pub fee : Option ℤ
  pub status : ℕ
  pub old_balance : Option ℤ

-- A row of cashback_available, for an account that is active.
pub record Available : Type 0 where
  pub account_id : ℕ
  pub currency_id : ℕ
  pub amount : ℤ
  pub version : ℕ

pub record BalanceRow : Type 0 where
  pub amount : ℤ
  pub incoming : ℤ
  pub outgoing : ℤ
  pub balance : ℤ
  pub version : ℕ

-- The database and the cache; `passcodes` has the id and the passcode of each account, `floor` is
-- that of PostgreSQL on the units of an amount, and `text_of` is `valueOf` of the Decimal that Prisma
-- makes of a numeric: the characters of a text.
pub record ExchangeDb (C : Type 0) : Type 0 where
  pub currencies : List CurrencyMaster
  pub limits : List LimitSetting
  pub account_currencies : List AccountCurrency
  pub cb_trans : List ExchangeTx
  pub available : List Available
  pub passcodes : List (ℕ × Option ℕ)
  pub floor : ℤ → ℤ
  pub text_of : ℤ → List ℕ
  pub cache : C

-- `ExchangeV3InquiryDto` and `ExchangeV3SubmitDto`; an inquiry has no token yet.
pub record ExchangeInput : Type 0 where
  pub method : ExchangeMethod
  pub currency : ℕ
  pub receiver_info : ℕ
  pub amount : ℤ
  pub token : ℕ

pub record Receiver : Type 0 where
  pub name : ℕ
  pub kyc : Bool
  pub keywords : ℕ

pub record WalletPayload : Type 0 where
  pub account_id : ℕ
  pub amount : ℤ
  pub currency_id : ℕ
  pub version : ℕ
  pub cb_transaction : ExchangeTx

pub record Bcrypt : Type 0 where
  pub compare_hash : ℕ → ℕ → Bool

-- `<` on two objects compares what their `valueOf` returns, and texts go by their characters.
abbrev pub text_less : List ℕ → List ℕ → Bool
text_less xs [] = false
text_less [] (y ∷ ys) = true
text_less (x ∷ xs) (y ∷ ys) = if ltb x y then true else if ltb y x then false else text_less xs ys

-- `{ type: WITHDRAW, currency: { code } }`
abbrev pub is_withdraw : ℕ → LimitSetting → Bool
is_withdraw code row = row.type == 1 && row.currency_code == code

-- `{ code, status: ACTIVE }`
abbrev pub is_active : ℕ → CurrencyMaster → Bool
is_active code row = row.code == code && row.status == 1

abbrev pub is_id : Option ℕ → ℕ → Bool
is_id none n = false
is_id (some m) n = m == n

-- `{ senderId, currencyId, type: EXCHANGE, status: PROCESSING }`
abbrev pub is_pending : ℕ → ℕ → ExchangeTx → Bool
is_pending account_id currency_id tx =
    is_id tx.sender_id account_id && tx.currency_id == currency_id && tx.type == 5 && tx.status == 1

abbrev pub is_add : CashbackActionType → Bool
is_add add = true
is_add subtract = false

-- The two sums of find-account-balance.sql over the successful transactions.
unfoldable pub sum_incoming : ℕ → ℕ → List ExchangeTx → ℤ
sum_incoming account_id currency_id [] = pos 0
sum_incoming account_id currency_id (tx ∷ txs) =
    let rest = sum_incoming account_id currency_id txs in
    if tx.status == 2
      && is_add tx.action_type
      && is_id tx.receiver_id account_id
      && tx.currency_id == currency_id
    then tx.amount +ℤ rest
    else rest

-- `ct2.amount + ct2.fee` is null where the fee is, and a sum leaves null out.
abbrev pub plus_fee : ExchangeTx → ℤ → ℤ
plus_fee tx rest = elim tx.fee [ none ↦ rest | some fee ↦ tx.amount +ℤ fee +ℤ rest ]

unfoldable pub sum_outgoing : ℕ → ℕ → List ExchangeTx → ℤ
sum_outgoing account_id currency_id [] = pos 0
sum_outgoing account_id currency_id (tx ∷ txs) =
    let rest = sum_outgoing account_id currency_id txs in
    if tx.status == 2
      && not (is_add tx.action_type)
      && is_id tx.sender_id account_id
      && tx.currency_id == currency_id
    then plus_fee tx rest
    else rest

-- sql/find-account-balance.sql: the first row of its result
unfoldable pub balance_row : {C : Type 0} → ℕ → ℕ → ExchangeDb C → Option BalanceRow
balance_row account_id currency_id s =
    let incoming = sum_incoming account_id currency_id s.cb_trans in
    let outgoing = sum_outgoing account_id currency_id s.cb_trans in
    elim (find? (λ row. row.account_id == account_id && row.currency_id == currency_id)
      s.available) [
        | none ↦ none
        | some row ↦ some (record {
          amount = s.floor row.amount;
          incoming = s.floor incoming;
          outgoing = s.floor outgoing;
          balance = s.floor (incoming -ℤ outgoing);
          version = row.version;
        })
      ]
