-- ===== src/Wallet/Rows.antt =====
-- The tables that the wallet service writes (prisma/schema.prisma), and what its calls take
-- (apps/wallet/src/common/dto/index.ts). A UUID, an enum's number and a text that is only stored
-- are numbers; a date is its milliseconds.
use system_chat.Base.{ℕ, Bool, ◌&&◌, ◌==◌, Option, List, ℤ, Effect}

-- `enum ActionType`
pub data ActionType : Type 0 where
  decrement : ActionType
  increment : ActionType

-- `model CashbackAvailable`: the balance of an account in a currency.
pub record CbAvailable : Type 0 where
  pub id : ℕ
  pub amount : ℤ
  pub updated_at : ℕ
  pub currency_id : ℕ
  pub account_id : ℕ
  pub version : ℕ

-- `model CashbackAvailableHistories`
pub record CbHistory : Type 0 where
  pub ca_id : ℕ
  pub old_balance : ℤ
  pub amount : ℤ
  pub type : ActionType
  pub last_update : ℕ

-- `model CashbackTransaction`, and `CashbackTransactionBroker`, which takes the same data. An
-- absent `id` or `old_balance` is filled in by the database.
pub record CashbackTx : Type 0 where
  pub id : Option ℕ
  pub type : ℕ
  pub amount : ℤ
  pub status : ℕ
  pub action_type : ℕ
  pub title : ℕ
  pub description : ℕ
  pub updated_at : ℕ
  pub old_balance : Option ℤ
  pub currency_id : ℕ
  pub sender_id : Option ℕ
  pub receiver_id : Option ℕ

-- `model AccountReferral`
pub record AccountReferral : Type 0 where
  pub referral_from : ℕ
  pub referral_by : ℕ
  pub created_at : ℕ

-- `model PartnerTransaction`, the columns that a deposit changes and the key.
pub record PartnerTx : Type 0 where
  pub order_id : ℕ
  pub amount : ℤ
  pub status : ℕ
  pub description : ℕ
  pub updated_at : ℕ

pub record WalletDb : Type 0 where
  pub cb_available : List CbAvailable
  pub cb_histories : List CbHistory
  pub cb_trans : List CashbackTx
  pub broker_trans : List CashbackTx
  pub referrals : List AccountReferral
  pub partner_trans : List PartnerTx

-- `not_found`: a query that must find a row does not. `rejected`: a constraint of the database
-- (a unique key, a foreign key) refuses a new row. `bad_query`: a key in a query is absent.
pub data WalletError : Type 0 where
  lock_version_mismatch not_found rejected bad_query : WalletError

abbrev pub Action : Type 0 → Type 0
Action = Effect WalletError WalletDb

-- What the code relies on and does not implement: whether the constraints of a table take a new
-- row, and the time that Prisma writes into an `@updatedAt` column.
pub record Prisma : Type 0 where
  pub takes_cb_trans : CashbackTx → WalletDb → Bool
  pub takes_broker : CashbackTx → WalletDb → Bool
  pub takes_referral : AccountReferral → WalletDb → Bool
  pub stamp : ℕ

-- The unique key `accountId_currencyId_version`.
abbrev pub has_key : ℕ → ℕ → ℕ → CbAvailable → Bool
has_key account_id currency_id version row =
    row.account_id == account_id && row.currency_id == currency_id && row.version == version

-- `AccountReferralPayloadDto`
pub record AccountReferralPayload : Type 0 where
  pub cb_transaction_from : CashbackTx
  pub cb_transaction_by : CashbackTx
  pub account_referral : AccountReferral
  pub version_from : ℕ
  pub version_by : ℕ

-- `UserDepositPayloadDto`, where the version, which may be left out, is given: without it Prisma
-- refuses the key of the balance.
pub record UserDepositPayload : Type 0 where
  pub cb_transaction : CashbackTx
  pub partner_transaction : PartnerTx
  pub version : ℕ
