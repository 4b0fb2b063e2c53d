-- ===== src/Orders/Rows.antt =====
-- The tables and payloads of the orders (`PartnerTransaction` in prisma/schema.prisma).
use system_chat.Base.{ℕ, Option, List, ℤ, Effect}
use system_chat.Wallet.{WalletDb, WalletError, Prisma}
use system_chat.Rewards.{Coin}

-- `CASHBACK_STATUS`, those that the orders have.
abbrev pub processing_status : ℕ
processing_status = 1

abbrev pub success_status : ℕ
success_status = 2

abbrev pub failure_status : ℕ
failure_status = 3

abbrev pub rejected_status : ℕ
rejected_status = 4

-- `PARTNER_TRANS_TYPE`
abbrev pub incoming_type : ℕ
incoming_type = 1

abbrev pub outgoing_type : ℕ
outgoing_type = 2

-- `CURRENCY_CODE.VNDC`, by its place in the enum.
abbrev pub vndc_code : ℕ
vndc_code = 1

-- `PAY_ME_STATE`
pub data PayMeState : Type 0 where
  succeeded failed pending expired canceled refunded : PayMeState

abbrev pub pay_me_state : PayMeState → ℕ
pay_me_state succeeded = success_status
pay_me_state failed = failure_status
pay_me_state pending = processing_status
pay_me_state expired = rejected_status
pay_me_state canceled = 6
pay_me_state refunded = 7

-- The entries of the column `histories`.
pub data OrderEntry : Type 0 where
  opened : ℤ → ℕ → OrderEntry
  opened_at : ℤ → ℕ → ℤ → OrderEntry
  canceled_by_user : ℕ → OrderEntry
  paid : ℕ → ℤ → ℕ → OrderEntry

-- `model PartnerTransaction`. A rate is a double, by its bit pattern. Every method that creates a
-- row sets `histories` and a transaction id. The title, the store and the receiver are only stored,
-- and left out.
pub record Order : Type 0 where
  pub account_id : ℕ
  pub order_id : ℕ
  pub transaction_id : ℕ
  pub amount : ℤ
  pub amount_exchange : ℤ
  pub exchange_rate : ℕ
  pub status : ℕ
  pub type : ℕ
  pub description : ℕ
  pub method_type : ℕ
  pub currency_id : Option ℕ
  pub payme_id : Option ℕ
  pub histories : List OrderEntry

-- `BuyVNDCRequestDto` and `BuySatoshiRequestDto`, what is read of them.
pub record BuyVndcInput : Type 0 where
  pub account_id : ℕ
  pub amount : ℤ
  pub method_type : ℕ

-- A row of `Notification`.
pub record OrderNotice : Type 0 where
  pub account_id : ℕ
  pub description : ℕ
  pub ref : ℕ

pub record OrderDb : Type 0 where
  pub wallet : WalletDb
  pub coins : List Coin
  pub orders : List Order
  pub notices : List OrderNotice

pub data OrderError : Type 0 where
  has_transaction_pending transaction_invalid amount_invalid : OrderError
  type_error bad_number row_refused : OrderError
  wallet_failed : WalletError → OrderError

abbrev pub OrderAction : Type 0 → Type 0
OrderAction = Effect OrderError OrderDb

-- The database, the texts, and arithmetic on doubles: `number` reads a column of type Decimal, and
-- `round` is Math.round as a Decimal, `none` where it is not a finite number.
pub record OrderEnv : Type 0 where
  pub prisma : Prisma
  pub number : ℤ → ℕ
  pub one : ℕ
  pub times : ℕ → ℕ → ℕ
  pub over : ℕ → ℕ → ℕ
  pub round : ℕ → Option ℤ
  pub deposit_pending : ℤ → ℕ
  pub payment_pending : ℤ → ℤ → ℕ
  pub payment_succeeded : ℤ → ℕ → ℕ
  pub in_process : ℕ
