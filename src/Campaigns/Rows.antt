-- ===== src/Campaigns/Rows.antt =====
-- The tables and payloads of the job that brings transactions from AccessTrade. A double is its bit
-- pattern; an id, a text and a date is a number.
use system_chat.Base.{ℕ, Bool, Option, List, ℤ, Effect}

-- `TransactionAccessTrade`: the account stands in `utm_content`, the campaign in `utm_campaign`,
-- `none` for the empty text.
pub record AccessTrade : Type 0 where
  pub id : ℕ
  pub status : ℕ
  pub utm_content : ℕ
  pub utm_campaign : Option ℕ
  pub transaction_id : ℕ
  pub product_id : ℕ
  pub transaction_value : ℕ
  pub transaction_time : ℕ
  pub is_confirmed : Bool
  pub commission : ℕ

-- `model CashbackTransaction`, what the job reads and writes; `product_id` is in the column
-- accessTradeJson.
pub record CampaignTx : Type 0 where
  pub id : ℕ
  pub amount : ℤ
  pub status : ℕ
  pub currency_id : ℕ
  pub receiver_id : ℕ
  pub campaign_id : Option ℕ
  pub access_trade_id : ℕ
  pub product_id : ℕ
  pub created_at : ℕ
  pub notes : List ℕ

-- `model Campaign`
pub record Campaign : Type 0 where
  pub id : ℕ
  pub count_trans : ℕ
  pub total_commission : ℕ

-- `model JobCampaignHistory`
pub record JobCampaign : Type 0 where
  pub id : ℕ
  pub account_id : ℕ
  pub campaign_id : Option ℕ
  pub created_at : ℕ

-- A row of `Notification`
pub record CampaignNotice : Type 0 where
  pub account_id : ℕ
  pub status : ℕ
  pub ref : ℕ

-- `model AccountDailyLuckyWheel`, the newest row last.
pub record LuckyWheel : Type 0 where
  pub id : ℕ
  pub account_id : ℕ
  pub is_approved : Bool
  pub type : ℕ
  pub status : ℕ
  pub reward_status : ℕ
  pub reward_at : ℕ
  pub reward : ℕ

-- `model AccountReferral`, with the column of the account that refers.
pub record Referrer : Type 0 where
  pub referral_from : ℕ
  pub referral_by : ℕ
  pub is_partner : Bool

-- `model AccountPartnerCommission`
pub record PartnerCommission : Type 0 where
  pub account_id : ℕ
  pub transaction_id : ℕ
  pub total_value : ℕ
  pub commission : ℤ

-- The key of a balance and its version.
pub record BalanceKey : Type 0 where
  pub account_id : ℕ
  pub currency_id : ℕ
  pub version : ℕ

pub record JobDb : Type 0 where
  pub accounts : List ℕ
  pub available : List BalanceKey
  pub cb_trans : List CampaignTx
  pub campaigns : List Campaign
  pub job_campaigns : List JobCampaign
  pub notices : List CampaignNotice
  pub wheels : List LuckyWheel
  pub referrers : List Referrer
  pub commissions : List PartnerCommission

-- The message APPROVE_DAILY_LUCKY_WHEEL. `amount` is `none` for NaN.
pub record ApprovePayload : Type 0 where
  pub id : ℕ
  pub amount : Option ℤ
  pub receiver_id : ℕ
  pub currency_id : ℕ
  pub campaign_id : Option ℕ
  pub version : ℕ
  pub is_new_tx : Bool
  pub reward_id : Option ℕ

pub data JobError : Type 0 where
  type_error bad_number bad_query row_refused no_handler : JobError

abbrev pub JobAction : Type 0 → Type 0
JobAction = Effect JobError JobDb

-- Arithmetic on doubles, and the wallet service, whose controller has no handler for the message.
-- `round` is Math.round, `none` for NaN; `config_amount` is 0.6, `percent` divides by 100, `add` adds
-- to a double.
pub record JobEnv : Type 0 where
  pub times : ℕ → ℕ → ℕ
  pub over : ℕ → ℕ → ℕ
  pub minus : ℕ → ℕ → ℕ
  pub add : ℕ → ℕ → ℕ
  pub percent : ℕ → ℕ
  pub round : ℕ → Option ℤ
  pub config_amount : ℕ
  pub wallet : ApprovePayload → JobAction (Unit {0})

-- `CashbackInsertOptions`, with the new ids that are used for it.
pub record InsertOptions : Type 0 where
  pub transaction : AccessTrade
  pub tx_id : ℕ
  pub job_id : ℕ

-- `TransactionRes`
pub record TransactionRes : Type 0 where
  pub total : ℕ
  pub transactions : List InsertOptions
