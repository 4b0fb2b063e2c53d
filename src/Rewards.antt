-- ===== src/Rewards.antt =====
-- rewardNewAccount of apps/authenticator/src/authenticator.service.ts, with the wallet service that
-- handles its message, and the tables of the calls for a new account.
pub mod Credit
pub mod Save
use system_chat.Base.{
  ℕ, ◌*◌, ◌^◌, ◌==◌, Bool, true, false, not, Option, some, none, List, ◌∷◌, ℤ, pos, Result, ok, err,
  Effect, pure, ◌>>=◌, ◌>>◌, gets, modify, or_raise, atomically, find?,
}
use system_chat.Wallet.{
  CashbackTx, Prisma, WalletDb, WalletError, create_cb_trans, increase_balance,
}

pub data RewardError : Type 0 where
  type_error : RewardError
  wallet_error : WalletError → RewardError

-- `CurrencyMaster`: its key, its code and its status.
pub record Coin : Type 0 where
  pub id : ℕ
  pub code : ℕ
  pub status : ℕ

-- `ConfigCommission`
pub record Commission : Type 0 where
  pub referral_from : ℤ
  pub referral_by : ℤ
  pub non_referral : ℤ
  pub need_kyc : Bool

-- `Notification`: whom it reaches and its `NOTIFICATION_TYPE`. Its texts only repeat the amounts
-- and names.
pub record Notice : Type 0 where
  pub account_id : ℕ
  pub type : ℕ

-- `AccountDailyLuckyWheel`
pub record Wheel : Type 0 where
  pub id : ℕ
  pub account_id : ℕ

-- `getUnitDate`
pub record UnitDate : Type 0 where
  pub day : ℕ
  pub week : ℕ
  pub month : ℕ
  pub year : ℕ

-- `AccountSummary`: the accounts that were made on a date.
pub record Summary : Type 0 where
  pub date : UnitDate
  pub value : ℕ

-- `AccountReferralStats`
pub record ReferralCount : Type 0 where
  pub account_id : ℕ
  pub total_referrals : ℕ

-- The wallet's tables and those that the calls for a new account read and write, of `Account` the
-- keys; the newest configuration is the first.
pub record RewardDb : Type 0 where
  pub wallet : WalletDb
  pub accounts : List ℕ
  pub coins : List Coin
  pub commissions : List Commission
  pub notices : List Notice
  pub wheels : List Wheel
  pub summaries : List Summary
  pub referral_stats : List ReferralCount

abbrev pub RewardStep : Type 0 → Type 0
RewardStep A = Effect RewardError RewardDb A

abbrev pub lift_error : {A : Type 0} → Result WalletError A → Result RewardError A
lift_error (ok a) = ok a
lift_error (err e) = err (wallet_error e)

abbrev pub on_wallet : {A : Type 0} → Effect WalletError WalletDb A → RewardStep A
on_wallet m s = let (r, w) = m s.wallet in (lift_error r, record s { wallet = w })

-- `CURRENCY_CODE.SATOSHI`
abbrev pub satoshi : ℕ
satoshi = 0

-- `config ? config.nonReferral : REWARD_NON_REFERRAL`, in units of the last place
abbrev pub reward_amount : Option Commission → ℤ
reward_amount none = pos (1000 * 10 ^ 30)
reward_amount (some config) = config.non_referral

-- `config && !config.needKyc`
abbrev pub is_free : Option Commission → Bool
is_free none = false
is_free (some config) = not config.need_kyc

-- The status and the description: SUCCESS without KYC, PROCESSING else.
abbrev pub status_of : Bool → ℕ
status_of true = 2
status_of false = 1

-- `cbTransaction`; the numbers of the title and of the description stand for the texts.
abbrev pub reward_tx : ℕ → ℕ → Option Commission → CashbackTx
reward_tx account_id currency_id config = record {
  id = none;
  type = 10;
  amount = reward_amount config;
  status = status_of (is_free config);
  action_type = 1;
  title = 10;
  description = status_of (is_free config);
  updated_at = 0;
  old_balance = none;
  currency_id = currency_id;
  sender_id = none;
  receiver_id = some account_id;
}

-- `getNotification().create` for an account, with a `NOTIFICATION_TYPE`
abbrev pub notify : ℕ → ℕ → RewardStep (Unit {0})
notify account_id type =
    modify (λ s. record s { notices = record { account_id = account_id; type = type } ∷ s.notices })

module _ (prisma : Prisma) where
  -- The message NONE_ACCOUNT_REFERRAL, with version 1, and its handler.
  pub send_reward : ℕ → CashbackTx → RewardStep CashbackTx
  send_reward now tx = on_wallet (increase_balance prisma now tx 1 false)

  -- What is saved in one batch before the message; `bulk_ops` are the operations of saveAccount.
  abbrev pub batch : Bool → ℕ → RewardStep (Unit {0}) → CashbackTx → RewardStep (Unit {0})
  batch true account_id bulk_ops tx = atomically (bulk_ops >> notify account_id 11)
  batch false account_id bulk_ops tx = atomically (
      bulk_ops >> notify account_id 11 >> on_wallet (create_cb_trans prisma tx) >>= λ stored.
      pure tt)

  -- `rewardNewAccount`
  pub reward_new_account : ℕ → ℕ → RewardStep (Unit {0}) → RewardStep CashbackTx
  reward_new_account now account_id bulk_ops =
      gets (λ s. find? (λ coin. coin.code == satoshi) s.coins) >>= λ found.
      gets (λ s. find? (λ config. true) s.commissions) >>= λ config.
      or_raise found type_error >>= λ coin.
      batch (is_free config) account_id bulk_ops (reward_tx account_id coin.id config)
      >> send_reward now (reward_tx account_id coin.id config)
