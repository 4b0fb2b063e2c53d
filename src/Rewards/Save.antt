-- ===== src/Rewards/Save.antt =====
-- saveAccount and insertAccountReferral of apps/authenticator/src/authenticator.service.ts. A wheel's
-- key, the time and the amounts of the environment are arguments, the keys of new balances come from
-- the database. The names of accounts are left out, and so is that of the coin, since they only go
-- into the texts of notices.
pub mod Balances
pub mod Referral
mod Tests
use mathlib.Core.Option
use system_chat.Base.{
  ℕ, ◌+◌, ◌==◌, ◌&&◌, Bool, true, false, not, Option, some, none, List, [], ◌∷◌, ◌++◌, ℤ, pos,
  Effect, ok, pure, ◌>>=◌, ◌>>◌, gets, modify, or_raise, raise_if, when, atomically, find?,
  select_where, count_where, update_where, if◌then◌else◌,
}
use system_chat.Wallet.{
  CbAvailable, CashbackTx, AccountReferral, has_key, Prisma, WalletDb, Action, not_found, rejected,
  create_cb_trans, create_referral, account_referral,
}
use system_chat.Rewards.{
  Coin, Commission, RewardDb, RewardStep, Wheel, UnitDate, Summary, ReferralCount, type_error,
  wallet_error, on_wallet, satoshi, is_free, status_of, notify, reward_new_account,
}

-- What a call takes from its surroundings: `AMOUNT_REFERRAL_FROM` and `AMOUNT_REFERRAL_BY`, the
-- date, `dailyLuckyId`, the times that the wallet's handlers read, and `gen_random_uuid`.
pub record SaveCall : Type 0 where
  pub amount_from : ℤ
  pub amount_by : ℤ
  pub today : UnitDate
  pub daily_lucky_id : ℕ
  pub now : ℕ
  pub now_by : ℕ
  pub now_from : ℕ
  pub new_id : WalletDb → ℕ

-- The argument of saveAccount, of which it reads two fields.
pub record NewAccount : Type 0 where
  pub id : ℕ
  pub referral_by : Option ℕ

abbrev pub same_date : UnitDate → Summary → Bool
same_date d row = row.date.day == d.day && row.date.month == d.month && row.date.year == d.year

-- `upsert`: the row of a unique key is changed, or a new one is created.
abbrev pub upsert : {A : Type 0} → (A → Bool) → (A → A) → A → List A → List A
upsert p f new rows = elim (find? p rows) [
  | none ↦ rows ++ new ∷ []
  | some row ↦ update_where p f rows
]

abbrev pub count_account : UnitDate → RewardDb → RewardDb
count_account d s = record s {
  summaries =
      upsert (same_date d) (λ row. record row { value = row.value + 1 })
        (record { date = d; value = 1 }) s.summaries;
}

abbrev pub count_referral : ℕ → RewardDb → RewardDb
count_referral by s = record s {
  referral_stats =
      upsert (λ row. row.account_id == by)
        (λ row. record row { total_referrals = row.total_referrals + 1 })
        (record { account_id = by; total_referrals = 1 }) s.referral_stats;
}

-- The balances of an account, as `select: { cbAvailable }` reads them; none without the account.
abbrev pub info_of : ℕ → RewardDb → Option (List CbAvailable)
info_of account_id s =
    Option.map (λ id. select_where (λ row. row.account_id == account_id) s.wallet.cb_available)
      (find? (λ id. id == account_id) s.accounts)

-- `info.cbAvailable.find((x) => x.currencyId === currencyId).version`, which throws without the
-- account or the balance.
abbrev pub version_in : ℕ → Option (List CbAvailable) → Option ℕ
version_in currency_id none = none
version_in currency_id (some rows) =
    Option.map (λ row. row.version) (find? (λ row. row.currency_id == currency_id) rows)

-- `config ? config.referralFrom : AMOUNT_REFERRAL_FROM`
abbrev pub amount_from : SaveCall → Option Commission → ℤ
amount_from call none = call.amount_from
amount_from call (some config) = config.referral_from

abbrev pub amount_by : SaveCall → Option Commission → ℤ
amount_by call none = call.amount_by
amount_by call (some config) = config.referral_by

-- `cbTransactionFrom` and `cbTransactionBy`
abbrev pub referral_tx : ℤ → ℕ → ℕ → ℕ → Option Commission → CashbackTx
referral_tx amount sender receiver currency_id config = record {
  id = none;
  type = 7;
  amount = amount;
  status = status_of (is_free config);
  action_type = 1;
  title = 7;
  description = status_of (is_free config);
  updated_at = 0;
  old_balance = none;
  currency_id = currency_id;
  sender_id = some sender;
  receiver_id = some receiver;
}

-- A promise that nobody waits for: what it throws reaches no one. The state is that at its end.
abbrev pub unawaited : {A : Type 0} → RewardStep A → RewardStep (Unit {0})
unawaited m s = (ok tt, (m s).1)

module _ (prisma : Prisma) (call : SaveCall) where
  abbrev pub new_balance : ℕ → ℕ → WalletDb → CbAvailable
  new_balance account_id currency_id w = record {
    id = call.new_id w;
    amount = pos 0;
    updated_at = prisma.stamp;
    currency_id = currency_id;
    account_id = account_id;
    version = 1;
  }

  -- `cbAvailable: { createMany }`: a balance of each coin, refused where the key is taken.
  pub create_balances : ℕ → List Coin → Action (Unit {0})
  create_balances account_id [] = pure tt
  create_balances account_id (coin ∷ coins) =
      gets (λ w. count_where (has_key account_id coin.id 1) w.cb_available) >>= λ count.
      raise_if (not (count == 0)) rejected
      >> modify
          (λ w. record w { cb_available = w.cb_available ++ new_balance account_id coin.id w ∷ [] })
      >> create_balances account_id coins

  -- The operations that saveAccount collects.
  abbrev pub bulk_ops : ℕ → List Coin → RewardStep (Unit {0})
  bulk_ops account_id coins =
      gets (λ s. count_where (λ id. id == account_id) s.accounts) >>= λ count.
      raise_if (count == 0) (wallet_error not_found)
      >> on_wallet (create_balances account_id coins)
      >> modify (λ s. record s {
        wheels = s.wheels ++ record { id = call.daily_lucky_id; account_id = account_id } ∷ [];
      })
      >> notify account_id 8
      >> modify (count_account call.today)

  -- The message ACCOUNT_REFERRAL and its handler; `versionFrom` is read first.
  abbrev pub send_referral :
      ℕ
      → ℕ
      → ℕ
      → Option (List CbAvailable)
      → Option (List CbAvailable)
      → Option Commission
      → RewardStep (Unit {0})
  send_referral by from currency_id by_info from_info config =
      or_raise (version_in currency_id from_info) type_error >>= λ version_from.
      or_raise (version_in currency_id by_info) type_error >>= λ version_by.
      on_wallet (
        account_referral prisma call.now_by call.now_from (record {
          cb_transaction_from = referral_tx (amount_from call config) by from currency_id config;
          cb_transaction_by = referral_tx (amount_by call config) from by currency_id config;
          account_referral = record { referral_from = from; referral_by = by; created_at = 0 };
          version_from = version_from;
          version_by = version_by;
        }))
      >>= λ sent. pure tt

  -- What is added to the operations where KYC is needed.
  abbrev pub create_pending : ℕ → ℕ → ℕ → Option Commission → RewardStep (Unit {0})
  create_pending by from currency_id config = on_wallet (
      create_referral prisma (record { referral_from = from; referral_by = by; created_at = 0 })
      >> create_cb_trans prisma (referral_tx (amount_from call config) by from currency_id config)
      >> create_cb_trans prisma (referral_tx (amount_by call config) from by currency_id config)
      >> pure tt)

  -- `insertAccountReferral`; the names for the notices are read before anything of the batch runs.
  pub insert_account_referral : ℕ → ℕ → RewardStep (Unit {0}) → RewardStep (Unit {0})
  insert_account_referral by from bulk_ops = gets (info_of by) >>= λ by_info.
      gets (info_of from) >>= λ from_info.
      gets (λ s. find? (λ config. true) s.commissions) >>= λ config.
      gets (λ s. find? (λ coin. coin.code == satoshi) s.coins) >>= λ found.
      or_raise found type_error >>= λ coin.
      when (is_free config) (send_referral by from coin.id by_info from_info config)
      >> (or_raise by_info type_error >>= λ named. or_raise from_info type_error >>= λ named.
          atomically (
            bulk_ops
            >> when (not (is_free config)) (create_pending by from coin.id config)
            >> modify (count_referral by)
            >> notify from 4
            >> notify by 5))

  -- The rest of saveAccount, which it does not wait for.
  abbrev pub follow_up : NewAccount → RewardStep (Unit {0}) → RewardStep (Unit {0})
  follow_up input ops = elim input.referral_by [
    | none ↦ unawaited (reward_new_account prisma call.now input.id ops)
    | some by ↦ unawaited (insert_account_referral by input.id ops)
  ]

  -- `saveAccount`
  pub save_account : NewAccount → RewardStep Bool
  save_account input = gets (λ s. select_where (λ coin. coin.status == 1) s.coins) >>= λ coins.
      follow_up input (bulk_ops input.id coins) >> pure true
