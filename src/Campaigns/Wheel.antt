-- ===== src/Campaigns/Wheel.antt =====
-- Confirmed transactions, and the reward of the lucky wheel that goes with them: insertCbTransSuccess
-- and getRewardDailyLuckyWheelByAccount of apps/cronjob/src/access-trade.job.ts.
pub mod Credit
use system_chat.Base.{
  ℕ, ◌+◌, ◌*◌, ◌==◌, Bool, true, false, not, ◌&&◌, Option, some, none, List, [], ◌∷◌, ◌++◌, ℤ, pos,
  ◌+ℤ◌, eqb_ℤ, Result, ok, err, pure, raise, gets, modify, or_raise, raise_if, when, atomically,
  ◌>>=◌, ◌>>◌, if◌then◌else◌, find?, count_where, update_where, leb,
}
use system_chat.Campaigns.{
  AccessTrade, Campaign, CampaignTx, JobCampaign, LuckyWheel, BalanceKey, ApprovePayload, JobDb,
  JobEnv, JobAction, type_error, InsertOptions, exists_product, TransactionRes, ExchangeRateSat,
  insert_cb_trans_pending, caught, find_campaign, detached, handle_notification,
  process_cashback_for_partner, create_job_campaign, commission_valid, partner_share, tx_success,
}

-- The newest row that passes a test.
unfoldable pub find_newest : (LuckyWheel → Bool) → List LuckyWheel → Option LuckyWheel
find_newest p [] = none
find_newest p (x ∷ xs) = elim (find_newest p xs) [
  | none ↦ if p x then some x else none
  | some y ↦ some y
]

-- Approved, for payments, used on the wheel and not yet used on a transaction.
abbrev pub is_open_reward : ℕ → LuckyWheel → Bool
is_open_reward account_id row =
    row.account_id == account_id
    && row.is_approved
    && row.type == 2
    && row.status == 2
    && row.reward_status == 1

-- `EXPIRATION_REWARD` in milliseconds.
abbrev pub expiration_reward : ℕ
expiration_reward = 24 * 3_600_000

-- What getRewardDailyLuckyWheelByAccount returns; `none` is undefined.
pub record DailyReward : Type 0 where
  pub reward_id : Option ℕ
  pub value : Option ℤ
  pub reward : ℕ

abbrev pub no_reward : DailyReward
no_reward = record { reward_id = none; value = none; reward = 0 }

-- `transactionTime >= rewardAt && rewardExp >= transactionTime`
abbrev pub is_in_time : ℕ → LuckyWheel → Bool
is_in_time time row = leb row.reward_at time && leb time (row.reward_at + expiration_reward)

module _ (env : JobEnv) where
  -- `Math.round((transactionValue * (reward / 100)) / rateValue)`
  abbrev pub reward_value : ℕ → ℕ → ℕ → Option ℤ
  reward_value transaction_value rate_value reward =
      env.round (env.over (env.times transaction_value (env.percent reward)) rate_value)

  abbrev pub reward_of : ℕ → ℕ → ℕ → Option LuckyWheel → DailyReward
  reward_of transaction_value time rate_value none = no_reward
  reward_of transaction_value time rate_value (some row) =
      if is_in_time time row
      then record {
        reward_id = some row.id;
        value = reward_value transaction_value rate_value row.reward;
        reward = row.reward;
      }
      else no_reward

  -- `getRewardDailyLuckyWheelByAccount`
  pub get_reward_daily : ℕ → ℕ → ℕ → ℕ → JobDb → DailyReward
  get_reward_daily account_id transaction_value time rate_value s =
      reward_of transaction_value time rate_value (find_newest (is_open_reward account_id) s.wheels)

  -- A sum of doubles is NaN if a part of it is.
  abbrev pub plus_value : Option ℤ → Option ℤ → Option ℤ
  plus_value none b = none
  plus_value (some a) none = none
  plus_value (some a) (some b) = some (a +ℤ b)

  -- `Math.round(commissionValid / rateValue) + dailyReward.value`
  abbrev pub success_amount : ℕ → AccessTrade → DailyReward → Option ℤ
  success_amount rate_value transaction reward =
      plus_value (env.round (env.over (commission_valid env transaction) rate_value)) reward.value

  -- `amount === 0`
  abbrev pub is_zero : Option ℤ → Bool
  is_zero none = false
  is_zero (some amount) = eqb_ℤ amount (pos 0)

  -- The payload of a confirmed transaction.
  abbrev pub success_payload :
      ℕ → AccessTrade → ℕ → Option ℤ → BalanceKey → DailyReward → ApprovePayload
  success_payload currency_id transaction tx_id amount available reward = record {
    id = tx_id;
    amount = amount;
    receiver_id = transaction.utm_content;
    currency_id = currency_id;
    campaign_id = transaction.utm_campaign;
    version = available.version;
    is_new_tx = true;
    reward_id = reward.reward_id;
  }

  -- The batch where a campaign is found. Else it is empty: the history of the job is a query that
  -- nothing runs.
  abbrev pub campaign_batch : ℕ → InsertOptions → Option Campaign → JobAction (Unit {0})
  campaign_batch until options none = pure tt
  campaign_batch until options (some campaign) =
      modify (λ s. record s {
        campaigns =
            update_where (λ row. row.id == campaign.id)
              (λ row. record row {
                count_trans = row.count_trans + 1;
                total_commission = env.add row.total_commission options.transaction.commission;
              })
              s.campaigns;
      })
      >> create_job_campaign (record {
        id = options.job_id;
        account_id = options.transaction.utm_content;
        campaign_id = some campaign.id;
        created_at = until;
      })

  abbrev pub send_success :
      ℕ
      → ℕ
      → InsertOptions
      → Option ℤ
      → Option Campaign
      → BalanceKey
      → DailyReward
      → JobAction (Unit {0})
  send_success currency_id until options amount campaign available reward = do
    env.wallet
        (success_payload currency_id options.transaction options.tx_id amount available reward)
    atomically (campaign_batch until options campaign)
    detached (handle_notification options.transaction.utm_content tx_success options.tx_id)
    detached (
        process_cashback_for_partner options.transaction.utm_content options.tx_id
          options.transaction.transaction_value (partner_share env options.transaction))

  abbrev pub success_with :
      ℕ → ℕ → ℕ → InsertOptions → Option Campaign → BalanceKey → DailyReward → JobAction (Unit {0})
  success_with currency_id rate_value until options campaign available reward =
      when (not (is_zero (success_amount rate_value options.transaction reward))) (
        send_success currency_id until options
          (success_amount rate_value options.transaction reward) campaign available reward)

  -- `insertCbTransSuccess`. A missing balance row cannot be taken apart.
  pub insert_cb_trans_success : ℕ → ℕ → ℕ → InsertOptions → JobAction (Unit {0})
  insert_cb_trans_success currency_id rate_value until options = do
    exists ← gets (exists_product options.transaction)
    when (not exists) do
      row ← gets (λ s.
          find?
            (λ row.
              row.account_id == options.transaction.utm_content && row.currency_id == currency_id)
            s.available)
      campaign ← find_campaign options.transaction.utm_campaign
      available ← or_raise row type_error
      reward ← gets (
          get_reward_daily options.transaction.utm_content options.transaction.transaction_value
            options.transaction.transaction_time rate_value)
      success_with currency_id rate_value until options campaign available reward

-- `getTransactionFromAccessTradeOnApproved`: nothing waits for the calls. Here each begins when the
-- last has ended, one of the orders that the event loop allows.
pub insert_detached : JobEnv → ExchangeRateSat → ℕ → List InsertOptions → JobAction (Unit {0})
insert_detached env exchange until [] = pure tt
insert_detached env exchange until (options ∷ rest) =
    detached (
      if options.transaction.is_confirmed
      then insert_cb_trans_success env exchange.currency_id exchange.rate_value until options
      else insert_cb_trans_pending env exchange.currency_id exchange.rate_value until options)
    >> insert_detached env exchange until rest

pub get_transaction_on_approved :
    JobEnv → ℕ → TransactionRes → Option ExchangeRateSat → JobAction (Unit {0})
get_transaction_on_approved env until res rate = when (not (res.total == 0)) (
    caught
      do exchange ← or_raise rate type_error; insert_detached env exchange until res.transactions)
