-- ===== src/Campaigns/Check.antt =====
-- checkStatusTransactionFromAccessTrade of apps/cronjob/src/access-trade.job.ts: the transactions
-- that wait are looked up again, in blocks.
pub mod Holds
use system_chat.Base.{
  ℕ, zero, suc, ◌+◌, ◌-◌, ◌*◌, ◌/◌, ◌==◌, Bool, true, false, not, ◌&&◌, ◌||◌, Option, some, none,
  List, [], ◌∷◌, ◌++◌, ℤ, pos, ◌+ℤ◌, Result, ok, err, pure, raise, gets, modify, or_raise, raise_if,
  when, atomically, ◌>>=◌, ◌>>◌, if◌then◌else◌, find?, select_where, count_where, update_where, leb,
  take, drop, length,
}
use system_chat.Campaigns.{
  AccessTrade, Campaign, CampaignTx, BalanceKey, ApprovePayload, JobDb, JobEnv, JobAction,
  type_error, is_product, find_campaign, detached, caught, handle_notification, tx_processing,
  tx_success, tx_rejected, tx_approved, trade_hold, trade_rejected,
}
use system_chat.Campaigns.Wheel.{DailyReward, get_reward_daily}

-- The rows that wait; all rows of the model are of type PAYMENT.
abbrev pub is_waiting : CampaignTx → Bool
is_waiting row = row.status == tx_processing || row.status == tx_approved

abbrev pub max_items : ℕ
max_items = 50

-- `Math.round(totalTransactions / MAX_ITEMS)`
abbrev pub total_block : ℕ → ℕ
total_block total = (total + 25) / max_items

-- `take: MAX_ITEMS, skip: index * MAX_ITEMS`
abbrev pub block {ℓ} : {A : Type ℓ} → ℕ → List A → List A
block index rows = take max_items (drop (index * max_items) rows)

-- `orderBy: { createdAt: 'asc' }`
unfoldable pub insert_by_date : CampaignTx → List CampaignTx → List CampaignTx
insert_by_date row [] = row ∷ []
insert_by_date row (x ∷ xs) =
    if leb row.created_at x.created_at then row ∷ x ∷ xs else x ∷ insert_by_date row xs

unfoldable pub by_date : List CampaignTx → List CampaignTx
by_date [] = []
by_date (x ∷ xs) = insert_by_date x (by_date xs)

unfoldable pub waiting_block : ℕ → JobDb → List CampaignTx
waiting_block index s = block index (by_date (select_where is_waiting s.cb_trans))

-- The new status, `none` where the method returns.
abbrev pub new_status : AccessTrade → CampaignTx → Option ℕ
new_status tran row =
    if tran.status == trade_rejected
    then some tx_rejected
    else if tran.is_confirmed
    then some tx_success
    else if row.status == tx_approved
    then none
    else some tx_approved

module _ (env : JobEnv) (rate_value : ℕ) where
  abbrev pub reward_for : AccessTrade → CampaignTx → JobDb → DailyReward
  reward_for tran row =
      get_reward_daily env row.receiver_id tran.transaction_value tran.transaction_time rate_value

  -- `cbTran.amount.add(dailyReward.reward)`: the percentage, not the value.
  abbrev pub confirm_payload : AccessTrade → CampaignTx → BalanceKey → DailyReward → ApprovePayload
  confirm_payload tran row available reward = record {
    id = tran.id;
    amount = some (row.amount +ℤ pos reward.reward);
    receiver_id = row.receiver_id;
    currency_id = row.currency_id;
    campaign_id = none;
    version = available.version;
    is_new_tx = false;
    reward_id = reward.reward_id;
  }

  abbrev pub count_campaign : AccessTrade → Option Campaign → JobAction (Unit {0})
  count_campaign tran none = pure tt
  count_campaign tran (some campaign) = modify (λ s. record s {
    campaigns =
        update_where (λ c. c.id == campaign.id)
          (λ c. record c {
            count_trans = c.count_trans + 1;
            total_commission = env.add c.total_commission tran.commission;
          })
          s.campaigns;
  })

  -- The amount of a transaction that is not confirmed becomes 0.
  abbrev pub restated : ℕ → CampaignTx → CampaignTx → CampaignTx
  restated status found row = record row {
    amount = pos 0;
    status = status;
    notes = found.notes ++ status ∷ [];
  }

  abbrev pub update_tx : ℕ → CampaignTx → JobAction (Unit {0})
  update_tx status found = modify (λ s. record s {
    cb_trans = update_where (λ row. row.id == found.id) (restated status found) s.cb_trans;
  })

  -- The batch that nobody waits for, with its notification.
  abbrev pub finish_tx : ℕ → CampaignTx → JobAction (Unit {0}) → JobAction (Unit {0})
  finish_tx status row bulk_ops =
      detached (atomically bulk_ops >> handle_notification row.receiver_id status row.id)

  -- `receiver.cbAvailable.find(…).version`
  abbrev pub balance_key : CampaignTx → JobDb → Option BalanceKey
  balance_key row s =
      find? (λ a. a.account_id == row.receiver_id && a.currency_id == row.currency_id) s.available

  abbrev pub confirm_tx :
      AccessTrade → CampaignTx → Option Campaign → DailyReward → JobAction (Unit {0})
  confirm_tx tran row campaign reward = do
    key ← gets (balance_key row)
    available ← or_raise key type_error
    env.wallet (confirm_payload tran row available reward)
    finish_tx tx_success row (count_campaign tran campaign)

  abbrev pub apply_status : AccessTrade → CampaignTx → ℕ → JobAction (Unit {0})
  apply_status tran row status = do
    campaign ← find_campaign tran.utm_campaign
    reward ← gets (reward_for tran row)
    if status == tx_success
        then confirm_tx tran row campaign reward
        else finish_tx status row (update_tx status row)

  -- `true` where the method returns.
  abbrev pub check_status : AccessTrade → CampaignTx → Option ℕ → JobAction Bool
  check_status tran row none = pure true
  check_status tran row (some status) = apply_status tran row status >> pure false

  abbrev pub check_row : AccessTrade → Option CampaignTx → JobAction Bool
  check_row tran none = pure true
  check_row tran (some row) = check_status tran row (new_status tran row)

  pub check_transaction : List CampaignTx → AccessTrade → JobAction Bool
  check_transaction cb_trans_pending tran =
      if tran.status == trade_hold
      then pure true
      else check_row tran (find? (is_product tran.transaction_id tran.product_id) cb_trans_pending)

  -- `for (const tran of transactions.data)`
  pub check_transactions : List CampaignTx → List AccessTrade → JobAction Bool
  check_transactions cb_trans_pending [] = pure false
  check_transactions cb_trans_pending (tran ∷ trans) = do
    returned ← check_transaction cb_trans_pending tran
    let rest = check_transactions cb_trans_pending trans
    if returned then pure true else rest

  -- An empty block has no first row to take the date from.
  abbrev pub check_block : List CampaignTx → Option (List AccessTrade) → JobAction Bool
  check_block [] answer = raise type_error
  check_block (row ∷ rows) answer = do
    trans ← or_raise answer type_error
    check_transactions (row ∷ rows) trans

  -- The blocks from `index` on; `answers` are AccessTrade's, `none` where the request fails.
  pub check_blocks : ℕ → ℕ → (ℕ → Option (List AccessTrade)) → JobAction Bool
  check_blocks zero index answers = pure false
  check_blocks (suc n) index answers = do
    rows ← gets (waiting_block index)
    returned ← check_block rows (answers index)
    let rest = check_blocks n (suc index) answers
    if returned then pure true else rest

  -- `checkStatusTransactionFromAccessTrade`
  pub check_status_transactions : Bool → (ℕ → Option (List AccessTrade)) → JobAction (Unit {0})
  check_status_transactions is_production answers = when is_production (
      caught do
        total ← gets (λ s. count_where is_waiting s.cb_trans)
        check_blocks (total_block total) 0 answers
        pure tt)
