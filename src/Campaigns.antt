-- ===== src/Campaigns.antt =====
-- apps/cronjob/src/access-trade.job.ts: the transactions of AccessTrade become cashback.
mod Rows
pub mod Pending
pub mod Partners
pub mod Wheel
pub mod Check
mod Tests
pub use Rows.*
use system_chat.Base.{
  ◌≡◌, refl, ℕ, ◌+◌, ◌*◌, ◌==◌, Bool, true, false, not, ◌&&◌, ◌||◌, Option, some, none, List, [],
  ◌∷◌, ◌++◌, ℤ, pos, ◌+ℤ◌, eqb_ℤ, Result, ok, err, Effect, pure, raise, gets, modify, or_raise,
  raise_if, when, atomically, ◌>>=◌, ◌>>◌, if◌then◌else◌, find?, count_where, update_where, leb,
  length,
}

-- `CASHBACK_STATUS.PROCESSING` and `APPROVED`
abbrev pub tx_processing : ℕ
tx_processing = 1

abbrev pub tx_success : ℕ
tx_success = 2

abbrev pub tx_rejected : ℕ
tx_rejected = 4

abbrev pub tx_approved : ℕ
tx_approved = 5

-- `ACCESS_TRADE_TRANS_STATUS`
abbrev pub trade_hold : ℕ
trade_hold = 0

abbrev pub trade_approved : ℕ
trade_approved = 1

abbrev pub trade_rejected : ℕ
trade_rejected = 2

-- The rows that `checkCbTransExist` is true of.
abbrev pub is_product : ℕ → ℕ → CampaignTx → Bool
is_product transaction_id product_id row =
    row.access_trade_id == transaction_id && row.product_id == product_id

abbrev pub exists_product : AccessTrade → JobDb → Bool
exists_product transaction s =
    leb 1 (count_where (is_product transaction.transaction_id transaction.product_id) s.cb_trans)

-- `getCampaign().findUnique`; none is a key that is absent or empty, with which the query throws.
abbrev pub find_campaign : Option ℕ → JobAction (Option Campaign)
find_campaign campaign = or_raise campaign bad_query >>= λ campaign_id.
    gets (λ s. find? (λ campaign. campaign.id == campaign_id) s.campaigns)

pub find_campaign_reads : (campaign : Option ℕ) (s : JobDb) → (find_campaign campaign s).1 ≡ s
find_campaign_reads none s = refl
find_campaign_reads (some id) s = refl

-- A promise that nobody waits for: its error reaches nobody.
abbrev pub detached : {A : Type 0} → JobAction A → JobAction (Unit {0})
detached m s = (ok tt, (m s).1)

-- `handleNotification`
pub handle_notification : ℕ → ℕ → ℕ → JobAction (Unit {0})
handle_notification account_id status ref = modify (λ s. record s {
  notices = s.notices ++ (record { account_id = account_id; status = status; ref = ref }) ∷ [];
})

-- `getAccountPartnerCommission().create`: the transaction must be there, and has one commission.
pub create_commission : PartnerCommission → JobAction (Unit {0})
create_commission row s =
    if leb 1 (count_where (λ tx. tx.id == row.transaction_id) s.cb_trans)
      && count_where (λ c. c.transaction_id == row.transaction_id) s.commissions == 0
    then (ok tt, record s { commissions = s.commissions ++ row ∷ [] })
    else (err row_refused, s)

abbrev pub commission_for : ℕ → ℕ → Option ℤ → Option Referrer → JobAction (Unit {0})
commission_for transaction_id total_value commission none = pure tt
commission_for transaction_id total_value commission (some parent) = do
  value ← or_raise commission bad_number
  create_commission (record {
    account_id = parent.referral_by;
    transaction_id = transaction_id;
    total_value = total_value;
    commission = value;
  })

-- `processCashbackForPartner`
pub process_cashback_for_partner : ℕ → ℕ → ℕ → Option ℤ → JobAction (Unit {0})
process_cashback_for_partner referral_from transaction_id total_value commission = do
  parent ←
      gets (λ s. find? (λ row. row.referral_from == referral_from && row.is_partner) s.referrers)
  commission_for transaction_id total_value commission parent

abbrev pub has_campaign : Option ℕ → JobDb → Bool
has_campaign none s = true
has_campaign (some campaign_id) s =
    leb 1 (count_where (λ campaign. campaign.id == campaign_id) s.campaigns)

-- `getCbTrans().create`: its id is new, and the campaign that it names is there.
pub create_tx : CampaignTx → JobAction (Unit {0})
create_tx row s =
    if count_where (λ tx. tx.id == row.id) s.cb_trans == 0 && has_campaign row.campaign_id s
    then (ok tt, record s { cb_trans = s.cb_trans ++ row ∷ [] })
    else (err row_refused, s)

pub create_job_campaign : JobCampaign → JobAction (Unit {0})
create_job_campaign row = modify (λ s. record s { job_campaigns = s.job_campaigns ++ row ∷ [] })

abbrev pub found_id : Option Campaign → Option ℕ
found_id none = none
found_id (some campaign) = some campaign.id

-- `transaction.commission * configAmount`
abbrev pub commission_valid : JobEnv → AccessTrade → ℕ
commission_valid env transaction = env.times transaction.commission env.config_amount

-- The share of the partner: `Math.round(transaction.commission - commissionValid)`
abbrev pub partner_share : JobEnv → AccessTrade → Option ℤ
partner_share env transaction =
    env.round (env.minus transaction.commission (commission_valid env transaction))

module _ (env : JobEnv) (currency_id rate_value until : ℕ) where
  abbrev pub pending_status : AccessTrade → ℕ
  pending_status transaction =
      if transaction.status == trade_approved then tx_approved else tx_processing

  abbrev pub pending_amount : AccessTrade → Option ℤ
  pending_amount transaction = env.round (env.over (commission_valid env transaction) rate_value)

  abbrev pub held_tx : InsertOptions → ℤ → CampaignTx
  held_tx options amount = record {
    id = options.tx_id;
    amount = amount;
    status = pending_status options.transaction;
    currency_id = currency_id;
    receiver_id = options.transaction.utm_content;
    campaign_id = options.transaction.utm_campaign;
    access_trade_id = options.transaction.transaction_id;
    product_id = options.transaction.product_id;
    created_at = options.transaction.transaction_time;
    notes = pending_status options.transaction ∷ [];
  }

  abbrev pub pending_batch : InsertOptions → ℤ → Option Campaign → JobAction (Unit {0})
  pending_batch options amount campaign =
      create_tx (held_tx options amount)
      >> create_job_campaign (record {
        id = options.job_id;
        account_id = options.transaction.utm_content;
        campaign_id = found_id campaign;
        created_at = until;
      })

  -- What follows the batch: `res[1]` is the history of the job, not the transaction.
  abbrev pub report_pending : InsertOptions → JobAction (Unit {0})
  report_pending options =
      detached (
        handle_notification options.transaction.utm_content (pending_status options.transaction)
          options.job_id)
      >> detached (
          process_cashback_for_partner options.transaction.utm_content options.job_id
            options.transaction.transaction_value (partner_share env options.transaction))

  abbrev pub store_pending : InsertOptions → ℤ → Option Campaign → JobAction (Unit {0})
  store_pending options amount campaign =
      atomically (pending_batch options amount campaign) >> report_pending options

  -- `if (amount === 0) return`; NaN goes on to the query, which refuses it.
  abbrev pub pending_of_amount : InsertOptions → Option ℤ → Option Campaign → JobAction (Unit {0})
  pending_of_amount options none campaign = raise bad_number
  pending_of_amount options (some amount) campaign =
      when (not (eqb_ℤ amount (pos 0))) (store_pending options amount campaign)

  -- `insertCbTransPending`
  pub insert_cb_trans_pending : InsertOptions → JobAction (Unit {0})
  insert_cb_trans_pending options = do
    exists ← gets (exists_product options.transaction)
    when (not exists) do
      account ←
          gets (λ s. leb 1 (count_where (λ id. id == options.transaction.utm_content) s.accounts))
      campaign ← find_campaign options.transaction.utm_campaign
      when account (pending_of_amount options (pending_amount options.transaction) campaign)

  pub insert_all_pending : List InsertOptions → JobAction (Unit {0})
  insert_all_pending [] = pure tt
  insert_all_pending (options ∷ rest) = insert_cb_trans_pending options >> insert_all_pending rest

-- `getExchangeRateSAT`: the smaller price, if the service has one, and the currency.
pub record ExchangeRateSat : Type 0 where
  pub rate_value : ℕ
  pub currency_id : ℕ

-- `try { … } catch { log }`
abbrev pub caught : JobAction (Unit {0}) → JobAction (Unit {0})
caught m s = (ok tt, (m s).1)

-- `getTransactionFromAccessTradeOnHold`. `response` is what AccessTrade answers, `none` where the
-- request fails.
pub get_transaction_on_hold :
    JobEnv → Bool → ℕ → Option TransactionRes → Option ExchangeRateSat → JobAction (Unit {0})
get_transaction_on_hold env is_production until response rate = when is_production (
    caught do
      res ← or_raise response type_error
      when (not (res.total == 0)) do
        exchange ← or_raise rate type_error
        insert_all_pending env exchange.currency_id exchange.rate_value until res.transactions)
