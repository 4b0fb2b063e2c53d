-- ===== src/Campaigns/Pending.antt =====
-- What insertCbTransPending stores, and what it does not.
use system_chat.Base.{
  read_first, ℕ, ◌≤◌, ◌≡◌, ◌==◌, refl, Bool, true, false, ◌&&◌, Option, some, none, List, [], ◌∷◌,
  ℤ, pos, eqb_ℤ, arith, Keeps, Keeps-bind, then_keeps, atomically, ◌>>=◌, or_raise, find?,
  count_where, count_where-append, leb, Bool-cases, inl, inr,
}
use system_chat.Campaigns.{
  CampaignTx, Campaign, JobDb, JobEnv, JobAction, InsertOptions, TransactionRes, ExchangeRateSat,
  Referrer, is_product, exists_product, find_campaign, find_campaign_reads, handle_notification,
  create_commission, commission_for, process_cashback_for_partner, create_tx, create_job_campaign,
  held_tx, pending_batch, report_pending, type_error, pending_amount, pending_of_amount,
  insert_cb_trans_pending, insert_all_pending, get_transaction_on_hold, pending_status,
  partner_share,
}

-- No two transactions are of one product of one transaction of AccessTrade.
abbrev pub HasUniqueProducts : JobDb → Type 0
HasUniqueProducts s =
    (transaction_id product_id : ℕ)
    → count_where (is_product transaction_id product_id) s.cb_trans ≤ 1

create_tx-HasUniqueProducts :
    (row : CampaignTx) (s : JobDb)
    → count_where (is_product row.access_trade_id row.product_id) s.cb_trans ≡ 0
    → HasUniqueProducts s
    → HasUniqueProducts (create_tx row s).1
unfolding create_tx
create_tx-HasUniqueProducts row s new unique t p =
    ground (arith, count_where-append (is_product t p) row s.cb_trans, unique t p, new)

-- What leaves the transactions alone.
abbrev Leaves : {A : Type 0} → JobAction A → Type 0
Leaves m = (s : JobDb) → (m s).1.cb_trans ≡ s.cb_trans

commission_for-Leaves :
    (transaction_id total_value : ℕ) (commission : Option ℤ) (parent : Option Referrer)
    → Leaves (commission_for transaction_id total_value commission parent)
unfolding create_commission
commission_for-Leaves transaction_id total_value commission none s = refl
commission_for-Leaves transaction_id total_value none (some parent) s = refl
commission_for-Leaves transaction_id total_value (some value) (some parent) s = ground arith

partner-Leaves :
    (account_id transaction_id total_value : ℕ) (commission : Option ℤ)
    → Leaves (process_cashback_for_partner account_id transaction_id total_value commission)
unfolding process_cashback_for_partner
partner-Leaves account_id transaction_id total_value commission s =
    commission_for-Leaves transaction_id total_value commission
      (find? (λ row. row.referral_from == account_id && row.is_partner) s.referrers) s

Leaves-Keeps : {A : Type 0} (m : JobAction A) → Leaves m → Keeps HasUniqueProducts m
Leaves-Keeps m leaves s unique t p = rw (leaves s) (unique t p)

module _ (env : JobEnv) (currency_id rate_value until : ℕ) where
  report-Leaves :
      (options : InsertOptions) → Leaves (report_pending env currency_id rate_value until options)
  unfolding handle_notification
  report-Leaves options s =
      partner-Leaves options.transaction.utm_content options.job_id
        options.transaction.transaction_value (partner_share env options.transaction)
        (handle_notification options.transaction.utm_content
          (pending_status env currency_id rate_value until options.transaction) options.job_id s).1

  batch-HasUniqueProducts :
      (options : InsertOptions) (amount : ℤ) (campaign : Option Campaign) (s : JobDb)
      → exists_product options.transaction s ≡ false
      → HasUniqueProducts s
      → HasUniqueProducts
          (atomically (pending_batch env currency_id rate_value until options amount campaign) s).1
  unfolding create_tx create_job_campaign
  batch-HasUniqueProducts options amount campaign s new unique t p =
      let row = held_tx env currency_id rate_value until options amount in
      let none_yet : count_where (is_product row.access_trade_id row.product_id) s.cb_trans ≡ 0 =
        ground arith in
      ground (arith, count_where-append (is_product t p) row s.cb_trans, unique t p, none_yet)

  store_pending-HasUniqueProducts :
      (options : InsertOptions) (amount : Option ℤ) (campaign : Option Campaign) (s : JobDb)
      → exists_product options.transaction s ≡ false
      → HasUniqueProducts s
      → HasUniqueProducts
          (pending_of_amount env currency_id rate_value until options amount campaign s).1
  store_pending-HasUniqueProducts options none campaign s new unique = unique
  store_pending-HasUniqueProducts options (some amount) campaign s new unique =
      elim (Bool-cases (eqb_ℤ amount (pos 0))) [
        | inl zero_amount ↦ rw zero_amount unique
        | inr other ↦ rw other (
            then_keeps HasUniqueProducts
              (atomically (pending_batch env currency_id rate_value until options amount campaign))
              (λ _. report_pending env currency_id rate_value until options) s
              (batch-HasUniqueProducts options amount campaign s new unique)
              λ _.
                Leaves-Keeps (report_pending env currency_id rate_value until options)
                  (report-Leaves options))
      ]

  insert_pending-HasUniqueProducts :
      (options : InsertOptions)
      → Keeps HasUniqueProducts (insert_cb_trans_pending env currency_id rate_value until options)
  unfolding insert_cb_trans_pending
  insert_pending-HasUniqueProducts options s unique =
      elim (Bool-cases (exists_product options.transaction s)) [
        | inl old ↦ rw old unique
        | inr new ↦ rw new (
            read_first HasUniqueProducts s (find_campaign options.transaction.utm_campaign) _
              (find_campaign_reads options.transaction.utm_campaign s) unique
              λ campaign.
                elim (Bool-cases
                  (leb 1 (count_where (λ id. id == options.transaction.utm_content) s.accounts))) [
                    | inl known ↦ rw known (
                        store_pending-HasUniqueProducts options
                          (pending_amount env currency_id rate_value until options.transaction)
                          campaign s new unique)
                    | inr unknown ↦ rw unknown unique
                  ])
      ]

  insert_all-HasUniqueProducts :
      (list : List InsertOptions)
      → Keeps HasUniqueProducts (insert_all_pending env currency_id rate_value until list)
  unfolding insert_all_pending
  insert_all-HasUniqueProducts [] s unique = unique
  insert_all-HasUniqueProducts (options ∷ rest) s unique =
      Keeps-bind HasUniqueProducts
        (insert_cb_trans_pending env currency_id rate_value until options)
        (λ _. insert_all_pending env currency_id rate_value until rest)
        (insert_pending-HasUniqueProducts options) (λ _. insert_all-HasUniqueProducts rest) s unique

-- Whatever AccessTrade answers, in whatever order and however often it repeats a transaction, the
-- job for transactions on hold stores one row for each product of a transaction at most.
pub get_transaction_on_hold-HasUniqueProducts :
    (env : JobEnv) (is_production : Bool) (until : ℕ) (response : Option TransactionRes)
    (rate : Option ExchangeRateSat) (s : JobDb)
    → HasUniqueProducts s
    → HasUniqueProducts (get_transaction_on_hold env is_production until response rate s).1
unfolding get_transaction_on_hold
get_transaction_on_hold-HasUniqueProducts env false until response rate s unique = unique
get_transaction_on_hold-HasUniqueProducts env true until none rate s unique = unique
get_transaction_on_hold-HasUniqueProducts env true until (some res) rate s unique =
    elim (Bool-cases (res.total == 0)) [
      | inl empty ↦ rw empty unique
      | inr full ↦ rw full (inserted rate)
    ]
  where
    inserted :
        (rate : Option ExchangeRateSat)
        → HasUniqueProducts
            ((or_raise rate type_error >>= λ exchange.
                insert_all_pending env exchange.currency_id exchange.rate_value until
                  res.transactions)
              s).1
    inserted none = unique
    inserted (some exchange) =
        insert_all-HasUniqueProducts env exchange.currency_id exchange.rate_value until
          res.transactions s unique
