-- ===== src/Campaigns/Partners.antt =====
-- The share of the partner who brought an account.
use system_chat.Base.{
  read_first, ℕ, ◌≡◌, ◌==◌, refl, false, ◌&&◌, Option, some, none, [], ◌∷◌, ◌++◌, ℤ, pos, eqb_ℤ,
  arith, find?, count_where, count_where-append, leb, Bool-cases, inl, inr,
}
use system_chat.Campaigns.{
  Campaign, JobDb, JobEnv, InsertOptions, Referrer, exists_product, found_id, JobCampaign,
  find_campaign, find_campaign_reads, has_campaign, handle_notification, create_commission,
  commission_for, process_cashback_for_partner, create_tx, create_job_campaign, held_tx,
  report_pending, pending_amount, store_pending, pending_of_amount, insert_cb_trans_pending,
  pending_status, partner_share,
}

-- No transaction has this id.
abbrev pub IsUnused : ℕ → JobDb → Type 0
IsUnused id s = count_where (λ tx. tx.id == id) s.cb_trans ≡ 0

commission_refused :
    (id total_value : ℕ) (commission : Option ℤ) (parent : Option Referrer) (s : JobDb)
    → IsUnused id s
    → (commission_for id total_value commission parent s).1 ≡ s
unfolding create_commission
commission_refused id total_value commission none s unused = refl
commission_refused id total_value none (some parent) s unused = refl
commission_refused id total_value (some value) (some parent) s unused = rw unused refl

module _ (env : JobEnv) (currency_id rate_value until : ℕ) (options : InsertOptions) where
  report_refused :
      (s : JobDb)
      → IsUnused options.job_id s
      → (report_pending env currency_id rate_value until options s).1.commissions ≡ s.commissions
  unfolding handle_notification process_cashback_for_partner
  report_refused s unused =
      rw
        (commission_refused options.job_id options.transaction.transaction_value
          (partner_share env options.transaction)
          (find? (λ row. row.referral_from == options.transaction.utm_content && row.is_partner)
            s.referrers)
          (handle_notification options.transaction.utm_content
            (pending_status env currency_id rate_value until options.transaction) options.job_id
            s).1
          unused)
        refl

  store_refused :
      (amount : ℤ) (campaign : Option Campaign) (s : JobDb)
      → IsUnused options.job_id s
      → (options.tx_id == options.job_id) ≡ false
      → (store_pending env currency_id rate_value until options amount campaign s).1.commissions
        ≡ s.commissions
  unfolding create_tx create_job_campaign
  store_refused amount campaign s unused other =
      let row = held_tx env currency_id rate_value until options amount in
      let job : JobCampaign = record {
        id = options.job_id;
        account_id = options.transaction.utm_content;
        campaign_id = found_id campaign;
        created_at = until;
      } in
      elim (Bool-cases
        (count_where (λ tx. tx.id == row.id) s.cb_trans == 0 && has_campaign row.campaign_id s)) [
          | inl taken ↦ rw taken (
              report_refused
                (record s {
                  cb_trans = s.cb_trans ++ row ∷ [];
                  job_campaigns = s.job_campaigns ++ job ∷ [];
                })
                (ground (arith, count_where-append (λ tx. tx.id == options.job_id) row s.cb_trans)))
          | inr refused ↦ rw refused refl
        ]

  -- insertCbTransPending never records the share of the partner who brought the account: it names
  -- the transaction by the id of the job's history. It is assumed that this id is not also the id
  -- of a transaction.
  pub insert_pending_partner :
      (s : JobDb)
      → IsUnused options.job_id s
      → (options.tx_id == options.job_id) ≡ false
      → (insert_cb_trans_pending env currency_id rate_value until options s).1.commissions
        ≡ s.commissions
  unfolding insert_cb_trans_pending
  insert_pending_partner s unused other = elim (Bool-cases (exists_product options.transaction s)) [
    | inl old ↦ rw old refl
    | inr new ↦ rw new (
        read_first (λ t. t.commissions ≡ s.commissions) s
          (find_campaign options.transaction.utm_campaign) _
          (find_campaign_reads options.transaction.utm_campaign s) refl
          λ campaign.
            elim (Bool-cases
              (leb 1 (count_where (λ id. id == options.transaction.utm_content) s.accounts))) [
                | inl known ↦ rw known (
                    of_amount (pending_amount env currency_id rate_value until options.transaction)
                      campaign)
                | inr unknown ↦ rw unknown refl
              ])
  ]
    where
      of_amount :
          (amount : Option ℤ) (campaign : Option Campaign)
          → (pending_of_amount env currency_id rate_value until options amount campaign
              s).1.commissions
            ≡ s.commissions
      of_amount none campaign = refl
      of_amount (some amount) campaign = elim (Bool-cases (eqb_ℤ amount (pos 0))) [
        | inl zero_amount ↦ rw zero_amount refl
        | inr some_amount ↦ rw some_amount (store_refused amount campaign s unused other)
      ]
