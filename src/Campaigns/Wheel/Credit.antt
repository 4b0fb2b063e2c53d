-- ===== src/Campaigns/Wheel/Credit.antt =====
-- What a confirmed transaction credits.
use system_chat.Base.{
  read_first, ℕ, ◌≡◌, ◌==◌, refl, ◌&&◌, Option, some, none, ℤ, err, find?, Bool-cases, Option-cases,
  inl, inr,
}
use system_chat.Campaigns.{
  JobDb, JobEnv, ApprovePayload, BalanceKey, Campaign, InsertOptions, no_handler, exists_product,
  find_campaign, find_campaign_reads, commission_valid,
}
use system_chat.Campaigns.Wheel.{
  find_newest, is_open_reward, no_reward, get_reward_daily, success_with, plus_value,
  insert_cb_trans_success, send_success, success_payload,
}

module _ (env : JobEnv)
    (refuses : (payload : ApprovePayload) (s : JobDb)
      → payload.amount ≡ none
      → env.wallet payload s ≡ (err no_handler, s))
    (currency_id rate_value until : ℕ) (options : InsertOptions) where
  nothing_plus : (a : Option ℤ) → plus_value env a none ≡ none
  nothing_plus none = refl
  nothing_plus (some a) = refl

  refused :
      (amount : Option ℤ) (campaign : Option Campaign) (available : BalanceKey) (s : JobDb)
      → amount ≡ none
      → (send_success env currency_id until options amount campaign available no_reward s).1 ≡ s
  refused amount campaign available s e =
      rw
        (refuses
          (success_payload env currency_id options.transaction options.tx_id amount available
            no_reward)
          s e)
        refl

  unrewarded :
      (campaign : Option Campaign) (available : BalanceKey) (s : JobDb)
      → (success_with env currency_id rate_value until options campaign available no_reward s).1 ≡ s
  unrewarded campaign available s =
      let share = env.round (env.over (commission_valid env options.transaction) rate_value) in
      rw (nothing_plus share) (refused none campaign available s refl)

  -- A confirmed transaction of an account that has no open reward of the lucky wheel credits nothing
  -- and leaves no trace: its amount is a number plus undefined. It is assumed that the wallet service
  -- refuses a payload with no amount.
  pub insert_success_unrewarded :
      (s : JobDb)
      → find_newest (is_open_reward options.transaction.utm_content) s.wheels ≡ none
      → (insert_cb_trans_success env currency_id rate_value until options s).1 ≡ s
  unfolding insert_cb_trans_success get_reward_daily
  insert_success_unrewarded s closed = elim (Bool-cases (exists_product options.transaction s)) [
    | inl old ↦ rw old refl
    | inr new ↦ rw new (
        read_first (λ t. t ≡ s) s (find_campaign options.transaction.utm_campaign) _
          (find_campaign_reads options.transaction.utm_campaign s) refl
          λ campaign.
            elim (Option-cases (
              find?
                (λ row.
                  row.account_id == options.transaction.utm_content
                  && row.currency_id == currency_id)
                s.available)) [
                  | inl missing ↦ rw missing refl
                  | inr (available, known) ↦ rw (known, closed) (unrewarded campaign available s)
                ])
  ]
