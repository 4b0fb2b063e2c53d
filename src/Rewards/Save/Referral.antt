-- ===== src/Rewards/Save/Referral.antt =====
-- What saveAccount leaves for a new account that was referred, with and without KYC, and for one
-- that was not.
use system_chat.Base.{
  ℕ, ◌≡◌, refl, ap, ◌∙◌, ◌==◌, true, false, Bool-cases, inl, inr, Option, some, none, List, [], ◌∷◌,
  ◌++◌, pos, ◌+ℤ◌, ok, arith, find?, select_where, count_where, Option-cases,
}
use system_chat.Wallet.{
  CbAvailable, CashbackTx, AccountReferral, has_key, Prisma, WalletDb, create_cb_trans,
  create_referral,
}
use system_chat.Wallet.Balance.{balance_of, stamped}
use system_chat.Rewards.{Coin, Commission, RewardDb, satoshi, reward_amount, is_free, reward_tx}
use system_chat.Rewards.Credit.{batched_txs, reward_new_account_credits}
use system_chat.Rewards.Save.{
  SaveCall, info_of, version_in, amount_from, amount_by, referral_tx, count_referral, bulk_ops,
  insert_account_referral, save_account,
}
use system_chat.Rewards.Save.Balances.{
  IsDistinct, select_where-IsDistinct, HasNone-no_rows, opened, opened_row, opened_others, saved,
  bulk_ops_lem,
}

abbrev active : RewardDb → List Coin
active s = select_where (λ coin. coin.status == 1) s.coins

known_count :
    (account_id : ℕ) (accounts : List ℕ)
    → find? (λ id. id == account_id) accounts ≡ some account_id
    → (count_where (λ id. id == account_id) accounts == 0) ≡ false
known_count account_id [] h = absurd (ground (arith, h))
known_count account_id (id ∷ accounts) h = elim (Bool-cases (id == account_id)) [
  | inl here ↦ ground (arith, here)
  | inr later ↦ ground (arith, later, known_count account_id accounts (ground (arith, h, later)))
]

no_rows :
    (account_id : ℕ) (rows : List CbAvailable)
    → count_where (λ row. row.account_id == account_id) rows ≡ 0
    → select_where (λ row. row.account_id == account_id) rows ≡ []
unfolding select_where
no_rows account_id [] h = refl
no_rows account_id (row ∷ rows) h = ground (arith, h, no_rows account_id rows)

-- An account without balances has no version to send.
no_version :
    (account_id currency_id : ℕ) (s : RewardDb)
    → count_where (λ row. row.account_id == account_id) s.wallet.cb_available ≡ 0
    → version_in currency_id (info_of account_id s) ≡ none
no_version account_id currency_id s h =
    elim (Option-cases (find? (λ id. id == account_id) s.accounts)) [
      | inl missing ↦ rw missing refl
      | inr (id, known) ↦ rw known (rw (no_rows account_id s.wallet.cb_available h) refl)
    ]

abbrev referred_wallet : SaveCall → ℕ → ℕ → ℕ → Option Commission → WalletDb → WalletDb
referred_wallet call by from currency_id config w = record w {
  referrals = w.referrals ++ record { referral_from = from; referral_by = by; created_at = 0 } ∷ [];
  cb_trans =
      (w.cb_trans ++ referral_tx (amount_from call config) by from currency_id config ∷ [])
      ++ referral_tx (amount_by call config) from by currency_id config ∷ [];
}

module _ (prisma : Prisma) (call : SaveCall) where
  -- Where the newest configuration asks for no KYC, saving a new account that was referred and has
  -- no balance yet answers true and writes nothing: no balance, no wheel, no referral, no reward.
  pub save_account_referred_without_kyc :
      (account_id by : ℕ) (config : Commission) (s : RewardDb)
      → find? (λ config. true) s.commissions ≡ some config
      → config.need_kyc ≡ false
      → count_where (λ row. row.account_id == account_id) s.wallet.cb_available ≡ 0
      → save_account prisma call (record { id = account_id; referral_by = some by }) s
        ≡ (ok true, s)
  unfolding save_account insert_account_referral
  save_account_referred_without_kyc account_id by config s has_config free fresh =
      elim (Option-cases (find? (λ coin. coin.code == satoshi) s.coins)) [
        | inl missing ↦ rw missing refl
        | inr (coin, found) ↦
            rw found (rw has_config (rw free (rw (no_version account_id coin.id s fresh) refl)))
      ]

  module _ (account_id : ℕ) (coin : Coin) (s : RewardDb)
      (has_coin : find? (λ coin. coin.code == satoshi) s.coins ≡ some coin)
      (account : find? (λ id. id == account_id) s.accounts ≡ some account_id)
      (distinct : IsDistinct s.coins)
      (fresh : count_where (λ row. row.account_id == account_id) s.wallet.cb_available ≡ 0) where
    bulk :
        bulk_ops prisma call account_id (active s) s
        ≡ (ok tt, saved prisma call account_id (active s) s)
    bulk =
        bulk_ops_lem prisma call account_id (active s) s (known_count account_id s.accounts account)
          (select_where-IsDistinct (λ coin. coin.status == 1) s.coins distinct)
          (HasNone-no_rows account_id (active s) s.wallet fresh)

    balance :
        (currency_id : ℕ) (c : Coin)
        → find? (λ coin. coin.id == currency_id) (active s) ≡ some c
        → (row : CbAvailable) × (find?
              (has_key account_id currency_id 1)
              (opened prisma call account_id (active s) s.wallet).cb_available
            ≡ some row)
          × (row.amount ≡ pos 0)
    balance currency_id c found =
        opened_row prisma call account_id c currency_id (active s) s.wallet
          (select_where-IsDistinct (λ coin. coin.status == 1) s.coins distinct)
          (HasNone-no_rows account_id (active s) s.wallet fresh) found

    abbrev referred : ℕ → Option Commission → RewardDb → RewardDb
    referred by config b = count_referral by (record b {
      wallet = referred_wallet call by account_id coin.id config b.wallet;
      notices =
          record { account_id = by; type = 5 }
          ∷ record { account_id = account_id; type = 4 }
          ∷ b.notices;
    })

    insert_done :
        (by : ℕ)
        → ((tx : CashbackTx) (w : WalletDb) → prisma.takes_cb_trans tx w ≡ true)
        → ((r : AccountReferral) (w : WalletDb) → prisma.takes_referral r w ≡ true)
        → find? (λ id. id == by) s.accounts ≡ some by
        → is_free (find? (λ config. true) s.commissions) ≡ false
        → insert_account_referral prisma call by account_id
            (bulk_ops prisma call account_id (active s))
            s
          ≡ (
            ok tt,
            referred by
                (find? (λ config. true) s.commissions)
                (saved prisma call account_id (active s) s),
          )
    unfolding insert_account_referral create_cb_trans create_referral
    insert_done by takes takes_referral referrer waits = rw has_coin (
        rw waits (
          rw referrer (
            rw account (rw bulk (rw (takes_referral _ _) (rw (takes _ _) (rw (takes _ _) refl)))))))

    -- A new account that was not referred gets its balances before its reward: where the
    -- database takes the transactions and Satoshi is active, the balance in Satoshi is the reward.
    pub save_account_rewards :
        ((tx : CashbackTx) (w : WalletDb) → prisma.takes_cb_trans tx w ≡ true)
        → find? (λ c. c.id == coin.id) (active s) ≡ some coin
        → let s' =
            (save_account prisma call (record { id = account_id; referral_by = none }) s).1 in
          let config = find? (λ config. true) s.commissions in
          (balance_of account_id coin.id 1 s'.wallet ≡ some (pos 0 +ℤ reward_amount config))
          × (s'.wallet.cb_trans
              ≡ batched_txs (is_free config) (reward_tx account_id coin.id config) s.wallet.cb_trans
                ++ stamped call.now (pos 0) (reward_tx account_id coin.id config) ∷ [])
    unfolding save_account
    save_account_rewards takes satoshi_active =
        let config = find? (λ (config : Commission). true) s.commissions in
        let (row, found, zero) = balance coin.id coin satoshi_active in
        let rewarded =
          reward_new_account_credits prisma takes call.now account_id
            (bulk_ops prisma call account_id (active s)) coin config row s
            (saved prisma call account_id (active s) s) has_coin refl bulk found in
        let before = (opened_others prisma call account_id (active s) s.wallet).0 in
        (
          rewarded.0 ∙ ap (λ amount. some (amount +ℤ reward_amount config)) zero,
          rewarded.1 ∙ rw before (rw zero refl),
        )

    -- A new account that was referred, where KYC is needed: any active coin has a balance of 0, and
    -- the referral and its two transactions wait for KYC, if the database takes them.
    pub save_account_referred_with_kyc :
        (by currency_id : ℕ) (c : Coin)
        → find? (λ coin. coin.id == currency_id) (active s) ≡ some c
        → ((tx : CashbackTx) (w : WalletDb) → prisma.takes_cb_trans tx w ≡ true)
        → ((r : AccountReferral) (w : WalletDb) → prisma.takes_referral r w ≡ true)
        → find? (λ id. id == by) s.accounts ≡ some by
        → is_free (find? (λ config. true) s.commissions) ≡ false
        → let s' =
            (save_account prisma call (record { id = account_id; referral_by = some by }) s).1 in
          let config = find? (λ config. true) s.commissions in
          (balance_of account_id currency_id 1 s'.wallet ≡ some (pos 0))
          × (s'.wallet.referrals
              ≡ s.wallet.referrals
                ++ (record { referral_from = account_id; referral_by = by; created_at = 0 }) ∷ [])
          × (s'.wallet.cb_trans
              ≡ (s.wallet.cb_trans
                  ++ referral_tx (amount_from call config) by account_id coin.id config ∷ [])
                ++ referral_tx (amount_by call config) account_id by coin.id config ∷ [])
    unfolding save_account
    save_account_referred_with_kyc by currency_id c found takes takes_referral referrer waits =
        let config = find? (λ (config : Commission). true) s.commissions in
        let (trans, referrals) = opened_others prisma call account_id (active s) s.wallet in
        let (row, has_row, zero) = balance currency_id c found in
        let inserted = insert_done by takes takes_referral referrer waits in
        rw inserted (rw has_row (ap some zero), rw referrals refl, rw trans refl)
