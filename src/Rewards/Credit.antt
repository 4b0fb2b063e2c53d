-- ===== src/Rewards/Credit.antt =====
-- The reward of a new account and its balance.
use system_chat.Base.{
  ℕ, ◌≡◌, refl, ◌==◌, Bool, true, false, Option, some, List, [], ◌∷◌, ◌++◌, ◌+ℤ◌, ok, arith, find?,
}
use system_chat.Wallet.{
  CashbackTx, CbAvailable, has_key, increment, Prisma, WalletDb, create_cb_trans, increase_balance,
  insert_cashback_transaction,
}
use system_chat.Wallet.Balance.{balance_of, stamped, written, increase_balance_found}
use system_chat.Wallet.Deposit.{increase_balance_credits}
use system_chat.Rewards.{
  Coin, Commission, RewardDb, RewardStep, satoshi, reward_amount, is_free, reward_tx, batch,
  send_reward, reward_new_account,
}

-- The transactions after the batch: where KYC is needed, one that waits for it is stored.
abbrev pub batched_txs : Bool → CashbackTx → List CashbackTx → List CashbackTx
batched_txs true tx txs = txs
batched_txs false tx txs = txs ++ tx ∷ []

abbrev batched : Bool → ℕ → CashbackTx → RewardDb → RewardDb
batched free account_id tx b = record b {
  notices = record { account_id = account_id; type = 11 } ∷ b.notices;
  wallet = record b.wallet { cb_trans = batched_txs free tx b.wallet.cb_trans };
}

module _ (prisma : Prisma)
    (takes : (tx : CashbackTx) (w : WalletDb) → prisma.takes_cb_trans tx w ≡ true) where
  batch_done :
      (free : Bool) (account_id : ℕ) (bulk_ops : RewardStep (Unit {0})) (tx : CashbackTx)
      (s b : RewardDb)
      → bulk_ops s ≡ (ok tt, b)
      → batch prisma free account_id bulk_ops tx s ≡ (ok tt, batched free account_id tx b)
  unfolding create_cb_trans
  batch_done true account_id bulk_ops tx s b bulk = ground (arith, bulk)
  batch_done false account_id bulk_ops tx s b bulk =
      let taken = takes tx b.wallet in ground (arith, bulk, taken)

  reward_new_account_sends :
      (now account_id : ℕ) (bulk_ops : RewardStep (Unit {0})) (coin : Coin) (s b : RewardDb)
      → find? (λ coin. coin.code == satoshi) s.coins ≡ some coin
      → bulk_ops s ≡ (ok tt, b)
      → reward_new_account prisma now account_id bulk_ops s
        ≡ send_reward prisma now
            (reward_tx account_id coin.id (find? (λ config. true) s.commissions))
            (batched
              (is_free (find? (λ config. true) s.commissions))
              account_id
              (reward_tx account_id coin.id (find? (λ config. true) s.commissions))
              b)
  unfolding reward_new_account
  reward_new_account_sends now account_id bulk_ops coin s b has_coin bulk =
      let config = find? (λ (config : Commission). true) s.commissions in
      let done =
        batch_done (is_free config) account_id bulk_ops (reward_tx account_id coin.id config) s b
          bulk in
      rw has_coin (rw done refl)

  increase_balance_taken :
      (now : ℕ) (tx : CashbackTx) (receiver : ℕ) (ca : CbAvailable) (w : WalletDb)
      → tx.receiver_id ≡ some receiver
      → find? (has_key receiver tx.currency_id 1) w.cb_available ≡ some ca
      → (increase_balance prisma now tx 1 false w).0 ≡ ok (stamped now ca.amount tx)
        × ((increase_balance prisma now tx 1 false w).1.cb_trans
            ≡ w.cb_trans ++ stamped now ca.amount tx ∷ [])
  unfolding insert_cashback_transaction create_cb_trans
  increase_balance_taken now tx receiver ca w to e =
      let found = increase_balance_found prisma now tx 1 false receiver ca w to e in
      let taken =
        takes (stamped now ca.amount tx)
          (written prisma tx.amount receiver tx.currency_id 1 increment ca w) in
      ground (arith, found, taken)

  -- A new account is credited with its reward at once, whether or not the configuration asks for
  -- KYC first; where it does, the transaction that waits is stored, and a second one with it.
  pub reward_new_account_credits :
      (now account_id : ℕ) (bulk_ops : RewardStep (Unit {0})) (coin : Coin)
      (config : Option Commission) (ca : CbAvailable) (s b : RewardDb)
      → find? (λ coin. coin.code == satoshi) s.coins ≡ some coin
      → find? (λ config. true) s.commissions ≡ config
      → bulk_ops s ≡ (ok tt, b)
      → find? (has_key account_id coin.id 1) b.wallet.cb_available ≡ some ca
      → (balance_of account_id coin.id 1
            (reward_new_account prisma now account_id bulk_ops s).1.wallet
          ≡ some (ca.amount +ℤ reward_amount config))
        × ((reward_new_account prisma now account_id bulk_ops s).1.wallet.cb_trans
            ≡ batched_txs (is_free config) (reward_tx account_id coin.id config) b.wallet.cb_trans
              ++ stamped now ca.amount (reward_tx account_id coin.id config) ∷ [])
  unfolding send_reward
  reward_new_account_credits now account_id bulk_ops coin config ca s b has_coin has_config bulk
        row =
      let tx = reward_tx account_id coin.id config in
      let w = (batched (is_free config) account_id tx b).wallet in
      let credit =
        increase_balance_credits prisma now tx 1 false account_id ca w account_id coin.id 1 refl
          row in
      let stored = increase_balance_taken now tx account_id ca w refl row in
      rw (reward_new_account_sends now account_id bulk_ops coin s b has_coin bulk)
        (rw has_config (ground (arith, credit, row), stored.1))
