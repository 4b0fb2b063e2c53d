-- ===== src/Wallet/Version.antt =====
-- The test of the version in updateBalance, where calls do not overlap.
use system_chat.Base.{
  ℕ, ◌≢◌, false, Bool, Option-cases, inl, inr, Option, some, ℤ, err, arith, find?,
}
use system_chat.Wallet.{
  CashbackTx, ActionType, increment, has_key, Prisma, WalletDb, lock_version_mismatch,
  insert_cashback_transaction, create_cb_trans, create_broker, update_balance, increase_balance,
  create_referral, account_referral, update_partner, user_deposit, handle, Message,
  user_deposit_message, none_account_referral, account_referral_message,
}
use system_chat.Wallet.Balance.{update_balance_absent, update_balance_missing, update_balance_found}

module _ (prisma : Prisma) where
  update_balance-ne-lock :
      (amount : ℤ) (account : Option ℕ) (currency_id version : ℕ) (type : ActionType) (s : WalletDb)
      → (update_balance prisma amount account currency_id version type s).0
        ≢ err lock_version_mismatch
  update_balance-ne-lock amount account c v type s = elim (Option-cases account) [
    | inl absent ↦ ground (arith, update_balance_absent prisma amount account c v type s absent)
    | inr (a, to) ↦ elim (Option-cases (find? (has_key a c v) s.cb_available)) [
      | inl missing ↦
          ground (arith, update_balance_missing prisma amount account c v type a s to missing)
      | inr (ca, e) ↦
          ground (arith, update_balance_found prisma amount account c v type a ca s to e)
    ]
  ]

  increase_balance-ne-lock :
      (now : ℕ) (tx : CashbackTx) (version : ℕ) (broker : Bool) (s : WalletDb)
      → (increase_balance prisma now tx version broker s).0 ≢ err lock_version_mismatch
  unfolding increase_balance insert_cashback_transaction create_cb_trans create_broker
  increase_balance-ne-lock now tx version broker s =
      ground
        (arith, update_balance-ne-lock tx.amount tx.receiver_id tx.currency_id version increment s)

  -- The error for a lost race on the version is never thrown where calls do not overlap.
  pub handle-ne-lock_version_mismatch :
      (m : Message) (s : WalletDb) → (handle prisma m s).0 ≢ some lock_version_mismatch
  unfolding handle account_referral create_referral user_deposit update_partner
  handle-ne-lock_version_mismatch (none_account_referral now input) s =
      ground (arith, increase_balance-ne-lock now input.cb_transaction input.version false s)
  handle-ne-lock_version_mismatch (account_referral_message now_by now_from input) s = ground (
    arith,
    increase_balance-ne-lock now_by input.cb_transaction_by input.version_by false s,
    increase_balance-ne-lock now_from input.cb_transaction_from input.version_from false
        (increase_balance prisma now_by input.cb_transaction_by input.version_by false s).1,
  )
  handle-ne-lock_version_mismatch (user_deposit_message now now_increase input) s =
      ground
        (arith, increase_balance-ne-lock now_increase input.cb_transaction input.version false s)
