-- ===== src/Wallet/Calls.antt =====
-- Every method of `WalletService` keeps the ledger consistent, however it ends, and so does every
-- sequence of messages that apps/wallet/src/wallet.controller.ts handles.
use system_chat.Base.{
  ℕ, ◌≡◌, refl, false, Bool, Option-cases, inl, inr, Option, List, [], ◌∷◌, ℤ, arith, find?, Keeps,
  Keeps-bind, Keeps-atomically, Keeps-transaction, Keeps-via_tx, Keeps-via_repo, IsFit, atomically,
  via_tx, via_repo, ◌>>=◌,
}
use system_chat.Wallet.{
  CashbackTx, ActionType, increment, decrement, has_key, Prisma, WalletDb, update_balance,
  insert_cashback_transaction, create_cb_trans, create_broker, increase_balance, decrease_balance,
  create_referral, account_referral, update_partner, user_deposit, Message, none_account_referral,
  account_referral_message, user_deposit_message, handle, handle_all, both, Action, AccountReferral,
  AccountReferralPayload, UserDepositPayload, PartnerTx,
}
use system_chat.Wallet.Balance.{
  stamped, update_balance_found, update_balance_missing, update_balance_absent,
}
use system_chat.Wallet.Ledger.{IsConsistent, IsConsistent-updated}

-- Two databases with the same balances and the same histories.
abbrev SameLedger : WalletDb → WalletDb → Type 0
SameLedger s t = (t.cb_available ≡ s.cb_available) × (t.cb_histories ≡ s.cb_histories)

module _ (opening : ℕ → ℤ) where
  IsConsistent-same :
      (s t : WalletDb) → SameLedger s t → IsConsistent opening s → IsConsistent opening t
  IsConsistent-same s t same h = record {
    keyed = rw (same.0) h.keyed;
    explained = rw same.0 (rw same.1 h.explained);
  }

module _ (prisma : Prisma) where
  insert-SameLedger :
      (tx : CashbackTx) (broker : Bool) (s : WalletDb)
      → SameLedger s (insert_cashback_transaction prisma tx broker s).1
  unfolding insert_cashback_transaction create_cb_trans create_broker
  insert-SameLedger tx broker s = ground arith

  create_referral-SameLedger :
      (referral : AccountReferral) (s : WalletDb)
      → SameLedger s (create_referral prisma referral s).1
  unfolding create_referral
  create_referral-SameLedger referral s = ground arith

  update_partner-SameLedger :
      (tx : PartnerTx) (s : WalletDb) → SameLedger s (update_partner prisma tx s).1
  unfolding update_partner
  update_partner-SameLedger tx s = ground arith

module _ (prisma : Prisma) (opening : ℕ → ℤ) where
  update_balance-Keeps :
      (amount : ℤ) (account : Option ℕ) (currency_id version : ℕ) (type : ActionType)
      → Keeps (IsConsistent opening) (update_balance prisma amount account currency_id version type)
  update_balance-Keeps amount account currency_id version type s h = elim (Option-cases account) [
    | inl absent ↦
        rw (update_balance_absent prisma amount account currency_id version type s absent) h
    | inr (a, to) ↦ elim (Option-cases (find? (has_key a currency_id version) s.cb_available)) [
      | inl missing ↦
          rw (update_balance_missing prisma amount account currency_id version type a s to missing)
            h
      | inr (ca, e) ↦
          rw (update_balance_found prisma amount account currency_id version type a ca s to e) (
            IsConsistent-updated prisma a currency_id version amount type opening s.cb_histories s
              ca e refl h)
    ]
  ]

  insert-Keeps :
      (tx : CashbackTx) (broker : Bool)
      → Keeps (IsConsistent opening) (insert_cashback_transaction prisma tx broker)
  insert-Keeps tx broker s h =
      IsConsistent-same opening s (insert_cashback_transaction prisma tx broker s).1
        (insert-SameLedger prisma tx broker s) h

  increase_balance-Keeps :
      (now : ℕ) (tx : CashbackTx) (version : ℕ) (broker : Bool)
      → Keeps (IsConsistent opening) (increase_balance prisma now tx version broker)
  unfolding increase_balance
  increase_balance-Keeps now tx version broker =
      Keeps-bind (IsConsistent opening)
        (update_balance prisma tx.amount tx.receiver_id tx.currency_id version increment)
        (λ old. insert_cashback_transaction prisma (stamped now old tx) broker)
        (update_balance-Keeps tx.amount tx.receiver_id tx.currency_id version increment)
        (λ old. insert-Keeps (stamped now old tx) broker)

  decrease_balance-Keeps :
      (now : ℕ) (tx : CashbackTx) (version : ℕ) (broker : Bool)
      → Keeps (IsConsistent opening) (decrease_balance prisma now tx version broker)
  unfolding decrease_balance
  decrease_balance-Keeps now tx version broker =
      Keeps-bind (IsConsistent opening)
        (update_balance prisma tx.amount tx.sender_id tx.currency_id version decrement)
        (λ old. insert_cashback_transaction prisma (stamped now old tx) broker)
        (update_balance-Keeps tx.amount tx.sender_id tx.currency_id version decrement)
        (λ old. insert-Keeps (stamped now old tx) broker)

  create_referral-Keeps :
      (referral : AccountReferral) → Keeps (IsConsistent opening) (create_referral prisma referral)
  create_referral-Keeps referral s h =
      IsConsistent-same opening s (create_referral prisma referral s).1
        (create_referral-SameLedger prisma referral s) h

  update_partner-Keeps : (tx : PartnerTx) → Keeps (IsConsistent opening) (update_partner prisma tx)
  update_partner-Keeps tx s h =
      IsConsistent-same opening s (update_partner prisma tx s).1
        (update_partner-SameLedger prisma tx s) h

  both-Keeps :
      (m k : Action CashbackTx)
      → Keeps (IsConsistent opening) m
      → Keeps (IsConsistent opening) k
      → Keeps (IsConsistent opening) (both m k)
  both-Keeps m k hm hk s h = hk (m s).1 (hm s h)

  account_referral-Keeps :
      (now_by now_from : ℕ) (input : AccountReferralPayload)
      → Keeps (IsConsistent opening) (account_referral prisma now_by now_from input)
  unfolding account_referral
  account_referral-Keeps now_by now_from input =
      let by = increase_balance prisma now_by input.cb_transaction_by input.version_by false in
      let from =
        increase_balance prisma now_from input.cb_transaction_from input.version_from false in
      let create = create_referral prisma input.account_referral in
      Keeps-bind (IsConsistent opening) (both by from) (λ done. atomically create)
        (both-Keeps by from
          (increase_balance-Keeps now_by input.cb_transaction_by input.version_by false)
          (increase_balance-Keeps now_from input.cb_transaction_from input.version_from false))
        (λ done.
          Keeps-atomically (IsConsistent opening) create
            (create_referral-Keeps input.account_referral))

  user_deposit-Keeps :
      (now now_increase : ℕ) (input : UserDepositPayload)
      → Keeps (IsConsistent opening) (user_deposit prisma now now_increase input)
  unfolding user_deposit
  user_deposit-Keeps now now_increase input =
      let partner = record input.partner_transaction { updated_at = now } in
      let update = update_partner prisma partner in
      let increase =
        increase_balance prisma now_increase input.cb_transaction input.version false in
      Keeps-transaction (IsConsistent opening) (via_tx update >>= λ done. via_repo increase) (
        Keeps-bind (IsFit (IsConsistent opening)) (via_tx update) (λ done. via_repo increase)
          (Keeps-via_tx (IsConsistent opening) update (update_partner-Keeps partner))
          (λ done.
            Keeps-via_repo (IsConsistent opening) increase
              (increase_balance-Keeps now_increase input.cb_transaction input.version false)))

  handle-IsConsistent :
      (m : Message) (s : WalletDb)
      → IsConsistent opening s
      → IsConsistent opening (handle prisma m s).1
  unfolding handle
  handle-IsConsistent (none_account_referral now input) s h =
      increase_balance-Keeps now input.cb_transaction input.version false s h
  handle-IsConsistent (account_referral_message by from input) s h =
      account_referral-Keeps by from input s h
  handle-IsConsistent (user_deposit_message now increase input) s h =
      user_deposit-Keeps now increase input s h

  -- Whatever messages the wallet handles and however each of them ends, every balance is its
  -- opening value and the sum of its history entries, and the unique keys stay unique.
  pub handle_all-IsConsistent :
      (ms : List Message) (s : WalletDb)
      → IsConsistent opening s
      → IsConsistent opening (handle_all prisma ms s)
  unfolding handle_all
  handle_all-IsConsistent [] s h = h
  handle_all-IsConsistent (m ∷ ms) s h =
      handle_all-IsConsistent ms (handle prisma m s).1 (handle-IsConsistent m s h)
