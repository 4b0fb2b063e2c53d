-- ===== src/Wallet/Deposit.antt =====
-- Deposits and referrals of apps/wallet/src/wallet.service.ts from end to end: what is written on
-- success, and what stays written after an error.
use mathlib.Core.Option
use system_chat.Base.{
  ℕ, ◌==◌, ◌&&◌, ◌≡◌, ◌≢◌, refl, true, false, Bool, Option-cases, inl, inr, some, none, [], ◌∷◌,
  ◌++◌, ℤ, ◌+ℤ◌, ok, err, is_ok, arith, find?, update_where, count_where, if◌then◌else◌, ◌∙◌, ap,
  ==_iff, count_where-update_where,
}
use system_chat.Wallet.{
  CashbackTx, CbAvailable, increment, has_key, Prisma, WalletDb, rejected,
  insert_cashback_transaction, create_cb_trans, create_broker, increase_balance, account_referral,
  update_partner, user_deposit, UserDepositPayload, AccountReferralPayload,
}
use system_chat.Wallet.Balance.{
  balance_of, balance_of-written, written, stamped, increase_balance_found,
  increase_balance_missing,
}

balance_of_row :
    (a c v : ℕ) (s : WalletDb) (balance : ℤ)
    → balance_of a c v s ≡ some balance
    → (row : CbAvailable) × (find? (has_key a c v) s.cb_available ≡ some row)
      × (row.amount ≡ balance)
balance_of_row a c v s balance h = elim (Option-cases (find? (has_key a c v) s.cb_available)) [
  | inl missing ↦ absurd (ground arith)
  | inr (row, found) ↦ (row, found, ground arith)
]

balance_of-written_self :
    (prisma : Prisma) (amount : ℤ) (a c v : ℕ) (ca : CbAvailable) (s : WalletDb)
    → find? (has_key a c v) s.cb_available ≡ some ca
    → balance_of a c v (written prisma amount a c v increment ca s) ≡ some (ca.amount +ℤ amount)
balance_of-written_self prisma amount a c v ca s e =
    ground (arith, balance_of-written prisma increment amount a c v a c v ca s)

insert_keeps_balance :
    (prisma : Prisma) (tx : CashbackTx) (broker : Bool) (a c v : ℕ) (s : WalletDb)
    → balance_of a c v (insert_cashback_transaction prisma tx broker s).1 ≡ balance_of a c v s
unfolding insert_cashback_transaction create_cb_trans create_broker
insert_keeps_balance prisma tx broker a c v s = ground arith

-- A call of `increaseBalance` for a row that exists adds the amount to the balance of that row
-- and leaves every other balance alone, also when the transaction is then refused.
pub increase_balance_credits :
    (prisma : Prisma) (now : ℕ) (tx : CashbackTx) (version : ℕ) (broker : Bool) (receiver : ℕ)
    (ca : CbAvailable) (s : WalletDb) (a c v : ℕ)
    → tx.receiver_id ≡ some receiver
    → find? (has_key receiver tx.currency_id version) s.cb_available ≡ some ca
    → balance_of a c v (increase_balance prisma now tx version broker s).1
      ≡ Option.map
          (λ balance.
            if a == receiver && c == tx.currency_id && v == version
            then balance +ℤ tx.amount
            else balance)
          (balance_of a c v s)
increase_balance_credits prisma now tx version broker receiver ca s a c v to e =
    rw (increase_balance_found prisma now tx version broker receiver ca s to e) (
      insert_keeps_balance prisma (stamped now ca.amount tx) broker a c v
        (written prisma tx.amount receiver tx.currency_id version increment ca s)
      ∙ balance_of-written prisma increment tx.amount receiver tx.currency_id version a c v ca s)

module _ (prisma : Prisma) (now now_increase : ℕ) (input : UserDepositPayload) (receiver : ℕ)
    (ca : CbAvailable) (s : WalletDb) (to : input.cb_transaction.receiver_id ≡ some receiver)
    (e : find? (has_key receiver input.cb_transaction.currency_id input.version) s.cb_available
      ≡ some ca)
    (known : count_where (λ row. row.order_id == input.partner_transaction.order_id) s.partner_trans
      ≢ 0) where
  abbrev pub credited : WalletDb
  credited =
      written prisma input.cb_transaction.amount receiver input.cb_transaction.currency_id
        input.version increment ca s

  -- A deposit that the database takes credits the receiver, stores the transaction with the old
  -- balance, and updates the partner's transaction.
  pub user_deposit_accepted :
      prisma.takes_cb_trans (stamped now_increase ca.amount input.cb_transaction) credited ≡ true
      → user_deposit prisma now now_increase input s ≡ (
        ok (stamped now_increase ca.amount input.cb_transaction),
        record credited {
          cb_trans = s.cb_trans ++ stamped now_increase ca.amount input.cb_transaction ∷ [];
          partner_trans =
              update_where
                (λ row. row.order_id == input.partner_transaction.order_id)
                (λ row. record input.partner_transaction { updated_at = now })
                s.partner_trans;
        },
      )
  unfolding user_deposit update_partner insert_cashback_transaction create_cb_trans
  user_deposit_accepted takes = ground (
    arith,
    increase_balance_found prisma now_increase input.cb_transaction input.version false receiver ca
        s to e,
  )

  -- Where the database refuses the transaction, the partner's transaction is rolled back and the
  -- balance is not: it has been written outside of the transaction.
  pub user_deposit_rejected :
      prisma.takes_cb_trans (stamped now_increase ca.amount input.cb_transaction) credited ≡ false
      → user_deposit prisma now now_increase input s ≡ (err rejected, credited)
  unfolding user_deposit update_partner insert_cashback_transaction create_cb_trans
  user_deposit_rejected takes = ground (
    arith,
    increase_balance_found prisma now_increase input.cb_transaction input.version false receiver ca
        s to e,
  )

  user_deposit_writes :
      let s' = (user_deposit prisma now now_increase input s).1 in
      (s'.cb_available ≡ credited.cb_available)
      × (count_where (λ row. row.order_id == input.partner_transaction.order_id) s'.partner_trans
          ≢ 0)
  unfolding user_deposit update_partner insert_cashback_transaction create_cb_trans
  user_deposit_writes = ground (
    arith,
    increase_balance_found prisma now_increase input.cb_transaction input.version false receiver ca
        s to e,
    count_where-update_where (λ row. row.order_id == input.partner_transaction.order_id)
        (λ row. record input.partner_transaction { updated_at = now }) s.partner_trans
        (λ x h. (==_iff _ _).1 refl),
  )

  user_deposit_credits :
      balance_of receiver input.cb_transaction.currency_id input.version
        (user_deposit prisma now now_increase input s).1
      ≡ some (ca.amount +ℤ input.cb_transaction.amount)
  user_deposit_credits = ground (
    arith,
    user_deposit_writes,
    balance_of-written_self prisma input.cb_transaction.amount receiver
        input.cb_transaction.currency_id input.version ca s e,
  )

-- A deposit whose balance row and partner row exist is not stopped by the version when its
-- message comes again: the second handling credits the receiver a second time.
pub user_deposit_twice :
    (prisma : Prisma) (now now_increase now' now_increase' : ℕ) (input : UserDepositPayload)
    (receiver : ℕ) (ca : CbAvailable) (s : WalletDb)
    → input.cb_transaction.receiver_id ≡ some receiver
    → find? (has_key receiver input.cb_transaction.currency_id input.version) s.cb_available
      ≡ some ca
    → count_where (λ row. row.order_id == input.partner_transaction.order_id) s.partner_trans ≢ 0
    → let s' = (user_deposit prisma now now_increase input s).1 in
      balance_of receiver input.cb_transaction.currency_id input.version
        (user_deposit prisma now' now_increase' input s').1
      ≡ some (ca.amount +ℤ input.cb_transaction.amount +ℤ input.cb_transaction.amount)
user_deposit_twice prisma now increase now' increase' input receiver ca s to e known =
    let s' = (user_deposit prisma now increase input s).1 in
    let (row, found, amount) =
      balance_of_row receiver input.cb_transaction.currency_id input.version s' _
        (user_deposit_credits prisma now increase input receiver ca s to e known) in
    user_deposit_credits prisma now' increase' input receiver row s' to found
      (user_deposit_writes prisma now increase input receiver ca s to e known).1
    ∙ ap (λ balance. some (balance +ℤ input.cb_transaction.amount)) amount

insert_keeps_rows :
    (prisma : Prisma) (tx : CashbackTx) (broker : Bool) (s : WalletDb)
    → let s' = (insert_cashback_transaction prisma tx broker s).1 in
      (s'.cb_available ≡ s.cb_available) × (s'.referrals ≡ s.referrals)
unfolding insert_cashback_transaction create_cb_trans create_broker
insert_keeps_rows prisma tx broker s = ground arith

-- A referral of which the second side has no balance row fails and creates no referral, and yet
-- the first side keeps its credit.
pub account_referral_partial :
    (prisma : Prisma) (now_by now_from : ℕ) (input : AccountReferralPayload) (by from : ℕ)
    (ca : CbAvailable) (s : WalletDb)
    → input.cb_transaction_by.receiver_id ≡ some by
    → input.cb_transaction_from.receiver_id ≡ some from
    → find? (has_key by input.cb_transaction_by.currency_id input.version_by) s.cb_available
      ≡ some ca
    → balance_of from input.cb_transaction_from.currency_id input.version_from s ≡ none
    → let (r, s') = account_referral prisma now_by now_from input s in
      (is_ok r ≡ false)
      × (s'.referrals ≡ s.referrals)
      × (balance_of by input.cb_transaction_by.currency_id input.version_by s'
          ≡ some (ca.amount +ℤ input.cb_transaction_by.amount))
unfolding account_referral
account_referral_partial prisma now_by now_from input by from ca s to_by to_from e missing =
    let first = increase_balance prisma now_by input.cb_transaction_by input.version_by false s in
    let s' = first.1 in
    let still_missing : find?
          (has_key from input.cb_transaction_from.currency_id input.version_from) s'.cb_available
        ≡ none =
      ground (
        arith,
        increase_balance_credits prisma now_by input.cb_transaction_by input.version_by false by ca
            s from input.cb_transaction_from.currency_id input.version_from to_by e,
      ) in
    ground (
      arith,
      increase_balance_found prisma now_by input.cb_transaction_by input.version_by false by ca s
          to_by e,
      increase_balance_missing prisma now_from input.cb_transaction_from input.version_from false
          from s' to_from still_missing,
      insert_keeps_rows prisma (stamped now_by ca.amount input.cb_transaction_by) false (
          written prisma input.cb_transaction_by.amount by input.cb_transaction_by.currency_id
            input.version_by increment ca s),
      balance_of-written_self prisma input.cb_transaction_by.amount by
          input.cb_transaction_by.currency_id input.version_by ca s e,
    )
