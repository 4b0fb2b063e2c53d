-- ===== src/Wallet.antt =====
-- apps/wallet/src/wallet.service.ts: every method of `WalletService`, query by query.
-- A date that the code takes by `new Date()` is an argument of the call.
mod Rows
pub mod Balance
pub mod Ledger
pub mod Calls
pub mod Deposit
pub mod Version
pub mod Overlap
mod Tests
pub use Rows.*
use system_chat.Base.{
  ℕ, ◌==◌, Bool, Option, some, none, List, [], ◌∷◌, ◌++◌, ℤ, ◌+ℤ◌, ◌-ℤ◌, Effect, Result, ok, err,
  pure, raise, gets, or_raise, raise_if, modify, ◌>>=◌, ◌>>◌, if◌then◌else◌, Session, via_repo,
  via_tx, transaction, atomically, find?, count_where, update_where, false,
}

-- `{ amount: { increment } }` or `{ amount: { decrement } }`; Prisma stamps the row.
abbrev pub moved : ActionType → ℤ → ℤ → ℤ
moved increment balance amount = balance +ℤ amount
moved decrement balance amount = balance -ℤ amount

abbrev pub update_data : Prisma → ActionType → ℤ → CbAvailable → CbAvailable
update_data prisma type amount row = record row {
  amount = moved type row.amount amount;
  updated_at = prisma.stamp;
}

abbrev pub first_error :
    {A B : Type 0} → Result WalletError A → Result WalletError B → Result WalletError (Unit {0})
first_error (err e) q = err e
first_error (ok a) (err e) = err e
first_error (ok a) (ok b) = ok tt

-- `Promise.all`: neither call stops the other, and the first to fail decides the error. Here the
-- second begins when the first has ended, one of the orders that the event loop allows.
abbrev pub both : {A B : Type 0} → Action A → Action B → Action (Unit {0})
both m k s = let (r, s') = m s in let (q, s'') = k s' in (first_error r q, s'')

module _ (prisma : Prisma) where
  -- `getCbTrans().create`
  unfoldable pub create_cb_trans : CashbackTx → Action CashbackTx
  create_cb_trans tx s =
      if prisma.takes_cb_trans tx s
      then (ok tx, record s { cb_trans = s.cb_trans ++ tx ∷ [] })
      else (err rejected, s)

  -- `getBrokerTransaction().create`
  pub create_broker : CashbackTx → Action CashbackTx
  create_broker tx s =
      if prisma.takes_broker tx s
      then (ok tx, record s { broker_trans = s.broker_trans ++ tx ∷ [] })
      else (err rejected, s)

  unfoldable pub insert_cashback_transaction : CashbackTx → Bool → Action CashbackTx
  insert_cashback_transaction tx broker = if broker then create_broker tx else create_cb_trans tx

  -- `!cbAvailable` is not tested again: `findUniqueOrThrow` has thrown.
  pub update_balance : ℤ → Option ℕ → ℕ → ℕ → ActionType → Action ℤ
  update_balance amount account currency_id version type = do
    account_id ← or_raise account bad_query
    found ← gets (λ s. find? (has_key account_id currency_id version) s.cb_available)
    ca ← or_raise found not_found
    let entry : CbHistory = record {
      ca_id = ca.id;
      old_balance = ca.amount;
      amount = amount;
      type = type;
      last_update = ca.updated_at;
    }
    modify (λ s. record s { cb_histories = s.cb_histories ++ entry ∷ [] })
    count ← gets (λ s. count_where (has_key account_id currency_id version) s.cb_available)
    modify (λ s. record s {
      cb_available =
          update_where (has_key account_id currency_id version) (update_data prisma type amount)
            s.cb_available;
    })
    raise_if (count == 0) lock_version_mismatch
    pure ca.amount

  pub increase_balance : ℕ → CashbackTx → ℕ → Bool → Action CashbackTx
  increase_balance now tx version broker = do
    old ← update_balance tx.amount tx.receiver_id tx.currency_id version increment
    insert_cashback_transaction (record tx { updated_at = now; old_balance = some old }) broker

  pub decrease_balance : ℕ → CashbackTx → ℕ → Bool → Action CashbackTx
  decrease_balance now tx version broker = do
    old ← update_balance tx.amount tx.sender_id tx.currency_id version decrement
    insert_cashback_transaction (record tx { updated_at = now; old_balance = some old }) broker

  unfoldable pub create_referral : AccountReferral → Action AccountReferral
  create_referral referral s =
      if prisma.takes_referral referral s
      then (ok referral, record s { referrals = s.referrals ++ referral ∷ [] })
      else (err rejected, s)

  -- The referral is created last, in the batch, when both balances have been increased.
  pub account_referral : ℕ → ℕ → AccountReferralPayload → Action AccountReferral
  account_referral now_by now_from input = do
    both (increase_balance now_by input.cb_transaction_by input.version_by false)
        (increase_balance now_from input.cb_transaction_from input.version_from false)
    atomically (create_referral input.account_referral)

  -- `prisma.partnerTransaction.update` by its key; it throws where there is no such row.
  pub update_partner : PartnerTx → Action PartnerTx
  update_partner tx = do
    count ← gets (λ s. count_where (λ row. row.order_id == tx.order_id) s.partner_trans)
    raise_if (count == 0) not_found
    modify (λ s. record s {
      partner_trans = update_where (λ row. row.order_id == tx.order_id) (λ row. tx) s.partner_trans;
    })
    pure tx

  -- `increaseBalance` goes through `this._repo`, not through the transaction's client.
  pub user_deposit : ℕ → ℕ → UserDepositPayload → Action CashbackTx
  user_deposit now now_increase input = transaction do
    via_tx (update_partner (record input.partner_transaction { updated_at = now }))
    via_repo (increase_balance now_increase input.cb_transaction input.version false)

-- `RevertBalancePayloadDto`, as `noneAccountReferral` reads it.
pub record RevertBalancePayload : Type 0 where
  pub cb_transaction : CashbackTx
  pub version : ℕ

-- The messages that apps/wallet/src/wallet.controller.ts takes from the queue. With each come the
-- dates that its handler reads.
pub data Message : Type 0 where
  none_account_referral : ℕ → RevertBalancePayload → Message
  account_referral_message : ℕ → ℕ → AccountReferralPayload → Message
  user_deposit_message : ℕ → ℕ → UserDepositPayload → Message

-- How a handler ends: `none` for a reply, or the error that it throws.
abbrev pub outcome : {A : Type 0} → Result WalletError A → Option WalletError
outcome (ok a) = none
outcome (err e) = some e

module _ (prisma : Prisma) where
  pub handle : Message → WalletDb → Option WalletError × WalletDb
  handle (none_account_referral now input) s =
      let (r, s') = increase_balance prisma now input.cb_transaction input.version false s in
      (outcome r, s')
  handle (account_referral_message now_by now_from input) s =
      let (r, s') = account_referral prisma now_by now_from input s in (outcome r, s')
  handle (user_deposit_message now now_increase input) s =
      let (r, s') = user_deposit prisma now now_increase input s in (outcome r, s')

  -- The queue hands its messages over one by one.
  pub handle_all : List Message → WalletDb → WalletDb
  handle_all [] s = s
  handle_all (m ∷ ms) s = handle_all ms (handle m s).1
