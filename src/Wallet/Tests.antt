-- ===== src/Wallet/Tests.antt =====
-- The wallet's theorems at concrete inputs, and runs of the model.
use system_chat.Base.{
  ℕ, ◌==◌, ◌≡◌, refl, true, false, none, some, List, [], ◌∷◌, ℤ, pos, ◌+ℤ◌, is_ok, arith,
  if◌then◌else◌,
}
use system_chat.Wallet.{
  CashbackTx, CbAvailable, PartnerTx, Prisma, WalletDb, AccountReferralPayload, UserDepositPayload,
  Message, none_account_referral, account_referral_message, user_deposit_message, increase_balance,
  account_referral, user_deposit, handle, handle_all, update_balance, insert_cashback_transaction,
  create_cb_trans, create_broker, create_referral, update_partner,
}
use system_chat.Wallet.Balance.{balance_of}
use system_chat.Wallet.Ledger.{IsConsistent}
use system_chat.Wallet.Calls.{handle_all-IsConsistent}
use system_chat.Wallet.Deposit.{user_deposit_twice, account_referral_partial}

-- A database that takes every transaction, and one that refuses all of them.
abbrev prisma : Prisma
prisma = record {
  takes_cb_trans = λ tx s. true;
  takes_broker = λ tx s. true;
  takes_referral = λ referral s. true;
  stamp = 77;
}

abbrev row_1 : CbAvailable
row_1 = record {
  id = 1;
  amount = pos 100;
  updated_at = 5;
  currency_id = 10;
  account_id = 7;
  version = 1;
}

abbrev row_2 : CbAvailable
row_2 = record row_1 { id = 2; account_id = 8; amount = pos 20 }

abbrev partner_row : PartnerTx
partner_row = record { order_id = 3; amount = pos 50; status = 1; description = 0; updated_at = 0 }

abbrev db : WalletDb
db = record {
  cb_available = row_1 ∷ row_2 ∷ [];
  cb_histories = [];
  cb_trans = [];
  broker_trans = [];
  referrals = [];
  partner_trans = partner_row ∷ [];
}

abbrev tx_to_7 : CashbackTx
tx_to_7 = record {
  id = some 900;
  type = 3;
  amount = pos 50;
  status = 2;
  action_type = 1;
  title = 0;
  description = 0;
  updated_at = 0;
  old_balance = none;
  currency_id = 10;
  sender_id = none;
  receiver_id = some 7;
}

abbrev deposit_input : UserDepositPayload
deposit_input = record {
  cb_transaction = tx_to_7;
  partner_transaction = record partner_row { status = 2 };
  version = 1;
}

abbrev referral_input : AccountReferralPayload
referral_input = record {
  cb_transaction_from = record tx_to_7 { receiver_id = some 9 };
  cb_transaction_by = tx_to_7;
  account_referral = record { referral_from = 9; referral_by = 7; created_at = 0 };
  version_from = 1;
  version_by = 1;
}

abbrev messages : List Message
messages =
    user_deposit_message 50 51 deposit_input
    ∷ none_account_referral 60 (record { cb_transaction = tx_to_7; version = 2 })
    ∷ account_referral_message 61 62 referral_input
    ∷ []

abbrev opening : ℕ → ℤ
opening id = if id == 1 then pos 100 else pos 20

handle_all_test : balance_of 7 10 1 (handle_all prisma messages db) ≡ some (pos 200)
unfolding handle_all handle user_deposit account_referral increase_balance update_balance
    insert_cashback_transaction create_cb_trans create_broker create_referral update_partner ◌+ℤ◌
handle_all_test = refl

db-IsConsistent : IsConsistent opening db
unfolding ◌+ℤ◌
db-IsConsistent = record {
  keyed = (((omega arith, refl), tt), (tt, tt));
  explained = (refl, (refl, tt));
}

handle_all-IsConsistent_example : IsConsistent opening (handle_all prisma messages db)
handle_all-IsConsistent_example = handle_all-IsConsistent prisma opening messages db db-IsConsistent

abbrev refusing : Prisma
refusing = record prisma { takes_cb_trans = λ tx s. false }

user_deposit_twice_example :
    balance_of 7 10 1
      (user_deposit prisma 70 71 deposit_input (user_deposit prisma 50 51 deposit_input db).1).1
    ≡ some (pos 100 +ℤ pos 50 +ℤ pos 50)
user_deposit_twice_example =
    user_deposit_twice prisma 50 51 70 71 deposit_input 7 row_1 db refl refl (omega arith)

account_referral_partial_example :
    let (r, s') = account_referral prisma 61 62 referral_input db in
    (is_ok r ≡ false) × (s'.referrals ≡ []) × (balance_of 7 10 1 s' ≡ some (pos 100 +ℤ pos 50))
account_referral_partial_example =
    account_referral_partial prisma 61 62 referral_input 7 9 row_1 db refl refl refl refl
