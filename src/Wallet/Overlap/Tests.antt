-- ===== src/Wallet/Overlap/Tests.antt =====
-- Two calls that overlap: both read the balance before either changes it.
use system_chat.Base.{refl, true, false, [], ◌∷◌, pos, ◌+ℤ◌}
use system_chat.Wallet.{CbAvailable, increment, decrement, Prisma, WalletDb}
use system_chat.Wallet.Ledger.{IsConsistent}
use system_chat.Wallet.Overlap.{
  Update, task, entry, changed, Steps, done, step_to, reads, inserts, changes,
}
use system_chat.Wallet.Overlap.NoLostUpdate.{Steps-IsConsistent}

abbrev prisma : Prisma
prisma = record {
  takes_cb_trans = λ tx s. true;
  takes_broker = λ tx s. true;
  takes_referral = λ referral s. true;
  stamp = 77;
}

abbrev row : CbAvailable
row = record {
  id = 1;
  amount = pos 100;
  updated_at = 5;
  currency_id = 10;
  account_id = 7;
  version = 1;
}

abbrev db : WalletDb
db = record {
  cb_available = row ∷ [];
  cb_histories = [];
  cb_trans = [];
  broker_trans = [];
  referrals = [];
  partner_trans = [];
}

abbrev add_50 : Update
add_50 = record { amount = pos 50; account_id = 7; currency_id = 10; version = 1; type = increment }

abbrev sub_30 : Update
sub_30 = record { amount = pos 30; account_id = 7; currency_id = 10; version = 1; type = decrement }

abbrev db_1 : WalletDb
db_1 = record db { cb_histories = entry add_50 row ∷ [] }

abbrev db_2 : WalletDb
db_2 = record db { cb_histories = entry add_50 row ∷ entry sub_30 row ∷ [] }

abbrev db_3 : WalletDb
db_3 = record db_2 { cb_available = changed prisma sub_30 (row ∷ []) }

abbrev db_4 : WalletDb
db_4 = record db_3 { cb_available = changed prisma add_50 db_3.cb_available }

overlapping : Steps prisma (record { db = db; tasks = [] }) (record { db = db_4; tasks = [] })
overlapping = step_to _ _ _ (reads add_50 row db [] refl) (
    step_to _ _ _ (reads sub_30 row db (task add_50 row false ∷ []) refl) (
      step_to _ _ _ (inserts add_50 row db (task sub_30 row false ∷ []) []) (
        step_to _ _ _ (inserts sub_30 row db_1 [] (task add_50 row true ∷ [])) (
          step_to _ _ _ (changes sub_30 row db_2 [] (task add_50 row true ∷ []))
            (step_to _ _ _ (changes add_50 row db_3 [] []) (done _))))))

db-IsConsistent : IsConsistent (λ id. pos 100) db
unfolding ◌+ℤ◌
db-IsConsistent = record { keyed = (tt, tt); explained = (refl, tt) }

Steps-IsConsistent_example : IsConsistent (λ id. pos 100) db_4
Steps-IsConsistent_example =
    Steps-IsConsistent prisma (λ id. pos 100) db db_4 overlapping db-IsConsistent
