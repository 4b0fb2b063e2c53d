-- ===== src/Rewards/Save/Tests.antt =====
-- The calls of saveAccount at concrete inputs: the new account 7, which account 8 may have referred.
use system_chat.Base.{
  ◌≡◌, refl, true, false, Bool, Option, some, none, List, [], ◌∷◌, ◌++◌, pos, ◌+ℤ◌, ok,
  select_where,
}
use system_chat.Wallet.{CbAvailable, Prisma, create_cb_trans, create_referral}
use system_chat.Wallet.Balance.{balance_of, stamped}
use system_chat.Rewards.{Coin, Commission, RewardDb, UnitDate, reward_tx}
use system_chat.Rewards.Save.{
  SaveCall, create_balances, insert_account_referral, referral_tx, save_account,
}
use system_chat.Rewards.Save.Balances.{IsDistinct}
use system_chat.Rewards.Save.Referral.{
  save_account_referred_without_kyc, save_account_rewards, save_account_referred_with_kyc,
}

abbrev prisma : Prisma
prisma = record {
  takes_cb_trans = λ tx s. true;
  takes_broker = λ tx s. true;
  takes_referral = λ referral s. true;
  stamp = 77;
}

abbrev today : UnitDate
today = record { day = 26; week = 48; month = 11; year = 2024 }

abbrev call : SaveCall
call = record {
  amount_from = pos 10;
  amount_by = pos 20;
  today = today;
  daily_lucky_id = 900;
  now = 60;
  now_by = 61;
  now_from = 62;
  new_id = λ w. 500;
}

abbrev coin : Coin
coin = record { id = 10; code = 0; status = 1 }

abbrev vndc : Coin
vndc = record { id = 11; code = 1; status = 1 }

abbrev old_coin : Coin
old_coin = record { id = 12; code = 2; status = 0 }

abbrev balance_row : CbAvailable
balance_row = record {
  id = 1;
  amount = pos 40;
  updated_at = 5;
  currency_id = 10;
  account_id = 8;
  version = 1;
}

abbrev asking : Bool → Commission
asking need_kyc = record {
  referral_from = pos 300;
  referral_by = pos 200;
  non_referral = pos 500;
  need_kyc = need_kyc;
}

abbrev db : List Commission → RewardDb
db commissions = record {
  wallet = record {
    cb_available = balance_row ∷ [];
    cb_histories = [];
    cb_trans = [];
    broker_trans = [];
    referrals = [];
    partner_trans = [];
  };
  accounts = 7 ∷ 8 ∷ [];
  coins = coin ∷ vndc ∷ old_coin ∷ [];
  commissions = commissions;
  notices = [];
  wheels = [];
  summaries = record { date = today; value = 3 } ∷ [];
  referral_stats = [];
}

distinct : IsDistinct (coin ∷ vndc ∷ old_coin ∷ [])
distinct = ((refl, (refl, tt)), ((refl, tt), (tt, tt)))

abbrev config : Option Commission
config = some (asking true)

-- The summary of the day is counted up, and inactive coins get no balance.
counted :
    let s = (save_account prisma call (record { id = 7; referral_by = some 8 }) (db [])).1 in
    (s.summaries ≡ record { date = today; value = 4 } ∷ [])
    × (balance_of 7 12 1 s.wallet ≡ none)
    × (s.referral_stats ≡ record { account_id = 8; total_referrals = 1 } ∷ [])
unfolding save_account insert_account_referral create_balances select_where create_referral
    create_cb_trans
counted = (refl, refl, refl)

save_account_referred_without_kyc_example :
    save_account prisma call (record { id = 7; referral_by = some 8 }) (db (asking false ∷ []))
    ≡ (ok true, db (asking false ∷ []))
save_account_referred_without_kyc_example =
    save_account_referred_without_kyc prisma call 7 8 (asking false) (db (asking false ∷ [])) refl
      refl refl

save_account_rewards_example :
    let s =
      (save_account prisma call
        (record { id = 7; referral_by = none })
        (db (asking true ∷ []))).1 in
    (balance_of 7 10 1 s.wallet ≡ some (pos 0 +ℤ pos 500))
    × (s.wallet.cb_trans
        ≡ (reward_tx 7 10 config ∷ []) ++ stamped 60 (pos 0) (reward_tx 7 10 config) ∷ [])
unfolding select_where
save_account_rewards_example =
    save_account_rewards prisma call 7 coin (db (asking true ∷ [])) refl refl distinct refl
      (λ tx w. refl) refl

save_account_referred_with_kyc_example :
    let s =
      (save_account prisma call
        (record { id = 7; referral_by = some 8 })
        (db (asking true ∷ []))).1 in
    (balance_of 7 11 1 s.wallet ≡ some (pos 0))
    × (s.wallet.referrals ≡ (record { referral_from = 7; referral_by = 8; created_at = 0 }) ∷ [])
    × (s.wallet.cb_trans
        ≡ ([] ++ referral_tx (pos 300) 8 7 10 config ∷ [])
          ++ referral_tx (pos 200) 7 8 10 config ∷ [])
unfolding select_where
save_account_referred_with_kyc_example =
    save_account_referred_with_kyc prisma call 7 coin (db (asking true ∷ [])) refl refl distinct
      refl 8 11 vndc refl (λ tx w. refl) (λ r w. refl) refl refl
