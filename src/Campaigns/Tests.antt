-- ===== src/Campaigns/Tests.antt =====
-- A witness for each property of the job.
use system_chat.Base.{
  ◌+◌, ◌-◌, ◌*◌, ◌/◌, ◌≡◌, refl, true, false, Option, some, none, List, [], ◌∷◌, ◌++◌, pos, err,
  arith, select_where,
}
use system_chat.Campaigns.{
  AccessTrade, CampaignTx, JobDb, JobEnv, JobAction, ApprovePayload, InsertOptions, TransactionRes,
  no_handler, get_transaction_on_hold,
}
use system_chat.Campaigns.Pending.{HasUniqueProducts, get_transaction_on_hold-HasUniqueProducts}
use system_chat.Campaigns.Check.{
  check_transactions, check_blocks, waiting_block, by_date, insert_by_date,
}
use system_chat.Campaigns.Check.Holds.{check_blocks_hold}

-- No service listens to the message.
abbrev unheard : ApprovePayload → JobAction (Unit {0})
unheard payload s = (err no_handler, s)

-- Whole numbers stand for the doubles.
abbrev env : JobEnv
env = record {
  times = λ a b. a * b;
  over = λ a b. a / b;
  minus = λ a b. a - b;
  add = λ a b. a + b;
  percent = λ a. a;
  round = λ a. some (pos a);
  config_amount = 1;
  wallet = unheard;
}

abbrev trade : AccessTrade
trade = record {
  id = 900;
  status = 1;
  utm_content = 7;
  utm_campaign = some 1;
  transaction_id = 60;
  product_id = 61;
  transaction_value = 5000;
  transaction_time = 100;
  is_confirmed = false;
  commission = 80;
}

abbrev options : InsertOptions
options = record { transaction = trade; tx_id = 30; job_id = 31 }

abbrev waiting_tx : CampaignTx
waiting_tx = record {
  id = 30;
  amount = pos 80;
  status = 1;
  currency_id = 10;
  receiver_id = 7;
  campaign_id = none;
  access_trade_id = 60;
  product_id = 61;
  created_at = 100;
  notes = [];
}

abbrev db : List CampaignTx → JobDb
db txs = record {
  accounts = 7 ∷ [];
  available = (record { account_id = 7; currency_id = 10; version = 1 }) ∷ [];
  cb_trans = txs;
  campaigns = [];
  job_campaigns = [];
  notices = [];
  wheels = [];
  referrers = (record { referral_from = 7; referral_by = 8; is_partner = true }) ∷ [];
  commissions = [];
}

-- AccessTrade answers the same transaction twice.
abbrev response : Option TransactionRes
response = some (record {
  total = 2;
  transactions = options ∷ (record { transaction = trade; tx_id = 32; job_id = 33 }) ∷ [];
})

get_transaction_on_hold-HasUniqueProducts_example :
    HasUniqueProducts
      (get_transaction_on_hold env true 1000 response
        (some (record { rate_value = 2; currency_id = 10 }))
        (db [])).1
get_transaction_on_hold-HasUniqueProducts_example =
    get_transaction_on_hold-HasUniqueProducts env true 1000 response
      (some (record { rate_value = 2; currency_id = 10 })) (db []) (λ t p. omega arith)

abbrev held : AccessTrade
held = record trade { status = 0 }

check_blocks_hold_example :
    (check_blocks env 2 3 0 (λ n. some ([] ++ held ∷ trade ∷ [])) (db (waiting_tx ∷ []))).1
    ≡ (check_transactions env 2 (waiting_tx ∷ []) [] (db (waiting_tx ∷ []))).1
unfolding waiting_block by_date insert_by_date select_where
check_blocks_hold_example =
    check_blocks_hold env 2 2 0 (λ n. some ([] ++ held ∷ trade ∷ [])) [] (trade ∷ []) held
      waiting_tx [] (db (waiting_tx ∷ [])) refl refl refl
