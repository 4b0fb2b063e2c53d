-- ===== src/Cms/Tests/Payments.antt =====
-- The theorems on eKYC and on commissions at concrete inputs.
use system_chat.Base.{
  ℕ, ◌≡◌, ◌+◌, ◌≤◌, ◌/◌, ◌==◌, ◌&&◌, refl, Bool, true, false, some, none, [], ◌∷◌, pos, Result, ok,
  err, is_ok, arith, find?, select_where, count_where, update_where,
}
use system_chat.Cms.Kyc.{
  kyc_approved, KycAccount, PendingTx, KycDb, KycCall, ApproveKyc, has_id, is_pending_of,
  is_released, process_cashback, change_kyc_status, kyc_status_invalid,
}
use system_chat.Cms.Kyc.Status.{change_kyc_status_final}
use system_chat.Cms.Kyc.Payout.{unheard, process_cashback-unheard}
use system_chat.Cms.Commissions.{
  CommissionRow, CommissionDb, CommissionError, PayCommission, account_invalid, commission_invalid,
  find_rate, calculate_commission, approve_commissions,
}
use system_chat.Cms.Commissions.Rates.{calculate_commission_bounds}
use system_chat.Cms.Commissions.Upgrade.{upgrade_partner_user}
use system_chat.Cms.Commissions.Once.{approve_commissions_once}

-- A wallet that stores as paid what it is told to pay.
abbrev marking : ApproveKyc → KycCall (Unit {0})
marking p s = (
  ok tt,
  record s { txs = update_where (λ t. t.id == p.tx_id) (λ t. record t { status = 2 }) s.txs },
)

abbrev applicant : KycAccount
applicant = record { id = 1; kyc_status = 1; kyc_approval_at = none; histories = some [] }

abbrev bonus : PendingTx
bonus = record {
  id = 70;
  amount = pos 1000;
  currency_id = 3;
  type = 11;
  status = 1;
  sender_id = none;
  receiver_id = some 1;
}

abbrev kyc_db : KycDb
kyc_db = record {
  accounts = applicant ∷ [];
  referrals = [];
  stats = [];
  txs = bonus ∷ [];
  notices = [];
}

process_cashback-unheard_example :
    ((process_cashback unheard 1 kyc_db).1 ≡ kyc_db)
    × (is_ok (process_cashback unheard 1 kyc_db).0
        ≡ (count_where (λ t. is_pending_of 1 t && is_released 1 kyc_db.accounts t) kyc_db.txs == 0))
process_cashback-unheard_example = process_cashback-unheard 1 kyc_db

abbrev approved_db : KycDb
approved_db = (change_kyc_status marking true 9000 1 kyc_approved kyc_db).1

is_approved : is_ok (change_kyc_status marking true 9000 1 kyc_approved kyc_db).0 ≡ true
unfolding change_kyc_status process_cashback select_where
is_approved = refl

change_kyc_status_final_example :
    ((b : KycAccount) × (find? (has_id 1) approved_db.accounts ≡ some b)
      × (b.kyc_status ≡ kyc_approved)
      × (b.kyc_approval_at ≡ some 9000))
    × (change_kyc_status marking true 9500 1 3 approved_db ≡ (err kyc_status_invalid, approved_db))
change_kyc_status_final_example =
    change_kyc_status_final marking true true 9000 9500 1 3 kyc_db is_approved

calculate_commission_bounds_example :
    (share : ℕ) × (calculate_commission 250000000 ≡ some share)
    × (12500000000 ≤ share)
    × (share ≤ 17500000000)
calculate_commission_bounds_example = calculate_commission_bounds 250000000 (omega arith)

-- The wallet counts its calls.
abbrev counting : PayCommission → ℕ → Result CommissionError (Unit {0}) × ℕ
counting payload calls = (ok tt, calls + 1)

abbrev commission : ℕ → CommissionRow
commission id = record {
  id = id;
  account_id = 5;
  commission = 400;
  is_approved = false;
  paid = 0;
  tx_status = 2;
}

abbrev commission_db : CommissionDb ℕ
commission_db = record {
  partners = record { id = 5; is_partner = true; histories = none } ∷ [];
  upgrades = [];
  rows = commission 21 ∷ commission 22 ∷ [];
  satoshi = record { account_id = 5; currency_id = 3; version = 0 } ∷ [];
  noticed = [];
  wallet = 0;
}

abbrev in_satoshi : ℕ → ℕ
in_satoshi hundredths = hundredths / 700

abbrev after_approval : CommissionDb ℕ
after_approval = (approve_commissions counting in_satoshi true 5 90 (21 ∷ 22 ∷ []) commission_db).1

approval_returns :
    is_ok (approve_commissions counting in_satoshi true 5 90 (21 ∷ 22 ∷ []) commission_db).0 ≡ true
unfolding approve_commissions calculate_commission find_rate select_where
approval_returns = refl

approve_commissions_once_example :
    approve_commissions counting in_satoshi true 5 91 (22 ∷ []) after_approval
    ≡ (err commission_invalid, after_approval)
approve_commissions_once_example =
    approve_commissions_once counting in_satoshi 22 5 90 91 (21 ∷ 22 ∷ []) (22 ∷ []) (commission 22)
      commission_db refl refl refl approval_returns

-- An account becomes a partner with an entry of its histories; a partner is refused.
abbrev ordinary : Bool → CommissionDb ℕ
ordinary is_partner = record commission_db {
  partners = record { id = 5; is_partner = is_partner; histories = some [] } ∷ [];
}

upgrade_runs :
    ((upgrade_partner_user counting in_satoshi true true 70 5 9 (ordinary false)).1.partners
      ≡ (record {
        id = 5;
        is_partner = true;
        histories = some (record { updated_at = 70; updated_by = 9 } ∷ []);
      })
        ∷ [])
    × ((upgrade_partner_user counting in_satoshi true true 70 5 9 (ordinary true)).0
        ≡ err account_invalid)
unfolding upgrade_partner_user
upgrade_runs = (refl, refl)
