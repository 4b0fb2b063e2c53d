-- ===== src/Cms/Kyc.antt =====
-- changeKycStatus and processCashbackForAccount, with the query sql/find-cb-pending-by-account.sql.
-- The wallet service has no handler of the message APPROVE_KYC: what it does is an argument.
pub mod Status
pub mod Payout
use system_chat.Base.{
  ℕ, ◌+◌, ◌==◌, Bool, true, false, not, ◌&&◌, ◌||◌, Option, some, none, List, [], ◌∷◌, ◌++◌, ℤ,
  Effect, pure, ◌>>=◌, ◌>>◌, gets, modify, raise_if, when, or_raise, atomically, find?,
  select_where, update_where, if◌then◌else◌,
}
use system_chat.Accounts.Rows.{is, is_some, pushed}

-- `KYC_STATUS`
abbrev pub kyc_approved : ℕ
kyc_approved = 2

-- The columns of `account` that these calls read or write; the histories by their moments.
pub record KycAccount : Type 0 where
  pub id : ℕ
  pub kyc_status : ℕ
  pub kyc_approval_at : Option ℕ
  pub histories : Option (List ℕ)

pub record KycReferral : Type 0 where
  pub referral_from : ℕ
  pub referral_by : ℕ

pub record ReferralStats : Type 0 where
  pub account_id : ℕ
  pub total_kyc : ℕ

-- The columns of `cashback_transaction` that the query reads.
pub record PendingTx : Type 0 where
  pub id : ℕ
  pub amount : ℤ
  pub currency_id : ℕ
  pub type : ℕ
  pub status : ℕ
  pub sender_id : Option ℕ
  pub receiver_id : Option ℕ

pub data KycNoticeType : Type 0 where
  kyc_notice non_referral_notice referral_by_notice referral_from_notice : KycNoticeType

pub record KycNotice : Type 0 where
  pub account_id : Option ℕ
  pub type : KycNoticeType
  pub ref : Option ℕ

pub record KycDb : Type 0 where
  pub accounts : List KycAccount
  pub referrals : List KycReferral
  pub stats : List ReferralStats
  pub txs : List PendingTx
  pub notices : List KycNotice

pub data KycError : Type 0 where
  kyc_status_invalid record_not_found null_refused : KycError
  wallet_refused : ℕ → KycError

abbrev pub KycCall : Type 0 → Type 0
KycCall A = Effect KycError KycDb A

-- The payload of APPROVE_KYC, without texts.
pub record ApproveKyc : Type 0 where
  pub tx_id : ℕ
  pub amount : ℤ
  pub receiver_id : Option ℕ
  pub currency_id : ℕ

abbrev pub has_id : ℕ → KycAccount → Bool
has_id n a = a.id == n

-- `ct.type in (…)`
abbrev pub is_reward_type : ℕ → Bool
is_reward_type n =
    n == 7 || n == 9 || n == 10 || n == 11 || n == 12 || n == 14 || n == 15 || n == 16

-- The `where` of the query.
abbrev pub is_pending_of : ℕ → PendingTx → Bool
is_pending_of id t =
    is_reward_type t.type && t.status == 1 && (is t.sender_id id || is t.receiver_id id)

-- `left join account`: the eKYC status, where there is such an account
abbrev pub joined_status : List KycAccount → Option ℕ → Option ℕ
joined_status accounts none = none
joined_status accounts (some n) = elim (find? (has_id n) accounts) [
  | none ↦ none
  | some a ↦ some a.kyc_status
]

-- The condition of the loop.
abbrev pub is_released : ℕ → List KycAccount → PendingTx → Bool
is_released id accounts t =
    (is t.sender_id id && is (joined_status accounts t.receiver_id) kyc_approved)
    || (is t.receiver_id id && is (joined_status accounts t.sender_id) kyc_approved)
    || (is t.receiver_id id && t.type == 10)
    || (is t.receiver_id id && t.type == 11)

abbrev pub approve_payload : PendingTx → ApproveKyc
approve_payload t = record {
  tx_id = t.id;
  amount = t.amount;
  receiver_id = t.receiver_id;
  currency_id = t.currency_id;
}

abbrev pub release_notice : ℕ → PendingTx → KycNotice
release_notice id t = record {
  account_id = t.receiver_id;
  type =
      if t.type == 10
      then non_referral_notice
      else (if is t.sender_id id then referral_by_notice else referral_from_notice);
  ref = some t.id;
}

abbrev pub approved_row : ℕ → ℕ → KycAccount → KycAccount → KycAccount
approved_row at kyc_status found a = record a {
  kyc_status = kyc_status;
  kyc_approval_at = if kyc_status == kyc_approved then some at else a.kyc_approval_at;
  histories = pushed at found.histories;
}

module _ (approve : ApproveKyc → KycCall (Unit {0})) where
  -- One turn of the loop. `accounts` is what the query joined.
  abbrev pub release : ℕ → List KycAccount → PendingTx → KycCall (Unit {0})
  release id accounts t = when (is_released id accounts t) (
      approve (approve_payload t)
      >> modify (λ s. record s { notices = s.notices ++ release_notice id t ∷ [] }))

  abbrev pub release_all : ℕ → List KycAccount → List PendingTx → KycCall (Unit {0})
  release_all id accounts [] = pure tt
  release_all id accounts (t ∷ ts) = release id accounts t >> release_all id accounts ts

  -- `processCashbackForAccount`
  unfoldable pub process_cashback : ℕ → KycCall (Unit {0})
  process_cashback id = gets (λ s. s.accounts) >>= λ accounts.
      gets (λ s. select_where (is_pending_of id) s.txs) >>= λ output. release_all id accounts output

  -- `getAccountReferralStats().update`
  abbrev pub count_kyc : Option KycReferral → KycCall (Unit {0})
  count_kyc none = pure tt
  count_kyc (some r) = gets (λ s. find? (λ x. x.account_id == r.referral_by) s.stats) >>= λ found.
      or_raise found record_not_found
      >> modify (λ s. record s {
        stats =
            update_where (λ x. x.account_id == r.referral_by)
              (λ x. record x { total_kyc = x.total_kyc + 1 }) s.stats;
      })

  -- The update of the account, with which the transaction ends.
  abbrev pub store_row : Bool → ℕ → ℕ → ℕ → KycAccount → KycCall (Unit {0})
  store_row takes_null at id kyc_status account =
      raise_if (not (is_some account.histories) && not takes_null) null_refused
      >> gets (λ s. find? (has_id id) s.accounts)
      >>= λ row.
          or_raise row record_not_found
          >> modify (λ s. record s {
            accounts = update_where (has_id id) (approved_row at kyc_status account) s.accounts;
          })

  -- The transaction at the end.
  abbrev pub store_status : Bool → ℕ → ℕ → ℕ → KycAccount → Option KycReferral → KycCall (Unit {0})
  store_status takes_null at id kyc_status account referral = atomically (
      when (kyc_status == kyc_approved) (count_kyc referral)
      >> modify (λ s. record s {
        notices = s.notices ++ record { account_id = some id; type = kyc_notice; ref = none } ∷ [];
      })
      >>= λ _. store_row takes_null at id kyc_status account)

  -- account === null, the same status, or one that was approved
  abbrev pub is_settled : Option KycAccount → ℕ → Bool
  is_settled none kyc_status = true
  is_settled (some a) kyc_status = a.kyc_status == kyc_status || a.kyc_status == kyc_approved

  -- `changeKycStatus`
  unfoldable pub change_kyc_status : Bool → ℕ → ℕ → ℕ → KycCall (Unit {0})
  change_kyc_status takes_null at id kyc_status =
      gets (λ s. find? (has_id id) s.accounts) >>= λ found.
      gets (λ s. find? (λ r. r.referral_from == id) s.referrals) >>= λ referral.
      raise_if (is_settled found kyc_status) kyc_status_invalid
      >> or_raise found kyc_status_invalid
      >>= λ account.
          when (kyc_status == kyc_approved) (process_cashback id)
          >> store_status takes_null at id kyc_status account referral
