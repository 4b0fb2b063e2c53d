-- ===== src/Cms/Notices.antt =====
-- sendNotificationForAccount with sendNotifications, getQueryAccountByIndex and
-- processSendNotification. The queries of the pages are taken to read the same table in the same
-- order, with nothing written in between.
pub mod Pages
use system_chat.Base.{
  ℕ, zero, suc, ◌+◌, ◌-◌, ◌*◌, ◌/◌, ◌==◌, ltb, leb, Bool, true, false, not, ◌&&◌, Option, some,
  none, List, [], ◌∷◌, ◌++◌, ℤ, pos, ◌+ℤ◌, leb_ℤ, ltb_ℤ, map, length, take, drop, count_where,
  select_where, if◌then◌else◌,
}
use system_chat.Cms.Kyc.{kyc_approved}

-- What the filter reads of an account; the balance in Satoshi is missing where there is no row.
pub record Recipient : Type 0 where
  pub id : ℕ
  pub has_device_token : Bool
  pub is_partner : Bool
  pub kyc_status : ℕ
  pub satoshi_balance : Option ℤ

-- `SendNotificationQueryDto`
pub record SendQuery : Type 0 where
  pub wants_partner : Option Bool
  pub wants_kyc_status : Option ℕ
  pub is_withdrawal : Option Bool

-- A row of the notifications.
pub record SentNotice : Type 0 where
  pub account_id : ℕ
  pub title : ℕ
  pub description : ℕ

abbrev same_truth : Bool → Bool → Bool
same_truth true b = b
same_truth false b = not b

-- A condition on a column, where `undefined` is none.
abbrev on_partner : Option Bool → Bool → Bool
on_partner none b = true
on_partner (some wanted) b = same_truth wanted b

abbrev on_status : Option ℕ → ℕ → Bool
on_status none n = true
on_status (some wanted) n = wanted == n

-- `kycStatus`, which a query for those who can withdraw overrides
abbrev wanted_status : SendQuery → Option ℕ
wanted_status query = elim query.is_withdrawal [
  | some true ↦ some kyc_approved
  | _ ↦ query.wants_kyc_status
]

-- `cbAvailable: { some: { currencyId, amount } }`
abbrev on_balance : Option Bool → ℤ → Option ℤ → Bool
on_balance none amount balance = true
on_balance (some w) amount none = false
on_balance (some true) amount (some b) = leb_ℤ amount b
on_balance (some false) amount (some b) = ltb_ℤ b amount

-- The filter, where `least` is the sum of the least amounts to hold and to send.
unfoldable pub receives : ℤ → SendQuery → Recipient → Bool
receives least query r =
    r.has_device_token
    && on_partner query.wants_partner r.is_partner
    && on_status (wanted_status query) r.kyc_status
    && on_balance query.is_withdrawal least r.satoshi_balance

-- `MAX_QUOTA_DEVICE_TOKEN` and `MAX_CONNECTION_POOL`
abbrev pub max_quota : ℕ
max_quota = 1000

abbrev pub max_pool : ℕ
max_pool = 5

-- The pages from `i` down, at most `n` and none below 0.
abbrev pub pages_down : ℕ → ℕ → List ℕ
pages_down zero i = []
pages_down (suc n) zero = 0 ∷ []
pages_down (suc n) (suc i) = suc i ∷ pages_down n i

module _ {A : Type 0} where
  -- `findMany({ take, skip: take * i })`
  abbrev pub page : List A → ℕ → List A
  page rows i = take max_quota (drop (max_quota * i) rows)

  -- `getQueryAccountByIndex`
  pub query_by_index : List A → ℕ → List (List A)
  query_by_index rows count = map (page rows) (pages_down max_pool count)

-- `processSendNotification`
pub process_send : ℕ → ℕ → List Recipient → List SentNotice
process_send title description accounts =
    map (λ r. record { account_id = r.id; title = title; description = description }) accounts

abbrev pub process_all : ℕ → ℕ → List (List Recipient) → List SentNotice
process_all title description [] = []
process_all title description (accounts ∷ pages) =
    process_send title description accounts ++ process_all title description pages

-- The loop of `sendNotifications`, at most `fuel` times.
pub send_loop : ℕ → ℕ → ℕ → List Recipient → ℕ → List SentNotice
send_loop zero title description rows count = []
send_loop (suc fuel) title description rows count =
    let rest = send_loop fuel title description rows (count - max_pool) in
    process_all title description (query_by_index rows count)
    ++ (if leb max_pool count then rest else [])

-- `sendNotifications`; the loop runs once for each five pages.
pub send_notifications : ℕ → ℕ → List Recipient → ℕ → List SentNotice
send_notifications title description rows total_accounts =
    let count = total_accounts / max_quota in send_loop (suc count) title description rows count

-- `sendNotificationForAccount`: the number of accounts, and the notifications that are stored.
pub send_notification_for_account : ℤ → ℕ → ℕ → SendQuery → List Recipient → ℕ × List SentNotice
send_notification_for_account least title description query accounts =
    let rows = select_where (receives least query) accounts in
    let total_accounts = count_where (receives least query) accounts in
    if total_accounts == 0
    then (0, [])
    else (total_accounts, send_notifications title description rows total_accounts)
