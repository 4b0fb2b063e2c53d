-- ===== src/Cms/Commissions.antt =====
-- approvedCommissionForPartner, with `calculateCommission` of libs/utils/src/utils.service.ts and
-- `COMMISSION_RATE`. Commissions are whole and not negative; products with a rate are taken in
-- hundredths and without rounding. The wallet service has no handler of PARTNER_COMMISSION, so
-- what it does with its own tables `W` is an argument, as is the price in Satoshi.
pub mod Rates
pub mod Open
pub mod Once
pub mod Uncommitted
pub mod Upgrade
use system_chat.Base.{
  ℕ, ◌+◌, ◌*◌, ◌/◌, ◌==◌, leb, Bool, true, false, not, ◌&&◌, ◌||◌, Option, some, none, List, [],
  ◌∷◌, ◌++◌, Result, ok, err, Effect, pure, ◌>>=◌, ◌>>◌, gets, modify, raise_if, or_raise,
  atomically, find?, select_where, count_where, update_where, if◌then◌else◌,
}

-- A row of `COMMISSION_RATE`, with its value in hundredths.
pub record CommissionRate : Type 0 where
  pub min : ℕ
  pub max : Option ℕ
  pub value : ℕ

abbrev rate : ℕ → Option ℕ → ℕ → CommissionRate
rate min max value = record { min = min; max = max; value = value }

abbrev pub commission_rate : List CommissionRate
commission_rate =
    rate 1 (some 199999999) 50
    ∷ rate 200000000 (some 299999999) 55
    ∷ rate 300000000 (some 399999999) 60
    ∷ rate 400000000 (some 499999999) 65
    ∷ rate 500000000 none 70
    ∷ []

abbrev up_to_max : ℕ → Option ℕ → Bool
up_to_max hundredths none = true
up_to_max hundredths (some max) = leb hundredths (max * 100)

-- The first rate whose range has the amount.
unfoldable pub find_rate : ℕ → Option CommissionRate
find_rate hundredths =
    find? (λ r. leb (r.min * 100) hundredths && up_to_max hundredths r.max) commission_rate

abbrev rated : ℕ → Option CommissionRate → Option ℕ
rated total none = none
rated total (some r) = some (total * r.value)

-- `calculateCommission`, in hundredths; none is the error of an amount outside of all ranges.
unfoldable pub calculate_commission : ℕ → Option ℕ
calculate_commission total = if total == 0 then some 0 else rated total (find_rate (total * 100))

-- A row of `account_partner_commission`, with the status of its transaction.
pub record CommissionRow : Type 0 where
  pub id : ℕ
  pub account_id : ℕ
  pub commission : ℕ
  pub is_approved : Bool
  pub paid : ℕ
  pub tx_status : ℕ

-- An entry of an account's histories, and one of `account_history`: when, and by whom.
pub record UpgradeEntry : Type 0 where
  pub updated_at : ℕ
  pub updated_by : ℕ

pub record PartnerRow : Type 0 where
  pub id : ℕ
  pub is_partner : Bool
  pub histories : Option (List UpgradeEntry)

-- `cashback_available` in Satoshi
pub record SatoshiRow : Type 0 where
  pub account_id : ℕ
  pub currency_id : ℕ
  pub version : ℕ

-- The payload of PARTNER_COMMISSION, without texts.
pub record PayCommission : Type 0 where
  pub version : ℕ
  pub tx_id : ℕ
  pub amount : ℕ
  pub currency_id : ℕ
  pub receiver_id : ℕ

pub record CommissionDb (W : Type 0) : Type 0 where
  pub partners : List PartnerRow
  pub upgrades : List (ℕ × UpgradeEntry)
  pub rows : List CommissionRow
  pub satoshi : List SatoshiRow
  pub noticed : List (ℕ × ℕ)
  pub wallet : W

pub data CommissionError : Type 0 where
  account_invalid commission_invalid type_error row_not_found wallet_refused : CommissionError
  row_refused : CommissionError

abbrev pub member : List ℕ → ℕ → Bool
member [] n = false
member (x ∷ xs) n = x == n || member xs n

abbrev pub is_invalid : ℕ → CommissionRow → Bool
is_invalid account_id c =
    not (c.account_id == account_id) || c.is_approved || not (c.tx_status == 2)

abbrev pub sum_commissions : List CommissionRow → ℕ
sum_commissions [] = 0
sum_commissions (c ∷ cs) = c.commission + sum_commissions cs

-- `Math.round(c.commission * rate.value)`
abbrev pub paid_at : ℕ → CommissionRow → ℕ
paid_at value c = (c.commission * value + 50) / 100

abbrev pub with_row : ℕ → CommissionRow → Bool
with_row n c = c.id == n

module _ {W : Type 0} (send : PayCommission → W → Result CommissionError (Unit {0}) × W)
    (to_satoshi : ℕ → ℕ) where
  abbrev pub CommissionCall : Type 0 → Type 0
  CommissionCall A = Effect CommissionError (CommissionDb W) A

  -- `update({ where: { id: c.id }, data: { isApproved, paid } })`
  abbrev pub approve_row : ℕ → CommissionRow → CommissionCall (Unit {0})
  approve_row value c = gets (λ s. find? (with_row c.id) s.rows) >>= λ found.
      or_raise found row_not_found
      >> modify (λ s. record s {
        rows =
            update_where (with_row c.id)
              (λ x. record x { is_approved = true; paid = paid_at value c }) s.rows;
      })

  abbrev pub approve_rows : ℕ → List CommissionRow → CommissionCall (Unit {0})
  approve_rows value [] = pure tt
  approve_rows value (c ∷ cs) = approve_row value c >> approve_rows value cs

  abbrev pub pay_out : PayCommission → CommissionCall (Unit {0})
  pay_out payload s = let (r, w) = send payload s.wallet in (r, record s { wallet = w })

  -- The transaction that nothing waits for: the call returns whether it has been committed or not,
  -- and its error is lost.
  abbrev pub detach : Bool → CommissionCall (Unit {0}) → CommissionCall (Unit {0})
  detach true m s = (ok tt, (atomically m s).1)
  detach false m s = (ok tt, s)

  -- What follows the tests, with the commission in hundredths.
  abbrev pub pay_commissions :
      Bool → ℕ → ℕ → List CommissionRow → Option SatoshiRow → ℕ → CommissionCall (Unit {0})
  pay_commissions commits account_id tx_id commissions available total =
      or_raise (find_rate total) type_error >>= λ r. or_raise available type_error >>= λ balance.
      pay_out (record {
        version = balance.version;
        tx_id = tx_id;
        amount = to_satoshi total;
        currency_id = balance.currency_id;
        receiver_id = account_id;
      })
      >> detach commits (
          approve_rows r.value commissions
          >> modify (λ s. record s { noticed = s.noticed ++ (account_id, tx_id) ∷ [] }))

  -- `approvedCommissionForPartner`; `commits` tells whether its transaction has been committed when
  -- the next call runs.
  unfoldable pub approve_commissions : Bool → ℕ → ℕ → List ℕ → CommissionCall (Unit {0})
  approve_commissions commits account_id tx_id ids =
      gets (λ s. find? (λ a. a.id == account_id && a.is_partner) s.partners) >>= λ account.
      or_raise account account_invalid
      >> gets (λ s. select_where (λ c. member ids c.id) s.rows)
      >>= λ commissions.
          raise_if (not (count_where (is_invalid account_id) commissions == 0)) commission_invalid
          >> gets (λ s. find? (λ b. b.account_id == account_id) s.satoshi)
          >>= λ available.
              or_raise (calculate_commission (sum_commissions commissions)) type_error >>= λ total.
              raise_if (total == 0) commission_invalid
              >> pay_commissions commits account_id tx_id commissions available total
