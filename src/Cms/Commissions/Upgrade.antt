-- ===== src/Cms/Commissions/Upgrade.antt =====
-- upgradePartnerUser, which makes an account a partner, and what it opens.
use system_chat.Base.{
  ℕ, ◌≡◌, refl, ◌==◌, ◌&&◌, ◌||◌, Bool, true, not, Bool-cases, Option-cases, inl, inr, some, none,
  List, [], ◌∷◌, ◌++◌, err, is_ok, arith, ◌>>=◌, ◌>>◌, gets, modify, or_raise, raise_if, find?,
  update_where, contradiction, Result,
}
use system_chat.Accounts.Rows.{is_some, pushed}
use system_chat.Cms.Commissions.{
  CommissionDb, CommissionError, CommissionCall, PartnerRow, PayCommission, UpgradeEntry,
  account_invalid, row_refused,
}

abbrev pub upgraded : UpgradeEntry → PartnerRow → PartnerRow → PartnerRow
upgraded entry found a = record a { is_partner = true; histories = pushed entry found.histories }

-- `{ id, isPartner: false }`, and the test of approvedCommissionForPartner
abbrev pub is_no_partner : ℕ → PartnerRow → Bool
is_no_partner id a = a.id == id && not a.is_partner

abbrev is_partner_of : ℕ → PartnerRow → Bool
is_partner_of id a = a.id == id && a.is_partner

module _ {W : Type 0} (send : PayCommission → W → Result CommissionError (Unit {0}) × W)
    (to_satoshi : ℕ → ℕ) where
  -- `upgradePartnerUser`. Whether the database takes null in a column of type Json, and whether it
  -- has the user for the row of `account_history`, are arguments.
  unfoldable pub upgrade_partner_user :
      Bool → Bool → ℕ → ℕ → ℕ → CommissionCall send to_satoshi (Unit {0})
  upgrade_partner_user takes_null has_user at id updated_by =
      gets (λ s. find? (is_no_partner id) s.partners) >>= λ found.
      or_raise found account_invalid >>= λ account.
      raise_if (not (is_some account.histories || takes_null)) row_refused
      >> raise_if (not has_user) row_refused
      >> modify (λ s. record s {
        partners =
            update_where (λ a. a.id == id)
              (upgraded (record { updated_at = at; updated_by = updated_by }) account) s.partners;
        upgrades = s.upgrades ++ (id, record { updated_at = at; updated_by = updated_by }) ∷ [];
      })

none_left :
    (entry : UpgradeEntry) (found : PartnerRow) (id : ℕ) (rows : List PartnerRow)
    → find? (is_no_partner id) (update_where (λ a. a.id == id) (upgraded entry found) rows) ≡ none
none_left entry found id [] = refl
none_left entry found id (a ∷ rows) = elim (Bool-cases (a.id == id)) [
  | inl hit ↦ rw hit (rw hit (none_left entry found id rows))
  | inr miss ↦ rw miss (rw miss (none_left entry found id rows))
]

now_partner :
    (entry : UpgradeEntry) (found row : PartnerRow) (id : ℕ) (rows : List PartnerRow)
    → find? (is_no_partner id) rows ≡ some row
    → is_some
        (find? (is_partner_of id) (update_where (λ a. a.id == id) (upgraded entry found) rows))
      ≡ true
now_partner entry found row id [] h = absurd (ground (arith, h))
now_partner entry found row id (a ∷ rows) h = elim (Bool-cases (a.id == id)) [
  | inl hit ↦ rw hit (rw hit refl)
  | inr miss ↦
      let rest : find? (is_no_partner id) rows ≡ some row = ground (arith, h, miss) in
      rw miss (rw miss (now_partner entry found row id rows rest))
]

module _ {W : Type 0} (send : PayCommission → W → Result CommissionError (Unit {0}) × W)
    (to_satoshi : ℕ → ℕ) where
  -- Once an account has been upgraded, approvedCommissionForPartner finds it as a partner, and
  -- another upgrade of it is refused and changes nothing.
  pub upgrade_partner_user_once :
      (takes_null has_user takes_null' has_user' : Bool) (at at' id updated_by updated_by' : ℕ)
      (s : CommissionDb W)
      → is_ok (upgrade_partner_user send to_satoshi takes_null has_user at id updated_by s).0 ≡ true
      → let s' = (upgrade_partner_user send to_satoshi takes_null has_user at id updated_by s).1 in
        (is_some (find? (λ a. a.id == id && a.is_partner) s'.partners) ≡ true)
        × (upgrade_partner_user send to_satoshi takes_null' has_user' at' id updated_by' s'
            ≡ (err account_invalid, s'))
  unfolding upgrade_partner_user
  upgrade_partner_user_once takes_null has_user takes_null' has_user' at at' id by by' s done =
      elim (Option-cases (find? (is_no_partner id) s.partners)) [
        | inl missing ↦ contradiction _ done (rw missing refl)
        | inr (row, found) ↦ elim (Bool-cases (is_some row.histories || takes_null)) [
          | inr refused ↦ contradiction _ done (rw found (rw refused refl))
          | inl taken ↦ elim (Bool-cases has_user) [
            | inr unknown ↦ contradiction _ done (rw found (rw taken (rw unknown refl)))
            | inl known ↦
                let entry : UpgradeEntry = record { updated_at = at; updated_by = by } in
                rw found (
                  rw taken (
                    rw known (
                      now_partner entry row row id s.partners found,
                      rw (none_left entry row id s.partners) refl,
                    )))
          ]
        ]
      ]
