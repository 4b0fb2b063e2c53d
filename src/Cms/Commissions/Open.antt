-- ===== src/Cms/Commissions/Open.antt =====
-- What updates of commissions leave of the rows with one id.
use system_chat.Base.{
  ℕ, ◌==◌, ◌≡◌, refl, Bool, true, false, not, ◌&&◌, some, List, [], ◌∷◌, inl, inr, arith,
  Bool-cases, find?, count_where, update_where, count_where-update_where_kept, if◌then◌else◌,
}
use system_chat.Cms.Commissions.{CommissionRow, member, is_invalid, with_row, paid_at}

-- The rows with an id that are not approved.
abbrev pub is_open : ℕ → CommissionRow → Bool
is_open n c = c.id == n && not c.is_approved

abbrev pub approve_in : ℕ → CommissionRow → List CommissionRow → List CommissionRow
approve_in value c rows =
    update_where (with_row c.id) (λ x. record x { is_approved = true; paid = paid_at value c }) rows

pub open-approve_in :
    (value n : ℕ) (c : CommissionRow) (rows : List CommissionRow)
    → count_where (is_open n) (approve_in value c rows)
      ≡ (if c.id == n then 0 else count_where (is_open n) rows)
open-approve_in value n c [] = ground arith
open-approve_in value n c (x ∷ rows) = ground (arith, open-approve_in value n c rows)

-- An id that a list has is a row's.
abbrev pub is_lost : List CommissionRow → CommissionRow → Bool
is_lost rows c = count_where (with_row c.id) rows == 0

pub kept_ids :
    (value m : ℕ) (c : CommissionRow) (rows : List CommissionRow)
    → count_where (with_row m) (approve_in value c rows) ≡ count_where (with_row m) rows
kept_ids value m c rows =
    count_where-update_where_kept (with_row c.id) (with_row m)
      (λ x. record x { is_approved = true; paid = paid_at value c }) rows (λ x h. refl)

pub found_of_count :
    (n : ℕ) (rows : List CommissionRow)
    → (count_where (with_row n) rows == 0) ≡ false
    → (c : CommissionRow) × (find? (with_row n) rows ≡ some c)
found_of_count n [] h = ground (arith, h)
found_of_count n (x ∷ rows) h = elim (Bool-cases (x.id == n)) [
  | inl same ↦ (x, rw same refl)
  | inr other ↦
      let (c, found) = found_of_count n rows (ground (arith, other, h)) in (c, rw other found)
]

pub same_member :
    (ids : List ℕ) (n : ℕ) (c : CommissionRow)
    → member ids n ≡ true
    → with_row n c ≡ true
    → (member ids c.id && with_row n c) ≡ true
same_member ids n c listed same =
    let id : c.id ≡ n = ground (arith, same) in rw id (rw listed (ground arith))

-- A list that has an approved row is invalid.
pub invalid_listed :
    (account_id n : ℕ) (ids : List ℕ) (rows : List CommissionRow)
    → member ids n ≡ true
    → count_where (is_open n) rows ≡ 0
    → (count_where (with_row n) rows == 0) ≡ false
    → (count_where (λ c. member ids c.id && is_invalid account_id c) rows == 0) ≡ false
invalid_listed account_id n ids [] listed none_open has_row = ground (arith, has_row)
invalid_listed account_id n ids (x ∷ rows) listed none_open has_row =
    elim (Bool-cases (x.id == n)) [
      | inl same ↦ ground (arith, same, none_open, same_member ids n x listed same)
      | inr other ↦ ground (
        arith,
        other,
        none_open,
        has_row,
        invalid_listed account_id n ids rows listed (ground (arith, other, none_open))
            (ground (arith, other, has_row)),
      )
    ]
