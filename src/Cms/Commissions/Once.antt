-- ===== src/Cms/Commissions/Once.antt =====
-- A commission that was approved is not approved again.
use system_chat.Base.{
  ℕ, Bool, contradiction, ◌==◌, ◌≡◌, refl, sym, subst, ◌∙◌, true, false, not, ◌&&◌, Option, some,
  none, List, [], ◌∷◌, ◌++◌, inl, inr, Result, Result-cases, ok, err, is_ok, arith, Bool-cases,
  Option-cases, ◌>>◌, modify, find?, select_where, count_where, count_where-select_where,
  count_where_related, count_where_of_find?, count_where_implied,
}
use system_chat.Cms.Commissions.{
  CommissionRow, CommissionDb, CommissionError, PayCommission, SatoshiRow, PartnerRow,
  commission_invalid, member, is_invalid, with_row, sum_commissions, find_rate,
  calculate_commission, approve_row, approve_rows, detach, pay_commissions, approve_commissions,
}
use system_chat.Cms.Commissions.Open.{
  is_open, approve_in, open-approve_in, is_lost, kept_ids, found_of_count, same_member,
  invalid_listed,
}

module _ {W : Type 0} (send : PayCommission → W → Result CommissionError (Unit {0}) × W)
    (to_satoshi : ℕ → ℕ) where
  approve_row_done :
      (value : ℕ) (c : CommissionRow) (s : CommissionDb W)
      → is_lost s.rows c ≡ false
      → approve_row send to_satoshi value c s
        ≡ (ok tt, record s { rows = approve_in value c s.rows })
  approve_row_done value c s known =
      let (x, found) = found_of_count c.id s.rows known in rw found refl

  -- What the updates of all rows of a list leave.
  record IsRun (value n : ℕ) (cs : List CommissionRow) (s : CommissionDb W) : Type 0 where
    rows : List CommissionRow
    runs : approve_rows send to_satoshi value cs s ≡ (ok tt, record s { rows = rows })
    has_row : count_where (with_row n) rows ≡ count_where (with_row n) s.rows
    none_open : count_where (is_open n) rows ≡ 0

  approve_rows_done :
      (value n : ℕ) (cs : List CommissionRow) (s : CommissionDb W)
      → count_where (is_lost s.rows) cs ≡ 0
      → (count_where (with_row n) cs == 0 && not (count_where (is_open n) s.rows == 0)) ≡ false
      → IsRun value n cs s
  approve_rows_done value n [] s known covered = record {
    rows = s.rows;
    runs = refl;
    has_row = refl;
    none_open = ground (arith, covered);
  }
  approve_rows_done value n (c ∷ cs) s known covered =
      let s1 : CommissionDb W = record s { rows = approve_in value c s.rows } in
      let known' : count_where (is_lost s1.rows) cs ≡ 0 =
        count_where_implied (is_lost s.rows) (is_lost s1.rows) cs
          (λ x h. ground (arith, h, kept_ids value x.id c s.rows)) (omega (arith, known)) in
      let rest =
        approve_rows_done value n cs s1 known'
          (ground (arith, covered, open-approve_in value n c s.rows)) in
      record {
        rows = rest.rows;
        runs = rw (approve_row_done value c s (ground (arith, known))) rest.runs;
        has_row = rest.has_row ∙ kept_ids value n c s.rows;
        none_open = rest.none_open;
      }

  -- What an approval with the result ok leaves of the rows with an id.
  record IsApproval (n : ℕ) (s s' : CommissionDb W) : Type 0 where
    has_partners : s'.partners ≡ s.partners
    has_row : count_where (with_row n) s'.rows ≡ count_where (with_row n) s.rows
    none_open : count_where (is_open n) s'.rows ≡ 0

  detach_leaves :
      (value n account_id tx_id : ℕ) (cs : List CommissionRow) (s : CommissionDb W)
      → IsRun value n cs s
      → IsApproval n s
          (detach send to_satoshi true
            (approve_rows send to_satoshi value cs
              >> modify (λ s. record s { noticed = s.noticed ++ (account_id, tx_id) ∷ [] }))
            s).1
  detach_leaves value n account_id tx_id cs s run =
      rw run.runs (record { has_partners = refl; has_row = run.has_row; none_open = run.none_open })

  pay_leaves :
      (n account_id tx_id total : ℕ) (cs : List CommissionRow) (available : Option SatoshiRow)
      (s : CommissionDb W)
      → count_where (is_lost s.rows) cs ≡ 0
      → (count_where (with_row n) cs == 0) ≡ false
      → is_ok (pay_commissions send to_satoshi true account_id tx_id cs available total s).0 ≡ true
      → IsApproval n s
          (pay_commissions send to_satoshi true account_id tx_id cs available total s).1
  pay_leaves n account_id tx_id total cs none s known covered done =
      elim (Option-cases (find_rate total)) [
        | inl missing ↦ ground (arith, missing, done)
        | inr (r, found) ↦ ground (arith, found, done)
      ]
  pay_leaves n account_id tx_id total cs (some balance) s known covered done =
      elim (Option-cases (find_rate total)) [
        | inl missing ↦ ground (arith, missing, done)
        | inr (r, found) ↦
            let payload : PayCommission = record {
              version = balance.version;
              tx_id = tx_id;
              amount = to_satoshi total;
              currency_id = balance.currency_id;
              receiver_id = account_id;
            } in
            elim (Result-cases (send payload s.wallet).0) [
              | inl (e, refused) ↦ ground (arith, found, refused, done)
              | inr (u, paid) ↦
                  let s1 : CommissionDb W = record s { wallet = (send payload s.wallet).1 } in
                  let left =
                    detach_leaves r.value n account_id tx_id cs s1
                      (approve_rows_done r.value n cs s1 known (ground (arith, covered))) in
                  rw (found, paid)
                    (record {
                      has_partners = left.has_partners;
                      has_row = left.has_row;
                      none_open = left.none_open;
                    })
            ]
      ]

  abbrev pub selected : List ℕ → CommissionDb W → List CommissionRow
  selected ids s = select_where (λ c. member ids c.id) s.rows

  abbrev pub available_of : ℕ → CommissionDb W → Option SatoshiRow
  available_of account_id s = find? (λ b. b.account_id == account_id) s.satoshi

  -- The tests of an approval.
  pub record IsAccepted (account_id : ℕ) (ids : List ℕ) (s : CommissionDb W) : Type 0 where
    pub partner : PartnerRow
    pub share : ℕ
    pub found : find? (λ a. a.id == account_id && a.is_partner) s.partners ≡ some partner
    pub valid : (count_where (is_invalid account_id) (selected ids s) == 0) ≡ true
    pub is_share : calculate_commission (sum_commissions (selected ids s)) ≡ some share
    pub something : (share == 0) ≡ false

  -- An approval that passes its tests comes to the payment.
  pub approve_runs :
      (commits : Bool) (account_id tx_id : ℕ) (ids : List ℕ) (s : CommissionDb W)
      (h : IsAccepted account_id ids s)
      → approve_commissions send to_satoshi commits account_id tx_id ids s
        ≡ pay_commissions send to_satoshi commits account_id tx_id
            (selected ids s)
            (available_of account_id s)
            h.share
            s
  unfolding approve_commissions
  approve_runs commits account_id tx_id ids s h =
      rw (h.found, h.valid, h.is_share, h.something) refl

  -- An approval that returns has passed them.
  pub IsAccepted-of :
      (commits : Bool) (account_id tx_id : ℕ) (ids : List ℕ) (s : CommissionDb W)
      → is_ok (approve_commissions send to_satoshi commits account_id tx_id ids s).0 ≡ true
      → IsAccepted account_id ids s
  unfolding approve_commissions
  IsAccepted-of commits account_id tx_id ids s done =
      let cs = selected ids s in
      let total = calculate_commission (sum_commissions cs) in
      elim (Option-cases (find? (λ a. a.id == account_id && a.is_partner) s.partners)) [
        | inl missing ↦ contradiction _ done (rw missing refl)
        | inr (a, found) ↦ elim (Bool-cases (count_where (is_invalid account_id) cs == 0)) [
          | inr invalid ↦ contradiction _ done (rw (found, invalid) refl)
          | inl valid ↦ elim (Option-cases total) [
            | inl missing ↦ contradiction _ done (rw (found, valid, missing) refl)
            | inr (share, is_share) ↦ elim (Bool-cases (share == 0)) [
              | inl nothing ↦ contradiction _ done (rw (found, valid, is_share, nothing) refl)
              | inr something ↦ record {
                partner = a;
                share = share;
                found = found;
                valid = valid;
                is_share = is_share;
                something = something;
              }
            ]
          ]
        ]
      ]

  known_rows :
      (ids : List ℕ) (s : CommissionDb W) → count_where (is_lost s.rows) (selected ids s) ≡ 0
  known_rows ids s =
      count_where-select_where (is_lost s.rows) (λ c. member ids c.id) s.rows
      ∙ count_where_related (λ c. member ids c.id) (λ c x. x.id == c.id) s.rows
          (λ c h. ground arith)

  covers :
      (n : ℕ) (ids : List ℕ) (s : CommissionDb W)
      → member ids n ≡ true
      → (count_where (with_row n) s.rows == 0) ≡ false
      → (count_where (with_row n) (selected ids s) == 0) ≡ false
  covers n ids s listed has_row =
      let none_lost =
        count_where_implied (λ c. member ids c.id && with_row n c) (with_row n) s.rows
          (λ c h. same_member ids n c listed h) in
      ground (
        arith,
        has_row,
        none_lost,
        count_where-select_where (with_row n) (λ c. member ids c.id) s.rows,
      )

  approve_leaves :
      (n account_id tx_id : ℕ) (ids : List ℕ) (s : CommissionDb W)
      → member ids n ≡ true
      → (count_where (with_row n) s.rows == 0) ≡ false
      → is_ok (approve_commissions send to_satoshi true account_id tx_id ids s).0 ≡ true
      → IsApproval n s (approve_commissions send to_satoshi true account_id tx_id ids s).1
  approve_leaves n account_id tx_id ids s listed has_row done =
      let h = IsAccepted-of true account_id tx_id ids s done in
      let runs = approve_runs true account_id tx_id ids s h in
      subst (λ r. IsApproval n s r.1) (sym runs)
        (pay_leaves n account_id tx_id h.share (selected ids s) (available_of account_id s) s
          (known_rows ids s) (covers n ids s listed has_row)
          (subst (λ r. is_ok r.0 ≡ true) runs done))

  second_refused :
      (account_id tx_id : ℕ) (ids : List ℕ) (a : PartnerRow) (s : CommissionDb W)
      → find? (λ a. a.id == account_id && a.is_partner) s.partners ≡ some a
      → (count_where (is_invalid account_id) (selected ids s) == 0) ≡ false
      → approve_commissions send to_satoshi true account_id tx_id ids s
        ≡ (err commission_invalid, s)
  unfolding approve_commissions
  second_refused account_id tx_id ids a s found invalid = rw (found, invalid) refl

  -- Once an approval has returned and its transaction has been committed, each of the commissions
  -- that it named is approved: another approval for the account that names one of them is refused,
  -- and changes and pays nothing. Where the transaction fails or is still to come, this says nothing.
  pub approve_commissions_once :
      (n account_id tx_id tx_id' : ℕ) (ids ids' : List ℕ) (c : CommissionRow) (s : CommissionDb W)
      → find? (with_row n) s.rows ≡ some c
      → member ids n ≡ true
      → member ids' n ≡ true
      → let first = approve_commissions send to_satoshi true account_id tx_id ids s in
        is_ok first.0 ≡ true
        → approve_commissions send to_satoshi true account_id tx_id' ids' first.1
          ≡ (err commission_invalid, first.1)
  unfolding approve_commissions
  approve_commissions_once n account_id tx_id tx_id' ids ids' c s found listed listed' done =
      let has_row : (count_where (with_row n) s.rows == 0) ≡ false =
        ground (arith, count_where_of_find? (with_row n) c s.rows found) in
      let s1 = (approve_commissions send to_satoshi true account_id tx_id ids s).1 in
      let left = approve_leaves n account_id tx_id ids s listed has_row done in
      let invalid : (count_where (is_invalid account_id) (selected ids' s1) == 0) ≡ false = ground (
        arith,
        has_row,
        left.has_row,
        invalid_listed account_id n ids' s1.rows listed' left.none_open,
        count_where-select_where (is_invalid account_id) (λ c. member ids' c.id) s1.rows,
      ) in
      let h = IsAccepted-of true account_id tx_id ids s done in
      second_refused account_id tx_id' ids' h.partner s1 (rw left.has_partners h.found) invalid
