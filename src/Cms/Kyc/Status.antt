-- ===== src/Cms/Kyc/Status.antt =====
-- The states of eKYC: what changeKycStatus allows.
use system_chat.Base.{
  ℕ, ◌==◌, ◌≡◌, refl, sym, subst, ap, Bool, true, false, not, ◌&&◌, contradiction, restore, after,
  modify, ◌>>◌, ◌++◌, ◌∷◌, [], ◌||◌, Option, some, none, inl, inr, Result, ok, err, is_ok, arith,
  Bool-cases, Option-cases, Result-cases, when, find?, update_where, find?-update_where,
}
use system_chat.Accounts.Rows.{is_some}
use system_chat.Cms.Kyc.{
  store_row, count_kyc, kyc_notice, kyc_approved, KycAccount, KycReferral, KycDb, KycCall, KycError,
  ApproveKyc, kyc_status_invalid, has_id, approved_row, process_cashback, store_status,
  change_kyc_status,
}

module _ (approve : ApproveKyc → KycCall (Unit {0})) where
  -- What the transaction at the end leaves, where it commits.
  record IsStored (at id kyc_status : ℕ) (a : KycAccount) (s s' : KycDb) : Type 0 where
    row : KycAccount
    is_row : find? (has_id id) s.accounts ≡ some row
    leaves : s'.accounts ≡ update_where (has_id id) (approved_row at kyc_status a) s.accounts

  -- The end of the transaction, from any state before it.
  store_row_ok :
      (takes_null : Bool) (at id kyc_status : ℕ) (a : KycAccount) (s : KycDb)
      → is_ok (store_row approve takes_null at id kyc_status a s).0 ≡ true
      → IsStored at id kyc_status a s (store_row approve takes_null at id kyc_status a s).1
  store_row_ok takes_null at id kyc_status a s done =
      elim (Bool-cases (not (is_some a.histories) && not takes_null)) [
        | inl null ↦ contradiction _ done (rw null refl)
        | inr written ↦ elim (Option-cases (find? (has_id id) s.accounts)) [
          | inl missing ↦ contradiction _ done (rw (written, missing) refl)
          | inr (b, found) ↦ record { row = b; is_row = found; leaves = rw (written, found) refl }
        ]
      ]

  -- A transaction whose first part leaves the accounts as they are, by the answer of that part.
  committed :
      (end : KycCall (Unit {0})) (at id kyc_status : ℕ) (a : KycAccount) (s : KycDb)
      (r : Result KycError (Unit {0}) × KycDb)
      → ((s1 : KycDb) → is_ok (end s1).0 ≡ true → IsStored at id kyc_status a s1 (end s1).1)
      → r.1.accounts ≡ s.accounts
      → (let final = after r.0 (λ _. end) r.1 in
          is_ok (restore final.0 s final.1).0 ≡ true
          → IsStored at id kyc_status a s (restore final.0 s final.1).1)
  committed end at id kyc_status a s (err e, s1) stored kept done = contradiction false done refl
  committed end at id kyc_status a s (ok u, s1) stored kept done = elim (Result-cases (end s1).0) [
    | inl (e, failed) ↦ contradiction _ done (rw failed refl)
    | inr (u', ended) ↦
        let h = stored s1 (rw ended refl) in
        rw ended
          (record { row = h.row; is_row = rw (sym kept) h.is_row; leaves = rw (sym kept) h.leaves })
  ]

  first_part : ℕ → ℕ → Option KycReferral → KycCall (Unit {0})
  first_part id kyc_status referral =
      when (kyc_status == kyc_approved) (count_kyc approve referral)
      >> modify (λ s. record s {
        notices = s.notices ++ record { account_id = some id; type = kyc_notice; ref = none } ∷ [];
      })

  first_part_keeps :
      (id kyc_status : ℕ) (referral : Option KycReferral) (s : KycDb)
      → (first_part id kyc_status referral s).1.accounts ≡ s.accounts
  unfolding first_part
  first_part_keeps id kyc_status none s = ground arith
  first_part_keeps id kyc_status (some r) s = ground arith

  store_status_ok :
      (takes_null : Bool) (at id kyc_status : ℕ) (a : KycAccount) (referral : Option KycReferral)
      (s : KycDb)
      → is_ok (store_status approve takes_null at id kyc_status a referral s).0 ≡ true
      → IsStored at id kyc_status a s
          (store_status approve takes_null at id kyc_status a referral s).1
  unfolding first_part
  store_status_ok takes_null at id kyc_status a referral s done =
      committed (store_row approve takes_null at id kyc_status a) at id kyc_status a s
        (first_part id kyc_status referral s) (store_row_ok takes_null at id kyc_status a)
        (first_part_keeps id kyc_status referral s) done

  -- A change that passes its tests and pays out comes to its last transaction.
  change_runs :
      (takes_null : Bool) (at id kyc_status : ℕ) (a : KycAccount) (s s' : KycDb)
      → find? (has_id id) s.accounts ≡ some a
      → (a.kyc_status == kyc_status || a.kyc_status == kyc_approved) ≡ false
      → when (kyc_status == kyc_approved) (process_cashback approve id) s ≡ (ok tt, s')
      → change_kyc_status approve takes_null at id kyc_status s
        ≡ store_status approve takes_null at id kyc_status a
            (find? (λ r. r.referral_from == id) s.referrals)
            s'
  unfolding change_kyc_status
  change_runs takes_null at id kyc_status a s s' found new paid = rw (found, new, paid) refl

  record IsChanged (takes_null : Bool) (at id kyc_status : ℕ) (s : KycDb) : Type 0 where
    account : KycAccount
    before_end : KycDb
    was_found : find? (has_id id) s.accounts ≡ some account
    is_new : (account.kyc_status == kyc_status || account.kyc_status == kyc_approved) ≡ false
    is_stored :
        IsStored at id kyc_status account before_end
          (change_kyc_status approve takes_null at id kyc_status s).1

  change_passes :
      (takes_null : Bool) (at id kyc_status : ℕ) (s : KycDb)
      → is_ok (change_kyc_status approve takes_null at id kyc_status s).0 ≡ true
      → IsChanged takes_null at id kyc_status s
  unfolding change_kyc_status
  change_passes takes_null at id kyc_status s done =
      let referral = find? (λ r. r.referral_from == id) s.referrals in
      elim (Option-cases (find? (has_id id) s.accounts)) [
        | inl missing ↦ ground (arith, missing, done)
        | inr (a, found) ↦
            let paid : Result KycError (Unit {0}) × KycDb =
              when (kyc_status == kyc_approved) (process_cashback approve id) s in
            elim (Bool-cases (a.kyc_status == kyc_status || a.kyc_status == kyc_approved)) [
              | inl settled ↦ ground (arith, found, settled, done)
              | inr new ↦ elim (Result-cases paid.0) [
                | inl (e, failed) ↦ ground (arith, found, new, failed, done)
                | inr (u, paid_ok) ↦
                    let runs =
                      change_runs takes_null at id kyc_status a s paid.1 found new
                        (ap (λ r. (r, paid.1)) paid_ok) in
                    record {
                      account = a;
                      before_end = paid.1;
                      was_found = found;
                      is_new = new;
                      is_stored =
                          subst (λ r. IsStored at id kyc_status a paid.1 r.1) (sym runs)
                            (store_status_ok takes_null at id kyc_status a referral paid.1
                              (subst (λ r. is_ok r.0 ≡ true) runs done));
                    }
              ]
            ]
      ]

  change_refused :
      (takes_null : Bool) (at id kyc_status : ℕ) (b : KycAccount) (s : KycDb)
      → find? (has_id id) s.accounts ≡ some b
      → b.kyc_status ≡ kyc_approved
      → change_kyc_status approve takes_null at id kyc_status s ≡ (err kyc_status_invalid, s)
  unfolding change_kyc_status
  change_refused takes_null at id kyc_status b s found approved = ground (arith, found, approved)

  -- Whatever the wallet does, approval is final: the account then has the status approved with the
  -- moment of its approval, and every later change is refused and changes nothing.
  pub change_kyc_status_final :
      (takes_null takes_null' : Bool) (at at' id kyc_status : ℕ) (s : KycDb)
      → let approval = change_kyc_status approve takes_null at id kyc_approved s in
        is_ok approval.0 ≡ true
        → ((b : KycAccount) × (find? (has_id id) approval.1.accounts ≡ some b)
            × (b.kyc_status ≡ kyc_approved)
            × (b.kyc_approval_at ≡ some at))
          × (change_kyc_status approve takes_null' at' id kyc_status approval.1
              ≡ (err kyc_status_invalid, approval.1))
  change_kyc_status_final takes_null takes_null' at at' id kyc_status s done =
      let h = change_passes takes_null at id kyc_approved s done in
      let stored = h.is_stored in
      let f = approved_row at kyc_approved h.account in
      let s' = (change_kyc_status approve takes_null at id kyc_approved s).1 in
      let found : find? (has_id id) s'.accounts ≡ some (f stored.row) = rw stored.leaves (
        find?-update_where (has_id id) f stored.row h.before_end.accounts (λ x e. e)
          stored.is_row) in
      (
        (f stored.row, found, refl, refl),
        change_refused takes_null' at' id kyc_status (f stored.row) s' found refl,
      )
