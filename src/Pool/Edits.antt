-- ===== src/Pool/Edits.antt =====
-- Deposits into a pool and withdrawals from it: what they write, and that they undo one another.
use system_chat.Base.{
  ℕ, ◌≡◌, refl, ap, ◌∙◌, All, Bool-cases, Option-cases, inl, inr, some, none, List, [], ◌∷◌, ◌++◌,
  ℤ, pos, ◌+ℤ◌, ◌-ℤ◌, ◌≤ℤ◌, ltb_ℤ, int_laws, ok, arith, find?, update_where, if◌then◌else◌,
  find?-update_where,
}
use system_chat.Pool.{
  Call, perform, perform_all, PoolValue, PoolHistory, PoolDb, Arithmetic, EditPoolValue, has_id,
  deposit_pool_value, deposit_body, withdrawal_pool_value, withdrawal_body,
}
use system_chat.Pool.Events.{update_pool_found}
use system_chat.Pool.Ledger.{
  IsBooked, IsBooked-change, IsBooked-same, SamePools, Grows, Grows-append, Grows-same, Shifts,
}
use system_chat.Pool.Calls.{
  entry, update_pool_claim_golden_egg-IsBooked, update_pool_buy_egg_event-IsBooked,
  update_pool_sell_golden_egg-IsBooked,
}

abbrev pub deposit_change : EditPoolValue → PoolValue → PoolValue
deposit_change input row = record row {
  bbc_value = row.bbc_value +ℤ input.bbc_value;
  egg_value = row.egg_value +ℤ input.egg_value;
  updated_id = some input.updated_id;
}

abbrev pub withdrawal_change : EditPoolValue → PoolValue → PoolValue
withdrawal_change input row = record row {
  bbc_value = row.bbc_value -ℤ input.bbc_value;
  egg_value = row.egg_value -ℤ input.egg_value;
  updated_id = some input.updated_id;
}

-- An entry that is written only for a positive amount.
abbrev pub append_if : ℤ → PoolHistory → List PoolHistory → List PoolHistory
append_if amount e entries = if ltb_ℤ (pos 0) amount then entries ++ e ∷ [] else entries

-- Amounts that are not negative.
abbrev pub IsNonneg : EditPoolValue → Type 0
IsNonneg input = (pos 0 ≤ℤ input.bbc_value) × (pos 0 ≤ℤ input.egg_value)

Grows-append_if :
    (id : ℕ) (e : PoolHistory) (entries : List PoolHistory) (amount d : ℤ)
    → e.pool_id ≡ id
    → e.in_value -ℤ e.out_value ≡ d
    → (amount ≡ pos 0 → d ≡ pos 0)
    → pos 0 ≤ℤ amount
    → Grows id d entries (append_if amount e entries)
Grows-append_if id e entries amount d same value zero nonneg =
    elim (Bool-cases (ltb_ℤ (pos 0) amount)) [
      | inl positive ↦ rw positive (Grows-append id e entries d same value)
      | inr other ↦
          let none_left : amount ≡ pos 0 = ground arith in
          rw (other, zero none_left) (Grows-same id entries)
    ]

negated : (v : ℤ) → v ≡ pos 0 → pos 0 -ℤ v ≡ pos 0
negated v e = rw e (omega int_laws)

restored :
    (input : EditPoolValue) (pool : PoolValue)
    → withdrawal_change input (deposit_change input pool)
      ≡ record pool { updated_id = some input.updated_id }
restored input pool =
    let egg : pool.egg_value +ℤ input.egg_value -ℤ input.egg_value ≡ pool.egg_value =
      omega int_laws in
    let bbc : pool.bbc_value +ℤ input.bbc_value -ℤ input.bbc_value ≡ pool.bbc_value =
      omega int_laws in
    ground arith

module _ (a : Arithmetic) (now : ℕ) (input : EditPoolValue) (pool : PoolValue) (s : PoolDb)
    (found : find? (has_id input.pool_id) s.pool_values ≡ some pool) where
  abbrev pub deposited : PoolDb
  deposited = record s {
    pool_values = update_where (has_id input.pool_id) (deposit_change input) s.pool_values;
    bbc_histories =
        append_if input.bbc_value
          (entry input.pool_id input.bbc_value (pos 0)
            (a.to_fixed 2 (a.add pool.bbc_value input.bbc_value)) now)
          s.bbc_histories;
    egg_histories =
        append_if input.egg_value
          (entry input.pool_id input.egg_value (pos 0)
            (a.to_fixed 2 (a.add pool.egg_value input.egg_value)) now)
          s.egg_histories;
  }

  abbrev pub withdrawn : PoolDb
  withdrawn = record s {
    pool_values = update_where (has_id input.pool_id) (withdrawal_change input) s.pool_values;
    bbc_histories =
        append_if input.bbc_value
          (entry input.pool_id (pos 0) input.bbc_value
            (a.to_fixed 2 (a.minus pool.bbc_value input.bbc_value)) now)
          s.bbc_histories;
    egg_histories =
        append_if input.egg_value
          (entry input.pool_id (pos 0) input.egg_value
            (a.to_fixed 2 (a.minus pool.egg_value input.egg_value)) now)
          s.egg_histories;
  }

  deposit-SamePools : SamePools deposited (deposit_pool_value a now input s).1
  unfolding deposit_pool_value deposit_body
  deposit-SamePools =
      ground (arith, update_pool_found input.pool_id (deposit_change input) pool s found)

  withdrawal-SamePools : SamePools withdrawn (withdrawal_pool_value a now input s).1
  unfolding withdrawal_pool_value withdrawal_body
  withdrawal-SamePools =
      ground (arith, update_pool_found input.pool_id (withdrawal_change input) pool s found)

  deposit-IsBooked :
      (eggs bbc : ℕ → ℤ)
      → IsNonneg input
      → IsBooked eggs bbc s
      → IsBooked eggs bbc (deposit_pool_value a now input s).1
  deposit-IsBooked eggs bbc nonneg h =
      let id = input.pool_id in
      let shifts : Shifts input.egg_value input.bbc_value (deposit_change input) =
        λ row. (refl, refl, refl) in
      IsBooked-same eggs bbc deposited (deposit_pool_value a now input s).1 deposit-SamePools (
        IsBooked-change eggs bbc id input.egg_value input.bbc_value s deposited
          (deposit_change input) shifts
          (Grows-append_if id
            (entry id input.egg_value (pos 0) (a.to_fixed 2 (a.add pool.egg_value input.egg_value))
              now)
            s.egg_histories input.egg_value input.egg_value refl (omega int_laws) (λ e. e) nonneg.1)
          (Grows-append_if id
            (entry id input.bbc_value (pos 0) (a.to_fixed 2 (a.add pool.bbc_value input.bbc_value))
              now)
            s.bbc_histories input.bbc_value input.bbc_value refl (omega int_laws) (λ e. e) nonneg.0)
          refl h)

  withdrawal-IsBooked :
      (eggs bbc : ℕ → ℤ)
      → IsNonneg input
      → IsBooked eggs bbc s
      → IsBooked eggs bbc (withdrawal_pool_value a now input s).1
  withdrawal-IsBooked eggs bbc nonneg h =
      let id = input.pool_id in
      let shifts : Shifts (pos 0 -ℤ input.egg_value) (pos 0 -ℤ input.bbc_value)
          (withdrawal_change input) =
        λ row. (refl, omega int_laws, omega int_laws) in
      IsBooked-same eggs bbc withdrawn (withdrawal_pool_value a now input s).1 withdrawal-SamePools
        (IsBooked-change eggs bbc id (pos 0 -ℤ input.egg_value) (pos 0 -ℤ input.bbc_value) s
          withdrawn (withdrawal_change input) shifts
          (Grows-append_if id
            (entry id (pos 0) input.egg_value
              (a.to_fixed 2 (a.minus pool.egg_value input.egg_value)) now)
            s.egg_histories input.egg_value (pos 0 -ℤ input.egg_value) refl refl
            (negated input.egg_value) nonneg.1)
          (Grows-append_if id
            (entry id (pos 0) input.bbc_value
              (a.to_fixed 2 (a.minus pool.bbc_value input.bbc_value)) now)
            s.bbc_histories input.bbc_value (pos 0 -ℤ input.bbc_value) refl refl
            (negated input.bbc_value) nonneg.0)
          refl h)

-- A deposit of a pool and the withdrawal of the same amounts leave its values as they were.
pub withdrawal-deposit :
    (a : Arithmetic) (now now' : ℕ) (input : EditPoolValue) (pool : PoolValue) (s : PoolDb)
    → find? (has_id input.pool_id) s.pool_values ≡ some pool
    → find?
        (has_id input.pool_id)
        (withdrawal_pool_value a now' input (deposit_pool_value a now input s).1).1.pool_values
      ≡ some (record pool { updated_id = some input.updated_id })
withdrawal-deposit a now now' input pool s found =
    let s' = (deposit_pool_value a now input s).1 in
    let same = deposit-SamePools a now input pool s found in
    let deposited_row = deposit_change input pool in
    let found' : find? (has_id input.pool_id) s'.pool_values ≡ some deposited_row =
      ap (find? (has_id input.pool_id)) same.0
      ∙ find?-update_where (has_id input.pool_id) (deposit_change input) pool s.pool_values
          (λ x h. h) found in
    ap (find? (has_id input.pool_id)) (withdrawal-SamePools a now' input deposited_row s' found').0
    ∙ find?-update_where (has_id input.pool_id) (withdrawal_change input) deposited_row
        s'.pool_values (λ x h. h) found'
    ∙ ap some (restored input pool)

-- A pool that is not there is neither changed nor created, and the reply is empty.
pub edit_missing :
    (a : Arithmetic) (now : ℕ) (input : EditPoolValue) (s : PoolDb)
    → find? (has_id input.pool_id) s.pool_values ≡ none
    → (deposit_pool_value a now input s ≡ (ok none, s))
      × (withdrawal_pool_value a now input s ≡ (ok none, s))
unfolding deposit_pool_value withdrawal_pool_value
edit_missing a now input s missing = ground arith

module _ (a : Arithmetic) (eggs bbc : ℕ → ℤ) where
  pub deposit_pool_value-IsBooked :
      (now : ℕ) (input : EditPoolValue) (s : PoolDb)
      → IsNonneg input
      → IsBooked eggs bbc s
      → IsBooked eggs bbc (deposit_pool_value a now input s).1
  deposit_pool_value-IsBooked now input s nonneg h =
      elim (Option-cases (find? (has_id input.pool_id) s.pool_values)) [
        | inl missing ↦ rw (edit_missing a now input s missing).0 h
        | inr (pool, found) ↦ deposit-IsBooked a now input pool s found eggs bbc nonneg h
      ]

  pub withdrawal_pool_value-IsBooked :
      (now : ℕ) (input : EditPoolValue) (s : PoolDb)
      → IsNonneg input
      → IsBooked eggs bbc s
      → IsBooked eggs bbc (withdrawal_pool_value a now input s).1
  withdrawal_pool_value-IsBooked now input s nonneg h =
      elim (Option-cases (find? (has_id input.pool_id) s.pool_values)) [
        | inl missing ↦ rw (edit_missing a now input s missing).1 h
        | inr (pool, found) ↦ withdrawal-IsBooked a now input pool s found eggs bbc nonneg h
      ]

  -- A call of `perform` that edits a pool does so by amounts that are not negative.
  abbrev pub IsAllowed : Call → Type 0
  IsAllowed (Call.deposit now input) = IsNonneg input
  IsAllowed (Call.withdrawal now input) = IsNonneg input
  IsAllowed _ = Unit

  perform-IsBooked :
      (call : Call) (s : PoolDb)
      → IsAllowed call
      → IsBooked eggs bbc s
      → IsBooked eggs bbc (perform a call s)
  unfolding perform
  perform-IsBooked (Call.claim now egg) s ok_call h =
      update_pool_claim_golden_egg-IsBooked a eggs bbc now egg s h
  perform-IsBooked (Call.buy now amount c) s ok_call h =
      update_pool_buy_egg_event-IsBooked a eggs bbc now amount c s h
  perform-IsBooked (Call.sell now egg amount c) s ok_call h =
      update_pool_sell_golden_egg-IsBooked a eggs bbc now egg amount c s h
  perform-IsBooked (Call.deposit now input) s nonneg h =
      deposit_pool_value-IsBooked now input s nonneg h
  perform-IsBooked (Call.withdrawal now input) s nonneg h =
      withdrawal_pool_value-IsBooked now input s nonneg h

  -- After any sequence of calls, of which the edits are by amounts that are not negative, and
  -- however the calls end, each pool's eggs and BBC are their opening values and the sums of the
  -- history entries.
  pub perform_all-IsBooked :
      (calls : List Call) (s : PoolDb)
      → All IsAllowed calls
      → IsBooked eggs bbc s
      → IsBooked eggs bbc (perform_all a calls s)
  unfolding perform_all
  perform_all-IsBooked [] s allowed h = h
  perform_all-IsBooked (call ∷ calls) s allowed h =
      perform_all-IsBooked calls (perform a call s) allowed.1 (perform-IsBooked call s allowed.0 h)
