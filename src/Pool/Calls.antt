-- ===== src/Pool/Calls.antt =====
-- The methods of `PoolService` keep the histories in step with the pools, however they end.
use system_chat.Base.{
  ℕ, ◌≡◌, refl, Bool, Bool-cases, true, false, not, Option, Option-cases, inl, inr, some, none, [],
  ◌∷◌, ◌++◌, ℤ, pos, ◌+ℤ◌, ◌-ℤ◌, leb_ℤ, int_laws, ok, arith, find?, update_where,
  find?-update_where, transaction, ◌||◌,
}
use system_chat.Pool.{
  PoolValue, PoolHistory, PoolConfig, PoolDb, Arithmetic, has_id, change_egg, change_bbc,
  create_pool_rate_history, update_pool_claim_golden_egg, update_pool_buy_egg_event,
  update_pool_sell_golden_egg, claim_golden_egg, buy_egg_event, buy_egg_with, sell_golden_egg,
  sell_with,
}
use system_chat.Pool.Events.{claimed, find?-first, update_pool_found}
use system_chat.Pool.Ledger.{
  IsBooked, IsBooked-change, IsBooked-same, SamePools, Grows-append, Grows-same, Shifts,
}

abbrev pub entry : ℕ → ℤ → ℤ → ℤ → ℕ → PoolHistory
entry pool_id in_value out_value last moment = record {
  pool_id = pool_id;
  in_value = in_value;
  out_value = out_value;
  last = last;
  moment = moment;
}

pub shift_egg_in : (v : ℤ) → Shifts v (pos 0) (change_egg (λ x. x +ℤ v))
shift_egg_in v row = (refl, refl, omega int_laws)

pub shift_egg_out : (v : ℤ) → Shifts (pos 0 -ℤ v) (pos 0) (change_egg (λ x. x -ℤ v))
shift_egg_out v row = (refl, omega int_laws, omega int_laws)

pub shift_bbc_in : (v : ℤ) → Shifts (pos 0) v (change_bbc (λ x. x +ℤ v))
shift_bbc_in v row = (refl, omega int_laws, refl)

pub shift_bbc_out : (v : ℤ) → Shifts (pos 0) (pos 0 -ℤ v) (change_bbc (λ x. x -ℤ v))
shift_bbc_out v row = (refl, omega int_laws, omega int_laws)

module _ (a : Arithmetic) (eggs bbc : ℕ → ℤ) where
  module _ (now : ℕ) (egg_value : ℤ) (pool : PoolValue) (s : PoolDb)
      (first : find? (λ row. true) s.pool_values ≡ some pool) where
    claim-SamePools :
        SamePools
          (claimed a now egg_value pool s first)
          (update_pool_claim_golden_egg a now egg_value s).1
    unfolding update_pool_claim_golden_egg claim_golden_egg create_pool_rate_history
    claim-SamePools = ground (
      arith,
      update_pool_found pool.id (change_egg (λ v. v -ℤ egg_value)) pool s
          (find?-first pool s.pool_values first),
    )

    claim-IsBooked :
        IsBooked eggs bbc s → IsBooked eggs bbc (update_pool_claim_golden_egg a now egg_value s).1
    claim-IsBooked h =
        let t = claimed a now egg_value pool s first in
        let change = change_egg (λ v. v -ℤ egg_value) in
        IsBooked-same eggs bbc t (update_pool_claim_golden_egg a now egg_value s).1 claim-SamePools
          (IsBooked-change eggs bbc pool.id (pos 0 -ℤ egg_value) (pos 0) s t change
            (shift_egg_out egg_value)
            (Grows-append pool.id
              (entry pool.id (pos 0) egg_value (a.minus pool.egg_value egg_value) now)
              s.egg_histories (pos 0 -ℤ egg_value) refl refl)
            (Grows-same pool.id s.bbc_histories) refl h)

  claim_none :
      (now : ℕ) (egg_value : ℤ) (s : PoolDb)
      → find? (λ row. true) s.pool_values ≡ none
      → update_pool_claim_golden_egg a now egg_value s ≡ (ok tt, s)
  unfolding update_pool_claim_golden_egg
  claim_none now egg_value s no_pool = ground arith

  pub update_pool_claim_golden_egg-IsBooked :
      (now : ℕ) (egg_value : ℤ) (s : PoolDb)
      → IsBooked eggs bbc s
      → IsBooked eggs bbc (update_pool_claim_golden_egg a now egg_value s).1
  update_pool_claim_golden_egg-IsBooked now egg_value s h =
      elim (Option-cases (find? (λ row. true) s.pool_values)) [
        | inl no_pool ↦ rw (claim_none now egg_value s no_pool) h
        | inr (pool, first) ↦ claim-IsBooked now egg_value pool s first h
      ]

  module _ (now : ℕ) (revenue : ℤ) (pool : PoolValue) (s : PoolDb)
      (first : find? (λ row. true) s.pool_values ≡ some pool) where
    abbrev bought : PoolDb
    bought = record s {
      pool_values = update_where (has_id pool.id) (change_bbc (λ v. v +ℤ revenue)) s.pool_values;
      bbc_histories =
          s.bbc_histories
          ++ entry pool.id revenue (pos 0) (a.to_fixed 2 (a.add pool.bbc_value revenue)) now ∷ [];
    }

    bought-SamePools : SamePools bought (transaction (buy_egg_event a revenue now pool) s).1
    unfolding buy_egg_event
    bought-SamePools = ground (
      arith,
      update_pool_found pool.id (change_bbc (λ v. v +ℤ revenue)) pool s
          (find?-first pool s.pool_values first),
    )

    buy-IsBooked :
        IsBooked eggs bbc s → IsBooked eggs bbc (transaction (buy_egg_event a revenue now pool) s).1
    buy-IsBooked h =
        let change = change_bbc (λ v. v +ℤ revenue) in
        IsBooked-same eggs bbc bought (transaction (buy_egg_event a revenue now pool) s).1
          bought-SamePools
          (IsBooked-change eggs bbc pool.id (pos 0) revenue s bought change (shift_bbc_in revenue)
            (Grows-same pool.id s.egg_histories)
            (Grows-append pool.id
              (entry pool.id revenue (pos 0) (a.to_fixed 2 (a.add pool.bbc_value revenue)) now)
              s.bbc_histories revenue refl (omega int_laws))
            refl h)

  buy_with-IsBooked :
      (amount : ℤ) (now : ℕ) (bbc_paid : Bool) (config : Option PoolConfig)
      (pool : Option PoolValue) (s : PoolDb)
      → find? (λ row. true) s.pool_values ≡ pool
      → IsBooked eggs bbc s
      → IsBooked eggs bbc (buy_egg_with a amount now bbc_paid config pool s).1
  unfolding buy_egg_with
  buy_with-IsBooked amount now paid (some config) (some pool) s first h =
      elim (Bool-cases (leb_ℤ amount (pos 0) || not paid)) [
        | inl idle ↦ rw idle h
        | inr busy ↦
            rw busy (buy-IsBooked now (a.times amount (a.percent config.revenue)) pool s first h)
      ]
  buy_with-IsBooked amount now paid none (some pool) s first h = h
  buy_with-IsBooked amount now paid (some config) none s first h = h
  buy_with-IsBooked amount now paid none none s first h = h

  pub update_pool_buy_egg_event-IsBooked :
      (now : ℕ) (amount : ℤ) (currency_id : ℕ) (s : PoolDb)
      → IsBooked eggs bbc s
      → IsBooked eggs bbc (update_pool_buy_egg_event a now amount currency_id s).1
  unfolding update_pool_buy_egg_event
  update_pool_buy_egg_event-IsBooked now amount currency_id s h =
      buy_with-IsBooked amount now _ _ _ s refl h

  module _ (now : ℕ) (egg_value bbc_value : ℤ) (pool : PoolValue) (s : PoolDb)
      (first : find? (λ row. true) s.pool_values ≡ some pool) where
    abbrev with_eggs : PoolDb
    with_eggs = record s {
      pool_values = update_where (has_id pool.id) (change_egg (λ v. v +ℤ egg_value)) s.pool_values;
      egg_histories =
          s.egg_histories
          ++ entry pool.id egg_value (pos 0) (a.add pool.egg_value egg_value) now ∷ [];
    }

    abbrev sold : PoolDb
    sold = record with_eggs {
      pool_values =
          update_where (has_id pool.id) (change_bbc (λ v. v -ℤ bbc_value)) with_eggs.pool_values;
      bbc_histories =
          s.bbc_histories
          ++ entry pool.id (pos 0) bbc_value (a.minus pool.bbc_value bbc_value) now ∷ [];
    }

    sold-SamePools :
        SamePools sold (transaction (sell_golden_egg a egg_value bbc_value now pool) s).1
    unfolding sell_golden_egg
    sold-SamePools =
        let found = find?-first pool s.pool_values first in
        let change = change_egg (λ v. v +ℤ egg_value) in
        ground (
          arith,
          update_pool_found pool.id change pool s found,
          update_pool_found pool.id (change_bbc (λ v. v -ℤ bbc_value)) (change pool) with_eggs
              (find?-update_where (has_id pool.id) change pool s.pool_values (λ x h. h) found),
        )

    sell-IsBooked :
        IsBooked eggs bbc s
        → IsBooked eggs bbc (transaction (sell_golden_egg a egg_value bbc_value now pool) s).1
    sell-IsBooked h =
        let id = pool.id in
        IsBooked-same eggs bbc sold
          (transaction (sell_golden_egg a egg_value bbc_value now pool) s).1 sold-SamePools
          (IsBooked-change eggs bbc id (pos 0) (pos 0 -ℤ bbc_value) with_eggs sold
            (change_bbc (λ v. v -ℤ bbc_value)) (shift_bbc_out bbc_value)
            (Grows-same id with_eggs.egg_histories)
            (Grows-append id (entry id (pos 0) bbc_value (a.minus pool.bbc_value bbc_value) now)
              s.bbc_histories (pos 0 -ℤ bbc_value) refl refl)
            refl
            (IsBooked-change eggs bbc id egg_value (pos 0) s with_eggs
              (change_egg (λ v. v +ℤ egg_value)) (shift_egg_in egg_value)
              (Grows-append id (entry id egg_value (pos 0) (a.add pool.egg_value egg_value) now)
                s.egg_histories egg_value refl (omega int_laws))
              (Grows-same id s.bbc_histories) refl h))

  sell_with-IsBooked :
      (egg_value bbc_value : ℤ) (now : ℕ) (bbc_paid : Bool) (pool : Option PoolValue) (s : PoolDb)
      → find? (λ row. true) s.pool_values ≡ pool
      → IsBooked eggs bbc s
      → IsBooked eggs bbc (sell_with a egg_value bbc_value now bbc_paid pool s).1
  unfolding sell_with
  sell_with-IsBooked egg_value bbc_value now true (some pool) s first h =
      sell-IsBooked now egg_value bbc_value pool s first h
  sell_with-IsBooked egg_value bbc_value now false (some pool) s first h = h
  sell_with-IsBooked egg_value bbc_value now paid none s first h = h

  pub update_pool_sell_golden_egg-IsBooked :
      (now : ℕ) (egg_value bbc_value : ℤ) (currency_id : ℕ) (s : PoolDb)
      → IsBooked eggs bbc s
      → IsBooked eggs bbc (update_pool_sell_golden_egg a now egg_value bbc_value currency_id s).1
  unfolding update_pool_sell_golden_egg
  update_pool_sell_golden_egg-IsBooked now egg_value bbc_value currency_id s h =
      sell_with-IsBooked egg_value bbc_value now _ _ s refl h
