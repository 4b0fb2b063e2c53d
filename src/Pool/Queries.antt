-- ===== src/Pool/Queries.antt =====
-- The queries of `PoolService` (apps/wallet/src/pool.service.ts), and `createPoolRateHistory`.
use system_chat.Base.{
  ℕ, ◌==◌, Bool, true, false, Option, some, none, [], ◌∷◌, ◌++◌, str_eq, ℤ, pos, ltb_ℤ, eqb_ℤ, pure,
  gets, or_raise, raise_if, when, modify, ◌>>=◌, ◌>>◌, find?, count_where, update_where,
}
use system_chat.Pool.Rows.{
  PoolValue, PoolHistory, PoolRate, Currency, Action, not_found, invalid_pool, Arithmetic,
}

abbrev pub has_id : ℕ → PoolValue → Bool
has_id id row = row.id == id

-- `getPoolValue().update({ where: { id }, data })`
unfoldable pub update_pool : ℕ → (PoolValue → PoolValue) → Action (Unit {0})
update_pool id change = do
  count ← gets (λ s. count_where (has_id id) s.pool_values)
  raise_if (count == 0) not_found
  modify (λ s. record s { pool_values = update_where (has_id id) change s.pool_values })

abbrev pub find_pool : ℕ → Action (Option PoolValue)
find_pool id = gets (λ s. find? (has_id id) s.pool_values)

abbrev pub first_pool : Action (Option PoolValue)
first_pool = gets (λ s. find? (λ row. true) s.pool_values)

abbrev pub create_egg : PoolHistory → Action (Unit {0})
create_egg entry = modify (λ s. record s { egg_histories = s.egg_histories ++ entry ∷ [] })

abbrev pub create_bbc : PoolHistory → Action (Unit {0})
create_bbc entry = modify (λ s. record s { bbc_histories = s.bbc_histories ++ entry ∷ [] })

abbrev pub create_rate : PoolRate → Action (Unit {0})
create_rate entry = modify (λ s. record s { rate_histories = s.rate_histories ++ entry ∷ [] })

-- `currency?.code === 'BBC'`
abbrev pub is_bbc : Option Currency → Bool
is_bbc none = false
is_bbc (some currency) = str_eq currency.code "BBC"

abbrev pub change_egg : (ℤ → ℤ) → PoolValue → PoolValue
change_egg f row = record row { egg_value = f row.egg_value }

abbrev pub change_bbc : (ℤ → ℤ) → PoolValue → PoolValue
change_bbc f row = record row { bbc_value = f row.bbc_value }

module _ (a : Arithmetic) where
  -- `+new Prisma.Decimal(bbcValue).dividedBy(eggValue).toFixed(5)`
  abbrev pub rate_of : PoolValue → ℤ
  rate_of row = a.to_fixed 5 (a.divided_by row.bbc_value row.egg_value)

  unfoldable pub create_pool_rate_history : ℕ → ℕ → Action (Unit {0})
  create_pool_rate_history pool_id now = do
    row ← find_pool pool_id
    found ← or_raise row invalid_pool
    raise_if (eqb_ℤ found.egg_value (pos 0)) invalid_pool
    create_rate (record { pool_id = pool_id; value = rate_of found; moment = now })

  -- The last step of four methods: the new rate, if the row that is read has eggs.
  abbrev pub save_rate : ℕ → ℕ → Option PoolValue → Action (Unit {0})
  save_rate pool_id now none = pure tt
  save_rate pool_id now (some row) =
      when (ltb_ℤ (pos 0) row.egg_value)
        (create_rate (record { pool_id = pool_id; value = rate_of row; moment = now }))
