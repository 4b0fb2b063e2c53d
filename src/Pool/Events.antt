-- ===== src/Pool/Events.antt =====
-- The events of the pool: what claiming, buying and selling eggs write, step by step.
use system_chat.Base.{
  ℕ, ◌==◌, ◌≡◌, ◌≢◌, true, false, Option, some, List, [], ◌∷◌, ◌++◌, ℤ, pos, ◌+ℤ◌, ◌-ℤ◌, ltb_ℤ,
  leb_ℤ, ok, err, arith, find?, update_where, ◌⊎◌, find?-update_where, count_where_of_find?,
}
use system_chat.Pool.{
  PoolValue, PoolDb, PoolConfig, Currency, invalid_pool, Arithmetic, has_id, update_pool,
  change_egg, change_bbc, is_bbc, rate_of, create_pool_rate_history, update_pool_claim_golden_egg,
  update_pool_buy_egg_event, update_pool_sell_golden_egg, claim_golden_egg, buy_egg_event,
  buy_egg_with, sell_golden_egg, sell_with,
}

-- The first row of the table is the one that its id leads to.
pub find?-first :
    (pool : PoolValue) (xs : List PoolValue)
    → find? (λ row. true) xs ≡ some pool
    → find? (has_id pool.id) xs ≡ some pool
find?-first pool [] e = ground arith
find?-first pool (x ∷ xs) e = ground arith

pub update_pool_found :
    (id : ℕ) (change : PoolValue → PoolValue) (pool : PoolValue) (s : PoolDb)
    → find? (has_id id) s.pool_values ≡ some pool
    → update_pool id change s
      ≡ (ok tt, record s { pool_values = update_where (has_id id) change s.pool_values })
unfolding update_pool
update_pool_found id change pool s e =
    ground (arith, count_where_of_find? (has_id id) pool s.pool_values e)

module _ (a : Arithmetic) (now : ℕ) (egg_value : ℤ) (pool : PoolValue) (s : PoolDb)
    (first : find? (λ row. true) s.pool_values ≡ some pool) where
  -- What a claim has written before it computes the rate.
  abbrev pub claimed : PoolDb
  claimed = record s {
    pool_values = update_where (has_id pool.id) (change_egg (λ v. v -ℤ egg_value)) s.pool_values;
    egg_histories =
        s.egg_histories
        ++ (record {
          pool_id = pool.id;
          in_value = pos 0;
          out_value = egg_value;
          last = a.minus pool.egg_value egg_value;
          moment = now;
        })
          ∷ [];
  }

  found_claimed :
      find? (has_id pool.id) claimed.pool_values ≡ some (change_egg (λ v. v -ℤ egg_value) pool)
  found_claimed =
      find?-update_where (has_id pool.id) (change_egg (λ v. v -ℤ egg_value)) pool s.pool_values
        (λ x h. h) (find?-first pool s.pool_values first)

  -- A claim of the last egg throws, and what it wrote before stays: all of it went through the
  -- repository's client, which the transaction does not roll back.
  pub update_pool_claim_golden_egg_last :
      pool.egg_value -ℤ egg_value ≡ pos 0
      → update_pool_claim_golden_egg a now egg_value s ≡ (err invalid_pool, claimed)
  unfolding update_pool_claim_golden_egg claim_golden_egg create_pool_rate_history
  update_pool_claim_golden_egg_last zero_left = ground (
    arith,
    found_claimed,
    update_pool_found pool.id (change_egg (λ v. v -ℤ egg_value)) pool s
        (find?-first pool s.pool_values first),
  )

  -- A claim that leaves eggs stores the new balance, its history entry and the new rate.
  pub update_pool_claim_golden_egg_some :
      pool.egg_value -ℤ egg_value ≢ pos 0
      → update_pool_claim_golden_egg a now egg_value s ≡ (
        ok tt,
        record claimed {
          rate_histories =
              s.rate_histories
              ++ (record {
                pool_id = pool.id;
                value = rate_of a (change_egg (λ v. v -ℤ egg_value) pool);
                moment = now;
              })
                ∷ [];
        },
      )
  unfolding update_pool_claim_golden_egg claim_golden_egg create_pool_rate_history
  update_pool_claim_golden_egg_some some_left = ground (
    arith,
    found_claimed,
    update_pool_found pool.id (change_egg (λ v. v -ℤ egg_value)) pool s
        (find?-first pool s.pool_values first),
  )

module _ (a : Arithmetic) (now : ℕ) (amount : ℤ) (currency_id : ℕ) (s : PoolDb) where
  abbrev currency_of : Option Currency
  currency_of = find? (λ row. row.id == currency_id) s.currencies

  -- Nothing is written for an amount that is not positive, for another currency than BBC, and
  -- where there is no configuration or no pool.
  pub update_pool_buy_egg_event_idle :
      (leb_ℤ amount (pos 0) ≡ true)
        ⊎ (is_bbc currency_of ≡ false)
        ⊎ (s.pool_configs ≡ [])
        ⊎ (s.pool_values ≡ [])
      → update_pool_buy_egg_event a now amount currency_id s ≡ (ok tt, s)
  unfolding update_pool_buy_egg_event buy_egg_with
  update_pool_buy_egg_event_idle h = ground arith

  -- A purchase adds the revenue to the pool and to its history. The rate that it stores is the
  -- one of before: the row is read outside of the transaction that has the new balance.
  pub update_pool_buy_egg_event_bought :
      (config : PoolConfig) (pool : PoolValue)
      → find? (λ row. true) s.pool_configs ≡ some config
      → find? (λ row. true) s.pool_values ≡ some pool
      → is_bbc currency_of ≡ true
      → leb_ℤ amount (pos 0) ≡ false
      → ltb_ℤ (pos 0) pool.egg_value ≡ true
      → let revenue = a.times amount (a.percent config.revenue) in
        update_pool_buy_egg_event a now amount currency_id s ≡ (
          ok tt,
          record s {
            pool_values =
                update_where (has_id pool.id) (change_bbc (λ v. v +ℤ revenue)) s.pool_values;
            bbc_histories =
                s.bbc_histories
                ++ (record {
                  pool_id = pool.id;
                  in_value = revenue;
                  out_value = pos 0;
                  last = a.to_fixed 2 (a.add pool.bbc_value revenue);
                  moment = now;
                })
                  ∷ [];
            rate_histories =
                s.rate_histories
                ++ (record { pool_id = pool.id; value = rate_of a pool; moment = now }) ∷ [];
          },
        )
  unfolding update_pool_buy_egg_event buy_egg_with buy_egg_event
  update_pool_buy_egg_event_bought config pool configured first bbc positive eggs =
      let revenue = a.times amount (a.percent config.revenue) in
      let found = find?-first pool s.pool_values first in
      ground (arith, found, update_pool_found pool.id (change_bbc (λ v. v +ℤ revenue)) pool s found)

module _ (a : Arithmetic) (now : ℕ) (egg_value bbc_value : ℤ) (currency_id : ℕ) (s : PoolDb) where
  -- A sale adds the eggs, takes the BBC, and stores both history entries and the new rate, which
  -- the transaction's own client reads after the writes.
  pub update_pool_sell_golden_egg_sold :
      (pool : PoolValue)
      → find? (λ row. true) s.pool_values ≡ some pool
      → is_bbc (find? (λ row. row.id == currency_id) s.currencies) ≡ true
      → ltb_ℤ (pos 0) (pool.egg_value +ℤ egg_value) ≡ true
      → update_pool_sell_golden_egg a now egg_value bbc_value currency_id s ≡ (
        ok tt,
        record s {
          pool_values =
              update_where
                (has_id pool.id)
                (change_bbc (λ v. v -ℤ bbc_value))
                (update_where (has_id pool.id) (change_egg (λ v. v +ℤ egg_value)) s.pool_values);
          egg_histories =
              s.egg_histories
              ++ (record {
                pool_id = pool.id;
                in_value = egg_value;
                out_value = pos 0;
                last = a.add pool.egg_value egg_value;
                moment = now;
              })
                ∷ [];
          bbc_histories =
              s.bbc_histories
              ++ (record {
                pool_id = pool.id;
                in_value = pos 0;
                out_value = bbc_value;
                last = a.minus pool.bbc_value bbc_value;
                moment = now;
              })
                ∷ [];
          rate_histories =
              s.rate_histories
              ++ (record {
                pool_id = pool.id;
                value =
                    rate_of a
                      (change_bbc (λ v. v -ℤ bbc_value) (change_egg (λ v. v +ℤ egg_value) pool));
                moment = now;
              })
                ∷ [];
        },
      )
  unfolding update_pool_sell_golden_egg sell_with sell_golden_egg
  update_pool_sell_golden_egg_sold pool first bbc eggs =
      let found = find?-first pool s.pool_values first in
      let with_eggs =
        find?-update_where (has_id pool.id) (change_egg (λ v. v +ℤ egg_value)) pool s.pool_values
          (λ x h. h) found in
      let with_both =
        find?-update_where (has_id pool.id) (change_bbc (λ v. v -ℤ bbc_value))
          (change_egg (λ v. v +ℤ egg_value) pool)
          (update_where (has_id pool.id) (change_egg (λ v. v +ℤ egg_value)) s.pool_values)
          (λ x h. h) with_eggs in
      ground (
        arith,
        with_eggs,
        with_both,
        update_pool_found pool.id (change_egg (λ v. v +ℤ egg_value)) pool s found,
        update_pool_found pool.id (change_bbc (λ v. v -ℤ bbc_value))
            (change_egg (λ v. v +ℤ egg_value) pool)
            (record s {
              pool_values =
                  update_where (has_id pool.id) (change_egg (λ v. v +ℤ egg_value)) s.pool_values;
              egg_histories =
                  s.egg_histories
                  ++ (record {
                    pool_id = pool.id;
                    in_value = egg_value;
                    out_value = pos 0;
                    last = a.add pool.egg_value egg_value;
                    moment = now;
                  })
                    ∷ [];
            })
            with_eggs,
      )
