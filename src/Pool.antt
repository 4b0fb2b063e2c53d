-- ===== src/Pool.antt =====
-- apps/wallet/src/pool.service.ts: the methods of `PoolService`, query by query. Of the queries in
-- the callback of a transaction, those of `this._repo` are committed at once and those of `prisma`
-- wait for the end of the transaction.
mod Rows
mod Queries
pub mod Events
pub mod Ledger
pub mod Calls
pub mod Edits
mod Tests
pub use Rows.*
unfoldable pub use Queries.*
use system_chat.Base.{
  ℕ, ◌==◌, Bool, true, false, not, ◌&&◌, ◌||◌, Option, some, none, List, [], ◌∷◌, ◌++◌, String,
  str_eq, ℤ, pos, ◌+ℤ◌, ◌-ℤ◌, ltb_ℤ, leb_ℤ, eqb_ℤ, Effect, Result, ok, err, pure, raise, gets,
  or_raise, raise_if, when, modify, ◌>>=◌, ◌>>◌, if◌then◌else◌, Session, via_repo, via_tx,
  transaction, find?, count_where, update_where,
}

module _ (a : Arithmetic) where
  claim_golden_egg : ℤ → ℕ → PoolValue → Effect PoolError (Session PoolDb) (Unit {0})
  claim_golden_egg egg_value now pool = do
    via_repo (update_pool pool.id (change_egg (λ v. v -ℤ egg_value)))
    via_repo (
        create_egg (record {
          pool_id = pool.id;
          in_value = pos 0;
          out_value = egg_value;
          last = a.minus pool.egg_value egg_value;
          moment = now;
        }))
    via_repo (create_pool_rate_history a pool.id now)

  pub update_pool_claim_golden_egg : ℕ → ℤ → Action (Unit {0})
  update_pool_claim_golden_egg now egg_value = do
    found ← first_pool
    elim found [ none ↦ pure tt | some pool ↦ transaction (claim_golden_egg egg_value now pool) ]

  -- The rate is read through `this._repo` while the new balance still waits in the transaction.
  buy_egg_event : ℤ → ℕ → PoolValue → Effect PoolError (Session PoolDb) (Unit {0})
  buy_egg_event revenue now pool = do
    via_tx (update_pool pool.id (change_bbc (λ v. v +ℤ revenue)))
    via_tx (
        create_bbc (record {
          pool_id = pool.id;
          in_value = revenue;
          out_value = pos 0;
          last = a.to_fixed 2 (a.add pool.bbc_value revenue);
          moment = now;
        }))
    row ← via_repo (find_pool pool.id)
    via_tx (save_rate a pool.id now row)

  buy_egg_with : ℤ → ℕ → Bool → Option PoolConfig → Option PoolValue → Action (Unit {0})
  buy_egg_with amount now bbc (some config) (some pool) =
      if leb_ℤ amount (pos 0) || not bbc
      then pure tt
      else transaction (buy_egg_event (a.times amount (a.percent config.revenue)) now pool)
  buy_egg_with amount now bbc config pool = pure tt

  pub update_pool_buy_egg_event : ℕ → ℤ → ℕ → Action (Unit {0})
  update_pool_buy_egg_event now amount currency_id = do
    config ← gets (λ s. find? (λ row. true) s.pool_configs)
    pool ← first_pool
    currency ← gets (λ s. find? (λ row. row.id == currency_id) s.currencies)
    buy_egg_with amount now (is_bbc currency) config pool

  sell_golden_egg : ℤ → ℤ → ℕ → PoolValue → Effect PoolError (Session PoolDb) (Unit {0})
  sell_golden_egg egg_value bbc_value now pool = do
    via_repo (update_pool pool.id (change_egg (λ v. v +ℤ egg_value)))
    via_repo (
        create_egg (record {
          pool_id = pool.id;
          in_value = egg_value;
          out_value = pos 0;
          last = a.add pool.egg_value egg_value;
          moment = now;
        }))
    via_repo (update_pool pool.id (change_bbc (λ v. v -ℤ bbc_value)))
    via_repo (
        create_bbc (record {
          pool_id = pool.id;
          in_value = pos 0;
          out_value = bbc_value;
          last = a.minus pool.bbc_value bbc_value;
          moment = now;
        }))
    row ← via_tx (find_pool pool.id)
    via_tx (save_rate a pool.id now row)

  sell_with : ℤ → ℤ → ℕ → Bool → Option PoolValue → Action (Unit {0})
  sell_with egg_value bbc_value now bbc none = pure tt
  sell_with egg_value bbc_value now bbc (some pool) =
      if not bbc then pure tt else transaction (sell_golden_egg egg_value bbc_value now pool)

  pub update_pool_sell_golden_egg : ℕ → ℤ → ℤ → ℕ → Action (Unit {0})
  update_pool_sell_golden_egg now egg_value bbc_value currency_id = do
    pool ← first_pool
    currency ← gets (λ s. find? (λ row. row.id == currency_id) s.currencies)
    sell_with egg_value bbc_value now (is_bbc currency) pool

  deposit_body : EditPoolValue → ℕ → PoolValue → Effect PoolError (Session PoolDb) (Unit {0})
  deposit_body input now pool = do
    via_repo (
        update_pool input.pool_id (λ row. record row {
          bbc_value = row.bbc_value +ℤ input.bbc_value;
          egg_value = row.egg_value +ℤ input.egg_value;
          updated_id = some input.updated_id;
        }))
    via_repo (
        when (ltb_ℤ (pos 0) input.bbc_value) (
          create_bbc (record {
            pool_id = input.pool_id;
            in_value = input.bbc_value;
            out_value = pos 0;
            last = a.to_fixed 2 (a.add pool.bbc_value input.bbc_value);
            moment = now;
          })))
    via_repo (
        when (ltb_ℤ (pos 0) input.egg_value) (
          create_egg (record {
            pool_id = input.pool_id;
            in_value = input.egg_value;
            out_value = pos 0;
            last = a.to_fixed 2 (a.add pool.egg_value input.egg_value);
            moment = now;
          })))
    row ← via_repo (find_pool input.pool_id)
    via_repo (save_rate a input.pool_id now row)

  -- The reply is `{}`, or `{ updatedAt }` with the moment.
  pub deposit_pool_value : ℕ → EditPoolValue → Action (Option ℕ)
  deposit_pool_value now input = do
    found ← find_pool input.pool_id
    elim found [
      | none ↦ pure none
      | some pool ↦ transaction (deposit_body input now pool) >>= λ done. pure (some now)
    ]

  withdrawal_body : EditPoolValue → ℕ → PoolValue → Effect PoolError (Session PoolDb) (Unit {0})
  withdrawal_body input now pool = do
    via_repo (
        update_pool input.pool_id (λ row. record row {
          bbc_value = row.bbc_value -ℤ input.bbc_value;
          egg_value = row.egg_value -ℤ input.egg_value;
          updated_id = some input.updated_id;
        }))
    via_repo (
        when (ltb_ℤ (pos 0) input.bbc_value) (
          create_bbc (record {
            pool_id = input.pool_id;
            in_value = pos 0;
            out_value = input.bbc_value;
            last = a.to_fixed 2 (a.minus pool.bbc_value input.bbc_value);
            moment = now;
          })))
    via_repo (
        when (ltb_ℤ (pos 0) input.egg_value) (
          create_egg (record {
            pool_id = input.pool_id;
            in_value = pos 0;
            out_value = input.egg_value;
            last = a.to_fixed 2 (a.minus pool.egg_value input.egg_value);
            moment = now;
          })))
    row ← via_repo (find_pool input.pool_id)
    via_repo (save_rate a input.pool_id now row)

  pub withdrawal_pool_value : ℕ → EditPoolValue → Action (Option ℕ)
  withdrawal_pool_value now input = do
    found ← find_pool input.pool_id
    elim found [
      | none ↦ pure none
      | some pool ↦ transaction (withdrawal_body input now pool) >>= λ done. pure (some now)
    ]

-- The public methods as values, each with the moment at which it is called.
pub data Call : Type 0 where
  claim : ℕ → ℤ → Call
  buy : ℕ → ℤ → ℕ → Call
  sell : ℕ → ℤ → ℤ → ℕ → Call
  deposit withdrawal : ℕ → EditPoolValue → Call

module _ (a : Arithmetic) where
  -- What a call leaves behind, whether it returns or throws.
  pub perform : Call → PoolDb → PoolDb
  perform (Call.claim now egg_value) s = (update_pool_claim_golden_egg a now egg_value s).1
  perform (Call.buy now amount currency_id) s =
      (update_pool_buy_egg_event a now amount currency_id s).1
  perform (Call.sell now egg_value bbc_value currency_id) s =
      (update_pool_sell_golden_egg a now egg_value bbc_value currency_id s).1
  perform (Call.deposit now input) s = (deposit_pool_value a now input s).1
  perform (Call.withdrawal now input) s = (withdrawal_pool_value a now input s).1

  pub perform_all : List Call → PoolDb → PoolDb
  perform_all [] s = s
  perform_all (call ∷ calls) s = perform_all calls (perform call s)
