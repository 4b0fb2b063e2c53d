-- ===== src/Pool/Rows.antt =====
-- The tables that the pool service writes (prisma/schema.prisma), and the arithmetic that it takes
-- from outside. Amounts are integers, as in the wallet; a pair of a date and a time of one moment
-- is that moment.
use system_chat.Base.{ℕ, Option, List, String, ℤ, Effect}

-- `model PoolValue`
pub record PoolValue : Type 0 where
  pub id : ℕ
  pub egg_value : ℤ
  pub bbc_value : ℤ
  pub updated_id : Option ℕ

-- `model PoolEggHistory` and `model PoolBBCHistory`, which have the same columns.
pub record PoolHistory : Type 0 where
  pub pool_id : ℕ
  pub in_value : ℤ
  pub out_value : ℤ
  pub last : ℤ
  pub moment : ℕ

-- `model PoolRateHistory`
pub record PoolRate : Type 0 where
  pub pool_id : ℕ
  pub value : ℤ
  pub moment : ℕ

-- `model PoolConfig`, its revenue in percent.
pub record PoolConfig : Type 0 where
  pub revenue : ℤ

pub record Currency : Type 0 where
  pub id : ℕ
  pub code : String

pub record PoolDb : Type 0 where
  pub pool_values : List PoolValue
  pub pool_configs : List PoolConfig
  pub currencies : List Currency
  pub egg_histories : List PoolHistory
  pub bbc_histories : List PoolHistory
  pub rate_histories : List PoolRate

-- `not_found`: an `update` finds no row. `invalid_pool`: the error of `createPoolRateHistory`.
pub data PoolError : Type 0 where
  not_found invalid_pool : PoolError

abbrev pub Action : Type 0 → Type 0
Action = Effect PoolError PoolDb

-- `EditPoolValueDto`
pub record EditPoolValue : Type 0 where
  pub pool_id : ℕ
  pub egg_value : ℤ
  pub bbc_value : ℤ
  pub updated_id : ℕ

-- Arithmetic on decimals (`Prisma.Decimal`) and on floating-point numbers, which rounds: `add`,
-- `minus`, `dividedBy` and `toFixed` of a decimal, and `amount * (revenue / 100)` of numbers.
pub record Arithmetic : Type 0 where
  pub add : ℤ → ℤ → ℤ
  pub minus : ℤ → ℤ → ℤ
  pub divided_by : ℤ → ℤ → ℤ
  pub to_fixed : ℕ → ℤ → ℤ
  pub times : ℤ → ℤ → ℤ
  pub percent : ℤ → ℤ
