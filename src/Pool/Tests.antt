-- ===== src/Pool/Tests.antt =====
-- The pool's theorems at concrete inputs, and runs of the model. The arithmetic is that of whole
-- numbers, rounded down.
use system_chat.Base.{
  ℕ, ◌≡◌, refl, none, some, List, [], ◌∷◌, ℤ, pos, negsuc, pos_part, ◌+ℤ◌, ◌-ℤ◌, ◌*◌, ◌/◌, arith,
}
use system_chat.Pool.{
  PoolValue, PoolDb, Arithmetic, EditPoolValue, Call, update_pool_claim_golden_egg,
  update_pool_buy_egg_event, update_pool_sell_golden_egg, deposit_pool_value, withdrawal_pool_value,
  perform, perform_all, claim_golden_egg, buy_egg_with, buy_egg_event, sell_with, sell_golden_egg,
  deposit_body, withdrawal_body, update_pool, create_pool_rate_history,
}
use system_chat.Pool.Ledger.{IsBooked}
use system_chat.Pool.Edits.{perform_all-IsBooked}

abbrev whole : Arithmetic
whole = record {
  add = λ x y. x +ℤ y;
  minus = λ x y. x -ℤ y;
  divided_by = λ x y. pos (pos_part x / pos_part y);
  to_fixed = λ places x. x;
  times = λ x y. pos (pos_part x * pos_part y);
  percent = λ x. pos (pos_part x / 100);
}

abbrev pool : PoolValue
pool = record { id = 1; egg_value = pos 10; bbc_value = pos 500; updated_id = none }

abbrev db : PoolDb
db = record {
  pool_values = pool ∷ [];
  pool_configs = (record { revenue = pos 300 }) ∷ [];
  currencies = (record { id = 4; code = "BBC" }) ∷ [];
  egg_histories = [];
  bbc_histories = [];
  rate_histories = [];
}

abbrev edit : EditPoolValue
edit = record { pool_id = 1; egg_value = pos 5; bbc_value = pos 0; updated_id = 9 }

abbrev calls : List Call
calls =
    Call.deposit 1 edit
    ∷ Call.claim 2 (pos 15)
    ∷ Call.buy 3 (pos 20) 4
    ∷ Call.sell 4 (pos 3) (pos 30) 4
    ∷ Call.withdrawal 5 edit
    ∷ []

-- The claim of the last eggs throws, and its writes stay.
perform_all_test :
    (perform_all whole calls db).pool_values
    ≡ (record { id = 1; egg_value = negsuc 1; bbc_value = pos 530; updated_id = some 9 }) ∷ []
unfolding perform_all perform deposit_pool_value update_pool_claim_golden_egg
    update_pool_buy_egg_event update_pool_sell_golden_egg withdrawal_pool_value claim_golden_egg
    buy_egg_with buy_egg_event sell_with sell_golden_egg deposit_body withdrawal_body update_pool
    create_pool_rate_history ◌+ℤ◌ ◌-ℤ◌
perform_all_test = refl

abbrev eggs : ℕ → ℤ
eggs id = pos 10

abbrev bbc : ℕ → ℤ
bbc id = pos 500

perform_all-IsBooked_example : IsBooked eggs bbc (perform_all whole calls db)
unfolding ◌+ℤ◌
perform_all-IsBooked_example =
    perform_all-IsBooked whole eggs bbc calls db
      ((omega arith, omega arith), (tt, (tt, (tt, ((omega arith, omega arith), tt)))))
      ((refl, refl), tt)
