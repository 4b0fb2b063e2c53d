-- ===== src/Orders/Payments.antt =====
-- What updateStatusTransaction credits.
use system_chat.Base.{
  ℕ, ◌≡◌, ◌≢◌, ◌==◌, refl, true, false, ◌||◌, some, none, [], ◌∷◌, ◌++◌, ℤ, ◌+ℤ◌, arith, ok, find?,
  count_where, update_where, count_where_of_find?, find?_of_count_zero, find?-append,
  find?-update_where, leb, Bool-cases, Option-cases, inl, inr,
}
use system_chat.Wallet.{
  CashbackTx, CbAvailable, WalletDb, has_key, increment, create_cb_trans, update_data,
}
use system_chat.Wallet.Balance.{balance_of, find?-update_data}
use system_chat.Rewards.{Coin, satoshi}
use system_chat.Orders.{
  Order, OrderDb, BuyVndcInput, vndc_code, vndc_order, create_order, create_buy_vndc_transaction,
  payable, is_under_way, update_status_transaction, OrderEnv, Payment, succeeded, pay_me_state,
  success_status, coin_with, credited_amount, paid_amount, paid_order, is_success, payment_tx,
  settle_order, add_to_balance, find_order, update_found, pay,
}

module _ (env : OrderEnv)
    (takes : (tx : CashbackTx) (w : WalletDb) → env.prisma.takes_cb_trans tx w ≡ true)
    (account_id order_id : ℕ) (payment : Payment) (made_up : payment.state ≡ succeeded) (amount : ℤ)
    (coin : Coin) where
  -- The tables after an order, as it was read, has been paid.
  abbrev pub paid_db : Order → OrderDb → OrderDb
  paid_db tran s = record {
    orders =
        update_where (λ row. row.transaction_id == order_id) (paid_order env payment tran amount)
          s.orders;
    notices =
        s.notices
        ++ (record {
          account_id = account_id;
          description = env.payment_succeeded amount (paid_amount env tran);
          ref = payment.transaction_id;
        })
          ∷ [];
    coins = s.coins;
    wallet = record s.wallet {
      cb_trans = s.wallet.cb_trans ++ payment_tx env account_id payment tran amount coin ∷ [];
      cb_available =
          update_where (has_key account_id coin.id 1) (update_data env.prisma increment amount)
            s.wallet.cb_available;
    };
  }

  -- The order as it was read need not be what is stored by now.
  pub update_found_paid :
      (tran : Order) (ca : CbAvailable) (s : OrderDb)
      → credited_amount env tran ≡ some amount
      → tran.status ≢ success_status
      → coin_with satoshi s ≡ some coin
      → find? (has_key account_id coin.id 1) s.wallet.cb_available ≡ some ca
      → update_found env account_id order_id payment tran s ≡ (ok true, paid_db tran s)
  unfolding pay settle_order add_to_balance create_cb_trans
  update_found_paid tran ca s rounds open_order has_coin row =
      let taken = takes (payment_tx env account_id payment tran amount coin) s.wallet in
      let hit = count_where_of_find? (has_key account_id coin.id 1) ca s.wallet.cb_available row in
      let due : (tran.status == success_status || pay_me_state payment.state == tran.status)
          ≡ false =
        ground arith in
      let good : is_success payment ≡ true = ground arith in
      let here : (count_where (has_key account_id coin.id 1) s.wallet.cb_available == 0) ≡ false =
        ground arith in
      rw due (rw rounds (rw good (rw has_coin (rw taken (rw here (rw good refl))))))

  balance_of-paid_db :
      (tran : Order) (s : OrderDb) (balance : ℤ)
      → balance_of account_id coin.id 1 s.wallet ≡ some balance
      → balance_of account_id coin.id 1 (paid_db tran s).wallet ≡ some (balance +ℤ amount)
  balance_of-paid_db tran s balance row = ground (
    arith,
    find?-update_data env.prisma increment amount account_id coin.id 1 account_id coin.id 1
        s.wallet.cb_available,
  )

  row_of-paid_db :
      (tran : Order) (ca : CbAvailable) (s : OrderDb)
      → find? (has_key account_id coin.id 1) s.wallet.cb_available ≡ some ca
      → find? (has_key account_id coin.id 1) (paid_db tran s).wallet.cb_available
        ≡ some (update_data env.prisma increment amount ca)
  row_of-paid_db tran ca s row =
      find?-update_where (has_key account_id coin.id 1) (update_data env.prisma increment amount) ca
        s.wallet.cb_available (λ x e. e) row

  -- Two calls of updateStatusTransaction that have both read the order before either writes both
  -- answer that it is paid, and the account is credited twice. The order is not yet fulfilled, its
  -- amount rounds to a number, the account has a balance in Satoshi, and the database takes the
  -- transactions.
  pub update_found_twice :
      (tran : Order) (ca : CbAvailable) (s : OrderDb)
      → find_order account_id order_id s ≡ (ok tran, s)
      → credited_amount env tran ≡ some amount
      → tran.status ≢ success_status
      → coin_with satoshi s ≡ some coin
      → find? (has_key account_id coin.id 1) s.wallet.cb_available ≡ some ca
      → let t = (update_found env account_id order_id payment tran s).1 in
        ((update_found env account_id order_id payment tran s).0 ≡ ok true)
        × ((update_found env account_id order_id payment tran t).0 ≡ ok true)
        × (balance_of account_id coin.id 1
              (update_found env account_id order_id payment tran t).1.wallet
            ≡ some (ca.amount +ℤ amount +ℤ amount))
  update_found_twice tran ca s read rounds open_order has_coin row =
      let first = update_found_paid tran ca s rounds open_order has_coin row in
      let row' = row_of-paid_db tran ca s row in
      let second =
        update_found_paid tran (update_data env.prisma increment amount ca) (paid_db tran s) rounds
          open_order has_coin row' in
      let once = balance_of-paid_db tran s ca.amount (ground (arith, row)) in
      rw first (
        refl,
        rw second refl,
        rw second (balance_of-paid_db tran (paid_db tran s) (ca.amount +ℤ amount) once),
      )

-- The tables after createBuyVNDCTransaction.
create_buy_vndc_created :
    (env : OrderEnv) (order_id : ℕ) (input : BuyVndcInput) (s : OrderDb)
    → (create_buy_vndc_transaction env order_id input s).0 ≡ ok order_id
    → (coin : Coin) × ((create_buy_vndc_transaction env order_id input s).1
        ≡ record s { orders = s.orders ++ vndc_order env order_id input coin ∷ [] })
      × (find? (payable input.account_id order_id) s.orders ≡ none)
unfolding create_buy_vndc_transaction create_order
create_buy_vndc_created env order_id input s e =
    let taken = λ (row : Order). row.order_id == order_id || row.transaction_id == order_id in
    elim (Bool-cases (leb 1 (count_where (is_under_way input.account_id) s.orders))) [
      | inl busy ↦ absurd (ground (arith, e, busy))
      | inr idle ↦ elim (Option-cases (coin_with vndc_code s)) [
        | inl missing ↦ absurd (ground (arith, e, idle, missing))
        | inr (coin, known) ↦ elim (Bool-cases (count_where taken s.orders == 0)) [
          | inl new ↦ (
            coin,
            rw idle (rw known (rw new refl)),
            find?_of_count_zero taken (payable input.account_id order_id) s.orders
                (λ x hit. ground arith) (ground arith),
          )
          | inr old ↦ absurd (ground (arith, e, idle, known, old))
        ]
      ]
    ]

module _ (env : OrderEnv)
    (takes : (tx : CashbackTx) (w : WalletDb) → env.prisma.takes_cb_trans tx w ≡ true) where
  -- Right after an order for VNDC is created, updateStatusTransaction answers that it is paid and
  -- credits its amount in Satoshi: nobody is asked for a payment, and the currency of the order is
  -- not read. The state is the one that the code makes up, the amount rounds to a number, the
  -- account has a balance in Satoshi, and the database takes the transaction.
  pub update_status-create_buy_vndc :
      (order_id : ℕ) (input : BuyVndcInput) (payment : Payment) (amount : ℤ) (coin : Coin)
      (ca : CbAvailable) (s : OrderDb)
      → payment.state ≡ succeeded
      → (create_buy_vndc_transaction env order_id input s).0 ≡ ok order_id
      → env.round (env.over (env.times (env.number input.amount) env.one) env.one) ≡ some amount
      → coin_with satoshi s ≡ some coin
      → find? (has_key input.account_id coin.id 1) s.wallet.cb_available ≡ some ca
      → let t = (create_buy_vndc_transaction env order_id input s).1 in
        ((update_status_transaction env input.account_id order_id payment t).0 ≡ ok true)
        × (balance_of input.account_id coin.id 1
              (update_status_transaction env input.account_id order_id payment t).1.wallet
            ≡ some (ca.amount +ℤ amount))
  unfolding update_status_transaction find_order
  update_status-create_buy_vndc order_id input payment amount coin ca s made_up created rounds
        has_coin row =
      let (vndc_coin, stored, absent) = create_buy_vndc_created env order_id input s created in
      let order = vndc_order env order_id input vndc_coin in
      let t = record s { orders = s.orders ++ order ∷ [] } in
      let found =
        find?-append (payable input.account_id order_id) order s.orders absent (ground arith) in
      let done =
        update_found_paid env takes input.account_id order_id payment made_up amount coin order ca t
          rounds (omega arith) has_coin row in
      rw stored (
        rw found (rw done refl),
        rw found (
            rw done (
              balance_of-paid_db env takes input.account_id order_id payment made_up amount coin
                order t ca.amount (ground (arith, row)))),
      )
