-- ===== src/Orders/Pending.antt =====
-- Every account has at most one order under way.
use system_chat.Base.{
  ℕ, ◌≤◌, ◌≡◌, ◌==◌, refl, Bool, true, false, ◌||◌, Option, some, List, [], ◌∷◌, ℤ, arith, pure,
  ◌>>=◌, ◌>>◌, or_raise, find?, count_where, count_where-append, update_where, leb, Bool-cases,
  Option-cases, inl, inr, All, Keeps, Keeps-bind, Keeps-atomically, read_first, answer_last,
}
use system_chat.Wallet.{create_cb_trans, has_key}
use system_chat.Rewards.{Coin, satoshi}
use system_chat.Orders.{
  success_status, pay_me_state, payment_tx, vndc_code, type_error, amount_invalid, bad_number,
  vndc_order, satoshi_order, Order, OrderDb, OrderEnv, OrderAction, BuyVndcInput, Payment,
  succeeded, is_under_way, cancellable, create_order, raise_if_pending, create_buy_vndc_transaction,
  create_transaction_for_buying_satoshi, cancel_transaction_by_id, cancel_found, canceled_order,
  paid_order, coin_with, update_status_transaction, update_found, pay, settle, settle_order,
  credit_order, add_to_balance, find_order, credited_amount, is_success, OrderCall,
  create_buy_vndc_order, buy_satoshi, cancel_transaction, update_order, send_vndc, perform_order,
  perform_orders,
}

abbrev pub HasOnePending : OrderDb → Type 0
HasOnePending s = (account_id : ℕ) → count_where (is_under_way account_id) s.orders ≤ 1

-- A change that leaves no order under way ends orders only.
count_pending-update :
    (p : Order → Bool) (f : Order → Order) (account_id : ℕ) (xs : List Order)
    → ((x : Order) → is_under_way account_id (f x) ≡ false)
    → count_where (is_under_way account_id) (update_where p f xs)
      ≤ count_where (is_under_way account_id) xs
count_pending-update p f account_id [] ended = omega arith
count_pending-update p f account_id (x ∷ xs) ended =
    ground (arith, ended x, count_pending-update p f account_id xs ended)

update-HasOnePending :
    (p : Order → Bool) (f : Order → Order) (s t : OrderDb)
    → ((account_id : ℕ) (x : Order) → is_under_way account_id (f x) ≡ false)
    → t.orders ≡ update_where p f s.orders
    → HasOnePending s
    → HasOnePending t
update-HasOnePending p f s t ended e one account_id =
    rw e (
      omega
        (arith, count_pending-update p f account_id s.orders (ended account_id), one account_id))

-- A new order of an account that has none.
create_order-HasOnePending :
    (order : Order) (s : OrderDb)
    → count_where (is_under_way order.account_id) s.orders ≡ 0
    → HasOnePending s
    → HasOnePending (create_order order s).1
unfolding create_order
create_order-HasOnePending order s idle one account_id =
    ground
      (arith, count_where-append (is_under_way account_id) order s.orders, one account_id, idle)

-- A call that tests first whether an order is under way.
test_first :
    {B : Type 0} (account_id : ℕ) (s : OrderDb) (k : OrderAction B)
    → HasOnePending s
    → (count_where (is_under_way account_id) s.orders ≡ 0 → HasOnePending (k s).1)
    → HasOnePending ((raise_if_pending account_id >> k) s).1
test_first account_id s k one next =
    elim (Bool-cases (leb 1 (count_where (is_under_way account_id) s.orders))) [
      | inl busy ↦ rw busy one
      | inr idle ↦ rw idle (next (ground arith))
    ]

module _ (env : OrderEnv) (s : OrderDb) (one : HasOnePending s) where
  create_buy_vndc-HasOnePending :
      (order_id : ℕ) (input : BuyVndcInput)
      → HasOnePending (create_buy_vndc_transaction env order_id input s).1
  unfolding create_buy_vndc_transaction
  create_buy_vndc-HasOnePending order_id input =
      test_first input.account_id s
        (or_raise (coin_with vndc_code s) type_error >>= λ coin.
          create_order (vndc_order env order_id input coin) >> pure order_id)
        one
        λ idle.
          read_first HasOnePending s (or_raise (coin_with vndc_code s) type_error) _ refl one
            λ coin.
              answer_last HasOnePending s (create_order (vndc_order env order_id input coin))
                order_id
                (create_order-HasOnePending (vndc_order env order_id input coin) s idle one)

  buying_satoshi-HasOnePending :
      (order_id : ℕ) (rate : Option ℕ) (input : BuyVndcInput)
      → HasOnePending (create_transaction_for_buying_satoshi env order_id rate input s).1
  unfolding create_transaction_for_buying_satoshi
  buying_satoshi-HasOnePending order_id rate input =
      let rest = λ (value : ℕ) (coin : Coin).
        or_raise (env.round (env.times value (env.number input.amount))) bad_number >>= λ amount.
        create_order (satoshi_order env order_id input value amount coin) >> pure order_id in
      test_first input.account_id s
        (or_raise rate amount_invalid >>= λ value.
          or_raise (coin_with satoshi s) type_error >>= rest value)
        one
        λ idle. read_first HasOnePending s (or_raise rate amount_invalid) _ refl one λ value.
          read_first HasOnePending s (or_raise (coin_with satoshi s) type_error) (rest value) refl
            one
            λ coin.
              read_first HasOnePending s
                (or_raise (env.round (env.times value (env.number input.amount))) bad_number) _ refl
                one
                λ amount.
                  answer_last HasOnePending s
                    (create_order (satoshi_order env order_id input value amount coin)) order_id
                    (create_order-HasOnePending (satoshi_order env order_id input value amount coin)
                      s idle one)

  cancel-HasOnePending :
      (now order_id : ℕ) → HasOnePending (cancel_transaction_by_id now order_id s).1
  unfolding cancel_transaction_by_id
  cancel-HasOnePending now order_id = elim (Option-cases (find? (cancellable order_id) s.orders)) [
    | inl e ↦ rw e one
    | inr (tran, e) ↦ rw e (
        update-HasOnePending (λ row. row.order_id == order_id) (canceled_order now tran.histories) s
          (cancel_found now order_id (some tran) s).1 (λ account_id x. refl) refl one)
  ]

module _ (env : OrderEnv) (account_id order_id : ℕ) (payment : Payment)
    (made_up : payment.state ≡ succeeded) (tran : Order) (amount : ℤ) where
  settle_order-HasOnePending :
      Keeps HasOnePending (settle_order env account_id order_id payment tran amount)
  unfolding settle_order
  settle_order-HasOnePending s one =
      update-HasOnePending (λ row. row.transaction_id == order_id)
        (paid_order env payment tran amount) s
        (settle_order env account_id order_id payment tran amount s).1
        (λ account x. rw made_up refl) refl one

  credit_order-orders :
      (coin : Coin) (s : OrderDb)
      → (credit_order env account_id payment tran amount coin s).1.orders ≡ s.orders
  unfolding create_cb_trans add_to_balance
  credit_order-orders coin s =
      elim (Bool-cases
        (env.prisma.takes_cb_trans (payment_tx env account_id payment tran amount coin) s.wallet)) [
          | inl taken ↦
              elim (Bool-cases
                (count_where (has_key account_id coin.id 1) s.wallet.cb_available == 0)) [
                  | inl absent ↦ rw (taken, absent) refl
                  | inr here ↦ rw (taken, here) refl
                ]
          | inr refused ↦ rw refused refl
        ]

  settle-HasOnePending :
      (good : Bool) → Keeps HasOnePending (settle env account_id order_id payment tran amount good)
  settle-HasOnePending false s one =
      Keeps-atomically HasOnePending (settle_order env account_id order_id payment tran amount)
        settle_order-HasOnePending s one
  settle-HasOnePending true s one =
      read_first HasOnePending s (or_raise (coin_with satoshi s) type_error) _ refl one λ coin.
        Keeps-atomically HasOnePending
          (settle_order env account_id order_id payment tran amount
            >> credit_order env account_id payment tran amount coin)
          (Keeps-bind HasOnePending (settle_order env account_id order_id payment tran amount)
            (λ _. credit_order env account_id payment tran amount coin) settle_order-HasOnePending
            (λ _ t p account. rw (credit_order-orders coin t) (p account)))
          s one

update_status-HasOnePending :
    (env : OrderEnv) (account_id order_id : ℕ) (payment : Payment) (s : OrderDb)
    → payment.state ≡ succeeded
    → HasOnePending s
    → HasOnePending (update_status_transaction env account_id order_id payment s).1
unfolding update_status_transaction find_order pay
update_status-HasOnePending env account_id order_id payment s made_up one =
    read_first HasOnePending s (find_order account_id order_id)
      (update_found env account_id order_id payment) refl one
      λ tran.
        elim (Bool-cases
          (tran.status == success_status || pay_me_state payment.state == tran.status)) [
            | inl idle ↦ rw idle one
            | inr due ↦ rw due (
                read_first HasOnePending s (or_raise (credited_amount env tran) bad_number)
                  (λ amount.
                    settle env account_id order_id payment tran amount (is_success payment)
                    >> pure true)
                  refl one
                  λ amount.
                    answer_last HasOnePending s
                      (settle env account_id order_id payment tran amount (is_success payment)) true
                      (settle-HasOnePending env account_id order_id payment made_up tran amount
                        (is_success payment) s one))
          ]

-- The calls of PartnerService, with the state that the code makes up; not buyVNDC.
abbrev pub IsPartnerCall : OrderCall → Type 0
IsPartnerCall (update_order account_id order_id payment) = payment.state ≡ succeeded
IsPartnerCall (send_vndc account_id order_id amount rate) = ⊥
IsPartnerCall (create_buy_vndc_order order_id input) = Unit
IsPartnerCall (buy_satoshi order_id rate input) = Unit
IsPartnerCall (cancel_transaction now order_id) = Unit

perform_order-HasOnePending :
    (env : OrderEnv) (call : OrderCall) (s : OrderDb)
    → IsPartnerCall call
    → HasOnePending s
    → HasOnePending (perform_order env call s)
unfolding perform_order
perform_order-HasOnePending env (create_buy_vndc_order order_id input) s p one =
    create_buy_vndc-HasOnePending env s one order_id input
perform_order-HasOnePending env (buy_satoshi order_id rate input) s p one =
    buying_satoshi-HasOnePending env s one order_id rate input
perform_order-HasOnePending env (cancel_transaction now order_id) s p one =
    cancel-HasOnePending env s one now order_id
perform_order-HasOnePending env (update_order account_id order_id payment) s p one =
    update_status-HasOnePending env account_id order_id payment s p one
perform_order-HasOnePending env (send_vndc account_id order_id amount rate) s p one = absurd p

-- The calls of PartnerService, one after the other and however they end, leave every account with
-- at most one order under way.
pub perform_orders-HasOnePending :
    (env : OrderEnv) (calls : List OrderCall) (s : OrderDb)
    → All IsPartnerCall calls
    → HasOnePending s
    → HasOnePending (perform_orders env calls s)
unfolding perform_orders
perform_orders-HasOnePending env [] s p one = one
perform_orders-HasOnePending env (call ∷ calls) s p one =
    perform_orders-HasOnePending env calls (perform_order env call s) p.1
      (perform_order-HasOnePending env call s p.0 one)
