-- ===== src/Orders/Tests.antt =====
-- Runs of the orders, and a witness for each of their properties.
use system_chat.Base.{
  ◌*◌, ◌/◌, ◌≡◌, refl, true, some, List, [], ◌∷◌, pos, ◌+ℤ◌, pos_part, ok, arith,
}
use system_chat.Wallet.{CbAvailable, Prisma, create_cb_trans}
use system_chat.Wallet.Balance.{balance_of}
use system_chat.Rewards.{Coin}
use system_chat.Orders.{
  Order, OrderDb, OrderEnv, BuyVndcInput, Payment, succeeded, OrderCall, create_buy_vndc_order,
  buy_satoshi, cancel_transaction, update_order, vndc_order, cancel_transaction_by_id,
  create_transaction_for_buying_satoshi, create_order, pay, settle_order, add_to_balance,
  find_order, update_found, update_status_transaction, create_buy_vndc_transaction, perform_order,
  perform_orders,
}
use system_chat.Orders.Book.{BookSteps, book_of, IsIndexed, fulfilled}
use system_chat.Orders.Book.Calls.{perform_orders-BookSteps}
use system_chat.Orders.Payments.{update_found_twice, update_status-create_buy_vndc}
use system_chat.Orders.Pending.{HasOnePending, perform_orders-HasOnePending}

abbrev prisma : Prisma
prisma = record {
  takes_cb_trans = λ tx s. true;
  takes_broker = λ tx s. true;
  takes_referral = λ referral s. true;
  stamp = 77;
}

-- Arithmetic on whole numbers stands for the doubles.
abbrev env : OrderEnv
env = record {
  prisma = prisma;
  number = pos_part;
  one = 1;
  times = λ a b. a * b;
  over = λ a b. a / b;
  round = λ a. some (pos a);
  deposit_pending = λ a. 1;
  payment_pending = λ a b. 2;
  payment_succeeded = λ a b. 3;
  in_process = 4;
}

abbrev sat_coin : Coin
sat_coin = record { id = 10; code = 0; status = 1 }

abbrev vndc_coin : Coin
vndc_coin = record { id = 11; code = 1; status = 1 }

abbrev sat_row : CbAvailable
sat_row = record {
  id = 1;
  amount = pos 5;
  updated_at = 5;
  currency_id = 10;
  account_id = 7;
  version = 1;
}

abbrev with_orders : List Order → OrderDb
with_orders orders = record {
  wallet = record {
    cb_available = sat_row ∷ [];
    cb_histories = [];
    cb_trans = [];
    broker_trans = [];
    referrals = [];
    partner_trans = [];
  };
  coins = sat_coin ∷ vndc_coin ∷ [];
  orders = orders;
  notices = [];
}

abbrev input : BuyVndcInput
input = record { account_id = 7; amount = pos 300; method_type = 1 }

abbrev payment : Payment
payment = record { state = succeeded; id_tran = 900; transaction_id = 901 }

abbrev own_order : Order
own_order = vndc_order env 50 input vndc_coin

abbrev calls : List OrderCall
calls =
    create_buy_vndc_order 50 input
    ∷ update_order 7 50 payment
    ∷ buy_satoshi 51 (some 4) input
    ∷ cancel_transaction 1000 51
    ∷ []

empty-IsIndexed : IsIndexed []
empty-IsIndexed = record { same_ids = tt; unique = λ id. omega arith }

first_fulfilled :
    (book_of env (perform_orders env calls (with_orders []))).phase 50 ≡ some fulfilled
unfolding perform_orders perform_order cancel_transaction_by_id
    create_transaction_for_buying_satoshi update_status_transaction find_order
    create_buy_vndc_transaction create_order pay settle_order create_cb_trans add_to_balance
first_fulfilled = refl

perform_orders-BookSteps_example :
    BookSteps
      (book_of env (with_orders []))
      (book_of env (perform_orders env calls (with_orders [])))
perform_orders-BookSteps_example =
    perform_orders-BookSteps env calls (with_orders []) empty-IsIndexed

perform_orders-HasOnePending_example : HasOnePending (perform_orders env calls (with_orders []))
perform_orders-HasOnePending_example =
    perform_orders-HasOnePending env calls (with_orders []) (tt, (refl, (tt, (tt, tt))))
      (λ account_id. omega arith)

update_found_twice_example :
    ((update_found env 7 50 payment own_order (with_orders (own_order ∷ []))).0 ≡ ok true)
    × ((update_found env 7 50 payment own_order
          (update_found env 7 50 payment own_order (with_orders (own_order ∷ []))).1).0
        ≡ ok true)
    × (balance_of 7 10 1
          (update_found env 7 50 payment own_order
            (update_found env 7 50 payment own_order (with_orders (own_order ∷ []))).1).1.wallet
        ≡ some (pos 5 +ℤ pos 300 +ℤ pos 300))
unfolding find_order
update_found_twice_example =
    update_found_twice env (λ tx w. refl) 7 50 payment refl (pos 300) sat_coin own_order sat_row
      (with_orders (own_order ∷ [])) refl refl (omega arith) refl refl

update_status-create_buy_vndc_example :
    ((update_status_transaction env 7 50 payment
        (create_buy_vndc_transaction env 50 input (with_orders [])).1).0
      ≡ ok true)
    × (balance_of 7 10 1
          (update_status_transaction env 7 50 payment
            (create_buy_vndc_transaction env 50 input (with_orders [])).1).1.wallet
        ≡ some (pos 5 +ℤ pos 300))
unfolding create_buy_vndc_transaction create_order
update_status-create_buy_vndc_example =
    update_status-create_buy_vndc env (λ tx w. refl) 50 input payment (pos 300) sat_coin sat_row
      (with_orders []) refl refl refl refl refl
