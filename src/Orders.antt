-- ===== src/Orders.antt =====
-- apps/authenticator/src/partner.service.ts: the orders by which an account buys coins, with
-- buyVNDC of apps/cashback/src/cashback.service.ts, which writes into the same table.
mod Rows
pub mod Book
pub mod Payments
pub mod Pending
mod Tests
pub use Rows.*
use system_chat.Base.{
  ℕ, ◌==◌, Bool, true, false, not, ◌&&◌, ◌||◌, Option, some, none, List, [], ◌∷◌, ◌++◌, ℤ, pos,
  Result, ok, err, Effect, pure, gets, modify, or_raise, raise_if, atomically, ◌>>=◌, ◌>>◌,
  if◌then◌else◌, find?, select_where, count_where, update_where, leb,
}
use system_chat.Wallet.{
  CashbackTx, WalletDb, WalletError, increment, has_key, create_cb_trans, update_data,
}
use system_chat.Rewards.{Coin, satoshi}

abbrev pub lift_wallet : {A : Type 0} → Result WalletError A → Result OrderError A
lift_wallet (ok a) = ok a
lift_wallet (err e) = err (wallet_failed e)

abbrev pub in_wallet : {A : Type 0} → Effect WalletError WalletDb A → OrderAction A
in_wallet m s = let (r, w) = m s.wallet in (lift_wallet r, record s { wallet = w })

-- `try { … } catch { return { status: false } }`; an error is only logged.
abbrev pub or_false : Result OrderError Bool → Result OrderError Bool
or_false (ok answer) = ok answer
or_false (err e) = ok false

abbrev pub attempt : OrderAction Bool → OrderAction Bool
attempt m s = let (r, s') = m s in (or_false r, s')

abbrev pub coin_with : ℕ → OrderDb → Option Coin
coin_with code s = find? (λ coin. coin.code == code) s.coins

abbrev pub is_under_way : ℕ → Order → Bool
is_under_way account_id order = order.status == processing_status && order.account_id == account_id

-- `getPartnerTransaction().create`: both ids are unique keys.
unfoldable pub create_order : Order → OrderAction (Unit {0})
create_order order s =
    if count_where
        (λ row. row.order_id == order.order_id || row.transaction_id == order.transaction_id)
        s.orders
      == 0
    then (ok tt, record s { orders = s.orders ++ order ∷ [] })
    else (err row_refused, s)

abbrev pub raise_if_pending : ℕ → OrderAction (Unit {0})
raise_if_pending account_id s =
    raise_if (leb 1 (count_where (is_under_way account_id) s.orders)) has_transaction_pending s

-- The order of createBuyVNDCTransaction: the rate is 1.
abbrev pub vndc_order : OrderEnv → ℕ → BuyVndcInput → Coin → Order
vndc_order env order_id input coin = record {
  account_id = input.account_id;
  order_id = order_id;
  transaction_id = order_id;
  amount = input.amount;
  amount_exchange = input.amount;
  exchange_rate = env.one;
  status = processing_status;
  type = incoming_type;
  description = env.deposit_pending input.amount;
  method_type = input.method_type;
  currency_id = some coin.id;
  payme_id = none;
  histories = opened input.amount order_id ∷ [];
}

-- `createBuyVNDCTransaction`; `order_id` is the new UUID.
pub create_buy_vndc_transaction : OrderEnv → ℕ → BuyVndcInput → OrderAction ℕ
create_buy_vndc_transaction env order_id input = do
  currency ← gets (coin_with vndc_code)
  raise_if_pending input.account_id
  coin ← or_raise currency type_error
  create_order (vndc_order env order_id input coin)
  pure order_id

-- `ask > bid ? ask : bid`, and what comes of the amount.
abbrev pub satoshi_order : OrderEnv → ℕ → BuyVndcInput → ℕ → ℤ → Coin → Order
satoshi_order env order_id input rate amount_exchange coin = record {
  account_id = input.account_id;
  order_id = order_id;
  transaction_id = order_id;
  amount = input.amount;
  amount_exchange = amount_exchange;
  exchange_rate = rate;
  status = processing_status;
  type = incoming_type;
  description = env.payment_pending input.amount amount_exchange;
  method_type = input.method_type;
  currency_id = some coin.id;
  payme_id = none;
  histories = opened_at input.amount order_id amount_exchange ∷ [];
}

-- `createTransactionForBuyingSatoshi`; `rate` is the larger of the prices for Satoshi, if
-- getExchangeRate has one.
pub create_transaction_for_buying_satoshi : OrderEnv → ℕ → Option ℕ → BuyVndcInput → OrderAction ℕ
create_transaction_for_buying_satoshi env order_id rate input = do
  currency ← gets (coin_with satoshi)
  raise_if_pending input.account_id
  rate_value ← or_raise rate amount_invalid
  coin ← or_raise currency type_error
  amount_exchange ← or_raise (env.round (env.times rate_value (env.number input.amount))) bad_number
  create_order (satoshi_order env order_id input rate_value amount_exchange coin)
  pure order_id

-- `buyVNDC`: what it does not set has the column's default.
abbrev pub outgoing_order : OrderEnv → ℕ → ℕ → ℤ → ℕ → Order
outgoing_order env account_id order_id amount rate = record {
  account_id = account_id;
  order_id = order_id;
  transaction_id = order_id;
  amount = amount;
  amount_exchange = pos 0;
  exchange_rate = rate;
  status = processing_status;
  type = outgoing_type;
  description = env.in_process;
  method_type = 1;
  currency_id = none;
  payme_id = none;
  histories = opened amount order_id ∷ [];
}

pub buy_vndc : OrderEnv → ℕ → ℕ → ℤ → Option ℕ → OrderAction (Unit {0})
buy_vndc env account_id order_id amount rate = do
  rate_value ← or_raise rate type_error
  create_order (outgoing_order env account_id order_id amount rate_value)

-- `cancelTransactionById`; `none` is the answer `{ status: false }`.
abbrev pub cancellable : ℕ → Order → Bool
cancellable order_id order = order.order_id == order_id && order.status == processing_status

abbrev pub canceled_order : ℕ → List OrderEntry → Order → Order
canceled_order now histories row = record row {
  status = rejected_status;
  histories = histories ++ canceled_by_user now ∷ [];
}

abbrev pub cancel_found : ℕ → ℕ → Option Order → OrderAction (Option ℕ)
cancel_found now order_id none = pure none
cancel_found now order_id (some order) = do
  modify (λ s. record s {
    orders =
        update_where (λ row. row.order_id == order_id) (canceled_order now order.histories)
          s.orders;
  })
  pure (some order_id)

pub cancel_transaction_by_id : ℕ → ℕ → OrderAction (Option ℕ)
cancel_transaction_by_id now order_id = do
  tx_pending ← gets (λ s. find? (cancellable order_id) s.orders)
  cancel_found now order_id tx_pending

-- The query of updateStatusTransaction.
abbrev pub payable : ℕ → ℕ → Order → Bool
payable account_id order_id order =
    order.transaction_id == order_id
    && order.account_id == account_id
    && not (order.status == rejected_status)

-- `getCbAvailable().update` by its unique key.
pub add_to_balance : OrderEnv → ℕ → ℕ → ℤ → OrderAction (Unit {0})
add_to_balance env account_id currency_id amount = do
  count ← gets (λ s. count_where (has_key account_id currency_id 1) s.wallet.cb_available)
  raise_if (count == 0) row_refused
  modify (λ s. record s {
    wallet = record s.wallet {
      cb_available =
          update_where (has_key account_id currency_id 1) (update_data env.prisma increment amount)
            s.wallet.cb_available;
    };
  })

-- What PayMe says is made up by the code: the number that the transaction has there, the new
-- UUID of the payment, and the state.
pub record Payment : Type 0 where
  pub state : PayMeState
  pub id_tran : ℕ
  pub transaction_id : ℕ

-- `data.amount`
abbrev pub paid_amount : OrderEnv → Order → ℕ
paid_amount env tran = env.times (env.number tran.amount) tran.exchange_rate

-- `Math.round(data.amount / tran.exchangeRate)`
abbrev pub credited_amount : OrderEnv → Order → Option ℤ
credited_amount env tran = env.round (env.over (paid_amount env tran) tran.exchange_rate)

abbrev pub payment_tx : OrderEnv → ℕ → Payment → Order → ℤ → Coin → CashbackTx
payment_tx env account_id payment tran amount coin = record {
  id = some payment.transaction_id;
  type = 6;
  amount = amount;
  status = pay_me_state payment.state;
  action_type = 1;
  title = 6;
  description = env.payment_succeeded amount (paid_amount env tran);
  updated_at = env.prisma.stamp;
  old_balance = none;
  currency_id = coin.id;
  sender_id = none;
  receiver_id = some account_id;
}

abbrev pub paid_order : OrderEnv → Payment → Order → ℤ → Order → Order
paid_order env payment tran amount row = record row {
  description = env.payment_succeeded amount (paid_amount env tran);
  amount = amount;
  payme_id = some payment.id_tran;
  status = pay_me_state payment.state;
  histories = tran.histories ++ paid (pay_me_state payment.state) amount payment.id_tran ∷ [];
}

abbrev pub is_success : Payment → Bool
is_success payment = pay_me_state payment.state == success_status

-- The update of the order and the notice, which every state has.
pub settle_order : OrderEnv → ℕ → ℕ → Payment → Order → ℤ → OrderAction (Unit {0})
settle_order env account_id order_id payment tran amount = modify (λ s. record s {
  orders =
      update_where (λ row. row.transaction_id == order_id) (paid_order env payment tran amount)
        s.orders;
  notices =
      s.notices
      ++ (record {
        account_id = account_id;
        description = env.payment_succeeded amount (paid_amount env tran);
        ref = if is_success payment then payment.transaction_id else order_id;
      })
        ∷ [];
})

-- The credit, which only a success_status has.
abbrev pub credit_order : OrderEnv → ℕ → Payment → Order → ℤ → Coin → OrderAction (Unit {0})
credit_order env account_id payment tran amount coin = do
  in_wallet (create_cb_trans env.prisma (payment_tx env account_id payment tran amount coin))
  add_to_balance env account_id coin.id amount

abbrev pub settle : OrderEnv → ℕ → ℕ → Payment → Order → ℤ → Bool → OrderAction (Unit {0})
settle env account_id order_id payment tran amount false =
    atomically (settle_order env account_id order_id payment tran amount)
settle env account_id order_id payment tran amount true = do
  currency ← gets (coin_with satoshi)
  coin ← or_raise currency type_error
  atomically (
      settle_order env account_id order_id payment tran amount
      >> credit_order env account_id payment tran amount coin)

-- What is inside `try`.
pub pay : OrderEnv → ℕ → ℕ → Payment → Order → OrderAction Bool
pay env account_id order_id payment tran = do
  amount ← or_raise (credited_amount env tran) bad_number
  settle env account_id order_id payment tran amount (is_success payment)
  pure true

-- The answer where the order has been read.
abbrev pub update_found : OrderEnv → ℕ → ℕ → Payment → Order → OrderAction Bool
update_found env account_id order_id payment tran =
    if tran.status == success_status || pay_me_state payment.state == tran.status
    then pure false
    else attempt (pay env account_id order_id payment tran)

pub find_order : ℕ → ℕ → OrderAction Order
find_order account_id order_id = do
  tran ← gets (λ s. find? (payable account_id order_id) s.orders)
  or_raise tran transaction_invalid

-- `updateStatusTransaction`, with the state that PayMe is said to give; the code has `succeeded`.
pub update_status_transaction : OrderEnv → ℕ → ℕ → Payment → OrderAction Bool
update_status_transaction env account_id order_id payment = do
  tran ← find_order account_id order_id
  update_found env account_id order_id payment tran

-- `getTransactionByAccountId`, the rows that it selects.
pub get_transaction_by_account_id : ℕ → OrderAction (List Order)
get_transaction_by_account_id account_id =
    gets (λ s. select_where (is_under_way account_id) s.orders)

-- The calls of both services that write orders, with the dates and new ids that they read.
pub data OrderCall : Type 0 where
  create_buy_vndc_order : ℕ → BuyVndcInput → OrderCall
  buy_satoshi : ℕ → Option ℕ → BuyVndcInput → OrderCall
  cancel_transaction : ℕ → ℕ → OrderCall
  update_order : ℕ → ℕ → Payment → OrderCall
  send_vndc : ℕ → ℕ → ℤ → Option ℕ → OrderCall

-- What a call leaves, however it ends.
pub perform_order : OrderEnv → OrderCall → OrderDb → OrderDb
perform_order env (create_buy_vndc_order order_id input) s =
    (create_buy_vndc_transaction env order_id input s).1
perform_order env (buy_satoshi order_id rate input) s =
    (create_transaction_for_buying_satoshi env order_id rate input s).1
perform_order env (cancel_transaction now order_id) s = (cancel_transaction_by_id now order_id s).1
perform_order env (update_order account_id order_id payment) s =
    (update_status_transaction env account_id order_id payment s).1
perform_order env (send_vndc account_id order_id amount rate) s =
    (buy_vndc env account_id order_id amount rate s).1

pub perform_orders : OrderEnv → List OrderCall → OrderDb → OrderDb
perform_orders env [] s = s
perform_orders env (call ∷ calls) s = perform_orders env calls (perform_order env call s)
