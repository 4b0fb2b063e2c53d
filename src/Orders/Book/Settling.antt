-- ===== src/Orders/Book/Settling.antt =====
-- updateStatusTransaction fulfils or withdraws an order, or changes nothing.
use mathlib.Core.Option
use system_chat.Base.{
  ℕ, Option, ◌+ℤ◌, ◌&&◌, ◌∙◌, ◌≡◌, ◌≢◌, ◌==◌, ◌⊎◌, inl, inr, refl, Bool, true, false, ◌||◌, some,
  List, [], ◌∷◌, ◌++◌, ℤ, arith, if◌then◌else◌, ◌>>◌, or_raise, atomically, find?, count_where,
  update_where, Bool-cases, Option-cases, none, find?_sound,
}
use system_chat.Wallet.{create_cb_trans, has_key, increment, update_data}
use system_chat.Wallet.Balance.{balance_of, find?-update_data}
use system_chat.Rewards.{Coin, satoshi}
use system_chat.Orders.{
  Order, OrderDb, OrderEnv, type_error, Payment, coin_with, success_status, rejected_status,
  credited_amount, payable, paid_order, payment_tx, is_success, pay_me_state, settle_order,
  credit_order, add_to_balance, pay, settle, update_found,
}
use system_chat.Orders.Book.{
  Phase, waiting, fulfilled, withdrawn, stay, fulfil, withdraw, has_id, phase_of, book_of, SameIds,
  IsIndexed, IsCredited, received-append, update_where-transaction_id,
}
use system_chat.Orders.Book.Entering.{Follows, Follows-refl, read-Follows, last-Follows}
use system_chat.Orders.Book.Changing.{changed_orders, changed-IsIndexed, tran_is, changed_phase}

same_move :
    (a a' c c' : ℕ) (amount : ℤ) (balance : Option ℤ)
    → Option.map (λ b. if a == a' && c == c' && 1 == 1 then b +ℤ amount else b) balance
      ≡ Option.map (λ b. if a == a' && c == c' then b +ℤ amount else b) balance
same_move a a' c c' amount none = refl
same_move a a' c c' amount (some b) = elim (Bool-cases (a == a')) [
  | inl e ↦ elim (Bool-cases (c == c')) [ inl d ↦ rw (e, d) refl | inr d ↦ rw (e, d) refl ]
  | inr e ↦ rw e refl
]

count_where_of_none :
    {A : Type 0} (p : A → Bool) (xs : List A) → find? p xs ≡ none → count_where p xs ≡ 0
count_where_of_none p [] h = refl
count_where_of_none p (x ∷ xs) h = ground (arith, h, count_where_of_none p xs)

module _ (env : OrderEnv) (account_id order_id : ℕ) (payment : Payment) (s : OrderDb)
    (h : IsIndexed s.orders) (tran : Order)
    (found : find? (payable account_id order_id) s.orders ≡ some tran) where
  payable-has_id :
      (x : Order) → SameIds x → payable account_id order_id x ≡ true → has_id order_id x ≡ true
  payable-has_id x same hit = ground arith

  -- The tables after the order has been settled with an amount.
  abbrev settled_orders : ℤ → List Order
  settled_orders amount =
      update_where (λ row. row.transaction_id == order_id) (paid_order env payment tran amount)
        s.orders

  settled_orders-IsIndexed : (amount : ℤ) → IsIndexed (settled_orders amount)
  unfolding changed_orders
  settled_orders-IsIndexed amount =
      rw
        (update_where-transaction_id (paid_order env payment tran amount) order_id s.orders
          h.same_ids)
        (changed-IsIndexed order_id (paid_order env payment tran amount)
          (payable account_id order_id) tran s h (λ x. refl) (λ x. refl) payable-has_id found)

  settled_phase :
      (amount : ℤ) (new : Phase)
      → phase_of (paid_order env payment tran amount tran) ≡ new
      → (i : ℕ)
      → Option.map phase_of (find? (has_id i) (settled_orders amount))
        ≡ (if i == order_id then some new else Option.map phase_of (find? (has_id i) s.orders))
  unfolding changed_orders
  settled_phase amount new e i =
      rw
        (update_where-transaction_id (paid_order env payment tran amount) order_id s.orders
          h.same_ids)
        (changed_phase order_id (paid_order env payment tran amount) (payable account_id order_id)
          tran s h (λ x. refl) (λ x. refl) payable-has_id found new e i)

  waiting_tran : tran.status ≢ success_status → (book_of env s).phase order_id ≡ some waiting
  waiting_tran open_order =
      let is =
        tran_is order_id (λ x. x) (payable account_id order_id) tran s h (λ x. refl) (λ x. refl)
          payable-has_id found in
      let sound = find?_sound (payable account_id order_id) tran s.orders found in
      rw is (ground arith)

  worth_tran :
      (amount : ℤ)
      → credited_amount env tran ≡ some amount
      → (book_of env s).worth order_id ≡ some (account_id, some amount)
  worth_tran amount e =
      let is =
        tran_is order_id (λ x. x) (payable account_id order_id) tran s h (λ x. refl) (λ x. refl)
          payable-has_id found in
      let sound = find?_sound (payable account_id order_id) tran s.orders found in
      let own : tran.account_id ≡ account_id = ground (arith, sound) in rw is (rw e (rw own refl))

  IsCredited-funds :
      (amount : ℤ) (coin : Coin) (t : OrderDb)
      → t.wallet.cb_trans
        ≡ s.wallet.cb_trans ++ payment_tx env account_id payment tran amount coin ∷ []
      → t.wallet.cb_available
        ≡ update_where
            (has_key account_id coin.id 1)
            (update_data env.prisma increment amount)
            s.wallet.cb_available
      → count_where (has_key account_id coin.id 1) s.wallet.cb_available ≢ 0
      → IsCredited account_id coin.id amount (book_of env s).funds (book_of env t).funds
  IsCredited-funds amount coin t txs rows some_row =
      elim (Option-cases (find? (has_key account_id coin.id 1) s.wallet.cb_available)) [
        | inl missing ↦
            absurd (some_row (count_where_of_none (has_key account_id coin.id 1) _ missing))
        | inr (row, at) ↦ record {
          old = row.amount;
          had = rw at refl;
          is_received = rw txs (
              received-append (payment_tx env account_id payment tran amount coin)
                s.wallet.cb_trans);
          is_added = λ a c.
              let moved =
                find?-update_data env.prisma increment amount account_id coin.id 1 a c 1
                  s.wallet.cb_available in
              rw rows (moved ∙ same_move a account_id c coin.id amount (balance_of a c 1 s.wallet));
        }
      ]

  -- The credit is in the batch: all of it is written, or nothing.
  batch_cases :
      (amount : ℤ) (coin : Coin)
      → ((atomically
            (settle_order env account_id order_id payment tran amount
              >> credit_order env account_id payment tran amount coin)
            s).1
          ≡ s)
        ⊎ ((t : OrderDb) × ((atomically
                (settle_order env account_id order_id payment tran amount
                  >> credit_order env account_id payment tran amount coin)
                s).1
              ≡ t)
            × (t.orders ≡ settled_orders amount)
            × (t.wallet.cb_trans
                ≡ s.wallet.cb_trans ++ payment_tx env account_id payment tran amount coin ∷ [])
            × (t.wallet.cb_available
                ≡ update_where
                    (has_key account_id coin.id 1)
                    (update_data env.prisma increment amount)
                    s.wallet.cb_available)
            × (count_where (has_key account_id coin.id 1) s.wallet.cb_available ≢ 0))
  unfolding settle_order add_to_balance create_cb_trans
  batch_cases amount coin =
      elim (Bool-cases
        (env.prisma.takes_cb_trans (payment_tx env account_id payment tran amount coin) s.wallet)) [
          | inl taken ↦
              elim (Bool-cases
                (count_where (has_key account_id coin.id 1) s.wallet.cb_available == 0)) [
                  | inl absent ↦ inl (rw (taken, absent) refl)
                  | inr here ↦
                      inr (rw (taken, here) (_, refl, refl, refl, refl, ground (arith, here)))
                ]
          | inr refused ↦ inl (rw refused refl)
        ]

  settle_success-Follows :
      (amount : ℤ)
      → credited_amount env tran ≡ some amount
      → tran.status ≢ success_status
      → is_success payment ≡ true
      → Follows env s (settle env account_id order_id payment tran amount true s).1
  settle_success-Follows amount is_worth open_order good =
      read-Follows env s h (or_raise (coin_with satoshi s) type_error) _ refl λ coin.
        elim (batch_cases amount coin) [
          | inl e ↦ rw e (Follows-refl env s h)
          | inr (t, e, orders, txs, rows, some_row) ↦ rw e (
            rw orders (settled_orders-IsIndexed amount),
            fulfil order_id account_id coin.id amount (waiting_tran open_order)
                (worth_tran amount is_worth)
                (rw orders (settled_phase amount fulfilled (ground arith)))
                (IsCredited-funds amount coin t txs rows some_row),
          )
        ]

  settle_other-Follows :
      (amount : ℤ)
      → tran.status ≢ success_status
      → is_success payment ≡ false
      → Follows env s (settle env account_id order_id payment tran amount false s).1
  unfolding settle_order
  settle_other-Follows amount open_order bad =
      elim (Bool-cases (pay_me_state payment.state == rejected_status)) [
        | inl gone ↦ (
          settled_orders-IsIndexed amount,
          withdraw order_id (waiting_tran open_order)
              (settled_phase amount withdrawn (ground arith)) refl,
        )
        | inr pending ↦
            let kept = settled_phase amount waiting (ground arith) in
            (
              settled_orders-IsIndexed amount,
              stay (λ i. ground (arith, kept i, waiting_tran open_order)) refl,
            )
      ]

  settle-Follows :
      (amount : ℤ) (good : Bool)
      → credited_amount env tran ≡ some amount
      → tran.status ≢ success_status
      → is_success payment ≡ good
      → Follows env s (settle env account_id order_id payment tran amount good s).1
  settle-Follows amount true worth open_order e = settle_success-Follows amount worth open_order e
  settle-Follows amount false worth open_order e = settle_other-Follows amount open_order e

  pay-Follows :
      tran.status ≢ success_status → Follows env s (pay env account_id order_id payment tran s).1
  unfolding pay
  pay-Follows open_order = elim (Option-cases (credited_amount env tran)) [
    | inl missing ↦ rw missing (Follows-refl env s h)
    | inr (amount, worth) ↦ rw worth (
        last-Follows env s h
          (settle env account_id order_id payment tran amount (is_success payment)) true
          (settle-Follows amount (is_success payment) worth open_order refl))
  ]

  pub update_found-Follows : Follows env s (update_found env account_id order_id payment tran s).1
  update_found-Follows =
      elim (Bool-cases
        (tran.status == success_status || pay_me_state payment.state == tran.status)) [
          | inl idle ↦ rw idle (Follows-refl env s h)
          | inr due ↦ rw due (pay-Follows (ground arith))
        ]
