-- ===== src/Orders/Book/Entering.antt =====
-- The calls that write a new order enter it in the book, or change nothing.
use system_chat.Base.{
  ℕ, ◌≤◌, ◌≡◌, ◌==◌, inl, inr, refl, Bool, ◌||◌, Option, none, List, [], ◌∷◌, ◌++◌, ℤ, arith,
  All-append, read_first, answer_last, pure, ◌>>=◌, ◌>>◌, or_raise, find?, count_where, Bool-cases,
  Option-cases, count_where_of_find?, count_where-append, find?-append_new,
}
use system_chat.Rewards.{satoshi}
use system_chat.Orders.{
  Order, OrderDb, OrderEnv, type_error, amount_invalid, bad_number, vndc_code, OrderAction,
  BuyVndcInput, coin_with, create_order, raise_if_pending, create_buy_vndc_transaction,
  create_transaction_for_buying_satoshi, buy_vndc, vndc_order, satoshi_order, outgoing_order,
  processing_status,
}
use system_chat.Orders.Book.{BookStep, stay, enter, has_id, book_of, SameIds, IsIndexed}

-- The next tables are indexed, and their book is one step away.
abbrev pub Follows : OrderEnv → OrderDb → OrderDb → Type 0
Follows env s t = IsIndexed t.orders × BookStep (book_of env s) (book_of env t)

pub Follows-refl : (env : OrderEnv) (s : OrderDb) → IsIndexed s.orders → Follows env s s
Follows-refl env s h = (h, stay (λ i. refl) refl)

count-le-or :
    (p q : Order → Bool) (xs : List Order)
    → (count_where p xs ≤ count_where (λ x. p x || q x) xs)
      × (count_where q xs ≤ count_where (λ x. p x || q x) xs)
count-le-or p q [] = omega arith
count-le-or p q (x ∷ xs) = ground (arith, count-le-or p q xs)

find?_of_zero : (p : Order → Bool) (xs : List Order) → count_where p xs ≤ 0 → find? p xs ≡ none
find?_of_zero p xs h = elim (Option-cases (find? p xs)) [
  | inl e ↦ e
  | inr (a, e) ↦ absurd (omega (arith, count_where_of_find? p a xs e))
]

module _ (env : OrderEnv) (order : Order) (same : SameIds order)
    (begun : order.status ≡ processing_status) (s : OrderDb) (h : IsIndexed s.orders) where
  entered :
      count_where (has_id order.order_id) s.orders ≤ 0
      → Follows env s (record s { orders = s.orders ++ order ∷ [] })
  entered none_yet = (
    record {
      same_ids = All-append SameIds order s.orders h.same_ids same;
      unique = λ id.
          ground (arith, h.unique id, count_where-append (has_id id) order s.orders, none_yet);
    },
    enter order.order_id (rw (find?_of_zero (has_id order.order_id) s.orders none_yet) refl)
        (λ i. ground (
          arith,
          find?-append_new (has_id i) order s.orders,
          find?_of_zero (has_id order.order_id) s.orders none_yet,
        ))
        refl,
  )

  create_order-Follows : Follows env s (create_order order s).1
  unfolding create_order
  create_order-Follows =
      let test =
        count_where
          (λ row. row.order_id == order.order_id || row.transaction_id == order.transaction_id)
          s.orders in
      let below =
        (count-le-or (has_id order.order_id) (λ row. row.transaction_id == order.transaction_id)
          s.orders).0 in
      elim (Bool-cases (test == 0)) [
        | inl e ↦ rw e (entered (ground arith))
        | inr e ↦ rw e (Follows-refl env s h)
      ]

-- A call that reads, or ends the caller, leaves the step to what follows it.
module _ {A B : Type 0} (env : OrderEnv) (s : OrderDb) (h : IsIndexed s.orders) where
  pub read-Follows :
      (m : OrderAction A) (k : A → OrderAction B)
      → (m s).1 ≡ s
      → ((a : A) → Follows env s (k a s).1)
      → Follows env s ((m >>= k) s).1
  read-Follows m k e step = read_first (Follows env s) s m k e (Follows-refl env s h) step

  pub last-Follows :
      (m : OrderAction A) (b : B) → Follows env s (m s).1 → Follows env s ((m >> pure b) s).1
  last-Follows m b step = answer_last (Follows env s) s m b step

module _ (env : OrderEnv) (s : OrderDb) (h : IsIndexed s.orders) where
  pub create_buy_vndc-Follows :
      (order_id : ℕ) (input : BuyVndcInput)
      → Follows env s (create_buy_vndc_transaction env order_id input s).1
  unfolding create_buy_vndc_transaction
  create_buy_vndc-Follows order_id input =
      read-Follows env s h (raise_if_pending input.account_id) _ refl λ _.
        read-Follows env s h (or_raise (coin_with vndc_code s) type_error) _ refl λ coin.
          last-Follows env s h (create_order (vndc_order env order_id input coin)) order_id
            (create_order-Follows env (vndc_order env order_id input coin) refl refl s h)

  pub buying_satoshi-Follows :
      (order_id : ℕ) (rate : Option ℕ) (input : BuyVndcInput)
      → Follows env s (create_transaction_for_buying_satoshi env order_id rate input s).1
  unfolding create_transaction_for_buying_satoshi
  buying_satoshi-Follows order_id rate input =
      read-Follows env s h (raise_if_pending input.account_id) _ refl λ _.
        read-Follows env s h (or_raise rate amount_invalid) _ refl λ value.
          read-Follows env s h (or_raise (coin_with satoshi s) type_error) _ refl λ coin.
            read-Follows env s h
              (or_raise (env.round (env.times value (env.number input.amount))) bad_number) _ refl
              λ amount.
                last-Follows env s h
                  (create_order (satoshi_order env order_id input value amount coin)) order_id
                  (create_order-Follows env (satoshi_order env order_id input value amount coin)
                    refl refl s h)

  pub buy_vndc-Follows :
      (account_id order_id : ℕ) (amount : ℤ) (rate : Option ℕ)
      → Follows env s (buy_vndc env account_id order_id amount rate s).1
  unfolding buy_vndc
  buy_vndc-Follows account_id order_id amount rate =
      read-Follows env s h (or_raise rate type_error) _ refl λ value.
        create_order-Follows env (outgoing_order env account_id order_id amount value) refl refl s h
