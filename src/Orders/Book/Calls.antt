-- ===== src/Orders/Book/Calls.antt =====
-- Every call that writes orders is one step of the book.
use system_chat.Base.{
  ℕ, ◌≡◌, ◌≢◌, inl, inr, refl, ap, ◌∙◌, true, some, List, [], ◌∷◌, arith, find?, Option-cases,
  find?_sound,
}
use system_chat.Orders.{
  Order, OrderDb, OrderEnv, Payment, OrderCall, create_buy_vndc_order, buy_satoshi,
  cancel_transaction, update_order, send_vndc, cancellable, cancel_transaction_by_id,
  canceled_order, processing_status, payable, find_order, update_status_transaction, perform_order,
  perform_orders,
}
use system_chat.Orders.Book.{
  Phase, Book, BookSteps, at_rest, one_more, waiting, withdrawn, BookStep, stay, enter, fulfil,
  withdraw, has_id, phase_of, book_of, SameIds, IsIndexed,
}
use system_chat.Orders.Book.Entering.{
  Follows, Follows-refl, create_buy_vndc-Follows, buying_satoshi-Follows, buy_vndc-Follows,
}
use system_chat.Orders.Book.Changing.{changed_orders, changed-IsIndexed, tran_is, changed_phase}
use system_chat.Orders.Book.Settling.{update_found-Follows}

phase_begun : (tran : Order) → tran.status ≡ processing_status → phase_of tran ≡ waiting
phase_begun tran e = ground arith

cancel-Follows :
    (env : OrderEnv) (now order_id : ℕ) (s : OrderDb)
    → IsIndexed s.orders
    → Follows env s (cancel_transaction_by_id now order_id s).1
unfolding cancel_transaction_by_id changed_orders
cancel-Follows env now order_id s h = elim (Option-cases (find? (cancellable order_id) s.orders)) [
  | inl e ↦ rw e (Follows-refl env s h)
  | inr (tran, e) ↦
      let f = canceled_order now tran.histories in
      let implied : (x : Order)
          → SameIds x
          → cancellable order_id x ≡ true
          → has_id order_id x ≡ true =
        λ x same hit. ground arith in
      let sound = find?_sound (cancellable order_id) tran s.orders e in
      let is =
        tran_is order_id f (cancellable order_id) tran s h (λ x. refl) (λ x. refl) implied e in
      rw e (
        changed-IsIndexed order_id f (cancellable order_id) tran s h (λ x. refl) (λ x. refl) implied
            e,
        withdraw order_id (rw is (ap some (phase_begun tran (ground arith))))
            (changed_phase order_id f (cancellable order_id) tran s h (λ x. refl) (λ x. refl)
              implied e withdrawn refl)
            refl,
      )
]

update_status-Follows :
    (env : OrderEnv) (account_id order_id : ℕ) (payment : Payment) (s : OrderDb)
    → IsIndexed s.orders
    → Follows env s (update_status_transaction env account_id order_id payment s).1
unfolding update_status_transaction find_order
update_status-Follows env account_id order_id payment s h =
    elim (Option-cases (find? (payable account_id order_id) s.orders)) [
      | inl e ↦ rw e (Follows-refl env s h)
      | inr (tran, e) ↦ rw e (update_found-Follows env account_id order_id payment s h tran e)
    ]

pub perform_order-Follows :
    (env : OrderEnv) (call : OrderCall) (s : OrderDb)
    → IsIndexed s.orders
    → Follows env s (perform_order env call s)
unfolding perform_order
perform_order-Follows env (create_buy_vndc_order order_id input) s h =
    create_buy_vndc-Follows env s h order_id input
perform_order-Follows env (buy_satoshi order_id rate input) s h =
    buying_satoshi-Follows env s h order_id rate input
perform_order-Follows env (cancel_transaction now order_id) s h =
    cancel-Follows env now order_id s h
perform_order-Follows env (update_order account_id order_id payment) s h =
    update_status-Follows env account_id order_id payment s h
perform_order-Follows env (send_vndc account_id order_id amount rate) s h =
    buy_vndc-Follows env s h account_id order_id amount rate

-- The runs of calls, from a book that is some steps away.
run-BookSteps :
    (env : OrderEnv) (calls : List OrderCall) (b : Book) (s : OrderDb)
    → IsIndexed s.orders
    → BookSteps b (book_of env s)
    → BookSteps b (book_of env (perform_orders env calls s))
unfolding perform_orders
run-BookSteps env [] b s h r = r
run-BookSteps env (call ∷ calls) b s h r =
    let (indexed, step) = perform_order-Follows env call s h in
    run-BookSteps env calls b (perform_order env call s) indexed (one_more r step)

-- Whatever calls write orders, and however they end, the tables go through steps of the book: an
-- order is entered waiting, under a new id; a waiting order may be fulfilled, with one transaction of
-- what it is worth and this amount added to one balance of its account, or withdrawn; nothing else
-- changes a phase, a balance or what was received. It is assumed that at the beginning the two ids
-- of each row agree and that no two rows share one.
pub perform_orders-BookSteps :
    (env : OrderEnv) (calls : List OrderCall) (s : OrderDb)
    → IsIndexed s.orders
    → BookSteps (book_of env s) (book_of env (perform_orders env calls s))
perform_orders-BookSteps env calls s h = run-BookSteps env calls (book_of env s) s h at_rest

-- A phase that is not waiting is the last one.
abbrev pub IsFinal : Phase → Type 0
IsFinal phase = phase ≢ waiting

final_step :
    (b c : Book) (id : ℕ) (phase : Phase)
    → IsFinal phase
    → BookStep b c
    → b.phase id ≡ some phase
    → c.phase id ≡ some phase
final_step b c id phase final (stay same _) e = same id ∙ e
final_step b c id phase final (enter new absent moved _) e = ground (arith, moved id)
final_step b c id phase final (fulfil at account currency amount open_order worth moved _) e =
    ground (arith, moved id)
final_step b c id phase final (withdraw at open_order moved _) e = ground (arith, moved id)

final_steps :
    (b c : Book) (id : ℕ) (phase : Phase)
    → IsFinal phase
    → BookSteps b c
    → b.phase id ≡ some phase
    → c.phase id ≡ some phase
final_steps b c id phase final at_rest e = e
final_steps b c id phase final (one_more {c = d} r step) e =
    final_step d c id phase final step (final_steps b d id phase final r e)

-- An order that is fulfilled or withdrawn stays so, whatever calls follow. It is assumed that the
-- two ids of each row agree and that no two rows share one.
pub perform_orders_final :
    (env : OrderEnv) (calls : List OrderCall) (s : OrderDb) (id : ℕ) (phase : Phase)
    → IsIndexed s.orders
    → IsFinal phase
    → (book_of env s).phase id ≡ some phase
    → (book_of env (perform_orders env calls s)).phase id ≡ some phase
perform_orders_final env calls s id phase h final e =
    final_steps (book_of env s) (book_of env (perform_orders env calls s)) id phase final
      (perform_orders-BookSteps env calls s h) e
