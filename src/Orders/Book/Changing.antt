-- ===== src/Orders/Book/Changing.antt =====
-- A change of the order that a call has found, in the book.
use mathlib.Core.Option
use system_chat.Base.{
  ℕ, ◌≡◌, ◌==◌, inl, inr, refl, sym, ◌∙◌, subst, Bool, true, some, List, arith, if◌then◌else◌,
  find?, update_where, Bool-cases, find?_of_unique, count_where-update_where_kept,
}
use system_chat.Orders.{Order, OrderDb}
use system_chat.Orders.Book.{
  Phase, has_id, phase_of, SameIds, IsIndexed, find?-update_id, All-update,
}

-- An update of the order with an id, found by a test that implies the id.
module _ (id : ℕ) (f : Order → Order) (q : Order → Bool) (tran : Order) (s : OrderDb)
    (h : IsIndexed s.orders) (keep : (x : Order) → (f x).order_id ≡ x.order_id)
    (keep_transaction : (x : Order) → (f x).transaction_id ≡ x.transaction_id)
    (implied : (x : Order) → SameIds x → q x ≡ true → has_id id x ≡ true)
    (found : find? q s.orders ≡ some tran) where
  unfoldable pub changed_orders : List Order
  changed_orders = update_where (has_id id) f s.orders

  pub changed-IsIndexed : IsIndexed changed_orders
  unfolding changed_orders
  changed-IsIndexed = record {
    same_ids =
        All-update f (has_id id) s.orders (λ x e. keep_transaction x ∙ e ∙ sym (keep x)) h.same_ids;
    unique = λ i.
        rw
          (count_where-update_where_kept (has_id id) (has_id i) f s.orders
            (λ x e. rw (keep x) refl))
          (h.unique i);
  }

  pub tran_is : find? (has_id id) s.orders ≡ some tran
  tran_is =
      find?_of_unique SameIds (has_id id) q tran s.orders h.same_ids implied (h.unique id) found

  pub changed_phase :
      (new : Phase)
      → phase_of (f tran) ≡ new
      → (i : ℕ)
      → Option.map phase_of (find? (has_id i) changed_orders)
        ≡ (if i == id then some new else Option.map phase_of (find? (has_id i) s.orders))
  unfolding changed_orders
  changed_phase new e i = elim (Bool-cases (i == id)) [
    | inl hit ↦
        let same : id ≡ i = ground arith in
        rw hit (
          subst
            (λ k.
              Option.map phase_of (find? (has_id k) (update_where (has_id id) f s.orders))
              ≡ some new)
            same (rw (find?-update_id f id id s.orders keep, tran_is) (ground (arith, e))))
    | inr miss ↦ ground (arith, find?-update_id f id i s.orders keep, miss)
  ]
