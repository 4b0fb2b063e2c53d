-- ===== src/Orders/Book.antt =====
-- What the orders promise: a book in which each order waits until it is fulfilled or withdrawn,
-- and in which only an order that is fulfilled is credited, once, with what it is worth.
mod Entering
mod Changing
mod Settling
pub mod Calls
use mathlib.Core.Option
use system_chat.Base.{
  ℕ, zero, suc, ◌+◌, ◌≤◌, ◌≡◌, ◌==◌, refl, sym, ap, ◌∙◌, Bool, true, false, not, ◌&&◌, ◌||◌, Option,
  some, none, List, [], ◌∷◌, ◌++◌, ℤ, pos, pos_part, neg_part, ◌+ℤ◌, int_laws, arith, if◌then◌else◌,
  All, find?, count_where, update_where, Bool-cases, inl, inr,
}
use system_chat.Wallet.{CashbackTx}
use system_chat.Wallet.Balance.{balance_of}
use system_chat.Orders.{Order, OrderDb, OrderEnv, credited_amount, success_status, rejected_status}

pub data Phase : Type 0 where
  waiting fulfilled withdrawn : Phase

-- The sum of the transactions of the wallet, and the balance of an account in a currency.
pub record Funds : Type 0 where
  pub received : ℤ
  pub balance : ℕ → ℕ → Option ℤ

-- `worth` has the account of an order and the amount in Satoshi, where that is a number.
pub record Book : Type 0 where
  pub phase : ℕ → Option Phase
  pub worth : ℕ → Option (ℕ × Option ℤ)
  pub funds : Funds

-- One transaction of the amount, which is added to one balance; every other stays.
pub record IsCredited (account_id currency_id : ℕ) (amount : ℤ) (before after : Funds)
    : Type 0 where
  pub old : ℤ
  pub had : before.balance account_id currency_id ≡ some old
  pub is_received : after.received ≡ before.received +ℤ amount
  pub is_added :
      (a c : ℕ)
      → after.balance a c
        ≡ Option.map
            (λ balance. if a == account_id && c == currency_id then balance +ℤ amount else balance)
            (before.balance a c)

-- The steps of the book.
pub data BookStep (b c : Book) : Type 0 where
  stay : ((i : ℕ) → c.phase i ≡ b.phase i) → c.funds ≡ b.funds → BookStep b c
  enter :
      (id : ℕ)
      → b.phase id ≡ none
      → ((i : ℕ) → c.phase i ≡ (if i == id then some waiting else b.phase i))
      → c.funds ≡ b.funds
      → BookStep b c
  fulfil :
      (id account_id currency_id : ℕ) (amount : ℤ)
      → b.phase id ≡ some waiting
      → b.worth id ≡ some (account_id, some amount)
      → ((i : ℕ) → c.phase i ≡ (if i == id then some fulfilled else b.phase i))
      → IsCredited account_id currency_id amount b.funds c.funds
      → BookStep b c
  withdraw :
      (id : ℕ)
      → b.phase id ≡ some waiting
      → ((i : ℕ) → c.phase i ≡ (if i == id then some withdrawn else b.phase i))
      → c.funds ≡ b.funds
      → BookStep b c

pub data BookSteps (b : Book) : Book → Type 0 where
  at_rest : BookSteps b b
  one_more : {c d : Book} → BookSteps b c → BookStep c d → BookSteps b d

abbrev pub has_id : ℕ → Order → Bool
has_id id order = order.order_id == id

abbrev pub phase_of : Order → Phase
phase_of order =
    if order.status == success_status
    then fulfilled
    else if order.status == rejected_status
    then withdrawn
    else waiting

abbrev pub received : List CashbackTx → ℤ
received [] = pos 0
received (tx ∷ txs) = tx.amount +ℤ received txs

-- What the tables say of the book.
abbrev pub book_of : OrderEnv → OrderDb → Book
book_of env s = record {
  phase = λ i. Option.map phase_of (find? (has_id i) s.orders);
  worth = λ i.
      Option.map (λ order. (order.account_id, credited_amount env order))
        (find? (has_id i) s.orders);
  funds = record {
    received = received s.wallet.cb_trans;
    balance = λ account_id currency_id. balance_of account_id currency_id 1 s.wallet;
  };
}

-- The ids of a row agree, and no two rows share one.
abbrev pub SameIds : Order → Type 0
SameIds order = order.transaction_id ≡ order.order_id

pub record IsIndexed (orders : List Order) : Type 0 where
  pub same_ids : All SameIds orders
  pub unique : (id : ℕ) → count_where (has_id id) orders ≤ 1

pub received-append :
    (tx : CashbackTx) (txs : List CashbackTx)
    → received (txs ++ tx ∷ []) ≡ received txs +ℤ tx.amount
received-append tx [] = grind int_laws
received-append tx (x ∷ xs) =
    let ih = received-append tx xs in omega (int_laws, ap pos_part ih, ap neg_part ih)

-- An update under an id that keeps the id.
pub find?-update_id :
    (f : Order → Order) (id i : ℕ) (xs : List Order)
    → ((x : Order) → (f x).order_id ≡ x.order_id)
    → find? (has_id i) (update_where (has_id id) f xs)
      ≡ Option.map (λ x. if i == id then f x else x) (find? (has_id i) xs)
find?-update_id f id i [] keep = refl
find?-update_id f id i (x ∷ xs) keep = ground (arith, keep x, find?-update_id f id i xs keep)

pub update_where-transaction_id :
    (f : Order → Order) (id : ℕ) (xs : List Order)
    → All SameIds xs
    → update_where (λ row. row.transaction_id == id) f xs ≡ update_where (has_id id) f xs
update_where-transaction_id f id [] same = refl
update_where-transaction_id f id (x ∷ xs) same =
    let ih = update_where-transaction_id f id xs same.1 in
    let here : x.transaction_id ≡ x.order_id = same.0 in rw here (rw ih refl)

All-update :
    (f : Order → Order) (p : Order → Bool) (xs : List Order)
    → ((x : Order) → SameIds x → SameIds (f x))
    → All SameIds xs
    → All SameIds (update_where p f xs)
All-update f p [] keep same = tt
All-update f p (x ∷ xs) keep same = elim (Bool-cases (p x)) [
  | inl hit ↦ rw hit (keep x same.0, All-update f p xs keep same.1)
  | inr miss ↦ rw miss (same.0, All-update f p xs keep same.1)
]
