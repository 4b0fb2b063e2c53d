-- ===== src/Wallet/Balance.antt =====
-- What `updateBalance` and its callers return and write, branch by branch.
use mathlib.Core.Option
use system_chat.Base.{
  ◌&&◌, ℕ, ◌==◌, ◌≡◌, refl, Bool, Option, some, none, List, [], ◌∷◌, ◌++◌, ℤ, ok, err, arith, find?,
  update_where, if◌then◌else◌, count_where_of_find?,
}
use system_chat.Wallet.{
  CbAvailable, CashbackTx, ActionType, increment, has_key, Prisma, WalletDb, update_data, moved,
  update_balance, increase_balance, insert_cashback_transaction, not_found, bad_query,
}

-- The database after a balance has been changed.
abbrev pub written : Prisma → ℤ → ℕ → ℕ → ℕ → ActionType → CbAvailable → WalletDb → WalletDb
written prisma amount account_id currency_id version type ca s = record s {
  cb_histories =
      s.cb_histories
      ++ (record {
        ca_id = ca.id;
        old_balance = ca.amount;
        amount = amount;
        type = type;
        last_update = ca.updated_at;
      })
        ∷ [];
  cb_available =
      update_where (has_key account_id currency_id version) (update_data prisma type amount)
        s.cb_available;
}

module _ (prisma : Prisma) (amount : ℤ) (account : Option ℕ) (currency_id version : ℕ)
    (type : ActionType) where
  pub update_balance_found :
      (account_id : ℕ) (ca : CbAvailable) (s : WalletDb)
      → account ≡ some account_id
      → find? (has_key account_id currency_id version) s.cb_available ≡ some ca
      → update_balance prisma amount account currency_id version type s
        ≡ (ok ca.amount, written prisma amount account_id currency_id version type ca s)
  unfolding update_balance
  update_balance_found a ca s to e =
      let hit = count_where_of_find? (has_key a currency_id version) ca s.cb_available e in
      ground arith

  pub update_balance_missing :
      (account_id : ℕ) (s : WalletDb)
      → account ≡ some account_id
      → find? (has_key account_id currency_id version) s.cb_available ≡ none
      → update_balance prisma amount account currency_id version type s ≡ (err not_found, s)
  unfolding update_balance
  update_balance_missing a s to e = ground arith

  pub update_balance_absent :
      (s : WalletDb)
      → account ≡ none
      → update_balance prisma amount account currency_id version type s ≡ (err bad_query, s)
  unfolding update_balance
  update_balance_absent s to = ground arith

-- The balance that a unique key leads to.
abbrev pub balance_of : ℕ → ℕ → ℕ → WalletDb → Option ℤ
balance_of account_id currency_id version s =
    Option.map (λ row. row.amount) (find? (has_key account_id currency_id version) s.cb_available)

pub find?-update_data :
    (prisma : Prisma) (type : ActionType) (amount : ℤ) (a c v a' c' v' : ℕ) (xs : List CbAvailable)
    → Option.map
        (λ row. row.amount)
        (find?
          (has_key a' c' v')
          (update_where (has_key a c v) (update_data prisma type amount) xs))
      ≡ Option.map
          (λ balance. if a' == a && c' == c && v' == v then moved type balance amount else balance)
          (Option.map (λ row. row.amount) (find? (has_key a' c' v') xs))
find?-update_data prisma type amount a c v a' c' v' [] = refl
find?-update_data prisma type amount a c v a' c' v' (x ∷ xs) =
    ground (arith, find?-update_data prisma type amount a c v a' c' v' xs)

-- The balance under every key after one has been moved.
pub balance_of-written :
    (prisma : Prisma) (type : ActionType) (amount : ℤ) (a c v a' c' v' : ℕ) (ca : CbAvailable)
    (s : WalletDb)
    → balance_of a' c' v' (written prisma amount a c v type ca s)
      ≡ Option.map
          (λ balance. if a' == a && c' == c && v' == v then moved type balance amount else balance)
          (balance_of a' c' v' s)
balance_of-written prisma type amount a c v a' c' v' ca s =
    find?-update_data prisma type amount a c v a' c' v' s.cb_available

-- The transaction as it is stored.
abbrev pub stamped : ℕ → ℤ → CashbackTx → CashbackTx
stamped now old tx = record tx { updated_at = now; old_balance = some old }

module _ (prisma : Prisma) (now : ℕ) (tx : CashbackTx) (version : ℕ) (broker : Bool) where
  pub increase_balance_found :
      (receiver : ℕ) (ca : CbAvailable) (s : WalletDb)
      → tx.receiver_id ≡ some receiver
      → find? (has_key receiver tx.currency_id version) s.cb_available ≡ some ca
      → increase_balance prisma now tx version broker s
        ≡ insert_cashback_transaction prisma
            (stamped now ca.amount tx)
            broker
            (written prisma tx.amount receiver tx.currency_id version increment ca s)
  unfolding increase_balance
  increase_balance_found receiver ca s to e = ground (
    arith,
    update_balance_found prisma tx.amount tx.receiver_id tx.currency_id version increment receiver
        ca s to e,
  )

  pub increase_balance_missing :
      (receiver : ℕ) (s : WalletDb)
      → tx.receiver_id ≡ some receiver
      → find? (has_key receiver tx.currency_id version) s.cb_available ≡ none
      → increase_balance prisma now tx version broker s ≡ (err not_found, s)
  unfolding increase_balance
  increase_balance_missing receiver s to e = ground (
    arith,
    update_balance_missing prisma tx.amount tx.receiver_id tx.currency_id version increment receiver
        s to e,
  )

  pub increase_balance_absent :
      (s : WalletDb)
      → tx.receiver_id ≡ none
      → increase_balance prisma now tx version broker s ≡ (err bad_query, s)
  unfolding increase_balance
  increase_balance_absent s to = ground (
    arith,
    update_balance_absent prisma tx.amount tx.receiver_id tx.currency_id version increment s to,
  )
