-- ===== src/Rewards/Save/Balances.antt =====
-- The balances that saveAccount creates, one for each active coin, and its other operations.
use system_chat.Base.{
  ℕ, ◌≡◌, refl, ◌∙◌, ◌==◌, Bool, false, Bool-cases, ==_iff, inl, inr, some, List, [], ◌∷◌, ◌++◌,
  pos, ok, arith, find?, select_where, count_where, All, find?-append, find?-append_new,
  count_where-append, count_where_implied, find?_of_count_zero,
}
use system_chat.Wallet.{CbAvailable, has_key, Prisma, WalletDb}
use system_chat.Rewards.{Coin, RewardDb}
use system_chat.Rewards.Save.{SaveCall, new_balance, create_balances, bulk_ops, count_account}

-- The coins have different keys.
abbrev pub IsDistinct : List Coin → Type 0
IsDistinct [] = Unit
IsDistinct (coin ∷ coins) = All (λ other. (other.id == coin.id) ≡ false) coins × IsDistinct coins

-- The account has no balance in any of the coins.
abbrev pub HasNone : ℕ → List Coin → WalletDb → Type 0
HasNone account_id coins w =
    All (λ coin. count_where (has_key account_id coin.id 1) w.cb_available ≡ 0) coins

module _ (P : Coin → Type 0) (p : Coin → Bool) where
  All-select : (coins : List Coin) → All P coins → All P (select_where p coins)
  unfolding select_where
  All-select [] h = tt
  All-select (coin ∷ coins) h = elim (Bool-cases (p coin)) [
    | inl hit ↦ rw hit (h.0, All-select coins h.1)
    | inr miss ↦ rw miss (All-select coins h.1)
  ]

pub select_where-IsDistinct :
    (p : Coin → Bool) (coins : List Coin) → IsDistinct coins → IsDistinct (select_where p coins)
unfolding select_where
select_where-IsDistinct p [] h = tt
select_where-IsDistinct p (coin ∷ coins) h = elim (Bool-cases (p coin)) [
  | inl hit ↦ rw hit (
    All-select (λ other. (other.id == coin.id) ≡ false) p coins h.0,
    select_where-IsDistinct p coins h.1,
  )
  | inr miss ↦ rw miss (select_where-IsDistinct p coins h.1)
]

-- An account without balances has none in any list of coins.
pub HasNone-no_rows :
    (account_id : ℕ) (coins : List Coin) (w : WalletDb)
    → count_where (λ row. row.account_id == account_id) w.cb_available ≡ 0
    → HasNone account_id coins w
HasNone-no_rows account_id [] w h = tt
HasNone-no_rows account_id (coin ∷ coins) w h = (
  count_where_implied (λ row. row.account_id == account_id) (has_key account_id coin.id 1)
      w.cb_available (λ row key. ground (arith, key)) h,
  HasNone-no_rows account_id coins w h,
)

module _ (prisma : Prisma) (call : SaveCall) (account_id : ℕ) where
  abbrev pub opened_one : Coin → WalletDb → WalletDb
  opened_one coin w = record w {
    cb_available = w.cb_available ++ new_balance prisma call account_id coin.id w ∷ [];
  }

  -- The tables with a balance of each of the coins.
  abbrev pub opened : List Coin → WalletDb → WalletDb
  opened [] w = w
  opened (coin ∷ coins) w = opened coins (opened_one coin w)

  HasNone-opened_one :
      (coin : Coin) (coins : List Coin) (w : WalletDb)
      → All (λ other. (other.id == coin.id) ≡ false) coins
      → HasNone account_id coins w
      → HasNone account_id coins (opened_one coin w)
  HasNone-opened_one coin [] w differ h = tt
  HasNone-opened_one coin (other ∷ coins) w differ h =
      let counted =
        count_where-append (has_key account_id other.id 1)
          (new_balance prisma call account_id coin.id w) w.cb_available in
      (ground (arith, counted, h.0, differ.0), HasNone-opened_one coin coins w differ.1 h.1)

  pub create_balances_lem :
      (coins : List Coin) (w : WalletDb)
      → IsDistinct coins
      → HasNone account_id coins w
      → create_balances prisma call account_id coins w ≡ (ok tt, opened coins w)
  unfolding create_balances
  create_balances_lem [] w distinct h = refl
  create_balances_lem (coin ∷ coins) w distinct h = rw (h.0) (
      create_balances_lem coins (opened_one coin w) distinct.1
        (HasNone-opened_one coin coins w distinct.0 h.1))

  -- What is found before is found after.
  opened_keeps :
      (currency_id : ℕ) (row : CbAvailable) (coins : List Coin) (w : WalletDb)
      → find? (has_key account_id currency_id 1) w.cb_available ≡ some row
      → find? (has_key account_id currency_id 1) (opened coins w).cb_available ≡ some row
  opened_keeps currency_id row [] w h = h
  opened_keeps currency_id row (coin ∷ coins) w h =
      opened_keeps currency_id row coins (opened_one coin w) (
        find?-append_new (has_key account_id currency_id 1)
          (new_balance prisma call account_id coin.id w) w.cb_available
        ∙ rw h refl)

  -- Each of the coins has a balance of 0.
  pub opened_row :
      (coin : Coin) (currency_id : ℕ) (coins : List Coin) (w : WalletDb)
      → IsDistinct coins
      → HasNone account_id coins w
      → find? (λ coin. coin.id == currency_id) coins ≡ some coin
      → (row : CbAvailable) × (find?
            (has_key account_id currency_id 1)
            (opened coins w).cb_available
          ≡ some row)
        × (row.amount ≡ pos 0)
  opened_row coin currency_id [] w distinct h found = absurd (ground (arith, found))
  opened_row coin currency_id (c ∷ coins) w distinct h found =
      elim (Bool-cases (c.id == currency_id)) [
        | inl here ↦
            let row = new_balance prisma call account_id c.id w in
            let same = (==_iff c.id currency_id).0 here in
            let none_before =
              find?_of_count_zero (has_key account_id c.id 1) (has_key account_id currency_id 1)
                w.cb_available (λ x key. rw same key) h.0 in
            (
              row,
              opened_keeps currency_id row coins (opened_one c w) (
                  find?-append (has_key account_id currency_id 1) row w.cb_available none_before
                    (ground (arith, here))),
              refl,
            )
        | inr later ↦
            let rest : find? (λ x. x.id == currency_id) coins ≡ some coin =
              ground (arith, found, later) in
            opened_row coin currency_id coins (opened_one c w) distinct.1
              (HasNone-opened_one c coins w distinct.0 h.1) rest
      ]

  pub opened_others :
      (coins : List Coin) (w : WalletDb)
      → ((opened coins w).cb_trans ≡ w.cb_trans) × ((opened coins w).referrals ≡ w.referrals)
  opened_others [] w = (refl, refl)
  opened_others (coin ∷ coins) w = opened_others coins (opened_one coin w)

  -- The database after the operations of saveAccount.
  abbrev pub saved : List Coin → RewardDb → RewardDb
  saved coins s = count_account call.today (record s {
    wallet = opened coins s.wallet;
    wheels = s.wheels ++ record { id = call.daily_lucky_id; account_id = account_id } ∷ [];
    notices = record { account_id = account_id; type = 8 } ∷ s.notices;
  })

  pub bulk_ops_lem :
      (coins : List Coin) (s : RewardDb)
      → (count_where (λ id. id == account_id) s.accounts == 0) ≡ false
      → IsDistinct coins
      → HasNone account_id coins s.wallet
      → bulk_ops prisma call account_id coins s ≡ (ok tt, saved coins s)
  bulk_ops_lem coins s known distinct h =
      rw known (rw (create_balances_lem coins s.wallet distinct h) refl)
