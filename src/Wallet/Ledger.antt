-- ===== src/Wallet/Ledger.antt =====
-- The ledger of apps/wallet/src/wallet.service.ts: the histories account for every balance.
use system_chat.Base.{
  ℕ, ◌==◌, ◌≡◌, ◌≢◌, sym, subst, ◌∙◌, true, false, Bool-cases, inl, inr, some, List, [], ◌∷◌, ◌++◌,
  ℤ, pos, pos_part, neg_part, ap, ◌+ℤ◌, ◌-ℤ◌, int_laws, arith, All, All-find?, find?, update_where,
  if◌then◌else◌,
}
use system_chat.Wallet.{
  CbAvailable, CbHistory, ActionType, decrement, increment, has_key, Prisma, WalletDb, update_data,
  moved,
}

abbrev pub effect : ActionType → ℤ → ℤ
effect increment amount = amount
effect decrement amount = pos 0 -ℤ amount

-- What the history entries add up to for the balance with the given id.
abbrev pub flow : ℕ → List CbHistory → ℤ
flow id [] = pos 0
flow id (entry ∷ entries) =
    (if entry.ca_id == id then effect entry.type entry.amount else pos 0) +ℤ flow id entries

pub flow-append_same :
    (entry : CbHistory) (entries : List CbHistory)
    → flow entry.ca_id (entries ++ entry ∷ [])
      ≡ flow entry.ca_id entries +ℤ effect entry.type entry.amount
flow-append_same entry [] = grind int_laws
flow-append_same entry (x ∷ xs) =
    let ih = flow-append_same entry xs in omega (int_laws, ap pos_part ih, ap neg_part ih)

pub flow-append_other :
    (id : ℕ) (entry : CbHistory) (entries : List CbHistory)
    → entry.ca_id ≢ id
    → flow id (entries ++ entry ∷ []) ≡ flow id entries
flow-append_other id entry [] h = grind int_laws
flow-append_other id entry (x ∷ xs) h = rw (flow-append_other id entry xs h)

-- A balance is its opening value and the sum of its history.
abbrev pub IsExplained : (ℕ → ℤ) → List CbHistory → CbAvailable → Type 0
IsExplained opening entries row = row.amount ≡ opening row.id +ℤ flow row.id entries

-- Two rows differ in their ids and in their unique keys.
abbrev pub Differ : CbAvailable → CbAvailable → Type 0
Differ x y = (y.id ≢ x.id) × (has_key x.account_id x.currency_id x.version y ≡ false)

abbrev pub IsKeyed : List CbAvailable → Type 0
IsKeyed [] = Unit
IsKeyed (x ∷ xs) = All (Differ x) xs × IsKeyed xs

-- The keys are unique, and the history explains every balance.
pub record IsConsistent (opening : ℕ → ℤ) (s : WalletDb) : Type 0 where
  pub keyed : IsKeyed s.cb_available
  pub explained : All (IsExplained opening s.cb_histories) s.cb_available

moved-eq :
    (type : ActionType) (balance start sum amount : ℤ)
    → balance ≡ start +ℤ sum
    → moved type balance amount ≡ start +ℤ (sum +ℤ effect type amount)
moved-eq increment balance start sum amount h = rw h (omega int_laws)
moved-eq decrement balance start sum amount h = rw h (omega int_laws)

pub has_key-Differ :
    (account_id currency_id version : ℕ) (x y : CbAvailable)
    → has_key account_id currency_id version x ≡ true
    → has_key x.account_id x.currency_id x.version y ≡ false
    → has_key account_id currency_id version y ≡ false
has_key-Differ account_id currency_id version x y hit other = ground arith

module _ (prisma : Prisma) (account_id currency_id version : ℕ) (amount : ℤ) (type : ActionType)
    (opening : ℕ → ℤ) (entries : List CbHistory) where
  abbrev updated : List CbAvailable → List CbAvailable
  updated = update_where (has_key account_id currency_id version) (update_data prisma type amount)

  abbrev entry_of : CbAvailable → CbHistory
  entry_of ca = record {
    ca_id = ca.id;
    old_balance = ca.amount;
    amount = amount;
    type = type;
    last_update = ca.updated_at;
  }

  abbrev entry_for : CbAvailable → List CbHistory
  entry_for ca = entries ++ entry_of ca ∷ []

  Differ-updated :
      (x : CbAvailable) (xs : List CbAvailable) → All (Differ x) xs → All (Differ x) (updated xs)
  Differ-updated x [] h = tt
  Differ-updated x (y ∷ ys) h = (ground arith, Differ-updated x ys h.1)

  pub updated-IsKeyed : (xs : List CbAvailable) → IsKeyed xs → IsKeyed (updated xs)
  updated-IsKeyed [] h = tt
  updated-IsKeyed (x ∷ xs) h = elim (Bool-cases (has_key account_id currency_id version x)) [
    | inl hit ↦ rw hit (Differ-updated x xs h.0, updated-IsKeyed xs h.1)
    | inr miss ↦ rw miss (Differ-updated x xs h.0, updated-IsKeyed xs h.1)
  ]

  -- Rows other than the changed one keep their balance and their history.
  IsExplained-others :
      (ca : CbAvailable) (xs : List CbAvailable)
      → has_key account_id currency_id version ca ≡ true
      → All (Differ ca) xs
      → All (IsExplained opening entries) xs
      → All (IsExplained opening (entry_for ca)) (updated xs)
  IsExplained-others ca [] key d h = tt
  IsExplained-others ca (x ∷ xs) key d h =
      let miss : has_key account_id currency_id version x ≡ false =
        has_key-Differ account_id currency_id version ca x key d.0.1 in
      rw miss (
        rw (flow-append_other x.id (entry_of ca) entries (λ e. d.0.0 (sym e))) h.0,
        IsExplained-others ca xs key d.1 h.1,
      )

  updated-IsExplained :
      (ca : CbAvailable) (xs : List CbAvailable)
      → find? (has_key account_id currency_id version) xs ≡ some ca
      → IsKeyed xs
      → All (IsExplained opening entries) xs
      → All (IsExplained opening (entry_for ca)) (updated xs)
  updated-IsExplained ca [] e k h = tt
  updated-IsExplained ca (x ∷ xs) e k h =
      elim (Bool-cases (has_key account_id currency_id version x)) [
        | inl hit ↦
            let same : x ≡ ca = ground arith in
            subst (λ c. All (IsExplained opening (entry_for c)) (updated (x ∷ xs))) same
              (rw hit (
                moved-eq type x.amount (opening x.id) (flow x.id entries) amount h.0
                    ∙ ap (λ f. opening x.id +ℤ f) (sym (flow-append_same (entry_of x) entries)),
                IsExplained-others x xs hit k.0 h.1,
              ))
        | inr miss ↦
            let found : find? (has_key account_id currency_id version) xs ≡ some ca =
              ground arith in
            rw miss (
              rw
                  (flow-append_other x.id (entry_of ca) entries
                    (λ e. (All-find? (Differ x) _ ca xs k.0 found).0 e))
                  h.0,
              updated-IsExplained ca xs found k.1 h.1,
            )
      ]

  -- The write of `updateBalance`, whose entry goes to the history, keeps the ledger consistent.
  pub IsConsistent-updated :
      (s : WalletDb) (ca : CbAvailable)
      → find? (has_key account_id currency_id version) s.cb_available ≡ some ca
      → entries ≡ s.cb_histories
      → IsConsistent opening s
      → IsConsistent opening
          (record s { cb_available = updated s.cb_available; cb_histories = entry_for ca })
  IsConsistent-updated s ca e same h = record {
    keyed = updated-IsKeyed s.cb_available h.keyed;
    explained = updated-IsExplained ca s.cb_available e h.keyed (rw same h.explained);
  }
