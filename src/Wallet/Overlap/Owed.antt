-- ===== src/Wallet/Overlap/Owed.antt =====
-- What calls between their queries owe to the balances.
use system_chat.Base.{
  ℕ, ◌≡◌, ◌≢◌, refl, ap, subst, ◌==◌, ◌&&◌, Bool-cases, inl, inr, true, false, some, List, [], ◌∷◌,
  ◌++◌, ℤ, pos, pos_part, neg_part, ◌+ℤ◌, int_laws, arith, All, All-find?, find?, if◌then◌else◌,
}
use system_chat.Wallet.{CbAvailable, CbHistory, ActionType, increment, decrement, Prisma, moved}
use system_chat.Wallet.Ledger.{
  effect, flow, flow-append_same, flow-append_other, has_key-Differ, Differ, IsKeyed,
}
use system_chat.Wallet.Overlap.{Update, Task, World, key_of, task, entry, changed}

-- What a call owes to the balance with an id: its entry is inserted, and the balance not changed.
abbrev pub owed_by : ℕ → Task → ℤ
owed_by id t =
    if t.inserted && t.found.id == id then effect t.update.type t.update.amount else pos 0

abbrev pub owed : ℕ → List Task → ℤ
owed id [] = pos 0
owed id (t ∷ tasks) = owed_by id t +ℤ owed id tasks

owed-append :
    (id : ℕ) (t : Task) (before after : List Task)
    → owed id (before ++ t ∷ after) ≡ owed_by id t +ℤ owed id (before ++ after)
owed-append id t [] after = refl
owed-append id t (x ∷ before) after =
    let ih = owed-append id t before after in omega (int_laws, ap pos_part ih, ap neg_part ih)

-- The key of a call leads to the row that it has read.
abbrev pub LeadsTo : List CbAvailable → Task → Type 0
LeadsTo rows t = All (λ x. key_of t.update x ≡ (x.id == t.found.id)) rows

-- A balance and what is owed to it are its opening value and its history.
abbrev pub IsOwed : (ℕ → ℤ) → List CbHistory → List Task → CbAvailable → Type 0
IsOwed opening entries tasks x = x.amount +ℤ owed x.id tasks ≡ opening x.id +ℤ flow x.id entries

pub record IsSound (opening : ℕ → ℤ) (w : World) : Type 0 where
  pub keyed : IsKeyed w.db.cb_available
  pub leads : All (LeadsTo w.db.cb_available) w.tasks
  pub owes : All (IsOwed opening w.db.cb_histories w.tasks) w.db.cb_available

LeadsTo-others :
    (u : Update) (x : CbAvailable) (xs : List CbAvailable)
    → key_of u x ≡ true
    → All (Differ x) xs
    → All (λ y. key_of u y ≡ (y.id == x.id)) xs
LeadsTo-others u x [] hit d = tt
LeadsTo-others u x (y ∷ xs) hit d =
    let miss = has_key-Differ u.account_id u.currency_id u.version x y hit d.0.1 in
    let ids : y.id ≢ x.id = d.0.0 in (ground (arith, miss, ids), LeadsTo-others u x xs hit d.1)

pub LeadsTo-found :
    (u : Update) (ca : CbAvailable) (xs : List CbAvailable)
    → IsKeyed xs
    → find? (key_of u) xs ≡ some ca
    → All (λ y. key_of u y ≡ (y.id == ca.id)) xs
LeadsTo-found u ca [] k e = tt
LeadsTo-found u ca (x ∷ xs) k e = elim (Bool-cases (key_of u x)) [
  | inl hit ↦
      let same : x ≡ ca = ground (arith, e, hit) in
      subst (λ c. All (λ y. key_of u y ≡ (y.id == c.id)) (x ∷ xs)) same
        (ground (arith, hit), LeadsTo-others u x xs hit k.0)
  | inr miss ↦
      let found : find? (key_of u) xs ≡ some ca = ground (arith, e, miss) in
      let ids : ca.id ≢ x.id = (All-find? (Differ x) (key_of u) ca xs k.0 found).0 in
      (ground (arith, miss, ids), LeadsTo-found u ca xs k.1 found)
]

moved-effect :
    (type : ActionType) (balance amount : ℤ)
    → moved type balance amount ≡ balance +ℤ effect type amount
moved-effect increment balance amount = refl
moved-effect decrement balance amount = omega int_laws

module _ (prisma : Prisma) (u : Update) where
  LeadsTo-changed :
      (t : Task) (xs : List CbAvailable) → LeadsTo xs t → LeadsTo (changed prisma u xs) t
  LeadsTo-changed t [] h = tt
  LeadsTo-changed t (x ∷ xs) h = elim (Bool-cases (key_of u x)) [
    | inl hit ↦ rw hit (h.0, LeadsTo-changed t xs h.1)
    | inr miss ↦ rw miss (h.0, LeadsTo-changed t xs h.1)
  ]

  pub All-LeadsTo-changed :
      (ts : List Task) (xs : List CbAvailable)
      → All (LeadsTo xs) ts
      → All (LeadsTo (changed prisma u xs)) ts
  All-LeadsTo-changed [] xs h = tt
  All-LeadsTo-changed (t ∷ ts) xs h = (LeadsTo-changed t xs h.0, All-LeadsTo-changed ts xs h.1)

  -- The change pays what the call owes.
  pub IsOwed-changed :
      (opening : ℕ → ℤ) (entries : List CbHistory) (ca : CbAvailable) (before after : List Task)
      (xs : List CbAvailable)
      → All (λ y. key_of u y ≡ (y.id == ca.id)) xs
      → All (IsOwed opening entries (before ++ task u ca true ∷ after)) xs
      → All (IsOwed opening entries (before ++ after)) (changed prisma u xs)
  IsOwed-changed opening entries ca before after [] leads h = tt
  IsOwed-changed opening entries ca before after (x ∷ xs) leads h =
      let rest = IsOwed-changed opening entries ca before after xs leads.1 h.1 in
      let split = owed-append x.id (task u ca true) before after in
      elim (Bool-cases (key_of u x)) [
        | inl hit ↦
            let same : (ca.id == x.id) ≡ true = ground (arith, leads.0, hit) in
            let owes : owed_by x.id (task u ca true) ≡ effect u.type u.amount = rw same refl in
            rw hit (
              rw (moved-effect u.type x.amount u.amount) (
                  omega (
                    int_laws,
                    ap pos_part split,
                    ap neg_part split,
                    ap pos_part owes,
                    ap neg_part owes,
                    ap pos_part h.0,
                    ap neg_part h.0,
                  )),
              rest,
            )
        | inr miss ↦
            let other : (ca.id == x.id) ≡ false = ground (arith, leads.0, miss) in
            let owes : owed_by x.id (task u ca true) ≡ pos 0 = rw other refl in
            rw miss (
              omega (
                int_laws,
                ap pos_part split,
                ap neg_part split,
                ap pos_part owes,
                ap neg_part owes,
                ap pos_part h.0,
                ap neg_part h.0,
              ),
              rest,
            )
      ]

-- An entry adds to the flow of its balance what the call then owes to it.
pub IsOwed-inserted :
    (opening : ℕ → ℤ) (entries : List CbHistory) (u : Update) (ca : CbAvailable)
    (before after : List Task) (xs : List CbAvailable)
    → All (IsOwed opening entries (before ++ task u ca false ∷ after)) xs
    → All (IsOwed opening (entries ++ entry u ca ∷ []) (before ++ task u ca true ∷ after)) xs
IsOwed-inserted opening entries u ca before after [] h = tt
IsOwed-inserted opening entries u ca before after (x ∷ xs) h =
    let rest = IsOwed-inserted opening entries u ca before after xs h.1 in
    let owed_now = owed-append x.id (task u ca true) before after in
    let owed_then : owed x.id (before ++ task u ca false ∷ after)
        ≡ pos 0 +ℤ owed x.id (before ++ after) =
      owed-append x.id (task u ca false) before after in
    elim (Bool-cases (ca.id == x.id)) [
      | inl same ↦
          let owes : owed_by x.id (task u ca true) ≡ effect u.type u.amount = rw same refl in
          let ids : ca.id ≡ x.id = ground (arith, same) in
          let more : flow x.id (entries ++ entry u ca ∷ [])
              ≡ flow x.id entries +ℤ effect u.type u.amount =
            subst
              (λ i. flow i (entries ++ entry u ca ∷ []) ≡ flow i entries +ℤ effect u.type u.amount)
              ids (flow-append_same (entry u ca) entries) in
          (
            omega (
              int_laws,
              ap pos_part owed_now,
              ap neg_part owed_now,
              ap pos_part owed_then,
              ap neg_part owed_then,
              ap pos_part owes,
              ap neg_part owes,
              ap pos_part more,
              ap neg_part more,
              ap pos_part h.0,
              ap neg_part h.0,
            ),
            rest,
          )
      | inr other ↦
          let owes : owed_by x.id (task u ca true) ≡ pos 0 = rw other refl in
          let more : flow x.id (entries ++ entry u ca ∷ []) ≡ flow x.id entries =
            flow-append_other x.id (entry u ca) entries (ground (arith, other)) in
          (
            omega (
              int_laws,
              ap pos_part owed_now,
              ap neg_part owed_now,
              ap pos_part owed_then,
              ap neg_part owed_then,
              ap pos_part owes,
              ap neg_part owes,
              ap pos_part more,
              ap neg_part more,
              ap pos_part h.0,
              ap neg_part h.0,
            ),
            rest,
          )
    ]
