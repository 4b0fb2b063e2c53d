-- ===== src/Wallet/Overlap/NoLostUpdate.antt =====
-- However calls of `updateBalance` overlap, no change of a balance is lost.
use system_chat.Base.{
  ℕ, ◌≡◌, ap, true, false, List, [], ◌∷◌, ◌++◌, ℤ, pos_part, neg_part, ◌+ℤ◌, int_laws, All,
}
use system_chat.Wallet.{CbAvailable, CbHistory, Prisma, WalletDb}
use system_chat.Wallet.Ledger.{flow, IsConsistent, updated-IsKeyed}
use system_chat.Wallet.Overlap.{
  Update, Task, World, task, Step, reads, inserts, changes, Steps, done, step_to,
}
use system_chat.Wallet.Overlap.Owed.{
  LeadsTo, IsOwed, IsSound, LeadsTo-found, All-LeadsTo-changed, IsOwed-changed, IsOwed-inserted,
}

module _ (P : Task → Type 0) where
  All-middle : (t : Task) (before after : List Task) → All P (before ++ t ∷ after) → P t
  All-middle t [] after h = h.0
  All-middle t (x ∷ before) after h = All-middle t before after h.1

  All-replaced :
      (t t' : Task) (before after : List Task)
      → (P t → P t')
      → All P (before ++ t ∷ after)
      → All P (before ++ t' ∷ after)
  All-replaced t t' [] after f h = (f h.0, h.1)
  All-replaced t t' (x ∷ before) after f h = (h.0, All-replaced t t' before after f h.1)

  All-removed :
      (t : Task) (before after : List Task) → All P (before ++ t ∷ after) → All P (before ++ after)
  All-removed t [] after h = h.1
  All-removed t (x ∷ before) after h = (h.0, All-removed t before after h.1)

-- A call that has only read owes nothing.
IsOwed-read :
    (opening : ℕ → ℤ) (entries : List CbHistory) (u : Update) (ca : CbAvailable) (tasks : List Task)
    (xs : List CbAvailable)
    → All (IsOwed opening entries tasks) xs
    → All (IsOwed opening entries (task u ca false ∷ tasks)) xs
IsOwed-read opening entries u ca tasks [] h = tt
IsOwed-read opening entries u ca tasks (x ∷ xs) h = (
  omega (int_laws, ap pos_part h.0, ap neg_part h.0),
  IsOwed-read opening entries u ca tasks xs h.1,
)

module _ (prisma : Prisma) (opening : ℕ → ℤ) where
  Step-IsSound : (w v : World) → Step prisma w v → IsSound opening w → IsSound opening v
  Step-IsSound w v (reads u ca db tasks e) h = record {
    keyed = h.keyed;
    leads = (LeadsTo-found u ca db.cb_available h.keyed e, h.leads);
    owes = IsOwed-read opening db.cb_histories u ca tasks db.cb_available h.owes;
  }
  Step-IsSound w v (inserts u ca db before after) h = record {
    keyed = h.keyed;
    leads =
        All-replaced (LeadsTo db.cb_available) (task u ca false) (task u ca true) before after
          (λ x. x) h.leads;
    owes = IsOwed-inserted opening db.cb_histories u ca before after db.cb_available h.owes;
  }
  Step-IsSound w v (changes u ca db before after) h =
      let rows = db.cb_available in
      let mine = All-middle (LeadsTo rows) (task u ca true) before after h.leads in
      let left = All-removed (LeadsTo rows) (task u ca true) before after h.leads in
      record {
        keyed =
            updated-IsKeyed prisma u.account_id u.currency_id u.version u.amount u.type opening
              db.cb_histories rows h.keyed;
        leads = All-LeadsTo-changed prisma u (before ++ after) rows left;
        owes = IsOwed-changed prisma u opening db.cb_histories ca before after rows mine h.owes;
      }

  Steps-IsSound : (w v : World) → Steps prisma w v → IsSound opening w → IsSound opening v
  Steps-IsSound w v (done x) h = h
  Steps-IsSound w v (step_to x t y step rest) h = Steps-IsSound t v rest (Step-IsSound w t step h)

  explained-IsOwed :
      (entries : List CbHistory) (xs : List CbAvailable)
      → All (λ x. x.amount ≡ opening x.id +ℤ flow x.id entries) xs
      → All (IsOwed opening entries []) xs
  explained-IsOwed entries [] h = tt
  explained-IsOwed entries (x ∷ xs) h =
      (omega (int_laws, ap pos_part h.0, ap neg_part h.0), explained-IsOwed entries xs h.1)

  IsOwed-explained :
      (entries : List CbHistory) (xs : List CbAvailable)
      → All (IsOwed opening entries []) xs
      → All (λ x. x.amount ≡ opening x.id +ℤ flow x.id entries) xs
  IsOwed-explained entries [] h = tt
  IsOwed-explained entries (x ∷ xs) h =
      (omega (int_laws, ap pos_part h.0, ap neg_part h.0), IsOwed-explained entries xs h.1)

  -- However the queries of calls of `updateBalance` interleave, from a state without calls to a
  -- state without calls the ledger stays consistent: no change of a balance is lost or doubled,
  -- though an entry may have an old balance that another call has changed since.
  pub Steps-IsConsistent :
      (db db' : WalletDb)
      → Steps prisma (record { db = db; tasks = [] }) (record { db = db'; tasks = [] })
      → IsConsistent opening db
      → IsConsistent opening db'
  Steps-IsConsistent db db' steps h =
      let sound =
        Steps-IsSound (record { db = db; tasks = [] }) (record { db = db'; tasks = [] }) steps
          (record {
            keyed = h.keyed;
            leads = tt;
            owes = explained-IsOwed db.cb_histories db.cb_available h.explained;
          }) in
      record {
        keyed = sound.keyed;
        explained = IsOwed-explained db'.cb_histories db'.cb_available sound.owes;
      }
