-- ===== src/Wallet/Overlap.antt =====
-- Overlapping calls of `updateBalance` of apps/wallet/src/wallet.service.ts. The call awaits three
-- queries: it reads the balance, inserts the history entry, and changes the balance; other calls
-- run in between. A step relation has one constructor for each query that succeeds.
pub mod Owed
pub mod NoLostUpdate
mod Tests
use system_chat.Base.{
  ℕ, ◌≡◌, ◌==◌, ◌&&◌, Bool, true, false, some, List, [], ◌∷◌, ◌++◌, ℤ, pos, ◌+ℤ◌, find?,
  update_where, if◌then◌else◌,
}
use system_chat.Wallet.{CbAvailable, CbHistory, ActionType, has_key, Prisma, WalletDb, update_data}
use system_chat.Wallet.Ledger.{effect}

-- The arguments of a call.
pub record Update : Type 0 where
  pub amount : ℤ
  pub account_id : ℕ
  pub currency_id : ℕ
  pub version : ℕ
  pub type : ActionType

-- A call between its queries: what it has read, and whether its entry is inserted.
pub record Task : Type 0 where
  pub update : Update
  pub found : CbAvailable
  pub inserted : Bool

pub record World : Type 0 where
  pub db : WalletDb
  pub tasks : List Task

abbrev pub key_of : Update → CbAvailable → Bool
key_of u = has_key u.account_id u.currency_id u.version

abbrev pub task : Update → CbAvailable → Bool → Task
task u ca inserted = record { update = u; found = ca; inserted = inserted }

-- The entry has the balance that the call has read, which may have changed since.
abbrev pub entry : Update → CbAvailable → CbHistory
entry u ca = record {
  ca_id = ca.id;
  old_balance = ca.amount;
  amount = u.amount;
  type = u.type;
  last_update = ca.updated_at;
}

module _ (prisma : Prisma) where
  abbrev pub changed : Update → List CbAvailable → List CbAvailable
  changed u rows = update_where (key_of u) (update_data prisma u.type u.amount) rows

  pub data Step : World → World → Type 0 where
    reads :
        (u : Update) (ca : CbAvailable) (db : WalletDb) (tasks : List Task)
        → find? (key_of u) db.cb_available ≡ some ca
        → Step
            (record { db = db; tasks = tasks })
            (record { db = db; tasks = task u ca false ∷ tasks })
    inserts :
        (u : Update) (ca : CbAvailable) (db : WalletDb) (before after : List Task)
        → Step
            (record { db = db; tasks = before ++ task u ca false ∷ after })
            (record {
              db = record db { cb_histories = db.cb_histories ++ entry u ca ∷ [] };
              tasks = before ++ task u ca true ∷ after;
            })
    changes :
        (u : Update) (ca : CbAvailable) (db : WalletDb) (before after : List Task)
        → Step
            (record { db = db; tasks = before ++ task u ca true ∷ after })
            (record {
              db = record db { cb_available = changed u db.cb_available };
              tasks = before ++ after;
            })

  pub data Steps : World → World → Type 0 where
    done : (w : World) → Steps w w
    step_to : (w v t : World) → Step w v → Steps v t → Steps w t
