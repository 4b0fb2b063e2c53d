-- ===== src/Accounts/Rows/Updates.antt =====
-- The update of a found account that the unique columns accept.
use system_chat.Base.{◌≡◌, Bool, false, some, ok, arith, find?, update_where}
use system_chat.Accounts.Rows.{Account, AuthState, taken, update_account}

module _ {C : Type 0} where
  pub update_account_done :
      (p : Account → Bool) (f : Account → Account) (a : Account) (s : AuthState C)
      → find? p s.rows ≡ some a
      → taken (f a) s.rows ≡ false
      → update_account p f s ≡ (ok (f a), record s { rows = update_where p f s.rows })
  update_account_done p f a s found own = ground (arith, found, own)
