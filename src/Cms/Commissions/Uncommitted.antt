-- ===== src/Cms/Commissions/Uncommitted.antt =====
-- An approval whose transaction has not been committed, or fails.
use system_chat.Base.{ℕ, ◌≡◌, Result, ok}
use system_chat.Cms.Commissions.{CommissionError, PayCommission}

module _ {W : Type 0} (send : PayCommission → W → Result CommissionError (Unit {0}) × W)
    (to_satoshi : ℕ → ℕ) where
  -- The wallet takes whatever it is told to pay.
  abbrev pub Accepts : Type 0
  Accepts = (p : PayCommission) (w : W) → (send p w).0 ≡ ok tt
