-- ===== src/Campaigns/Check/Holds.antt =====
-- What a transaction on hold in an answer does to the rest of the job.
use system_chat.Base.{
  ℕ, suc, ◌≡◌, ◌≢◌, ◌∙◌, Option, ◌==◌, refl, Bool, true, false, some, List, [], ◌∷◌, ◌++◌, arith,
  if◌then◌else◌, Result, ok, err, after, pure,
}
use system_chat.Campaigns.{AccessTrade, CampaignTx, JobDb, JobEnv, JobError, JobAction, trade_hold}
use system_chat.Campaigns.Check.{check_transaction, check_transactions, check_blocks, waiting_block}

module _ (env : JobEnv) (rate_value : ℕ) (pending : List CampaignTx) where
  -- The rest of a loop whose body has ended.
  abbrev rest_of : Result JobError Bool → List AccessTrade → JobDb → JobDb
  rest_of r trans s =
      (after r
        (λ returned.
          if returned then pure true else check_transactions env rate_value pending trans)
        s).1

  rest_of_hold :
      (r : Result JobError Bool) (before others : List AccessTrade) (s : JobDb)
      → ((t : JobDb)
          → (check_transactions env rate_value pending others t).1
            ≡ (check_transactions env rate_value pending before t).1)
      → rest_of r others s ≡ rest_of r before s
  rest_of_hold (ok true) before others s same = refl
  rest_of_hold (ok false) before others s same = same s
  rest_of_hold (err e) before others s same = refl

  -- The transactions after one on hold are not looked at.
  check_transactions_hold :
      (before behind : List AccessTrade) (held : AccessTrade) (s : JobDb)
      → held.status ≡ trade_hold
      → (check_transactions env rate_value pending (before ++ held ∷ behind) s).1
        ≡ (check_transactions env rate_value pending before s).1
  unfolding check_transactions check_transaction
  check_transactions_hold [] behind held s hold =
      let hit : (held.status == trade_hold) ≡ true = ground arith in rw hit refl
  check_transactions_hold (tran ∷ before) behind held s hold =
      rest_of_hold (check_transaction env rate_value pending tran s).0 before
        (before ++ held ∷ behind) (check_transaction env rate_value pending tran s).1
        (λ t. check_transactions_hold before behind held t hold)

  hold_after :
      (r : Result JobError Bool) (others : List AccessTrade) (s : JobDb)
      → ((t : JobDb) → (check_transactions env rate_value pending others t).0 ≢ ok false)
      → (after r
          (λ returned.
            if returned then pure true else check_transactions env rate_value pending others)
          s).0
        ≢ ok false
  hold_after (ok true) others s ends = ground arith
  hold_after (ok false) others s ends = ends s
  hold_after (err e) others s ends = ground arith

  -- The loop over an answer with a transaction on hold returns, or throws.
  check_transactions_returns :
      (before behind : List AccessTrade) (held : AccessTrade) (s : JobDb)
      → held.status ≡ trade_hold
      → (check_transactions env rate_value pending (before ++ held ∷ behind) s).0 ≢ ok false
  unfolding check_transactions check_transaction
  check_transactions_returns [] behind held s hold =
      let hit : (held.status == trade_hold) ≡ true = ground arith in rw hit (ground arith)
  check_transactions_returns (tran ∷ before) behind held s hold =
      hold_after (check_transaction env rate_value pending tran s).0 (before ++ held ∷ behind)
        (check_transaction env rate_value pending tran s).1
        (λ t. check_transactions_returns before behind held t hold)

module _ (env : JobEnv) (rate_value : ℕ) where
  stops :
      (r : Result JobError Bool) (k : JobAction Bool) (s : JobDb)
      → r ≢ ok false
      → (after r (λ returned. if returned then pure true else k) s).1 ≡ s
  stops (ok true) k s ends = refl
  stops (ok false) k s ends = absurd (ends refl)
  stops (err e) k s ends = refl

  -- A transaction on hold in the answer to a block ends the job there: what is left is what the
  -- transactions before it leave, and neither those after it nor the blocks that follow are looked
  -- at. The block has rows.
  pub check_blocks_hold :
      (n index : ℕ) (answers : ℕ → Option (List AccessTrade)) (before behind : List AccessTrade)
      (held : AccessTrade) (row : CampaignTx) (rows : List CampaignTx) (s : JobDb)
      → waiting_block index s ≡ row ∷ rows
      → answers index ≡ some (before ++ held ∷ behind)
      → held.status ≡ trade_hold
      → (check_blocks env rate_value (suc n) index answers s).1
        ≡ (check_transactions env rate_value (row ∷ rows) before s).1
  unfolding check_blocks
  check_blocks_hold n index answers before behind held row rows s waiting answered hold =
      let all = before ++ held ∷ behind in
      let run = check_transactions env rate_value (row ∷ rows) all s in
      rw (waiting, answered)
        (stops run.0 (check_blocks env rate_value n (suc index) answers) run.1
            (check_transactions_returns env rate_value (row ∷ rows) before behind held s hold)
          ∙ check_transactions_hold env rate_value (row ∷ rows) before behind held s hold)
