-- ===== src/Cms/Kyc/Payout.antt =====
-- processCashbackForAccount with the wallet service of the repository, which has no handler of the
-- message APPROVE_KYC: the broker's answer is that nobody handles it, and the call throws.
use system_chat.Base.{
  ℕ, ◌==◌, ◌≡◌, refl, ◌&&◌, List, [], ◌∷◌, inl, inr, err, is_ok, arith, Bool-cases, count_where,
  select_where, count_where-select_where,
}
use system_chat.Cms.Kyc.{
  KycAccount, PendingTx, KycDb, KycCall, ApproveKyc, wallet_refused, is_pending_of, is_released,
  release_all, process_cashback,
}

abbrev pub unheard : ApproveKyc → KycCall (Unit {0})
unheard payload s = (err (wallet_refused payload.tx_id), s)

release_all-unheard :
    (id : ℕ) (accounts : List KycAccount) (ts : List PendingTx) (s : KycDb)
    → ((release_all unheard id accounts ts s).1 ≡ s)
      × (is_ok (release_all unheard id accounts ts s).0
          ≡ (count_where (is_released id accounts) ts == 0))
release_all-unheard id accounts [] s = (refl, refl)
release_all-unheard id accounts (t ∷ ts) s = elim (Bool-cases (is_released id accounts t)) [
  | inl released ↦ rw released (refl, ground arith)
  | inr kept ↦
      let (same, outcome) = release_all-unheard id accounts ts s in
      rw kept (same, ground (arith, outcome))
]

-- While no service handles APPROVE_KYC, the payout of an account pays nothing and writes nothing:
-- every transaction stays pending. It throws exactly where one was to be released.
pub process_cashback-unheard :
    (id : ℕ) (s : KycDb)
    → ((process_cashback unheard id s).1 ≡ s)
      × (is_ok (process_cashback unheard id s).0
          ≡ (count_where (λ t. is_pending_of id t && is_released id s.accounts t) s.txs == 0))
unfolding process_cashback
process_cashback-unheard id s =
    let (same, outcome) =
      release_all-unheard id s.accounts (select_where (is_pending_of id) s.txs) s in
    (
      same,
      rw⁻¹ (count_where-select_where (is_released id s.accounts) (is_pending_of id) s.txs) outcome,
    )
