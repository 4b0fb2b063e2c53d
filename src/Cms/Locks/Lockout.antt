-- ===== src/Cms/Locks/Lockout.antt =====
-- What a lock by updateAccount leaves of the account's sessions in the gateway.
use system_chat.Base.{
  ℕ, ◌≡◌, refl, sym, ap, ◌∙◌, true, false, Option, some, none, inl, inr, ok, arith, Option-cases,
  Bool-cases, find?, find?_sound, find?-update_where, update_where, is_ok, contradiction, subst,
  not, ◌&&◌, pure, ◌>>=◌, ◌>>◌,
}
use system_chat.Caching.{get_as, get_as-delete}
use system_chat.Accounts.Rows.{
  is, check_null, update_account, Call, taken, is_some, Account, AuthState, Env, same, with_id,
}
use system_chat.Sessions.{
  Gateway, Clock, invalid_credentials, TokenPayload, authenticate, refresh_token,
}
use system_chat.Sessions.Login.{admits_user, admits-authenticate}
use system_chat.Sessions.Refresh.{refresh_token_refused}
use system_chat.Cms.Locks.{
  is_lock, AccountRequest, office_entry, office_row, by_id_or_phone, drop_tokens, update_by_office,
}

module _ {V : Type 0} (env : Env V) (gateway : Gateway env) where
  -- The account that the test of the phone lets through is the one that is asked for.
  found_by_id :
      (id : ℕ) (phone : Option ℕ) (a : Account) (s : AuthState env.redis.Store)
      → env.empty_condition ≡ false
      → find? (by_id_or_phone env id phone) s.rows ≡ some a
      → same phone a.phone ≡ false
      → a.id ≡ id
  found_by_id id none a s empty found other =
      ground (arith, empty, find?_sound (by_id_or_phone env id none) a s.rows found)
  found_by_id id (some n) a s empty found other =
      ground (arith, other, find?_sound (by_id_or_phone env id (some n)) a s.rows found)

  -- The tests that a lock passes, with the account it finds and its row.
  record IsLocking (at id user_id : ℕ) (input : AccountRequest) (s : AuthState env.redis.Store)
      : Type 0 where
    found : Account
    row : Account
    is_found : find? (by_id_or_phone env id input.phone) s.rows ≡ some found
    is_row : find? (with_id id) s.rows ≡ some row
    is_other : same input.phone found.phone ≡ false
    leaves : (update_by_office env gateway at id user_id input s).1 ≡ record s {
      rows =
          update_where
            (with_id id)
            (office_row (office_entry at input.reason user_id) input found)
            s.rows;
      cache = drop_tokens env gateway found.id s.cache;
    }

  -- What follows the deletions.
  abbrev lock_row : ℕ → ℕ → ℕ → AccountRequest → Account → Call env (Unit {0})
  lock_row at id user_id input a =
      check_null env a.histories
      >> update_account (with_id id) (office_row (office_entry at input.reason user_id) input a)
      >>= λ _. pure tt

  abbrev unlocked : Account → AuthState env.redis.Store → AuthState env.redis.Store
  unlocked a s = record s { cache = drop_tokens env gateway a.id s.cache }

  lock_reaches :
      (at id user_id : ℕ) (input : AccountRequest) (a : Account) (s : AuthState env.redis.Store)
      → input.status ≡ some 0
      → find? (by_id_or_phone env id input.phone) s.rows ≡ some a
      → is input.status a.status ≡ false
      → same input.phone a.phone ≡ false
      → update_by_office env gateway at id user_id input s
        ≡ lock_row at id user_id input a (unlocked a s)
  unfolding update_by_office
  lock_reaches at id user_id input a s lock found new other =
      let locks : is_lock input.status ≡ true = rw lock refl in rw (found, new, other, locks) refl

  lock_row_done :
      (at id user_id : ℕ) (input : AccountRequest) (a : Account) (s : AuthState env.redis.Store)
      → is_ok (lock_row at id user_id input a s).0 ≡ true
      → (row : Account) × (find? (with_id id) s.rows ≡ some row)
        × ((lock_row at id user_id input a s).1 ≡ record s {
          rows =
              update_where
                (with_id id)
                (office_row (office_entry at input.reason user_id) input a)
                s.rows;
        })
  lock_row_done at id user_id input a s done =
      let f = office_row (office_entry at input.reason user_id) input a in
      elim (Bool-cases (not (is_some a.histories) && not env.takes_null)) [
        | inl null ↦ contradiction _ done (rw null refl)
        | inr written ↦ elim (Option-cases (find? (with_id id) s.rows)) [
          | inl missing ↦ contradiction _ done (rw (written, missing) refl)
          | inr (row, found) ↦ elim (Bool-cases (taken (f row) s.rows)) [
            | inl clash ↦ contradiction _ done (rw (written, found, clash) refl)
            | inr own ↦ (row, found, rw (written, found, own) refl)
          ]
        ]
      ]

  lock_passes :
      (at id user_id : ℕ) (input : AccountRequest) (s : AuthState env.redis.Store)
      → input.status ≡ some 0
      → is_ok (update_by_office env gateway at id user_id input s).0 ≡ true
      → IsLocking at id user_id input s
  unfolding update_by_office
  lock_passes at id user_id input s lock done =
      elim (Option-cases (find? (by_id_or_phone env id input.phone) s.rows)) [
        | inl missing ↦ contradiction _ done (rw missing refl)
        | inr (a, found) ↦ elim (Bool-cases (is input.status a.status)) [
          | inl same_status ↦ contradiction _ done (rw (found, same_status) refl)
          | inr new ↦ elim (Bool-cases (same input.phone a.phone)) [
            | inl same_phone ↦ contradiction _ done (rw (found, new, same_phone) refl)
            | inr other ↦
                let reaches = lock_reaches at id user_id input a s lock found new other in
                let (row, found', leaves) =
                  lock_row_done at id user_id input a (unlocked a s)
                    (subst (λ r. is_ok r.0 ≡ true) reaches done) in
                record {
                  found = a;
                  row = row;
                  is_found = found;
                  is_row = found';
                  is_other = other;
                  leaves = ap (λ r. r.1) reaches ∙ leaves;
                }
          ]
        ]
      ]

  access_dropped :
      (id t : ℕ) (cache : env.redis.Store)
      → get_as env.redis gateway.tokens t (env.session_key id) (drop_tokens env gateway id cache)
        ≡ none
  access_dropped id t cache =
      get_as-delete env.redis gateway.tokens _ (gateway.refresh_key id) t (env.session_key id)
      ∙ ground (
        arith,
        gateway.session-ne-refresh id id,
        get_as-delete env.redis gateway.tokens cache (env.session_key id) t (env.session_key id),
      )

  refresh_dropped :
      (id t : ℕ) (cache : env.redis.Store)
      → get_as env.redis gateway.tokens t
          (gateway.refresh_key id)
          (drop_tokens env gateway id cache)
        ≡ none
  refresh_dropped id t cache =
      get_as-delete env.redis gateway.tokens _ (gateway.refresh_key id) t (gateway.refresh_key id)
      ∙ ground arith

  -- Where updateAccount locks an account, the account's row is inactive, and from then on the
  -- gateway takes none of its tokens, neither for access nor for new tokens.
  pub update_by_office-lock :
      (at id user_id : ℕ) (input : AccountRequest) (c : Clock) (token fresh : gateway.Token)
      (p q : TokenPayload) (s : AuthState env.redis.Store)
      → env.empty_condition ≡ false
      → input.status ≡ some 0
      → let locked = update_by_office env gateway at id user_id input s in
        is_ok locked.0 ≡ true
        → gateway.verify c.checked token ≡ some p
        → p.id ≡ id
        → gateway.verify_refresh c.checked fresh ≡ some q
        → q.id ≡ id
        → ((a : Account) × (find? (with_id id) locked.1.rows ≡ some a) × (a.status ≡ 0))
          × (admits_user (authenticate env gateway c token locked.1).0 ≡ false)
          × ((refresh_token env gateway c fresh locked.1).0 ≡ ok invalid_credentials)
  update_by_office-lock at id user_id input c token fresh p q s empty lock done verified own
        verified' own' =
      let h = lock_passes at id user_id input s lock done in
      let same_id = found_by_id id input.phone h.found s empty h.is_found h.is_other in
      let f = office_row (office_entry at input.reason user_id) input h.found in
      let s1 : AuthState env.redis.Store = record s {
        rows = update_where (with_id id) f s.rows;
        cache = drop_tokens env gateway h.found.id s.cache;
      } in
      let access : get_as env.redis gateway.tokens c.checked (env.session_key p.id) s1.cache
          ≡ none =
        rw (own ∙ sym same_id) (access_dropped h.found.id c.checked s.cache) in
      let refresh : get_as env.redis gateway.tokens c.checked (gateway.refresh_key q.id) s1.cache
          ≡ none =
        rw (own' ∙ sym same_id) (refresh_dropped h.found.id c.checked s.cache) in
      rw h.leaves (
        (
          f h.row,
          find?-update_where (with_id id) f h.row s.rows (λ x e. e) h.is_row,
          ground (arith, lock),
        ),
        admits-authenticate env gateway c token p s1 verified ∙ rw access refl,
        ap (λ x. x.0) (refresh_token_refused env gateway c fresh q s1 verified' (rw refresh refl)),
      )
