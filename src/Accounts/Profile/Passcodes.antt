-- ===== src/Accounts/Profile/Passcodes.antt =====
-- Passcodes: verifyPasscode and editAccount; and the histories of the account's changes.
use system_chat.Base.{
  ℕ, ◌≡◌, ◌||◌, refl, ap, ◌∙◌, true, false, some, none, [], ok, err, arith, find?, update_where,
  find?-update_where,
}
use system_chat.Caching.{delete}
use system_chat.Accounts.Rows.{
  Account, AuthState, Env, is_some, with_id, taken, current_passcode_invalid,
}
use system_chat.Accounts.Profile.{
  UserProfile, listed, confirm_phone_row, edit_passcode_row, confirm_phone, verify_passcode,
  edit_passcode, edit_account,
}

module _ {V : Type 0} (env : Env V) where
  -- A request of editAccount for a new passcode that knows the current one.
  pub record IsAllowed (at salt passcode current hash id : ℕ) (input : UserProfile) (a : Account)
      (s : AuthState env.redis.Store) : Type 0 where
    pub found_row : find? (with_id id) s.rows ≡ some a
    pub has_passcode : a.passcode ≡ some hash
    pub asks : input.passcode ≡ some passcode
    pub gives : input.current_passcode ≡ some current
    pub knows : env.compare_hash current hash ≡ true
    pub has_no_coin : input.coin_id ≡ none
    pub is_own :
        taken
          (edit_passcode_row at (env.hash_value salt passcode) input (listed a.histories) a)
          s.rows
        ≡ false

  pub edit_passcode_done :
      (at salt passcode current hash id : ℕ) (input : UserProfile) (a : Account)
      (s : AuthState env.redis.Store)
      → IsAllowed at salt passcode current hash id input a s
      → edit_account env at salt input id s ≡ (
        ok (edit_passcode_row at (env.hash_value salt passcode) input (listed a.histories) a),
        record s {
          rows =
              update_where
                (with_id id)
                (edit_passcode_row at (env.hash_value salt passcode) input (listed a.histories))
                s.rows;
          cache = delete env.redis (env.session_key id) s.cache;
        },
      )
  unfolding edit_account edit_passcode
  edit_passcode_done at salt passcode current hash id input a s h =
      ground (arith, h.found_row, h.has_passcode, h.asks, h.gives, h.knows, h.has_no_coin, h.is_own)

  pub verify_passcode_found :
      (user_id passcode hash : ℕ) (a : Account) (s : AuthState env.redis.Store)
      → find? (with_id user_id) s.rows ≡ some a
      → a.passcode ≡ some hash
      → env.compare_hash passcode hash ≡ true
      → verify_passcode env user_id passcode s ≡ (ok true, s)
  unfolding verify_passcode
  verify_passcode_found user_id passcode hash a s found p same = ground (arith, found, p, same)

  -- A change of the passcode that the current one allows: the new one is then verified, and
  -- the session of the user is gone from the cache.
  pub verify_passcode-edit_account :
      (at salt passcode current hash id : ℕ) (input : UserProfile) (a : Account)
      (s : AuthState env.redis.Store)
      → IsAllowed at salt passcode current hash id input a s
      → ((verify_passcode env id passcode (edit_account env at salt input id s).1).0 ≡ ok true)
        × ((edit_account env at salt input id s).1.cache
            ≡ delete env.redis (env.session_key id) s.cache)
  verify_passcode-edit_account at salt passcode current hash id input a s h =
      let f = edit_passcode_row at (env.hash_value salt passcode) input (listed a.histories) in
      let done = edit_passcode_done at salt passcode current hash id input a s h in
      let found' = find?-update_where (with_id id) f a s.rows (λ x x_has. x_has) h.found_row in
      rw done (
        ap (λ x. x.0)
            (verify_passcode_found id passcode (env.hash_value salt passcode) (f a) _ found' refl
              (env.compare_hash-hash_value salt passcode)),
        refl,
      )

  -- Without the current passcode, editAccount changes no row, whatever else it is asked to change.
  pub edit_account_refused :
      (at salt passcode current hash id : ℕ) (input : UserProfile) (a : Account)
      (s : AuthState env.redis.Store)
      → find? (with_id id) s.rows ≡ some a
      → a.passcode ≡ some hash
      → input.passcode ≡ some passcode
      → input.current_passcode ≡ some current
      → env.compare_hash current hash ≡ false
      → edit_account env at salt input id s ≡ (err current_passcode_invalid, s)
  unfolding edit_account edit_passcode
  edit_account_refused at salt passcode current hash id input a s found p new old other =
      ground (arith, found, p, new, old, other)

  confirm_phone_done :
      (at id : ℕ) (a : Account) (s : AuthState env.redis.Store)
      → find? (with_id id) s.rows ≡ some a
      → (is_some a.histories || env.takes_null) ≡ true
      → taken a s.rows ≡ false
      → confirm_phone env at id s
        ≡ (ok tt, record s { rows = update_where (with_id id) (confirm_phone_row at) s.rows })
  unfolding confirm_phone
  confirm_phone_done at id a s found is_written own = ground (arith, found, is_written, own)

  -- An account without histories gets none by confirmPhone, where the database takes the update at
  -- all: the entry is pushed to an array that is dropped. A change of the passcode starts the list.
  pub histories_of_null :
      (at at' salt passcode current hash id : ℕ) (input : UserProfile) (a : Account)
      (s : AuthState env.redis.Store)
      → a.histories ≡ none
      → env.takes_null ≡ true
      → taken a s.rows ≡ false
      → IsAllowed at' salt passcode current hash id input a s
      → (find? (with_id id) (confirm_phone env at id s).1.rows
          ≡ some (record a { phone_verified = some true }))
        × (find? (with_id id) (edit_account env at' salt input id s).1.rows
            ≡ some (edit_passcode_row at' (env.hash_value salt passcode) input [] a))
  histories_of_null at at' salt passcode current hash id input a s null takes own h =
      let f = edit_passcode_row at' (env.hash_value salt passcode) input (listed a.histories) in
      let is_written : (is_some a.histories || env.takes_null) ≡ true = ground arith in
      (
        rw (confirm_phone_done at id a s h.found_row is_written own) (
            find?-update_where (with_id id) (confirm_phone_row at) a s.rows (λ x x_has. x_has)
              h.found_row
            ∙ ground (arith, null)),
        rw (edit_passcode_done at' salt passcode current hash id input a s h) (
            find?-update_where (with_id id) f a s.rows (λ x x_has. x_has) h.found_row
            ∙ ground (arith, null)),
      )
