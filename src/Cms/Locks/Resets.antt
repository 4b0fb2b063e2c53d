-- ===== src/Cms/Locks/Resets.antt =====
-- What resetPasscode leaves: the new passcode, and the sessions in the gateway.
use system_chat.Base.{
  ℕ, ◌+◌, ◌*◌, ◌/◌, ◌<◌, ◌==◌, ◌≡◌, refl, ap, ◌∙◌, false, true, ◌||◌, Option, some, none, ok, arith,
  lt→ltb, find?, find?-update_where, update_where,
}
use system_chat.Caching.{get_as}
use system_chat.Accounts.Rows.{Account, AuthState, Env, is_some, taken, with_id}
use system_chat.Accounts.Profile.{verify_passcode}
use system_chat.Accounts.Profile.Passcodes.{verify_passcode_found}
use system_chat.Sessions.{Gateway, Clock, payload_of, process_login, authenticate}
use system_chat.Sessions.Login.{
  admits_user, access_of, process_login_done, cached_access, admits-authenticate,
}
use system_chat.Cms.Locks.{
  Office, office_entry, reset_office_row, is_active_account, reset_text, reset_by_office,
}

module _ {V : Type 0} (env : Env V) where
  -- A reset of an active account that the database takes.
  pub record IsReset (office : Office) (at salt id updated_by passcode : ℕ) (cipher : Option ℕ)
      (a : Account) (s : AuthState env.redis.Store) : Type 0 where
    pub is_active : find? (is_active_account env id) s.rows ≡ some a
    pub found_row : find? (with_id id) s.rows ≡ some a
    pub is_text : reset_text env office cipher s ≡ (ok passcode, s)
    pub is_written : (is_some a.histories || env.takes_null) ≡ true
    pub is_own :
        taken
          (reset_office_row
            (office_entry at (some office.reset_reason) updated_by)
            (env.hash_value salt (office.md5_hash passcode))
            a
            a)
          s.rows
        ≡ false

  reset_by_office_done :
      (office : Office) (at salt id updated_by passcode : ℕ) (cipher : Option ℕ) (a : Account)
      (s : AuthState env.redis.Store)
      → IsReset office at salt id updated_by passcode cipher a s
      → reset_by_office env office at salt id updated_by cipher s ≡ (
        ok (elim a.email [ none ↦ none | some email ↦ some (email, passcode) ]),
        record s {
          rows =
              update_where
                (with_id id)
                (reset_office_row
                  (office_entry at (some office.reset_reason) updated_by)
                  (env.hash_value salt (office.md5_hash passcode))
                  a)
                s.rows;
        },
      )
  unfolding reset_by_office
  reset_by_office_done office at salt id updated_by passcode cipher a s h =
      ground (arith, h.is_active, h.found_row, h.is_text, h.is_written, h.is_own)

module _ {V : Type 0} (env : Env V) (gateway : Gateway env) where
  -- After a reset from the back office, the MD5 hash of the mailed passcode is verified. Who was
  -- logged in before stays so: the access token is still admitted.
  pub authenticate-reset_by_office :
      (office : Office) (c c' : Clock) (at salt updated_by passcode email : ℕ) (cipher : Option ℕ)
      (a b : Account) (s : AuthState env.redis.Store)
      → (a.status == 0) ≡ false
      → IsReset env office at salt a.id updated_by passcode cipher b
          (process_login env gateway c a s).1
      → b.email ≡ some email
      → c'.checked < c.stored + gateway.access_expires_in * 1000
      → c'.checked / 1000 < c.signed / 1000 + gateway.access_expires_in
      → let reset =
          reset_by_office env office at salt a.id updated_by cipher
            (process_login env gateway c a s).1 in
        (reset.0 ≡ ok (some (email, passcode)))
        × ((verify_passcode env a.id (office.md5_hash passcode) reset.1).0 ≡ ok true)
        × (admits_user (authenticate env gateway c' (access_of env gateway c a) reset.1).0 ≡ true)
  authenticate-reset_by_office office c c' at salt updated_by passcode email cipher a b s active h
        has_email cached signed =
      let s1 = (process_login env gateway c a s).1 in
      let hash = env.hash_value salt (office.md5_hash passcode) in
      let f = reset_office_row (office_entry at (some office.reset_reason) updated_by) hash b in
      let s2 : AuthState env.redis.Store = record s1 {
        rows = update_where (with_id a.id) f s1.rows;
      } in
      let live = lt→ltb c'.checked (c.stored + gateway.access_expires_in * 1000) cached in
      let kept : get_as env.redis gateway.tokens c'.checked (env.session_key a.id) s2.cache
          ≡ some (access_of env gateway c a) =
        rw (process_login_done env gateway c a s active)
          (cached_access env gateway c a c'.checked s.cache ∙ rw live refl) in
      rw (reset_by_office_done env office at salt a.id updated_by passcode cipher b s1 h) (
        rw has_email refl,
        ap (λ x. x.0)
            (verify_passcode_found env a.id (office.md5_hash passcode) hash (f b) s2
              (find?-update_where (with_id a.id) f b s1.rows (λ x e. e) h.found_row) refl
              (env.compare_hash-hash_value salt (office.md5_hash passcode))),
        admits-authenticate env gateway c' (access_of env gateway c a) (payload_of a) s2
              (gateway.verify-sign c'.checked c.signed (payload_of a) signed)
            ∙ rw kept ((gateway.same_token_iff (access_of env gateway c a) _).1 refl),
      )
