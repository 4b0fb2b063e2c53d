-- ===== src/Sessions/SignUp.antt =====
-- verifyPasscodeSignUp of apps/gateway/src/auth.service.ts, with the
-- authenticator's own part.
use system_chat.Base.{
  Option-cases, Bool-cases, inl, inr, ◌||◌, arith, none, read_first, find?, count_where, pure, ◌>>◌,
  ◌>>=◌, subst, ℕ, ◌==◌, ◌≡◌, ◌≢◌, refl, ◌∙◌, false, Option, some, ok,
}
use system_chat.Caching.{get, get_as, set, set_as, delete}
use system_chat.Accounts.Rows.{
  Account, AuthState, Env, create_account, is_some, taken, with_id, with_email, put, Call,
}
use system_chat.Accounts.SignIn.{
  SignupRequest, signed_up, validate_sign_up, referral_condition, find_referral, normalize_phone,
  check_new_email,
}
use system_chat.Sessions.{
  Gateway, Clock, answered, sign_up_answer, tokens, store_tokens, gateway_sign_up,
}
use system_chat.Sessions.Login.{access_of, refresh_of, process_login_done}

module _ {V : Type 0} (env : Env V) (gateway : Gateway env) where
  gateway_sign_up_done :
      (c : Clock) (new_id salt : ℕ) (body : SignupRequest) (v : V) (a : Account)
      (referral_by : Option ℕ) (s s' : AuthState env.redis.Store)
      → get env.redis c.checked (env.sign_up_key body.token) s.cache ≡ some v
      → validate_sign_up env c.looked_up c.saved new_id salt body s ≡ (ok (a, referral_by), s')
      → (a.status == 0) ≡ false
      → gateway_sign_up env gateway c new_id salt body s ≡ (
        ok (tokens (access_of env gateway c a) (refresh_of env gateway c a), some (a, referral_by)),
        record s' {
          cache =
              store_tokens env gateway c a
                (delete env.redis (gateway.token_key body.token) s'.cache);
        },
      )
  unfolding gateway_sign_up
  gateway_sign_up_done c new_id salt body v a referral_by s s' found made active =
      let cleared : AuthState env.redis.Store = record s' {
        cache = delete env.redis (gateway.token_key body.token) s'.cache;
      } in
      rw (gateway_sign_up, found, made, process_login_done env gateway c a cleared active) refl

  -- The keys of sign-up tokens are none of the others that a sign-up writes.
  pub record IsApart (token : ℕ) : Type 0 where
    pub is_no_token : env.sign_up_key token ≢ gateway.token_key token
    pub is_no_session : (id : ℕ) → env.sign_up_key token ≢ env.session_key id
    pub is_no_refresh : (id : ℕ) → env.sign_up_key token ≢ gateway.refresh_key id

  get-store_tokens :
      (c : Clock) (token t : ℕ) (a : Account) (cache : env.redis.Store)
      → IsApart token
      → get env.redis t
          (env.sign_up_key token)
          (store_tokens env gateway c a (delete env.redis (gateway.token_key token) cache))
        ≡ get env.redis t (env.sign_up_key token) cache
  unfolding get set_as set delete
  get-store_tokens c token t a cache apart =
      env.redis.get-set_ex_other _ c.stored (gateway.refresh_key a.id) gateway.refresh_expires_in t
        (env.sign_up_key token) _ (apart.is_no_refresh a.id)
      ∙ env.redis.get-set_ex_other _ c.stored (env.session_key a.id) gateway.access_expires_in t
          (env.sign_up_key token) _ (apart.is_no_session a.id)
      ∙ env.redis.get-del_other cache (gateway.token_key token) t (env.sign_up_key token)
          apart.is_no_token

  condition_reads :
      (referral_by : ℕ) (phone : Option ℕ) (s : AuthState env.redis.Store)
      → (referral_condition env referral_by phone s).1 ≡ s
  unfolding referral_condition
  condition_reads referral_by phone s = ground arith

  referral_reads :
      (referral_by phone : Option ℕ) (s : AuthState env.redis.Store)
      → (find_referral env referral_by phone s).1 ≡ s
  unfolding find_referral
  referral_reads none phone s = refl
  referral_reads (some referral_by) phone s =
      read_first (λ t. t ≡ s) s (referral_condition env referral_by phone) _
        (condition_reads referral_by phone s) refl
        λ condition. elim (Option-cases (find? condition s.rows)) [
          | inl missing ↦ rw missing refl
          | inr (account, found) ↦ rw found refl
        ]

  phone_reads :
      (phone : Option ℕ) (s : AuthState env.redis.Store) → (normalize_phone env phone s).1 ≡ s
  unfolding normalize_phone
  phone_reads none s = refl
  phone_reads (some phone) s = ground arith

  email_reads :
      (email : Option ℕ) (s : AuthState env.redis.Store) → (check_new_email env email s).1 ≡ s
  unfolding check_new_email
  email_reads none s = refl
  email_reads (some email) s = ground arith

  abbrev answer_with : Option ℕ → Account → Call env (Account × Option ℕ)
  answer_with referral_by account = pure (account, referral_by)

  created_cache :
      (email : Option ℕ) (a : Account) (referral_by : Option ℕ) (s : AuthState env.redis.Store)
      → ((check_new_email env email >> create_account a >>= answer_with referral_by) s).1.cache
        ≡ s.cache
  unfolding check_new_email
  created_cache email a referral_by s =
      elim (Bool-cases (is_some (find? (with_id a.id) s.rows) || taken a s.rows)) [
        | inl clash ↦ elim (Option-cases email) [
          | inl absent ↦ rw (absent, clash) refl
          | inr (address, given) ↦
              elim (Bool-cases (count_where (with_email (some address)) s.rows == 0)) [
                | inl new ↦ rw (given, new, clash) refl
                | inr known ↦ rw (given, known) refl
              ]
        ]
        | inr free ↦ elim (Option-cases email) [
          | inl absent ↦ rw (absent, free) refl
          | inr (address, given) ↦
              elim (Bool-cases (count_where (with_email (some address)) s.rows == 0)) [
                | inl new ↦ rw (given, new, free) refl
                | inr known ↦ rw (given, known) refl
              ]
        ]
      ]

  -- validateSignUp leaves the cache as it is.
  validate_sign_up_reads :
      (now at new_id salt : ℕ) (body : SignupRequest) (s : AuthState env.redis.Store)
      → (validate_sign_up env now at new_id salt body s).1.cache ≡ s.cache
  unfolding validate_sign_up
  validate_sign_up_reads now at new_id salt body s =
      elim (Option-cases (get_as env.redis env.accounts now (env.sign_up_key body.token) s.cache)) [
        | inl missing ↦ rw missing refl
        | inr (cached, found) ↦
            let kept = λ (t : AuthState env.redis.Store). t.cache ≡ s.cache in
            rw found (
              read_first kept s (find_referral env body.referral_by cached.phone) _
                (referral_reads body.referral_by cached.phone s) refl
                λ referral_by.
                  read_first kept s (normalize_phone env cached.phone) _
                    (phone_reads cached.phone s) refl
                    λ phone.
                      created_cache (put body.email cached.email)
                        (signed_up env at new_id salt body phone cached) referral_by s)
      ]

  -- A token of sign-up is not used up: what verifyPasscodeSignUp deletes is another key. After a
  -- sign-up, and until the token expires, whoever sends it again passes the gateway's test of the
  -- token once more: the authenticator is asked to sign up another account with it, and what it
  -- answers is what follows.
  pub gateway_sign_up_again :
      (c c' : Clock) (new_id salt new_id' salt' : ℕ) (body body' : SignupRequest) (v v' : V)
      (a : Account) (referral_by : Option ℕ) (s s' : AuthState env.redis.Store)
      → IsApart body.token
      → body'.token ≡ body.token
      → get env.redis c.checked (env.sign_up_key body.token) s.cache ≡ some v
      → validate_sign_up env c.looked_up c.saved new_id salt body s ≡ (ok (a, referral_by), s')
      → (a.status == 0) ≡ false
      → get env.redis c'.checked (env.sign_up_key body.token) s.cache ≡ some v'
      → let after = (gateway_sign_up env gateway c new_id salt body s).1 in
        (get env.redis c'.checked (env.sign_up_key body.token) after.cache ≡ some v')
        × (gateway_sign_up env gateway c' new_id' salt' body' after
            ≡ (answered env (validate_sign_up env c'.looked_up c'.saved new_id' salt' body')
                  >>= sign_up_answer env gateway c' body'.token)
                after)
  unfolding gateway_sign_up
  gateway_sign_up_again c c' new_id salt new_id' salt' body body' v v' a referral_by s s' apart same
        found made active live =
      let kept : s'.cache ≡ s.cache =
        subst (λ r. r.1.cache ≡ s.cache) made
          (validate_sign_up_reads c.looked_up c.saved new_id salt body s) in
      let after = (gateway_sign_up env gateway c new_id salt body s).1 in
      let found' : get env.redis c'.checked (env.sign_up_key body.token) after.cache ≡ some v' =
        rw (gateway_sign_up_done c new_id salt body v a referral_by s s' found made active)
          (get-store_tokens c body.token c'.checked a s'.cache apart ∙ rw kept live) in
      let again : get env.redis c'.checked (env.sign_up_key body'.token) after.cache ≡ some v' =
        rw same found' in
      (found', rw again refl)
