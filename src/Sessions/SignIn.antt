-- ===== src/Sessions/SignIn.antt =====
-- verifyPasscodeSignIn of apps/gateway/src/auth.service.ts, with the authenticator's own part.
use system_chat.Base.{
  ℕ, ◌==◌, ◌≡◌, refl, ap, sym, ◌∙◌, inl, inr, false, true, some, none, Option-cases, ok, arith,
  find?, ◌>>=◌,
}
use system_chat.Caching.{get_as}
use system_chat.Accounts.Rows.{Account, AuthState, Env, with_id, Call}
use system_chat.Accounts.SignIn.{verify_passcode_sign_in}
use system_chat.Sessions.{
  Gateway, Clock, Reply, tokens, signing_in, answered, sign_in_answer, process_login,
  gateway_sign_in,
}
use system_chat.Sessions.Login.{access_of, refresh_of}

module _ {V : Type 0} (env : Env V) (gateway : Gateway env) where
  -- An account of the table that is not locked and whose passcode was given, with its new tokens.
  pub record IsSignedIn (c : Clock) (passcode : ℕ) (access refresh : gateway.Token)
      (s : AuthState env.redis.Store) : Type 0 where
    pub id : ℕ
    pub account : Account
    pub hash : ℕ
    pub found_row : find? (with_id id) s.rows ≡ some account
    pub has_passcode : account.passcode ≡ some hash
    pub knows : env.compare_hash passcode hash ≡ true
    pub is_active : (account.status == 0) ≡ false
    pub is_access : access ≡ access_of env gateway c account
    pub is_refresh : refresh ≡ refresh_of env gateway c account

  sign_in_answer_sound :
      (c : Clock) (passcode token id : ℕ) (access refresh : gateway.Token)
      (s : AuthState env.redis.Store)
      → ((answered env (verify_passcode_sign_in env id passcode)
            >>= sign_in_answer env gateway c token)
          s).0
        ≡ ok (tokens access refresh)
      → IsSignedIn c passcode access refresh s
  unfolding verify_passcode_sign_in process_login
  sign_in_answer_sound c passcode token id access refresh s h =
      elim (Option-cases (find? (with_id id) s.rows)) [
        | inl missing ↦ ground (arith, missing, h)
        | inr (a, found) ↦ elim (Option-cases a.passcode) [
          | inl empty ↦ ground (arith, found, empty, h)
          | inr (hash, has) ↦ record {
            id = id;
            account = a;
            hash = hash;
            found_row = found;
            has_passcode = has;
            knows = ground (arith, found, has, h);
            is_active = ground (arith, found, has, h);
            is_access = ground (arith, found, has, h);
            is_refresh = ground (arith, found, has, h);
          }
        ]
      ]

  abbrev as_account : Clock → ℕ → ℕ → ℕ → Call env (Reply gateway.Token)
  as_account c passcode token id =
      answered env (verify_passcode_sign_in env id passcode) >>= sign_in_answer env gateway c token

  by_payload :
      (c : Clock) (passcode token id : ℕ) (s : AuthState env.redis.Store)
      → gateway.decode token ≡ some id
      → gateway_sign_in env gateway c passcode token s ≡ as_account c passcode token id s
  unfolding gateway_sign_in
  by_payload c passcode token id s decoded = rw (signing_in, decoded) refl

  by_cache :
      (c : Clock) (passcode token : ℕ) (a : Account) (s : AuthState env.redis.Store)
      → gateway.decode token ≡ none
      → get_as env.redis env.accounts c.checked (env.sign_in_key token) s.cache ≡ some a
      → gateway_sign_in env gateway c passcode token s ≡ as_account c passcode token a.id s
  unfolding gateway_sign_in
  by_cache c passcode token a s opaque cached = rw (signing_in, opaque, cached) refl

  -- Whatever the token says of itself, who gets tokens from verifyPasscodeSignIn knows the passcode
  -- of an account that is not locked, and the tokens are this account's.
  pub gateway_sign_in_sound :
      (c : Clock) (passcode token : ℕ) (access refresh : gateway.Token)
      (s : AuthState env.redis.Store)
      → (gateway_sign_in env gateway c passcode token s).0 ≡ ok (tokens access refresh)
      → IsSignedIn c passcode access refresh s
  unfolding gateway_sign_in
  gateway_sign_in_sound c passcode token access refresh s h =
      elim (Option-cases (gateway.decode token)) [
        | inr (id, decoded) ↦
            sign_in_answer_sound c passcode token id access refresh s
              (sym (ap (λ x. x.0) (by_payload c passcode token id s decoded)) ∙ h)
        | inl opaque ↦
            elim (Option-cases
              (get_as env.redis env.accounts c.checked (env.sign_in_key token) s.cache)) [
                | inl missed ↦ ground (arith, opaque, missed, h)
                | inr (a, cached) ↦
                    sign_in_answer_sound c passcode token a.id access refresh s
                      (sym (ap (λ x. x.0) (by_cache c passcode token a s opaque cached)) ∙ h)
              ]
      ]
