-- ===== src/Sessions/Login.antt =====
-- processLogin of apps/gateway/src/auth.service.ts, and which tokens the strategy of
-- apps/gateway/src/jwt/jwt.strategy.ts then admits.
use system_chat.Base.{
  ℕ, ◌+◌, ◌*◌, ◌<◌, ◌==◌, ◌≡◌, ◌↔◌, refl, sym, ◌∙◌, Bool, true, false, Option, some, none, Result,
  ok, err, ltb, lt→ltb, arith, if◌then◌else◌,
}
use system_chat.Caching.{get_as, get_as-set_as, get_as-set_as_other}
use system_chat.Accounts.Rows.{Account, AuthError, AuthState, Env, is_some}
use system_chat.Sessions.{
  Gateway, Clock, tokens, SessionUser, TokenPayload, payload_of, store_tokens, process_login,
  validate, authenticate, is_token,
}

-- Whether the strategy hands over a user.
abbrev pub admits_user : Result AuthError (Option SessionUser) → Bool
admits_user (err e) = false
admits_user (ok user) = is_some user

module _ {V : Type 0} (env : Env V) (gateway : Gateway env) where
  abbrev pub access_of : Clock → Account → gateway.Token
  access_of c a = gateway.sign c.signed (payload_of a)

  abbrev pub refresh_of : Clock → Account → gateway.Token
  refresh_of c a = gateway.sign_refresh c.signed (payload_of a)

  pub process_login_done :
      (c : Clock) (a : Account) (s : AuthState env.redis.Store)
      → (a.status == 0) ≡ false
      → process_login env gateway c a s ≡ (
        ok (tokens (access_of c a) (refresh_of c a)),
        record s { cache = store_tokens env gateway c a s.cache },
      )
  unfolding process_login
  process_login_done c a s active = rw active refl

  pub cached_access :
      (c : Clock) (a : Account) (t : ℕ) (cache : env.redis.Store)
      → get_as env.redis gateway.tokens t
          (env.session_key a.id)
          (store_tokens env gateway c a cache)
        ≡ (if ltb t (c.stored + gateway.access_expires_in * 1000)
            then some (access_of c a)
            else none)
  cached_access c a t cache =
      get_as-set_as_other env.redis gateway.tokens gateway.tokens _ c.stored
        (gateway.refresh_key a.id) gateway.refresh_expires_in t (env.session_key a.id)
        (refresh_of c a) (gateway.session-ne-refresh a.id a.id)
      ∙ get_as-set_as env.redis gateway.tokens cache c.stored (env.session_key a.id)
          gateway.access_expires_in t (access_of c a)

  pub cached_refresh :
      (c : Clock) (a : Account) (t : ℕ) (cache : env.redis.Store)
      → get_as env.redis gateway.tokens t
          (gateway.refresh_key a.id)
          (store_tokens env gateway c a cache)
        ≡ (if ltb t (c.stored + gateway.refresh_expires_in * 1000)
            then some (refresh_of c a)
            else none)
  cached_refresh c a t cache =
      get_as-set_as env.redis gateway.tokens _ c.stored (gateway.refresh_key a.id)
        gateway.refresh_expires_in t (refresh_of c a)

  pub admits-validate :
      (c : Clock) (token : gateway.Token) (id : ℕ) (s : AuthState env.redis.Store)
      → admits_user (validate env gateway c token id s).0
        ≡ is_token env gateway
            (get_as env.redis gateway.tokens c.checked (env.session_key id) s.cache)
            token
  unfolding validate
  admits-validate c token id s =
      ground (arith, get_as env.redis gateway.tokens c.checked (env.session_key id) s.cache)

  pub admits-authenticate :
      (c : Clock) (token : gateway.Token) (p : TokenPayload) (s : AuthState env.redis.Store)
      → gateway.verify c.checked token ≡ some p
      → admits_user (authenticate env gateway c token s).0
        ≡ is_token env gateway
            (get_as env.redis gateway.tokens c.checked (env.session_key p.id) s.cache)
            token
  unfolding authenticate
  admits-authenticate c token p s verified =
      rw (authenticate, verified) (admits-validate c token p.id s)

  -- After a login of an account that is not locked, and until the access token expires, the
  -- strategy admits, of all the verified tokens of this account, the new access token alone: who
  -- held an older one is out.
  pub authenticate-process_login :
      (c c' : Clock) (a : Account) (token : gateway.Token) (p : TokenPayload)
      (s : AuthState env.redis.Store)
      → (a.status == 0) ≡ false
      → c'.checked < c.stored + gateway.access_expires_in * 1000
      → gateway.verify c'.checked token ≡ some p
      → p.id ≡ a.id
      → (admits_user (authenticate env gateway c' token (process_login env gateway c a s).1).0
          ≡ true)
        ↔ (token ≡ access_of c a)
  authenticate-process_login c c' a token p s active in_time verified own =
      let live = lt→ltb c'.checked (c.stored + gateway.access_expires_in * 1000) in_time in
      let found : admits_user
            (authenticate env gateway c' token (process_login env gateway c a s).1).0
          ≡ gateway.same_token (access_of c a) token =
        rw (process_login_done c a s active) (
          admits-authenticate c' token p _ verified
          ∙ rw own (rw (cached_access c a c'.checked s.cache) (rw live refl))) in
      (
        λ h. sym ((gateway.same_token_iff (access_of c a) token).0 (sym found ∙ h)),
        λ e. found ∙ (gateway.same_token_iff (access_of c a) token).1 (sym e),
      )
