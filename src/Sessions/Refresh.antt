-- ===== src/Sessions/Refresh.antt =====
-- refreshToken of apps/gateway/src/auth.service.ts, after a login, another refresh, or a change of
-- the passcode in apps/authenticator/src/authenticator.service.ts.
use system_chat.Base.{
  ℕ, ◌+◌, ◌*◌, ◌/◌, ◌<◌, ◌==◌, ◌≡◌, ◌≢◌, refl, ◌∙◌, ap, true, false, some, none, ok, lt→ltb, arith,
}
use system_chat.Caching.{get_as, delete, get_as-delete}
use system_chat.Accounts.Rows.{Account, AuthState, Env}
use system_chat.Accounts.Profile.{UserProfile, edit_account}
use system_chat.Accounts.Profile.Passcodes.{IsAllowed, edit_passcode_done}
use system_chat.Sessions.{
  Gateway, Clock, tokens, invalid_credentials, TokenPayload, payload_of, get_profile, store_tokens,
  process_login, authenticate, refresh_for, refresh_token, is_token,
}
use system_chat.Sessions.Login.{
  admits_user, access_of, refresh_of, process_login_done, cached_refresh, admits-authenticate,
}

module _ {V : Type 0} (env : Env V) (gateway : Gateway env) where
  refresh_for_refused :
      (c : Clock) (token : gateway.Token) (id : ℕ) (s : AuthState env.redis.Store)
      → is_token env gateway
          (get_as env.redis gateway.tokens c.checked (gateway.refresh_key id) s.cache)
          token
        ≡ false
      → refresh_for env gateway c token id s ≡ (ok invalid_credentials, s)
  unfolding refresh_for
  refresh_for_refused c token id s other = ground (arith, other)

  refresh_for_done :
      (c : Clock) (token : gateway.Token) (id : ℕ) (b : Account) (s s' : AuthState env.redis.Store)
      → is_token env gateway
          (get_as env.redis gateway.tokens c.checked (gateway.refresh_key id) s.cache)
          token
        ≡ true
      → get_profile env c id s ≡ (ok b, s')
      → refresh_for env gateway c token id s ≡ process_login env gateway c b s'
  unfolding refresh_for
  refresh_for_done c token id b s s' same profile = ground (arith, same, profile)

  refresh_verified :
      (c : Clock) (token : gateway.Token) (p : TokenPayload) (s : AuthState env.redis.Store)
      → gateway.verify_refresh c.checked token ≡ some p
      → refresh_token env gateway c token s ≡ refresh_for env gateway c token p.id s
  unfolding refresh_token
  refresh_verified c token p s verified = rw (refresh_token, verified) refl

  pub refresh_token_refused :
      (c : Clock) (token : gateway.Token) (p : TokenPayload) (s : AuthState env.redis.Store)
      → gateway.verify_refresh c.checked token ≡ some p
      → is_token env gateway
          (get_as env.redis gateway.tokens c.checked (gateway.refresh_key p.id) s.cache)
          token
        ≡ false
      → refresh_token env gateway c token s ≡ (ok invalid_credentials, s)
  refresh_token_refused c token p s verified other =
      refresh_verified c token p s verified ∙ refresh_for_refused c token p.id s other

  -- Moments at which the refresh token of a login is verified and still cached.
  pub record IsInTime (login now : Clock) : Type 0 where
    pub is_signed : now.checked / 1000 < login.signed / 1000 + gateway.refresh_expires_in
    pub is_cached : now.checked < login.stored + gateway.refresh_expires_in * 1000

  -- While the cache has the refresh token of a login, it gives new tokens.
  refresh_accepted :
      (c c' : Clock) (a b : Account) (s s' : AuthState env.redis.Store)
      → (b.status == 0) ≡ false
      → IsInTime c c'
      → get_as env.redis gateway.tokens c'.checked (gateway.refresh_key a.id) s.cache
        ≡ some (refresh_of env gateway c a)
      → get_profile env c' a.id s ≡ (ok b, s')
      → refresh_token env gateway c' (refresh_of env gateway c a) s ≡ (
        ok (tokens (access_of env gateway c' b) (refresh_of env gateway c' b)),
        record s' { cache = store_tokens env gateway c' b s'.cache },
      )
  refresh_accepted c c' a b s s' active in_time cached profile =
      refresh_verified c' (refresh_of env gateway c a) (payload_of a) s
        (gateway.verify-sign_refresh c'.checked c.signed (payload_of a) in_time.is_signed)
      ∙ refresh_for_done c' (refresh_of env gateway c a) a.id b s s'
          (rw cached ((gateway.same_token_iff (refresh_of env gateway c a) _).1 refl)) profile
      ∙ process_login_done env gateway c' b s' active

  cached_after_login :
      (c c' : Clock) (a : Account) (cache : env.redis.Store)
      → IsInTime c c'
      → get_as env.redis gateway.tokens c'.checked
          (gateway.refresh_key a.id)
          (store_tokens env gateway c a cache)
        ≡ some (refresh_of env gateway c a)
  cached_after_login c c' a cache in_time =
      let live =
        lt→ltb c'.checked (c.stored + gateway.refresh_expires_in * 1000) in_time.is_cached in
      cached_refresh env gateway c a c'.checked cache ∙ rw live refl

  -- The refresh token of a login gives new tokens once: with another token in its place it is
  -- refused, however long it would still be verified.
  pub refresh_token_once :
      (c c' c'' : Clock) (a b : Account) (p : TokenPayload) (s s' : AuthState env.redis.Store)
      → (a.status == 0) ≡ false
      → (b.status == 0) ≡ false
      → b.id ≡ a.id
      → IsInTime c c'
      → get_profile env c' a.id (process_login env gateway c a s).1 ≡ (ok b, s')
      → gateway.verify_refresh c''.checked (refresh_of env gateway c a) ≡ some p
      → p.id ≡ a.id
      → refresh_of env gateway c a ≢ refresh_of env gateway c' b
      → let first =
          refresh_token env gateway c'
            (refresh_of env gateway c a)
            (process_login env gateway c a s).1 in
        (first.0 ≡ ok (tokens (access_of env gateway c' b) (refresh_of env gateway c' b)))
        × (refresh_token env gateway c'' (refresh_of env gateway c a) first.1
            ≡ (ok invalid_credentials, first.1))
  refresh_token_once c c' c'' a b p s s' active active' own in_time profile verified p_own new =
      let s1 = (process_login env gateway c a s).1 in
      let s2 : AuthState env.redis.Store = record s' {
        cache = store_tokens env gateway c' b s'.cache;
      } in
      let first : refresh_token env gateway c' (refresh_of env gateway c a) s1
          ≡ (ok (tokens (access_of env gateway c' b) (refresh_of env gateway c' b)), s2) =
        refresh_accepted c c' a b s1 s' active' in_time
          (rw (process_login_done env gateway c a s active)
            (cached_after_login c c' a s.cache in_time))
          profile in
      let id : p.id ≡ b.id = p_own ∙ rw own refl in
      let other : is_token env gateway
            (get_as env.redis gateway.tokens c''.checked (gateway.refresh_key p.id) s2.cache)
            (refresh_of env gateway c a)
          ≡ false =
        rw id (
          rw (cached_refresh env gateway c' b c''.checked s'.cache) (
            ground (
              arith,
              new,
              gateway.same_token_iff (refresh_of env gateway c' b) (refresh_of env gateway c a),
            ))) in
      (
        ap (λ x. x.0) first,
        rw first (refresh_token_refused c'' (refresh_of env gateway c a) p s2 verified other),
      )

  -- A change of the passcode ends the access token of a login, but not its refresh token: who has
  -- that one still gets new tokens.
  pub refresh_token-edit_account :
      (c c' : Clock) (at salt passcode current hash : ℕ) (input : UserProfile) (a row b : Account)
      (s s' : AuthState env.redis.Store)
      → (a.status == 0) ≡ false
      → (b.status == 0) ≡ false
      → IsInTime c c'
      → c'.checked / 1000 < c.signed / 1000 + gateway.access_expires_in
      → IsAllowed env at salt passcode current hash a.id input row
          (process_login env gateway c a s).1
      → let changed = (edit_account env at salt input a.id (process_login env gateway c a s).1).1 in
        get_profile env c' a.id changed ≡ (ok b, s')
        → (admits_user (authenticate env gateway c' (access_of env gateway c a) changed).0 ≡ false)
          × ((refresh_token env gateway c' (refresh_of env gateway c a) changed).0
              ≡ ok (tokens (access_of env gateway c' b) (refresh_of env gateway c' b)))
  refresh_token-edit_account c c' at salt passcode current hash input a row b s s' active active'
        in_time signed allowed profile =
      let s1 = (process_login env gateway c a s).1 in
      let changed = (edit_account env at salt input a.id s1).1 in
      let cache : changed.cache
          ≡ delete env.redis (env.session_key a.id) (store_tokens env gateway c a s.cache) =
        ap (λ x. x.1.cache)
          (edit_passcode_done env at salt passcode current hash a.id input row s1 allowed)
        ∙ rw (process_login_done env gateway c a s active) refl in
      let gone : get_as env.redis gateway.tokens c'.checked (env.session_key a.id) changed.cache
          ≡ none =
        rw cache (
          get_as-delete env.redis gateway.tokens _ (env.session_key a.id) c'.checked
            (env.session_key a.id)
          ∙ ground arith) in
      let kept : get_as env.redis gateway.tokens c'.checked (gateway.refresh_key a.id) changed.cache
          ≡ some (refresh_of env gateway c a) =
        rw cache (
          get_as-delete env.redis gateway.tokens _ (env.session_key a.id) c'.checked
            (gateway.refresh_key a.id)
          ∙ ground (arith, gateway.session-ne-refresh a.id a.id)
          ∙ cached_after_login c c' a s.cache in_time) in
      (
        admits-authenticate env gateway c' (access_of env gateway c a) (payload_of a) changed
              (gateway.verify-sign c'.checked c.signed (payload_of a) signed)
            ∙ rw gone refl,
        ap (λ x. x.0) (refresh_accepted c c' a b changed s' active' in_time kept profile),
      )
