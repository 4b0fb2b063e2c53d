-- ===== src/Sessions.antt =====
-- apps/gateway/src/auth.service.ts and apps/gateway/src/jwt/jwt.strategy.ts: the sessions of the
-- accounts, which the gateway keeps in the cache that it shares with the authenticator. A message
-- to the authenticator is a call of its method; its filter turns an error into an answer.
pub mod Login
pub mod Refresh
pub mod SignIn
pub mod SignUp
pub mod Examples
mod Tests
use system_chat.Base.{
  ℕ, ◌+◌, ◌/◌, ◌<◌, ◌==◌, ◌≡◌, ◌≢◌, ◌↔◌, Bool, true, false, Option, some, none, List, [], ◌∷◌,
  Result, ok, err, pure, raise, ◌>>=◌, ◌>>◌, gets, or_raise, if◌then◌else◌,
}
use system_chat.Caching.{Holds, get, get_as, set_as, delete}
use system_chat.Accounts.Rows.{Account, AuthError, AuthState, Env, on_cache, Call}
use system_chat.Accounts.SignIn.{
  SignupRequest, FindAccountRequest, get_account, verify_passcode_sign_in, validate_sign_up,
}

-- The payload of a token.
pub record TokenPayload : Type 0 where
  pub id : ℕ
  pub phone : Option ℕ
  pub email : Option ℕ

abbrev pub payload_of : Account → TokenPayload
payload_of a = record { id = a.id; phone = a.phone; email = a.email }

-- The JwtService, on moments in milliseconds: a token of its own signature is verified until it
-- expires, by the seconds of the clock. `decode` looks at no signature. With it, the keys
-- `BITBACK-${id}` (the `session_key` of `env`), `BITBACK-REFRESH-${id}`, and a token as a key.
pub record Gateway {V : Type 0} (env : Env V) : Type 1 where
  pub Token : Type 0
  pub same_token : Token → Token → Bool
  pub same_token_iff : (a b : Token) → (same_token a b ≡ true) ↔ (a ≡ b)
  pub tokens : Holds V Token
  pub refresh_key : ℕ → ℕ
  pub token_key : ℕ → ℕ
  pub access_expires_in : ℕ
  pub refresh_expires_in : ℕ
  pub sign : ℕ → TokenPayload → Token
  pub sign_refresh : ℕ → TokenPayload → Token
  pub verify : ℕ → Token → Option TokenPayload
  pub verify_refresh : ℕ → Token → Option TokenPayload
  pub decode : ℕ → Option ℕ
  pub session-ne-refresh : (i j : ℕ) → env.session_key i ≢ refresh_key j
  pub verify-sign :
      (t now : ℕ) (p : TokenPayload)
      → t / 1000 < now / 1000 + access_expires_in
      → verify t (sign now p) ≡ some p
  pub verify-sign_refresh :
      (t now : ℕ) (p : TokenPayload)
      → t / 1000 < now / 1000 + refresh_expires_in
      → verify_refresh t (sign_refresh now p) ≡ some p

-- The readings of the clock in one call, in their order: by the checks of the token and the cache,
-- by `getAccount`, and by the new tokens.
pub record Clock : Type 0 where
  pub checked : ℕ
  pub looked_up : ℕ
  pub saved : ℕ
  pub signed : ℕ
  pub stored : ℕ

-- What the routes answer, where `T` is the type of tokens. `bad_token` is thrown, the others are returned.
pub data Reply (T : Type 0) : Type 0 where
  tokens : T → T → Reply T
  temporarily_locked : Reply T
  invalid_credentials : Reply T
  bad_passcode : Reply T
  bad_token : Reply T
  failed : AuthError → Reply T

-- `req.user`
pub record SessionUser : Type 0 where
  pub user_id : ℕ
  pub phone : Option ℕ

module _ {V : Type 0} (env : Env V) where
  -- `_clientAuth.send`: the error of a call is an answer.
  abbrev pub answered : {A : Type 0} → Call env A → Call env (Result AuthError A)
  answered m s = let (r, s') = m s in (ok r, s')

  -- The handler of GET_PROFILE in authenticator.controller.ts
  pub get_profile : Clock → ℕ → Call env Account
  get_profile c id =
      get_account env c.looked_up c.saved (record { id = some id; phone = none; email = none }) true
      >>= λ account. pure (record account { passcode = none })

module _ {V : Type 0} (env : Env V) (gateway : Gateway env) where
  abbrev pub is_token : Option gateway.Token → gateway.Token → Bool
  is_token none t = false
  is_token (some t') t = gateway.same_token t' t

  -- The two entries that `processLogin` makes.
  abbrev pub store_tokens : Clock → Account → env.redis.Store → env.redis.Store
  store_tokens c a cache =
      set_as env.redis gateway.tokens c.stored (gateway.refresh_key a.id)
        (gateway.sign_refresh c.signed (payload_of a)) gateway.refresh_expires_in
        (set_as env.redis gateway.tokens c.stored (env.session_key a.id)
          (gateway.sign c.signed (payload_of a)) gateway.access_expires_in cache)

  -- `processLogin`
  unfoldable pub process_login : Clock → Account → Call env (Reply gateway.Token)
  process_login c a =
      if a.status == 0
      then pure temporarily_locked
      else on_cache (store_tokens c a)
        >> pure (
            tokens (gateway.sign c.signed (payload_of a))
              (gateway.sign_refresh c.signed (payload_of a)))

  -- `validate` of the strategy, on the token and the id in its payload. An error that comes as the
  -- answer has no phone.
  pub validate : Clock → gateway.Token → ℕ → Call env (Option SessionUser)
  validate c access_token user_id =
      gets (λ s. get_as env.redis gateway.tokens c.checked (env.session_key user_id) s.cache)
      >>= λ cached. elim (is_token cached access_token) [
        | false ↦ pure none
        | true ↦ answered env (get_profile env c user_id) >>= λ profile. elim profile [
          | ok a ↦ pure (some (record { user_id = user_id; phone = a.phone }))
          | err e ↦ pure (some (record { user_id = user_id; phone = none }))
        ]
      ]

  -- passport's strategy verifies the bearer's token, then calls `validate`.
  pub authenticate : Clock → gateway.Token → Call env (Option SessionUser)
  authenticate c token = elim (gateway.verify c.checked token) [
    | none ↦ pure none
    | some payload ↦ validate c token payload.id
  ]

  -- What a login makes of the authenticator's answer.
  abbrev pub login_answer : Clock → Result AuthError Account → Call env (Reply gateway.Token)
  login_answer c (err e) = pure (failed e)
  login_answer c (ok a) = process_login c a

  -- refreshToken, once the token is verified
  pub refresh_for : Clock → gateway.Token → ℕ → Call env (Reply gateway.Token)
  refresh_for c token id =
      gets (λ s. get_as env.redis gateway.tokens c.checked (gateway.refresh_key id) s.cache)
      >>= λ cached. elim (is_token cached token) [
        | false ↦ pure invalid_credentials
        | true ↦ answered env (get_profile env c id) >>= login_answer c
      ]

  -- `refreshToken`
  pub refresh_token : Clock → gateway.Token → Call env (Reply gateway.Token)
  refresh_token c token = elim (gateway.verify_refresh c.checked token) [
    | none ↦ pure bad_token
    | some payload ↦ refresh_for c token payload.id
  ]

  -- `{ id }` of the token, or of the cached account
  abbrev pub signing_in : Clock → ℕ → Call env (Option ℕ)
  signing_in c token = elim (gateway.decode token) [
    | some id ↦ pure (some id)
    | none ↦
        gets (λ s. get_as env.redis env.accounts c.checked (env.sign_in_key token) s.cache)
        >>= λ cached. elim cached [ none ↦ pure none | some a ↦ pure (some a.id) ]
  ]

  abbrev pub sign_in_answer :
      Clock → ℕ → Result AuthError (Option Account) → Call env (Reply gateway.Token)
  sign_in_answer c token (err e) = pure (failed e)
  sign_in_answer c token (ok none) = pure bad_passcode
  sign_in_answer c token (ok (some a)) =
      on_cache (delete env.redis (env.sign_in_key token)) >> process_login c a

  -- `verifyPasscodeSignIn`
  pub gateway_sign_in : Clock → ℕ → ℕ → Call env (Reply gateway.Token)
  gateway_sign_in c passcode token = signing_in c token >>= λ found. elim found [
    | none ↦ pure invalid_credentials
    | some id ↦ answered env (verify_passcode_sign_in env id passcode) >>= sign_in_answer c token
  ]

  -- With the reply, the message SAVE_NEW_ACCOUNT: the account and who refers to it.
  abbrev pub SignUpReply : Type 0
  SignUpReply = Reply gateway.Token × Option (Account × Option ℕ)

  abbrev pub sign_up_answer :
      Clock → ℕ → Result AuthError (Account × Option ℕ) → Call env SignUpReply
  sign_up_answer c token (err e) = pure (failed e, none)
  sign_up_answer c token (ok (a, referral_by)) =
      on_cache (delete env.redis (gateway.token_key token)) >> process_login c a >>= λ reply.
      pure (reply, some (a, referral_by))

  -- `verifyPasscodeSignUp`, where the authenticator makes the row with `new_id` and `salt`
  pub gateway_sign_up : Clock → ℕ → ℕ → SignupRequest → Call env SignUpReply
  gateway_sign_up c new_id salt body =
      gets (λ s. get env.redis c.checked (env.sign_up_key body.token) s.cache) >>= λ found.
      elim found [
        | none ↦ pure (bad_token, none)
        | some v ↦
            answered env (validate_sign_up env c.looked_up c.saved new_id salt body)
            >>= sign_up_answer c body.token
      ]
