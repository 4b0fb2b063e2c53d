-- ===== src/Interceptor.antt =====
-- libs/common/src/interceptors/lock.interceptor.ts: a route runs under a lock of Redlock, which is a
-- record of laws. A text is a number, and the routes are functions on their own state.
pub mod Held
mod Tests
use system_chat.Base.{
  ℕ, ◌+◌, ◌<◌, ◌≡◌, Bool, true, false, not, ◌&&◌, Option, some, none, Result, ok, err,
  if◌then◌else◌,
}

-- `REDLOCK_TTL`, in milliseconds
abbrev pub redlock_ttl : ℕ
redlock_ttl = 30000

-- `acquire` with the moments of its first and its last attempt: nothing where every attempt fails.
-- While a lock is held, no attempt for its key succeeds.
pub record Redlock : Type 1 where
  pub Locks : Type 0
  pub acquire : ℕ → ℕ → ℕ → ℕ → Locks → Option Locks
  pub acquire_held :
      (first last first' last' key ttl ttl' : ℕ) (s s' : Locks)
      → acquire first last key ttl s ≡ some s'
      → last' < first + ttl
      → acquire first' last' key ttl' s' ≡ none

-- The metadata of a route, `RedlockType`.
pub record LockMeta : Type 0 where
  pub key : ℕ
  pub error : Option ℕ
  pub uses_user : Bool
  pub is_ipn : Bool
  pub is_third_party : Bool

-- What the interceptor reads of a request; `user` is there after the guard, with the id of its token.
pub record LockRequest : Type 0 where
  pub user : Option (Option ℕ)
  pub path : Option ℕ
  pub order_id : Option ℕ
  pub email : Option ℕ
  pub phone : Option ℕ
  pub uuid : Option ℕ

pub data LockError : Type 0 where
  unauthorized : LockError
  route_locked : ℕ → LockError
  redlock_error : LockError
  handler_error : ℕ → LockError

-- `a + b` on texts, the text of `undefined`, and the empty one.
pub record Texts : Type 0 where
  pub join : ℕ → ℕ → ℕ
  pub undefined_text : ℕ
  pub empty_text : ℕ

abbrev pub first_of : Option ℕ → Option ℕ → Option ℕ
first_of none b = b
first_of (some a) b = some a

abbrev pub text_or : ℕ → Option ℕ → ℕ
text_or default none = default
text_or default (some text) = text

module _ (texts : Texts) where
  -- The key for a route of a user, or of anyone.
  abbrev pub user_key : LockMeta → LockRequest → Result LockError ℕ
  user_key meta request =
      if meta.uses_user
      then (elim request.user [
        | none ↦ err unauthorized
        | some id ↦ ok (texts.join meta.key (text_or texts.empty_text id))
      ])
      else ok (texts.join meta.key (text_or texts.empty_text request.path))

  unfoldable pub lock_key : LockMeta → LockRequest → Result LockError ℕ
  lock_key meta request =
      if meta.is_ipn
      then ok (texts.join meta.key (text_or texts.undefined_text request.order_id))
      else if meta.is_third_party
      then ok (
          texts.join meta.key (
            text_or texts.undefined_text
              (first_of request.email (first_of request.phone request.uuid))))
      else user_key meta request

-- `meta.error || err`
abbrev pub refusal : LockMeta → LockError
refusal meta = elim meta.error [ some e ↦ route_locked e | none ↦ redlock_error ]

abbrev pub handled : {A : Type 0} → Result ℕ A → Result LockError A
handled (ok a) = ok a
handled (err e) = err (handler_error e)

module _ (redlock : Redlock) (texts : Texts) {H A : Type 0} where
  -- Under the lock: the answer of the route, and the lock as it was acquired.
  abbrev pub run_locked :
      LockMeta
      → (H → Result ℕ A × H)
      → Option redlock.Locks
      → redlock.Locks × H
      → Result LockError A × (redlock.Locks × H)
  run_locked meta handler none (locks, h) = (err (refusal meta), (locks, h))
  run_locked meta handler (some locks') (locks, h) =
      let (r, h') = handler h in (handled r, (locks', h'))

  abbrev pub with_key :
      ℕ
      → ℕ
      → LockMeta
      → (H → Result ℕ A × H)
      → Result LockError ℕ
      → redlock.Locks × H
      → Result LockError A × (redlock.Locks × H)
  with_key first last meta handler (err e) s = (err e, s)
  with_key first last meta handler (ok key) s =
      run_locked meta handler (redlock.acquire first last key redlock_ttl s.0) s

  -- `intercept`. What `tap` does on success reads a property of the lock and releases nothing.
  unfoldable pub intercept :
      ℕ
      → ℕ
      → LockMeta
      → LockRequest
      → (H → Result ℕ A × H)
      → redlock.Locks × H
      → Result LockError A × (redlock.Locks × H)
  intercept first last meta request handler s =
      with_key first last meta handler (lock_key texts meta request) s
