-- ===== src/Interceptor/Held.antt =====
-- A lock that was acquired is held until it expires.
use system_chat.Base.{ℕ, ◌+◌, ◌<◌, ◌≡◌, refl, some, none, Result, ok, err}
use system_chat.Interceptor.{
  Redlock, Texts, LockMeta, LockRequest, redlock_ttl, lock_key, refusal, handled, intercept,
}

module _ (redlock : Redlock) (texts : Texts) {H A : Type 0} where
  intercept_run :
      (first last key : ℕ) (meta : LockMeta) (request : LockRequest) (handler : H → Result ℕ A × H)
      (locks locks' : redlock.Locks) (h : H)
      → lock_key texts meta request ≡ ok key
      → redlock.acquire first last key redlock_ttl locks ≡ some locks'
      → intercept redlock texts first last meta request handler (locks, h)
        ≡ (handled (handler h).0, (locks', (handler h).1))
  unfolding intercept
  intercept_run first last key meta request handler locks locks' h has_key got =
      rw (has_key, got) refl

  intercept_refused :
      (first last key : ℕ) (meta : LockMeta) (request : LockRequest) (handler : H → Result ℕ A × H)
      (s : redlock.Locks × H)
      → lock_key texts meta request ≡ ok key
      → redlock.acquire first last key redlock_ttl s.0 ≡ none
      → intercept redlock texts first last meta request handler s ≡ (err (refusal meta), s)
  unfolding intercept
  intercept_refused first last key meta request handler s has_key none_got =
      rw (has_key, none_got) refl

  -- However the route ended, its lock is not released: a request with the same key whose last attempt
  -- comes within 30 seconds of the first request's first is refused, and its route does not run.
  pub intercept_again :
      (first last first' last' key : ℕ) (meta meta' : LockMeta) (request request' : LockRequest)
      (handler handler' : H → Result ℕ A × H) (locks locks' : redlock.Locks) (h : H)
      → lock_key texts meta request ≡ ok key
      → lock_key texts meta' request' ≡ ok key
      → redlock.acquire first last key redlock_ttl locks ≡ some locks'
      → last' < first + redlock_ttl
      → let done = intercept redlock texts first last meta request handler (locks, h) in
        (done.0 ≡ handled (handler h).0)
        × (intercept redlock texts first' last' meta' request' handler' done.1
            ≡ (err (refusal meta'), done.1))
  intercept_again first last first' last' key meta meta' request request' handler handler' locks
        locks' h has_key has_key' got soon =
      let run = intercept_run first last key meta request handler locks locks' h has_key got in
      let held =
        redlock.acquire_held first last first' last' key redlock_ttl redlock_ttl locks locks' got
          soon in
      rw run (
        refl,
        intercept_refused first' last' key meta' request' handler' (locks', (handler h).1) has_key'
            held,
      )
