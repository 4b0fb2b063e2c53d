-- ===== src/Interceptor/Tests.antt =====
-- A Redlock that keeps the moment at which each lock expires, and the witness of its property.
use system_chat.Base.{
  ℕ, ◌+◌, ◌<◌, ◌≡◌, ◌==◌, ltb, refl, true, false, Bool, Option, some, none, List, [], ◌∷◌, Result,
  ok, err, arith, ◌&&◌, ◌||◌, if◌then◌else◌,
}
use system_chat.Interceptor.{
  Redlock, Texts, LockMeta, LockRequest, route_locked, intercept, lock_key,
}
use system_chat.Interceptor.Held.{intercept_again}

abbrev is_held : ℕ → ℕ → List (ℕ × ℕ) → Bool
is_held key t [] = false
is_held key t ((held, until) ∷ locks) = held == key && ltb t until || is_held key t locks

abbrev acquire_one : ℕ → ℕ → ℕ → ℕ → List (ℕ × ℕ) → Option (List (ℕ × ℕ))
acquire_one first last key ttl locks =
    if is_held key last locks then none else some ((key, first + ttl) ∷ locks)

acquire_one_held :
    (first last first' last' key ttl ttl' : ℕ) (s s' : List (ℕ × ℕ))
    → acquire_one first last key ttl s ≡ some s'
    → last' < first + ttl
    → acquire_one first' last' key ttl' s' ≡ none
acquire_one_held first last first' last' key ttl ttl' s s' got soon = ground (arith, got, soon)

abbrev redlock : Redlock
redlock = record { Locks = List (ℕ × ℕ); acquire = acquire_one; acquire_held = acquire_one_held }

abbrev texts : Texts
texts = record { join = λ a b. a + b; undefined_text = 900; empty_text = 0 }

abbrev deposit_meta : LockMeta
deposit_meta = record {
  key = 1000;
  error = some 429;
  uses_user = true;
  is_ipn = false;
  is_third_party = false;
}

abbrev of_user : LockRequest
of_user = record {
  user = some (some 7);
  path = none;
  order_id = none;
  email = none;
  phone = none;
  uuid = none;
}

abbrev counted : ℕ → Result ℕ ℕ × ℕ
counted n = (ok n, n + 1)

key_of_user : lock_key texts deposit_meta of_user ≡ ok 1007
unfolding lock_key
key_of_user = refl

intercept_again_example :
    ((intercept redlock texts 0 0 deposit_meta of_user counted ([], 3)).0 ≡ ok 3)
    × (let done = intercept redlock texts 0 0 deposit_meta of_user counted ([], 3) in
        intercept redlock texts 5000 8000 deposit_meta of_user counted done.1
        ≡ (err (route_locked 429), done.1))
intercept_again_example =
    intercept_again redlock texts 0 0 5000 8000 1007 deposit_meta deposit_meta of_user of_user
      counted counted [] ((1007, 30000) ∷ []) 3 key_of_user key_of_user refl (omega arith)
