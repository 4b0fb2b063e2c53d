-- ===== src/Caching.antt =====
-- libs/caching/src/caching.service.ts: `CachingService`, over a Redis store that the program does
-- not implement. Values are kept as they are: the JSON text between is not modelled. A key is a
-- number, since it is only compared; a moment is its milliseconds.
pub mod Memory
use system_chat.Base.{
  ℕ, ◌+◌, ◌*◌, ◌≤◌, ◌<◌, ◌==◌, ◌≡◌, ◌≢◌, refl, Bool-cases, ltb, ltb→lt, inl, inr, Option, some,
  none, arith, if◌then◌else◌,
}

-- What Redis promises of GET, SETEX and DEL on values of type `V`.
pub record Redis (V : Type 0) : Type 1 where
  pub Store : Type 0
  pub get : Store → ℕ → ℕ → Option V
  pub set_ex : Store → ℕ → ℕ → ℕ → V → Store
  pub del : Store → ℕ → Store
  pub get-set_ex_live :
      (s : Store) (now key seconds t : ℕ) (v : V)
      → t < now + seconds * 1000
      → get (set_ex s now key seconds v) t key ≡ some v
  pub get-set_ex_expired :
      (s : Store) (now key seconds t : ℕ) (v : V)
      → now + seconds * 1000 ≤ t
      → get (set_ex s now key seconds v) t key ≡ none
  pub get-set_ex_other :
      (s : Store) (now key seconds t j : ℕ) (v : V)
      → j ≢ key
      → get (set_ex s now key seconds v) t j ≡ get s t j
  pub get-del_self : (s : Store) (key t : ℕ) → get (del s key) t key ≡ none
  pub get-del_other : (s : Store) (key t j : ℕ) → j ≢ key → get (del s key) t j ≡ get s t j

-- One kind of value among all that the store holds. Where `get<A>` meets a value of another kind,
-- the tests that follow it in the code fail as they do on null.
pub record Holds (V A : Type 0) : Type 0 where
  pub inject : A → V
  pub project : V → Option A
  pub project-inject : (a : A) → project (inject a) ≡ some a

abbrev project? : {V A : Type 0} → Holds V A → Option V → Option A
project? holds none = none
project? holds (some v) = holds.project v

module _ {V : Type 0} (redis : Redis V) where
  open redis use {Store, get as redis_get, set_ex, del}

  -- `get`: the value, or null where there is none.
  unfoldable pub get : ℕ → ℕ → Store → Option V
  get now key s = redis_get s now key

  -- `set`: null is not stored.
  unfoldable pub set : ℕ → ℕ → Option V → ℕ → Store → Store
  set now key none exp s = s
  set now key (some v) exp s = set_ex s now key exp v

  unfoldable pub delete : ℕ → Store → Store
  delete key s = del s key

module _ {V : Type 0} (redis : Redis V) where
  pub get-set_live :
      (s : redis.Store) (now key exp t : ℕ) (v : V)
      → t < now + exp * 1000
      → get redis t key (set redis now key (some v) exp s) ≡ some v
  unfolding get set
  get-set_live s now key exp t v h = redis.get-set_ex_live s now key exp t v h

  pub get-delete : (s : redis.Store) (key t : ℕ) → get redis t key (delete redis key s) ≡ none
  unfolding get delete
  get-delete s key t = redis.get-del_self s key t

module _ {V A : Type 0} (redis : Redis V) (holds : Holds V A) where
  -- `get<A>`
  unfoldable pub get_as : ℕ → ℕ → redis.Store → Option A
  get_as now key s = project? holds (get redis now key s)

  -- `set` of an `A`
  unfoldable pub set_as : ℕ → ℕ → A → ℕ → redis.Store → redis.Store
  set_as now key a exp s = set redis now key (some (holds.inject a)) exp s

  -- What was set is read until it expires, and then nothing is.
  pub get_as-set_as :
      (s : redis.Store) (now key exp t : ℕ) (a : A)
      → get_as t key (set_as now key a exp s) ≡ (if ltb t (now + exp * 1000) then some a else none)
  unfolding get_as set_as get set
  get_as-set_as s now key exp t a = elim (Bool-cases (ltb t (now + exp * 1000))) [
    | inl e ↦ rw e (
        rw (redis.get-set_ex_live s now key exp t (holds.inject a) (ltb→lt t (now + exp * 1000) e))
          (holds.project-inject a))
    | inr e ↦
        rw e
          (rw (redis.get-set_ex_expired s now key exp t (holds.inject a) (ground (arith, e))) refl)
  ]

  pub get_as-delete :
      (s : redis.Store) (key t j : ℕ)
      → get_as t j (delete redis key s) ≡ (if j == key then none else get_as t j s)
  unfolding get_as get delete
  get_as-delete s key t j = elim (Bool-cases (j == key)) [
    | inl e ↦
        let same : j ≡ key = ground (arith, e) in
        rw e (rw same (rw (redis.get-del_self s key t) refl))
    | inr e ↦ rw e (rw (redis.get-del_other s key t j (λ same. ground (arith, e, same))) refl)
  ]

  pub get_as-set_other :
      (s : redis.Store) (now key exp t j : ℕ) (v : V)
      → j ≢ key
      → get_as t j (set redis now key (some v) exp s) ≡ get_as t j s
  unfolding get_as get set
  get_as-set_other s now key exp t j v h = rw (redis.get-set_ex_other s now key exp t j v h) refl

module _ {V A B : Type 0} (redis : Redis V) (holds : Holds V A) (other : Holds V B) where
  -- The other keys keep their values.
  pub get_as-set_as_other :
      (s : redis.Store) (now key exp t j : ℕ) (b : B)
      → j ≢ key
      → get_as redis holds t j (set_as redis other now key b exp s) ≡ get_as redis holds t j s
  unfolding get_as set_as get set
  get_as-set_as_other s now key exp t j b h =
      rw (redis.get-set_ex_other s now key exp t j (other.inject b) h) refl

-- A store of one kind of value.
abbrev pub only : (V : Type 0) → Holds V V
only V = record { inject = λ v. v; project = some; project-inject = λ v. refl }
