-- ===== src/Base/Monad.antt =====
-- Asynchronous code as state passing with errors. A rejected promise keeps what was written
-- before it. An interactive transaction of Prisma has a client of its own: what goes through
-- that client waits until the transaction commits, and is dropped when its callback throws; what
-- goes through the repository's client is committed at once, in or out of a transaction.
use mathlib.Core.Path.{◌≡◌, refl}
use mathlib.Core.Logic.{◌⊎◌, inl, inr}
use mathlib.Core.Bool.{Bool, true, false}
use mathlib.Core.Option.{Option, none, some}
use system_chat.Base.Tests.{if◌then◌else◌}

pub data Result {ℓ} (E A : Type ℓ) : Type ℓ where
  ok : A → Result E A
  err : E → Result E A

abbrev pub is_ok {ℓ} : {E A : Type ℓ} → Result E A → Bool
is_ok (ok a) = true
is_ok (err e) = false

pub Result-cases {ℓ} :
    {E A : Type ℓ} (r : Result E A) → ((e : E) × (r ≡ err e)) ⊎ ((a : A) × (r ≡ ok a))
Result-cases (err e) = inl (e, refl)
Result-cases (ok a) = inr (a, refl)

-- What runs on the state `S` and returns an `A` or throws an `E`.
abbrev pub Effect : Type 0 → Type 0 → Type 0 → Type 0
Effect E S A = S → Result E A × S

abbrev found {ℓ} : {E A : Type ℓ} → Option A → E → Result E A
found none e = err e
found (some a) e = ok a

module _ {E S A : Type 0} where
  abbrev pub pure : A → Effect E S A
  pure a s = (ok a, s)

  abbrev pub raise : E → Effect E S A
  raise e s = (err e, s)

  abbrev pub gets : (S → A) → Effect E S A
  gets f s = (ok (f s), s)

  abbrev pub or_raise : Option A → E → Effect E S A
  or_raise o e s = (found o e, s)

module _ {E S : Type 0} where
  -- What follows a call: the rest on its result, or nothing after an error.
  abbrev pub after : {A B : Type 0} → Result E A → (A → Effect E S B) → Effect E S B
  after (ok a) f s = f a s
  after (err e) f s = (err e, s)

  infixl 5 ◌>>=◌ ◌>>◌
  abbrev pub ◌>>=◌ : {A B : Type 0} → Effect E S A → (A → Effect E S B) → Effect E S B
  ◌>>=◌ m f s = let (r, s') = m s in after r f s'

  abbrev pub ◌>>◌ : {A B : Type 0} → Effect E S A → Effect E S B → Effect E S B
  m >> k = m >>= λ _. k

  abbrev pub modify : (S → S) → Effect E S (Unit {0})
  modify f s = (ok tt, f s)

  -- `if (c) throw e`
  abbrev pub raise_if : Bool → E → Effect E S (Unit {0})
  raise_if c e s = (if c then err e else ok tt, s)

  -- `if (c) { m }`
  abbrev pub when : Bool → Effect E S (Unit {0}) → Effect E S (Unit {0})
  when true m s = m s
  when false m s = (ok tt, s)

-- The two views of the database inside the callback of an interactive transaction.
pub record Session (S : Type 0) : Type 0 where
  pub committed : S
  pub pending : S → S

module _ {E S A : Type 0} where
  -- A call through `this._repo`.
  abbrev pub via_repo : Effect E S A → Effect E (Session S) A
  via_repo m t = let (r, s) = m t.committed in (r, record t { committed = s })

  -- A call through the callback's argument `prisma`.
  abbrev pub via_tx : Effect E S A → Effect E (Session S) A
  via_tx m t = ((m (t.pending t.committed)).0, record t { pending = λ d. (m (t.pending d)).1 })

  abbrev pub close : Result E A → Session S → Result E A × S
  close (ok a) t = (ok a, t.pending t.committed)
  close (err e) t = (err e, t.committed)

  -- `$transaction(async (prisma) => …)`
  abbrev pub transaction : Effect E (Session S) A → Effect E S A
  transaction m s = let (r, t) = m (record { committed = s; pending = λ d. d }) in close r t

  abbrev pub restore : Result E A → S → S → Result E A × S
  restore (ok a) before after = (ok a, after)
  restore (err e) before after = (err e, before)

  -- `$transaction([…])`: all of the operations or none.
  abbrev pub atomically : Effect E S A → Effect E S A
  atomically m s = let (r, s') = m s in restore r s s'
