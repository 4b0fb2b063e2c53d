-- ===== src/Base/Invariants.antt =====
-- A call keeps a predicate on the state, however it ends. One rule for each way to compose calls.
use mathlib.Core.Path.{◌≡◌, refl}
use native.Mathlib.Omega.{arith}
use system_chat.Base.Monad.{
  Result, ok, err, Effect, after, pure, ◌>>=◌, Session, via_repo, via_tx, close, transaction,
  restore, atomically,
}

module _ {E S A : Type 0} where
  abbrev pub Keeps : (S → Type 0) → Effect E S A → Type 0
  Keeps P m = (s : S) → P s → P (m s).1

module _ {E S A B : Type 0} (P : S → Type 0) where
  Keeps-after :
      (r : Result E A) (f : A → Effect E S B) → ((a : A) → Keeps P (f a)) → Keeps P (after r f)
  Keeps-after (ok a) f h s p = h a s p
  Keeps-after (err e) f h s p = p

  pub Keeps-bind :
      (m : Effect E S A) (f : A → Effect E S B)
      → Keeps P m
      → ((a : A) → Keeps P (f a))
      → Keeps P (m >>= f)
  Keeps-bind m f hm hf s p = Keeps-after (m s).0 f hf (m s).1 (hm s p)

  -- What holds after a call stays, if what follows keeps it.
  pub then_keeps :
      (m : Effect E S A) (f : A → Effect E S B) (s : S)
      → P (m s).1
      → ((a : A) → Keeps P (f a))
      → P ((m >>= f) s).1
  then_keeps m f s here hf = Keeps-after (m s).0 f hf (m s).1 here

-- What holds of the state after a call that only reads or throws, and what follows it; and after
-- a call whose answer is replaced.
module _ {E S A B : Type 0} (Q : S → Type 0) (s : S) where
  ends_after :
      (r : Result E A) (t : S) (k : A → Effect E S B)
      → t ≡ s
      → Q s
      → ((a : A) → Q (k a s).1)
      → Q (after r k t).1
  ends_after (ok a) t k e here next = rw e (next a)
  ends_after (err x) t k e here next = rw e here

  pub read_first :
      (m : Effect E S A) (k : A → Effect E S B)
      → (m s).1 ≡ s
      → Q s
      → ((a : A) → Q (k a s).1)
      → Q ((m >>= k) s).1
  read_first m k e here next = ends_after (m s).0 (m s).1 k e here next

  answered : (r : Result E A) (t : S) (b : B) → (after r (λ _. pure b) t).1 ≡ t
  answered (ok a) t b = refl
  answered (err x) t b = refl

  pub answer_last : (m : Effect E S A) (b : B) → Q (m s).1 → Q ((m >>= λ _. pure b) s).1
  answer_last m b here = rw (answered (m s).0 (m s).1 b) here

-- What holds of the result and the state of a call that succeeds.
module _ {E S A : Type 0} where
  abbrev pub Yields : (A → S → Type 0) → Effect E S A → Type 0
  Yields Q m = (s s' : S) (a : A) → m s ≡ (ok a, s') → Q a s'

module _ {E S A B : Type 0} (Q : B → S → Type 0) where
  Yields-after :
      (r : Result E A) (t s' : S) (b : B) (f : A → Effect E S B)
      → ((a : A) → Yields Q (f a))
      → after r f t ≡ (ok b, s')
      → Q b s'
  Yields-after (ok a) t s' b f h e = h a t s' b e
  Yields-after (err x) t s' b f h e = absurd (ground (arith, e))

  -- The last call decides.
  pub Yields-bind :
      (m : Effect E S A) (f : A → Effect E S B) → ((a : A) → Yields Q (f a)) → Yields Q (m >>= f)
  Yields-bind m f h s s' b e = Yields-after (m s).0 (m s).1 s' b f h e

-- Inside a transaction the committed state is fit, and commits to a fit state.
abbrev pub IsFit : {S : Type 0} → (S → Type 0) → Session S → Type 0
IsFit {S} P t = P t.committed × ((d : S) → P d → P (t.pending d))

module _ {E S A : Type 0} (P : S → Type 0) (m : Effect E S A) where
  pub Keeps-via_repo : Keeps P m → Keeps (IsFit P) (via_repo m)
  Keeps-via_repo h t p = (h t.committed p.0, p.1)

  pub Keeps-via_tx : Keeps P m → Keeps (IsFit P) (via_tx m)
  Keeps-via_tx h t p = (p.0, λ d q. h (t.pending d) (p.1 d q))

  restore_lem : (r : Result E A) (s t : S) → P s → P t → P (restore r s t).1
  restore_lem (ok a) s t p q = q
  restore_lem (err e) s t p q = p

  pub Keeps-atomically : Keeps P m → Keeps P (atomically m)
  Keeps-atomically h s p = restore_lem (m s).0 s (m s).1 p (h s p)

module _ {E S A : Type 0} (P : S → Type 0) (m : Effect E (Session S) A) where
  close_lem : (r : Result E A) (t : Session S) → IsFit P t → P (close r t).1
  close_lem (ok a) t p = p.1 t.committed p.0
  close_lem (err e) t p = p.0

  pub Keeps-transaction : Keeps (IsFit P) m → Keeps P (transaction m)
  Keeps-transaction h s p =
      let t : Session S = record { committed = s; pending = λ d. d } in
      close_lem (m t).0 (m t).1 (h t (p, λ d q. q))
