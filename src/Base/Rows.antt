-- ===== src/Base/Rows.antt =====
-- A table is the list of its rows, the oldest first. Queries by a test on the row.
use Prim.Native.Nat.{ℕ, zero, suc, ◌+◌, ◌≤◌}
use mathlib.Core.Path.{◌≡◌, refl, subst}
use mathlib.Core.Bool.{Bool, true, false}
use mathlib.Core.Logic.{◌≢◌, inl, inr}
use mathlib.Core.Option.{Option, none, some}
use mathlib.Core.List.{List, [], ◌∷◌, ◌++◌}
use native.Mathlib.Omega.{arith}
use system_chat.Base.Tests.{if◌then◌else◌, Bool-cases}

module _ {ℓ} {A : Type ℓ} where
  abbrev pub length : List A → ℕ
  length [] = 0
  length (x ∷ xs) = suc (length xs)

  abbrev pub take : ℕ → List A → List A
  take zero xs = []
  take (suc n) [] = []
  take (suc n) (x ∷ xs) = x ∷ take n xs

  abbrev pub drop : ℕ → List A → List A
  drop zero xs = xs
  drop (suc n) [] = []
  drop (suc n) (x ∷ xs) = drop n xs

  -- `findFirst`, `findUnique`
  abbrev pub find? : (A → Bool) → List A → Option A
  find? p [] = none
  find? p (x ∷ xs) = if p x then some x else find? p xs

  -- `findMany`
  unfoldable pub select_where : (A → Bool) → List A → List A
  select_where p [] = []
  select_where p (x ∷ xs) = if p x then x ∷ select_where p xs else select_where p xs

  -- `count`
  abbrev pub count_where : (A → Bool) → List A → ℕ
  count_where p [] = 0
  count_where p (x ∷ xs) = (if p x then 1 else 0) + count_where p xs

  -- `updateMany`; on a unique key also `update`
  abbrev pub update_where : (A → Bool) → (A → A) → List A → List A
  update_where p f [] = []
  update_where p f (x ∷ xs) = (if p x then f x else x) ∷ update_where p f xs

  pub length-select_where :
      (p : A → Bool) (xs : List A) → length (select_where p xs) ≡ count_where p xs
  unfolding select_where
  length-select_where p [] = refl
  length-select_where p (x ∷ xs) = ground (arith, length-select_where p xs)

  -- The row that a query finds passes its test.
  pub find?_sound : (p : A → Bool) (a : A) (xs : List A) → find? p xs ≡ some a → p a ≡ true
  find?_sound p a [] h = ground arith
  find?_sound p a (x ∷ xs) h = ground (arith, find?_sound p a xs)

  -- A row that is found is counted.
  pub count_where_of_find? :
      (p : A → Bool) (a : A) (xs : List A) → find? p xs ≡ some a → count_where p xs ≢ 0
  count_where_of_find? p a [] h = ground arith
  count_where_of_find? p a (x ∷ xs) h = ground (arith, count_where_of_find? p a xs)

  -- An update that keeps the test keeps the count.
  pub count_where-update_where :
      (p : A → Bool) (f : A → A) (xs : List A)
      → ((x : A) → p x ≡ true → p (f x) ≡ true)
      → count_where p (update_where p f xs) ≡ count_where p xs
  count_where-update_where p f [] h = refl
  count_where-update_where p f (x ∷ xs) h = ground (arith, h x, count_where-update_where p f xs h)

  -- The first row that is updated is the one that was found.
  pub find?-update_where :
      (p : A → Bool) (f : A → A) (a : A) (xs : List A)
      → ((x : A) → p x ≡ true → p (f x) ≡ true)
      → find? p xs ≡ some a
      → find? p (update_where p f xs) ≡ some (f a)
  find?-update_where p f a [] h e = ground arith
  find?-update_where p f a (x ∷ xs) h e = ground (arith, h x, find?-update_where p f a xs h)

module _ {ℓ} {A : Type ℓ} where
  -- Another test finds the updated row, if only rows under the update's test can pass it, and do.
  pub find?-update_where_implied :
      (p q : A → Bool) (f : A → A) (a : A) (xs : List A)
      → ((x : A) → q x ≡ true → p x ≡ true)
      → ((x : A) → p x ≡ true → q (f x) ≡ true)
      → find? p xs ≡ some a
      → find? q (update_where p f xs) ≡ some (f a)
  find?-update_where_implied p q f a [] back forth e = ground arith
  find?-update_where_implied p q f a (x ∷ xs) back forth e =
      ground (arith, back x, forth x, find?-update_where_implied p q f a xs back forth)

  -- A new row is found by what no row before it passes.
  pub find?-append :
      (p : A → Bool) (a : A) (xs : List A)
      → find? p xs ≡ none
      → p a ≡ true
      → find? p (xs ++ a ∷ []) ≡ some a
  find?-append p a [] h e = ground arith
  find?-append p a (x ∷ xs) h e = ground (arith, find?-append p a xs)

  -- An update that does not change a test keeps its count.
  pub count_where-update_where_kept :
      (p q : A → Bool) (f : A → A) (xs : List A)
      → ((x : A) → p x ≡ true → q (f x) ≡ q x)
      → count_where q (update_where p f xs) ≡ count_where q xs
  count_where-update_where_kept p q f [] h = refl
  count_where-update_where_kept p q f (x ∷ xs) h =
      ground (arith, h x, count_where-update_where_kept p q f xs h)

  pub find?_of_count_zero :
      (p q : A → Bool) (xs : List A)
      → ((x : A) → q x ≡ true → p x ≡ true)
      → count_where p xs ≡ 0
      → find? q xs ≡ none
  find?_of_count_zero p q [] imp h = refl
  find?_of_count_zero p q (x ∷ xs) imp h = ground (arith, imp x, find?_of_count_zero p q xs imp)

  pub count_where-append :
      (p : A → Bool) (a : A) (xs : List A)
      → count_where p (xs ++ a ∷ []) ≡ count_where p xs + (if p a then 1 else 0)
  count_where-append p a [] = omega arith
  count_where-append p a (x ∷ xs) = omega (arith, count_where-append p a xs)

  -- A query after a new row that no row before it can stand for.
  pub find?-append_new :
      (p : A → Bool) (a : A) (xs : List A)
      → find? p (xs ++ a ∷ [])
        ≡ elim (find? p xs) [ none ↦ if p a then some a else none | some x ↦ some x ]
  find?-append_new p a [] = ground arith
  find?-append_new p a (x ∷ xs) = ground (arith, find?-append_new p a xs)

module _ {ℓ κ} {A : Type ℓ} where
  abbrev pub All : (A → Type κ) → List A → Type κ
  All P [] = Unit
  All P (x ∷ xs) = P x × All P xs

  pub All-find? :
      (P : A → Type κ) (p : A → Bool) (a : A) (xs : List A) → All P xs → find? p xs ≡ some a → P a
  All-find? P p a [] h e = absurd (ground arith)
  All-find? P p a (x ∷ xs) h e = elim (Bool-cases (p x)) [
    | inl here ↦ let same : x ≡ a = ground arith in subst P same h.0
    | inr later ↦ All-find? P p a xs h.1 (ground arith)
  ]

  pub All-append : (P : A → Type κ) (a : A) (xs : List A) → All P xs → P a → All P (xs ++ a ∷ [])
  All-append P a [] h pa = (pa, tt)
  All-append P a (x ∷ xs) h pa = (h.0, All-append P a xs h.1 pa)

  -- Where at most one row passes a test, a query that implies it finds the row of the test.
  pub find?_of_unique :
      (P : A → Type κ) (p q : A → Bool) (a : A) (xs : List A)
      → All P xs
      → ((x : A) → P x → q x ≡ true → p x ≡ true)
      → count_where p xs ≤ 1
      → find? q xs ≡ some a
      → find? p xs ≡ some a
  find?_of_unique P p q a [] all imp one e = absurd (ground arith)
  find?_of_unique P p q a (x ∷ xs) all imp one e = elim (Bool-cases (p x)) [
    | inl hit ↦ elim (Bool-cases (q x)) [
      | inl found ↦ ground arith
      | inr other ↦
          let later : find? q xs ≡ some a = ground arith in
          let absent : count_where p xs ≤ 0 = ground arith in
          let found = find?_of_unique P p q a xs all.1 imp (omega arith) later in
          absurd (omega (arith, count_where_of_find? p a xs found))
    ]
    | inr miss ↦
        let skipped : q x ≡ false = ground (arith, imp x all.0) in
        let later : find? q xs ≡ some a = ground arith in
        let one' : count_where p xs ≤ 1 = ground arith in
        rw miss (find?_of_unique P p q a xs all.1 imp one' later)
  ]
