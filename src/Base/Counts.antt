-- ===== src/Base/Counts.antt =====
-- The number of rows that pass a test, in a part of a table or among the rows of a query.
use Prim.Native.Nat.{ℕ, zero, suc, ◌+◌, ◌≤◌}
use mathlib.Core.Path.{◌≡◌, refl}
use mathlib.Core.Bool.{Bool, true, ◌&&◌}
use mathlib.Core.List.{List, [], ◌∷◌, ◌++◌}
use native.Mathlib.Omega.{arith}
use system_chat.Base.Tests.{◌==◌}
use system_chat.Base.Rows.{length, take, drop, count_where, select_where}

module _ {ℓ} {A : Type ℓ} where
  pub count_where-select_where :
      (p q : A → Bool) (xs : List A)
      → count_where p (select_where q xs) ≡ count_where (λ x. q x && p x) xs
  unfolding select_where
  count_where-select_where p q [] = refl
  count_where-select_where p q (x ∷ xs) = ground (arith, count_where-select_where p q xs)

  pub count_where-join :
      (p : A → Bool) (xs ys : List A)
      → count_where p (xs ++ ys) ≡ count_where p xs + count_where p ys
  count_where-join p [] ys = omega arith
  count_where-join p (x ∷ xs) ys = omega (arith, count_where-join p xs ys)

  pub count_where-length : (p : A → Bool) (xs : List A) → count_where p xs ≤ length xs
  count_where-length p [] = omega arith
  count_where-length p (x ∷ xs) = ground (arith, count_where-length p xs)

  count_where-take_none : (p : A → Bool) (n : ℕ) → count_where p (take n []) ≡ 0
  count_where-take_none p zero = refl
  count_where-take_none p (suc n) = refl

  -- The rows of a query come in two parts.
  pub count_where-take-drop :
      (p : A → Bool) (m n : ℕ) (xs : List A)
      → count_where p (take (m + n) xs)
        ≡ count_where p (take m xs) + count_where p (take n (drop m xs))
  count_where-take-drop p zero n xs = ground arith
  count_where-take-drop p (suc m) n [] =
      ground (arith, count_where-take_none p (suc m + n), count_where-take_none p n)
  count_where-take-drop p (suc m) n (x ∷ xs) =
      let step : suc m + n ≡ suc (m + n) = omega arith in
      rw step (omega (arith, count_where-take-drop p m n xs))

  pub count_where-take_all :
      (p : A → Bool) (n : ℕ) (xs : List A)
      → length xs ≤ n
      → count_where p (take n xs) ≡ count_where p xs
  count_where-take_all p zero [] h = refl
  count_where-take_all p (suc n) [] h = refl
  count_where-take_all p zero (x ∷ xs) h = ground (arith, h)
  count_where-take_all p (suc n) (x ∷ xs) h =
      ground (arith, count_where-take_all p n xs (omega (arith, h)))

  pub count_where_implied :
      (p q : A → Bool) (xs : List A)
      → ((x : A) → q x ≡ true → p x ≡ true)
      → count_where p xs ≡ 0
      → count_where q xs ≡ 0
  count_where_implied p q [] imp h = refl
  count_where_implied p q (x ∷ xs) imp h = ground (arith, imp x, h, count_where_implied p q xs imp)

  -- No row is without a row that it is related to, where each is related to itself.
  pub count_where_related :
      (p : A → Bool) (r : A → A → Bool) (xs : List A)
      → ((x : A) → p x ≡ true → r x x ≡ true)
      → count_where (λ x. p x && count_where (r x) xs == 0) xs ≡ 0
  count_where_related p r [] own = refl
  count_where_related p r (x ∷ xs) own =
      let rest =
        count_where_implied (λ y. p y && count_where (r y) xs == 0)
          (λ y. p y && count_where (r y) (x ∷ xs) == 0) xs (λ y h. ground (arith, h))
          (count_where_related p r xs own) in
      ground (arith, rest, own x)
