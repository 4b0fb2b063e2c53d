-- ===== src/Pool/Ledger.antt =====
-- The histories of the pool account for its eggs and its BBC, under every sequence of calls.
use system_chat.Base.{
  ℕ, ◌==◌, ◌≡◌, ap, ◌∙◌, Bool-cases, inl, inr, List, [], ◌∷◌, ◌++◌, ℤ, pos, pos_part, neg_part,
  ◌+ℤ◌, ◌-ℤ◌, int_laws, All, update_where, if◌then◌else◌,
}
use system_chat.Pool.{PoolValue, PoolHistory, PoolDb, has_id}

abbrev pub net : ℕ → PoolHistory → ℤ
net id entry = if id == entry.pool_id then entry.in_value -ℤ entry.out_value else pos 0

-- What has come into a pool by its history, less what has gone out.
abbrev pub flow : ℕ → List PoolHistory → ℤ
flow id [] = pos 0
flow id (entry ∷ entries) = net id entry +ℤ flow id entries

flow-append :
    (id : ℕ) (entry : PoolHistory) (entries : List PoolHistory)
    → flow id (entries ++ entry ∷ []) ≡ flow id entries +ℤ net id entry
flow-append id entry [] = omega int_laws
flow-append id entry (x ∷ xs) =
    let ih = flow-append id entry xs in omega (int_laws, ap pos_part ih, ap neg_part ih)

module _ (eggs bbc : ℕ → ℤ) where
  -- A pool's two values are what it opened with and what its histories say.
  abbrev pub IsExplained : (ℕ → ℤ) → (ℕ → ℤ) → PoolValue → Type 0
  IsExplained egg_flow bbc_flow row =
      (row.egg_value ≡ eggs row.id +ℤ egg_flow row.id)
      × (row.bbc_value ≡ bbc row.id +ℤ bbc_flow row.id)

  abbrev pub IsBooked : PoolDb → Type 0
  IsBooked s =
      All (IsExplained (λ id. flow id s.egg_histories) (λ id. flow id s.bbc_histories))
        s.pool_values

-- A change of a row by an amount of eggs and an amount of BBC.
abbrev pub Shifts : ℤ → ℤ → (PoolValue → PoolValue) → Type 0
Shifts egg bbc change =
    (row : PoolValue)
    → ((change row).id ≡ row.id)
      × ((change row).egg_value ≡ row.egg_value +ℤ egg)
      × ((change row).bbc_value ≡ row.bbc_value +ℤ bbc)

abbrev pub Grows : ℕ → ℤ → List PoolHistory → List PoolHistory → Type 0
Grows id amount before after =
    (k : ℕ) → flow k after ≡ flow k before +ℤ (if k == id then amount else pos 0)

shift-eq : (v start f f' d w : ℤ) → w ≡ v +ℤ d → v ≡ start +ℤ f → f' ≡ f +ℤ d → w ≡ start +ℤ f'
shift-eq v start f f' d w p q r = rw p (rw q (rw r (omega int_laws)))

module _ (eggs bbc : ℕ → ℤ) (id : ℕ) (d_egg d_bbc : ℤ) (s t : PoolDb)
    (change : PoolValue → PoolValue) (shifts : Shifts d_egg d_bbc change)
    (egg_grows : Grows id d_egg s.egg_histories t.egg_histories)
    (bbc_grows : Grows id d_bbc s.bbc_histories t.bbc_histories) where
  abbrev pub Before : PoolValue → Type 0
  Before = IsExplained eggs bbc (λ k. flow k s.egg_histories) (λ k. flow k s.bbc_histories)

  abbrev pub After : PoolValue → Type 0
  After = IsExplained eggs bbc (λ k. flow k t.egg_histories) (λ k. flow k t.bbc_histories)

  row-After : (x : PoolValue) → Before x → After (if has_id id x then change x else x)
  row-After x (egg, b) =
      let eg = egg_grows x.id in
      let bg = bbc_grows x.id in
      let (same, de, db) = shifts x in
      elim (Bool-cases (x.id == id)) [
        | inl hit ↦ rw hit (
          rw same (
              shift-eq x.egg_value (eggs x.id) _ _ d_egg (change x).egg_value de egg
                (rw hit at eg)),
          rw same
              (shift-eq x.bbc_value (bbc x.id) _ _ d_bbc (change x).bbc_value db b (rw hit at bg)),
        )
        | inr miss ↦ rw miss (
          shift-eq x.egg_value (eggs x.id) _ _ (pos 0) x.egg_value (omega int_laws) egg
              (rw miss at eg),
          shift-eq x.bbc_value (bbc x.id) _ _ (pos 0) x.bbc_value (omega int_laws) b
              (rw miss at bg),
        )
      ]

  rows-After :
      (xs : List PoolValue) → All Before xs → All After (update_where (has_id id) change xs)
  rows-After [] h = tt
  rows-After (x ∷ xs) h = (row-After x h.0, rows-After xs h.1)

  pub IsBooked-change :
      t.pool_values ≡ update_where (has_id id) change s.pool_values
      → IsBooked eggs bbc s
      → IsBooked eggs bbc t
  IsBooked-change same h = rw same (rows-After s.pool_values h)

-- One history entry of the pool.
pub Grows-append :
    (id : ℕ) (entry : PoolHistory) (entries : List PoolHistory) (d : ℤ)
    → entry.pool_id ≡ id
    → entry.in_value -ℤ entry.out_value ≡ d
    → Grows id d entries (entries ++ entry ∷ [])
Grows-append id entry entries d same amount k =
    flow-append k entry entries ∙ ap (λ n. flow k entries +ℤ n) (rw (same, amount))

pub Grows-same : (id : ℕ) (entries : List PoolHistory) → Grows id (pos 0) entries entries
Grows-same id entries k = elim (Bool-cases (k == id)) [
  | inl hit ↦ rw hit (omega int_laws)
  | inr miss ↦ rw miss (omega int_laws)
]

-- Two databases with the same pools and the same histories of eggs and of BBC.
abbrev pub SamePools : PoolDb → PoolDb → Type 0
SamePools s t =
    (t.pool_values ≡ s.pool_values)
    × (t.egg_histories ≡ s.egg_histories)
    × (t.bbc_histories ≡ s.bbc_histories)

pub IsBooked-same :
    (eggs bbc : ℕ → ℤ) (s t : PoolDb) → SamePools s t → IsBooked eggs bbc s → IsBooked eggs bbc t
IsBooked-same eggs bbc s t same h = rw (same.0, same.1, same.2) h
