-- ===== src/Cms/Commissions/Rates.antt =====
-- The ranges of `COMMISSION_RATE` on a sum of commissions, and on the partner's share of it.
use system_chat.Base.{ℕ, ◌*◌, ◌≤◌, ◌<◌, ◌≡◌, refl, leb, Bool-cases, inl, inr, some, arith}
use system_chat.Cms.Commissions.{CommissionRate, find_rate, calculate_commission}

-- The share of a whole amount in one of the ranges.
share_up_to_2 :
    (total : ℕ) → 1 ≤ total → total < 200000000 → calculate_commission total ≡ some (total * 50)
unfolding calculate_commission find_rate
share_up_to_2 total low high = ground (arith, low, high)

share_up_to_3 :
    (total : ℕ)
    → 200000000 ≤ total
    → total < 300000000
    → calculate_commission total ≡ some (total * 55)
unfolding calculate_commission find_rate
share_up_to_3 total low high = ground (arith, low, high)

share_up_to_4 :
    (total : ℕ)
    → 300000000 ≤ total
    → total < 400000000
    → calculate_commission total ≡ some (total * 60)
unfolding calculate_commission find_rate
share_up_to_4 total low high = ground (arith, low, high)

share_up_to_5 :
    (total : ℕ)
    → 400000000 ≤ total
    → total < 500000000
    → calculate_commission total ≡ some (total * 65)
unfolding calculate_commission find_rate
share_up_to_5 total low high = ground (arith, low, high)

share_above_5 : (total : ℕ) → 500000000 ≤ total → calculate_commission total ≡ some (total * 70)
unfolding calculate_commission find_rate
share_above_5 total low = ground (arith, low)

-- The share of a positive sum of commissions is defined, and between half of it and 70 hundredths.
pub calculate_commission_bounds :
    (total : ℕ)
    → 1 ≤ total
    → (share : ℕ) × (calculate_commission total ≡ some share)
      × (total * 50 ≤ share)
      × (share ≤ total * 70)
calculate_commission_bounds total h = elim (Bool-cases (leb 300000000 total)) [
  | inl three ↦ elim (Bool-cases (leb 400000000 total)) [
    | inl four ↦ elim (Bool-cases (leb 500000000 total)) [
      | inl five ↦
          (total * 70, share_above_5 total (ground (arith, five)), omega arith, omega arith)
      | inr below ↦ (
        total * 65,
        share_up_to_5 total (ground (arith, four)) (ground (arith, below)),
        omega arith,
        omega arith,
      )
    ]
    | inr below ↦ (
      total * 60,
      share_up_to_4 total (ground (arith, three)) (ground (arith, below)),
      omega arith,
      omega arith,
    )
  ]
  | inr below ↦ elim (Bool-cases (leb 200000000 total)) [
    | inl two ↦ (
      total * 55,
      share_up_to_3 total (ground (arith, two)) (ground (arith, below)),
      omega arith,
      omega arith,
    )
    | inr below' ↦
        (total * 50, share_up_to_2 total h (ground (arith, below')), omega arith, omega arith)
  ]
]

-- The rate that is stored as paid is looked up by the share and not by the sum: in the second range
-- the partner is told 55 hundredths, and each commission is stored with 50.
pub find_rate-calculate_commission :
    (total : ℕ)
    → 200000000 ≤ total
    → total < 300000000
    → (share : ℕ) × (r : CommissionRate) × (calculate_commission total ≡ some share)
      × (share ≡ total * 55)
      × (find_rate share ≡ some r)
      × (r.value ≡ 50)
unfolding find_rate
find_rate-calculate_commission total low high = (
  total * 55,
  record { min = 1; max = some 199999999; value = 50 },
  share_up_to_3 total low high,
  refl,
  ground (arith, low, high),
  refl,
)
