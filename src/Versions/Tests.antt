-- ===== src/Versions/Tests.antt =====
-- Witnesses for the order of versions.
use system_chat.Base.{ℕ, zero, suc, ◌≤◌, ◌<◌, ◌≡◌, refl, Option, some, List, [], ◌∷◌, negsuc, arith}
use system_chat.Versions.{compare_version}
use system_chat.Versions.Order.{NewerAt, Ties, compare_version_first_difference}

-- 1.4.1 and 1.10
abbrev old_version : List (Option ℕ)
old_version = some 1 ∷ some 4 ∷ some 1 ∷ []

abbrev new_version : List (Option ℕ)
new_version = some 1 ∷ some 10 ∷ []

same_first : (j : ℕ) → 0 ≤ j → j < 1 → Ties j new_version old_version
same_first zero low high = (refl, refl)
same_first (suc j) low high = ground arith

first_level_newer : NewerAt 0 new_version old_version 1
first_level_newer = record { in_range = omega arith; greater = refl; ties_before = same_first }

compare_version_first_difference_example :
    compare_version (some old_version) (some new_version) ≡ negsuc 0
compare_version_first_difference_example =
    (compare_version_first_difference old_version new_version).1 1 first_level_newer
