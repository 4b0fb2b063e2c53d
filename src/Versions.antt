-- ===== src/Versions.antt =====
-- compareVersion of libs/utils/src/utils.service.ts. A version is the list of its levels: what
-- split('.') and parseInt make of a text, `none` where parseInt has no number (NaN).
pub mod Order
mod Tests
use system_chat.Base.{
  ℕ, zero, suc, Bool, true, false, Option, some, none, List, [], ◌∷◌, ℤ, pos, negsuc, ltb, leb,
  length, if◌then◌else◌,
}

-- `i < levels.length ? parseInt(levels[i]) : 0`
abbrev pub level : ℕ → List (Option ℕ) → Option ℕ
level i [] = some 0
level zero (l ∷ levels) = l
level (suc i) (l ∷ levels) = level i levels

-- `a > b`, false where one of them is NaN.
abbrev pub is_greater : Option ℕ → Option ℕ → Bool
is_greater (some a) (some b) = ltb b a
is_greater _ _ = false

abbrev pub max : ℕ → ℕ → ℕ
max a b = if leb a b then b else a

-- The loop, from level `i` on; `n` levels are left.
unfoldable pub compare_levels : ℕ → ℕ → List (Option ℕ) → List (Option ℕ) → ℤ
compare_levels zero i levels1 levels2 = pos 0
compare_levels (suc n) i levels1 levels2 =
    let rest = compare_levels n (suc i) levels1 levels2 in
    if is_greater (level i levels1) (level i levels2)
    then pos 1
    else if is_greater (level i levels2) (level i levels1)
    then negsuc 0
    else rest

-- `compareVersion`; what is no text is `none`.
unfoldable pub compare_version : Option (List (Option ℕ)) → Option (List (Option ℕ)) → ℤ
compare_version (some levels1) (some levels2) =
    compare_levels (max (length levels1) (length levels2)) 0 levels1 levels2
compare_version _ _ = negsuc 0
