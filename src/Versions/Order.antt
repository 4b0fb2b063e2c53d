-- ===== src/Versions/Order.antt =====
-- compareVersion decides by the first level at which two versions differ.
use system_chat.Base.{
  ℕ, zero, suc, ◌+◌, ◌≤◌, ◌<◌, ◌≡◌, ◌⊎◌, inl, inr, ◌∙◌, refl, sym, true, false, Option, some, none,
  List, [], ◌∷◌, pos, negsuc, length, Bool-cases, arith,
}
use system_chat.Versions.{level, is_greater, max, compare_levels, compare_version}

-- Neither is greater: equal, or no number.
abbrev pub Ties : ℕ → List (Option ℕ) → List (Option ℕ) → Type 0
Ties i v w =
    (is_greater (level i v) (level i w) ≡ false) × (is_greater (level i w) (level i v) ≡ false)

-- `v` is the newer version at its level `i`, counted from `from`, and no level before decides.
pub record NewerAt (from : ℕ) (v w : List (Option ℕ)) (i : ℕ) : Type 0 where
  pub in_range : from ≤ i
  pub greater : is_greater (level i v) (level i w) ≡ true
  pub ties_before : (j : ℕ) → from ≤ j → j < i → Ties j v w

split_le : (i k : ℕ) → i ≤ k → (i ≡ k) ⊎ (suc i ≤ k)
split_le i k h = ground arith

is_greater-asym : (a b : Option ℕ) → is_greater a b ≡ true → is_greater b a ≡ false
is_greater-asym none b h = ground arith
is_greater-asym (some a) none h = ground arith
is_greater-asym (some a) (some b) h = ground arith

level_beyond : (i : ℕ) (v : List (Option ℕ)) → length v ≤ i → level i v ≡ some 0
level_beyond i [] h = refl
level_beyond zero (l ∷ v) h = ground arith
level_beyond (suc i) (l ∷ v) h = level_beyond i v (omega arith)

rest_NewerAt :
    (i k : ℕ) (v w : List (Option ℕ))
    → is_greater (level i v) (level i w) ≡ false
    → NewerAt i v w k
    → NewerAt (suc i) v w k
rest_NewerAt i k v w h newer = elim (split_le i k newer.in_range) [
  | inl e ↦ ground (arith, newer.greater)
  | inr lt ↦ record {
    in_range = lt;
    greater = newer.greater;
    ties_before = λ j a b. newer.ties_before j (omega (arith, a)) b;
  }
]

newer_decides :
    (n i k : ℕ) (v w : List (Option ℕ))
    → NewerAt i v w k
    → k < i + n
    → compare_levels n i v w ≡ pos 1
unfolding compare_levels
newer_decides zero i k v w newer h = ground (arith, newer.in_range)
newer_decides (suc n) i k v w newer h = elim (Bool-cases (is_greater (level i v) (level i w))) [
  | inl e ↦ rw e refl
  | inr e ↦
      let later = rest_NewerAt i k v w e newer in
      let (_, tie) = newer.ties_before i (omega arith) later.in_range in
      rw (e, tie) (newer_decides n (suc i) k v w later (omega arith))
]

older_decides :
    (n i k : ℕ) (v w : List (Option ℕ))
    → NewerAt i w v k
    → k < i + n
    → compare_levels n i v w ≡ negsuc 0
unfolding compare_levels
older_decides zero i k v w older h = ground (arith, older.in_range)
older_decides (suc n) i k v w older h = elim (Bool-cases (is_greater (level i w) (level i v))) [
  | inl e ↦ rw (is_greater-asym (level i w) (level i v) e, e) refl
  | inr e ↦
      let later = rest_NewerAt i k w v e older in
      let (_, tie) = older.ties_before i (omega arith) later.in_range in
      rw (tie, e) (older_decides n (suc i) k v w later (omega arith))
]

compare_levels-Ties :
    (n i : ℕ) (v w : List (Option ℕ)) → ((j : ℕ) → Ties j v w) → compare_levels n i v w ≡ pos 0
unfolding compare_levels
compare_levels-Ties zero i v w ties = refl
compare_levels-Ties (suc n) i v w ties =
    let (not_newer, not_older) = ties i in
    rw (not_newer, not_older) (compare_levels-Ties n (suc i) v w ties)

within :
    (k : ℕ) (v w : List (Option ℕ))
    → is_greater (level k v) (level k w) ≡ true
    → (k < max (length v) (length w)) × (k < max (length w) (length v))
within k v w greater =
    let beyond : length v ≤ k → length w ≤ k → true ≡ false =
      λ hv hw. sym greater ∙ rw (level_beyond k v hv, level_beyond k w hw) refl in
    ground (arith, beyond)

-- The first level at which one of two versions is greater decides; a version that has no such level
-- counts 0 there. Without one the versions count as equal.
pub compare_version_first_difference :
    (v w : List (Option ℕ))
    → ((i : ℕ) → NewerAt 0 v w i → compare_version (some v) (some w) ≡ pos 1)
      × ((i : ℕ) → NewerAt 0 w v i → compare_version (some v) (some w) ≡ negsuc 0)
      × (((i : ℕ) → Ties i v w) → compare_version (some v) (some w) ≡ pos 0)
unfolding compare_version
compare_version_first_difference v w = (
  (λ i newer.
      newer_decides (max (length v) (length w)) 0 i v w newer
        (omega (arith, within i v w newer.greater))),
  (λ i older.
      older_decides (max (length v) (length w)) 0 i v w older
        (omega (arith, within i w v older.greater))),
  compare_levels-Ties (max (length v) (length w)) 0 v w,
)
