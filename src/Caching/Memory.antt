-- ===== src/Caching/Memory.antt =====
-- A Redis store in memory, which keeps the promises: the entries with the moments they expire at.
use system_chat.Base.{
  ℕ, ◌+◌, ◌*◌, ◌<◌, ◌≤◌, ◌==◌, ◌≡◌, ◌≢◌, refl, Option, some, none, List, [], ◌∷◌, ltb, arith,
  if◌then◌else◌,
}
use system_chat.Caching.{Redis}

module _ {V : Type 0} where
  abbrev pub find_live : List (ℕ × ℕ × V) → ℕ → ℕ → Option V
  find_live [] now key = none
  find_live ((k, expires, v) ∷ entries) now key =
      if k == key then (if ltb now expires then some v else none) else find_live entries now key

  abbrev pub remove : List (ℕ × ℕ × V) → ℕ → List (ℕ × ℕ × V)
  remove [] key = []
  remove ((k, expires, v) ∷ entries) key =
      let rest = remove entries key in if k == key then rest else (k, expires, v) ∷ rest

  pub find_live-remove_self :
      (s : List (ℕ × ℕ × V)) (key t : ℕ) → find_live (remove s key) t key ≡ none
  find_live-remove_self [] key t = refl
  find_live-remove_self ((k, e, v) ∷ s) key t = ground (arith, find_live-remove_self s key t)

  pub find_live-remove_other :
      (s : List (ℕ × ℕ × V)) (key t j : ℕ)
      → j ≢ key
      → find_live (remove s key) t j ≡ find_live s t j
  find_live-remove_other [] key t j h = refl
  find_live-remove_other ((k, e, v) ∷ s) key t j h =
      ground (arith, find_live-remove_other s key t j h)

  pub find_live_set :
      (s : List (ℕ × ℕ × V)) (now key seconds t : ℕ) (v : V)
      → t < now + seconds * 1000
      → find_live ((key, now + seconds * 1000, v) ∷ s) t key ≡ some v
  find_live_set s now key seconds t v h = ground arith

  pub find_live_expired :
      (s : List (ℕ × ℕ × V)) (now key seconds t : ℕ) (v : V)
      → now + seconds * 1000 ≤ t
      → find_live ((key, now + seconds * 1000, v) ∷ s) t key ≡ none
  find_live_expired s now key seconds t v h = ground arith

  pub find_live_other :
      (s : List (ℕ × ℕ × V)) (now key seconds t j : ℕ) (v : V)
      → j ≢ key
      → find_live ((key, now + seconds * 1000, v) ∷ s) t j ≡ find_live s t j
  find_live_other s now key seconds t j v h = ground arith

abbrev pub memory : (V : Type 0) → Redis V
memory V = record {
  Store = List (ℕ × ℕ × V);
  get = find_live;
  set_ex = λ s now key seconds v. (key, now + seconds * 1000, v) ∷ s;
  del = remove;
  get-set_ex_live = find_live_set;
  get-set_ex_expired = find_live_expired;
  get-set_ex_other = find_live_other;
  get-del_self = find_live-remove_self;
  get-del_other = find_live-remove_other;
}
