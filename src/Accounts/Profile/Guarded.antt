-- ===== src/Accounts/Profile/Guarded.antt =====
-- The test of changeEmail on the new email, and the unique columns of the table.
use system_chat.Base.{
  ℕ, ◌≡◌, ◌≢◌, ◌↔◌, ◌==◌, refl, Bool-cases, inl, inr, not, ◌&&◌, Option-cases, some, List, [], ◌∷◌,
  false, err, arith, find?, count_where,
}
use system_chat.Otp.{Readings}
use system_chat.Accounts.Rows.{
  Account, AuthState, Env, taken, clashes, with_email, with_id, unique_violation, email_exist,
}
use system_chat.Accounts.Requests.{request_code}
use system_chat.Accounts.Profile.{change_email, change_email_row}

-- What a row with a new email that no row has shares with the rows of other ids.
clashes-with_email :
    (at email : ℕ) (a : Account) (rows : List Account)
    → count_where (with_email (some email)) rows ≡ 0
    → count_where (λ x. not (x.id == a.id) && clashes a x) rows ≡ 0
    → count_where (λ x. not (x.id == a.id) && clashes (change_email_row at email a) x) rows ≡ 0
clashes-with_email at email a [] fresh own = refl
clashes-with_email at email a (x ∷ rows) fresh own =
    elim (Bool-cases (not (x.id == a.id) && clashes a x)) [
      | inl clash ↦ absurd (ground (arith, own, clash))
      | inr apart ↦ elim (Bool-cases (with_email (some email) x)) [
        | inl has ↦ absurd (ground (arith, fresh, has))
        | inr other ↦
            let fresh' : count_where (with_email (some email)) rows ≡ 0 =
              ground (arith, fresh, other) in
            let own' : count_where (λ x. not (x.id == a.id) && clashes a x) rows ≡ 0 =
              ground (arith, own, apart) in
            let rest = clashes-with_email at email a rows fresh' own' in
            let clear : (not (x.id == a.id) && clashes (change_email_row at email a) x) ≡ false =
              ground (arith, apart, other) in
            rw clear (omega (arith, rest))
      ]
    ]

-- No row shares a unique column with a row of another id.
abbrev pub HasUniqueColumns : List Account → Type 0
HasUniqueColumns rows =
    (id : ℕ) (a : Account) → find? (with_id id) rows ≡ some a → taken a rows ≡ false

module _ {V : Type 0} (env : Env V) where
  -- Where no two accounts share an email, a phone number or a referral code, the update of changeEmail
  -- is never refused for a unique column. The call ends with EMAIL_EXIST, and has changed nothing,
  -- exactly where a row has the new email.
  pub change_email-ne-unique_violation :
      (at r email passcode id : ℕ) (clock : Readings) (s : AuthState env.redis.Store)
      → HasUniqueColumns s.rows
      → let result = change_email env at clock r email passcode id s in
        (result.0 ≢ err unique_violation)
        × ((result ≡ (err email_exist, s)) ↔ (count_where (with_email (some email)) s.rows ≢ 0))
  unfolding change_email request_code
  change_email-ne-unique_violation at r email passcode id clock s unique =
      elim (Bool-cases (count_where (with_email (some email)) s.rows == 0)) [
        | inr clash ↦ rw clash (ground arith, (λ e. ground (arith, clash), λ h. refl))
        | inl fresh ↦
            let unclashed : count_where (with_email (some email)) s.rows ≡ 0 =
              ground (arith, fresh) in
            elim (Option-cases (find? (with_id id) s.rows)) [
              | inl missing ↦
                  rw (fresh, missing)
                    (ground arith, (λ e. absurd (ground (arith, e)), λ h. absurd (h unclashed)))
              | inr (a, found) ↦
                  let none_shared =
                    clashes-with_email at email a s.rows unclashed
                      (ground (arith, unique id a found)) in
                  let own : taken (change_email_row at email a) s.rows ≡ false =
                    rw none_shared refl in
                  (
                    ground (arith, fresh, found, own),
                    (λ e. absurd (ground (arith, fresh, found, own, e)), λ h. absurd (h unclashed)),
                  )
            ]
      ]
