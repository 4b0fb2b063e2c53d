-- ===== src/Accounts/Profile/Emails.antt =====
-- changeEmail and confirmEmail, and changePhone with preCheckPhone.
use system_chat.Base.{
  ℕ, ◌+◌, ◌*◌, ◌<◌, ◌≡◌, ◌≢◌, ◌↔◌, ◌==◌, ◌||◌, refl, ap, ◌∙◌, true, false, not, Option, some, List,
  ◌∷◌, ok, is_ok, arith, find?, find?_sound, count_where, update_where, find?-update_where,
  find?-update_where_implied, count_where-update_where_kept, ◌&&◌,
}
use system_chat.Caching.{get_as, get_as-set_as, get_as-delete}
use system_chat.Otp.{verify_email, Readings, generate_otp, verify_otp}
use system_chat.Otp.Codes.{over, verify_otp-generate_otp}
use system_chat.Accounts.Rows.{
  Account, AuthState, Env, is_some, with_email, with_id, taken, clashes, PreCheck,
}
use system_chat.Accounts.Requests.{request_code}
use system_chat.Accounts.Profile.{
  change_email_row, confirm_email_row, unconfirmed, pre_check_phone, change_phone, change_email,
  confirm_email, count_others,
}

module _ {V : Type 0} (env : Env V) where
  -- What an update of the row `a` by its id to `b` needs.
  pub record IsEditable (id : ℕ) (a b : Account) (s : AuthState env.redis.Store) : Type 0 where
    pub found_row : find? (with_id id) s.rows ≡ some a
    pub is_written : (is_some a.histories || env.takes_null) ≡ true
    pub is_own : taken b s.rows ≡ false

  -- The state after changeEmail.
  abbrev pub email_changed :
      ℕ → ℕ → ℕ → Option ℕ → env.redis.Store → AuthState env.redis.Store → AuthState env.redis.Store
  email_changed at email id otp c s = record s {
    rows = update_where (with_id id) (change_email_row at email) s.rows;
    cache = c;
    outbox = record { to = email; otp = otp } ∷ s.outbox;
  }

  pub change_email_done :
      (at r email passcode id hash : ℕ) (otp : Option ℕ) (clock : Readings) (a : Account)
      (c : env.redis.Store) (s : AuthState env.redis.Store)
      → count_where (with_email (some email)) s.rows ≡ 0
      → IsEditable id a (change_email_row at email a) s
      → a.passcode ≡ some hash
      → env.compare_hash passcode hash ≡ true
      → generate_otp env.redis env.codes env.dayjs clock r
          (env.otp_key email verify_email)
          verify_email
          s.cache
        ≡ (otp, c)
      → change_email env at clock r email passcode id s ≡ (ok tt, email_changed at email id otp c s)
  unfolding change_email request_code
  change_email_done at r email passcode id hash otp clock a c s new ready p q made =
      ground (arith, ready.found_row, ready.is_written, ready.is_own, made)

  pub confirm_email_done :
      (at now email id : ℕ) (otp : Option ℕ) (a : Account) (s : AuthState env.redis.Store)
      → verify_otp env.redis env.codes now (env.otp_key email verify_email) otp verify_email s.cache
        ≡ true
      → find? (unconfirmed id email) s.rows ≡ some a
      → IsEditable id a (confirm_email_row at a) s
      → confirm_email env at now email otp id s
        ≡ (ok tt, record s { rows = update_where (with_id id) (confirm_email_row at) s.rows })
  unfolding confirm_email
  confirm_email_done at now email id otp a s valid found ready =
      ground (arith, valid, ready.found_row, ready.is_written, ready.is_own)

  -- A wrong code confirms nothing.
  pub confirm_email_refused :
      (at now email id : ℕ) (otp : Option ℕ) (s : AuthState env.redis.Store)
      → verify_otp env.redis env.codes now (env.otp_key email verify_email) otp verify_email s.cache
        ≡ false
      → is_ok (confirm_email env at now email otp id s).0 ≡ false
  unfolding confirm_email
  confirm_email_refused at now email id otp s valid = ground (arith, valid)

  confirm_email_iff :
      (at now email id : ℕ) (otp : Option ℕ) (a : Account) (s : AuthState env.redis.Store)
      → find? (unconfirmed id email) s.rows ≡ some a
      → IsEditable id a (confirm_email_row at a) s
      → (is_ok (confirm_email env at now email otp id s).0 ≡ true) ↔ (
          verify_otp env.redis env.codes now
            (env.otp_key email verify_email)
            otp
            verify_email
            s.cache
          ≡ true)
  unfolding confirm_email
  confirm_email_iff at now email id otp a s found ready =
      ground (arith, ready.found_row, ready.is_written, ready.is_own)

  email_changed_row :
      (at email id : ℕ) (a : Account) (rows : List Account)
      → find? (with_id id) rows ≡ some a
      → find? (unconfirmed id email) (update_where (with_id id) (change_email_row at email) rows)
        ≡ some (change_email_row at email a)
  email_changed_row at email id a rows found =
      find?-update_where_implied (with_id id) (unconfirmed id email) (change_email_row at email) a
        rows (λ x h. ground (arith, h)) (λ x h. ground (arith, h)) found

  taken-update_where :
      (f : Account → Account) (id : ℕ) (b : Account) (rows : List Account)
      → b.id ≡ id
      → ((x : Account) → (f x).id ≡ x.id)
      → taken b (update_where (with_id id) f rows) ≡ taken b rows
  taken-update_where f id b rows same ids =
      ap (λ n. not (n == 0))
        (count_where-update_where_kept (with_id id) (λ x. not (x.id == b.id) && clashes b x) f rows
          (λ x h. ground (arith, ids x, same, h)))

  -- changeEmail that makes a code mails it to the new address, which is not confirmed yet: until the
  -- code is over, confirmEmail with this address succeeds for the code that was mailed and for no
  -- other, and sets the flag of the account.
  pub confirm_email-change_email :
      (at at' r email passcode id hash code now : ℕ) (given : Option ℕ) (clock : Readings)
      (a : Account) (c : env.redis.Store) (s : AuthState env.redis.Store)
      → count_where (with_email (some email)) s.rows ≡ 0
      → IsEditable id a (change_email_row at email a) s
      → a.passcode ≡ some hash
      → env.compare_hash passcode hash ≡ true
      → generate_otp env.redis env.codes env.dayjs clock r
          (env.otp_key email verify_email)
          verify_email
          s.cache
        ≡ (some code, c)
      → now < over env.redis env.codes env.dayjs clock verify_email
      → ((change_email env at clock r email passcode id s).1.outbox
          ≡ record { to = email; otp = some code } ∷ s.outbox)
        × ((is_ok
                (confirm_email env at' now email given id
                  (change_email env at clock r email passcode id s).1).0
              ≡ true)
            ↔ (given ≡ some code))
        × (find?
              (with_id id)
              (confirm_email env at' now email
                (some code)
                id
                (change_email env at clock r email passcode id s).1).1.rows
            ≡ some (confirm_email_row at' (change_email_row at email a)))
  confirm_email-change_email at at' r email passcode id hash code now given clock a c s new ready p
        q made in_time =
      let same_id : a.id ≡ id = ground (arith, find?_sound (with_id id) a s.rows ready.found_row) in
      let s' = email_changed at email id (some code) c s in
      let key = env.otp_key email verify_email in
      let b = change_email_row at email a in
      let changed =
        change_email_done at r email passcode id hash (some code) clock a c s new ready p q made in
      let valid_iff = λ (g : Option ℕ).
        verify_otp-generate_otp env.redis env.codes env.dayjs clock r key code now verify_email
          verify_email g s.cache c made in
      let row = email_changed_row at email id a s.rows ready.found_row in
      let editable : IsEditable id b (confirm_email_row at' b) s' = record {
        found_row =
            find?-update_where (with_id id) (change_email_row at email) a s.rows (λ x h. h)
              ready.found_row;
        is_written = ground (arith, ready.is_written);
        is_own =
            taken-update_where (change_email_row at email) id b s.rows same_id (λ x. refl)
            ∙ ready.is_own;
      } in
      let found' = λ (g : Option ℕ). confirm_email_iff at' now email id g b s' row editable in
      rw changed (
        refl,
        grind (arith, found' given, valid_iff given, in_time),
        let valid = (valid_iff (some code)).1 (in_time, refl, refl) in
            rw (confirm_email_done at' now email id (some code) b s' valid row editable) (
              find?-update_where (with_id id) (confirm_email_row at') b s'.rows (λ x h. h)
                editable.found_row),
      )

  -- changePhone does not use up what preCheckPhone cached: it deletes the entry under the phone
  -- number, and the entry is under the id of the user.
  pub pre_check_phone-change_phone :
      (now stored at user_id phone phone' id expires_in t : ℕ) (s s' : AuthState env.redis.Store)
      → pre_check_phone env now stored user_id phone s ≡ (ok expires_in, s')
      → env.pre_check_key user_id ≢ env.pre_check_key phone'
      → t < stored + 300 * 1000
      → get_as env.redis env.pre_checks t
          (env.pre_check_key user_id)
          (change_phone env at phone' id s').1.cache
        ≡ some (record { expires_in = expires_in; phone = phone })
  unfolding pre_check_phone change_phone count_others
  pre_check_phone-change_phone now stored at user_id phone phone' id expires_in t s s' h apart
        in_time =
      let key = env.pre_check_key user_id in
      let entry : PreCheck = record { expires_in = expires_in; phone = phone } in
      let cached = get_as-set_as env.redis env.pre_checks s.cache stored key 300 t entry in
      let kept = get_as-delete env.redis env.pre_checks s'.cache (env.pre_check_key phone') t key in
      ground (arith, h, cached, kept)
