-- ===== src/Accounts/SignIn/SignUp.antt =====
-- Sign-in and sign-up with a third party: processSignInWithThirdParty, validateSignUp and
-- verifyPasscodeSignIn.
use system_chat.Base.{
  ℕ, ◌+◌, ◌*◌, ◌<◌, ◌≡◌, refl, ap, ◌∙◌, true, false, some, none, [], ◌∷◌, ◌++◌, ok, arith, ltb,
  lt→ltb, find?, find?-append, find?-update_where, count_where, update_where,
}
use system_chat.Caching.{get_as, set_as, get_as-set_as}
use system_chat.Accounts.Rows.{Account, AuthState, Env, with_email, with_id, put, taken}
use system_chat.Accounts.Rows.Updates.{update_account_done}
use system_chat.Accounts.SignIn.{
  SignupRequest, sign_in_token, sign_up_token, third_party_matches, third_party_row, signed_up,
  find_referral, normalize_phone, check_new_email, validate_sign_up, verify_passcode_sign_in,
  process_sign_in_with_third_party, update_third_party,
}

module _ {V : Type 0} (env : Env V) where
  third_party_unknown :
      (stored token : ℕ) (new : Account) (s : AuthState env.redis.Store)
      → find? (third_party_matches env new) s.rows ≡ none
      → process_sign_in_with_third_party env stored token new s ≡ (
        ok (sign_up_token token),
        record s {
          cache = set_as env.redis env.accounts stored (env.sign_up_key token) new 600 s.cache;
        },
      )
  unfolding process_sign_in_with_third_party
  third_party_unknown stored token new s none_found = ground (arith, none_found)

  third_party_known :
      (stored token : ℕ) (new account : Account) (s : AuthState env.redis.Store)
      → find? (third_party_matches env new) s.rows ≡ some account
      → process_sign_in_with_third_party env stored token new s ≡ (
        ok (sign_in_token token account),
        record s {
          cache = set_as env.redis env.accounts stored (env.sign_in_key token) account 600 s.cache;
        },
      )
  unfolding process_sign_in_with_third_party
  third_party_known stored token new account s found = ground (arith, found)

  validate_sign_up_done :
      (now at new_id salt email : ℕ) (input : SignupRequest) (cached : Account)
      (s : AuthState env.redis.Store)
      → get_as env.redis env.accounts now (env.sign_up_key input.token) s.cache ≡ some cached
      → input.referral_by ≡ none
      → cached.phone ≡ none
      → put input.email cached.email ≡ some email
      → count_where (with_email (some email)) s.rows ≡ 0
      → find? (with_id new_id) s.rows ≡ none
      → taken (signed_up env at new_id salt input none cached) s.rows ≡ false
      → validate_sign_up env now at new_id salt input s ≡ (
        ok (signed_up env at new_id salt input none cached, none),
        record s { rows = s.rows ++ signed_up env at new_id salt input none cached ∷ [] },
      )
  unfolding validate_sign_up find_referral normalize_phone check_new_email
  validate_sign_up_done now at new_id salt email input cached s found alone phone to new free own =
      ground (arith, found, alone, phone, to, new, free, own)

  verify_passcode_sign_in_found :
      (id passcode hash : ℕ) (a : Account) (s : AuthState env.redis.Store)
      → find? (with_id id) s.rows ≡ some a
      → a.passcode ≡ some hash
      → env.compare_hash passcode hash ≡ true
      → verify_passcode_sign_in env id passcode s ≡ (ok (some (record a { passcode = none })), s)
  unfolding verify_passcode_sign_in
  verify_passcode_sign_in_found id passcode hash a s found p fits = ground (arith, found, p, fits)

  -- Sign-up with a third party, from end to end: who is not known gets a token, with which, for
  -- ten minutes, validateSignUp stores the account; then verifyPasscodeSignIn with its id and the
  -- passcode returns it, with its passcode left out.
  pub sign_up_with_third_party :
      (stored token now at new_id salt email : ℕ) (input : SignupRequest) (new : Account)
      (s : AuthState env.redis.Store)
      → find? (third_party_matches env new) s.rows ≡ none
      → input.token ≡ token
      → now < stored + 600 * 1000
      → input.referral_by ≡ none
      → new.phone ≡ none
      → put input.email new.email ≡ some email
      → count_where (with_email (some email)) s.rows ≡ 0
      → find? (with_id new_id) s.rows ≡ none
      → taken (signed_up env at new_id salt input none new) s.rows ≡ false
      → ((process_sign_in_with_third_party env stored token new s).0 ≡ ok (sign_up_token token))
        × ((verify_passcode_sign_in env new_id input.passcode
              (validate_sign_up env now at new_id salt input
                (process_sign_in_with_third_party env stored token new s).1).1).0
            ≡ ok (some (record (signed_up env at new_id salt input none new) { passcode = none })))
  sign_up_with_third_party stored token now at new_id salt email input new s unknown same in_time
        alone phone to fresh free own =
      let asked = third_party_unknown stored token new s unknown in
      let key = env.sign_up_key token in
      let s1 : AuthState env.redis.Store = record s {
        cache = set_as env.redis env.accounts stored key new 600 s.cache;
      } in
      let live : ltb now (stored + 600 * 1000) ≡ true = lt→ltb now (stored + 600 * 1000) in_time in
      let cached : get_as env.redis env.accounts now (env.sign_up_key input.token) s1.cache
          ≡ some new =
        rw same
          (get_as-set_as env.redis env.accounts s.cache stored key 600 now new ∙ rw live refl) in
      let a = signed_up env at new_id salt input none new in
      let stored_row =
        validate_sign_up_done now at new_id salt email input new s1 cached alone phone to fresh free
          own in
      let by_id : find? (with_id new_id) (s.rows ++ a ∷ []) ≡ some a =
        find?-append (with_id new_id) a s.rows free (ground arith) in
      (
        ap (λ x. x.0) asked,
        rw asked (
            rw stored_row (
              ap (λ x. x.0)
                (verify_passcode_sign_in_found new_id input.passcode
                  (env.hash_value salt input.passcode) a _ by_id refl
                  (env.compare_hash-hash_value salt input.passcode)))),
      )

  update_third_party_done :
      (new account : Account) (s : AuthState env.redis.Store)
      → find? (with_id account.id) s.rows ≡ some account
      → taken (third_party_row env new account account) s.rows ≡ false
      → update_third_party env new account s ≡ (
        ok (third_party_row env new account account),
        record s {
          rows = update_where (with_id account.id) (third_party_row env new account) s.rows;
        },
      )
  unfolding update_third_party
  update_third_party_done new account s found own =
      update_account_done (with_id account.id) (third_party_row env new account) account s found own

  -- A known account keeps its verified email, but the update that follows its sign-in writes the
  -- flag of the third party: where that says false, as it always does with Google, the email is
  -- unverified again.
  pub update_third_party_unverifies :
      (stored token : ℕ) (new account : Account) (s : AuthState env.redis.Store)
      → find? (third_party_matches env new) s.rows ≡ some account
      → find? (with_id account.id) s.rows ≡ some account
      → taken (third_party_row env new account account) s.rows ≡ false
      → account.email_verified ≡ some true
      → new.email_verified ≡ some false
      → ((process_sign_in_with_third_party env stored token new s).0
          ≡ ok (sign_in_token token account))
        × ((b : Account) × (find?
                (with_id account.id)
                (update_third_party env new account
                  (process_sign_in_with_third_party env stored token new s).1).1.rows
              ≡ some b)
            × (b.email ≡ account.email)
            × (b.email_verified ≡ some false))
  update_third_party_unverifies stored token new account s found by_id own verified unverified =
      let asked = third_party_known stored token new account s found in
      let f = third_party_row env new account in
      let s1 : AuthState env.redis.Store = record s {
        cache = set_as env.redis env.accounts stored (env.sign_in_key token) account 600 s.cache;
      } in
      (
        ap (λ x. x.0) asked,
        (
          f account,
          rw asked (
              rw (update_third_party_done new account s1 by_id own)
                (find?-update_where (with_id account.id) f account s.rows (λ x h. h) by_id)),
          rw verified refl,
          rw unverified refl,
        ),
      )
