-- ===== src/Accounts/SignIn.antt =====
-- getAccount, signIn, verifyPasscodeSignIn, validateSignUp and processSignInWithThirdParty of
-- apps/authenticator/src/authenticator.service.ts. A query's `select` is left out: a row is whole.
pub mod Lookup
pub mod SignUp
use system_chat.Base.{
  ℕ, ◌==◌, Bool, true, false, not, ◌&&◌, ◌||◌, Option, some, none, [], ◌∷◌, pure, ◌>>=◌, ◌>>◌, gets,
  raise_if, when, or_raise, find?, if◌then◌else◌,
}
use system_chat.Caching.{get_as, set_as}
use system_chat.Accounts.Rows.{
  create_account_reason, Account, email_exist, phone_invalid, account_invalid, type_error,
  token_invalid, Env, is, with_email, with_id, with_phone, with_referral_code, put, find_account,
  read_account, count_accounts, update_account, create_account, on_cache, Call, to_intl,
  compare_passcode,
}

-- The parameters of getAccount.
pub record FindAccountRequest : Type 0 where
  pub id : Option ℕ
  pub phone : Option ℕ
  pub email : Option ℕ

-- `SignupRequestDto`
pub record SignupRequest : Type 0 where
  pub token : ℕ
  pub referral_by : Option ℕ
  pub passcode : ℕ
  pub full_name : Option ℕ
  pub avatar : Option ℕ
  pub email : Option ℕ

-- What a sign-in with a third party returns.
pub data SignInReply : Type 0 where
  sign_in_token : ℕ → Account → SignInReply
  sign_up_token : ℕ → SignInReply

abbrev present : Option ℕ → Option ℕ → Bool
present none column = true
present (some n) column = is column n

-- The constant account of signInWithGoogle. Its texts are numbered here: its email is 1, its id 2,
-- its avatar 3 and its name 4.
abbrev pub google_account : Account
google_account = record {
  id = 0;
  full_name = some 4;
  avatar = some 3;
  email = some 1;
  passcode = none;
  email_verified = some false;
  phone = none;
  phone_verified = none;
  status = 1;
  referral_code = none;
  google_id = some 2;
  facebook_id = none;
  apple_id = none;
  histories = none;
}

module _ {V : Type 0} (env : Env V) where
  -- A condition of an OR on one column.
  abbrev pub or_condition : Option ℕ → (ℕ → Bool) → Bool
  or_condition none test = env.empty_condition
  or_condition (some n) test = test n

  -- `OR: [{ phone: key }, { email }, { id }]`
  abbrev pub account_matches : Option ℕ → FindAccountRequest → Account → Bool
  account_matches key params a =
      or_condition key (is a.phone)
      || or_condition params.email (is a.email)
      || or_condition params.id (λ id. a.id == id)

  -- `id ? id : phone ? toIntlPhone(phone) : email`
  abbrev pub account_key : FindAccountRequest → Call env (Option ℕ)
  account_key params = elim params.id [
    | some id ↦ pure (some id)
    | none ↦ elim params.phone [
      | some phone ↦ to_intl env (some phone) >>= λ key. pure (some key)
      | none ↦ pure params.email
    ]
  ]

  -- What getAccount does where nothing is cached.
  unfoldable pub load_account : ℕ → Option ℕ → FindAccountRequest → Bool → Call env Account
  load_account stored key params profile = read_account (account_matches key params) >>= λ account.
      on_cache (set_as env.redis env.accounts stored (env.find_account_key key profile) account 10)
      >> pure account

  -- `getAccount`, where the cache is read at `now` and written at `stored`
  unfoldable pub get_account : ℕ → ℕ → FindAccountRequest → Bool → Call env Account
  get_account now stored params profile = account_key params >>= λ key.
      gets (λ s. get_as env.redis env.accounts now (env.find_account_key key profile) s.cache)
      >>= λ cached. elim cached [
        | some account ↦ pure account
        | none ↦ load_account stored key params profile
      ]

  -- `signIn`
  pub sign_in : ℕ → ℕ → ℕ → ℕ → Call env (Option Account)
  sign_in now stored phone passcode =
      get_account now stored (record { id = none; phone = some phone; email = none }) false
      >>= λ account. compare_passcode env passcode account.passcode >>= λ valid.
          pure (if valid then some account else none)

  -- `verifyPasscodeSignIn`: the account without its passcode, or null
  unfoldable pub verify_passcode_sign_in : ℕ → ℕ → Call env (Option Account)
  verify_passcode_sign_in id passcode = find_account (with_id id) >>= λ found. elim found [
    | none ↦ pure none
    | some account ↦ compare_passcode env passcode account.passcode >>= λ valid.
        pure (if valid then some (record account { passcode = none }) else none)
  ]

  -- The condition of validateSignUp on the account that refers.
  unfoldable pub referral_condition : ℕ → Option ℕ → Call env (Account → Bool)
  referral_condition referral_by phone =
      if env.is_phone_number referral_by && not (is phone referral_by)
      then (to_intl env (some referral_by) >>= λ key. pure (with_phone key))
      else pure (
          if env.is_email referral_by
          then with_email (some referral_by)
          else with_referral_code referral_by)

  unfoldable pub find_referral : Option ℕ → Option ℕ → Call env (Option ℕ)
  find_referral none phone = pure none
  find_referral (some referral_by) phone = referral_condition referral_by phone >>= λ condition.
      find_account condition >>= λ found.
      or_raise found account_invalid >>= λ account. pure (some account.id)

  unfoldable pub normalize_phone : Option ℕ → Call env (Option ℕ)
  normalize_phone none = pure none
  normalize_phone (some phone) = to_intl env (some phone) >>= λ key.
      count_accounts (with_phone key) >>= λ exist.
      raise_if (not (exist == 0)) phone_invalid >> pure (some key)

  unfoldable pub check_new_email : Option ℕ → Call env (Unit {0})
  check_new_email none = pure tt
  check_new_email (some email) =
      count_accounts (with_email (some email)) >>= λ exist. raise_if (not (exist == 0)) email_exist

  -- The row of a new account, with the database's `new_id`.
  abbrev pub signed_up : ℕ → ℕ → ℕ → SignupRequest → Option ℕ → Account → Account
  signed_up at new_id salt input phone cached = record cached {
    id = new_id;
    full_name = put input.full_name cached.full_name;
    avatar = put input.avatar cached.avatar;
    email = put input.email cached.email;
    phone = phone;
    status = 1;
    passcode = some (env.hash_value salt input.passcode);
    histories = some (record { updated_at = at; reason = create_account_reason } ∷ []);
  }

  -- `validateSignUp`: the new account and the id of the one that refers to it
  unfoldable pub validate_sign_up : ℕ → ℕ → ℕ → ℕ → SignupRequest → Call env (Account × Option ℕ)
  validate_sign_up now at new_id salt input =
      gets (λ s. get_as env.redis env.accounts now (env.sign_up_key input.token) s.cache)
      >>= λ found. or_raise found type_error >>= λ cached.
          find_referral input.referral_by cached.phone >>= λ referral_by.
          normalize_phone cached.phone >>= λ phone.
          check_new_email (put input.email cached.email)
          >> create_account (signed_up at new_id salt input phone cached)
          >>= λ account. pure (account, referral_by)

  -- `{ appleId, facebookId, googleId }`
  abbrev pub same_ids : Option ℕ → Option ℕ → Option ℕ → Account → Bool
  same_ids none none none a = env.empty_condition
  same_ids apple facebook google a =
      present apple a.apple_id && present facebook a.facebook_id && present google a.google_id

  -- `OR: [{ email }, { appleId, facebookId, googleId }]`
  abbrev pub third_party_matches : Account → Account → Bool
  third_party_matches new a =
      or_condition new.email (is a.email) || same_ids new.apple_id new.facebook_id new.google_id a

  -- `processSignInWithThirdParty`, with its random token
  pub process_sign_in_with_third_party : ℕ → ℕ → Account → Call env SignInReply
  process_sign_in_with_third_party stored token new =
      find_account (third_party_matches new) >>= λ found. elim found [
        | some account ↦
            on_cache (set_as env.redis env.accounts stored (env.sign_in_key token) account 600)
            >> pure (sign_in_token token account)
        | none ↦
            on_cache (set_as env.redis env.accounts stored (env.sign_up_key token) new 600)
            >> pure (sign_up_token token)
      ]

  -- The row after the update of the timer: an email is not put where the old one is verified.
  abbrev pub third_party_row : Account → Account → Account → Account
  third_party_row new account a = record a {
    full_name = put new.full_name a.full_name;
    avatar = put new.avatar a.avatar;
    email = elim account.email_verified [ some true ↦ a.email | _ ↦ put new.email a.email ];
    email_verified = put new.email_verified a.email_verified;
    google_id = put new.google_id a.google_id;
    facebook_id = put new.facebook_id a.facebook_id;
    apple_id = put new.apple_id a.apple_id;
  }

  -- The callback of the timer, 100 ms after the account was found.
  pub update_third_party : Account → Account → Call env Account
  update_third_party new account = update_account (with_id account.id) (third_party_row new account)

  -- `signInWithFacebook` and `signInWithApple`, with what the third party said of the token
  pub sign_in_with : ℕ → ℕ → Option Account → Call env SignInReply
  sign_in_with stored token answer =
      or_raise answer token_invalid >>= λ new. process_sign_in_with_third_party stored token new

  -- `signInWithGoogle`: the token is not looked at.
  pub sign_in_with_google : ℕ → ℕ → ℕ → Call env SignInReply
  sign_in_with_google stored token access_token =
      process_sign_in_with_third_party stored token google_account
