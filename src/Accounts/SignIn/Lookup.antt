-- ===== src/Accounts/SignIn/Lookup.antt =====
-- getAccount and signIn: an account that was looked up is cached for ten seconds.
use system_chat.Base.{
  ℕ, ◌+◌, ◌*◌, ◌<◌, ◌≡◌, ◌≢◌, refl, ap, ◌∙◌, true, false, some, none, ok, arith, find?,
  update_where, if◌then◌else◌,
}
use system_chat.Caching.{get, get_as, set_as, get_as-set_as, get_as-delete, delete}
use system_chat.Accounts.Rows.{Account, AuthState, Env, with_phone}
use system_chat.Accounts.Requests.{ResetPasscodeRequest, reset_row, reset_passcode}
use system_chat.Accounts.Requests.Takeover.{IsResettable, reset_passcode_done}
use system_chat.Accounts.SignIn.{
  FindAccountRequest, account_matches, load_account, get_account, sign_in,
}

abbrev pub by_phone : ℕ → FindAccountRequest
by_phone phone = record { id = none; phone = some phone; email = none }

module _ {V : Type 0} (env : Env V) where
  abbrev pub lookup_key : ℕ → ℕ
  lookup_key key = env.find_account_key (some key) false

  sign_in_cached :
      (now stored phone key passcode hash : ℕ) (a : Account) (s : AuthState env.redis.Store)
      → env.to_intl_phone phone ≡ some key
      → get_as env.redis env.accounts now (lookup_key key) s.cache ≡ some a
      → a.passcode ≡ some hash
      → sign_in env now stored phone passcode s
        ≡ (ok (if env.compare_hash passcode hash then some a else none), s)
  unfolding sign_in get_account
  sign_in_cached now stored phone key passcode hash a s e cached p = ground (arith, cached)

  sign_in_loaded :
      (now stored phone key passcode hash : ℕ) (a : Account) (s : AuthState env.redis.Store)
      → env.to_intl_phone phone ≡ some key
      → get_as env.redis env.accounts now (lookup_key key) s.cache ≡ none
      → find? (account_matches env (some key) (by_phone phone)) s.rows ≡ some a
      → a.passcode ≡ some hash
      → sign_in env now stored phone passcode s ≡ (
        ok (if env.compare_hash passcode hash then some a else none),
        record s { cache = set_as env.redis env.accounts stored (lookup_key key) a 10 s.cache },
      )
  unfolding sign_in get_account load_account
  sign_in_loaded now stored phone key passcode hash a s e missed found p =
      ground (arith, missed, found)

  -- After a lookup by phone, signIn does not notice that the passcode is reset: until ten seconds
  -- are over, the old passcode still signs in, and the new one does not, unless it has the old
  -- hash.
  pub sign_in-reset_passcode :
      (now stored phone key old new hash at salt reset_phone reset_key later later' : ℕ)
      (input : ResetPasscodeRequest) (v : V) (a b : Account) (s : AuthState env.redis.Store)
      → env.to_intl_phone phone ≡ some key
      → get_as env.redis env.accounts now (lookup_key key) s.cache ≡ none
      → find? (account_matches env (some key) (by_phone phone)) s.rows ≡ some a
      → a.passcode ≡ some hash
      → env.compare_hash old hash ≡ true
      → env.compare_hash new hash ≡ false
      → input.phone ≡ some reset_phone
      → env.to_intl_phone reset_phone ≡ some reset_key
      → input.passcode ≡ new
      → lookup_key key ≢ input.token
      → get env.redis at input.token
          (set_as env.redis env.accounts stored (lookup_key key) a 10 s.cache)
        ≡ some v
      → IsResettable env reset_key b s
      → later < stored + 10 * 1000
      → ((sign_in env later later' phone old
            (reset_passcode env at salt input (sign_in env now stored phone old s).1).1).0
          ≡ ok (some a))
        × ((sign_in env later later' phone new
              (reset_passcode env at salt input (sign_in env now stored phone old s).1).1).0
            ≡ ok none)
  sign_in-reset_passcode now stored phone key old new hash at salt reset_phone reset_key later
        later' input v a b s e missed found p fits unfit q f same apart cached ready in_time =
      let first = sign_in_loaded now stored phone key old hash a s e missed found p in
      let c = set_as env.redis env.accounts stored (lookup_key key) a 10 s.cache in
      let s1 : AuthState env.redis.Store = record s { cache = c } in
      let ready' : IsResettable env reset_key b s1 = record {
        found_row = ready.found_row;
        is_written = ready.is_written;
        is_own = ready.is_own;
      } in
      let reset =
        reset_passcode_done env at salt reset_phone reset_key input v b s1 q f cached ready' in
      let s2 : AuthState env.redis.Store = record s1 {
        cache = delete env.redis input.token c;
        rows = update_where (with_phone reset_key) (reset_row env at salt input.passcode) s.rows;
      } in
      let kept = get_as-delete env.redis env.accounts c input.token later (lookup_key key) in
      let live = get_as-set_as env.redis env.accounts s.cache stored (lookup_key key) 10 later a in
      let hit : get_as env.redis env.accounts later (lookup_key key) s2.cache ≡ some a =
        ground (arith, kept, live) in
      rw first (
        rw reset (
          ap (λ x. x.0) (sign_in_cached later later' phone key old hash a s2 e hit p)
              ∙ rw fits refl,
          ap (λ x. x.0) (sign_in_cached later later' phone key new hash a s2 e hit p)
              ∙ rw unfit refl,
        ))
