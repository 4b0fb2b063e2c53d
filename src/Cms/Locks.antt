-- ===== src/Cms/Locks.antt =====
-- updateAccount and resetPasscode, on the accounts and the cache that the authenticator and the
-- gateway share.
pub mod Lockout
pub mod Resets
use system_chat.Base.{
  ℕ, ◌≡◌, ◌==◌, Bool, true, false, not, ◌&&◌, ◌||◌, Option, some, none, List, Result, ok, err, pure,
  raise, ◌>>=◌, ◌>>◌, raise_if, when, or_raise,
}
use system_chat.Caching.{delete}
use system_chat.Accounts.Rows.{
  office_reason, Account, History, Env, is, is_some, same, with_id, put, pushed, find_account,
  update_account, on_cache, Call, check_null, account_invalid, status_invalid, phone_exist,
  passcode_invalid,
}
use system_chat.Accounts.SignIn.{or_condition}
use system_chat.Sessions.{Gateway}

-- `AccountRequestDto`
pub record AccountRequest : Type 0 where
  pub phone : Option ℕ
  pub status : Option ℕ
  pub reason : Option ℕ

-- `decryptPasscode` throws on what it cannot decrypt; `ACCOUNT_DEFAULT_PASSCODE`; the reason
-- of a reset.
pub record Office : Type 0 where
  pub md5_hash : ℕ → ℕ
  pub decrypt_passcode : ℕ → Option ℕ
  pub default_passcode : ℕ
  pub reset_reason : ℕ

abbrev pub office_entry : ℕ → Option ℕ → ℕ → History
office_entry at reason user_id = record { updated_at = at; reason = office_reason reason user_id }

-- `status === STATUS.INACTIVE`
abbrev pub is_lock : Option ℕ → Bool
is_lock status = is status 0

-- The update: the histories are those of the account that was found.
abbrev pub office_row : History → AccountRequest → Account → Account → Account
office_row entry input found a = record a {
  status = elim input.status [ none ↦ a.status | some status ↦ status ];
  phone = put input.phone a.phone;
  histories = pushed entry found.histories;
}

abbrev pub reset_office_row : History → ℕ → Account → Account → Account
reset_office_row entry hash found a = record a {
  passcode = some hash;
  histories = pushed entry found.histories;
}

module _ {V : Type 0} (env : Env V) where
  -- `OR: [{ id }, { phone }]`
  abbrev pub by_id_or_phone : ℕ → Option ℕ → Account → Bool
  by_id_or_phone id phone a = a.id == id || or_condition env phone (is a.phone)

  -- `{ id, status: STATUS.ACTIVE }`
  abbrev pub is_active_account : ℕ → Account → Bool
  is_active_account id a = a.id == id && a.status == 1

  -- The passcode of a reset: the decrypted one, or the default.
  abbrev pub reset_text : Office → Option ℕ → Call env ℕ
  reset_text office none = pure office.default_passcode
  reset_text office (some cipher) = or_raise (office.decrypt_passcode cipher) passcode_invalid

  -- `resetPasscode`: the mail with the passcode that is sent, where the account has an email.
  unfoldable pub reset_by_office : Office → ℕ → ℕ → ℕ → ℕ → Option ℕ → Call env (Option (ℕ × ℕ))
  reset_by_office office at salt id updated_by cipher =
      find_account (is_active_account id) >>= λ found. or_raise found account_invalid >>= λ account.
      reset_text office cipher >>= λ passcode.
      check_null env account.histories
      >> update_account (with_id id) (
          reset_office_row (office_entry at (some office.reset_reason) updated_by)
            (env.hash_value salt (office.md5_hash passcode)) account)
      >>= λ updated. pure (elim updated.email [ none ↦ none | some email ↦ some (email, passcode) ])

module _ {V : Type 0} (env : Env V) (gateway : Gateway env) where
  -- The deletions of a lock.
  abbrev pub drop_tokens : ℕ → env.redis.Store → env.redis.Store
  drop_tokens id cache =
      delete env.redis (gateway.refresh_key id) (delete env.redis (env.session_key id) cache)

  -- `updateAccount`
  unfoldable pub update_by_office : ℕ → ℕ → ℕ → AccountRequest → Call env (Unit {0})
  update_by_office at id user_id input =
      find_account (by_id_or_phone env id input.phone) >>= λ found.
      or_raise found account_invalid >>= λ account.
      raise_if (is input.status account.status) status_invalid
      >> raise_if (same input.phone account.phone) phone_exist
      >> when (is_lock input.status) (on_cache (drop_tokens account.id))
      >> check_null env account.histories
      >> update_account (with_id id)
          (office_row (office_entry at input.reason user_id) input account)
      >>= λ _. pure tt
