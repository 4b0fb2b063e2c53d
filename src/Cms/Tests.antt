-- ===== src/Cms/Tests.antt =====
-- The theorems on the back office at concrete inputs.
mod Payments
use system_chat.Base.{
  ℕ, ◌≡◌, ◌==◌, refl, true, false, ◌&&◌, some, none, [], ◌∷◌, pos, ok, arith, find?, count_where,
  ap, is_ok, ◌+◌,
}
use system_chat.Caching.{get, set, get_as, set_as, delete}
use system_chat.Accounts.Rows.{Account, AuthState, with_id}
use system_chat.Accounts.Rows as Rows
use system_chat.Accounts.Profile.{verify_passcode}
use system_chat.Accounts.Examples.{alice, bob}
use system_chat.Sessions.{
  payload_of, invalid_credentials, process_login, authenticate, refresh_token,
}
use system_chat.Sessions.Login.{admits_user, access_of, refresh_of}
use system_chat.Sessions.Examples.{env, gateway, start, at}
use system_chat.Cms.Locks.{AccountRequest, Office, update_by_office, reset_by_office}
use system_chat.Cms.Locks.Lockout.{update_by_office-lock}
use system_chat.Cms.Locks.Resets.{IsReset, authenticate-reset_by_office}
use system_chat.Cms.Notices.{Recipient, SendQuery, receives, send_notification_for_account}
use system_chat.Cms.Notices.Pages.{is_for, send_notification_reaches}

abbrev lock : AccountRequest
lock = record { phone = none; status = some 0; reason = some 9 }

abbrev logged_in : AuthState env.redis.Store
logged_in = (process_login env gateway (at 5000) alice start).1

abbrev locked : AuthState env.redis.Store
locked = (update_by_office env gateway 7000 1 50 lock logged_in).1

is_locked : (update_by_office env gateway 7000 1 50 lock logged_in).0 ≡ ok tt
unfolding update_by_office process_login
is_locked = refl

update_by_office-lock_example :
    ((a : Account) × (find? (with_id 1) locked.rows ≡ some a) × (a.status ≡ 0))
    × (admits_user
          (authenticate env gateway (at 9000) (access_of env gateway (at 5000) alice) locked).0
        ≡ false)
    × ((refresh_token env gateway (at 9000) (refresh_of env gateway (at 5000) alice) locked).0
        ≡ ok invalid_credentials)
update_by_office-lock_example =
    update_by_office-lock env gateway 7000 1 50 lock (at 9000)
      (access_of env gateway (at 5000) alice) (refresh_of env gateway (at 5000) alice)
      (payload_of alice) (payload_of alice) logged_in refl refl (ap is_ok is_locked) refl refl refl
      refl

abbrev office : Office
office = record {
  md5_hash = λ text. text + 1;
  decrypt_passcode = λ cipher. some cipher;
  default_passcode = 123456;
  reset_reason = 8;
}

alice-IsReset : IsReset env office 7000 0 1 50 123456 none alice logged_in
unfolding process_login
alice-IsReset = record {
  is_active = refl;
  found_row = refl;
  is_text = refl;
  is_written = refl;
  is_own = refl;
}

abbrev after_reset : AuthState env.redis.Store
after_reset = (reset_by_office env office 7000 0 1 50 none logged_in).1

authenticate-reset_by_office_example :
    ((reset_by_office env office 7000 0 1 50 none logged_in).0 ≡ ok (some (11, 123456)))
    × ((verify_passcode env 1 123457 after_reset).0 ≡ ok true)
    × (admits_user
          (authenticate env gateway (at 9000) (access_of env gateway (at 5000) alice) after_reset).0
        ≡ true)
authenticate-reset_by_office_example =
    authenticate-reset_by_office env gateway office (at 5000) (at 9000) 7000 0 50 123456 11 none
      alice alice start refl alice-IsReset refl (omega arith) (omega arith)

abbrev recipient : ℕ → Recipient
recipient id = record {
  id = id;
  has_device_token = true;
  is_partner = false;
  kyc_status = 2;
  satoshi_balance = some (pos 5000);
}

abbrev can_withdraw : SendQuery
can_withdraw = record { wants_partner = none; wants_kyc_status = none; is_withdrawal = some true }

send_notification_reaches_example :
    count_where
      (is_for 2)
      (send_notification_for_account (pos 2000) 1 2 can_withdraw (recipient 1 ∷ recipient 2 ∷ [])).1
    ≡ count_where
        (λ r. receives (pos 2000) can_withdraw r && r.id == 2)
        (recipient 1 ∷ recipient 2 ∷ [])
send_notification_reaches_example =
    send_notification_reaches (pos 2000) 2 1 2 can_withdraw (recipient 1 ∷ recipient 2 ∷ [])
