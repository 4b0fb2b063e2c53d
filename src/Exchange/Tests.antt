-- ===== src/Exchange/Tests.antt =====
-- The theorems on the exchange at concrete inputs.
use system_chat.Base.{
  ◌≡◌, ◌==◌, ◌/◌, ◌%◌, ℕ, List, ltb, pos_part, if◌then◌else◌, refl, true, false, none, some, [],
  ◌∷◌, pos, ◌+ℤ◌, ◌-ℤ◌, ok, err, is_ok, Effect, arith, find?,
}
use system_chat.Caching.{Redis, get}
use system_chat.Caching.Memory.{memory}
use system_chat.Exchange.Rows.{
  onus, CurrencyMaster, ExchangeCaching, ExchangeError, token_invalid, LimitSetting, ExchangeTx,
  BalanceRow, ExchangeDb, ExchangeInput, WalletPayload, Bcrypt, balance_row, text_less,
  sum_incoming, sum_outgoing, is_withdraw, add, subtract,
}
use system_chat.Exchange.{
  limit_setting, check_pending_transactions, check_wallet_editable, get_receiver_info, inquiry,
  exchange_verify_passcode, validate_amount_available, call_vndc_off_chain, send_by, submit,
}
use system_chat.Exchange.Submit.{
  IsVerified, IsCovered, submit_sound, submit_once, submit-verify-inquiry,
}

abbrev redis : Redis ExchangeCaching
redis = memory ExchangeCaching

abbrev bcrypt : Bcrypt
bcrypt = record { compare_hash = λ text hash. text == hash }

-- A wallet that answers with the transaction it was sent, and stores it.
abbrev hold_balance : WalletPayload → Effect ExchangeError (ExchangeDb redis.Store) ExchangeTx
hold_balance payload s =
    (ok payload.cb_transaction, record s { cb_trans = payload.cb_transaction ∷ s.cb_trans })

abbrev vndc_row : CurrencyMaster
vndc_row = record { id = 10; code = 1; status = 1 }

abbrev limits : LimitSetting
limits = record {
  type = 1;
  currency_code = 1;
  min = pos 5;
  max = pos 500;
  min_hold = some (pos 20);
}

abbrev incoming : ExchangeTx
incoming = record {
  id = 1;
  sender_id = none;
  receiver_id = some 7;
  currency_id = 10;
  type = 3;
  action_type = add;
  amount = pos 100;
  fee = some (pos 0);
  status = 2;
  old_balance = none;
}

abbrev input : ExchangeInput
input = record { method = onus; currency = 1; receiver_info = 50; amount = pos 60; token = 0 }

abbrev cached : ExchangeCaching
cached = record {
  method = onus;
  verify_passcode = true;
  amount = pos 60;
  receiver_info = 50;
  currency = record { id = 10; code = 1 };
}

-- The text of a number below 1000.
abbrev digits : ℕ → List ℕ
digits n =
    if ltb n 10
    then n ∷ []
    else if ltb n 100
    then n / 10 ∷ n % 10 ∷ []
    else n / 100 ∷ n / 10 % 10 ∷ n % 10 ∷ []

-- The balance 9 is taken for one that is not below 10.
nine_before_ten : text_less (digits 9) (digits 10) ≡ false
nine_before_ten = refl

abbrev db : ExchangeDb redis.Store
db = record {
  currencies = vndc_row ∷ [];
  limits = limits ∷ [];
  account_currencies = [];
  cb_trans = incoming ∷ [];
  available = record { account_id = 7; currency_id = 10; amount = pos 100; version = 1 } ∷ [];
  passcodes = (7, some 4) ∷ (8, some 5) ∷ [];
  floor = λ a. a;
  text_of = λ a. digits (pos_part a);
  cache = [];
}

-- The state after an inquiry and the passcode; the token is 91.
abbrev verified : ExchangeDb redis.Store
verified = record db { cache = (91, 9000000, cached) ∷ [] }

abbrev submitted : ExchangeInput
submitted = record input { token = 91 }

abbrev sent_tx : ExchangeTx
sent_tx = record {
  id = 300;
  sender_id = some 7;
  receiver_id = none;
  currency_id = 10;
  type = 5;
  action_type = subtract;
  amount = pos 60;
  fee = some (pos 0);
  status = 1;
  old_balance = some (pos 100);
}

abbrev sent : ExchangeDb redis.Store
sent = (submit redis bcrypt hold_balance 2000 300 7 submitted verified).1

submit_ok : submit redis bcrypt hold_balance 2000 300 7 submitted verified ≡ (ok sent_tx, sent)
unfolding submit send_by call_vndc_off_chain validate_amount_available limit_setting
    get_receiver_info balance_row sum_incoming sum_outgoing get ◌+ℤ◌ ◌-ℤ◌
submit_ok = refl

submit_sound_example :
    (cache : ExchangeCaching) × (get redis 2000 91 verified.cache ≡ some cache)
    × IsVerified redis bcrypt hold_balance submitted cache
    × ((row : BalanceRow) × (balance_row 7 cache.currency.id verified ≡ some row)
        × IsCovered redis bcrypt hold_balance verified.text_of
            (pos 60)
            (find? (is_withdraw cache.currency.code) (limits ∷ []))
            row)
submit_sound_example =
    submit_sound redis bcrypt hold_balance 2000 300 7 submitted sent_tx verified sent submit_ok

submit_once_example :
    submit redis bcrypt hold_balance 2500 301 8 submitted sent ≡ (err token_invalid, sent)
submit_once_example =
    submit_once redis bcrypt hold_balance 2000 2500 300 301 7 8 submitted submitted sent_tx verified
      sent submit_ok refl refl

inquiry_ok : is_ok (inquiry redis bcrypt hold_balance 1000 90 6 input db).0 ≡ true
unfolding inquiry limit_setting check_pending_transactions check_wallet_editable get_receiver_info
inquiry_ok = refl

-- 6 inquires, 8 verifies a passcode, and 7 submits.
abbrev accepted : ExchangeDb redis.Store
accepted =
    (exchange_verify_passcode redis bcrypt hold_balance 2000 2001 91 8 90 5
      (inquiry redis bcrypt hold_balance 1000 90 6 input db).1).1

submit-verify-inquiry_example :
    submit redis bcrypt hold_balance 3000 300 7 submitted accepted
    ≡ send_by redis bcrypt hold_balance 300 7 submitted (record { id = 10; code = 1 }) accepted
submit-verify-inquiry_example =
    submit-verify-inquiry redis bcrypt hold_balance 1000 2000 2001 3000 90 91 300 6 8 7 5 5 input
      vndc_row (8, some 5) db refl inquiry_ok (omega arith) refl refl refl (omega arith) refl
