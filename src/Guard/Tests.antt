-- ===== src/Guard/Tests.antt =====
-- A passport that keeps the laws, and a run of the guard with it.
use system_chat.Base.{◌≡◌, refl, Bool, true, false, Option, some, none, [], ◌∷◌, Result, ok, err}
use system_chat.Versions.{compare_version}
use system_chat.Versions as Versions
use system_chat.Guard.{
  GuardError, invalid_kyc_status, User, RouteRequest, Passport, handle_request, can_activate,
}

abbrev let_through : Result GuardError User → Result GuardError (Bool × Option User)
let_through (err e) = err e
let_through (ok user) = ok (true, some user)

abbrev plain_passport : Passport
plain_passport = record {
  can_activate = let_through;
  can_activate-err = λ e. refl;
  can_activate-ok = λ user. refl;
}

abbrev approved_only : RouteRequest
approved_only = record {
  is_public = false;
  required_kyc = some 2;
  api_version = some (some 2 ∷ some 0 ∷ some 0 ∷ []);
}

pending_user_test :
    can_activate plain_passport approved_only none
      (some (record { user_id = 7; kyc_status = some 1 }))
    ≡ err invalid_kyc_status
unfolding can_activate handle_request compare_version Versions.compare_levels
pending_user_test = refl
