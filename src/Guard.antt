-- ===== src/Guard.antt =====
-- JwtRolesAuthGuard of apps/gateway/src/jwt/jwt-roles.guard.ts. What passport's AuthGuard makes of
-- `handleRequest` is a record of laws.
pub mod Access
mod Tests
use system_chat.Base.{
  ℕ, zero, ◌==◌, ◌≡◌, Bool, true, false, not, Option, some, none, List, [], ◌∷◌, ℤ, negsuc, ◌&&◌,
  Result, ok, err, if◌then◌else◌,
}
use system_chat.Versions.{compare_version}

-- `passport_error` is the error that the strategy hands over.
pub data GuardError : Type 0 where
  passport_error : ℕ → GuardError
  unauthorized : GuardError
  invalid_kyc_status : GuardError

-- The payload of a token; `kyc_status` may be missing.
pub record User : Type 0 where
  pub user_id : ℕ
  pub kyc_status : Option ℕ

-- The metadata of the route and its class, and the header x-api-version.
pub record RouteRequest : Type 0 where
  pub is_public : Bool
  pub required_kyc : Option ℕ
  pub api_version : Option (List (Option ℕ))

-- `MobileVersion['1.4.1']`
abbrev pub first_checked : Option (List (Option ℕ))
first_checked = some (some 1 ∷ some 4 ∷ some 1 ∷ [])

-- `=== -1`
abbrev pub is_older : ℤ → Bool
is_older (negsuc zero) = true
is_older _ = false

-- `isDefined(kycStatus) && kycStatus !== user['kycStatus']`
abbrev pub is_refused : Option ℕ → Option ℕ → Bool
is_refused none status = false
is_refused (some required) none = true
is_refused (some required) (some status) = not (required == status)

-- `handleRequest`
unfoldable pub handle_request : RouteRequest → Option ℕ → Option User → Result GuardError User
handle_request request (some e) user = err (passport_error e)
handle_request request none none = err unauthorized
handle_request request none (some user) =
    if not (is_older (compare_version request.api_version first_checked))
      && is_refused request.required_kyc user.kyc_status
    then err invalid_kyc_status
    else ok user

-- `canActivate` of passport's AuthGuard on the outcome of `handleRequest`: it throws the error, or
-- stores the user in the request and returns true.
pub record Passport : Type 0 where
  pub can_activate : Result GuardError User → Result GuardError (Bool × Option User)
  pub can_activate-err : (e : GuardError) → can_activate (err e) ≡ err e
  pub can_activate-ok : (user : User) → can_activate (ok user) ≡ ok (true, some user)

-- `isEmpty(request.user)`
abbrev pub admits : Result GuardError (Bool × Option User) → Result GuardError Bool
admits (err e) = err e
admits (ok (false, user)) = ok false
admits (ok (true, none)) = ok false
admits (ok (true, some user)) = ok true

-- `canActivate`, on what the strategy found.
unfoldable pub can_activate :
    Passport → RouteRequest → Option ℕ → Option User → Result GuardError Bool
can_activate passport request e user =
    if request.is_public
    then ok true
    else admits (passport.can_activate (handle_request request e user))
