-- ===== src/Guard/Access.antt =====
-- Who passes the guard of the routes.
use system_chat.Base.{
  ℕ, ◌≡◌, ◌↔◌, ◌⊎◌, inl, inr, refl, Bool, true, false, Option, some, none, ℤ, negsuc, Result, not,
  ◌&&◌, ok, err, arith, ==_iff, if◌then◌else◌,
}
use system_chat.Versions.{compare_version}
use system_chat.Guard.{
  GuardError, User, RouteRequest, Passport, first_checked, is_older, is_refused, handle_request,
  admits, can_activate,
}

-- What a user needs on a route: the route's KYC status, if it has one and the version of the request
-- is not older than 1.4.1.
abbrev pub Fits : RouteRequest → User → Type 0
Fits request user =
    (compare_version request.api_version first_checked ≡ negsuc 0)
    ⊎ (request.required_kyc ≡ none)
    ⊎ (request.required_kyc ≡ user.kyc_status)

is_older_iff : (n : ℤ) → (is_older n ≡ true) ↔ (n ≡ negsuc 0)
is_older_iff n = ground arith

is_refused_iff :
    (required status : Option ℕ)
    → (is_refused required status ≡ false) ↔ ((required ≡ none) ⊎ (required ≡ status))
is_refused_iff none status = ground arith
is_refused_iff (some r) none = ground arith
is_refused_iff (some r) (some s) = ground (arith, ==_iff r s)

refused_iff :
    (older refused : Bool) → ((not older && refused) ≡ false) ↔ ((older ≡ true) ⊎ (refused ≡ false))
refused_iff older refused = ground arith

handle_request_iff :
    (request : RouteRequest) (e : Option ℕ) (user : Option User) (u : User)
    → (handle_request request e user ≡ ok u) ↔ ((e ≡ none) × (user ≡ some u) × Fits request u)
unfolding handle_request
handle_request_iff request (some e) user u = ground arith
handle_request_iff request none none u = ground arith
handle_request_iff request none (some user) u =
    let version = compare_version request.api_version first_checked in
    ground (
      arith,
      is_older_iff version,
      is_refused_iff request.required_kyc user.kyc_status,
      refused_iff (is_older version) (is_refused request.required_kyc user.kyc_status),
    )

admits_iff :
    (passport : Passport) (r : Result GuardError User)
    → (admits (passport.can_activate r) ≡ ok true) ↔ ((u : User) × (r ≡ ok u))
admits_iff passport (ok u) = (λ h. (u, refl), λ h. rw (passport.can_activate-ok u) refl)
admits_iff passport (err e) =
    (λ h. ground (arith, passport.can_activate-err e), λ h. ground (arith, h.1))

admitted_iff :
    (passport : Passport) (request : RouteRequest) (e : Option ℕ) (user : Option User)
    → (admits (passport.can_activate (handle_request request e user)) ≡ ok true)
      ↔ ((u : User) × (e ≡ none) × (user ≡ some u) × Fits request u)
admitted_iff passport request e user = (
  λ a.
      let (u, found) = (admits_iff passport (handle_request request e user)).0 a in
      let (no_error, known, fits) = (handle_request_iff request e user u).0 found in
      (u, no_error, known, fits),
  λ (u, no_error, known, fits).
      (admits_iff passport (handle_request request e user)).1
        (u, (handle_request_iff request e user u).1 (no_error, known, fits)),
)

gate_iff :
    {E : Type 0} (is_open : Bool) (r : Result E Bool)
    → ((if is_open then ok true else r) ≡ ok true) ↔ ((is_open ≡ true) ⊎ (r ≡ ok true))
gate_iff true r = (λ _. inl refl, λ _. refl)
gate_iff false r = ground arith

-- A route that is not public admits a request if and only if the strategy reports no error and finds
-- a user that the KYC status of the route admits; a request of a version older than 1.4.1, or one
-- that names no version, passes whatever its KYC status is. A public route admits all.
pub can_activate_iff :
    (passport : Passport) (request : RouteRequest) (e : Option ℕ) (user : Option User)
    → (can_activate passport request e user ≡ ok true)
      ↔ ((request.is_public ≡ true) ⊎ ((u : User) × (e ≡ none) × (user ≡ some u) × Fits request u))
unfolding can_activate
can_activate_iff passport request e user =
    let r = admits (passport.can_activate (handle_request request e user)) in
    let (out, back) = gate_iff request.is_public r in
    let (admitted, admits_again) = admitted_iff passport request e user in
    (
      λ h. elim (out h) [ inl p ↦ inl p | inr a ↦ inr (admitted a) ],
      λ h. back (elim h [ inl p ↦ inl p | inr u ↦ inr (admits_again u) ]),
    )
