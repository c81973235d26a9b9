-- ===== src/Access.antt =====
-- packages/auth/src/session.ts and policy.ts: what a session is, and the one function that decides
-- who enters a route. Time is in milliseconds since 1970.
pub mod Policy
pub mod Refusals
pub mod Minted
pub mod Paths
pub mod Guard
use text.Mathlib.Text.{starts_with}
use hyperfixation_core.Prelude.{
  ℕ, String, Bool, true, false, not, Option, none, some, List, [], ◌∷◌, ◌&&◌, ◌==◌, if◌then◌else◌,
  ltb, eqb, or_else, any_where, select_where, split, first,
}

-- What the JavaScript platform does with texts: `s.trim().toLowerCase()`, and `Date.parse(s)`,
-- which is `none` where the platform says NaN.
pub record Platform : Type 0 where
  pub fold_text : String → String
  pub parse_date : String → Option ℕ

pub data SessionFactor : Type 0 where
  code : SessionFactor
  passkey : SessionFactor

-- `Date | string`; the time of an invalid Date is NaN, here `none`.
pub data BanExpires : Type 0 where
  date : Option ℕ → BanExpires
  date_text : String → BanExpires

-- `null` and an absent field read the same everywhere.
pub record SessionUser : Type 0 where
  pub role : Option String
  pub banned : Option Bool
  pub ban_expires : Option BanExpires

pub record AuthSession : Type 0 where
  pub factor : SessionFactor
  pub user : SessionUser

abbrev passkey_authentication_path : String
passkey_authentication_path = "/passkey/verify-authentication"

-- PASSKEY_SIGN_IN_PATHS.
abbrev passkey_sign_in_paths : List String
passkey_sign_in_paths = "/passkey/generate-authenticate-options" ∷ passkey_authentication_path ∷ []

-- Every passkey endpoint but the two that take no session.
unfoldable pub is_guarded_passkey_path : Option String → Bool
is_guarded_passkey_path none = false
is_guarded_passkey_path (some path) =
    starts_with path "/passkey/" && not (any_where (λ p. p == path) passkey_sign_in_paths)

-- sessionFactorForPath; the path may be absent.
unfoldable pub session_factor_for_path : Option String → SessionFactor
session_factor_for_path none = SessionFactor.code
session_factor_for_path (some path) =
    if path == passkey_authentication_path then SessionFactor.passkey else SessionFactor.code

unfoldable pub has_role : Platform → SessionUser → String → Bool
has_role p user wanted = elim user.role [
  | none ↦ false
  | some roles ↦
      if roles == ""
      then false
      else any_where (λ entry. p.fold_text entry == p.fold_text wanted) (split "," roles)
]

pub data RouteArea : Type 0 where
  auth : RouteArea
  admin : RouteArea
  app : RouteArea

pub data AccessRefusal : Type 0 where
  no_session : AccessRefusal
  is_banned : AccessRefusal
  code_factor : AccessRefusal
  missing_role : AccessRefusal

pub data AccessDecision : Type 0 where
  allow : AuthSession → AccessDecision
  redirect : String → AccessRefusal → AccessDecision
  not_found : AccessRefusal → AccessDecision

-- `now` is the answer of the clock that the request brings, or of Date.now.
pub record AccessRequest : Type 0 where
  pub session : Option AuthSession
  pub pathname : Option String
  pub factor : Option SessionFactor
  pub role : Option String
  pub now : ℕ
  pub sign_in_path : Option String
  pub step_up_path : Option String

unfoldable expiry_time : Platform → BanExpires → Option ℕ
expiry_time p (BanExpires.date at) = at
expiry_time p (BanExpires.date_text s) = p.parse_date s

-- An expiry that is no time keeps the ban.
unfoldable pub ban_is_active : Platform → SessionUser → ℕ → Bool
unfolding expiry_time
ban_is_active p user now = or_else user.banned false && (elim user.ban_expires [
  | none ↦ true
  | some expires ↦ elim (expiry_time p expires) [ none ↦ true | some at ↦ ltb now at ]
])

-- No segment is empty, so the empty text stands for a missing one.
unfoldable first_segment : List String → String
unfolding first
first_segment [] = ""
first_segment (s ∷ ss) = if s == "api" then first ss else s

unfoldable pub area_named : String → RouteArea
area_named s =
    if s == "auth" then RouteArea.auth else if s == "admin" then RouteArea.admin else RouteArea.app

-- The segments of a path, without its query and its fragment.
unfoldable pub segments : String → List String
unfolding first split
segments pathname =
    let path = first (split "#" (first (split "?" pathname))) in
    select_where (λ s. not (s == "")) (split "/" path)

unfoldable pub route_area_of : String → RouteArea
unfolding first_segment area_named segments
route_area_of pathname = area_named (first_segment (segments pathname))

-- A request without a path is one of the app area.
unfoldable pub area_of : AccessRequest → RouteArea
area_of r = elim r.pathname [ none ↦ RouteArea.app | some path ↦ route_area_of path ]

unfoldable pub required_role : AccessRequest → Option String
required_role r = elim r.role [
  | some role ↦ some role
  | none ↦ elim (area_of r) [ RouteArea.admin ↦ some "admin" | _ ↦ none ]
]

unfoldable pub required_factor : AccessRequest → SessionFactor
required_factor r =
    or_else r.factor
      (elim (area_of r) [ RouteArea.auth ↦ SessionFactor.code | _ ↦ SessionFactor.passkey ])

-- `refuse` of evaluateAccess: the first argument says whether a role is required.
unfoldable pub refuse : Option String → AccessRefusal → String → AccessDecision
refuse (some role) refusal to = AccessDecision.not_found refusal
refuse none refusal to = AccessDecision.redirect to refusal

unfoldable pub lacks_role : Platform → SessionUser → Option String → Bool
lacks_role p user none = false
lacks_role p user (some role) = not (has_role p user role)

-- requiredFactor === "passkey" && session.factor !== "passkey".
unfoldable pub lacks_factor : SessionFactor → SessionFactor → Bool
lacks_factor SessionFactor.passkey SessionFactor.code = true
lacks_factor SessionFactor.passkey SessionFactor.passkey = false
lacks_factor SessionFactor.code held = false

unfoldable pub sign_in_of : AccessRequest → String
sign_in_of r = or_else r.sign_in_path "/auth/sign-in"

unfoldable pub step_up_of : AccessRequest → String
step_up_of r = or_else r.step_up_path "/auth/passkey"

-- What evaluateAccess asks of a session that there is.
unfoldable pub evaluate_session : Platform → AccessRequest → AuthSession → AccessDecision
evaluate_session p r s =
    if ban_is_active p s.user r.now
    then refuse (required_role r) AccessRefusal.is_banned (sign_in_of r)
    else if lacks_role p s.user (required_role r)
    then AccessDecision.not_found AccessRefusal.missing_role
    else if lacks_factor (required_factor r) s.factor
    then refuse (required_role r) AccessRefusal.code_factor (step_up_of r)
    else AccessDecision.allow s

unfoldable pub evaluate_access : Platform → AccessRequest → AccessDecision
evaluate_access p r = elim r.session [
  | none ↦ refuse (required_role r) AccessRefusal.no_session (sign_in_of r)
  | some s ↦ evaluate_session p r s
]
