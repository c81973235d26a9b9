-- ===== src/Tests/Access.antt =====
-- Witnesses for who enters a route.
use hyperfixation_core.Prelude.{
  String, Option, none, some, ◌≡◌, ◌≢◌, ◌↔◌, refl, ap, inr, eq_iff, false≢true, select_where, split,
  first, any_where,
}
use hyperfixation_core.Access.{
  Platform, SessionFactor, SessionUser, AuthSession, AccessRequest, AccessDecision, AccessRefusal,
  RouteArea, evaluate_access, evaluate_session, ban_is_active, area_of, required_role,
  required_factor, refuse, lacks_role, lacks_factor, step_up_of, session_factor_for_path,
  route_area_of, segments, area_named, has_role,
}
use hyperfixation_core.Access.Policy.{Entitled}
use hyperfixation_core.Access.Refusals.{role_check_hides, step_up_admits}
use hyperfixation_core.Access.Guard.{
  SessionGuardOptions, RequireSessionOptions, GuardAnswer, require_session, guard_returns_Entitled,
}

abbrev plain : Platform
plain = record { fold_text = λ s. s; parse_date = λ s. none }

abbrev person : SessionUser
person = record { role = some "user,admin"; banned = none; ban_expires = none }

abbrev by_code : AuthSession
by_code = record { factor = SessionFactor.code; user = person }

abbrev by_passkey : AuthSession
by_passkey = record { factor = SessionFactor.passkey; user = person }

abbrev asks : AuthSession → String → AccessRequest
asks s path = record {
  session = some s;
  pathname = some path;
  factor = none;
  role = none;
  now = 10;
  sign_in_path = none;
  step_up_path = none;
}

enters_auth :
    evaluate_access plain (asks by_code "/api/auth/ok?next=1") ≡ AccessDecision.allow by_code
unfolding evaluate_access evaluate_session ban_is_active area_of required_role required_factor
    lacks_role lacks_factor route_area_of segments split area_named first select_where
enters_auth = refl

enters_admin :
    evaluate_access plain (asks by_passkey "/admin/users") ≡ AccessDecision.allow by_passkey
unfolding evaluate_access evaluate_session ban_is_active area_of required_role required_factor
    lacks_role lacks_factor route_area_of segments split area_named first select_where has_role
    any_where
enters_admin = refl

sent_up :
    evaluate_access plain (asks by_code "/runs")
    ≡ AccessDecision.redirect "/auth/passkey" AccessRefusal.code_factor
unfolding evaluate_access evaluate_session ban_is_active area_of required_role required_factor
    lacks_role lacks_factor route_area_of segments split area_named first select_where refuse
    step_up_of
sent_up = refl

is_admin : area_of (asks by_code "/admin/users") ≡ RouteArea.admin
unfolding area_of route_area_of segments split area_named first select_where
is_admin = refl

role_check_hides_example :
    evaluate_access plain (asks by_code "/admin/users")
    ≢ AccessDecision.redirect "/auth/passkey" AccessRefusal.code_factor
role_check_hides_example =
    role_check_hides plain (asks by_code "/admin/users") "/auth/passkey" AccessRefusal.code_factor
      (inr is_admin)

step_up_admits_example :
    (s : AuthSession) × ((some by_code ≡ some s)
      × (evaluate_access plain (asks by_code "/auth/passkey") ≡ AccessDecision.allow s))
step_up_admits_example = step_up_admits plain (asks by_code "/runs") "/auth/passkey" sent_up

minted : SessionFactor.code ≡ session_factor_for_path (some "/sign-in/email-otp")
unfolding session_factor_for_path
minted = refl

abbrev endpoint : Option String → String
endpoint none = ""
endpoint (some path) = path

other_path :
    ◌≢◌ {A = Option String} (some "/sign-in/email-otp") (some "/passkey/verify-authentication")
other_path e =
    false≢true ((eq_iff "/sign-in/email-otp" "/passkey/verify-authentication").1 (ap endpoint e))

-- A host whose handlers return.
abbrev lenient : SessionGuardOptions
lenient = record {
  session = some by_passkey;
  now = 10;
  on_redirect = λ to decision. none;
  on_not_found = λ decision. none;
  sign_in_path = none;
  step_up_path = none;
}

abbrev admin_page : RequireSessionOptions
admin_page = record { factor = none; role = none; pathname = some "/admin/users" }

guard_returns_Entitled_example :
    (require_session plain lenient admin_page ≡ GuardAnswer.returned by_passkey) ↔ (
      (◌≡◌ {A = Option AuthSession} (some by_passkey) (some by_passkey))
      × Entitled plain (asks by_passkey "/admin/users") by_passkey)
guard_returns_Entitled_example = guard_returns_Entitled plain lenient admin_page by_passkey
