-- ===== src/Access/Refusals.antt =====
-- What evaluateAccess of packages/auth/src/policy.ts answers to those whom it does not let in.
use hyperfixation_core.Prelude.{
  String, ◌≡◌, ◌⊎◌, inl, inr, false, Option, none, some, arith, Option-cases, ◌≢◌, select_where,
  split,
}
use hyperfixation_core.Access.{
  Platform, AuthSession, AccessRequest, AccessDecision, AccessRefusal, RouteArea, evaluate_access,
  evaluate_session, ban_is_active, area_of, required_role, required_factor, refuse, sign_in_of,
  step_up_of, route_area_of, area_named, segments,
}
use hyperfixation_core.Access.Policy.{no_role_asked, any_factor, Entitled-allow}

refuse-redirect :
    (role : Option String) (refusal other : AccessRefusal) (to from : String)
    → refuse role refusal to ≡ AccessDecision.redirect from other
    → (role ≡ none) × (refusal ≡ other)
unfolding refuse
refuse-redirect none refusal other to from h = ground arith
refuse-redirect (some role) refusal other to from h = absurd (ground arith)

-- Who is redirected, and what for.
session_redirect :
    (p : Platform) (r : AccessRequest) (s : AuthSession) (to : String) (refusal : AccessRefusal)
    → evaluate_session p r s ≡ AccessDecision.redirect to refusal
    → (required_role r ≡ none)
      × ((refusal ≡ AccessRefusal.is_banned) ⊎ (ban_is_active p s.user r.now ≡ false))
unfolding evaluate_session
session_redirect p r s to refusal h = ground (
  arith,
  refuse-redirect (required_role r) AccessRefusal.is_banned refusal (sign_in_of r) to,
  refuse-redirect (required_role r) AccessRefusal.code_factor refusal (step_up_of r) to,
)

asks_role :
    (r : AccessRequest) → (r.role ≢ none) ⊎ (area_of r ≡ RouteArea.admin) → required_role r ≢ none
unfolding required_role
asks_role r h e = ground arith

admits_code :
    (p : Platform) (r : AccessRequest) (s : AuthSession)
    → r.session ≡ some s
    → ban_is_active p s.user r.now ≡ false
    → evaluate_access p (record r { pathname = some "/auth/passkey"; factor = none; role = none })
      ≡ AccessDecision.allow s
unfolding required_role required_factor area_of route_area_of segments split area_named select_where
admits_code p r s e unbanned =
    let r' = record r { pathname = some "/auth/passkey"; factor = none; role = none } in
    Entitled-allow p r' s (e, (unbanned, (no_role_asked, any_factor)))

-- A check that names a role, or that stands in the admin area, never answers with a redirect,
-- whatever the session is and whatever it lacks.
pub role_check_hides :
    (p : Platform) (r : AccessRequest) (to : String) (refusal : AccessRefusal)
    → (r.role ≢ none) ⊎ (area_of r ≡ RouteArea.admin)
    → evaluate_access p r ≢ AccessDecision.redirect to refusal
unfolding evaluate_access
role_check_hides p r to refusal h e = elim (Option-cases r.session) [
  | inl none_eq ↦
      asks_role r h
        (refuse-redirect (required_role r) AccessRefusal.no_session refusal (sign_in_of r) to
          (ground arith)).0
  | inr (s, some_eq) ↦ asks_role r h (session_redirect p r s to refusal (ground arith)).0
]

-- A session that is sent to step up is let into the default step-up page, at that same moment,
-- where that page's request names no role and no factor.
pub step_up_admits :
    (p : Platform) (r : AccessRequest) (to : String)
    → evaluate_access p r ≡ AccessDecision.redirect to AccessRefusal.code_factor
    → (s : AuthSession) × ((r.session ≡ some s)
        × (evaluate_access p
              (record r { pathname = some "/auth/passkey"; factor = none; role = none })
            ≡ AccessDecision.allow s))
unfolding evaluate_access
step_up_admits p r to h = elim (Option-cases r.session) [
  | inl e ↦
      let clash =
        (refuse-redirect (required_role r) AccessRefusal.no_session AccessRefusal.code_factor
          (sign_in_of r) to (ground arith)).1 in
      absurd (ground arith)
  | inr (s, e) ↦ elim (session_redirect p r s to AccessRefusal.code_factor (ground arith)).1 [
    | inl banned ↦ absurd (ground arith)
    | inr unbanned ↦ (s, (e, admits_code p r s e unbanned))
  ]
]
