-- ===== src/Access/Policy.antt =====
-- Whom evaluateAccess of packages/auth/src/policy.ts lets in.
use hyperfixation_core.Prelude.{
  String, ◌≡◌, refl, sym, ◌∙◌, ap, ◌↔◌, inl, inr, true, false, Option, none, some, arith,
  Option-cases, subst,
}
use hyperfixation_core.Access.{
  Platform, SessionFactor, SessionUser, AuthSession, AccessRequest, AccessDecision, AccessRefusal,
  evaluate_access, evaluate_session, ban_is_active, has_role, area_of, required_role,
  required_factor, refuse, lacks_role, lacks_factor, sign_in_of, step_up_of,
}

-- What a user shows for the role that a request requires.
pub data Shows (p : Platform) (user : SessionUser) : Option String → Type 0 where
  no_role_asked : Shows p user none
  holds_role : {role : String} → has_role p user role ≡ true → Shows p user (some role)

-- A requirement is a minimum.
pub data Reaches : SessionFactor → SessionFactor → Type 0 where
  any_factor : {held : SessionFactor} → Reaches held SessionFactor.code
  both_factors : Reaches SessionFactor.passkey SessionFactor.passkey

abbrev pub Entitled : Platform → AccessRequest → AuthSession → Type 0
Entitled p r s =
    (ban_is_active p s.user r.now ≡ false)
    × (Shows p s.user (required_role r) × Reaches s.factor (required_factor r))

role_shown :
    (p : Platform) (user : SessionUser) (role : Option String)
    → lacks_role p user role ≡ false
    → Shows p user role
unfolding lacks_role
role_shown p user none h = no_role_asked
role_shown p user (some role) h = holds_role (ground arith)

role_found :
    (p : Platform) (user : SessionUser) (role : Option String)
    → Shows p user role
    → lacks_role p user role ≡ false
unfolding lacks_role
role_found p user none no_role_asked = refl
role_found p user (some role) (holds_role h) = ground arith

factor_reached : (asked held : SessionFactor) → lacks_factor asked held ≡ false → Reaches held asked
unfolding lacks_factor
factor_reached SessionFactor.code held h = any_factor
factor_reached SessionFactor.passkey SessionFactor.code h = absurd (ground arith)
factor_reached SessionFactor.passkey SessionFactor.passkey h = both_factors

factor_found : (asked held : SessionFactor) → Reaches held asked → lacks_factor asked held ≡ false
unfolding lacks_factor
factor_found SessionFactor.code held any_factor = refl
factor_found SessionFactor.passkey SessionFactor.code h = elim h [ ]
factor_found SessionFactor.passkey SessionFactor.passkey both_factors = refl

refuse-allow :
    (role : Option String) (refusal : AccessRefusal) (to : String) (s : AuthSession)
    → refuse role refusal to ≡ AccessDecision.allow s
    → ⊥
unfolding refuse
refuse-allow none refusal to s h = ground arith
refuse-allow (some role) refusal to s h = ground arith

passes :
    (p : Platform) (r : AccessRequest) (s t : AuthSession)
    → evaluate_session p r s ≡ AccessDecision.allow t
    → (s ≡ t)
      × ((ban_is_active p t.user r.now ≡ false)
          × ((lacks_role p t.user (required_role r) ≡ false)
              × (lacks_factor (required_factor r) t.factor ≡ false)))
unfolding evaluate_session
passes p r s t h = ground (
  arith,
  refuse-allow (required_role r) AccessRefusal.is_banned (sign_in_of r) t,
  refuse-allow (required_role r) AccessRefusal.code_factor (step_up_of r) t,
)

pub allow-Entitled :
    (p : Platform) (r : AccessRequest) (s : AuthSession)
    → evaluate_access p r ≡ AccessDecision.allow s
    → (r.session ≡ some s) × Entitled p r s
unfolding evaluate_access
allow-Entitled p r s h = elim (Option-cases r.session) [
  | inl e ↦
      absurd
        (refuse-allow (required_role r) AccessRefusal.no_session (sign_in_of r) s (ground arith))
  | inr (t, e) ↦
      let (same, (unbanned, (shown, reached))) = passes p r t s (ground arith) in
      (
        e ∙ ap some same,
        (
          unbanned,
          (
            role_shown p s.user (required_role r) shown,
            factor_reached (required_factor r) s.factor reached,
          ),
        ),
      )
]

pub Entitled-allow :
    (p : Platform) (r : AccessRequest) (s : AuthSession)
    → (r.session ≡ some s) × Entitled p r s
    → evaluate_access p r ≡ AccessDecision.allow s
unfolding evaluate_access evaluate_session
Entitled-allow p r s (e, (unbanned, (shown, reached))) = ground (
  arith,
  role_found p s.user (required_role r) shown,
  factor_found (required_factor r) s.factor reached,
)

pub allow_iff_Entitled :
    (p : Platform) (r : AccessRequest) (s : AuthSession)
    → (evaluate_access p r ≡ AccessDecision.allow s) ↔ ((r.session ≡ some s) × Entitled p r s)
unfolding evaluate_access
allow_iff_Entitled p r s = (allow-Entitled p r s, Entitled-allow p r s)

passkey-Reaches : (asked : SessionFactor) → Reaches SessionFactor.passkey asked
passkey-Reaches SessionFactor.code = any_factor
passkey-Reaches SessionFactor.passkey = both_factors

-- What a session may enter, a session of the same user with a passkey may enter too.
pub passkey_keeps_access :
    (p : Platform) (r : AccessRequest) (s t : AuthSession)
    → evaluate_access p r ≡ AccessDecision.allow s
    → t.user ≡ s.user
    → t.factor ≡ SessionFactor.passkey
    → evaluate_access p (record r { session = some t }) ≡ AccessDecision.allow t
unfolding required_role required_factor area_of
passkey_keeps_access p r s t h u f =
    let (e, (unbanned, (shown, reached))) = allow-Entitled p r s h in
    Entitled-allow p (record r { session = some t }) t
      (
        refl,
        (
          subst (λ x. ban_is_active p x r.now ≡ false) (sym u) unbanned,
          (
            subst (λ x. Shows p x (required_role r)) (sym u) shown,
            subst (λ x. Reaches x (required_factor r)) (sym f)
                (passkey-Reaches (required_factor r)),
          ),
        ),
      )
