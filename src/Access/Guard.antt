-- ===== src/Access/Guard.antt =====
-- packages/auth/src/require-session.ts: the guard of a host, which asks evaluateAccess and leaves
-- the diversion to what the host brings.
use hyperfixation_core.Prelude.{ℕ, String, Option, none, some, ◌≡◌, ◌↔◌, ap, arith}
use hyperfixation_core.Access.{
  Platform, SessionFactor, AuthSession, AccessRequest, AccessDecision, evaluate_access,
}
use hyperfixation_core.Access.Policy.{Entitled, allow_iff_Entitled}

-- What the host brings: the session of the request, the time, and its handlers. A handler answers
-- with what it throws, or with `none` where it returns or is absent.
pub record SessionGuardOptions : Type 0 where
  pub session : Option AuthSession
  pub now : ℕ
  pub on_redirect : String → AccessDecision → Option String
  pub on_not_found : AccessDecision → Option String
  pub sign_in_path : Option String
  pub step_up_path : Option String

pub record RequireSessionOptions : Type 0 where
  pub factor : Option SessionFactor
  pub role : Option String
  pub pathname : Option String

-- How `requireSession` ends: with a session, with what a handler of the host threw, or with
-- AccessRefused.
pub data GuardAnswer : Type 0 where
  returned : AuthSession → GuardAnswer
  host_threw : String → GuardAnswer
  access_refused : AccessDecision → GuardAnswer

abbrev pub request_of : SessionGuardOptions → RequireSessionOptions → AccessRequest
request_of options required = record {
  session = options.session;
  pathname = required.pathname;
  factor = required.factor;
  role = required.role;
  now = options.now;
  sign_in_path = options.sign_in_path;
  step_up_path = options.step_up_path;
}

abbrev thrown_or_refused : Option String → AccessDecision → GuardAnswer
thrown_or_refused (some error) decision = GuardAnswer.host_threw error
thrown_or_refused none decision = GuardAnswer.access_refused decision

unfoldable divert : SessionGuardOptions → AccessDecision → GuardAnswer
divert options (AccessDecision.allow s) = GuardAnswer.returned s
divert options (AccessDecision.redirect to refusal) =
    thrown_or_refused (options.on_redirect to (AccessDecision.redirect to refusal))
      (AccessDecision.redirect to refusal)
divert options (AccessDecision.not_found refusal) =
    thrown_or_refused (options.on_not_found (AccessDecision.not_found refusal))
      (AccessDecision.not_found refusal)

unfoldable pub require_session :
    Platform → SessionGuardOptions → RequireSessionOptions → GuardAnswer
unfolding divert
require_session p options required =
    divert options (evaluate_access p (request_of options required))

thrown-returned :
    (thrown : Option String) (d : AccessDecision) (s : AuthSession)
    → thrown_or_refused thrown d ≡ GuardAnswer.returned s
    → ⊥
thrown-returned none d s h = ground arith
thrown-returned (some error) d s h = ground arith

divert-returned :
    (options : SessionGuardOptions) (d : AccessDecision) (s : AuthSession)
    → divert options d ≡ GuardAnswer.returned s
    → d ≡ AccessDecision.allow s
unfolding divert
divert-returned options (AccessDecision.allow t) s h = ground arith
divert-returned options (AccessDecision.redirect to refusal) s h =
    absurd (thrown-returned (options.on_redirect to _) _ s h)
divert-returned options (AccessDecision.not_found refusal) s h =
    absurd (thrown-returned (options.on_not_found _) _ s h)

-- The guard returns a session exactly when it is the one of the request and may enter, whatever the
-- handlers of the host do: one that returns, or that is absent, lets nobody through.
pub guard_returns_Entitled :
    (p : Platform) (options : SessionGuardOptions) (required : RequireSessionOptions)
    (s : AuthSession)
    → (require_session p options required ≡ GuardAnswer.returned s)
      ↔ ((options.session ≡ some s) × Entitled p (request_of options required) s)
unfolding require_session divert
guard_returns_Entitled p options required s =
    let r = request_of options required in
    (
      λ h. (allow_iff_Entitled p r s).0 (divert-returned options (evaluate_access p r) s h),
      λ e. ap (divert options) ((allow_iff_Entitled p r s).1 e),
    )
