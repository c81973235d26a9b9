-- ===== src/Access/Minted.antt =====
-- The factor that a session is minted with (packages/auth/src/session.ts), and where it gets one.
use text.Mathlib.Text.{starts_with}
use hyperfixation_core.Prelude.{
  String, ◌≡◌, refl, sym, ◌∙◌, ap, ◌⊎◌, inl, inr, true, false, Option, none, some, ◌==◌, arith, ◌≢◌,
  subst, Bool-cases, or_else, false≢true, any_where, eq_iff,
}
use hyperfixation_core.Access.{
  Platform, SessionFactor, AuthSession, AccessRequest, AccessDecision, RouteArea, evaluate_access,
  area_of, required_factor, session_factor_for_path, is_guarded_passkey_path,
}
use hyperfixation_core.Access.Policy.{Reaches, allow-Entitled}

code_elsewhere :
    (path : Option String)
    → path ≢ some "/passkey/verify-authentication"
    → session_factor_for_path path ≡ SessionFactor.code
unfolding session_factor_for_path
code_elsewhere none n = refl
code_elsewhere (some path) n = elim (Bool-cases (path == "/passkey/verify-authentication")) [
  | inl e ↦ absurd (n (ap some ((eq_iff path "/passkey/verify-authentication").0 e)))
  | inr e ↦ ground arith
]

code-Reaches :
    (asked : SessionFactor) → Reaches SessionFactor.code asked → asked ≡ SessionFactor.code
code-Reaches SessionFactor.code h = refl
code-Reaches SessionFactor.passkey h = elim h [ ]

-- A session that has the factor of a path other than the passkey authentication endpoint is allowed,
-- where the request names no factor itself, only in the auth area.
pub minted_elsewhere_stays_in_auth :
    (p : Platform) (r : AccessRequest) (s : AuthSession) (path : Option String)
    → s.factor ≡ session_factor_for_path path
    → path ≢ some "/passkey/verify-authentication"
    → r.factor ≡ none
    → evaluate_access p r ≡ AccessDecision.allow s
    → area_of r ≡ RouteArea.auth
unfolding required_factor
minted_elsewhere_stays_in_auth p r s path m n f h =
    let (e, (unbanned, (shown, reached))) = allow-Entitled p r s h in
    let held = m ∙ code_elsewhere path n in
    let asked =
      code-Reaches (required_factor r) (subst (λ x. Reaches x (required_factor r)) held reached) in
    ground arith

-- No endpoint that the factor gate guards mints a passkey session, and every other endpoint under
-- `/passkey/` is one of the two of the sign-in ceremony.
pub guarded_paths_mint_code :
    (path : String)
    → ((is_guarded_passkey_path (some path) ≡ true)
        × (session_factor_for_path (some path) ≡ SessionFactor.code))
      ⊎ ((starts_with path "/passkey/" ≡ false)
          ⊎ ((path ≡ "/passkey/generate-authenticate-options")
              ⊎ (path ≡ "/passkey/verify-authentication")))
unfolding is_guarded_passkey_path session_factor_for_path any_where
guarded_paths_mint_code path = elim (Bool-cases (starts_with path "/passkey/")) [
  | inr outside ↦ inr (inl outside)
  | inl under ↦ elim (Bool-cases ("/passkey/generate-authenticate-options" == path)) [
    | inl e ↦ inr (inr (inl (sym ((eq_iff "/passkey/generate-authenticate-options" path).0 e))))
    | inr options ↦ elim (Bool-cases ("/passkey/verify-authentication" == path)) [
      | inl e ↦ inr (inr (inr (sym ((eq_iff "/passkey/verify-authentication" path).0 e))))
      | inr verify ↦ inl (
        ground arith,
        code_elsewhere (some path) (λ e. false≢true (
            sym verify
            ∙ (eq_iff "/passkey/verify-authentication" path).1 (sym (ap (λ o. or_else o "") e)))),
      )
    ]
  ]
]
