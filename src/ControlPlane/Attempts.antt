-- ===== src/ControlPlane/Attempts.antt =====
-- The fencing tokens of one run: every attempt has its own.
use Prim.Native.Nat.{ℕ}
use Prim.Native.String.{String, count, ◌++◌}
use text.Mathlib.TextLemmas.{length-append, append_cancel_left}
use hyperfixation_core.Prelude.{◌≡◌, refl, ap, sym, ◌∙◌, inl, inr, arith, eqb, eqb→eq, Bool-cases}
use hyperfixation_core.Prelude.Decimal.{decimal, decimal_inj}
use hyperfixation_core.ControlPlane.{attempt_workflow_id}

longer : (s t : String) → s ≡ s ++ (":" ++ t) → ⊥
longer s t e =
    absurd (omega (arith, ap count e, length-append s (":" ++ t), length-append ":" t, one))
  where
    one : count ":" ≡ 1
    one = refl

-- Two attempts of one run have the same workflow id only if they are the same attempt.
pub attempt_workflow_id_inj :
    (run_id : String) (m n : ℕ)
    → attempt_workflow_id run_id m ≡ attempt_workflow_id run_id n
    → m ≡ n
unfolding attempt_workflow_id
attempt_workflow_id_inj run_id m n e = elim (Bool-cases (eqb m 1)) [
  | inl first ↦ elim (Bool-cases (eqb n 1)) [
    | inl also ↦ eqb→eq m 1 first ∙ sym (eqb→eq n 1 also)
    | inr later ↦ absurd (longer run_id (decimal n) (ground arith))
  ]
  | inr later ↦ elim (Bool-cases (eqb n 1)) [
    | inl first ↦ absurd (longer run_id (decimal m) (ground arith))
    | inr also ↦ decimal_inj m n (
        append_cancel_left ":" (decimal m) (decimal n)
          (append_cancel_left run_id (":" ++ decimal m) (":" ++ decimal n) (ground arith)))
  ]
]
