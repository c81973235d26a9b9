-- ===== src/Cloud/Rotation.antt =====
-- Why a run of packages/cli/src/new-cloud.ts leaves no deployed app on secrets that were rotated.
use hyperfixation_core.Prelude.{
  Bool, true, false, none, List, ◌≡◌, arith, any_where, Bool-cases, inl, inr, ◌⊎◌,
}
use hyperfixation_core.Cloud.{StepName, same_step, is_done}
use hyperfixation_core.Cloud.Runner.{
  Machine, CloudContext, Step, finished, RunStepsResult, run_steps, envs_are_current,
  invalidate_stale_secret_steps, assert_envs_current, assert_rotation_applied, run_in_order, loop,
}
use hyperfixation_core.Cloud.Resume.{run_steps-finished, conclude-finished}

abbrev pub names : StepName → List StepName → Bool
names n ns = any_where (λ m. same_step m n) ns

current_at_end :
    (m : Machine) (c : CloudContext)
    → assert_envs_current m c.state ≡ none
    → assert_rotation_applied m c ≡ none
    → ((is_done StepName.coolify c.state ≡ false) × (c.rotated ≡ false))
      ⊎ (envs_are_current m c.state ≡ true)
unfolding assert_envs_current assert_rotation_applied
current_at_end m c e f = elim (Bool-cases (envs_are_current m c.state)) [
  | inl current ↦ inr current
  | inr stale ↦ inl (ground arith, ground arith)
]

-- Whatever the steps do: where a run returns, the environment that `coolify` set carries the secrets
-- that the state holds at the end, or `coolify` is not recorded and the run rotated no password.
pub finished_run_is_current :
    (m : Machine) (steps : List Step) (c c' : CloudContext) (r : RunStepsResult)
    → run_steps m steps c ≡ (finished r, c')
    → ((is_done StepName.coolify c'.state ≡ false) × (c'.rotated ≡ false))
      ⊎ (envs_are_current m c'.state ≡ true)
unfolding run_in_order
finished_run_is_current m steps c c' r h =
    let s = (invalidate_stale_secret_steps m c.state).1 in
    let (ran, (skipped, (k, end))) =
      conclude-finished m (invalidate_stale_secret_steps m c.state).0
        (loop m steps (record c { state = s })) r c' (run_steps-finished m steps c c' r h).1 in
    current_at_end m c' end.envs end.rotation
