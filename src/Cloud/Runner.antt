-- ===== src/Cloud/Runner.antt =====
-- packages/cli/src/new-cloud.ts: runSteps and the checks that it makes. A step is its name and what
-- it does to the state; writing the state file is taken to succeed.
use hyperfixation_core.Prelude.{
  String, Bool, true, false, Option, none, some, List, [], ◌∷◌, ◌++◌, ◌&&◌, ◌==◌, if◌then◌else◌,
  leb,
}
use hyperfixation_core.Cloud.{
  StepName, position, AppState, secrets_hash, is_done, mark_done, clear_done,
}

-- What the runner reads from the machine: the hash of the secrets, and the clock.
pub record Machine : Type 0 where
  pub digest : List (Option String) → String
  pub now : String

pub record CloudContext : Type 0 where
  pub state : AppState
  pub rotated : Bool

-- What `step.run` leaves behind, and what it threw, if it did.
pub record Step : Type 0 where
  pub name : StepName
  pub run : CloudContext → Option String × CloudContext

pub data CloudError : Type 0 where
  step_failed : String → CloudError
  steps_out_of_order : StepName → StepName → CloudError
  secrets_changed rotation_not_applied : CloudError

pub data Outcome (A : Type 0) : Type 0 where
  finished : A → Outcome A
  threw : CloudError → Outcome A

pub record RunStepsResult : Type 0 where
  pub ran : List StepName
  pub skipped : List StepName
  pub invalidated : List StepName

unfoldable pub envs_are_current : Machine → AppState → Bool
envs_are_current m s = elim s.coolify.envs_secrets_hash [
  | none ↦ false
  | some hash ↦ hash == secrets_hash m.digest s
]

-- assertEnvsCurrent: `none` where it returns.
unfoldable pub assert_envs_current : Machine → AppState → Option CloudError
assert_envs_current m s =
    if is_done StepName.coolify s
    then if envs_are_current m s then none else some secrets_changed
    else none

unfoldable pub assert_rotation_applied : Machine → CloudContext → Option CloudError
assert_rotation_applied m c =
    if c.rotated
    then if is_done StepName.coolify c.state && envs_are_current m c.state
      then none
      else some rotation_not_applied
    else none

-- One round of the loop over SECRET_CARRYING_STEPS.
unfoldable pub forget : StepName → List StepName × AppState → List StepName × AppState
forget name (cleared, s) =
    if is_done name s then (cleared ++ name ∷ [], clear_done name s) else (cleared, s)

unfoldable pub invalidate_stale_secret_steps : Machine → AppState → List StepName × AppState
invalidate_stale_secret_steps m s =
    if envs_are_current m s
    then ([], s)
    else forget StepName.deploy (forget StepName.coolify ([], s))

-- assertStepOrder: the first pair that is out of order.
unfoldable pub assert_step_order : List Step → Option CloudError
assert_step_order [] = none
assert_step_order (s ∷ []) = none
assert_step_order (s ∷ t ∷ ss) =
    let rest = assert_step_order (t ∷ ss) in
    if leb (position t.name) (position s.name)
    then some (steps_out_of_order s.name t.name)
    else rest

abbrev pub Loop : Type 0
Loop = Outcome (List StepName × List StepName) × CloudContext

abbrev pub skipping : StepName → Loop → Loop
skipping name (finished (ran, skipped), c) = (finished (ran, name ∷ skipped), c)
skipping name (threw e, c) = (threw e, c)

abbrev pub running : StepName → Loop → Loop
running name (finished (ran, skipped), c) = (finished (name ∷ ran, skipped), c)
running name (threw e, c) = (threw e, c)

abbrev pub recorded : Machine → StepName → CloudContext → CloudContext
recorded m name c = record c { state = mark_done m.now name c.state }

-- A step is recorded only where its `run` returned.
abbrev pub after_run :
    Machine → StepName → (CloudContext → Loop) → Option String × CloudContext → Loop
after_run m name rest (none, c) = running name (rest (recorded m name c))
after_run m name rest (some error, c) = (threw (step_failed error), c)

-- The loop of runSteps, with the names that it pushes on the two lists.
unfoldable pub loop : Machine → List Step → CloudContext → Loop
loop m [] c = (finished ([], []), c)
loop m (s ∷ ss) c = elim (is_done s.name c.state) [
  | true ↦ skipping s.name (loop m ss c)
  | false ↦ after_run m s.name (loop m ss) (s.run c)
]

-- The two checks at the end of runSteps.
unfoldable pub conclude : Machine → List StepName → Loop → Outcome RunStepsResult × CloudContext
conclude m invalidated (threw e, c) = (threw e, c)
conclude m invalidated (finished (ran, skipped), c) = elim (assert_envs_current m c.state) [
  | some e ↦ (threw e, c)
  | none ↦ elim (assert_rotation_applied m c) [
    | some e ↦ (threw e, c)
    | none ↦ (finished (record { ran = ran; skipped = skipped; invalidated = invalidated }), c)
  ]
]

-- After assertStepOrder.
unfoldable pub run_in_order :
    Machine → List Step → CloudContext → Outcome RunStepsResult × CloudContext
run_in_order m steps c =
    let (cleared, s) = invalidate_stale_secret_steps m c.state in
    conclude m cleared (loop m steps (record c { state = s }))

unfoldable pub run_steps :
    Machine → List Step → CloudContext → Outcome RunStepsResult × CloudContext
run_steps m steps c = elim (assert_step_order steps) [
  | some e ↦ (threw e, c)
  | none ↦ run_in_order m steps c
]
