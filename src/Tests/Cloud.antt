-- ===== src/Tests/Cloud.antt =====
-- Witnesses for the provisioning of a cloud app.
use hyperfixation_core.Prelude.{false, none, some, List, [], ◌∷◌}
use hyperfixation_core.Cloud.{StepName, AppState}
use hyperfixation_core.Cloud.Runner.{Machine, CloudContext, Step, RunStepsResult}

abbrev laptop : Machine
laptop = record { digest = λ material. "h"; now = "2026-01-02" }

abbrev rotated_state : AppState
rotated_state = record {
  steps =
      record { step = StepName.coolify; done_at = "2026-01-01" }
      ∷ record { step = StepName.deploy; done_at = "2026-01-01" }
      ∷ [];
  template_started_at = none;
  template_fetch_started_at = none;
  repo = none;
  coolify = record { project_uuid = none; app_uuid = some "a1"; envs_secrets_hash = some "old" };
  database = record {
    migrator_password = some "m";
    application_password = some "p";
    readonly_password = none;
  };
  sentry_dsn = none;
  langfuse = record { public_key = none; secret_key = none };
  status_tokens = record { read = none; write = none };
  better_auth_secret = none;
  keys = [];
  last_restore_check_at = none;
  last_deployed_sha = none;
}

abbrev before_run : CloudContext
before_run = record { state = rotated_state; rotated = false }

-- The step that sets the environment keeps the hash of the secrets that it sent.
abbrev sends : Step
sends = record {
  name = StepName.coolify;
  run = λ c. (
    none,
    record c {
      state = record c.state { coolify = record c.state.coolify { envs_secrets_hash = some "h" } };
    },
  );
}

abbrev deploys : Step
deploys = record { name = StepName.deploy; run = λ c. (none, c) }

abbrev two_steps : List Step
two_steps = sends ∷ deploys ∷ []

abbrev end_of_run : CloudContext
end_of_run = record {
  state = record rotated_state {
    steps =
        record { step = StepName.coolify; done_at = "2026-01-02" }
        ∷ record { step = StepName.deploy; done_at = "2026-01-02" }
        ∷ [];
    coolify = record { project_uuid = none; app_uuid = some "a1"; envs_secrets_hash = some "h" };
  };
  rotated = false;
}

abbrev both_ran : RunStepsResult
both_ran = record {
  ran = StepName.coolify ∷ StepName.deploy ∷ [];
  skipped = [];
  invalidated = StepName.coolify ∷ StepName.deploy ∷ [];
}
