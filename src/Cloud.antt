-- ===== src/Cloud.antt =====
-- packages/cli/src/state.ts: the state of one app's provisioning and what a run writes to it.
-- packages/cli/src/new-cloud.ts (Cloud/Runner): the run over the steps.
pub mod Runner
pub mod Order
pub mod Resume
pub mod Rotation
use hyperfixation_core.Prelude.{
  ℕ, String, Bool, true, false, not, Option, none, some, List, [], ◌∷◌, ◌++◌, ◌==◌, if◌then◌else◌,
  eqb, is_some, or_else, find_where, any_where, update_where, select_where,
}

pub data StepName : Type 0 where
  template install repo backup sentry langfuse dns database coolify deploy : StepName

-- STEPS.indexOf.
abbrev pub position : StepName → ℕ
position StepName.template = 0
position StepName.install = 1
position StepName.repo = 2
position StepName.backup = 3
position StepName.sentry = 4
position StepName.langfuse = 5
position StepName.dns = 6
position StepName.database = 7
position StepName.coolify = 8
position StepName.deploy = 9

abbrev pub same_step : StepName → StepName → Bool
same_step a b = eqb (position a) (position b)

pub record StepRecord : Type 0 where
  pub step : StepName
  pub done_at : String

pub record CoolifyState : Type 0 where
  pub project_uuid : Option String
  pub app_uuid : Option String
  pub envs_secrets_hash : Option String

pub record DatabaseState : Type 0 where
  pub migrator_password : Option String
  pub application_password : Option String
  pub readonly_password : Option String

pub record LangfuseState : Type 0 where
  pub public_key : Option String
  pub secret_key : Option String

pub record StatusTokenState : Type 0 where
  pub read : Option String
  pub write : Option String

pub record KeyRotationState : Type 0 where
  pub variable : String
  pub rotated_at : Option String

-- An object with optional fields that is absent, and one whose fields are all absent, read the same
-- wherever the code reads them, so only the fields are optional here.
pub record AppState : Type 0 where
  pub steps : List StepRecord
  pub template_started_at : Option String
  pub template_fetch_started_at : Option String
  pub repo : Option String
  pub coolify : CoolifyState
  pub database : DatabaseState
  pub sentry_dsn : Option String
  pub langfuse : LangfuseState
  pub status_tokens : StatusTokenState
  pub better_auth_secret : Option String
  pub keys : List KeyRotationState
  pub last_restore_check_at : Option String
  pub last_deployed_sha : Option String

-- `digest` is the SHA-256 of the JSON of a list of texts, where a missing one is null.
unfoldable pub secrets_hash : (List (Option String) → String) → AppState → String
secrets_hash digest s = digest (
    s.database.migrator_password ∷ s.database.application_password ∷ s.database.readonly_password
    ∷ s.better_auth_secret ∷ s.status_tokens.read ∷ s.status_tokens.write ∷ [])

abbrev pub is_record : StepName → StepRecord → Bool
is_record name r = same_step r.step name

unfoldable pub is_done : StepName → AppState → Bool
is_done name s = any_where (is_record name) s.steps

-- `{ ...state.steps, [step]: { doneAt } }`.
unfoldable pub mark_done : String → StepName → AppState → AppState
mark_done now name s = record s {
  steps =
      (if any_where (is_record name) s.steps
        then update_where (is_record name) (λ r. record r { done_at = now }) s.steps
        else s.steps ++ record { step = name; done_at = now } ∷ []);
}

unfoldable pub clear_done : StepName → AppState → AppState
clear_done name s = record s { steps = select_where (λ r. not (is_record name r)) s.steps }
