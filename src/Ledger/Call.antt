-- ===== src/Ledger/Call.antt =====
-- `runCall` of packages/ai/src/llm-run.ts: two transactions with the provider call between them.
-- The provider registry, the prompt files and the provider's answer are not this file's code.
use Prim.Native.String.{len}
use hyperfixation_core.Prelude.{ℕ, String, Bool, true, false, Option, none, some}
use hyperfixation_core.State.{Db, CallOutput, answer, Error, Result, ok, err}
use hyperfixation_core.Fence.{step_tx}
use hyperfixation_core.Ledger.{
  Ctx, LedgeredCall, GateOutcome, reserved, cached, failed, ProviderAnswer, open_gate, complete,
  record_provider_error,
}

-- A string is sent as it is, any other value as its JSON text; `undefined` has none.
pub data Input : Type 0 where
  text : String → Input
  value : Option String → Input

unfoldable pub user_text_of : Input → String
user_text_of (text s) = s
user_text_of (value none) = ""
user_text_of (value (some json)) = json

pub record Prompt : Type 0 where
  pub name : String
  pub hash : String
  pub text : String

pub record LlmRunOptions : Type 0 where
  pub key : String
  pub model : String
  pub prompt : String
  pub input : Input

-- The `ProviderRegistry` with its prices in millionths of a dollar, the prompt directory, and
-- the functions of the platform.
pub record Registry : Type 0 where
  pub model : String → Result (Unit {0})
  pub cost : String → Result (Unit {0})
  pub estimate : String → ℕ → ℕ → ℕ
  pub actual : String → Option ℕ → Option ℕ → ℕ
  pub load_prompt : String → Result Prompt
  pub stringify : Input → Option String
  pub hash_input : Input → String
  pub name_and_message : Error → String × String

-- What `onCall` was handed, whether the provider was asked, and what the call returns or throws.
pub record Called : Type 0 where
  pub on_call : Option ℕ
  pub asked : Bool
  pub result : Result (Option CallOutput)

-- All that throws before the gate opens, in order: no row, no provider call.
unfoldable pub prepare : Registry → LlmRunOptions → Option String → Result LedgeredCall
unfolding user_text_of
prepare reg options trace_id = elim (reg.model options.model) [
  | err e ↦ err e
  | ok _ ↦ elim (reg.cost options.model) [
    | err e ↦ err e
    | ok _ ↦ elim (reg.load_prompt options.prompt) [
      | err e ↦ err e
      | ok prompt ↦ ok (record {
        key = options.key;
        model = options.model;
        input = reg.stringify options.input;
        input_hash = reg.hash_input options.input;
        prompt_name = prompt.name;
        prompt_hash = prompt.hash;
        estimated_cost_usd =
            reg.estimate options.model (len prompt.text) (len (user_text_of options.input));
        trace_id = trace_id;
      })
    ]
  ]
]

-- A provider that reported no usage at all bills the estimate.
unfoldable pub cost_of_usage : Registry → LedgeredCall → Option ℕ → Option ℕ → ℕ
cost_of_usage reg call none none = call.estimated_cost_usd
cost_of_usage reg call input_tokens output_tokens = reg.actual call.model input_tokens output_tokens

abbrev pub output_of : ProviderAnswer → Option CallOutput
output_of a = elim a.output [ none ↦ none | some t ↦ some (answer t) ]

abbrev pub then_return : Result (Option CallOutput) → Result (Unit {0}) → Result (Option CallOutput)
then_return r (ok _) = r
then_return r (err e) = err e

-- After the provider: what it answered is completed, what it threw is recorded and thrown again.
-- A completion that is refused is what the caller sees.
unfoldable pub settle_answer :
    Registry → Ctx → LedgeredCall → String → ℕ → ℕ → Result ProviderAnswer → Db → Called × Db
unfolding cost_of_usage
settle_answer reg ctx call period id latency (ok a) db =
    let (r, db') =
      step_tx ctx.run_id ctx.workflow_id
        (complete ctx call period a (cost_of_usage reg call a.input_tokens a.output_tokens) latency)
        db in
    (record { on_call = some id; asked = true; result = then_return (ok (output_of a)) r }, db')
settle_answer reg ctx call period id latency (err e) db =
    let (name, message) = reg.name_and_message e in
    let (r, db') =
      step_tx ctx.run_id ctx.workflow_id (record_provider_error ctx call name message latency) db in
    (record { on_call = some id; asked = true; result = then_return (err e) r }, db')

-- `meanwhile` is what other transactions commit during the provider call.
unfoldable pub after_gate :
    Registry
    → Ctx
    → LedgeredCall
    → ℕ
    → Result ProviderAnswer
    → (Db → Db)
    → Result GateOutcome × Db
    → Called × Db
unfolding settle_answer
after_gate reg ctx call latency provider meanwhile (err e, db) =
    (record { on_call = none; asked = false; result = err e }, db)
after_gate reg ctx call latency provider meanwhile (ok (failed e), db) =
    (record { on_call = none; asked = false; result = err e }, db)
after_gate reg ctx call latency provider meanwhile (ok (cached output id), db) =
    (record { on_call = some id; asked = false; result = ok output }, db)
after_gate reg ctx call latency provider meanwhile (ok (reserved period id), db) =
    settle_answer reg ctx call period id latency provider (meanwhile db)

unfoldable pub run_call :
    Registry
    → Ctx
    → LlmRunOptions
    → Option String
    → Option String
    → ℕ
    → Result ProviderAnswer
    → (Db → Db)
    → Db
    → Called × Db
unfolding prepare after_gate
run_call reg ctx options clock trace_id latency provider meanwhile db =
    elim (prepare reg options trace_id) [
      | err e ↦ (record { on_call = none; asked = false; result = err e }, db)
      | ok call ↦
          after_gate reg ctx call latency provider meanwhile
            (step_tx ctx.run_id ctx.workflow_id (open_gate ctx call clock) db)
    ]
