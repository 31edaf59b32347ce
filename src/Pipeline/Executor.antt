-- ===== src/Pipeline/Executor.antt =====
-- internal/pipeline/executor.go: the execution of a built graph, layer by layer. The invoker is a parameter
-- with a state of its own, in which it also sees whether its context is cancelled. `schedule` is the order in
-- which the goroutines of a layer are done, each in one step: each reads the snapshot of the outputs and
-- writes its own entries. Reading a step that is missing panics, which is `none`. Durations are left out.
pub mod Steps
pub mod Ordered
use agentspec.Base.{
  ℕ, zero, suc, ◌+◌, String, str_append, List, [], ◌∷◌, Option, none, some, Bool, true, false, ◌==◌,
  if◌then◌else◌,
}
use agentspec.Base.Maps.{Map, lookup, insert}
use agentspec.State.{Result, ok, err}
use agentspec.Llm.{TokenUsage}
use agentspec.Llm.Tokens.{no_usage}
use agentspec.Loop.{Response}
use agentspec.Pipeline.Dag.{Step, Dag}

pub record StepResult : Type 0 where
  pub step_name : String
  pub agent_ref : String
  pub output : String
  pub status : String
  pub error : String
  pub tokens : TokenUsage

-- The result so far, the outputs of the steps, and the state of the invoker.
pub record Execution (S : Type 0) : Type 0 where
  pub steps : Map StepResult
  pub status : String
  pub total_tokens : TokenUsage
  pub step_outputs : Map String
  pub world : S

unfoldable pub add_tokens : TokenUsage → TokenUsage → TokenUsage
add_tokens a b = record {
  input_tokens = a.input_tokens + b.input_tokens;
  output_tokens = a.output_tokens + b.output_tokens;
  cache_read = a.cache_read + b.cache_read;
  cache_write = a.cache_write + b.cache_write;
}

abbrev pub or_no_text : Option String → String
or_no_text none = ""
or_no_text (some s) = s

-- The output of the first dependency.
abbrev pub chained : List String → Map String → String
chained [] outputs = ""
chained (d ∷ deps) outputs = or_no_text (lookup d outputs)

unfoldable pub step_input : Step → Map String → String
step_input step outputs =
    let input = if step.input == "" then chained step.depends_on outputs else step.input in
    if input == "" then or_no_text (lookup "trigger" outputs) else input

abbrev pub step_result : Step → Result Response → StepResult
step_result step (err e) = record {
  step_name = step.name;
  agent_ref = step.agent_ref;
  output = "";
  status = "failed";
  error = str_append "invoke " (str_append step.agent_ref (str_append ": " e));
  tokens = no_usage;
}
step_result step (ok resp) = record {
  step_name = step.name;
  agent_ref = step.agent_ref;
  output = resp.output;
  status = "completed";
  error = "";
  tokens = resp.tokens;
}

module _ {S : Type 0} (invoke : S → String → String → Result Response × S) (cancelled : S → Bool)
    (schedule : List String → List String) (dag : Dag) where
  -- A step's result in the result of the pipeline.
  unfoldable pub add_step : String → StepResult → S → Execution S → Execution S
  add_step name sr s x =
      let added = record x {
        steps = insert name sr x.steps;
        total_tokens = add_tokens x.total_tokens sr.tokens;
        world = s;
      } in
      if sr.status == "failed"
      then record added { status = "failed" }
      else record added { step_outputs = insert name sr.output x.step_outputs }

  unfoldable pub execute_step :
      Map String → String → Option Step → Execution S → Option (Execution S)
  execute_step outputs name none x = none
  execute_step outputs name (some step) x =
      let (reply, s) = invoke x.world step.agent_ref (step_input step outputs) in
      some (add_step name (step_result step reply) s x)

  abbrev pub then_step :
      Option (Execution S) → (Execution S → Option (Execution S)) → Option (Execution S)
  then_step none next = none
  then_step (some x) next = next x

  -- The goroutines of a layer, with the snapshot.
  unfoldable pub execute_steps : Map String → List String → Execution S → Option (Execution S)
  execute_steps outputs [] x = some x
  execute_steps outputs (name ∷ names) x =
      then_step (execute_step outputs name (lookup name dag.steps) x)
        (λ y. execute_steps outputs names y)

  unfoldable pub execute_layer : List String → Execution S → Option (Execution S)
  execute_layer (name ∷ []) x = execute_step x.step_outputs name (lookup name dag.steps) x
  execute_layer [] x = execute_steps x.step_outputs (schedule []) x
  execute_layer (a ∷ b ∷ names) x = execute_steps x.step_outputs (schedule (a ∷ b ∷ names)) x

  unfoldable pub execute_layers : List (List String) → Execution S → Option (Execution S)
  execute_layers [] x = some x
  execute_layers (layer ∷ layers) x =
      if cancelled x.world
      then some (record x { status = "cancelled" })
      else then_step (execute_layer layer x)
          (λ y. if y.status == "failed" then some y else execute_layers layers y)

  unfoldable pub execute : String → S → Option (Execution S)
  unfolding execute_step execute_steps execute_layer execute_layers add_step
  execute trigger s = execute_layers dag.order (record {
    steps = [];
    status = "completed";
    total_tokens = no_usage;
    step_outputs = ("trigger", trigger) ∷ [];
    world = s;
  })
