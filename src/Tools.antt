-- ===== src/Tools.antt =====
-- internal/tools/registry.go: the registry of tools. `quote` is the verb %q of fmt. An executor is a function
-- on the state that the tools share. The calls of `execute_concurrent` run in goroutines: `order` is the
-- order in which they are done, each in one step.
pub mod Answers
use agentspec.Base.{
  ℕ, zero, suc, String, str_append, List, [], ◌∷◌, map, Option, none, some, Bool, true, false,
  get_elem?,
}
use agentspec.Base.Maps.{Map, lookup, insert, values}
use agentspec.Ir.{Fields}
use agentspec.State.{Result, ok, err}
use agentspec.Llm.{ToolCall, ToolResult, ToolDefinition}
use agentspec.Loop.{ToolExecutor}

abbrev pub Executor : Type 0 → Type 0
Executor S = Fields → S → Result String × S

pub record Registry (S : Type 0) : Type 0 where
  pub executors : Map (Executor S)
  pub tools : Map ToolDefinition

abbrev pub new_registry : {S : Type 0} → Registry S
new_registry = record { executors = []; tools = [] }

unfoldable pub register :
    {S : Type 0} → String → ToolDefinition → Executor S → Registry S → Registry S
register name def executor r = record {
  executors = insert name executor r.executors;
  tools = insert name def r.tools;
}

-- A place of a slice is assigned.
unfoldable pub set_at : {A : Type 0} → ℕ → A → List A → List A
set_at i a [] = []
set_at zero a (x ∷ xs) = a ∷ xs
set_at (suc i) a (x ∷ xs) = x ∷ set_at i a xs

-- What `make` fills the results with.
abbrev pub zero_result : ToolResult
zero_result = record { tool_use_id = ""; content = ""; is_error = false }

abbrev pub result_of : ToolCall → Result String → ToolResult
result_of tc (ok output) = record { tool_use_id = tc.id; content = output; is_error = false }
result_of tc (err e) = record { tool_use_id = tc.id; content = e; is_error = true }

module _ {S : Type 0} (quote : String → String) (r : Registry S) where
  abbrev pub dispatch : ToolCall → Option (Executor S) → S → Result String × S
  dispatch call none s =
      (err (str_append "tool " (str_append (quote call.name) " not registered")), s)
  dispatch call (some executor) s = executor call.input s

  unfoldable pub execute : ToolCall → S → Result String × S
  execute call s = dispatch call (lookup call.name r.executors) s

  -- One goroutine.
  unfoldable pub run_call : ℕ → Option ToolCall → List ToolResult → S → List ToolResult × S
  run_call i none results s = (results, s)
  run_call i (some call) results s =
      let (output, after) = execute call s in (set_at i (result_of call output) results, after)

  unfoldable pub run_calls : List ℕ → List ToolCall → List ToolResult → S → List ToolResult × S
  run_calls [] calls results s = (results, s)
  run_calls (i ∷ order) calls results s =
      let (results', after) = run_call i (get_elem? calls i) results s in
      run_calls order calls results' after

  unfoldable pub execute_concurrent : List ℕ → List ToolCall → S → List ToolResult × S
  unfolding run_calls set_at
  execute_concurrent order calls s = run_calls order calls (map (λ c. zero_result) calls) s

  unfoldable pub definitions : List ToolDefinition
  definitions = values r.tools

  -- The registry as the executor of an agent's loop, with the order of the goroutines for each state and
  -- list of calls.
  unfoldable pub registry_executor : (S → List ToolCall → List ℕ) → ToolExecutor S
  unfolding execute_concurrent definitions
  registry_executor order = record {
    execute_concurrent = λ s calls. execute_concurrent (order s calls) calls s;
    definitions = some (λ s. definitions);
  }
