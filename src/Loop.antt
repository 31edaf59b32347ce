-- ===== src/Loop.antt =====
-- internal/loop/loop.go: invocations of an agent, responses and the executor of tools. Durations are left
-- out. A negative limit is treated by the code as 0, so limits are natural numbers.
pub mod React
use agentspec.Base.{ℕ, suc, String, List, [], ◌∷◌, ◌++◌, map, Option, none, some, Bool, true, false}
use agentspec.Ir.{Fields}
use agentspec.Llm.{
  Message, ToolCall, ToolResult, ToolDefinition, TokenUsage, StreamEvent, ChatRequest, Role, user,
  assistant,
}

pub record ToolCallRecord : Type 0 where
  pub id : String
  pub tool_name : String
  pub input : Fields
  pub output : String
  pub error : String

pub record Invocation : Type 0 where
  pub agent_name : String
  pub model : String
  pub system : String
  pub input : String
  pub messages : List Message
  pub max_turns : ℕ
  pub max_tokens : ℕ
  pub token_budget : ℕ
  pub temperature : Option ℕ
  pub stream : Bool

pub record Response : Type 0 where
  pub output : String
  pub tool_calls : List ToolCallRecord
  pub tokens : TokenUsage
  pub turns : ℕ
  pub error : String

-- `definitions` is there for an executor that has the method.
pub record ToolExecutor (S : Type 0) : Type 0 where
  pub execute_concurrent : S → List ToolCall → List ToolResult × S
  pub definitions : Option (S → List ToolDefinition)

-- How a run ends: with a response, with an error, or by reading past the end of the calls.
pub data Ended : Type 0 where
  response : Response → Ended
  failed : String → Ended
  panicked : Ended

-- The end, what was emitted, and the state of the client and the tools.
pub record Run (S : Type 0) : Type 0 where
  pub ended : Ended
  pub events : List StreamEvent
  pub world : S

abbrev pub user_message : String → Message
user_message content = record {
  role = user;
  content = content;
  tool_calls = [];
  tool_result = none;
}

abbrev pub result_message : ToolResult → Message
result_message result = record {
  role = user;
  content = "";
  tool_calls = [];
  tool_result = some result;
}

abbrev pub assistant_message : String → List ToolCall → Message
assistant_message content calls = record {
  role = assistant;
  content = content;
  tool_calls = calls;
  tool_result = none;
}

-- The tools of a request.
abbrev pub tools_of : {S : Type 0} → Option (S → List ToolDefinition) → S → List ToolDefinition
tools_of none s = []
tools_of (some definitions) s = definitions s

unfoldable pub request :
    {S : Type 0} → Invocation → ToolExecutor S → ℕ → List Message → S → ChatRequest
request inv tools max_tokens messages s = record {
  model = inv.model;
  messages = messages;
  system = inv.system;
  tools = tools_of tools.definitions s;
  max_tokens = max_tokens;
  temperature = inv.temperature;
}

-- The audit record of a call.
abbrev pub call_record : ToolCall → ToolResult → ToolCallRecord
call_record tc result = record {
  id = tc.id;
  tool_name = tc.name;
  input = tc.input;
  output = result.content;
  error = "";
}

abbrev pub add_head : {R : Type 0} → R → Option (List R) → Option (List R)
add_head r none = none
add_head r (some rs) = some (r ∷ rs)

-- The loop over the results, which reads the call at each result's position; `none` is past the end.
unfoldable pub pair_results :
    {R : Type 0} → (ToolCall → ToolResult → R) → List ToolCall → List ToolResult → Option (List R)
pair_results f calls [] = some []
pair_results f [] (result ∷ results) = none
pair_results f (tc ∷ calls) (result ∷ results) =
    add_head (f tc result) (pair_results f calls results)
