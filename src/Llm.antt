-- ===== src/Llm.antt =====
-- internal/llm/client.go: messages, tool calls and the interface of a language model's client. A
-- temperature is only passed on; it is a number here. `S` is the state of what a client talks to.
pub mod Fallback
pub mod Tokens
use agentspec.Base.{ℕ, ◌+◌, String, List, Option, Bool}
use agentspec.Ir.{Fields}
use agentspec.State.{Result}

pub data Role : Type 0 where
  user assistant : Role

-- `StopReason`; providers pass on other reasons as they are.
pub data StopReason : Type 0 where
  end_turn stop_max_tokens tool_use stop_sequence : StopReason
  other_reason : String → StopReason

pub record ToolDefinition : Type 0 where
  pub name : String
  pub description : String
  pub input_schema : Fields

pub record ToolCall : Type 0 where
  pub id : String
  pub name : String
  pub input : Fields

pub record ToolResult : Type 0 where
  pub tool_use_id : String
  pub content : String
  pub is_error : Bool

pub record Message : Type 0 where
  pub role : Role
  pub content : String
  pub tool_calls : List ToolCall
  pub tool_result : Option ToolResult

pub record TokenUsage : Type 0 where
  pub input_tokens : ℕ
  pub output_tokens : ℕ
  pub cache_read : ℕ
  pub cache_write : ℕ

abbrev pub total : TokenUsage → ℕ
total u = u.input_tokens + u.output_tokens

pub record ChatRequest : Type 0 where
  pub model : String
  pub messages : List Message
  pub system : String
  pub tools : List ToolDefinition
  pub max_tokens : ℕ
  pub temperature : Option ℕ

pub record ChatResponse : Type 0 where
  pub content : String
  pub tool_calls : List ToolCall
  pub stop_reason : StopReason
  pub usage : TokenUsage

pub record StreamEvent : Type 0 where
  pub type : String
  pub text : String
  pub tool_call : Option ToolCall
  pub response : Option ChatResponse
  pub error : Option String

-- A channel of events is the list of what it carries until it is closed.
pub record Client (S : Type 0) : Type 0 where
  pub chat : S → ChatRequest → Result ChatResponse × S
  pub chat_stream : S → ChatRequest → Result (List StreamEvent) × S
