-- ===== src/Examples/Looping.antt =====
-- internal/loop and internal/tools: an agent that calls one tool of a registry and then answers, and a chain
-- of two clients whose first one fails.
use agentspec.Base.Maps.{lookup, insert}
use agentspec.Base.{
  ℕ, zero, suc, ◌<◌, ◌≤◌, String, List, [], ◌∷◌, map, Option, none, some, Bool, true, false, ◌≡◌,
  refl, ap, ◌⊎◌, inl, inr, arith, In, length, if◌then◌else◌, Bool-cases, subst, ltb, sym, ltb→lt,
  ◌∙◌, ◌==◌, get_elem?,
}
use agentspec.Ir.{no_field}
use agentspec.State.{Result, ok, err}
use agentspec.Llm.{
  Message, ToolCall, ToolResult, ToolDefinition, ChatRequest, ChatResponse, Client, StreamEvent,
  total, end_turn, tool_use,
}
use agentspec.Llm.Fallback.{chat}
use agentspec.Llm.Fallback.First.{chat-Outcome, Succeeds, FailsAll}
use agentspec.Loop.{Invocation, Response, ToolExecutor, Ended, response, failed, panicked}
use agentspec.Loop.React.{execute}
use agentspec.Loop.React.Limits.{execute-Within, Within}
use agentspec.Loop.React.Paired.{Paired, start, execute-Fine}
use agentspec.Tools
use agentspec.Tools.{
  run_call, Registry, register, new_registry, registry_executor, execute_concurrent, run_calls,
  dispatch,
}
use agentspec.Tools.Answers.{execute_concurrent-ids}

-- The state is the conversations that were sent.
abbrev World : Type 0
World = List (List Message)

abbrev show : ℕ → String
show n = "n"

abbrev quote : String → String
quote s = s

abbrev call : ToolCall
call = record { id = "c1"; name = "clock"; input = no_field }

abbrev is_first : World → Bool
is_first [] = true
is_first (m ∷ ms) = false

abbrev reply : World → ChatResponse
reply log = record {
  content = "noon";
  tool_calls = if is_first log then call ∷ [] else [];
  stop_reason = if is_first log then tool_use else end_turn;
  usage = record { input_tokens = 3; output_tokens = 2; cache_read = 0; cache_write = 0 };
}

abbrev client : Client World
client = record {
  chat = λ log req. (ok (reply log), req.messages ∷ log);
  chat_stream = λ log req. (err "no stream", log);
}

abbrev broken : Client World
broken = record {
  chat = λ log req. (err "down", req.messages ∷ log);
  chat_stream = λ log req. (err "down", log);
}

abbrev clock : ToolDefinition
clock = record { name = "clock"; description = ""; input_schema = no_field }

registry : Registry World
registry = register "clock" clock (λ input log. (ok "12:00", log)) new_registry

-- The goroutines are done from the last to the first.
down : ℕ → List ℕ
down zero = []
down (suc n) = n ∷ down n

In-down : (n i : ℕ) → i < n → In i (down n)
unfolding down
In-down zero i h = absurd (omega (arith, h))
In-down (suc n) i h = elim (Bool-cases (ltb i n)) [
  | inl t ↦ inr (In-down n i (ltb→lt i n t))
  | inr f ↦ inl (ground arith)
]

abbrev tools : ToolExecutor World
tools = registry_executor quote registry (λ s calls. down (length calls))

abbrev inv : Invocation
inv = record {
  agent_name = "a";
  model = "m";
  system = "";
  input = "time?";
  messages = [];
  max_turns = 4;
  max_tokens = 10;
  token_budget = 40;
  temperature = none;
  stream = false;
}

abbrev req : ChatRequest
req = record {
  model = "m";
  messages = [];
  system = "";
  tools = [];
  max_tokens = 10;
  temperature = none;
}

usage_of : Result ChatResponse → ℕ
usage_of (ok resp) = total resp.usage
usage_of (err e) = 0

client-cap :
    (s after : World) (r : ChatRequest) (resp : ChatResponse)
    → client.chat s r ≡ (ok resp, after)
    → total resp.usage ≤ 5
unfolding usage_of
client-cap s after r resp h = let e = ap (λ p. usage_of p.0) h in omega (arith, e)

no-stream :
    (s after : World) (r : ChatRequest) (es : List StreamEvent)
    → client.chat_stream s r ≡ (ok es, after)
    → (e : StreamEvent) → In e es
    → (resp : ChatResponse) → e.response ≡ some resp
    → total resp.usage ≤ 5
no-stream s after r es h e i resp x = cc h

execute-Within_example :
    Within show inv client tools false 5 client-cap no-stream
      (execute show inv client tools false []).ended
execute-Within_example = execute-Within show inv client tools false 5 client-cap no-stream []

All : World → Type 0
All [] = Unit
All (ms ∷ log) = Paired ms × All log

tools-answer :
    (s : World) (calls : List ToolCall)
    → map (λ (r : ToolResult). r.tool_use_id) (tools.execute_concurrent s calls).0
      ≡ map (λ (c : ToolCall). c.id) calls
unfolding registry_executor execute_concurrent
tools-answer s calls =
    execute_concurrent-ids quote registry (down (length calls)) calls s (In-down (length calls))

-- The tools keep the world.
dispatch-world :
    (c : ToolCall) (name : String) (s : World)
    → (dispatch quote registry c (lookup name registry.executors) s).1 ≡ s
unfolding registry register lookup insert
dispatch-world c name s = elim (Bool-cases ("clock" == name)) [
  | inl t ↦ rw t refl
  | inr f ↦ rw f refl
]

run_call-world :
    (i : ℕ) (o : Option ToolCall) (results : List ToolResult) (s : World)
    → (run_call quote registry i o results s).1 ≡ s
unfolding run_call Tools.execute
run_call-world i none results s = refl
run_call-world i (some c) results s = dispatch-world c c.name s

run_calls-world :
    (order : List ℕ) (calls : List ToolCall) (results : List ToolResult) (s : World)
    → (run_calls quote registry order calls results s).1 ≡ s
unfolding run_calls
run_calls-world [] calls results s = refl
run_calls-world (i ∷ order) calls results s =
    run_calls-world order calls _ _ ∙ run_call-world i (get_elem? calls i) results s

tools-All : (s : World) (calls : List ToolCall) → All s → All (tools.execute_concurrent s calls).1
unfolding registry_executor execute_concurrent
tools-All s calls a = subst All (sym (run_calls-world (down (length calls)) calls _ s)) a

execute-Fine_example : All (execute show inv client tools false []).world
unfolding All
execute-Fine_example =
    execute-Fine show inv client tools false All tools-answer tools-All (λ s r p a. (p, a))
      (λ s r p a. a) [] start tt

chat-Outcome_example :
    Succeeds
      (λ c. c.chat)
      show
      ("first" ∷ "second" ∷ [])
      req
      (broken ∷ client ∷ [])
      []
      (chat show (broken ∷ client ∷ []) ("first" ∷ "second" ∷ []) [] req)
      0
    ⊎ FailsAll
        (λ c. c.chat)
        show
        ("first" ∷ "second" ∷ [])
        req
        (broken ∷ client ∷ [])
        []
        (chat show (broken ∷ client ∷ []) ("first" ∷ "second" ∷ []) [] req)
        0
        []
        0
chat-Outcome_example = chat-Outcome show (broken ∷ client ∷ []) ("first" ∷ "second" ∷ []) [] req

execute_concurrent-ids_example :
    map
      (λ (r : ToolResult). r.tool_use_id)
      (execute_concurrent quote registry (1 ∷ 0 ∷ []) (call ∷ record call { id = "c2" } ∷ []) []).0
    ≡ "c1" ∷ "c2" ∷ []
unfolding down
execute_concurrent-ids_example =
    execute_concurrent-ids quote registry (1 ∷ 0 ∷ []) (call ∷ record call { id = "c2" } ∷ []) []
      (In-down 2)

-- What the run gives: its output, its turns and the tools it used.
outcome : Ended → String × ℕ × ℕ
outcome (response r) = (r.output, r.turns, length r.tool_calls)
outcome (failed e) = ("", 0, 0)
outcome panicked = ("", 0, 0)

agent_runs : outcome (execute show inv client tools false []).ended ≡ ("noon", 2, 1)
unfolding outcome execute agentspec.Llm.Tokens.check_budget agentspec.Loop.React.ask
    agentspec.Loop.React.observe agentspec.Loop.pair_results registry_executor down run_call
    agentspec.Llm.Tokens.add_usage Tools.execute lookup registry register insert
agent_runs = refl
