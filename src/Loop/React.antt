-- ===== src/Loop/React.antt =====
-- internal/loop/react.go: the loop of reasoning and tool calls. `show` prints a number.
pub mod Limits
pub mod Paired
use agentspec.Base.{
  ℕ, zero, suc, ◌+◌, String, str_append, List, [], ◌∷◌, ◌++◌, map, Option, none, some, Bool, true,
  false, not, ◌&&◌, ◌||◌, ◌==◌, if◌then◌else◌, positive_or, or_else,
}
use agentspec.Ir.{no_field}
use agentspec.State.{Result, ok, err}
use agentspec.Llm.{
  Message, ToolCall, ToolResult, StreamEvent, ChatRequest, ChatResponse, Client, StopReason,
  end_turn, stop_max_tokens, tool_use, stop_sequence, other_reason, total,
}
use agentspec.Llm.Tokens.{TokenTracker, new_token_tracker, add_usage, check_budget}
use agentspec.Loop.{
  ToolCallRecord, Invocation, Response, ToolExecutor, Ended, response, failed, panicked, Run,
  user_message, result_message, assistant_message, request, call_record, pair_results,
}

-- What asking the client gives, with the events it emits.
pub record Asked (S : Type 0) : Type 0 where
  pub reply : Result ChatResponse
  pub emitted : List StreamEvent
  pub world : S

-- The variables of the loop.
pub record Turn (S : Type 0) : Type 0 where
  pub messages : List Message
  pub records : List ToolCallRecord
  pub final_output : String
  pub turns : ℕ
  pub tracker : TokenTracker
  pub events : List StreamEvent
  pub world : S

-- The events up to the first that carries an error; each is emitted before it is looked at.
abbrev pub emit :
    StreamEvent
    → Option String
    → Result (Option ChatResponse) × List StreamEvent
    → Result (Option ChatResponse) × List StreamEvent
emit e none (reply, later) = (reply, e ∷ later)
emit e (some error) rest = (err error, e ∷ [])

-- The loop over the events of a channel, with the response so far.
pub read_events :
    List StreamEvent → Option ChatResponse → Result (Option ChatResponse) × List StreamEvent
read_events [] resp = (ok resp, [])
read_events (e ∷ es) resp = emit e e.error (read_events es (or_else e.response resp))

abbrev pub is_tool_use : StopReason → Bool
is_tool_use tool_use = true
is_tool_use end_turn = false
is_tool_use stop_max_tokens = false
is_tool_use stop_sequence = false
is_tool_use (other_reason r) = false

abbrev pub no_calls : List ToolCall → Bool
no_calls [] = true
no_calls (c ∷ cs) = false

abbrev pub call_record_error : ToolCall → ToolResult → ToolCallRecord
call_record_error tc result =
    if result.is_error
    then record (call_record tc result) { error = result.content }
    else call_record tc result

-- What is emitted after a tool call.
abbrev pub call_end : ToolCallRecord → StreamEvent
call_end r = record {
  type = "tool_call_end";
  text = "";
  tool_call = some (record { id = r.id; name = r.tool_name; input = no_field });
  response = none;
  error = none;
}

module _ {S : Type 0} (show : ℕ → String) (inv : Invocation) (client : Client S)
    (tools : ToolExecutor S) (listening : Bool) where
  -- `fmt.Errorf` with the number of the turn.
  abbrev pub turn_error : String → ℕ → String → String
  turn_error what n e =
      str_append "react: " (str_append what (str_append (show n) (str_append ": " e)))

  pub streamed : ℕ → Result (Option ChatResponse) × List StreamEvent → S → Asked S
  streamed n (err e, events) s = record {
    reply = err (turn_error "stream error turn " n e);
    emitted = events;
    world = s;
  }
  streamed n (ok none, events) s = record {
    reply = err (turn_error "stream turn " n "no response received");
    emitted = events;
    world = s;
  }
  streamed n (ok (some resp), events) s = record { reply = ok resp; emitted = events; world = s }

  pub opened : ℕ → Result (List StreamEvent) × S → Asked S
  opened n (err e, s) = record {
    reply = err (turn_error "stream turn " n e);
    emitted = [];
    world = s;
  }
  opened n (ok channel, s) = streamed n (read_events channel none) s

  pub answered : ℕ → Result ChatResponse × S → Asked S
  answered n (err e, s) = record { reply = err (turn_error "turn " n e); emitted = []; world = s }
  answered n (ok resp, s) = record { reply = ok resp; emitted = []; world = s }

  unfoldable pub ask : ℕ → ChatRequest → S → Asked S
  unfolding streamed opened answered read_events
  ask n req s =
      if inv.stream && listening
      then opened n (client.chat_stream s req)
      else answered n (client.chat s req)

  abbrev pub max_turns : ℕ
  max_turns = positive_or inv.max_turns 10

  abbrev pub max_tokens : ℕ
  max_tokens = positive_or inv.max_tokens 4096

  -- The response that the loop's variables give, with an error or "".
  abbrev pub respond : String → Turn S → Run S
  respond error t = record {
    ended = response (record {
      output = t.final_output;
      tool_calls = t.records;
      tokens = t.tracker.used;
      turns = t.turns;
      error = error;
    });
    events = t.events;
    world = t.world;
  }

  pub budget_error : TokenTracker → String
  budget_error tracker = str_append "token budget exceeded: used " (
      str_append (show (total tracker.used)) (
        str_append " + requested "
          (str_append (show max_tokens) (str_append " > budget " (show tracker.budget)))))

  -- The results of the tools in the loop's variables.
  abbrev pub add_results :
      ChatResponse → List ToolResult → List ToolCallRecord → S → Turn S → Turn S
  add_results resp results records s t = record t {
    messages =
        t.messages ++ assistant_message resp.content resp.tool_calls ∷ map result_message results;
    records = t.records ++ records;
    events = t.events ++ (if listening then map call_end records else []);
    world = s;
  }

  pub take_results :
      (Turn S → Run S)
      → ChatResponse
      → List ToolResult
      → S
      → Turn S
      → Option (List ToolCallRecord)
      → Run S
  take_results again resp results s t none = record {
    ended = panicked;
    events = t.events;
    world = s;
  }
  take_results again resp results s t (some records) = again (add_results resp results records s t)

  -- The rest of a turn after the response.
  unfoldable pub observe : (Turn S → Run S) → ChatResponse → Turn S → Run S
  unfolding take_results
  observe again resp t =
      if no_calls resp.tool_calls || not (is_tool_use resp.stop_reason)
      then respond "" t
      else let (results, s) = tools.execute_concurrent t.world resp.tool_calls in
        take_results again resp results s t (pair_results call_record_error resp.tool_calls results)

  -- The reply in the loop's variables: its tokens, and its text unless that is empty.
  abbrev pub add_reply : ChatResponse → Turn S → Turn S
  add_reply resp t = record t {
    tracker = add_usage resp.usage t.tracker;
    final_output = if resp.content == "" then t.final_output else resp.content;
  }

  pub after_reply : (Turn S → Run S) → Turn S → Result ChatResponse → Run S
  after_reply again t (err e) = record { ended = failed e; events = t.events; world = t.world }
  after_reply again t (ok resp) = observe again resp (add_reply resp t)

  abbrev pub after_ask : (Turn S → Run S) → Turn S → Asked S → Run S
  after_ask again t a =
      after_reply again (record t { events = t.events ++ a.emitted; world = a.world }) a.reply

  -- The turns that are left. The check of the budget comes before the request.
  pub turns_from : ℕ → Turn S → Run S
  turns_from zero t = respond "" t
  turns_from (suc left) t =
      let again = turns_from left in
      let counted = record t { turns = t.turns + 1 } in
      if not (check_budget max_tokens t.tracker)
      then respond (budget_error t.tracker) counted
      else after_ask again counted
          (ask counted.turns (request inv tools max_tokens t.messages t.world) t.world)

  abbrev pub first_turn : S → Turn S
  first_turn s = record {
    messages = inv.messages ++ user_message inv.input ∷ [];
    records = [];
    final_output = "";
    turns = 0;
    tracker = new_token_tracker inv.token_budget;
    events = [];
    world = s;
  }

  unfoldable pub execute : S → Run S
  unfolding turns_from after_reply budget_error
  execute s = turns_from max_turns (first_turn s)
