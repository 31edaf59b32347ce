-- ===== src/Loop/React/Paired.antt =====
-- What the loop sends: a conversation in which the calls of the model are answered.
use agentspec.Base.{
  ℕ, zero, suc, ◌+◌, String, List, [], ◌∷◌, ◌++◌, map, Option, none, some, Bool, not, ◌&&◌, ◌||◌,
  ◌≡◌, refl, inl, inr, Bool-cases, subst, sym,
}
use agentspec.State.{Result, ok, err}
use agentspec.Llm.{Message, ToolCall, ToolResult, StreamEvent, ChatRequest, ChatResponse, Client}
use agentspec.Llm.Tokens.{check_budget}
use agentspec.Loop.{
  ToolCallRecord, Invocation, ToolExecutor, Run, request, result_message, assistant_message,
  user_message,
}
use agentspec.Loop.React.{
  Turn, ask, opened, streamed, answered, max_tokens, take_results, observe, after_reply, turns_from,
  execute, no_calls, is_tool_use,
}

-- A conversation in which each message with tool calls is followed at once by their results, in order.
pub data Paired : List Message → Type 0 where
  start : Paired []
  say :
      (ms : List Message) (m : Message)
      → Paired ms
      → m.tool_calls ≡ []
      → m.tool_result ≡ none
      → Paired (ms ++ m ∷ [])
  exchange :
      (ms : List Message) (content : String) (calls : List ToolCall) (results : List ToolResult)
      → Paired ms
      → map (λ (r : ToolResult). r.tool_use_id) results ≡ map (λ (c : ToolCall). c.id) calls
      → Paired (ms ++ assistant_message content calls ∷ map result_message results)

module _ {S : Type 0} (show : ℕ → String) (inv : Invocation) (client : Client S)
    (tools : ToolExecutor S) (listening : Bool) (Fine : S → Type 0)
    (answers : (s : S) (calls : List ToolCall)
      → map (λ (r : ToolResult). r.tool_use_id) (tools.execute_concurrent s calls).0
        ≡ map (λ (c : ToolCall). c.id) calls)
    (tools_fine : (s : S) (calls : List ToolCall)
      → Fine s
      → Fine (tools.execute_concurrent s calls).1)
    (chat_fine : (s : S) (req : ChatRequest)
      → Paired req.messages
      → Fine s
      → Fine (client.chat s req).1)
    (stream_fine : (s : S) (req : ChatRequest)
      → Paired req.messages
      → Fine s
      → Fine (client.chat_stream s req).1) where
  streamed-world :
      (n : ℕ) (r : Result (Option ChatResponse)) (events : List StreamEvent) (s : S)
      → (streamed show inv client tools listening n (r, events) s).world ≡ s
  unfolding streamed
  streamed-world n (err e) events s = refl
  streamed-world n (ok none) events s = refl
  streamed-world n (ok (some resp)) events s = refl

  opened-world :
      (n : ℕ) (r : Result (List StreamEvent)) (s : S)
      → (opened show inv client tools listening n (r, s)).world ≡ s
  unfolding opened
  opened-world n (err e) s = refl
  opened-world n (ok es) s = streamed-world n _ _ s

  answered-world :
      (n : ℕ) (r : Result ChatResponse) (s : S)
      → (answered show inv client tools listening n (r, s)).world ≡ s
  unfolding answered
  answered-world n (err e) s = refl
  answered-world n (ok resp) s = refl

  ask-Fine :
      (n : ℕ) (req : ChatRequest) (s : S)
      → Paired req.messages
      → Fine s
      → Fine (ask show inv client tools listening n req s).world
  unfolding ask
  ask-Fine n req s p f = elim (Bool-cases (inv.stream && listening)) [
    | inl t ↦ rw t (
        subst Fine (sym (opened-world n (client.chat_stream s req).0 (client.chat_stream s req).1))
          (stream_fine s req p f))
    | inr e ↦ rw e (
        subst Fine (sym (answered-world n (client.chat s req).0 (client.chat s req).1))
          (chat_fine s req p f))
  ]

  -- Between the turns the conversation is complete.
  Ready : Turn S → Type 0
  Ready t = Paired t.messages × Fine t.world

  take_results-Fine :
      (again : Turn S → Run S) (resp : ChatResponse) (results : List ToolResult) (s : S)
      (t : Turn S) (records : Option (List ToolCallRecord))
      → ((t : Turn S) → Ready t → Fine (again t).world)
      → map (λ (r : ToolResult). r.tool_use_id) results
        ≡ map (λ (c : ToolCall). c.id) resp.tool_calls
      → Paired t.messages
      → Fine s
      → Fine (take_results show inv client tools listening again resp results s t records).world
  unfolding take_results Ready
  take_results-Fine again resp results s t none ih ids p f = f
  take_results-Fine again resp results s t (some records) ih ids p f =
      ih _ (exchange t.messages resp.content resp.tool_calls results p ids, f)

  observe-Fine :
      (again : Turn S → Run S) (resp : ChatResponse) (t : Turn S)
      → ((t : Turn S) → Ready t → Fine (again t).world)
      → Ready t
      → Fine (observe show inv client tools listening again resp t).world
  unfolding observe Ready
  observe-Fine again resp t ih (p, f) =
      elim (Bool-cases (no_calls resp.tool_calls || not (is_tool_use resp.stop_reason))) [
        | inl done ↦ rw done f
        | inr go ↦ rw go (
            take_results-Fine again resp _ _ t _ ih (answers t.world resp.tool_calls) p
              (tools_fine t.world resp.tool_calls f))
      ]

  after_reply-Fine :
      (again : Turn S → Run S) (t : Turn S) (r : Result ChatResponse)
      → ((t : Turn S) → Ready t → Fine (again t).world)
      → Ready t
      → Fine (after_reply show inv client tools listening again t r).world
  unfolding after_reply Ready
  after_reply-Fine again t (err e) ih (p, f) = f
  after_reply-Fine again t (ok resp) ih (p, f) = observe-Fine again resp _ ih (p, f)

  turns_from-Fine :
      (left : ℕ) (t : Turn S)
      → Ready t
      → Fine (turns_from show inv client tools listening left t).world
  unfolding turns_from Ready request
  turns_from-Fine zero t (p, f) = f
  turns_from-Fine (suc left) t (p, f) =
      elim (Bool-cases (check_budget (max_tokens show inv client tools listening) t.tracker)) [
        | inl checked ↦
            let req =
              request inv tools (max_tokens show inv client tools listening) t.messages t.world in
            let asked = ask show inv client tools listening (t.turns + 1) req t.world in
            rw checked (
              after_reply-Fine (turns_from show inv client tools listening left)
                (record t {
                  turns = t.turns + 1;
                  events = t.events ++ asked.emitted;
                  world = asked.world;
                })
                asked.reply (turns_from-Fine left) (p, ask-Fine (t.turns + 1) req t.world p f))
        | inr over ↦ rw over f
      ]

  -- Every request of a run is a conversation in which the results of the tools follow the calls that they
  -- answer, in order. Said of the client: any property of its state that such requests keep, and that the
  -- tools keep, holds after the run. The conversation before has to be such a one, and the executor has to
  -- answer each call under its id.
  pub execute-Fine :
      (s : S)
      → Paired inv.messages
      → Fine s
      → Fine (execute show inv client tools listening s).world
  unfolding execute Ready
  execute-Fine s p f =
      turns_from-Fine _ _ (say inv.messages (user_message inv.input) p refl refl, f)
