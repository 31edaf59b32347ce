-- ===== src/Llm/Fallback.antt =====
-- internal/llm/fallback.go: the client that tries its clients in order. The clients share the state of what
-- they talk to, `S`; `index_name` prints the name of a client without a model. The warnings are left out.
pub mod First
use agentspec.Base.{
  ℕ, suc, ◌+◌, String, str_append, List, [], ◌∷◌, ◌++◌, Option, none, some, Bool, true, false,
  get_elem?,
}
use agentspec.State.{Result, ok, err}
use agentspec.Llm.{ChatRequest, ChatResponse, StreamEvent, Client}

-- The text between the failures.
pub join_failures : List String → String
join_failures [] = ""
join_failures (s ∷ []) = s
join_failures (s ∷ t ∷ rest) = str_append s (str_append "; " (join_failures (t ∷ rest)))

abbrev pub or_index : Option String → String → String
or_index none name = name
or_index (some model) name = model

unfoldable pub model_name : (ℕ → String) → List String → ℕ → String
model_name index_name models i = or_index (get_elem? models i) (str_append "client-" (index_name i))

-- A fallback reported to `OnFallback`: from which model to which.
pub record Switch : Type 0 where
  pub from_model : String
  pub to_model : String

-- What a call gives: the reply or the error, the state, and the fallbacks it reported.
pub record Tried (A S : Type 0) : Type 0 where
  pub reply : Result A
  pub state : S
  pub switches : List Switch

-- The first success is returned.
abbrev pub after_call :
    {A S : Type 0} → List Switch → Result A × S → (String → S → Tried A S) → Tried A S
after_call switches (ok a, s) next = record { reply = ok a; state = s; switches = switches }
after_call switches (err e, s) next = next e s

module _ {A S : Type 0} (call : Client S → S → ChatRequest → Result A × S) (index_name : ℕ → String)
    (models : List String) (req : ChatRequest) where
  -- The report is made unless this was the last client.
  pub reported : List (Client S) → ℕ → List Switch → List Switch
  reported [] i switches = switches
  reported (c ∷ cs) i switches =
      switches
      ++ record {
        from_model = model_name index_name models i;
        to_model = model_name index_name models (i + 1);
      }
        ∷ []

  -- The loop over the clients: `Chat` and `ChatStream` differ in the call that it makes.
  pub try_clients : List (Client S) → ℕ → List String → List Switch → S → Tried A S
  try_clients [] i errs switches s = record {
    reply = err (str_append "all LLM clients failed: " (join_failures errs));
    state = s;
    switches = switches;
  }
  try_clients (c ∷ cs) i errs switches s = after_call switches (call c s req) (λ e s'.
      try_clients cs (i + 1)
        (errs ++ str_append (model_name index_name models i) (str_append ": " e) ∷ [])
        (reported cs i switches) s')

unfoldable pub chat :
    {S : Type 0}
    → (ℕ → String)
    → List (Client S)
    → List String
    → S
    → ChatRequest
    → Tried ChatResponse S
unfolding try_clients
chat index_name clients models s req =
    try_clients (λ c. c.chat) index_name models req clients 0 [] [] s

unfoldable pub chat_stream :
    {S : Type 0}
    → (ℕ → String)
    → List (Client S)
    → List String
    → S
    → ChatRequest
    → Tried (List StreamEvent) S
unfolding try_clients
chat_stream index_name clients models s req =
    try_clients (λ c. c.chat_stream) index_name models req clients 0 [] [] s

-- The chain is itself a client.
unfoldable pub fallback_client :
    {S : Type 0} → (ℕ → String) → List (Client S) → List String → Client S
unfolding chat chat_stream
fallback_client index_name clients models = record {
  chat = λ s req. let t = chat index_name clients models s req in (t.reply, t.state);
  chat_stream = λ s req. let t = chat_stream index_name clients models s req in (t.reply, t.state);
}
