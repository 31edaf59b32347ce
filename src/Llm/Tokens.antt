-- ===== src/Llm/Tokens.antt =====
-- internal/llm/tokens.go: the token budget. A negative budget is treated by the code as 0, which is
-- unlimited.
use agentspec.Base.{ℕ, ◌+◌, ◌-◌, Bool, true, false, Option, none, some, eqb, ltb, if◌then◌else◌}
use agentspec.Llm.{TokenUsage, total}

pub record TokenTracker : Type 0 where
  pub budget : ℕ
  pub used : TokenUsage

abbrev pub no_usage : TokenUsage
no_usage = record { input_tokens = 0; output_tokens = 0; cache_read = 0; cache_write = 0 }

abbrev pub new_token_tracker : ℕ → TokenTracker
new_token_tracker budget = record { budget = budget; used = no_usage }

unfoldable pub add_usage : TokenUsage → TokenTracker → TokenTracker
add_usage usage t = record t {
  used = record {
    input_tokens = t.used.input_tokens + usage.input_tokens;
    output_tokens = t.used.output_tokens + usage.output_tokens;
    cache_read = t.used.cache_read + usage.cache_read;
    cache_write = t.used.cache_write + usage.cache_write;
  };
}

-- Whether `CheckBudget` returns no error.
unfoldable pub check_budget : ℕ → TokenTracker → Bool
check_budget additional t =
    if eqb t.budget 0
    then true
    else if ltb t.budget (total t.used + additional)
    then false
    else true

-- `Remaining`, `none` being its -1.
unfoldable pub remaining : TokenTracker → Option ℕ
remaining t = if eqb t.budget 0 then none else some (t.budget - total t.used)
