-- ===== src/Validation/Retry.antt =====
-- internal/validation/retry.go: `RetryLoop`. The agent is a parameter with a state of its own, `invoke`. The
-- loop has no bound in the code; here it runs on fuel, and `none` is out of fuel.
pub mod Ends
use agentspec.Base.{
  ℕ, zero, suc, ◌+◌, String, str_append, List, [], ◌∷◌, ◌++◌, Option, none, some, Bool, true, false,
  if◌then◌else◌, ltb, positive_or,
}
use agentspec.Base.Maps.{Map, lookup, insert}
use agentspec.Pipeline.Dag.{or_zero}
use agentspec.State.{Result, ok, err}
use agentspec.Validation.{RuleDef, ValidationResult, Evaluated, validate, failed_error_rules}

-- `retryCount`, `hasRetries` and `feedbackParts`.
pub record Spending : Type 0 where
  pub has_retries : Bool
  pub retry_count : Map ℕ
  pub feedback : List String

-- What `RetryLoop` returns, with the agent's state after it.
pub record Answer (S : Type 0) : Type 0 where
  pub output : String
  pub result : ValidationResult
  pub error : Option String
  pub state : S

unfoldable pub max_of : ℕ → RuleDef → ℕ
max_of default rule = positive_or (positive_or rule.max_retries default) 3

-- The loop over the failed rules.
unfoldable pub spend_rule : ℕ → RuleDef → Spending → Spending
spend_rule default rule s =
    let count = or_zero (lookup rule.name s.retry_count) in
    if ltb count (max_of default rule)
    then record {
      has_retries = true;
      retry_count = insert rule.name (count + 1) s.retry_count;
      feedback =
          s.feedback ++ str_append "- " (str_append rule.name (str_append ": " rule.message)) ∷ [];
    }
    else s

pub spend : ℕ → List RuleDef → Spending → Spending
spend default [] s = s
spend default (rule ∷ rules) s = spend default rules (spend_rule default rule s)

pub failure_lines : List String → String
failure_lines [] = ""
failure_lines (f ∷ fs) = str_append f (str_append "\n" (failure_lines fs))

unfoldable pub build_retry_prompt : String → String → List String → String
unfolding failure_lines
build_retry_prompt original previous failures =
    str_append "The previous response did not pass validation checks. " (
      str_append "Please try again with the following feedback:\n\n" (
        str_append "Original request: " (
          str_append original (
            str_append "\n\nValidation failures:\n" (
              str_append (failure_lines failures) (
                str_append "\nPrevious response (rejected):\n"
                  (str_append previous "\n\nPlease provide a corrected response.")))))))

pub join_errors : List String → String
join_errors [] = ""
join_errors (s ∷ []) = s
join_errors (s ∷ t ∷ rest) = str_append s (str_append "; " (join_errors (t ∷ rest)))

module _ {S : Type 0} (quote : String → String) (eval : String → String → String → Evaluated)
    (invoke : S → String → Result String × S) (rules : List RuleDef) (default : ℕ)
    (input : String) where
  -- The verdict on an output; `eval` takes the input and the output of the context.
  unfoldable pub verdict : String → ValidationResult
  verdict output = validate quote (eval input output) rules

  pub exhausted : String → Spending → S → Answer S
  exhausted output spent state = record {
    output = output;
    result = verdict output;
    error =
        some (str_append "validation failed after retries: " (join_errors (verdict output).errors));
    state = state;
  }

  abbrev pub accepted : String → S → Answer S
  accepted output state = record {
    output = output;
    result = verdict output;
    error = none;
    state = state;
  }

  -- An invocation's error ends the loop with the output before it.
  abbrev pub after_invoke :
      String → (String → S → Option (Answer S)) → Result String × S → Option (Answer S)
  after_invoke output again (ok new, state) = again new state
  after_invoke output again (err e, state) = some (record {
    output = output;
    result = verdict output;
    error = some (str_append "retry invocation failed: " e);
    state = state;
  })

  unfoldable pub spend_round : List RuleDef → Map ℕ → Spending
  unfolding spend
  spend_round failed counts =
      spend default failed (record { has_retries = false; retry_count = counts; feedback = [] })

  -- One attempt whose output has the given failed rules.
  pub attempt :
      String
      → (Map ℕ → String → S → Option (Answer S))
      → List RuleDef
      → Map ℕ
      → S
      → Option (Answer S)
  attempt output again [] counts state = some (accepted output state)
  attempt output again (r ∷ rs) counts state =
      let spent = spend_round (r ∷ rs) counts in
      if spent.has_retries
      then after_invoke output (again spent.retry_count)
          (invoke state (build_retry_prompt input output spent.feedback))
      else some (exhausted output spent state)

  pub retry_from : ℕ → Map ℕ → String → S → Option (Answer S)
  retry_from zero counts output state = none
  retry_from (suc fuel) counts output state =
      let again = retry_from fuel in
      let result = verdict output in
      if result.passed
      then some (accepted output state)
      else attempt output again (failed_error_rules rules result) counts state

-- How many retries rules have together.
pub retries : ℕ → List RuleDef → ℕ
retries default [] = 0
retries default (rule ∷ rules) = max_of default rule + retries default rules

-- The fuel is one more than the retries that all rules have together.
unfoldable pub retry_loop :
    {S : Type 0} (quote : String → String) (eval : String → String → String → Evaluated)
    (invoke : S → String → Result String × S) (rules : List RuleDef) (default : ℕ)
    → String
    → String
    → S
    → Option (Answer S)
unfolding attempt retry_from retries exhausted
retry_loop quote eval invoke rules default input output state =
    retry_from quote eval invoke rules default input (suc (retries default rules)) [] output state
