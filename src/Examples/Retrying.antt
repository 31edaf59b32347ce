-- ===== src/Examples/Retrying.antt =====
-- internal/validation on one rule that fails for the first two outputs.
use agentspec.Base.{
  ℕ, ◌+◌, ◌≤◌, String, List, [], ◌∷◌, Option, none, some, Bool, true, false, ◌≡◌, refl, ◌↔◌, ◌==◌,
  arith, eqb, if◌then◌else◌,
}
use agentspec.State.{Result, ok}
use agentspec.Validation.{RuleDef, Evaluated, truth, validate, failed_error_rules}
use agentspec.Validation.Retry.{Answer, retry_loop, retries, verdict}
use agentspec.Validation.Retry.Ends.{retry_loop-Settles}

abbrev quote : String → String
quote s = s

abbrev eval : String → String → String → Evaluated
eval input output expression = truth (output == "good")

abbrev rule : RuleDef
rule = record {
  name = "short";
  expression = "output == good";
  severity = "error";
  message = "be good";
  max_retries = 2;
}

-- The state counts the calls; the second answer is good.
abbrev invoke : ℕ → String → Result String × ℕ
invoke calls prompt = (ok (if eqb calls 1 then "good" else "bad"), calls + 1)

retry_loop-Settles_example :
    (a : Answer ℕ) × (retry_loop quote eval invoke (rule ∷ []) 0 "in" "bad" 0 ≡ some a)
    × (a.result ≡ verdict quote eval invoke (rule ∷ []) 0 "in" a.output)
    × ((a.error ≡ none) ↔ (a.result.passed ≡ true))
    × (a.state ≤ 0 + retries 0 (rule ∷ []))
retry_loop-Settles_example =
    retry_loop-Settles quote eval invoke (rule ∷ []) 0 "in" (λ calls. calls)
      (λ s prompt. omega arith) "bad" 0

gives : Option (Answer ℕ) → String × ℕ
gives none = ("", 0)
gives (some a) = (a.output, a.state)

retried : gives (retry_loop quote eval invoke (rule ∷ []) 0 "in" "bad" 0) ≡ ("good", 2)
unfolding gives retry_loop verdict validate agentspec.Validation.add_result
    agentspec.Validation.evaluate_rule failed_error_rules agentspec.Validation.is_error
    agentspec.Base.find agentspec.Validation.Retry.spend_round agentspec.Validation.Retry.spend_rule
    agentspec.Base.Maps.lookup agentspec.Validation.Retry.max_of agentspec.Base.Maps.insert
retried = refl
