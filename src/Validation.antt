-- ===== src/Validation.antt =====
-- internal/validation/validator.go: the rules that an agent's output is checked against. `eval` is
-- `expr.EvalString` on the context of the output, which wraps a third-party engine; `quote` is the verb %q
-- of fmt. A number of retries below 0 is treated by the code as 0, so the numbers are natural.
pub mod Verdict
pub mod Retry
use agentspec.Base.{
  ℕ, String, str_append, List, [], ◌∷◌, ◌++◌, Option, none, some, Bool, true, false, ◌==◌, ◌&&◌,
  not, if◌then◌else◌, find, length,
}
use agentspec.Ir.{Value, text, number, slice, object, Values, none_left, item, Fields}
use agentspec.Policy.{lookup_field, as_text}

pub record RuleDef : Type 0 where
  pub name : String
  pub expression : String
  pub severity : String
  pub message : String
  pub max_retries : ℕ

pub record RuleResult : Type 0 where
  pub rule_name : String
  pub passed : Bool
  pub severity : String
  pub message : String
  pub expression : String
  pub error : String

pub record ValidationResult : Type 0 where
  pub passed : Bool
  pub rules_checked : ℕ
  pub results : List RuleResult
  pub warnings : List String
  pub errors : List String

-- What the evaluation of an expression gives: a Boolean, a value of another Go type, named by %T, or an
-- error.
pub data Evaluated : Type 0 where
  truth : Bool → Evaluated
  other_type : String → Evaluated
  eval_error : String → Evaluated

-- The body of the loop of `Validate`: a rule of neither severity is only listed.
unfoldable pub add_result : ValidationResult → RuleResult → ValidationResult
add_result result rr =
    let listed = record result { results = result.results ++ rr ∷ [] } in
    if rr.passed
    then listed
    else if rr.severity == "error"
    then record listed { passed = false; errors = result.errors ++ rr.message ∷ [] }
    else if rr.severity == "warning"
    then record listed { warnings = result.warnings ++ rr.message ∷ [] }
    else listed

abbrev pub no_result : List RuleDef → ValidationResult
no_result rules = record {
  passed = true;
  rules_checked = length rules;
  results = [];
  warnings = [];
  errors = [];
}

module _ (quote : String → String) where
  failed_message : RuleDef → String
  failed_message rule =
      if rule.message == ""
      then str_append "Rule " (str_append (quote rule.name) " failed")
      else rule.message

  pub judge : RuleDef → Evaluated → RuleResult
  judge rule (eval_error e) = record {
    rule_name = rule.name;
    passed = false;
    severity = rule.severity;
    message =
        str_append "Rule "
          (str_append (quote rule.name) (str_append ": expression evaluation failed: " e));
    expression = rule.expression;
    error = e;
  }
  judge rule (other_type t) = record {
    rule_name = rule.name;
    passed = false;
    severity = rule.severity;
    message =
        str_append "Rule " (str_append (quote rule.name) ": expression did not return a boolean");
    expression = rule.expression;
    error = str_append "expression returned " (str_append t ", expected bool");
  }
  judge rule (truth b) = record {
    rule_name = rule.name;
    passed = b;
    severity = rule.severity;
    message = if b then "" else failed_message rule;
    expression = rule.expression;
    error = "";
  }

  unfoldable pub evaluate_rule : (String → Evaluated) → RuleDef → RuleResult
  unfolding failed_message judge
  evaluate_rule eval rule = judge rule (eval rule.expression)

  pub validate_from : (String → Evaluated) → ValidationResult → List RuleDef → ValidationResult
  validate_from eval result [] = result
  validate_from eval result (rule ∷ rules) =
      validate_from eval (add_result result (evaluate_rule eval rule)) rules

  unfoldable pub validate : (String → Evaluated) → List RuleDef → ValidationResult
  unfolding validate_from
  validate eval rules = validate_from eval (no_result rules) rules

unfoldable pub is_error : RuleResult → Bool
is_error rr = not rr.passed && (rr.severity == "error")

abbrev pub add_found : Option RuleDef → List RuleDef → List RuleDef
add_found none rest = rest
add_found (some rule) rest = rule ∷ rest

-- The loops of `FailedErrorRules`: the first rule of the name.
pub failed_of : List RuleDef → List RuleResult → List RuleDef
failed_of rules [] = []
failed_of rules (rr ∷ rrs) =
    let rest = failed_of rules rrs in
    if is_error rr
    then add_found (find (λ (rule : RuleDef). rule.name == rr.rule_name) rules) rest
    else rest

unfoldable pub failed_error_rules : List RuleDef → ValidationResult → List RuleDef
unfolding failed_of
failed_error_rules rules result = failed_of rules result.results

-- `ExtractValidationRules`: what a field holds of the type asked for, or the default.
abbrev pub text_or : String → Option String → String
text_or default none = default
text_or default (some s) = s

abbrev pub number_or : ℕ → Option Value → ℕ
number_or default (some (number n)) = n
number_or default _ = default

unfoldable pub rule_of : Fields → RuleDef
rule_of fields = record {
  name = text_or "" (as_text (lookup_field "name" fields));
  expression = text_or "" (as_text (lookup_field "expression" fields));
  severity = text_or "error" (as_text (lookup_field "severity" fields));
  message = text_or "" (as_text (lookup_field "message" fields));
  max_retries = number_or 3 (lookup_field "max_retries" fields);
}

pub rules_of : Values → List RuleDef
rules_of none_left = []
rules_of (item (object fields) rest) = rule_of fields ∷ rules_of rest
rules_of (item v rest) = rules_of rest

abbrev pub rules_in : Option Value → List RuleDef
rules_in (some (slice items)) = rules_of items
rules_in _ = []

unfoldable pub extract_validation_rules : Fields → List RuleDef
unfolding rules_of
extract_validation_rules attrs = rules_in (lookup_field "validation_rules" attrs)
