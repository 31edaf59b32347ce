-- ===== src/Validation/Verdict.antt =====
-- A validation passes just when no rule of severity "error" is found to have failed, so the second early
-- return of `RetryLoop` is never taken.
use mathlib.Core.List.{append-nil, append_assoc}
use agentspec.Base.{
  String, List, [], ◌∷◌, ◌++◌, Option, none, some, Bool, true, false, ◌≡◌, refl, ap, ◌⊎◌, inl, inr,
  ◌↔◌, Bool-cases, ◌==◌, arith, In, find, if◌then◌else◌, not, ◌&&◌, eq_refl, find_cases, ◌≢◌, sym,
  ◌∙◌,
}
use agentspec.Validation.{
  RuleDef, RuleResult, ValidationResult, Evaluated, truth, other_type, eval_error, evaluate_rule,
  judge, add_result, validate_from, validate, is_error, add_found, failed_of, failed_error_rules,
  no_result,
}

-- The list of results is the rules' results, in order.
all_results : (String → String) → (String → Evaluated) → List RuleDef → List RuleResult
all_results quote eval [] = []
all_results quote eval (rule ∷ rules) = evaluate_rule quote eval rule ∷ all_results quote eval rules

find-In :
    (p : RuleDef → Bool) (rules : List RuleDef) (r : RuleDef) → find p rules ≡ some r → In r rules
unfolding find
find-In p [] r e = cc
find-In p (x ∷ xs) r e = elim (Bool-cases (p x)) [
  | inl t ↦ inl (cc (e, t))
  | inr f ↦ inr (find-In p xs r (cc (e, f)))
]

-- Whether any result is an error.
any_error : List RuleResult → Bool
any_error [] = false
any_error (rr ∷ rrs) = let rest = any_error rrs in if is_error rr then true else rest

abbrev both : Bool → Bool → Bool
both a b = a && not b

add_result-passed :
    (v : ValidationResult) (rr : RuleResult)
    → ((add_result v rr).passed ≡ both v.passed (is_error rr))
      × ((add_result v rr).results ≡ v.results ++ rr ∷ [])
unfolding add_result is_error
add_result-passed v rr = ground arith

and-error : (a e rest : Bool) → both (both a e) rest ≡ both a (if e then true else rest)
and-error a e rest = ground arith

validate_from-passed :
    (quote : String → String) (eval : String → Evaluated) (v : ValidationResult)
    (rules : List RuleDef)
    → ((validate_from quote eval v rules).passed
        ≡ both v.passed (any_error (all_results quote eval rules)))
      × ((validate_from quote eval v rules).results ≡ v.results ++ all_results quote eval rules)
unfolding validate_from all_results any_error
validate_from-passed quote eval v [] = (ground arith, sym (append-nil v.results))
validate_from-passed quote eval v (rule ∷ rules) =
    let rr = evaluate_rule quote eval rule in
    let (passed, listed) = add_result-passed v rr in
    let (p, l) = validate_from-passed quote eval (add_result v rr) rules in
    (
      p
          ∙ ap (λ b. both b (any_error (all_results quote eval rules))) passed
          ∙ and-error v.passed (is_error rr) (any_error (all_results quote eval rules)),
      l
          ∙ ap (λ rs. rs ++ all_results quote eval rules) listed
          ∙ append_assoc v.results (rr ∷ []) (all_results quote eval rules),
    )

module _ (quote : String → String) (eval : String → Evaluated) where
  judge-rule_name : (rule : RuleDef) (e : Evaluated) → (judge quote rule e).rule_name ≡ rule.name
  unfolding judge
  judge-rule_name rule (truth b) = refl
  judge-rule_name rule (other_type t) = refl
  judge-rule_name rule (eval_error e) = refl

  module _ (rules : List RuleDef) where
    -- Each result has a rule that is found by its name.
    found-In :
        (rule : RuleDef)
        → In rule rules
        → (r : RuleDef) × (find
              (λ (r : RuleDef). r.name == (evaluate_rule quote eval rule).rule_name)
              rules
            ≡ some r)
    unfolding evaluate_rule
    found-In rule i =
        elim (find_cases (λ (r : RuleDef). r.name == (evaluate_rule quote eval rule).rule_name)
          rules) [
            | inl (r, same, _, _) ↦ (r, same)
            | inr (_, differ) ↦
                absurd (
                  cc
                    (differ rule i, judge-rule_name rule (eval rule.expression), eq_refl rule.name))
          ]

    failed-any_error :
        (todo : List RuleDef)
        → ((r : RuleDef) → In r todo → In r rules)
        → any_error (all_results quote eval todo) ≡ true
        → failed_of rules (all_results quote eval todo) ≢ []
    unfolding any_error all_results failed_of
    failed-any_error [] sub h e = cc
    failed-any_error (rule ∷ todo) sub h e =
        let (r, same) = found-In rule (sub rule (inl refl)) in
        elim (Bool-cases (is_error (evaluate_rule quote eval rule))) [
          | inl t ↦ cc (t, same, e)
          | inr f ↦ failed-any_error todo (λ r i. sub r (inr i)) (cc (h, f)) (cc (e, f))
        ]

any_error-failed :
    (rules : List RuleDef) (rrs : List RuleResult)
    → any_error rrs ≡ false
    → failed_of rules rrs ≡ []
unfolding any_error failed_of
any_error-failed rules [] h = refl
any_error-failed rules (rr ∷ rrs) h = elim (Bool-cases (is_error rr)) [
  | inl t ↦ cc
  | inr f ↦ rw f (any_error-failed rules rrs (cc (h, f)))
]

added_cases :
    (b : Bool) (found : Option RuleDef) (rest : List RuleDef) (r : RuleDef)
    → In r (if b then add_found found rest else rest)
    → (found ≡ some r) ⊎ In r rest
added_cases true none rest r i = inr i
added_cases true (some q) rest r (inl e) = inl (ap some e)
added_cases true (some q) rest r (inr i) = inr i
added_cases false found rest r i = inr i

pub failed_of-In :
    (rules : List RuleDef) (rrs : List RuleResult) (r : RuleDef)
    → In r (failed_of rules rrs)
    → In r rules
unfolding failed_of
failed_of-In rules [] r i = elim i [ ]
failed_of-In rules (rr ∷ rrs) r i =
    let test = λ (rule : RuleDef). rule.name == rr.rule_name in
    elim (added_cases (is_error rr) (find test rules) (failed_of rules rrs) r i) [
      | inl e ↦ find-In test rules r e
      | inr there ↦ failed_of-In rules rrs r there
    ]

-- The equivalence that `RetryLoop` relies on: an output passes just when no rule of severity "error" is
-- among the failed ones that are looked up by name.
pub validate-failed :
    (quote : String → String) (eval : String → Evaluated) (rules : List RuleDef)
    → ((validate quote eval rules).passed ≡ true)
      ↔ (failed_error_rules rules (validate quote eval rules) ≡ [])
unfolding validate failed_error_rules
validate-failed quote eval rules =
    let (passed, listed) = validate_from-passed quote eval (no_result rules) rules in
    elim (Bool-cases (any_error (all_results quote eval rules))) [
      | inl t ↦ (
        λ h. absurd (cc (h, passed, t)),
        λ e. absurd (failed-any_error quote eval rules rules (λ r i. i) t (cc (e, listed))),
      )
      | inr f ↦ (
        λ h. ap (failed_of rules) listed ∙ any_error-failed rules (all_results quote eval rules) f,
        λ e. cc (passed, f),
      )
    ]
