-- ===== src/Examples/Rules.antt =====
-- internal/policy/policy.go on an agent with an unpinned import.
use agentspec.Examples.Planning.{agent}
use agentspec.Base.{refl, String, [], ◌∷◌, In, ◌↔◌, ◌≡◌}
use agentspec.Ir.{Rule, Policy, Resource}
use agentspec.Policy.{Violation, evaluate, evaluate_rule}
use agentspec.Policy.Collected.{evaluate-Violates, Violates}

abbrev pinned : Rule
pinned = record { action = "require"; resource = "*"; subject = "pinned imports" }

abbrev policy : Policy
policy = record { name = "strict"; rules = pinned ∷ [] }

abbrev importing : Resource
importing = record agent { references = "lib@latest" ∷ [] }

abbrev violation : Violation
violation = record {
  rule = pinned;
  resource = importing;
  message = "requirement not met: pinned imports";
  details = "Unpinned imports: lib@latest";
}

abbrev quote : String → String
quote s = s

evaluate-Violates_example :
    ((v : Violation)
      → In v (evaluate quote (policy ∷ []) (importing ∷ []))
      → Violates quote (policy ∷ []) (importing ∷ []) v.rule v.resource)
    × ((rule : Rule) (r : Resource)
        → Violates quote (policy ∷ []) (importing ∷ []) rule r
        → (v : Violation) × In v (evaluate quote (policy ∷ []) (importing ∷ []))
          × (v.rule ≡ rule)
          × (v.resource ≡ r))
evaluate-Violates_example = evaluate-Violates quote (policy ∷ []) (importing ∷ [])

reported : evaluate quote (policy ∷ []) (importing ∷ []) ≡ violation ∷ []
unfolding evaluate evaluate_rule agentspec.Policy.matches_pattern agentspec.Policy.check_requirement
    agentspec.Policy.check_pinned_imports agentspec.Policy.has_version_pin agentspec.Base.keep
reported = refl
