-- ===== src/Examples/Merging.antt =====
-- The policy of a team merged with that of its organization.
use agentspec.Base.{
  refl, none, some, [], ◌∷◌, String, ltb, ℕ, Option, if◌then◌else◌, ◌≡◌, ◌==◌, eqb,
}
use agentspec.Operator.Merge.{CostBudget, RateLimits, PolicySpec, merge_policies}
use agentspec.Operator.Merge.Restrictive.{Restrictive, merge_policies-Restrictive}

abbrev parse : String → Option ℕ
parse s = if s == "10" then some 10 else if s == "5" then some 5 else none

abbrev format : ℕ → String
format n = if eqb n 5 then "5" else "10"

abbrev team : PolicySpec
team = record {
  cost_budget = some (record { max_daily_cost = "10"; currency = "USD" });
  allowed_models = "small" ∷ "large" ∷ [];
  denied_models = "old" ∷ [];
  rate_limits = some (record { requests_per_minute = 60; tokens_per_minute = 0 });
  content_filters = record { kind = "input"; pattern = "secret" } ∷ [];
  tool_restrictions = some (record { allowed_tools = "shell" ∷ "web" ∷ []; denied_tools = [] });
}

abbrev organization : PolicySpec
organization = record {
  cost_budget = some (record { max_daily_cost = "5"; currency = "EUR" });
  allowed_models = "large" ∷ "vision" ∷ [];
  denied_models = "old" ∷ "beta" ∷ [];
  rate_limits = some (record { requests_per_minute = 30; tokens_per_minute = 1000 });
  content_filters = record { kind = "input"; pattern = "secret" } ∷ [];
  tool_restrictions = some (record { allowed_tools = []; denied_tools = "mail" ∷ [] });
}

merge_policies-Restrictive_example :
    Restrictive
      (team ∷ organization ∷ [])
      (merge_policies parse format ltb (team ∷ organization ∷ []))
merge_policies-Restrictive_example =
    merge_policies-Restrictive parse format ltb (team ∷ organization ∷ [])

merges : merge_policies parse format ltb (team ∷ organization ∷ []) ≡ record {
  cost_budget = some (record { max_daily_cost = "5"; currency = "EUR" });
  allowed_models = "large" ∷ [];
  denied_models = "old" ∷ "beta" ∷ [];
  rate_limits = some (record { requests_per_minute = 30; tokens_per_minute = 1000 });
  content_filters = record { kind = "input"; pattern = "secret" } ∷ [];
  tool_restrictions =
      some (record { allowed_tools = "shell" ∷ "web" ∷ []; denied_tools = "mail" ∷ [] });
}
unfolding merge_policies agentspec.Operator.Merge.merge_cost_budgets
    agentspec.Operator.Merge.merge_allowed_models agentspec.Operator.Merge.merge_denied_models
    agentspec.Operator.Merge.merge_rate_limits agentspec.Operator.Merge.merge_content_filters
    agentspec.Operator.Merge.merge_tool_restrictions agentspec.Operator.Merge.lowest_cost
    agentspec.Operator.Merge.intersection agentspec.Operator.Merge.union_of
    agentspec.Operator.Merge.least_limits agentspec.Operator.Merge.restrictions
    agentspec.Operator.Merge.sets_of agentspec.Operator.Merge.add_all agentspec.Operator.Merge.lower
    agentspec.Operator.Merge.intersect agentspec.Operator.Merge.add_new agentspec.Base.keep
    agentspec.Operator.Merge.same_filter agentspec.Operator.Merge.to_set
merges = refl

-- Lists of allowed models without a common name leave no list, as a policy without restriction has.
disjoint :
    PolicySpec.allowed_models (
      merge_policies parse format ltb (
        record team { allowed_models = "small" ∷ [] }
        ∷ record team { allowed_models = "large" ∷ [] }
        ∷ []))
    ≡ []
unfolding merge_policies agentspec.Operator.Merge.merge_allowed_models
    agentspec.Operator.Merge.intersection agentspec.Operator.Merge.sets_of
    agentspec.Operator.Merge.intersect agentspec.Base.keep agentspec.Operator.Merge.to_set
    agentspec.Operator.Merge.add_all agentspec.Operator.Merge.add_new
disjoint = refl
