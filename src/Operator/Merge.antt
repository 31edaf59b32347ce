-- ===== src/Operator/Merge.antt =====
-- internal/operator/controller/policy_merge.go: the merge of the policies of an agent. Costs are texts that
-- `ParseFloat` reads and `FormatFloat` writes: their numbers, the two functions and the order are
-- parameters. A Go map of names is here the list of its keys, in the order of their insertion, which
-- Go leaves open. A negative limit counts as unset, as 0 does. The target selector of a policy,
-- which a merge of several leaves empty, is left out.
pub mod Members
pub mod Limits
pub mod Restrictions
pub mod Restrictive
use agentspec.Base.{
  cons_if, ℕ, zero, String, List, [], ◌∷◌, ◌++◌, Option, none, some, Bool, true, false, not, ◌&&◌,
  ◌||◌, ◌==◌, if◌then◌else◌, ltb, map, keep,
}

pub record CostBudget : Type 0 where
  pub max_daily_cost : String
  pub currency : String

pub record RateLimits : Type 0 where
  pub requests_per_minute : ℕ
  pub tokens_per_minute : ℕ

pub record ContentFilter : Type 0 where
  pub kind : String
  pub pattern : String

pub record ToolRestrictions : Type 0 where
  pub allowed_tools : List String
  pub denied_tools : List String

pub record PolicySpec : Type 0 where
  pub cost_budget : Option CostBudget
  pub allowed_models : List String
  pub denied_models : List String
  pub rate_limits : Option RateLimits
  pub content_filters : List ContentFilter
  pub tool_restrictions : Option ToolRestrictions

module _ {A : Type 0} (same : A → A → Bool) where
  unfoldable pub contains : A → List A → Bool
  contains a [] = false
  contains a (x ∷ xs) = same x a || contains a xs

  -- `seen[k] = true`.
  unfoldable pub add_new : A → List A → List A
  unfolding contains
  add_new a seen = if contains a seen then seen else seen ++ a ∷ []

  unfoldable pub add_all : List A → List A → List A
  add_all seen [] = seen
  add_all seen (x ∷ xs) = add_all (add_new x seen) xs

  unfoldable pub union_of : List A → List (List A) → List A
  union_of seen [] = seen
  union_of seen (xs ∷ xss) = union_of (add_all seen xs) xss

abbrev pub is_empty {ℓ} : {A : Type ℓ} → List A → Bool
is_empty [] = true
is_empty (x ∷ xs) = false

unfoldable pub to_set : List String → List String
to_set xs = add_all ◌==◌ [] xs

-- The sets of the lists that are not empty.
unfoldable pub sets_of : List (List String) → List (List String)
sets_of [] = []
sets_of (xs ∷ xss) = cons_if (not (is_empty xs)) (to_set xs) (sets_of xss)

unfoldable pub intersect : List String → List (List String) → List String
intersect s [] = s
intersect s (t ∷ ts) = intersect (keep (λ k. contains ◌==◌ k t) s) ts

unfoldable pub intersection : List (List String) → List String
intersection [] = []
intersection (s ∷ ts) = intersect s ts

abbrev pub allowed_of : PolicySpec → List String
allowed_of p = p.allowed_models

abbrev pub denied_of : PolicySpec → List String
denied_of p = p.denied_models

abbrev pub filters_of : PolicySpec → List ContentFilter
filters_of p = p.content_filters

unfoldable pub merge_allowed_models : List PolicySpec → List String
merge_allowed_models policies = intersection (sets_of (map allowed_of policies))

unfoldable pub merge_denied_models : List PolicySpec → List String
merge_denied_models policies = union_of ◌==◌ [] (map denied_of policies)

unfoldable pub same_filter : ContentFilter → ContentFilter → Bool
same_filter f g = (f.kind == g.kind) && (f.pattern == g.pattern)

unfoldable pub merge_content_filters : List PolicySpec → List ContentFilter
merge_content_filters policies = union_of same_filter [] (map filters_of policies)

-- The least of the limits that are set, 0 for none.
unfoldable pub lower : ℕ → ℕ → ℕ
lower least n = if ltb 0 n && (not (ltb 0 least) || ltb n least) then n else least

abbrev pub lower_limits : RateLimits → Option RateLimits → RateLimits
lower_limits least none = least
lower_limits least (some r) = record {
  requests_per_minute = lower least.requests_per_minute r.requests_per_minute;
  tokens_per_minute = lower least.tokens_per_minute r.tokens_per_minute;
}

unfoldable pub least_limits : RateLimits → List PolicySpec → RateLimits
least_limits least [] = least
least_limits least (p ∷ policies) = least_limits (lower_limits least p.rate_limits) policies

unfoldable pub merge_rate_limits : List PolicySpec → Option RateLimits
merge_rate_limits policies =
    let r = least_limits (record { requests_per_minute = 0; tokens_per_minute = 0 }) policies in
    if ltb 0 r.requests_per_minute || ltb 0 r.tokens_per_minute then some r else none

abbrev pub cons_present : Option ToolRestrictions → List ToolRestrictions → List ToolRestrictions
cons_present none ts = ts
cons_present (some t) ts = t ∷ ts

-- The restrictions that are not nil.
unfoldable pub restrictions : List PolicySpec → List ToolRestrictions
restrictions [] = []
restrictions (p ∷ policies) = cons_present p.tool_restrictions (restrictions policies)

abbrev pub merged_tools : List ToolRestrictions → Option ToolRestrictions
merged_tools [] = none
merged_tools (t ∷ ts) = some (record {
  allowed_tools = intersection (sets_of (map (λ (t : ToolRestrictions). t.allowed_tools) (t ∷ ts)));
  denied_tools = union_of ◌==◌ [] (map (λ (t : ToolRestrictions). t.denied_tools) (t ∷ ts));
})

unfoldable pub merge_tool_restrictions : List PolicySpec → Option ToolRestrictions
merge_tool_restrictions policies = merged_tools (restrictions policies)

abbrev pub no_policy : PolicySpec
no_policy = record {
  cost_budget = none;
  allowed_models = [];
  denied_models = [];
  rate_limits = none;
  content_filters = [];
  tool_restrictions = none;
}

module _ {Cost : Type 0} (parse_float : String → Option Cost) (format_float : Cost → String)
    (less : Cost → Cost → Bool) where
  -- `found` with `lowestCost` and `lowestCurrency`.
  abbrev pub lower_cost : Option (Cost × String) → Option Cost → String → Option (Cost × String)
  lower_cost least none currency = least
  lower_cost none (some val) currency = some (val, currency)
  lower_cost (some (least, c)) (some val) currency =
      some (if less val least then (val, currency) else (least, c))

  abbrev pub budget_cost : Option (Cost × String) → Option CostBudget → Option (Cost × String)
  budget_cost least none = least
  budget_cost least (some b) = lower_cost least (parse_float b.max_daily_cost) b.currency

  unfoldable pub lowest_cost : Option (Cost × String) → List PolicySpec → Option (Cost × String)
  lowest_cost least [] = least
  lowest_cost least (p ∷ policies) = lowest_cost (budget_cost least p.cost_budget) policies

  abbrev pub cost_of : Option (Cost × String) → Option CostBudget
  cost_of none = none
  cost_of (some (least, c)) = some (record { max_daily_cost = format_float least; currency = c })

  unfoldable pub merge_cost_budgets : List PolicySpec → Option CostBudget
  merge_cost_budgets policies = cost_of (lowest_cost none policies)

  unfoldable pub merge_policies : List PolicySpec → PolicySpec
  merge_policies [] = no_policy
  merge_policies (p ∷ []) = p
  merge_policies (p ∷ q ∷ policies) = record {
    cost_budget = merge_cost_budgets (p ∷ q ∷ policies);
    allowed_models = merge_allowed_models (p ∷ q ∷ policies);
    denied_models = merge_denied_models (p ∷ q ∷ policies);
    rate_limits = merge_rate_limits (p ∷ q ∷ policies);
    content_filters = merge_content_filters (p ∷ q ∷ policies);
    tool_restrictions = merge_tool_restrictions (p ∷ q ∷ policies);
  }
