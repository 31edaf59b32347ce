-- ===== src/Operator/Merge/Restrictive.antt =====
-- What a merge of policies denies, allows, filters and limits, in terms of the merged ones.
use agentspec.Base.{
  refl, inl, inr, [], ◌∷◌, List, Option, ◌≡◌, In, arith, subst, ◌&&◌, sym, Bool, String, ◌↔◌, map,
  true, eq_iff, ◌==◌, eq_refl,
}
use agentspec.Operator.Merge.{
  PolicySpec, RateLimits, lower, least_limits, lower_limits, same_filter, ContentFilter,
  merge_policies, allowed_of, denied_of, merge_rate_limits, filters_of, ToolRestrictions,
  intersection, merge_tool_restrictions, restrictions, sets_of, union_of, add_all, cons_present,
  merged_tools, is_empty, to_set,
}
use agentspec.Operator.Merge.Members.{InAll, InOne, union_of-Held, string_decides, intersection-In}
use agentspec.Operator.Merge.Limits.{
  limit_of, Least, requests-Lowered, tokens-Lowered, no_limits, merge_rate_limits-Least, Least-one,
  Least-nil,
}
use agentspec.Operator.Merge.Restrictions.{
  allowed_tools_of, denied_tools_of, tools-allowed, tools-denied,
}

-- The merged policy r beside the policies: it denies what one of them denies, filters what one of them
-- filters, allows what one of them names and all that name any name, models as well as tools, and has the
-- least limits.
pub record Restrictive (policies : List PolicySpec) (r : PolicySpec) : Type 0 where
  denied :
      (m : String)
      → In m r.denied_models ↔ ((p : PolicySpec) × In p policies × In m p.denied_models)
  filtered :
      (f : ContentFilter)
      → In f r.content_filters ↔ ((p : PolicySpec) × In p policies × In f p.content_filters)
  allowed :
      (m : String)
      → In m r.allowed_models
        ↔ (InOne m (map allowed_of policies) × InAll m (map allowed_of policies))
  requests :
      Least RateLimits.requests_per_minute policies 0
        (limit_of RateLimits.requests_per_minute r.rate_limits)
  tokens :
      Least RateLimits.tokens_per_minute policies 0
        (limit_of RateLimits.tokens_per_minute r.rate_limits)
  denied_tools :
      (t : String)
      → In t (denied_tools_of r) ↔ ((p : PolicySpec) × In p policies × In t (denied_tools_of p))
  allowed_tools :
      (t : String)
      → In t (allowed_tools_of r)
        ↔ (InOne t (map allowed_tools_of policies) × InAll t (map allowed_tools_of policies))

filter_decides : (f g : ContentFilter) → (same_filter f g ≡ true) ↔ (f ≡ g)
unfolding same_filter
filter_decides f g = (
  λ t. λ i. record {
    kind = (eq_iff f.kind g.kind).0 (ground (arith, t)) i;
    pattern = (eq_iff f.pattern g.pattern).0 (ground (arith, t)) i;
  },
  λ e.
      subst (λ (h : ContentFilter). ((f.kind == h.kind) && (f.pattern == h.pattern)) ≡ true) e
        (ground (arith, eq_refl f.kind, eq_refl f.pattern)),
)

one-Held :
    {A : Type 0} (of : PolicySpec → List A) (k : A) (p : PolicySpec)
    → In k (of p) ↔ ((q : PolicySpec) × In q (p ∷ []) × In k (of q))
one-Held of k p = (
  λ i. (p, inl refl, i),
  λ (q, i, j). elim i [
    | inl e ↦ subst (λ q. In k (of q)) (sym e) j
    | inr no_more ↦ elim no_more [ ]
  ],
)

one-Allowed : (k : String) (xs : List String) → In k xs ↔ (InOne k (xs ∷ []) × InAll k (xs ∷ []))
one-Allowed k xs = (
  λ i. (
    (xs, inl refl, i),
    λ ys j f. elim j [ inl e ↦ subst (λ zs. In k zs) e i | inr no_more ↦ elim no_more [ ] ],
  ),
  λ ((ys, i, j), all). elim i [
    | inl e ↦ subst (λ zs. In k zs) (sym e) j
    | inr no_more ↦ elim no_more [ ]
  ],
)

module _ {Cost : Type 0} (parse_float : String → Option Cost) (format_float : Cost → String)
    (less : Cost → Cost → Bool) where
  -- The merge of policies, none, one or several, denies a model or a tool exactly when one of them denies
  -- it, has exactly their content filters, and allows a model or a tool exactly when one of them names it
  -- as allowed and each with a list of allowed ones names it; its limit of requests and its limit of
  -- tokens are the least of those that are set, or unset when none is.
  pub merge_policies-Restrictive :
      (policies : List PolicySpec)
      → Restrictive policies (merge_policies parse_float format_float less policies)
  unfolding merge_policies agentspec.Operator.Merge.merge_denied_models
      agentspec.Operator.Merge.union_of agentspec.Operator.Merge.merge_content_filters
      agentspec.Operator.Merge.merge_allowed_models agentspec.Operator.Merge.intersection no_limits
  merge_policies-Restrictive [] = record {
    denied = λ m. (λ i. elim i [ ], λ (p, i, j). elim i [ ]);
    filtered = λ f. (λ i. elim i [ ], λ (p, i, j). elim i [ ]);
    allowed = λ m. (λ i. elim i [ ], λ ((xs, i, j), all). elim i [ ]);
    requests = Least-nil _;
    tokens = Least-nil _;
    denied_tools = λ t. (λ i. elim i [ ], λ (p, i, j). elim i [ ]);
    allowed_tools = λ t. (λ i. elim i [ ], λ ((xs, i, j), all). elim i [ ]);
  }
  merge_policies-Restrictive (p ∷ []) = record {
    denied = λ m. one-Held denied_of m p;
    filtered = λ f. one-Held filters_of f p;
    allowed = λ m. one-Allowed m p.allowed_models;
    requests = Least-one _ p;
    tokens = Least-one _ p;
    denied_tools = λ t. one-Held denied_tools_of t p;
    allowed_tools = λ t. one-Allowed t (allowed_tools_of p);
  }
  merge_policies-Restrictive (p ∷ q ∷ policies) = record {
    denied = λ m. union_of-Held ◌==◌ string_decides denied_of m (p ∷ q ∷ policies);
    filtered = λ f. union_of-Held same_filter filter_decides filters_of f (p ∷ q ∷ policies);
    allowed = λ m. intersection-In m (map allowed_of (p ∷ q ∷ policies));
    requests =
        merge_rate_limits-Least RateLimits.requests_per_minute requests-Lowered refl
          (λ r h. ground (arith, h)) (p ∷ q ∷ policies);
    tokens =
        merge_rate_limits-Least RateLimits.tokens_per_minute tokens-Lowered refl
          (λ r h. ground (arith, h)) (p ∷ q ∷ policies);
    denied_tools = λ t. tools-denied t (p ∷ q ∷ policies);
    allowed_tools = λ t. tools-allowed t (p ∷ q ∷ policies);
  }
