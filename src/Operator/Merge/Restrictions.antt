-- ===== src/Operator/Merge/Restrictions.antt =====
-- The restrictions on tools of a merge of policies.
use agentspec.Base.{
  some, none, refl, [], ◌∷◌, List, Option, ◌≡◌, In, some, subst, ◌∙◌, sym, not, String, ◌↔◌, map,
  ◌==◌, ap, cons_if,
}
use agentspec.Operator.Merge.{
  PolicySpec, ToolRestrictions, intersection, merge_tool_restrictions, restrictions, sets_of,
  union_of, add_all, cons_present, merged_tools, is_empty, to_set,
}
use agentspec.Operator.Merge.Members.{InAll, InOne, union_of-Held, string_decides, intersection-In}

-- The lists of the tools, empty for a policy without restrictions.
abbrev pub tool_list : (ToolRestrictions → List String) → Option ToolRestrictions → List String
tool_list f none = []
tool_list f (some t) = f t

abbrev pub allowed_tools_of : PolicySpec → List String
allowed_tools_of p = tool_list ToolRestrictions.allowed_tools p.tool_restrictions

abbrev pub denied_tools_of : PolicySpec → List String
denied_tools_of p = tool_list ToolRestrictions.denied_tools p.tool_restrictions

merged-allowed :
    (ts : List ToolRestrictions)
    → tool_list ToolRestrictions.allowed_tools (merged_tools ts)
      ≡ intersection (sets_of (map ToolRestrictions.allowed_tools ts))
unfolding intersection sets_of
merged-allowed [] = refl
merged-allowed (t ∷ ts) = refl

merged-denied :
    (ts : List ToolRestrictions)
    → tool_list ToolRestrictions.denied_tools (merged_tools ts)
      ≡ union_of ◌==◌ [] (map ToolRestrictions.denied_tools ts)
unfolding union_of
merged-denied [] = refl
merged-denied (t ∷ ts) = refl

sets_of-present :
    (o : Option ToolRestrictions) (ts : List ToolRestrictions)
    → sets_of (map ToolRestrictions.allowed_tools (cons_present o ts))
      ≡ sets_of (tool_list ToolRestrictions.allowed_tools o ∷ map ToolRestrictions.allowed_tools ts)
unfolding sets_of
sets_of-present none ts = refl
sets_of-present (some t) ts = refl

sets_of-restrictions :
    (policies : List PolicySpec)
    → sets_of (map ToolRestrictions.allowed_tools (restrictions policies))
      ≡ sets_of (map allowed_tools_of policies)
unfolding restrictions sets_of
sets_of-restrictions [] = refl
sets_of-restrictions (p ∷ policies) =
    sets_of-present p.tool_restrictions (restrictions policies)
    ∙ ap (cons_if (not (is_empty (allowed_tools_of p))) (to_set (allowed_tools_of p)))
        (sets_of-restrictions policies)

union_of-present :
    (seen : List String) (o : Option ToolRestrictions) (ts : List ToolRestrictions)
    → union_of ◌==◌ seen (map ToolRestrictions.denied_tools (cons_present o ts))
      ≡ union_of ◌==◌ seen
          (tool_list ToolRestrictions.denied_tools o ∷ map ToolRestrictions.denied_tools ts)
unfolding union_of add_all
union_of-present seen none ts = refl
union_of-present seen (some t) ts = refl

union_of-restrictions :
    (seen : List String) (policies : List PolicySpec)
    → union_of ◌==◌ seen (map ToolRestrictions.denied_tools (restrictions policies))
      ≡ union_of ◌==◌ seen (map denied_tools_of policies)
unfolding restrictions union_of
union_of-restrictions seen [] = refl
union_of-restrictions seen (p ∷ policies) =
    union_of-present seen p.tool_restrictions (restrictions policies)
    ∙ union_of-restrictions (add_all ◌==◌ seen (denied_tools_of p)) policies

pub tools-allowed :
    (t : String) (policies : List PolicySpec)
    → In t (tool_list ToolRestrictions.allowed_tools (merge_tool_restrictions policies))
      ↔ (InOne t (map allowed_tools_of policies) × InAll t (map allowed_tools_of policies))
unfolding merge_tool_restrictions
tools-allowed t policies =
    subst
      (λ xs.
        In t xs
        ↔ (InOne t (map allowed_tools_of policies) × InAll t (map allowed_tools_of policies)))
      (sym
        (merged-allowed (restrictions policies) ∙ ap intersection (sets_of-restrictions policies)))
      (intersection-In t (map allowed_tools_of policies))

pub tools-denied :
    (t : String) (policies : List PolicySpec)
    → In t (tool_list ToolRestrictions.denied_tools (merge_tool_restrictions policies))
      ↔ ((p : PolicySpec) × In p policies × In t (denied_tools_of p))
unfolding merge_tool_restrictions
tools-denied t policies =
    subst (λ xs. In t xs ↔ ((p : PolicySpec) × In p policies × In t (denied_tools_of p)))
      (sym (merged-denied (restrictions policies) ∙ union_of-restrictions [] policies))
      (union_of-Held ◌==◌ string_decides denied_tools_of t policies)
