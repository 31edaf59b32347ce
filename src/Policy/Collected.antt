-- ===== src/Policy/Collected.antt =====
-- Every violation is collected, and nothing else.
use agentspec.Base.{
  String, List, [], ◌∷◌, ◌++◌, Option, some, none, In, inl, inr, ◌≡◌, ◌⊎◌, ◌↔◌, refl,
  In-append_cases, In-append_left, In-append_right, ap, subst, ◌∙◌, sym,
}
use agentspec.Ir.{Rule, Policy, Resource}
use agentspec.Policy.Broken.{Broken, evaluate_rule-Broken}
use agentspec.Policy.{
  Violation, collect, evaluate, evaluate_rule, evaluate_resources, evaluate_rules,
  evaluate_policies,
}

module _ (quote : String → String) where
  -- A rule of the policies whose evaluation gives the violation.
  abbrev pub Raised : List Policy → List Resource → Violation → Type 0
  Raised policies resources v =
      (p : Policy) × In p policies
      × ((rule : Rule) × In rule p.rules
          × ((r : Resource) × In r resources × (evaluate_rule quote rule r ≡ some v)))

  collect-In :
      (o : Option Violation) (vs : List Violation) (v : Violation)
      → In v (collect quote o vs) ↔ In v vs ⊎ (o ≡ some v)
  collect-In none vs v = (λ i. inl i, split)
    where
      split : In v vs ⊎ (none ≡ some v) → In v vs
      split (inl i) = i
      split (inr e) = absurd cc
  collect-In (some x) vs v = (there, back)
    where
      there : In v (vs ++ x ∷ []) → In v vs ⊎ (some x ≡ some v)
      there i = elim (In-append_cases v vs (x ∷ []) i) [
        | inl l ↦ inl l
        | inr r ↦ elim r [ inl e ↦ inr (ap some e) | inr n ↦ elim n [ ] ]
      ]

      back : In v vs ⊎ (some x ≡ some v) → In v (vs ++ x ∷ [])
      back (inl i) = In-append_left v vs (x ∷ []) i
      back (inr e) = In-append_right v vs (x ∷ []) (inl cc)

  abbrev By : Rule → List Resource → Violation → Type 0
  By rule rs v = (r : Resource) × In r rs × (evaluate_rule quote rule r ≡ some v)

  abbrev ByRules : List Resource → List Rule → Violation → Type 0
  ByRules rs rules v = (rule : Rule) × In rule rules × By rule rs v

  resources-In :
      (rule : Rule) (rs : List Resource) (vs : List Violation) (v : Violation)
      → In v (evaluate_resources quote rule rs vs) ↔ In v vs ⊎ By rule rs v
  unfolding evaluate_resources
  resources-In rule [] vs v = (λ i. inl i, split)
    where
      split : In v vs ⊎ By rule [] v → In v vs
      split (inl i) = i
      split (inr (r, i, e)) = elim i [ ]
  resources-In rule (x ∷ xs) vs v =
      let here = collect-In (evaluate_rule quote rule x) vs v in
      let later = resources-In rule xs (collect quote (evaluate_rule quote rule x) vs) v in
      (λ i. there here.0 (later.0 i), λ i. later.1 (back here.1 i))
    where
      there :
          (In v (collect quote (evaluate_rule quote rule x) vs)
            → In v vs ⊎ (evaluate_rule quote rule x ≡ some v))
          → In v (collect quote (evaluate_rule quote rule x) vs) ⊎ By rule xs v
          → In v vs ⊎ By rule (x ∷ xs) v
      there f (inl i) = elim (f i) [ inl j ↦ inl j | inr e ↦ inr (x, inl refl, e) ]
      there f (inr (r, i, e)) = inr (r, inr i, e)

      back :
          (In v vs ⊎ (evaluate_rule quote rule x ≡ some v)
            → In v (collect quote (evaluate_rule quote rule x) vs))
          → In v vs ⊎ By rule (x ∷ xs) v
          → In v (collect quote (evaluate_rule quote rule x) vs) ⊎ By rule xs v
      back f (inl i) = inl (f (inl i))
      back f (inr (r, inl q, e)) = inl (f (inr (ap (evaluate_rule quote rule) q ∙ e)))
      back f (inr (r, inr i, e)) = inr (r, i, e)

  rules-In :
      (rs : List Resource) (rules : List Rule) (vs : List Violation) (v : Violation)
      → In v (evaluate_rules quote rs rules vs) ↔ In v vs ⊎ ByRules rs rules v
  unfolding evaluate_rules
  rules-In rs [] vs v = (λ i. inl i, split)
    where
      split : In v vs ⊎ ByRules rs [] v → In v vs
      split (inl i) = i
      split (inr (r, i, e)) = elim i [ ]
  rules-In rs (x ∷ xs) vs v =
      let here = resources-In x rs vs v in
      let later = rules-In rs xs (evaluate_resources quote x rs vs) v in
      (λ i. there here.0 (later.0 i), λ i. later.1 (back here.1 i))
    where
      there :
          (In v (evaluate_resources quote x rs vs) → In v vs ⊎ By x rs v)
          → In v (evaluate_resources quote x rs vs) ⊎ ByRules rs xs v
          → In v vs ⊎ ByRules rs (x ∷ xs) v
      there f (inl i) = elim (f i) [ inl j ↦ inl j | inr e ↦ inr (x, inl refl, e) ]
      there f (inr (r, i, e)) = inr (r, inr i, e)

      back :
          (In v vs ⊎ By x rs v → In v (evaluate_resources quote x rs vs))
          → In v vs ⊎ ByRules rs (x ∷ xs) v
          → In v (evaluate_resources quote x rs vs) ⊎ ByRules rs xs v
      back f (inl i) = inl (f (inl i))
      back f (inr (r, inl q, e)) = inl (f (inr (subst (λ y. By y rs v) (sym q) e)))
      back f (inr (r, inr i, e)) = inr (r, i, e)

  policies-In :
      (rs : List Resource) (ps : List Policy) (vs : List Violation) (v : Violation)
      → In v (evaluate_policies quote rs ps vs) ↔ In v vs ⊎ Raised ps rs v
  unfolding evaluate_policies
  policies-In rs [] vs v = (λ i. inl i, split)
    where
      split : In v vs ⊎ Raised [] rs v → In v vs
      split (inl i) = i
      split (inr (p, i, e)) = elim i [ ]
  policies-In rs (x ∷ xs) vs v =
      let here = rules-In rs x.rules vs v in
      let later = policies-In rs xs (evaluate_rules quote rs x.rules vs) v in
      (λ i. there here.0 (later.0 i), λ i. later.1 (back here.1 i))
    where
      there :
          (In v (evaluate_rules quote rs x.rules vs) → In v vs ⊎ ByRules rs x.rules v)
          → In v (evaluate_rules quote rs x.rules vs) ⊎ Raised xs rs v
          → In v vs ⊎ Raised (x ∷ xs) rs v
      there f (inl i) = elim (f i) [ inl j ↦ inl j | inr e ↦ inr (x, inl refl, e) ]
      there f (inr (r, i, e)) = inr (r, inr i, e)

      back :
          (In v vs ⊎ ByRules rs x.rules v → In v (evaluate_rules quote rs x.rules vs))
          → In v vs ⊎ Raised (x ∷ xs) rs v
          → In v (evaluate_rules quote rs x.rules vs) ⊎ Raised xs rs v
      back f (inl i) = inl (f (inl i))
      back f (inr (p, inl q, e)) = inl (f (inr (subst (λ y. ByRules rs y.rules v) (sym q) e)))
      back f (inr (p, inr i, e)) = inr (p, i, e)

  -- A resource breaks a rule of the policies.
  abbrev pub Violates : List Policy → List Resource → Rule → Resource → Type 0
  Violates policies resources rule r =
      ((p : Policy) × In p policies × In rule p.rules) × In r resources × Broken rule r

  evaluate-Raised :
      (policies : List Policy) (resources : List Resource) (v : Violation)
      → In v (evaluate quote policies resources) ↔ Raised policies resources v
  unfolding evaluate
  evaluate-Raised policies resources v =
      let (f, g) = policies-In resources policies [] v in (λ i. only (f i), λ i. g (inr i))
    where
      only : In v [] ⊎ Raised policies resources v → Raised policies resources v
      only (inl i) = elim i [ ]
      only (inr x) = x

  -- Every violation that `Evaluate` returns is of a rule of the policies by a resource that breaks it, and for
  -- every rule and resource that breaks it a violation is returned. A rule is broken by a resource
  -- that it concerns, if it denies the resource's command, or anything else, or if it makes a requirement
  -- that the resource does not meet.
  pub evaluate-Violates :
      (policies : List Policy) (resources : List Resource)
      → ((v : Violation)
          → In v (evaluate quote policies resources)
          → Violates policies resources v.rule v.resource)
        × ((rule : Rule) (r : Resource)
            → Violates policies resources rule r
            → (v : Violation) × In v (evaluate quote policies resources)
              × (v.rule ≡ rule)
              × (v.resource ≡ r))
  evaluate-Violates policies resources = (
    λ v i.
        let (p, here, (rule, there, (r, k, e))) = (evaluate-Raised policies resources v).0 i in
        elim (evaluate_rule-Broken quote rule r) [
          | inl (broken, (w, f, s, t)) ↦
              let q = the_same (sym f ∙ e) in
              subst (λ x. Violates policies resources x v.resource)
                (sym s ∙ ap (λ (x : Violation). x.rule) q)
                (subst (λ x. Violates policies resources rule x)
                  (sym t ∙ ap (λ (x : Violation). x.resource) q) ((p, here, there), k, broken))
          | inr (fine, f) ↦ cc (e, f)
        ],
    λ rule r ((p, here, there), k, broken). elim (evaluate_rule-Broken quote rule r) [
      | inl (b, (v, e, s, t)) ↦
          (v, (evaluate-Raised policies resources v).1 (p, here, (rule, there, (r, k, e))), s, t)
      | inr (fine, f) ↦ absurd (fine broken)
    ],
  )
    where
      the_same : {x y : Violation} → some x ≡ some y → x ≡ y
      the_same h = cc
