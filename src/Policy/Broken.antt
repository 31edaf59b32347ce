-- ===== src/Policy/Broken.antt =====
-- When a resource breaks a rule, said without the branches of the engine.
use agentspec.Base.Maps.{is_some}
use agentspec.Base.{
  [], ◌∷◌, inl, inr, none, some, refl, List, Option, ◌≡◌, String, true, ◌⊎◌, In, ◌↔◌, Bool-cases,
  ◌==◌, subst, arith, eq_iff, sym, ◌∙◌, ap,
}
use agentspec.Ir.{Rule, Resource, Fields}
use agentspec.Policy.{
  Violation, matches_pattern, strip_prefix, lookup_field, as_text, as_object, has_version_pin,
  all_pinned, check_pinned_imports, check_secret, check_other, check_requirement, deny_subject,
  evaluate_deny, evaluate_require, evaluate_rule, secret_in, deny_command,
}

-- A rule's resource is "*" or a kind.
abbrev pub Concerns : Rule → Resource → Type 0
Concerns rule r = (rule.resource ≡ "*") ⊎ (rule.resource ≡ r.kind)

-- A denied command is one that the resource names as its binary; any other subject is denied as such.
abbrev pub Denied : Rule → Resource → Type 0
Denied rule r =
    (strip_prefix "command " rule.subject ≡ none)
    ⊎ ((command : String) × (strip_prefix "command " rule.subject ≡ some command)
        × (as_text (lookup_field "binary" r.attributes) ≡ some command))

-- All imports are pinned, or signed packages are asked for, which are not looked at, or the secret is
-- configured. Any other requirement is not met.
abbrev pub Met : Rule → Resource → Type 0
Met rule r =
    (rule.subject ≡ "pinned imports")
      × ((ref : String) → In ref r.references → has_version_pin ref ≡ true)
    ⊎ (rule.subject ≡ "signed packages")
    ⊎ ((name : String) × (strip_prefix "secret " rule.subject ≡ some name)
        × ((secrets : Fields) × (as_object (lookup_field "secrets" r.metadata) ≡ some secrets)
            × (is_some (lookup_field name secrets) ≡ true)))

abbrev pub Broken : Rule → Resource → Type 0
Broken rule r =
    Concerns rule r
    × ((rule.action ≡ "deny") × Denied rule r ⊎ (rule.action ≡ "require") × (Met rule r → ⊥))

matches-Concerns :
    (rule : Rule) (r : Resource) → (matches_pattern rule.resource r.kind ≡ true) ↔ Concerns rule r
unfolding matches_pattern
matches-Concerns rule r = elim (Bool-cases (rule.resource == "*")) [
  | inl t ↦ rw t (λ h. inl ((eq_iff rule.resource "*").0 t), λ c. refl)
  | inr f ↦ rw f (
    λ h. inr ((eq_iff rule.resource r.kind).0 h),
    λ c. elim c [
      | inl e ↦ absurd (ground (arith, f, e, eq_iff rule.resource "*"))
      | inr e ↦ (eq_iff rule.resource r.kind).1 e
    ],
  )
]

all_pinned-In :
    (refs : List String)
    → (all_pinned refs ≡ true) ↔ ((ref : String) → In ref refs → has_version_pin ref ≡ true)
unfolding all_pinned
all_pinned-In [] = (λ h ref i. elim i [ ], λ h. refl)
all_pinned-In (x ∷ xs) = elim (Bool-cases (has_version_pin x)) [
  | inl t ↦ rw t (
    λ h ref i. elim i [
      | inl e ↦ subst (λ y. has_version_pin y ≡ true) e t
      | inr j ↦ (all_pinned-In xs).0 h ref j
    ],
    λ h. (all_pinned-In xs).1 (λ ref j. h ref (inr j)),
  )
  | inr f ↦ rw f (λ h. cc, λ h. absurd (ground (arith, f, h x (inl refl))))
]

check_other-Met :
    (rule : Rule) (r : Resource) (o : Option String)
    → strip_prefix "secret " rule.subject ≡ o
    → check_other o r ≡ true
    → Met rule r
unfolding check_secret
check_other-Met rule r none e h = cc
check_other-Met rule r (some name) e h =
    inr (inr (name, e, configured (as_object (lookup_field "secrets" r.metadata)) refl h))
  where
    configured :
        (o : Option Fields)
        → as_object (lookup_field "secrets" r.metadata) ≡ o
        → secret_in name o ≡ true
        → (secrets : Fields) × (as_object (lookup_field "secrets" r.metadata) ≡ some secrets)
          × (is_some (lookup_field name secrets) ≡ true)
    configured none q h = cc
    configured (some secrets) q h = (secrets, q, h)

Met-check_other :
    (rule : Rule) (r : Resource) (name : String) (secrets : Fields)
    → strip_prefix "secret " rule.subject ≡ some name
    → as_object (lookup_field "secrets" r.metadata) ≡ some secrets
    → is_some (lookup_field name secrets) ≡ true
    → check_other (strip_prefix "secret " rule.subject) r ≡ true
unfolding check_secret
Met-check_other rule r name secrets e q h = rw (e, q) h

pinned_no_secret : (s : String) → s ≡ "pinned imports" → strip_prefix "secret " s ≡ none
unfolding strip_prefix
pinned_no_secret s e = rw e refl

-- What `checkRequirement` answers.
check_requirement-Met :
    (rule : Rule) (r : Resource) → (check_requirement rule.subject r ≡ true) ↔ Met rule r
unfolding check_requirement check_pinned_imports
check_requirement-Met rule r = elim (Bool-cases (rule.subject == "pinned imports")) [
  | inl t ↦
      let here = (eq_iff rule.subject "pinned imports").0 t in
      rw t (
        λ h. inl (here, (all_pinned-In r.references).0 h),
        λ m. elim m [
          | inl (e, all) ↦ (all_pinned-In r.references).1 all
          | inr (inl e) ↦ absurd (other (sym here ∙ e))
          | inr (inr (name, e, rest)) ↦ absurd (no_name (sym (pinned_no_secret _ here) ∙ e))
        ],
      )
  | inr f ↦ rw f (elim (Bool-cases (rule.subject == "signed packages")) [
    | inl t ↦ rw t (λ h. inr (inl ((eq_iff rule.subject "signed packages").0 t)), λ m. refl)
    | inr g ↦ rw g (
      λ h. check_other-Met rule r _ refl h,
      λ m. elim m [
        | inl (e, all) ↦ absurd (ground (arith, f, e, eq_iff rule.subject "pinned imports"))
        | inr (inl e) ↦ absurd (ground (arith, g, e, eq_iff rule.subject "signed packages"))
        | inr (inr (name, e, (secrets, q, h))) ↦ Met-check_other rule r name secrets e q h
      ],
    )
  ])
]
  where
    other : ◌≡◌ {A = String} "pinned imports" "signed packages" → ⊥
    other e = ground (arith, (eq_iff "pinned imports" "signed packages").1 e)

    no_name : {name : String} → none ≡ some name → ⊥
    no_name e = cc

-- A violation is of its rule by its resource.
abbrev pub Of : Rule → Resource → Option Violation → Type 0
Of rule r o = (v : Violation) × (o ≡ some v) × (v.rule ≡ rule) × (v.resource ≡ r)

module _ (quote : String → String) where
  -- The two ways that an evaluation ends.
  abbrev pub Ends : Type 0 → Rule → Resource → Option Violation → Type 0
  Ends P rule r o = P × Of rule r o ⊎ (P → ⊥) × (o ≡ none)

  deny_command-Denied :
      (rule : Rule) (r : Resource) (denied : String) (o : Option String)
      → strip_prefix "command " rule.subject ≡ some denied
      → as_text (lookup_field "binary" r.attributes) ≡ o
      → Ends (Denied rule r) rule r (deny_command quote rule r denied o)
  unfolding deny_command
  deny_command-Denied rule r denied none e q =
      inr (λ d. elim d [ inl n ↦ cc (n, e) | inr (command, c, x) ↦ cc (q, x) ], refl)
  deny_command-Denied rule r denied (some binary) e q = elim (Bool-cases (binary == denied)) [
    | inl t ↦
        rw t
          (inl (inr (denied, e, q ∙ ap some ((eq_iff binary denied).0 t)), (_, refl, refl, refl)))
    | inr f ↦ rw f (
        inr (
          λ d. elim d [
            | inl n ↦ cc (n, e)
            | inr (command, c, x) ↦
                absurd (
                  ground (arith, f, (eq_iff binary denied).1 (same (sym q ∙ x) ∙ same (sym c ∙ e))))
          ],
          refl,
        ))
  ]
    where
      same : {a b : String} → some a ≡ some b → a ≡ b
      same h = cc

  deny_subject-Denied :
      (rule : Rule) (r : Resource) (o : Option String)
      → strip_prefix "command " rule.subject ≡ o
      → Ends (Denied rule r) rule r (deny_subject quote rule r o)
  unfolding deny_subject
  deny_subject-Denied rule r none e = inl (inl e, (_, refl, refl, refl))
  deny_subject-Denied rule r (some denied) e = deny_command-Denied rule r denied _ e refl

  evaluate_deny-Ends :
      (rule : Rule) (r : Resource)
      → Ends (Concerns rule r × Denied rule r) rule r (evaluate_deny quote rule r)
  unfolding evaluate_deny
  evaluate_deny-Ends rule r = elim (Bool-cases (matches_pattern rule.resource r.kind)) [
    | inl t ↦ rw t (elim (deny_subject-Denied rule r _ refl) [
      | inl (d, o) ↦ inl (((matches-Concerns rule r).0 t, d), o)
      | inr (n, e) ↦ inr (λ (c, d). n d, e)
    ])
    | inr f ↦ rw f (inr (λ (c, d). absurd (ground (arith, f, (matches-Concerns rule r).1 c)), refl))
  ]

  evaluate_require-Ends :
      (rule : Rule) (r : Resource)
      → Ends (Concerns rule r × (Met rule r → ⊥)) rule r (evaluate_require quote rule r)
  unfolding evaluate_require
  evaluate_require-Ends rule r = elim (Bool-cases (matches_pattern rule.resource r.kind)) [
    | inl t ↦ rw t (elim (Bool-cases (check_requirement rule.subject r)) [
      | inl m ↦ rw m (inr (λ (c, n). n ((check_requirement-Met rule r).0 m), refl))
      | inr m ↦ rw m (
          inl (
            (
              (matches-Concerns rule r).0 t,
              λ n. absurd (ground (arith, m, (check_requirement-Met rule r).1 n)),
            ),
            (_, refl, refl, refl),
          ))
    ])
    | inr f ↦ rw f (inr (λ (c, d). absurd (ground (arith, f, (matches-Concerns rule r).1 c)), refl))
  ]

  pub evaluate_rule-Broken :
      (rule : Rule) (r : Resource) → Ends (Broken rule r) rule r (evaluate_rule quote rule r)
  unfolding evaluate_rule
  evaluate_rule-Broken rule r = elim (Bool-cases (rule.action == "deny")) [
    | inl t ↦
        let here = (eq_iff rule.action "deny").0 t in
        rw t (elim (evaluate_deny-Ends rule r) [
          | inl ((c, d), o) ↦ inl ((c, inl (here, d)), o)
          | inr (n, e) ↦ inr (
            λ (c, b). elim b [
              | inl (a, d) ↦ n (c, d)
              | inr (a, d) ↦ absurd (differ (sym here ∙ a))
            ],
            e,
          )
        ])
    | inr f ↦ rw f (elim (Bool-cases (rule.action == "require")) [
      | inl t ↦
          let here = (eq_iff rule.action "require").0 t in
          rw t (elim (evaluate_require-Ends rule r) [
            | inl ((c, d), o) ↦ inl ((c, inr (here, d)), o)
            | inr (n, e) ↦ inr (
              λ (c, b). elim b [
                | inl (a, d) ↦ absurd (differ (sym a ∙ here))
                | inr (a, d) ↦ n (c, d)
              ],
              e,
            )
          ])
      | inr g ↦ rw g (
          inr (
            λ (c, b). elim b [
              | inl (a, d) ↦ absurd (ground (arith, f, a, eq_iff rule.action "deny"))
              | inr (a, d) ↦ absurd (ground (arith, g, a, eq_iff rule.action "require"))
            ],
            refl,
          ))
    ])
  ]
    where
      differ : ◌≡◌ {A = String} "deny" "require" → ⊥
      differ e = ground (arith, (eq_iff "deny" "require").1 e)
