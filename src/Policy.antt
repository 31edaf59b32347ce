-- ===== src/Policy.antt =====
-- internal/policy/policy.go: the rules that resources are checked against. `quote` is the verb %q of fmt.
-- The log line of the signature check, which always succeeds, is left out.
pub mod Broken
pub mod Collected
use Prim.Native.Char.{code}
use agentspec.Base.{
  String, str_append, List, [], ◌∷◌, ◌++◌, Option, none, some, Bool, true, false, not, ◌&&◌, ◌||◌,
  ◌==◌, if◌then◌else◌, eqb, or_else, keep,
}
use agentspec.Base.Maps.{is_some}
use agentspec.Ir.{Value, text, object, Fields, no_field, field, Rule, Policy, Resource}

pub record Violation : Type 0 where
  pub rule : Rule
  pub resource : Resource
  pub message : String
  pub details : String

-- `strings.HasPrefix` with `strings.TrimPrefix`: what follows the prefix.
pub strip_prefix : String → String → Option String
strip_prefix String.[] s = some s
strip_prefix (String.◌∷◌ c p) String.[] = none
strip_prefix (String.◌∷◌ c p) (String.◌∷◌ d s) =
    let rest = strip_prefix p s in if eqb (code c) (code d) then rest else none

-- What follows the last "@".
pub after_last_at : String → Option String
after_last_at String.[] = none
after_last_at (String.◌∷◌ c s) =
    let later = after_last_at s in or_else later (if eqb (code c) 64 then some s else none)

-- A key of `map[string]interface{}`.
pub lookup_field : String → Fields → Option Value
lookup_field k no_field = none
lookup_field k (field j v rest) =
    let later = lookup_field k rest in if j == k then some v else later

abbrev pub as_text : Option Value → Option String
as_text (some (text s)) = some s
as_text _ = none

abbrev pub as_object : Option Value → Option Fields
as_object (some (object fs)) = some fs
as_object _ = none

unfoldable pub matches_pattern : String → String → Bool
matches_pattern pattern kind = if pattern == "*" then true else pattern == kind

abbrev pub pins : Option String → Bool
pins none = false
pins (some version) = if version == "latest" || version == "" then false else true

unfoldable pub has_version_pin : String → Bool
unfolding after_last_at
has_version_pin ref = pins (after_last_at ref)

pub all_pinned : List String → Bool
all_pinned [] = true
all_pinned (ref ∷ refs) =
    let rest = all_pinned refs in if not (has_version_pin ref) then false else rest

unfoldable pub check_pinned_imports : Resource → Bool
unfolding all_pinned
check_pinned_imports r = all_pinned r.references

abbrev pub secret_in : String → Option Fields → Bool
secret_in name none = false
secret_in name (some secrets) = is_some (lookup_field name secrets)

unfoldable pub check_secret : String → Resource → Bool
unfolding lookup_field
check_secret name r = secret_in name (as_object (lookup_field "secrets" r.metadata))

abbrev pub check_signed_packages : Resource → Bool
check_signed_packages r = true

abbrev pub check_other : Option String → Resource → Bool
check_other none r = false
check_other (some name) r = check_secret name r

unfoldable pub check_requirement : String → Resource → Bool
unfolding strip_prefix
check_requirement subject r =
    if subject == "pinned imports"
    then check_pinned_imports r
    else if subject == "signed packages"
    then check_signed_packages r
    else check_other (strip_prefix "secret " subject) r

-- `strings.Join` with ", ".
pub join : List String → String
join [] = ""
join (s ∷ []) = s
join (s ∷ t ∷ rest) = str_append s (str_append ", " (join (t ∷ rest)))

module _ (quote : String → String) where
  pub details_of_other : String → Option String → String
  details_of_other subject (some name) =
      str_append "Secret " (str_append (quote name) " not found in configured secrets")
  details_of_other subject none = str_append "Unknown requirement type: " (quote subject)

  pub details_for_requirement : String → Resource → String
  details_for_requirement subject r =
      if subject == "pinned imports"
      then str_append "Unpinned imports: "
          (join (keep (λ ref. not (has_version_pin ref)) r.references))
      else if subject == "signed packages"
      then "Package signature verification not yet implemented"
      else details_of_other subject (strip_prefix "secret " subject)

  -- A denied command, given the resource's binary.
  pub deny_command : Rule → Resource → String → Option String → Option Violation
  deny_command rule r denied none = none
  deny_command rule r denied (some binary) =
      if binary == denied
      then some (record {
        rule = rule;
        resource = r;
        message = str_append "denied by policy: command " (str_append (quote denied) " is blocked");
        details =
            str_append "Resource "
              (str_append (quote r.name) (str_append " uses denied command " (quote denied)));
      })
      else none

  -- The `switch` on a rule's subject: a denied command, or everything.
  pub deny_subject : Rule → Resource → Option String → Option Violation
  deny_subject rule r (some denied) =
      deny_command rule r denied (as_text (lookup_field "binary" r.attributes))
  deny_subject rule r none = some (record {
    rule = rule;
    resource = r;
    message = str_append "denied by policy: " rule.subject;
    details = "";
  })

  pub evaluate_deny : Rule → Resource → Option Violation
  evaluate_deny rule r =
      if not (matches_pattern rule.resource r.kind)
      then none
      else deny_subject rule r (strip_prefix "command " rule.subject)

  pub evaluate_require : Rule → Resource → Option Violation
  evaluate_require rule r =
      if not (matches_pattern rule.resource r.kind)
      then none
      else if not (check_requirement rule.subject r)
      then some (record {
        rule = rule;
        resource = r;
        message = str_append "requirement not met: " rule.subject;
        details = details_for_requirement rule.subject r;
      })
      else none

  unfoldable pub evaluate_rule : Rule → Resource → Option Violation
  unfolding evaluate_deny evaluate_require deny_subject deny_command details_for_requirement
      details_of_other join
  evaluate_rule rule r =
      if rule.action == "deny"
      then evaluate_deny rule r
      else if rule.action == "require"
      then evaluate_require rule r
      else none

  abbrev pub collect : Option Violation → List Violation → List Violation
  collect none vs = vs
  collect (some v) vs = vs ++ v ∷ []

  -- The three loops of `Evaluate`, each with the violations so far.
  pub evaluate_resources : Rule → List Resource → List Violation → List Violation
  evaluate_resources rule [] vs = vs
  evaluate_resources rule (r ∷ rs) vs =
      evaluate_resources rule rs (collect (evaluate_rule rule r) vs)

  pub evaluate_rules : List Resource → List Rule → List Violation → List Violation
  evaluate_rules rs [] vs = vs
  evaluate_rules rs (rule ∷ rules) vs = evaluate_rules rs rules (evaluate_resources rule rs vs)

  pub evaluate_policies : List Resource → List Policy → List Violation → List Violation
  evaluate_policies rs [] vs = vs
  evaluate_policies rs (p ∷ ps) vs = evaluate_policies rs ps (evaluate_rules rs p.rules vs)

  unfoldable pub evaluate : List Policy → List Resource → List Violation
  unfolding evaluate_resources evaluate_rules evaluate_policies
  evaluate policies resources = evaluate_policies resources policies []
