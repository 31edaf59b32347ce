-- ===== src/Plan.antt =====
-- internal/plan/plan.go: the diff of the desired resources against the state's entries, and the
-- choice of a binding or a deploy target. The proofs are in the modules below.
pub mod Closed
pub mod Index
pub mod Order
pub mod Sync
pub mod Resolve
pub mod Drift
use agentspec.Base.{
  ℕ, zero, suc, String, List, [], ◌∷◌, ◌++◌, Option, none, some, Bool, true, false, ◌||◌, not, ◌==◌,
  if◌then◌else◌, or_else, find,
}
use agentspec.Base.Maps.{Map, lookup, insert, has}
use agentspec.Base.Sort.{sort_by}
use agentspec.Ir.{Resource, Binding, DeployTarget}
use agentspec.State.{Entry, Status, applied, failed, orphaned}
use agentspec.Adapters.{Action, create, update, delete, noop}

pub record Plan : Type 0 where
  pub actions : List Action
  pub target_binding : String
  pub has_changes : Bool

-- `currentMap`: of entries with one FQN the last wins.
pub index_entries_onto : Map Entry → List Entry → Map Entry
index_entries_onto m [] = m
index_entries_onto m (e ∷ es) = index_entries_onto (insert e.fqn e m) es

unfoldable pub index_entries : List Entry → Map Entry
unfolding index_entries_onto
index_entries = index_entries_onto []

-- `desiredMap`
pub index_resources_onto : Map Resource → List Resource → Map Resource
index_resources_onto m [] = m
index_resources_onto m (r ∷ rs) = index_resources_onto (insert r.fqn r m) rs

unfoldable pub index_resources : List Resource → Map Resource
unfolding index_resources_onto
index_resources = index_resources_onto []

abbrev pub is_failed : Status → Bool
is_failed failed = true
is_failed _ = false

-- The `switch` on one desired resource: its action, and whether it is a change.
unfoldable pub plan_resource : Option Entry → Resource → Action × Bool
plan_resource none r = (
  record { fqn = r.fqn; type = create; resource = some r; reason = "resource does not exist" },
  true,
)
plan_resource (some entry) r =
    if not (entry.hash == r.hash)
    then (
      record { fqn = r.fqn; type = update; resource = some r; reason = "resource hash changed" },
      true,
    )
    else if is_failed entry.status
    then (
      record {
        fqn = r.fqn;
        type = update;
        resource = some r;
        reason = "retrying previously failed resource";
      },
      true,
    )
    else (record { fqn = r.fqn; type = noop; resource = some r; reason = "no changes" }, false)

-- The loop over the desired resources.
pub plan_desired : Map Entry → List Resource → List Action → Bool → List Action × Bool
plan_desired current [] actions changes = (actions, changes)
plan_desired current (r ∷ rs) actions changes =
    let (a, c) = plan_resource (lookup r.fqn current) r in
    plan_desired current rs (actions ++ a ∷ []) (changes || c)

abbrev pub delete_action : Entry → Action
delete_action e = record {
  fqn = e.fqn;
  type = delete;
  resource = none;
  reason = "resource no longer defined";
}

-- The loop over the entries, for those that no desired resource names.
pub plan_deletes : Map Resource → List Entry → List Action → Bool → List Action × Bool
plan_deletes desired [] actions changes = (actions, changes)
plan_deletes desired (e ∷ es) actions changes =
    let missing = not (has e.fqn desired) in
    plan_deletes desired es (if missing then actions ++ delete_action e ∷ [] else actions)
      (if missing then true else changes)

abbrev action_fqn : Action → String
action_fqn a = a.fqn

unfoldable pub sort_actions : List Action → List Action
sort_actions = sort_by action_fqn

unfoldable pub compute_plan : List Resource → List Entry → Plan
unfolding plan_resource plan_desired plan_deletes sort_actions index_entries index_resources
compute_plan desired current =
    let (actions, changes) = plan_desired (index_entries current) desired [] false in
    let (all_actions, has_changes) =
      plan_deletes (index_resources desired) current actions changes in
    record { actions = sort_actions all_actions; target_binding = ""; has_changes = has_changes }

sole_binding : List Binding → Option Binding
sole_binding (b ∷ []) = some b
sole_binding _ = none

-- `nil` is `none`; the error that Go returns beside it is always nil.
unfoldable pub resolve_binding : List Binding → String → Option Binding
unfolding sole_binding
resolve_binding [] target = none
resolve_binding (b ∷ bs) target =
    if not (target == "")
    then find (λ x. x.name == target) (b ∷ bs)
    else or_else (find (λ x. x.default) (b ∷ bs)) (sole_binding (b ∷ bs))

sole_target : List DeployTarget → Option DeployTarget
sole_target (t ∷ []) = some t
sole_target _ = none

unfoldable pub resolve_deploy_target : List DeployTarget → String → Option DeployTarget
unfolding sole_target
resolve_deploy_target [] target = none
resolve_deploy_target (t ∷ ts) target =
    if not (target == "")
    then find (λ x. x.name == target) (t ∷ ts)
    else or_else (find (λ x. x.default) (t ∷ ts)) (sole_target (t ∷ ts))

unfoldable pub deploy_target_adapter : String → String
deploy_target_adapter target =
    if target == "process"
    then "local-mcp"
    else if target == "docker-compose"
    then "docker-compose"
    else target
