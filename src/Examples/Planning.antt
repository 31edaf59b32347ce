-- ===== src/Examples/Planning.antt =====
-- internal/plan/plan.go on an agent that changed and an entry that is no longer wanted.
use agentspec.Plan.Drift.Quiet.{has_drift-quiet}
use agentspec.Plan.Drift.{detect_drift}
use mathlib.Core.List.{Permᴰ, Pairwise}
use agentspec.Base.Sort.{Before}
use agentspec.Base.{
  String, [], ◌∷◌, ◌↔◌, ◌≡◌, false, true, keep, map, ◌==◌, ◌≢◌, arith, eq_iff, In, some,
}
use agentspec.Ir.{Resource, Binding, DeployTarget, no_field}
use agentspec.State.{Entry, applied}
use agentspec.Plan.{compute_plan, resolve_binding}
use agentspec.Plan.Order.{compute_plan_lists, is_desired}
use agentspec.Plan.Sync.{has_changes-InSync, InSync, last_entry}
use agentspec.Plan.Resolve.{resolve_binding-Chosen, Chosen}

abbrev pub agent : Resource
agent = record {
  kind = "Agent";
  name = "bot";
  fqn = "pkg/Agent/bot";
  attributes = no_field;
  references = [];
  hash = "h2";
  metadata = no_field;
}

abbrev pub old_entry : Entry
old_entry = record {
  fqn = "pkg/Agent/bot";
  hash = "h1";
  status = applied;
  last_applied = 5;
  adapter = "local-mcp";
  error = "";
  orphaned_at = 0;
}

abbrev pub gone_entry : Entry
gone_entry = record {
  fqn = "pkg/Skill/gone";
  hash = "h0";
  status = applied;
  last_applied = 5;
  adapter = "local-mcp";
  error = "";
  orphaned_at = 0;
}

abbrev pub prod : Binding
prod = record { name = "prod"; adapter = "docker"; default = true; config = no_field }

abbrev pub cluster : DeployTarget
cluster = record { name = "cluster"; target = "kubernetes"; default = false; config = no_field }

-- Texts that the test tells apart.
pub differ : (x y : String) → (x == y) ≡ false → x ≢ y
differ x y f e = ground (arith, f, (eq_iff x y).1 e)

compute_plan_lists_example :
    Permᴰ
      (map (λ a. a.fqn) (compute_plan (agent ∷ []) (old_entry ∷ gone_entry ∷ [])).actions)
      ("pkg/Agent/bot" ∷ "pkg/Skill/gone" ∷ [])
    × Pairwise
        (Before (λ a. a.fqn))
        (compute_plan (agent ∷ []) (old_entry ∷ gone_entry ∷ [])).actions
unfolding keep is_desired
compute_plan_lists_example = compute_plan_lists (agent ∷ []) (old_entry ∷ gone_entry ∷ [])

has_changes-InSync_example :
    ((compute_plan (agent ∷ []) (old_entry ∷ gone_entry ∷ [])).has_changes ≡ false)
    ↔ InSync (agent ∷ []) (old_entry ∷ gone_entry ∷ [])
has_changes-InSync_example = has_changes-InSync (agent ∷ []) (old_entry ∷ gone_entry ∷ [])

resolve_binding-Chosen_example :
    Chosen (λ b. b.name) (λ b. b.default) "" (prod ∷ []) (resolve_binding (prod ∷ []) "")
resolve_binding-Chosen_example = resolve_binding-Chosen (prod ∷ []) ""

has_drift-quiet_example :
    ((detect_drift (agent ∷ []) (old_entry ∷ [])).has_drift ≡ false)
    ↔ ((r : Resource)
        → In r (agent ∷ [])
        → (e : Entry) × (last_entry r.fqn (old_entry ∷ []) ≡ some e) × (e.hash ≡ r.hash))
      × ((e : Entry) → In e (old_entry ∷ []) → (r : Resource) × In r (agent ∷ []) × (r.fqn ≡ e.fqn))
has_drift-quiet_example = has_drift-quiet (agent ∷ []) (old_entry ∷ [])
