-- ===== src/Adapters/Local.antt =====
-- internal/adapters/local/local.go: `Apply` of the local-mcp adapter.
use mathlib.Core.List.{append_assoc, append-nil}
use agentspec.Base.{List, [], ◌∷◌, ◌++◌, map, ◌≡◌, sym, ◌∙◌, ap}
use agentspec.State.{Result, ok}
use agentspec.Adapters.{Action, ActionResult, Adapter, success}

abbrev pub succeeded : Action → ActionResult
succeeded a = record { fqn = a.fqn; action = a.type; status = success; error = ""; artifact = "" }

-- The loop of `Apply`: a success for each action.
apply_from : List ActionResult → List Action → List ActionResult
apply_from results [] = results
apply_from results (a ∷ rest) = apply_from (results ++ succeeded a ∷ []) rest

unfoldable pub apply : List Action → Result (List ActionResult)
unfolding apply_from
apply actions = ok (apply_from [] actions)

apply_from-map :
    (rs : List ActionResult) (actions : List Action)
    → apply_from rs actions ≡ rs ++ map succeeded actions
unfolding apply_from
apply_from-map rs [] = sym (append-nil rs)
apply_from-map rs (a ∷ rest) =
    apply_from-map (rs ++ succeeded a ∷ []) rest
    ∙ append_assoc rs (succeeded a ∷ []) (map succeeded rest)

-- Every action succeeds, in the order given.
pub apply-map : (actions : List Action) → apply actions ≡ ok (map succeeded actions)
unfolding apply
apply-map actions = ap ok (apply_from-map [] actions)

abbrev pub local_adapter : Adapter
local_adapter = record { name = "local-mcp"; apply = apply }
