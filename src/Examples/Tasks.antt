-- ===== src/Examples/Tasks.antt =====
-- internal/operator/controller/dag.go on two tasks, one after the other.
use agentspec.Base.{
  ℕ, String, str_append, List, [], ◌∷◌, Option, none, some, Bool, true, false, ◌≡◌, refl, In, inl,
  inr, arith, eq_iff,
}
use agentspec.Base.Maps.{Map, lookup}
use agentspec.Examples.Planning.{differ}
use agentspec.Base.Count.{count, Distinct}
use agentspec.State.{ok}
use agentspec.Operator.Dag.{DagStep, run, topo_sort}
use agentspec.Operator.Dag.Order.{names}
use agentspec.Operator.Dag.Waves.{run-Complete}
use agentspec.Operator.Dag.Stuck.{run-stuck}

abbrev fetch : DagStep
fetch = record { name = "fetch"; agent_ref = "a"; depends_on = []; input = "" }

abbrev report : DagStep
report = record { name = "report"; agent_ref = "b"; depends_on = "fetch" ∷ []; input = "" }

abbrev tasks : List DagStep
tasks = report ∷ fetch ∷ []

sorted : topo_sort tasks ≡ some (ok ("fetch" ∷ "report" ∷ []))
unfolding topo_sort lookup agentspec.Base.Maps.has agentspec.Operator.Dag.count_dep
    agentspec.Base.Maps.insert agentspec.Pipeline.Dag.release
sorted = refl

different : Distinct (names tasks)
unfolding count
different k = ground (arith, eq_iff "report" k, eq_iff "fetch" k, differ "report" "fetch" refl)

run-Complete_example :
    (results : Map String) × (run 2 (λ n name. true) tasks ≡ some (ok results))
    × ((s : DagStep) → In s tasks → lookup s.name results ≡ some (str_append "output of " s.name))
run-Complete_example =
    run-Complete (λ n name. true) (λ n name. refl) tasks different ("fetch" ∷ "report" ∷ []) 2
      sorted (omega arith)

run-stuck_example : run 1000 (λ n name. false) tasks ≡ none
unfolding lookup agentspec.Operator.Dag.step_map agentspec.Base.Maps.insert
run-stuck_example =
    run-stuck (λ n name. false) (λ n name. refl) tasks different ("fetch" ∷ "report" ∷ []) "report"
      "fetch" [] sorted (inl refl) refl 1000
