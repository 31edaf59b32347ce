-- ===== src/Examples/Graph.antt =====
-- internal/pipeline/dag.go on two steps, the second after the first.
use agentspec.Pipeline.Dag.Linking.{names_of}
use agentspec.Base.{none, [], ◌∷◌, false, refl, ◌≡◌, Option, ℕ, List, String, some, str_append, ◌+◌}
use agentspec.Pipeline.Executor.{execute, Execution}
use agentspec.Pipeline.Executor.Ordered.{execute-Ordered, Ordered, Outcome}
use agentspec.Pipeline.Dag.Edges.{edges}
use agentspec.Loop.{Response}
use agentspec.Llm.Tokens.{no_usage}
use agentspec.Base.Maps.{insert, lookup, has}
use agentspec.Base.Sort.{sort_by}
use agentspec.State.{ok, Result}
use agentspec.Pipeline.Dag.{Step, Dag, build_dag, topological_sort, add_edge}
use agentspec.Pipeline.Dag.Sound.{build_dag-IsOrder, IsOrder}

abbrev fetch : Step
fetch = record {
  name = "fetch";
  agent_ref = "a";
  input = "";
  output = "";
  parallel = false;
  depends_on = [];
}

abbrev report : Step
report = record {
  name = "report";
  agent_ref = "b";
  input = "";
  output = "";
  parallel = false;
  depends_on = "fetch" ∷ [];
}

abbrev graph : Dag
graph = record {
  steps = ("report", report) ∷ ("fetch", fetch) ∷ [];
  order = ("fetch" ∷ []) ∷ ("report" ∷ []) ∷ [];
  incoming = ("report", 1) ∷ ("fetch", 0) ∷ [];
  adjacency = ("fetch", "report" ∷ []) ∷ [];
}

builds : build_dag (report ∷ fetch ∷ []) ≡ ok graph
unfolding build_dag insert lookup has add_edge topological_sort sort_by
builds = refl

build_dag-IsOrder_example : IsOrder (report ∷ fetch ∷ []) graph.order
build_dag-IsOrder_example = build_dag-IsOrder (report ∷ fetch ∷ []) graph builds

-- The state counts the invocations; each step's output is its agent and its input.
abbrev invoke : ℕ → String → String → Result Response × ℕ
invoke n agent input = (
  ok (record {
    output = str_append agent input;
    tool_calls = [];
    tokens = no_usage;
    turns = 1;
    error = "";
  }),
  n + 1,
)

execute-Ordered_example :
    (x : Execution ℕ) × (execute invoke (λ n. false) (λ ns. ns) graph "go" 0 ≡ some x)
    × Ordered (edges (report ∷ fetch ∷ [])) x
    × Outcome (λ n. false) (names_of (report ∷ fetch ∷ [])) x
execute-Ordered_example =
    execute-Ordered invoke (λ n. false) (λ ns. ns) (report ∷ fetch ∷ []) graph (λ ns k. refl) builds
      "go" 0

outputs : Option (Execution ℕ) → List (String × String)
outputs none = []
outputs (some x) = x.step_outputs

-- The second step reads the output of the first.
chains :
    outputs (execute invoke (λ n. false) (λ ns. ns) graph "go" 0)
    ≡ ("trigger", "go") ∷ ("fetch", "ago") ∷ ("report", "bago") ∷ []
unfolding outputs execute lookup insert agentspec.Pipeline.Executor.step_input
chains = refl
