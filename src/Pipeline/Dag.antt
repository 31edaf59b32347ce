-- ===== src/Pipeline/Dag.antt =====
-- internal/pipeline/dag.go: `BuildDAG`, which orders the steps in layers. Go's maps are association
-- lists, ranged over in the order of insertion. A count that is decremented stops at 0 where Go's would
-- become negative: no step is added then by either. The loop runs on fuel, the number of steps.
pub mod Edges
pub mod Rounds
pub mod Loop
pub mod Left
pub mod Linking
pub mod Sound
use agentspec.Base.{
  ℕ, zero, suc, ◌+◌, ◌-◌, String, str_append, List, [], ◌∷◌, ◌++◌, Option, none, some, Bool, true,
  false, if◌then◌else◌, eqb, ltb, length, ◌==◌,
}
use agentspec.Base.Maps.{Map, lookup, insert, has, values}
use agentspec.Base.Sort.{sort_by}
use agentspec.State.{Result, ok, err}

pub record Step : Type 0 where
  pub name : String
  pub agent_ref : String
  pub input : String
  pub output : String
  pub parallel : Bool
  pub depends_on : List String

pub record Dag : Type 0 where
  pub steps : Map Step
  pub order : List (List String)
  pub incoming : Map ℕ
  pub adjacency : Map (List String)

abbrev pub empty_dag : Dag
empty_dag = record { steps = []; order = []; incoming = []; adjacency = [] }

-- What Go reads of a missing key.
abbrev pub or_zero : Option ℕ → ℕ
or_zero none = 0
or_zero (some n) = n

abbrev pub or_empty : Option (List String) → List String
or_empty none = []
or_empty (some l) = l

-- An error is returned at once.
abbrev pub then_do : {A B : Type 0} → Result A → (A → Result B) → Result B
then_do (ok a) f = f a
then_do (err e) f = err e

-- The loop that indexes the steps.
pub index_steps : List Step → Dag → Result Dag
index_steps [] dag = ok dag
index_steps (s ∷ rest) dag =
    let indexed =
      index_steps rest (record dag {
        steps = insert s.name s dag.steps;
        incoming = insert s.name 0 dag.incoming;
      }) in
    if has s.name dag.steps then err (str_append "duplicate step " s.name) else indexed

unfoldable pub add_edge : String → String → Dag → Dag
add_edge dep name dag = record dag {
  incoming = insert name (or_zero (lookup name dag.incoming) + 1) dag.incoming;
  adjacency = insert dep (or_empty (lookup dep dag.adjacency) ++ name ∷ []) dag.adjacency;
}

-- The loop over one step's dependencies.
pub link_deps : String → List String → Dag → Result Dag
link_deps name [] dag = ok dag
link_deps name (dep ∷ deps) dag =
    let linked = link_deps name deps (add_edge dep name dag) in
    if has dep dag.steps
    then if dep == name then err (str_append "depends on itself: " name) else linked
    else err (str_append "depends on unknown step " dep)

-- The loop over the steps.
pub link_steps : List Step → Dag → Result Dag
link_steps [] dag = ok dag
link_steps (s ∷ rest) dag =
    then_do (link_deps s.name s.depends_on dag) (λ dag'. link_steps rest dag')

-- The dependents of one processed step: one whose count becomes 0 joins the next queue.
unfoldable pub release : List String → Map ℕ → List String → Map ℕ × List String
release [] incoming next = (incoming, next)
release (k ∷ ks) incoming next =
    let c = or_zero (lookup k incoming) in
    release ks (insert k (c - 1) incoming) (if eqb c 1 then next ++ k ∷ [] else next)

-- One layer.
pub process_layer : Map (List String) → List String → Map ℕ → List String → Map ℕ × List String
process_layer adjacency [] incoming next = (incoming, next)
process_layer adjacency (n ∷ ns) incoming next =
    let (incoming', next') = release (or_empty (lookup n adjacency)) incoming next in
    process_layer adjacency ns incoming' next'

-- `sortStrings`
unfoldable pub sort_strings : List String → List String
sort_strings = sort_by (λ s. s)

-- The steps with no dependency.
pub zero_names : Map ℕ → List String
zero_names [] = []
zero_names ((k, c) ∷ m) = let rest = zero_names m in if eqb c 0 then k ∷ rest else rest

-- The loop over the layers, with the layers so far and the number of steps processed; `none` is out of
-- fuel.
pub layers_loop :
    ℕ
    → Map (List String)
    → List String
    → Map ℕ
    → List (List String)
    → ℕ
    → Option (List (List String) × ℕ)
layers_loop fuel adjacency [] incoming layers processed = some (layers, processed)
layers_loop zero adjacency (q ∷ qs) incoming layers processed = none
layers_loop (suc fuel) adjacency (q ∷ qs) incoming layers processed =
    let layer = sort_strings (q ∷ qs) in
    let (incoming', next) = process_layer adjacency layer incoming [] in
    layers_loop fuel adjacency next incoming' (layers ++ layer ∷ []) (processed + length layer)

checked_order : ℕ → Option (List (List String) × ℕ) → Result (List (List String))
checked_order total none = err "out of fuel"
checked_order total (some (layers, processed)) =
    if ltb processed total then err "cycle detected in pipeline dependencies" else ok layers

unfoldable pub topological_sort : Dag → Result (List (List String))
unfolding release process_layer sort_strings zero_names layers_loop checked_order
topological_sort dag =
    checked_order (length dag.steps)
      (layers_loop (length dag.steps) dag.adjacency (zero_names dag.incoming) dag.incoming [] 0)

unfoldable pub build_dag : List Step → Result Dag
unfolding index_steps link_deps link_steps
build_dag steps = then_do (index_steps steps empty_dag) (λ indexed.
    then_do (link_steps (values indexed.steps) indexed)
      (λ dag. then_do (topological_sort dag) (λ layers. ok (record dag { order = layers }))))
