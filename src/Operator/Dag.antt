-- ===== src/Operator/Dag.antt =====
-- internal/operator/controller/dag.go: the order of the tasks of a workflow and their execution in waves.
-- `alive n name` says whether the goroutine of a task in wave n finds its context not cancelled. The
-- goroutines of a wave write different entries, so they are taken in the order of the wave. The error of a
-- wave is never set in the code, so FailFast has no effect. The waves have no bound in the code;
-- here they run on fuel, and `none` is out of fuel.
pub mod Enough
pub mod Order
pub mod Waves
pub mod Stuck
use agentspec.Base.{
  cons_if, ℕ, zero, suc, ◌+◌, String, str_append, List, [], ◌∷◌, ◌++◌, Option, none, some, Bool,
  true, false, not, if◌then◌else◌, eqb, length, keep,
}
use agentspec.Base.Maps.{Map, lookup, insert, has}
use agentspec.Pipeline.Dag.{or_zero, or_empty, release}
use agentspec.State.{Result, ok, err}

pub record DagStep : Type 0 where
  pub name : String
  pub agent_ref : String
  pub depends_on : List String
  pub input : String

-- `inDegree` and `dependents`.
pub record Graph : Type 0 where
  pub in_degree : Map ℕ
  pub dependents : Map (List String)

unfoldable pub seed : String → Graph → Graph
seed name g = if has name g.in_degree then g else record g { in_degree = insert name 0 g.in_degree }

unfoldable pub count_dep : String → String → Graph → Graph
count_dep name dep g = record {
  in_degree = insert name (or_zero (lookup name g.in_degree) + 1) g.in_degree;
  dependents = insert dep (or_empty (lookup dep g.dependents) ++ name ∷ []) g.dependents;
}

unfoldable pub count_deps : String → List String → Graph → Graph
count_deps name [] g = g
count_deps name (dep ∷ deps) g = count_deps name deps (count_dep name dep g)

unfoldable pub count_steps : List DagStep → Graph → Graph
count_steps [] g = g
count_steps (s ∷ steps) g = count_steps steps (count_deps s.name s.depends_on (seed s.name g))

-- The steps that wait for nothing.
unfoldable pub first_queue : Map ℕ → List DagStep → List String
first_queue m [] = []
first_queue m (s ∷ steps) = cons_if (eqb (or_zero (lookup s.name m)) 0) s.name (first_queue m steps)

-- The loop over the queue, on fuel.
unfoldable pub sort_loop :
    ℕ → Map (List String) → List String → Map ℕ → List String → Option (List String)
sort_loop fuel dependents [] m order = some order
sort_loop zero dependents (n ∷ queue) m order = none
sort_loop (suc fuel) dependents (n ∷ queue) m order =
    let (m', queue') = release (or_empty (lookup n dependents)) m queue in
    sort_loop fuel dependents queue' m' (order ++ n ∷ [])

unfoldable pub degrees : Map ℕ → ℕ
degrees [] = 0
degrees (e ∷ m) = e.1 + degrees m

abbrev pub checked_all : ℕ → Option (List String) → Option (Result (List String))
checked_all total none = none
checked_all total (some order) =
    some (if eqb (length order) total then ok order else err "cycle detected in DAG")

-- The fuel is the length of the queue and all that is to be counted down.
unfoldable pub topo_sort : List DagStep → Option (Result (List String))
unfolding seed count_deps count_steps first_queue sort_loop degrees
topo_sort steps =
    let g = count_steps steps (record { in_degree = []; dependents = [] }) in
    let queue = first_queue g.in_degree steps in
    checked_all (length steps)
      (sort_loop (length queue + degrees g.in_degree) g.dependents queue g.in_degree [])

unfoldable pub step_map : List DagStep → Map DagStep → Map DagStep
step_map [] m = m
step_map (s ∷ steps) m = step_map steps (insert s.name s m)

-- What the code reads of a name without a step has no dependencies.
abbrev pub deps_of : Option DagStep → List String
deps_of none = []
deps_of (some s) = s.depends_on

unfoldable pub all_met : Map Bool → List String → Bool
all_met completed [] = true
all_met completed (dep ∷ deps) =
    let rest = all_met completed deps in if has dep completed then rest else false

-- `results` and `completed`, whose entries are all true.
pub record Progress : Type 0 where
  pub results : Map String
  pub completed : Map Bool

unfoldable pub run_step : Bool → String → Progress → Progress
run_step alive n p =
    if alive
    then record {
      results = insert n (str_append "output of " n) p.results;
      completed = insert n true p.completed;
    }
    else p

unfoldable pub run_wave : (String → Bool) → List String → Progress → Progress
run_wave alive [] p = p
run_wave alive (n ∷ ns) p = run_wave alive ns (run_step (alive n) n p)

unfoldable pub met : Map DagStep → Map Bool → String → Bool
met steps completed name = all_met completed (deps_of (lookup name steps))

unfoldable pub waves :
    ℕ → (ℕ → String → Bool) → ℕ → Map DagStep → List String → Progress → Option (Map String)
waves fuel alive wave steps [] p = some p.results
waves zero alive wave steps (n ∷ ns) p = none
waves (suc fuel) alive wave steps (n ∷ ns) p =
    let ready = keep (met steps p.completed) (n ∷ ns) in
    let next = keep (λ name. not (met steps p.completed name)) (n ∷ ns) in
    waves fuel alive (wave + 1) steps next (run_wave (alive wave) ready p)

abbrev pub returned : Option (Map String) → Option (Result (Map String))
returned none = none
returned (some results) = some (ok results)

abbrev pub no_progress : Progress
no_progress = record { results = []; completed = [] }

pub run_order :
    ℕ
    → (ℕ → String → Bool)
    → List DagStep
    → Option (Result (List String))
    → Option (Result (Map String))
run_order fuel alive steps none = none
run_order fuel alive steps (some (err e)) = some (err e)
run_order fuel alive steps (some (ok order)) =
    returned (waves fuel alive 0 (step_map steps []) order no_progress)

unfoldable pub run : ℕ → (ℕ → String → Bool) → List DagStep → Option (Result (Map String))
unfolding all_met run_step run_wave met waves step_map run_order
run fuel alive steps = run_order fuel alive steps (topo_sort steps)
