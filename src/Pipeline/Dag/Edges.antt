-- ===== src/Pipeline/Dag/Edges.antt =====
-- The edges of the steps, and what the maps of the graph count of them.
use agentspec.Base.{
  ℕ, ◌+◌, ◌≤◌, String, List, [], ◌∷◌, ◌++◌, arith, eq_iff, eq_refl, In, inl, inr, refl, ◌≡◌, ◌==◌,
  if◌then◌else◌, ◌&&◌, sym, In-append_left, ap, subst, In-append_right,
}
use agentspec.Base.Count.{count, count_if, Distinct, count-In}
use agentspec.Base.Maps.{lookup, Map}
use agentspec.Pipeline.Dag.{Step, or_zero, or_empty}

-- An edge, from a dependency to the step that depends on it.
abbrev pub Edge : Type 0
Edge = String × String

abbrev pub step_edges : String → List String → List Edge
step_edges name [] = []
step_edges name (d ∷ ds) = (d, name) ∷ step_edges name ds

abbrev pub edges : List Step → List Edge
edges [] = []
edges (s ∷ ss) = step_edges s.name s.depends_on ++ edges ss

pub step_edges-In :
    (d name : String) (deps : List String) → In d deps → In (d, name) (step_edges name deps)
step_edges-In d name [] i = elim i [ ]
step_edges-In d name (x ∷ deps) (inl e) = inl (ap (λ y. (y, name)) e)
step_edges-In d name (x ∷ deps) (inr i) = inr (step_edges-In d name deps i)

pub edges-In :
    (s : Step) (steps : List Step) (d : String)
    → In s steps
    → In d s.depends_on
    → In (d, s.name) (edges steps)
edges-In s [] d i j = elim i [ ]
edges-In s (t ∷ steps) d (inl e) j =
    In-append_left (d, s.name) (step_edges t.name t.depends_on) (edges steps)
      (subst (λ x. In (d, s.name) (step_edges x.name x.depends_on)) (sym e)
        (step_edges-In d s.name s.depends_on j))
edges-In s (t ∷ steps) d (inr i) j =
    In-append_right (d, s.name) (step_edges t.name t.depends_on) (edges steps)
      (edges-In s steps d i j)

-- The number of edges into a step, and of those from one step to another.
unfoldable pub into : String → List Edge → ℕ
into k [] = 0
into k (e ∷ es) = count_if (e.1 == k) (into k es)

unfoldable pub from : String → String → List Edge → ℕ
from d k [] = 0
from d k (e ∷ es) = count_if (e.0 == d && (e.1 == k)) (from d k es)

abbrev pub adjacent : String → Map (List String) → List String
adjacent d adjacency = or_empty (lookup d adjacency)

abbrev pub value : String → Map ℕ → ℕ
value k m = or_zero (lookup k m)

-- The dependents of the processed steps, counted for one step.
unfoldable pub released : Map (List String) → String → List String → ℕ
released adjacency k [] = 0
released adjacency k (d ∷ ds) = count k (adjacent d adjacency) + released adjacency k ds

pub released-append :
    (adjacency : Map (List String)) (k : String) (xs ys : List String)
    → released adjacency k (xs ++ ys) ≡ released adjacency k xs + released adjacency k ys
unfolding released
released-append adjacency k [] ys = omega arith
released-append adjacency k (x ∷ xs) ys = omega (arith, released-append adjacency k xs ys)

-- The edges into a step, each as often as its dependency was processed.
weighted : String → List String → List Edge → ℕ
weighted k ps [] = 0
weighted k ps (e ∷ es) = if e.1 == k then count e.0 ps + weighted k ps es else weighted k ps es

weighted-nil : (k : String) (es : List Edge) → weighted k [] es ≡ 0
unfolding weighted count
weighted-nil k [] = refl
weighted-nil k (e ∷ es) = ground (arith, weighted-nil k es)

weighted-cons :
    (k d : String) (ps : List String) (es : List Edge)
    → weighted k (d ∷ ps) es ≡ from d k es + weighted k ps es
unfolding weighted from count
weighted-cons k d ps [] = omega arith
weighted-cons k d ps (e ∷ es) = ground (arith, weighted-cons k d ps es, eq_iff e.0 d, eq_iff d e.0)

-- The adjacency map and the counts say the same of the edges.
pub record Counts (adjacency : Map (List String)) (incoming : Map ℕ) (es : List Edge) : Type 0 where
  pub adjacent_from : (d k : String) → count k (adjacent d adjacency) ≡ from d k es
  pub value_into : (k : String) → value k incoming ≡ into k es

released-weighted :
    (adjacency : Map (List String)) (incoming : Map ℕ) (es : List Edge)
    → Counts adjacency incoming es
    → (k : String) (ps : List String) → released adjacency k ps ≡ weighted k ps es
unfolding released
released-weighted adjacency incoming es c k [] = sym (weighted-nil k es)
released-weighted adjacency incoming es c k (p ∷ ps) = omega (
  arith,
  released-weighted adjacency incoming es c k ps,
  c.adjacent_from p k,
  weighted-cons k p ps es,
)

weighted-le :
    (k : String) (ps : List String) (es : List Edge) → Distinct ps → weighted k ps es ≤ into k es
unfolding weighted into
weighted-le k ps [] d = omega arith
weighted-le k ps (e ∷ es) d = ground (arith, weighted-le k ps es d, d e.0)

weighted-In :
    (k : String) (ps : List String) (es : List Edge) (d : String)
    → Distinct ps
    → into k es ≤ weighted k ps es
    → In (d, k) es
    → In d ps
unfolding weighted into
weighted-In k ps [] d dist le i = elim i [ ]
weighted-In k ps (e ∷ es) d dist le (inl q) =
    count-In d ps (ground (arith, weighted-le k ps es dist, le, eq_refl k, q))
weighted-In k ps (e ∷ es) d dist le (inr i) =
    weighted-In k ps es d dist (ground (arith, weighted-le k ps es dist, dist e.0, le)) i

-- When as many edges into a step were released as there are, all its dependencies were processed.
pub released-In :
    (adjacency : Map (List String)) (incoming : Map ℕ) (es : List Edge)
    → Counts adjacency incoming es
    → (k d : String) (ps : List String) → Distinct ps
    → into k es ≤ released adjacency k ps
    → In (d, k) es
    → In d ps
released-In adjacency incoming es c k d ps dist le i =
    weighted-In k ps es d dist (omega (arith, released-weighted adjacency incoming es c k ps, le)) i
