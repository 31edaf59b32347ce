-- ===== src/Operator/Dag/Enough.antt =====
-- The fuel of the topological sort is enough, whatever the steps.
use agentspec.Base.{
  inl, inr, ap, ℕ, zero, suc, ◌+◌, ◌-◌, ◌≤◌, String, List, [], ◌∷◌, ◌++◌, some, if◌then◌else◌, eqb,
  length, length-append, ◌≡◌, refl, arith, Bool-cases, ap, inl, inr,
}
use agentspec.Base.Maps.{Map, lookup, insert}
use agentspec.State.{Result}
use agentspec.Pipeline.Dag.{or_zero, or_empty, release}
use agentspec.Operator.Dag.{
  DagStep, degrees, sort_loop, checked_all, topo_sort, count_steps, first_queue,
}

degrees-insert :
    (k : String) (v : ℕ) (m : Map ℕ) → degrees (insert k v m) + or_zero (lookup k m) ≡ degrees m + v
unfolding degrees insert lookup
degrees-insert k v [] = omega arith
degrees-insert k v (e ∷ m) = ground (arith, degrees-insert k v m)

joined-length :
    (k : String) (c : ℕ) (next : List String)
    → length (if eqb c 1 then next ++ k ∷ [] else next) + (c - 1) ≤ length next + c
joined-length k c next = elim (Bool-cases (eqb c 1)) [
  | inl t ↦ rw t (ground (arith, t, length-append next (k ∷ [])))
  | inr f ↦ rw f (omega arith)
]

-- What joins the queue was counted down.
release-degrees :
    (ks : List String) (m : Map ℕ) (next : List String)
    → length (release ks m next).1 + degrees (release ks m next).0 ≤ length next + degrees m
unfolding release
release-degrees [] m next = omega arith
release-degrees (k ∷ ks) m next =
    let c = or_zero (lookup k m) in
    omega (
      arith,
      release-degrees ks (insert k (c - 1) m) (if eqb c 1 then next ++ k ∷ [] else next),
      degrees-insert k (c - 1) m,
      joined-length k c next,
    )

pub sort_loop-some :
    (fuel : ℕ) (dependents : Map (List String)) (queue : List String) (m : Map ℕ)
    (order : List String)
    → length queue + degrees m ≤ fuel
    → (all : List String) × (sort_loop fuel dependents queue m order ≡ some all)
unfolding sort_loop
sort_loop-some fuel dependents [] m order h = (order, refl)
sort_loop-some zero dependents (n ∷ queue) m order h = absurd (omega (arith, h))
sort_loop-some (suc fuel) dependents (n ∷ queue) m order h =
    sort_loop-some fuel dependents _ _ (order ++ n ∷ [])
      (omega (arith, h, release-degrees (or_empty (lookup n dependents)) m queue))

-- The topological sort ends for any steps, with an order or with the error of a cycle.
pub topo_sort-some :
    (steps : List DagStep) → (r : Result (List String)) × (topo_sort steps ≡ some r)
unfolding topo_sort
topo_sort-some steps =
    let g = count_steps steps (record { in_degree = []; dependents = [] }) in
    let queue = first_queue g.in_degree steps in
    let (order, e) =
      sort_loop-some (length queue + degrees g.in_degree) g.dependents queue g.in_degree []
        (omega arith) in
    (_, ap (checked_all (length steps)) e)
