-- ===== src/Pipeline/Dag/Sound.antt =====
-- What `BuildDAG` returns is an order of the steps.
use agentspec.Base.{
  ℕ, suc, ◌<◌, String, List, [], ◌∷◌, arith, eq_iff, In, inl, inr, refl, ◌≡◌, ap, some, none,
  length, In-map, Option, Option-cases, ltb, subst, map, ◌∙◌, sym,
}
use agentspec.Base.Count.{Distinct-all, count, Distinct, In-count}
use agentspec.Base.Maps.{lookup, Map, Unique, values}
use agentspec.Pipeline.Dag.{
  Step, Dag, or_zero, build_dag, zero_names, topological_sort, checked_order, layers_loop,
  index_steps, link_steps, empty_dag,
}
use agentspec.Pipeline.Dag.Edges.{Edge, edges, value, adjacent, Counts, released}
use agentspec.Pipeline.Dag.Rounds.{Seen}
use agentspec.Pipeline.Dag.Loop.{Layered, flat, Round, Ends, layers_loop-Ends}
use agentspec.Pipeline.Dag.Linking.{
  names_of, step_name, Counted, Indexed, index_steps-Indexed, Links, link_steps-Links, then_do-ok,
  ok_same, passed,
}
use agentspec.State.{ok}
use mathlib.Core.List.{append-nil}

absent-zero_names : (k : String) (m : Map ℕ) → lookup k m ≡ none → count k (zero_names m) ≡ 0
unfolding lookup zero_names count
absent-zero_names k [] h = refl
absent-zero_names k ((j, c) ∷ m) h = ground (arith, absent-zero_names k m, h)

zero_names-Distinct : (m : Map ℕ) → Unique m → Distinct (zero_names m)
unfolding zero_names count
zero_names-Distinct [] u k = omega arith
zero_names-Distinct ((j, c) ∷ m) u k =
    ground (arith, zero_names-Distinct m u.1 k, absent-zero_names j m u.0, eq_iff j k)

zero_names-lookup :
    (k : String) (m : Map ℕ) → Unique m → 0 < count k (zero_names m) → lookup k m ≡ some 0
unfolding zero_names lookup count
zero_names-lookup k [] u h = absurd (omega (arith, h))
zero_names-lookup k ((j, c) ∷ m) u h =
    ground (arith, zero_names-lookup k m u.1, absent-zero_names j m u.0, h, eq_iff j k)

value-none : (k : String) (m : Map ℕ) → 0 < value k m → (c : ℕ) × (lookup k m ≡ some c)
value-none k m h = elim (Option-cases (lookup k m)) [
  | inl e ↦ absurd (ground (arith, e, h))
  | inr (c, e) ↦ (c, e)
]

first-Seen : (names : List String) (m : Map ℕ) → Counted names m → Seen names (zero_names m) m
first-Seen names m n = record {
  at_zero = λ k i. ap or_zero (zero_names-lookup k m n.unique (In-count k (zero_names m) i));
  distinct = zero_names-Distinct m n.unique;
  known = λ k i. n.has_names k 0 (zero_names-lookup k m n.unique (In-count k (zero_names m) i));
  positive = λ k h. let (c, e) = value-none k m h in n.has_names k c e;
}

first-Round :
    (names : List String) (es : List Edge) (adjacency : Map (List String)) (m : Map ℕ)
    (counts : Counts adjacency m es)
    → Counted names m
    → Round names es adjacency m counts [] (zero_names m) m 0
unfolding released
first-Round names es adjacency m counts n = record {
  layered = Layered.start;
  seen = first-Seen names m n;
  budget = λ k. omega (arith, counts.value_into k);
  processed_all = refl;
}

-- The order has every dependency of a step in an earlier layer, every step, and no step twice.
pub record IsOrder (steps : List Step) (order : List (List String)) : Type 0 where
  pub layered : Layered (edges steps) order
  pub complete : (k : String) → In k (names_of steps) → In k (flat order)
  pub distinct : Distinct (flat order)
  pub known : (k : String) → In k (flat order) → In k (names_of steps)

checked-IsOrder :
    (steps : List Step) (adjacency : Map (List String)) (m : Map ℕ)
    (counts : Counts adjacency m (edges steps)) (o : Option (List (List String) × ℕ))
    (order : List (List String))
    → Ends (names_of steps) (edges steps) adjacency m counts o
    → checked_order (length (names_of steps)) o ≡ ok order
    → IsOrder steps order
unfolding checked_order
checked-IsOrder steps adjacency m counts o order (layers, m', processed, q, r) h =
    let (all, e) =
      passed (ltb processed (length (names_of steps))) _ (ok layers) order
        (subst (λ x. checked_order (length (names_of steps)) x ≡ ok order) q h) in
    let d = subst Distinct (append-nil (flat layers)) r.seen.distinct in
    let known =
      subst (λ l. (j : String) → In j l → In j (names_of steps)) (append-nil (flat layers))
        r.seen.known in
    subst (IsOrder steps) (ok_same e) (record {
      layered = r.layered;
      complete = λ k.
          Distinct-all (flat layers) (names_of steps) d known (ground (arith, all, r.processed_all))
            k;
      distinct = d;
      known = known;
    })

length-map : {A B : Type 0} (f : A → B) (xs : List A) → length (map f xs) ≡ length xs
length-map f [] = refl
length-map f (x ∷ xs) = ap suc (length-map f xs)

linked-Counts :
    (steps : List Step) (a dag : Dag)
    → Indexed steps a
    → Links (names_of steps) a dag (edges steps)
    → Counts dag.adjacency dag.incoming (edges steps)
unfolding lookup count
linked-Counts steps a dag i l = record {
  adjacent_from =
      λ d k. omega (arith, l.adds_from d k, ap (λ x. count k (adjacent d x)) i.no_edges);
  value_into = λ k. omega (arith, l.adds_into k, i.at_zero k);
}

sort-IsOrder :
    (steps : List Step) (a dag : Dag) (order : List (List String))
    → Indexed steps a
    → Links (names_of steps) a dag (edges steps)
    → topological_sort dag ≡ ok order
    → IsOrder steps order
unfolding topological_sort
sort-IsOrder steps a dag order i l h =
    let counts = linked-Counts steps a dag i l in
    let total = length-map (λ e. e.1) dag.steps in
    let same = ap length (ap values l.same_steps ∙ i.all_steps) in
    let n = length-map step_name steps in
    checked-IsOrder steps dag.adjacency dag.incoming counts
      (layers_loop (length dag.steps) dag.adjacency (zero_names dag.incoming) dag.incoming [] 0)
      order
      (layers_loop-Ends (names_of steps) (edges steps) dag.adjacency dag.incoming counts
        (length dag.steps) (zero_names dag.incoming) dag.incoming [] 0
        (first-Round (names_of steps) (edges steps) dag.adjacency dag.incoming counts
          (l.counted i.counted))
        (omega (arith, total, same, n)))
      (subst
        (λ x.
          checked_order x (
            layers_loop (length dag.steps) dag.adjacency (zero_names dag.incoming) dag.incoming []
              0)
          ≡ ok order)
        (the_size total same n) h)
  where
    the_size :
        length (values dag.steps) ≡ length dag.steps
        → length (values dag.steps) ≡ length steps
        → length (names_of steps) ≡ length steps
        → length dag.steps ≡ length (names_of steps)
    the_size p q r = omega (arith, p, q, r)

empty-Indexed : Indexed [] empty_dag
unfolding lookup
empty-Indexed = record {
  all_steps = refl;
  counted = record { unique = tt; has_names = λ k c h. cc };
  at_zero = λ k. refl;
  no_edges = refl;
  looked = λ s i. elim i [ ];
}

-- The steps of a built graph are found under their names.
pub build_dag-lookup :
    (steps : List Step) (dag : Dag)
    → build_dag steps ≡ ok dag
    → (s : Step) → In s steps
    → lookup s.name dag.steps ≡ some s
unfolding build_dag
build_dag-lookup steps dag h s j =
    let (a, p, h₁) = then_do-ok (index_steps steps empty_dag) _ dag h in
    let (b, q, h₂) = then_do-ok (link_steps (values a.steps) a) _ dag h₁ in
    let (layers, r, h₃) = then_do-ok (topological_sort b) _ dag h₂ in
    let i = index_steps-Indexed steps [] empty_dag a empty-Indexed p in
    let l =
      link_steps-Links (names_of steps) (values a.steps) a b
        (λ t k. In-map step_name t steps (subst (In t) i.all_steps k)) q in
    ap (λ (d : Dag). lookup s.name d.steps) (sym (ok_same h₃))
    ∙ ap (lookup s.name) l.same_steps
    ∙ i.looked s j

-- When `BuildDAG` succeeds, its layers are an order of the steps: every step stands in them, none
-- twice, and each dependency of a step in an earlier layer than the step.
pub build_dag-IsOrder :
    (steps : List Step) (dag : Dag) → build_dag steps ≡ ok dag → IsOrder steps dag.order
unfolding build_dag
build_dag-IsOrder steps dag h =
    let (a, p, h₁) = then_do-ok (index_steps steps empty_dag) _ dag h in
    let (b, q, h₂) = then_do-ok (link_steps (values a.steps) a) _ dag h₁ in
    let (layers, r, h₃) = then_do-ok (topological_sort b) _ dag h₂ in
    let i = index_steps-Indexed steps [] empty_dag a empty-Indexed p in
    subst (IsOrder steps) (ap (λ d. d.order) (ok_same h₃)) (
      sort-IsOrder steps a b layers i
        (subst (λ ss. Links (names_of steps) a b (edges ss)) i.all_steps
          (link_steps-Links (names_of steps) (values a.steps) a b
            (λ s j. In-map step_name s steps (subst (In s) i.all_steps j)) q))
        r)
