-- ===== src/Operator/Dag/Order.antt =====
-- A successful sort of steps with different names lists each of them after its dependencies.
use agentspec.Base.{
  ℕ, zero, suc, ◌+◌, ◌≤◌, ◌<◌, String, List, [], ◌∷◌, ◌++◌, Option, none, some, map, eqb, length,
  ◌≡◌, refl, arith, eq_iff, Bool-cases, In, inl, inr, Option-cases, ltb, subst, ◌⊎◌, ltb→lt, sym,
  In-append_right, cons_if-In, ap,
}
use mathlib.Core.List.{append_assoc, append-nil}
use agentspec.Base.Maps.{Map, lookup, has, lookup-insert}
use agentspec.Base.Count.{Distinct-all, count, count-append, Distinct}
use agentspec.State.{ok}
use agentspec.Pipeline.Dag.{release}
use agentspec.Pipeline.Dag.Edges.{
  Edge, step_edges, into, from, value, adjacent, Counts, released, released-append, released-In,
}
use agentspec.Pipeline.Dag.Rounds.{Seen, release-Seen}
use agentspec.Pipeline.Dag.Linking.{into-append, from-append, adjacent-insert}
use agentspec.Operator.Dag.{
  DagStep, Graph, seed, count_dep, count_deps, count_steps, sort_loop, checked_all, topo_sort,
  first_queue,
}

abbrev pub task_edges : List DagStep → List Edge
task_edges [] = []
task_edges (s ∷ steps) = step_edges s.name s.depends_on ++ task_edges steps

abbrev pub names : List DagStep → List String
names steps = map (λ (s : DagStep). s.name) steps

-- What counting adds to the two maps.
record Adds (g g' : Graph) (es : List Edge) : Type 0 where
  adds_into : (k : String) → value k g'.in_degree ≡ value k g.in_degree + into k es
  adds_from :
      (d k : String)
      → count k (adjacent d g'.dependents) ≡ count k (adjacent d g.dependents) + from d k es

Adds-nil : (g : Graph) → Adds g g []
unfolding into from
Adds-nil g = record { adds_into = λ k. omega arith; adds_from = λ d k. omega arith }

Adds-append : (a b c : Graph) (xs ys : List Edge) → Adds a b xs → Adds b c ys → Adds a c (xs ++ ys)
Adds-append a b c xs ys p q = record {
  adds_into = λ k. omega (arith, p.adds_into k, q.adds_into k, into-append k xs ys);
  adds_from = λ d k. omega (arith, p.adds_from d k, q.adds_from d k, from-append d k xs ys);
}

seed-Adds : (name : String) (g : Graph) → Adds g (seed name g) []
unfolding seed into from has
seed-Adds name g = elim (Option-cases (lookup name g.in_degree)) [
  | inl e ↦ rw e (record {
    adds_into = λ k. ground (arith, lookup-insert name k 0 g.in_degree, eq_iff name k, e);
    adds_from = λ d k. omega arith;
  })
  | inr (c, e) ↦ rw e (Adds-nil g)
]

count_dep-Adds : (name dep : String) (g : Graph) → Adds g (count_dep name dep g) ((dep, name) ∷ [])
unfolding count_dep into from count
count_dep-Adds name dep g = record {
  adds_into = λ k.
      ground (arith, lookup-insert name k (value name g.in_degree + 1) g.in_degree, eq_iff name k);
  adds_from = λ d k. ground (
    arith,
    adjacent-insert dep d k (adjacent dep g.dependents ++ name ∷ []) g.dependents,
    count-append k (adjacent dep g.dependents) (name ∷ []),
    eq_iff dep d,
  );
}

count_deps-Adds :
    (name : String) (deps : List String) (g : Graph)
    → Adds g (count_deps name deps g) (step_edges name deps)
unfolding count_deps
count_deps-Adds name [] g = Adds-nil g
count_deps-Adds name (dep ∷ deps) g =
    Adds-append g (count_dep name dep g) _ ((dep, name) ∷ []) (step_edges name deps)
      (count_dep-Adds name dep g) (count_deps-Adds name deps _)

count_steps-Adds :
    (steps : List DagStep) (g : Graph) → Adds g (count_steps steps g) (task_edges steps)
unfolding count_steps
count_steps-Adds [] g = Adds-nil g
count_steps-Adds (s ∷ steps) g =
    Adds-append g _ _ (step_edges s.name s.depends_on) (task_edges steps)
      (Adds-append g (seed s.name g) _ [] (step_edges s.name s.depends_on) (seed-Adds s.name g)
        (count_deps-Adds s.name s.depends_on _))
      (count_steps-Adds steps _)

-- Each name is listed after its dependencies, or these are already `Done`.
unfoldable pub Follows : List Edge → (String → Type 0) → List String → Type 0
Follows es Done [] = Unit
Follows es Done (k ∷ ns) =
    ((d : String) → In (d, k) es → Done d) × Follows es (λ x. (k ≡ x) ⊎ Done x) ns

pub Follows-mono :
    (es : List Edge) (A B : String → Type 0) (ns : List String)
    → ((k : String) → A k → B k)
    → Follows es A ns
    → Follows es B ns
unfolding Follows
Follows-mono es A B [] h f = tt
Follows-mono es A B (k ∷ ns) h (here, f) = (
  λ d i. h d (here d i),
  Follows-mono es (λ x. (k ≡ x) ⊎ A x) (λ x. (k ≡ x) ⊎ B x) ns
      (λ x b. elim b [ inl e ↦ inl e | inr c ↦ inr (h x c) ]) f,
)

Follows-snoc :
    (es : List Edge) (Done : String → Type 0) (ns : List String) (k : String)
    → Follows es Done ns
    → ((d : String) → In (d, k) es → In d ns ⊎ Done d)
    → Follows es Done (ns ++ k ∷ [])
unfolding Follows
Follows-snoc es Done [] k f h = (λ d i. elim (h d i) [ inl x ↦ elim x [ ] | inr y ↦ y ], tt)
Follows-snoc es Done (n ∷ ns) k (here, f) h = (
  here,
  Follows-snoc es (λ x. (n ≡ x) ⊎ Done x) ns k f
      (λ d i. elim (h d i) [
        | inl (inl e) ↦ inr (inl e)
        | inl (inr j) ↦ inl j
        | inr y ↦ inr (inr y)
      ]),
)

some_same : {A : Type 0} {x y : A} → some x ≡ some y → x ≡ y
some_same e = cc e

module _ (all : List String) (es : List Edge) (dependents : Map (List String))
    (start_counts : Map ℕ) (counts : Counts dependents start_counts es) where
  abbrev pub Nothing : String → Type 0
  Nothing x = ⊥

  -- Before an iteration.
  pub record Sorting (order queue : List String) (m : Map ℕ) : Type 0 where
    pub seen : Seen all (order ++ queue) m
    pub budget : (k : String) → into k es ≤ value k m + released dependents k order
    pub follows : Follows es Nothing order

  Distinct-left : (xs ys : List String) → Distinct (xs ++ ys) → Distinct xs
  Distinct-left xs ys d k = omega (arith, d k, count-append k xs ys)

  step-Sorting :
      (order : List String) (n : String) (queue : List String) (m : Map ℕ)
      → Sorting order (n ∷ queue) m
      → Sorting
          (order ++ n ∷ [])
          (release (adjacent n dependents) m queue).1
          (release (adjacent n dependents) m queue).0
  unfolding released
  step-Sorting order n queue m s =
      let (seen, b) =
        release-Seen all (adjacent n dependents) (order ++ n ∷ []) queue m
          (subst (λ l. Seen all l m) (sym (append_assoc order (n ∷ []) queue)) s.seen) in
      record {
        seen = seen;
        budget = λ k. omega (arith, b k, s.budget k, released-append dependents k order (n ∷ []));
        follows = Follows-snoc es Nothing order n s.follows (λ d i. inl (
            released-In dependents start_counts es counts n d order
              (Distinct-left order (n ∷ queue) s.seen.distinct)
              (omega (
                arith,
                s.budget n,
                s.seen.at_zero n (In-append_right n order (n ∷ queue) (inl refl)),
              ))
              i));
      }

  pub sort_loop-Sorting :
      (fuel : ℕ) (queue : List String) (m : Map ℕ) (order result : List String)
      → Sorting order queue m
      → sort_loop fuel dependents queue m order ≡ some result
      → (end : Map ℕ) × Sorting result [] end
  unfolding sort_loop
  sort_loop-Sorting fuel [] m order result s e = (m, subst (λ l. Sorting l [] m) (some_same e) s)
  sort_loop-Sorting zero (n ∷ queue) m order result s e = cc
  sort_loop-Sorting (suc fuel) (n ∷ queue) m order result s e =
      sort_loop-Sorting fuel _ _ (order ++ n ∷ []) result (step-Sorting order n queue m s) e

-- The first queue.
first_queue-In :
    (m : Map ℕ) (steps : List DagStep) (k : String)
    → In k (first_queue m steps)
    → (value k m ≡ 0) × In k (names steps)
unfolding first_queue
first_queue-In m [] k i = elim i [ ]
first_queue-In m (s ∷ steps) k i =
    elim (cons_if-In k (eqb (value s.name m) 0) s.name (first_queue m steps) i) [
      | inl (z, e) ↦ (ground (arith, z, e), inl e)
      | inr j ↦ let (z, n) = first_queue-In m steps k j in (z, inr n)
    ]

count-first_queue :
    (m : Map ℕ) (steps : List DagStep) (k : String)
    → count k (first_queue m steps) ≤ count k (names steps)
unfolding first_queue count
count-first_queue m [] k = omega arith
count-first_queue m (s ∷ steps) k = ground (arith, count-first_queue m steps k)

into-step_edges :
    (k name : String) (deps : List String) → 0 < into k (step_edges name deps) → name ≡ k
unfolding into
into-step_edges k name [] h = absurd (omega (arith, h))
into-step_edges k name (d ∷ ds) h = ground (arith, into-step_edges k name ds, eq_iff name k)

into-In : (k : String) (steps : List DagStep) → 0 < into k (task_edges steps) → In k (names steps)
unfolding into
into-In k [] h = absurd (omega (arith, h))
into-In k (s ∷ steps) h = elim (Bool-cases (ltb 0 (into k (step_edges s.name s.depends_on)))) [
  | inl t ↦ inl (into-step_edges k s.name s.depends_on (ltb→lt _ _ t))
  | inr f ↦ inr (
      into-In k steps
        (ground (arith, into-append k (step_edges s.name s.depends_on) (task_edges steps))))
]

checked_ok :
    (n : ℕ) (o : Option (List String)) (order : List String)
    → checked_all n o ≡ some (ok order)
    → (o ≡ some order) × (length order ≡ n)
checked_ok n none order h = absurd (cc h)
checked_ok n (some l) order h = elim (Bool-cases (eqb (length l) n)) [
  | inl t ↦ let same : l ≡ order = cc (h, t) in (ap some same, ground (arith, t, ap length same))
  | inr f ↦ absurd (cc (h, f))
]

length-names : (steps : List DagStep) → length (names steps) ≡ length steps
length-names [] = refl
length-names (s ∷ steps) = omega (arith, length-names steps)

module _ (steps : List DagStep) (different : Distinct (names steps)) where
  abbrev graph : Graph
  graph = count_steps steps (record { in_degree = []; dependents = [] })

  graph-Counts : Counts graph.dependents graph.in_degree (task_edges steps)
  unfolding lookup count
  graph-Counts =
      let a = count_steps-Adds steps (record { in_degree = []; dependents = [] }) in
      record {
        adjacent_from = λ d k. let f = a.adds_from d k in omega (arith, f);
        value_into = λ k. let i = a.adds_into k in omega (arith, i);
      }

  start-Sorting :
      Sorting
        (names steps)
        (task_edges steps)
        graph.dependents
        graph.in_degree
        graph-Counts
        []
        (first_queue graph.in_degree steps)
        graph.in_degree
  unfolding released Follows
  start-Sorting = record {
    seen = record {
      at_zero = λ k i. (first_queue-In graph.in_degree steps k i).0;
      distinct = λ k. omega (arith, count-first_queue graph.in_degree steps k, different k);
      known = λ k i. (first_queue-In graph.in_degree steps k i).1;
      positive = λ k h. into-In k steps (let v = graph-Counts.value_into k in omega (arith, h, v));
    };
    budget = λ k. let v = graph-Counts.value_into k in omega (arith, v);
    follows = tt;
  }

  -- For steps with different names, the order of a successful sort has every step, none twice, and each
  -- after the steps that it depends on.
  pub topo_sort-Follows :
      (order : List String)
      → topo_sort steps ≡ some (ok order)
      → Follows (task_edges steps) (λ x. ⊥) order
        × Distinct order
        × ((k : String) → In k (names steps) → In k order)
        × (length order ≡ length steps)
  unfolding topo_sort
  topo_sort-Follows order e =
      let (found, long) = checked_ok (length steps) _ order e in
      let (m, s) =
        sort_loop-Sorting (names steps) (task_edges steps) graph.dependents graph.in_degree
          graph-Counts _ (first_queue graph.in_degree steps) graph.in_degree [] order start-Sorting
          found in
      let seen = subst (λ l. Seen (names steps) l m) (append-nil order) s.seen in
      (
        s.follows,
        seen.distinct,
        Distinct-all order (names steps) seen.distinct seen.known
            (omega (arith, long, length-names steps)),
        long,
      )
