-- ===== src/Operator/Dag/Waves.antt =====
-- The waves of a run end with all tasks run, if no context is cancelled.
use agentspec.Base.{
  ℕ, zero, suc, ◌+◌, ◌≤◌, String, str_append, List, [], ◌∷◌, some, Bool, true, false, not,
  if◌then◌else◌, length, ◌≡◌, refl, arith, eq_iff, ◌==◌, Bool-cases, In, inl, inr, keep, In-keep,
  ◌⊎◌, ap, subst, sym, In-append_right, In-map, ◌∙◌, In-append_left,
}
use agentspec.Base.Maps.{Map, lookup, insert, has, lookup-insert}
use agentspec.Base.Count.{Distinct}
use agentspec.State.{ok}
use agentspec.Pipeline.Dag.Edges.{step_edges-In, Edge, step_edges}
use agentspec.Operator.Dag.{
  DagStep, Progress, all_met, deps_of, met, run_step, run_wave, waves, run, step_map, topo_sort,
  no_progress,
}
use agentspec.Operator.Dag.Order.{Follows, task_edges, names, topo_sort-Follows, Follows-mono}

-- A task has run.
abbrev pub Ran : Progress → String → Type 0
Ran p k =
    (lookup k p.completed ≡ some true) × (lookup k p.results ≡ some (str_append "output of " k))

run_step-Ran : (n k : String) (p : Progress) → (n ≡ k) ⊎ Ran p k → Ran (run_step true n p) k
unfolding run_step
run_step-Ran n k p (inl e) = (
  ground (arith, lookup-insert n k true p.completed, eq_iff n k, e),
  ground (arith, lookup-insert n k (str_append "output of " n) p.results, eq_iff n k, e),
)
run_step-Ran n k p (inr r) = (
  ground (arith, lookup-insert n k true p.completed, r.0),
  ground (arith, lookup-insert n k (str_append "output of " n) p.results, eq_iff n k, r.1),
)

module _ (alive : ℕ → String → Bool) (up : (n : ℕ) (name : String) → alive n name ≡ true) where
  run_wave-Ran :
      (wave : ℕ) (ns : List String) (k : String) (p : Progress)
      → In k ns ⊎ Ran p k
      → Ran (run_wave (alive wave) ns p) k
  unfolding run_wave
  run_wave-Ran wave [] k p (inl i) = elim i [ ]
  run_wave-Ran wave [] k p (inr r) = r
  run_wave-Ran wave (n ∷ ns) k p h =
      subst (λ b. Ran (run_wave (alive wave) ns (run_step b n p)) k) (sym (up wave n))
        (run_wave-Ran wave ns k (run_step true n p) (elim h [
          | inl (inl e) ↦ inr (run_step-Ran n k p (inl e))
          | inl (inr i) ↦ inl i
          | inr r ↦ inr (run_step-Ran n k p (inr r))
        ]))

module _ (es : List Edge) (steps : Map DagStep)
    (dependencies : (k d : String) → In d (deps_of (lookup k steps)) → In (d, k) es) where
  -- A task whose dependencies have all run is ready.
  all_met-true :
      (completed : Map Bool) (deps : List String)
      → ((d : String) → In d deps → has d completed ≡ true)
      → all_met completed deps ≡ true
  unfolding all_met
  all_met-true completed [] h = refl
  all_met-true completed (d ∷ deps) h =
      rw (h d (inl refl)) (all_met-true completed deps (λ x i. h x (inr i)))

  -- The tasks left, when the ready ones of a wave are done.
  Follows-keep :
      (test : String → Bool) (ns : List String) (Before After : String → Type 0)
      → Follows es Before ns
      → ((k : String) → Before k → After k)
      → ((k : String) → In k ns → test k ≡ true → After k)
      → Follows es After (keep (λ k. not (test k)) ns)
  unfolding Follows keep
  Follows-keep test [] Before After f mono done = tt
  Follows-keep test (n ∷ ns) Before After (here, f) mono done = elim (Bool-cases (test n)) [
    | inl t ↦ rw t (
        Follows-keep test ns (λ x. (n ≡ x) ⊎ Before x) After f
          (λ k b. elim b [ inl e ↦ subst After e (done n (inl refl) t) | inr c ↦ mono k c ])
          (λ k i. done k (inr i)))
    | inr u ↦ rw u (
      λ d i. mono d (here d i),
      Follows-keep test ns (λ x. (n ≡ x) ⊎ Before x) (λ x. (n ≡ x) ⊎ After x) f
          (λ k b. elim b [ inl e ↦ inl e | inr c ↦ inr (mono k c) ])
          (λ k i t. inr (done k (inr i) t)),
    )
  ]

  length-keep : (test : String → Bool) (ns : List String) → length (keep test ns) ≤ length ns
  unfolding keep
  length-keep test [] = omega arith
  length-keep test (n ∷ ns) = elim (Bool-cases (test n)) [
    | inl t ↦ rw t (omega (arith, length-keep test ns))
    | inr f ↦ rw f (omega (arith, length-keep test ns))
  ]

  length-keep_first :
      (test : String → Bool) (n : String) (ns : List String)
      → test n ≡ false
      → length (keep test (n ∷ ns)) ≤ length ns
  unfolding keep
  length-keep_first test n ns f = rw f (length-keep test ns)

  module _ (alive : ℕ → String → Bool) (up : (n : ℕ) (name : String) → alive n name ≡ true) where
    met-true :
        (p : Progress) (n : String)
        → ((d : String) → In (d, n) es → Ran p d)
        → met steps p.completed n ≡ true
    unfolding met has
    met-true p n h =
        all_met-true p.completed (deps_of (lookup n steps))
          (λ d i. let r = h d (dependencies n d i) in rw r.0 refl)

    waves-Ran :
        (fuel wave : ℕ) (ns : List String) (p : Progress)
        → length ns ≤ fuel
        → Follows es (Ran p) ns
        → (results : Map String) × (waves fuel alive wave steps ns p ≡ some results)
          × ((k : String) → In k ns ⊎ Ran p k → lookup k results ≡ some (str_append "output of " k))
    unfolding waves Follows
    waves-Ran fuel wave [] p le f =
        (p.results, refl, λ k h. elim h [ inl i ↦ elim i [ ] | inr r ↦ r.1 ])
    waves-Ran zero wave (n ∷ ns) p le f = absurd (omega (arith, le))
    waves-Ran (suc fuel) wave (n ∷ ns) p le f =
        let test = met steps p.completed in
        let ready = keep test (n ∷ ns) in
        let next = keep (λ k. not (test k)) (n ∷ ns) in
        let p' = run_wave (alive wave) ready p in
        let first = met-true p n f.0 in
        let ran : (k : String) → In k (n ∷ ns) → test k ≡ true → Ran p' k =
          λ k i t. run_wave-Ran alive up wave ready k p (inl (In-keep test k (n ∷ ns) i t)) in
        let still : (k : String) → Ran p k → Ran p' k =
          λ k r. run_wave-Ran alive up wave ready k p (inr r) in
        let (results, e, all) =
          waves-Ran fuel (wave + 1) next p'
            (omega (arith, le, length-keep_first (λ k. not (test k)) n ns (ap not first)))
            (Follows-keep test (n ∷ ns) (Ran p) (Ran p') f still ran) in
        (
          results,
          e,
          λ k h. all k (elim h [
            | inl i ↦ elim (Bool-cases (test k)) [
              | inl t ↦ inr (ran k i t)
              | inr u ↦ inl (In-keep (λ k. not (test k)) k (n ∷ ns) i (ap not u))
            ]
            | inr r ↦ inr (still k r)
          ]),
        )

-- The dependencies of a name are those of a step of that name.
step_map-In :
    (k : String) (steps : List DagStep) (m : Map DagStep) (d : String)
    → In d (deps_of (lookup k (step_map steps m)))
    → In (d, k) (task_edges steps) ⊎ In d (deps_of (lookup k m))
unfolding step_map
step_map-In k [] m d i = inr i
step_map-In k (s ∷ steps) m d i = elim (step_map-In k steps (insert s.name s m) d i) [
  | inl e ↦ inl (In-append_right (d, k) (step_edges s.name s.depends_on) (task_edges steps) e)
  | inr j ↦ elim (Bool-cases (s.name == k)) [
    | inl t ↦
        let same : s.name ≡ k = ground (arith, eq_iff s.name k, t) in
        let mine =
          subst (λ o. In d (deps_of o))
            (lookup-insert s.name k s m ∙ ap (λ b. if b then some s else lookup k m) t) j in
        inl (
          In-append_left (d, k) (step_edges s.name s.depends_on) (task_edges steps)
            (subst (λ x. In (d, x) (step_edges s.name s.depends_on)) same
              (step_edges-In d s.name s.depends_on mine)))
    | inr f ↦ inr (
        subst (λ o. In d (deps_of o))
          (lookup-insert s.name k s m ∙ ap (λ b. if b then some s else lookup k m) f) j)
  ]
]

module _ (alive : ℕ → String → Bool) where
  -- If no context is cancelled, a run of tasks with different names whose sort succeeds ends within as many
  -- waves as there are tasks, and every task has its output among the results.
  pub run-Complete :
      (up : (n : ℕ) (name : String) → alive n name ≡ true) (steps : List DagStep)
      (different : Distinct (names steps)) (order : List String) (fuel : ℕ)
      → topo_sort steps ≡ some (ok order)
      → length steps ≤ fuel
      → (results : Map String) × (run fuel alive steps ≡ some (ok results))
        × ((s : DagStep)
            → In s steps
            → lookup s.name results ≡ some (str_append "output of " s.name))
  unfolding run lookup
  run-Complete up steps different order fuel e le =
      let (follows, _, every, long) = topo_sort-Follows steps different order e in
      let (results, done, all) =
        waves-Ran (task_edges steps) (step_map steps [])
          (λ k d i. elim (step_map-In k steps [] d i) [ inl x ↦ x | inr y ↦ elim y [ ] ]) alive up
          fuel 0 order no_progress (omega (arith, le, long))
          (Follows-mono (task_edges steps) _ _ order (λ k b. elim b [ ]) follows) in
      (results, rw (e, done) refl, λ s i. all s.name (inl (every s.name (In-map _ s steps i))))
