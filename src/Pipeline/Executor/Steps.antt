-- ===== src/Pipeline/Executor/Steps.antt =====
-- What the steps of a layer leave.
use agentspec.Base.{
  ◌<◌, String, List, [], ◌∷◌, Option, some, Bool, ◌≡◌, refl, ap, sym, ◌∙◌, subst, ◌⊎◌, inl, inr, In,
  arith, eq_refl,
}
use agentspec.Base.Count.{count, Distinct, In-count, count-In}
use agentspec.Base.Maps.{Map, lookup, lookup-insert}
use agentspec.State.{Result, ok, err}
use agentspec.Loop.{Response}
use agentspec.Pipeline.Dag.{Step, Dag}
use agentspec.Pipeline.Executor.{
  StepResult, Execution, step_result, step_input, add_step, execute_step, execute_steps,
  execute_layer, then_step,
}

module _ {S : Type 0} where
  abbrev pub Has : String → Execution S → String → Type 0
  Has status x k = (r : StepResult) × (lookup k x.steps ≡ some r) × (r.status ≡ status)

  -- What steps of these names change: their own results, and the status if one of them fails.
  pub record Stepped (ns : List String) (x y : Execution S) : Type 0 where
    pub kept : (k : String) → count k ns ≡ 0 → lookup k y.steps ≡ lookup k x.steps
    pub outcome :
        (y.status ≡ x.status) × ((k : String) → In k ns → Has "completed" y k)
        ⊎ ((k : String) × (y.status ≡ "failed") × In k ns × Has "failed" y k)

  Has-kept :
      (status k : String) (x y : Execution S)
      → lookup k y.steps ≡ lookup k x.steps
      → Has status x k
      → Has status y k
  Has-kept status k x y e (r, here, s) = (r, e ∙ here, s)

  -- Steps after one step.
  Stepped-cons :
      (n : String) (ns : List String) (x y z : Execution S)
      → count n ns ≡ 0
      → Stepped (n ∷ []) x y
      → Stepped ns y z
      → Stepped (n ∷ ns) x z
  unfolding count
  Stepped-cons n ns x y z fresh p q = record {
    kept = λ k c. q.kept k (ground (arith, c)) ∙ p.kept k (ground (arith, c));
    outcome = elim p.outcome [
      | inl (same, done) ↦ elim q.outcome [
        | inl (same', done') ↦ inl (
          same' ∙ same,
          λ k i. elim i [
            | inl e ↦
                subst (Has "completed" z) e
                  (Has-kept "completed" n y z (q.kept n fresh) (done n (inl refl)))
            | inr j ↦ done' k j
          ],
        )
        | inr (k, bad, i, h) ↦ inr (k, bad, inr i, h)
      ]
      | inr (k, bad, i, h) ↦ elim q.outcome [
        | inl (same', done') ↦ elim i [
          | inl e ↦ inr (
            n,
            same' ∙ bad,
            inl refl,
            Has-kept "failed" n y z (q.kept n fresh) (subst (Has "failed" y) (sym e) h),
          )
          | inr m ↦ elim m [ ]
        ]
        | inr (k', bad', i', h') ↦ inr (k', bad', inr i', h')
      ]
    ];
  }

  module _ (invoke : S → String → String → Result Response × S) (cancelled : S → Bool)
      (schedule : List String → List String) (dag : Dag) where
    add_step-Stepped :
        (name : String) (step : Step) (reply : Result Response) (s : S) (x : Execution S)
        → Stepped
            (name ∷ [])
            x
            (add_step invoke cancelled schedule dag name (step_result step reply) s x)
    unfolding add_step count
    add_step-Stepped name step (ok resp) s x = record {
      kept = λ k c. ground (arith, lookup-insert name k (step_result step (ok resp)) x.steps, c);
      outcome = inl (
        refl,
        λ k i. elim i [
          | inl e ↦
              subst
                (Has "completed"
                  (add_step invoke cancelled schedule dag name (step_result step (ok resp)) s x))
                e
                (
                  step_result step (ok resp),
                  ground (
                    arith,
                    lookup-insert name name (step_result step (ok resp)) x.steps,
                    eq_refl name,
                  ),
                  refl,
                )
          | inr m ↦ elim m [ ]
        ],
      );
    }
    add_step-Stepped name step (err e) s x = record {
      kept = λ k c. ground (arith, lookup-insert name k (step_result step (err e)) x.steps, c);
      outcome = inr (
        name,
        refl,
        inl refl,
        (
          step_result step (err e),
          ground (arith, lookup-insert name name (step_result step (err e)) x.steps, eq_refl name),
          refl,
        ),
      );
    }

    -- The graph has the steps that are executed.
    abbrev pub Known : List String → Type 0
    Known ns = (k : String) → In k ns → (step : Step) × (lookup k dag.steps ≡ some step)

    abbrev pub Runs : (Execution S → Type 0) → Option (Execution S) → Type 0
    Runs P o = (y : Execution S) × (o ≡ some y) × P y

    execute_step-Stepped :
        (outputs : Map String) (name : String) (x : Execution S)
        → Known (name ∷ [])
        → Runs
            (Stepped (name ∷ []) x)
            (execute_step invoke cancelled schedule dag outputs name (lookup name dag.steps) x)
    unfolding execute_step
    execute_step-Stepped outputs name x known =
        let (step, e) = known name (inl refl) in
        let reply = invoke x.world step.agent_ref (step_input step outputs) in
        (
          add_step invoke cancelled schedule dag name (step_result step reply.0) reply.1 x,
          ap (λ o. execute_step invoke cancelled schedule dag outputs name o x) e,
          add_step-Stepped name step reply.0 reply.1 x,
        )

    Stepped-nil : (x : Execution S) → Stepped [] x x
    Stepped-nil x = record { kept = λ k c. refl; outcome = inl (refl, λ k i. elim i [ ]) }

    execute_steps-Stepped :
        (outputs : Map String) (ns : List String) (x : Execution S)
        → Known ns
        → Distinct ns
        → Runs (Stepped ns x) (execute_steps invoke cancelled schedule dag outputs ns x)
    unfolding execute_steps count
    execute_steps-Stepped outputs [] x known d = (x, refl, Stepped-nil x)
    execute_steps-Stepped outputs (n ∷ ns) x known d =
        let (y, e, p) = execute_step-Stepped outputs n x (λ k i. known k (only k i)) in
        let (z, f, q) =
          execute_steps-Stepped outputs ns y (λ k i. known k (inr i)) (λ k. ground (arith, d k)) in
        (
          z,
          ap
                (λ o.
                  then_step invoke cancelled schedule dag o
                    (λ y. execute_steps invoke cancelled schedule dag outputs ns y))
                e
              ∙ f,
          Stepped-cons n ns x y z (ground (arith, d n, eq_refl n)) p q,
        )
      where
        only : (k : String) → In k (n ∷ []) → In k (n ∷ ns)
        only k (inl e) = inl e
        only k (inr m) = elim m [ ]

    module _ (permutes : (ns : List String) (k : String) → count k (schedule ns) ≡ count k ns) where
      Stepped-schedule :
          (ns : List String) (x y : Execution S) → Stepped (schedule ns) x y → Stepped ns x y
      Stepped-schedule ns x y p = record {
        kept = λ k c. p.kept k (permutes ns k ∙ c);
        outcome = elim p.outcome [
          | inl (same, done) ↦ inl (same, λ k i. done k (count-In k (schedule ns) (there k i)))
          | inr (k, bad, i, h) ↦ inr (k, bad, count-In k ns (back k i), h)
        ];
      }
        where
          there : (k : String) → In k ns → 0 < count k (schedule ns)
          there k i = omega (arith, permutes ns k, In-count k ns i)

          back : (k : String) → In k (schedule ns) → 0 < count k ns
          back k i = omega (arith, permutes ns k, In-count k (schedule ns) i)

      scheduled-Stepped :
          (ns : List String) (x : Execution S)
          → Known ns
          → Distinct ns
          → Runs
              (Stepped ns x)
              (execute_steps invoke cancelled schedule dag x.step_outputs (schedule ns) x)
      scheduled-Stepped ns x known d =
          let (y, e, p) =
            execute_steps-Stepped x.step_outputs (schedule ns) x
              (λ k i.
                known k (count-In k ns (omega (arith, permutes ns k, In-count k (schedule ns) i))))
              (λ k. omega (arith, permutes ns k, d k)) in
          (y, e, Stepped-schedule ns x y p)

      pub execute_layer-Stepped :
          (ns : List String) (x : Execution S)
          → Known ns
          → Distinct ns
          → Runs (Stepped ns x) (execute_layer invoke cancelled schedule dag ns x)
      unfolding execute_layer
      execute_layer-Stepped [] x known d = scheduled-Stepped [] x known d
      execute_layer-Stepped (n ∷ []) x known d = execute_step-Stepped x.step_outputs n x known
      execute_layer-Stepped (a ∷ b ∷ ns) x known d = scheduled-Stepped (a ∷ b ∷ ns) x known d
