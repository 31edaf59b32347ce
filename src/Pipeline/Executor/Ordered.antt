-- ===== src/Pipeline/Executor/Ordered.antt =====
-- The execution of a built graph: what has run, in which order, and with which status.
use agentspec.Base.{
  String, List, [], ◌∷◌, ◌++◌, Option, some, Bool, ◌==◌, if◌then◌else◌, ◌≡◌, refl, ap, sym, ◌∙◌,
  subst, ◌⊎◌, inl, inr, In, arith, Bool-cases, ltb, ltb→lt, In-append_left, In-append_right,
  In-append_cases, map-In, true,
}
use mathlib.Core.List.{append_assoc, append-nil}
use agentspec.Base.Count.{count, count-append, Distinct, In-count, count-In}
use agentspec.Base.Maps.{lookup}
use agentspec.State.{Result, ok}
use agentspec.Loop.{Response}
use agentspec.Pipeline.Dag.{Step, Dag, build_dag}
use agentspec.Pipeline.Dag.Edges.{Edge, edges}
use agentspec.Pipeline.Dag.Loop.{flat}
use agentspec.Pipeline.Dag.Left.{Left, Layered-Left, Left-mono}
use agentspec.Pipeline.Dag.Sound.{build_dag-IsOrder, build_dag-lookup}
use agentspec.Pipeline.Dag.Linking.{names_of, step_name}
use agentspec.Pipeline.Executor.{StepResult, Execution, execute_layers, execute}
use agentspec.Pipeline.Executor.Steps.{Has, Stepped, Known, execute_layer-Stepped}

apart :
    (k : String) (ran l rest : List String)
    → Distinct (ran ++ (l ++ rest))
    → In k ran
    → count k l ≡ 0
apart k ran l rest d i =
    omega (arith, d k, count-append k ran (l ++ rest), count-append k l rest, In-count k ran i)

-- The status says whether all steps have completed, or one has failed, or the context is cancelled.
abbrev pub Outcome : {S : Type 0} → (S → Bool) → List String → Execution S → Type 0
Outcome cancelled names x =
    ((x.status ≡ "completed") × ((k : String) → In k names → Has "completed" x k))
    ⊎ ((k : String) × (x.status ≡ "failed") × Has "failed" x k)
    ⊎ ((x.status ≡ "cancelled") × (cancelled x.world ≡ true))

module _ {S : Type 0} (es : List Edge) where
  -- A step has a result only if each of its dependencies has completed.
  abbrev pub Ordered : Execution S → Type 0
  Ordered x =
      (k d : String) (r : StepResult)
      → lookup k x.steps ≡ some r
      → In (d, k) es
      → Has "completed" x d

  -- Between the layers: what has run has completed.
  record Ran (ran : List String) (x : Execution S) : Type 0 where
    fine : x.status ≡ "completed"
    completed : (k : String) → In k ran → Has "completed" x k
    only : (k : String) (r : StepResult) → lookup k x.steps ≡ some r → In k ran
    closed : (d k : String) → In k ran → In (d, k) es → In d ran

  Ran-Ordered : (ran : List String) (x : Execution S) → Ran ran x → Ordered x
  Ran-Ordered ran x p k d r h e = p.completed d (p.closed d k (p.only k r h) e)

  -- The steps after a layer are those before it and the layer's.
  after-only :
      (ran l : List String) (x y : Execution S)
      → Ran ran x
      → Stepped l x y
      → (k : String) (r : StepResult) → lookup k y.steps ≡ some r
      → In k (ran ++ l)
  after-only ran l x y p q k r h = elim (Bool-cases (ltb 0 (count k l))) [
    | inl t ↦ In-append_right k ran l (count-In k l (ltb→lt _ _ t))
    | inr f ↦ In-append_left k ran l (p.only k r (sym (q.kept k (ground (arith, f))) ∙ h))
  ]

  Has-after :
      (ran l rest : List String) (x y : Execution S)
      → Distinct (ran ++ (l ++ rest))
      → Ran ran x
      → Stepped l x y
      → (k : String) → In k ran
      → Has "completed" y k
  Has-after ran l rest x y d p q k i =
      let (r, here, s) = p.completed k i in (r, q.kept k (apart k ran l rest d i) ∙ here, s)

  layer-Ordered :
      (ran l rest : List String) (x y : Execution S)
      → Distinct (ran ++ (l ++ rest))
      → ((d k : String) → In k l → In (d, k) es → In d ran)
      → Ran ran x
      → Stepped l x y
      → Ordered y
  layer-Ordered ran l rest x y dist before p q k d r h e =
      Has-after ran l rest x y dist p q d
        (elim (In-append_cases k ran l (after-only ran l x y p q k r h)) [
          | inl i ↦ p.closed d k i e
          | inr j ↦ before d k j e
        ])

  layer-Ran :
      (ran l rest : List String) (x y : Execution S)
      → Distinct (ran ++ (l ++ rest))
      → ((d k : String) → In k l → In (d, k) es → In d ran)
      → Ran ran x
      → Stepped l x y
      → y.status ≡ x.status
      → ((k : String) → In k l → Has "completed" y k)
      → Ran (ran ++ l) y
  layer-Ran ran l rest x y dist before p q same done = record {
    fine = same ∙ p.fine;
    completed = λ k i. elim (In-append_cases k ran l i) [
      | inl a ↦ Has-after ran l rest x y dist p q k a
      | inr b ↦ done k b
    ];
    only = after-only ran l x y p q;
    closed = λ d k i e.
        In-append_left d ran l
          (elim (In-append_cases k ran l i) [ inl a ↦ p.closed d k a e | inr b ↦ before d k b e ]);
  }

  module _ (invoke : S → String → String → Result Response × S) (cancelled : S → Bool)
      (schedule : List String → List String) (dag : Dag)
      (permutes : (ns : List String) (k : String) → count k (schedule ns) ≡ count k ns) where
    abbrev Ends : List String → Option (Execution S) → Type 0
    Ends names o = (y : Execution S) × (o ≡ some y) × Ordered y × Outcome cancelled names y

    -- The loop goes on after a layer unless a step of it has failed.
    after_layer-Ends :
        (ran l : List String) (ls : List (List String)) (x y : Execution S)
        → Distinct (ran ++ (l ++ flat ls))
        → ((d k : String) → In k l → In (d, k) es → In d ran)
        → Ran ran x
        → Stepped l x y
        → (Ran (ran ++ l) y
            → Ends (ran ++ (l ++ flat ls)) (execute_layers invoke cancelled schedule dag ls y))
        → Ends (ran ++ (l ++ flat ls)) (
            if y.status == "failed"
            then some y
            else execute_layers invoke cancelled schedule dag ls y)
    after_layer-Ends ran l ls x y dist before p q ih = elim q.outcome [
      | inl (same, done) ↦
          subst
            (λ s.
              Ends (ran ++ (l ++ flat ls)) (
                if s == "failed"
                then some y
                else execute_layers invoke cancelled schedule dag ls y))
            (sym (same ∙ p.fine)) (ih (layer-Ran ran l (flat ls) x y dist before p q same done))
      | inr (k, bad, i, h) ↦
          subst
            (λ s.
              Ends (ran ++ (l ++ flat ls)) (
                if s == "failed"
                then some y
                else execute_layers invoke cancelled schedule dag ls y))
            (sym bad)
            (y, refl, layer-Ordered ran l (flat ls) x y dist before p q, inr (inl (k, bad, h)))
    ]

    execute_layers-Ends :
        (ran : List String) (ls : List (List String)) (x : Execution S)
        → Distinct (ran ++ flat ls)
        → Known invoke cancelled schedule dag (flat ls)
        → Left es (λ d. In d ran) ls
        → Ran ran x
        → Ends (ran ++ flat ls) (execute_layers invoke cancelled schedule dag ls x)
    unfolding execute_layers Left
    execute_layers-Ends ran [] x dist k f p = (
      x,
      refl,
      Ran-Ordered ran x p,
      inl (p.fine, λ j i. p.completed j (subst (In j) (append-nil ran) i)),
    )
    execute_layers-Ends ran (l ∷ ls) x dist k f p = elim (Bool-cases (cancelled x.world)) [
      | inl stop ↦ rw stop (_, refl, Ran-Ordered ran x p, inr (inr (refl, stop)))
      | inr go ↦
          let (y, e, q) =
            execute_layer-Stepped invoke cancelled schedule dag permutes l x
              (λ j i. k j (In-append_left j l (flat ls) i))
              (λ j.
                omega
                  (arith, dist j, count-append j ran (l ++ flat ls), count-append j l (flat ls))) in
          rw (go, e)
            (after_layer-Ends ran l ls x y dist f.0 p q (λ r.
              subst (λ ns. Ends ns (execute_layers invoke cancelled schedule dag ls y))
                (append_assoc ran l (flat ls))
                (execute_layers-Ends (ran ++ l) ls y
                  (subst Distinct (sym (append_assoc ran l (flat ls))) dist)
                  (λ j i. k j (In-append_right j l (flat ls) i))
                  (Left-mono es _ _ ls
                    (λ j b. elim b [
                      | inl i ↦ In-append_right j ran l i
                      | inr i ↦ In-append_left j ran l i
                    ])
                    f.1)
                  r)))
    ]

module _ {S : Type 0} (invoke : S → String → String → Result Response × S) (cancelled : S → Bool)
    (schedule : List String → List String) (steps : List Step) (dag : Dag)
    (permutes : (ns : List String) (k : String) → count k (schedule ns) ≡ count k ns)
    (built : build_dag steps ≡ ok dag) where
  order-Known : Known invoke cancelled schedule dag (flat dag.order)
  order-Known k i =
      let order = build_dag-IsOrder steps dag built in
      let (s, j, e) = map-In step_name k steps (order.known k i) in
      (s, ap (λ n. lookup n dag.steps) (sym e) ∙ build_dag-lookup steps dag built s j)

  -- The execution of a graph that `BuildDAG` returned, in whatever order the steps of a layer are done,
  -- ends without a panic. A step has a result only if all its dependencies have completed. At the end
  -- either the status is "completed" and every step has completed, or it is "failed" and some step has
  -- failed, or it is "cancelled" and the invoker's state has the context cancelled.
  pub execute-Ordered :
      (trigger : String) (s : S)
      → (x : Execution S) × (execute invoke cancelled schedule dag trigger s ≡ some x)
        × Ordered (edges steps) x
        × Outcome cancelled (names_of steps) x
  unfolding execute Left lookup
  execute-Ordered trigger s =
      let order = build_dag-IsOrder steps dag built in
      let (x, e, ordered, outcome) =
        execute_layers-Ends (edges steps) invoke cancelled schedule dag permutes [] dag.order _
          order.distinct order-Known
          (Left-mono (edges steps) _ _ dag.order (λ k b. elim b [ ])
            (Layered-Left (edges steps) dag.order order.layered))
          (record {
            fine = refl;
            completed = λ k i. elim i [ ];
            only = λ k r h. cc h;
            closed = λ d k i e. elim i [ ];
          }) in
      (
        x,
        e,
        ordered,
        elim outcome [
          | inl (fine, all) ↦ inl (fine, λ k i. all k (order.complete k i))
          | inr other ↦ inr other
        ],
      )
