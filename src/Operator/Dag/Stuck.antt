-- ===== src/Operator/Dag/Stuck.antt =====
-- With a cancelled context the loop over the waves does not end.
use agentspec.Base.{
  ℕ, zero, suc, ◌+◌, String, List, [], ◌∷◌, none, some, Bool, false, not, ◌≡◌, refl, In, keep,
  In-keep, ap, ◌∙◌,
}
use agentspec.Base.Maps.{Map, lookup, has}
use agentspec.Base.Count.{Distinct}
use agentspec.State.{ok}
use agentspec.Operator.Dag.{
  DagStep, Progress, all_met, deps_of, met, run_step, run_wave, waves, run, step_map, topo_sort,
  no_progress,
}
use agentspec.Operator.Dag.Order.{names, topo_sort-Follows}

-- Before anything is completed, a task with a dependency is not ready.
unmet :
    (steps : Map DagStep) (k d : String) (ds : List String)
    → deps_of (lookup k steps) ≡ d ∷ ds
    → met steps [] k ≡ false
unfolding met all_met has lookup
unmet steps k d ds e = ap (all_met []) e

module _ (alive : ℕ → String → Bool) where
  dead_wave :
      (wave : ℕ) (ns : List String) (p : Progress)
      → ((n : ℕ) (name : String) → alive n name ≡ false)
      → run_wave (alive wave) ns p ≡ p
  unfolding run_wave run_step
  dead_wave wave [] p down = refl
  dead_wave wave (n ∷ ns) p down =
      ap (λ b. run_wave (alive wave) ns (run_step b n p)) (down wave n) ∙ dead_wave wave ns p down

  -- A task that is not ready is never run.
  waves-stuck :
      (steps : Map DagStep) (k : String) (p : Progress)
      → ((n : ℕ) (name : String) → alive n name ≡ false)
      → met steps p.completed k ≡ false
      → (fuel wave : ℕ) (ns : List String) → In k ns
      → waves fuel alive wave steps ns p ≡ none
  unfolding waves
  waves-stuck steps k p down unmet fuel wave [] i = elim i [ ]
  waves-stuck steps k p down unmet zero wave (n ∷ ns) i = refl
  waves-stuck steps k p down unmet (suc fuel) wave (n ∷ ns) i =
      let next = keep (λ name. not (met steps p.completed name)) (n ∷ ns) in
      ap (waves fuel alive (wave + 1) steps next)
        (dead_wave wave (keep (met steps p.completed) (n ∷ ns)) p down)
      ∙ waves-stuck steps k p down unmet fuel (wave + 1) next
          (In-keep (λ name. not (met steps p.completed name)) k (n ∷ ns) i (ap not unmet))

  -- If every context is found cancelled, a run of tasks with different names of which some task has a
  -- dependency never ends: no number of waves is enough for it.
  pub run-stuck :
      (down : (n : ℕ) (name : String) → alive n name ≡ false) (steps : List DagStep)
      (different : Distinct (names steps)) (order : List String) (k d : String) (ds : List String)
      → topo_sort steps ≡ some (ok order)
      → In k (names steps)
      → deps_of (lookup k (step_map steps [])) ≡ d ∷ ds
      → (fuel : ℕ) → run fuel alive steps ≡ none
  unfolding run
  run-stuck down steps different order k d ds e i first fuel =
      let (_, _, every, _) = topo_sort-Follows steps different order e in
      let stuck =
        waves-stuck (step_map steps []) k no_progress down (unmet (step_map steps []) k d ds first)
          fuel 0 order (every k i) in
      rw (e, stuck) refl
