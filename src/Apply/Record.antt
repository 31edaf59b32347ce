-- ===== src/Apply/Record.antt =====
-- The loop over the adapter's results, for the local-mcp adapter: what it leaves in the state map.
use agentspec.Base.{
  ℕ, suc, String, List, [], ◌∷◌, Option, none, some, ◌≡◌, refl, sym, ◌∙◌, ap, subst, eq_iff, In,
  map, get_elem?, Bool-cases, inl, inr, ◌==◌, if◌then◌else◌,
}
use agentspec.Base.Maps.{lookup, lookup-insert, lookup-erase, Unique, insert-Unique, erase-Unique}
use agentspec.State.{Entry}
use agentspec.Adapters.{Action, ActionType, create, update, delete, noop}
use agentspec.Adapters.Local.{succeeded}
use agentspec.Apply.{
  Progress, record_result, record_results, record_success, action_hash, applied_entry,
  resource_hash,
}

-- What a successful action leaves under its FQN.
unfoldable pub after : String → ℕ → Action → Option Entry
unfolding resource_hash
after adapter now a = elim a.type [
  | delete ↦ none
  | _ ↦ some (applied_entry adapter now a.fqn (resource_hash a.resource))
]

-- `rest` stands in `all` from index `i` on.
abbrev pub Aligned : List Action → ℕ → List Action → Type 0
Aligned all i [] = Unit
Aligned all i (a ∷ rest) = (get_elem? all i ≡ some a) × Aligned all (suc i) rest

Aligned-cons :
    (x : Action) (all : List Action) (i : ℕ) (rest : List Action)
    → Aligned all i rest
    → Aligned (x ∷ all) (suc i) rest
Aligned-cons x all i [] h = tt
Aligned-cons x all i (a ∷ rest) h = (h.0, Aligned-cons x all (suc i) rest h.1)

pub Aligned-all : (all : List Action) → Aligned all 0 all
Aligned-all [] = tt
Aligned-all (a ∷ all) = (refl, Aligned-cons a all 0 all (Aligned-all all))

module _ (adapter : String) (clock : ℕ → ℕ) where
  lookup-record_result :
      (k : String) (now : ℕ) (a : Action) (p : Progress)
      → lookup k (record_result adapter now (some a) (succeeded a) p).state_map
        ≡ (if a.fqn == k then after adapter now a else lookup k p.state_map)
  unfolding record_result after resource_hash action_hash
  lookup-record_result k now a p = lookup-by a.type refl
    where
      lookup-by :
          (t : ActionType)
          → a.type ≡ t
          → lookup k (record_result adapter now (some a) (succeeded a) p).state_map
            ≡ (if a.fqn == k then after adapter now a else lookup k p.state_map)
      lookup-by create e = rw (e, record_success) (lookup-insert a.fqn k _ p.state_map)
      lookup-by update e = rw (e, record_success) (lookup-insert a.fqn k _ p.state_map)
      lookup-by delete e = rw (e, record_success) (lookup-erase a.fqn k p.state_map)
      lookup-by noop e = rw (e, record_success) (lookup-insert a.fqn k _ p.state_map)

  Unique-record_result :
      (now : ℕ) (a : Action) (p : Progress)
      → Unique p.state_map
      → Unique (record_result adapter now (some a) (succeeded a) p).state_map
  unfolding record_result
  Unique-record_result now a p u = unique_by a.type refl
    where
      unique_by :
          (t : ActionType)
          → a.type ≡ t
          → Unique (record_result adapter now (some a) (succeeded a) p).state_map
      unique_by create e = rw (e, record_success) (insert-Unique a.fqn _ p.state_map u)
      unique_by update e = rw (e, record_success) (insert-Unique a.fqn _ p.state_map u)
      unique_by delete e = rw (e, record_success) (erase-Unique a.fqn p.state_map u)
      unique_by noop e = rw (e, record_success) (insert-Unique a.fqn _ p.state_map u)

  -- The progress after the actions `rest`, the first of which is `to_apply[i]`.
  unfoldable pub run : List Action → ℕ → List Action → Progress → Progress
  run to_apply i rest = record_results adapter clock to_apply i (map succeeded rest)

  run-nil : (to_apply : List Action) (i : ℕ) (p : Progress) → run to_apply i [] p ≡ p
  unfolding run record_results
  run-nil to_apply i p = refl

  step : ℕ → Action → Progress → Progress
  step now a p = record_result adapter now (some a) (succeeded a) p

  run-cons :
      (to_apply : List Action) (i : ℕ) (a : Action) (rest : List Action) (p : Progress)
      → get_elem? to_apply i ≡ some a
      → run to_apply i (a ∷ rest) p ≡ run to_apply (suc i) rest (step (clock i) a p)
  unfolding run record_results step
  run-cons to_apply i a rest p e =
      ap
        (λ o.
          record_results adapter clock to_apply (suc i) (map succeeded rest)
            (record_result adapter (clock i) o (succeeded a) p))
        e

  pub Unique-run :
      (to_apply : List Action) (i : ℕ) (rest : List Action) (p : Progress)
      → Aligned to_apply i rest
      → Unique p.state_map
      → Unique (run to_apply i rest p).state_map
  unfolding step
  Unique-run to_apply i [] p al u = rw (run-nil to_apply i p) u
  Unique-run to_apply i (a ∷ rest) p al u =
      subst (λ q. Unique q.state_map) (sym (run-cons to_apply i a rest p al.0))
        (Unique-run to_apply (suc i) rest _ al.1 (Unique-record_result (clock i) a p u))

  module _ (P : Option Entry → Type 0) (k : String) where
    abbrev pub Holds : Progress → Type 0
    Holds p = P (lookup k p.state_map)

    abbrev pub Leaves : List Action → Type 0
    Leaves rest = (a : Action) → In a rest → a.fqn ≡ k → (now : ℕ) → P (after adapter now a)

    step-here :
        (now : ℕ) (a : Action) (p : Progress)
        → a.fqn ≡ k
        → P (after adapter now a)
        → Holds (step now a p)
    unfolding step
    step-here now a p e h = rw (lookup-record_result k now a p, (eq_iff a.fqn k).1 e) h

    step-keeps :
        (now : ℕ) (a : Action) (p : Progress)
        → (a.fqn ≡ k → P (after adapter now a))
        → Holds p
        → Holds (step now a p)
    unfolding step
    step-keeps now a p each h = elim (Bool-cases (a.fqn == k)) [
      | inl t ↦ step-here now a p ((eq_iff a.fqn k).0 t) (each ((eq_iff a.fqn k).0 t))
      | inr f ↦ rw (lookup-record_result k now a p, f) h
    ]

    pub run-keeps :
        (to_apply : List Action) (i : ℕ) (rest : List Action) (p : Progress)
        → Aligned to_apply i rest
        → Leaves rest
        → Holds p
        → Holds (run to_apply i rest p)
    run-keeps to_apply i [] p al each h = rw (run-nil to_apply i p) h
    run-keeps to_apply i (a ∷ rest) p al each h =
        subst Holds (sym (run-cons to_apply i a rest p al.0)) (
          run-keeps to_apply (suc i) rest (step (clock i) a p) al.1 (λ b j. each b (inr j))
            (step-keeps (clock i) a p (λ e. each a (inl refl) e (clock i)) h))

    pub run-reaches :
        (to_apply : List Action) (i : ℕ) (rest : List Action) (p : Progress) (a : Action)
        → Aligned to_apply i rest
        → Leaves rest
        → In a rest
        → a.fqn ≡ k
        → Holds (run to_apply i rest p)
    run-reaches to_apply i [] p a al each m e = elim m [ ]
    run-reaches to_apply i (b ∷ rest) p a al each (inl here) e =
        let e' = ap (λ (x : Action). x.fqn) here ∙ e in
        subst Holds (sym (run-cons to_apply i b rest p al.0)) (
          run-keeps to_apply (suc i) rest (step (clock i) b p) al.1 (λ c j. each c (inr j))
            (step-here (clock i) b p e' (each b (inl refl) e' (clock i))))
    run-reaches to_apply i (b ∷ rest) p a al each (inr there) e =
        subst Holds (sym (run-cons to_apply i b rest p al.0)) (
          run-reaches to_apply (suc i) rest (step (clock i) b p) a al.1 (λ c j. each c (inr j))
            there e)
