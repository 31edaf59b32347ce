-- ===== src/Apply/Converge.antt =====
-- After a successful apply the next plan has nothing to do.
use agentspec.Base.{
  ℕ, String, List, [], ◌∷◌, Option, none, some, ◌≡◌, ◌↔◌, refl, sym, ◌∙◌, ap, subst, In, In-keep,
  map, true, false, length, Bool-cases, ◌⊎◌, inl, inr,
}
use agentspec.Base.Maps.{Map, lookup, has, values}
use agentspec.Ir.{Resource}
use agentspec.State.{Entry, Backend, Result, ok}
use agentspec.Adapters.{Action}
use agentspec.Adapters.Local.{local_adapter, apply-map, succeeded}
use agentspec.Plan.{compute_plan, index_entries, index_resources, plan_resource}
use agentspec.Plan.Closed.{has_changes_of_unchanged}
use agentspec.Plan.Order.{planned-In, delete-In}
use agentspec.Plan.Sync.{InSync, has_changes-InSync}
use agentspec.Apply.{
  Progress, not_noop, lock, unlock, Outcome, Event, save_results, progress, finish, apply,
  apply_locked, apply_changes, with_results, after_lock, apply_started,
}
use agentspec.Apply.Record.{run}
use agentspec.Apply.Final.{HashesAgree, to_apply, values-InSync, changed-not_noop}

-- A plan with nothing to apply reports no change.
to_apply-nil :
    (desired : List Resource) (current : List Entry)
    → to_apply desired current ≡ []
    → InSync desired current
to_apply-nil desired current e =
    (has_changes-InSync desired current).0 (has_changes_of_unchanged desired current (quiet, kept))
  where
    empty : (a : Action) → In a (to_apply desired current) → ⊥
    empty a i = subst (In a) e i

    quiet :
        (r : Resource)
        → In r desired
        → (plan_resource (lookup r.fqn (index_entries current)) r).1 ≡ false
    quiet r i = elim (Bool-cases (plan_resource (lookup r.fqn (index_entries current)) r).1) [
      | inr f ↦ f
      | inl t ↦
          absurd (
            empty _
              (In-keep not_noop _ _ (planned-In desired current r i) (changed-not_noop _ r t)))
    ]

    kept : (x : Entry) → In x current → has x.fqn (index_resources desired) ≡ true
    kept x i = elim (Bool-cases (has x.fqn (index_resources desired))) [
      | inl t ↦ t
      | inr f ↦ absurd (empty _ (In-keep not_noop _ _ (delete-In desired current x i f) refl))
    ]

-- What a backend has to do for the apply engine: a save that reports no error is what the next load
-- returns, in some order, and neither a load nor the lock changes what is stored.
pub record Stores {S : Type 0} (backend : Backend S) : Type 0 where
  pub load_keeps :
      (s : S) (es : List Entry)
      → (backend.load s).0 ≡ ok es
      → (backend.load (backend.load s).1).0 ≡ ok es
  pub save_stores :
      (es : List Entry) (s : S)
      → (backend.save es s).0 ≡ none
      → (stored : List Entry) × ((backend.load (backend.save es s).1).0 ≡ ok stored)
        × ((e : Entry) → In e stored ↔ In e es)
  pub lock_keeps :
      (s : S) (es : List Entry)
      → (backend.load s).0 ≡ ok es
      → (backend.load (lock backend s).1).0 ≡ ok es
  pub unlock_keeps :
      (s : S) (es : List Entry)
      → (backend.load s).0 ≡ ok es
      → (backend.load (unlock backend s)).0 ≡ ok es

module _ {S : Type 0} (backend : Backend S) (stores : Stores backend) (clock : ℕ → ℕ)
    (range : Map Entry → List Entry)
    (ranges : (m : Map Entry) (e : Entry) → In e (range m) ↔ In e (values m))
    (desired : List Resource) (current : List Entry) (agree : HashesAgree desired) where
  abbrev Settled : Outcome S → Type 0
  Settled o = (es : List Entry) × ((backend.load o.backend).0 ≡ ok es) × InSync desired es

  finish-error :
      (ev : List Event) (p : Progress) (e : Option String) (s : S)
      → (finish backend local_adapter clock range ev p e s).error ≡ e
  unfolding finish
  finish-error ev p none s = refl
  finish-error ev p (some e) s = refl

  finish-backend :
      (ev : List Event) (p : Progress) (e : Option String) (s : S)
      → (finish backend local_adapter clock range ev p e s).backend ≡ unlock backend s
  unfolding finish
  finish-backend ev p none s = refl
  finish-backend ev p (some e) s = refl

  abbrev saved : List Event → S → Outcome S
  saved events s =
      let todo = to_apply desired current in
      save_results backend local_adapter clock range todo (map succeeded todo) events s

  abbrev todo_progress : Result (List Entry) → Progress
  todo_progress =
      progress backend local_adapter clock range (to_apply desired current)
        (map succeeded (to_apply desired current))

  progress-InSync :
      (stored : List Entry)
      → ((e : Entry) → In e stored ↔ In e (range (todo_progress (ok current)).state_map))
      → InSync desired stored
  unfolding progress run
  progress-InSync stored same =
      values-InSync "local-mcp" clock desired current agree _ stored
        (λ e. (λ i. (ranges _ e).0 ((same e).0 i), λ i. (same e).1 ((ranges _ e).1 i)))

  save-Settled :
      (events : List Event) (s : S)
      → (backend.load s).0 ≡ ok current
      → (saved events s).error ≡ none
      → Settled (saved events s)
  unfolding save_results
  save-Settled events s held fine =
      let s₁ = (backend.load s).1 in
      let p = todo_progress (backend.load s).0 in
      let (stored, kept, same) =
        stores.save_stores (range p.state_map) s₁ (sym (finish-error _ p _ _) ∙ fine) in
      (
        stored,
        ap (λ z. (backend.load z).0) (finish-backend _ p _ _) ∙ stores.unlock_keeps _ stored kept,
        progress-InSync stored (
            subst (λ l. (e : Entry) → In e stored ↔ In e (range (todo_progress l).state_map)) held
              same),
      )

  changes_cases :
      (events : List Event) (todo : List Action) (s : S)
      → (todo ≡ [])
        ⊎ (apply_changes backend local_adapter clock range events todo s
            ≡ save_results backend local_adapter clock range todo (map succeeded todo) events s)
  unfolding apply_changes with_results
  changes_cases events [] s = inl refl
  changes_cases events (a ∷ rest) s = inr (
      ap (λ r. with_results backend local_adapter clock range events (a ∷ rest) r s)
        (apply-map (a ∷ rest)))

  changes-Settled :
      (events : List Event) (s : S)
      → (backend.load s).0 ≡ ok current
      → (apply_changes backend local_adapter clock range events (to_apply desired current) s).error
        ≡ none
      → Settled
          (apply_changes backend local_adapter clock range events (to_apply desired current) s)
  unfolding apply_changes
  changes-Settled events s held fine = elim (changes_cases events (to_apply desired current) s) [
    | inl e ↦ (current, rw e (stores.unlock_keeps s current held), to_apply-nil desired current e)
    | inr e ↦
        subst Settled (sym e)
          (save-Settled events s held (ap (λ (o : Outcome S). o.error) (sym e) ∙ fine))
  ]

  after_lock-Settled :
      (l : Option String × S)
      → (backend.load l.1).0 ≡ ok current
      → (after_lock backend local_adapter clock range
          (compute_plan desired current).actions
          l).error
        ≡ none
      → Settled
          (after_lock backend local_adapter clock range (compute_plan desired current).actions l)
  unfolding after_lock apply_locked
  after_lock-Settled (some e, s) held fine = cc
  after_lock-Settled (none, s) held fine =
      changes-Settled
        (apply_started "local-mcp" (length (compute_plan desired current).actions) ∷ []) s held fine

  -- The plan for the desired resources, of which any two with one FQN have one hash, is applied by the
  -- local-mcp adapter, over a backend that keeps the contract `Stores` and holds the entries the plan
  -- was made for. If `Apply` reports no error, the backend then holds entries for which the next plan
  -- reports no change.
  pub apply_converges :
      (s : S)
      → (backend.load s).0 ≡ ok current
      → (apply backend local_adapter clock range (compute_plan desired current).actions s).error
        ≡ none
      → (es : List Entry) × ((backend.load
            (apply backend local_adapter clock range
              (compute_plan desired current).actions
              s).backend).0
          ≡ ok es)
        × ((compute_plan desired es).has_changes ≡ false)
  unfolding apply
  apply_converges s held fine =
      let (es, h, sync) =
        after_lock-Settled (lock backend s) (stores.lock_keeps s current held) fine in
      (es, h, (has_changes-InSync desired es).1 sync)
