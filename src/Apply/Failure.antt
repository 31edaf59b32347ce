-- ===== src/Apply/Failure.antt =====
-- The loop over any adapter's results, partial failures included.
use agentspec.Plan.{index_entries}
use agentspec.Plan.Sync.{last_entry, lookup-index_entries}
use agentspec.Base.{
  In, inl, inr, ◌≢◌, eq_iff, ap, ℕ, suc, ◌+◌, String, List, [], ◌∷◌, Option, none, some, ◌≡◌, refl,
  ◌∙◌, arith, get_elem?, ◌==◌, if◌then◌else◌, or_else,
}
use agentspec.State.{Result, Backend, err, Entry}
use agentspec.Adapters.{Adapter, Action, ActionResult, delete, noop, success, failure}
use agentspec.Apply.{
  progress, loaded, Progress, Summary, record_result, record_results, action_hash, applied_entry,
  failed_entry, empty_summary,
}
use agentspec.Base.Maps.{lookup, lookup-insert, lookup-erase, Map}

abbrev total : Summary → ℕ
total s = s.created + s.updated + s.deleted + s.failures

-- The results that the summary counts: all but the successful noops.
abbrev pub counted : List ActionResult → ℕ
counted [] = 0
counted (r ∷ rs) = elim r.status [
  | failure ↦ suc (counted rs)
  | success ↦ elim r.action [ noop ↦ counted rs | _ ↦ suc (counted rs) ]
]

-- What one result leaves under its FQN, `none` for nothing.
unfoldable pub left_by : String → ℕ → Option Action → ActionResult → Option Entry
left_by adapter now action r = elim r.status [
  | failure ↦ some (failed_entry adapter now r.fqn r.error)
  | success ↦ elim r.action [
    | delete ↦ none
    | _ ↦ some (applied_entry adapter now r.fqn (action_hash action))
  ]
]

-- What the last result for `k` leaves, if there is a result for `k`.
unfoldable pub left_by_last :
    String → (ℕ → ℕ) → List Action → ℕ → String → List ActionResult → Option (Option Entry)
left_by_last adapter clock to_apply i k [] = none
left_by_last adapter clock to_apply i k (r ∷ rs) =
    or_else (left_by_last adapter clock to_apply (suc i) k rs)
      (if r.fqn == k then some (left_by adapter (clock i) (get_elem? to_apply i) r) else none)

abbrev pub overridden : Option (Option Entry) → Option Entry → Option Entry
overridden none before = before
overridden (some o) before = o

module _ (adapter : String) (clock : ℕ → ℕ) (to_apply : List Action) where
  lookup-record_result :
      (k : String) (now : ℕ) (action : Option Action) (r : ActionResult) (p : Progress)
      → lookup k (record_result adapter now action r p).state_map
        ≡ (if r.fqn == k then left_by adapter now action r else lookup k p.state_map)
  unfolding record_result left_by
  lookup-record_result k now action r p = ground (
    arith,
    lookup-insert r.fqn k (applied_entry adapter now r.fqn (action_hash action)) p.state_map,
    lookup-insert r.fqn k (failed_entry adapter now r.fqn r.error) p.state_map,
    lookup-erase r.fqn k p.state_map,
  )

  -- After the loop an FQN has what the last result for it left, and what it had if there is no
  -- result for it.
  pub lookup-record_results :
      (k : String) (i : ℕ) (results : List ActionResult) (p : Progress)
      → lookup k (record_results adapter clock to_apply i results p).state_map
        ≡ overridden (left_by_last adapter clock to_apply i k results) (lookup k p.state_map)
  unfolding record_results left_by_last
  lookup-record_results k i [] p = refl
  lookup-record_results k i (r ∷ rs) p =
      lookup-record_results k (suc i) rs _
      ∙ ground (arith, lookup-record_result k (clock i) (get_elem? to_apply i) r p)

  total-record_results :
      (i : ℕ) (results : List ActionResult) (p : Progress)
      → total (record_results adapter clock to_apply i results p).summary
        ≡ total p.summary + counted results
  unfolding record_results record_result
  total-record_results i [] p = omega arith
  total-record_results i (r ∷ rs) p = ground (
    arith,
    total-record_results (suc i) rs (record_result adapter (clock i) (get_elem? to_apply i) r p),
  )

-- The module's parameters are those of `progress`.
module _ {S : Type 0} (backend : Backend S) (adapter : Adapter) (clock : ℕ → ℕ)
    (range : Map Entry → List Entry) (to_apply : List Action) (results : List ActionResult)
    (existing : Result (List Entry)) where
  abbrev start : Progress
  start = record {
    state_map = index_entries (loaded existing);
    summary = record empty_summary { results = results };
  }

  abbrev at_end : Progress
  at_end = progress backend adapter clock range to_apply results existing

  -- The state map that `Apply` saves, whatever the adapter reports: an FQN has what the last result
  -- for it left (nothing after a deletion, a failed entry after a failure), and an FQN with no result
  -- has the last entry that was loaded. The counts of the summary add up to the results that are
  -- not successful noops.
  pub progress_lem :
      ((k : String)
        → lookup k at_end.state_map
          ≡ overridden
              (left_by_last adapter.name clock to_apply 0 k results)
              (last_entry k (loaded existing)))
      × (at_end.summary.created + at_end.summary.updated + at_end.summary.deleted
            + at_end.summary.failures
          ≡ counted results)
  unfolding progress
  progress_lem = (
    λ k.
        lookup-record_results adapter.name clock to_apply k 0 results _
        ∙ ap (overridden (left_by_last adapter.name clock to_apply 0 k results))
            (lookup-index_entries k (loaded existing)),
    omega (arith, total-record_results adapter.name clock to_apply 0 results start),
  )

left_by_last-none :
    (adapter : String) (clock : ℕ → ℕ) (to_apply : List Action) (i : ℕ) (k : String)
    (results : List ActionResult)
    → ((r : ActionResult) → In r results → r.fqn ≢ k)
    → left_by_last adapter clock to_apply i k results ≡ none
unfolding left_by_last
left_by_last-none adapter clock to_apply i k [] h = refl
left_by_last-none adapter clock to_apply i k (r ∷ rs) h =
    let rest = left_by_last-none adapter clock to_apply (suc i) k rs (λ x j. h x (inr j)) in
    rw rest (ground (arith, h r (inl refl), eq_iff r.fqn k))

-- When `Load` fails, the map that `Apply` saves has no entry but those of this run's results: what
-- the state held of other resources is dropped.
pub progress_forgets :
    {S : Type 0} (backend : Backend S) (adapter : Adapter) (clock : ℕ → ℕ)
    (range : Map Entry → List Entry) (to_apply : List Action) (results : List ActionResult)
    (e k : String)
    → ((r : ActionResult) → In r results → r.fqn ≢ k)
    → lookup k (progress backend adapter clock range to_apply results (err e)).state_map ≡ none
unfolding last_entry
progress_forgets backend adapter clock range to_apply results e k absent =
    (progress_lem backend adapter clock range to_apply results (err e)).0 k
    ∙ ap (λ o. overridden o none) (left_by_last-none adapter.name clock to_apply 0 k results absent)
