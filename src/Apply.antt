-- ===== src/Apply.antt =====
-- internal/apply/apply.go: the apply engine. The backend, the adapter and the clock are parameters,
-- and so is the order in which Go ranges over the state map. The lock is released on every path
-- after it is taken, which `defer` does in the code.
mod Record
pub mod Final
pub mod Converge
pub mod Failure
use agentspec.Base.{
  ℕ, zero, suc, ◌+◌, String, str_append, List, [], ◌∷◌, ◌++◌, Option, none, some, Bool, true, false,
  not, if◌then◌else◌, get_elem?, length, keep,
}
use agentspec.Base.Maps.{Map, insert, erase}
use agentspec.Ir.{Resource}
use agentspec.State.{Entry, applied, failed, Result, ok, err, Backend, Locker}
use agentspec.Adapters.{
  Action, ActionType, create, update, delete, noop, is_noop, ActionResult, ResultStatus, success,
  failure, Adapter,
}
use agentspec.Plan.{index_entries}

pub record Summary : Type 0 where
  pub created : ℕ
  pub updated : ℕ
  pub deleted : ℕ
  pub failures : ℕ
  pub results : List ActionResult

pub data Event : Type 0 where
  apply_started : String → ℕ → Event
  apply_resource : String → ActionType → ResultStatus → Event
  apply_unchanged : Event
  apply_completed : (created updated deleted failures : ℕ) → Event

-- The loop's variables: the state map and the counts of the result.
pub record Progress : Type 0 where
  pub state_map : Map Entry
  pub summary : Summary

abbrev pub applied_entry : String → ℕ → String → String → Entry
applied_entry adapter now fqn hash = record {
  fqn = fqn;
  hash = hash;
  status = applied;
  last_applied = now;
  adapter = adapter;
  error = "";
  orphaned_at = 0;
}

abbrev pub failed_entry : String → ℕ → String → String → Entry
failed_entry adapter now fqn error = record {
  fqn = fqn;
  hash = "";
  status = failed;
  last_applied = now;
  adapter = adapter;
  error = error;
  orphaned_at = 0;
}

-- The hash of the resource of `toApply[i]`, where there is one.
resource_hash : Option Resource → String
resource_hash none = ""
resource_hash (some r) = r.hash

abbrev pub action_hash : Option Action → String
unfolding resource_hash
action_hash none = ""
action_hash (some a) = resource_hash a.resource

store_applied : String → ℕ → Option Action → ActionResult → Progress → Progress
store_applied adapter now action r p = record p {
  state_map = insert r.fqn (applied_entry adapter now r.fqn (action_hash action)) p.state_map;
}

-- The `switch` on the action of a successful result.
record_success : String → ℕ → Option Action → ActionResult → ActionType → Progress → Progress
unfolding store_applied
record_success adapter now action r create p =
    store_applied adapter now action r
      (record p { summary = record p.summary { created = p.summary.created + 1 } })
record_success adapter now action r update p =
    store_applied adapter now action r
      (record p { summary = record p.summary { updated = p.summary.updated + 1 } })
record_success adapter now action r delete p = record {
  state_map = erase r.fqn p.state_map;
  summary = record p.summary { deleted = p.summary.deleted + 1 };
}
record_success adapter now action r noop p = store_applied adapter now action r p

record_failure : String → ℕ → ActionResult → Progress → Progress
record_failure adapter now r p = record {
  state_map = insert r.fqn (failed_entry adapter now r.fqn r.error) p.state_map;
  summary = record p.summary { failures = p.summary.failures + 1 };
}

-- The body of the loop for one result.
pub record_result : String → ℕ → Option Action → ActionResult → Progress → Progress
unfolding record_success record_failure
record_result adapter now action r p = elim r.status [
  | success ↦ record_success adapter now action r r.action p
  | failure ↦ record_failure adapter now r p
]

-- The loop from index `i` on; `clock i` is the time read for the i-th result.
pub record_results : String → (ℕ → ℕ) → List Action → ℕ → List ActionResult → Progress → Progress
record_results adapter clock to_apply i [] p = p
record_results adapter clock to_apply i (r ∷ rs) p =
    record_results adapter clock to_apply (suc i) rs
      (record_result adapter (clock i) (get_elem? to_apply i) r p)

resource_events : List ActionResult → List Event
resource_events [] = []
resource_events (r ∷ rs) = apply_resource r.fqn r.action r.status ∷ resource_events rs

abbrev pub not_noop : Action → Bool
not_noop a = not (is_noop a.type)

-- An error of `Load` leaves `existing` nil.
abbrev pub loaded : Result (List Entry) → List Entry
loaded (ok es) = es
loaded (err e) = []

abbrev pub empty_summary : Summary
empty_summary = record { created = 0; updated = 0; deleted = 0; failures = 0; results = [] }

pub record Outcome (S : Type 0) : Type 0 where
  pub result : Option Summary
  pub error : Option String
  pub backend : S
  pub events : List Event

module _ {S : Type 0} (backend : Backend S) where
  abbrev pub unlock : S → S
  unlock s = elim backend.locker [ none ↦ s | some l ↦ l.unlock s ]

  abbrev pub lock : S → Option String × S
  lock s = elim backend.locker [ none ↦ (none, s) | some l ↦ l.lock s ]

module _ {S : Type 0} (backend : Backend S) (adapter : Adapter) (clock : ℕ → ℕ)
    (range : Map Entry → List Entry) where
  -- The loop, from the entries that `Load` returned.
  pub progress : List Action → List ActionResult → Result (List Entry) → Progress
  progress to_apply results existing =
      record_results adapter.name clock to_apply 0 results (record {
        state_map = index_entries (loaded existing);
        summary = record empty_summary { results = results };
      })

  -- After `Save`: its error is returned beside the result, and then no event follows.
  pub finish : List Event → Progress → Option String → S → Outcome S
  finish events p (some e) s = record {
    result = some p.summary;
    error = some e;
    backend = unlock backend s;
    events = events;
  }
  finish events p none s = record {
    result = some p.summary;
    error = none;
    backend = unlock backend s;
    events =
        events
        ++ apply_completed p.summary.created p.summary.updated p.summary.deleted p.summary.failures
          ∷ [];
  }

  -- From the adapter's results on: the state map is built, changed and saved.
  pub save_results : List Action → List ActionResult → List Event → S → Outcome S
  unfolding resource_events progress finish
  save_results to_apply results events s =
      let (existing, s₁) = backend.load s in
      let p = progress to_apply results existing in
      let (failed_save, s₂) = backend.save (range p.state_map) s₁ in
      finish (events ++ resource_events results) p failed_save s₂

  -- After the adapter's `Apply`.
  pub with_results : List Event → List Action → Result (List ActionResult) → S → Outcome S
  with_results events to_apply (err e) s = record {
    result = none;
    error = some e;
    backend = unlock backend s;
    events = events;
  }
  with_results events to_apply (ok results) s = save_results to_apply results events s

  -- What is not a noop is handed to the adapter, if there is any.
  pub apply_changes : List Event → List Action → S → Outcome S
  apply_changes events [] s = record {
    result = some empty_summary;
    error = none;
    backend = unlock backend s;
    events = events ++ apply_unchanged ∷ [];
  }
  apply_changes events (a ∷ rest) s = with_results events (a ∷ rest) (adapter.apply (a ∷ rest)) s

  -- Under the lock.
  pub apply_locked : List Action → S → Outcome S
  unfolding apply_changes with_results save_results
  apply_locked actions s =
      apply_changes (apply_started adapter.name (length actions) ∷ []) (keep not_noop actions) s

  pub after_lock : List Action → Option String × S → Outcome S
  after_lock actions (some e, s) = record {
    result = none;
    error = some (str_append "acquire state lock: " e);
    backend = s;
    events = [];
  }
  after_lock actions (none, s) = apply_locked actions s

  unfoldable pub apply : List Action → S → Outcome S
  unfolding apply_locked after_lock
  apply actions s = after_lock actions (lock backend s)
