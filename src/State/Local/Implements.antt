-- ===== src/State/Local/Implements.antt =====
-- The local backend as the `Backend` of the apply engine: internal/state/local.go behind the interface
-- of internal/state/state.go, with the time of each operation kept beside the backend. The file lock is
-- left out, and loads meet no failing system call.
use agentspec.Base.Sort.{In-sort_by, sort_by-In, sort_by}
use agentspec.Apply.Converge.{Stores}
use agentspec.State.{Backend, Result, Entry}
use agentspec.Base.{ℕ, suc, List, none, String, Option, ◌≡◌, ap, some, ◌∙◌, sym}
use agentspec.State.Local.Coherent.{IsCoherent, stored, answer}
use agentspec.State.Local.Save.{save, SaveFaults}
use agentspec.State.Local.Save.Stored.{save-Saves}
use agentspec.State.Local.Loading.{load-Loads, load-answer}
use agentspec.State.Local.{load, no_load_faults, LocalBackend, Loaded, StateError, ok, err}
use agentspec.State

pub record Clocked : Type 0 where
  pub backend : LocalBackend
  pub now : ℕ
  pub coherent : IsCoherent now backend

-- `error_text` is the text of an error.
module _ (error_text : StateError → String) (f : SaveFaults) where
  abbrev pub as_result : Loaded (List Entry) → Result (List Entry)
  as_result (ok es) = State.ok es
  as_result (err e) = State.err (error_text e)

  pub clocked_load : Clocked → Result (List Entry) × Clocked
  clocked_load s = (
    as_result (load no_load_faults s.now s.backend).0,
    record {
      backend = (load no_load_faults s.now s.backend).1;
      now = suc s.now;
      coherent = (load-Loads no_load_faults s.now s.backend s.coherent).coherent;
    },
  )

  pub clocked_save : List Entry → Clocked → Option String × Clocked
  clocked_save es s = (
    (save f s.now es s.backend).0,
    record {
      backend = (save f s.now es s.backend).1;
      now = suc s.now;
      coherent = (save-Saves f s.now es s.backend s.coherent).coherent;
    },
  )

  unfoldable pub local_backend : Backend Clocked
  unfolding clocked_load clocked_save
  local_backend = record { load = clocked_load; save = clocked_save; locker = none }

  answer-stored :
      (o : Option (List Entry)) (es : List Entry) → as_result (answer o) ≡ State.ok es → o ≡ some es
  answer-stored none es h = cc
  answer-stored (some xs) es h = cc

  clocked_load-stored :
      (s : Clocked) → (clocked_load s).0 ≡ as_result (answer (stored s.backend.disk))
  unfolding clocked_load
  clocked_load-stored s = ap as_result (load-answer s.now s.backend s.coherent)

  load_again :
      (s : Clocked) (es : List Entry)
      → (clocked_load s).0 ≡ State.ok es
      → (clocked_load (clocked_load s).1).0 ≡ State.ok es
  unfolding clocked_load
  load_again s es h =
      clocked_load-stored (clocked_load s).1
      ∙ ap (λ o. as_result (answer o))
          ((load-Loads no_load_faults s.now s.backend s.coherent).keeps
            ∙ answer-stored (stored s.backend.disk) es (sym (clocked_load-stored s) ∙ h))

  load_saved :
      (es : List Entry) (s : Clocked)
      → (clocked_save es s).0 ≡ none
      → (clocked_load (clocked_save es s).1).0 ≡ State.ok (sort_by (λ e. e.fqn) es)
  unfolding clocked_save
  load_saved es s h =
      clocked_load-stored (clocked_save es s).1
      ∙ ap (λ o. as_result (answer o)) ((save-Saves f s.now es s.backend s.coherent).stores h)

  -- The local backend keeps what the apply engine relies on: a save that reports no error is what the
  -- next load returns, up to order, and loads change nothing that is stored. The lock is left out.
  pub local_backend-Stores : Stores local_backend
  unfolding local_backend
  local_backend-Stores = record {
    load_keeps = load_again;
    save_stores = λ es s h. (
      sort_by (λ e. e.fqn) es,
      load_saved es s h,
      λ e. (sort_by-In (λ x. x.fqn) e es, In-sort_by (λ x. x.fqn) e es),
    );
    lock_keeps = λ s es h. h;
    unlock_keeps = λ s es h. h;
  }
