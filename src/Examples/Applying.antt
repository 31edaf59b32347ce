-- ===== src/Examples/Applying.antt =====
-- internal/apply/apply.go over the local backend, and internal/state/migrate.go.
use agentspec.Plan.Sync.{last_entry}
use agentspec.Base.Sort.{sort_by}
use agentspec.Apply.{progress}
use agentspec.Adapters.{ActionResult, update, failure}
use agentspec.Examples.Planning.{differ, agent}
use agentspec.Examples.LocalFile.{opened, opened-IsCoherent, entries, error_text}
use agentspec.Base.{
  ℕ, String, List, [], ◌∷◌, none, false, refl, ◌≡◌, inl, inr, In, ap, ◌∙◌, sym, keep, ◌≢◌, ◌+◌,
}
use agentspec.Base.Maps.{values, lookup, has, insert}
use agentspec.Ir.{Resource}
use agentspec.State.{Entry, Backend, ok, err}
use agentspec.State.Local.Save.{no_save_faults, save}
use agentspec.State.Local.{load}
use agentspec.State.Local.Implements.{Clocked, local_backend, local_backend-Stores}
use agentspec.Adapters.Local.{local_adapter, apply}
use agentspec.Plan.{compute_plan}
use agentspec.Apply.Final.{HashesAgree}
use agentspec.Apply.Converge.{apply_converges}
use agentspec.Apply.Failure.{progress_lem, progress_forgets, overridden, left_by_last}
use agentspec.Apply

abbrev files : Backend Clocked
files = local_backend error_text no_save_faults

abbrev at_start : Clocked
at_start = record { backend = opened; now = 4; coherent = opened-IsCoherent }

abbrev clock : ℕ → ℕ
clock i = i

the_agent : (r : Resource) → In r (agent ∷ []) → r.hash ≡ "h2"
the_agent r (inl e) = ap (λ x. x.hash) (sym e)
the_agent r (inr x) = elim x [ ]

one_hash : HashesAgree (agent ∷ [])
one_hash r s i j e = the_agent r i ∙ sym (the_agent s j)

applied_without_error :
    (Apply.apply files local_adapter clock values
      (compute_plan (agent ∷ []) entries).actions
      at_start).error
    ≡ none
unfolding Apply.apply local_backend load save compute_plan apply keep sort_by has insert
applied_without_error = refl

held_at_start : (files.load at_start).0 ≡ ok entries
unfolding local_backend load
held_at_start = refl

apply_converges_example :
    (es : List Entry) × ((files.load
        (Apply.apply files local_adapter clock values
          (compute_plan (agent ∷ []) entries).actions
          at_start).backend).0
      ≡ ok es)
    × ((compute_plan (agent ∷ []) es).has_changes ≡ false)
apply_converges_example =
    apply_converges files (local_backend-Stores error_text no_save_faults) clock values
      (λ m e. (λ i. i, λ i. i)) (agent ∷ []) entries one_hash at_start held_at_start
      applied_without_error

abbrev failed_update : ActionResult
failed_update = record {
  fqn = "pkg/Agent/bot";
  action = update;
  status = failure;
  error = "timeout";
  artifact = "";
}

progress_lem_example :
    ((k : String)
      → lookup k
          (progress files local_adapter clock values [] (failed_update ∷ []) (ok entries)).state_map
        ≡ overridden
            (left_by_last "local-mcp" clock [] 0 k (failed_update ∷ []))
            (last_entry k entries))
    × ((progress files local_adapter clock values []
            (failed_update ∷ [])
            (ok entries)).summary.created
          + (progress files local_adapter clock values []
              (failed_update ∷ [])
              (ok entries)).summary.updated
          + (progress files local_adapter clock values []
              (failed_update ∷ [])
              (ok entries)).summary.deleted
          + (progress files local_adapter clock values []
              (failed_update ∷ [])
              (ok entries)).summary.failures
        ≡ 1)
progress_lem_example =
    progress_lem files local_adapter clock values [] (failed_update ∷ []) (ok entries)

apart : ◌≡◌ {A = String} "pkg/Agent/bot" "pkg/Skill/gone" → ⊥
apart = differ "pkg/Agent/bot" "pkg/Skill/gone" refl

no_result_for_gone : (r : ActionResult) → In r (failed_update ∷ []) → r.fqn ≢ "pkg/Skill/gone"
no_result_for_gone r (inl e) = λ q. apart (ap (λ x. x.fqn) e ∙ q)
no_result_for_gone r (inr x) = elim x [ ]

progress_forgets_example :
    lookup "pkg/Skill/gone"
      (progress files local_adapter clock values [] (failed_update ∷ []) (err "denied")).state_map
    ≡ none
progress_forgets_example =
    progress_forgets files local_adapter clock values [] (failed_update ∷ []) "denied"
      "pkg/Skill/gone" no_result_for_gone
