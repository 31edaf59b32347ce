-- ===== src/Plan/Drift.antt =====
-- internal/plan/drift.go: where the state differs from the desired resources.
pub mod Quiet
use agentspec.Base.{
  String, List, [], ◌∷◌, ◌++◌, Option, none, some, Bool, true, false, not, ◌==◌, if◌then◌else◌,
}
use agentspec.Base.Maps.{Map, lookup, has}
use agentspec.Ir.{Resource}
use agentspec.State.{Entry}
use agentspec.Plan.{index_entries, index_resources}

pub record DriftEntry : Type 0 where
  pub fqn : String
  pub expected : String
  pub actual : String
  pub type : String

pub record DriftResult : Type 0 where
  pub has_drift : Bool
  pub drifted : List DriftEntry

abbrev pub no_drift : DriftResult
no_drift = record { has_drift = false; drifted = [] }

abbrev pub report : DriftEntry → DriftResult → DriftResult
report d result = record { has_drift = true; drifted = result.drifted ++ d ∷ [] }

-- The body of the loop over the desired resources.
pub drift_resource : Option Entry → Resource → DriftResult → DriftResult
drift_resource none r result =
    report (record { fqn = r.fqn; expected = r.hash; actual = ""; type = "missing" }) result
drift_resource (some entry) r result =
    if not (entry.hash == r.hash)
    then report
        (record { fqn = r.fqn; expected = r.hash; actual = entry.hash; type = "hash_mismatch" })
        result
    else result

pub drift_desired : Map Entry → List Resource → DriftResult → DriftResult
drift_desired current [] result = result
drift_desired current (r ∷ rs) result =
    drift_desired current rs (drift_resource (lookup r.fqn current) r result)

abbrev pub drift_entry : Bool → Entry → DriftResult → DriftResult
drift_entry true e result = result
drift_entry false e result =
    report (record { fqn = e.fqn; expected = ""; actual = e.hash; type = "extra" }) result

-- The loop over the entries.
pub drift_extra : Map Resource → List Entry → DriftResult → DriftResult
drift_extra desired [] result = result
drift_extra desired (e ∷ es) result =
    drift_extra desired es (drift_entry (has e.fqn desired) e result)

unfoldable pub detect_drift : List Resource → List Entry → DriftResult
unfolding drift_resource drift_desired drift_extra
detect_drift desired current =
    drift_extra (index_resources desired) current
      (drift_desired (index_entries current) desired no_drift)
