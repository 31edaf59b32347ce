-- ===== src/State/Local/Extras.antt =====
-- internal/state/local.go: the budgets and the versions that stand in the state file beside the
-- entries. `read` is the failure to read the state file and `write` that to write it, which leaves the
-- file as it was here, though a failed write may also truncate it.
pub mod RoundTrip
pub mod Kept
use agentspec.Base.Maps.{lookup, insert}
use agentspec.Base.{
  List, Option, String, ℕ, if◌then◌else◌, ◌==◌, [], ltb, length, drop, ◌-◌, some, ◌++◌, ◌∷◌, none,
}
use agentspec.State.Local.{
  Loaded, ok, err, StateError, StateFile, BudgetState, File, LocalBackend, VersionEntry, io_error,
  zero_file, json, mistyped, invalid,
}

-- The file as the writers read it, who ignore the error of `json.Unmarshal`: a missing or invalid one
-- gives the zero value, and a mistyped one the fields that could be filled.
unfoldable pub decode_or_zero : Option File → StateFile
decode_or_zero none = zero_file
decode_or_zero (some file) = elim file.content [
  | invalid ↦ zero_file
  | mistyped sf ↦ sf
  | json sf ↦ sf
]

default_version : StateFile → StateFile
default_version sf = if sf.version == "" then record sf { version = "1.0" } else sf

write_state_file : Option String → ℕ → StateFile → LocalBackend → Option String × LocalBackend
write_state_file (some e) now sf b = (some e, b)
write_state_file none now sf b = (
  none,
  record b { disk = record b.disk { main = some (record { content = json sf; mod_time = now }) } },
)

unfoldable pub save_budgets :
    Option String
    → Option String
    → ℕ
    → List BudgetState
    → LocalBackend
    → Option String × LocalBackend
unfolding decode_or_zero default_version write_state_file
save_budgets (some e) write now budgets b = (some e, b)
save_budgets none write now budgets b =
    write_state_file write now
      (default_version (record (decode_or_zero b.disk.main) { budgets = budgets })) b

-- The error of `json.Unmarshal`, whose text is left out.
parse_failed : StateError
parse_failed = io_error "cannot decode"

read_field : {A : Type 0} → A → (StateFile → A) → Option String → Option File → Loaded A
unfolding parse_failed
read_field zero_value field (some e) file = err (io_error e)
read_field zero_value field none none = ok zero_value
read_field zero_value field none (some file) = elim file.content [
  | invalid ↦ err parse_failed
  | mistyped sf ↦ err parse_failed
  | json sf ↦ ok (field sf)
]

unfoldable pub load_budgets : Option String → LocalBackend → Loaded (List BudgetState)
unfolding read_field
load_budgets read b = read_field [] (λ sf. sf.budgets) read b.disk.main

abbrev pub max_versions : ℕ
max_versions = 10

-- The last `max_versions` of a history.
unfoldable pub retained : List VersionEntry → List VersionEntry
retained versions =
    if ltb max_versions (length versions)
    then drop (length versions - max_versions) versions
    else versions

abbrev pub history : Option (List VersionEntry) → List VersionEntry
history none = []
history (some vs) = vs

abbrev pub versions_of : String → StateFile → List VersionEntry
versions_of agent sf = history (lookup agent sf.agent_versions)

unfoldable pub save_version :
    Option String
    → Option String
    → ℕ
    → String
    → VersionEntry
    → LocalBackend
    → Option String × LocalBackend
unfolding decode_or_zero default_version write_state_file retained
save_version (some e) write now agent entry b = (some e, b)
save_version none write now agent entry b =
    let sf = decode_or_zero b.disk.main in
    write_state_file write now
      (default_version (record sf {
        agent_versions =
            insert agent (retained (versions_of agent sf ++ entry ∷ [])) sf.agent_versions;
      }))
      b

unfoldable pub get_versions : Option String → String → LocalBackend → Loaded (List VersionEntry)
unfolding read_field
get_versions read agent b = read_field [] (versions_of agent) read b.disk.main
