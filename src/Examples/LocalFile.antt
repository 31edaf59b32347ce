-- ===== src/Examples/LocalFile.antt =====
-- internal/state/local.go and migrate.go on a small state file.
use agentspec.Base.Maps.{lookup}
use agentspec.Plan.Sync.{last_entry}
use agentspec.Examples.Planning.{old_entry, gone_entry}
use agentspec.Base.{
  String, List, [], ◌∷◌, ◌++◌, Option, some, none, false, refl, arith, ◌≡◌, if◌then◌else◌, ◌==◌, ap,
  length,
}
use agentspec.Base.Sort.{sort_by}
use agentspec.State.{Entry}
use agentspec.State.Local.{
  StateFile, File, LocalBackend, VersionEntry, BudgetState, StateError, ok, json, load,
  no_load_faults,
}
use agentspec.State.Local.Coherent.{IsCoherent, stored, answer, decoded, decoded_file}
use agentspec.State.Local.Loading.{load-stored, load-answer}
use agentspec.State.Local.Save.{save, no_save_faults, SaveFaults}
use agentspec.State.Local.Save.Stored.{save-stored, save-keeps, IsReadable}
use agentspec.State.Local.Query.{get}
use agentspec.State.Local.Query.Reached.{Reached}
use agentspec.State.Local.Query.Lookup.{get-last_entry, get-restored}
use agentspec.State.Local.Extras.{
  save_version, save_budgets, decode_or_zero, get_versions, load_budgets, versions_of,
}
use agentspec.State.Local.Extras.RoundTrip.{save_version-get_versions, save_budgets-load_budgets}
use agentspec.State.Local.Implements.{local_backend, local_backend-Stores}
use agentspec.Apply.Converge.{Stores}

abbrev pub entries : List Entry
entries = gone_entry ∷ old_entry ∷ []

abbrev pub saved : StateFile
saved = record { version = "1.0"; entries = entries; budgets = []; agent_versions = [] }

abbrev pub main_file : File
main_file = record { content = json saved; mod_time = 3 }

-- A backend just opened on a state file.
abbrev pub opened : LocalBackend
opened = record {
  disk = record { main = some main_file; backup = none };
  cached_entries = none;
  index = [];
  cache_mod_time = 0;
  hits = 0;
  misses = 0;
}

-- The same with the state file gone and a backup left.
abbrev pub backup_left : LocalBackend
backup_left = record opened { disk = record { main = none; backup = some main_file } }

main_mod_time : (file : File) → some main_file ≡ some file → file.mod_time ≡ 3
main_mod_time file e = cc

main_content : (file : File) → some main_file ≡ some file → file.content ≡ json saved
main_content file e = cc

clash : {o : Option (List Entry)} → o ≡ some entries → o ≡ none → ⊥
clash a b = cc

pub opened-IsCoherent : IsCoherent 4 opened
opened-IsCoherent = record {
  main_agrees = λ es file h e t. cc;
  backup_agrees = λ es file h e t. cc;
  files_agree = λ main backup e k t. cc;
  main_older = λ file e. omega (arith, main_mod_time file e);
  backup_older = λ file e. cc;
  cache_older = omega arith;
}

opened_loads : (load no_load_faults 4 opened).0 ≡ ok entries
unfolding load
opened_loads = refl

load-stored_example :
    (stored opened.disk ≡ some entries)
    × (stored (load no_load_faults 4 opened).1.disk ≡ some entries)
    × IsCoherent 5 (load no_load_faults 4 opened).1
load-stored_example = load-stored no_load_faults 4 opened entries opened-IsCoherent opened_loads

load-answer_example : (load no_load_faults 4 opened).0 ≡ answer (stored opened.disk)
load-answer_example = load-answer 4 opened opened-IsCoherent

-- A save whose last rename fails, and one without faults.
abbrev full_disk : SaveFaults
full_disk = record no_save_faults { rename = some "no space left on device" }

save_works : (save no_save_faults 4 (old_entry ∷ []) opened).0 ≡ none
unfolding save
save_works = refl

save_fails :
    (save full_disk 4 (old_entry ∷ []) opened).0
    ≡ some "rename temp to state: no space left on device"
unfolding save
save_fails = refl

opened-IsReadable : IsReadable opened.disk
opened-IsReadable = λ file e q. unreadable file e q
  where
    unreadable : (file : File) → some main_file ≡ some file → decoded file.content ≡ none → ⊥
    unreadable file e q = clash (ap decoded (main_content file e)) q

save-stored_example :
    (stored (save no_save_faults 4 (old_entry ∷ []) opened).1.disk
      ≡ some (sort_by (λ e. e.fqn) (old_entry ∷ [])))
    × IsCoherent 5 (save no_save_faults 4 (old_entry ∷ []) opened).1
save-stored_example =
    save-stored no_save_faults 4 (old_entry ∷ []) opened opened-IsCoherent save_works

save-keeps_example :
    (stored (save full_disk 4 (old_entry ∷ []) opened).1.disk ≡ stored opened.disk)
    × IsCoherent 5 (save full_disk 4 (old_entry ∷ []) opened).1
save-keeps_example =
    save-keeps full_disk 4 (old_entry ∷ []) opened "rename temp to state: no space left on device"
      opened-IsCoherent refl opened-IsReadable save_fails

-- With `os.Stat` failing before the rename does, the old backup takes the place of the state file.
abbrev no_stat : SaveFaults
no_stat = record full_disk { stat = some "permission denied" }

abbrev old_backup : LocalBackend
old_backup = record opened {
  disk = record {
    main = some main_file;
    backup = some (record { content = json (record saved { entries = [] }); mod_time = 2 });
  };
}

save_reverts : stored (save no_stat 4 (old_entry ∷ []) old_backup).1.disk ≡ some []
unfolding save
save_reverts = refl

-- After a load, with a warm cache.
abbrev warm : LocalBackend
warm = (load no_load_faults 4 opened).1

warm_file : decoded_file warm.disk.main ≡ some entries
unfolding load
warm_file = refl

is_warm : warm.cached_entries ≡ some entries
unfolding load
is_warm = refl

get-last_entry_example :
    (get no_load_faults 5 "pkg/Agent/bot" warm).0 ≡ ok (last_entry "pkg/Agent/bot" entries)
get-last_entry_example =
    get-last_entry 5 "pkg/Agent/bot" warm entries warm_file
      (Reached.loaded no_load_faults (Reached.cold refl opened-IsCoherent))

get-restored_example :
    ((load no_load_faults 4 backup_left).0 ≡ ok entries)
    × ((get no_load_faults 4 "pkg/Agent/bot" backup_left).0 ≡ ok none)
get-restored_example = get-restored 4 "pkg/Agent/bot" backup_left main_file saved refl refl refl

abbrev first_version : VersionEntry
first_version = record { version = 1; timestamp = "t"; summary = "first"; snapshot = [] }

abbrev budget : BudgetState
budget = record {
  agent = "bot";
  period = "daily";
  limit_dollars = 10;
  used_dollars = 1;
  reset_at = "r";
  paused = false;
  warned_at = "";
}

save_version-get_versions_example :
    (dropped : List VersionEntry) × (kept : List VersionEntry) × (first_version ∷ []
      ≡ dropped ++ kept)
    × (length kept ≡ 1)
    × ((a : String)
        → get_versions none a (save_version none none 4 "bot" first_version opened).1
          ≡ ok (if "bot" == a then kept else versions_of a saved))
    × (load_budgets none (save_version none none 4 "bot" first_version opened).1 ≡ ok [])
    × (decoded_file (save_version none none 4 "bot" first_version opened).1.disk.main
        ≡ some entries)
unfolding decode_or_zero lookup
save_version-get_versions_example = save_version-get_versions 4 "bot" first_version opened

save_budgets-load_budgets_example :
    (load_budgets none (save_budgets none none 4 (budget ∷ []) opened).1 ≡ ok (budget ∷ []))
    × ((a : String)
        → get_versions none a (save_budgets none none 4 (budget ∷ []) opened).1
          ≡ ok (versions_of a saved))
    × (decoded_file (save_budgets none none 4 (budget ∷ []) opened).1.disk.main ≡ some entries)
unfolding decode_or_zero
save_budgets-load_budgets_example = save_budgets-load_budgets 4 (budget ∷ []) opened

abbrev pub error_text : StateError → String
error_text e = "error"

local_backend-Stores_example : Stores (local_backend error_text no_save_faults)
local_backend-Stores_example = local_backend-Stores error_text no_save_faults
