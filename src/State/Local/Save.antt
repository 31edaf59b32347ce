-- ===== src/State/Local/Save.antt =====
-- internal/state/local.go: `Save`, which writes a temporary file, keeps the old file as the backup and
-- renames. A rename keeps a file's modification time. The sort of the entries is a stable one here; Go's
-- leaves open in which order entries of one FQN stand.
pub mod Stored
pub mod Indexed
use agentspec.Base.Sort.{sort_by}
use agentspec.Base.{List, Option, none, ℕ, String, [], some, str_append, or_else}
use agentspec.State.Local.{Disk, invalidate_cache, LocalBackend, StateFile, File, json}
use agentspec.State.{Entry}

-- The system calls of `Save` that fail.
pub record SaveFaults : Type 0 where
  pub create_temp : Option String
  pub write : Option String
  pub sync : Option String
  pub close : Option String
  pub stat : Option String
  pub rename_backup : Option String
  pub rename : Option String
  pub restore : Option String

abbrev pub no_save_faults : SaveFaults
no_save_faults = record {
  create_temp = none;
  write = none;
  sync = none;
  close = none;
  stat = none;
  rename_backup = none;
  rename = none;
  restore = none;
}

-- What is written by `Save`.
unfoldable pub saved_file : List Entry → StateFile
saved_file entries = record {
  version = "1.0";
  entries = sort_by (λ e. e.fqn) entries;
  budgets = [];
  agent_versions = [];
}

-- The first four calls, on the temporary file: its removal after a failure leaves the disk as it was.
temp_error : SaveFaults → Option String
temp_error f = or_else (prefixed "create temp file: " f.create_temp) (
    or_else (prefixed "write temp file: " f.write)
      (or_else (prefixed "fsync temp file: " f.sync) (prefixed "close temp file: " f.close)))
  where
    prefixed : String → Option String → Option String
    prefixed p none = none
    prefixed p (some e) = some (str_append p e)

move_to_backup : File → Disk
move_to_backup file = record { main = none; backup = some file }

restore_backup : Option String → Option File → Disk → Disk
restore_backup (some e) backup d = d
restore_backup none none d = d
restore_backup none (some file) d = record { main = some file; backup = none }

-- Step 4, the rename of the temporary file. After a failure the backup is moved back, over a state file
-- that step 3 has left in its place.
rename_temp :
    SaveFaults → ℕ → StateFile → Option String → LocalBackend → Option String × LocalBackend
rename_temp f now sf (some e) b = (
  some (str_append "rename temp to state: " e),
  record b { disk = restore_backup f.restore b.disk.backup b.disk },
)
rename_temp f now sf none b = (
  none,
  invalidate_cache (record b {
    disk = record b.disk { main = some (record { content = json sf; mod_time = now }) };
  }),
)

-- Step 3, the backup of the old file if there is one and `os.Stat` finds it: an error of `os.Stat` is
-- taken for a missing file.
backup_main :
    SaveFaults
    → ℕ
    → StateFile
    → Option String
    → Option String
    → Option File
    → LocalBackend
    → Option String × LocalBackend
backup_main f now sf (some s) fault main b = rename_temp f now sf f.rename b
backup_main f now sf none fault none b = rename_temp f now sf f.rename b
backup_main f now sf none (some e) (some file) b = (some (str_append "create backup: " e), b)
backup_main f now sf none none (some file) b =
    rename_temp f now sf f.rename (record b { disk = move_to_backup file })

write_file :
    SaveFaults → ℕ → StateFile → Option String → LocalBackend → Option String × LocalBackend
write_file f now sf (some e) b = (some e, b)
write_file f now sf none b = backup_main f now sf f.stat f.rename_backup b.disk.main b

unfoldable pub save : SaveFaults → ℕ → List Entry → LocalBackend → Option String × LocalBackend
unfolding saved_file temp_error move_to_backup restore_backup rename_temp backup_main write_file
    invalidate_cache
save f now entries b = write_file f now (saved_file entries) (temp_error f) b
