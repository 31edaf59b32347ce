-- ===== src/State/Local.antt =====
-- internal/state/local.go: the backend over a JSON file with a backup and a cache. A
-- file's content is what encoding/json reads from it. The outcome of each system call is an argument:
-- a fault is `some message` where the call fails. A file has its bytes and its modification time, and `now` is the time at
-- which an operation writes. A write that fails leaves the file as it was here, though `os.WriteFile` may
-- also truncate it. Logging and the hit counters' log line are left out, and a `null`
-- list of entries is an empty one.
pub mod Save
pub mod Query
pub mod Extras
pub mod Coherent
pub mod Indexed
pub mod Loading
pub mod Implements
use agentspec.Base.{
  ℕ, suc, ◌+◌, ◌-◌, String, str_append, List, [], ◌∷◌, ◌++◌, Option, none, some, Bool, true, false,
  ◌&&◌, if◌then◌else◌, eqb, ltb, length, drop, keep, or_else, ◌==◌,
}
use agentspec.Base.Maps.{Map, lookup, insert}
use agentspec.Base.Sort.{sort_by}
use agentspec.State.{Entry, Status, Status-discrete}
use agentspec.Plan.{index_entries}

pub record VersionEntry : Type 0 where
  pub version : ℕ
  pub timestamp : String
  pub summary : String
  pub snapshot : Map String

-- The amounts are only stored here, as numbers of some small unit.
pub record BudgetState : Type 0 where
  pub agent : String
  pub period : String
  pub limit_dollars : ℕ
  pub used_dollars : ℕ
  pub reset_at : String
  pub paused : Bool
  pub warned_at : String

pub record StateFile : Type 0 where
  pub version : String
  pub entries : List Entry
  pub budgets : List BudgetState
  pub agent_versions : Map (List VersionEntry)

abbrev pub zero_file : StateFile
zero_file = record { version = ""; entries = []; budgets = []; agent_versions = [] }

-- The content of a file: what `json.Unmarshal` reads from it; or JSON with a value of a wrong type, which it
-- refuses after it has filled the other fields, as they stand here; or other bytes that it
-- refuses, which leave the value unmarshalled into as it was.
pub data Content : Type 0 where
  json : StateFile → Content
  mistyped : StateFile → Content
  invalid : Content

pub data StateError : Type 0 where
  io_error : String → StateError
  corrupted : (backup_used : Bool) → StateError

pub data Loaded (A : Type 0) : Type 0 where
  ok : A → Loaded A
  err : StateError → Loaded A

pub record File : Type 0 where
  pub content : Content
  pub mod_time : ℕ

-- The state file and its backup.
pub record Disk : Type 0 where
  pub main : Option File
  pub backup : Option File

pub record LocalBackend : Type 0 where
  pub disk : Disk
  pub cached_entries : Option (List Entry)
  pub index : Map Entry
  pub cache_mod_time : ℕ
  pub hits : ℕ
  pub misses : ℕ

-- The system calls of one operation that fail, each with its error. `stat` and `read` are the
-- failures other than a missing file; `restore` is the write that puts a backup back.
pub record LoadFaults : Type 0 where
  pub stat : Option String
  pub read : Option String
  pub read_backup : Option String
  pub restore : Option String

abbrev pub no_load_faults : LoadFaults
no_load_faults = record { stat = none; read = none; read_backup = none; restore = none }

unfoldable pub invalidate_cache : LocalBackend → LocalBackend
invalidate_cache b = record b { cached_entries = none; index = []; cache_mod_time = 0 }

-- `os.WriteFile(b.Path, data)` of a backup's data; a failure is only logged.
restore_main : Option String → ℕ → Content → LocalBackend → LocalBackend
restore_main (some e) now content b = b
restore_main none now content b = record b {
  disk = record b.disk { main = some (record { content = content; mod_time = now }) };
}

load_backup_content : LoadFaults → ℕ → Content → LocalBackend → Loaded (List Entry) × LocalBackend
load_backup_content f now invalid b = (err (corrupted true), b)
load_backup_content f now (mistyped sf) b = (err (corrupted true), b)
load_backup_content f now (json sf) b = (ok sf.entries, restore_main f.restore now (json sf) b)

-- With no state file: no backup either is a fresh start.
load_from_backup :
    LoadFaults → ℕ → Option String → Option File → LocalBackend → Loaded (List Entry) × LocalBackend
load_from_backup f now (some e) file b = (err (io_error e), b)
load_from_backup f now none none b = (ok [], b)
load_from_backup f now none (some file) b = load_backup_content f now file.content b

-- With a corrupted state file: the backup has to be there.
recover_from_backup :
    LoadFaults → ℕ → Option String → Option File → LocalBackend → Loaded (List Entry) × LocalBackend
recover_from_backup f now (some e) file b = (err (corrupted true), b)
recover_from_backup f now none none b = (err (corrupted true), b)
recover_from_backup f now none (some file) b = load_backup_content f now file.content b

-- The state file is read: the cache and the index are filled from it.
read_main : LoadFaults → ℕ → ℕ → Content → LocalBackend → Loaded (List Entry) × LocalBackend
read_main f now mod_time invalid b = recover_from_backup f now f.read_backup b.disk.backup b
read_main f now mod_time (mistyped sf) b = recover_from_backup f now f.read_backup b.disk.backup b
read_main f now mod_time (json sf) b = (
  ok sf.entries,
  record b {
    cached_entries = some sf.entries;
    index = index_entries sf.entries;
    cache_mod_time = mod_time;
  },
)

after_read :
    LoadFaults → ℕ → Option String → File → LocalBackend → Loaded (List Entry) × LocalBackend
after_read f now (some e) file b = (err (io_error e), b)
after_read f now none file b = read_main f now file.mod_time file.content b

-- A warm cache answers if the state file was not written since.
load_main :
    LoadFaults → ℕ → Option (List Entry) → File → LocalBackend → Loaded (List Entry) × LocalBackend
load_main f now none file b = after_read f now f.read file b
load_main f now (some es) file b =
    if eqb file.mod_time b.cache_mod_time then (ok es, b) else after_read f now f.read file b

after_stat :
    LoadFaults → ℕ → Option String → Option File → LocalBackend → Loaded (List Entry) × LocalBackend
after_stat f now (some e) file b = (err (io_error e), b)
after_stat f now none none b =
    let b' = invalidate_cache b in load_from_backup f now f.read_backup b'.disk.backup b'
after_stat f now none (some file) b = load_main f now b.cached_entries file b

unfoldable pub load : LoadFaults → ℕ → LocalBackend → Loaded (List Entry) × LocalBackend
unfolding after_stat load_main after_read read_main recover_from_backup load_from_backup
    load_backup_content restore_main invalidate_cache
load f now b = after_stat f now f.stat b.disk.main b
