-- ===== src/Imports/Locking.antt =====
-- internal/imports/lock.go: the lock file. Its encoding is JSON, and its reading and writing I/O.
pub mod Checks
pub mod Agreed
use agentspec.Base.{
  String, str_append, List, [], ◌∷◌, ◌++◌, Option, none, some, Bool, true, false, ◌==◌, ◌&&◌, not,
  if◌then◌else◌,
}
use agentspec.Base.Maps.{Map, lookup, insert, has}
use agentspec.Base.Sort.{sort_by}
use agentspec.Imports.{ResolvedImport}

pub record LockedDep : Type 0 where
  pub source : String
  pub version : String
  pub hash : String
  pub path : String

pub record LockFile : Type 0 where
  pub version : String
  pub dependencies : List LockedDep

abbrev pub locked_dep : ResolvedImport → LockedDep
locked_dep ri = record { source = ri.source; version = ri.version; hash = ri.hash; path = ri.path }

-- The loop of `GenerateLockFile`, with the sources that were seen.
unfoldable pub lock_imports : List ResolvedImport → Map Bool → List LockedDep
lock_imports [] seen = []
lock_imports (ri ∷ ris) seen =
    let again = lock_imports ris seen in
    let more = lock_imports ris (insert ri.source true seen) in
    if has ri.source seen then again else locked_dep ri ∷ more

unfoldable pub generate_lock_file : List ResolvedImport → LockFile
unfolding lock_imports
generate_lock_file resolved = record { version = "1"; dependencies = lock_imports resolved [] }

unfoldable pub locked : List LockedDep → Map LockedDep → Map LockedDep
locked [] m = m
locked (dep ∷ deps) m = locked deps (insert dep.source dep m)

abbrev pub mismatch_text : String → String → String → String → String
mismatch_text source what of_lock of_import = str_append source (
    str_append ": " (
      str_append what (
        str_append " mismatch (locked: "
          (str_append of_lock (str_append ", resolved: " (str_append of_import ")"))))))

-- The two checks of an import that is locked.
unfoldable pub check_hash : LockedDep → ResolvedImport → List String
check_hash ld ri =
    if not (ld.hash == "") && not (ld.hash == ri.hash)
    then mismatch_text ri.source "hash" ld.hash ri.hash ∷ []
    else []

unfoldable pub check_version : LockedDep → ResolvedImport → List String
check_version ld ri =
    if not (ld.version == "") && (not (ri.version == "") && not (ld.version == ri.version))
    then mismatch_text ri.source "version" ld.version ri.version ∷ []
    else []

unfoldable pub check_import : Option LockedDep → ResolvedImport → List String
check_import none ri = []
check_import (some ld) ri = check_hash ld ri ++ check_version ld ri

unfoldable pub check_imports : Map LockedDep → List ResolvedImport → List String
check_imports m [] = []
check_imports m (ri ∷ ris) = check_import (lookup ri.source m) ri ++ check_imports m ris

-- Without a lock file everything matches.
unfoldable pub validate_lock_file : Option LockFile → List ResolvedImport → List String
unfolding locked check_hash check_version check_import check_imports
validate_lock_file none resolved = []
validate_lock_file (some lf) resolved = check_imports (locked lf.dependencies []) resolved

unfoldable pub sort_dependencies : LockFile → LockFile
sort_dependencies lf = record lf {
  dependencies = sort_by (λ (d : LockedDep). d.source) lf.dependencies;
}
