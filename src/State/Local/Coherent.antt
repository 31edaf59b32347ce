-- ===== src/State/Local/Coherent.antt =====
-- What the two files of the local backend hold, and when its cache may be trusted.
use agentspec.Base.{ℕ, suc, ◌<◌, ◌≡◌, List, [], Option, none, some, or_else, arith, true}
use agentspec.State.{Entry}
use agentspec.State.Local.{
  Content, json, mistyped, invalid, Loaded, ok, err, corrupted, File, Disk, LocalBackend,
}

abbrev pub decoded : Content → Option (List Entry)
decoded invalid = none
decoded (mistyped sf) = none
decoded (json sf) = some sf.entries

abbrev pub decoded_file : Option File → Option (List Entry)
decoded_file none = none
decoded_file (some file) = decoded file.content

-- The entries that the files hold; `none` when neither can be read. A backup counts where the state
-- file is missing or corrupted, and with neither file there are no entries.
abbrev pub stored_in : Option File → Option File → Option (List Entry)
stored_in none none = some []
stored_in none (some file) = decoded file.content
stored_in (some file) backup = or_else (decoded file.content) (decoded_file backup)

abbrev pub stored : Disk → Option (List Entry)
stored d = stored_in d.main d.backup

abbrev pub answer : Option (List Entry) → Loaded (List Entry)
answer none = err (corrupted true)
answer (some es) = ok es

-- A file that the cache takes for the one it was filled from has the cached entries.
abbrev pub Agrees : LocalBackend → Option File → Type 0
Agrees b o =
    (es : List Entry) (file : File)
    → b.cached_entries ≡ some es
    → o ≡ some file
    → file.mod_time ≡ b.cache_mod_time
    → decoded file.content ≡ some es

abbrev pub Older : ℕ → Option File → Type 0
Older now o = (file : File) → o ≡ some file → file.mod_time < now

-- At the time `now`, which is later than every write so far.
pub record IsCoherent (now : ℕ) (b : LocalBackend) : Type 0 where
  pub main_agrees : Agrees b b.disk.main
  pub backup_agrees : Agrees b b.disk.backup
  pub files_agree :
      (main backup : File)
      → b.disk.main ≡ some main
      → b.disk.backup ≡ some backup
      → backup.mod_time ≡ main.mod_time
      → decoded backup.content ≡ decoded main.content
  pub main_older : Older now b.disk.main
  pub backup_older : Older now b.disk.backup
  pub cache_older : b.cache_mod_time < now

pub IsCoherent-later : (now : ℕ) (b : LocalBackend) → IsCoherent now b → IsCoherent (suc now) b
IsCoherent-later now b c = record {
  main_agrees = c.main_agrees;
  backup_agrees = c.backup_agrees;
  files_agree = c.files_agree;
  main_older = λ file e. omega (arith, c.main_older file e);
  backup_older = λ file e. omega (arith, c.backup_older file e);
  cache_older = omega (arith, c.cache_older);
}

written_at :
    (content : Content) (now : ℕ) (file : File)
    → some (record { content = content; mod_time = now }) ≡ some file
    → file.mod_time ≡ now
written_at content now file e = cc

-- A state file written at `now`, later than what the cache was filled from.
pub IsCoherent-written :
    (now : ℕ) (b : LocalBackend) (content : Content)
    → IsCoherent now b
    → IsCoherent (suc now) (record b {
      disk = record b.disk { main = some (record { content = content; mod_time = now }) };
    })
IsCoherent-written now b content c = record {
  main_agrees =
      λ es file h e t. absurd (omega (arith, c.cache_older, written_at content now file e, t));
  backup_agrees = c.backup_agrees;
  files_agree = λ main backup e k t.
      absurd (omega (arith, written_at content now main e, c.backup_older backup k, t));
  main_older = λ file e. omega (arith, written_at content now file e);
  backup_older = λ file e. omega (arith, c.backup_older file e);
  cache_older = omega (arith, c.cache_older);
}

-- With the cache dropped.
pub IsCoherent-dropped :
    (now : ℕ) (b : LocalBackend)
    → IsCoherent now b
    → IsCoherent now (record b { cached_entries = none; index = []; cache_mod_time = 0 })
IsCoherent-dropped now b c = record {
  main_agrees = λ es file h e t. cc;
  backup_agrees = λ es file h e t. cc;
  files_agree = c.files_agree;
  main_older = c.main_older;
  backup_older = c.backup_older;
  cache_older = omega (arith, c.cache_older);
}
