-- ===== src/State/Local/Save/Stored.antt =====
-- `Save` against what the files hold, whatever system calls fail.
use agentspec.State.{Entry}
use agentspec.State.Local.Coherent.{
  decoded, stored, stored_in, IsCoherent, IsCoherent-later, IsCoherent-written, IsCoherent-dropped,
}
use agentspec.Base.{
  refl, suc, ℕ, none, some, List, Option, ◌≡◌, String, ◌≢◌, Option-cases, arith, ◌∙◌, inl, inr,
}
use agentspec.State.Local.Save.{
  temp_error, move_to_backup, restore_backup, rename_temp, backup_main, write_file, save,
  saved_file, SaveFaults,
}
use agentspec.State.Local.{LocalBackend, json, File, Disk, invalidate_cache}
use agentspec.Base.Sort.{sort_by}

-- The state file, if there is one, can be decoded.
abbrev pub IsReadable : Disk → Type 0
IsReadable d = (file : File) → d.main ≡ some file → decoded file.content ≢ none

-- What a save keeps when it fails, and what it stores when it does not.
pub record Saves (stat : Option String) (now : ℕ) (entries : List Entry) (b : LocalBackend)
    (r : Option String × LocalBackend) : Type 0 where
  pub coherent : IsCoherent (suc now) r.1
  pub stores : r.0 ≡ none → stored r.1.disk ≡ some (sort_by (λ e. e.fqn) entries)
  pub keeps :
      (e : String)
      → r.0 ≡ some e
      → stat ≡ none
      → IsReadable b.disk
      → stored r.1.disk ≡ stored b.disk

unchanged :
    (stat : Option String) (now : ℕ) (entries : List Entry) (b : LocalBackend) (e : String)
    → IsCoherent now b
    → Saves stat now entries b (some e, b)
unchanged stat now entries b e c = record {
  coherent = IsCoherent-later now b c;
  stores = λ h. cc;
  keeps = λ e h s readable. refl;
}

-- The old state file moved to the backup.
moved-IsCoherent :
    (now : ℕ) (b : LocalBackend) (file : File)
    → b.disk.main ≡ some file
    → IsCoherent now b
    → IsCoherent now (record b { disk = move_to_backup file })
unfolding move_to_backup
moved-IsCoherent now b file m c = record {
  main_agrees = λ es x h e t. cc;
  backup_agrees = λ es x h e t. c.main_agrees es x h (m ∙ e) t;
  files_agree = λ x y e k t. cc;
  main_older = λ x e. cc;
  backup_older = λ x e. c.main_older x (m ∙ e);
  cache_older = c.cache_older;
}

-- The backup moved back.
restored-IsCoherent :
    (now : ℕ) (b : LocalBackend) (fault : Option String) (backup : Option File)
    → b.disk.backup ≡ backup
    → IsCoherent now b
    → IsCoherent now (record b { disk = restore_backup fault backup b.disk })
unfolding restore_backup
restored-IsCoherent now b (some e) backup k c = c
restored-IsCoherent now b none none k c = c
restored-IsCoherent now b none (some file) k c = record {
  main_agrees = λ es x h e t. c.backup_agrees es x h (k ∙ e) t;
  backup_agrees = λ es x h e t. cc;
  files_agree = λ x y e k' t. cc;
  main_older = λ x e. c.backup_older x (k ∙ e);
  backup_older = λ x e. cc;
  cache_older = c.cache_older;
}

-- With no state file the backup is what is stored, and it stays so when it is moved back.
stored-restored :
    (fault : Option String) (backup : Option File) (d : Disk)
    → d.main ≡ none
    → d.backup ≡ backup
    → stored (restore_backup fault backup d) ≡ stored d
unfolding restore_backup
stored-restored (some e) backup d m k = refl
stored-restored none none d m k = refl
stored-restored none (some file) d m k = rw (m, k) (ground arith)

rename-Saves :
    (f : SaveFaults) (stat : Option String) (now : ℕ) (entries : List Entry) (fault : Option String)
    (b : LocalBackend)
    → (stat ≡ none → b.disk.main ≡ none)
    → IsCoherent now b
    → Saves stat now entries b (rename_temp f now (saved_file entries) fault b)
unfolding rename_temp invalidate_cache saved_file
rename-Saves f stat now entries (some e) b m c = record {
  coherent = IsCoherent-later now _ (restored-IsCoherent now b f.restore b.disk.backup refl c);
  stores = λ h. cc;
  keeps = λ e h s readable. stored-restored f.restore b.disk.backup b.disk (m s) refl;
}
rename-Saves f stat now entries none b m c = record {
  coherent =
      IsCoherent-dropped (suc now) _ (IsCoherent-written now b (json (saved_file entries)) c);
  stores = λ h. refl;
  keeps = λ e h s readable. cc;
}

readable_main :
    (file : File) (backup : Option File)
    → decoded file.content ≢ none
    → stored_in none (some file) ≡ stored_in (some file) backup
readable_main file backup ne = elim (Option-cases (decoded file.content)) [
  | inl e ↦ absurd (ne e)
  | inr (es, e) ↦ rw e refl
]

backup-Saves :
    (f : SaveFaults) (now : ℕ) (entries : List Entry) (stat fault : Option String)
    (main : Option File) (b : LocalBackend)
    → b.disk.main ≡ main
    → IsCoherent now b
    → Saves stat now entries b (backup_main f now (saved_file entries) stat fault main b)
unfolding backup_main move_to_backup
backup-Saves f now entries (some s) fault main b m c =
    rename-Saves f (some s) now entries f.rename b (λ q. cc) c
backup-Saves f now entries none fault none b m c =
    rename-Saves f none now entries f.rename b (λ q. m) c
backup-Saves f now entries none (some e) (some file) b m c = unchanged none now entries b _ c
backup-Saves f now entries none none (some file) b m c =
    let r =
      rename-Saves f none now entries f.rename (record b { disk = move_to_backup file }) (λ q. refl)
        (moved-IsCoherent now b file m c) in
    record {
      coherent = r.coherent;
      stores = r.stores;
      keeps = λ e h s readable.
          r.keeps e h s (λ x q. cc) ∙ rw m (readable_main file b.disk.backup (readable file m));
    }

write-Saves :
    (f : SaveFaults) (now : ℕ) (entries : List Entry) (fault : Option String) (b : LocalBackend)
    → IsCoherent now b
    → Saves f.stat now entries b (write_file f now (saved_file entries) fault b)
unfolding write_file
write-Saves f now entries (some e) b c = unchanged f.stat now entries b e c
write-Saves f now entries none b c =
    backup-Saves f now entries f.stat f.rename_backup b.disk.main b refl c

pub save-Saves :
    (f : SaveFaults) (now : ℕ) (entries : List Entry) (b : LocalBackend)
    → IsCoherent now b
    → Saves f.stat now entries b (save f now entries b)
unfolding save
save-Saves f now entries b c = write-Saves f now entries (temp_error f) b c

-- `Save` of a coherent backend that reports no error: the files hold the entries sorted by FQN, and the
-- backend is coherent again.
pub save-stored :
    (f : SaveFaults) (now : ℕ) (entries : List Entry) (b : LocalBackend)
    → IsCoherent now b
    → (save f now entries b).0 ≡ none
    → (stored (save f now entries b).1.disk ≡ some (sort_by (λ e. e.fqn) entries))
      × IsCoherent (suc now) (save f now entries b).1
save-stored f now entries b c h = let r = save-Saves f now entries b c in (r.stores h, r.coherent)

-- `Save` of a coherent backend that reports an error, at whichever system call but with `os.Stat` of the
-- state file working: if the state file could be decoded, the files hold what they held before, and
-- the backend is coherent again.
pub save-keeps :
    (f : SaveFaults) (now : ℕ) (entries : List Entry) (b : LocalBackend) (e : String)
    → IsCoherent now b
    → f.stat ≡ none
    → IsReadable b.disk
    → (save f now entries b).0 ≡ some e
    → (stored (save f now entries b).1.disk ≡ stored b.disk)
      × IsCoherent (suc now) (save f now entries b).1
save-keeps f now entries b e c s readable h =
    let r = save-Saves f now entries b c in (r.keeps e h s readable, r.coherent)
