-- ===== src/State/Local/Save/Indexed.antt =====
-- `Save` keeps the index with the cache.
use agentspec.Base.{none, some, List, Option, ℕ, String}
use agentspec.State.{Entry}
use agentspec.State.Local.{invalidate_cache, LocalBackend, File, StateFile}
use agentspec.State.Local.Save.{
  save, SaveFaults, write_file, backup_main, rename_temp, saved_file, temp_error, move_to_backup,
}
use agentspec.State.Local.Indexed.{IsIndexed}

rename-IsIndexed :
    (f : SaveFaults) (now : ℕ) (sf : StateFile) (fault : Option String) (b : LocalBackend)
    → IsIndexed b
    → IsIndexed (rename_temp f now sf fault b).1
unfolding rename_temp invalidate_cache
rename-IsIndexed f now sf (some e) b i = i
rename-IsIndexed f now sf none b i = λ es h. cc

backup-IsIndexed :
    (f : SaveFaults) (now : ℕ) (sf : StateFile) (stat fault : Option String) (main : Option File)
    (b : LocalBackend)
    → IsIndexed b
    → IsIndexed (backup_main f now sf stat fault main b).1
unfolding backup_main
backup-IsIndexed f now sf (some s) fault main b i = rename-IsIndexed f now sf f.rename b i
backup-IsIndexed f now sf none fault none b i = rename-IsIndexed f now sf f.rename b i
backup-IsIndexed f now sf none (some e) (some file) b i = i
backup-IsIndexed f now sf none none (some file) b i =
    rename-IsIndexed f now sf f.rename (record b { disk = move_to_backup file }) i

pub save-IsIndexed :
    (f : SaveFaults) (now : ℕ) (es : List Entry) (b : LocalBackend)
    → IsIndexed b
    → IsIndexed (save f now es b).1
unfolding save write_file
save-IsIndexed f now es b i = write (temp_error f)
  where
    write : (fault : Option String) → IsIndexed (write_file f now (saved_file es) fault b).1
    write (some e) = i
    write none = backup-IsIndexed f now (saved_file es) f.stat f.rename_backup b.disk.main b i
