-- ===== src/State/Local/Indexed.antt =====
-- The index is kept with the cache: by `Load` here, by the other operations in the modules of these.
use agentspec.Base.{none, some, List, Option, ℕ, Bool-cases, String, suc, ◌≡◌, ap, eqb, inl, inr}
use agentspec.Plan.{index_entries}
use agentspec.State.{Entry}
use agentspec.State.Local.{
  load, load_main, after_stat, after_read, read_main, invalidate_cache, load_from_backup, json,
  mistyped, invalid, recover_from_backup, load_backup_content, restore_main, LocalBackend,
  LoadFaults, File, Content,
}
use agentspec.State.Local.Coherent.{IsCoherent}
use agentspec.State.Local.Loading.{load-Loads}

-- The index is that of the cached entries.
abbrev pub IsIndexed : LocalBackend → Type 0
IsIndexed b = (es : List Entry) → b.cached_entries ≡ some es → b.index ≡ index_entries es

module _ (f : LoadFaults) (now : ℕ) where
  content-IsIndexed :
      (content : Content) (b : LocalBackend)
      → IsIndexed b
      → IsIndexed (load_backup_content f now content b).1
  unfolding load_backup_content restore_main
  content-IsIndexed invalid b i = i
  content-IsIndexed (mistyped sf) b i = i
  content-IsIndexed (json sf) b i = written f.restore
    where
      written : (fault : Option String) → IsIndexed (restore_main fault now (json sf) b)
      written (some e) = i
      written none = i

  missing-IsIndexed :
      (fault : Option String) (backup : Option File) (b : LocalBackend)
      → IsIndexed b
      → IsIndexed (load_from_backup f now fault backup b).1
  unfolding load_from_backup
  missing-IsIndexed (some e) backup b i = i
  missing-IsIndexed none none b i = i
  missing-IsIndexed none (some file) b i = content-IsIndexed file.content b i

  corrupted-IsIndexed :
      (fault : Option String) (backup : Option File) (b : LocalBackend)
      → IsIndexed b
      → IsIndexed (recover_from_backup f now fault backup b).1
  unfolding recover_from_backup
  corrupted-IsIndexed (some e) backup b i = i
  corrupted-IsIndexed none none b i = i
  corrupted-IsIndexed none (some file) b i = content-IsIndexed file.content b i

  read-IsIndexed :
      (fault : Option String) (file : File) (b : LocalBackend)
      → IsIndexed b
      → IsIndexed (after_read f now fault file b).1
  unfolding after_read read_main
  read-IsIndexed (some e) file b i = i
  read-IsIndexed none file b i = by_content file.content
    where
      the_entries : (xs ys : List Entry) → some xs ≡ some ys → xs ≡ ys
      the_entries xs ys h = cc

      by_content : (content : Content) → IsIndexed (read_main f now file.mod_time content b).1
      by_content invalid = corrupted-IsIndexed f.read_backup b.disk.backup b i
      by_content (mistyped sf) = corrupted-IsIndexed f.read_backup b.disk.backup b i
      by_content (json sf) = λ es h. ap index_entries (the_entries sf.entries es h)

  main-IsIndexed :
      (cached : Option (List Entry)) (file : File) (b : LocalBackend)
      → IsIndexed b
      → IsIndexed (load_main f now cached file b).1
  unfolding load_main
  main-IsIndexed none file b i = read-IsIndexed f.read file b i
  main-IsIndexed (some es) file b i = elim (Bool-cases (eqb file.mod_time b.cache_mod_time)) [
    | inl t ↦ rw t i
    | inr t ↦ rw t (read-IsIndexed f.read file b i)
  ]

  stat-IsIndexed :
      (fault : Option String) (main : Option File) (b : LocalBackend)
      → IsIndexed b
      → IsIndexed (after_stat f now fault main b).1
  unfolding after_stat invalidate_cache
  stat-IsIndexed (some e) main b i = i
  stat-IsIndexed none none b i =
      missing-IsIndexed f.read_backup b.disk.backup (invalidate_cache b) (λ es h. cc)
  stat-IsIndexed none (some file) b i = main-IsIndexed b.cached_entries file b i

  load-IsIndexed : (b : LocalBackend) → IsIndexed b → IsIndexed (load f now b).1
  unfolding load
  load-IsIndexed b i = stat-IsIndexed f.stat b.disk.main b i

-- Coherent and indexed.
abbrev pub Right : ℕ → LocalBackend → Type 0
Right now b = IsCoherent now b × IsIndexed b

pub load-Right :
    (f : LoadFaults) (now : ℕ) (b : LocalBackend) → Right now b → Right (suc now) (load f now b).1
load-Right f now b (c, i) = ((load-Loads f now b c).coherent, load-IsIndexed f now b i)
