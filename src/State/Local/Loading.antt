-- ===== src/State/Local/Loading.antt =====
-- `Load` against what the files hold, whatever system calls fail.
use agentspec.State.{Entry}
use agentspec.Base.{
  ℕ, Option, List, String, ◌≡◌, none, some, suc, true, sym, Bool-cases, ◌∙◌, arith, eqb, inl, inr,
  refl, or_else, ap,
}
use agentspec.State.Local.Coherent.{
  decoded, decoded_file, stored, stored_in, answer, IsCoherent, IsCoherent-later,
  IsCoherent-written, IsCoherent-dropped,
}
use agentspec.State.Local.{
  after_read, after_stat, load_main, load_from_backup, recover_from_backup, load_backup_content,
  restore_main, read_main, no_load_faults, LoadFaults, LocalBackend, Content, File, Loaded,
  StateError, StateFile, err, corrupted, mistyped, invalid, io_error, json, ok, invalidate_cache,
  load,
}

-- What a load keeps, and that what it returns is what the files hold.
pub record Loads (now : ℕ) (b : LocalBackend) (r : Loaded (List Entry) × LocalBackend)
    : Type 0 where
  pub keeps : stored r.1.disk ≡ stored b.disk
  pub coherent : IsCoherent (suc now) r.1
  pub sound : (es : List Entry) → r.0 ≡ ok es → stored b.disk ≡ some es

same_entries : {es xs : List Entry} → ok es ≡ ok xs → some es ≡ some xs
same_entries q = cc

rw_decoded :
    {sf : StateFile} {main : File} (es : List Entry) (file : File)
    → some sf.entries ≡ some es
    → main ≡ file
    → main.content ≡ json sf
    → decoded file.content ≡ some es
rw_decoded es file h e i = rw (sym e, i) h

same_file : {o : Option File} {x y : File} → o ≡ some x → o ≡ some y → x ≡ y
same_file e h = cc

module _ (f : LoadFaults) (now : ℕ) where
  unchanged : (b : LocalBackend) (e : StateError) → IsCoherent now b → Loads now b (err e, b)
  unchanged b e c = record { keeps = refl; coherent = IsCoherent-later now b c; sound = λ es h. cc }

  restored :
      (fault : Option String) (b : LocalBackend) (sf : StateFile)
      → stored b.disk ≡ some sf.entries
      → IsCoherent now b
      → Loads now b (ok sf.entries, restore_main fault now (json sf) b)
  unfolding restore_main
  restored (some e) b sf h c = record {
    keeps = refl;
    coherent = IsCoherent-later now b c;
    sound = λ es q. cc;
  }
  restored none b sf h c = record {
    keeps = sym h;
    coherent = IsCoherent-written now b (json sf) c;
    sound = λ es q. cc;
  }

  content-Loads :
      (b : LocalBackend) (content : Content)
      → stored b.disk ≡ decoded content
      → IsCoherent now b
      → Loads now b (load_backup_content f now content b)
  unfolding load_backup_content
  content-Loads b invalid h c = unchanged b (corrupted true) c
  content-Loads b (mistyped sf) h c = unchanged b (corrupted true) c
  content-Loads b (json sf) h c = restored f.restore b sf h c

  missing-Loads :
      (b : LocalBackend) (fault : Option String) (backup : Option File)
      → b.disk.main ≡ none
      → b.disk.backup ≡ backup
      → IsCoherent now b
      → Loads now b (load_from_backup f now fault backup b)
  unfolding load_from_backup
  missing-Loads b (some e) backup m k c = unchanged b (io_error e) c
  missing-Loads b none none m k c = record {
    keeps = refl;
    coherent = IsCoherent-later now b c;
    sound = λ es q. rw (m, k) cc;
  }
  missing-Loads b none (some file) m k c = content-Loads b file.content (rw (m, k) refl) c

  corrupted-Loads :
      (b : LocalBackend) (main : File) (fault : Option String) (backup : Option File)
      → b.disk.main ≡ some main
      → decoded main.content ≡ none
      → b.disk.backup ≡ backup
      → IsCoherent now b
      → Loads now b (recover_from_backup f now fault backup b)
  unfolding recover_from_backup
  corrupted-Loads b main (some e) backup m i k c = unchanged b (corrupted true) c
  corrupted-Loads b main none none m i k c = unchanged b (corrupted true) c
  corrupted-Loads b main none (some file) m i k c =
      content-Loads b file.content (rw (m, k, i) refl) c

  read-Loads :
      (b : LocalBackend) (main : File) (content : Content)
      → b.disk.main ≡ some main
      → main.content ≡ content
      → IsCoherent now b
      → Loads now b (read_main f now main.mod_time content b)
  unfolding read_main
  read-Loads b main invalid m i c =
      corrupted-Loads b main f.read_backup b.disk.backup m (ap decoded i) refl c
  read-Loads b main (mistyped sf) m i c =
      corrupted-Loads b main f.read_backup b.disk.backup m (ap decoded i) refl c
  read-Loads b main (json sf) m i c = record {
    keeps = refl;
    coherent = record {
      main_agrees = λ es file h e t. rw_decoded es file h (same_file m e) i;
      backup_agrees = λ es file h e t. c.files_agree main file m e t ∙ rw_decoded es main h refl i;
      files_agree = c.files_agree;
      main_older = λ file e. omega (arith, c.main_older file e);
      backup_older = λ file e. omega (arith, c.backup_older file e);
      cache_older = omega (arith, c.main_older main m);
    };
    sound = λ es q. rw (m, i) (cc);
  }

  after_read-Loads :
      (b : LocalBackend) (main : File) (fault : Option String)
      → b.disk.main ≡ some main
      → IsCoherent now b
      → Loads now b (after_read f now fault main b)
  unfolding after_read
  after_read-Loads b main (some e) m c = unchanged b (io_error e) c
  after_read-Loads b main none m c = read-Loads b main main.content m refl c

  main-Loads :
      (b : LocalBackend) (main : File) (cached : Option (List Entry))
      → b.disk.main ≡ some main
      → b.cached_entries ≡ cached
      → IsCoherent now b
      → Loads now b (load_main f now cached main b)
  unfolding load_main
  main-Loads b main none m k c = after_read-Loads b main f.read m c
  main-Loads b main (some es) m k c = elim (Bool-cases (eqb main.mod_time b.cache_mod_time)) [
    | inl t ↦ rw t (record {
      keeps = refl;
      coherent = IsCoherent-later now b c;
      sound = λ xs q. rw (m, c.main_agrees es main k m (ground (arith, t))) (same_entries q);
    })
    | inr t ↦ rw t (after_read-Loads b main f.read m c)
  ]

  after_stat-Loads :
      (b : LocalBackend) (fault : Option String) (main : Option File)
      → b.disk.main ≡ main
      → IsCoherent now b
      → Loads now b (after_stat f now fault main b)
  unfolding after_stat invalidate_cache
  after_stat-Loads b (some e) main m c = unchanged b (io_error e) c
  after_stat-Loads b none none m c =
      let r =
        missing-Loads (invalidate_cache b) f.read_backup b.disk.backup m refl
          (IsCoherent-dropped now b c) in
      record { keeps = r.keeps; coherent = r.coherent; sound = r.sound }
  after_stat-Loads b none (some file) m c = main-Loads b file b.cached_entries m refl c

pub load-Loads :
    (f : LoadFaults) (now : ℕ) (b : LocalBackend) → IsCoherent now b → Loads now b (load f now b)
unfolding load
load-Loads f now b c = after_stat-Loads f now b f.stat b.disk.main refl c

-- `Load` of a coherent backend, whatever system calls fail: when it returns entries, they are what the
-- files hold, whether they come from the cache, the state file or the backup. What the files hold does
-- not change, and the backend stays coherent.
pub load-stored :
    (f : LoadFaults) (now : ℕ) (b : LocalBackend) (es : List Entry)
    → IsCoherent now b
    → (load f now b).0 ≡ ok es
    → (stored b.disk ≡ some es)
      × (stored (load f now b).1.disk ≡ some es)
      × IsCoherent (suc now) (load f now b).1
load-stored f now b es c h =
    let r = load-Loads f now b c in (r.sound es h, r.keeps ∙ r.sound es h, r.coherent)

content-answer :
    (now : ℕ) (content : Content) (b : LocalBackend)
    → (load_backup_content no_load_faults now content b).0 ≡ answer (decoded content)
unfolding load_backup_content
content-answer now invalid b = refl
content-answer now (mistyped sf) b = refl
content-answer now (json sf) b = refl

missing-answer :
    (now : ℕ) (backup : Option File) (b : LocalBackend)
    → (load_from_backup no_load_faults now none backup b).0 ≡ answer (stored_in none backup)
unfolding load_from_backup
missing-answer now none b = refl
missing-answer now (some file) b = content-answer now file.content b

read-answer :
    (now t : ℕ) (content : Content) (backup : Option File) (b : LocalBackend)
    → b.disk.backup ≡ backup
    → (read_main no_load_faults now t content b).0
      ≡ answer (or_else (decoded content) (decoded_file backup))
unfolding read_main recover_from_backup
read-answer now t (json sf) backup b k = refl
read-answer now t invalid none b k = rw k refl
read-answer now t invalid (some file) b k = rw k (content-answer now file.content _)
read-answer now t (mistyped sf) none b k = rw k refl
read-answer now t (mistyped sf) (some file) b k = rw k (content-answer now file.content _)

main-answer :
    (now : ℕ) (b : LocalBackend) (main : File) (cached : Option (List Entry))
    → b.disk.main ≡ some main
    → b.cached_entries ≡ cached
    → IsCoherent now b
    → (load_main no_load_faults now cached main b).0
      ≡ answer (or_else (decoded main.content) (decoded_file b.disk.backup))
unfolding load_main after_read
main-answer now b main none m k c = read-answer now main.mod_time main.content b.disk.backup b refl
main-answer now b main (some es) m k c = elim (Bool-cases (eqb main.mod_time b.cache_mod_time)) [
  | inl t ↦ rw (t, c.main_agrees es main k m (ground (arith, t))) refl
  | inr t ↦ rw t (read-answer now main.mod_time main.content b.disk.backup b refl)
]

-- A coherent backend's `Load` when no system call fails: it returns what the files hold, or reports
-- the corruption when neither file can be read.
pub load-answer :
    (now : ℕ) (b : LocalBackend)
    → IsCoherent now b
    → (load no_load_faults now b).0 ≡ answer (stored b.disk)
unfolding load after_stat invalidate_cache
load-answer now b c = go b.disk.main refl
  where
    go :
        (main : Option File)
        → b.disk.main ≡ main
        → (after_stat no_load_faults now none main b).0 ≡ answer (stored_in main b.disk.backup)
    go none m = missing-answer now b.disk.backup (invalidate_cache b)
    go (some file) m = main-answer now b file b.cached_entries m refl c
