-- ===== src/State/Local/Query/Lookup.antt =====
-- What `Get` finds.
use agentspec.State.{Entry}
use agentspec.Plan.Sync.{last_entry, lookup-index_entries}
use agentspec.Plan.{index_entries}
use agentspec.State.Local.Query.Reached.{Reached, Reached-Right}
use agentspec.State.Local.Indexed.{IsIndexed}
use agentspec.State.Local.{
  load, load_main, after_stat, after_read, read_main, invalidate_cache, load_from_backup,
  load_backup_content, restore_main, no_load_faults, ok, LocalBackend, File, StateFile, json,
  mistyped, invalid, Content, Loaded, err,
}
use agentspec.State.Local.Coherent.{IsCoherent, decoded, decoded_file}
use agentspec.State.Local.Query.{get, after_load, count_lookup}
use agentspec.Base.{
  ℕ, String, refl, some, none, Option, List, arith, Bool-cases, inl, inr, eqb, ◌≡◌, ap, sym, ◌∙◌,
}
use agentspec.Base.Maps.{lookup}

abbrev Found : List Entry → Loaded (List Entry) × LocalBackend → Type 0
Found es r = (r.0 ≡ ok es) × (r.1.index ≡ index_entries es)

read-Found :
    (now t : ℕ) (content : Content) (b : LocalBackend) (es : List Entry)
    → decoded content ≡ some es
    → Found es (read_main no_load_faults now t content b)
unfolding read_main
read-Found now t invalid b es d = cc
read-Found now t (mistyped sf) b es d = cc
read-Found now t (json sf) b es d =
    let e = the_entries sf.entries es d in (ap ok e, ap index_entries e)
  where
    the_entries : (xs ys : List Entry) → some xs ≡ some ys → xs ≡ ys
    the_entries xs ys h = cc

main-Found :
    (now : ℕ) (b : LocalBackend) (file : File) (cached : Option (List Entry)) (es : List Entry)
    → b.disk.main ≡ some file
    → b.cached_entries ≡ cached
    → IsCoherent now b
    → IsIndexed b
    → decoded file.content ≡ some es
    → Found es (load_main no_load_faults now cached file b)
unfolding load_main after_read
main-Found now b file none es m k c i d = read-Found now file.mod_time file.content b es d
main-Found now b file (some xs) es m k c i d =
    elim (Bool-cases (eqb file.mod_time b.cache_mod_time)) [
      | inl t ↦
          let e = the_entries xs es (sym (c.main_agrees xs file k m (ground (arith, t))) ∙ d) in
          rw t (ap ok e, i xs k ∙ ap index_entries e)
      | inr t ↦ rw t (read-Found now file.mod_time file.content b es d)
    ]
  where
    the_entries : (xs ys : List Entry) → some xs ≡ some ys → xs ≡ ys
    the_entries xs ys h = cc

after_load-Found :
    (fqn : String) (es : List Entry) (r : Loaded (List Entry) × LocalBackend)
    → Found es r
    → (after_load fqn r).0 ≡ ok (last_entry fqn es)
unfolding after_load count_lookup
after_load-Found fqn es (err e, b) (h, i) = cc
after_load-Found fqn es (ok xs, b) (h, i) =
    counted (lookup fqn b.index) b ∙ ap ok (ap (lookup fqn) i ∙ lookup-index_entries fqn es)
  where
    counted : (o : Option Entry) (b' : LocalBackend) → (count_lookup o b').0 ≡ ok o
    counted none b' = refl
    counted (some e) b' = refl

stat-Found :
    (now : ℕ) (b : LocalBackend) (main : Option File) (es : List Entry)
    → b.disk.main ≡ main
    → IsCoherent now b
    → IsIndexed b
    → decoded_file main ≡ some es
    → Found es (after_stat no_load_faults now none main b)
unfolding after_stat
stat-Found now b none es m c i d = cc
stat-Found now b (some file) es m c i d = main-Found now b file b.cached_entries es m refl c i d

-- `Get` without a failing system call, of a backend with a readable state file that loads, saves, gets, lists
-- and writes of budgets and versions, at rising times and with whatever failures, have led to from a
-- coherent one with a cold cache: the last entry of the FQN in the state file, if there is one,
-- whether the cache is warm or not.
pub get-last_entry :
    (now : ℕ) (fqn : String) (b : LocalBackend) (es : List Entry)
    → decoded_file b.disk.main ≡ some es
    → Reached now b
    → (get no_load_faults now fqn b).0 ≡ ok (last_entry fqn es)
unfolding get load
get-last_entry now fqn b es d r =
    let (c, i) = Reached-Right now b r in
    after_load-Found fqn es _ (stat-Found now b b.disk.main es refl c i d)

-- `Get` after the state file went missing, when it is restored from the backup: nothing is found, whatever
-- entries the load returns.
pub get-restored :
    (now : ℕ) (fqn : String) (b : LocalBackend) (file : File) (sf : StateFile)
    → b.disk.main ≡ none
    → b.disk.backup ≡ some file
    → file.content ≡ json sf
    → ((load no_load_faults now b).0 ≡ ok sf.entries) × ((get no_load_faults now fqn b).0 ≡ ok none)
unfolding get load after_stat load_from_backup load_backup_content restore_main invalidate_cache
    after_load count_lookup lookup
get-restored now fqn b file sf m k j =
    rw (m, k, j, load_backup_content, load_from_backup, after_stat) (refl, refl)
