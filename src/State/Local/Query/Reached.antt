-- ===== src/State/Local/Query/Reached.antt =====
-- The backends that the operations lead to, from one with a cold cache: their cache and its index are right.
use agentspec.State.Local.Indexed.{Right, load-Right}
use agentspec.State.Local.Save.Indexed.{save-IsIndexed}
use agentspec.State.Local.Extras.Kept.{budgets-Right, version-Right}
use agentspec.Base.Maps.{lookup}
use agentspec.Base.{none, some, List, Option, ℕ, String, suc, ◌≡◌, ◌+◌}
use agentspec.State.{Entry, Status}
use agentspec.State.Local.{
  load, ok, err, LocalBackend, BudgetState, VersionEntry, LoadFaults, Loaded,
}
use agentspec.State.Local.Coherent.{IsCoherent}
use agentspec.State.Local.Save.{save, SaveFaults}
use agentspec.State.Local.Save.Stored.{save-Saves}
use agentspec.State.Local.Extras.{save_budgets, save_version}
use agentspec.State.Local.Query.{get, list, after_load, count_lookup}

-- A backend with a cold cache, and what the operations make of it, each at a time of its own and whatever
-- system calls fail.
pub data Reached : ℕ → LocalBackend → Type 0 where
  cold : {now : ℕ} {b : LocalBackend} → b.cached_entries ≡ none → IsCoherent now b → Reached now b
  loaded :
      {now : ℕ} {b : LocalBackend} (f : LoadFaults)
      → Reached now b
      → Reached (suc now) (load f now b).1
  saved :
      {now : ℕ} {b : LocalBackend} (f : SaveFaults) (es : List Entry)
      → Reached now b
      → Reached (suc now) (save f now es b).1
  got :
      {now : ℕ} {b : LocalBackend} (f : LoadFaults) (fqn : String)
      → Reached now b
      → Reached (suc now) (get f now fqn b).1
  listed :
      {now : ℕ} {b : LocalBackend} (f : LoadFaults) (status : Option Status)
      → Reached now b
      → Reached (suc now) (list f now status b).1
  budgeted :
      {now : ℕ} {b : LocalBackend} (read write : Option String) (budgets : List BudgetState)
      → Reached now b
      → Reached (suc now) (save_budgets read write now budgets b).1
  versioned :
      {now : ℕ} {b : LocalBackend} (read write : Option String) (agent : String)
      (entry : VersionEntry)
      → Reached now b
      → Reached (suc now) (save_version read write now agent entry b).1

-- A search changes the counters only.
after_load_same :
    (P : LocalBackend → Type 0)
    → ((b : LocalBackend) (hits misses : ℕ) → P b → P (record b { hits = hits; misses = misses }))
    → (fqn : String) (r : Loaded (List Entry) × LocalBackend) → P r.1
    → P (after_load fqn r).1
unfolding after_load count_lookup
after_load_same P counters fqn (err e, b) p = p
after_load_same P counters fqn (ok es, b) p = counted (lookup fqn b.index)
  where
    counted : (o : Option Entry) → P (count_lookup o b).1
    counted none = counters b b.hits (b.misses + 1) p
    counted (some e) = counters b (b.hits + 1) b.misses p

counters-Right :
    (now : ℕ) (b : LocalBackend) (hits misses : ℕ)
    → Right now b
    → Right now (record b { hits = hits; misses = misses })
counters-Right now b hits misses (c, i) = (
  record {
    main_agrees = c.main_agrees;
    backup_agrees = c.backup_agrees;
    files_agree = c.files_agree;
    main_older = c.main_older;
    backup_older = c.backup_older;
    cache_older = c.cache_older;
  },
  i,
)

pub Reached-Right : (now : ℕ) (b : LocalBackend) → Reached now b → Right now b
unfolding get list
Reached-Right now b (cold e c) = (c, λ es h. cc (e, h))
Reached-Right (suc now) b (loaded f r) = load-Right f now _ (Reached-Right now _ r)
Reached-Right (suc now) b (saved {b = old} f es r) =
    let (c, i) = Reached-Right now old r in
    ((save-Saves f now es old c).coherent, save-IsIndexed f now es old i)
Reached-Right (suc now) b (got {b = old} f fqn r) =
    after_load_same (Right (suc now)) (counters-Right (suc now)) fqn (load f now old)
      (load-Right f now old (Reached-Right now old r))
Reached-Right (suc now) b (listed f status r) = load-Right f now _ (Reached-Right now _ r)
Reached-Right (suc now) b (budgeted read write budgets r) =
    budgets-Right read write now budgets _ (Reached-Right now _ r)
Reached-Right (suc now) b (versioned read write agent entry r) =
    version-Right read write now agent entry _ (Reached-Right now _ r)
