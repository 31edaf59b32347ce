-- ===== src/State/Local/Extras/Kept.antt =====
-- The writes of budgets and versions keep the cache right.
use agentspec.Base.{none, some, List, Option, ℕ, String, suc}
use agentspec.State.Local.{json, LocalBackend, BudgetState, VersionEntry, StateFile}
use agentspec.State.Local.Coherent.{IsCoherent-later, IsCoherent-written}
use agentspec.State.Local.Extras.{save_budgets, save_version, write_state_file}
use agentspec.State.Local.Indexed.{Right}

write-Right :
    (fault : Option String) (now : ℕ) (sf : StateFile) (b : LocalBackend)
    → Right now b
    → Right (suc now) (write_state_file fault now sf b).1
unfolding write_state_file
write-Right (some e) now sf b (c, i) = (IsCoherent-later now b c, i)
write-Right none now sf b (c, i) = (IsCoherent-written now b (json sf) c, i)

pub budgets-Right :
    (read write : Option String) (now : ℕ) (budgets : List BudgetState) (b : LocalBackend)
    → Right now b
    → Right (suc now) (save_budgets read write now budgets b).1
unfolding save_budgets
budgets-Right (some e) write now budgets b (c, i) = (IsCoherent-later now b c, i)
budgets-Right none write now budgets b r = write-Right write now _ b r

pub version-Right :
    (read write : Option String) (now : ℕ) (agent : String) (entry : VersionEntry)
    (b : LocalBackend)
    → Right now b
    → Right (suc now) (save_version read write now agent entry b).1
unfolding save_version
version-Right (some e) write now agent entry b (c, i) = (IsCoherent-later now b c, i)
version-Right none write now agent entry b r = write-Right write now _ b r
