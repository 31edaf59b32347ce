-- ===== src/State/Local/Query.antt =====
-- internal/state/local.go: `Get` and `List`.
pub mod Reached
pub mod Lookup
use agentspec.Base.Maps.{lookup}
use mathlib.Core.Bool.{decide}
use agentspec.State.Local.{LoadFaults, Loaded, LocalBackend, err, load, ok}
use agentspec.Base.{Bool, Option, String, ℕ, List, some, none, ◌+◌, keep}
use agentspec.State.{Entry, Status, Status-discrete}

count_lookup : Option Entry → LocalBackend → Loaded (Option Entry) × LocalBackend
count_lookup (some e) b = (ok (some e), record b { hits = b.hits + 1 })
count_lookup none b = (ok none, record b { misses = b.misses + 1 })

after_load : String → Loaded (List Entry) × LocalBackend → Loaded (Option Entry) × LocalBackend
after_load fqn (err e, b) = (err e, b)
after_load fqn (ok es, b) = count_lookup (lookup fqn b.index) b

-- `Get`: `ensureCache` is a `Load` on both of its branches, and the answer is the index's.
unfoldable pub get : LoadFaults → ℕ → String → LocalBackend → Loaded (Option Entry) × LocalBackend
unfolding count_lookup after_load
get f now fqn b = after_load fqn (load f now b)

has_status : Status → Entry → Bool
has_status status e = decide (Status-discrete e.status status)

filter_status : Option Status → Loaded (List Entry) → Loaded (List Entry)
unfolding has_status
filter_status status (err e) = err e
filter_status none (ok es) = ok es
filter_status (some status) (ok es) = ok (keep (has_status status) es)

unfoldable pub list :
    LoadFaults → ℕ → Option Status → LocalBackend → Loaded (List Entry) × LocalBackend
unfolding filter_status
list f now status b = let (loaded, b') = load f now b in (filter_status status loaded, b')
