-- ===== src/Session/MemoryStore.antt =====
-- internal/session/memory_store.go: the in-memory session store. Times are nanoseconds, `now` is the time
-- read by an operation, and the locks make each operation one step, so that the second check of an
-- expiry, under the write lock, finds what the first one found. A session is a value of the map; a
-- caller's pointer to it is left out. The new session's ID is an argument of `create`.
pub mod Expiry
use agentspec.Base.{
  ℕ, ◌-◌, String, List, [], ◌∷◌, ◌++◌, Option, none, some, Bool, true, false, not, ◌&&◌, ◌||◌,
  if◌then◌else◌, eqb, ltb, ◌==◌, keep,
}
use agentspec.Base.Maps.{Map, lookup, insert, erase, values}

pub record Session : Type 0 where
  pub id : String
  pub agent_name : String
  pub created_at : ℕ
  pub last_active : ℕ
  pub metadata : Map String

pub record MemoryStore : Type 0 where
  pub sessions : Map Session
  pub expiry : ℕ
  pub eviction_interval : ℕ

-- Five minutes.
abbrev pub default_eviction_interval : ℕ
default_eviction_interval = 300000000000

unfoldable pub new_memory_store : ℕ → ℕ → MemoryStore
new_memory_store expiry interval = record {
  sessions = [];
  expiry = expiry;
  eviction_interval = if eqb interval 0 then default_eviction_interval else interval;
}

-- An expiry of 0 is none.
unfoldable pub expired : ℕ → ℕ → Session → Bool
expired expiry now sess = not (eqb expiry 0) && ltb expiry (now - sess.last_active)

abbrev pub live_entry : ℕ → ℕ → String × Session → Bool
live_entry expiry now e = not (expired expiry now e.1)

-- `evict`, of which the logging is left out.
unfoldable pub evict : ℕ → MemoryStore → MemoryStore
evict now s = record s { sessions = keep (live_entry s.expiry now) s.sessions }

unfoldable pub create : ℕ → String → String → Map String → MemoryStore → Session × MemoryStore
create now id agent metadata s =
    let sess : Session = record {
      id = id;
      agent_name = agent;
      created_at = now;
      last_active = now;
      metadata = metadata;
    } in
    (sess, record s { sessions = insert id sess s.sessions })

pub data GetError : Type 0 where
  not_found session_expired : GetError

pub data Got : Type 0 where
  found : Session → Got
  missing : GetError → Got

pub get_found : ℕ → String → Option Session → MemoryStore → Got × MemoryStore
get_found now id none s = (missing not_found, s)
get_found now id (some sess) s =
    if expired s.expiry now sess
    then (missing session_expired, record s { sessions = erase id s.sessions })
    else (found sess, s)

unfoldable pub get : ℕ → String → MemoryStore → Got × MemoryStore
unfolding get_found
get now id s = get_found now id (lookup id s.sessions) s

unfoldable pub delete : String → MemoryStore → MemoryStore
delete id s = record s { sessions = erase id s.sessions }

-- The scan of `List`: the sessions of the result and the IDs that have expired.
pub scan : ℕ → ℕ → String → Map Session → List Session → List String → List Session × List String
scan expiry now agent [] result expired_ids = (result, expired_ids)
scan expiry now agent ((id, sess) ∷ rest) result expired_ids =
    if expired expiry now sess
    then scan expiry now agent rest result (expired_ids ++ id ∷ [])
    else if not (agent == "") && not (sess.agent_name == agent)
    then scan expiry now agent rest result expired_ids
    else scan expiry now agent rest (result ++ sess ∷ []) expired_ids

-- The deletion of the expired IDs, each checked again.
pub delete_expired : ℕ → ℕ → List String → Map Session → Map Session
delete_expired expiry now [] m = m
delete_expired expiry now (id ∷ ids) m = delete_expired expiry now ids (elim (lookup id m) [
  | none ↦ m
  | some sess ↦ if expired expiry now sess then erase id m else m
])

-- `List`
unfoldable pub list : ℕ → String → MemoryStore → List Session × MemoryStore
unfolding scan delete_expired
list now agent s =
    let (result, expired_ids) = scan s.expiry now agent s.sessions [] [] in
    (result, record s { sessions = delete_expired s.expiry now expired_ids s.sessions })

-- `Touch`, with `true` for no error.
pub touch_found : ℕ → String → Option Session → MemoryStore → Bool × MemoryStore
touch_found now id none s = (false, s)
touch_found now id (some sess) s =
    (true, record s { sessions = insert id (record sess { last_active = now }) s.sessions })

unfoldable pub touch : ℕ → String → MemoryStore → Bool × MemoryStore
unfolding touch_found
touch now id s = touch_found now id (lookup id s.sessions) s
