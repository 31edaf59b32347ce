-- ===== src/Memory/SlidingWindow.antt =====
-- internal/memory/sliding.go: a window of each session's last messages, over at most `max_sessions`
-- sessions. The locks make each operation one step; logging is left out.
pub mod Bounds
use agentspec.Base.{
  ℕ, suc, zero, ◌-◌, String, List, [], ◌++◌, Option, none, some, if◌then◌else◌, ltb, eqb, length,
  drop, ◌==◌, Bool, true,
}
use agentspec.Base.Maps.{Map, lookup, insert, erase}
use agentspec.Memory.Lru.{Lru, new_lru, promote, evict, remove, len}

-- internal/llm: a message, whose content is not looked at here.
module _ (Message : Type 0) where
  pub record SlidingWindow : Type 0 where
    pub max_messages : ℕ
    pub max_sessions : ℕ
    pub sessions : Map (List Message)
    pub lru : Lru

  -- `NewSlidingWindow` with the option `WithMaxSessions`, if it is given.
  abbrev pub max_sessions_option : Option ℕ → ℕ
  max_sessions_option none = 10000
  max_sessions_option (some n) = if eqb n 0 then 10000 else n

  unfoldable pub new_sliding_window : ℕ → Option ℕ → SlidingWindow
  new_sliding_window max_messages option = record {
    max_messages = if eqb max_messages 0 then 50 else max_messages;
    max_sessions = max_sessions_option option;
    sessions = [];
    lru = new_lru;
  }

  abbrev pub messages_of : Option (List Message) → List Message
  messages_of none = []
  messages_of (some ms) = ms

  -- `Load`
  unfoldable pub load : String → SlidingWindow → List Message × SlidingWindow
  load id s = (messages_of (lookup id s.sessions), record s { lru = promote id s.lru })

  -- The last `max_messages` messages.
  unfoldable pub window : ℕ → List Message → List Message
  window max_messages ms =
      if ltb max_messages (length ms) then drop (length ms - max_messages) ms else ms

  -- The loop of the eviction, which stops at a victim with an empty name, on fuel: the length of the
  -- tracker is enough.
  pub evict_sessions : ℕ → SlidingWindow → SlidingWindow
  evict_sessions zero s = s
  evict_sessions (suc fuel) s =
      let (victim, l) = evict s.lru in
      let rest = evict_sessions fuel (record s { lru = l; sessions = erase victim s.sessions }) in
      if ltb s.max_sessions (len s.lru)
      then if victim == "" then record s { lru = l } else rest
      else s

  -- `Save`
  unfoldable pub save : String → List Message → SlidingWindow → SlidingWindow
  unfolding evict_sessions
  save id messages s =
      let kept = window s.max_messages (messages_of (lookup id s.sessions) ++ messages) in
      let promoted = record s { sessions = insert id kept s.sessions; lru = promote id s.lru } in
      evict_sessions (len promoted.lru) promoted

  -- `Clear`
  unfoldable pub clear : String → SlidingWindow → SlidingWindow
  clear id s = record s { sessions = erase id s.sessions; lru = remove id s.lru }
