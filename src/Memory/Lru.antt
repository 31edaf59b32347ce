-- ===== src/Memory/Lru.antt =====
-- internal/memory/lru.go: the order in which sessions were used. The linked list of container/list is
-- a list, the most recent session first, and the map from a session to its list element is the search
-- for it in the list.
pub mod Order
use agentspec.Base.{
  ℕ, String, List, [], ◌∷◌, Option, none, some, Bool, true, false, ◌==◌, if◌then◌else◌, length,
  ◌||◌,
}

pub record Lru : Type 0 where
  pub order : List String

abbrev pub new_lru : Lru
new_lru = record { order = [] }

pub has_session : String → List String → Bool
has_session id [] = false
has_session id (x ∷ xs) = x == id || has_session id xs

-- `order.Remove` of a session's element.
pub remove_element : String → List String → List String
remove_element id [] = []
remove_element id (x ∷ xs) = let rest = remove_element id xs in if x == id then xs else x ∷ rest

-- `Promote`: `MoveToFront` of a known session, `PushFront` of a new one.
unfoldable pub promote : String → Lru → Lru
unfolding has_session remove_element
promote id l = record {
  order = if has_session id l.order then id ∷ remove_element id l.order else id ∷ l.order;
}

-- The list without its back element, with that element.
pub split_back : String → List String → List String × String
split_back x [] = ([], x)
split_back x (y ∷ ys) = let (front, back) = split_back y ys in (x ∷ front, back)

-- `Evict`: the least recently used session, or "" when there is none.
pub evict_back : List String → Lru → String × Lru
evict_back [] l = ("", l)
evict_back (x ∷ xs) l = let (front, back) = split_back x xs in (back, record { order = front })

unfoldable pub evict : Lru → String × Lru
unfolding split_back evict_back
evict l = evict_back l.order l

-- `Remove`
unfoldable pub remove : String → Lru → Lru
unfolding has_session remove_element
remove id l = if has_session id l.order then record { order = remove_element id l.order } else l

-- `Len`
abbrev pub len : Lru → ℕ
len l = length l.order
