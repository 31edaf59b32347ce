-- ===== src/Examples/Serving.antt =====
-- internal/auth, internal/memory and internal/session on a client, an address and a session each.
use agentspec.Base.{
  ℕ, String, List, [], ◌∷◌, some, none, true, refl, arith, ◌≡◌, ◌≢◌, ◌+◌, ◌*◌, ◌-◌, ◌≤◌, inl, inr,
  In, if◌then◌else◌, leb, ◌==◌, eq_iff, Bool-cases, ◌++◌, length, ltb,
}
use agentspec.Base.Maps.{lookup, insert}
use agentspec.Base.Count.{count, Distinct}
use agentspec.Examples.Planning.{differ}
use agentspec.Auth.RateLimit.{
  Bucket, AuthBucket, RateLimiter, default_policy, token, second, minute, auth_failure,
  is_auth_blocked, settle_failure, count_failure, auth_window, evict_if_many,
}
use agentspec.Auth.RateLimit.Buckets.{allow_all, allow_all-tokens}
use agentspec.Auth.RateLimit.Blocking.{fail_all}
use agentspec.Auth.RateLimit.Blocking.Sane.{AuthCall, failure, success, calls, call}
use agentspec.Auth.RateLimit.Blocking.Others.{auth_failure-others}
use agentspec.Auth.RateLimit.Blocking.Count.{fail_all-blocks}
use agentspec.Memory.Lru.{Lru, promote, len}
use agentspec.Memory.Lru.Order.{promote-front}
use agentspec.Memory.SlidingWindow.{SlidingWindow, save}
use agentspec.Memory.SlidingWindow.Bounds.{save-Saved, Saved}
use agentspec.Session.MemoryStore.{Session, MemoryStore, get, touch, list, found}
use agentspec.Session.MemoryStore.Expiry.{touch-get, list-listed, listed}

abbrev bucket : Bucket
bucket = record { tokens = 20 * token; last_refill = 0; last_access = 0 }

abbrev nine_failures : AuthBucket
nine_failures = record { failures = 9; window_start = 100; blocked_until = 0 }

abbrev blocked : AuthBucket
blocked = record { failures = 10; window_start = 100; blocked_until = 300000000100 }

abbrev limiter : RateLimiter
limiter = record {
  config = record { requests_per_second = 10; burst = 20 };
  policy = default_policy;
  buckets = ("client", bucket) ∷ [];
  auth_failures = ("10.0.0.1", nine_failures) ∷ ("10.0.0.2", blocked) ∷ [];
}

abbrev unsorted : List (String × ℕ) → List (String × ℕ)
unsorted l = l

has_bucket : lookup "client" limiter.buckets ≡ some bucket
unfolding lookup
has_bucket = refl

allow_all-tokens_example :
    (allow_all unsorted "client" (second ∷ 2 * second ∷ []) limiter).0 * token
    ≤ 20 * token + (2 * second - 0) * 10
allow_all-tokens_example =
    allow_all-tokens unsorted "client" (second ∷ 2 * second ∷ []) bucket limiter has_bucket
      (omega arith, (omega arith, tt))

apart : ◌≡◌ {A = String} "10.0.0.1" "10.0.0.2" → ⊥
apart = differ "10.0.0.1" "10.0.0.2" refl

-- Nine failures, of which the tenth makes a block.
abbrev guess : AuthCall
guess = failure 100 "10.0.0.2"

abbrev guesses : List AuthCall
guesses = guess ∷ guess ∷ guess ∷ guess ∷ guess ∷ guess ∷ guess ∷ guess ∷ guess ∷ []

abbrev quiet : RateLimiter
quiet = record limiter { auth_failures = [] }

blocks : (auth_failure 200 "10.0.0.2" (calls guesses quiet)).0 ≡ true
unfolding auth_failure lookup insert settle_failure count_failure auth_window calls call
    evict_if_many
blocks = refl

auth_failure-others_example :
    (is_auth_blocked 1000 "10.0.0.2" (
      calls
        (failure 500 "10.0.0.1" ∷ success "10.0.0.1" ∷ [])
        (auth_failure 200 "10.0.0.2" (calls guesses quiet)).1)).0
    ≡ ltb 1000 (200 + 5 * minute)
auth_failure-others_example =
    auth_failure-others guesses (failure 500 "10.0.0.1" ∷ success "10.0.0.1" ∷ []) 200 1000
      "10.0.0.2" quiet refl blocks ((apart, omega arith), (apart, tt))

not_seen : lookup "10.0.0.3" limiter.auth_failures ≡ none
unfolding lookup
not_seen = refl

within_minute : (t : ℕ) → In t (500 ∷ 501 ∷ []) → t ≤ 500 + minute
within_minute t (inl e) = omega (arith, e)
within_minute t (inr (inl e)) = omega (arith, e)
within_minute t (inr (inr x)) = elim x [ ]

fail_all-blocks_example : (fail_all (500 ∷ 501 ∷ []) "10.0.0.3" limiter).0 ≡ leb 10 2
fail_all-blocks_example =
    fail_all-blocks 500 (501 ∷ []) "10.0.0.3" limiter not_seen within_minute (omega arith)

abbrev tracker : Lru
tracker = record { order = "s1" ∷ "s2" ∷ [] }

once_each : Distinct ("s1" ∷ "s2" ∷ [])
unfolding count
once_each k = elim (Bool-cases ("s1" == k)) [
  | inl t ↦ ground (arith, t, eq_iff "s1" k, eq_iff "s2" k, differ "s1" "s2" refl)
  | inr f ↦ ground (arith, f)
]

promote-front_example :
    (rest : List String) × ((promote "s2" tracker).order ≡ "s2" ∷ rest)
    × ((k : String) → count k rest ≡ (if k == "s2" then 0 else count k ("s1" ∷ "s2" ∷ [])))
promote-front_example = promote-front "s2" tracker once_each

abbrev memory : SlidingWindow String
memory = record {
  max_messages = 2;
  max_sessions = 2;
  sessions = ("s1", "hi" ∷ "hello" ∷ []) ∷ ("s2", "bye" ∷ []) ∷ [];
  lru = tracker;
}

all_named : count "" tracker.order ≡ 0
unfolding count
all_named = refl

not_empty : ◌≢◌ {A = String} "s1" ""
not_empty = differ "s1" "" refl

save-Saved_example :
    (dropped : List String) × (kept : List String) × ("hi" ∷ "hello" ∷ "new" ∷ [] ≡ dropped ++ kept)
    × (length kept ≡ 2)
    × Saved String "s1" kept (save String "s1" ("new" ∷ []) memory)
    × (len (save String "s1" ("new" ∷ []) memory).lru ≤ 2)
unfolding lookup
save-Saved_example =
    save-Saved String "s1" ("new" ∷ []) memory not_empty once_each all_named (omega arith)

abbrev session : Session
session = record { id = "a"; agent_name = "bot"; created_at = 1; last_active = 1; metadata = [] }

abbrev store : MemoryStore
store = record { sessions = ("a", session) ∷ []; expiry = 100; eviction_interval = 10 }

touched : (touch 50 "a" store).0 ≡ true
unfolding touch lookup
touched = refl

touch-get_example :
    (sess : Session) × (lookup "a" store.sessions ≡ some sess)
    × ((get 140 "a" (touch 50 "a" store).1).0 ≡ found (record sess { last_active = 50 }))
touch-get_example = touch-get 50 140 "a" store touched (omega arith)

list-listed_example : (list 102 "bot" store).0 ≡ listed 100 102 "bot" (session ∷ [])
list-listed_example = list-listed 102 "bot" store
