-- ===== src/Auth/RateLimit.antt =====
-- internal/auth/ratelimit.go with internal/eviction/policy.go. Times and durations are nanoseconds, with
-- 0 for the zero time. Tokens are counted in billionths: a rate is a whole number of requests per
-- second, and the rounding of float64 is left out. Go's map is taken in the order of insertion, and
-- `sort.Slice` is a parameter. The locks make each operation one step; the clock does not go back.
pub mod Buckets
pub mod Blocking
use agentspec.Base.{
  ℕ, suc, ◌+◌, ◌-◌, ◌*◌, String, List, [], ◌∷◌, Option, none, some, Bool, true, false, not, ◌&&◌,
  ◌||◌, if◌then◌else◌, ltb, leb, eqb, length, map, keep, take, ◌/◌,
}
use agentspec.Base.Maps.{Map, lookup, insert, erase, has}

-- internal/eviction/policy.go
pub record EvictionPolicy : Type 0 where
  pub max_entries : ℕ
  pub ttl : ℕ
  pub eviction_interval : ℕ

abbrev pub second : ℕ
second = 1000000000

abbrev pub minute : ℕ
minute = 60000000000

abbrev pub default_policy : EvictionPolicy
default_policy = record { max_entries = 10000; ttl = 10 * minute; eviction_interval = 5 * minute }

-- `Validate`, with `true` for no error.
unfoldable pub validate_policy : EvictionPolicy → Bool
validate_policy p =
    not (eqb p.max_entries 0)
    && not (eqb p.ttl 0)
    && not (eqb p.eviction_interval 0)
    && not (leb p.ttl p.eviction_interval)

pub record RateLimitConfig : Type 0 where
  pub requests_per_second : ℕ
  pub burst : ℕ

pub record Bucket : Type 0 where
  pub tokens : ℕ
  pub last_refill : ℕ
  pub last_access : ℕ

pub record AuthBucket : Type 0 where
  pub failures : ℕ
  pub window_start : ℕ
  pub blocked_until : ℕ

pub record RateLimiter : Type 0 where
  pub config : RateLimitConfig
  pub policy : EvictionPolicy
  pub buckets : Map Bucket
  pub auth_failures : Map AuthBucket

abbrev is_zero_policy : EvictionPolicy → Bool
is_zero_policy p = eqb p.max_entries 0 && eqb p.ttl 0 && eqb p.eviction_interval 0

unfoldable pub new_rate_limiter : RateLimitConfig → EvictionPolicy → RateLimiter
new_rate_limiter config policy = record {
  config = config;
  policy = if is_zero_policy policy then default_policy else policy;
  buckets = [];
  auth_failures = [];
}

abbrev pub auth_max_failures : ℕ
auth_max_failures = 10

abbrev pub auth_window_dur : ℕ
auth_window_dur = minute

abbrev pub auth_block_dur : ℕ
auth_block_dur = 5 * minute

abbrev pub auth_evict_interval : ℕ
auth_evict_interval = 10 * minute

-- One token.
abbrev pub token : ℕ
token = second

unfoldable pub new_bucket : RateLimitConfig → ℕ → Bucket
new_bucket config now = record {
  tokens = config.burst * token;
  last_refill = now;
  last_access = now;
}

-- The refill of `Allow`, up to the burst.
unfoldable pub refill : RateLimitConfig → ℕ → Bucket → Bucket
refill config now b =
    let tokens = b.tokens + (now - b.last_refill) * config.requests_per_second in
    record {
      tokens = if ltb (config.burst * token) tokens then config.burst * token else tokens;
      last_refill = now;
      last_access = now;
    }

-- A request takes a token if there is a whole one.
unfoldable pub take_token : Bucket → Bool × Bucket
take_token b =
    if ltb b.tokens token then (false, b) else (true, record b { tokens = b.tokens - token })

pub remove_keys : List String → Map Bucket → Map Bucket
remove_keys [] m = m
remove_keys (k ∷ ks) m = remove_keys ks (erase k m)

abbrev pub access_of : String × Bucket → String × ℕ
access_of e = (e.0, e.1.last_access)

abbrev pub stale : ℕ → String × Bucket → Bool
stale cutoff e = ltb e.1.last_access cutoff

-- `evictStale` at `now`, with the number of buckets removed. The zero time stands for every time
-- before it.
unfoldable pub evict_stale : ℕ → RateLimiter → ℕ × RateLimiter
evict_stale now rl =
    let fresh = keep (λ e. not (stale (now - rl.policy.ttl) e)) rl.buckets in
    (length rl.buckets - length fresh, record rl { buckets = fresh })

-- `sort.Slice` of the keys by their last access.
module _ (sort_by_access : List (String × ℕ) → List (String × ℕ)) where
  unfoldable pub evict_oldest : ℕ → Map Bucket → Map Bucket
  unfolding remove_keys
  evict_oldest n m = remove_keys (map (λ e. e.0) (take n (sort_by_access (map access_of m)))) m

  unfoldable pub add_bucket : String → Bucket → RateLimiter → RateLimiter
  unfolding evict_oldest
  add_bucket key b rl =
      let buckets = insert key b rl.buckets in
      record rl {
        buckets =
            if ltb rl.policy.max_entries (length buckets)
            then evict_oldest (length buckets - rl.policy.max_entries) buckets
            else buckets;
      }

  -- The bucket's fields are written through a pointer: a bucket that the eviction has removed stays
  -- removed.
  unfoldable pub use_bucket : ℕ → String → Bucket → RateLimiter → Bool × RateLimiter
  use_bucket now key b rl =
      let (allowed, b') = take_token (refill rl.config now b) in
      (
        allowed,
        record rl { buckets = if has key rl.buckets then insert key b' rl.buckets else rl.buckets },
      )

  pub allow_found : ℕ → ℕ → String → Option Bucket → RateLimiter → Bool × RateLimiter
  allow_found created now key (some b) rl = use_bucket now key b rl
  allow_found created now key none rl =
      let b = new_bucket rl.config created in use_bucket now key b (add_bucket key b rl)

  -- `Allow`, which reads the clock when it makes a bucket and when it uses one.
  unfoldable pub allow : ℕ → ℕ → String → RateLimiter → Bool × RateLimiter
  unfolding use_bucket add_bucket allow_found
  allow created now key rl = allow_found created now key (lookup key rl.buckets) rl

-- `IsAuthBlocked`: a block that is over is forgotten.
pub blocked_or_expired : ℕ → String → Option AuthBucket → RateLimiter → Bool × RateLimiter
blocked_or_expired now ip none rl = (false, rl)
blocked_or_expired now ip (some b) rl =
    if ltb now b.blocked_until
    then (true, rl)
    else if not (eqb b.blocked_until 0)
    then (false, record rl { auth_failures = erase ip rl.auth_failures })
    else (false, rl)

unfoldable pub is_auth_blocked : ℕ → String → RateLimiter → Bool × RateLimiter
unfolding blocked_or_expired
is_auth_blocked now ip rl = blocked_or_expired now ip (lookup ip rl.auth_failures) rl

abbrev pub expired_auth : ℕ → AuthBucket → Bool
expired_auth now b =
    (not (eqb b.blocked_until 0) && ltb b.blocked_until now)
    || ltb auth_evict_interval (now - b.window_start)

unfoldable pub evict_stale_auth_entries : ℕ → Map AuthBucket → Map AuthBucket
evict_stale_auth_entries now m = keep (λ e. not (expired_auth now e.1)) m

-- The bucket that a failure counts on: a new one, or the old one with its window begun again.
unfoldable pub auth_window : ℕ → Option AuthBucket → AuthBucket
auth_window now none = record { failures = 0; window_start = now; blocked_until = 0 }
auth_window now (some b) =
    if ltb auth_window_dur (now - b.window_start)
    then record b { failures = 0; window_start = now }
    else b

unfoldable pub count_failure : AuthBucket → AuthBucket
count_failure b = record b { failures = suc b.failures }

-- Stale entries are looked for when there are many.
unfoldable pub evict_if_many : ℕ → Map AuthBucket → Map AuthBucket
evict_if_many now m = if ltb 1000 (length m) then evict_stale_auth_entries now m else m

-- After the count: the block, or the eviction.
unfoldable pub settle_failure : ℕ → String → AuthBucket → RateLimiter → Bool × RateLimiter
settle_failure now ip b rl =
    if leb auth_max_failures b.failures
    then (
      true,
      record rl {
        auth_failures =
            insert ip (record b { blocked_until = now + auth_block_dur }) rl.auth_failures;
      },
    )
    else (false, record rl { auth_failures = evict_if_many now (insert ip b rl.auth_failures) })

-- `AuthFailure`
unfoldable pub auth_failure : ℕ → String → RateLimiter → Bool × RateLimiter
auth_failure now ip rl =
    settle_failure now ip (count_failure (auth_window now (lookup ip rl.auth_failures))) rl

unfoldable pub auth_success : String → RateLimiter → RateLimiter
auth_success ip rl = record rl { auth_failures = erase ip rl.auth_failures }

-- `AuthBlockRetryAfter`
retry_after : ℕ → Option AuthBucket → ℕ
retry_after now none = 0
retry_after now (some b) =
    if leb b.blocked_until now then 0 else (b.blocked_until - now) / second + 1

unfoldable pub auth_block_retry_after : ℕ → String → RateLimiter → ℕ
unfolding retry_after
auth_block_retry_after now ip rl = retry_after now (lookup ip rl.auth_failures)
