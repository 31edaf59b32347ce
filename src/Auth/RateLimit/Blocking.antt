-- ===== src/Auth/RateLimit/Blocking.antt =====
-- Failed authentications of one address, and what the eviction keeps of another.
pub mod Count
pub mod Sane
pub mod Others
use agentspec.Base.{
  ℕ, suc, String, List, [], ◌∷◌, some, none, Option, arith, eq_iff, if◌then◌else◌, ltb, leb, true,
  false, Bool-cases, inl, inr, keep, not, refl, Bool, ◌≡◌, ◌≤◌, ◌+◌, ◌<◌, ◌*◌, ◌⊎◌, In, eq_refl,
  ◌≢◌, length, ◌∙◌,
}
use agentspec.Base.Maps.{Map, lookup, insert, erase, lookup-insert, lookup-erase}
use agentspec.Auth.RateLimit.{
  minute, auth_block_dur, auth_window_dur, auth_failure, AuthBucket, RateLimiter,
  evict_stale_auth_entries, expired_auth, auth_window, count_failure, blocked_or_expired,
  evict_if_many, settle_failure,
}

-- A value that a filter keeps is found as before.
lookup-keep {ℓ} :
    {V : Type ℓ} (p : String × V → Bool) (k : String) (v : V) (m : Map V)
    → lookup k m ≡ some v
    → p (k, v) ≡ true
    → lookup k (keep p m) ≡ some v
unfolding lookup keep
lookup-keep p k v [] h t = cc
lookup-keep p k v ((j, w) ∷ m) h t = ground (arith, eq_iff j k, lookup-keep p k v m)

-- An address that is blocked is within six minutes of the start of its window.
abbrev pub IsSound : AuthBucket → Type 0
IsSound b = b.blocked_until ≤ b.window_start + 6 * minute

evict-keeps :
    (now : ℕ) (ip : String) (b : AuthBucket) (m : Map AuthBucket)
    → lookup ip m ≡ some b
    → now ≤ b.window_start + 10 * minute
    → (b.blocked_until ≡ 0) ⊎ (now ≤ b.blocked_until)
    → lookup ip (evict_stale_auth_entries now m) ≡ some b
unfolding evict_stale_auth_entries
evict-keeps now ip b m h w (inl z) = lookup-keep _ ip b m h (ground (arith, z, w))
evict-keeps now ip b m h w (inr z) = lookup-keep _ ip b m h (ground (arith, z, w))

pub many-keeps :
    (now : ℕ) (ip : String) (b : AuthBucket) (m : Map AuthBucket)
    → lookup ip m ≡ some b
    → now ≤ b.window_start + 10 * minute
    → (b.blocked_until ≡ 0) ⊎ (now ≤ b.blocked_until)
    → lookup ip (evict_if_many now m) ≡ some b
unfolding evict_if_many
many-keeps now ip b m h w z = elim (Bool-cases (ltb 1000 (length m))) [
  | inl t ↦ rw t (evict-keeps now ip b m h w z)
  | inr t ↦ rw t h
]

pub lookup-inserted {ℓ} :
    {V : Type ℓ} (k : String) (v : V) (m : Map V) → lookup k (insert k v m) ≡ some v
lookup-inserted k v m = ground (arith, lookup-insert k k v m, eq_refl k)

pub lookup-other {ℓ} :
    {V : Type ℓ} (k j : String) (v : V) (m : Map V) → k ≢ j → lookup j (insert k v m) ≡ lookup j m
lookup-other k j v m ne = ground (arith, lookup-insert k j v m, eq_iff k j)

pub settle-block :
    (now : ℕ) (ip : String) (b : AuthBucket) (rl : RateLimiter)
    → (settle_failure now ip b rl).0 ≡ true
    → lookup ip (settle_failure now ip b rl).1.auth_failures
      ≡ some (record b { blocked_until = now + auth_block_dur })
unfolding settle_failure
settle-block now ip b rl h = elim (Bool-cases (leb 10 b.failures)) [
  | inl t ↦ rw t (lookup-inserted ip _ rl.auth_failures)
  | inr t ↦ absurd (ground (arith, h, t))
]

pub settle-count :
    (now : ℕ) (ip : String) (b : AuthBucket) (rl : RateLimiter)
    → b.failures < 10
    → b.blocked_until ≡ 0
    → now ≤ b.window_start + minute
    → ((settle_failure now ip b rl).0 ≡ false)
      × (lookup ip (settle_failure now ip b rl).1.auth_failures ≡ some b)
unfolding settle_failure
settle-count now ip b rl few z w = elim (Bool-cases (leb 10 b.failures)) [
  | inl t ↦ absurd (ground (arith, few, t))
  | inr t ↦ rw t (
    refl,
    many-keeps now ip b _ (lookup-inserted ip b rl.auth_failures) (omega (arith, w)) (inl z),
  )
]

pub settle-others :
    (now : ℕ) (ip jp : String) (b c : AuthBucket) (rl : RateLimiter)
    → ip ≢ jp
    → lookup jp rl.auth_failures ≡ some c
    → now ≤ c.blocked_until
    → IsSound c
    → lookup jp (settle_failure now ip b rl).1.auth_failures ≡ some c
unfolding settle_failure
settle-others now ip jp b c rl ne h live sound = elim (Bool-cases (leb 10 b.failures)) [
  | inl t ↦ rw t (lookup-other ip jp _ rl.auth_failures ne ∙ h)
  | inr t ↦ rw t (
      many-keeps now jp c _ (lookup-other ip jp b rl.auth_failures ne ∙ h)
        (omega (arith, live, sound)) (inr live))
]

pub still_blocked :
    (t : ℕ) (ip : String) (o : Option AuthBucket) (b : AuthBucket) (rl : RateLimiter)
    → o ≡ some b
    → t < b.blocked_until
    → (blocked_or_expired t ip o rl).0 ≡ true
unfolding blocked_or_expired
still_blocked t ip none b rl h lt = cc
still_blocked t ip (some x) b rl h lt = ground arith

-- Failures of one address at the given times, with the last report.
unfoldable pub fail_all : List ℕ → String → RateLimiter → Bool × RateLimiter
fail_all [] ip rl = (false, rl)
fail_all (now ∷ []) ip rl = auth_failure now ip rl
fail_all (now ∷ next ∷ times) ip rl = fail_all (next ∷ times) ip (auth_failure now ip rl).1

-- The times stand within a minute of the start.
abbrev pub Within : ℕ → List ℕ → Type 0
Within start times = (t : ℕ) → In t times → t ≤ start + minute
