-- ===== src/Auth/RateLimit/Buckets.antt =====
use native.Mathlib.Nat.{add-mul}
-- How many requests one client gets through.
use agentspec.Auth.RateLimit.{
  Bucket, RateLimitConfig, RateLimiter, token, refill, take_token, use_bucket, allow, allow_found,
}
use agentspec.Base.{
  ℕ, String, List, [], ◌∷◌, some, none, Option, arith, refl, true, false, Bool-cases, inl, inr, ltb,
  ◌*◌, Bool, ◌≤◌, ◌+◌, ◌-◌, ◌≡◌, if◌then◌else◌, eq_refl, subst, ap, sym, ◌∙◌,
}
use agentspec.Base.Maps.{lookup, lookup-insert, has, is_some}

abbrev pub granted : Bool → ℕ
granted true = 1
granted false = 0

-- A token that is taken was there.
take_token-tokens :
    (b : Bucket) → granted (take_token b).0 * token + (take_token b).1.tokens ≡ b.tokens
unfolding take_token
take_token-tokens b = elim (Bool-cases (ltb b.tokens token)) [
  | inl t ↦ rw t (omega arith)
  | inr t ↦ rw t (ground (arith, t))
]

cap-le : (c x : ℕ) → ((if ltb c x then c else x) ≤ x) × ((if ltb c x then c else x) ≤ c)
cap-le c x = (ground arith, ground arith)

refill-tokens :
    (config : RateLimitConfig) (now : ℕ) (b : Bucket)
    → ((refill config now b).tokens ≤ b.tokens + (now - b.last_refill) * config.requests_per_second)
      × ((refill config now b).tokens ≤ config.burst * token)
unfolding refill
refill-tokens config now b = cap-le (config.burst * token) _

-- One request on a bucket.
abbrev served : RateLimitConfig → ℕ → Bucket → Bool × Bucket
served config now b = take_token (refill config now b)

served-tokens :
    (config : RateLimitConfig) (now : ℕ) (b : Bucket)
    → granted (served config now b).0 * token + (served config now b).1.tokens
      ≤ b.tokens + (now - b.last_refill) * config.requests_per_second
served-tokens config now b =
    omega (arith, take_token-tokens (refill config now b), (refill-tokens config now b).0)

served-refill :
    (config : RateLimitConfig) (now : ℕ) (b : Bucket) → (served config now b).1.last_refill ≡ now
unfolding take_token refill
served-refill config now b = ground arith

-- A stretch of time split in two refills as much.
refill-split : (l n z r : ℕ) → l ≤ n → n ≤ z → (z - l) * r ≡ (n - l) * r + (z - n) * r
refill-split l n z r a b = ap (λ x. x * r) (omega (arith, a, b)) ∙ add-mul (n - l) (z - n) r

chain :
    (g m t₀ t₁ l n z r : ℕ)
    → g * token + t₁ ≤ t₀ + (n - l) * r
    → m * token ≤ t₁ + (z - n) * r
    → l ≤ n
    → n ≤ z
    → (g + m) * token ≤ t₀ + (z - l) * r
chain g m t₀ t₁ l n z r a b c d = omega (arith, a, b, refill-split l n z r c d)

module _ (sort_by_access : List (String × ℕ) → List (String × ℕ)) (key : String) where
  -- Requests of one client at the given times, with the number that is let through.
  unfoldable pub allow_all : List ℕ → RateLimiter → ℕ × RateLimiter
  allow_all [] rl = (0, rl)
  allow_all (now ∷ times) rl =
      let (allowed, rl') = allow sort_by_access now now key rl in
      let (count, rl'') = allow_all times rl' in (granted allowed + count, rl'')

  -- The times do not go back.
  abbrev pub Rising : ℕ → List ℕ → Type 0
  Rising last [] = Unit
  Rising last (now ∷ times) = (last ≤ now) × Rising now times

  abbrev pub last_time : ℕ → List ℕ → ℕ
  last_time last [] = last
  last_time last (now ∷ times) = last_time now times

  last_time-le : (last : ℕ) (times : List ℕ) → Rising last times → last ≤ last_time last times
  last_time-le last [] r = omega arith
  last_time-le last (now ∷ times) r = omega (arith, r.0, last_time-le now times r.1)

  rest_at :
      (m t : ℕ) {n n' r r' : ℕ} (times : List ℕ)
      → n' ≡ n
      → r' ≡ r
      → m * token ≤ t + (last_time n' times - n') * r'
      → m * token ≤ t + (last_time n times - n) * r
  rest_at m t {n} {n'} {r} {r'} times e c h =
      subst (λ x. m * token ≤ t + (last_time x times - x) * r) e
        (subst (λ y. m * token ≤ t + (last_time n' times - n') * y) c h)

  abbrev Serves : ℕ → Bucket → RateLimiter → Bool × RateLimiter → Type 0
  Serves now b rl r =
      (r.0 ≡ (served rl.config now b).0)
      × (lookup key r.1.buckets ≡ some (served rl.config now b).1)
      × (r.1.config ≡ rl.config)

  use-Serves :
      (now : ℕ) (b : Bucket) (rl : RateLimiter)
      → has key rl.buckets ≡ true
      → Serves now b rl (use_bucket sort_by_access now key b rl)
  unfolding use_bucket
  use-Serves now b rl h = (
    refl,
    rw h (ground (arith, lookup-insert key key (served rl.config now b).1 rl.buckets, eq_refl key)),
    refl,
  )

  found-Serves :
      (now : ℕ) (o : Option Bucket) (b : Bucket) (rl : RateLimiter)
      → lookup key rl.buckets ≡ o
      → o ≡ some b
      → Serves now b rl (allow_found sort_by_access now now key o rl)
  unfolding allow_found has
  found-Serves now none b rl h e = cc
  found-Serves now (some x) b rl h e =
      subst (λ y. Serves now y rl (use_bucket sort_by_access now key x rl)) (the_bucket x b e)
        (use-Serves now x rl (ap is_some h))
    where
      the_bucket : (x y : Bucket) → some x ≡ some y → x ≡ y
      the_bucket x y h = cc

  -- While no other client is served in between, whose new bucket could evict this one's, a client with a
  -- bucket is let through at most as often as its tokens and the refill since the last request
  -- allow, whenever its requests come, as long as the clock does not go back.
  pub allow_all-tokens :
      (times : List ℕ) (b : Bucket) (rl : RateLimiter)
      → lookup key rl.buckets ≡ some b
      → Rising b.last_refill times
      → (allow_all times rl).0 * token
        ≤ b.tokens + (last_time b.last_refill times - b.last_refill) * rl.config.requests_per_second
  unfolding allow_all allow
  allow_all-tokens [] b rl h rising = omega arith
  allow_all-tokens (now ∷ times) b rl h rising =
      let (e, k, c) = found-Serves now (lookup key rl.buckets) b rl refl h in
      let l = served-refill rl.config now b in
      let rest =
        allow_all-tokens times (served rl.config now b).1 (allow sort_by_access now now key rl).1 k
          (subst (λ n. Rising n times) (sym l) rising.1) in
      chain (granted (allow sort_by_access now now key rl).0) _ b.tokens
        (served rl.config now b).1.tokens b.last_refill now (last_time now times)
        rl.config.requests_per_second
        (subst
          (λ a.
            granted a * token + (served rl.config now b).1.tokens
            ≤ b.tokens + (now - b.last_refill) * rl.config.requests_per_second)
          (sym e) (served-tokens rl.config now b))
        (rest_at _ _ times l (ap (λ x. x.requests_per_second) c) rest) rising.0
        (last_time-le now times rising.1)
