-- ===== src/Auth/RateLimit/Blocking/Count.antt =====
-- How many failures within a minute block an address.
use agentspec.Base.Maps.{lookup}
use agentspec.Auth.RateLimit.Blocking.{fail_all, Within, settle-count}
use agentspec.Auth.RateLimit.{
  minute, auth_failure, settle_failure, auth_window, count_failure, AuthBucket, RateLimiter,
}
use agentspec.Base.{
  [], suc, refl, length, leb, arith, inl, inr, String, ℕ, List, ◌≡◌, ◌≤◌, ◌+◌, Bool-cases, none,
  ◌∷◌, ◌<◌, ap, some, ◌∙◌, ltb, ◌-◌,
}

same_window :
    (now : ℕ) (b : AuthBucket) → now ≤ b.window_start + minute → auth_window now (some b) ≡ b
unfolding auth_window
same_window now b w = elim (Bool-cases (ltb minute (now - b.window_start))) [
  | inl t ↦ absurd (ground (arith, w, t))
  | inr t ↦ rw t refl
]

settle-last :
    (now : ℕ) (ip : String) (b : AuthBucket) (rl : RateLimiter)
    → (settle_failure now ip b rl).0 ≡ leb 10 b.failures
unfolding settle_failure
settle-last now ip b rl = elim (Bool-cases (leb 10 b.failures)) [
  | inl t ↦ rw t refl
  | inr t ↦ rw t refl
]

-- What one failure leaves: the bucket it counted on, counted.
module _ (ip : String) where
  counted-next :
      (now : ℕ) (b : AuthBucket) (rl : RateLimiter)
      → auth_window now (lookup ip rl.auth_failures) ≡ b
      → b.blocked_until ≡ 0
      → now ≤ b.window_start + minute
      → suc b.failures < 10
      → lookup ip (auth_failure now ip rl).1.auth_failures ≡ some (count_failure b)
  unfolding auth_failure count_failure
  counted-next now b rl e z w few = rw e (settle-count now ip (count_failure b) rl few z w).1

  last-count :
      (now : ℕ) (b : AuthBucket) (rl : RateLimiter)
      → auth_window now (lookup ip rl.auth_failures) ≡ b
      → (auth_failure now ip rl).0 ≡ leb 10 (b.failures + 1)
  unfolding auth_failure count_failure
  last-count now b rl e = rw e (settle-last now ip (count_failure b) rl ∙ ground arith)

  fail_all-count :
      (now : ℕ) (times : List ℕ) (b : AuthBucket) (rl : RateLimiter)
      → auth_window now (lookup ip rl.auth_failures) ≡ b
      → b.blocked_until ≡ 0
      → Within b.window_start (now ∷ times)
      → b.failures + length (now ∷ times) ≤ 10
      → (fail_all (now ∷ times) ip rl).0 ≡ leb 10 (b.failures + length (now ∷ times))
  unfolding fail_all count_failure
  fail_all-count now [] b rl e z w few = last-count now b rl e
  fail_all-count now (next ∷ times) b rl e z w few =
      fail_all-count next times (count_failure b) (auth_failure now ip rl).1
        (ap (auth_window next) (counted-next now b rl e z (w now (inl refl)) (omega (arith, few)))
          ∙ same_window next (count_failure b) (w next (inr (inl refl))))
        z (λ t i. w t (inr i)) (omega (arith, few))
      ∙ ap (leb 10) (omega arith)

-- An address with no failures on record that fails up to ten times within a minute is reported blocked
-- at the tenth failure and not before.
pub fail_all-blocks :
    (now : ℕ) (times : List ℕ) (ip : String) (rl : RateLimiter)
    → lookup ip rl.auth_failures ≡ none
    → Within now (now ∷ times)
    → length (now ∷ times) ≤ 10
    → (fail_all (now ∷ times) ip rl).0 ≡ leb 10 (length (now ∷ times))
unfolding auth_window
fail_all-blocks now times ip rl h w few =
    fail_all-count ip now times (record { failures = 0; window_start = now; blocked_until = 0 }) rl
      (ap (auth_window now) h) refl w (omega (arith, few))
    ∙ ap (leb 10) (omega arith)
