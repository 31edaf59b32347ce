-- ===== src/Auth/RateLimit/Blocking/Others.antt =====
-- A block through the authentications of others.
use agentspec.Base.{
  [], ◌∷◌, none, some, inl, inr, refl, List, String, ℕ, ◌<◌, Bool-cases, Option, ◌≡◌, ◌≢◌, ◌⊎◌,
  arith, leb, ltb, true, ◌∙◌, ◌≤◌, ◌+◌, eq_iff, false, length, ltb→lt, not, ◌*◌, eqb, sym, subst,
}
use agentspec.Base.Maps.{Map, lookup, lookup-erase, Unique, erase, insert-Unique}
use agentspec.Auth.RateLimit.{
  minute, auth_failure, auth_success, is_auth_blocked, AuthBucket, RateLimiter,
  evict_stale_auth_entries, blocked_or_expired, evict_if_many, settle_failure,
}
use agentspec.Auth.RateLimit.Blocking.{settle-block, settle-others, still_blocked, lookup-other}
use agentspec.Auth.RateLimit.Blocking.Sane.{
  AuthCall, failure, success, check, call, calls, Sane, lookup-AllSound, keep-lookup, call-Sane,
  calls-Sane, auth_failure-Sane, AllSound,
}

module _ (jp : String) (t : ℕ) where
  -- A call about another address, at the time t or before.
  abbrev pub Other : AuthCall → Type 0
  Other (failure now ip) = (ip ≢ jp) × (now ≤ t)
  Other (success ip) = ip ≢ jp
  Other (check now ip) = (ip ≢ jp) × (now ≤ t)

  abbrev pub OthersOnly : List AuthCall → Type 0
  OthersOnly [] = Unit
  OthersOnly (c ∷ cs) = Other c × OthersOnly cs

  module _ (b : AuthBucket) where
    abbrev Kept : Map AuthBucket → Type 0
    Kept m = lookup jp m ≡ some b

    -- The entry of the address, or none.
    abbrev Held : Map AuthBucket → Type 0
    Held m = Kept m ⊎ (lookup jp m ≡ none)

    Held-same : (m m' : Map AuthBucket) → lookup jp m' ≡ lookup jp m → Held m → Held m'
    Held-same m m' e (inl k) = inl (e ∙ k)
    Held-same m m' e (inr k) = inr (e ∙ k)

    erase-other :
        (ip : String) (m : Map AuthBucket) → ip ≢ jp → lookup jp (erase ip m) ≡ lookup jp m
    erase-other ip m ne = ground (arith, lookup-erase ip jp m, eq_iff ip jp, ne)

    many-Held : (now : ℕ) (m : Map AuthBucket) → Unique m → Held m → Held (evict_if_many now m)
    unfolding evict_if_many evict_stale_auth_entries
    many-Held now m u h = elim (Bool-cases (ltb 1000 (length m))) [
      | inl many ↦
          rw many
            (elim (keep-lookup _ jp m u) [ inl same ↦ Held-same m _ same h | inr gone ↦ inr gone ])
      | inr few ↦ rw few h
    ]

    settle-Held :
        (now : ℕ) (ip : String) (x : AuthBucket) (rl : RateLimiter)
        → ip ≢ jp
        → Unique rl.auth_failures
        → Held rl.auth_failures
        → Held (settle_failure now ip x rl).1.auth_failures
    unfolding settle_failure
    settle-Held now ip x rl ne u h = elim (Bool-cases (leb 10 x.failures)) [
      | inl full ↦
          rw full (Held-same rl.auth_failures _ (lookup-other ip jp _ rl.auth_failures ne) h)
      | inr room ↦ rw room (
          many-Held now _ (insert-Unique ip x rl.auth_failures u)
            (Held-same rl.auth_failures _ (lookup-other ip jp x rl.auth_failures ne) h))
    ]

    blocked-same :
        (now : ℕ) (ip : String) (o : Option AuthBucket) (rl : RateLimiter)
        → ip ≢ jp
        → lookup jp (blocked_or_expired now ip o rl).1.auth_failures ≡ lookup jp rl.auth_failures
    unfolding blocked_or_expired
    blocked-same now ip none rl ne = refl
    blocked-same now ip (some x) rl ne = elim (Bool-cases (ltb now x.blocked_until)) [
      | inl a ↦ rw a refl
      | inr a ↦ rw a (elim (Bool-cases (not (eqb x.blocked_until 0))) [
        | inl c ↦ rw c (erase-other ip rl.auth_failures ne)
        | inr c ↦ rw c refl
      ])
    ]

    call-Held :
        (c : AuthCall) (rl : RateLimiter)
        → Other c
        → Sane rl
        → Held rl.auth_failures
        → Held (call c rl).auth_failures
    unfolding call auth_failure auth_success is_auth_blocked
    call-Held (failure now ip) rl o s h = settle-Held now ip _ rl o.0 s.1 h
    call-Held (success ip) rl o s h =
        Held-same rl.auth_failures _ (erase-other ip rl.auth_failures o) h
    call-Held (check now ip) rl o s h =
        Held-same rl.auth_failures _ (blocked-same now ip _ rl o.0) h

    call-Kept :
        (c : AuthCall) (rl : RateLimiter)
        → Other c
        → t < b.blocked_until
        → Sane rl
        → Kept rl.auth_failures
        → Kept (call c rl).auth_failures
    unfolding call auth_failure auth_success is_auth_blocked
    call-Kept (failure now ip) rl o lt s h =
        settle-others now ip jp _ b rl o.0 h (omega (arith, o.1, lt))
          (lookup-AllSound jp b rl.auth_failures s.0 h)
    call-Kept (success ip) rl o lt s h = erase-other ip rl.auth_failures o ∙ h
    call-Kept (check now ip) rl o lt s h = blocked-same now ip _ rl o.0 ∙ h

    calls-Held :
        (cs : List AuthCall) (rl : RateLimiter)
        → OthersOnly cs
        → Sane rl
        → Held rl.auth_failures
        → Held (calls cs rl).auth_failures
    unfolding calls
    calls-Held [] rl o s h = h
    calls-Held (c ∷ cs) rl o s h =
        calls-Held cs (call c rl) o.1 (call-Sane c rl s) (call-Held c rl o.0 s h)

    calls-Kept :
        (cs : List AuthCall) (rl : RateLimiter)
        → OthersOnly cs
        → t < b.blocked_until
        → Sane rl
        → Kept rl.auth_failures
        → Kept (calls cs rl).auth_failures
    unfolding calls
    calls-Kept [] rl o lt s h = h
    calls-Kept (c ∷ cs) rl o lt s h =
        calls-Kept cs (call c rl) o.1 lt (call-Sane c rl s) (call-Kept c rl o.0 lt s h)

    over :
        (o : Option AuthBucket) (rl : RateLimiter)
        → (o ≡ some b) ⊎ (o ≡ none)
        → ltb t b.blocked_until ≡ false
        → (blocked_or_expired t jp o rl).0 ≡ false
    unfolding blocked_or_expired
    over none rl h f = refl
    over (some x) rl (inl e) f = ground (arith, e, f)
    over (some x) rl (inr e) f = cc

    blocked_until-ltb :
        (cs : List AuthCall) (rl : RateLimiter)
        → OthersOnly cs
        → Sane rl
        → Kept rl.auth_failures
        → (is_auth_blocked t jp (calls cs rl)).0 ≡ ltb t b.blocked_until
    unfolding is_auth_blocked
    blocked_until-ltb cs rl o s h = elim (Bool-cases (ltb t b.blocked_until)) [
      | inl lt ↦
          still_blocked t jp _ b (calls cs rl) (calls-Kept cs rl o (ltb→lt _ _ lt) s h)
            (ltb→lt _ _ lt)
          ∙ sym lt
      | inr ge ↦ over _ (calls cs rl) (calls-Held cs rl o s (inl h)) ge ∙ sym ge
    ]

-- From a limiter without entries, after any calls: when `AuthFailure` then reports a block of an address and
-- only calls about others follow, at times up to t, the address is blocked at t exactly if the five
-- minutes are not over, whatever the others fail, succeed or have looked up, and whatever the
-- eviction removes.
pub auth_failure-others :
    (earlier later : List AuthCall) (now t : ℕ) (jp : String) (rl : RateLimiter)
    → rl.auth_failures ≡ []
    → (auth_failure now jp (calls earlier rl)).0 ≡ true
    → OthersOnly jp t later
    → (is_auth_blocked t jp (calls later (auth_failure now jp (calls earlier rl)).1)).0
      ≡ ltb t (now + 5 * minute)
unfolding auth_failure
auth_failure-others earlier later now t jp rl empty h o =
    let s = calls-Sane earlier rl (subst (λ m. AllSound m × Unique m) (sym empty) (tt, tt)) in
    blocked_until-ltb jp t _ later _ o (auth_failure-Sane now jp _ s) (settle-block now jp _ _ h)
