-- ===== src/Auth/RateLimit/Blocking/Sane.antt =====
-- What every sequence of authentications keeps of the limiter's entries.
use agentspec.Base.{
  [], ◌∷◌, none, some, inl, inr, refl, List, String, ℕ, ◌≡◌, Bool-cases, ◌==◌, arith, subst, Option,
  keep, ◌≤◌, ◌+◌, Bool, ltb, ◌-◌, leb, length, not, ◌∙◌, ◌⊎◌, ap, eqb, sym, eq_iff,
}
use agentspec.Base.Maps.{Map, lookup, erase, insert, Unique, erase-Unique, insert-Unique}
use agentspec.Auth.RateLimit.{
  minute, auth_failure, auth_success, is_auth_blocked, AuthBucket, RateLimiter,
  evict_stale_auth_entries, auth_window, count_failure, blocked_or_expired, evict_if_many,
  settle_failure,
}
use agentspec.Auth.RateLimit.Blocking.{IsSound}

-- A call of the limiter about the authentication of an address.
pub data AuthCall : Type 0 where
  failure : ℕ → String → AuthCall
  success : String → AuthCall
  check : ℕ → String → AuthCall

unfoldable pub call : AuthCall → RateLimiter → RateLimiter
call (failure now ip) rl = (auth_failure now ip rl).1
call (success ip) rl = auth_success ip rl
call (check now ip) rl = (is_auth_blocked now ip rl).1

unfoldable pub calls : List AuthCall → RateLimiter → RateLimiter
calls [] rl = rl
calls (c ∷ cs) rl = calls cs (call c rl)

-- Every entry is sound, and no address stands twice.
abbrev pub AllSound : Map AuthBucket → Type 0
AllSound [] = Unit
AllSound (e ∷ m) = IsSound e.1 × AllSound m

abbrev pub Sane : RateLimiter → Type 0
Sane rl = AllSound rl.auth_failures × Unique rl.auth_failures

pub lookup-AllSound :
    (k : String) (b : AuthBucket) (m : Map AuthBucket)
    → AllSound m
    → lookup k m ≡ some b
    → IsSound b
unfolding lookup
lookup-AllSound k b [] a h = cc
lookup-AllSound k b (e ∷ m) a h = elim (Bool-cases (e.0 == k)) [
  | inl t ↦ subst IsSound (the_bucket e.1 b (ground (arith, t, h))) a.0
  | inr f ↦ lookup-AllSound k b m a.1 (ground (arith, f, h))
]
  where
    the_bucket : (x y : AuthBucket) → some x ≡ some y → x ≡ y
    the_bucket x y h = cc

insert-AllSound :
    (k : String) (b : AuthBucket) (m : Map AuthBucket)
    → IsSound b
    → AllSound m
    → AllSound (insert k b m)
unfolding insert
insert-AllSound k b [] s a = (s, tt)
insert-AllSound k b (e ∷ m) s a = elim (Bool-cases (e.0 == k)) [
  | inl t ↦ rw t (s, a.1)
  | inr f ↦ rw f (a.0, insert-AllSound k b m s a.1)
]

erase-AllSound : (k : String) (m : Map AuthBucket) → AllSound m → AllSound (erase k m)
unfolding erase
erase-AllSound k [] a = tt
erase-AllSound k (e ∷ m) a = elim (Bool-cases (e.0 == k)) [
  | inl t ↦ rw t (erase-AllSound k m a.1)
  | inr f ↦ rw f (a.0, erase-AllSound k m a.1)
]

keep-AllSound :
    (p : String × AuthBucket → Bool) (m : Map AuthBucket) → AllSound m → AllSound (keep p m)
unfolding keep
keep-AllSound p [] a = tt
keep-AllSound p (e ∷ m) a = elim (Bool-cases (p e)) [
  | inl t ↦ rw t (a.0, keep-AllSound p m a.1)
  | inr f ↦ rw f (keep-AllSound p m a.1)
]

-- A filter finds what was there, or nothing.
pub keep-lookup :
    (p : String × AuthBucket → Bool) (k : String) (m : Map AuthBucket)
    → Unique m
    → (lookup k (keep p m) ≡ lookup k m) ⊎ (lookup k (keep p m) ≡ none)
unfolding lookup keep
keep-lookup p k [] u = inl refl
keep-lookup p k (e ∷ m) u = elim (keep-lookup p k m u.1) [
  | inl same ↦ elim (Bool-cases (p e)) [
    | inl t ↦ rw t (inl (ground (arith, same)))
    | inr f ↦ rw f (elim (Bool-cases (e.0 == k)) [
      | inl q ↦ rw q (inr (same ∙ ap (λ j. lookup j m) (sym ((eq_iff e.0 k).0 q)) ∙ u.0))
      | inr q ↦ rw q (inl same)
    ])
  ]
  | inr gone ↦ elim (Bool-cases (p e)) [
    | inl t ↦
        rw t (elim (Bool-cases (e.0 == k)) [ inl q ↦ rw q (inl refl) | inr q ↦ rw q (inr gone) ])
    | inr f ↦ rw f (inr gone)
  ]
]

keep-Unique : (p : String × AuthBucket → Bool) (m : Map AuthBucket) → Unique m → Unique (keep p m)
unfolding keep
keep-Unique p [] u = tt
keep-Unique p (e ∷ m) u = elim (Bool-cases (p e)) [
  | inl t ↦ rw t (
    elim (keep-lookup p e.0 m u.1) [ inl same ↦ same ∙ u.0 | inr gone ↦ gone ],
    keep-Unique p m u.1,
  )
  | inr f ↦ rw f (keep-Unique p m u.1)
]

-- The window that a failure is counted in is sound, and began within the last minute.
auth_window-Sound :
    (now : ℕ) (o : Option AuthBucket)
    → ((b : AuthBucket) → o ≡ some b → IsSound b)
    → IsSound (auth_window now o) × (now ≤ (auth_window now o).window_start + minute)
unfolding auth_window
auth_window-Sound now none s = (omega arith, omega arith)
auth_window-Sound now (some b) s = elim (Bool-cases (ltb minute (now - b.window_start))) [
  | inl t ↦ rw t (ground (arith, t, s b refl), omega arith)
  | inr f ↦ rw f (s b refl, ground (arith, f))
]

many-Sane :
    (now : ℕ) (m : Map AuthBucket)
    → AllSound m × Unique m
    → AllSound (evict_if_many now m) × Unique (evict_if_many now m)
unfolding evict_if_many evict_stale_auth_entries
many-Sane now m (a, u) = elim (Bool-cases (ltb 1000 (length m))) [
  | inl t ↦ rw t (keep-AllSound _ m a, keep-Unique _ m u)
  | inr f ↦ rw f (a, u)
]

settle-Sane :
    (now : ℕ) (ip : String) (b : AuthBucket) (rl : RateLimiter)
    → IsSound b
    → now ≤ b.window_start + minute
    → Sane rl
    → Sane (settle_failure now ip b rl).1
unfolding settle_failure
settle-Sane now ip b rl s w (a, u) = elim (Bool-cases (leb 10 b.failures)) [
  | inl t ↦ rw t (
    insert-AllSound ip _ rl.auth_failures (omega (arith, w)) a,
    insert-Unique ip _ rl.auth_failures u,
  )
  | inr f ↦ rw f (
      many-Sane now _
        (insert-AllSound ip b rl.auth_failures s a, insert-Unique ip b rl.auth_failures u))
]

pub auth_failure-Sane :
    (now : ℕ) (ip : String) (rl : RateLimiter) → Sane rl → Sane (auth_failure now ip rl).1
unfolding auth_failure count_failure
auth_failure-Sane now ip rl s =
    let (sound, w) =
      auth_window-Sound now (lookup ip rl.auth_failures)
        (λ b h. lookup-AllSound ip b rl.auth_failures s.0 h) in
    settle-Sane now ip _ rl sound w s

blocked-Sane :
    (now : ℕ) (ip : String) (o : Option AuthBucket) (rl : RateLimiter)
    → Sane rl
    → Sane (blocked_or_expired now ip o rl).1
unfolding blocked_or_expired
blocked-Sane now ip none rl s = s
blocked-Sane now ip (some b) rl s = elim (Bool-cases (ltb now b.blocked_until)) [
  | inl t ↦ rw t s
  | inr f ↦ rw f (elim (Bool-cases (not (eqb b.blocked_until 0))) [
    | inl g ↦ rw g (erase-AllSound ip rl.auth_failures s.0, erase-Unique ip rl.auth_failures s.1)
    | inr g ↦ rw g s
  ])
]

pub call-Sane : (c : AuthCall) (rl : RateLimiter) → Sane rl → Sane (call c rl)
unfolding call is_auth_blocked auth_success
call-Sane (failure now ip) rl s = auth_failure-Sane now ip rl s
call-Sane (success ip) rl s =
    (erase-AllSound ip rl.auth_failures s.0, erase-Unique ip rl.auth_failures s.1)
call-Sane (check now ip) rl s = blocked-Sane now ip _ rl s

pub calls-Sane : (cs : List AuthCall) (rl : RateLimiter) → Sane rl → Sane (calls cs rl)
unfolding calls
calls-Sane [] rl s = s
calls-Sane (c ∷ cs) rl s = calls-Sane cs (call c rl) (call-Sane c rl s)
