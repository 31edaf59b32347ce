-- ===== src/Operator/Merge/Limits.antt =====
-- The limits of a merge of policies are the least that are set.
use agentspec.Base.{
  some, none, refl, inl, inr, [], ◌∷◌, ℕ, ◌<◌, List, Option, ◌≡◌, In, arith, some, ◌≤◌, ◌⊎◌,
  Bool-cases, subst, ltb, ◌∙◌, ◌&&◌, sym, not, ◌||◌, Bool, false, if◌then◌else◌, true,
}
use agentspec.Operator.Merge.{
  PolicySpec, RateLimits, lower, least_limits, lower_limits, merge_rate_limits,
}

-- A limit of a policy, 0 for none.
abbrev pub limit_of : (RateLimits → ℕ) → Option RateLimits → ℕ
limit_of f none = 0
limit_of f (some r) = f r

-- The limit n is positive and at most m.
abbrev Within : ℕ → ℕ → Type 0
Within n m = (0 < n) × (n ≤ m)

-- The least of the limits that are set.
pub record Least (f : RateLimits → ℕ) (policies : List PolicySpec) (start n : ℕ) : Type 0 where
  below_start : 0 < start → Within n start
  below :
      (p : PolicySpec)
      → In p policies
      → 0 < limit_of f p.rate_limits
      → Within n (limit_of f p.rate_limits)
  attained : (n ≡ start) ⊎ ((p : PolicySpec) × In p policies × (limit_of f p.rate_limits ≡ n))

lower-start : (a n : ℕ) → 0 < a → Within (lower a n) a
unfolding lower
lower-start a n h = ground arith

lower-new : (a n : ℕ) → 0 < n → Within (lower a n) n
unfolding lower
lower-new a n h = ground arith

lower_cases : (a n : ℕ) → (lower a n ≡ a) ⊎ (n ≡ lower a n)
unfolding lower
lower_cases a n = elim (Bool-cases (ltb 0 n && (not (ltb 0 a) || ltb n a))) [
  | inl t ↦ rw t (inr refl)
  | inr f ↦ rw f (inl refl)
]

Least-cons :
    (f : RateLimits → ℕ) (p : PolicySpec) (policies : List PolicySpec) (start n : ℕ)
    → Least f policies (lower start (limit_of f p.rate_limits)) n
    → Least f (p ∷ policies) start n
Least-cons f p policies start n l = record {
  below_start = λ h.
      let (a, b) = lower-start start (limit_of f p.rate_limits) h in
      let (c, d) = l.below_start a in (c, omega (arith, b, d));
  below = λ q i h. elim i [
    | inl e ↦
        subst
          (λ (q : PolicySpec). 0 < limit_of f q.rate_limits → Within n (limit_of f q.rate_limits)) e
          (λ h.
            let (a, b) = lower-new start (limit_of f p.rate_limits) h in
            let (c, d) = l.below_start a in (c, omega (arith, b, d)))
          h
    | inr j ↦ l.below q j h
  ];
  attained = elim l.attained [
    | inl e ↦ elim (lower_cases start (limit_of f p.rate_limits)) [
      | inl old ↦ inl (e ∙ old)
      | inr here ↦ inr (p, inl refl, here ∙ sym e)
    ]
    | inr (q, i, e) ↦ inr (q, inr i, e)
  ];
}

-- Both fields are merged by `lower`.
pub Lowered : (RateLimits → ℕ) → Type 0
Lowered f =
    (least : RateLimits) (o : Option RateLimits)
    → f (lower_limits least o) ≡ lower (f least) (limit_of f o)

pub requests-Lowered : Lowered RateLimits.requests_per_minute
unfolding Lowered lower
requests-Lowered least none = refl
requests-Lowered least (some r) = refl

pub tokens-Lowered : Lowered RateLimits.tokens_per_minute
unfolding Lowered lower
tokens-Lowered least none = refl
tokens-Lowered least (some r) = refl

least_limits-Least :
    (f : RateLimits → ℕ)
    → Lowered f
    → (least : RateLimits) (policies : List PolicySpec)
    → Least f policies (f least) (f (least_limits least policies))
unfolding least_limits Lowered
least_limits-Least f low least [] = record {
  below_start = λ h. (h, omega arith);
  below = λ p i h. elim i [ ];
  attained = inl refl;
}
least_limits-Least f low least (p ∷ policies) =
    Least-cons f p policies (f least) (f (least_limits (lower_limits least p.rate_limits) policies))
      (subst
        (λ start.
          Least f policies start (f (least_limits (lower_limits least p.rate_limits) policies)))
        (low least p.rate_limits)
        (least_limits-Least f low (lower_limits least p.rate_limits) policies))

unfoldable pub no_limits : RateLimits
no_limits = record { requests_per_minute = 0; tokens_per_minute = 0 }

if-limit :
    (f : RateLimits → ℕ) (b : Bool) (r : RateLimits)
    → (b ≡ false → f r ≡ 0)
    → limit_of f (if b then some r else none) ≡ f r
if-limit f true r h = refl
if-limit f false r h = sym (h refl)

pub merge_rate_limits-Least :
    (f : RateLimits → ℕ)
    → Lowered f
    → f no_limits ≡ 0
    → ((r : RateLimits)
        → (ltb 0 r.requests_per_minute || ltb 0 r.tokens_per_minute) ≡ false
        → f r ≡ 0)
    → (policies : List PolicySpec) → Least f policies 0 (limit_of f (merge_rate_limits policies))
unfolding merge_rate_limits no_limits
merge_rate_limits-Least f low start unset policies =
    let r = least_limits no_limits policies in
    let l = least_limits-Least f low no_limits policies in
    subst (λ n. Least f policies 0 n) (sym (if-limit f _ r (unset r)))
      (subst (λ n. Least f policies n (f r)) start l)

pub Least-one :
    (f : RateLimits → ℕ) (p : PolicySpec) → Least f (p ∷ []) 0 (limit_of f p.rate_limits)
Least-one f p = record {
  below_start = λ h. absurd (omega (arith, h));
  below = λ q i h. elim i [
    | inl e ↦
        subst
          (λ (q : PolicySpec).
            0 < limit_of f q.rate_limits
            → Within (limit_of f p.rate_limits) (limit_of f q.rate_limits))
          e (λ h. (h, omega arith)) h
    | inr no_more ↦ elim no_more [ ]
  ];
  attained = inr (p, inl refl, refl);
}

pub Least-nil : (f : RateLimits → ℕ) → Least f [] 0 0
Least-nil f = record {
  below_start = λ h. absurd (omega (arith, h));
  below = λ p i h. elim i [ ];
  attained = inl refl;
}
