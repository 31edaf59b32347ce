-- ===== src/Validation/Retry/Ends.antt =====
-- The retry loop ends: each round spends a retry of some rule.
use agentspec.Validation.Verdict.{validate-failed, failed_of-In}
use agentspec.Base.{
  ℕ, zero, suc, ◌+◌, ◌-◌, ◌≤◌, ◌<◌, String, List, [], ◌∷◌, Option, none, some, true, false, ◌≡◌,
  ◌≢◌, refl, ◌⊎◌, inl, inr, arith, In, Bool-cases, eq_iff, eq_refl, ltb, ltb→lt, subst, sym, ◌↔◌,
}
use agentspec.Base.Maps.{Map, lookup, insert, lookup-insert}
use agentspec.Pipeline.Dag.{or_zero}
use agentspec.State.{Result, ok, err}
use agentspec.Validation.{RuleDef, Evaluated, failed_error_rules, validate}
use agentspec.Validation.Retry.{
  Spending, Answer, max_of, spend_rule, spend, spend_round, retries, attempt, retry_from,
  retry_loop, verdict, after_invoke, exhausted, build_retry_prompt,
}

-- The retries that the rules have left.
left : ℕ → Map ℕ → RuleDef → ℕ
left default counts r = max_of default r - or_zero (lookup r.name counts)

left_all : ℕ → Map ℕ → List RuleDef → ℕ
left_all default counts [] = 0
left_all default counts (r ∷ rs) = left default counts r + left_all default counts rs

counted-le :
    (key get : String) (m : Map ℕ)
    → or_zero (lookup get m) ≤ or_zero (lookup get (insert key (or_zero (lookup key m) + 1) m))
counted-le key get m =
    ground (arith, lookup-insert key get (or_zero (lookup key m) + 1) m, eq_iff key get)

counted_here :
    (key : String) (m : Map ℕ)
    → or_zero (lookup key (insert key (or_zero (lookup key m) + 1) m)) ≡ or_zero (lookup key m) + 1
counted_here key m =
    ground (arith, lookup-insert key key (or_zero (lookup key m) + 1) m, eq_refl key)

-- One rule's count goes up, and none goes down.
spend_rule-left :
    (default : ℕ) (rule r : RuleDef) (s : Spending)
    → left default (spend_rule default rule s).retry_count r ≤ left default s.retry_count r
unfolding spend_rule left
spend_rule-left default rule r s =
    elim (Bool-cases (ltb (or_zero (lookup rule.name s.retry_count)) (max_of default rule))) [
      | inl t ↦ rw t (ground (arith, counted-le rule.name r.name s.retry_count))
      | inr f ↦ rw f (omega arith)
    ]

spend_rule-left_less :
    (default : ℕ) (rule : RuleDef) (s : Spending)
    → ((spend_rule default rule s ≡ s)
        ⊎ (left default (spend_rule default rule s).retry_count rule
            < left default s.retry_count rule))
unfolding spend_rule left
spend_rule-left_less default rule s =
    elim (Bool-cases (ltb (or_zero (lookup rule.name s.retry_count)) (max_of default rule))) [
      | inl t ↦ inr (
          rw t (
            let below = ltb→lt _ _ t in omega (arith, below, counted_here rule.name s.retry_count)))
      | inr f ↦ inl (rw f refl)
    ]

left_all-le :
    (default : ℕ) (rule : RuleDef) (s : Spending) (rs : List RuleDef)
    → left_all default (spend_rule default rule s).retry_count rs
      ≤ left_all default s.retry_count rs
unfolding left_all
left_all-le default rule s [] = omega arith
left_all-le default rule s (r ∷ rs) =
    omega (arith, spend_rule-left default rule r s, left_all-le default rule s rs)

left_all-lt :
    (default : ℕ) (rule : RuleDef) (s : Spending) (rs : List RuleDef)
    → In rule rs
    → left default (spend_rule default rule s).retry_count rule < left default s.retry_count rule
    → left_all default (spend_rule default rule s).retry_count rs
      < left_all default s.retry_count rs
unfolding left_all
left_all-lt default rule s [] i h = elim i [ ]
left_all-lt default rule s (r ∷ rs) (inl e) h =
    let spent = (spend_rule default rule s).retry_count in
    let h' = subst (λ q. left default spent q < left default s.retry_count q) (sym e) h in
    omega (arith, h', left_all-le default rule s rs)
left_all-lt default rule s (r ∷ rs) (inr i) h =
    omega (arith, spend_rule-left default rule r s, left_all-lt default rule s rs i h)

spend-left :
    (default : ℕ) (failed rules : List RuleDef) (s : Spending)
    → left_all default (spend default failed s).retry_count rules
      ≤ left_all default s.retry_count rules
unfolding spend
spend-left default [] rules s = omega arith
spend-left default (r ∷ rs) rules s =
    omega
      (arith, spend-left default rs rules (spend_rule default r s), left_all-le default r s rules)

-- A round that grants a retry spends one.
spend-lt :
    (default : ℕ) (failed rules : List RuleDef) (s : Spending)
    → ((r : RuleDef) → In r failed → In r rules)
    → s.has_retries ≡ false
    → (spend default failed s).has_retries ≡ true
    → left_all default (spend default failed s).retry_count rules
      < left_all default s.retry_count rules
unfolding spend
spend-lt default [] rules s sub f t = cc
spend-lt default (r ∷ rs) rules s sub f t = elim (spend_rule-left_less default r s) [
  | inl same ↦
      let shown : Spending → Type 0 = λ x. (spend default rs x).has_retries ≡ true in
      let smaller : Spending → Type 0 = λ x.
        left_all default (spend default rs x).retry_count rules
        < left_all default s.retry_count rules in
      subst smaller (sym same)
        (spend-lt default rs rules s (λ q i. sub q (inr i)) f (subst shown same t))
  | inr less ↦ omega (
    arith,
    spend-left default rs rules (spend_rule default r s),
    left_all-lt default r s rules (sub r (inl refl)) less,
  )
]

left_all-retries :
    (default : ℕ) (rules : List RuleDef) → left_all default [] rules ≡ retries default rules
unfolding left_all retries left lookup
left_all-retries default [] = refl
left_all-retries default (r ∷ rs) = omega (arith, left_all-retries default rs)

module _ {S : Type 0} (quote : String → String) (eval : String → String → String → Evaluated)
    (invoke : S → String → Result String × S) (rules : List RuleDef) (default : ℕ) (input : String)
    (calls : S → ℕ)
    (counted : (s : S) (prompt : String) → calls (invoke s prompt).1 ≤ calls s + 1) where
  abbrev Settles : ℕ → S → Option (Answer S) → Type 0
  Settles bound before o =
      (a : Answer S) × (o ≡ some a)
      × (a.result ≡ verdict quote eval invoke rules default input a.output)
      × ((a.error ≡ none) ↔ (a.result.passed ≡ true))
      × (calls a.state ≤ calls before + bound)

  after_invoke-Settles :
      (output : String) (again : String → S → Option (Answer S)) (before : S) (b bound : ℕ)
      (r : Result String) (state : S)
      → (verdict quote eval invoke rules default input output).passed ≡ false
      → b < bound
      → calls state ≤ calls before + 1
      → ((output : String) (state : S) → Settles b state (again output state))
      → Settles bound before
          (after_invoke quote eval invoke rules default input output again (r, state))
  after_invoke-Settles output again before b bound (ok new) state f l c h =
      let (a, runs, same, passes, few) = h new state in
      (a, runs, same, passes, omega (arith, l, c, few))
  after_invoke-Settles output again before b bound (err e) state f l c h =
      (_, refl, refl, (λ e. cc, λ t. cc), omega (arith, l, c))

  attempt-Settles :
      (output : String) (again : Map ℕ → String → S → Option (Answer S)) (failed : List RuleDef)
      (counts : Map ℕ) (state : S) (bound : ℕ)
      → (verdict quote eval invoke rules default input output).passed ≡ false
      → failed ≢ []
      → ((r : RuleDef) → In r failed → In r rules)
      → left_all default counts rules ≤ bound
      → ((counts : Map ℕ) (output : String) (state : S) (b : ℕ)
          → left_all default counts rules ≤ b
          → b < bound
          → Settles b state (again counts output state))
      → Settles bound state
          (attempt quote eval invoke rules default input output again failed counts state)
  unfolding attempt exhausted spend_round
  attempt-Settles output again [] counts state bound f some_failed sub h ih =
      absurd (some_failed refl)
  attempt-Settles output again (r ∷ rs) counts state bound f some_failed sub h ih =
      elim (Bool-cases
        (spend_round quote eval invoke rules default input (r ∷ rs) counts).has_retries) [
          | inl t ↦ rw t (
              let spent = spend_round quote eval invoke rules default input (r ∷ rs) counts in
              let reply = invoke state (build_retry_prompt input output spent.feedback) in
              let left = left_all default spent.retry_count rules in
              let less = spend-lt default (r ∷ rs) rules _ sub refl t in
              after_invoke-Settles output (again spent.retry_count) state left bound reply.0 reply.1
                f (omega (arith, less, h)) (counted state _)
                (λ o s. ih spent.retry_count o s left (omega arith) (omega (arith, less, h))))
          | inr none_left ↦ rw none_left (_, refl, refl, (λ e. cc, λ t. cc), omega arith)
        ]

  retry_from-Settles :
      (fuel : ℕ) (counts : Map ℕ) (output : String) (state : S) (bound : ℕ)
      → left_all default counts rules ≤ bound
      → bound < fuel
      → Settles bound state
          (retry_from quote eval invoke rules default input fuel counts output state)
  unfolding retry_from verdict validate failed_error_rules
  retry_from-Settles zero counts output state bound h l = absurd (omega arith)
  retry_from-Settles (suc fuel) counts output state bound h l =
      elim (Bool-cases (verdict quote eval invoke rules default input output).passed) [
        | inl t ↦ rw t (_, refl, refl, (λ e. t, λ t. refl), omega arith)
        | inr f ↦ rw f (
            attempt-Settles output (retry_from quote eval invoke rules default input fuel) _ counts
              state bound f
              (λ e. absurd (cc (f, (validate-failed quote (eval input output) rules).1 e)))
              (failed_of-In rules _) h
              (λ counts output state b h' l'.
                retry_from-Settles fuel counts output state b h' (omega arith)))
      ]

  -- The retry loop, which has no bound of its own, always ends. It returns the last output with the
  -- verdict on it, without an error just when that verdict passes. For any number that one invocation of
  -- the agent raises by at most one, such as a count of its calls, the loop raises it by at most the
  -- retries that the rules have together.
  pub retry_loop-Settles :
      (output : String) (state : S)
      → (a : Answer S) × (retry_loop quote eval invoke rules default input output state ≡ some a)
        × (a.result ≡ verdict quote eval invoke rules default input a.output)
        × ((a.error ≡ none) ↔ (a.result.passed ≡ true))
        × (calls a.state ≤ calls state + retries default rules)
  unfolding retry_loop
  retry_loop-Settles output state =
      retry_from-Settles (suc (retries default rules)) [] output state (retries default rules)
        (omega (arith, left_all-retries default rules)) (omega arith)
