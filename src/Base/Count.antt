-- ===== src/Base/Count.antt =====
-- How often a string stands in a list, and what that says of lists in which none stands twice.
use agentspec.Base.{ltb, ltb→lt, subst}
use agentspec.Base.Lists.{In, length}
use agentspec.Base.Tests.{if◌then◌else◌, Bool-cases}
use mathlib.Core.List.{List, [], ◌∷◌, ◌++◌, Permᴰ}
use mathlib.Core.Path.{◌≡◌, refl, ◌∙◌, ap}
use mathlib.Core.Bool.{Bool, true, false}
use mathlib.Core.Logic.{inl, inr, ◌≢◌}
use Prim.Native.Nat.{ℕ, suc, ◌+◌, ◌≤◌, ◌<◌}
use Prim.Native.String.{String}
use native.Mathlib.Omega.{arith}
use text.Mathlib.Text.{◌==◌}
use text.Mathlib.TextEquality.{eq_iff}

abbrev pub count_if : Bool → ℕ → ℕ
count_if true n = suc n
count_if false n = n

unfoldable pub count : String → List String → ℕ
count k [] = 0
count k (x ∷ xs) = count_if (x == k) (count k xs)

pub count-append : (k : String) (xs ys : List String) → count k (xs ++ ys) ≡ count k xs + count k ys
unfolding count
count-append k [] ys = omega arith
count-append k (x ∷ xs) ys = ground (arith, count-append k xs ys)

pub In-count : (k : String) (xs : List String) → In k xs → 0 < count k xs
unfolding count
In-count k [] i = elim i [ ]
In-count k (x ∷ xs) (inl e) = ground (arith, eq_iff x k)
In-count k (x ∷ xs) (inr i) = ground (arith, In-count k xs i)

pub count-In : (k : String) (xs : List String) → 0 < count k xs → In k xs
unfolding count
count-In k [] h = absurd (omega (arith, h))
count-In k (x ∷ xs) h = elim (Bool-cases (x == k)) [
  | inl t ↦ inl ((eq_iff x k).0 t)
  | inr f ↦ inr (count-In k xs (ground (arith, f, h)))
]

pub count-Permᴰ : (k : String) {xs ys : List String} → Permᴰ xs ys → count k xs ≡ count k ys
unfolding count
count-Permᴰ k Permᴰ.nil = refl
count-Permᴰ k (Permᴰ.cons {a} {b} e p) = ground (arith, e, count-Permᴰ k p)
count-Permᴰ k (Permᴰ.swap e f) = ground (arith, e, f)
count-Permᴰ k (Permᴰ.trans p q) = count-Permᴰ k p ∙ count-Permᴰ k q

-- No string stands twice.
abbrev pub Distinct : List String → Type 0
Distinct xs = (k : String) → count k xs ≤ 1

remove_first : String → List String → List String
remove_first k [] = []
remove_first k (x ∷ xs) = let rest = remove_first k xs in if x == k then xs else x ∷ rest

In-later : (x k : String) (xs : List String) → (x == k) ≡ false → In k (x ∷ xs) → In k xs
In-later x k xs f (inl e) = absurd (ground (arith, eq_iff x k, f, e))
In-later x k xs f (inr j) = j

length-remove_first :
    (k : String) (xs : List String) → In k xs → length xs ≡ suc (length (remove_first k xs))
unfolding remove_first
length-remove_first k [] i = elim i [ ]
length-remove_first k (x ∷ xs) i = elim (Bool-cases (x == k)) [
  | inl t ↦ rw t refl
  | inr f ↦ rw f (ap suc (length-remove_first k xs (In-later x k xs f i)))
]

In-remove_first : (j k : String) (xs : List String) → In j xs → j ≢ k → In j (remove_first k xs)
unfolding remove_first
In-remove_first j k [] i ne = elim i [ ]
In-remove_first j k (x ∷ xs) i ne = elim (Bool-cases (x == k)) [
  | inl t ↦ rw t (In-later x j xs (other t) i)
  | inr f ↦ rw f (kept (λ m. In-remove_first j k xs m ne) i)
]
  where
    other : (x == k) ≡ true → (x == j) ≡ false
    other t = ground (arith, eq_iff x k, eq_iff x j)

    kept : (In j xs → In j (remove_first k xs)) → In j (x ∷ xs) → In j (x ∷ remove_first k xs)
    kept rest (inl e) = inl e
    kept rest (inr m) = inr (rest m)

-- A list without repetitions is no longer than one that has all its members.
pub Distinct-length :
    (xs ys : List String) → Distinct xs → ((k : String) → In k xs → In k ys) → length xs ≤ length ys
unfolding count
Distinct-length [] ys d s = omega arith
Distinct-length (x ∷ xs) ys d s = omega (
  arith,
  length-remove_first x ys (s x (inl refl)),
  Distinct-length xs (remove_first x ys) (λ k. ground (arith, d k))
      (λ k i.
        In-remove_first k x ys (s k (inr i))
          (λ e. absurd (ground (arith, d k, In-count k xs i, e, eq_iff x k)))),
)

-- A list without repetitions that is as long as one that has all its members has all of these.
pub Distinct-all :
    (xs ys : List String)
    → Distinct xs
    → ((k : String) → In k xs → In k ys)
    → length ys ≤ length xs
    → (k : String) → In k ys
    → In k xs
unfolding count
Distinct-all xs ys d sub le k i = elim (Bool-cases (ltb 0 (count k xs))) [
  | inl t ↦ count-In k xs (ltb→lt _ _ t)
  | inr f ↦ absurd (
      omega (
        arith,
        le,
        Distinct-length (k ∷ xs) ys (λ j. ground (arith, d j, f, eq_iff k j))
            (λ j m. elim m [ inl e ↦ subst (λ x. In x ys) e i | inr o ↦ sub j o ]),
      ))
]

pub length-Permᴰ : {xs ys : List String} → Permᴰ xs ys → length xs ≡ length ys
length-Permᴰ Permᴰ.nil = refl
length-Permᴰ (Permᴰ.cons e p) = ap suc (length-Permᴰ p)
length-Permᴰ (Permᴰ.swap e f) = refl
length-Permᴰ (Permᴰ.trans p q) = length-Permᴰ p ∙ length-Permᴰ q
