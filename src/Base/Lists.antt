-- ===== src/Base/Lists.antt =====
-- Lists measured by native numbers, and predicates on lists by recursion.
use Prim.Native.Nat.{ℕ, zero, suc, ◌+◌, ◌-◌}
use mathlib.Core.Path.{◌≡◌, refl, ap, sym, ◌∙◌}
use mathlib.Core.Logic.{◌⊎◌, inl, inr}
use mathlib.Core.List.{List, [], ◌∷◌, ◌++◌, map}
use mathlib.Core.Bool.{Bool, true, false}
use mathlib.Core.Option.{Option, none, some}
use native.Mathlib.Omega.{arith}
use agentspec.Base.Tests.{Bool-cases, if◌then◌else◌}

module _ {ℓ} {A : Type ℓ} where
  abbrev pub length : List A → ℕ
  length [] = 0
  length (x ∷ xs) = suc (length xs)

  abbrev pub get_elem? : List A → ℕ → Option A
  get_elem? [] i = none
  get_elem? (x ∷ xs) zero = some x
  get_elem? (x ∷ xs) (suc i) = get_elem? xs i

  abbrev pub take : ℕ → List A → List A
  take zero xs = []
  take (suc n) [] = []
  take (suc n) (x ∷ xs) = x ∷ take n xs

  abbrev pub drop : ℕ → List A → List A
  drop zero xs = xs
  drop (suc n) [] = []
  drop (suc n) (x ∷ xs) = drop n xs

  abbrev pub cons_if : Bool → A → List A → List A
  cons_if true x xs = x ∷ xs
  cons_if false x xs = xs

  -- The elements that pass a Boolean test, in order.
  unfoldable pub keep : (A → Bool) → List A → List A
  keep p [] = []
  keep p (x ∷ xs) = cons_if (p x) x (keep p xs)

  -- The loop that returns the first element that passes a test.
  unfoldable pub find : (A → Bool) → List A → Option A
  find p [] = none
  find p (x ∷ xs) = if p x then some x else find p xs

  pub length-append : (xs ys : List A) → length (xs ++ ys) ≡ length xs + length ys
  length-append [] ys = omega arith
  length-append (x ∷ xs) ys = omega (arith, length-append xs ys)

  pub length-drop : (n : ℕ) (xs : List A) → length (drop n xs) ≡ length xs - n
  length-drop zero xs = omega arith
  length-drop (suc n) [] = omega arith
  length-drop (suc n) (x ∷ xs) = omega (arith, length-drop n xs)

pub take-drop {ℓ} : {A : Type ℓ} (n : ℕ) (xs : List A) → take n xs ++ drop n xs ≡ xs
take-drop zero xs = refl
take-drop (suc n) [] = refl
take-drop (suc n) (x ∷ xs) = ap (◌∷◌ x) (take-drop n xs)

-- Membership with its position kept, by recursion.
abbrev pub In : {A : Type 0} → A → List A → Type 0
In a [] = ⊥
In a (x ∷ xs) = (x ≡ a) ⊎ In a xs

module _ {A : Type 0} where
  pub In-append_left : (a : A) (xs ys : List A) → In a xs → In a (xs ++ ys)
  In-append_left a [] ys m = elim m [ ]
  In-append_left a (x ∷ xs) ys (inl e) = inl e
  In-append_left a (x ∷ xs) ys (inr m) = inr (In-append_left a xs ys m)

  pub In-append_right : (a : A) (xs ys : List A) → In a ys → In a (xs ++ ys)
  In-append_right a [] ys m = m
  In-append_right a (x ∷ xs) ys m = inr (In-append_right a xs ys m)

  pub In-append_cases : (a : A) (xs ys : List A) → In a (xs ++ ys) → In a xs ⊎ In a ys
  In-append_cases a [] ys m = inr m
  In-append_cases a (x ∷ xs) ys (inl e) = inl (inl e)
  In-append_cases a (x ∷ xs) ys (inr m) = elim (In-append_cases a xs ys m) [
    | inl l ↦ inl (inr l)
    | inr r ↦ inr r
  ]

  In-cons_if : (a : A) (b : Bool) (x : A) (xs : List A) → In a xs → In a (cons_if b x xs)
  In-cons_if a true x xs m = inr m
  In-cons_if a false x xs m = m

  pub cons_if-In :
      (a : A) (b : Bool) (x : A) (xs : List A)
      → In a (cons_if b x xs)
      → (b ≡ true) × (x ≡ a) ⊎ In a xs
  cons_if-In a true x xs (inl e) = inl (refl, e)
  cons_if-In a true x xs (inr m) = inr m
  cons_if-In a false x xs m = inr m

  pub In-keep : (p : A → Bool) (a : A) (xs : List A) → In a xs → p a ≡ true → In a (keep p xs)
  unfolding keep
  In-keep p a [] m h = elim m [ ]
  In-keep p a (x ∷ xs) (inl e) h = cons_if_here (p x) x xs (ap p e ∙ h) e
    where
      cons_if_here :
          (b : Bool) (x : A) (xs : List A) → b ≡ true → x ≡ a → In a (cons_if b x (keep p xs))
      cons_if_here true x xs t e = inl e
      cons_if_here false x xs t e = cc
  In-keep p a (x ∷ xs) (inr m) h = In-cons_if a (p x) x (keep p xs) (In-keep p a xs m h)

  pub keep-In : (p : A → Bool) (a : A) (xs : List A) → In a (keep p xs) → In a xs × (p a ≡ true)
  unfolding keep
  keep-In p a [] m = elim m [ ]
  keep-In p a (x ∷ xs) m = elim (cons_if-In a (p x) x (keep p xs) m) [
    | inl here ↦ (inl here.1, ap p (sym here.1) ∙ here.0)
    | inr there ↦ let (i, q) = keep-In p a xs there in (inr i, q)
  ]

pub In-if :
    {A : Type 0} (a : A) (b : Bool) (xs ys : List A)
    → In a (if b then xs else ys)
    → In a xs ⊎ In a ys
In-if a true xs ys i = inl i
In-if a false xs ys i = inr i

pub In-map : {A B : Type 0} (f : A → B) (a : A) (xs : List A) → In a xs → In (f a) (map f xs)
In-map f a [] m = elim m [ ]
In-map f a (x ∷ xs) (inl e) = inl (ap f e)
In-map f a (x ∷ xs) (inr m) = inr (In-map f a xs m)

pub map-In :
    {A B : Type 0} (f : A → B) (b : B) (xs : List A)
    → In b (map f xs)
    → (a : A) × In a xs × (f a ≡ b)
map-In f b [] m = elim m [ ]
map-In f b (x ∷ xs) (inl e) = (x, inl refl, e)
map-In f b (x ∷ xs) (inr m) = let (a, here, e) = map-In f b xs m in (a, inr here, e)

pub find_cases :
    {A : Type 0} (p : A → Bool) (xs : List A)
    → ((a : A) × (find p xs ≡ some a) × In a xs × (p a ≡ true))
      ⊎ (find p xs ≡ none) × ((a : A) → In a xs → p a ≡ false)
unfolding find
find_cases p [] = inr (refl, λ b i. elim i [ ])
find_cases p (x ∷ xs) = elim (Bool-cases (p x)) [
  | inl t ↦ inl (x, rw t, inl refl, t)
  | inr f ↦ elim (find_cases p xs) [
    | inl (a, e, i, q) ↦ inl (a, rw f e, inr i, q)
    | inr (e, fails) ↦ inr (rw f e, λ a i. elim i [ inl h ↦ ap p (sym h) ∙ f | inr j ↦ fails a j ])
  ]
]
