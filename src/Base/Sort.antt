-- ===== src/Base/Sort.antt =====
-- The insertion sort by swaps that the code writes out (`sortActions`, `sortStrings`).
use Prim.Native.String.{String}
use mathlib.Core.Path.{◌≡◌, refl, sym, ◌∙◌}
use mathlib.Core.Bool.{false}
use mathlib.Core.List.{
  List, [], ◌∷◌, ◌++◌, reverse, Permᴰ, Pairwise, Pairwise-reverse, Pairwise-cons, Mem, mem-cons,
  Pairwise-singleton,
}
use mathlib.Core.Logic.Or
use mathlib.Core.List.Permᴰ
use mathlib.Core.Logic.{inl, inr}
use agentspec.Base.Tests.{if◌then◌else◌, Bool-cases}
use agentspec.Base.Lists.{In}
use agentspec.Base.Text.{str_lt, str_le_trans, str_lt-asymm}

pub Permᴰ-In : {A : Type 0} (a : A) {xs ys : List A} → Permᴰ xs ys → In a xs → In a ys
Permᴰ-In a Permᴰ.nil m = m
Permᴰ-In a (Permᴰ.cons e p) (inl h) = inl (sym e ∙ h)
Permᴰ-In a (Permᴰ.cons e p) (inr m) = inr (Permᴰ-In a p m)
Permᴰ-In a (Permᴰ.swap e f) (inl h) = inr (inl (sym e ∙ h))
Permᴰ-In a (Permᴰ.swap e f) (inr (inl h)) = inl (sym f ∙ h)
Permᴰ-In a (Permᴰ.swap e f) (inr (inr m)) = inr (inr m)
Permᴰ-In a (Permᴰ.trans p q) m = Permᴰ-In a q (Permᴰ-In a p m)

module _ {A : Type 0} (key : A → String) where
  -- The inner loop: `x` moves left past the elements that it is smaller than. The sorted part
  -- stands in reverse, its last element first.
  sink : A → List A → List A
  sink x [] = x ∷ []
  sink x (y ∷ ys) = if str_lt (key x) (key y) then y ∷ sink x ys else x ∷ y ∷ ys

  -- The outer loop, over the elements not yet placed.
  sort_onto : List A → List A → List A
  sort_onto placed [] = placed
  sort_onto placed (x ∷ xs) = sort_onto (sink x placed) xs

  unfoldable pub sort_by : List A → List A
  unfolding sink sort_onto
  sort_by xs = reverse (sort_onto [] xs)

  sink-perm : (x : A) (ys : List A) → Permᴰ (sink x ys) (x ∷ ys)
  unfolding sink
  sink-perm x [] = Permᴰ.refl (x ∷ [])
  sink-perm x (y ∷ ys) = elim (Bool-cases (str_lt (key x) (key y))) [
    | inl t ↦ rw t (Permᴰ.trans (Permᴰ.cons refl (sink-perm x ys)) (Permᴰ.swap refl refl))
    | inr f ↦ rw f (Permᴰ.refl (x ∷ y ∷ ys))
  ]

  sort_onto-perm : (placed xs : List A) → Permᴰ (sort_onto placed xs) (xs ++ placed)
  unfolding sort_onto
  sort_onto-perm placed [] = Permᴰ.refl placed
  sort_onto-perm placed (x ∷ xs) =
      Permᴰ.trans (sort_onto-perm (sink x placed) xs)
        (Permᴰ.trans (Permᴰ.append_left xs (sink-perm x placed)) (Permᴰ.middle x xs placed))

  -- The sort only reorders.
  pub sort_by-perm : (xs : List A) → Permᴰ (sort_by xs) xs
  unfolding sort_by
  sort_by-perm xs =
      Permᴰ.trans (Permᴰ.reverse (sort_onto [] xs))
        (Permᴰ.trans (sort_onto-perm [] xs) (Permᴰ.append-nil xs))

  -- `a` may stand before `b`.
  abbrev pub Before : A → A → Type 0
  Before a b = str_lt (key b) (key a) ≡ false

  abbrev After : A → A → Type 0
  After a b = Before b a

  After-prop : (a b : A) → IsProp (After a b)
  After-prop a b = hlevel

  After-sink :
      (a x : A) (ys : List A)
      → After a x
      → ((b : A) → Mem b ys → After a b)
      → (b : A) → Mem b (sink x ys)
      → After a b
  After-sink a x ys ax h b m =
      Or.elim (After-prop a b) (mem-cons.0 (Permᴰ.mem (sink-perm x ys) m)) (λ e. rw e ax) (h b)

  sink-Pairwise : (x : A) (ys : List A) → Pairwise After ys → Pairwise After (sink x ys)
  unfolding sink
  sink-Pairwise x [] h = Pairwise-singleton After x
  sink-Pairwise x (y ∷ ys) h = elim (Bool-cases (str_lt (key x) (key y))) [
    | inl t ↦
        let (first, rest) = Pairwise-cons.0 h in
        rw t
          (Pairwise-cons.1 (After-sink y x ys (str_lt-asymm _ _ t) first, sink-Pairwise x ys rest))
    | inr f ↦
        let (first, rest) = Pairwise-cons.0 h in
        rw f (
          Pairwise-cons.1 (
            λ b m.
                Or.elim (After-prop x b) (mem-cons.0 m) (λ e. rw e f)
                  (λ n. str_le_trans (key b) (key y) (key x) (first b n) f),
            h,
          ))
  ]

  sort_onto-Pairwise :
      (placed xs : List A) → Pairwise After placed → Pairwise After (sort_onto placed xs)
  unfolding sort_onto
  sort_onto-Pairwise placed [] h = h
  sort_onto-Pairwise placed (x ∷ xs) h =
      sort_onto-Pairwise (sink x placed) xs (sink-Pairwise x placed h)

  -- The result stands in the order of the keys.
  pub sort_by-Pairwise : (xs : List A) → Pairwise Before (sort_by xs)
  unfolding sort_by
  sort_by-Pairwise xs =
      (Pairwise-reverse (λ a b. After-prop b a)).1 (sort_onto-Pairwise [] xs Pairwise.nil)

  pub sort_by-In : (a : A) (xs : List A) → In a (sort_by xs) → In a xs
  sort_by-In a xs = Permᴰ-In a (sort_by-perm xs)

  pub In-sort_by : (a : A) (xs : List A) → In a xs → In a (sort_by xs)
  In-sort_by a xs = Permᴰ-In a (Permᴰ.symm (sort_by-perm xs))
