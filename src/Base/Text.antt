-- ===== src/Base/Text.antt =====
-- The order of Go's strings, `<` on bytes: a strict total order.
use Prim.Native.Nat.{Ordering, compare as compare_nat}
use Prim.Native.Char.{code}
use Prim.Native.String.compare
use Prim.Native.String.{String, [], ◌∷◌, compare, then}
use mathlib.Core.Path.{◌≡◌, refl, ap, ◌∙◌}
use mathlib.Core.Bool.{Bool, true, false}
use native.Mathlib.Omega.{arith}
use text.Mathlib.TextPositions.{compare_refl}
use text.Mathlib.Text.{is_lt}
use text.Mathlib.TextEquality.{path_by_compare}

abbrev pub str_lt : String → String → Bool
str_lt s t = is_lt (compare s t)

-- `compare` by its clauses, so that the proofs can compute with it.
cmp : String → String → Ordering
cmp [] [] = Ordering.eq
cmp [] (d ∷ t) = Ordering.lt
cmp (c ∷ s) [] = Ordering.gt
cmp (c ∷ s) (d ∷ t) = then (compare_nat (code c) (code d)) (cmp s t)

compare-cmp : (s t : String) → compare s t ≡ cmp s t
unfolding cmp
compare-cmp [] [] = compare.nil-nil
compare-cmp [] (d ∷ t) = compare.nil-cons d t
compare-cmp (c ∷ s) [] = compare.cons-nil c s
compare-cmp (c ∷ s) (d ∷ t) =
    compare.cons-cons c d s t ∙ ap (then (compare_nat (code c) (code d))) (compare-cmp s t)

cmp_trans : (s t u : String) → cmp s t ≡ Ordering.lt → cmp t u ≡ Ordering.lt → cmp s u ≡ Ordering.lt
unfolding cmp
cmp_trans [] [] u p q = q
cmp_trans [] (d ∷ t) [] p q = cc
cmp_trans [] (d ∷ t) (e ∷ u) p q = refl
cmp_trans (c ∷ s) [] u p q = cc
cmp_trans (c ∷ s) (d ∷ t) [] p q = cc
cmp_trans (c ∷ s) (d ∷ t) (e ∷ u) p q = ground (arith, cmp_trans s t u)

-- The two ways round.
flip : Ordering → Ordering
flip Ordering.lt = Ordering.gt
flip Ordering.eq = Ordering.eq
flip Ordering.gt = Ordering.lt

cmp-flip : (s t : String) → cmp s t ≡ flip (cmp t s)
unfolding cmp flip
cmp-flip [] [] = refl
cmp-flip [] (d ∷ t) = refl
cmp-flip (c ∷ s) [] = refl
cmp-flip (c ∷ s) (d ∷ t) = ground (arith, cmp-flip s t)

pub str_lt_trans : (s t u : String) → str_lt s t ≡ true → str_lt t u ≡ true → str_lt s u ≡ true
str_lt_trans s t u p q =
    ground (arith, compare-cmp s t, compare-cmp t u, compare-cmp s u, cmp_trans s t u)

pub str_lt_irrefl : (s : String) → str_lt s s ≡ false
str_lt_irrefl s = ap is_lt (compare_refl s)

pub str_lt-asymm : (s t : String) → str_lt s t ≡ true → str_lt t s ≡ false
unfolding flip
str_lt-asymm s t p = ground (arith, compare-cmp s t, compare-cmp t s, cmp-flip s t)

pub str_lt_total : (s t : String) → str_lt s t ≡ false → str_lt t s ≡ false → s ≡ t
unfolding flip
str_lt_total s t p q =
    path_by_compare s t (ground (arith, compare-cmp s t, compare-cmp t s, cmp-flip s t))

-- `≤` of texts is transitive: `not (b < a)`.
pub str_le_trans : (s t u : String) → str_lt t s ≡ false → str_lt u t ≡ false → str_lt u s ≡ false
str_le_trans s t u p q = ground (arith, str_lt_trans u s t, str_lt_total s t)
