-- ===== src/Memory/Lru/Order.antt =====
-- The operations on the order, by how often a session stands in it.
use agentspec.Base.{
  suc, String, List, [], ◌∷◌, ◌++◌, arith, eq_iff, refl, ap, length, true, false, Bool-cases, inl,
  inr, if◌then◌else◌, ◌==◌, ◌≡◌, sym, ◌∙◌, subst,
}
use agentspec.Base.Count.{count, count_if, count-append, Distinct}
use agentspec.Memory.Lru.{Lru, promote, evict, has_session, remove_element, split_back, evict_back}

pub split_back-append :
    (x : String) (xs : List String) → (split_back x xs).0 ++ (split_back x xs).1 ∷ [] ≡ x ∷ xs
unfolding split_back
split_back-append x [] = refl
split_back-append x (y ∷ ys) = ap (x ∷◌) (split_back-append y ys)

pub length-split_back : (x : String) (xs : List String) → length (split_back x xs).0 ≡ length xs
unfolding split_back
length-split_back x [] = refl
length-split_back x (y ∷ ys) = ap suc (length-split_back y ys)

pub count-split_back :
    (k x : String) (xs : List String)
    → count k (x ∷ xs) ≡ count_if ((split_back x xs).1 == k) (count k (split_back x xs).0)
unfolding count
count-split_back k x xs =
    sym (ap (count k) (split_back-append x xs))
    ∙ ground (arith, count-append k (split_back x xs).0 ((split_back x xs).1 ∷ []))

absent-count : (id : String) (xs : List String) → has_session id xs ≡ false → count id xs ≡ 0
unfolding has_session count
absent-count id [] h = refl
absent-count id (x ∷ xs) h = ground (arith, absent-count id xs, h)

count-remove_element :
    (k id : String) (xs : List String)
    → has_session id xs ≡ true
    → count k xs ≡ count_if (id == k) (count k (remove_element id xs))
unfolding has_session remove_element count
count-remove_element k id [] h = cc
count-remove_element k id (x ∷ xs) h =
    ground (arith, count-remove_element k id xs, h, eq_iff x id, eq_iff x k, eq_iff id k)

-- A session that is used, known or new, comes first, and the others stand behind it as often as they
-- did, in an order without repetitions.
pub promote-front :
    (id : String) (l : Lru)
    → Distinct l.order
    → (rest : List String) × ((promote id l).order ≡ id ∷ rest)
      × ((k : String) → count k rest ≡ (if k == id then 0 else count k l.order))
unfolding promote count
promote-front id l d = elim (Bool-cases (has_session id l.order)) [
  | inl t ↦ (
    remove_element id l.order,
    rw t refl,
    λ k. ground (arith, d id, count-remove_element k id l.order t, eq_iff id k, eq_iff k id),
  )
  | inr f ↦ (l.order, rw f refl, λ k. ground (arith, absent-count id l.order f, eq_iff k id))
]

-- The back of an order with two sessions or more.
pub evict-cons :
    (l : Lru) (x y : String) (xs : List String)
    → l.order ≡ x ∷ y ∷ xs
    → ((evict l).0 ≡ (split_back y xs).1) × ((evict l).1.order ≡ x ∷ (split_back y xs).0)
unfolding evict evict_back split_back
evict-cons l x y xs e =
    subst
      (λ o.
        ((evict_back o l).0 ≡ (split_back y xs).1)
        × ((evict_back o l).1.order ≡ x ∷ (split_back y xs).0))
      (sym e) (refl, refl)
